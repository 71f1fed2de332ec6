-- ===== src/Value/Merge.antt =====
-- src/value.rs: the two ways in which a new value is merged onto an existing one.
use mmdb_writer.Base.{ℕ, ◌≡◌, refl, sym, ◌∙◌, ap, Option, none, some, List, inl, inr, Bool-cases}
use mathlib.Core.Path.{subst}
use mmdb_writer.Value.{Value, map, array, Items, nil, cons, Fields, end, field, bytes_eq}
use mmdb_writer.Value.Equality.{bytes_eq→eq}
use mmdb_writer.Value.Map.{
  get_field, insert_field, IsSorted, get_field-insert_field, insert_field-IsSorted, get_field-Above,
}

-- `for (k, v) in new_map { merged.insert(…) }`
unfoldable pub insert_all : Fields → Fields → Fields
insert_all end merged = merged
insert_all (field k v new_map) merged = insert_all new_map (insert_field k v merged)

unfoldable pub merge_top_level : Value → Value → Value
merge_top_level (map old) (map new_map) = map (insert_all new_map old)
merge_top_level _ new_value = new_value

-- `merged.extend(…)`
unfoldable pub append_items : Items → Items → Items
append_items nil new_arr = new_arr
append_items (cons v old) new_arr = cons v (append_items old new_arr)

unfoldable mutual
  pub merge_deep : Value → Value → Value
  merge_deep (map old) (map new_map) = map (merge_fields new_map old)
  merge_deep (array old) (array new_arr) = array (append_items old new_arr)
  merge_deep _ new_value = new_value

  -- The loop over the new map.
  pub merge_fields : Fields → Fields → Fields
  merge_fields end merged = merged
  merge_fields (field k v new_map) merged = merge_fields new_map (
      insert_field k (elim (get_field k merged) [ some prev ↦ merge_deep prev v | none ↦ v ])
        merged)

-- The entry of the merged map, from the entries of the new map and of the old one.
abbrev pub newer : Option Value → Option Value → Option Value
newer (some v) old = some v
newer none old = old

abbrev pub deeper : Option Value → Option Value → Option Value
deeper (some v) (some prev) = some (merge_deep prev v)
deeper (some v) none = some v
deeper none old = old

insert_all-get :
    (new_map old : Fields)
    → IsSorted new_map
    → (k : List ℕ)
    → get_field k (insert_all new_map old) ≡ newer (get_field k new_map) (get_field k old)
unfolding insert_all get_field
insert_all-get end old s k = refl
insert_all-get (field j v new_map) old s k =
    insert_all-get new_map (insert_field j v old) s.1 k
    ∙ rw (get_field-insert_field k j v old) (elim (Bool-cases (bytes_eq k j)) [
      | inl e ↦
          rw
            (
              e,
              subst (λ x. get_field x new_map ≡ none) (sym (bytes_eq→eq k j e))
                  (get_field-Above j new_map s.0),
            )
            refl
      | inr e ↦ rw e refl
    ])

abbrev combined : Value → Option Value → Value
combined v (some prev) = merge_deep prev v
combined v none = v

merge_fields_step :
    (j : List ℕ) (v : Value) (new_map old : Fields)
    → merge_fields (field j v new_map) old
      ≡ merge_fields new_map (insert_field j (combined v (get_field j old)) old)
unfolding merge_deep
merge_fields_step j v new_map old = refl

combined-deeper : (v : Value) (o : Option Value) → some (combined v o) ≡ deeper (some v) o
combined-deeper v (some prev) = refl
combined-deeper v none = refl

merge_fields_end : (old : Fields) → merge_fields end old ≡ old
unfolding merge_deep
merge_fields_end old = refl

merge_fields-get :
    (new_map old : Fields)
    → IsSorted new_map
    → (k : List ℕ)
    → get_field k (merge_fields new_map old) ≡ deeper (get_field k new_map) (get_field k old)
unfolding get_field
merge_fields-get end old s k = ap (get_field k) (merge_fields_end old)
merge_fields-get (field j v new_map) old s k =
    ap (get_field k) (merge_fields_step j v new_map old)
    ∙ merge_fields-get new_map (insert_field j (combined v (get_field j old)) old) s.1 k
    ∙ rw (get_field-insert_field k j (combined v (get_field j old)) old)
        (elim (Bool-cases (bytes_eq k j)) [
          | inl e ↦
              let same = bytes_eq→eq k j e in
              rw
                (
                  e,
                  subst (λ x. get_field x new_map ≡ none) (sym same)
                      (get_field-Above j new_map s.0),
                )
                (combined-deeper v (get_field j old)
                  ∙ ap (λ x. deeper (some v) (get_field x old)) (sym same))
          | inr e ↦ rw e refl
        ])

insert_all-IsSorted : (new_map old : Fields) → IsSorted old → IsSorted (insert_all new_map old)
unfolding insert_all
insert_all-IsSorted end old s = s
insert_all-IsSorted (field k v new_map) old s =
    insert_all-IsSorted new_map (insert_field k v old) (insert_field-IsSorted k v old s)

merge_fields-IsSorted : (new_map old : Fields) → IsSorted old → IsSorted (merge_fields new_map old)
merge_fields-IsSorted end old s = subst IsSorted (sym (merge_fields_end old)) s
merge_fields-IsSorted (field k v new_map) old s =
    subst IsSorted (sym (merge_fields_step k v new_map old))
      (merge_fields-IsSorted new_map _ (insert_field-IsSorted k _ old s))

both_maps :
    (old new_map : Fields) → merge_deep (map old) (map new_map) ≡ map (merge_fields new_map old)
unfolding merge_deep
both_maps old new_map = refl

-- The top-level merge of two maps with sorted keys is a map, sorted as the old one is, in which
-- every key has the new map's value if it has one there, and the old map's otherwise.
pub merge_top_level-get :
    (old new_map : Fields)
    → IsSorted old
    → IsSorted new_map
    → (merged : Fields) × (merge_top_level (map old) (map new_map) ≡ map merged)
      × IsSorted merged
      × ((k : List ℕ) → get_field k merged ≡ newer (get_field k new_map) (get_field k old))
unfolding merge_top_level
merge_top_level-get old new_map so sn = (
  insert_all new_map old,
  refl,
  insert_all-IsSorted new_map old so,
  insert_all-get new_map old sn,
)

-- The deep merge of two maps with sorted keys is a map, sorted as the old one is, in which a key of
-- both has the deep merge of their values, and any other the value that one of them has.
pub merge_deep-get :
    (old new_map : Fields)
    → IsSorted old
    → IsSorted new_map
    → (merged : Fields) × (merge_deep (map old) (map new_map) ≡ map merged)
      × IsSorted merged
      × ((k : List ℕ) → get_field k merged ≡ deeper (get_field k new_map) (get_field k old))
merge_deep-get old new_map so sn = (
  merge_fields new_map old,
  both_maps old new_map,
  merge_fields-IsSorted new_map old so,
  merge_fields-get new_map old sn,
)
