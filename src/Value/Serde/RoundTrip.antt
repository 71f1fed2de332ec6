-- ===== src/Value/Serde/RoundTrip.antt =====
-- src/value/serde_impls.rs and src/ser.rs together: a value goes through serde unchanged.
use mmdb_writer.Base.{ℕ, ◌≡◌, refl, sym, ap, ◌∙◌, List, none, some}
use mathlib.Core.Path.{subst}
use mmdb_writer.Error.{ok}
use mmdb_writer.Value.{Value, Items, nil, cons, Fields, end, field}
use mmdb_writer.Value.Map.{IsSorted, insert_field}
use mmdb_writer.Value.Merge.{append_items}
use mmdb_writer.Value.Append.{
  append_fields, insert_field-Below, append_fields-more, IsSorted-Below, append_items-more,
}
use mmdb_writer.Value.Typed.{IsTyped, ItemsAreTyped, FieldsAreTyped}
use mmdb_writer.Value.Serde.{serialize, serialize_items, serialize_fields}
use mmdb_writer.Ser.{
  key_string, taken_key, serialize_value, serialize_elements, serialize_calls, to_value, top_level,
}

-- A new entry above all others, and then the rest.
pub insert_field-append :
    (k : List ℕ) (v : Value) (acc m : Fields)
    → IsSorted (append_fields acc (field k v m))
    → append_fields (insert_field k v acc) m ≡ append_fields acc (field k v m)
insert_field-append k v acc m s =
    ap (λ x. append_fields x m) (insert_field-Below k v acc (IsSorted-Below acc k v m s))
    ∙ append_fields-more acc k v m

pub append_items-nil : (items : Items) → append_items items nil ≡ items
unfolding append_items
append_items-nil nil = refl
append_items-nil (cons v items) = ap (cons v) (append_items-nil items)

pub append_fields-end : (m : Fields) → append_fields m end ≡ m
append_fields-end end = refl
append_fields-end (field k v m) = ap (field k v) (append_fields-end m)

mutual
  unfolding serialize_value serialize IsTyped taken_key key_string append_items

  pub serialize_value-serialize :
      (v : Value) → IsTyped v → serialize_value (serialize v) ≡ ok (some v)
  serialize_value-serialize (Value.map m) h = rw (serialize_calls-serialize m end h) refl
  serialize_value-serialize (Value.array items) h =
      rw (serialize_elements-serialize items nil h) refl
  serialize_value-serialize _ h = refl

  serialize_elements-serialize :
      (items acc : Items)
      → ItemsAreTyped items
      → serialize_elements (serialize_items items) acc ≡ ok (append_items acc items)
  serialize_elements-serialize nil acc h = ap ok (sym (append_items-nil acc))
  serialize_elements-serialize (cons v items) acc h = rw (serialize_value-serialize v h.0) (
      serialize_elements-serialize items (append_items acc (cons v nil)) h.1
      ∙ ap ok (append_items-more acc v items))

  serialize_calls-serialize :
      (m acc : Fields)
      → IsSorted (append_fields acc m) × FieldsAreTyped m
      → serialize_calls (serialize_fields m) (record { entries = acc; pending_key = none })
        ≡ ok (record { entries = append_fields acc m; pending_key = none })
  serialize_calls-serialize end acc h =
      ap (λ m. ok (record { entries = m; pending_key = none })) (sym (append_fields-end acc))
  serialize_calls-serialize (field k v m) acc h =
      let same = insert_field-append k v acc m h.0 in
      rw (serialize_value-serialize v h.1.1) (
        serialize_calls-serialize m (insert_field k v acc) (subst IsSorted (sym same) h.0, h.1.2)
        ∙ ap (λ x. ok (record { entries = x; pending_key = none })) same)

-- A value that Rust's types can hold, given to the serializer as any other serde value, comes out
-- unchanged.
pub to_value-serialize : (v : Value) → IsTyped v → to_value (serialize v) ≡ ok v
unfolding to_value top_level
to_value-serialize v h = rw (serialize_value-serialize v h) refl
