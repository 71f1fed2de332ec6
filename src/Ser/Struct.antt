-- ===== src/Ser/Struct.antt =====
-- The structs of src/ser.rs: which entries the map of a struct has.
use mmdb_writer.Base.{
  ℕ, ◌≡◌, refl, sym, ap, ◌∙◌, List, Option, none, some, if◌then◌else◌, inl, inr, Bool-cases,
}
use mathlib.Core.Path.{subst}
use mmdb_writer.Error.{Result, ok, err, SerdeError, Yields, Yields-bind, Yields-eq_ok}
use mmdb_writer.Value.{Value, Fields, end, bytes_eq}
use mmdb_writer.Value.Map.{get_field, IsSorted, get_field-insert_field, insert_field-IsSorted}
use mmdb_writer.Value.Merge.{newer}
use mmdb_writer.Ser.{insert_some, serialize_value, serialize_members, to_value, top_level}
use mmdb_writer.Ser.Model.{Content, Members, no_members, member}

-- What a serialization gives, `none` if it fails.
abbrev pub out_of : Result SerdeError (Option Value) → Option Value
out_of (ok out) = out
out_of (err e) = none

-- The value of the last member of a name that is not null.
unfoldable pub last_member : List ℕ → Members → Option Value
last_member k no_members = none
last_member k (member name v ms) =
    newer (last_member k ms) (if bytes_eq k name then out_of (serialize_value v) else none)

newer_assoc : (a b c : Option Value) → newer a (newer b c) ≡ newer (newer a b) c
newer_assoc none b c = refl
newer_assoc (some v) b c = refl

out_of-ok : (r : Result SerdeError (Option Value)) → Yields (λ out. out ≡ out_of r) r
out_of-ok (ok out) = refl
out_of-ok (err e) = tt

get_field-insert_some :
    (k name : List ℕ) (out : Option Value) (m : Fields)
    → get_field k (insert_some name out m)
      ≡ newer (if bytes_eq k name then out else none) (get_field k m)
unfolding insert_some
get_field-insert_some k name none m = elim (Bool-cases (bytes_eq k name)) [
  | inl e ↦ rw e refl
  | inr e ↦ rw e refl
]
get_field-insert_some k name (some v) m =
    get_field-insert_field k name v m
    ∙ elim (Bool-cases (bytes_eq k name)) [ inl e ↦ rw e refl | inr e ↦ rw e refl ]

insert_some-IsSorted :
    (name : List ℕ) (out : Option Value) (m : Fields)
    → IsSorted m
    → IsSorted (insert_some name out m)
unfolding insert_some
insert_some-IsSorted name none m s = s
insert_some-IsSorted name (some v) m s = insert_field-IsSorted name v m s

-- `m` holds the members over the entries of `acc`.
abbrev HoldsMembers : Members → Fields → Fields → Type 0
HoldsMembers ms acc m =
    IsSorted m × ((k : List ℕ) → get_field k m ≡ newer (last_member k ms) (get_field k acc))

HoldsMembers-more :
    (name : List ℕ) (v : Content) (ms : Members) (out : Option Value) (acc m : Fields)
    → out ≡ out_of (serialize_value v)
    → HoldsMembers ms (insert_some name out acc) m
    → HoldsMembers (member name v ms) acc m
unfolding last_member
HoldsMembers-more name v ms out acc m e h = (
  h.0,
  λ k.
      h.1 k
      ∙ ap (newer (last_member k ms)) (get_field-insert_some k name out acc)
      ∙ newer_assoc (last_member k ms) _ (get_field k acc)
      ∙ ap
          (λ x.
            newer (newer (last_member k ms) (if bytes_eq k name then x else none))
              (get_field k acc))
          e,
)

Yields-imp :
    {A : Type 0} (P Q : A → Type 0) (r : Result SerdeError A)
    → Yields P r
    → ((a : A) → P a → Q a)
    → Yields Q r
Yields-imp P Q (ok a) h f = f a h
Yields-imp P Q (err e) h f = tt

serialize_members-Holds :
    (ms : Members) (acc : Fields)
    → IsSorted acc
    → Yields (HoldsMembers ms acc) (serialize_members ms acc)
unfolding serialize_value last_member
serialize_members-Holds no_members acc s = (s, λ k. refl)
serialize_members-Holds (member name v ms) acc s =
    Yields-bind (λ out. out ≡ out_of (serialize_value v)) _ (serialize_value v) _
      (out_of-ok (serialize_value v))
      λ out e.
        Yields-imp (HoldsMembers ms (insert_some name out acc))
          (HoldsMembers (member name v ms) acc) _
          (serialize_members-Holds ms (insert_some name out acc)
            (insert_some-IsSorted name out acc s))
          λ m h. HoldsMembers-more name v ms out acc m e h

-- The map of the members.
abbrev pub IsMapOf : Members → Value → Type 0
IsMapOf ms v =
    (m : Fields) × (v ≡ Value.map m)
    × IsSorted m
    × ((k : List ℕ) → get_field k m ≡ last_member k ms)

newer-none : (a : Option Value) → newer a none ≡ a
newer-none none = refl
newer-none (some v) = refl

-- A serde struct that serializes becomes a map with ascending keys, in which a name has the value
-- of the last field of that name that is not null, and no entry if every such field is null or
-- there is none.
pub to_value-struct :
    (ms : Members) (v : Value) → to_value (Content.struct ms) ≡ ok v → IsMapOf ms v
unfolding to_value serialize_value top_level get_field
to_value-struct ms v e = Yields-eq_ok (IsMapOf ms) (to_value (Content.struct ms)) v e (
    Yields-bind (λ out. (w : Value) × (out ≡ some w) × IsMapOf ms w) (IsMapOf ms) _ top_level
      (Yields-bind (HoldsMembers ms end) _ (serialize_members ms end) _
        (serialize_members-Holds ms end tt)
        λ m h. (Value.map m, refl, (m, refl, h.0, λ k. h.1 k ∙ newer-none (last_member k ms))))
      λ out p. subst (λ x. Yields (IsMapOf ms) (top_level x)) (sym p.1) p.2)
