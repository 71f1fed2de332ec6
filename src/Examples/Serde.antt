-- ===== src/Examples/Serde.antt =====
-- The theorems on src/ser.rs and src/value/serde_impls.rs at a struct and a map.
use mmdb_writer.Value.From.{Datum, of_u8, of_i8, of_u32, of_f32, of_str, from, map_from, array_from}
use mmdb_writer.Ser.Conversions.{entry_calls, item_calls, to_value-conversions}
use mmdb_writer.Base.{ℕ, ◌≡◌, refl, ◌↔◌, List, [], ◌∷◌, arith}
use mmdb_writer.Error.{ok}
use mmdb_writer.Value.{Value, negsuc, nil, cons, end, field, bytes_eq}
use mmdb_writer.Value.Map.{insert_field, bytes_lt}
use mmdb_writer.Value.Merge.{append_items}
use mmdb_writer.Value.Typed.{IsTyped}
use mmdb_writer.Value.Serde.{Visit, seq_end, next_element, map_end, next_entry, visit, serialize}
use mmdb_writer.Value.Serde.RoundTrip.{to_value-serialize}
use mmdb_writer.Value.Serde.Shown.{Shows, visit-Shows}
use mmdb_writer.Ser.Model.{Content, no_elements, element, Members, no_members, member}
use mmdb_writer.Ser.{to_value, top_level, serialize_value}
use mmdb_writer.Ser.Ranges.{ContentIsTyped}
use mmdb_writer.Ser.Typed.{to_value-IsTyped}
use mmdb_writer.Ser.Accepted.{IsRepresentable, IsNull}
use mmdb_writer.Ser.Representable.{to_value-Representable}
use mmdb_writer.Ser.Struct.{IsMapOf, to_value-struct}

abbrev ab : List ℕ
ab = b'a' ∷ b'b' ∷ []

abbrev c : List ℕ
c = b'c' ∷ []

-- `{ c: Some(-3i8), ab: ('x', ()), c: None }`
abbrev members : Members
members = member c (Content.some (Content.i8 (negsuc 2))) (
    member ab (Content.tuple (element (Content.char b'x') (element Content.unit no_elements)))
      (member c Content.none no_members))

-- `{ "ab": ["x"], "c": -3 }`
abbrev made : Value
made = Value.map (
    field ab (Value.array (cons (Value.string (b'x' ∷ [])) nil))
      (field c (Value.i32 (negsuc 2)) end))

members-made : to_value (Content.struct members) ≡ ok made
unfolding to_value top_level serialize_value append_items insert_field bytes_lt bytes_eq
members-made = refl

to_value-IsTyped_example : IsTyped made
unfolding ContentIsTyped
to_value-IsTyped_example = to_value-IsTyped (Content.struct members) made (omega arith) members-made

to_value-Representable_example :
    ((v : Value) × (to_value (Content.struct members) ≡ ok v))
    ↔ (IsRepresentable (Content.struct members) × ¬ IsNull (Content.struct members))
to_value-Representable_example = to_value-Representable (Content.struct members)

to_value-struct_example : IsMapOf members made
to_value-struct_example = to_value-struct members made members-made

made-IsTyped : IsTyped made
unfolding IsTyped bytes_lt
made-IsTyped = (((refl, tt), (tt, tt)), omega arith)

to_value-serialize_example : to_value (serialize made) ≡ ok made
to_value-serialize_example = to_value-serialize made made-IsTyped

-- The same map, its number as an i64.
abbrev shown : Visit
shown = Visit.map (
    next_entry ab (Visit.seq (next_element (Visit.str (b'x' ∷ [])) seq_end))
      (next_entry c (Visit.i64 (negsuc 2)) map_end))

visit-Shows_example : visit shown ≡ ok made
unfolding Shows
visit-Shows_example = visit-Shows made shown made-IsTyped (refl, (refl, tt), (refl, refl, tt))

-- Entries with the keys "a", "b" and "a".
abbrev thrice : List (List ℕ × Datum)
thrice = ((97 ∷ []), of_u8 1) ∷ ((98 ∷ []), of_i8 (negsuc 2)) ∷ ((97 ∷ []), of_u32 3) ∷ []

to_value-conversions_example :
    (to_value (Content.f32 7) ≡ ok (from (of_f32 7)))
    × (to_value (Content.map (entry_calls thrice)) ≡ ok (map_from thrice))
    × (to_value (Content.seq (item_calls (of_str (97 ∷ []) ∷ [])))
        ≡ ok (array_from (of_str (97 ∷ []) ∷ [])))
to_value-conversions_example =
    to_value-conversions (of_f32 7) thrice (of_str (97 ∷ []) ∷ []) tt (tt, (tt, (tt, tt))) (tt, tt)
