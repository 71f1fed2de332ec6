-- ===== src/Ser/Conversions.antt =====
-- The conversions of src/value.rs against the serializer of src/ser.rs.
use mmdb_writer.Base.{ℕ, ◌≡◌, refl, sym, ◌∙◌, ap, List, [], ◌∷◌, All, none, some}
use mmdb_writer.Error.{ok}
use mmdb_writer.Value.{Value, Items, nil, cons, Fields, end}
use mmdb_writer.Value.Map.{insert_field}
use mmdb_writer.Value.Merge.{append_items}
use mmdb_writer.Value.Append.{append_items-more}
use mmdb_writer.Value.Typed.{IsTyped}
use mmdb_writer.Value.Serde.{serialize}
use mmdb_writer.Value.Serde.RoundTrip.{serialize_value-serialize, append_items-nil}
use mmdb_writer.Value.From.{
  Datum, of_str, of_string, of_bool, of_f32, of_f64, of_u8, of_u16, of_u32, of_u64, of_u128, of_i8,
  of_i16, of_i32, of_bytes, of_values, of_fields, of_value, from, collect_fields, collect_items,
  converted, converted_items, map_from, array_from,
}
use mmdb_writer.Ser.Model.{Content, Elements, no_elements, element, MapCalls, no_calls}
use mmdb_writer.Ser.{
  key_string, taken_key, push_some, serialize_value, serialize_elements, serialize_calls, to_value,
  top_level,
}

-- The call on a serializer for what converts: that of its Rust type, and for a buffer of bytes the
-- one for bytes.
abbrev pub content : Datum → Content
content (of_str v) = Content.str v
content (of_string v) = Content.str v
content (of_bool v) = Content.bool v
content (of_f32 v) = Content.f32 v
content (of_f64 v) = Content.f64 v
content (of_u8 v) = Content.u8 v
content (of_u16 v) = Content.u16 v
content (of_u32 v) = Content.u32 v
content (of_u64 v) = Content.u64 v
content (of_u128 v) = Content.u128 v
content (of_i8 v) = Content.i8 v
content (of_i16 v) = Content.i16 v
content (of_i32 v) = Content.i32 v
content (of_bytes v) = Content.bytes v
content (of_values items) = serialize (Value.array items)
content (of_fields m) = serialize (Value.map m)
content (of_value v) = serialize v

-- The values within are such as Rust's types can hold.
abbrev pub HoldsTyped : Datum → Type 0
HoldsTyped (of_values items) = IsTyped (Value.array items)
HoldsTyped (of_fields m) = IsTyped (Value.map m)
HoldsTyped (of_value v) = IsTyped v
HoldsTyped _ = Unit {0}

-- The calls for a map of entries and for a sequence.
abbrev pub entry_calls : List (List ℕ × Datum) → MapCalls
entry_calls [] = no_calls
entry_calls ((k, d) ∷ entries) =
    MapCalls.key (Content.str k) (MapCalls.value (content d) (entry_calls entries))

abbrev pub item_calls : List Datum → Elements
item_calls [] = no_elements
item_calls (d ∷ items) = element (content d) (item_calls items)

serialize_value-from : (d : Datum) → HoldsTyped d → serialize_value (content d) ≡ ok (some (from d))
unfolding serialize_value from
serialize_value-from (of_values items) h = serialize_value-serialize (Value.array items) h
serialize_value-from (of_fields m) h = serialize_value-serialize (Value.map m) h
serialize_value-from (of_value v) h = serialize_value-serialize v h
serialize_value-from (of_str v) h = refl
serialize_value-from (of_string v) h = refl
serialize_value-from (of_bool v) h = refl
serialize_value-from (of_f32 v) h = refl
serialize_value-from (of_f64 v) h = refl
serialize_value-from (of_u8 v) h = refl
serialize_value-from (of_u16 v) h = refl
serialize_value-from (of_u32 v) h = refl
serialize_value-from (of_u64 v) h = refl
serialize_value-from (of_u128 v) h = refl
serialize_value-from (of_i8 v) h = refl
serialize_value-from (of_i16 v) h = refl
serialize_value-from (of_i32 v) h = refl
serialize_value-from (of_bytes v) h = refl

serialize_calls-collect :
    (entries : List (List ℕ × Datum)) (m : Fields)
    → All (λ e. HoldsTyped e.1) entries
    → serialize_calls (entry_calls entries) (record { entries = m; pending_key = none })
      ≡ ok (record { entries = collect_fields (converted entries) m; pending_key = none })
unfolding serialize_value collect_fields converted key_string taken_key
serialize_calls-collect [] m h = refl
serialize_calls-collect ((k, d) ∷ entries) m h =
    rw (serialize_value-from d h.0)
      (serialize_calls-collect entries (insert_field k (from d) m) h.1)

serialize_elements-collect :
    (items : List Datum) (acc : Items)
    → All HoldsTyped items
    → serialize_elements (item_calls items) acc
      ≡ ok (append_items acc (collect_items (converted_items items)))
unfolding serialize_value collect_items converted_items append_items push_some
serialize_elements-collect [] acc h = ap ok (sym (append_items-nil acc))
serialize_elements-collect (d ∷ items) acc h = rw (serialize_value-from d h.0) (
    serialize_elements-collect items (append_items acc (cons (from d) nil)) h.1
    ∙ ap ok (append_items-more acc (from d) (collect_items (converted_items items))))

-- What converts into a value becomes the same value through the serializer, if the values within it
-- are such as Rust's types can hold and a buffer of bytes is serialized as bytes: alone, in the
-- entries of a map, repeated keys included, which becomes what `Value::map` makes of the entries,
-- and in a sequence, which becomes what `Value::array` makes of the items.
pub to_value-conversions :
    (d : Datum) (entries : List (List ℕ × Datum)) (items : List Datum)
    → HoldsTyped d
    → All (λ e. HoldsTyped e.1) entries
    → All HoldsTyped items
    → (to_value (content d) ≡ ok (from d))
      × (to_value (Content.map (entry_calls entries)) ≡ ok (map_from entries))
      × (to_value (Content.seq (item_calls items)) ≡ ok (array_from items))
unfolding to_value top_level serialize_value map_from array_from append_items
to_value-conversions d entries items one all each = (
  rw (serialize_value-from d one) refl,
  rw (serialize_calls-collect entries end all) refl,
  rw (serialize_elements-collect items nil each) refl,
)
