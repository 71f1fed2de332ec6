-- ===== src/Ser.antt =====
-- src/ser.rs: the serializer that turns any serde value into a value of the data model, or into
-- nothing, which the parent drops.
pub mod Model
pub mod Accepted
pub mod Conversions
pub mod Ranges
pub mod Representable
pub mod Struct
pub mod Typed
use mmdb_writer.Base.{ℕ, ◌+◌, ◌/◌, ◌%◌, ◌^◌, List, [], ◌∷◌, Option, none, some, ltb, if◌then◌else◌}
use mmdb_writer.Error.{
  Result, ok, err, ◌>>=◌, SerdeError, unsupported_value, serialize, Unsupported,
}
use mmdb_writer.Value.{Value, Items, nil, cons, Fields, end}
use mmdb_writer.Value.Map.{insert_field}
use mmdb_writer.Value.Merge.{append_items}
use mmdb_writer.Ser.Model.{
  Content, Elements, no_elements, element, MapCalls, no_calls, Members, no_members, member,
}

-- `Out`: `none` drops the entry.
abbrev pub Out : Type 0
Out = Result SerdeError (Option Value)

-- `char::to_string`: the UTF-8 bytes of a code point.
unfoldable pub char_to_string : ℕ → List ℕ
char_to_string c =
    if ltb c 128
    then c ∷ []
    else if ltb c 2048
    then (192 + c / 64) ∷ (128 + c % 64) ∷ []
    else if ltb c 65536
    then (224 + c / 4096) ∷ (128 + c / 64 % 64) ∷ (128 + c % 64) ∷ []
    else (240 + c / 262144) ∷ (128 + c / 4096 % 64) ∷ (128 + c / 64 % 64) ∷ (128 + c % 64) ∷ []

-- `if let Some(v) = … { self.items.push(v) }`
unfoldable pub push_some : Option Value → Items → Items
push_some none items = items
push_some (some v) items = append_items items (cons v nil)

-- `if let Some(v) = … { entries.insert(key, v) }`
unfoldable pub insert_some : List ℕ → Option Value → Fields → Fields
insert_some k none entries = entries
insert_some k (some v) entries = insert_field k v entries

-- The map of a tagged variant.
unfoldable pub tagged : List ℕ → Value → Value
tagged variant v = Value.map (insert_field variant v end)

pub record MapSer : Type 0 where
  pub entries : Fields
  pub pending_key : Option (List ℕ)

-- What `serialize_key` makes of the serialized key.
unfoldable pub key_string : Option Value → Result SerdeError (List ℕ)
key_string none = err (unsupported_value Unsupported.null_map_key)
key_string (some (Value.string k)) = ok k
key_string (some _) = err (unsupported_value Unsupported.non_string_map_key)

-- `pending_key.take().ok_or(…)`
unfoldable pub taken_key : Option (List ℕ) → Result SerdeError (List ℕ)
taken_key none = err (unsupported_value Unsupported.value_before_key)
taken_key (some k) = ok k

unfoldable mutual
  unfolding char_to_string push_some insert_some tagged key_string taken_key

  -- The `serialize` of a value with a `ValueSerializer`.
  pub serialize_value : Content → Out
  serialize_value (Content.bool v) = ok (some (Value.bool v))
  serialize_value (Content.i8 v) = ok (some (Value.i32 v))
  serialize_value (Content.i16 v) = ok (some (Value.i32 v))
  serialize_value (Content.i32 v) = ok (some (Value.i32 v))
  serialize_value (Content.i64 v) = err (unsupported_value Unsupported.i64)
  serialize_value (Content.u8 v) = ok (some (Value.u16 v))
  serialize_value (Content.u16 v) = ok (some (Value.u16 v))
  serialize_value (Content.u32 v) = ok (some (Value.u32 v))
  serialize_value (Content.u64 v) = ok (some (Value.u64 v))
  serialize_value (Content.u128 v) = ok (some (Value.u128 v))
  serialize_value (Content.f32 v) = ok (some (Value.float v))
  serialize_value (Content.f64 v) = ok (some (Value.double v))
  serialize_value (Content.char v) = ok (some (Value.string (char_to_string v)))
  serialize_value (Content.str v) = ok (some (Value.string v))
  serialize_value (Content.bytes v) = ok (some (Value.bytes v))
  serialize_value Content.none = ok none
  serialize_value (Content.some v) = serialize_value v
  serialize_value Content.unit = ok none
  serialize_value Content.unit_struct = ok none
  serialize_value (Content.unit_variant variant) = ok (some (Value.string variant))
  serialize_value (Content.newtype_struct v) = serialize_value v
  serialize_value (Content.newtype_variant variant v) = do
    out ← serialize_value v
    ok (some (Value.map (insert_some variant out end)))
  serialize_value (Content.seq es) = do
    items ← serialize_elements es nil
    ok (some (Value.array items))
  serialize_value (Content.tuple es) = do
    items ← serialize_elements es nil
    ok (some (Value.array items))
  serialize_value (Content.tuple_struct es) = do
    items ← serialize_elements es nil
    ok (some (Value.array items))
  serialize_value (Content.tuple_variant variant es) = do
    items ← serialize_elements es nil
    ok (some (tagged variant (Value.array items)))
  serialize_value (Content.map calls) = do
    s ← serialize_calls calls (record { entries = end; pending_key = none })
    ok (some (Value.map s.entries))
  serialize_value (Content.struct ms) = do
    entries ← serialize_members ms end
    ok (some (Value.map entries))
  serialize_value (Content.struct_variant variant ms) = do
    entries ← serialize_members ms end
    ok (some (tagged variant (Value.map entries)))
  serialize_value (Content.custom msg) = err (serialize msg)

  -- `SeqSer` and `TupleVariantSer`, from the items so far.
  pub serialize_elements : Elements → Items → Result SerdeError Items
  serialize_elements no_elements items = ok items
  serialize_elements (element v es) items = do
    out ← serialize_value v
    serialize_elements es (push_some out items)

  -- `MapSer` as a `SerializeMap`. A key that is pending at the end is lost.
  pub serialize_calls : MapCalls → MapSer → Result SerdeError MapSer
  serialize_calls no_calls s = ok s
  serialize_calls (MapCalls.key k calls) s = do
    key_value ← serialize_value k
    name ← key_string key_value
    serialize_calls calls (record s { pending_key = some name })
  serialize_calls (MapCalls.value v calls) s = do
    name ← taken_key s.pending_key
    out ← serialize_value v
    serialize_calls calls (record { entries = insert_some name out s.entries; pending_key = none })

  -- `MapSer` as a `SerializeStruct` and `StructVariantSer`, from the entries so far.
  pub serialize_members : Members → Fields → Result SerdeError Fields
  serialize_members no_members entries = ok entries
  serialize_members (member name v ms) entries = do
    out ← serialize_value v
    serialize_members ms (insert_some name out entries)

-- `.ok_or(…)`
unfoldable pub top_level : Option Value → Result SerdeError Value
top_level none = err (unsupported_value Unsupported.top_level_null)
top_level (some v) = ok v

unfoldable pub to_value : Content → Result SerdeError Value
to_value content = do out ← serialize_value content; top_level out
