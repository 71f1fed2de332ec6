-- ===== src/Value/Serde.antt =====
-- src/value/serde_impls.rs: how a value serializes itself, and the visitor that makes a value of
-- what a deserializer shows it. A deserializer is the calls that it makes on the visitor.
pub mod RoundTrip
pub mod Shown
use mmdb_writer.Base.{ℕ, ◌^◌, List, Bool, ltb, if◌then◌else◌}
use mmdb_writer.Error.{Result, ok, err, ◌>>=◌}
use mmdb_writer.Value.{ℤ, pos, negsuc, Value, Items, nil, cons, Fields, end, field}
use mmdb_writer.Value.Map.{insert_field}
use mmdb_writer.Value.Merge.{append_items}
use mmdb_writer.Ser.Model.{Content, Elements, no_elements, element, MapCalls, no_calls}

-- `impl Serialize for Value`; `serialize_entry` is a key and then its value.
unfoldable mutual
  pub serialize : Value → Content
  serialize (Value.string s) = Content.str s
  serialize (Value.double d) = Content.f64 d
  serialize (Value.bytes b) = Content.bytes b
  serialize (Value.u16 n) = Content.u16 n
  serialize (Value.u32 n) = Content.u32 n
  serialize (Value.i32 n) = Content.i32 n
  serialize (Value.u64 n) = Content.u64 n
  serialize (Value.u128 n) = Content.u128 n
  serialize (Value.bool b) = Content.bool b
  serialize (Value.float f) = Content.f32 f
  serialize (Value.map m) = Content.map (serialize_fields m)
  serialize (Value.array items) = Content.seq (serialize_items items)

  pub serialize_items : Items → Elements
  serialize_items nil = no_elements
  serialize_items (cons v items) = element (serialize v) (serialize_items items)

  pub serialize_fields : Fields → MapCalls
  serialize_fields end = no_calls
  serialize_fields (field k v m) =
      MapCalls.key (Content.str k) (MapCalls.value (serialize v) (serialize_fields m))

-- The calls on the visitor, one constructor for each method that it has. `refused` is an error of
-- the deserializer, or one of the methods that the visitor leaves as the trait has them.
mutual
  pub data Visit : Type 0 where
    bool : Bool → Visit
    i8 i16 i32 i64 : ℤ → Visit
    u8 u16 u32 u64 u128 : ℕ → Visit
    f32 f64 : ℕ → Visit
    str string bytes byte_buf : List ℕ → Visit
    seq : SeqAccess → Visit
    map : MapAccess → Visit
    refused : List ℕ → Visit

  pub data SeqAccess : Type 0 where
    seq_end : SeqAccess
    next_element : Visit → SeqAccess → SeqAccess
    seq_error : List ℕ → SeqAccess

  -- The keys come as strings.
  pub data MapAccess : Type 0 where
    map_end : MapAccess
    next_entry : List ℕ → Visit → MapAccess → MapAccess
    map_error : List ℕ → MapAccess

pub data VisitError : Type 0 where
  i64_outside_int32 : VisitError
  of_deserializer : List ℕ → VisitError

-- `i32::try_from`
unfoldable pub try_i32 : ℤ → Result VisitError Value
try_i32 (pos n) = if ltb n (2 ^ 31) then ok (Value.i32 (pos n)) else err i64_outside_int32
try_i32 (negsuc n) = if ltb n (2 ^ 31) then ok (Value.i32 (negsuc n)) else err i64_outside_int32

unfoldable mutual
  unfolding try_i32

  pub visit : Visit → Result VisitError Value
  visit (Visit.bool v) = ok (Value.bool v)
  visit (Visit.i8 v) = ok (Value.i32 v)
  visit (Visit.i16 v) = ok (Value.i32 v)
  visit (Visit.i32 v) = ok (Value.i32 v)
  visit (Visit.i64 v) = try_i32 v
  visit (Visit.u8 v) = ok (Value.u16 v)
  visit (Visit.u16 v) = ok (Value.u16 v)
  visit (Visit.u32 v) = ok (Value.u32 v)
  visit (Visit.u64 v) = ok (Value.u64 v)
  visit (Visit.u128 v) = ok (Value.u128 v)
  visit (Visit.f32 v) = ok (Value.float v)
  visit (Visit.f64 v) = ok (Value.double v)
  visit (Visit.str v) = ok (Value.string v)
  visit (Visit.string v) = ok (Value.string v)
  visit (Visit.bytes v) = ok (Value.bytes v)
  visit (Visit.byte_buf v) = ok (Value.bytes v)
  visit (Visit.seq access) = do items ← visit_seq access nil; ok (Value.array items)
  visit (Visit.map access) = do entries ← visit_map access end; ok (Value.map entries)
  visit (Visit.refused msg) = err (of_deserializer msg)

  -- The two loops, from what they have collected.
  pub visit_seq : SeqAccess → Items → Result VisitError Items
  visit_seq seq_end items = ok items
  visit_seq (next_element x access) items = do
    item ← visit x
    visit_seq access (append_items items (cons item nil))
  visit_seq (seq_error msg) items = err (of_deserializer msg)

  pub visit_map : MapAccess → Fields → Result VisitError Fields
  visit_map map_end entries = ok entries
  visit_map (next_entry k x access) entries = do
    v ← visit x
    visit_map access (insert_field k v entries)
  visit_map (map_error msg) entries = err (of_deserializer msg)
