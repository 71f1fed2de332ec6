-- ===== src/DataSection.antt =====
-- src/data_section.rs: the stateful encoder with its deduplication table. `Vec<u8>` is a list of
-- numbers below 256.
pub mod Tags
pub mod Bytes
pub mod Reader
pub mod Control
pub mod Pointer
pub mod Integers
pub mod Format
pub mod Frame
pub mod Encodable
pub mod Emit
pub mod Growth
pub mod Header
pub mod RoundTrip
pub mod Push
use mmdb_writer.Base.{
  ℕ, ◌+◌, ◌-◌, List, [], ◌∷◌, ◌++◌, Bool, true, false, Option, none, some, ltb, if◌then◌else◌,
  length,
}
use mmdb_writer.Value.{
  Value, string, double, bytes, u16, u32, map, i32, u64, u128, array, bool, float, Items, nil, cons,
  Fields, end, field, value_eq, items_len, fields_len,
}
use mmdb_writer.DataSection.Tags.{TypeTag, ExtendedType, extended_code}
use mmdb_writer.DataSection.Bytes.{
  u32_len, be_bytes, encode_uint_trimmed, encode_i32_trimmed, pointer_bytes, control_bytes,
  pointer_encoding,
}

pub record DedupEntry : Type 0 where
  pub offset : ℕ
  pub len : ℕ

-- The hash map is an association list, a new entry first.
pub record DataSection : Type 0 where
  pub buf : List ℕ
  pub dedup : List (Value × DedupEntry)
  pub no_pointers : Bool

unfoldable pub new : DataSection
new = record { buf = []; dedup = []; no_pointers = false }

unfoldable pub without_pointers : DataSection
unfolding new
without_pointers = record new { no_pointers = true }

unfoldable pub find : List (Value × DedupEntry) → Value → Option DedupEntry
find [] v = none
find ((w, e) ∷ m) v = if value_eq w v then some e else find m v

unfoldable pub extend : List ℕ → DataSection → DataSection
extend xs s = record s { buf = s.buf ++ xs }

unfoldable pub write_control_byte : TypeTag → ℕ → DataSection → DataSection
write_control_byte tag size = extend (control_bytes tag size)

unfoldable pub write_pointer : ℕ → DataSection → DataSection
write_pointer offset = extend (pointer_encoding offset)

unfoldable pub write_blob : TypeTag → List ℕ → DataSection → DataSection
write_blob tag payload s = extend payload (write_control_byte tag (length payload) s)

unfoldable pub write_uint : TypeTag → ℕ → ℕ → DataSection → DataSection
write_uint tag value max_bytes s =
    let r = encode_uint_trimmed value max_bytes in extend r.0 (write_control_byte tag r.1 s)

unfoldable pub write_extended_header : ExtendedType → ℕ → DataSection → DataSection
write_extended_header ext size s =
    extend (extended_code ext ∷ []) (write_control_byte TypeTag.extended size s)

-- The payload comes with its length, as the closure returns it.
unfoldable pub write_extended : ExtendedType → List ℕ × ℕ → DataSection → DataSection
write_extended ext payload s = extend payload.0 (write_extended_header ext payload.1 s)

-- `entry(value).or_insert(e)`: the first entry stays.
unfoldable pub or_insert : Value → DedupEntry → DataSection → DataSection
or_insert value e s = elim (find s.dedup value) [
  | some _ ↦ s
  | none ↦ record s { dedup = (value, e) ∷ s.dedup }
]

-- The entry for a value that was emitted between the two states. `saturating_sub` is the truncated
-- difference.
unfoldable pub emitted : DataSection → DataSection → DedupEntry
emitted before after = record {
  offset = u32_len before.buf;
  len = u32_len after.buf - u32_len before.buf;
}

-- `emit_inline`, given the call `encode value` that it makes.
unfoldable pub emit_inline : (DataSection → DataSection) → Value → DataSection → DataSection
emit_inline encode_value value s =
    let after = encode_value s in
    let fresh = or_insert value (emitted s after) after in
    if s.no_pointers then fresh else (elim (find s.dedup value) [
      | some entry ↦
          if ltb (pointer_bytes entry.offset) entry.len then write_pointer entry.offset s else fresh
      | none ↦ fresh
    ])

unfoldable mutual
  pub encode : Value → DataSection → DataSection
  encode (string s) d = write_blob TypeTag.utf8 s d
  encode (double x) d = extend (be_bytes 8 x) (write_control_byte TypeTag.double 8 d)
  encode (bytes b) d = write_blob TypeTag.bytes b d
  encode (u16 n) d = write_uint TypeTag.uint16 n 2 d
  encode (u32 n) d = write_uint TypeTag.uint32 n 4 d
  encode (map m) d = encode_fields m (write_control_byte TypeTag.map (fields_len m) d)
  encode (i32 n) d = write_extended ExtendedType.int32 (encode_i32_trimmed n) d
  encode (u64 n) d = write_extended ExtendedType.uint64 (encode_uint_trimmed n 8) d
  encode (u128 n) d = write_extended ExtendedType.uint128 (encode_uint_trimmed n 16) d
  encode (array items) d =
      encode_items items (write_extended_header ExtendedType.array (items_len items) d)
  encode (bool b) d = write_extended_header ExtendedType.bool (if b then 1 else 0) d
  encode (float f) d = extend (be_bytes 4 f) (write_extended_header ExtendedType.float 4 d)

  -- `for (k, v) in m`
  pub encode_fields : Fields → DataSection → DataSection
  encode_fields end d = d
  encode_fields (field k v m) d =
      encode_fields m
        (emit_inline (encode v) v (emit_inline (write_blob TypeTag.utf8 k) (string k) d))

  -- `for item in items`
  pub encode_items : Items → DataSection → DataSection
  encode_items nil d = d
  encode_items (cons v items) d = encode_items items (emit_inline (encode v) v d)

-- `&mut self` and the offset.
unfoldable pub push : Value → DataSection → DataSection × ℕ
push value s = elim (find s.dedup value) [
  | some entry ↦ (s, entry.offset)
  | none ↦
      let after = encode value s in
      (record after { dedup = (value, emitted s after) ∷ after.dedup }, u32_len s.buf)
]

unfoldable pub into_bytes : DataSection → List ℕ
into_bytes s = s.buf

unfoldable pub len : DataSection → ℕ
len s = length s.buf
