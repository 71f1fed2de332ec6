-- ===== src/DataSection/Growth.antt =====
-- The encoder only appends: the buffer never gets shorter.
use mmdb_writer.Base.{ℕ, ◌≤◌, ◌≡◌, List, length, length-append, arith}
use native.Mathlib.Nat.{le_trans}
use mmdb_writer.Value.{
  Value, string, double, bytes, u16, u32, map, i32, u64, u128, array, bool, float, Items, nil, cons,
  Fields, end, field, items_len,
}
use mmdb_writer.DataSection.Tags.{TypeTag, ExtendedType}
use mmdb_writer.DataSection.Bytes.{be_bytes}
use mmdb_writer.DataSection.Emit.{
  emit_inline-grows, write_blob-extend, write_uint-extend, write_extended_header-extend,
  payload-extend, extended_payload-extend,
}
use mmdb_writer.DataSection.{
  write_control_byte, DataSection, extend, write_blob, write_extended, encode, encode_fields,
  encode_items,
}

extend-grows : (c : List ℕ) (d : DataSection) → length d.buf ≤ length (extend c d).buf
unfolding extend
extend-grows c d = omega (arith, length-append d.buf c)

grows_by :
    (d : DataSection) {d' : DataSection} (c : List ℕ)
    → d' ≡ extend c d
    → length d.buf ≤ length d'.buf
grows_by d c e = rw e (extend-grows c d)

pub blob-grows :
    (k : List ℕ) (d : DataSection) → length d.buf ≤ length (write_blob TypeTag.utf8 k d).buf
blob-grows k d = grows_by d _ (write_blob-extend TypeTag.utf8 k d)

mutual
  unfolding encode write_control_byte write_extended

  pub encode_le : (v : Value) (d : DataSection) → length d.buf ≤ length (encode v d).buf
  encode_le (string s) d = grows_by d _ (write_blob-extend TypeTag.utf8 s d)
  encode_le (double x) d = grows_by d _ (payload-extend (be_bytes 8 x) TypeTag.double 8 d)
  encode_le (bytes b) d = grows_by d _ (write_blob-extend TypeTag.bytes b d)
  encode_le (u16 n) d = grows_by d _ (write_uint-extend TypeTag.uint16 n 2 d)
  encode_le (u32 n) d = grows_by d _ (write_uint-extend TypeTag.uint32 n 4 d)
  encode_le (map m) d = le_trans (extend-grows _ d) (fields_le m _)
  encode_le (i32 n) d = grows_by d _ (extended_payload-extend ExtendedType.int32 _ _ d)
  encode_le (u64 n) d = grows_by d _ (extended_payload-extend ExtendedType.uint64 _ _ d)
  encode_le (u128 n) d = grows_by d _ (extended_payload-extend ExtendedType.uint128 _ _ d)
  encode_le (array items) d =
      le_trans (grows_by d _ (write_extended_header-extend ExtendedType.array (items_len items) d))
        (items_le items _)
  encode_le (bool b) d = grows_by d _ (write_extended_header-extend ExtendedType.bool _ d)
  encode_le (float x) d =
      grows_by d _ (extended_payload-extend ExtendedType.float 4 (be_bytes 4 x) d)

  pub items_le : (xs : Items) (d : DataSection) → length d.buf ≤ length (encode_items xs d).buf
  items_le nil d = omega arith
  items_le (cons v xs) d =
      le_trans (emit_inline-grows (encode v) v d (encode_le v d)) (items_le xs _)

  pub fields_le : (m : Fields) (d : DataSection) → length d.buf ≤ length (encode_fields m d).buf
  fields_le end d = omega arith
  fields_le (field k v m) d =
      le_trans (emit_inline-grows (write_blob TypeTag.utf8 k) (string k) d (blob-grows k d))
        (le_trans (emit_inline-grows (encode v) v _ (encode_le v _)) (fields_le m _))
