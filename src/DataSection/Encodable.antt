-- ===== src/DataSection/Encodable.antt =====
-- Which values the encoder of src/data_section.rs encodes as the format asks.
use mmdb_writer.Base.{◌^◌, ◌<◌, length}
use mmdb_writer.Value.{
  Value, string, double, bytes, u16, u32, map, i32, u64, u128, array, bool, float, Items, nil, cons,
  Fields, end, field, items_len, fields_len,
}
use mmdb_writer.DataSection.Control.{size_limit}
use mmdb_writer.DataSection.Integers.{IsI32}

-- The values that their Rust types hold, and whose sizes the format can express as the encoder
-- writes them: an array of 29 items or more is not among them.
unfoldable mutual
  pub IsEncodable : Value → Type 0
  IsEncodable (string s) = length s < size_limit
  IsEncodable (double x) = x < 2 ^ 64
  IsEncodable (bytes b) = length b < size_limit
  IsEncodable (u16 n) = n < 2 ^ 16
  IsEncodable (u32 n) = n < 2 ^ 32
  IsEncodable (map m) = (fields_len m < size_limit) × FieldsAreEncodable m
  IsEncodable (i32 n) = IsI32 n
  IsEncodable (u64 n) = n < 2 ^ 64
  IsEncodable (u128 n) = n < 2 ^ 128
  IsEncodable (array items) = (items_len items < 29) × ItemsAreEncodable items
  IsEncodable (bool b) = Unit {0}
  IsEncodable (float x) = x < 2 ^ 32

  pub ItemsAreEncodable : Items → Type 0
  ItemsAreEncodable nil = Unit {0}
  ItemsAreEncodable (cons v items) = IsEncodable v × ItemsAreEncodable items

  pub FieldsAreEncodable : Fields → Type 0
  FieldsAreEncodable end = Unit {0}
  FieldsAreEncodable (field k v m) = (length k < size_limit) × IsEncodable v × FieldsAreEncodable m
