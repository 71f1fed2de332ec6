-- ===== src/DataSection/Tags.antt =====
-- src/data_section.rs: the type tags of control bytes.
use mmdb_writer.Base.{ℕ}

pub data TypeTag : Type 0 where
  extended pointer utf8 double bytes uint16 uint32 map : TypeTag

-- `tag as u8`
unfoldable pub tag_code : TypeTag → ℕ
tag_code extended = 0
tag_code pointer = 1
tag_code utf8 = 2
tag_code TypeTag.double = 3
tag_code TypeTag.bytes = 4
tag_code uint16 = 5
tag_code uint32 = 6
tag_code TypeTag.map = 7

pub data ExtendedType : Type 0 where
  int32 uint64 uint128 array bool float : ExtendedType

-- `ext as u8`
unfoldable pub extended_code : ExtendedType → ℕ
extended_code int32 = 1
extended_code uint64 = 2
extended_code uint128 = 3
extended_code ExtendedType.array = 4
extended_code ExtendedType.bool = 7
extended_code ExtendedType.float = 8
