-- ===== src/RecordSize.antt =====
-- src/record_size.rs: the width of a child record of a search-tree node.
use mmdb_writer.Base.{ℕ, ◌^◌, List, [], ◌∷◌}

pub data RecordSize : Type 0 where
  bits24 bits28 bits32 : RecordSize

unfoldable pub bits : RecordSize → ℕ
bits bits24 = 24
bits bits28 = 28
bits bits32 = 32

unfoldable pub node_bytes : RecordSize → ℕ
node_bytes bits24 = 6
node_bytes bits28 = 7
node_bytes bits32 = 8

-- `1 << 24` and so on, as a u64.
unfoldable pub max_value : RecordSize → ℕ
max_value bits24 = 2 ^ 24
max_value bits28 = 2 ^ 28
max_value bits32 = 2 ^ 32

unfoldable pub as_metadata : RecordSize → ℕ
unfolding bits
as_metadata r = bits r

abbrev pub ascending : List RecordSize
ascending = bits24 ∷ bits28 ∷ bits32 ∷ []
