-- ===== src/Net.antt =====
-- src/net.rs: the versions of the protocol, networks, address ranges and the words that the tree
-- walks.
pub mod Range
pub mod Networks
pub mod Families
use mmdb_writer.Base.{ℕ}

pub data IpVersion : Type 0 where
  v4 v6 : IpVersion

unfoldable pub tree_depth : IpVersion → ℕ
tree_depth v4 = 32
tree_depth v6 = 128

-- The `ip_version` field of the metadata.
unfoldable pub metadata : IpVersion → ℕ
metadata v4 = 4
metadata v6 = 6
