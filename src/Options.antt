-- ===== src/Options.antt =====
-- src/options.rs: the options of a writer.
use mmdb_writer.Base.{Bool, true, false}

pub data Ipv4Aliasing : Type 0 where
  enabled disabled : Ipv4Aliasing

unfoldable pub is_enabled : Ipv4Aliasing → Bool
is_enabled Ipv4Aliasing.enabled = true
is_enabled Ipv4Aliasing.disabled = false

pub data ReservedNetworks : Type 0 where
  included excluded : ReservedNetworks

unfoldable pub is_excluded : ReservedNetworks → Bool
is_excluded included = false
is_excluded excluded = true

pub data MetadataPointers : Type 0 where
  enabled disabled : MetadataPointers

unfoldable pub is_disabled : MetadataPointers → Bool
is_disabled MetadataPointers.enabled = false
is_disabled MetadataPointers.disabled = true

pub data MergeStrategy : Type 0 where
  replace top_level_merge deep_merge : MergeStrategy
