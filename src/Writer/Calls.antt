-- ===== src/Writer/Calls.antt =====
-- src/writer.rs: a writer with all defaults, and the insertions of serde values.
use mmdb_writer.Base.{ℕ, none, List, [], ◌∷◌}
use mmdb_writer.Error.{of_serde, ok, err}
use mmdb_writer.Options.{Ipv4Aliasing, ReservedNetworks, MetadataPointers, MergeStrategy}
use mmdb_writer.Net.{v6}
use mmdb_writer.Net.Networks.{Ipnet, IpNet, NetError}
use mmdb_writer.Pool
use mmdb_writer.Tree
use mmdb_writer.Ser.{to_value}
use mmdb_writer.Ser.Model.{Content}
use mmdb_writer.Writer.{Writer, Outcome, returned, builder, insert_value, insert_value_merged}

-- `"en"`
unfoldable pub default_languages : List (List ℕ)
default_languages = (b'e' ∷ b'n' ∷ []) ∷ []

-- The defaults of the builder's options.
unfoldable pub default_options : List ℕ → Writer
default_options database_type = record {
  database_type = database_type;
  description = [];
  languages = default_languages;
  ip_version = v6;
  record_size = none;
  ipv4_aliasing = Ipv4Aliasing.enabled;
  reserved_networks = ReservedNetworks.included;
  metadata_pointers = MetadataPointers.enabled;
  build_epoch = none;
  tree = Tree.new;
  pool = Pool.new;
}

module _ (I : Ipnet) where
  -- `Writer::new`
  unfoldable pub new_writer : List ℕ → Outcome (NetError I) (Unit {0})
  new_writer database_type = builder I (default_options database_type)

  unfoldable pub insert : IpNet I → Content → Writer → Outcome (NetError I) (Unit {0})
  insert net value w = elim (to_value value) [
    | err e ↦ returned (err (of_serde e)) w
    | ok v ↦ insert_value I net v w
  ]

  unfoldable pub insert_merged :
      IpNet I → Content → MergeStrategy → Writer → Outcome (NetError I) (Unit {0})
  insert_merged net value strategy w = elim (to_value value) [
    | err e ↦ returned (err (of_serde e)) w
    | ok v ↦ insert_value_merged I net v strategy w
  ]
