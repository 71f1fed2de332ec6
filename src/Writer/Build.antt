-- ===== src/Writer/Build.antt =====
-- src/writer.rs: the build of the file. The clock is a parameter.
pub mod Assembled
pub mod Built
pub mod Values
use mmdb_writer.Base.{Bool, ℕ, Option, none, some, List, [], ◌∷◌, ◌++◌, ◌==◌, if◌then◌else◌}
use mmdb_writer.Error.{Result, ok, err}
use mmdb_writer.RecordSize.{RecordSize}
use mmdb_writer.Options.{is_enabled, is_disabled}
use mmdb_writer.Net.{IpVersion, v4, v6}
use mmdb_writer.Pool
use mmdb_writer.Pool.{ValuePool, intern}
use mmdb_writer.DataSection
use mmdb_writer.DataSection.{DataSection, push, len, into_bytes}
use mmdb_writer.Metadata.{Metadata, to_bytes}
use mmdb_writer.Tree.Run.{Nodes, Run, TreeError}
use mmdb_writer.Tree.{node_count, install_ipv4_aliases}
use mmdb_writer.Tree.Compact.{compact}
use mmdb_writer.Tree.Serialize.{
  Encoded, encoded, failed, panicked, after, reachable_data_ids, serialize,
}
use mmdb_writer.Writer.{Writer, pick_record_size}

abbrev pub data_section_separator : List ℕ
data_section_separator = 0 ∷ 0 ∷ 0 ∷ 0 ∷ 0 ∷ 0 ∷ 0 ∷ 0 ∷ 0 ∷ 0 ∷ 0 ∷ 0 ∷ 0 ∷ 0 ∷ 0 ∷ 0 ∷ []

-- "\xab\xcd\xefMaxMind.com"
abbrev pub metadata_marker : List ℕ
metadata_marker = 171 ∷ 205 ∷ 239 ∷ 77 ∷ 97 ∷ 120 ∷ 77 ∷ 105 ∷ 110 ∷ 100 ∷ 46 ∷ 99 ∷ 111 ∷ 109 ∷ []

unfoldable pub offset_in : List (ℕ × ℕ) → ℕ → Option ℕ
offset_in [] id = none
offset_in ((i, offset) ∷ m) id = if i == id then some offset else offset_in m id

-- `for id in ids`: the section and the offsets of the ids; `none` is an index out of bounds.
unfoldable pub push_values : ValuePool → List ℕ → DataSection → Option (DataSection × List (ℕ × ℕ))
push_values pool [] data_section = some (data_section, [])
push_values pool (id ∷ ids) data_section = elim (Pool.get pool id) [
  | none ↦ none
  | some value ↦
      let pushed = push value data_section in
      elim (push_values pool ids pushed.0) [
        | none ↦ none
        | some (after, offsets) ↦ some (after, (id, pushed.1) ∷ offsets)
      ]
]

unfoldable pub metadata_of : ℕ → Writer → RecordSize → Nodes → Metadata
metadata_of now w size tree = record {
  database_type = w.database_type;
  description = w.description;
  languages = w.languages;
  ip_version = w.ip_version;
  record_size = size;
  node_count = node_count tree;
  build_epoch = elim w.build_epoch [ some t ↦ t | none ↦ now ];
  disable_pointers = is_disabled w.metadata_pointers;
}

-- The parts of the file in their order.
unfoldable pub file_of : List ℕ → List ℕ → List ℕ → List ℕ
file_of tree_bytes data_bytes metadata_bytes =
    tree_bytes ++ (data_section_separator ++ (data_bytes ++ (metadata_marker ++ metadata_bytes)))

-- How `build` goes on when the record size is picked.
unfoldable pub finish :
    ℕ → Writer → Nodes → DataSection → List (ℕ × ℕ) → Result TreeError RecordSize → Encoded (List ℕ)
finish now w tree section offsets (err e) = failed e
finish now w tree section offsets (ok size) =
    after (serialize size (offset_in offsets) tree) (λ tree_bytes.
      encoded (file_of tree_bytes (into_bytes section) (to_bytes (metadata_of now w size tree))))

-- The file of the compacted tree: how `build` goes on after `compact`.
unfoldable pub assemble : ℕ → Writer → Nodes → Encoded (List ℕ)
assemble now w tree = elim (push_values w.pool (reachable_data_ids tree) DataSection.new) [
  | none ↦ panicked
  | some (section, offsets) ↦
      finish now w tree section offsets (pick_record_size tree (len section) w.record_size)
]

-- `if self.ip_version == V6 && self.ipv4_aliasing.is_enabled()`
unfoldable pub aliased_tree : IpVersion → Bool → Nodes → Run (Unit {0}) (Unit {0})
aliased_tree v4 aliasing tree = Run.ok tt tree tt
aliased_tree v6 aliasing tree = if aliasing then install_ipv4_aliases tree tt else Run.ok tt tree tt

-- The tree that `build` works on.
unfoldable pub aliased : Writer → Run (Unit {0}) (Unit {0})
aliased w = aliased_tree w.ip_version (is_enabled w.ipv4_aliasing) w.tree

-- `none` is a model out of fuel.
unfoldable pub build : ℕ → Writer → Option (Encoded (List ℕ))
build now w = elim (aliased w) [
  | Run.panic ↦ some panicked
  | Run.stuck ↦ none
  | Run.err e ns s ↦ some (failed e)
  | Run.ok u ns s ↦ elim (compact ns tt) [
    | Run.panic ↦ some panicked
    | Run.stuck ↦ none
    | Run.err e ns' s' ↦ some (failed e)
    | Run.ok v ns' s' ↦ some (assemble now w ns')
  ]
]
