-- ===== src/Writer/Build/Assembled.antt =====
-- src/writer.rs: what a reader finds in the file that `build` makes of a compacted tree.
use mathlib.Core.Path.{subst, sym}
use mmdb_writer.Base.{
  ℕ, ◌+◌, ◌*◌, ◌^◌, ◌<◌, ◌≤◌, ◌≡◌, refl, ap, true, false, Option, none, some, List, [], ◌∷◌, length,
  All, ltb→lt, arith,
}
use mmdb_writer.RecordSize.{RecordSize, bits24, bits28, bits32, max_value, node_bytes}
use mmdb_writer.Error.{Result, ok, err}
use mmdb_writer.Value.{Value}
use mmdb_writer.Pool.{ValuePool}
use mmdb_writer.Net.Range.{Checked, done}
use mmdb_writer.DataSection
use mmdb_writer.DataSection.{DataSection, len, into_bytes}
use mmdb_writer.DataSection.Emit.{Stands}
use mmdb_writer.DataSection.Push.{new-Sound}
use mmdb_writer.Metadata.{to_bytes}
use mmdb_writer.Tree
use mmdb_writer.Tree.Run.{
  Record, no_data, node, fixed_node, populated, alias, reserved, Node, Nodes, TreeError,
}
use mmdb_writer.Tree.Compact.Whole.{Leads}
use mmdb_writer.Tree.Trie.{Leaf, value, alias_to}
use mmdb_writer.Tree.Serialize.{
  Encoded, encoded, failed, panicked, reachable_data_ids, fits_record_size,
}
use mmdb_writer.Tree.Serialize.Ids.{
  DataOf, NodeData, Listed, reachable_data_ids-All, reachable_data_ids-only, get-found,
}
use mmdb_writer.Tree.Serialize.Lookup.{offset_of, serialize-lookup}
use mmdb_writer.Tree.Serialize.Reader.{lookup}
use mmdb_writer.Tree.Serialize.Written.{IsSound, NodeIsSound}
use mmdb_writer.Writer.{Writer, pick_record_size}
use mmdb_writer.Writer.Get.{value_of_id}
use mmdb_writer.Writer.RecordSizes.{IsBest, pick_record_size-IsBest}
use mmdb_writer.Writer.Build.{push_values, offset_in, metadata_of, file_of, finish, assemble}
use mmdb_writer.Writer.Build.Values.{HasValue, Placed, Filled, push_values-Filled}

-- The leaf is no alias, and its data has a value that the format can express.
abbrev pub HasPlace : ValuePool → Leaf → Type 0
HasPlace pool (value id) = HasValue pool id
HasPlace pool (alias_to a) = ⊥
HasPlace pool _ = Unit {0}

-- The records lead to nodes that are there or to data that has a value.
abbrev pub NodeLeads : ValuePool → ℕ → Node → Type 0
NodeLeads pool count n = Leads (HasPlace pool) count n.left × Leads (HasPlace pool) count n.right

-- What the reader finds in the tree is where the value is spelled out in the data section, or that
-- there is none.
abbrev pub Finds : List ℕ → Checked (Option Value) → Option (Option ℕ) → Type 0
Finds data_bytes (done none) found = found ≡ some none
Finds data_bytes (done (some v)) found =
    (offset : ℕ) × (found ≡ some (some offset)) × Stands data_bytes v offset
Finds data_bytes _ found = found ≡ none

-- The file with its parts, and the lookups in it.
pub record IsFile (now : ℕ) (w : Writer) (tree : Nodes) (file : List ℕ) : Type 0 where
  pub size : RecordSize
  pub tree_bytes : List ℕ
  pub data_bytes : List ℕ
  pub parts : file ≡ file_of tree_bytes data_bytes (to_bytes (metadata_of now w size tree))
  pub tree_length : length tree_bytes ≡ length tree * node_bytes size
  pub fits : fits_record_size tree size (length data_bytes) ≡ true
  pub finds :
      (addr : ℕ)
      → Finds data_bytes
          (value_of_id w (Tree.get tree addr 128))
          (lookup size tree_bytes (length tree) addr 128)

-- A file, or an error: then the tree, with the data section of its values, fits no record size.
abbrev pub IsAssembled : ℕ → Writer → Nodes → Encoded (List ℕ) → Type 0
IsAssembled now w tree (encoded file) = IsFile now w tree file
IsAssembled now w tree (failed e) =
    (section : DataSection) × (offsets : List (ℕ × ℕ)) × (push_values w.pool
        (reachable_data_ids tree) DataSection.new
      ≡ some (section, offsets))
    × ((size : RecordSize) → fits_record_size tree size (length section.buf) ≡ false)
IsAssembled now w tree panicked = ⊥

Leads-DataOf :
    (pool : ValuePool) (count : ℕ) (r : Record)
    → Leads (HasPlace pool) count r
    → DataOf (HasValue pool) r
Leads-DataOf pool count (populated id) h = h
Leads-DataOf pool count no_data h = tt
Leads-DataOf pool count (node i) h = tt
Leads-DataOf pool count (fixed_node i) h = tt
Leads-DataOf pool count (alias i) h = tt
Leads-DataOf pool count reserved h = tt

nodes_data :
    (pool : ValuePool) (count : ℕ) (ns : Nodes)
    → All (NodeLeads pool count) ns
    → All (NodeData (HasValue pool)) ns
nodes_data pool count [] all = tt
nodes_data pool count (n ∷ ns) all = (
  (Leads-DataOf pool count n.left all.0.0, Leads-DataOf pool count n.right all.0.1),
  nodes_data pool count ns all.1,
)

max_small : (size : RecordSize) → max_value size ≤ 2 ^ 32
unfolding max_value
max_small bits24 = omega arith
max_small bits28 = omega arith
max_small bits32 = omega arith

module _ (now : ℕ) (w : Writer) (tree : Nodes) (all : All (NodeLeads w.pool (length tree)) tree)
    (root : 0 < length tree) where
  abbrev ids : List ℕ
  ids = reachable_data_ids tree

  abbrev filled : Filled w.pool ids DataSection.new
  filled =
      push_values-Filled w.pool ids DataSection.new
        (reachable_data_ids-only (HasValue w.pool) tree (nodes_data w.pool (length tree) tree all))

  module _ (size : RecordSize)
      (fits : fits_record_size tree size (length filled.section.buf) ≡ true) where
    short : length filled.section.buf < 2 ^ 32
    unfolding fits_record_size
    short = omega (
      arith,
      ltb→lt (length tree + 16 + length filled.section.buf) (max_value size) fits,
      max_small size,
    )

    placed : Placed w.pool ids DataSection.new filled.section filled.offsets
    placed = filled.placed new-Sound short

    record_sound :
        (r : Record)
        → Leads (HasPlace w.pool) (length tree) r
        → DataOf (Listed ids) r
        → IsSound (length tree) (offset_in filled.offsets) (length filled.section.buf) r
    record_sound (node i) h l = h
    record_sound (fixed_node i) h l = h
    record_sound (alias i) h l = h
    record_sound (populated id) h l =
        let (v, offset, known, at, stands) = placed.offset_of id l in (offset, at, stands.within)
    record_sound no_data h l = tt
    record_sound reserved h l = tt

    nodes_sound :
        (ns : Nodes)
        → All (NodeLeads w.pool (length tree)) ns
        → All (NodeData (Listed ids)) ns
        → All (NodeIsSound (length tree) (offset_in filled.offsets) (length filled.section.buf)) ns
    nodes_sound [] leads listed = tt
    nodes_sound (n ∷ ns) leads listed = (
      (record_sound n.left leads.0.0 listed.0.0, record_sound n.right leads.0.1 listed.0.1),
      nodes_sound ns leads.1 listed.1,
    )

    answer :
        (g : Option (Option ℕ))
        → ((id : ℕ) → g ≡ some (some id) → Listed ids id)
        → Finds filled.section.buf (value_of_id w g) (offset_of (offset_in filled.offsets) g)
    unfolding value_of_id
    answer none listed = refl
    answer (some none) listed = refl
    answer (some (some id)) listed =
        let (v, offset, known, at, stands) = placed.offset_of id (listed id refl) in
        rw (known, value_of_id) (offset, ap some at, stands)

    finish-IsFile :
        IsAssembled now w tree (finish now w tree filled.section filled.offsets (ok size))
    unfolding finish into_bytes
    finish-IsFile =
        let (tree_bytes, is, long, found) =
          serialize-lookup (offset_in filled.offsets) (length filled.section.buf) size tree
            (nodes_sound tree all (reachable_data_ids-All tree)) root fits in
        rw (is, finish)
          (record {
            size = size;
            tree_bytes = tree_bytes;
            data_bytes = filled.section.buf;
            parts = refl;
            tree_length = long;
            fits = fits;
            finds = λ addr. rw (found addr) (
                answer (Tree.get tree addr 128)
                  (get-found (Listed ids) tree (reachable_data_ids-All tree) addr 128));
          })

  finish-IsAssembled :
      (r : Result TreeError RecordSize)
      → IsBest tree (length filled.section.buf) r
      → IsAssembled now w tree (finish now w tree filled.section filled.offsets r)
  unfolding finish
  finish-IsAssembled (err e) best = (filled.section, filled.offsets, filled.is, best)
  finish-IsAssembled (ok size) best = finish-IsFile size best.0

  -- Of a tree whose records lead to nodes that are there and to values that the format can express,
  -- and with no record size asked for, `assemble` makes a file without a panic: the bytes of the
  -- tree, the separator, the data section, the marker and the metadata. At every address a reader
  -- of the tree's bytes finds the offset at which the value that the writer has for the address is
  -- spelled out in the data section, or that there is none. It fails only if the tree, with the
  -- data section of its values, fits no record size.
  pub assemble-IsAssembled : w.record_size ≡ none → IsAssembled now w tree (assemble now w tree)
  unfolding assemble len
  assemble-IsAssembled no_size =
      rw (filled.is, assemble)
        (finish-IsAssembled _ (
          subst
            (λ size.
              IsBest tree (length filled.section.buf)
                (pick_record_size tree (length filled.section.buf) size))
            (sym no_size) (pick_record_size-IsBest tree (length filled.section.buf))))
