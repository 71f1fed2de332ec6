-- ===== src/Tree/Serialize.antt =====
-- src/tree.rs: the tree as the record-packed bytes of the file. `id_to_offset` is the map from
-- value ids to offsets in the data section. The counts are far below 2^64, so the sums do not wrap.
pub mod Reader
pub mod Pair
pub mod Written
pub mod Ids
pub mod Lookup
use Prim.Native.Nat.{bit_or}
use mmdb_writer.Base.{
  ℕ, ◌+◌, ◌*◌, ◌/◌, ◌%◌, ◌^◌, Bool, false, ◌||◌, Option, none, some, List, [], ◌∷◌, ◌++◌, ltb, leb,
  ◌==◌, if◌then◌else◌, length,
}
use mmdb_writer.RecordSize.{RecordSize, bits24, bits28, bits32, max_value}
use mmdb_writer.Tree.Run.{
  Record, no_data, node, fixed_node, populated, alias, reserved, Node, Nodes, TreeError,
  tree_too_large,
}

-- `panicked` is the `expect` of `encode_record`.
pub data Encoded (A : Type 0) : Type 0 where
  encoded : A → Encoded A
  failed : TreeError → Encoded A
  panicked : Encoded A

abbrev pub after : {A B : Type 0} → Encoded A → (A → Encoded B) → Encoded B
after (encoded a) k = k a
after (failed e) k = failed e
after panicked k = panicked

unfoldable pub write_record_pair : ℕ → ℕ → RecordSize → List ℕ
write_record_pair left right bits24 =
    (left / 2 ^ 16 % 256)
    ∷ (left / 2 ^ 8 % 256)
    ∷ (left % 256)
    ∷ (right / 2 ^ 16 % 256)
    ∷ (right / 2 ^ 8 % 256)
    ∷ (right % 256)
    ∷ []
write_record_pair left right bits28 =
    let left_high4 = left / 2 ^ 24 % 16 in
    let right_high4 = right / 2 ^ 24 % 16 in
    (left / 2 ^ 16 % 256)
    ∷ (left / 2 ^ 8 % 256)
    ∷ (left % 256)
    ∷ bit_or (left_high4 * 2 ^ 4 % 256) right_high4
    ∷ (right / 2 ^ 16 % 256)
    ∷ (right / 2 ^ 8 % 256)
    ∷ (right % 256)
    ∷ []
write_record_pair left right bits32 =
    (left / 2 ^ 24 % 256)
    ∷ (left / 2 ^ 16 % 256)
    ∷ (left / 2 ^ 8 % 256)
    ∷ (left % 256)
    ∷ (right / 2 ^ 24 % 256)
    ∷ (right / 2 ^ 16 % 256)
    ∷ (right / 2 ^ 8 % 256)
    ∷ (right % 256)
    ∷ []

-- The test of `raw` at the end of `encode_record`.
unfoldable pub check_raw : ℕ → RecordSize → ℕ → Encoded ℕ
check_raw node_count record_size raw =
    if leb (max_value record_size) raw
    then failed (tree_too_large node_count (max_value record_size) record_size)
    else encoded raw

unfoldable pub encode_record : Record → ℕ → RecordSize → (ℕ → Option ℕ) → Encoded ℕ
encode_record no_data node_count record_size id_to_offset =
    check_raw node_count record_size node_count
encode_record reserved node_count record_size id_to_offset =
    check_raw node_count record_size node_count
encode_record (node i) node_count record_size id_to_offset = check_raw node_count record_size i
encode_record (fixed_node i) node_count record_size id_to_offset =
    check_raw node_count record_size i
encode_record (alias i) node_count record_size id_to_offset = check_raw node_count record_size i
encode_record (populated id) node_count record_size id_to_offset = elim (id_to_offset id) [
  | none ↦ panicked
  | some offset ↦ check_raw node_count record_size (node_count + 16 + offset)
]

-- `for node in &self.nodes`, from a node on: the bytes that the rest pushes.
unfoldable pub serialize_nodes : ℕ → RecordSize → (ℕ → Option ℕ) → Nodes → Encoded (List ℕ)
serialize_nodes node_count record_size id_to_offset [] = encoded []
serialize_nodes node_count record_size id_to_offset (n ∷ ns) =
    let rest = serialize_nodes node_count record_size id_to_offset ns in
    after (encode_record n.left node_count record_size id_to_offset) (λ left.
      after (encode_record n.right node_count record_size id_to_offset)
        (λ right. after rest (λ out. encoded (write_record_pair left right record_size ++ out))))

unfoldable pub serialize : RecordSize → (ℕ → Option ℕ) → Nodes → Encoded (List ℕ)
serialize record_size id_to_offset ns = serialize_nodes (length ns) record_size id_to_offset ns

unfoldable pub fits_record_size : Nodes → RecordSize → ℕ → Bool
fits_record_size ns record_size data_section_len =
    ltb (length ns + 16 + data_section_len) (max_value record_size)

abbrev pub mem : ℕ → List ℕ → Bool
mem id [] = false
mem id (x ∷ xs) = id == x || mem id xs

-- `if let Record::Data(id) = record { if seen.insert(id) { ids.push(id); } }`
unfoldable pub first_ids : Record → List ℕ → List ℕ
first_ids (populated id) seen = if mem id seen then seen else seen ++ (id ∷ [])
first_ids _ seen = seen

unfoldable pub reachable_from : Nodes → List ℕ → List ℕ
reachable_from [] ids = ids
reachable_from (n ∷ ns) ids = reachable_from ns (first_ids n.right (first_ids n.left ids))

-- `seen` and `ids` have the same members.
unfoldable pub reachable_data_ids : Nodes → List ℕ
reachable_data_ids ns = reachable_from ns []
