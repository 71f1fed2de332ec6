-- ===== src/Tree/Serialize/Lookup.antt =====
-- A reader of the serialized tree finds what `get` finds in the nodes.
use mmdb_writer.Base.{
  ℕ, zero, suc, ◌+◌, ◌*◌, ◌<◌, ◌≡◌, refl, true, Option, none, some, List, length, get_elem?-some,
  All, All-get_elem?, ltb→lt, ◌==◌, inl, inr, Bool-cases, arith,
}
use mmdb_writer.RecordSize.{RecordSize, max_value, node_bytes}
use mmdb_writer.Tree.Run.{
  Record, no_data, node, fixed_node, populated, alias, reserved, Nodes, child,
}
use mmdb_writer.Tree.{bit_at, get_step, get_loop, get}
use mmdb_writer.Tree.Serialize.{encoded, serialize, fits_record_size}
use mmdb_writer.Tree.Serialize.Reader.{follow, lookup_loop, lookup}
use mmdb_writer.Tree.Serialize.Written.{IsSound, NodeIsSound, raw, Written, serialize_nodes-Written}

-- The offset of what `get` finds.
abbrev pub offset_of : (ℕ → Option ℕ) → Option (Option ℕ) → Option (Option ℕ)
offset_of id_to_offset none = none
offset_of id_to_offset (some none) = some none
offset_of id_to_offset (some (some id)) = some (id_to_offset id)

module _ (id_to_offset : ℕ → Option ℕ) (data_len : ℕ) (size : RecordSize) (ns : Nodes)
    (all : All (NodeIsSound (length ns) id_to_offset data_len) ns)
    (fits : length ns + 16 + data_len < max_value size)
    (w : Written (length ns) id_to_offset data_len size fits ns) (addr : ℕ) where
  -- A record is followed to what `get` finds behind it.
  follow-raw :
      (go go' : ℕ → Option (Option ℕ)) (r : Record)
      → IsSound (length ns) id_to_offset data_len r
      → ((i : ℕ) → i < length ns → go i ≡ offset_of id_to_offset (go' i))
      → follow (length ns) go (raw (length ns) id_to_offset data_len r)
        ≡ offset_of id_to_offset (get_step go' r)
  unfolding follow get_step
  follow-raw go go' (node i) s rec = ground (arith, rec i)
  follow-raw go go' (fixed_node i) s rec = ground (arith, rec i)
  follow-raw go go' (alias i) s rec = ground (arith, rec i)
  follow-raw go go' (populated id) s rec = rw s.1 (ground arith)
  follow-raw go go' no_data s rec = ground arith
  follow-raw go go' reserved s rec = ground arith

  lookup_loop-get_loop :
      (k d i : ℕ)
      → i < length ns
      → lookup_loop size w.bytes (length ns) addr k d i
        ≡ offset_of id_to_offset (get_loop ns addr k d i)
  unfolding lookup_loop get_loop child
  lookup_loop-get_loop zero d i h = refl
  lookup_loop-get_loop (suc k) d i h =
      let (n, here) = get_elem?-some ns i h in
      let s = All-get_elem? _ ns all i n here in
      rw (w.at i n here, lookup_loop, here, get_loop)
        (elim (Bool-cases (bit_at addr d == 0)) [
          | inl z ↦ rw z (follow-raw _ _ n.left s.0 (λ j. lookup_loop-get_loop k (d + 1) j))
          | inr z ↦ rw z (follow-raw _ _ n.right s.1 (λ j. lookup_loop-get_loop k (d + 1) j))
        ])

-- A tree whose nodes and offsets are in range and which fits the record size is serialized without
-- an error or a panic, to one node's bytes for each node, and at every address a reader of these
-- bytes finds the offset of the data that `get` finds in the tree.
pub serialize-lookup :
    (id_to_offset : ℕ → Option ℕ) (data_len : ℕ) (size : RecordSize) (ns : Nodes)
    → All (NodeIsSound (length ns) id_to_offset data_len) ns
    → 0 < length ns
    → fits_record_size ns size data_len ≡ true
    → (bytes : List ℕ) × (serialize size id_to_offset ns ≡ encoded bytes)
      × (length bytes ≡ length ns * node_bytes size)
      × ((addr : ℕ)
          → lookup size bytes (length ns) addr 128 ≡ offset_of id_to_offset (get ns addr 128))
unfolding serialize fits_record_size lookup get
serialize-lookup id_to_offset data_len size ns all root h =
    let fits = ltb→lt (length ns + 16 + data_len) (max_value size) h in
    let w = serialize_nodes-Written (length ns) id_to_offset data_len size fits ns all in
    (
      w.bytes,
      w.is,
      w.total,
      λ addr. lookup_loop-get_loop id_to_offset data_len size ns all fits w addr 128 0 0 root,
    )
