-- ===== src/Tree/Serialize/Written.antt =====
-- The bytes of all nodes: when they are written, and where those of a node stand.
use mmdb_writer.Base.{
  ℕ, zero, suc, ◌+◌, ◌*◌, ◌<◌, ◌≤◌, ◌≡◌, refl, sym, ◌∙◌, ap, Option, none, some, List, [], ◌∷◌,
  ◌++◌, length, get_elem?, drop, All, some-injective, length-append, drop-append_more, arith,
}
use mmdb_writer.RecordSize.{RecordSize, bits24, bits28, bits32, max_value, node_bytes}
use mmdb_writer.Tree.Run.{
  Record, no_data, node, fixed_node, populated, alias, reserved, Node, Nodes,
}
use mmdb_writer.Tree.Serialize.{
  encoded, check_raw, encode_record, write_record_pair, serialize_nodes,
}
use mmdb_writer.Tree.Serialize.Reader.{read_pair, width}
use mmdb_writer.Tree.Serialize.Pair.{read_pair-write_record_pair, length-write_record_pair}

module _ (count : ℕ) (id_to_offset : ℕ → Option ℕ) (data_len : ℕ) where
  -- A record of a tree of `count` nodes: its node is there, or its data has an offset in the
  -- section.
  abbrev pub IsSound : Record → Type 0
  IsSound (node i) = i < count
  IsSound (fixed_node i) = i < count
  IsSound (alias i) = i < count
  IsSound (populated id) = (offset : ℕ) × (id_to_offset id ≡ some offset) × offset ≤ data_len
  IsSound _ = Unit {0}

  abbrev pub NodeIsSound : Node → Type 0
  NodeIsSound n = IsSound n.left × IsSound n.right

  -- The number that stands for a record in the file.
  abbrev pub raw : Record → ℕ
  raw (node i) = i
  raw (fixed_node i) = i
  raw (alias i) = i
  raw (populated id) = count + 16 + (elim (id_to_offset id) [ some offset ↦ offset | none ↦ 0 ])
  raw no_data = count
  raw reserved = count

  module _ (size : RecordSize) (fits : count + 16 + data_len < max_value size) where
    raw-lt : (r : Record) → IsSound r → raw r < max_value size
    raw-lt (node i) s = omega arith
    raw-lt (fixed_node i) s = omega arith
    raw-lt (alias i) s = omega arith
    raw-lt (populated id) s = rw s.1 (omega (arith, s.2))
    raw-lt no_data s = omega arith
    raw-lt reserved s = omega arith

    check_raw-encoded : (v : ℕ) → v < max_value size → check_raw count size v ≡ encoded v
    unfolding check_raw
    check_raw-encoded v h = ground arith

    encode_record-encoded :
        (r : Record) → IsSound r → encode_record r count size id_to_offset ≡ encoded (raw r)
    unfolding encode_record
    encode_record-encoded (node i) s = check_raw-encoded i (raw-lt (node i) s)
    encode_record-encoded (fixed_node i) s = check_raw-encoded i (raw-lt (fixed_node i) s)
    encode_record-encoded (alias i) s = check_raw-encoded i (raw-lt (alias i) s)
    encode_record-encoded (populated id) s =
        rw (s.1, encode_record) (check_raw-encoded (count + 16 + s.0) (omega (arith, s.2)))
    encode_record-encoded no_data s = check_raw-encoded count (raw-lt no_data s)
    encode_record-encoded reserved s = check_raw-encoded count (raw-lt reserved s)

    abbrev pair_bytes : Node → List ℕ
    pair_bytes n = write_record_pair (raw n.left) (raw n.right) size

    -- The nodes `ns` are written, each at its place.
    pub record Written (ns : Nodes) : Type 0 where
      pub bytes : List ℕ
      pub is : serialize_nodes count size id_to_offset ns ≡ encoded bytes
      pub total : length bytes ≡ length ns * node_bytes size
      pub at :
          (i : ℕ) (n : Node)
          → get_elem? ns i ≡ some n
          → read_pair size (drop (i * width size) bytes) ≡ some (raw n.left, raw n.right)

    serialize_nodes-cons :
        (n : Node) (ns : Nodes) (bytes : List ℕ)
        → NodeIsSound n
        → serialize_nodes count size id_to_offset ns ≡ encoded bytes
        → serialize_nodes count size id_to_offset (n ∷ ns) ≡ encoded (pair_bytes n ++ bytes)
    unfolding serialize_nodes
    serialize_nodes-cons n ns bytes s e =
        rw (encode_record-encoded n.left s.0, encode_record-encoded n.right s.1, e)

    length-pair_bytes : (n : Node) → length (pair_bytes n) ≡ node_bytes size
    length-pair_bytes n = length-write_record_pair size (raw n.left) (raw n.right)

    width-node_bytes : (size : RecordSize) → width size ≡ node_bytes size
    unfolding node_bytes
    width-node_bytes bits24 = refl
    width-node_bytes bits28 = refl
    width-node_bytes bits32 = refl

    -- The node `i` of the rest stands one node further.
    skip_pair :
        (n : Node) (i : ℕ) (bytes : List ℕ)
        → drop (suc i * width size) (pair_bytes n ++ bytes) ≡ drop (i * width size) bytes
    skip_pair n i bytes =
        ap (λ k. drop k (pair_bytes n ++ bytes))
          (one_more i (width size) (length (pair_bytes n))
            (length-pair_bytes n ∙ sym (width-node_bytes size)))
        ∙ drop-append_more (pair_bytes n) bytes (i * width size)
      where
        one_more : (i w k : ℕ) → k ≡ w → suc i * w ≡ k + i * w
        one_more i w k e = ground arith

    none_before : (w : ℕ) → 0 * w ≡ 0
    none_before w = omega arith

    placed :
        (n : Node) (ns : Nodes) (rest : Written ns) (i : ℕ) (m : Node)
        → NodeIsSound n
        → get_elem? (n ∷ ns) i ≡ some m
        → read_pair size (drop (i * width size) (pair_bytes n ++ rest.bytes))
          ≡ some (raw m.left, raw m.right)
    placed n ns rest zero m s e =
        ap (λ k. read_pair size (drop k (pair_bytes n ++ rest.bytes))) (none_before (width size))
        ∙ read_pair-write_record_pair size (raw n.left) (raw n.right) rest.bytes (raw-lt n.left s.0)
            (raw-lt n.right s.1)
        ∙ ap (λ k. some (raw k.left, raw k.right)) (some-injective e)
    placed n ns rest (suc i) m s e = ap (read_pair size) (skip_pair n i rest.bytes) ∙ rest.at i m e

    pub serialize_nodes-Written : (ns : Nodes) → All NodeIsSound ns → Written ns
    unfolding serialize_nodes
    serialize_nodes-Written [] all = record {
      bytes = [];
      is = refl;
      total = omega arith;
      at = λ i n e. cc;
    }
    serialize_nodes-Written (n ∷ ns) all =
        let rest = serialize_nodes-Written ns all.1 in
        record {
          bytes = pair_bytes n ++ rest.bytes;
          is = serialize_nodes-cons n ns rest.bytes all.0 rest.is;
          total =
              length-append (pair_bytes n) rest.bytes
              ∙ ap (λ k. k + length rest.bytes) (length-pair_bytes n)
              ∙ grind (arith, rest.total);
          at = λ i m e. placed n ns rest i m all.0 e;
        }
