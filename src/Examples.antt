-- ===== src/Examples.antt =====
-- The theorems at concrete inputs: networks, values and sizes as the sources' own tests use them.
pub mod Ranges
pub mod Maps
pub mod Calls
pub mod Networks
pub mod Files
pub mod Serde
pub mod Writers
pub mod Built
use mmdb_writer.Base.{
  drop, ◌<◌, ◌≤◌, false, List, if◌then◌else◌, ◌==◌, ap, ℕ, ◌+◌, ◌*◌, ◌^◌, ◌≡◌, ◌↔◌, [], ◌∷◌, ◌++◌,
  true, Option, none, some, refl, arith, length,
}
use mmdb_writer.Value.{
  negsuc, Value, u32, map, array, bool, i32, nil, cons, end, field, value_eq, bytes_eq, int_eq,
  bool_eq,
}
use mmdb_writer.Value.Equality.{value_eq_iff}
use mmdb_writer.DataSection
use mmdb_writer.DataSection.{
  DataSection, push, into_bytes, find, encode, emitted, emit_inline, write_blob, write_uint,
  write_extended_header, write_extended, write_control_byte, write_pointer, extend, or_insert,
}
use mmdb_writer.DataSection.Tags.{TypeTag, tag_code, ExtendedType, extended_code}
use mmdb_writer.DataSection.Bytes.{
  u32_len, be_bytes, leading_zeros, as_u32, u32_from_usize, pointer_bytes, control_bytes,
  pointer_encoding, encode_uint_trimmed, encode_i32_trimmed,
}
use mmdb_writer.DataSection.Reader.{read_control, read_pointer, as_i32, from_be}
use mmdb_writer.DataSection.Control.{read_control-control_bytes, control_bytes_wrap}
use mmdb_writer.DataSection.Pointer.{read_pointer-pointer_encoding, length-pointer_encoding}
use mmdb_writer.DataSection.Integers.{
  Trimmed, encode_uint_trimmed-Trimmed, as_i32-encode_i32_trimmed,
}
use mmdb_writer.DataSection.Header.{read_control-write_extended_header}
use mmdb_writer.DataSection.Encodable.{IsEncodable}
use mmdb_writer.DataSection.Push.{Pushed, push-Pushed, new-Sound}
use mmdb_writer.Tree
use mmdb_writer.Tree.{bit_at, insert, get}
use mmdb_writer.Tree.Compact.{compact_node, compact, renumber_reachable}
use mmdb_writer.Tree.Compact.Renumber.{Renumbered, renumber_reachable-Renumbered}
use mmdb_writer.Tree.Compact.Whole.{Compacted, IsTree-IsLinked, compact-Compacted}
use mmdb_writer.Tree.Compact.Reached.{IsLinked}
use mmdb_writer.Tree.Get.{IsPlain}
use mmdb_writer.Tree.Insert.{trie}
use mmdb_writer.Tree.Compact.Ends.{Ends}
use mmdb_writer.Tree.Compact.Kept.{Kept, compact_node-Kept}
use mmdb_writer.Tree.Run.{ok, pair, populated, no_data, node, Nodes}
use mmdb_writer.Tree.Trie.{branch, empty, value, leaf, view}
use mmdb_writer.Tree.Returns.{Returns}
use mmdb_writer.Tree.Update.{covers}
use mmdb_writer.Tree.Insert.{IsTree, trie, new-IsTree, Inserted, insert-Returns}
use mmdb_writer.Tree.Prefix.{prefix, covers_iff}
use mmdb_writer.Tree.Get.{leaf_id, get-view}
use mmdb_writer.RecordSize.{bits28, node_bytes, max_value}
use mmdb_writer.Tree.Serialize.{serialize, encoded, fits_record_size, write_record_pair}
use mmdb_writer.Tree.Serialize.Reader.{lookup, read_pair}
use mmdb_writer.Tree.Serialize.Pair.{read_pair-write_record_pair}
use mmdb_writer.Tree.Serialize.Lookup.{offset_of, serialize-lookup}
use mmdb_writer.Tree.InsertGet.{pure_op, pure_law, Answers, insert-get}

-- 10.0.0.0/8 in the part of the IPv6 tree for IPv4.
abbrev net_bits : ℕ
net_bits = 10 * 2 ^ 24

abbrev count : Option ℕ → Option ℕ
count none = some 0
count (some id) = some (id + 1)

insert-Returns_example :
    Returns
      (Inserted (pure_law count) net_bits 104 (trie new-IsTree) tt)
      (insert net_bits 104 (pure_op count) Tree.new tt)
unfolding pure_law
insert-Returns_example =
    insert-Returns (pure_law count) net_bits 104 Tree.new tt new-IsTree (omega arith) tt

insert-get_example :
    Returns
      (Answers count net_bits 104 Tree.new new-IsTree)
      (insert net_bits 104 (pure_op count) Tree.new tt)
insert-get_example = insert-get count net_bits 104 Tree.new new-IsTree (omega arith) (omega arith)

-- A root with data on its left and nothing on its right.
abbrev half : Nodes
half = pair (populated 7) no_data ∷ []

abbrev half_tree : IsTree half
half_tree = record {
  left = leaf (value 7);
  right = leaf empty;
  holds = (refl, tt, tt);
  distinct = (refl, refl, λ a m. refl, tt, tt);
  fits = (omega arith, tt, tt);
}

get-view_example : get half net_bits 128 ≡ some (leaf_id (view (trie half_tree) net_bits 0))
unfolding view bit_at
get-view_example = get-view half half_tree net_bits tt

abbrev sample : Value
sample = map (
    field (97 ∷ []) (array (cons (u32 1000) (cons (u32 1000) nil))) (
      field (98 ∷ []) (array (cons (u32 1000) (cons (bool true) (cons (i32 (negsuc 4)) nil)))) end))

-- The second 1000 is a pointer to the first, and so is the third.
sample_bytes :
    into_bytes (push sample DataSection.new).0
    ≡ 226 ∷ 65 ∷ 97 ∷ 2 ∷ 4 ∷ 194 ∷ 3 ∷ 232 ∷ 32 ∷ 5 ∷ 65 ∷ 98 ∷ 3 ∷ 4 ∷ 32 ∷ 5 ∷ 1 ∷ 7 ∷ 4 ∷ 1
      ∷ 255 ∷ 255 ∷ 255 ∷ 251 ∷ []
unfolding into_bytes push find encode emitted emit_inline write_blob write_uint
    write_extended_header write_extended write_control_byte write_pointer DataSection.new extend
    value_eq encode_uint_trimmed encode_i32_trimmed control_bytes pointer_encoding u32_len tag_code
    extended_code be_bytes leading_zeros or_insert pointer_bytes as_u32 bytes_eq int_eq bool_eq
    u32_from_usize
sample_bytes = refl

push-Pushed_example : Pushed sample DataSection.new (push sample DataSection.new)
unfolding IsEncodable into_bytes
push-Pushed_example =
    push-Pushed sample DataSection.new
      (omega arith, (omega arith, first_is, (omega arith, second_is, tt))) new-Sound
      (omega (arith, ap length sample_bytes))
  where
    first_is : IsEncodable (array (cons (u32 1000) (cons (u32 1000) nil)))
    first_is = (omega arith, (omega arith, (omega arith, tt)))

    second_is : IsEncodable (array (cons (u32 1000) (cons (bool true) (cons (i32 (negsuc 4)) nil))))
    second_is = (omega arith, (omega arith, (tt, (omega arith, tt))))

value_eq_iff_example : (value_eq sample (u32 1000) ≡ true) ↔ (sample ≡ u32 1000)
value_eq_iff_example = value_eq_iff sample (u32 1000)

read_control-control_bytes_example :
    read_control (control_bytes TypeTag.utf8 70000 ++ (97 ∷ [])) ≡ some (2, 70000, 97 ∷ [])
unfolding tag_code
read_control-control_bytes_example =
    read_control-control_bytes TypeTag.utf8 70000 (97 ∷ []) (cc) (omega arith)

-- The header of an array of thirty items: a reader finds type 8, a signed integer.
read_control-write_extended_header_example :
    read_control (
      drop
        (length DataSection.new.buf)
        (extend (97 ∷ []) (write_extended_header ExtendedType.array 30 DataSection.new)).buf)
    ≡ some (8, 33, 97 ∷ [])
unfolding extended_code
read_control-write_extended_header_example =
    read_control-write_extended_header ExtendedType.array 30 (97 ∷ []) DataSection.new (omega arith)
      (omega arith)

control_bytes_wrap_example :
    control_bytes TypeTag.bytes (65821 + 2 ^ 24) ≡ control_bytes TypeTag.bytes 65821
control_bytes_wrap_example = control_bytes_wrap TypeTag.bytes 65821 (omega arith) (omega arith)

read_pointer-pointer_encoding_example :
    read_pointer (pointer_encoding 526336 ++ (5 ∷ [])) ≡ some (526336, 5 ∷ [])
read_pointer-pointer_encoding_example = read_pointer-pointer_encoding 526336 (5 ∷ []) (omega arith)

encode_uint_trimmed-Trimmed_example : Trimmed 256 4 (encode_uint_trimmed 256 4)
encode_uint_trimmed-Trimmed_example = encode_uint_trimmed-Trimmed 256 4 (omega arith) (omega arith)

as_i32-encode_i32_trimmed_example : as_i32 (from_be (encode_i32_trimmed (negsuc 4)).0) ≡ negsuc 4
as_i32-encode_i32_trimmed_example = as_i32-encode_i32_trimmed (negsuc 4) (omega arith)

-- The root of `half` with its value at the offset 5, in 28-bit records.
abbrev at_five : ℕ → Option ℕ
at_five id = if id == 7 then some 5 else none

serialize-lookup_example :
    (bytes : List ℕ) × (serialize bits28 at_five half ≡ encoded bytes)
    × (length bytes ≡ 1 * node_bytes bits28)
    × ((addr : ℕ) → lookup bits28 bytes 1 addr 128 ≡ offset_of at_five (get half addr 128))
unfolding fits_record_size max_value
serialize-lookup_example =
    serialize-lookup at_five 30 bits28 half (((5, refl, omega arith), tt), tt) (omega arith) refl

-- A root that leads to a node of two equal leaves.
abbrev twin_nodes : Nodes
twin_nodes = pair (node 1) no_data ∷ pair (populated 7) (populated 7) ∷ []

abbrev twin_tree : IsTree twin_nodes
twin_tree = record {
  left = branch false 1 (leaf (value 7)) (leaf (value 7));
  right = leaf empty;
  holds = (refl, (refl, tt, tt), tt);
  distinct = (refl, refl, λ a m. refl, (refl, refl, λ a m. refl, tt, tt), tt);
  fits = (omega arith, (omega arith, tt, tt), tt);
}

compact_node-Kept_example : Ends tt (Kept twin_nodes twin_tree) (compact_node 129 0 twin_nodes tt)
compact_node-Kept_example = compact_node-Kept tt twin_nodes twin_tree

twin-IsPlain : (addr : ℕ) → addr < 2 ^ 128 → IsPlain (view (trie twin_tree) addr 0)
unfolding view
twin-IsPlain addr small = ground arith

twin-IsLinked : IsLinked twin_nodes
twin-IsLinked = IsTree-IsLinked IsPlain (λ x p. p) twin_nodes twin_tree ((tt, tt), tt)

renumber_reachable-Renumbered_example :
    (nodes : Nodes) × (renumber_reachable twin_nodes tt ≡ ok tt nodes tt)
    × Renumbered twin_nodes nodes
renumber_reachable-Renumbered_example =
    renumber_reachable-Renumbered twin_nodes twin-IsLinked tt (omega arith)

compact-Compacted_example :
    (nodes : Nodes) × (compact twin_nodes tt ≡ ok tt nodes tt) × Compacted IsPlain twin_nodes nodes
compact-Compacted_example =
    compact-Compacted tt IsPlain (λ x p. p) twin_nodes twin_tree twin-IsPlain (omega arith)
