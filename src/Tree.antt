-- ===== src/Tree.antt =====
-- src/tree.rs: insertion into the search tree, aliases and lookup. Depths and prefix lengths are at
-- most 129, so the `u8` additions do not wrap.
pub mod Run
pub mod Trie
pub mod Moved
pub mod Update
pub mod Returns
pub mod Done
pub mod Descend
pub mod Grow
pub mod AtRecord
pub mod Insert
pub mod Prefix
pub mod Get
pub mod Leaves
pub mod InsertGet
pub mod Marked
pub mod Marker
pub mod Serialize
pub mod Compact
use mmdb_writer.Base.{
  ℕ, zero, suc, ◌+◌, ◌-◌, ◌*◌, ◌/◌, ◌%◌, ◌^◌, Bool, true, false, ◌&&◌, Option, none, some, List, [],
  ◌∷◌, ◌==◌, ltb, if◌then◌else◌, length, get_elem?,
}
use mmdb_writer.Tree.Run.{
  Record, no_data, node, fixed_node, populated, alias, reserved, Node, pair, default_node, child,
  Nodes, Cmd, pure, ◌>>=◌, ◌>>◌, load, set_child, alloc_node,
}

-- `Tree::new`
unfoldable pub new : Nodes
new = default_node ∷ []

unfoldable pub node_count : Nodes → ℕ
node_count ns = length ns

-- `((bits >> (127 - depth)) & 1) as u8`
unfoldable pub bit_at : ℕ → ℕ → ℕ
bit_at bits depth = bits / 2 ^ (127 - depth) % 2

-- `==` on records
unfoldable pub record_eq : Record → Record → Bool
record_eq no_data no_data = true
record_eq (node i) (node j) = i == j
record_eq (fixed_node i) (fixed_node j) = i == j
record_eq (populated i) (populated j) = i == j
record_eq (alias i) (alias j) = i == j
record_eq reserved reserved = true
record_eq _ _ = false

unfoldable pub is_leaf_record : Record → Bool
is_leaf_record (node _) = false
is_leaf_record (fixed_node _) = false
is_leaf_record _ = true

module _ {S : Type 0} where
  unfoldable pub try_merge_node : ℕ → Cmd S (Option Record)
  unfolding record_eq is_leaf_record
  try_merge_node idx = do
    n ← load idx
    pure (if record_eq n.left n.right && is_leaf_record n.left then some n.left else none)

  -- `if let Some(merged) = self.try_merge_node(child_idx) { … = merged }`
  unfoldable pub collapse : ℕ → ℕ → ℕ → Cmd S (Unit {0})
  collapse node_idx which_bit child_idx = do
    merged ← try_merge_node child_idx
    elim merged [ some r ↦ set_child node_idx which_bit r | none ↦ pure tt ]

  module _ (op : S → Option ℕ → Option ℕ × S) where
    -- The closure `op`, an `FnMut`: it reads and writes its own state.
    unfoldable pub call : Option ℕ → Cmd S (Option ℕ)
    call old ns s = Run.ok (op s old).0 ns (op s old).1

    module _ (bits prefix_len : ℕ) where
      -- The body of `insert_at_record`, by the record that stands at the place. `go` is the call of
      -- `insert_at_node`, given the node and its depth.
      unfoldable pub insert_into :
          (ℕ → ℕ → Cmd S (Unit {0})) → ℕ → ℕ → ℕ → Record → Cmd S (Unit {0})
      insert_into go node_idx which_bit new_depth (node child_idx) = do
        go child_idx new_depth
        collapse node_idx which_bit child_idx
      insert_into go node_idx which_bit new_depth (fixed_node child_idx) = go child_idx new_depth
      insert_into go node_idx which_bit new_depth (alias _) = pure tt
      insert_into go node_idx which_bit new_depth reserved = pure tt
      insert_into go node_idx which_bit new_depth no_data =
          if ltb prefix_len new_depth
          then (do
            new_id ← call none
            elim new_id [ some id ↦ set_child node_idx which_bit (populated id) | none ↦ pure tt ])
          else (do
            new_idx ← alloc_node default_node
            set_child node_idx which_bit (node new_idx)
            go new_idx new_depth
            collapse node_idx which_bit new_idx)
      insert_into go node_idx which_bit new_depth (populated old_id) =
          if ltb prefix_len new_depth
          then (do
            new_id ← call (some old_id)
            set_child node_idx which_bit (elim new_id [ some id ↦ populated id | none ↦ no_data ]))
          else (do
            new_idx ← alloc_node (pair (populated old_id) (populated old_id))
            set_child node_idx which_bit (node new_idx)
            go new_idx new_depth
            collapse node_idx which_bit new_idx)

      unfoldable pub insert_at_record : (ℕ → ℕ → Cmd S (Unit {0})) → ℕ → ℕ → ℕ → Cmd S (Unit {0})
      insert_at_record go node_idx which_bit new_depth = do
        n ← load node_idx
        insert_into go node_idx which_bit new_depth (child n which_bit)

      -- The body of `insert_at_node`.
      unfoldable pub insert_step : (ℕ → ℕ → Cmd S (Unit {0})) → ℕ → ℕ → Cmd S (Unit {0})
      insert_step go node_idx current_depth =
          if ltb prefix_len (current_depth + 1)
          then (do
            insert_at_record go node_idx 0 (current_depth + 1)
            insert_at_record go node_idx 1 (current_depth + 1))
          else insert_at_record go node_idx (bit_at bits current_depth) (current_depth + 1)

      -- The recursion takes fuel; each call is one level deeper.
      unfoldable pub insert_at_node : ℕ → ℕ → ℕ → Cmd S (Unit {0})
      insert_at_node zero node_idx current_depth = λ ns s. Run.stuck
      insert_at_node (suc fuel) node_idx current_depth =
          insert_step (insert_at_node fuel) node_idx current_depth

  -- No node is deeper than 128, so 129 levels are enough.
  unfoldable pub insert : ℕ → ℕ → (S → Option ℕ → Option ℕ × S) → Cmd S (Unit {0})
  insert bits prefix_len op = insert_at_node op bits prefix_len 129 0 0

  -- At the last bit of the prefix: the marker goes where nothing is.
  unfoldable pub mark_last : ℕ → ℕ → Record → Record → Cmd S (Unit {0})
  mark_last node_idx bit marker no_data = set_child node_idx bit marker
  mark_last node_idx bit marker _ = pure tt

  -- At the bits before; `go` is the rest of the loop, from the given node on.
  unfoldable pub mark_further : (ℕ → Cmd S (Unit {0})) → ℕ → ℕ → Record → Cmd S (Unit {0})
  mark_further go node_idx bit (node i) = go i
  mark_further go node_idx bit (fixed_node i) = go i
  mark_further go node_idx bit no_data = do
    new_idx ← alloc_node default_node
    set_child node_idx bit (node new_idx)
    go new_idx
  mark_further go node_idx bit (populated _) = pure tt
  mark_further go node_idx bit (alias _) = pure tt
  mark_further go node_idx bit reserved = pure tt

  -- The loop of `install_marker`, from `bit_index` on; the first number is the rounds left.
  unfoldable pub marker_loop : ℕ → ℕ → ℕ → ℕ → Record → ℕ → Cmd S (Unit {0})
  marker_loop zero bit_index bits prefix_len marker node_idx = pure tt
  marker_loop (suc k) bit_index bits prefix_len marker node_idx = do
    let go = marker_loop k (bit_index + 1) bits prefix_len marker
    n ← load node_idx
    if bit_index == prefix_len - 1
        then mark_last node_idx (bit_at bits bit_index) marker (child n (bit_at bits bit_index))
        else mark_further go node_idx (bit_at bits bit_index) (child n (bit_at bits bit_index))

  unfoldable pub install_marker : ℕ → ℕ → Record → Cmd S (Unit {0})
  install_marker bits prefix_len marker = marker_loop prefix_len 0 bits prefix_len marker 0

  unfoldable pub paint_reserved : ℕ → ℕ → Cmd S (Unit {0})
  paint_reserved bits prefix_len = install_marker bits prefix_len reserved

  -- `for _ in 0..k { if let Node(i) = nodes[cursor].left { cursor = i } else { return } }`
  unfoldable pub walk_left : ℕ → ℕ → Cmd S (Option ℕ)
  walk_left zero cursor = pure (some cursor)
  walk_left (suc k) cursor = do
    n ← load cursor
    elim n.left [ node i ↦ walk_left k i | _ ↦ pure none ]

  -- What follows the two walks.
  unfoldable pub pin_and_alias : ℕ → ℕ → Cmd S (Unit {0})
  pin_and_alias parent v4_root_idx = do
    set_child parent 0 (fixed_node v4_root_idx)
    install_marker 0x0000_0000_0000_0000_0000_ffff_0000_0000 96 (alias v4_root_idx)
    install_marker 0x2001_0000_0000_0000_0000_0000_0000_0000 32 (alias v4_root_idx)
    install_marker 0x2002_0000_0000_0000_0000_0000_0000_0000 16 (alias v4_root_idx)

  unfoldable pub install_ipv4_aliases : Cmd S (Unit {0})
  install_ipv4_aliases = do
    root ← walk_left 96 0
    elim root [
      | none ↦ pure tt
      | some v4_root_idx ↦ (do
        parent ← walk_left 95 0
        elim parent [ none ↦ pure tt | some p ↦ pin_and_alias p v4_root_idx ])
    ]

-- The match of `get`; `go` is the rest of the loop, from the next node on.
unfoldable pub get_step : (ℕ → Option (Option ℕ)) → Record → Option (Option ℕ)
get_step go (node i) = go i
get_step go (fixed_node i) = go i
get_step go (alias i) = go i
get_step go (populated id) = some (some id)
get_step go no_data = some none
get_step go reserved = some none

-- The loop of `get`, from `depth` on; the first number is the rounds left. The outer `none` is a
-- panic, an index out of bounds.
unfoldable pub get_loop : Nodes → ℕ → ℕ → ℕ → ℕ → Option (Option ℕ)
get_loop ns bits zero depth node_idx = some none
get_loop ns bits (suc k) depth node_idx = elim (get_elem? ns node_idx) [
  | none ↦ none
  | some n ↦ get_step (get_loop ns bits k (depth + 1)) (child n (bit_at bits depth))
]

unfoldable pub get : Nodes → ℕ → ℕ → Option (Option ℕ)
get ns bits depth_limit = get_loop ns bits depth_limit 0 0
