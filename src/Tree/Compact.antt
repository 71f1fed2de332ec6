-- ===== src/Tree/Compact.antt =====
-- src/tree.rs: compaction, which replaces a node of two equal leaves by the leaf and renumbers the
-- nodes that are left.
pub mod Numbered
pub mod Reached
pub mod Renumber
pub mod Replaced
pub mod Ends
pub mod Settled
pub mod Kept
pub mod Whole
use mmdb_writer.Base.{
  ℕ, zero, suc, ◌+◌, ◌*◌, ◌-◌, ◌^◌, min, ◌&&◌, Option, none, some, List, [], ◌∷◌, ◌++◌, ◌==◌,
  if◌then◌else◌, length,
}
use mmdb_writer.Tree.Run.{
  Record, no_data, node, fixed_node, populated, alias, reserved, pair, Nodes, Run, Cmd, pure, ◌>>=◌,
  ◌>>◌, load, set_child,
}
use mmdb_writer.Tree.{record_eq, is_leaf_record}

-- The number that `old_to_new` has for a node.
unfoldable pub new_index : List (ℕ × ℕ) → ℕ → Option ℕ
new_index [] i = none
new_index ((old, new) ∷ m) i = if old == i then some new else new_index m i

-- `if let Record::Node(i) | Record::FixedNode(i) = r { stack.push(i) }`
unfoldable pub push_target : Record → List ℕ → List ℕ
push_target (node i) stack = i ∷ stack
push_target (fixed_node i) stack = i ∷ stack
push_target _ stack = stack

-- `map_or(Record::NoData, …)`
unfoldable pub remap_record : List (ℕ × ℕ) → Record → Record
remap_record old_to_new (node i) = elim (new_index old_to_new i) [
  | some j ↦ node j
  | none ↦ no_data
]
remap_record old_to_new (fixed_node i) = elim (new_index old_to_new i) [
  | some j ↦ fixed_node j
  | none ↦ no_data
]
remap_record old_to_new (alias i) = elim (new_index old_to_new i) [
  | some j ↦ alias j
  | none ↦ no_data
]
remap_record old_to_new r = r

module _ {S : Type 0} where
  -- `go` is the call of `compact_node`.
  unfoldable pub resolve_child : (ℕ → Cmd S Record) → Record → Cmd S Record
  resolve_child go (node i) = go i
  resolve_child go (fixed_node i) = go i >> pure (fixed_node i)
  resolve_child go r = pure r

  -- The body of `compact_node`.
  unfoldable pub compact_step : (ℕ → Cmd S Record) → ℕ → Cmd S Record
  compact_step go idx = do
    n ← load idx
    left ← resolve_child go n.left
    m ← load idx
    right ← resolve_child go m.right
    set_child idx 0 left
    set_child idx 1 right
    pure (if record_eq left right && is_leaf_record left then left else node idx)

  -- The recursion takes fuel; each call is one level deeper.
  unfoldable pub compact_node : ℕ → ℕ → Cmd S Record
  compact_node zero idx = λ ns s. Run.stuck
  compact_node (suc fuel) idx = compact_step (compact_node fuel) idx

  -- The `while` loop: the map and the order at its end. The top of the stack is the head.
  unfoldable pub renumber_loop : ℕ → List ℕ → List (ℕ × ℕ) → List ℕ → Cmd S (List (ℕ × ℕ) × List ℕ)
  renumber_loop zero stack old_to_new order = λ ns s. Run.stuck
  renumber_loop (suc fuel) [] old_to_new order = pure (old_to_new, order)
  renumber_loop (suc fuel) (old_idx ∷ stack) old_to_new order =
      elim (new_index old_to_new old_idx) [
        | some _ ↦ renumber_loop fuel stack old_to_new order
        | none ↦ (do
          n ← load old_idx
          renumber_loop fuel (push_target n.left (push_target n.right stack))
              ((old_idx, min (length order) (2 ^ 32 - 1)) ∷ old_to_new) (order ++ (old_idx ∷ [])))
      ]

  -- `for &old_idx in &order`: the new nodes.
  unfoldable pub new_nodes : List (ℕ × ℕ) → List ℕ → Cmd S Nodes
  new_nodes old_to_new [] = pure []
  new_nodes old_to_new (old_idx ∷ order) = do
    n ← load old_idx
    rest ← new_nodes old_to_new order
    pure (pair (remap_record old_to_new n.left) (remap_record old_to_new n.right) ∷ rest)

  -- Each round pops one index, and each node pushes two at most, once.
  unfoldable pub renumber_reachable : Cmd S (Unit {0})
  renumber_reachable ns s =
      (do
        done ← renumber_loop (2 + 2 * length ns) (0 ∷ []) [] []
        nodes ← new_nodes done.0 done.1
        (λ ns' s'. Run.ok tt nodes s'))
        ns s

  -- `self.nodes[0] = Node { left: r, right: r }`
  unfoldable pub set_root : Record → Cmd S (Unit {0})
  set_root r = do set_child 0 0 r; set_child 0 1 r

  -- `if !matches!(root_effective, Record::Node(_) | Record::FixedNode(_))`
  unfoldable pub settle_root : Record → Cmd S (Unit {0})
  settle_root (node _) = pure tt
  settle_root (fixed_node _) = pure tt
  settle_root r = set_root r

  -- No node is deeper than 128.
  unfoldable pub compact : Cmd S (Unit {0})
  compact = do root_effective ← compact_node 129 0; settle_root root_effective; renumber_reachable
