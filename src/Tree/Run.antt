-- ===== src/Tree/Run.antt =====
-- src/tree.rs: the types of the search tree, and commands over its vector of nodes.
use mmdb_writer.Base.{
  ℕ, ◌-◌, ◌^◌, none, some, List, [], ◌∷◌, ◌++◌, ◌==◌, ltb, if◌then◌else◌, length, get_elem?, set,
}
use mmdb_writer.RecordSize.{RecordSize, bits32}

-- `Data(ValueId)` is `populated`.
pub data Record : Type 0 where
  no_data : Record
  node : ℕ → Record
  fixed_node : ℕ → Record
  populated : ℕ → Record
  alias : ℕ → Record
  reserved : Record

pub record Node : Type 0 where
  pub left : Record
  pub right : Record

abbrev pub pair : Record → Record → Node
pair l r = record { left = l; right = r }

-- `Node::default()`
abbrev pub default_node : Node
default_node = pair no_data no_data

unfoldable pub child : Node → ℕ → Record
child n bit = if bit == 0 then n.left else n.right

-- A write through `child_mut`.
unfoldable pub with_child : Node → ℕ → Record → Node
with_child n bit r = if bit == 0 then record n { left = r } else record n { right = r }

abbrev pub Nodes : Type 0
Nodes = List Node

-- The variant `TreeTooLarge` of the crate's error type.
pub data TreeError : Type 0 where
  tree_too_large : ℕ → ℕ → RecordSize → TreeError

-- How a command ends: `panic` is an index out of bounds, `stuck` is no end of the program but the
-- fuel of the model used up. `S` is the state of a caller's closure.
pub data Run (S A : Type 0) : Type 0 where
  ok : A → Nodes → S → Run S A
  err : TreeError → Nodes → S → Run S A
  panic : Run S A
  stuck : Run S A

abbrev pub Cmd : Type 0 → Type 0 → Type 0
Cmd S A = Nodes → S → Run S A

module _ {S : Type 0} where
  abbrev pub pure : {A : Type 0} → A → Cmd S A
  pure = ok

  module _ {A B : Type 0} where
    abbrev pub and_then : Run S A → (A → Cmd S B) → Run S B
    and_then (ok a ns s) k = k a ns s
    and_then (err e ns s) k = err e ns s
    and_then panic k = panic
    and_then stuck k = stuck

    infixl 5 ◌>>=◌ ◌>>◌
    abbrev pub ◌>>=◌ : Cmd S A → (A → Cmd S B) → Cmd S B
    m >>= k = λ ns s. and_then (m ns s) k

    abbrev pub ◌>>◌ : Cmd S A → Cmd S B → Cmd S B
    m >> n = m >>= λ _. n

  -- `self.nodes[idx]`
  unfoldable pub load : ℕ → Cmd S Node
  load idx ns s = elim (get_elem? ns idx) [ some n ↦ ok n ns s | none ↦ panic ]

  -- `*self.nodes[idx].child_mut(bit) = r`
  unfoldable pub set_child : ℕ → ℕ → Record → Cmd S (Unit {0})
  set_child idx bit r ns s = elim (get_elem? ns idx) [
    | some n ↦ ok tt (set ns idx (with_child n bit r)) s
    | none ↦ panic
  ]

  -- `u32::try_from` fails from 2^32 nodes on.
  unfoldable pub alloc_node : Node → Cmd S ℕ
  alloc_node n ns s =
      if ltb (length ns) (2 ^ 32)
      then ok (length ns) (ns ++ (n ∷ [])) s
      else err (tree_too_large (length ns) (2 ^ 32 - 1) bits32) ns s
