-- ===== src/Tree/Compact/Ends.antt =====
-- Runs that return, with the state as it was.
use mmdb_writer.Base.{ℕ, ◌≡◌, refl, some, get_elem?, set}
use mmdb_writer.Tree.Run.{Record, Node, with_child, Nodes, Run, Cmd, and_then, load, set_child}
use mmdb_writer.Tree.Returns.{load-ok, set_child-ok}

-- The run returns a value and nodes with `P`.
pub record Ends {S A : Type 0} (s : S) (P : A → Nodes → Type 0) (r : Run S A) : Type 0 where
  pub answer : A
  pub nodes : Nodes
  pub is : r ≡ Run.ok answer nodes s
  pub holds : P answer nodes

module _ {S : Type 0} {s : S} where
  pub Ends-pure :
      {A : Type 0} {P : A → Nodes → Type 0} (a : A) (ns : Nodes) → P a ns → Ends s P (Run.ok a ns s)
  Ends-pure a ns p = record { answer = a; nodes = ns; is = refl; holds = p }

  pub Ends-then :
      {A B : Type 0} {P : A → Nodes → Type 0} {Q : B → Nodes → Type 0} {r : Run S A}
      (k : A → Cmd S B)
      → Ends s P r
      → ((a : A) (ns : Nodes) → P a ns → Ends s Q (k a ns s))
      → Ends s Q (and_then r k)
  Ends-then k e next = rw e.is (next e.answer e.nodes e.holds)

  pub Ends-load :
      {B : Type 0} {Q : B → Nodes → Type 0} (k : Node → Cmd S B) (ns : Nodes) (i : ℕ) (n : Node)
      → get_elem? ns i ≡ some n
      → Ends s Q (k n ns s)
      → Ends s Q (and_then (load i ns s) k)
  Ends-load k ns i n here next = rw (load-ok ns i n here s) next

  pub Ends-write :
      {B : Type 0} {Q : B → Nodes → Type 0} (k : Unit {0} → Cmd S B) (ns : Nodes) (i b : ℕ)
      (n : Node) (r : Record)
      → get_elem? ns i ≡ some n
      → Ends s Q (k tt (set ns i (with_child n b r)) s)
      → Ends s Q (and_then (set_child i b r ns s) k)
  Ends-write k ns i b n r here next = rw (set_child-ok ns i n here s b r) next
