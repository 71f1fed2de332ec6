-- ===== src/Tree/Returns.antt =====
-- Total correctness of a command over the nodes, and its primitive steps.
use mmdb_writer.Base.{
  ℕ, ◌^◌, ◌≤◌, ◌≡◌, refl, some, [], ◌∷◌, ◌++◌, ltb, length, get_elem?, set, inl, inr, Bool-cases,
  arith,
}
use mmdb_writer.Tree.Run.{
  Record, Node, child, with_child, Nodes, Run, ok, err, Cmd, and_then, load, set_child, alloc_node,
  TreeError,
}

-- The run ends without a panic and within its fuel: it returns with `P`, or it fails for a node too
-- many, and then there are 2^32 of them.
pub data Returns {S A : Type 0} (P : A → Nodes → S → Type 0) : Run S A → Type 0 where
  returns : {a : A} {ns : Nodes} {s : S} → P a ns s → Returns P (ok a ns s)
  too_large : {e : TreeError} {ns : Nodes} {s : S} → 2 ^ 32 ≤ length ns → Returns P (err e ns s)

module _ {S A : Type 0} {P : A → Nodes → S → Type 0} where
  pub bind :
      {B : Type 0} {Q : B → Nodes → S → Type 0} {r : Run S A} {k : A → Cmd S B}
      → Returns P r
      → ((a : A) (ns : Nodes) (s : S) → P a ns s → Returns Q (k a ns s))
      → Returns Q (and_then r k)
  bind (returns p) next = next _ _ _ p
  bind (too_large h) next = too_large h

  pub mono :
      {Q : A → Nodes → S → Type 0} {r : Run S A}
      → Returns P r
      → ((a : A) (ns : Nodes) (s : S) → P a ns s → Q a ns s)
      → Returns Q r
  mono (returns p) weaken = returns (weaken _ _ _ p)
  mono (too_large h) weaken = too_large h

module _ {S : Type 0} (ns : Nodes) (i : ℕ) (n : Node) (here : get_elem? ns i ≡ some n) (s : S) where
  pub load-ok : load i ns s ≡ ok n ns s
  unfolding load
  load-ok = rw (here, load)

  pub set_child-ok :
      (b : ℕ) (r : Record) → set_child i b r ns s ≡ ok tt (set ns i (with_child n b r)) s
  unfolding set_child
  set_child-ok b r = rw (here, set_child)

pub with_child-child : (n : Node) (b : ℕ) → with_child n b (child n b) ≡ n
unfolding with_child child
with_child-child n b = ground arith

pub with_child-with_child :
    (n : Node) (b : ℕ) (q r : Record) → with_child (with_child n b q) b r ≡ with_child n b r
unfolding with_child
with_child-with_child n b q r = ground arith

pub child-with_child : (n : Node) (b : ℕ) (r : Record) → child (with_child n b r) b ≡ r
unfolding with_child child
child-with_child n b r = ground arith

-- A node too many fails; otherwise it is appended, and its index is the old length.
pub alloc_node-Returns :
    {S : Type 0} (n : Node) (ns : Nodes) (s : S)
    → Returns (λ c ns' s'. (c ≡ length ns) × (ns' ≡ ns ++ (n ∷ [])) × (s' ≡ s)) (alloc_node n ns s)
unfolding alloc_node
alloc_node-Returns n ns s = elim (Bool-cases (ltb (length ns) (2 ^ 32))) [
  | inl room ↦ rw room (returns (refl, refl, refl))
  | inr full ↦ rw full (too_large (ground arith))
]
