-- ===== src/Tree/Compact/Reached.antt =====
-- Which nodes the renumbering of src/tree.rs goes to, and what its loop has found.
use mathlib.Core.Path.{subst}
use mmdb_writer.Base.{
  ℕ, zero, suc, ◌+◌, ◌≤◌, ◌<◌, ◌≡◌, ◌⊎◌, refl, sym, none, some, List, [], ◌∷◌, ◌==◌, ==_iff,
  if◌then◌else◌, inl, inr, Bool-cases, All, length, get_elem?, arith,
}
use mmdb_writer.Tree.Run.{
  Record, no_data, node, fixed_node, populated, alias, reserved, Node, Nodes,
}
use mmdb_writer.Tree.Compact.{new_index, push_target}

-- The record leads to node `i`.
abbrev pub LeadsTo : Record → ℕ → Type 0
LeadsTo (node j) i = j ≡ i
LeadsTo (fixed_node j) i = j ≡ i
LeadsTo _ i = ⊥

-- The nodes to which records lead from the root.
pub data Reached (ns : Nodes) : ℕ → Type 0 where
  root : Reached ns 0
  go_left :
      {i j : ℕ} (n : Node)
      → Reached ns i
      → get_elem? ns i ≡ some n
      → LeadsTo n.left j
      → Reached ns j
  go_right :
      {i j : ℕ} (n : Node)
      → Reached ns i
      → get_elem? ns i ≡ some n
      → LeadsTo n.right j
      → Reached ns j

-- An alias goes to a node that is reached.
abbrev pub AliasIsReached : Nodes → Record → Type 0
AliasIsReached ns (alias j) = Reached ns j
AliasIsReached ns _ = Unit {0}

-- Every node that is reached is there, and aliases go to such nodes.
abbrev pub IsLinked : Nodes → Type 0
IsLinked ns =
    (i : ℕ)
    → Reached ns i
    → (n : Node) × (get_elem? ns i ≡ some n) × AliasIsReached ns n.left × AliasIsReached ns n.right

abbrev pub In : ℕ → List ℕ → Type 0
In t [] = ⊥
In t (x ∷ xs) = (t ≡ x) ⊎ In t xs

abbrev pub Known : List (ℕ × ℕ) → ℕ → Type 0
Known old_to_new t = (j : ℕ) × (new_index old_to_new t ≡ some j)

-- The target of a record has its number or waits on the stack.
abbrev pub Waits : List (ℕ × ℕ) → List ℕ → Record → Type 0
Waits m stack (node t) = Known m t ⊎ In t stack
Waits m stack (fixed_node t) = Known m t ⊎ In t stack
Waits m stack _ = Unit {0}

pub new_index-add :
    (x k i : ℕ) (m : List (ℕ × ℕ))
    → new_index ((x, k) ∷ m) i ≡ (if x == i then some k else new_index m i)
unfolding new_index
new_index-add x k i m = refl

-- A node more is known.
pub Known-add : (x k t : ℕ) (m : List (ℕ × ℕ)) → Known m t → Known ((x, k) ∷ m) t
unfolding new_index
Known-add x k t m (j, e) = elim (Bool-cases (x == t)) [
  | inl h ↦ (k, rw h refl)
  | inr h ↦ (j, rw h e)
]

pub Known-here : (x k t : ℕ) (m : List (ℕ × ℕ)) → t ≡ x → Known ((x, k) ∷ m) t
unfolding new_index
Known-here x k t m e = (k, rw ((==_iff x t).1 (sym e)) refl)

pub Waits-mono :
    (m m' : List (ℕ × ℕ)) (stack stack' : List ℕ) (r : Record)
    → ((t : ℕ) → Known m t ⊎ In t stack → Known m' t ⊎ In t stack')
    → Waits m stack r
    → Waits m' stack' r
Waits-mono m m' stack stack' (node t) f w = f t w
Waits-mono m m' stack stack' (fixed_node t) f w = f t w
Waits-mono m m' stack stack' no_data f w = tt
Waits-mono m m' stack stack' (populated i) f w = tt
Waits-mono m m' stack stack' (alias i) f w = tt
Waits-mono m m' stack stack' reserved f w = tt

pub In-push_target : (t : ℕ) (r : Record) (stack : List ℕ) → In t stack → In t (push_target r stack)
unfolding push_target
In-push_target t (node i) stack h = inr h
In-push_target t (fixed_node i) stack h = inr h
In-push_target t no_data stack h = h
In-push_target t (populated i) stack h = h
In-push_target t (alias i) stack h = h
In-push_target t reserved stack h = h

-- What was pushed waits.
pub Waits-push_target :
    (m : List (ℕ × ℕ)) (r : Record) (stack stack' : List ℕ)
    → ((t : ℕ) → In t (push_target r stack) → In t stack')
    → Waits m stack' r
unfolding push_target
Waits-push_target m (node i) stack stack' f = inr (f i (inl refl))
Waits-push_target m (fixed_node i) stack stack' f = inr (f i (inl refl))
Waits-push_target m no_data stack stack' f = tt
Waits-push_target m (populated i) stack stack' f = tt
Waits-push_target m (alias i) stack stack' f = tt
Waits-push_target m reserved stack stack' f = tt

pub All-push_target :
    (P : ℕ → Type 0) (r : Record) (stack : List ℕ)
    → ((t : ℕ) → LeadsTo r t → P t)
    → All P stack
    → All P (push_target r stack)
unfolding push_target
All-push_target P (node i) stack f a = (f i refl, a)
All-push_target P (fixed_node i) stack f a = (f i refl, a)
All-push_target P no_data stack f a = a
All-push_target P (populated i) stack f a = a
All-push_target P (alias i) stack f a = a
All-push_target P reserved stack f a = a

pub length-push_target :
    (r : Record) (stack : List ℕ) → length (push_target r stack) ≤ length stack + 1
unfolding push_target
length-push_target (node i) stack = omega arith
length-push_target (fixed_node i) stack = omega arith
length-push_target no_data stack = omega arith
length-push_target (populated i) stack = omega arith
length-push_target (alias i) stack = omega arith
length-push_target reserved stack = omega arith

-- How many of the first `n` nodes have no number.
unfoldable pub unvisited : ℕ → List (ℕ × ℕ) → ℕ
unvisited zero m = 0
unvisited (suc n) m = unvisited n m + (elim (new_index m n) [ none ↦ 1 | some j ↦ 0 ])

unvisited_same : (n x k : ℕ) (m : List (ℕ × ℕ)) → n ≤ x → unvisited n ((x, k) ∷ m) ≡ unvisited n m
unfolding unvisited new_index
unvisited_same zero x k m h = refl
unvisited_same (suc n) x k m h = ground (arith, unvisited_same n x k m)

-- A new number takes one away.
pub unvisited-add :
    (n x k : ℕ) (m : List (ℕ × ℕ))
    → x < n
    → new_index m x ≡ none
    → unvisited n ((x, k) ∷ m) + 1 ≡ unvisited n m
unfolding unvisited
unvisited-add zero x k m h e = absurd (omega arith)
unvisited-add (suc n) x k m h e = elim (Bool-cases (x == n)) [
  | inl same ↦
      let at : x ≡ n = (==_iff x n).0 same in
      rw (new_index-add x k n m, same, unvisited_same n x k m (omega arith), unvisited)
        (rw (subst (λ y. new_index m y ≡ none) at e, unvisited) (omega arith))
  | inr other ↦
      rw (new_index-add x k n m, other) (omega (arith, unvisited-add n x k m (ground arith) e))
]

-- Nothing waits on an empty stack.
pub number_of_target : (m : List (ℕ × ℕ)) (t : ℕ) → Known m t ⊎ In t [] → Known m t
number_of_target m t (inl k) = k
number_of_target m t (inr h) = absurd h

pub Waits-Known : (m : List (ℕ × ℕ)) (r : Record) (t : ℕ) → LeadsTo r t → Waits m [] r → Known m t
Waits-Known m (node u) t e w = subst (Known m) e (number_of_target m u w)
Waits-Known m (fixed_node u) t e w = subst (Known m) e (number_of_target m u w)
Waits-Known m no_data t e w = absurd e
Waits-Known m (populated a) t e w = absurd e
Waits-Known m (alias a) t e w = absurd e
Waits-Known m reserved t e w = absurd e
