-- ===== src/Tree/Trie.antt =====
-- The trees that a vector of nodes stands for. A `Trie` names the index of each node, and `Holds`
-- says that the vector holds it; no node is shared.
use mathlib.Core.Path.{subst}
use mmdb_writer.Base.{
  ◌≢◌, ||-false, inl, inr, ||-cases, ==_iff, ℕ, suc, ◌<◌, ◌≡◌, sym, ◌∙◌, Bool, true, false, ◌||◌,
  some, ◌==◌, if◌then◌else◌, length, get_elem?, get_elem?-lt, arith,
}
use mmdb_writer.Tree.Run.{
  Record, no_data, node, fixed_node, populated, alias, reserved, pair, Nodes,
}
use mmdb_writer.Tree.{bit_at}

pub data Leaf : Type 0 where
  empty : Leaf
  value : ℕ → Leaf
  alias_to : ℕ → Leaf
  blocked : Leaf

-- `branch fixed idx l r`: a node, and whether the record that leads to it is a `FixedNode`.
pub data Trie : Type 0 where
  leaf : Leaf → Trie
  branch : Bool → ℕ → Trie → Trie → Trie

abbrev pub leaf_record : Leaf → Record
leaf_record empty = no_data
leaf_record (value id) = populated id
leaf_record (alias_to i) = alias i
leaf_record blocked = reserved

abbrev pub node_record : Bool → ℕ → Record
node_record false i = node i
node_record true i = fixed_node i

-- The record that leads to a trie.
abbrev pub root_record : Trie → Record
root_record (leaf x) = leaf_record x
root_record (branch f i l r) = node_record f i

-- The node `a` is one of the trie's.
abbrev pub has : ℕ → Trie → Bool
has a (leaf x) = false
has a (branch f i l r) = (a == i) || (has a l || has a r)

abbrev pub Apart : Trie → Trie → Type 0
Apart l r = (a : ℕ) → has a l ≡ true → has a r ≡ false

abbrev pub Holds : Nodes → Trie → Type 0
Holds ns (leaf x) = Unit {0}
Holds ns (branch f i l r) =
    (get_elem? ns i ≡ some (pair (root_record l) (root_record r))) × Holds ns l × Holds ns r

abbrev pub IsDistinct : Trie → Type 0
IsDistinct (leaf x) = Unit {0}
IsDistinct (branch f i l r) =
    (has i l ≡ false) × (has i r ≡ false) × Apart l r × IsDistinct l × IsDistinct r

-- At depth `d` or below no node is at depth 128 or more.
abbrev pub Fits : ℕ → Trie → Type 0
Fits d (leaf x) = Unit {0}
Fits d (branch f i l r) = (d < 128) × Fits (suc d) l × Fits (suc d) r

-- The leaf at which the walk along the bits of `addr` from depth `d` on ends.
unfoldable pub view : Trie → ℕ → ℕ → Leaf
view (leaf x) addr d = x
view (branch f i l r) addr d =
    if bit_at addr d == 0 then view l addr (suc d) else view r addr (suc d)

-- A trie stays where none of its nodes changes.
pub Holds-frame :
    (ns ns' : Nodes) (t : Trie)
    → Holds ns t
    → ((a : ℕ) → has a t ≡ true → get_elem? ns' a ≡ get_elem? ns a)
    → Holds ns' t
Holds-frame ns ns' (leaf x) h same = tt
Holds-frame ns ns' (branch f i l r) (e, hl, hr) same = (
  same i (ground arith) ∙ e,
  Holds-frame ns ns' l hl (λ a m. same a (ground arith)),
  Holds-frame ns ns' r hr (λ a m. same a (ground arith)),
)

pub has-lt : (ns : Nodes) (t : Trie) (a : ℕ) → Holds ns t → has a t ≡ true → a < length ns
has-lt ns (leaf x) a h m = cc
has-lt ns (branch f i l r) a (e, hl, hr) m = elim (||-cases (a == i) (has a l || has a r) m) [
  | inl here ↦ subst (λ j. j < length ns) (sym ((==_iff a i).0 here)) (get_elem?-lt ns i _ e)
  | inr below ↦ elim (||-cases (has a l) (has a r) below) [
    | inl q ↦ has-lt ns l a hl q
    | inr q ↦ has-lt ns r a hr q
  ]
]

-- What is no node of a part is not its root.
pub ne_of_out : (a c : ℕ) (f : Bool) (l r : Trie) → has a (branch f c l r) ≡ false → a ≢ c
ne_of_out a c f l r out e = cc ((==_iff a c).1 e, (||-false (a == c) (has a l || has a r) out).0)
