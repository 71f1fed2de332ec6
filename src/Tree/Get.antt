-- ===== src/Tree/Get.antt =====
-- `get` finds the leaf on the address's path.
use native.Mathlib.Numerals.{add-one}
use mmdb_writer.Base.{
  ℕ, zero, suc, ◌+◌, ◌≡◌, refl, ◌∙◌, Bool, true, false, Option, none, some, ◌==◌, inl, inr,
  get_elem?, Bool-cases, arith,
}
use mmdb_writer.Tree.Run.{Node, child, Nodes}
use mmdb_writer.Tree.{bit_at, get_step, get_loop, get}
use mmdb_writer.Tree.Trie.{
  Leaf, empty, value, alias_to, blocked, Trie, leaf, branch, root_record, Holds, Fits, view,
}
use mmdb_writer.Tree.Insert.{IsTree, trie}

-- The data of a leaf.
abbrev pub leaf_id : Leaf → Option ℕ
leaf_id (value id) = some id
leaf_id _ = none

-- `get` follows an alias; the writer's tree has none before it is built.
abbrev pub IsPlain : Leaf → Type 0
IsPlain (alias_to i) = ⊥
IsPlain _ = Unit {0}

get_loop_step :
    (ns : Nodes) (addr k d i : ℕ) (n : Node)
    → get_elem? ns i ≡ some n
    → get_loop ns addr (suc k) d i ≡ get_step (get_loop ns addr k (suc d)) (child n (bit_at addr d))
unfolding get_loop
get_loop_step ns addr k d i n h = rw (h, get_loop, add-one d)

get_step-view :
    (go : ℕ → Option (Option ℕ)) (ns : Nodes) (addr d : ℕ) (t : Trie)
    → ((f : Bool) (i : ℕ) (l r : Trie)
        → Holds ns (branch f i l r)
        → Fits d (branch f i l r)
        → IsPlain (view (branch f i l r) addr d)
        → go i ≡ some (leaf_id (view (branch f i l r) addr d)))
    → Holds ns t
    → Fits d t
    → IsPlain (view t addr d)
    → get_step go (root_record t) ≡ some (leaf_id (view t addr d))
unfolding get_step view
get_step-view go ns addr d (leaf empty) rec h fits p = refl
get_step-view go ns addr d (leaf (value id)) rec h fits p = refl
get_step-view go ns addr d (leaf (alias_to a)) rec h fits p = absurd p
get_step-view go ns addr d (leaf blocked) rec h fits p = refl
get_step-view go ns addr d (branch false i l r) rec h fits p = rec false i l r h fits p
get_step-view go ns addr d (branch true i l r) rec h fits p = rec true i l r h fits p

get_loop-view :
    (ns : Nodes) (addr k d : ℕ) (f : Bool) (i : ℕ) (l r : Trie)
    → k + d ≡ 128
    → Holds ns (branch f i l r)
    → Fits d (branch f i l r)
    → IsPlain (view (branch f i l r) addr d)
    → get_loop ns addr k d i ≡ some (leaf_id (view (branch f i l r) addr d))
unfolding view child
get_loop-view ns addr zero d f i l r e h fits p = absurd (omega (arith, fits.0))
get_loop-view ns addr (suc k) d f i l r e h fits p =
    get_loop_step ns addr k d i _ h.0 ∙ elim (Bool-cases (bit_at addr d == 0)) [
      | inl z ↦ rw z (
          get_step-view (get_loop ns addr k (suc d)) ns addr (suc d) l
            (λ g j l' r'. get_loop-view ns addr k (suc d) g j l' r' (omega arith)) h.1 fits.1
            (rw z at p))
      | inr z ↦ rw z (
          get_step-view (get_loop ns addr k (suc d)) ns addr (suc d) r
            (λ g j l' r'. get_loop-view ns addr k (suc d) g j l' r' (omega arith)) h.2 fits.2
            (rw z at p))
    ]

-- On a tree `get` with the full depth finds the data of the leaf on the address's path, if that is
-- not an alias.
pub get-view :
    (ns : Nodes) (w : IsTree ns) (addr : ℕ)
    → IsPlain (view (trie w) addr 0)
    → get ns addr 128 ≡ some (leaf_id (view (trie w) addr 0))
unfolding get
get-view ns w addr p = get_loop-view ns addr 128 0 false 0 w.left w.right refl w.holds w.fits p
