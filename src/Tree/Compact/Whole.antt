-- ===== src/Tree/Compact/Whole.antt =====
-- src/tree.rs: `compact` as a whole, on a tree without aliases.
use mathlib.Core.Path.{subst}
use mmdb_writer.Base.{
  ◌<◌, ◌==◌, some-injective, ℕ, suc, ◌^◌, ◌≤◌, ◌≡◌, refl, sym, ◌∙◌, ap, Bool, true, false, some,
  length, get_elem?, set_same, set, inl, inr, Bool-cases, arith,
}
use mmdb_writer.Tree.Run.{
  node, fixed_node, Record, no_data, populated, alias, reserved, Node, pair, with_child, Nodes, Run,
  ok,
}
use mmdb_writer.Tree.{get, bit_at}
use mmdb_writer.Tree.Insert.{IsTree, trie}
use mmdb_writer.Tree.Get.{IsPlain}
use mmdb_writer.Tree.Trie.{
  Leaf, empty, value, alias_to, blocked, Trie, leaf, branch, leaf_record, root_record, Holds, view,
}
use mmdb_writer.Tree.Done.{twins, twins→leaf}
use mmdb_writer.Tree.Returns.{set_child-ok}
use mmdb_writer.Tree.Compact.{compact, compact_node, set_root, settle_root, renumber_reachable}
use mmdb_writer.Tree.Compact.Kept.{compact_node-Kept}
use mmdb_writer.Tree.Compact.Reached.{
  LeadsTo, Reached, root, go_left, go_right, AliasIsReached, IsLinked,
}
use mmdb_writer.Tree.Leaves.{AllLeaves, AllLeaves-view}
use mmdb_writer.Tree.Compact.Settled.{settled}
use mmdb_writer.Tree.Compact.Renumber.{Kin, Origin, renumber_reachable-Renumbered}

AllLeaves-at : (Q : Leaf → Type 0) (t : Trie) (addr d : ℕ) → AllLeaves Q t → Q (view t addr d)
unfolding view
AllLeaves-at Q (leaf x) addr d p = p
AllLeaves-at Q (branch f i l r) addr d p = elim (Bool-cases (bit_at addr d == 0)) [
  | inl z ↦ rw z (AllLeaves-at Q l addr (suc d) p.0)
  | inr z ↦ rw z (AllLeaves-at Q r addr (suc d) p.1)
]

-- A record that leads to a node among `count` or to data for which `Q` holds.
abbrev pub Leads : (Leaf → Type 0) → ℕ → Record → Type 0
Leads Q count (node j) = j < count
Leads Q count (fixed_node j) = j < count
Leads Q count (alias j) = j < count
Leads Q count (populated id) = Q (value id)
Leads Q count _ = Unit {0}

-- The nodes after compaction.
pub record Compacted (Q : Leaf → Type 0) (ns nodes : Nodes) : Type 0 where
  pub filled : 0 < length nodes
  pub fewer : length nodes ≤ length ns
  pub same : (addr : ℕ) → get nodes addr 128 ≡ get ns addr 128
  pub leads :
      (j : ℕ) (n : Node)
      → get_elem? nodes j ≡ some n
      → Leads Q (length nodes) n.left × Leads Q (length nodes) n.right

module _ (Q : Leaf → Type 0) (plain : (x : Leaf) → Q x → IsPlain x) where
  -- The node is one of a part of the tree in which `Q` holds of the leaves.
  InTree : Nodes → ℕ → Type 0
  InTree ns i =
      (f : Bool) × (l : Trie) × (r : Trie) × Holds ns (branch f i l r)
      × AllLeaves Q (branch f i l r)

  leads-InTree :
      (ns : Nodes) (t : Trie) (j : ℕ)
      → Holds ns t
      → AllLeaves Q t
      → LeadsTo (root_record t) j
      → InTree ns j
  unfolding InTree
  leads-InTree ns (branch false i l r) j h p e = subst (InTree ns) e (false, l, r, h, p)
  leads-InTree ns (branch true i l r) j h p e = subst (InTree ns) e (true, l, r, h, p)
  leads-InTree ns (leaf empty) j h p e = absurd e
  leads-InTree ns (leaf (value a)) j h p e = absurd e
  leads-InTree ns (leaf (alias_to a)) j h p e = absurd e
  leads-InTree ns (leaf blocked) j h p e = absurd e

  no_alias : (ns : Nodes) (t : Trie) → AllLeaves Q t → AliasIsReached ns (root_record t)
  no_alias ns (branch false i l r) p = tt
  no_alias ns (branch true i l r) p = tt
  no_alias ns (leaf empty) p = tt
  no_alias ns (leaf (value a)) p = tt
  no_alias ns (leaf (alias_to a)) p = absurd (plain (alias_to a) p)
  no_alias ns (leaf blocked) p = tt

  -- The data of a record that comes from a part of the tree.
  Kin-Leads :
      (count : ℕ) (t : Trie) (r : Record)
      → AllLeaves Q t
      → Kin count (root_record t) r
      → Leads Q count r
  Kin-Leads count t (node j) p k = k
  Kin-Leads count t (fixed_node j) p k = k
  Kin-Leads count t (alias j) p k = k
  Kin-Leads count t no_data p k = tt
  Kin-Leads count t reserved p k = tt
  Kin-Leads count (leaf (value a)) (populated id) p k =
      let same : a ≡ id = cc in subst (λ x. Q (value x)) same p
  Kin-Leads count (leaf empty) (populated id) p k = cc
  Kin-Leads count (leaf (alias_to a)) (populated id) p k = cc
  Kin-Leads count (leaf blocked) (populated id) p k = cc
  Kin-Leads count (branch false i l r) (populated id) p k = cc
  Kin-Leads count (branch true i l r) (populated id) p k = cc

  module _ (ns : Nodes) (w : IsTree ns) (leaves : AllLeaves Q (trie w)) where
    Reached-InTree : (i : ℕ) → Reached ns i → InTree ns i
    unfolding InTree
    Reached-InTree i root = (false, w.left, w.right, w.holds, leaves)
    Reached-InTree j (go_left {i} n at here to) =
        let (f, l, r, h, p) = Reached-InTree i at in
        leads-InTree ns l j h.1 p.0
          (subst (λ m. LeadsTo m.left j) (some-injective (sym here ∙ h.0)) to)
    Reached-InTree j (go_right {i} n at here to) =
        let (f, l, r, h, p) = Reached-InTree i at in
        leads-InTree ns r j h.2 p.1
          (subst (λ m. LeadsTo m.right j) (some-injective (sym here ∙ h.0)) to)

    pub IsTree-IsLinked : IsLinked ns
    unfolding InTree
    IsTree-IsLinked i at =
        let (f, l, r, h, p) = Reached-InTree i at in (_, h.0, no_alias ns l p.0, no_alias ns r p.1)

    Origin-Leads :
        (count : ℕ) (n : Node) → Origin ns count n → Leads Q count n.left × Leads Q count n.right
    unfolding InTree
    Origin-Leads count n o =
        let (f, l, r, h, p) = Reached-InTree o.index o.known in
        let same = some-injective (sym o.here ∙ h.0) in
        (
          Kin-Leads count l n.left p.0 (subst (λ m. Kin count m.left n.left) same o.left),
          Kin-Leads count r n.right p.1 (subst (λ m. Kin count m.right n.right) same o.right),
        )

module _ {S : Type 0} (s : S) where
  set_root_same :
      (ns : Nodes) (r : Record)
      → get_elem? ns 0 ≡ some (pair r r)
      → set_root r ns s ≡ Run.ok tt ns s
  unfolding set_root with_child
  set_root_same ns r here =
      let still : set ns 0 (pair r r) ≡ ns = set_same ns 0 (pair r r) here in
      rw (set_child-ok ns 0 _ here s 0 r, still, set_child-ok ns 0 _ here s 1 r, still) refl

  settle_root_leaf :
      (ns : Nodes) (x : Leaf)
      → get_elem? ns 0 ≡ some (pair (leaf_record x) (leaf_record x))
      → settle_root (leaf_record x) ns s ≡ Run.ok tt ns s
  unfolding settle_root
  settle_root_leaf ns empty here = set_root_same ns no_data here
  settle_root_leaf ns (value id) here = set_root_same ns (populated id) here
  settle_root_leaf ns (alias_to a) here = set_root_same ns (alias a) here
  settle_root_leaf ns blocked here = set_root_same ns reserved here

  -- The root that is kept needs no writing.
  settle_root-settled :
      (ns : Nodes) (l r : Trie)
      → get_elem? ns 0 ≡ some (pair (root_record l) (root_record r))
      → settle_root (settled 0 l r) ns s ≡ Run.ok tt ns s
  unfolding settle_root
  settle_root-settled ns l r here = elim (Bool-cases (twins l r)) [
    | inl t ↦
        let (x, el, er) = twins→leaf l r t in
        rw (t, ap root_record el)
          (settle_root_leaf ns x (
            here
            ∙ ap (λ a. some (pair a (root_record r))) (ap root_record el)
            ∙ ap (λ a. some (pair (leaf_record x) a)) (ap root_record er)))
    | inr t ↦ rw t refl
  ]

  compact_steps :
      (ns : Nodes) (rec : Record) (ns' : Nodes)
      → compact_node 129 0 ns s ≡ Run.ok rec ns' s
      → settle_root rec ns' s ≡ Run.ok tt ns' s
      → compact ns s ≡ renumber_reachable ns' s
  unfolding compact
  compact_steps ns rec ns' e e' = rw (e, e') refl

  -- On every tree of at most 2^32 nodes in which `Q` holds of the leaf of every address and of no
  -- alias, `compact` ends without an error or a panic and within its fuel. It leaves a node, but no
  -- more than there were, `get` finds at every address what it found before, and each record leads
  -- to a node that is there or to a leaf for which `Q` holds.
  pub compact-Compacted :
      (Q : Leaf → Type 0) (plain : (x : Leaf) → Q x → IsPlain x) (ns : Nodes) (w : IsTree ns)
      → ((addr : ℕ) → addr < 2 ^ 128 → Q (view (trie w) addr 0))
      → length ns ≤ 2 ^ 32
      → (nodes : Nodes) × (compact ns s ≡ ok tt nodes s) × Compacted Q ns nodes
  compact-Compacted Q plain ns w at few =
      let e = compact_node-Kept s ns w in
      let k = e.holds in
      let before = AllLeaves-view Q (trie w) 128 0 refl w.fits at in
      let leaves =
        AllLeaves-view Q (trie k.tree) 128 0 refl k.tree.fits
          (λ addr small. subst Q (sym (k.leaves addr)) (at addr small)) in
      let (nodes, is, done) =
        renumber_reachable-Renumbered e.nodes (IsTree-IsLinked Q plain e.nodes k.tree leaves) s
          (rw k.same_length few) in
      (
        nodes,
        compact_steps ns e.answer e.nodes e.is (
              subst (λ r. settle_root r e.nodes s ≡ Run.ok tt e.nodes s) (sym k.root)
                (settle_root-settled e.nodes k.tree.left k.tree.right k.tree.holds.0))
            ∙ is,
        record {
          filled = done.filled;
          fewer = omega (arith, done.fewer, k.same_length);
          same = λ addr.
              done.same addr 128 ∙ k.lookups addr (plain _ (AllLeaves-at Q (trie w) addr 0 before));
          leads = λ j n here. Origin-Leads Q plain e.nodes k.tree leaves _ n (done.origin j n here);
        },
      )
