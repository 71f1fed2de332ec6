-- ===== src/Tree/Descend.antt =====
-- The descent into a node, and the merge of its parts on the way back.
use mathlib.Core.Path.{subst}
use mmdb_writer.Base.{
  ℕ, suc, ◌-◌, ◌≤◌, ◌<◌, ◌≡◌, ◌⊎◌, refl, sym, ◌∙◌, ap, Bool, false, Option, some, inl, inr,
  if◌then◌else◌, get_elem?, set, Bool-cases, get_elem?-lt, get_elem?-set_self, get_elem?-set_ne,
  length-set, arith,
}
use mmdb_writer.Tree.Run.{node, Node, pair, child, with_child, Nodes, ok, Cmd, and_then}
use mmdb_writer.Tree.{try_merge_node, collapse}
use mmdb_writer.Tree.Trie.{
  Leaf, Trie, leaf, branch, root_record, has, ne_of_out, Holds, IsDistinct, Fits,
}
use mmdb_writer.Tree.Moved.{Moved, Moved-trans}
use mmdb_writer.Tree.Update.{OpLaw, Changed, Changed-after, view-branch_twins}
use mmdb_writer.Tree.Returns.{Returns, returns, bind, load-ok, set_child-ok, with_child-child}
use mmdb_writer.Tree.Done.{twins, twins→leaf, twins_of_split, NodeDone, RecordDone, Inserts}

-- The record of node `hole` is overwritten by a leaf's.
pub Moved-write :
    (hole : ℕ) (ns : Nodes) (t : Trie) (v : Node) (x : Leaf)
    → Moved hole ns t (set ns hole v) (leaf x)
Moved-write hole ns t v x = record {
  holds = tt;
  distinct = tt;
  frame = λ a lt out ne. get_elem?-set_ne ns hole a v (λ e. ne (sym e));
  fresh = λ a lt out. refl;
  longer = omega (arith, length-set ns hole v);
}

-- A node's own index is no hole in what is outside it.
pub Moved-rehole :
    (hole c : ℕ) (f : Bool) (l r t' : Trie) (ns ns' : Nodes)
    → Moved c ns (branch f c l r) ns' t'
    → Moved hole ns (branch f c l r) ns' t'
Moved-rehole hole c f l r t' ns ns' m = record {
  holds = m.holds;
  distinct = m.distinct;
  frame = λ a lt out ne. m.frame a lt out (ne_of_out a c f l r out);
  fresh = m.fresh;
  longer = m.longer;
}

module _ {S : Type 0} where
  -- `collapse` overwrites the record by the leaf that both parts are, if they are one.
  collapse-ok :
      (i b c : ℕ) (n : Node) (l r : Trie) (ns : Nodes) (s : S)
      → get_elem? ns i ≡ some n
      → get_elem? ns c ≡ some (pair (root_record l) (root_record r))
      → collapse i b c ns s
        ≡ (if twins l r then ok tt (set ns i (with_child n b (root_record l))) s else ok tt ns s)
  unfolding collapse try_merge_node twins
  collapse-ok i b c n l r ns s hi hc = elim (Bool-cases (twins l r)) [
    | inl t ↦ rw (load-ok ns c _ hc s, t) (set_child-ok ns i n hi s b (root_record l))
    | inr t ↦ rw (load-ok ns c _ hc s, t)
  ]

module _ {S : Type 0} {op : S → Option ℕ → Option ℕ × S} (law : OpLaw op) (bits prefix_len : ℕ)
    (plen : prefix_len ≤ 128) where
  open law use {Inv}

  -- Either there is room below depth `d`, or the node is what one leaf at depth 128 was split into.
  abbrev pub Room : ℕ → Trie → Trie → Type 0
  Room d l r = (d < 128) ⊎ ((d ≡ 128) × ((x : Leaf) × (l ≡ leaf x) × (r ≡ leaf x)))

  Room-lt :
      (d c : ℕ) (l r : Trie) (ns : Nodes) (s : S) (ns' : Nodes) (s' : S)
      → Room d l r
      → (nd : NodeDone law bits prefix_len d c false l r ns s tt ns' s')
      → twins nd.left nd.right ≡ false
      → d < 128
  Room-lt d c l r ns s ns' s' (inl h) nd t = h
  Room-lt d c l r ns s ns' s' (inr (e, (x, p, q))) nd t = absurd (
      cc (
        t,
        twins_of_split law bits prefix_len d false c x nd.left nd.right s s' e plen nd.fits_left
            nd.fits_right
            (subst
              (λ w.
                Changed law bits d (prefix_len - d) (branch false c w (leaf x)) s
                  (branch false c nd.left nd.right) s')
              p
              (subst
                (λ w.
                  Changed law bits d (prefix_len - d) (branch false c l w) s
                    (branch false c nd.left nd.right) s')
                q nd.changed)),
      ))

  -- After the descent: the merge.
  collapse-Returns :
      (d i b c : ℕ) (n : Node) (l r : Trie) (ns : Nodes) (s : S) (ns' : Nodes) (s' : S)
      → get_elem? ns i ≡ some n
      → child n b ≡ node c
      → has i (branch false c l r) ≡ false
      → Room d l r
      → NodeDone law bits prefix_len d c false l r ns s tt ns' s'
      → Returns
          (RecordDone law bits prefix_len d i b n (branch false c l r) ns s)
          (collapse i b c ns' s')
  collapse-Returns d i b c n l r ns s ns' s' hi hb out room nd =
      elim (Bool-cases (twins nd.left nd.right)) [
        | inl t ↦
            subst (Returns (RecordDone law bits prefix_len d i b n (branch false c l r) ns s))
              (sym (same ∙ rw t)) (returns (merged (twins→leaf nd.left nd.right t)))
        | inr t ↦
            subst (Returns (RecordDone law bits prefix_len d i b n (branch false c l r) ns s))
              (sym (same ∙ rw t))
              (returns (record {
                after = branch false c nd.left nd.right;
                moved = mv;
                changed = nd.changed;
                fits = (Room-lt d c l r ns s ns' s' room nd t, nd.fits_left, nd.fits_right);
                link =
                    hi'
                    ∙ ap some (sym (subst (λ q. with_child n b q ≡ n) hb (with_child-child n b)));
              }))
      ]
    where
      mv : Moved i ns (branch false c l r) ns' (branch false c nd.left nd.right)
      mv = Moved-rehole i c false l r (branch false c nd.left nd.right) ns ns' nd.moved

      hi' : get_elem? ns' i ≡ some n
      hi' = nd.moved.frame i (get_elem?-lt ns i n hi) out (ne_of_out i c false l r out) ∙ hi

      same : collapse i b c ns' s' ≡ (
          if twins nd.left nd.right
          then ok tt (set ns' i (with_child n b (root_record nd.left))) s'
          else ok tt ns' s')
      same = collapse-ok i b c n nd.left nd.right ns' s' hi' nd.moved.holds.0

      merged :
          ((x : Leaf) × (nd.left ≡ leaf x) × (nd.right ≡ leaf x))
          → RecordDone law bits prefix_len d i b n
              (branch false c l r)
              ns
              s
              tt
              (set ns' i (with_child n b (root_record nd.left)))
              s'
      merged (x, p, q) = record {
        after = leaf x;
        moved = Moved-trans i mv (
            Moved-write i ns' (branch false c nd.left nd.right)
              (with_child n b (root_record nd.left)) x);
        changed =
            Changed-after law bits d (prefix_len - d) (branch false c nd.left nd.right) (leaf x)
              (λ a. view-branch_twins false c nd.left nd.right x p q a d) nd.changed;
        fits = tt;
        link =
            get_elem?-set_self ns' i _ (get_elem?-lt ns' i n hi')
            ∙ ap (λ w. some (with_child n b (root_record w))) p;
      }

  pub descend :
      (go : ℕ → ℕ → Cmd S (Unit {0})) (d i b c : ℕ) (n : Node) (l r : Trie) (ns : Nodes) (s : S)
      → Inserts law bits prefix_len go d
      → d ≤ 128
      → get_elem? ns i ≡ some n
      → child n b ≡ node c
      → has i (branch false c l r) ≡ false
      → Room d l r
      → Holds ns (branch false c l r)
      → IsDistinct (branch false c l r)
      → Fits (suc d) l
      → Fits (suc d) r
      → Inv s
      → Returns
          (RecordDone law bits prefix_len d i b n (branch false c l r) ns s)
          (and_then (go c d ns s) (λ _. collapse i b c))
  descend go d i b c n l r ns s ins hd hi hb out room h dist fl fr inv =
      bind (ins c false l r ns s hd h dist fl fr inv)
        (λ u ns' s' nd. collapse-Returns d i b c n l r ns s ns' s' hi hb out room nd)
