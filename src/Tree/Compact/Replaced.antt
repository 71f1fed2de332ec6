-- ===== src/Tree/Compact/Replaced.antt =====
-- How compaction changes a part of the tree: only its own nodes are written, and none is added.
use mathlib.Core.Path.{subst}
use mmdb_writer.Base.{
  ℕ, ◌≡◌, ◌≢◌, refl, ◌∙◌, Bool, true, false, ◌||◌, some, ◌==◌, length, get_elem?, ||-false,
  false_of_not_true, arith,
}
use mmdb_writer.Tree.Run.{pair, Nodes}
use mmdb_writer.Tree.Trie.{
  Leaf, Trie, leaf, branch, root_record, has, Holds, IsDistinct, Holds-frame, ne_of_out,
}

-- The vector goes from `ns` to `ns'` and the part `t` becomes `t'`.
pub record Replaced (ns : Nodes) (t : Trie) (ns' : Nodes) (t' : Trie) : Type 0 where
  pub holds : Holds ns' t'
  pub distinct : IsDistinct t'
  pub frame : (a : ℕ) → has a t ≡ false → get_elem? ns' a ≡ get_elem? ns a
  pub fresh : (a : ℕ) → has a t ≡ false → has a t' ≡ false
  pub same_length : length ns' ≡ length ns

pub Replaced-refl : (ns : Nodes) (t : Trie) → Holds ns t → IsDistinct t → Replaced ns t ns t
Replaced-refl ns t h d = record {
  holds = h;
  distinct = d;
  frame = λ a out. refl;
  fresh = λ a out. out;
  same_length = refl;
}

-- Any part can become a leaf.
pub Replaced-leaf :
    (ns : Nodes) (t : Trie) (ns' : Nodes) (t' : Trie) (x : Leaf)
    → Replaced ns t ns' t'
    → Replaced ns t ns' (leaf x)
Replaced-leaf ns t ns' t' x r = record {
  holds = tt;
  distinct = tt;
  frame = r.frame;
  fresh = λ a out. refl;
  same_length = r.same_length;
}

-- The right part stands while the left one is replaced.
pub right_stands :
    (ns ns1 : Nodes) (f : Bool) (c : ℕ) (l l' r : Trie)
    → Holds ns (branch f c l r)
    → IsDistinct (branch f c l r)
    → Replaced ns l ns1 l'
    → Holds ns1 r
right_stands ns ns1 f c l l' r holds distinct left =
    Holds-frame ns ns1 r holds.2
      (λ a m. left.frame a (false_of_not_true (has a l) (λ q. cc (distinct.2 a q))))

-- The parts of a node are replaced one after the other, and then the node is written.
module _ (ns ns1 ns2 : Nodes) (f : Bool) (c : ℕ) (l l' r r' : Trie)
    (holds : Holds ns (branch f c l r)) (distinct : IsDistinct (branch f c l r))
    (left : Replaced ns l ns1 l') (right : Replaced ns1 r ns2 r') where
  -- The new left part has no node of the old right one.
  off_right : (a : ℕ) → has a l' ≡ true → has a r ≡ false
  off_right a m =
      false_of_not_true (has a r)
        (λ q. cc (left.fresh a (false_of_not_true (has a l) (λ p. cc (distinct.2 a p)))))

  pub node_stands : get_elem? ns2 c ≡ some (pair (root_record l) (root_record r))
  node_stands = right.frame c distinct.1 ∙ left.frame c distinct.0 ∙ holds.0

  -- The node after both writes.
  module _ (ns3 : Nodes) (written : get_elem? ns3 c ≡ some (pair (root_record l') (root_record r')))
      (others : (a : ℕ) → a ≢ c → get_elem? ns3 a ≡ get_elem? ns2 a)
      (len : length ns3 ≡ length ns2) where
    apart_from : (t : Trie) → has c t ≡ false → (a : ℕ) → has a t ≡ true → a ≢ c
    apart_from t out a m e = cc (subst (λ j. has j t ≡ true) e m)

    pub node-Replaced : Replaced ns (branch f c l r) ns3 (branch f c l' r')
    node-Replaced = record {
      holds = (
        written,
        Holds-frame ns1 ns3 l' left.holds (λ a m.
            others a (apart_from l' (left.fresh c distinct.0) a m) ∙ right.frame a (off_right a m)),
        Holds-frame ns2 ns3 r' right.holds
            (λ a m. others a (apart_from r' (right.fresh c distinct.1) a m)),
      );
      distinct = (
        left.fresh c distinct.0,
        right.fresh c distinct.1,
        λ a m. right.fresh a (off_right a m),
        left.distinct,
        right.distinct,
      );
      frame = λ a out.
          others a (ne_of_out a c f l r out)
          ∙ right.frame a (parts a out).1
          ∙ left.frame a (parts a out).0;
      fresh = λ a out. ground (
        arith,
        ||-false (a == c) (has a l || has a r) out,
        left.fresh a (parts a out).0,
        right.fresh a (parts a out).1,
      );
      same_length = len ∙ right.same_length ∙ left.same_length;
    }
      where
        parts : (a : ℕ) → has a (branch f c l r) ≡ false → (has a l ≡ false) × (has a r ≡ false)
        parts a out = ||-false (has a l) (has a r) (||-false (a == c) (has a l || has a r) out).1
