-- ===== src/Tree/Moved.antt =====
-- How a part of the tree may change under an update: which nodes are written, and that the nodes
-- of the new part are its own.
use mathlib.Core.Path.{subst}
use mmdb_writer.Base.{
  ℕ, ◌≤◌, ◌<◌, ◌≡◌, ◌≢◌, refl, ◌∙◌, Bool, true, false, ◌||◌, some, ◌==◌, length, get_elem?,
  get_elem?-lt, ||-false, false_of_not_true, arith,
}
use mmdb_writer.Tree.Run.{pair, Nodes}
use mmdb_writer.Tree.Trie.{
  Trie, branch, root_record, has, Apart, Holds, IsDistinct, Holds-frame, has-lt,
}

-- The vector goes from `ns` to `ns'` and the part `t` of the tree becomes `t'`. Old nodes outside
-- `t` stay as they are, but for the node `hole` whose record leads to `t`; `t'` has none of them.
pub record Moved (hole : ℕ) (ns : Nodes) (t : Trie) (ns' : Nodes) (t' : Trie) : Type 0 where
  pub holds : Holds ns' t'
  pub distinct : IsDistinct t'
  pub frame :
      (a : ℕ) → a < length ns → has a t ≡ false → a ≢ hole → get_elem? ns' a ≡ get_elem? ns a
  pub fresh : (a : ℕ) → a < length ns → has a t ≡ false → has a t' ≡ false
  pub longer : length ns ≤ length ns'

pub Moved-refl :
    (hole : ℕ) (ns : Nodes) (t : Trie) → Holds ns t → IsDistinct t → Moved hole ns t ns t
Moved-refl hole ns t h d = record {
  holds = h;
  distinct = d;
  frame = λ a lt out ne. refl;
  fresh = λ a lt out. out;
  longer = omega arith;
}

pub Moved-trans :
    (hole : ℕ) {ns ns' ns'' : Nodes} {t t' t'' : Trie}
    → Moved hole ns t ns' t'
    → Moved hole ns' t' ns'' t''
    → Moved hole ns t ns'' t''
Moved-trans hole m n = record {
  holds = n.holds;
  distinct = n.distinct;
  frame = λ a lt out ne.
      n.frame a (omega (arith, m.longer)) (m.fresh a lt out) ne ∙ m.frame a lt out ne;
  fresh = λ a lt out. n.fresh a (omega (arith, m.longer)) (m.fresh a lt out);
  longer = omega (arith, m.longer, n.longer);
}

-- A node of one part is none of the other, nor the node above.
off_other : (a : ℕ) (l r : Trie) → Apart l r → has a r ≡ true → has a l ≡ false
off_other a l r apart m = false_of_not_true (has a l) (λ q. cc (apart a q))

off_root : (a i : ℕ) (t : Trie) → has i t ≡ false → has a t ≡ true → a ≢ i
off_root a i t out m e = cc (subst (λ j. has j t ≡ true) e m)

module _ {ns ns' : Nodes} (f : Bool) (i : ℕ) (l r : Trie) (holds : Holds ns (branch f i l r))
    (distinct : IsDistinct (branch f i l r)) where
  -- The left part of a node changes.
  pub graft_left :
      (l' : Trie)
      → Moved i ns l ns' l'
      → get_elem? ns' i ≡ some (pair (root_record l') (root_record r))
      → Moved i ns (branch f i l r) ns' (branch f i l' r)
  graft_left l' m e = record {
    holds = (
      e,
      m.holds,
      Holds-frame ns ns' r holds.2 (λ a q.
          m.frame a (has-lt ns r a holds.2 q) (off_other a l r distinct.2 q)
            (off_root a i r distinct.1 q)),
    );
    distinct = (
      m.fresh i (get_elem?-lt ns i _ holds.0) distinct.0,
      distinct.1,
      apart',
      m.distinct,
      distinct.4,
    );
    frame = λ a lt out ne. m.frame a lt (parts a out).1 ne;
    fresh = λ a lt out. ground (arith, parts a out, m.fresh a lt (parts a out).1);
    longer = m.longer;
  }
    where
      parts :
          (a : ℕ)
          → has a (branch f i l r) ≡ false
          → ((a == i) ≡ false) × (has a l ≡ false) × (has a r ≡ false)
      parts a out =
          let p = ||-false (a == i) (has a l || has a r) out in
          let q = ||-false (has a l) (has a r) p.1 in (p.0, q.0, q.1)

      apart' : Apart l' r
      apart' a q =
          false_of_not_true (has a r)
            (λ p. cc (m.fresh a (has-lt ns r a holds.2 p) (off_other a l r distinct.2 p)))

  -- The right part changes.
  pub graft_right :
      (r' : Trie)
      → Moved i ns r ns' r'
      → get_elem? ns' i ≡ some (pair (root_record l) (root_record r'))
      → Moved i ns (branch f i l r) ns' (branch f i l r')
  graft_right r' m e = record {
    holds = (
      e,
      Holds-frame ns ns' l holds.1 (λ a q.
          m.frame a (has-lt ns l a holds.1 q) (distinct.2 a q) (off_root a i l distinct.0 q)),
      m.holds,
    );
    distinct = (
      distinct.0,
      m.fresh i (get_elem?-lt ns i _ holds.0) distinct.1,
      λ a q. m.fresh a (has-lt ns l a holds.1 q) (distinct.2 a q),
      distinct.3,
      m.distinct,
    );
    frame = λ a lt out ne. m.frame a lt (parts a out).2 ne;
    fresh = λ a lt out. ground (arith, parts a out, m.fresh a lt (parts a out).2);
    longer = m.longer;
  }
    where
      parts :
          (a : ℕ)
          → has a (branch f i l r) ≡ false
          → ((a == i) ≡ false) × (has a l ≡ false) × (has a r ≡ false)
      parts a out =
          let p = ||-false (a == i) (has a l || has a r) out in
          let q = ||-false (has a l) (has a r) p.1 in (p.0, q.0, q.1)
