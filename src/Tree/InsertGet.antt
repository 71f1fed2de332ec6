-- ===== src/Tree/InsertGet.antt =====
-- What `get` finds after an `insert` whose closure keeps no state.
use mathlib.Core.Path.{subst}
use mmdb_writer.Base.{
  some-injective, ℕ, ◌^◌, ◌≤◌, ◌<◌, ◌≡◌, ◌≢◌, refl, sym, ◌∙◌, ap, Option, none, some, inl, inr,
  Bool-cases,
}
use mmdb_writer.Tree.Run.{Nodes}
use mmdb_writer.Tree.{insert, get}
use mmdb_writer.Tree.Trie.{Leaf, empty, value, alias_to, blocked, view}
use mmdb_writer.Tree.Update.{covers, leaf_of, OpLaw, Updated}
use mmdb_writer.Tree.Returns.{Returns, mono}
use mmdb_writer.Tree.Insert.{IsTree, trie, insert-Returns}
use mmdb_writer.Tree.Prefix.{prefix, covers_iff}
use mmdb_writer.Tree.Get.{leaf_id, IsPlain, get-view}

-- No reserved leaf and no alias.
abbrev pub IsOpen : Leaf → Type 0
IsOpen (alias_to i) = ⊥
IsOpen blocked = ⊥
IsOpen _ = Unit {0}

pub IsOpen-Plain : (x : Leaf) → IsOpen x → IsPlain x
IsOpen-Plain empty o = tt
IsOpen-Plain (value id) o = tt
IsOpen-Plain (alias_to i) o = o
IsOpen-Plain blocked o = tt

module _ (f : Option ℕ → Option ℕ) where
  abbrev pub pure_op : Unit {0} → Option ℕ → Option ℕ × Unit {0}
  pure_op s old = (f old, s)

  unfoldable pub pure_law : OpLaw pure_op
  pure_law = record {
    Inv = λ s. Unit {0};
    Good = λ o n s. n ≡ f o;
    functional = λ o m n s p q. p ∙ sym q;
    inv = λ o s h. tt;
    good = λ o s h. refl;
    keeps = λ o s h p n g. g;
  }

  leaf_of-IsOpen : (n : Option ℕ) → IsOpen (leaf_of n)
  leaf_of-IsOpen none = tt
  leaf_of-IsOpen (some id) = tt

  leaf_id-leaf_of : (n : Option ℕ) → leaf_id (leaf_of n) ≡ n
  leaf_id-leaf_of none = refl
  leaf_id-leaf_of (some id) = refl

  -- An open leaf is updated to another, with the function's answer.
  IsOpen-leaf :
      (x x' : Leaf)
      → IsOpen x
      → Updated pure_law tt x x'
      → IsPlain x × IsOpen x' × (leaf_id x' ≡ f (leaf_id x))
  unfolding pure_law
  IsOpen-leaf empty x' o (n, e, g) =
      (tt, subst IsOpen (sym e) (leaf_of-IsOpen n), ap leaf_id e ∙ leaf_id-leaf_of n ∙ g)
  IsOpen-leaf (value id) x' o (n, e, g) =
      (tt, subst IsOpen (sym e) (leaf_of-IsOpen n), ap leaf_id e ∙ leaf_id-leaf_of n ∙ g)
  IsOpen-leaf (alias_to i) x' o u = absurd o
  IsOpen-leaf blocked x' o u = absurd o

  -- What lookups find in the nodes `ns'` that stood as `ns` before the insertion.
  pub record Answers (bits prefix_len : ℕ) (ns : Nodes) (w : IsTree ns) (u : Unit {0}) (ns' : Nodes)
      (s' : Unit {0}) : Type 0 where
    pub tree : IsTree ns'
    pub inside :
        (addr : ℕ)
        → addr < 2 ^ 128
        → prefix bits prefix_len ≡ prefix addr prefix_len
        → IsOpen (view (trie w) addr 0)
        → (old : Option ℕ) → get ns addr 128 ≡ some old
        → get ns' addr 128 ≡ some (f old)
    pub opened : (addr : ℕ) → IsOpen (view (trie w) addr 0) → IsOpen (view (trie tree) addr 0)
    pub outside :
        (addr : ℕ)
        → addr < 2 ^ 128
        → prefix bits prefix_len ≢ prefix addr prefix_len
        → IsPlain (view (trie w) addr 0)
        → get ns' addr 128 ≡ get ns addr 128

  -- `insert` with a closure that computes `f` of the old value: it ends without a panic and within
  -- its fuel and fails only for want of node indices, and afterwards every address with the
  -- network's first `prefix_len` bits that is neither reserved nor aliased finds `f` of what it
  -- found before, and every other address that is not aliased finds what it found before.
  pub insert-get :
      (bits prefix_len : ℕ) (ns : Nodes) (w : IsTree ns)
      → prefix_len ≤ 128
      → bits < 2 ^ 128
      → Returns (Answers bits prefix_len ns w) (insert bits prefix_len pure_op ns tt)
  unfolding pure_law
  insert-get bits prefix_len ns w plen hb =
      mono (insert-Returns pure_law bits prefix_len ns tt w plen tt) (λ u ns' s' c. record {
        tree = c.tree;
        inside = λ addr ha e op old found.
            let covered = (covers_iff prefix_len bits addr plen hb ha).1 e in
            let (p, p', answer) =
              IsOpen-leaf (view (trie w) addr 0) (view (trie c.tree) addr 0) op
                (c.changed.updated addr covered) in
            get-view ns' c.tree addr (IsOpen-Plain _ p')
            ∙ ap some (answer ∙ ap f (some-injective (sym (get-view ns w addr p) ∙ found)));
        opened = λ addr o. elim (Bool-cases (covers prefix_len 0 bits addr)) [
          | inl t ↦ (IsOpen-leaf _ _ o (c.changed.updated addr t)).1
          | inr t ↦ subst IsOpen (sym (c.changed.same addr t)) o
        ];
        outside = λ addr ha ne p. elim (Bool-cases (covers prefix_len 0 bits addr)) [
          | inl t ↦ absurd (ne ((covers_iff prefix_len bits addr plen hb ha).0 t))
          | inr t ↦
              get-view ns' c.tree addr (subst IsPlain (sym (c.changed.same addr t)) p)
              ∙ ap (λ x. some (leaf_id x)) (c.changed.same addr t)
              ∙ sym (get-view ns w addr p)
        ];
      })
