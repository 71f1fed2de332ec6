-- ===== src/Tree/Marked.antt =====
-- What a marker (src/tree.rs, `install_marker`) means for the addresses: those of its network get
-- it if nothing stands on the way to it or at its place.
use mmdb_writer.Base.{
  ℕ, zero, suc, ◌≡◌, refl, ◌∙◌, Bool, true, false, ◌==◌, if◌then◌else◌, ◌⊎◌, inl, inr, Bool-cases,
  arith,
}
use mmdb_writer.Tree.{bit_at}
use mmdb_writer.Tree.Trie.{Leaf, empty, value, alias_to, blocked, Trie, leaf, branch, view}
use mmdb_writer.Tree.Update.{covers}

-- From depth `d` on and along `m` bits of the network there is nothing: an empty record.
unfoldable pub vacant : ℕ → ℕ → ℕ → Trie → Bool
vacant m d bits (leaf empty) = true
vacant m d bits (leaf (value id)) = false
vacant m d bits (leaf (alias_to i)) = false
vacant m d bits (leaf blocked) = false
vacant zero d bits (branch f i l r) = false
vacant (suc m) d bits (branch f i l r) =
    let left = vacant m (suc d) bits l in
    let right = vacant m (suc d) bits r in if bit_at bits d == 0 then left else right

pub bit_at-cases : (bits d : ℕ) → (bit_at bits d ≡ 0) ⊎ (bit_at bits d ≡ 1)
unfolding bit_at
bit_at-cases bits d = elim (Bool-cases (bit_at bits d == 0)) [
  | inl z ↦ inl (ground arith)
  | inr z ↦ inr (ground arith)
]

module _ (bits : ℕ) (x : Leaf) where
  -- `t` at depth `d`, with `m` bits of the network left, becomes `t'`.
  pub record Marked (d m : ℕ) (t t' : Trie) : Type 0 where
    pub same : (addr : ℕ) → covers m d bits addr ≡ false → view t' addr d ≡ view t addr d
    pub marked :
        (addr : ℕ)
        → covers m d bits addr ≡ true
        → view t' addr d ≡ (if vacant m d bits t then x else view t addr d)

  pub Marked-none : (d m : ℕ) (t : Trie) → vacant m d bits t ≡ false → Marked d m t t
  Marked-none d m t v = record { same = λ a out. refl; marked = λ a in'. rw v refl }

  pub Marked-leaf : (d : ℕ) → Marked d 0 (leaf empty) (leaf x)
  unfolding covers vacant view
  Marked-leaf d = record { same = λ a out. cc; marked = λ a in'. refl }

  -- An empty record is as good as a node of two.
  pub Marked-split :
      (d m : ℕ) (f : Bool) (i : ℕ) (t' : Trie)
      → Marked d (suc m) (branch f i (leaf empty) (leaf empty)) t'
      → Marked d (suc m) (leaf empty) t'
  unfolding vacant view
  Marked-split d m f i t' p = record {
    same = λ a out. elim (Bool-cases (bit_at a d == 0)) [
      | inl z ↦ p.same a out ∙ rw z refl
      | inr z ↦ p.same a out ∙ rw z refl
    ];
    marked = λ a in'. elim (Bool-cases (bit_at bits d == 0)) [
      | inl z ↦ rw z at (p.marked a in')
      | inr z ↦ rw z at (p.marked a in')
    ];
  }

  pub Marked-left :
      (d m : ℕ) (f : Bool) (i : ℕ) (l l' r : Trie)
      → bit_at bits d ≡ 0
      → Marked (suc d) m l l'
      → Marked d (suc m) (branch f i l r) (branch f i l' r)
  unfolding covers view vacant
  Marked-left d m f i l l' r b p = record {
    same = λ a out. elim (Bool-cases (bit_at a d == 0)) [
      | inl z ↦ rw z (p.same a (ground arith))
      | inr z ↦ rw z refl
    ];
    marked = λ a in'. elim (Bool-cases (bit_at a d == 0)) [
      | inl z ↦ rw (z, b) (p.marked a (ground arith))
      | inr z ↦ absurd (ground arith)
    ];
  }

  pub Marked-right :
      (d m : ℕ) (f : Bool) (i : ℕ) (l r r' : Trie)
      → bit_at bits d ≡ 1
      → Marked (suc d) m r r'
      → Marked d (suc m) (branch f i l r) (branch f i l r')
  unfolding covers view vacant bit_at
  Marked-right d m f i l r r' b p = record {
    same = λ a out. elim (Bool-cases (bit_at a d == 0)) [
      | inl z ↦ rw z refl
      | inr z ↦ rw z (p.same a (ground arith))
    ];
    marked = λ a in'. elim (Bool-cases (bit_at a d == 0)) [
      | inl z ↦ absurd (ground arith)
      | inr z ↦ rw (z, b) (p.marked a (ground arith))
    ];
  }
