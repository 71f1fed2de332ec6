-- ===== src/Tree/Update.antt =====
-- What an insertion means for the addresses: those of the network get the closure's answer, the
-- others keep what they have.
use mathlib.Core.Path.{subst}
use mmdb_writer.Base.{
  ℕ, zero, suc, ◌≡◌, refl, sym, ◌∙◌, Bool, true, false, ◌&&◌, Option, none, some, inl, inr, ◌==◌,
  Bool-cases, arith,
}
use mmdb_writer.Tree.{bit_at}
use mmdb_writer.Tree.Trie.{Leaf, empty, value, alias_to, blocked, Trie, leaf, branch, view}

-- `addr` has the bits of the network from depth `d` on, of which `m` are left.
unfoldable pub covers : ℕ → ℕ → ℕ → ℕ → Bool
covers zero d bits addr = true
covers (suc m) d bits addr = bit_at bits d == bit_at addr d && covers m (suc d) bits addr

abbrev pub leaf_of : Option ℕ → Leaf
leaf_of none = empty
leaf_of (some id) = value id

-- What is asked of the closure of an insertion. `Good old new s`: with its state at `s`, `new` is
-- the right answer to `old`. An answer stays right while the closure goes on, and there is only
-- one.
pub record OpLaw {S : Type 0} (op : S → Option ℕ → Option ℕ × S) : Type 1 where
  pub Inv : S → Type 0
  pub Good : Option ℕ → Option ℕ → S → Type 0
  pub functional : (o m n : Option ℕ) (s : S) → Good o m s → Good o n s → m ≡ n
  pub inv : (o : Option ℕ) (s : S) → Inv s → Inv (op s o).1
  pub good : (o : Option ℕ) (s : S) → Inv s → Good o (op s o).0 (op s o).1
  pub keeps : (o : Option ℕ) (s : S) → Inv s → (p n : Option ℕ) → Good p n s → Good p n (op s o).1

module _ {S : Type 0} {op : S → Option ℕ → Option ℕ × S} (law : OpLaw op) where
  open law use {Inv, Good}

  -- The leaf that a covered address has before and after. Aliases and reserved leaves stay.
  abbrev pub Updated : S → Leaf → Leaf → Type 0
  Updated s empty x' = (n : Option ℕ) × (x' ≡ leaf_of n) × Good none n s
  Updated s (value id) x' = (n : Option ℕ) × (x' ≡ leaf_of n) × Good (some id) n s
  Updated s (alias_to i) x' = x' ≡ alias_to i
  Updated s blocked x' = x' ≡ blocked

  pub Updated-keeps :
      (s s' : S)
      → ((o n : Option ℕ) → Good o n s → Good o n s')
      → (x x' : Leaf) → Updated s x x'
      → Updated s' x x'
  Updated-keeps s s' k empty x' (n, e, g) = (n, e, k _ n g)
  Updated-keeps s s' k (value id) x' (n, e, g) = (n, e, k _ n g)
  Updated-keeps s s' k (alias_to i) x' e = e
  Updated-keeps s s' k blocked x' e = e

  module _ (bits : ℕ) where
    -- `t` at depth `d`, with `m` bits of the network left, becomes `t'`.
    pub record Changed (d m : ℕ) (t : Trie) (s : S) (t' : Trie) (s' : S) : Type 0 where
      pub inv : Inv s'
      pub kept : (o n : Option ℕ) → Good o n s → Good o n s'
      pub same : (addr : ℕ) → covers m d bits addr ≡ false → view t' addr d ≡ view t addr d
      pub updated :
          (addr : ℕ) → covers m d bits addr ≡ true → Updated s' (view t addr d) (view t' addr d)

    pub Changed-width :
        (d m m' : ℕ) (t t' : Trie) (s s' : S)
        → m ≡ m'
        → Changed d m t s t' s'
        → Changed d m' t s t' s'
    Changed-width d m m' t t' s s' e c = subst (λ k. Changed d k t s t' s') e c

    -- Only the views of the tries count.
    pub Changed-before :
        (d m : ℕ) (t u : Trie) {t' : Trie} {s s' : S}
        → ((addr : ℕ) → view t addr d ≡ view u addr d)
        → Changed d m t s t' s'
        → Changed d m u s t' s'
    Changed-before d m t u {t'} {s} {s'} same c = record {
      inv = c.inv;
      kept = c.kept;
      same = λ a out. c.same a out ∙ same a;
      updated = λ a in'. subst (λ x. Updated s' x (view t' a d)) (same a) (c.updated a in');
    }

    pub Changed-after :
        (d m : ℕ) {t : Trie} (t' u' : Trie) {s s' : S}
        → ((addr : ℕ) → view t' addr d ≡ view u' addr d)
        → Changed d m t s t' s'
        → Changed d m t s u' s'
    Changed-after d m {t} t' u' {s} {s'} same c = record {
      inv = c.inv;
      kept = c.kept;
      same = λ a out. sym (same a) ∙ c.same a out;
      updated = λ a in'. subst (λ x. Updated s' (view t a d) x) (same a) (c.updated a in');
    }

    -- Below the prefix both parts of a node change, one after the other.
    pub Changed-both :
        (d : ℕ) (f : Bool) (i : ℕ) (l l' r r' : Trie) (s s' s'' : S)
        → Changed (suc d) 0 l s l' s'
        → Changed (suc d) 0 r s' r' s''
        → Changed d 0 (branch f i l r) s (branch f i l' r') s''
    unfolding covers view
    Changed-both d f i l l' r r' s s' s'' p q = record {
      inv = q.inv;
      kept = λ o n g. q.kept o n (p.kept o n g);
      same = λ a out. cc;
      updated = λ a in'. elim (Bool-cases (bit_at a d == 0)) [
        | inl z ↦ rw z (Updated-keeps s' s'' q.kept _ _ (p.updated a refl))
        | inr z ↦ rw z (q.updated a refl)
      ];
    }

    -- Above it only the part changes to which the network's bit leads.
    pub Changed-left :
        (d m : ℕ) (f : Bool) (i : ℕ) (l l' r : Trie) (s s' : S)
        → bit_at bits d ≡ 0
        → Changed (suc d) m l s l' s'
        → Changed d (suc m) (branch f i l r) s (branch f i l' r) s'
    unfolding covers view
    Changed-left d m f i l l' r s s' b p = record {
      inv = p.inv;
      kept = p.kept;
      same = λ a out. elim (Bool-cases (bit_at a d == 0)) [
        | inl z ↦ rw z (p.same a (ground arith))
        | inr z ↦ rw z
      ];
      updated = λ a in'. elim (Bool-cases (bit_at a d == 0)) [
        | inl z ↦ rw z (p.updated a (ground arith))
        | inr z ↦ absurd (ground arith)
      ];
    }

    pub Changed-right :
        (d m : ℕ) (f : Bool) (i : ℕ) (l r r' : Trie) (s s' : S)
        → bit_at bits d ≡ 1
        → Changed (suc d) m r s r' s'
        → Changed d (suc m) (branch f i l r) s (branch f i l r') s'
    unfolding covers view bit_at
    Changed-right d m f i l r r' s s' b p = record {
      inv = p.inv;
      kept = p.kept;
      same = λ a out. elim (Bool-cases (bit_at a d == 0)) [
        | inl z ↦ rw z
        | inr z ↦ rw z (p.same a (ground arith))
      ];
      updated = λ a in'. elim (Bool-cases (bit_at a d == 0)) [
        | inl z ↦ absurd (ground arith)
        | inr z ↦ rw z (p.updated a (ground arith))
      ];
    }

    -- At or past the end of the prefix a leaf gets the closure's answer.
    pub Changed-leaf :
        (d : ℕ) (old : Option ℕ) (s : S)
        → Inv s
        → Changed d 0 (leaf (leaf_of old)) s (leaf (leaf_of (op s old).0)) (op s old).1
    unfolding covers view
    Changed-leaf d old s h = record {
      inv = law.inv old s h;
      kept = law.keeps old s h;
      same = λ a out. cc;
      updated = λ a in'. answer old (law.good old s h);
    }
      where
        answer :
            (o : Option ℕ)
            → Good o (op s old).0 (op s old).1
            → Updated (op s old).1 (leaf_of o) (leaf_of (op s old).0)
        answer none g = (_, refl, g)
        answer (some id) g = (_, refl, g)

    -- Aliases and reserved leaves are passed over.
    pub Changed-none :
        (d m : ℕ) (x : Leaf) (s : S) → Updated s x x → Inv s → Changed d m (leaf x) s (leaf x) s
    unfolding view
    Changed-none d m x s u h = record {
      inv = h;
      kept = λ o n g. g;
      same = λ a out. refl;
      updated = λ a in'. u;
    }

-- A node whose parts are the same leaf looks like that leaf.
pub view_twins :
    (f : Bool) (c : ℕ) (x : Leaf) (addr d : ℕ) → view (branch f c (leaf x) (leaf x)) addr d ≡ x
unfolding view
view_twins f c x addr d = ground arith

pub view-branch_twins :
    (f : Bool) (c : ℕ) (l r : Trie) (x : Leaf)
    → l ≡ leaf x
    → r ≡ leaf x
    → (addr d : ℕ) → view (branch f c l r) addr d ≡ view (leaf x) addr d
unfolding view
view-branch_twins f c l r x p q addr d = rw (p, q) (view_twins f c x addr d)
