-- ===== src/Tree/Leaves.antt =====
-- The leaves of a tree (src/tree.rs) and the addresses that lead to them.
use mathlib.Core.Path.{subst}
use native.Mathlib.Nat.{
  add-mul-div_left, add-mul-mod_self_left, div-eq_of_lt, add-div_right, pow-suc,
}
use mmdb_writer.Base.{ℕ, zero, suc, ◌+◌, ◌*◌, ◌/◌, ◌%◌, ◌^◌, ◌<◌, ◌≡◌, refl, sym, ◌∙◌, ap, arith}
use mmdb_writer.Net.Range.Blocks.{pow_pos}
use mmdb_writer.Tree.{bit_at}
use mmdb_writer.Tree.Trie.{Leaf, Trie, leaf, branch, Fits, view}

abbrev pub AllLeaves : (Leaf → Type 0) → Trie → Type 0
AllLeaves Q (leaf x) = Q x
AllLeaves Q (branch f i l r) = AllLeaves Q l × AllLeaves Q r

bit_at-shift : (k d addr : ℕ) → suc k + d ≡ 128 → bit_at addr d ≡ addr / 2 ^ k % 2
unfolding bit_at
bit_at-shift k d addr e = ap (λ j. addr / 2 ^ j % 2) (omega arith)

bit_low : (k d addr : ℕ) → suc k + d ≡ 128 → addr < 2 ^ k → bit_at addr d ≡ 0
bit_low k d addr e small = bit_at-shift k d addr e ∙ ap (λ x. x % 2) (div-eq_of_lt small)

bit_high : (k d addr : ℕ) → suc k + d ≡ 128 → addr < 2 ^ k → bit_at (addr + 2 ^ k) d ≡ 1
bit_high k d addr e small =
    bit_at-shift k d (addr + 2 ^ k) e
    ∙ ap (λ x. x % 2) (add-div_right addr (pow_pos k) ∙ ap (λ x. x + 1) (div-eq_of_lt small))

-- Bits above do not change a bit.
bit_other : (k d addr q : ℕ) → suc k + d ≡ 128 → bit_at (addr + 2 ^ k * (2 * q)) d ≡ bit_at addr d
bit_other k d addr q e =
    bit_at-shift k d (addr + 2 ^ k * (2 * q)) e
    ∙ ap (λ x. x % 2) (add-mul-div_left addr (2 * q) (pow_pos k))
    ∙ add-mul-mod_self_left (addr / 2 ^ k) 2 q
    ∙ sym (bit_at-shift k d addr e)

double : (k q : ℕ) → 2 ^ suc k * q ≡ 2 ^ k * (2 * q)
double k q = rw (pow-suc 2 k) (omega arith)

-- Nor do they change where the rest of the address leads.
view_other :
    (t : Trie) (k d addr p q : ℕ)
    → k + d ≡ 128
    → Fits d t
    → p ≡ 2 ^ k * q
    → view t (addr + p) d ≡ view t addr d
unfolding view
view_other (leaf x) k d addr p q e fits m = refl
view_other (branch f i l r) zero d addr p q e fits m = absurd (omega (arith, fits.0))
view_other (branch f i l r) (suc k) d addr p q e fits m =
    let low : p ≡ 2 ^ k * (2 * q) = m ∙ double k q in
    let bit : bit_at (addr + p) d ≡ bit_at addr d =
      ap (λ x. bit_at (addr + x) d) low ∙ bit_other k d addr q e in
    rw
      (
        bit,
        view_other l k (suc d) addr p (2 * q) (omega arith) fits.1 low,
        view_other r k (suc d) addr p (2 * q) (omega arith) fits.2 low,
      )
      refl

-- What holds of the leaf of every address holds of every leaf.
pub AllLeaves-view :
    (Q : Leaf → Type 0) (t : Trie) (k d : ℕ)
    → k + d ≡ 128
    → Fits d t
    → ((addr : ℕ) → addr < 2 ^ k → Q (view t addr d))
    → AllLeaves Q t
unfolding view
AllLeaves-view Q (leaf x) k d e fits h = h 0 (pow_pos k)
AllLeaves-view Q (branch f i l r) zero d e fits h = absurd (omega (arith, fits.0))
AllLeaves-view Q (branch f i l r) (suc k) d e fits h = (
  AllLeaves-view Q l k (suc d) (omega arith) fits.1
      (λ addr small. subst Q (goes_left addr small) (h addr (omega (arith, pow-suc 2 k)))),
  AllLeaves-view Q r k (suc d) (omega arith) fits.2 (λ addr small.
      subst Q (goes_right addr small) (h (addr + 2 ^ k) (omega (arith, pow-suc 2 k)))),
)
  where
    goes_left : (addr : ℕ) → addr < 2 ^ k → view (branch f i l r) addr d ≡ view l addr (suc d)
    goes_left addr small = rw (bit_low k d addr e small) refl

    goes_right :
        (addr : ℕ) → addr < 2 ^ k → view (branch f i l r) (addr + 2 ^ k) d ≡ view r addr (suc d)
    goes_right addr small =
        rw (bit_high k d addr e small)
          (view_other r k (suc d) addr (2 ^ k) 1 (omega arith) fits.2 (omega arith))
