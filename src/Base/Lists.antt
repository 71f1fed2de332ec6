-- ===== src/Base/Lists.antt =====
-- Lists measured and indexed by native numbers, under the library's names.
use Prim.Native.Nat.{ℕ, zero, suc, ◌+◌, ◌<◌}
use mathlib.Core.Path.{◌≡◌, refl, ap, subst, ◌∙◌}
use mathlib.Core.Logic.{◌≢◌, ◌⊎◌, inl, inr}
use mathlib.Core.List.{List, [], ◌∷◌, ◌++◌}
use mathlib.Core.Option.{Option, none, some}
use native.Mathlib.Omega.{arith}

module _ {ℓ} {A : Type ℓ} where
  abbrev pub length : List A → ℕ
  length [] = 0
  length (x ∷ xs) = suc (length xs)

  abbrev pub get_elem? : List A → ℕ → Option A
  get_elem? [] i = none
  get_elem? (x ∷ xs) zero = some x
  get_elem? (x ∷ xs) (suc i) = get_elem? xs i

  -- A write out of bounds changes nothing.
  abbrev pub set : List A → ℕ → A → List A
  set [] i v = []
  set (x ∷ xs) zero v = v ∷ xs
  set (x ∷ xs) (suc i) v = x ∷ set xs i v

  abbrev pub drop : ℕ → List A → List A
  drop zero xs = xs
  drop (suc n) [] = []
  drop (suc n) (x ∷ xs) = drop n xs

  abbrev pub All {κ} : (A → Type κ) → List A → Type κ
  All P [] = Unit {κ}
  All P (x ∷ xs) = P x × All P xs

module _ {ℓ} {A : Type ℓ} where
  pub some-injective : {a b : A} → some a ≡ some b → a ≡ b
  some-injective e = cc

  pub length-append : (xs ys : List A) → length (xs ++ ys) ≡ length xs + length ys
  length-append [] ys = omega arith
  length-append (x ∷ xs) ys = omega (arith, length-append xs ys)

  pub length-set : (xs : List A) (i : ℕ) (v : A) → length (set xs i v) ≡ length xs
  length-set [] i v = refl
  length-set (x ∷ xs) zero v = refl
  length-set (x ∷ xs) (suc i) v = ap suc (length-set xs i v)

  -- Writing what stands there changes nothing.
  pub set_same : (xs : List A) (i : ℕ) (v : A) → get_elem? xs i ≡ some v → set xs i v ≡ xs
  set_same [] i v e = refl
  set_same (x ∷ xs) zero v e = cc
  set_same (x ∷ xs) (suc i) v e = ap (λ ys. x ∷ ys) (set_same xs i v e)

  pub get_elem?-set_self :
      (xs : List A) (i : ℕ) (v : A) → i < length xs → get_elem? (set xs i v) i ≡ some v
  get_elem?-set_self [] i v h = elim h [ ]
  get_elem?-set_self (x ∷ xs) zero v h = refl
  get_elem?-set_self (x ∷ xs) (suc i) v h = get_elem?-set_self xs i v (omega arith)

  pub get_elem?-set_ne :
      (xs : List A) (i j : ℕ) (v : A) → i ≢ j → get_elem? (set xs i v) j ≡ get_elem? xs j
  get_elem?-set_ne [] i j v h = refl
  get_elem?-set_ne (x ∷ xs) zero zero v h = absurd (h refl)
  get_elem?-set_ne (x ∷ xs) zero (suc j) v h = refl
  get_elem?-set_ne (x ∷ xs) (suc i) zero v h = refl
  get_elem?-set_ne (x ∷ xs) (suc i) (suc j) v h = get_elem?-set_ne xs i j v (λ e. h (ap suc e))

  pub get_elem?-append_left :
      (xs ys : List A) (i : ℕ) → i < length xs → get_elem? (xs ++ ys) i ≡ get_elem? xs i
  get_elem?-append_left [] ys i h = elim h [ ]
  get_elem?-append_left (x ∷ xs) ys zero h = refl
  get_elem?-append_left (x ∷ xs) ys (suc i) h = get_elem?-append_left xs ys i (omega arith)

  pub get_elem?-append_here :
      (xs : List A) (y : A) → get_elem? (xs ++ (y ∷ [])) (length xs) ≡ some y
  get_elem?-append_here [] y = refl
  get_elem?-append_here (x ∷ xs) y = get_elem?-append_here xs y

  pub get_elem?-lt : (xs : List A) (i : ℕ) (a : A) → get_elem? xs i ≡ some a → i < length xs
  get_elem?-lt [] i a e = cc
  get_elem?-lt (x ∷ xs) zero a e = omega arith
  get_elem?-lt (x ∷ xs) (suc i) a e = omega (arith, get_elem?-lt xs i a e)

  pub get_elem?-some : (xs : List A) (i : ℕ) → i < length xs → (a : A) × (get_elem? xs i ≡ some a)
  get_elem?-some [] i h = absurd (omega arith)
  get_elem?-some (x ∷ xs) zero h = (x, refl)
  get_elem?-some (x ∷ xs) (suc i) h = get_elem?-some xs i (omega arith)

  -- What holds at every index holds of all.
  pub get_elem?-All {κ} :
      (P : A → Type κ) (xs : List A) → ((i : ℕ) (a : A) → get_elem? xs i ≡ some a → P a) → All P xs
  get_elem?-All P [] f = tt
  get_elem?-All P (x ∷ xs) f = (f 0 x refl, get_elem?-All P xs (λ i a e. f (suc i) a e))

  pub All-get_elem? {κ} :
      (P : A → Type κ) (xs : List A) → All P xs → (i : ℕ) (a : A) → get_elem? xs i ≡ some a → P a
  All-get_elem? P [] ps i a e = cc
  All-get_elem? P (x ∷ xs) ps zero a e = subst P (some-injective e) ps.0
  All-get_elem? P (x ∷ xs) ps (suc i) a e = All-get_elem? P xs ps.1 i a e

  pub drop-append_more : (xs ys : List A) (m : ℕ) → drop (length xs + m) (xs ++ ys) ≡ drop m ys
  drop-append_more [] ys m = ap (λ k. drop k ys) (omega arith)
  drop-append_more (x ∷ xs) ys m =
      ap (λ k. drop k (x ∷ (xs ++ ys))) (shift (length xs) m) ∙ drop-append_more xs ys m
    where
      shift : (k m : ℕ) → suc k + m ≡ suc (k + m)
      shift k m = omega arith

  pub get_elem?-append_one :
      (xs : List A) (y : A) (j : ℕ) (a : A)
      → get_elem? (xs ++ (y ∷ [])) j ≡ some a
      → (get_elem? xs j ≡ some a) ⊎ ((j ≡ length xs) × (y ≡ a))
  get_elem?-append_one [] y zero a e = inr (refl, some-injective e)
  get_elem?-append_one [] y (suc j) a e = cc
  get_elem?-append_one (x ∷ xs) y zero a e = inl e
  get_elem?-append_one (x ∷ xs) y (suc j) a e = elim (get_elem?-append_one xs y j a e) [
    | inl old ↦ inl old
    | inr (at, same) ↦ inr (ap suc at, same)
  ]
