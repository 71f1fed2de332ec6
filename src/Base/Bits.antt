-- ===== src/Base/Bits.antt =====
-- Bit operations on a few bits as arithmetic: each law is a table that is checked by evaluation.
use Prim.Native.Nat.{ℕ, zero, suc, ◌<◌, compare, Ordering}
use mathlib.Core.Path.{◌≡◌}
use mathlib.Core.Bool.{Bool, true, false, ◌&&◌}
use native.Mathlib.Omega.{arith}

module _ (f g : ℕ → ℕ) where
  unfoldable pub same_below : ℕ → Bool
  same_below zero = true
  same_below (suc n) = elim (compare (f n) (g n)) [ Ordering.eq ↦ true | _ ↦ false ] && same_below n

  -- Two functions that agree below `n` by evaluation agree there.
  pub by_table : (n : ℕ) → same_below n ≡ true → (i : ℕ) → i < n → f i ≡ g i
  unfolding same_below
  by_table zero e i h = absurd (omega arith)
  by_table (suc n) e i h = ground (arith, by_table n (ground arith) i)
