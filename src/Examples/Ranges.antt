-- ===== src/Examples/Ranges.antt =====
-- The theorems on address ranges at concrete inputs, and runs of the decomposition.
use mmdb_writer.Base.{ℕ, ◌+◌, ◌*◌, ◌^◌, ◌≡◌, true, false, List, [], ◌∷◌, refl, arith}
use mmdb_writer.Net.Range.{
  done, panic, range_to_cidrs, range_loop, shrink, shl_one, add_u128, align_bits, trailing_zeros,
  next_start, max_for_bits,
}
use mmdb_writer.Net.Range.Cover.{Covers}
use mmdb_writer.Net.Range.Whole.{range_to_cidrs-Covers, range_to_cidrs-from_unspecified}

abbrev first_address : ℕ
first_address = 10 * 2 ^ 24 + 1

-- 10.0.0.1 to 10.0.0.6
run_example :
    range_to_cidrs true first_address (first_address + 5) 32
    ≡ done ((167772161, 32) ∷ (167772162, 31) ∷ (167772164, 31) ∷ (167772166, 32) ∷ [])
unfolding range_to_cidrs range_loop shrink shl_one add_u128 align_bits trailing_zeros next_start
    max_for_bits
run_example = refl

range_to_cidrs-Covers_example :
    Covers first_address
      (first_address + 5)
      32
      (range_to_cidrs false first_address (first_address + 5) 32)
range_to_cidrs-Covers_example =
    range_to_cidrs-Covers false first_address (first_address + 5) 32 (omega arith) (omega arith)
      (omega arith) (λ z _. absurd (omega arith))

-- The range of :: to ::5.
range_to_cidrs-from_unspecified_example :
    (range_to_cidrs true 0 5 128 ≡ panic)
    × (rest : List (ℕ × ℕ)) × (range_to_cidrs false 0 5 128 ≡ done ((0, 0) ∷ rest))
range_to_cidrs-from_unspecified_example = range_to_cidrs-from_unspecified 5 (omega arith)
