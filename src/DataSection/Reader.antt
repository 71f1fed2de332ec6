-- ===== src/DataSection/Reader.antt =====
-- How a reader takes the data section apart: the MaxMind DB format, section 3.5, written down
-- independently of the encoder. Used only in statements.
use mmdb_writer.Value.{ℤ, pos, negsuc}
use mmdb_writer.Base.{
  ◌-◌, ℕ, zero, suc, ◌+◌, ◌*◌, ◌/◌, ◌%◌, ◌^◌, List, [], ◌∷◌, Option, none, some, ◌==◌, ltb,
  if◌then◌else◌, length,
}

-- A big-endian number.
unfoldable pub from_be : List ℕ → ℕ
from_be [] = 0
from_be (b ∷ bs) = b * 256 ^ length bs + from_be bs

-- The size field: its five bits in the control byte, and up to three bytes more.
unfoldable pub read_size : ℕ → List ℕ → Option (ℕ × List ℕ)
read_size n bs =
    if ltb n 29
    then some (n, bs)
    else (if n == 29 then one bs else (if n == 30 then two bs else three bs))
  where
    one : List ℕ → Option (ℕ × List ℕ)
    one [] = none
    one (a ∷ r) = some (29 + a, r)

    two : List ℕ → Option (ℕ × List ℕ)
    two (a ∷ b ∷ r) = some (285 + (a * 256 + b), r)
    two _ = none

    three : List ℕ → Option (ℕ × List ℕ)
    three (a ∷ b ∷ c ∷ r) = some (65821 + (a * 65536 + b * 256 + c), r)
    three _ = none

unfoldable pub with_type : ℕ → Option (ℕ × List ℕ) → Option (ℕ × ℕ × List ℕ)
with_type t none = none
with_type t (some (n, r)) = some (t, n, r)

-- The byte after the control byte of an extended type.
unfoldable pub read_extended : ℕ → List ℕ → Option (ℕ × ℕ × List ℕ)
unfolding with_type read_size
read_extended n [] = none
read_extended n (e ∷ r) = with_type (7 + e) (read_size n r)

-- Type number, size and what follows. A type of 0 says that the byte after the control byte holds
-- the type number less 7; the bytes of the size come after it.
unfoldable pub read_control : List ℕ → Option (ℕ × ℕ × List ℕ)
unfolding read_size with_type read_extended
read_control [] = none
read_control (c ∷ bs) =
    if c / 32 == 0 then read_extended (c % 32) bs else with_type (c / 32) (read_size (c % 32) bs)

-- A pointer: type 1, two bits for how many bytes follow, three bits of the value.
unfoldable pub read_pointer : List ℕ → Option (ℕ × List ℕ)
read_pointer [] = none
read_pointer (c ∷ bs) = if c / 32 == 1 then by_class (c / 8 % 4) (c % 8) bs else none
  where
    by_class : ℕ → ℕ → List ℕ → Option (ℕ × List ℕ)
    by_class zero v (a ∷ r) = some (v * 256 + a, r)
    by_class (suc zero) v (a ∷ b ∷ r) = some (v * 65536 + a * 256 + b + 2048, r)
    by_class (suc (suc zero)) v (a ∷ b ∷ c' ∷ r) =
        some (v * 16777216 + a * 65536 + b * 256 + c' + 526336, r)
    by_class (suc (suc (suc zero))) v (a ∷ b ∷ c' ∷ d ∷ r) =
        some (a * 16777216 + b * 65536 + c' * 256 + d, r)
    by_class _ v _ = none

-- A 32-bit pattern as a signed number.
unfoldable pub as_i32 : ℕ → ℤ
as_i32 w = if ltb w (2 ^ 31) then pos w else negsuc (2 ^ 32 - 1 - w)
