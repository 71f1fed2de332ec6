-- ===== src/Tree/Serialize/Pair.antt =====
-- The two records of a node, written and read back.
use Prim.Native.Nat.{bit_or}
use mathlib.Core.Path.{subst}
use mmdb_writer.Base.{ℕ, ◌+◌, ◌*◌, ◌/◌, ◌%◌, ◌^◌, ◌<◌, ◌≡◌, List, ◌++◌, some, length, refl, arith}
use mmdb_writer.Base.Bits.{same_below, by_table}
use mmdb_writer.RecordSize.{RecordSize, bits24, bits28, bits32, max_value, node_bytes}
use mmdb_writer.Tree.Serialize.{write_record_pair}
use mmdb_writer.Tree.Serialize.Reader.{read_pair}

-- The middle byte of a 28-bit pair: its nibbles share no bit.
middle-low : (x : ℕ) → x < 256 → bit_or (x / 16 * 2 ^ 4 % 256) (x % 16) ≡ x
unfolding same_below
middle-low = by_table _ _ 256 refl

middle : (l r : ℕ) → l < 16 → r < 16 → bit_or (l * 2 ^ 4 % 256) r ≡ l * 16 + r
middle l r hl hr =
    subst (λ a. bit_or (a * 2 ^ 4 % 256) r ≡ l * 16 + r) (high l r hr)
      (subst (λ b. bit_or ((l * 16 + r) / 16 * 2 ^ 4 % 256) b ≡ l * 16 + r) (low l r hr)
        (middle-low (l * 16 + r) (omega arith)))
  where
    high : (l r : ℕ) → r < 16 → (l * 16 + r) / 16 ≡ l
    high l r h = omega arith

    low : (l r : ℕ) → r < 16 → (l * 16 + r) % 16 ≡ r
    low l r h = omega arith

-- Two records below the largest value of their size are read back from the bytes of the pair,
-- whatever follows.
pub read_pair-write_record_pair :
    (size : RecordSize) (left right : ℕ) (rest : List ℕ)
    → left < max_value size
    → right < max_value size
    → read_pair size (write_record_pair left right size ++ rest) ≡ some (left, right)
unfolding read_pair write_record_pair max_value
read_pair-write_record_pair bits24 left right rest hl hr = ground arith
read_pair-write_record_pair bits28 left right rest hl hr =
    ground (arith, middle (left / 2 ^ 24 % 16) (right / 2 ^ 24 % 16))
read_pair-write_record_pair bits32 left right rest hl hr = ground arith

pub length-write_record_pair :
    (size : RecordSize) (left right : ℕ)
    → length (write_record_pair left right size) ≡ node_bytes size
unfolding write_record_pair node_bytes
length-write_record_pair bits24 left right = refl
length-write_record_pair bits28 left right = refl
length-write_record_pair bits32 left right = refl
