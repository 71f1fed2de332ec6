-- ===== src/Net/Range.antt =====
-- src/net.rs: the decomposition of an address range into networks, `(base, prefix_len)` pairs. The
-- Boolean `checked` is the build profile: with overflow checks a shift by 128 and a sum past 2^128
-- panic, without them the shift amount and the sum wrap.
pub mod Blocks
pub mod Cover
pub mod Whole
use mmdb_writer.Base.{
  ℕ, zero, suc, ◌+◌, ◌-◌, ◌/◌, ◌%◌, ◌^◌, min, Bool, ◌&&◌, Option, none, some, List, [], ◌∷◌, ltb,
  leb, ◌==◌, if◌then◌else◌,
}

-- `panic` is that of a checked build or of an `expect`; `out_of_fuel` is no end of the program.
pub data Checked (A : Type 0) : Type 0 where
  done : A → Checked A
  panic out_of_fuel : Checked A

infixl 5 ◌>>=◌
abbrev pub ◌>>=◌ : {A B : Type 0} → Checked A → (A → Checked B) → Checked B
done a >>= k = k a
panic >>= k = panic
out_of_fuel >>= k = out_of_fuel

-- `1u128 << size`
unfoldable pub shl_one : Bool → ℕ → Checked ℕ
shl_one checked size =
    if ltb size 128 then done (2 ^ size) else if checked then panic else done (2 ^ (size % 128))

-- `a + b` on u128
unfoldable pub add_u128 : Bool → ℕ → ℕ → Checked ℕ
add_u128 checked a b =
    if ltb (a + b) (2 ^ 128)
    then done (a + b)
    else if checked
    then panic
    else done ((a + b) % 2 ^ 128)

-- `trailing_zeros` of a word of `k` bits.
unfoldable pub trailing_zeros : ℕ → ℕ → ℕ
trailing_zeros zero v = 0
trailing_zeros (suc k) v = let rest = trailing_zeros k (v / 2) in if v % 2 == 0 then suc rest else 0

unfoldable pub align_bits : ℕ → ℕ → ℕ
align_bits start total_bits =
    if start == 0 then total_bits else min (trailing_zeros 128 start) total_bits

-- The inner loop, which lowers `size`.
unfoldable pub shrink : Bool → ℕ → ℕ → ℕ → Checked ℕ
shrink checked start end zero = done 0
shrink checked start end (suc size) =
    let rest = shrink checked start end size in
    (do
      block ← shl_one checked (suc size)
      block_end ← add_u128 checked start (block - 1)
      if leb block_end end then done (suc size) else rest)

-- `start.checked_add(block)` with the guard of its match.
unfoldable pub next_start : ℕ → ℕ → ℕ → Option ℕ
next_start start block end =
    if ltb (start + block) (2 ^ 128) && leb (start + block) end then some (start + block) else none

-- The outer loop, from `start` on: what it pushes.
unfoldable pub range_loop : Bool → ℕ → ℕ → ℕ → ℕ → Checked (List (ℕ × ℕ))
range_loop checked zero start end total_bits = out_of_fuel
range_loop checked (suc fuel) start end total_bits = do
  size ← shrink checked start end (align_bits start total_bits)
  block ← shl_one checked size
  let prefix_len = (total_bits - size) % 256
  elim (next_start start block end) [
    | some next ↦ (do
      cidrs ← range_loop checked fuel next end total_bits
      done ((start, prefix_len) ∷ cidrs))
    | none ↦ done ((start, prefix_len) ∷ [])
  ]

unfoldable pub max_for_bits : ℕ → ℕ
max_for_bits total_bits = if leb 128 total_bits then 2 ^ 128 - 1 else 2 ^ total_bits - 1

-- Each round raises `start`.
unfoldable pub range_to_cidrs : Bool → ℕ → ℕ → ℕ → Checked (List (ℕ × ℕ))
range_to_cidrs checked start end total_bits =
    if start == 0 && end == max_for_bits total_bits
    then done ((0, 0) ∷ [])
    else range_loop checked (suc (end - start)) start end total_bits
