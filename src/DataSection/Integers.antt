-- ===== src/DataSection/Integers.antt =====
-- Integers without their leading zero bytes, written and read back.
use mmdb_writer.Base.{
  ◌∙◌, Bool-cases, inl, inr, ◌==◌, ℕ, zero, suc, ◌+◌, ◌-◌, ◌*◌, ◌/◌, ◌%◌, ◌^◌, ◌<◌, ◌≤◌, ◌≡◌, refl,
  List, [], ◌∷◌, arith, ap, sym, length, drop,
}
use native.Mathlib.Nat.{
  sub-zero, suc-sub-suc, mod-eq_of_lt, mod-add-div', div-div-eq-div-mul, mul_comm, pow-suc,
  pow-succ',
}
use mmdb_writer.DataSection.Bytes.{
  be_bytes, leading_zeros, encode_uint_trimmed, encode_i32_trimmed, as_u32,
}
use mmdb_writer.DataSection.Reader.{from_be, as_i32}
use mmdb_writer.Value.{ℤ, pos, negsuc}

pub length-be_bytes : (k v : ℕ) → length (be_bytes k v) ≡ k
unfolding be_bytes
length-be_bytes zero v = refl
length-be_bytes (suc k) v = ap suc (length-be_bytes k v)

split_mod : (v m : ℕ) → 0 < m → v % (256 * m) ≡ v / m % 256 * m + v % m
split_mod v m h = omega (
  arith,
  mod-add-div' v m,
  ap (λ (t : ℕ). t * m) (mod-add-div' (v / m) 256),
  mod-add-div' v (256 * m),
  ap (λ (t : ℕ). t * (256 * m)) (div-div-eq-div-mul v m 256),
  ap (λ (t : ℕ). v / t * (256 * m)) (mul_comm m 256),
)

pow256_pos : (k : ℕ) → 0 < 256 ^ k
pow256_pos zero = omega arith
pow256_pos (suc k) = rw (pow-suc 256 k) (omega (arith, pow256_pos k))

from_be-be_bytes_mod : (k v : ℕ) → from_be (be_bytes k v) ≡ v % 256 ^ k
unfolding from_be be_bytes
from_be-be_bytes_mod zero v = omega arith
from_be-be_bytes_mod (suc k) v =
    rw (length-be_bytes, from_be-be_bytes_mod k v, pow-succ')
      (sym (split_mod v (256 ^ k) (pow256_pos k)))

from_be-drop_zeros : (bs : List ℕ) → from_be (drop (leading_zeros bs) bs) ≡ from_be bs
unfolding from_be leading_zeros
from_be-drop_zeros [] = refl
from_be-drop_zeros (b ∷ bs) = ground (arith, from_be-drop_zeros bs)

length-drop_zeros :
    (bs : List ℕ) → length (drop (leading_zeros bs) bs) ≡ length bs - leading_zeros bs
unfolding leading_zeros
length-drop_zeros [] = refl
length-drop_zeros (b ∷ bs) = ground (arith, length-drop_zeros bs)

leading_zeros-drop_zeros : (bs : List ℕ) → leading_zeros (drop (leading_zeros bs) bs) ≡ 0
unfolding leading_zeros
leading_zeros-drop_zeros [] = refl
leading_zeros-drop_zeros (b ∷ bs) = ground (arith, leading_zeros-drop_zeros bs)

drop-be_bytes : (d n v : ℕ) → d ≤ n → drop d (be_bytes n v) ≡ be_bytes (n - d) v
unfolding be_bytes
drop-be_bytes zero n v h = rw sub-zero
drop-be_bytes (suc d) zero v h = absurd (omega arith)
drop-be_bytes (suc d) (suc n) v h = rw suc-sub-suc (drop-be_bytes d n v (omega arith))

double_sub : (m : ℕ) → m ≤ 16 → 16 - (16 - m) ≡ m
double_sub m h = omega arith

-- What is read back from the trimmed bytes, and their shape.
pub record Trimmed (value max_bytes : ℕ) (r : List ℕ × ℕ) : Type 0 where
  pub value_back : from_be r.0 ≡ value
  pub size_is_length : r.1 ≡ length r.0
  pub size-le_max : r.1 ≤ max_bytes
  pub no_leading_zero : leading_zeros r.0 ≡ 0

pub from_be-be_bytes : (k v : ℕ) → v < 256 ^ k → from_be (be_bytes k v) ≡ v
from_be-be_bytes k v h = from_be-be_bytes_mod k v ∙ mod-eq_of_lt h

trim_be :
    (w v : ℕ)
    → v < 256 ^ w
    → let bs : List ℕ = be_bytes w v in
      Trimmed v w (drop (leading_zeros bs) bs, length bs - leading_zeros bs)
trim_be w v h =
    let bs : List ℕ = be_bytes w v in
    record {
      value_back = from_be-drop_zeros bs ∙ from_be-be_bytes w v h;
      size_is_length = sym (length-drop_zeros bs);
      size-le_max = omega (arith, length-be_bytes w v);
      no_leading_zero = leading_zeros-drop_zeros bs;
    }

-- An unsigned integer that fits `max_bytes` bytes, at most 16, is read back from its trimmed bytes,
-- which are at most that many, as many as the size says, and do not begin with a zero.
pub encode_uint_trimmed-Trimmed :
    (value max_bytes : ℕ)
    → max_bytes ≤ 16
    → value < 256 ^ max_bytes
    → Trimmed value max_bytes (encode_uint_trimmed value max_bytes)
unfolding encode_uint_trimmed
encode_uint_trimmed-Trimmed value max_bytes fits h = elim (Bool-cases (value == 0)) [
  | inl e ↦ rw e (record {
    value_back = unfold from_be in ground arith;
    size_is_length = refl;
    size-le_max = omega arith;
    no_leading_zero = unfold leading_zeros in refl;
  })
  | inr e ↦
      rw (e, drop-be_bytes (16 - max_bytes) 16 value (omega arith), double_sub max_bytes fits)
        (trim_be max_bytes value h)
]

-- What an `i32` can hold.
abbrev pub IsI32 : ℤ → Type 0
IsI32 (pos n) = n < 2 ^ 31
IsI32 (negsuc n) = n < 2 ^ 31

pub as_i32-as_u32 : (n : ℤ) → IsI32 n → as_i32 (as_u32 n) ≡ n
unfolding as_i32 as_u32
as_i32-as_u32 (pos n) h = ground arith
as_i32-as_u32 (negsuc n) h = ground arith

as_u32-lt : (n : ℤ) → as_u32 n < 2 ^ 32
unfolding as_u32
as_u32-lt (pos n) = omega arith
as_u32-lt (negsuc n) = omega arith

pub encode_i32_trimmed-Trimmed : (n : ℤ) → Trimmed (as_u32 n) 4 (encode_i32_trimmed n)
unfolding encode_i32_trimmed
encode_i32_trimmed-Trimmed n = encode_uint_trimmed-Trimmed (as_u32 n) 4 (omega arith) (as_u32-lt n)

-- A reader that zero-extends the trimmed bytes of an i32 to four bytes and takes them as signed
-- finds the number.
pub as_i32-encode_i32_trimmed : (n : ℤ) → IsI32 n → as_i32 (from_be (encode_i32_trimmed n).0) ≡ n
as_i32-encode_i32_trimmed n h = rw (encode_i32_trimmed-Trimmed n).value_back (as_i32-as_u32 n h)
