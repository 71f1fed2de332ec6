-- ===== src/DataSection/Bytes.antt =====
-- src/data_section.rs: the byte encodings of sizes, pointers and integers, each as the list of
-- bytes that it pushes. A byte is a number below 256. A cast `as u8` is `% 256`,
-- `x & (2^k - 1)` is `x % 2^k`, `x >> k` is `x / 2^k`.
use Prim.Native.Nat.{bit_or}
use mmdb_writer.Base.{
  ℕ, zero, suc, ◌+◌, ◌-◌, ◌*◌, ◌/◌, ◌%◌, ◌^◌, min, List, [], ◌∷◌, ◌==◌, ltb, if◌then◌else◌, length,
  drop,
}
use mmdb_writer.Value.{ℤ, pos, negsuc}
use mmdb_writer.DataSection.Tags.{TypeTag, tag_code, pointer}

-- `try_from(v).unwrap_or(u32::MAX)`; the debug assertion is not modelled.
unfoldable pub u32_from_usize : ℕ → ℕ
u32_from_usize v = min v (2 ^ 32 - 1)

unfoldable pub u32_len : List ℕ → ℕ
unfolding u32_from_usize
u32_len v = u32_from_usize (length v)

-- `to_be_bytes` of a `k`-byte integer.
unfoldable pub be_bytes : ℕ → ℕ → List ℕ
be_bytes zero v = []
be_bytes (suc k) v = (v / 256 ^ k % 256) ∷ be_bytes k v

unfoldable pub leading_zeros : List ℕ → ℕ
leading_zeros [] = 0
leading_zeros (b ∷ bs) = if b == 0 then suc (leading_zeros bs) else 0

-- The bytes that are appended to `buf`, and how many they are.
unfoldable pub encode_uint_trimmed : ℕ → ℕ → List ℕ × ℕ
unfolding be_bytes leading_zeros
encode_uint_trimmed value max_bytes =
    if value == 0
    then ([], 0)
    else (let slice : List ℕ = drop (16 - max_bytes) (be_bytes 16 value) in
        (drop (leading_zeros slice) slice, length slice - leading_zeros slice))

-- `value as u32`
unfoldable pub as_u32 : ℤ → ℕ
as_u32 (pos n) = n % 2 ^ 32
as_u32 (negsuc n) = 2 ^ 32 - 1 - n % 2 ^ 32

unfoldable pub encode_i32_trimmed : ℤ → List ℕ × ℕ
unfolding encode_uint_trimmed as_u32
encode_i32_trimmed value = encode_uint_trimmed (as_u32 value) 4

unfoldable pub pointer_bytes : ℕ → ℕ
pointer_bytes offset =
    if ltb offset 2048
    then 2
    else if ltb offset 526336
    then 3
    else if ltb offset 134744064
    then 4
    else 5

abbrev pub tag_bits : TypeTag → ℕ
unfolding tag_code
tag_bits tag = tag_code tag * 32 % 256

-- The bytes that `write_control_byte` pushes.
unfoldable pub control_bytes : TypeTag → ℕ → List ℕ
unfolding tag_code u32_from_usize be_bytes
control_bytes tag size =
    if ltb size 29
    then bit_or (tag_bits tag) (size % 256) ∷ []
    else if ltb size (29 + 256)
    then bit_or (tag_bits tag) 0x1d ∷ ((size - 29) % 256) ∷ []
    else if ltb size (285 + 65536)
    then bit_or (tag_bits tag) 0x1e ∷ be_bytes 2 ((size - 285) % 2 ^ 16)
    else bit_or (tag_bits tag) 31 ∷ drop 1 (be_bytes 4 (u32_from_usize (size - 65821)))

-- The bytes that `write_pointer` pushes.
unfoldable pub pointer_encoding : ℕ → List ℕ
unfolding tag_code be_bytes
pointer_encoding addr =
    if ltb addr 2048
    then bit_or (tag_bits pointer) (addr / 2 ^ 8 % 2 ^ 3) ∷ (addr % 2 ^ 8) ∷ []
    else if ltb addr 526336
    then (let biased = addr - 2048 in
        bit_or (bit_or (tag_bits pointer) (1 * 2 ^ 3)) (biased / 2 ^ 16 % 2 ^ 3)
        ∷ (biased / 2 ^ 8 % 2 ^ 8)
        ∷ (biased % 2 ^ 8)
        ∷ [])
    else if ltb addr 134744064
    then (let biased = addr - 526336 in
        bit_or (bit_or (tag_bits pointer) (2 * 2 ^ 3)) (biased / 2 ^ 24 % 2 ^ 3)
        ∷ (biased / 2 ^ 16 % 2 ^ 8)
        ∷ (biased / 2 ^ 8 % 2 ^ 8)
        ∷ (biased % 2 ^ 8)
        ∷ [])
    else bit_or (tag_bits pointer) (3 * 2 ^ 3) ∷ be_bytes 4 (addr % 2 ^ 32)
