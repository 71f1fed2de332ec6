-- ===== src/DataSection/Pointer.antt =====
-- Pointers to earlier offsets, written and read back.
use Prim.Native.Nat.{bit_or}
use mmdb_writer.Base.{
  ◌-◌, ℕ, ◌+◌, ◌*◌, ◌%◌, ◌/◌, ◌^◌, ◌<◌, ◌≡◌, refl, List, ◌++◌, some, arith, length,
}
use mmdb_writer.Base.Bits.{same_below, by_table}
use mmdb_writer.DataSection.Tags.{tag_code, pointer}
use mmdb_writer.DataSection.Bytes.{tag_bits, pointer_encoding, pointer_bytes}
use mmdb_writer.DataSection.Reader.{read_pointer}

-- The bits of the size class and of the value, beside the tag.
or_class0 : (x : ℕ) → x < 8 → bit_or (tag_bits pointer) x ≡ 32 + x
unfolding tag_code same_below
or_class0 = by_table _ _ 8 refl

or_class1 : (x : ℕ) → x < 8 → bit_or (bit_or (tag_bits pointer) (1 * 2 ^ 3)) x ≡ 40 + x
unfolding tag_code same_below
or_class1 = by_table _ _ 8 refl

or_class2 : (x : ℕ) → x < 8 → bit_or (bit_or (tag_bits pointer) (2 * 2 ^ 3)) x ≡ 48 + x
unfolding tag_code same_below
or_class2 = by_table _ _ 8 refl

-- A reader of a pointer finds the offset below 2^32 that was written, and what follows.
pub read_pointer-pointer_encoding :
    (offset : ℕ) (rest : List ℕ)
    → offset < 2 ^ 32
    → read_pointer (pointer_encoding offset ++ rest) ≡ some (offset, rest)
unfolding read_pointer pointer_encoding
read_pointer-pointer_encoding offset rest h = ground (
  arith,
  or_class0 (offset / 256 % 8),
  or_class1 ((offset - 2048) / 65536 % 8),
  or_class2 ((offset - 526336) / 16777216 % 8),
)

-- `pointer_bytes`, by which the encoder decides for a pointer, is the length of the pointer's
-- encoding.
pub length-pointer_encoding : (offset : ℕ) → length (pointer_encoding offset) ≡ pointer_bytes offset
unfolding pointer_encoding pointer_bytes
length-pointer_encoding offset = ground arith
