-- ===== src/DataSection/Control.antt =====
-- The size field of the control byte, written and read back.
use Prim.Native.Nat.{bit_or}
use mmdb_writer.Base.{
  ◌-◌, ◌∷◌, ℕ, ◌+◌, ◌*◌, ◌%◌, ◌^◌, ◌<◌, ◌≤◌, ◌≡◌, ◌≢◌, refl, List, ◌++◌, some, arith,
}
use mmdb_writer.Base.Bits.{same_below, by_table}
use mmdb_writer.DataSection.Tags.{
  TypeTag, tag_code, ExtendedType, extended_code, extended, pointer, utf8, double, bytes, uint16,
  uint32, map,
}
use mmdb_writer.DataSection.Bytes.{tag_bits, control_bytes}
use mmdb_writer.DataSection.Reader.{read_control}

-- The five low bits and the tag share no bit.
pub or_tag : (t : TypeTag) (x : ℕ) → x < 32 → bit_or (tag_bits t) x ≡ tag_code t * 32 + x
unfolding tag_code same_below
or_tag extended = by_table _ _ 32 refl
or_tag pointer = by_table _ _ 32 refl
or_tag utf8 = by_table _ _ 32 refl
or_tag double = by_table _ _ 32 refl
or_tag bytes = by_table _ _ 32 refl
or_tag uint16 = by_table _ _ 32 refl
or_tag uint32 = by_table _ _ 32 refl
or_tag map = by_table _ _ 32 refl

pub tag_code-le : (t : TypeTag) → tag_code t ≤ 7
unfolding tag_code
tag_code-le extended = omega arith
tag_code-le t = omega arith

tag_code-pos : (t : TypeTag) → t ≢ extended → 0 < tag_code t
unfolding tag_code
tag_code-pos extended h = absurd (h refl)
tag_code-pos t h = omega arith

abbrev pub size_limit : ℕ
size_limit = 65821 + 2 ^ 24

-- For a type that is not extended and a size below 65821 + 2^24 a reader of the control bytes finds
-- the tag and the size that were written, and what follows.
pub read_control-control_bytes :
    (t : TypeTag) (size : ℕ) (rest : List ℕ)
    → t ≢ extended
    → size < size_limit
    → read_control (control_bytes t size ++ rest) ≡ some (tag_code t, size, rest)
unfolding read_control control_bytes
read_control-control_bytes t size rest ne h = ground (
  arith,
  tag_code-le t,
  tag_code-pos t ne,
  or_tag t (size % 256),
  or_tag t 29,
  or_tag t 30,
  or_tag t 31,
)

-- The header of an extended type: a reader finds it if its size fits the control byte.
pub read_control-extended :
    (e : ExtendedType) (size : ℕ) (rest : List ℕ)
    → size < 29
    → read_control (control_bytes extended size ++ (extended_code e ∷ rest))
      ≡ some (7 + extended_code e, size, rest)
unfolding read_control control_bytes tag_code
read_control-extended e size rest h = ground (arith, or_tag extended (size % 256))

-- In the header of an extended type with a size from 29 to 284 the byte of the size stands before
-- the byte of the type, and a reader takes the one for the other: it finds the type number `size -
-- 22` and the size `29 + ext`.
pub read_control-extended_wide :
    (e : ExtendedType) (size : ℕ) (rest : List ℕ)
    → 29 ≤ size
    → size < 285
    → read_control (control_bytes extended size ++ (extended_code e ∷ rest))
      ≡ some (size - 22, 29 + extended_code e, rest)
unfolding read_control control_bytes tag_code
read_control-extended_wide e size rest lo hi = ground (arith, or_tag extended 29)

-- Of two sizes from 65821 on that differ by 2^24 and are below 2^32 the control bytes are the same.
pub control_bytes_wrap :
    (t : TypeTag) (size : ℕ)
    → 65821 ≤ size
    → size + 2 ^ 24 < 2 ^ 32
    → control_bytes t (size + 2 ^ 24) ≡ control_bytes t size
unfolding control_bytes
control_bytes_wrap t size lo hi = ground arith
