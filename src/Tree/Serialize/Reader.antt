-- ===== src/Tree/Serialize/Reader.antt =====
-- A reader of the search tree of an MMDB file, written from the format's description and not from
-- the writer.
use mmdb_writer.Base.{
  ℕ, zero, suc, ◌+◌, ◌-◌, ◌*◌, ◌/◌, ◌%◌, Option, none, some, List, ◌∷◌, ltb, ◌==◌, if◌then◌else◌,
  drop,
}
use mmdb_writer.RecordSize.{RecordSize, bits24, bits28, bits32}
use mmdb_writer.Tree.{bit_at}

abbrev pub of_bytes : ℕ → ℕ → ℕ → ℕ
of_bytes a b c = (a * 256 + b) * 256 + c

-- The two records of the node that the bytes begin with. The middle byte of a 28-bit pair holds the
-- high bits, those of the left record first.
unfoldable pub read_pair : RecordSize → List ℕ → Option (ℕ × ℕ)
read_pair bits24 (a ∷ b ∷ c ∷ d ∷ e ∷ f ∷ rest) = some (of_bytes a b c, of_bytes d e f)
read_pair bits28 (a ∷ b ∷ c ∷ m ∷ d ∷ e ∷ f ∷ rest) =
    some (m / 16 * 16777216 + of_bytes a b c, m % 16 * 16777216 + of_bytes d e f)
read_pair bits32 (a ∷ b ∷ c ∷ d ∷ e ∷ f ∷ g ∷ h ∷ rest) =
    some (of_bytes a b c * 256 + d, of_bytes e f g * 256 + h)
read_pair _ _ = none

abbrev pub width : RecordSize → ℕ
width bits24 = 6
width bits28 = 7
width bits32 = 8

-- A record below the number of nodes is a node, the number itself is no data, and above it, after
-- the separator of 16 bytes, are the offsets in the data section.
unfoldable pub follow : ℕ → (ℕ → Option (Option ℕ)) → ℕ → Option (Option ℕ)
follow count go v =
    let next = go v in
    if ltb v count then next else if v == count then some none else some (some (v - count - 16))

-- The offset of the data of an address; the outer `none` is a node outside the file.
unfoldable pub lookup_loop : RecordSize → List ℕ → ℕ → ℕ → ℕ → ℕ → ℕ → Option (Option ℕ)
lookup_loop size file count addr zero depth i = some none
lookup_loop size file count addr (suc k) depth i =
    elim (read_pair size (drop (i * width size) file)) [
      | none ↦ none
      | some (l, r) ↦
          follow count (lookup_loop size file count addr k (depth + 1))
            (if bit_at addr depth == 0 then l else r)
    ]

unfoldable pub lookup : RecordSize → List ℕ → ℕ → ℕ → ℕ → Option (Option ℕ)
lookup size file count addr depth_limit = lookup_loop size file count addr depth_limit 0 0
