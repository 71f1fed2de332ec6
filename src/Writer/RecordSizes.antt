-- ===== src/Writer/RecordSizes.antt =====
-- The record size that a build picks.
use mmdb_writer.Base.{ℕ, ◌≤◌, ◌≡◌, refl, sym, Bool, true, false, none, inl, inr, Bool-cases, arith}
use mathlib.Core.Path.{subst}
use mmdb_writer.Tree.{node_count}
use mmdb_writer.RecordSize.{RecordSize, bits24, bits28, bits32, max_value, bits}
use mmdb_writer.Error.{Result, ok, err}
use mmdb_writer.Tree.Run.{Nodes, TreeError, tree_too_large}
use mmdb_writer.Tree.Serialize.{fits_record_size}
use mmdb_writer.Writer.{first_fitting, pick_record_size}

-- The tree and a data section of `data_len` bytes fit the size that is picked and no smaller one;
-- an error means that they fit none.
abbrev pub IsBest : Nodes → ℕ → Result TreeError RecordSize → Type 0
IsBest tree data_len (ok size) =
    (fits_record_size tree size data_len ≡ true)
    × ((other : RecordSize) → fits_record_size tree other data_len ≡ true → bits size ≤ bits other)
IsBest tree data_len (err e) = (other : RecordSize) → fits_record_size tree other data_len ≡ false

-- Without a requested size the smallest one that fits is picked, and there is an error only if the
-- tree and the data fit no size.
pub pick_record_size-IsBest :
    (tree : Nodes) (data_len : ℕ) → IsBest tree data_len (pick_record_size tree data_len none)
unfolding pick_record_size first_fitting bits
pick_record_size-IsBest tree data_len = elim (Bool-cases (fits_record_size tree bits24 data_len)) [
  | inl a ↦ subst (IsBest tree data_len) (sym (picks24 a)) (a, least24)
  | inr a ↦ elim (Bool-cases (fits_record_size tree bits28 data_len)) [
    | inl b ↦ subst (IsBest tree data_len) (sym (picks28 a b)) (b, least28 a)
    | inr b ↦ elim (Bool-cases (fits_record_size tree bits32 data_len)) [
      | inl c ↦ subst (IsBest tree data_len) (sym (picks32 a b c)) (c, least32 a b)
      | inr c ↦ subst (IsBest tree data_len) (sym (fails a b c)) (none_fits a b c)
    ]
  ]
]
  where
    fits : RecordSize → Bool
    fits size = fits_record_size tree size data_len

    picks24 : fits bits24 ≡ true → pick_record_size tree data_len none ≡ ok bits24
    picks24 a = rw (a, pick_record_size) refl

    picks28 :
        fits bits24 ≡ false → fits bits28 ≡ true → pick_record_size tree data_len none ≡ ok bits28
    picks28 a b = rw (a, pick_record_size, b) refl

    picks32 :
        fits bits24 ≡ false
        → fits bits28 ≡ false
        → fits bits32 ≡ true
        → pick_record_size tree data_len none ≡ ok bits32
    picks32 a b c = rw (a, pick_record_size, b, c) refl

    fails :
        fits bits24 ≡ false
        → fits bits28 ≡ false
        → fits bits32 ≡ false
        → pick_record_size tree data_len none
          ≡ err (tree_too_large (node_count tree) (max_value bits32) bits32)
    fails a b c = rw (a, pick_record_size, b, c) refl

    least24 : (other : RecordSize) → fits_record_size tree other data_len ≡ true → 24 ≤ bits other
    least24 bits24 h = omega arith
    least24 bits28 h = omega arith
    least24 bits32 h = omega arith

    least28 :
        fits_record_size tree bits24 data_len ≡ false
        → (other : RecordSize) → fits_record_size tree other data_len ≡ true
        → 28 ≤ bits other
    least28 a bits24 h = cc
    least28 a bits28 h = omega arith
    least28 a bits32 h = omega arith

    least32 :
        fits_record_size tree bits24 data_len ≡ false
        → fits_record_size tree bits28 data_len ≡ false
        → (other : RecordSize) → fits_record_size tree other data_len ≡ true
        → 32 ≤ bits other
    least32 a b bits24 h = cc
    least32 a b bits28 h = cc
    least32 a b bits32 h = omega arith

    none_fits :
        fits_record_size tree bits24 data_len ≡ false
        → fits_record_size tree bits28 data_len ≡ false
        → fits_record_size tree bits32 data_len ≡ false
        → (other : RecordSize) → fits_record_size tree other data_len ≡ false
    none_fits a b c bits24 = a
    none_fits a b c bits28 = b
    none_fits a b c bits32 = c
