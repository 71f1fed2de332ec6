-- ===== src/DataSection/Frame.antt =====
-- What a reader finds does not change when bytes are added behind the section.
use mmdb_writer.Base.{
  ℕ, ◌+◌, ◌%◌, ◌/◌, ◌≤◌, ◌≡◌, refl, inl, inr, List, [], ◌∷◌, ◌++◌, some, length, drop, arith,
  Option-cases, zero, suc, length-append,
}
use mathlib.Core.List.{append_assoc}
use mmdb_writer.Value.{Value, Items, Fields}
use mmdb_writer.DataSection.Reader.{read_size, with_type, read_extended, read_control, read_pointer}
use mmdb_writer.DataSection.Format.{
  Direct, d_string, d_double, d_bytes, d_u16, d_u32, d_map, d_i32, d_u64, d_u128, d_array, d_bool,
  d_float, Reads, direct, pointer, ReadsItems, no_items, item, ReadsFields, no_fields, entry,
}

read_size-append :
    (n : ℕ) (xs more : List ℕ) (k : ℕ) (ys : List ℕ)
    → read_size n xs ≡ some (k, ys)
    → read_size n (xs ++ more) ≡ some (k, ys ++ more)
unfolding read_size
read_size-append n [] more k ys e = ground arith
read_size-append n (a ∷ []) more k ys e = ground arith
read_size-append n (a ∷ b ∷ []) more k ys e = ground arith
read_size-append n (a ∷ b ∷ c ∷ xs) more k ys e = ground arith

with_type-append :
    (t n : ℕ) (xs more : List ℕ) (t' k : ℕ) (ys : List ℕ)
    → with_type t (read_size n xs) ≡ some (t', k, ys)
    → with_type t (read_size n (xs ++ more)) ≡ some (t', k, ys ++ more)
unfolding with_type
with_type-append t n xs more t' k ys e = elim (Option-cases (read_size n xs)) [
  | inl q ↦ cc (q)
  | inr ((k', ys'), q) ↦ ground (arith, q, read_size-append n xs more k' ys' q)
]

read_extended-append :
    (n : ℕ) (xs more : List ℕ) (t k : ℕ) (ys : List ℕ)
    → read_extended n xs ≡ some (t, k, ys)
    → read_extended n (xs ++ more) ≡ some (t, k, ys ++ more)
unfolding read_extended
read_extended-append n [] more t k ys e = cc
read_extended-append n (a ∷ xs) more t k ys e = with_type-append (7 + a) n xs more t k ys e

read_control-append :
    (xs more : List ℕ) (t k : ℕ) (ys : List ℕ)
    → read_control xs ≡ some (t, k, ys)
    → read_control (xs ++ more) ≡ some (t, k, ys ++ more)
unfolding read_control
read_control-append [] more t k ys e = cc
read_control-append (c ∷ xs) more t k ys e = ground (
  arith,
  read_extended-append (c % 32) xs more t k ys,
  with_type-append (c / 32) (c % 32) xs more t k ys,
)

read_pointer-append :
    (xs more : List ℕ) (k : ℕ) (ys : List ℕ)
    → read_pointer xs ≡ some (k, ys)
    → read_pointer (xs ++ more) ≡ some (k, ys ++ more)
unfolding read_pointer
read_pointer-append [] more k ys e = cc
read_pointer-append (c ∷ []) more k ys e = ground arith
read_pointer-append (c ∷ a ∷ []) more k ys e = ground arith
read_pointer-append (c ∷ a ∷ b ∷ []) more k ys e = ground arith
read_pointer-append (c ∷ a ∷ b ∷ d ∷ []) more k ys e = ground arith
read_pointer-append (c ∷ a ∷ b ∷ d ∷ x ∷ xs) more k ys e = ground arith

pub drop-append : (n : ℕ) (xs ys : List ℕ) → n ≤ length xs → drop n (xs ++ ys) ≡ drop n xs ++ ys
drop-append zero xs ys h = refl
drop-append (suc n) [] ys h = absurd (omega arith)
drop-append (suc n) (x ∷ xs) ys h = drop-append n xs ys (omega arith)

-- As `read_control-append`, for a payload `p`.
payload :
    (xs more : List ℕ) (t k : ℕ) (p ys : List ℕ)
    → read_control xs ≡ some (t, k, p ++ ys)
    → read_control (xs ++ more) ≡ some (t, k, p ++ (ys ++ more))
payload xs more t k p ys e =
    rw (← append_assoc p ys more) (read_control-append xs more t k (p ++ ys) e)

mutual
  Direct-frame :
      {bs xs ys : List ℕ} {v : Value} (more : List ℕ)
      → Direct bs xs v ys
      → Direct (bs ++ more) (xs ++ more) v (ys ++ more)
  Direct-frame {xs} {ys} more (d_string s e) = d_string s (payload xs more _ _ s ys e)
  Direct-frame {xs} {ys} more (d_double x p e l f) = d_double x p (payload xs more _ _ p ys e) l f
  Direct-frame {xs} {ys} more (d_bytes b e) = d_bytes b (payload xs more _ _ b ys e)
  Direct-frame {xs} {ys} more (d_u16 n p e l f) = d_u16 n p (payload xs more _ _ p ys e) l f
  Direct-frame {xs} {ys} more (d_u32 n p e l f) = d_u32 n p (payload xs more _ _ p ys e) l f
  Direct-frame {xs} more (d_map {ys} m e r) =
      d_map m (read_control-append xs more _ _ ys e) (fields_frame more r)
  Direct-frame {xs} {ys} more (d_i32 n p e l f) = d_i32 n p (payload xs more _ _ p ys e) l f
  Direct-frame {xs} {ys} more (d_u64 n p e l f) = d_u64 n p (payload xs more _ _ p ys e) l f
  Direct-frame {xs} {ys} more (d_u128 n p e l f) = d_u128 n p (payload xs more _ _ p ys e) l f
  Direct-frame {xs} more (d_array {ys} items e r) =
      d_array items (read_control-append xs more _ _ ys e) (items_frame more r)
  Direct-frame {xs} {ys} more (d_bool b e) = d_bool b (read_control-append xs more _ _ ys e)
  Direct-frame {xs} {ys} more (d_float x p e l f) = d_float x p (payload xs more _ _ p ys e) l f

  Reads-frame :
      {bs xs ys : List ℕ} {v : Value} (more : List ℕ)
      → Reads bs xs v ys
      → Reads (bs ++ more) (xs ++ more) v (ys ++ more)
  Reads-frame more (direct d) = direct (Direct-frame more d)
  Reads-frame {bs} {xs} {ys} more (pointer {zs} o e h d) =
      pointer {zs = zs ++ more} o (read_pointer-append xs more o ys e)
        (omega (arith, length-append bs more)) (rw (drop-append o bs more h) (Direct-frame more d))

  items_frame :
      {bs xs ys : List ℕ} {v : Items} (more : List ℕ)
      → ReadsItems bs xs v ys
      → ReadsItems (bs ++ more) (xs ++ more) v (ys ++ more)
  items_frame more no_items = no_items
  items_frame more (item r rs) = item (Reads-frame more r) (items_frame more rs)

  fields_frame :
      {bs xs ys : List ℕ} {v : Fields} (more : List ℕ)
      → ReadsFields bs xs v ys
      → ReadsFields (bs ++ more) (xs ++ more) v (ys ++ more)
  fields_frame more no_fields = no_fields
  fields_frame more (entry k r rs) =
      entry (Reads-frame more k) (Reads-frame more r) (fields_frame more rs)

pub Direct-append :
    {bs xs ys : List ℕ} {v : Value} (more : List ℕ)
    → Direct bs xs v ys
    → Direct (bs ++ more) (xs ++ more) v (ys ++ more)
Direct-append more d = Direct-frame more d

pub Reads-append :
    {bs xs ys : List ℕ} {v : Value} (more : List ℕ)
    → Reads bs xs v ys
    → Reads (bs ++ more) (xs ++ more) v (ys ++ more)
Reads-append more d = Reads-frame more d
