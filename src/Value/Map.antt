-- ===== src/Value/Map.antt =====
-- The map of the data model (src/value.rs), a `BTreeMap<String, Value>`: insertion and lookup over
-- the list of its entries in the order of the keys' bytes.
use mmdb_writer.Base.{
  ℕ, ◌≡◌, refl, sym, Bool, true, false, ◌&&◌, ◌||◌, Option, none, some, List, [], ◌∷◌, ltb, ◌==◌,
  if◌then◌else◌, inl, inr, Bool-cases, arith,
}
use mathlib.Core.Path.{subst}
use mmdb_writer.Value.{Value, Fields, end, field, bytes_eq}
use mmdb_writer.Value.Equality.{bytes_eq→eq}

-- The order of strings.
unfoldable pub bytes_lt : List ℕ → List ℕ → Bool
bytes_lt [] [] = false
bytes_lt [] (b ∷ bs) = true
bytes_lt (a ∷ as') [] = false
bytes_lt (a ∷ as') (b ∷ bs) = ltb a b || (a == b && bytes_lt as' bs)

unfoldable pub get_field : List ℕ → Fields → Option Value
get_field k end = none
get_field k (field j v m) = if bytes_eq k j then some v else get_field k m

unfoldable pub insert_field : List ℕ → Value → Fields → Fields
insert_field k v end = field k v end
insert_field k v (field j w m) =
    let rest = insert_field k v m in
    if bytes_eq k j
    then field j v m
    else if bytes_lt k j
    then field k v (field j w m)
    else field j w rest

-- Every key is above `k`.
abbrev pub Above : List ℕ → Fields → Type 0
Above k end = Unit {0}
Above k (field j v m) = (bytes_lt k j ≡ true) × Above k m

-- The keys strictly ascend.
abbrev pub IsSorted : Fields → Type 0
IsSorted end = Unit {0}
IsSorted (field k v m) = Above k m × IsSorted m

pub bytes_lt_irrefl : (k : List ℕ) → bytes_lt k k ≡ false
unfolding bytes_lt
bytes_lt_irrefl [] = refl
bytes_lt_irrefl (a ∷ k) = ground (arith, bytes_lt_irrefl k)

pub bytes_lt_trans :
    (i j k : List ℕ) → bytes_lt i j ≡ true → bytes_lt j k ≡ true → bytes_lt i k ≡ true
unfolding bytes_lt
bytes_lt_trans [] [] k p q = cc
bytes_lt_trans [] (b ∷ j) [] p q = cc
bytes_lt_trans [] (b ∷ j) (c ∷ k) p q = refl
bytes_lt_trans (a ∷ i) [] k p q = cc
bytes_lt_trans (a ∷ i) (b ∷ j) [] p q = cc
bytes_lt_trans (a ∷ i) (b ∷ j) (c ∷ k) p q = ground (arith, bytes_lt_trans i j k)

bytes_lt_total : (j k : List ℕ) → bytes_eq k j ≡ false → bytes_lt k j ≡ false → bytes_lt j k ≡ true
unfolding bytes_lt bytes_eq
bytes_lt_total [] [] p q = cc
bytes_lt_total [] (b ∷ k) p q = refl
bytes_lt_total (a ∷ j) [] p q = cc
bytes_lt_total (a ∷ j) (b ∷ k) p q = ground (arith, bytes_lt_total j k)

Above-trans : (i k : List ℕ) (m : Fields) → bytes_lt i k ≡ true → Above k m → Above i m
Above-trans i k end p a = tt
Above-trans i k (field j v m) p a = (bytes_lt_trans i k j p a.0, Above-trans i k m p a.1)

insert_field-Above :
    (i k : List ℕ) (v : Value) (m : Fields)
    → bytes_lt i k ≡ true
    → Above i m
    → Above i (insert_field k v m)
unfolding insert_field
insert_field-Above i k v end p a = (p, tt)
insert_field-Above i k v (field j w m) p a = elim (Bool-cases (bytes_eq k j)) [
  | inl e ↦ rw e a
  | inr e ↦ elim (Bool-cases (bytes_lt k j)) [
    | inl l ↦ rw (e, l) (p, a)
    | inr l ↦ rw (e, l) (a.0, insert_field-Above i k v m p a.1)
  ]
]

-- Insertion keeps the order.
pub insert_field-IsSorted :
    (k : List ℕ) (v : Value) (m : Fields) → IsSorted m → IsSorted (insert_field k v m)
unfolding insert_field
insert_field-IsSorted k v end s = (tt, tt)
insert_field-IsSorted k v (field j w m) s = elim (Bool-cases (bytes_eq k j)) [
  | inl e ↦ rw e s
  | inr e ↦ elim (Bool-cases (bytes_lt k j)) [
    | inl l ↦ rw (e, l) ((l, Above-trans k j m l s.0), s)
    | inr l ↦
        rw (e, l)
          (insert_field-Above j k v m (bytes_lt_total j k e l) s.0, insert_field-IsSorted k v m s.1)
  ]
]

-- Lookup after an insertion, on any list of entries.
pub get_field-insert_field :
    (j k : List ℕ) (v : Value) (m : Fields)
    → get_field j (insert_field k v m) ≡ (if bytes_eq j k then some v else get_field j m)
unfolding get_field insert_field
get_field-insert_field j k v end = refl
get_field-insert_field j k v (field i w m) = elim (Bool-cases (bytes_eq k i)) [
  | inl e ↦ rw e (
      subst
        (λ x.
          (if bytes_eq j x then some v else get_field j m)
          ≡ (if bytes_eq j k then some v else if bytes_eq j x then some w else get_field j m))
        (bytes_eq→eq k i e) (ground arith))
  | inr e ↦ elim (Bool-cases (bytes_lt k i)) [
    | inl l ↦ rw (e, l) refl
    | inr l ↦
        rw (e, l)
          (rw (get_field-insert_field j k v m) (elim (Bool-cases (bytes_eq j k)) [
            | inl here ↦
                rw (here, subst (λ x. bytes_eq x i ≡ false) (sym (bytes_eq→eq j k here)) e) refl
            | inr other ↦ rw other refl
          ]))
  ]
]

-- What is above every key is none of them.
pub get_field-Above : (k : List ℕ) (m : Fields) → Above k m → get_field k m ≡ none
unfolding get_field
get_field-Above k end a = refl
get_field-Above k (field j v m) a = elim (Bool-cases (bytes_eq k j)) [
  | inl e ↦ cc (bytes_lt_irrefl k, subst (λ x. bytes_lt k x ≡ true) (sym (bytes_eq→eq k j e)) a.0)
  | inr e ↦ rw e (get_field-Above k m a.1)
]
