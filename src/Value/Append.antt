-- ===== src/Value/Append.antt =====
-- The maps and arrays of src/value.rs as they are built by adding entries at the end.
use mmdb_writer.Base.{ℕ, ◌≡◌, refl, ap, List, true, false, inl, inr, Bool-cases}
use mathlib.Core.Path.{subst}
use mmdb_writer.Value.{Value, Items, nil, cons, Fields, end, field, bytes_eq}
use mmdb_writer.Value.Equality.{bytes_eq→eq}
use mmdb_writer.Value.Map.{bytes_lt, insert_field, Above, IsSorted, bytes_lt_irrefl, bytes_lt_trans}
use mmdb_writer.Value.Merge.{append_items}

abbrev pub append_fields : Fields → Fields → Fields
append_fields end n = n
append_fields (field k v m) n = field k v (append_fields m n)

-- Every key is below `k`.
abbrev pub Below : List ℕ → Fields → Type 0
Below k end = Unit {0}
Below k (field j v m) = (bytes_lt j k ≡ true) × Below k m

bytes_eq_of_lt : (j k : List ℕ) → bytes_lt j k ≡ true → bytes_eq k j ≡ false
bytes_eq_of_lt j k l = elim (Bool-cases (bytes_eq k j)) [
  | inl e ↦ cc (bytes_lt_irrefl j, subst (λ x. bytes_lt j x ≡ true) (bytes_eq→eq k j e) l)
  | inr e ↦ e
]

bytes_lt_asym : (j k : List ℕ) → bytes_lt j k ≡ true → bytes_lt k j ≡ false
bytes_lt_asym j k l = elim (Bool-cases (bytes_lt k j)) [
  | inl e ↦ cc (bytes_lt_irrefl j, bytes_lt_trans j k j l e)
  | inr e ↦ e
]

-- A new greatest key goes to the end.
pub insert_field-Below :
    (k : List ℕ) (v : Value) (m : Fields)
    → Below k m
    → insert_field k v m ≡ append_fields m (field k v end)
unfolding insert_field
insert_field-Below k v end b = refl
insert_field-Below k v (field j w m) b =
    rw (bytes_eq_of_lt j k b.0, bytes_lt_asym j k b.0)
      (ap (field j w) (insert_field-Below k v m b.1))

pub append_fields-more :
    (m : Fields) (k : List ℕ) (v : Value) (n : Fields)
    → append_fields (append_fields m (field k v end)) n ≡ append_fields m (field k v n)
append_fields-more end k v n = refl
append_fields-more (field j w m) k v n = ap (field j w) (append_fields-more m k v n)

Above-append :
    (i : List ℕ) (m : Fields) (k : List ℕ) (v : Value) (n : Fields)
    → Above i (append_fields m (field k v n))
    → bytes_lt i k ≡ true
Above-append i end k v n a = a.0
Above-append i (field j w m) k v n a = Above-append i m k v n a.1

pub IsSorted-Below :
    (m : Fields) (k : List ℕ) (v : Value) (n : Fields)
    → IsSorted (append_fields m (field k v n))
    → Below k m
IsSorted-Below end k v n s = tt
IsSorted-Below (field j w m) k v n s = (Above-append j m k v n s.0, IsSorted-Below m k v n s.1)

pub append_items-more :
    (xs : Items) (v : Value) (ys : Items)
    → append_items (append_items xs (cons v nil)) ys ≡ append_items xs (cons v ys)
unfolding append_items
append_items-more nil v ys = refl
append_items-more (cons x xs) v ys = ap (cons x) (append_items-more xs v ys)
