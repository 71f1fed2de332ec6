-- ===== src/Value/Equality.antt =====
-- `PartialEq` of values is equality: what the deduplication tables rest on.
use mathlib.Core.Path.{subst}
use mmdb_writer.Base.{ℕ, List, [], ◌∷◌, Bool, true, false, ◌≡◌, ◌↔◌, refl, ap, arith}
use mmdb_writer.Value.{
  ℤ, pos, negsuc, Value, string, double, bytes, u16, u32, map, i32, u64, u128, array, bool, float,
  Items, nil, cons, Fields, end, field, bytes_eq, bool_eq, int_eq, value_eq, items_eq, fields_eq,
}

pub bytes_eq→eq : (a b : List ℕ) → bytes_eq a b ≡ true → a ≡ b
unfolding bytes_eq
bytes_eq→eq [] [] h = refl
bytes_eq→eq (x ∷ a) (y ∷ b) h = ground (arith, bytes_eq→eq a b)
bytes_eq→eq _ _ h = cc

bytes_eq_refl : (a : List ℕ) → bytes_eq a a ≡ true
unfolding bytes_eq
bytes_eq_refl [] = refl
bytes_eq_refl (x ∷ a) = ground (arith, bytes_eq_refl a)

int_eq→eq : (a b : ℤ) → int_eq a b ≡ true → a ≡ b
unfolding int_eq
int_eq→eq (pos a) (pos b) h = ground arith
int_eq→eq (negsuc a) (negsuc b) h = ground arith
int_eq→eq _ _ h = cc

bool_eq→eq : (a b : Bool) → bool_eq a b ≡ true → a ≡ b
unfolding bool_eq
bool_eq→eq true true h = refl
bool_eq→eq false false h = refl
bool_eq→eq _ _ h = cc

mutual
  unfolding value_eq

  eq_value : (a b : Value) → value_eq a b ≡ true → a ≡ b
  eq_value (string a) (string b) h = ap string (bytes_eq→eq a b h)
  eq_value (double a) (double b) h = ground arith
  eq_value (bytes a) (bytes b) h = ap bytes (bytes_eq→eq a b h)
  eq_value (u16 a) (u16 b) h = ground arith
  eq_value (u32 a) (u32 b) h = ground arith
  eq_value (map a) (map b) h = ap map (eq_fields a b h)
  eq_value (i32 a) (i32 b) h = ap i32 (int_eq→eq a b h)
  eq_value (u64 a) (u64 b) h = ground arith
  eq_value (u128 a) (u128 b) h = ground arith
  eq_value (array a) (array b) h = ap array (eq_items a b h)
  eq_value (bool a) (bool b) h = ap bool (bool_eq→eq a b h)
  eq_value (float a) (float b) h = ground arith
  eq_value _ _ h = cc

  eq_items : (a b : Items) → items_eq a b ≡ true → a ≡ b
  eq_items nil nil h = refl
  eq_items (cons a as') (cons b bs) h = ground (arith, eq_value a b, eq_items as' bs)
  eq_items _ _ h = cc

  eq_fields : (a b : Fields) → fields_eq a b ≡ true → a ≡ b
  eq_fields end end h = refl
  eq_fields (field j v m) (field k w n) h =
      ground (arith, bytes_eq→eq j k, eq_value v w, eq_fields m n)
  eq_fields _ _ h = cc

pub value_eq→eq : (a b : Value) → value_eq a b ≡ true → a ≡ b
value_eq→eq a b h = eq_value a b h

int_eq_refl : (n : ℤ) → int_eq n n ≡ true
unfolding int_eq
int_eq_refl (pos n) = ground arith
int_eq_refl (negsuc n) = ground arith

bool_eq_refl : (b : Bool) → bool_eq b b ≡ true
unfolding bool_eq
bool_eq_refl true = refl
bool_eq_refl false = refl

mutual
  unfolding value_eq

  refl_value : (a : Value) → value_eq a a ≡ true
  refl_value (string a) = bytes_eq_refl a
  refl_value (double a) = ground arith
  refl_value (bytes a) = bytes_eq_refl a
  refl_value (u16 a) = ground arith
  refl_value (u32 a) = ground arith
  refl_value (map a) = refl_fields a
  refl_value (i32 n) = int_eq_refl n
  refl_value (u64 a) = ground arith
  refl_value (u128 a) = ground arith
  refl_value (array a) = refl_items a
  refl_value (bool b) = bool_eq_refl b
  refl_value (float a) = ground arith

  refl_items : (a : Items) → items_eq a a ≡ true
  refl_items nil = refl
  refl_items (cons a as') = ground (arith, refl_value a, refl_items as')

  refl_fields : (a : Fields) → fields_eq a a ≡ true
  refl_fields end = refl
  refl_fields (field j v m) = ground (arith, bytes_eq_refl j, refl_value v, refl_fields m)

pub value_eq_refl : (a : Value) → value_eq a a ≡ true
value_eq_refl a = refl_value a

-- `==` on values is true exactly on equal values, so the deduplication tables confuse no two of
-- them.
pub value_eq_iff : (a b : Value) → (value_eq a b ≡ true) ↔ (a ≡ b)
value_eq_iff a b = (value_eq→eq a b, λ e. subst (λ c. value_eq a c ≡ true) e (value_eq_refl a))
