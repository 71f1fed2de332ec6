-- ===== src/Value.antt =====
-- src/value.rs: the data model. A string is its UTF-8 bytes, a float its bit pattern (equality and
-- hashing go by it), a `BTreeMap` the list of its entries in key order.
pub mod Append
pub mod Equality
pub mod From
pub mod Map
pub mod Merge
pub mod Serde
pub mod Typed
use mmdb_writer.Base.{ℕ, suc, List, [], ◌∷◌, Bool, true, false, ◌&&◌, ◌==◌}

-- `negsuc n` is -(n + 1).
pub data ℤ : Type 0 where
  pos : ℕ → ℤ
  negsuc : ℕ → ℤ

mutual
  pub data Value : Type 0 where
    string : List ℕ → Value
    double : ℕ → Value
    bytes : List ℕ → Value
    u16 : ℕ → Value
    u32 : ℕ → Value
    map : Fields → Value
    i32 : ℤ → Value
    u64 : ℕ → Value
    u128 : ℕ → Value
    array : Items → Value
    bool : Bool → Value
    float : ℕ → Value

  -- `Vec<Value>`
  pub data Items : Type 0 where
    nil : Items
    cons : Value → Items → Items

  -- `BTreeMap<String, Value>`
  pub data Fields : Type 0 where
    end : Fields
    field : List ℕ → Value → Fields → Fields

unfoldable pub bytes_eq : List ℕ → List ℕ → Bool
bytes_eq [] [] = true
bytes_eq (a ∷ as') (b ∷ bs) = a == b && bytes_eq as' bs
bytes_eq _ _ = false

unfoldable pub bool_eq : Bool → Bool → Bool
bool_eq true true = true
bool_eq false false = true
bool_eq _ _ = false

unfoldable pub int_eq : ℤ → ℤ → Bool
int_eq (pos a) (pos b) = a == b
int_eq (negsuc a) (negsuc b) = a == b
int_eq _ _ = false

-- `PartialEq::eq`
unfoldable mutual
  unfolding bytes_eq bool_eq int_eq

  pub value_eq : Value → Value → Bool
  value_eq (string a) (string b) = bytes_eq a b
  value_eq (double a) (double b) = a == b
  value_eq (bytes a) (bytes b) = bytes_eq a b
  value_eq (u16 a) (u16 b) = a == b
  value_eq (u32 a) (u32 b) = a == b
  value_eq (map a) (map b) = fields_eq a b
  value_eq (i32 a) (i32 b) = int_eq a b
  value_eq (u64 a) (u64 b) = a == b
  value_eq (u128 a) (u128 b) = a == b
  value_eq (array a) (array b) = items_eq a b
  value_eq (bool a) (bool b) = bool_eq a b
  value_eq (float a) (float b) = a == b
  value_eq _ _ = false

  pub items_eq : Items → Items → Bool
  items_eq nil nil = true
  items_eq (cons a as') (cons b bs) = value_eq a b && items_eq as' bs
  items_eq _ _ = false

  pub fields_eq : Fields → Fields → Bool
  fields_eq end end = true
  fields_eq (field j v m) (field k w n) = bytes_eq j k && (value_eq v w && fields_eq m n)
  fields_eq _ _ = false

-- `len()`
abbrev pub items_len : Items → ℕ
items_len nil = 0
items_len (cons _ xs) = suc (items_len xs)

abbrev pub fields_len : Fields → ℕ
fields_len end = 0
fields_len (field _ _ m) = suc (fields_len m)
