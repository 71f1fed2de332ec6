-- ===== src/Value/Typed.antt =====
-- The values that Rust's types can hold (src/value.rs): numbers in range, bytes, and maps whose
-- keys ascend.
use mmdb_writer.Base.{◌^◌, ◌<◌, All}
use mmdb_writer.Value.{
  Value, string, double, bytes, u16, u32, map, i32, u64, u128, array, bool, float, Items, nil, cons,
  Fields, end, field,
}
use mmdb_writer.Value.Map.{IsSorted, insert_field}
use mmdb_writer.Value.Merge.{append_items}
use mmdb_writer.Base.{ℕ, List, Bool-cases, inl, inr}
use mmdb_writer.Value.{bytes_eq}
use mmdb_writer.Value.Map.{bytes_lt}
use mmdb_writer.DataSection.Integers.{IsI32}

abbrev pub AreBytes : List ℕ → Type 0
AreBytes = All (λ b. b < 256)

unfoldable mutual
  pub IsTyped : Value → Type 0
  IsTyped (string s) = AreBytes s
  IsTyped (double x) = x < 2 ^ 64
  IsTyped (bytes b) = AreBytes b
  IsTyped (u16 n) = n < 2 ^ 16
  IsTyped (u32 n) = n < 2 ^ 32
  IsTyped (map m) = IsSorted m × FieldsAreTyped m
  IsTyped (i32 n) = IsI32 n
  IsTyped (u64 n) = n < 2 ^ 64
  IsTyped (u128 n) = n < 2 ^ 128
  IsTyped (array items) = ItemsAreTyped items
  IsTyped (bool b) = Unit {0}
  IsTyped (float x) = x < 2 ^ 32

  pub ItemsAreTyped : Items → Type 0
  ItemsAreTyped nil = Unit {0}
  ItemsAreTyped (cons v items) = IsTyped v × ItemsAreTyped items

  pub FieldsAreTyped : Fields → Type 0
  FieldsAreTyped end = Unit {0}
  FieldsAreTyped (field k v m) = AreBytes k × IsTyped v × FieldsAreTyped m

pub append_items-Typed :
    (xs ys : Items) → ItemsAreTyped xs → ItemsAreTyped ys → ItemsAreTyped (append_items xs ys)
unfolding append_items IsTyped
append_items-Typed nil ys hx hy = hy
append_items-Typed (cons v xs) ys hx hy = (hx.0, append_items-Typed xs ys hx.1 hy)

pub insert_field-Typed :
    (k : List ℕ) (v : Value) (m : Fields)
    → AreBytes k
    → IsTyped v
    → FieldsAreTyped m
    → FieldsAreTyped (insert_field k v m)
unfolding insert_field IsTyped
insert_field-Typed k v end hk hv hm = (hk, hv, tt)
insert_field-Typed k v (field j w m) hk hv hm = elim (Bool-cases (bytes_eq k j)) [
  | inl e ↦ rw e (hm.0, hv, hm.2)
  | inr e ↦ elim (Bool-cases (bytes_lt k j)) [
    | inl l ↦ rw (e, l) (hk, hv, hm)
    | inr l ↦ rw (e, l) (hm.0, hm.1, insert_field-Typed k v m hk hv hm.2)
  ]
]
