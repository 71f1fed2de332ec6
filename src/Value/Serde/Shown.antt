-- ===== src/Value/Serde/Shown.antt =====
-- src/value/serde_impls.rs: the visitor rebuilds the value that a deserializer shows it.
use mmdb_writer.Base.{◌≡◌, refl, sym, ap, ◌∙◌, arith}
use mathlib.Core.Path.{subst}
use mmdb_writer.Error.{ok}
use mmdb_writer.Value.{ℤ, pos, negsuc, Value, Items, nil, cons, Fields, end, field}
use mmdb_writer.Value.Map.{IsSorted, insert_field}
use mmdb_writer.Value.Merge.{append_items}
use mmdb_writer.Value.Append.{append_fields, append_items-more}
use mmdb_writer.Value.Typed.{IsTyped, ItemsAreTyped, FieldsAreTyped}
use mmdb_writer.DataSection.Integers.{IsI32}
use mmdb_writer.Value.Serde.{
  Visit, SeqAccess, seq_end, next_element, MapAccess, map_end, next_entry, visit, visit_seq,
  visit_map, try_i32,
}
use mmdb_writer.Value.Serde.RoundTrip.{insert_field-append, append_items-nil, append_fields-end}

-- A deserializer may show a number by any method whose type holds it and whose MMDB type is the
-- same, a signed number also as an i64; it shows items and entries in their order.
unfoldable mutual
  pub Shows : Value → Visit → Type 0
  Shows (Value.string s) (Visit.str t) = s ≡ t
  Shows (Value.string s) (Visit.string t) = s ≡ t
  Shows (Value.double d) (Visit.f64 e) = d ≡ e
  Shows (Value.bytes b) (Visit.bytes c) = b ≡ c
  Shows (Value.bytes b) (Visit.byte_buf c) = b ≡ c
  Shows (Value.u16 n) (Visit.u8 m) = n ≡ m
  Shows (Value.u16 n) (Visit.u16 m) = n ≡ m
  Shows (Value.u32 n) (Visit.u32 m) = n ≡ m
  Shows (Value.i32 n) (Visit.i8 m) = n ≡ m
  Shows (Value.i32 n) (Visit.i16 m) = n ≡ m
  Shows (Value.i32 n) (Visit.i32 m) = n ≡ m
  Shows (Value.i32 n) (Visit.i64 m) = n ≡ m
  Shows (Value.u64 n) (Visit.u64 m) = n ≡ m
  Shows (Value.u128 n) (Visit.u128 m) = n ≡ m
  Shows (Value.bool b) (Visit.bool c) = b ≡ c
  Shows (Value.float f) (Visit.f32 g) = f ≡ g
  Shows (Value.map m) (Visit.map access) = ShowsFields m access
  Shows (Value.array items) (Visit.seq access) = ShowsItems items access
  Shows _ _ = ⊥

  pub ShowsItems : Items → SeqAccess → Type 0
  ShowsItems nil seq_end = Unit {0}
  ShowsItems (cons v items) (next_element x access) = Shows v x × ShowsItems items access
  ShowsItems _ _ = ⊥

  pub ShowsFields : Fields → MapAccess → Type 0
  ShowsFields end map_end = Unit {0}
  ShowsFields (field k v m) (next_entry j x access) = (k ≡ j) × Shows v x × ShowsFields m access
  ShowsFields _ _ = ⊥

try_i32-I32 : (n : ℤ) → IsI32 n → try_i32 n ≡ ok (Value.i32 n)
unfolding try_i32
try_i32-I32 (pos n) h = ground arith
try_i32-I32 (negsuc n) h = ground arith

mutual
  unfolding visit IsTyped Shows append_items

  visit_shown : (v : Value) (x : Visit) → IsTyped v → Shows v x → visit x ≡ ok v
  visit_shown (Value.string s) (Visit.str t) h e = ap (λ y. ok (Value.string y)) (sym e)
  visit_shown (Value.string s) (Visit.string t) h e = ap (λ y. ok (Value.string y)) (sym e)
  visit_shown (Value.double d) (Visit.f64 t) h e = ap (λ y. ok (Value.double y)) (sym e)
  visit_shown (Value.bytes b) (Visit.bytes c) h e = ap (λ y. ok (Value.bytes y)) (sym e)
  visit_shown (Value.bytes b) (Visit.byte_buf c) h e = ap (λ y. ok (Value.bytes y)) (sym e)
  visit_shown (Value.u16 n) (Visit.u8 m) h e = ap (λ y. ok (Value.u16 y)) (sym e)
  visit_shown (Value.u16 n) (Visit.u16 m) h e = ap (λ y. ok (Value.u16 y)) (sym e)
  visit_shown (Value.u32 n) (Visit.u32 m) h e = ap (λ y. ok (Value.u32 y)) (sym e)
  visit_shown (Value.i32 n) (Visit.i8 m) h e = ap (λ y. ok (Value.i32 y)) (sym e)
  visit_shown (Value.i32 n) (Visit.i16 m) h e = ap (λ y. ok (Value.i32 y)) (sym e)
  visit_shown (Value.i32 n) (Visit.i32 m) h e = ap (λ y. ok (Value.i32 y)) (sym e)
  visit_shown (Value.i32 n) (Visit.i64 m) h e =
      subst (λ y. visit (Visit.i64 y) ≡ ok (Value.i32 n)) e (try_i32-I32 n h)
  visit_shown (Value.u64 n) (Visit.u64 m) h e = ap (λ y. ok (Value.u64 y)) (sym e)
  visit_shown (Value.u128 n) (Visit.u128 m) h e = ap (λ y. ok (Value.u128 y)) (sym e)
  visit_shown (Value.bool b) (Visit.bool c) h e = ap (λ y. ok (Value.bool y)) (sym e)
  visit_shown (Value.float f) (Visit.f32 g) h e = ap (λ y. ok (Value.float y)) (sym e)
  visit_shown (Value.map m) (Visit.map access) h e = rw (visit_map_shown m access end h e) refl
  visit_shown (Value.array items) (Visit.seq access) h e =
      rw (visit_seq_shown items access nil h e) refl
  visit_shown _ _ h e = elim e [ ]

  visit_seq_shown :
      (items : Items) (access : SeqAccess) (acc : Items)
      → ItemsAreTyped items
      → ShowsItems items access
      → visit_seq access acc ≡ ok (append_items acc items)
  visit_seq_shown nil seq_end acc h e = ap ok (sym (append_items-nil acc))
  visit_seq_shown (cons v items) (next_element x access) acc h e = rw (visit_shown v x h.0 e.0) (
      visit_seq_shown items access (append_items acc (cons v nil)) h.1 e.1
      ∙ ap ok (append_items-more acc v items))
  visit_seq_shown _ _ acc h e = elim e [ ]

  visit_map_shown :
      (m : Fields) (access : MapAccess) (acc : Fields)
      → IsSorted (append_fields acc m) × FieldsAreTyped m
      → ShowsFields m access
      → visit_map access acc ≡ ok (append_fields acc m)
  visit_map_shown end map_end acc h e = ap ok (sym (append_fields-end acc))
  visit_map_shown (field k v m) (next_entry j x access) acc h e =
      let same = insert_field-append k v acc m h.0 in
      rw (visit_shown v x h.1.1 e.1) (
        subst (λ y. visit_map access (insert_field y v acc) ≡ ok (append_fields acc (field k v m)))
          e.0
          (visit_map_shown m access (insert_field k v acc) (subst IsSorted (sym same) h.0, h.1.2)
              e.2
            ∙ ap ok same))
  visit_map_shown _ _ acc h e = elim e [ ]

-- The visitor makes of a deserializer that shows a value by one of the methods for it, which the
-- value's Rust types can hold and whose maps' keys ascend, that value; an i32 may come as any
-- signed type, an i64 included, and a u16 as a u8.
pub visit-Shows : (v : Value) (x : Visit) → IsTyped v → Shows v x → visit x ≡ ok v
visit-Shows = visit_shown
