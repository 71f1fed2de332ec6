-- ===== src/Value/From.antt =====
-- src/value.rs: the conversions into a value, and maps and arrays from what converts.
use mmdb_writer.Base.{ℕ, Bool, List, [], ◌∷◌}
use mmdb_writer.Value.{
  ℤ, Value, string, double, bytes, u16, u32, map, i32, u64, u128, array, bool, float, Items, nil,
  cons, Fields, end,
}
use mmdb_writer.Value.Map.{insert_field}

-- What converts into a value: one constructor for each implementation of `From`, and a value itself.
pub data Datum : Type 0 where
  of_str of_string : List ℕ → Datum
  of_bool : Bool → Datum
  of_f32 of_f64 : ℕ → Datum
  of_u8 of_u16 of_u32 of_u64 of_u128 : ℕ → Datum
  of_i8 of_i16 of_i32 : ℤ → Datum
  of_bytes : List ℕ → Datum
  of_values : Items → Datum
  of_fields : Fields → Datum
  of_value : Value → Datum

-- `Value::from`
unfoldable pub from : Datum → Value
from (of_str v) = string v
from (of_string v) = string v
from (of_bool v) = bool v
from (of_f32 v) = float v
from (of_f64 v) = double v
from (of_u8 v) = u16 v
from (of_u16 v) = u16 v
from (of_u32 v) = u32 v
from (of_u64 v) = u64 v
from (of_u128 v) = u128 v
from (of_i8 v) = i32 v
from (of_i16 v) = i32 v
from (of_i32 v) = i32 v
from (of_bytes v) = bytes v
from (of_values v) = array v
from (of_fields v) = map v
from (of_value v) = v

-- `.into_iter().collect()` of a `BTreeMap`, from the entries so far: a later entry for a key replaces
-- an earlier one.
unfoldable pub collect_fields : List (List ℕ × Value) → Fields → Fields
collect_fields [] m = m
collect_fields ((k, v) ∷ entries) m = collect_fields entries (insert_field k v m)

-- `.into_iter().collect()` of a `Vec`
unfoldable pub collect_items : List Value → Items
collect_items [] = nil
collect_items (v ∷ items) = cons v (collect_items items)

-- `.map(|(k, v)| (k.into(), v.into()))`
unfoldable pub converted : List (List ℕ × Datum) → List (List ℕ × Value)
converted [] = []
converted ((k, d) ∷ entries) = (k, from d) ∷ converted entries

-- `Value::map`
unfoldable pub map_from : List (List ℕ × Datum) → Value
map_from entries = map (collect_fields (converted entries) end)

-- `.map(Into::into)`
unfoldable pub converted_items : List Datum → List Value
converted_items [] = []
converted_items (d ∷ items) = from d ∷ converted_items items

-- `Value::array`
unfoldable pub array_from : List Datum → Value
array_from items = array (collect_items (converted_items items))

-- `from_iter` over values and over entries
unfoldable pub values_from_iter : List Value → Value
values_from_iter items = array (collect_items items)

unfoldable pub fields_from_iter : List (List ℕ × Value) → Value
fields_from_iter entries = map (collect_fields entries end)
