-- ===== src/Ser/Model.antt =====
-- What the serializer of src/ser.rs is given: the calls that the `Serialize` implementation of a
-- value makes on it, one constructor for each method of serde's `Serializer`. Left out are the
-- names of types, the indices of variants and the announced lengths, which it ignores but for the
-- capacity of a vector. A string is its bytes, a float its bit pattern, a char its code point.
use mmdb_writer.Base.{ℕ, List, Bool}
use mmdb_writer.Value.{ℤ}

mutual
  pub data Content : Type 0 where
    bool : Bool → Content
    i8 i16 i32 i64 : ℤ → Content
    u8 u16 u32 u64 u128 : ℕ → Content
    f32 f64 : ℕ → Content
    char : ℕ → Content
    str bytes : List ℕ → Content
    none : Content
    some : Content → Content
    unit unit_struct : Content
    unit_variant : List ℕ → Content
    newtype_struct : Content → Content
    newtype_variant : List ℕ → Content → Content
    seq tuple tuple_struct : Elements → Content
    tuple_variant : List ℕ → Elements → Content
    map : MapCalls → Content
    struct : Members → Content
    struct_variant : List ℕ → Members → Content
    -- An implementation that gives up with a message, as serde's own `serialize_i128` does.
    custom : List ℕ → Content

  pub data Elements : Type 0 where
    no_elements : Elements
    element : Content → Elements → Elements

  -- An implementation may call `serialize_key` and `serialize_value` in any order.
  pub data MapCalls : Type 0 where
    no_calls : MapCalls
    key value : Content → MapCalls → MapCalls

  pub data Members : Type 0 where
    no_members : Members
    member : List ℕ → Content → Members → Members
