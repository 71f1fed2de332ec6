-- ===== src/Ser/Typed.antt =====
-- The serializer of src/ser.rs: what it makes of a value that Rust's types can hold is such a
-- value.
use mmdb_writer.Base.{ℕ, ◌<◌, ◌≡◌, List, Option, none, some, arith}
use mmdb_writer.Value.{ℤ, pos, negsuc, Value, Items, nil, Fields, end}
use mmdb_writer.Value.Map.{IsSorted, insert_field-IsSorted}
use mmdb_writer.Value.Typed.{
  AreBytes, IsTyped, ItemsAreTyped, FieldsAreTyped, append_items-Typed, insert_field-Typed,
}
use mmdb_writer.DataSection.Integers.{IsI32}
use mmdb_writer.Error.{ok, Yields, Yields-bind, Yields-eq_ok}
use mmdb_writer.Ser.{
  MapSer, char_to_string, push_some, insert_some, tagged, key_string, taken_key, serialize_value,
  serialize_elements, serialize_calls, serialize_members, top_level, to_value,
}
use mmdb_writer.Ser.Ranges.{
  IsSigned, ContentIsTyped, ElementsAreTyped, CallsAreTyped, MembersAreTyped,
}
use mmdb_writer.Ser.Model.{
  Content, Elements, no_elements, element, MapCalls, no_calls, Members, no_members, member,
}

IsSigned-I32 : (n : ℤ) → IsSigned 15 n → IsI32 n
IsSigned-I32 (pos i) h = omega arith
IsSigned-I32 (negsuc i) h = omega arith

i8-I32 : (n : ℤ) → IsSigned 7 n → IsI32 n
i8-I32 (pos i) h = omega arith
i8-I32 (negsuc i) h = omega arith

i32-I32 : (n : ℤ) → IsSigned 31 n → IsI32 n
i32-I32 (pos i) h = h
i32-I32 (negsuc i) h = h

char_to_string-AreBytes : (c : ℕ) → c < 0x110000 → AreBytes (char_to_string c)
unfolding char_to_string
char_to_string-AreBytes c h = ground arith

abbrev OutIsTyped : Option Value → Type 0
OutIsTyped none = Unit {0}
OutIsTyped (some v) = IsTyped v

abbrev EntriesAreTyped : Fields → Type 0
EntriesAreTyped m = IsSorted m × FieldsAreTyped m

abbrev KeyIsTyped : Option (List ℕ) → Type 0
KeyIsTyped none = Unit {0}
KeyIsTyped (some k) = AreBytes k

record StateIsTyped (s : MapSer) : Type 0 where
  entries : EntriesAreTyped s.entries
  pending : KeyIsTyped s.pending_key

push_some-Typed :
    (out : Option Value) (items : Items)
    → OutIsTyped out
    → ItemsAreTyped items
    → ItemsAreTyped (push_some out items)
unfolding push_some IsTyped
push_some-Typed none items ho hi = hi
push_some-Typed (some v) items ho hi = append_items-Typed items _ hi (ho, tt)

insert_some-Typed :
    (k : List ℕ) (out : Option Value) (m : Fields)
    → AreBytes k
    → OutIsTyped out
    → EntriesAreTyped m
    → EntriesAreTyped (insert_some k out m)
unfolding insert_some
insert_some-Typed k none m hk ho hm = hm
insert_some-Typed k (some v) m hk ho hm =
    (insert_field-IsSorted k v m hm.0, insert_field-Typed k v m hk ho hm.1)

end-Typed : EntriesAreTyped end
unfolding IsTyped
end-Typed = (tt, tt)

tagged-Typed :
    (variant : List ℕ) (v : Value) → AreBytes variant → IsTyped v → IsTyped (tagged variant v)
unfolding tagged IsTyped
tagged-Typed variant v hk hv =
    (insert_field-IsSorted variant v end tt, insert_field-Typed variant v end hk hv tt)

key_string-Typed : (out : Option Value) → OutIsTyped out → Yields AreBytes (key_string out)
unfolding key_string IsTyped
key_string-Typed none h = tt
key_string-Typed (some (Value.string k)) h = h
key_string-Typed (some _) h = tt

taken_key-Typed : (k : Option (List ℕ)) → KeyIsTyped k → Yields AreBytes (taken_key k)
unfolding taken_key
taken_key-Typed none h = tt
taken_key-Typed (some k) h = h

-- A value of serde is typed as its parts are; the lists go from what has been collected.
mutual
  unfolding serialize_value ContentIsTyped IsTyped

  serialize_value-Typed : (c : Content) → ContentIsTyped c → Yields OutIsTyped (serialize_value c)
  serialize_value-Typed (Content.bool v) h = tt
  serialize_value-Typed (Content.i8 v) h = i8-I32 v h
  serialize_value-Typed (Content.i16 v) h = IsSigned-I32 v h
  serialize_value-Typed (Content.i32 v) h = i32-I32 v h
  serialize_value-Typed (Content.i64 v) h = tt
  serialize_value-Typed (Content.u8 v) h = omega arith
  serialize_value-Typed (Content.u16 v) h = h
  serialize_value-Typed (Content.u32 v) h = h
  serialize_value-Typed (Content.u64 v) h = h
  serialize_value-Typed (Content.u128 v) h = h
  serialize_value-Typed (Content.f32 v) h = h
  serialize_value-Typed (Content.f64 v) h = h
  serialize_value-Typed (Content.char v) h = char_to_string-AreBytes v h
  serialize_value-Typed (Content.str v) h = h
  serialize_value-Typed (Content.bytes v) h = h
  serialize_value-Typed Content.none h = tt
  serialize_value-Typed (Content.some v) h = serialize_value-Typed v h
  serialize_value-Typed Content.unit h = tt
  serialize_value-Typed Content.unit_struct h = tt
  serialize_value-Typed (Content.unit_variant variant) h = h
  serialize_value-Typed (Content.newtype_struct v) h = serialize_value-Typed v h
  serialize_value-Typed (Content.newtype_variant variant v) h =
      Yields-bind OutIsTyped OutIsTyped (serialize_value v) _ (serialize_value-Typed v h.1)
        λ out p. insert_some-Typed variant out end h.0 p end-Typed
  serialize_value-Typed (Content.seq es) h =
      Yields-bind ItemsAreTyped OutIsTyped (serialize_elements es nil) _
        (serialize_elements-Typed es nil h tt) λ items p. p
  serialize_value-Typed (Content.tuple es) h =
      Yields-bind ItemsAreTyped OutIsTyped (serialize_elements es nil) _
        (serialize_elements-Typed es nil h tt) λ items p. p
  serialize_value-Typed (Content.tuple_struct es) h =
      Yields-bind ItemsAreTyped OutIsTyped (serialize_elements es nil) _
        (serialize_elements-Typed es nil h tt) λ items p. p
  serialize_value-Typed (Content.tuple_variant variant es) h =
      Yields-bind ItemsAreTyped OutIsTyped (serialize_elements es nil) _
        (serialize_elements-Typed es nil h.1 tt)
        λ items p. tagged-Typed variant (Value.array items) h.0 p
  serialize_value-Typed (Content.map calls) h =
      Yields-bind StateIsTyped OutIsTyped (serialize_calls calls _) _
        (serialize_calls-Typed calls _ h (record { entries = end-Typed; pending = tt }))
        λ s p. p.entries
  serialize_value-Typed (Content.struct ms) h =
      Yields-bind EntriesAreTyped OutIsTyped (serialize_members ms end) _
        (serialize_members-Typed ms end h end-Typed) λ m p. p
  serialize_value-Typed (Content.struct_variant variant ms) h =
      Yields-bind EntriesAreTyped OutIsTyped (serialize_members ms end) _
        (serialize_members-Typed ms end h.1 end-Typed)
        λ m p. tagged-Typed variant (Value.map m) h.0 p
  serialize_value-Typed (Content.custom msg) h = tt

  serialize_elements-Typed :
      (es : Elements) (items : Items)
      → ElementsAreTyped es
      → ItemsAreTyped items
      → Yields ItemsAreTyped (serialize_elements es items)
  serialize_elements-Typed no_elements items h p = p
  serialize_elements-Typed (element v es) items h p =
      Yields-bind OutIsTyped ItemsAreTyped (serialize_value v) _ (serialize_value-Typed v h.0)
        λ out q.
          serialize_elements-Typed es (push_some out items) h.1 (push_some-Typed out items q p)

  serialize_calls-Typed :
      (calls : MapCalls) (s : MapSer)
      → CallsAreTyped calls
      → StateIsTyped s
      → Yields StateIsTyped (serialize_calls calls s)
  serialize_calls-Typed no_calls s h p = p
  serialize_calls-Typed (MapCalls.key k calls) s h p =
      Yields-bind OutIsTyped StateIsTyped (serialize_value k) _ (serialize_value-Typed k h.0)
        λ out q.
          Yields-bind AreBytes StateIsTyped (key_string out) _ (key_string-Typed out q) λ name r.
            serialize_calls-Typed calls _ h.1 (record { entries = p.entries; pending = r })
  serialize_calls-Typed (MapCalls.value v calls) s h p =
      Yields-bind AreBytes StateIsTyped (taken_key s.pending_key) _
        (taken_key-Typed s.pending_key p.pending)
        λ name r.
          Yields-bind OutIsTyped StateIsTyped (serialize_value v) _ (serialize_value-Typed v h.0)
            λ out q. serialize_calls-Typed calls _ h.1 (record {
              entries = insert_some-Typed name out s.entries r q p.entries;
              pending = tt;
            })

  serialize_members-Typed :
      (ms : Members) (m : Fields)
      → MembersAreTyped ms
      → EntriesAreTyped m
      → Yields EntriesAreTyped (serialize_members ms m)
  serialize_members-Typed no_members m h p = p
  serialize_members-Typed (member name v ms) m h p =
      Yields-bind OutIsTyped EntriesAreTyped (serialize_value v) _ (serialize_value-Typed v h.1)
        λ out q.
          serialize_members-Typed ms (insert_some name out m) h.2
            (insert_some-Typed name out m h.0 q p)

top_level-Typed : (out : Option Value) → OutIsTyped out → Yields IsTyped (top_level out)
unfolding top_level
top_level-Typed none h = tt
top_level-Typed (some v) h = h

-- A value that the serializer makes of a serde value whose numbers, chars and bytes are in the
-- range of their types is one that the data model's types can hold: its numbers are in range too,
-- and the keys of all its maps ascend.
pub to_value-IsTyped :
    (content : Content) (v : Value) → ContentIsTyped content → to_value content ≡ ok v → IsTyped v
unfolding to_value
to_value-IsTyped content v h e = Yields-eq_ok IsTyped (to_value content) v e (
    Yields-bind OutIsTyped IsTyped (serialize_value content) _ (serialize_value-Typed content h)
      top_level-Typed)
