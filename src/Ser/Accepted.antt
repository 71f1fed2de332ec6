-- ===== src/Ser/Accepted.antt =====
-- The errors of src/ser.rs: which values of serde the serializer is to accept, described without
-- it, and that it accepts them.
use mmdb_writer.Base.{Bool, true, false, List, Option, none, some, ℕ}
use mmdb_writer.Value.{Value, Items, nil, Fields, end}
use mmdb_writer.Error.{◌>>=◌, Succeeds, Succeeds-bind}
use mmdb_writer.Ser.{
  MapSer, insert_some, key_string, taken_key, serialize_value, serialize_elements, serialize_calls,
  serialize_members,
}
use mmdb_writer.Ser.Model.{
  Content, Elements, no_elements, element, MapCalls, no_calls, Members, no_members, member,
}

-- What becomes a string.
unfoldable pub IsKey : Content → Type 0
IsKey (Content.char v) = Unit {0}
IsKey (Content.str v) = Unit {0}
IsKey (Content.unit_variant variant) = Unit {0}
IsKey (Content.some v) = IsKey v
IsKey (Content.newtype_struct v) = IsKey v
IsKey _ = ⊥

-- What the serializer drops.
unfoldable pub IsNull : Content → Type 0
IsNull Content.none = Unit {0}
IsNull Content.unit = Unit {0}
IsNull Content.unit_struct = Unit {0}
IsNull (Content.some v) = IsNull v
IsNull (Content.newtype_struct v) = IsNull v
IsNull _ = ⊥

-- No i64 and no failure inside; the keys of a map are strings, and each value has one. The Boolean
-- tells whether a key is pending.
unfoldable mutual
  pub IsRepresentable : Content → Type 0
  IsRepresentable (Content.i64 v) = ⊥
  IsRepresentable (Content.custom msg) = ⊥
  IsRepresentable (Content.some v) = IsRepresentable v
  IsRepresentable (Content.newtype_struct v) = IsRepresentable v
  IsRepresentable (Content.newtype_variant variant v) = IsRepresentable v
  IsRepresentable (Content.seq es) = ElementsAreRepresentable es
  IsRepresentable (Content.tuple es) = ElementsAreRepresentable es
  IsRepresentable (Content.tuple_struct es) = ElementsAreRepresentable es
  IsRepresentable (Content.tuple_variant variant es) = ElementsAreRepresentable es
  IsRepresentable (Content.map calls) = CallsAreRepresentable false calls
  IsRepresentable (Content.struct ms) = MembersAreRepresentable ms
  IsRepresentable (Content.struct_variant variant ms) = MembersAreRepresentable ms
  IsRepresentable _ = Unit {0}

  pub ElementsAreRepresentable : Elements → Type 0
  ElementsAreRepresentable no_elements = Unit {0}
  ElementsAreRepresentable (element v es) = IsRepresentable v × ElementsAreRepresentable es

  pub CallsAreRepresentable : Bool → MapCalls → Type 0
  CallsAreRepresentable pending no_calls = Unit {0}
  CallsAreRepresentable pending (MapCalls.key k calls) = IsKey k × CallsAreRepresentable true calls
  CallsAreRepresentable true (MapCalls.value v calls) =
      IsRepresentable v × CallsAreRepresentable false calls
  CallsAreRepresentable false (MapCalls.value v calls) = ⊥

  pub MembersAreRepresentable : Members → Type 0
  MembersAreRepresentable no_members = Unit {0}
  MembersAreRepresentable (member name v ms) = IsRepresentable v × MembersAreRepresentable ms

abbrev pub Always : {A : Type 0} → A → Type 0
Always a = Unit {0}

-- The result of a serialization is a string.
abbrev pub IsString : Option Value → Type 0
IsString (some (Value.string s)) = Unit {0}
IsString _ = ⊥

IsKey-IsString : (k : Content) → IsKey k → Succeeds IsString (serialize_value k)
unfolding serialize_value IsKey
IsKey-IsString (Content.char v) h = tt
IsKey-IsString (Content.str v) h = tt
IsKey-IsString (Content.unit_variant variant) h = tt
IsKey-IsString (Content.some v) h = IsKey-IsString v h
IsKey-IsString (Content.newtype_struct v) h = IsKey-IsString v h
IsKey-IsString _ h = elim h [ ]

key_string-Succeeds :
    (out : Option Value) → IsString out → Succeeds (λ s. Unit {0}) (key_string out)
unfolding key_string
key_string-Succeeds (some (Value.string s)) h = tt
key_string-Succeeds none h = elim h [ ]
key_string-Succeeds (some _) h = elim h [ ]

abbrev pub is_pending : Option (List ℕ) → Bool
is_pending none = false
is_pending (some k) = true

mutual
  unfolding serialize_value IsRepresentable taken_key

  pub serialize_value-Succeeds :
      (c : Content) → IsRepresentable c → Succeeds (λ out. Unit {0}) (serialize_value c)
  serialize_value-Succeeds (Content.i64 v) h = elim h [ ]
  serialize_value-Succeeds (Content.custom msg) h = elim h [ ]
  serialize_value-Succeeds (Content.some v) h = serialize_value-Succeeds v h
  serialize_value-Succeeds (Content.newtype_struct v) h = serialize_value-Succeeds v h
  serialize_value-Succeeds (Content.newtype_variant variant v) h =
      Succeeds-bind Always Always (serialize_value v) _ (serialize_value-Succeeds v h) λ out p. tt
  serialize_value-Succeeds (Content.seq es) h =
      Succeeds-bind Always Always (serialize_elements es nil) _
        (serialize_elements-Succeeds es nil h) λ items p. tt
  serialize_value-Succeeds (Content.tuple es) h =
      Succeeds-bind Always Always (serialize_elements es nil) _
        (serialize_elements-Succeeds es nil h) λ items p. tt
  serialize_value-Succeeds (Content.tuple_struct es) h =
      Succeeds-bind Always Always (serialize_elements es nil) _
        (serialize_elements-Succeeds es nil h) λ items p. tt
  serialize_value-Succeeds (Content.tuple_variant variant es) h =
      Succeeds-bind Always Always (serialize_elements es nil) _
        (serialize_elements-Succeeds es nil h) λ items p. tt
  serialize_value-Succeeds (Content.map calls) h =
      Succeeds-bind Always Always (serialize_calls calls _) _
        (serialize_calls-Succeeds calls (record { entries = end; pending_key = none }) h) λ s p. tt
  serialize_value-Succeeds (Content.struct ms) h =
      Succeeds-bind Always Always (serialize_members ms end) _ (serialize_members-Succeeds ms end h)
        λ m p. tt
  serialize_value-Succeeds (Content.struct_variant variant ms) h =
      Succeeds-bind Always Always (serialize_members ms end) _ (serialize_members-Succeeds ms end h)
        λ m p. tt
  serialize_value-Succeeds _ h = tt

  serialize_elements-Succeeds :
      (es : Elements) (items : Items)
      → ElementsAreRepresentable es
      → Succeeds (λ r. Unit {0}) (serialize_elements es items)
  serialize_elements-Succeeds no_elements items h = tt
  serialize_elements-Succeeds (element v es) items h =
      Succeeds-bind Always Always (serialize_value v) _ (serialize_value-Succeeds v h.0)
        λ out p. serialize_elements-Succeeds es _ h.1

  serialize_calls-Succeeds :
      (calls : MapCalls) (s : MapSer)
      → CallsAreRepresentable (is_pending s.pending_key) calls
      → Succeeds (λ r. Unit {0}) (serialize_calls calls s)
  serialize_calls-Succeeds no_calls s h = tt
  serialize_calls-Succeeds (MapCalls.key k calls) s h =
      Succeeds-bind IsString Always (serialize_value k) _ (IsKey-IsString k h.0) λ out p.
        Succeeds-bind Always Always (key_string out) _ (key_string-Succeeds out p)
          λ name q. serialize_calls-Succeeds calls (record s { pending_key = some name }) h.1
  serialize_calls-Succeeds (MapCalls.value v calls) s h =
      elim s.pending_key
          as (λ pending.
            CallsAreRepresentable (is_pending pending) (MapCalls.value v calls)
            → Succeeds (λ r. Unit {0})
                (do
                  name ← taken_key pending
                  out ← serialize_value v
                  serialize_calls calls
                      (record { entries = insert_some name out s.entries; pending_key = none }))) [
                        | none ↦ λ h. elim h [ ]
                        | some name ↦ λ h.
                            Succeeds-bind Always Always (serialize_value v) _
                              (serialize_value-Succeeds v h.0)
                              λ out p. serialize_calls-Succeeds calls _ h.1
                      ]
        h

  serialize_members-Succeeds :
      (ms : Members) (m : Fields)
      → MembersAreRepresentable ms
      → Succeeds (λ r. Unit {0}) (serialize_members ms m)
  serialize_members-Succeeds no_members m h = tt
  serialize_members-Succeeds (member name v ms) m h =
      Succeeds-bind Always Always (serialize_value v) _ (serialize_value-Succeeds v h.0)
        λ out p. serialize_members-Succeeds ms _ h.1
