-- ===== src/Ser/Representable.antt =====
-- The errors of src/ser.rs: the serializer accepts no other values than those described.
use mmdb_writer.Base.{◌≡◌, refl, ◌↔◌, true, false, List, Option, none, some, ℕ}
use mmdb_writer.Value.{Value, Items, nil, Fields, end}
use mmdb_writer.Error.{
  Result, ok, err, SerdeError, Yields, Yields-bind, Yields-eq_ok, Succeeds-is_ok,
}
use mmdb_writer.Ser.{
  MapSer, push_some, insert_some, tagged, key_string, taken_key, serialize_value,
  serialize_elements, serialize_calls, serialize_members, top_level, to_value,
}
use mmdb_writer.Ser.Model.{
  Content, Elements, no_elements, element, MapCalls, no_calls, Members, no_members, member,
}
use mmdb_writer.Ser.Accepted.{
  IsKey, IsNull, IsRepresentable, ElementsAreRepresentable, CallsAreRepresentable,
  MembersAreRepresentable, Always, IsString, is_pending, serialize_value-Succeeds,
}

Yields-map :
    {A : Type 0} (P Q : Type 0) (r : Result SerdeError A)
    → Yields (λ (a : A). P) r
    → (P → Q)
    → Yields (λ (a : A). Q) r
Yields-map P Q (ok a) h f = f h
Yields-map P Q (err e) h f = tt

Yields-Always : {A : Type 0} (r : Result SerdeError A) → Yields (λ (a : A). Unit {0}) r
Yields-Always (ok a) = tt
Yields-Always (err e) = tt

-- Only what `IsKey` allows becomes a string.
serialize_value-IsKey : (k : Content) → Yields (λ out. IsString out → IsKey k) (serialize_value k)
unfolding serialize_value IsKey tagged
serialize_value-IsKey (Content.char v) = λ h. tt
serialize_value-IsKey (Content.str v) = λ h. tt
serialize_value-IsKey (Content.unit_variant variant) = λ h. tt
serialize_value-IsKey (Content.some v) = serialize_value-IsKey v
serialize_value-IsKey (Content.newtype_struct v) = serialize_value-IsKey v
serialize_value-IsKey (Content.newtype_variant variant v) =
    Yields-bind Always _ (serialize_value v) _ (Yields-Always _) λ out p h. elim h [ ]
serialize_value-IsKey (Content.seq es) =
    Yields-bind Always _ (serialize_elements es nil) _ (Yields-Always _) λ items p h. elim h [ ]
serialize_value-IsKey (Content.tuple es) =
    Yields-bind Always _ (serialize_elements es nil) _ (Yields-Always _) λ items p h. elim h [ ]
serialize_value-IsKey (Content.tuple_struct es) =
    Yields-bind Always _ (serialize_elements es nil) _ (Yields-Always _) λ items p h. elim h [ ]
serialize_value-IsKey (Content.tuple_variant variant es) =
    Yields-bind Always _ (serialize_elements es nil) _ (Yields-Always _) λ items p h. elim h [ ]
serialize_value-IsKey (Content.map calls) =
    Yields-bind Always _ (serialize_calls calls _) _ (Yields-Always _) λ s p h. elim h [ ]
serialize_value-IsKey (Content.struct ms) =
    Yields-bind Always _ (serialize_members ms end) _ (Yields-Always _) λ m p h. elim h [ ]
serialize_value-IsKey (Content.struct_variant variant ms) =
    Yields-bind Always _ (serialize_members ms end) _ (Yields-Always _) λ m p h. elim h [ ]
serialize_value-IsKey (Content.i64 v) = tt
serialize_value-IsKey (Content.custom msg) = tt
serialize_value-IsKey _ = λ h. elim h [ ]

key_string-IsString : (out : Option Value) → Yields (λ name. IsString out) (key_string out)
unfolding key_string
key_string-IsString (some (Value.string s)) = tt
key_string-IsString none = tt
key_string-IsString (some _) = tt

taken_key-is_pending :
    (pending : Option (List ℕ)) → Yields (λ name. is_pending pending ≡ true) (taken_key pending)
unfolding taken_key
taken_key-is_pending none = tt
taken_key-is_pending (some k) = refl

mutual
  unfolding serialize_value IsRepresentable

  serialize_value-Representable :
      (c : Content) → Yields (λ out. IsRepresentable c) (serialize_value c)
  serialize_value-Representable (Content.i64 v) = tt
  serialize_value-Representable (Content.custom msg) = tt
  serialize_value-Representable (Content.some v) = serialize_value-Representable v
  serialize_value-Representable (Content.newtype_struct v) = serialize_value-Representable v
  serialize_value-Representable (Content.newtype_variant variant v) =
      Yields-bind _ _ (serialize_value v) _ (serialize_value-Representable v) λ out p. p
  serialize_value-Representable (Content.seq es) =
      Yields-bind _ _ (serialize_elements es nil) _ (serialize_elements-Representable es nil)
        λ items p. p
  serialize_value-Representable (Content.tuple es) =
      Yields-bind _ _ (serialize_elements es nil) _ (serialize_elements-Representable es nil)
        λ items p. p
  serialize_value-Representable (Content.tuple_struct es) =
      Yields-bind _ _ (serialize_elements es nil) _ (serialize_elements-Representable es nil)
        λ items p. p
  serialize_value-Representable (Content.tuple_variant variant es) =
      Yields-bind _ _ (serialize_elements es nil) _ (serialize_elements-Representable es nil)
        λ items p. p
  serialize_value-Representable (Content.map calls) =
      Yields-bind _ _ (serialize_calls calls _) _
        (serialize_calls-Representable calls (record { entries = end; pending_key = none }))
        λ s p. p
  serialize_value-Representable (Content.struct ms) =
      Yields-bind _ _ (serialize_members ms end) _ (serialize_members-Representable ms end) λ m p. p
  serialize_value-Representable (Content.struct_variant variant ms) =
      Yields-bind _ _ (serialize_members ms end) _ (serialize_members-Representable ms end) λ m p. p
  serialize_value-Representable _ = tt

  serialize_elements-Representable :
      (es : Elements) (items : Items)
      → Yields (λ r. ElementsAreRepresentable es) (serialize_elements es items)
  serialize_elements-Representable no_elements items = tt
  serialize_elements-Representable (element v es) items =
      Yields-bind _ _ (serialize_value v) _ (serialize_value-Representable v) λ out p.
        Yields-map (ElementsAreRepresentable es) (IsRepresentable v × ElementsAreRepresentable es) _
          (serialize_elements-Representable es (push_some out items)) λ q. (p, q)

  serialize_calls-Representable :
      (calls : MapCalls) (s : MapSer)
      → Yields
          (λ r. CallsAreRepresentable (is_pending s.pending_key) calls)
          (serialize_calls calls s)
  serialize_calls-Representable no_calls s = tt
  serialize_calls-Representable (MapCalls.key k calls) s =
      Yields-bind _ _ (serialize_value k) _ (serialize_value-IsKey k) λ out p.
        Yields-bind _ _ (key_string out) _ (key_string-IsString out) λ name q.
          Yields-map (CallsAreRepresentable true calls) (IsKey k × CallsAreRepresentable true calls)
            _ (serialize_calls-Representable calls (record s { pending_key = some name }))
            λ r. (p q, r)
  serialize_calls-Representable (MapCalls.value v calls) s =
      Yields-bind _ _ (taken_key s.pending_key) _ (taken_key-is_pending s.pending_key) λ name e.
        Yields-bind _ _ (serialize_value v) _ (serialize_value-Representable v) λ out p.
          Yields-map (CallsAreRepresentable false calls)
            (CallsAreRepresentable (is_pending s.pending_key) (MapCalls.value v calls)) _
            (serialize_calls-Representable calls
              (record { entries = insert_some name out s.entries; pending_key = none }))
            λ q. rw e (p, q)

  serialize_members-Representable :
      (ms : Members) (m : Fields)
      → Yields (λ r. MembersAreRepresentable ms) (serialize_members ms m)
  serialize_members-Representable no_members m = tt
  serialize_members-Representable (member name v ms) m =
      Yields-bind _ _ (serialize_value v) _ (serialize_value-Representable v) λ out p.
        Yields-map (MembersAreRepresentable ms) (IsRepresentable v × MembersAreRepresentable ms) _
          (serialize_members-Representable ms (insert_some name out m)) λ q. (p, q)

-- Nothing comes of exactly the null values.
serialize_value-IsNull : (c : Content) → Yields (λ out. (out ≡ none) ↔ IsNull c) (serialize_value c)
unfolding serialize_value IsNull tagged
serialize_value-IsNull Content.none = (λ e. tt, λ h. refl)
serialize_value-IsNull Content.unit = (λ e. tt, λ h. refl)
serialize_value-IsNull Content.unit_struct = (λ e. tt, λ h. refl)
serialize_value-IsNull (Content.some v) = serialize_value-IsNull v
serialize_value-IsNull (Content.newtype_struct v) = serialize_value-IsNull v
serialize_value-IsNull (Content.i64 v) = tt
serialize_value-IsNull (Content.custom msg) = tt
serialize_value-IsNull (Content.newtype_variant variant v) =
    Yields-bind Always _ (serialize_value v) _ (Yields-Always _) λ out p. (λ e. cc, λ h. elim h [ ])
serialize_value-IsNull (Content.seq es) =
    Yields-bind Always _ (serialize_elements es nil) _ (Yields-Always _)
      λ items p. (λ e. cc, λ h. elim h [ ])
serialize_value-IsNull (Content.tuple es) =
    Yields-bind Always _ (serialize_elements es nil) _ (Yields-Always _)
      λ items p. (λ e. cc, λ h. elim h [ ])
serialize_value-IsNull (Content.tuple_struct es) =
    Yields-bind Always _ (serialize_elements es nil) _ (Yields-Always _)
      λ items p. (λ e. cc, λ h. elim h [ ])
serialize_value-IsNull (Content.tuple_variant variant es) =
    Yields-bind Always _ (serialize_elements es nil) _ (Yields-Always _)
      λ items p. (λ e. cc, λ h. elim h [ ])
serialize_value-IsNull (Content.map calls) =
    Yields-bind Always _ (serialize_calls calls _) _ (Yields-Always _)
      λ s p. (λ e. cc, λ h. elim h [ ])
serialize_value-IsNull (Content.struct ms) =
    Yields-bind Always _ (serialize_members ms end) _ (Yields-Always _)
      λ m p. (λ e. cc, λ h. elim h [ ])
serialize_value-IsNull (Content.struct_variant variant ms) =
    Yields-bind Always _ (serialize_members ms end) _ (Yields-Always _)
      λ m p. (λ e. cc, λ h. elim h [ ])
serialize_value-IsNull _ = (λ e. cc, λ h. elim h [ ])

Yields-× :
    {A : Type 0} (P Q : A → Type 0) (r : Result SerdeError A)
    → Yields P r
    → Yields Q r
    → Yields (λ a. P a × Q a) r
Yields-× P Q (ok a) p q = (p, q)
Yields-× P Q (err e) p q = tt

top_level-Yields :
    (c : Content) (out : Option Value)
    → IsRepresentable c
    → (out ≡ none) ↔ IsNull c
    → Yields (λ v. IsRepresentable c × ¬ IsNull c) (top_level out)
unfolding top_level
top_level-Yields c none h n = tt
top_level-Yields c (some v) h n = (h, λ null. cc (n.1 null))

to_value-Yields : (c : Content) → Yields (λ v. IsRepresentable c × ¬ IsNull c) (to_value c)
unfolding to_value
to_value-Yields c =
    Yields-bind (λ out. IsRepresentable c × ((out ≡ none) ↔ IsNull c)) _ (serialize_value c) _
      (Yields-× _ _ (serialize_value c) (serialize_value-Representable c)
        (serialize_value-IsNull c))
      λ out p. top_level-Yields c out p.0 p.1

top_level-ok :
    (c : Content) (out : Option Value)
    → (out ≡ none) ↔ IsNull c
    → ¬ IsNull c
    → (v : Value) × (top_level out ≡ ok v)
unfolding top_level
top_level-ok c none n h = absurd (h (n.0 refl))
top_level-ok c (some v) n h = (v, refl)

to_value-ok : (c : Content) → IsRepresentable c → ¬ IsNull c → (v : Value) × (to_value c ≡ ok v)
unfolding to_value
to_value-ok c h n =
    let (out, e, _) = Succeeds-is_ok _ (serialize_value c) (serialize_value-Succeeds c h) in
    let null = Yields-eq_ok _ (serialize_value c) out e (serialize_value-IsNull c) in
    rw e (top_level-ok c out null n)

-- The serializer turns a serde value into a value, rather than into an error, exactly when it holds
-- no i64 and nothing that fails to serialize, every key in its maps is a string, a char or a unit
-- variant (maybe in an option or in newtype structs), every map value comes after a key of its own,
-- and it is not null itself.
pub to_value-Representable :
    (c : Content) → ((v : Value) × (to_value c ≡ ok v)) ↔ (IsRepresentable c × ¬ IsNull c)
to_value-Representable c =
    (λ r. Yields-eq_ok _ (to_value c) r.0 r.1 (to_value-Yields c), λ h. to_value-ok c h.0 h.1)
