-- ===== src/Error.antt =====
-- src/error.rs: the errors of the crate, but for those of files and streams. `V6` and `Network` are
-- the types of the networks that they name.
use mmdb_writer.Base.{ℕ, List, ◌≡◌, refl}
use mmdb_writer.Tree.Run.{TreeError}

-- The messages of `UnsupportedValue`.
pub data Unsupported : Type 0 where
  top_level_null i64 null_map_key non_string_map_key value_before_key : Unsupported

-- The errors of the serializer: `UnsupportedValue`, and `Serialize` with its text.
pub data SerdeError : Type 0 where
  unsupported_value : Unsupported → SerdeError
  serialize : List ℕ → SerdeError

-- The two messages of `InvalidRange`.
pub data RangeFault : Type 0 where
  start_above_end different_families : RangeFault

-- The messages of `Load`.
pub data LoadFault : Type 0 where
  of_reader : List ℕ → LoadFault
  undecodable invalid_network : LoadFault
  unsupported_record_size : ℕ → LoadFault

pub data Error (V6 Network : Type 0) : Type 0 where
  ipv6_in_ipv4_tree : V6 → Error V6 Network
  invalid_range : RangeFault → Error V6 Network
  aliased_network : Network → Error V6 Network
  reserved_network : Network → Error V6 Network
  of_tree : TreeError → Error V6 Network
  load : LoadFault → Error V6 Network
  of_serde : SerdeError → Error V6 Network

pub data Result (E A : Type 0) : Type 0 where
  ok : A → Result E A
  err : E → Result E A

-- The operator `?` on results.
infixl 5 ◌>>=◌
abbrev pub ◌>>=◌ : {E A B : Type 0} → Result E A → (A → Result E B) → Result E B
ok a >>= k = k a
err e >>= k = err e

-- What holds of a result if it is one.
abbrev pub Yields : {E A : Type 0} → (A → Type 0) → Result E A → Type 0
Yields P (ok a) = P a
Yields P (err e) = Unit {0}

pub Yields-bind :
    {E A B : Type 0} (P : A → Type 0) (Q : B → Type 0) (r : Result E A) (k : A → Result E B)
    → Yields P r
    → ((a : A) → P a → Yields Q (k a))
    → Yields Q (r >>= k)
Yields-bind P Q (ok a) k h step = step a h
Yields-bind P Q (err e) k h step = tt

pub Yields-eq_ok :
    {E A : Type 0} (P : A → Type 0) (r : Result E A) (a : A) → r ≡ ok a → Yields P r → P a
Yields-eq_ok P r a e h = rw e at h

-- A result, and what holds of it.
abbrev pub Succeeds : {E A : Type 0} → (A → Type 0) → Result E A → Type 0
Succeeds P (ok a) = P a
Succeeds P (err e) = ⊥

pub Succeeds-bind :
    {E A B : Type 0} (P : A → Type 0) (Q : B → Type 0) (r : Result E A) (k : A → Result E B)
    → Succeeds P r
    → ((a : A) → P a → Succeeds Q (k a))
    → Succeeds Q (r >>= k)
Succeeds-bind P Q (ok a) k h step = step a h
Succeeds-bind P Q (err e) k h step = elim h [ ]

pub Succeeds-is_ok :
    {E A : Type 0} (P : A → Type 0) (r : Result E A) → Succeeds P r → (a : A) × (r ≡ ok a) × P a
Succeeds-is_ok P (ok a) h = (a, refl, h)
Succeeds-is_ok P (err e) h = elim h [ ]
