-- ===== src/Pool.antt =====
-- src/pool.rs: the pool that numbers the values. The index, a hash map, is an association list.
use mmdb_writer.Base.{
  ℕ, ◌^◌, ◌+◌, ◌≤◌, ◌<◌, ◌≡◌, refl, sym, ◌∙◌, ap, Option, none, some, List, [], ◌∷◌, ◌++◌, ltb,
  if◌then◌else◌, length, length-append, get_elem?, get_elem?-append_left, get_elem?-append_here,
  get_elem?-append_one, get_elem?-lt, some-injective, ◌⊎◌, inl, inr, Bool-cases, Option-cases,
  arith,
}
use mathlib.Core.Path.{subst}
use mmdb_writer.Value.{Value, value_eq}
use mmdb_writer.Value.Equality.{value_eq_iff}

pub record ValuePool : Type 0 where
  pub values : List Value
  pub index : List (Value × ℕ)

unfoldable pub new : ValuePool
new = record { values = []; index = [] }

unfoldable pub index_get : List (Value × ℕ) → Value → Option ℕ
index_get [] v = none
index_get ((w, id) ∷ m) v = if value_eq w v then some id else index_get m v

-- `none` is the panic for an id too many.
unfoldable pub intern : Value → ValuePool → Option (ValuePool × ℕ)
intern value p = elim (index_get p.index value) [
  | some id ↦ some (p, id)
  | none ↦
      let id = length p.values in
      if ltb id (2 ^ 32)
      then some (record { values = p.values ++ (value ∷ []); index = (value, id) ∷ p.index }, id)
      else none
]

-- `none` is an index out of bounds.
unfoldable pub get : ValuePool → ℕ → Option Value
get p id = get_elem? p.values id

-- The index is the inverse of the vector: no value has two ids.
pub record IsPool (p : ValuePool) : Type 0 where
  pub found : (v : Value) (id : ℕ) → index_get p.index v ≡ some id → get p id ≡ some v
  pub indexed : (v : Value) (id : ℕ) → get p id ≡ some v → index_get p.index v ≡ some id

pub new-IsPool : IsPool new
unfolding new index_get get
new-IsPool = record { found = λ v id e. cc; indexed = λ v id e. cc }

-- What interning `v` in `p` gives.
pub record Interned (v : Value) (p p' : ValuePool) (id : ℕ) : Type 0 where
  pub pool : IsPool p'
  pub here : get p' id ≡ some v
  pub kept : (w : Value) (j : ℕ) → get p j ≡ some w → get p' j ≡ some w
  pub grown : length p'.values ≤ length p.values + 1

none≢some {ℓ} : {A : Type ℓ} {a : A} → none ≡ some a → ⊥
none≢some e = cc

abbrev grown : Value → ValuePool → ValuePool
grown v p = record { values = p.values ++ (v ∷ []); index = (v, length p.values) ∷ p.index }

module _ (v : Value) (p : ValuePool) (w : IsPool p) (unknown : index_get p.index v ≡ none) where
  get-kept : (u : Value) (j : ℕ) → get p j ≡ some u → get (grown v p) j ≡ some u
  unfolding get
  get-kept u j e = get_elem?-append_left p.values (v ∷ []) j (get_elem?-lt p.values j u e) ∙ e

  grown-IsPool : IsPool (grown v p)
  unfolding index_get get
  grown-IsPool = record {
    found = λ u j e. elim (Bool-cases (value_eq v u)) [
      | inl same ↦
          subst (λ k. get (grown v p) k ≡ some u) (some-injective (rw same at e))
            (subst (λ x. get (grown v p) (length p.values) ≡ some x) ((value_eq_iff v u).0 same)
              (get_elem?-append_here p.values v))
      | inr other ↦ get-kept u j (w.found u j (rw other at e))
    ];
    indexed = λ u j e. elim (get_elem?-append_one p.values v j u e) [
      | inl old ↦ elim (Bool-cases (value_eq v u)) [
        | inl same ↦ absurd (
            none≢some (
              sym unknown ∙ ap (index_get p.index) ((value_eq_iff v u).0 same) ∙ w.indexed u j old))
        | inr other ↦ rw other (w.indexed u j old)
      ]
      | inr (at, same) ↦ rw ((value_eq_iff v u).1 same) (ap some (sym at))
    ];
  }

intern_fresh :
    (v : Value) (p : ValuePool)
    → index_get p.index v ≡ none
    → length p.values < 2 ^ 32
    → intern v p ≡ some (grown v p, length p.values)
unfolding intern
intern_fresh v p unknown h = rw (unknown, intern) (ground arith)

-- Interning a value in a pool with room for one more returns an id: the pool stays the inverse of
-- its index, its ids keep their values, and the id stands for the value, so that equal values have
-- equal ids and different values different ones. The pool has one value more at most.
pub intern-Interned :
    (v : Value) (p : ValuePool)
    → IsPool p
    → length p.values < 2 ^ 32
    → (p' : ValuePool) × (id : ℕ) × (intern v p ≡ some (p', id)) × Interned v p p' id
unfolding intern get
intern-Interned v p w h = elim (Option-cases (index_get p.index v)) [
  | inl unknown ↦ (
    grown v p,
    length p.values,
    intern_fresh v p unknown h,
    record {
      pool = grown-IsPool v p w unknown;
      here = get_elem?-append_here p.values v;
      kept = λ u j e. get-kept v p w unknown u j e;
      grown = omega (arith, length-append p.values (v ∷ []));
    },
  )
  | inr (id, known) ↦ (
    p,
    id,
    rw (known, intern) refl,
    record { pool = w; here = w.found v id known; kept = λ u j e. e; grown = omega arith },
  )
]

-- A value that has an id keeps it.
pub intern_known :
    (v : Value) (p : ValuePool)
    → IsPool p
    → (j : ℕ) → get p j ≡ some v
    → (intern v p ≡ some (p, j)) × Interned v p p j
unfolding intern
intern_known v p w j e = (
  rw (w.indexed v j e, intern) refl,
  record { pool = w; here = e; kept = λ u k h. h; grown = omega arith },
)

-- The pool has room for one more value, or it has this one.
abbrev pub HasRoom : Value → ValuePool → Type 0
HasRoom v p = (length p.values < 2 ^ 32) ⊎ ((j : ℕ) × (get p j ≡ some v))

pub intern-HasRoom :
    (v : Value) (p : ValuePool)
    → IsPool p
    → HasRoom v p
    → (p' : ValuePool) × (id : ℕ) × (intern v p ≡ some (p', id)) × Interned v p p' id
intern-HasRoom v p w (inl h) = intern-Interned v p w h
intern-HasRoom v p w (inr (j, e)) = let (same, i) = intern_known v p w j e in (p, j, same, i)

-- In a pool two ids with the same value are equal.
pub get-injective :
    (p : ValuePool) → IsPool p → (i j : ℕ) (v : Value) → get p i ≡ some v → get p j ≡ some v → i ≡ j
get-injective p w i j v a b = some-injective (sym (w.indexed v i a) ∙ w.indexed v j b)
