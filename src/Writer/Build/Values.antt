-- ===== src/Writer/Build/Values.antt =====
-- src/writer.rs: the data section of a build.
use mathlib.Core.List.{append_assoc, append-nil}
use mathlib.Core.Path.{subst}
use mmdb_writer.Base.{
  ℕ, ◌^◌, ◌<◌, ◌≤◌, ◌≡◌, refl, sym, ◌∙◌, ap, false, some, List, [], ◌∷◌, ◌++◌, ◌==◌, ==_iff, length,
  All, inl, inr, Bool-cases, Option-cases, arith,
}
use mmdb_writer.Value.{Value}
use mmdb_writer.Pool
use mmdb_writer.Pool.{ValuePool}
use mmdb_writer.DataSection.{DataSection, push, find}
use mmdb_writer.DataSection.Emit.{Stands, Stands-append, Sound}
use mmdb_writer.DataSection.Encodable.{IsEncodable}
use mmdb_writer.DataSection.Growth.{encode_le}
use mmdb_writer.DataSection.Push.{push-Pushed}
use mmdb_writer.Tree.Serialize.Ids.{Listed}
use mmdb_writer.Writer.Build.{offset_in, push_values}

-- The id stands for a value that the format can express.
abbrev pub HasValue : ValuePool → ℕ → Type 0
HasValue pool id = (v : Value) × (Pool.get pool id ≡ some v) × IsEncodable v

-- The data section from `d` on, with the offsets of the ids: each id of the list has the offset of
-- its value.
pub record Placed (pool : ValuePool) (ids : List ℕ) (d section : DataSection)
    (offsets : List (ℕ × ℕ)) : Type 0 where
  pub chunk : List ℕ
  pub grows : section.buf ≡ d.buf ++ chunk
  pub offset_of :
      (id : ℕ)
      → Listed ids id
      → (v : Value) × (offset : ℕ) × (Pool.get pool id ≡ some v)
        × (offset_in offsets id ≡ some offset)
        × Stands section.buf v offset

push_le : (v : Value) (d : DataSection) → length d.buf ≤ length (push v d).0.buf
unfolding push
push_le v d = elim (Option-cases (find d.dedup v)) [
  | inl unknown ↦ rw (unknown, push) (encode_le v d)
  | inr (e, known) ↦ rw (known, push) (omega arith)
]

-- The section and the offsets that all ids give.
pub record Filled (pool : ValuePool) (ids : List ℕ) (d : DataSection) : Type 0 where
  pub section : DataSection
  pub offsets : List (ℕ × ℕ)
  pub is : push_values pool ids d ≡ some (section, offsets)
  pub longer : length d.buf ≤ length section.buf
  pub placed : Sound d → length section.buf < 2 ^ 32 → Placed pool ids d section offsets

filled_none : (pool : ValuePool) (d : DataSection) → Filled pool [] d
unfolding push_values
filled_none pool d = record {
  section = d;
  offsets = [];
  is = refl;
  longer = omega arith;
  placed = λ sound h. record { chunk = []; grows = sym (append-nil d.buf); offset_of = λ id l. cc };
}

module _ (pool : ValuePool) (id : ℕ) (ids : List ℕ) (d : DataSection) (v : Value)
    (here : Pool.get pool id ≡ some v) (encodable : IsEncodable v)
    (rest : Filled pool ids (push v d).0) where
  filled_is : push_values pool (id ∷ ids) d ≡ some (rest.section, (id, (push v d).1) ∷ rest.offsets)
  unfolding push_values
  filled_is = rw (here, push_values, rest.is) refl

  one_more :
      Sound d
      → length rest.section.buf < 2 ^ 32
      → Placed pool (id ∷ ids) d rest.section ((id, (push v d).1) ∷ rest.offsets)
  unfolding offset_in
  one_more sound h =
      let p = push-Pushed v d encodable sound (omega (arith, rest.longer)) in
      let q = rest.placed p.sound h in
      record {
        chunk = p.chunk ++ q.chunk;
        grows = q.grows ∙ ap (λ b. b ++ q.chunk) p.grows ∙ append_assoc d.buf p.chunk q.chunk;
        offset_of = λ i l. elim (Bool-cases (id == i)) [
          | inl e ↦ (
            v,
            (push v d).1,
            subst (λ j. Pool.get pool j ≡ some v) ((==_iff id i).0 e) here,
            rw (e, offset_in) refl,
            rw q.grows (Stands-append q.chunk p.stands),
          )
          | inr e ↦
              let (u, offset, known, at, stands) = q.offset_of i (listed_rest i e l) in
              (u, offset, known, rw (e, offset_in) at, stands)
        ];
      }
    where
      listed_rest : (i : ℕ) → (id == i) ≡ false → Listed (id ∷ ids) i → Listed ids i
      listed_rest i e l = ground arith

  filled_one : Filled pool (id ∷ ids) d
  filled_one = record {
    section = rest.section;
    offsets = (id, (push v d).1) ∷ rest.offsets;
    is = filled_is;
    longer = omega (arith, push_le v d, rest.longer);
    placed = one_more;
  }

-- Ids that have values all get an offset.
pub push_values-Filled :
    (pool : ValuePool) (ids : List ℕ) (d : DataSection)
    → All (HasValue pool) ids
    → Filled pool ids d
push_values-Filled pool [] d all = filled_none pool d
push_values-Filled pool (id ∷ ids) d ((v, here, encodable), all) =
    filled_one pool id ids d v here encodable (push_values-Filled pool ids (push v d).0 all)
