-- ===== src/DataSection/Emit.antt =====
-- What the encoder's primitives push, and the invariant of the deduplication table.
use mmdb_writer.Base.{
  ◌⊎◌, ℕ, ◌+◌, ◌^◌, ◌≤◌, ◌<◌, ◌≡◌, refl, ap, sym, ◌∙◌, List, [], ◌∷◌, ◌++◌, some, inl, inr, ltb,
  length, drop, length-append, Bool-cases, Option-cases, arith,
}
use mathlib.Core.Path.{subst, subst₂}
use mathlib.Core.Option.{some-injective}
use mathlib.Core.List.{append_assoc, append-nil}
use mmdb_writer.Value.{Value, value_eq}
use mmdb_writer.Value.Equality.{value_eq→eq}
use mmdb_writer.DataSection.Tags.{TypeTag, ExtendedType, extended_code}
use mmdb_writer.DataSection.Bytes.{
  u32_from_usize, u32_len, control_bytes, pointer_encoding, pointer_bytes, encode_uint_trimmed,
}
use mmdb_writer.DataSection.Pointer.{read_pointer-pointer_encoding}
use mmdb_writer.DataSection.Format.{Direct, Reads, direct, pointer}
use mmdb_writer.DataSection.Frame.{drop-append, Direct-append}
use mmdb_writer.DataSection.{
  DataSection, DedupEntry, find, extend, write_control_byte, write_pointer, write_blob, write_uint,
  write_extended_header, or_insert, emitted, emit_inline,
}

extend-extend : (xs ys : List ℕ) (d : DataSection) → extend xs (extend ys d) ≡ extend (ys ++ xs) d
unfolding extend
extend-extend xs ys d = rw append_assoc

pub write_blob-extend :
    (t : TypeTag) (p : List ℕ) (d : DataSection)
    → write_blob t p d ≡ extend (control_bytes t (length p) ++ p) d
unfolding write_blob write_control_byte
write_blob-extend t p d = extend-extend _ _ d

pub write_uint-extend :
    (t : TypeTag) (n w : ℕ) (d : DataSection)
    → write_uint t n w d
      ≡ extend (control_bytes t (encode_uint_trimmed n w).1 ++ (encode_uint_trimmed n w).0) d
unfolding write_uint write_control_byte
write_uint-extend t n w d = extend-extend _ _ d

pub write_extended_header-extend :
    (e : ExtendedType) (n : ℕ) (d : DataSection)
    → write_extended_header e n d
      ≡ extend (control_bytes TypeTag.extended n ++ (extended_code e ∷ [])) d
unfolding write_extended_header write_control_byte
write_extended_header-extend e n d = extend-extend _ _ d

pub payload-extend :
    (p : List ℕ) (t : TypeTag) (n : ℕ) (d : DataSection)
    → extend p (write_control_byte t n d) ≡ extend (control_bytes t n ++ p) d
unfolding write_control_byte
payload-extend p t n d = extend-extend _ _ d

pub extended_payload-extend :
    (e : ExtendedType) (n : ℕ) (p : List ℕ) (d : DataSection)
    → extend p (write_extended_header e n d)
      ≡ extend (control_bytes TypeTag.extended n ++ (extended_code e ∷ p)) d
extended_payload-extend e n p d =
    rw (write_extended_header-extend e n d, extend-extend, append_assoc)

-- A value is spelled out at an offset of the section.
pub record Stands (bs : List ℕ) (v : Value) (offset : ℕ) : Type 0 where
  pub within : offset ≤ length bs
  pub small : offset < 2 ^ 32
  pub left : List ℕ
  pub reads : Direct bs (drop offset bs) v left

-- Each value of the deduplication table is spelled out at the offset that the table gives.
abbrev pub Sound : DataSection → Type 0
Sound d = (v : Value) (e : DedupEntry) → find d.dedup v ≡ some e → Stands d.buf v e.offset

pub Stands-append :
    {bs : List ℕ} {v : Value} {offset : ℕ} (more : List ℕ)
    → Stands bs v offset
    → Stands (bs ++ more) v offset
Stands-append {bs} {offset} more s = record {
  within = omega (arith, s.within, length-append bs more);
  small = s.small;
  left = s.left ++ more;
  reads = rw (drop-append offset bs more s.within) (Direct-append more s.reads);
}

pub Sound-extend : (c : List ℕ) (d : DataSection) → Sound d → Sound (extend c d)
unfolding extend
Sound-extend c d s = λ v e h. Stands-append c (s v e h)

pub Sound-cons :
    (v : Value) (e : DedupEntry) (d : DataSection)
    → Sound d
    → Stands d.buf v e.offset
    → Sound (record d { dedup = (v, e) ∷ d.dedup })
unfolding find
Sound-cons v e d s here = λ w f h. elim (Bool-cases (value_eq v w)) [
  | inl q ↦
      subst₂ (λ x y. Stands d.buf x y.offset) (value_eq→eq v w q) (some-injective _ _ (rw q at h))
        here
  | inr q ↦ s w f (rw q at h)
]

Sound-or_insert :
    (v : Value) (e : DedupEntry) (d : DataSection)
    → Sound d
    → Stands d.buf v e.offset
    → Sound (or_insert v e d)
unfolding or_insert
Sound-or_insert v e d s here = elim (Option-cases (find d.dedup v)) [
  | inl q ↦ rw (q, or_insert) (Sound-cons v e d s here)
  | inr (f, q) ↦ rw (q, or_insert) s
]

pub or_insert-buf : (v : Value) (e : DedupEntry) (d : DataSection) → (or_insert v e d).buf ≡ d.buf
unfolding or_insert
or_insert-buf v e d = ground arith

drop-length : (xs ys : List ℕ) → drop (length xs) (xs ++ ys) ≡ ys
drop-length [] ys = refl
drop-length (x ∷ xs) ys = drop-length xs ys

pub u32_len-length : (xs : List ℕ) → length xs < 2 ^ 32 → u32_len xs ≡ length xs
unfolding u32_len u32_from_usize
u32_len-length xs h = omega arith

-- From `d` the encoder goes to `d'`: it appends a chunk that reads as `R` says.
pub record Emits (R : List ℕ → List ℕ → List ℕ → Type 0) (d d' : DataSection) : Type 0 where
  pub chunk : List ℕ
  pub grows : d'.buf ≡ d.buf ++ chunk
  pub reads : R d'.buf chunk []
  pub sound : Sound d'

pub Emits-extend :
    {R : List ℕ → List ℕ → List ℕ → Type 0} (c : List ℕ) (d : DataSection)
    → Sound d
    → ((bs : List ℕ) → R bs c [])
    → Emits R d (extend c d)
unfolding extend
Emits-extend c d s r = record {
  chunk = c;
  grows = refl;
  reads = r _;
  sound = unfold extend in Sound-extend c d s;
}

pub Emits-Stands :
    {v : Value} {d d' : DataSection}
    → Emits (λ bs xs ys. Direct bs xs v ys) d d'
    → length d'.buf < 2 ^ 32
    → Stands d'.buf v (u32_len d.buf)
Emits-Stands {v} {d} {d'} em h =
    let lens : length d'.buf ≡ length d.buf + length em.chunk =
      ap length em.grows ∙ length-append d.buf em.chunk in
    rw (u32_len-length d.buf (omega arith)) (record {
      within = omega arith;
      small = omega arith;
      left = [];
      reads =
          subst (λ xs. Direct d'.buf xs v [])
            (sym (ap (drop (length d.buf)) em.grows ∙ drop-length d.buf em.chunk)) em.reads;
    })

-- What `emit_inline` does, on all its branches.
emit_inline-cases :
    (enc : DataSection → DataSection) (v : Value) (d : DataSection)
    → ((e : DedupEntry) × (find d.dedup v ≡ some e)
        × (emit_inline enc v d ≡ write_pointer e.offset d))
      ⊎ (emit_inline enc v d ≡ or_insert v (emitted d (enc d)) (enc d))
unfolding emit_inline
emit_inline-cases enc v d = elim (Bool-cases d.no_pointers) [
  | inl flag ↦ inr (rw flag)
  | inr flag ↦ elim (Option-cases (find d.dedup v)) [
    | inl unknown ↦ inr (ground arith)
    | inr (e, known) ↦ elim (Bool-cases (ltb (pointer_bytes e.offset) e.len)) [
      | inl shorter ↦ inl (e, known, ground arith)
      | inr longer ↦ inr (ground arith)
    ]
  ]
]

Emits-pointer :
    (v : Value) (offset : ℕ) (d : DataSection)
    → Sound d
    → Stands d.buf v offset
    → Emits (λ bs xs ys. Reads bs xs v ys) d (write_pointer offset d)
unfolding write_pointer extend
Emits-pointer v offset d s st =
    let p : List ℕ = pointer_encoding offset in
    let st' = Stands-append p st in
    record {
      chunk = p;
      grows = refl;
      reads =
          pointer offset (rw append-nil at (read_pointer-pointer_encoding offset [] st.small))
            st'.within st'.reads;
      sound = Sound-extend p d s;
    }

Emits-or_insert :
    (v : Value) (d d' : DataSection)
    → length d'.buf < 2 ^ 32
    → Emits (λ bs xs ys. Direct bs xs v ys) d d'
    → Emits (λ bs xs ys. Reads bs xs v ys) d (or_insert v (emitted d d') d')
unfolding emitted
Emits-or_insert v d d' h em = record {
  chunk = em.chunk;
  grows = or_insert-buf v _ d' ∙ em.grows;
  reads = rw (or_insert-buf v (emitted d d') d') (direct em.reads);
  sound = Sound-or_insert v _ d' em.sound (Emits-Stands em h);
}

-- `emit_inline` writes a pointer or spells the value out; a reader finds the value either way.
pub emit_inline-Emits :
    (enc : DataSection → DataSection) (v : Value) (d : DataSection)
    → Sound d
    → (length (enc d).buf < 2 ^ 32 → Emits (λ bs xs ys. Direct bs xs v ys) d (enc d))
    → length (emit_inline enc v d).buf < 2 ^ 32
    → Emits (λ bs xs ys. Reads bs xs v ys) d (emit_inline enc v d)
emit_inline-Emits enc v d s em h = elim (emit_inline-cases enc v d) [
  | inl (e, known, same) ↦ rw same (Emits-pointer v e.offset d s (s v e known))
  | inr same ↦
      let h' : length (enc d).buf < 2 ^ 32 =
        rw (same, or_insert-buf v (emitted d (enc d)) (enc d)) at h in
      rw same (Emits-or_insert v d (enc d) h' (em h'))
]

pub emit_inline-grows :
    (enc : DataSection → DataSection) (v : Value) (d : DataSection)
    → length d.buf ≤ length (enc d).buf
    → length d.buf ≤ length (emit_inline enc v d).buf
unfolding write_pointer extend
emit_inline-grows enc v d h = elim (emit_inline-cases enc v d) [
  | inl (e, known, same) ↦
      rw (same, write_pointer, extend)
        (omega (arith, length-append d.buf (pointer_encoding e.offset)))
  | inr same ↦ rw (same, or_insert-buf v (emitted d (enc d)) (enc d)) h
]
