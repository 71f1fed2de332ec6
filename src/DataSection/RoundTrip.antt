-- ===== src/DataSection/RoundTrip.antt =====
-- Every value that the encoder writes is read back: `encode` against the reading relation.
use mmdb_writer.Base.{
  ℕ, ◌+◌, ◌^◌, ◌≤◌, ◌<◌, ◌≢◌, some, ◌≡◌, ap, sym, ◌∙◌, List, [], ◌∷◌, ◌++◌, Bool, true, false,
  length, if◌then◌else◌, arith,
}
use mathlib.Core.Path.{subst}
use mathlib.Core.List.{append_assoc, append-nil}
use mmdb_writer.Value.{
  Value, string, double, bytes, u16, u32, map, i32, u64, u128, array, bool, float, Items, nil, cons,
  Fields, end, field, items_len, fields_len,
}
use mmdb_writer.DataSection.Tags.{TypeTag, tag_code, ExtendedType, extended_code}
use mmdb_writer.DataSection.Bytes.{control_bytes, be_bytes}
use mmdb_writer.DataSection.Reader.{read_control}
use mmdb_writer.DataSection.Control.{size_limit, read_control-control_bytes, read_control-extended}
use mmdb_writer.DataSection.Integers.{
  Trimmed, encode_uint_trimmed-Trimmed, encode_i32_trimmed-Trimmed, as_i32-encode_i32_trimmed,
  from_be-be_bytes, length-be_bytes,
}
use mmdb_writer.DataSection.Format.{
  Direct, d_string, d_double, d_bytes, d_u16, d_u32, d_map, d_i32, d_u64, d_u128, d_array, d_bool,
  d_float, Reads, ReadsItems, no_items, item, ReadsFields, no_fields, entry,
}
use mmdb_writer.DataSection.Frame.{Reads-append}
use mmdb_writer.DataSection.Emit.{
  Sound, Emits, Emits-extend, Sound-extend, emit_inline-Emits, emit_inline-grows, write_blob-extend,
  write_uint-extend, write_extended_header-extend, payload-extend, extended_payload-extend,
}
use mmdb_writer.DataSection.{
  write_control_byte, DataSection, extend, write_blob, write_extended, emit_inline, encode,
  encode_fields, encode_items,
}
use mmdb_writer.DataSection.Growth.{encode_le, items_le, fields_le}
use mmdb_writer.DataSection.Encodable.{IsEncodable, ItemsAreEncodable, FieldsAreEncodable}

control_reads :
    (t : TypeTag) (p : List ℕ) (n : ℕ)
    → t ≢ TypeTag.extended
    → n < size_limit
    → read_control (control_bytes t n ++ p) ≡ some (tag_code t, n, p ++ [])
control_reads t p n ne h = rw append-nil (read_control-control_bytes t n p ne h)

Trimmed-reads :
    (t : TypeTag) {v w : ℕ} {r : List ℕ × ℕ}
    → t ≢ TypeTag.extended
    → w ≤ 16
    → Trimmed v w r
    → read_control (control_bytes t r.1 ++ r.0) ≡ some (tag_code t, length r.0, r.0 ++ [])
Trimmed-reads t {r} ne h tr =
    control_reads t r.0 r.1 ne (omega (arith, tr.size-le_max)) ∙ rw tr.size_is_length

extended_reads :
    (e : ExtendedType) (p : List ℕ) (n : ℕ)
    → n < 29
    → read_control (control_bytes TypeTag.extended n ++ (extended_code e ∷ p))
      ≡ some (7 + extended_code e, n, p ++ [])
extended_reads e p n h = rw append-nil (read_control-extended e n p h)

extended-Trimmed_reads :
    (e : ExtendedType) {v w : ℕ} {r : List ℕ × ℕ}
    → w ≤ 16
    → Trimmed v w r
    → read_control (control_bytes TypeTag.extended r.1 ++ (extended_code e ∷ r.0))
      ≡ some (7 + extended_code e, length r.0, r.0 ++ [])
extended-Trimmed_reads e {r} h tr =
    extended_reads e r.0 r.1 (omega (arith, tr.size-le_max)) ∙ rw tr.size_is_length

length-le : {v w : ℕ} {r : List ℕ × ℕ} → Trimmed v w r → length r.0 ≤ w
length-le tr = omega (arith, tr.size_is_length, tr.size-le_max)

-- A header before a chunk.
Emits-header :
    {R S : List ℕ → List ℕ → List ℕ → Type 0} (c : List ℕ) (d : DataSection) {d' : DataSection}
    → Emits R (extend c d) d'
    → ((bs p : List ℕ) → R bs p [] → S bs (c ++ p) [])
    → Emits S d d'
unfolding extend
Emits-header c d em k = record {
  chunk = c ++ em.chunk;
  grows = em.grows ∙ append_assoc d.buf c em.chunk;
  reads = k _ em.chunk em.reads;
  sound = em.sound;
}

-- One emission after another.
Emits-then :
    {v : Value} {R S : List ℕ → List ℕ → List ℕ → Type 0} {d d' d'' : DataSection}
    → Emits (λ bs xs ys. Reads bs xs v ys) d d'
    → Emits R d' d''
    → ((bs xs ys : List ℕ) → Reads bs xs v ys → R bs ys [] → S bs xs [])
    → Emits S d d''
Emits-then {v} {d} {d'} {d''} a b k = record {
  chunk = a.chunk ++ b.chunk;
  grows = b.grows ∙ ap (λ xs. xs ++ b.chunk) a.grows ∙ append_assoc d.buf a.chunk b.chunk;
  reads =
      k _ (a.chunk ++ b.chunk) b.chunk
        (subst (λ bs. Reads bs (a.chunk ++ b.chunk) v b.chunk) (sym b.grows)
          (Reads-append b.chunk a.reads))
        b.reads;
  sound = b.sound;
}

array_reads :
    (n : ℕ) (p : List ℕ)
    → n < 29
    → read_control
        ((control_bytes TypeTag.extended n ++ (extended_code ExtendedType.array ∷ [])) ++ p)
      ≡ some (7 + extended_code ExtendedType.array, n, p)
array_reads n p h =
    ap read_control (append_assoc (control_bytes TypeTag.extended n) _ p)
    ∙ read_control-extended ExtendedType.array n p h

bool_small : (b : Bool) → (if b then 1 else 0) < 29
bool_small true = omega arith
bool_small false = omega arith

key-Emits :
    (k : List ℕ) (d : DataSection)
    → length k < size_limit
    → Sound d
    → length (write_blob TypeTag.utf8 k d).buf < 2 ^ 32
    → Emits (λ bs xs ys. Direct bs xs (string k) ys) d (write_blob TypeTag.utf8 k d)
unfolding tag_code
key-Emits k d ok snd h =
    rw (write_blob-extend TypeTag.utf8 k d)
      (Emits-extend _ d snd (λ bs. d_string k (control_reads TypeTag.utf8 k _ (cc) ok)))

-- A value and the fields behind it.
abbrev Tail : Value → Fields → List ℕ → List ℕ → List ℕ → Type 0
Tail v m bs xs ys = (zs : List ℕ) × Reads bs xs v zs × ReadsFields bs zs m ys

mutual
  unfolding encode IsEncodable tag_code extended_code write_extended write_control_byte

  -- `encode` appends bytes from which a reader finds the value.
  pub encode-Emits :
      (v : Value) (d : DataSection)
      → IsEncodable v
      → Sound d
      → length (encode v d).buf < 2 ^ 32
      → Emits (λ bs xs ys. Direct bs xs v ys) d (encode v d)
  encode-Emits (string s) d ok snd h =
      rw (write_blob-extend TypeTag.utf8 s d)
        (Emits-extend _ d snd (λ bs. d_string s (control_reads TypeTag.utf8 s _ (cc) ok)))
  encode-Emits (double x) d ok snd h = rw (payload-extend (be_bytes 8 x) TypeTag.double 8 d) (
      Emits-extend _ d snd (λ bs.
        d_double x (be_bytes 8 x) (control_reads TypeTag.double (be_bytes 8 x) 8 (cc) (omega arith))
          (length-be_bytes 8 x) (from_be-be_bytes 8 x ok)))
  encode-Emits (bytes b) d ok snd h =
      rw (write_blob-extend TypeTag.bytes b d)
        (Emits-extend _ d snd (λ bs. d_bytes b (control_reads TypeTag.bytes b _ (cc) ok)))
  encode-Emits (u16 n) d ok snd h =
      let tr = encode_uint_trimmed-Trimmed n 2 (omega arith) ok in
      rw (write_uint-extend TypeTag.uint16 n 2 d) (
        Emits-extend _ d snd (λ bs.
          d_u16 n _ (Trimmed-reads TypeTag.uint16 (cc) (omega arith) tr) (length-le tr)
            tr.value_back))
  encode-Emits (u32 n) d ok snd h =
      let tr = encode_uint_trimmed-Trimmed n 4 (omega arith) ok in
      rw (write_uint-extend TypeTag.uint32 n 4 d) (
        Emits-extend _ d snd (λ bs.
          d_u32 n _ (Trimmed-reads TypeTag.uint32 (cc) (omega arith) tr) (length-le tr)
            tr.value_back))
  encode-Emits (map m) d ok snd h =
      Emits-header (control_bytes TypeTag.map (fields_len m)) d
        (fields-Emits m _ ok.1 (Sound-extend _ d snd) h)
        (λ bs p r. d_map m (read_control-control_bytes TypeTag.map (fields_len m) p (cc) ok.0) r)
  encode-Emits (i32 n) d ok snd h =
      let tr = encode_i32_trimmed-Trimmed n in
      rw (extended_payload-extend ExtendedType.int32 _ _ d) (
        Emits-extend _ d snd (λ bs.
          d_i32 n _ (extended-Trimmed_reads ExtendedType.int32 (omega arith) tr) (length-le tr)
            (as_i32-encode_i32_trimmed n ok)))
  encode-Emits (u64 n) d ok snd h =
      let tr = encode_uint_trimmed-Trimmed n 8 (omega arith) ok in
      rw (extended_payload-extend ExtendedType.uint64 _ _ d) (
        Emits-extend _ d snd (λ bs.
          d_u64 n _ (extended-Trimmed_reads ExtendedType.uint64 (omega arith) tr) (length-le tr)
            tr.value_back))
  encode-Emits (u128 n) d ok snd h =
      let tr = encode_uint_trimmed-Trimmed n 16 (omega arith) ok in
      rw (extended_payload-extend ExtendedType.uint128 _ _ d) (
        Emits-extend _ d snd (λ bs.
          d_u128 n _ (extended-Trimmed_reads ExtendedType.uint128 (omega arith) tr) (length-le tr)
            tr.value_back))
  encode-Emits (array items) d ok snd h =
      let same = write_extended_header-extend ExtendedType.array (items_len items) d in
      let short = subst (λ s. length (encode_items items s).buf < 2 ^ 32) same h in
      rw same (
        Emits-header
          (control_bytes TypeTag.extended (items_len items)
            ++ (extended_code ExtendedType.array ∷ []))
          d (items-Emits items _ ok.1 (Sound-extend _ d snd) short)
          (λ bs p r. d_array items (array_reads (items_len items) p ok.0) r))
  encode-Emits (bool b) d ok snd h =
      rw (write_extended_header-extend ExtendedType.bool (if b then 1 else 0) d) (
        Emits-extend _ d snd
          (λ bs. d_bool b (read_control-extended ExtendedType.bool _ [] (bool_small b))))
  encode-Emits (float x) d ok snd h =
      rw (extended_payload-extend ExtendedType.float 4 (be_bytes 4 x) d) (
        Emits-extend _ d snd (λ bs.
          d_float x (be_bytes 4 x)
            (extended_reads ExtendedType.float (be_bytes 4 x) 4 (omega arith)) (length-be_bytes 4 x)
            (from_be-be_bytes 4 x ok)))

  items-Emits :
      (xs : Items) (d : DataSection)
      → ItemsAreEncodable xs
      → Sound d
      → length (encode_items xs d).buf < 2 ^ 32
      → Emits (λ bs ps ys. ReadsItems bs ps xs ys) d (encode_items xs d)
  items-Emits nil d ok snd h = record {
    chunk = [];
    grows = sym (append-nil d.buf);
    reads = no_items;
    sound = snd;
  }
  items-Emits (cons v xs) d ok snd h =
      let d' = emit_inline (encode v) v d in
      let e =
        emit_inline-Emits (encode v) v d snd (encode-Emits v d ok.0 snd)
          (omega (arith, items_le xs d')) in
      Emits-then e (items-Emits xs d' ok.1 e.sound h) (λ bs ps ys r rs. item r rs)

  fields-Emits :
      (m : Fields) (d : DataSection)
      → FieldsAreEncodable m
      → Sound d
      → length (encode_fields m d).buf < 2 ^ 32
      → Emits (λ bs xs ys. ReadsFields bs xs m ys) d (encode_fields m d)
  fields-Emits end d ok snd h = record {
    chunk = [];
    grows = sym (append-nil d.buf);
    reads = no_fields;
    sound = snd;
  }
  fields-Emits (field k v m) d ok snd h =
      let d' = emit_inline (write_blob TypeTag.utf8 k) (string k) d in
      let d'' = emit_inline (encode v) v d' in
      let le' = emit_inline-grows (encode v) v d' (encode_le v d') in
      let key =
        emit_inline-Emits (write_blob TypeTag.utf8 k) (string k) d snd (key-Emits k d ok.0 snd)
          (omega (arith, le', fields_le m d'')) in
      let e =
        emit_inline-Emits (encode v) v d' key.sound (encode-Emits v d' ok.1 key.sound)
          (omega (arith, fields_le m d'')) in
      let rest : Emits (Tail v m) d' (encode_fields m d'') =
        Emits-then e (fields-Emits m d'' ok.2 e.sound h) (λ bs xs ys r rs. (ys, r, rs)) in
      Emits-then key rest (λ bs xs ys r (zs, q, rs). entry r q rs)
