-- ===== src/DataSection/Push.antt =====
-- `push`: the offsets that it returns, and that they stay good.
use mmdb_writer.Base.{
  ℕ, ◌^◌, ◌<◌, ◌≡◌, sym, List, [], ◌∷◌, ◌++◌, none, inl, inr, length, Option-cases,
}
use mathlib.Core.List.{append-nil}
use mathlib.Core.Path.{subst}
use mmdb_writer.Value.{Value}
use mmdb_writer.DataSection.{DataSection, find, encode, emitted, push, new, without_pointers}
use mmdb_writer.DataSection.Bytes.{u32_len}
use mmdb_writer.DataSection.Emit.{Stands, Sound, Sound-cons, Emits-Stands}
use mmdb_writer.DataSection.RoundTrip.{encode-Emits}
use mmdb_writer.DataSection.Encodable.{IsEncodable}

-- What `push v` makes of `d`.
pub record Pushed (v : Value) (d : DataSection) (r : DataSection × ℕ) : Type 0 where
  pub chunk : List ℕ
  pub grows : r.0.buf ≡ d.buf ++ chunk
  pub stands : Stands r.0.buf v r.1
  pub sound : Sound r.0

push_fresh :
    (v : Value) (d : DataSection)
    → find d.dedup v ≡ none
    → push v d ≡ (
      record (encode v d) { dedup = (v, emitted d (encode v d)) ∷ (encode v d).dedup },
      u32_len d.buf,
    )
unfolding push
push_fresh v d e = rw (e, push)

fresh-Pushed :
    (v : Value) (d : DataSection)
    → IsEncodable v
    → Sound d
    → length (encode v d).buf < 2 ^ 32
    → Pushed v d (
      record (encode v d) { dedup = (v, emitted d (encode v d)) ∷ (encode v d).dedup },
      u32_len d.buf,
    )
unfolding emitted
fresh-Pushed v d ok snd h =
    let em = encode-Emits v d ok snd h in
    record {
      chunk = em.chunk;
      grows = em.grows;
      stands = Emits-Stands em h;
      sound = Sound-cons v (emitted d (encode v d)) (encode v d) em.sound (Emits-Stands em h);
    }

-- On a section whose table is sound, and if the section stays below 2^32 bytes, `push` of a value
-- with sizes that the format can express and arrays of fewer than 29 items returns an offset at
-- which a reader finds the value; it keeps the bytes that are there and the table sound.
pub push-Pushed :
    (v : Value) (d : DataSection)
    → IsEncodable v
    → Sound d
    → length (push v d).0.buf < 2 ^ 32
    → Pushed v d (push v d)
unfolding push
push-Pushed v d ok snd h = elim (Option-cases (find d.dedup v)) [
  | inl unknown ↦
      subst (Pushed v d) (sym (push_fresh v d unknown))
        (fresh-Pushed v d ok snd (subst (λ r. length r.0.buf < 2 ^ 32) (push_fresh v d unknown) h))
  | inr (e, known) ↦
      rw (known, push)
        (record { chunk = []; grows = sym (append-nil d.buf); stands = snd v e known; sound = snd })
]

-- The table of a new section is empty.
pub new-Sound : Sound new
unfolding new find
new-Sound v e h = cc

pub without_pointers-Sound : Sound without_pointers
unfolding without_pointers new find
without_pointers-Sound v e h = cc
