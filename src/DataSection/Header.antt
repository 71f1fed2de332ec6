-- ===== src/DataSection/Header.antt =====
-- src/data_section.rs: what a reader finds where write_extended_header was called.
use mathlib.Core.List.{append_assoc}
use mathlib.Core.Path.{◌∙◌}
use mmdb_writer.Base.{ℕ, ◌+◌, ◌-◌, ◌≤◌, ◌<◌, ◌≡◌, refl, ap, some, List, [], ◌∷◌, ◌++◌, length, drop}
use mmdb_writer.DataSection.{DataSection, extend, write_extended_header}
use mmdb_writer.DataSection.Tags.{TypeTag, ExtendedType, extended_code}
use mmdb_writer.DataSection.Bytes.{control_bytes}
use mmdb_writer.DataSection.Control.{read_control-extended_wide}
use mmdb_writer.DataSection.Emit.{write_extended_header-extend}
use mmdb_writer.DataSection.Reader.{read_control}

-- What the header and `rest` add to the section.
abbrev pub headed : ExtendedType → ℕ → List ℕ → DataSection → List ℕ
headed e size rest d = drop (length d.buf) (extend rest (write_extended_header e size d)).buf

headed-control_bytes :
    (e : ExtendedType) (size : ℕ) (rest : List ℕ) (d : DataSection)
    → headed e size rest d ≡ control_bytes TypeTag.extended size ++ (extended_code e ∷ rest)
unfolding extend
headed-control_bytes e size rest d =
    let header = control_bytes TypeTag.extended size ++ (extended_code e ∷ []) in
    ap (λ (s : DataSection). drop (length d.buf) (s.buf ++ rest))
      (write_extended_header-extend e size d)
    ∙ ap (drop (length d.buf)) (append_assoc d.buf header rest)
    ∙ after_buf d.buf (header ++ rest)
    ∙ append_assoc (control_bytes TypeTag.extended size) (extended_code e ∷ []) rest
  where
    after_buf : (xs ys : List ℕ) → drop (length xs) (xs ++ ys) ≡ ys
    after_buf [] ys = refl
    after_buf (x ∷ xs) ys = after_buf xs ys

-- Where write_extended_header was called with a size from 29 to 284, and whatever is pushed behind
-- it, a reader of the format takes the byte of the size for the one of the type: it finds the type
-- number `size - 22` and the size 29 + `ext`, where the call was for the type number 7 + `ext`.
pub read_control-write_extended_header :
    (e : ExtendedType) (size : ℕ) (rest : List ℕ) (d : DataSection)
    → 29 ≤ size
    → size < 285
    → read_control (drop (length d.buf) (extend rest (write_extended_header e size d)).buf)
      ≡ some (size - 22, 29 + extended_code e, rest)
read_control-write_extended_header e size rest d lo hi =
    ap read_control (headed-control_bytes e size rest d)
    ∙ read_control-extended_wide e size rest lo hi
