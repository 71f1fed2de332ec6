-- ===== src/Metadata/Described.antt =====
-- What the metadata section (src/metadata.rs) says, in the words of the format and without the
-- encoder: the names of the fields are spelled out again.
use mmdb_writer.Base.{
  ◌-◌, ap, min, ℕ, ◌^◌, ◌<◌, ◌≡◌, refl, Option, none, some, List, [], ◌∷◌, if◌then◌else◌, ltb, min,
  length, inl, inr, Bool-cases, arith,
}
use mmdb_writer.RecordSize.{RecordSize, bits24, bits28, bits32, bits, as_metadata}
use mmdb_writer.Value.{
  Value, string, u16, u32, map, u64, array, Items, nil, cons, Fields, end, fields_len, bytes_eq,
}
use mmdb_writer.Value.Map.{get_field, insert_field, bytes_lt}
use mmdb_writer.DataSection.Emit.{Stands}
use mmdb_writer.Net.{IpVersion, v4, v6}
use mmdb_writer.Net
use mmdb_writer.Metadata.{
  Metadata, description_fields, language_items, metadata_map, to_bytes, IsWritable, to_bytes-Stands,
}

abbrev binary_format_major_version : List ℕ
binary_format_major_version =
    b'b' ∷ b'i' ∷ b'n' ∷ b'a' ∷ b'r' ∷ b'y' ∷ b'_' ∷ b'f' ∷ b'o' ∷ b'r' ∷ b'm' ∷ b'a' ∷ b't' ∷ b'_'
    ∷ b'm' ∷ b'a' ∷ b'j' ∷ b'o' ∷ b'r' ∷ b'_' ∷ b'v' ∷ b'e' ∷ b'r' ∷ b's' ∷ b'i' ∷ b'o' ∷ b'n' ∷ []

abbrev binary_format_minor_version : List ℕ
binary_format_minor_version =
    b'b' ∷ b'i' ∷ b'n' ∷ b'a' ∷ b'r' ∷ b'y' ∷ b'_' ∷ b'f' ∷ b'o' ∷ b'r' ∷ b'm' ∷ b'a' ∷ b't' ∷ b'_'
    ∷ b'm' ∷ b'i' ∷ b'n' ∷ b'o' ∷ b'r' ∷ b'_' ∷ b'v' ∷ b'e' ∷ b'r' ∷ b's' ∷ b'i' ∷ b'o' ∷ b'n' ∷ []

abbrev build_epoch : List ℕ
build_epoch = b'b' ∷ b'u' ∷ b'i' ∷ b'l' ∷ b'd' ∷ b'_' ∷ b'e' ∷ b'p' ∷ b'o' ∷ b'c' ∷ b'h' ∷ []

abbrev database_type : List ℕ
database_type =
    b'd' ∷ b'a' ∷ b't' ∷ b'a' ∷ b'b' ∷ b'a' ∷ b's' ∷ b'e' ∷ b'_' ∷ b't' ∷ b'y' ∷ b'p' ∷ b'e' ∷ []

abbrev description : List ℕ
description = b'd' ∷ b'e' ∷ b's' ∷ b'c' ∷ b'r' ∷ b'i' ∷ b'p' ∷ b't' ∷ b'i' ∷ b'o' ∷ b'n' ∷ []

abbrev ip_version : List ℕ
ip_version = b'i' ∷ b'p' ∷ b'_' ∷ b'v' ∷ b'e' ∷ b'r' ∷ b's' ∷ b'i' ∷ b'o' ∷ b'n' ∷ []

abbrev languages : List ℕ
languages = b'l' ∷ b'a' ∷ b'n' ∷ b'g' ∷ b'u' ∷ b'a' ∷ b'g' ∷ b'e' ∷ b's' ∷ []

abbrev node_count : List ℕ
node_count = b'n' ∷ b'o' ∷ b'd' ∷ b'e' ∷ b'_' ∷ b'c' ∷ b'o' ∷ b'u' ∷ b'n' ∷ b't' ∷ []

abbrev record_size : List ℕ
record_size = b'r' ∷ b'e' ∷ b'c' ∷ b'o' ∷ b'r' ∷ b'd' ∷ b'_' ∷ b's' ∷ b'i' ∷ b'z' ∷ b'e' ∷ []

abbrev version_number : IpVersion → ℕ
version_number v4 = 4
version_number v6 = 6

abbrev record_bits : RecordSize → ℕ
record_bits bits24 = 24
record_bits bits28 = 28
record_bits bits32 = 32

-- The text for a language.
abbrev pub text_of : List ℕ → List (List ℕ × List ℕ) → Option Value
text_of lang [] = none
text_of lang ((l, text) ∷ texts) =
    if bytes_eq lang l then some (string text) else text_of lang texts

-- The items are these strings.
abbrev pub AreStrings : List (List ℕ) → Items → Type 0
AreStrings [] nil = Unit {0}
AreStrings (s ∷ strings) (cons (string t) items) = (s ≡ t) × AreStrings strings items
AreStrings _ _ = ⊥

-- The fields say what the metadata is, and nothing else. A count of nodes from 2^32 on is the
-- largest 32-bit number.
pub record Describes (m : Metadata) (fields : Fields) : Type 0 where
  pub major : get_field binary_format_major_version fields ≡ some (u16 2)
  pub minor : get_field binary_format_minor_version fields ≡ some (u16 0)
  pub epoch : get_field build_epoch fields ≡ some (u64 m.build_epoch)
  pub type_name : get_field database_type fields ≡ some (string m.database_type)
  pub version : get_field ip_version fields ≡ some (u16 (version_number m.ip_version))
  pub size : get_field record_size fields ≡ some (u16 (record_bits m.record_size))
  pub count :
      get_field node_count fields
      ≡ some (u32 (if ltb m.node_count (2 ^ 32) then m.node_count else 2 ^ 32 - 1))
  pub texts : Fields
  pub texts_is : get_field description fields ≡ some (map texts)
  pub text : (lang : List ℕ) → get_field lang texts ≡ text_of lang m.description
  pub names : Items
  pub names_is : get_field languages fields ≡ some (array names)
  pub are_names : AreStrings m.languages names
  pub no_more : fields_len fields ≡ 9

-- A reader finds a map at the start of the bytes, and it describes the metadata.
abbrev pub IsMetadata : Metadata → List ℕ → Type 0
IsMetadata m bytes = (fields : Fields) × Stands bytes (map fields) 0 × Describes m fields

get_field-description :
    (lang : List ℕ) (texts : List (List ℕ × List ℕ))
    → get_field lang (description_fields texts) ≡ text_of lang texts
unfolding get_field description_fields
get_field-description lang [] = refl
get_field-description lang ((l, text) ∷ texts) = elim (Bool-cases (bytes_eq lang l)) [
  | inl e ↦ rw e refl
  | inr e ↦ rw e (get_field-description lang texts)
]

languages-AreStrings : (strings : List (List ℕ)) → AreStrings strings (language_items strings)
unfolding language_items
languages-AreStrings [] = tt
languages-AreStrings (s ∷ strings) = (refl, languages-AreStrings strings)

version_same : (v : IpVersion) → Net.metadata v ≡ version_number v
unfolding Net.metadata
version_same v4 = refl
version_same v6 = refl

size_same : (r : RecordSize) → as_metadata r ≡ record_bits r
unfolding as_metadata bits
size_same bits24 = refl
size_same bits28 = refl
size_same bits32 = refl

capped : (n : ℕ) → min n (2 ^ 32 - 1) ≡ (if ltb n (2 ^ 32) then n else 2 ^ 32 - 1)
capped n = ground arith

-- The fields of the map.
abbrev fields_of : Value → Fields
fields_of (map m) = m
fields_of _ = end

metadata_map-Describes : (m : Metadata) → Describes m (fields_of (metadata_map m))
unfolding metadata_map insert_field bytes_eq bytes_lt get_field
metadata_map-Describes m = record {
  major = refl;
  minor = refl;
  epoch = refl;
  type_name = refl;
  version = ap (λ n. some (u16 n)) (version_same m.ip_version);
  size = ap (λ n. some (u16 n)) (size_same m.record_size);
  count = ap (λ n. some (u32 n)) (capped m.node_count);
  texts = description_fields m.description;
  texts_is = refl;
  text = λ lang. get_field-description lang m.description;
  names = language_items m.languages;
  names_is = refl;
  are_names = languages-AreStrings m.languages;
  no_more = refl;
}

-- If the fields have sizes that the format can express, there are fewer than 29 languages and the
-- section is below 2^32 bytes, a reader of the section finds a map at its start, whether pointers
-- are disabled or not. It has nine fields: the version 2.0 of the format, the epoch, the name of
-- the type, the version 4 or 6 of the addresses, the bits of a record, the count of the nodes, at
-- most 2^32 - 1, the text of each language that the description has, and the languages in their
-- order.
pub to_bytes-IsMetadata :
    (m : Metadata) → IsWritable m → length (to_bytes m) < 2 ^ 32 → IsMetadata m (to_bytes m)
unfolding metadata_map
to_bytes-IsMetadata m w small =
    (fields_of (metadata_map m), to_bytes-Stands m w small, metadata_map-Describes m)
