-- ===== src/Metadata.antt =====
-- src/metadata.rs: the metadata section. A string is its UTF-8 bytes, a map of strings the list of
-- its entries in key order.
pub mod Described
use mmdb_writer.Base.{
  ℕ, ◌^◌, ◌<◌, ◌≡◌, refl, Bool, true, false, none, List, [], ◌∷◌, if◌then◌else◌, length, min, ◌-◌,
  All, arith,
}
use mathlib.Core.Path.{subst}
use mmdb_writer.RecordSize.{RecordSize, bits24, bits28, bits32, bits, as_metadata}
use mmdb_writer.Value.{
  Value, string, u16, u32, map, u64, array, Items, nil, cons, Fields, end, field, items_len,
  fields_len,
}
use mmdb_writer.Value.Map.{insert_field, bytes_lt}
use mmdb_writer.DataSection
use mmdb_writer.DataSection.{DataSection, push, into_bytes, find}
use mmdb_writer.DataSection.Bytes.{u32_len, u32_from_usize}
use mmdb_writer.DataSection.Emit.{Stands, Sound}
use mmdb_writer.DataSection.Encodable.{IsEncodable, ItemsAreEncodable, FieldsAreEncodable}
use mmdb_writer.DataSection.Control.{size_limit}
use mmdb_writer.Value.{bytes_eq}
use mmdb_writer.DataSection.Push.{push-Pushed, new-Sound, without_pointers-Sound}
use mmdb_writer.Net.{IpVersion, v4, v6}
use mmdb_writer.Net

pub record Metadata : Type 0 where
  pub database_type : List ℕ
  pub description : List (List ℕ × List ℕ)
  pub languages : List (List ℕ)
  pub ip_version : IpVersion
  pub record_size : RecordSize
  pub node_count : ℕ
  pub build_epoch : ℕ
  pub disable_pointers : Bool

-- The names of the fields.
abbrev binary_format_major_version_key : List ℕ
binary_format_major_version_key =
    98 ∷ 105 ∷ 110 ∷ 97 ∷ 114 ∷ 121 ∷ 95 ∷ 102 ∷ 111 ∷ 114 ∷ 109 ∷ 97 ∷ 116 ∷ 95 ∷ 109 ∷ 97 ∷ 106
    ∷ 111 ∷ 114 ∷ 95 ∷ 118 ∷ 101 ∷ 114 ∷ 115 ∷ 105 ∷ 111 ∷ 110 ∷ []

abbrev binary_format_minor_version_key : List ℕ
binary_format_minor_version_key =
    98 ∷ 105 ∷ 110 ∷ 97 ∷ 114 ∷ 121 ∷ 95 ∷ 102 ∷ 111 ∷ 114 ∷ 109 ∷ 97 ∷ 116 ∷ 95 ∷ 109 ∷ 105 ∷ 110
    ∷ 111 ∷ 114 ∷ 95 ∷ 118 ∷ 101 ∷ 114 ∷ 115 ∷ 105 ∷ 111 ∷ 110 ∷ []

abbrev build_epoch_key : List ℕ
build_epoch_key = 98 ∷ 117 ∷ 105 ∷ 108 ∷ 100 ∷ 95 ∷ 101 ∷ 112 ∷ 111 ∷ 99 ∷ 104 ∷ []

abbrev database_type_key : List ℕ
database_type_key = 100 ∷ 97 ∷ 116 ∷ 97 ∷ 98 ∷ 97 ∷ 115 ∷ 101 ∷ 95 ∷ 116 ∷ 121 ∷ 112 ∷ 101 ∷ []

abbrev description_key : List ℕ
description_key = 100 ∷ 101 ∷ 115 ∷ 99 ∷ 114 ∷ 105 ∷ 112 ∷ 116 ∷ 105 ∷ 111 ∷ 110 ∷ []

abbrev ip_version_key : List ℕ
ip_version_key = 105 ∷ 112 ∷ 95 ∷ 118 ∷ 101 ∷ 114 ∷ 115 ∷ 105 ∷ 111 ∷ 110 ∷ []

abbrev languages_key : List ℕ
languages_key = 108 ∷ 97 ∷ 110 ∷ 103 ∷ 117 ∷ 97 ∷ 103 ∷ 101 ∷ 115 ∷ []

abbrev node_count_key : List ℕ
node_count_key = 110 ∷ 111 ∷ 100 ∷ 101 ∷ 95 ∷ 99 ∷ 111 ∷ 117 ∷ 110 ∷ 116 ∷ []

abbrev record_size_key : List ℕ
record_size_key = 114 ∷ 101 ∷ 99 ∷ 111 ∷ 114 ∷ 100 ∷ 95 ∷ 115 ∷ 105 ∷ 122 ∷ 101 ∷ []

-- The collected map has the keys of the source's in the same order.
unfoldable pub description_fields : List (List ℕ × List ℕ) → Fields
description_fields [] = end
description_fields ((lang, text) ∷ m) = field lang (string text) (description_fields m)

unfoldable pub language_items : List (List ℕ) → Items
language_items [] = nil
language_items (s ∷ languages) = cons (string s) (language_items languages)

-- The map that is encoded, by the insertions in the order of the source.
unfoldable pub metadata_map : Metadata → Value
unfolding insert_field as_metadata Net.metadata
metadata_map m = map (
    insert_field record_size_key (u16 (as_metadata m.record_size)) (
      insert_field node_count_key (u32 (min m.node_count (2 ^ 32 - 1))) (
        insert_field languages_key (array (language_items m.languages)) (
          insert_field ip_version_key (u16 (Net.metadata m.ip_version)) (
            insert_field description_key (map (description_fields m.description)) (
              insert_field database_type_key (string m.database_type) (
                insert_field build_epoch_key (u64 m.build_epoch) (
                  insert_field binary_format_minor_version_key (u16 0)
                    (insert_field binary_format_major_version_key (u16 2) end)))))))))

unfoldable pub to_bytes : Metadata → List ℕ
to_bytes m =
    into_bytes
      (push (metadata_map m)
        (if m.disable_pointers then DataSection.without_pointers else DataSection.new)).0

-- What the fields are as the types of the source have them, and sizes that the format can express.
pub record IsWritable (m : Metadata) : Type 0 where
  pub type_size : length m.database_type < size_limit
  pub epoch : m.build_epoch < 2 ^ 64
  pub languages_few : items_len (language_items m.languages) < 29
  pub language_sizes : All (λ s. length s < size_limit) m.languages
  pub descriptions : fields_len (description_fields m.description) < size_limit
  pub description_sizes :
      All (λ e. (length e.0 < size_limit) × (length e.1 < size_limit)) m.description

languages-IsEncodable :
    (xs : List (List ℕ))
    → All (λ s. length s < size_limit) xs
    → ItemsAreEncodable (language_items xs)
unfolding language_items IsEncodable
languages-IsEncodable [] a = tt
languages-IsEncodable (s ∷ xs) a = (a.0, languages-IsEncodable xs a.1)

descriptions-IsEncodable :
    (xs : List (List ℕ × List ℕ))
    → All (λ e. (length e.0 < size_limit) × (length e.1 < size_limit)) xs
    → FieldsAreEncodable (description_fields xs)
unfolding description_fields IsEncodable
descriptions-IsEncodable [] a = tt
descriptions-IsEncodable (e ∷ xs) a = (a.0.0, a.0.1, descriptions-IsEncodable xs a.1)

record_size-small : (r : RecordSize) → as_metadata r < 2 ^ 16
unfolding as_metadata bits
record_size-small bits24 = omega arith
record_size-small bits28 = omega arith
record_size-small bits32 = omega arith

ip_version-small : (v : IpVersion) → Net.metadata v < 2 ^ 16
unfolding Net.metadata
ip_version-small v4 = omega arith
ip_version-small v6 = omega arith

metadata_map-IsEncodable : (m : Metadata) → IsWritable m → IsEncodable (metadata_map m)
unfolding metadata_map insert_field bytes_eq bytes_lt IsEncodable
metadata_map-IsEncodable m w = (
  omega arith,
  (
    omega arith,
    omega arith,
    (
      omega arith,
      omega arith,
      (
        omega arith,
        w.epoch,
        (
          omega arith,
          w.type_size,
          (
            omega arith,
            (w.descriptions, descriptions-IsEncodable m.description w.description_sizes),
            (
              omega arith,
              ip_version-small m.ip_version,
              (
                omega arith,
                (w.languages_few, languages-IsEncodable m.languages w.language_sizes),
                (omega arith, omega arith, (omega arith, record_size-small m.record_size, tt)),
              ),
            ),
          ),
        ),
      ),
    ),
  ),
)

push_first : (v : Value) (d : DataSection) → d.buf ≡ [] → find d.dedup v ≡ none → (push v d).1 ≡ 0
unfolding push u32_len u32_from_usize
push_first v d e f = rw (f, push, e) refl

abbrev empty_section : Bool → DataSection
empty_section disable_pointers =
    if disable_pointers then DataSection.without_pointers else DataSection.new

empty_section-Sound : (b : Bool) → Sound (empty_section b)
empty_section-Sound true = without_pointers-Sound
empty_section-Sound false = new-Sound

empty_section_buf : (b : Bool) → (empty_section b).buf ≡ []
unfolding DataSection.without_pointers DataSection.new
empty_section_buf true = refl
empty_section_buf false = refl

find-empty_section : (b : Bool) (v : Value) → find (empty_section b).dedup v ≡ none
unfolding DataSection.without_pointers DataSection.new find
find-empty_section true v = refl
find-empty_section false v = refl

-- If the fields have sizes that the format can express and there are fewer than 29 languages, a
-- reader of the metadata section, if that is below 2^32 bytes, finds the map of the fields at its
-- start, whether pointers are disabled or not.
pub to_bytes-Stands :
    (m : Metadata)
    → IsWritable m
    → length (to_bytes m) < 2 ^ 32
    → Stands (to_bytes m) (metadata_map m) 0
unfolding to_bytes into_bytes
to_bytes-Stands m w h =
    let d = empty_section m.disable_pointers in
    subst (Stands (push (metadata_map m) d).0.buf (metadata_map m))
      (push_first (metadata_map m) d (empty_section_buf m.disable_pointers)
        (find-empty_section m.disable_pointers (metadata_map m)))
      (push-Pushed (metadata_map m) d (metadata_map-IsEncodable m w)
        (empty_section-Sound m.disable_pointers) h).stands
