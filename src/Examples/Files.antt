-- ===== src/Examples/Files.antt =====
-- The theorems on the parts of the file at concrete inputs.
use mmdb_writer.Metadata.Described.{IsMetadata, to_bytes-IsMetadata}
use mmdb_writer.Base.{◌≡◌, false, [], ◌∷◌, none, refl, arith, length}
use mmdb_writer.RecordSize.{bits28, bits, as_metadata}
use mmdb_writer.Value.{value_eq, bytes_eq, int_eq, bool_eq}
use mmdb_writer.Value.Map.{insert_field, bytes_lt}
use mmdb_writer.Net
use mmdb_writer.Net.{v6}
use mmdb_writer.DataSection
use mmdb_writer.DataSection.{
  into_bytes, push, find, encode, emitted, emit_inline, write_blob, write_uint,
  write_extended_header, write_extended, write_control_byte, write_pointer, extend, or_insert,
}
use mmdb_writer.DataSection.Tags.{tag_code, extended_code}
use mmdb_writer.DataSection.Bytes.{
  u32_len, be_bytes, leading_zeros, as_u32, u32_from_usize, pointer_bytes, control_bytes,
  pointer_encoding, encode_uint_trimmed, encode_i32_trimmed,
}
use mmdb_writer.Metadata.{
  Metadata, metadata_map, to_bytes, IsWritable, language_items, description_fields,
}
use mmdb_writer.Tree
use mmdb_writer.Writer.{pick_record_size}
use mmdb_writer.Writer.RecordSizes.{IsBest, pick_record_size-IsBest}

-- "Test", in English and without descriptions.
abbrev plain : Metadata
plain = record {
  database_type = 84 ∷ 101 ∷ 115 ∷ 116 ∷ [];
  description = [];
  languages = (101 ∷ 110 ∷ []) ∷ [];
  ip_version = v6;
  record_size = bits28;
  node_count = 1;
  build_epoch = 1;
  disable_pointers = false;
}

plain-IsWritable : IsWritable plain
unfolding language_items description_fields
plain-IsWritable = record {
  type_size = omega arith;
  epoch = omega arith;
  languages_few = omega arith;
  language_sizes = (omega arith, tt);
  descriptions = omega arith;
  description_sizes = tt;
}

plain_size : length (to_bytes plain) ≡ 162
unfolding to_bytes metadata_map insert_field bytes_lt language_items description_fields as_metadata
    bits Net.metadata into_bytes push find encode emitted emit_inline write_blob write_uint
    write_extended_header write_extended write_control_byte write_pointer DataSection.new extend
    value_eq encode_uint_trimmed encode_i32_trimmed control_bytes pointer_encoding u32_len tag_code
    extended_code be_bytes leading_zeros or_insert pointer_bytes as_u32 bytes_eq int_eq bool_eq
    u32_from_usize
plain_size = refl

to_bytes-IsMetadata_example : IsMetadata plain (to_bytes plain)
to_bytes-IsMetadata_example = to_bytes-IsMetadata plain plain-IsWritable (omega (arith, plain_size))

pick_record_size-IsBest_example : IsBest Tree.new 40 (pick_record_size Tree.new 40 none)
pick_record_size-IsBest_example = pick_record_size-IsBest Tree.new 40
