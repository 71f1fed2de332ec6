-- ===== src/Lib.antt =====
-- A model of mmdb-writer, a library that writes MaxMind DB files: it collects values for IP networks
-- and makes of them a file of a binary search tree, a data section and a metadata section.
--
-- The program's parts and their files. A writer (src/writer.rs, Writer) checks the network of an
-- insertion against the aliased and the reserved networks (src/net.rs, src/reserved.rs: Net, Reserved),
-- turns it into a 128-bit word and a prefix length, numbers the value in a pool (src/pool.rs, Pool) and
-- inserts the number into the search tree (src/tree.rs, Tree). To build the file it installs the IPv4
-- aliases in the tree, compacts it (Tree/Compact), encodes the values that are still reachable
-- (src/data_section.rs, DataSection), picks a record size (src/record_size.rs, RecordSize), serializes
-- the tree (Tree/Serialize) and appends the metadata (src/metadata.rs, Metadata).
--
--   Base           names that all modules share, Boolean tests, lists over native numbers
--   RecordSize     RecordSize and its constants
--   Value          Value of src/value.rs; Value/Equality its PartialEq, Value/Map its BTreeMap,
--                  Value/Merge merge_top_level and merge_deep, Value/Typed what Rust's types can hold,
--                  Value/From the conversions, Value::map and Value::array;
--                  Value/Serde is src/value/serde_impls.rs
--   Ser            the serializer of src/ser.rs; Ser/Model what it is given, Ser/Accepted which of it it is
--                  to accept, Ser/Struct the entries of a struct, Ser/Conversions how From and Value::map
--                  compare with it
--   DataSection    push, emit_inline, encode and the writers of bytes; DataSection/Bytes the encodings of
--                  sizes, pointers and integers, DataSection/Tags the type numbers. DataSection/Reader
--                  and DataSection/Format describe a reader of the format, independently of the
--                  encoder; Emit, RoundTrip, Push and Header are about what it finds.
--   Tree           insert, install_ipv4_aliases, paint_reserved and get over a vector of nodes; Tree/Run
--                  the records, the nodes and the commands on them. Tree/Trie says which tree a vector
--                  stands for and which leaf an address leads to; Tree/Insert is about what insert does to
--                  it, Tree/Update about its meaning and Tree/Moved about the vector; Tree/Marked and
--                  Tree/Marker are about install_marker.
--   Tree/Serialize encode_record, write_record_pair, serialize, fits_record_size, reachable_data_ids;
--                  Tree/Serialize/Reader is a reader of the tree's bytes.
--   Tree/Compact   compact, with Tree/Compact/Renumber for what renumber_reachable finds and
--                  Tree/Compact/Whole for all of it
--   Net            IpVersion; Net/Range the decomposition of a range, Net/Networks to_tree_prefix,
--                  alias_networks and range_to_networks, Net/Families the networks of a range
--   Reserved, Options, Error, Metadata, Pool   the files of the same names; Metadata/Described says what the
--                  metadata are to be
--   Writer         builder, insert_value, insert_with, insert_value_merged and insert_range;
--                  Writer/Build the build, with Writer/Build/Values for its data section,
--                  Writer/Build/Assembled and Writer/Build/Built for what the file answers; Writer/Get
--                  the lookup, Writer/Calls the defaults and the insertions of serde values. Writer/Sound says when a writer is a map from addresses to
--                  values, Writer/Wrote and Writer/Ranges what insertions make of it, Writer/Reach which
--                  writers are reached.
--   Load           Writer::load of src/load.rs; Load/Networks and Load/Whole are about what it loads
--   Examples       runs of the definitions and the theorems at concrete inputs
--
-- How state and effects are modelled. A function that takes &mut self takes the state and returns it.
-- The commands of the tree are functions from the nodes and the state of the caller's closure to a Run:
-- a value, an error, a panic (an index out of bounds) or, where the recursion takes fuel, the end of the
-- fuel, which is no behaviour of the program. Machine integers are natural numbers with the casts and
-- shifts of the source written out. A hash map is an association list, a BTreeMap the list of its
-- entries in key order, a string its UTF-8 bytes, a float its bits.
--
-- Bounds and fuel. insert_at_node and compact_node have fuel for 129 levels, and no node is deeper than
-- 128. The loop of a range has fuel for one round per address, and each round raises the start.
-- renumber_reachable has fuel for two pushes per node. Builds with and without overflow checks are told
-- apart in the decomposition of ranges, where both are modelled; the debug assertion on lengths in
-- src/data_section.rs is left out.
--
-- Not modelled: Writer::write_to and the other calls that hand bytes to a stream or read them from a
-- file, and the hashing of values. Code of other crates is a parameter: the networks of
-- ipnet are the record Ipnet of Net/Networks, with their documented behaviour as IpnetLaws; the reader of
-- maxminddb is what it makes of the bytes, a Database of Load; a value of serde is the calls that it makes
-- on the serializer (Ser/Model), a deserializer those that it makes on the visitor (Value/Serde).
pub mod Base
pub mod RecordSize
pub mod Value
pub mod DataSection
pub mod Tree
pub mod Error
pub mod Options
pub mod Net
pub mod Reserved
pub mod Pool
pub mod Metadata
pub mod Ser
pub mod Writer
pub mod Load
pub mod Examples
