-- ===== src/Examples/Writers.antt =====
-- The theorems on writers and on markers at concrete inputs.
use mmdb_writer.Base.{
  ltb→lt, ◌-◌, ℕ, ◌*◌, ◌^◌, ◌≡◌, refl, ◌↔◌, true, Option, none, some, List, [], ◌∷◌, inl, arith,
}
use mmdb_writer.RecordSize.{bits28, as_metadata, bits}
use mmdb_writer.Value.{Value, u32}
use mmdb_writer.Value.Serde.{Visit, visit}
use mmdb_writer.Error.{of_tree, Result, ok}
use mmdb_writer.Options.{is_enabled, is_excluded}
use mmdb_writer.Net.Range.{
  done, range_to_cidrs, range_loop, align_bits, shrink, next_start, shl_one, add_u128, max_for_bits,
  trailing_zeros,
}
use mmdb_writer.Net.Range.Cover.{in_range}
use mmdb_writer.Net.Families.{in_net}
use mmdb_writer.Net.Networks.{
  IpNet, NetError, net4, net6, addr_v4, addr_v6, alias_networks, networks4, networks6, contains,
  range_to_networks,
}
use mmdb_writer.Reserved
use mmdb_writer.Pool
use mmdb_writer.Tree
use mmdb_writer.Tree.{install_marker}
use mmdb_writer.Tree.Trie.{blocked, leaf_record}
use mmdb_writer.Tree.Returns.{Returns}
use mmdb_writer.Tree.Insert.{new-IsTree}
use mmdb_writer.Tree.Marker.{Painted, install_marker-Returns}
use mmdb_writer.Writer.{
  Writer, Outcome, returned, panics, stuck, ensure_insertable, insert_value, insert_range,
}
use mmdb_writer.Writer.Calls.{default_options}
use mmdb_writer.Writer.Get.{get}
use mmdb_writer.Writer.Stored.{Succeeds}
use mmdb_writer.Writer.Sound.{IsSound, Wrote, fresh}
use mmdb_writer.Writer.Wrote.{insert_value-Wrote}
use mmdb_writer.Writer.Ranges.{insert_range4-Wrote, insert_range6-Wrote}
use mmdb_writer.Writer.Reach.{start, next, inserted, get-Reach, default_options-IsSound}
use mmdb_writer.Load.{
  DatabaseMetadata, Item, entry, Database, record_size_from, loaded_options, load_bytes, item_entry,
  new_net,
}
use mmdb_writer.Load.Networks.{Loads}
use mmdb_writer.Load.Whole.{Loaded, load_bytes-Loaded, record_size_from-as_metadata}
use mmdb_writer.Examples.Networks.{ipnet, ipnet_laws, Network, eleven, leb→le}

abbrev plain : Writer
plain = default_options []

plain_sound : IsSound plain
plain_sound = default_options-IsSound []

room : Pool.HasRoom (u32 7) plain.pool
unfolding default_options Pool.new
room = inl (omega arith)

eleven_open : ensure_insertable ipnet (net4 eleven) plain ≡ done none
unfolding ensure_insertable alias_networks networks4 networks6 contains Reserved.networks is_enabled
    is_excluded default_options
eleven_open = refl

insert_value-Wrote_example :
    Succeeds of_tree
      (Wrote (λ addr. in_net ipnet addr (net4 eleven)) (u32 7) plain)
      (insert_value ipnet (net4 eleven) (u32 7) plain)
insert_value-Wrote_example =
    insert_value-Wrote ipnet ipnet_laws (net4 eleven) (u32 7) plain plain_sound room eleven_open

-- The writer that a call leaves.
left_by : Outcome (NetError ipnet) (Unit {0}) → Writer
left_by (returned r w) = w
left_by panics = plain
left_by stuck = plain

holds_eleven : Writer
holds_eleven = left_by (insert_value ipnet (net4 eleven) (u32 7) plain)

eleven_inserted : insert_value ipnet (net4 eleven) (u32 7) plain ≡ returned (ok tt) holds_eleven
unfolding left_by holds_eleven insert_value mmdb_writer.Writer.guarded ensure_insertable
    alias_networks networks6 Reserved.networks default_options networks4 is_enabled contains
    is_excluded mmdb_writer.Net.Networks.to_tree_prefix Pool.intern Pool.index_get Pool.new
    mmdb_writer.Writer.of_run Tree.insert Tree.insert_at_node mmdb_writer.Tree.Run.alloc_node
    mmdb_writer.Tree.Run.child mmdb_writer.Tree.Run.load mmdb_writer.Tree.Run.set_child
    mmdb_writer.Tree.Run.with_child Tree.bit_at Tree.call Tree.collapse Tree.insert_at_record
    Tree.insert_into Tree.insert_step Tree.is_leaf_record Tree.new Tree.record_eq
    Tree.try_merge_node mmdb_writer.Value.bool_eq mmdb_writer.Value.bytes_eq
    mmdb_writer.Value.int_eq mmdb_writer.Value.value_eq mmdb_writer.Writer.Calls.default_languages
eleven_inserted = refl

get-Reach_example : (v : Option Value) × (get ipnet (addr_v4 (11 * 2 ^ 24)) holds_eleven ≡ done v)
get-Reach_example =
    get-Reach ipnet ipnet_laws [] holds_eleven
      (next start (inserted (net4 eleven) (u32 7) eleven_inserted)) (addr_v4 (11 * 2 ^ 24))
      (omega arith)

install_marker-Returns_example :
    Returns
      (Painted (10 * 2 ^ 24) blocked 104 Tree.new new-IsTree)
      (install_marker (10 * 2 ^ 24) 104 (leaf_record blocked) Tree.new tt)
install_marker-Returns_example =
    install_marker-Returns (10 * 2 ^ 24) blocked 104 Tree.new tt new-IsTree (omega arith)
      (omega arith) (omega arith)

record_size_from-as_metadata_example :
    (record_size_from ipnet 28 ≡ ok bits28) ↔ (as_metadata bits28 ≡ 28)
record_size_from-as_metadata_example = record_size_from-as_metadata ipnet 28 bits28

-- 11.0.0.0 to 11.255.255.255, which is 11.0.0.0/8.
abbrev eleven_block : Network 32
eleven_block = record {
  addr = 11 * 2 ^ 24;
  len = 8;
  addr-lt = ltb→lt (11 * 2 ^ 24) (2 ^ 32) refl;
  len-le = leb→le 8 32 refl;
}

eleven_split :
    range_to_networks ipnet true (addr_v4 (11 * 2 ^ 24)) (addr_v4 (12 * 2 ^ 24 - 1))
    ≡ done (ok (net4 eleven_block ∷ []))
unfolding range_to_networks range_to_cidrs range_loop align_bits shrink next_start shl_one add_u128
    max_for_bits trailing_zeros networks4
eleven_split = refl

eleven_block_open : ensure_insertable ipnet (net4 eleven_block) plain ≡ done none
unfolding ensure_insertable alias_networks networks4 networks6 contains Reserved.networks is_enabled
    is_excluded default_options
eleven_block_open = refl

insert_range4-Wrote_example :
    Succeeds of_tree
      (Wrote (in_range (11 * 2 ^ 24) (12 * 2 ^ 24 - 1)) (u32 7) plain)
      (insert_range ipnet true (addr_v4 (11 * 2 ^ 24)) (addr_v4 (12 * 2 ^ 24 - 1)) (u32 7) plain)
insert_range4-Wrote_example =
    insert_range4-Wrote ipnet ipnet_laws true (11 * 2 ^ 24) (12 * 2 ^ 24 - 1) (u32 7) plain
      plain_sound room (net4 eleven_block ∷ []) eleven_split (eleven_block_open, tt) (omega arith)
      (omega arith)

-- 2001:db8::/32
abbrev documentation : ℕ
documentation = 0x20010db8 * 2 ^ 96

abbrev documentation_end : ℕ
documentation_end = 0x20010db9 * 2 ^ 96 - 1

abbrev documentation_block : Network 128
documentation_block = record {
  addr = documentation;
  len = 32;
  addr-lt = ltb→lt documentation (2 ^ 128) refl;
  len-le = leb→le 32 128 refl;
}

documentation_split :
    range_to_networks ipnet true (addr_v6 documentation) (addr_v6 documentation_end)
    ≡ done (ok (net6 documentation_block ∷ []))
unfolding range_to_networks range_to_cidrs range_loop align_bits shrink next_start shl_one add_u128
    max_for_bits trailing_zeros networks6
documentation_split = refl

documentation_open : ensure_insertable ipnet (net6 documentation_block) plain ≡ done none
unfolding ensure_insertable alias_networks networks4 networks6 contains Reserved.networks is_enabled
    is_excluded default_options
documentation_open = refl

insert_range6-Wrote_example :
    Succeeds of_tree
      (Wrote (in_range documentation documentation_end) (u32 7) plain)
      (insert_range ipnet true (addr_v6 documentation) (addr_v6 documentation_end) (u32 7) plain)
insert_range6-Wrote_example =
    insert_range6-Wrote ipnet ipnet_laws true documentation documentation_end (u32 7) plain
      plain_sound room (net6 documentation_block ∷ []) documentation_split (documentation_open, tt)
      (omega arith) (omega arith) (λ z. absurd (omega arith))

-- A database with one network and its value, and with one without data.
abbrev item_list : List (Item ipnet)
item_list =
    entry (ok (some (Visit.u32 7))) (ok (addr_v4 (11 * 2 ^ 24), 8))
    ∷ entry (ok none) (ok (addr_v4 0, 8))
    ∷ []

abbrev small_metadata : DatabaseMetadata
small_metadata = record {
  ip_version = 6;
  build_epoch = 0;
  description = [];
  database_type = [];
  languages = [];
  record_size = 28;
}

abbrev small_database : Database ipnet
small_database = record { metadata = small_metadata; networks = ok item_list }

abbrev entry_list : List (IpNet ipnet × Value)
entry_list = (net4 eleven_block, u32 7) ∷ []

first_entry :
    item_entry ipnet (entry (ok (some (Visit.u32 7))) (ok (addr_v4 (11 * 2 ^ 24), 8)))
    ≡ ok (some (net4 eleven_block, u32 7))
unfolding item_entry visit new_net
first_entry = refl

second_entry : item_entry ipnet (entry (ok none) (ok (addr_v4 0, 8))) ≡ ok none
unfolding item_entry
second_entry = refl

loaded_open :
    ensure_insertable ipnet (net4 eleven_block) (loaded_options ipnet small_metadata bits28 0)
    ≡ done none
unfolding ensure_insertable alias_networks networks4 networks6 contains Reserved.networks is_enabled
    is_excluded loaded_options default_options
loaded_open = refl

abbrev reads : List ℕ → Result (List ℕ) (Database ipnet)
reads input = ok small_database

load_bytes-Loaded_example :
    Loads ipnet
      (Loaded ipnet (loaded_options ipnet small_metadata bits28 0) entry_list)
      item_list
      (fresh (loaded_options ipnet small_metadata bits28 0))
      (load_bytes ipnet reads [])
unfolding as_metadata bits
load_bytes-Loaded_example =
    load_bytes-Loaded ipnet ipnet_laws reads [] small_database item_list entry_list bits28 refl refl
      (some _, first_entry, [], (none, second_entry, [], refl, refl), refl)
      (λ e. absurd (omega arith)) refl (omega arith) (omega arith) (loaded_open, tt)
