-- ===== src/Load.antt =====
-- src/load.rs: a writer from the bytes of a database. The reader is that of the crate maxminddb, a
-- parameter: what it makes of the bytes is a `Database`.
pub mod Networks
pub mod Whole
use mmdb_writer.Base.{ℕ, ◌^◌, Option, none, some, List, [], ◌∷◌, ◌==◌, ltb, if◌then◌else◌}
use mmdb_writer.RecordSize.{RecordSize, bits24, bits28, bits32}
use mmdb_writer.Value.{Value}
use mmdb_writer.Value.Serde.{Visit, visit}
use mmdb_writer.Error.{
  of_reader, undecodable, invalid_network, unsupported_record_size, load, Result, ok, err,
}
use mmdb_writer.Net.{v4, v6}
use mmdb_writer.Net.Range.{Checked, done, panic, out_of_fuel}
use mmdb_writer.Net.Networks.{Ipnet, IpNet, net4, net6, NetError, IpAddr, addr_v4, addr_v6}
use mmdb_writer.Writer.{Writer, Outcome, returned, panics, stuck, builder, insert_value}
use mmdb_writer.Writer.Calls.{default_options}

-- What maxminddb calls `Metadata`, as far as it is read here.
pub record DatabaseMetadata : Type 0 where
  pub ip_version : ℕ
  pub build_epoch : ℕ
  pub description : List (List ℕ × List ℕ)
  pub database_type : List ℕ
  pub languages : List (List ℕ)
  pub record_size : ℕ

-- An item of the iterator: an error, or an entry with what `decode` shows the visitor, `none` if
-- there is no data, and with its network.
pub data Item (I : Ipnet) : Type 0 where
  failing : List ℕ → Item I
  entry : Result (List ℕ) (Option Visit) → Result (List ℕ) (IpAddr I × ℕ) → Item I

pub record Database (I : Ipnet) : Type 0 where
  pub metadata : DatabaseMetadata
  pub networks : Result (List ℕ) (List (Item I))

module _ (I : Ipnet) where
  unfoldable pub record_size_from : ℕ → Result (NetError I) RecordSize
  record_size_from bits =
      if bits == 24
      then ok bits24
      else if bits == 28
      then ok bits28
      else if bits == 32
      then ok bits32
      else err (load (unsupported_record_size bits))

  -- `UNIX_EPOCH + Duration::from_secs(n)`, which panics where the seconds do not fit an i64.
  unfoldable pub epoch_from : ℕ → Checked ℕ
  epoch_from n = if ltb n (2 ^ 63) then done n else panic

  -- `IpNet::new`
  unfoldable pub new_net : IpAddr I → ℕ → Option (IpNet I)
  new_net (addr_v4 a) p = elim (I.new4 a p) [ none ↦ none | some n ↦ some (net4 n) ]
  new_net (addr_v6 a) p = elim (I.new6 a p) [ none ↦ none | some n ↦ some (net6 n) ]

  -- How an insertion within the loop ends it or goes on.
  unfoldable pub after_insert :
      Outcome (NetError I) (Unit {0})
      → (Writer → Checked (Result (NetError I) Writer))
      → Checked (Result (NetError I) Writer)
  after_insert (returned (ok u) w) go = go w
  after_insert (returned (err e) w) go = done (err e)
  after_insert panics go = panic
  after_insert stuck go = out_of_fuel

  -- What one item comes to: nothing to insert, or a network and its value.
  unfoldable pub item_entry : Item I → Result (NetError I) (Option (IpNet I × Value))
  item_entry (failing msg) = err (load (of_reader msg))
  item_entry (entry (err msg) network) = err (load (of_reader msg))
  item_entry (entry (ok none) network) = ok none
  item_entry (entry (ok (some shown)) network) = elim (visit shown) [
    | err e ↦ err (load undecodable)
    | ok value ↦ elim network [
      | err msg ↦ err (load (of_reader msg))
      | ok (ip, prefix) ↦ elim (new_net ip prefix) [
        | none ↦ err (load invalid_network)
        | some net ↦ ok (some (net, value))
      ]
    ]
  ]

  -- The loop over the items.
  unfoldable pub load_items : List (Item I) → Writer → Checked (Result (NetError I) Writer)
  load_items [] w = done (ok w)
  load_items (item ∷ items) w = elim (item_entry item) [
    | err e ↦ done (err e)
    | ok none ↦ load_items items w
    | ok (some (net, value)) ↦ after_insert (insert_value I net value w) (λ w'. load_items items w')
  ]

  -- The options of the writer.
  unfoldable pub loaded_options : DatabaseMetadata → RecordSize → ℕ → Writer
  loaded_options meta size epoch = record (default_options meta.database_type) {
    ip_version = if meta.ip_version == 4 then v4 else v6;
    languages = meta.languages;
    description = meta.description;
    record_size = some size;
    build_epoch = some epoch;
  }

  unfoldable pub load_networks :
      Result (List ℕ) (List (Item I)) → Writer → Checked (Result (NetError I) Writer)
  load_networks (err msg) w = done (err (load (of_reader msg)))
  load_networks (ok items) w = load_items items w

  -- The epoch, the record size and the rest.
  unfoldable pub load_with :
      Database I → Checked ℕ → Result (NetError I) RecordSize → Checked (Result (NetError I) Writer)
  load_with db panic size = panic
  load_with db out_of_fuel size = out_of_fuel
  load_with db (done epoch) (err e) = done (err e)
  load_with db (done epoch) (ok size) =
      after_insert (builder I (loaded_options db.metadata size epoch)) (load_networks db.networks)

  unfoldable pub load_read : Result (List ℕ) (Database I) → Checked (Result (NetError I) Writer)
  load_read (err msg) = done (err (load (of_reader msg)))
  load_read (ok db) =
      load_with db (epoch_from db.metadata.build_epoch) (record_size_from db.metadata.record_size)

  unfoldable pub load_bytes :
      (List ℕ → Result (List ℕ) (Database I)) → List ℕ → Checked (Result (NetError I) Writer)
  load_bytes from_source bytes = load_read (from_source bytes)
