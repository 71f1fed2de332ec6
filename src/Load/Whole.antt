-- ===== src/Load/Whole.antt =====
-- `Writer::load` (src/load.rs) on a whole IPv6 database.
use mathlib.Core.Path.{subst}
use mmdb_writer.Base.{
  ℕ, ◌+◌, ◌^◌, ◌≤◌, ◌<◌, ◌≡◌, ◌≢◌, ◌↔◌, refl, sym, ap, ◌∙◌, none, List, length, inl, inr,
  Bool-cases, ◌==◌, ==_iff, arith,
}
use mmdb_writer.RecordSize.{RecordSize, bits24, bits28, bits32, as_metadata}
use mmdb_writer.Value.{Value}
use mmdb_writer.Error.{Result, ok}
use mmdb_writer.Options.{is_excluded}
use mmdb_writer.Net.{v6}
use mmdb_writer.Net.Range.{done}
use mmdb_writer.Net.Networks.{Ipnet, IpnetLaws, IpNet, IpAddr}
use mmdb_writer.Pool
use mmdb_writer.Writer.{Writer, returned, builder}
use mmdb_writer.Writer.Calls.{default_options}
use mmdb_writer.Writer.Get.{get}
use mmdb_writer.Writer.Sound.{IsSound, fresh, fresh-IsSound, value_at-fresh}
use mmdb_writer.Writer.Lookup.{IsAddr, word, IsAddr-word, get-value_at}
use mmdb_writer.Load.{
  DatabaseMetadata, Item, Database, record_size_from, epoch_from, after_insert, loaded_options,
  load_networks, load_with, load_read, load_bytes,
}
use mmdb_writer.Load.Networks.{
  HaveEntries, latest, Loads, Loads-mono, Filled, AllAllowed, AllAllowed-same, load_items-Filled,
}

module _ (I : Ipnet) where
  record_size_known : (size : RecordSize) → record_size_from I (as_metadata size) ≡ ok size
  unfolding record_size_from as_metadata
  record_size_known bits24 = refl
  record_size_known bits28 = refl
  record_size_known bits32 = refl

  record_size_sound :
      (n : ℕ) (size : RecordSize) → record_size_from I n ≡ ok size → as_metadata size ≡ n
  unfolding record_size_from as_metadata
  record_size_sound n bits24 e = ground arith
  record_size_sound n bits28 e = ground arith
  record_size_sound n bits32 e = ground arith

  -- The loader accepts a record size in the metadata exactly if it is what the writer writes there
  -- for one of its sizes, and reads it back as this size.
  pub record_size_from-as_metadata :
      (n : ℕ) (size : RecordSize) → (record_size_from I n ≡ ok size) ↔ (as_metadata size ≡ n)
  record_size_from-as_metadata n size = (
    record_size_sound n size,
    λ e. subst (λ k. record_size_from I k ≡ ok size) e (record_size_known size),
  )

  -- What a loaded writer has: the options of the metadata, and the values of the entries.
  pub record Loaded (options : Writer) (es : List (IpNet I × Value)) (w : Writer) : Type 0 where
    pub same : w ≡ record options { tree = w.tree; pool = w.pool }
    pub sound : IsSound w
    pub values : (ip : IpAddr I) → IsAddr I ip → get I ip w ≡ done (latest I (word I ip) es none)

  is_v6 :
      (meta : DatabaseMetadata) (size : RecordSize) (epoch : ℕ)
      → meta.ip_version ≢ 4
      → (loaded_options I meta size epoch).ip_version ≡ v6
  unfolding loaded_options
  is_v6 meta size epoch ne = elim (Bool-cases (meta.ip_version == 4)) [
    | inl t ↦ absurd (ne ((==_iff _ 4).0 t))
    | inr f ↦ rw f refl
  ]

  built :
      (meta : DatabaseMetadata) (size : RecordSize) (epoch : ℕ)
      → builder I (loaded_options I meta size epoch)
        ≡ returned (ok tt) (fresh (loaded_options I meta size epoch))
  unfolding builder loaded_options default_options is_excluded
  built meta size epoch = refl

  loaded :
      (laws : IpnetLaws I) (options : Writer) (es : List (IpNet I × Value))
      → options.ip_version ≡ v6
      → (w : Writer) → Filled I laws es (fresh options) w
      → Loaded options es w
  loaded laws options es six w f = record {
    same = f.options;
    sound = f.sound;
    values = λ ip h.
        get-value_at I laws w f.sound ip h
        ∙ f.values (word I ip) none (IsAddr-word I ip h)
            (value_at-fresh options six (word I ip) (IsAddr-word I ip h));
  }

  epoch_fits : (n : ℕ) → n < 2 ^ 63 → epoch_from I n ≡ done n
  unfolding epoch_from
  epoch_fits n h = ground arith

  room :
      (es : List (IpNet I × Value))
      → length es ≤ 2 ^ 32
      → length Pool.new.values + length es ≤ 2 ^ 32
  unfolding Pool.new
  room es h = omega (arith, h)

  -- With ipnet as documented, where maxminddb reads the bytes as an IPv6 database with a record
  -- size of 24, 28 or 32 bits, an epoch that fits an i64, and at most 2^32 entries without an
  -- error, whose networks all pass the guards, the load returns. It fails only with the error of an
  -- insertion: of the entry of some item, into the writer that the items before it made, which it
  -- leaves with 2^32 nodes. If it does not fail, the writer has the options of the metadata, and a
  -- lookup of an address of either family finds the value of the last entry whose network holds it,
  -- and none if there is no such entry.
  pub load_bytes-Loaded :
      (laws : IpnetLaws I) (from_source : List ℕ → Result (List ℕ) (Database I)) (input : List ℕ)
      (db : Database I) (items : List (Item I)) (es : List (IpNet I × Value)) (size : RecordSize)
      → from_source input ≡ ok db
      → db.networks ≡ ok items
      → HaveEntries I items es
      → db.metadata.ip_version ≢ 4
      → db.metadata.record_size ≡ as_metadata size
      → db.metadata.build_epoch < 2 ^ 63
      → length es ≤ 2 ^ 32
      → AllAllowed I laws (loaded_options I db.metadata size db.metadata.build_epoch) es
      → Loads I
          (Loaded (loaded_options I db.metadata size db.metadata.build_epoch) es)
          items
          (fresh (loaded_options I db.metadata size db.metadata.build_epoch))
          (load_bytes I from_source input)
  unfolding load_bytes load_read load_with load_networks after_insert
  load_bytes-Loaded laws from_source input db items es size read nets have six known small few
        allowed =
      let epoch = db.metadata.build_epoch in
      let options = loaded_options I db.metadata size epoch in
      let version = is_v6 db.metadata size epoch six in
      subst (λ x. Loads I (Loaded options es) items (fresh options) (load_read I x)) (sym read)
        (subst
          (λ x.
            Loads I (Loaded options es) items (fresh options)
              (load_with I db x (record_size_from I db.metadata.record_size)))
          (sym (epoch_fits epoch small))
          (subst
            (λ x. Loads I (Loaded options es) items (fresh options) (load_with I db (done epoch) x))
            (sym (ap (record_size_from I) known ∙ record_size_known size))
            (subst
              (λ x.
                Loads I (Loaded options es) items (fresh options)
                  (after_insert I x (load_networks I db.networks)))
              (sym (built db.metadata size epoch))
              (subst
                (λ x.
                  Loads I (Loaded options es) items (fresh options)
                    (load_networks I x (fresh options)))
                (sym nets)
                (Loads-mono (loaded laws options es version) (
                  load_items-Filled I laws items es (fresh options) have
                    (fresh-IsSound options version) (room es few)
                    (AllAllowed-same I laws options (fresh options) es refl allowed)))))))
