-- ===== src/Writer.antt =====
-- src/writer.rs: the writer. A time is its seconds after the epoch, 0 if it is before.
pub mod Build
pub mod Calls
pub mod Get
pub mod Lookup
pub mod Ranges
pub mod Reach
pub mod RecordSizes
pub mod Sound
pub mod Stored
pub mod Wrote
use mmdb_writer.Base.{
  ℕ, ◌+◌, ◌-◌, ◌^◌, Bool, true, false, ◌&&◌, ◌||◌, Option, none, some, List, [], ◌∷◌, ◌++◌, ◌==◌,
  if◌then◌else◌, length,
}
use mmdb_writer.RecordSize.{RecordSize, bits32, max_value, ascending}
use mmdb_writer.Value.{Value}
use mmdb_writer.Value.Merge.{merge_top_level, merge_deep}
use mmdb_writer.Error.{Error, aliased_network, reserved_network, of_tree, Result, ok, err}
use mmdb_writer.Options.{
  Ipv4Aliasing, is_enabled, ReservedNetworks, is_excluded, MetadataPointers, is_disabled,
  MergeStrategy, replace, top_level_merge, deep_merge,
}
use mmdb_writer.Net.{IpVersion, v4, v6, tree_depth}
use mmdb_writer.Net.Range.{Checked, done, panic, out_of_fuel, ◌>>=◌}
use mmdb_writer.Net.Networks.{
  Ipnet, IpNet, net4, net6, NetError, to_tree_prefix, contains, alias_networks, IpAddr, addr_v4,
  addr_v6, range_to_networks,
}
use mmdb_writer.Reserved
use mmdb_writer.Pool
use mmdb_writer.Pool.{ValuePool, intern}
use mmdb_writer.DataSection
use mmdb_writer.DataSection.{DataSection, push, len, into_bytes}
use mmdb_writer.Metadata.{Metadata, to_bytes}
use mmdb_writer.Tree
use mmdb_writer.Tree.Run.{Nodes, Run, TreeError, tree_too_large}
use mmdb_writer.Tree.{node_count, insert, paint_reserved, install_ipv4_aliases}
use mmdb_writer.Tree.Compact.{compact}
use mmdb_writer.Tree.Serialize.{
  Encoded, encoded, failed, panicked, reachable_data_ids, fits_record_size, serialize,
}

pub record Writer : Type 0 where
  pub database_type : List ℕ
  pub description : List (List ℕ × List ℕ)
  pub languages : List (List ℕ)
  pub ip_version : IpVersion
  pub record_size : Option RecordSize
  pub ipv4_aliasing : Ipv4Aliasing
  pub reserved_networks : ReservedNetworks
  pub metadata_pointers : MetadataPointers
  pub build_epoch : Option ℕ
  pub tree : Nodes
  pub pool : ValuePool

-- The first candidate that fits.
unfoldable pub first_fitting : Nodes → ℕ → List RecordSize → Option RecordSize
first_fitting tree data_len [] = none
first_fitting tree data_len (candidate ∷ sizes) =
    let rest = first_fitting tree data_len sizes in
    if fits_record_size tree candidate data_len then some candidate else rest

unfoldable pub pick_record_size : Nodes → ℕ → Option RecordSize → Result TreeError RecordSize
pick_record_size tree data_len (some size) = ok size
pick_record_size tree data_len none = elim (first_fitting tree data_len ascending) [
  | some size ↦ ok size
  | none ↦ err (tree_too_large (node_count tree) (max_value bits32) bits32)
]

-- How a call on a writer ends, with the writer that it leaves.
pub data Outcome (E A : Type 0) : Type 0 where
  returned : Result E A → Writer → Outcome E A
  panics stuck : Outcome E A

-- A run of the tree within a call.
unfoldable pub of_run :
    {E S A : Type 0} → (TreeError → E) → Run S A → (Nodes → S → Writer) → Outcome E A
of_run wrap (Run.ok a ns s) after = returned (ok a) (after ns s)
of_run wrap (Run.err e ns s) after = returned (err (wrap e)) (after ns s)
of_run wrap Run.panic after = panics
of_run wrap Run.stuck after = stuck

-- `old_id.map(|id| pool.get(id).clone())`; the outer `none` is an index out of bounds.
unfoldable pub old_value : ValuePool → Option ℕ → Option (Option Value)
old_value pool none = some none
old_value pool (some id) = elim (Pool.get pool id) [ none ↦ none | some v ↦ some (some v) ]

-- A call of the closure of `insert_with` around `op`; the pool is `none` after a panic.
unfoldable pub pool_op :
    (Option Value → Option Value) → Option ValuePool → Option ℕ → Option ℕ × Option ValuePool
pool_op op none old_id = (none, none)
pool_op op (some pool) old_id = elim (old_value pool old_id) [
  | none ↦ (none, none)
  | some old ↦ elim (op old) [
    | none ↦ (none, some pool)
    | some new_value ↦ elim (intern new_value pool) [
      | none ↦ (none, none)
      | some (pool', id) ↦ (some id, some pool')
    ]
  ]
]

-- The closure of a merge: the new value where there is none, `merge old value` else.
abbrev pub merging : (Value → Value → Value) → Value → Option Value → Option Value
merging merge value none = some value
merging merge value (some old) = some (merge old value)

module _ (I : Ipnet) where
  abbrev any_contains : List (IpNet I) → IpNet I → Bool
  any_contains [] net = false
  any_contains (n ∷ ns) net = contains I n net || any_contains ns net

  abbrev is_v6 : IpVersion → Bool
  is_v6 v6 = true
  is_v6 v4 = false

  -- `none` is no error. The lists of networks are built before the tests; building them has no
  -- effect.
  unfoldable pub ensure_insertable : IpNet I → Writer → Checked (Option (NetError I))
  ensure_insertable net w = do
    aliases ← alias_networks I
    reserved ← Reserved.networks I w.ip_version
    done (
        if is_v6 w.ip_version && is_enabled w.ipv4_aliasing && any_contains aliases net
        then some (aliased_network net)
        else if is_excluded w.reserved_networks && any_contains reserved net
        then some (reserved_network net)
        else none)

  -- The guards that all insertions begin with, and then `body` with the prefix.
  unfoldable pub guarded :
      IpNet I → Writer → (ℕ × ℕ → Outcome (NetError I) (Unit {0})) → Outcome (NetError I) (Unit {0})
  guarded net w body = elim (ensure_insertable net w) [
    | panic ↦ panics
    | out_of_fuel ↦ stuck
    | done (some e) ↦ returned (err e) w
    | done none ↦ elim (to_tree_prefix I net w.ip_version) [
      | err e ↦ returned (err e) w
      | ok p ↦ body p
    ]
  ]

  unfoldable pub insert_value : IpNet I → Value → Writer → Outcome (NetError I) (Unit {0})
  insert_value net value w = guarded net w (λ p. elim (intern value w.pool) [
    | none ↦ panics
    | some (pool, id) ↦
        of_run of_tree (insert p.0 p.1 (λ s _. (some id, s)) w.tree tt)
          (λ ns s. record w { tree = ns; pool = pool })
  ])

  -- What a run with the pool as its state leaves: a panic of the closure is one of the call.
  unfoldable pub of_pool_run :
      Run (Option ValuePool) (Unit {0}) → Writer → Outcome (NetError I) (Unit {0})
  of_pool_run (Run.ok u ns (some pool)) w = returned (ok tt) (record w { tree = ns; pool = pool })
  of_pool_run (Run.err e ns (some pool)) w =
      returned (err (of_tree e)) (record w { tree = ns; pool = pool })
  of_pool_run (Run.ok u ns none) w = panics
  of_pool_run (Run.err e ns none) w = panics
  of_pool_run Run.panic w = panics
  of_pool_run Run.stuck w = stuck

  -- `op` keeps no state of its own here.
  unfoldable pub insert_with :
      IpNet I → (Option Value → Option Value) → Writer → Outcome (NetError I) (Unit {0})
  insert_with net op w =
      guarded net w (λ p. of_pool_run (insert p.0 p.1 (pool_op op) w.tree (some w.pool)) w)

  unfoldable pub insert_value_merged :
      IpNet I → Value → MergeStrategy → Writer → Outcome (NetError I) (Unit {0})
  insert_value_merged net value replace w = insert_value net value w
  insert_value_merged net value top_level_merge w =
      insert_with net (merging merge_top_level value) w
  insert_value_merged net value deep_merge w = insert_with net (merging merge_deep value) w

  -- `for network in reserved::networks(ip_version)`, with its two `expect`s.
  unfoldable pub paint_all : IpVersion → List (IpNet I) → Nodes → Run (Unit {0}) (Unit {0})
  paint_all version [] ns = Run.ok tt ns tt
  paint_all version (net ∷ nets) ns = elim (to_tree_prefix I net version) [
    | err e ↦ Run.panic
    | ok p ↦ elim (paint_reserved p.0 p.1 ns tt) [
      | Run.ok u ns' s ↦ paint_all version nets ns'
      | Run.err e ns' s ↦ Run.panic
      | Run.panic ↦ Run.panic
      | Run.stuck ↦ Run.stuck
    ]
  ]

  -- The options come as a writer whose tree and pool are new.
  unfoldable pub builder : Writer → Outcome (NetError I) (Unit {0})
  builder w =
      if is_excluded w.reserved_networks
      then elim (Reserved.networks I w.ip_version) [
        | panic ↦ panics
        | out_of_fuel ↦ stuck
        | done nets ↦
            of_run of_tree (paint_all w.ip_version nets w.tree) (λ ns s. record w { tree = ns })
      ]
      else returned (ok tt) w

  -- `for network in range_to_networks(start, end)? { self.insert_value(network, value.clone())? }`
  unfoldable pub insert_all : List (IpNet I) → Value → Writer → Outcome (NetError I) (Unit {0})
  insert_all [] value w = returned (ok tt) w
  insert_all (net ∷ nets) value w = elim (insert_value net value w) [
    | returned (ok u) w' ↦ insert_all nets value w'
    | returned (err e) w' ↦ returned (err e) w'
    | panics ↦ panics
    | stuck ↦ stuck
  ]

  unfoldable pub insert_range :
      Bool → IpAddr I → IpAddr I → Value → Writer → Outcome (NetError I) (Unit {0})
  insert_range checked start end value w = elim (range_to_networks I checked start end) [
    | panic ↦ panics
    | out_of_fuel ↦ stuck
    | done (err e) ↦ returned (err e) w
    | done (ok nets) ↦ insert_all nets value w
  ]
