-- ===== src/Writer/Reach.antt =====
-- src/writer.rs: the writers that a program gets by successful insertions, and that their lookups
-- do not panic.
use mathlib.Core.Path.{subst}
use mmdb_writer.Base.{
  ℕ, ◌^◌, ◌≡◌, refl, ap, ◌∙◌, Bool, false, Option, none, some, List, [], ◌∷◌, inl, inr, Bool-cases,
  Option-cases, ltb, ltb→lt, length,
}
use mmdb_writer.Value.{Value}
use mmdb_writer.Error.{of_tree, SerdeError, Result, ok, err}
use mmdb_writer.Net.{v6}
use mmdb_writer.Net.Range.{Checked, done, panic, out_of_fuel}
use mmdb_writer.Net.Networks.{
  Ipnet, IpnetLaws, IpNet, net4, net6, NetError, IpAddr, to_tree_prefix, range_to_networks,
}
use mmdb_writer.Pool
use mmdb_writer.Pool.{new-IsPool, HasRoom, intern}
use mmdb_writer.Ser.Model.{Content}
use mmdb_writer.Ser.{to_value}
use mmdb_writer.Writer.{
  Writer, Outcome, returned, panics, stuck, ensure_insertable, guarded, insert_value, insert_all,
  insert_range,
}
use mmdb_writer.Writer.Calls.{default_options, insert}
use mmdb_writer.Writer.Get.{get}
use mmdb_writer.Writer.Stored.{Succeeds, succeeds, tree_full}
use mmdb_writer.Writer.Lookup.{IsAddr, word, IsAddr-word, get-value_at}
use mmdb_writer.Writer.Sound.{IsSound, fresh-IsSound, value_at-done}
use mmdb_writer.Writer.Wrote.{insert_value-Wrote}

-- The successful calls.
pub data Step (I : Ipnet) (w w' : Writer) : Type 0 where
  inserted :
      (net : IpNet I) (value : Value)
      → insert_value I net value w ≡ returned (ok tt) w'
      → Step I w w'
  inserted_serde :
      (net : IpNet I) (value : Content) → insert I net value w ≡ returned (ok tt) w' → Step I w w'
  inserted_range :
      (checked : Bool) (from to : IpAddr I) (value : Value)
      → insert_range I checked from to value w ≡ returned (ok tt) w'
      → Step I w w'

pub data Reach (I : Ipnet) (w : Writer) : Writer → Type 0 where
  start : Reach I w w
  next : {v u : Writer} → Reach I w v → Step I v u → Reach I w u

module _ (I : Ipnet) where
  guard_passed :
      (net : IpNet I) (w w' : Writer) (body : ℕ × ℕ → Outcome (NetError I) (Unit {0}))
      (c : Checked (Option (NetError I)))
      → ensure_insertable I net w ≡ c
      → guarded I net w body ≡ returned (ok tt) w'
      → c ≡ done none
  unfolding guarded
  guard_passed net w w' body panic e r = cc (rw (e, guarded) at r)
  guard_passed net w w' body out_of_fuel e r = cc (rw (e, guarded) at r)
  guard_passed net w w' body (done (some x)) e r = cc (rw (e, guarded) at r)
  guard_passed net w w' body (done none) e r = refl

intern_full :
    (v : Value) (p : Pool.ValuePool)
    → Pool.index_get p.index v ≡ none
    → ltb (length p.values) (2 ^ 32) ≡ false
    → intern v p ≡ none
unfolding intern
intern_full v p unknown full = rw (unknown, intern) (rw full refl)

module _ (I : Ipnet) (laws : IpnetLaws I) where
  -- A pool with no room makes the call panic.
  had_room :
      (net : IpNet I) (value : Value) (w w' : Writer)
      → IsSound w
      → ensure_insertable I net w ≡ done none
      → insert_value I net value w ≡ returned (ok tt) w'
      → HasRoom value w.pool
  unfolding insert_value guarded to_tree_prefix
  had_room net value w w' s allowed r = elim (Option-cases (Pool.index_get w.pool.index value)) [
    | inr (id, e) ↦ inr (id, s.pool.found value id e)
    | inl unknown ↦ elim (Bool-cases (ltb (length w.pool.values) (2 ^ 32))) [
      | inl t ↦ inl (ltb→lt _ _ t)
      | inr f ↦
          let (p, is, _) = word_of_net net in
          cc (
            rw
              (
                allowed,
                guarded,
                ap (to_tree_prefix I net) s.six ∙ is,
                intern_full value w.pool unknown f,
              )
              at r)
    ]
  ]
    where
      word_of_net : (net : IpNet I) → (p : ℕ × ℕ) × (to_tree_prefix I net v6 ≡ ok p) × Unit {0}
      word_of_net (net4 n) = (_, refl, tt)
      word_of_net (net6 n) = (_, refl, tt)

  of_success :
      {P : Writer → Type 0} {o : Outcome (NetError I) (Unit {0})} (w' : Writer)
      → Succeeds of_tree P o
      → o ≡ returned (ok tt) w'
      → P w'
  of_success {P} w' (succeeds p) e = subst P (cc) p
  of_success w' (tree_full h) e = cc

  insert_value-IsSound :
      (net : IpNet I) (value : Value) (w w' : Writer)
      → IsSound w
      → insert_value I net value w ≡ returned (ok tt) w'
      → IsSound w'
  unfolding insert_value
  insert_value-IsSound net value w w' s r =
      let allowed : ensure_insertable I net w ≡ done none =
        guard_passed I net w w' _ (ensure_insertable I net w) refl r in
      let wrote =
        insert_value-Wrote I laws net value w s (had_room net value w w' s allowed r) allowed in
      (of_success w' wrote r).sound

  -- The first insertion of a successful row of them, and the others.
  insert_all_parts :
      (net : IpNet I) (nets : List (IpNet I)) (value : Value) (w w' : Writer)
      (o : Outcome (NetError I) (Unit {0}))
      → insert_value I net value w ≡ o
      → insert_all I (net ∷ nets) value w ≡ returned (ok tt) w'
      → (v : Writer) × (insert_value I net value w ≡ returned (ok tt) v)
        × (insert_all I nets value v ≡ returned (ok tt) w')
  unfolding insert_all
  insert_all_parts net nets value w w' (returned (ok u) v) e r = (v, e, rw (e, insert_all) at r)
  insert_all_parts net nets value w w' (returned (err x) v) e r = cc (rw (e, insert_all) at r)
  insert_all_parts net nets value w w' panics e r = cc (rw (e, insert_all) at r)
  insert_all_parts net nets value w w' stuck e r = cc (rw (e, insert_all) at r)

  insert_all-IsSound :
      (nets : List (IpNet I)) (value : Value) (w w' : Writer)
      → IsSound w
      → insert_all I nets value w ≡ returned (ok tt) w'
      → IsSound w'
  unfolding insert_all
  insert_all-IsSound [] value w w' s r = subst IsSound (cc) s
  insert_all-IsSound (net ∷ nets) value w w' s r =
      let (v, e, rest) = insert_all_parts net nets value w w' _ refl r in
      insert_all-IsSound nets value v w' (insert_value-IsSound net value w v s e) rest

  range_nets :
      (checked : Bool) (from to : IpAddr I) (value : Value) (w w' : Writer)
      (c : Checked (Result (NetError I) (List (IpNet I))))
      → range_to_networks I checked from to ≡ c
      → insert_range I checked from to value w ≡ returned (ok tt) w'
      → (nets : List (IpNet I)) × (insert_all I nets value w ≡ returned (ok tt) w')
  unfolding insert_range
  range_nets checked from to value w w' (done (ok nets)) e r = (nets, rw (e, insert_range) at r)
  range_nets checked from to value w w' (done (err x)) e r = cc (rw (e, insert_range) at r)
  range_nets checked from to value w w' panic e r = cc (rw (e, insert_range) at r)
  range_nets checked from to value w w' out_of_fuel e r = cc (rw (e, insert_range) at r)

  serde_value :
      (net : IpNet I) (content : Content) (w w' : Writer) (r : Result SerdeError Value)
      → to_value content ≡ r
      → insert I net content w ≡ returned (ok tt) w'
      → (v : Value) × (insert_value I net v w ≡ returned (ok tt) w')
  unfolding insert
  serde_value net content w w' (ok v) e r = (v, rw (e, insert) at r)
  serde_value net content w w' (err x) e r = cc (rw (e, insert) at r)

  Step-IsSound : {w w' : Writer} → Step I w w' → IsSound w → IsSound w'
  Step-IsSound {w} {w'} (inserted net value r) s = insert_value-IsSound net value w w' s r
  Step-IsSound {w} {w'} (inserted_serde net content r) s =
      let (v, e) = serde_value net content w w' _ refl r in insert_value-IsSound net v w w' s e
  Step-IsSound {w} {w'} (inserted_range checked from to value r) s =
      let (nets, e) = range_nets checked from to value w w' _ refl r in
      insert_all-IsSound nets value w w' s e

  Reach-IsSound : {w w' : Writer} → Reach I w w' → IsSound w → IsSound w'
  Reach-IsSound start s = s
  Reach-IsSound (next r st) s = Step-IsSound st (Reach-IsSound r s)

pub default_options-IsSound : (database_type : List ℕ) → IsSound (default_options database_type)
unfolding default_options
default_options-IsSound database_type = fresh-IsSound (default_options database_type) refl

-- With ipnet as documented, no lookup panics, for an address of either family, in a writer that
-- comes from one with the default options by any successful insertions of values, of serde values
-- and over ranges, in any order: no id in the tree is without a value, and no node index is out of
-- bounds.
pub get-Reach :
    (I : Ipnet)
    → IpnetLaws I
    → (database_type : List ℕ) (w : Writer) → Reach I (default_options database_type) w
    → (ip : IpAddr I) → IsAddr I ip
    → (v : Option Value) × (get I ip w ≡ done v)
get-Reach I laws database_type w r ip h =
    let s = Reach-IsSound I laws r (default_options-IsSound database_type) in
    let (v, d) = value_at-done w s (word I ip) (IsAddr-word I ip h) in
    (v, get-value_at I laws w s ip h ∙ d)
