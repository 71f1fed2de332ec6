-- ===== src/Writer/Ranges.antt =====
-- src/writer.rs: the insertion of an address range into an IPv6 writer.
use mathlib.Core.Path.{subst}
use mmdb_writer.Base.{
  ℕ, ◌^◌, ◌-◌, ◌≤◌, ◌<◌, ◌≡◌, refl, sym, ap, ◌∙◌, Bool, true, false, ◌||◌, Option, none, some, List,
  [], ◌∷◌, All, if◌then◌else◌, inl, inr, Bool-cases,
}
use mmdb_writer.Value.{Value}
use mmdb_writer.Error.{of_tree, Result, ok}
use mmdb_writer.Net.Range.{Checked, done}
use mmdb_writer.Net.Range.Cover.{in_range}
use mmdb_writer.Net.Networks.{
  Ipnet, IpnetLaws, IpNet, NetError, IpAddr, addr_v4, addr_v6, range_to_networks,
}
use mmdb_writer.Net.Families.{
  in_some_net, Split, range_to_networks4-Split, range_to_networks6-Split,
}
use mmdb_writer.Pool.{HasRoom}
use mmdb_writer.Writer.{Writer, Outcome, ensure_insertable, insert_value, insert_all, insert_range}
use mmdb_writer.Writer.Get.{value_at}
use mmdb_writer.Writer.Stored.{Succeeds, succeeds, tree_full, Succeeds-mono}
use mmdb_writer.Writer.Sound.{IsSound, Wrote}
use mmdb_writer.Writer.Wrote.{insert_value-Wrote}

-- First at some addresses and then at others.
Wrote-trans :
    (f g : ℕ → Bool) (value : Value) (w w' w'' : Writer)
    → Wrote f value w w'
    → Wrote g value w' w''
    → Wrote (λ addr. f addr || g addr) value w w''
Wrote-trans f g value w w' w'' a b = record {
  options =
      b.options ∙ ap (λ (x : Writer). record x { tree = w''.tree; pool = w''.pool }) a.options;
  sound = b.sound;
  room = b.room;
  values = λ addr small. b.values addr small ∙ elim (Bool-cases (g addr)) [
    | inl t ↦ rw t (both (f addr) (value_at w addr))
    | inr e ↦ rw e (a.values addr small ∙ first (f addr) (value_at w addr))
  ];
}
  where
    both :
        (x : Bool) (old : Checked (Option Value))
        → done (some value) ≡ (if x || true then done (some value) else old)
    both true old = refl
    both false old = refl

    first :
        (x : Bool) (old : Checked (Option Value))
        → (if x then done (some value) else old) ≡ (if x || false then done (some value) else old)
    first true old = refl
    first false old = refl

Wrote-none :
    (value : Value) (w : Writer)
    → IsSound w
    → HasRoom value w.pool
    → Wrote (λ addr. false) value w w
Wrote-none value w s room = record {
  options = refl;
  sound = s;
  room = room;
  values = λ addr small. refl;
}

-- The values count, not the test by which the addresses are given.
Wrote-same :
    (f g : ℕ → Bool) (value : Value) (w w' : Writer)
    → ((addr : ℕ) → f addr ≡ g addr)
    → Wrote f value w w'
    → Wrote g value w w'
Wrote-same f g value w w' e a = record {
  options = a.options;
  sound = a.sound;
  room = a.room;
  values = λ addr small.
      a.values addr small ∙ ap (λ x. if x then done (some value) else value_at w addr) (e addr);
}

module _ (I : Ipnet) (laws : IpnetLaws I) where
  insert_all_step :
      {P Q : Writer → Type 0} (net : IpNet I) (nets : List (IpNet I)) (value : Value) (w : Writer)
      {o : Outcome (NetError I) (Unit {0})}
      → insert_value I net value w ≡ o
      → Succeeds of_tree P o
      → ((w' : Writer) → P w' → Succeeds of_tree Q (insert_all I nets value w'))
      → Succeeds of_tree Q (insert_all I (net ∷ nets) value w)
  unfolding insert_all
  insert_all_step net nets value w e (succeeds p) next = rw (e, insert_all) (next _ p)
  insert_all_step net nets value w e (tree_full h) next = rw (e, insert_all) (tree_full h)

  abbrev pub Allowed : Writer → IpNet I → Type 0
  Allowed w net = ensure_insertable I net w ≡ done none

  -- The guards depend on the options only.
  Allowed-same :
      (w w' : Writer) (nets : List (IpNet I))
      → w' ≡ record w { tree = w'.tree; pool = w'.pool }
      → All (Allowed w) nets
      → All (Allowed w') nets
  unfolding ensure_insertable
  Allowed-same w w' [] e a = tt
  Allowed-same w w' (net ∷ nets) e a =
      (subst (λ x. Allowed x net) (sym e) a.0, Allowed-same w w' nets e a.1)

  insert_all-Wrote :
      (nets : List (IpNet I)) (value : Value) (w : Writer)
      → IsSound w
      → HasRoom value w.pool
      → All (Allowed w) nets
      → Succeeds of_tree
          (Wrote (λ addr. in_some_net I addr nets) value w)
          (insert_all I nets value w)
  unfolding insert_all
  insert_all-Wrote [] value w s room a = succeeds (Wrote-none value w s room)
  insert_all-Wrote (net ∷ nets) value w s room a =
      insert_all_step net nets value w refl (insert_value-Wrote I laws net value w s room a.0)
        λ w' p.
          Succeeds-mono (λ w'' q. Wrote-trans _ _ value w w' w'' p q)
            (insert_all-Wrote nets value w' p.sound p.room (Allowed-same w w' nets p.options a.1))

  module _ (checked : Bool) (from to : IpAddr I) (value : Value) (w : Writer) (s : IsSound w)
      (room : HasRoom value w.pool) (nets : List (IpNet I))
      (is : range_to_networks I checked from to ≡ done (ok nets))
      (allowed : All (Allowed w) nets) where
    ok-injective :
        (r : Checked (Result (NetError I) (List (IpNet I)))) (ms : List (IpNet I))
        → r ≡ done (ok nets)
        → r ≡ done (ok ms)
        → nets ≡ ms
    ok-injective r ms p q = cc

    insert_range-Split :
        (start end : ℕ)
        → Split I laws start end (range_to_networks I checked from to)
        → Succeeds of_tree
            (Wrote (in_range start end) value w)
            (insert_range I checked from to value w)
    unfolding insert_range
    insert_range-Split start end split =
        rw (is, insert_range)
          (Succeeds-mono
            (λ w' p.
              Wrote-same _ _ value w w'
                (λ addr.
                  ap (in_some_net I addr) (ok-injective _ split.nets is split.is)
                  ∙ split.exactly addr)
                p)
            (insert_all-Wrote nets value w s room allowed))

module _ (I : Ipnet) (laws : IpnetLaws I) (checked : Bool) (start end : ℕ) (value : Value)
    (w : Writer) (s : IsSound w) (room : HasRoom value w.pool) (nets : List (IpNet I)) where
  -- With ipnet as documented, the insertion of a value over a range of IPv6 addresses that does not
  -- start at 0, or that is the whole space, into a sound IPv6 writer (nothing in its tree is
  -- reserved or aliased, and every id in it has a value) with room for the value, where all
  -- networks of the range pass the guards, returns in either build profile, and with an error only
  -- if the tree has 2^32 nodes. Otherwise the writer is sound and has its options as before, a
  -- lookup at an address of the range finds the value, and one at any other address what it found
  -- before.
  pub insert_range6-Wrote :
      range_to_networks I checked (addr_v6 start) (addr_v6 end) ≡ done (ok nets)
      → All (Allowed I laws w) nets
      → start ≤ end
      → end < 2 ^ 128
      → (start ≡ 0 → end ≡ 2 ^ 128 - 1)
      → Succeeds of_tree
          (Wrote (in_range start end) value w)
          (insert_range I checked (addr_v6 start) (addr_v6 end) value w)
  insert_range6-Wrote is allowed le lt exc =
      insert_range-Split I laws checked (addr_v6 start) (addr_v6 end) value w s room nets is allowed
        start end (range_to_networks6-Split I laws checked start end le lt exc)

  -- With ipnet as documented, the insertion of a value over a range of IPv4 addresses, whose words
  -- in an IPv6 tree are the numbers below 2^32, into a sound IPv6 writer with room for the value,
  -- where all networks of the range pass the guards, returns in either build profile, and with an
  -- error only if the tree has 2^32 nodes. Otherwise the writer is sound and has its options as
  -- before, a lookup at the word of an address of the range finds the value, and one at any other
  -- word what it found before.
  pub insert_range4-Wrote :
      range_to_networks I checked (addr_v4 start) (addr_v4 end) ≡ done (ok nets)
      → All (Allowed I laws w) nets
      → start ≤ end
      → end < 2 ^ 32
      → Succeeds of_tree
          (Wrote (in_range start end) value w)
          (insert_range I checked (addr_v4 start) (addr_v4 end) value w)
  insert_range4-Wrote is allowed le lt =
      insert_range-Split I laws checked (addr_v4 start) (addr_v4 end) value w s room nets is allowed
        start end (range_to_networks4-Split I laws checked start end le lt)
