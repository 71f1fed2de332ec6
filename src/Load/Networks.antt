-- ===== src/Load/Networks.antt =====
-- What `Writer::load` (src/load.rs) makes of the networks of an IPv6 database.
use mathlib.Core.Path.{subst}
use mmdb_writer.Base.{
  ℕ, suc, ◌+◌, ◌^◌, ◌≤◌, ◌<◌, ◌≡◌, refl, sym, ap, ◌∙◌, Bool, true, false, Option, none, some, List,
  [], ◌∷◌, All, length, ◌++◌, if◌then◌else◌, inl, arith,
}
use mmdb_writer.Value.{Value}
use mmdb_writer.Error.{of_tree, Result, ok, err}
use mmdb_writer.Tree.Run.{TreeError}
use mmdb_writer.Net.Range.{Checked, done}
use mmdb_writer.Net.Networks.{Ipnet, IpnetLaws, IpNet, NetError}
use mmdb_writer.Net.Families.{in_net}
use mmdb_writer.Writer.{Writer, Outcome, returned, ensure_insertable, insert_value}
use mmdb_writer.Writer.Get.{value_at}
use mmdb_writer.Writer.Stored.{Succeeds, succeeds, tree_full}
use mmdb_writer.Writer.Sound.{IsSound, Wrote}
use mmdb_writer.Writer.Wrote.{insert_value-Grown}
use mmdb_writer.Load.{Item, after_insert, item_entry, load_items}

module _ (I : Ipnet) where
  -- The networks and values of the items, an error if one has an error.
  abbrev pub with_entry : Option (IpNet I × Value) → List (IpNet I × Value) → List (IpNet I × Value)
  with_entry none es = es
  with_entry (some e) es = e ∷ es

  -- The items have the entries `es`, with no error.
  abbrev pub HaveEntries : List (Item I) → List (IpNet I × Value) → Type 0
  HaveEntries [] es = es ≡ []
  HaveEntries (item ∷ items) es =
      (e : Option (IpNet I × Value)) × (item_entry I item ≡ ok e)
      × (rest : List (IpNet I × Value)) × HaveEntries items rest
      × (es ≡ with_entry e rest)

  -- The value of the last entry whose network holds the address, `old` if none does.
  unfoldable pub latest : ℕ → List (IpNet I × Value) → Option Value → Option Value
  latest addr [] old = old
  latest addr ((net, v) ∷ es) old = latest addr es (if in_net I addr net then some v else old)

-- The loop over the items, from the writer `start` on, ends with a writer for which `P` holds, or
-- with an error of the tree: then the items before some entry were loaded, and the insertion of
-- this entry into the writer that they made failed with this error and left 2^32 nodes.
pub data Loads (I : Ipnet) (P : Writer → Type 0) (items : List (Item I)) (start : Writer)
    : Checked (Result (NetError I) Writer) → Type 0 where
  loads : {w : Writer} → P w → Loads I P items start (done (ok w))
  full :
      {e : TreeError} (front : List (Item I)) (item : Item I) (behind : List (Item I))
      (net : IpNet I) (v : Value) (w w' : Writer)
      → items ≡ front ++ (item ∷ behind)
      → load_items I front start ≡ done (ok w)
      → item_entry I item ≡ ok (some (net, v))
      → insert_value I net v w ≡ returned (err (of_tree e)) w'
      → 2 ^ 32 ≤ length w'.tree
      → Loads I P items start (done (err (of_tree e)))

pub Loads-mono :
    {I : Ipnet} {P Q : Writer → Type 0} {items : List (Item I)} {start : Writer}
    {r : Checked (Result (NetError I) Writer)}
    → ((w : Writer) → P w → Q w)
    → Loads I P items start r
    → Loads I Q items start r
Loads-mono f (loads p) = loads (f _ p)
Loads-mono f (full front item behind net v w w' at before entry failed h) =
    full front item behind net v w w' at before entry failed h

-- One item more in front, which takes the writer to where the loop goes on.
Loads-front :
    {I : Ipnet} {P : Writer → Type 0} {items : List (Item I)} {w w' : Writer}
    {r : Checked (Result (NetError I) Writer)} (item : Item I)
    → ((rest : List (Item I)) → load_items I (item ∷ rest) w ≡ load_items I rest w')
    → Loads I P items w' r
    → Loads I P (item ∷ items) w r
Loads-front item goes_on (loads p) = loads p
Loads-front item goes_on (full front it behind net v u u' at before is failed h) =
    full (item ∷ front) it behind net v u u' (ap (λ xs. item ∷ xs) at) (goes_on front ∙ before) is
      failed h

module _ (I : Ipnet) (laws : IpnetLaws I) where
  -- Every address has the value of the last entry that holds it, or the one of before.
  pub record Filled (es : List (IpNet I × Value)) (w w' : Writer) : Type 0 where
    pub options : w' ≡ record w { tree = w'.tree; pool = w'.pool }
    pub sound : IsSound w'
    pub values :
        (addr : ℕ) (old : Option Value)
        → addr < 2 ^ 128
        → value_at w addr ≡ done old
        → value_at w' addr ≡ done (latest I addr es old)

  Filled-first :
      (net : IpNet I) (v : Value) (es : List (IpNet I × Value)) (w w' w'' : Writer)
      → Wrote (λ addr. in_net I addr net) v w w'
      → Filled es w' w''
      → Filled ((net, v) ∷ es) w w''
  unfolding latest
  Filled-first net v es w w' w'' a b = record {
    options =
        b.options ∙ ap (λ (x : Writer). record x { tree = w''.tree; pool = w''.pool }) a.options;
    sound = b.sound;
    values = λ addr old small e.
        b.values addr (if in_net I addr net then some v else old) small
          (a.values addr small ∙ one (in_net I addr net) (value_at w addr) old e);
  }
    where
      one :
          (x : Bool) (before : Checked (Option Value)) (old : Option Value)
          → before ≡ done old
          → (if x then done (some v) else before) ≡ done (if x then some v else old)
      one true before old e = refl
      one false before old e = e

  load_items_none :
      (item : Item I) (items : List (Item I)) (w : Writer)
      → item_entry I item ≡ ok none
      → load_items I (item ∷ items) w ≡ load_items I items w
  unfolding load_items
  load_items_none item items w e = rw (e, load_items) refl

  load_items_step :
      {P Q : Writer → Type 0} (item : Item I) (items : List (Item I)) (net : IpNet I) (v : Value)
      (w : Writer) {o : Outcome (NetError I) (Unit {0})}
      → item_entry I item ≡ ok (some (net, v))
      → insert_value I net v w ≡ o
      → Succeeds of_tree P o
      → ((w' : Writer) → P w' → Loads I Q items w' (load_items I items w'))
      → Loads I Q (item ∷ items) w (load_items I (item ∷ items) w)
  unfolding load_items after_insert
  load_items_step {Q = Q} item items net v w e i (succeeds {w = w'} p) next =
      let goes_on : (rest : List (Item I)) → load_items I (item ∷ rest) w ≡ load_items I rest w' =
        λ rest. rw (e, load_items, i, after_insert) refl in
      subst (Loads I Q (item ∷ items) w) (sym (goes_on items))
        (Loads-front item goes_on (next w' p))
  load_items_step {Q = Q} item items net v w e i (tree_full {e = fault} {w = w'} h) next =
      let stops : load_items I (item ∷ items) w ≡ done (err (of_tree fault)) =
        rw (e, load_items, i, after_insert) refl in
      subst (Loads I Q (item ∷ items) w) (sym stops) (full [] item items net v w w' refl refl e i h)

  abbrev pub AllAllowed : Writer → List (IpNet I × Value) → Type 0
  AllAllowed w = All (λ e. ensure_insertable I e.0 w ≡ done none)

  pub AllAllowed-same :
      (w w' : Writer) (es : List (IpNet I × Value))
      → w' ≡ record w { tree = w'.tree; pool = w'.pool }
      → AllAllowed w es
      → AllAllowed w' es
  unfolding ensure_insertable
  AllAllowed-same w w' [] e a = tt
  AllAllowed-same w w' (x ∷ es) e a = (
    subst (λ u. ensure_insertable I x.0 u ≡ done none) (sym e) a.0,
    AllAllowed-same w w' es e a.1,
  )

  pub load_items-Filled :
      (items : List (Item I)) (es : List (IpNet I × Value)) (w : Writer)
      → HaveEntries I items es
      → IsSound w
      → length w.pool.values + length es ≤ 2 ^ 32
      → AllAllowed w es
      → Loads I (Filled es w) items w (load_items I items w)
  unfolding load_items latest
  load_items-Filled [] es w h s room a = loads (record {
    options = refl;
    sound = s;
    values = λ addr old small e. e ∙ ap (λ x. done (latest I addr x old)) (sym h);
  })
  load_items-Filled (item ∷ items) es w (none, e, rest, h, same) s room a =
      subst (Loads I (Filled es w) (item ∷ items) w) (sym (load_items_none item items w e)) (
        Loads-front item (λ left. load_items_none item left w e)
          (subst (λ x. Loads I (Filled x w) items w (load_items I items w)) (sym same)
            (load_items-Filled items rest w h s
              (subst (λ x. length w.pool.values + length x ≤ 2 ^ 32) same room)
              (subst (AllAllowed w) same a))))
  load_items-Filled (item ∷ items) es w (some (net, v), e, rest, h, same) s room a =
      subst (λ x. Loads I (Filled x w) (item ∷ items) w (load_items I (item ∷ items) w)) (sym same)
        (load_items_step item items net v w e refl
          (insert_value-Grown I laws net v w s (inl (omega (arith, room_left))) allowed.0)
          λ w' p.
            Loads-mono (λ w'' q. Filled-first net v rest w w' w'' p.0 q)
              (load_items-Filled items rest w' h p.0.sound (omega (arith, p.1, room_left))
                (AllAllowed-same w w' rest p.0.options allowed.1)))
    where
      allowed : AllAllowed w ((net, v) ∷ rest)
      allowed = subst (AllAllowed w) same a

      room_left : length w.pool.values + suc (length rest) ≤ 2 ^ 32
      room_left = subst (λ x. length w.pool.values + length x ≤ 2 ^ 32) same room
