-- ===== src/Writer/Stored.antt =====
-- What `insert_value` stores, from the guards down to the tree.
use mathlib.Core.Path.{subst}
use mmdb_writer.Base.{ℕ, ◌+◌, ◌^◌, ◌≤◌, ◌<◌, ◌≡◌, ◌≢◌, refl, sym, Option, none, some, length, arith}
use mmdb_writer.Value.{Value}
use mmdb_writer.Error.{of_tree, ok, err}
use mmdb_writer.Net.{IpVersion, v4, v6, tree_depth}
use mmdb_writer.Net.Range.{done}
use mmdb_writer.Net.Networks.{
  Ipnet, IpnetLaws, IpNet, to_tree_prefix, IsTreePrefix, IsTreeResult, to_tree_prefix-IsTreeResult,
}
use mmdb_writer.Pool
use mmdb_writer.Pool.{ValuePool, IsPool, intern, HasRoom, intern-HasRoom}
use mmdb_writer.Tree.Run.{Nodes, Run, TreeError}
use mmdb_writer.Tree.{get}
use mmdb_writer.Tree.Trie.{view}
use mmdb_writer.Tree.Returns.{Returns, returns, too_large}
use mmdb_writer.Tree.Insert.{IsTree, trie}
use mmdb_writer.Tree.Prefix.{prefix}
use mmdb_writer.Tree.Get.{IsPlain}
use mmdb_writer.Tree.InsertGet.{IsOpen, insert-get}
use mmdb_writer.Writer.{Writer, Outcome, returned, of_run, ensure_insertable, guarded, insert_value}

-- The writer `w'` after `value` was inserted in `w` at the network with the prefix `p`.
pub record Stored (p : ℕ × ℕ) (value : Value) (w : Writer) (t : IsTree w.tree) (w' : Writer)
    : Type 0 where
  pub options : w' ≡ record w { tree = w'.tree; pool = w'.pool }
  pub tree : IsTree w'.tree
  pub pool : IsPool w'.pool
  pub id : ℕ
  pub stored : Pool.get w'.pool id ≡ some value
  pub kept : (v : Value) (j : ℕ) → Pool.get w.pool j ≡ some v → Pool.get w'.pool j ≡ some v
  pub grown : length w'.pool.values ≤ length w.pool.values + 1
  pub inside :
      (addr : ℕ)
      → addr < 2 ^ 128
      → prefix p.0 p.1 ≡ prefix addr p.1
      → IsOpen (view (trie t) addr 0)
      → (old : Option ℕ) → get w.tree addr 128 ≡ some old
      → get w'.tree addr 128 ≡ some (some id)
  pub opened : (addr : ℕ) → IsOpen (view (trie t) addr 0) → IsOpen (view (trie tree) addr 0)
  pub outside :
      (addr : ℕ)
      → addr < 2 ^ 128
      → prefix p.0 p.1 ≢ prefix addr p.1
      → IsPlain (view (trie t) addr 0)
      → get w'.tree addr 128 ≡ get w.tree addr 128

-- The call returns, with `P` of the writer or with an error of the tree, and then 2^32 nodes.
pub data Succeeds {E : Type 0} (wrap : TreeError → E) (P : Writer → Type 0)
    : Outcome E (Unit {0}) → Type 0 where
  succeeds : {u : Unit {0}} {w : Writer} → P w → Succeeds wrap P (returned (ok u) w)
  tree_full :
      {e : TreeError} {w : Writer}
      → 2 ^ 32 ≤ length w.tree
      → Succeeds wrap P (returned (err (wrap e)) w)

pub Succeeds-mono :
    {E : Type 0} {wrap : TreeError → E} {P Q : Writer → Type 0} {o : Outcome E (Unit {0})}
    → ((w : Writer) → P w → Q w)
    → Succeeds wrap P o
    → Succeeds wrap Q o
Succeeds-mono f (succeeds p) = succeeds (f _ p)
Succeeds-mono f (tree_full h) = tree_full h

of_run-Succeeds :
    {E S : Type 0} (wrap : TreeError → E) (P : Writer → Type 0) {Q : Unit {0} → Nodes → S → Type 0}
    {r : Run S (Unit {0})} (after : Nodes → S → Writer)
    → ((ns : Nodes) (s : S) → (after ns s).tree ≡ ns)
    → Returns Q r
    → ((u : Unit {0}) (ns : Nodes) (s : S) → Q u ns s → P (after ns s))
    → Succeeds wrap P (of_run wrap r after)
unfolding of_run
of_run-Succeeds wrap P after same (returns q) weaken = succeeds (weaken _ _ _ q)
of_run-Succeeds wrap P after same (too_large {ns = ns} {s = s} h) weaken =
    tree_full (subst (λ k. 2 ^ 32 ≤ length k) (sym (same ns s)) h)

tree_depth-le : (version : IpVersion) → tree_depth version ≤ 128
unfolding tree_depth
tree_depth-le v4 = omega arith
tree_depth-le v6 = omega arith

prefix_bounds :
    (I : Ipnet) (net : IpNet I) (version : IpVersion) (p : ℕ × ℕ)
    → IpnetLaws I
    → to_tree_prefix I net version ≡ ok p
    → (p.1 ≤ 128) × (p.0 < 2 ^ 128)
prefix_bounds I net version p laws e =
    let r : IsTreePrefix version p =
      subst (IsTreeResult I net version) e (to_tree_prefix-IsTreeResult I laws net version) in
    (omega (arith, r.0, tree_depth-le version), r.1)

-- With ipnet as documented, for a network that passes the guards and a writer whose tree is a tree
-- and whose pool has room for the value or has it already, `insert_value` returns, and with an
-- error only if the tree has 2^32 nodes. Otherwise the value has an id in the pool, the older ids
-- keep their values and the options are what they were; lookups at the network's addresses that are
-- neither reserved nor aliased find this id, and at all others that are not aliased what they found
-- before; no address becomes reserved or aliased that was neither.
pub insert_value-Stored :
    (I : Ipnet) (net : IpNet I) (value : Value) (w : Writer) (p : ℕ × ℕ)
    → IpnetLaws I
    → ensure_insertable I net w ≡ done none
    → to_tree_prefix I net w.ip_version ≡ ok p
    → (t : IsTree w.tree) → IsPool w.pool
    → HasRoom value w.pool
    → Succeeds of_tree (Stored p value w t) (insert_value I net value w)
unfolding insert_value guarded
insert_value-Stored I net value w p laws allowed at t wp room =
    let (pool, id, e, i) = intern-HasRoom value w.pool wp room in
    let (len, word) = prefix_bounds I net w.ip_version p laws at in
    rw (allowed, guarded, insert_value, at, e)
      (of_run-Succeeds of_tree (Stored p value w t) _ (λ ns s. refl)
        (insert-get (λ old. some id) p.0 p.1 w.tree t len word)
        (λ u ns s a. record {
          options = refl;
          tree = a.tree;
          pool = i.pool;
          id = id;
          stored = i.here;
          kept = i.kept;
          grown = i.grown;
          inside = a.inside;
          opened = a.opened;
          outside = a.outside;
        }))
