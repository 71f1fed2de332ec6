-- ===== src/Writer/Sound.antt =====
-- An IPv6 writer (src/writer.rs) as a map from addresses to values: what it takes for the map to be
-- total, and what an insertion makes of it. IPv4 addresses are the words below 2^32.
use native.Mathlib.Nat.{mul-div_cancel}
use mathlib.Core.Path.{subst}
use mmdb_writer.Base.{
  ℕ, ◌+◌, ◌-◌, ◌*◌, ◌/◌, ◌^◌, ◌<◌, ◌≡◌, ◌↔◌, refl, sym, ap, ◌∙◌, Bool, true, Option, none, some,
  if◌then◌else◌, inl, inr, Option-cases, ◌==◌, ==_iff, arith,
}
use mmdb_writer.Value.{Value}
use mmdb_writer.Error.{ok}
use mmdb_writer.Net.{v6, tree_depth}
use mmdb_writer.Net.Range.{done}
use mmdb_writer.Net.Range.Blocks.{pow_pos}
use mmdb_writer.Net.Networks.{Ipnet, IpnetLaws, IpNet, net4, net6, to_tree_prefix}
use mmdb_writer.Net.Families.{in_net}
use mmdb_writer.Pool
use mmdb_writer.Pool.{IsPool, new-IsPool, HasRoom}
use mmdb_writer.Tree
use mmdb_writer.Tree.Trie.{view}
use mmdb_writer.Tree.Insert.{IsTree, trie, new-IsTree, view-new}
use mmdb_writer.Tree.Prefix.{prefix}
use mmdb_writer.Tree.Get.{leaf_id, get-view}
use mmdb_writer.Tree.InsertGet.{IsOpen, IsOpen-Plain}
use mmdb_writer.Writer.{Writer}
use mmdb_writer.Writer.Get.{value_of_id, value_at}

-- The nodes are a tree with no reserved leaf and no alias, and every id in it has a value.
pub record IsSound (w : Writer) : Type 0 where
  pub six : w.ip_version ≡ v6
  pub tree : IsTree w.tree
  pub pool : IsPool w.pool
  pub open_at : (addr : ℕ) → addr < 2 ^ 128 → IsOpen (view (trie tree) addr 0)
  pub known :
      (addr id : ℕ)
      → addr < 2 ^ 128
      → leaf_id (view (trie tree) addr 0) ≡ some id
      → (v : Value) × (Pool.get w.pool id ≡ some v)

module _ (w : Writer) (s : IsSound w) (addr : ℕ) (small : addr < 2 ^ 128) where
  abbrev here : Option ℕ
  here = leaf_id (view (trie s.tree) addr 0)

  pub get-here : Tree.get w.tree addr 128 ≡ some here
  get-here = get-view w.tree s.tree addr (IsOpen-Plain _ (s.open_at addr small))

  pub value_at-here : value_at w addr ≡ value_of_id w (some here)
  unfolding value_at tree_depth
  value_at-here =
      ap (λ version. value_of_id w (Tree.get w.tree addr (tree_depth version))) s.six
      ∙ ap (value_of_id w) get-here

  -- A lookup does not panic.
  pub value_at-done : (v : Option Value) × (value_at w addr ≡ done v)
  unfolding value_of_id
  value_at-done = elim (Option-cases here) [
    | inl e ↦ (none, value_at-here ∙ ap (λ x. value_of_id w (some x)) e)
    | inr (id, e) ↦
        let (v, h) = s.known addr id small e in
        (some v, value_at-here ∙ ap (λ x. value_of_id w (some x)) e ∙ rw (h, value_of_id) refl)
  ]

-- A writer with nothing in it.
abbrev pub fresh : Writer → Writer
fresh w = record w { tree = Tree.new; pool = Pool.new }

pub fresh-IsSound : (w : Writer) → w.ip_version ≡ v6 → IsSound (fresh w)
fresh-IsSound w six = record {
  six = six;
  tree = new-IsTree;
  pool = new-IsPool;
  open_at = λ addr small. subst IsOpen (sym (view-new addr)) tt;
  known = λ addr id small e. cc (ap leaf_id (view-new addr));
}

pub value_at-fresh :
    (w : Writer)
    → w.ip_version ≡ v6
    → (addr : ℕ) → addr < 2 ^ 128
    → value_at (fresh w) addr ≡ done none
unfolding fresh-IsSound value_of_id
value_at-fresh w six addr small =
    value_at-here (fresh w) (fresh-IsSound w six) addr small
    ∙ ap (λ x. value_of_id (fresh w) (some (leaf_id x))) (view-new addr)

-- What an insertion at the addresses that are `inside` makes of the writer `w`.
pub record Wrote (inside : ℕ → Bool) (value : Value) (w w' : Writer) : Type 0 where
  pub options : w' ≡ record w { tree = w'.tree; pool = w'.pool }
  pub sound : IsSound w'
  pub room : HasRoom value w'.pool
  pub values :
      (addr : ℕ)
      → addr < 2 ^ 128
      → value_at w' addr ≡ (if inside addr then done (some value) else value_at w addr)

module _ (I : Ipnet) (laws : IpnetLaws I) where
  truncated : (a t k : ℕ) → t ≡ a / 2 ^ k * 2 ^ k → t / 2 ^ k ≡ a / 2 ^ k
  truncated a t k e = ap (λ x. x / 2 ^ k) e ∙ mul-div_cancel (a / 2 ^ k) (pow_pos k)

  -- The prefix of a network in an IPv6 tree, and its addresses.
  pub record Placed (net : IpNet I) : Type 0 where
    pub at : ℕ × ℕ
    pub is : to_tree_prefix I net v6 ≡ ok at
    pub same : (addr : ℕ) → (in_net I addr net ≡ true) ↔ (prefix at.0 at.1 ≡ prefix addr at.1)

  tested : (x y z : ℕ) → x ≡ y → ((z == y) ≡ true) ↔ (x ≡ z)
  tested x y z e = (λ t. e ∙ sym ((==_iff z y).0 t), λ q. (==_iff z y).1 (sym q ∙ e))

  pub to_tree_prefix-Placed : (net : IpNet I) → Placed net
  unfolding to_tree_prefix
  to_tree_prefix-Placed (net6 n) = record {
    at = (I.addr6 (I.trunc6 n), I.prefix_len6 (I.trunc6 n));
    is = refl;
    same = λ addr. rw (laws.prefix_len6-trunc6 n) (
        tested _ _ (prefix addr (I.prefix_len6 n)) (
          truncated (I.addr6 n) (I.addr6 (I.trunc6 n)) (128 - I.prefix_len6 n)
            (laws.addr6-trunc6 n)));
  }
  to_tree_prefix-Placed (net4 n) = record {
    at = (I.addr4 (I.trunc4 n), 96 + I.prefix_len4 (I.trunc4 n));
    is = refl;
    same = λ addr.
        rw (laws.prefix_len4-trunc4 n, shift (I.prefix_len4 n))
          (tested _ _ (addr / 2 ^ (32 - I.prefix_len4 n)) (
            truncated (I.addr4 n) (I.addr4 (I.trunc4 n)) (32 - I.prefix_len4 n)
              (laws.addr4-trunc4 n)));
  }
    where
      shift : (len : ℕ) → 128 - (96 + len) ≡ 32 - len
      shift len = omega arith
