-- ===== src/Examples/Built.antt =====
-- The build of a small writer: one value at the left half of the addresses.
use mmdb_writer.DataSection.Encodable.{IsEncodable}
use mmdb_writer.Tree.{bit_at}
use mmdb_writer.Base.{
  zero, suc, some, sym, ◌∙◌, some-injective, ◌⊎◌, inl, inr, Bool-cases, ◌==◌, ℕ, ◌≡◌, refl, [], ◌∷◌,
  ap, arith,
}
use mathlib.Core.Path.{subst}
use mmdb_writer.Value.{Value, u32}
use mmdb_writer.Options.{is_enabled}
use mmdb_writer.Tree.{install_ipv4_aliases, walk_left}
use mmdb_writer.Pool
use mmdb_writer.Pool.{ValuePool, IsPool, new-IsPool, intern-Interned}
use mmdb_writer.Tree.Run.{pair, populated, no_data, Nodes, Run, load}
use mmdb_writer.Tree.Get.{leaf_id}
use mmdb_writer.Tree.Insert.{IsTree, trie}
use mmdb_writer.Tree.InsertGet.{IsOpen}
use mmdb_writer.Tree.Trie.{leaf, value, empty, view}
use mmdb_writer.Writer.{Writer}
use mmdb_writer.Writer.Calls.{default_options}
use mmdb_writer.Writer.Sound.{IsSound}
use mmdb_writer.Writer.Build.{build, aliased, aliased_tree}
use mmdb_writer.Writer.Build.Built.{IsExpressible, IsBuilt, build-IsBuilt}

abbrev one_value : ValuePool
one_value = record { values = u32 7 ∷ []; index = (u32 7, 0) ∷ [] }

interned : Pool.intern (u32 7) Pool.new ≡ some (one_value, 0)
unfolding Pool.intern Pool.new Pool.index_get
interned = refl

one_value-IsPool : IsPool one_value
unfolding Pool.new
one_value-IsPool =
    let (p, id, is, done) = intern-Interned (u32 7) Pool.new new-IsPool (omega arith) in
    subst IsPool (ap (λ x. x.0) (some-injective (sym is ∙ interned))) done.pool

abbrev half_nodes : Nodes
half_nodes = pair (populated 0) no_data ∷ []

abbrev half_writer : Writer
half_writer = record (default_options []) { tree = half_nodes; pool = one_value }

half_tree : IsTree half_nodes
half_tree = record {
  left = leaf (value 0);
  right = leaf empty;
  holds = (refl, tt, tt);
  distinct = (refl, refl, λ a m. refl, tt, tt);
  fits = (omega arith, tt, tt);
}

half_view :
    (addr : ℕ) → (view (trie half_tree) addr 0 ≡ value 0) ⊎ (view (trie half_tree) addr 0 ≡ empty)
unfolding half_tree view
half_view addr = elim (Bool-cases (bit_at addr 0 == 0)) [
  | inl z ↦ inl (rw z refl)
  | inr z ↦ inr (rw z refl)
]

half_known :
    (addr id : ℕ)
    → leaf_id (view (trie half_tree) addr 0) ≡ some id
    → (v : Value) × (Pool.get one_value id ≡ some v)
unfolding Pool.get
half_known addr id e = elim (half_view addr) [
  | inl h ↦
      let zero_id : 0 ≡ id = some-injective (sym (ap leaf_id h) ∙ e) in
      (u32 7, subst (λ i. Pool.get one_value i ≡ some (u32 7)) zero_id refl)
  | inr h ↦ cc (sym (ap leaf_id h) ∙ e)
]

half_sound : IsSound half_writer
unfolding default_options
half_sound = record {
  six = refl;
  tree = half_tree;
  pool = one_value-IsPool;
  open_at = λ addr small. elim (half_view addr) [
    | inl h ↦ subst IsOpen (sym h) tt
    | inr h ↦ subst IsOpen (sym h) tt
  ];
  known = λ addr id small. half_known addr id;
}

half-IsExpressible : IsExpressible half_writer
unfolding Pool.get default_options IsEncodable
half-IsExpressible zero v e = subst IsEncodable (some-injective e) (omega arith)
half-IsExpressible (suc id) v e = cc

-- The walk to the IPv4 subtree ends at the value.
half_unaliased : aliased half_writer ≡ Run.ok tt half_nodes tt
unfolding aliased aliased_tree is_enabled default_options install_ipv4_aliases walk_left load
half_unaliased = refl

build-IsBuilt_example : IsBuilt 1700000000 half_writer (build 1700000000 half_writer)
unfolding default_options
build-IsBuilt_example =
    build-IsBuilt 1700000000 half_writer half_sound half-IsExpressible half_unaliased refl
      (omega arith)
