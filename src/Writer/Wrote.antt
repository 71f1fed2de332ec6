-- ===== src/Writer/Wrote.antt =====
-- src/writer.rs: an insertion into an IPv6 writer, and one over a range, by the values of
-- addresses.
use mathlib.Core.Path.{subst}
use mmdb_writer.Base.{
  ◌+◌, ◌≤◌, length, ℕ, ◌^◌, ◌<◌, ◌≡◌, refl, sym, ap, ◌∙◌, true, false, Option, none, some, inl, inr,
  Bool-cases, some-injective,
}
use mmdb_writer.Value.{Value}
use mmdb_writer.Error.{of_tree}
use mmdb_writer.Net.Range.{done}
use mmdb_writer.Net.Networks.{Ipnet, IpnetLaws, IpNet, to_tree_prefix}
use mmdb_writer.Net.Families.{in_net}
use mmdb_writer.Pool
use mmdb_writer.Pool.{HasRoom}
use mmdb_writer.Tree
use mmdb_writer.Tree.Trie.{view}
use mmdb_writer.Tree.Insert.{trie}
use mmdb_writer.Tree.Get.{leaf_id, get-view}
use mmdb_writer.Tree.InsertGet.{IsOpen-Plain}
use mmdb_writer.Writer.{Writer, ensure_insertable, insert_value}
use mmdb_writer.Writer.Get.{value_of_id}
use mmdb_writer.Writer.Stored.{Stored, Succeeds, Succeeds-mono, insert_value-Stored}
use mmdb_writer.Writer.Sound.{
  IsSound, get-here, value_at-here, Wrote, Placed, to_tree_prefix-Placed,
}

module _ (I : Ipnet) (laws : IpnetLaws I) (net : IpNet I) (value : Value) (w : Writer)
    (s : IsSound w) where
  module _ (p : Placed I laws net) (w' : Writer) (st : Stored p.at value w s.tree w') where
    abbrev leaf_before : ℕ → Option ℕ
    leaf_before addr = leaf_id (view (trie s.tree) addr 0)

    abbrev leaf_after : ℕ → Option ℕ
    leaf_after addr = leaf_id (view (trie st.tree) addr 0)

    get-after : (addr : ℕ) → addr < 2 ^ 128 → Tree.get w'.tree addr 128 ≡ some (leaf_after addr)
    get-after addr small =
        get-view w'.tree st.tree addr (IsOpen-Plain _ (st.opened addr (s.open_at addr small)))

    leaf_inside :
        (addr : ℕ) → addr < 2 ^ 128 → in_net I addr net ≡ true → leaf_after addr ≡ some st.id
    leaf_inside addr small t = some-injective (
        sym (get-after addr small)
        ∙ st.inside addr small ((p.same addr).0 t) (s.open_at addr small) (leaf_before addr)
            (get-here w s addr small))

    leaf_outside :
        (addr : ℕ) → addr < 2 ^ 128 → in_net I addr net ≡ false → leaf_after addr ≡ leaf_before addr
    leaf_outside addr small f = some-injective (
        sym (get-after addr small)
        ∙ st.outside addr small (λ e. cc (f, (p.same addr).1 e))
            (IsOpen-Plain _ (s.open_at addr small))
        ∙ get-here w s addr small)

    after-IsSound : IsSound w'
    after-IsSound = record {
      six = ap (λ (x : Writer). x.ip_version) st.options ∙ s.six;
      tree = st.tree;
      pool = st.pool;
      open_at = λ addr small. st.opened addr (s.open_at addr small);
      known = λ addr id small e. elim (Bool-cases (in_net I addr net)) [
        | inl t ↦ (
          value,
          subst (λ j. Pool.get w'.pool j ≡ some value)
              (some-injective (sym (leaf_inside addr small t) ∙ e)) st.stored,
        )
        | inr f ↦
            let (v, h) = s.known addr id small (sym (leaf_outside addr small f) ∙ e) in
            (v, st.kept v id h)
      ];
    }

    -- The value of an id that the writer knew.
    same_value :
        (id : Option ℕ)
        → ((j : ℕ) → id ≡ some j → (v : Value) × (Pool.get w.pool j ≡ some v))
        → value_of_id w' (some id) ≡ value_of_id w (some id)
    unfolding value_of_id
    same_value none known = refl
    same_value (some j) known = let (v, h) = known j refl in rw (h, st.kept v j h, value_of_id) refl

    after-Wrote : Wrote (λ addr. in_net I addr net) value w w'
    unfolding value_of_id after-IsSound
    after-Wrote = record {
      options = st.options;
      sound = after-IsSound;
      room = inr (st.id, st.stored);
      values = λ addr small. elim (Bool-cases (in_net I addr net)) [
        | inl t ↦ rw t (
            value_at-here w' after-IsSound addr small
            ∙ ap (λ x. value_of_id w' (some x)) (leaf_inside addr small t)
            ∙ rw (st.stored, value_of_id) refl)
        | inr f ↦ rw f (
            value_at-here w' after-IsSound addr small
            ∙ ap (λ x. value_of_id w' (some x)) (leaf_outside addr small f)
            ∙ same_value (leaf_before addr) (λ j e. s.known addr j small e)
            ∙ sym (value_at-here w s addr small))
      ];
    }

  -- Together with what it adds to the pool.
  pub insert_value-Grown :
      HasRoom value w.pool
      → ensure_insertable I net w ≡ done none
      → Succeeds of_tree
          (λ w'.
            Wrote (λ addr. in_net I addr net) value w w'
            × (length w'.pool.values ≤ length w.pool.values + 1))
          (insert_value I net value w)
  insert_value-Grown room allowed =
      let p = to_tree_prefix-Placed I laws net in
      Succeeds-mono (λ w' st. (after-Wrote p w' st, st.grown))
        (insert_value-Stored I net value w p.at laws allowed
          (ap (to_tree_prefix I net) s.six ∙ p.is) s.tree s.pool room)

  -- With ipnet as documented, an insertion into a sound IPv6 writer (nothing in its tree is
  -- reserved or aliased, and every id in it has a value), with room for the value, at a network
  -- that passes the guards returns, with an error only if the tree has 2^32 nodes. Otherwise the
  -- writer is sound again, with its options as they were: a lookup at the word of an address of the
  -- network finds the value, and one at any other word what it found before.
  pub insert_value-Wrote :
      HasRoom value w.pool
      → ensure_insertable I net w ≡ done none
      → Succeeds of_tree (Wrote (λ addr. in_net I addr net) value w) (insert_value I net value w)
  insert_value-Wrote room allowed = Succeeds-mono (λ w' p. p.0) (insert_value-Grown room allowed)
