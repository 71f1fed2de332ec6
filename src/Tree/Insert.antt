-- ===== src/Tree/Insert.antt =====
-- `insert` writes the network's addresses and no others, on every tree.
use native.Mathlib.Numerals.{add-one}
use mmdb_writer.Base.{
  ℕ, zero, suc, ◌+◌, ◌-◌, ◌≤◌, ◌<◌, ◌≡◌, ◌⊎◌, refl, Bool, false, Option, ◌==◌, ltb, inl, inr,
  Bool-cases, arith,
}
use mmdb_writer.Tree.Run.{pair, child, with_child, Nodes, Cmd, and_then}
use mmdb_writer.Tree.{bit_at, insert_at_record, insert_step, insert_at_node, insert, new}
use mmdb_writer.Tree.Trie.{empty, Trie, leaf, branch, view, root_record, Holds, IsDistinct, Fits}
use mmdb_writer.Tree.Moved.{Moved-trans, graft_left, graft_right}
use mmdb_writer.Tree.Update.{
  OpLaw, Changed, Changed-both, Changed-left, Changed-right, Changed-width,
}
use mmdb_writer.Tree.Returns.{Returns, bind, mono}
use mmdb_writer.Tree.Done.{NodeDone, Inserts}
use mmdb_writer.Tree.AtRecord.{insert_at_record-Returns}

module _ {S : Type 0} {op : S → Option ℕ → Option ℕ × S} (law : OpLaw op) (bits prefix_len : ℕ)
    (plen : prefix_len ≤ 128) where
  open law use {Inv}

  bit-cases : (d : ℕ) → (bit_at bits d ≡ 0) ⊎ (bit_at bits d ≡ 1)
  unfolding bit_at
  bit-cases d = elim (Bool-cases (bit_at bits d == 0)) [
    | inl z ↦ inl (ground arith)
    | inr z ↦ inr (ground arith)
  ]

  module _ (go : ℕ → ℕ → Cmd S (Unit {0})) (d c : ℕ) (f : Bool) (l r : Trie) (ns : Nodes) (s : S)
      (ins : suc d ≤ 128 → Inserts law bits prefix_len go (suc d))
      (holds : Holds ns (branch f c l r)) (dist : IsDistinct (branch f c l r)) (fl : Fits (suc d) l)
      (fr : Fits (suc d) r) (inv : Inv s) where
    -- Below the prefix: both parts.
    broadcast :
        prefix_len ≤ d
        → Returns (NodeDone law bits prefix_len d c f l r ns s) (
            and_then
              (insert_at_record op bits prefix_len go c 0 (suc d) ns s)
              (λ _. insert_at_record op bits prefix_len go c 1 (suc d)))
    unfolding child with_child
    broadcast h =
        bind
          (insert_at_record-Returns law bits prefix_len plen go (suc d) c 0
            (pair (root_record l) (root_record r)) l ns s ins holds.0 refl holds.1 dist.3 dist.0 fl
            inv)
          (λ u ns' s' a.
            let left = graft_left f c l r holds dist a.after a.moved a.link in
            mono
              (insert_at_record-Returns law bits prefix_len plen go (suc d) c 1
                (pair (root_record a.after) (root_record r)) r ns' s' ins a.link refl left.holds.2
                left.distinct.4 left.distinct.1 fr a.changed.inv)
              (λ v ns'' s'' b. record {
                left = a.after;
                right = b.after;
                moved =
                    Moved-trans c left
                      (graft_right f c a.after r left.holds left.distinct b.after b.moved b.link);
                changed =
                    Changed-width law bits d 0 (prefix_len - d) (branch f c l r)
                      (branch f c a.after b.after) s s'' (omega arith)
                      (Changed-both law bits d f c l a.after r b.after s s' s''
                        (Changed-width law bits (suc d) (prefix_len - suc d) 0 l a.after s s'
                          (omega arith) a.changed)
                        (Changed-width law bits (suc d) (prefix_len - suc d) 0 r b.after s' s''
                          (omega arith) b.changed));
                fits_left = a.fits;
                fits_right = b.fits;
              }))

    -- Above it: the part to which the network's bit leads.
    one_side :
        d < prefix_len
        → Returns
            (NodeDone law bits prefix_len d c f l r ns s)
            (insert_at_record op bits prefix_len go c (bit_at bits d) (suc d) ns s)
    unfolding child with_child
    one_side h = elim (bit-cases d) [
      | inl z ↦ rw z (
          mono
            (insert_at_record-Returns law bits prefix_len plen go (suc d) c 0
              (pair (root_record l) (root_record r)) l ns s ins holds.0 refl holds.1 dist.3 dist.0
              fl inv)
            (λ u ns' s' a. record {
              left = a.after;
              right = r;
              moved = graft_left f c l r holds dist a.after a.moved a.link;
              changed =
                  Changed-width law bits d (suc (prefix_len - suc d)) (prefix_len - d)
                    (branch f c l r) (branch f c a.after r) s s' (omega arith)
                    (Changed-left law bits d (prefix_len - suc d) f c l a.after r s s' z a.changed);
              fits_left = a.fits;
              fits_right = fr;
            }))
      | inr z ↦ rw z (
          mono
            (insert_at_record-Returns law bits prefix_len plen go (suc d) c 1
              (pair (root_record l) (root_record r)) r ns s ins holds.0 refl holds.2 dist.4 dist.1
              fr inv)
            (λ u ns' s' b. record {
              left = l;
              right = b.after;
              moved = graft_right f c l r holds dist b.after b.moved b.link;
              changed =
                  Changed-width law bits d (suc (prefix_len - suc d)) (prefix_len - d)
                    (branch f c l r) (branch f c l b.after) s s' (omega arith)
                    (Changed-right law bits d (prefix_len - suc d) f c l r b.after s s' z
                      b.changed);
              fits_left = fl;
              fits_right = b.fits;
            }))
    ]

    insert_step-Returns :
        d ≤ 128
        → Returns
            (NodeDone law bits prefix_len d c f l r ns s)
            (insert_step op bits prefix_len go c d ns s)
    unfolding insert_step
    insert_step-Returns hd = rw (add-one d) (elim (Bool-cases (ltb prefix_len (suc d))) [
      | inl t ↦ rw t (broadcast (ground arith))
      | inr t ↦ rw t (one_side (ground arith))
    ])

  -- With `fuel` above what is left to depth 128 the recursion ends.
  insert_at_node-Inserts :
      (fuel d : ℕ)
      → 128 < fuel + d
      → Inserts law bits prefix_len (insert_at_node op bits prefix_len fuel) d
  unfolding insert_at_node
  insert_at_node-Inserts zero d h c f l r ns s hd holds dist fl fr inv = absurd (omega arith)
  insert_at_node-Inserts (suc fuel) d h c f l r ns s hd holds dist fl fr inv =
      insert_step-Returns (insert_at_node op bits prefix_len fuel) d c f l r ns s
        (λ _. insert_at_node-Inserts fuel (suc d) (omega arith)) holds dist fl fr inv hd

-- A vector of nodes that is a tree with its root at node 0.
pub record IsTree (ns : Nodes) : Type 0 where
  pub left : Trie
  pub right : Trie
  pub holds : Holds ns (branch false 0 left right)
  pub distinct : IsDistinct (branch false 0 left right)
  pub fits : Fits 0 (branch false 0 left right)

abbrev pub trie : {ns : Nodes} → IsTree ns → Trie
trie w = branch false 0 w.left w.right

-- A new tree has one node and no data.
pub new-IsTree : IsTree new
unfolding new
new-IsTree = record {
  left = leaf empty;
  right = leaf empty;
  holds = (refl, tt, tt);
  distinct = (refl, refl, λ a m. refl, tt, tt);
  fits = (omega arith, tt, tt);
}

pub view-new : (addr : ℕ) → view (trie new-IsTree) addr 0 ≡ empty
unfolding new-IsTree view
view-new addr = ground arith

-- The tree after an insertion.
pub record Inserted {S : Type 0} {op : S → Option ℕ → Option ℕ × S} (law : OpLaw op)
    (bits prefix_len : ℕ) (t : Trie) (s : S) (u : Unit {0}) (ns' : Nodes) (s' : S) : Type 0 where
  pub tree : IsTree ns'
  pub changed : Changed law bits 0 prefix_len t s (trie tree) s'

-- For a closure whose answers are consistent (there is a relation that says which answer to an old
-- value is right: in each state at most one is for each, every call that starts from a state with
-- the closure's invariant gives one that is right afterwards and keeps the invariant, and what was
-- right stays right after a call), started in such a state, and a prefix of at most 128 bits: on
-- every tree `insert` ends without a panic and within its fuel. It fails only for want of node
-- indices, and otherwise leaves a tree in which the addresses of the network have the answer to
-- what they had that is right in the closure's last state, aliases and reserved leaves excepted,
-- and all others what they had.
pub insert-Returns :
    {S : Type 0} {op : S → Option ℕ → Option ℕ × S} (law : OpLaw op) (bits prefix_len : ℕ)
    (ns : Nodes) (s : S) (w : IsTree ns)
    → prefix_len ≤ 128
    → law.Inv s
    → Returns (Inserted law bits prefix_len (trie w) s) (insert bits prefix_len op ns s)
unfolding insert
insert-Returns law bits prefix_len ns s w plen inv =
    mono
      (insert_at_node-Inserts law bits prefix_len plen 129 0 (omega arith) 0 false w.left w.right ns
        s (omega arith) w.holds w.distinct w.fits.1 w.fits.2 inv)
      (λ u ns' s' nd. record {
        tree = record {
          left = nd.left;
          right = nd.right;
          holds = nd.moved.holds;
          distinct = nd.moved.distinct;
          fits = (omega arith, nd.fits_left, nd.fits_right);
        };
        changed =
            Changed-width law bits 0 (prefix_len - 0) prefix_len (trie w)
              (branch false 0 nd.left nd.right) s s' (omega arith) nd.changed;
      })
