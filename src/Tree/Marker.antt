-- ===== src/Tree/Marker.antt =====
-- `install_marker` (src/tree.rs): a reserved network or an alias in the tree.
use native.Mathlib.Numerals.{add-one}
use mmdb_writer.Base.{
  ℕ, zero, suc, ◌+◌, ◌-◌, ◌≤◌, ◌<◌, ◌≡◌, ◌≢◌, refl, sym, ◌∙◌, ap, Bool, true, false, some, [], ◌∷◌,
  ◌++◌, ◌==◌, if◌then◌else◌, inl, inr, length, get_elem?, get_elem?-lt, get_elem?-set_self,
  false_of_not_true, ◌^◌, arith,
}
use mmdb_writer.Tree.Run.{node, Node, pair, child, with_child, Nodes, Cmd, default_node}
use mmdb_writer.Tree.{bit_at, mark_last, mark_further, marker_loop, install_marker}
use mmdb_writer.Tree.Trie.{
  Leaf, empty, value, alias_to, blocked, Trie, leaf, branch, leaf_record, root_record, has, Holds,
  IsDistinct, Fits, view, ne_of_out,
}
use mmdb_writer.Tree.Moved.{Moved, Moved-refl, Moved-trans, graft_left, graft_right}
use mmdb_writer.Tree.Returns.{
  Returns, returns, bind, mono, load-ok, set_child-ok, with_child-child, alloc_node-Returns,
}
use mmdb_writer.Tree.Descend.{Moved-write, Moved-rehole}
use mmdb_writer.Tree.Grow.{split_node, split_nodes, still_here, in_range, Holds-split, Moved-split}
use mmdb_writer.Tree.Insert.{IsTree, trie}
use mmdb_writer.Tree.Prefix.{prefix, covers_iff}
use mmdb_writer.Tree.Marked.{
  bit_at-cases, vacant, Marked, Marked-none, Marked-leaf, Marked-split, Marked-left, Marked-right,
}

module _ {S : Type 0} (bits : ℕ) (x : Leaf) where
  -- What becomes of the record of node `i` for the bit `b`, which leads to `t` at depth `d`, where
  -- `m` bits of the network are left. `n` is the node before.
  record RecordMarked (m d i b : ℕ) (n : Node) (t : Trie) (ns : Nodes) (u : Unit {0}) (ns' : Nodes)
      (s' : S) : Type 0 where
    after : Trie
    moved : Moved i ns t ns' after
    marks : Marked bits x d m t after
    fits : Fits d after
    link : get_elem? ns' i ≡ some (with_child n b (root_record after))

  -- What becomes of the node `c` with its parts `l` and `r`.
  record NodeMarked (m d c : ℕ) (f : Bool) (l r : Trie) (ns : Nodes) (u : Unit {0}) (ns' : Nodes)
      (s' : S) : Type 0 where
    left : Trie
    right : Trie
    moved : Moved c ns (branch f c l r) ns' (branch f c left right)
    marks : Marked bits x d m (branch f c l r) (branch f c left right)
    fits_left : Fits (suc d) left
    fits_right : Fits (suc d) right

  -- That a command does so at every node of depth `d`.
  abbrev MarksNodes : (ℕ → Cmd S (Unit {0})) → ℕ → ℕ → Type 0
  MarksNodes go m d =
      (c : ℕ) (f : Bool) (l r : Trie) (ns : Nodes) (s : S)
      → Holds ns (branch f c l r)
      → IsDistinct (branch f c l r)
      → Fits (suc d) l
      → Fits (suc d) r
      → Returns (NodeMarked m d c f l r ns) (go c ns s)

  module _ (i b : ℕ) (n : Node) (ns : Nodes) (s : S) (here : get_elem? ns i ≡ some n) where
    unmarked :
        (m d : ℕ) (t : Trie)
        → child n b ≡ root_record t
        → Holds ns t
        → IsDistinct t
        → Fits d t
        → vacant m d bits t ≡ false
        → RecordMarked m d i b n t ns tt ns s
    unmarked m d t leads h dist fits v = record {
      after = t;
      moved = Moved-refl i ns t h dist;
      marks = Marked-none bits x d m t v;
      fits = fits;
      link = here ∙ ap some (sym (with_child-child n b) ∙ ap (with_child n b) leads);
    }

    mark_last-Returns :
        (d : ℕ) (t : Trie)
        → child n b ≡ root_record t
        → Holds ns t
        → IsDistinct t
        → Fits d t
        → Returns (RecordMarked 0 d i b n t ns) (mark_last i b (leaf_record x) (root_record t) ns s)
    unfolding mark_last vacant
    mark_last-Returns d (leaf empty) leads h dist fits =
        rw (set_child-ok ns i n here s b (leaf_record x)) (
          returns (record {
            after = leaf x;
            moved = Moved-write i ns (leaf empty) _ x;
            marks = Marked-leaf bits x d;
            fits = tt;
            link = get_elem?-set_self ns i _ (get_elem?-lt ns i n here);
          }))
    mark_last-Returns d (leaf (value id)) leads h dist fits =
        returns (unmarked 0 d _ leads h dist fits refl)
    mark_last-Returns d (leaf (alias_to a)) leads h dist fits =
        returns (unmarked 0 d _ leads h dist fits refl)
    mark_last-Returns d (leaf blocked) leads h dist fits =
        returns (unmarked 0 d _ leads h dist fits refl)
    mark_last-Returns d (branch false j l r) leads h dist fits =
        returns (unmarked 0 d _ leads h dist fits refl)
    mark_last-Returns d (branch true j l r) leads h dist fits =
        returns (unmarked 0 d _ leads h dist fits refl)

    -- A node that the loop goes on to.
    entered :
        (m d c : ℕ) (f : Bool) (l r : Trie) (u : Unit {0}) (ns' : Nodes) (s' : S)
        → child n b ≡ root_record (branch f c l r)
        → has i (branch f c l r) ≡ false
        → d < 128
        → NodeMarked m d c f l r ns u ns' s'
        → RecordMarked m d i b n (branch f c l r) ns u ns' s'
    entered m d c f l r u ns' s' leads out hd nd = record {
      after = branch f c nd.left nd.right;
      moved = Moved-rehole i c f l r _ ns ns' nd.moved;
      marks = nd.marks;
      fits = (hd, nd.fits_left, nd.fits_right);
      link =
          nd.moved.frame i (get_elem?-lt ns i n here) out (ne_of_out i c f l r out)
          ∙ here
          ∙ ap some (sym (with_child-child n b) ∙ ap (with_child n b) leads);
    }

    -- A new node for an empty record.
    grown :
        (k d : ℕ) (u : Unit {0}) (ns' : Nodes) (s' : S)
        → d < 128
        → NodeMarked
            (suc k)
            d
            (length ns)
            false
            (leaf empty)
            (leaf empty)
            (split_nodes ns i b n here empty)
            u
            ns'
            s'
        → RecordMarked (suc k) d i b n (leaf empty) ns u ns' s'
    grown k d u ns' s' hd nd = record {
      after = branch false (length ns) nd.left nd.right;
      moved =
          Moved-trans i (Moved-split ns i b n here empty)
            (Moved-rehole i (length ns) false (leaf empty) (leaf empty) _ _ ns' nd.moved);
      marks = Marked-split bits x d k false (length ns) _ nd.marks;
      fits = (hd, nd.fits_left, nd.fits_right);
      link =
          nd.moved.frame i (get_elem?-lt _ i _ hole) out
            (ne_of_out i (length ns) false (leaf empty) (leaf empty) out)
          ∙ hole;
    }
      where
        hole :
            get_elem? (split_nodes ns i b n here empty) i ≡ some (with_child n b (node (length ns)))
        hole = get_elem?-set_self _ i _ (get_elem?-lt _ i n (still_here ns i b n here empty))

        out : has i (branch false (length ns) (leaf empty) (leaf empty)) ≡ false
        out = let lt = in_range ns i b n here empty in ground arith

    mark_further-Returns :
        (go : ℕ → Cmd S (Unit {0})) (k d : ℕ) (t : Trie)
        → MarksNodes go (suc k) d
        → d < 128
        → child n b ≡ root_record t
        → Holds ns t
        → IsDistinct t
        → Fits d t
        → has i t ≡ false
        → Returns (RecordMarked (suc k) d i b n t ns) (mark_further go i b (root_record t) ns s)
    unfolding mark_further vacant
    mark_further-Returns go k d (leaf empty) all hd leads h dist fits out =
        bind (alloc_node-Returns default_node ns s) λ c ns₁ s₁ e.
          rw (e.0, e.1, e.2)
            (rw
              (set_child-ok (ns ++ (split_node ns i b n here empty ∷ [])) i n
                (still_here ns i b n here empty) s b (node (length ns)))
              (mono
                (all (length ns) false (leaf empty) (leaf empty) (split_nodes ns i b n here empty) s
                  (Holds-split ns i b n here empty) (refl, refl, λ a m. refl, tt, tt) tt tt)
                λ u ns' s' nd. grown k d u ns' s' hd nd))
    mark_further-Returns go k d (leaf (value id)) all hd leads h dist fits out =
        returns (unmarked (suc k) d _ leads h dist fits refl)
    mark_further-Returns go k d (leaf (alias_to a)) all hd leads h dist fits out =
        returns (unmarked (suc k) d _ leads h dist fits refl)
    mark_further-Returns go k d (leaf blocked) all hd leads h dist fits out =
        returns (unmarked (suc k) d _ leads h dist fits refl)
    mark_further-Returns go k d (branch false c l r) all hd leads h dist fits out =
        mono (all c false l r ns s h dist fits.1 fits.2)
          λ u ns' s' nd. entered (suc k) d c false l r u ns' s' leads out hd nd
    mark_further-Returns go k d (branch true c l r) all hd leads h dist fits out =
        mono (all c true l r ns s h dist fits.1 fits.2)
          λ u ns' s' nd. entered (suc k) d c true l r u ns' s' leads out hd nd

  module _ (d c : ℕ) (f : Bool) (l r : Trie) (ns : Nodes) (holds : Holds ns (branch f c l r))
      (dist : IsDistinct (branch f c l r)) (fl : Fits (suc d) l) (fr : Fits (suc d) r) where
    marked_left :
        (m : ℕ) (u : Unit {0}) (ns' : Nodes) (s' : S)
        → bit_at bits d ≡ 0
        → RecordMarked m (suc d) c 0 (pair (root_record l) (root_record r)) l ns u ns' s'
        → NodeMarked (suc m) d c f l r ns u ns' s'
    unfolding with_child
    marked_left m u ns' s' z a = record {
      left = a.after;
      right = r;
      moved = graft_left f c l r holds dist a.after a.moved a.link;
      marks = Marked-left bits x d m f c l a.after r z a.marks;
      fits_left = a.fits;
      fits_right = fr;
    }

    marked_right :
        (m : ℕ) (u : Unit {0}) (ns' : Nodes) (s' : S)
        → bit_at bits d ≡ 1
        → RecordMarked m (suc d) c 1 (pair (root_record l) (root_record r)) r ns u ns' s'
        → NodeMarked (suc m) d c f l r ns u ns' s'
    unfolding with_child
    marked_right m u ns' s' z a = record {
      left = l;
      right = a.after;
      moved = graft_right f c l r holds dist a.after a.moved a.link;
      marks = Marked-right bits x d m f c l r a.after z a.marks;
      fits_left = fl;
      fits_right = a.fits;
    }

  -- With `suc k` bits left before the end of the prefix the loop ends within its rounds.
  marker_loop-MarksNodes :
      (k d prefix_len : ℕ)
      → suc k + d ≡ prefix_len
      → prefix_len ≤ 128
      → MarksNodes (marker_loop (suc k) d bits prefix_len (leaf_record x)) (suc k) d
  unfolding marker_loop child
  marker_loop-MarksNodes zero d prefix_len e plen c f l r ns s h dist fl fr =
      rw (load-ok ns c _ h.0 s, at_end)
        (elim (bit_at-cases bits d) [
          | inl z ↦ rw z (
              mono (mark_last-Returns c 0 _ ns s h.0 (suc d) l refl h.1 dist.3 fl)
                λ u ns' s' a. marked_left d c f l r ns h dist fl fr 0 u ns' s' z a)
          | inr z ↦ rw z (
              mono (mark_last-Returns c 1 _ ns s h.0 (suc d) r refl h.2 dist.4 fr)
                λ u ns' s' a. marked_right d c f l r ns h dist fl fr 0 u ns' s' z a)
        ])
    where
      at_end : (d == prefix_len - 1) ≡ true
      at_end = ground arith
  marker_loop-MarksNodes (suc k) d prefix_len e plen c f l r ns s h dist fl fr =
      let further : MarksNodes (marker_loop (suc k) (suc d) bits prefix_len (leaf_record x)) (suc k)
          (suc d) =
        marker_loop-MarksNodes k (suc d) prefix_len (omega arith) plen in
      rw (load-ok ns c _ h.0 s, before_end, add-one d)
        (elim (bit_at-cases bits d) [
          | inl z ↦ rw z (
              mono
                (mark_further-Returns c 0 _ ns s h.0 _ k (suc d) l further room refl h.1 dist.3 fl
                  dist.0)
                λ u ns' s' a. marked_left d c f l r ns h dist fl fr (suc k) u ns' s' z a)
          | inr z ↦ rw z (
              mono
                (mark_further-Returns c 1 _ ns s h.0 _ k (suc d) r further room refl h.2 dist.4 fr
                  dist.1)
                λ u ns' s' a. marked_right d c f l r ns h dist fl fr (suc k) u ns' s' z a)
        ])
    where
      before_end : (d == prefix_len - 1) ≡ false
      before_end = ground arith

      room : suc d < 128
      room = omega arith

  -- A tree in which the marker `x` was installed at the first `prefix_len` bits of `bits`.
  pub record Painted (prefix_len : ℕ) (ns : Nodes) (w : IsTree ns) (u : Unit {0}) (ns' : Nodes)
      (s' : S) : Type 0 where
    pub tree : IsTree ns'
    pub inside :
        (addr : ℕ)
        → addr < 2 ^ 128
        → prefix bits prefix_len ≡ prefix addr prefix_len
        → view (trie tree) addr 0
          ≡ (if vacant prefix_len 0 bits (trie w) then x else view (trie w) addr 0)
    pub outside :
        (addr : ℕ)
        → addr < 2 ^ 128
        → prefix bits prefix_len ≢ prefix addr prefix_len
        → view (trie tree) addr 0 ≡ view (trie w) addr 0

  -- The installation of a marker, an alias or a reserved network, at a prefix of 1 to 128 bits in a
  -- tree ends without a panic and within its rounds, and fails only for want of node indices.
  -- Otherwise the nodes are a tree again: the addresses of the prefix have the marker if nothing
  -- stood at its place or on the way to it, and otherwise, as all other addresses, what they had
  -- before.
  pub install_marker-Returns :
      (prefix_len : ℕ) (ns : Nodes) (s : S) (w : IsTree ns)
      → 1 ≤ prefix_len
      → prefix_len ≤ 128
      → bits < 2 ^ 128
      → Returns (Painted prefix_len ns w) (install_marker bits prefix_len (leaf_record x) ns s)
  unfolding install_marker
  install_marker-Returns zero ns s w pos plen hb = absurd (omega arith)
  install_marker-Returns (suc k) ns s w pos plen hb =
      mono
        (marker_loop-MarksNodes k 0 (suc k) (omega arith) plen 0 false w.left w.right ns s w.holds
          w.distinct w.fits.1 w.fits.2)
        λ u ns' s' nd. record {
          tree = record {
            left = nd.left;
            right = nd.right;
            holds = nd.moved.holds;
            distinct = nd.moved.distinct;
            fits = (omega arith, nd.fits_left, nd.fits_right);
          };
          inside =
              λ addr ha e. nd.marks.marked addr ((covers_iff (suc k) bits addr plen hb ha).1 e);
          outside = λ addr ha ne.
              nd.marks.same addr
                (false_of_not_true _ (λ t. ne ((covers_iff (suc k) bits addr plen hb ha).0 t)));
        }
