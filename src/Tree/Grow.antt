-- ===== src/Tree/Grow.antt =====
-- The leaf cases of `insert_at_record`: the closure is called, or the leaf is split into a new
-- node.
use mathlib.Core.Path.{subst}
use mmdb_writer.Base.{
  ℕ, ◌-◌, ◌≤◌, ◌<◌, ◌≡◌, refl, sym, ◌∙◌, ap, false, Option, some, [], ◌∷◌, ◌++◌, ltb, inl, inr,
  length, get_elem?, set, Bool-cases, get_elem?-lt, get_elem?-set_self, get_elem?-set_ne,
  get_elem?-append_left, get_elem?-append_here, length-set, length-append, arith,
}
use mmdb_writer.Tree.Run.{node, Node, pair, with_child, Nodes, Cmd, and_then, set_child}
use mmdb_writer.Tree.{collapse}
use mmdb_writer.Tree.Trie.{Leaf, Trie, leaf, branch, leaf_record, root_record, has, Holds}
use mmdb_writer.Tree.Moved.{Moved, Moved-trans}
use mmdb_writer.Tree.Update.{
  OpLaw, Changed, Changed-before, Changed-leaf, leaf_of, view-branch_twins,
}
use mmdb_writer.Tree.Returns.{Returns, mono, set_child-ok, child-with_child, with_child-with_child}
use mmdb_writer.Tree.Done.{RecordDone, Inserts}
use mmdb_writer.Tree.Descend.{Moved-write, Room, descend}

-- A leaf of node `i` becomes a new node, whose parts are that leaf.
module _ (ns : Nodes) (i b : ℕ) (n : Node) (here : get_elem? ns i ≡ some n) (x : Leaf) where
  abbrev pub split_node : Node
  split_node = pair (leaf_record x) (leaf_record x)

  abbrev pub split_trie : Trie
  split_trie = branch false (length ns) (leaf x) (leaf x)

  abbrev pub split_nodes : Nodes
  split_nodes = set (ns ++ (split_node ∷ [])) i (with_child n b (node (length ns)))

  pub in_range : i < length ns
  in_range = get_elem?-lt ns i n here

  pub still_here : get_elem? (ns ++ (split_node ∷ [])) i ≡ some n
  still_here = get_elem?-append_left ns (split_node ∷ []) i in_range ∙ here

  pub Holds-split : Holds split_nodes split_trie
  Holds-split = (
    get_elem?-set_ne (ns ++ (split_node ∷ [])) i (length ns) _ (omega (arith, in_range))
        ∙ get_elem?-append_here ns split_node,
    tt,
    tt,
  )

  pub Moved-split : Moved i ns (leaf x) split_nodes split_trie
  Moved-split = record {
    holds = Holds-split;
    distinct = (refl, refl, λ a m. refl, tt, tt);
    frame = λ a lt out ne.
        get_elem?-set_ne (ns ++ (split_node ∷ [])) i a _ (λ e. ne (sym e))
        ∙ get_elem?-append_left ns (split_node ∷ []) a lt;
    fresh = λ a lt out. ground arith;
    longer = omega (
      arith,
      length-set (ns ++ (split_node ∷ [])) i (with_child n b (node (length ns))),
      length-append ns (split_node ∷ []),
    );
  }

module _ {S : Type 0} {op : S → Option ℕ → Option ℕ × S} (law : OpLaw op) (bits prefix_len : ℕ)
    (plen : prefix_len ≤ 128) where
  open law use {Inv}

  -- Past the end of the prefix a leaf changes to the closure's answer.
  pub Changed-answer :
      (d : ℕ) (old : Option ℕ) (s : S)
      → prefix_len < d
      → Inv s
      → Changed law bits d
          (prefix_len - d)
          (leaf (leaf_of old))
          s
          (leaf (leaf_of (op s old).0))
          (op s old).1
  Changed-answer d old s h inv =
      subst
        (λ m.
          Changed law bits d m (leaf (leaf_of old)) s (leaf (leaf_of (op s old).0)) (op s old).1)
        (omega arith) (Changed-leaf law bits d old s inv)

  -- The answer is stored.
  pub written :
      (d i b : ℕ) (n : Node) (old : Option ℕ) (ns : Nodes) (s : S)
      → get_elem? ns i ≡ some n
      → prefix_len < d
      → Inv s
      → RecordDone law bits prefix_len d i b n
          (leaf (leaf_of old))
          ns
          s
          tt
          (set ns i (with_child n b (leaf_record (leaf_of (op s old).0))))
          (op s old).1
  written d i b n old ns s hi h inv = record {
    after = leaf (leaf_of (op s old).0);
    moved = Moved-write i ns (leaf (leaf_of old)) _ (leaf_of (op s old).0);
    changed = Changed-answer d old s h inv;
    fits = tt;
    link = get_elem?-set_self ns i _ (get_elem?-lt ns i n hi);
  }

  room : (d : ℕ) (x : Leaf) → d ≤ 128 → Room law bits prefix_len plen d (leaf x) (leaf x)
  room d x h = elim (Bool-cases (ltb d 128)) [
    | inl t ↦ inl (ground arith)
    | inr t ↦ inr (ground arith, (x, refl, refl))
  ]

  pub grow :
      (go : ℕ → ℕ → Cmd S (Unit {0})) (d i b : ℕ) (n : Node) (x : Leaf) (ns : Nodes) (s : S)
      → Inserts law bits prefix_len go d
      → d ≤ 128
      → get_elem? ns i ≡ some n
      → Inv s
      → Returns (RecordDone law bits prefix_len d i b n (leaf x) ns s) (
          and_then
            (set_child i b (node (length ns)) (ns ++ (pair (leaf_record x) (leaf_record x) ∷ [])) s)
            (λ _ ns' s'. and_then (go (length ns) d ns' s') (λ _. collapse i b (length ns))))
  grow go d i b n x ns s ins hd hi inv =
      rw
        (set_child-ok (ns ++ (split_node ns i b n hi x ∷ [])) i n (still_here ns i b n hi x) s b
          (node (length ns)))
        (mono
          (descend law bits prefix_len plen go d i b (length ns) (with_child n b (node (length ns)))
            (leaf x) (leaf x) (split_nodes ns i b n hi x) s ins hd hi'
            (child-with_child n b (node (length ns))) out (room d x hd) (Holds-split ns i b n hi x)
            (refl, refl, λ a m. refl, tt, tt) tt tt inv)
          finish)
    where
      hi' : get_elem? (split_nodes ns i b n hi x) i ≡ some (with_child n b (node (length ns)))
      hi' = get_elem?-set_self _ i _ (get_elem?-lt _ i n (still_here ns i b n hi x))

      out : has i (split_trie ns i b n hi x) ≡ false
      out = let lt = in_range ns i b n hi x in ground arith

      finish :
          (u : Unit {0}) (ns' : Nodes) (s' : S)
          → RecordDone law bits prefix_len d i b
              (with_child n b (node (length ns)))
              (split_trie ns i b n hi x)
              (split_nodes ns i b n hi x)
              s
              u
              ns'
              s'
          → RecordDone law bits prefix_len d i b n (leaf x) ns s u ns' s'
      finish u ns' s' rd = record {
        after = rd.after;
        moved = Moved-trans i (Moved-split ns i b n hi x) rd.moved;
        changed =
            Changed-before law bits d (prefix_len - d) (split_trie ns i b n hi x) (leaf x)
              (λ a. view-branch_twins false (length ns) (leaf x) (leaf x) x refl refl a d)
              rd.changed;
        fits = rd.fits;
        link =
            rd.link ∙ ap some (with_child-with_child n b (node (length ns)) (root_record rd.after));
      }
