-- ===== src/Tree/AtRecord.antt =====
-- `insert_at_record`, whatever the record leads to.
use mathlib.Core.Path.{subst}
use mmdb_writer.Base.{
  ltb→lt, ℕ, ◌-◌, ◌≤◌, ◌≡◌, refl, sym, ◌∙◌, ap, true, false, Option, none, some, ltb, inl, inr,
  get_elem?, set, Bool-cases, Option-cases, get_elem?-lt, arith,
}
use mmdb_writer.Tree.Run.{no_data, populated, Node, pair, child, with_child, Nodes, Cmd}
use mmdb_writer.Tree.{call, insert_into, insert_at_record}
use mmdb_writer.Tree.Trie.{
  Leaf, empty, value, alias_to, blocked, Trie, leaf, branch, leaf_record, root_record, has,
  ne_of_out, Holds, IsDistinct, Fits,
}
use mmdb_writer.Tree.Moved.{Moved-refl}
use mmdb_writer.Tree.Update.{OpLaw, Changed, Changed-none, leaf_of}
use mmdb_writer.Tree.Returns.{
  Returns, returns, bind, mono, load-ok, set_child-ok, alloc_node-Returns, with_child-child,
}
use mmdb_writer.Tree.Done.{RecordDone, Inserts}
use mmdb_writer.Tree.Descend.{Moved-rehole, descend}
use mmdb_writer.Tree.Grow.{Changed-answer, written, grow}

module _ {S : Type 0} {op : S → Option ℕ → Option ℕ × S} (law : OpLaw op) (bits prefix_len : ℕ)
    (plen : prefix_len ≤ 128) where
  open law use {Inv}

  -- A record that stays as it is.
  untouched :
      (d i b : ℕ) (n : Node) (x : Leaf) (ns : Nodes) (s s' : S)
      → get_elem? ns i ≡ some n
      → child n b ≡ leaf_record x
      → Changed law bits d (prefix_len - d) (leaf x) s (leaf x) s'
      → RecordDone law bits prefix_len d i b n (leaf x) ns s tt ns s'
  untouched d i b n x ns s s' hi hb ch = record {
    after = leaf x;
    moved = Moved-refl i ns (leaf x) tt tt;
    changed = ch;
    fits = tt;
    link = hi ∙ ap some (sym (subst (λ q. with_child n b q ≡ n) hb (with_child-child n b)));
  }

  -- A leaf at or past the end of the prefix.
  answer :
      (go : ℕ → ℕ → Cmd S (Unit {0})) (d i b : ℕ) (n : Node) (old : Option ℕ) (ns : Nodes) (s : S)
      → get_elem? ns i ≡ some n
      → child n b ≡ leaf_record (leaf_of old)
      → ltb prefix_len d ≡ true
      → Inv s
      → Returns
          (RecordDone law bits prefix_len d i b n (leaf (leaf_of old)) ns s)
          (insert_into op bits prefix_len go i b d (leaf_record (leaf_of old)) ns s)
  unfolding insert_into call
  answer go d i b n none ns s hi hb t inv = rw t (elim (Option-cases (op s none).0) [
    | inl q ↦ rw q (
        returns (
          untouched d i b n empty ns s (op s none).1 hi hb (
            subst
              (λ o.
                Changed law bits d (prefix_len - d) (leaf empty) s (leaf (leaf_of o)) (op s none).1)
              q (Changed-answer law bits prefix_len plen d none s (ltb→lt _ _ t) inv))))
    | inr (id, q) ↦
        rw (q, set_child-ok ns i n hi (op s none).1 b (populated id))
          (returns (
            subst
              (λ o.
                RecordDone law bits prefix_len d i b n (leaf empty) ns s tt
                  (set ns i (with_child n b (leaf_record (leaf_of o)))) (op s none).1)
              q (written law bits prefix_len plen d i b n none ns s hi (ltb→lt _ _ t) inv)))
  ])
  answer go d i b n (some old_id) ns s hi hb t inv =
      let w = written law bits prefix_len plen d i b n (some old_id) ns s hi (ltb→lt _ _ t) inv in
      let to = λ (o : Option ℕ).
        RecordDone law bits prefix_len d i b n (leaf (value old_id)) ns s tt
          (set ns i (with_child n b (leaf_record (leaf_of o)))) (op s (some old_id)).1 in
      rw t (elim (Option-cases (op s (some old_id)).0) [
        | inl q ↦
            rw (q, set_child-ok ns i n hi (op s (some old_id)).1 b no_data) (returns (subst to q w))
        | inr (id, q) ↦
            rw (q, set_child-ok ns i n hi (op s (some old_id)).1 b (populated id))
              (returns (subst to q w))
      ])

  -- A leaf above the end of the prefix becomes a node.
  split_leaf :
      (go : ℕ → ℕ → Cmd S (Unit {0})) (d i b : ℕ) (n : Node) (old : Option ℕ) (ns : Nodes) (s : S)
      → (d ≤ 128 → Inserts law bits prefix_len go d)
      → get_elem? ns i ≡ some n
      → ltb prefix_len d ≡ false
      → Inv s
      → Returns
          (RecordDone law bits prefix_len d i b n (leaf (leaf_of old)) ns s)
          (insert_into op bits prefix_len go i b d (leaf_record (leaf_of old)) ns s)
  unfolding insert_into
  split_leaf go d i b n none ns s ins hi t inv =
      let hd : d ≤ 128 = ground arith in
      rw t (
        bind (alloc_node-Returns (pair no_data no_data) ns s) (λ c ns' s' (ec, en, es).
          rw (ec, en, es) (grow law bits prefix_len plen go d i b n empty ns s (ins hd) hd hi inv)))
  split_leaf go d i b n (some id) ns s ins hi t inv =
      let hd : d ≤ 128 = ground arith in
      rw t (
        bind (alloc_node-Returns (pair (populated id) (populated id)) ns s)
          (λ c ns' s' (ec, en, es).
            rw (ec, en, es)
              (grow law bits prefix_len plen go d i b n (value id) ns s (ins hd) hd hi inv)))

  at_leaf :
      (go : ℕ → ℕ → Cmd S (Unit {0})) (d i b : ℕ) (n : Node) (old : Option ℕ) (ns : Nodes) (s : S)
      → (d ≤ 128 → Inserts law bits prefix_len go d)
      → get_elem? ns i ≡ some n
      → child n b ≡ leaf_record (leaf_of old)
      → Inv s
      → Returns
          (RecordDone law bits prefix_len d i b n (leaf (leaf_of old)) ns s)
          (insert_into op bits prefix_len go i b d (leaf_record (leaf_of old)) ns s)
  at_leaf go d i b n old ns s ins hi hb inv = elim (Bool-cases (ltb prefix_len d)) [
    | inl t ↦ answer go d i b n old ns s hi hb t inv
    | inr t ↦ split_leaf go d i b n old ns s ins hi t inv
  ]

  -- `insert_at_record`, whatever the record leads to.
  insert_into-Returns :
      (go : ℕ → ℕ → Cmd S (Unit {0})) (d i b : ℕ) (n : Node) (t : Trie) (ns : Nodes) (s : S)
      → (d ≤ 128 → Inserts law bits prefix_len go d)
      → get_elem? ns i ≡ some n
      → child n b ≡ root_record t
      → Holds ns t
      → IsDistinct t
      → has i t ≡ false
      → Fits d t
      → Inv s
      → Returns
          (RecordDone law bits prefix_len d i b n t ns s)
          (insert_into op bits prefix_len go i b d (root_record t) ns s)
  insert_into-Returns go d i b n (leaf empty) ns s ins hi hb h dist out fits inv =
      at_leaf go d i b n none ns s ins hi hb inv
  insert_into-Returns go d i b n (leaf (value id)) ns s ins hi hb h dist out fits inv =
      at_leaf go d i b n (some id) ns s ins hi hb inv
  insert_into-Returns go d i b n (leaf (alias_to a)) ns s ins hi hb h dist out fits inv =
      unfold insert_into in
      returns (
        untouched d i b n (alias_to a) ns s s hi hb
          (Changed-none law bits d (prefix_len - d) (alias_to a) s refl inv))
  insert_into-Returns go d i b n (leaf blocked) ns s ins hi hb h dist out fits inv =
      unfold insert_into in
      returns (
        untouched d i b n blocked ns s s hi hb
          (Changed-none law bits d (prefix_len - d) blocked s refl inv))
  insert_into-Returns go d i b n (branch false c l r) ns s ins hi hb h dist out (lt, fl, fr) inv =
      unfold insert_into in
      descend law bits prefix_len plen go d i b c n l r ns s (ins (omega arith)) (omega arith) hi hb
        out (inl lt) h dist fl fr inv
  insert_into-Returns go d i b n (branch true c l r) ns s ins hi hb h dist out (lt, fl, fr) inv =
      unfold insert_into in
      (mono (ins (omega arith) c true l r ns s (omega arith) h dist fl fr inv) (λ u ns' s' nd.
        record {
          after = branch true c nd.left nd.right;
          moved = Moved-rehole i c true l r (branch true c nd.left nd.right) ns ns' nd.moved;
          changed = nd.changed;
          fits = (lt, nd.fits_left, nd.fits_right);
          link =
              nd.moved.frame i (get_elem?-lt ns i n hi) out (ne_of_out i c true l r out)
              ∙ hi
              ∙ ap some (sym (subst (λ q. with_child n b q ≡ n) hb (with_child-child n b)));
        }))

  pub insert_at_record-Returns :
      (go : ℕ → ℕ → Cmd S (Unit {0})) (d i b : ℕ) (n : Node) (t : Trie) (ns : Nodes) (s : S)
      → (d ≤ 128 → Inserts law bits prefix_len go d)
      → get_elem? ns i ≡ some n
      → child n b ≡ root_record t
      → Holds ns t
      → IsDistinct t
      → has i t ≡ false
      → Fits d t
      → Inv s
      → Returns
          (RecordDone law bits prefix_len d i b n t ns s)
          (insert_at_record op bits prefix_len go i b d ns s)
  unfolding insert_at_record
  insert_at_record-Returns go d i b n t ns s ins hi hb h dist out fits inv =
      rw (load-ok ns i n hi s, hb)
        (insert_into-Returns go d i b n t ns s ins hi hb h dist out fits inv)
