-- ===== src/Tree/Done.antt =====
-- What an insertion establishes at a node and at a record, and the lemmas on merging twins.
use mathlib.Core.Path.{subst, subst₂}
use mmdb_writer.Base.{
  &&-true, ℕ, suc, ◌-◌, ◌≤◌, ◌≡◌, refl, sym, ◌∙◌, ap, Bool, true, false, ◌&&◌, Option, none, some,
  get_elem?, ==_iff, arith,
}
use mmdb_writer.Tree.Run.{Node, with_child, Nodes, Cmd}
use mmdb_writer.Tree.{record_eq, is_leaf_record, bit_at}
use mmdb_writer.Tree.Trie.{
  Leaf, empty, value, alias_to, blocked, Trie, leaf, branch, leaf_record, node_record, root_record,
  Holds, IsDistinct, Fits, view,
}
use mmdb_writer.Tree.Moved.{Moved}
use mmdb_writer.Tree.Update.{OpLaw, covers, Changed, Updated, leaf_of, view_twins}
use mmdb_writer.Tree.Returns.{Returns}

-- Two parts merge exactly if they are the same leaf.
unfoldable pub twins : Trie → Trie → Bool
twins l r = record_eq (root_record l) (root_record r) && is_leaf_record (root_record l)

record_eq→eq : (x y : Leaf) → record_eq (leaf_record x) (leaf_record y) ≡ true → x ≡ y
unfolding record_eq
record_eq→eq empty empty h = refl
record_eq→eq (value i) (value j) h = ap value ((==_iff i j).0 h)
record_eq→eq (alias_to i) (alias_to j) h = ap alias_to ((==_iff i j).0 h)
record_eq→eq blocked blocked h = refl
record_eq→eq _ _ h = cc

record_eq_refl : (x : Leaf) → record_eq (leaf_record x) (leaf_record x) ≡ true
unfolding record_eq
record_eq_refl empty = refl
record_eq_refl (value i) = (==_iff i i).1 refl
record_eq_refl (alias_to i) = (==_iff i i).1 refl
record_eq_refl blocked = refl

is_leaf-leaf : (x : Leaf) → is_leaf_record (leaf_record x) ≡ true
unfolding is_leaf_record
is_leaf-leaf empty = refl
is_leaf-leaf (value i) = refl
is_leaf-leaf (alias_to i) = refl
is_leaf-leaf blocked = refl

pub twins-leaf : (x : Leaf) → twins (leaf x) (leaf x) ≡ true
unfolding twins
twins-leaf x = rw (record_eq_refl x, is_leaf-leaf x)

leaf_ne_node : (x : Leaf) (f : Bool) (i : ℕ) → record_eq (leaf_record x) (node_record f i) ≡ false
unfolding record_eq
leaf_ne_node empty false i = refl
leaf_ne_node empty true i = refl
leaf_ne_node (value id) false i = refl
leaf_ne_node (value id) true i = refl
leaf_ne_node (alias_to a) false i = refl
leaf_ne_node (alias_to a) true i = refl
leaf_ne_node blocked false i = refl
leaf_ne_node blocked true i = refl

node_not_leaf : (f : Bool) (i : ℕ) → is_leaf_record (node_record f i) ≡ false
unfolding is_leaf_record
node_not_leaf false i = refl
node_not_leaf true i = refl

pub twins→leaf : (l r : Trie) → twins l r ≡ true → (x : Leaf) × (l ≡ leaf x) × (r ≡ leaf x)
unfolding twins
twins→leaf (leaf x) (leaf y) h =
    (x, refl, ap leaf (sym (record_eq→eq x y (&&-true _ (is_leaf_record (leaf_record x)) h).0)))
twins→leaf (leaf x) (branch f i l r) h =
    absurd (cc (leaf_ne_node x f i, (&&-true _ (is_leaf_record (leaf_record x)) h).0))
twins→leaf (branch f i l r) t h =
    absurd (cc (node_not_leaf f i, (&&-true (record_eq (node_record f i) (root_record t)) _ h).1))

pub covers_done : (m d bits a : ℕ) → m ≡ 0 → covers m d bits a ≡ true
unfolding covers
covers_done m d bits a e = rw e

view_low :
    (f : Bool) (c : ℕ) (y z : Leaf) (d : ℕ) → d ≡ 128 → view (branch f c (leaf y) (leaf z)) 0 d ≡ y
unfolding view bit_at
view_low f c y z d e = rw e

view_high :
    (f : Bool) (c : ℕ) (y z : Leaf) (d : ℕ) → d ≡ 128 → view (branch f c (leaf y) (leaf z)) 1 d ≡ z
unfolding view bit_at
view_high f c y z d e = rw e

module _ {S : Type 0} {op : S → Option ℕ → Option ℕ × S} (law : OpLaw op)
    (bits prefix_len : ℕ) where
  open law use {Inv}

  -- What `insert_at_node` makes of the node `c` at depth `d`, with its parts `l` and `r`.
  pub record NodeDone (d c : ℕ) (f : Bool) (l r : Trie) (ns : Nodes) (s : S) (u : Unit {0})
      (ns' : Nodes) (s' : S) : Type 0 where
    pub left : Trie
    pub right : Trie
    pub moved : Moved c ns (branch f c l r) ns' (branch f c left right)
    pub changed : Changed law bits d (prefix_len - d) (branch f c l r) s (branch f c left right) s'
    pub fits_left : Fits (suc d) left
    pub fits_right : Fits (suc d) right

  -- What `insert_at_record` makes of the record of node `i` for the bit `b`, which leads to `t` at
  -- depth `d`. `n` is the node before.
  pub record RecordDone (d i b : ℕ) (n : Node) (t : Trie) (ns : Nodes) (s : S) (u : Unit {0})
      (ns' : Nodes) (s' : S) : Type 0 where
    pub after : Trie
    pub moved : Moved i ns t ns' after
    pub changed : Changed law bits d (prefix_len - d) t s after s'
    pub fits : Fits d after
    pub link : get_elem? ns' i ≡ some (with_child n b (root_record after))

  -- That a command does so at every node of depth `d`.
  abbrev pub Inserts : (ℕ → ℕ → Cmd S (Unit {0})) → ℕ → Type 0
  Inserts go d =
      (c : ℕ) (f : Bool) (l r : Trie) (ns : Nodes) (s : S)
      → d ≤ 128
      → Holds ns (branch f c l r)
      → IsDistinct (branch f c l r)
      → Fits (suc d) l
      → Fits (suc d) r
      → Inv s
      → Returns (NodeDone d c f l r ns s) (go c d ns s)

  Updated-functional : (s : S) (x y z : Leaf) → Updated law s x y → Updated law s x z → y ≡ z
  Updated-functional s empty y z (m, p, g) (n, q, h) =
      p ∙ ap leaf_of (law.functional none m n s g h) ∙ sym q
  Updated-functional s (value id) y z (m, p, g) (n, q, h) =
      p ∙ ap leaf_of (law.functional (some id) m n s g h) ∙ sym q
  Updated-functional s (alias_to i) y z p q = p ∙ sym q
  Updated-functional s blocked y z p q = p ∙ sym q

  -- Both halves of what was one leaf get the same answer.
  pub twins_of_split :
      (d : ℕ) (f : Bool) (c : ℕ) (x : Leaf) (l r : Trie) (s s' : S)
      → d ≡ 128
      → prefix_len ≤ 128
      → Fits (suc d) l
      → Fits (suc d) r
      → Changed law bits d (prefix_len - d) (branch f c (leaf x) (leaf x)) s (branch f c l r) s'
      → twins l r ≡ true
  twins_of_split d f c x (branch g i l l') r s s' e h fl fr ch = absurd (omega (arith, fl.0))
  twins_of_split d f c x (leaf y) (branch g i l l') s s' e h fl fr ch = absurd (omega (arith, fr.0))
  twins_of_split d f c x (leaf y) (leaf z) s s' e h fl fr ch =
      subst (λ w. twins (leaf y) (leaf w) ≡ true) same (twins-leaf y)
    where
      all : (a : ℕ) → covers (prefix_len - d) d bits a ≡ true
      all a = covers_done (prefix_len - d) d bits a (omega arith)

      same : y ≡ z
      same =
          Updated-functional s' x y z
            (subst₂ (Updated law s') (view_twins f c x 0 d) (view_low f c y z d e)
              (ch.updated 0 (all 0)))
            (subst₂ (Updated law s') (view_twins f c x 1 d) (view_high f c y z d e)
              (ch.updated 1 (all 1)))
