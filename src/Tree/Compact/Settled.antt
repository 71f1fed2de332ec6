-- ===== src/Tree/Compact/Settled.antt =====
-- `compact_node` and `resolve_child` keep the leaf of every address.
use mathlib.Core.Path.{subst}
use mmdb_writer.Base.{
  ℕ, zero, suc, ◌+◌, ◌<◌, ◌≡◌, refl, sym, ◌∙◌, ap, Bool, true, false, ◌&&◌, some, if◌then◌else◌,
  length, get_elem?, get_elem?-lt, get_elem?-set_self, get_elem?-set_ne, length-set, set, inl, inr,
  Bool-cases, arith,
}
use mmdb_writer.Tree.Run.{
  Record, node, fixed_node, Node, pair, with_child, set_child, Nodes, Cmd, pure, and_then, ◌>>◌,
}
use mmdb_writer.Tree.{record_eq, is_leaf_record}
use mmdb_writer.Tree.Compact.{resolve_child, compact_step, compact_node}
use mmdb_writer.Tree.Compact.Ends.{Ends, Ends-pure, Ends-then, Ends-load, Ends-write}
use mmdb_writer.Tree.Compact.Replaced.{
  Replaced, Replaced-refl, Replaced-leaf, right_stands, node_stands, node-Replaced,
}
use mmdb_writer.Tree.Trie.{
  Leaf, empty, value, alias_to, blocked, Trie, leaf, branch, root_record, Holds, IsDistinct, Fits,
  view,
}
use mmdb_writer.Tree.Update.{view-branch_twins}
use mmdb_writer.Tree.Done.{twins, twins→leaf}

-- The record that `compact_node` returns for the node `c` with the parts `l` and `r`.
abbrev pub settled : ℕ → Trie → Trie → Record
settled c l r = if twins l r then root_record l else node c

-- What `compact_node` makes of the node `c` at depth `d`.
pub record NodeSettled (d c : ℕ) (f : Bool) (l r : Trie) (ns : Nodes) (rec : Record) (ns' : Nodes)
    : Type 0 where
  pub left : Trie
  pub right : Trie
  pub result : rec ≡ settled c left right
  pub replaced : Replaced ns (branch f c l r) ns' (branch f c left right)
  pub same : (addr : ℕ) → view (branch f c left right) addr d ≡ view (branch f c l r) addr d
  pub fits : Fits d (branch f c left right)

-- What `resolve_child` makes of the record that leads to `t` at depth `d`.
pub record Resolved (d : ℕ) (t : Trie) (ns : Nodes) (rec : Record) (ns' : Nodes) : Type 0 where
  pub after : Trie
  pub result : rec ≡ root_record after
  pub replaced : Replaced ns t ns' after
  pub same : (addr : ℕ) → view after addr d ≡ view t addr d
  pub fits : Fits d after

module _ {S : Type 0} (s : S) where
  -- That a command does so at every node of depth `d`.
  abbrev pub Settles : (ℕ → Cmd S Record) → ℕ → Type 0
  Settles go d =
      (c : ℕ) (f : Bool) (l r : Trie) (ns : Nodes)
      → Holds ns (branch f c l r)
      → IsDistinct (branch f c l r)
      → Fits d (branch f c l r)
      → Ends s (NodeSettled d c f l r ns) (go c ns s)

  kept : (d : ℕ) (x : Leaf) (ns : Nodes) → Resolved d (leaf x) ns (root_record (leaf x)) ns
  kept d x ns = record {
    after = leaf x;
    result = refl;
    replaced = Replaced-refl ns (leaf x) tt tt;
    same = λ addr. refl;
    fits = tt;
  }

  -- A node behind a `Node` record may become a leaf.
  merged :
      (d c : ℕ) (l r : Trie) (ns : Nodes) (rec : Record) (ns' : Nodes)
      → NodeSettled d c false l r ns rec ns'
      → Resolved d (branch false c l r) ns rec ns'
  merged d c l r ns rec ns' n = elim (Bool-cases (twins n.left n.right)) [
    | inl t ↦
        let (x, el, er) = twins→leaf n.left n.right t in
        record {
          after = leaf x;
          result = n.result ∙ rw t (ap root_record el);
          replaced = Replaced-leaf ns _ ns' _ x n.replaced;
          same =
              λ addr. sym (view-branch_twins false c n.left n.right x el er addr d) ∙ n.same addr;
          fits = tt;
        }
    | inr t ↦ record {
      after = branch false c n.left n.right;
      result = n.result ∙ rw t refl;
      replaced = n.replaced;
      same = n.same;
      fits = n.fits;
    }
  ]

  resolve_child-Resolved :
      (go : ℕ → Cmd S Record) (d : ℕ)
      → Settles go d
      → (t : Trie) (ns : Nodes) → Holds ns t
      → IsDistinct t
      → Fits d t
      → Ends s (Resolved d t ns) (resolve_child go (root_record t) ns s)
  unfolding resolve_child
  resolve_child-Resolved go d rec (leaf empty) ns h p q = Ends-pure _ ns (kept d empty ns)
  resolve_child-Resolved go d rec (leaf (value id)) ns h p q = Ends-pure _ ns (kept d (value id) ns)
  resolve_child-Resolved go d rec (leaf (alias_to a)) ns h p q =
      Ends-pure _ ns (kept d (alias_to a) ns)
  resolve_child-Resolved go d rec (leaf blocked) ns h p q = Ends-pure _ ns (kept d blocked ns)
  resolve_child-Resolved go d rec (branch false c l r) ns h p q =
      let e = rec c false l r ns h p q in
      record {
        answer = e.answer;
        nodes = e.nodes;
        is = e.is;
        holds = merged d c l r ns e.answer e.nodes e.holds;
      }
  resolve_child-Resolved go d rec (branch true c l r) ns h p q =
      Ends-then _ (rec c true l r ns h p q) (λ a ns' n. Ends-pure (fixed_node c) ns' (record {
        after = branch true c n.left n.right;
        result = refl;
        replaced = n.replaced;
        same = n.same;
        fits = n.fits;
      }))

  -- Replacing the parts keeps the views of a node.
  view_parts :
      (d c : ℕ) (f : Bool) (l l' r r' : Trie)
      → ((addr : ℕ) → view l' addr (suc d) ≡ view l addr (suc d))
      → ((addr : ℕ) → view r' addr (suc d) ≡ view r addr (suc d))
      → (addr : ℕ) → view (branch f c l' r') addr d ≡ view (branch f c l r) addr d
  unfolding view
  view_parts d c f l l' r r' p q addr = rw (p addr, q addr) refl

  decided :
      (c : ℕ) (x y : Record) (l r : Trie)
      → x ≡ root_record l
      → y ≡ root_record r
      → (if record_eq x y && is_leaf_record x then x else node c) ≡ settled c l r
  unfolding twins
  decided c x y l r e e' = rw (e, e') refl

  -- The node after the writes of both records.
  rewritten :
      (c : ℕ) (n : Node) (x y : Record) (l r : Trie) (ns : Nodes)
      → c < length ns
      → x ≡ root_record l
      → y ≡ root_record r
      → get_elem? (set (set ns c (with_child n 0 x)) c (with_child (with_child n 0 x) 1 y)) c
        ≡ some (pair (root_record l) (root_record r))
  unfolding with_child
  rewritten c n x y l r ns h e e' =
      get_elem?-set_self (set ns c (with_child n 0 x)) c _
        (subst (λ k. c < k) (sym (length-set ns c (with_child n 0 x))) h)
      ∙ rw (e, e') refl

  -- The end of `compact_step`, after both parts.
  finish :
      (c : ℕ) (f : Bool) (l r : Trie) (ns ns1 ns2 : Nodes) (left right : Record) (d : ℕ)
      → Holds ns (branch f c l r)
      → IsDistinct (branch f c l r)
      → Fits d (branch f c l r)
      → Resolved (suc d) l ns left ns1
      → Resolved (suc d) r ns1 right ns2
      → Ends s (NodeSettled d c f l r ns) (
          and_then (set_child c 0 left ns2 s) (λ _.
            set_child c 1 right
            >> pure (if record_eq left right && is_leaf_record left then left else node c)))
  finish c f l r ns ns1 ns2 left right d h p q a b =
      let n = pair (root_record l) (root_record r) in
      let here = node_stands ns ns1 ns2 f c l a.after r b.after h p a.replaced b.replaced in
      let within = get_elem?-lt ns2 c n here in
      let ns3 = set ns2 c (with_child n 0 left) in
      Ends-write _ ns2 c 0 n left here (
        Ends-write _ ns3 c 1 (with_child n 0 left) right (get_elem?-set_self ns2 c _ within) (
          Ends-pure _ (set ns3 c (with_child (with_child n 0 left) 1 right)) (record {
            left = a.after;
            right = b.after;
            result = decided c left right a.after b.after a.result b.result;
            replaced =
                node-Replaced ns ns1 ns2 f c l a.after r b.after h p a.replaced b.replaced _
                  (rewritten c n left right a.after b.after ns2 within a.result b.result)
                  (λ x ne.
                    get_elem?-set_ne ns3 c x _ (λ e. ne (sym e))
                    ∙ get_elem?-set_ne ns2 c x _ (λ e. ne (sym e)))
                  (length-set ns3 c _ ∙ length-set ns2 c _);
            same = view_parts d c f l a.after r b.after a.same b.same;
            fits = (q.0, a.fits, b.fits);
          })))

  compact_step-Settles :
      (go : ℕ → Cmd S Record) (d : ℕ) → Settles go (suc d) → Settles (compact_step go) d
  unfolding compact_step
  compact_step-Settles go d rec c f l r ns h p q = Ends-load _ ns c _ h.0 (
      Ends-then _ (resolve_child-Resolved go (suc d) rec l ns h.1 p.3 q.1) (λ left ns1 a.
        Ends-load _ ns1 c _ (a.replaced.frame c p.0 ∙ h.0) (
          Ends-then _
            (resolve_child-Resolved go (suc d) rec r ns1
              (right_stands ns ns1 f c l a.after r h p a.replaced) p.4 q.2)
            (λ right ns2 b. finish c f l r ns ns1 ns2 left right d h p q a b))))

  -- With fuel above what is left to depth 128 the recursion ends.
  pub compact_node-Settles : (fuel d : ℕ) → 128 < fuel + d → Settles (compact_node fuel) d
  unfolding compact_node
  compact_node-Settles zero d lim c f l r ns h p q = absurd (omega (arith, q.0))
  compact_node-Settles (suc fuel) d lim c f l r ns h p q =
      compact_step-Settles (compact_node fuel) d (compact_node-Settles fuel (suc d) (omega arith)) c
        f l r ns h p q
