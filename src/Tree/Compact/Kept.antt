-- ===== src/Tree/Compact/Kept.antt =====
-- `compact_node` at the root of a tree keeps the lookups.
use mathlib.Core.Path.{subst}
use mmdb_writer.Base.{ℕ, ◌≡◌, sym, ◌∙◌, ap, false, some, length, arith}
use mmdb_writer.Tree.Run.{Record, Nodes}
use mmdb_writer.Tree.Insert.{IsTree, trie}
use mmdb_writer.Tree.Get.{leaf_id, IsPlain, get-view}
use mmdb_writer.Tree.{get}
use mmdb_writer.Tree.Compact.{compact_node}
use mmdb_writer.Tree.Compact.Ends.{Ends}
use mmdb_writer.Tree.Trie.{view}
use mmdb_writer.Tree.Compact.Settled.{settled, NodeSettled, compact_node-Settles}

-- The tree after `compact_node` at its root.
pub record Kept (ns : Nodes) (w : IsTree ns) (rec : Record) (ns' : Nodes) : Type 0 where
  pub tree : IsTree ns'
  pub root : rec ≡ settled 0 tree.left tree.right
  pub leaves : (addr : ℕ) → view (trie tree) addr 0 ≡ view (trie w) addr 0
  pub lookups : (addr : ℕ) → IsPlain (view (trie w) addr 0) → get ns' addr 128 ≡ get ns addr 128
  pub same_length : length ns' ≡ length ns

-- On every tree `compact_node` at the root ends without an error or a panic and within its fuel. It
-- leaves a tree with as many nodes in which every address leads to the leaf that it led to, so that
-- `get` finds what it found at every address that is not aliased.
pub compact_node-Kept :
    {S : Type 0} (s : S) (ns : Nodes) (w : IsTree ns) → Ends s (Kept ns w) (compact_node 129 0 ns s)
compact_node-Kept s ns w =
    let e =
      compact_node-Settles s 129 0 (omega arith) 0 false w.left w.right ns w.holds w.distinct
        w.fits in
    record { answer = e.answer; nodes = e.nodes; is = e.is; holds = kept_tree e.holds }
  where
    kept_tree :
        {rec : Record} {ns' : Nodes}
        → NodeSettled 0 0 false w.left w.right ns rec ns'
        → Kept ns w rec ns'
    kept_tree {rec} {ns'} n =
        let w' : IsTree ns' = record {
          left = n.left;
          right = n.right;
          holds = n.replaced.holds;
          distinct = n.replaced.distinct;
          fits = n.fits;
        } in
        record {
          tree = w';
          root = n.result;
          leaves = n.same;
          lookups = λ addr plain.
              get-view ns' w' addr (subst IsPlain (sym (n.same addr)) plain)
              ∙ ap (λ x. some (leaf_id x)) (n.same addr)
              ∙ sym (get-view ns w addr plain);
          same_length = n.replaced.same_length;
        }
