-- ===== src/Writer/Build/Built.antt =====
-- src/writer.rs: `build` as a whole, for an IPv6 writer without aliases.
use mmdb_writer.Base.{
  ℕ, ◌^◌, ◌≤◌, ◌≡◌, refl, sym, ◌∙◌, ap, Option, none, some, List, length, get_elem?-All,
}
use mmdb_writer.Value.{Value}
use mmdb_writer.Pool
use mmdb_writer.Net.{tree_depth}
use mmdb_writer.DataSection.Encodable.{IsEncodable}
use mmdb_writer.Tree
use mmdb_writer.Tree.Run.{Nodes, Run}
use mmdb_writer.Tree.Compact.{compact}
use mmdb_writer.Tree.Compact.Whole.{compact-Compacted}
use mmdb_writer.Tree.Get.{IsPlain, leaf_id}
use mmdb_writer.Tree.InsertGet.{IsOpen}
use mmdb_writer.Tree.Serialize.{Encoded}
use mmdb_writer.Tree.Trie.{Leaf, empty, value, alias_to, blocked}
use mmdb_writer.Writer.{Writer}
use mmdb_writer.Writer.Build.{aliased, assemble, build}
use mmdb_writer.Writer.Build.Assembled.{HasPlace, IsAssembled, assemble-IsAssembled}
use mmdb_writer.Writer.Get.{value_of_id, value_at}
use mmdb_writer.Writer.Sound.{IsSound}

-- The format can express every value of the writer.
abbrev pub IsExpressible : Writer → Type 0
IsExpressible w = (id : ℕ) (v : Value) → Pool.get w.pool id ≡ some v → IsEncodable v

-- What `build` makes of the writer's tree: it is compacted to one that is no larger and in which
-- the lookups are those of the writer, and this one is assembled.
pub record IsBuilt (now : ℕ) (w : Writer) (r : Option (Encoded (List ℕ))) : Type 0 where
  pub tree : Nodes
  pub outcome : Encoded (List ℕ)
  pub is : r ≡ some outcome
  pub compacted : compact w.tree tt ≡ Run.ok tt tree tt
  pub smaller : length tree ≤ length w.tree
  pub assembled : IsAssembled now w tree outcome
  pub values : (addr : ℕ) → value_of_id w (Tree.get tree addr 128) ≡ value_at w addr

HasPlace-IsPlain : (w : Writer) (x : Leaf) → HasPlace w.pool x → IsPlain x
HasPlace-IsPlain w empty h = tt
HasPlace-IsPlain w (value id) h = tt
HasPlace-IsPlain w (alias_to a) h = h
HasPlace-IsPlain w blocked h = tt

leaf-HasPlace :
    (w : Writer) (x : Leaf)
    → IsExpressible w
    → IsOpen x
    → ((id : ℕ) → leaf_id x ≡ some id → (v : Value) × (Pool.get w.pool id ≡ some v))
    → HasPlace w.pool x
leaf-HasPlace w empty ex is_open known = tt
leaf-HasPlace w (value id) ex is_open known =
    let (v, here) = known id refl in (v, here, ex id v here)
leaf-HasPlace w (alias_to a) ex is_open known = absurd is_open
leaf-HasPlace w blocked ex is_open known = tt

build_steps :
    (now : ℕ) (w : Writer) (nodes : Nodes)
    → aliased w ≡ Run.ok tt w.tree tt
    → compact w.tree tt ≡ Run.ok tt nodes tt
    → build now w ≡ some (assemble now w nodes)
unfolding build
build_steps now w nodes e e' = rw (e, build, e') refl

-- For an IPv6 writer that is a map from addresses to values, whose values the format can express,
-- which has at most 2^32 nodes and no record size asked for, and where no alias is installed, since
-- aliasing is off or no node stands at the IPv4 subtree: `build` ends within its fuel and without a
-- panic. It compacts the tree to one that is no larger and makes a file of it: the bytes of the
-- tree, the separator, the data section, the marker and the metadata. At every address a reader of
-- the tree's bytes finds the offset at which the data section spells out the value that the writer
-- has for the address, or that there is none. It fails only if the compacted tree, with the data
-- section that the values of its leaves make, fits no record size.
pub build-IsBuilt :
    (now : ℕ) (w : Writer) (s : IsSound w)
    → IsExpressible w
    → aliased w ≡ Run.ok tt w.tree tt
    → w.record_size ≡ none
    → length w.tree ≤ 2 ^ 32
    → IsBuilt now w (build now w)
unfolding value_at tree_depth
build-IsBuilt now w s ex unaliased no_size few =
    let (nodes, is, c) =
      compact-Compacted tt (HasPlace w.pool) (HasPlace-IsPlain w) w.tree s.tree
        (λ addr small. leaf-HasPlace w _ ex (s.open_at addr small) (λ id. s.known addr id small))
        few in
    record {
      tree = nodes;
      outcome = assemble now w nodes;
      is = build_steps now w nodes unaliased is;
      compacted = is;
      smaller = c.fewer;
      assembled = assemble-IsAssembled now w nodes (get_elem?-All _ nodes c.leads) c.filled no_size;
      values = λ addr.
          ap (value_of_id w) (c.same addr)
          ∙ sym (ap (λ version. value_of_id w (Tree.get w.tree addr (tree_depth version))) s.six);
    }
