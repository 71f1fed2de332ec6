-- ===== src/Writer/Get.antt =====
-- src/writer.rs: the lookup of a writer.
use mmdb_writer.Base.{ℕ, Option, none, some}
use mmdb_writer.Value.{Value}
use mmdb_writer.Error.{Result, ok, err}
use mmdb_writer.Net.{tree_depth}
use mmdb_writer.Net.Range.{Checked, done, panic}
use mmdb_writer.Net.Networks.{Ipnet, IpAddr, net_of, to_tree_prefix}
use mmdb_writer.Pool
use mmdb_writer.Tree
use mmdb_writer.Writer.{Writer}

-- `let id = …?; Some(self.pool.get(id))`; the outer `none` is a panic.
unfoldable pub value_of_id : Writer → Option (Option ℕ) → Checked (Option Value)
value_of_id w none = panic
value_of_id w (some none) = done none
value_of_id w (some (some id)) = elim (Pool.get w.pool id) [ none ↦ panic | some v ↦ done (some v) ]

-- The lookup of a word of the tree.
unfoldable pub value_at : Writer → ℕ → Checked (Option Value)
value_at w bits = value_of_id w (Tree.get w.tree bits (tree_depth w.ip_version))

-- `.ok()?` on the prefix
unfoldable pub value_at_prefix : {E : Type 0} → Writer → Result E (ℕ × ℕ) → Checked (Option Value)
value_at_prefix w (err e) = done none
value_at_prefix w (ok p) = value_at w p.0

unfoldable pub get : (I : Ipnet) → IpAddr I → Writer → Checked (Option Value)
get I ip w = value_at_prefix w (to_tree_prefix I (net_of I ip) w.ip_version)
