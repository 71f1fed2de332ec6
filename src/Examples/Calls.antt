-- ===== src/Examples/Calls.antt =====
-- Runs of an insertion whose closure counts its calls.
use mmdb_writer.Base.{ℕ, suc, ◌^◌, ◌≡◌, refl, Option, some, [], ◌∷◌}
use mmdb_writer.Tree.Run.{
  ok, load, set_child, alloc_node, child, with_child, pair, populated, no_data,
}
use mmdb_writer.Tree
use mmdb_writer.Tree.{
  bit_at, record_eq, is_leaf_record, try_merge_node, collapse, call, insert_into, insert_at_record,
  insert_step, insert_at_node, insert,
}

abbrev counting : ℕ → Option ℕ → Option ℕ × ℕ
counting calls old = (some 7, suc calls)

-- An insertion of 8000::/1 in a new tree calls the closure twice for the one empty leaf: it makes a
-- node for the network, whose two records are merged afterwards.
calls_example :
    insert (2 ^ 127) 1 counting Tree.new 0
    ≡ ok tt (pair no_data (populated 7) ∷ pair (populated 7) (populated 7) ∷ []) 2
unfolding insert insert_at_node insert_step insert_at_record insert_into call collapse
    try_merge_node record_eq is_leaf_record bit_at load set_child alloc_node child with_child
    Tree.new
calls_example = refl
