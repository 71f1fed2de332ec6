-- ===== src/Examples/Maps.antt =====
-- The theorems on the pool and on merging at concrete inputs.
use mmdb_writer.Base.{ℕ, ◌≡◌, List, [], ◌∷◌, some, refl, arith}
use mmdb_writer.Value.{u32, map, Fields, end, field}
use mmdb_writer.Value.Map.{bytes_lt, get_field, IsSorted}
use mmdb_writer.Value.Merge.{
  merge_top_level, merge_deep, newer, deeper, merge_top_level-get, merge_deep-get,
}
use mmdb_writer.Pool
use mmdb_writer.Pool.{ValuePool, intern, Interned, intern-Interned, new-IsPool}

intern-Interned_example :
    (p' : ValuePool) × (id : ℕ) × (intern (u32 7) Pool.new ≡ some (p', id))
    × Interned (u32 7) Pool.new p' id
unfolding Pool.new
intern-Interned_example = intern-Interned (u32 7) Pool.new new-IsPool (omega arith)

-- {"a": 1, "c": {"x": 1}} and {"b": 2, "c": {"y": 3}}
abbrev old_map : Fields
old_map = field (97 ∷ []) (u32 1) (field (99 ∷ []) (map (field (120 ∷ []) (u32 1) end)) end)

abbrev new_map : Fields
new_map = field (98 ∷ []) (u32 2) (field (99 ∷ []) (map (field (121 ∷ []) (u32 3) end)) end)

old_map-IsSorted : IsSorted old_map
unfolding bytes_lt
old_map-IsSorted = ((refl, tt), (tt, tt))

new_map-IsSorted : IsSorted new_map
unfolding bytes_lt
new_map-IsSorted = ((refl, tt), (tt, tt))

merge_top_level-get_example :
    (merged : Fields) × (merge_top_level (map old_map) (map new_map) ≡ map merged)
    × IsSorted merged
    × ((k : List ℕ) → get_field k merged ≡ newer (get_field k new_map) (get_field k old_map))
merge_top_level-get_example = merge_top_level-get old_map new_map old_map-IsSorted new_map-IsSorted

merge_deep-get_example :
    (merged : Fields) × (merge_deep (map old_map) (map new_map) ≡ map merged)
    × IsSorted merged
    × ((k : List ℕ) → get_field k merged ≡ deeper (get_field k new_map) (get_field k old_map))
merge_deep-get_example = merge_deep-get old_map new_map old_map-IsSorted new_map-IsSorted
