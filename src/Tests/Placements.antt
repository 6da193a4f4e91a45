-- ===== src/Tests/Placements.antt =====
-- Placements over two axes: Shard(0), Replicate to Replicate, Shard(1), and the sizes of three
-- shards of eight elements.
use dtorch.Base.{
  ℕ, ◌+◌, ◌/◌, ◌%◌, ◌<◌, ◌≡◌, refl, some, List, [], ◌∷◌, arith, ltb, if◌then◌else◌, length,
  get_elem?, All, sum, ok,
}
use dtorch.Placement.{
  shard_at, replicated, partial_sum, get_shard_size_for_all_rank, increment_first,
}
use dtorch.Placement.ShardSize.{get_shard_size_for_all_rank-partitions}
use dtorch.PlacementSeq.{PlacementSeq, get_convert_order}
use dtorch.PlacementSeq.ConvertOrder.{IsExclusive}
use dtorch.PlacementSeq.OneByOne.{ConvertsTo, get_convert_order-ConvertsTo}

abbrev src : PlacementSeq
src = shard_at 0 ∷ replicated ∷ partial_sum ∷ []

abbrev dest : PlacementSeq
dest = replicated ∷ shard_at 1 ∷ partial_sum ∷ []

src-IsExclusive : All IsExclusive src
src-IsExclusive = (refl, (refl, (refl, tt)))

three_shards : get_shard_size_for_all_rank 8 3 ≡ ok (3 ∷ 3 ∷ 2 ∷ [])
unfolding get_shard_size_for_all_rank increment_first
three_shards = refl

get_convert_order-ConvertsTo_example :
    (order : List ℕ) × (get_convert_order src dest ≡ ok order) × ConvertsTo dest order src
get_convert_order-ConvertsTo_example = get_convert_order-ConvertsTo src dest refl src-IsExclusive

get_shard_size_for_all_rank-partitions_example :
    (ns : List ℕ) × (get_shard_size_for_all_rank 8 3 ≡ ok ns)
    × (length ns ≡ 3)
    × (sum ns ≡ 8)
    × ((i : ℕ) → i < 3 → get_elem? ns i ≡ some (if ltb i (8 % 3) then 8 / 3 + 1 else 8 / 3))
get_shard_size_for_all_rank-partitions_example =
    get_shard_size_for_all_rank-partitions 8 3 (omega arith) (omega arith)
