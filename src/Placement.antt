-- ===== src/Placement.antt =====
-- `Placement`, one entry of a tensor's placements: dtorch/api/cpp/distributed_spec.{h,cc}.
pub mod HashKey
pub mod ShardSize
use dtorch.Base.{
  ℕ, zero, suc, ◌+◌, ◌-◌, ◌*◌, ◌/◌, ◌%◌, ◌≡◌, refl, Bool, true, false, ◌&&◌, List, [], ◌∷◌, ltb,
  leb, ◌==◌, if◌then◌else◌, Outcome, ok, ◌>>=◌, ◌>>◌, assert_that, replicate, ◌↔◌, arith,
  Bool-cases,
}
use dtorch.Base.Int.{ℤ, pos, negsuc, ◌==ℤ◌, ==ℤ_iff, le_ℤ}

-- The flags say which kind it is; an optional input has none of them.
pub record Placement : Type 0 where
  pub replicate : Bool
  pub partial : Bool
  pub shard : Bool
  pub shard_index : ℤ
  pub sub_split_coordinates : ℤ

-- The factory functions `Shard`, `Replicate`, `Partial` and `Placement::Optional`.
abbrev pub shard_of : ℤ → ℤ → Placement
shard_of index sub = record {
  replicate = false;
  partial = false;
  shard = true;
  shard_index = index;
  sub_split_coordinates = sub;
}

-- `Shard(i)`, with the default -1 for no sub split.
abbrev pub shard_at : ℕ → Placement
shard_at i = shard_of (pos i) (negsuc 0)

abbrev pub replicated : Placement
replicated = record {
  replicate = true;
  partial = false;
  shard = false;
  shard_index = negsuc 0;
  sub_split_coordinates = negsuc 0;
}

abbrev pub partial_sum : Placement
partial_sum = record {
  replicate = false;
  partial = true;
  shard = false;
  shard_index = negsuc 0;
  sub_split_coordinates = negsuc 0;
}

abbrev pub optional_input : Placement
optional_input = record {
  replicate = false;
  partial = false;
  shard = false;
  shard_index = negsuc 0;
  sub_split_coordinates = negsuc 0;
}

-- `operator==`.
infix 50 ◌==ₚ◌
infix 50 ◌iff◌
◌iff◌ : Bool → Bool → Bool
true iff b = b
false iff true = false
false iff false = true

unfoldable pub ◌==ₚ◌ : Placement → Placement → Bool
unfolding ◌iff◌
p ==ₚ q =
    (p.replicate iff q.replicate)
    && (p.partial iff q.partial)
    && (p.shard iff q.shard)
    && (p.shard_index ==ℤ q.shard_index)
    && (p.sub_split_coordinates ==ℤ q.sub_split_coordinates)

-- The accessors that assert a shard.
pub get_shard_index : Placement → Outcome ℤ
get_shard_index p = do assert_that p.shard; ok p.shard_index

pub get_sub_split_coordinates : Placement → Outcome ℤ
get_sub_split_coordinates p = do assert_that p.shard; ok p.sub_split_coordinates

-- `IsShard() && GetSubSplitCoordinates() != -1`.
abbrev pub has_sub_split_coordinates : Placement → Bool
has_sub_split_coordinates p =
    p.shard && (if p.sub_split_coordinates ==ℤ negsuc 0 then false else true)

abbrev pub set_sub_split_coordinates : Placement → ℤ → Placement
set_sub_split_coordinates p value = record p { sub_split_coordinates = value }

-- The test decides equality of the five fields.
pub ==ₚ_iff : (p q : Placement) → ((p ==ₚ q) ≡ true) ↔ (p ≡ q)
unfolding ◌==ₚ◌
==ₚ_iff p q = (
  ground (
    arith,
    ==ℤ_iff p.shard_index q.shard_index,
    ==ℤ_iff p.sub_split_coordinates q.sub_split_coordinates,
  ),
  ground (
    arith,
    ==ℤ_iff p.shard_index q.shard_index,
    ==ℤ_iff p.sub_split_coordinates q.sub_split_coordinates,
  ),
)

pub ==ₚ_refl : (p : Placement) → (p ==ₚ p) ≡ true
==ₚ_refl p = (==ₚ_iff p p).1 refl

-- `value & 0x0F` of an `int64_t` in two's complement.
abbrev low_nibble : ℤ → ℕ
low_nibble (pos n) = n % 16
low_nibble (negsuc n) = 15 - n % 16

abbrev bit : Bool → ℕ
bit true = 1
bit false = 0

-- `ToHashKey`. The four parts have no bit in common, so that `|` adds them.
unfoldable pub to_hash_key : Placement → Outcome ℕ
to_hash_key p = do
  let index = if p.shard then p.shard_index else pos 0
  assert_that (le_ℤ (pos 0) index && le_ℤ index (pos 15))
  ok (bit p.replicate + 2 * bit p.partial + 4 * bit p.shard + 16 * low_nibble p.shard_index)

-- The loop that gives one more to the first `extra` ranks.
unfoldable pub increment_first : ℕ → List ℕ → List ℕ
increment_first extra [] = []
increment_first zero sizes = sizes
increment_first (suc extra) (n ∷ sizes) = (n + 1) ∷ increment_first extra sizes

-- `GetShardSizeForAllRank`, at a dimension and a number of shards that are not negative.
unfoldable pub get_shard_size_for_all_rank : ℕ → ℕ → Outcome (List ℕ)
unfolding increment_first
get_shard_size_for_all_rank shape_size num_shard = do
  assert_that (leb num_shard shape_size)
  assert_that (ltb 0 num_shard)
  let result = replicate num_shard (shape_size / num_shard)
  if shape_size % num_shard == 0
      then ok result
      else ok (increment_first (shape_size % num_shard) result)
