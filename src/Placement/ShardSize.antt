-- ===== src/Placement/ShardSize.antt =====
-- The sizes that `GetShardSizeForAllRank` gives to the ranks of a shard.
use dtorch.Base.{
  ℕ, zero, suc, ◌+◌, ◌*◌, ◌/◌, ◌%◌, ◌≤◌, ◌<◌, ◌≡◌, refl, ap, ◌∙◌, List, [], ◌∷◌, ok, length, sum,
  replicate, get_elem?, some, arith, Bool-cases, inl, inr, ◌==◌, length-replicate, ltb,
  if◌then◌else◌,
}
use dtorch.Placement.{get_shard_size_for_all_rank, increment_first}

sum-replicate : (n a : ℕ) → sum (replicate n a) ≡ n * a
sum-replicate zero a = omega arith
sum-replicate (suc n) a = omega (arith, sum-replicate n a)

sum-increment_first :
    (extra : ℕ) (ns : List ℕ) → extra ≤ length ns → sum (increment_first extra ns) ≡ sum ns + extra
unfolding increment_first
sum-increment_first extra [] h = omega arith
sum-increment_first zero (n ∷ ns) h = omega arith
sum-increment_first (suc extra) (n ∷ ns) h =
    omega (arith, sum-increment_first extra ns (omega arith))

length-increment_first : (extra : ℕ) (ns : List ℕ) → length (increment_first extra ns) ≡ length ns
unfolding increment_first
length-increment_first extra [] = refl
length-increment_first zero (n ∷ ns) = refl
length-increment_first (suc extra) (n ∷ ns) = ap suc (length-increment_first extra ns)

get_elem?-replicate : (n a i : ℕ) → i < n → get_elem? (replicate n a) i ≡ some a
get_elem?-replicate zero a i h = elim h [ ]
get_elem?-replicate (suc n) a zero h = refl
get_elem?-replicate (suc n) a (suc i) h = get_elem?-replicate n a i (omega arith)

get_elem?-increment_first :
    (extra n a i : ℕ)
    → i < n
    → get_elem? (increment_first extra (replicate n a)) i ≡ some (if ltb i extra then a + 1 else a)
unfolding increment_first
get_elem?-increment_first extra zero a i h = elim h [ ]
get_elem?-increment_first zero (suc n) a zero h = refl
get_elem?-increment_first zero (suc n) a (suc i) h =
    get_elem?-replicate n a i (omega arith) ∙ ap some (ground arith)
get_elem?-increment_first (suc extra) (suc n) a zero h = ap some (ground arith)
get_elem?-increment_first (suc extra) (suc n) a (suc i) h =
    get_elem?-increment_first extra n a i (omega arith) ∙ ap some (ground arith)

-- The list that the code builds, on both of its branches.
sizes : ℕ → ℕ → List ℕ
sizes size num = increment_first (size % num) (replicate num (size / num))

increment_first-zero : (ns : List ℕ) → increment_first 0 ns ≡ ns
unfolding increment_first
increment_first-zero [] = refl
increment_first-zero (n ∷ ns) = refl

get_shard_size_for_all_rank-sizes :
    (size num : ℕ)
    → 0 < num
    → num ≤ size
    → get_shard_size_for_all_rank size num ≡ ok (sizes size num)
unfolding get_shard_size_for_all_rank sizes
get_shard_size_for_all_rank-sizes size num p h = elim (Bool-cases (size % num == 0)) [
  | inl e ↦ let z : size % num ≡ 0 = ground arith in rw (z, increment_first-zero) (ground arith)
  | inr e ↦ ground arith
]

-- At a dimension that is at least the number of shards, the function returns a size for each
-- rank, the sizes add up to the dimension, and rank `i` gets the quotient, and one more exactly
-- if `i` is below the remainder.
pub get_shard_size_for_all_rank-partitions :
    (size num : ℕ)
    → 0 < num
    → num ≤ size
    → (ns : List ℕ) × (get_shard_size_for_all_rank size num ≡ ok ns)
      × (length ns ≡ num)
      × (sum ns ≡ size)
      × ((i : ℕ)
          → i < num
          → get_elem? ns i ≡ some (if ltb i (size % num) then size / num + 1 else size / num))
get_shard_size_for_all_rank-partitions size num p h = (
  sizes size num,
  get_shard_size_for_all_rank-sizes size num p h,
  unfold sizes in rw (length-increment_first, length-replicate),
  unfold sizes in total,
  unfold sizes in λ i. get_elem?-increment_first (size % num) num (size / num) i,
)
  where
    small : size % num < num
    small = grind arith

    total : sum (increment_first (size % num) (replicate num (size / num))) ≡ size
    total =
        rw
          (
            sum-increment_first (size % num) (replicate num (size / num))
                (rw length-replicate (omega arith)),
            sum-replicate,
          )
          (grind arith)
