-- ===== src/Operators/Chunk.antt =====
-- `ChunkOp`: dtorch/core/operators/standard/chunk_op.cc, at a dimension and a number of chunks
-- that are not negative.
use native.Mathlib.Nat.{mul-div-le, lt-mul-div-succ, lt_of_mul-lt-mul_left}
use dtorch.Base.{
  ℕ, zero, suc, ◌+◌, ◌-◌, ◌*◌, ◌/◌, ◌≤◌, ◌<◌, ◌≡◌, refl, ap, inl, inr, Bool, true, false, ◌&&◌,
  List, [], ◌∷◌, ◌++◌, arith, ltb, leb, if◌then◌else◌, lt→ltb, leb→le, Bool-cases, replicate,
  Outcome, ok, ◌>>=◌, ◌>>◌, assert_that, throw_unless,
}
use dtorch.Base.Int.{ℤ, pos, pos_part, ◌-ℤ◌, ◌==ℤ◌}
use dtorch.Shape.{Shape}
use dtorch.PlacementSeq.{PlacementSeq}
use dtorch.Operators.{get_valid_dim, read_dim, write_dim}

-- `InferOutputSize`, from the size of the dimension. A division by zero aborts.
unfoldable pub chunk_outputs : ℕ → ℕ → Outcome ℕ
chunk_outputs size chunks = if leb size chunks then ok size else (do
  assert_that (ltb 0 chunks)
  let per = (size + chunks - 1) / chunks
  ok ((size + per - 1) / per))

-- The sizes of the dimension in every output but the last, and in the last.
unfoldable pub chunk_sizes : ℕ → ℕ → ℕ → Outcome (ℤ × ℤ)
unfolding ◌-ℤ◌
chunk_sizes size chunks outputs = if leb size chunks then ok (pos 1, pos 1) else (do
  assert_that (ltb 0 chunks)
  let per = (size + chunks - 1) / chunks
  ok (pos per, pos size -ℤ pos (per * (outputs - 1))))

-- No axis of the mesh shards the dimension that is split.
unfoldable pub shards_none : ℕ → PlacementSeq → Bool
shards_none dim [] = true
shards_none dim (p ∷ ps) =
    let rest = shards_none dim ps in if p.shard && p.shard_index ==ℤ pos dim then false else rest

-- `InferOutputMetaInfo`: the shapes of the outputs, of which there are `outputs`.
unfoldable pub chunk_shapes : Shape → ℤ → ℕ → ℕ → PlacementSeq → Outcome (List Shape)
chunk_shapes shape dim chunks outputs placements = do
  v ← get_valid_dim shape dim
  size ← read_dim shape v
  (each, last) ← chunk_sizes (pos_part size) chunks outputs
  out ← write_dim shape v each
  last_out ← write_dim shape v last
  assert_that (ltb 0 outputs)
  throw_unless (shards_none v placements)
  ok (replicate (outputs - 1) out ++ last_out ∷ [])

-- A quotient that is rounded up.
ceil_bounds :
    (n m : ℕ) → 0 < n → 0 < m → (r : ℕ) × ((n + m - 1) / m ≡ suc r) × (n ≤ m * r + m) × (m * r < n)
ceil_bounds n m h k =
    bounds ((n + m - 1) / m) (mul-div-le (n + m - 1) m) (lt-mul-div-succ (n + m - 1) k)
  where
    bounds :
        (q : ℕ)
        → m * q ≤ n + m - 1
        → n + m - 1 < m * (q + 1)
        → (r : ℕ) × (q ≡ suc r) × (n ≤ m * r + m) × (m * r < n)
    bounds zero low high = absurd (omega arith)
    bounds (suc r) low high = (r, refl, omega arith, omega arith)

-- What the outputs of a chunk are: at most as many as asked for, none of them empty, all of one
-- size but the last, which is no larger, and together the whole dimension.
pub record IsSplit (size chunks outputs each last : ℕ) : Type 0 where
  pub some_output : 0 < outputs
  pub at_most : outputs ≤ chunks
  pub not_empty : 0 < last
  pub not_larger : last ≤ each
  pub whole : each * (outputs - 1) + last ≡ size

-- The case of more elements than chunks, from the bounds of the two quotients.
chunk_sizes-larger :
    (size chunks p o : ℕ)
    → leb size chunks ≡ false
    → 0 < chunks
    → (size + chunks - 1) / chunks ≡ suc p
    → (size + suc p - 1) / suc p ≡ suc o
    → chunks * p < size
    → size ≤ chunks * p + chunks
    → size ≤ suc p * o + suc p
    → suc p * o < size
    → (chunk_outputs size chunks ≡ ok (suc o))
      × (chunk_sizes size chunks (suc o) ≡ ok (pos (suc p), pos (size - suc p * o)))
      × IsSplit size chunks (suc o) (suc p) (size - suc p * o)
unfolding chunk_outputs chunk_sizes
chunk_sizes-larger size chunks p o e k per outs below above above' below' =
    let before : suc p * (suc o - 1) ≡ suc p * o = ap (λ z. suc p * z) (omega arith) in
    let all_chunks : suc p * chunks ≡ chunks * p + chunks = grind arith in
    let few : suc p * o < suc p * chunks = omega arith in
    let few' : o < chunks = lt_of_mul-lt-mul_left (suc p) few in
    (
      rw (e, lt→ltb 0 chunks k, per, outs) refl,
      rw (e, lt→ltb 0 chunks k, per, before)
          (ap (λ z. ok (pos (suc p), z)) (last_of (suc p * o) below')),
      record {
        some_output = omega arith;
        at_most = few';
        not_empty = omega arith;
        not_larger = omega arith;
        whole = rw before (omega arith);
      },
    )
  where
    last_of : (x : ℕ) → x < size → pos size -ℤ pos x ≡ pos (size - x)
    last_of x h = unfold ◌-ℤ◌ in ground arith

-- A dimension and a number of chunks that are not zero: the number of outputs and their sizes are
-- computed without an error, and split the dimension.
pub chunk_sizes-IsSplit :
    (size chunks : ℕ)
    → 0 < size
    → 0 < chunks
    → (outputs : ℕ) × (each : ℕ) × (last : ℕ) × (chunk_outputs size chunks ≡ ok outputs)
      × (chunk_sizes size chunks outputs ≡ ok (pos each, pos last))
      × IsSplit size chunks outputs each last
chunk_sizes-IsSplit size chunks h k = elim (Bool-cases (leb size chunks)) [
  | inl e ↦ (
    size,
    1,
    1,
    unfold chunk_outputs in rw e,
    unfold chunk_sizes in rw e,
    record {
      some_output = h;
      at_most = leb→le size chunks e;
      not_empty = omega arith;
      not_larger = omega arith;
      whole = omega arith;
    },
  )
  | inr e ↦
      let (p, per, above, below) = ceil_bounds size chunks h k in
      let (o, outs, above', below') = ceil_bounds size (suc p) h (omega arith) in
      let (a, b, c) = chunk_sizes-larger size chunks p o e k per outs below above above' below' in
      (suc o, suc p, size - suc p * o, a, b, c)
]
