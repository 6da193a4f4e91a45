-- ===== src/Operators.antt =====
-- What the shape operators share: `GetValidDim` of dtorch/core/operators/operator.cc, reads of a
-- dimension, and the rows of a signature with one input and one output, as the
-- `GetPlacementSignature` of dtorch/core/operators/standard build them.
pub mod Rows
pub mod Adds
pub mod Inference
pub mod ValidDim
pub mod Permute
pub mod Transpose
pub mod Squeeze
pub mod Unsqueeze
pub mod Chunk
pub mod Reshape
pub mod Flatten
pub mod Concat
pub mod Expand
pub mod Binary
pub mod Matmul
pub mod Reduce
pub mod Linear
use dtorch.Base.{
  ℕ, zero, suc, ◌+◌, ◌-◌, ◌*◌, ◌/◌, ◌%◌, ◌^◌, ◌≤◌, ◌<◌, min, max, ◌≡◌, refl, sym, ap, ◌∙◌, subst,
  fun_ext, ◌≢◌, ◌↔◌, ◌⊎◌, inl, inr, Bool, true, false, not, ◌&&◌, ◌||◌, Option, none, some, List,
  [], ◌∷◌, ◌++◌, map, reverse, arith, ltb, leb, ◌==◌, if◌then◌else◌, ==_refl, ==_iff, ltb→lt,
  lt→ltb, leb→le, Bool-cases, Option-cases, and-eq-true, length, get_elem?, set, take, drop,
  replicate, All, sum, product, length-append, length-set, length-drop, length-take,
  length-replicate, length-map, get_elem?-set_ne, get_elem?-set_self, Outcome, ok, invalid_argument,
  aborted, ◌>>=◌, ◌>>◌, assert_that, throw_unless, of_option, >>=-eq-ok, assert_that-eq-ok,
  throw_unless-eq-ok, ok-injective,
}
use dtorch.Base.Int.{
  ℤ, pos, negsuc, pos_part, neg_part, sub_ℕ, ◌+ℤ◌, ◌-ℤ◌, ◌*ℤ◌, ◌≤ℤ◌, lt_ℤ, le_ℤ, ◌==ℤ◌, max_ℤ,
  to_size, ==ℤ_iff, ==ℤ_refl, max_ℤ_comm, pos-mul,
}
use dtorch.Shape.{Shape}
use dtorch.Placement.{Placement, shard_at, partial_sum}
use dtorch.Signature.{
  Signature, Builder, PlacementSignature, builder, add_input, add_output, build, finish,
}

-- `GetValidDim`: an index from the end is made one from the front. The test lets the number of
-- dimensions itself pass.
unfoldable pub get_valid_dim : Shape → ℤ → Outcome ℕ
unfolding ◌+ℤ◌
get_valid_dim shape dim = do
  let result = if lt_ℤ dim (pos 0) then dim +ℤ pos (length shape) else dim
  throw_unless (not (lt_ℤ result (pos 0) || lt_ℤ (pos (length shape)) result))
  ok (pos_part result)

-- A `size_t` in an `int64_t`.
abbrev pub to_signed : ℕ → ℤ
to_signed n = if ltb n (2 ^ 63) then pos n else negsuc (2 ^ 64 - 1 - n)

-- `shape[i]`, at a `size_t`
abbrev pub read_dim : Shape → ℕ → Outcome ℤ
read_dim shape i = of_option (get_elem? shape i)

-- `shape[i] = d`
abbrev pub write_dim : Shape → ℕ → ℤ → Outcome Shape
write_dim shape i d = do assert_that (ltb i (length shape)); ok (set shape i d)

-- `builder.AddInput(p).AddOutput(q).Build()`
unfoldable pub add_row : Placement → Placement → Builder → Outcome Builder
add_row p q b = build (add_output q (add_input p b))

-- The same for each pair of an input's and an output's dimension that are sharded together.
unfoldable pub add_shard_rows : List (ℕ × ℕ) → Builder → Outcome Builder
add_shard_rows [] b = ok b
add_shard_rows ((i, j) ∷ pairs) b = do
  next ← add_row (shard_at i) (shard_at j) b
  add_shard_rows pairs next

-- A signature of one input and one output: partial to partial, then the rows that shard.
unfoldable pub unary_signature : List (ℕ × ℕ) → Outcome PlacementSignature
unary_signature pairs = do
  first ← add_row partial_sum partial_sum (builder 1 1)
  all ← add_shard_rows pairs first
  finish all
