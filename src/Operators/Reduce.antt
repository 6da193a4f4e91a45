-- ===== src/Operators/Reduce.antt =====
-- `ReduceOp`: dtorch/core/operators/standard/reduce_op.cc.
pub mod Marked
pub mod Rows
use dtorch.Base.{
  ℕ, zero, suc, ◌+◌, ◌-◌, ◌*◌, ◌/◌, ◌%◌, ◌^◌, ◌≤◌, ◌<◌, min, max, ◌≡◌, refl, sym, ap, ◌∙◌, subst,
  fun_ext, ◌≢◌, ◌↔◌, ◌⊎◌, inl, inr, Bool, true, false, not, ◌&&◌, ◌||◌, Option, none, some, List,
  [], ◌∷◌, ◌++◌, map, reverse, arith, ltb, leb, ◌==◌, if◌then◌else◌, ==_refl, ==_iff, ltb→lt,
  lt→ltb, leb→le, Bool-cases, Option-cases, and-eq-true, length, get_elem?, set, take, drop,
  replicate, All, sum, product, length-append, length-set, length-drop, length-take,
  length-replicate, length-map, get_elem?-set_ne, get_elem?-set_self, Outcome, ok, invalid_argument,
  aborted, ◌>>=◌, ◌>>◌, assert_that, throw_unless, of_option, >>=-eq-ok, assert_that-eq-ok,
  throw_unless-eq-ok, ok-injective, true≢false, get_elem?-lt, lt_of_get_elem?, All-map,
}
use dtorch.Base.Int.{
  ℤ, pos, negsuc, pos_part, neg_part, sub_ℕ, ◌+ℤ◌, ◌-ℤ◌, ◌*ℤ◌, ◌≤ℤ◌, lt_ℤ, le_ℤ, ◌==ℤ◌, max_ℤ,
  to_size, ==ℤ_iff, ==ℤ_refl, max_ℤ_comm, pos-mul,
}
use dtorch.Shape.{Shape, can_broadcast_with, contains}
use dtorch.Placement.{shard_at, replicated}
use dtorch.Signature.{Builder, PlacementSignature, builder, finish}
use dtorch.Operators.{add_row}
use dtorch.Operators.Squeeze.{valid_dims}

-- `ReduceParam::GetDimSet`: all the dimensions where none is named.
unfoldable pub axes_from : ℕ → ℕ → List ℕ
axes_from i zero = []
axes_from i (suc n) = i ∷ axes_from (suc i) n

unfoldable pub get_dim_set : Shape → List ℤ → Outcome (List ℕ)
get_dim_set shape dims =
    if length dims == 0 then ok (axes_from 0 (length shape)) else valid_dims shape dims

-- One round of the loop over `dim` in `CalculateOutputShape`: the index, its bounds checked.
unfoldable pub reduced_index : ℕ → ℤ → Outcome ℕ
unfolding ◌+ℤ◌
reduced_index axes index = do
  let index' = if lt_ℤ index (pos 0) then index +ℤ pos axes else index
  throw_unless (not (lt_ℤ index' (pos 0) || le_ℤ (pos axes) index'))
  ok (pos_part index')

-- The loop: `inputShape[index] = -1`.
unfoldable pub mark_loop : ℕ → List ℤ → Shape → Outcome Shape
mark_loop axes [] shape = ok shape
mark_loop axes (dim ∷ dims) shape = do
  i ← reduced_index axes dim
  mark_loop axes dims (set shape i (negsuc 0))

-- The loop that builds the output of what is marked.
unfoldable pub collect : Bool → Shape → Shape
collect keepdim [] = []
collect keepdim (d ∷ ds) =
    let rest = collect keepdim ds in
    if d ==ℤ negsuc 0 then (if keepdim then pos 1 ∷ rest else rest) else d ∷ rest

unfoldable pub none_negative : Shape → Bool
none_negative [] = true
none_negative (d ∷ ds) = le_ℤ (pos 0) d && none_negative ds

-- `CalculateOutputShape`
unfoldable pub reduced_shape : Shape → List ℤ → Bool → Outcome Shape
reduced_shape shape dims keepdim = do
  assert_that (none_negative shape)
  marked ←
      if length dims == 0
      then ok (map (λ d. negsuc 0) shape)
      else mark_loop (length shape) dims shape
  ok (collect keepdim marked)

-- `InferOutputMetaInfo`, the shape of the output. A failing test throws a string.
unfoldable pub reduce_shape : Shape → List ℤ → Bool → Outcome Shape
reduce_shape shape dims keepdim = do
  out ← reduced_shape shape dims keepdim
  throw_unless (not (keepdim && not (can_broadcast_with shape out)))
  ok out

-- `GetPlacementSignature`: the loop where no dimension is named, and the one where some are, with
-- `inIdx` and `outIdx`.
unfoldable pub all_reduced_loop : ℕ → ℕ → Builder → Outcome Builder
all_reduced_loop i zero b = ok b
all_reduced_loop i (suc n) b = do
  next ← add_row (shard_at i) replicated b
  all_reduced_loop (suc i) n next

unfoldable pub reduce_loop : List ℕ → Bool → ℕ → ℕ → ℕ → Builder → Outcome Builder
reduce_loop dim_set keepdim in_idx out_idx zero b = ok b
reduce_loop dim_set keepdim in_idx out_idx (suc n) b = do
  let reduced = contains in_idx dim_set
  let output = if reduced then replicated else shard_at out_idx
  let next_idx = if keepdim || not reduced then suc out_idx else out_idx
  next ← add_row (shard_at in_idx) output b
  reduce_loop dim_set keepdim (suc in_idx) next_idx n next

unfoldable pub reduce_signature : Shape → List ℤ → Bool → Outcome PlacementSignature
reduce_signature shape dims keepdim = do
  all ←
      if length dims == 0
      then all_reduced_loop 0 (length shape) (builder 1 1)
      else get_dim_set shape dims >>= λ dim_set.
          reduce_loop dim_set keepdim 0 0 (length shape) (builder 1 1)
  finish all
