-- ===== src/Operators/Binary.antt =====
-- `BroadcastBinaryOp`, the element-wise operators of two inputs:
-- dtorch/core/operators/standard/broadcast_binary_op.cc.
pub mod Adds
pub mod Sound
pub mod Whole
use dtorch.Base.{
  ℕ, zero, suc, ◌+◌, ◌-◌, ◌*◌, ◌/◌, ◌%◌, ◌^◌, ◌≤◌, ◌<◌, min, max, ◌≡◌, refl, sym, ap, ◌∙◌, subst,
  fun_ext, ◌≢◌, ◌↔◌, ◌⊎◌, inl, inr, Bool, true, false, not, ◌&&◌, ◌||◌, Option, none, some, List,
  [], ◌∷◌, ◌++◌, map, reverse, arith, ltb, leb, ◌==◌, if◌then◌else◌, ==_refl, ==_iff, ltb→lt,
  lt→ltb, leb→le, Bool-cases, Option-cases, and-eq-true, length, get_elem?, set, take, drop,
  replicate, All, sum, product, length-append, length-set, length-drop, length-take,
  length-replicate, length-map, get_elem?-set_ne, get_elem?-set_self, Outcome, ok, invalid_argument,
  aborted, ◌>>=◌, ◌>>◌, assert_that, throw_unless, of_option, >>=-eq-ok, assert_that-eq-ok,
  throw_unless-eq-ok, ok-injective, true≢false, get_elem?-lt, lt_of_get_elem?, All-map,
}
use dtorch.Base.Int.{
  ℤ, pos, negsuc, pos_part, neg_part, sub_ℕ, ◌+ℤ◌, ◌-ℤ◌, ◌*ℤ◌, ◌≤ℤ◌, lt_ℤ, le_ℤ, ◌==ℤ◌, max_ℤ,
  to_size, ==ℤ_iff, ==ℤ_refl, max_ℤ_comm, pos-mul,
}
use dtorch.Shape.{Shape, is_null_tensor_shape, can_broadcast_with, broadcast_output_shape}
use dtorch.Placement.{Placement, shard_at, replicated}
use dtorch.Signature.{Builder, PlacementSignature, builder, add_input, add_output, build, finish}
use dtorch.Operators.{read_dim}

-- `InferOutputMetaInfo`, the shape of the output. A null shape stands for a number;
-- `constant_a` and `constant_b` are `param.inputA.has_value()` and `param.inputB.has_value()`.
unfoldable pub binary_shape : Bool → Bool → Shape → Shape → Outcome Shape
binary_shape constant_a constant_b a b =
    if is_null_tensor_shape a
    then assert_that constant_a >> ok b
    else (if is_null_tensor_shape b
        then assert_that constant_b >> ok a
        else throw_unless (can_broadcast_with a b) >> broadcast_output_shape a b)

-- `builder.AddInput(p).AddInput(q).AddOutput(r).Build()`
unfoldable pub add_row2 : Placement → Placement → Placement → Builder → Outcome Builder
add_row2 p q r b = build (add_output r (add_input q (add_input p b)))

-- `i < expand || other[i - expand] == 1`, which reads the shape only behind `expand`.
abbrev pub stretched : Shape → ℕ → ℕ → Outcome Bool
stretched other expand i =
    if ltb i expand then ok true else read_dim other (i - expand) >>= λ d. ok (d ==ℤ pos 1)

abbrev pub when {ℓ} : {A : Type ℓ} → Bool → (A → Outcome A) → A → Outcome A
when test f a = if test then f a else ok a

-- The first two loops of `AddBroadcastBinaryOpPlacementSignature`, from `i` on: the dimensions
-- of one input where the other has none or one of size one.
unfoldable pub spread_loop :
    (ℕ → Builder → Outcome Builder) → Shape → ℕ → ℕ → ℕ → Builder → Outcome Builder
spread_loop add other expand i zero b = ok b
spread_loop add other expand i (suc n) b = do
  test ← stretched other expand i
  next ← when test (add i) b
  spread_loop add other expand (suc i) n next

-- The third loop: the dimensions that both inputs have, where the sizes are equal.
unfoldable pub aligned_loop : Shape → Shape → ℕ → ℕ → ℕ → ℕ → Builder → Outcome Builder
aligned_loop a b expand_a expand_b i zero rows = ok rows
aligned_loop a b expand_a expand_b i (suc n) rows = do
  let index_a = i + expand_b
  let index_b = i + expand_a
  x ← read_dim a index_a
  y ← read_dim b index_b
  let add = add_row2 (shard_at index_a) (shard_at index_b) (shard_at (i + expand_a + expand_b))
  next ← when (x ==ℤ y) add rows
  aligned_loop a b expand_a expand_b (suc i) n next

-- The rows of the first and of the second loop.
abbrev pub left_row : ℕ → ℕ → Builder → Outcome Builder
left_row expand_a i = add_row2 (shard_at i) replicated (shard_at (i + expand_a))

abbrev pub right_row : ℕ → ℕ → Builder → Outcome Builder
right_row expand_b i = add_row2 replicated (shard_at i) (shard_at (i + expand_b))

-- `AddBroadcastBinaryOpPlacementSignature`
unfoldable pub add_binary_rows : Shape → Shape → Builder → Outcome Builder
add_binary_rows a b start = do
  let expand_a = max (length a) (length b) - length a
  let expand_b = max (length a) (length b) - length b
  one ← spread_loop (left_row expand_a) b expand_b 0 (length a) start
  two ← spread_loop (right_row expand_b) a expand_a 0 (length b) one
  aligned_loop a b expand_a expand_b 0 (min (length a) (length b)) two

-- `GetPlacementSignature`
unfoldable pub binary_signature : Shape → Shape → Outcome PlacementSignature
binary_signature a b = do all ← add_binary_rows a b (builder 2 1); finish all
