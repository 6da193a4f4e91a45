-- ===== src/Operators/Matmul.antt =====
-- `MatmulOp`: dtorch/core/operators/standard/matmul_op.cc.
pub mod Shapes
pub mod Rows
pub mod Whole
use dtorch.Base.{
  ℕ, zero, suc, ◌+◌, ◌-◌, ◌*◌, ◌/◌, ◌%◌, ◌^◌, ◌≤◌, ◌<◌, min, max, ◌≡◌, refl, sym, ap, ◌∙◌, subst,
  fun_ext, ◌≢◌, ◌↔◌, ◌⊎◌, inl, inr, Bool, true, false, not, ◌&&◌, ◌||◌, Option, none, some, List,
  [], ◌∷◌, ◌++◌, map, reverse, arith, ltb, leb, ◌==◌, if◌then◌else◌, ==_refl, ==_iff, ltb→lt,
  lt→ltb, leb→le, Bool-cases, Option-cases, and-eq-true, length, get_elem?, set, take, drop,
  replicate, All, sum, product, length-append, length-set, length-drop, length-take,
  length-replicate, length-map, get_elem?-set_ne, get_elem?-set_self, Outcome, ok, invalid_argument,
  aborted, ◌>>=◌, ◌>>◌, assert_that, throw_unless, of_option, >>=-eq-ok, assert_that-eq-ok,
  throw_unless-eq-ok, ok-injective, true≢false, get_elem?-lt, lt_of_get_elem?, All-map,
}
use dtorch.Base.Int.{
  ℤ, pos, negsuc, pos_part, neg_part, sub_ℕ, ◌+ℤ◌, ◌-ℤ◌, ◌*ℤ◌, ◌≤ℤ◌, lt_ℤ, le_ℤ, ◌==ℤ◌, max_ℤ,
  to_size, ==ℤ_iff, ==ℤ_refl, max_ℤ_comm, pos-mul,
}
use dtorch.Shape.{Shape, is_null_tensor_shape, can_broadcast_with, broadcast_output_shape, count}
use dtorch.Placement.{Placement, shard_at, replicated, partial_sum}
use dtorch.Signature.{Builder, PlacementSignature, builder, finish}
use dtorch.Operators.{read_dim}
use dtorch.Operators.Binary.{add_row2, add_binary_rows}

-- `ComputeShapeForLessTwoDim`
abbrev matched_shape : Shape → Shape → Outcome Shape
matched_shape (k ∷ []) (l ∷ []) = throw_unless (k ==ℤ l) >> ok []
matched_shape (m ∷ k ∷ []) (l ∷ n ∷ []) = throw_unless (k ==ℤ l) >> ok (m ∷ n ∷ [])
matched_shape (k ∷ []) (l ∷ n ∷ []) = throw_unless (k ==ℤ l) >> ok (n ∷ [])
matched_shape (m ∷ k ∷ []) (l ∷ []) = throw_unless (k ==ℤ l) >> ok (m ∷ [])
matched_shape _ _ = invalid_argument

unfoldable pub compute_shape_for_less_two_dim : Shape → Shape → Outcome Shape
compute_shape_for_less_two_dim a b = do
  assert_that (leb (length a) 2)
  assert_that (leb (length b) 2)
  matched_shape a b

-- The loop of `SplitBroadcastShape` from `i` on: `i < NumAxis() - 2` in signed numbers.
unfoldable pub split_loop : ℕ → ℕ → Shape → Shape × Shape
split_loop axes i [] = ([], [])
split_loop axes i (d ∷ ds) =
    let rest = split_loop axes (suc i) ds in
    if ltb (i + 2) axes then (d ∷ rest.0, rest.1) else (rest.0, d ∷ rest.1)

abbrev pub split_broadcast_shape : Shape → Shape × Shape
split_broadcast_shape shape = split_loop (length shape) 0 shape

-- `MergeShape`: each dimension of the second shape is pushed behind the first.
unfoldable pub merge_shape : Shape → Shape → Shape
merge_shape result [] = result
merge_shape result (d ∷ ds) = merge_shape (result ++ d ∷ []) ds

-- `CheckInput`, behind the check that all operators share.
unfoldable pub check_matmul : Shape → Shape → Outcome (Unit {0})
check_matmul a b = do
  throw_unless (not (is_null_tensor_shape a || is_null_tensor_shape b))
  let (broadcast_a, compute_a) = split_broadcast_shape a
  let (broadcast_b, compute_b) = split_broadcast_shape b
  throw_unless (can_broadcast_with broadcast_a broadcast_b)
  k_size_a ← read_dim compute_a (length compute_a - 1)
  k_size_b ← read_dim compute_b 0
  throw_unless (k_size_a ==ℤ k_size_b)

-- `InferOutputMetaInfo`, the shape of the output.
unfoldable pub matmul_shape : Shape → Shape → Outcome Shape
matmul_shape a b = do
  let (broadcast_a, compute_a) = split_broadcast_shape a
  let (broadcast_b, compute_b) = split_broadcast_shape b
  broadcast_y ← broadcast_output_shape broadcast_a broadcast_b
  compute_y ← compute_shape_for_less_two_dim compute_a compute_b
  ok (merge_shape broadcast_y compute_y)

abbrev pub Row : Type 0
Row = Placement × Placement × Placement

unfoldable pub add_rows2 : List Row → Builder → Outcome Builder
add_rows2 [] b = ok b
add_rows2 ((p, q, r) ∷ rows) b = do next ← add_row2 p q r b; add_rows2 rows next

abbrev partial_rows : List Row
partial_rows = (partial_sum, replicated, partial_sum) ∷ (replicated, partial_sum, partial_sum) ∷ []

-- The rows of the compute part in the order they are built, by the numbers of its dimensions;
-- `a`, `b` and `y` are the numbers of dimensions of the whole shapes.
unfoldable pub compute_rows : Shape → Shape → ℕ → ℕ → ℕ → List Row
compute_rows (_ ∷ []) (_ ∷ _ ∷ []) a b y =
    (replicated, shard_at (b - 1), shard_at (y - 1))
    ∷ (shard_at (a - 1), replicated, partial_sum)
    ∷ (replicated, shard_at (b - 2), partial_sum)
    ∷ (shard_at (a - 1), shard_at (b - 2), partial_sum)
    ∷ (shard_at (a - 1), shard_at (b - 1), partial_sum)
    ∷ partial_rows
compute_rows (_ ∷ _ ∷ []) (_ ∷ []) a b y =
    (shard_at (a - 2), replicated, shard_at (y - 1))
    ∷ (shard_at (a - 1), replicated, partial_sum)
    ∷ (replicated, shard_at (b - 1), partial_sum)
    ∷ (shard_at (a - 1), shard_at (b - 1), partial_sum)
    ∷ (shard_at (a - 2), shard_at (b - 1), partial_sum)
    ∷ partial_rows
compute_rows (_ ∷ _ ∷ []) (_ ∷ _ ∷ []) a b y =
    (shard_at (a - 2), replicated, shard_at (y - 2))
    ∷ (replicated, shard_at (b - 1), shard_at (y - 1))
    ∷ (shard_at (a - 1), replicated, partial_sum)
    ∷ (replicated, shard_at (b - 2), partial_sum)
    ∷ (shard_at (a - 1), shard_at (b - 2), partial_sum)
    ∷ (shard_at (a - 2), shard_at (b - 2), partial_sum)
    ∷ (shard_at (a - 1), shard_at (b - 1), partial_sum)
    ∷ partial_rows
compute_rows _ _ a b y = []

-- `GetPlacementSignature`, of the shapes of the inputs and of the output.
unfoldable pub matmul_signature : Shape → Shape → Shape → Outcome PlacementSignature
matmul_signature a b y = do
  let (broadcast_a, compute_a) = split_broadcast_shape a
  let (broadcast_b, compute_b) = split_broadcast_shape b
  batch ← add_binary_rows broadcast_a broadcast_b (builder 2 1)
  all ← add_rows2 (compute_rows compute_a compute_b (length a) (length b) (length y)) batch
  finish all

-- `GetOperatorCost`
unfoldable pub matmul_cost : Shape → Shape → Outcome ℤ
matmul_cost a b = do
  let (broadcast_a, compute_a) = split_broadcast_shape a
  let (broadcast_b, compute_b) = split_broadcast_shape b
  shape ← broadcast_output_shape broadcast_a broadcast_b
  batch ← count shape
  m ← if length compute_a == 2 then read_dim compute_a 0 else ok (pos 1)
  k ← read_dim compute_a (length compute_a - 1)
  n ← if length compute_b == 2 then read_dim compute_b 1 else ok (pos 1)
  ok (pos 2 *ℤ batch *ℤ m *ℤ n *ℤ k)
