-- ===== src/Tests/Products.antt =====
-- Runs of the element-wise operators, the matrix product and the reductions, and their theorems applied.
use dtorch.Base.{
  ℕ, ◌≡◌, refl, ◌↔◌, true, false, some, List, [], ◌∷◌, ◌++◌, arith, get_elem?, All, ok,
  invalid_argument,
}
use dtorch.Base.Int.{pos, negsuc, ◌+ℤ◌, ◌*ℤ◌}
use dtorch.Shape.{
  at, wrap_index, Shape, broadcast_output_shape, broadcast_dims, can_broadcast_with, all_compatible,
  is_null_tensor_shape, count, prod, prod_loop,
}
use dtorch.Placement.{shard_at, replicated}
use dtorch.Signature.{Builder, builder, SignaturePair, PlacementSignature, build}
use dtorch.Operators.Binary.{
  binary_shape, binary_signature, add_binary_rows, spread_loop, aligned_loop, add_row2,
}
use dtorch.Operators.Binary.Whole.{IsSoundTriple, replicated_row, binary_signature-IsSoundTriple}
use dtorch.Operators.Matmul.{
  check_matmul, matmul_shape, matmul_signature, split_loop, merge_shape, matmul_cost,
  compute_shape_for_less_two_dim,
}
use dtorch.Operators.Matmul.Shapes.{
  batch_of, matrix_of, product_of, IsProduct, check_matmul-IsProduct,
}
use dtorch.Operators.Matmul.Whole.{IsProductPair, matmul_signature-IsProductPair}
use dtorch.Operators.Linear.{linear_shape}
use dtorch.Operators.Reduce.{
  reduce_shape, reduced_shape, none_negative, mark_loop, reduced_index, collect, get_dim_set,
  reduce_signature,
}
use dtorch.Operators.Reduce.Rows.{IsReducePair, replicated_pair, reduce_signature-IsReducePair}

abbrev columns : Shape
columns = pos 3 ∷ pos 1 ∷ []

abbrev rows : Shape
rows = pos 3 ∷ pos 4 ∷ []

broadcasts : binary_shape false false columns rows ≡ ok rows
unfolding binary_shape can_broadcast_with all_compatible broadcast_output_shape broadcast_dims
    is_null_tensor_shape
broadcasts = refl

binary_signature-IsSoundTriple_example :
    (s : PlacementSignature) × (binary_signature columns rows ≡ ok s)
    × ((found : List SignaturePair) × All (IsSoundTriple columns rows rows) found
        × (s.all_signature ≡ found ++ replicated_row ∷ []))
binary_signature-IsSoundTriple_example =
    binary_signature-IsSoundTriple false false columns rows (omega arith) (omega arith)
      (omega arith, (omega arith, tt)) (omega arith, (omega arith, tt))
      (λ i inside less. absurd (omega arith)) (λ i inside less. absurd (omega arith)) broadcasts

-- The test of the first loop reads the first dimension of the longer shape, and not the second,
-- which lies at the first of the shorter: a row shards the three of one input alone.
abbrev vector : Shape
vector = pos 3 ∷ []

abbrev row : Shape
row = pos 1 ∷ pos 3 ∷ []

one_sided :
    (b : Builder) × (add_binary_rows vector row (builder 2 1) ≡ ok b)
    × (get_elem? b.pairs 0 ≡ some (shard_at 0 ∷ replicated ∷ [], shard_at 1 ∷ []))
unfolding add_binary_rows spread_loop aligned_loop add_row2 build
one_sided = (_, refl, refl)

-- A batch of two matrices of three rows, times one matrix.
abbrev batched : Shape
batched = pos 2 ∷ pos 3 ∷ pos 4 ∷ []

abbrev matrix : Shape
matrix = pos 4 ∷ pos 5 ∷ []

abbrev product_shape : Shape
product_shape = pos 2 ∷ pos 3 ∷ pos 5 ∷ []

multiplies : matmul_shape batched matrix ≡ ok product_shape
unfolding matmul_shape split_loop merge_shape broadcast_output_shape compute_shape_for_less_two_dim
multiplies = refl

costs : matmul_cost batched matrix ≡ ok (pos 240)
unfolding matmul_cost split_loop broadcast_output_shape count prod prod_loop ◌*ℤ◌
costs = refl

mismatched : check_matmul matrix matrix ≡ invalid_argument
unfolding check_matmul split_loop can_broadcast_with is_null_tensor_shape
mismatched = refl

batched_present : is_null_tensor_shape batched ≡ false
unfolding is_null_tensor_shape
batched_present = refl

matrix_present : is_null_tensor_shape matrix ≡ false
unfolding is_null_tensor_shape
matrix_present = refl

check_matmul-IsProduct_example :
    (check_matmul batched matrix ≡ ok tt)
    ↔ ((y : Shape) × (matmul_shape batched matrix ≡ ok y) × IsProduct batched matrix y)
check_matmul-IsProduct_example =
    check_matmul-IsProduct batched matrix batched_present matrix_present

matmul_signature-IsProductPair_example :
    (s : PlacementSignature) × (matmul_signature batched matrix product_shape ≡ ok s)
    × ((batch : Shape) × (broadcast_output_shape (batch_of batched) (batch_of matrix) ≡ ok batch)
        × (product_shape ≡ batch ++ product_of (matrix_of batched) (matrix_of matrix))
        × (found : List SignaturePair) × All
            (IsProductPair batched matrix batch product_shape)
            found
        × (s.all_signature ≡ found ++ replicated_row ∷ []))
matmul_signature-IsProductPair_example =
    matmul_signature-IsProductPair batched matrix (omega arith) (omega arith) (omega arith, tt) tt
      (λ i inside less. absurd (omega arith)) (λ i inside less. absurd (omega arith)) multiplies

abbrev last_kept : Shape
last_kept = pos 2 ∷ pos 3 ∷ pos 1 ∷ []

reduces : reduce_shape batched (negsuc 0 ∷ []) true ≡ ok last_kept
unfolding reduce_shape reduced_shape none_negative mark_loop reduced_index collect
    can_broadcast_with all_compatible ◌+ℤ◌
reduces = refl

reduces_all : reduce_shape batched [] false ≡ ok []
unfolding reduce_shape reduced_shape none_negative mark_loop collect can_broadcast_with
reduces_all = refl

reduce_signature-IsReducePair_example :
    (dim_set : List ℕ) × (get_dim_set batched (negsuc 0 ∷ []) ≡ ok dim_set)
    × ((s : PlacementSignature) × (reduce_signature batched (negsuc 0 ∷ []) true ≡ ok s)
        × ((found : List SignaturePair) × All (IsReducePair dim_set batched last_kept) found
            × (s.all_signature ≡ found ++ replicated_pair ∷ [])))
reduce_signature-IsReducePair_example =
    reduce_signature-IsReducePair batched (negsuc 0 ∷ []) true (omega arith) reduces

-- A bias of five elements passes for four features.
wrong_bias :
    linear_shape (pos 2 ∷ pos 3 ∷ []) (pos 4 ∷ pos 3 ∷ []) (pos 5 ∷ []) ≡ ok (pos 2 ∷ pos 4 ∷ [])
unfolding linear_shape at wrap_index is_null_tensor_shape ◌+ℤ◌
wrong_bias = refl
