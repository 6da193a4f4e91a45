-- ===== src/Tests/Shapes.antt =====
-- Shapes and strides: a tensor of 2 x 3 x 4 elements, and the shapes [3, 1] and [4].
use dtorch.Base.{ℕ, ◌<◌, ◌≡◌, refl, List, [], ◌∷◌, map, arith, product, ok}
use dtorch.Base.Int.{pos, negsuc, ◌+ℤ◌}
use dtorch.Shape.{Shape, broadcast_dims, broadcast_output_shape, set_at, wrap_index}
use dtorch.Shape.Broadcast.Sizes.{HasSizes, broadcast_output_shape-HasSizes}
use dtorch.Stride.{compute_coordinate, compute_index, stride_of_shape}
use dtorch.Stride.RoundTrip.{
  IsArrayShape, InRange, linear, compute_index-linear, compute_index-compute_coordinate,
}

abbrev dims : List ℕ
dims = 2 ∷ 3 ∷ 4 ∷ []

abbrev column_shape : Shape
column_shape = pos 3 ∷ pos 1 ∷ []

abbrev row_shape : Shape
row_shape = pos 4 ∷ []

dims-IsArrayShape : IsArrayShape dims
dims-IsArrayShape = record {
  positive = (omega arith, (omega arith, (omega arith, tt)));
  bounded = omega arith;
}

abbrev one_two_three : List ℕ
one_two_three = 1 ∷ 2 ∷ 3 ∷ []

one_two_three-InRange : InRange dims one_two_three
one_two_three-InRange = (omega arith, (omega arith, (omega arith, tt)))

broadcast_joins : broadcast_output_shape column_shape row_shape ≡ ok (pos 3 ∷ pos 4 ∷ [])
unfolding broadcast_output_shape broadcast_dims
broadcast_joins = refl

set_last : set_at column_shape (negsuc 0) (pos 7) ≡ ok (pos 3 ∷ pos 7 ∷ [])
unfolding set_at wrap_index ◌+ℤ◌
set_last = refl

broadcast_output_shape-HasSizes_example : HasSizes column_shape row_shape (pos 3 ∷ pos 4 ∷ [])
broadcast_output_shape-HasSizes_example =
    broadcast_output_shape-HasSizes column_shape row_shape broadcast_joins

compute_index-linear_example :
    (compute_index (stride_of_shape (map pos dims)) one_two_three ≡ ok (linear dims one_two_three))
    × (linear dims one_two_three < product dims)
compute_index-linear_example =
    compute_index-linear dims one_two_three dims-IsArrayShape one_two_three-InRange

compute_index-compute_coordinate_example :
    (cs : List ℕ) × (compute_coordinate (stride_of_shape (map pos dims)) 17 ≡ ok cs)
    × InRange dims cs
    × (compute_index (stride_of_shape (map pos dims)) cs ≡ ok 17)
compute_index-compute_coordinate_example =
    compute_index-compute_coordinate dims 17 dims-IsArrayShape (omega arith)
