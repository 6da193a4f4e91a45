-- ===== src/Tests/Operators.antt =====
-- The shape operators on a tensor of 2 x 3 x 4 elements.
use dtorch.Base.{ℕ, ◌≡◌, refl, some, List, [], ◌∷◌, map, arith, get_elem?, All, product, ok}
use dtorch.Base.Int.{ℤ, pos, negsuc, ◌+ℤ◌, ◌-ℤ◌, ◌*ℤ◌}
use dtorch.Shape.{
  all_compatible, broadcast_output_shape, broadcast_dims, Shape, prod_loop, prod, count, contains,
  can_broadcast_with, ◌==ₛ◌,
}
use dtorch.Shape.Broadcast.Sizes.{HasSizes}
use dtorch.Stride.{wrap}
use dtorch.Operators.{get_valid_dim, to_signed}
use dtorch.Operators.Rows.{SoundSignature}
use dtorch.Operators.Permute.{
  permute_shape, permute_loop, permute_signature, permute_signature-SoundSignature,
}
use dtorch.Operators.Transpose.{
  transpose_shape, transpose_signature, transpose_signature-SoundSignature,
}
use dtorch.Operators.Squeeze.{
  squeeze_shape, valid_dims, squeeze_loop, stays, squeeze_signature,
  squeeze_signature-SoundSignature,
}
use dtorch.Operators.Unsqueeze.{
  unsqueeze_shape, unsqueeze_signature, unsqueeze_signature-SoundSignature,
}
use dtorch.Operators.Chunk.{chunk_outputs, chunk_sizes, IsSplit, chunk_sizes-IsSplit}
use dtorch.Operators.Flatten.{flatten_shape, flattened, flatten_shape-flattened}
use dtorch.Operators.Concat.{concat_shape, concat_loop, Joins, total_size, concat_shape-Joins}
use dtorch.Operators.Expand.{fill_shape, fill_loop, expand_shape, expand_shape-IsFilled, IsFilled}
use dtorch.Operators.Reshape.{
  reshape_shape, calculate_output_shape, reshape_loop, fill_minus_one, checked_shape,
}
use dtorch.Operators.Reshape.Granted.{AllGranted}
use dtorch.Operators.Reshape.Whole.{reshape_shape-AllGranted}

abbrev input : Shape
input = pos 2 ∷ pos 3 ∷ pos 4 ∷ []

abbrev order : List ℤ
order = pos 2 ∷ pos 0 ∷ negsuc 1 ∷ []

abbrev permuted_shape : Shape
permuted_shape = pos 4 ∷ pos 2 ∷ pos 3 ∷ []

permuted : permute_shape input order ≡ ok permuted_shape
unfolding permute_shape permute_loop get_valid_dim ◌+ℤ◌ contains
permuted = refl

permute_signature-SoundSignature_example :
    SoundSignature input permuted_shape (permute_signature input order)
permute_signature-SoundSignature_example =
    permute_signature-SoundSignature input order (omega arith) permuted

abbrev transposed_shape : Shape
transposed_shape = pos 4 ∷ pos 3 ∷ pos 2 ∷ []

transposed : transpose_shape input (pos 0) (negsuc 0) ≡ ok transposed_shape
unfolding transpose_shape get_valid_dim ◌+ℤ◌
transposed = refl

transpose_signature-SoundSignature_example :
    SoundSignature input transposed_shape (transpose_signature input (pos 0) (negsuc 0))
transpose_signature-SoundSignature_example =
    transpose_signature-SoundSignature input (pos 0) (negsuc 0) (omega arith) transposed

abbrev thin : Shape
thin = pos 2 ∷ pos 1 ∷ pos 4 ∷ []

abbrev squeezed_shape : Shape
squeezed_shape = pos 2 ∷ pos 4 ∷ []

abbrev io_dims : List (ℕ × ℕ)
io_dims = (0, 0) ∷ (2, 1) ∷ []

squeezed : squeeze_shape thin (pos 1 ∷ []) ≡ ok (squeezed_shape, io_dims)
unfolding squeeze_shape valid_dims squeeze_loop stays get_valid_dim contains
squeezed = refl

squeeze_signature-SoundSignature_example :
    SoundSignature thin squeezed_shape (squeeze_signature io_dims)
squeeze_signature-SoundSignature_example =
    squeeze_signature-SoundSignature thin (pos 1 ∷ []) (omega arith) squeezed

unsqueeze_signature-SoundSignature_example :
    (out : Shape) × (unsqueeze_shape input (pos 1) ≡ ok out)
    × SoundSignature input out (unsqueeze_signature input (pos 1))
unsqueeze_signature-SoundSignature_example =
    unsqueeze_signature-SoundSignature input 1 (omega arith) (omega arith)

seven_in_three : chunk_sizes 7 3 3 ≡ ok (pos 3, pos 1)
unfolding chunk_sizes ◌-ℤ◌
seven_in_three = refl

chunk_sizes-IsSplit_example :
    (outputs : ℕ) × (each : ℕ) × (last : ℕ) × (chunk_outputs 7 3 ≡ ok outputs)
    × (chunk_sizes 7 3 outputs ≡ ok (pos each, pos last))
    × IsSplit 7 3 outputs each last
chunk_sizes-IsSplit_example = chunk_sizes-IsSplit 7 3 (omega arith) (omega arith)

abbrev sizes : List ℕ
sizes = 2 ∷ 3 ∷ 4 ∷ []

flatten_shape-flattened_example :
    (flatten_shape (map pos sizes) (pos 0) (pos 1) ≡ ok (map pos (flattened sizes 0 1)))
    × (product (flattened sizes 0 1) ≡ product sizes)
flatten_shape-flattened_example =
    flatten_shape-flattened sizes 0 1 (omega arith) (omega arith)
      (omega arith, (omega arith, (omega arith, tt))) (omega arith)

abbrev second : Shape
second = pos 2 ∷ pos 5 ∷ pos 4 ∷ []

abbrev joined : Shape
joined = pos 2 ∷ pos 8 ∷ pos 4 ∷ []

concatenated : concat_shape input (second ∷ []) (pos 1) ≡ ok joined
unfolding concat_shape concat_loop get_valid_dim ◌==ₛ◌
concatenated = refl

concat_shape-Joins_example :
    (v : ℕ) × (get_valid_dim input (pos 1) ≡ ok v)
    × All (Joins input v) (second ∷ [])
    × Joins input v joined
    × (get_elem? joined v ≡ some (to_signed (wrap (total_size v (input ∷ second ∷ [])))))
concat_shape-Joins_example = concat_shape-Joins input (second ∷ []) (pos 1) concatenated

abbrev wanted : Shape
wanted = pos 5 ∷ pos 2 ∷ negsuc 0 ∷ negsuc 0 ∷ []

abbrev filled : Shape
filled = pos 5 ∷ pos 2 ∷ pos 1 ∷ pos 4 ∷ []

expanded : expand_shape thin wanted ≡ ok filled
unfolding expand_shape fill_shape fill_loop can_broadcast_with all_compatible broadcast_output_shape
    broadcast_dims
expanded = refl

expand_shape-IsFilled_example :
    (shape : Shape) × IsFilled thin wanted shape × HasSizes thin shape filled
expand_shape-IsFilled_example = expand_shape-IsFilled thin wanted expanded

abbrev asked : Shape
asked = pos 0 ∷ negsuc 0 ∷ pos 6 ∷ []

abbrev reshaped_shape : Shape
reshaped_shape = pos 2 ∷ pos 2 ∷ pos 6 ∷ []

reshaped : reshape_shape input asked ≡ ok reshaped_shape
unfolding reshape_shape calculate_output_shape reshape_loop fill_minus_one checked_shape count prod
    prod_loop ◌*ℤ◌
reshaped = refl

reshape_shape-AllGranted_example :
    AllGranted input 0 asked reshaped_shape
    × ((n : ℤ) × (count input ≡ ok n) × (count reshaped_shape ≡ ok n))
reshape_shape-AllGranted_example = reshape_shape-AllGranted input asked reshaped
