-- ===== src/Operators/Matmul/Whole.antt =====
-- `MatmulOp::GetPlacementSignature`, the whole table: dtorch/core/operators/standard/matmul_op.cc.
use dtorch.Base.{
  ◌-◌, ◌≤◌, ◌≡◌, refl, sym, ◌∙◌, subst, ◌⊎◌, inl, inr, List, [], ◌∷◌, ◌++◌, arith, length, All,
  length-take, Outcome, ok, invalid_argument, aborted, ◌>>=◌, All-map,
}
use dtorch.Base.Int.{negsuc}
use dtorch.Shape.{Shape, broadcast_output_shape}
use dtorch.Placement.{Placement}
use dtorch.Placement.HashKey.{IsBuilt, by_shard, by_replicate, by_partial}
use dtorch.Signature.{SignaturePair, PlacementSignature, builder, finish}
use dtorch.Signature.Finish.{idle, IsRow}
use dtorch.Operators.Binary.{add_row2, add_binary_rows}
use dtorch.Shape.Broadcast.Sizes.{broadcast_output_shape-HasSizes}
use dtorch.Operators.Adds.{Adds, Adds-none, Adds-then, Adds-weaken, Adds-finish}
use dtorch.Operators.Binary.Adds.{Adds-row}
use dtorch.Operators.Binary.Sound.{Positive, NoOnes}
use dtorch.Operators.Binary.Whole.{
  IsSoundTriple, IsSoundTriple-IsRow, add_binary_rows-Adds, replicated_row,
}
use dtorch.Operators.Matmul.{Row, add_rows2, compute_rows, matmul_shape, matmul_signature}
use dtorch.Operators.Matmul.Shapes.{
  product_of, batch_of, matrix_of, split_broadcast_shape-parts, matmul_shape-IsProduct,
}
use dtorch.Operators.Matmul.Rows.{
  IsComputeRow, by_rows, by_columns, by_sum, by_left_partial, by_right_partial, IsOneSided,
  left_only, left_with_columns, right_only, right_with_rows, IsRowOf, compute_rows-IsComputeRow,
}

-- The rows as they are recorded.
abbrev pub IsComputePair : Shape → Shape → Shape → Shape → SignaturePair → Type 0
IsComputePair a b batch y (p ∷ q ∷ [], r ∷ []) = IsRowOf a b batch y (p, q, r)
IsComputePair a b batch y _ = ⊥

abbrev pub IsProductPair : Shape → Shape → Shape → Shape → SignaturePair → Type 0
IsProductPair a b batch y row =
    IsSoundTriple (batch_of a) (batch_of b) batch row ⊎ IsComputePair a b batch y row

add_rows2-Adds :
    (P : SignaturePair → Type 0) (rows : List Row) (ps : List SignaturePair)
    → All (λ row. P (row.0 ∷ row.1 ∷ [], row.2 ∷ [])) rows
    → Adds 2 P ps (add_rows2 rows (idle 2 1 ps []))
unfolding add_rows2
add_rows2-Adds P [] ps h = Adds-none 2 P ps
add_rows2-Adds P ((p, q, r) ∷ rows) ps h =
    Adds-then 2 P ps (add_row2 p q r (idle 2 1 ps [])) (add_rows2 rows) (Adds-row P p q r ps h.0)
      (λ qs. add_rows2-Adds P rows qs h.1)

IsComputeRow-IsBuilt :
    (a b batch y : Shape) {p q r : Placement}
    → length a ≤ 16
    → length b ≤ 16
    → IsComputeRow a b batch y p q r
    → IsBuilt p × IsBuilt q
IsComputeRow-IsBuilt a b batch y few_a few_b (by_rows i d e here there) =
    (by_shard i (negsuc 0) (omega arith), by_replicate)
IsComputeRow-IsBuilt a b batch y few_a few_b (by_columns j k d e f here there) =
    (by_replicate, by_shard j (negsuc 0) (omega arith))
IsComputeRow-IsBuilt a b batch y few_a few_b (by_sum i j d e f here there) =
    (by_shard i (negsuc 0) (omega arith), by_shard j (negsuc 0) (omega arith))
IsComputeRow-IsBuilt a b batch y few_a few_b by_left_partial = (by_partial, by_replicate)
IsComputeRow-IsBuilt a b batch y few_a few_b by_right_partial = (by_replicate, by_partial)

IsOneSided-IsBuilt :
    (a b : Shape) {p q r : Placement}
    → length a ≤ 16
    → length b ≤ 16
    → IsOneSided a b p q r
    → IsBuilt p × IsBuilt q
IsOneSided-IsBuilt a b few_a few_b (left_only i e) =
    (by_shard i (negsuc 0) (omega arith), by_replicate)
IsOneSided-IsBuilt a b few_a few_b (left_with_columns i j e f two) =
    (by_shard i (negsuc 0) (omega arith), by_shard j (negsuc 0) (omega arith))
IsOneSided-IsBuilt a b few_a few_b (right_only j e inside) =
    (by_replicate, by_shard j (negsuc 0) (omega arith))
IsOneSided-IsBuilt a b few_a few_b (right_with_rows i j e f inside) =
    (by_shard i (negsuc 0) (omega arith), by_shard j (negsuc 0) (omega arith))

IsComputePair-IsRow :
    (a b batch y : Shape)
    → length a ≤ 16
    → length b ≤ 16
    → (row : SignaturePair) → IsComputePair a b batch y row
    → IsRow 2 1 row
IsComputePair-IsRow a b batch y few_a few_b (p ∷ q ∷ [], r ∷ []) (inl s) =
    let (x, z) = IsComputeRow-IsBuilt a b batch y few_a few_b s in ((x, (z, tt)), refl, refl)
IsComputePair-IsRow a b batch y few_a few_b (p ∷ q ∷ [], r ∷ []) (inr s) =
    let (x, z) = IsOneSided-IsBuilt a b few_a few_b s in ((x, (z, tt)), refl, refl)
IsComputePair-IsRow a b batch y few_a few_b _ s = absurd s

>>=-assoc {ℓ} :
    {A B C : Type ℓ} (x : Outcome A) (f : A → Outcome B) (g : B → Outcome C)
    → (x >>= f) >>= g ≡ (x >>= λ a. f a >>= g)
>>=-assoc (ok a) f g = refl
>>=-assoc invalid_argument f g = refl
>>=-assoc aborted f g = refl

batch_of-length : (s : Shape) → length (batch_of s) ≤ length s
batch_of-length s = omega (arith, length-take (length s - 2) s)

-- Where the shape y of a product is inferred, of two tensors of at most 16 dimensions whose
-- dimensions in front of the matrices are positive, there is a signature. Its last row replicates
-- everything. Each other row is a sound row of the dimensions in front, for their broadcast
-- shape `batch`, with which y begins; or it passes on the rows of the first matrix or the columns
-- of the second, with their size, to where they lie in y, while the other input replicates; or it
-- shards the contracted dimension, of the same size, in both inputs, or has one input partial, and
-- its output is partial; or it is one-sided: it shards the contracted dimension of one input only,
-- and its output is partial. In front, the longer shape is to have no size one among as many of
-- its first dimensions as the shorter has.
pub matmul_signature-IsProductPair :
    (a b : Shape) {y : Shape}
    → length a ≤ 16
    → length b ≤ 16
    → Positive (batch_of a)
    → Positive (batch_of b)
    → NoOnes (batch_of a) (batch_of b)
    → NoOnes (batch_of b) (batch_of a)
    → matmul_shape a b ≡ ok y
    → (s : PlacementSignature) × (matmul_signature a b y ≡ ok s)
      × ((batch : Shape) × (broadcast_output_shape (batch_of a) (batch_of b) ≡ ok batch)
          × (y ≡ batch ++ product_of (matrix_of a) (matrix_of b))
          × (rows : List SignaturePair) × All (IsProductPair a b batch y) rows
          × (s.all_signature ≡ rows ++ replicated_row ∷ []))
unfolding matmul_signature
matmul_signature-IsProductPair a b {y} few_a few_b positive_a positive_b ones_a ones_b run =
    let (batch, shape, join, k, e) = matmul_shape-IsProduct a b run in
    let few_a' : length (batch_of a) ≤ 16 = omega (arith, batch_of-length a) in
    let few_b' : length (batch_of b) ≤ 16 = omega (arith, batch_of-length b) in
    let P = IsProductPair a b batch y in
    let sizes = broadcast_output_shape-HasSizes (batch_of a) (batch_of b) shape in
    let front =
      Adds-weaken 2 (IsSoundTriple (batch_of a) (batch_of b) batch) P [] _ (λ row h. inl h)
        (add_binary_rows-Adds (batch_of a) (batch_of b) batch sizes positive_a positive_b ones_a
          ones_b []) in
    let rows = compute_rows (matrix_of a) (matrix_of b) (length a) (length b) (length y) in
    let back : All (IsRowOf a b batch y) rows =
      subst
        (λ z.
          All (IsRowOf a b batch z)
            (compute_rows (matrix_of a) (matrix_of b) (length a) (length b) (length z)))
        (sym e) (compute_rows-IsComputeRow a b batch (matrix_of a) (matrix_of b) refl refl k) in
    let kept = All-map rows (λ row h. inr h) back in
    let whole = Adds-then 2 P [] _ (add_rows2 rows) front (λ qs. add_rows2-Adds P rows qs kept) in
    let (s, done, (found, sound, last)) =
      Adds-finish 2 P _ (omega arith)
        (λ row h. elim h [
          | inl g ↦ IsSoundTriple-IsRow (batch_of a) (batch_of b) batch few_a' few_b' row g
          | inr g ↦ IsComputePair-IsRow a b batch y few_a few_b row g
        ])
        whole in
    (
      s,
      rw (split_broadcast_shape-parts a, split_broadcast_shape-parts b)
          (sym (
              >>=-assoc (add_binary_rows (batch_of a) (batch_of b) (builder 2 1)) (add_rows2 rows)
                finish)
            ∙ done),
      (batch, shape, e, found, sound, last),
    )
