-- ===== src/Operators/Matmul/Rows.antt =====
-- The rows of `MatmulOp::GetPlacementSignature`: dtorch/core/operators/standard/matmul_op.cc.
use dtorch.Base.{
  ℕ, suc, ◌+◌, ◌-◌, ◌≤◌, ◌<◌, ◌≡◌, refl, sym, ap, ◌∙◌, subst, ◌⊎◌, inl, inr, some, List, [], ◌∷◌,
  ◌++◌, arith, length, get_elem?, All, length-append, length-drop, ok, throw_unless-eq-ok,
}
use dtorch.Base.Int.{ℤ, ◌==ℤ◌, ==ℤ_iff}
use dtorch.Shape.{Shape}
use dtorch.Placement.{Placement, shard_at, replicated, partial_sum}
use dtorch.Shape.Broadcast.Sizes.{get_elem?-drop}
use dtorch.Operators.Matmul.{Row, compute_rows}
use dtorch.Operators.Matmul.Shapes.{contracts, matrix_of, product_of}

-- A row of the compute part that gives each device a product of its own: the rows of the first
-- matrix or the columns of the second are passed on, with their size, to where they lie in the
-- output, while the other input replicates; or the contracted dimension, of one size, is sharded
-- in both, or one input is partial, and the output is partial.
pub data IsComputeRow (a b batch y : Shape) : Placement → Placement → Placement → Type 0 where
  by_rows :
      (i : ℕ) (d : ℤ)
      → i + 2 ≡ length a
      → get_elem? a i ≡ some d
      → get_elem? y (length batch) ≡ some d
      → IsComputeRow a b batch y (shard_at i) replicated (shard_at (length batch))
  by_columns :
      (j k : ℕ) (d : ℤ)
      → j + 1 ≡ length b
      → k + 1 ≡ length y
      → get_elem? b j ≡ some d
      → get_elem? y k ≡ some d
      → IsComputeRow a b batch y replicated (shard_at j) (shard_at k)
  by_sum :
      (i j : ℕ) (d : ℤ)
      → i + 1 ≡ length a
      → j ≡ length b - 2
      → get_elem? a i ≡ some d
      → get_elem? b j ≡ some d
      → IsComputeRow a b batch y (shard_at i) (shard_at j) partial_sum
  by_left_partial : IsComputeRow a b batch y partial_sum replicated partial_sum
  by_right_partial : IsComputeRow a b batch y replicated partial_sum partial_sum

-- A row that shards the contracted dimension of one input only: the other replicates, or is
-- sharded at the dimension that is not contracted.
pub data IsOneSided (a b : Shape) : Placement → Placement → Placement → Type 0 where
  left_only : (i : ℕ) → i + 1 ≡ length a → IsOneSided a b (shard_at i) replicated partial_sum
  left_with_columns :
      (i j : ℕ)
      → i + 1 ≡ length a
      → j + 1 ≡ length b
      → 2 ≤ length b
      → IsOneSided a b (shard_at i) (shard_at j) partial_sum
  right_only :
      (j : ℕ) → j ≡ length b - 2 → j < length b → IsOneSided a b replicated (shard_at j) partial_sum
  right_with_rows :
      (i j : ℕ)
      → i + 2 ≡ length a
      → j ≡ length b - 2
      → j < length b
      → IsOneSided a b (shard_at i) (shard_at j) partial_sum

abbrev pub IsRowOf : Shape → Shape → Shape → Shape → Row → Type 0
IsRowOf a b batch y (p, q, r) = IsComputeRow a b batch y p q r ⊎ IsOneSided a b p q r

matrix_of-at :
    (a : Shape) (i : ℕ) {d : ℤ} {matrix : Shape}
    → matrix_of a ≡ matrix
    → get_elem? matrix i ≡ some d
    → get_elem? a (length a - 2 + i) ≡ some d
matrix_of-at a i {d} e h = sym (get_elem?-drop (length a - 2) i a) ∙ ap (λ z. get_elem? z i) e ∙ h

matrix_of-axes :
    (a : Shape) {matrix : Shape} → matrix_of a ≡ matrix → length a - (length a - 2) ≡ length matrix
matrix_of-axes a e = sym (length-drop (length a - 2) a) ∙ ap length e

get_elem?-append_back {ℓ} :
    {A : Type ℓ} (xs ys : List A) (i : ℕ) → get_elem? (xs ++ ys) (length xs + i) ≡ get_elem? ys i
get_elem?-append_back [] ys i = let e : 0 + i ≡ i = omega arith in ap (get_elem? ys) e
get_elem?-append_back (x ∷ xs) ys i =
    let e : suc (length xs) + i ≡ suc (length xs + i) = omega arith in
    ap (get_elem? (x ∷ xs ++ ys)) e ∙ get_elem?-append_back xs ys i

at-index : (s : Shape) (i j : ℕ) (d : ℤ) → j ≡ i → get_elem? s i ≡ some d → get_elem? s j ≡ some d
at-index s i j d e h = ap (get_elem? s) e ∙ h

module _ (a b batch : Shape) where
  rows_vector_matrix :
      (k l n : ℤ)
      → matrix_of a ≡ k ∷ []
      → matrix_of b ≡ l ∷ n ∷ []
      → k ≡ l
      → All
          (IsRowOf a b batch (batch ++ n ∷ []))
          (compute_rows (k ∷ []) (l ∷ n ∷ []) (length a) (length b) (length (batch ++ n ∷ [])))
  unfolding compute_rows
  rows_vector_matrix k l n ea eb same =
      let axes_a = matrix_of-axes a ea in
      let axes_b = matrix_of-axes b eb in
      let y = batch ++ n ∷ [] in
      let size = length-append batch (n ∷ []) in
      let left =
        at-index a (length a - 2 + 0) (length a - 1) k (omega arith) (matrix_of-at a 0 ea refl) in
      let right =
        at-index b (length b - 2 + 0) (length b - 2) l (omega arith) (matrix_of-at b 0 eb refl) in
      let column =
        at-index b (length b - 2 + 1) (length b - 1) n (omega arith) (matrix_of-at b 1 eb refl) in
      let here =
        at-index y (length batch + 0) (length y - 1) n (omega arith)
          (get_elem?-append_back batch (n ∷ []) 0) in
      (
        inl (by_columns _ _ n (omega arith) (omega arith) column here),
        (
          inr (left_only _ (omega arith)),
          (
            inr (right_only _ refl (omega arith)),
            (
              inl (by_sum _ _ k (omega arith) refl left (right ∙ ap some (sym same))),
              (
                inr (left_with_columns _ _ (omega arith) (omega arith) (omega arith)),
                (inl by_left_partial, (inl by_right_partial, tt)),
              ),
            ),
          ),
        ),
      )

  rows_matrix_vector :
      (m k l : ℤ)
      → matrix_of a ≡ m ∷ k ∷ []
      → matrix_of b ≡ l ∷ []
      → k ≡ l
      → All
          (IsRowOf a b batch (batch ++ m ∷ []))
          (compute_rows (m ∷ k ∷ []) (l ∷ []) (length a) (length b) (length (batch ++ m ∷ [])))
  unfolding compute_rows
  rows_matrix_vector m k l ea eb same =
      let axes_a = matrix_of-axes a ea in
      let axes_b = matrix_of-axes b eb in
      let y = batch ++ m ∷ [] in
      let size = length-append batch (m ∷ []) in
      let row =
        at-index a (length a - 2 + 0) (length a - 2) m (omega arith) (matrix_of-at a 0 ea refl) in
      let left =
        at-index a (length a - 2 + 1) (length a - 1) k (omega arith) (matrix_of-at a 1 ea refl) in
      let right =
        at-index b (length b - 2 + 0) (length b - 1) l (omega arith) (matrix_of-at b 0 eb refl) in
      let here =
        at-index y (length batch + 0) (length batch) m (omega arith)
          (get_elem?-append_back batch (m ∷ []) 0) in
      let index : length batch ≡ length y - 1 = omega arith in
      (
        inl (
            subst (λ z. IsComputeRow a b batch y (shard_at (length a - 2)) replicated (shard_at z))
              index (by_rows _ m (omega arith) row here)),
        (
          inr (left_only _ (omega arith)),
          (
            inr (right_only _ (omega arith) (omega arith)),
            (
              inl (by_sum _ _ k (omega arith) (omega arith) left (right ∙ ap some (sym same))),
              (
                inr (right_with_rows _ _ (omega arith) (omega arith) (omega arith)),
                (inl by_left_partial, (inl by_right_partial, tt)),
              ),
            ),
          ),
        ),
      )

  rows_matrices :
      (m k l n : ℤ)
      → matrix_of a ≡ m ∷ k ∷ []
      → matrix_of b ≡ l ∷ n ∷ []
      → k ≡ l
      → All (IsRowOf a b batch (batch ++ m ∷ n ∷ [])) (
          compute_rows
            (m ∷ k ∷ [])
            (l ∷ n ∷ [])
            (length a)
            (length b)
            (length (batch ++ m ∷ n ∷ [])))
  unfolding compute_rows
  rows_matrices m k l n ea eb same =
      let axes_a = matrix_of-axes a ea in
      let axes_b = matrix_of-axes b eb in
      let y = batch ++ m ∷ n ∷ [] in
      let size = length-append batch (m ∷ n ∷ []) in
      let row =
        at-index a (length a - 2 + 0) (length a - 2) m (omega arith) (matrix_of-at a 0 ea refl) in
      let left =
        at-index a (length a - 2 + 1) (length a - 1) k (omega arith) (matrix_of-at a 1 ea refl) in
      let right =
        at-index b (length b - 2 + 0) (length b - 2) l (omega arith) (matrix_of-at b 0 eb refl) in
      let column =
        at-index b (length b - 2 + 1) (length b - 1) n (omega arith) (matrix_of-at b 1 eb refl) in
      let row_y =
        at-index y (length batch + 0) (length batch) m (omega arith)
          (get_elem?-append_back batch (m ∷ n ∷ []) 0) in
      let column_y =
        at-index y (length batch + 1) (length y - 1) n (omega arith)
          (get_elem?-append_back batch (m ∷ n ∷ []) 1) in
      let index : length batch ≡ length y - 2 = omega arith in
      (
        inl (
            subst (λ z. IsComputeRow a b batch y (shard_at (length a - 2)) replicated (shard_at z))
              index (by_rows _ m (omega arith) row row_y)),
        (
          inl (by_columns _ _ n (omega arith) (omega arith) column column_y),
          (
            inr (left_only _ (omega arith)),
            (
              inr (right_only _ refl (omega arith)),
              (
                inl (by_sum _ _ k (omega arith) refl left (right ∙ ap some (sym same))),
                (
                  inr (right_with_rows _ _ (omega arith) refl (omega arith)),
                  (
                    inr (left_with_columns _ _ (omega arith) (omega arith) (omega arith)),
                    (inl by_left_partial, (inl by_right_partial, tt)),
                  ),
                ),
              ),
            ),
          ),
        ),
      )

  -- The rows of every combination of vectors and matrices.
  pub compute_rows-IsComputeRow :
      (x y : Shape)
      → matrix_of a ≡ x
      → matrix_of b ≡ y
      → contracts x y ≡ ok tt
      → All
          (IsRowOf a b batch (batch ++ product_of x y))
          (compute_rows x y (length a) (length b) (length (batch ++ product_of x y)))
  unfolding compute_rows
  compute_rows-IsComputeRow [] y ea eb h = tt
  compute_rows-IsComputeRow (k ∷ []) [] ea eb h = tt
  compute_rows-IsComputeRow (k ∷ []) (l ∷ []) ea eb h = tt
  compute_rows-IsComputeRow (k ∷ []) (l ∷ n ∷ []) ea eb h =
      rows_vector_matrix k l n ea eb ((==ℤ_iff k l).0 (throw_unless-eq-ok (k ==ℤ l) h))
  compute_rows-IsComputeRow (k ∷ []) (l ∷ n ∷ o ∷ y) ea eb h = tt
  compute_rows-IsComputeRow (m ∷ k ∷ []) [] ea eb h = tt
  compute_rows-IsComputeRow (m ∷ k ∷ []) (l ∷ []) ea eb h =
      rows_matrix_vector m k l ea eb ((==ℤ_iff k l).0 (throw_unless-eq-ok (k ==ℤ l) h))
  compute_rows-IsComputeRow (m ∷ k ∷ []) (l ∷ n ∷ []) ea eb h =
      rows_matrices m k l n ea eb ((==ℤ_iff k l).0 (throw_unless-eq-ok (k ==ℤ l) h))
  compute_rows-IsComputeRow (m ∷ k ∷ []) (l ∷ n ∷ o ∷ y) ea eb h = tt
  compute_rows-IsComputeRow (m ∷ k ∷ o ∷ x) y ea eb h = tt
