-- ===== src/Operators/Matmul/Shapes.antt =====
-- What `MatmulOp` checks and infers: dtorch/core/operators/standard/matmul_op.cc.
use mathlib.Core.List.{append-nil, append_assoc}
use dtorch.Base.{
  ℕ, zero, suc, ◌+◌, ◌-◌, ◌≤◌, ◌≡◌, refl, sym, ap, ◌∙◌, ◌↔◌, ◌⊎◌, inl, inr, false, not, ◌||◌, [],
  ◌∷◌, ◌++◌, arith, ltb, Bool-cases, length, take, drop, product, length-drop, Outcome, ok,
  invalid_argument, aborted, ◌>>=◌, ◌>>◌, throw_unless, >>=-eq-ok, throw_unless-eq-ok, ok-injective,
}
use dtorch.Base.Int.{◌==ℤ◌}
use dtorch.Shape.{Shape, is_null_tensor_shape, can_broadcast_with, broadcast_output_shape}
use dtorch.Shape.Broadcast.{can_broadcast_with-broadcast_output_shape}
use dtorch.Shape.Broadcast.Join.{IsJoin, broadcast_output_shape-IsJoin}
use dtorch.Operators.{read_dim}
use dtorch.Operators.Matmul.{
  compute_shape_for_less_two_dim, split_loop, split_broadcast_shape, merge_shape, check_matmul,
  matmul_shape,
}

-- The last two dimensions, or all of fewer, and the ones in front of them.
abbrev pub batch_of : Shape → Shape
batch_of shape = take (length shape - 2) shape

abbrev pub matrix_of : Shape → Shape
matrix_of shape = drop (length shape - 2) shape

abbrev nothing : Shape × Shape
nothing = ([], [])

take-drop-empty : (n : ℕ) → nothing ≡ (take n [], drop n [])
take-drop-empty zero = refl
take-drop-empty (suc n) = refl

split_loop-take-drop :
    (axes i : ℕ) (shape : Shape)
    → split_loop axes i shape ≡ (take (axes - (i + 2)) shape, drop (axes - (i + 2)) shape)
unfolding split_loop
split_loop-take-drop axes i [] = take-drop-empty (axes - (i + 2))
split_loop-take-drop axes i (d ∷ ds) = elim (Bool-cases (ltb (i + 2) axes)) [
  | inl e ↦
      let n : axes - (i + 2) ≡ suc (axes - (suc i + 2)) = ground arith in
      rw (e, n, split_loop-take-drop axes (suc i) ds) refl
  | inr e ↦
      let n : axes - (i + 2) ≡ 0 = ground arith in
      let m : axes - (suc i + 2) ≡ 0 = ground arith in
      rw (e, split_loop-take-drop axes (suc i) ds, n, m) refl
]

pub split_broadcast_shape-parts :
    (shape : Shape) → split_broadcast_shape shape ≡ (batch_of shape, matrix_of shape)
split_broadcast_shape-parts shape = split_loop-take-drop (length shape) 0 shape

pub merge_shape-append : (a b : Shape) → merge_shape a b ≡ a ++ b
unfolding merge_shape
merge_shape-append a [] = sym (append-nil a)
merge_shape-append a (d ∷ b) = merge_shape-append (a ++ d ∷ []) b ∙ append_assoc a (d ∷ []) b

-- The rows of the first matrix and the columns of the second.
abbrev pub product_of : Shape → Shape → Shape
product_of a b = take (length a - 1) a ++ drop 1 b

abbrev pub contracts : Shape → Shape → Outcome (Unit {0})
contracts a b = do
  k_size_a ← read_dim a (length a - 1)
  k_size_b ← read_dim b 0
  throw_unless (k_size_a ==ℤ k_size_b)

-- The two readings of the contracted dimension are the same.
contracts-compute :
    (a b : Shape)
    → length a ≤ 2
    → length b ≤ 2
    → compute_shape_for_less_two_dim a b ≡ (contracts a b >> ok (product_of a b))
      ⊎ (contracts a b ≡ aborted) × (compute_shape_for_less_two_dim a b ≡ invalid_argument)
unfolding compute_shape_for_less_two_dim
contracts-compute [] b h k = inr (refl, ground arith)
contracts-compute (x ∷ []) [] h k = inr (refl, refl)
contracts-compute (x ∷ y ∷ []) [] h k = inr (refl, refl)
contracts-compute (x ∷ []) (u ∷ []) h k = inl refl
contracts-compute (x ∷ []) (u ∷ v ∷ []) h k = inl refl
contracts-compute (x ∷ y ∷ []) (u ∷ []) h k = inl refl
contracts-compute (x ∷ y ∷ []) (u ∷ v ∷ []) h k = inl refl
contracts-compute (x ∷ y ∷ z ∷ a) b h k = absurd (omega arith)
contracts-compute (x ∷ a) (u ∷ v ∷ w ∷ b) h k = absurd (omega arith)

matrix_of-length : (shape : Shape) → length (matrix_of shape) ≤ 2
matrix_of-length shape = omega (arith, length-drop (length shape - 2) shape)

-- The shape that is inferred, where the dimensions in front of the matrices broadcast to `batch`.
abbrev pub IsProduct : Shape → Shape → Shape → Type 0
IsProduct a b y =
    (batch : Shape) × (broadcast_output_shape (batch_of a) (batch_of b) ≡ ok batch)
    × IsJoin (batch_of a) (batch_of b) batch
    × (contracts (matrix_of a) (matrix_of b) ≡ ok tt)
    × (y ≡ batch ++ product_of (matrix_of a) (matrix_of b))

pub matmul_shape-IsProduct : (a b : Shape) {y : Shape} → matmul_shape a b ≡ ok y → IsProduct a b y
unfolding matmul_shape
matmul_shape-IsProduct a b {y} h =
    let h' = rw (split_broadcast_shape-parts a, split_broadcast_shape-parts b) at h in
    let (batch, e, h1) = >>=-eq-ok (broadcast_output_shape (batch_of a) (batch_of b)) _ h' in
    let (z, f, h2) = >>=-eq-ok (compute_shape_for_less_two_dim (matrix_of a) (matrix_of b)) _ h1 in
    elim (contracts-compute (matrix_of a) (matrix_of b) (matrix_of-length a) (matrix_of-length b)) [
      | inl same ↦
          let (u, k, q) = >>=-eq-ok (contracts (matrix_of a) (matrix_of b)) _ (sym same ∙ f) in
          (
            batch,
            e,
            broadcast_output_shape-IsJoin (batch_of a) (batch_of b) e,
            k,
            sym (ok-injective h2)
                ∙ merge_shape-append batch z
                ∙ ap (◌++◌ batch) (sym (ok-injective q)),
          )
      | inr (fails, stop) ↦ let bad = sym stop ∙ f in cc
    ]

-- What the check lets pass has a shape.
check_matmul-matmul_shape :
    (a b : Shape) → check_matmul a b ≡ ok tt → (y : Shape) × (matmul_shape a b ≡ ok y)
unfolding check_matmul matmul_shape
check_matmul-matmul_shape a b h =
    let h' = rw (split_broadcast_shape-parts a, split_broadcast_shape-parts b) at h in
    let present = not (is_null_tensor_shape a || is_null_tensor_shape b) in
    let (u, e, h1) = >>=-eq-ok (throw_unless present) _ h' in
    let can = can_broadcast_with (batch_of a) (batch_of b) in
    let (v, f, h2) = >>=-eq-ok (throw_unless can) _ h1 in
    let (batch, run) =
      (can_broadcast_with-broadcast_output_shape (batch_of a) (batch_of b)).0
        (throw_unless-eq-ok can f) in
    elim (contracts-compute (matrix_of a) (matrix_of b) (matrix_of-length a) (matrix_of-length b)) [
      | inl same ↦ (
        merge_shape batch (product_of (matrix_of a) (matrix_of b)),
        rw (split_broadcast_shape-parts a, split_broadcast_shape-parts b, run, same, h2) refl,
      )
      | inr (fails, stop) ↦ let bad = sym fails ∙ h2 in cc
    ]

-- What has a shape, and is no absent input, passes the check.
matmul_shape-check_matmul :
    (a b : Shape) {y : Shape}
    → is_null_tensor_shape a ≡ false
    → is_null_tensor_shape b ≡ false
    → matmul_shape a b ≡ ok y
    → check_matmul a b ≡ ok tt
unfolding check_matmul
matmul_shape-check_matmul a b present_a present_b h =
    let (batch, run, join, k, e) = matmul_shape-IsProduct a b h in
    let (goes, stops) = can_broadcast_with-broadcast_output_shape (batch_of a) (batch_of b) in
    elim (Bool-cases (can_broadcast_with (batch_of a) (batch_of b))) [
      | inl can ↦
          rw
            (
              split_broadcast_shape-parts a,
              split_broadcast_shape-parts b,
              present_a,
              present_b,
              can,
            )
            k
      | inr cannot ↦ let bad = sym (stops cannot) ∙ run in cc
    ]

-- For two inputs that are not absent, the check passes exactly where a shape is inferred. That
-- shape is the broadcast shape of the dimensions in front of the matrices, which is their join,
-- and behind it the rows of the first matrix, if it has any, and the columns of the second, if it
-- has any; the contracted dimensions have the same size.
pub check_matmul-IsProduct :
    (a b : Shape)
    → is_null_tensor_shape a ≡ false
    → is_null_tensor_shape b ≡ false
    → (check_matmul a b ≡ ok tt) ↔ ((y : Shape) × (matmul_shape a b ≡ ok y) × IsProduct a b y)
check_matmul-IsProduct a b present_a present_b = (
  λ h. let (y, run) = check_matmul-matmul_shape a b h in (y, run, matmul_shape-IsProduct a b run),
  λ found. let (y, run, product) = found in matmul_shape-check_matmul a b present_a present_b run,
)
