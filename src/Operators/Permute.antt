-- ===== src/Operators/Permute.antt =====
-- `PermuteOp`: dtorch/core/operators/standard/permute_op.cc. Every dimension of the output is
-- written, in order, so that the output is the list of what is written.
use dtorch.Base.{
  ℕ, suc, ◌≤◌, ◌<◌, ◌≡◌, refl, ap, ◌∙◌, subst, not, List, [], ◌∷◌, ◌++◌, arith, ltb, ◌==◌, lt→ltb,
  length, All, length-append, Outcome, ok, ◌>>=◌, ◌>>◌, assert_that, throw_unless, >>=-eq-ok,
  throw_unless-eq-ok, ok-injective,
}
use dtorch.Base.Int.{ℤ}
use mathlib.Core.List.{append_assoc}
use dtorch.Shape.{Shape, contains}
use dtorch.Signature.{PlacementSignature}
use dtorch.Operators.{get_valid_dim, read_dim, unary_signature}
use dtorch.Operators.Rows.{
  read_dim-eq-ok, get_elem?-middle, SameSize, SoundSignature, unary_signature-SoundSignature,
}

unfoldable pub permute_loop : Shape → List ℕ → List ℤ → Outcome Shape
permute_loop shape seen [] = ok []
permute_loop shape seen (dim ∷ dims) = do
  v ← get_valid_dim shape dim
  throw_unless (not (contains v seen))
  d ← read_dim shape v
  rest ← permute_loop shape (v ∷ seen) dims
  ok (d ∷ rest)

-- `InferOutputMetaInfo`
unfoldable pub permute_shape : Shape → List ℤ → Outcome Shape
permute_shape shape dims = do throw_unless (length dims == length shape); permute_loop shape [] dims

-- The loop of `GetPlacementSignature`, and the function.
unfoldable pub permute_pairs : Shape → ℕ → List ℤ → Outcome (List (ℕ × ℕ))
permute_pairs shape i [] = ok []
permute_pairs shape i (dim ∷ dims) = do
  v ← get_valid_dim shape dim
  assert_that (ltb v (length shape))
  rest ← permute_pairs shape (suc i) dims
  ok ((v, i) ∷ rest)

unfoldable pub permute_signature : Shape → List ℤ → Outcome PlacementSignature
permute_signature shape dims = do
  assert_that (length dims == length shape)
  pairs ← permute_pairs shape 0 dims
  unary_signature pairs

permute_pairs-cons :
    (shape : Shape) (dim : ℤ) (dims : List ℤ) (v i : ℕ) (pairs : List (ℕ × ℕ))
    → get_valid_dim shape dim ≡ ok v
    → v < length shape
    → permute_pairs shape (suc i) dims ≡ ok pairs
    → permute_pairs shape i (dim ∷ dims) ≡ ok ((v, i) ∷ pairs)
unfolding permute_pairs
permute_pairs-cons shape dim dims v i pairs a inside run =
    rw (a, lt→ltb v (length shape) inside, run) refl

permute_loop-SameSize :
    (shape before : Shape) (seen : List ℕ) (dims : List ℤ) {out : Shape}
    → permute_loop shape seen dims ≡ ok out
    → (pairs : List (ℕ × ℕ)) × (permute_pairs shape (length before) dims ≡ ok pairs)
      × All (SameSize shape (before ++ out)) pairs
unfolding permute_loop
permute_loop-SameSize shape before seen [] h = ([], unfold permute_pairs in refl, tt)
permute_loop-SameSize shape before seen (dim ∷ dims) {out} h =
    let (v, a, h1) = >>=-eq-ok (get_valid_dim shape dim) _ h in
    let (u, b, h2) = >>=-eq-ok (throw_unless (not (contains v seen))) _ h1 in
    let (d, c, h3) = >>=-eq-ok (read_dim shape v) _ h2 in
    let (rest, g, h4) = >>=-eq-ok (permute_loop shape (v ∷ seen) dims) _ h3 in
    let (here, inside) = read_dim-eq-ok shape v c in
    let (pairs, run, same) = permute_loop-SameSize shape (before ++ d ∷ []) (v ∷ seen) dims g in
    let next : length (before ++ d ∷ []) ≡ suc (length before) =
      length-append before (d ∷ []) ∙ omega arith in
    let run' : permute_pairs shape (suc (length before)) dims ≡ ok pairs =
      subst (λ z. permute_pairs shape z dims ≡ ok pairs) next run in
    (
      (v, length before) ∷ pairs,
      permute_pairs-cons shape dim dims v (length before) pairs a inside run',
      subst (λ z. All (SameSize shape z) ((v, length before) ∷ pairs))
          (ap (λ z. before ++ z) (ok-injective h4))
          (
            (d, here, get_elem?-middle before rest d),
            subst (λ z. All (SameSize shape z) pairs) (append_assoc before (d ∷ []) rest) same,
          ),
    )

-- Where a permutation of a tensor of at most 16 dimensions infers a shape, its signature is
-- built without an error, and each of its rows is sound: a sharded dimension of the input becomes
-- one of the output of the same size, and partial and replicated tensors stay so.
pub permute_signature-SoundSignature :
    (shape : Shape) (dims : List ℤ) {out : Shape}
    → length shape ≤ 16
    → permute_shape shape dims ≡ ok out
    → SoundSignature shape out (permute_signature shape dims)
unfolding permute_shape permute_signature
permute_signature-SoundSignature shape dims few h =
    let (u, a, h1) = >>=-eq-ok (throw_unless (length dims == length shape)) _ h in
    let size = throw_unless-eq-ok (length dims == length shape) a in
    let (pairs, run, same) = permute_loop-SameSize shape [] [] dims h1 in
    let (s, built, sound) = unary_signature-SoundSignature shape _ pairs few same in
    (s, rw (size, run) built, sound)
