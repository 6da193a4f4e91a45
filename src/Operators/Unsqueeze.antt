-- ===== src/Operators/Unsqueeze.antt =====
-- `UnsqueezeOp`: dtorch/core/operators/standard/unsqueeze_op.cc. The inference of the shape counts
-- a negative dimension from the end of the output, the signature from the end of the input.
use dtorch.Base.{
  get_elem?-lt, ℕ, zero, suc, ◌+◌, ◌-◌, ◌≤◌, ◌<◌, ◌≡◌, refl, sym, ap, ◌∙◌, subst, inl, inr, true,
  false, List, [], ◌∷◌, ◌++◌, arith, ltb, ◌==◌, if◌then◌else◌, Bool-cases, length, get_elem?, take,
  drop, replicate, All, length-replicate, Outcome, ok, ◌>>=◌, of_option,
}
use dtorch.Base.Int.{ℤ, pos, negsuc}
use dtorch.Shape.{Shape}
use dtorch.Signature.{PlacementSignature}
use dtorch.Operators.{get_valid_dim, unary_signature}
use dtorch.Operators.ValidDim.{get_valid_dim-front, get_valid_dim-back}
use dtorch.Operators.Rows.{SameSize, SoundSignature, unary_signature-SoundSignature}

-- The loop from the dimension `i` of the output on, with the number of rounds left; `rest` is the
-- input from `readIndex` on.
unfoldable pub unsqueeze_loop : ℕ → ℕ → ℕ → Shape → Outcome Shape
unsqueeze_loop dim i zero rest = ok []
unsqueeze_loop dim i (suc k) rest =
    let place = unsqueeze_loop dim (suc i) k rest >>= λ out. ok (pos 1 ∷ out) in
    let later = unsqueeze_loop dim (suc i) k (drop 1 rest) in
    let copy = of_option (get_elem? rest 0) >>= λ d. later >>= λ out. ok (d ∷ out) in
    if i == dim then place else copy

-- `InferOutputMetaInfo`
unfoldable pub unsqueeze_shape : Shape → ℤ → Outcome Shape
unsqueeze_shape shape dim = do
  let axes = length shape + 1
  v ← get_valid_dim (replicate axes (pos 1)) dim
  unsqueeze_loop v 0 axes shape

-- The loop of `GetPlacementSignature`, from the dimension `i` on, and the function.
unfoldable pub unsqueeze_pairs : ℕ → ℕ → Shape → List (ℕ × ℕ)
unsqueeze_pairs dim i [] = []
unsqueeze_pairs dim i (d ∷ ds) =
    (i, if ltb i dim then i else i + 1) ∷ unsqueeze_pairs dim (suc i) ds

unfoldable pub unsqueeze_signature : Shape → ℤ → Outcome PlacementSignature
unsqueeze_signature shape dim = do
  v ← get_valid_dim shape dim
  unary_signature (unsqueeze_pairs v 0 shape)

-- The shape with a dimension of size one in front of the dimension `dim`.
abbrev pub inserted : Shape → ℕ → Shape
inserted shape dim = take dim shape ++ pos 1 ∷ drop dim shape

unsqueeze_loop-behind :
    (dim i : ℕ) (rest : Shape) → dim < i → unsqueeze_loop dim i (length rest) rest ≡ ok rest
unfolding unsqueeze_loop
unsqueeze_loop-behind dim i [] h = refl
unsqueeze_loop-behind dim i (d ∷ rest) h =
    let no : (i == dim) ≡ false = ground arith in
    rw (no, unsqueeze_loop-behind dim (suc i) rest (omega arith)) refl

unsqueeze_loop-inserted :
    (i k : ℕ) (rest : Shape)
    → k ≤ length rest
    → unsqueeze_loop (i + k) i (suc (length rest)) rest ≡ ok (inserted rest k)
unfolding unsqueeze_loop
unsqueeze_loop-inserted i zero rest h =
    let yes : (i == i + 0) ≡ true = ground arith in
    rw (yes, unsqueeze_loop-behind (i + 0) (suc i) rest (omega arith)) refl
unsqueeze_loop-inserted i (suc k) [] h = absurd (omega arith)
unsqueeze_loop-inserted i (suc k) (d ∷ rest) h =
    let no : (i == i + suc k) ≡ false = ground arith in
    let next : suc i + k ≡ i + suc k = omega arith in
    let later : unsqueeze_loop (i + suc k) (suc i) (suc (length rest)) rest ≡ ok (inserted rest k) =
      subst (λ z. unsqueeze_loop z (suc i) (suc (length rest)) rest ≡ ok (inserted rest k)) next
        (unsqueeze_loop-inserted (suc i) k rest (omega arith)) in
    rw no (ap (λ z. z >>= λ out. ok (d ∷ out)) later)

-- A dimension of size one is put in front of the dimension `dim`, which may be the number of
-- dimensions; counted from the end, -1 puts it behind the last one.
pub unsqueeze_shape-inserted :
    (shape : Shape) (dim : ℕ)
    → dim ≤ length shape
    → (unsqueeze_shape shape (pos dim) ≡ ok (inserted shape dim))
      × (unsqueeze_shape shape (negsuc dim) ≡ ok (inserted shape (length shape - dim)))
unfolding unsqueeze_shape
unsqueeze_shape-inserted shape dim h =
    let ones = replicate (length shape + 1) (pos 1) in
    let size : length ones ≡ length shape + 1 = length-replicate (length shape + 1) (pos 1) in
    (
      rw (get_valid_dim-front ones dim (omega arith)) (run dim h),
      rw (get_valid_dim-back ones dim (omega arith)) (
          ap (λ z. unsqueeze_loop z 0 (length shape + 1) shape) (omega arith)
          ∙ run (length shape - dim) (omega arith)),
    )
  where
    run :
        (k : ℕ)
        → k ≤ length shape
        → unsqueeze_loop k 0 (length shape + 1) shape ≡ ok (inserted shape k)
    run k h =
        let axes : suc (length shape) ≡ length shape + 1 = omega arith in
        let start : 0 + k ≡ k = omega arith in
        ap (λ z. unsqueeze_loop z 0 (length shape + 1) shape) (sym start)
        ∙ ap (λ z. unsqueeze_loop (0 + k) 0 z shape) (sym axes)
        ∙ unsqueeze_loop-inserted 0 k shape h

inserted-get_elem? :
    (shape : Shape) (dim i : ℕ)
    → dim ≤ length shape
    → get_elem? (inserted shape dim) (if ltb i dim then i else i + 1) ≡ get_elem? shape i
inserted-get_elem? shape zero i h =
    let no : ltb i 0 ≡ false = ground arith in
    let next : i + 1 ≡ suc i = omega arith in rw no (ap (get_elem? (pos 1 ∷ shape)) next)
inserted-get_elem? [] (suc dim) i h = absurd (omega arith)
inserted-get_elem? (d ∷ shape) (suc dim) zero h =
    let yes : ltb 0 (suc dim) ≡ true = ground arith in rw yes refl
inserted-get_elem? (d ∷ shape) (suc dim) (suc i) h =
    let rest = inserted-get_elem? shape dim i (omega arith) in
    elim (Bool-cases (ltb i dim)) [
      | inl e ↦ let up : ltb (suc i) (suc dim) ≡ true = ground arith in rw up (rw e at rest)
      | inr e ↦
          let up : ltb (suc i) (suc dim) ≡ false = ground arith in
          let next : suc i + 1 ≡ suc (i + 1) = omega arith in
          rw up (ap (get_elem? (inserted (d ∷ shape) (suc dim))) next ∙ rw e at rest)
    ]

unsqueeze_pairs-SameSize :
    (shape ds : Shape) (dim i : ℕ)
    → dim ≤ length shape
    → i + length ds ≡ length shape
    → All (SameSize shape (inserted shape dim)) (unsqueeze_pairs dim i ds)
unfolding unsqueeze_pairs
unsqueeze_pairs-SameSize shape [] dim i h e = tt
unsqueeze_pairs-SameSize shape (d ∷ ds) dim i h e =
    let (v, here) = get_elem?-lt shape i (omega arith) in
    (
      (v, here, inserted-get_elem? shape dim i h ∙ here),
      unsqueeze_pairs-SameSize shape ds dim (suc i) h (omega arith),
    )

-- At a dimension that is not negative, of a tensor of at most 16 dimensions, the signature is
-- built without an error and each of its rows is sound for the shape that is inferred.
pub unsqueeze_signature-SoundSignature :
    (shape : Shape) (dim : ℕ)
    → length shape ≤ 16
    → dim ≤ length shape
    → (out : Shape) × (unsqueeze_shape shape (pos dim) ≡ ok out)
      × SoundSignature shape out (unsqueeze_signature shape (pos dim))
unfolding unsqueeze_signature
unsqueeze_signature-SoundSignature shape dim few h = (
  inserted shape dim,
  (unsqueeze_shape-inserted shape dim h).0,
  rw (get_valid_dim-front shape dim h) (
      unary_signature-SoundSignature shape (inserted shape dim) (unsqueeze_pairs dim 0 shape) few
        (unsqueeze_pairs-SameSize shape shape dim 0 h (omega arith))),
)
