-- ===== src/Operators/Squeeze.antt =====
-- `SqueezeOp`: dtorch/core/operators/standard/squeeze_op.cc. `mIODimMap` is the list of its
-- entries, in the order of the input's dimensions.
use dtorch.Base.{
  ℕ, suc, ◌≤◌, ◌≡◌, refl, sym, ap, ◌∙◌, subst, inl, inr, Bool, true, false, not, ◌||◌, List, [],
  ◌∷◌, ◌++◌, arith, ◌==◌, if◌then◌else◌, Bool-cases, length, All, length-append, Outcome, ok, ◌>>=◌,
  >>=-eq-ok, ok-injective,
}
use dtorch.Base.Int.{ℤ, pos, negsuc, ◌*ℤ◌, ◌==ℤ◌, ==ℤ_iff}
use mathlib.Core.List.{append_assoc}
use dtorch.Shape.{Shape, contains, prod_loop}
use dtorch.Signature.{PlacementSignature}
use dtorch.Operators.{get_valid_dim, unary_signature}
use dtorch.Operators.Rows.{
  get_elem?-middle, SameSize, SoundSignature, unary_signature-SoundSignature,
}

-- `dimSet`
unfoldable pub valid_dims : Shape → List ℤ → Outcome (List ℕ)
valid_dims shape [] = ok []
valid_dims shape (dim ∷ dims) = do
  v ← get_valid_dim shape dim
  rest ← valid_dims shape dims
  ok (v ∷ rest)

-- Whether the dimension `i` of size `d` stays.
unfoldable pub stays : List ℕ → ℕ → ℤ → Bool
stays dim_set i d = if length dim_set == 0 || contains i dim_set then not (d ==ℤ pos 1) else true

-- The loop: the output's dimensions, and `mIODimMap`.
unfoldable pub squeeze_loop : List ℕ → ℕ → ℕ → Shape → Shape × List (ℕ × ℕ)
squeeze_loop dim_set i n [] = ([], [])
squeeze_loop dim_set i n (d ∷ ds) =
    let kept = squeeze_loop dim_set (suc i) (suc n) ds in
    let skipped = squeeze_loop dim_set (suc i) n ds in
    if stays dim_set i d then (d ∷ kept.0, (i, n) ∷ kept.1) else skipped

-- `InferOutputMetaInfo`: the output's shape and `mIODimMap`.
unfoldable pub squeeze_shape : Shape → List ℤ → Outcome (Shape × List (ℕ × ℕ))
squeeze_shape shape dims = do dim_set ← valid_dims shape dims; ok (squeeze_loop dim_set 0 0 shape)

-- `GetPlacementSignature`
unfoldable pub squeeze_signature : List (ℕ × ℕ) → Outcome PlacementSignature
squeeze_signature io_dim_map = unary_signature io_dim_map

-- The two sides of the loop: what was read and what was written.
squeeze_loop-SameSize :
    (dim_set : List ℕ) (before written ds : Shape)
    → (let r = squeeze_loop dim_set (length before) (length written) ds in
        All (SameSize (before ++ ds) (written ++ r.0)) r.1)
unfolding squeeze_loop
squeeze_loop-SameSize dim_set before written [] = tt
squeeze_loop-SameSize dim_set before written (d ∷ ds) =
    let next : length (before ++ d ∷ []) ≡ suc (length before) =
      length-append before (d ∷ []) ∙ omega arith in
    let next' : length (written ++ d ∷ []) ≡ suc (length written) =
      length-append written (d ∷ []) ∙ omega arith in
    let kept = squeeze_loop-SameSize dim_set (before ++ d ∷ []) (written ++ d ∷ []) ds in
    let skipped = squeeze_loop-SameSize dim_set (before ++ d ∷ []) written ds in
    elim (Bool-cases (stays dim_set (length before) d)) [
      | inl e ↦ rw e (
        (d, get_elem?-middle before ds d, get_elem?-middle written _ d),
        rw (append_assoc before (d ∷ []) ds, append_assoc written (d ∷ []) _, next, next') at kept,
      )
      | inr e ↦ rw e (rw (append_assoc before (d ∷ []) ds, next) at skipped)
    ]

-- Squeezing a tensor of at most 16 dimensions: the signature is built without an error from the
-- map of dimensions that the inference of the shape leaves, and each of its rows is sound.
pub squeeze_signature-SoundSignature :
    (shape : Shape) (dims : List ℤ) {out : Shape} {io_dim_map : List (ℕ × ℕ)}
    → length shape ≤ 16
    → squeeze_shape shape dims ≡ ok (out, io_dim_map)
    → SoundSignature shape out (squeeze_signature io_dim_map)
unfolding squeeze_shape squeeze_signature
squeeze_signature-SoundSignature shape dims {out} {io_dim_map} few h =
    let (dim_set, a, h1) = >>=-eq-ok (valid_dims shape dims) _ h in
    let e : squeeze_loop dim_set 0 0 shape ≡ (out, io_dim_map) = ok-injective h1 in
    subst (λ z. SoundSignature shape z.0 (unary_signature z.1)) e
      (unary_signature-SoundSignature shape (squeeze_loop dim_set 0 0 shape).0
        (squeeze_loop dim_set 0 0 shape).1 few (squeeze_loop-SameSize dim_set [] [] shape))

mul_ℤ-one : (a : ℤ) → a *ℤ pos 1 ≡ a
unfolding ◌*ℤ◌
mul_ℤ-one (pos n) = ground arith
mul_ℤ-one (negsuc n) = ground arith

stays-false : (dim_set : List ℕ) (i : ℕ) (d : ℤ) → stays dim_set i d ≡ false → d ≡ pos 1
unfolding stays
stays-false dim_set i d h = (==ℤ_iff d (pos 1)).0 (ground arith)

prod_loop-squeeze_loop :
    (dim_set : List ℕ) (i n : ℕ) (acc : ℤ) (ds : Shape)
    → prod_loop acc (squeeze_loop dim_set i n ds).0 ≡ prod_loop acc ds
unfolding prod_loop squeeze_loop
prod_loop-squeeze_loop dim_set i n acc [] = refl
prod_loop-squeeze_loop dim_set i n acc (d ∷ ds) = elim (Bool-cases (stays dim_set i d)) [
  | inl e ↦ rw e (prod_loop-squeeze_loop dim_set (suc i) (suc n) (acc *ℤ d) ds)
  | inr e ↦
      let one : acc ≡ acc *ℤ d =
        sym (mul_ℤ-one acc) ∙ ap (λ z. acc *ℤ z) (sym (stays-false dim_set i d e)) in
      rw e (prod_loop-squeeze_loop dim_set (suc i) n acc ds ∙ ap (λ z. prod_loop z ds) one)
]

-- Squeezing keeps the number of elements: only dimensions of size one are dropped.
pub squeeze_shape-prod_loop :
    (shape : Shape) (dims : List ℤ) {out : Shape} {io_dim_map : List (ℕ × ℕ)}
    → squeeze_shape shape dims ≡ ok (out, io_dim_map)
    → prod_loop (pos 1) out ≡ prod_loop (pos 1) shape
unfolding squeeze_shape
squeeze_shape-prod_loop shape dims {out} {io_dim_map} h =
    let (dim_set, a, h1) = >>=-eq-ok (valid_dims shape dims) _ h in
    let e : squeeze_loop dim_set 0 0 shape ≡ (out, io_dim_map) = ok-injective h1 in
    ap (λ z. prod_loop (pos 1) z.0) (sym e) ∙ prod_loop-squeeze_loop dim_set 0 0 (pos 1) shape
