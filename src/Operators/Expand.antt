-- ===== src/Operators/Expand.antt =====
-- `ExpandOp`: dtorch/core/operators/standard/expand_op.cc.
use dtorch.Base.{
  ℕ, zero, suc, ◌+◌, ◌-◌, ◌≡◌, refl, sym, ap, ◌∙◌, subst, ◌≢◌, inl, inr, Option, none, some, List,
  [], ◌∷◌, reverse, arith, leb, if◌then◌else◌, Bool-cases, length, get_elem?, drop, length-append,
  Outcome, ok, ◌>>=◌, ◌>>◌, assert_that, throw_unless, of_option, >>=-eq-ok, ok-injective,
  true≢false,
}
use dtorch.Base.Int.{ℤ, negsuc, ◌==ℤ◌, ==ℤ_iff}
use dtorch.Shape.{Shape, can_broadcast_with, broadcast_output_shape}
use mathlib.Core.List.{reverse-reverse, reverse-cons}
use dtorch.Shape.Broadcast.Sizes.{HasSizes, broadcast_output_shape-HasSizes}
use dtorch.Signature.{PlacementSignature}
use dtorch.Operators.{unary_signature}

-- The loop from the last dimension to the first, over both shapes reversed: a -1 stands for the
-- input's dimension.
unfoldable pub fill_loop : Shape → Shape → Outcome Shape
fill_loop input [] = ok []
fill_loop input (d ∷ ds) = do
  here ← if d ==ℤ negsuc 0 then of_option (get_elem? input 0) else ok d
  rest ← fill_loop (drop 1 input) ds
  ok (here ∷ rest)

unfoldable pub fill_shape : Shape → Shape → Outcome Shape
fill_shape input other = do filled ← fill_loop (reverse input) (reverse other); ok (reverse filled)

-- `InferOutputMetaInfo`
unfoldable pub expand_shape : Shape → Shape → Outcome Shape
expand_shape input other = do
  filled ← fill_shape input other
  throw_unless (can_broadcast_with input filled)
  broadcast_output_shape input filled

-- `GetPlacementSignature`, of the shapes of the input and the output.
unfoldable pub expand_pairs : ℕ → ℕ → Shape → List (ℕ × ℕ)
expand_pairs shift i [] = []
expand_pairs shift i (d ∷ ds) = (i, shift + i) ∷ expand_pairs shift (suc i) ds

unfoldable pub expand_signature : Shape → Shape → Outcome PlacementSignature
expand_signature input output = do
  assert_that (leb (length input) (length output))
  unary_signature (expand_pairs (length output - length input) 0 input)

-- What fills the placeholders, dimensions being counted from the end: a -1 is the input's
-- dimension that lies there, which exists, and any other size is as it was asked for.
pub record IsFilled (input other filled : Shape) : Type 0 where
  pub axes : length filled ≡ length other
  pub taken :
      (i : ℕ)
      → get_elem? (reverse other) i ≡ some (negsuc 0)
      → (d : ℤ) × (get_elem? (reverse input) i ≡ some d) × (get_elem? (reverse filled) i ≡ some d)
  pub kept :
      (i : ℕ) (d : ℤ)
      → d ≢ negsuc 0
      → get_elem? (reverse other) i ≡ some d
      → get_elem? (reverse filled) i ≡ some d

-- What stands for a dimension that was asked for.
abbrev Stands : Option ℤ → ℤ → Option ℤ → Type 0
Stands input d found =
    (d ≡ negsuc 0 → (x : ℤ) × (input ≡ some x) × (found ≡ some x)) × (d ≢ negsuc 0 → found ≡ some d)

here-Stands :
    (input : Option ℤ) (d : ℤ) {y : ℤ}
    → (if d ==ℤ negsuc 0 then of_option input else ok d) ≡ ok y
    → Stands input d (some y)
here-Stands input d {y} h = elim (Bool-cases (d ==ℤ negsuc 0)) [
  | inl e ↦
      let is : d ≡ negsuc 0 = (==ℤ_iff d (negsuc 0)).0 e in
      let read : of_option input ≡ ok y = rw e at h in
      (λ p. (y, of_option-some input read, refl), λ away. absurd (away is))
  | inr e ↦
      let kept : ok d ≡ ok y = rw e at h in
      (
        λ p. let yes = (==ℤ_iff d (negsuc 0)).1 p in absurd (true≢false yes e),
        λ away. ap some (sym (ok-injective kept)),
      )
]
  where
    of_option-some : (o : Option ℤ) → of_option o ≡ ok y → o ≡ some y
    of_option-some none r = cc
    of_option-some (some z) r = ap some (ok-injective r)

get_elem?-drop_one : (xs : Shape) (i : ℕ) → get_elem? (drop 1 xs) i ≡ get_elem? xs (suc i)
get_elem?-drop_one [] i = refl
get_elem?-drop_one (x ∷ xs) i = refl

fill_loop-Stands :
    (input other : Shape) {filled : Shape}
    → fill_loop input other ≡ ok filled
    → (length filled ≡ length other)
      × ((i : ℕ) (d : ℤ)
          → get_elem? other i ≡ some d
          → Stands (get_elem? input i) d (get_elem? filled i))
unfolding fill_loop
fill_loop-Stands input [] h = (ap length (sym (ok-injective h)), λ i d e. cc)
fill_loop-Stands input (x ∷ xs) {filled} h =
    let (y, a, h1) =
      >>=-eq-ok (if x ==ℤ negsuc 0 then of_option (get_elem? input 0) else ok x) _ h in
    let (rest, b, h2) = >>=-eq-ok (fill_loop (drop 1 input) xs) _ h1 in
    let (size, later) = fill_loop-Stands (drop 1 input) xs b in
    let whole : y ∷ rest ≡ filled = ok-injective h2 in
    subst
      (λ z.
        (length z ≡ suc (length xs))
        × ((i : ℕ) (d : ℤ)
            → get_elem? (x ∷ xs) i ≡ some d
            → Stands (get_elem? input i) d (get_elem? z i)))
      whole (ap suc size, at_index y rest (here-Stands (get_elem? input 0) x a) later)
  where
    at_index :
        (y : ℤ) (rest : Shape)
        → Stands (get_elem? input 0) x (some y)
        → ((i : ℕ) (d : ℤ)
            → get_elem? xs i ≡ some d
            → Stands (get_elem? (drop 1 input) i) d (get_elem? rest i))
        → (i : ℕ) (d : ℤ) → get_elem? (x ∷ xs) i ≡ some d
        → Stands (get_elem? input i) d (get_elem? (y ∷ rest) i)
    at_index y rest first later zero d e =
        let same : x ≡ d = cc in subst (λ z. Stands (get_elem? input 0) z (some y)) same first
    at_index y rest first later (suc i) d e =
        subst (λ z. Stands z d (get_elem? rest i)) (get_elem?-drop_one input i) (later i d e)

length-reverse : (s : Shape) → length (reverse s) ≡ length s
length-reverse [] = refl
length-reverse (x ∷ s) =
    ap length (reverse-cons x s)
    ∙ length-append (reverse s) (x ∷ [])
    ∙ omega (arith, length-reverse s)

fill_shape-IsFilled :
    (input other : Shape) {filled : Shape}
    → fill_shape input other ≡ ok filled
    → IsFilled input other filled
unfolding fill_shape
fill_shape-IsFilled input other {filled} h =
    let (r, a, k) = >>=-eq-ok (fill_loop (reverse input) (reverse other)) _ h in
    let (size, stands) = fill_loop-Stands (reverse input) (reverse other) a in
    let back : reverse filled ≡ r = ap reverse (sym (ok-injective k)) ∙ reverse-reverse r in
    record {
      axes = sym (length-reverse filled) ∙ ap length back ∙ size ∙ length-reverse other;
      taken = λ i e.
          let (x, from, to) = (stands i (negsuc 0) e).0 refl in
          (x, from, ap (λ z. get_elem? z i) back ∙ to);
      kept = λ i d away e. ap (λ z. get_elem? z i) back ∙ (stands i d e).1 away;
    }

-- Where a tensor is expanded, the shape that was asked for is filled in: dimensions being counted
-- from the end, a -1 is the input's dimension that lies there, which exists, and any other size
-- is kept. The output has the sizes of the broadcast of the input with that shape.
pub expand_shape-IsFilled :
    (input other : Shape) {out : Shape}
    → expand_shape input other ≡ ok out
    → (filled : Shape) × IsFilled input other filled × HasSizes input filled out
unfolding expand_shape
expand_shape-IsFilled input other {out} h =
    let (filled, a, h1) = >>=-eq-ok (fill_shape input other) _ h in
    let (u, b, h2) = >>=-eq-ok (throw_unless (can_broadcast_with input filled)) _ h1 in
    (filled, fill_shape-IsFilled input other a, broadcast_output_shape-HasSizes input filled h2)
