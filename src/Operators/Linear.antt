-- ===== src/Operators/Linear.antt =====
-- `LinearOp`, its shape: dtorch/core/operators/standard/linear_op.cc. The signature is not
-- modelled.
use dtorch.Base.{
  ℕ, ◌+◌, ◌-◌, ◌<◌, ◌≡◌, sym, ap, ◌∙◌, Bool, false, not, some, arith, ◌==◌, if◌then◌else◌, length,
  get_elem?, set, length-set, get_elem?-set_ne, get_elem?-set_self, Outcome, ok, ◌>>=◌, ◌>>◌,
  assert_that, throw_unless, >>=-eq-ok, ok-injective,
}
use dtorch.Base.Int.{ℤ, pos, negsuc, ◌+ℤ◌, ◌==ℤ◌}
use dtorch.Shape.{Shape, at, wrap_index, is_null_tensor_shape}
use dtorch.Operators.Rows.{read_dim-eq-ok}
use dtorch.Operators.Concat.{Joins}

-- The test of a bias that is given: `NumAxis() != 1 && inputCShape[0] != outFeatures`.
abbrev pub refused_bias : Shape → ℤ → Outcome Bool
refused_bias bias out_features =
    if length bias == 1 then ok false else at bias (pos 0) >>= λ d. ok (not (d ==ℤ out_features))

-- `InferOutputMetaInfo`, the shape of the output.
unfoldable pub linear_shape : Shape → Shape → Shape → Outcome Shape
linear_shape input weight bias = do
  throw_unless (length weight == 2)
  in_features ← at input (negsuc 0)
  out_features ← at weight (pos 0)
  columns ← at weight (pos 1)
  assert_that (in_features ==ℤ columns)
  i ← wrap_index (length input) (negsuc 0)
  let output = set input i out_features
  refused ← if is_null_tensor_shape bias then ok false else refused_bias bias out_features
  throw_unless (not refused)
  ok output

wrap_index-last : (n : ℕ) {i : ℕ} → wrap_index n (negsuc 0) ≡ ok i → i + 1 ≡ n
unfolding wrap_index ◌+ℤ◌
wrap_index-last n h = ground arith

at-last :
    (s : Shape) {d : ℤ}
    → at s (negsuc 0) ≡ ok d
    → (get_elem? s (length s - 1) ≡ some d) × (length s - 1 < length s)
unfolding at
at-last s {d} h =
    let (i, a, k) = >>=-eq-ok (wrap_index (length s) (negsuc 0)) _ h in
    let (here, inside) = read_dim-eq-ok s i k in
    let e : length s - 1 ≡ i = omega (arith, wrap_index-last (length s) a) in
    (ap (get_elem? s) e ∙ here, omega arith)

-- Where a shape is inferred, the output differs from the input only in its last dimension, which
-- has the number of features that come out.
linear_shape-Joins :
    (input weight bias : Shape) {y : Shape}
    → linear_shape input weight bias ≡ ok y
    → Joins input (length input - 1) y
      × ((d : ℤ) × (at weight (pos 0) ≡ ok d) × (get_elem? y (length input - 1) ≡ some d))
unfolding linear_shape
linear_shape-Joins input weight bias {y} h =
    let (u, a, h1) = >>=-eq-ok (throw_unless (length weight == 2)) _ h in
    let (k, b, h2) = >>=-eq-ok (at input (negsuc 0)) _ h1 in
    let (out, c, h3) = >>=-eq-ok (at weight (pos 0)) _ h2 in
    let (l, d, h4) = >>=-eq-ok (at weight (pos 1)) _ h3 in
    let (v, e, h5) = >>=-eq-ok (assert_that (k ==ℤ l)) _ h4 in
    let (i, f, h6) = >>=-eq-ok (wrap_index (length input) (negsuc 0)) _ h5 in
    let refused = if is_null_tensor_shape bias then ok false else refused_bias bias out in
    let (r, g, h7) = >>=-eq-ok refused _ h6 in
    let (w, p, h8) = >>=-eq-ok (throw_unless (not r)) _ h7 in
    let (here, inside) = at-last input b in
    let index : i ≡ length input - 1 = omega (arith, wrap_index-last (length input) f) in
    let written : set input (length input - 1) out ≡ y =
      ap (λ z. set input z out) (sym index) ∙ ok-injective h8 in
    let last : get_elem? y (length input - 1) ≡ some out =
      ap (λ z. get_elem? z (length input - 1)) (sym written)
      ∙ get_elem?-set_self input (length input - 1) out inside in
    (
      record {
        size = out;
        here = last;
        axes = ap length (sym written) ∙ length-set input (length input - 1) out;
        others = λ j away.
            ap (λ z. get_elem? z j) (sym written)
            ∙ get_elem?-set_ne input (length input - 1) j out (λ q. away (sym q));
      },
      (out, c, last),
    )
