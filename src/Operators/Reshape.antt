-- ===== src/Operators/Reshape.antt =====
-- `ReshapeOp`: dtorch/core/operators/standard/reshape_op.cc, with the signature that `ViewOp` of
-- view_op.cc builds from the same two loops.
pub mod Granted
pub mod Whole
use dtorch.Base.{
  ℕ, zero, suc, ◌+◌, ◌-◌, ◌*◌, ◌/◌, ◌%◌, ◌^◌, ◌≤◌, ◌<◌, min, max, ◌≡◌, refl, sym, ap, ◌∙◌, subst,
  fun_ext, ◌≢◌, ◌↔◌, ◌⊎◌, inl, inr, Bool, true, false, not, ◌&&◌, ◌||◌, Option, none, some, List,
  [], ◌∷◌, ◌++◌, map, reverse, arith, ltb, leb, ◌==◌, if◌then◌else◌, ==_refl, ==_iff, ltb→lt,
  lt→ltb, leb→le, Bool-cases, Option-cases, and-eq-true, length, get_elem?, set, take, drop,
  replicate, All, sum, product, length-append, length-set, length-drop, length-take,
  length-replicate, length-map, get_elem?-set_ne, get_elem?-set_self, Outcome, ok, invalid_argument,
  aborted, ◌>>=◌, ◌>>◌, assert_that, throw_unless, of_option, >>=-eq-ok, assert_that-eq-ok,
  throw_unless-eq-ok, ok-injective,
}
use dtorch.Base.Int.{
  ℤ, pos, negsuc, pos_part, neg_part, sub_ℕ, ◌+ℤ◌, ◌-ℤ◌, ◌*ℤ◌, ◌≤ℤ◌, lt_ℤ, le_ℤ, ◌==ℤ◌, max_ℤ,
  to_size, ==ℤ_iff, ==ℤ_refl, max_ℤ_comm, pos-mul,
}
use dtorch.Shape.{Shape, count}
use dtorch.Stride.{wrap}
use dtorch.Signature.{PlacementSignature}
use dtorch.Operators.{to_signed, unary_signature}

-- What the loop of `CalculateOutputShape` carries: the position of the -1 and the product of the
-- other dimensions, in a `size_t`.
pub record Progress : Type 0 where
  pub shape : Shape
  pub minus_one : Option ℕ
  pub sum : ℕ

abbrev pub prepend : ℤ → Option Progress → Option Progress
prepend d none = none
prepend d (some p) = some (record p { shape = d ∷ p.shape })

abbrev pub or_none : Option ℤ → (ℤ → Option Progress) → Option Progress
or_none none f = none
or_none (some x) f = f x

abbrev pub is_some : Option ℕ → Bool
is_some none = false
is_some (some i) = true

-- The loop, from the dimension `i` on; `none` where it returns `false`.
unfoldable pub reshape_loop : Shape → ℕ → Shape → Option ℕ → ℕ → Option Progress
reshape_loop input i [] minus acc = some (record { shape = []; minus_one = minus; sum = acc })
reshape_loop input i (d ∷ ds) minus acc =
    let copy =
      or_none (get_elem? input i)
        (λ x. prepend x (reshape_loop input (suc i) ds minus (wrap (acc * to_size x)))) in
    let infer = prepend d (reshape_loop input (suc i) ds (some i) acc) in
    let keep = prepend d (reshape_loop input (suc i) ds minus (wrap (acc * to_size d))) in
    if d ==ℤ pos 0
    then copy
    else (if d ==ℤ negsuc 0
        then (if is_some minus then none else infer)
        else (if le_ℤ d (negsuc 1) then none else keep))

-- The dimension of the -1; the division is that of `size_t`, by zero it ends the process.
unfoldable pub fill_minus_one : Shape → Progress → Outcome (Option Shape)
fill_minus_one input p = elim p.minus_one [
  | none ↦ ok (some p.shape)
  | some m ↦ do
    total ← count input
    assert_that (ltb 0 p.sum)
    let out = set p.shape m (to_signed (to_size total / p.sum))
    ok (if to_size total % p.sum == 0 then some out else none)
]

-- `CalculateOutputShape`
unfoldable pub calculate_output_shape : Shape → Shape → Outcome (Option Shape)
unfolding reshape_loop fill_minus_one
calculate_output_shape input expect = elim (reshape_loop input 0 expect none 1) [
  | none ↦ ok none
  | some p ↦ fill_minus_one input p
]

-- `InferOutputMetaInfo`
unfoldable pub checked_shape : Shape → Option Shape → Outcome Shape
checked_shape input none = invalid_argument
checked_shape input (some out) = do
  after ← count out
  before ← count input
  throw_unless (after ==ℤ before)
  ok out

unfoldable pub reshape_shape : Shape → Shape → Outcome Shape
unfolding checked_shape
reshape_shape input expect = do
  found ← calculate_output_shape input expect
  checked_shape input found

-- The loops of `GetPlacementSignature`: the dimensions in front, up to the first that differs,
-- that one included, and those at the end while they agree.
unfoldable pub front_rows : ℕ → Shape → Shape → List (ℕ × ℕ)
front_rows i (a ∷ as') (b ∷ bs) =
    let rest = front_rows (suc i) as' bs in (i, i) ∷ (if a ==ℤ b then rest else [])
front_rows i _ _ = []

-- Both shapes from the end, `n` and `m` dimensions of them being left.
unfoldable pub back_rows : Shape → Shape → List (ℕ × ℕ)
back_rows (a ∷ as') (b ∷ bs) =
    let rest = back_rows as' bs in if a ==ℤ b then (length as', length bs) ∷ rest else []
back_rows _ _ = []

unfoldable pub reshape_signature : Shape → Shape → Outcome PlacementSignature
reshape_signature input output =
    unary_signature (front_rows 0 input output ++ back_rows (reverse input) (reverse output))
