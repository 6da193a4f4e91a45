-- ===== src/Shape.antt =====
-- `Shape`, a tensor's dimensions: dtorch/api/cpp/shape.{h,cc}.
pub mod Access
pub mod Broadcast
use dtorch.Base.{
  ℕ, zero, suc, ◌+◌, ◌-◌, ◌*◌, ◌/◌, ◌%◌, ◌^◌, ◌≤◌, ◌<◌, min, max, ◌≡◌, refl, sym, ap, ◌∙◌, subst,
  fun_ext, ◌≢◌, ◌↔◌, ◌⊎◌, inl, inr, Bool, true, false, not, ◌&&◌, ◌||◌, Option, none, some, List,
  [], ◌∷◌, ◌++◌, map, reverse, arith, ltb, leb, ◌==◌, if◌then◌else◌, ==_refl, ==_iff, ltb→lt,
  lt→ltb, leb→le, Bool-cases, Option-cases, and-eq-true, length, get_elem?, set, take, drop,
  replicate, All, sum, product, length-append, length-set, length-drop, length-take,
  length-replicate, length-map, get_elem?-set_ne, get_elem?-set_self, Outcome, ok, invalid_argument,
  aborted, ◌>>=◌, ◌>>◌, assert_that, throw_unless, of_option, >>=-eq-ok,
}
use dtorch.Base.Int.{
  ℤ, pos, negsuc, pos_part, neg_part, sub_ℕ, ◌+ℤ◌, ◌-ℤ◌, ◌*ℤ◌, ◌≤ℤ◌, lt_ℤ, le_ℤ, ◌==ℤ◌, max_ℤ,
  to_size, ==ℤ_iff, ==ℤ_refl, max_ℤ_comm, pos-mul,
}

-- `mShape`. A dimension may be negative where it is a placeholder (-1 and -100).
abbrev pub Shape : Type 0
Shape = List ℤ

-- `GetNullShape` and `IsNullTensorShape`: the mark of an absent optional input.
abbrev pub null_shape : Shape
null_shape = negsuc 99 ∷ []

unfoldable pub is_null_tensor_shape : Shape → Bool
is_null_tensor_shape (d ∷ []) = d ==ℤ negsuc 99
is_null_tensor_shape shape = false

-- `operator==`, the loop over the dimensions after the test of the sizes.
unfoldable pub ◌==ₛ◌ : Shape → Shape → Bool

infix 50 ◌==ₛ◌
[] ==ₛ [] = true
(a ∷ as') ==ₛ (b ∷ bs) = a ==ℤ b && as' ==ₛ bs
[] ==ₛ (b ∷ bs) = false
(a ∷ as') ==ₛ [] = false

-- `Prod(begin_dim, end_dim)`
unfoldable pub prod_loop : ℤ → Shape → ℤ
prod_loop result [] = result
prod_loop result (d ∷ ds) = prod_loop (result *ℤ d) ds

unfoldable pub prod : Shape → ℤ → ℤ → Outcome ℤ
unfolding prod_loop
prod shape begin_dim end_dim = do
  assert_that (le_ℤ begin_dim end_dim)
  assert_that (le_ℤ (pos 0) begin_dim)
  assert_that (lt_ℤ end_dim (pos (length shape)))
  let begin = pos_part begin_dim
  ok (prod_loop (pos 1) (take (suc (pos_part end_dim) - begin) (drop begin shape)))

-- `Count()`: 1 for a scalar
unfoldable pub count : Shape → Outcome ℤ
unfolding prod
count shape = if length shape == 0 then ok (pos 1) else prod shape (pos 0) (pos (length shape - 1))

-- The index that `At`, `Set` and `operator[]` compute from a signed one.
unfoldable pub wrap_index : ℕ → ℤ → Outcome ℕ
unfolding ◌+ℤ◌
wrap_index size index = do
  assert_that (lt_ℤ index (pos size))
  let index' = if lt_ℤ index (pos 0) then index +ℤ pos size else index
  assert_that (le_ℤ (pos 0) index')
  ok (pos_part index')

unfoldable pub at : Shape → ℤ → Outcome ℤ
at shape index = do i ← wrap_index (length shape) index; of_option (get_elem? shape i)

unfoldable pub set_at : Shape → ℤ → ℤ → Outcome Shape
set_at shape index value = do
  i ← wrap_index (length shape) index
  assert_that (le_ℤ (pos 0) value)
  ok (set shape i value)

-- One dimension against another in `CanBroadcastWith`.
abbrev pub compatible : ℤ → ℤ → Bool
compatible a b = if a ==ℤ pos 1 || b ==ℤ pos 1 then true else a ==ℤ b

unfoldable pub all_compatible : Shape → Shape → Bool
all_compatible (a ∷ as') (b ∷ bs) =
    let rest = all_compatible as' bs in if compatible a b then rest else false
all_compatible _ _ = true

-- `CanBroadcastWith`: the loop runs over the dimensions that both shapes have at the end.
unfoldable pub can_broadcast_with : Shape → Shape → Bool
can_broadcast_with shape other =
    if length shape == 0 || length other == 0
    then true
    else (let size = min (length shape) (length other) in
        all_compatible (drop (length shape - size) shape) (drop (length other - size) other))

-- The loop of `BroadcastOutputShape` over the same dimensions.
unfoldable pub broadcast_dims : Shape → Shape → Outcome Shape
broadcast_dims (a ∷ as') (b ∷ bs) = do
  assert_that (compatible a b)
  rest ← broadcast_dims as' bs
  ok (max_ℤ a b ∷ rest)
broadcast_dims _ _ = ok []

-- `BroadcastOutputShape`: the longer shape's leading dimensions, then the larger of each two.
unfoldable pub broadcast_output_shape : Shape → Shape → Outcome Shape
broadcast_output_shape shape other =
    let min_size = min (length shape) (length other) in
    if length shape == 0
    then ok other
    else (if length other == 0 then ok shape else (do
      let one_begin = length shape - min_size
      let other_begin = length other - min_size
      rest ← broadcast_dims (drop one_begin shape) (drop other_begin other)
      if ltb (length other) (length shape)
          then ok (take one_begin shape ++ rest)
          else ok (take other_begin other ++ rest)))

-- `ExpandBefore`
unfoldable pub expand_before : Shape → ℕ → Outcome Shape
expand_before shape target_size = do
  assert_that (leb (length shape) target_size)
  if target_size == length shape
      then ok shape
      else ok (replicate (target_size - length shape) (pos 1) ++ shape)

-- `selectDims.find(i) != selectDims.end()`
unfoldable pub contains : ℕ → List ℕ → Bool
contains i [] = false
contains i (d ∷ ds) = i == d || contains i ds

-- `KeepSelectedDim` and `RemoveSelectedDim`, from the dimension `i` on.
unfoldable pub keep_from : ℕ → List ℕ → Shape → Shape
unfolding contains
keep_from i dims [] = []
keep_from i dims (d ∷ ds) =
    let rest = keep_from (suc i) dims ds in if contains i dims then d ∷ rest else rest

unfoldable pub remove_from : ℕ → List ℕ → Shape → Shape
unfolding contains
remove_from i dims [] = []
remove_from i dims (d ∷ ds) =
    let rest = remove_from (suc i) dims ds in if contains i dims then rest else d ∷ rest

unfoldable pub keep_selected_dim : Shape → List ℕ → Shape
unfolding keep_from
keep_selected_dim shape dims = keep_from 0 dims shape

unfoldable pub remove_selected_dim : Shape → List ℕ → Shape
unfolding remove_from
remove_selected_dim shape dims = remove_from 0 dims shape
