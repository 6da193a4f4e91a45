-- ===== src/Stride.antt =====
-- `Stride`, the row-major strides of a shape: dtorch/api/cpp/stride.{h,cc}.
pub mod RoundTrip
use dtorch.Base.{
  ℕ, zero, suc, ◌+◌, ◌-◌, ◌*◌, ◌/◌, ◌%◌, ◌^◌, ◌≤◌, ◌<◌, min, max, ◌≡◌, refl, sym, ap, ◌∙◌, subst,
  fun_ext, ◌≢◌, ◌↔◌, ◌⊎◌, inl, inr, Bool, true, false, not, ◌&&◌, ◌||◌, Option, none, some, List,
  [], ◌∷◌, ◌++◌, map, reverse, arith, ltb, leb, ◌==◌, if◌then◌else◌, ==_refl, ==_iff, ltb→lt,
  lt→ltb, leb→le, Bool-cases, Option-cases, and-eq-true, length, get_elem?, set, take, drop,
  replicate, All, sum, product, length-append, length-set, length-drop, length-take,
  length-replicate, length-map, get_elem?-set_ne, get_elem?-set_self, Outcome, ok, invalid_argument,
  aborted, ◌>>=◌, ◌>>◌, assert_that, throw_unless, of_option, >>=-eq-ok, assert_that-eq-ok,
  throw_unless-eq-ok, ok-injective,
}
use dtorch.Base.Int.{
  ℤ, pos, negsuc, pos_part, neg_part, sub_ℕ, ◌+ℤ◌, ◌-ℤ◌, ◌*ℤ◌, ◌≤ℤ◌, lt_ℤ, le_ℤ, ◌==ℤ◌, max_ℤ,
  to_size, ==ℤ_iff, ==ℤ_refl, max_ℤ_comm, pos-mul,
}
use dtorch.Shape.{Shape, at}

abbrev pub Stride : Type 0
Stride = List ℤ

-- The loop of `Stride(const Shape&)`, from the last dimension to the first: the strides written
-- so far, and `count`.
unfoldable pub stride_loop : Shape → Stride × ℤ
stride_loop [] = ([], pos 1)
stride_loop (d ∷ ds) = let (strides, count) = stride_loop ds in (count ∷ strides, count *ℤ d)

unfoldable pub stride_of_shape : Shape → Stride
unfolding stride_loop
stride_of_shape shape = (stride_loop shape).0

-- Products and sums of `size_t`.
abbrev pub wrap : ℕ → ℕ
wrap n = n % 2 ^ 64

-- `ComputeIndex<size_t>`: `result += coord * mStride[i]`
unfoldable pub index_loop : ℕ → Stride → List ℕ → ℕ
index_loop result (s ∷ ss) (c ∷ cs) = index_loop (wrap (result + wrap (c * to_size s))) ss cs
index_loop result _ _ = result

unfoldable pub compute_index : Stride → List ℕ → Outcome ℕ
compute_index stride coordinate = do
  assert_that (length coordinate == length stride)
  ok (index_loop 0 stride coordinate)

-- `ComputeCoordinate<size_t>`; a division by zero ends the process.
unfoldable pub compute_coordinate : Stride → ℕ → Outcome (List ℕ)
compute_coordinate [] index = ok []
compute_coordinate (s ∷ ss) index = do
  assert_that (ltb 0 (to_size s))
  rest ← compute_coordinate ss (index % to_size s)
  ok (index / to_size s ∷ rest)

-- `ExpandBefore`: the new leading strides are `mStride[0] * scaleValue`.
unfoldable pub stride_expand_before : Stride → ℕ → ℤ → Outcome Stride
stride_expand_before stride dim scale_value = do
  assert_that (ltb (length stride) dim)
  first ← of_option (get_elem? stride 0)
  ok (replicate (dim - length stride) (first *ℤ scale_value) ++ stride)
