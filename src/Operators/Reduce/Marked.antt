-- ===== src/Operators/Reduce/Marked.antt =====
-- What `ReduceOp::CalculateOutputShape` marks is what `GetDimSet` collects:
-- dtorch/core/operators/standard/reduce_op.cc.
use dtorch.Base.{
  ℕ, zero, suc, ◌+◌, ◌≤◌, ◌<◌, ◌≡◌, refl, sym, ap, ◌∙◌, ◌≢◌, inl, inr, Bool, true, false, List, [],
  ◌∷◌, map, arith, ◌==◌, if◌then◌else◌, Bool-cases, length, set, length-set, ok, ◌>>=◌, assert_that,
  >>=-eq-ok, assert_that-eq-ok, ok-injective,
}
use dtorch.Base.Int.{ℤ, negsuc, ◌+ℤ◌}
use dtorch.Shape.{Shape, contains}
use dtorch.Operators.{get_valid_dim}
use dtorch.Operators.Squeeze.{valid_dims}
use dtorch.Operators.Reduce.{
  axes_from, get_dim_set, reduced_index, mark_loop, collect, none_negative, reduced_shape,
}

-- The dimensions of a set marked, from `i` on.
abbrev pub marked_from : List ℕ → ℕ → Shape → Shape
marked_from dims i [] = []
marked_from dims i (d ∷ ds) =
    (if contains i dims then negsuc 0 else d) ∷ marked_from dims (suc i) ds

reduced_index-get_valid_dim :
    (shape : Shape) (dim : ℤ) {i : ℕ}
    → reduced_index (length shape) dim ≡ ok i
    → get_valid_dim shape dim ≡ ok i
unfolding reduced_index get_valid_dim ◌+ℤ◌
reduced_index-get_valid_dim shape dim h = ground arith

-- A dimension in front of `i` marks nothing from `i` on.
marked_from-front :
    (v i : ℕ) (dims : List ℕ) (s : Shape)
    → v < i
    → marked_from (v ∷ dims) i s ≡ marked_from dims i s
unfolding contains
marked_from-front v i dims [] h = refl
marked_from-front v i dims (d ∷ s) h =
    let e : (i == v) ≡ false = ground arith in
    rw (e, marked_from-front v (suc i) dims s (omega arith)) refl

marked_from-set :
    (dims : List ℕ) (i j : ℕ) (s : Shape)
    → marked_from dims i (set s j (negsuc 0)) ≡ marked_from ((i + j) ∷ dims) i s
unfolding contains
marked_from-set dims i j [] = refl
marked_from-set dims i zero (d ∷ s) =
    let here : (i == i + 0) ≡ true = ground arith in
    rw (here, marked_from-front (i + 0) (suc i) dims s (omega arith)) (ground arith)
marked_from-set dims i (suc j) (d ∷ s) =
    let away : (i == i + suc j) ≡ false = ground arith in
    let next : i + suc j ≡ suc i + j = omega arith in
    rw (away, marked_from-set dims (suc i) j s, ← next) refl

mark_loop-marked_from :
    (start shape : Shape) (dims : List ℤ) {marked : Shape}
    → length shape ≡ length start
    → mark_loop (length start) dims shape ≡ ok marked
    → (dim_set : List ℕ) × (valid_dims start dims ≡ ok dim_set)
      × (marked ≡ marked_from dim_set 0 shape)
unfolding mark_loop valid_dims contains
mark_loop-marked_from start shape [] e h = ([], refl, sym (ok-injective h) ∙ same 0 shape)
  where
    same : (i : ℕ) (s : Shape) → s ≡ marked_from [] i s
    same i [] = refl
    same i (d ∷ s) = ap (λ z. d ∷ z) (same (suc i) s)
mark_loop-marked_from start shape (dim ∷ dims) {marked} e h =
    let (i, a, h1) = >>=-eq-ok (reduced_index (length start) dim) _ h in
    let (dim_set, b, q) =
      mark_loop-marked_from start (set shape i (negsuc 0)) dims (length-set shape i (negsuc 0) ∙ e)
        h1 in
    let zero_i : 0 + i ≡ i = omega arith in
    (
      i ∷ dim_set,
      rw (reduced_index-get_valid_dim start dim a, b) refl,
      q ∙ marked_from-set dim_set 0 i shape ∙ ap (λ z. marked_from (z ∷ dim_set) 0 shape) zero_i,
    )

-- All the dimensions.
pub contains-axes_from : (n i j : ℕ) → i ≤ j → j < i + n → contains j (axes_from i n) ≡ true
unfolding contains axes_from
contains-axes_from zero i j h k = absurd (omega arith)
contains-axes_from (suc n) i j h k = elim (Bool-cases (j == i)) [
  | inl e ↦ rw e refl
  | inr e ↦
      let away : i ≢ j = ground arith in
      rw e (contains-axes_from n (suc i) j (omega arith) (omega arith))
]

all_marked :
    (dims : List ℕ) (i : ℕ) (s : Shape)
    → ((j : ℕ) → i ≤ j → j < i + length s → contains j dims ≡ true)
    → map (λ d. negsuc 0) s ≡ marked_from dims i s
all_marked dims i [] h = refl
all_marked dims i (d ∷ s) h =
    rw (h i (omega arith) (omega arith)) (
      ap (λ z. negsuc 0 ∷ z) (all_marked dims (suc i) s (λ j k l. h j (omega arith) (omega arith))))

-- The output's shape collects what is not in the set of dimensions.
pub reduced_shape-collect :
    (shape : Shape) (dims : List ℤ) (keepdim : Bool) {out : Shape}
    → reduced_shape shape dims keepdim ≡ ok out
    → (dim_set : List ℕ) × (get_dim_set shape dims ≡ ok dim_set)
      × (none_negative shape ≡ true)
      × (out ≡ collect keepdim (marked_from dim_set 0 shape))
unfolding reduced_shape get_dim_set
reduced_shape-collect shape [] keepdim {out} h =
    let (u, a, h1) = >>=-eq-ok (assert_that (none_negative shape)) _ h in
    let every =
      all_marked (axes_from 0 (length shape)) 0 shape
        (λ j k l. contains-axes_from (length shape) 0 j (omega arith) (omega arith)) in
    (
      axes_from 0 (length shape),
      refl,
      assert_that-eq-ok _ a,
      sym (ok-injective h1) ∙ ap (collect keepdim) every,
    )
reduced_shape-collect shape (dim ∷ dims) keepdim {out} h =
    let (u, a, h1) = >>=-eq-ok (assert_that (none_negative shape)) _ h in
    let some_named : (length (dim ∷ dims) == 0) ≡ false = ground arith in
    let h2 : (mark_loop (length shape) (dim ∷ dims) shape >>= λ m. ok (collect keepdim m))
        ≡ ok out =
      rw some_named at h1 in
    let (marked, b, h3) = >>=-eq-ok (mark_loop (length shape) (dim ∷ dims) shape) _ h2 in
    let (dim_set, c, e) = mark_loop-marked_from shape shape (dim ∷ dims) refl b in
    (
      dim_set,
      rw some_named c,
      assert_that-eq-ok _ a,
      sym (ok-injective h3) ∙ ap (collect keepdim) e,
    )
