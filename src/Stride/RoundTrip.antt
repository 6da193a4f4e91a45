-- ===== src/Stride/RoundTrip.antt =====
-- Coordinates and linear indices of a row-major array are inverse to each other.
use dtorch.Base.{
  ℕ, suc, ◌+◌, ◌*◌, ◌/◌, ◌%◌, ◌^◌, ◌<◌, ◌≡◌, refl, sym, ap, ◌∙◌, List, [], ◌∷◌, map, arith, ==_refl,
  lt→ltb, length, All, product, length-map, ok,
}
use dtorch.Base.Int.{pos, ◌*ℤ◌, pos-mul}
use dtorch.Stride.{
  stride_loop, stride_of_shape, wrap, index_loop, compute_index, compute_coordinate,
}

-- The stride of a dimension is the product of the dimensions behind it.
abbrev pub tail_products : List ℕ → List ℕ
tail_products [] = []
tail_products (d ∷ ds) = product ds ∷ tail_products ds

-- The dimensions of a device mesh or a rank table: none is zero, and the element count is an
-- `int64_t`.
pub record IsArrayShape (ds : List ℕ) : Type 0 where
  pub positive : All (λ d. 0 < d) ds
  pub bounded : product ds < 2 ^ 63

-- A coordinate below each dimension.
abbrev pub InRange : List ℕ → List ℕ → Type 0
InRange [] [] = Unit
InRange (d ∷ ds) (c ∷ cs) = (c < d) × InRange ds cs
InRange [] (c ∷ cs) = ⊥
InRange (d ∷ ds) [] = ⊥

abbrev pub linear : List ℕ → List ℕ → ℕ
linear (d ∷ ds) (c ∷ cs) = c * product ds + linear ds cs
linear _ _ = 0

stride_loop-products :
    (ds : List ℕ)
    → ((stride_loop (map pos ds)).0 ≡ map pos (tail_products ds))
      × ((stride_loop (map pos ds)).1 ≡ pos (product ds))
unfolding stride_loop
stride_loop-products [] = (refl, refl)
stride_loop-products (d ∷ ds) =
    let (strides, total) = stride_loop-products ds in
    (
      λ i. total i ∷ strides i,
      ap (λ z. z *ℤ pos d) total ∙ pos-mul (product ds) d ∙ ap pos (grind arith),
    )

pub stride_of_shape-tail_products :
    (ds : List ℕ) → stride_of_shape (map pos ds) ≡ map pos (tail_products ds)
unfolding stride_of_shape
stride_of_shape-tail_products ds = (stride_loop-products ds).0

pub product-pos : (ds : List ℕ) → All (λ d. 0 < d) ds → 0 < product ds
product-pos [] h = omega arith
product-pos (d ∷ ds) h = let p = product-pos ds h.1 in grind arith

linear-lt : (ds cs : List ℕ) → InRange ds cs → linear ds cs < product ds
linear-lt [] [] h = omega arith
linear-lt [] (c ∷ cs) h = absurd h
linear-lt (d ∷ ds) [] h = absurd h
linear-lt (d ∷ ds) (c ∷ cs) h = let p = linear-lt ds cs h.1 in grind arith

index_loop-linear :
    (ds cs : List ℕ) (acc : ℕ)
    → InRange ds cs
    → acc + linear ds cs < 2 ^ 64
    → index_loop acc (map pos (tail_products ds)) cs ≡ acc + linear ds cs
unfolding index_loop
index_loop-linear [] [] acc h b = omega arith
index_loop-linear [] (c ∷ cs) acc h b = absurd h
index_loop-linear (d ∷ ds) [] acc h b = absurd h
index_loop-linear (d ∷ ds) (c ∷ cs) acc h b =
    let e : wrap (acc + wrap (c * product ds)) ≡ acc + c * product ds = omega arith in
    ap (λ a. index_loop a (map pos (tail_products ds)) cs) e
    ∙ index_loop-linear ds cs (acc + c * product ds) h.1 (omega arith)
    ∙ omega arith

InRange-length : (ds cs : List ℕ) → InRange ds cs → length cs ≡ length (tail_products ds)
InRange-length [] [] h = refl
InRange-length [] (c ∷ cs) h = absurd h
InRange-length (d ∷ ds) [] h = absurd h
InRange-length (d ∷ ds) (c ∷ cs) h = ap suc (InRange-length ds cs h.1)

-- The index of a coordinate in range is the sum of its products with the strides, without a
-- wrap-around, and below the element count.
pub compute_index-linear :
    (ds cs : List ℕ)
    → IsArrayShape ds
    → InRange ds cs
    → (compute_index (stride_of_shape (map pos ds)) cs ≡ ok (linear ds cs))
      × (linear ds cs < product ds)
unfolding compute_index
compute_index-linear ds cs v h =
    let size = InRange-length ds cs h in
    let small = linear-lt ds cs h in
    let few = v.bounded in
    (
      rw (stride_of_shape-tail_products ds, length-map, size, ==_refl)
          (ap ok (index_loop-linear ds cs 0 h (omega arith) ∙ omega arith)),
      small,
    )

div_block : (c p r : ℕ) → r < p → (c * p + r) / p ≡ c
div_block c p r h = grind arith

mod_block : (c p r : ℕ) → r < p → (c * p + r) % p ≡ r
mod_block c p r h = grind arith

compute_coordinate-linear :
    (ds cs : List ℕ)
    → All (λ d. 0 < d) ds
    → InRange ds cs
    → compute_coordinate (map pos (tail_products ds)) (linear ds cs) ≡ ok cs
unfolding compute_coordinate
compute_coordinate-linear [] [] p h = refl
compute_coordinate-linear [] (c ∷ cs) p h = absurd h
compute_coordinate-linear (d ∷ ds) [] p h = absurd h
compute_coordinate-linear (d ∷ ds) (c ∷ cs) p h =
    let small = linear-lt ds cs h.1 in
    rw (
      lt→ltb 0 (product ds) (product-pos ds p.1),
      div_block c (product ds) (linear ds cs) small,
      mod_block c (product ds) (linear ds cs) small,
      compute_coordinate-linear ds cs p.1 h.1,
    )

-- The coordinate that stands for an index.
coordinate_of : List ℕ → ℕ → List ℕ
coordinate_of [] i = []
coordinate_of (d ∷ ds) i = i / product ds ∷ coordinate_of ds (i % product ds)

quotient-lt : (d p i : ℕ) → 0 < p → i < d * p → i / p < d
quotient-lt d p i h k = grind arith

coordinate_of-linear :
    (ds : List ℕ) (i : ℕ)
    → All (λ d. 0 < d) ds
    → i < product ds
    → InRange ds (coordinate_of ds i) × (linear ds (coordinate_of ds i) ≡ i)
unfolding coordinate_of
coordinate_of-linear [] i p h = (tt, omega arith)
coordinate_of-linear (d ∷ ds) i p h =
    let some_items = product-pos ds p.1 in
    let (range, back) = coordinate_of-linear ds (i % product ds) p.1 (grind arith) in
    ((quotient-lt d (product ds) i some_items h, range), rw back (grind arith))

-- At the strides of an array's shape, the coordinate of an index below the element count is in
-- range, and its index is the one that it came from; no assertion fails on the way.
pub compute_index-compute_coordinate :
    (ds : List ℕ) (i : ℕ)
    → IsArrayShape ds
    → i < product ds
    → (cs : List ℕ) × (compute_coordinate (stride_of_shape (map pos ds)) i ≡ ok cs)
      × InRange ds cs
      × (compute_index (stride_of_shape (map pos ds)) cs ≡ ok i)
compute_index-compute_coordinate ds i v h =
    let cs = coordinate_of ds i in
    let (range, back) = coordinate_of-linear ds i v.positive h in
    (
      cs,
      rw stride_of_shape-tail_products (
          ap (compute_coordinate (map pos (tail_products ds))) (sym back)
          ∙ compute_coordinate-linear ds cs v.positive range),
      range,
      (compute_index-linear ds cs v range).0 ∙ ap ok back,
    )

-- The other way round: the index of a coordinate in range has that coordinate.
pub compute_coordinate-compute_index :
    (ds cs : List ℕ)
    → IsArrayShape ds
    → InRange ds cs
    → (i : ℕ) × (compute_index (stride_of_shape (map pos ds)) cs ≡ ok i)
      × (i < product ds)
      × (compute_coordinate (stride_of_shape (map pos ds)) i ≡ ok cs)
compute_coordinate-compute_index ds cs v h =
    let (run, small) = compute_index-linear ds cs v h in
    (
      linear ds cs,
      run,
      small,
      rw stride_of_shape-tail_products (compute_coordinate-linear ds cs v.positive h),
    )
