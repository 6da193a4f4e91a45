-- ===== src/Shape/Access.antt =====
-- Element counts and signed indices.
use dtorch.Base.{
  ℕ, suc, ◌-◌, ◌*◌, ◌<◌, ◌≡◌, refl, ap, ◌∙◌, ◌≢◌, List, [], ◌∷◌, map, arith, ltb, if◌then◌else◌,
  length, get_elem?, set, take, product, length-set, get_elem?-set_ne, get_elem?-set_self, ok,
  aborted, of_option, >>=-eq-ok,
}
use dtorch.Base.Int.{ℤ, pos, negsuc, pos-mul}
use dtorch.Shape.{Shape, prod_loop, count, wrap_index, at, set_at}

pub prod_loop-product :
    (acc : ℕ) (ds : List ℕ) → prod_loop (pos acc) (map pos ds) ≡ pos (acc * product ds)
unfolding prod_loop
prod_loop-product acc [] = ap pos (omega arith)
prod_loop-product acc (d ∷ ds) =
    ap (λ z. prod_loop z (map pos ds)) (pos-mul acc d)
    ∙ prod_loop-product (acc * d) ds
    ∙ ap pos (grind arith)

take-length {ℓ} : {A : Type ℓ} (xs : List A) → take (length xs) xs ≡ xs
take-length [] = refl
take-length (x ∷ xs) = ap (◌∷◌ x) (take-length xs)

count-cons : (d : ℤ) (ds : Shape) → count (d ∷ ds) ≡ ok (prod_loop (pos 1) (d ∷ ds))
unfolding count
count-cons d ds =
    let e : suc (suc (length ds) - 1) - 0 ≡ suc (length ds) = omega arith in
    rw (e, take-length) (ground arith)

-- The element count of a shape without negative dimensions is the product of its dimensions, 1
-- for a scalar, and no assertion fails.
pub count-product : (ds : List ℕ) → count (map pos ds) ≡ ok (pos (product ds))
unfolding count
count-product [] = refl
count-product (d ∷ ds) =
    count-cons (pos d) (map pos ds)
    ∙ ap ok (prod_loop-product 1 (d ∷ ds) ∙ ap pos {x = 1 * (d * product ds)} (omega arith))

wrap_index-lt : (size : ℕ) (index : ℤ) {i : ℕ} → wrap_index size index ≡ ok i → i < size
unfolding wrap_index
wrap_index-lt size (pos n) h = ground arith
wrap_index-lt size (negsuc n) h = ground arith

-- A signed index from minus the number of dimensions to below it stands for the dimension at the
-- index, counted from the end if it is negative; any other index aborts.
pub wrap_index-cases :
    (size n : ℕ)
    → (wrap_index size (pos n) ≡ (if ltb n size then ok n else aborted))
      × (wrap_index size (negsuc n) ≡ (if ltb n size then ok (size - suc n) else aborted))
unfolding wrap_index
wrap_index-cases size n = (ground arith, ground arith)

-- Reading back what `Set` wrote, by the same signed index; every other dimension is unchanged.
pub at-set_at :
    (shape : Shape) (index value : ℤ) {after : Shape}
    → set_at shape index value ≡ ok after
    → (at after index ≡ ok value)
      × (length after ≡ length shape)
      × ((j : ℕ) → wrap_index (length shape) index ≢ ok j → get_elem? after j ≡ get_elem? shape j)
unfolding set_at at
at-set_at shape index value {after} h =
    let (i, found, rest) = >>=-eq-ok (wrap_index (length shape) index) _ h in
    let written : set shape i value ≡ after = ground arith in
    let size : length after ≡ length shape = rw (← written) (length-set shape i value) in
    (
      rw (size, found, ← written)
          (ap of_option (get_elem?-set_self shape i value (wrap_index-lt _ index found))),
      size,
      λ j other. rw (← written) (get_elem?-set_ne shape i j value (λ e. other (found ∙ ap ok e))),
    )
