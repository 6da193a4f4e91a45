-- ===== src/Operators/Flatten.antt =====
-- `FlattenOp`: dtorch/core/operators/standard/flatten_op.cc.
use native.Mathlib.Nat.{mul-pos, le-mul_of_pos_right}
use dtorch.Base.{
  ℕ, zero, suc, ◌+◌, ◌-◌, ◌*◌, ◌^◌, ◌≤◌, ◌<◌, ◌≡◌, refl, sym, ap, ◌∙◌, true, List, [], ◌∷◌, ◌++◌,
  map, arith, ltb, leb, lt→ltb, length, take, drop, All, sum, product, length-map, Outcome, ok,
  ◌>>=◌, ◌>>◌, assert_that, throw_unless,
}
use dtorch.Base.Int.{ℤ, pos, to_size}
use dtorch.Shape.{Shape}
use dtorch.Stride.{wrap}
use dtorch.Signature.{PlacementSignature}
use dtorch.Operators.{get_valid_dim, to_signed, unary_signature}
use dtorch.Operators.ValidDim.{get_valid_dim-front}

-- The product of the dimensions that are merged, in a `size_t`.
unfoldable pub merge_loop : ℕ → Shape → ℕ
merge_loop sum [] = sum
merge_loop sum (d ∷ ds) = merge_loop (wrap (sum * to_size d)) ds

-- `CalculateOutputShape`
unfoldable pub flatten_shape : Shape → ℤ → ℤ → Outcome Shape
flatten_shape shape start_dim end_dim = do
  start ← get_valid_dim shape start_dim
  last ← get_valid_dim shape end_dim
  throw_unless (leb start last)
  assert_that (ltb last (length shape))
  let merged = merge_loop 1 (take (suc last - start) (drop start shape))
  ok (take start shape ++ to_signed merged ∷ drop (suc last) shape)

-- `GetPlacementSignature`: the dimensions up to the first that is merged, and those behind.
unfoldable pub front_pairs : ℕ → ℕ → List (ℕ × ℕ)
front_pairs i zero = []
front_pairs i (suc n) = (i, i) ∷ front_pairs (suc i) n

unfoldable pub behind_pairs : ℕ → ℕ → ℕ → List (ℕ × ℕ)
behind_pairs shift i zero = []
behind_pairs shift i (suc n) = (i, i - shift) ∷ behind_pairs shift (suc i) n

unfoldable pub flatten_signature : Shape → ℤ → ℤ → Outcome PlacementSignature
flatten_signature shape start_dim end_dim = do
  start ← get_valid_dim shape start_dim
  last ← get_valid_dim shape end_dim
  unary_signature (
      front_pairs 0 (suc start)
      ++ behind_pairs (last - start + 1) (suc last) (length shape - suc last))

module _ (ds : List ℕ) where
  map-take : (n : ℕ) → take n (map pos ds) ≡ map pos (take n ds)
  map-take n = go n ds
    where
      go : (n : ℕ) (xs : List ℕ) → take n (map pos xs) ≡ map pos (take n xs)
      go zero xs = refl
      go (suc n) [] = refl
      go (suc n) (x ∷ xs) = ap (λ z. pos x ∷ z) (go n xs)

  map-drop : (n : ℕ) → drop n (map pos ds) ≡ map pos (drop n ds)
  map-drop n = go n ds
    where
      go : (n : ℕ) (xs : List ℕ) → drop n (map pos xs) ≡ map pos (drop n xs)
      go zero xs = refl
      go (suc n) [] = refl
      go (suc n) (x ∷ xs) = go n xs

map-append : (xs ys : List ℕ) → map pos xs ++ map pos ys ≡ map pos (xs ++ ys)
map-append [] ys = refl
map-append (x ∷ xs) ys = ap (λ z. pos x ∷ z) (map-append xs ys)

product-append : (xs ys : List ℕ) → product (xs ++ ys) ≡ product xs * product ys
product-append [] ys = omega arith
product-append (x ∷ xs) ys = grind (arith, product-append xs ys)

take-drop : (n : ℕ) (xs : List ℕ) → product (take n xs) * product (drop n xs) ≡ product xs
take-drop zero xs = omega arith
take-drop (suc n) [] = refl
take-drop (suc n) (x ∷ xs) = grind (arith, take-drop n xs)

drop-empty : (n : ℕ) → drop {A = ℕ} n [] ≡ []
drop-empty zero = refl
drop-empty (suc n) = refl

drop-drop : (n m : ℕ) (xs : List ℕ) → drop m (drop n xs) ≡ drop (n + m) xs
drop-drop zero m xs = ap (λ z. drop z xs) (omega arith)
drop-drop (suc n) m [] = drop-empty m ∙ sym (drop-empty (suc n + m))
drop-drop (suc n) m (x ∷ xs) =
    let e : suc (n + m) ≡ suc n + m = omega arith in drop-drop n m xs ∙ ap (λ z. drop z (x ∷ xs)) e

-- Where no dimension is zero, a part of the product is no larger than it.
All-drop : (n : ℕ) (xs : List ℕ) → All (λ d. 0 < d) xs → All (λ d. 0 < d) (drop n xs)
All-drop zero xs h = h
All-drop (suc n) [] h = tt
All-drop (suc n) (x ∷ xs) h = All-drop n xs h.1

product-positive : (xs : List ℕ) → All (λ d. 0 < d) xs → 0 < product xs
product-positive [] h = omega arith
product-positive (x ∷ xs) h = mul-pos h.0 (product-positive xs h.1)

All-take : (n : ℕ) (xs : List ℕ) → All (λ d. 0 < d) xs → All (λ d. 0 < d) (take n xs)
All-take zero xs h = tt
All-take (suc n) [] h = tt
All-take (suc n) (x ∷ xs) h = (h.0, All-take n xs h.1)

merge_loop-product :
    (acc : ℕ) (xs : List ℕ)
    → All (λ d. 0 < d) xs
    → acc * product xs < 2 ^ 64
    → merge_loop acc (map pos xs) ≡ acc * product xs
unfolding merge_loop
merge_loop-product acc [] h k = omega arith
merge_loop-product acc (x ∷ xs) h k =
    let assoc : acc * (x * product xs) ≡ acc * x * product xs = grind arith in
    let small : acc * x ≤ acc * x * product xs =
      le-mul_of_pos_right (acc * x) (product-positive xs h.1) in
    let fits : acc * x < 2 ^ 64 = omega arith in
    let exact : wrap (acc * x) ≡ acc * x = omega arith in
    ap (λ z. merge_loop z (map pos xs)) exact
    ∙ merge_loop-product (acc * x) xs h.1 (omega arith)
    ∙ sym assoc

-- The dimensions from `start` to `last`, which are merged, and the dimensions afterwards.
abbrev pub middle : List ℕ → ℕ → ℕ → List ℕ
middle ds start last = take (suc last - start) (drop start ds)

abbrev pub flattened : List ℕ → ℕ → ℕ → List ℕ
flattened ds start last = take start ds ++ product (middle ds start last) ∷ drop (suc last) ds

product-parts :
    (ds : List ℕ) (start last : ℕ)
    → start ≤ last
    → product (take start ds) * (product (middle ds start last) * product (drop (suc last) ds))
      ≡ product ds
product-parts ds start last h =
    let n = suc last - start in
    let whole : start + n ≡ suc last = omega arith in
    let rest : product (middle ds start last) * product (drop (suc last) ds)
        ≡ product (drop start ds) =
      ap (λ z. product (middle ds start last) * product z)
        (sym (drop-drop start n ds ∙ ap (λ z. drop z ds) whole))
      ∙ take-drop n (drop start ds) in
    ap (λ z. product (take start ds) * z) rest ∙ take-drop start ds

-- Flattening dimensions `start` to `last` of a tensor without empty dimensions and of fewer than
-- 2 ^ 63 elements: the shape is inferred without an error, the dimensions in front and behind
-- stay, their product takes the place of those between, and the number of elements is the same.
pub flatten_shape-flattened :
    (ds : List ℕ) (start last : ℕ)
    → start ≤ last
    → last < length ds
    → All (λ d. 0 < d) ds
    → product ds < 2 ^ 63
    → (flatten_shape (map pos ds) (pos start) (pos last) ≡ ok (map pos (flattened ds start last)))
      × (product (flattened ds start last) ≡ product ds)
unfolding flatten_shape
flatten_shape-flattened ds start last h k all few =
    let size : length (map pos ds) ≡ length ds = length-map ds pos in
    let before : leb start last ≡ true = ground arith in
    let mid = middle ds start last in
    let parts = product-parts ds start last h in
    let mid_all = All-take (suc last - start) (drop start ds) (All-drop start ds all) in
    let small : product mid ≤ product ds =
      bound (product (take start ds)) (product mid) (product (drop (suc last) ds))
        (product-positive (take start ds) (All-take start ds all))
        (product-positive (drop (suc last) ds) (All-drop (suc last) ds all)) parts in
    let one : 1 * product mid ≡ product mid = omega arith in
    let run : merge_loop 1 (map pos mid) ≡ product mid =
      merge_loop-product 1 mid mid_all (omega arith) ∙ one in
    let merged : merge_loop 1 (take (suc last - start) (drop start (map pos ds))) ≡ product mid =
      ap (λ z. merge_loop 1 (take (suc last - start) z)) (map-drop ds start)
      ∙ ap (merge_loop 1) (map-take (drop start ds) (suc last - start))
      ∙ run in
    let signed : to_signed (product mid) ≡ pos (product mid) =
      rw (lt→ltb (product mid) (2 ^ 63) (omega arith)) refl in
    let out : take start (map pos ds) ++ pos (product mid) ∷ drop (suc last) (map pos ds)
        ≡ map pos (flattened ds start last) =
      ap (λ z. z ++ pos (product mid) ∷ drop (suc last) (map pos ds)) (map-take ds start)
      ∙ ap (λ z. map pos (take start ds) ++ pos (product mid) ∷ z) (map-drop ds (suc last))
      ∙ map-append (take start ds) (product mid ∷ drop (suc last) ds) in
    (
      rw
          (
            get_valid_dim-front (map pos ds) start (omega arith),
            get_valid_dim-front (map pos ds) last (omega arith),
            before,
            size,
            lt→ltb last (length ds) k,
          )
          (ap (λ z. ok (take start (map pos ds) ++ z ∷ drop (suc last) (map pos ds)))
              (ap to_signed merged ∙ signed)
            ∙ ap ok out),
      product-append (take start ds) (product mid ∷ drop (suc last) ds) ∙ parts,
    )
  where
    bound : (a b c : ℕ) → 0 < a → 0 < c → a * (b * c) ≡ product ds → b ≤ product ds
    bound a b c p q e =
        let x : b ≤ b * c = le-mul_of_pos_right b q in
        let y : b * c ≤ b * c * a = le-mul_of_pos_right (b * c) p in
        let z : a * (b * c) ≡ b * c * a = grind arith in omega arith
