-- ===== src/Operators/Reshape/Whole.antt =====
-- The inference of a reshape's shape as a whole.
use dtorch.Base.{
  ℕ, zero, suc, ◌+◌, ◌/◌, ◌%◌, ◌≡◌, refl, ap, ◌∙◌, subst, inl, inr, Bool, true, false, Option, none,
  some, [], ◌∷◌, arith, ltb, ◌==◌, if◌then◌else◌, get_elem?, set, ok, ◌>>=◌, ◌>>◌, assert_that,
  throw_unless, >>=-eq-ok, throw_unless-eq-ok, ok-injective,
}
use dtorch.Base.Int.{ℤ, negsuc, ◌==ℤ◌, to_size, ==ℤ_iff}
use dtorch.Shape.{Shape, count}
use dtorch.Operators.{to_signed}
use dtorch.Operators.Reshape.Granted.{
  AllGranted, IsMinusOne, Result, Granted-minus_one, reshape_loop-AllGranted,
}
use dtorch.Operators.Reshape.{
  Progress, reshape_loop, fill_minus_one, calculate_output_shape, checked_shape, reshape_shape,
}

AllGranted-set :
    (input : Shape) (i : ℕ) (ds xs : Shape) (j : ℕ) (v : ℤ)
    → get_elem? ds j ≡ some (negsuc 0)
    → AllGranted input i ds xs
    → AllGranted input i ds (set xs j v)
AllGranted-set input i [] xs j v e h = cc
AllGranted-set input i (d ∷ ds) [] j v e h = elim h [ ]
AllGranted-set input i (d ∷ ds) (x ∷ xs) zero v e h =
    let q : d ≡ negsuc 0 = cc in (Granted-minus_one input i d v q, h.1)
AllGranted-set input i (d ∷ ds) (x ∷ xs) (suc j) v e h =
    (h.0, AllGranted-set input (suc i) ds xs j v e h.1)

then-eq-some :
    (b : Bool) (xs : Shape) {ys : Shape} → (if b then some xs else none) ≡ some ys → xs ≡ ys
then-eq-some true xs h = cc
then-eq-some false xs h = cc

index_eq : (m j : ℕ) → some m ≡ some (0 + j) → m ≡ j
index_eq m j e = let q : m ≡ 0 + j = cc in omega arith

fill_minus_one-AllGranted :
    (input expect : Shape) (p : Progress) {out : Shape}
    → Result input 0 expect none p
    → fill_minus_one input p ≡ ok (some out)
    → AllGranted input 0 expect out
unfolding fill_minus_one
fill_minus_one-AllGranted input expect p {out} (granted, at) h = by_minus p.minus_one at h
  where
    by_minus :
        (found : Option ℕ)
        → IsMinusOne 0 expect none found
        → elim found [
          | none ↦ ok (some p.shape)
          | some m ↦ do
            total ← count input
            assert_that (ltb 0 p.sum)
            let out' = set p.shape m (to_signed (to_size total / p.sum))
            ok (if to_size total % p.sum == 0 then some out' else none)
        ]
          ≡ ok (some out)
        → AllGranted input 0 expect out
    by_minus none m k = let e : p.shape ≡ out = cc in subst (AllGranted input 0 expect) e granted
    by_minus (some m) (inl e) k = cc
    by_minus (some m) (inr (j, e, g)) k =
        let (total, a, k1) = >>=-eq-ok (count input) _ k in
        let (u, b, k2) = >>=-eq-ok (assert_that (ltb 0 p.sum)) _ k1 in
        let new = to_signed (to_size total / p.sum) in
        let chosen =
          then-eq-some (to_size total % p.sum == 0) (set p.shape m new) (ok-injective k2) in
        let same : m ≡ j = index_eq m j e in
        let here : get_elem? expect m ≡ some (negsuc 0) = ap (get_elem? expect) same ∙ g in
        subst (AllGranted input 0 expect) chosen
          (AllGranted-set input 0 expect p.shape m new here granted)

calculate_output_shape-AllGranted :
    (input expect : Shape) {out : Shape}
    → calculate_output_shape input expect ≡ ok (some out)
    → AllGranted input 0 expect out
unfolding calculate_output_shape
calculate_output_shape-AllGranted input expect {out} h =
    by_loop (reshape_loop input 0 expect none 1)
      (λ p e. reshape_loop-AllGranted input 0 expect none 1 e) h
  where
    by_loop :
        (o : Option Progress)
        → ((p : Progress) → o ≡ some p → Result input 0 expect none p)
        → elim o [ none ↦ ok none | some p ↦ fill_minus_one input p ] ≡ ok (some out)
        → AllGranted input 0 expect out
    by_loop none f k = cc
    by_loop (some p) f k = fill_minus_one-AllGranted input expect p (f p refl) k

-- Where a reshape infers a shape, it has as many elements as the input and as many dimensions as
-- were asked for: a positive dimension as requested, a 0 as the input's at that place.
pub reshape_shape-AllGranted :
    (input expect : Shape) {out : Shape}
    → reshape_shape input expect ≡ ok out
    → AllGranted input 0 expect out × ((n : ℤ) × (count input ≡ ok n) × (count out ≡ ok n))
unfolding reshape_shape
reshape_shape-AllGranted input expect {out} h =
    let (found, a, h1) = >>=-eq-ok (calculate_output_shape input expect) _ h in by_found found a h1
  where
    by_found :
        (o : Option Shape)
        → calculate_output_shape input expect ≡ ok o
        → checked_shape input o ≡ ok out
        → AllGranted input 0 expect out × ((n : ℤ) × (count input ≡ ok n) × (count out ≡ ok n))
    by_found none a k = unfold checked_shape in cc
    by_found (some s) a k =
        let (after, b, k1) =
          >>=-eq-ok (count s)
            (λ after. count input >>= λ before. throw_unless (after ==ℤ before) >> ok s)
            (unfold checked_shape in k) in
        let (before, c, k2) =
          >>=-eq-ok (count input) (λ before. throw_unless (after ==ℤ before) >> ok s) k1 in
        let (u, d, k3) = >>=-eq-ok (throw_unless (after ==ℤ before)) (λ _. ok s) k2 in
        let same : after ≡ before =
          (==ℤ_iff after before).0 (throw_unless-eq-ok (after ==ℤ before) d) in
        subst
          (λ z. AllGranted input 0 expect z × ((n : ℤ) × (count input ≡ ok n) × (count z ≡ ok n)))
          (ok-injective k3)
          (calculate_output_shape-AllGranted input expect a, (before, c, b ∙ ap ok same))
