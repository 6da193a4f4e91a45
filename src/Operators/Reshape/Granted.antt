-- ===== src/Operators/Reshape/Granted.antt =====
-- What the inference of a reshape's shape grants of the shape that was asked for.
use dtorch.Base.{
  true≢false, ℕ, suc, ◌+◌, ◌*◌, ◌≡◌, refl, ap, ◌∙◌, subst, ◌⊎◌, inl, inr, Bool, true, false, Option,
  none, some, [], ◌∷◌, arith, if◌then◌else◌, Bool-cases, get_elem?,
}
use dtorch.Base.Int.{ℤ, pos, negsuc, pos_part, neg_part, lt_ℤ, le_ℤ, ◌==ℤ◌, to_size, ==ℤ_iff}
use dtorch.Shape.{Shape}
use dtorch.Stride.{wrap}
use dtorch.Operators.Reshape.{Progress, prepend, or_none, is_some, reshape_loop}

-- What a dimension of the requested shape asks of the output's: a positive one is kept, a 0
-- copies the input's; what -1 becomes the count decides.
pub record Granted (input : Shape) (i : ℕ) (d x : ℤ) : Type 0 where
  pub kept : lt_ℤ (pos 0) d ≡ true → x ≡ d
  pub copied : d ≡ pos 0 → get_elem? input i ≡ some x

abbrev pub AllGranted : Shape → ℕ → Shape → Shape → Type 0
AllGranted input i [] [] = Unit
AllGranted input i (d ∷ ds) (x ∷ xs) = Granted input i d x × AllGranted input (suc i) ds xs
AllGranted input i [] (x ∷ xs) = ⊥
AllGranted input i (d ∷ ds) [] = ⊥

-- The position of the -1 holds one.
abbrev pub IsMinusOne : ℕ → Shape → Option ℕ → Option ℕ → Type 0
IsMinusOne i ds minus found =
    (found ≡ minus) ⊎ ((j : ℕ) × (found ≡ some (i + j)) × (get_elem? ds j ≡ some (negsuc 0)))

IsMinusOne-cons :
    (i : ℕ) (d : ℤ) (ds : Shape) (minus found : Option ℕ)
    → IsMinusOne (suc i) ds minus found
    → IsMinusOne i (d ∷ ds) minus found
IsMinusOne-cons i d ds minus found (inl e) = inl e
IsMinusOne-cons i d ds minus found (inr (j, e, g)) = inr (suc j, e ∙ ap some (omega arith), g)

prepend-eq-some :
    (d : ℤ) (o : Option Progress) {p : Progress}
    → prepend d o ≡ some p
    → (q : Progress) × (o ≡ some q) × (record q { shape = d ∷ q.shape } ≡ p)
prepend-eq-some d none h = cc
prepend-eq-some d (some q) h = (q, refl, cc)

or_none-eq-some :
    (o : Option ℤ) (f : ℤ → Option Progress) {p : Progress}
    → or_none o f ≡ some p
    → (x : ℤ) × (o ≡ some x) × (f x ≡ some p)
or_none-eq-some none f h = cc
or_none-eq-some (some x) f h = (x, refl, h)

abbrev pub Result : Shape → ℕ → Shape → Option ℕ → Progress → Type 0
Result input i ds minus p = AllGranted input i ds p.shape × IsMinusOne i ds minus p.minus_one

-- A -1 asks for nothing.
pub Granted-minus_one : (input : Shape) (i : ℕ) (d x : ℤ) → d ≡ negsuc 0 → Granted input i d x
Granted-minus_one input i (pos n) x e = cc
Granted-minus_one input i (negsuc n) x e = record {
  kept = λ k. absurd (ground arith);
  copied = λ k. cc;
}

else-eq-some :
    (b : Bool) (o : Option Progress) {p : Progress} → (if b then none else o) ≡ some p → o ≡ some p
else-eq-some true o h = cc
else-eq-some false o h = h

pub reshape_loop-AllGranted :
    (input : Shape) (i : ℕ) (ds : Shape) (minus : Option ℕ) (acc : ℕ) {p : Progress}
    → reshape_loop input i ds minus acc ≡ some p
    → Result input i ds minus p
unfolding reshape_loop
reshape_loop-AllGranted input i [] minus acc {p} h =
    let e : record { shape = []; minus_one = minus; sum = acc } ≡ p = cc in
    subst (Result input i [] minus) e (tt, inl refl)
reshape_loop-AllGranted input i (d ∷ ds) minus acc {p} h = elim (Bool-cases (d ==ℤ pos 0)) [
  | inl z ↦
      let zero_d : d ≡ pos 0 = (==ℤ_iff d (pos 0)).0 z in
      let (x, here, h1) = or_none-eq-some (get_elem? input i) _ (rw z at h) in
      let (q, run, e) =
        prepend-eq-some x (reshape_loop input (suc i) ds minus (wrap (acc * to_size x))) h1 in
      let (rest, at) =
        reshape_loop-AllGranted input (suc i) ds minus (wrap (acc * to_size x)) run in
      subst (Result input i (d ∷ ds) minus) e (
        (record { kept = λ k. never d zero_d k; copied = λ k. here }, rest),
        IsMinusOne-cons i d ds minus q.minus_one at,
      )
  | inr z ↦ elim (Bool-cases (d ==ℤ negsuc 0)) [
    | inl y ↦
        let minus_d : d ≡ negsuc 0 = (==ℤ_iff d (negsuc 0)).0 y in
        inferred minus_d (λ q run. reshape_loop-AllGranted input (suc i) ds (some i) acc run)
          (rw (z, y) at h)
    | inr y ↦
        let h1 : (if le_ℤ d (negsuc 1)
              then none
              else prepend d (reshape_loop input (suc i) ds minus (wrap (acc * to_size d))))
            ≡ some p =
          rw (z, y) at h in
        kept_one z
          (λ q run. reshape_loop-AllGranted input (suc i) ds minus (wrap (acc * to_size d)) run) h1
  ]
]
  where
    never : {A : Type 0} (d : ℤ) → d ≡ pos 0 → lt_ℤ (pos 0) d ≡ true → A
    never d e k = let q = ap pos_part e in let r = ap neg_part e in absurd (ground arith)

    inferred :
        d ≡ negsuc 0
        → ((q : Progress)
            → reshape_loop input (suc i) ds (some i) acc ≡ some q
            → Result input (suc i) ds (some i) q)
        → (if is_some minus then none else prepend d (reshape_loop input (suc i) ds (some i) acc))
          ≡ some p
        → Result input i (d ∷ ds) minus p
    inferred e again k =
        let (q, run, e') =
          prepend-eq-some d (reshape_loop input (suc i) ds (some i) acc)
            (else-eq-some (is_some minus) _ k) in
        let (rest, at) = again q run in
        subst (Result input i (d ∷ ds) minus) e' (
          (Granted-minus_one input i d d e, rest),
          elim at [
            | inl f ↦ inr (0, f ∙ ap some (omega arith), ap some e)
            | inr f ↦ IsMinusOne-cons i d ds minus q.minus_one (inr f)
          ],
        )

    kept_one :
        (d ==ℤ pos 0) ≡ false
        → ((q : Progress)
            → reshape_loop input (suc i) ds minus (wrap (acc * to_size d)) ≡ some q
            → Result input (suc i) ds minus q)
        → (if le_ℤ d (negsuc 1)
            then none
            else prepend d (reshape_loop input (suc i) ds minus (wrap (acc * to_size d))))
          ≡ some p
        → Result input i (d ∷ ds) minus p
    kept_one z again k =
        let (q, run, e') =
          prepend-eq-some d (reshape_loop input (suc i) ds minus (wrap (acc * to_size d)))
            (else-eq-some (le_ℤ d (negsuc 1)) _ k) in
        let (rest, at) = again q run in
        subst (Result input i (d ∷ ds) minus) e' (
          (record { kept = λ _. refl; copied = λ e. true≢false ((==ℤ_iff d (pos 0)).1 e) z }, rest),
          IsMinusOne-cons i d ds minus q.minus_one at,
        )
