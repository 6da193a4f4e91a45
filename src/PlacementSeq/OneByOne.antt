-- ===== src/PlacementSeq/OneByOne.antt =====
-- Each conversion in that order changes one axis, and together they reach the destination.
use dtorch.Base.{
  ℕ, zero, suc, ◌+◌, ◌≡◌, refl, ap, ◌∙◌, inl, inr, true, false, List, [], ◌∷◌, arith, ◌==◌,
  if◌then◌else◌, ==_refl, Option-cases, length, get_elem?, All, length-set, ok,
}
use dtorch.Placement.{Placement, ==ₚ_iff, ==ₚ_refl}
use dtorch.PlacementSeq.{PlacementSeq, diff_dims_from, get_diff_dims, get_convert_order, assign_dim}
use dtorch.PlacementSeq.ConvertOrder.{
  differs, occurrences, to_nat, IsExclusive, get_convert_order-occurrences,
}

assign_dim-cons :
    (a b : Placement) (as' bs : PlacementSeq) (d : ℕ)
    → assign_dim (b ∷ bs) (a ∷ as') (suc d) ≡ a ∷ assign_dim bs as' d
unfolding assign_dim
assign_dim-cons a b as' bs d = ground arith

assign_dim-nil : (dest : PlacementSeq) (d : ℕ) → assign_dim dest [] d ≡ []
unfolding assign_dim
assign_dim-nil dest d = ground arith

length-assign_dim : (dest cur : PlacementSeq) (d : ℕ) → length (assign_dim dest cur d) ≡ length cur
unfolding assign_dim
length-assign_dim dest cur d = elim (Option-cases (get_elem? dest d)) [
  | inl e ↦ rw (e, assign_dim)
  | inr (p, e) ↦ rw (e, assign_dim) (length-set cur d p)
]

differs-nil_right : (ps : PlacementSeq) (j : ℕ) → differs ps [] j ≡ false
differs-nil_right [] j = refl
differs-nil_right (p ∷ ps) j = refl

differs-nil_left : (ps : PlacementSeq) (j : ℕ) → differs [] ps j ≡ false
differs-nil_left [] j = refl
differs-nil_left (p ∷ ps) j = refl

differs-assign_dim :
    (dest cur : PlacementSeq) (d j : ℕ)
    → differs (assign_dim dest cur d) dest j ≡ (if d == j then false else differs cur dest j)
differs-assign_dim [] [] d j = differs-nil_right (assign_dim [] [] d) j ∙ ground arith
differs-assign_dim [] (a ∷ cur) d j = differs-nil_right (assign_dim [] (a ∷ cur) d) j ∙ ground arith
differs-assign_dim (b ∷ dest) [] d j =
    rw (assign_dim-nil (b ∷ dest) d, differs-nil_left (b ∷ dest) j) (ground arith)
differs-assign_dim (b ∷ dest) (a ∷ cur) zero zero = unfold assign_dim in rw (==ₚ_refl b)
differs-assign_dim (b ∷ dest) (a ∷ cur) zero (suc j) = unfold assign_dim in ground arith
differs-assign_dim (b ∷ dest) (a ∷ cur) (suc d) zero = rw assign_dim-cons (ground arith)
differs-assign_dim (b ∷ dest) (a ∷ cur) (suc d) (suc j) =
    rw assign_dim-cons (differs-assign_dim dest cur d j ∙ ground arith)

diff_dims_from_self : (i : ℕ) (ps : PlacementSeq) → diff_dims_from i ps ps ≡ []
unfolding diff_dims_from
diff_dims_from_self i [] = refl
diff_dims_from_self i (p ∷ ps) = rw (==ₚ_refl p) (diff_dims_from_self (suc i) ps)

diff_dims_from-assign_dim :
    (i : ℕ) (dest cur : PlacementSeq) (d : ℕ)
    → differs cur dest d ≡ true
    → diff_dims_from i cur (assign_dim dest cur d) ≡ (i + d) ∷ []
unfolding diff_dims_from
diff_dims_from-assign_dim i [] cur d h = let no = differs-nil_right cur d in cc
diff_dims_from-assign_dim i (b ∷ dest) [] d h = ground arith
diff_dims_from-assign_dim i (b ∷ dest) (a ∷ cur) zero h =
    unfold assign_dim in ground (arith, diff_dims_from_self (suc i) cur)
diff_dims_from-assign_dim i (b ∷ dest) (a ∷ cur) (suc d) h =
    rw (assign_dim-cons, ==ₚ_refl a)
      (diff_dims_from-assign_dim (suc i) dest cur d h
        ∙ ap (λ n. n ∷ []) {x = suc i + d} (omega arith))

eq_of_differs :
    (cur dest : PlacementSeq)
    → length cur ≡ length dest
    → ((j : ℕ) → differs cur dest j ≡ false)
    → cur ≡ dest
eq_of_differs [] [] size h = refl
eq_of_differs [] (b ∷ dest) size h = absurd (omega arith)
eq_of_differs (a ∷ cur) [] size h = absurd (omega arith)
eq_of_differs (a ∷ cur) (b ∷ dest) size h =
    let here : a ≡ b = (==ₚ_iff a b).0 (ground (arith, h 0)) in
    let later : cur ≡ dest = eq_of_differs cur dest (omega arith) (λ j. h (suc j)) in cc

-- Every conversion of the sequence changes exactly the axis that it is for, and the last one
-- leaves the destination.
abbrev pub ConvertsTo : PlacementSeq → List ℕ → PlacementSeq → Type 0
ConvertsTo dest [] cur = cur ≡ dest
ConvertsTo dest (d ∷ order) cur =
    (get_diff_dims cur (assign_dim dest cur d) ≡ ok (d ∷ []))
    × ConvertsTo dest order (assign_dim dest cur d)

occurrences-ConvertsTo :
    (dest : PlacementSeq) (order : List ℕ) (cur : PlacementSeq)
    → length cur ≡ length dest
    → ((j : ℕ) → occurrences j order ≡ to_nat (differs cur dest j))
    → ConvertsTo dest order cur
unfolding get_diff_dims
occurrences-ConvertsTo dest [] cur size once =
    eq_of_differs cur dest size (λ j. ground (arith, once j))
occurrences-ConvertsTo dest (d ∷ order) cur size once =
    let changed : differs cur dest d ≡ true = ground (arith, once d) in
    (
      rw (length-assign_dim dest cur d, ==_refl)
          (ap ok (
            diff_dims_from-assign_dim 0 dest cur d changed
            ∙ ap (λ n. n ∷ []) {x = 0 + d} (omega arith))),
      occurrences-ConvertsTo dest order (assign_dim dest cur d)
          (length-assign_dim dest cur d ∙ size)
          (λ j. ground (arith, once j, differs-assign_dim dest cur d j)),
    )

-- Between sequences of one length, the order that `GetConvertOrder` returns converts the source
-- into the destination: each step, which overwrites one axis by the destination's, changes
-- exactly that axis, as the convert kernel asserts, and the last step leaves the destination.
pub get_convert_order-ConvertsTo :
    (src dest : PlacementSeq)
    → length src ≡ length dest
    → All IsExclusive src
    → (order : List ℕ) × (get_convert_order src dest ≡ ok order) × ConvertsTo dest order src
get_convert_order-ConvertsTo src dest size x =
    let (order, run, once) = get_convert_order-occurrences src dest size x in
    (order, run, occurrences-ConvertsTo dest order src size once)
