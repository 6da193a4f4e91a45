-- ===== src/PlacementSeq/ConvertOrder.antt =====
-- Converting one axis at a time in the order of `GetConvertOrder`.
use dtorch.Base.{
  ℕ, zero, suc, ◌+◌, ◌-◌, ◌≡◌, ap, ◌∙◌, inl, inr, Bool, true, false, not, ◌&&◌, List, [], ◌∷◌, ◌++◌,
  reverse, arith, ltb, leb, ◌==◌, if◌then◌else◌, Bool-cases, length, All, ok,
}
use mathlib.Core.List.{reverse_aux}
use dtorch.Placement.{Placement, ◌==ₚ◌, ==ₚ_iff}
use dtorch.PlacementSeq.{PlacementSeq, order_loop, get_convert_order}

-- Whether axis `j` differs.
abbrev pub differs : PlacementSeq → PlacementSeq → ℕ → Bool
differs (a ∷ as') (b ∷ bs) zero = not (a ==ₚ b)
differs (a ∷ as') (b ∷ bs) (suc j) = differs as' bs j
differs _ _ j = false

abbrev pub occurrences : ℕ → List ℕ → ℕ
occurrences j [] = 0
occurrences j (i ∷ is) = (if i == j then 1 else 0) + occurrences j is

abbrev pub to_nat : Bool → ℕ
to_nat true = 1
to_nat false = 0

-- No placement is both a shard and replicated.
abbrev pub IsExclusive : Placement → Type 0
IsExclusive p = (p.shard && p.replicate) ≡ false

occurrences-append :
    (j : ℕ) (xs ys : List ℕ) → occurrences j (xs ++ ys) ≡ occurrences j xs + occurrences j ys
occurrences-append j [] ys = omega arith
occurrences-append j (x ∷ xs) ys = omega (arith, occurrences-append j xs ys)

occurrences-reverse_aux :
    (j : ℕ) (xs acc : List ℕ)
    → occurrences j (reverse_aux xs acc) ≡ occurrences j xs + occurrences j acc
occurrences-reverse_aux j [] acc = omega arith
occurrences-reverse_aux j (x ∷ xs) acc = omega (arith, occurrences-reverse_aux j xs (x ∷ acc))

occurrences-reverse : (j : ℕ) (xs : List ℕ) → occurrences j (reverse xs) ≡ occurrences j xs
occurrences-reverse j xs = omega (arith, occurrences-reverse_aux j xs [])

-- A shard that becomes replicated is a change.
gather-differs :
    (a b : Placement) → IsExclusive a → (a.shard && b.replicate) ≡ true → (a ==ₚ b) ≡ false
gather-differs a b x h = elim (Bool-cases (a ==ₚ b)) [
  | inr e ↦ e
  | inl e ↦
      let same : a ≡ b = (==ₚ_iff a b).0 e in
      let both : (a.shard && a.replicate) ≡ true =
        rw (ap (λ (p : Placement). p.replicate) same) h in
      cc (x, both)
]

-- Each axis from `i` on stands in one of the two lists exactly once if it differs, and no other.
order_loop-occurrences :
    (i k : ℕ) (as' bs : PlacementSeq)
    → All IsExclusive as'
    → occurrences k (order_loop i as' bs).0 + occurrences k (order_loop i as' bs).1
      ≡ to_nat (leb i k && differs as' bs (k - i))
unfolding order_loop
order_loop-occurrences i k [] bs x = ground arith
order_loop-occurrences i k (a ∷ as') [] x = ground arith
order_loop-occurrences i k (a ∷ as') (b ∷ bs) x =
    let ih = order_loop-occurrences (suc i) k as' bs x.1 in
    let split = differs_at i k a b as' bs in ground (arith, ih, split, gather-differs a b x.0)
  where
    differs_at :
        (i k : ℕ) (a b : Placement) (as' bs : PlacementSeq)
        → (leb i k && differs (a ∷ as') (b ∷ bs) (k - i))
          ≡ (if i == k then not (a ==ₚ b) else (leb (suc i) k && differs as' bs (k - suc i)))
    differs_at i k a b as' bs = elim (Bool-cases (ltb i k)) [
      | inl e ↦ let s : k - i ≡ suc (k - suc i) = ground arith in rw s (ground arith)
      | inr e ↦ let s : k - i ≡ 0 = ground arith in rw s (ground arith)
    ]

-- The order that `GetConvertOrder` returns names an axis once if its placements differ and not at
-- all otherwise.
pub get_convert_order-occurrences :
    (src dest : PlacementSeq)
    → length src ≡ length dest
    → All IsExclusive src
    → (order : List ℕ) × (get_convert_order src dest ≡ ok order)
      × ((j : ℕ) → occurrences j order ≡ to_nat (differs src dest j))
unfolding get_convert_order
get_convert_order-occurrences src dest size x =
    let loop = order_loop 0 src dest in
    (
      loop.1 ++ reverse loop.0,
      ground arith,
      λ j.
          let z : j - 0 ≡ j = omega arith in
          let both = order_loop-occurrences 0 j src dest x in
          occurrences-append j loop.1 (reverse loop.0)
          ∙ ground (arith, occurrences-reverse j loop.0, both, z),
    )
