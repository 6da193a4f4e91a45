-- ===== src/Shape/Broadcast/Sizes.antt =====
-- The sizes of a broadcast shape, dimension by dimension: `BroadcastOutputShape` of
-- dtorch/api/cpp/shape.cc.
use dtorch.Base.{
  ℕ, zero, suc, ◌+◌, ◌-◌, ◌≤◌, ◌<◌, max, ◌≡◌, refl, sym, ap, ◌∙◌, subst, ◌⊎◌, inl, inr, true, some,
  List, [], ◌∷◌, ◌++◌, arith, Bool-cases, length, get_elem?, take, drop, ok, assert_that, >>=-eq-ok,
  assert_that-eq-ok, ok-injective,
}
use dtorch.Base.{lengths}
use dtorch.Base.Int.{ℤ, pos, ◌==ℤ◌, max_ℤ, ==ℤ_iff, max_ℤ_comm}
use dtorch.Shape.{Shape, compatible, broadcast_dims, broadcast_output_shape}
use dtorch.Shape.Broadcast.Join.{broadcast_dims-length}
use dtorch.Shape.Broadcast.{
  broadcast_output_shape-longer, broadcast_output_shape-scalar, broadcast_output_shape_comm, total,
}

pub get_elem?-drop {ℓ} :
    {A : Type ℓ} (n i : ℕ) (xs : List A) → get_elem? (drop n xs) i ≡ get_elem? xs (n + i)
get_elem?-drop zero i xs = let e : i ≡ 0 + i = omega arith in ap (get_elem? xs) e
get_elem?-drop (suc n) i [] = refl
get_elem?-drop (suc n) i (x ∷ xs) =
    let e : suc (n + i) ≡ suc n + i = omega arith in
    get_elem?-drop n i xs ∙ ap (get_elem? (x ∷ xs)) e

-- In front of the cut, and behind it.
get_elem?-take_append_front {ℓ} :
    {A : Type ℓ} (n i : ℕ) (xs ys : List A)
    → n ≤ length xs
    → i < n
    → get_elem? (take n xs ++ ys) i ≡ get_elem? xs i
get_elem?-take_append_front zero i xs ys h k = absurd (omega arith)
get_elem?-take_append_front (suc n) i [] ys h k = absurd (omega arith)
get_elem?-take_append_front (suc n) zero (x ∷ xs) ys h k = refl
get_elem?-take_append_front (suc n) (suc i) (x ∷ xs) ys h k =
    get_elem?-take_append_front n i xs ys (omega arith) (omega arith)

get_elem?-take_append_back {ℓ} :
    {A : Type ℓ} (n i : ℕ) (xs ys : List A)
    → n ≤ length xs
    → get_elem? (take n xs ++ ys) (n + i) ≡ get_elem? ys i
get_elem?-take_append_back zero i xs ys h = let e : 0 + i ≡ i = omega arith in ap (get_elem? ys) e
get_elem?-take_append_back (suc n) i [] ys h = absurd (omega arith)
get_elem?-take_append_back (suc n) i (x ∷ xs) ys h =
    let e : suc n + i ≡ suc (n + i) = omega arith in
    ap (get_elem? (x ∷ (take n xs ++ ys))) e ∙ get_elem?-take_append_back n i xs ys (omega arith)

-- Two sizes that go together: the same, or one of them is one.
abbrev pub GoTogether : ℤ → ℤ → Type 0
GoTogether x y = (x ≡ y) ⊎ ((x ≡ pos 1) ⊎ (y ≡ pos 1))

compatible-GoTogether : (x y : ℤ) → compatible x y ≡ true → GoTogether x y
compatible-GoTogether x y h = elim (Bool-cases (x ==ℤ pos 1)) [
  | inl e ↦ inr (inl ((==ℤ_iff x (pos 1)).0 e))
  | inr e ↦ elim (Bool-cases (y ==ℤ pos 1)) [
    | inl f ↦ inr (inr ((==ℤ_iff y (pos 1)).0 f))
    | inr f ↦ inl ((==ℤ_iff x y).0 (rw (e, f) at h))
  ]
]

broadcast_dims-get_elem? :
    (a b : Shape) (i : ℕ) (x y : ℤ) {r : Shape}
    → broadcast_dims a b ≡ ok r
    → get_elem? a i ≡ some x
    → get_elem? b i ≡ some y
    → (get_elem? r i ≡ some (max_ℤ x y)) × GoTogether x y
unfolding broadcast_dims
broadcast_dims-get_elem? [] b i x y h p q = cc
broadcast_dims-get_elem? (u ∷ a) [] i x y h p q = cc
broadcast_dims-get_elem? (u ∷ a) (v ∷ b) zero x y {r} h p q =
    let (t, c, h') = >>=-eq-ok (assert_that (compatible u v)) _ h in
    let (rest, e, z) = >>=-eq-ok (broadcast_dims a b) _ h' in
    let px : u ≡ x = cc in
    let qy : v ≡ y = cc in
    (
      ap (λ s. get_elem? s 0) (sym (ok-injective z))
          ∙ ap (λ w. some (max_ℤ w v)) px
          ∙ ap (λ w. some (max_ℤ x w)) qy,
      subst (λ w. GoTogether w y) px
          (subst (GoTogether u) qy
            (compatible-GoTogether u v (assert_that-eq-ok (compatible u v) c))),
    )
broadcast_dims-get_elem? (u ∷ a) (v ∷ b) (suc i) x y {r} h p q =
    let (t, c, h') = >>=-eq-ok (assert_that (compatible u v)) _ h in
    let (rest, e, z) = >>=-eq-ok (broadcast_dims a b) _ h' in
    let (value, fit) = broadcast_dims-get_elem? a b i x y e p q in
    (ap (λ s. get_elem? s (suc i)) (sym (ok-injective z)) ∙ value, fit)

-- The sizes of `c`: those of one shape where the other has no dimension, counted from the end,
-- and the larger of the two, which go together, where both have one.
pub record HasSizes (a b c : Shape) : Type 0 where
  pub axes : length c ≡ max (length a) (length b)
  pub left_alone : (i : ℕ) → i < length a - length b → get_elem? c i ≡ get_elem? a i
  pub right_alone : (i : ℕ) → i < length b - length a → get_elem? c i ≡ get_elem? b i
  pub both :
      (i : ℕ) (x y : ℤ)
      → get_elem? a (i + (length a - length b)) ≡ some x
      → get_elem? b (i + (length b - length a)) ≡ some y
      → (get_elem? c (i + (length b - length a) + (length a - length b)) ≡ some (max_ℤ x y))
        × GoTogether x y

module _ (a b : Shape) (h : 0 < length a) (k : length a ≤ length b) where
  HasSizes-rest :
      (rest : Shape)
      → broadcast_dims a (drop (length b - length a) b) ≡ ok rest
      → HasSizes a b (take (length b - length a) b ++ rest)
  HasSizes-rest rest run =
      let n = length b - length a in
      let fits : n ≤ length b = omega arith in
      let size = broadcast_dims-length a (drop n b) run in
      record {
        axes = grind lengths;
        left_alone = λ i less. absurd (omega arith);
        right_alone = λ i less. get_elem?-take_append_front n i b rest fits less;
        both = λ i x y p q.
            let zero_left : length a - length b ≡ 0 = omega arith in
            let index : i + n + (length a - length b) ≡ n + i = omega arith in
            let here : i + (length a - length b) ≡ i = omega arith in
            let there : n + i ≡ i + n = omega arith in
            let (value, fit) =
              broadcast_dims-get_elem? a (drop n b) i x y run (rw here at p)
                (get_elem?-drop n i b ∙ ap (get_elem? b) there ∙ q) in
            (rw index (get_elem?-take_append_back n i b rest fits ∙ value), fit);
      }

together-swap : (x y : ℤ) → GoTogether x y → GoTogether y x
together-swap x y (inl e) = inl (sym e)
together-swap x y (inr (inl e)) = inr (inr e)
together-swap x y (inr (inr e)) = inr (inl e)

pub HasSizes-comm : (a b c : Shape) → HasSizes a b c → HasSizes b a c
HasSizes-comm a b c s = record {
  axes = omega (arith, s.axes);
  left_alone = s.right_alone;
  right_alone = s.left_alone;
  both = λ i y x q p.
      let e : i + (length a - length b) + (length b - length a)
          ≡ i + (length b - length a) + (length a - length b) =
        omega arith in
      let (value, fit) = s.both i x y p q in
      (ap (get_elem? c) e ∙ value ∙ ap some (max_ℤ_comm x y), together-swap x y fit);
}

HasSizes-ordered :
    (a b : Shape)
    → length a ≤ length b
    → {c : Shape} → broadcast_output_shape a b ≡ ok c
    → HasSizes a b c
HasSizes-ordered [] b k run =
    subst (HasSizes [] b) (ok-injective (sym (broadcast_output_shape-scalar b).0 ∙ run)) (record {
      axes = omega arith;
      left_alone = λ i less. absurd (omega arith);
      right_alone = λ i less. refl;
      both = λ i x y p q. cc;
    })
HasSizes-ordered (x ∷ a) b k run =
    let n = length b - length (x ∷ a) in
    let start = sym (broadcast_output_shape-longer (x ∷ a) b (omega arith) k) ∙ run in
    let (rest, e, q) = >>=-eq-ok (broadcast_dims (x ∷ a) (drop n b)) _ start in
    subst (HasSizes (x ∷ a) b) (ok-injective q) (HasSizes-rest (x ∷ a) b (omega arith) k rest e)

-- A broadcast shape has as many dimensions as the longer of its two shapes, each of the size that
-- one shape has where the other has no dimension, and of the larger of two sizes where both have
-- one, dimensions being counted from the end; two such sizes are equal or one of them is one.
pub broadcast_output_shape-HasSizes :
    (a b : Shape) {c : Shape} → broadcast_output_shape a b ≡ ok c → HasSizes a b c
broadcast_output_shape-HasSizes a b {c} run = elim (total (length a) (length b)) [
  | inl h ↦ HasSizes-ordered a b h run
  | inr h ↦ HasSizes-comm b a c (HasSizes-ordered b a h (broadcast_output_shape_comm b a ∙ run))
]
