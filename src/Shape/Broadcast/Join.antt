-- ===== src/Shape/Broadcast/Join.antt =====
-- The broadcast shape is a join: it absorbs both shapes that it comes from.
use dtorch.Base.{
  lengths, ℕ, zero, suc, ◌-◌, ◌≤◌, ◌<◌, min, max, ◌≡◌, refl, sym, ap, ◌∙◌, subst, inl, inr, true,
  List, [], ◌∷◌, ◌++◌, arith, length, take, drop, length-drop, ok, assert_that, >>=-eq-ok,
  assert_that-eq-ok, ok-injective,
}
use dtorch.Base.Int.{ℤ, max_ℤ, ==ℤ_iff}
use dtorch.Shape.{Shape, compatible, broadcast_dims, broadcast_output_shape}
use dtorch.Shape.Broadcast.{
  broadcast_dims_comm, broadcast_output_shape-longer, broadcast_output_shape-scalar,
  broadcast_output_shape_comm, total,
}

drop-zero {ℓ} : {A : Type ℓ} (n m : ℕ) (xs : List A) → n ≤ m → drop (n - m) xs ≡ xs
drop-zero n m xs h = let z : n - m ≡ 0 = omega arith in rw z

take-zero {ℓ} : {A : Type ℓ} (n m : ℕ) (xs : List A) → n ≤ m → take (n - m) xs ≡ []
take-zero n m xs h = let z : n - m ≡ 0 = omega arith in rw z

compatible-max : (a b : ℤ) → compatible a b ≡ true → compatible a (max_ℤ a b) ≡ true
compatible-max a b h = ground (arith, ==ℤ_iff a b, ==ℤ_iff a (max_ℤ a b))

max-max : (a b : ℤ) → max_ℤ a (max_ℤ a b) ≡ max_ℤ a b
max-max a b = ground arith

broadcast_dims-absorb :
    (a b : Shape) {r : Shape} → broadcast_dims a b ≡ ok r → broadcast_dims a r ≡ ok r
unfolding broadcast_dims
broadcast_dims-absorb [] b h = ground arith
broadcast_dims-absorb (x ∷ a) [] h = ground arith
broadcast_dims-absorb (x ∷ a) (y ∷ b) {r} h =
    let (u, c, h') = >>=-eq-ok (assert_that (compatible x y)) _ h in
    let (rest, e, q) = >>=-eq-ok (broadcast_dims a b) _ h' in
    let keep = compatible-max x y (assert_that-eq-ok _ c) in
    rw (← ok-injective q)
      (rw (keep, broadcast_dims-absorb a b e) (ap (λ m. ok (m ∷ rest)) (max-max x y)))

pub broadcast_dims-length :
    (a b : Shape) {r : Shape} → broadcast_dims a b ≡ ok r → length r ≡ min (length a) (length b)
unfolding broadcast_dims
broadcast_dims-length [] b {r} h = rw (← ok-injective h) (omega arith)
broadcast_dims-length (x ∷ a) [] {r} h = rw (← ok-injective h) (omega arith)
broadcast_dims-length (x ∷ a) (y ∷ b) {r} h =
    let (u, c, h') = >>=-eq-ok (assert_that (compatible x y)) _ h in
    let (rest, e, q) = >>=-eq-ok (broadcast_dims a b) _ h' in
    rw (← ok-injective q) (omega (arith, broadcast_dims-length a b e))

compatible_refl : (a : ℤ) → compatible a a ≡ true
compatible_refl a = ground (arith, ==ℤ_iff a a)

max_self : (a : ℤ) → max_ℤ a a ≡ a
max_self a = ground arith

-- The leading dimensions of the longer shape meet themselves.
broadcast_dims-prefix :
    (k : ℕ) (b r : Shape)
    → broadcast_dims (drop k b) r ≡ ok r
    → broadcast_dims b (take k b ++ r) ≡ ok (take k b ++ r)
unfolding broadcast_dims
broadcast_dims-prefix zero b r h = h
broadcast_dims-prefix (suc k) [] r h = h
broadcast_dims-prefix (suc k) (x ∷ b) r h =
    rw (compatible_refl x, max_self x, broadcast_dims-prefix k b r h)

drop-take-append {ℓ} :
    {A : Type ℓ} (k : ℕ) (b r : List A) → k ≤ length b → drop k (take k b ++ r) ≡ r
drop-take-append zero b r h = refl
drop-take-append (suc k) [] r h = absurd (omega arith)
drop-take-append (suc k) (x ∷ b) r h = drop-take-append k b r (omega arith)

take-take-append {ℓ} :
    {A : Type ℓ} (k : ℕ) (b r : List A) → k ≤ length b → take k (take k b ++ r) ≡ take k b
take-take-append zero b r h = refl
take-take-append (suc k) [] r h = absurd (omega arith)
take-take-append (suc k) (x ∷ b) r h = ap (◌∷◌ x) (take-take-append k b r (omega arith))

-- What the broadcast shape `c` of `a` and `b` is to them.
pub record IsJoin (a b c : Shape) : Type 0 where
  pub left : broadcast_output_shape a c ≡ ok c
  pub right : broadcast_output_shape b c ≡ ok c
  pub axes : length c ≡ max (length a) (length b)

module _ (a b rest : Shape) (h : 0 < length a) (k : length a ≤ length b) where
  abbrev joined : Shape
  joined = take (length b - length a) b ++ rest

  IsJoin-parts :
      length rest ≡ length a
      → broadcast_dims a rest ≡ ok rest
      → broadcast_dims (drop (length b - length a) b) rest ≡ ok rest
      → IsJoin a b joined
  IsJoin-parts size left right =
      let n = length b - length a in
      let fits : n ≤ length b = omega arith in
      let whole : length joined ≡ length b = grind lengths in
      record {
        left =
            broadcast_output_shape-longer a joined h (omega arith)
            ∙ rw (whole, drop-take-append n b rest fits, left, take-take-append n b rest fits);
        right =
            broadcast_output_shape-longer b joined (omega arith) (omega arith)
            ∙ rw (
              whole,
              drop-zero (length b) (length b) joined (omega arith),
              broadcast_dims-prefix n b rest right,
              take-zero (length b) (length b) joined (omega arith),
            );
        axes = omega arith;
      }

IsJoin-ordered :
    (a b : Shape)
    → 0 < length a
    → length a ≤ length b
    → {c : Shape} → broadcast_output_shape a b ≡ ok c
    → IsJoin a b c
IsJoin-ordered a b h k {c} run =
    let n = length b - length a in
    let start = sym (broadcast_output_shape-longer a b h k) ∙ run in
    let (rest, e, q) = >>=-eq-ok (broadcast_dims a (drop n b)) _ start in
    let size : length rest ≡ length a =
      broadcast_dims-length a (drop n b) e ∙ omega (arith, length-drop n b) in
    subst (IsJoin a b) (ok-injective q) (
      IsJoin-parts a b rest h k size (broadcast_dims-absorb a (drop n b) e)
        (broadcast_dims-absorb (drop n b) a (broadcast_dims_comm (drop n b) a ∙ e)))

broadcast_dims_self : (a : Shape) → broadcast_dims a a ≡ ok a
unfolding broadcast_dims
broadcast_dims_self [] = refl
broadcast_dims_self (x ∷ a) = rw (compatible_refl x, broadcast_dims_self a, max_self x)

broadcast_output_shape_self : (a : Shape) → broadcast_output_shape a a ≡ ok a
broadcast_output_shape_self [] = (broadcast_output_shape-scalar []).0
broadcast_output_shape_self (x ∷ a) =
    let n = length (x ∷ a) in
    broadcast_output_shape-longer (x ∷ a) (x ∷ a) (omega arith) (omega arith)
    ∙ rw (
      drop-zero n n (x ∷ a) (omega arith),
      broadcast_dims_self (x ∷ a),
      take-zero n n (x ∷ a) (omega arith),
    )

-- If two shapes broadcast to `c`, then each of them broadcasts with `c` to `c` itself, and `c`
-- has as many dimensions as the longer of the two.
pub broadcast_output_shape-IsJoin :
    (a b : Shape) {c : Shape} → broadcast_output_shape a b ≡ ok c → IsJoin a b c
broadcast_output_shape-IsJoin [] b {c} run =
    let e : b ≡ c = ok-injective (sym (broadcast_output_shape-scalar b).0 ∙ run) in
    subst (IsJoin [] b) e (record {
      left = (broadcast_output_shape-scalar b).0;
      right = broadcast_output_shape_self b;
      axes = omega arith;
    })
broadcast_output_shape-IsJoin (x ∷ a) [] {c} run =
    let e : x ∷ a ≡ c = ok-injective (sym (broadcast_output_shape-scalar (x ∷ a)).1 ∙ run) in
    subst (IsJoin (x ∷ a) []) e (record {
      left = broadcast_output_shape_self (x ∷ a);
      right = (broadcast_output_shape-scalar (x ∷ a)).0;
      axes = omega arith;
    })
broadcast_output_shape-IsJoin (x ∷ a) (y ∷ b) {c} run =
    elim (total (length (x ∷ a)) (length (y ∷ b))) [
      | inl h ↦ IsJoin-ordered (x ∷ a) (y ∷ b) (omega arith) h run
      | inr h ↦
          let j =
            IsJoin-ordered (y ∷ b) (x ∷ a) (omega arith) h
              (broadcast_output_shape_comm (y ∷ b) (x ∷ a) ∙ run) in
          record { left = j.right; right = j.left; axes = omega (arith, j.axes) }
    ]
