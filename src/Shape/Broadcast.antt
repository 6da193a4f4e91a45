-- ===== src/Shape/Broadcast.antt =====
-- Broadcasting does not depend on the order of the two shapes: `CanBroadcastWith` and
-- `BroadcastOutputShape` of dtorch/api/cpp/shape.cc.
pub mod Join
pub mod Sizes
use dtorch.Base.{
  ℕ, zero, suc, ◌+◌, ◌-◌, ◌*◌, ◌/◌, ◌%◌, ◌^◌, ◌≤◌, ◌<◌, min, max, ◌≡◌, refl, sym, ap, ◌∙◌, subst,
  fun_ext, ◌≢◌, ◌↔◌, ◌⊎◌, inl, inr, Bool, true, false, not, ◌&&◌, ◌||◌, Option, none, some, List,
  [], ◌∷◌, ◌++◌, map, reverse, arith, ltb, leb, ◌==◌, if◌then◌else◌, ==_refl, ==_iff, ltb→lt,
  lt→ltb, leb→le, Bool-cases, Option-cases, and-eq-true, length, get_elem?, set, take, drop,
  replicate, All, sum, product, length-append, length-set, length-drop, length-take,
  length-replicate, length-map, get_elem?-set_ne, get_elem?-set_self, Outcome, ok, invalid_argument,
  aborted, ◌>>=◌, ◌>>◌, assert_that, throw_unless, of_option, >>=-eq-ok, assert_that-eq-ok,
  throw_unless-eq-ok, ok-injective,
}
use dtorch.Base.Int.{
  ℤ, pos, negsuc, pos_part, neg_part, sub_ℕ, ◌+ℤ◌, ◌-ℤ◌, ◌*ℤ◌, ◌≤ℤ◌, lt_ℤ, le_ℤ, ◌==ℤ◌, max_ℤ,
  to_size, ==ℤ_iff, ==ℤ_refl, max_ℤ_comm, pos-mul,
}
use dtorch.Shape.{
  Shape, compatible, all_compatible, can_broadcast_with, broadcast_dims, broadcast_output_shape,
}

compatible_comm : (a b : ℤ) → compatible a b ≡ compatible b a
compatible_comm a b = ground (arith, ==ℤ_iff a b, ==ℤ_iff b a)

all_compatible_comm : (as' bs : Shape) → all_compatible as' bs ≡ all_compatible bs as'
unfolding all_compatible
all_compatible_comm [] [] = refl
all_compatible_comm [] (b ∷ bs) = refl
all_compatible_comm (a ∷ as') [] = refl
all_compatible_comm (a ∷ as') (b ∷ bs) = rw (compatible_comm a b, all_compatible_comm as' bs)

-- Whether two shapes can be broadcast does not depend on their order.
pub can_broadcast_with_comm : (a b : Shape) → can_broadcast_with a b ≡ can_broadcast_with b a
unfolding can_broadcast_with
can_broadcast_with_comm a b =
    let e : min (length b) (length a) ≡ min (length a) (length b) = omega arith in
    rw (e, all_compatible_comm (drop (length b - min (length a) (length b)) b)) (ground arith)

pub broadcast_dims_comm : (as' bs : Shape) → broadcast_dims as' bs ≡ broadcast_dims bs as'
unfolding broadcast_dims
broadcast_dims_comm [] [] = refl
broadcast_dims_comm [] (b ∷ bs) = refl
broadcast_dims_comm (a ∷ as') [] = refl
broadcast_dims_comm (a ∷ as') (b ∷ bs) =
    rw (compatible_comm a b, broadcast_dims_comm as' bs, max_ℤ_comm a b)

-- The loops see the longer shape from its middle on.
pub broadcast_output_shape-longer :
    (a b : Shape)
    → 0 < length a
    → length a ≤ length b
    → broadcast_output_shape a b ≡ (
        broadcast_dims a (drop (length b - length a) b) >>= λ rest.
        ok (take (length b - length a) b ++ rest))
unfolding broadcast_output_shape
broadcast_output_shape-longer a b h k =
    let e : min (length a) (length b) ≡ length a = omega arith in
    let z : length a - length a ≡ 0 = omega arith in rw (e, z) (ground arith)

-- With the shorter shape second: the second of two branches when the sizes are equal.
broadcast_output_shape-shorter :
    (a b : Shape)
    → 0 < length a
    → length a ≤ length b
    → broadcast_output_shape b a ≡ (
        broadcast_dims (drop (length b - length a) b) a >>= λ rest.
        ok (take (length b - length a) b ++ rest))
unfolding broadcast_output_shape
broadcast_output_shape-shorter a b h k =
    let e : min (length b) (length a) ≡ length a = omega arith in
    let z : length a - length a ≡ 0 = omega arith in
    elim (Bool-cases (ltb (length a) (length b))) [
      | inl less ↦ rw (e, z) (ground arith)
      | inr same ↦ let q : length b - length a ≡ 0 = ground arith in rw (e, z, q) (ground arith)
    ]

pub broadcast_output_shape-scalar :
    (b : Shape) → (broadcast_output_shape [] b ≡ ok b) × (broadcast_output_shape b [] ≡ ok b)
unfolding broadcast_output_shape
broadcast_output_shape-scalar [] = (refl, refl)
broadcast_output_shape-scalar (x ∷ b) = (ground arith, ground arith)

comm_ordered :
    (a b : Shape)
    → 0 < length a
    → length a ≤ length b
    → broadcast_output_shape a b ≡ broadcast_output_shape b a
comm_ordered a b h k = rw (
  broadcast_output_shape-longer a b h k,
  broadcast_output_shape-shorter a b h k,
  broadcast_dims_comm a,
)

pub total : (m n : ℕ) → (m ≤ n) ⊎ (n ≤ m)
total m n = omega arith

-- The broadcast shape does not depend on the order, also where the assertion fails.
pub broadcast_output_shape_comm :
    (a b : Shape) → broadcast_output_shape a b ≡ broadcast_output_shape b a
broadcast_output_shape_comm [] b =
    (broadcast_output_shape-scalar b).0 ∙ sym (broadcast_output_shape-scalar b).1
broadcast_output_shape_comm (x ∷ a) [] =
    (broadcast_output_shape-scalar (x ∷ a)).1 ∙ sym (broadcast_output_shape-scalar (x ∷ a)).0
broadcast_output_shape_comm (x ∷ a) (y ∷ b) = elim (total (length (x ∷ a)) (length (y ∷ b))) [
  | inl h ↦ comm_ordered (x ∷ a) (y ∷ b) (omega arith) h
  | inr h ↦ sym (comm_ordered (y ∷ b) (x ∷ a) (omega arith) h)
]

broadcast_dims-all_compatible :
    (a b : Shape)
    → (all_compatible a b ≡ false → broadcast_dims a b ≡ aborted)
      × (all_compatible a b ≡ true → (c : Shape) × (broadcast_dims a b ≡ ok c))
unfolding broadcast_dims all_compatible
broadcast_dims-all_compatible [] b = (λ h. cc, λ h. ([], refl))
broadcast_dims-all_compatible (x ∷ a) [] = (λ h. cc, λ h. ([], refl))
broadcast_dims-all_compatible (x ∷ a) (y ∷ b) =
    let ih = broadcast_dims-all_compatible a b in
    elim (Bool-cases (compatible x y)) [
      | inl e ↦ (
        λ h. rw (e, ih.0 (rw e at h)),
        λ h. let (c, q) = ih.1 (rw e at h) in (max_ℤ x y ∷ c, rw (e, q)),
      )
      | inr e ↦ (λ h. rw e, λ h. let no : false ≡ true = rw e at h in cc)
    ]

-- The test and the construction agree: a broadcast shape is returned if `CanBroadcastWith` holds,
-- and the construction's assertion fails if it does not.
pub can_broadcast_with-broadcast_output_shape :
    (a b : Shape)
    → (can_broadcast_with a b ≡ true → (c : Shape) × (broadcast_output_shape a b ≡ ok c))
      × (can_broadcast_with a b ≡ false → broadcast_output_shape a b ≡ aborted)
unfolding can_broadcast_with broadcast_output_shape
can_broadcast_with-broadcast_output_shape [] b = (λ h. (b, refl), λ h. cc)
can_broadcast_with-broadcast_output_shape (x ∷ a) [] =
    (λ h. (x ∷ a, ground arith), λ h. absurd (ground arith))
can_broadcast_with-broadcast_output_shape (x ∷ a) (y ∷ b) =
    let n = min (length (x ∷ a)) (length (y ∷ b)) in
    let one = length (x ∷ a) - n in
    let other = length (y ∷ b) - n in
    let (stops, goes) = broadcast_dims-all_compatible (drop one (x ∷ a)) (drop other (y ∷ b)) in
    (
      λ h.
          let (c, q) = goes (ground arith) in
          elim (Bool-cases (ltb (length (y ∷ b)) (length (x ∷ a)))) [
            | inl e ↦ (take one (x ∷ a) ++ c, ground (arith, q, e))
            | inr e ↦ (take other (y ∷ b) ++ c, ground (arith, q, e))
          ],
      λ h. ground (arith, stops (ground arith)),
    )
