-- ===== src/DeviceMesh/Construct.antt =====
-- What the constructor of an array of device ids guarantees, and ranks in it.
use Prim.Native.String.{String}
use dtorch.Base.{
  true≢false, ℕ, zero, suc, ◌+◌, ◌≤◌, ◌<◌, ◌≡◌, refl, sym, ap, ◌∙◌, subst, inl, inr, true, false,
  ◌&&◌, ◌||◌, some, List, [], ◌∷◌, arith, ltb, ◌==◌, ==_iff, ltb→lt, Bool-cases, length, get_elem?,
  ok, aborted, assert_that, throw_unless, >>=-eq-ok, assert_that-eq-ok, ok-injective,
}
use dtorch.Base.Int.{ℤ, pos, ◌-ℤ◌, ◌==ℤ◌, ==ℤ_iff, ==ℤ_refl}
use dtorch.Shape.{Shape, prod}
use dtorch.DeviceMesh.{SimpleArray, simple_array, has, to_set, rank_loop, get_rank_id, names_loop}

-- No id occurs twice.
abbrev pub IsNodup : List ℤ → Type 0
IsNodup [] = Unit
IsNodup (x ∷ xs) = (has x xs ≡ false) × IsNodup xs

length-to_set-le : (xs : List ℤ) → length (to_set xs) ≤ length xs
unfolding to_set
length-to_set-le [] = omega arith
length-to_set-le (x ∷ xs) = ground (arith, length-to_set-le xs)

has-to_set : (x : ℤ) (xs : List ℤ) → has x (to_set xs) ≡ has x xs
unfolding to_set has
has-to_set x [] = refl
has-to_set x (y ∷ ys) = ground (arith, has-to_set x ys, has-to_set y ys, ==ℤ_iff y x)

to_set-IsNodup : (xs : List ℤ) → length xs ≡ length (to_set xs) → IsNodup xs
unfolding to_set
to_set-IsNodup [] e = tt
to_set-IsNodup (x ∷ xs) e = elim (Bool-cases (has x (to_set xs))) [
  | inl dup ↦ absurd (ground (arith, dup, length-to_set-le xs))
  | inr new ↦ (sym (has-to_set x xs) ∙ new, to_set-IsNodup xs (ground (arith, new)))
]

-- The invariant of an array that was constructed.
pub record IsArray (a : SimpleArray) : Type 0 where
  pub filled : 0 < length a.items
  pub counted : prod a.shape (pos 0) (pos (length a.shape) -ℤ pos 1) ≡ ok (pos (length a.items))
  pub nodup : IsNodup a.items
  pub set_items : a.item_set ≡ to_set a.items

-- An array that the constructor returns has at least one item, as many items as the product of
-- its dimensions, no item twice, and the set of its items.
pub simple_array-IsArray :
    (shape : Shape) (items : List ℤ) (names : List String) {a : SimpleArray}
    → simple_array shape items names ≡ ok a
    → IsArray a
unfolding simple_array
simple_array-IsArray shape items names {a} h =
    let (_, filled, h₁) = >>=-eq-ok (assert_that (ltb 0 (length items))) _ h in
    let (total, counted, h₂) = >>=-eq-ok (prod shape (pos 0) (pos (length shape) -ℤ pos 1)) _ h₁ in
    let (_, same, h₃) = >>=-eq-ok (assert_that (total ==ℤ pos (length items))) _ h₂ in
    let (_, once, h₄) = >>=-eq-ok (assert_that (length items == length (to_set items))) _ h₃ in
    let (_, _, built) =
      >>=-eq-ok
        (throw_unless (
          length names == 0
          || (length shape == length names && length (names_loop 0 names []) == length names)))
        _ h₄ in
    let size : total ≡ pos (length items) =
      (==ℤ_iff total (pos (length items))).0 (assert_that-eq-ok _ same) in
    subst IsArray (ok-injective built) (record {
      filled = ltb→lt _ _ (assert_that-eq-ok _ filled);
      counted = counted ∙ ap ok size;
      nodup = to_set-IsNodup items ((==_iff _ _).0 (assert_that-eq-ok _ once));
      set_items = refl;
    })

has-get_elem? : (xs : List ℤ) (i : ℕ) {x : ℤ} → get_elem? xs i ≡ some x → has x xs ≡ true
unfolding has
has-get_elem? [] i h = cc
has-get_elem? (y ∷ ys) zero {x} h = let e : y ≡ x = cc in rw (e, ==ℤ_refl x)
has-get_elem? (y ∷ ys) (suc i) {x} h = ground (arith, has-get_elem? ys i h)

rank_loop-found :
    (start : ℕ) (xs : List ℤ) (i : ℕ) {x : ℤ}
    → IsNodup xs
    → get_elem? xs i ≡ some x
    → rank_loop start x xs ≡ ok (start + i)
unfolding rank_loop
rank_loop-found start [] i n h = cc
rank_loop-found start (y ∷ ys) zero {x} n h =
    let e : y ≡ x = cc in rw (e, ==ℤ_refl x) (ap ok {x = start} (omega arith))
rank_loop-found start (y ∷ ys) (suc i) {x} n h = elim (Bool-cases (x ==ℤ y)) [
  | inr e ↦ rw e (rank_loop-found (suc start) ys i n.1 h ∙ ap ok {x = suc start + i} (omega arith))
  | inl e ↦
      let same : x ≡ y = (==ℤ_iff x y).0 e in
      let there : has y ys ≡ true = ap (λ z. has z ys) (sym same) ∙ has-get_elem? ys i h in
      true≢false there n.0
]

rank_loop-absent :
    (start : ℕ) (xs : List ℤ) (x : ℤ) → has x xs ≡ false → rank_loop start x xs ≡ aborted
unfolding rank_loop has
rank_loop-absent start [] x h = refl
rank_loop-absent start (y ∷ ys) x h =
    ground (arith, rank_loop-absent (suc start) ys x, ==ℤ_iff x y, ==ℤ_iff y x)

-- In a constructed array the rank of the device at a position is that position, and an id that
-- is not in the array has no rank: the process ends.
pub get_rank_id-position :
    (a : SimpleArray)
    → IsArray a
    → ((i : ℕ) (x : ℤ) → get_elem? a.items i ≡ some x → get_rank_id x a.items ≡ ok i)
      × ((x : ℤ) → has x a.items ≡ false → get_rank_id x a.items ≡ aborted)
unfolding get_rank_id
get_rank_id-position a v = (
  λ i x h. rank_loop-found 0 a.items i v.nodup h ∙ ap ok {x = 0 + i} (omega arith),
  λ x h. rank_loop-absent 0 a.items x h,
)
