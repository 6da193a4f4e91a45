-- ===== src/Executor/Traversal.antt =====
-- The traversal sequence of a batch.
use mathlib.Core.List.{append-nil, append_assoc}
use dtorch.Base.{
  ℕ, suc, ◌+◌, ◌≡◌, refl, sym, ap, ◌∙◌, inl, inr, Bool, true, not, ◌&&◌, ◌||◌, List, [], ◌∷◌, ◌++◌,
  arith, ◌==◌, if◌then◌else◌, Bool-cases, length, length-append, ok, aborted,
}
use dtorch.Executor.{
  TraversalSequence, count_operator, insert_at, insert_after, from_vec_loop, from_vec,
}

abbrev pub distinct : List ℕ → Bool
distinct [] = true
distinct (x ∷ xs) = not (count_operator x xs) && distinct xs

abbrev absent : TraversalSequence → List ℕ → Bool
absent s [] = true
absent s (x ∷ xs) = not (count_operator x s) && absent s xs

insert_at-end : (s : TraversalSequence) (x : ℕ) → insert_at (length s) x s ≡ s ++ x ∷ []
insert_at-end [] x = refl
insert_at-end (y ∷ s) x = ap (◌∷◌ y) (insert_at-end s x)

count_operator-append :
    (y x : ℕ) (s : TraversalSequence)
    → count_operator y (s ++ x ∷ []) ≡ (count_operator y s || (x == y))
unfolding count_operator
count_operator-append y x [] = ground arith
count_operator-append y x (z ∷ s) = ground (arith, count_operator-append y x s)

absent-append :
    (x : ℕ) (s : TraversalSequence) (xs : List ℕ)
    → absent (s ++ x ∷ []) xs ≡ (absent s xs && not (count_operator x xs))
unfolding count_operator
absent-append x s [] = refl
absent-append x s (y ∷ xs) = ground (arith, absent-append x s xs, count_operator-append y x s)

-- The iterator of the last insertion, or the end of an empty list.
abbrev IsLast : TraversalSequence → ℕ → Type 0
IsLast s i = (if i == length s then i else i + 1) ≡ length s

from_vec_loop-append :
    (s : TraversalSequence) (i : ℕ) (xs : List ℕ)
    → IsLast s i
    → from_vec_loop s i xs ≡ (if absent s xs && distinct xs then ok (s ++ xs) else aborted)
unfolding from_vec_loop insert_after
from_vec_loop-append s i [] last = ap ok (sym (append-nil s))
from_vec_loop-append s i (x ∷ xs) last = elim (Bool-cases (count_operator x s)) [
  | inl there ↦ rw there refl
  | inr new ↦
      let size : length (s ++ x ∷ []) ≡ suc (length s) = omega (arith, length-append s (x ∷ [])) in
      let next : IsLast (s ++ x ∷ []) (length s) = rw size (ground arith) in
      let rest = from_vec_loop-append (s ++ x ∷ []) (length s) xs next in
      rw (new, last, insert_at-end)
        (rest ∙ rw (absent-append x s xs, append_assoc s (x ∷ []) xs) (ground arith))
]

absent-nil : (xs : List ℕ) → absent [] xs ≡ true
unfolding count_operator
absent-nil [] = refl
absent-nil (x ∷ xs) = absent-nil xs

-- `FromVec` keeps the operators in their order, if each is there once, and stops at an assertion
-- otherwise.
pub from_vec-distinct : (xs : List ℕ) → from_vec xs ≡ (if distinct xs then ok xs else aborted)
unfolding from_vec
from_vec-distinct xs = from_vec_loop-append [] 0 xs refl ∙ rw (absent-nil xs) refl
