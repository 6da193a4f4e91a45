-- ===== src/Base/Keys.antt =====
-- Sets and maps whose keys are addresses, as functions: an address is a native number.
use mathlib.Core.Path.{◌≡◌, refl, sym, ap, ◌∙◌, subst, fun_ext}
use mathlib.Core.Logic.{◌≢◌}
use mathlib.Core.Bool.{Bool, true, false, ◌||◌}
use mathlib.Core.Option.{Option, none, some}
use mathlib.Core.List.{List, [], ◌∷◌, ◌++◌}
use Prim.Native.Nat.{ℕ, ◌+◌, ◌-◌}
use native.Mathlib.Omega.{arith}
use dtorch.Base.Tests.{◌==◌, if◌then◌else◌}

abbrev pub Keys : Type 0
Keys = ℕ → Bool

abbrev pub insert : ℕ → Keys → Keys
insert x s = λ y. if x == y then true else s y

abbrev pub erase : ℕ → Keys → Keys
erase x s = λ y. if x == y then false else s y

abbrev pub insert_all : List ℕ → Keys → Keys
insert_all [] s = s
insert_all (x ∷ xs) s = insert_all xs (insert x s)

abbrev pub erase_all : List ℕ → Keys → Keys
erase_all [] s = s
erase_all (x ∷ xs) s = erase_all xs (erase x s)

-- Keys that can be inserted one after the other, each new; and keys that can be erased.
abbrev pub AllNew : Keys → List ℕ → Type 0
AllNew s [] = Unit
AllNew s (x ∷ xs) = (s x ≡ false) × AllNew (insert x s) xs

abbrev pub AllErasable : Keys → List ℕ → Type 0
AllErasable s [] = Unit
AllErasable s (x ∷ xs) = (s x ≡ true) × AllErasable (erase x s) xs

abbrev pub is_some {ℓ} : {A : Type ℓ} → Option A → Bool
is_some none = false
is_some (some a) = true

abbrev pub member : ℕ → List ℕ → Bool
member x [] = false
member x (y ∷ ys) = (y == x) || member x ys

-- A count for each key.
abbrev pub bump : ℕ → (ℕ → ℕ) → ℕ → ℕ
bump x n = λ y. if x == y then n y + 1 else n y

abbrev pub bump_all : List ℕ → (ℕ → ℕ) → ℕ → ℕ
bump_all [] n = n
bump_all (x ∷ xs) n = bump_all xs (bump x n)

abbrev pub lower : ℕ → (ℕ → ℕ) → ℕ → ℕ
lower x n = λ y. if x == y then n y - 1 else n y

-- The keys of a map, and a write.
abbrev pub keys {ℓ} : {A : Type ℓ} → (ℕ → Option A) → Keys
keys m = λ x. is_some (m x)

abbrev pub update {ℓ} : {A : Type ℓ} → ℕ → Option A → (ℕ → Option A) → ℕ → Option A
update x v m = λ y. if x == y then v else m y

pub keys-update-some {ℓ} :
    {A : Type ℓ} (x : ℕ) (a : A) (m : ℕ → Option A) → keys (update x (some a) m) ≡ insert x (keys m)
keys-update-some x a m = fun_ext (λ y. ground arith)

pub keys-update-none {ℓ} :
    {A : Type ℓ} (x : ℕ) (m : ℕ → Option A) → keys (update x none m) ≡ erase x (keys m)
keys-update-none x m = fun_ext (λ y. ground arith)

pub insert-erase_comm :
    (x y : ℕ) (s : Keys) → s x ≡ true → s y ≡ false → erase x (insert y s) ≡ insert y (erase x s)
insert-erase_comm x y s h k = fun_ext (λ z. ground (arith, ap s {x = x} {y = y}))

pub update_comm {ℓ} :
    {A : Type ℓ} (x y : ℕ) (a b : Option A) (m : ℕ → Option A)
    → x ≢ y
    → update x a (update y b m) ≡ update y b (update x a m)
update_comm x y a b m h = fun_ext (λ z. ground arith)

pub insert_all-append :
    (xs : List ℕ) (y : ℕ) (s : Keys) → insert_all (xs ++ y ∷ []) s ≡ insert y (insert_all xs s)
insert_all-append [] y s = refl
insert_all-append (x ∷ xs) y s = insert_all-append xs y (insert x s)

pub erase_all-append :
    (xs : List ℕ) (y : ℕ) (s : Keys) → erase_all (xs ++ y ∷ []) s ≡ erase y (erase_all xs s)
erase_all-append [] y s = refl
erase_all-append (x ∷ xs) y s = erase_all-append xs y (erase x s)

-- What is left after erasing was there before.
pub erase_all-eq_true : (xs : List ℕ) (y : ℕ) (s : Keys) → erase_all xs s y ≡ true → s y ≡ true
erase_all-eq_true [] y s h = h
erase_all-eq_true (x ∷ xs) y s h = let k = erase_all-eq_true xs y (erase x s) h in ground arith

pub AllErasable-append :
    (xs : List ℕ) (y : ℕ) (s : Keys)
    → AllErasable s xs
    → erase_all xs s y ≡ true
    → AllErasable s (xs ++ y ∷ [])
AllErasable-append [] y s h k = (k, tt)
AllErasable-append (x ∷ xs) y s (h, hs) k = (h, AllErasable-append xs y (erase x s) hs k)

-- A new key and the keys that wait to be erased do not meet.
pub erase_all-insert :
    (xs : List ℕ) (y : ℕ) (s : Keys)
    → AllErasable s xs
    → s y ≡ false
    → (erase_all xs (insert y s) ≡ insert y (erase_all xs s)) × AllErasable (insert y s) xs
erase_all-insert [] y s h k = (refl, tt)
erase_all-insert (x ∷ xs) y s (h, hs) k =
    let e = insert-erase_comm x y s h k in
    let gone : erase x s y ≡ false = ground arith in
    let (same, left) = erase_all-insert xs y (erase x s) hs gone in
    (ap (erase_all xs) e ∙ same, (ground arith, subst (λ z. AllErasable z xs) (sym e) left))

pub erase_all-insert_all :
    (xs ys : List ℕ) (s : Keys)
    → AllErasable s xs
    → AllNew s ys
    → (erase_all xs (insert_all ys s) ≡ insert_all ys (erase_all xs s))
      × AllErasable (insert_all ys s) xs
erase_all-insert_all xs [] s h k = (refl, h)
erase_all-insert_all xs (y ∷ ys) s h (k, ks) =
    let (same, left) = erase_all-insert xs y s h k in
    let (rest, last) = erase_all-insert_all xs ys (insert y s) left ks in
    (rest ∙ ap (insert_all ys) same, last)
