-- ===== src/Base/Results.antt =====
-- The result of code that may fail: a value, a `std::invalid_argument` that is thrown, or the
-- end of the process by an assertion (`DAlwaysAssert`, and `DDebugAssert` in a debug build), by
-- `DUnimplemented` or by a division by zero.
use mathlib.Core.Path.{◌≡◌, refl}
use mathlib.Core.Bool.{Bool, true, false}
use mathlib.Core.Option.{Option, none, some}

pub data Outcome {ℓ} (A : Type ℓ) : Type ℓ where
  ok : A → Outcome A
  invalid_argument : Outcome A
  aborted : Outcome A

module _ {ℓ κ} {A : Type ℓ} {B : Type κ} where
  infixl 5 ◌>>=◌
  -- Statements in sequence: the first that throws or aborts is the last.
  abbrev pub ◌>>=◌ : Outcome A → (A → Outcome B) → Outcome B
  aborted >>= next = aborted
  invalid_argument >>= next = invalid_argument
  ok value >>= next = next value

  -- Where a sequence returned, so did its first statement.
  pub >>=-eq-ok :
      (run : Outcome A) (next : A → Outcome B) {b : B}
      → (run >>= next) ≡ ok b
      → (value : A) × (run ≡ ok value) × (next value ≡ ok b)
  >>=-eq-ok aborted next returned = cc
  >>=-eq-ok invalid_argument next returned = cc
  >>=-eq-ok (ok value) next returned = (value, refl, returned)

-- A statement without a value.
infixl 5 ◌>>◌
abbrev pub ◌>>◌ {κ} : {B : Type κ} → Outcome (Unit {0}) → Outcome B → Outcome B
check >> next = check >>= λ done. next

-- An assertion, and a check that throws.
abbrev pub assert_that : Bool → Outcome (Unit {0})
assert_that true = ok tt
assert_that false = aborted

abbrev pub throw_unless : Bool → Outcome (Unit {0})
throw_unless true = ok tt
throw_unless false = invalid_argument

-- A read through an index that must be in range.
abbrev pub of_option {ℓ} : {A : Type ℓ} → Option A → Outcome A
of_option none = aborted
of_option (some a) = ok a

-- What an assertion and a check that passed have tested.
pub assert_that-eq-ok : (b : Bool) {u : Unit {0}} → assert_that b ≡ ok u → b ≡ true
assert_that-eq-ok true h = refl
assert_that-eq-ok false h = cc

pub throw_unless-eq-ok : (b : Bool) {u : Unit {0}} → throw_unless b ≡ ok u → b ≡ true
throw_unless-eq-ok true h = refl
throw_unless-eq-ok false h = cc

pub ok-injective {ℓ} : {A : Type ℓ} {a b : A} → ok a ≡ ok b → a ≡ b
ok-injective h = cc
