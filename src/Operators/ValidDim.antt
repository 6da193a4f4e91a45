-- ===== src/Operators/ValidDim.antt =====
-- `GetValidDim` of dtorch/core/operators/operator.cc.
use dtorch.Base.{
  ℕ, suc, ◌-◌, ◌≤◌, ◌<◌, ◌≡◌, refl, ◌∙◌, true, arith, ltb, leb, if◌then◌else◌, lt→ltb, length, ok,
  invalid_argument,
}
use dtorch.Base.Int.{pos, negsuc, ◌+ℤ◌}
use dtorch.Shape.{Shape}
use dtorch.Operators.{get_valid_dim}

-- A dimension from the front is taken up to the number of dimensions itself, one from the end
-- down to minus that number; any other throws.
pub get_valid_dim-cases :
    (shape : Shape) (n : ℕ)
    → (get_valid_dim shape (pos n) ≡ (if leb n (length shape) then ok n else invalid_argument))
      × (get_valid_dim shape (negsuc n)
          ≡ (if ltb n (length shape) then ok (length shape - suc n) else invalid_argument))
unfolding get_valid_dim ◌+ℤ◌
get_valid_dim-cases shape n = (ground arith, ground arith)

-- Where the index is in range.
pub get_valid_dim-front :
    (shape : Shape) (n : ℕ) → n ≤ length shape → get_valid_dim shape (pos n) ≡ ok n
get_valid_dim-front shape n h =
    let test : leb n (length shape) ≡ true = ground arith in
    (get_valid_dim-cases shape n).0 ∙ rw test refl

pub get_valid_dim-back :
    (shape : Shape) (n : ℕ)
    → n < length shape
    → get_valid_dim shape (negsuc n) ≡ ok (length shape - suc n)
get_valid_dim-back shape n h = (get_valid_dim-cases shape n).1 ∙ rw (lt→ltb n (length shape) h) refl
