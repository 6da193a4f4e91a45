-- ===== src/Operators/Concat.antt =====
-- `ConcatOp`: dtorch/core/operators/standard/concat_op.cc.
use dtorch.Base.{
  ℕ, ◌+◌, ◌^◌, ◌<◌, ◌≡◌, refl, sym, ap, ◌∙◌, ◌≢◌, true, Option, none, some, List, [], ◌∷◌, arith,
  and-eq-true, length, get_elem?, set, All, sum, length-set, get_elem?-set_ne, get_elem?-set_self,
  Outcome, ok, ◌>>=◌, ◌>>◌, throw_unless, >>=-eq-ok, throw_unless-eq-ok, ok-injective,
}
use dtorch.Base.Int.{ℤ, ◌==ℤ◌, to_size, ==ℤ_iff}
use dtorch.Shape.{Shape, ◌==ₛ◌}
use dtorch.Stride.{wrap}
use dtorch.Operators.Rows.{write_dim-eq-ok, read_dim-eq-ok}
use dtorch.Operators.{get_valid_dim, read_dim, write_dim, to_signed}

-- The loop over the inputs behind the first: the sum of the sizes, in a `size_t`.
unfoldable pub concat_loop : Shape → ℕ → ℤ → ℕ → List Shape → Outcome ℕ
concat_loop first dim size sum [] = ok sum
concat_loop first dim size sum (s ∷ shapes) = do
  d ← read_dim s dim
  same ← write_dim s dim size
  throw_unless (same ==ₛ first)
  concat_loop first dim size (wrap (sum + to_size d)) shapes

-- `InferOutputMetaInfo`, of the first input and the others.
unfoldable pub concat_shape : Shape → List Shape → ℤ → Outcome Shape
concat_shape first shapes dim = do
  v ← get_valid_dim first dim
  size ← read_dim first v
  sum ← concat_loop first v size (wrap (to_size size)) shapes
  write_dim first v (to_signed sum)

==ₛ_eq : (a b : Shape) → (a ==ₛ b) ≡ true → a ≡ b
unfolding ◌==ₛ◌
==ₛ_eq [] [] h = refl
==ₛ_eq (a ∷ as') (b ∷ bs) h =
    let (x, y) = and-eq-true (a ==ℤ b) (as' ==ₛ bs) h in
    let e : a ≡ b = (==ℤ_iff a b).0 x in ap (λ z. z ∷ as') e ∙ ap (λ z. b ∷ z) (==ₛ_eq as' bs y)
==ₛ_eq [] (b ∷ bs) h = cc
==ₛ_eq (a ∷ as') [] h = cc

-- A shape that differs from the first at most in the dimension `dim`, which it has.
pub record Joins (first : Shape) (dim : ℕ) (s : Shape) : Type 0 where
  pub size : ℤ
  pub here : get_elem? s dim ≡ some size
  pub axes : length s ≡ length first
  pub others : (j : ℕ) → j ≢ dim → get_elem? s j ≡ get_elem? first j

-- The size of a dimension, in a `size_t`, and the sum of the sizes over several shapes.
abbrev size_part : Option ℤ → ℕ
size_part none = 0
size_part (some d) = to_size d

abbrev pub size_of : ℕ → Shape → ℕ
size_of dim s = size_part (get_elem? s dim)

abbrev pub total_size : ℕ → List Shape → ℕ
total_size dim [] = 0
total_size dim (s ∷ shapes) = size_of dim s + total_size dim shapes

Joins-set :
    (first s : Shape) (dim : ℕ) (d size : ℤ)
    → get_elem? s dim ≡ some d
    → set s dim size ≡ first
    → Joins first dim s
Joins-set first s dim d size here e = record {
  size = d;
  here = here;
  axes = sym (length-set s dim size) ∙ ap length e;
  others = λ j k. sym (get_elem?-set_ne s dim j size (λ q. k (sym q))) ∙ ap (λ z. get_elem? z j) e;
}

concat_loop-Joins :
    (first : Shape) (dim : ℕ) (size : ℤ) (start : ℕ) (shapes : List Shape) {total : ℕ}
    → start < 2 ^ 64
    → concat_loop first dim size start shapes ≡ ok total
    → All (Joins first dim) shapes × (total ≡ wrap (start + total_size dim shapes))
unfolding concat_loop
concat_loop-Joins first dim size start [] small h = (tt, sym (ok-injective h) ∙ omega arith)
concat_loop-Joins first dim size start (s ∷ shapes) small h =
    let (d, a, h1) = >>=-eq-ok (read_dim s dim) _ h in
    let (same, b, h2) = >>=-eq-ok (write_dim s dim size) _ h1 in
    let (u, c, h3) = >>=-eq-ok (throw_unless (same ==ₛ first)) _ h2 in
    let (here, inside) = read_dim-eq-ok s dim a in
    let (w, inside') = write_dim-eq-ok s dim size b in
    let equal = ==ₛ_eq same first (throw_unless-eq-ok (same ==ₛ first) c) in
    let next : wrap (start + to_size d) < 2 ^ 64 = omega arith in
    let (rest, e) = concat_loop-Joins first dim size (wrap (start + to_size d)) shapes next h3 in
    let x : size_of dim s ≡ to_size d = ap size_part here in
    (
      (Joins-set first s dim d size here (w ∙ equal), rest),
      e ∙ sums (to_size d) (size_of dim s) (total_size dim shapes) x,
    )
  where
    sums : (d x rest : ℕ) → x ≡ d → wrap (wrap (start + d) + rest) ≡ wrap (start + (x + rest))
    sums d x rest e = omega arith

-- Where concatenation infers a shape, the other inputs differ from the first at most in the
-- dimension that is joined; the output differs from the first only there, where it has the sum
-- of all the inputs' sizes, modulo 2 ^ 64.
pub concat_shape-Joins :
    (first : Shape) (shapes : List Shape) (dim : ℤ) {out : Shape}
    → concat_shape first shapes dim ≡ ok out
    → (v : ℕ) × (get_valid_dim first dim ≡ ok v)
      × All (Joins first v) shapes
      × Joins first v out
      × (get_elem? out v ≡ some (to_signed (wrap (total_size v (first ∷ shapes)))))
unfolding concat_shape
concat_shape-Joins first shapes dim {out} h =
    let (v, a, h1) = >>=-eq-ok (get_valid_dim first dim) _ h in
    let (size, b, h2) = >>=-eq-ok (read_dim first v) _ h1 in
    let (sum, c, h3) = >>=-eq-ok (concat_loop first v size (wrap (to_size size)) shapes) _ h2 in
    let (here, inside) = read_dim-eq-ok first v b in
    let (rest, e) =
      concat_loop-Joins first v size (wrap (to_size size)) shapes (wrap-lt (to_size size)) c in
    let (w, inside') = write_dim-eq-ok first v (to_signed sum) h3 in
    let x : size_of v first ≡ to_size size = ap size_part here in
    let value : get_elem? out v ≡ some (to_signed sum) =
      ap (λ z. get_elem? z v) (sym w) ∙ get_elem?-set_self first v (to_signed sum) inside in
    let total : sum ≡ wrap (total_size v (first ∷ shapes)) =
      e ∙ sums (to_size size) (size_of v first) (total_size v shapes) x in
    (
      v,
      a,
      rest,
      record {
        size = to_signed sum;
        here = value;
        axes = ap length (sym w) ∙ length-set first v (to_signed sum);
        others = λ j k.
            ap (λ z. get_elem? z j) (sym w)
            ∙ get_elem?-set_ne first v j (to_signed sum) (λ q. k (sym q));
      },
      value ∙ ap (λ z. some (to_signed z)) total,
    )
  where
    wrap-lt : (n : ℕ) → wrap n < 2 ^ 64
    wrap-lt n = omega arith

    sums : (d x rest : ℕ) → x ≡ d → wrap (wrap d + rest) ≡ wrap (x + rest)
    sums d x rest e = omega arith
