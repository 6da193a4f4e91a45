-- ===== src/Operators/Transpose.antt =====
-- `TransposeOp`: dtorch/core/operators/standard/transpose_op.cc.
use dtorch.Base.{
  get_elem?-lt, ℕ, suc, ◌+◌, ◌≤◌, ◌<◌, ◌≡◌, sym, ap, ◌∙◌, subst, ◌≢◌, inl, inr, some, List, [], ◌∷◌,
  arith, ◌==◌, if◌then◌else◌, ==_iff, Bool-cases, length, get_elem?, set, All, length-set,
  get_elem?-set_ne, get_elem?-set_self, Outcome, ok, ◌>>=◌, >>=-eq-ok,
}
use dtorch.Base.Int.{ℤ}
use dtorch.Shape.{Shape}
use dtorch.Signature.{PlacementSignature}
use dtorch.Operators.{get_valid_dim, read_dim, write_dim, unary_signature}
use dtorch.Operators.Rows.{
  write_dim-eq-ok, read_dim-eq-ok, SameSize, SoundSignature, unary_signature-SoundSignature,
}

-- `InferOutputMetaInfo`
unfoldable pub transpose_shape : Shape → ℤ → ℤ → Outcome Shape
transpose_shape shape dim0 dim1 = do
  i ← get_valid_dim shape dim0
  j ← get_valid_dim shape dim1
  second ← read_dim shape j
  half ← write_dim shape i second
  first ← read_dim shape i
  write_dim half j first

-- The loop of `GetPlacementSignature`, from the dimension `k` on, and the function.
unfoldable pub transpose_pairs : ℕ → ℕ → ℕ → Shape → List (ℕ × ℕ)
transpose_pairs i j k [] = []
transpose_pairs i j k (d ∷ ds) =
    (if k == i then (i, j) else (if k == j then (j, i) else (k, k)))
    ∷ transpose_pairs i j (suc k) ds

unfoldable pub transpose_signature : Shape → ℤ → ℤ → Outcome PlacementSignature
transpose_signature shape dim0 dim1 = do
  i ← get_valid_dim shape dim0
  j ← get_valid_dim shape dim1
  unary_signature (transpose_pairs i j 0 shape)

module _ (shape : Shape) (i j : ℕ) (a b : ℤ) (at_i : get_elem? shape i ≡ some a)
    (at_j : get_elem? shape j ≡ some b) (in_i : i < length shape) (in_j : j < length shape) where
  abbrev swapped : Shape
  swapped = set (set shape i b) j a

  swapped_j : get_elem? swapped j ≡ some a
  swapped_j = get_elem?-set_self (set shape i b) j a (omega (arith, length-set shape i b))

  swapped_i : get_elem? swapped i ≡ some b
  swapped_i = elim (Bool-cases (i == j)) [
    | inl e ↦
        let same : j ≡ i = sym ((==_iff _ _).0 e) in
        let both : some a ≡ some b = sym at_i ∙ ap (get_elem? shape) (sym same) ∙ at_j in
        sym (ap (get_elem? swapped) same) ∙ swapped_j ∙ both
    | inr e ↦
        get_elem?-set_ne (set shape i b) j i a (λ q. ground arith)
        ∙ get_elem?-set_self shape i b in_i
  ]

  swapped_other : (k : ℕ) → k ≢ i → k ≢ j → get_elem? swapped k ≡ get_elem? shape k
  swapped_other k p q =
      get_elem?-set_ne (set shape i b) j k a (λ e. q (sym e))
      ∙ get_elem?-set_ne shape i k b (λ e. p (sym e))

  transpose_pairs-SameSize :
      (k : ℕ) (rest : Shape)
      → k + length rest ≡ length shape
      → All (SameSize shape swapped) (transpose_pairs i j k rest)
  unfolding transpose_pairs
  transpose_pairs-SameSize k [] h = tt
  transpose_pairs-SameSize k (d ∷ rest) h =
      (here, transpose_pairs-SameSize (suc k) rest (omega arith))
    where
      here : SameSize shape swapped (if k == i then (i, j) else (if k == j then (j, i) else (k, k)))
      here = elim (Bool-cases (k == i)) [
        | inl e ↦ rw e (a, at_i, swapped_j)
        | inr e ↦ elim (Bool-cases (k == j)) [
          | inl f ↦ rw (e, f) (b, at_j, swapped_i)
          | inr f ↦
              let (v, g) = get_elem?-lt shape k (omega arith) in
              rw (e, f) (v, g, swapped_other k (λ q. ground arith) (λ q. ground arith) ∙ g)
        ]
      ]

-- What `InferOutputMetaInfo` swaps.
record Swap (shape : Shape) (dim0 dim1 : ℤ) (out : Shape) : Type 0 where
  i : ℕ
  j : ℕ
  a : ℤ
  b : ℤ
  valid_i : get_valid_dim shape dim0 ≡ ok i
  valid_j : get_valid_dim shape dim1 ≡ ok j
  at_i : get_elem? shape i ≡ some a
  at_j : get_elem? shape j ≡ some b
  in_i : i < length shape
  in_j : j < length shape
  writes : swapped shape i j a b at_i at_j in_i in_j ≡ out

transpose_shape-Swap :
    (shape : Shape) (dim0 dim1 : ℤ) {out : Shape}
    → transpose_shape shape dim0 dim1 ≡ ok out
    → Swap shape dim0 dim1 out
unfolding transpose_shape
transpose_shape-Swap shape dim0 dim1 h =
    let (i, va, h1) = >>=-eq-ok (get_valid_dim shape dim0) _ h in
    let (j, vb, h2) = >>=-eq-ok (get_valid_dim shape dim1) _ h1 in
    let (b, rb, h3) = >>=-eq-ok (read_dim shape j) _ h2 in
    let (half, w, h4) = >>=-eq-ok (write_dim shape i b) _ h3 in
    let (a, ra, h5) = >>=-eq-ok (read_dim shape i) _ h4 in
    let (at_i, in_i) = read_dim-eq-ok shape i ra in
    let (at_j, in_j) = read_dim-eq-ok shape j rb in
    record {
      i = i;
      j = j;
      a = a;
      b = b;
      valid_i = va;
      valid_j = vb;
      at_i = at_i;
      at_j = at_j;
      in_i = in_i;
      in_j = in_j;
      writes =
          let first : set shape i b ≡ half = (write_dim-eq-ok shape i b w).0 in
          ap (λ z. set z j a) first ∙ (write_dim-eq-ok half j a h5).0;
    }

-- Where a transposition of a tensor of at most 16 dimensions infers a shape, its signature is
-- built without an error and each of its rows is sound: a sharded dimension of the input becomes
-- one of the output of the same size, and partial and replicated tensors stay so.
pub transpose_signature-SoundSignature :
    (shape : Shape) (dim0 dim1 : ℤ) {out : Shape}
    → length shape ≤ 16
    → transpose_shape shape dim0 dim1 ≡ ok out
    → SoundSignature shape out (transpose_signature shape dim0 dim1)
unfolding transpose_signature
transpose_signature-SoundSignature shape dim0 dim1 {out} few h =
    let w = transpose_shape-Swap shape dim0 dim1 h in
    let same =
      transpose_pairs-SameSize shape w.i w.j w.a w.b w.at_i w.at_j w.in_i w.in_j 0 shape
        (omega arith) in
    subst (λ z. SoundSignature shape z (transpose_signature shape dim0 dim1)) w.writes
      (rw (w.valid_i, w.valid_j)
        (unary_signature-SoundSignature shape _ (transpose_pairs w.i w.j 0 shape) few same))

-- A transposition exchanges the sizes of its two dimensions, keeps the others and the number of
-- dimensions.
pub transpose_shape-exchanges :
    (shape : Shape) (dim0 dim1 : ℤ) {out : Shape}
    → transpose_shape shape dim0 dim1 ≡ ok out
    → (i : ℕ) × (j : ℕ) × (get_valid_dim shape dim0 ≡ ok i)
      × (get_valid_dim shape dim1 ≡ ok j)
      × (length out ≡ length shape)
      × (get_elem? out i ≡ get_elem? shape j)
      × (get_elem? out j ≡ get_elem? shape i)
      × ((k : ℕ) → k ≢ i → k ≢ j → get_elem? out k ≡ get_elem? shape k)
transpose_shape-exchanges shape dim0 dim1 h =
    let w = transpose_shape-Swap shape dim0 dim1 h in
    (
      w.i,
      w.j,
      w.valid_i,
      w.valid_j,
      ap length (sym w.writes) ∙ length-set (set shape w.i w.b) w.j w.a ∙ length-set shape w.i w.b,
      ap (λ z. get_elem? z w.i) (sym w.writes)
          ∙ swapped_i shape w.i w.j w.a w.b w.at_i w.at_j w.in_i w.in_j
          ∙ sym w.at_j,
      ap (λ z. get_elem? z w.j) (sym w.writes)
          ∙ swapped_j shape w.i w.j w.a w.b w.at_i w.at_j w.in_i w.in_j
          ∙ sym w.at_i,
      λ k p q.
          ap (λ z. get_elem? z k) (sym w.writes)
          ∙ swapped_other shape w.i w.j w.a w.b w.at_i w.at_j w.in_i w.in_j k p q,
    )
