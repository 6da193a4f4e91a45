-- ===== src/Operators/Binary/Whole.antt =====
-- `BroadcastBinaryOp::GetPlacementSignature`, the whole table, and the inferred shape:
-- dtorch/core/operators/standard/broadcast_binary_op.cc.
use dtorch.Base.{
  ℕ, zero, suc, ◌+◌, ◌-◌, ◌≤◌, min, max, ◌≡◌, refl, ap, ◌∙◌, Bool, false, List, [], ◌∷◌, ◌++◌,
  arith, length, All, ok, throw_unless, >>=-eq-ok, get_elem?-lt, lt_of_get_elem?,
}
use dtorch.Base.Int.{ℤ, negsuc, ◌==ℤ◌, ==ℤ_iff}
use dtorch.Shape.{Shape, is_null_tensor_shape, can_broadcast_with, broadcast_output_shape}
use dtorch.Placement.{Placement, replicated}
use dtorch.Placement.HashKey.{IsBuilt, by_shard, by_replicate}
use dtorch.Signature.{SignaturePair, PlacementSignature}
use dtorch.Signature.Finish.{idle, IsRow}
use dtorch.Operators.Binary.{
  aligned_loop, spread_loop, left_row, right_row, add_binary_rows, binary_signature, binary_shape,
}
use dtorch.Shape.Broadcast.Sizes.{HasSizes, HasSizes-comm, broadcast_output_shape-HasSizes}
use dtorch.Operators.Adds.{Adds, Adds-none, Adds-then, Adds-finish}
use dtorch.Operators.Binary.Adds.{
  Meets, sharded, absent, stretches, IsShardRow, IsShardRow-swap, Adds-when,
}
use dtorch.Operators.Binary.Sound.{
  Positive, NoOnes, expand_of, spread_loop-Adds, left_sound, aligned_sound,
}

-- A sound row of two inputs.
abbrev pub IsSoundTriple : Shape → Shape → Shape → SignaturePair → Type 0
IsSoundTriple a b c (p ∷ q ∷ [], r ∷ []) = IsShardRow a b c p q r
IsSoundTriple a b c _ = ⊥

module _ (a b c : Shape) (s : HasSizes a b c) (positive_a : Positive a) (positive_b : Positive b)
    (ones_a : NoOnes a b) (ones_b : NoOnes b a) where
  abbrev Sound : SignaturePair → Type 0
  Sound = IsSoundTriple a b c

  left_loop-Adds :
      (ps : List SignaturePair)
      → Adds 2 Sound ps
          (spread_loop (left_row (expand_of a b)) b (expand_of b a) 0 (length a) (idle 2 1 ps []))
  left_loop-Adds ps =
      spread_loop-Adds Sound (left_row (expand_of a b)) b (expand_of b a) (length a)
        (λ i qs test small r.
          Adds-when Sound test _ _ _ qs
            (λ e. left_sound a b c i s positive_a ones_a small (r ∙ ap ok e)))
        (length a) 0 ps (omega arith) (omega arith)

  right_loop-Adds :
      (ps : List SignaturePair)
      → Adds 2 Sound ps
          (spread_loop (right_row (expand_of b a)) a (expand_of a b) 0 (length b) (idle 2 1 ps []))
  right_loop-Adds ps =
      spread_loop-Adds Sound (right_row (expand_of b a)) a (expand_of a b) (length b)
        (λ i qs test small r. Adds-when Sound test _ _ _ qs (λ e.
          IsShardRow-swap b a c
            (left_sound b a c i (HasSizes-comm a b c s) positive_b ones_b small (r ∙ ap ok e))))
        (length b) 0 ps (omega arith) (omega arith)

  aligned_loop-Adds :
      (n i : ℕ) (ps : List SignaturePair)
      → i + n ≤ min (length a) (length b)
      → Adds 2 Sound ps (aligned_loop a b (expand_of a b) (expand_of b a) i n (idle 2 1 ps []))
  unfolding aligned_loop
  aligned_loop-Adds zero i ps h = Adds-none 2 Sound ps
  aligned_loop-Adds (suc n) i ps h =
      let (x, p) = get_elem?-lt a (i + expand_of b a) (omega arith) in
      let (y, q) = get_elem?-lt b (i + expand_of a b) (omega arith) in
      rw (p, q)
        (Adds-then 2 Sound ps _ (λ t. aligned_loop a b (expand_of a b) (expand_of b a) (suc i) n t)
          (Adds-when Sound (x ==ℤ y) _ _ _ ps (aligned_sound a b c i x y s p q))
          (λ qs. aligned_loop-Adds n (suc i) qs (omega arith)))

  pub add_binary_rows-Adds :
      (ps : List SignaturePair) → Adds 2 Sound ps (add_binary_rows a b (idle 2 1 ps []))
  unfolding add_binary_rows
  add_binary_rows-Adds ps =
      let e : max (length a) (length b) - length b ≡ expand_of b a = omega arith in
      rw e (
        Adds-then 2 Sound ps _ _ (left_loop-Adds ps) (λ qs.
          Adds-then 2 Sound qs _ _ (right_loop-Adds qs)
            (λ rs. aligned_loop-Adds (min (length a) (length b)) 0 rs (omega arith))))

Meets-IsBuilt :
    (s c : Shape) (k : ℕ) (d : ℤ) {p : Placement} → length s ≤ 16 → Meets s c k d p → IsBuilt p
Meets-IsBuilt s c k d few (sharded i place here) =
    let inside = lt_of_get_elem? s i here in by_shard i (negsuc 0) (omega arith)
Meets-IsBuilt s c k d few (absent h) = by_replicate
Meets-IsBuilt s c k d few (stretches i place here) = by_replicate

pub IsSoundTriple-IsRow :
    (a b c : Shape)
    → length a ≤ 16
    → length b ≤ 16
    → (row : SignaturePair) → IsSoundTriple a b c row
    → IsRow 2 1 row
IsSoundTriple-IsRow a b c few_a few_b (p ∷ q ∷ [], r ∷ []) s = (
  (
    Meets-IsBuilt a c s.index s.size few_a s.left,
    (Meets-IsBuilt b c s.index s.size few_b s.right, tt),
  ),
  refl,
  refl,
)
IsSoundTriple-IsRow a b c few_a few_b _ s = absurd s

abbrev pub replicated_row : SignaturePair
replicated_row = (replicated ∷ replicated ∷ [], replicated ∷ [])

Positive-present : (s : Shape) → Positive s → is_null_tensor_shape s ≡ false
unfolding is_null_tensor_shape
Positive-present [] h = refl
Positive-present (d ∷ []) h = let low = h.0 in ground (arith, ==ℤ_iff d (negsuc 99))
Positive-present (d ∷ e ∷ s) h = refl

binary_shape-broadcast :
    (constant_a constant_b : Bool) (a b : Shape) {c : Shape}
    → Positive a
    → Positive b
    → binary_shape constant_a constant_b a b ≡ ok c
    → broadcast_output_shape a b ≡ ok c
unfolding binary_shape
binary_shape-broadcast constant_a constant_b a b positive_a positive_b h =
    let h1 = rw (Positive-present a positive_a, Positive-present b positive_b) at h in
    let (u, e, k) = >>=-eq-ok (throw_unless (can_broadcast_with a b)) _ h1 in k

-- Where the shape of an element-wise operator is inferred, of two tensors of at most 16 dimensions
-- of positive sizes, there is a signature. Its last row replicates everything. In each other row
-- the output is sharded at a dimension, and each input either is sharded at the dimension that
-- lies there, of the same size, or replicates and has no dimension there or one of size one. The
-- longer shape is to have no size one among as many of its first dimensions as the shorter has,
-- since the loops compare these.
pub binary_signature-IsSoundTriple :
    (constant_a constant_b : Bool) (a b : Shape) {c : Shape}
    → length a ≤ 16
    → length b ≤ 16
    → Positive a
    → Positive b
    → NoOnes a b
    → NoOnes b a
    → binary_shape constant_a constant_b a b ≡ ok c
    → (s : PlacementSignature) × (binary_signature a b ≡ ok s)
      × ((rows : List SignaturePair) × All (IsSoundTriple a b c) rows
          × (s.all_signature ≡ rows ++ replicated_row ∷ []))
unfolding binary_signature
binary_signature-IsSoundTriple constant_a constant_b a b {c} few_a few_b positive_a positive_b
      ones_a ones_b run =
    let shape = binary_shape-broadcast constant_a constant_b a b positive_a positive_b run in
    let sizes = broadcast_output_shape-HasSizes a b shape in
    Adds-finish 2 (IsSoundTriple a b c) _ (omega arith) (IsSoundTriple-IsRow a b c few_a few_b)
      (add_binary_rows-Adds a b c sizes positive_a positive_b ones_a ones_b [])
