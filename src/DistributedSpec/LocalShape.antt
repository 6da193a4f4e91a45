-- ===== src/DistributedSpec/LocalShape.antt =====
-- `ComputeLocalShape` where every sharded dimension is a multiple of its number of shards.
use native.Mathlib.Nat.{mul-pos}
use dtorch.Base.{
  lt_of_get_elem?, ℕ, ◌/◌, ◌%◌, ◌<◌, ◌≡◌, refl, sym, ap, ◌∙◌, subst, inl, inr, Bool, true, false,
  ◌&&◌, some, List, [], ◌∷◌, arith, ◌==◌, ==_refl, ==_iff, lt→ltb, Bool-cases, length, get_elem?,
  set, All, length-set, get_elem?-set_ne, get_elem?-set_self, ok,
}
use dtorch.Base.Int.{pos, pos_part}
use dtorch.Shape.{Shape}
use dtorch.PlacementSeq.{PlacementSeq}
use dtorch.DeviceMesh.{DeviceMesh}
use dtorch.DistributedSpec.{ShardInfo, even_loop, compute_local_shape}
use dtorch.DistributedSpec.ShardInfos.{
  shards, is_sharded, axis_product, size_at, has_dim, IsKeyed, HasShardIndex,
  get_shard_info-axis_product,
}
use dtorch.DistributedSpec.Validity.{IsMesh}

-- A recorded dimension of the shape is a multiple of its number of shards.
abbrev Divides : Shape → List ShardInfo → Type 0
Divides shape infos =
    (d : ℕ)
    → has_dim d infos ≡ true
    → (n : ℕ) × (get_elem? shape d ≡ some (pos n))
      × (n % size_at d infos ≡ 0)
      × (0 < size_at d infos)

-- What the loop leaves in the shape that it divides.
record Divided (shape : Shape) (infos : List ShardInfo) (before out : Shape) : Type 0 where
  axes : length out ≡ length before
  others : (d : ℕ) → has_dim d infos ≡ false → get_elem? out d ≡ get_elem? before d
  quotients :
      (d n : ℕ)
      → has_dim d infos ≡ true
      → get_elem? shape d ≡ some (pos n)
      → get_elem? out d ≡ some (pos (n / size_at d infos))

-- A later entry is of another dimension.
later_dim :
    (x : ShardInfo) (xs : List ShardInfo) (d : ℕ)
    → has_dim x.shard_dim xs ≡ false
    → has_dim d xs ≡ true
    → (x.shard_dim == d) ≡ false
later_dim x xs d absent present = elim (Bool-cases (x.shard_dim == d)) [
  | inl e ↦
      let same : x.shard_dim ≡ d = (==_iff _ _).0 e in
      let clash : true ≡ false = sym present ∙ ap (λ z. has_dim z xs) (sym same) ∙ absent in cc
  | inr e ↦ e
]

Divides-tail :
    (shape : Shape) (x : ShardInfo) (xs : List ShardInfo)
    → has_dim x.shard_dim xs ≡ false
    → Divides shape (x ∷ xs)
    → Divides shape xs
Divides-tail shape x xs absent h d e =
    let other = later_dim x xs d absent e in
    let sized : size_at d (x ∷ xs) ≡ size_at d xs = rw other refl in
    let (n, here, fits, positive) = h d (rw (other, e) refl) in
    (n, here, subst (λ z. n % z ≡ 0) sized fits, subst (λ z. 0 < z) sized positive)

even_loop-cons :
    (shape : Shape) (x : ShardInfo) (xs : List ShardInfo) (even : Bool) (before : Shape) (n : ℕ)
    → get_elem? shape x.shard_dim ≡ some (pos n)
    → n % x.shard_size ≡ 0
    → 0 < x.shard_size
    → even_loop shape (x ∷ xs) even before
      ≡ even_loop shape xs even (set before x.shard_dim (pos (n / x.shard_size)))
unfolding even_loop
even_loop-cons shape x xs even before n here fits positive =
    let test : (n % x.shard_size == 0) ≡ true = (==_iff _ _).1 fits in
    rw (here, lt→ltb 0 x.shard_size positive) (rw (test, and_true even) refl)
  where
    and_true : (b : Bool) → (b && true) ≡ b
    and_true true = refl
    and_true false = refl

Divided-cons :
    (shape : Shape) (x : ShardInfo) (xs : List ShardInfo) (before out : Shape) (n : ℕ)
    → has_dim x.shard_dim xs ≡ false
    → x.shard_dim < length before
    → get_elem? shape x.shard_dim ≡ some (pos n)
    → Divided shape xs (set before x.shard_dim (pos (n / x.shard_size))) out
    → Divided shape (x ∷ xs) before out
Divided-cons shape x xs before out n absent inside here w = record {
  axes = w.axes ∙ length-set before x.shard_dim _;
  others = λ d e.
      w.others d (ground arith) ∙ get_elem?-set_ne before x.shard_dim d _ (λ q. ground arith);
  quotients = λ d m e g. elim (Bool-cases (x.shard_dim == d)) [
    | inl same ↦
        let eq : x.shard_dim ≡ d = (==_iff _ _).0 same in
        let val : some (pos n) ≡ some (pos m) = sym here ∙ ap (get_elem? shape) eq ∙ g in
        let sized : size_at d (x ∷ xs) ≡ x.shard_size = rw same refl in
        sym (ap (get_elem? out) eq)
        ∙ w.others x.shard_dim absent
        ∙ get_elem?-set_self before x.shard_dim _ inside
        ∙ ap (λ z. some (pos (z / x.shard_size))) (num n m val)
        ∙ ap (λ z. some (pos (m / z))) (sym sized)
    | inr other ↦
        let sized : size_at d (x ∷ xs) ≡ size_at d xs = rw other refl in
        w.quotients d m (rw other at e) g ∙ ap (λ z. some (pos (m / z))) (sym sized)
  ];
}
  where
    num : (n m : ℕ) → some (pos n) ≡ some (pos m) → n ≡ m
    num n m e = let q : pos n ≡ pos m = cc in ap pos_part q

even_loop-Divided :
    (shape : Shape) (infos : List ShardInfo) (even : Bool) (before : Shape)
    → IsKeyed infos
    → length before ≡ length shape
    → Divides shape infos
    → (out : Shape) × (even_loop shape infos even before ≡ ok (even, out))
      × Divided shape infos before out
even_loop-Divided shape [] even before k size h = (
  before,
  unfold even_loop in refl,
  record { axes = refl; others = λ d e. refl; quotients = λ d n e. cc },
)
even_loop-Divided shape (x ∷ xs) even before k size h =
    let (n, here, fits, positive) = h x.shard_dim (rw ==_refl refl) in
    let sized : size_at x.shard_dim (x ∷ xs) ≡ x.shard_size = rw ==_refl refl in
    let inside : x.shard_dim < length before =
      subst (λ z. x.shard_dim < z) (sym size) (lt_of_get_elem? shape x.shard_dim here) in
    let (out, run, w) =
      even_loop-Divided shape xs even (set before x.shard_dim (pos (n / x.shard_size))) k.1
        (length-set before x.shard_dim _ ∙ size) (Divides-tail shape x xs k.0 h) in
    (
      out,
      even_loop-cons shape x xs even before n here (subst (λ z. n % z ≡ 0) sized fits)
            (subst (λ z. 0 < z) sized positive)
          ∙ run,
      Divided-cons shape x xs before out n k.0 inside here w,
    )

axis_product-positive :
    (d : ℕ) (ms : List ℕ) (ps : PlacementSeq) → All (λ m. 0 < m) ms → 0 < axis_product d ms ps
axis_product-positive d [] ps h = omega arith
axis_product-positive d (m ∷ ms) [] h = omega arith
axis_product-positive d (m ∷ ms) (p ∷ ps) h = elim (Bool-cases (shards d p)) [
  | inl e ↦ rw e (mul-pos h.0 (axis_product-positive d ms ps h.1))
  | inr e ↦ rw e (mul-pos (omega arith) (axis_product-positive d ms ps h.1))
]

-- Over a mesh, where every sharded dimension is a multiple of the number of its shards, all the
-- devices hold the same shape, and it is returned under the key 0: each sharded dimension is
-- divided by the product of the axes that shard it, and the others are as they were.
pub compute_local_shape-even :
    (shape : Shape) (m : DeviceMesh) (ms : List ℕ) (ps : PlacementSeq)
    → IsMesh m ms
    → All HasShardIndex ps
    → length ms ≡ length ps
    → ((d : ℕ)
        → is_sharded d ps ≡ true
        → (n : ℕ) × (get_elem? shape d ≡ some (pos n)) × (n % axis_product d ms ps ≡ 0))
    → (out : Shape) × (compute_local_shape shape m ps ≡ ok ((pos 0, out) ∷ []))
      × (length out ≡ length shape)
      × ((d : ℕ) → is_sharded d ps ≡ false → get_elem? out d ≡ get_elem? shape d)
      × ((d n : ℕ)
          → is_sharded d ps ≡ true
          → get_elem? shape d ≡ some (pos n)
          → get_elem? out d ≡ some (pos (n / axis_product d ms ps)))
unfolding compute_local_shape
compute_local_shape-even shape m ms ps v hp size even =
    let (infos, run, sizes, dims, keyed) =
      get_shard_info-axis_product m ms ps v.dims v.positive v.few hp size in
    let divides : Divides shape infos = λ d e.
      let (n, here, fits) = even d (sym (dims d) ∙ e) in
      (
        n,
        here,
        subst (λ z. n % z ≡ 0) (sym (sizes d)) fits,
        subst (λ z. 0 < z) (sym (sizes d)) (axis_product-positive d ms ps v.positive),
      ) in
    let (out, loop, w) = even_loop-Divided shape infos true shape keyed refl divides in
    (
      out,
      rw run (rw loop refl),
      w.axes,
      λ d e. w.others d (dims d ∙ e),
      λ d n e g. w.quotients d n (dims d ∙ e) g ∙ ap (λ z. some (pos (n / z))) (sizes d),
    )
