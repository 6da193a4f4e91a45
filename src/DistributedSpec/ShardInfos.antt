-- ===== src/DistributedSpec/ShardInfos.antt =====
-- `GetShardInfo` multiplies, for each dimension of the tensor, the axes of the mesh that shard it.
use dtorch.Base.{
  ℕ, suc, ◌*◌, ◌^◌, ◌≤◌, ◌<◌, ◌≡◌, refl, ◌∙◌, inl, inr, Bool, true, false, ◌&&◌, ◌||◌, List, [],
  ◌∷◌, map, arith, ◌==◌, if◌then◌else◌, ==_refl, Bool-cases, length, All, product, length-map, ok,
}
use dtorch.Base.Int.{ℤ, pos, pos_part, ◌≤ℤ◌, ◌==ℤ◌}
use native.Mathlib.Nat.{mul-le-mul_left, mul_comm}
use dtorch.Stride.{wrap}
use dtorch.Placement.{Placement}
use dtorch.PlacementSeq.{PlacementSeq}
use dtorch.DeviceMesh.{DeviceMesh}
use dtorch.DistributedSpec.{ShardInfo, add_shard, shard_info_loop, get_shard_info}

-- Whether a placement shards the dimension `d`, and whether some axis does.
abbrev pub shards : ℕ → Placement → Bool
shards d p = p.shard && p.shard_index ==ℤ pos d

abbrev pub is_sharded : ℕ → PlacementSeq → Bool
is_sharded d [] = false
is_sharded d (p ∷ ps) = shards d p || is_sharded d ps

-- The product of the sizes of the axes that shard `d`.
abbrev pub axis_product : ℕ → List ℕ → PlacementSeq → ℕ
axis_product d (m ∷ ms) (p ∷ ps) = (if shards d p then m else 1) * axis_product d ms ps
axis_product d _ _ = 1

-- The recorded number of shards of `d`: 1 without an entry.
abbrev pub size_at : ℕ → List ShardInfo → ℕ
size_at d [] = 1
size_at d (x ∷ xs) = if x.shard_dim == d then x.shard_size else size_at d xs

abbrev pub has_dim : ℕ → List ShardInfo → Bool
has_dim d [] = false
has_dim d (x ∷ xs) = x.shard_dim == d || has_dim d xs

-- No dimension has two entries.
abbrev pub IsKeyed : List ShardInfo → Type 0
IsKeyed [] = Unit
IsKeyed (x ∷ xs) = (has_dim x.shard_dim xs ≡ false) × IsKeyed xs

add_shard-size_at :
    (dim size axis d : ℕ) (infos : List ShardInfo)
    → size_at dim infos * size < 2 ^ 64
    → size_at d (add_shard dim size axis infos)
      ≡ (if dim == d then size_at dim infos * size else size_at d infos)
unfolding add_shard
add_shard-size_at dim size axis d [] h = ground arith
add_shard-size_at dim size axis d (x ∷ xs) h = elim (Bool-cases (x.shard_dim == dim)) [
  | inl e ↦
      let small : wrap (x.shard_size * size) ≡ x.shard_size * size = ground (arith, e, h) in
      ground (arith, e, small)
  | inr e ↦ ground (arith, e, add_shard-size_at dim size axis d xs)
]

add_shard-has_dim :
    (dim size axis d : ℕ) (infos : List ShardInfo)
    → has_dim d (add_shard dim size axis infos) ≡ (dim == d || has_dim d infos)
unfolding add_shard
add_shard-has_dim dim size axis d [] = refl
add_shard-has_dim dim size axis d (x ∷ xs) = ground (arith, add_shard-has_dim dim size axis d xs)

add_shard-IsKeyed :
    (dim size axis : ℕ) (infos : List ShardInfo)
    → IsKeyed infos
    → IsKeyed (add_shard dim size axis infos)
unfolding add_shard
add_shard-IsKeyed dim size axis [] k = (refl, tt)
add_shard-IsKeyed dim size axis (x ∷ xs) k = elim (Bool-cases (x.shard_dim == dim)) [
  | inl e ↦ rw e k
  | inr e ↦ rw e (
    add_shard-has_dim dim size axis x.shard_dim xs ∙ ground (arith, e, k.0),
    add_shard-IsKeyed dim size axis xs k.1,
  )
]

-- No shard index is negative.
abbrev pub HasShardIndex : Placement → Type 0
HasShardIndex p = p.shard ≡ true → pos 0 ≤ℤ p.shard_index

product-pos : (ms : List ℕ) → All (λ m. 0 < m) ms → 0 < product ms
product-pos [] h = omega arith
product-pos (m ∷ ms) h = let p = product-pos ms h.1 in grind arith

axis_product-le :
    (d : ℕ) (ms : List ℕ) (ps : PlacementSeq)
    → All (λ m. 0 < m) ms
    → axis_product d ms ps ≤ product ms
axis_product-le d [] ps h = omega arith
axis_product-le d (m ∷ ms) [] h = product-pos (m ∷ ms) h
axis_product-le d (m ∷ ms) (p ∷ ps) h =
    let ih = axis_product-le d ms ps h.1 in
    elim (Bool-cases (shards d p)) [ inl e ↦ rw e (grind arith) | inr e ↦ rw e (grind arith) ]

mul_regroup : (a m q : ℕ) → a * m * q ≡ a * (m * q)
mul_regroup a m q = grind arith

le_times : (m q : ℕ) → 0 < m → q ≤ m * q
le_times m q h = grind arith

le_scaled : (a m q : ℕ) → 0 < m → a * q ≤ a * (m * q)
le_scaled a m q h = mul-le-mul_left a (le_times m q h)

-- What a product with a further factor bounds.
bounds :
    (a m q n : ℕ) → 0 < m → 0 < q → a * (m * q) < n → (a * m < n) × (a * q < n) × (a * m * q < n)
bounds a m q n h k b =
    let one = le_scaled a m q h in
    let two : a * m ≤ a * (q * m) = le_scaled a q m k in
    let same : q * m ≡ m * q = mul_comm q m in
    let three : a * m ≤ a * (m * q) = rw same at two in (omega arith, omega arith, rw mul_regroup b)

shard_info_loop-sizes :
    (i : ℕ) (ms : List ℕ) (ps : PlacementSeq) (infos : List ShardInfo)
    → All (λ m. 0 < m) ms
    → All HasShardIndex ps
    → length ms ≡ length ps
    → ((d : ℕ) → size_at d infos * product ms < 2 ^ 64)
    → IsKeyed infos
    → (result : List ShardInfo) × (shard_info_loop i (map pos ms) ps infos ≡ ok result)
      × ((d : ℕ) → size_at d result ≡ size_at d infos * axis_product d ms ps)
      × ((d : ℕ) → has_dim d result ≡ (has_dim d infos || is_sharded d ps))
      × IsKeyed result
unfolding shard_info_loop
shard_info_loop-sizes i [] [] infos pm hp size small k =
    (infos, refl, λ d. omega arith, λ d. ground arith, k)
shard_info_loop-sizes i [] (p ∷ ps) infos pm hp size small k = absurd (omega arith)
shard_info_loop-sizes i (m ∷ ms) [] infos pm hp size small k = absurd (omega arith)
shard_info_loop-sizes i (m ∷ ms) (p ∷ ps) infos pm hp size small k = elim (Bool-cases p.shard) [
  | inl e ↦
      let dim = pos_part p.shard_index in
      let at_dim : p.shard_index ≡ pos dim = index_pos p.shard_index (hp.0 e) in
      let added = λ (d : ℕ). add_shard-size_at dim m i d infos (room dim).0 in
      let (result, run, sizes, dims, keyed) =
        shard_info_loop-sizes (suc i) ms ps (add_shard dim m i infos) pm.1 hp.1 (omega arith)
          (λ d. ground (arith, added d, (room d).1, (room dim).2))
          (add_shard-IsKeyed dim m i infos k) in
      (
        result,
        rw (e, run) (ground (arith, hp.0 e)),
        λ d.
            sizes d
            ∙ ground (
              arith,
              added d,
              e,
              at_dim,
              mul_regroup (size_at dim infos) m (axis_product d ms ps),
            ),
        λ d. dims d ∙ ground (arith, add_shard-has_dim dim m i d infos, e, at_dim),
        keyed,
      )
  | inr e ↦
      let (result, run, sizes, dims, keyed) =
        shard_info_loop-sizes (suc i) ms ps infos pm.1 hp.1 (omega arith) (λ d. (room d).1) k in
      (result, rw (e, run), λ d. rw (sizes d, e) (omega arith), λ d. rw (dims d, e), keyed)
]
  where
    index_pos : (z : ℤ) → pos 0 ≤ℤ z → z ≡ pos (pos_part z)
    index_pos z h = ground arith

    room :
        (d : ℕ)
        → (size_at d infos * m < 2 ^ 64)
          × (size_at d infos * product ms < 2 ^ 64)
          × (size_at d infos * m * product ms < 2 ^ 64)
    room d = bounds (size_at d infos) m (product ms) (2 ^ 64) pm.0 (product-pos ms pm.1) (small d)

-- Over a mesh without empty axes and with fewer than 2 ^ 64 devices, and placements without
-- negative shard indices, `GetShardInfo` returns for each dimension of the tensor that some axis
-- shards one entry, with the product of the sizes of the axes that shard it, and no other entry.
pub get_shard_info-axis_product :
    (m : DeviceMesh) (ms : List ℕ) (ps : PlacementSeq)
    → m.mesh.shape ≡ map pos ms
    → All (λ d. 0 < d) ms
    → product ms < 2 ^ 64
    → All HasShardIndex ps
    → length ms ≡ length ps
    → (infos : List ShardInfo) × (get_shard_info m ps ≡ ok infos)
      × ((d : ℕ) → size_at d infos ≡ axis_product d ms ps)
      × ((d : ℕ) → has_dim d infos ≡ is_sharded d ps)
      × IsKeyed infos
unfolding get_shard_info
get_shard_info-axis_product m ms ps shape pm few hp size =
    let (infos, run, sizes, dims, keyed) =
      shard_info_loop-sizes 0 ms ps [] pm hp size (λ d. omega arith) tt in
    (infos, rw (shape, length-map, size, ==_refl) run, λ d. sizes d ∙ omega arith, dims, keyed)
