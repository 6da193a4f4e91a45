-- ===== src/DistributedSpec/Validity/Whole.antt =====
-- `CheckValid` as a whole: its checks guard the assertions of what it calls.
use dtorch.Base.{
  true≢false, ℕ, zero, suc, ◌≤◌, ◌<◌, ◌≡◌, refl, sym, ap, ◌∙◌, subst, ◌↔◌, inl, inr, true, false,
  not, ◌&&◌, some, List, [], ◌∷◌, map, arith, ◌==◌, Bool-cases, and-eq-true, length, get_elem?, All,
  length-map, ok,
}
use dtorch.Base.Int.{ℤ, pos, negsuc, pos_part, ◌≤ℤ◌, lt_ℤ, ◌==ℤ◌, ==ℤ_iff}
use dtorch.Shape.{Shape, is_null_tensor_shape}
use dtorch.Placement.{Placement}
use dtorch.PlacementSeq.{PlacementSeq}
use dtorch.DeviceMesh.{DeviceKind, cpu, gpu, DeviceMesh, num_axis, mesh_count}
use dtorch.DistributedSpec.{
  check_valid, axis_valid, axes_valid, check_device_id_valid, ids_below, first_replicate,
}
use dtorch.DistributedSpec.ShardInfos.{shards, is_sharded, HasShardIndex}
use dtorch.DistributedSpec.Validity.{Answers, Fits, IsMesh, check_shape_valid-Fits}

-- A placement that shards: its dimension is one of `axes`, its axis has two devices or more, and
-- its sub split is -1 or not negative.
pub record AxisFits (axes size : ℕ) (p : Placement) : Type 0 where
  pub dim_from : pos 0 ≤ℤ p.shard_index
  pub dim_below : pos_part p.shard_index < axes
  pub two : 2 ≤ size
  pub sub_split : negsuc 0 ≤ℤ p.sub_split_coordinates

abbrev pub AxesFit : ℕ → List ℕ → PlacementSeq → Type 0
AxesFit axes (m ∷ ms) (p ∷ ps) = (p.shard ≡ true → AxisFits axes m p) × AxesFit axes ms ps
AxesFit axes _ _ = Unit

axis_valid-AxisFits :
    (axes m : ℕ) (p : Placement)
    → (axis_valid axes (pos m) p ≡ true) ↔ (p.shard ≡ true → AxisFits axes m p)
unfolding axis_valid
axis_valid-AxisFits axes m p = (
  λ h s. ground arith,
  λ h. elim (Bool-cases p.shard) [ inl s ↦ let f = h s in ground arith | inr s ↦ rw s ],
)

axes_valid-AxesFit :
    (axes : ℕ) (ms : List ℕ) (ps : PlacementSeq)
    → (axes_valid axes (map pos ms) ps ≡ true) ↔ AxesFit axes ms ps
unfolding axes_valid
axes_valid-AxesFit axes [] ps = (λ h. tt, λ h. refl)
axes_valid-AxesFit axes (m ∷ ms) [] = (λ h. tt, λ h. refl)
axes_valid-AxesFit axes (m ∷ ms) (p ∷ ps) =
    let one = axis_valid-AxisFits axes m p in
    let rest = axes_valid-AxesFit axes ms ps in
    (
      λ h. elim (Bool-cases (axis_valid axes (pos m) p)) [
        | inl e ↦ (one.0 e, rest.0 (rw e at h))
        | inr e ↦ absurd (never (rw e at h))
      ],
      λ h. rw (one.1 h.0, rest.1 h.1),
    )
  where
    never : false ≡ true → ⊥
    never e = cc

AxesFit-HasShardIndex :
    (axes : ℕ) (ms : List ℕ) (ps : PlacementSeq)
    → length ms ≡ length ps
    → AxesFit axes ms ps
    → All HasShardIndex ps × ((d : ℕ) → is_sharded d ps ≡ true → d < axes)
AxesFit-HasShardIndex axes [] [] size h = (tt, λ d e. cc)
AxesFit-HasShardIndex axes [] (p ∷ ps) size h = absurd (omega arith)
AxesFit-HasShardIndex axes (m ∷ ms) [] size h = absurd (omega arith)
AxesFit-HasShardIndex axes (m ∷ ms) (p ∷ ps) size h =
    let (indices, below) = AxesFit-HasShardIndex axes ms ps (omega arith) h.1 in
    (
      (λ s. (h.0 s).dim_from, indices),
      λ d e. elim (Bool-cases (shards d p)) [
        | inl here ↦
            let (s, i) = and-eq-true p.shard (p.shard_index ==ℤ pos d) here in
            let same : p.shard_index ≡ pos d = (==ℤ_iff p.shard_index (pos d)).0 i in
            let f = h.0 s in below_of p.shard_index d same f.dim_below
        | inr later ↦ below d (rw later at e)
      ],
    )
  where
    below_of : (z : ℤ) (d : ℕ) → z ≡ pos d → pos_part z < axes → d < axes
    below_of z d e k = let q : pos_part z ≡ d = ap pos_part e in omega arith

-- Every id of a list is below the number of devices.
abbrev pub IdsBelow : ℤ → List ℤ → Type 0
IdsBelow total xs = (i : ℕ) (x : ℤ) → get_elem? xs i ≡ some x → lt_ℤ x total ≡ true

IdsBelow-cons :
    (total y : ℤ) (ys : List ℤ) → lt_ℤ y total ≡ true → IdsBelow total ys → IdsBelow total (y ∷ ys)
IdsBelow-cons total y ys h rest zero x e =
    let q : y ≡ x = cc in subst (λ z. lt_ℤ z total ≡ true) q h
IdsBelow-cons total y ys h rest (suc i) x e = rest i x e

ids_below_iff : (total : ℤ) (xs : List ℤ) → (ids_below total xs ≡ true) ↔ IdsBelow total xs
unfolding ids_below
ids_below_iff total [] = (λ h i x e. cc, λ h. refl)
ids_below_iff total (y ∷ ys) =
    let rest = ids_below_iff total ys in
    (
      λ h. IdsBelow-cons total y ys (ground arith) (rest.0 (ground arith)),
      λ h. let here = h 0 y refl in let later = rest.1 (λ i. h (suc i)) in ground arith,
    )

check_device_id_valid_iff :
    (m : DeviceMesh) (total : ℤ)
    → (check_device_id_valid m total ≡ true) ↔ (m.kind ≡ gpu → IdsBelow total m.mesh.item_set)
unfolding check_device_id_valid
check_device_id_valid_iff m total = by_kind m.kind
  where
    by_kind :
        (k : DeviceKind)
        → (elim k [ cpu ↦ true | gpu ↦ ids_below total m.mesh.item_set ] ≡ true)
          ↔ (k ≡ gpu → IdsBelow total m.mesh.item_set)
    by_kind cpu = (λ h q. cc, λ h. refl)
    by_kind gpu =
        let iff = ids_below_iff total m.mesh.item_set in (λ h q. iff.0 h, λ h. iff.1 (h refl))

-- What `CheckValid` demands of a shape that is not the null shape.
pub record IsValidSpec (shape : Shape) (m : DeviceMesh) (ms : List ℕ) (ps : PlacementSeq)
    (total : ℤ) : Type 0 where
  pub placed : 0 < length ps
  pub ids : m.kind ≡ gpu → IdsBelow total m.mesh.item_set
  pub axes : length ms ≡ length ps
  pub single : mesh_count m ≡ 1 → first_replicate ps ≡ true
  pub distinct : length m.mesh.item_set ≡ mesh_count m
  pub shards : AxesFit (length shape) ms ps
  pub fits : Fits shape ms ps

-- Over a mesh `CheckValid` always answers: none of the assertions behind it can fail. It accepts
-- the null shape, and any other shape exactly if the placements are as many as the axes, device
-- ids of a GPU mesh are below the number of devices and distinct, a single device replicates,
-- each sharding axis fits, and every sharded dimension has at least as many elements as shards.
pub check_valid-IsValidSpec :
    (shape : Shape) (m : DeviceMesh) (ms : List ℕ) (ps : PlacementSeq) (total : ℤ)
    → IsMesh m ms
    → (is_null_tensor_shape shape ≡ true → check_valid shape m ps total ≡ ok true)
      × (is_null_tensor_shape shape ≡ false
          → Answers (check_valid shape m ps total) (IsValidSpec shape m ms ps total))
unfolding check_valid
check_valid-IsValidSpec shape m ms ps total v = (λ e. rw e, λ e. answers e)
  where
    answers :
        is_null_tensor_shape shape ≡ false
        → Answers (check_valid shape m ps total) (IsValidSpec shape m ms ps total)
    answers e =
        let ids = check_device_id_valid_iff m total in
        let axes : num_axis m ≡ length ms = ap length v.dims ∙ length-map ms pos in
        let each : (axes_valid (length shape) m.mesh.shape ps ≡ true)
            ↔ AxesFit (length shape) ms ps =
          subst (λ z. (axes_valid (length shape) z ps ≡ true) ↔ AxesFit (length shape) ms ps)
            (sym v.dims) (axes_valid-AxesFit (length shape) ms ps) in
        elim (Bool-cases (length ps == 0)) [
          | inl a ↦ (false, rw (e, a), (λ q. cc, λ w. let k = w.placed in absurd (ground arith)))
          | inr a ↦ elim (Bool-cases (check_device_id_valid m total)) [
            | inr b ↦ (false, rw (e, a, b), (λ q. cc, λ w. true≢false (ids.1 w.ids) b))
            | inl b ↦ elim (Bool-cases (num_axis m == length ps)) [
              | inr c ↦
                  (false, rw (e, a, b, c), (λ q. cc, λ w. let k = w.axes in absurd (ground arith)))
              | inl c ↦ elim (Bool-cases (mesh_count m == 1 && not (first_replicate ps))) [
                | inl d ↦ (
                  false,
                  rw (e, a, b, c, d),
                  (λ q. cc, λ w. let k = w.single in absurd (ground arith)),
                )
                | inr d ↦ elim (Bool-cases (length m.mesh.item_set == mesh_count m)) [
                  | inr f ↦ (
                    false,
                    rw (e, a, b, c, d, f),
                    (λ q. cc, λ w. let k = w.distinct in absurd (ground arith)),
                  )
                  | inl f ↦ elim (Bool-cases (axes_valid (length shape) m.mesh.shape ps)) [
                    | inr g ↦ (
                      false,
                      rw (e, a, b, c, d, f, g),
                      (λ q. cc, λ w. true≢false (each.1 w.shards) g),
                    )
                    | inl g ↦
                        let size : length ms ≡ length ps = ground arith in
                        let (indices, inside) =
                          AxesFit-HasShardIndex (length shape) ms ps size (each.0 g) in
                        let (r, run, meaning) =
                          check_shape_valid-Fits shape m ms ps v indices inside size in
                        (
                          r,
                          rw (e, a, b, c, d, f, g) run,
                          (
                            λ q. record {
                              placed = ground arith;
                              ids = ids.0 b;
                              axes = size;
                              single = ground arith;
                              distinct = ground arith;
                              shards = each.0 g;
                              fits = meaning.0 q;
                            },
                            λ w. meaning.1 w.fits,
                          ),
                        )
                  ]
                ]
              ]
            ]
          ]
        ]
