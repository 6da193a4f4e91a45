-- ===== src/DistributedSpec/Validity.antt =====
-- `CheckShapeValid` ends in an answer, and what the answer means.
pub mod Whole
use dtorch.Base.{
  true≢false, get_elem?-lt, ℕ, zero, suc, ◌+◌, ◌-◌, ◌*◌, ◌/◌, ◌%◌, ◌^◌, ◌≤◌, ◌<◌, min, max, ◌≡◌,
  refl, sym, ap, ◌∙◌, subst, fun_ext, ◌≢◌, ◌↔◌, ◌⊎◌, inl, inr, Bool, true, false, not, ◌&&◌, ◌||◌,
  Option, none, some, List, [], ◌∷◌, ◌++◌, map, reverse, arith, ltb, leb, ◌==◌, if◌then◌else◌,
  ==_refl, ==_iff, ltb→lt, lt→ltb, leb→le, Bool-cases, Option-cases, and-eq-true, length, get_elem?,
  set, take, drop, replicate, All, sum, product, length-append, length-set, length-drop,
  length-take, length-replicate, length-map, get_elem?-set_ne, get_elem?-set_self, Outcome, ok,
  invalid_argument, aborted, ◌>>=◌, ◌>>◌, assert_that, throw_unless, of_option, >>=-eq-ok,
  assert_that-eq-ok, throw_unless-eq-ok, ok-injective,
}
use dtorch.Base.Int.{
  ℤ, pos, negsuc, pos_part, neg_part, sub_ℕ, ◌+ℤ◌, ◌-ℤ◌, ◌*ℤ◌, ◌≤ℤ◌, lt_ℤ, le_ℤ, ◌==ℤ◌, max_ℤ,
  to_size, ==ℤ_iff, ==ℤ_refl, max_ℤ_comm, pos-mul,
}
use dtorch.Shape.{Shape, is_null_tensor_shape}
use dtorch.Placement.{Placement}
use dtorch.PlacementSeq.{PlacementSeq}
use dtorch.DeviceMesh.{DeviceKind, cpu, gpu, DeviceMesh, num_axis, mesh_count, has}
use dtorch.DistributedSpec.{
  ShardInfo, shape_loop, check_shape_valid, get_shard_info, check_valid, axis_valid, axes_valid,
  check_device_id_valid, ids_below, first_replicate,
}
use dtorch.DistributedSpec.ShardInfos.{
  shards, is_sharded, axis_product, size_at, has_dim, IsKeyed, HasShardIndex,
  get_shard_info-axis_product,
}

-- Every recorded dimension has as many elements as shards.
abbrev FitsInfos : Shape → List ShardInfo → Type 0
FitsInfos shape infos =
    (d : ℕ) (n : ℤ)
    → has_dim d infos ≡ true
    → get_elem? shape d ≡ some n
    → pos (size_at d infos) ≤ℤ n

abbrev pub Answers : Outcome Bool → Type 0 → Type 0
Answers run P = (b : Bool) × (run ≡ ok b) × ((b ≡ true) ↔ P)

shape_loop-FitsInfos :
    (shape : Shape) (infos : List ShardInfo)
    → IsKeyed infos
    → ((d : ℕ) → has_dim d infos ≡ true → d < length shape)
    → Answers (shape_loop shape infos) (FitsInfos shape infos)
unfolding shape_loop
shape_loop-FitsInfos shape [] k inside = (true, refl, (λ _ d n h. cc, λ _. refl))
shape_loop-FitsInfos shape (x ∷ xs) k inside =
    let (v, here) = get_elem?-lt shape x.shard_dim (inside x.shard_dim (rw ==_refl)) in
    let (b, run, meaning) =
      shape_loop-FitsInfos shape xs k.1 (λ d h. inside d (ground (arith, h))) in
    elim (Bool-cases (lt_ℤ v (pos x.shard_size))) [
      | inl small ↦ (
        false,
        rw (here, small),
        (
          λ e. cc,
          λ fits. absurd (
              clash v x.shard_size small
                (rw (==_refl x.shard_dim) at (fits x.shard_dim v (rw ==_refl) here))),
        ),
      )
      | inr large ↦ (
        b,
        rw (here, large) run,
        (
          λ e d n h g. elim (Bool-cases (x.shard_dim == d)) [
            | inl same ↦
                let eq : x.shard_dim ≡ d = (==_iff _ _).0 same in
                let val : some v ≡ some n = sym here ∙ ap (get_elem? shape) eq ∙ g in
                rw same (at_least v n x.shard_size large val)
            | inr other ↦ rw other (meaning.0 e d n (rw other at h) g)
          ],
          λ fits. meaning.1 (λ d n h g. elim (Bool-cases (x.shard_dim == d)) [
            | inl same ↦
                let eq : x.shard_dim ≡ d = (==_iff _ _).0 same in
                let no : has_dim d xs ≡ false = ap (λ z. has_dim z xs) (sym eq) ∙ k.0 in
                true≢false h no
            | inr other ↦ rw other at (fits d n (rw (other, h)) g)
          ]),
        ),
      )
    ]
  where
    clash : (v : ℤ) (s : ℕ) → lt_ℤ v (pos s) ≡ true → pos s ≤ℤ v → ⊥
    clash v s h k = ground arith

    at_least : (v n : ℤ) (s : ℕ) → lt_ℤ v (pos s) ≡ false → some v ≡ some n → pos s ≤ℤ n
    at_least v n s h e = let q : v ≡ n = cc in subst (λ z. pos s ≤ℤ z) q (ground arith)

-- Every dimension that is sharded has at least as many elements as the axes that shard it have
-- devices together.
abbrev pub Fits : Shape → List ℕ → PlacementSeq → Type 0
Fits shape ms ps =
    (d : ℕ) (n : ℤ)
    → is_sharded d ps ≡ true
    → get_elem? shape d ≡ some n
    → pos (axis_product d ms ps) ≤ℤ n

-- A mesh's shape without an empty axis, with fewer than 2 ^ 64 devices.
pub record IsMesh (m : DeviceMesh) (ms : List ℕ) : Type 0 where
  pub dims : m.mesh.shape ≡ map pos ms
  pub positive : All (λ d. 0 < d) ms
  pub few : product ms < 2 ^ 64

-- Over a mesh, with placements of as many axes that shard dimensions of the shape, the check of
-- the shape answers, and it answers yes exactly if every sharded dimension has enough elements.
pub check_shape_valid-Fits :
    (shape : Shape) (m : DeviceMesh) (ms : List ℕ) (ps : PlacementSeq)
    → IsMesh m ms
    → All HasShardIndex ps
    → ((d : ℕ) → is_sharded d ps ≡ true → d < length shape)
    → length ms ≡ length ps
    → Answers (check_shape_valid shape m ps) (Fits shape ms ps)
unfolding check_shape_valid
check_shape_valid-Fits shape m ms ps v hp inside size =
    let (infos, run, sizes, dims, keyed) =
      get_shard_info-axis_product m ms ps v.dims v.positive v.few hp size in
    let (b, loop, meaning) =
      shape_loop-FitsInfos shape infos keyed (λ d h. inside d (sym (dims d) ∙ h)) in
    (
      b,
      rw run loop,
      (
        λ e d n h g. rw (← sizes d) (meaning.0 e d n (dims d ∙ h) g),
        λ fits. meaning.1 (λ d n h g. rw (sizes d) (fits d n (sym (dims d) ∙ h) g)),
      ),
    )
