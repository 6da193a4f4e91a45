-- ===== src/Redistribute/Rewritten.antt =====
-- What the rewrites in place of the placements keep.
use dtorch.Base.{
  suc, leb, ℕ, ◌≡◌, refl, sym, subst, Bool, true, false, List, [], ◌∷◌, map, ◌==◌, if◌then◌else◌,
  length, All, ok, assert_that, >>=-eq-ok, ok-injective,
}
use dtorch.Base.Int.{ℤ, pos, negsuc, ◌==ℤ◌}
use dtorch.Placement.{replicated, shard_of, ==ₚ_iff}
use dtorch.Shape.{Shape}
use dtorch.PlacementSeq.{
  PlacementSeq, to_replicate_when_dim_size_equal_one, shard_dim_to_positive_number,
  get_convert_order, replicate_size_one, positive_shard, order_loop,
}
use dtorch.PlacementSeq.ConvertOrder.{IsExclusive}
use dtorch.Redistribute.{rewritten_source, Conversion}

-- The rewrites keep what each factory function builds.
replicate_size_one-IsExclusive :
    (mesh_shape : Shape) (ps : PlacementSeq)
    → All IsExclusive ps
    → All IsExclusive (replicate_size_one mesh_shape ps)
unfolding replicate_size_one
replicate_size_one-IsExclusive [] ps h = h
replicate_size_one-IsExclusive (d ∷ ds) [] h = tt
replicate_size_one-IsExclusive (d ∷ ds) (p ∷ ps) (h, hs) =
    (choose (d ==ℤ pos 1), replicate_size_one-IsExclusive ds ps hs)
  where
    choose : (b : Bool) → IsExclusive (if b then replicated else p)
    choose true = refl
    choose false = h

positive_shard-IsExclusive :
    (axes : ℕ) (ps : PlacementSeq)
    → All IsExclusive ps
    → All IsExclusive (map (positive_shard axes) ps)
unfolding positive_shard
positive_shard-IsExclusive axes [] h = tt
positive_shard-IsExclusive axes (p ∷ ps) (h, hs) =
    (choose _ _, positive_shard-IsExclusive axes ps hs)
  where
    choose : (b : Bool) (i : ℤ) → IsExclusive (if b then shard_of i (negsuc 0) else p)
    choose true i = refl
    choose false i = h

-- Between a sequence and itself nothing is converted.
order_loop-same : (i : ℕ) (ps : PlacementSeq) → All IsExclusive ps → order_loop i ps ps ≡ ([], [])
unfolding order_loop
order_loop-same i [] h = refl
order_loop-same i (p ∷ ps) (h, hs) =
    rw (order_loop-same (suc i) ps hs, h, (==ₚ_iff p p).1 refl) refl

pub get_convert_order-same :
    (ps : PlacementSeq) {order : List ℕ}
    → All IsExclusive ps
    → get_convert_order ps ps ≡ ok order
    → order ≡ []
unfolding get_convert_order
get_convert_order-same ps h run =
    let (u, a, k) = >>=-eq-ok (assert_that (leb (length ps) (length ps))) _ run in
    let k' = rw (order_loop-same 0 ps h) at k in sym (ok-injective k')

pub rewritten-IsExclusive :
    (c : Conversion) {reps : PlacementSeq}
    → All IsExclusive c.dest_placements
    → to_replicate_when_dim_size_equal_one c.dest_device_mesh.mesh.shape c.dest_placements ≡ ok reps
    → All IsExclusive (shard_dim_to_positive_number c.shape reps)
unfolding to_replicate_when_dim_size_equal_one shard_dim_to_positive_number
rewritten-IsExclusive c h run =
    let mesh_shape = c.dest_device_mesh.mesh.shape in
    let (u, a, k) = >>=-eq-ok (assert_that (length c.dest_placements == length mesh_shape)) _ run in
    positive_shard-IsExclusive (length c.shape) _ (
      subst (All IsExclusive) (ok-injective k)
        (replicate_size_one-IsExclusive mesh_shape c.dest_placements h))

pub rewritten_source-IsExclusive :
    (c : Conversion) (dest : PlacementSeq)
    → All IsExclusive c.src_placements
    → All IsExclusive dest
    → All IsExclusive (rewritten_source c dest)
rewritten_source-IsExclusive c dest h k = choose c.shared
  where
    choose : (b : Bool) → All IsExclusive (if b then dest else c.src_placements)
    choose true = k
    choose false = h
