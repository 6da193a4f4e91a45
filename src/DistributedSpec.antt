-- ===== src/DistributedSpec.antt =====
-- `DistributedSpec`, the checks and local shapes of a distributed tensor:
-- dtorch/api/cpp/distributed_spec.{h,cc}. The order in which an `unordered_map` is walked is not
-- specified; here it is the order of insertion.
pub mod ShardInfos
pub mod Validity
pub mod LocalShape
use dtorch.Base.{
  ℕ, zero, suc, ◌+◌, ◌-◌, ◌*◌, ◌/◌, ◌%◌, ◌^◌, ◌≤◌, ◌<◌, min, max, ◌≡◌, refl, sym, ap, ◌∙◌, subst,
  fun_ext, ◌≢◌, ◌↔◌, ◌⊎◌, inl, inr, Bool, true, false, not, ◌&&◌, ◌||◌, Option, none, some, List,
  [], ◌∷◌, ◌++◌, map, reverse, arith, ltb, leb, ◌==◌, if◌then◌else◌, ==_refl, ==_iff, ltb→lt,
  lt→ltb, leb→le, Bool-cases, Option-cases, and-eq-true, length, get_elem?, set, take, drop,
  replicate, All, sum, product, length-append, length-set, length-drop, length-take,
  length-replicate, length-map, get_elem?-set_ne, get_elem?-set_self, Outcome, ok, invalid_argument,
  aborted, ◌>>=◌, ◌>>◌, assert_that, throw_unless, of_option, >>=-eq-ok, assert_that-eq-ok,
  throw_unless-eq-ok, ok-injective,
}
use dtorch.Base.Int.{
  ℤ, pos, negsuc, pos_part, neg_part, sub_ℕ, ◌+ℤ◌, ◌-ℤ◌, ◌*ℤ◌, ◌≤ℤ◌, lt_ℤ, le_ℤ, ◌==ℤ◌, max_ℤ,
  to_size, ==ℤ_iff, ==ℤ_refl, max_ℤ_comm, pos-mul,
}
use dtorch.Shape.{Shape, is_null_tensor_shape, keep_selected_dim, contains}
use dtorch.Stride.{Stride, stride_of_shape, wrap, compute_coordinate, compute_index}
use dtorch.Placement.{Placement, get_shard_size_for_all_rank}
use dtorch.PlacementSeq.{PlacementSeq}
use dtorch.DeviceMesh.{DeviceKind, cpu, gpu, DeviceMesh, num_axis, mesh_count}

-- `ShardInfo`: a dimension of the tensor, the number of its shards, and the axes of the mesh
-- that shard it.
pub record ShardInfo : Type 0 where
  pub shard_dim : ℕ
  pub shard_size : ℕ
  pub mesh_dims : List ℕ

-- The body of the loop of `GetShardInfo` for one axis that shards: a new entry, or the product.
unfoldable pub add_shard : ℕ → ℕ → ℕ → List ShardInfo → List ShardInfo
add_shard dim size axis [] =
    record { shard_dim = dim; shard_size = size; mesh_dims = axis ∷ [] } ∷ []
add_shard dim size axis (x ∷ xs) =
    let rest = add_shard dim size axis xs in
    if x.shard_dim == dim
    then record x { shard_size = wrap (x.shard_size * size); mesh_dims = axis ∷ x.mesh_dims } ∷ xs
    else x ∷ rest

unfoldable pub shard_info_loop :
    ℕ → Shape → PlacementSeq → List ShardInfo → Outcome (List ShardInfo)
unfolding add_shard
shard_info_loop i (d ∷ ds) (p ∷ ps) infos =
    let next =
      assert_that (le_ℤ (pos 0) p.shard_index)
      >> shard_info_loop (suc i) ds ps (add_shard (pos_part p.shard_index) (to_size d) i infos) in
    let skip = shard_info_loop (suc i) ds ps infos in if p.shard then next else skip
shard_info_loop i _ _ infos = ok infos

unfoldable pub get_shard_info : DeviceMesh → PlacementSeq → Outcome (List ShardInfo)
get_shard_info m ps = do assert_that (num_axis m == length ps); shard_info_loop 0 m.mesh.shape ps []

-- `CheckShapeValid`: no dimension has fewer elements than shards.
unfoldable pub shape_loop : Shape → List ShardInfo → Outcome Bool
shape_loop shape [] = ok true
shape_loop shape (x ∷ xs) =
    let rest = shape_loop shape xs in
    of_option (get_elem? shape x.shard_dim) >>= λ d.
    if lt_ℤ d (pos x.shard_size) then ok false else rest

unfoldable pub check_shape_valid : Shape → DeviceMesh → PlacementSeq → Outcome Bool
check_shape_valid shape m ps = do infos ← get_shard_info m ps; shape_loop shape infos

-- `CheckDeviceIdValid`
unfoldable pub ids_below : ℤ → List ℤ → Bool
ids_below total [] = true
ids_below total (x ∷ xs) = let rest = ids_below total xs in if le_ℤ total x then false else rest

unfoldable pub check_device_id_valid : DeviceMesh → ℤ → Bool
check_device_id_valid m total = elim m.kind [ cpu ↦ true | gpu ↦ ids_below total m.mesh.item_set ]

-- One axis in the loop of `CheckValid`: the shard dimension is one of the shape's, the axis has
-- at least two devices, and the sub split is -1 or not negative.
unfoldable pub axis_valid : ℕ → ℤ → Placement → Bool
axis_valid axes size p =
    if p.shard
    then (if lt_ℤ p.shard_index (pos 0)
        then false
        else (if le_ℤ (pos axes) p.shard_index
            then false
            else (if lt_ℤ size (pos 2)
                then false
                else (if not (p.sub_split_coordinates ==ℤ negsuc 0)
                      && lt_ℤ p.sub_split_coordinates (pos 0)
                    then false
                    else true))))
    else true

unfoldable pub axes_valid : ℕ → Shape → PlacementSeq → Bool
axes_valid axes (d ∷ ds) (p ∷ ps) =
    let rest = axes_valid axes ds ps in if axis_valid axes d p then rest else false
axes_valid axes _ _ = true

-- `placementSeq[0].IsReplicate()`, of a sequence that is not empty.
abbrev pub first_replicate : PlacementSeq → Bool
first_replicate [] = false
first_replicate (p ∷ ps) = p.replicate

-- `CheckValid`; each early return of `false` is a branch.
unfoldable pub check_valid : Shape → DeviceMesh → PlacementSeq → ℤ → Outcome Bool
check_valid shape m ps total =
    if is_null_tensor_shape shape
    then ok true
    else (if length ps == 0
        then ok false
        else (if not (check_device_id_valid m total)
            then ok false
            else (if not (num_axis m == length ps)
                then ok false
                else (if mesh_count m == 1 && not (first_replicate ps)
                    then ok false
                    else (if not (length m.mesh.item_set == mesh_count m)
                        then ok false
                        else (if not (axes_valid (length shape) m.mesh.shape ps)
                            then ok false
                            else check_shape_valid shape m ps))))))

-- `IndexInSelectedDims`: the coordinate's entries at the selected axes, as an index.
unfoldable pub selected : ℕ → List ℕ → List ℕ → List ℕ
unfolding contains
selected i dims [] = []
selected i dims (c ∷ cs) =
    let rest = selected (suc i) dims cs in if contains i dims then c ∷ rest else rest

unfoldable pub index_in_selected_dims : ℕ → Stride → List ℕ → Stride → Outcome ℕ
index_in_selected_dims index stride dims selected_stride = do
  assert_that (length selected_stride == length dims)
  coordinate ← compute_coordinate stride index
  compute_index selected_stride (selected 0 dims coordinate)

-- The first loop of `ComputeLocalShape`: whether all the shards are even, and the shape with the
-- even dimensions divided.
unfoldable pub even_loop : Shape → List ShardInfo → Bool → Shape → Outcome (Bool × Shape)
even_loop shape [] even result = ok (even, result)
even_loop shape (x ∷ xs) even result = do
  d ← of_option (get_elem? shape x.shard_dim)
  assert_that (ltb 0 x.shard_size)
  let fits = to_size d % x.shard_size == 0
  even_loop shape xs (even && fits)
      (if fits then set result x.shard_dim (pos (to_size d / x.shard_size)) else result)

-- `result[id][dim] = size`, in the map from ids to shapes, which has every id of the mesh.
unfoldable pub write_size : ℤ → ℕ → ℕ → List (ℤ × Shape) → List (ℤ × Shape)
write_size id dim size [] = []
write_size id dim size ((j, s) ∷ rest) =
    if j ==ℤ id then (j, set s dim (pos size)) ∷ rest else (j, s) ∷ write_size id dim size rest

-- The loop over the positions in the mesh, for one dimension that is not even.
unfoldable pub uneven_loop :
    ℕ
    → List ℤ
    → ShardInfo
    → Stride
    → Stride
    → List ℕ
    → List (ℤ × Shape)
    → Outcome (List (ℤ × Shape))
uneven_loop i [] x stride selected_stride sizes result = ok result
uneven_loop i (id ∷ ids) x stride selected_stride sizes result = do
  index ← index_in_selected_dims i stride x.mesh_dims selected_stride
  size ← of_option (get_elem? sizes index)
  uneven_loop (suc i) ids x stride selected_stride sizes (write_size id x.shard_dim size result)

unfoldable pub uneven_infos :
    Shape → DeviceMesh → List ShardInfo → List (ℤ × Shape) → Outcome (List (ℤ × Shape))
uneven_infos shape m [] result = ok result
uneven_infos shape m (x ∷ xs) result = do
  d ← of_option (get_elem? shape x.shard_dim)
  assert_that (ltb 0 x.shard_size)
  next ← if to_size d % x.shard_size == 0 then ok result else (do
    sizes ← get_shard_size_for_all_rank (to_size d) x.shard_size
    uneven_loop 0 m.mesh.items x (stride_of_shape m.mesh.shape)
        (stride_of_shape (keep_selected_dim m.mesh.shape x.mesh_dims)) sizes result)
  uneven_infos shape m xs next

-- `ComputeLocalShape`: one shape, under the key 0, if every shard is even; else one for each id.
unfoldable pub compute_local_shape : Shape → DeviceMesh → PlacementSeq → Outcome (List (ℤ × Shape))
compute_local_shape shape m ps = do
  infos ← get_shard_info m ps
  (even, divided) ← even_loop shape infos true shape
  if even
      then ok ((pos 0, divided) ∷ [])
      else uneven_infos shape m infos (map (λ id. (id, divided)) m.mesh.items)
