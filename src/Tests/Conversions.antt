-- ===== src/Tests/Conversions.antt =====
-- A tensor of 8 x 6 elements over 2 x 2 GPUs, from Shard(0), Replicate to Replicate, Shard(1).
use dtorch.Base.{◌≡◌, refl, true, false, none, some, List, [], ◌∷◌, All, ok}
use dtorch.Base.Int.{ℤ, pos, ◌+ℤ◌}
use dtorch.Shape.{is_null_tensor_shape, ◌==ₛ◌}
use dtorch.Placement.{shard_at, replicated, ◌==ₚ◌}
use dtorch.PlacementSeq.{
  PlacementSeq, ◌==ₛₑ◌, to_replicate_when_dim_size_equal_one, replicate_size_one,
  shard_dim_to_positive_number, positive_shard, get_convert_order, order_loop, assign_dim,
}
use dtorch.PlacementSeq.ConvertOrder.{IsExclusive}
use dtorch.DeviceMesh.{gpu, DeviceMesh}
use dtorch.DistributedSpec.{
  check_valid, check_device_id_valid, ids_below, axes_valid, axis_valid, check_shape_valid,
  get_shard_info, shard_info_loop, add_shard, shape_loop,
}
use dtorch.Redistribute.{
  Conversion, ConvertParam, conversion, chosen_placements, same_mesh, same_array, has_names,
  run_func, convert_placements_one_by_one, convert_loop, add_into_graph_constructor,
}
use dtorch.Redistribute.Emitted.{Emits, run_func-Emits}

abbrev ids : List ℤ
ids = pos 0 ∷ pos 1 ∷ pos 2 ∷ pos 3 ∷ []

abbrev mesh : DeviceMesh
mesh = record {
  kind = gpu;
  mesh = record { shape = pos 2 ∷ pos 2 ∷ []; dimension_names = []; items = ids; item_set = ids };
}

abbrev src : PlacementSeq
src = shard_at 0 ∷ replicated ∷ []

abbrev dest : PlacementSeq
dest = replicated ∷ shard_at 1 ∷ []

abbrev call : Conversion
call = record {
  shape = pos 8 ∷ pos 6 ∷ [];
  src_data_kind = 6;
  src_device_mesh = mesh;
  src_placements = src;
  dest_data_kind = 6;
  dest_device_mesh = mesh;
  dest_placements = dest;
  shared = false;
  convert_data_kind = false;
  convert_device_mesh = false;
  convert_placement = true;
}

constructed : conversion (pos 8 ∷ pos 6 ∷ []) 6 mesh src none none (some dest) false ≡ ok call
unfolding conversion chosen_placements same_mesh same_array has_names ◌==ₛ◌ ◌==ₛₑ◌
constructed = refl

abbrev emitted : List ConvertParam
emitted =
    record { data_kind = 6; device_mesh = mesh; placements = shard_at 0 ∷ shard_at 1 ∷ [] }
    ∷ record { data_kind = 6; device_mesh = mesh; placements = dest }
    ∷ []

ran : run_func call (pos 4) ≡ ok emitted
unfolding run_func convert_placements_one_by_one convert_loop add_into_graph_constructor check_valid
    check_device_id_valid ids_below axes_valid axis_valid check_shape_valid get_shard_info
    shard_info_loop add_shard shape_loop is_null_tensor_shape to_replicate_when_dim_size_equal_one
    replicate_size_one shard_dim_to_positive_number positive_shard ◌+ℤ◌ get_convert_order order_loop
    assign_dim ◌==ₚ◌
ran = refl

src-IsExclusive : All IsExclusive src
src-IsExclusive = (refl, (refl, tt))

dest-IsExclusive : All IsExclusive dest
dest-IsExclusive = (refl, (refl, tt))

run_func-Emits_example : Emits call (pos 4) emitted
run_func-Emits_example =
    run_func-Emits call (pos 4) refl refl refl src-IsExclusive dest-IsExclusive ran

-- On 4 x 1 devices the axis of size one is rewritten to Replicate, in the tensor's own sequence where
-- the caller passes a copy of it, so that only the conversion of the mesh is left.
abbrev tall : DeviceMesh
tall = record {
  kind = gpu;
  mesh = record { shape = pos 4 ∷ pos 1 ∷ []; dimension_names = []; items = ids; item_set = ids };
}

abbrev both_shard : PlacementSeq
both_shard = shard_at 0 ∷ shard_at 1 ∷ []

abbrev sharing : Conversion
sharing = record call {
  src_placements = both_shard;
  dest_device_mesh = tall;
  dest_placements = both_shard;
  shared = true;
  convert_device_mesh = true;
}

shared_constructed :
    conversion (pos 8 ∷ pos 6 ∷ []) 6 mesh both_shard none (some tall) (some both_shard) true
    ≡ ok sharing
unfolding conversion chosen_placements same_mesh same_array has_names ◌==ₛ◌ ◌==ₛₑ◌
shared_constructed = refl

shared_ran :
    run_func sharing (pos 4)
    ≡ ok (record { data_kind = 6; device_mesh = tall; placements = src } ∷ [])
unfolding run_func convert_placements_one_by_one convert_loop add_into_graph_constructor check_valid
    check_device_id_valid ids_below axes_valid axis_valid check_shape_valid get_shard_info
    shard_info_loop add_shard shape_loop is_null_tensor_shape to_replicate_when_dim_size_equal_one
    replicate_size_one shard_dim_to_positive_number positive_shard ◌+ℤ◌ get_convert_order order_loop
    assign_dim ◌==ₚ◌
shared_ran = refl
