-- ===== src/Tests/Inference.antt =====
-- Two tensors of 8 x 6 elements over two GPUs, both sharded by rows, in a binary operator.
use dtorch.Base.{
  All, ◌↔◌, ℕ, zero, suc, ◌/◌, ◌%◌, ◌≡◌, refl, true, false, some, List, [], ◌∷◌, arith, length,
  get_elem?, ok,
}
use dtorch.Base.Int.{ℤ, pos}
use dtorch.Shape.{is_null_tensor_shape, ◌==ₛ◌}
use dtorch.Placement.{shard_at, replicated, to_hash_key}
use dtorch.DeviceMesh.{gpu, DeviceMesh}
use dtorch.DistributedSpec.{
  check_valid, check_device_id_valid, ids_below, axes_valid, axis_valid, check_shape_valid,
  get_shard_info, shard_info_loop, add_shard, shape_loop, compute_local_shape,
}
use dtorch.DistributedSpec.ShardInfos.{is_sharded, axis_product}
use dtorch.DistributedSpec.Validity.{IsMesh}
use dtorch.DistributedSpec.LocalShape.{compute_local_shape-even}
use dtorch.Redistribute.{same_mesh, same_array, has_names}
use dtorch.Signature.{
  PlacementSignature, finish, build, replicate_inputs, add_pairs, add_pair, get_hash_key, key_loop,
  put, find, match_signature, match_loop, column, set_output, push_column, first_sub_split,
}
use dtorch.Signature.Lookup.{IsTable}
use dtorch.Signature.Finish.{idle, finish-IsTable}
use dtorch.Operators.Inference.{
  Operand, check_input, data_kind_loop, distributed_loop, device_mesh_loop, distributed_spec_loop,
  infer_distributed_spec, assign_loop,
}
use dtorch.Operators.Inference.Checked.{Passes, check_input-Passes}
use dtorch.Operators.Inference.Inferred.{Infers, infer_distributed_spec-Infers}

abbrev mesh : DeviceMesh
mesh = record {
  kind = gpu;
  mesh = record {
    shape = pos 2 ∷ [];
    dimension_names = [];
    items = pos 0 ∷ pos 1 ∷ [];
    item_set = pos 0 ∷ pos 1 ∷ [];
  };
}

abbrev tensor : Operand
tensor = record {
  shape = pos 8 ∷ pos 6 ∷ [];
  data_kind = 6;
  device_mesh = mesh;
  placements = shard_at 0 ∷ [];
}

abbrev fresh : Operand
fresh = record { shape = pos 8 ∷ pos 6 ∷ []; data_kind = 6; device_mesh = mesh; placements = [] }

checked : check_input true (pos 2) (tensor ∷ tensor ∷ []) ≡ ok tt
unfolding check_input data_kind_loop distributed_loop device_mesh_loop distributed_spec_loop
    is_null_tensor_shape same_mesh same_array has_names ◌==ₛ◌ check_valid check_device_id_valid
    ids_below axes_valid axis_valid check_shape_valid get_shard_info shard_info_loop add_shard
    shape_loop
checked = refl

mesh-IsMesh : IsMesh mesh (2 ∷ [])
mesh-IsMesh = record { dims = refl; positive = (omega arith, tt); few = omega arith }

check_input-Passes_example :
    (check_input true (pos 2) (tensor ∷ tensor ∷ []) ≡ ok tt)
    ↔ All (Passes true (pos 2) (λ o. 2 ∷ []) tensor) (tensor ∷ tensor ∷ [])
check_input-Passes_example =
    check_input-Passes true (pos 2) (λ o. 2 ∷ []) tensor (tensor ∷ [])
      (mesh-IsMesh, (mesh-IsMesh, tt))

abbrev signature : PlacementSignature
signature = record {
  input_size = 2;
  output_size = 1;
  all_signature =
      (shard_at 0 ∷ shard_at 0 ∷ [], shard_at 0 ∷ [])
      ∷ (replicated ∷ replicated ∷ [], replicated ∷ [])
      ∷ [];
  signature_map = (1028, shard_at 0 ∷ []) ∷ (61937, replicated ∷ []) ∷ [];
}

finished :
    finish (idle 2 1 ((shard_at 0 ∷ shard_at 0 ∷ [], shard_at 0 ∷ []) ∷ []) []) ≡ ok signature
unfolding finish build replicate_inputs add_pairs add_pair get_hash_key key_loop to_hash_key put
finished = refl

signature-IsTable : IsTable signature
signature-IsTable =
    (finish-IsTable (idle 2 1 ((shard_at 0 ∷ shard_at 0 ∷ [], shard_at 0 ∷ []) ∷ []) []) signature
      finished).0

inferred :
    infer_distributed_spec (ok signature) true (tensor ∷ tensor ∷ []) (fresh ∷ [])
    ≡ ok (tensor ∷ [])
unfolding infer_distributed_spec match_signature match_loop column get_hash_key key_loop to_hash_key
    find set_output push_column first_sub_split assign_loop check_shape_valid get_shard_info
    shard_info_loop add_shard shape_loop
inferred = refl

infer_distributed_spec-Infers_example :
    Infers signature true (tensor ∷ tensor ∷ []) (fresh ∷ []) (tensor ∷ [])
infer_distributed_spec-Infers_example =
    infer_distributed_spec-Infers signature true (tensor ∷ tensor ∷ []) (fresh ∷ [])
      signature-IsTable inferred

rows_are_even :
    (d : ℕ)
    → is_sharded d (shard_at 0 ∷ []) ≡ true
    → (n : ℕ) × (get_elem? tensor.shape d ≡ some (pos n))
      × (n % axis_product d (2 ∷ []) (shard_at 0 ∷ []) ≡ 0)
rows_are_even zero e = (8, refl, refl)
rows_are_even (suc d) e = absurd (ground arith)

compute_local_shape-even_example :
    (out : List ℤ) × (compute_local_shape tensor.shape mesh (shard_at 0 ∷ [])
      ≡ ok ((pos 0, out) ∷ []))
    × (length out ≡ 2)
    × ((d : ℕ)
        → is_sharded d (shard_at 0 ∷ []) ≡ false
        → get_elem? out d ≡ get_elem? tensor.shape d)
    × ((d n : ℕ)
        → is_sharded d (shard_at 0 ∷ []) ≡ true
        → get_elem? tensor.shape d ≡ some (pos n)
        → get_elem? out d ≡ some (pos (n / axis_product d (2 ∷ []) (shard_at 0 ∷ []))))
compute_local_shape-even_example =
    compute_local_shape-even tensor.shape mesh (2 ∷ []) (shard_at 0 ∷ []) mesh-IsMesh
      (λ e. omega arith, tt) refl rows_are_even
