-- ===== src/Tests/Clusters.antt =====
-- A cluster of two nodes with two GPUs and one.
use dtorch.Base.{
  ℕ, ◌≡◌, refl, false, List, [], ◌∷◌, arith, if◌then◌else◌, length, All, ok, get_elem?, some, true,
}
use dtorch.Base.Int.{ℤ, pos, lt_ℤ}
use dtorch.DeviceMesh.{gpu, DeviceMesh}
use dtorch.Devices.{
  supports, RunnerSupportedDevices, KernelStreamKey, OperatorAssignInfo, compute, insert_key,
  insert_ids, has_key, insert_input_meshes, insert_output_mesh, all_same_mesh,
  infer_operator_assign_info,
}
use dtorch.Cluster.{ClusterInfo, main, worker, check_support, get_runner_supported_devices_for_node}
use dtorch.Cluster.Nodes.{gpu_at, cpu_at}
use dtorch.Cluster.Owners.{
  owners, HasLocals, IsCluster, get_runner_supported_devices_for_node-owners,
}
use dtorch.Cluster.Assigned.{check_support-owners}

abbrev two_nodes : ClusterInfo
two_nodes = record {
  total_gpu_count = pos 3;
  node_infos =
      record { node_type = main; rank = pos 0; gpu_count = pos 2 }
      ∷ record { node_type = worker; rank = pos 1; gpu_count = pos 1 }
      ∷ [];
  dtensor_in_same_device = false;
}

two_nodes-IsCluster : IsCluster two_nodes
two_nodes-IsCluster = record { total = refl; some_node = omega arith }

get_runner_supported_devices_for_node-owners_example :
    (rs : List RunnerSupportedDevices) × (get_runner_supported_devices_for_node two_nodes ≡ ok rs)
    × (length rs ≡ 2)
    × ((k : ℕ) → owners rs (gpu_at k) ≡ (if lt_ℤ (pos k) (pos 3) then 1 else 0))
    × ((d : ℤ) → owners rs (cpu_at d) ≡ 1)
    × All HasLocals rs
    × ((r : RunnerSupportedDevices) (d : ℤ)
        → get_elem? rs 0 ≡ some r
        → supports r (cpu_at d) ≡ true)
get_runner_supported_devices_for_node-owners_example =
    get_runner_supported_devices_for_node-owners two_nodes two_nodes-IsCluster

abbrev on_gpus : DeviceMesh
on_gpus = record {
  kind = gpu;
  mesh = record {
    shape = pos 2 ∷ [];
    dimension_names = [];
    items = pos 1 ∷ pos 2 ∷ [];
    item_set = pos 1 ∷ pos 2 ∷ [];
  };
}

abbrev stream_at : ℕ → KernelStreamKey
stream_at k = record { device = gpu_at k; stream_type = compute }

abbrev assigned : OperatorAssignInfo
assigned = record { max_gpu_id = pos 2; stream_key_set = stream_at 2 ∷ stream_at 1 ∷ [] }

assigned-inferred : infer_operator_assign_info [] (on_gpus ∷ []) ≡ ok assigned
unfolding infer_operator_assign_info insert_input_meshes insert_output_mesh all_same_mesh insert_ids
    insert_key has_key
assigned-inferred = refl

supported : check_support two_nodes assigned ≡ ok tt
unfolding check_support
supported = refl

abbrev runners : List RunnerSupportedDevices
runners = get_runner_supported_devices_for_node-owners_example.0

check_support-owners_example :
    All (λ k. owners runners k.device ≡ 1) (stream_at 2 ∷ stream_at 1 ∷ [])
check_support-owners_example =
    check_support-owners two_nodes [] (on_gpus ∷ []) two_nodes-IsCluster tt
      ((omega arith, (omega arith, tt)), tt) assigned-inferred supported
      get_runner_supported_devices_for_node-owners_example.1
