-- ===== src/Cluster.antt =====
-- The division of the GPUs of a cluster between its nodes, `ClusterInfo`:
-- dtorch/core/distributed/cluster_info.{h,cc}. The address of the main node and serialization are
-- not modelled. The number of CUDA devices of a node is a parameter, as it comes from torch.
pub mod Nodes
pub mod Owners
pub mod Assigned
use dtorch.Base.{
  ℕ, zero, suc, ◌+◌, ◌-◌, ◌*◌, ◌/◌, ◌%◌, ◌^◌, ◌≤◌, ◌<◌, min, max, ◌≡◌, refl, sym, ap, ◌∙◌, subst,
  fun_ext, ◌≢◌, ◌↔◌, ◌⊎◌, inl, inr, Bool, true, false, not, ◌&&◌, ◌||◌, Option, none, some, List,
  [], ◌∷◌, ◌++◌, map, reverse, arith, ltb, leb, ◌==◌, if◌then◌else◌, ==_refl, ==_iff, ltb→lt,
  lt→ltb, leb→le, Bool-cases, Option-cases, and-eq-true, length, get_elem?, set, take, drop,
  replicate, All, sum, product, length-append, length-set, length-drop, length-take,
  length-replicate, length-map, get_elem?-set_ne, get_elem?-set_self, Outcome, ok, invalid_argument,
  aborted, ◌>>=◌, ◌>>◌, assert_that, throw_unless, of_option, >>=-eq-ok, assert_that-eq-ok,
  throw_unless-eq-ok, ok-injective, true≢false, get_elem?-lt, lt_of_get_elem?,
}
use dtorch.Base.Int.{
  ℤ, pos, negsuc, pos_part, neg_part, sub_ℕ, ◌+ℤ◌, ◌-ℤ◌, ◌*ℤ◌, ◌≤ℤ◌, lt_ℤ, le_ℤ, ◌==ℤ◌, max_ℤ,
  to_size, ==ℤ_iff, ==ℤ_refl, max_ℤ_comm, pos-mul,
}
use dtorch.DeviceMesh.{DeviceKind, cpu, gpu, Device}
use dtorch.Devices.{
  DevicePair, RunnerSupportedDevices, runner_supported_devices, OperatorAssignInfo,
}

pub data NodeType : Type 0 where
  main : NodeType
  worker : NodeType

pub record NodeInfo : Type 0 where
  pub node_type : NodeType
  pub rank : ℤ
  pub gpu_count : ℤ

abbrev pub get_main_node_info : ℕ → NodeInfo
get_main_node_info cuda_device_count = record {
  node_type = main;
  rank = pos 0;
  gpu_count = pos cuda_device_count;
}

abbrev pub get_worker_node_info : ℤ → NodeInfo
get_worker_node_info gpu_count = record {
  node_type = worker;
  rank = negsuc 0;
  gpu_count = gpu_count;
}

pub record ClusterInfo : Type 0 where
  pub total_gpu_count : ℤ
  pub node_infos : List NodeInfo
  pub dtensor_in_same_device : Bool

unfoldable pub push_back : ClusterInfo → NodeInfo → Outcome ClusterInfo
push_back c node = do
  assert_that (le_ℤ (pos 0) node.gpu_count)
  ok (record c {
    total_gpu_count = c.total_gpu_count +ℤ node.gpu_count;
    node_infos = c.node_infos ++ node ∷ [];
  })

-- The constructor. `same_device` holds `GetNumGpuWhenEnableDtensorInSameDevice` where the option
-- of tensors on one device is set.
unfoldable pub with_same_device : ClusterInfo → ℕ → ℤ → Outcome ClusterInfo
with_same_device c cuda_device_count count =
    if lt_ℤ (pos 0) c.total_gpu_count
    then (do
      assert_that (lt_ℤ (pos 0) count)
      ok (record c {
        total_gpu_count = count;
        node_infos = record (get_main_node_info cuda_device_count) { gpu_count = count } ∷ [];
        dtensor_in_same_device = true;
      }))
    else ok (record c { dtensor_in_same_device = true })

unfoldable pub cluster_info : ℕ → Option ℤ → Outcome ClusterInfo
cluster_info cuda_device_count same_device = do
  c ←
      push_back
        (record { total_gpu_count = pos 0; node_infos = []; dtensor_in_same_device = false })
        (get_main_node_info cuda_device_count)
  elim same_device [ none ↦ ok c | some count ↦ with_same_device c cuda_device_count count ]

-- `GetGpuDevices` and `GetAllDevices`
unfoldable pub gpu_devices_from : ℕ → ℕ → List Device
gpu_devices_from i zero = []
gpu_devices_from i (suc n) = record { kind = gpu; id = pos i } ∷ gpu_devices_from (suc i) n

unfoldable pub get_gpu_devices : ClusterInfo → List Device
get_gpu_devices c = gpu_devices_from 0 (pos_part c.total_gpu_count)

unfoldable pub get_all_devices : ClusterInfo → List Device
get_all_devices c = record { kind = cpu; id = pos 0 } ∷ get_gpu_devices c

-- The loops of `GetRunnerSupportedDevicesForNode`: over the GPUs of a node, with the number of
-- rounds left, and over the nodes.
unfoldable pub node_pairs : Bool → ℕ → ℕ → ℕ → List DevicePair
node_pairs same_device counter gpu_idx zero = []
node_pairs same_device counter gpu_idx (suc n) =
    record {
      global_device = record { kind = gpu; id = pos counter };
      local_device = record { kind = gpu; id = if same_device then pos 0 else pos gpu_idx };
    }
    ∷ node_pairs same_device (suc counter) (suc gpu_idx) n

unfoldable pub devices_for_nodes :
    Bool → ℕ → ℕ → List NodeInfo → Outcome (List RunnerSupportedDevices)
devices_for_nodes same_device counter i [] = ok []
devices_for_nodes same_device counter i (node ∷ nodes) = do
  let n = pos_part node.gpu_count
  r ← runner_supported_devices (node_pairs same_device counter 0 n) (i == 0)
  rest ← devices_for_nodes same_device (counter + n) (suc i) nodes
  ok (r ∷ rest)

unfoldable pub get_runner_supported_devices_for_node :
    ClusterInfo → Outcome (List RunnerSupportedDevices)
get_runner_supported_devices_for_node c =
    devices_for_nodes c.dtensor_in_same_device 0 0 c.node_infos

-- `EagerGraphExecutor::CheckSupportOrThrow`
unfoldable pub check_support : ClusterInfo → OperatorAssignInfo → Outcome (Unit {0})
check_support c info = throw_unless (lt_ℤ info.max_gpu_id c.total_gpu_count)
