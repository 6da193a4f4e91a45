-- ===== src/Cluster/Owners.antt =====
-- How many nodes run a device, and what the kernels of an operator run on.
use dtorch.Base.{
  ℕ, suc, ◌+◌, ◌<◌, ◌≡◌, refl, ap, Bool, true, ◌&&◌, List, [], ◌∷◌, map, arith, ltb, leb, ◌==◌,
  if◌then◌else◌, length, All, sum, ok, get_elem?, some, sym, ◌∙◌,
}
use dtorch.Base.Int.{ℤ, pos, pos_part, lt_ℤ}
use dtorch.DeviceMesh.{Device}
use dtorch.Devices.{RunnerSupportedDevices, supports, global_to_local}
use dtorch.Cluster.{NodeInfo, ClusterInfo, devices_for_nodes, get_runner_supported_devices_for_node}
use dtorch.Cluster.Nodes.{gpu_at, cpu_at, runner_supported_devices-IsNode}

abbrev pub owners : List RunnerSupportedDevices → Device → ℕ
owners [] d = 0
owners (r ∷ rs) d = (if supports r d then 1 else 0) + owners rs d

abbrev pub counts : List NodeInfo → List ℕ
counts nodes = map (λ node. pos_part node.gpu_count) nodes

-- Every GPU that a runner supports has a local device there.
abbrev pub HasLocals : RunnerSupportedDevices → Type 0
HasLocals r =
    (k : ℕ)
    → supports r (gpu_at k) ≡ true
    → (l : ℕ) × (global_to_local r (gpu_at k) ≡ ok (gpu_at l)) × (l < length r.devices)

devices_for_nodes-owners :
    (same : Bool) (lo i : ℕ) (nodes : List NodeInfo)
    → (rs : List RunnerSupportedDevices) × (devices_for_nodes same lo i nodes ≡ ok rs)
      × (length rs ≡ length nodes)
      × ((k : ℕ)
          → owners rs (gpu_at k) ≡ (if leb lo k && ltb k (lo + sum (counts nodes)) then 1 else 0))
      × ((d : ℤ) → owners rs (cpu_at d) ≡ (if i == 0 && ltb 0 (length nodes) then 1 else 0))
      × All HasLocals rs
      × ((r : RunnerSupportedDevices) (d : ℤ)
          → get_elem? rs 0 ≡ some r
          → supports r (cpu_at d) ≡ (i == 0))
unfolding devices_for_nodes
devices_for_nodes-owners same lo i [] =
    ([], refl, refl, λ k. ground arith, λ d. ground arith, tt, λ r d e. cc)
devices_for_nodes-owners same lo i (node ∷ nodes) =
    let n = pos_part node.gpu_count in
    let (r, run, v) = runner_supported_devices-IsNode same lo n (i == 0) in
    let (rs, rest, size, counted, cpus, locals, later) =
      devices_for_nodes-owners same (lo + n) (suc i) nodes in
    (
      r ∷ rs,
      rw (run, rest) refl,
      ap suc size,
      λ k. ground (arith, v.owns k, counted k),
      λ d. ground (arith, v.cpu_owner d, cpus d),
      (v.local, locals),
      λ s d e. let same : r ≡ s = cc in ap (λ z. supports z (cpu_at d)) (sym same) ∙ v.cpu_owner d,
    )

-- The count of GPUs is the sum over the nodes.
pub record IsCluster (c : ClusterInfo) : Type 0 where
  pub total : c.total_gpu_count ≡ pos (sum (counts c.node_infos))
  pub some_node : 0 < length c.node_infos

-- In a cluster of one node or more that counts the GPUs of its nodes, the nodes' runners exist, no
-- assertion fails, and they divide the devices: a GPU below the
-- count of the cluster is a device of exactly one node, any other of none, and the CPU is of exactly
-- one, the first. On its node a GPU has a local device below the number of devices there.
pub get_runner_supported_devices_for_node-owners :
    (c : ClusterInfo)
    → IsCluster c
    → (rs : List RunnerSupportedDevices) × (get_runner_supported_devices_for_node c ≡ ok rs)
      × (length rs ≡ length c.node_infos)
      × ((k : ℕ) → owners rs (gpu_at k) ≡ (if lt_ℤ (pos k) c.total_gpu_count then 1 else 0))
      × ((d : ℤ) → owners rs (cpu_at d) ≡ 1)
      × All HasLocals rs
      × ((r : RunnerSupportedDevices) (d : ℤ)
          → get_elem? rs 0 ≡ some r
          → supports r (cpu_at d) ≡ true)
unfolding get_runner_supported_devices_for_node
get_runner_supported_devices_for_node-owners c v =
    let (rs, run, size, counted, cpus, locals, first) =
      devices_for_nodes-owners c.dtensor_in_same_device 0 0 c.node_infos in
    let some_node = v.some_node in
    (
      rs,
      run,
      size,
      λ k. rw v.total (ground (arith, counted k)),
      λ d. ground (arith, cpus d),
      locals,
      first,
    )
