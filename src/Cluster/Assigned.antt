-- ===== src/Cluster/Assigned.antt =====
-- The count of GPUs under the operations of a cluster, and the nodes of an operator's kernels.
use dtorch.Base.{
  ℕ, ◌+◌, ◌≡◌, refl, sym, ap, ◌∙◌, subst, inl, inr, true, false, Option, none, some, List, [], ◌∷◌,
  ◌++◌, arith, ltb, if◌then◌else◌, ltb→lt, lt→ltb, Bool-cases, length, All, sum, length-append, ok,
  assert_that, >>=-eq-ok, assert_that-eq-ok, throw_unless-eq-ok, ok-injective, All-map,
}
use dtorch.Base.Int.{ℤ, pos, negsuc, pos_part, neg_part, ◌+ℤ◌, ◌≤ℤ◌, lt_ℤ, le_ℤ}
use dtorch.DeviceMesh.{DeviceKind, cpu, gpu, kind_eq, DeviceMesh, num_axis}
use dtorch.Devices.{
  RunnerSupportedDevices, OperatorAssignInfo, KernelStreamKey, compute, insert_key, insert_ids,
  has_key, insert_input_meshes, insert_output_mesh, all_same_mesh, infer_operator_assign_info,
}
use dtorch.Cluster.{
  NodeInfo, ClusterInfo, get_main_node_info, push_back, cluster_info, with_same_device,
  check_support, get_runner_supported_devices_for_node,
}
use dtorch.Cluster.Nodes.{gpu_at, cpu_at}
use dtorch.Cluster.Owners.{owners, counts, IsCluster, get_runner_supported_devices_for_node-owners}

sum-counts-append :
    (nodes : List NodeInfo) (node : NodeInfo)
    → sum (counts (nodes ++ node ∷ [])) ≡ sum (counts nodes) + pos_part node.gpu_count
sum-counts-append [] node = omega arith
sum-counts-append (n ∷ nodes) node = omega (arith, sum-counts-append nodes node)

push_back-total :
    (c : ClusterInfo) (node : NodeInfo) {c' : ClusterInfo}
    → c.total_gpu_count ≡ pos (sum (counts c.node_infos))
    → push_back c node ≡ ok c'
    → IsCluster c'
unfolding push_back ◌+ℤ◌
push_back-total c node {c'} v h =
    let (u, a, e) = >>=-eq-ok (assert_that (le_ℤ (pos 0) node.gpu_count)) _ h in
    let positive = assert_that-eq-ok (le_ℤ (pos 0) node.gpu_count) a in
    subst IsCluster (ok-injective e) (record {
      total = rw v (ground (arith, positive, sum-counts-append c.node_infos node));
      some_node = omega (arith, length-append c.node_infos (node ∷ []));
    })

abbrev no_nodes : ClusterInfo
no_nodes = record { total_gpu_count = pos 0; node_infos = []; dtensor_in_same_device = false }

abbrev key_at : DeviceKind → ℤ → KernelStreamKey
key_at kind i = record { device = record { kind = kind; id = i }; stream_type = compute }

abbrev empty_info : OperatorAssignInfo
empty_info = record { max_gpu_id = negsuc 0; stream_key_set = [] }

-- A node that joins is counted.
pub push_back-IsCluster :
    (c : ClusterInfo) (node : NodeInfo) {c' : ClusterInfo}
    → IsCluster c
    → push_back c node ≡ ok c'
    → IsCluster c'
push_back-IsCluster c node v h = push_back-total c node v.total h

positive-pos : (a : ℤ) → lt_ℤ (pos 0) a ≡ true → a ≡ pos (pos_part a + 0)
positive-pos (pos n) h = ap pos (omega arith)
positive-pos (negsuc n) h = absurd (ground arith)

with_same_device-IsCluster :
    (c : ClusterInfo) (n : ℕ) (count : ℤ) {c' : ClusterInfo}
    → IsCluster c
    → with_same_device c n count ≡ ok c'
    → IsCluster c'
unfolding with_same_device
with_same_device-IsCluster c n count {c'} v h = elim (Bool-cases (lt_ℤ (pos 0) c.total_gpu_count)) [
  | inr none_there ↦
      subst IsCluster (ok-injective (rw none_there at h))
        (record { total = v.total; some_node = v.some_node })
  | inl some_there ↦
      let (u, a, e) = >>=-eq-ok (assert_that (lt_ℤ (pos 0) count)) _ (rw some_there at h) in
      let positive = assert_that-eq-ok (lt_ℤ (pos 0) count) a in
      subst IsCluster (ok-injective e)
        (record { total = positive-pos count positive; some_node = omega arith })
]

-- So is the main node of a new cluster, also where its tensors are all on one device.
pub cluster_info-IsCluster :
    (n : ℕ) (same_device : Option ℤ) {c : ClusterInfo}
    → cluster_info n same_device ≡ ok c
    → IsCluster c
unfolding cluster_info
cluster_info-IsCluster n none h =
    let (start, run, e) = >>=-eq-ok (push_back no_nodes (get_main_node_info n)) _ h in
    subst IsCluster (ok-injective e) (push_back-total no_nodes (get_main_node_info n) refl run)
cluster_info-IsCluster n (some count) h =
    let (start, run, e) = >>=-eq-ok (push_back no_nodes (get_main_node_info n)) _ h in
    with_same_device-IsCluster start n count
      (push_back-total no_nodes (get_main_node_info n) refl run) e

-- A GPU's id is not negative and at most the maximum.
abbrev Within : ℤ → KernelStreamKey → Type 0
Within m k = kind_eq k.device.kind gpu ≡ true → (pos 0 ≤ℤ k.device.id) × (k.device.id ≤ℤ m)

abbrev IsWithin : OperatorAssignInfo → Type 0
IsWithin info = All (Within info.max_gpu_id) info.stream_key_set

insert_key-IsWithin :
    (k : KernelStreamKey) (info : OperatorAssignInfo)
    → pos 0 ≤ℤ k.device.id
    → IsWithin info
    → IsWithin (insert_key k info)
unfolding insert_key
insert_key-IsWithin k info h v =
    let m = (insert_key k info).max_gpu_id in
    let grows : info.max_gpu_id ≤ℤ m = ground arith in
    let fits : Within m k = λ g. (h, ground arith) in
    let old : All (Within m) info.stream_key_set =
      All-map info.stream_key_set (λ j w g. let (a, b) = w g in (a, omega arith)) v in
    elim (Bool-cases (has_key k info.stream_key_set)) [
      | inl there ↦ rw there old
      | inr new ↦ rw new (fits, old)
    ]

abbrev pub NonNegative : List ℤ → Type 0
NonNegative ids = All (λ i. pos 0 ≤ℤ i) ids

insert_ids-IsWithin :
    (kind : DeviceKind) (ids : List ℤ) (info : OperatorAssignInfo)
    → NonNegative ids
    → IsWithin info
    → IsWithin (insert_ids kind ids info)
unfolding insert_ids
insert_ids-IsWithin kind [] info h v = v
insert_ids-IsWithin kind (i ∷ ids) info (h, hs) v =
    insert_ids-IsWithin kind ids (insert_key (key_at kind i) info) hs
      (insert_key-IsWithin (key_at kind i) info h v)

abbrev pub HasIds : DeviceMesh → Type 0
HasIds m = NonNegative m.mesh.item_set

insert_input_meshes-IsWithin :
    (ms : List DeviceMesh) (info : OperatorAssignInfo) {info' : OperatorAssignInfo}
    → All HasIds ms
    → IsWithin info
    → insert_input_meshes ms info ≡ ok info'
    → IsWithin info'
unfolding insert_input_meshes
insert_input_meshes-IsWithin [] info h v e = subst IsWithin (ok-injective e) v
insert_input_meshes-IsWithin (m ∷ ms) info (h, hs) v e =
    let (u, a, rest) = >>=-eq-ok (assert_that (ltb 0 (num_axis m))) _ e in
    insert_input_meshes-IsWithin ms (insert_ids m.kind m.mesh.item_set info) hs
      (insert_ids-IsWithin m.kind m.mesh.item_set info h v) rest

insert_output_mesh-IsWithin :
    (ms : List DeviceMesh) (info : OperatorAssignInfo) {info' : OperatorAssignInfo}
    → All HasIds ms
    → IsWithin info
    → insert_output_mesh ms info ≡ ok info'
    → IsWithin info'
unfolding insert_output_mesh
insert_output_mesh-IsWithin [] info h v e = subst IsWithin (ok-injective e) v
insert_output_mesh-IsWithin (m ∷ ms) info (h, hs) v e =
    let (u, a, rest) = >>=-eq-ok (assert_that (ltb 0 (num_axis m))) _ e in
    let (u', b, last) = >>=-eq-ok (all_same_mesh m ms) _ rest in
    subst IsWithin (ok-injective last) (insert_ids-IsWithin m.kind m.mesh.item_set info h v)

infer-IsWithin :
    (inputs outputs : List DeviceMesh) {info : OperatorAssignInfo}
    → All HasIds inputs
    → All HasIds outputs
    → infer_operator_assign_info inputs outputs ≡ ok info
    → IsWithin info
unfolding infer_operator_assign_info
infer-IsWithin inputs outputs hi ho e =
    let (info1, a, e1) = >>=-eq-ok (insert_input_meshes inputs empty_info) _ e in
    let (info2, b, e2) = >>=-eq-ok (insert_output_mesh outputs info1) _ e1 in
    let (u, c, e3) = >>=-eq-ok (assert_that (ltb 0 (length info2.stream_key_set))) _ e2 in
    subst IsWithin (ok-injective e3) (
      insert_output_mesh-IsWithin outputs info1 ho
        (insert_input_meshes-IsWithin inputs empty_info hi tt a) b)

-- In a cluster of one node or more that counts the GPUs of its nodes, an operator that passes
-- `CheckSupportOrThrow` has, for each of its kernels, exactly one node of the cluster that runs it,
-- where the ids of its meshes are not negative.
pub check_support-owners :
    (c : ClusterInfo) (inputs outputs : List DeviceMesh) {info : OperatorAssignInfo}
    {rs : List RunnerSupportedDevices} {u : Unit {0}}
    → IsCluster c
    → All HasIds inputs
    → All HasIds outputs
    → infer_operator_assign_info inputs outputs ≡ ok info
    → check_support c info ≡ ok u
    → get_runner_supported_devices_for_node c ≡ ok rs
    → All (λ k. owners rs k.device ≡ 1) info.stream_key_set
unfolding check_support
check_support-owners c inputs outputs {info} {rs} v hi ho e checked run =
    let below = throw_unless-eq-ok (lt_ℤ info.max_gpu_id c.total_gpu_count) checked in
    let (rs', run', size, gpus, cpus, locals, first) =
      get_runner_supported_devices_for_node-owners c v in
    let same : rs' ≡ rs = ok-injective (sym run' ∙ run) in
    let one : (k : KernelStreamKey) → Within info.max_gpu_id k → owners rs k.device ≡ 1 = λ k w.
      subst (λ z. owners z k.device ≡ 1) same
        (of_kind k.device.kind k.device.id info.max_gpu_id rs' w below gpus cpus) in
    All-map info.stream_key_set one (infer-IsWithin inputs outputs hi ho e)
  where
    of_kind :
        (kind : DeviceKind) (id m : ℤ) (rs : List RunnerSupportedDevices)
        → (kind_eq kind gpu ≡ true → (pos 0 ≤ℤ id) × (id ≤ℤ m))
        → lt_ℤ m c.total_gpu_count ≡ true
        → ((k : ℕ) → owners rs (gpu_at k) ≡ (if lt_ℤ (pos k) c.total_gpu_count then 1 else 0))
        → ((i : ℤ) → owners rs (cpu_at i) ≡ 1)
        → owners rs (record { kind = kind; id = id }) ≡ 1
    of_kind cpu id m rs w below gpus cpus = cpus id
    of_kind gpu (negsuc k) m rs w below gpus cpus = let (a, b) = w refl in absurd (omega arith)
    of_kind gpu (pos k) m rs w below gpus cpus =
        let (a, b) = w refl in
        let strict = ltb→lt _ _ below in
        gpus k
        ∙ rw
            (lt→ltb (k + neg_part c.total_gpu_count) (pos_part c.total_gpu_count + 0) (omega arith))
            refl
