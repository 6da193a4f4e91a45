-- ===== src/Devices.antt =====
-- The devices of a runner and their streams, `RunnerSupportedDevices`, and the division of the
-- GPUs of a cluster between its nodes, `ClusterInfo`: dtorch/core/type.h,
-- dtorch/core/runner/runner_supported_devices.{h,cc}, dtorch/core/distributed/cluster_info.{h,cc},
-- `OperatorAssignInfo` of dtorch/core/operators/operator_assign_info.h and its inference in
-- dtorch/core/operators/operator.cc. Serialization is not modelled.
pub mod Local
use dtorch.Base.{
  ℕ, zero, suc, ◌+◌, ◌-◌, ◌*◌, ◌/◌, ◌%◌, ◌^◌, ◌≤◌, ◌<◌, min, max, ◌≡◌, refl, sym, ap, ◌∙◌, subst,
  fun_ext, ◌≢◌, ◌↔◌, ◌⊎◌, inl, inr, Bool, true, false, not, ◌&&◌, ◌||◌, Option, none, some, List,
  [], ◌∷◌, ◌++◌, map, reverse, arith, ltb, leb, ◌==◌, if◌then◌else◌, ==_refl, ==_iff, ltb→lt,
  lt→ltb, leb→le, Bool-cases, Option-cases, and-eq-true, length, get_elem?, set, take, drop,
  replicate, All, sum, product, length-append, length-set, length-drop, length-take,
  length-replicate, length-map, get_elem?-set_ne, get_elem?-set_self, Outcome, ok, invalid_argument,
  aborted, ◌>>=◌, ◌>>◌, assert_that, throw_unless, of_option, >>=-eq-ok, assert_that-eq-ok,
  throw_unless-eq-ok, ok-injective, true≢false, get_elem?-lt, lt_of_get_elem?,
}
use dtorch.Base.Int.{
  ℤ, pos, negsuc, pos_part, neg_part, sub_ℕ, ◌+ℤ◌, ◌-ℤ◌, ◌*ℤ◌, ◌≤ℤ◌, lt_ℤ, le_ℤ, ◌==ℤ◌, max_ℤ,
  to_size, ==ℤ_iff, ==ℤ_refl, max_ℤ_comm, pos-mul,
}
use dtorch.Base.Keys.{is_some}
use dtorch.DeviceMesh.{DeviceKind, cpu, gpu, kind_eq, Device, DeviceMesh, num_axis}
use dtorch.Redistribute.{same_mesh}

abbrev pub device_eq : Device → Device → Bool
device_eq d e = kind_eq d.kind e.kind && d.id ==ℤ e.id

pub data KernelStreamType : Type 0 where
  compute : KernelStreamType
  communicate : KernelStreamType

abbrev pub stream_type_eq : KernelStreamType → KernelStreamType → Bool
stream_type_eq compute compute = true
stream_type_eq communicate communicate = true
stream_type_eq compute communicate = false
stream_type_eq communicate compute = false

pub record KernelStreamKey : Type 0 where
  pub device : Device
  pub stream_type : KernelStreamType

abbrev pub stream_key_eq : KernelStreamKey → KernelStreamKey → Bool
stream_key_eq a b = device_eq a.device b.device && stream_type_eq a.stream_type b.stream_type

-- A device of the cluster and what the node that has it calls it.
pub record DevicePair : Type 0 where
  pub global_device : Device
  pub local_device : Device

pub record RunnerSupportedDevices : Type 0 where
  pub support_cpu : Bool
  pub devices : List DevicePair
  pub global_to_local_map : List (Device × ℕ)

abbrev pub is_cpu : Device → Bool
is_cpu d = kind_eq d.kind cpu

-- `mGlobalToLocalMap.find`
unfoldable pub find_device : Device → List (Device × ℕ) → Option ℕ
find_device d [] = none
find_device d ((e, i) ∷ rest) =
    let later = find_device d rest in if device_eq e d then some i else later

-- The loop of the constructor.
unfoldable pub map_devices : ℕ → List DevicePair → List (Device × ℕ) → Outcome (List (Device × ℕ))
map_devices i [] m = ok m
map_devices i (pair ∷ pairs) m = do
  assert_that (not (is_cpu pair.global_device || is_cpu pair.local_device))
  assert_that (not (is_some (find_device pair.global_device m)))
  map_devices (suc i) pairs ((pair.global_device, i) ∷ m)

unfoldable pub runner_supported_devices : List DevicePair → Bool → Outcome RunnerSupportedDevices
runner_supported_devices pairs support_cpu = do
  m ← map_devices 0 pairs []
  assert_that (length m == length pairs)
  ok (record { support_cpu = support_cpu; devices = pairs; global_to_local_map = m })

-- The two tests that `IsSupported` and `GetSupported` make of a device.
unfoldable pub supports : RunnerSupportedDevices → Device → Bool
supports r d = is_some (find_device d r.global_to_local_map) || (r.support_cpu && is_cpu d)

unfoldable pub is_supported : RunnerSupportedDevices → List Device → Bool
is_supported r [] = false
is_supported r (d ∷ ds) = let rest = is_supported r ds in if supports r d then true else rest

unfoldable pub get_supported : RunnerSupportedDevices → List KernelStreamKey → List KernelStreamKey
get_supported r [] = []
get_supported r (k ∷ ks) =
    let rest = get_supported r ks in if supports r k.device then k ∷ rest else rest

abbrev pub local_of : RunnerSupportedDevices → Device → Outcome Device
local_of r d = do
  i ← of_option (find_device d r.global_to_local_map)
  assert_that (ltb i (length r.devices))
  pair ← of_option (get_elem? r.devices i)
  ok pair.local_device

unfoldable pub global_to_local : RunnerSupportedDevices → Device → Outcome Device
global_to_local r d =
    if is_cpu d
    then assert_that r.support_cpu >> ok (record { kind = cpu; id = pos 0 })
    else local_of r d

pub record OperatorAssignInfo : Type 0 where
  pub max_gpu_id : ℤ
  pub stream_key_set : List KernelStreamKey

unfoldable pub has_key : KernelStreamKey → List KernelStreamKey → Bool
has_key k [] = false
has_key k (j ∷ js) = let rest = has_key k js in if stream_key_eq j k then true else rest

unfoldable pub insert_key : KernelStreamKey → OperatorAssignInfo → OperatorAssignInfo
unfolding has_key
insert_key k info = record {
  max_gpu_id =
      if kind_eq k.device.kind gpu && lt_ℤ info.max_gpu_id k.device.id
      then k.device.id
      else info.max_gpu_id;
  stream_key_set =
      if has_key k info.stream_key_set then info.stream_key_set else k ∷ info.stream_key_set;
}

-- `InferOperatorAssignInfo`: the loop over the ids of a mesh, and those over inputs and outputs.
unfoldable pub insert_ids : DeviceKind → List ℤ → OperatorAssignInfo → OperatorAssignInfo
insert_ids kind [] info = info
insert_ids kind (i ∷ ids) info =
    insert_ids kind ids
      (insert_key (record { device = record { kind = kind; id = i }; stream_type = compute }) info)

unfoldable pub insert_input_meshes :
    List DeviceMesh → OperatorAssignInfo → Outcome OperatorAssignInfo
insert_input_meshes [] info = ok info
insert_input_meshes (m ∷ ms) info = do
  assert_that (ltb 0 (num_axis m))
  insert_input_meshes ms (insert_ids m.kind m.mesh.item_set info)

unfoldable pub all_same_mesh : DeviceMesh → List DeviceMesh → Outcome (Unit {0})
all_same_mesh m [] = ok tt
all_same_mesh m (n ∷ ns) = do same ← same_mesh m n; assert_that same; all_same_mesh m ns

unfoldable pub insert_output_mesh :
    List DeviceMesh → OperatorAssignInfo → Outcome OperatorAssignInfo
insert_output_mesh [] info = ok info
insert_output_mesh (m ∷ ms) info = do
  assert_that (ltb 0 (num_axis m))
  all_same_mesh m ms
  ok (insert_ids m.kind m.mesh.item_set info)

unfoldable pub infer_operator_assign_info :
    List DeviceMesh → List DeviceMesh → Outcome OperatorAssignInfo
infer_operator_assign_info inputs outputs = do
  info ← insert_input_meshes inputs (record { max_gpu_id = negsuc 0; stream_key_set = [] })
  info' ← insert_output_mesh outputs info
  assert_that (ltb 0 (length info'.stream_key_set))
  ok info'
