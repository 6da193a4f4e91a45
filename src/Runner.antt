-- ===== src/Runner.antt =====
-- `NaiveRunner`, which holds the blobs of the operands and makes the kernels of operators:
-- dtorch/core/runner/naive_runner.{h,cc}. An address is a number. The streams, the groups of
-- threads and the kernels' computation are not modelled: a kernel is what it is created from.
pub mod Blobs
pub mod Launch
use Prim.Native.String.{String}
use dtorch.Base.{
  ℕ, zero, suc, ◌+◌, ◌-◌, ◌*◌, ◌/◌, ◌%◌, ◌^◌, ◌≤◌, ◌<◌, min, max, ◌≡◌, refl, sym, ap, ◌∙◌, subst,
  fun_ext, ◌≢◌, ◌↔◌, ◌⊎◌, inl, inr, Bool, true, false, not, ◌&&◌, ◌||◌, Option, none, some, List,
  [], ◌∷◌, ◌++◌, map, reverse, arith, ltb, leb, ◌==◌, if◌then◌else◌, ==_refl, ==_iff, ltb→lt,
  lt→ltb, leb→le, Bool-cases, Option-cases, and-eq-true, length, get_elem?, set, take, drop,
  replicate, All, sum, product, length-append, length-set, length-drop, length-take,
  length-replicate, length-map, get_elem?-set_ne, get_elem?-set_self, Outcome, ok, invalid_argument,
  aborted, ◌>>=◌, ◌>>◌, assert_that, throw_unless, of_option, >>=-eq-ok, assert_that-eq-ok,
  throw_unless-eq-ok, ok-injective, true≢false, get_elem?-lt, lt_of_get_elem?, All-map,
}
use dtorch.Base.Int.{
  ℤ, pos, negsuc, pos_part, neg_part, sub_ℕ, ◌+ℤ◌, ◌-ℤ◌, ◌*ℤ◌, ◌≤ℤ◌, lt_ℤ, le_ℤ, ◌==ℤ◌, max_ℤ,
  to_size, ==ℤ_iff, ==ℤ_refl, max_ℤ_comm, pos-mul,
}
use dtorch.Base.Keys.{is_some, update}
use dtorch.DeviceMesh.{Device, has}
use dtorch.Devices.{
  KernelStreamKey, RunnerSupportedDevices, OperatorAssignInfo, get_supported, global_to_local,
}

-- An operand that an operator makes: its address, its name and the ids of its mesh.
pub record Output : Type 0 where
  pub address : ℕ
  pub name : String
  pub device_id_set : List ℤ

-- An operator: its address, the addresses of its inputs, and its outputs.
pub record Op : Type 0 where
  pub address : ℕ
  pub inputs : List ℕ
  pub outputs : List Output
  pub assign_info : OperatorAssignInfo

abbrev pub addresses : List Output → List ℕ
addresses os = map (λ o. o.address) os

abbrev pub AreDistinct : List ℤ → Type 0
AreDistinct [] = Unit
AreDistinct (x ∷ xs) = (has x xs ≡ false) × AreDistinct xs

-- What the constructor of an operator gives: at least one kernel, and ids from a set.
abbrev pub IsOp : Op → Type 0
IsOp op =
    (0 < length op.assign_info.stream_key_set) × All (λ o. AreDistinct o.device_id_set) op.outputs

-- `AllDeviceBlobs`: the ids that have a blob.
abbrev pub AllDeviceBlobs : Type 0
AllDeviceBlobs = List ℤ

-- `KernelCreateCtx`, and whether the kernel got a store to meet the others in.
pub record Kernel : Type 0 where
  pub op : ℕ
  pub inputs : List AllDeviceBlobs
  pub outputs : List AllDeviceBlobs
  pub stream : KernelStreamKey
  pub local_device : Device
  pub num_kernel_for_this_op : ℕ
  pub has_tensor_store : Bool

pub record NaiveRunner : Type 0 where
  pub supported_devices : RunnerSupportedDevices
  pub operand_to_blobs : ℕ → Option AllDeviceBlobs

unfoldable pub delete_operand : NaiveRunner → ℕ → Outcome NaiveRunner
delete_operand r x = do
  assert_that (is_some (r.operand_to_blobs x))
  ok (record r { operand_to_blobs = update x none r.operand_to_blobs })

unfoldable pub new_blob : ℕ → NaiveRunner → ℤ → Outcome NaiveRunner
new_blob x r device = do
  blobs ← of_option (r.operand_to_blobs x)
  assert_that (not (has device blobs))
  ok (record r { operand_to_blobs = update x (some (device ∷ blobs)) r.operand_to_blobs })

-- The loop over the devices of an output.
unfoldable pub new_blobs : ℕ → NaiveRunner → List ℤ → Outcome NaiveRunner
new_blobs x r [] = ok r
new_blobs x r (device ∷ devices) = do
  blobs ← of_option (r.operand_to_blobs x)
  assert_that (not (has device blobs))
  next ← new_blob x r device
  new_blobs x next devices

unfoldable pub input_blobs : NaiveRunner → List ℕ → Outcome (List AllDeviceBlobs)
input_blobs r [] = ok []
input_blobs r (x ∷ xs) = do
  blobs ← of_option (r.operand_to_blobs x)
  rest ← input_blobs r xs
  ok (blobs ∷ rest)

unfoldable pub output_blobs :
    NaiveRunner → List Output → Outcome (NaiveRunner × List AllDeviceBlobs)
output_blobs r [] = ok (r, [])
output_blobs r (o ∷ os) = do
  assert_that (not (is_some (r.operand_to_blobs o.address)))
  let empty = record r { operand_to_blobs = update o.address (some []) r.operand_to_blobs }
  filled ← new_blobs o.address empty o.device_id_set
  blobs ← of_option (filled.operand_to_blobs o.address)
  (last, rest) ← output_blobs filled os
  ok (last, blobs ∷ rest)

-- The loop over the streams of this runner.
unfoldable pub new_kernels :
    NaiveRunner
    → Op
    → List AllDeviceBlobs
    → List AllDeviceBlobs
    → List KernelStreamKey
    → Outcome (List Kernel)
new_kernels r op inputs outputs [] = ok []
new_kernels r op inputs outputs (key ∷ keys) = do
  local_device ← global_to_local r.supported_devices key.device
  let n = length op.assign_info.stream_key_set
  rest ← new_kernels r op inputs outputs keys
  ok (
      record {
        op = op.address;
        inputs = inputs;
        outputs = outputs;
        stream = key;
        local_device = local_device;
        num_kernel_for_this_op = n;
        has_tensor_store = ltb 1 n;
      }
      ∷ rest)

unfoldable pub create_kernel_for_operator : NaiveRunner → Op → Outcome (NaiveRunner × List Kernel)
create_kernel_for_operator r op = do
  assert_that (ltb 0 (length op.assign_info.stream_key_set))
  inputs ← input_blobs r op.inputs
  (next, outputs) ← output_blobs r op.outputs
  kernels ←
      new_kernels next op inputs outputs
        (get_supported r.supported_devices op.assign_info.stream_key_set)
  ok (next, kernels)

unfoldable pub create_kernels : NaiveRunner → List Op → Outcome (NaiveRunner × List Kernel)
create_kernels r [] = ok (r, [])
create_kernels r (op ∷ ops) = do
  (next, kernels) ← create_kernel_for_operator r op
  (last, rest) ← create_kernels next ops
  ok (last, kernels ++ rest)

unfoldable pub delete_operands : NaiveRunner → List ℕ → Outcome NaiveRunner
delete_operands r [] = ok r
delete_operands r (x ∷ xs) = do next ← delete_operand r x; delete_operands next xs

-- `Execute`: the runner, and the kernels in the order in which they are launched.
unfoldable pub execute : NaiveRunner → List Op → List ℕ → Outcome (NaiveRunner × List Kernel)
execute r ops no_hold_operands = do
  assert_that (ltb 0 (length ops + length no_hold_operands))
  (next, kernels) ← create_kernels r ops
  last ← delete_operands next no_hold_operands
  ok (last, kernels)
