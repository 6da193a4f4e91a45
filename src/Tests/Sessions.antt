-- ===== src/Tests/Sessions.antt =====
-- A session on one GPU: an operator makes a tensor, which the executor then runs.
use dtorch.Base.{
  ℕ, ◌≡◌, refl, inr, true, false, none, some, List, [], ◌∷◌, arith, if◌then◌else◌, ok, aborted,
}
use dtorch.Base.Int.{pos}
use dtorch.Base.Keys.{bump, erase_all, insert_all, update}
use dtorch.DeviceMesh.{gpu, Device, has}
use dtorch.Devices.{
  DevicePair, RunnerSupportedDevices, KernelStreamKey, compute, runner_supported_devices,
  map_devices, find_device, get_supported, supports, global_to_local,
}
use dtorch.Devices.Local.{Localizes, runner_supported_devices-Localizes}
use dtorch.Cluster.{ClusterInfo, main, check_support}
use dtorch.Runner.{
  Op, Kernel, NaiveRunner, new_blob, new_blobs, input_blobs, output_blobs, new_kernels,
  create_kernel_for_operator, create_kernels, delete_operands, execute,
}
use dtorch.Runner.Launch.{execute-Runs, launches, expected}
use dtorch.Runner.Blobs.{operands}
use dtorch.Graph.{
  Message, add_operator, GraphConstructor, OperandCache, init_operand_cache, init_operand_caches,
  send_operator_to_executor, ref_count_increase, new_tensors, add_operator_to_graph,
}
use dtorch.Executor.{
  LogicalGraph, graph_add_operands, graph_add_operand, graph_add_operator, process_message,
  take_operators, graph_delete_operator, graph_delete_operands, from_vec, from_vec_loop,
  insert_after, count_operator, execute_operators_and_no_hold_operands, execute_round,
}
use dtorch.Executor.Traversal.{distinct, from_vec-distinct}
use dtorch.Session.{System, new_session, Step, add, receive, round, Reachable, here, next}
use dtorch.Session.Safety.{
  CountsTensors, NeverAborts, Reachable-CountsTensors, Reachable-NeverAborts,
}
use dtorch.Session.Drain.{IsQuiet, KeepsHeld, Works, Reachable-KeepsHeld, Reachable-Works}

abbrev gpu_zero : Device
gpu_zero = record { kind = gpu; id = pos 0 }

abbrev pairs : List DevicePair
pairs = record { global_device = gpu_zero; local_device = gpu_zero } ∷ []

abbrev devices : RunnerSupportedDevices
devices = record { support_cpu = true; devices = pairs; global_to_local_map = (gpu_zero, 0) ∷ [] }

devices-made : runner_supported_devices pairs true ≡ ok devices
unfolding runner_supported_devices map_devices find_device
devices-made = refl

runner_supported_devices-Localizes_example : Localizes devices
runner_supported_devices-Localizes_example =
    runner_supported_devices-Localizes pairs true devices-made

abbrev one_gpu : ClusterInfo
one_gpu = record {
  total_gpu_count = pos 1;
  node_infos = record { node_type = main; rank = pos 0; gpu_count = pos 1 } ∷ [];
  dtensor_in_same_device = false;
}

abbrev stream : KernelStreamKey
stream = record { device = gpu_zero; stream_type = compute }

abbrev make_x : Op
make_x = record {
  address = 1;
  inputs = [];
  outputs = record { address = 10; name = "x"; device_id_set = pos 0 ∷ [] } ∷ [];
  assign_info = record { max_gpu_id = pos 0; stream_key_set = stream ∷ [] };
}

abbrev x_cache : ℕ → OperandCache
x_cache n = record { name = "x"; api_tensor_ref_count = n }

abbrev with_x : List Message → GraphConstructor
with_x messages = record {
  operand_caches = update 10 (some (x_cache 1)) (update 10 (some (x_cache 0)) (λ y. none));
  graph_name = "";
  messages = messages;
}

abbrev start : System
start = new_session devices

abbrev added : System
added = record start { constructor = with_x (add_operator make_x ∷ []); tensors = bump 10 (λ y. 0) }

add_x : Step one_gpu start added
unfolding add_operator_to_graph check_support send_operator_to_executor init_operand_caches
    init_operand_cache new_tensors ref_count_increase has
add_x = add make_x [] tt ((refl, tt), refl) (omega arith, ((refl, tt), tt)) refl

added-Reachable : Reachable one_gpu start added
added-Reachable = next here add_x

abbrev graph_with_x : LogicalGraph
graph_with_x = record {
  name = "";
  operators = update 1 (some make_x) (λ y. none);
  operands = update 10 (some "x") (λ y. none);
}

abbrev taken : System
taken = record {
  constructor = with_x [];
  executor = record (start.executor) {
    logical_graph = graph_with_x;
    new_add_operator_sequence = 1 ∷ [];
  };
  received = 1;
  launched = [];
  tensors = bump 10 (λ y. 0);
}

take_x : Step one_gpu added taken
unfolding process_message graph_add_operands graph_add_operand graph_add_operator
take_x = receive (add_operator make_x) [] refl (omega arith) refl

abbrev runner_with_x : NaiveRunner
runner_with_x = record {
  supported_devices = devices;
  operand_to_blobs = update 10 (some (pos 0 ∷ [])) (update 10 (some []) (λ y. none));
}

abbrev x_kernel : Kernel
x_kernel = record {
  op = 1;
  inputs = [];
  outputs = (pos 0 ∷ []) ∷ [];
  stream = stream;
  local_device = gpu_zero;
  num_kernel_for_this_op = 1;
  has_tensor_store = false;
}

abbrev ran : System
ran = record {
  constructor = with_x [];
  executor = record {
    new_add_operator_sequence = [];
    new_add_no_hold_operand = [];
    logical_graph = record graph_with_x {
      operators = update 1 none (update 1 (some make_x) (λ y. none));
    };
    runner = runner_with_x;
  };
  received = 0;
  launched = x_kernel ∷ [];
  tensors = bump 10 (λ y. 0);
}

run_x : Step one_gpu taken ran
unfolding execute_round from_vec from_vec_loop insert_after count_operator
    execute_operators_and_no_hold_operands take_operators graph_delete_operator
    graph_delete_operands execute create_kernels create_kernel_for_operator input_blobs output_blobs
    new_blobs new_blob new_kernels delete_operands get_supported supports find_device
    global_to_local has
run_x = round (omega arith) (inr refl) refl

ran-Reachable : Reachable one_gpu start ran
ran-Reachable = next (next added-Reachable take_x) run_x

Reachable-CountsTensors_example : CountsTensors added
Reachable-CountsTensors_example =
    Reachable-CountsTensors devices runner_supported_devices-Localizes_example added-Reachable

Reachable-NeverAborts_example : NeverAborts one_gpu ran
Reachable-NeverAborts_example =
    Reachable-NeverAborts devices runner_supported_devices-Localizes_example ran-Reachable

Reachable-KeepsHeld_example : KeepsHeld ran
Reachable-KeepsHeld_example =
    Reachable-KeepsHeld devices runner_supported_devices-Localizes_example ran-Reachable
      (refl, refl)

Reachable-Works_example :
    (t : System) × Works one_gpu added t × IsQuiet t × (t.tensors ≡ added.tensors) × KeepsHeld t
Reachable-Works_example =
    Reachable-Works devices runner_supported_devices-Localizes_example added-Reachable

execute-Runs_example :
    (r : NaiveRunner) × (kernels : List Kernel) × (execute start.executor.runner
        (make_x ∷ [])
        (10 ∷ [])
      ≡ ok (r, kernels))
    × (operands r ≡ erase_all (10 ∷ []) (insert_all (10 ∷ []) (λ y. false)))
    × (r.supported_devices ≡ devices)
    × (launches kernels ≡ expected devices (make_x ∷ []))
execute-Runs_example =
    execute-Runs start.executor.runner (make_x ∷ []) (10 ∷ []) (insert_all (10 ∷ []) (λ y. false))
      runner_supported_devices-Localizes_example (omega arith)
      (tt, (refl, tt), (omega arith, ((unfold has in refl, tt), tt)), refl) (refl, tt)

abbrev twice_four : List ℕ
twice_four = 4 ∷ 7 ∷ 4 ∷ []

from_vec-distinct_example :
    from_vec twice_four ≡ (if distinct twice_four then ok twice_four else aborted)
from_vec-distinct_example = from_vec-distinct twice_four
