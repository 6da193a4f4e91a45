-- ===== src/Session.antt =====
-- A session: the interface's thread, which adds operators and makes, copies and ends tensors, the
-- executor's thread, and the queue between them, as a relation between states. Each call on the
-- graph's constructor is one step; `EGEMessageQueue::ProcessMessages` of
-- dtorch/core/graph/eager_graph_executor_message.cc is a step for each message that it dequeues,
-- and it ends at a hundred messages or at an empty queue, but not before the first.
pub mod Queue
pub mod Batch
pub mod Round
pub mod Sound
pub mod Safety
pub mod Drain
use Prim.Native.String.{String}
use dtorch.Base.{
  ℕ, zero, suc, ◌+◌, ◌-◌, ◌*◌, ◌/◌, ◌%◌, ◌^◌, ◌≤◌, ◌<◌, min, max, ◌≡◌, refl, sym, ap, ◌∙◌, subst,
  fun_ext, ◌≢◌, ◌↔◌, ◌⊎◌, inl, inr, Bool, true, false, not, ◌&&◌, ◌||◌, Option, none, some, List,
  [], ◌∷◌, ◌++◌, map, reverse, arith, ltb, leb, ◌==◌, if◌then◌else◌, ==_refl, ==_iff, ltb→lt,
  lt→ltb, leb→le, Bool-cases, Option-cases, and-eq-true, length, get_elem?, set, take, drop,
  replicate, All, sum, product, length-append, length-set, length-drop, length-take,
  length-replicate, length-map, get_elem?-set_ne, get_elem?-set_self, Outcome, ok, invalid_argument,
  aborted, ◌>>=◌, ◌>>◌, assert_that, throw_unless, of_option, >>=-eq-ok, assert_that-eq-ok,
  throw_unless-eq-ok, ok-injective, true≢false, get_elem?-lt, lt_of_get_elem?, All-map,
}
use dtorch.Base.Int.{
  ℤ, pos, negsuc, pos_part, neg_part, sub_ℕ, ◌+ℤ◌, ◌-ℤ◌, ◌*ℤ◌, ◌≤ℤ◌, lt_ℤ, le_ℤ, ◌==ℤ◌, max_ℤ,
  to_size, ==ℤ_iff, ==ℤ_refl, max_ℤ_comm, pos-mul,
}
use dtorch.Base.Keys.{
  bump, bump_all, lower, Keys, insert, erase, insert_all, erase_all, AllNew, is_some, keys,
}
use dtorch.DeviceMesh.{has}
use dtorch.Devices.{RunnerSupportedDevices}
use dtorch.Cluster.{ClusterInfo}
use dtorch.Runner.{addresses, AreDistinct, IsOp, Output, Op, Kernel, NaiveRunner}
use dtorch.Graph.{
  Message, add_operator, api_tensor_no_hold, set_graph_name, set_operand_name, GraphConstructor,
  OperandCache, ref_count_increase, ref_count_decrease, add_operator_to_graph, set_name,
  set_name_of_operand,
}
use dtorch.Executor.{LogicalGraph, EagerGraphExecutor, process_message, execute_round}

-- The two threads' objects and the queue, the kernels that were launched, and how many tensors of
-- the interface there are of each operand, which the code keeps nowhere.
pub record System : Type 0 where
  pub constructor : GraphConstructor
  pub executor : EagerGraphExecutor
  pub received : ℕ
  pub launched : List Kernel
  pub tensors : ℕ → ℕ

abbrev pub empty_graph : LogicalGraph
empty_graph = record { name = ""; operators = λ x. none; operands = λ x. none }

-- A new session.
abbrev pub new_session : RunnerSupportedDevices → System
new_session devices = record {
  constructor = record { operand_caches = λ x. none; graph_name = ""; messages = [] };
  executor = record {
    new_add_operator_sequence = [];
    new_add_no_hold_operand = [];
    logical_graph = empty_graph;
    runner = record { supported_devices = devices; operand_to_blobs = λ x. none };
  };
  received = 0;
  launched = [];
  tensors = λ x. 0;
}

-- The addresses in use: operands that a tensor holds, operands that exist, operators that exist.
pub record Live : Type 0 where
  pub held : Keys
  pub alive : Keys
  pub operators : Keys

-- What the executor has, and what it will have after a message or several.
abbrev pub view : EagerGraphExecutor → Live
view e = record {
  held = erase_all e.new_add_no_hold_operand (keys e.logical_graph.operands);
  alive = keys e.logical_graph.operands;
  operators = keys e.logical_graph.operators;
}

abbrev pub after : Message → Live → Live
after (add_operator op) l = record {
  held = insert_all (addresses op.outputs) l.held;
  alive = insert_all (addresses op.outputs) l.alive;
  operators = insert op.address l.operators;
}
after (api_tensor_no_hold x) l = record l { held = erase x l.held }
after (set_graph_name name) l = l
after (set_operand_name x name) l = l

abbrev pub pending : List Message → Live → Live
pending [] l = l
pending (m ∷ ms) l = pending ms (after m l)

-- The allocator gives no address that is in use: objects in the graph or in a message exist.
abbrev pub IsFresh : Live → Op → Type 0
IsFresh l op = AllNew l.alive (addresses op.outputs) × (l.operators op.address ≡ false)

-- A tensor of the interface holds the operand.
abbrev pub IsHeld : System → ℕ → Type 0
IsHeld s x = 0 < s.tensors x

pub data Step (cluster : ClusterInfo) : System → System → Type 0 where
  add :
      {s : System} {g : GraphConstructor} (op : Op) (same_graph : List Bool)
      → All (IsHeld s) op.inputs
      → IsFresh (pending s.constructor.messages (view s.executor)) op
      → IsOp op
      → add_operator_to_graph s.constructor cluster same_graph (ok op) ≡ ok g
      → Step cluster s
          (record s { constructor = g; tensors = bump_all (addresses op.outputs) s.tensors })
  copy :
      {s : System} {g : GraphConstructor} (x : ℕ)
      → IsHeld s x
      → ref_count_increase s.constructor x ≡ ok g
      → Step cluster s (record s { constructor = g; tensors = bump x s.tensors })
  end_tensor :
      {s : System} {g : GraphConstructor} (x : ℕ)
      → IsHeld s x
      → ref_count_decrease s.constructor x ≡ ok g
      → Step cluster s (record s { constructor = g; tensors = lower x s.tensors })
  name_graph :
      {s : System} (name : String)
      → Step cluster s (record s { constructor = set_name s.constructor name })
  name_operand :
      {s : System} {g : GraphConstructor} (x : ℕ) (name : String)
      → IsHeld s x
      → set_name_of_operand s.constructor x name ≡ ok g
      → Step cluster s (record s { constructor = g })
  receive :
      {s : System} {e : EagerGraphExecutor} (m : Message) (ms : List Message)
      → s.constructor.messages ≡ m ∷ ms
      → s.received < 100
      → process_message s.executor m ≡ ok e
      → Step cluster s (record s {
        constructor = record (s.constructor) { messages = ms };
        executor = e;
        received = s.received + 1;
      })
  round :
      {s : System} {e : EagerGraphExecutor} {kernels : List Kernel}
      → 0 < s.received
      → (s.received ≡ 100) ⊎ (s.constructor.messages ≡ [])
      → execute_round s.executor ≡ ok (e, kernels)
      → Step cluster s (record s { executor = e; received = 0; launched = s.launched ++ kernels })

pub data Reachable (cluster : ClusterInfo) (start : System) : System → Type 0 where
  here : Reachable cluster start start
  next : {s t : System} → Reachable cluster start s → Step cluster s t → Reachable cluster start t
