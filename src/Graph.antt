-- ===== src/Graph.antt =====
-- `GraphConstructor`, which counts the tensors of the interface that hold an operand and sends the
-- messages of a session: dtorch/core/graph/graph_constructor.{h,cc},
-- eager_graph_executor_message.{h,cc} and eager_graph_executor_message_imp.h. An address is a
-- number. The lock of the Python interpreter is not modelled.
pub mod Counts
use Prim.Native.String.{String}
use dtorch.Base.{
  ℕ, zero, suc, ◌+◌, ◌-◌, ◌*◌, ◌/◌, ◌%◌, ◌^◌, ◌≤◌, ◌<◌, min, max, ◌≡◌, refl, sym, ap, ◌∙◌, subst,
  fun_ext, ◌≢◌, ◌↔◌, ◌⊎◌, inl, inr, Bool, true, false, not, ◌&&◌, ◌||◌, Option, none, some, List,
  [], ◌∷◌, ◌++◌, map, reverse, arith, ltb, leb, ◌==◌, if◌then◌else◌, ==_refl, ==_iff, ltb→lt,
  lt→ltb, leb→le, Bool-cases, Option-cases, and-eq-true, length, get_elem?, set, take, drop,
  replicate, All, sum, product, length-append, length-set, length-drop, length-take,
  length-replicate, length-map, get_elem?-set_ne, get_elem?-set_self, Outcome, ok, invalid_argument,
  aborted, ◌>>=◌, ◌>>◌, assert_that, throw_unless, of_option, >>=-eq-ok, assert_that-eq-ok,
  throw_unless-eq-ok, ok-injective, true≢false, get_elem?-lt, lt_of_get_elem?,
}
use dtorch.Base.Int.{
  ℤ, pos, negsuc, pos_part, neg_part, sub_ℕ, ◌+ℤ◌, ◌-ℤ◌, ◌*ℤ◌, ◌≤ℤ◌, lt_ℤ, le_ℤ, ◌==ℤ◌, max_ℤ,
  to_size, ==ℤ_iff, ==ℤ_refl, max_ℤ_comm, pos-mul,
}
use dtorch.Base.Keys.{is_some, update}
use dtorch.Cluster.{ClusterInfo, check_support}
use dtorch.Runner.{Output, Op, Kernel, NaiveRunner, execute}

pub data Message : Type 0 where
  add_operator : Op → Message
  api_tensor_no_hold : ℕ → Message
  set_graph_name : String → Message
  set_operand_name : ℕ → String → Message

pub record OperandCache : Type 0 where
  pub name : String
  pub api_tensor_ref_count : ℕ

-- The constructor, with the messages that wait in the queue, the oldest first.
pub record GraphConstructor : Type 0 where
  pub operand_caches : ℕ → Option OperandCache
  pub graph_name : String
  pub messages : List Message

abbrev pub push_message : Message → GraphConstructor → GraphConstructor
push_message m g = record g { messages = g.messages ++ m ∷ [] }

unfoldable pub init_operand_cache : GraphConstructor → Output → Outcome GraphConstructor
init_operand_cache g o = do
  assert_that (not (is_some (g.operand_caches o.address)))
  ok (record g {
    operand_caches =
        update o.address (some (record { name = o.name; api_tensor_ref_count = 0 }))
          g.operand_caches;
  })

unfoldable pub init_operand_caches : GraphConstructor → List Output → Outcome GraphConstructor
init_operand_caches g [] = ok g
init_operand_caches g (o ∷ os) = do next ← init_operand_cache g o; init_operand_caches next os

unfoldable pub send_operator_to_executor : GraphConstructor → Op → Outcome GraphConstructor
send_operator_to_executor g op = do
  next ← init_operand_caches g op.outputs
  ok (push_message (add_operator op) next)

-- `ApiTensorRefCountIncrease`, which each new tensor calls, and `ApiTensorRefCountDecrease`,
-- which its end calls.
unfoldable pub ref_count_increase : GraphConstructor → ℕ → Outcome GraphConstructor
ref_count_increase g x = do
  cache ← of_option (g.operand_caches x)
  let more = record cache { api_tensor_ref_count = cache.api_tensor_ref_count + 1 }
  ok (record g { operand_caches = update x (some more) g.operand_caches })

abbrev pub without_one : GraphConstructor → ℕ → OperandCache → GraphConstructor
without_one g x cache =
    if cache.api_tensor_ref_count == 1
    then push_message (api_tensor_no_hold x)
        (record g { operand_caches = update x none g.operand_caches })
    else record g {
      operand_caches =
          update x (some (record cache { api_tensor_ref_count = cache.api_tensor_ref_count - 1 }))
            g.operand_caches;
    }

unfoldable pub ref_count_decrease : GraphConstructor → ℕ → Outcome GraphConstructor
ref_count_decrease g x = do
  cache ← of_option (g.operand_caches x)
  assert_that (leb 1 cache.api_tensor_ref_count)
  ok (without_one g x cache)

-- The tensors of the outputs, one after the other.
unfoldable pub new_tensors : GraphConstructor → List Output → Outcome GraphConstructor
new_tensors g [] = ok g
new_tensors g (o ∷ os) = do
  assert_that (is_some (g.operand_caches o.address))
  next ← ref_count_increase g o.address
  new_tensors next os

abbrev pub all_true : List Bool → Bool
all_true [] = true
all_true (b ∷ bs) = b && all_true bs

-- `AddOperator`: whether each input is of this graph, and what `NewOperatorOrThrow` makes of the
-- parameters and the inputs.
unfoldable pub add_operator_to_graph :
    GraphConstructor → ClusterInfo → List Bool → Outcome Op → Outcome GraphConstructor
add_operator_to_graph g cluster same_graph new_operator = do
  throw_unless (all_true same_graph)
  op ← new_operator
  check_support cluster op.assign_info
  next ← send_operator_to_executor g op
  new_tensors next op.outputs

unfoldable pub set_name : GraphConstructor → String → GraphConstructor
set_name g name = push_message (set_graph_name name) (record g { graph_name = name })

unfoldable pub set_name_of_operand : GraphConstructor → ℕ → String → Outcome GraphConstructor
set_name_of_operand g x name = do
  cache ← of_option (g.operand_caches x)
  let named = record g {
    operand_caches = update x (some (record cache { name = name })) g.operand_caches;
  }
  ok (push_message (set_operand_name x name) named)
