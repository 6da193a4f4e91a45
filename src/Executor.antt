-- ===== src/Executor.antt =====
-- `EagerGraphExecutor`, which receives the messages on its thread and gives operators and operands
-- that no tensor holds to the runner, `LogicalGraph`, which keeps both alive until then, and
-- `GraphTraversalSequence`, the order of a batch: dtorch/core/graph/eager_graph_executor.{h,cc},
-- logical_graph.{h,cc} and graph_traversal_sequence.{h,cc}. Remote runners and the end of a session
-- are not modelled.
pub mod Traversal
use Prim.Native.String.{String}
use dtorch.Base.{
  ℕ, zero, suc, ◌+◌, ◌-◌, ◌*◌, ◌/◌, ◌%◌, ◌^◌, ◌≤◌, ◌<◌, min, max, ◌≡◌, refl, sym, ap, ◌∙◌, subst,
  fun_ext, ◌≢◌, ◌↔◌, ◌⊎◌, inl, inr, Bool, true, false, not, ◌&&◌, ◌||◌, Option, none, some, List,
  [], ◌∷◌, ◌++◌, map, reverse, arith, ltb, leb, ◌==◌, if◌then◌else◌, ==_refl, ==_iff, ltb→lt,
  lt→ltb, leb→le, Bool-cases, Option-cases, and-eq-true, length, get_elem?, set, take, drop,
  replicate, All, sum, product, length-append, length-set, length-drop, length-take,
  length-replicate, length-map, get_elem?-set_ne, get_elem?-set_self, Outcome, ok, invalid_argument,
  aborted, ◌>>=◌, ◌>>◌, assert_that, throw_unless, of_option, >>=-eq-ok, assert_that-eq-ok,
  throw_unless-eq-ok, ok-injective, true≢false, get_elem?-lt, lt_of_get_elem?,
}
use dtorch.Base.Int.{
  ℤ, pos, negsuc, pos_part, neg_part, sub_ℕ, ◌+ℤ◌, ◌-ℤ◌, ◌*ℤ◌, ◌≤ℤ◌, lt_ℤ, le_ℤ, ◌==ℤ◌, max_ℤ,
  to_size, ==ℤ_iff, ==ℤ_refl, max_ℤ_comm, pos-mul,
}
use dtorch.Base.Keys.{is_some, update}
use dtorch.Graph.{Message, add_operator, api_tensor_no_hold, set_graph_name, set_operand_name}
use dtorch.Runner.{Output, Op, Kernel, NaiveRunner, execute}

-- The operators, and the operands with their names.
pub record LogicalGraph : Type 0 where
  pub name : String
  pub operators : ℕ → Option Op
  pub operands : ℕ → Option String

unfoldable pub graph_add_operator : LogicalGraph → Op → Outcome LogicalGraph
graph_add_operator g op = do
  assert_that (not (is_some (g.operators op.address)))
  ok (record g { operators = update op.address (some op) g.operators })

unfoldable pub graph_add_operand : LogicalGraph → Output → Outcome LogicalGraph
graph_add_operand g o = do
  assert_that (not (is_some (g.operands o.address)))
  ok (record g { operands = update o.address (some o.name) g.operands })

unfoldable pub graph_delete_operator : LogicalGraph → ℕ → Outcome LogicalGraph
graph_delete_operator g x = do
  assert_that (is_some (g.operators x))
  ok (record g { operators = update x none g.operators })

unfoldable pub graph_delete_operand : LogicalGraph → ℕ → Outcome LogicalGraph
graph_delete_operand g x = do
  assert_that (is_some (g.operands x))
  ok (record g { operands = update x none g.operands })

pub record EagerGraphExecutor : Type 0 where
  pub new_add_operator_sequence : List ℕ
  pub new_add_no_hold_operand : List ℕ
  pub logical_graph : LogicalGraph
  pub runner : NaiveRunner

unfoldable pub graph_add_operands : LogicalGraph → List Output → Outcome LogicalGraph
graph_add_operands g [] = ok g
graph_add_operands g (o ∷ os) = do next ← graph_add_operand g o; graph_add_operands next os

abbrev pub executor_add_operator : EagerGraphExecutor → Op → Outcome EagerGraphExecutor
executor_add_operator e op = do
  with_operands ← graph_add_operands e.logical_graph op.outputs
  with_operator ← graph_add_operator with_operands op
  ok (record e {
    logical_graph = with_operator;
    new_add_operator_sequence = e.new_add_operator_sequence ++ op.address ∷ [];
  })

abbrev pub executor_set_operand_name : EagerGraphExecutor → ℕ → String → Outcome EagerGraphExecutor
executor_set_operand_name e x name = do
  assert_that (is_some (e.logical_graph.operands x))
  ok (record e {
    logical_graph = record (e.logical_graph) {
      operands = update x (some name) e.logical_graph.operands;
    };
  })

-- `ProcessEGEMessage` of each message.
unfoldable pub process_message : EagerGraphExecutor → Message → Outcome EagerGraphExecutor
process_message e (add_operator op) = executor_add_operator e op
process_message e (api_tensor_no_hold x) =
    ok (record e { new_add_no_hold_operand = e.new_add_no_hold_operand ++ x ∷ [] })
process_message e (set_graph_name name) =
    ok (record e { logical_graph = record (e.logical_graph) { name = name } })
process_message e (set_operand_name x name) = executor_set_operand_name e x name

-- A traversal sequence: the list, whose map of nodes has its members as keys. An iterator is a
-- position, and the end of the list its length.
abbrev pub TraversalSequence : Type 0
TraversalSequence = List ℕ

unfoldable pub count_operator : ℕ → TraversalSequence → Bool
count_operator x [] = false
count_operator x (y ∷ ys) = let rest = count_operator x ys in if y == x then true else rest

abbrev pub insert_at : ℕ → ℕ → TraversalSequence → TraversalSequence
insert_at i x s = take i s ++ x ∷ drop i s

unfoldable pub insert_after : ℕ → ℕ → TraversalSequence → Outcome (TraversalSequence × ℕ)
insert_after position x s = do
  assert_that (not (count_operator x s))
  let next = if position == length s then position else position + 1
  ok (insert_at next x s, next)

unfoldable pub from_vec_loop : TraversalSequence → ℕ → List ℕ → Outcome TraversalSequence
from_vec_loop s last [] = ok s
from_vec_loop s last (x ∷ xs) = do (s', i) ← insert_after last x s; from_vec_loop s' i xs

-- `FromVec`, of an empty sequence.
unfoldable pub from_vec : List ℕ → Outcome TraversalSequence
unfolding from_vec_loop
from_vec sequences = from_vec_loop [] 0 sequences

-- The loop over the traversal sequence: each operator leaves the graph for the batch.
unfoldable pub take_operators : LogicalGraph → List ℕ → Outcome (LogicalGraph × List Op)
take_operators g [] = ok (g, [])
take_operators g (x ∷ xs) = do
  op ← of_option (g.operators x)
  next ← graph_delete_operator g x
  (last, ops) ← take_operators next xs
  ok (last, op ∷ ops)

unfoldable pub graph_delete_operands : LogicalGraph → List ℕ → Outcome LogicalGraph
graph_delete_operands g [] = ok g
graph_delete_operands g (x ∷ xs) = do next ← graph_delete_operand g x; graph_delete_operands next xs

abbrev pub run_batch : EagerGraphExecutor → List ℕ → Outcome (EagerGraphExecutor × List Kernel)
run_batch e sequence = do
  (graph, ops) ← take_operators e.logical_graph sequence
  (runner, kernels) ← execute e.runner ops e.new_add_no_hold_operand
  last ← graph_delete_operands graph e.new_add_no_hold_operand
  ok (
    record {
      new_add_operator_sequence = [];
      new_add_no_hold_operand = [];
      logical_graph = last;
      runner = runner;
    },
    kernels,
  )

-- The rest of a round of `AsyncMain` after the messages: `ExecuteOperatorsAndNoHoldOperands`.
unfoldable pub execute_operators_and_no_hold_operands :
    EagerGraphExecutor → List ℕ → Outcome (EagerGraphExecutor × List Kernel)
execute_operators_and_no_hold_operands e sequence =
    if length sequence + length e.new_add_no_hold_operand == 0
    then ok (e, [])
    else run_batch e sequence

-- The round: the sequence is taken out before it is executed.
unfoldable pub execute_round : EagerGraphExecutor → Outcome (EagerGraphExecutor × List Kernel)
execute_round e = do
  sequence ← from_vec e.new_add_operator_sequence
  execute_operators_and_no_hold_operands (record e { new_add_operator_sequence = [] }) sequence
