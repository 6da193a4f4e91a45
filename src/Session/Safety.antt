-- ===== src/Session/Safety.antt =====
-- Each step of a session keeps its invariant, so that no assertion fails.
use Prim.Native.String.{String}
use dtorch.Base.{
  Outcome, ◌>>=◌, [], ltb, ℕ, ◌+◌, ◌<◌, ◌≡◌, refl, sym, ap, ◌∙◌, subst, inl, inr, Bool, true, List,
  ◌∷◌, ◌++◌, arith, All, ok, throw_unless, >>=-eq-ok, throw_unless-eq-ok, ok-injective, All-map,
}
use dtorch.Base.Keys.{keys, erase_all, bump, bump_all, lower, erase, insert_all}
use dtorch.Devices.{RunnerSupportedDevices}
use dtorch.Cluster.{ClusterInfo, check_support}
use dtorch.Runner.{addresses, IsOp, Op, Kernel}
use dtorch.Devices.Local.{Localizes}
use dtorch.Graph.{
  Message, add_operator, api_tensor_no_hold, set_graph_name, set_operand_name, GraphConstructor,
  ref_count_increase, ref_count_decrease, all_true, add_operator_to_graph, set_name,
  set_name_of_operand,
}
use dtorch.Graph.Counts.{
  count_of, add_operator_to_graph-Sent, ref_count_increase-Counted, ref_count_decrease-Counted,
  set_name_of_operand-Sent,
}
use dtorch.Executor.{EagerGraphExecutor, process_message, execute_round}
use dtorch.Session.{
  System, new_session, view, after, pending, IsFresh, IsHeld, Step, add, copy, end_tensor,
  name_graph, name_operand, receive, round, Reachable, here, next,
}
use dtorch.Session.Queue.{Allows, Shrinks, Allows-Shrinks, pending-Shrinks}
use dtorch.Session.Batch.{IsBatch, process_message-Processed}
use dtorch.Session.Sound.{
  cached-tensors, held-cached, IsSound, new_session-IsSound, fresh-cached, Sent-IsSound,
  counted-IsSound,
}
use dtorch.Session.Round.{execute_round-Rounded}

counts_as :
    (s : System) {g g' : GraphConstructor} {n n' : ℕ → ℕ}
    → g ≡ g'
    → n ≡ n'
    → IsSound (record s { constructor = g; tensors = n })
    → IsSound (record s { constructor = g'; tensors = n' })
counts_as s {g} {g'} {n} {n'} p q v =
    subst (λ z. IsSound (record s { constructor = z; tensors = n' })) p
      (subst (λ z. IsSound (record s { constructor = g; tensors = z })) q v)

-- The inputs of an operator are held when its message is processed.
held_later :
    (s : System) (xs : List ℕ)
    → IsSound s
    → All (IsHeld s) xs
    → All (λ x. (pending s.constructor.messages (view s.executor)).held x ≡ true) xs
held_later s xs v h =
    subst (λ z. All (λ x. z x ≡ true) xs) (sym v.held) (All-map xs (λ x k. held-cached s x v k) h)

add-IsSound :
    (cluster : ClusterInfo) (s : System) (op : Op) (same_graph : List Bool) {g : GraphConstructor}
    → IsSound s
    → All (IsHeld s) op.inputs
    → IsFresh (pending s.constructor.messages (view s.executor)) op
    → IsOp op
    → add_operator_to_graph s.constructor cluster same_graph (ok op) ≡ ok g
    → IsSound (record s { constructor = g; tensors = bump_all (addresses op.outputs) s.tensors })
unfolding add_operator_to_graph
add-IsSound cluster s op same_graph {g} v held fresh good run =
    let (u, one, rest) = >>=-eq-ok (throw_unless (all_true same_graph)) _ run in
    let (u', two, last) = >>=-eq-ok (check_support cluster op.assign_info) _ rest in
    let (g1, run1, sent) =
      add_operator_to_graph-Sent s.constructor cluster same_graph op v.counted
        (fresh-cached s op v fresh) (throw_unless-eq-ok (all_true same_graph) one) two in
    counts_as s (ok-injective (sym run1 ∙ run)) (ap (bump_all (addresses op.outputs)) v.tallied) (
      Sent-IsSound s g1 (add_operator op) v sent (held_later s op.inputs v held, fresh, good)
        (ap (insert_all (addresses op.outputs)) v.held))

copy-IsSound :
    (s : System) (x : ℕ) {g : GraphConstructor}
    → IsSound s
    → IsHeld s x
    → ref_count_increase s.constructor x ≡ ok g
    → IsSound (record s { constructor = g; tensors = bump x s.tensors })
copy-IsSound s x v h run =
    let (g1, run1, messages, same, counted, counts) =
      ref_count_increase-Counted s.constructor x v.counted (held-cached s x v h) in
    counts_as s (ok-injective (sym run1 ∙ run)) (counts ∙ ap (bump x) v.tallied)
      (counted-IsSound s g1 v messages same counted)

end_tensor-IsSound :
    (s : System) (x : ℕ) {g : GraphConstructor}
    → IsSound s
    → IsHeld s x
    → ref_count_decrease s.constructor x ≡ ok g
    → IsSound (record s { constructor = g; tensors = lower x s.tensors })
end_tensor-IsSound s x v h run =
    let there = held-cached s x v h in
    let (g1, run1, cases) = ref_count_decrease-Counted s.constructor x v.counted there in
    let later = subst (λ z. z x ≡ true) (sym v.held) there in
    let now = ok-injective (sym run1 ∙ run) in
    elim cases [
      | inl sent ↦
          counts_as s now (ap (lower x) v.tallied)
            (Sent-IsSound s g1 (api_tensor_no_hold x) v sent later (ap (erase x) v.held))
      | inr (messages, same, counted, counts) ↦
          counts_as s now (counts ∙ ap (lower x) v.tallied)
            (counted-IsSound s g1 v messages same counted)
    ]

name_operand-IsSound :
    (s : System) (x : ℕ) (name : String) {g : GraphConstructor}
    → IsSound s
    → IsHeld s x
    → set_name_of_operand s.constructor x name ≡ ok g
    → IsSound (record s { constructor = g })
name_operand-IsSound s x name v h run =
    let there = held-cached s x v h in
    let (g1, run1, sent) = set_name_of_operand-Sent s.constructor x name v.counted there in
    let later = subst (λ z. z x ≡ true) (sym v.held) there in
    counts_as s (ok-injective (sym run1 ∙ run)) v.tallied
      (Sent-IsSound s g1 (set_operand_name x name) v sent later v.held)

name_graph-IsSound :
    (s : System) (name : String)
    → IsSound s
    → IsSound (record s { constructor = set_name s.constructor name })
unfolding set_name
name_graph-IsSound s name v = counts_as s refl v.tallied (
    Sent-IsSound s (set_name s.constructor name) (set_graph_name name) v
      (record { messages = refl; in_cache = refl; counted = v.counted; tallied = refl }) tt v.held)

receive-IsSound :
    (s : System) (m : Message) (ms : List Message) {e : EagerGraphExecutor}
    → IsSound s
    → s.constructor.messages ≡ m ∷ ms
    → s.received < 100
    → process_message s.executor m ≡ ok e
    → IsSound (record s {
      constructor = record (s.constructor) { messages = ms };
      executor = e;
      received = s.received + 1;
    })
receive-IsSound s m ms {e} v waits few run =
    let (allowed, rest) = subst (Allows (view s.executor)) waits v.allows in
    let p = process_message-Processed m s.executor v.batch allowed in
    let same : p.done ≡ e = ok-injective (sym p.run ∙ run) in
    let viewed : view e ≡ after m (view s.executor) = ap view (sym same) ∙ p.viewed in
    record {
      batch = subst IsBatch same p.batch;
      allows = subst (λ z. Allows z ms) (sym viewed) rest;
      held =
          ap (λ z. (pending ms z).held) viewed
          ∙ ap (λ z. (pending z (view s.executor)).held) (sym waits)
          ∙ v.held;
      counted = v.counted;
      tallied = v.tallied;
      devices =
          subst (λ z. Localizes z.supported_devices) (sym p.devices ∙ ap (λ z. z.runner) same)
            v.devices;
      received = omega arith;
      idle = λ none_received. absurd (omega arith);
    }

round-IsSound :
    (s : System) {e : EagerGraphExecutor} {kernels : List Kernel}
    → IsSound s
    → execute_round s.executor ≡ ok (e, kernels)
    → IsSound (record s { executor = e; received = 0; launched = s.launched ++ kernels })
round-IsSound s {e} {kernels} v run =
    let r = execute_round-Rounded s.executor v.batch v.devices in
    let same : r.done ≡ e = ap (λ z. z.0) (ok-injective (sym r.run ∙ run)) in
    let shrinks = subst (λ z. Shrinks (view s.executor) (view z)) same r.shrinks in
    record {
      batch = subst IsBatch same r.batch;
      allows = Allows-Shrinks s.constructor.messages (view s.executor) (view e) shrinks v.allows;
      held =
          sym (pending-Shrinks s.constructor.messages (view s.executor) (view e) shrinks).held
          ∙ v.held;
      counted = v.counted;
      tallied = v.tallied;
      devices =
          subst Localizes (sym (ap (λ z. z.runner.supported_devices) (sym same) ∙ r.devices))
            v.devices;
      received = omega arith;
      idle = λ none_received. (
        ap (λ z. z.new_add_operator_sequence) (sym same) ∙ r.no_operators,
        ap (λ z. z.new_add_no_hold_operand) (sym same) ∙ r.no_operands,
      );
    }

pub Step-IsSound : {cluster : ClusterInfo} {s t : System} → Step cluster s t → IsSound s → IsSound t
Step-IsSound {cluster} (add {s} op same_graph held fresh good run) v =
    add-IsSound cluster s op same_graph v held fresh good run
Step-IsSound (copy {s} x h run) v = copy-IsSound s x v h run
Step-IsSound (end_tensor {s} x h run) v = end_tensor-IsSound s x v h run
Step-IsSound (name_graph {s} name) v = name_graph-IsSound s name v
Step-IsSound (name_operand {s} x name h run) v = name_operand-IsSound s x name v h run
Step-IsSound (receive {s} m ms waits few run) v = receive-IsSound s m ms v waits few run
Step-IsSound (round {s} some_received ended run) v = round-IsSound s v run

-- The messages in their turn.
unfoldable pub process_all : EagerGraphExecutor → List Message → Outcome EagerGraphExecutor
process_all e [] = ok e
process_all e (m ∷ ms) = do e' ← process_message e m; process_all e' ms

process_all-ok :
    (ms : List Message) (e : EagerGraphExecutor)
    → IsBatch e
    → Allows (view e) ms
    → (done : EagerGraphExecutor) × (process_all e ms ≡ ok done)
      × IsBatch done
      × (view done ≡ pending ms (view e))
unfolding process_all
process_all-ok [] e b h = (e, refl, b, refl)
process_all-ok (m ∷ ms) e b (allowed, rest) =
    let p = process_message-Processed m e b allowed in
    let (done, run, batch, seen) =
      process_all-ok ms p.done p.batch (subst (λ z. Allows z ms) (sym p.viewed) rest) in
    (done, rw p.run run, batch, seen ∙ ap (pending ms) p.viewed)

-- The invariant holds in every state.
pub Reachable-IsSound :
    {cluster : ClusterInfo} (r : RunnerSupportedDevices) (v : Localizes r) {s : System}
    → Reachable cluster (new_session r) s
    → IsSound s
Reachable-IsSound r v here = new_session-IsSound r v
Reachable-IsSound r v (next before step) = Step-IsSound step (Reachable-IsSound r v before)

-- The constructor's cache counts the tensors of each operand; and the messages that wait can all be
-- processed, one after the other, which leaves in the graph, but for those that the batch deletes,
-- exactly the operands with a tensor.
pub record CountsTensors (s : System) : Type 0 where
  pub counts : (x : ℕ) → count_of (s.constructor.operand_caches x) ≡ s.tensors x
  pub done : EagerGraphExecutor
  pub processed : process_all s.executor s.constructor.messages ≡ ok done
  pub held :
      (x : ℕ)
      → erase_all done.new_add_no_hold_operand (keys done.logical_graph.operands) x
        ≡ ltb 0 (s.tensors x)

-- In every state of a session that runs on devices with local devices, the constructor's cache
-- counts the tensors of each operand; and the executor can process all the messages that wait, one
-- after the other, without a failing assertion, after which the operands of the graph that the
-- batch does not delete are exactly those with a tensor.
pub Reachable-CountsTensors :
    {cluster : ClusterInfo} (r : RunnerSupportedDevices) (v : Localizes r) {s : System}
    → Reachable cluster (new_session r) s
    → CountsTensors s
Reachable-CountsTensors r v {s} before =
    let sound = Reachable-IsSound r v before in
    let (done, run, batch, seen) =
      process_all-ok s.constructor.messages s.executor sound.batch sound.allows in
    record {
      counts = λ x. ap (λ z. z x) sound.tallied;
      done = done;
      processed = run;
      held = λ x. ap (λ z. z.held x) seen ∙ ap (λ z. z x) sound.held ∙ cached-tensors s x sound;
    }

-- What each thread can do next.
pub record NeverAborts (cluster : ClusterInfo) (s : System) : Type 0 where
  pub receives :
      (m : Message) (ms : List Message)
      → s.constructor.messages ≡ m ∷ ms
      → (e : EagerGraphExecutor) × (process_message s.executor m ≡ ok e)
  pub rounds :
      (e : EagerGraphExecutor) × (kernels : List Kernel) × (execute_round s.executor
        ≡ ok (e, kernels))
  pub copies :
      (x : ℕ) → IsHeld s x → (g : GraphConstructor) × (ref_count_increase s.constructor x ≡ ok g)
  pub ends :
      (x : ℕ) → IsHeld s x → (g : GraphConstructor) × (ref_count_decrease s.constructor x ≡ ok g)
  pub names :
      (x : ℕ) (name : String)
      → IsHeld s x
      → (g : GraphConstructor) × (set_name_of_operand s.constructor x name ≡ ok g)
  pub adds :
      (op : Op) (same_graph : List Bool) {u : Unit {0}}
      → IsFresh (pending s.constructor.messages (view s.executor)) op
      → all_true same_graph ≡ true
      → check_support cluster op.assign_info ≡ ok u
      → (g : GraphConstructor) × (add_operator_to_graph s.constructor cluster same_graph (ok op)
          ≡ ok g)

-- In every state of a session that runs on devices with local devices, no assertion fails: the
-- executor can process the next message and run a round, which finds each operator, each input
-- and each operand that it deletes; and a tensor can be copied, ended and named, and an operator
-- of new outputs can be added where its inputs are of this graph and its devices of the cluster.
pub Reachable-NeverAborts :
    {cluster : ClusterInfo} (r : RunnerSupportedDevices) (v : Localizes r) {s : System}
    → Reachable cluster (new_session r) s
    → NeverAborts cluster s
Reachable-NeverAborts {cluster} r v {s} before =
    let sound = Reachable-IsSound r v before in
    let batch_run = execute_round-Rounded s.executor sound.batch sound.devices in
    record {
      receives = λ m ms waits.
          let (allowed, rest) = subst (Allows (view s.executor)) waits sound.allows in
          let p = process_message-Processed m s.executor sound.batch allowed in (p.done, p.run);
      rounds = (batch_run.done, batch_run.kernels, batch_run.run);
      copies = λ x h.
          let (g, run, _, _, _, _) =
            ref_count_increase-Counted s.constructor x sound.counted (held-cached s x sound h) in
          (g, run);
      ends = λ x h.
          let (g, run, _) =
            ref_count_decrease-Counted s.constructor x sound.counted (held-cached s x sound h) in
          (g, run);
      names = λ x name h.
          let (g, run, _) =
            set_name_of_operand-Sent s.constructor x name sound.counted (held-cached s x sound h) in
          (g, run);
      adds = λ op same_graph fresh same supported.
          let (g, run, _) =
            add_operator_to_graph-Sent s.constructor cluster same_graph op sound.counted
              (fresh-cached s op sound fresh) same supported in
          (g, run);
    }
