-- ===== src/Session/Drain.antt =====
-- The executor reaches a state in which nothing is left to do, and what is kept there.
use dtorch.Base.{
  ℕ, ◌+◌, ◌<◌, ◌≡◌, refl, sym, ap, ◌∙◌, subst, ◌⊎◌, inl, inr, List, [], ◌∷◌, ◌++◌, map, arith, ltb,
  ◌==◌, ==_iff, Bool-cases,
}
use dtorch.Base.Keys.{erase_all, keys}
use dtorch.Devices.{RunnerSupportedDevices}
use dtorch.Cluster.{ClusterInfo}
use dtorch.Runner.{Op}
use dtorch.Devices.Local.{Localizes}
use dtorch.Runner.Launch.{Runs}
use dtorch.Graph.{Message}
use dtorch.Graph.Counts.{cached}
use dtorch.Session.{
  System, new_session, view, pending, Step, add, copy, end_tensor, name_graph, name_operand,
  receive, round, Reachable,
}
use dtorch.Session.Queue.{Allows}
use dtorch.Session.Batch.{process_message-Processed}
use dtorch.Session.Sound.{cached-tensors, IsSound}
use dtorch.Session.Safety.{Step-IsSound, Reachable-IsSound}
use dtorch.Runner.Blobs.{operands}
use dtorch.Session.Round.{execute_round-Rounded}

-- Nothing waits in the queue or in the batch.
abbrev pub IsQuiet : System → Type 0
IsQuiet s = (s.constructor.messages ≡ []) × (s.received ≡ 0)

-- The runner and the graph keep exactly the operands with a tensor.
abbrev pub KeepsHeld : System → Type 0
KeepsHeld s =
    (x : ℕ)
    → (operands s.executor.runner x ≡ ltb 0 (s.tensors x))
      × (keys s.executor.logical_graph.operands x ≡ ltb 0 (s.tensors x))

ops_of_none : (ops : List Op) → [] ≡ map (λ op. op.address) ops → ops ≡ []
ops_of_none [] h = refl
ops_of_none (op ∷ ops) h = cc

IsSound-KeepsHeld : (s : System) → IsSound s → IsQuiet s → KeepsHeld s
IsSound-KeepsHeld s v (no_messages, no_received) =
    let (no_operators, no_operands) = v.idle no_received in
    let b = v.batch in
    let graph_keys = keys s.executor.logical_graph.operands in
    let graph : graph_keys ≡ cached s.constructor =
      ap (λ z. erase_all z graph_keys) (sym no_operands)
      ∙ ap (λ z. (pending z (view s.executor)).held) (sym no_messages)
      ∙ v.held in
    let no_ops : b.ops ≡ [] = ops_of_none b.ops (sym no_operators ∙ b.sequence) in
    let runner : operands s.executor.runner ≡ graph_keys =
      subst (λ z. Runs (operands s.executor.runner) z graph_keys) no_ops b.runs in
    λ x. (
      ap (λ z. z x) (runner ∙ graph) ∙ cached-tensors s x v,
      ap (λ z. z x) graph ∙ cached-tensors s x v,
    )

-- Steps of the executor's thread alone.
abbrev pub IsExecutorStep : {cluster : ClusterInfo} {s t : System} → Step cluster s t → Type 0
IsExecutorStep (add op same_graph held fresh good run) = ⊥
IsExecutorStep (copy x h run) = ⊥
IsExecutorStep (end_tensor x h run) = ⊥
IsExecutorStep (name_graph name) = ⊥
IsExecutorStep (name_operand x name h run) = ⊥
IsExecutorStep (receive m ms waits few run) = Unit
IsExecutorStep (round some_received ended run) = Unit

pub data Works (cluster : ClusterInfo) : System → System → Type 0 where
  done : {s : System} → Works cluster s s
  work :
      {s t u : System} (step : Step cluster s t)
      → IsExecutorStep step
      → Works cluster t u
      → Works cluster s u

-- From a sound state the executor alone reaches a quiet one; the tensors are not its own.
record Drained (cluster : ClusterInfo) (s : System) : Type 0 where
  last : System
  works : Works cluster s last
  quiet : IsQuiet last
  tensors : last.tensors ≡ s.tensors
  keeps : KeepsHeld last

Drained-work :
    (cluster : ClusterInfo) {s t : System} (step : Step cluster s t)
    → IsExecutorStep step
    → t.tensors ≡ s.tensors
    → Drained cluster t
    → Drained cluster s
Drained-work cluster step is_executor same d = record {
  last = d.last;
  works = work step is_executor d.works;
  quiet = d.quiet;
  tensors = d.tensors ∙ same;
  keeps = d.keeps;
}

Drained-quiet : (cluster : ClusterInfo) (s : System) → IsSound s → IsQuiet s → Drained cluster s
Drained-quiet cluster s v q = record {
  last = s;
  works = done;
  quiet = q;
  tensors = refl;
  keeps = IsSound-KeepsHeld s v q;
}

-- One round, where it may start, and what is reached from there.
Drained-round :
    (cluster : ClusterInfo) (s : System)
    → IsSound s
    → 0 < s.received
    → (s.received ≡ 100) ⊎ (s.constructor.messages ≡ [])
    → ((t : System)
        → IsSound t
        → t.received ≡ 0
        → t.constructor ≡ s.constructor
        → Drained cluster t)
    → Drained cluster s
Drained-round cluster s v some_received ended rest =
    let r = execute_round-Rounded s.executor v.batch v.devices in
    let step : Step cluster s
        (record s { executor = r.done; received = 0; launched = s.launched ++ r.kernels }) =
      round some_received ended r.run in
    Drained-work cluster step tt refl (rest _ (Step-IsSound step v) refl refl)

Drained-receive :
    (cluster : ClusterInfo) (s : System) (m : Message) (ms : List Message)
    → IsSound s
    → s.constructor.messages ≡ m ∷ ms
    → s.received < 100
    → ((t : System) → IsSound t → t.constructor.messages ≡ ms → Drained cluster t)
    → Drained cluster s
Drained-receive cluster s m ms v waits few rest =
    let (allowed, later) = subst (Allows (view s.executor)) waits v.allows in
    let p = process_message-Processed m s.executor v.batch allowed in
    let step : Step cluster s (record s {
      constructor = record (s.constructor) { messages = ms };
      executor = p.done;
      received = s.received + 1;
    }) =
      receive m ms waits few p.run in
    Drained-work cluster step tt refl (rest _ (Step-IsSound step v) refl)

drain :
    (cluster : ClusterInfo) (ms : List Message) (s : System)
    → IsSound s
    → s.constructor.messages ≡ ms
    → Drained cluster s
drain cluster [] s v none_wait = elim (Bool-cases (s.received == 0)) [
  | inl idle ↦ Drained-quiet cluster s v (none_wait, (==_iff _ _).0 idle)
  | inr busy ↦ Drained-round cluster s v (ground arith) (inr none_wait) (λ t sound idle same.
      Drained-quiet cluster t sound (ap (λ z. z.messages) same ∙ none_wait, idle))
]
drain cluster (m ∷ ms) s v waits =
    let later = drain cluster ms in
    elim (Bool-cases (s.received == 100)) [
      | inl full ↦
          let hundred : s.received ≡ 100 = (==_iff _ _).0 full in
          Drained-round cluster s v (omega arith) (inl hundred) (λ t sound idle same.
            Drained-receive cluster t m ms sound (ap (λ z. z.messages) same ∙ waits) (omega arith)
              later)
      | inr more ↦
          let bound = v.received in Drained-receive cluster s m ms v waits (ground arith) later
    ]

-- In every state, in which nothing waits, of a session that runs on devices with local devices,
-- the runner has blobs for exactly the operands that a tensor of the interface holds, and so has
-- the graph: none is missing and none is left over.
pub Reachable-KeepsHeld :
    {cluster : ClusterInfo} (r : RunnerSupportedDevices) (v : Localizes r) {s : System}
    → Reachable cluster (new_session r) s
    → IsQuiet s
    → KeepsHeld s
Reachable-KeepsHeld r v {s} before quiet = IsSound-KeepsHeld s (Reachable-IsSound r v before) quiet

-- From every state of a session that runs on devices with local devices, the executor's thread
-- alone reaches, in finitely many steps, a
-- state in which nothing waits, with the same tensors, and there the runner and the graph keep
-- exactly the operands that a tensor of the interface holds.
pub Reachable-Works :
    {cluster : ClusterInfo} (r : RunnerSupportedDevices) (v : Localizes r) {s : System}
    → Reachable cluster (new_session r) s
    → (t : System) × Works cluster s t × IsQuiet t × (t.tensors ≡ s.tensors) × KeepsHeld t
Reachable-Works {cluster} r v {s} before =
    let d = drain cluster s.constructor.messages s (Reachable-IsSound r v before) refl in
    (d.last, d.works, d.quiet, d.tensors, d.keeps)
