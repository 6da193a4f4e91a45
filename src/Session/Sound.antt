-- ===== src/Session/Sound.antt =====
-- The invariant of a session, and that no assertion of it fails.
use dtorch.Base.{
  ℕ, ◌≤◌, ◌<◌, ◌≡◌, refl, sym, ap, ◌∙◌, subst, true, Option, none, some, [], arith, ltb, lt→ltb,
}
use dtorch.Base.Keys.{Keys, AllNew, is_some, keys, erase_all-eq_true}
use dtorch.Devices.{RunnerSupportedDevices}
use dtorch.Runner.{addresses, Op}
use dtorch.Devices.Local.{Localizes}
use dtorch.Graph.{Message, GraphConstructor, OperandCache}
use dtorch.Graph.Counts.{cached, tally, count_of, IsCounted, Sent}
use dtorch.Executor.{EagerGraphExecutor}
use dtorch.Session.{System, new_session, view, after, pending, IsFresh, IsHeld}
use dtorch.Session.Queue.{
  Allowed, Allows, pending-append, Allows-append, HeldAlive, pending-HeldAlive, AllNew-Within,
}
use dtorch.Session.Batch.{IsBatch}

-- The cache counts the tensors. Once the messages that wait are processed, exactly the operands in the cache are held, each by
-- a tensor; every message can be processed in turn, and the batch run.
pub record IsSound (s : System) : Type 0 where
  pub batch : IsBatch s.executor
  pub allows : Allows (view s.executor) s.constructor.messages
  pub held : (pending s.constructor.messages (view s.executor)).held ≡ cached s.constructor
  pub counted : IsCounted s.constructor
  pub tallied : tally s.constructor ≡ s.tensors
  pub devices : Localizes s.executor.runner.supported_devices
  pub received : s.received ≤ 100
  pub idle :
      s.received ≡ 0
      → (s.executor.new_add_operator_sequence ≡ []) × (s.executor.new_add_no_hold_operand ≡ [])

pub new_session-IsSound : (r : RunnerSupportedDevices) → Localizes r → IsSound (new_session r)
new_session-IsSound r v = record {
  batch = record { ops = []; sequence = refl; registered = λ x. refl; runs = refl; erasable = tt };
  allows = tt;
  held = refl;
  counted = λ x c e. cc;
  tallied = refl;
  devices = v;
  received = omega arith;
  idle = λ e. (refl, refl);
}

view-HeldAlive : (e : EagerGraphExecutor) → HeldAlive (view e)
view-HeldAlive e x h =
    erase_all-eq_true e.new_add_no_hold_operand x (keys e.logical_graph.operands) h

-- The cache has exactly the operands with a tensor.
is_some_of_count :
    (o : Option OperandCache)
    → ((c : OperandCache) → o ≡ some c → 0 < c.api_tensor_ref_count)
    → is_some o ≡ ltb 0 (count_of o)
is_some_of_count none h = refl
is_some_of_count (some c) h = sym (lt→ltb 0 c.api_tensor_ref_count (h c refl))

pub cached-tensors : (s : System) (x : ℕ) → IsSound s → cached s.constructor x ≡ ltb 0 (s.tensors x)
cached-tensors s x v =
    is_some_of_count (s.constructor.operand_caches x) (v.counted x)
    ∙ ap (λ z. ltb 0 (z x)) v.tallied

pub held-cached : (s : System) (x : ℕ) → IsSound s → IsHeld s x → cached s.constructor x ≡ true
held-cached s x v h = cached-tensors s x v ∙ lt→ltb 0 (s.tensors x) h

-- A new address is none of the cache.
pub fresh-cached :
    (s : System) (op : Op)
    → IsSound s
    → IsFresh (pending s.constructor.messages (view s.executor)) op
    → AllNew (cached s.constructor) (addresses op.outputs)
fresh-cached s op v (new, free) =
    let l = pending s.constructor.messages (view s.executor) in
    subst (λ z. AllNew z (addresses op.outputs)) v.held
      (AllNew-Within (addresses op.outputs) l.held l.alive
        (pending-HeldAlive s.constructor.messages (view s.executor) (view-HeldAlive s.executor))
        new)

-- A message that was sent.
pub Sent-IsSound :
    (s : System) (g : GraphConstructor) (m : Message) {held : Keys} {counts : ℕ → ℕ}
    → IsSound s
    → Sent s.constructor g m held counts
    → Allowed m (pending s.constructor.messages (view s.executor))
    → (after m (pending s.constructor.messages (view s.executor))).held ≡ held
    → IsSound (record s { constructor = g; tensors = counts })
Sent-IsSound s g m v sent allowed same = record {
  batch = v.batch;
  allows =
      subst (Allows (view s.executor)) (sym sent.messages)
        (Allows-append s.constructor.messages m (view s.executor) v.allows allowed);
  held =
      ap (λ z. (pending z (view s.executor)).held) sent.messages
      ∙ ap (λ z. z.held) (pending-append s.constructor.messages m (view s.executor))
      ∙ same
      ∙ sym sent.in_cache;
  counted = sent.counted;
  tallied = sent.tallied;
  devices = v.devices;
  received = v.received;
  idle = v.idle;
}

-- A count that changed.
pub counted-IsSound :
    (s : System) (g : GraphConstructor)
    → IsSound s
    → g.messages ≡ s.constructor.messages
    → cached g ≡ cached s.constructor
    → IsCounted g
    → IsSound (record s { constructor = g; tensors = tally g })
counted-IsSound s g v messages same counted = record {
  batch = v.batch;
  allows = subst (Allows (view s.executor)) (sym messages) v.allows;
  held = ap (λ z. (pending z (view s.executor)).held) messages ∙ v.held ∙ sym same;
  counted = counted;
  tallied = refl;
  devices = v.devices;
  received = v.received;
  idle = v.idle;
}
