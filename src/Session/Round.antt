-- ===== src/Session/Round.antt =====
-- The executor's round.
use dtorch.Base.{
  ℕ, ◌+◌, ◌<◌, ◌≡◌, refl, sym, ap, ◌∙◌, subst, inl, inr, true, false, Option, none, List, [], ◌∷◌,
  map, arith, ◌==◌, ==_refl, ==_iff, Bool-cases, length, length-map, ok, true≢false,
}
use dtorch.Base.Keys.{
  erase_all, AllErasable, is_some, keys, update, keys-update-none, erase_all-eq_true,
}
use dtorch.Runner.{Op, Kernel}
use dtorch.Runner.Blobs.{operands}
use dtorch.Devices.Local.{Localizes}
use dtorch.Runner.Launch.{Runs, execute-Runs}
use dtorch.Executor.{
  LogicalGraph, EagerGraphExecutor, count_operator, from_vec, take_operators, graph_delete_operator,
  graph_delete_operand, graph_delete_operands, execute_operators_and_no_hold_operands,
  execute_round,
}
use dtorch.Executor.Traversal.{distinct, from_vec-distinct}
use dtorch.Session.{view}
use dtorch.Session.Batch.{Registered, IsBatch}
use dtorch.Session.Queue.{Shrinks}

abbrev names : List Op → List ℕ
names ops = map (λ op. op.address) ops

Registered-count :
    (ops : List Op) (m : ℕ → Option Op) (x : ℕ)
    → Registered m ops
    → m x ≡ none
    → count_operator x (names ops) ≡ false
unfolding count_operator
Registered-count [] m x h k = refl
Registered-count (op ∷ ops) m x (h, hs) k = elim (Bool-cases (op.address == x)) [
  | inl e ↦ let same : op.address ≡ x = (==_iff _ _).0 e in cc (ap m same)
  | inr e ↦
      let gone : update op.address none m x ≡ none = rw e k in
      rw e (Registered-count ops (update op.address none m) x hs gone)
]

Registered-distinct :
    (ops : List Op) (m : ℕ → Option Op) → Registered m ops → distinct (names ops) ≡ true
Registered-distinct [] m h = refl
Registered-distinct (op ∷ ops) m (h, hs) =
    let gone : update op.address none m op.address ≡ none = rw (==_refl op.address) refl in
    rw
      (
        Registered-count ops (update op.address none m) op.address hs gone,
        Registered-distinct ops (update op.address none m) hs,
      )
      refl

take_operators-ok :
    (ops : List Op) (g : LogicalGraph)
    → Registered g.operators ops
    → (g' : LogicalGraph) × (take_operators g (names ops) ≡ ok (g', ops))
      × ((x : ℕ) → g'.operators x ≡ none)
      × (g'.operands ≡ g.operands)
unfolding take_operators graph_delete_operator
take_operators-ok [] g h = (g, refl, h, refl)
take_operators-ok (op ∷ ops) g (h, hs) =
    let (g', run, empty, same) =
      take_operators-ok ops (record g { operators = update op.address none g.operators }) hs in
    (g', rw (h, run) refl, empty, same)

graph_delete_operands-ok :
    (xs : List ℕ) (g : LogicalGraph)
    → AllErasable (keys g.operands) xs
    → (g' : LogicalGraph) × (graph_delete_operands g xs ≡ ok g')
      × (keys g'.operands ≡ erase_all xs (keys g.operands))
      × (g'.operators ≡ g.operators)
unfolding graph_delete_operands graph_delete_operand
graph_delete_operands-ok [] g h = (g, refl, refl, refl)
graph_delete_operands-ok (x ∷ xs) g (h, hs) =
    let less = keys-update-none x g.operands in
    let (g', run, same, kept) =
      graph_delete_operands-ok xs (record g { operands = update x none g.operands })
        (subst (λ z. AllErasable z xs) (sym less) hs) in
    (g', rw h run, same ∙ ap (erase_all xs) less, kept)

-- What a round makes of the executor: nothing is left to do, what is held stays, and the runner
-- has blobs for exactly the operands of the graph.
pub record Rounded (e : EagerGraphExecutor) : Type 0 where
  pub done : EagerGraphExecutor
  pub kernels : List Kernel
  pub run : execute_round e ≡ ok (done, kernels)
  pub batch : IsBatch done
  pub shrinks : Shrinks (view e) (view done)
  pub no_operators : done.new_add_operator_sequence ≡ []
  pub no_operands : done.new_add_no_hold_operand ≡ []
  pub devices : done.runner.supported_devices ≡ e.runner.supported_devices

take_all :
    (e : EagerGraphExecutor)
    → (b : IsBatch e) → from_vec e.new_add_operator_sequence ≡ ok (names b.ops)
take_all e b =
    ap from_vec b.sequence
    ∙ from_vec-distinct (names b.ops)
    ∙ rw (Registered-distinct b.ops e.logical_graph.operators b.registered) refl

run_batch-Rounded :
    (e : EagerGraphExecutor) (b : IsBatch e)
    → Localizes e.runner.supported_devices
    → 0 < length b.ops + length e.new_add_no_hold_operand
    → (length (names b.ops) + length e.new_add_no_hold_operand == 0) ≡ false
    → Rounded e
unfolding execute_round execute_operators_and_no_hold_operands
run_batch-Rounded e b v some_work busy =
    let no_hold = e.new_add_no_hold_operand in
    let graph = e.logical_graph in
    let (g1, one, empty, same) = take_operators-ok b.ops graph b.registered in
    let (r, kernels, two, left, devices, launched) =
      execute-Runs e.runner b.ops no_hold (keys graph.operands) v some_work b.runs b.erasable in
    let (g2, three, less, kept) =
      graph_delete_operands-ok no_hold g1
        (subst (λ z. AllErasable (keys z) no_hold) (sym same) b.erasable) in
    let now : keys g2.operands ≡ erase_all no_hold (keys graph.operands) =
      less ∙ ap (λ z. erase_all no_hold (keys z)) same in
    let none_left : (x : ℕ) → g2.operators x ≡ none = λ x. ap (λ z. z x) kept ∙ empty x in
    record {
      done = record {
        new_add_operator_sequence = [];
        new_add_no_hold_operand = [];
        logical_graph = g2;
        runner = r;
      };
      kernels = kernels;
      run = rw (take_all e b, busy, one, two, three) refl;
      batch = record {
        ops = [];
        sequence = refl;
        registered = none_left;
        runs = left ∙ sym now;
        erasable = tt;
      };
      shrinks = record {
        held = sym now;
        alive =
            λ x h. erase_all-eq_true no_hold x (keys graph.operands) (ap (λ z. z x) (sym now) ∙ h);
        operators = λ x h. true≢false h (ap is_some (none_left x));
      };
      no_operators = refl;
      no_operands = refl;
      devices = devices;
    }

idle-Rounded :
    (e : EagerGraphExecutor) (b : IsBatch e)
    → b.ops ≡ []
    → e.new_add_no_hold_operand ≡ []
    → (length (names b.ops) + length e.new_add_no_hold_operand == 0) ≡ true
    → Rounded e
unfolding execute_round execute_operators_and_no_hold_operands
idle-Rounded e b no_ops no_hold idle = record {
  done = record e { new_add_operator_sequence = [] };
  kernels = [];
  run = rw (take_all e b, idle) refl;
  batch = record {
    ops = [];
    sequence = refl;
    registered = subst (Registered e.logical_graph.operators) no_ops b.registered;
    runs = subst (λ z. Runs (operands e.runner) z (keys e.logical_graph.operands)) no_ops b.runs;
    erasable = b.erasable;
  };
  shrinks = record { held = refl; alive = λ x h. h; operators = λ x h. h };
  no_operators = refl;
  no_operands = no_hold;
  devices = refl;
}

nil_of_length {ℓ} : {A : Type ℓ} (xs : List A) → length xs ≡ 0 → xs ≡ []
nil_of_length [] h = refl
nil_of_length (x ∷ xs) h = absurd (omega arith)

-- A round runs without a failing assertion.
pub execute_round-Rounded :
    (e : EagerGraphExecutor) → IsBatch e → Localizes e.runner.supported_devices → Rounded e
execute_round-Rounded e b v =
    let size = length-map b.ops (λ op. op.address) in
    elim (Bool-cases (length (names b.ops) + length e.new_add_no_hold_operand == 0)) [
      | inl idle ↦
          let sums = (==_iff _ _).0 idle in
          idle-Rounded e b (nil_of_length b.ops (omega arith))
            (nil_of_length e.new_add_no_hold_operand (omega arith)) idle
      | inr busy ↦ run_batch-Rounded e b v (ground (arith, size)) busy
    ]
