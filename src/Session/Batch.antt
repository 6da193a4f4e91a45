-- ===== src/Session/Batch.antt =====
-- What the executor has collected for its next round, and that a message can join it.
use Prim.Native.String.{String}
use dtorch.Base.{
  ℕ, ◌≡◌, refl, sym, ap, ◌∙◌, subst, fun_ext, ◌≢◌, true, false, Option, none, some, List, [], ◌∷◌,
  ◌++◌, map, arith, ==_refl, All, ok, All-map,
}
use mathlib.Core.List.{map-append}
use dtorch.Base.Keys.{
  Keys, insert, insert_all, erase_all, AllNew, AllErasable, is_some, keys, update, keys-update-some,
  update_comm, erase_all-append, erase_all-eq_true, AllErasable-append, erase_all-insert_all,
}
use dtorch.Runner.{addresses, IsOp, Output, Op}
use dtorch.Graph.{Message, add_operator, api_tensor_no_hold, set_graph_name, set_operand_name}
use dtorch.Executor.{
  LogicalGraph, EagerGraphExecutor, graph_add_operator, graph_add_operand, graph_add_operands,
  process_message,
}
use dtorch.Runner.Launch.{Runs}
use dtorch.Session.{Live, view, after, IsFresh}
use dtorch.Session.Queue.{Allowed}

some≢none {ℓ} : {A : Type ℓ} {a : A} → some a ≢ none
some≢none e = cc

-- The graph has these operators, each under its own address, and no others.
abbrev pub Registered : (ℕ → Option Op) → List Op → Type 0
Registered m [] = (x : ℕ) → m x ≡ none
Registered m (op ∷ ops) = (m op.address ≡ some op) × Registered (update op.address none m) ops

Registered-append :
    (ops : List Op) (op : Op) (m : ℕ → Option Op)
    → Registered m ops
    → m op.address ≡ none
    → Registered (update op.address (some op) m) (ops ++ op ∷ [])
Registered-append [] op m h k = (rw (==_refl op.address) refl, λ x. ground (arith, h x))
Registered-append (o ∷ ops) op m (h, hs) k =
    let other : op.address ≢ o.address = λ e. some≢none (sym h ∙ ap m (sym e) ∙ k) in
    let kept : update op.address (some op) m o.address ≡ some o = ground (arith, other) in
    let free : update o.address none m op.address ≡ none = ground (arith, other) in
    (
      kept,
      subst (λ z. Registered z (ops ++ op ∷ []))
          (update_comm op.address o.address (some op) none m other)
          (Registered-append ops op (update o.address none m) hs free),
    )

Runs-append :
    (ops : List Op) (op : Op) (s t : Keys)
    → Runs s ops t
    → All (λ x. t x ≡ true) op.inputs
    → AllNew t (addresses op.outputs)
    → IsOp op
    → Runs s (ops ++ op ∷ []) (insert_all (addresses op.outputs) t)
Runs-append [] op s t e h k good = (
  subst (λ z. All (λ x. z x ≡ true) op.inputs) (sym e) h,
  subst (λ z. AllNew z (addresses op.outputs)) (sym e) k,
  good,
  ap (insert_all (addresses op.outputs)) e,
)
Runs-append (o ∷ ops) op s t (a, b, c, e) h k good =
    (a, b, c, Runs-append ops op (insert_all (addresses o.outputs) s) t e h k good)

pub record IsBatch (e : EagerGraphExecutor) : Type 0 where
  pub ops : List Op
  pub sequence : e.new_add_operator_sequence ≡ map (λ op. op.address) ops
  pub registered : Registered e.logical_graph.operators ops
  pub runs : Runs (keys e.runner.operand_to_blobs) ops (keys e.logical_graph.operands)
  pub erasable : AllErasable (keys e.logical_graph.operands) e.new_add_no_hold_operand

graph_add_operands-ok :
    (os : List Output) (g : LogicalGraph)
    → AllNew (keys g.operands) (addresses os)
    → (g' : LogicalGraph) × (graph_add_operands g os ≡ ok g')
      × (keys g'.operands ≡ insert_all (addresses os) (keys g.operands))
      × (g'.operators ≡ g.operators)
unfolding graph_add_operands graph_add_operand
graph_add_operands-ok [] g h = (g, refl, refl, refl)
graph_add_operands-ok (o ∷ os) g (h, hs) =
    let g1 : LogicalGraph = record g { operands = update o.address (some o.name) g.operands } in
    let more = keys-update-some o.address o.name g.operands in
    let (g', run, same, kept) =
      graph_add_operands-ok os g1 (subst (λ z. AllNew z (addresses os)) (sym more) hs) in
    (g', rw h run, same ∙ ap (insert_all (addresses os)) more, kept)

-- What the message makes of the executor.
pub record Processed (m : Message) (e : EagerGraphExecutor) : Type 0 where
  pub done : EagerGraphExecutor
  pub run : process_message e m ≡ ok done
  pub viewed : view done ≡ after m (view e)
  pub devices : done.runner ≡ e.runner
  pub batch : IsBatch done

live_path :
    {held held' alive alive' operators operators' : Keys}
    → held ≡ held'
    → alive ≡ alive'
    → operators ≡ operators'
    → ◌≡◌ {A = Live}
        (record { held = held; alive = alive; operators = operators })
        (record { held = held'; alive = alive'; operators = operators' })
live_path p q r = λ i. record { held = p i; alive = q i; operators = r i }

none_of_is_some {ℓ} : {A : Type ℓ} (o : Option A) → is_some o ≡ false → o ≡ none
none_of_is_some none h = refl
none_of_is_some (some a) h = cc

add_operator-Processed :
    (op : Op) (e : EagerGraphExecutor)
    → IsBatch e
    → All (λ x. (view e).held x ≡ true) op.inputs
    → IsFresh (view e) op
    → IsOp op
    → Processed (add_operator op) e
unfolding process_message graph_add_operator
add_operator-Processed op e b held (new, free) good =
    let graph = e.logical_graph in
    let (g1, run, same, kept) = graph_add_operands-ok op.outputs graph new in
    let none_there : is_some (g1.operators op.address) ≡ false = rw kept free in
    let ready : LogicalGraph = record g1 { operators = update op.address (some op) g1.operators } in
    let clear : graph.operators op.address ≡ none =
      none_of_is_some (graph.operators op.address) free in
    let (apart, left) =
      erase_all-insert_all e.new_add_no_hold_operand (addresses op.outputs) (keys graph.operands)
        b.erasable new in
    record {
      done = record e {
        logical_graph = ready;
        new_add_operator_sequence = e.new_add_operator_sequence ++ op.address ∷ [];
      };
      run = rw (run, none_there) refl;
      viewed =
          live_path (ap (erase_all e.new_add_no_hold_operand) same ∙ apart) same (
            keys-update-some op.address op g1.operators
            ∙ ap (λ z. insert op.address (keys z)) kept);
      devices = refl;
      batch = record {
        ops = b.ops ++ op ∷ [];
        sequence =
            ap (λ z. z ++ op.address ∷ []) b.sequence
            ∙ sym (map-append (λ o. o.address) b.ops (op ∷ []));
        registered =
            subst (λ z. Registered (update op.address (some op) z) (b.ops ++ op ∷ [])) (sym kept)
              (Registered-append b.ops op graph.operators b.registered clear);
        runs = subst (Runs (keys e.runner.operand_to_blobs) (b.ops ++ op ∷ [])) (sym same) (
            Runs-append b.ops op (keys e.runner.operand_to_blobs) (keys graph.operands) b.runs
              (All-map op.inputs
                (λ x h. erase_all-eq_true e.new_add_no_hold_operand x (keys graph.operands) h) held)
              new good);
        erasable = subst (λ z. AllErasable z e.new_add_no_hold_operand) (sym same) left;
      };
    }

no_hold-Processed :
    (x : ℕ) (e : EagerGraphExecutor)
    → IsBatch e
    → (view e).held x ≡ true
    → Processed (api_tensor_no_hold x) e
unfolding process_message
no_hold-Processed x e b h = record {
  done = record e { new_add_no_hold_operand = e.new_add_no_hold_operand ++ x ∷ [] };
  run = refl;
  viewed =
      live_path (erase_all-append e.new_add_no_hold_operand x (keys e.logical_graph.operands)) refl
        refl;
  devices = refl;
  batch = record {
    ops = b.ops;
    sequence = b.sequence;
    registered = b.registered;
    runs = b.runs;
    erasable =
        AllErasable-append e.new_add_no_hold_operand x (keys e.logical_graph.operands) b.erasable h;
  };
}

-- A write to a key that is there leaves the keys.
keys-rename :
    (x : ℕ) (name : String) (m : ℕ → Option String)
    → keys m x ≡ true
    → keys (update x (some name) m) ≡ keys m
keys-rename x name m h = fun_ext (λ y. ground (arith, ap (keys m) {x = x} {y = y}))

set_operand_name-Processed :
    (x : ℕ) (name : String) (e : EagerGraphExecutor)
    → IsBatch e
    → (view e).held x ≡ true
    → Processed (set_operand_name x name) e
unfolding process_message
set_operand_name-Processed x name e b h =
    let there = erase_all-eq_true e.new_add_no_hold_operand x (keys e.logical_graph.operands) h in
    let same = keys-rename x name e.logical_graph.operands there in
    record {
      done = record e {
        logical_graph = record (e.logical_graph) {
          operands = update x (some name) e.logical_graph.operands;
        };
      };
      run = rw there refl;
      viewed = live_path (ap (erase_all e.new_add_no_hold_operand) same) same refl;
      devices = refl;
      batch = record {
        ops = b.ops;
        sequence = b.sequence;
        registered = b.registered;
        runs = subst (Runs (keys e.runner.operand_to_blobs) b.ops) (sym same) b.runs;
        erasable = subst (λ z. AllErasable z e.new_add_no_hold_operand) (sym same) b.erasable;
      };
    }

-- A message that is allowed is processed without a failing assertion, and joins the batch.
pub process_message-Processed :
    (m : Message) (e : EagerGraphExecutor) → IsBatch e → Allowed m (view e) → Processed m e
unfolding process_message
process_message-Processed (add_operator op) e b (h, fresh, good) =
    add_operator-Processed op e b h fresh good
process_message-Processed (api_tensor_no_hold x) e b h = no_hold-Processed x e b h
process_message-Processed (set_operand_name x name) e b h = set_operand_name-Processed x name e b h
process_message-Processed (set_graph_name name) e b h = record {
  done = record e { logical_graph = record (e.logical_graph) { name = name } };
  run = refl;
  viewed = refl;
  devices = refl;
  batch = record {
    ops = b.ops;
    sequence = b.sequence;
    registered = b.registered;
    runs = b.runs;
    erasable = b.erasable;
  };
}
