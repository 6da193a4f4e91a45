-- ===== src/Runner/Launch.antt =====
-- The kernels of a batch of operators.
use mathlib.Core.List.{map-append}
use dtorch.Base.{
  ℕ, ◌+◌, ◌<◌, ◌≡◌, refl, sym, ap, ◌∙◌, subst, inl, inr, true, List, [], ◌∷◌, ◌++◌, map, ltb,
  lt→ltb, Bool-cases, length, All, ok,
}
use dtorch.Base.Keys.{Keys, insert_all, erase_all, AllNew, AllErasable}
use dtorch.Devices.{KernelStreamKey, RunnerSupportedDevices, supports, get_supported}
use dtorch.Devices.Local.{Localizes}
use dtorch.Runner.{
  Op, Kernel, AllDeviceBlobs, NaiveRunner, addresses, IsOp, new_kernels, create_kernel_for_operator,
  create_kernels, execute,
}
use dtorch.Runner.Blobs.{operands, input_blobs-ok, output_blobs-ok, delete_operands-ok}

-- The operators run one after the other on a runner with these operands and leave it with those.
abbrev pub Runs : Keys → List Op → Keys → Type 0
Runs s [] t = s ≡ t
Runs s (op ∷ ops) t =
    All (λ x. s x ≡ true) op.inputs
    × AllNew s (addresses op.outputs)
    × IsOp op
    × Runs (insert_all (addresses op.outputs) s) ops t

-- The operator and the stream of each kernel.
abbrev pub launches : List Kernel → List (ℕ × KernelStreamKey)
launches ks = map (λ k. (k.op, k.stream)) ks

abbrev pub streams_of : RunnerSupportedDevices → Op → List (ℕ × KernelStreamKey)
streams_of r op = map (λ s. (op.address, s)) (get_supported r op.assign_info.stream_key_set)

abbrev pub expected : RunnerSupportedDevices → List Op → List (ℕ × KernelStreamKey)
expected r [] = []
expected r (op ∷ ops) = streams_of r op ++ expected r ops

get_supported-supports :
    (r : RunnerSupportedDevices) (ks : List KernelStreamKey)
    → All (λ k. supports r k.device ≡ true) (get_supported r ks)
unfolding get_supported
get_supported-supports r [] = tt
get_supported-supports r (k ∷ ks) = elim (Bool-cases (supports r k.device)) [
  | inl e ↦ rw e (e, get_supported-supports r ks)
  | inr e ↦ rw e (get_supported-supports r ks)
]

new_kernels-ok :
    (r : NaiveRunner) (op : Op) (ins outs : List AllDeviceBlobs) (ks : List KernelStreamKey)
    → Localizes r.supported_devices
    → All (λ k. supports r.supported_devices k.device ≡ true) ks
    → (kernels : List Kernel) × (new_kernels r op ins outs ks ≡ ok kernels)
      × (launches kernels ≡ map (λ s. (op.address, s)) ks)
unfolding new_kernels
new_kernels-ok r op ins outs [] v h = ([], refl, refl)
new_kernels-ok r op ins outs (k ∷ ks) v (h, hs) =
    let (l, local) = v k.device h in
    let (kernels, run, same) = new_kernels-ok r op ins outs ks v hs in
    (
      record {
        op = op.address;
        inputs = ins;
        outputs = outs;
        stream = k;
        local_device = l;
        num_kernel_for_this_op = length op.assign_info.stream_key_set;
        has_tensor_store = ltb 1 (length op.assign_info.stream_key_set);
      }
          ∷ kernels,
      rw (local, run) refl,
      ap (◌∷◌ (op.address, k)) same,
    )

create_kernel_for_operator-ok :
    (r : NaiveRunner) (op : Op)
    → Localizes r.supported_devices
    → All (λ x. operands r x ≡ true) op.inputs
    → AllNew (operands r) (addresses op.outputs)
    → IsOp op
    → (r' : NaiveRunner) × (kernels : List Kernel) × (create_kernel_for_operator r op
        ≡ ok (r', kernels))
      × (operands r' ≡ insert_all (addresses op.outputs) (operands r))
      × (r'.supported_devices ≡ r.supported_devices)
      × (launches kernels ≡ streams_of r.supported_devices op)
unfolding create_kernel_for_operator
create_kernel_for_operator-ok r op v held new (some_kernel, distinct) =
    let (ins, one) = input_blobs-ok r op.inputs held in
    let (r', outs, two, same, kept) = output_blobs-ok r op.outputs new distinct in
    let keys = get_supported r.supported_devices op.assign_info.stream_key_set in
    let (kernels, three, launched) =
      new_kernels-ok r' op ins outs keys (subst Localizes (sym kept) v) (
        subst (λ z. All (λ k. supports z k.device ≡ true) keys) (sym kept)
          (get_supported-supports r.supported_devices op.assign_info.stream_key_set)) in
    (
      r',
      kernels,
      rw (lt→ltb 0 (length op.assign_info.stream_key_set) some_kernel, one, two, three) refl,
      same,
      kept,
      launched,
    )

create_kernels-ok :
    (r : NaiveRunner) (ops : List Op) (t : Keys)
    → Localizes r.supported_devices
    → Runs (operands r) ops t
    → (r' : NaiveRunner) × (kernels : List Kernel) × (create_kernels r ops ≡ ok (r', kernels))
      × (operands r' ≡ t)
      × (r'.supported_devices ≡ r.supported_devices)
      × (launches kernels ≡ expected r.supported_devices ops)
unfolding create_kernels
create_kernels-ok r [] t v e = (r, [], refl, e, refl, refl)
create_kernels-ok r (op ∷ ops) t v (held, new, good, rest) =
    let (r1, ks, one, same, kept, launched) = create_kernel_for_operator-ok r op v held new good in
    let (r2, kss, two, last, still, more) =
      create_kernels-ok r1 ops t (subst Localizes (sym kept) v)
        (subst (λ z. Runs z ops t) (sym same) rest) in
    (
      r2,
      ks ++ kss,
      rw (one, two) refl,
      last,
      still ∙ kept,
      map-append (λ k. (k.op, k.stream)) ks kss
          ∙ ap (λ z. z ++ launches kss) launched
          ∙ ap (λ z. streams_of r.supported_devices op ++ z) (more ∙ ap (λ z. expected z ops) kept),
    )

pub execute-Runs :
    (r : NaiveRunner) (ops : List Op) (no_hold : List ℕ) (t : Keys)
    → Localizes r.supported_devices
    → 0 < length ops + length no_hold
    → Runs (operands r) ops t
    → AllErasable t no_hold
    → (r' : NaiveRunner) × (kernels : List Kernel) × (execute r ops no_hold ≡ ok (r', kernels))
      × (operands r' ≡ erase_all no_hold t)
      × (r'.supported_devices ≡ r.supported_devices)
      × (launches kernels ≡ expected r.supported_devices ops)
unfolding execute
execute-Runs r ops no_hold t v some_work h k =
    let (r1, kernels, one, same, kept, launched) = create_kernels-ok r ops t v h in
    let (r2, two, less, still) =
      delete_operands-ok r1 no_hold (subst (λ z. AllErasable z no_hold) (sym same) k) in
    (
      r2,
      kernels,
      rw (lt→ltb 0 (length ops + length no_hold) some_work, one, two) refl,
      less ∙ ap (erase_all no_hold) same,
      still ∙ kept,
      launched,
    )
