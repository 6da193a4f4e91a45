-- ===== src/Devices/Local.antt =====
-- The local devices of the devices that a runner supports.
use dtorch.Base.{
  ℕ, suc, ◌+◌, ◌<◌, ◌≡◌, refl, sym, ap, ◌∙◌, subst, inl, inr, Bool, true, false, not, ◌||◌, some,
  List, [], ◌∷◌, arith, ◌==◌, lt→ltb, Bool-cases, Option-cases, and-eq-true, length, ok,
  assert_that, >>=-eq-ok, assert_that-eq-ok, ok-injective, true≢false, get_elem?-lt,
}
use dtorch.Base.Int.{pos, ◌==ℤ◌}
use dtorch.Base.Keys.{is_some}
use dtorch.DeviceMesh.{DeviceKind, cpu, gpu, kind_eq, Device}
use dtorch.Devices.{
  DevicePair, RunnerSupportedDevices, device_eq, is_cpu, find_device, map_devices,
  runner_supported_devices, supports, local_of, global_to_local,
}

-- Positions below a bound, of devices that are no CPU.
abbrev Below : ℕ → List (Device × ℕ) → Type 0
Below n m = (d : Device) (i : ℕ) → find_device d m ≡ some i → (i < n) × (is_cpu d ≡ false)

same_kind : (d e : Device) → device_eq d e ≡ true → is_cpu d ≡ is_cpu e
same_kind d e h = of_kinds d.kind e.kind (and-eq-true (kind_eq d.kind e.kind) (d.id ==ℤ e.id) h).0
  where
    of_kinds : (a b : DeviceKind) → kind_eq a b ≡ true → kind_eq a cpu ≡ kind_eq b cpu
    of_kinds cpu cpu h = refl
    of_kinds gpu gpu h = refl
    of_kinds cpu gpu h = cc
    of_kinds gpu cpu h = cc

Below-nil : Below 0 []
unfolding find_device
Below-nil d i e = cc

Below-cons :
    (e : Device) (i : ℕ) (m : List (Device × ℕ))
    → is_cpu e ≡ false
    → Below i m
    → Below (suc i) ((e, i) ∷ m)
unfolding find_device
Below-cons e i m g v d j h = elim (Bool-cases (device_eq e d)) [
  | inl q ↦ let here : some i ≡ some j = rw q at h in (ground arith, sym (same_kind e d q) ∙ g)
  | inr q ↦ let (a, b) = v d j (rw q at h) in (omega arith, b)
]

map_devices-Below :
    (i : ℕ) (pairs : List DevicePair) (m : List (Device × ℕ)) {m' : List (Device × ℕ)}
    → Below i m
    → map_devices i pairs m ≡ ok m'
    → Below (i + length pairs) m'
unfolding map_devices
map_devices-Below i [] m {m'} v h =
    let e : i ≡ i + 0 = omega arith in
    subst (λ z. Below z m') e (subst (Below i) (ok-injective h) v)
map_devices-Below i (pair ∷ pairs) m {m'} v h =
    let (u, a, rest) =
      >>=-eq-ok (assert_that (not (is_cpu pair.global_device || is_cpu pair.local_device))) _ h in
    let (u', b, last) =
      >>=-eq-ok (assert_that (not (is_some (find_device pair.global_device m)))) _ rest in
    let no_cpu : is_cpu pair.global_device ≡ false =
      ground (
        arith,
        assert_that-eq-ok (not (is_cpu pair.global_device || is_cpu pair.local_device)) a,
      ) in
    let e : suc i + length pairs ≡ i + suc (length pairs) = omega arith in
    subst (λ z. Below z m') e
      (map_devices-Below (suc i) pairs ((pair.global_device, i) ∷ m)
        (Below-cons pair.global_device i m no_cpu v) last)

-- Every device that the runner supports has a local device.
abbrev pub Localizes : RunnerSupportedDevices → Type 0
Localizes r = (d : Device) → supports r d ≡ true → (l : Device) × (global_to_local r d ≡ ok l)

local_of-ok :
    (r : RunnerSupportedDevices) (d : Device)
    → Below (length r.devices) r.global_to_local_map
    → is_some (find_device d r.global_to_local_map) ≡ true
    → (l : Device) × (local_of r d ≡ ok l)
local_of-ok r d v h = elim (Option-cases (find_device d r.global_to_local_map)) [
  | inl none_there ↦ cc (ap is_some none_there)
  | inr (i, there) ↦
      let (small, no_cpu) = v d i there in
      let (pair, at) = get_elem?-lt r.devices i small in
      (pair.local_device, rw (there, lt→ltb i (length r.devices) small, at) refl)
]

Below-Localizes :
    (r : RunnerSupportedDevices) → Below (length r.devices) r.global_to_local_map → Localizes r
unfolding supports global_to_local
Below-Localizes r v d h = elim (Bool-cases (is_cpu d)) [
  | inr no_cpu ↦ rw no_cpu (local_of-ok r d v (ground (arith, no_cpu)))
  | inl is_one ↦ elim (Option-cases (find_device d r.global_to_local_map)) [
    | inr (i, there) ↦ true≢false is_one (v d i there).1
    | inl none_there ↦
        let cpu_too : r.support_cpu ≡ true = ground (arith, ap is_some none_there) in
        (record { kind = cpu; id = pos 0 }, rw (is_one, cpu_too) refl)
  ]
]

-- Whatever pairs of devices a runner is made for, if its constructor's assertions pass, every
-- device that it supports has a local device, and `GlobalToLocal` fails for none of them.
pub runner_supported_devices-Localizes :
    (pairs : List DevicePair) (support_cpu : Bool) {r : RunnerSupportedDevices}
    → runner_supported_devices pairs support_cpu ≡ ok r
    → Localizes r
unfolding runner_supported_devices
runner_supported_devices-Localizes pairs support_cpu h =
    let (m, run, rest) = >>=-eq-ok (map_devices 0 pairs []) _ h in
    let (u, a, last) = >>=-eq-ok (assert_that (length m == length pairs)) _ rest in
    let v = map_devices-Below 0 pairs [] Below-nil run in
    let zero_n : 0 + length pairs ≡ length pairs = omega arith in
    subst Localizes (ok-injective last) (
      Below-Localizes
        (record { support_cpu = support_cpu; devices = pairs; global_to_local_map = m })
        (subst (λ z. Below z m) zero_n v))
