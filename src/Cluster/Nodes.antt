-- ===== src/Cluster/Nodes.antt =====
-- Each GPU of the cluster is a device of one node.
use dtorch.Base.{
  ℕ, zero, suc, ◌+◌, ◌-◌, ◌<◌, ◌≡◌, refl, sym, ap, ◌∙◌, subst, Bool, true, not, ◌&&◌, none, some,
  List, [], ◌∷◌, arith, ltb, leb, ◌==◌, if◌then◌else◌, lt→ltb, length, get_elem?, ok, assert_that,
  >>=-eq-ok, ok-injective,
}
use dtorch.Base.Int.{ℤ, pos}
use dtorch.Base.Keys.{is_some}
use dtorch.DeviceMesh.{cpu, gpu, Device}
use dtorch.Devices.{
  RunnerSupportedDevices, find_device, map_devices, runner_supported_devices, supports, local_of,
  global_to_local,
}
use dtorch.Cluster.{node_pairs}

abbrev pub gpu_at : ℕ → Device
gpu_at k = record { kind = gpu; id = pos k }

-- The GPUs from `lo` to below `hi`, each with its position.
abbrev Maps : ℕ → ℕ → List (Device × ℕ) → Type 0
Maps lo hi m =
    (k : ℕ) → find_device (gpu_at k) m ≡ (if leb lo k && ltb k hi then some (k - lo) else none)

map_devices-Maps :
    (same : Bool) (lo i n : ℕ) (m : List (Device × ℕ))
    → Maps lo (lo + i) m
    → (m' : List (Device × ℕ)) × (map_devices i (node_pairs same (lo + i) i n) m ≡ ok m')
      × Maps lo (lo + i + n) m'
      × (length m' ≡ length m + n)
unfolding map_devices node_pairs find_device
map_devices-Maps same lo i zero m h =
    let e : lo + i ≡ lo + i + 0 = omega arith in
    (m, refl, subst (λ z. Maps lo z m) e h, omega arith)
map_devices-Maps same lo i (suc n) m h =
    let free : find_device (gpu_at (lo + i)) m ≡ none = ground (arith, h (lo + i)) in
    let one : lo + suc i ≡ suc (lo + i) = omega arith in
    let more : Maps lo (lo + suc i) ((gpu_at (lo + i), i) ∷ m) = λ k. ground (arith, h k) in
    let (m', run, maps, size) =
      map_devices-Maps same lo (suc i) n ((gpu_at (lo + i), i) ∷ m) more in
    let end : lo + suc i + n ≡ lo + i + suc n = omega arith in
    (
      m',
      rw free (
          subst
            (λ z.
              map_devices (suc i) (node_pairs same z (suc i) n) ((gpu_at (lo + i), i) ∷ m) ≡ ok m')
            one run),
      subst (λ z. Maps lo z m') end maps,
      omega (arith, size),
    )

length-node_pairs : (same : Bool) (c g n : ℕ) → length (node_pairs same c g n) ≡ n
unfolding node_pairs
length-node_pairs same c g zero = refl
length-node_pairs same c g (suc n) = ap suc (length-node_pairs same (suc c) (suc g) n)

abbrev local_id : Bool → ℕ → ℕ
local_id same g = if same then 0 else g

get_elem?-node_pairs :
    (same : Bool) (c g n j : ℕ)
    → j < n
    → get_elem? (node_pairs same c g n) j
      ≡ some
          (record { global_device = gpu_at (c + j); local_device = gpu_at (local_id same (g + j)) })
unfolding node_pairs
get_elem?-node_pairs same c g zero j h = absurd (omega arith)
get_elem?-node_pairs same c g (suc n) zero h = ground arith
get_elem?-node_pairs same c g (suc n) (suc j) h =
    let one : suc c + j ≡ c + suc j = omega arith in
    let two : suc g + j ≡ g + suc j = omega arith in
    let rest = get_elem?-node_pairs same (suc c) (suc g) n j (omega arith) in rw (one, two) at rest

abbrev pub cpu_at : ℤ → Device
cpu_at i = record { kind = cpu; id = i }

map_devices-cpu :
    (same : Bool) (c g i n : ℕ) (d : ℤ) (m : List (Device × ℕ)) {m' : List (Device × ℕ)}
    → map_devices i (node_pairs same c g n) m ≡ ok m'
    → find_device (cpu_at d) m ≡ none
    → find_device (cpu_at d) m' ≡ none
unfolding map_devices node_pairs find_device
map_devices-cpu same c g i zero d m h e =
    subst (λ z. find_device (cpu_at d) z ≡ none) (ok-injective h) e
map_devices-cpu same c g i (suc n) d m h e =
    let (u, a, rest) = >>=-eq-ok (assert_that (not (is_some (find_device (gpu_at c) m)))) _ h in
    map_devices-cpu same (suc c) (suc g) (suc i) n d ((gpu_at c, i) ∷ m) rest e

-- The runner of a node that has the GPUs from `lo` to below `lo + n`.
pub record IsNode (lo n : ℕ) (first : Bool) (r : RunnerSupportedDevices) : Type 0 where
  pub cpu_too : r.support_cpu ≡ first
  pub size : length r.devices ≡ n
  pub cpu_owner : (i : ℤ) → supports r (cpu_at i) ≡ first
  pub owns : (k : ℕ) → supports r (gpu_at k) ≡ (leb lo k && ltb k (lo + n))
  pub local :
      (k : ℕ)
      → supports r (gpu_at k) ≡ true
      → (l : ℕ) × (global_to_local r (gpu_at k) ≡ ok (gpu_at l)) × (l < length r.devices)

local_of-Maps :
    (same : Bool) (lo n k : ℕ) (r : RunnerSupportedDevices)
    → r.devices ≡ node_pairs same lo 0 n
    → Maps lo (lo + n) r.global_to_local_map
    → (leb lo k && ltb k (lo + n)) ≡ true
    → (l : ℕ) × (local_of r (gpu_at k) ≡ ok (gpu_at l)) × (l < length r.devices)
local_of-Maps same lo n k r e maps inside =
    let small : k - lo < n = ground arith in
    let size = length-node_pairs same lo 0 n in
    let tested : ltb (k - lo) n ≡ true = lt→ltb _ _ small in
    (
      local_id same (0 + (k - lo)),
      rw (maps k, inside, e, size, tested, get_elem?-node_pairs same lo 0 n (k - lo) small) refl,
      rw (e, size) (ground arith),
    )

pub runner_supported_devices-IsNode :
    (same : Bool) (lo n : ℕ) (first : Bool)
    → (r : RunnerSupportedDevices) × (runner_supported_devices (node_pairs same lo 0 n) first
        ≡ ok r)
      × IsNode lo n first r
unfolding runner_supported_devices supports global_to_local
runner_supported_devices-IsNode same lo n first =
    let zero_lo : lo + 0 ≡ lo = omega arith in
    let none_yet : Maps lo (lo + 0) [] = λ k. unfold find_device in ground arith in
    let (m, run, maps, size) = map_devices-Maps same lo 0 n [] none_yet in
    let run' = subst (λ z. map_devices 0 (node_pairs same z 0 n) [] ≡ ok m) zero_lo run in
    let maps' = subst (λ z. Maps lo (z + n) m) zero_lo maps in
    let pairs = length-node_pairs same lo 0 n in
    let same_size : (length m == length (node_pairs same lo 0 n)) ≡ true =
      rw (size, pairs) (ground arith) in
    let r : RunnerSupportedDevices = record {
      support_cpu = first;
      devices = node_pairs same lo 0 n;
      global_to_local_map = m;
    } in
    let owns : (k : ℕ) → supports r (gpu_at k) ≡ (leb lo k && ltb k (lo + n)) =
      λ k. ground (arith, maps' k) in
    (
      r,
      rw (run', same_size) refl,
      record {
        cpu_too = refl;
        size = pairs;
        cpu_owner = λ i.
            rw (map_devices-cpu same lo 0 0 n i [] run' (unfold find_device in refl))
              (ground arith);
        owns = owns;
        local = λ k h. local_of-Maps same lo n k r refl maps' (sym (owns k) ∙ h);
      },
    )
