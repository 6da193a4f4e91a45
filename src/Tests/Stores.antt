-- ===== src/Tests/Stores.antt =====
-- Two threads at a barrier, and a tensor for two readers.
use dtorch.Base.{
  if◌then◌else◌, ◌+◌, ℕ, ◌≤◌, ◌<◌, ◌≡◌, refl, none, some, [], ◌∷◌, arith, ◌==◌, ok, aborted,
}
use dtorch.Base.Int.{pos}
use dtorch.DeviceMesh.{Device, cpu, gpu}
use dtorch.TensorStore.{
  arrive_at_barrier, outside, waiting, System, Step, arrive, Reachable, here, next, group, Store,
  src_set, dest_get, get_finished, lookup,
}
use dtorch.TensorStore.Barrier.{IsSynchronized, Reachable-IsSynchronized}
use dtorch.TensorStore.Progress.{left_count, arrived_count, Reachable-barrier, Reachable-Step}
use dtorch.TensorStore.Exchange.{finish_gets, src_set-finish_gets}

-- The first thread waits, the second has ended the round and is outside.
abbrev one_waits : System
one_waits = record {
  barrier = record { world_size = 2; barrier_counts = 0; barrier_round = 1 };
  threads = waiting 0 0 ∷ outside 1 ∷ [];
}

first_arrival :
    arrive_at_barrier (record { world_size = 2; barrier_counts = 0; barrier_round = 0 })
    ≡ ok (record { world_size = 2; barrier_counts = 1; barrier_round = 0 }, some 0)
unfolding arrive_at_barrier
first_arrival = refl

second_arrival :
    arrive_at_barrier (record { world_size = 2; barrier_counts = 1; barrier_round = 0 })
    ≡ ok (record { world_size = 2; barrier_counts = 0; barrier_round = 1 }, none)
unfolding arrive_at_barrier
second_arrival = refl

one_waits-Reachable : Reachable (group 2) one_waits
one_waits-Reachable =
    next (next here (arrive 0 0 refl first_arrival)) (arrive 1 0 refl second_arrival)

Reachable-IsSynchronized_example : IsSynchronized one_waits
Reachable-IsSynchronized_example = Reachable-IsSynchronized 2 (omega arith) one_waits-Reachable

Reachable-barrier_example : left_count (outside 1) ≤ arrived_count (waiting 0 0)
Reachable-barrier_example = Reachable-barrier 2 1 0 (omega arith) one_waits-Reachable refl refl

Reachable-Step_example : (t : System) × Step one_waits t
Reachable-Step_example = Reachable-Step 2 (omega arith) one_waits-Reachable

abbrev empty_store : Store ℕ
empty_store = []

-- The tensor 7 is on a GPU and its readers ask for a copy in main memory, which is 8.
abbrev device_of : ℕ → Device
device_of value =
    if value == 7 then record { kind = gpu; id = pos 0 } else record { kind = cpu; id = pos 0 }

abbrev copied_to : Device → ℕ → ℕ
copied_to device value = value + 1

abbrev one_tensor : Store ℕ
one_tensor = ("x", record { tensor = 8; target_get_count = 2; actual_get_count = 0 }) ∷ []

tensor_set :
    src_set device_of copied_to "x" 7 (device_of 7) 2 (some cpu) empty_store ≡ ok one_tensor
unfolding src_set lookup
tensor_set = refl

src_set-finish_gets_example :
    (1 ≤ 2
      → (next : Store ℕ) × (finish_gets 1 "x" one_tensor ≡ ok next)
        × (dest_get "x" next ≡ some 8)
        × (get_finished "x" next ≡ ok (1 == 2)))
    × (2 < 1 → finish_gets 1 "x" one_tensor ≡ aborted)
src_set-finish_gets_example =
    src_set-finish_gets device_of copied_to "x" 7 (device_of 7) 2 1 (some cpu) empty_store
      tensor_set
