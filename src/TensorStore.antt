-- ===== src/TensorStore.antt =====
-- `MemoryTensorStore`, through which the threads of a group exchange tensors and meet at a
-- barrier: dtorch/core/communication/tensor_store/memory_tensor_store.cc. Each call holds the
-- store's mutex, so that it is one step; `cv.wait` is a step that can be taken once its condition
-- holds. Device events and streams are not modelled.
pub mod Counting
pub mod Barrier
pub mod Progress
pub mod Exchange
use Prim.Native.String.{String}
use text.Mathlib.Text.{◌==◌ as str_eq}
use dtorch.Base.{
  ℕ, zero, suc, ◌+◌, ◌-◌, ◌*◌, ◌/◌, ◌%◌, ◌^◌, ◌≤◌, ◌<◌, min, max, ◌≡◌, refl, sym, ap, ◌∙◌, subst,
  fun_ext, ◌≢◌, ◌↔◌, ◌⊎◌, inl, inr, Bool, true, false, not, ◌&&◌, ◌||◌, Option, none, some, List,
  [], ◌∷◌, ◌++◌, map, reverse, arith, ltb, leb, ◌==◌, if◌then◌else◌, ==_refl, ==_iff, ltb→lt,
  lt→ltb, leb→le, Bool-cases, Option-cases, and-eq-true, length, get_elem?, set, take, drop,
  replicate, All, sum, product, length-append, length-set, length-drop, length-take,
  length-replicate, length-map, get_elem?-set_ne, get_elem?-set_self, Outcome, ok, invalid_argument,
  aborted, ◌>>=◌, ◌>>◌, assert_that, throw_unless, of_option, >>=-eq-ok, assert_that-eq-ok,
  throw_unless-eq-ok, ok-injective,
}
use dtorch.Base.Int.{pos, ◌==ℤ◌}
use dtorch.DeviceMesh.{Device, DeviceKind, kind_eq}

-- The part of `Impl` that `Barrier` uses.
pub record BarrierState : Type 0 where
  pub world_size : ℕ
  pub barrier_counts : ℕ
  pub barrier_round : ℕ

-- `Barrier`, up to its wait: the round to wait for the end of, or `none` for the last to arrive.
unfoldable pub arrive_at_barrier : BarrierState → Outcome (BarrierState × Option ℕ)
arrive_at_barrier b = do
  assert_that (ltb b.barrier_counts b.world_size)
  ok (
      if b.barrier_counts + 1 == b.world_size
      then (record b { barrier_counts = 0; barrier_round = b.barrier_round + 1 }, none)
      else (record b { barrier_counts = b.barrier_counts + 1 }, some b.barrier_round))

-- The condition of its wait.
abbrev pub may_leave : ℕ → BarrierState → Bool
may_leave current_round b = not (current_round == b.barrier_round)

-- A thread outside the barrier or in its wait, with how many barriers it has left.
pub data Thread : Type 0 where
  outside : ℕ → Thread
  waiting : ℕ → ℕ → Thread

abbrev pub after_arrival : ℕ → Option ℕ → Thread
after_arrival left none = outside (suc left)
after_arrival left (some current_round) = waiting left current_round

pub record System : Type 0 where
  pub barrier : BarrierState
  pub threads : List Thread

-- A step of one thread.
pub data Step : System → System → Type 0 where
  arrive :
      {s : System} (i left : ℕ) {b : BarrierState} {w : Option ℕ}
      → get_elem? s.threads i ≡ some (outside left)
      → arrive_at_barrier s.barrier ≡ ok (b, w)
      → Step s (record { barrier = b; threads = set s.threads i (after_arrival left w) })
  leave :
      {s : System} (i left current_round : ℕ)
      → get_elem? s.threads i ≡ some (waiting left current_round)
      → may_leave current_round s.barrier ≡ true
      → Step s (record s { threads = set s.threads i (outside (suc left)) })

pub data Reachable (start : System) : System → Type 0 where
  here : Reachable start start
  next : {s t : System} → Reachable start s → Step s t → Reachable start t

-- The threads of a group before their first barrier.
abbrev pub group : ℕ → System
group world_size = record {
  barrier = record { world_size = world_size; barrier_counts = 0; barrier_round = 0 };
  threads = replicate world_size (outside 0);
}

-- An entry of the maps from keys, which `SrcSet` writes together and `Reset` clears together.
pub record Entry (T : Type 0) : Type 0 where
  pub tensor : T
  pub target_get_count : ℕ
  pub actual_get_count : ℕ

abbrev pub Store : Type 0 → Type 0
Store T = List (String × Entry T)

-- `operator==` of two devices.
abbrev pub device_eq : Device → Device → Bool
device_eq a b = kind_eq a.kind b.kind && a.id ==ℤ b.id

module _ {T : Type 0} where
  unfoldable pub lookup : String → Store T → Option (Entry T)
  lookup key [] = none
  lookup key ((k, e) ∷ rest) = let later = lookup key rest in if str_eq k key then some e else later

  unfoldable pub assign : String → Entry T → Store T → Store T
  assign key e [] = []
  assign key e ((k, x) ∷ rest) =
      let later = assign key e rest in if str_eq k key then (k, e) ∷ rest else (k, x) ∷ later

  -- `find(key) == end()`
  abbrev pub is_none : Option (Entry T) → Bool
  is_none none = true
  is_none (some e) = false

  -- `SrcSet`. The device of a tensor, `GetDevice`, and the copy of a tensor on a device,
  -- `value.to`, come from torch; `stream` is the local device of the caller's stream.
  module _ (get_device : T → Device) (to_device : Device → T → T) where
    -- `actualValue`: a copy on the kind of device that the readers ask for.
    abbrev pub actual_value : Option DeviceKind → T → T
    actual_value none value = value
    actual_value (some kind) value =
        if kind_eq (get_device value).kind kind
        then value
        else to_device (record { kind = kind; id = pos 0 }) value

    unfoldable pub src_set :
        String → T → Device → ℕ → Option DeviceKind → Store T → Outcome (Store T)
    src_set key value stream get_count dest_kind store = do
      assert_that (device_eq (get_device value) stream)
      assert_that (is_none (lookup key store))
      let e : Entry T = record {
        tensor = actual_value dest_kind value;
        target_get_count = get_count;
        actual_get_count = 0;
      }
      ok ((key, e) ∷ store)

  -- `DestGet` waits while there is no entry: `none`.
  unfoldable pub dest_get : String → Store T → Option T
  dest_get key store = elim (lookup key store) [ none ↦ none | some e ↦ some e.tensor ]

  -- `DestFinishGet`; `at` throws on a missing key, which nothing catches.
  unfoldable pub dest_finish_get : String → Store T → Outcome (Store T)
  dest_finish_get key store = do
    e ← of_option (lookup key store)
    assert_that (ltb e.actual_get_count e.target_get_count)
    ok (assign key (record e { actual_get_count = e.actual_get_count + 1 }) store)

  -- The condition of the wait in `SrcWaitUntilGetFinished`.
  unfoldable pub get_finished : String → Store T → Outcome Bool
  get_finished key store = do
    e ← of_option (lookup key store)
    ok (e.actual_get_count == e.target_get_count)
