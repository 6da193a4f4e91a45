-- ===== src/TensorStore/Progress.antt =====
-- The barrier's promise, and that it cannot get stuck.
use dtorch.Base.{
  ℕ, suc, ◌+◌, ◌≤◌, ◌<◌, ◌≡◌, refl, inl, inr, true, not, Option, none, some, List, [], ◌∷◌, arith,
  ◌==◌, if◌then◌else◌, lt→ltb, Bool-cases, length, get_elem?, ok,
}
use dtorch.TensorStore.{
  BarrierState, arrive_at_barrier, Thread, outside, waiting, System, Step, arrive, leave, Reachable,
  group,
}
use dtorch.TensorStore.Counting.{InRound, waiting_count, All-get_elem?}
use dtorch.TensorStore.Barrier.{Reachable-IsSynchronized}

-- How many barriers a thread has left, and at how many it has arrived.
abbrev pub left_count : Thread → ℕ
left_count (outside left) = left
left_count (waiting left current) = left

abbrev pub arrived_count : Thread → ℕ
arrived_count (outside left) = left
arrived_count (waiting left current) = suc left

left_count-le : (round : ℕ) (t : Thread) → InRound round t → left_count t ≤ round
left_count-le round (outside left) h = omega arith
left_count-le round (waiting left current) (e, inl q) = omega arith
left_count-le round (waiting left current) (e, inr q) = omega arith

arrived_count-ge : (round : ℕ) (t : Thread) → InRound round t → round ≤ arrived_count t
arrived_count-ge round (outside left) h = omega arith
arrived_count-ge round (waiting left current) (e, inl q) = omega arith
arrived_count-ge round (waiting left current) (e, inr q) = omega arith

-- A thread that has left n barriers has left the n-th only after every thread of the group had
-- arrived at it, whatever the order of the threads' steps.
pub Reachable-barrier :
    (world_size : ℕ) {s : System} (i j : ℕ) {t u : Thread}
    → 0 < world_size
    → Reachable (group world_size) s
    → get_elem? s.threads i ≡ some t
    → get_elem? s.threads j ≡ some u
    → left_count t ≤ arrived_count u
Reachable-barrier n {s} i j {t} {u} h r e f =
    let v = Reachable-IsSynchronized n h r in
    let round = s.barrier.barrier_round in
    let a = left_count-le round t (All-get_elem? (InRound round) s.threads i v.rounds e) in
    let b = arrived_count-ge round u (All-get_elem? (InRound round) s.threads j v.rounds f) in
    omega arith

-- What a list of threads in a round holds: one that can arrive, one that can leave, or only
-- threads that wait for the end of the round.
data Find (round : ℕ) (ts : List Thread) : Type 0 where
  can_arrive : (i left : ℕ) → get_elem? ts i ≡ some (outside left) → Find round ts
  can_leave :
      (i left current : ℕ)
      → get_elem? ts i ≡ some (waiting left current)
      → not (current == round) ≡ true
      → Find round ts
  all_wait : waiting_count round ts ≡ length ts → Find round ts

Find-thread : (round : ℕ) (ts : List Thread) → Find round ts
Find-thread round [] = all_wait refl
Find-thread round (outside left ∷ ts) = can_arrive 0 left refl
Find-thread round (waiting left current ∷ ts) = elim (Bool-cases (current == round)) [
  | inr e ↦ can_leave 0 left current refl (rw e refl)
  | inl e ↦ later e (Find-thread round ts)
]
  where
    later : (current == round) ≡ true → Find round ts → Find round (waiting left current ∷ ts)
    later e (can_arrive i l h) = can_arrive (suc i) l h
    later e (can_leave i l c h k) = can_leave (suc i) l c h k
    later e (all_wait h) = all_wait (rw e (omega arith))

-- A group of threads is never stuck: in every state that it can reach, some thread can arrive at
-- the barrier or leave it.
pub Reachable-Step :
    (world_size : ℕ) {s : System}
    → 0 < world_size
    → Reachable (group world_size) s
    → (t : System) × Step s t
Reachable-Step n {s} h r = by_thread (Find-thread s.barrier.barrier_round s.threads)
  where
    arrives :
        (b : BarrierState)
        → b.barrier_counts < b.world_size
        → (r : BarrierState × Option ℕ) × (arrive_at_barrier b ≡ ok r)
    arrives b k = (
      if b.barrier_counts + 1 == b.world_size
          then (record b { barrier_counts = 0; barrier_round = b.barrier_round + 1 }, none)
          else (record b { barrier_counts = b.barrier_counts + 1 }, some b.barrier_round),
      unfold arrive_at_barrier in rw (lt→ltb b.barrier_counts b.world_size k) refl,
    )

    by_thread : Find s.barrier.barrier_round s.threads → (t : System) × Step s t
    by_thread (can_arrive i left e) =
        let v = Reachable-IsSynchronized n h r in
        let ((b, w), run) = arrives s.barrier v.below in (_, arrive i left e run)
    by_thread (can_leave i left current e k) = (_, leave i left current e k)
    by_thread (all_wait e) =
        let v = Reachable-IsSynchronized n h r in
        let size = v.size in let counted = v.counted in let below = v.below in absurd (omega arith)
