-- ===== src/TensorStore/Barrier.antt =====
-- The invariant of a group of threads at a barrier.
use dtorch.Base.{
  ℕ, zero, suc, ◌+◌, ◌<◌, ◌≡◌, refl, sym, ◌∙◌, subst, ◌⊎◌, inl, inr, true, false, not, Option, none,
  some, List, arith, ltb, ◌==◌, if◌then◌else◌, ==_refl, Bool-cases, length, get_elem?, set,
  replicate, All, length-set, length-replicate, ok, assert_that, >>=-eq-ok, ok-injective,
}
use dtorch.TensorStore.{
  BarrierState, arrive_at_barrier, may_leave, Thread, outside, waiting, after_arrival, System, Step,
  arrive, leave, Reachable, here, next, group,
}
use dtorch.TensorStore.Counting.{
  InRound, waiting_count, waiting_count-set, All-set, All-get_elem?, last_arrives,
}

pub record IsSynchronized (s : System) : Type 0 where
  pub size : length s.threads ≡ s.barrier.world_size
  pub below : s.barrier.barrier_counts < s.barrier.world_size
  pub counted : waiting_count s.barrier.barrier_round s.threads ≡ s.barrier.barrier_counts
  pub rounds : All (InRound s.barrier.barrier_round) s.threads

arrive-IsSynchronized :
    (s : System) (i left : ℕ) {b : BarrierState} {w : Option ℕ}
    → IsSynchronized s
    → get_elem? s.threads i ≡ some (outside left)
    → arrive_at_barrier s.barrier ≡ ok (b, w)
    → IsSynchronized (record { barrier = b; threads = set s.threads i (after_arrival left w) })
unfolding arrive_at_barrier
arrive-IsSynchronized s i left {b} {w} v e h =
    let round = s.barrier.barrier_round in
    let world = s.barrier.world_size in
    let counts = s.barrier.barrier_counts in
    let (u, a, h1) = >>=-eq-ok (assert_that (ltb counts world)) _ h in
    elim (Bool-cases (counts + 1 == world)) [
      | inl last ↦
          let q : (record s.barrier { barrier_counts = 0; barrier_round = round + 1 }, none)
              ≡ (b, w) =
            ok-injective (rw last at h1) in
          let n : round + 1 ≡ suc round = omega arith in
          let full : suc (waiting_count round s.threads) ≡ length s.threads =
            all_here counts world v.counted v.size last in
          let (rounds, none_waits) = last_arrives round i left s.threads full e v.rounds in
          subst
            (λ z.
              IsSynchronized
                (record { barrier = z.0; threads = set s.threads i (after_arrival left z.1) }))
            q
            (record {
              size = length-set s.threads i _ ∙ v.size;
              below = positive counts world v.below;
              counted =
                  subst (λ z. waiting_count z (set s.threads i (outside (suc left))) ≡ 0) (sym n)
                    none_waits;
              rounds =
                  subst (λ z. All (InRound z) (set s.threads i (outside (suc left)))) (sym n)
                    rounds;
            })
      | inr more ↦
          let q : (record s.barrier { barrier_counts = counts + 1 }, some round) ≡ (b, w) =
            ok-injective (rw more at h1) in
          let at : left ≡ round = All-get_elem? (InRound round) s.threads i v.rounds e in
          subst
            (λ z.
              IsSynchronized
                (record { barrier = z.0; threads = set s.threads i (after_arrival left z.1) }))
            q
            (record {
              size = length-set s.threads i _ ∙ v.size;
              below = one_more counts world v.below more;
              counted = one_waits round i left s.threads counts v.counted e;
              rounds =
                  All-set (InRound round) s.threads i (waiting left round) v.rounds (at, inl refl);
            })
    ]
  where
    all_here :
        (counts world : ℕ)
        → waiting_count s.barrier.barrier_round s.threads ≡ counts
        → length s.threads ≡ world
        → (counts + 1 == world) ≡ true
        → suc (waiting_count s.barrier.barrier_round s.threads) ≡ length s.threads
    all_here counts world p q r = ground arith

    positive : (counts world : ℕ) → counts < world → 0 < world
    positive counts world p = omega arith

    one_more :
        (counts world : ℕ) → counts < world → (counts + 1 == world) ≡ false → counts + 1 < world
    one_more counts world p q = ground arith

    one_waits :
        (round i left : ℕ) (ts : List Thread) (counts : ℕ)
        → waiting_count round ts ≡ counts
        → get_elem? ts i ≡ some (outside left)
        → waiting_count round (set ts i (waiting left round)) ≡ counts + 1
    one_waits round i left ts counts p q =
        let one = waiting_count-set round i ts (outside left) (waiting left round) q in
        let yes : (round == round) ≡ true = ==_refl round in ground arith

leave-IsSynchronized :
    (s : System) (i left current : ℕ)
    → IsSynchronized s
    → get_elem? s.threads i ≡ some (waiting left current)
    → may_leave current s.barrier ≡ true
    → IsSynchronized (record s { threads = set s.threads i (outside (suc left)) })
leave-IsSynchronized s i left current v e h =
    let round = s.barrier.barrier_round in
    let (same, at) = All-get_elem? (InRound round) s.threads i v.rounds e in
    record {
      size = length-set s.threads i _ ∙ v.size;
      below = v.below;
      counted =
          none_waits round i
            (waiting_count-set round i s.threads (waiting left current) (outside (suc left)) e) h
          ∙ v.counted;
      rounds =
          All-set (InRound round) s.threads i (outside (suc left)) v.rounds (over round same at h);
    }
  where
    none_waits :
        (round n : ℕ) {a b : ℕ}
        → a + (if current == round then 1 else 0) ≡ b + 0
        → not (current == round) ≡ true
        → a ≡ b
    none_waits round n p q = ground arith

    over :
        (round : ℕ)
        → left ≡ current
        → (current ≡ round) ⊎ (suc current ≡ round)
        → not (current == round) ≡ true
        → suc left ≡ round
    over round p (inl q) k = absurd (ground arith)
    over round p (inr q) k = omega arith

Step-IsSynchronized : {s t : System} → Step s t → IsSynchronized s → IsSynchronized t
Step-IsSynchronized (arrive {s} i left e h) v = arrive-IsSynchronized s i left v e h
Step-IsSynchronized (leave {s} i left current e h) v = leave-IsSynchronized s i left current v e h

group-IsSynchronized : (world_size : ℕ) → 0 < world_size → IsSynchronized (group world_size)
group-IsSynchronized n h = record {
  size = length-replicate n (outside 0);
  below = h;
  counted = none_waits n;
  rounds = all_outside n;
}
  where
    none_waits : (n : ℕ) → waiting_count 0 (replicate n (outside 0)) ≡ 0
    none_waits zero = refl
    none_waits (suc n) = omega (arith, none_waits n)

    all_outside : (n : ℕ) → All (InRound 0) (replicate n (outside 0))
    all_outside zero = tt
    all_outside (suc n) = (refl, all_outside n)

-- In every state that a group of threads can reach by arriving at barriers and leaving them in
-- any order, the counter is the number of threads that wait for the end of the round and is below
-- the size of the group, so that the assertion of an arrival cannot fail; every thread has left
-- as many barriers as there are rounds over, or waits in this round or in the one before.
pub Reachable-IsSynchronized :
    (world_size : ℕ) {s : System}
    → 0 < world_size
    → Reachable (group world_size) s
    → IsSynchronized s
Reachable-IsSynchronized n h here = group-IsSynchronized n h
Reachable-IsSynchronized n h (next r step) =
    Step-IsSynchronized step (Reachable-IsSynchronized n h r)
