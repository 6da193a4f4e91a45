-- ===== src/TensorStore/Counting.antt =====
-- How many threads wait at a barrier.
use dtorch.Base.{
  ℕ, zero, suc, ◌+◌, ◌≤◌, ◌≡◌, refl, ap, subst, ◌⊎◌, inr, true, false, some, List, [], ◌∷◌, arith,
  ◌==◌, if◌then◌else◌, ==_refl, length, get_elem?, set, All, length-set,
}
use dtorch.TensorStore.{Thread, outside, waiting}

-- A thread in a round: outside, it has left as many barriers as rounds are over; in its wait, it
-- waits for the end of this round, or of the one before, which is over.
abbrev pub InRound : ℕ → Thread → Type 0
InRound round (outside left) = left ≡ round
InRound round (waiting left current) =
    (left ≡ current) × ((current ≡ round) ⊎ (suc current ≡ round))

-- How many threads wait for the end of the round.
abbrev pub waits : ℕ → Thread → ℕ
waits round (outside left) = 0
waits round (waiting left current) = if current == round then 1 else 0

abbrev pub waiting_count : ℕ → List Thread → ℕ
waiting_count round [] = 0
waiting_count round (t ∷ ts) = waits round t + waiting_count round ts

pub waiting_count-le : (round : ℕ) (ts : List Thread) → waiting_count round ts ≤ length ts
waiting_count-le round [] = omega arith
waiting_count-le round (outside left ∷ ts) = omega (arith, waiting_count-le round ts)
waiting_count-le round (waiting left current ∷ ts) =
    let rest = waiting_count-le round ts in ground arith

pub waiting_count-set :
    (round i : ℕ) (ts : List Thread) (t u : Thread)
    → get_elem? ts i ≡ some t
    → waiting_count round (set ts i u) + waits round t ≡ waiting_count round ts + waits round u
waiting_count-set round i [] t u h = cc
waiting_count-set round zero (x ∷ ts) t u h =
    let e : x ≡ t = cc in
    subst
      (λ z.
        waits round u + waiting_count round ts + waits round z
        ≡ waits round x + waiting_count round ts + waits round u)
      e (omega arith)
waiting_count-set round (suc i) (x ∷ ts) t u h =
    let rest = waiting_count-set round i ts t u h in omega arith

pub All-set {ℓ} :
    {A : Type 0} (P : A → Type ℓ) (xs : List A) (i : ℕ) (x : A)
    → All P xs
    → P x
    → All P (set xs i x)
All-set P [] i x h k = tt
All-set P (y ∷ xs) zero x h k = (k, h.1)
All-set P (y ∷ xs) (suc i) x h k = (h.0, All-set P xs i x h.1 k)

pub All-get_elem? {ℓ} :
    {A : Type 0} (P : A → Type ℓ) (xs : List A) (i : ℕ) {x : A}
    → All P xs
    → get_elem? xs i ≡ some x
    → P x
All-get_elem? P [] i h e = cc
All-get_elem? P (y ∷ xs) zero h e = let q : y ≡ _ = cc in subst P q h.0
All-get_elem? P (y ∷ xs) (suc i) h e = All-get_elem? P xs i h.1 e

-- When all wait for the end of the round, its end puts them all one round behind.
waiting_count-full :
    (round : ℕ) (ts : List Thread)
    → waiting_count round ts ≡ length ts
    → All (InRound round) ts
    → All (InRound (suc round)) ts × (waiting_count (suc round) ts ≡ 0)
waiting_count-full round [] h k = (tt, refl)
waiting_count-full round (outside left ∷ ts) h k =
    let small = waiting_count-le round ts in absurd (omega arith)
waiting_count-full round (waiting left current ∷ ts) h k =
    let small = waiting_count-le round ts in
    let now : current ≡ round = ground arith in
    let rest : waiting_count round ts ≡ length ts = ground arith in
    let (rounds, none_waits) = waiting_count-full round ts rest k.1 in
    let later : (current == suc round) ≡ false = ground arith in
    (((k.0.0, inr (ap suc now)), rounds), rw later (omega arith))

-- The last thread arrives.
pub last_arrives :
    (round i left : ℕ) (ts : List Thread)
    → suc (waiting_count round ts) ≡ length ts
    → get_elem? ts i ≡ some (outside left)
    → All (InRound round) ts
    → All (InRound (suc round)) (set ts i (outside (suc left)))
      × (waiting_count (suc round) (set ts i (outside (suc left))) ≡ 0)
last_arrives round i left [] h e k = cc
last_arrives round zero left (t ∷ ts) h e k =
    let q : t ≡ outside left = cc in
    let none_here : waits round t ≡ 0 = ap (waits round) q in
    let at : left ≡ round = subst (InRound round) q k.0 in
    let (rounds, none_waits) = waiting_count-full round ts (omega arith) k.1 in
    ((ap suc at, rounds), omega arith)
last_arrives round (suc i) left (outside l ∷ ts) h e k =
    let one = waiting_count-set round i ts (outside left) (waiting 0 round) e in
    let small = waiting_count-le round (set ts i (waiting 0 round)) in
    let size = length-set ts i (waiting 0 round) in
    let yes : (round == round) ≡ true = ==_refl round in absurd (ground arith)
last_arrives round (suc i) left (waiting l current ∷ ts) h e k =
    let one = waiting_count-set round i ts (outside left) (waiting 0 round) e in
    let small = waiting_count-le round (set ts i (waiting 0 round)) in
    let size = length-set ts i (waiting 0 round) in
    let yes : (round == round) ≡ true = ==_refl round in
    let now : current ≡ round = ground arith in
    let rest : suc (waiting_count round ts) ≡ length ts = ground arith in
    let (rounds, none_waits) = last_arrives round i left ts rest e k.1 in
    let later : (current == suc round) ≡ false = ground arith in
    (((k.0.0, inr (ap suc now)), rounds), rw later (omega arith))
