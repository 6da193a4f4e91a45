-- ===== src/Operators/Binary/Sound.antt =====
-- The rows of an element-wise operator's signature: `AddBroadcastBinaryOpPlacementSignature` of
-- dtorch/core/operators/standard/broadcast_binary_op.cc.
use dtorch.Base.{
  ℕ, zero, suc, ◌+◌, ◌-◌, ◌≤◌, ◌<◌, max, ◌≡◌, refl, sym, ap, ◌∙◌, ◌≢◌, ◌⊎◌, inl, inr, Bool, true,
  some, List, [], ◌∷◌, arith, ltb, Bool-cases, length, get_elem?, All, Outcome, ok, ◌>>=◌,
  >>=-eq-ok, ok-injective, get_elem?-lt,
}
use dtorch.Base.{get_elem?-All}
use dtorch.Base.Int.{ℤ, pos, ◌≤ℤ◌, ◌==ℤ◌, max_ℤ, ==ℤ_iff}
use dtorch.Shape.{Shape}
use dtorch.Placement.{shard_at, replicated}
use dtorch.Signature.{SignaturePair, Builder}
use dtorch.Signature.Finish.{idle}
use dtorch.Operators.{read_dim}
use dtorch.Operators.Rows.{read_dim-eq-ok}
use dtorch.Operators.Binary.{stretched, when, spread_loop}
use dtorch.Shape.Broadcast.Sizes.{HasSizes}
use dtorch.Operators.Adds.{Adds, Adds-none, Adds-then}
use dtorch.Operators.Binary.Adds.{sharded, absent, stretches, IsShardRow}

abbrev pub Positive : Shape → Type 0
Positive s = All (λ d. pos 1 ≤ℤ d) s

pub read_dim-lt : (s : Shape) (i : ℕ) → i < length s → (d : ℤ) × (read_dim s i ≡ ok d)
read_dim-lt [] i h = absurd (omega arith)
read_dim-lt (x ∷ s) zero h = (x, refl)
read_dim-lt (x ∷ s) (suc i) h = read_dim-lt s i (omega arith)

stretched-ok :
    (other : Shape) (expand i : ℕ)
    → i < expand + length other
    → (t : Bool) × (stretched other expand i ≡ ok t)
stretched-ok other expand i h = elim (Bool-cases (ltb i expand)) [
  | inl e ↦ (true, rw e refl)
  | inr e ↦
      let (d, r) = read_dim-lt other (i - expand) (ground arith) in (d ==ℤ pos 1, rw (e, r) refl)
]

-- A loop of `spread_loop`, where the test grants the property of the row.
module _ (P : SignaturePair → Type 0) (add : ℕ → Builder → Outcome Builder) (other : Shape)
    (expand last : ℕ)
    (adds : (i : ℕ) (ps : List SignaturePair) (test : Bool)
      → i < last
      → stretched other expand i ≡ ok test
      → Adds 2 P ps (when test (add i) (idle 2 1 ps []))) where
  pub spread_loop-Adds :
      (n i : ℕ) (ps : List SignaturePair)
      → i + n ≤ last
      → last ≤ expand + length other
      → Adds 2 P ps (spread_loop add other expand i n (idle 2 1 ps []))
  unfolding spread_loop
  spread_loop-Adds zero i ps h k = Adds-none 2 P ps
  spread_loop-Adds (suc n) i ps h k =
      let (t, r) = stretched-ok other expand i (omega arith) in
      rw r (
        Adds-then 2 P ps _ (λ b. spread_loop add other expand (suc i) n b)
          (adds i ps t (omega arith) r) (λ qs. spread_loop-Adds n (suc i) qs (omega arith) k))

abbrev pub expand_of : Shape → Shape → ℕ
expand_of s other = max (length s) (length other) - length s

max-one : (d : ℤ) → pos 1 ≤ℤ d → max_ℤ d (pos 1) ≡ d
max-one d h = ground arith

-- The longer shape has no dimension of size one among as many of its first ones as the shorter has.
abbrev pub NoOnes : Shape → Shape → Type 0
NoOnes a b = (i : ℕ) → i < length a → length a < length b → get_elem? b i ≢ some (pos 1)

longer : (m n : ℕ) → (m < n) ⊎ (n ≤ m)
longer m n = omega arith

-- The row of the first loop. Behind `expand`, the test reads the other shape at `i`, which is the
-- dimension that lies there only where the other shape is not the longer one.
pub left_sound :
    (a b c : Shape) (i : ℕ)
    → HasSizes a b c
    → Positive a
    → NoOnes a b
    → i < length a
    → stretched b (expand_of b a) i ≡ ok true
    → IsShardRow a b c (shard_at i) replicated (shard_at (i + expand_of a b))
left_sound a b c i s positive ones h t =
    let (d, here) = get_elem?-lt a i h in
    let low = get_elem?-All (λ z. pos 1 ≤ℤ z) a i d positive here in
    let axes = s.axes in
    let place : i + length c ≡ i + expand_of a b + length a = omega arith in
    elim (Bool-cases (ltb i (expand_of b a))) [
      | inl e ↦
          let less : i < length a - length b = ground arith in
          let same : i + expand_of a b ≡ i = omega arith in
          record {
            index = i + expand_of a b;
            size = d;
            output = refl;
            here = ap (get_elem? c) same ∙ s.left_alone i less ∙ here;
            left = sharded i place here;
            right = absent (omega arith);
          }
      | inr e ↦
          let j = i - expand_of b a in
          let t' : (read_dim b j >>= λ y. ok (y ==ℤ pos 1)) ≡ ok true = rw e at t in
          let (y, r, q) = >>=-eq-ok (read_dim b j) (λ y. ok (y ==ℤ pos 1)) t' in
          let (there, inside) = read_dim-eq-ok b j r in
          let one : y ≡ pos 1 = (==ℤ_iff y (pos 1)).0 (ok-injective q) in
          let at_j : get_elem? b j ≡ some (pos 1) = there ∙ ap some one in
          let low_i : expand_of b a ≤ i = ground arith in
          elim (longer (length a) (length b)) [
            | inl less ↦
                let first : j ≡ i = omega arith in
                absurd (ones i h less (ap (get_elem? b) (sym first) ∙ at_j))
            | inr more ↦
                let one_index : j + (length a - length b) ≡ i = omega arith in
                let other_index : j + (length b - length a) ≡ j = omega arith in
                let index : i + expand_of a b ≡ j + (length b - length a) + (length a - length b) =
                  omega arith in
                let (value, fit) =
                  s.both j d (pos 1) (ap (get_elem? a) one_index ∙ here)
                    (ap (get_elem? b) other_index ∙ at_j) in
                record {
                  index = i + expand_of a b;
                  size = d;
                  output = refl;
                  here = ap (get_elem? c) index ∙ value ∙ ap some (max-one d low);
                  left = sharded i place here;
                  right = stretches j (omega arith) at_j;
                }
          ]
    ]

max_self : (a : ℤ) → max_ℤ a a ≡ a
max_self a = ground arith

-- The row of the third loop.
pub aligned_sound :
    (a b c : Shape) (i : ℕ) (x y : ℤ)
    → HasSizes a b c
    → get_elem? a (i + expand_of b a) ≡ some x
    → get_elem? b (i + expand_of a b) ≡ some y
    → (x ==ℤ y) ≡ true
    → IsShardRow a b c
        (shard_at (i + expand_of b a))
        (shard_at (i + expand_of a b))
        (shard_at (i + expand_of a b + expand_of b a))
aligned_sound a b c i x y s p q e =
    let same : y ≡ x = sym ((==ℤ_iff x y).0 e) in
    let axes = s.axes in
    let eb : expand_of b a ≡ length a - length b = omega arith in
    let ea : expand_of a b ≡ length b - length a = omega arith in
    let index : i + expand_of a b + expand_of b a
        ≡ i + (length b - length a) + (length a - length b) =
      omega arith in
    let (value, fit) = s.both i x y (rw eb at p) (rw ea at q) in
    record {
      index = i + expand_of a b + expand_of b a;
      size = x;
      output = refl;
      here =
          ap (get_elem? c) index ∙ value ∙ ap (λ z. some (max_ℤ x z)) same ∙ ap some (max_self x);
      left = sharded (i + expand_of b a) (omega arith) p;
      right = sharded (i + expand_of a b) (omega arith) (q ∙ ap some same);
    }
