-- ===== src/ThreadGroup/Rounds.antt =====
-- The loops over one group: each reads an item for every middle coordinate.
use dtorch.Base.{
  ℕ, zero, suc, ◌+◌, ◌≤◌, ◌<◌, ◌≡◌, refl, sym, ap, ◌∙◌, subst, inl, inr, Bool, true, false, some,
  List, [], ◌∷◌, arith, ◌==◌, if◌then◌else◌, ==_iff, Bool-cases, length, get_elem?, product,
  Outcome, ok, ◌>>=◌, ok-injective, true≢false, get_elem?-lt,
}
use dtorch.Base.Int.{ℤ, ◌==ℤ◌, ==ℤ_iff}
use dtorch.Stride.RoundTrip.{IsArrayShape, linear, compute_index-linear}
use dtorch.ThreadGroup.{Search, item, match_mid, collect_mid}

abbrev pub sizes : Search → List ℕ
sizes s = s.left_size ∷ s.mid_size ∷ s.right_size ∷ []

-- The array has an item for each coordinate.
pub record IsSearch (s : Search) : Type 0 where
  pub shape : IsArrayShape (sizes s)
  pub filled : length s.items ≡ product (sizes s)

pub item-ok :
    (s : Search) (l r m : ℕ)
    → IsSearch s
    → l < s.left_size
    → r < s.right_size
    → m < s.mid_size
    → (x : ℤ) × (item s l r m ≡ ok x)
      × (get_elem? s.items (linear (sizes s) (l ∷ m ∷ r ∷ [])) ≡ some x)
unfolding item
item-ok s l r m v hl hr hm =
    let (run, below) =
      compute_index-linear (sizes s) (l ∷ m ∷ r ∷ []) v.shape (hl, (hm, (hr, tt))) in
    let (x, here) =
      get_elem?-lt s.items (linear (sizes s) (l ∷ m ∷ r ∷ []))
        (subst (λ z. linear (sizes s) (l ∷ m ∷ r ∷ []) < z) (sym v.filled) below) in
    (x, rw (run, here) refl, here)

-- What the loop over one group answers.
pub record Matched (s : Search) (l r m : ℕ) (run : Outcome Bool) : Type 0 where
  pub answer : Bool
  pub runs : run ≡ ok answer
  pub finds : answer ≡ true → (k : ℕ) × (m ≤ k) × (k < s.mid_size) × (item s l r k ≡ ok s.device_id)
  pub misses : answer ≡ false → (k : ℕ) → m ≤ k → k < s.mid_size → item s l r k ≡ ok s.device_id → ⊥

pub match_mid-Matched :
    (s : Search) (l r m n : ℕ)
    → IsSearch s
    → l < s.left_size
    → r < s.right_size
    → m + n ≡ s.mid_size
    → Matched s l r m (match_mid s l r m n)
unfolding match_mid
match_mid-Matched s l r m zero v hl hr e = record {
  answer = false;
  runs = refl;
  finds = λ q. cc;
  misses = λ q k a b c. absurd (omega arith);
}
match_mid-Matched s l r m (suc n) v hl hr e =
    let (x, run, _) = item-ok s l r m v hl hr (omega arith) in
    by_item x run (match_mid-Matched s l r (suc m) n v hl hr (omega arith))
  where
    by_item :
        (x : ℤ)
        → item s l r m ≡ ok x
        → Matched s l r (suc m) (match_mid s l r (suc m) n)
        → Matched s l r m
            (item s l r m >>= λ x. if x ==ℤ s.device_id then ok true else match_mid s l r (suc m) n)
    by_item x run later = elim (Bool-cases (x ==ℤ s.device_id)) [
      | inl q ↦
          let same : x ≡ s.device_id = (==ℤ_iff x s.device_id).0 q in
          record {
            answer = true;
            runs = rw run (rw q refl);
            finds = λ _. (m, omega arith, omega arith, run ∙ ap ok same);
            misses = λ q k a b c. cc;
          }
      | inr q ↦ record {
        answer = later.answer;
        runs = rw run (rw q later.runs);
        finds = λ t. let (k, a, b, c) = later.finds t in (k, omega arith, b, c);
        misses = λ f k a b c. elim (Bool-cases (m == k)) [
          | inl here ↦
              let at : m ≡ k = (==_iff _ _).0 here in
              let twice : ok x ≡ ok s.device_id = sym run ∙ ap (item s l r) at ∙ c in
              true≢false ((==ℤ_iff x s.device_id).1 (ok-injective twice)) q
          | inr there ↦ later.misses f k (ground arith) b c
        ];
      }
    ]

pub collect_mid-items :
    (s : Search) (l r m n : ℕ)
    → IsSearch s
    → l < s.left_size
    → r < s.right_size
    → m + n ≡ s.mid_size
    → (ids : List ℤ) × (collect_mid s l r m n ≡ ok ids)
      × (length ids ≡ n)
      × ((k : ℕ) (x : ℤ) → k < n → item s l r (m + k) ≡ ok x → get_elem? ids k ≡ some x)
unfolding collect_mid
collect_mid-items s l r m zero v hl hr e = ([], refl, refl, λ k x h q. absurd (omega arith))
collect_mid-items s l r m (suc n) v hl hr e =
    let (x, run, _) = item-ok s l r m v hl hr (omega arith) in
    let (ids, rest, size, at) = collect_mid-items s l r (suc m) n v hl hr (omega arith) in
    (x ∷ ids, rw (run, rest) refl, ap suc size, λ k y h q. at_of x ids run at k y h q)
  where
    at_of :
        (x : ℤ) (ids : List ℤ)
        → item s l r m ≡ ok x
        → ((k : ℕ) (y : ℤ) → k < n → item s l r (suc m + k) ≡ ok y → get_elem? ids k ≡ some y)
        → (k : ℕ) (y : ℤ) → k < suc n
        → item s l r (m + k) ≡ ok y
        → get_elem? (x ∷ ids) k ≡ some y
    at_of x ids run at zero y h q =
        let e : m ≡ m + 0 = omega arith in ap some (ok-injective (sym run ∙ ap (item s l r) e ∙ q))
    at_of x ids run at (suc k) y h q =
        let e : suc m + k ≡ m + suc k = omega arith in at k y (omega arith) (ap (item s l r) e ∙ q)
