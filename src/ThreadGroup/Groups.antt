-- ===== src/ThreadGroup/Groups.antt =====
-- The loops over the groups, and the search.
use dtorch.Base.{
  ℕ, zero, suc, ◌+◌, ◌*◌, ◌≤◌, ◌<◌, ◌≡◌, refl, sym, ap, ◌∙◌, subst, inl, inr, true, Option, none,
  some, List, [], ◌∷◌, map, arith, leb, ◌==◌, ==_iff, Bool-cases, Option-cases, length, get_elem?,
  product, Outcome, ok, lt_of_get_elem?,
}
use dtorch.Base.Int.{ℤ, pos}
use dtorch.Stride.{stride_of_shape, compute_index}
use dtorch.Stride.RoundTrip.{InRange, linear, compute_index-compute_coordinate}
use dtorch.ThreadGroup.{
  ThreadGroupInfo, Search, item, collect_mid, search_right, search_left, search_groups,
}
use dtorch.ThreadGroup.Rounds.{sizes, IsSearch, item-ok, match_mid-Matched, collect_mid-items}

some-injective : {a b : ThreadGroupInfo} → some a ≡ some b → a ≡ b
some-injective e = cc

-- The devices that share the first and the last of the three coordinates with the device that is
-- looked for, in the order of the middle one.
pub record IsGroup (s : Search) (info : ThreadGroupInfo) : Type 0 where
  pub left : ℕ
  pub right : ℕ
  pub left_bound : left < s.left_size
  pub right_bound : right < s.right_size
  pub number : info.sub_group ≡ left * s.right_size + right
  pub size : length info.all_device_id ≡ s.mid_size
  pub devices :
      (k : ℕ)
      → k < s.mid_size
      → get_elem? info.all_device_id k
        ≡ get_elem? s.items (linear (sizes s) (left ∷ k ∷ right ∷ []))
  pub rank : (k : ℕ) × (k < s.mid_size) × (get_elem? info.all_device_id k ≡ some s.device_id)

-- What a loop over groups answers: a group, or `none`, and then no coordinate of `Left` holds the
-- device.
record Searched (s : Search) (Left : ℕ → ℕ → Type 0) (run : Outcome (Option ThreadGroupInfo))
    : Type 0 where
  answer : Option ThreadGroupInfo
  runs : run ≡ ok answer
  finds : (info : ThreadGroupInfo) → answer ≡ some info → IsGroup s info
  misses :
      answer ≡ none
      → (l r k : ℕ) → Left l r
      → l < s.left_size
      → r < s.right_size
      → k < s.mid_size
      → item s l r k ≡ ok s.device_id
      → ⊥

collected :
    (s : Search) (l r : ℕ)
    → IsSearch s
    → l < s.left_size
    → r < s.right_size
    → ((k : ℕ) × (0 ≤ k) × (k < s.mid_size) × (item s l r k ≡ ok s.device_id))
    → (ids : List ℤ) × (collect_mid s l r 0 s.mid_size ≡ ok ids)
      × IsGroup s (record { sub_group = l * s.right_size + r; all_device_id = ids })
collected s l r v hl hr (k, _, hk, here) =
    let (ids, run, size, at) = collect_mid-items s l r 0 s.mid_size v hl hr (omega arith) in
    let from_zero : (j : ℕ) → 0 + j ≡ j = λ j. omega arith in
    (
      ids,
      run,
      record {
        left = l;
        right = r;
        left_bound = hl;
        right_bound = hr;
        number = refl;
        size = size;
        devices = λ j hj.
            let (x, one, two) = item-ok s l r j v hl hr hj in
            at j x hj (ap (item s l r) (from_zero j) ∙ one) ∙ sym two;
        rank = (k, hk, at k s.device_id hk (ap (item s l r) (from_zero k) ∙ here));
      },
    )

search_right-Searched :
    (s : Search) (l r n : ℕ)
    → IsSearch s
    → l < s.left_size
    → r + n ≡ s.right_size
    → Searched s (λ l' r'. (l' ≡ l) × (r ≤ r')) (search_right s l r n)
unfolding search_right
search_right-Searched s l r zero v hl e = record {
  answer = none;
  runs = refl;
  finds = λ info q. cc;
  misses = λ q l' r' k (_, a) hl' hr' hk here. absurd (omega arith);
}
search_right-Searched s l r (suc n) v hl e =
    let hr : r < s.right_size = omega arith in
    let m = match_mid-Matched s l r 0 s.mid_size v hl hr (omega arith) in
    let later = search_right-Searched s l (suc r) n v hl (omega arith) in
    elim (Bool-cases m.answer) [
      | inl q ↦
          let (ids, run, group) = collected s l r v hl hr (m.finds q) in
          record {
            answer = some (record { sub_group = l * s.right_size + r; all_device_id = ids });
            runs = rw (m.runs, q, run) refl;
            finds = λ info t. subst (IsGroup s) (some-injective t) group;
            misses = λ t. cc;
          }
      | inr q ↦ record {
        answer = later.answer;
        runs = rw (m.runs, q) later.runs;
        finds = later.finds;
        misses = λ t l' r' k (a, b) hl' hr' hk here. elim (Bool-cases (r == r')) [
          | inl same ↦ m.misses q k (omega arith) hk (
              ap (λ i. item s i r k) (sym a) ∙ ap (λ j. item s l' j k) ((==_iff _ _).0 same) ∙ here)
          | inr other ↦ later.misses t l' r' k (a, ground arith) hl' hr' hk here
        ];
      }
    ]

search_left-Searched :
    (s : Search) (l n : ℕ)
    → IsSearch s
    → l + n ≡ s.left_size
    → Searched s (λ l' r'. l ≤ l') (search_left s l n)
unfolding search_left
search_left-Searched s l zero v e = record {
  answer = none;
  runs = refl;
  finds = λ info q. cc;
  misses = λ q l' r' k a hl' hr' hk here. absurd (omega arith);
}
search_left-Searched s l (suc n) v e =
    let one = search_right-Searched s l 0 s.right_size v (omega arith) (omega arith) in
    let later = search_left-Searched s (suc l) n v (omega arith) in
    elim (Option-cases one.answer) [
      | inl q ↦ record {
        answer = later.answer;
        runs = rw (one.runs, q) later.runs;
        finds = later.finds;
        misses = λ t l' r' k a hl' hr' hk here. elim (Bool-cases (l == l')) [
          | inl same ↦ one.misses q l' r' k (sym ((==_iff _ _).0 same), omega arith) hl' hr' hk here
          | inr other ↦ later.misses t l' r' k (ground arith) hl' hr' hk here
        ];
      }
      | inr (info, q) ↦ record {
        answer = some info;
        runs = rw (one.runs, q) refl;
        finds = λ i t. subst (IsGroup s) (some-injective t) (one.finds info q);
        misses = λ t. cc;
      }
    ]

-- In an array with an item for each coordinate, a device of the array gets a group, whichever its
-- position: the devices that share its first and its last coordinate, in the order of the middle
-- one, itself among them, and the number of these two coordinates in the group order.
pub search_groups-IsGroup :
    (s : Search) (i : ℕ)
    → IsSearch s
    → get_elem? s.items i ≡ some s.device_id
    → (info : ThreadGroupInfo) × (search_groups s ≡ ok info) × IsGroup s info
unfolding search_groups item
search_groups-IsGroup s i v at =
    let one = search_left-Searched s 0 s.left_size v (omega arith) in
    let small : i < product (sizes s) =
      subst (λ z. i < z) v.filled (lt_of_get_elem? s.items i at) in
    let (cs, run, range, back) = compute_index-compute_coordinate (sizes s) i v.shape small in
    let (h0, (h1, (h2, _))) = v.shape.positive in
    let enough : leb 2 (s.left_size + s.right_size) ≡ true = ground arith in
    elim (Option-cases one.answer) [
      | inl q ↦ absurd (nowhere cs range back (one.misses q))
      | inr (info, q) ↦ (info, rw (enough, one.runs, q) refl, one.finds info q)
    ]
  where
    nowhere :
        (cs : List ℕ)
        → InRange (sizes s) cs
        → compute_index (stride_of_shape (map pos (sizes s))) cs ≡ ok i
        → ((l r k : ℕ)
            → 0 ≤ l
            → l < s.left_size
            → r < s.right_size
            → k < s.mid_size
            → item s l r k ≡ ok s.device_id
            → ⊥)
        → ⊥
    nowhere [] h back misses = elim h [ ]
    nowhere (l ∷ []) (_, h) back misses = elim h [ ]
    nowhere (l ∷ k ∷ []) (_, (_, h)) back misses = elim h [ ]
    nowhere (l ∷ k ∷ r ∷ _ ∷ _) (_, (_, (_, h))) back misses = elim h [ ]
    nowhere (l ∷ k ∷ r ∷ []) (hl, (hk, (hr, _))) back misses =
        misses l r k (omega arith) hl hr hk (rw (back, at) refl)
