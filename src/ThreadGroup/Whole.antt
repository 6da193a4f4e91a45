-- ===== src/ThreadGroup/Whole.antt =====
-- The constructor of a group, from the shape of the array.
use dtorch.Base.{
  ℕ, zero, suc, ◌*◌, ◌^◌, ◌≤◌, ◌<◌, ◌≡◌, refl, sym, ap, ◌∙◌, subst, inl, inr, some, List, [], ◌∷◌,
  map, arith, ◌==◌, if◌then◌else◌, ==_iff, Bool-cases, length, get_elem?, take, drop, All, product,
  length-map, ok, lt_of_get_elem?,
}
use dtorch.Base.Int.{ℤ, pos}
use dtorch.DeviceMesh.{SimpleArray}
use dtorch.Stride.{wrap}
use dtorch.Stride.RoundTrip.{IsArrayShape, product-pos}
use dtorch.ThreadGroup.{ThreadGroupInfo, Search, size_loop, search_groups, thread_group_info}
use dtorch.ThreadGroup.Groups.{IsGroup, search_groups-IsGroup}
use dtorch.ThreadGroup.Rounds.{IsSearch}

grows : (a b : ℕ) → 0 < b → a ≤ a * b
grows a zero h = absurd (omega arith)
grows a (suc b) h = grind arith

size_loop-product :
    (n : ℕ) (ds : List ℕ)
    → All (λ d. 0 < d) ds
    → n * product ds < 2 ^ 63
    → size_loop n (map pos ds) ≡ n * product ds
unfolding size_loop
size_loop-product n [] h small = omega arith
size_loop-product n (d ∷ ds) (h, hs) small =
    let shift : n * (d * product ds) ≡ n * d * product ds = grind arith in
    let small' : n * d * product ds < 2 ^ 63 = subst (λ z. z < 2 ^ 63) shift small in
    let p = product-pos ds hs in
    let below : n * d ≤ n * d * product ds = grows (n * d) (product ds) p in
    let fits : wrap (n * d) ≡ n * d = omega arith in
    ap (λ z. size_loop z (map pos ds)) fits ∙ size_loop-product (n * d) ds hs small' ∙ sym shift

-- A shape cut at one of its dimensions.
record Cut (ds : List ℕ) (dim : ℕ) : Type 0 where
  mid : ℕ
  read : get_elem? (map pos ds) dim ≡ some (pos mid)
  chosen : get_elem? ds dim ≡ some mid
  before : take dim (map pos ds) ≡ map pos (take dim ds)
  behind : drop (suc dim) (map pos ds) ≡ map pos (drop (suc dim) ds)
  whole : product (take dim ds) * (mid * (product (drop (suc dim) ds) * 1)) ≡ product ds
  positive : 0 < mid
  positive_before : All (λ d. 0 < d) (take dim ds)
  positive_behind : All (λ d. 0 < d) (drop (suc dim) ds)

cut : (ds : List ℕ) (dim : ℕ) → All (λ d. 0 < d) ds → dim < length ds → Cut ds dim
cut [] dim hs h = absurd (omega arith)
cut (d ∷ ds) zero (h, hs) e = record {
  mid = d;
  read = refl;
  chosen = refl;
  before = refl;
  behind = refl;
  whole = grind arith;
  positive = h;
  positive_before = tt;
  positive_behind = hs;
}
cut (d ∷ ds) (suc dim) (h, hs) e =
    let c = cut ds dim hs (omega arith) in
    record {
      mid = c.mid;
      read = c.read;
      chosen = c.chosen;
      before = ap (◌∷◌ (pos d)) c.before;
      behind = c.behind;
      whole = regroup d (product (take dim ds)) _ ∙ ap (◌*◌ d) c.whole;
      positive = c.positive;
      positive_before = (h, c.positive_before);
      positive_behind = c.positive_behind;
    }
  where
    regroup : (a b c : ℕ) → a * b * c ≡ a * (b * c)
    regroup a b c = grind arith

-- The search that the constructor makes: the dimensions in front of the axis, the axis, and the
-- dimensions behind it.
abbrev pub search_of : List ℕ → ℕ → ℕ → List ℤ → ℤ → Search
search_of ds dim mid items device_id = record {
  left_size = product (take dim ds);
  mid_size = mid;
  right_size = product (drop (suc dim) ds);
  items = items;
  device_id = device_id;
}

one_dimension :
    (ds : List ℕ) (dim mid i : ℕ) (items : List ℤ) (device_id : ℤ)
    → length ds ≡ 1
    → dim < length ds
    → get_elem? ds dim ≡ some mid
    → length items ≡ product ds
    → get_elem? items i ≡ some device_id
    → IsGroup
        (search_of ds dim mid items device_id)
        (record { sub_group = 0; all_device_id = items })
one_dimension [] dim mid i items device_id one inside chosen e at = absurd (omega arith)
one_dimension (d ∷ d' ∷ ds) dim mid i items device_id one inside chosen e at = absurd (omega arith)
one_dimension (d ∷ []) (suc dim) mid i items device_id one inside chosen e at = absurd (omega arith)
one_dimension (d ∷ []) zero mid i items device_id one inside chosen e at =
    let same : d ≡ mid = cc in
    record {
      left = 0;
      right = 0;
      left_bound = omega arith;
      right_bound = omega arith;
      number = omega arith;
      size = omega arith;
      devices = λ k hk. ap (get_elem? items) (omega arith);
      rank = (i, omega (arith, lt_of_get_elem? items i at), at);
    }

outer_le : (a m b : ℕ) → 0 < a → 0 < m → 0 < b → (a ≤ a * (m * (b * 1))) × (b ≤ a * (m * (b * 1)))
outer_le a m b ha hm hb =
    let mb : m ≤ m * b = grows m b hb in
    let one : m * b ≡ m * (b * 1) = grind arith in
    let two : b * (m * a) ≡ a * (m * (b * 1)) = grind arith in
    let ma : m ≤ m * a = grows m a ha in
    (
      grows a (m * (b * 1)) (subst (λ z. 0 < z) one (omega arith)),
      subst (λ z. b ≤ z) two (grows b (m * a) (omega arith)),
    )

-- The sizes that the constructor computes.
sizes-product :
    (ds : List ℕ) (dim : ℕ) (c : Cut ds dim)
    → product ds < 2 ^ 63
    → (size_loop 1 (map pos (take dim ds)) ≡ product (take dim ds))
      × (size_loop 1 (map pos (drop (suc dim) ds)) ≡ product (drop (suc dim) ds))
sizes-product ds dim c small =
    let (left, right) =
      outer_le (product (take dim ds)) c.mid (product (drop (suc dim) ds))
        (product-pos (take dim ds) c.positive_before) c.positive
        (product-pos (drop (suc dim) ds) c.positive_behind) in
    let whole = c.whole in
    (
      size_loop-product 1 (take dim ds) c.positive_before (omega arith) ∙ omega arith,
      size_loop-product 1 (drop (suc dim) ds) c.positive_behind (omega arith) ∙ omega arith,
    )

search_of-IsSearch :
    (ds : List ℕ) (dim : ℕ) (items : List ℤ) (device_id : ℤ) (c : Cut ds dim)
    → IsArrayShape ds
    → length items ≡ product ds
    → IsSearch (search_of ds dim c.mid items device_id)
search_of-IsSearch ds dim items device_id c v filled = record {
  shape = record {
    positive = (
      product-pos (take dim ds) c.positive_before,
      (c.positive, (product-pos (drop (suc dim) ds) c.positive_behind, tt)),
    );
    bounded = subst (λ z. z < 2 ^ 63) (sym c.whole) v.bounded;
  };
  filled = filled ∙ sym c.whole;
}

-- In an array whose shape has no zero, with an item for each coordinate, the constructor gives a
-- device of the array its group along any axis: the devices that differ from it along this axis
-- only, in the order of the axis, itself among them. No product wraps around and no assertion
-- fails.
pub thread_group_info-IsGroup :
    (a : SimpleArray) (ds : List ℕ) (dim i : ℕ) (device_id : ℤ)
    → a.shape ≡ map pos ds
    → IsArrayShape ds
    → length a.items ≡ product ds
    → dim < length ds
    → get_elem? a.items i ≡ some device_id
    → (mid : ℕ) × (get_elem? ds dim ≡ some mid)
      × ((info : ThreadGroupInfo) × (thread_group_info a dim device_id ≡ ok info)
          × IsGroup (search_of ds dim mid a.items device_id) info)
unfolding thread_group_info
thread_group_info-IsGroup a ds dim i device_id shaped v filled inside at =
    let c = cut ds dim v.positive inside in (c.mid, c.chosen, by_axes c)
  where
    by_axes :
        (c : Cut ds dim)
        → (info : ThreadGroupInfo) × (thread_group_info a dim device_id ≡ ok info)
          × IsGroup (search_of ds dim c.mid a.items device_id) info
    by_axes c =
        let (left, right) = sizes-product ds dim c v.bounded in
        let starts : thread_group_info a dim device_id ≡ (
            if length ds == 1
            then ok (record { sub_group = 0; all_device_id = a.items })
            else search_groups (search_of ds dim c.mid a.items device_id)) =
          rw (shaped, c.read, c.before, c.behind, length-map, left, right) refl in
        elim (Bool-cases (length ds == 1)) [
          | inl one ↦ (
            record { sub_group = 0; all_device_id = a.items },
            starts ∙ rw one refl,
            one_dimension ds dim c.mid i a.items device_id ((==_iff _ _).0 one) inside c.chosen
                filled at,
          )
          | inr more ↦
              let (info, run, group) =
                search_groups-IsGroup (search_of ds dim c.mid a.items device_id) i
                  (search_of-IsSearch ds dim a.items device_id c v filled) at in
              (info, starts ∙ rw more run, group)
        ]
