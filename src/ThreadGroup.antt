-- ===== src/ThreadGroup.antt =====
-- `ThreadGroupInfo`, the devices that differ from one device along one axis of a mesh only:
-- dtorch/core/communication/thread_group/thread_group_manager.cc. The groups of threads that the
-- manager makes from it hold NCCL communicators and are not modelled.
pub mod Rounds
pub mod Groups
pub mod Whole
use dtorch.Base.{
  ℕ, zero, suc, ◌+◌, ◌-◌, ◌*◌, ◌/◌, ◌%◌, ◌^◌, ◌≤◌, ◌<◌, min, max, ◌≡◌, refl, sym, ap, ◌∙◌, subst,
  fun_ext, ◌≢◌, ◌↔◌, ◌⊎◌, inl, inr, Bool, true, false, not, ◌&&◌, ◌||◌, Option, none, some, List,
  [], ◌∷◌, ◌++◌, map, reverse, arith, ltb, leb, ◌==◌, if◌then◌else◌, ==_refl, ==_iff, ltb→lt,
  lt→ltb, leb→le, Bool-cases, Option-cases, and-eq-true, length, get_elem?, set, take, drop,
  replicate, All, sum, product, length-append, length-set, length-drop, length-take,
  length-replicate, length-map, get_elem?-set_ne, get_elem?-set_self, Outcome, ok, invalid_argument,
  aborted, ◌>>=◌, ◌>>◌, assert_that, throw_unless, of_option, >>=-eq-ok, assert_that-eq-ok,
  throw_unless-eq-ok, ok-injective, true≢false, get_elem?-lt, lt_of_get_elem?,
}
use dtorch.Base.Int.{
  ℤ, pos, negsuc, pos_part, neg_part, sub_ℕ, ◌+ℤ◌, ◌-ℤ◌, ◌*ℤ◌, ◌≤ℤ◌, lt_ℤ, le_ℤ, ◌==ℤ◌, max_ℤ,
  to_size, ==ℤ_iff, ==ℤ_refl, max_ℤ_comm, pos-mul,
}
use dtorch.Shape.{Shape}
use dtorch.Stride.{Stride, stride_of_shape, compute_index, wrap}
use dtorch.DeviceMesh.{SimpleArray}

pub record ThreadGroupInfo : Type 0 where
  pub sub_group : ℕ
  pub all_device_id : List ℤ

-- `leftSize` and `rightSize`: products in a `size_t`.
unfoldable pub size_loop : ℕ → Shape → ℕ
size_loop size [] = size
size_loop size (d ∷ ds) = size_loop (wrap (size * to_size d)) ds

-- The three sizes, the array's data and the device that is looked for.
pub record Search : Type 0 where
  pub left_size : ℕ
  pub mid_size : ℕ
  pub right_size : ℕ
  pub items : List ℤ
  pub device_id : ℤ

-- `arrayData[stride.ComputeIndex({leftIdx, midIdx, rightIdx})]`
unfoldable pub item : Search → ℕ → ℕ → ℕ → Outcome ℤ
item s left right mid = do
  i ←
      compute_index (stride_of_shape (map pos (s.left_size ∷ s.mid_size ∷ s.right_size ∷ [])))
        (left ∷ mid ∷ right ∷ [])
  of_option (get_elem? s.items i)

-- The loops over `midIdx`, with the number of rounds left: whether the device is there, and the
-- devices that are there.
unfoldable pub match_mid : Search → ℕ → ℕ → ℕ → ℕ → Outcome Bool
match_mid s left right mid zero = ok false
match_mid s left right mid (suc n) = do
  x ← item s left right mid
  if x ==ℤ s.device_id then ok true else match_mid s left right (suc mid) n

unfoldable pub collect_mid : Search → ℕ → ℕ → ℕ → ℕ → Outcome (List ℤ)
collect_mid s left right mid zero = ok []
collect_mid s left right mid (suc n) = do
  x ← item s left right mid
  rest ← collect_mid s left right (suc mid) n
  ok (x ∷ rest)

-- The loops over `rightIdx` and `leftIdx`; `none` where they end without a match.
unfoldable pub search_right : Search → ℕ → ℕ → ℕ → Outcome (Option ThreadGroupInfo)
search_right s left right zero = ok none
search_right s left right (suc n) = do
  found ← match_mid s left right 0 s.mid_size
  if found
      then (do
        ids ← collect_mid s left right 0 s.mid_size
        ok (some (record { sub_group = left * s.right_size + right; all_device_id = ids })))
      else search_right s left (suc right) n

abbrev pub or_else :
    Option ThreadGroupInfo → Outcome (Option ThreadGroupInfo) → Outcome (Option ThreadGroupInfo)
or_else none next = next
or_else (some info) next = ok (some info)

unfoldable pub search_left : Search → ℕ → ℕ → Outcome (Option ThreadGroupInfo)
search_left s left zero = ok none
search_left s left (suc n) = do
  found ← search_right s left 0 s.right_size
  or_else found (search_left s (suc left) n)

abbrev pub or_unsupported : Option ThreadGroupInfo → Outcome ThreadGroupInfo
or_unsupported none = aborted
or_unsupported (some info) = ok info

-- The search, and the constructor.
unfoldable pub search_groups : Search → Outcome ThreadGroupInfo
search_groups s = do
  assert_that (leb 2 (s.left_size + s.right_size))
  found ← search_left s 0 s.left_size
  or_unsupported found

unfoldable pub thread_group_info : SimpleArray → ℕ → ℤ → Outcome ThreadGroupInfo
thread_group_info a dim device_id = do
  mid ← of_option (get_elem? a.shape dim)
  let s : Search = record {
    left_size = size_loop 1 (take dim a.shape);
    mid_size = to_size mid;
    right_size = size_loop 1 (drop (suc dim) a.shape);
    items = a.items;
    device_id = device_id;
  }
  if length a.shape == 1
      then ok (record { sub_group = 0; all_device_id = a.items })
      else search_groups s
