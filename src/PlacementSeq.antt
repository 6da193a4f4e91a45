-- ===== src/PlacementSeq.antt =====
-- `PlacementSeq`, a placement for each axis of a device mesh: dtorch/api/cpp/distributed_spec.cc.
-- A sequence is a handle of a shared vector. The writes through `operator[]` copy it first; the two
-- in-place rewrites below do not: they return the vector that they leave, and Redistribute rewrites
-- it for every handle.
pub mod ConvertOrder
pub mod OneByOne
use dtorch.Base.{
  ℕ, zero, suc, ◌+◌, ◌-◌, ◌*◌, ◌/◌, ◌%◌, ◌^◌, ◌≤◌, ◌<◌, min, max, ◌≡◌, refl, sym, ap, ◌∙◌, subst,
  fun_ext, ◌≢◌, ◌↔◌, ◌⊎◌, inl, inr, Bool, true, false, not, ◌&&◌, ◌||◌, Option, none, some, List,
  [], ◌∷◌, ◌++◌, map, reverse, arith, ltb, leb, ◌==◌, if◌then◌else◌, ==_refl, ==_iff, ltb→lt,
  lt→ltb, leb→le, Bool-cases, Option-cases, and-eq-true, length, get_elem?, set, take, drop,
  replicate, All, sum, product, length-append, length-set, length-drop, length-take,
  length-replicate, length-map, get_elem?-set_ne, get_elem?-set_self, Outcome, ok, invalid_argument,
  aborted, ◌>>=◌, ◌>>◌, assert_that, throw_unless, of_option, >>=-eq-ok, assert_that-eq-ok,
  throw_unless-eq-ok, ok-injective,
}
use dtorch.Base.Int.{
  ℤ, pos, negsuc, pos_part, neg_part, sub_ℕ, ◌+ℤ◌, ◌-ℤ◌, ◌*ℤ◌, ◌≤ℤ◌, lt_ℤ, le_ℤ, ◌==ℤ◌, max_ℤ,
  to_size, ==ℤ_iff, ==ℤ_refl, max_ℤ_comm, pos-mul,
}
use dtorch.Placement.{Placement, ◌==ₚ◌, shard_of, replicated}
use dtorch.Shape.{Shape}

abbrev pub PlacementSeq : Type 0
PlacementSeq = List Placement

-- `IsAllReplicate` and `HasPartial`; both are false of the empty sequence.
unfoldable pub every_replicate : PlacementSeq → Bool
every_replicate [] = true
every_replicate (p ∷ ps) = let rest = every_replicate ps in if p.replicate then rest else false

unfoldable pub is_all_replicate : PlacementSeq → Bool
unfolding every_replicate
is_all_replicate ps = if length ps == 0 then false else every_replicate ps

unfoldable pub has_partial : PlacementSeq → Bool
has_partial [] = false
has_partial (p ∷ ps) = let rest = has_partial ps in if p.partial then true else rest

-- `operator==`
infix 50 ◌==ₛₑ◌
unfoldable pub ◌==ₛₑ◌ : PlacementSeq → PlacementSeq → Bool
[] ==ₛₑ [] = true
(a ∷ as') ==ₛₑ (b ∷ bs) = let rest = as' ==ₛₑ bs in if a ==ₚ b then rest else false
[] ==ₛₑ (b ∷ bs) = false
(a ∷ as') ==ₛₑ [] = false

-- `ToReplicateWhenDimSizeEqualOne`: an axis of the mesh with one device replicates.
unfoldable pub replicate_size_one : Shape → PlacementSeq → PlacementSeq
replicate_size_one (d ∷ ds) (p ∷ ps) =
    (if d ==ℤ pos 1 then replicated else p) ∷ replicate_size_one ds ps
replicate_size_one _ ps = ps

unfoldable pub to_replicate_when_dim_size_equal_one : Shape → PlacementSeq → Outcome PlacementSeq
unfolding replicate_size_one
to_replicate_when_dim_size_equal_one mesh_shape ps = do
  assert_that (length ps == length mesh_shape)
  ok (replicate_size_one mesh_shape ps)

-- `ShardDimToPositiveNumber`: a negative shard index counts from the last dimension. The new
-- placement is `Shard(index)`, so that a sub split is lost.
unfoldable pub positive_shard : ℕ → Placement → Placement
unfolding ◌+ℤ◌
positive_shard axes p =
    if p.shard && (lt_ℤ p.shard_index (pos 0) && le_ℤ (pos 0) (p.shard_index +ℤ pos axes))
    then shard_of (p.shard_index +ℤ pos axes) (negsuc 0)
    else p

unfoldable pub shard_dim_to_positive_number : Shape → PlacementSeq → PlacementSeq
unfolding positive_shard
shard_dim_to_positive_number shape ps = map (positive_shard (length shape)) ps

-- `GetDiffDims`, from the axis `i` on.
unfoldable pub diff_dims_from : ℕ → PlacementSeq → PlacementSeq → List ℕ
diff_dims_from i (a ∷ as') (b ∷ bs) =
    let rest = diff_dims_from (suc i) as' bs in if a ==ₚ b then rest else i ∷ rest
diff_dims_from i _ _ = []

unfoldable pub get_diff_dims : PlacementSeq → PlacementSeq → Outcome (List ℕ)
get_diff_dims a b = do assert_that (length a == length b); ok (diff_dims_from 0 a b)

-- The loop of `GetConvertOrder`: `b2f`, the axes to gather, and `result`, the others that differ.
unfoldable pub order_loop : ℕ → PlacementSeq → PlacementSeq → List ℕ × List ℕ
order_loop i (a ∷ as') (b ∷ bs) =
    let (b2f, result) = order_loop (suc i) as' bs in
    if a.shard && b.replicate
    then (i ∷ b2f, result)
    else (if a ==ₚ b then (b2f, result) else (b2f, i ∷ result))
order_loop i _ _ = ([], [])

-- `GetConvertOrder`: the gathers come last, from back to front. A shorter destination is read
-- out of bounds.
unfoldable pub get_convert_order : PlacementSeq → PlacementSeq → Outcome (List ℕ)
get_convert_order src dest = do
  assert_that (leb (length src) (length dest))
  let (b2f, result) = order_loop 0 src dest
  ok (result ++ reverse b2f)

-- `placements[dim] = dest[dim]`
unfoldable pub assign_dim : PlacementSeq → PlacementSeq → ℕ → PlacementSeq
assign_dim dest placements dim = elim (get_elem? dest dim) [
  | none ↦ placements
  | some p ↦ set placements dim p
]
