-- ===== src/Operators/Binary/Adds.antt =====
-- When a row of an element-wise operator is sound, and how one is recorded:
-- `AddBroadcastBinaryOpPlacementSignature` of dtorch/core/operators/standard/broadcast_binary_op.cc.
use dtorch.Base.{
  ℕ, ◌+◌, ◌<◌, ◌≡◌, refl, Bool, true, false, some, List, [], ◌∷◌, ◌++◌, length, get_elem?, ok,
}
use dtorch.Base.Int.{ℤ, pos}
use dtorch.Shape.{Shape}
use dtorch.Placement.{Placement, shard_at, replicated}
use dtorch.Signature.{SignaturePair, build}
use dtorch.Signature.Finish.{idle}
use dtorch.Operators.Adds.{Adds, Adds-none}
use dtorch.Operators.Binary.{add_row2, when}

-- How an input of shape `s` takes part in dimension `k` of the output `c`, of size `d`: it is
-- sharded at the dimension that lies there, of the same size, or it replicates and has no
-- dimension there, or one of size one.
pub data Meets (s c : Shape) (k : ℕ) (d : ℤ) : Placement → Type 0 where
  sharded :
      (i : ℕ) → i + length c ≡ k + length s → get_elem? s i ≡ some d → Meets s c k d (shard_at i)
  absent : k + length s < length c → Meets s c k d replicated
  stretches :
      (i : ℕ)
      → i + length c ≡ k + length s
      → get_elem? s i ≡ some (pos 1)
      → Meets s c k d replicated

-- A row that shards dimension `k` of the output, with both inputs as that needs.
pub record IsShardRow (a b c : Shape) (p q r : Placement) : Type 0 where
  pub index : ℕ
  pub size : ℤ
  pub output : r ≡ shard_at index
  pub here : get_elem? c index ≡ some size
  pub left : Meets a c index size p
  pub right : Meets b c index size q

pub IsShardRow-swap :
    (a b c : Shape) {p q r : Placement} → IsShardRow a b c p q r → IsShardRow b a c q p r
IsShardRow-swap a b c s = record {
  index = s.index;
  size = s.size;
  output = s.output;
  here = s.here;
  left = s.right;
  right = s.left;
}

add_row2-idle :
    (p q r : Placement) (ps : List SignaturePair)
    → add_row2 p q r (idle 2 1 ps []) ≡ ok (idle 2 1 (ps ++ (p ∷ q ∷ [], r ∷ []) ∷ []) [])
unfolding add_row2 build
add_row2-idle p q r ps = refl

module _ (P : SignaturePair → Type 0) where
  pub Adds-row :
      (p q r : Placement) (ps : List SignaturePair)
      → P (p ∷ q ∷ [], r ∷ [])
      → Adds 2 P ps (add_row2 p q r (idle 2 1 ps []))
  Adds-row p q r ps h = record {
    rows = (p ∷ q ∷ [], r ∷ []) ∷ [];
    result = add_row2-idle p q r ps;
    each = (h, tt);
  }

  pub Adds-when :
      (test : Bool) (p q r : Placement) (ps : List SignaturePair)
      → (test ≡ true → P (p ∷ q ∷ [], r ∷ []))
      → Adds 2 P ps (when test (add_row2 p q r) (idle 2 1 ps []))
  Adds-when true p q r ps h = Adds-row p q r ps (h refl)
  Adds-when false p q r ps h = Adds-none 2 P ps
