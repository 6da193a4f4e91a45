-- ===== src/Tests/Specs.antt =====
-- A tensor of 8 x 6 elements over a mesh of 2 x 2 GPUs, its rows sharded by the first axis.
use dtorch.Base.{ℕ, ◌<◌, ◌≡◌, refl, true, false, List, [], ◌∷◌, arith, length, All, ok}
use dtorch.Base.Int.{ℤ, pos, ◌-ℤ◌, ◌*ℤ◌}
use dtorch.Shape.{Shape, prod, prod_loop, is_null_tensor_shape}
use dtorch.Placement.{shard_at, replicated}
use dtorch.PlacementSeq.{PlacementSeq}
use dtorch.DeviceMesh.{gpu, DeviceMesh, SimpleArray, simple_array, to_set, has, names_loop}
use dtorch.DeviceMesh.Construct.{IsArray, simple_array-IsArray}
use dtorch.DistributedSpec.{check_valid}
use dtorch.DistributedSpec.ShardInfos.{is_sharded, HasShardIndex}
use dtorch.DistributedSpec.Validity.{Answers, IsMesh}
use dtorch.DistributedSpec.Validity.Whole.{IsValidSpec, check_valid-IsValidSpec}

abbrev shape : Shape
shape = pos 8 ∷ pos 6 ∷ []

abbrev ids : List ℤ
ids = pos 0 ∷ pos 1 ∷ pos 2 ∷ pos 3 ∷ []

abbrev array : SimpleArray
array = record { shape = pos 2 ∷ pos 2 ∷ []; dimension_names = []; items = ids; item_set = ids }

array_constructed : simple_array (pos 2 ∷ pos 2 ∷ []) ids [] ≡ ok array
unfolding simple_array prod prod_loop ◌*ℤ◌ ◌-ℤ◌ to_set has names_loop
array_constructed = refl

abbrev mesh : DeviceMesh
mesh = record { kind = gpu; mesh = array }

abbrev placements : PlacementSeq
placements = shard_at 0 ∷ replicated ∷ []

mesh-IsMesh : IsMesh mesh (2 ∷ 2 ∷ [])
mesh-IsMesh = record { dims = refl; positive = (omega arith, (omega arith, tt)); few = omega arith }

placements-HasShardIndex : All HasShardIndex placements
placements-HasShardIndex = (λ e. omega arith, (λ e. cc, tt))

placements_inside : (d : ℕ) → is_sharded d placements ≡ true → d < length shape
placements_inside d e = ground arith

check_valid-IsValidSpec_example :
    (is_null_tensor_shape shape ≡ true → check_valid shape mesh placements (pos 4) ≡ ok true)
    × (is_null_tensor_shape shape ≡ false
        → Answers
            (check_valid shape mesh placements (pos 4))
            (IsValidSpec shape mesh (2 ∷ 2 ∷ []) placements (pos 4)))
check_valid-IsValidSpec_example =
    check_valid-IsValidSpec shape mesh (2 ∷ 2 ∷ []) placements (pos 4) mesh-IsMesh

simple_array-IsArray_example : IsArray array
simple_array-IsArray_example = simple_array-IsArray (pos 2 ∷ pos 2 ∷ []) ids [] array_constructed
