-- ===== src/Redistribute.antt =====
-- `ConvertOpImpl`, which turns one call of `Redistribute` into convert operators:
-- dtorch/api/cpp/functional/implement/convert_op_impl.{h,cc}. A `DataKind` is the number of its
-- enumerator; what the graph constructor is given is a list of operators, the last of which is
-- the result.
pub mod Rewritten
pub mod Emitted
pub mod Meshes
use Prim.Native.String.{String}
use dtorch.Base.{
  ℕ, zero, suc, ◌+◌, ◌-◌, ◌*◌, ◌/◌, ◌%◌, ◌^◌, ◌≤◌, ◌<◌, min, max, ◌≡◌, refl, sym, ap, ◌∙◌, subst,
  fun_ext, ◌≢◌, ◌↔◌, ◌⊎◌, inl, inr, Bool, true, false, not, ◌&&◌, ◌||◌, Option, none, some, List,
  [], ◌∷◌, ◌++◌, map, reverse, arith, ltb, leb, ◌==◌, if◌then◌else◌, ==_refl, ==_iff, ltb→lt,
  lt→ltb, leb→le, Bool-cases, Option-cases, and-eq-true, length, get_elem?, set, take, drop,
  replicate, All, sum, product, length-append, length-set, length-drop, length-take,
  length-replicate, length-map, get_elem?-set_ne, get_elem?-set_self, Outcome, ok, invalid_argument,
  aborted, ◌>>=◌, ◌>>◌, assert_that, throw_unless, of_option, >>=-eq-ok, assert_that-eq-ok,
  throw_unless-eq-ok, ok-injective,
}
use dtorch.Base.Int.{
  ℤ, pos, negsuc, pos_part, neg_part, sub_ℕ, ◌+ℤ◌, ◌-ℤ◌, ◌*ℤ◌, ◌≤ℤ◌, lt_ℤ, le_ℤ, ◌==ℤ◌, max_ℤ,
  to_size, ==ℤ_iff, ==ℤ_refl, max_ℤ_comm, pos-mul,
}
use text.Mathlib.Text.{◌==◌ as str_eq}
use dtorch.Shape.{Shape, ◌==ₛ◌}
use dtorch.Placement.{Placement, replicated}
use dtorch.PlacementSeq.{
  PlacementSeq, ◌==ₛₑ◌, to_replicate_when_dim_size_equal_one, shard_dim_to_positive_number,
  get_convert_order, assign_dim,
}
use dtorch.DeviceMesh.{DeviceMesh, SimpleArray, kind_eq, num_axis, is_distributed}
use dtorch.DistributedSpec.{check_valid}

-- `operator==` of two maps from names to indices, two arrays and two meshes.
unfoldable pub has_name : String → ℕ → List (String × ℕ) → Bool
has_name name i [] = false
has_name name i ((n, j) ∷ rest) = str_eq n name && i == j || has_name name i rest

unfoldable pub has_names : List (String × ℕ) → List (String × ℕ) → Bool
has_names [] names = true
has_names ((n, i) ∷ rest) names = has_name n i names && has_names rest names

unfoldable pub same_array : SimpleArray → SimpleArray → Outcome Bool
same_array a b =
    if not (a.shape ==ₛ b.shape)
    then ok false
    else (if not (
          length a.dimension_names == length b.dimension_names
          && has_names a.dimension_names b.dimension_names)
        then ok false
        else assert_that (length a.items == length b.items) >> ok (a.items ==ₛ b.items))

unfoldable pub same_mesh : DeviceMesh → DeviceMesh → Outcome Bool
same_mesh a b = if kind_eq a.kind b.kind then same_array a.mesh b.mesh else ok false

-- `shared` says that `mDestPlacements` and `mSrcPlacements` hold the same vector: a `PlacementSeq` is
-- a handle of a vector, and a copy of it is another handle of the same one.
pub record Conversion : Type 0 where
  pub shape : Shape
  pub src_data_kind : ℕ
  pub src_device_mesh : DeviceMesh
  pub src_placements : PlacementSeq
  pub dest_data_kind : ℕ
  pub dest_device_mesh : DeviceMesh
  pub dest_placements : PlacementSeq
  pub shared : Bool
  pub convert_data_kind : Bool
  pub convert_device_mesh : Bool
  pub convert_placement : Bool

abbrev value_or {ℓ} : {A : Type ℓ} → Option A → A → A
value_or none a = a
value_or (some b) a = b

-- The placements that the constructor's body chooses.
unfoldable pub chosen_placements :
    PlacementSeq → Option DeviceMesh → Option PlacementSeq → PlacementSeq
chosen_placements src none placements = value_or placements src
chosen_placements src (some m) placements = value_or placements (replicate (num_axis m) replicated)

-- Whether they share a vector with the source's: a caller's sequence may be a copy of the tensor's
-- own, which `aliased` says, and without one the source's is copied.
abbrev shares_source {ℓ κ} : {A : Type ℓ} {B : Type κ} → Bool → Option A → Option B → Bool
shares_source aliased device_mesh (some placements) = aliased
shares_source aliased none none = true
shares_source aliased (some m) none = false

-- The constructor. `mConvertPlacement` is initialised before the destination is assigned: it
-- compares the source's placements with an empty sequence.
unfoldable pub conversion :
    Shape
    → ℕ
    → DeviceMesh
    → PlacementSeq
    → Option ℕ
    → Option DeviceMesh
    → Option PlacementSeq
    → Bool
    → Outcome Conversion
conversion shape kind mesh src data_kind device_mesh placements aliased = do
  same ← same_mesh mesh (value_or device_mesh mesh)
  ok (record {
    shape = shape;
    src_data_kind = kind;
    src_device_mesh = mesh;
    src_placements = src;
    dest_data_kind = value_or data_kind kind;
    dest_device_mesh = value_or device_mesh mesh;
    dest_placements = chosen_placements src device_mesh placements;
    shared = shares_source aliased device_mesh placements;
    convert_data_kind = not (kind == value_or data_kind kind);
    convert_device_mesh = not same;
    convert_placement = not (src ==ₛₑ []);
  })

-- A `ConvertParam`.
pub record ConvertParam : Type 0 where
  pub data_kind : ℕ
  pub device_mesh : DeviceMesh
  pub placements : PlacementSeq

-- `AddIntoGraphConstructor`: the operators so far, and the new one.
unfoldable pub add_into_graph_constructor :
    Conversion → ℤ → ConvertParam → List ConvertParam → Outcome (List ConvertParam)
add_into_graph_constructor c total p operators =
    if not c.convert_data_kind && not c.convert_device_mesh && not c.convert_placement
    then ok operators
    else (do
      valid ← check_valid c.shape p.device_mesh p.placements total
      throw_unless valid
      ok (operators ++ p ∷ []))

-- The loop of `ConvertPlacementsOneByOne`.
unfoldable pub convert_loop :
    Conversion → ℤ → List ℕ → PlacementSeq → List ConvertParam → Outcome (List ConvertParam)
convert_loop c total [] placements operators = ok operators
convert_loop c total (d ∷ dims) placements operators = do
  let next = assign_dim c.dest_placements placements d
  more ←
      add_into_graph_constructor c total
        (record { data_kind = c.src_data_kind; device_mesh = c.src_device_mesh; placements = next })
        operators
  convert_loop c total dims next more

-- `ConvertPlacementsOneByOne`
unfoldable pub convert_placements_one_by_one :
    Conversion → ℤ → Outcome (Conversion × List ConvertParam)
convert_placements_one_by_one c total =
    if c.convert_placement && is_distributed c.src_device_mesh && is_distributed c.dest_device_mesh
    then (do
      assert_that (length c.src_placements == length c.dest_placements)
      order ← get_convert_order c.src_placements c.dest_placements
      operators ← convert_loop c total order c.src_placements []
      ok (record c { src_placements = c.dest_placements; convert_placement = false }, operators))
    else ok (c, [])

-- The source's placements once the destination's were rewritten in place to `dest`: a shared vector
-- is rewritten for both.
abbrev pub rewritten_source : Conversion → PlacementSeq → PlacementSeq
rewritten_source c dest = if c.shared then dest else c.src_placements

-- `RunFunc`
unfoldable pub run_func : Conversion → ℤ → Outcome (List ConvertParam)
run_func c total = do
  throw_unless (
      not (
        is_distributed c.src_device_mesh
        && is_distributed c.dest_device_mesh
        && not (num_axis c.src_device_mesh == num_axis c.dest_device_mesh)))
  replicates ← to_replicate_when_dim_size_equal_one c.dest_device_mesh.mesh.shape c.dest_placements
  let dest = shard_dim_to_positive_number c.shape replicates
  (converted, operators) ←
      convert_placements_one_by_one
        (record c { src_placements = rewritten_source c dest; dest_placements = dest }) total
  add_into_graph_constructor converted total
      (record {
        data_kind = converted.dest_data_kind;
        device_mesh = converted.dest_device_mesh;
        placements = converted.dest_placements;
      })
      operators
