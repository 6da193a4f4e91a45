-- ===== src/Operators/Inference.antt =====
-- The inference of an operator's outputs: `CheckInput` and its four checks, and
-- `InferOutputDistributedSpecFromPlacementSignature`, of dtorch/core/operators/operator.cc. A
-- `DataKind` is the number of its enumerator.
pub mod Checked
pub mod Inferred
use dtorch.Base.{
  ℕ, zero, suc, ◌+◌, ◌-◌, ◌*◌, ◌/◌, ◌%◌, ◌^◌, ◌≤◌, ◌<◌, min, max, ◌≡◌, refl, sym, ap, ◌∙◌, subst,
  fun_ext, ◌≢◌, ◌↔◌, ◌⊎◌, inl, inr, Bool, true, false, not, ◌&&◌, ◌||◌, Option, none, some, List,
  [], ◌∷◌, ◌++◌, map, reverse, arith, ltb, leb, ◌==◌, if◌then◌else◌, ==_refl, ==_iff, ltb→lt,
  lt→ltb, leb→le, Bool-cases, Option-cases, and-eq-true, length, get_elem?, set, take, drop,
  replicate, All, sum, product, length-append, length-set, length-drop, length-take,
  length-replicate, length-map, get_elem?-set_ne, get_elem?-set_self, Outcome, ok, invalid_argument,
  aborted, ◌>>=◌, ◌>>◌, assert_that, throw_unless, of_option, >>=-eq-ok, assert_that-eq-ok,
  throw_unless-eq-ok, ok-injective,
}
use dtorch.Base.Int.{
  ℤ, pos, negsuc, pos_part, neg_part, sub_ℕ, ◌+ℤ◌, ◌-ℤ◌, ◌*ℤ◌, ◌≤ℤ◌, lt_ℤ, le_ℤ, ◌==ℤ◌, max_ℤ,
  to_size, ==ℤ_iff, ==ℤ_refl, max_ℤ_comm, pos-mul,
}
use dtorch.Shape.{Shape, is_null_tensor_shape}
use dtorch.Placement.{Placement}
use dtorch.PlacementSeq.{PlacementSeq}
use dtorch.DeviceMesh.{DeviceMesh, is_distributed, mesh_count}
use dtorch.DistributedSpec.{check_valid, check_shape_valid}
use dtorch.Redistribute.{same_mesh}
use dtorch.Signature.{PlacementSignature, match_signature}

-- What the inference reads and writes of an operand.
pub record Operand : Type 0 where
  pub shape : Shape
  pub data_kind : ℕ
  pub device_mesh : DeviceMesh
  pub placements : PlacementSeq

-- `CheckInputSameDataKind`, `CheckInputAllDistributedOrNot` and `CheckInputSameDeviceMesh`: the
-- loops over the operands, an absent one being skipped.
unfoldable pub data_kind_loop : ℕ → List Operand → Outcome (Unit {0})
data_kind_loop expected [] = ok tt
data_kind_loop expected (o ∷ os) =
    let rest = data_kind_loop expected os in
    let check = throw_unless (o.data_kind == expected) >> rest in
    if is_null_tensor_shape o.shape then rest else check

abbrev same_flag : Bool → Bool → Bool
same_flag true b = b
same_flag false b = not b

unfoldable pub distributed_loop : Bool → List Operand → Outcome (Unit {0})
distributed_loop expected [] = ok tt
distributed_loop expected (o ∷ os) =
    let rest = distributed_loop expected os in
    let check = throw_unless (same_flag (is_distributed o.device_mesh) expected) >> rest in
    if is_null_tensor_shape o.shape then rest else check

unfoldable pub device_mesh_loop : DeviceMesh → List Operand → Outcome (Unit {0})
device_mesh_loop expected [] = ok tt
device_mesh_loop expected (o ∷ os) =
    let rest = device_mesh_loop expected os in
    let check = same_mesh expected o.device_mesh >>= λ same. throw_unless same >> rest in
    if is_null_tensor_shape o.shape then rest else check

-- `CheckInputDistributedSpec`
unfoldable pub distributed_spec_loop : ℤ → List Operand → Outcome (Unit {0})
distributed_spec_loop total [] = ok tt
distributed_spec_loop total (o ∷ os) = do
  valid ← check_valid o.shape o.device_mesh o.placements total
  throw_unless valid
  distributed_spec_loop total os

-- `CheckInput`; `same_kind` is `IsRequireInputSameDataKind()`.
unfoldable pub check_input : Bool → ℤ → List Operand → Outcome (Unit {0})
check_input same_kind total [] = ok tt
check_input same_kind total (o ∷ os) = do
  if same_kind then data_kind_loop o.data_kind (o ∷ os) else ok tt
  distributed_loop (is_distributed o.device_mesh) (o ∷ os)
  device_mesh_loop o.device_mesh (o ∷ os)
  distributed_spec_loop total (o ∷ os)

-- The loop over the outputs at the end of
-- `InferOutputDistributedSpecFromPlacementSignature`: each takes the mesh of the inputs and its
-- placements, against which its shape is checked.
unfoldable pub assign_loop : DeviceMesh → List Operand → List PlacementSeq → Outcome (List Operand)
assign_loop m [] seqs = ok []
assign_loop m (o ∷ os) [] = aborted
assign_loop m (o ∷ os) (ps ∷ seqs) = do
  valid ← check_shape_valid o.shape m ps
  throw_unless valid
  rest ← assign_loop m os seqs
  ok (record o { device_mesh = m; placements = ps } ∷ rest)

abbrev pub matched_outputs :
    DeviceMesh → List Operand → Option (List PlacementSeq) → Outcome (List Operand)
matched_outputs m outputs none = invalid_argument
matched_outputs m outputs (some seqs) = assign_loop m outputs seqs

-- The function, of the operator's signature, its inputs and its outputs; `keep` is its
-- `keepSubSplitCoordinates`.
unfoldable pub infer_distributed_spec :
    Outcome PlacementSignature → Bool → List Operand → List Operand → Outcome (List Operand)
infer_distributed_spec signature keep inputs outputs = do
  assert_that (ltb 0 (length inputs))
  first ← of_option (get_elem? inputs 0)
  assert_that (ltb 1 (mesh_count first.device_mesh))
  s ← signature
  found ← match_signature s (map (λ o. o.placements) inputs) keep
  matched_outputs first.device_mesh outputs found
