-- ===== src/Operators/Inference/Checked.antt =====
-- The checks of an operator's inputs, against a description of the inputs that pass.
use dtorch.Base.{
  ℕ, ◌≡◌, refl, sym, ap, ◌∙◌, ◌↔◌, inl, inr, Bool, true, false, List, [], ◌∷◌, ltb, ◌==◌,
  if◌then◌else◌, ==_iff, Bool-cases, length, All, Outcome, ok, invalid_argument, aborted, ◌>>◌,
  throw_unless, >>=-eq-ok, true≢false, All-map,
}
use dtorch.Base.Int.{ℤ}
use dtorch.Shape.{is_null_tensor_shape}
use dtorch.DeviceMesh.{DeviceMesh, is_distributed}
use dtorch.DistributedSpec.{check_valid}
use dtorch.DistributedSpec.Validity.{IsMesh}
use dtorch.DistributedSpec.Validity.Whole.{IsValidSpec, check_valid-IsValidSpec}
use dtorch.Redistribute.{same_mesh}
use dtorch.Redistribute.Meshes.{SameMesh, same_mesh-SameMesh, SameMesh-same_mesh}
use dtorch.Operators.Inference.{
  Operand, data_kind_loop, distributed_loop, device_mesh_loop, distributed_spec_loop, check_input,
  same_flag,
}

-- An input that passes: it is absent, or has the data kind of the first, where that is required, and
-- its mesh, and placements that are valid for its shape.
pub record Passes (same_kind : Bool) (total : ℤ) (axes : Operand → List ℕ) (first o : Operand)
    : Type 0 where
  pub kind : is_null_tensor_shape o.shape ≡ false → same_kind ≡ true → o.data_kind ≡ first.data_kind
  pub mesh : is_null_tensor_shape o.shape ≡ false → SameMesh first.device_mesh o.device_mesh
  pub valid :
      is_null_tensor_shape o.shape ≡ false
      → IsValidSpec o.shape o.device_mesh (axes o) o.placements total

throw_unless_iff :
    (b : Bool) (rest : Outcome (Unit {0}))
    → (throw_unless b >> rest ≡ ok tt) ↔ ((b ≡ true) × (rest ≡ ok tt))
throw_unless_iff true rest = (λ h. (refl, h), λ w. w.1)
throw_unless_iff false rest = (λ h. cc, λ w. cc)

-- A loop over the operands that skips an absent one.
skips_iff :
    (null : Bool) (rest check : Outcome (Unit {0})) (P Q : Type 0)
    → (rest ≡ ok tt) ↔ Q
    → (null ≡ false → (check ≡ ok tt) ↔ (P × Q))
    → ((if null then rest else check) ≡ ok tt) ↔ ((null ≡ false → P) × Q)
skips_iff true rest check P Q r c = (λ h. (λ f. cc, r.0 h), λ w. r.1 w.1)
skips_iff false rest check P Q r c =
    (λ h. let w = (c refl).0 h in (λ f. w.0, w.1), λ w. (c refl).1 (w.0 refl, w.1))

data_kind_loop_iff :
    (expected : ℕ) (os : List Operand)
    → (data_kind_loop expected os ≡ ok tt)
      ↔ All (λ o. is_null_tensor_shape o.shape ≡ false → o.data_kind ≡ expected) os
unfolding data_kind_loop
data_kind_loop_iff expected [] = (λ h. tt, λ w. refl)
data_kind_loop_iff expected (o ∷ os) =
    let later = data_kind_loop_iff expected os in
    let guard = throw_unless_iff (o.data_kind == expected) (data_kind_loop expected os) in
    let same = ==_iff o.data_kind expected in
    skips_iff (is_null_tensor_shape o.shape) (data_kind_loop expected os) _ (o.data_kind ≡ expected)
      _ later
      (λ f. (
        λ h. let w = guard.0 h in (same.0 w.0, later.0 w.1),
        λ w. guard.1 (same.1 w.0, later.1 w.1),
      ))

same_flag_iff : (a b : Bool) → (same_flag a b ≡ true) ↔ (a ≡ b)
same_flag_iff true b = (λ h. sym h, λ h. sym h)
same_flag_iff false true = (λ h. cc, λ h. cc)
same_flag_iff false false = (λ h. refl, λ h. refl)

distributed_loop_iff :
    (expected : Bool) (os : List Operand)
    → (distributed_loop expected os ≡ ok tt)
      ↔ All (λ o. is_null_tensor_shape o.shape ≡ false → is_distributed o.device_mesh ≡ expected) os
unfolding distributed_loop
distributed_loop_iff expected [] = (λ h. tt, λ w. refl)
distributed_loop_iff expected (o ∷ os) =
    let later = distributed_loop_iff expected os in
    let guard =
      throw_unless_iff (same_flag (is_distributed o.device_mesh) expected)
        (distributed_loop expected os) in
    let same = same_flag_iff (is_distributed o.device_mesh) expected in
    skips_iff (is_null_tensor_shape o.shape) (distributed_loop expected os) _
      (is_distributed o.device_mesh ≡ expected) _ later
      (λ f. (
        λ h. let w = guard.0 h in (same.0 w.0, later.0 w.1),
        λ w. guard.1 (same.1 w.0, later.1 w.1),
      ))

device_mesh_loop_iff :
    (expected : DeviceMesh) (os : List Operand)
    → (device_mesh_loop expected os ≡ ok tt)
      ↔ All (λ o. is_null_tensor_shape o.shape ≡ false → SameMesh expected o.device_mesh) os
unfolding device_mesh_loop
device_mesh_loop_iff expected [] = (λ h. tt, λ w. refl)
device_mesh_loop_iff expected (o ∷ os) =
    let later = device_mesh_loop_iff expected os in
    let rest = device_mesh_loop expected os in
    skips_iff (is_null_tensor_shape o.shape) rest _ (SameMesh expected o.device_mesh) _ later (λ f.
      (
        λ h.
            let (same, a, h1) =
              >>=-eq-ok (same_mesh expected o.device_mesh) (λ same. throw_unless same >> rest) h in
            let (passed, q) = (throw_unless_iff same rest).0 h1 in
            (same_mesh-SameMesh expected o.device_mesh (a ∙ ap ok passed), later.0 q),
        λ w. rw (SameMesh-same_mesh expected o.device_mesh w.0) (later.1 w.1),
      ))

distributed_spec_loop_iff :
    (axes : Operand → List ℕ) (total : ℤ) (os : List Operand)
    → All (λ o. IsMesh o.device_mesh (axes o)) os
    → (distributed_spec_loop total os ≡ ok tt)
      ↔ All
          (λ o.
            is_null_tensor_shape o.shape ≡ false
            → IsValidSpec o.shape o.device_mesh (axes o) o.placements total)
          os
unfolding distributed_spec_loop
distributed_spec_loop_iff axes total [] v = (λ h. tt, λ w. refl)
distributed_spec_loop_iff axes total (o ∷ os) (mesh, v) =
    let later = distributed_spec_loop_iff axes total os v in
    let rest = distributed_spec_loop total os in
    let run = check_valid o.shape o.device_mesh o.placements total in
    let (null, present) =
      check_valid-IsValidSpec o.shape o.device_mesh (axes o) o.placements total mesh in
    elim (Bool-cases (is_null_tensor_shape o.shape)) [
      | inl e ↦ (
        λ h. let q : rest ≡ ok tt = rw (null e) at h in (λ f. absurd (true≢false e f), later.0 q),
        λ w. rw (null e) (later.1 w.1),
      )
      | inr e ↦
          let (b, answer, meaning) = present e in
          let guard = throw_unless_iff b rest in
          (
            λ h.
                let q : (throw_unless b >> rest) ≡ ok tt = rw answer at h in
                let w = guard.0 q in (λ f. meaning.0 w.0, later.0 w.1),
            λ w. rw answer (guard.1 (meaning.1 (w.0 e), later.1 w.1)),
          )
    ]

seq_iff : (m k : Outcome (Unit {0})) → (m >> k ≡ ok tt) ↔ ((m ≡ ok tt) × (k ≡ ok tt))
seq_iff (ok u) k = (λ h. (refl, h), λ w. w.1)
seq_iff invalid_argument k = (λ h. cc, λ w. cc)
seq_iff aborted k = (λ h. cc, λ w. cc)

-- The data kinds are compared where they are to be the same.
kinds_iff :
    (same_kind : Bool) (expected : ℕ) (os : List Operand)
    → ((if same_kind then data_kind_loop expected os else ok tt) ≡ ok tt)
      ↔ All
          (λ o. is_null_tensor_shape o.shape ≡ false → same_kind ≡ true → o.data_kind ≡ expected)
          os
kinds_iff true expected os =
    let loop = data_kind_loop_iff expected os in
    (λ h. All-map os (λ o k f _. k f) (loop.0 h), λ w. loop.1 (All-map os (λ o k f. k f refl) w))
kinds_iff false expected os = (λ h. nothing_asked os, λ w. refl)
  where
    nothing_asked :
        (os : List Operand)
        → All (λ o. is_null_tensor_shape o.shape ≡ false → false ≡ true → o.data_kind ≡ expected) os
    nothing_asked [] = tt
    nothing_asked (o ∷ os) = (λ f k. cc, nothing_asked os)

Passes-All :
    (same_kind : Bool) (total : ℤ) (axes : Operand → List ℕ) (first : Operand) (os : List Operand)
    → All
        (λ o.
          is_null_tensor_shape o.shape ≡ false → same_kind ≡ true → o.data_kind ≡ first.data_kind)
        os
    → All (λ o. is_null_tensor_shape o.shape ≡ false → SameMesh first.device_mesh o.device_mesh) os
    → All
        (λ o.
          is_null_tensor_shape o.shape ≡ false
          → IsValidSpec o.shape o.device_mesh (axes o) o.placements total)
        os
    → All (Passes same_kind total axes first) os
Passes-All same_kind total axes first [] k m s = tt
Passes-All same_kind total axes first (o ∷ os) k m s = (
  record { kind = k.0; mesh = m.0; valid = s.0 },
  Passes-All same_kind total axes first os k.1 m.1 s.1,
)

-- For inputs on meshes without an empty axis, of fewer than 2 ^ 64 devices: `CheckInput` lets them
-- pass exactly if each one that is not absent has the data kind of the first, where that is
-- required, the mesh of the first (kind, shape, devices and names of dimensions), and placements
-- that are valid for its shape. The check that all are distributed or none is adds nothing.
pub check_input-Passes :
    (same_kind : Bool) (total : ℤ) (axes : Operand → List ℕ) (first : Operand) (os : List Operand)
    → All (λ o. IsMesh o.device_mesh (axes o)) (first ∷ os)
    → (check_input same_kind total (first ∷ os) ≡ ok tt)
      ↔ All (Passes same_kind total axes first) (first ∷ os)
unfolding check_input
check_input-Passes same_kind total axes first os v =
    let all = first ∷ os in
    let kinds = if same_kind then data_kind_loop first.data_kind all else ok tt in
    let flags = distributed_loop (is_distributed first.device_mesh) all in
    let meshes = device_mesh_loop first.device_mesh all in
    let specs = distributed_spec_loop total all in
    let kind = kinds_iff same_kind first.data_kind all in
    let flag = distributed_loop_iff (is_distributed first.device_mesh) all in
    let mesh = device_mesh_loop_iff first.device_mesh all in
    let spec = distributed_spec_loop_iff axes total all v in
    (
      λ h.
          let (a, h1) = (seq_iff kinds (flags >> (meshes >> specs))).0 h in
          let (b, h2) = (seq_iff flags (meshes >> specs)).0 h1 in
          let (c, d) = (seq_iff meshes specs).0 h2 in
          Passes-All same_kind total axes first all (kind.0 a) (mesh.0 c) (spec.0 d),
      λ w.
          let a = kind.1 (All-map all (λ o p. p.kind) w) in
          let b =
            flag.1 (
              All-map all (λ o p f. ap (λ items. ltb 1 (length items)) (sym (p.mesh f).items)) w) in
          let c = mesh.1 (All-map all (λ o p. p.mesh) w) in
          let d = spec.1 (All-map all (λ o p. p.valid) w) in
          (seq_iff kinds (flags >> (meshes >> specs))).1
            (a, (seq_iff flags (meshes >> specs)).1 (b, (seq_iff meshes specs).1 (c, d))),
    )
