-- ===== src/Redistribute/Meshes.antt =====
-- Which meshes `DeviceMesh::operator==` finds equal.
use Prim.Native.String.{String}
use text.Mathlib.Text.{◌==◌ as str_eq}
use text.Mathlib.TextEquality.{eq_iff}
use dtorch.Signature.Lookup.{At}
use dtorch.Base.{
  ℕ, zero, suc, ◌≡◌, refl, ap, ◌↔◌, inl, inr, true, false, ◌&&◌, List, [], ◌∷◌, ◌==◌, ==_iff,
  Bool-cases, and-eq-true, length, All, ok, assert_that, >>=-eq-ok, ok-injective, true≢false,
}
use dtorch.Base.Int.{◌==ℤ◌, ==ℤ_iff}
use dtorch.Shape.{Shape, ◌==ₛ◌}
use dtorch.DeviceMesh.{DeviceKind, cpu, gpu, kind_eq, DeviceMesh}
use dtorch.Redistribute.{same_mesh, same_array, has_names, has_name}

==ₛ_iff : (a b : Shape) → ((a ==ₛ b) ≡ true) ↔ (a ≡ b)
unfolding ◌==ₛ◌
==ₛ_iff [] [] = (λ h. refl, λ h. refl)
==ₛ_iff [] (y ∷ b) = (λ h. cc, λ h. cc)
==ₛ_iff (x ∷ a) [] = (λ h. cc, λ h. cc)
==ₛ_iff (x ∷ a) (y ∷ b) =
    let here = ==ℤ_iff x y in
    let rest = ==ₛ_iff a b in
    (
      λ h.
          let (p, q) = and-eq-true (x ==ℤ y) (a ==ₛ b) h in
          let e = here.0 p in let r = rest.0 q in cc,
      λ h. let e : x ≡ y = cc in let r : a ≡ b = cc in rw (here.1 e) (rest.1 r),
    )

kind_eq_iff : (a b : DeviceKind) → (kind_eq a b ≡ true) ↔ (a ≡ b)
kind_eq_iff cpu cpu = (λ h. refl, λ h. refl)
kind_eq_iff gpu gpu = (λ h. refl, λ h. refl)
kind_eq_iff cpu gpu = (λ h. cc, λ h. cc)
kind_eq_iff gpu cpu = (λ h. cc, λ h. cc)

has_name-At :
    (name : String) (i : ℕ) (names : List (String × ℕ))
    → (has_name name i names ≡ true) ↔ At names (name, i)
unfolding has_name
has_name-At name i [] = (λ h. cc, λ (k, e). cc)
has_name-At name i ((n, j) ∷ rest) =
    let later = has_name-At name i rest in
    elim (Bool-cases (str_eq n name && i == j)) [
      | inl e ↦
          let (p, q) = and-eq-true (str_eq n name) (i == j) e in
          let same_name : n ≡ name = (eq_iff n name).0 p in
          let same_index : i ≡ j = (==_iff i j).0 q in (λ h. (0, cc), λ w. rw e)
      | inr e ↦ (
        λ h.
            let q : has_name name i rest ≡ true = rw e at h in
            let (k, found) = later.0 q in (suc k, found),
        λ w. rw e (later.1 (behind e w)),
      )
    ]
  where
    behind : (str_eq n name && i == j) ≡ false → At ((n, j) ∷ rest) (name, i) → At rest (name, i)
    behind e (suc k, found) = (k, found)
    behind e (zero, found) =
        let a : n ≡ name = cc in
        let b : i ≡ j = cc in absurd (true≢false (rw ((eq_iff n name).1 a) ((==_iff i j).1 b)) e)

has_names-All : (a b : List (String × ℕ)) → (has_names a b ≡ true) ↔ All (λ x. At b x) a
unfolding has_names
has_names-All [] b = (λ h. tt, λ w. refl)
has_names-All ((n, i) ∷ a) b =
    let here = has_name-At n i b in
    let rest = has_names-All a b in
    (
      λ h. let (p, q) = and-eq-true (has_name n i b) (has_names a b) h in (here.0 p, rest.0 q),
      λ w. rw (here.1 w.0) (rest.1 w.1),
    )

-- The same mesh: one kind of device, one shape, the same devices in the same order, and the same
-- names of dimensions: as many, and each of the first among those of the second.
pub record SameMesh (a b : DeviceMesh) : Type 0 where
  pub kind : a.kind ≡ b.kind
  pub shape : a.mesh.shape ≡ b.mesh.shape
  pub items : a.mesh.items ≡ b.mesh.items
  pub as_many : length a.mesh.dimension_names ≡ length b.mesh.dimension_names
  pub named : All (λ x. At b.mesh.dimension_names x) a.mesh.dimension_names

pub same_mesh-SameMesh : (a b : DeviceMesh) → same_mesh a b ≡ ok true → SameMesh a b
unfolding same_mesh same_array
same_mesh-SameMesh a b h =
    let many = length a.mesh.dimension_names == length b.mesh.dimension_names in
    let names = has_names a.mesh.dimension_names b.mesh.dimension_names in
    elim (Bool-cases (kind_eq a.kind b.kind)) [
      | inr k ↦ let q : ok false ≡ ok true = rw k at h in cc
      | inl k ↦ elim (Bool-cases (a.mesh.shape ==ₛ b.mesh.shape)) [
        | inr s ↦ let q : ok false ≡ ok true = rw (k, s) at h in cc
        | inl s ↦ elim (Bool-cases (many && names)) [
          | inr n ↦ let q : ok false ≡ ok true = rw (k, s, n) at h in cc
          | inl n ↦
              let (u, sized, last) =
                >>=-eq-ok (assert_that (length a.mesh.items == length b.mesh.items)) _
                  (rw (k, s, n) at h) in
              let (p, q) = and-eq-true many names n in
              record {
                kind = (kind_eq_iff a.kind b.kind).0 k;
                shape = (==ₛ_iff a.mesh.shape b.mesh.shape).0 s;
                items = (==ₛ_iff a.mesh.items b.mesh.items).0 (ok-injective last);
                as_many = (==_iff _ _).0 p;
                named = (has_names-All a.mesh.dimension_names b.mesh.dimension_names).0 q;
              }
        ]
      ]
    ]

pub SameMesh-same_mesh : (a b : DeviceMesh) → SameMesh a b → same_mesh a b ≡ ok true
unfolding same_mesh same_array
SameMesh-same_mesh a b w =
    let sized : (length a.mesh.items == length b.mesh.items) ≡ true =
      (==_iff _ _).1 (ap length w.items) in
    rw (
      (kind_eq_iff a.kind b.kind).1 w.kind,
      (==ₛ_iff a.mesh.shape b.mesh.shape).1 w.shape,
      (==_iff _ _).1 w.as_many,
      (has_names-All a.mesh.dimension_names b.mesh.dimension_names).1 w.named,
      sized,
      (==ₛ_iff a.mesh.items b.mesh.items).1 w.items,
    )
