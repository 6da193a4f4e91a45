-- ===== src/Operators/Inference/Inferred.antt =====
-- What the placements that are inferred for an operator's outputs are.
use dtorch.Base.{
  ℕ, ◌<◌, ◌≡◌, refl, ap, ◌∙◌, subst, Bool, true, Option, none, some, List, [], ◌∷◌, map, ltb,
  length, get_elem?, ok, assert_that, throw_unless, of_option, >>=-eq-ok, throw_unless-eq-ok,
  ok-injective,
}
use dtorch.PlacementSeq.{PlacementSeq}
use dtorch.DeviceMesh.{DeviceMesh, mesh_count}
use dtorch.DistributedSpec.{check_shape_valid}
use dtorch.Signature.{PlacementSignature, match_signature}
use dtorch.Signature.Lookup.{IsTable}
use dtorch.Signature.Match.{MatchedAt, match_signature-rows}
use dtorch.Operators.Inference.{Operand, assign_loop, matched_outputs, infer_distributed_spec}

-- Each output keeps its shape and data kind, takes the mesh and its placements, and its shape is
-- valid with them.
abbrev pub Assigned : DeviceMesh → List Operand → List PlacementSeq → List Operand → Type 0
Assigned m [] seqs [] = Unit
Assigned m [] seqs (r ∷ rs) = ⊥
Assigned m (o ∷ os) seqs [] = ⊥
Assigned m (o ∷ os) [] (r ∷ rs) = ⊥
Assigned m (o ∷ os) (ps ∷ seqs) (r ∷ rs) =
    (r ≡ record o { device_mesh = m; placements = ps })
    × (check_shape_valid o.shape m ps ≡ ok true)
    × Assigned m os seqs rs

assign_loop-Assigned :
    (m : DeviceMesh) (os : List Operand) (seqs : List PlacementSeq) {rs : List Operand}
    → assign_loop m os seqs ≡ ok rs
    → Assigned m os seqs rs
unfolding assign_loop
assign_loop-Assigned m [] seqs h = subst (Assigned m [] seqs) (ok-injective h) tt
assign_loop-Assigned m (o ∷ os) [] h = cc
assign_loop-Assigned m (o ∷ os) (ps ∷ seqs) h =
    let (valid, a, h1) = >>=-eq-ok (check_shape_valid o.shape m ps) _ h in
    let (u, b, h2) = >>=-eq-ok (throw_unless valid) _ h1 in
    let (rest, c, h3) = >>=-eq-ok (assign_loop m os seqs) _ h2 in
    subst (Assigned m (o ∷ os) (ps ∷ seqs)) (ok-injective h3)
      (refl, a ∙ ap ok (throw_unless-eq-ok valid b), assign_loop-Assigned m os seqs c)

abbrev pub placements_of : List Operand → List PlacementSeq
placements_of os = map (λ o. o.placements) os

pub record Infers (s : PlacementSignature) (keep : Bool) (inputs outputs results : List Operand)
    : Type 0 where
  pub first : Operand
  pub seqs : List PlacementSeq
  pub head : get_elem? inputs 0 ≡ some first
  pub rows : (j : ℕ) → j < length first.placements → MatchedAt s (placements_of inputs) keep j seqs
  pub assigned : Assigned first.device_mesh outputs seqs results

matched_outputs-eq-ok :
    (m : DeviceMesh) (outputs : List Operand) (found : Option (List PlacementSeq))
    {results : List Operand}
    → matched_outputs m outputs found ≡ ok results
    → (seqs : List PlacementSeq) × (found ≡ some seqs) × Assigned m outputs seqs results
matched_outputs-eq-ok m outputs none h = cc
matched_outputs-eq-ok m outputs (some seqs) h = (seqs, refl, assign_loop-Assigned m outputs seqs h)

-- Where the placements of an operator's outputs are inferred from a signature that is a table:
-- along every axis of the mesh they are the outputs of one of its rows, the inputs of which have
-- the key of the inputs' placements along that axis; every output has the mesh of the
-- first input, and its shape has enough elements for its placements.
pub infer_distributed_spec-Infers :
    (s : PlacementSignature) (keep : Bool) (inputs outputs : List Operand) {results : List Operand}
    → IsTable s
    → infer_distributed_spec (ok s) keep inputs outputs ≡ ok results
    → Infers s keep inputs outputs results
unfolding infer_distributed_spec
infer_distributed_spec-Infers s keep inputs outputs table h =
    let (u, a, h1) = >>=-eq-ok (assert_that (ltb 0 (length inputs))) _ h in
    let (first, b, h2) = >>=-eq-ok (of_option (get_elem? inputs 0)) _ h1 in
    let (v, c, h3) = >>=-eq-ok (assert_that (ltb 1 (mesh_count first.device_mesh))) _ h2 in
    let (found, d, h4) = >>=-eq-ok (match_signature s (placements_of inputs) keep) _ h3 in
    let (seqs, e, assigned) = matched_outputs-eq-ok first.device_mesh outputs found h4 in
    let head : get_elem? inputs 0 ≡ some first = of_option-eq-ok (get_elem? inputs 0) b in
    record {
      first = first;
      seqs = seqs;
      head = head;
      rows =
          match_signature-rows s (placements_of inputs) seqs first.placements keep table
            (head_placements inputs head) (d ∙ ap ok e);
      assigned = assigned;
    }
  where
    of_option-eq-ok : (o : Option Operand) {a : Operand} → of_option o ≡ ok a → o ≡ some a
    of_option-eq-ok none h = cc
    of_option-eq-ok (some x) h = ap some (ok-injective h)

    head_placements :
        (os : List Operand) {o : Operand}
        → get_elem? os 0 ≡ some o
        → get_elem? (placements_of os) 0 ≡ some o.placements
    head_placements [] h = cc
    head_placements (x ∷ os) {o} h = let q : x ≡ o = cc in ap (λ z. some z.placements) q
