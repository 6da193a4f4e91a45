-- ===== src/Operators/Adds.antt =====
-- Loops that record rows in a builder of `n` inputs and one output, and the table that comes of
-- them: `PlacementSignature::Builder` as dtorch/core/operators/standard uses it.
use mathlib.Core.List.{append-nil, append_assoc}
use dtorch.Base.{
  ℕ, ◌<◌, ◌≡◌, sym, ap, ◌∙◌, List, [], ◌∷◌, ◌++◌, replicate, All, Outcome, ok, ◌>>=◌, All-map,
}
use dtorch.Base.{All-append}
use dtorch.Placement.{replicated}
use dtorch.Signature.{SignaturePair, PlacementSignature, Builder, finish}
use dtorch.Signature.Finish.{idle, IsRow, finish-all_replicate, finish-add_pairs}
use dtorch.Operators.Rows.{add_pairs-all_signature}

-- A run that records rows, each with a property.
pub record Adds (n : ℕ) (P : SignaturePair → Type 0) (ps : List SignaturePair)
    (run : Outcome Builder) : Type 0 where
  pub rows : List SignaturePair
  pub result : run ≡ ok (idle n 1 (ps ++ rows) [])
  pub each : All P rows

module _ (n : ℕ) (P : SignaturePair → Type 0) where
  pub Adds-none : (ps : List SignaturePair) → Adds n P ps (ok (idle n 1 ps []))
  Adds-none ps = record {
    rows = [];
    result = ap (λ z. ok (idle n 1 z [])) (sym (append-nil ps));
    each = tt;
  }

  pub Adds-then :
      (ps : List SignaturePair) (run : Outcome Builder) (f : Builder → Outcome Builder)
      → Adds n P ps run
      → ((qs : List SignaturePair) → Adds n P qs (f (idle n 1 qs [])))
      → Adds n P ps (run >>= f)
  Adds-then ps run f first rest =
      let more = rest (ps ++ first.rows) in
      record {
        rows = first.rows ++ more.rows;
        result =
            ap (λ z. z >>= f) first.result
            ∙ more.result
            ∙ ap (λ z. ok (idle n 1 z [])) (append_assoc ps first.rows more.rows);
        each = All-append P first.rows more.rows first.each more.each;
      }

  pub Adds-weaken :
      (Q : SignaturePair → Type 0) (ps : List SignaturePair) (run : Outcome Builder)
      → ((row : SignaturePair) → P row → Q row)
      → Adds n P ps run
      → Adds n Q ps run
  Adds-weaken Q ps run f added = record {
    rows = added.rows;
    result = added.result;
    each = All-map added.rows f added.each;
  }

  -- A builder whose rows all have keys gives a table that lists them, and the replicated row last.
  pub Adds-finish :
      (run : Outcome Builder)
      → n < 8
      → ((row : SignaturePair) → P row → IsRow n 1 row)
      → Adds n P [] run
      → (s : PlacementSignature) × ((run >>= finish) ≡ ok s)
        × ((rows : List SignaturePair) × All P rows
            × (s.all_signature ≡ rows ++ (replicate n replicated, replicated ∷ []) ∷ []))
  Adds-finish run few keyed added =
      let keys = All-map added.rows keyed added.each in
      let (s, done, found) = finish-all_replicate n 1 added.rows few keys in
      (
        s,
        ap (λ z. z >>= finish) added.result ∙ done,
        (
          added.rows,
          added.each,
          add_pairs-all_signature _ _ (sym (finish-add_pairs n 1 added.rows) ∙ done),
        ),
      )
