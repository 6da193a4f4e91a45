-- ===== src/Signature/Match.antt =====
-- `Match` answers, axis by axis, with a row of the table.
use dtorch.Base.{
  lengths, ℕ, zero, suc, ◌+◌, ◌≤◌, ◌<◌, ◌≡◌, refl, sym, ap, ◌∙◌, subst, ◌⊎◌, inl, inr, Bool, true,
  false, Option, none, some, List, [], ◌∷◌, ◌++◌, arith, ltb, ◌==◌, if◌then◌else◌, ==_iff,
  Bool-cases, length, get_elem?, length-map, ok, ◌>>=◌, assert_that, >>=-eq-ok, assert_that-eq-ok,
  ok-injective,
}
use dtorch.Placement.{Placement}
use dtorch.PlacementSeq.{PlacementSeq}
use dtorch.Signature.{
  Signature, PlacementSignature, column, push_column, resize, set_output, match_loop,
  match_signature, when_found, find, get_hash_key, mark_outputs, first_sub_split,
}
use dtorch.Signature.Lookup.{At, IsTable}

get_elem?-append_last :
    (xs : PlacementSeq) (p : Placement) → get_elem? (xs ++ p ∷ []) (length xs) ≡ some p
get_elem?-append_last [] p = refl
get_elem?-append_last (x ∷ xs) p = get_elem?-append_last xs p

get_elem?-append_lt :
    (xs : PlacementSeq) (p : Placement) (j : ℕ)
    → j < length xs
    → get_elem? (xs ++ p ∷ []) j ≡ get_elem? xs j
get_elem?-append_lt [] p j h = elim h [ ]
get_elem?-append_lt (x ∷ xs) p zero h = refl
get_elem?-append_lt (x ∷ xs) p (suc j) h = get_elem?-append_lt xs p j (omega arith)

push_column-columns :
    (rs next : List PlacementSeq) (dim : ℕ) (sig : Signature)
    → push_column rs dim sig ≡ ok next
    → length rs ≡ length sig
    → (column next dim ≡ ok sig)
      × ((j : ℕ) → j < dim → column next j ≡ column rs j)
      × (length next ≡ length sig)
unfolding push_column column
push_column-columns [] next dim [] h e =
    let q : [] ≡ next = ok-injective h in
    subst (λ z. (column z dim ≡ ok []) × ((j : ℕ) → j < dim → column z j ≡ ok []) × (length z ≡ 0))
      q (refl, λ j k. refl, refl)
push_column-columns [] next dim (p ∷ ps) h e = absurd (omega arith)
push_column-columns (r ∷ rs) next dim [] h e = absurd (omega arith)
push_column-columns (r ∷ rs) next dim (p ∷ ps) h e =
    let (u, a, h1) = >>=-eq-ok (assert_that (length r == dim)) _ h in
    let (rest, b, h2) = >>=-eq-ok (push_column rs dim ps) _ h1 in
    let size : length r ≡ dim = (==_iff _ _).0 (assert_that-eq-ok (length r == dim) a) in
    let (last, before, len) = push_column-columns rs rest dim ps b (omega arith) in
    let here : get_elem? (r ++ p ∷ []) dim ≡ some p =
      subst (λ z. get_elem? (r ++ p ∷ []) z ≡ some p) size (get_elem?-append_last r p) in
    subst
      (λ z.
        (column z dim ≡ ok (p ∷ ps))
        × ((j : ℕ) → j < dim → column z j ≡ column (r ∷ rs) j)
        × (length z ≡ suc (length ps)))
      (ok-injective h2)
      (
        rw (here, last),
        λ j k. let old = get_elem?-append_lt r p j (omega arith) in rw (old, before j k),
        ap suc len,
      )

length-resize : (n : ℕ) (rs : List PlacementSeq) → length (resize n rs) ≡ n
length-resize n rs = elim (Bool-cases (length rs == n)) [
  | inl e ↦ rw e ((==_iff _ _).0 e)
  | inr e ↦ rw e (grind lengths)
]

resize-same : (n : ℕ) (rs : List PlacementSeq) → length rs ≡ n → resize n rs ≡ rs
resize-same n rs h = rw ((==_iff _ _).1 h)

-- The outputs so far: none before the first axis, then as many as the operator's.
abbrev IsPartial : ℕ → ℕ → List PlacementSeq → Type 0
IsPartial n i rs = (i ≡ 0) ⊎ (length rs ≡ n)

set_output-columns :
    (rs next : List PlacementSeq) (n dim : ℕ) (sig : Signature)
    → set_output rs dim sig ≡ ok next
    → length sig ≡ n
    → IsPartial n dim rs
    → (column next dim ≡ ok sig)
      × ((j : ℕ) → j < dim → column next j ≡ column rs j)
      × (length next ≡ n)
unfolding set_output
set_output-columns rs next n dim sig h size v =
    let (u, a, h1) = >>=-eq-ok (assert_that (ltb 0 (length sig))) _ h in
    let (last, before, len) =
      push_column-columns (resize (length sig) rs) next dim sig h1
        (length-resize (length sig) rs) in
    (
      last,
      λ j k. before j k ∙ elim v [
        | inl z ↦ absurd (omega arith)
        | inr e ↦ ap (λ z. column z j) (resize-same (length sig) rs (e ∙ sym size))
      ],
      len ∙ size,
    )

-- One axis: the inputs' placements there are those of a row, up to the key, and the outputs'
-- are that row's.
pub record MatchedAt (s : PlacementSignature) (inputs : List PlacementSeq) (keep : Bool) (j : ℕ)
    (result : List PlacementSeq) : Type 0 where
  pub inputs_here : Signature
  pub row_inputs : Signature
  pub row_outputs : Signature
  pub reads : column inputs j ≡ ok inputs_here
  pub recorded : At s.all_signature (row_inputs, row_outputs)
  pub same_key : get_hash_key row_inputs ≡ get_hash_key inputs_here
  pub writes :
      column result j
      ≡ ok (if keep then mark_outputs (first_sub_split inputs_here) row_outputs else row_outputs)

marked-length :
    (keep : Bool) (found : Option Placement) (outputs : Signature)
    → length (if keep then mark_outputs found outputs else outputs) ≡ length outputs
marked-length true none outputs = refl
marked-length true (some p) outputs = length-map outputs _
marked-length false found outputs = refl

match_loop-MatchedAt :
    (s : PlacementSignature) (inputs : List PlacementSeq) (keep : Bool) (i k : ℕ)
    (rs final : List PlacementSeq)
    → IsTable s
    → match_loop s inputs keep i k rs ≡ ok (some final)
    → IsPartial s.output_size i rs
    → ((j : ℕ) → j < i → column final j ≡ column rs j)
      × ((j : ℕ) → i ≤ j → j < i + k → MatchedAt s inputs keep j final)
unfolding match_loop
match_loop-MatchedAt s inputs keep i zero rs final t h v =
    let e : rs ≡ final = cc in (λ j k. ap (λ z. column z j) (sym e), λ j a b. absurd (omega arith))
match_loop-MatchedAt s inputs keep i (suc k) rs final t h v =
    let (col, a, h1) = >>=-eq-ok (column inputs i) _ h in
    let (key, b, h2) = >>=-eq-ok (get_hash_key col) _ h1 in
    by_row (λ next. match_loop-MatchedAt s inputs keep (suc i) k next final t) col key
      (find key s.signature_map) refl a b h2
  where
    by_row :
        ((next : List PlacementSeq)
          → match_loop s inputs keep (suc i) k next ≡ ok (some final)
          → IsPartial s.output_size (suc i) next
          → ((j : ℕ) → j < suc i → column final j ≡ column next j)
            × ((j : ℕ) → suc i ≤ j → j < suc i + k → MatchedAt s inputs keep j final))
        → (col : Signature) (key : ℕ) (found : Option Signature) → find key s.signature_map ≡ found
        → column inputs i ≡ ok col
        → get_hash_key col ≡ ok key
        → when_found found (λ outputs.
          set_output rs i (if keep then mark_outputs (first_sub_split col) outputs else outputs)
          >>= λ next. match_loop s inputs keep (suc i) k next)
          ≡ ok (some final)
        → ((j : ℕ) → j < i → column final j ≡ column rs j)
          × ((j : ℕ) → i ≤ j → j < i + suc k → MatchedAt s inputs keep j final)
    by_row again col key none e a b q = cc
    by_row again col key (some outputs) e a b q =
        let sig = if keep then mark_outputs (first_sub_split col) outputs else outputs in
        let (next, c, q1) = >>=-eq-ok (set_output rs i sig) _ q in
        let (size, (is, m, g)) = t key outputs e in
        let len : length sig ≡ s.output_size =
          marked-length keep (first_sub_split col) outputs ∙ size in
        let (here, before, len') = set_output-columns rs next s.output_size i sig c len v in
        let (old, rest) = again next q1 (inr len') in
        (
          λ j l. old j (omega arith) ∙ before j l,
          λ j l r. elim (Bool-cases (i == j)) [
            | inl same ↦
                let eq : i ≡ j = (==_iff _ _).0 same in
                subst (λ z. MatchedAt s inputs keep z final) eq
                  (record {
                    inputs_here = col;
                    row_inputs = is;
                    row_outputs = outputs;
                    reads = a;
                    recorded = m;
                    same_key = g ∙ sym b;
                    writes = old i (omega arith) ∙ here;
                  })
            | inr other ↦ rest j (ground arith) (omega arith)
          ],
        )

-- What a table that matches has answered.
pub match_signature-rows :
    (s : PlacementSignature) (inputs result : List PlacementSeq) (first : PlacementSeq)
    (keep : Bool)
    → IsTable s
    → get_elem? inputs 0 ≡ some first
    → match_signature s inputs keep ≡ ok (some result)
    → (j : ℕ) → j < length first
    → MatchedAt s inputs keep j result
unfolding match_signature
match_signature-rows s inputs result first keep t e h j k =
    let (u, a, h1) = >>=-eq-ok (assert_that (length inputs == s.input_size)) _ h in
    let h2 : match_loop s inputs keep 0 (length first) [] ≡ ok (some result) = rw e at h1 in
    (match_loop-MatchedAt s inputs keep 0 (length first) [] result t h2 (inl refl)).1 j
      (omega arith) (omega arith)
