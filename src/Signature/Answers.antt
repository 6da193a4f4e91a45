-- ===== src/Signature/Answers.antt =====
-- `Match` answers for placements that have keys, and what its answers mean.
use dtorch.Base.{
  ℕ, zero, suc, ◌+◌, ◌-◌, ◌<◌, ◌≡◌, refl, sym, ap, ◌∙◌, subst, ◌⊎◌, inl, inr, Bool, true, false,
  Option, none, some, List, [], ◌∷◌, ◌++◌, arith, ◌==◌, if◌then◌else◌, ==_iff, lt→ltb, length, set,
  take, replicate, All, length-append, length-replicate, length-map, ok, ◌>>=◌, >>=-eq-ok,
  get_elem?-lt, get_elem?-All,
}
use dtorch.Placement.{Placement}
use dtorch.Placement.HashKey.{IsBuilt}
use dtorch.PlacementSeq.{PlacementSeq}
use dtorch.Signature.Finish.{finish-IsTable}
use dtorch.Signature.{
  Builder, finish, Signature, PlacementSignature, column, push_column, resize, set_output,
  match_loop, match_signature, when_found, find, get_hash_key, mark_outputs, first_sub_split,
}
use dtorch.Signature.HashKey.{get_hash_key-injective}
use dtorch.Signature.Lookup.{IsTable}
use dtorch.Signature.Match.{MatchedAt, match_signature-rows}

-- An axis whose inputs have a key that is not in the table.
pub record UnmatchedAt (s : PlacementSignature) (inputs : List PlacementSeq) (i : ℕ) : Type 0 where
  pub inputs_here : Signature
  pub key : ℕ
  pub reads : column inputs i ≡ ok inputs_here
  pub hashed : get_hash_key inputs_here ≡ ok key
  pub missing : find key s.signature_map ≡ none

match_loop-UnmatchedAt :
    (s : PlacementSignature) (inputs : List PlacementSeq) (keep : Bool) (i k : ℕ)
    (rs : List PlacementSeq)
    → match_loop s inputs keep i k rs ≡ ok none
    → (j : ℕ) × (j < i + k) × UnmatchedAt s inputs j
unfolding match_loop
match_loop-UnmatchedAt s inputs keep i zero rs h = cc
match_loop-UnmatchedAt s inputs keep i (suc k) rs h =
    let (col, a, h1) = >>=-eq-ok (column inputs i) _ h in
    let (key, b, h2) = >>=-eq-ok (get_hash_key col) _ h1 in
    by_row (λ found. match_loop-UnmatchedAt s inputs keep (suc i) k found) col key
      (find key s.signature_map) refl a b h2
  where
    by_row :
        ((rest : List PlacementSeq)
          → match_loop s inputs keep (suc i) k rest ≡ ok none
          → (j : ℕ) × (j < suc i + k) × UnmatchedAt s inputs j)
        → (col : Signature) (key : ℕ) (found : Option Signature) → find key s.signature_map ≡ found
        → column inputs i ≡ ok col
        → get_hash_key col ≡ ok key
        → when_found found (λ outputs.
          set_output rs i (if keep then mark_outputs (first_sub_split col) outputs else outputs)
          >>= λ rest. match_loop s inputs keep (suc i) k rest)
          ≡ ok none
        → (j : ℕ) × (j < i + suc k) × UnmatchedAt s inputs j
    by_row again col key none e a b q = (
      i,
      omega arith,
      record { inputs_here = col; key = key; reads = a; hashed = b; missing = e },
    )
    by_row again col key (some outputs) e a b q =
        let sig = if keep then mark_outputs (first_sub_split col) outputs else outputs in
        let (rest, c, q1) = >>=-eq-ok (set_output rs i sig) _ q in
        let (j, less, un) = again rest q1 in (j, omega arith, un)

-- Placements over `w` axes, each of which has a key.
abbrev pub HasKeysOver : ℕ → PlacementSeq → Type 0
HasKeysOver w ps = (length ps ≡ w) × All IsBuilt ps

column-IsBuilt :
    (inputs : List PlacementSeq) (w i : ℕ)
    → i < w
    → All (HasKeysOver w) inputs
    → (col : Signature) × (column inputs i ≡ ok col)
      × All IsBuilt col
      × (length col ≡ length inputs)
unfolding column
column-IsBuilt [] w i less built = ([], refl, tt, refl)
column-IsBuilt (ps ∷ inputs) w i less ((size, keys), built) =
    let (p, e) = get_elem?-lt ps i (omega arith) in
    let (col, run, all, l) = column-IsBuilt inputs w i less built in
    (p ∷ col, rw (e, run), (get_elem?-All IsBuilt ps i p keys e, all), ap suc l)

-- The outputs so far: one placement for each axis that is done.
abbrev FilledTo : ℕ → List PlacementSeq → Type 0
FilledTo i outputs = All (λ seq. length seq ≡ i) outputs

push_column-FilledTo :
    (outputs : List PlacementSeq) (i : ℕ) (row : Signature)
    → length outputs ≡ length row
    → FilledTo i outputs
    → (next : List PlacementSeq) × (push_column outputs i row ≡ ok next)
      × (length next ≡ length row)
      × FilledTo (suc i) next
unfolding push_column
push_column-FilledTo [] i [] size fills = ([], refl, refl, tt)
push_column-FilledTo [] i (p ∷ row) size fills = cc
push_column-FilledTo (seq ∷ outputs) i [] size fills = cc
push_column-FilledTo (seq ∷ outputs) i (p ∷ row) size (here, fills) =
    let (next, run, l, later) = push_column-FilledTo outputs i row (omega (arith, size)) fills in
    (
      (seq ++ p ∷ []) ∷ next,
      rw ((==_iff _ _).1 here, run),
      ap suc l,
      (length-append seq (p ∷ []) ∙ omega (arith, here), later),
    )

FilledTo-fresh : (n : ℕ) → FilledTo 0 (replicate n [])
FilledTo-fresh zero = tt
FilledTo-fresh (suc n) = (refl, FilledTo-fresh n)

take-whole {ℓ} : {A : Type ℓ} (n : ℕ) (a : A) → take n (replicate n a) ≡ replicate n a
take-whole zero a = refl
take-whole (suc n) a = ap (λ z. a ∷ z) (take-whole n a)

-- Between two axes: nothing is there before the first, then a sequence for each output.
abbrev Between : ℕ → ℕ → List PlacementSeq → Type 0
Between m i outputs = ((i ≡ 0) × (outputs ≡ [])) ⊎ ((length outputs ≡ m) × FilledTo i outputs)

resize-FilledTo :
    (m i : ℕ) (outputs : List PlacementSeq)
    → 0 < m
    → Between m i outputs
    → (length (resize m outputs) ≡ m) × FilledTo i (resize m outputs)
resize-FilledTo zero i outputs some_output b = elim some_output [ ]
resize-FilledTo (suc m) i outputs some_output (inl (e, none_yet)) =
    let no : (0 == suc m) ≡ false = ground arith in
    let all : suc m - 0 ≡ suc m = omega arith in
    let fresh : resize (suc m) outputs ≡ replicate (suc m) [] =
      rw (none_yet, no, all) (take-whole (suc m) []) in
    (
      ap length fresh ∙ length-replicate (suc m) [],
      subst (λ z. FilledTo z (resize (suc m) outputs)) (sym e)
          (subst (FilledTo 0) (sym fresh) (FilledTo-fresh (suc m))),
    )
resize-FilledTo (suc m) i outputs some_output (inr (size, fills)) =
    rw ((==_iff _ _).1 size) (size, fills)

mark_outputs-length :
    (p : Option Placement) (row : Signature) → length (mark_outputs p row) ≡ length row
mark_outputs-length none row = refl
mark_outputs-length (some p) row = length-map row _

set_output-Between :
    (outputs : List PlacementSeq) (m i : ℕ) (row : Signature)
    → 0 < m
    → length row ≡ m
    → Between m i outputs
    → (next : List PlacementSeq) × (set_output outputs i row ≡ ok next) × Between m (suc i) next
unfolding set_output
set_output-Between outputs m i row some_output size between =
    let (l, fills) = resize-FilledTo m i outputs some_output between in
    let (next, run, l', later) =
      push_column-FilledTo (resize m outputs) i row (l ∙ sym size) fills in
    (next, rw (size, lt→ltb _ _ some_output) run, inr (l' ∙ size, later))

match_loop-answers :
    (s : PlacementSignature) (inputs : List PlacementSeq) (keep : Bool) (w i k : ℕ)
    (outputs : List PlacementSeq)
    → IsTable s
    → 0 < s.output_size
    → length inputs < 8
    → All (HasKeysOver w) inputs
    → i + k ≡ w
    → Between s.output_size i outputs
    → (result : Option (List PlacementSeq)) × (match_loop s inputs keep i k outputs ≡ ok result)
unfolding match_loop
match_loop-answers s inputs keep w i zero outputs t some_output few built whole between =
    (some outputs, refl)
match_loop-answers s inputs keep w i (suc k) outputs t some_output few built whole between =
    let (col, run, keys, size) = column-IsBuilt inputs w i (omega arith) built in
    let (key, hashed, other) =
      get_hash_key-injective col col keys keys (omega (arith, size)) refl in
    by_row
      (λ next.
        match_loop-answers s inputs keep w (suc i) k next t some_output few built
          (omega (arith, whole)))
      col key (find key s.signature_map) refl run hashed
  where
    by_row :
        ((next : List PlacementSeq)
          → Between s.output_size (suc i) next
          → (result : Option (List PlacementSeq)) × (match_loop s inputs keep (suc i) k next
              ≡ ok result))
        → (col : Signature) (key : ℕ) (found : Option Signature) → find key s.signature_map ≡ found
        → column inputs i ≡ ok col
        → get_hash_key col ≡ ok key
        → (result : Option (List PlacementSeq)) × (match_loop s inputs keep i (suc k) outputs
            ≡ ok result)
    by_row again col key none e a b = (none, rw (a, b, e) refl)
    by_row again col key (some row) e a b =
        let sig = if keep then mark_outputs (first_sub_split col) row else row in
        let (next, set, later) =
          set_output-Between outputs s.output_size i sig some_output (marked keep ∙ (t key row e).0)
            between in
        let (result, rest) = again next later in (result, rw (a, b, e, set) rest)
      where
        marked :
            (keep : Bool)
            → length (if keep then mark_outputs (first_sub_split col) row else row) ≡ length row
        marked true = mark_outputs-length (first_sub_split col) row
        marked false = refl

-- For a signature of one to seven inputs and some outputs that `Finish` returns, and inputs over one
-- mesh whose placements have keys (built by the factory functions, with shard indices below 16),
-- `Match` always answers. If it matches, then at every axis of the mesh the inputs' placements
-- have the key of a recorded row, and the outputs' placements there are the row's, with the
-- sub split of the inputs where it is kept. If it does not match, then at some axis the key of
-- the inputs' placements is not in the table.
pub match_signature-MatchedAt :
    (b : Builder) (s : PlacementSignature) (first : PlacementSeq) (others : List PlacementSeq)
    (keep : Bool)
    → finish b ≡ ok s
    → 0 < b.output_size
    → b.input_size < 8
    → length (first ∷ others) ≡ b.input_size
    → All (HasKeysOver (length first)) (first ∷ others)
    → (result : Option (List PlacementSeq)) × (match_signature s (first ∷ others) keep ≡ ok result)
      × ((outputs : List PlacementSeq)
          → result ≡ some outputs
          → (j : ℕ) → j < length first
          → MatchedAt s (first ∷ others) keep j outputs)
      × (result ≡ none → (j : ℕ) × (j < length first) × UnmatchedAt s (first ∷ others) j)
unfolding match_signature
match_signature-MatchedAt b s first others keep built some_output few size keys =
    let inputs = first ∷ others in
    let (table, outs, ins) = finish-IsTable b s built in
    let (result, run) =
      match_loop-answers s inputs keep (length first) 0 (length first) [] table
        (omega (arith, outs)) (omega (arith, size)) keys (omega arith) (inl (refl, refl)) in
    let as_many : (length inputs == s.input_size) ≡ true = (==_iff _ _).1 (size ∙ sym ins) in
    let whole : match_signature s inputs keep ≡ ok result = rw as_many run in
    (
      result,
      whole,
      λ outputs q. match_signature-rows s inputs outputs first keep table refl (whole ∙ ap ok q),
      λ q.
          let (j, less, un) =
            match_loop-UnmatchedAt s inputs keep 0 (length first) [] (run ∙ ap ok q) in
          (j, omega arith, un),
    )
