-- ===== src/Signature/Finish.antt =====
-- What `Finish` gives: a table, in which inputs that all replicate are always found.
use mathlib.Core.List.{append-nil, append_assoc}
use dtorch.Base.{
  ℕ, zero, suc, ◌+◌, ◌-◌, ◌<◌, ◌≡◌, refl, sym, ap, ◌∙◌, subst, Bool, true, false, ◌&&◌, Option,
  none, some, List, [], ◌∷◌, ◌++◌, arith, ◌==◌, if◌then◌else◌, ==_refl, ==_iff, lt→ltb, length,
  get_elem?, take, replicate, All, length-replicate, Outcome, ok, ◌>>=◌, assert_that, >>=-eq-ok,
  ok-injective,
}
use dtorch.Placement.{replicated}
use dtorch.Placement.HashKey.{IsBuilt, by_replicate}
use dtorch.PlacementSeq.{PlacementSeq}
use dtorch.Signature.{
  Signature, SignaturePair, PlacementSignature, Builder, build, replicate_inputs, finish, put, find,
  get_hash_key, add_pair, add_pairs, column, push_column, set_output, match_loop, match_signature,
  when_found, first_sub_split, mark_outputs,
}
use dtorch.Signature.HashKey.{get_hash_key-injective}
use dtorch.Signature.Lookup.{IsTable, add_pairs-IsTable, find-put_self}

empty-IsTable :
    (n m : ℕ)
    → IsTable (record { input_size = n; output_size = m; all_signature = []; signature_map = [] })
unfolding find
empty-IsTable n m key o e = cc

-- Whatever was built before, a signature that `Finish` returns is a table for the builder's
-- numbers of inputs and outputs: each of its answers is the output side of a recorded pair.
pub finish-IsTable :
    (b : Builder) (s : PlacementSignature)
    → finish b ≡ ok s
    → IsTable s × (s.output_size ≡ b.output_size) × (s.input_size ≡ b.input_size)
unfolding finish
finish-IsTable b s h =
    let idle = length b.current_input == 0 && length b.current_output == 0 in
    let (u, a, h1) = >>=-eq-ok (assert_that idle) _ h in
    let (done, c, h2) =
      >>=-eq-ok
        (build (record (replicate_inputs 0 b.input_size b) {
          current_output = replicate b.output_size replicated;
        }))
        _ h1 in
    add_pairs-IsTable _ s done.pairs h2 (empty-IsTable b.input_size b.output_size)

-- A builder between two calls of `Build`, with pairs none of which has an optional input.
abbrev pub idle : ℕ → ℕ → List SignaturePair → Signature → Builder
idle n m ps inputs = record {
  input_size = n;
  output_size = m;
  all_optional_indexs = [];
  pairs = ps;
  current_optional_indexs = [];
  current_input = inputs;
  current_output = [];
}

abbrev pub IsRow : ℕ → ℕ → SignaturePair → Type 0
IsRow n m (inputs, outputs) = All IsBuilt inputs × (length inputs ≡ n) × (length outputs ≡ m)

abbrev all_replicate : ℕ → Signature
all_replicate n = replicate n replicated

all_replicate-IsBuilt : (n : ℕ) → All IsBuilt (all_replicate n)
all_replicate-IsBuilt zero = tt
all_replicate-IsBuilt (suc n) = (by_replicate, all_replicate-IsBuilt n)

replicate-snoc {ℓ} : {A : Type ℓ} (n : ℕ) (a : A) → replicate n a ++ a ∷ [] ≡ replicate (suc n) a
replicate-snoc zero a = refl
replicate-snoc (suc n) a = ap (λ xs. a ∷ xs) (replicate-snoc n a)

-- A row is added, under its key.
add_pair-IsRow :
    (s : PlacementSignature) (p : SignaturePair)
    → s.input_size < 8
    → IsRow s.input_size s.output_size p
    → (t : PlacementSignature) × (add_pair s p ≡ ok t)
      × (t.input_size ≡ s.input_size)
      × (t.output_size ≡ s.output_size)
      × ((key : ℕ) → get_hash_key p.0 ≡ ok key → find key t.signature_map ≡ some p.1)
unfolding add_pair
add_pair-IsRow s (inputs, outputs) few (b, ins, outs) =
    let (key, run, other) = get_hash_key-injective inputs inputs b b (omega arith) refl in
    (
      record s {
        all_signature = s.all_signature ++ (inputs, outputs) ∷ [];
        signature_map = put key outputs s.signature_map;
      },
      rw ((==_iff _ _).1 ins, (==_iff _ _).1 outs, run),
      refl,
      refl,
      λ k e.
          subst (λ z. find z (put key outputs s.signature_map) ≡ some outputs)
            (ok-injective (sym run ∙ e)) (find-put_self key outputs s.signature_map),
    )

add_pairs-IsRow :
    (s : PlacementSignature) (ps : List SignaturePair) (last : SignaturePair)
    → s.input_size < 8
    → All (IsRow s.input_size s.output_size) ps
    → IsRow s.input_size s.output_size last
    → (t : PlacementSignature) × (add_pairs s (ps ++ last ∷ []) ≡ ok t)
      × ((key : ℕ) → get_hash_key last.0 ≡ ok key → find key t.signature_map ≡ some last.1)
unfolding add_pairs
add_pairs-IsRow s [] last few rows row =
    let (t, run, ins, outs, found) = add_pair-IsRow s last few row in (t, rw run, found)
add_pairs-IsRow s (p ∷ ps) last few rows row =
    let (next, run, ins, outs, found) = add_pair-IsRow s p few rows.0 in
    let fits : All (IsRow next.input_size next.output_size) ps
        × IsRow next.input_size next.output_size last =
      rw (ins, outs) (rows.1, row) in
    let (t, rest, last_found) = add_pairs-IsRow next ps last (omega arith) fits.0 fits.1 in
    (t, rw run rest, last_found)

replicate_inputs-idle :
    (i k n m : ℕ) (ps : List SignaturePair) (inputs : Signature)
    → replicate_inputs i k (idle n m ps inputs) ≡ idle n m ps (inputs ++ all_replicate k)
unfolding replicate_inputs
replicate_inputs-idle i zero n m ps inputs = ap (idle n m ps) (sym (append-nil inputs))
replicate_inputs-idle i (suc k) n m ps inputs =
    replicate_inputs-idle (suc i) k n m ps (inputs ++ replicated ∷ [])
    ∙ ap (idle n m ps) (append_assoc inputs (replicated ∷ []) (all_replicate k))

-- `Finish` records, as the last row, the one in which everything replicates.
pub finish-add_pairs :
    (n m : ℕ) (ps : List SignaturePair)
    → finish (idle n m ps [])
      ≡ add_pairs
          (record { input_size = n; output_size = m; all_signature = []; signature_map = [] })
          (ps ++ (all_replicate n, all_replicate m) ∷ [])
unfolding finish build
finish-add_pairs n m ps =
    let sizes : (n == length (all_replicate n)) ≡ true =
      (==_iff _ _).1 (sym (length-replicate n replicated)) in
    let sizes' : (m == length (all_replicate m)) ≡ true =
      (==_iff _ _).1 (sym (length-replicate m replicated)) in
    rw (replicate_inputs-idle 0 n n m ps [], sizes, sizes') refl

-- Where every pair that was built is a row of fewer than eight inputs, `Finish` returns, and the
-- inputs that all replicate have the output that all replicate.
pub finish-all_replicate :
    (n m : ℕ) (ps : List SignaturePair)
    → n < 8
    → All (IsRow n m) ps
    → (s : PlacementSignature) × (finish (idle n m ps []) ≡ ok s)
      × ((key : ℕ)
          → get_hash_key (all_replicate n) ≡ ok key
          → find key s.signature_map ≡ some (all_replicate m))
finish-all_replicate n m ps few rows =
    let (t, run, found) =
      add_pairs-IsRow
        (record { input_size = n; output_size = m; all_signature = []; signature_map = [] }) ps
        (all_replicate n, all_replicate m) few rows
        (all_replicate-IsBuilt n, length-replicate n replicated, length-replicate m replicated) in
    (t, finish-add_pairs n m ps ∙ run, found)

-- The placements of `n` tensors that replicate over `w` axes.
abbrev pub replicated_tensors : ℕ → ℕ → List PlacementSeq
replicated_tensors n w = replicate n (replicate w replicated)

column-replicated_tensors :
    (n w j : ℕ) → j < w → column (replicated_tensors n w) j ≡ ok (all_replicate n)
unfolding column
column-replicated_tensors zero w j h = refl
column-replicated_tensors (suc n) w j h =
    rw (get_elem?-replicate w j h, column-replicated_tensors n w j h) refl
  where
    get_elem?-replicate : (w j : ℕ) → j < w → get_elem? (replicate w replicated) j ≡ some replicated
    get_elem?-replicate zero j h = elim h [ ]
    get_elem?-replicate (suc w) zero h = refl
    get_elem?-replicate (suc w) (suc j) h = get_elem?-replicate w j (omega arith)

push_column-replicated_tensors :
    (m i : ℕ)
    → push_column (replicated_tensors m i) i (all_replicate m) ≡ ok (replicated_tensors m (suc i))
unfolding push_column
push_column-replicated_tensors zero i = refl
push_column-replicated_tensors (suc m) i =
    rw ((==_iff _ _).1 (length-replicate i replicated), push_column-replicated_tensors m i)
      (ap (λ z. ok (z ∷ replicated_tensors m (suc i))) (replicate-snoc i replicated))

set_output-replicated_tensors :
    (m i : ℕ)
    → 0 < m
    → set_output (replicated_tensors m i) i (all_replicate m) ≡ ok (replicated_tensors m (suc i))
unfolding set_output
set_output-replicated_tensors m i h =
    let a : length (all_replicate m) ≡ m = length-replicate m replicated in
    let b : length (replicated_tensors m i) ≡ m = length-replicate m (replicate i replicated) in
    rw (a, b, lt→ltb 0 m h, ==_refl m) (push_column-replicated_tensors m i)

take-replicate : (m : ℕ) → take m (replicate {A = PlacementSeq} m []) ≡ replicate m []
take-replicate zero = refl
take-replicate (suc m) = ap (λ z. [] ∷ z) (take-replicate m)

set_output-first : (m : ℕ) → 0 < m → set_output [] 0 (all_replicate m) ≡ ok (replicated_tensors m 1)
unfolding set_output
set_output-first m h =
    let a : length (all_replicate m) ≡ m = length-replicate m replicated in
    let b : (0 == m) ≡ false = ground arith in
    let whole : take m (replicate {A = PlacementSeq} (m - 0) []) ≡ replicated_tensors m 0 =
      ap (λ k. take m (replicate {A = PlacementSeq} k [])) (omega arith) ∙ take-replicate m in
    rw (a, lt→ltb 0 m h, b)
      (subst (λ z. push_column z 0 (all_replicate m) ≡ ok (replicated_tensors m 1)) (sym whole)
        (push_column-replicated_tensors m 0))

-- The outputs that are written up to the axis `i`.
abbrev so_far : ℕ → ℕ → List PlacementSeq
so_far m zero = []
so_far m (suc i) = replicated_tensors m (suc i)

set_output-so_far :
    (m i : ℕ) → 0 < m → set_output (so_far m i) i (all_replicate m) ≡ ok (so_far m (suc i))
set_output-so_far m zero h = set_output-first m h
set_output-so_far m (suc i) h = set_output-replicated_tensors m (suc i) h

first_sub_split-all_replicate : (n : ℕ) → first_sub_split (all_replicate n) ≡ none
unfolding first_sub_split
first_sub_split-all_replicate zero = refl
first_sub_split-all_replicate (suc n) = first_sub_split-all_replicate n

-- An axis whose column is in the table.
match_loop-found :
    (s : PlacementSignature) (inputs : List PlacementSeq) (keep : Bool) (i k key : ℕ)
    (rs next : List PlacementSeq) (col outputs : Signature)
    → column inputs i ≡ ok col
    → get_hash_key col ≡ ok key
    → find key s.signature_map ≡ some outputs
    → set_output rs i (if keep then mark_outputs (first_sub_split col) outputs else outputs)
      ≡ ok next
    → match_loop s inputs keep i (suc k) rs ≡ match_loop s inputs keep (suc i) k next
unfolding match_loop
match_loop-found s inputs keep i k key rs next col outputs a g f w =
    let row : Signature → Signature → Outcome (Option (List PlacementSeq)) = λ c o.
      set_output rs i (if keep then mark_outputs (first_sub_split c) o else o) >>= λ z.
      match_loop s inputs keep (suc i) k z in
    ap (λ z. z >>= λ c. get_hash_key c >>= λ y. when_found (find y s.signature_map) (row c)) a
    ∙ ap (λ z. z >>= λ y. when_found (find y s.signature_map) (row col)) g
    ∙ ap (λ z. when_found z (row col)) f
    ∙ ap (λ z. z >>= λ y. match_loop s inputs keep (suc i) k y) w

match_loop-replicated_tensors :
    (s : PlacementSignature) (keep : Bool) (n m w i k key : ℕ)
    → 0 < m
    → i + k ≡ w
    → get_hash_key (all_replicate n) ≡ ok key
    → find key s.signature_map ≡ some (all_replicate m)
    → match_loop s (replicated_tensors n w) keep i k (so_far m i) ≡ ok (some (so_far m w))
match_loop-replicated_tensors s keep n m w i zero key h e g f =
    unfold match_loop in ap (λ z. ok (some (so_far m z))) (omega arith)
match_loop-replicated_tensors s keep n m w i (suc k) key h e g f =
    let written : (if keep
          then mark_outputs (first_sub_split (all_replicate n)) (all_replicate m)
          else all_replicate m)
        ≡ all_replicate m =
      rw (first_sub_split-all_replicate n) (either keep) in
    let rest = match_loop-replicated_tensors s keep n m w (suc i) k key h (omega arith) g f in
    match_loop-found s (replicated_tensors n w) keep i k key (so_far m i) (so_far m (suc i))
      (all_replicate n) (all_replicate m) (column-replicated_tensors n w i (omega arith)) g f
      (ap (set_output (so_far m i) i) written ∙ set_output-so_far m i h)
    ∙ rest
  where
    either : (b : Bool) → (if b then all_replicate m else all_replicate m) ≡ all_replicate m
    either true = refl
    either false = refl

-- For an operator of one to seven inputs and some outputs, whatever rows its builder built that have
-- as many inputs and outputs as it has, no optional inputs, and of the inputs only placements that
-- have a key (replicated, partial, or sharded at a dimension below 16): `Finish` returns, and inputs
-- that replicate over every axis of a mesh of one axis or more match, with outputs that
-- replicate over every axis.
pub match_signature-replicated_tensors :
    (n m w : ℕ) (ps : List SignaturePair) (keep : Bool)
    → 0 < n
    → n < 8
    → 0 < m
    → 0 < w
    → All (IsRow n m) ps
    → (s : PlacementSignature) × (finish (idle n m ps []) ≡ ok s)
      × (match_signature s (replicated_tensors n w) keep ≡ ok (some (replicated_tensors m w)))
unfolding match_signature
match_signature-replicated_tensors n m w ps keep n_pos few m_pos w_pos rows =
    let (s, run, found) = finish-all_replicate n m ps few rows in
    let (key, hash, other) =
      get_hash_key-injective (all_replicate n) (all_replicate n) (all_replicate-IsBuilt n)
        (all_replicate-IsBuilt n) (rw (length-replicate n replicated) few) refl in
    let (table, out, ins) = finish-IsTable (idle n m ps []) s run in
    let size : (length (replicated_tensors n w) == s.input_size) ≡ true =
      (==_iff _ _).1 (length-replicate n _ ∙ sym ins) in
    (
      s,
      run,
      rw (size, first_of n n_pos, length-replicate w replicated)
          (match_loop-replicated_tensors s keep n m w 0 w key m_pos (omega arith) hash
              (found key hash)
            ∙ ap (λ z. ok (some z)) (so_far-all w w_pos)),
    )
  where
    first_of :
        (n : ℕ) → 0 < n → get_elem? (replicated_tensors n w) 0 ≡ some (replicate w replicated)
    first_of zero h = elim h [ ]
    first_of (suc n) h = refl

    so_far-all : (w : ℕ) → 0 < w → so_far m w ≡ replicated_tensors m w
    so_far-all zero h = elim h [ ]
    so_far-all (suc w) h = refl
