-- ===== src/Operators/Rows.antt =====
-- The rows that a signature of one input and one output records, and when they are sound.
use mathlib.Core.List.{append-nil, append_assoc}
use dtorch.Base.{
  lt_of_get_elem?, ltb, assert_that-eq-ok, ltb→lt, set, ℕ, zero, suc, ◌≤◌, ◌<◌, ◌≡◌, refl, sym, ap,
  ◌∙◌, subst, true, some, List, [], ◌∷◌, ◌++◌, map, arith, ◌==◌, length, get_elem?, All, Outcome,
  ok, assert_that, >>=-eq-ok, ok-injective,
}
use dtorch.Base.Int.{ℤ, negsuc, pos_part}
use dtorch.Shape.{Shape}
use dtorch.Placement.{Placement, shard_at, replicated, partial_sum}
use dtorch.Placement.HashKey.{by_shard, by_partial}
use dtorch.Signature.{SignaturePair, PlacementSignature, build, add_pairs, add_pair, get_hash_key}
use dtorch.Signature.Finish.{idle, IsRow, finish-all_replicate, finish-add_pairs}
use dtorch.Operators.{read_dim, write_dim, add_row, add_shard_rows, unary_signature}

-- What a read of a dimension found, and the dimension between two parts of a shape.
pub read_dim-eq-ok :
    (shape : Shape) (i : ℕ) {d : ℤ}
    → read_dim shape i ≡ ok d
    → (get_elem? shape i ≡ some d) × (i < length shape)
read_dim-eq-ok [] i h = cc
read_dim-eq-ok (x ∷ xs) zero h = (ap some (ok-injective h), omega arith)
read_dim-eq-ok (x ∷ xs) (suc i) h = let (e, k) = read_dim-eq-ok xs i h in (e, omega arith)

pub write_dim-eq-ok :
    (xs : Shape) (i : ℕ) (d : ℤ) {ys : Shape}
    → write_dim xs i d ≡ ok ys
    → (set xs i d ≡ ys) × (i < length xs)
write_dim-eq-ok xs i d h =
    let (u, e, k) = >>=-eq-ok (assert_that (ltb i (length xs))) _ h in
    (ok-injective k, ltb→lt i (length xs) (assert_that-eq-ok (ltb i (length xs)) e))

pub get_elem?-middle :
    (before rest : Shape) (d : ℤ) → get_elem? (before ++ d ∷ rest) (length before) ≡ some d
get_elem?-middle [] rest d = refl
get_elem?-middle (x ∷ before) rest d = get_elem?-middle before rest d

abbrev pub shard_row : ℕ × ℕ → SignaturePair
shard_row (i, j) = (shard_at i ∷ [], shard_at j ∷ [])

abbrev pub rows_of : List (ℕ × ℕ) → List SignaturePair
rows_of pairs = map shard_row pairs

pub add_row-idle :
    (p q : Placement) (ps : List SignaturePair)
    → add_row p q (idle 1 1 ps []) ≡ ok (idle 1 1 (ps ++ (p ∷ [], q ∷ []) ∷ []) [])
unfolding add_row build
add_row-idle p q ps = refl

add_shard_rows-idle :
    (pairs : List (ℕ × ℕ)) (ps : List SignaturePair)
    → add_shard_rows pairs (idle 1 1 ps []) ≡ ok (idle 1 1 (ps ++ rows_of pairs) [])
unfolding add_shard_rows
add_shard_rows-idle [] ps = ap (λ z. ok (idle 1 1 z [])) (sym (append-nil ps))
add_shard_rows-idle ((i, j) ∷ pairs) ps = rw (add_row-idle (shard_at i) (shard_at j) ps) (
    add_shard_rows-idle pairs (ps ++ shard_row (i, j) ∷ [])
    ∙ ap (λ z. ok (idle 1 1 z [])) (append_assoc ps (shard_row (i, j) ∷ []) (rows_of pairs)))

-- The first of each pair has a key.
abbrev pub HasKeys : List (ℕ × ℕ) → Type 0
HasKeys pairs = All (λ p. p.0 < 16) pairs

rows_of-IsRow : (pairs : List (ℕ × ℕ)) → HasKeys pairs → All (IsRow 1 1) (rows_of pairs)
rows_of-IsRow [] h = tt
rows_of-IsRow ((i, j) ∷ pairs) h =
    (((by_shard i (negsuc 0) h.0, tt), refl, refl), rows_of-IsRow pairs h.1)

-- `mAllSignature` lists what was added.
pub add_pairs-all_signature :
    (s : PlacementSignature) (ps : List SignaturePair) {t : PlacementSignature}
    → add_pairs s ps ≡ ok t
    → t.all_signature ≡ s.all_signature ++ ps
unfolding add_pairs add_pair
add_pairs-all_signature s [] h =
    ap (λ z. z.all_signature) (sym (ok-injective h)) ∙ sym (append-nil s.all_signature)
add_pairs-all_signature s ((inputs, outputs) ∷ ps) h =
    let (next, a, h1) = >>=-eq-ok (add_pair s (inputs, outputs)) _ h in
    let (u, b, a1) = >>=-eq-ok (assert_that (length inputs == s.input_size)) _ a in
    let (v, c, a2) = >>=-eq-ok (assert_that (length outputs == s.output_size)) _ a1 in
    let (key, d, a3) = >>=-eq-ok (get_hash_key inputs) _ a2 in
    let e : s.all_signature ++ (inputs, outputs) ∷ [] ≡ next.all_signature =
      ap (λ z. z.all_signature) (ok-injective a3) in
    add_pairs-all_signature next ps h1
    ∙ ap (λ z. z ++ ps) (sym e)
    ∙ append_assoc s.all_signature ((inputs, outputs) ∷ []) ps

pub unary_signature-rows :
    (pairs : List (ℕ × ℕ))
    → HasKeys pairs
    → (s : PlacementSignature) × (unary_signature pairs ≡ ok s)
      × (s.all_signature
          ≡ (partial_sum ∷ [], partial_sum ∷ [])
            ∷ (rows_of pairs ++ (replicated ∷ [], replicated ∷ []) ∷ []))
unfolding unary_signature
unary_signature-rows pairs h =
    let first : SignaturePair = (partial_sum ∷ [], partial_sum ∷ []) in
    let (s, run, found) =
      finish-all_replicate 1 1 (first ∷ rows_of pairs) (omega arith)
        (((by_partial, tt), refl, refl), rows_of-IsRow pairs h) in
    (
      s,
      rw (add_row-idle partial_sum partial_sum [], add_shard_rows-idle pairs (first ∷ [])) run,
      add_pairs-all_signature _ _ (sym (finish-add_pairs 1 1 (first ∷ rows_of pairs)) ∙ run),
    )

-- A row of a signature from one shape to another: what is replicated or partial stays so, and a
-- sharded dimension becomes a sharded dimension of the same size.
pub record IsSoundRow (shape out : Shape) (p q : Placement) : Type 0 where
  pub replicates : p.replicate ≡ true → q.replicate ≡ true
  pub partials : p.partial ≡ true → q.partial ≡ true
  pub shards : p.shard ≡ true → q.shard ≡ true
  pub sizes :
      p.shard ≡ true
      → (d : ℤ) × (get_elem? shape (pos_part p.shard_index) ≡ some d)
        × (get_elem? out (pos_part q.shard_index) ≡ some d)

abbrev pub IsSoundPair : Shape → Shape → SignaturePair → Type 0
IsSoundPair shape out (p ∷ [], q ∷ []) = IsSoundRow shape out p q
IsSoundPair shape out _ = ⊥

-- The dimensions of a pair have the same size.
abbrev pub SameSize : Shape → Shape → ℕ × ℕ → Type 0
SameSize shape out (i, j) = (d : ℤ) × (get_elem? shape i ≡ some d) × (get_elem? out j ≡ some d)

rows_of-IsSoundPair :
    (shape out : Shape) (pairs : List (ℕ × ℕ))
    → All (SameSize shape out) pairs
    → All (IsSoundPair shape out) (rows_of pairs ++ (replicated ∷ [], replicated ∷ []) ∷ [])
rows_of-IsSoundPair shape out [] h =
    (record { replicates = λ e. e; partials = λ e. e; shards = λ e. e; sizes = λ e. cc }, tt)
rows_of-IsSoundPair shape out ((i, j) ∷ pairs) h = (
  record { replicates = λ e. e; partials = λ e. e; shards = λ e. e; sizes = λ e. h.0 },
  rows_of-IsSoundPair shape out pairs h.1,
)

-- What an operator's signature is to be: there is one, and all its rows are sound.
abbrev pub SoundSignature : Shape → Shape → Outcome PlacementSignature → Type 0
SoundSignature shape out run =
    (s : PlacementSignature) × (run ≡ ok s) × All (IsSoundPair shape out) s.all_signature

-- Dimensions that exist, of at most 16, have keys.
SameSize-HasKeys :
    (shape out : Shape) (pairs : List (ℕ × ℕ))
    → length shape ≤ 16
    → All (SameSize shape out) pairs
    → HasKeys pairs
SameSize-HasKeys shape out [] h same = tt
SameSize-HasKeys shape out ((i, j) ∷ pairs) h same =
    let (d, from, to) = same.0 in
    let k = lt_of_get_elem? shape i from in (omega arith, SameSize-HasKeys shape out pairs h same.1)

pub unary_signature-SoundSignature :
    (shape out : Shape) (pairs : List (ℕ × ℕ))
    → length shape ≤ 16
    → All (SameSize shape out) pairs
    → SoundSignature shape out (unary_signature pairs)
unary_signature-SoundSignature shape out pairs few same =
    let keys = SameSize-HasKeys shape out pairs few same in
    let (s, run, e) = unary_signature-rows pairs keys in
    (
      s,
      run,
      subst (All (IsSoundPair shape out)) (sym e) (
        record { replicates = λ q. q; partials = λ q. q; shards = λ q. q; sizes = λ q. cc },
        rows_of-IsSoundPair shape out pairs same,
      ),
    )
