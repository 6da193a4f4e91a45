-- ===== src/Signature.antt =====
-- `PlacementSignature`, the table of an operator's input and output placements, and its builder:
-- dtorch/core/operators/placement_signature.{h,cc}. `ToString` is not modelled.
pub mod HashKey
pub mod Lookup
pub mod Match
pub mod Answers
pub mod Finish
use dtorch.Base.{
  ℕ, zero, suc, ◌+◌, ◌-◌, ◌*◌, ◌/◌, ◌%◌, ◌^◌, ◌≤◌, ◌<◌, min, max, ◌≡◌, refl, sym, ap, ◌∙◌, subst,
  fun_ext, ◌≢◌, ◌↔◌, ◌⊎◌, inl, inr, Bool, true, false, not, ◌&&◌, ◌||◌, Option, none, some, List,
  [], ◌∷◌, ◌++◌, map, reverse, arith, ltb, leb, ◌==◌, if◌then◌else◌, ==_refl, ==_iff, ltb→lt,
  lt→ltb, leb→le, Bool-cases, Option-cases, and-eq-true, length, get_elem?, set, take, drop,
  replicate, All, sum, product, length-append, length-set, length-drop, length-take,
  length-replicate, length-map, get_elem?-set_ne, get_elem?-set_self, Outcome, ok, invalid_argument,
  aborted, ◌>>=◌, ◌>>◌, assert_that, throw_unless, of_option, >>=-eq-ok, assert_that-eq-ok,
  throw_unless-eq-ok, ok-injective,
}
use dtorch.Placement.{
  Placement, replicated, optional_input, to_hash_key, has_sub_split_coordinates,
  set_sub_split_coordinates,
}
use dtorch.PlacementSeq.{PlacementSeq}

-- `IOPlacementSignaturePair`
abbrev pub Signature : Type 0
Signature = List Placement

abbrev pub SignaturePair : Type 0
SignaturePair = Signature × Signature

pub record Builder : Type 0 where
  pub input_size : ℕ
  pub output_size : ℕ
  pub all_optional_indexs : List ℕ
  pub pairs : List SignaturePair
  pub current_optional_indexs : List ℕ
  pub current_input : Signature
  pub current_output : Signature

abbrev pub builder : ℕ → ℕ → Builder
builder input_size output_size = record {
  input_size = input_size;
  output_size = output_size;
  all_optional_indexs = [];
  pairs = [];
  current_optional_indexs = [];
  current_input = [];
  current_output = [];
}

abbrev pub add_input : Placement → Builder → Builder
add_input p b = record b { current_input = b.current_input ++ p ∷ [] }

abbrev pub add_optional_input : Placement → Builder → Builder
add_optional_input p b = record b {
  current_optional_indexs = b.current_optional_indexs ++ length b.current_input ∷ [];
  current_input = b.current_input ++ p ∷ [];
}

abbrev pub add_output : Placement → Builder → Builder
add_output p b = record b { current_output = b.current_output ++ p ∷ [] }

-- `GetAllCombination`: every choice among the optional inputs, the empty one first.
unfoldable pub combinations : List ℕ → List ℕ → List (List ℕ)
combinations prefix [] = prefix ∷ []
combinations prefix (i ∷ is) = combinations prefix is ++ combinations (prefix ++ i ∷ []) is

-- `inputs[it] = Placement::Optional()`, for each index of a combination.
unfoldable pub make_optional : List ℕ → Signature → Outcome Signature
make_optional [] inputs = ok inputs
make_optional (i ∷ is) inputs = do
  assert_that (ltb i (length inputs))
  make_optional is (set inputs i optional_input)

unfoldable pub optional_pairs : List (List ℕ) → Signature → Signature → Outcome (List SignaturePair)
optional_pairs [] inputs outputs = ok []
optional_pairs (c ∷ cs) inputs outputs = do
  chosen ← make_optional c inputs
  rest ← optional_pairs cs inputs outputs
  ok ((chosen, outputs) ∷ rest)

-- `Build`
abbrev pub built_pairs : Builder → Outcome (List SignaturePair)
built_pairs b =
    if ltb 0 (length b.current_optional_indexs)
    then optional_pairs (combinations [] b.current_optional_indexs) b.current_input b.current_output
    else ok ((b.current_input, b.current_output) ∷ [])

unfoldable pub build : Builder → Outcome Builder
build b = do
  assert_that (b.input_size == length b.current_input)
  assert_that (b.output_size == length b.current_output)
  more ← built_pairs b
  ok (record b {
    all_optional_indexs = b.all_optional_indexs ++ b.current_optional_indexs;
    pairs = b.pairs ++ more;
    current_optional_indexs = [];
    current_input = [];
    current_output = [];
  })

-- `GetHashKey`: the keys of the inputs side by side, in 64 bits.
unfoldable pub key_loop : ℕ → Signature → Outcome ℕ
key_loop result [] = ok result
key_loop result (p ∷ ps) = do key ← to_hash_key p; key_loop ((result * 256) % 2 ^ 64 + key % 256) ps

unfoldable pub get_hash_key : Signature → Outcome ℕ
get_hash_key inputs = do assert_that (ltb (length inputs) 8); key_loop 0 inputs

-- `mSignatureMap`, its `operator[]` with an assignment, and `find`.
unfoldable pub put : ℕ → Signature → List (ℕ × Signature) → List (ℕ × Signature)
put key outputs [] = (key, outputs) ∷ []
put key outputs ((k, o) ∷ rest) =
    if k == key then (k, outputs) ∷ rest else (k, o) ∷ put key outputs rest

unfoldable pub find : ℕ → List (ℕ × Signature) → Option Signature
find key [] = none
find key ((k, o) ∷ rest) = let later = find key rest in if k == key then some o else later

pub record PlacementSignature : Type 0 where
  pub input_size : ℕ
  pub output_size : ℕ
  pub all_signature : List SignaturePair
  pub signature_map : List (ℕ × Signature)

-- `AddPlacementSignaturePair`
unfoldable pub add_pair : PlacementSignature → SignaturePair → Outcome PlacementSignature
add_pair s (inputs, outputs) = do
  assert_that (length inputs == s.input_size)
  assert_that (length outputs == s.output_size)
  key ← get_hash_key inputs
  ok (record s {
    all_signature = s.all_signature ++ (inputs, outputs) ∷ [];
    signature_map = put key outputs s.signature_map;
  })

unfoldable pub add_pairs : PlacementSignature → List SignaturePair → Outcome PlacementSignature
add_pairs s [] = ok s
add_pairs s (p ∷ ps) = do next ← add_pair s p; add_pairs next ps

-- The loop of `Finish` over the inputs: each is `Replicate`, optional if any pair had it so.
unfoldable pub replicate_inputs : ℕ → ℕ → Builder → Builder
replicate_inputs i zero b = b
replicate_inputs i (suc n) b = replicate_inputs (suc i) n (
    if member i b.all_optional_indexs
    then add_optional_input replicated b
    else add_input replicated b)
  where
    member : ℕ → List ℕ → Bool
    member i [] = false
    member i (j ∷ js) = i == j || member i js

unfoldable pub finish : Builder → Outcome PlacementSignature
finish b = do
  assert_that (length b.current_input == 0 && length b.current_output == 0)
  let inputs = replicate_inputs 0 b.input_size b
  done ← build (record inputs { current_output = replicate b.output_size replicated })
  add_pairs
      (record {
        input_size = b.input_size;
        output_size = b.output_size;
        all_signature = [];
        signature_map = [];
      })
      done.pairs

-- `GetInputPlacementSignature`: the placements of the inputs at one axis of the mesh.
unfoldable pub column : List PlacementSeq → ℕ → Outcome Signature
column [] dim = ok []
column (ps ∷ inputs) dim = do
  p ← of_option (get_elem? ps dim)
  rest ← column inputs dim
  ok (p ∷ rest)

-- The sub split of the first input that has one goes to every output that shards.
unfoldable pub first_sub_split : Signature → Option Placement
first_sub_split [] = none
first_sub_split (p ∷ ps) =
    let rest = first_sub_split ps in if has_sub_split_coordinates p then some p else rest

abbrev pub mark_outputs : Option Placement → Signature → Signature
mark_outputs none outputs = outputs
mark_outputs (some p) outputs =
    map (λ q. if q.shard then set_sub_split_coordinates q p.sub_split_coordinates else q) outputs

-- `SetOutputPlacementSignature`: one placement more for each output.
unfoldable pub push_column : List PlacementSeq → ℕ → Signature → Outcome (List PlacementSeq)
push_column [] dim [] = ok []
push_column [] dim (p ∷ ps) = aborted
push_column (seq ∷ outputs) dim [] = ok (seq ∷ outputs)
push_column (seq ∷ outputs) dim (p ∷ ps) = do
  assert_that (length seq == dim)
  rest ← push_column outputs dim ps
  ok ((seq ++ p ∷ []) ∷ rest)

-- `resize`, when the number of outputs is another.
abbrev pub resize : ℕ → List PlacementSeq → List PlacementSeq
resize n outputs =
    if length outputs == n then outputs else take n (outputs ++ replicate (n - length outputs) [])

unfoldable pub set_output : List PlacementSeq → ℕ → Signature → Outcome (List PlacementSeq)
set_output outputs dim signature = do
  assert_that (ltb 0 (length signature))
  push_column (resize (length signature) outputs) dim signature

-- `return false` where a key is not in the table.
abbrev pub when_found {ℓ} :
    {A : Type ℓ} → Option Signature → (Signature → Outcome (Option A)) → Outcome (Option A)
when_found none f = ok none
when_found (some outputs) f = f outputs

-- The loop of `Match` over the axes; `none` where a column is not in the table.
unfoldable pub match_loop :
    PlacementSignature
    → List PlacementSeq
    → Bool
    → ℕ
    → ℕ
    → List PlacementSeq
    → Outcome (Option (List PlacementSeq))
match_loop s inputs keep i zero result = ok (some result)
match_loop s inputs keep i (suc n) result = do
  col ← column inputs i
  key ← get_hash_key col
  when_found (find key s.signature_map) λ outputs.
      set_output result i (if keep then mark_outputs (first_sub_split col) outputs else outputs)
      >>= λ next. match_loop s inputs keep (suc i) n next

unfoldable pub match_signature :
    PlacementSignature → List PlacementSeq → Bool → Outcome (Option (List PlacementSeq))
match_signature s inputs keep = do
  assert_that (length inputs == s.input_size)
  first ← of_option (get_elem? inputs 0)
  match_loop s inputs keep 0 (length first) []
