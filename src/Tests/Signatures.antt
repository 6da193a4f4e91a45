-- ===== src/Tests/Signatures.antt =====
-- The signature of a binary operator with one row, Shard(0), Shard(0) to Shard(0).
use dtorch.Base.{Option, ◌<◌, none, ℕ, ◌≡◌, refl, true, some, List, [], ◌∷◌, ◌++◌, arith, All, ok}
use dtorch.Base.Int.{negsuc}
use dtorch.Placement.{shard_at, replicated, to_hash_key}
use dtorch.Placement.HashKey.{IsBuilt, by_shard, by_replicate}
use dtorch.PlacementSeq.{PlacementSeq}
use dtorch.Signature.{
  Signature, SignaturePair, PlacementSignature, match_signature, finish, build, replicate_inputs,
  add_pairs, add_pair, get_hash_key, key_loop, put, find, match_loop, column, set_output,
  push_column, first_sub_split,
}
use dtorch.Signature.HashKey.{SameKinds, get_hash_key-injective}
use dtorch.Signature.Match.{MatchedAt}
use dtorch.Signature.Answers.{UnmatchedAt, HasKeysOver, match_signature-MatchedAt}
use dtorch.Signature.Finish.{idle, IsRow, replicated_tensors, match_signature-replicated_tensors}

abbrev two_shards : Signature
two_shards = shard_at 0 ∷ shard_at 0 ∷ []

two_shards-IsBuilt : All IsBuilt two_shards
two_shards-IsBuilt =
    (by_shard 0 (negsuc 0) (omega arith), (by_shard 0 (negsuc 0) (omega arith), tt))

abbrev rows : List SignaturePair
rows = (two_shards, shard_at 0 ∷ []) ∷ []

rows-IsRow : All (IsRow 2 1) rows
rows-IsRow = ((two_shards-IsBuilt, refl, refl), tt)

abbrev everything : List SignaturePair
everything = rows ++ (replicated ∷ replicated ∷ [], replicated ∷ []) ∷ []

abbrev signature : PlacementSignature
signature = record {
  input_size = 2;
  output_size = 1;
  all_signature = everything;
  signature_map = (1028, shard_at 0 ∷ []) ∷ (61937, replicated ∷ []) ∷ [];
}

finished : finish (idle 2 1 rows []) ≡ ok signature
unfolding finish build replicate_inputs add_pairs add_pair get_hash_key key_loop to_hash_key put
finished = refl

abbrev inputs : List PlacementSeq
inputs = (shard_at 0 ∷ replicated ∷ []) ∷ (shard_at 0 ∷ replicated ∷ []) ∷ []

abbrev outputs : List PlacementSeq
outputs = (shard_at 0 ∷ replicated ∷ []) ∷ []

matched : match_signature signature inputs true ≡ ok (some outputs)
unfolding match_signature match_loop column get_hash_key key_loop to_hash_key find set_output
    push_column first_sub_split
matched = refl

match_signature-replicated_tensors_example :
    (s : PlacementSignature) × (finish (idle 2 1 rows []) ≡ ok s)
    × (match_signature s (replicated_tensors 2 3) true ≡ ok (some (replicated_tensors 1 3)))
match_signature-replicated_tensors_example =
    match_signature-replicated_tensors 2 1 3 rows true (omega arith) (omega arith) (omega arith)
      (omega arith) rows-IsRow

two_axes : HasKeysOver 2 (shard_at 0 ∷ replicated ∷ [])
two_axes = (refl, (by_shard 0 (negsuc 0) (omega arith), (by_replicate, tt)))

match_signature-MatchedAt_example :
    (result : Option (List PlacementSeq)) × (match_signature signature inputs true ≡ ok result)
    × ((found : List PlacementSeq)
        → result ≡ some found
        → (j : ℕ) → j < 2
        → MatchedAt signature inputs true j found)
    × (result ≡ none → (j : ℕ) × (j < 2) × UnmatchedAt signature inputs j)
match_signature-MatchedAt_example =
    match_signature-MatchedAt (idle 2 1 rows []) signature (shard_at 0 ∷ replicated ∷ [])
      ((shard_at 0 ∷ replicated ∷ []) ∷ []) true finished (omega arith) (omega arith) refl
      (two_axes, (two_axes, tt))

get_hash_key-injective_example :
    (key : ℕ) × (get_hash_key two_shards ≡ ok key)
    × (get_hash_key two_shards ≡ ok key → SameKinds two_shards two_shards)
get_hash_key-injective_example =
    get_hash_key-injective two_shards two_shards two_shards-IsBuilt two_shards-IsBuilt (omega arith)
      refl
