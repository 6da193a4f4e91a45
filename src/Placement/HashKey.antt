-- ===== src/Placement/HashKey.antt =====
-- The key by which a placement is looked up in a signature.
use dtorch.Base.{ℕ, ◌+◌, ◌*◌, ◌<◌, ◌≡◌, refl, ok, arith}
use dtorch.Base.Int.{ℤ, pos}
use dtorch.Placement.{Placement, to_hash_key, shard_of, replicated, partial_sum, optional_input}

-- What the factory functions can build, with a shard index that has a key.
pub data IsBuilt : Placement → Type 0 where
  by_shard : (i : ℕ) (sub : ℤ) → i < 16 → IsBuilt (shard_of (pos i) sub)
  by_replicate : IsBuilt replicated
  by_partial : IsBuilt partial_sum
  by_optional : IsBuilt optional_input

-- The same placement up to the sub split, which the key leaves out.
pub record SameKind (p q : Placement) : Type 0 where
  pub replicate : p.replicate ≡ q.replicate
  pub partial : p.partial ≡ q.partial
  pub shard : p.shard ≡ q.shard
  pub shard_index : p.shard_index ≡ q.shard_index

abbrev pub key_of : {p : Placement} → IsBuilt p → ℕ
key_of (by_shard i sub h) = 4 + 16 * i
key_of by_replicate = 241
key_of by_partial = 242
key_of by_optional = 240

pub to_hash_key-key_of : {p : Placement} (b : IsBuilt p) → to_hash_key p ≡ ok (key_of b)
unfolding to_hash_key
to_hash_key-key_of (by_shard i sub h) = ground arith
to_hash_key-key_of by_replicate = refl
to_hash_key-key_of by_partial = refl
to_hash_key-key_of by_optional = refl

pub key_of-lt : {p : Placement} (b : IsBuilt p) → key_of b < 256
key_of-lt (by_shard i sub h) = omega arith
key_of-lt by_replicate = omega arith
key_of-lt by_partial = omega arith
key_of-lt by_optional = omega arith

pub key_of-injective :
    {p q : Placement} (a : IsBuilt p) (b : IsBuilt q) → key_of a ≡ key_of b → SameKind p q
key_of-injective (by_shard i s h) (by_shard j t k) e = ground arith
key_of-injective (by_shard i s h) by_replicate e = absurd (omega arith)
key_of-injective (by_shard i s h) by_partial e = absurd (omega arith)
key_of-injective (by_shard i s h) by_optional e = absurd (omega arith)
key_of-injective by_replicate (by_shard j t k) e = absurd (omega arith)
key_of-injective by_replicate by_replicate e = ground arith
key_of-injective by_replicate by_partial e = absurd (omega arith)
key_of-injective by_replicate by_optional e = absurd (omega arith)
key_of-injective by_partial (by_shard j t k) e = absurd (omega arith)
key_of-injective by_partial by_replicate e = absurd (omega arith)
key_of-injective by_partial by_partial e = ground arith
key_of-injective by_partial by_optional e = absurd (omega arith)
key_of-injective by_optional (by_shard j t k) e = absurd (omega arith)
key_of-injective by_optional by_replicate e = absurd (omega arith)
key_of-injective by_optional by_partial e = absurd (omega arith)
key_of-injective by_optional by_optional e = ground arith
