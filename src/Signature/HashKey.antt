-- ===== src/Signature/HashKey.antt =====
-- The key of the placements of several inputs, `GetHashKey`: no two of them share a key.
use dtorch.Base.{
  ℕ, zero, suc, ◌+◌, ◌-◌, ◌*◌, ◌%◌, ◌^◌, ◌≤◌, ◌<◌, ◌≡◌, refl, sym, ◌∙◌, subst, [], ◌∷◌, arith,
  lt→ltb, length, All, ok, ok-injective,
}
use native.Mathlib.Nat.{mul-le-mul_right, mul-le-mul_left}
use dtorch.Placement.HashKey.{
  IsBuilt, SameKind, key_of, to_hash_key-key_of, key_of-lt, key_of-injective,
}
use dtorch.Signature.{Signature, key_loop, get_hash_key}

abbrev bytes : ℕ → ℕ
bytes zero = 1
bytes (suc n) = 256 * bytes n

bytes-positive : (n : ℕ) → 1 ≤ bytes n
bytes-positive zero = omega arith
bytes-positive (suc n) = omega (arith, bytes-positive n)

bytes-le : (n k : ℕ) → bytes n ≤ bytes (n + k)
bytes-le zero k = subst (λ z. 1 ≤ bytes z) (omega arith) (bytes-positive k)
bytes-le (suc n) k =
    let e : suc (n + k) ≡ suc n + k = omega arith in
    subst (λ z. bytes (suc n) ≤ bytes z) e (omega (arith, bytes-le n k))

-- The number that the loop computes where nothing is cut off.
abbrev fold_keys : ℕ → (ps : Signature) → All IsBuilt ps → ℕ
fold_keys r [] b = r
fold_keys r (p ∷ ps) b = fold_keys (r * 256 + key_of b.0) ps b.1

key_loop-fold_keys :
    (r : ℕ) (ps : Signature) (b : All IsBuilt ps)
    → suc r * bytes (length ps) ≤ 2 ^ 64
    → key_loop r ps ≡ ok (fold_keys r ps b)
unfolding key_loop
key_loop-fold_keys r [] b h = refl
key_loop-fold_keys r (p ∷ ps) b h =
    let c = key_of-lt b.0 in
    let small : suc (r * 256 + key_of b.0) * bytes (length ps) ≤ 2 ^ 64 =
      below (key_of b.0) (bytes (length ps)) c h in
    let fits : r * 256 < 2 ^ 64 = fits_of (bytes (length ps)) (bytes-positive (length ps)) h in
    let same : (r * 256) % 2 ^ 64 + key_of b.0 % 256 ≡ r * 256 + key_of b.0 = omega arith in
    rw (to_hash_key-key_of b.0, same) (key_loop-fold_keys (r * 256 + key_of b.0) ps b.1 small)
  where
    below : (c n : ℕ) → c < 256 → suc r * (256 * n) ≤ 2 ^ 64 → suc (r * 256 + c) * n ≤ 2 ^ 64
    below c n k h =
        let m : suc (r * 256 + c) * n ≤ (suc r * 256) * n = mul-le-mul_right n (omega arith) in
        let q : suc r * (256 * n) ≡ (suc r * 256) * n = grind arith in omega arith

    fits_of : (n : ℕ) → 1 ≤ n → suc r * (256 * n) ≤ 2 ^ 64 → r * 256 < 2 ^ 64
    fits_of n k h =
        let m : (suc r * 256) * 1 ≤ (suc r * 256) * n = mul-le-mul_left (suc r * 256) k in
        let q : suc r * (256 * n) ≡ (suc r * 256) * n = grind arith in omega arith

get_hash_key-fold_keys :
    (ps : Signature) (b : All IsBuilt ps) → length ps < 8 → get_hash_key ps ≡ ok (fold_keys 0 ps b)
unfolding get_hash_key
get_hash_key-fold_keys ps b h =
    let few : 1 * bytes (length ps) ≤ 2 ^ 64 = at_most (length ps) h in
    rw (lt→ltb _ _ h) (key_loop-fold_keys 0 ps b few)
  where
    at_most : (n : ℕ) → n < 8 → 1 * bytes n ≤ 2 ^ 64
    at_most n h =
        let e : n + (8 - n) ≡ 8 = omega arith in
        let k = bytes-le n (8 - n) in
        let k' : bytes n ≤ bytes 8 = subst (λ z. bytes n ≤ bytes z) e k in omega arith

abbrev pub SameKinds : Signature → Signature → Type 0
SameKinds [] [] = Unit
SameKinds (p ∷ ps) (q ∷ qs) = SameKind p q × SameKinds ps qs
SameKinds [] (q ∷ qs) = ⊥
SameKinds (p ∷ ps) [] = ⊥

fold_keys-injective :
    (r s : ℕ) (ps qs : Signature) (a : All IsBuilt ps) (b : All IsBuilt qs)
    → length ps ≡ length qs
    → fold_keys r ps a ≡ fold_keys s qs b
    → (r ≡ s) × SameKinds ps qs
fold_keys-injective r s [] [] a b h e = (e, tt)
fold_keys-injective r s [] (q ∷ qs) a b h e = absurd (omega arith)
fold_keys-injective r s (p ∷ ps) [] a b h e = absurd (omega arith)
fold_keys-injective r s (p ∷ ps) (q ∷ qs) a b h e =
    let (same, rest) =
      fold_keys-injective (r * 256 + key_of a.0) (s * 256 + key_of b.0) ps qs a.1 b.1 (omega arith)
        e in
    let k = key_of-lt a.0 in
    let l = key_of-lt b.0 in (omega arith, (key_of-injective a.0 b.0 (omega arith), rest))

-- The placements of fewer than eight inputs, as the factory functions build them with a shard
-- index below 16, always have a key, and only placements of the same kinds and shard
-- indices share it.
pub get_hash_key-injective :
    (ps qs : Signature)
    → All IsBuilt ps
    → All IsBuilt qs
    → length ps < 8
    → length ps ≡ length qs
    → (key : ℕ) × (get_hash_key ps ≡ ok key) × (get_hash_key qs ≡ ok key → SameKinds ps qs)
get_hash_key-injective ps qs a b h e = (
  fold_keys 0 ps a,
  get_hash_key-fold_keys ps a h,
  λ q.
      (fold_keys-injective 0 0 ps qs a b e
        (ok-injective (sym q ∙ get_hash_key-fold_keys qs b (omega arith)))).1,
)
