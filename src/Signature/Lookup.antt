-- ===== src/Signature/Lookup.antt =====
-- What `AddPlacementSignaturePair` leaves in the table.
use dtorch.Base.{
  ℕ, zero, suc, ◌≡◌, refl, sym, ap, ◌∙◌, subst, inl, inr, false, some, List, [], ◌∷◌, ◌++◌, arith,
  ◌==◌, if◌then◌else◌, ==_refl, ==_iff, Bool-cases, length, get_elem?, ok, assert_that, >>=-eq-ok,
  assert_that-eq-ok, ok-injective,
}
use dtorch.Signature.{
  Signature, SignaturePair, PlacementSignature, put, find, get_hash_key, add_pair, add_pairs,
}

pub find-put_self :
    (key : ℕ) (o : Signature) (t : List (ℕ × Signature)) → find key (put key o t) ≡ some o
unfolding find put
find-put_self key o [] = rw ==_refl
find-put_self key o ((k, v) ∷ rest) = elim (Bool-cases (k == key)) [
  | inl e ↦ rw (e, e)
  | inr e ↦ rw (e, e) (find-put_self key o rest)
]

pub find-put_ne :
    (key other : ℕ) (o : Signature) (t : List (ℕ × Signature))
    → (key == other) ≡ false
    → find other (put key o t) ≡ find other t
unfolding find put
find-put_ne key other o [] h = rw h
find-put_ne key other o ((k, v) ∷ rest) h = elim (Bool-cases (k == key)) [
  | inl e ↦ let q : (k == other) ≡ false = ground arith in rw (e, q)
  | inr e ↦ rw e (ap (λ z. if k == other then some v else z) (find-put_ne key other o rest h))
]

-- An item of a list.
abbrev pub At {ℓ} : {A : Type ℓ} → List A → A → Type ℓ
At xs x = (i : ℕ) × (get_elem? xs i ≡ some x)

pub At-append {ℓ} : {A : Type ℓ} (xs : List A) (y x : A) → At xs x → At (xs ++ y ∷ []) x
At-append [] y x (i, e) = cc
At-append (z ∷ xs) y x (zero, e) = (0, e)
At-append (z ∷ xs) y x (suc i, e) = let (j, q) = At-append xs y x (i, e) in (suc j, q)

pub At-append_last {ℓ} : {A : Type ℓ} (xs : List A) (y : A) → At (xs ++ y ∷ []) y
At-append_last [] y = (0, refl)
At-append_last (z ∷ xs) y = let (j, q) = At-append_last xs y in (suc j, q)

-- Every answer of the table is the output side of a recorded pair whose inputs have that key.
abbrev pub IsTable : PlacementSignature → Type 0
IsTable s =
    (key : ℕ) (o : Signature)
    → find key s.signature_map ≡ some o
    → (length o ≡ s.output_size)
      × ((inputs : Signature) × (At s.all_signature (inputs, o)) × (get_hash_key inputs ≡ ok key))

add_pair-IsTable :
    (s t : PlacementSignature) (p : SignaturePair)
    → add_pair s p ≡ ok t
    → IsTable s
    → IsTable t × (t.output_size ≡ s.output_size) × (t.input_size ≡ s.input_size)
unfolding add_pair
add_pair-IsTable s t (inputs, outputs) h w =
    let (u1, a, h1) = >>=-eq-ok (assert_that (length inputs == s.input_size)) _ h in
    let (u2, b, h2) = >>=-eq-ok (assert_that (length outputs == s.output_size)) _ h1 in
    let (key, c, h3) = >>=-eq-ok (get_hash_key inputs) _ h2 in
    let size : length outputs ≡ s.output_size =
      (==_iff _ _).0 (assert_that-eq-ok (length outputs == s.output_size) b) in
    let e = ok-injective h3 in
    subst (λ z. IsTable z × (z.output_size ≡ s.output_size) × (z.input_size ≡ s.input_size)) e
      (
        λ k o q. elim (Bool-cases (key == k)) [
          | inl same ↦
              let eq : key ≡ k = (==_iff _ _).0 same in
              let val : some outputs ≡ some o =
                sym (find-put_self key outputs s.signature_map)
                ∙ ap (λ z. find z (put key outputs s.signature_map)) eq
                ∙ q in
              let out : outputs ≡ o = cc in
              subst
                (λ z.
                  (length z ≡ s.output_size)
                  × ((is : Signature) × (At (s.all_signature ++ (inputs, outputs) ∷ []) (is, z))
                      × (get_hash_key is ≡ ok k)))
                out (size, (inputs, At-append_last s.all_signature (inputs, outputs), c ∙ ap ok eq))
          | inr other ↦
              let (l, (is, m, g)) =
                w k o (sym (find-put_ne key k outputs s.signature_map other) ∙ q) in
              (l, (is, At-append s.all_signature (inputs, outputs) (is, o) m, g))
        ],
        refl,
        refl,
      )

pub add_pairs-IsTable :
    (s t : PlacementSignature) (ps : List SignaturePair)
    → add_pairs s ps ≡ ok t
    → IsTable s
    → IsTable t × (t.output_size ≡ s.output_size) × (t.input_size ≡ s.input_size)
unfolding add_pairs
add_pairs-IsTable s t [] h w =
    subst (λ z. IsTable z × (z.output_size ≡ s.output_size) × (z.input_size ≡ s.input_size))
      (ok-injective h) (w, refl, refl)
add_pairs-IsTable s t (p ∷ ps) h w =
    let (next, a, h1) = >>=-eq-ok (add_pair s p) _ h in
    let (w1, o1, i1) = add_pair-IsTable s next p a w in
    let (w2, o2, i2) = add_pairs-IsTable next t ps h1 w1 in (w2, o2 ∙ o1, i2 ∙ i1)
