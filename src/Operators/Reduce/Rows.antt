-- ===== src/Operators/Reduce/Rows.antt =====
-- The rows of `ReduceOp::GetPlacementSignature`: dtorch/core/operators/standard/reduce_op.cc.
use mathlib.Core.List.{append_assoc}
use dtorch.Base.{
  ℕ, zero, suc, ◌+◌, ◌≤◌, ◌<◌, ◌≡◌, refl, sym, ap, ◌∙◌, subst, inl, inr, Bool, true, false, not,
  ◌&&◌, ◌||◌, some, List, [], ◌∷◌, ◌++◌, arith, ◌==◌, if◌then◌else◌, Bool-cases, and-eq-true,
  length, get_elem?, All, length-append, Outcome, ok, ◌>>=◌, throw_unless, >>=-eq-ok, ok-injective,
  lt_of_get_elem?,
}
use dtorch.Base.Int.{ℤ, pos, negsuc, le_ℤ, ◌==ℤ◌, ==ℤ_iff}
use dtorch.Shape.{Shape, contains, can_broadcast_with}
use dtorch.Placement.{Placement, shard_at, replicated}
use dtorch.Placement.HashKey.{by_shard}
use dtorch.Signature.{SignaturePair, PlacementSignature, Builder, builder}
use dtorch.Signature.Finish.{idle, IsRow}
use dtorch.Operators.{add_row}
use dtorch.Operators.Adds.{Adds, Adds-none, Adds-then, Adds-finish}
use dtorch.Operators.Rows.{add_row-idle, get_elem?-middle}
use dtorch.Operators.Reduce.{
  axes_from, get_dim_set, collect, none_negative, reduced_shape, reduce_shape, all_reduced_loop,
  reduce_loop, reduce_signature,
}
use dtorch.Operators.Reduce.Marked.{marked_from, contains-axes_from, reduced_shape-collect}

-- A row of the signature: a dimension of the set gives a replicated output, and another one is
-- sharded in the output where it lies there, with its size.
pub data IsReduceRow (dim_set : List ℕ) (shape out : Shape) : Placement → Placement → Type 0 where
  by_reduced :
      (i : ℕ)
      → contains i dim_set ≡ true
      → i < length shape
      → IsReduceRow dim_set shape out (shard_at i) replicated
  by_kept :
      (i j : ℕ) (d : ℤ)
      → contains i dim_set ≡ false
      → get_elem? shape i ≡ some d
      → get_elem? out j ≡ some d
      → IsReduceRow dim_set shape out (shard_at i) (shard_at j)

abbrev pub IsReducePair : List ℕ → Shape → Shape → SignaturePair → Type 0
IsReducePair dim_set shape out (p ∷ [], q ∷ []) = IsReduceRow dim_set shape out p q
IsReducePair dim_set shape out _ = ⊥

Adds-row1 :
    (P : SignaturePair → Type 0) (p q : Placement) (ps : List SignaturePair)
    (f : Builder → Outcome Builder)
    → P (p ∷ [], q ∷ [])
    → ((qs : List SignaturePair) → Adds 1 P qs (f (idle 1 1 qs [])))
    → Adds 1 P ps (add_row p q (idle 1 1 ps []) >>= f)
Adds-row1 P p q ps f h rest =
    let row : SignaturePair = (p ∷ [], q ∷ []) in
    Adds-then 1 P ps (add_row p q (idle 1 1 ps [])) f
      (record { rows = row ∷ []; result = add_row-idle p q ps; each = (h, tt) }) rest

all_reduced_loop-Adds :
    (dim_set : List ℕ) (shape out : Shape) (n i : ℕ) (ps : List SignaturePair)
    → i + n ≤ length shape
    → ((j : ℕ) → j < length shape → contains j dim_set ≡ true)
    → Adds 1 (IsReducePair dim_set shape out) ps (all_reduced_loop i n (idle 1 1 ps []))
unfolding all_reduced_loop
all_reduced_loop-Adds dim_set shape out zero i ps h all = Adds-none 1 _ ps
all_reduced_loop-Adds dim_set shape out (suc n) i ps h all =
    Adds-row1 (IsReducePair dim_set shape out) (shard_at i) replicated ps
      (all_reduced_loop (suc i) n) (by_reduced i (all i (omega arith)) (omega arith))
      (λ qs. all_reduced_loop-Adds dim_set shape out n (suc i) qs (omega arith) all)

none_negative-mark : (d : ℤ) → le_ℤ (pos 0) d ≡ true → (d ==ℤ negsuc 0) ≡ false
none_negative-mark d h = ground (arith, ==ℤ_iff d (negsuc 0))

or_true : (b : Bool) → (b || true) ≡ true
or_true true = refl
or_true false = refl

-- The rows of the loop over `ds`, with what it read before and what the output has by then.
abbrev Records : List ℕ → Bool → Shape → Shape → Shape → List SignaturePair → Type 0
Records dim_set keepdim before written ds ps =
    Adds 1
      (IsReducePair dim_set (before ++ ds)
        (written ++ collect keepdim (marked_from dim_set (length before) ds)))
      ps (reduce_loop dim_set keepdim (length before) (length written) (length ds) (idle 1 1 ps []))

-- A dimension was read, and one was written.
Records-both :
    (dim_set : List ℕ) (keepdim : Bool) (before written : Shape) (d x : ℤ) (ds : Shape)
    (ps : List SignaturePair)
    → Records dim_set keepdim (before ++ d ∷ []) (written ++ x ∷ []) ds ps
    → Adds 1
        (IsReducePair dim_set
          (before ++ d ∷ ds)
          (written ++ x ∷ collect keepdim (marked_from dim_set (suc (length before)) ds)))
        ps
        (reduce_loop dim_set keepdim
          (suc (length before))
          (suc (length written))
          (length ds)
          (idle 1 1 ps []))
Records-both dim_set keepdim before written d x ds ps more =
    let next : length (before ++ d ∷ []) ≡ suc (length before) =
      length-append before (d ∷ []) ∙ omega arith in
    let next' : length (written ++ x ∷ []) ≡ suc (length written) =
      length-append written (x ∷ []) ∙ omega arith in
    rw (append_assoc before (d ∷ []) ds, append_assoc written (x ∷ []) _, next, next') at more

reduce_loop-Records :
    (dim_set : List ℕ) (keepdim : Bool) (before written ds : Shape) (ps : List SignaturePair)
    → none_negative ds ≡ true
    → Records dim_set keepdim before written ds ps
unfolding reduce_loop none_negative collect
reduce_loop-Records dim_set keepdim before written [] ps h = Adds-none 1 _ ps
reduce_loop-Records dim_set keepdim before written (d ∷ ds) ps h =
    let (low, rest) = and-eq-true (le_ℤ (pos 0) d) (none_negative ds) h in
    let i = length before in
    let next : length (before ++ d ∷ []) ≡ suc i = length-append before (d ∷ []) ∙ omega arith in
    let inside : i < length (before ++ d ∷ ds) = omega (arith, length-append before (d ∷ ds)) in
    let both = λ (x : ℤ) (qs : List SignaturePair).
      Records-both dim_set keepdim before written d x ds qs
        (reduce_loop-Records dim_set keepdim (before ++ d ∷ []) (written ++ x ∷ []) ds qs rest) in
    elim (Bool-cases (contains i dim_set)) [
      | inl e ↦ elim (Bool-cases keepdim) [
        | inl keep ↦ rw (e, keep) (Adds-row1 _ _ _ ps _ (by_reduced i e inside) (both (pos 1)))
        | inr gone ↦
            rw (e, gone)
              (Adds-row1 _ _ _ ps _ (by_reduced i e inside) (λ qs.
                let more =
                  reduce_loop-Records dim_set keepdim (before ++ d ∷ []) written ds qs rest in
                rw (append_assoc before (d ∷ []) ds, next) at more))
      ]
      | inr e ↦
          rw (e, none_negative-mark d low, or_true keepdim)
            (Adds-row1 _ _ _ ps _
              (by_kept i (length written) d e (get_elem?-middle before ds d)
                (get_elem?-middle written _ d))
              (both d))
    ]

IsReducePair-IsRow :
    (dim_set : List ℕ) (shape out : Shape)
    → length shape ≤ 16
    → (row : SignaturePair) → IsReducePair dim_set shape out row
    → IsRow 1 1 row
IsReducePair-IsRow dim_set shape out few (p ∷ [], q ∷ []) (by_reduced i e h) =
    ((by_shard i (negsuc 0) (omega arith), tt), refl, refl)
IsReducePair-IsRow dim_set shape out few (p ∷ [], q ∷ []) (by_kept i j d e here there) =
    let h = lt_of_get_elem? shape i here in ((by_shard i (negsuc 0) (omega arith), tt), refl, refl)
IsReducePair-IsRow dim_set shape out few _ h = absurd h

abbrev pub replicated_pair : SignaturePair
replicated_pair = (replicated ∷ [], replicated ∷ [])

-- What the loops record, whether dimensions are named or not.
reduce_rows-Adds :
    (shape : Shape) (dims : List ℤ) (keepdim : Bool) (dim_set : List ℕ)
    → none_negative shape ≡ true
    → get_dim_set shape dims ≡ ok dim_set
    → (let out = collect keepdim (marked_from dim_set 0 shape) in
        Adds 1 (IsReducePair dim_set shape out) [] (
          if length dims == 0
          then all_reduced_loop 0 (length shape) (builder 1 1)
          else get_dim_set shape dims >>= λ found.
              reduce_loop found keepdim 0 0 (length shape) (builder 1 1)))
unfolding get_dim_set
reduce_rows-Adds shape [] keepdim dim_set low found =
    let e : axes_from 0 (length shape) ≡ dim_set = ok-injective found in
    all_reduced_loop-Adds dim_set shape _ (length shape) 0 [] (omega arith) (λ j k.
      ap (contains j) (sym e) ∙ contains-axes_from (length shape) 0 j (omega arith) (omega arith))
reduce_rows-Adds shape (dim ∷ dims) keepdim dim_set low found =
    let named : (length (dim ∷ dims) == 0) ≡ false = ground arith in
    let found' = rw named at found in
    rw (named, found') (reduce_loop-Records dim_set keepdim [] [] shape [] low)

pub reduce_signature-IsReducePair :
    (shape : Shape) (dims : List ℤ) (keepdim : Bool) {out : Shape}
    → length shape ≤ 16
    → reduce_shape shape dims keepdim ≡ ok out
    → (dim_set : List ℕ) × (get_dim_set shape dims ≡ ok dim_set)
      × ((s : PlacementSignature) × (reduce_signature shape dims keepdim ≡ ok s)
          × ((rows : List SignaturePair) × All (IsReducePair dim_set shape out) rows
              × (s.all_signature ≡ rows ++ replicated_pair ∷ [])))
unfolding reduce_shape reduce_signature
reduce_signature-IsReducePair shape dims keepdim {out} few h =
    let (found, a, h1) = >>=-eq-ok (reduced_shape shape dims keepdim) _ h in
    let fits = not (keepdim && not (can_broadcast_with shape found)) in
    let (u, b, h2) = >>=-eq-ok (throw_unless fits) (λ z. ok found) h1 in
    let (dim_set, c, low, e) = reduced_shape-collect shape dims keepdim a in
    let added = reduce_rows-Adds shape dims keepdim dim_set low c in
    let (s, done, (rows, sound, last)) =
      Adds-finish 1 (IsReducePair dim_set shape _) _ (omega arith)
        (IsReducePair-IsRow dim_set shape _ few) added in
    (
      dim_set,
      c,
      (
        s,
        done,
        (
          rows,
          subst (λ z. All (IsReducePair dim_set shape z) rows) (sym e ∙ ok-injective h2) sound,
          last,
        ),
      ),
    )
