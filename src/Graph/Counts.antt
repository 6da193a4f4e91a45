-- ===== src/Graph/Counts.antt =====
-- The counts of tensors under each operation of the constructor.
use Prim.Native.String.{String}
use mathlib.Core.List.{append-nil, append_assoc}
use dtorch.Base.{
  ℕ, ◌+◌, ◌-◌, ◌<◌, ◌≡◌, refl, sym, ap, ◌∙◌, subst, fun_ext, ◌⊎◌, inl, inr, Bool, true, false, ◌||◌,
  Option, none, some, List, [], ◌∷◌, ◌++◌, arith, leb, ◌==◌, ==_refl, Bool-cases, All, ok,
}
use dtorch.Base.Keys.{
  bump, bump_all, lower, Keys, member, insert, erase, insert_all, AllNew, keys, update,
  keys-update-some, keys-update-none,
}
use dtorch.Cluster.{ClusterInfo, check_support}
use dtorch.Runner.{Output, Op, addresses}
use dtorch.Runner.Blobs.{some_of_is_some}
use dtorch.Graph.{
  Message, add_operator, api_tensor_no_hold, set_operand_name, OperandCache, GraphConstructor,
  push_message, init_operand_cache, init_operand_caches, send_operator_to_executor,
  ref_count_increase, ref_count_decrease, new_tensors, all_true, add_operator_to_graph,
  set_name_of_operand,
}

abbrev pub cached : GraphConstructor → Keys
cached g = keys g.operand_caches

abbrev pub count_of : Option OperandCache → ℕ
count_of none = 0
count_of (some c) = c.api_tensor_ref_count

abbrev pub tally : GraphConstructor → ℕ → ℕ
tally g = λ x. count_of (g.operand_caches x)

-- An operand in the cache is held by a tensor, but for those listed.
abbrev CountedBut : List ℕ → GraphConstructor → Type 0
CountedBut xs g =
    (x : ℕ) (c : OperandCache)
    → g.operand_caches x ≡ some c
    → member x xs ≡ false
    → 0 < c.api_tensor_ref_count

abbrev pub IsCounted : GraphConstructor → Type 0
IsCounted g = (x : ℕ) (c : OperandCache) → g.operand_caches x ≡ some c → 0 < c.api_tensor_ref_count

member-append : (x : ℕ) (xs ys : List ℕ) → member x (xs ++ ys) ≡ (member x xs || member x ys)
member-append x [] ys = refl
member-append x (y ∷ xs) ys = ground (arith, member-append x xs ys)

abbrev write : ℕ → OperandCache → GraphConstructor → GraphConstructor
write x c g = record g { operand_caches = update x (some c) g.operand_caches }

CountedBut-init :
    (a : ℕ) (c0 : OperandCache) (done : List ℕ) (g : GraphConstructor)
    → CountedBut done g
    → CountedBut (done ++ a ∷ []) (write a c0 g)
CountedBut-init a c0 done g v x c e k = elim (Bool-cases (a == x)) [
  | inl q ↦ absurd (ground (arith, member-append x done (a ∷ [])))
  | inr q ↦ v x c (rw q at e) (ground (arith, member-append x done (a ∷ [])))
]

-- A write of a count of at least one.
CountedBut-write :
    (a : ℕ) (c0 : OperandCache) (xs : List ℕ) (g : GraphConstructor)
    → 0 < c0.api_tensor_ref_count
    → CountedBut (a ∷ xs) g
    → CountedBut xs (write a c0 g)
CountedBut-write a c0 xs g h v x c e k = elim (Bool-cases (a == x)) [
  | inl q ↦ let same : some c0 ≡ some c = rw q at e in ground arith
  | inr q ↦ v x c (rw q at e) (rw q k)
]

init_operand_caches-ok :
    (os : List Output) (done : List ℕ) (g : GraphConstructor)
    → AllNew (cached g) (addresses os)
    → CountedBut done g
    → (g' : GraphConstructor) × (init_operand_caches g os ≡ ok g')
      × (cached g' ≡ insert_all (addresses os) (cached g))
      × (g'.messages ≡ g.messages)
      × CountedBut (done ++ addresses os) g'
      × (tally g' ≡ tally g)
unfolding init_operand_caches init_operand_cache
init_operand_caches-ok [] done g h v = (g, refl, refl, refl, rw append-nil v, refl)
init_operand_caches-ok (o ∷ os) done g (h, hs) v =
    let fresh : OperandCache = record { name = o.name; api_tensor_ref_count = 0 } in
    let g1 : GraphConstructor = record g {
      operand_caches = update o.address (some fresh) g.operand_caches;
    } in
    let more = keys-update-some o.address fresh g.operand_caches in
    let v1 : CountedBut (done ++ o.address ∷ []) g1 = CountedBut-init o.address fresh done g v in
    let (g', run, same, kept, v2, counts) =
      init_operand_caches-ok os (done ++ o.address ∷ []) g1
        (subst (λ z. AllNew z (addresses os)) (sym more) hs) v1 in
    (
      g',
      rw h run,
      same ∙ ap (insert_all (addresses os)) more,
      kept,
      subst (λ z. CountedBut z g') (append_assoc done (o.address ∷ []) (addresses os)) v2,
      counts ∙ fun_ext (λ y. ground (arith, h, ap (cached g) {x = o.address} {y = y})),
    )

ref_count_increase-ok :
    (x : ℕ) (xs : List ℕ) (g : GraphConstructor)
    → cached g x ≡ true
    → CountedBut (x ∷ xs) g
    → (g' : GraphConstructor) × (ref_count_increase g x ≡ ok g')
      × (cached g' ≡ cached g)
      × (g'.messages ≡ g.messages)
      × CountedBut xs g'
      × (tally g' ≡ bump x (tally g))
unfolding ref_count_increase
ref_count_increase-ok x xs g h v =
    let (c, here) = some_of_is_some (g.operand_caches x) h in
    let more : OperandCache = record c { api_tensor_ref_count = c.api_tensor_ref_count + 1 } in
    (
      record g { operand_caches = update x (some more) g.operand_caches },
      rw here refl,
      keys-update-some x more g.operand_caches
          ∙ fun_ext (λ y. ground (arith, h, ap (cached g) {x = x} {y = y})),
      refl,
      CountedBut-write x more xs g (omega arith) v,
      fun_ext (λ y. ground (arith, here, ap g.operand_caches {x = x} {y = y})),
    )

new_tensors-ok :
    (os : List Output) (g : GraphConstructor)
    → All (λ x. cached g x ≡ true) (addresses os)
    → CountedBut (addresses os) g
    → (g' : GraphConstructor) × (new_tensors g os ≡ ok g')
      × (cached g' ≡ cached g)
      × (g'.messages ≡ g.messages)
      × IsCounted g'
      × (tally g' ≡ bump_all (addresses os) (tally g))
unfolding new_tensors
new_tensors-ok [] g h v = (g, refl, refl, refl, λ x c e. v x c e refl, refl)
new_tensors-ok (o ∷ os) g (h, hs) v =
    let (g1, one, same, kept, v1, c1) = ref_count_increase-ok o.address (addresses os) g h v in
    let (g2, two, last, still, v2, c2) =
      new_tensors-ok os g1 (subst (λ z. All (λ x. z x ≡ true) (addresses os)) (sym same) hs) v1 in
    (g2, rw (h, one) two, last ∙ same, still ∙ kept, v2, c2 ∙ ap (bump_all (addresses os)) c1)

-- What was inserted is there.
insert_all-there : (xs : List ℕ) (s : Keys) (x : ℕ) → s x ≡ true → insert_all xs s x ≡ true
insert_all-there [] s x h = h
insert_all-there (y ∷ xs) s x h = insert_all-there xs (insert y s) x (ground arith)

insert_all-All : (xs : List ℕ) (s : Keys) → All (λ x. insert_all xs s x ≡ true) xs
insert_all-All [] s = tt
insert_all-All (x ∷ xs) s =
    (insert_all-there xs (insert x s) x (rw (==_refl x) refl), insert_all-All xs (insert x s))

-- What a call leaves: the message that it sent, the operands in the cache, each with its tensors.
pub record Sent (g g' : GraphConstructor) (m : Message) (held : Keys) (counts : ℕ → ℕ)
    : Type 0 where
  pub messages : g'.messages ≡ g.messages ++ m ∷ []
  pub in_cache : cached g' ≡ held
  pub counted : IsCounted g'
  pub tallied : tally g' ≡ counts

-- An operator with new outputs is accepted: no assertion fails where the inputs are of one graph
-- and the cluster has the devices.
pub add_operator_to_graph-Sent :
    (g : GraphConstructor) (cluster : ClusterInfo) (same_graph : List Bool) (op : Op) {u : Unit {0}}
    → IsCounted g
    → AllNew (cached g) (addresses op.outputs)
    → all_true same_graph ≡ true
    → check_support cluster op.assign_info ≡ ok u
    → (g' : GraphConstructor) × (add_operator_to_graph g cluster same_graph (ok op) ≡ ok g')
      × Sent g g'
          (add_operator op)
          (insert_all (addresses op.outputs) (cached g))
          (bump_all (addresses op.outputs) (tally g))
unfolding add_operator_to_graph send_operator_to_executor
add_operator_to_graph-Sent g cluster same_graph op v new same supported =
    let outs = addresses op.outputs in
    let (g1, one, more, kept, v1, c1) =
      init_operand_caches-ok op.outputs [] g new (λ x c e k. v x c e) in
    let (g2, two, last, still, v2, c2) =
      new_tensors-ok op.outputs (push_message (add_operator op) g1)
        (subst (λ z. All (λ x. z x ≡ true) outs) (sym more) (insert_all-All outs (cached g))) v1 in
    (
      g2,
      rw (same, supported, one) two,
      record {
        messages = still ∙ ap (λ z. z ++ add_operator op ∷ []) kept;
        in_cache = last ∙ more;
        counted = v2;
        tallied = c2 ∙ ap (bump_all outs) c1;
      },
    )

IsCounted-erase :
    (x : ℕ) (g : GraphConstructor)
    → IsCounted g
    → IsCounted (record g { operand_caches = update x none g.operand_caches })
IsCounted-erase x g v y c e = elim (Bool-cases (x == y)) [
  | inl q ↦ let gone : none ≡ some c = rw q at e in cc
  | inr q ↦ v y c (rw q at e)
]

-- A tensor that is made of an operand in the cache.
pub ref_count_increase-Counted :
    (g : GraphConstructor) (x : ℕ)
    → IsCounted g
    → cached g x ≡ true
    → (g' : GraphConstructor) × (ref_count_increase g x ≡ ok g')
      × (g'.messages ≡ g.messages)
      × (cached g' ≡ cached g)
      × IsCounted g'
      × (tally g' ≡ bump x (tally g))
ref_count_increase-Counted g x v h =
    let (g', run, same, kept, v', counts) = ref_count_increase-ok x [] g h (λ y c e k. v y c e) in
    (g', run, kept, same, λ y c e. v' y c e refl, counts)

-- A tensor that ends: with the last one the operand leaves the cache, and a message says so.
pub ref_count_decrease-Counted :
    (g : GraphConstructor) (x : ℕ)
    → IsCounted g
    → cached g x ≡ true
    → (g' : GraphConstructor) × (ref_count_decrease g x ≡ ok g')
      × (Sent g g' (api_tensor_no_hold x) (erase x (cached g)) (lower x (tally g))
          ⊎ ((g'.messages ≡ g.messages)
              × (cached g' ≡ cached g)
              × IsCounted g'
              × (tally g' ≡ lower x (tally g))))
unfolding ref_count_decrease
ref_count_decrease-Counted g x v h =
    let (c, here) = some_of_is_some (g.operand_caches x) h in
    let counted = v x c here in
    let tested : leb 1 c.api_tensor_ref_count ≡ true = ground arith in
    elim (Bool-cases (c.api_tensor_ref_count == 1)) [
      | inl last ↦ (
        push_message (api_tensor_no_hold x)
            (record g { operand_caches = update x none g.operand_caches }),
        rw (here, tested, last) refl,
        inl (record {
          messages = refl;
          in_cache = keys-update-none x g.operand_caches;
          counted = IsCounted-erase x g v;
          tallied = fun_ext (λ y. ground (arith, here, last, ap g.operand_caches {x = x} {y = y}));
        }),
      )
      | inr more ↦
          let fewer : OperandCache = record c {
            api_tensor_ref_count = c.api_tensor_ref_count - 1;
          } in
          (
            write x fewer g,
            rw (here, tested, more) refl,
            inr (
              refl,
              keys-update-some x fewer g.operand_caches
                  ∙ fun_ext (λ y. ground (arith, h, ap (cached g) {x = x} {y = y})),
              λ y d e.
                  CountedBut-write x fewer [] g (ground arith) (λ z d' e' k. v z d' e') y d e refl,
              fun_ext (λ y. ground (arith, here, ap g.operand_caches {x = x} {y = y})),
            ),
          )
    ]

-- A name.
pub set_name_of_operand-Sent :
    (g : GraphConstructor) (x : ℕ) (name : String)
    → IsCounted g
    → cached g x ≡ true
    → (g' : GraphConstructor) × (set_name_of_operand g x name ≡ ok g')
      × Sent g g' (set_operand_name x name) (cached g) (tally g)
unfolding set_name_of_operand
set_name_of_operand-Sent g x name v h =
    let (c, here) = some_of_is_some (g.operand_caches x) h in
    let named : OperandCache = record c { name = name } in
    (
      push_message (set_operand_name x name) (write x named g),
      rw here refl,
      record {
        messages = refl;
        in_cache =
            keys-update-some x named g.operand_caches
            ∙ fun_ext (λ y. ground (arith, h, ap (cached g) {x = x} {y = y}));
        counted =
            λ y d e. CountedBut-write x named [] g (v x c here) (λ z d' e' k. v z d' e') y d e refl;
        tallied = fun_ext (λ y. ground (arith, here, ap g.operand_caches {x = x} {y = y}));
      },
    )
