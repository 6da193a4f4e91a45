-- ===== src/Runner/Blobs.antt =====
-- The blobs of inputs and outputs, and the operands that a runner keeps.
use dtorch.Base.{
  ℕ, ◌≡◌, refl, sym, ap, ◌∙◌, subst, fun_ext, true, false, Option, none, some, List, [], ◌∷◌, arith,
  ==_refl, All, ok,
}
use dtorch.Base.Int.{ℤ, ==ℤ_iff}
use dtorch.Base.Keys.{
  Keys, insert, insert_all, erase_all, AllNew, AllErasable, is_some, keys, update, keys-update-some,
  keys-update-none,
}
use dtorch.DeviceMesh.{has}
use dtorch.Runner.{
  Output, AllDeviceBlobs, NaiveRunner, addresses, AreDistinct, delete_operand, new_blob, new_blobs,
  input_blobs, output_blobs, delete_operands,
}

abbrev pub operands : NaiveRunner → Keys
operands r = keys r.operand_to_blobs

pub some_of_is_some {ℓ} : {A : Type ℓ} (o : Option A) → is_some o ≡ true → (a : A) × (o ≡ some a)
some_of_is_some none h = cc
some_of_is_some (some a) h = (a, refl)

pub input_blobs-ok :
    (r : NaiveRunner) (xs : List ℕ)
    → All (λ x. operands r x ≡ true) xs
    → (bs : List AllDeviceBlobs) × (input_blobs r xs ≡ ok bs)
unfolding input_blobs
input_blobs-ok r [] h = ([], refl)
input_blobs-ok r (x ∷ xs) (h, hs) =
    let (b, e) = some_of_is_some (r.operand_to_blobs x) h in
    let (bs, rest) = input_blobs-ok r xs hs in (b ∷ bs, rw (e, rest) refl)

-- Ids that have no blob yet.
abbrev Apart : List ℤ → List ℤ → Type 0
Apart bs devices = All (λ d. has d bs ≡ false) devices

Apart-cons :
    (d : ℤ) (bs devices : List ℤ)
    → has d devices ≡ false
    → Apart bs devices
    → Apart (d ∷ bs) devices
unfolding has
Apart-cons d bs [] h k = tt
Apart-cons d bs (e ∷ es) h (k, ks) =
    (ground (arith, ==ℤ_iff d e, ==ℤ_iff e d), Apart-cons d bs es (ground arith) ks)

new_blobs-ok :
    (x : ℕ) (r : NaiveRunner) (bs devices : List ℤ)
    → r.operand_to_blobs x ≡ some bs
    → AreDistinct devices
    → Apart bs devices
    → (r' : NaiveRunner) × (new_blobs x r devices ≡ ok r')
      × (operands r' ≡ insert x (operands r))
      × (r'.supported_devices ≡ r.supported_devices)
unfolding new_blobs new_blob
new_blobs-ok x r bs [] e h k =
    (r, refl, fun_ext (λ y. ground (arith, e, ap (operands r) {x = x} {y = y})), refl)
new_blobs-ok x r bs (d ∷ devices) e (h, hs) (k, ks) =
    let r1 : NaiveRunner = record r {
      operand_to_blobs = update x (some (d ∷ bs)) r.operand_to_blobs;
    } in
    let here : r1.operand_to_blobs x ≡ some (d ∷ bs) = rw (==_refl x) refl in
    let (r', run, same, kept) =
      new_blobs-ok x r1 (d ∷ bs) devices here hs (Apart-cons d bs devices h ks) in
    let twice : insert x (insert x (operands r)) ≡ insert x (operands r) =
      fun_ext (λ y. ground arith) in
    (
      r',
      rw (e, k) run,
      same ∙ ap (insert x) (keys-update-some x (d ∷ bs) r.operand_to_blobs) ∙ twice,
      kept,
    )

pub output_blobs-ok :
    (r : NaiveRunner) (os : List Output)
    → AllNew (operands r) (addresses os)
    → All (λ o. AreDistinct o.device_id_set) os
    → (r' : NaiveRunner) × (bs : List AllDeviceBlobs) × (output_blobs r os ≡ ok (r', bs))
      × (operands r' ≡ insert_all (addresses os) (operands r))
      × (r'.supported_devices ≡ r.supported_devices)
unfolding output_blobs
output_blobs-ok r [] h k = (r, [], refl, refl, refl)
output_blobs-ok r (o ∷ os) (h, hs) (k, ks) =
    let r1 : NaiveRunner = record r {
      operand_to_blobs = update o.address (some []) r.operand_to_blobs;
    } in
    let here : r1.operand_to_blobs o.address ≡ some [] = rw (==_refl o.address) refl in
    let (r2, run, same, kept) =
      new_blobs-ok o.address r1 [] o.device_id_set here k (Apart-nil o.device_id_set) in
    let twice : insert o.address (insert o.address (operands r)) ≡ insert o.address (operands r) =
      fun_ext (λ y. ground arith) in
    let now : operands r2 ≡ insert o.address (operands r) =
      same ∙ ap (insert o.address) (keys-update-some o.address [] r.operand_to_blobs) ∙ twice in
    let there : operands r2 o.address ≡ true =
      ap (λ z. z o.address) now ∙ rw (==_refl o.address) refl in
    let (b, found) = some_of_is_some (r2.operand_to_blobs o.address) there in
    let (r3, bs, rest, last, still) =
      output_blobs-ok r2 os (subst (λ z. AllNew z (addresses os)) (sym now) hs) ks in
    (
      r3,
      b ∷ bs,
      rw (h, run, found, rest) refl,
      last ∙ ap (insert_all (addresses os)) now,
      still ∙ kept,
    )
  where
    Apart-nil : (devices : List ℤ) → Apart [] devices
    Apart-nil [] = tt
    Apart-nil (d ∷ ds) = (unfold has in refl, Apart-nil ds)

pub delete_operands-ok :
    (r : NaiveRunner) (xs : List ℕ)
    → AllErasable (operands r) xs
    → (r' : NaiveRunner) × (delete_operands r xs ≡ ok r')
      × (operands r' ≡ erase_all xs (operands r))
      × (r'.supported_devices ≡ r.supported_devices)
unfolding delete_operands delete_operand
delete_operands-ok r [] h = (r, refl, refl, refl)
delete_operands-ok r (x ∷ xs) (h, hs) =
    let r1 : NaiveRunner = record r { operand_to_blobs = update x none r.operand_to_blobs } in
    let less = keys-update-none x r.operand_to_blobs in
    let (r', run, same, kept) =
      delete_operands-ok r1 xs (subst (λ z. AllErasable z xs) (sym less) hs) in
    (r', rw h run, same ∙ ap (erase_all xs) less, kept)
