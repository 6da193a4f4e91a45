-- ===== src/TensorStore/Exchange.antt =====
-- A tensor that is set is what every reader gets, as often as was announced.
use Prim.Native.String.{String}
use text.Mathlib.Text.{◌==◌ as str_eq}
use text.Mathlib.TextPositions.{eq_refl}
use dtorch.Base.{
  ℕ, zero, suc, ◌+◌, ◌≤◌, ◌<◌, ◌≡◌, refl, ap, ◌∙◌, subst, inl, inr, false, none, some, Option, [],
  ◌∷◌, arith, ltb, ◌==◌, ltb→lt, lt→ltb, Bool-cases, Outcome, ok, aborted, ◌>>=◌, assert_that,
  of_option, >>=-eq-ok, ok-injective,
}
use dtorch.DeviceMesh.{Device, DeviceKind}
use dtorch.TensorStore.{
  Entry, Store, lookup, assign, is_none, src_set, device_eq, actual_value, dest_get,
  dest_finish_get, get_finished,
}

-- `n` readers in turn.
unfoldable pub finish_gets : {T : Type 0} → ℕ → String → Store T → Outcome (Store T)
finish_gets zero key store = ok store
finish_gets (suc n) key store = do next ← dest_finish_get key store; finish_gets n key next

module _ {T : Type 0} where
  lookup-assign :
      (key : String) (e : Entry T) (store : Store T) {x : Entry T}
      → lookup key store ≡ some x
      → lookup key (assign key e store) ≡ some e
  unfolding lookup assign
  lookup-assign key e [] h = cc
  lookup-assign key e ((k, y) ∷ rest) h = elim (Bool-cases (str_eq k key)) [
    | inl q ↦ rw (q, q) refl
    | inr q ↦ rw (q, q) (lookup-assign key e rest (rw q at h))
  ]

  abbrev with_gets : T → ℕ → ℕ → Entry T
  with_gets value n k = record { tensor = value; target_get_count = n; actual_get_count = k }

  dest_finish_get-ok :
      (key : String) (store : Store T) (value : T) (n k : ℕ)
      → lookup key store ≡ some (with_gets value n k)
      → k < n
      → (next : Store T) × (dest_finish_get key store ≡ ok next)
        × (lookup key next ≡ some (with_gets value n (k + 1)))
  unfolding dest_finish_get
  dest_finish_get-ok key store value n k h below = (
    assign key (with_gets value n (k + 1)) store,
    rw (h, lt→ltb k n below) refl,
    lookup-assign key (with_gets value n (k + 1)) store h,
  )

  dest_finish_get-aborted :
      (key : String) (store : Store T) (value : T) (n : ℕ)
      → lookup key store ≡ some (with_gets value n n)
      → dest_finish_get key store ≡ aborted
  unfolding dest_finish_get
  dest_finish_get-aborted key store value n h =
      let no : ltb n n ≡ false = ground arith in rw (h, no) refl

  finish_gets-lookup :
      (m : ℕ) (key : String) (store : Store T) (value : T) (n k : ℕ)
      → lookup key store ≡ some (with_gets value n k)
      → k ≤ n
      → (k + m ≤ n
          → (next : Store T) × (finish_gets m key store ≡ ok next)
            × (lookup key next ≡ some (with_gets value n (k + m))))
        × (n < k + m → finish_gets m key store ≡ aborted)
  unfolding finish_gets
  finish_gets-lookup zero key store value n k h small = (
    λ _. (store, refl, h ∙ ap (λ z. some (with_gets value n z)) (omega arith)),
    λ big. absurd (omega arith),
  )
  finish_gets-lookup (suc m) key store value n k h small = elim (Bool-cases (ltb k n)) [
    | inr full ↦
        let same : k ≡ n = ground arith in
        (
          λ fits. absurd (omega arith),
          λ big.
              rw
                (dest_finish_get-aborted key store value n
                  (h ∙ ap (λ z. some (with_gets value n z)) same))
                refl,
        )
    | inl more ↦
        let below = ltb→lt k n more in
        let (next, run, found) = dest_finish_get-ok key store value n k h below in
        let (good, bad) = finish_gets-lookup m key next value n (k + 1) found (omega arith) in
        let sums : k + 1 + m ≡ k + suc m = omega arith in
        (
          λ fits.
              let (last, rest, at) = good (omega arith) in
              (
                last,
                ap (λ z. z >>= λ y. finish_gets m key y) run ∙ rest,
                at ∙ ap (λ z. some (with_gets value n z)) sums,
              ),
          λ big. ap (λ z. z >>= λ y. finish_gets m key y) run ∙ bad (omega arith),
        )
  ]

  pub src_set-finish_gets :
      (get_device : T → Device) (to_device : Device → T → T) (key : String) (value : T)
      (stream : Device) (n m : ℕ) (dest_kind : Option DeviceKind) (store : Store T)
      {set_store : Store T}
      → src_set get_device to_device key value stream n dest_kind store ≡ ok set_store
      → (m ≤ n
          → (next : Store T) × (finish_gets m key set_store ≡ ok next)
            × (dest_get key next ≡ some (actual_value get_device to_device dest_kind value))
            × (get_finished key next ≡ ok (m == n)))
        × (n < m → finish_gets m key set_store ≡ aborted)
  unfolding src_set dest_get get_finished
  src_set-finish_gets get_device to_device key original stream n m dest_kind store {set_store} h =
      let value = actual_value get_device to_device dest_kind original in
      let (w, b, h0) = >>=-eq-ok (assert_that (device_eq (get_device original) stream)) _ h in
      let (u, a, h1) = >>=-eq-ok (assert_that (is_none (lookup key store))) _ h0 in
      let here : lookup key set_store ≡ some (with_gets value n 0) =
        subst (λ z. lookup key z ≡ some (with_gets value n 0)) (ok-injective h1)
          (unfold lookup in rw (eq_refl key) refl) in
      let (good, bad) = finish_gets-lookup m key set_store value n 0 here (omega arith) in
      let zero_m : 0 + m ≡ m = omega arith in
      (
        λ fits.
            let (next, run, found) = good (omega arith) in
            let found' : lookup key next ≡ some (with_gets value n m) =
              found ∙ ap (λ z. some (with_gets value n z)) zero_m in
            (
              next,
              run,
              ap (λ z. elim z [ none ↦ none | some e ↦ some e.tensor ]) found',
              ap (λ z. of_option z >>= λ e. ok (e.actual_get_count == e.target_get_count)) found',
            ),
        λ big. bad (omega arith),
      )
