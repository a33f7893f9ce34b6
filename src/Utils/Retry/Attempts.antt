-- ===== src/Utils/Retry/Attempts.antt =====
-- When a retried function gives its result, and how long the loop sleeps.
use anonka.Prelude.{
  ℕ, zero, suc, ◌+◌, ◌*◌, ◌≤◌, ◌≡◌, ◌↔◌, refl, sym, ap, ◌∙◌, List, [], ◌∷◌, none, some, Text, text,
  arith, ◌<◌, ltb, Bool-cases, inl, inr, true, false,
}
use native.Mathlib.Nat.{suc-mul}
use anonka.Utils.Retry.{
  RetryOptions, Settled, resolves, rejects, Attempted, succeeded, failed, race, delay_after,
  after_attempt, retry_from, with_retry, loop,
}

unfoldable pub slept : List ℕ → ℕ
slept [] = 0
slept (d ∷ ds) = d + slept ds

-- An attempt that rejects, or takes longer than the timeout.
pub data Fails {ℓ} {A : Type ℓ} (timeout : ℕ) : Settled A → Type ℓ where
  rejected : (ms : ℕ) (message : Text) → Fails timeout (rejects ms message)
  too_slow : (ms : ℕ) (a : A) → timeout < ms → Fails timeout (resolves ms a)

module _ {ℓ} {A : Type ℓ} (timeout : ℕ) where
  race_in_time :
      (x : Settled A) (a : A)
      → race timeout x ≡ succeeded a
      → (ms : ℕ) × (x ≡ resolves ms a) × (ms ≤ timeout)
  race_in_time (resolves ms b) a h = elim (Bool-cases (ltb timeout ms)) [
    | inl late ↦ let bad : failed (text "Operation timeout") ≡ succeeded a = rw late at h in cc
    | inr early ↦
        let is : succeeded b ≡ succeeded a = rw early at h in
        let same : b ≡ a = cc in (ms, ap (resolves ms) same, ground (arith, early))
  ]
  race_in_time (rejects ms message) a h = elim (Bool-cases (ltb timeout ms)) [
    | inl late ↦ let bad : failed (text "Operation timeout") ≡ succeeded a = rw late at h in cc
    | inr early ↦ let bad : failed message ≡ succeeded a = rw early at h in cc
  ]

  race_lost : (x : Settled A) (message : Text) → race timeout x ≡ failed message → Fails timeout x
  race_lost (resolves ms a) message h = elim (Bool-cases (ltb timeout ms)) [
    | inl late ↦ too_slow ms a (ground (arith, late))
    | inr early ↦ let bad : succeeded a ≡ failed message = rw early at h in cc
  ]
  race_lost (rejects ms reason) message h = rejected ms reason

  in_time-race : (ms : ℕ) (a : A) → ms ≤ timeout → race timeout (resolves ms a) ≡ succeeded a
  in_time-race ms a le = let early : ltb timeout ms ≡ false = ground arith in rw early refl

  Fails-race :
      (x : Settled A) → Fails timeout x → (message : Text) × (race timeout x ≡ failed message)
  Fails-race (rejects ms message) (rejected _ _) = elim (Bool-cases (ltb timeout ms)) [
    | inl late ↦ (text "Operation timeout", rw late refl)
    | inr early ↦ (message, rw early refl)
  ]
  Fails-race (resolves ms a) (too_slow _ _ lt) =
      let late : ltb timeout ms ≡ true = ground arith in (text "Operation timeout", rw late refl)

module _ {ℓ} {A : Type ℓ} (fn : ℕ → Settled A) (opts : RetryOptions) where
  -- An attempt that gives its value within the timeout, after attempts that all failed; `left` more
  -- attempts are allowed after this one.
  pub data Succeeds : ℕ → ℕ → A → Type ℓ where
    at_once :
        (attempt left ms : ℕ) (a : A)
        → fn attempt ≡ resolves ms a
        → ms ≤ opts.timeout
        → Succeeds attempt left a
    later :
        (attempt left : ℕ) (a : A)
        → Fails opts.timeout (fn attempt)
        → Succeeds (suc attempt) left a
        → Succeeds attempt (suc left) a

  after_last : (attempt : ℕ) (o : Attempted A) → (after_attempt fn opts attempt none o).1 ≡ o
  after_last attempt (succeeded a) = refl
  after_last attempt (failed message) = refl

  sound :
      (left attempt : ℕ) (a : A)
      → (retry_from fn opts attempt left).1 ≡ succeeded a
      → Succeeds attempt left a
  unfolding retry_from
  sound zero attempt a h =
      let (ms, is, le) =
        race_in_time opts.timeout (fn attempt) a
          (sym (after_last attempt (race opts.timeout (fn attempt))) ∙ h) in
      at_once attempt 0 ms a is le
  sound (suc left) attempt a h =
      by_outcome (race opts.timeout (fn attempt)) refl h (sound left (suc attempt) a)
    where
      by_outcome :
          (o : Attempted A)
          → race opts.timeout (fn attempt) ≡ o
          → (after_attempt fn opts attempt (some (retry_from fn opts (suc attempt) left)) o).1
            ≡ succeeded a
          → ((retry_from fn opts (suc attempt) left).1 ≡ succeeded a
              → Succeeds (suc attempt) left a)
          → Succeeds attempt (suc left) a
      by_outcome (succeeded b) is h again =
          let (ms, at, le) = race_in_time opts.timeout (fn attempt) a (is ∙ h) in
          at_once attempt (suc left) ms a at le
      by_outcome (failed message) is h again =
          later attempt left a (race_lost opts.timeout (fn attempt) message is) (again h)

  complete :
      (left attempt : ℕ) (a : A)
      → Succeeds attempt left a
      → (retry_from fn opts attempt left).1 ≡ succeeded a
  unfolding retry_from
  complete zero attempt a (at_once _ _ ms _ is le) =
      after_last attempt (race opts.timeout (fn attempt))
      ∙ (ap (race opts.timeout) is ∙ in_time-race opts.timeout ms a le)
  complete (suc left) attempt a (at_once _ _ ms _ is le) =
      ap
        (λ (o : Attempted A).
          (after_attempt fn opts attempt (some (retry_from fn opts (suc attempt) left)) o).1)
        (ap (race opts.timeout) is ∙ in_time-race opts.timeout ms a le)
  complete (suc left) attempt a (later _ _ _ lost again) =
      ap
        (λ (o : Attempted A).
          (after_attempt fn opts attempt (some (retry_from fn opts (suc attempt) left)) o).1)
        (Fails-race opts.timeout (fn attempt) lost).1
      ∙ complete left (suc attempt) a again

  after_slept :
      (attempt left : ℕ) (rest : List ℕ × Attempted A) (o : Attempted A)
      → slept rest.0 ≤ left * opts.max_delay_ms
      → slept (after_attempt fn opts attempt (some rest) o).0 ≤ suc left * opts.max_delay_ms
  unfolding slept
  after_slept attempt left rest (succeeded a) le = omega arith
  after_slept attempt left (delays, result) (failed message) le =
      let short : delay_after opts attempt ≤ opts.max_delay_ms = ground arith in
      omega (arith, le, short, suc-mul left opts.max_delay_ms)

  after_slept_last :
      (attempt : ℕ) (o : Attempted A) → slept (after_attempt fn opts attempt none o).0 ≤ 0
  unfolding slept
  after_slept_last attempt (succeeded a) = omega arith
  after_slept_last attempt (failed message) = omega arith

  -- The sleeps of the loop are at most the maximal delay for each attempt but the last one.
  pub slept-retry_from :
      (left attempt : ℕ) → slept (retry_from fn opts attempt left).0 ≤ left * opts.max_delay_ms
  unfolding retry_from
  slept-retry_from zero attempt =
      omega (arith, after_slept_last attempt (race opts.timeout (fn attempt)))
  slept-retry_from (suc left) attempt =
      after_slept attempt left (retry_from fn opts (suc attempt) left)
        (race opts.timeout (fn attempt)) (slept-retry_from left (suc attempt))

  -- With at least one attempt allowed, the function's result is returned exactly if one of the allowed
  -- attempts gives it within the timeout, and every one before rejected or took longer than that.
  pub with_retry_iff :
      (left : ℕ) (a : A)
      → opts.max_attempts ≡ suc left
      → ((with_retry fn opts).1 ≡ succeeded a) ↔ Succeeds 0 left a
  unfolding with_retry
  with_retry_iff left a some_left =
      let same : (with_retry fn opts).1 ≡ (retry_from fn opts 0 left).1 =
        ap (λ n. (loop fn opts n).1) some_left in
      (λ h. sound left 0 a (sym same ∙ h), λ s. same ∙ complete left 0 a s)
