-- ===== src/Telegram/Flood/Retry.antt =====
-- The retry loop.
use anonka.Prelude.{
  ℕ, zero, suc, ◌+◌, ◌*◌, ◌≤◌, ◌≡◌, ◌↔◌, refl, ap, ◌∙◌, false, List, [], ◌∷◌, Option, none, some,
  ltb, arith, Bool-cases, inl, inr,
}
use native.Mathlib.Nat.{suc-mul}
use anonka.Telegram.Flood.{
  ApiError, wait_seconds_of, FloodAction, calls, sleeps, Outcome, succeeds, fails, RetryResult,
  returned, thrown, exceeds_max, failed, attempted, retry_from, with_flood_retry,
}

unfoldable pub call_count : List FloodAction → ℕ
call_count [] = 0
call_count (calls _ ∷ actions) = suc (call_count actions)
call_count (_ ∷ actions) = call_count actions

unfoldable pub slept : List FloodAction → ℕ
slept [] = 0
slept (sleeps ms ∷ actions) = ms + slept actions
slept (_ ∷ actions) = slept actions

module _ {ℓ} {A : Type ℓ} (fn : ℕ → Outcome A) (w : ℕ) where
  -- An attempt that succeeds, after attempts that were refused with a wait within the maximum.
  pub data Retries : ℕ → ℕ → A → Type ℓ where
    at_once : (attempt left : ℕ) (a : A) → fn attempt ≡ succeeds a → Retries attempt left a
    later :
        (attempt left : ℕ) (a : A) (error : ApiError) (seconds : ℕ)
        → fn attempt ≡ fails error
        → wait_seconds_of error ≡ some seconds
        → seconds ≤ w
        → Retries (suc attempt) left a
        → Retries attempt (suc left) a

  abbrev pub InBounds : ℕ → List FloodAction → Type 0
  InBounds left actions = (call_count actions ≤ suc left) × (slept actions ≤ left * (w * 1_000))

  failed_last-InBounds :
      (error : ApiError) (o : Option ℕ)
      → (call_count (failed fn w error none o).0 ≤ 0) × (slept (failed fn w error none o).0 ≤ 0)
  unfolding call_count slept
  failed_last-InBounds error none = (omega arith, omega arith)
  failed_last-InBounds error (some seconds) = elim (Bool-cases (ltb w seconds)) [
    | inl long ↦ rw long (omega arith, omega arith)
    | inr short ↦ rw short (omega arith, omega arith)
  ]

  attempted_last-InBounds :
      (attempt : ℕ) (o : Outcome A) → InBounds 0 (attempted fn w attempt none o).0
  unfolding call_count slept
  attempted_last-InBounds attempt (succeeds a) = (omega arith, omega arith)
  attempted_last-InBounds attempt (fails error) =
      let (count, time) = failed_last-InBounds error (wait_seconds_of error) in
      (omega (arith, count), omega (arith, time))

  module _ (left : ℕ) (rest : List FloodAction × RetryResult A)
      (bounds : InBounds left rest.0) where
    failed-InBounds :
        (error : ApiError) (o : Option ℕ)
        → (call_count (failed fn w error (some rest) o).0 ≤ suc left)
          × (slept (failed fn w error (some rest) o).0 ≤ suc left * (w * 1_000))
    unfolding call_count slept
    failed-InBounds error none = (omega arith, omega arith)
    failed-InBounds error (some seconds) = elim (Bool-cases (ltb w seconds)) [
      | inl long ↦ rw long (omega arith, omega arith)
      | inr short ↦
          let le : seconds ≤ w = ground arith in
          rw short (bounds.0, omega (arith, bounds.1, le, suc-mul left (w * 1_000)))
    ]

    attempted-InBounds :
        (attempt : ℕ) (o : Outcome A) → InBounds (suc left) (attempted fn w attempt (some rest) o).0
    unfolding call_count slept
    attempted-InBounds attempt (succeeds a) = (omega arith, omega arith)
    attempted-InBounds attempt (fails error) =
        let (count, time) = failed-InBounds error (wait_seconds_of error) in
        (omega (arith, count), time)

  retry_from-InBounds : (left attempt : ℕ) → InBounds left (retry_from fn w attempt left).0
  unfolding retry_from
  retry_from-InBounds zero attempt = attempted_last-InBounds attempt (fn attempt)
  retry_from-InBounds (suc left) attempt =
      attempted-InBounds left (retry_from fn w (suc attempt) left)
        (retry_from-InBounds left (suc attempt)) attempt (fn attempt)

  -- However the function fails, it is called at most once more than there are retries, and the sleeps
  -- take at most the maximal wait for each of them.
  pub with_flood_retry-InBounds :
      (max_retries : ℕ) → InBounds max_retries (with_flood_retry fn w max_retries).0
  unfolding with_flood_retry
  with_flood_retry-InBounds max_retries = retry_from-InBounds max_retries 0

  returned_last :
      (attempt : ℕ) (o : Outcome A) (a : A)
      → (attempted fn w attempt none o).1 ≡ returned a
      → o ≡ succeeds a
  returned_last attempt (succeeds b) a h = ap succeeds cc
  returned_last attempt (fails error) a h = absurd (not_returned (wait_seconds_of error) h)
    where
      not_returned : (o : Option ℕ) → ¬ ((failed fn w error none o).1 ≡ returned a)
      not_returned none h = cc
      not_returned (some seconds) h = elim (Bool-cases (ltb w seconds)) [
        | inl long ↦ let e : exceeds_max seconds ≡ returned a = rw (long, failed) at h in cc
        | inr short ↦ let e : thrown error ≡ returned a = rw (short, failed) at h in cc
      ]

  -- A failed attempt leads to a result only by the rest of the loop, after a short wait.
  returned_failed :
      (error : ApiError) (rest : List FloodAction × RetryResult A) (o : Option ℕ) (a : A)
      → (failed fn w error (some rest) o).1 ≡ returned a
      → (seconds : ℕ) × (o ≡ some seconds) × (seconds ≤ w) × (rest.1 ≡ returned a)
  returned_failed error rest none a h = cc
  returned_failed error (actions, result) (some seconds) a h = elim (Bool-cases (ltb w seconds)) [
    | inl long ↦ let e : exceeds_max seconds ≡ returned a = rw (long, failed) at h in cc
    | inr short ↦ (seconds, refl, ground arith, rw (short, failed) at h)
  ]

  Retries-sound :
      (left attempt : ℕ) (a : A)
      → (retry_from fn w attempt left).1 ≡ returned a
      → Retries attempt left a
  unfolding retry_from
  Retries-sound zero attempt a h = at_once attempt 0 a (returned_last attempt (fn attempt) a h)
  Retries-sound (suc left) attempt a h =
      by_outcome (fn attempt) refl h (Retries-sound left (suc attempt) a)
    where
      by_outcome :
          (o : Outcome A)
          → fn attempt ≡ o
          → (attempted fn w attempt (some (retry_from fn w (suc attempt) left)) o).1 ≡ returned a
          → ((retry_from fn w (suc attempt) left).1 ≡ returned a → Retries (suc attempt) left a)
          → Retries attempt (suc left) a
      by_outcome (succeeds b) is h again = at_once attempt (suc left) a (is ∙ ap succeeds cc)
      by_outcome (fails error) is h again =
          let (seconds, waits, le, rest) =
            returned_failed error (retry_from fn w (suc attempt) left) (wait_seconds_of error) a
              h in
          later attempt left a error seconds is waits le (again rest)

  Retries-complete :
      (left attempt : ℕ) (a : A)
      → Retries attempt left a
      → (retry_from fn w attempt left).1 ≡ returned a
  unfolding retry_from
  Retries-complete zero attempt a (at_once _ _ _ is) =
      ap (λ (o : Outcome A). (attempted fn w attempt none o).1) is
  Retries-complete (suc left) attempt a (at_once _ _ _ is) =
      ap
        (λ (o : Outcome A).
          (attempted fn w attempt (some (retry_from fn w (suc attempt) left)) o).1)
        is
  Retries-complete (suc left) attempt a (later _ _ _ error seconds is waits le again) =
      ap
        (λ (o : Outcome A).
          (attempted fn w attempt (some (retry_from fn w (suc attempt) left)) o).1)
        is
      ∙ ap (λ (o : Option ℕ). (failed fn w error (some (retry_from fn w (suc attempt) left)) o).1)
          waits
      ∙ rw short (Retries-complete left (suc attempt) a again)
    where
      short : ltb w seconds ≡ false
      short = ground arith

  -- The loop returns a result exactly if an attempt within the retries gives that result, and every
  -- attempt before it failed with a flood wait within the maximum.
  pub with_flood_retry_iff :
      (max_retries : ℕ) (a : A)
      → ((with_flood_retry fn w max_retries).1 ≡ returned a) ↔ Retries 0 max_retries a
  unfolding with_flood_retry
  with_flood_retry_iff max_retries a =
      (Retries-sound max_retries 0 a, Retries-complete max_retries 0 a)
