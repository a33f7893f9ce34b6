-- ===== src/Utils/Retry.antt =====
-- src/utils/retry.ts: retries with a growing delay and a timeout. An attempt settles after a time with a
-- value or an error's message; one that takes longer than the timeout has lost the race to it. The
-- result comes with the delays that were slept.
pub mod Attempts
pub mod Tests
use anonka.Prelude.{
  ℕ, zero, suc, ◌+◌, ◌-◌, ◌*◌, ◌^◌, List, [], ◌∷◌, ◌++◌, Option, none, some, Text, text,
  if◌then◌else◌, ltb, leb,
}

pub record RetryOptions : Type 0 where
  pub max_attempts : ℕ
  pub base_delay_ms : ℕ
  pub max_delay_ms : ℕ
  pub timeout : ℕ

abbrev pub default_options : RetryOptions
default_options = record {
  max_attempts = 3;
  base_delay_ms = 1_000;
  max_delay_ms = 10_000;
  timeout = 15_000;
}

abbrev pub blockchain_options : RetryOptions
blockchain_options = record {
  max_attempts = 3;
  base_delay_ms = 2_000;
  max_delay_ms = 15_000;
  timeout = 30_000;
}

pub data Settled {ℓ} (A : Type ℓ) : Type ℓ where
  resolves : (ms : ℕ) → A → Settled A
  rejects : (ms : ℕ) (message : Text) → Settled A

pub data Attempted {ℓ} (A : Type ℓ) : Type ℓ where
  succeeded : A → Attempted A
  failed : (message : Text) → Attempted A

abbrev pub race {ℓ} : {A : Type ℓ} → ℕ → Settled A → Attempted A
race timeout (resolves ms a) =
    if ltb timeout ms then failed (text "Operation timeout") else succeeded a
race timeout (rejects ms message) =
    if ltb timeout ms then failed (text "Operation timeout") else failed message

abbrev pub min : ℕ → ℕ → ℕ
min a b = if leb a b then a else b

-- The delay after an attempt, the first of which has the number 0 here.
abbrev pub delay_after : RetryOptions → ℕ → ℕ
delay_after opts attempt = min (opts.base_delay_ms * 2 ^ attempt) opts.max_delay_ms

module _ {ℓ} {A : Type ℓ} (fn : ℕ → Settled A) (opts : RetryOptions) where
  -- What an attempt leads to: `rest` is what follows the delay, if an attempt is left.
  abbrev pub after_attempt : ℕ → Option (List ℕ × Attempted A) → Attempted A → List ℕ × Attempted A
  after_attempt attempt rest (succeeded a) = ([], succeeded a)
  after_attempt attempt none (failed message) = ([], failed message)
  after_attempt attempt (some (delays, result)) (failed message) =
      (delay_after opts attempt ∷ delays, result)

  -- The loop from an attempt on, with this many attempts after it.
  unfoldable pub retry_from : ℕ → ℕ → List ℕ × Attempted A
  retry_from attempt zero = after_attempt attempt none (race opts.timeout (fn attempt))
  retry_from attempt (suc left) =
      let rest = retry_from (suc attempt) left in
      after_attempt attempt (some rest) (race opts.timeout (fn attempt))

  abbrev pub loop : ℕ → List ℕ × Attempted A
  loop zero = ([], failed (text "All retry attempts failed"))
  loop (suc left) = retry_from 0 left

  unfoldable pub with_retry : List ℕ × Attempted A
  unfolding retry_from
  with_retry = loop opts.max_attempts

abbrev pub describe {ℓ} : {A : Type ℓ} → Text → Attempted A → Attempted A
describe operation (succeeded a) = succeeded a
describe operation (failed message) =
    failed (operation ++ (text " failed after retries: " ++ message))

unfoldable pub with_blockchain_retry {ℓ} :
    {A : Type ℓ} → (ℕ → Settled A) → Text → List ℕ × Attempted A
unfolding with_retry
with_blockchain_retry fn operation =
    let (delays, result) = with_retry fn blockchain_options in (delays, describe operation result)
