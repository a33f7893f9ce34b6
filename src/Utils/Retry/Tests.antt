-- ===== src/Utils/Retry/Tests.antt =====
-- A function that is too slow at first.
use anonka.Prelude.{ℕ, zero, suc, ◌≡◌, ◌↔◌, refl, [], ◌∷◌, text}
use anonka.Utils.Retry.{
  Settled, resolves, rejects, succeeded, failed, default_options, with_retry, retry_from,
  with_blockchain_retry,
}
use anonka.Utils.Retry.Attempts.{slept, Succeeds, with_retry_iff}

retries : Unit {0}
unfolding with_retry with_blockchain_retry retry_from slept
retries = tt

abbrev slow_first : ℕ → Settled ℕ
slow_first zero = resolves 20_000 6
slow_first (suc _) = resolves 50 7

second_time : with_retry slow_first default_options ≡ (1_000 ∷ [], succeeded 7)
unfolding retries
second_time = refl

abbrev never : ℕ → Settled ℕ
never _ = rejects 5 (text "no")

in_vain :
    with_blockchain_retry never (text "transfer")
    ≡ (2_000 ∷ 4_000 ∷ [], failed (text "transfer failed after retries: no"))
unfolding retries
in_vain = refl

with_retry_iff_example :
    ((with_retry slow_first default_options).1 ≡ succeeded 7)
    ↔ Succeeds slow_first default_options 0 2 7
with_retry_iff_example = with_retry_iff slow_first default_options 2 7 refl
