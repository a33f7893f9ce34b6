-- ===== src/Telegram/Flood/Tests.antt =====
-- Flood errors at concrete inputs.
use anonka.Prelude.{ℕ, zero, suc, ◌≡◌, ◌↔◌, refl, [], ◌∷◌, none, some, text, text_eq}
use anonka.Prelude.Dicts.{lookup, insert, delete}
use anonka.Telegram.Flood.{
  ApiError, wait_seconds_of, wait_for, Outcome, succeeds, fails, returned, with_flood_retry,
}
use anonka.Telegram.Flood.Gate.{floods, sends, run, decay_times}
use anonka.Telegram.Flood.Retry.{Retries, with_flood_retry_iff}

flood : Unit {0}
unfolding run decay_times wait_for wait_seconds_of with_flood_retry lookup insert delete text_eq
flood = tt

abbrev too_many : ApiError
too_many = record {
  seconds = none;
  error_code = some 429;
  description = some (text "Too Many Requests: Retry After 35");
}

parsed_wait : wait_seconds_of too_many ≡ some 35
unfolding flood
parsed_wait = refl

-- The first attempt is refused, and the second one succeeds.
abbrev second_time : ℕ → Outcome ℕ
second_time zero = fails too_many
second_time (suc _) = succeeds 7

retried : (with_flood_retry second_time 120 2).1 ≡ returned 7
unfolding flood
retried = refl

-- A success while the cooldown runs leaves the spacing as it is; one after it starts a new one.
spacing :
    wait_for (run [] (floods (text "5") 10 0 ∷ sends (text "5") 9_999 ∷ [])) (text "5") 9_999 ≡ 1
unfolding flood
spacing = refl

spacing_again :
    wait_for (run [] (floods (text "5") 10 0 ∷ sends (text "5") 10_000 ∷ [])) (text "5") 10_000
    ≡ 10_000
unfolding flood
spacing_again = refl

with_flood_retry_iff_example :
    ((with_flood_retry second_time 120 2).1 ≡ returned 7) ↔ Retries second_time 120 0 2 7
with_flood_retry_iff_example = with_flood_retry_iff second_time 120 2 7
