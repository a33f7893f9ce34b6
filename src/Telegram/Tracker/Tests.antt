-- ===== src/Telegram/Tracker/Tests.antt =====
-- A send that is reserved, acknowledged and observed, and one that is abandoned.
use anonka.Prelude.{ℕ, ◌≡◌, refl, false, List, [], ◌∷◌, none, some, text, text_eq}
use mathlib.Core.Option
use anonka.Prelude.Int.{negsuc}
use anonka.Prelude.Decimal.{decimal}
use anonka.Prelude.Dicts.{lookup, insert, delete}
use anonka.Telegram.Tracker.{
  PendingSend, reserved, acknowledged, TrackerCall, reserves, begins, marks_sending, ends,
  acknowledges, programmatic, new_tracker, run, step, observe, acknowledge, classify_outgoing,
}
use anonka.Telegram.Tracker.Invariant.{IsValid, reachable-IsValid}
use anonka.Telegram.Tracker.Calls.{BoundSend, observe-BoundSend}

calls : Unit {0}
unfolding run step new_tracker observe acknowledge classify_outgoing lookup insert delete text_eq
    decimal
calls = tt

abbrev sent_calls : List (ℕ × TrackerCall)
sent_calls =
    (0, reserves (text "7") (negsuc 4))
    ∷ (1, begins (negsuc 4))
    ∷ (2, marks_sending (negsuc 4))
    ∷ (3, acknowledges (negsuc 4) 55 none)
    ∷ (4, ends (negsuc 4))
    ∷ []

abbrev reserved_calls : List (ℕ × TrackerCall)
reserved_calls = (0, reserves (text "7") (negsuc 4)) ∷ []

abbrev fresh_send : PendingSend
fresh_send = record {
  chat_id = text "7";
  random_id = negsuc 4;
  state = reserved;
  telegram_message_id = none;
  reserved_at = 0;
  state_updated_at = 0;
  attempts = 0;
  in_flight = false;
  last_error = none;
}

sent : (observe (run new_tracker sent_calls) (text "7") 55 5).1 ≡ programmatic
unfolding calls
sent = refl

-- The acknowledgement that races behind the outgoing update is waited for.
late_acknowledgement :
    Option.map
      (λ r. r.1)
      (classify_outgoing
        (run new_tracker reserved_calls)
        (text "7")
        55
        500
        10
        (([], 35) ∷ ((40, acknowledges (negsuc 4) 55 none) ∷ [], 60) ∷ []))
    ≡ some programmatic
unfolding calls
late_acknowledgement = refl

reachable-IsValid_example : IsValid (run new_tracker sent_calls)
reachable-IsValid_example = reachable-IsValid sent_calls

observe-BoundSend_example : BoundSend (run new_tracker sent_calls) (text "7") 55
observe-BoundSend_example = observe-BoundSend sent_calls (text "7") 55 5 sent

abbrev sent_record : PendingSend
sent_record = record fresh_send {
  state = acknowledged;
  telegram_message_id = some 55;
  state_updated_at = 4;
  attempts = 1;
}
