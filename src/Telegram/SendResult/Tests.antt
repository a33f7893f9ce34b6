-- ===== src/Telegram/SendResult/Tests.antt =====
-- Failures and answers at concrete inputs.
use anonka.Prelude.{◌≡◌, refl, [], ◌∷◌, some, text, text_eq}
use anonka.Prelude.Int.{pos, negsuc}
use anonka.Prelude.Decimal.{decimal}
use anonka.Prelude.Dicts.{lookup, insert}
use anonka.Telegram.SendResult.{
  SendError, rpc_error, ambiguous, classify_send_failure, TypeUpdates, updates, message,
  update_message_id, update_new_message, SentMessageResult, extract_sent_message_result,
}
use anonka.Telegram.SendResult.Answers.{Assigned, extract_sent_message_result-Assigned}

sends : Unit {0}
unfolding classify_send_failure extract_sent_message_result lookup insert text_eq decimal
sends = tt

abbrev flood_wait : SendError
flood_wait = rpc_error (text "FLOOD_WAIT_30") (some (pos 420))

known_id_is_ambiguous :
    classify_send_failure (rpc_error (text "RANDOM_ID_DUPLICATE") (some (pos 400))) ≡ ambiguous
unfolding sends
known_id_is_ambiguous = refl

abbrev answer : TypeUpdates
answer = updates (
    update_message_id (some (pos 8)) 50
    ∷ update_message_id (some (negsuc 6)) 51
    ∷ update_new_message (message 51 1_700)
    ∷ [])

abbrev fifty_one : SentMessageResult
fifty_one = record { message_id = 51; date = 1_700 }

extract_sent_message_result-Assigned_example : Assigned (negsuc 6) answer 51
unfolding sends
extract_sent_message_result-Assigned_example =
    extract_sent_message_result-Assigned answer (negsuc 6) 0 fifty_one refl
