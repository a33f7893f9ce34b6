-- ===== src/Telegram/SendResult.antt =====
-- src/telegram/send-result.ts: what a failed or an answered send says. An error is an `RPCError` with
-- its message and code, or another object, of which the number `seconds` and the string `message`
-- are read. The constructors of Telegram's updates that are not looked at are one constructor.
pub mod Failures
pub mod Answers
pub mod Tests
use anonka.Prelude.{
  ℕ, ◌/◌, ◌≤◌, Bool, true, false, ◌||◌, ◌&&◌, List, [], ◌∷◌, Option, none, some, Text, text,
  text_eq, if◌then◌else◌, ◌==◌, leb,
}
use anonka.Prelude.Int.{ℤ, pos, negsuc}
use anonka.Prelude.Dicts.{Dict, lookup, insert}
use anonka.Commerce.Amount.{int_text}

pub data SendFailureClass : Type 0 where
  definite ambiguous : SendFailureClass

pub data SendError : Type 0 where
  rpc_error : (error_message : Text) (code : Option ℤ) → SendError
  other_error : (seconds : Option ℕ) (message : Option Text) → SendError

abbrev pub definite_rejection_codes : List ℕ
definite_rejection_codes = 303 ∷ 400 ∷ 401 ∷ 403 ∷ 404 ∷ 406 ∷ 420 ∷ []

-- `Set.has` of the codes.
abbrev pub has : List ℕ → ℕ → Bool
has [] c = false
has (d ∷ ds) c = d == c || has ds c

-- `String.startsWith`
unfoldable pub starts_with : Text → Text → Bool
starts_with s [] = true
starts_with [] (d ∷ p) = false
starts_with (c ∷ s) (d ∷ p) = c == d && starts_with s p

abbrev pub classify_code : Option ℤ → SendFailureClass
classify_code none = ambiguous
classify_code (some (negsuc _)) = ambiguous
classify_code (some (pos c)) =
    if leb 500 c then ambiguous else if has definite_rejection_codes c then definite else ambiguous

abbrev pub classify_message : Option Text → SendFailureClass
classify_message none = ambiguous
classify_message (some m) = if starts_with m (text "FLOOD_WAIT") then definite else ambiguous

unfoldable pub classify_send_failure : SendError → SendFailureClass
classify_send_failure (other_error (some seconds) message) = definite
classify_send_failure (other_error none message) = classify_message message
classify_send_failure (rpc_error error_message code) =
    if text_eq error_message (text "RANDOM_ID_DUPLICATE") then ambiguous else classify_code code

abbrev is_definite_class : SendFailureClass → Bool
is_definite_class definite = true
is_definite_class ambiguous = false

unfoldable pub is_definite_send_failure : SendError → Bool
unfolding classify_send_failure
is_definite_send_failure error = is_definite_class (classify_send_failure error)

pub data TypeMessage : Type 0 where
  message : (id date : ℕ) → TypeMessage
  other_message : TypeMessage

pub data TypeUpdate : Type 0 where
  update_message_id : (random_id : Option ℤ) (id : ℕ) → TypeUpdate
  update_new_message update_new_channel_message : TypeMessage → TypeUpdate
  other_update : TypeUpdate

pub data TypeUpdates : Type 0 where
  updates updates_combined : List TypeUpdate → TypeUpdates
  update_short : TypeUpdate → TypeUpdates
  update_short_sent_message : (id date : ℕ) → TypeUpdates
  update_short_message update_short_chat_message : (out : Bool) (id date : ℕ) → TypeUpdates
  updates_too_long : TypeUpdates

pub record SentMessageResult : Type 0 where
  pub message_id : ℕ
  pub date : ℕ

-- One round of the loop over the updates.
abbrev pub set_mapping : Dict ℕ → TypeUpdate → Dict ℕ
set_mapping m (update_message_id (some random_id) id) = insert (int_text random_id) id m
set_mapping m _ = m

unfoldable pub set_mappings : Dict ℕ → List TypeUpdate → Dict ℕ
set_mappings m [] = m
set_mappings m (u ∷ us) = set_mappings (set_mapping m u) us

unfoldable pub extract_message_id_mappings : TypeUpdates → Dict ℕ
unfolding set_mappings
extract_message_id_mappings (updates us) = set_mappings [] us
extract_message_id_mappings (updates_combined us) = set_mappings [] us
extract_message_id_mappings (update_short u) = set_mapping [] u
extract_message_id_mappings _ = []

-- The date of the new message with this id, if the update carries it.
abbrev pub date_of : ℕ → TypeUpdate → Option ℕ
date_of message_id (update_new_message (message id date)) =
    if id == message_id then some date else none
date_of message_id (update_new_channel_message (message id date)) =
    if id == message_id then some date else none
date_of message_id _ = none

unfoldable pub find_date : ℕ → ℕ → List TypeUpdate → ℕ
find_date message_id date [] = date
find_date message_id date (u ∷ us) =
    let rest = find_date message_id date us in
    elim (date_of message_id u) [ some found ↦ found | none ↦ rest ]

abbrev pub sent_date : TypeUpdates → ℕ → ℕ → ℕ
sent_date (updates us) message_id date = find_date message_id date us
sent_date (updates_combined us) message_id date = find_date message_id date us
sent_date _ message_id date = date

abbrev pub direct : Bool → ℕ → ℕ → Option SentMessageResult
direct out id date = if out then some (record { message_id = id; date = date }) else none

-- The rest of the function, from the mapping that was looked up; `now` is in milliseconds.
abbrev pub mapped_result : TypeUpdates → ℕ → Option ℕ → Option SentMessageResult
mapped_result result now none = none
mapped_result result now (some message_id) =
    some (record { message_id = message_id; date = sent_date result message_id (now / 1000) })

unfoldable pub extract_sent_message_result : TypeUpdates → ℤ → ℕ → Option SentMessageResult
unfolding extract_message_id_mappings find_date
extract_sent_message_result (update_short_sent_message id date) random_id now =
    some (record { message_id = id; date = date })
extract_sent_message_result (update_short_message out id date) random_id now = direct out id date
extract_sent_message_result (update_short_chat_message out id date) random_id now =
    direct out id date
extract_sent_message_result result random_id now =
    mapped_result result now (lookup (int_text random_id) (extract_message_id_mappings result))
