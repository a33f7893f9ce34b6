-- ===== src/Commerce/Ledger/Tests.antt =====
-- A ledger at work: a gift that was expected, one from somebody else, and its review.
use anonka.Prelude.{◌≡◌, ◌↔◌, refl, false, List, [], ◌∷◌, none, some, Text, text, text_eq}
use anonka.Prelude.Dicts.{lookup, insert, delete, contains, add}
use anonka.Commerce.Amount.{is_digits}
use anonka.Commerce.Events.{GiftEvent, gift_received}
use anonka.Commerce.Ledger.{
  GiftLedger, GiftProfit, LedgerCall, expects, processes, applies, confirm, reject, confirmed,
  expectation, process_gift, apply_review, new_ledger, step, run,
}
use anonka.Commerce.Ledger.Invariant.{credit_final}
use anonka.Commerce.Ledger.Decisions.{Confirms, confirmed_iff}
use anonka.Commerce.Ledger.Traces.{Reported, credit-Reported}

everything : Unit {0}
unfolding run step new_ledger process_gift apply_review lookup insert delete contains add is_digits
    text_eq
everything = tt

abbrev gift_from : Text → Text → Text → GiftEvent
gift_from key sender stars = record {
  event_key = key;
  kind = gift_received;
  chat_id = text "7";
  msg_id = 1;
  received_at = 0;
  from_anonymous = false;
  name_hidden = false;
  sender_id = some sender;
  sender_peer_type = none;
  sender_username = none;
  sender_first_name = none;
  receiver_id = none;
  receiver_peer_type = none;
  gift_id = none;
  gift_title = none;
  gift_slug = none;
  gift_num = none;
  stars = some stars;
  convert_stars = none;
  gift_message = none;
  refunded = false;
  converted = none;
  upgraded = none;
  can_upgrade = none;
  saved = none;
  prepaid_upgrade = none;
  upgrade_separate = none;
  transferred = none;
  from_offer = none;
  upgrade_msg_id = none;
  upgrade_stars = none;
  saved_id = none;
  gift_msg_id = none;
  offer_price = none;
  offer_accepted = none;
  offer_declined = none;
  offer_expired = none;
  offer_expires_at = none;
}

abbrev empty_ledger : GiftLedger
empty_ledger = record {
  resolve_sender = none;
  expectations = [];
  reviews = [];
  processed = [];
  credited = [];
}

abbrev strange : GiftEvent
strange = gift_from (text "k1") (text "9") (text "50")

-- Somebody else's gift goes to review and is confirmed.
abbrev reviewed_calls : List LedgerCall
reviewed_calls =
    expects (text "7") (text "8") ∷ processes strange ∷ applies (confirm (text "k1")) ∷ []

abbrev fifty : GiftProfit
fifty = record { stars = text "50" }

reviewed_credit : lookup (text "k1") (run (new_ledger none) reviewed_calls).credited ≡ some fifty
unfolding everything
reviewed_credit = refl

credit_final_example :
    lookup
      (text "k1")
      (run
        (run (new_ledger none) reviewed_calls)
        (processes strange ∷ applies (reject (text "k1")) ∷ [])).credited
    ≡ some fifty
credit_final_example =
    credit_final none reviewed_calls (processes strange ∷ applies (reject (text "k1")) ∷ [])
      (text "k1") fifty reviewed_credit

credit-Reported_example : Reported reviewed_calls (text "k1") (text "50")
credit-Reported_example = credit-Reported none reviewed_calls (text "k1") fifty reviewed_credit

confirmed_iff_example :
    ((process_gift empty_ledger strange).1 ≡ confirmed fifty expectation)
    ↔ Confirms empty_ledger strange fifty expectation
confirmed_iff_example = confirmed_iff empty_ledger strange fifty expectation

-- An expected gift is confirmed, and its expectation is used up.
expected_gift :
    let l = run (new_ledger none) (expects (text "7") (text "9") ∷ []) in
    ((process_gift l strange).1 ≡ confirmed fifty expectation)
    × (lookup (text "7") (process_gift l strange).0.expectations ≡ none)
unfolding everything
expected_gift = (refl, refl)
