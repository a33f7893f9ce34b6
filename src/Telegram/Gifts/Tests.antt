-- ===== src/Telegram/Gifts/Tests.antt =====
-- A gift of 50 Stars in a private chat, from its service action to the credit.
use anonka.Prelude.{◌≡◌, refl, true, [], ◌∷◌, none, some, text, text_eq, inl}
use anonka.Prelude.Int.{pos}
use anonka.Prelude.Decimal.{decimal}
use anonka.Prelude.Dicts.{lookup, insert, delete, contains, add}
use anonka.Commerce.Amount.{is_digits}
use anonka.Commerce.Events.{gift_received}
use anonka.Commerce.Ledger.{
  GiftLedger, GiftProfit, confirmed, conversation, new_ledger, process_gift, parse_profit_stars,
}
use anonka.Telegram.Gifts.{
  peer_user, star_gift, StarGiftAction, star_gift_action, GiftParseContext, gift_event_key,
  star_gift_event, parse_gift_service_action, route_gift_message, conversation_sender_resolver,
  peer_to_stable_identity,
}
use anonka.Telegram.Gifts.Routing.{RegularGift, confirmed-RegularGift, private_gift_confirmed}
use anonka.Commerce.Events.{user}

all_of_it : Unit {0}
unfolding parse_gift_service_action route_gift_message conversation_sender_resolver process_gift
    parse_profit_stars new_ledger gift_event_key peer_to_stable_identity lookup insert delete
    contains add is_digits text_eq decimal
all_of_it = tt

abbrev present : StarGiftAction
present = record {
  gift = star_gift (pos 3) none (pos 50) none;
  from_id = some (peer_user (pos 9));
  peer = none;
  name_hidden = none;
  convert_stars = none;
  message = none;
  refunded = none;
  converted = none;
  upgraded = none;
  can_upgrade = none;
  saved = none;
  prepaid_upgrade = none;
  upgrade_separate = none;
  upgrade_msg_id = none;
  upgrade_stars = none;
  saved_id = none;
  gift_msg_id = none;
}

abbrev private_chat : GiftParseContext
private_chat = record {
  chat_id = text "9";
  msg_id = 12;
  received_at = 0;
  msg_sender_peer = none;
  msg_peer = none;
}

abbrev empty_ledger : GiftLedger
empty_ledger = record {
  resolve_sender = some conversation_sender_resolver;
  expectations = [];
  reviews = [];
  processed = [];
  credited = [];
}

abbrev fifty : GiftProfit
fifty = record { stars = decimal 50 }

key_test : gift_event_key gift_received (text "9") 12 ≡ text "gift_received:9:12"
unfolding all_of_it
key_test = refl

confirmed-RegularGift_example : RegularGift (star_gift_action present) fifty
unfolding all_of_it
confirmed-RegularGift_example =
    confirmed-RegularGift empty_ledger private_chat (star_gift_action present)
      (star_gift_event present private_chat) fifty refl (inl (conversation, refl))

private_gift_confirmed_example :
    let d = confirmed fifty conversation in
    let routed = route_gift_message (some (star_gift_event present private_chat)) empty_ledger in
    (routed.1 ≡ record { handled = true; decision = some d })
    × (routed.2 ≡ d ∷ [])
    × (lookup (gift_event_key gift_received (text "9") 12) routed.0.credited ≡ some fifty)
unfolding all_of_it
private_gift_confirmed_example =
    private_gift_confirmed empty_ledger private_chat present (pos 3) none 50 none
      (record { peer_type = user; id = decimal 9 }) refl refl refl refl refl refl refl
