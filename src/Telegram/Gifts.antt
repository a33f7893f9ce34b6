-- ===== src/Telegram/Gifts.antt =====
-- src/telegram/gift-parser.ts, gift-routing.ts and gift-resolver.ts: gift service messages become
-- gift events, which the ledger consumes. The GramJS constructors that the parser tells apart are
-- data; its `long` fields are integers.
pub mod Keys
pub mod Routing
pub mod Tests
use anonka.Prelude.{
  ℕ, ◌*◌, Bool, true, false, not, List, [], ◌∷◌, ◌++◌, Option, none, some, Text, text, text_eq,
  if◌then◌else◌, ◌==◌,
}
use anonka.Prelude.Int.{ℤ, pos, negsuc}
use anonka.Prelude.Decimal.{decimal}
use anonka.Commerce.Amount.{
  int_text, TypeStarsAmount, normalize_stars_amount, NormalizedStarsAmount,
}
use anonka.Commerce.Events.{
  GiftEvent, GiftEventKind, GiftPeerType, gift_received, gift_unique, gift_offer_received,
  gift_offer_declined, kind_text, user, chat, channel,
}
use anonka.Commerce.Ledger.{GiftLedger, GiftDecision, process_gift, GiftSenderResolver}

-- `Api.TypePeer`
pub data TypePeer : Type 0 where
  peer_user peer_chat peer_channel : (id : ℤ) → TypePeer

-- `Api.TypeStarGift`
pub data TypeStarGift : Type 0 where
  star_gift : (id : ℤ) (title : Option Text) (stars : ℤ) (convert_stars : Option ℤ) → TypeStarGift
  star_gift_unique : (gift_id : ℤ) (title slug : Text) (num : ℕ) → TypeStarGift
  other_gift : TypeStarGift

pub record StarGiftAction : Type 0 where
  pub gift : TypeStarGift
  pub from_id : Option TypePeer
  pub peer : Option TypePeer
  pub name_hidden : Option Bool
  pub convert_stars : Option ℤ
  pub message : Option Text
  pub refunded : Option Bool
  pub converted : Option Bool
  pub upgraded : Option Bool
  pub can_upgrade : Option Bool
  pub saved : Option Bool
  pub prepaid_upgrade : Option Bool
  pub upgrade_separate : Option Bool
  pub upgrade_msg_id : Option ℕ
  pub upgrade_stars : Option ℤ
  pub saved_id : Option ℤ
  pub gift_msg_id : Option ℕ

pub record StarGiftUniqueAction : Type 0 where
  pub gift : TypeStarGift
  pub from_id : Option TypePeer
  pub peer : Option TypePeer
  pub refunded : Option Bool
  pub saved : Option Bool
  pub transferred : Option Bool
  pub from_offer : Option Bool
  pub prepaid_upgrade : Option Bool
  pub saved_id : Option ℤ

pub record PurchaseOfferAction : Type 0 where
  pub gift : TypeStarGift
  pub price : TypeStarsAmount
  pub accepted : Option Bool
  pub declined : Option Bool
  pub expires_at : ℕ

pub record PurchaseOfferDeclinedAction : Type 0 where
  pub gift : TypeStarGift
  pub price : TypeStarsAmount
  pub expired : Option Bool

-- `Api.TypeMessageAction`
pub data TypeMessageAction : Type 0 where
  star_gift_action : StarGiftAction → TypeMessageAction
  star_gift_unique_action : StarGiftUniqueAction → TypeMessageAction
  purchase_offer_action : PurchaseOfferAction → TypeMessageAction
  purchase_offer_declined_action : PurchaseOfferDeclinedAction → TypeMessageAction
  other_action : TypeMessageAction

pub record GiftParseContext : Type 0 where
  pub chat_id : Text
  pub msg_id : ℕ
  pub received_at : ℕ
  pub msg_sender_peer : Option TypePeer
  pub msg_peer : Option TypePeer

unfoldable pub gift_event_key : GiftEventKind → Text → ℕ → Text
gift_event_key kind chat_id msg_id = kind_text kind ++ (b':' ∷ (chat_id ++ (b':' ∷ decimal msg_id)))

unfoldable pub gift_sender_peer : TypeMessageAction → Option TypePeer → Option TypePeer
gift_sender_peer (star_gift_action a) sender = a.from_id
gift_sender_peer (star_gift_unique_action a) sender = a.from_id
gift_sender_peer (purchase_offer_action a) sender = sender
gift_sender_peer (purchase_offer_declined_action a) sender = sender
gift_sender_peer other_action sender = none

pub record Identity : Type 0 where
  pub peer_type : GiftPeerType
  pub id : Text

unfoldable pub peer_to_stable_identity : Option TypePeer → Option Identity
peer_to_stable_identity none = none
peer_to_stable_identity (some (peer_user id)) = some (record { peer_type = user; id = int_text id })
peer_to_stable_identity (some (peer_chat id)) = some (record { peer_type = chat; id = int_text id })
peer_to_stable_identity (some (peer_channel id)) =
    some (record { peer_type = channel; id = int_text id })

pub record ResolvedSender : Type 0 where
  pub sender_id : Option Text
  pub sender_peer_type : Option GiftPeerType
  pub from_anonymous : Bool

abbrev sender_of_identity : Option Identity → ResolvedSender
sender_of_identity none = record {
  sender_id = none;
  sender_peer_type = none;
  from_anonymous = true;
}
sender_of_identity (some i) = record {
  sender_id = some (i.id);
  sender_peer_type = some (i.peer_type);
  from_anonymous = false;
}

unfoldable pub resolve_gift_sender : Option TypePeer → ResolvedSender
unfolding peer_to_stable_identity
resolve_gift_sender from_id = sender_of_identity (peer_to_stable_identity from_id)

pub record GiftIdentity : Type 0 where
  pub gift_id : Option Text
  pub gift_title : Option Text
  pub gift_slug : Option Text
  pub gift_num : Option ℕ
  pub stars : Option Text
  pub convert_stars : Option Text

-- `n?.toString()`
abbrev pub opt_text : Option ℤ → Option Text
opt_text none = none
opt_text (some n) = some (int_text n)

unfoldable pub normalize_star_gift_identity : TypeStarGift → GiftIdentity
normalize_star_gift_identity (star_gift id title stars convert) = record {
  gift_id = some (int_text id);
  gift_title = title;
  gift_slug = none;
  gift_num = none;
  stars = some (int_text stars);
  convert_stars = opt_text convert;
}
normalize_star_gift_identity (star_gift_unique gift_id title slug num) = record {
  gift_id = some (int_text gift_id);
  gift_title = some title;
  gift_slug = some slug;
  gift_num = some num;
  stars = none;
  convert_stars = none;
}
normalize_star_gift_identity other_gift = record {
  gift_id = none;
  gift_title = none;
  gift_slug = none;
  gift_num = none;
  stars = none;
  convert_stars = none;
}

-- `a ?? b`, where `b` may be absent too, and where it may not.
abbrev pub or_else {ℓ} : {A : Type ℓ} → Option A → Option A → Option A
or_else none b = b
or_else (some a) b = some a

abbrev pub or_false : Option Bool → Bool
or_false none = false
or_false (some b) = b

-- The fields that every event has: the context's, the sender's and the gift's; the others absent.
abbrev base_event : GiftEventKind → GiftParseContext → ResolvedSender → GiftIdentity → GiftEvent
base_event kind ctx sender gift = record {
  event_key = gift_event_key kind ctx.chat_id ctx.msg_id;
  kind = kind;
  chat_id = ctx.chat_id;
  msg_id = ctx.msg_id;
  received_at = ctx.received_at;
  from_anonymous = sender.from_anonymous;
  name_hidden = false;
  sender_id = sender.sender_id;
  sender_peer_type = sender.sender_peer_type;
  sender_username = none;
  sender_first_name = none;
  receiver_id = none;
  receiver_peer_type = none;
  gift_id = gift.gift_id;
  gift_title = gift.gift_title;
  gift_slug = gift.gift_slug;
  gift_num = gift.gift_num;
  stars = none;
  convert_stars = none;
  gift_message = none;
  refunded = false;
  converted = none;
  upgraded = none;
  can_upgrade = none;
  saved = none;
  prepaid_upgrade = none;
  upgrade_separate = none;
  transferred = none;
  from_offer = none;
  upgrade_msg_id = none;
  upgrade_stars = none;
  saved_id = none;
  gift_msg_id = none;
  offer_price = none;
  offer_accepted = none;
  offer_declined = none;
  offer_expired = none;
  offer_expires_at = none;
}

abbrev receiver_id_of : Option Identity → Option Text
receiver_id_of none = none
receiver_id_of (some i) = some (i.id)

abbrev receiver_type_of : Option Identity → Option GiftPeerType
receiver_type_of none = none
receiver_type_of (some i) = some (i.peer_type)

unfoldable pub star_gift_event : StarGiftAction → GiftParseContext → GiftEvent
unfolding resolve_gift_sender normalize_star_gift_identity
star_gift_event a ctx =
    let gift = normalize_star_gift_identity a.gift in
    let receiver = peer_to_stable_identity (or_else a.peer ctx.msg_peer) in
    let base = base_event gift_received ctx (resolve_gift_sender a.from_id) gift in
    record base {
      name_hidden = or_false a.name_hidden;
      receiver_id = receiver_id_of receiver;
      receiver_peer_type = receiver_type_of receiver;
      stars = gift.stars;
      convert_stars = or_else (opt_text a.convert_stars) gift.convert_stars;
      gift_message = a.message;
      refunded = or_false a.refunded;
      converted = a.converted;
      upgraded = a.upgraded;
      can_upgrade = a.can_upgrade;
      saved = a.saved;
      prepaid_upgrade = a.prepaid_upgrade;
      upgrade_separate = a.upgrade_separate;
      upgrade_msg_id = a.upgrade_msg_id;
      upgrade_stars = opt_text a.upgrade_stars;
      saved_id = opt_text a.saved_id;
      gift_msg_id = a.gift_msg_id;
    }

unfoldable pub star_gift_unique_event : StarGiftUniqueAction → GiftParseContext → GiftEvent
unfolding resolve_gift_sender normalize_star_gift_identity
star_gift_unique_event a ctx =
    let receiver = peer_to_stable_identity (or_else a.peer ctx.msg_peer) in
    let base =
      base_event gift_unique ctx (resolve_gift_sender a.from_id)
        (normalize_star_gift_identity a.gift) in
    record base {
      receiver_id = receiver_id_of receiver;
      receiver_peer_type = receiver_type_of receiver;
      refunded = or_false a.refunded;
      saved = a.saved;
      transferred = a.transferred;
      from_offer = a.from_offer;
      prepaid_upgrade = a.prepaid_upgrade;
      saved_id = opt_text a.saved_id;
    }

unfoldable pub purchase_offer_event :
    PurchaseOfferAction → GiftParseContext → NormalizedStarsAmount → GiftEvent
unfolding resolve_gift_sender normalize_star_gift_identity
purchase_offer_event a ctx price =
    let base =
      base_event gift_offer_received ctx (resolve_gift_sender ctx.msg_sender_peer)
        (normalize_star_gift_identity a.gift) in
    record base {
      offer_price = some price;
      offer_accepted = some (or_false a.accepted);
      offer_declined = some (or_false a.declined);
      offer_expires_at = some (a.expires_at * 1000);
    }

unfoldable pub purchase_offer_declined_event :
    PurchaseOfferDeclinedAction → GiftParseContext → NormalizedStarsAmount → GiftEvent
unfolding resolve_gift_sender normalize_star_gift_identity
purchase_offer_declined_event a ctx price =
    let base =
      base_event gift_offer_declined ctx (resolve_gift_sender ctx.msg_sender_peer)
        (normalize_star_gift_identity a.gift) in
    record base {
      offer_price = some price;
      offer_expired = some (or_false a.expired);
      offer_declined = some (not (or_false a.expired));
    }

-- `null`, an event, or the exception of `normalizeStarsAmount`.
pub data Parsed : Type 0 where
  no_gift throws : Parsed
  gift : GiftEvent → Parsed

abbrev with_price : Option NormalizedStarsAmount → (NormalizedStarsAmount → GiftEvent) → Parsed
with_price none event = throws
with_price (some price) event = gift (event price)

unfoldable pub parse_gift_service_action : TypeMessageAction → GiftParseContext → Parsed
unfolding star_gift_event star_gift_unique_event purchase_offer_event purchase_offer_declined_event
parse_gift_service_action (star_gift_action a) ctx = gift (star_gift_event a ctx)
parse_gift_service_action (star_gift_unique_action a) ctx = gift (star_gift_unique_event a ctx)
parse_gift_service_action (purchase_offer_action a) ctx =
    with_price (normalize_stars_amount a.price) (purchase_offer_event a ctx)
parse_gift_service_action (purchase_offer_declined_action a) ctx =
    with_price (normalize_stars_amount a.price) (purchase_offer_declined_event a ctx)
parse_gift_service_action other_action ctx = no_gift

pub record GiftRoutingResult : Type 0 where
  pub handled : Bool
  pub decision : Option GiftDecision

-- The message carries an event or not; the decisions handed to `onDecision` are the last component.
unfoldable pub route_gift_message :
    Option GiftEvent → GiftLedger → GiftLedger × GiftRoutingResult × List GiftDecision
unfolding process_gift
route_gift_message none ledger = (ledger, record { handled = false; decision = none }, [])
route_gift_message (some event) ledger =
    let (ledger', decision) = process_gift ledger event in
    (ledger', record { handled = true; decision = some decision }, decision ∷ [])

-- `createConversationSenderResolver()`: `chatId.startsWith("-")` tells groups and channels.
unfoldable pub conversation_sender_resolver : GiftSenderResolver
conversation_sender_resolver [] = some []
conversation_sender_resolver (c ∷ s) = if c == b'-' then none else some (c ∷ s)
