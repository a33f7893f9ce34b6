-- ===== src/Commerce/Events.antt =====
-- src/domain/commerce/gift-event.ts. A `Date` is its time in milliseconds; optional fields are
-- `Option`.
use anonka.Prelude.{ℕ, Bool, Option, Text, text}
use anonka.Commerce.Amount.{NormalizedStarsAmount}

pub data GiftEventKind : Type 0 where
  gift_received gift_unique gift_offer_received gift_offer_declined : GiftEventKind

-- The string literal of a kind.
abbrev pub kind_text : GiftEventKind → Text
kind_text gift_received = text "gift_received"
kind_text gift_unique = text "gift_unique"
kind_text gift_offer_received = text "gift_offer_received"
kind_text gift_offer_declined = text "gift_offer_declined"

pub data GiftPeerType : Type 0 where
  user chat channel : GiftPeerType

pub record GiftEvent : Type 0 where
  pub event_key : Text
  pub kind : GiftEventKind
  pub chat_id : Text
  pub msg_id : ℕ
  pub received_at : ℕ
  pub from_anonymous : Bool
  pub name_hidden : Bool
  pub sender_id : Option Text
  pub sender_peer_type : Option GiftPeerType
  pub sender_username : Option Text
  pub sender_first_name : Option Text
  pub receiver_id : Option Text
  pub receiver_peer_type : Option GiftPeerType
  pub gift_id : Option Text
  pub gift_title : Option Text
  pub gift_slug : Option Text
  pub gift_num : Option ℕ
  pub stars : Option Text
  pub convert_stars : Option Text
  pub gift_message : Option Text
  pub refunded : Bool
  pub converted : Option Bool
  pub upgraded : Option Bool
  pub can_upgrade : Option Bool
  pub saved : Option Bool
  pub prepaid_upgrade : Option Bool
  pub upgrade_separate : Option Bool
  pub transferred : Option Bool
  pub from_offer : Option Bool
  pub upgrade_msg_id : Option ℕ
  pub upgrade_stars : Option Text
  pub saved_id : Option Text
  pub gift_msg_id : Option ℕ
  pub offer_price : Option NormalizedStarsAmount
  pub offer_accepted : Option Bool
  pub offer_declined : Option Bool
  pub offer_expired : Option Bool
  pub offer_expires_at : Option ℕ
