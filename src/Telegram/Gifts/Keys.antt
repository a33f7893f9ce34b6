-- ===== src/Telegram/Gifts/Keys.antt =====
-- The event key of a gift message determines the message: no two messages share one.
use anonka.Prelude.{ℕ, ◌≡◌, ap, ◌∙◌, sym, Text, arith}
use anonka.Prelude.Split.{before, after, Without, before-append, after-append}
use anonka.Prelude.Keys.{number_key, number_key_injective}
use anonka.Commerce.Events.{
  GiftEventKind, gift_received, gift_unique, gift_offer_received, gift_offer_declined, kind_text,
}
use anonka.Telegram.Gifts.{gift_event_key}

kind_text-Without : (k : GiftEventKind) → Without b':' (kind_text k)
kind_text-Without gift_received = omega arith
kind_text-Without gift_unique = omega arith
kind_text-Without gift_offer_received = omega arith
kind_text-Without gift_offer_declined = omega arith

kind_text_injective : (k j : GiftEventKind) → kind_text k ≡ kind_text j → k ≡ j
kind_text_injective k j h = ground arith

key_parts :
    (k : GiftEventKind) (c : Text) (m : ℕ)
    → (before b':' (gift_event_key k c m) ≡ kind_text k)
      × (after b':' (gift_event_key k c m) ≡ number_key c m)
unfolding gift_event_key
key_parts k c m = (
  before-append b':' (kind_text k) (number_key c m) (kind_text-Without k),
  after-append b':' (kind_text k) (number_key c m) (kind_text-Without k),
)

-- An event key determines the kind, the chat and the message id that it was made from, whatever
-- the chat's identifier holds, colons included.
pub gift_event_key_injective :
    (k j : GiftEventKind) (c d : Text) (m n : ℕ)
    → gift_event_key k c m ≡ gift_event_key j d n
    → (k ≡ j) × (c ≡ d) × (m ≡ n)
gift_event_key_injective k j c d m n e =
    let (kind, rest) = key_parts k c m in
    let (kind', rest') = key_parts j d n in
    let (chat, id) = number_key_injective c d m n (sym rest ∙ ap (after b':') e ∙ rest') in
    (kind_text_injective k j (sym kind ∙ ap (before b':') e ∙ kind'), chat, id)
