-- ===== src/Telegram/Gifts/Routing.antt =====
-- A gift message from its service action to the ledger's decision.
use anonka.Prelude.{
  ℕ, ◌≡◌, refl, ap, ◌∙◌, sym, ◌≢◌, ◌⊎◌, true, false, [], ◌∷◌, Option, none, some, Text, text_eq_iff,
  text_eq_refl, arith, inl, inr,
}
use anonka.Prelude.Int.{ℤ, pos, negsuc}
use anonka.Prelude.Dicts.{lookup, contains, contains-add, lookup-insert, lookup-insert_cases}
use anonka.Prelude.Decimal.{decimal}
use anonka.Commerce.Amount.{is_digits, NormalizedStarsAmount}
use anonka.Commerce.Amount.Digits.{is_digits-decimal}
use anonka.Commerce.Events.{GiftEvent, GiftEventKind, gift_received}
use anonka.Commerce.Ledger.{
  GiftLedger, GiftProfit, Source, conversation, confirmed, parse_profit_stars, is_profit_kind,
  process_gift, GiftDecision, ignored, to_review, GiftSenderResolver, known_sender,
}
use anonka.Commerce.Ledger.Cases.{
  mark, Processes, skipped, refunded, settled, process_gift-Processes, Settles, reviewed, credited,
}
use anonka.Telegram.Gifts.Keys.{gift_event_key_injective}
use anonka.Commerce.Ledger.Decisions.{Settles-processed, Confirms, confirmed_iff}
use anonka.Telegram.Gifts.{
  TypePeer, TypeStarGift, star_gift, star_gift_unique, other_gift, StarGiftAction,
  StarGiftUniqueAction, TypeMessageAction, star_gift_action, star_gift_unique_action,
  purchase_offer_action, purchase_offer_declined_action, other_action, GiftParseContext,
  gift_event_key, peer_to_stable_identity, Identity, resolve_gift_sender,
  normalize_star_gift_identity, star_gift_event, star_gift_unique_event, with_price, gift,
  parse_gift_service_action, route_gift_message, conversation_sender_resolver, or_false,
}

some_eq {ℓ} : {A : Type ℓ} (a b : A) → some a ≡ some b → a ≡ b
some_eq a b h = cc

unique_worthless :
    (a : StarGiftUniqueAction) (ctx : GiftParseContext) (v : Text)
    → parse_profit_stars (star_gift_unique_event a ctx).stars ≢ some v
unfolding star_gift_unique_event parse_profit_stars
unique_worthless a ctx v h = cc

stars_of_gift :
    (g : TypeStarGift) (v : Text)
    → parse_profit_stars (normalize_star_gift_identity g).stars ≡ some v
    → (id : ℤ) × (title : Option Text) × (n : ℕ) × (convert : Option ℤ) × (g
        ≡ star_gift id title (pos n) convert)
      × (v ≡ decimal n)
unfolding parse_profit_stars normalize_star_gift_identity is_digits
stars_of_gift (star_gift id title (pos n) convert) v h =
    (id, title, n, convert, refl, ground (arith, is_digits-decimal n))
stars_of_gift (star_gift id title (negsuc n) convert) v h = cc
stars_of_gift (star_gift_unique id title slug num) v h = cc
stars_of_gift other_gift v h = cc

-- What a confirmed message was: a regular gift of `n` Stars, all of which are the profit.
pub record RegularGift (action : TypeMessageAction) (p : GiftProfit) : Type 0 where
  pub message : StarGiftAction
  pub is_regular : action ≡ star_gift_action message
  pub id : ℤ
  pub title : Option Text
  pub worth : ℕ
  pub convert : Option ℤ
  pub of_stars : message.gift ≡ star_gift id title (pos worth) convert
  pub profit : p.stars ≡ decimal worth

not_profit_kind : (e : GiftEvent) → is_profit_kind e.kind ≡ true → is_profit_kind e.kind ≢ false
not_profit_kind e k h = cc

-- The event of a priced action, if the price could be normalised.
priced {ℓ} :
    {R : Type ℓ} (o : Option NormalizedStarsAmount) (make : NormalizedStarsAmount → GiftEvent)
    (e : GiftEvent)
    → with_price o make ≡ gift e
    → ((n : NormalizedStarsAmount) → make n ≡ e → R)
    → R
priced none make e h k = cc
priced (some n) make e h k = k n (cc)

regular_of_profit :
    (ctx : GiftParseContext) (action : TypeMessageAction) (e : GiftEvent) (p : GiftProfit)
    → parse_gift_service_action action ctx ≡ gift e
    → is_profit_kind e.kind ≡ true
    → parse_profit_stars e.stars ≡ some p.stars
    → RegularGift action p
unfolding parse_gift_service_action
regular_of_profit ctx (star_gift_action a) e p h kind worth =
    let made : star_gift_event a ctx ≡ e = cc in
    let (id, title, n, convert, is, exact) =
      stars_of_gift a.gift p.stars
        (ap (λ (v : GiftEvent). parse_profit_stars v.stars) made ∙ worth) in
    record {
      message = a;
      is_regular = refl;
      id = id;
      title = title;
      worth = n;
      convert = convert;
      of_stars = is;
      profit = exact;
    }
regular_of_profit ctx (star_gift_unique_action a) e p h kind worth =
    let made : star_gift_unique_event a ctx ≡ e = cc in
    absurd (
      unique_worthless a ctx p.stars
        (ap (λ (v : GiftEvent). parse_profit_stars v.stars) made ∙ worth))
regular_of_profit ctx (purchase_offer_action a) e p h kind worth = priced _ _ e h (λ n made.
    absurd (not_profit_kind e kind (ap (λ (v : GiftEvent). is_profit_kind v.kind) (sym made))))
regular_of_profit ctx (purchase_offer_declined_action a) e p h kind worth =
    priced _ _ e h (λ n made.
      absurd (not_profit_kind e kind (ap (λ (v : GiftEvent). is_profit_kind v.kind) (sym made))))
regular_of_profit ctx other_action e p h kind worth = cc

-- A profit that settling an event credits is the event's own, under its key.
settled_credit :
    (m : GiftLedger) (e : GiftEvent) (out : GiftLedger × GiftDecision) (k : Text) (p : GiftProfit)
    → Settles m e out
    → lookup k out.0.credited ≡ some p
    → (lookup k m.credited ≡ some p)
      ⊎ ((e.event_key ≡ k) × (parse_profit_stars e.stars ≡ some p.stars))
unfolding to_review
settled_credit m e out k p (reviewed reason x q) h = inl (rw q at h)
settled_credit m e out k p (credited stars source xs worth q) h =
    elim (lookup-insert_cases e.event_key k (record { stars = stars }) m.credited (rw q at h)) [
      | inl (same, is) ↦ inr (same, worth ∙ ap (λ (x : GiftProfit). some x.stars) is)
      | inr old ↦ inl old
    ]

processed_credit :
    (l : GiftLedger) (e : GiftEvent) (out : GiftLedger × GiftDecision) (k : Text) (p : GiftProfit)
    → Processes l e out
    → lookup k out.0.credited ≡ some p
    → (lookup k l.credited ≡ some p)
      ⊎ ((e.event_key ≡ k)
          × (is_profit_kind e.kind ≡ true)
          × (parse_profit_stars e.stars ≡ some p.stars))
processed_credit l e out k p (skipped reason q) h = inl (rw q at h)
processed_credit l e out k p (refunded reason fresh q) h = inl (rw q at h)
processed_credit l e out k p (settled kind fresh live s) h =
    elim (settled_credit (mark l e) e out k p s h) [
      | inl old ↦ inl old
      | inr (same, worth) ↦ inr (same, kind, worth)
    ]

-- Of all service messages only a regular gift of a non-negative number of Stars is ever confirmed
-- or credited when it is routed, whatever the ledger and the sender: whether the decision confirms
-- a profit, or a profit stands under some key of the credited ones that did not stand there before,
-- the message is such a gift, and the profit is exactly its number of Stars.
pub confirmed-RegularGift :
    (l : GiftLedger) (ctx : GiftParseContext) (action : TypeMessageAction) (e : GiftEvent)
    (p : GiftProfit)
    → parse_gift_service_action action ctx ≡ gift e
    → let routed = route_gift_message (some e) l in
      ((source : Source) × (routed.1.decision ≡ some (confirmed p source)))
        ⊎ ((k : Text) × (lookup k routed.0.credited ≡ some p) × (lookup k l.credited ≢ some p))
      → RegularGift action p
unfolding route_gift_message
confirmed-RegularGift l ctx action e p h (inl (source, d)) =
    let c = (confirmed_iff l e p source).0 (some_eq _ _ d) in
    regular_of_profit ctx action e p h c.profit_kind c.worth
confirmed-RegularGift l ctx action e p h (inr (k, after, before)) =
    elim (processed_credit l e (process_gift l e) k p (process_gift-Processes l e) after) [
      | inl old ↦ absurd (before old)
      | inr (_, kind, worth) ↦ regular_of_profit ctx action e p h kind worth
    ]

-- A profit that is confirmed stands under the event's key.
settled_confirmed :
    (m : GiftLedger) (e : GiftEvent) (out : GiftLedger × GiftDecision) (p : GiftProfit)
    (source : Source)
    → Settles m e out
    → out.1 ≡ confirmed p source
    → lookup e.event_key out.0.credited ≡ some p
unfolding to_review
settled_confirmed m e out p source (reviewed reason x q) h =
    let bad : (to_review m e reason x).1 ≡ confirmed p source = rw q at h in cc
settled_confirmed m e out p source (credited stars from xs worth q) h =
    let decided : confirmed (record { stars = stars }) from ≡ confirmed p source = rw q at h in
    let is : record { stars = stars } ≡ p = cc in
    rw q (
      lookup-insert e.event_key e.event_key (record { stars = stars }) m.credited
      ∙ (rw (text_eq_refl e.event_key) (ap (λ (x : GiftProfit). some x) is)))

confirmed_credit :
    (l : GiftLedger) (e : GiftEvent) (out : GiftLedger × GiftDecision) (p : GiftProfit)
    (source : Source)
    → Processes l e out
    → out.1 ≡ confirmed p source
    → lookup e.event_key out.0.credited ≡ some p
confirmed_credit l e out p source (skipped reason q) h =
    let bad : ignored reason ≡ confirmed p source = rw q at h in cc
confirmed_credit l e out p source (refunded reason fresh q) h =
    let bad : ignored reason ≡ confirmed p source = rw q at h in cc
confirmed_credit l e out p source (settled kind fresh live s) h =
    settled_confirmed (mark l e) e out p source s h

worth_of_stars :
    (g : TypeStarGift) (id : ℤ) (title : Option Text) (n : ℕ) (convert : Option ℤ)
    → g ≡ star_gift id title (pos n) convert
    → parse_profit_stars (normalize_star_gift_identity g).stars ≡ some (decimal n)
unfolding parse_profit_stars normalize_star_gift_identity
worth_of_stars g id title n convert is = rw is (rw (is_digits-decimal n))

sender_of_identity_id :
    (from_id : Option TypePeer) (i : Identity)
    → peer_to_stable_identity from_id ≡ some i
    → (resolve_gift_sender from_id).sender_id ≡ some (i.id)
unfolding resolve_gift_sender
sender_of_identity_id from_id i h = rw h

module _ (l : GiftLedger) (ctx : GiftParseContext) (a : StarGiftAction) (id : ℤ)
    (title : Option Text) (n : ℕ) (convert : Option ℤ) (i : Identity) where
  private_gift-Confirms :
      l.resolve_sender ≡ some conversation_sender_resolver
      → lookup ctx.chat_id l.expectations ≡ none
      → contains l.processed (gift_event_key gift_received ctx.chat_id ctx.msg_id) ≡ false
      → or_false a.refunded ≡ false
      → a.gift ≡ star_gift id title (pos n) convert
      → peer_to_stable_identity a.from_id ≡ some i
      → conversation_sender_resolver ctx.chat_id ≡ some (i.id)
      → Confirms l (star_gift_event a ctx) (record { stars = decimal n }) conversation
  unfolding star_gift_event
  private_gift-Confirms resolves nobody fresh live is sent same = record {
    profit_kind = refl;
    fresh = fresh;
    live = live;
    worth = worth_of_stars a.gift id title n convert is;
    sender = i.id;
    sent = sender_of_identity_id a.from_id i sent;
    matches = (
      nobody,
      ap (λ (r : Option GiftSenderResolver). known_sender r ctx.chat_id) resolves ∙ same,
    );
  }

-- A regular gift of `n` Stars in a private chat, whose identifier is the sender's, is credited at
-- once with `n` Stars, under its own key: the ledger resolves senders by the chat, expects nobody there, has not seen
-- the message, and the gift is not refunded. The message is handled, so it does not go on to the
-- model, and exactly this decision is reported.
pub private_gift_confirmed :
    (l : GiftLedger) (ctx : GiftParseContext) (a : StarGiftAction) (id : ℤ) (title : Option Text)
    (n : ℕ) (convert : Option ℤ) (i : Identity)
    → l.resolve_sender ≡ some conversation_sender_resolver
    → lookup ctx.chat_id l.expectations ≡ none
    → contains l.processed (gift_event_key gift_received ctx.chat_id ctx.msg_id) ≡ false
    → or_false a.refunded ≡ false
    → a.gift ≡ star_gift id title (pos n) convert
    → peer_to_stable_identity a.from_id ≡ some i
    → conversation_sender_resolver ctx.chat_id ≡ some (i.id)
    → let d = confirmed (record { stars = decimal n }) conversation in
      let routed = route_gift_message (some (star_gift_event a ctx)) l in
      (routed.1 ≡ record { handled = true; decision = some d })
      × (routed.2 ≡ d ∷ [])
      × (lookup (gift_event_key gift_received ctx.chat_id ctx.msg_id) routed.0.credited
          ≡ some (record { stars = decimal n }))
unfolding route_gift_message star_gift_event
private_gift_confirmed l ctx a id title n convert i resolves nobody fresh live is sent same =
    let e : GiftEvent = star_gift_event a ctx in
    let d = confirmed (record { stars = decimal n }) conversation in
    let decided : (process_gift l e).1 ≡ d =
      (confirmed_iff l e (record { stars = decimal n }) conversation).1 (
        private_gift-Confirms l ctx a id title n convert i resolves nobody fresh live is sent
          same) in
    (rw decided, rw decided, confirmed_credit l e _ _ _ (process_gift-Processes l e) decided)

contains-mark_other :
    (l : GiftLedger) (e : GiftEvent) (key : Text)
    → e.event_key ≢ key
    → contains (mark l e).processed key ≡ contains l.processed key
contains-mark_other l e key h =
    ground (arith, contains-add e.event_key key l.processed, text_eq_iff e.event_key key)

contains_other :
    (l : GiftLedger) (e : GiftEvent) (out : GiftLedger × GiftDecision) {key : Text}
    → Processes l e out
    → e.event_key ≢ key
    → contains out.0.processed key ≡ contains l.processed key
contains_other l e out (skipped reason q) h = rw q
contains_other l e out (refunded reason fresh q) h = rw q (contains-mark_other l e _ h)
contains_other l e out (settled kind fresh live s) h =
    rw (Settles-processed (mark l e) e out s) (contains-mark_other l e _ h)

-- Routing one event never turns another message into a duplicate: after any event the key of a
-- message of another kind, chat or message id is processed exactly if it was before.
pub other_message_fresh :
    (l : GiftLedger) (k j : GiftEventKind) (c d : Text) (m n : ℕ) (e : GiftEvent)
    → e.event_key ≡ gift_event_key k c m
    → (k ≢ j) ⊎ (c ≢ d) ⊎ (m ≢ n)
    → contains (route_gift_message (some e) l).0.processed (gift_event_key j d n)
      ≡ contains l.processed (gift_event_key j d n)
unfolding route_gift_message
other_message_fresh l k j c d m n e made differs =
    contains_other l e _ (process_gift-Processes l e) (λ same.
      let (kind, chat, msg) = gift_event_key_injective k j c d m n (sym made ∙ same) in
      differs_absurd differs kind chat msg)
  where
    differs_absurd : (k ≢ j) ⊎ (c ≢ d) ⊎ (m ≢ n) → k ≡ j → c ≡ d → m ≡ n → ⊥
    differs_absurd (inl h) p q r = h p
    differs_absurd (inr (inl h)) p q r = h q
    differs_absurd (inr (inr h)) p q r = h r
