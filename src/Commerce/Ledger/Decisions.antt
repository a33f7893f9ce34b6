-- ===== src/Commerce/Ledger/Decisions.antt =====
-- When `processGift` confirms a profit, and what repeated and reviewed events do.
use anonka.Prelude.{
  ◌≡◌, refl, ap, ◌∙◌, ◌↔◌, true, false, List, Option, none, some, Text, text, text_eq_iff,
  text_eq_refl, arith,
}
use anonka.Prelude.Dicts.{lookup, contains, contains-add}
use anonka.Commerce.Events.{GiftEvent}
use anonka.Commerce.Ledger.{
  GiftLedger, GiftProfit, GiftDecision, confirmed, ignored, GiftExpectation, Source, expectation,
  conversation, parse_profit_stars, is_profit_kind, known_sender, to_review, process_conversation,
  process_expectation, process_sender, process_value, process_gift,
}
use anonka.Commerce.Ledger.Cases.{mark, value-Settles, Settles, reviewed, credited}

-- The sender is whom the chat expects a gift from; or nobody is expected there and the sender is
-- the chat's known conversation user.
abbrev pub Matches : GiftLedger → GiftEvent → Text → Source → Type 0
Matches l e sender expectation =
    lookup e.chat_id l.expectations ≡ some (record { expected_sender_id = sender })
Matches l e sender conversation =
    (lookup e.chat_id l.expectations ≡ none)
    × (known_sender l.resolve_sender e.chat_id ≡ some sender)

-- What it takes to credit a profit at once.
pub record Confirms (l : GiftLedger) (e : GiftEvent) (p : GiftProfit) (source : Source)
    : Type 0 where
  pub profit_kind : is_profit_kind e.kind ≡ true
  pub fresh : contains l.processed e.event_key ≡ false
  pub live : e.refunded ≡ false
  pub worth : parse_profit_stars e.stars ≡ some (p.stars)
  pub sender : Text
  pub sent : e.sender_id ≡ some sender
  pub matches : Matches l e sender source

expectation_eq :
    (x : GiftExpectation) (s : Text)
    → s ≡ x.expected_sender_id
    → x ≡ record { expected_sender_id = s }
expectation_eq x s e = ground arith

module _ (m : GiftLedger) (e : GiftEvent) (pr p : GiftProfit) (source : Source) where
  conversation_sound :
      (sender : Text) (known : Option Text)
      → (process_conversation m e pr sender known).1 ≡ confirmed p source
      → (known ≡ some sender) × (pr ≡ p) × (source ≡ conversation)
  unfolding process_conversation
  conversation_sound sender none h = cc
  conversation_sound sender (some known) h = ground (arith, text_eq_iff sender known)

  expected_facts :
      (x : GiftExpectation) (sender : Text)
      → (process_expectation m e pr sender (some x)).1 ≡ confirmed p source
      → (pr ≡ p) × (source ≡ expectation) × (sender ≡ x.expected_sender_id)
  unfolding process_expectation
  expected_facts x sender h = ground (arith, text_eq_iff sender x.expected_sender_id)

  expectation_sound :
      (sender : Text) (x : Option GiftExpectation)
      → lookup e.chat_id m.expectations ≡ x
      → (process_expectation m e pr sender x).1 ≡ confirmed p source
      → (pr ≡ p) × Matches m e sender source
  unfolding process_expectation
  expectation_sound sender none q h =
      let (known, same, by) = conversation_sound sender _ h in (same, rw by (q, known))
  expectation_sound sender (some x) q h =
      let (same, by, who) = expected_facts x sender h in
      (same, rw by (q ∙ ap some (expectation_eq x sender who)))

sender_sound :
    (m : GiftLedger) (e : GiftEvent) (stars : Text) (p : GiftProfit) (source : Source)
    (o : Option Text)
    → (process_sender m e stars o).1 ≡ confirmed p source
    → (stars ≡ p.stars) × (sender : Text) × (o ≡ some sender) × Matches m e sender source
unfolding process_sender
sender_sound m e stars p source none h = cc
sender_sound m e stars p source (some sender) h =
    let (same, how) = expectation_sound m e (record { stars = stars }) p source sender _ refl h in
    (ap (λ (r : GiftProfit). r.stars) same, sender, refl, how)

value_sound :
    (m : GiftLedger) (e : GiftEvent) (p : GiftProfit) (source : Source) (v : Option Text)
    → (process_value m e v).1 ≡ confirmed p source
    → (v ≡ some (p.stars))
      × (sender : Text) × (e.sender_id ≡ some sender)
      × Matches m e sender source
unfolding process_value
value_sound m e p source none h = cc
value_sound m e p source (some stars) h =
    let (same, sender, sent, how) = sender_sound m e stars p source e.sender_id h in
    (ap some same, sender, sent, how)

-- The facts that the three guards of `processGift` leave behind.
guards_sound :
    (l : GiftLedger) (e : GiftEvent) (p : GiftProfit) (source : Source)
    → (process_gift l e).1 ≡ confirmed p source
    → (is_profit_kind e.kind ≡ true)
      × (contains l.processed e.event_key ≡ false)
      × (e.refunded ≡ false)
      × ((process_value (mark l e) e (parse_profit_stars e.stars)).1 ≡ confirmed p source)
unfolding process_gift
guards_sound l e p source h = ground arith

Matches-mark :
    (l : GiftLedger) (e : GiftEvent) (s : Text) (source : Source)
    → Matches (mark l e) e s source
    → Matches l e s source
Matches-mark l e s expectation h = h
Matches-mark l e s conversation h = h

Confirms-of :
    (l : GiftLedger) (e : GiftEvent) (p : GiftProfit) (source : Source)
    → (process_gift l e).1 ≡ confirmed p source
    → Confirms l e p source
Confirms-of l e p source h =
    let (profit_kind, fresh, live, out) = guards_sound l e p source h in
    let (worth, sender, sent, how) = value_sound (mark l e) e p source _ out in
    record {
      profit_kind = profit_kind;
      fresh = fresh;
      live = live;
      worth = worth;
      sender = sender;
      sent = sent;
      matches = Matches-mark l e sender source how;
    }

matched_value :
    (l : GiftLedger) (e : GiftEvent) (p : GiftProfit) (source : Source) (sender : Text)
    → Matches l e sender source
    → (process_expectation (mark l e) e p sender (lookup e.chat_id l.expectations)).1
      ≡ confirmed p source
unfolding process_expectation process_conversation
matched_value l e p expectation sender h = rw (h, process_expectation) (rw (text_eq_refl sender))
matched_value l e p conversation sender (no_one, known) =
    rw (no_one, process_expectation) (rw (known, process_conversation) (rw (text_eq_refl sender)))

sent_value :
    (m : GiftLedger) (e : GiftEvent) (stars : Text) (sender : Text) (o : Option Text)
    → o ≡ some sender
    → process_sender m e stars o
      ≡ process_expectation m e (record { stars = stars }) sender (lookup e.chat_id m.expectations)
unfolding process_sender
sent_value m e stars sender o h = rw (h, process_sender)

worth_value :
    (m : GiftLedger) (e : GiftEvent) (stars : Text) (v : Option Text)
    → v ≡ some stars
    → process_value m e v ≡ process_sender m e stars e.sender_id
unfolding process_value
worth_value m e stars v h = rw (h, process_value)

process_gift_of_Confirms :
    (l : GiftLedger) (e : GiftEvent) (p : GiftProfit) (source : Source)
    → Confirms l e p source
    → (process_gift l e).1 ≡ confirmed p source
unfolding process_gift
process_gift_of_Confirms l e p source c =
    simp (c.profit_kind, c.fresh, c.live)
      (ap (λ (r : GiftLedger × GiftDecision). r.1)
          (worth_value (mark l e) e p.stars _ c.worth
            ∙ sent_value (mark l e) e p.stars c.sender _ c.sent)
        ∙ matched_value l e p source c.sender c.matches)

-- `processGift` confirms a profit exactly if the event is an incoming gift with a fresh key, is not
-- refunded, carries a whole number of Stars, and its sender is whom the chat expects a gift from,
-- or, where nobody is expected, the chat's known conversation user. The profit is the event's
-- Stars, and the decision names the ground.
pub confirmed_iff :
    (l : GiftLedger) (e : GiftEvent) (p : GiftProfit) (source : Source)
    → ((process_gift l e).1 ≡ confirmed p source) ↔ Confirms l e p source
confirmed_iff l e p source = (Confirms-of l e p source, process_gift_of_Confirms l e p source)

duplicate_of_processed :
    (m : GiftLedger) (e : GiftEvent)
    → is_profit_kind e.kind ≡ true
    → contains m.processed e.event_key ≡ true
    → process_gift m e ≡ (m, ignored (text "duplicate"))
unfolding process_gift
duplicate_of_processed m e h old = simp (h, old)

pub Settles-processed :
    (m : GiftLedger) (e : GiftEvent) (out : GiftLedger × GiftDecision)
    → Settles m e out
    → out.0.processed ≡ m.processed
unfolding to_review
Settles-processed m e out (reviewed reason x q) = rw q
Settles-processed m e out (credited stars source xs p q) = rw q

contains-mark : (l : GiftLedger) (e : GiftEvent) → contains (mark l e).processed e.event_key ≡ true
contains-mark l e =
    ground (arith, contains-add e.event_key e.event_key l.processed, text_eq_refl e.event_key)

marked_guards :
    (l : GiftLedger) (e : GiftEvent)
    → is_profit_kind e.kind ≡ true
    → Settles (mark l e) e (process_value (mark l e) e (parse_profit_stars e.stars))
    → contains (process_gift l e).0.processed e.event_key ≡ true
unfolding process_gift
marked_guards l e h s = ground (
  arith,
  contains-mark l e,
  ap (λ (ps : List Text). contains ps e.event_key) (Settles-processed _ e _ s),
)

marked :
    (l : GiftLedger) (e : GiftEvent)
    → is_profit_kind e.kind ≡ true
    → contains (process_gift l e).0.processed e.event_key ≡ true
marked l e h = marked_guards l e h (value-Settles (mark l e) e _ refl)

-- A second report of the same incoming gift is ignored as a duplicate, and leaves the ledger as the
-- first one left it.
pub process_gift_twice :
    (l : GiftLedger) (e : GiftEvent)
    → is_profit_kind e.kind ≡ true
    → let m = (process_gift l e).0 in process_gift m e ≡ (m, ignored (text "duplicate"))
process_gift_twice l e h = duplicate_of_processed (process_gift l e).0 e h (marked l e h)
