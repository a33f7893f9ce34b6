-- ===== src/Commerce/Ledger/Cases.antt =====
-- The ways in which `processGift` and `applyReview` can end, as data: the later proofs go by these
-- cases with the operations shut.
use anonka.Prelude.{
  ◌≡◌, refl, true, false, Option, none, some, Text, text_eq, Option-cases, Bool-cases, inl, inr,
}
use anonka.Prelude.Dicts.{Dict, lookup, insert, delete, contains, add}
use anonka.Commerce.Events.{GiftEvent}
use anonka.Commerce.Ledger.{
  GiftLedger, GiftReview, GiftReviewReason, GiftDecision, Source, GiftReviewAction, confirm, reject,
  confirmed, ignored, GiftExpectation, parse_profit_stars, is_profit_kind, to_review,
  process_conversation, process_expectation, process_sender, process_value, process_gift,
  confirm_review, apply_found, apply_review, action_key, no_value, anonymous_sender,
  no_conversation_match, sender_mismatch,
}

-- How an event with a fresh key, marked in `m`, is settled.
pub data Settles (m : GiftLedger) (e : GiftEvent) (out : GiftLedger × GiftDecision) : Type 0 where
  reviewed :
      (reason : GiftReviewReason) (x : Option Text) → out ≡ to_review m e reason x → Settles m e out
  credited :
      (stars : Text) (source : Source) (xs : Dict GiftExpectation)
      → parse_profit_stars e.stars ≡ some stars
      → out ≡ (
        record m {
          credited = insert e.event_key (record { stars = stars }) m.credited;
          expectations = xs;
        },
        confirmed (record { stars = stars }) source,
      )
      → Settles m e out

module _ (m : GiftLedger) (e : GiftEvent) (stars : Text)
    (p : parse_profit_stars e.stars ≡ some stars) where
  conversation-Settles :
      (sender : Text) (known : Option Text)
      → Settles m e (process_conversation m e (record { stars = stars }) sender known)
  unfolding process_conversation
  conversation-Settles sender none = reviewed no_conversation_match none refl
  conversation-Settles sender (some known) = elim (Bool-cases (text_eq sender known)) [
    | inl same ↦ rw same (credited stars Source.conversation m.expectations p refl)
    | inr other ↦ rw other (reviewed no_conversation_match none refl)
  ]

  expectation-Settles :
      (sender : Text) (x : Option GiftExpectation)
      → Settles m e (process_expectation m e (record { stars = stars }) sender x)
  unfolding process_expectation
  expectation-Settles sender none = conversation-Settles sender _
  expectation-Settles sender (some x) = elim (Bool-cases (text_eq sender x.expected_sender_id)) [
    | inl same ↦ rw same (credited stars Source.expectation _ p refl)
    | inr other ↦ rw other (reviewed sender_mismatch (some (x.expected_sender_id)) refl)
  ]

  sender-Settles : (sender : Option Text) → Settles m e (process_sender m e stars sender)
  unfolding process_sender
  sender-Settles none = reviewed anonymous_sender none refl
  sender-Settles (some sender) = expectation-Settles sender _

pub value-Settles :
    (m : GiftLedger) (e : GiftEvent) (v : Option Text)
    → parse_profit_stars e.stars ≡ v
    → Settles m e (process_value m e v)
unfolding process_value
value-Settles m e none p = reviewed no_value none refl
value-Settles m e (some stars) p = sender-Settles m e stars p e.sender_id

abbrev pub mark : GiftLedger → GiftEvent → GiftLedger
mark l e = record l { processed = add e.event_key l.processed }

-- How `processGift` ends.
pub data Processes (l : GiftLedger) (e : GiftEvent) (out : GiftLedger × GiftDecision) : Type 0 where
  skipped : (reason : Text) → out ≡ (l, ignored reason) → Processes l e out
  refunded :
      (reason : Text)
      → contains l.processed e.event_key ≡ false
      → out ≡ (mark l e, ignored reason)
      → Processes l e out
  settled :
      is_profit_kind e.kind ≡ true
      → contains l.processed e.event_key ≡ false
      → e.refunded ≡ false
      → Settles (mark l e) e out
      → Processes l e out

pub process_gift-Processes : (l : GiftLedger) (e : GiftEvent) → Processes l e (process_gift l e)
unfolding process_gift
process_gift-Processes l e = elim (Bool-cases (is_profit_kind e.kind)) [
  | inr other ↦ rw other (skipped _ refl)
  | inl profit ↦ elim (Bool-cases (contains l.processed e.event_key)) [
    | inl old ↦ rw (profit, old) (skipped _ refl)
    | inr fresh ↦ elim (Bool-cases e.refunded) [
      | inl back ↦ simp (profit, fresh, back) (refunded _ fresh refl)
      | inr kept ↦
          simp (profit, fresh, kept) (settled profit fresh kept (value-Settles (mark l e) e _ refl))
    ]
  ]
]

-- How `applyReview` ends, for the action's key `k`.
pub data Applies (l : GiftLedger) (k : Text) (out : GiftLedger) : Type 0 where
  missing : lookup k l.reviews ≡ none → out ≡ l → Applies l k out
  dropped :
      (r : GiftReview) (xs : Dict GiftExpectation)
      → lookup k l.reviews ≡ some r
      → out ≡ record l { reviews = delete k l.reviews; expectations = xs }
      → Applies l k out
  granted :
      (r : GiftReview) (xs : Dict GiftExpectation) (stars : Text)
      → lookup k l.reviews ≡ some r
      → lookup k l.credited ≡ none
      → parse_profit_stars r.stars ≡ some stars
      → out ≡ record l {
        reviews = delete k l.reviews;
        expectations = xs;
        credited = insert k (record { stars = stars }) l.credited;
      }
      → Applies l k out

confirm-Applies :
    (l : GiftLedger) (k : Text) (r : GiftReview) (found : lookup k l.reviews ≡ some r)
    → Applies l k (apply_found l (confirm k) (some r)).0
unfolding apply_found confirm_review
confirm-Applies l k r found = elim (Option-cases (lookup k l.credited)) [
  | inr (p, already) ↦ rw already (dropped r _ found refl)
  | inl fresh ↦ elim (Option-cases (parse_profit_stars r.stars)) [
    | inl bad ↦ rw (fresh, confirm_review) (rw bad (dropped r _ found refl))
    | inr (stars, good) ↦
        rw (fresh, confirm_review) (rw good (granted r _ stars found fresh good refl))
  ]
]

found-Applies :
    (l : GiftLedger) (a : GiftReviewAction) (o : Option GiftReview)
    → lookup (action_key a) l.reviews ≡ o
    → Applies l (action_key a) (apply_found l a o).0
unfolding apply_found
found-Applies l a none h = missing h refl
found-Applies l (reject k) (some r) h = dropped r _ h refl
found-Applies l (confirm k) (some r) h = confirm-Applies l k r h

pub apply_review-Applies :
    (l : GiftLedger) (a : GiftReviewAction) → Applies l (action_key a) (apply_review l a).0
unfolding apply_review
apply_review-Applies l a = found-Applies l a _ refl
