-- ===== src/Commerce/Ledger.antt =====
-- src/domain/commerce/gift-ledger.ts: the profit ledger of incoming gifts. A method returns the new
-- ledger and its result.
pub mod Cases
pub mod Invariant
pub mod Decisions
pub mod Traces
pub mod Tests
use anonka.Prelude.{
  ℕ, Bool, true, false, not, List, [], ◌∷◌, ◌++◌, Option, none, some, Text, text, text_eq,
  if◌then◌else◌,
}
use anonka.Prelude.Dicts.{Dict, lookup, insert, delete, contains, add}
use anonka.Commerce.Amount.{is_digits}
use anonka.Commerce.Events.{
  GiftEvent, GiftEventKind, gift_received, gift_unique, gift_offer_received, gift_offer_declined,
  kind_text,
}

pub record GiftProfit : Type 0 where
  pub stars : Text

pub data GiftReviewReason : Type 0 where
  anonymous_sender sender_mismatch no_conversation_match no_value : GiftReviewReason

pub record GiftReview : Type 0 where
  pub event_key : Text
  pub chat_id : Text
  pub msg_id : ℕ
  pub gift_id : Option Text
  pub gift_title : Option Text
  pub stars : Option Text
  pub received_at : ℕ
  pub actual_sender_id : Option Text
  pub actual_sender_username : Option Text
  pub expected_sender_id : Option Text
  pub reason : GiftReviewReason

pub data Source : Type 0 where
  expectation conversation : Source

pub data GiftDecision : Type 0 where
  confirmed : GiftProfit → Source → GiftDecision
  manual_review : GiftReview → GiftDecision
  ignored : (reason : Text) → GiftDecision

pub data GiftReviewAction : Type 0 where
  confirm reject : (event_key : Text) → GiftReviewAction

pub data GiftReviewResult : Type 0 where
  review_confirmed : (event_key : Text) → Option GiftProfit → GiftReviewResult
  rejected : (event_key : Text) → GiftReviewResult
  not_found : (event_key : Text) → GiftReviewResult

abbrev pub GiftSenderResolver : Type 0
GiftSenderResolver = Text → Option Text

pub record GiftExpectation : Type 0 where
  pub expected_sender_id : Text

pub record GiftLedger : Type 0 where
  pub resolve_sender : Option GiftSenderResolver
  pub expectations : Dict GiftExpectation
  pub reviews : Dict GiftReview
  pub processed : List Text
  pub credited : Dict GiftProfit

unfoldable pub parse_profit_stars : Option Text → Option Text
parse_profit_stars none = none
parse_profit_stars (some s) = if is_digits s then some s else none

-- `PROFIT_KINDS.has(kind)`
abbrev pub is_profit_kind : GiftEventKind → Bool
is_profit_kind gift_received = true
is_profit_kind gift_unique = true
is_profit_kind gift_offer_received = false
is_profit_kind gift_offer_declined = false

-- The constructor.
unfoldable pub new_ledger : Option GiftSenderResolver → GiftLedger
new_ledger resolve = record {
  resolve_sender = resolve;
  expectations = [];
  reviews = [];
  processed = [];
  credited = [];
}

unfoldable pub expect_gift : GiftLedger → Text → Text → GiftLedger
expect_gift l chat expected = record l {
  expectations = insert chat (record { expected_sender_id = expected }) l.expectations;
}

unfoldable pub clear_expectation : GiftLedger → Text → GiftLedger
clear_expectation l chat = record l { expectations = delete chat l.expectations }

-- `expectedSenderId ?? this.expectations.get(event.chatId)?.expectedSenderId`
abbrev pub expected_or : Option Text → Option GiftExpectation → Option Text
expected_or (some s) _ = some s
expected_or none none = none
expected_or none (some x) = some (x.expected_sender_id)

unfoldable pub build_review : GiftLedger → GiftEvent → GiftReviewReason → Option Text → GiftReview
build_review l e reason expected = record {
  event_key = e.event_key;
  chat_id = e.chat_id;
  msg_id = e.msg_id;
  gift_id = e.gift_id;
  gift_title = e.gift_title;
  stars = e.stars;
  received_at = e.received_at;
  actual_sender_id = e.sender_id;
  actual_sender_username = e.sender_username;
  expected_sender_id = expected_or expected (lookup e.chat_id l.expectations);
  reason = reason;
}

-- Build a review, store it under the event's key, and return it.
unfoldable pub to_review :
    GiftLedger → GiftEvent → GiftReviewReason → Option Text → GiftLedger × GiftDecision
unfolding build_review
to_review l e reason expected =
    let review = build_review l e reason expected in
    (record l { reviews = insert e.event_key review l.reviews }, manual_review review)

abbrev credit : GiftLedger → Text → GiftProfit → GiftLedger
credit l key profit = record l { credited = insert key profit l.credited }

-- `this.resolveSender?.(event.chatId)`
abbrev pub known_sender : Option GiftSenderResolver → Text → Option Text
known_sender none chat = none
known_sender (some resolve) chat = resolve chat

-- The last part of `processGift`: no expectation is pending in the chat.
unfoldable pub process_conversation :
    GiftLedger → GiftEvent → GiftProfit → Text → Option Text → GiftLedger × GiftDecision
unfolding to_review
process_conversation l e profit sender none = to_review l e no_conversation_match none
process_conversation l e profit sender (some known) =
    if text_eq sender known
    then (credit l e.event_key profit, confirmed profit conversation)
    else to_review l e no_conversation_match none

unfoldable pub process_expectation :
    GiftLedger → GiftEvent → GiftProfit → Text → Option GiftExpectation → GiftLedger × GiftDecision
unfolding process_conversation to_review
process_expectation l e profit sender none =
    process_conversation l e profit sender (known_sender l.resolve_sender e.chat_id)
process_expectation l e profit sender (some x) =
    if text_eq sender x.expected_sender_id
    then (
      record l {
        credited = insert e.event_key profit l.credited;
        expectations = delete e.chat_id l.expectations;
      },
      confirmed profit expectation,
    )
    else to_review l e sender_mismatch (some (x.expected_sender_id))

-- A value is known; the sender may be anonymous.
unfoldable pub process_sender :
    GiftLedger → GiftEvent → Text → Option Text → GiftLedger × GiftDecision
unfolding process_expectation to_review
process_sender l e stars none = to_review l e anonymous_sender none
process_sender l e stars (some sender) =
    process_expectation l e (record { stars = stars }) sender (lookup e.chat_id l.expectations)

unfoldable pub process_value : GiftLedger → GiftEvent → Option Text → GiftLedger × GiftDecision
unfolding process_sender to_review
process_value l e none = to_review l e no_value none
process_value l e (some stars) = process_sender l e stars e.sender_id

unfoldable pub process_gift : GiftLedger → GiftEvent → GiftLedger × GiftDecision
unfolding process_value
process_gift l e =
    if not (is_profit_kind e.kind)
    then (l, ignored (text "kind:" ++ kind_text e.kind))
    else if contains l.processed e.event_key
    then (l, ignored (text "duplicate"))
    else (let m = record l { processed = add e.event_key l.processed } in
        if e.refunded
        then (m, ignored (text "refunded"))
        else process_value m e (parse_profit_stars e.stars))

-- The `CONFIRM` part of `applyReview`, after the expectation is dropped; `already` is the credit
-- that the key has.
unfoldable pub confirm_review :
    GiftLedger → Text → GiftReview → Option GiftProfit → GiftLedger × GiftReviewResult
unfolding parse_profit_stars
confirm_review l key review (some already) = (l, review_confirmed key (some already))
confirm_review l key review none = elim (parse_profit_stars review.stars) [
  | none ↦ (l, review_confirmed key none)
  | some stars ↦ (
    credit l key (record { stars = stars }),
    review_confirmed key (some (record { stars = stars })),
  )
]

abbrev pub action_key : GiftReviewAction → Text
action_key (confirm key) = key
action_key (reject key) = key

-- `applyReview` with the pending review of the action's key.
unfoldable pub apply_found :
    GiftLedger → GiftReviewAction → Option GiftReview → GiftLedger × GiftReviewResult
unfolding confirm_review
apply_found l action none = (l, not_found (action_key action))
apply_found l (reject key) (some review) =
    (record l { reviews = delete key l.reviews }, rejected key)
apply_found l (confirm key) (some review) =
    confirm_review
      (record l {
        reviews = delete key l.reviews;
        expectations = delete review.chat_id l.expectations;
      })
      key review (lookup key l.credited)

unfoldable pub apply_review : GiftLedger → GiftReviewAction → GiftLedger × GiftReviewResult
unfolding apply_found
apply_review l action = apply_found l action (lookup (action_key action) l.reviews)

-- The calls on a ledger, in any order.
pub data LedgerCall : Type 0 where
  expects : (chat expected : Text) → LedgerCall
  clears : (chat : Text) → LedgerCall
  processes : GiftEvent → LedgerCall
  applies : GiftReviewAction → LedgerCall

unfoldable pub step : GiftLedger → LedgerCall → GiftLedger
unfolding process_gift apply_review expect_gift clear_expectation
step l (expects chat expected) = expect_gift l chat expected
step l (clears chat) = clear_expectation l chat
step l (processes e) = (process_gift l e).0
step l (applies action) = (apply_review l action).0

unfoldable pub run : GiftLedger → List LedgerCall → GiftLedger
run l [] = l
run l (c ∷ cs) = run (step l c) cs
