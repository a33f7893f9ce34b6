-- ===== src/Commerce/Ledger/Traces.antt =====
-- Where credits come from, over all the calls made on a ledger.
use mathlib.Core.List.{Memᴰ}
use anonka.Prelude.{
  ◌≡◌, refl, ap, ◌∙◌, true, false, List, [], ◌∷◌, Option, none, some, Text, text_eq_refl, arith,
  inl, inr,
}
use anonka.Prelude.Dicts.{lookup, lookup-delete, lookup-insert_cases, lookup-delete-some}
use anonka.Commerce.Events.{GiftEvent}
use anonka.Commerce.Ledger.{
  GiftLedger, GiftProfit, GiftReview, GiftDecision, GiftReviewAction, GiftSenderResolver,
  LedgerCall, expects, clears, processes, applies, parse_profit_stars, is_profit_kind, build_review,
  to_review, apply_found, apply_review, action_key, not_found, expect_gift, clear_expectation,
  new_ledger, step, run,
}
use anonka.Commerce.Ledger.Cases.{
  mark, Settles, reviewed, credited, Processes, skipped, refunded, settled, process_gift-Processes,
  Applies, missing, dropped, granted, apply_review-Applies,
}

-- A statement of an event key and a Stars value that holds of each credit, and of each pending
-- review that would be credited on confirmation.
record Holds (P : Text → Text → Type 0) (l : GiftLedger) (k : Text) : Type 0 where
  credit_holds : (p : GiftProfit) → lookup k l.credited ≡ some p → P k p.stars
  review_holds :
      (r : GiftReview) (s : Text)
      → lookup k l.reviews ≡ some r
      → parse_profit_stars r.stars ≡ some s
      → P k s

-- The statement holds of the event of a call, if that could be credited.
abbrev Grants : (Text → Text → Type 0) → LedgerCall → Type 0
Grants P (processes e) =
    (s : Text)
    → is_profit_kind e.kind ≡ true
    → e.refunded ≡ false
    → parse_profit_stars e.stars ≡ some s
    → P e.event_key s
Grants P _ = Unit

module _ (P : Text → Text → Type 0) where
  Settles-Holds :
      (l : GiftLedger) (e : GiftEvent) (out : GiftLedger × GiftDecision) (k : Text)
      → ((s : Text) → parse_profit_stars e.stars ≡ some s → P e.event_key s)
      → Holds P l k
      → Settles (mark l e) e out
      → Holds P out.0 k
  unfolding to_review build_review
  Settles-Holds l e out k grant h (reviewed reason x q) = rw q (record {
    credit_holds = h.credit_holds;
    review_holds = λ r s found good. elim (lookup-insert_cases e.event_key k _ l.reviews found) [
      | inl (same, new) ↦
          rw (← same) (grant s (ap (λ (v : GiftReview). parse_profit_stars v.stars) new ∙ good))
      | inr old ↦ h.review_holds r s old good
    ];
  })
  Settles-Holds l e out k grant h (credited stars source xs p q) = rw q (record {
    credit_holds = λ c found. elim (lookup-insert_cases e.event_key k _ l.credited found) [
      | inl (same, new) ↦
          rw (← same) (grant c.stars (p ∙ ap (λ (v : GiftProfit). some v.stars) new))
      | inr old ↦ h.credit_holds c old
    ];
    review_holds = h.review_holds;
  })

  Processes-Holds :
      (l : GiftLedger) (e : GiftEvent) (out : GiftLedger × GiftDecision) (k : Text)
      → Grants P (processes e)
      → Holds P l k
      → Processes l e out
      → Holds P out.0 k
  Processes-Holds l e out k grant h (skipped reason q) = rw q h
  Processes-Holds l e out k grant h (refunded reason fresh q) =
      rw q (record { credit_holds = h.credit_holds; review_holds = h.review_holds })
  Processes-Holds l e out k grant h (settled kind fresh live s) =
      Settles-Holds l e out k (λ s' good. grant s' kind live good) h s

  Applies-Holds :
      (l m : GiftLedger) (key k : Text) → ((j : Text) → Holds P l j) → Applies l key m → Holds P m k
  Applies-Holds l m key k h (missing _ q) = rw q (h k)
  Applies-Holds l m key k h (dropped r xs found q) = rw q (record {
    credit_holds = (h k).credit_holds;
    review_holds =
        λ v s old good. (h k).review_holds v s (lookup-delete-some key k l.reviews old) good;
  })
  Applies-Holds l m key k h (granted r xs stars found fresh good q) = rw q (record {
    credit_holds = λ c new. elim (lookup-insert_cases key k _ l.credited new) [
      | inl (same, is) ↦
          rw (← same)
            ((h key).review_holds r c.stars found (good ∙ ap (λ (v : GiftProfit). some v.stars) is))
      | inr old ↦ (h k).credit_holds c old
    ];
    review_holds =
        λ v s old worth. (h k).review_holds v s (lookup-delete-some key k l.reviews old) worth;
  })

  step-Holds :
      (l : GiftLedger) (c : LedgerCall)
      → Grants P c
      → ((k : Text) → Holds P l k)
      → (k : Text) → Holds P (step l c) k
  unfolding step
  step-Holds l (expects chat expected) g h k =
      unfold expect_gift in
      record { credit_holds = (h k).credit_holds; review_holds = (h k).review_holds }
  step-Holds l (clears chat) g h k =
      unfold clear_expectation in
      record { credit_holds = (h k).credit_holds; review_holds = (h k).review_holds }
  step-Holds l (processes e) g h k = Processes-Holds l e _ k g (h k) (process_gift-Processes l e)
  step-Holds l (applies a) g h k = Applies-Holds l _ (action_key a) k h (apply_review-Applies l a)

  run-Holds :
      (l : GiftLedger) (cs : List LedgerCall)
      → ((c : LedgerCall) → Memᴰ c cs → Grants P c)
      → ((k : Text) → Holds P l k)
      → (k : Text) → Holds P (run l cs) k
  unfolding run
  run-Holds l [] g h = h
  run-Holds l (c ∷ cs) g h =
      run-Holds (step l c) cs (λ d m. g d (Memᴰ.tail m)) (step-Holds l c (g c (Memᴰ.head refl)) h)

-- An incoming gift among the calls that was reported with this key, not refunded, and worth this
-- whole number of Stars.
pub record Reported (cs : List LedgerCall) (k stars : Text) : Type 0 where
  pub event : GiftEvent
  pub reported : Memᴰ (processes event) cs
  pub same_key : event.event_key ≡ k
  pub incoming : is_profit_kind event.kind ≡ true
  pub live : event.refunded ≡ false
  pub worth : parse_profit_stars event.stars ≡ some stars

Reported-Grants : (cs : List LedgerCall) (c : LedgerCall) → Memᴰ c cs → Grants (Reported cs) c
Reported-Grants cs (processes e) m = λ s kind live worth. record {
  event = e;
  reported = m;
  same_key = refl;
  incoming = kind;
  live = live;
  worth = worth;
}
Reported-Grants cs (expects _ _) m = tt
Reported-Grants cs (clears _) m = tt
Reported-Grants cs (applies _) m = tt

new_ledger-Holds :
    (P : Text → Text → Type 0) (r : Option GiftSenderResolver) (k : Text) → Holds P (new_ledger r) k
unfolding new_ledger lookup
new_ledger-Holds P r k = record { credit_holds = λ p h. cc; review_holds = λ v s h g. cc }

-- Every credit has a source: whatever calls are made on a new ledger, confirmations of reviews
-- included, a key is credited only if an incoming, unrefunded gift with that key was reported,
-- and exactly with the whole number of Stars that the gift carried.
pub credit-Reported :
    (r : Option GiftSenderResolver) (cs : List LedgerCall) (k : Text) (p : GiftProfit)
    → lookup k (run (new_ledger r) cs).credited ≡ some p
    → Reported cs k p.stars
credit-Reported r cs k p =
    (run-Holds (Reported cs) (new_ledger r) cs (Reported-Grants cs)
        (new_ledger-Holds (Reported cs) r) k).credit_holds
      p

reviews_after : (l m : GiftLedger) (key : Text) → Applies l key m → lookup key m.reviews ≡ none
reviews_after l m key (missing gone q) = rw q gone
reviews_after l m key (dropped r xs found q) =
    rw q (ground (arith, lookup-delete key key l.reviews, text_eq_refl key))
reviews_after l m key (granted r xs stars found fresh good q) =
    rw q (ground (arith, lookup-delete key key l.reviews, text_eq_refl key))

not_found_of_none :
    (m : GiftLedger) (b : GiftReviewAction)
    → lookup (action_key b) m.reviews ≡ none
    → apply_review m b ≡ (m, not_found (action_key b))
unfolding apply_review apply_found
not_found_of_none m b h = rw (h, apply_found)

-- A review is settled once: after an action on it, whatever that was, any further action on the
-- same key finds nothing and leaves the ledger as it is.
pub apply_review_twice :
    (l : GiftLedger) (a b : GiftReviewAction)
    → action_key b ≡ action_key a
    → let m = (apply_review l a).0 in apply_review m b ≡ (m, not_found (action_key b))
apply_review_twice l a b same =
    not_found_of_none _ b (rw same (reviews_after l _ (action_key a) (apply_review-Applies l a)))
