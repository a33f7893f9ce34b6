-- ===== src/Commerce/Ledger/Invariant.antt =====
-- What holds of a ledger between two calls, and that a credit is final.
use anonka.Prelude.{
  ◌≡◌, refl, ◌∙◌, Bool, true, false, List, [], ◌∷◌, Option, none, some, Text, text_eq_iff, arith,
}
use anonka.Prelude.Dicts.{lookup, contains, lookup-insert, lookup-delete, contains-add}
use anonka.Commerce.Events.{GiftEvent}
use anonka.Commerce.Ledger.Cases.{
  Settles, reviewed, credited, Processes, skipped, refunded, settled, process_gift-Processes,
  Applies, missing, dropped, granted, apply_review-Applies, mark,
}
use anonka.Commerce.Ledger.{
  GiftLedger, GiftProfit, GiftReview, GiftDecision, GiftSenderResolver, LedgerCall, expects, clears,
  processes, applies, build_review, to_review, action_key, expect_gift, clear_expectation,
  new_ledger, step, run,
}

abbrev pub is_some {ℓ} : {A : Type ℓ} → Option A → Bool
is_some none = false
is_some (some _) = true

abbrev KeyedBy : Text → Option GiftReview → Type 0
KeyedBy k none = Unit
KeyedBy k (some r) = r.event_key ≡ k

-- At one event key: a credit or a pending review is there only for a processed event, never both,
-- and a pending review is stored under the key of its event.
pub record IsValidAt (l : GiftLedger) (k : Text) : Type 0 where
  pub credit_processed : is_some (lookup k l.credited) ≡ true → contains l.processed k ≡ true
  pub review_processed : is_some (lookup k l.reviews) ≡ true → contains l.processed k ≡ true
  pub disjoint : is_some (lookup k l.reviews) ≡ true → is_some (lookup k l.credited) ≡ false
  pub keyed : KeyedBy k (lookup k l.reviews)

abbrev pub IsValid : GiftLedger → Type 0
IsValid l = (k : Text) → IsValidAt l k

pub new_ledger-IsValid : (r : Option GiftSenderResolver) → IsValid (new_ledger r)
unfolding new_ledger lookup contains
new_ledger-IsValid r k = ground arith

-- At one key: what a call needs of the ledger, and what it keeps. A credit stays as it is.
abbrev pub Keeps : GiftLedger → GiftLedger → Text → Type 0
Keeps l m k =
    IsValidAt m k
    × (is_some (lookup k l.credited) ≡ true → lookup k m.credited ≡ lookup k l.credited)

fresh-not_credited :
    {l : GiftLedger} {k : Text}
    → IsValidAt l k
    → contains l.processed k ≡ false
    → (lookup k l.credited ≡ none) × (lookup k l.reviews ≡ none)
fresh-not_credited v h = ground arith

-- Marking a fresh event and settling it.
Settles-Keeps :
    (l : GiftLedger) (e : GiftEvent) (out : GiftLedger × GiftDecision) (k : Text)
    → IsValid l
    → contains l.processed e.event_key ≡ false
    → Settles (mark l e) e out
    → Keeps l out.0 k
unfolding to_review
Settles-Keeps l e out k v fresh (reviewed reason x q) = rw q (
    ground (
      arith,
      v k,
      fresh-not_credited (v e.event_key) fresh,
      lookup-insert e.event_key k (build_review (mark l e) e reason x) l.reviews,
      contains-add e.event_key k l.processed,
      text_eq_iff e.event_key k,
    ))
Settles-Keeps l e out k v fresh (credited stars source xs p q) = rw q (
    ground (
      arith,
      v k,
      fresh-not_credited (v e.event_key) fresh,
      lookup-insert e.event_key k (record { stars = stars }) l.credited,
      contains-add e.event_key k l.processed,
      text_eq_iff e.event_key k,
    ))

Processes-Keeps :
    (l : GiftLedger) (e : GiftEvent) (out : GiftLedger × GiftDecision) (k : Text)
    → IsValid l
    → Processes l e out
    → Keeps l out.0 k
Processes-Keeps l e out k v (skipped reason q) = rw q (v k, λ _. refl)
Processes-Keeps l e out k v (refunded reason fresh q) =
    rw q (ground (arith, v k, contains-add e.event_key k l.processed, text_eq_iff e.event_key k))
Processes-Keeps l e out k v (settled _ fresh _ s) = Settles-Keeps l e out k v fresh s

Applies-Keeps : (l m : GiftLedger) (key k : Text) → IsValid l → Applies l key m → Keeps l m k
Applies-Keeps l m key k v (missing _ q) = rw q (v k, λ _. refl)
Applies-Keeps l m key k v (dropped r xs found q) =
    rw q (ground (arith, v k, lookup-delete key k l.reviews, text_eq_iff key k))
Applies-Keeps l m key k v (granted r xs stars found fresh good q) = rw q (
    ground (
      arith,
      v k,
      v key,
      lookup-delete key k l.reviews,
      lookup-insert key k (record { stars = stars }) l.credited,
      text_eq_iff key k,
    ))

step-Keeps : (l : GiftLedger) (c : LedgerCall) (k : Text) → IsValid l → Keeps l (step l c) k
unfolding step
step-Keeps l (expects chat expected) k v =
    unfold expect_gift in
    (
      record {
        credit_processed = (v k).credit_processed;
        review_processed = (v k).review_processed;
        disjoint = (v k).disjoint;
        keyed = (v k).keyed;
      },
      λ _. refl,
    )
step-Keeps l (clears chat) k v =
    unfold clear_expectation in
    (
      record {
        credit_processed = (v k).credit_processed;
        review_processed = (v k).review_processed;
        disjoint = (v k).disjoint;
        keyed = (v k).keyed;
      },
      λ _. refl,
    )
step-Keeps l (processes e) k v = Processes-Keeps l e _ k v (process_gift-Processes l e)
step-Keeps l (applies a) k v = Applies-Keeps l _ (action_key a) k v (apply_review-Applies l a)

-- Every call keeps the ledger valid.
pub step-IsValid : (l : GiftLedger) (c : LedgerCall) → IsValid l → IsValid (step l c)
step-IsValid l c v k = (step-Keeps l c k v).0

run-Keeps :
    (l : GiftLedger) (cs : List LedgerCall)
    → IsValid l
    → IsValid (run l cs)
      × ((k : Text)
          → is_some (lookup k l.credited) ≡ true
          → lookup k (run l cs).credited ≡ lookup k l.credited)
unfolding run
run-Keeps l [] v = (v, λ k h. refl)
run-Keeps l (c ∷ cs) v =
    let (v', keeps) = run-Keeps (step l c) cs (step-IsValid l c v) in
    (v', λ k h. let e = (step-Keeps l c k v).1 h in keeps k (rw e h) ∙ e)

-- Whatever calls are made on a new ledger, in any order, every event key that is credited or under
-- review was processed, no key is both credited and under review, and each review is stored under
-- its event's key.
pub run-IsValid :
    (r : Option GiftSenderResolver) (cs : List LedgerCall) → IsValid (run (new_ledger r) cs)
run-IsValid r cs = (run-Keeps (new_ledger r) cs (new_ledger-IsValid r)).0

-- A credit is final: after any calls on a new ledger, no further calls change or remove what an
-- event key is credited with.
pub credit_final :
    (r : Option GiftSenderResolver) (cs later : List LedgerCall) (k : Text) (p : GiftProfit)
    → lookup k (run (new_ledger r) cs).credited ≡ some p
    → lookup k (run (run (new_ledger r) cs) later).credited ≡ some p
credit_final r cs later k p h =
    (run-Keeps (run (new_ledger r) cs) later (run-IsValid r cs)).1 k (rw h refl) ∙ h
