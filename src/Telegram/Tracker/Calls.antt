-- ===== src/Telegram/Tracker/Calls.antt =====
-- Acknowledging and observing sends.
use anonka.Prelude.{
  ℕ, ◌≡◌, refl, ap, ◌∙◌, sym, Bool, true, false, List, Option, none, some, Text, text_eq_refl,
  arith, Bool-cases, Option-cases, inl, inr, ◌≢◌,
}
use anonka.Prelude.Int.{ℤ}
use anonka.Prelude.Dicts.{lookup, insert, lookup-insert}
use anonka.Prelude.Keys.{number_key_injective}
use anonka.Commerce.Amount.{int_text}
use anonka.Telegram.Tracker.{
  PendingSend, OutgoingTracker, programmatic, creator_manual, message_key, deref, find, peek, put,
  chat_mismatch, bind, acknowledge_bound, acknowledge_found, acknowledge, observe, TrackerCall,
  new_tracker, run,
}
use anonka.Telegram.Tracker.Invariant.{IsValid, deref-some, find-some, reachable-IsValid}

-- A record that the tracker holds under its random id, bound to exactly this chat and message.
pub record BoundSend (t : OutgoingTracker) (chat_id : Text) (msg : ℕ) : Type 0 where
  pub ref : ℕ
  pub r : PendingSend
  pub held : find t r.random_id ≡ some (ref, r)
  pub in_chat : r.chat_id ≡ chat_id
  pub is_message : r.telegram_message_id ≡ some msg

peek_of_programmatic :
    (t : OutgoingTracker) (chat_id : Text) (msg now : ℕ)
    → (observe t chat_id msg now).1 ≡ programmatic
    → (ref : ℕ) × (r : PendingSend) × (peek t chat_id msg ≡ some (ref, r))
unfolding observe
peek_of_programmatic t chat_id msg now h = elim (Option-cases (peek t chat_id msg)) [
  | inl gone ↦ let e : creator_manual ≡ programmatic = rw (gone, observe) at h in cc
  | inr ((ref, r), there) ↦ (ref, r, there)
]

find_of_live :
    (t : OutgoingTracker) (random_id : ℤ) (ref : ℕ) (r : PendingSend)
    → lookup (int_text random_id) t.by_random_id ≡ some ref
    → t.heap ref ≡ some r
    → find t random_id ≡ some (ref, r)
find_of_live t random_id ref r listed stored = rw (listed, deref) (rw stored)

BoundSend-of_peek :
    (t : OutgoingTracker) (chat_id : Text) (msg ref : ℕ) (r : PendingSend)
    → IsValid t
    → peek t chat_id msg ≡ some (ref, r)
    → BoundSend t chat_id msg
unfolding peek
BoundSend-of_peek t chat_id msg ref r v there =
    let (listed, stored) =
      deref-some t.heap (lookup (message_key chat_id msg) t.by_message_key) there in
    let b = v.bindings _ ref listed in
    let (chat, id) = number_key_injective b.r.chat_id chat_id b.msg msg (sym b.named) in
    record {
      ref = ref;
      r = b.r;
      held = find_of_live t b.r.random_id ref b.r b.live b.stored;
      in_chat = chat;
      is_message = b.bound ∙ ap some id;
    }

-- Classification is exact: after any calls on a new tracker, a message is observed as programmatic
-- only if the tracker holds a send that is bound to exactly that chat and message id.
pub observe-BoundSend :
    (cs : List (ℕ × TrackerCall)) (chat_id : Text) (msg now : ℕ)
    → (observe (run new_tracker cs) chat_id msg now).1 ≡ programmatic
    → BoundSend (run new_tracker cs) chat_id msg
observe-BoundSend cs chat_id msg now h =
    let (ref, r, there) = peek_of_programmatic (run new_tracker cs) chat_id msg now h in
    BoundSend-of_peek (run new_tracker cs) chat_id msg ref r (reachable-IsValid cs) there

acknowledge_of_found :
    (t : OutgoingTracker) (msg : ℕ) (chat_id : Option Text) (now ref : ℕ) (r : PendingSend)
    (o : Option (ℕ × PendingSend)) (bound : Option ℕ)
    → o ≡ some (ref, r)
    → chat_mismatch chat_id r ≡ false
    → r.telegram_message_id ≡ bound
    → acknowledge_found t msg chat_id now o ≡ acknowledge_bound t ref r msg now bound
unfolding acknowledge_found
acknowledge_of_found t msg chat_id now ref r o bound found same is =
    rw (found, acknowledge_found) (rw same (ap (acknowledge_bound t ref r msg now) is))

observe_of_peek :
    (t : OutgoingTracker) (chat_id : Text) (msg now ref : ℕ) (r : PendingSend)
    → peek t chat_id msg ≡ some (ref, r)
    → (observe t chat_id msg now).1 ≡ programmatic
unfolding observe
observe_of_peek t chat_id msg now ref r h = rw (h, observe)

mismatch_bind :
    (chat_id : Option Text) (msg now : ℕ) (r : PendingSend)
    → chat_mismatch chat_id (bind msg now r) ≡ chat_mismatch chat_id r
mismatch_bind none msg now r = refl
mismatch_bind (some c) msg now r = refl

module _ (t : OutgoingTracker) (random_id : ℤ) (msg : ℕ) (chat_id : Option Text) (now : ℕ) (ref : ℕ)
    (r : PendingSend) where
  abbrev pub bound_tracker : OutgoingTracker
  bound_tracker = record (put t ref (bind msg now r)) {
    by_message_key = insert (message_key r.chat_id msg) ref t.by_message_key;
  }

  heap_bound : bound_tracker.heap ref ≡ some (bind msg now r)
  heap_bound = ground arith

  peek_bound : peek bound_tracker r.chat_id msg ≡ some (ref, bind msg now r)
  unfolding peek
  peek_bound =
      let new : lookup (message_key r.chat_id msg) bound_tracker.by_message_key ≡ some ref =
        lookup-insert (message_key r.chat_id msg) (message_key r.chat_id msg) ref t.by_message_key
        ∙ rw (text_eq_refl (message_key r.chat_id msg)) in
      rw (new, deref) (rw heap_bound)

  -- The first acknowledgement of a held, unbound send, in its own chat or with no chat given,
  -- succeeds; from then on the message is observed as programmatic, at whatever time, and a
  -- repetition of the acknowledgement succeeds and changes nothing.
  pub acknowledge-observe :
      (later : ℕ)
      → find t random_id ≡ some (ref, r)
      → r.telegram_message_id ≡ none
      → chat_mismatch chat_id r ≡ false
      → let a = acknowledge t random_id msg chat_id now in
        (a.1 ≡ true)
        × ((observe a.0 r.chat_id msg later).1 ≡ programmatic)
        × (acknowledge a.0 random_id msg chat_id later ≡ (a.0, true))
  unfolding acknowledge acknowledge_bound
  acknowledge-observe later held unbound same =
      let first : acknowledge t random_id msg chat_id now ≡ (bound_tracker, true) =
        acknowledge_of_found t msg chat_id now ref r (find t random_id) none held same unbound in
      rw first (
        refl,
        observe_of_peek bound_tracker r.chat_id msg later ref (bind msg now r) peek_bound,
        acknowledge_of_found bound_tracker msg chat_id later ref (bind msg now r) _ (some msg)
              (find_again held) (mismatch_again same) refl
            ∙ ground arith,
      )
    where
      find_again :
          find t random_id ≡ some (ref, r)
          → find bound_tracker random_id ≡ some (ref, bind msg now r)
      find_again held =
          find_of_live bound_tracker random_id ref (bind msg now r) (find-some t random_id held).0
            heap_bound

      mismatch_again :
          chat_mismatch chat_id r ≡ false → chat_mismatch chat_id (bind msg now r) ≡ false
      mismatch_again h = mismatch_bind chat_id msg now r ∙ h

refused_other :
    (t : OutgoingTracker) (msg : ℕ) (chat_id : Option Text) (now ref : ℕ) (r : PendingSend)
    (bound : ℕ)
    → r.telegram_message_id ≡ some bound
    → bound ≢ msg
    → (acknowledge_found t msg chat_id now (some (ref, r))).1 ≡ false
unfolding acknowledge_found acknowledge_bound
refused_other t msg chat_id now ref r bound is other = elim (Bool-cases (chat_mismatch chat_id r)) [
  | inl wrong ↦ rw wrong
  | inr right ↦
      rw right (ap (λ (o : Option ℕ). (acknowledge_bound t ref r msg now o).1) is ∙ ground arith)
]

acknowledge_bound-false :
    (t : OutgoingTracker) (msg now ref : ℕ) (r : PendingSend) (o : Option ℕ)
    → (acknowledge_bound t ref r msg now o).1 ≡ false
    → (acknowledge_bound t ref r msg now o).0 ≡ t
unfolding acknowledge_bound
acknowledge_bound-false t msg now ref r none h = cc
acknowledge_bound-false t msg now ref r (some bound) h = refl

acknowledge_found-false :
    (t : OutgoingTracker) (msg : ℕ) (chat_id : Option Text) (now : ℕ) (o : Option (ℕ × PendingSend))
    → (acknowledge_found t msg chat_id now o).1 ≡ false
    → (acknowledge_found t msg chat_id now o).0 ≡ t
unfolding acknowledge_found
acknowledge_found-false t msg chat_id now none h = refl
acknowledge_found-false t msg chat_id now (some (ref, r)) h =
    elim (Bool-cases (chat_mismatch chat_id r)) [
      | inl wrong ↦ rw wrong
      | inr right ↦ rw right (
          acknowledge_bound-false t msg now ref r r.telegram_message_id
            (rw (right, acknowledge_found) at h))
    ]

-- A held send that is already bound to one message cannot be acknowledged as another: the call is
-- refused and leaves the tracker as it is, whatever chat it names.
pub acknowledge_refused :
    (t : OutgoingTracker) (random_id : ℤ) (msg : ℕ) (chat_id : Option Text) (now ref : ℕ)
    (r : PendingSend) (bound : ℕ)
    → find t random_id ≡ some (ref, r)
    → r.telegram_message_id ≡ some bound
    → bound ≢ msg
    → acknowledge t random_id msg chat_id now ≡ (t, false)
unfolding acknowledge
acknowledge_refused t random_id msg chat_id now ref r bound found is other =
    let no : (acknowledge_found t msg chat_id now (some (ref, r))).1 ≡ false =
      refused_other t msg chat_id now ref r bound is other in
    let same : (acknowledge_found t msg chat_id now (some (ref, r))).0 ≡ t =
      acknowledge_found-false t msg chat_id now (some (ref, r)) no in
    ap (acknowledge_found t msg chat_id now) found
    ∙ pair_eq (acknowledge_found t msg chat_id now (some (ref, r))) same no
  where
    pair_eq : (a : OutgoingTracker × Bool) → a.0 ≡ t → a.1 ≡ false → a ≡ (t, false)
    pair_eq (u, b) e f = cc
