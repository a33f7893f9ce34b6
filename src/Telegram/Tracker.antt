-- ===== src/Telegram/Tracker.antt =====
-- src/telegram/outgoing-tracker.ts: the correlation of programmatic sends with observed messages.
-- Both maps hold references to shared, mutable records, so the records stand on a heap; a reference
-- is an address. `Date.now()` is an argument of each call.
pub mod Invariant
pub mod Calls
pub mod Cleanup
pub mod Tests
use anonka.Prelude.{
  ℕ, suc, ◌+◌, ◌-◌, Bool, true, false, not, ◌&&◌, List, [], ◌∷◌, Option, none, some, Text, text,
  text_eq, if◌then◌else◌, ◌==◌, ltb,
}
use anonka.Prelude.Int.{ℤ}
use anonka.Prelude.Dicts.{Dict, lookup, insert, delete, keys}
use anonka.Prelude.Keys.{number_key}
use anonka.Commerce.Amount.{int_text}

pub data PendingSendState : Type 0 where
  reserved sending acknowledged observed ambiguous : PendingSendState

pub record PendingSend : Type 0 where
  pub chat_id : Text
  pub random_id : ℤ
  pub state : PendingSendState
  pub telegram_message_id : Option ℕ
  pub reserved_at : ℕ
  pub state_updated_at : ℕ
  pub attempts : ℕ
  pub in_flight : Bool
  pub last_error : Option Text

abbrev pub reserved_ttl_ms : ℕ
reserved_ttl_ms = 60_000

abbrev pub observed_retention_ms : ℕ
observed_retention_ms = 120_000

abbrev pub ambiguous_ttl_ms : ℕ
ambiguous_ttl_ms = 300_000

pub record OutgoingTracker : Type 0 where
  pub heap : ℕ → Option PendingSend
  pub next : ℕ
  pub by_random_id : Dict ℕ
  pub by_message_key : Dict ℕ

abbrev pub message_key : Text → ℕ → Text
message_key chat_id telegram_message_id = number_key chat_id telegram_message_id

pub data Classification : Type 0 where
  programmatic creator_manual : Classification

unfoldable pub new_tracker : OutgoingTracker
new_tracker = record { heap = λ _. none; next = 0; by_random_id = []; by_message_key = [] }

-- The record that a reference found in a map leads to, with its address.
abbrev pub deref : (ℕ → Option PendingSend) → Option ℕ → Option (ℕ × PendingSend)
deref heap none = none
deref heap (some ref) = elim (heap ref) [ none ↦ none | some r ↦ some (ref, r) ]

-- `this.byRandomId.get(randomId.toString())`
abbrev pub find : OutgoingTracker → ℤ → Option (ℕ × PendingSend)
find t random_id = deref t.heap (lookup (int_text random_id) t.by_random_id)

-- `this.byMessageKey.get(messageKey(chatId, telegramMessageId))`
unfoldable pub peek : OutgoingTracker → Text → ℕ → Option (ℕ × PendingSend)
peek t chat_id telegram_message_id =
    deref t.heap (lookup (message_key chat_id telegram_message_id) t.by_message_key)

-- A mutation of the record at an address.
abbrev pub put : OutgoingTracker → ℕ → PendingSend → OutgoingTracker
put t ref r = record t { heap = λ j. if j == ref then some r else t.heap j }

abbrev new_record : Text → ℤ → ℕ → PendingSend
new_record chat_id random_id now = record {
  chat_id = chat_id;
  random_id = random_id;
  state = reserved;
  telegram_message_id = none;
  reserved_at = now;
  state_updated_at = now;
  attempts = 0;
  in_flight = false;
  last_error = none;
}

unfoldable pub reserve : OutgoingTracker → Text → ℤ → ℕ → OutgoingTracker
reserve t chat_id random_id now = elim (lookup (int_text random_id) t.by_random_id) [
  | some _ ↦ t
  | none ↦ record (put t t.next (new_record chat_id random_id now)) {
    next = suc t.next;
    by_random_id = insert (int_text random_id) t.next t.by_random_id;
  }
]

-- The record of a random id changed in place, if there is one.
abbrev pub change : OutgoingTracker → ℤ → (PendingSend → PendingSend) → OutgoingTracker
change t random_id f = elim (find t random_id) [ none ↦ t | some (ref, r) ↦ put t ref (f r) ]

abbrev pub start_sending : ℕ → PendingSend → PendingSend
start_sending now r = record r {
  state = sending;
  attempts = r.attempts + 1;
  state_updated_at = now;
}

unfoldable pub mark_sending : OutgoingTracker → ℤ → ℕ → OutgoingTracker
mark_sending t random_id now = change t random_id (start_sending now)

abbrev pub set_in_flight : Bool → ℕ → PendingSend → PendingSend
set_in_flight b now r = record r { in_flight = b; state_updated_at = now }

unfoldable pub begin_operation : OutgoingTracker → ℤ → ℕ → OutgoingTracker
begin_operation t random_id now = change t random_id (set_in_flight true now)

unfoldable pub end_operation : OutgoingTracker → ℤ → ℕ → OutgoingTracker
end_operation t random_id now = change t random_id (set_in_flight false now)

-- `chatId !== undefined && record.chatId !== chatId`
abbrev pub chat_mismatch : Option Text → PendingSend → Bool
chat_mismatch none r = false
chat_mismatch (some chat_id) r = not (text_eq r.chat_id chat_id)

abbrev pub bind : ℕ → ℕ → PendingSend → PendingSend
bind telegram_message_id now r = record r {
  telegram_message_id = some telegram_message_id;
  state = acknowledged;
  state_updated_at = now;
}

-- `acknowledge` on the record found, by the message id that it is bound to.
unfoldable pub acknowledge_bound :
    OutgoingTracker → ℕ → PendingSend → ℕ → ℕ → Option ℕ → OutgoingTracker × Bool
acknowledge_bound t ref r telegram_message_id now (some bound) = (t, bound == telegram_message_id)
acknowledge_bound t ref r telegram_message_id now none = (
  record (put t ref (bind telegram_message_id now r)) {
    by_message_key = insert (message_key r.chat_id telegram_message_id) ref t.by_message_key;
  },
  true,
)

unfoldable pub acknowledge_found :
    OutgoingTracker → ℕ → Option Text → ℕ → Option (ℕ × PendingSend) → OutgoingTracker × Bool
unfolding acknowledge_bound
acknowledge_found t telegram_message_id chat_id now none = (t, false)
acknowledge_found t telegram_message_id chat_id now (some (ref, r)) =
    if chat_mismatch chat_id r
    then (t, false)
    else acknowledge_bound t ref r telegram_message_id now r.telegram_message_id

unfoldable pub acknowledge : OutgoingTracker → ℤ → ℕ → Option Text → ℕ → OutgoingTracker × Bool
unfolding acknowledge_found
acknowledge t random_id telegram_message_id chat_id now =
    acknowledge_found t telegram_message_id chat_id now (find t random_id)

abbrev pub observe_state : ℕ → PendingSendState → PendingSend → PendingSend
observe_state now acknowledged r = record r { state = observed; state_updated_at = now }
observe_state now _ r = r

unfoldable pub observe : OutgoingTracker → Text → ℕ → ℕ → OutgoingTracker × Classification
unfolding peek
observe t chat_id telegram_message_id now = elim (peek t chat_id telegram_message_id) [
  | none ↦ (t, creator_manual)
  | some (ref, r) ↦ (put t ref (observe_state now r.state r), programmatic)
]

-- The message key of a record leaves the map, if the record is bound.
abbrev pub unbind : PendingSend → Dict ℕ → Dict ℕ
unbind r m = elim r.telegram_message_id [
  | none ↦ m
  | some telegram_message_id ↦ delete (message_key r.chat_id telegram_message_id) m
]

abbrev pub remove : OutgoingTracker → Text → PendingSend → OutgoingTracker
remove t key r = record t {
  by_random_id = delete key t.by_random_id;
  by_message_key = unbind r t.by_message_key;
}

unfoldable pub mark_definite_failure : OutgoingTracker → ℤ → OutgoingTracker
mark_definite_failure t random_id = elim (find t random_id) [
  | none ↦ t
  | some (_, r) ↦ remove t (int_text random_id) r
]

abbrev pub fail_ambiguously : Text → ℕ → PendingSend → PendingSend
fail_ambiguously error now r = record r {
  state = ambiguous;
  state_updated_at = now;
  last_error = some error;
}

unfoldable pub mark_ambiguous_failure : OutgoingTracker → ℤ → Text → ℕ → OutgoingTracker
mark_ambiguous_failure t random_id error now = change t random_id (fail_ambiguously error now)

-- The age at which a record expires, by its state; a record that is `SENDING` never does.
abbrev pub ttl_passed : PendingSendState → ℕ → Bool
ttl_passed reserved age = ltb reserved_ttl_ms age
ttl_passed ambiguous age = ltb ambiguous_ttl_ms age
ttl_passed acknowledged age = ltb observed_retention_ms age
ttl_passed observed age = ltb observed_retention_ms age
ttl_passed sending age = false

abbrev pub is_expired : ℕ → PendingSend → Bool
is_expired now r = not r.in_flight && ttl_passed r.state (now - r.state_updated_at)

-- One round of the sweep, for a key of `byRandomId`; the iterator of a `Map` yields the entry that
-- the key has when it is visited.
unfoldable pub sweep_entry : ℕ → OutgoingTracker × ℕ → Text → OutgoingTracker × ℕ
sweep_entry now (t, removed) key = elim (deref t.heap (lookup key t.by_random_id)) [
  | none ↦ (t, removed)
  | some (ref, r) ↦ if is_expired now r then (remove t key r, removed + 1) else (t, removed)
]

unfoldable pub sweep : ℕ → OutgoingTracker × ℕ → List Text → OutgoingTracker × ℕ
unfolding sweep_entry
sweep now s [] = s
sweep now s (key ∷ keys) = sweep now (sweep_entry now s key) keys

unfoldable pub cleanup_stale : OutgoingTracker → ℕ → OutgoingTracker × ℕ
unfolding sweep
cleanup_stale t now = sweep now (t, 0) (keys t.by_random_id)

unfoldable pub clear : OutgoingTracker → OutgoingTracker
clear t = record t { by_random_id = []; by_message_key = [] }

-- The calls on a tracker, each with its time.
pub data TrackerCall : Type 0 where
  reserves : (chat_id : Text) (random_id : ℤ) → TrackerCall
  marks_sending begins ends fails_definitely : (random_id : ℤ) → TrackerCall
  acknowledges : (random_id : ℤ) (telegram_message_id : ℕ) (chat_id : Option Text) → TrackerCall
  observes : (chat_id : Text) (telegram_message_id : ℕ) → TrackerCall
  fails_ambiguously : (random_id : ℤ) (error : Text) → TrackerCall
  cleans clears : TrackerCall

unfoldable pub step : OutgoingTracker → ℕ × TrackerCall → OutgoingTracker
unfolding reserve mark_sending begin_operation end_operation acknowledge observe
    mark_definite_failure mark_ambiguous_failure cleanup_stale clear
step t (now, reserves chat_id random_id) = reserve t chat_id random_id now
step t (now, marks_sending random_id) = mark_sending t random_id now
step t (now, begins random_id) = begin_operation t random_id now
step t (now, ends random_id) = end_operation t random_id now
step t (now, fails_definitely random_id) = mark_definite_failure t random_id
step t (now, acknowledges random_id msg chat_id) = (acknowledge t random_id msg chat_id now).0
step t (now, observes chat_id msg) = (observe t chat_id msg now).0
step t (now, fails_ambiguously random_id error) = mark_ambiguous_failure t random_id error now
step t (now, cleans) = (cleanup_stale t now).0
step t (now, clears) = clear t

unfoldable pub run : OutgoingTracker → List (ℕ × TrackerCall) → OutgoingTracker
run t [] = t
run t (c ∷ cs) = run (step t c) cs

-- The polling loop of `classifyOutgoing`: each round is what is called on the tracker during one
-- sleep and the time after it. `none`: the rounds ended before the loop did.
unfoldable pub poll :
    OutgoingTracker
    → Text
    → ℕ
    → ℕ
    → ℕ
    → List (List (ℕ × TrackerCall) × ℕ)
    → Option (OutgoingTracker × Classification)
unfolding observe run
poll t chat_id msg deadline now [] = if ltb now deadline then none else some (t, creator_manual)
poll t chat_id msg deadline now ((calls, now') ∷ rounds) =
    let t' = run t calls in
    let rest = poll t' chat_id msg deadline now' rounds in
    if ltb now deadline
    then elim (peek t' chat_id msg) [ some _ ↦ some (observe t' chat_id msg now') | none ↦ rest ]
    else some (t, creator_manual)

unfoldable pub classify_outgoing :
    OutgoingTracker
    → Text
    → ℕ
    → ℕ
    → ℕ
    → List (List (ℕ × TrackerCall) × ℕ)
    → Option (OutgoingTracker × Classification)
unfolding poll
classify_outgoing t chat_id msg wait_ms now rounds =
    let (t', immediate) = observe t chat_id msg now in
    elim immediate [
      | programmatic ↦ some (t', programmatic)
      | creator_manual ↦ poll t' chat_id msg (now + wait_ms) now rounds
    ]
