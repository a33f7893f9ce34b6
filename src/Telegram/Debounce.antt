-- ===== src/Telegram/Debounce.antt =====
-- src/telegram/debounce.ts: the buffering of a chat's messages into batches. An `await` of a flush
-- suspends the call, and other calls run before it is resumed; so a call that waits is a
-- continuation in the state, and the calls, the timers and the resumptions are events in any order.
-- `flushed` lists the batches handed to `onFlush`, the latest first; what `onFlush` does with a
-- batch, and how it fails, is outside. A timer is the time at which it is due.
pub mod Sorting
pub mod Accounting
pub mod Overwriting
pub mod Bounds
pub mod Tests
use anonka.Prelude.{
  ℕ, zero, suc, ◌+◌, ◌-◌, ◌*◌, Bool, true, false, ◌&&◌, List, [], ◌∷◌, ◌++◌, Option, none, some,
  Text, if◌then◌else◌, ltb, leb, length,
}
use anonka.Prelude.Dicts.{Dict, keys, lookup, insert, delete}

-- The fields of a `TelegramMessage` that the debouncer reads, and an identification.
pub record Message : Type 0 where
  pub id : ℕ
  pub chat_id : Text
  pub timestamp : ℕ

pub record Buffer : Type 0 where
  pub messages : List Message
  pub timer : Option ℕ

pub record Config : Type 0 where
  pub debounce_ms : ℕ
  pub max_debounce_ms : ℕ
  pub max_buffer_size : ℕ

abbrev pub debounce_max_multiplier : ℕ
debounce_max_multiplier = 3

abbrev pub debounce_max_buffer_size : ℕ
debounce_max_buffer_size = 20

-- What follows the `await` of `flushKey` in a suspended `enqueue`.
pub data Continuation : Type 0 where
  process_alone : Message → Continuation
  start_buffer : (key : Text) → Message → Continuation

pub record Debouncer : Type 0 where
  pub config : Config
  pub buffers : Dict Buffer
  pub waiting : List Continuation
  pub flushed : List (List Message)

abbrev or_default : Option ℕ → ℕ → ℕ
or_default none d = d
or_default (some n) d = n

-- The constructor, with its two optional settings.
unfoldable pub new_debouncer : ℕ → Option ℕ → Option ℕ → Debouncer
new_debouncer debounce_ms max_debounce_ms max_buffer_size = record {
  config = record {
    debounce_ms = debounce_ms;
    max_debounce_ms = or_default max_debounce_ms (debounce_ms * debounce_max_multiplier);
    max_buffer_size = or_default max_buffer_size debounce_max_buffer_size;
  };
  buffers = [];
  waiting = [];
  flushed = [];
}

-- The stable sort of `Array.sort` by the time stamps.
unfoldable pub insert_sorted : Message → List Message → List Message
insert_sorted m [] = m ∷ []
insert_sorted m (x ∷ xs) =
    if leb m.timestamp x.timestamp then m ∷ x ∷ xs else x ∷ insert_sorted m xs

unfoldable pub sort : List Message → List Message
unfolding insert_sorted
sort [] = []
sort (m ∷ ms) = insert_sorted m (sort ms)

unfoldable pub process_messages : Debouncer → List Message → Debouncer
unfolding sort
process_messages d messages = record d { flushed = sort messages ∷ d.flushed }

-- The time of the first message, or the present.
abbrev pub first_time : List Message → ℕ → ℕ
first_time [] now = now
first_time (m ∷ ms) now = m.timestamp

abbrev pub min : ℕ → ℕ → ℕ
min a b = if leb a b then a else b

-- `Math.min(debounceMs, Math.max(0, maxDebounceMs - (now - first)))`; the difference, written as
-- one truncated subtraction, is 0 where the source's `Math.max` makes it 0.
unfoldable pub delay : Config → ℕ → ℕ → ℕ
delay c first now = min c.debounce_ms (c.max_debounce_ms + first - now)

-- `resetTimer`: the old timer is cleared, and a new one is set.
unfoldable pub reset_timer : Config → ℕ → Buffer → Buffer
unfolding delay
reset_timer c now b = record b { timer = some (now + delay c (first_time b.messages now) now) }

unfoldable pub reset_all : Config → ℕ → Dict Buffer → Dict Buffer
unfolding reset_timer
reset_all c now [] = []
reset_all c now ((k, b) ∷ m) = (k, reset_timer c now b) ∷ reset_all c now m

-- The settings under a new `debounceMs`.
abbrev pub rescaled : Config → ℕ → Config
rescaled c debounce_ms = record c {
  debounce_ms = debounce_ms;
  max_debounce_ms = debounce_ms * debounce_max_multiplier;
}

unfoldable pub update_debounce_ms : Debouncer → ℕ → ℕ → Debouncer
unfolding reset_all
update_debounce_ms d debounce_ms now = record d {
  config = rescaled d.config debounce_ms;
  buffers = reset_all (rescaled d.config debounce_ms) now d.buffers;
}

-- An empty buffer is dropped, any other is processed.
abbrev flush_messages : Debouncer → List Message → Debouncer
flush_messages d [] = d
flush_messages d (m ∷ ms) = process_messages d (m ∷ ms)

abbrev flush_found : Debouncer → Text → Option Buffer → Debouncer
flush_found d key none = d
flush_found d key (some b) = flush_messages (record d { buffers = delete key d.buffers }) b.messages

-- `flushKey` up to its `await`: the buffer is gone, and its batch is handed over.
unfoldable pub flush_key : Debouncer → Text → Debouncer
unfolding process_messages
flush_key d key = flush_found d key (lookup key d.buffers)

abbrev pub new_buffer : Config → ℕ → Message → Buffer
new_buffer c now m = reset_timer c now (record { messages = m ∷ []; timer = none })

-- The debounced part of `enqueue`, by the chat's buffer.
unfoldable pub enqueue_buffered : Debouncer → Message → ℕ → Option Buffer → Debouncer
unfolding flush_key reset_timer
enqueue_buffered d m now none = record d {
  buffers = insert m.chat_id (new_buffer d.config now m) d.buffers;
}
enqueue_buffered d m now (some b) =
    if leb d.config.max_buffer_size (length b.messages)
    then (let f = flush_key d m.chat_id in
        record f { waiting = start_buffer m.chat_id m ∷ f.waiting })
    else record d {
      buffers =
          insert m.chat_id (reset_timer d.config now (record b { messages = b.messages ++ m ∷ [] }))
            d.buffers;
    }

abbrev is_some {ℓ} : {A : Type ℓ} → Option A → Bool
is_some none = false
is_some (some _) = true

-- `enqueue` up to its first `await`; the Boolean is `this.shouldDebounce(message)`.
unfoldable pub enqueue : Debouncer → Bool → Message → ℕ → Debouncer
unfolding enqueue_buffered
enqueue d should_debounce m now =
    if ltb 0 d.config.debounce_ms && should_debounce
    then enqueue_buffered d m now (lookup m.chat_id d.buffers)
    else if is_some (lookup m.chat_id d.buffers)
    then (let f = flush_key d m.chat_id in record f { waiting = process_alone m ∷ f.waiting })
    else process_messages d (m ∷ [])

-- The rest of a suspended `enqueue`.
unfoldable pub continue : Debouncer → Continuation → ℕ → Debouncer
unfolding process_messages reset_timer
continue d (process_alone m) now = process_messages d (m ∷ [])
continue d (start_buffer key m) now = record d {
  buffers = insert key (new_buffer d.config now m) d.buffers;
}

-- The continuation at a place of the list, and the others.
unfoldable pub pick : ℕ → List Continuation → Option (Continuation × List Continuation)
pick n [] = none
pick zero (c ∷ cs) = some (c, cs)
pick (suc n) (c ∷ cs) = elim (pick n cs) [ none ↦ none | some (d, ds) ↦ some (d, c ∷ ds) ]

unfoldable pub resume : Debouncer → ℕ → ℕ → Debouncer
unfolding continue pick
resume d n now = elim (pick n d.waiting) [
  | none ↦ d
  | some (c, rest) ↦ continue (record d { waiting = rest }) c now
]

-- The events of the event loop. A timer that fires flushes its key.
pub data Event : Type 0 where
  arrives : (should_debounce : Bool) → Message → Event
  fires : (key : Text) → Event
  resumes : (place : ℕ) → Event
  updates : (debounce_ms : ℕ) → Event

unfoldable pub step : Debouncer → ℕ × Event → Debouncer
unfolding enqueue flush_key resume update_debounce_ms
step d (now, arrives should_debounce m) = enqueue d should_debounce m now
step d (now, fires key) = flush_key d key
step d (now, resumes place) = resume d place now
step d (now, updates debounce_ms) = update_debounce_ms d debounce_ms now

unfoldable pub run : Debouncer → List (ℕ × Event) → Debouncer
run d [] = d
run d (e ∷ es) = run (step d e) es

-- `flushAll` where nothing else runs between its rounds.
unfoldable pub flush_keys : Debouncer → List Text → Debouncer
unfolding flush_key
flush_keys d [] = d
flush_keys d (k ∷ ks) = flush_keys (flush_key d k) ks

unfoldable pub flush_all : Debouncer → Debouncer
unfolding flush_keys
flush_all d = flush_keys d (keys d.buffers)
