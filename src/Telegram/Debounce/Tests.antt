-- ===== src/Telegram/Debounce/Tests.antt =====
-- The debouncer at work: batches, and the race on a full buffer.
use anonka.Prelude.{ℕ, ◌+◌, ◌≡◌, refl, Bool, true, List, [], ◌∷◌, none, some, text, text_eq, arith}
use anonka.Prelude.Dicts.{lookup, insert, delete, Unique}
use anonka.Telegram.Debounce.{
  Message, Buffer, Debouncer, Event, arrives, fires, resumes, new_debouncer, step, run, flush_all,
}
use anonka.Telegram.Debounce.Accounting.{total, lost_in, arrived_in, total-run}
use anonka.Telegram.Debounce.Overwriting.{overwritten_message_lost}

machine : Unit {0}
unfolding run step new_debouncer flush_all lookup insert delete text_eq
machine = tt

abbrev at_time : ℕ → Message
at_time t = record { id = t; chat_id = text "7"; timestamp = t }

-- Two messages arrive out of order, and are handed over in order.
batch :
    (run (new_debouncer 100 none none) (
      (10, arrives true (at_time 9))
      ∷ (11, arrives true (at_time 8))
      ∷ (109, fires (text "7"))
      ∷ [])).flushed
    ≡ (at_time 8 ∷ at_time 9 ∷ []) ∷ []
unfolding machine
batch = refl

abbrev full_buffer : Buffer
full_buffer = record { messages = at_time 1 ∷ []; timer = some 101 }

-- A buffer of one message is full.
abbrev full_debouncer : Debouncer
full_debouncer = record {
  config = record { debounce_ms = 100; max_debounce_ms = 300; max_buffer_size = 1 };
  buffers = (text "7", full_buffer) ∷ [];
  waiting = [];
  flushed = [];
}

abbrev full_race : List (ℕ × Event)
full_race = (2, arrives true (at_time 2)) ∷ (3, arrives true (at_time 3)) ∷ (4, resumes 0) ∷ []

abbrev everyone : Message → Bool
everyone m = true

held : lookup (text "7") full_debouncer.buffers ≡ some full_buffer
unfolding machine
held = refl

full_debouncer-Unique : Unique full_debouncer.buffers
unfolding machine
full_debouncer-Unique = (refl, tt)

total-run_example :
    total everyone (run full_debouncer full_race) + lost_in everyone full_debouncer full_race
    ≡ total everyone full_debouncer + arrived_in everyone full_race
total-run_example = total-run everyone full_debouncer full_race full_debouncer-Unique

overwritten_message_lost_example :
    total everyone (run full_debouncer full_race) + 1 ≡ total everyone full_debouncer + 2
overwritten_message_lost_example =
    overwritten_message_lost everyone full_debouncer (at_time 2) (at_time 3) full_buffer 2 3 4
      full_debouncer-Unique (omega arith) held (omega arith) refl
