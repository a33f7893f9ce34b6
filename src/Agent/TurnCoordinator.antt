-- ===== src/Agent/TurnCoordinator.antt =====
-- src/agent/turn-coordinator.ts: the turns of the agent, in order within a session and with a bounded number
-- of slots over all sessions. A turn is the number of the call of `run`; its phase says how far its
-- promise is. The steps of the promises are functions of the coordinator, and the events say in which
-- order they come, each only when its promise allows it. The clock never runs backwards.
pub mod Phases
pub mod Queue
pub mod Slots
pub mod Limits
pub mod Sessions
pub mod NewTurn
pub mod Order
pub mod Draining
pub mod Tests
use anonka.Prelude.{
  ℕ, zero, suc, ◌+◌, ◌-◌, Bool, true, false, ◌&&◌, List, [], ◌∷◌, ◌++◌, Option, none, some, Text,
  ltb, leb, ◌==◌, if◌then◌else◌,
}
use anonka.Prelude.Dicts.{Dict, lookup, insert, delete}

pub record Options : Type 0 where
  pub max_concurrent : ℕ
  pub max_pending : ℕ
  pub max_queue_wait_ms : ℕ

-- Behind the session's earlier turn, in the queue for a slot, with a slot, with a promise that settles
-- next, and settled.
pub data Phase : Type 0 where
  queued waiting running leaving finished : Phase

pub record Turn : Type 0 where
  pub session_key : Text
  pub enqueued_at : ℕ
  pub previous : Option ℕ
  pub phase : Phase

pub record SlotWaiter : Type 0 where
  pub turn : ℕ
  pub cancelled : Bool

-- `turns` and `next` stand for the promises: the turns made so far are those below `next`.
pub record Coordinator : Type 0 where
  pub chains : Dict ℕ
  pub slot_waiters : List SlotWaiter
  pub active : ℕ
  pub pending : ℕ
  pub turns : ℕ → Turn
  pub next : ℕ

abbrev pub no_turn : Turn
no_turn = record { session_key = []; enqueued_at = 0; previous = none; phase = finished }

unfoldable pub new_coordinator : Coordinator
new_coordinator = record {
  chains = [];
  slot_waiters = [];
  active = 0;
  pending = 0;
  turns = λ i. no_turn;
  next = 0;
}

unfoldable pub set_phase : ℕ → Phase → (ℕ → Turn) → ℕ → Turn
set_phase i p f j = if j == i then record (f j) { phase = p } else f j

abbrev pub set_turn : ℕ → Turn → (ℕ → Turn) → ℕ → Turn
set_turn i t f j = if j == i then t else f j

module _ (o : Options) where
  -- `run`: `none` if it is rejected at once.
  unfoldable pub run_turn : Coordinator → Text → ℕ → Coordinator × Option ℕ
  run_turn c session_key now = if leb o.max_pending c.pending then (c, none) else (
    record c {
      pending = suc c.pending;
      chains = insert session_key c.next c.chains;
      next = suc c.next;
      turns =
          set_turn c.next
            (record {
              session_key = session_key;
              enqueued_at = now;
              previous = lookup session_key c.chains;
              phase = queued;
            })
            c.turns;
    },
    some c.next,
  )

  unfoldable pub acquire_slot : Coordinator → ℕ → Coordinator
  unfolding set_phase
  acquire_slot c i =
      if ltb c.active o.max_concurrent
      then record c { active = suc c.active; turns = set_phase i running c.turns }
      else record c {
        slot_waiters = c.slot_waiters ++ record { turn = i; cancelled = false } ∷ [];
        turns = set_phase i waiting c.turns;
      }

  -- The earlier turn of the session has settled.
  unfoldable pub begin_turn : Coordinator → ℕ → ℕ → Coordinator
  unfolding set_phase acquire_slot
  begin_turn c i now =
      if leb o.max_queue_wait_ms (now - (c.turns i).enqueued_at)
      then record c { turns = set_phase i leaving c.turns }
      else acquire_slot c i

unfoldable pub cancel_waiter : ℕ → List SlotWaiter → List SlotWaiter
cancel_waiter i [] = []
cancel_waiter i (w ∷ ws) =
    (if w.turn == i then record w { cancelled = true } else w) ∷ cancel_waiter i ws

-- The timer of a waiter fires, and rejects its promise.
unfoldable pub expire : Coordinator → ℕ → Coordinator
unfolding set_phase cancel_waiter
expire c i = record c {
  slot_waiters = cancel_waiter i c.slot_waiters;
  turns = set_phase i leaving c.turns;
}

-- The `while` loop of `releaseSlot`: the first waiter that is not cancelled is given the slot.
unfoldable pub grant : Coordinator → List SlotWaiter → Coordinator
unfolding set_phase
grant c [] = record c { slot_waiters = [] }
grant c (w ∷ ws) =
    let later = grant c ws in
    if w.cancelled then later else record c {
      slot_waiters = ws;
      active = suc c.active;
      turns = set_phase w.turn running c.turns;
    }

unfoldable pub release_slot : Coordinator → Coordinator
unfolding grant
release_slot c = grant (record c { active = c.active - 1 }) c.slot_waiters

-- The task of a turn has settled, either way.
unfoldable pub end_turn : Coordinator → ℕ → Coordinator
unfolding set_phase release_slot
end_turn c i = release_slot (record c { turns = set_phase i leaving c.turns })

abbrev pub is_turn : Option ℕ → ℕ → Bool
is_turn none i = false
is_turn (some j) i = j == i

-- The `finally` of a turn.
unfoldable pub settle : Coordinator → ℕ → Coordinator
unfolding set_phase
settle c i = record c {
  pending = c.pending - 1;
  turns = set_phase i finished c.turns;
  chains =
      (if is_turn (lookup (c.turns i).session_key c.chains) i
        then delete (c.turns i).session_key c.chains
        else c.chains);
}

abbrev pub is_queued : Phase → Bool
is_queued queued = true
is_queued _ = false

abbrev pub is_waiting : Phase → Bool
is_waiting waiting = true
is_waiting _ = false

abbrev pub is_running : Phase → Bool
is_running running = true
is_running _ = false

abbrev pub is_leaving : Phase → Bool
is_leaving leaving = true
is_leaving _ = false

abbrev pub is_finished : Phase → Bool
is_finished finished = true
is_finished _ = false

-- What happens to the turns that are there, and with the calls of `run` what happens at all.
pub data Progress : Type 0 where
  begins : (turn now : ℕ) → Progress
  expires ends settles : (turn : ℕ) → Progress

pub data Event : Type 0 where
  runs : (session_key : Text) (now : ℕ) → Event
  goes_on : Progress → Event

-- The earlier turn of the session, if any, has settled.
abbrev pub is_free : (ℕ → Turn) → Option ℕ → Bool
is_free f none = true
is_free f (some i) = is_finished (f i).phase

-- Whether the promises allow this next.
abbrev pub is_enabled : Coordinator → Progress → Bool
is_enabled c (begins i now) = is_queued (c.turns i).phase && is_free c.turns (c.turns i).previous
is_enabled c (expires i) = is_waiting (c.turns i).phase
is_enabled c (ends i) = is_running (c.turns i).phase
is_enabled c (settles i) = is_leaving (c.turns i).phase

abbrev pub progress : Options → Coordinator → Progress → Coordinator
progress o c (begins i now) = begin_turn o c i now
progress o c (expires i) = expire c i
progress o c (ends i) = end_turn c i
progress o c (settles i) = settle c i

abbrev pub step : Options → Coordinator → Event → Coordinator
step o c (runs session_key now) = (run_turn o c session_key now).0
step o c (goes_on p) = if is_enabled c p then progress o c p else c

unfoldable pub run : Options → Coordinator → List Event → Coordinator
unfolding run_turn begin_turn expire end_turn settle
run o c [] = c
run o c (e ∷ es) = run o (step o c e) es
