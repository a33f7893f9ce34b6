-- ===== src/Agent/TurnCoordinator/Tests.antt =====
-- The coordinator at concrete inputs.
use anonka.Prelude.{◌≡◌, refl, true, List, [], ◌∷◌, text, text_eq, arith}
use anonka.Prelude.Dicts.{lookup, insert, delete}
use anonka.Agent.TurnCoordinator.{
  Options, waiting, running, Coordinator, new_coordinator, set_phase, run_turn, acquire_slot,
  begin_turn, cancel_waiter, expire, grant, release_slot, end_turn, settle, begins, ends, settles,
  Event, runs, goes_on, is_finished, run,
}
use anonka.Agent.TurnCoordinator.Slots.{IsWithinLimits}
use anonka.Agent.TurnCoordinator.Limits.{run-IsWithinLimits}
use anonka.Agent.TurnCoordinator.Order.{run-in_order}
use anonka.Agent.TurnCoordinator.Draining.{Drains, run-Drains}

coordinated : Unit {0}
unfolding run new_coordinator run_turn acquire_slot begin_turn set_phase cancel_waiter expire grant
    release_slot end_turn settle lookup insert delete text_eq
coordinated = tt

abbrev one_slot : Options
one_slot = record { max_concurrent = 1; max_pending = 3; max_queue_wait_ms = 60000 }

-- Two sessions share the slot, the second turn of the first session waits for the first one, and a fourth
-- turn is rejected.
abbrev three_turns : List Event
three_turns =
    runs (text "a") 0
    ∷ runs (text "b") 1
    ∷ runs (text "a") 2
    ∷ runs (text "c") 3
    ∷ goes_on (begins 0 4)
    ∷ goes_on (begins 1 5)
    ∷ []

abbrev then_ends : List Event
then_ends = goes_on (ends 0) ∷ goes_on (settles 0) ∷ goes_on (begins 2 6) ∷ []

abbrev reached : List Event → Coordinator
reached es = run one_slot new_coordinator es

abbrev all_of_them : List Event
all_of_them =
    runs (text "a") 0
    ∷ runs (text "b") 1
    ∷ runs (text "a") 2
    ∷ goes_on (begins 0 4)
    ∷ goes_on (begins 1 5)
    ∷ then_ends

rejected_fourth : (reached three_turns).next ≡ 3
unfolding coordinated
rejected_fourth = refl

second_waits : ((reached three_turns).turns 1).phase ≡ waiting
unfolding coordinated
second_waits = refl

-- The slot passes to the waiter, and the session's second turn queues for it.
slot_passed : ((reached all_of_them).turns 1).phase ≡ running
unfolding coordinated
slot_passed = refl

queues_up : ((reached all_of_them).turns 2).phase ≡ waiting
unfolding coordinated
queues_up = refl

run-IsWithinLimits_example : IsWithinLimits one_slot (reached all_of_them)
run-IsWithinLimits_example = run-IsWithinLimits one_slot all_of_them

run-in_order_example : is_finished ((reached all_of_them).turns 0).phase ≡ true
unfolding coordinated
run-in_order_example = run-in_order one_slot all_of_them 2 0 (omega arith) refl (omega arith) refl

run-Drains_example : Drains one_slot (reached three_turns)
run-Drains_example = run-Drains one_slot three_turns
