-- ===== src/Agent/TurnCoordinator/Queue.antt =====
-- The queue of the waiters.
use anonka.Prelude.{
  ℕ, suc, ◌+◌, ◌≡◌, refl, Bool, true, false, ◌&&◌, not, List, [], ◌∷◌, ◌++◌, ◌==◌, if◌then◌else◌,
  arith, Bool-cases, inl, inr,
}
use anonka.Agent.TurnCoordinator.{running, SlotWaiter, Coordinator, set_phase, cancel_waiter, grant}
use anonka.Agent.TurnCoordinator.Phases.{bit}

-- How often a turn stands in the queue without being cancelled.
unfoldable pub places : ℕ → List SlotWaiter → ℕ
places i [] = 0
places i (w ∷ ws) = bit (not w.cancelled && (w.turn == i)) + places i ws

pub places-append :
    (i k : ℕ) (ws : List SlotWaiter)
    → places i (ws ++ record { turn = k; cancelled = false } ∷ []) ≡ places i ws + bit (k == i)
unfolding places
places-append i k [] = omega arith
places-append i k (w ∷ ws) = omega (arith, places-append i k ws)

pub places-cancel :
    (i k : ℕ) (ws : List SlotWaiter)
    → places i (cancel_waiter k ws) ≡ (if i == k then 0 else places i ws)
unfolding places cancel_waiter
places-cancel i k [] = ground arith
places-cancel i k (w ∷ ws) = ground (arith, places-cancel i k ws)

-- The waiter that gets the slot, if one is left that is not cancelled.
pub data Granted (c : Coordinator) (ws : List SlotWaiter) : Type 0 where
  kept : grant c ws ≡ record c { slot_waiters = [] } → ((i : ℕ) → places i ws ≡ 0) → Granted c ws
  passed :
      (k : ℕ) (rest : List SlotWaiter)
      → grant c ws ≡ record c {
        slot_waiters = rest;
        active = suc c.active;
        turns = set_phase k running c.turns;
      }
      → ((i : ℕ) → places i ws ≡ bit (k == i) + places i rest)
      → Granted c ws

pub grant_cases : (c : Coordinator) (ws : List SlotWaiter) → Granted c ws
unfolding grant places
grant_cases c [] = kept refl (λ i. refl)
grant_cases c (w ∷ ws) = elim (Bool-cases w.cancelled) [
  | inl gone ↦ elim (grant_cases c ws) [
    | kept e p ↦ kept (rw (gone, grant) e) (λ i. rw (gone, places) (omega (arith, p i)))
    | passed k rest e p ↦
        passed k rest (rw (gone, grant) e) (λ i. rw (gone, places) (omega (arith, p i)))
  ]
  | inr live ↦ passed w.turn ws (rw (live, grant) refl) (λ i. rw (live, places) refl)
]

pub first_place : (b : Bool) (n : ℕ) → bit b ≡ 1 + n → (b ≡ true) × (n ≡ 0)
first_place true n h = (refl, omega (arith, h))
first_place false n h = absurd (omega (arith, h))
