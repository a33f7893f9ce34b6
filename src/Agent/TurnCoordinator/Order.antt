-- ===== src/Agent/TurnCoordinator/Order.antt =====
-- The turns of a session never overlap, over every interleaving.
use anonka.Prelude.{
  and_iff, ℕ, ◌-◌, ◌<◌, ◌≡◌, refl, ap, ◌∙◌, true, false, List, [], ◌∷◌, Option, none, some, Text,
  ltb, leb, arith, Bool-cases, inl, inr,
}
use anonka.Prelude.Dicts.{lookup}
use anonka.Agent.TurnCoordinator.{
  Options, Phase, queued, waiting, running, leaving, finished, is_turn, Coordinator,
  new_coordinator, set_phase, run_turn, acquire_slot, begin_turn, expire, release_slot, end_turn,
  settle, is_queued, is_finished, Progress, begins, expires, ends, settles, Event, runs, goes_on,
  is_free, is_enabled, progress, step, run,
}
use anonka.Agent.TurnCoordinator.Phases.{set_phase_here}
use anonka.Agent.TurnCoordinator.Queue.{kept, passed, grant_cases}
use anonka.Agent.TurnCoordinator.Slots.{IsCounted, IsWithinLimits, alive, made}
use anonka.Agent.TurnCoordinator.Phases.{queued_phase, waiting_phase, running_phase, leaving_phase}
use anonka.Agent.TurnCoordinator.Limits.{
  left, left-IsCounted, granted_waits, step-IsWithinLimits, new-IsWithinLimits,
}
use anonka.Agent.TurnCoordinator.Sessions.{
  IsSerial, free-IsNext, set_phase-IsSerial, delete-IsSerial,
}
use anonka.Agent.TurnCoordinator.NewTurn.{set_turn-IsSerial}

abbrev pub IsOrdered : Coordinator → Type 0
IsOrdered c = IsSerial c.chains c.turns c.next

module _ (c : Coordinator) (v : IsCounted c) (u : IsOrdered c) where
  -- A turn that has begun goes on to another phase.
  goes_on-IsOrdered :
      (i : ℕ) (p q : Phase)
      → (c.turns i).phase ≡ p
      → alive p ≡ true
      → is_queued p ≡ false
      → is_queued q ≡ false
      → IsSerial c.chains (set_phase i q c.turns) c.next
  goes_on-IsOrdered i p q is lives begun on =
      set_phase-IsSerial c.chains c.turns c.next u i q (ap is_finished is ∙ not_finished p lives)
        (u.order i (made c v i p is lives) (ap is_queued is ∙ begun))
    where
      not_finished : (p : Phase) → alive p ≡ true → is_finished p ≡ false
      not_finished queued h = refl
      not_finished waiting h = refl
      not_finished running h = refl
      not_finished leaving h = refl
      not_finished finished h = cc

  begins-IsOrdered :
      (i : ℕ) (q : Phase)
      → (c.turns i).phase ≡ queued
      → is_free c.turns (c.turns i).previous ≡ true
      → IsSerial c.chains (set_phase i q c.turns) c.next
  begins-IsOrdered i q is free =
      set_phase-IsSerial c.chains c.turns c.next u i q (ap is_finished is)
        (free-IsNext c.chains c.turns c.next u i (made c v i queued is refl) free)

  begin_turn-IsOrdered :
      (o : Options) (i now : ℕ)
      → (c.turns i).phase ≡ queued
      → is_free c.turns (c.turns i).previous ≡ true
      → IsOrdered (begin_turn o c i now)
  unfolding begin_turn acquire_slot
  begin_turn-IsOrdered o i now is free =
      elim (Bool-cases (leb o.max_queue_wait_ms (now - (c.turns i).enqueued_at))) [
        | inl late ↦ rw (late, begin_turn) (begins-IsOrdered i leaving is free)
        | inr in_time ↦ elim (Bool-cases (ltb c.active o.max_concurrent)) [
          | inl slot ↦
              rw (in_time, begin_turn)
                (rw (slot, acquire_slot) (begins-IsOrdered i running is free))
          | inr full ↦
              rw (in_time, begin_turn)
                (rw (full, acquire_slot) (begins-IsOrdered i waiting is free))
        ]
      ]

  settle-IsOrdered : (i : ℕ) → (c.turns i).phase ≡ leaving → IsOrdered (settle c i)
  unfolding settle
  settle-IsOrdered i is =
      let gone = goes_on-IsOrdered i leaving finished is refl refl refl in
      let key = (c.turns i).session_key in
      elim (Bool-cases (is_turn (lookup key c.chains) i)) [
        | inl ends_chain ↦
            rw (ends_chain, settle)
              (delete-IsSerial c.chains (set_phase i finished c.turns) c.next gone key i
                (turn_found (lookup key c.chains) i ends_chain)
                (ap is_finished (set_phase_here i finished c.turns)))
        | inr later ↦ rw (later, settle) gone
      ]
    where
      turn_found : (l : Option ℕ) (i : ℕ) → is_turn l i ≡ true → l ≡ some i
      turn_found none i h = cc
      turn_found (some j) i h = ap some (ground (arith, h))

  run_turn-IsOrdered : (o : Options) (key : Text) (now : ℕ) → IsOrdered (run_turn o c key now).0
  unfolding run_turn
  run_turn-IsOrdered o key now = elim (Bool-cases (leb o.max_pending c.pending)) [
    | inl full ↦ rw (full, run_turn) u
    | inr room ↦
        rw (room, run_turn)
          (set_turn-IsSerial c.chains c.turns c.next u key
            (record {
              session_key = key;
              enqueued_at = now;
              previous = lookup key c.chains;
              phase = queued;
            })
            refl refl refl)
  ]

module _ (o : Options) (c : Coordinator) (v : IsWithinLimits o c) (u : IsOrdered c) where
  end_turn-IsOrdered : (i : ℕ) → (c.turns i).phase ≡ running → IsOrdered (end_turn c i)
  unfolding end_turn release_slot
  end_turn-IsOrdered i is =
      let gone = goes_on-IsOrdered c v.counts u i running leaving is refl refl refl in
      let lc = left-IsCounted o c v i is in
      elim (grant_cases (left o c v i) c.slot_waiters) [
        | kept e none_waits ↦ rw e gone
        | passed k rest e queue ↦ rw e (
            goes_on-IsOrdered (left o c v i) lc gone k waiting running
              (granted_waits o c v i is k rest queue) refl refl refl)
      ]

  pub progress-IsOrdered : (p : Progress) → is_enabled c p ≡ true → IsOrdered (progress o c p)
  unfolding expire set_phase
  progress-IsOrdered (begins i now) e =
      let (is, free) = (and_iff (is_queued (c.turns i).phase) _).0 e in
      begin_turn-IsOrdered c v.counts u o i now (queued_phase (c.turns i).phase is) free
  progress-IsOrdered (expires i) e =
      goes_on-IsOrdered c v.counts u i waiting leaving (waiting_phase (c.turns i).phase e) refl refl
        refl
  progress-IsOrdered (ends i) e = end_turn-IsOrdered i (running_phase (c.turns i).phase e)
  progress-IsOrdered (settles i) e =
      settle-IsOrdered c v.counts u i (leaving_phase (c.turns i).phase e)

  step-IsOrdered : (e : Event) → IsOrdered (step o c e)
  step-IsOrdered (runs key now) = run_turn-IsOrdered c v.counts u o key now
  step-IsOrdered (goes_on p) = elim (Bool-cases (is_enabled c p)) [
    | inl on ↦ rw on (progress-IsOrdered p on)
    | inr off ↦ rw off u
  ]

run_from-IsOrdered :
    (o : Options) (es : List Event) (c : Coordinator)
    → IsWithinLimits o c
    → IsOrdered c
    → IsOrdered (run o c es)
unfolding run
run_from-IsOrdered o [] c v u = u
run_from-IsOrdered o (e ∷ es) c v u =
    run_from-IsOrdered o es (step o c e) (step-IsWithinLimits o c e v) (step-IsOrdered o c v u e)

new-IsOrdered : IsOrdered new_coordinator
unfolding new_coordinator lookup
new-IsOrdered = record {
  last = λ key i e. cc;
  idle = λ key e j m. absurd (omega (arith, m));
  behind = λ j i m e. cc;
  first = λ j m e. absurd (omega (arith, m));
  order = λ j m e. absurd (omega (arith, m));
}

pub run-IsOrdered : (o : Options) (es : List Event) → IsOrdered (run o new_coordinator es)
run-IsOrdered o es = run_from-IsOrdered o es new_coordinator (new-IsWithinLimits o) new-IsOrdered

-- However the turns interleave: once a turn of a session has begun, be it that it waits for a slot, runs
-- or has expired, every earlier turn of the session has settled. So no two turns of a session run at
-- once, and they run in the order of their calls.
pub run-in_order :
    (o : Options) (es : List Event) (j k : ℕ)
    → j < (run o new_coordinator es).next
    → is_queued ((run o new_coordinator es).turns j).phase ≡ false
    → k < j
    → ((run o new_coordinator es).turns k).session_key
      ≡ ((run o new_coordinator es).turns j).session_key
    → is_finished ((run o new_coordinator es).turns k).phase ≡ true
run-in_order o es j k m begun below same = (run-IsOrdered o es).order j m begun k below same
