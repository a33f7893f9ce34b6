-- ===== src/Agent/TurnCoordinator/Limits.antt =====
-- The limits of the turns, over every interleaving.
use anonka.Prelude.{
  and_iff, ℕ, suc, ◌+◌, ◌-◌, ◌<◌, ◌≡◌, refl, sym, ap, ◌∙◌, true, false, List, [], ◌∷◌, ◌++◌, Text,
  ltb, leb, ◌==◌, arith, Bool-cases, inl, inr,
}
use anonka.Prelude.Dicts.{lookup}
use anonka.Agent.TurnCoordinator.{
  Options, queued, waiting, running, leaving, finished, Turn, SlotWaiter, Coordinator,
  new_coordinator, set_phase, set_turn, run_turn, acquire_slot, begin_turn, cancel_waiter, expire,
  release_slot, end_turn, settle, is_queued, is_waiting, is_running, Progress, begins, expires,
  ends, settles, Event, runs, goes_on, is_enabled, progress, step, run,
}
use anonka.Agent.TurnCoordinator.Phases.{total, bit, set_turn_other, total-set_turn}
use anonka.Agent.TurnCoordinator.Queue.{
  places, places-append, places-cancel, kept, passed, grant_cases, first_place,
}
use anonka.Agent.TurnCoordinator.Slots.{
  IsCounted, IsWithinLimits, alive, not_in_queue, moved, still_waits, set_phase-IsCounted,
}
use anonka.Agent.TurnCoordinator.Phases.{queued_phase, waiting_phase, running_phase, leaving_phase}

module _ (o : Options) (c : Coordinator) (v : IsWithinLimits o c) where
  acquire_slot-IsWithinLimits :
      (i : ℕ) → (c.turns i).phase ≡ queued → IsWithinLimits o (acquire_slot o c i)
  unfolding acquire_slot
  acquire_slot-IsWithinLimits i is = elim (Bool-cases (ltb c.active o.max_concurrent)) [
    | inl free ↦
        rw (free, acquire_slot)
          (record {
            counts =
                set_phase-IsCounted c v.counts i queued is running c.chains c.slot_waiters
                  (suc c.active) c.pending refl (omega arith) refl
                  (λ j. ground (arith, not_in_queue c v.counts i queued is refl));
            room = ground (arith, free);
            few = v.few;
            busy = λ j w.
                omega (arith, v.busy j (still_waits c v.counts i queued is running j refl w));
          })
    | inr full ↦
        rw (full, acquire_slot)
          (record {
            counts =
                set_phase-IsCounted c v.counts i queued is waiting c.chains
                  (c.slot_waiters ++ record { turn = i; cancelled = false } ∷ []) c.active c.pending
                  refl (omega arith) refl
                  (λ j. ground (
                    arith,
                    places-append j i c.slot_waiters,
                    not_in_queue c v.counts i queued is refl,
                  ));
            room = v.room;
            few = v.few;
            busy = λ j w. ground (arith, full);
          })
  ]

  begin_turn-IsWithinLimits :
      (i now : ℕ) → (c.turns i).phase ≡ queued → IsWithinLimits o (begin_turn o c i now)
  unfolding begin_turn
  begin_turn-IsWithinLimits i now is =
      elim (Bool-cases (leb o.max_queue_wait_ms (now - (c.turns i).enqueued_at))) [
        | inl late ↦
            rw (late, begin_turn)
              (record {
                counts =
                    set_phase-IsCounted c v.counts i queued is leaving c.chains c.slot_waiters
                      c.active c.pending refl (omega arith) refl
                      (λ j. ground (arith, not_in_queue c v.counts i queued is refl));
                room = v.room;
                few = v.few;
                busy = λ j w. v.busy j (still_waits c v.counts i queued is leaving j refl w);
              })
        | inr in_time ↦ rw (in_time, begin_turn) (acquire_slot-IsWithinLimits i is)
      ]

  expire-IsWithinLimits : (i : ℕ) → (c.turns i).phase ≡ waiting → IsWithinLimits o (expire c i)
  unfolding expire
  expire-IsWithinLimits i is = record {
    counts =
        set_phase-IsCounted c v.counts i waiting is leaving c.chains
          (cancel_waiter i c.slot_waiters) c.active c.pending refl (omega arith) refl
          (λ j. places-cancel j i c.slot_waiters);
    room = v.room;
    few = v.few;
    busy = λ j w. v.busy j (still_waits c v.counts i waiting is leaving j refl w);
  }

  one_pending : (i : ℕ) → (c.turns i).phase ≡ leaving → 0 < c.pending
  one_pending i is =
      let less = moved c v.counts i leaving is finished (λ p. bit (alive p)) refl in
      omega (arith, v.counts.counted, less)

  settle-IsWithinLimits : (i : ℕ) → (c.turns i).phase ≡ leaving → IsWithinLimits o (settle c i)
  unfolding settle
  settle-IsWithinLimits i is = record {
    counts =
        set_phase-IsCounted c v.counts i leaving is finished (settle c i).chains c.slot_waiters
          c.active (c.pending - 1) refl (omega arith) (omega (arith, one_pending i is))
          (λ j. ground (arith, not_in_queue c v.counts i leaving is refl));
    room = v.room;
    few = omega (arith, v.few);
    busy = λ j w. v.busy j (still_waits c v.counts i leaving is finished j refl w);
  }

  one_active : (i : ℕ) → (c.turns i).phase ≡ running → 0 < c.active
  one_active i is =
      let less = moved c v.counts i running is finished (λ p. bit (is_running p)) refl in
      omega (arith, v.counts.held, less)

  -- The turn has left, and its slot is not yet passed on.
  abbrev pub left : ℕ → Coordinator
  left i = record c { active = c.active - 1; turns = set_phase i leaving c.turns }

  pub left-IsCounted : (i : ℕ) → (c.turns i).phase ≡ running → IsCounted (left i)
  left-IsCounted i is =
      set_phase-IsCounted c v.counts i running is leaving c.chains c.slot_waiters (c.active - 1)
        c.pending refl (omega (arith, one_active i is)) refl
        (λ j. ground (arith, not_in_queue c v.counts i running is refl))

  nobody_waits :
      (i : ℕ)
      → (c.turns i).phase ≡ running
      → ((j : ℕ) → places j c.slot_waiters ≡ 0)
      → IsWithinLimits o (record c {
        slot_waiters = [];
        active = c.active - 1;
        turns = set_phase i leaving c.turns;
      })
  unfolding places
  nobody_waits i is empty =
      let lc = left-IsCounted i is in
      record {
        counts = record {
          held = lc.held;
          counted = lc.counted;
          in_queue = λ j. sym (empty j) ∙ lc.in_queue j;
          beyond = lc.beyond;
        };
        room = omega (arith, v.room);
        few = v.few;
        busy = λ j w.
            let one : 0 ≡ 1 = sym (empty j) ∙ lc.in_queue j ∙ ap bit w in
            absurd (omega (arith, one));
      }

  granted_place :
      (i : ℕ)
      → (c.turns i).phase ≡ running
      → (k : ℕ) (rest : List SlotWaiter)
      → ((j : ℕ) → places j c.slot_waiters ≡ bit (k == j) + places j rest)
      → (is_waiting (set_phase i leaving c.turns k).phase ≡ true) × (places k rest ≡ 0)
  granted_place i is k rest queue =
      first_place (is_waiting (set_phase i leaving c.turns k).phase) (places k rest)
        (ground (arith, queue k, (left-IsCounted i is).in_queue k))

  -- The turn that gets the slot was waiting.
  pub granted_waits :
      (i : ℕ)
      → (c.turns i).phase ≡ running
      → (k : ℕ) (rest : List SlotWaiter)
      → ((j : ℕ) → places j c.slot_waiters ≡ bit (k == j) + places j rest)
      → (set_phase i leaving c.turns k).phase ≡ waiting
  granted_waits i is k rest queue =
      waiting_phase (set_phase i leaving c.turns k).phase (granted_place i is k rest queue).0

  next_runs :
      (i : ℕ)
      → (c.turns i).phase ≡ running
      → (k : ℕ) (rest : List SlotWaiter)
      → ((j : ℕ) → places j c.slot_waiters ≡ bit (k == j) + places j rest)
      → IsWithinLimits o (record c {
        slot_waiters = rest;
        active = suc (c.active - 1);
        turns = set_phase k running (set_phase i leaving c.turns);
      })
  next_runs i is k rest queue =
      let lc = left-IsCounted i is in
      let once = (granted_place i is k rest queue).1 in
      let k_waits = granted_waits i is k rest queue in
      record {
        counts =
            set_phase-IsCounted (left i) lc k waiting k_waits running c.chains rest
              (suc (c.active - 1)) c.pending refl (omega arith) refl
              (λ j. ground (arith, queue j, once));
        room = omega (arith, v.room, one_active i is);
        few = v.few;
        busy = λ j w. omega (
          arith,
          v.busy j (
              still_waits c v.counts i running is leaving j refl
                (still_waits (left i) lc k waiting k_waits running j refl w)),
        );
      }

  end_turn-IsWithinLimits : (i : ℕ) → (c.turns i).phase ≡ running → IsWithinLimits o (end_turn c i)
  unfolding end_turn release_slot
  end_turn-IsWithinLimits i is = elim (grant_cases (left i) c.slot_waiters) [
    | kept e none_waits ↦ rw e (nobody_waits i is none_waits)
    | passed k rest e queue ↦ rw e (next_runs i is k rest queue)
  ]

  abbrev made_turn : Text → ℕ → Turn
  made_turn key now = record {
    session_key = key;
    enqueued_at = now;
    previous = lookup key c.chains;
    phase = queued;
  }

  waits_as_before :
      (key : Text) (now j : ℕ)
      → is_waiting (set_turn c.next (made_turn key now) c.turns j).phase
        ≡ is_waiting (c.turns j).phase
  waits_as_before key now j = elim (Bool-cases (j == c.next)) [
    | inl new ↦
        let unused : is_waiting (c.turns j).phase ≡ false =
          ap is_waiting (v.counts.beyond j (ground (arith, new))) in
        rw new (sym unused)
    | inr old ↦ rw old refl
  ]

  pub run_turn-IsWithinLimits : (key : Text) (now : ℕ) → IsWithinLimits o (run_turn o c key now).0
  unfolding run_turn
  run_turn-IsWithinLimits key now = elim (Bool-cases (leb o.max_pending c.pending)) [
    | inl full ↦ rw (full, run_turn) v
    | inr room ↦
        rw (room, run_turn)
          (record {
            counts = record {
              held = omega (
                arith,
                v.counts.held,
                total-set_turn (λ p. bit (is_running p)) (made_turn key now) c.turns c.next,
              );
              counted = omega (
                arith,
                v.counts.counted,
                total-set_turn (λ p. bit (alive p)) (made_turn key now) c.turns c.next,
              );
              in_queue = λ j. v.counts.in_queue j ∙ ap bit (sym (waits_as_before key now j));
              beyond = λ j above.
                  ap (λ (t : Turn). t.phase)
                    (set_turn_other c.next j (made_turn key now) c.turns (ground (arith, above)))
                  ∙ v.counts.beyond j (omega (arith, above));
            };
            room = v.room;
            few = ground (arith, room);
            busy = λ j w. v.busy j (sym (waits_as_before key now j) ∙ w);
          })
  ]

pub progress-IsWithinLimits :
    (o : Options) (c : Coordinator) (p : Progress)
    → IsWithinLimits o c
    → is_enabled c p ≡ true
    → IsWithinLimits o (progress o c p)
progress-IsWithinLimits o c (begins i now) v e =
    begin_turn-IsWithinLimits o c v i now
      (queued_phase (c.turns i).phase ((and_iff (is_queued (c.turns i).phase) _).0 e).0)
progress-IsWithinLimits o c (expires i) v e =
    expire-IsWithinLimits o c v i (waiting_phase (c.turns i).phase e)
progress-IsWithinLimits o c (ends i) v e =
    end_turn-IsWithinLimits o c v i (running_phase (c.turns i).phase e)
progress-IsWithinLimits o c (settles i) v e =
    settle-IsWithinLimits o c v i (leaving_phase (c.turns i).phase e)

pub step-IsWithinLimits :
    (o : Options) (c : Coordinator) (e : Event) → IsWithinLimits o c → IsWithinLimits o (step o c e)
step-IsWithinLimits o c (runs key now) v = run_turn-IsWithinLimits o c v key now
step-IsWithinLimits o c (goes_on p) v = elim (Bool-cases (is_enabled c p)) [
  | inl on ↦ rw on (progress-IsWithinLimits o c p v on)
  | inr off ↦ rw off v
]

run_from-IsWithinLimits :
    (o : Options) (es : List Event) (c : Coordinator)
    → IsWithinLimits o c
    → IsWithinLimits o (run o c es)
unfolding run
run_from-IsWithinLimits o [] c v = v
run_from-IsWithinLimits o (e ∷ es) c v =
    run_from-IsWithinLimits o es (step o c e) (step-IsWithinLimits o c e v)

pub new-IsWithinLimits : (o : Options) → IsWithinLimits o new_coordinator
unfolding new_coordinator total places
new-IsWithinLimits o = record {
  counts = record { held = refl; counted = refl; in_queue = λ i. refl; beyond = λ i h. refl };
  room = omega arith;
  few = omega arith;
  busy = λ i w. cc;
}

-- Whatever is run and however the turns interleave: the slots in use and the pending turns are counted
-- rightly and stay within their limits, every turn that waits for a slot is in the queue, not cancelled
-- and once only, and while one waits no slot is free.
pub run-IsWithinLimits :
    (o : Options) (es : List Event) → IsWithinLimits o (run o new_coordinator es)
run-IsWithinLimits o es = run_from-IsWithinLimits o es new_coordinator (new-IsWithinLimits o)
