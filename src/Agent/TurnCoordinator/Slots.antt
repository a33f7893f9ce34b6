-- ===== src/Agent/TurnCoordinator/Slots.antt =====
-- What the counters count, and one turn that changes its phase.
use anonka.Prelude.{
  ℕ, ◌+◌, ◌≤◌, ◌<◌, ◌≡◌, refl, sym, ap, ◌∙◌, Bool, true, false, not, List, ltb, ◌==◌, if◌then◌else◌,
  arith, Bool-cases, inl, inr,
}
use anonka.Prelude.Dicts.{Dict}
use anonka.Agent.TurnCoordinator.{
  Options, Phase, finished, Turn, SlotWaiter, Coordinator, set_phase, is_waiting, is_running,
  is_finished,
}
use anonka.Agent.TurnCoordinator.Phases.{
  total, bit, running_turns, unfinished_turns, set_phase_other, total-set_phase, test-set_phase,
}
use anonka.Agent.TurnCoordinator.Queue.{places}

-- The counters count the turns, and the queue holds the turns that wait, each of them once.
pub record IsCounted (c : Coordinator) : Type 0 where
  pub held : running_turns c.turns c.next ≡ c.active
  pub counted : unfinished_turns c.turns c.next ≡ c.pending
  pub in_queue : (i : ℕ) → places i c.slot_waiters ≡ bit (is_waiting (c.turns i).phase)
  pub beyond : (i : ℕ) → c.next ≤ i → (c.turns i).phase ≡ finished

-- The limits hold, and no turn waits while a slot is free.
pub record IsWithinLimits (o : Options) (c : Coordinator) : Type 0 where
  pub counts : IsCounted c
  pub room : c.active ≤ o.max_concurrent
  pub few : c.pending ≤ o.max_pending
  pub busy : (i : ℕ) → is_waiting (c.turns i).phase ≡ true → o.max_concurrent ≤ c.active

abbrev pub alive : Phase → Bool
alive p = not (is_finished p)

module _ (c : Coordinator) (v : IsCounted c) (i : ℕ) (p : Phase) (is : (c.turns i).phase ≡ p) where
  pub made : alive p ≡ true → i < c.next
  made lives = elim (Bool-cases (ltb i c.next)) [
    | inl below ↦ ground (arith, below)
    | inr above ↦
        let bad : false ≡ true =
          sym (ap alive (v.beyond i (ground (arith, above)))) ∙ ap alive is ∙ lives in
        cc
  ]

  pub not_in_queue : is_waiting p ≡ false → places i c.slot_waiters ≡ 0
  not_in_queue out = v.in_queue i ∙ ap bit (ap is_waiting is ∙ out)

  module _ (q : Phase) where
    -- A phase that is set changes the sums by what it changes at the turn.
    pub moved :
        (w : Phase → ℕ)
        → alive p ≡ true
        → total w (set_phase i q c.turns) c.next + w p ≡ total w c.turns c.next + w q
    moved w lives = omega (arith, total-set_phase w i q c.turns c.next (made lives), ap w is)

    pub still_waits :
        (j : ℕ)
        → is_waiting q ≡ false
        → is_waiting (set_phase i q c.turns j).phase ≡ true
        → is_waiting (c.turns j).phase ≡ true
    still_waits j out w = elim (Bool-cases (j == i)) [
      | inl here ↦
          let bad : is_waiting q ≡ true =
            sym (test-set_phase is_waiting i j q c.turns ∙ rw here refl) ∙ w in
          cc
      | inr other ↦ sym (test-set_phase is_waiting i j q c.turns ∙ rw other refl) ∙ w
    ]

    -- One turn changes its phase, and the counters and the queue follow it.
    pub set_phase-IsCounted :
        (chains : Dict ℕ) (ws : List SlotWaiter) (active pending : ℕ)
        → alive p ≡ true
        → active + bit (is_running p) ≡ c.active + bit (is_running q)
        → pending + bit (alive p) ≡ c.pending + bit (alive q)
        → ((j : ℕ) → places j ws ≡ (if j == i then bit (is_waiting q) else places j c.slot_waiters))
        → IsCounted (record c {
          chains = chains;
          slot_waiters = ws;
          active = active;
          pending = pending;
          turns = set_phase i q c.turns;
        })
    set_phase-IsCounted chains ws active pending lives slots turns queue = record {
      held = omega (arith, slots, v.held, moved (λ p. bit (is_running p)) lives);
      counted = omega (arith, turns, v.counted, moved (λ p. bit (alive p)) lives);
      in_queue = λ j.
          queue j ∙ by_turn j (j == i) ∙ ap bit (sym (test-set_phase is_waiting i j q c.turns));
      beyond = λ j above.
          ap (λ (t : Turn). t.phase)
            (set_phase_other i j q c.turns (ground (arith, made lives, above)))
          ∙ v.beyond j above;
    }
      where
        by_turn :
            (j : ℕ) (b : Bool)
            → (if b then bit (is_waiting q) else places j c.slot_waiters)
              ≡ bit (if b then is_waiting q else is_waiting (c.turns j).phase)
        by_turn j true = refl
        by_turn j false = v.in_queue j
