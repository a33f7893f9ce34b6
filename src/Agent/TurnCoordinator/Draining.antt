-- ===== src/Agent/TurnCoordinator/Draining.antt =====
-- The turns all settle, over every interleaving.
use anonka.Prelude.{
  and_iff, ℕ, zero, suc, ◌-◌, ◌≤◌, ◌<◌, ◌≡◌, refl, sym, ap, ◌∙◌, Bool, true, false, not, List, ltb,
  leb, ◌==◌, arith, Bool-cases, Option-cases, ==_iff, inl, inr,
}
use anonka.Agent.TurnCoordinator.{
  Options, Phase, queued, waiting, running, leaving, finished, Turn, Coordinator, new_coordinator,
  set_phase, acquire_slot, begin_turn, expire, release_slot, end_turn, settle, is_queued,
  is_running, is_finished, Progress, begins, expires, ends, settles, Event, is_free, is_enabled,
  progress, run,
}
use anonka.Agent.TurnCoordinator.Phases.{total, bit, running_turns, unfinished_turns}
use anonka.Agent.TurnCoordinator.Queue.{kept, passed, grant_cases}
use anonka.Agent.TurnCoordinator.Slots.{IsWithinLimits, alive, moved}
use anonka.Agent.TurnCoordinator.Phases.{queued_phase, waiting_phase, running_phase, leaving_phase}
use anonka.Agent.TurnCoordinator.Limits.{
  left, left-IsCounted, granted_waits, progress-IsWithinLimits, run-IsWithinLimits,
}
use anonka.Agent.TurnCoordinator.Order.{IsOrdered, progress-IsOrdered, run-IsOrdered}

-- How many more phases a turn can go through.
abbrev weight : Phase → ℕ
weight queued = 4
weight waiting = 3
weight running = 2
weight leaving = 1
weight finished = 0

abbrev work : Coordinator → ℕ
work c = total weight c.turns c.next

module _ (o : Options) (c : Coordinator) (v : IsWithinLimits o c) where
  sets_less :
      (i : ℕ) (p q : Phase)
      → (c.turns i).phase ≡ p
      → alive p ≡ true
      → weight q < weight p
      → total weight (set_phase i q c.turns) c.next < work c
  sets_less i p q is lives less =
      let change = moved c v.counts i p is q weight lives in omega (arith, change, less)

  begin_turn-less : (i now : ℕ) → (c.turns i).phase ≡ queued → work (begin_turn o c i now) < work c
  unfolding begin_turn acquire_slot
  begin_turn-less i now is =
      elim (Bool-cases (leb o.max_queue_wait_ms (now - (c.turns i).enqueued_at))) [
        | inl late ↦ rw (late, begin_turn) (sets_less i queued leaving is refl (omega arith))
        | inr in_time ↦ elim (Bool-cases (ltb c.active o.max_concurrent)) [
          | inl slot ↦
              rw (in_time, begin_turn)
                (rw (slot, acquire_slot) (sets_less i queued running is refl (omega arith)))
          | inr full ↦
              rw (in_time, begin_turn)
                (rw (full, acquire_slot) (sets_less i queued waiting is refl (omega arith)))
        ]
      ]

  end_turn-less : (i : ℕ) → (c.turns i).phase ≡ running → work (end_turn c i) < work c
  unfolding end_turn release_slot
  end_turn-less i is =
      let less = sets_less i running leaving is refl (omega arith) in
      elim (grant_cases (left o c v i) c.slot_waiters) [
        | kept e none_waits ↦ rw e less
        | passed k rest e queue ↦
            let change =
              moved (left o c v i) (left-IsCounted o c v i is) k waiting
                (granted_waits o c v i is k rest queue) running weight refl in
            rw e (omega (arith, change, less))
      ]

  progress-less : (p : Progress) → is_enabled c p ≡ true → work (progress o c p) < work c
  unfolding expire settle
  progress-less (begins i now) e =
      begin_turn-less i now
        (queued_phase (c.turns i).phase ((and_iff (is_queued (c.turns i).phase) _).0 e).0)
  progress-less (expires i) e =
      sets_less i waiting leaving (waiting_phase (c.turns i).phase e) refl (omega arith)
  progress-less (ends i) e = end_turn-less i (running_phase (c.turns i).phase e)
  progress-less (settles i) e =
      sets_less i leaving finished (leaving_phase (c.turns i).phase e) refl (omega arith)

all_finished :
    (f : ℕ → Turn) (n k : ℕ) → unfinished_turns f n ≡ 0 → k < n → is_finished (f k).phase ≡ true
unfolding total
all_finished f zero k none_left m = absurd (omega (arith, m))
all_finished f (suc n) k none_left m = elim (Bool-cases (k == n)) [
  | inl is ↦
      ap (λ x. is_finished (f x).phase) ((==_iff k n).0 is)
      ∙ by_bit (is_finished (f n).phase) (omega (arith, none_left))
  | inr before ↦ all_finished f n k (omega (arith, none_left)) (ground (arith, before, m))
]
  where
    by_bit : (b : Bool) → bit (not b) ≡ 0 → b ≡ true
    by_bit true h = refl
    by_bit false h = absurd (omega (arith, h))

-- The earliest turn that has not settled.
earliest :
    (f : ℕ → Turn) (n : ℕ)
    → 0 < unfinished_turns f n
    → (i : ℕ) × (i < n)
      × (is_finished (f i).phase ≡ false)
      × ((k : ℕ) → k < i → is_finished (f k).phase ≡ true)
unfolding total
earliest f zero some_left = absurd (omega (arith, some_left))
earliest f (suc n) some_left = elim (Bool-cases (unfinished_turns f n == 0)) [
  | inl done ↦
      let none_left : unfinished_turns f n ≡ 0 = (==_iff (unfinished_turns f n) 0).0 done in
      (
        n,
        omega arith,
        by_bit (is_finished (f n).phase) (omega (arith, some_left, none_left)),
        λ k m. all_finished f n k none_left m,
      )
  | inr more ↦
      let (i, m, lives, before) = earliest f n (ground (arith, more)) in
      (i, omega (arith, m), lives, before)
]
  where
    by_bit : (b : Bool) → 0 < bit (not b) → b ≡ false
    by_bit true h = absurd (omega (arith, h))
    by_bit false h = refl

-- A pending turn can go on.
not_stuck :
    (o : Options) (c : Coordinator)
    → IsWithinLimits o c
    → IsOrdered c
    → 0 < c.pending
    → (p : Progress) × (is_enabled c p ≡ true)
not_stuck o c v u some_left =
    let (i, m, lives, before) =
      earliest c.turns c.next (omega (arith, v.counts.counted, some_left)) in
    by_phase i (c.turns i).phase refl lives (free i m before)
  where
    free :
        (i : ℕ)
        → i < c.next
        → ((k : ℕ) → k < i → is_finished (c.turns k).phase ≡ true)
        → is_free c.turns (c.turns i).previous ≡ true
    free i m before = elim (Option-cases (c.turns i).previous) [
      | inl e ↦ ap (is_free c.turns) e
      | inr (p, e) ↦ ap (is_free c.turns) e ∙ before p (u.behind i p m e).0
    ]

    by_phase :
        (i : ℕ) (p : Phase)
        → (c.turns i).phase ≡ p
        → is_finished (c.turns i).phase ≡ false
        → is_free c.turns (c.turns i).previous ≡ true
        → (p : Progress) × (is_enabled c p ≡ true)
    by_phase i queued is lives free = (begins i 0, rw is free)
    by_phase i waiting is lives free = (expires i, rw is refl)
    by_phase i running is lives free = (ends i, rw is refl)
    by_phase i leaving is lives free = (settles i, rw is refl)
    by_phase i finished is lives free =
        let bad : true ≡ false = sym (ap is_finished is) ∙ lives in cc

running_unfinished : (f : ℕ → Turn) (n : ℕ) → running_turns f n ≤ unfinished_turns f n
unfolding total
running_unfinished f zero = omega arith
running_unfinished f (suc n) = omega (arith, by_phase (f n).phase, running_unfinished f n)
  where
    by_phase : (p : Phase) → bit (is_running p) ≤ bit (alive p)
    by_phase queued = omega arith
    by_phase waiting = omega arith
    by_phase running = omega arith
    by_phase leaving = omega arith
    by_phase finished = omega arith

-- Without new calls of `run` everything settles whatever comes first: either nothing is pending and no
-- slot is in use, or some turn can go on, and whichever does, the rest drains.
pub data Drains (o : Options) : Coordinator → Type 0 where
  drained : (c : Coordinator) → c.pending ≡ 0 → c.active ≡ 0 → Drains o c
  going_on :
      (c : Coordinator) (p : Progress)
      → is_enabled c p ≡ true
      → ((q : Progress) → is_enabled c q ≡ true → Drains o (progress o c q))
      → Drains o c

Drains-within :
    (n : ℕ) (o : Options) (c : Coordinator)
    → work c < n
    → IsWithinLimits o c
    → IsOrdered c
    → Drains o c
Drains-within zero o c few v u = absurd (omega (arith, few))
Drains-within (suc n) o c few v u = elim (Bool-cases (c.pending == 0)) [
  | inl done ↦
      let empty = (==_iff c.pending 0).0 done in
      drained c empty
        (omega (arith, empty, v.counts.held, v.counts.counted, running_unfinished c.turns c.next))
  | inr more ↦
      let (p, on) = not_stuck o c v u (ground (arith, more)) in
      going_on c p on (λ q e.
        let less = progress-less o c v q e in
        Drains-within n o (progress o c q) (omega (arith, few, less))
          (progress-IsWithinLimits o c q v e) (progress-IsOrdered o c v u q e))
]

-- From whatever state the calls and interleavings lead to, and with any limits, the pending turns drain:
-- the turns can neither be stuck, nor go on forever without settling.
pub run-Drains : (o : Options) (es : List Event) → Drains o (run o new_coordinator es)
run-Drains o es =
    let c = run o new_coordinator es in
    Drains-within (suc (work c)) o c (omega arith) (run-IsWithinLimits o es) (run-IsOrdered o es)
