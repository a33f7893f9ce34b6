-- ===== src/Agent/Loop/Batch/Progress.antt =====
-- A batch ends: each tool that ends leaves fewer to wait for.
use anonka.Prelude.{
  ℕ, zero, suc, ◌+◌, ◌≡◌, refl, ap, true, false, List, [], ◌∷◌, none, length, take, drop, arith,
  Bool-cases, ◌↔◌, inl, inr, if◌then◌else◌,
}
use anonka.Agent.Tools.Registry.{ToolRegistry}
use anonka.Agent.Loop.Batch.{
  ToolPlan, Results, BatchState, Finished, has_index, drop_index, is_read, read_indexes, advance,
  start_batch, next_plan, finish, write, blocked_result, exec_result,
}
use anonka.Agent.Loop.Batch.Indexes.{drop_index-Left}
use anonka.Agent.Loop.Batch.Schedule.{Holds}
use anonka.Agent.Loop.Batch.Order.{length-eq-zero, reached, reached-Holds}

-- How many of the plans no hook blocked.
abbrev pub unblocked : {P : Type 0} → List (ToolPlan P) → ℕ
unblocked [] = 0
unblocked (p ∷ ps) = if p.blocked then unblocked ps else suc (unblocked ps)

-- The executions that a batch still has to wait for.
abbrev pub open_calls : {P D : Type 0} → BatchState P D → ℕ
open_calls s = length s.running + length s.read_queue + unblocked s.remaining

length-take-drop : (n : ℕ) (is : List ℕ) → length (take n is) + length (drop n is) ≡ length is
length-take-drop zero is = omega arith
length-take-drop (suc n) [] = omega arith
length-take-drop (suc n) (i ∷ is) = omega (arith, length-take-drop n is)

unblocked_of_read :
    {P : Type 0} (registry : ToolRegistry) (p : ToolPlan P)
    → is_read registry p ≡ true
    → p.blocked ≡ false
unfolding is_read
unblocked_of_read registry p reads = ground arith

unblocked-read_indexes :
    {P : Type 0} (registry : ToolRegistry) (i : ℕ) (ps : List (ToolPlan P))
    → length (read_indexes registry i ps)
        + unblocked (drop (length (read_indexes registry i ps)) ps)
      ≡ unblocked ps
unfolding read_indexes
unblocked-read_indexes registry i [] = omega arith
unblocked-read_indexes registry i (p ∷ ps) = elim (Bool-cases (is_read registry p)) [
  | inl reads ↦
      rw (reads, read_indexes)
        (rw (unblocked_of_read registry p reads)
          (omega (arith, unblocked-read_indexes registry (suc i) ps)))
  | inr action ↦ rw (action, read_indexes) (omega arith)
]

unblocked-nil : {P : Type 0} (ps : List (ToolPlan P)) → length ps ≡ 0 → unblocked ps ≡ 0
unblocked-nil [] e = refl
unblocked-nil (p ∷ ps) e = absurd (omega (arith, e))

module _ {P D : Type 0} (registry : ToolRegistry) where
  open_calls-advance :
      (cursor : ℕ) (ps : List (ToolPlan P)) (results : Results D)
      → open_calls (advance registry cursor ps results) ≡ unblocked ps
  unfolding advance
  open_calls-advance cursor [] results = omega arith
  open_calls-advance cursor (p ∷ ps) results = elim (Bool-cases (is_read registry p)) [
    | inl reads ↦
        rw (reads, advance)
          (rw (unblocked_of_read registry p reads) (
            omega (
              arith,
              length-take-drop 2 (read_indexes registry (suc cursor) ps),
              unblocked-read_indexes registry (suc cursor) ps,
            )))
    | inr other ↦ elim (Bool-cases p.blocked) [
      | inl blocked ↦
          rw (other, advance)
            (rw blocked
              (open_calls-advance (suc cursor) ps (write cursor (blocked_result p) results)))
      | inr allowed ↦ rw (other, advance) (rw allowed (omega arith))
    ]
  ]

  open_calls-next_plan :
      (s : BatchState P D) (queue running : List ℕ)
      → open_calls (next_plan registry s queue running)
        ≡ length running + length queue + unblocked s.remaining
  open_calls-next_plan s (next ∷ queue) running = omega arith
  open_calls-next_plan s [] (i ∷ running) = omega arith
  open_calls-next_plan s [] [] =
      omega (arith, open_calls-advance s.cursor s.remaining s.exec_results)

  module _ (plans : List (ToolPlan P)) where
    open_calls-finish :
        (e : Finished D) (s : BatchState P D)
        → Holds registry plans s
        → open_calls (finish registry e.index e.outcome e.elapsed s)
            + (if has_index s.running e.index then 1 else 0)
          ≡ open_calls s
    unfolding finish
    open_calls-finish e s h = elim (Bool-cases (has_index s.running e.index)) [
      | inl ends ↦
          rw (ends, finish)
            (omega (
              arith,
              open_calls-next_plan
                  (record s {
                    exec_results = write e.index (exec_result e.outcome e.elapsed) s.exec_results;
                  })
                  s.read_queue (drop_index s.running e.index),
              (drop_index-Left e.index s.running h.distinct ends).fewer,
            ))
      | inr other ↦ rw (other, finish) (omega arith)
    ]

    nothing_open : (s : BatchState P D) → Holds registry plans s → s.running ≡ [] → open_calls s ≡ 0
    nothing_open s h ended =
        let none_left = unblocked-nil s.remaining (h.idle (ap length ended)) in
        elim h.full [
          | inl none_queued ↦ omega (arith, none_queued, none_left, ap length ended)
          | inr busy ↦ absurd (omega (arith, busy, ap length ended))
        ]

    -- A batch starts with as many executions to wait for as there are plans that no hook blocked; each
    -- tool that ends leaves one fewer, any other event as many, and nothing is being executed exactly
    -- when there is none left to wait for.
    pub batch_ends :
        (es : List (Finished D)) (e : Finished D)
        → (open_calls (start_batch {D = D} registry plans) ≡ unblocked plans)
          × (open_calls (finish registry e.index e.outcome e.elapsed (reached registry plans es))
                + (if has_index (reached registry plans es).running e.index then 1 else 0)
              ≡ open_calls (reached registry plans es))
          × (((reached registry plans es).running ≡ [])
              ↔ (open_calls (reached registry plans es) ≡ 0))
    unfolding start_batch
    batch_ends es e =
        let h = reached-Holds registry plans es in
        (
          open_calls-advance 0 plans (λ _. none),
          open_calls-finish e (reached registry plans es) h,
          (
            nothing_open (reached registry plans es) h,
            λ none_open. length-eq-zero _ (omega (arith, none_open)),
          ),
        )
