-- ===== src/Agent/Loop/Batch/Order.antt =====
-- The order in which the calls of a batch are executed.
use anonka.Prelude.{
  ℕ, suc, ◌+◌, ◌≤◌, ◌<◌, ◌≡◌, refl, ap, ◌∙◌, true, false, List, [], ◌∷◌, none, length, arith,
  Bool-cases, ◌⊎◌, ◌≢◌, inl, inr,
}
use anonka.Agent.Tools.Registry.{ToolRegistry}
use anonka.Agent.Loop.Batch.{
  ToolPlan, ToolExecResult, BatchState, Finished, has_index, drop_index, start_batch, next_plan,
  finish, run, write, exec_result, tool_concurrency_limit,
}
use anonka.Agent.Loop.Batch.Indexes.{range_from, Left, drop_index-Left}
use anonka.Agent.Loop.Batch.Schedule.{is_none, Read, Action, Holds, advance-Holds}

pub length-eq-zero : (is : List ℕ) → length is ≡ 0 → is ≡ []
length-eq-zero [] e = refl
length-eq-zero (i ∷ is) e = absurd (omega (arith, e))

module _ {P D : Type 0} (registry : ToolRegistry) (plans : List (ToolPlan P)) where
  next_plan-Holds :
      (i : ℕ) (r : ToolExecResult D) (s : BatchState P D) (queue running : List ℕ)
      → Holds registry plans s
      → s.read_queue ≡ queue
      → Left i s.running running
      → Holds registry plans
          (next_plan registry (record s { exec_results = write i r s.exec_results }) queue running)
  next_plan-Holds i r s (next ∷ queue) running h q l =
      let consecutive : next ∷ queue ≡ range_from h.edge (suc (length queue)) = rw q at h.queued in
      let this : next ≡ h.edge = cc in
      let ahead : h.edge + suc (length queue) ≡ s.cursor = rw q at h.ahead in
      let full : length s.running ≡ 3 = elim h.full [
        | inl none_queued ↦ absurd (omega (arith, none_queued, ap length q))
        | inr all_busy ↦ all_busy
      ] in
      record {
        edge = suc h.edge;
        ahead = omega (arith, ahead);
        queued = cc;
        within = h.within;
        rest = h.rest;
        waiting = λ j. ground (arith, h.waiting j, l.others j, l.ended, h.started j, h.started i);
        started = λ j k. ground (arith, l.others j, h.started j);
        distinct = (ground (arith, this, l.others next, h.started next), l.distinct);
        few = omega (arith, l.fewer, full);
        full = inr (omega (arith, l.fewer, full));
        idle = λ e. absurd (omega (arith, e));
        reads = λ j k m. h.reads j (omega (arith, k)) m;
        alone = λ j k. elim (Bool-cases (has_index s.running j)) [
          | inl before ↦ elim (h.alone j before) [
            | inl read ↦ inl read
            | inr (_, _, none_queued, _) ↦ absurd (omega (arith, none_queued, ap length q))
          ]
          | inr new ↦
              let same : j ≡ h.edge = ground (arith, this, l.others j) in
              inl (h.reads j (omega (arith, same)) (omega (arith, same, ahead)))
        ];
      }
  next_plan-Holds i r s [] (k ∷ running) h q l = record {
    edge = h.edge;
    ahead = omega (arith, rw q at h.ahead);
    queued = refl;
    within = h.within;
    rest = h.rest;
    waiting = λ j. ground (arith, h.waiting j, l.others j, l.ended, h.started j, h.started i);
    started = λ j m. ground (arith, l.others j, h.started j);
    distinct = l.distinct;
    few = omega (arith, l.fewer, h.few);
    full = inl refl;
    idle = λ e. absurd (omega (arith, e));
    reads = h.reads;
    alone = λ j m. elim (h.alone j (ground (arith, l.others j))) [
      | inl read ↦ inl read
      | inr (_, only, _, _) ↦ absurd (omega (arith, l.fewer, ap length only))
    ];
  }
  next_plan-Holds i r s [] [] h q l =
      let edge : h.edge ≡ s.cursor = omega (arith, rw q at h.ahead) in
      advance-Holds registry plans s.cursor s.remaining (write i r s.exec_results) (record {
        within = h.within;
        rest = h.rest;
        waiting = λ j. ground (arith, h.waiting j, l.others j, l.ended, h.started i);
      })

  pub finish-Holds :
      (e : Finished D) {s : BatchState P D}
      → Holds registry plans s
      → Holds registry plans (finish registry e.index e.outcome e.elapsed s)
  unfolding finish
  finish-Holds e {s} h = elim (Bool-cases (has_index s.running e.index)) [
    | inl ends ↦
        rw (ends, finish)
          (next_plan-Holds e.index (exec_result e.outcome e.elapsed) s s.read_queue
            (drop_index s.running e.index) h refl
            (drop_index-Left e.index s.running h.distinct ends))
    | inr other ↦ rw (other, finish) h
  ]

  pub run-Holds :
      (es : List (Finished D)) {s : BatchState P D}
      → Holds registry plans s
      → Holds registry plans (run registry es s)
  unfolding run
  run-Holds [] h = h
  run-Holds (e ∷ es) h = run-Holds es (finish-Holds e h)

  pub start_batch-Holds : Holds {D = D} registry plans (start_batch registry plans)
  unfolding start_batch
  start_batch-Holds =
      advance-Holds registry plans 0 plans (λ j. none)
        (record { within = omega arith; rest = refl; waiting = λ j. ground arith })

  -- The state of a batch after some of its tools have ended.
  abbrev pub reached : List (Finished D) → BatchState P D
  reached es = run registry es (start_batch registry plans)

  pub reached-Holds : (es : List (Finished D)) → Holds registry plans (reached es)
  reached-Holds es = run-Holds es start_batch-Holds

  -- Whatever tools have ended, in whatever order, while an action that was let through is being
  -- executed nothing else is, no read is queued, each plan before it has its result, and none after it
  -- has one.
  pub exclusive-Action :
      (es : List (Finished D)) (j : ℕ)
      → has_index (reached es).running j ≡ true
      → Action registry plans j
      → ((reached es).running ≡ j ∷ [])
        × ((reached es).read_queue ≡ [])
        × ((k : ℕ) → k < j → is_none ((reached es).exec_results k) ≡ false)
        × ((k : ℕ) → j < k → is_none ((reached es).exec_results k) ≡ true)
  exclusive-Action es j runs (p, at, action, allowed) =
      let h = reached-Holds es in
      elim (h.alone j runs) [
        | inl (q, at', read) ↦ absurd (cc)
        | inr (_, only, none_queued, last) ↦ (
          only,
          length-eq-zero _ none_queued,
          λ k before. h.waiting k ∙ rw only (ground (arith, last, before)),
          λ k after. h.waiting k ∙ rw only (ground (arith, last, after)),
        )
      ]

  -- Whatever tools have ended, in whatever order, at most three plans are being executed, none that a
  -- hook blocked is, and two at once are both reads.
  pub running_within_limit :
      (es : List (Finished D))
      → (length (reached es).running ≤ tool_concurrency_limit)
        × ((j : ℕ)
            → has_index (reached es).running j ≡ true
            → Read registry plans j ⊎ Action registry plans j)
        × ((j k : ℕ)
            → has_index (reached es).running j ≡ true
            → has_index (reached es).running k ≡ true
            → j ≢ k
            → Read registry plans j)
  running_within_limit es =
      let h = reached-Holds es in
      (
        h.few,
        λ j runs. elim (h.alone j runs) [
          | inl read ↦ inl read
          | inr (action, _, _, _) ↦ inr action
        ],
        λ j k runs too other. elim (h.alone j runs) [
          | inl read ↦ read
          | inr (_, only, _, _) ↦ absurd (ground (arith, rw only at runs, rw only at too))
        ],
      )
