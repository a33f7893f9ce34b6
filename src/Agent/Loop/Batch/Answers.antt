-- ===== src/Agent/Loop/Batch/Answers.antt =====
-- What a batch leaves as the results of its calls, and that it ends.
use anonka.Prelude.{
  get_elem?, ℕ, ◌≤◌, ◌<◌, ◌≡◌, ap, ◌∙◌, true, false, List, [], some, length, length-drop, arith,
  inl, inr,
}
use mathlib.Core.List.{Memᴰ}
use anonka.Agent.Tools.Registry.{ToolRegistry}
use anonka.Agent.Loop.Batch.{
  ToolPlan, ToolExecResult, Results, BatchState, Finished, blocked_result, exec_result,
}
use anonka.Agent.Loop.Batch.Schedule.{Holds, is_none}

-- Where the result of plan `j` comes from: it was blocked, or its tool has ended with it.
pub data Origin {P D : Type 0} (plans : List (ToolPlan P)) (es : List (Finished D)) (j : ℕ)
    (r : ToolExecResult D) : Type 0 where
  from_block :
      (p : ToolPlan P)
      → get_elem? plans j ≡ some p
      → p.blocked ≡ true
      → r ≡ blocked_result p
      → Origin plans es j r
  from_tool :
      (p : ToolPlan P)
      → get_elem? plans j ≡ some p
      → p.blocked ≡ false
      → (e : Finished D) → Memᴰ e es
      → e.index ≡ j
      → r ≡ exec_result e.outcome e.elapsed
      → Origin plans es j r

module _ {P D : Type 0} (registry : ToolRegistry) (plans : List (ToolPlan P)) where
  abbrev Explained : List (Finished D) → Results D → Type 0
  Explained es results = (j : ℕ) (r : ToolExecResult D) → results j ≡ some r → Origin plans es j r

  -- When no tool is being executed, the loops have come to their ends.
  pub no_result_missing :
      {s : BatchState P D}
      → Holds registry plans s
      → s.running ≡ []
      → (j : ℕ) → j < length plans
      → is_none (s.exec_results j) ≡ false
  no_result_missing h ended j below =
      let at_end = h.idle (ap length ended) in
      let last : length plans ≤ h.edge = elim h.full [
        | inl none_queued ↦
            omega (arith, none_queued, h.ahead, at_end, ap length h.rest ∙ length-drop _ plans)
        | inr busy ↦ absurd (omega (arith, busy, ap length ended))
      ] in
      h.waiting j ∙ rw ended (ground (arith, last, below))
