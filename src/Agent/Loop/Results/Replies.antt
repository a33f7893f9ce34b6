-- ===== src/Agent/Loop/Results/Replies.antt =====
-- Each tool call of the model is answered, in its place.
use anonka.Prelude.{
  ℕ, suc, ◌+◌, ◌≤◌, ◌<◌, ◌≡◌, refl, sym, ap, ◌∙◌, Bool, false, List, [], ◌∷◌, ◌++◌, Option, none,
  some, Text, length, length-append, arith, Option-cases, Bool-cases, inl, inr,
}
use mathlib.Core.List.{append-nil, append_assoc}
use anonka.Agent.Tools.Registry.{ToolRegistry}
use anonka.Agent.Loop.Batch.{
  ToolCall, Block, call, other, BeforeHook, ToolPlan, Results, Finished, make_plans, before_event,
  plan_of, BeforeToolCallEvent,
}
use anonka.Agent.Loop.Batch.Schedule.{is_none}
use anonka.Agent.Loop.Batch.Order.{reached, reached-Holds}
use anonka.Agent.Loop.Batch.Answers.{no_result_missing}
use anonka.Agent.Loop.Results.Discovery.{Present, inject_discovered_tools-Present}
use anonka.Agent.Loop.Results.{
  Texts, Recorded, ToolResultMessage, result_message, completed_call, record_from, record_result,
  record_tool_results, Tool, SearchData, Completed, complete_batch,
}

-- The ids of the tool calls among the blocks of an answer.
abbrev pub call_ids : {P : Type 0} → List (Block P) → List Text
call_ids [] = []
call_ids (other ∷ blocks) = call_ids blocks
call_ids (call c ∷ blocks) = c.id ∷ call_ids blocks

abbrev plan_ids : {P : Type 0} → List (ToolPlan P) → List Text
plan_ids [] = []
plan_ids (p ∷ plans) = p.block.id ∷ plan_ids plans

length-plan_ids : {P : Type 0} (plans : List (ToolPlan P)) → length (plan_ids plans) ≡ length plans
length-plan_ids [] = refl
length-plan_ids (p ∷ plans) = omega (arith, length-plan_ids plans)

abbrev pub reply_ids : List ToolResultMessage → List Text
reply_ids [] = []
reply_ids (m ∷ messages) = m.tool_call_id ∷ reply_ids messages

plan_of-id :
    {P : Type 0} (c : ToolCall P) (e : BeforeToolCallEvent P) → (plan_of c e).block.id ≡ c.id
plan_of-id c e = elim (Bool-cases e.block) [
  | inl blocked ↦ rw blocked refl
  | inr allowed ↦ rw allowed refl
]

make_plans-ids :
    {S P : Type 0} (hook : Option (BeforeHook S P)) (s : S) (blocks : List (Block P))
    → plan_ids (make_plans hook s blocks) ≡ call_ids blocks
unfolding make_plans
make_plans-ids hook s [] = refl
make_plans-ids hook s (other ∷ blocks) = make_plans-ids hook s blocks
make_plans-ids none s (call c ∷ blocks) = ap (λ ids. c.id ∷ ids) (make_plans-ids none s blocks)
make_plans-ids (some before) s (call c ∷ blocks) =
    let (e, s') = before (before_event c) s in
    cc (plan_of-id c e, make_plans-ids (some before) s' blocks)

-- The messages `added` answer the plans, and are what the transcript is given.
record Answered {P D : Type 0} (plans : List (ToolPlan P)) (before after : Recorded P D)
    : Type 0 where
  added : List ToolResultMessage
  ids : reply_ids added ≡ plan_ids plans
  messages : after.result_messages ≡ before.result_messages ++ added
  appended : after.transcript ≡ before.transcript ++ added
  counted : length after.total_tool_calls ≡ length before.total_tool_calls + length plans

module _ {P D A : Type 0} (texts : Texts P D A) (hooked : Bool) where
  record_from-Answered :
      (i : ℕ) (plans : List (ToolPlan P)) (results : Results D) (r : Recorded P D)
      → ((k : ℕ) → i ≤ k → k < i + length plans → is_none (results k) ≡ false)
      → (after : Recorded P D) × (record_from texts hooked i plans results r ≡ some after)
        × Answered plans r after
  unfolding record_from
  record_from-Answered i [] results r all = (
    r,
    refl,
    record {
      added = [];
      ids = refl;
      messages = sym (append-nil _);
      appended = sym (append-nil _);
      counted = omega arith;
    },
  )
  record_from-Answered i (p ∷ plans) results r all = elim (Option-cases (results i)) [
    | inl missing ↦
        let found : is_none (results i) ≡ false = all i (omega arith) (omega arith) in
        absurd (cc (ap is_none missing, found))
    | inr (exec, e) ↦
        let step = record_result texts hooked p exec r in
        let (after, returns, a) =
          record_from-Answered (suc i) plans results step
            (λ k h m. all k (omega (arith, h)) (omega (arith, m))) in
        (
          after,
          rw (e, record_from) returns,
          record {
            added = result_message texts p exec ∷ a.added;
            ids = ap (λ ids. p.block.id ∷ ids) a.ids;
            messages =
                a.messages
                ∙ append_assoc r.result_messages (result_message texts p exec ∷ []) a.added;
            appended =
                a.appended ∙ append_assoc r.transcript (result_message texts p exec ∷ []) a.added;
            counted = omega (
              arith,
              a.counted,
              length-append r.total_tool_calls (completed_call texts p exec ∷ []),
            );
          },
        )
  ]

  record_tool_results-Answered :
      (plans : List (ToolPlan P)) (results : Results D) (sink : Recorded P D)
      → Present 0 (length plans) results
      → (after : Recorded P D) × (record_tool_results texts hooked plans results sink ≡ some after)
        × Answered plans (record sink { hook_events = []; result_messages = [] }) after
  unfolding record_tool_results
  record_tool_results-Answered plans results sink all =
      record_from-Answered 0 plans results (record sink { hook_events = []; result_messages = [] })
        (λ k h m. all k h (omega (arith, m)))

module _ {P D A F : Type 0} (texts : Texts P D F) (search : SearchData D A) (tool_limit : Option ℕ)
    (excluded : List Text) (hooked : Bool) where
  -- The results of the plans are recorded, and the messages are those of `ids`, in their order.
  pub record Replied (plans : List (ToolPlan P)) (results : Results D)
      (active_tools : Option (List (Tool A))) (ids : List Text) (sink : Recorded P D) : Type 0 where
    pub after : Completed P D A
    pub returns :
        complete_batch texts search tool_limit excluded hooked plans results active_tools sink
        ≡ some after
    pub replies : reply_ids after.recorded.result_messages ≡ ids
    pub told : after.recorded.transcript ≡ sink.transcript ++ after.recorded.result_messages
    pub counted : length after.recorded.total_tool_calls ≡ length sink.total_tool_calls + length ids

  Answered-Replied :
      (plans : List (ToolPlan P)) (ids : List Text) (sink after : Recorded P D)
      → plan_ids plans ≡ ids
      → Answered plans (record sink { hook_events = []; result_messages = [] }) after
      → (reply_ids after.result_messages ≡ ids)
        × (after.transcript ≡ sink.transcript ++ after.result_messages)
        × (length after.total_tool_calls ≡ length sink.total_tool_calls + length ids)
  Answered-Replied plans ids sink after e a = (
    ap reply_ids a.messages ∙ a.ids ∙ e,
    cc (a.appended, a.messages),
    omega (arith, a.counted, length-plan_ids plans, ap length e),
  )

  complete_batch-Replied :
      (plans : List (ToolPlan P)) (results : Results D) (active_tools : Option (List (Tool A)))
      (ids : List Text) (sink : Recorded P D)
      → plan_ids plans ≡ ids
      → Present 0 (length plans) results
      → Replied plans results active_tools ids sink
  unfolding complete_batch
  complete_batch-Replied plans results none ids sink e all =
      let (after, returns, a) = record_tool_results-Answered texts hooked plans results sink all in
      let (replies, told, counted) = Answered-Replied plans ids sink after e a in
      record {
        after = record { recorded = after; active_tools = none };
        returns = rw returns refl;
        replies = replies;
        told = told;
        counted = counted;
      }
  complete_batch-Replied plans results (some tools) ids sink e all =
      let (i, injects, kept) =
        inject_discovered_tools-Present search tool_limit excluded plans results tools all in
      let (after, returns, a) =
        record_tool_results-Answered texts hooked plans i.exec_results sink kept in
      let (replies, told, counted) = Answered-Replied plans ids sink after e a in
      record {
        after = record { recorded = after; active_tools = some i.tools };
        returns = rw (injects, complete_batch) (rw returns refl);
        replies = replies;
        told = told;
        counted = counted;
      }

  -- For any answer of the model, any hooks, any offered tools and any results, in any order: when no
  -- tool is being executed any more, the batch is completed with no error, and the messages answer the
  -- tool calls of the answer one for one, in their order; the transcript is given these messages, and
  -- as many calls are counted.
  pub tool_calls_answered :
      {S : Type 0} (registry : ToolRegistry) (hook : Option (BeforeHook S P)) (s : S)
      (blocks : List (Block P)) (es : List (Finished D)) (active_tools : Option (List (Tool A)))
      (sink : Recorded P D)
      → (reached registry (make_plans hook s blocks) es).running ≡ []
      → Replied
          (make_plans hook s blocks)
          (reached registry (make_plans hook s blocks) es).exec_results
          active_tools
          (call_ids blocks)
          sink
  tool_calls_answered registry hook s blocks es active_tools sink ended =
      let plans = make_plans hook s blocks in
      complete_batch-Replied plans (reached registry plans es).exec_results active_tools
        (call_ids blocks) sink (make_plans-ids hook s blocks)
        (λ k _ below.
          no_result_missing registry plans (reached-Holds registry plans es) ended k below)
