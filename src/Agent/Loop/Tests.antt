-- ===== src/Agent/Loop/Tests.antt =====
-- A batch of five calls at work: two reads, a call that a hook blocks, an action and a read.
use anonka.Prelude.{
  ℕ, ◌+◌, ◌≡◌, refl, true, false, List, [], ◌∷◌, none, some, ◌⊎◌, ◌↔◌, ◌≢◌, ◌<◌, ◌≤◌, Text, text,
  text_eq, length, if◌then◌else◌,
}
use anonka.Prelude.Dicts.{lookup, insert, contains}
use anonka.Agent.Tools.Scope.{Category, data_bearing, action, all}
use anonka.Agent.Tools.Registry.{ToolRegistry, RegisteredTool, new_registry, user, both}
use anonka.Agent.Loop.Batch.{
  Block, call, other, ToolPlan, BeforeHook, ToolResult, returned, threw, Finished, make_plans,
  has_index, is_read, read_indexes, advance, start_batch, finish, run, tool_concurrency_limit,
}
use anonka.Agent.Loop.Batch.Schedule.{Read, Action, is_none}
use anonka.Agent.Loop.Batch.Order.{reached, reached-Holds, exclusive-Action, running_within_limit}
use anonka.Agent.Loop.Batch.Answers.{no_result_missing}
use anonka.Agent.Loop.Batch.Progress.{open_calls, unblocked, batch_ends}
use anonka.Agent.Loop.Results.{
  Texts, Recorded, Tool, SearchData, Injected, record_from, record_tool_results, inject_all,
  inject_from, inject_discovered_tools, complete_batch,
}
use anonka.Agent.Loop.Results.Replies.{call_ids, Replied, tool_calls_answered}
use anonka.Agent.Loop.Results.Discovery.{Grown, discovered_tools_allowed}

in_loop : Unit {0}
unfolding make_plans is_read read_indexes advance start_batch finish run record_from
    record_tool_results inject_all inject_from inject_discovered_tools complete_batch new_registry
    lookup insert contains text_eq
in_loop = tt

abbrev tool : Category → RegisteredTool
tool category = record {
  category = some category;
  scope = none;
  minimum_access = all;
  allow_from = none;
  mode = both;
  module_name = text "core";
  tags = [];
}

abbrev registry : ToolRegistry
registry = record (new_registry user) {
  tools = (text "tool_search", tool data_bearing) ∷ (text "send", tool action) ∷ [];
}

abbrev tool_call : Text → Text → Block ℕ
tool_call id name = call (record { id = id; name = name; arguments = 0 })

abbrev answer : List (Block ℕ)
answer =
    tool_call (text "a") (text "tool_search")
    ∷ other
    ∷ tool_call (text "b") (text "tool_search")
    ∷ tool_call (text "c") (text "drop_all")
    ∷ tool_call (text "d") (text "send")
    ∷ tool_call (text "e") (text "tool_search")
    ∷ []

-- The plugin blocks one tool, and counts the calls in the parameters.
abbrev guard_hook : BeforeHook ℕ ℕ
guard_hook e n = (record e { params = n; block = text_eq e.tool_name (text "drop_all") }, n + 1)

abbrev plans : List (ToolPlan ℕ)
plans = make_plans (some guard_hook) 0 answer

abbrev found : ℕ → ToolResult (List (Tool ℕ))
found n = record {
  success = true;
  content =
      some
        (record { name = text "gift"; definition = n } ∷ record { name = []; definition = n } ∷ []);
  error = none;
}

abbrev ends : ℕ → Finished (List (Tool ℕ))
ends i = record { index = i; outcome = returned (found i); elapsed = i }

abbrev reads_end : List (Finished (List (Tool ℕ)))
reads_end = ends 1 ∷ ends 3 ∷ ends 0 ∷ []

abbrev all_end : List (Finished (List (Tool ℕ)))
all_end =
    ends 1
    ∷ ends 0
    ∷ record {
      index = 3;
      outcome = threw (record { message = text "no"; stack = none });
      elapsed = 5;
    }
    ∷ ends 4
    ∷ []

two_reads_run : (reached registry plans (ends 1 ∷ [])).running ≡ 0 ∷ []
unfolding in_loop
two_reads_run = refl

action_runs : (reached registry plans reads_end).running ≡ 3 ∷ []
unfolding in_loop
action_runs = refl

nothing_runs : (reached registry plans all_end).running ≡ []
unfolding in_loop
nothing_runs = refl

send_is_Action : Action registry plans 3
unfolding in_loop
send_is_Action = (_, refl, refl, refl)

exclusive-Action_example :
    ((reached registry plans reads_end).running ≡ 3 ∷ [])
    × ((reached registry plans reads_end).read_queue ≡ [])
    × ((k : ℕ) → k < 3 → is_none ((reached registry plans reads_end).exec_results k) ≡ false)
    × ((k : ℕ) → 3 < k → is_none ((reached registry plans reads_end).exec_results k) ≡ true)
unfolding in_loop
exclusive-Action_example = exclusive-Action registry plans reads_end 3 refl send_is_Action

running_within_limit_example :
    (length (reached registry plans (ends 9 ∷ [])).running ≤ tool_concurrency_limit)
    × ((j : ℕ)
        → has_index (reached registry plans (ends 9 ∷ [])).running j ≡ true
        → Read registry plans j ⊎ Action registry plans j)
    × ((j k : ℕ)
        → has_index (reached registry plans (ends 9 ∷ [])).running j ≡ true
        → has_index (reached registry plans (ends 9 ∷ [])).running k ≡ true
        → j ≢ k
        → Read registry plans j)
running_within_limit_example = running_within_limit registry plans (ends 9 ∷ [])

batch_ends_example :
    (open_calls (start_batch {D = List (Tool ℕ)} registry plans) ≡ unblocked plans)
    × (open_calls (finish registry 0 (returned (found 0)) 0 (reached registry plans (ends 1 ∷ [])))
          + (if has_index (reached registry plans (ends 1 ∷ [])).running 0 then 1 else 0)
        ≡ open_calls (reached registry plans (ends 1 ∷ [])))
    × (((reached registry plans (ends 1 ∷ [])).running ≡ [])
        ↔ (open_calls (reached registry plans (ends 1 ∷ [])) ≡ 0))
batch_ends_example = batch_ends registry plans (ends 1 ∷ []) (ends 0)

abbrev texts : Texts ℕ (List (Tool ℕ)) ℕ
texts = record {
  summarize_tool_params = λ name params. [];
  serialize_tool_result = λ r. text "{}";
  truncate_tool_result = λ r size. text "{}";
  create_artifact = λ name content. none;
  attach_reference = λ shown artifact. shown;
}

abbrev sink : Recorded ℕ (List (Tool ℕ))
sink = record {
  hook_events = [];
  iteration_tool_names = [];
  total_tool_calls = [];
  result_messages = [];
  transcript = [];
}

abbrev search_data : SearchData (List (Tool ℕ)) ℕ
search_data = record { tools_of = λ tools. some tools; with_tools = λ old tools. tools }

abbrev one_tool : List (Tool ℕ)
one_tool = record { name = text "send"; definition = 0 } ∷ []

tool_calls_answered_example :
    Replied texts search_data
      (some 2)
      []
      true
      plans
      (reached registry plans all_end).exec_results
      (some one_tool)
      (call_ids answer)
      sink
unfolding in_loop
tool_calls_answered_example =
    tool_calls_answered texts search_data (some 2) [] true registry (some guard_hook) 0 answer
      all_end (some one_tool) sink refl

discovered_tools_allowed_example :
    (after : Injected (List (Tool ℕ)) ℕ) × (inject_discovered_tools search_data
        (some 2)
        (text "drop_all" ∷ [])
        plans
        (reached registry plans all_end).exec_results
        one_tool
      ≡ some after)
    × Grown (some 2) (text "drop_all" ∷ []) one_tool after.tools after.injected
discovered_tools_allowed_example =
    discovered_tools_allowed search_data (some 2) (text "drop_all" ∷ []) plans
      (reached registry plans all_end).exec_results one_tool
      (λ k _ below.
        no_result_missing registry plans (reached-Holds registry plans all_end) nothing_runs k
          below)
