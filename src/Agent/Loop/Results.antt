-- ===== src/Agent/Loop/Results.antt =====
-- src/agent/loop/tool-batch.ts, `recordToolResults` and `injectDiscoveredTools`: what follows the
-- execution of a batch. The texts of results are made by the functions of `Texts`, of other files;
-- times and the log are left out, and a hook is the event that it is given.
pub mod Replies
pub mod Discovery
use anonka.Prelude.{
  ℕ, zero, suc, ◌+◌, Bool, true, false, not, ◌&&◌, ◌||◌, List, [], ◌∷◌, ◌++◌, Option, none, some,
  Text, text, text_eq, if◌then◌else◌, ltb, length,
}
use mathlib.Core.Option
use anonka.Prelude.Dicts.{contains}
use anonka.Agent.Loop.Batch.{
  ToolCall, ToolPlan, ToolResult, ToolExecResult, ExecError, Results, write,
}

-- `MAX_TOOL_RESULT_SIZE`
abbrev pub max_tool_result_size : ℕ
max_tool_result_size = 50_000

-- `create_artifact` stores a text under the name of its tool, and is `none` where it throws.
pub record Texts (P D A : Type 0) : Type 0 where
  pub summarize_tool_params : Text → P → Text
  pub serialize_tool_result : ToolResult D → Text
  pub truncate_tool_result : ToolResult D → ℕ → Text
  pub create_artifact : Text → Text → Option A
  pub attach_reference : Text → A → Text

pub data HookEvent (P D : Type 0) : Type 0 where
  tool_error : (name : Text) → P → ExecError → (duration_ms : ℕ) → HookEvent P D
  tool_after :
      (name : Text)
      → P
      → ToolResult D
      → (duration_ms : ℕ) → (block_reason : Option Text) → HookEvent P D

pub record CompletedToolCall (P D : Type 0) : Type 0 where
  pub name : Text
  pub input : P
  pub duration_ms : ℕ
  pub was_attempted : Bool
  pub result : ToolResult D

pub record ToolResultMessage : Type 0 where
  pub tool_call_id : Text
  pub tool_name : Text
  pub content : Text
  pub is_error : Bool

-- The sinks, the hooks that were called, and the messages, which the transcript is given too.
pub record Recorded (P D : Type 0) : Type 0 where
  pub hook_events : List (HookEvent P D)
  pub iteration_tool_names : List Text
  pub total_tool_calls : List (CompletedToolCall P D)
  pub result_messages : List ToolResultMessage
  pub transcript : List ToolResultMessage

module _ {P D A : Type 0} (texts : Texts P D A) where
  abbrev with_reference : Text → Option A → Text
  with_reference result_text none = result_text
  with_reference result_text (some a) = texts.attach_reference result_text a

  abbrev result_text : ToolPlan P → ToolExecResult D → Text
  result_text plan exec =
      let full = texts.serialize_tool_result exec.result in
      let short = texts.truncate_tool_result exec.result max_tool_result_size in
      if ltb max_tool_result_size (length full)
      then with_reference short (texts.create_artifact plan.block.name full)
      else short

  abbrev pub result_message : ToolPlan P → ToolExecResult D → ToolResultMessage
  result_message plan exec = record {
    tool_call_id = plan.block.id;
    tool_name = plan.block.name;
    content = result_text plan exec;
    is_error = not exec.result.success;
  }

  abbrev pub completed_call : ToolPlan P → ToolExecResult D → CompletedToolCall P D
  completed_call plan exec = record {
    name = plan.block.name;
    input = plan.params;
    duration_ms = exec.duration_ms;
    was_attempted = exec.was_attempted;
    result = exec.result;
  }

  abbrev error_events : ToolPlan P → ToolExecResult D → Option ExecError → List (HookEvent P D)
  error_events plan exec none = []
  error_events plan exec (some e) = tool_error plan.block.name plan.params e exec.duration_ms ∷ []

  abbrev hook_events : Bool → ToolPlan P → ToolExecResult D → List (HookEvent P D)
  hook_events false plan exec = []
  hook_events true plan exec =
      error_events plan exec exec.exec_error
      ++ tool_after plan.block.name plan.params exec.result exec.duration_ms
          (if plan.blocked then some plan.block_reason else none)
        ∷ []

  -- `name` with the hint and the mark of its end.
  abbrev iteration_name : ToolPlan P → ToolExecResult D → Text
  iteration_name plan exec =
      plan.block.name
      ++ texts.summarize_tool_params plan.block.name plan.params
      ++ 32 ∷ (if exec.result.success then 10_003 else 10_007) ∷ []

  -- One round of the loop.
  abbrev pub record_result : Bool → ToolPlan P → ToolExecResult D → Recorded P D → Recorded P D
  record_result hooked plan exec r = record {
    hook_events = r.hook_events ++ hook_events hooked plan exec;
    iteration_tool_names = r.iteration_tool_names ++ iteration_name plan exec ∷ [];
    total_tool_calls = r.total_tool_calls ++ completed_call plan exec ∷ [];
    result_messages = r.result_messages ++ result_message plan exec ∷ [];
    transcript = r.transcript ++ result_message plan exec ∷ [];
  }

  -- The loop from plan `i` on; `none` is the TypeError of a plan with no result.
  unfoldable pub record_from :
      Bool → ℕ → List (ToolPlan P) → Results D → Recorded P D → Option (Recorded P D)
  record_from hooked i [] results r = some r
  record_from hooked i (plan ∷ plans) results r = elim (results i) [
    | none ↦ none
    | some exec ↦ record_from hooked (suc i) plans results (record_result hooked plan exec r)
  ]

  unfoldable pub record_tool_results :
      Bool → List (ToolPlan P) → Results D → Recorded P D → Option (Recorded P D)
  unfolding record_from
  record_tool_results hooked plans results sink =
      record_from hooked 0 plans results (record sink { hook_events = []; result_messages = [] })

-- A tool that the model is offered, by its name; a tool with the empty name has none.
pub record Tool (A : Type 0) : Type 0 where
  pub name : Text
  pub definition : A

-- How `injectDiscoveredTools` reads the data of a result, and the data that it leaves there: the tools
-- where the data is an object with an array of them, and `{...data, tools, tools_found, hint}`.
pub record SearchData (D A : Type 0) : Type 0 where
  pub tools_of : D → Option (List (Tool A))
  pub with_tools : D → List (Tool A) → D

abbrev pub names : {A : Type 0} → List (Tool A) → List Text
names [] = []
names (t ∷ tools) = t.name ∷ names tools

abbrev pub has_name : Text → Bool
has_name [] = false
has_name (_ ∷ _) = true

-- The arrays `tools` and `available`, and the count.
pub record Injection (A : Type 0) : Type 0 where
  pub tools : List (Tool A)
  pub available : List (Tool A)
  pub injected : ℕ

abbrev pub has_room : {A : Type 0} → Option ℕ → List (Tool A) → Bool
has_room none tools = true
has_room (some max_tools) tools = ltb (length tools) max_tools

module _ {A : Type 0} (max_tools : Option ℕ) (excluded : List Text) where
  -- One discovered tool.
  abbrev pub inject_tool : Tool A → Injection A → Injection A
  inject_tool tool i =
      if not (has_name tool.name) || contains excluded tool.name
      then i
      else if contains (names i.tools) tool.name
      then record i { available = i.available ++ tool ∷ [] }
      else if has_room max_tools i.tools
      then record {
        tools = i.tools ++ tool ∷ [];
        available = i.available ++ tool ∷ [];
        injected = suc i.injected;
      }
      else i

  unfoldable pub inject_all : List (Tool A) → Injection A → Injection A
  inject_all [] i = i
  inject_all (tool ∷ discovered) i = inject_all discovered (inject_tool tool i)

-- The offered tools, the count, and the results, whose data is changed.
pub record Injected (D A : Type 0) : Type 0 where
  pub tools : List (Tool A)
  pub injected : ℕ
  pub exec_results : Results D

module _ {D A : Type 0} (search : SearchData D A) (max_tools : Option ℕ)
    (excluded : List Text) where
  abbrev pub with_content : ToolExecResult D → D → ToolExecResult D
  with_content exec d =
      let r : ToolResult D = exec.result in record exec { result = record r { content = some d } }

  abbrev pub inject_into :
      ℕ → ToolExecResult D → Option (D × List (Tool A)) → Injected D A → Injected D A
  inject_into i exec none s = s
  inject_into i exec (some (d, discovered)) s =
      let after =
        inject_all max_tools excluded discovered
          (record { tools = s.tools; available = []; injected = s.injected }) in
      record {
        tools = after.tools;
        injected = after.injected;
        exec_results =
            write i (with_content exec (search.with_tools d after.available)) s.exec_results;
      }

module _ {P D A : Type 0} (search : SearchData D A) where
  -- The data of a successful `tool_search`, with the tools in it.
  abbrev pub discovered_by : ToolPlan P → ToolExecResult D → Option (D × List (Tool A))
  discovered_by plan exec =
      if text_eq plan.block.name (text "tool_search") && exec.result.success
      then elim exec.result.content [
        | none ↦ none
        | some d ↦ Option.map (λ discovered. (d, discovered)) (search.tools_of d)
      ]
      else none

module _ {P D A : Type 0} (search : SearchData D A) (max_tools : Option ℕ)
    (excluded : List Text) where
  -- The loop from plan `i` on; `none` is the TypeError of a search with no result.
  unfoldable pub inject_from : ℕ → List (ToolPlan P) → Injected D A → Option (Injected D A)
  unfolding inject_all text_eq
  inject_from i [] s = some s
  inject_from i (plan ∷ plans) s =
      let passed_over = inject_from (suc i) plans s in
      elim (s.exec_results i) [
        | none ↦ if text_eq plan.block.name (text "tool_search") then none else passed_over
        | some exec ↦
            inject_from (suc i) plans
              (inject_into search max_tools excluded i exec (discovered_by search plan exec) s)
      ]

  unfoldable pub inject_discovered_tools :
      List (ToolPlan P) → Results D → List (Tool A) → Option (Injected D A)
  unfolding inject_from
  inject_discovered_tools plans results tools =
      inject_from 0 plans (record { tools = tools; injected = 0; exec_results = results })

-- What a batch leaves: the records, and the tools that the model is offered, if any are.
pub record Completed (P D A : Type 0) : Type 0 where
  pub recorded : Recorded P D
  pub active_tools : Option (List (Tool A))

module _ {P D A F : Type 0} (texts : Texts P D F) (search : SearchData D A) (tool_limit : Option ℕ)
    (excluded : List Text) where
  abbrev record_batch :
      Bool
      → List (ToolPlan P)
      → Results D
      → Recorded P D
      → Option (List (Tool A))
      → Option (Completed P D A)
  record_batch hooked plans results sink active_tools =
      Option.map (λ recorded. record { recorded = recorded; active_tools = active_tools })
        (record_tool_results texts hooked plans results sink)

  -- The injection, where the model is offered tools, and then the records.
  unfoldable pub complete_batch :
      Bool
      → List (ToolPlan P)
      → Results D
      → Option (List (Tool A))
      → Recorded P D
      → Option (Completed P D A)
  unfolding record_tool_results inject_discovered_tools
  complete_batch hooked plans results none sink = record_batch hooked plans results sink none
  complete_batch hooked plans results (some tools) sink =
      elim (inject_discovered_tools search tool_limit excluded plans results tools) [
        | none ↦ none
        | some i ↦ record_batch hooked plans i.exec_results sink (some i.tools)
      ]
