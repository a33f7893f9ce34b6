-- ===== src/Agent/Loop/Batch.antt =====
-- src/agent/loop/tool-batch.ts, `executeToolBatch`: the tool calls of one answer of the model. The hooks
-- and the tools are not of this file: a hook is a function of its own state, and what a tool
-- answers, and when, comes as an event. Parameters and data of the calls are any types.
pub mod Indexes
pub mod Schedule
pub mod Order
pub mod Answers
pub mod Progress
use anonka.Prelude.{
  ℕ, zero, suc, ◌+◌, Bool, true, false, not, ◌&&◌, ◌||◌, List, [], ◌∷◌, ◌++◌, Option, none, some,
  Text, text, if◌then◌else◌, ◌==◌, length, take, drop,
}
use anonka.Prelude.Dicts.{lookup}
use anonka.Agent.Tools.Scope.{Category, data_bearing, action}
use anonka.Agent.Tools.Registry.{ToolRegistry, RegisteredTool}

pub record ToolCall (P : Type 0) : Type 0 where
  pub id : Text
  pub name : Text
  pub arguments : P

-- A block of the answer: a tool call, or another, which is passed over.
pub data Block (P : Type 0) : Type 0 where
  call : ToolCall P → Block P
  other : Block P

pub record ToolPlan (P : Type 0) : Type 0 where
  pub block : ToolCall P
  pub blocked : Bool
  pub block_reason : Text
  pub params : P

pub record BeforeToolCallEvent (P : Type 0) : Type 0 where
  pub tool_name : Text
  pub params : P
  pub block : Bool
  pub block_reason : Text

-- `runModifyingHook("tool:before", event)` of the plugins, which keep a state of type `S`.
abbrev pub BeforeHook : Type 0 → Type 0 → Type 0
BeforeHook S P = BeforeToolCallEvent P → S → BeforeToolCallEvent P × S

abbrev pub or_default : Text → Text
or_default [] = text "Blocked by plugin hook"
or_default (c ∷ reason) = c ∷ reason

module _ {P : Type 0} where
  abbrev pub before_event : ToolCall P → BeforeToolCallEvent P
  before_event c = record {
    tool_name = c.name;
    params = c.arguments;
    block = false;
    block_reason = [];
  }

  abbrev pub plan_of : ToolCall P → BeforeToolCallEvent P → ToolPlan P
  plan_of c e =
      if e.block
      then record {
        block = c;
        blocked = true;
        block_reason = or_default e.block_reason;
        params = c.arguments;
      }
      else record { block = c; blocked = false; block_reason = []; params = e.params }

  abbrev pub unhooked : ToolCall P → ToolPlan P
  unhooked c = record { block = c; blocked = false; block_reason = []; params = c.arguments }

module _ {S P : Type 0} where
  -- Phase 1, one block after the other.
  unfoldable pub make_plans : Option (BeforeHook S P) → S → List (Block P) → List (ToolPlan P)
  make_plans hook s [] = []
  make_plans hook s (other ∷ blocks) = make_plans hook s blocks
  make_plans none s (call c ∷ blocks) = unhooked c ∷ make_plans none s blocks
  make_plans (some before) s (call c ∷ blocks) =
      let (e, s') = before (before_event c) s in plan_of c e ∷ make_plans (some before) s' blocks

-- `TOOL_CONCURRENCY_LIMIT`
abbrev pub tool_concurrency_limit : ℕ
tool_concurrency_limit = 3

pub record ToolResult (D : Type 0) : Type 0 where
  pub success : Bool
  pub content : Option D
  pub error : Option Text

pub record ExecError : Type 0 where
  pub message : Text
  pub stack : Option Text

pub record ToolExecResult (D : Type 0) : Type 0 where
  pub result : ToolResult D
  pub duration_ms : ℕ
  pub was_attempted : Bool
  pub exec_error : Option ExecError

-- How the promise of `toolRegistry.execute` ends: with a result, or rejected.
pub data Outcome (D : Type 0) : Type 0 where
  returned : ToolResult D → Outcome D
  threw : ExecError → Outcome D

-- What is known when the code waits: the plans from `cursor` on are not looked at, `read_queue` holds
-- the `readIndexes` from `readCursor` on, and the plans of `running` are being executed.
pub record BatchState (P D : Type 0) : Type 0 where
  pub cursor : ℕ
  pub remaining : List (ToolPlan P)
  pub read_queue : List ℕ
  pub running : List ℕ
  pub exec_results : ℕ → Option (ToolExecResult D)

abbrev pub has_index : List ℕ → ℕ → Bool
has_index [] j = false
has_index (i ∷ is) j = i == j || has_index is j

abbrev pub drop_index : List ℕ → ℕ → List ℕ
drop_index [] j = []
drop_index (i ∷ is) j = let rest = drop_index is j in if i == j then rest else i ∷ rest

abbrev pub get_tool_category : ToolRegistry → Text → Option Category
get_tool_category registry name = elim (lookup name registry.tools) [
  | none ↦ none
  | some t ↦ t.category
]

abbrev is_data_bearing : Option Category → Bool
is_data_bearing (some data_bearing) = true
is_data_bearing (some action) = false
is_data_bearing none = false

unfoldable pub is_read : {P : Type 0} → ToolRegistry → ToolPlan P → Bool
is_read registry p = not p.blocked && is_data_bearing (get_tool_category registry p.block.name)

abbrev pub Results : Type 0 → Type 0
Results D = ℕ → Option (ToolExecResult D)

module _ {D : Type 0} where
  abbrev pub write : ℕ → ToolExecResult D → Results D → Results D
  write i r results j = if i == j then some r else results j

  abbrev pub exec_result : Outcome D → ℕ → ToolExecResult D
  exec_result (returned r) elapsed = record {
    result = r;
    duration_ms = elapsed;
    was_attempted = true;
    exec_error = none;
  }
  exec_result (threw e) elapsed = record {
    result = record { success = false; content = none; error = some e.message };
    duration_ms = elapsed;
    was_attempted = true;
    exec_error = some e;
  }

abbrev pub blocked_result : {P D : Type 0} → ToolPlan P → ToolExecResult D
blocked_result p = record {
  result = record { success = false; content = none; error = some p.block_reason };
  duration_ms = 0;
  was_attempted = false;
  exec_error = none;
}

module _ {P : Type 0} (registry : ToolRegistry) where
  -- The reads at the front, by their indexes.
  unfoldable pub read_indexes : ℕ → List (ToolPlan P) → List ℕ
  read_indexes i [] = []
  read_indexes i (p ∷ ps) =
      let rest = read_indexes (suc i) ps in if is_read registry p then i ∷ rest else []

pub record Finished (D : Type 0) : Type 0 where
  pub index : ℕ
  pub outcome : Outcome D
  pub elapsed : ℕ

module _ {P D : Type 0} where
  abbrev pub start_reads : ℕ → List (ToolPlan P) → List ℕ → Results D → BatchState P D
  start_reads cursor ps reads results = record {
    cursor = cursor + length reads;
    remaining = drop (length reads) ps;
    read_queue = drop tool_concurrency_limit reads;
    running = take tool_concurrency_limit reads;
    exec_results = results;
  }

module _ {P D : Type 0} (registry : ToolRegistry) where
  -- The outer loop, up to the next wait.
  unfoldable pub advance : ℕ → List (ToolPlan P) → Results D → BatchState P D
  unfolding is_read read_indexes
  advance cursor [] results = record {
    cursor = cursor;
    remaining = [];
    read_queue = [];
    running = [];
    exec_results = results;
  }
  advance cursor (p ∷ ps) results =
      let after_block = advance (suc cursor) ps (write cursor (blocked_result p) results) in
      if is_read registry p
      then start_reads cursor (p ∷ ps) (read_indexes registry cursor (p ∷ ps)) results
      else if p.blocked
      then after_block
      else record {
        cursor = suc cursor;
        remaining = ps;
        read_queue = [];
        running = cursor ∷ [];
        exec_results = results;
      }

  unfoldable pub start_batch : List (ToolPlan P) → BatchState P D
  unfolding advance
  start_batch plans = advance 0 plans (λ j. none)

  -- The worker that has executed a plan takes the next read; without one, the outer loop goes on when
  -- all workers have ended.
  abbrev pub next_plan : BatchState P D → List ℕ → List ℕ → BatchState P D
  next_plan s (next ∷ queue) running = record s { read_queue = queue; running = next ∷ running }
  next_plan s [] (i ∷ running) = record s { read_queue = []; running = i ∷ running }
  next_plan s [] [] = advance s.cursor s.remaining s.exec_results

  -- The tool of a plan ends.
  unfoldable pub finish : ℕ → Outcome D → ℕ → BatchState P D → BatchState P D
  unfolding advance
  finish i outcome elapsed s =
      if has_index s.running i
      then next_plan
          (record s { exec_results = write i (exec_result outcome elapsed) s.exec_results })
          s.read_queue (drop_index s.running i)
      else s

  unfoldable pub run : List (Finished D) → BatchState P D → BatchState P D
  unfolding finish
  run [] s = s
  run (e ∷ es) s = run es (finish e.index e.outcome e.elapsed s)
