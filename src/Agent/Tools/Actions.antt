-- ===== src/Agent/Tools/Actions.antt =====
-- src/memory/action-executions.ts, and `executeRegistered` of src/agent/tools/registry.ts: a tool that acts is
-- run once in a turn for the same arguments, and answered from the table after that. The hash of the
-- arguments is given; `stringify` and `parse` are those of JSON. An execution is split in what happens
-- before the tool runs and after, so that several can interleave; times are in milliseconds.
pub mod Rows
pub mod Once
pub mod Tests
use anonka.Prelude.{
  ℕ, ◌+◌, ◌-◌, ◌*◌, Bool, true, false, not, ◌&&◌, List, [], ◌∷◌, ◌++◌, Option, none, some, Text,
  text, text_eq, if◌then◌else◌, ltb,
}
use anonka.Agent.Tools.Scope.{Category, data_bearing, action}

abbrev pub action_retention_ms : ℕ
action_retention_ms = 30 * 24 * 60 * 60 * 1000

pub record ActionExecutionResult : Type 0 where
  pub success : Bool
  pub data_json : Option Text
  pub error : Option Text

pub data Status : Type 0 where
  running succeeded failed unknown_status : Status

-- The primary key.
pub record Key : Type 0 where
  pub turn_id : Text
  pub tool_name : Text
  pub args_hash : Text

pub record Row : Type 0 where
  pub key : Key
  pub status : Status
  pub result_json : Option Text
  pub started_at : ℕ

abbrev pub same_key : Key → Key → Bool
same_key k l =
    text_eq k.turn_id l.turn_id
    && (text_eq k.tool_name l.tool_name && text_eq k.args_hash l.args_hash)

pub data Reservation : Type 0 where
  executes : (args_hash : Text) → Reservation
  replay : ActionExecutionResult → Reservation
  unknown : Reservation

-- `DELETE FROM action_executions WHERE started_at < ?`
unfoldable pub delete_before : ℕ → List Row → List Row
delete_before time [] = []
delete_before time (r ∷ rows) =
    let rest = delete_before time rows in if ltb r.started_at time then rest else r ∷ rest

unfoldable pub find_row : Key → List Row → Option Row
find_row k [] = none
find_row k (r ∷ rows) = let rest = find_row k rows in if same_key r.key k then some r else rest

abbrev pub new_row : Key → ℕ → Row
new_row k now = record { key = k; status = running; result_json = none; started_at = now }

abbrev pub is_settled : Status → Bool
is_settled succeeded = true
is_settled failed = true
is_settled _ = false

abbrev pub status_of : ActionExecutionResult → Status
status_of r = if r.success then succeeded else failed

unfoldable pub set_result : Key → Status → Text → List Row → List Row
set_result k status json [] = []
set_result k status json (r ∷ rows) =
    (if same_key r.key k then record r { status = status; result_json = some json } else r)
    ∷ set_result k status json rows

pub record Call : Type 0 where
  pub turn_id : Option Text
  pub tool_name : Text
  pub category : Option Category
  pub args_hash : Text

abbrev key_of_turn : Call → Option Text → Option Key
key_of_turn c none = none
key_of_turn c (some []) = none
key_of_turn c (some (x ∷ turn)) =
    some (record { turn_id = x ∷ turn; tool_name = c.tool_name; args_hash = c.args_hash })

abbrev key_of : Call → Option Category → Option Key
key_of c (some data_bearing) = none
key_of c _ = key_of_turn c c.turn_id

-- The key of the reservation, if the tool acts and the turn is named.
abbrev pub reserved_key : Call → Option Key
reserved_key c = key_of c c.category

-- What the executor gives, in time or not.
pub data Outcome : Type 0 where
  returns : ActionExecutionResult → Outcome
  throws : (message : Text) → Outcome

abbrev pub failure : Text → ActionExecutionResult
failure message = record { success = false; data_json = none; error = some message }

abbrev pub result_of : Outcome → ActionExecutionResult
result_of (returns r) = r
result_of (throws message) = failure message

-- The executor runs, with the key that is to be completed, or the call is answered.
pub data Begun : Type 0 where
  runs : Option Key → Begun
  replies : ActionExecutionResult → Begun

abbrev pub already_started : Text → ActionExecutionResult
already_started tool_name = failure (
    text "Action "
    ++ (34 ∷ tool_name)
    ++ (34
        ∷ (text " already started in this turn and its outcome is unknown. "
            ++ text "Do not retry it automatically; inspect the remote state first.")))

abbrev pub of_reservation : Text → Key → Reservation → Begun
of_reservation tool_name k (executes args_hash) = runs (some k)
of_reservation tool_name k (replay r) = replies r
of_reservation tool_name k unknown = replies (already_started tool_name)

pub data Event : Type 0 where
  begins : (now : ℕ) → Call → Event
  finishes : Option Key → Outcome → Event

module _ (stringify : ActionExecutionResult → Text) (parse : Text → ActionExecutionResult) where
  abbrev pub answer_json : Option Text → Bool → Reservation
  answer_json (some (c ∷ json)) true = replay (parse (c ∷ json))
  answer_json _ _ = unknown

  abbrev pub answer : Row → Reservation
  answer r = answer_json r.result_json (is_settled r.status)

  abbrev pub insert_or_ignore : List Row → Key → ℕ → Option Row → List Row × Reservation
  insert_or_ignore rows k now none = (rows ++ new_row k now ∷ [], executes k.args_hash)
  insert_or_ignore rows k now (some r) = (rows, answer r)

  unfoldable pub reserve_action_execution : List Row → Key → ℕ → List Row × Reservation
  unfolding delete_before find_row
  reserve_action_execution rows k now =
      let left = delete_before (now - action_retention_ms) rows in
      insert_or_ignore left k now (find_row k left)

  unfoldable pub complete_action_execution : List Row → Key → ActionExecutionResult → List Row
  unfolding set_result
  complete_action_execution rows k result = set_result k (status_of result) (stringify result) rows

  abbrev pub begin_with : List Row → Call → ℕ → Option Key → List Row × Begun
  begin_with rows c now none = (rows, runs none)
  begin_with rows c now (some k) =
      let reserved = reserve_action_execution rows k now in
      (reserved.0, of_reservation c.tool_name k reserved.1)

  -- `executeRegistered` until the executor is called.
  unfoldable pub begin_execution : List Row → Call → ℕ → List Row × Begun
  unfolding reserve_action_execution
  begin_execution rows c now = begin_with rows c now (reserved_key c)

  -- The rest of it, which gives `result_of outcome`.
  unfoldable pub finish_execution : List Row → Option Key → Outcome → List Row
  unfolding complete_action_execution
  finish_execution rows none outcome = rows
  finish_execution rows (some k) outcome = complete_action_execution rows k (result_of outcome)

  abbrev pub step : List Row → Event → List Row
  step rows (begins now c) = (begin_execution rows c now).0
  step rows (finishes k outcome) = finish_execution rows k outcome

  unfoldable pub run : List Row → List Event → List Row
  unfolding begin_execution finish_execution
  run rows [] = rows
  run rows (e ∷ es) = run (step rows e) es
