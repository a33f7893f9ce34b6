-- ===== src/Telegram/TaskResolver.antt =====
-- src/telegram/task-dependency-resolver.ts: what happens to the dependent tasks when a task completes or
-- fails. `keeps` says of a payload whether it parses and has `skipOnParentFailure: false`. Between
-- the triggers of several tasks the store may change, which is what `meanwhile` does to it.
pub mod Effect
pub mod Failure
pub mod Completion
pub mod Tests
use anonka.Prelude.{
  filter_by, ℕ, zero, suc, Bool, true, false, not, ◌&&◌, List, [], ◌∷◌, ◌++◌, Option, none, some,
  Text, text, if◌then◌else◌, take,
}
use anonka.Prelude.Decimal.{decimal}
use anonka.Memory.Tasks.{
  Task, TaskStore, get_task, get_dependents, can_execute, cancel_task, fail_task,
}
use anonka.Memory.Tasks.Rows.{is_pending_status}

abbrev pub max_dependents_per_task : ℕ
max_dependents_per_task = 10

-- The dependents that are processed at all.
abbrev pub first_dependents : TaskStore → Text → List Text
first_dependents s id = take max_dependents_per_task (get_dependents s id)

abbrev pub is_pending : Option Task → Bool
is_pending none = false
is_pending (some t) = is_pending_status t.status

-- A dependent that is there, still pending, and has all its dependencies done.
abbrev pub is_ready : TaskStore → Text → Bool
is_ready s id = is_pending (get_task s id) && can_execute s id

abbrev pub ready_among : TaskStore → List Text → List Text
ready_among s ids = filter_by (is_ready s) ids

unfoldable pub tasks_to_trigger : TaskStore → Text → List Text
unfolding filter_by
tasks_to_trigger s completed = ready_among s (first_dependents s completed)

pub record SentMessage : Type 0 where
  pub chat_id : Text
  pub body : Text

-- The chat of the trigger: the first admin's in bot mode, else the agent's own; 0 is falsy.
abbrev recipient : Option ℕ → Option Text
recipient none = none
recipient (some zero) = none
recipient (some (suc n)) = some (decimal (suc n))

abbrev send_trigger :
    TaskStore → Text → Task → Option Text → Option Text → ℕ → TaskStore × List SentMessage
send_trigger s id t none rejected now = (s, [])
send_trigger s id t (some chat) none now = (
  s,
  record { chat_id = chat; body = text "[TASK:" ++ (id ++ (text "] " ++ t.description)) } ∷ [],
)
send_trigger s id t (some chat) (some error) now =
    (fail_task s id (text "Failed to trigger: " ++ error) now, [])

-- `triggerTask`; `rejected` is the error with which the bridge's promise rejects, if it does.
unfoldable pub trigger_task :
    TaskStore → Option ℕ → Option Text → ℕ → Text → TaskStore × List SentMessage
trigger_task s to rejected now id = elim (get_task s id) [
  | none ↦ (s, [])
  | some t ↦ send_trigger s id t (recipient to) rejected now
]

module _ (to : Option ℕ) (rejected : Text → Option Text) (now : ℕ)
    (meanwhile : Text → TaskStore → TaskStore) where
  unfoldable pub trigger_all : TaskStore → List Text → TaskStore × List SentMessage
  unfolding trigger_task
  trigger_all s [] = (s, [])
  trigger_all s (id ∷ ids) =
      let (s', messages) = trigger_task (meanwhile id s) to (rejected id) now id in
      let (s'', more) = trigger_all s' ids in (s'', messages ++ more)

  unfoldable pub on_task_complete : TaskStore → Text → TaskStore × List SentMessage
  unfolding trigger_all tasks_to_trigger
  on_task_complete s completed = trigger_all s (tasks_to_trigger s completed)

module _ (keeps : Text → Bool) (now : ℕ) where
  abbrev pub skip_on_failure : Option Text → Bool
  skip_on_failure none = true
  skip_on_failure (some []) = true
  skip_on_failure (some (c ∷ s)) = not (keeps (c ∷ s))

  abbrev pub to_cancel : Option Task → Bool
  to_cancel none = false
  to_cancel (some t) = is_pending_status t.status && skip_on_failure t.payload

  abbrev pub should_cancel : TaskStore → Text → Bool
  should_cancel s id = to_cancel (get_task s id)

  -- One round of the loop; `on_fail` is the recursive call.
  abbrev pub round : (TaskStore → Text → Option TaskStore) → TaskStore → Text → Option TaskStore
  round on_fail s id = if should_cancel s id then on_fail (cancel_task s id now) id else some s

  unfoldable pub cascade :
      (TaskStore → Text → Option TaskStore) → TaskStore → List Text → Option TaskStore
  cascade on_fail s [] = some s
  cascade on_fail s (id ∷ ids) = elim (round on_fail s id) [
    | none ↦ none
    | some s' ↦ cascade on_fail s' ids
  ]

  -- `none` if the fuel runs out.
  unfoldable pub on_task_fail : ℕ → TaskStore → Text → Option TaskStore
  unfolding cascade
  on_task_fail zero s id = none
  on_task_fail (suc fuel) s id = cascade (on_task_fail fuel) s (first_dependents s id)
