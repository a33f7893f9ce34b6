-- ===== src/Telegram/TaskResolver/Tests.antt =====
-- The dependents of a task at concrete inputs.
use anonka.Prelude.{
  filter_by, ℕ, ◌≡◌, refl, Bool, [], ◌∷◌, Option, none, some, Text, text, text_eq, arith,
  if◌then◌else◌,
}
use anonka.Prelude.Int.{pos}
use anonka.Prelude.Decimal.{decimal}
use anonka.Memory.Tasks.{
  Task, TaskStatus, pending, done, failed, TaskStore, get_task, find_task, get_dependents,
  get_dependents_in, get_dependencies, get_dependencies_in, can_execute, all_done, cancel_task,
  fail_task, update_task, update_rows,
}
use anonka.Memory.Tasks.Rows.{pending_count}
use anonka.Telegram.TaskResolver.{
  tasks_to_trigger, trigger_task, trigger_all, on_task_complete, cascade, on_task_fail,
}
use anonka.Telegram.TaskResolver.Failure.{Settles, on_task_fail-Settles}
use anonka.Telegram.TaskResolver.Completion.{Sends, on_task_complete-Sends}

resolved : Unit {0}
unfolding find_task get_task get_dependencies get_dependencies_in get_dependents get_dependents_in
    can_execute all_done cancel_task fail_task update_task update_rows pending_count text_eq
    filter_by tasks_to_trigger trigger_task trigger_all on_task_complete cascade on_task_fail
resolved = tt

abbrev task : Text → TaskStatus → Option Text → Task
task id status payload = record {
  id = id;
  description = text "Report";
  status = status;
  priority = pos 0;
  created_by = none;
  created_at = 5;
  started_at = none;
  completed_at = none;
  result = none;
  error = none;
  scheduled_for = none;
  payload = payload;
  reason = none;
  scheduled_message_id = none;
  origin_sender_id = none;
  origin_chat_id = none;
  origin_is_group = none;
}

-- Two tasks wait for the first one, one of them whatever becomes of it, and a last one for the second.
abbrev store : TaskStatus → TaskStore
store status = record {
  tasks =
      task (text "a") status none
      ∷ task (text "b") pending none
      ∷ task (text "c") pending (some (text "keep"))
      ∷ task (text "d") pending none
      ∷ [];
  dependencies = (text "b", text "a") ∷ (text "c", text "a") ∷ (text "d", text "b") ∷ [];
}

abbrev keeps : Text → Bool
keeps payload = text_eq payload (text "keep")

abbrev status_of : Option Task → Option TaskStatus
status_of none = none
status_of (some t) = some t.status

abbrev still_pending : Option TaskStore → Option ℕ
still_pending none = none
still_pending (some s) = some (pending_count s.tasks)

-- The second and the last task are cancelled.
cancelled_chain : still_pending (on_task_fail keeps 9 4 (store failed) (text "a")) ≡ some 1
unfolding resolved
cancelled_chain = refl

triggered : tasks_to_trigger (store done) (text "a") ≡ text "b" ∷ text "c" ∷ []
unfolding resolved
triggered = refl

-- A bridge that refuses the second message: its task fails, and the first one was sent.
abbrev refuses : Text → Option Text
refuses id = if text_eq id (text "c") then some (text "blocked") else none

refused_message :
    status_of (
      get_task
        (on_task_complete (some 7) refuses 9 (λ id s. s) (store done) (text "a")).0
        (text "c"))
    ≡ some failed
unfolding resolved
refused_message = refl

on_task_fail-Settles_example :
    (u : TaskStore) × (on_task_fail keeps 9 4 (store failed) (text "a") ≡ some u)
    × Settles keeps 9 (store failed) (text "a") u
unfolding resolved
on_task_fail-Settles_example =
    on_task_fail-Settles keeps 9 4 (store failed) (text "a") (omega arith)

on_task_complete-Sends_example :
    let out = on_task_complete (some 7) (λ _. none) 9 (λ id s. s) (store done) (text "a") in
    (out.0 ≡ store done)
    × Sends (decimal 7) (store done) (text "a") 10 (store done).dependencies out.1
on_task_complete-Sends_example = on_task_complete-Sends 6 9 (store done) (text "a")
