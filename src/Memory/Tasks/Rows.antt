-- ===== src/Memory/Tasks/Rows.antt =====
-- Rows of the task table after an update, and the number of pending ones.
use anonka.Prelude.{
  ℕ, ◌+◌, ◌≤◌, ◌<◌, ◌≡◌, Bool, true, false, List, [], ◌∷◌, Option, none, some, Text, text_eq,
  text_eq_iff, if◌then◌else◌, arith, Bool-cases, inl, inr,
}
use anonka.Memory.Tasks.{
  Task, TaskStatus, pending, cancelled, TaskUpdate, find_task, updated, update_rows, to_status,
}

abbrev pub with_update : TaskUpdate → ℕ → Option Task → Option Task
with_update u now none = none
with_update u now (some t) = some (updated u now t)

pub find_task-update_rows :
    (id k : Text) (u : TaskUpdate) (now : ℕ) (ts : List Task)
    → find_task k (update_rows id (updated u now) ts)
      ≡ (if text_eq id k then with_update u now (find_task k ts) else find_task k ts)
unfolding find_task update_rows
find_task-update_rows id k u now [] = ground arith
find_task-update_rows id k u now (t ∷ ts) = ground (
  arith,
  text_eq_iff id k,
  text_eq_iff t.id k,
  text_eq_iff t.id id,
  find_task-update_rows id k u now ts,
)

abbrev pub is_pending_status : TaskStatus → Bool
is_pending_status pending = true
is_pending_status _ = false

unfoldable pub pending_count : List Task → ℕ
pending_count [] = 0
pending_count (t ∷ ts) = (if is_pending_status t.status then 1 else 0) + pending_count ts

abbrev pub to_cancelled : TaskUpdate
to_cancelled = to_status cancelled none none

pub pending_count-cancel_le :
    (id : Text) (now : ℕ) (ts : List Task)
    → pending_count (update_rows id (updated to_cancelled now) ts) ≤ pending_count ts
unfolding pending_count update_rows
pending_count-cancel_le id now [] = omega arith
pending_count-cancel_le id now (t ∷ ts) = ground (arith, pending_count-cancel_le id now ts)

pub pending_count-cancel :
    (id : Text) (now : ℕ) (ts : List Task) (t : Task)
    → find_task id ts ≡ some t
    → is_pending_status t.status ≡ true
    → pending_count (update_rows id (updated to_cancelled now) ts) < pending_count ts
unfolding pending_count update_rows find_task
pending_count-cancel id now [] t h p = cc
pending_count-cancel id now (r ∷ ts) t h p = elim (Bool-cases (text_eq r.id id)) [
  | inl same ↦
      let is : some r ≡ some t = rw (same, find_task) at h in
      let now_pending : is_pending_status r.status ≡ true = cc in
      ground (arith, pending_count-cancel_le id now ts, same, now_pending)
  | inr other ↦
      let later = pending_count-cancel id now ts t (rw (other, find_task) at h) p in
      ground (arith, other, later)
]
