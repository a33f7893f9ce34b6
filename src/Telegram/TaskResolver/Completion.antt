-- ===== src/Telegram/TaskResolver/Completion.antt =====
-- What is sent when a task completes.
use mathlib.Core.List.{Memᴰ}
use mathlib.Core.List.Memᴰ
use anonka.Prelude.{
  filter_by, and_iff, ℕ, zero, suc, ◌≡◌, ◌≢◌, ◌↔◌, refl, sym, ◌∙◌, true, false, List, [], ◌∷◌, ◌++◌,
  none, some, Text, text, text_eq, text_eq_iff, take, Bool-cases, Option-cases, inl, inr,
}
use anonka.Prelude.Decimal.{decimal}
use anonka.Memory.Tasks.Rows.{is_pending_status}
use anonka.Memory.Tasks.{
  Task, TaskStore, Dependency, get_dependents, get_dependents_in, get_task, find_task,
  get_dependencies, get_dependencies_in, is_done, all_done, can_execute,
}
use anonka.Memory.Tasks.Graph.{edge_of_dependencies, dependencies_of_edge}
use anonka.Telegram.TaskResolver.{
  is_pending, is_ready, ready_among, tasks_to_trigger, SentMessage, trigger_task, trigger_all,
  on_task_complete,
}

-- Every task that this one depends on is there and done.
abbrev pub IsUnblocked : TaskStore → Text → Type 0
IsUnblocked s id =
    (parent : Text) → Memᴰ (id, parent) s.dependencies → is_done (get_task s parent) ≡ true

all_done_iff :
    (tasks : List Task) (ps : List Text)
    → (all_done tasks ps ≡ true) ↔ ((p : Text) → Memᴰ p ps → is_done (find_task p tasks) ≡ true)
unfolding all_done
all_done_iff tasks [] = (λ _. λ p m. elim m [ ], λ _. refl)
all_done_iff tasks (q ∷ ps) =
    let (from, to) = and_iff (is_done (find_task q tasks)) (all_done tasks ps) in
    let (ih, back) = all_done_iff tasks ps in
    (
      λ h. λ p m. elim (Memᴰ.cases_cons m) [
        | inl e ↦ rw e (from h).0
        | inr later ↦ ih (from h).1 p later
      ],
      λ h. to (h q (Memᴰ.head refl), back (λ p m. h p (Memᴰ.tail m))),
    )

can_execute_iff : (s : TaskStore) (id : Text) → (can_execute s id ≡ true) ↔ IsUnblocked s id
unfolding can_execute get_dependencies get_task
can_execute_iff s id =
    let (from, to) = all_done_iff s.tasks (get_dependencies_in s.dependencies id) in
    (
      λ h. λ p m. from h p (dependencies_of_edge s.dependencies id p m),
      λ h. to (λ p m. h p (edge_of_dependencies s.dependencies id p m)),
    )

-- The task is there, pending, and not kept back by a dependency.
pub record IsDue (s : TaskStore) (d : Text) (t : Task) : Type 0 where
  pub found : get_task s d ≡ some t
  pub pending : is_pending_status t.status ≡ true
  pub unblocked : IsUnblocked s d

is_ready-IsDue : (s : TaskStore) (d : Text) → is_ready s d ≡ true → (t : Task) × IsDue s d t
is_ready-IsDue s d h =
    let (waits, can) = (and_iff (is_pending (get_task s d)) (can_execute s d)).0 h in
    elim (Option-cases (get_task s d)) [
      | inl missing ↦ let bad : false ≡ true = rw missing at waits in cc
      | inr (t, there) ↦ (
        t,
        record {
          found = there;
          pending = rw there at waits;
          unblocked = (can_execute_iff s d).0 can;
        },
      )
    ]

IsDue-is_ready : (s : TaskStore) (d : Text) (t : Task) → IsDue s d t → is_ready s d ≡ true
IsDue-is_ready s d t due =
    (and_iff (is_pending (get_task s d)) (can_execute s d)).1
      (rw (due.found) due.pending, (can_execute_iff s d).1 due.unblocked)

-- The message that starts a task.
abbrev pub start_message : Text → Text → Task → SentMessage
start_message chat d t = record {
  chat_id = chat;
  body = text "[TASK:" ++ (d ++ (text "] " ++ t.description));
}

-- What is sent to a chat on the completion of a task, read off the rows of dependencies: each of the
-- first `left` dependents counts, and each of them that is due is sent its message, in the rows' order.
pub data Sends (chat : Text) (s : TaskStore) (completed : Text)
    : ℕ → List Dependency → List SentMessage → Type 0 where
  limit_reached : (ds : List Dependency) → Sends chat s completed 0 ds []
  no_more : (left : ℕ) → Sends chat s completed left [] []
  of_another :
      (left : ℕ) (d parent : Text) (ds : List Dependency) (messages : List SentMessage)
      → parent ≢ completed
      → Sends chat s completed left ds messages
      → Sends chat s completed left ((d, parent) ∷ ds) messages
  not_due :
      (left : ℕ) (d : Text) (ds : List Dependency) (messages : List SentMessage)
      → ((t : Task) → ¬ IsDue s d t)
      → Sends chat s completed left ds messages
      → Sends chat s completed (suc left) ((d, completed) ∷ ds) messages
  due :
      (left : ℕ) (d : Text) (t : Task) (ds : List Dependency) (messages : List SentMessage)
      → IsDue s d t
      → Sends chat s completed left ds messages
      → Sends chat s completed (suc left) ((d, completed) ∷ ds) (start_message chat d t ∷ messages)

module _ (sender now : ℕ) (s : TaskStore) (completed : Text) where
  -- The triggers of a bridge that rejects nothing, with nothing else changing the store.
  abbrev triggers : List Text → TaskStore × List SentMessage
  triggers ids = trigger_all (some (suc sender)) (λ _. none) now (λ id s. s) s ids

  abbrev chat : Text
  chat = decimal (suc sender)

  triggers-due :
      (d : Text) (t : Task) (ids : List Text)
      → get_task s d ≡ some t
      → (triggers ids).0 ≡ s
      → ((triggers (d ∷ ids)).0 ≡ s)
        × ((triggers (d ∷ ids)).1 ≡ start_message chat d t ∷ (triggers ids).1)
  unfolding trigger_all trigger_task
  triggers-due d t ids there same = rw (there, trigger_task) (same, refl)

  triggers-Sends :
      (left : ℕ) (ds : List Dependency)
      → let out = triggers (ready_among s (take left (get_dependents_in ds completed))) in
        (out.0 ≡ s) × Sends chat s completed left ds out.1
  unfolding get_dependents_in trigger_all filter_by
  triggers-Sends zero ds = (refl, limit_reached ds)
  triggers-Sends (suc left) [] = (refl, no_more (suc left))
  triggers-Sends (suc left) ((d, parent) ∷ ds) = elim (Bool-cases (text_eq parent completed)) [
    | inr other ↦
        let (same, sends) = triggers-Sends (suc left) ds in
        rw (other, get_dependents_in)
          (
            same,
            of_another (suc left) d parent ds _
                (λ e.
                  let bad : true ≡ false = sym ((text_eq_iff parent completed).1 e) ∙ other in cc)
                sends,
          )
    | inl is ↦
        let at : parent ≡ completed = (text_eq_iff parent completed).0 is in
        let (same, sends) = triggers-Sends left ds in
        rw (is, get_dependents_in)
          (elim (Bool-cases (is_ready s d)) [
            | inr no_start ↦
                rw (no_start, filter_by)
                  (
                    same,
                    rw at (
                        not_due left d ds _
                          (λ t now_due.
                            let bad : true ≡ false =
                              sym (IsDue-is_ready s d t now_due) ∙ no_start in
                            cc)
                          sends),
                  )
            | inl ready ↦
                let (t, now_due) = is_ready-IsDue s d ready in
                let (still, first) =
                  triggers-due d t (ready_among s (take left (get_dependents_in ds completed)))
                    now_due.found same in
                rw (ready, filter_by) (still, rw (at, first) (due left d t ds _ now_due sends))
          ])
  ]

  -- On the completion of a task, to a known recipient, with a bridge that rejects nothing and no other
  -- change of the store meanwhile, exactly those of its first ten dependents are sent their start
  -- message, in order and once each, that are there, still pending, and have no dependency on a task
  -- that is missing or not done. The store stays as it is.
  pub on_task_complete-Sends :
      let out = on_task_complete (some (suc sender)) (λ _. none) now (λ id s. s) s completed in
      (out.0 ≡ s) × Sends (decimal (suc sender)) s completed 10 s.dependencies out.1
  unfolding on_task_complete tasks_to_trigger get_dependents
  on_task_complete-Sends = triggers-Sends 10 s.dependencies
