-- ===== src/Telegram/TaskResolver/Failure.antt =====
-- The cascade of a failure: it ends, cancels only what depends on the failed task, and leaves no
-- dependent behind that it should have cancelled.
use mathlib.Core.List.{Memᴰ}
use mathlib.Core.List.Memᴰ
use anonka.Prelude.{
  and_iff, ℕ, zero, suc, ◌≤◌, ◌<◌, ◌≡◌, refl, ap, ◌∙◌, Bool, true, false, List, [], ◌∷◌, Option,
  none, some, Text, text_eq_refl, arith, Bool-cases, inl, inr,
}
use anonka.Memory.Tasks.{Task, TaskStore, get_task, find_task, updated, update_rows, cancel_task}
use anonka.Memory.Tasks.Rows.{
  is_pending_status, to_cancelled, with_update, find_task-update_rows, pending_count,
  pending_count-cancel,
}
use anonka.Telegram.TaskResolver.{
  first_dependents, skip_on_failure, to_cancel, should_cancel, round, cascade, on_task_fail,
}
use anonka.Telegram.TaskResolver.Effect.{
  Cascade, edge_of_first, Cascade-none, settled-keeps, Cascade-join, Cascade-step,
}

module _ (keeps : Text → Bool) (now : ℕ) where
  abbrev pub Settled : TaskStore → List Text → Type 0
  Settled u ds = (d : Text) → Memᴰ d ds → should_cancel keeps now u d ≡ false

  -- What a call of the cascade gives, on stores with few enough pending tasks for its fuel.
  abbrev Serves : (TaskStore → Text → Option TaskStore) → ℕ → Type 0
  Serves on_fail fuel =
      (s : TaskStore) (id : Text)
      → pending_count s.tasks < fuel
      → (u : TaskStore) × (on_fail s id ≡ some u)
        × Cascade keeps now id s u
        × Settled u (first_dependents s id)
        × (pending_count u.tasks ≤ pending_count s.tasks)

  row_of_wanted :
      (o : Option Task)
      → to_cancel keeps now o ≡ true
      → (t : Task) × (o ≡ some t) × (is_pending_status t.status ≡ true)
  row_of_wanted none w = cc
  row_of_wanted (some t) w = (
    t,
    refl,
    ((and_iff (is_pending_status t.status) (skip_on_failure keeps now t.payload)).0 w).0,
  )

  cancelled_count :
      (s : TaskStore) (id : Text)
      → should_cancel keeps now s id ≡ true
      → pending_count (cancel_task s id now).tasks < pending_count s.tasks
  unfolding cancel_task get_task
  cancelled_count s id w =
      let (t, found, p) = row_of_wanted (get_task s id) w in
      pending_count-cancel id now s.tasks t found p

  gone_now :
      (s : TaskStore) (id : Text)
      → should_cancel keeps now s id ≡ true
      → should_cancel keeps now (cancel_task s id now) id ≡ false
  unfolding cancel_task get_task
  gone_now s id w =
      let (t, found, p) = row_of_wanted (get_task s id) w in
      let row : find_task id (update_rows id (updated to_cancelled now) s.tasks)
          ≡ some (updated to_cancelled now t) =
        find_task-update_rows id id to_cancelled now s.tasks
        ∙ rw (text_eq_refl id) (ap (with_update to_cancelled now) found) in
      ap (to_cancel keeps now) row

  module _ (on_fail : TaskStore → Text → Option TaskStore) (fuel : ℕ) (serves : Serves on_fail fuel)
      (top : Text) where
    round_serves :
        (s : TaskStore) (id : Text)
        → Memᴰ (id, top) s.dependencies
        → pending_count s.tasks < suc fuel
        → (u : TaskStore) × (round keeps now on_fail s id ≡ some u)
          × Cascade keeps now top s u
          × (should_cancel keeps now u id ≡ false)
          × (pending_count u.tasks ≤ pending_count s.tasks)
    round_serves s id edge few = elim (Bool-cases (should_cancel keeps now s id)) [
      | inr skipped ↦
          (s, rw (skipped, round) refl, Cascade-none keeps now top s, skipped, omega arith)
      | inl wanted ↦
          let less = cancelled_count s id wanted in
          let (u, e, c, below, count) =
            serves (cancel_task s id now) id (omega (arith, less, few)) in
          (
            u,
            rw (wanted, round) e,
            Cascade-step keeps now top id s u edge wanted c below,
            settled-keeps keeps now id (cancel_task s id now) u id c (gone_now s id wanted),
            omega (arith, less, count),
          )
    ]

    cascade_serves :
        (ids : List Text) (s : TaskStore)
        → ((d : Text) → Memᴰ d ids → Memᴰ (d, top) s.dependencies)
        → pending_count s.tasks < suc fuel
        → (u : TaskStore) × (cascade keeps now on_fail s ids ≡ some u)
          × Cascade keeps now top s u
          × Settled u ids
          × (pending_count u.tasks ≤ pending_count s.tasks)
    unfolding cascade
    cascade_serves [] s edges few =
        (s, refl, Cascade-none keeps now top s, λ d m. elim m [ ], omega arith)
    cascade_serves (id ∷ ids) s edges few =
        let (u, e, c, gone, count) = round_serves s id (edges id (Memᴰ.head refl)) few in
        let (v, f, c', rest, count') =
          cascade_serves ids u (λ d m. rw c.same (edges d (Memᴰ.tail m)))
            (omega (arith, count, few)) in
        (
          v,
          rw (e, cascade) f,
          Cascade-join keeps now top s u v c c',
          λ d m. elim (Memᴰ.cases_cons m) [
            | inl is ↦
                ap (should_cancel keeps now v) is ∙ settled-keeps keeps now top u v id c' gone
            | inr later ↦ rest d later
          ],
          omega (arith, count, count'),
        )

  on_task_fail-Serves : (fuel : ℕ) → Serves (on_task_fail keeps now fuel) fuel
  unfolding on_task_fail
  on_task_fail-Serves zero s id few = absurd (omega (arith, few))
  on_task_fail-Serves (suc fuel) s id few =
      cascade_serves (on_task_fail keeps now fuel) fuel (on_task_fail-Serves fuel) id
        (first_dependents s id) s (edge_of_first s id) few

  -- What the whole cascade owes: nothing but pending tasks that depend on the failed task and may be
  -- skipped is cancelled, and among the first ten dependents none is left that should have been.
  pub record Settles (s : TaskStore) (id : Text) (u : TaskStore) : Type 0 where
    pub effect : Cascade keeps now id s u
    pub settled : Settled u (first_dependents s id)

  -- The cascade of a failure ends, given more fuel than there are pending tasks, on any table of
  -- dependencies, cyclic ones included. No dependency changes; a task's row stays as it was, or the
  -- task was pending, may be skipped, depends on the failed task through some chain, and is now
  -- cancelled. Of the first ten dependents of the failed task, and of the first ten of every task that
  -- is cancelled, none is left that is pending and may be skipped.
  pub on_task_fail-Settles :
      (fuel : ℕ) (s : TaskStore) (id : Text)
      → pending_count s.tasks < fuel
      → (u : TaskStore) × (on_task_fail keeps now fuel s id ≡ some u) × Settles s id u
  on_task_fail-Settles fuel s id few =
      let (u, e, c, settled, _) = on_task_fail-Serves fuel s id few in
      (u, e, record { effect = c; settled = settled })
