-- ===== src/Memory/Tasks/Orphans.antt =====
-- What a refused creation leaves behind.
use mathlib.Core.List.{Memᴰ}
use anonka.Prelude.{
  and_iff, ℕ, ◌≡◌, refl, sym, ap, ◌∙◌, Bool, true, false, ◌&&◌, List, [], ◌∷◌, ◌++◌, none, some,
  Text, text_eq, text_eq_iff, text_eq_refl, if◌then◌else◌, arith, Bool-cases, inl, inr,
}
use anonka.Memory.Tasks.{
  Task, TaskStore, Dependency, NewTask, find_task, is_there, has_dependency, insert_dependency,
  guarded_insert, add_dependency, add_dependencies, new_task, create_task, get_dependencies_in,
  get_dependencies, all_done, can_execute, get_task,
}
use anonka.Memory.Tasks.Graph.{Depends, itself, through, edge_of_dependencies}
use anonka.Memory.Tasks.Search.{would_create_cycle_decides}
use anonka.Memory.Tasks.Acyclic.{IsSound}

edge_of_has : (ds : List Dependency) (t p : Text) → has_dependency ds t p ≡ true → Memᴰ (t, p) ds
edge_of_has [] t p h = cc
edge_of_has ((a, b) ∷ ds) t p h = elim (Bool-cases (text_eq a t && text_eq b p)) [
  | inl here ↦
      let (e, f) = (and_iff (text_eq a t) (text_eq b p)).0 here in
      Memᴰ.head (rw ((text_eq_iff a t).0 e, (text_eq_iff b p).0 f) refl)
  | inr later ↦ Memᴰ.tail (edge_of_has ds t p (rw later at h))
]

find_task-append_none :
    (ts : List Task) (t : Task) (id : Text)
    → find_task id ts ≡ none
    → find_task id (ts ++ t ∷ []) ≡ (if text_eq t.id id then some t else none)
unfolding find_task
find_task-append_none [] t id h = refl
find_task-append_none (u ∷ ts) t id h = ground (arith, find_task-append_none ts t id)

no_dependencies :
    (ds : List Dependency) (id : Text)
    → ((p : Text) → ¬ Memᴰ (id, p) ds)
    → get_dependencies_in ds id ≡ []
no_dependencies ds id free =
    by_list (get_dependencies_in ds id) (λ p m. free p (edge_of_dependencies ds id p m))
  where
    by_list : (ps : List Text) → ((p : Text) → ¬ Memᴰ p ps) → ps ≡ []
    by_list [] h = refl
    by_list (p ∷ ps) h = absurd (h p (Memᴰ.head refl))

insert_missing :
    (s : TaskStore) (t p : Text)
    → has_dependency s.dependencies t p ≡ false
    → find_task p s.tasks ≡ none
    → insert_dependency s t p ≡ (s, false)
unfolding insert_dependency
insert_missing s t p new gone = elim (Bool-cases (is_there (find_task t s.tasks))) [
  | inl there ↦ rw (new, insert_dependency) (rw (there, gone) refl)
  | inr absent ↦ rw (new, insert_dependency) (rw absent refl)
]

module _ (s : TaskStore) (id : Text) (now : ℕ) (t : NewTask) (missing : Text)
    (parents : List Text) where
  abbrev inserted : TaskStore
  inserted = record s { tasks = s.tasks ++ new_task id now t ∷ [] }

  module _ (v : IsSound s) (fresh : find_task id s.tasks ≡ none)
      (gone : find_task missing s.tasks ≡ none) (other : text_eq id missing ≡ false) where
    no_edge_from : (k p : Text) → find_task k s.tasks ≡ none → ¬ Memᴰ (k, p) s.dependencies
    no_edge_from k p e m = let bad : true ≡ false = sym (v.there k p m).0 ∙ ap is_there e in cc

    no_chain : (a b : Text) → a ≡ missing → b ≡ id → ¬ Depends s.dependencies a b
    no_chain a b at to (itself _) =
        let bad : true ≡ false =
          sym (text_eq_refl missing) ∙ ap (λ x. text_eq x missing) (sym at ∙ to) ∙ other in
        cc
    no_chain a b at to (through _ c _ m d) =
        no_edge_from a c (ap (λ x. find_task x s.tasks) at ∙ gone) m

    refused : add_dependency inserted id missing ≡ (inserted, false)
    unfolding add_dependency
    refused =
        let (b, e, decides) = would_create_cycle_decides s.dependencies id missing in
        ap (guarded_insert inserted id missing) e ∙ by_verdict b decides.0
      where
        not_yet : has_dependency s.dependencies id missing ≡ false
        not_yet = elim (Bool-cases (has_dependency s.dependencies id missing)) [
          | inl old ↦
              absurd (no_edge_from id missing fresh (edge_of_has s.dependencies id missing old))
          | inr new ↦ new
        ]

        still_gone : find_task missing inserted.tasks ≡ none
        still_gone = find_task-append_none s.tasks (new_task id now t) missing gone ∙ rw other refl

        by_verdict :
            (b : Bool)
            → (b ≡ true → Depends s.dependencies missing id)
            → guarded_insert inserted id missing (some b) ≡ (inserted, false)
        by_verdict true d = absurd (no_chain missing id refl refl (d refl))
        by_verdict false d = insert_missing inserted id missing not_yet still_gone

    -- A creation whose first parent is not there, on a sound store and under an id that is neither taken
    -- nor that parent's, throws, but leaves the new task: it is there as it would be after a creation,
    -- but has no dependencies at all, and counts as ready to execute. The insertion of the task and those of its dependencies are no
    -- transaction.
    pub create_task_orphan :
        t.depends_on ≡ missing ∷ parents
        → (create_task s id now t).1 ≡ none
          × (get_task (create_task s id now t).0 id ≡ some (new_task id now t))
          × (get_dependencies (create_task s id now t).0 id ≡ [])
          × (can_execute (create_task s id now t).0 id ≡ true)
    unfolding create_task get_task can_execute add_dependencies get_dependencies all_done
    create_task_orphan wants =
        let none_yet : is_there (find_task id s.tasks) ≡ false = ap is_there fresh in
        let stops : add_dependencies inserted id t.depends_on ≡ (inserted, false) =
          ap (add_dependencies inserted id) wants ∙ rw (refused, add_dependencies) refl in
        let made : create_task s id now t ≡ (inserted, none) =
          rw (none_yet, create_task) (rw stops refl) in
        rw made (
          refl,
          find_task-append_none s.tasks (new_task id now t) id fresh ∙ rw (text_eq_refl id) refl,
          no_dependencies s.dependencies id (λ p. no_edge_from id p fresh),
          ap (all_done inserted.tasks)
              (no_dependencies s.dependencies id (λ p. no_edge_from id p fresh)),
        )
