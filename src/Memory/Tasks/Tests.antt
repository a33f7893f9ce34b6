-- ===== src/Memory/Tasks/Tests.antt =====
-- The task store at concrete inputs.
use anonka.Prelude.{
  ◌≡◌, ◌↔◌, refl, Bool, true, false, List, [], ◌∷◌, none, some, Text, text, text_eq,
}
use anonka.Prelude.Dicts.{contains, add}
use anonka.Memory.Tasks.{
  Dependency, NewTask, new_store, find_task, get_task, get_dependencies, get_dependencies_in,
  search_from, would_create_cycle, insert_dependency, add_dependency, add_dependencies, create_task,
  new_task, can_execute, all_done, update_rows, update_task, complete_task, delete_task,
  remove_rows, remove_dependencies, get_dependents, get_dependents_in,
}
use anonka.Memory.Tasks.Graph.{Depends}
use anonka.Memory.Tasks.Search.{would_create_cycle_decides}
use anonka.Memory.Tasks.Acyclic.{IsSound, TaskCall, creates, adds, run, run-IsSound}
use anonka.Memory.Tasks.Orphans.{create_task_orphan}

scheduled : Unit {0}
unfolding run new_store create_task find_task add_dependencies add_dependency insert_dependency
    would_create_cycle search_from get_dependencies_in get_dependencies contains add text_eq
    get_task can_execute all_done update_task update_rows complete_task delete_task remove_rows
    remove_dependencies get_dependents get_dependents_in
scheduled = tt

abbrev wanted : List Text → NewTask
wanted parents = record {
  description = text "Check the price";
  priority = none;
  created_by = none;
  scheduled_for = none;
  payload = none;
  reason = none;
  scheduled_message_id = none;
  origin_sender_id = some 7;
  origin_chat_id = none;
  origin_is_group = some false;
  depends_on = parents;
}

-- The second task waits for the first one; the dependency the other way round is refused.
abbrev calls : List TaskCall
calls =
    creates (text "a") 5 (wanted [])
    ∷ creates (text "b") 6 (wanted (text "a" ∷ []))
    ∷ adds (text "a") (text "b")
    ∷ []

one_dependency : (run new_store calls).dependencies ≡ (text "b", text "a") ∷ []
unfolding scheduled
one_dependency = refl

waits : can_execute (run new_store calls) (text "b") ≡ false
unfolding scheduled
waits = refl

runs_on : can_execute (complete_task (run new_store calls) (text "a") none 9) (text "b") ≡ true
unfolding scheduled
runs_on = refl

freed : (delete_task (run new_store calls) (text "a")).0.dependencies ≡ []
unfolding scheduled
freed = refl

-- A table that has a cycle already, beside the task asked for.
abbrev ring : List Dependency
ring = (text "a", text "b") ∷ (text "b", text "a") ∷ []

around : would_create_cycle ring (text "c") (text "a") ≡ some false
unfolding scheduled
around = refl

would_create_cycle_decides_example :
    (b : Bool) × (would_create_cycle ring (text "c") (text "a") ≡ some b)
    × ((b ≡ true) ↔ Depends ring (text "a") (text "c"))
would_create_cycle_decides_example = would_create_cycle_decides ring (text "c") (text "a")

run-IsSound_example : IsSound (run new_store calls)
run-IsSound_example = run-IsSound calls

create_task_orphan_example :
    (create_task (run new_store calls) (text "d") 8 (wanted (text "x" ∷ text "a" ∷ []))).1 ≡ none
    × (get_task
          (create_task (run new_store calls) (text "d") 8 (wanted (text "x" ∷ text "a" ∷ []))).0
          (text "d")
        ≡ some (new_task (text "d") 8 (wanted (text "x" ∷ text "a" ∷ []))))
    × (get_dependencies
          (create_task (run new_store calls) (text "d") 8 (wanted (text "x" ∷ text "a" ∷ []))).0
          (text "d")
        ≡ [])
    × (can_execute
          (create_task (run new_store calls) (text "d") 8 (wanted (text "x" ∷ text "a" ∷ []))).0
          (text "d")
        ≡ true)
unfolding scheduled
create_task_orphan_example =
    create_task_orphan (run new_store calls) (text "d") 8 (wanted (text "x" ∷ text "a" ∷ []))
      (text "x") (text "a" ∷ []) (run-IsSound calls) refl refl refl refl
