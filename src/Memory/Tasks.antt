-- ===== src/Memory/Tasks.antt =====
-- src/memory/agent/tasks.ts: the store of scheduled tasks and of their dependencies. The two tables are
-- lists of rows, in the order of insertion where a query names no order; a statement that the schema
-- refuses throws, which is `false` or `none` here. Times are in seconds, and `now` is the clock.
pub mod Rows
pub mod Graph
pub mod Search
pub mod Acyclic
pub mod Orphans
pub mod Tests
use anonka.Prelude.{
  ℕ, zero, suc, ◌+◌, Bool, true, false, not, ◌&&◌, ◌||◌, List, [], ◌∷◌, ◌++◌, Option, none, some,
  Text, text_eq, if◌then◌else◌, ltb, ◌==◌, length,
}
use anonka.Prelude.Int.{ℤ, pos}
use anonka.Prelude.Dicts.{contains, add}

pub data TaskStatus : Type 0 where
  pending in_progress done failed cancelled : TaskStatus

pub record Task : Type 0 where
  pub id : Text
  pub description : Text
  pub status : TaskStatus
  pub priority : ℤ
  pub created_by : Option Text
  pub created_at : ℕ
  pub started_at : Option ℕ
  pub completed_at : Option ℕ
  pub result : Option Text
  pub error : Option Text
  pub scheduled_for : Option ℕ
  pub payload : Option Text
  pub reason : Option Text
  pub scheduled_message_id : Option ℕ
  pub origin_sender_id : Option ℕ
  pub origin_chat_id : Option Text
  pub origin_is_group : Option Bool

-- A row of `task_dependencies`: `task_id` and `depends_on_task_id`.
abbrev pub Dependency : Type 0
Dependency = Text × Text

pub record TaskStore : Type 0 where
  pub tasks : List Task
  pub dependencies : List Dependency

pub record NewTask : Type 0 where
  pub description : Text
  pub priority : Option ℤ
  pub created_by : Option Text
  pub scheduled_for : Option ℕ
  pub payload : Option Text
  pub reason : Option Text
  pub scheduled_message_id : Option ℕ
  pub origin_sender_id : Option ℕ
  pub origin_chat_id : Option Text
  pub origin_is_group : Option Bool
  pub depends_on : List Text

unfoldable pub new_store : TaskStore
new_store = record { tasks = []; dependencies = [] }

-- `SELECT * FROM tasks WHERE id = ?`
unfoldable pub find_task : Text → List Task → Option Task
find_task id [] = none
find_task id (t ∷ ts) = let rest = find_task id ts in if text_eq t.id id then some t else rest

unfoldable pub get_task : TaskStore → Text → Option Task
unfolding find_task
get_task s id = find_task id s.tasks

abbrev pub is_there {ℓ} : {A : Type ℓ} → Option A → Bool
is_there none = false
is_there (some _) = true

unfoldable pub get_dependencies_in : List Dependency → Text → List Text
get_dependencies_in [] id = []
get_dependencies_in ((task, parent) ∷ ds) id =
    let rest = get_dependencies_in ds id in if text_eq task id then parent ∷ rest else rest

unfoldable pub get_dependencies : TaskStore → Text → List Text
unfolding get_dependencies_in
get_dependencies s id = get_dependencies_in s.dependencies id

unfoldable pub get_dependents_in : List Dependency → Text → List Text
get_dependents_in [] id = []
get_dependents_in ((task, parent) ∷ ds) id =
    let rest = get_dependents_in ds id in if text_eq parent id then task ∷ rest else rest

unfoldable pub get_dependents : TaskStore → Text → List Text
unfolding get_dependents_in
get_dependents s id = get_dependents_in s.dependencies id

-- The `while` loop of `wouldCreateCycle`; `none` if the fuel runs out first.
unfoldable pub search_from : ℕ → List Dependency → Text → List Text → List Text → Option Bool
unfolding get_dependencies_in
search_from fuel ds target visited [] = some false
search_from zero ds target visited (current ∷ queue) = none
search_from (suc fuel) ds target visited (current ∷ queue) =
    let skipped = search_from fuel ds target visited queue in
    let expanded =
      search_from fuel ds target (add current visited) (queue ++ get_dependencies_in ds current) in
    if text_eq current target
    then some true
    else if contains visited current
    then skipped
    else expanded

-- Every dependency joins the queue at most once, beside the new parent.
abbrev pub search_fuel : List Dependency → ℕ
search_fuel ds = suc (length ds)

unfoldable pub would_create_cycle : List Dependency → Text → Text → Option Bool
unfolding search_from
would_create_cycle ds task_id new_parent_id =
    if text_eq task_id new_parent_id
    then some true
    else search_from (search_fuel ds) ds task_id [] (new_parent_id ∷ [])

abbrev pub has_dependency : List Dependency → Text → Text → Bool
has_dependency [] task parent = false
has_dependency ((t, p) ∷ ds) task parent =
    text_eq t task && text_eq p parent || has_dependency ds task parent

-- `INSERT OR IGNORE` under the primary key and the two foreign keys.
unfoldable pub insert_dependency : TaskStore → Text → Text → TaskStore × Bool
insert_dependency s task parent =
    if has_dependency s.dependencies task parent
    then (s, true)
    else if is_there (find_task task s.tasks) && is_there (find_task parent s.tasks)
    then (record s { dependencies = s.dependencies ++ (task, parent) ∷ [] }, true)
    else (s, false)

abbrev pub guarded_insert : TaskStore → Text → Text → Option Bool → TaskStore × Bool
guarded_insert s task parent (some false) = insert_dependency s task parent
guarded_insert s task parent _ = (s, false)

unfoldable pub add_dependency : TaskStore → Text → Text → TaskStore × Bool
unfolding would_create_cycle insert_dependency
add_dependency s task_id parent_task_id =
    guarded_insert s task_id parent_task_id
      (would_create_cycle s.dependencies task_id parent_task_id)

abbrev pub or_zero : Option ℤ → ℤ
or_zero none = pos 0
or_zero (some n) = n

abbrev pub new_task : Text → ℕ → NewTask → Task
new_task id now t = record {
  id = id;
  description = t.description;
  status = pending;
  priority = or_zero t.priority;
  created_by = t.created_by;
  created_at = now;
  started_at = none;
  completed_at = none;
  result = none;
  error = none;
  scheduled_for = t.scheduled_for;
  payload = t.payload;
  reason = t.reason;
  scheduled_message_id = t.scheduled_message_id;
  origin_sender_id = t.origin_sender_id;
  origin_chat_id = t.origin_chat_id;
  origin_is_group = t.origin_is_group;
}

-- The loop over `dependsOn`, which ends with the first parent that is refused.
unfoldable pub add_dependencies : TaskStore → Text → List Text → TaskStore × Bool
unfolding add_dependency
add_dependencies s id [] = (s, true)
add_dependencies s id (parent ∷ parents) =
    let (s', added) = add_dependency s id parent in
    let rest = add_dependencies s' id parents in if added then rest else (s', false)

-- `id` is the random UUID; a row with this id would make the insertion throw.
unfoldable pub create_task : TaskStore → Text → ℕ → NewTask → TaskStore × Option Task
unfolding add_dependencies find_task
create_task s id now t =
    if is_there (find_task id s.tasks)
    then (s, none)
    else (let (s', added) =
          add_dependencies (record s { tasks = s.tasks ++ new_task id now t ∷ [] }) id
            t.depends_on in
        (s', if added then some (new_task id now t) else none))

pub record TaskUpdate : Type 0 where
  pub description : Option Text
  pub status : Option TaskStatus
  pub priority : Option ℤ
  pub result : Option Text
  pub error : Option Text

abbrev or_old {ℓ} : {A : Type ℓ} → Option A → A → A
or_old none a = a
or_old (some b) a = b

abbrev or_kept {ℓ} : {A : Type ℓ} → Option A → Option A → Option A
or_kept none a = a
or_kept (some b) a = some b

-- A time that is not set; the source takes 0 for one as well.
abbrev set_once : ℕ → Option ℕ → Option ℕ
set_once now none = some now
set_once now (some zero) = some now
set_once now (some (suc n)) = some (suc n)

abbrev started_by : Option TaskStatus → ℕ → Option ℕ → Option ℕ
started_by (some in_progress) now t = set_once now t
started_by _ now t = t

abbrev completed_by : Option TaskStatus → ℕ → Option ℕ → Option ℕ
completed_by (some done) now t = set_once now t
completed_by (some failed) now t = set_once now t
completed_by (some cancelled) now t = set_once now t
completed_by _ now t = t

abbrev pub updated : TaskUpdate → ℕ → Task → Task
updated u now t = record t {
  description = or_old u.description t.description;
  status = or_old u.status t.status;
  started_at = started_by u.status now t.started_at;
  completed_at = completed_by u.status now t.completed_at;
  priority = or_old u.priority t.priority;
  result = or_kept u.result t.result;
  error = or_kept u.error t.error;
}

-- `UPDATE tasks SET ... WHERE id = ?`
unfoldable pub update_rows : Text → (Task → Task) → List Task → List Task
update_rows id f [] = []
update_rows id f (t ∷ ts) = (if text_eq t.id id then f t else t) ∷ update_rows id f ts

-- An update without a field changes no row, which is what updating no field does.
unfoldable pub update_task : TaskStore → Text → TaskUpdate → ℕ → TaskStore
unfolding update_rows
update_task s id u now = record s { tasks = update_rows id (updated u now) s.tasks }

abbrev pub to_status : TaskStatus → Option Text → Option Text → TaskUpdate
to_status status result error = record {
  description = none;
  status = some status;
  priority = none;
  result = result;
  error = error;
}

unfoldable pub complete_task : TaskStore → Text → Option Text → ℕ → TaskStore
unfolding update_task
complete_task s id result now = update_task s id (to_status done result none) now

unfoldable pub fail_task : TaskStore → Text → Text → ℕ → TaskStore
unfolding update_task
fail_task s id error now = update_task s id (to_status failed none (some error)) now

unfoldable pub start_task : TaskStore → Text → ℕ → TaskStore
unfolding update_task
start_task s id now = update_task s id (to_status in_progress none none) now

unfoldable pub cancel_task : TaskStore → Text → ℕ → TaskStore
unfolding update_task
cancel_task s id now = update_task s id (to_status cancelled none none) now

unfoldable pub remove_rows : Text → List Task → List Task
remove_rows id [] = []
remove_rows id (t ∷ ts) = let rest = remove_rows id ts in if text_eq t.id id then rest else t ∷ rest

-- `ON DELETE CASCADE` of both foreign keys.
unfoldable pub remove_dependencies : Text → List Dependency → List Dependency
remove_dependencies id [] = []
remove_dependencies id ((t, p) ∷ ds) =
    let rest = remove_dependencies id ds in
    if text_eq t id || text_eq p id then rest else (t, p) ∷ rest

unfoldable pub delete_task : TaskStore → Text → TaskStore × Bool
unfolding remove_rows remove_dependencies
delete_task s id = (
  record { tasks = remove_rows id s.tasks; dependencies = remove_dependencies id s.dependencies },
  is_there (find_task id s.tasks),
)

abbrev pub is_done_status : TaskStatus → Bool
is_done_status done = true
is_done_status _ = false

abbrev pub is_done : Option Task → Bool
is_done none = false
is_done (some t) = is_done_status t.status

-- The rows of the join that are not done are none.
unfoldable pub all_done : List Task → List Text → Bool
all_done tasks [] = true
all_done tasks (p ∷ ps) = is_done (find_task p tasks) && all_done tasks ps

unfoldable pub can_execute : TaskStore → Text → Bool
unfolding all_done get_dependencies
can_execute s id = all_done s.tasks (get_dependencies s id)
