-- ===== src/Memory/Tasks/Acyclic.antt =====
-- The dependencies never form a cycle, and are always between tasks that are there.
use mathlib.Core.List.{Memᴰ}
use mathlib.Core.List.Memᴰ
use anonka.Prelude.{
  and_iff, ℕ, ◌≡◌, ◌⊎◌, refl, ap, ◌∙◌, Bool, true, false, ◌||◌, ◌&&◌, List, [], ◌∷◌, ◌++◌, some,
  Text, text_eq, text_eq_iff, arith, Bool-cases, inl, inr,
}
use anonka.Memory.Tasks.{
  Task, TaskStore, Dependency, NewTask, TaskUpdate, new_store, find_task, is_there, has_dependency,
  insert_dependency, guarded_insert, add_dependency, add_dependencies, new_task, create_task,
  updated, update_rows, update_task, remove_rows, remove_dependencies, delete_task,
}
use anonka.Memory.Tasks.Graph.{Depends, through, Depends-join, Depends-weaken, Depends-split}
use anonka.Memory.Tasks.Search.{would_create_cycle_decides}

-- No task is reached again from what it depends on.
abbrev pub IsAcyclic : List Dependency → Type 0
IsAcyclic ds = (t p : Text) → Memᴰ (t, p) ds → ¬ Depends ds p t

abbrev pub IsThere : List Task → Text → Type 0
IsThere tasks id = is_there (find_task id tasks) ≡ true

pub record IsSound (s : TaskStore) : Type 0 where
  pub acyclic : IsAcyclic s.dependencies
  pub there : (t p : Text) → Memᴰ (t, p) s.dependencies → IsThere s.tasks t × IsThere s.tasks p

last_cases : (ds : List Dependency) (e d : Dependency) → Memᴰ d (ds ++ e ∷ []) → Memᴰ d ds ⊎ (d ≡ e)
last_cases ds e d m = elim (Memᴰ.append_cases ds m) [
  | inl old ↦ inl old
  | inr new ↦ inr (Memᴰ.eq_of_singleton new)
]

pub append-IsAcyclic :
    (ds : List Dependency) (t p : Text)
    → IsAcyclic ds
    → ¬ Depends ds p t
    → IsAcyclic (ds ++ (t, p) ∷ [])
append-IsAcyclic ds t p a free u v m d = elim (last_cases ds (t, p) (u, v) m) [
  | inl old ↦ elim (Depends-split ds _ t p (last_cases ds (t, p)) v u d) [
    | inl whole ↦ a u v old whole
    | inr (to_t, from_p) ↦ free (Depends-join ds p u t from_p (through u v t old to_t))
  ]
  | inr new ↦
      let at : u ≡ t = ap (λ (e : Dependency). e.0) new in
      let to : v ≡ p = ap (λ (e : Dependency). e.1) new in
      elim (Depends-split ds _ t p (last_cases ds (t, p)) v u d) [
        | inl whole ↦ free (rw (← at, ← to) whole)
        | inr (to_t, from_p) ↦ free (rw (← to) to_t)
      ]
]

insert_dependency-IsSound :
    (s : TaskStore) (t p : Text)
    → IsSound s
    → ¬ Depends s.dependencies p t
    → IsSound (insert_dependency s t p).0
unfolding insert_dependency
insert_dependency-IsSound s t p v free = elim (Bool-cases (has_dependency s.dependencies t p)) [
  | inl old ↦ rw (old, insert_dependency) v
  | inr new ↦ elim (Bool-cases (is_there (find_task t s.tasks) && is_there (find_task p s.tasks))) [
    | inr missing ↦ rw (new, insert_dependency) (rw missing v)
    | inl there ↦
        rw (new, insert_dependency)
          (rw there (record {
            acyclic = append-IsAcyclic s.dependencies t p v.acyclic free;
            there = λ a b m. elim (last_cases s.dependencies (t, p) (a, b) m) [
              | inl e ↦ v.there a b e
              | inr e ↦
                  let (has_t, has_p) = (and_iff _ _).0 there in
                  (
                    ap (λ (d : Dependency). is_there (find_task d.0 s.tasks)) e ∙ has_t,
                    ap (λ (d : Dependency). is_there (find_task d.1 s.tasks)) e ∙ has_p,
                  )
            ];
          }))
  ]
]

add_dependency-IsSound : (s : TaskStore) (t p : Text) → IsSound s → IsSound (add_dependency s t p).0
unfolding add_dependency
add_dependency-IsSound s t p v =
    let (b, e, decides) = would_create_cycle_decides s.dependencies t p in
    rw e (by_verdict b decides.1)
  where
    by_verdict :
        (b : Bool)
        → (Depends s.dependencies p t → b ≡ true)
        → IsSound (guarded_insert s t p (some b)).0
    by_verdict true d = v
    by_verdict false d = insert_dependency-IsSound s t p v (λ chain. let e = d chain in cc)

add_dependencies-IsSound :
    (parents : List Text) (s : TaskStore) (id : Text)
    → IsSound s
    → IsSound (add_dependencies s id parents).0
unfolding add_dependencies
add_dependencies-IsSound [] s id v = v
add_dependencies-IsSound (p ∷ parents) s id v =
    let w = add_dependency-IsSound s id p v in
    elim (Bool-cases (add_dependency s id p).1) [
      | inl added ↦ rw added (add_dependencies-IsSound parents (add_dependency s id p).0 id w)
      | inr refused ↦ rw refused w
    ]

IsThere-append : (ts us : List Task) (id : Text) → IsThere ts id → IsThere (ts ++ us) id
unfolding find_task
IsThere-append [] us id h = cc
IsThere-append (t ∷ ts) us id h = ground (arith, IsThere-append ts us id)

create_task-IsSound :
    (s : TaskStore) (id : Text) (now : ℕ) (t : NewTask)
    → IsSound s
    → IsSound (create_task s id now t).0
unfolding create_task
create_task-IsSound s id now t v = elim (Bool-cases (is_there (find_task id s.tasks))) [
  | inl taken ↦ rw (taken, create_task) v
  | inr new ↦
      rw (new, create_task)
        (add_dependencies-IsSound t.depends_on
          (record s { tasks = s.tasks ++ new_task id now t ∷ [] }) id
          (record {
            acyclic = v.acyclic;
            there = λ a b m.
                let (has_a, has_b) = v.there a b m in
                (
                  IsThere-append s.tasks (new_task id now t ∷ []) a has_a,
                  IsThere-append s.tasks (new_task id now t ∷ []) b has_b,
                );
          }))
]

IsThere-update_rows :
    (ts : List Task) (k id : Text) (u : TaskUpdate) (now : ℕ)
    → IsThere ts id
    → IsThere (update_rows k (updated u now) ts) id
unfolding find_task update_rows
IsThere-update_rows [] k id u now h = cc
IsThere-update_rows (t ∷ ts) k id u now h = ground (arith, IsThere-update_rows ts k id u now)

update_task-IsSound :
    (s : TaskStore) (id : Text) (u : TaskUpdate) (now : ℕ)
    → IsSound s
    → IsSound (update_task s id u now)
unfolding update_task
update_task-IsSound s id u now v = record {
  acyclic = v.acyclic;
  there = λ a b m.
      let (has_a, has_b) = v.there a b m in
      (IsThere-update_rows s.tasks id a u now has_a, IsThere-update_rows s.tasks id b u now has_b);
}

remaining :
    (id : Text) (ds : List Dependency) (t p : Text)
    → Memᴰ (t, p) (remove_dependencies id ds)
    → Memᴰ (t, p) ds × (text_eq t id ≡ false) × (text_eq p id ≡ false)
unfolding remove_dependencies
remaining id [] t p m = elim m [ ]
remaining id ((a, b) ∷ ds) t p m = elim (Bool-cases (text_eq a id || text_eq b id)) [
  | inl gone ↦
      let (old, e, f) = remaining id ds t p (rw (gone, remove_dependencies) at m) in
      (Memᴰ.tail old, e, f)
  | inr kept ↦
      let m' : Memᴰ (t, p) ((a, b) ∷ remove_dependencies id ds) =
        rw (kept, remove_dependencies) at m in
      elim (Memᴰ.cases_cons m') [
        | inl at ↦
            let same : (t ≡ a) × (p ≡ b) =
              (ap (λ (d : Dependency). d.0) at, ap (λ (d : Dependency). d.1) at) in
            let (e, f) = neither (text_eq a id) (text_eq b id) kept in
            (Memᴰ.head at, ap (λ x. text_eq x id) same.0 ∙ e, ap (λ x. text_eq x id) same.1 ∙ f)
        | inr later ↦ let (old, e, f) = remaining id ds t p later in (Memᴰ.tail old, e, f)
      ]
]
  where
    neither : (x y : Bool) → (x || y) ≡ false → (x ≡ false) × (y ≡ false)
    neither true y h = cc
    neither false y h = (refl, h)

IsThere-remove_rows :
    (ts : List Task) (id k : Text)
    → text_eq k id ≡ false
    → IsThere ts k
    → IsThere (remove_rows id ts) k
unfolding find_task remove_rows
IsThere-remove_rows [] id k other h = cc
IsThere-remove_rows (t ∷ ts) id k other h = ground (
  arith,
  text_eq_iff t.id id,
  text_eq_iff t.id k,
  text_eq_iff k id,
  IsThere-remove_rows ts id k other,
)

delete_task-IsSound : (s : TaskStore) (id : Text) → IsSound s → IsSound (delete_task s id).0
unfolding delete_task
delete_task-IsSound s id v = record {
  acyclic = λ t p m d. v.acyclic t p (remaining id s.dependencies t p m).0 (
      Depends-weaken (remove_dependencies id s.dependencies) s.dependencies
        (λ e f. (remaining id s.dependencies e.0 e.1 f).0) p t d);
  there = λ t p m.
      let (old, e, f) = remaining id s.dependencies t p m in
      let (has_t, has_p) = v.there t p old in
      (IsThere-remove_rows s.tasks id t e has_t, IsThere-remove_rows s.tasks id p f has_p);
}

-- The calls on a store that change it. Completing, failing, starting and cancelling are updates.
pub data TaskCall : Type 0 where
  creates : (id : Text) (now : ℕ) → NewTask → TaskCall
  updates : (id : Text) (now : ℕ) → TaskUpdate → TaskCall
  adds : (task parent : Text) → TaskCall
  deletes : (id : Text) → TaskCall

abbrev pub step : TaskStore → TaskCall → TaskStore
step s (creates id now t) = (create_task s id now t).0
step s (updates id now u) = update_task s id u now
step s (adds task parent) = (add_dependency s task parent).0
step s (deletes id) = (delete_task s id).0

unfoldable pub run : TaskStore → List TaskCall → TaskStore
unfolding create_task update_task add_dependency delete_task
run s [] = s
run s (c ∷ cs) = run (step s c) cs

step-IsSound : (s : TaskStore) (c : TaskCall) → IsSound s → IsSound (step s c)
step-IsSound s (creates id now t) v = create_task-IsSound s id now t v
step-IsSound s (updates id now u) v = update_task-IsSound s id u now v
step-IsSound s (adds task parent) v = add_dependency-IsSound s task parent v
step-IsSound s (deletes id) v = delete_task-IsSound s id v

run_from-IsSound : (cs : List TaskCall) (s : TaskStore) → IsSound s → IsSound (run s cs)
unfolding run
run_from-IsSound [] s v = v
run_from-IsSound (c ∷ cs) s v = run_from-IsSound cs (step s c) (step-IsSound s c v)

-- Whatever is called on a new store, in any order: no task depends on itself through any chain of
-- dependencies, and both tasks of every dependency are there.
pub run-IsSound : (cs : List TaskCall) → IsSound (run new_store cs)
unfolding new_store
run-IsSound cs =
    run_from-IsSound cs new_store
      (record { acyclic = λ t p m d. elim m [ ]; there = λ t p m. elim m [ ] })
