-- ===== src/Agent/Lifecycle/Doubled.antt =====
-- What the calls of `stop` do that wait for the start.
use anonka.Prelude.{ℕ, zero, suc, ◌+◌, ◌≡◌, refl, ap, ◌∙◌, true, List, [], ◌∷◌, ◌++◌, none, arith}
use anonka.Agent.Lifecycle.{
  AgentLifecycle, starting, in_start_fn, stop, start_succeeded, resume_stop, LifecycleEvent, stops,
  start_fn_ends, stop_resumes, step, run,
}

abbrev pub repeat : ℕ → LifecycleEvent → List (ℕ × LifecycleEvent)
repeat zero e = []
repeat (suc n) e = (0, e) ∷ repeat n e

run-append :
    (es fs : List (ℕ × LifecycleEvent)) (l : AgentLifecycle) → run l (es ++ fs) ≡ run (run l es) fs
unfolding run
run-append [] fs l = refl
run-append (e ∷ es) fs l = run-append es fs (step l e)

-- The lifecycle while its start function runs, with so many calls of `stop` waiting.
abbrev pub starting_with : AgentLifecycle → ℕ → AgentLifecycle
starting_with l n = record l { state = starting; start_job = in_start_fn; waiting = n }

stops-waiting :
    (n m : ℕ) (l : AgentLifecycle)
    → run (starting_with l m) (repeat n (stops true)) ≡ starting_with l (n + m)
unfolding run step stop
stops-waiting zero m l = ap (starting_with l) (omega arith)
stops-waiting (suc n) m l = stops-waiting n (suc m) l ∙ ap (starting_with l) (omega arith)

resumes-jobs :
    (n : ℕ) (l : AgentLifecycle)
    → l.resumable ≡ n
    → (run l (repeat n stop_resumes)).stop_jobs ≡ n + l.stop_jobs
unfolding run step
resumes-jobs zero l e = omega arith
resumes-jobs (suc n) l e =
    resumes-jobs n (resume_stop l l.resumable 0) (one l.resumable e)
    ∙ omega (arith, one_job l.resumable e)
  where
    one : (k : ℕ) → k ≡ suc n → (resume_stop l k 0).resumable ≡ n
    one zero e = absurd (omega (arith, e))
    one (suc k) e = omega (arith, e)

    one_job : (k : ℕ) → k ≡ suc n → (resume_stop l k 0).stop_jobs ≡ suc l.stop_jobs
    one_job zero e = absurd (omega (arith, e))
    one_job (suc k) e = refl

-- The calls of `stop`, the end of the start function, and the calls' resumptions.
abbrev pub impatient : ℕ → List (ℕ × LifecycleEvent)
impatient n = repeat n (stops true) ++ (0, start_fn_ends none) ∷ repeat n stop_resumes

-- Each of the calls of `stop` that are made while the agent is starting runs its stop function: after
-- the start has succeeded and they have gone on, as many stop functions run at once as there were
-- calls, since none of them looks at the state again.
pub stop_jobs-impatient :
    (n : ℕ) (l : AgentLifecycle)
    → l.resumable ≡ 0
    → l.stop_jobs ≡ 0
    → (run (starting_with l 0) (impatient n)).stop_jobs ≡ n
unfolding run step
stop_jobs-impatient n l e free =
    let waiting : run (starting_with l 0) (repeat n (stops true)) ≡ starting_with l n =
      stops-waiting n 0 l ∙ ap (starting_with l) (omega arith) in
    let started = start_succeeded (starting_with l n) 0 in
    ap (λ (k : AgentLifecycle). k.stop_jobs)
      (run-append (repeat n (stops true)) ((0, start_fn_ends none) ∷ repeat n stop_resumes)
          (starting_with l 0)
        ∙ ap (λ k. run k ((0, start_fn_ends none) ∷ repeat n stop_resumes)) waiting)
    ∙ resumes-jobs n started (omega (arith, e))
    ∙ omega (arith, free)
