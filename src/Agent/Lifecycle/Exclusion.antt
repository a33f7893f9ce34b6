-- ===== src/Agent/Lifecycle/Exclusion.antt =====
-- Starting and stopping exclude each other as long as nobody stops a starting agent.
use anonka.Prelude.{
  ℕ, zero, suc, ◌≡◌, ◌≢◌, ◌⊎◌, refl, Bool, true, false, ◌||◌, List, [], ◌∷◌, Option, none, some,
  Text, Bool-cases, inl, inr, arith,
}
use anonka.Agent.Lifecycle.{
  AgentState, stopped, starting, running, stopping, StartJob, idle, in_start_fn, in_cleanup,
  AgentLifecycle, new_lifecycle, start_in, start, stop_in, stop, end_start_fn, end_cleanup,
  resume_stop, end_stop_fn, LifecycleEvent, registers, starts, stops, start_fn_ends, cleanup_ends,
  stop_resumes, stop_fn_ends, step, run,
}

-- Which jobs there are in each state: the start promise's while starting, one stop function while
-- stopping, and else none; and the agent has a time it runs since while it runs.
pub data Fits : AgentState → StartJob → ℕ → Option ℕ → Type 0 where
  when_stopped : (since : Option ℕ) → Fits stopped idle 0 since
  when_starting : (since : Option ℕ) → Fits starting in_start_fn 0 since
  when_cleaning : (since : Option ℕ) (message : Text) → Fits starting (in_cleanup message) 0 since
  when_running : (since : ℕ) → Fits running idle 0 (some since)
  when_stopping : (since : Option ℕ) → Fits stopping idle 1 since

pub record IsExclusive (l : AgentLifecycle) : Type 0 where
  pub fits : Fits l.state l.start_job l.stop_jobs l.running_since
  pub none_waiting : l.waiting ≡ 0
  pub none_resumable : l.resumable ≡ 0

abbrev pub is_stop : LifecycleEvent → Bool
is_stop (stops _) = true
is_stop _ = false

-- Nobody calls `stop` while the agent is starting.
abbrev pub Patient : AgentLifecycle → List (ℕ × LifecycleEvent) → Type 0
Patient l [] = Unit
Patient l (e ∷ es) = ((is_stop e.1 ≡ false) ⊎ (l.state ≢ starting)) × Patient (step l e) es

Fits-jobs :
    {s : AgentState} {j : StartJob} {m n : ℕ} {since : Option ℕ}
    → m ≡ n
    → Fits s j n since
    → Fits s j m since
Fits-jobs e f = rw e f

stopped_jobs :
    {s : AgentState} {j : StartJob} {n : ℕ} {since : Option ℕ}
    → Fits s j n since
    → s ≡ stopped
    → n ≡ 0
stopped_jobs (when_stopped since) e = refl
stopped_jobs (when_starting since) e = refl
stopped_jobs (when_cleaning since message) e = refl
stopped_jobs (when_running since) e = refl
stopped_jobs (when_stopping since) e = cc

running_jobs :
    {s : AgentState} {j : StartJob} {n : ℕ} {since : Option ℕ}
    → Fits s j n since
    → s ≡ running
    → (n ≡ 0) × (j ≡ idle)
running_jobs (when_stopped since) e = cc
running_jobs (when_starting since) e = cc
running_jobs (when_cleaning since message) e = cc
running_jobs (when_running since) e = (refl, refl)
running_jobs (when_stopping since) e = cc

busy_jobs :
    {s : AgentState} {j : StartJob} {n : ℕ} {since : Option ℕ} → Fits s j n since → j ≢ idle → n ≡ 0
busy_jobs (when_stopped since) e = refl
busy_jobs (when_starting since) e = refl
busy_jobs (when_cleaning since message) e = refl
busy_jobs (when_running since) e = refl
busy_jobs (when_stopping since) e = absurd (e refl)

to_cleanup :
    {s : AgentState} {j : StartJob} {n : ℕ} {since : Option ℕ} (message : Text)
    → Fits s j n since
    → j ≡ in_start_fn
    → Fits s (in_cleanup message) n since
to_cleanup message (when_stopped since) e = cc
to_cleanup message (when_starting since) e = when_cleaning since message
to_cleanup message (when_cleaning since m) e = cc
to_cleanup message (when_running since) e = cc
to_cleanup message (when_stopping since) e = cc

to_stopped :
    {s : AgentState} {j : StartJob} {m n : ℕ} {since : Option ℕ}
    → Fits s j m since
    → m ≡ suc n
    → Fits stopped j n none
to_stopped (when_stopped since) e = absurd (omega (arith, e))
to_stopped (when_starting since) e = absurd (omega (arith, e))
to_stopped (when_cleaning since m) e = absurd (omega (arith, e))
to_stopped (when_running since) e = absurd (omega (arith, e))
to_stopped {n = n} (when_stopping since) e = Fits-jobs (omega (arith, e)) (when_stopped none)

start_in-IsExclusive :
    (l : AgentLifecycle) (s : AgentState) (now : ℕ)
    → l.state ≡ s
    → IsExclusive l
    → IsExclusive (start_in l s now).0
start_in-IsExclusive l running now e x = x
start_in-IsExclusive l starting now e x = x
start_in-IsExclusive l stopping now e x = x
start_in-IsExclusive l stopped now e x = record {
  fits = Fits-jobs (stopped_jobs x.fits e) (when_starting l.running_since);
  none_waiting = x.none_waiting;
  none_resumable = x.none_resumable;
}

stop_in-IsExclusive :
    (l : AgentLifecycle) (s : AgentState) (now : ℕ)
    → l.state ≡ s
    → s ≢ starting
    → IsExclusive l
    → IsExclusive (stop_in l s now).0
stop_in-IsExclusive l stopped now e n x = x
stop_in-IsExclusive l stopping now e n x = x
stop_in-IsExclusive l starting now e n x = absurd (n refl)
stop_in-IsExclusive l running now e n x =
    let (jobs, job) = running_jobs x.fits e in
    record {
      fits = Fits_of job jobs;
      none_waiting = x.none_waiting;
      none_resumable = x.none_resumable;
    }
  where
    Fits_of :
        {j : StartJob} {m : ℕ} {since : Option ℕ} → j ≡ idle → m ≡ 0 → Fits stopping j (suc m) since
    Fits_of {since = since} e f = rw (e, f) (when_stopping since)

end_start_fn-IsExclusive :
    (l : AgentLifecycle) (j : StartJob) (error : Option Text) (now : ℕ)
    → l.start_job ≡ j
    → IsExclusive l
    → IsExclusive (end_start_fn l j error now)
end_start_fn-IsExclusive l idle error now e x = x
end_start_fn-IsExclusive l (in_cleanup message) error now e x = x
end_start_fn-IsExclusive l in_start_fn none now e x = record {
  fits = Fits-jobs (busy_jobs x.fits (λ f. cc)) (when_running now);
  none_waiting = refl;
  none_resumable = omega (arith, x.none_waiting, x.none_resumable);
}
end_start_fn-IsExclusive l in_start_fn (some message) now e x =
    elim (Bool-cases l.registered_stop_fn) [
      | inl given ↦
          rw (given, end_start_fn)
            (record {
              fits = to_cleanup message x.fits e;
              none_waiting = x.none_waiting;
              none_resumable = x.none_resumable;
            })
      | inr missing ↦
          rw (missing, end_start_fn)
            (record {
              fits = Fits-jobs (busy_jobs x.fits (λ f. cc)) (when_stopped none);
              none_waiting = refl;
              none_resumable = x.none_resumable;
            })
    ]

end_cleanup-IsExclusive :
    (l : AgentLifecycle) (j : StartJob) (now : ℕ)
    → l.start_job ≡ j
    → IsExclusive l
    → IsExclusive (end_cleanup l j now)
end_cleanup-IsExclusive l idle now e x = x
end_cleanup-IsExclusive l in_start_fn now e x = x
end_cleanup-IsExclusive l (in_cleanup message) now e x = record {
  fits = Fits-jobs (busy_jobs x.fits (λ f. cc)) (when_stopped none);
  none_waiting = refl;
  none_resumable = x.none_resumable;
}

end_stop_fn-IsExclusive :
    (l : AgentLifecycle) (n now : ℕ)
    → l.stop_jobs ≡ n
    → IsExclusive l
    → IsExclusive (end_stop_fn l n now)
end_stop_fn-IsExclusive l zero now e x = x
end_stop_fn-IsExclusive l (suc n) now e x = record {
  fits = to_stopped x.fits e;
  none_waiting = x.none_waiting;
  none_resumable = x.none_resumable;
}

resume_stop-IsExclusive :
    (l : AgentLifecycle) (n now : ℕ)
    → l.resumable ≡ n
    → IsExclusive l
    → IsExclusive (resume_stop l n now)
resume_stop-IsExclusive l zero now e x = x
resume_stop-IsExclusive l (suc n) now e x = absurd (omega (arith, e, x.none_resumable))

start-IsExclusive :
    (l : AgentLifecycle) (given : Bool) (now : ℕ)
    → IsExclusive l
    → IsExclusive (start l given now).0
unfolding start
start-IsExclusive l given now x = elim (Bool-cases (given || l.registered_start_fn)) [
  | inl there ↦ rw (there, start) (start_in-IsExclusive l l.state now refl x)
  | inr missing ↦ rw (missing, start) x
]

stop-IsExclusive :
    (l : AgentLifecycle) (given : Bool) (now : ℕ)
    → l.state ≢ starting
    → IsExclusive l
    → IsExclusive (stop l given now).0
unfolding stop
stop-IsExclusive l given now n x = elim (Bool-cases (given || l.registered_stop_fn)) [
  | inl there ↦ rw (there, stop) (stop_in-IsExclusive l l.state now refl n x)
  | inr missing ↦ rw (missing, stop) x
]

step-IsExclusive :
    (l : AgentLifecycle) (e : ℕ × LifecycleEvent)
    → (is_stop e.1 ≡ false) ⊎ (l.state ≢ starting)
    → IsExclusive l
    → IsExclusive (step l e)
unfolding step
step-IsExclusive l (now, registers) p x = record {
  fits = x.fits;
  none_waiting = x.none_waiting;
  none_resumable = x.none_resumable;
}
step-IsExclusive l (now, starts given) p x = start-IsExclusive l given now x
step-IsExclusive l (now, stops given) (inl calm) x = cc
step-IsExclusive l (now, stops given) (inr n) x = stop-IsExclusive l given now n x
step-IsExclusive l (now, start_fn_ends error) p x =
    end_start_fn-IsExclusive l l.start_job error now refl x
step-IsExclusive l (now, cleanup_ends) p x = end_cleanup-IsExclusive l l.start_job now refl x
step-IsExclusive l (now, stop_resumes) p x = resume_stop-IsExclusive l l.resumable now refl x
step-IsExclusive l (now, stop_fn_ends) p x = end_stop_fn-IsExclusive l l.stop_jobs now refl x

run_from-IsExclusive :
    (es : List (ℕ × LifecycleEvent)) (l : AgentLifecycle)
    → Patient l es
    → IsExclusive l
    → IsExclusive (run l es)
unfolding run
run_from-IsExclusive [] l p x = x
run_from-IsExclusive (e ∷ es) l (this, p) x =
    run_from-IsExclusive es (step l e) p (step-IsExclusive l e this x)

-- Over any run of a new lifecycle in which nobody calls `stop` while the agent is starting, the state
-- tells what is going on: the start promise is at work exactly in `starting`, exactly one stop
-- function runs in `stopping` and none elsewhere, and a running agent has a time it runs since.
pub run-IsExclusive :
    (es : List (ℕ × LifecycleEvent)) → Patient new_lifecycle es → IsExclusive (run new_lifecycle es)
unfolding new_lifecycle
run-IsExclusive es p =
    run_from-IsExclusive es new_lifecycle p
      (record { fits = when_stopped none; none_waiting = refl; none_resumable = refl })
