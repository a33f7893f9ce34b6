-- ===== src/Agent/Lifecycle.antt =====
-- src/agent/lifecycle.ts: the lifecycle of the agent. The asynchronous parts of start and stop are jobs
-- of the state, and what ends or resumes one is an event, so that every interleaving of the calls is
-- a list of events. An event that has no job to act on does nothing. Of a callback it matters
-- whether it is there, and how its promise ends.
pub mod Exclusion
pub mod Doubled
pub mod Tests
use anonka.Prelude.{
  ℕ, zero, suc, ◌+◌, ◌-◌, ◌/◌, Bool, true, false, not, ◌||◌, List, [], ◌∷◌, ◌++◌, Option, none,
  some, Text, if◌then◌else◌,
}

pub data AgentState : Type 0 where
  stopped starting running stopping : AgentState

pub record StateChangeEvent : Type 0 where
  pub state : AgentState
  pub error : Option Text
  pub timestamp : ℕ

-- The body of the start promise: none, in the start function, or in the stop function that cleans up
-- after a failed start. `startPromise` is null exactly if there is none.
pub data StartJob : Type 0 where
  idle in_start_fn : StartJob
  in_cleanup : (message : Text) → StartJob

pub record AgentLifecycle : Type 0 where
  pub state : AgentState
  pub error : Option Text
  pub running_since : Option ℕ
  pub registered_start_fn : Bool
  pub registered_stop_fn : Bool
  pub start_job : StartJob
  -- The calls of `stop` that await the start promise, and those whose await has ended well.
  pub waiting : ℕ
  pub resumable : ℕ
  -- The stop functions that are running, and whether `stopPromise` is set.
  pub stop_jobs : ℕ
  pub stop_promise : Bool
  pub emitted : List StateChangeEvent

unfoldable pub new_lifecycle : AgentLifecycle
new_lifecycle = record {
  state = stopped;
  error = none;
  running_since = none;
  registered_start_fn = false;
  registered_stop_fn = false;
  start_job = idle;
  waiting = 0;
  resumable = 0;
  stop_jobs = 0;
  stop_promise = false;
  emitted = [];
}

abbrev pub transition : AgentLifecycle → AgentState → Option Text → ℕ → AgentLifecycle
transition l new_state error now = record l {
  state = new_state;
  emitted = l.emitted ++ record { state = new_state; error = error; timestamp = now } ∷ [];
}

abbrev uptime_since : AgentState → Option ℕ → ℕ → Option ℕ
uptime_since running (some since) now = some ((now - since) / 1_000)
uptime_since _ _ now = none

unfoldable pub get_uptime : AgentLifecycle → ℕ → Option ℕ
get_uptime l now = uptime_since l.state l.running_since now

unfoldable pub register_callbacks : AgentLifecycle → AgentLifecycle
register_callbacks l = record l { registered_start_fn = true; registered_stop_fn = true }

-- How a call goes on: it returns, it returns the promise of another call, it runs its own function,
-- it awaits the start, or it throws.
pub data CallResult : Type 0 where
  returns shares_promise runs awaits_start : CallResult
  throws_no_function throws_stopping : CallResult

abbrev pub start_in : AgentLifecycle → AgentState → ℕ → AgentLifecycle × CallResult
start_in l running now = (l, returns)
start_in l starting now = (l, shares_promise)
start_in l stopping now = (l, throws_stopping)
start_in l stopped now = (record (transition l starting none now) { start_job = in_start_fn }, runs)

-- `start`; the Boolean says whether a function is given.
unfoldable pub start : AgentLifecycle → Bool → ℕ → AgentLifecycle × CallResult
start l given now =
    if given || l.registered_start_fn then start_in l l.state now else (l, throws_no_function)

-- The end of `stop`, after its guards: the stop function begins to run.
abbrev pub begin_stop : AgentLifecycle → ℕ → AgentLifecycle
begin_stop l now = record (transition l stopping none now) {
  stop_jobs = suc l.stop_jobs;
  stop_promise = true;
}

-- `stop` in the state `starting`: it awaits the start promise, if that is set.
abbrev pub stop_starting : AgentLifecycle → StartJob → ℕ → AgentLifecycle × CallResult
stop_starting l idle now = (begin_stop l now, runs)
stop_starting l _ now = (record l { waiting = suc l.waiting }, awaits_start)

abbrev pub stop_in : AgentLifecycle → AgentState → ℕ → AgentLifecycle × CallResult
stop_in l stopped now = (l, returns)
stop_in l stopping now = (l, if l.stop_promise then shares_promise else returns)
stop_in l starting now = stop_starting l l.start_job now
stop_in l running now = (begin_stop l now, runs)

unfoldable pub stop : AgentLifecycle → Bool → ℕ → AgentLifecycle × CallResult
stop l given now =
    if given || l.registered_stop_fn then stop_in l l.state now else (l, throws_no_function)

-- The start promise resolves: the waiting calls of `stop` can be resumed.
abbrev pub start_succeeded : AgentLifecycle → ℕ → AgentLifecycle
start_succeeded l now = record (transition l running none now) {
  error = none;
  running_since = some now;
  start_job = idle;
  waiting = 0;
  resumable = l.resumable + l.waiting;
}

-- The start promise rejects: the waiting calls of `stop` return.
abbrev pub start_failed : AgentLifecycle → Text → ℕ → AgentLifecycle
start_failed l message now = record (transition l stopped (some message) now) {
  error = some message;
  running_since = none;
  start_job = idle;
  waiting = 0;
}

-- The start function's promise ends, with the message of its error or well.
abbrev pub end_start_fn : AgentLifecycle → StartJob → Option Text → ℕ → AgentLifecycle
end_start_fn l in_start_fn none now = start_succeeded l now
end_start_fn l in_start_fn (some message) now =
    if l.registered_stop_fn
    then record l { start_job = in_cleanup message }
    else start_failed l message now
end_start_fn l _ error now = l

abbrev pub end_cleanup : AgentLifecycle → StartJob → ℕ → AgentLifecycle
end_cleanup l (in_cleanup message) now = start_failed l message now
end_cleanup l _ now = l

-- A call of `stop` goes on after the await.
abbrev pub resume_stop : AgentLifecycle → ℕ → ℕ → AgentLifecycle
resume_stop l zero now = l
resume_stop l (suc n) now = begin_stop (record l { resumable = n }) now

-- The `finally` block of the stop promise.
abbrev pub end_stop_fn : AgentLifecycle → ℕ → ℕ → AgentLifecycle
end_stop_fn l zero now = l
end_stop_fn l (suc n) now = record (transition l stopped none now) {
  running_since = none;
  stop_jobs = n;
  stop_promise = false;
}

pub data LifecycleEvent : Type 0 where
  registers : LifecycleEvent
  starts stops : (given : Bool) → LifecycleEvent
  start_fn_ends : (error : Option Text) → LifecycleEvent
  cleanup_ends stop_resumes stop_fn_ends : LifecycleEvent

unfoldable pub step : AgentLifecycle → ℕ × LifecycleEvent → AgentLifecycle
unfolding start stop register_callbacks
step l (now, registers) = register_callbacks l
step l (now, starts given) = (start l given now).0
step l (now, stops given) = (stop l given now).0
step l (now, start_fn_ends error) = end_start_fn l l.start_job error now
step l (now, cleanup_ends) = end_cleanup l l.start_job now
step l (now, stop_resumes) = resume_stop l l.resumable now
step l (now, stop_fn_ends) = end_stop_fn l l.stop_jobs now

unfoldable pub run : AgentLifecycle → List (ℕ × LifecycleEvent) → AgentLifecycle
unfolding step
run l [] = l
run l (e ∷ es) = run (step l e) es
