-- ===== src/Agent/Lifecycle/Tests.antt =====
-- A lifecycle that is started and stopped, and one whose start nobody awaits.
use anonka.Prelude.{ℕ, ◌≡◌, refl, inl, inr, true, List, [], ◌∷◌, none, some, text}
use anonka.Agent.Lifecycle.{
  new_lifecycle, stopped, LifecycleEvent, registers, starts, stops, start_fn_ends, cleanup_ends,
  stop_fn_ends, step, run, get_uptime,
}
use anonka.Agent.Lifecycle.Exclusion.{IsExclusive, run-IsExclusive}
use anonka.Agent.Lifecycle.Doubled.{starting_with, impatient, stop_jobs-impatient}

lifecycle : Unit {0}
unfolding run step new_lifecycle get_uptime
lifecycle = tt

abbrev life : List (ℕ × LifecycleEvent)
life =
    (0, registers)
    ∷ (1, starts true)
    ∷ (5, start_fn_ends none)
    ∷ (9_000, stops true)
    ∷ (9_005, stop_fn_ends)
    ∷ []

lived : (run new_lifecycle life).state ≡ stopped
unfolding lifecycle
lived = refl

up : get_uptime (run new_lifecycle ((1, starts true) ∷ (5, start_fn_ends none) ∷ [])) 3_004 ≡ some 2
unfolding lifecycle
up = refl

-- A failed start is cleaned up by the registered stop function, and leaves its message.
failed_start :
    (run new_lifecycle (
      (0, registers)
      ∷ (1, starts true)
      ∷ (5, start_fn_ends (some (text "no session")))
      ∷ (6, cleanup_ends)
      ∷ [])).error
    ≡ some (text "no session")
unfolding lifecycle
failed_start = refl

run-IsExclusive_example : IsExclusive (run new_lifecycle life)
unfolding lifecycle
run-IsExclusive_example =
    run-IsExclusive life (inl refl, (inl refl, (inl refl, (inr (λ e. cc), (inl refl, tt)))))

stop_jobs-impatient_example : (run (starting_with new_lifecycle 0) (impatient 2)).stop_jobs ≡ 2
unfolding lifecycle
stop_jobs-impatient_example = stop_jobs-impatient 2 new_lifecycle refl refl
