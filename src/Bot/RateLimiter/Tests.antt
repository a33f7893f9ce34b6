-- ===== src/Bot/RateLimiter/Tests.antt =====
-- Two actions a minute for one plugin.
use anonka.Prelude.{ℕ, ◌≡◌, ◌≤◌, refl, inr, List, [], ◌∷◌, text, text_eq, arith}
use anonka.Prelude.Dicts.{lookup, insert}
use anonka.Bot.RateLimiter.{new_limiter, check, plugin_key}
use anonka.Bot.RateLimiter.Window.{CheckCall, recent, run, recent-run}

checks : Unit {0}
unfolding run check new_limiter recent lookup insert text_eq
checks = tt

abbrev inline_at : ℕ → CheckCall
inline_at now = record {
  now = now;
  key = plugin_key (text "quiz") (text "inline");
  limit = 2;
  window_ms = 60_000;
}

abbrev busy_calls : List CheckCall
busy_calls = inline_at 0 ∷ inline_at 1_000 ∷ inline_at 2_000 ∷ inline_at 60_000 ∷ []

-- The third action is refused, and the fourth comes when the first has left the window.
allowed_times :
    (run (plugin_key (text "quiz") (text "inline")) (new_limiter, []) busy_calls).1
    ≡ 0 ∷ 1_000 ∷ 60_000 ∷ []
unfolding checks
allowed_times = refl

recent-run_example :
    recent 60_000 60_000
      (run (plugin_key (text "quiz") (text "inline")) (new_limiter, []) busy_calls).1
    ≤ 2
recent-run_example =
    recent-run (plugin_key (text "quiz") (text "inline")) 2 60_000 60_000 busy_calls
      (
        omega arith,
        inr (refl, refl),
        (
          omega arith,
          inr (refl, refl),
          (omega arith, inr (refl, refl), (omega arith, inr (refl, refl), tt)),
        ),
      )
      (omega arith)
