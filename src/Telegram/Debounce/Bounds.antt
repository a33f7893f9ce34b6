-- ===== src/Telegram/Debounce/Bounds.antt =====
-- Bounds of the buffers and of the wait.
use anonka.Prelude.{ℕ, ◌+◌, ◌≤◌, ◌≡◌, ◌⊎◌, refl, some, arith}
use anonka.Telegram.Debounce.{Buffer, Config, first_time, delay, reset_timer}

-- A timer is due at most `debounceMs` from now, and not after the first message has waited
-- `maxDebounceMs`, unless it has waited that long already; then it is due now. It is never due in
-- the past.
pub reset_timer_due :
    (c : Config) (now : ℕ) (b : Buffer)
    → (due : ℕ) × ((reset_timer c now b).timer ≡ some due)
      × (now ≤ due)
      × (due ≤ now + c.debounce_ms)
      × ((due ≤ first_time b.messages now + c.max_debounce_ms) ⊎ (due ≡ now))
unfolding reset_timer
reset_timer_due c now b = (
  now + delay c (first_time b.messages now) now,
  refl,
  ground arith,
  ground arith,
  due_or_now (first_time b.messages now),
)
  where
    due_or_now :
        (first : ℕ)
        → (now + delay c first now ≤ first + c.max_debounce_ms) ⊎ (now + delay c first now ≡ now)
    due_or_now first = ground arith
