-- ===== src/Bot/RateLimiter/Window.antt =====
-- The limit holds in every window of time.
use anonka.Prelude.{
  ℕ, ◌+◌, ◌≤◌, ◌≡◌, ◌⊎◌, refl, ap, ◌∙◌, true, false, ◌&&◌, List, [], ◌∷◌, ◌++◌, Option, none, some,
  Text, text_eq, text_eq_iff, if◌then◌else◌, leb, length, arith, Bool-cases, inl, inr,
  length-append, length-drop,
}
use anonka.Prelude.Dicts.{Dict, lookup, insert, lookup-insert}
use anonka.Bot.RateLimiter.{
  PluginRateLimiter, new_limiter, is_recent, first_valid, next, splice, remove_expired,
  timestamps_of, check,
}

-- How many of these times lie in the window that ends now.
unfoldable pub recent : ℕ → ℕ → List ℕ → ℕ
recent now window_ms [] = 0
recent now window_ms (t ∷ ts) =
    (if is_recent now window_ms t then 1 else 0) + recent now window_ms ts

recent-append :
    (now w : ℕ) (ts us : List ℕ) → recent now w (ts ++ us) ≡ recent now w ts + recent now w us
unfolding recent
recent-append now w [] us = omega arith
recent-append now w (t ∷ ts) us = omega (arith, recent-append now w ts us)

recent_le_length : (now w : ℕ) (ts : List ℕ) → recent now w ts ≤ length ts
unfolding recent
recent_le_length now w [] = omega arith
recent_le_length now w (t ∷ ts) = ground (arith, recent_le_length now w ts)

-- What a call drops at one time is in no later window either.
recent-remove_expired :
    (now later w : ℕ) (ts : List ℕ)
    → now ≤ later
    → recent later w (remove_expired now w ts) ≡ recent later w ts
unfolding remove_expired first_valid recent
recent-remove_expired now later w [] le = refl
recent-remove_expired now later w (t ∷ ts) le = elim (Bool-cases (is_recent now w t)) [
  | inl valid ↦ rw valid refl
  | inr expired ↦
      let gone : is_recent later w t ≡ false = ground arith in
      rw expired (step (first_valid now w ts) (recent-remove_expired now later w ts le) gone)
]
  where
    step :
        (o : Option ℕ)
        → recent later w (splice o ts) ≡ recent later w ts
        → is_recent later w t ≡ false
        → recent later w (splice (next o) (t ∷ ts))
          ≡ (if is_recent later w t then 1 else 0) + recent later w ts
    step none h gone = rw gone (omega (arith, h))
    step (some n) h gone = rw gone (omega (arith, h))

-- The calls of `check`: the time, the key, the limit and the window.
pub record CheckCall : Type 0 where
  pub now : ℕ
  pub key : Text
  pub limit : ℕ
  pub window_ms : ℕ

-- The times at which actions of this key were allowed join the log.
abbrev pub step : Text → PluginRateLimiter × List ℕ → CheckCall → PluginRateLimiter × List ℕ
step key (l, log) c =
    let (l', allowed) = check l c.key c.limit c.window_ms c.now in
    (l', if allowed && text_eq c.key key then log ++ c.now ∷ [] else log)

unfoldable pub run : Text → PluginRateLimiter × List ℕ → List CheckCall → PluginRateLimiter × List ℕ
unfolding check
run key s [] = s
run key s (c ∷ cs) = run key (step key s c) cs

-- The calls come in the order of time from `last` on, and those of this key share the limit and the
-- window.
abbrev pub Timely : Text → ℕ → ℕ → ℕ → List CheckCall → Type 0
Timely key limit w last [] = Unit
Timely key limit w last (c ∷ cs) =
    (last ≤ c.now)
    × ((text_eq c.key key ≡ false) ⊎ ((c.limit ≡ limit) × (c.window_ms ≡ w)))
    × Timely key limit w c.now cs

abbrev pub last_time : ℕ → List CheckCall → ℕ
last_time last [] = last
last_time last (c ∷ cs) = last_time c.now cs

-- The stored times are within the limit, and they count for all of the log from `last` on.
pub record Bounded (key : Text) (limit w last : ℕ) (s : PluginRateLimiter × List ℕ) : Type 0 where
  pub short : length (timestamps_of (lookup key s.0.windows)) ≤ limit
  pub counted :
      (later : ℕ)
      → last ≤ later
      → recent later w s.1 ≤ recent later w (timestamps_of (lookup key s.0.windows))

module _ (k key : Text) (ts : List ℕ) (m : Dict (List ℕ)) where
  inserted_other :
      text_eq k key ≡ false
      → timestamps_of (lookup key (insert k ts m)) ≡ timestamps_of (lookup key m)
  inserted_other other = ap timestamps_of (lookup-insert k key ts m) ∙ rw other refl

  inserted_same : text_eq k key ≡ true → timestamps_of (lookup key (insert k ts m)) ≡ ts
  inserted_same same = ap timestamps_of (lookup-insert k key ts m) ∙ rw same refl

length-remove_expired : (now w : ℕ) (ts : List ℕ) → length (remove_expired now w ts) ≤ length ts
unfolding remove_expired
length-remove_expired now w ts = spliced (first_valid now w ts)
  where
    spliced : (o : Option ℕ) → length (splice o ts) ≤ length ts
    spliced none = omega arith
    spliced (some n) = omega (arith, length-drop n ts)

Bounded-of_stored :
    (key : Text) (limit w last : ℕ) (s : PluginRateLimiter × List ℕ) (stored : List ℕ)
    → timestamps_of (lookup key s.0.windows) ≡ stored
    → length stored ≤ limit
    → ((later : ℕ) → last ≤ later → recent later w s.1 ≤ recent later w stored)
    → Bounded key limit w last s
Bounded-of_stored key limit w last s stored e short counted = record {
  short = rw e short;
  counted = λ later le. rw e (counted later le);
}

module _ (key : Text) (l : PluginRateLimiter) (log : List ℕ) (c : CheckCall) (last : ℕ) where
  abbrev kept : List ℕ
  kept = remove_expired c.now c.window_ms (timestamps_of (lookup c.key l.windows))

  other-Bounded :
      (limit w : ℕ)
      → Bounded key limit w last (l, log)
      → last ≤ c.now
      → text_eq c.key key ≡ false
      → Bounded key limit w c.now (step key (l, log) c)
  unfolding check
  other-Bounded limit w b le other = elim (Bool-cases (leb c.limit (length kept))) [
    | inl full ↦ rw full (
        Bounded-of_stored key limit w c.now _ _ (inserted_other c.key key kept l.windows other)
          b.short (λ later h. b.counted later (omega (arith, le, h))))
    | inr free ↦
        rw (free, other)
          (Bounded-of_stored key limit w c.now _ _
            (inserted_other c.key key (kept ++ c.now ∷ []) l.windows other) b.short
            (λ later h. b.counted later (omega (arith, le, h))))
  ]

  module _ (b : Bounded key c.limit c.window_ms last (l, log)) (le : last ≤ c.now)
      (same : text_eq c.key key ≡ true) where
    stored_eq : timestamps_of (lookup c.key l.windows) ≡ timestamps_of (lookup key l.windows)
    stored_eq = ap (λ k. timestamps_of (lookup k l.windows)) ((text_eq_iff c.key key).0 same)

    kept_short : length kept ≤ c.limit
    kept_short = omega (
      arith,
      length-remove_expired c.now c.window_ms (timestamps_of (lookup c.key l.windows)),
      ap length stored_eq,
      b.short,
    )

    kept_counted :
        (later : ℕ) → c.now ≤ later → recent later c.window_ms log ≤ recent later c.window_ms kept
    kept_counted later h = omega (
      arith,
      recent-remove_expired c.now later c.window_ms (timestamps_of (lookup c.key l.windows)) h,
      ap (recent later c.window_ms) stored_eq,
      b.counted later (omega (arith, le, h)),
    )

    same-Bounded : Bounded key c.limit c.window_ms c.now (step key (l, log) c)
    unfolding check
    same-Bounded = elim (Bool-cases (leb c.limit (length kept))) [
      | inl full ↦ rw full (
          Bounded-of_stored key c.limit c.window_ms c.now _ _
            (inserted_same c.key key kept l.windows same) kept_short kept_counted)
      | inr free ↦
          rw (free, same)
            (Bounded-of_stored key c.limit c.window_ms c.now _ _
              (inserted_same c.key key (kept ++ c.now ∷ []) l.windows same)
              (ground (arith, length-append kept (c.now ∷ [])))
              (λ later h. omega (
                arith,
                recent-append later c.window_ms log (c.now ∷ []),
                recent-append later c.window_ms kept (c.now ∷ []),
                kept_counted later h,
              )))
    ]

step-Bounded :
    (key : Text) (limit w last : ℕ) (s : PluginRateLimiter × List ℕ) (c : CheckCall)
    → Bounded key limit w last s
    → last ≤ c.now
    → (text_eq c.key key ≡ false) ⊎ ((c.limit ≡ limit) × (c.window_ms ≡ w))
    → Bounded key limit w c.now (step key s c)
step-Bounded key limit w last (l, log) c b le (inl other) =
    other-Bounded key l log c last limit w b le other
step-Bounded key limit w last (l, log) c b le (inr (is_limit, is_w)) =
    elim (Bool-cases (text_eq c.key key)) [
      | inl same ↦
          rw (← is_limit, ← is_w) (same-Bounded key l log c last (rw (is_limit, is_w) b) le same)
      | inr other ↦ other-Bounded key l log c last limit w b le other
    ]

run-Bounded :
    (key : Text) (limit w last : ℕ) (cs : List CheckCall) (s : PluginRateLimiter × List ℕ)
    → Bounded key limit w last s
    → Timely key limit w last cs
    → Bounded key limit w (last_time last cs) (run key s cs)
unfolding run
run-Bounded key limit w last [] s b t = b
run-Bounded key limit w last (c ∷ cs) s b (le, agrees, t) =
    run-Bounded key limit w c.now cs (step key s c) (step-Bounded key limit w last s c b le agrees)
      t

new-Bounded : (key : Text) (limit w : ℕ) → Bounded key limit w 0 (new_limiter, [])
unfolding new_limiter lookup recent
new-Bounded key limit w = record { short = omega arith; counted = λ later h. omega arith }

-- The limit holds in every sliding window. Whatever calls are made on a new limiter, for any plugins
-- and actions, in the order of time, and those of one key with the same limit and window: of the
-- actions of that key that were allowed, no more than the limit lie in the window that ends at any
-- time from the last call on.
pub recent-run :
    (key : Text) (limit w later : ℕ) (cs : List CheckCall)
    → Timely key limit w 0 cs
    → last_time 0 cs ≤ later
    → recent later w (run key (new_limiter, []) cs).1 ≤ limit
recent-run key limit w later cs t le =
    let s = run key (new_limiter, []) cs in
    let b = run-Bounded key limit w 0 cs (new_limiter, []) (new-Bounded key limit w) t in
    omega (
      arith,
      b.short,
      b.counted later le,
      recent_le_length later w (timestamps_of (lookup key s.0.windows)),
    )
