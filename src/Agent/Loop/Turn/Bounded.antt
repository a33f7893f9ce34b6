-- ===== src/Agent/Loop/Turn/Bounded.antt =====
-- A turn ends.
use anonka.Prelude.{
  get_elem?, ℕ, zero, suc, ◌+◌, ◌-◌, ◌*◌, ◌≤◌, ◌<◌, ◌≡◌, refl, Bool, true, false, ◌||◌, List, [],
  ◌∷◌, Option, none, some, Text, length, leb, ltb, ◌==◌, arith, Bool-cases, Option-cases, ◌⊎◌, inl,
  inr,
}
use mathlib.Core.Path.{subst}
use anonka.Agent.Loop.Errors.{
  LlmErrorKind, context_overflow, rate_limit, server_error, unknown, classify_llm_error,
  parse_retry_after_ms,
}
use anonka.Agent.Loop.Turn.{
  RetryState, no_retries, Recovery, resets, waits, throws, recover_kind, recover_llm_error,
  TerminalError, AgentConfig, ResolvedProviderFallback, resolve_provider_fallback, TurnState, Reply,
  fails, answers, calls_tools, Round, Ending, threw, Progress, goes_on, ends, start_turn, fall_back,
  after_error, after_tools, after_reply, turn_round, run_rounds,
}

abbrev retries : RetryState → ℕ
retries r = r.overflow_resets + r.rate_limit_retries + r.server_error_retries

-- The retries that have been recovered from.
record Within (r : RetryState) : Type 0 where
  resets : r.overflow_resets ≤ 1
  waits : r.rate_limit_retries ≤ 3
  backs_off : r.server_error_retries ≤ 3

-- The code has not thrown.
abbrev Recovers : Recovery → Type 0
Recovers resets = Unit {0}
Recovers (waits delay) = Unit {0}
Recovers (throws e) = ⊥

recover_kind-Within :
    (k : LlmErrorKind) (hint : Option ℕ) (jitter : ℕ) (r : RetryState)
    → Within r
    → Recovers (recover_kind k hint jitter r).1
    → Within (recover_kind k hint jitter r).0
      × (retries (recover_kind k hint jitter r).0 ≡ suc (retries r))
recover_kind-Within context_overflow hint jitter r w ok =
    elim (Bool-cases (ltb 1 (suc r.overflow_resets))) [
      | inl persists ↦ absurd (rw persists at ok)
      | inr first ↦ ground (arith, first)
    ]
recover_kind-Within rate_limit hint jitter r w ok =
    elim (Bool-cases (leb (suc r.rate_limit_retries) 3)) [
      | inl once_more ↦ ground (arith, once_more)
      | inr too_often ↦ absurd (rw too_often at ok)
    ]
recover_kind-Within server_error hint jitter r w ok =
    elim (Bool-cases (leb (suc r.server_error_retries) 3)) [
      | inl once_more ↦ ground (arith, once_more)
      | inr too_often ↦ absurd (rw too_often at ok)
    ]
recover_kind-Within unknown hint jitter r w ok = absurd ok

pub get_elem?-lt :
    {A : Type 0} (xs : List A) (i : ℕ) {x : A} → get_elem? xs i ≡ some x → i < length xs
get_elem?-lt [] i e = absurd (cc)
get_elem?-lt (x ∷ xs) zero e = omega arith
get_elem?-lt (x ∷ xs) (suc i) e = omega (arith, get_elem?-lt xs i e)

pub Progress-cases :
    (p : Progress) → ((e : Ending) × (p ≡ ends e)) ⊎ ((s : TurnState) × (p ≡ goes_on s))
Progress-cases (goes_on s) = inr (s, refl)
Progress-cases (ends e) = inl (e, refl)

module _ (lower : Text → Text) (config : AgentConfig) (max_iterations : ℕ) where
  record IsGoing (s : TurnState) : Type 0 where
    within : Within s.retry
    below : s.iteration < max_iterations
    listed : s.fallback_index ≤ length config.fallbacks

  -- The passes that are left.
  abbrev rest : TurnState → ℕ
  rest s =
      (max_iterations - s.iteration)
      + 8 * (length config.fallbacks - s.fallback_index)
      + (7 - retries s.retry)

  -- A pass that goes on from `s`.
  record Follows (s s' : TurnState) : Type 0 where
    going : IsGoing s'
    fewer : rest s' < rest s

  resolved_next :
      (index : ℕ) (message : Text) (attempted : Bool) (f : ResolvedProviderFallback)
      → resolve_provider_fallback lower config index message attempted ≡ some f
      → (f.next_index ≡ suc index) × (index < length config.fallbacks)
  unfolding resolve_provider_fallback
  resolved_next index message attempted f e =
      elim (Option-cases (get_elem? config.fallbacks index)) [
        | inl missing ↦ let bad : none ≡ some f = rw (missing, resolve_provider_fallback) at e in cc
        | inr (fallback, at) ↦
            let below = get_elem?-lt config.fallbacks index at in
            let found = rw (at, resolve_provider_fallback) at e in (ground (arith, found), below)
      ]

  goes_on-Follows : (s t s' : TurnState) → Follows s t → goes_on t ≡ goes_on s' → Follows s s'
  goes_on-Follows s t s' f e = subst (Follows s) (cc) f

  fall_back-Follows :
      (s s' : TurnState) (error : TerminalError) (message : Text)
      → IsGoing s
      → fall_back lower config max_iterations s error
          (resolve_provider_fallback lower config s.fallback_index message s.action_attempted)
        ≡ goes_on s'
      → Follows s s'
  fall_back-Follows s s' error message g e =
      elim (Option-cases
        (resolve_provider_fallback lower config s.fallback_index message s.action_attempted)) [
          | inl nothing ↦
              let bad : ends (threw error) ≡ goes_on s' = rw (nothing, fall_back) at e in cc
          | inr (f, resolved) ↦
              let (next, below) =
                resolved_next s.fallback_index message s.action_attempted f resolved in
              let on = rw (resolved, fall_back) at e in
              goes_on-Follows s
                (record s {
                  fallback_index = f.next_index;
                  active_config = f.config;
                  retry = no_retries;
                  answered = true;
                })
                s'
                (record {
                  going = record {
                    within = ground arith;
                    below = g.below;
                    listed = omega (arith, next, below);
                  };
                  fewer = omega (arith, next, below);
                })
                on
        ]

  retried :
      (s s' : TurnState) (r : RetryState)
      → IsGoing s
      → Within r × (retries r ≡ suc (retries s.retry))
      → goes_on (record s { retry = r; answered = true }) ≡ goes_on s'
      → Follows s s'
  retried s s' r g (w, counted) e =
      goes_on-Follows s (record s { retry = r; answered = true }) s'
        (record {
          going = record { within = w; below = g.below; listed = g.listed };
          fewer = omega (arith, counted, w.resets, w.waits, w.backs_off);
        })
        e

  after_error-Follows :
      (s s' : TurnState) (message : Text) (r : RetryState) (recovery : Recovery)
      → IsGoing s
      → (Recovers recovery → Within r × (retries r ≡ suc (retries s.retry)))
      → after_error lower config max_iterations s message (r, recovery) ≡ goes_on s'
      → Follows s s'
  after_error-Follows s s' message r resets g w e = retried s s' r g (w tt) e
  after_error-Follows s s' message r (waits delay) g w e = retried s s' r g (w tt) e
  after_error-Follows s s' message r (throws error) g w e = fall_back-Follows s s' error message g e

  after_tools-Follows :
      (s s' : TurnState) (acts late : Bool)
      → IsGoing s
      → after_tools lower config max_iterations s acts late ≡ goes_on s'
      → Follows s s'
  after_tools-Follows s s' acts true g e = cc
  after_tools-Follows s s' acts false g e = elim (Bool-cases (suc s.iteration == max_iterations)) [
    | inl last ↦ let bad = rw last at e in cc
    | inr more ↦
        let on = rw more at e in
        goes_on-Follows s
          (record s {
            iteration = suc s.iteration;
            answered = true;
            action_attempted = s.action_attempted || acts;
          })
          s'
          (record {
            going = record {
              within = g.within;
              below = ground (arith, more, g.below);
              listed = g.listed;
            };
            fewer = omega (arith, g.below);
          })
          on
  ]

  after_reply-Follows :
      (reply : Reply) (late : Bool) (s s' : TurnState)
      → IsGoing s
      → after_reply lower config max_iterations reply late s ≡ goes_on s'
      → Follows s s'
  unfolding recover_llm_error
  after_reply-Follows (fails message jitter) late s s' g e =
      let kind = classify_llm_error lower message in
      let hint = parse_retry_after_ms message in
      let (r, recovery) = recover_kind kind hint jitter s.retry in
      after_error-Follows s s' message r recovery g
        (recover_kind-Within kind hint jitter s.retry g.within) e
  after_reply-Follows answers late s s' g e = cc
  after_reply-Follows (calls_tools acts) late s s' g e = after_tools-Follows s s' acts late g e

  turn_round-Follows :
      (round : Round) (s s' : TurnState)
      → IsGoing s
      → turn_round lower config max_iterations round s ≡ goes_on s'
      → Follows s s'
  unfolding turn_round recover_llm_error
  turn_round-Follows round s s' g e = elim (Bool-cases round.late_before) [
    | inl late ↦ let bad = rw late at e in cc
    | inr in_time ↦ after_reply-Follows round.reply round.late_after s s' g (rw in_time at e)
  ]

  run_rounds_end :
      (rounds : List Round) (s : TurnState)
      → IsGoing s
      → rest s ≤ length rounds
      → (e : Ending) × (run_rounds lower config max_iterations rounds s ≡ ends e)
  unfolding run_rounds
  run_rounds_end [] s g enough = absurd (omega (arith, enough, g.below))
  run_rounds_end (round ∷ rounds) s g enough =
      elim (Progress-cases (turn_round lower config max_iterations round s)) [
        | inl (e, ended) ↦ (e, rw (ended, run_rounds) refl)
        | inr (s', on) ↦
            let f = turn_round-Follows round s s' g on in
            let (e, ended) = run_rounds_end rounds s' f.going (omega (arith, f.fewer, enough)) in
            (e, rw (on, run_rounds) ended)
      ]

  -- Whatever the model answers and the clock says, a turn with at least one iteration ends: the loop
  -- makes at most as many passes as there are iterations, eight more for each fallback, and seven more
  -- for the retries.
  pub turn_ends :
      (rounds : List Round)
      → 0 < max_iterations
      → max_iterations + 8 * length config.fallbacks + 7 ≤ length rounds
      → (e : Ending) × (run_rounds lower config max_iterations rounds (start_turn config) ≡ ends e)
  turn_ends rounds positive enough =
      run_rounds_end rounds (start_turn config)
        (record { within = ground arith; below = positive; listed = omega arith })
        (omega (arith, enough))
