-- ===== src/Agent/Loop/Turn/Switching.antt =====
-- When a turn goes over to another provider.
use anonka.Prelude.{
  get_elem?, ℕ, zero, suc, ◌≤◌, ◌<◌, ◌≡◌, ◌↔◌, inl, inr, refl, Bool, true, false, not, ◌||◌, List,
  [], ◌∷◌, Option, none, some, Text, length, leb, arith, Bool-cases, Option-cases,
}
use anonka.Agent.Loop.Errors.{
  LlmErrorKind, context_overflow, rate_limit, server_error, unknown, classify_llm_error,
  parse_retry_after_ms,
}
use anonka.Agent.Loop.Turn.{
  RetryState, no_retries, Recovery, resets, waits, throws, recover_kind, recover_llm_error,
  TerminalError, still_rate_limited, still_failing, AgentConfig, Fallback, ResolvedProviderFallback,
  fallback_config, is_transient, resolve_provider_fallback, TurnState, fails, Round, threw, goes_on,
  ends, fall_back, after_error, turn_round,
}
use anonka.Agent.Loop.Turn.Bounded.{get_elem?-lt}

-- The retries for errors of this kind are used up.
abbrev pub Exhausted : LlmErrorKind → RetryState → Type 0
Exhausted context_overflow r = ⊥
Exhausted rate_limit r = 3 ≤ r.rate_limit_retries
Exhausted server_error r = 3 ≤ r.server_error_retries
Exhausted unknown r = ⊥

abbrev Throws : Recovery → Type 0
Throws resets = ⊥
Throws (waits delay) = ⊥
Throws (throws e) = Unit {0}

Throws-Exhausted :
    (k : LlmErrorKind) (hint : Option ℕ) (jitter : ℕ) (r : RetryState)
    → Throws (recover_kind k hint jitter r).1
    → is_transient k ≡ true
    → Exhausted k r
Throws-Exhausted context_overflow hint jitter r t e = cc
Throws-Exhausted rate_limit hint jitter r t e =
    elim (Bool-cases (leb (suc r.rate_limit_retries) 3)) [
      | inl again ↦ absurd (rw again at t)
      | inr used_up ↦ ground (arith, used_up)
    ]
Throws-Exhausted server_error hint jitter r t e =
    elim (Bool-cases (leb (suc r.server_error_retries) 3)) [
      | inl again ↦ absurd (rw again at t)
      | inr used_up ↦ ground (arith, used_up)
    ]
Throws-Exhausted unknown hint jitter r t e = cc

Exhausted-throws :
    (k : LlmErrorKind) (hint : Option ℕ) (jitter : ℕ) (r : RetryState)
    → Exhausted k r
    → (error : TerminalError) × ((recover_kind k hint jitter r).1 ≡ throws error)
      × (is_transient k ≡ true)
Exhausted-throws context_overflow hint jitter r h = absurd h
Exhausted-throws rate_limit hint jitter r h =
    let used_up : leb (suc r.rate_limit_retries) 3 ≡ false = ground arith in
    (still_rate_limited, rw used_up refl, refl)
Exhausted-throws server_error hint jitter r h =
    let used_up : leb (suc r.server_error_retries) 3 ≡ false = ground arith in
    (still_failing, rw used_up refl, refl)
Exhausted-throws unknown hint jitter r h = absurd h

get_elem?-some :
    {A : Type 0} (xs : List A) (i : ℕ) → i < length xs → (x : A) × (get_elem? xs i ≡ some x)
get_elem?-some [] i h = absurd (omega (arith, h))
get_elem?-some (x ∷ xs) zero h = (x, refl)
get_elem?-some (x ∷ xs) (suc i) h = get_elem?-some xs i (omega (arith, h))

module _ (lower : Text → Text) (config : AgentConfig) where
  pub resolved_lem :
      (index : ℕ) (message : Text) (attempted : Bool) (f : ResolvedProviderFallback)
      → resolve_provider_fallback lower config index message attempted ≡ some f
      → (fallback : Fallback) × (get_elem? config.fallbacks index ≡ some fallback)
        × (attempted ≡ false)
        × (is_transient (classify_llm_error lower message) ≡ true)
        × (f.next_index ≡ suc index)
        × (f.config ≡ fallback_config config fallback)
  unfolding resolve_provider_fallback
  resolved_lem index message attempted f e =
      elim (Option-cases (get_elem? config.fallbacks index)) [
        | inl missing ↦ let bad : none ≡ some f = rw (missing, resolve_provider_fallback) at e in cc
        | inr (fallback, at) ↦
            let found = rw (at, resolve_provider_fallback) at e in
            elim (Bool-cases (attempted || not (is_transient (classify_llm_error lower message)))) [
              | inl refused ↦ let bad : none ≡ some f = rw refused at found in cc
              | inr taken ↦
                  let same = rw taken at found in
                  (fallback, at, ground (arith, taken), ground (arith, taken), cc, cc)
            ]
      ]

  resolves :
      (index : ℕ) (message : Text) (fallback : Fallback)
      → get_elem? config.fallbacks index ≡ some fallback
      → is_transient (classify_llm_error lower message) ≡ true
      → resolve_provider_fallback lower config index message false
        ≡ some (record {
          provider = fallback.provider;
          config = fallback_config config fallback;
          next_index = suc index;
        })
  unfolding resolve_provider_fallback
  resolves index message fallback at transient =
      rw (at, resolve_provider_fallback) (rw transient refl)

-- A pass in which the model fails in time.
abbrev pub failing_round : Text → ℕ → Bool → Round
failing_round message jitter late = record {
  late_before = false;
  reply = fails message jitter;
  late_after = late;
}

module _ (lower : Text → Text) (config : AgentConfig) (max_iterations : ℕ) where
  switched :
      (s s' : TurnState) (message : Text) (r : RetryState) (recovery : Recovery)
      → after_error lower config max_iterations s message (r, recovery) ≡ goes_on s'
      → s'.fallback_index ≡ suc s.fallback_index
      → Throws recovery
        × (s.action_attempted ≡ false)
        × (s.fallback_index < length config.fallbacks)
        × (is_transient (classify_llm_error lower message) ≡ true)
  switched s s' message r resets on next = absurd (ground (arith, on, next))
  switched s s' message r (waits delay) on next = absurd (ground (arith, on, next))
  switched s s' message r (throws error) on next =
      elim (Option-cases
        (resolve_provider_fallback lower config s.fallback_index message s.action_attempted)) [
          | inl nothing ↦
              let bad : ends (threw error) ≡ goes_on s' = rw (nothing, fall_back) at on in cc
          | inr (f, resolved) ↦
              let (fallback, at, fresh, transient, _, _) =
                resolved_lem lower config s.fallback_index message s.action_attempted f resolved in
              (tt, fresh, get_elem?-lt config.fallbacks s.fallback_index at, transient)
        ]

  goes_over :
      (s : TurnState) (message : Text) (r : RetryState) (recovery : Recovery)
      (error : TerminalError) (f : ResolvedProviderFallback)
      → recovery ≡ throws error
      → resolve_provider_fallback lower config s.fallback_index message s.action_attempted ≡ some f
      → after_error lower config max_iterations s message (r, recovery)
        ≡ fall_back lower config max_iterations s error (some f)
  goes_over s message r recovery error f stops resolved =
      rw (stops, after_error) (rw (resolved, fall_back) refl)

  -- The pass leaves the turn going, with the next fallback's index.
  abbrev pub Advances : Round → TurnState → Type 0
  Advances round s =
      (s' : TurnState) × (turn_round lower config max_iterations round s ≡ goes_on s')
      × (s'.fallback_index ≡ suc s.fallback_index)

  -- The pass leaves the turn going with the provider and the model of the fallback whose turn it is, and
  -- with all retries.
  abbrev pub GoesOver : Round → TurnState → Type 0
  GoesOver round s =
      (s' : TurnState) × (fallback : Fallback) × (turn_round lower config max_iterations round s
        ≡ goes_on s')
      × (s'.fallback_index ≡ suc s.fallback_index)
      × (get_elem? config.fallbacks s.fallback_index ≡ some fallback)
      × (s'.active_config.provider ≡ fallback.provider)
      × (s'.active_config.model ≡ fallback.model)
      × (s'.retry ≡ no_retries)

  -- The retries for this failure are used up, no action was attempted, and there is a further fallback.
  abbrev pub MayGoOver : TurnState → Text → Type 0
  MayGoOver s message =
      Exhausted (classify_llm_error lower message) s.retry
      × (s.action_attempted ≡ false)
      × (s.fallback_index < length config.fallbacks)

  Advances-MayGoOver :
      (s : TurnState) (message : Text) (jitter : ℕ) (late : Bool)
      → Advances (failing_round message jitter late) s
      → MayGoOver s message
  unfolding turn_round recover_llm_error
  Advances-MayGoOver s message jitter late (s', on, next) =
      let kind = classify_llm_error lower message in
      let recovered = recover_kind kind (parse_retry_after_ms message) jitter s.retry in
      let (t, fresh, listed, transient) = switched s s' message recovered.0 recovered.1 on next in
      (
        Throws-Exhausted kind (parse_retry_after_ms message) jitter s.retry t transient,
        fresh,
        listed,
      )

  MayGoOver-GoesOver :
      (s : TurnState) (message : Text) (jitter : ℕ) (late : Bool)
      → MayGoOver s message
      → GoesOver (failing_round message jitter late) s
  unfolding turn_round recover_llm_error fallback_config
  MayGoOver-GoesOver s message jitter late (used_up, fresh, listed) =
      let kind = classify_llm_error lower message in
      let recovered = recover_kind kind (parse_retry_after_ms message) jitter s.retry in
      let (error, stops, transient) =
        Exhausted-throws kind (parse_retry_after_ms message) jitter s.retry used_up in
      let (fallback, at) = get_elem?-some config.fallbacks s.fallback_index listed in
      (
        record s {
          fallback_index = suc s.fallback_index;
          active_config = fallback_config config fallback;
          retry = no_retries;
          answered = true;
        },
        fallback,
        goes_over s message recovered.0 recovered.1 error
            (record {
              provider = fallback.provider;
              config = fallback_config config fallback;
              next_index = suc s.fallback_index;
            })
            stops (rw fresh (resolves lower config s.fallback_index message fallback at transient)),
        refl,
        at,
        refl,
        refl,
        refl,
      )

  -- When the model fails in time, the turn advances to the next fallback exactly if the retries for a
  -- rate limit or a server error, as it is one, are used up, no action was attempted in the turn, and
  -- there is a further fallback. Exactly then the turn goes on with that fallback's provider and model
  -- and with no retries counted.
  pub fallback_iff :
      (s : TurnState) (message : Text) (jitter : ℕ) (late : Bool)
      → (Advances (failing_round message jitter late) s ↔ MayGoOver s message)
        × (GoesOver (failing_round message jitter late) s ↔ MayGoOver s message)
  fallback_iff s message jitter late =
      let due = Advances-MayGoOver s message jitter late in
      let goes = MayGoOver-GoesOver s message jitter late in
      (
        (due, λ m. let (s', _, on, next, _, _, _, _) = goes m in (s', on, next)),
        (λ (s', _, on, next, _, _, _, _). due (s', on, next), goes),
      )
