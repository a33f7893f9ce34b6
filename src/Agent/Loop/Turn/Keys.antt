-- ===== src/Agent/Loop/Turn/Keys.antt =====
-- Which key a turn uses with which provider.
use anonka.Prelude.{
  get_elem?, ℕ, suc, ◌≡◌, ◌⊎◌, inl, inr, refl, Bool, true, false, List, [], ◌∷◌, some, Text,
  text_eq, text_eq_iff, ◌==◌, Bool-cases, Option-cases,
}
use mathlib.Core.Path.{subst}
use anonka.Agent.Loop.Turn.{
  RetryState, Recovery, resets, waits, throws, recover_llm_error, AgentConfig, Fallback,
  fallback_config, resolve_provider_fallback, TurnState, Reply, fails, answers, calls_tools, Round,
  threw, goes_on, ends, start_turn, fall_back, after_error, after_tools, after_reply, turn_round,
  run_rounds,
}
use anonka.Agent.Loop.Turn.Bounded.{Progress-cases}
use anonka.Agent.Loop.Turn.Switching.{resolved_lem}

-- A key is used with the provider that the configuration gives it for: the primary one's key with the
-- primary provider, a fallback's own key with the fallback's provider, or none.
abbrev pub KeyFits : AgentConfig → AgentConfig → Type 0
KeyFits config used =
    ((used.provider ≡ config.provider) × (used.api_key ≡ config.api_key))
    ⊎ (used.api_key ≡ [])
    ⊎ ((i : ℕ) × (fallback : Fallback) × (get_elem? config.fallbacks i ≡ some fallback)
        × (fallback.provider ≡ used.provider)
        × (fallback.api_key ≡ some used.api_key))

fallback_config-KeyFits :
    (config : AgentConfig) (i : ℕ) (fallback : Fallback)
    → get_elem? config.fallbacks i ≡ some fallback
    → KeyFits config (fallback_config config fallback)
unfolding fallback_config
fallback_config-KeyFits config i fallback at = elim (Option-cases fallback.api_key) [
  | inl no_key ↦ elim (Bool-cases (text_eq fallback.provider config.provider)) [
    | inl same ↦
        inl ((text_eq_iff fallback.provider config.provider).0 same, rw no_key (rw same refl))
    | inr other ↦ inr (inl (rw no_key (rw other refl)))
  ]
  | inr (key, own) ↦ inr (inr (i, fallback, at, refl, rw own refl))
]

module _ (lower : Text → Text) (config : AgentConfig) (max_iterations : ℕ) where
  after_error-KeyFits :
      (s s' : TurnState) (message : Text) (r : RetryState) (recovery : Recovery)
      → KeyFits config s.active_config
      → after_error lower config max_iterations s message (r, recovery) ≡ goes_on s'
      → KeyFits config s'.active_config
  after_error-KeyFits s s' message r resets fits on =
      let same : s.active_config ≡ s'.active_config = cc in subst (KeyFits config) same fits
  after_error-KeyFits s s' message r (waits delay) fits on =
      let same : s.active_config ≡ s'.active_config = cc in subst (KeyFits config) same fits
  after_error-KeyFits s s' message r (throws error) fits on =
      elim (Option-cases
        (resolve_provider_fallback lower config s.fallback_index message s.action_attempted)) [
          | inl nothing ↦
              let bad : ends (threw error) ≡ goes_on s' = rw (nothing, fall_back) at on in cc
          | inr (f, resolved) ↦
              let (fallback, at, _, _, _, config_is) =
                resolved_lem lower config s.fallback_index message s.action_attempted f resolved in
              let over = rw (resolved, fall_back) at on in
              let same : fallback_config config fallback ≡ s'.active_config = cc in
              subst (KeyFits config) same
                (fallback_config-KeyFits config s.fallback_index fallback at)
        ]

  after_tools-KeyFits :
      (s s' : TurnState) (acts late : Bool)
      → KeyFits config s.active_config
      → after_tools lower config max_iterations s acts late ≡ goes_on s'
      → KeyFits config s'.active_config
  after_tools-KeyFits s s' acts true fits on = cc
  after_tools-KeyFits s s' acts false fits on =
      elim (Bool-cases (suc s.iteration == max_iterations)) [
        | inl last ↦ let bad = rw last at on in cc
        | inr more ↦
            let over = rw more at on in
            let same : s.active_config ≡ s'.active_config = cc in subst (KeyFits config) same fits
      ]

  turn_round-KeyFits :
      (round : Round) (s s' : TurnState)
      → KeyFits config s.active_config
      → turn_round lower config max_iterations round s ≡ goes_on s'
      → KeyFits config s'.active_config
  unfolding turn_round
  turn_round-KeyFits round s s' fits on = elim (Bool-cases round.late_before) [
    | inl late ↦ let bad = rw late at on in cc
    | inr in_time ↦ reply_fits round.reply round.late_after (rw in_time at on)
  ]
    where
      reply_fits :
          (reply : Reply) (late : Bool)
          → after_reply lower config max_iterations reply late s ≡ goes_on s'
          → KeyFits config s'.active_config
      reply_fits (fails message jitter) late on =
          after_error-KeyFits s s' message (recover_llm_error lower message jitter s.retry).0
            (recover_llm_error lower message jitter s.retry).1 fits on
      reply_fits answers late on = cc
      reply_fits (calls_tools acts) late on = after_tools-KeyFits s s' acts late fits on

  run_rounds-KeyFits :
      (rounds : List Round) (s s' : TurnState)
      → KeyFits config s.active_config
      → run_rounds lower config max_iterations rounds s ≡ goes_on s'
      → KeyFits config s'.active_config
  unfolding run_rounds
  run_rounds-KeyFits [] s s' fits on =
      let same : s.active_config ≡ s'.active_config = cc in subst (KeyFits config) same fits
  run_rounds-KeyFits (round ∷ rounds) s s' fits on =
      elim (Progress-cases (turn_round lower config max_iterations round s)) [
        | inl (e, ended) ↦ let bad : ends e ≡ goes_on s' = rw (ended, run_rounds) at on in cc
        | inr (t, further) ↦
            run_rounds-KeyFits rounds t s' (turn_round-KeyFits round s t fits further)
              (rw (further, run_rounds) at on)
      ]

  -- After any passes of a turn that goes on, the model's key in use is the primary one with the primary
  -- provider, or one that a fallback names with that fallback's provider, or empty.
  pub used-KeyFits :
      (rounds : List Round) (s : TurnState)
      → run_rounds lower config max_iterations rounds (start_turn config) ≡ goes_on s
      → KeyFits config s.active_config
  used-KeyFits rounds s on = run_rounds-KeyFits rounds (start_turn config) s (inl (refl, refl)) on
