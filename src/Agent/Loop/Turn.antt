-- ===== src/Agent/Loop/Turn.antt =====
-- The loop of a turn: `runAgenticLoop` of src/agent/runtime.ts, with `recoverLlmError` of
-- src/agent/loop/llm-iteration.ts and src/agent/provider-fallback.ts. What the model answers and what
-- the clock says comes as rounds. The reset of a session, the hooks, and the streams are left out, and so is
-- a model call that throws, which ends the turn. Tools can be executed, and `max_iterations` is positive, as the source makes it, so that the test of `while`
-- holds whenever the loop goes on.
pub mod Bounded
pub mod Switching
pub mod Keys
pub mod Tests
use anonka.Prelude.{
  get_elem?, ℕ, zero, suc, ◌+◌, ◌-◌, ◌*◌, ◌^◌, Bool, true, false, not, ◌&&◌, ◌||◌, List, [], ◌∷◌,
  Option, none, some, Text, text_eq, if◌then◌else◌, ◌==◌, leb, ltb,
}
use anonka.Agent.Loop.Errors.{
  LlmErrorKind, context_overflow, rate_limit, server_error, unknown, classify_llm_error,
  parse_retry_after_ms,
}

-- `RATE_LIMIT_MAX_RETRIES`, `SERVER_ERROR_MAX_RETRIES`
abbrev pub rate_limit_max_retries : ℕ
rate_limit_max_retries = 3

abbrev pub server_error_max_retries : ℕ
server_error_max_retries = 3

pub record RetryState : Type 0 where
  pub overflow_resets : ℕ
  pub rate_limit_retries : ℕ
  pub server_error_retries : ℕ

abbrev pub no_retries : RetryState
no_retries = record { overflow_resets = 0; rate_limit_retries = 0; server_error_retries = 0 }

pub data TerminalError : Type 0 where
  overflow_persists still_rate_limited still_failing api_error : TerminalError

-- The session is reset, the code sleeps, or it throws.
pub data Recovery : Type 0 where
  resets : Recovery
  waits : (delay : ℕ) → Recovery
  throws : TerminalError → Recovery

abbrev pub or_backoff : Option ℕ → ℕ → ℕ
or_backoff none n = 1_000 * 2 ^ (n - 1)
or_backoff (some ms) n = ms

-- `jitter` is `Math.floor(Math.random() * 500)`.
abbrev pub recover_kind : LlmErrorKind → Option ℕ → ℕ → RetryState → RetryState × Recovery
recover_kind context_overflow hint jitter r =
    let n = suc r.overflow_resets in
    (record r { overflow_resets = n }, if ltb 1 n then throws overflow_persists else resets)
recover_kind rate_limit hint jitter r =
    let n = suc r.rate_limit_retries in
    (
      record r { rate_limit_retries = n },
      if leb n rate_limit_max_retries
          then waits (or_backoff hint n + jitter)
          else throws still_rate_limited,
    )
recover_kind server_error hint jitter r =
    let n = suc r.server_error_retries in
    (
      record r { server_error_retries = n },
      if leb n server_error_max_retries
          then waits (2_000 * 2 ^ (n - 1) + jitter)
          else throws still_failing,
    )
recover_kind unknown hint jitter r = (r, throws api_error)

unfoldable pub recover_llm_error : (Text → Text) → Text → ℕ → RetryState → RetryState × Recovery
recover_llm_error lower message jitter r =
    recover_kind (classify_llm_error lower message) (parse_retry_after_ms message) jitter r

pub record Fallback : Type 0 where
  pub provider : Text
  pub model : Text
  pub api_key : Option Text
  pub base_url : Option Text

pub record AgentConfig : Type 0 where
  pub provider : Text
  pub model : Text
  pub api_key : Text
  pub base_url : Option Text
  pub fallbacks : List Fallback

pub record ResolvedProviderFallback : Type 0 where
  pub provider : Text
  pub config : AgentConfig
  pub next_index : ℕ

abbrev pub or_key : Option Text → Text → Text
or_key none key = key
or_key (some own) key = own

abbrev pub or_url : Option Text → Option Text → Option Text
or_url none url = url
or_url (some own) url = some own

abbrev pub is_transient : LlmErrorKind → Bool
is_transient context_overflow = false
is_transient rate_limit = true
is_transient server_error = true
is_transient unknown = false

unfoldable pub fallback_config : AgentConfig → Fallback → AgentConfig
unfolding text_eq
fallback_config primary fallback =
    let same = text_eq fallback.provider primary.provider in
    record {
      provider = fallback.provider;
      model = fallback.model;
      api_key = or_key fallback.api_key (if same then primary.api_key else []);
      base_url = or_url fallback.base_url (if same then primary.base_url else none);
      fallbacks = [];
    }

unfoldable pub resolve_provider_fallback :
    (Text → Text) → AgentConfig → ℕ → Text → Bool → Option ResolvedProviderFallback
unfolding fallback_config
resolve_provider_fallback lower primary index message action_attempted =
    elim (get_elem? primary.fallbacks index) [
      | none ↦ none
      | some fallback ↦
          if action_attempted || not (is_transient (classify_llm_error lower message))
          then none
          else some (record {
            provider = fallback.provider;
            config = fallback_config primary fallback;
            next_index = suc index;
          })
    ]

pub record TurnState : Type 0 where
  pub iteration : ℕ
  pub retry : RetryState
  pub fallback_index : ℕ
  pub active_config : AgentConfig
  pub answered : Bool
  pub action_attempted : Bool

-- What the model answers: an error, an answer without tool calls, or a batch of them, with whether one
-- that is no read was attempted in it.
pub data Reply : Type 0 where
  fails : (message : Text) → (jitter : ℕ) → Reply
  answers : Reply
  calls_tools : (acts : Bool) → Reply

-- One pass of the loop, with whether the time of the turn is up before it and after it.
pub record Round : Type 0 where
  pub late_before : Bool
  pub reply : Reply
  pub late_after : Bool

pub data Ending : Type 0 where
  completed completed_with_fallback time_budget iteration_budget no_response_in_time : Ending
  threw : TerminalError → Ending

pub data Progress : Type 0 where
  goes_on : TurnState → Progress
  ends : Ending → Progress

abbrev pub start_turn : AgentConfig → TurnState
start_turn config = record {
  iteration = 0;
  retry = no_retries;
  fallback_index = 0;
  active_config = config;
  answered = false;
  action_attempted = false;
}

module _ (lower : Text → Text) (config : AgentConfig) (max_iterations : ℕ) where
  -- After an error that is not recovered from.
  abbrev pub fall_back : TurnState → TerminalError → Option ResolvedProviderFallback → Progress
  fall_back s error none = ends (threw error)
  fall_back s error (some f) = goes_on (record s {
    fallback_index = f.next_index;
    active_config = f.config;
    retry = no_retries;
    answered = true;
  })

  abbrev pub after_error : TurnState → Text → RetryState × Recovery → Progress
  after_error s message (r, resets) = goes_on (record s { retry = r; answered = true })
  after_error s message (r, waits delay) = goes_on (record s { retry = r; answered = true })
  after_error s message (r, throws error) =
      fall_back s error
        (resolve_provider_fallback lower config s.fallback_index message s.action_attempted)

  abbrev pub after_tools : TurnState → Bool → Bool → Progress
  after_tools s acts late =
      if late
      then ends time_budget
      else if suc s.iteration == max_iterations
      then ends iteration_budget
      else goes_on (record s {
        iteration = suc s.iteration;
        answered = true;
        action_attempted = s.action_attempted || acts;
      })

  abbrev pub after_reply : Reply → Bool → TurnState → Progress
  after_reply (fails message jitter) late s =
      after_error s message (recover_llm_error lower message jitter s.retry)
  after_reply answers late s =
      ends (if ltb 0 s.fallback_index then completed_with_fallback else completed)
  after_reply (calls_tools acts) late s = after_tools s acts late

  -- The pass of the loop.
  unfoldable pub turn_round : Round → TurnState → Progress
  unfolding recover_llm_error resolve_provider_fallback
  turn_round round s =
      if round.late_before
      then ends (if s.answered then time_budget else no_response_in_time)
      else after_reply round.reply round.late_after s

  unfoldable pub run_rounds : List Round → TurnState → Progress
  unfolding turn_round
  run_rounds [] s = goes_on s
  run_rounds (round ∷ rounds) s = elim (turn_round round s) [
    | goes_on s' ↦ run_rounds rounds s'
    | ends e ↦ ends e
  ]
