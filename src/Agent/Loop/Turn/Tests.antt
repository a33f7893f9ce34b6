-- ===== src/Agent/Loop/Turn/Tests.antt =====
-- Turns at work: the classes of messages, retries, and a fallback.
use anonka.Prelude.{
  ◌≡◌, ◌↔◌, refl, true, false, List, [], ◌∷◌, ◌++◌, none, some, Text, text, text_eq, arith,
}
use anonka.Prelude.Decimal.{value_from}
use anonka.Agent.Loop.Errors.{
  context_overflow, rate_limit, server_error, unknown, includes, word_scan,
  is_context_overflow_error, is_rate_limit_error, is_server_error, classify_llm_error,
  retry_after_digits, parse_retry_after_ms,
}
use anonka.Agent.Loop.Turn.{
  AgentConfig, answers, calls_tools, Round, Ending, completed_with_fallback, ends, TurnState,
  start_turn, recover_llm_error, fallback_config, resolve_provider_fallback, turn_round, run_rounds,
}
use anonka.Agent.Loop.Turn.Bounded.{turn_ends}
use anonka.Agent.Loop.Turn.Switching.{Advances, GoesOver, MayGoOver, failing_round, fallback_iff}
use anonka.Agent.Loop.Turn.Keys.{KeyFits, used-KeyFits}

in_turn : Unit {0}
unfolding includes word_scan is_context_overflow_error is_rate_limit_error is_server_error
    classify_llm_error retry_after_digits parse_retry_after_ms recover_llm_error fallback_config
    resolve_provider_fallback turn_round run_rounds text_eq value_from
in_turn = tt

abbrev as_it_is : Text → Text
as_it_is s = s

classified_overflow :
    classify_llm_error as_it_is (text "the context limit, error 429") ≡ context_overflow
unfolding in_turn
classified_overflow = refl

classified_rate : classify_llm_error as_it_is (text "hit the rate_-limit now") ≡ rate_limit
unfolding in_turn
classified_rate = refl

not_rate : classify_llm_error as_it_is (text "karate limited, 4290") ≡ unknown
unfolding in_turn
not_rate = refl

classified_server : classify_llm_error as_it_is (text "HTTP 502") ≡ server_error
unfolding in_turn
classified_server = refl

retry_hint : parse_retry_after_ms (text "429, Retry-After: 12s") ≡ some 12_000
unfolding in_turn
retry_hint = refl

no_retry_hint : parse_retry_after_ms (text "retry after a while: 0") ≡ none
unfolding in_turn
no_retry_hint = refl

abbrev config : AgentConfig
config = record {
  provider = text "main";
  model = text "large";
  api_key = text "secret";
  base_url = none;
  fallbacks =
      record { provider = text "spare"; model = text "small"; api_key = none; base_url = none }
      ∷ [];
}

abbrev limited : Round
limited = failing_round (text "429") 7 false

abbrev acted : Round
acted = record { late_before = false; reply = calls_tools true; late_after = false }

abbrev done : Round
done = record { late_before = false; reply = answers; late_after = false }

abbrev four_limited : List Round
four_limited = limited ∷ limited ∷ limited ∷ limited ∷ []

spare_answers :
    run_rounds as_it_is config 5
      (limited ∷ limited ∷ limited ∷ limited ∷ done ∷ [])
      (start_turn config)
    ≡ ends completed_with_fallback
unfolding in_turn
spare_answers = refl

abbrev seven_limited : List Round
seven_limited = limited ∷ limited ∷ limited ∷ four_limited

abbrev many_rounds : List Round
many_rounds = seven_limited ++ (acted ∷ done ∷ done ∷ done ∷ done ∷ done ∷ done ∷ done ∷ done ∷ [])

turn_ends_example :
    (e : Ending) × (run_rounds as_it_is config 1 many_rounds (start_turn config) ≡ ends e)
turn_ends_example = turn_ends as_it_is config 1 many_rounds (omega arith) (omega arith)

abbrev used_up : TurnState
used_up = record (start_turn config) {
  retry = record { overflow_resets = 0; rate_limit_retries = 3; server_error_retries = 0 };
}

fallback_iff_example :
    (Advances as_it_is config 5 limited used_up ↔ MayGoOver as_it_is config 5 used_up (text "429"))
    × (GoesOver as_it_is config 5 limited used_up
        ↔ MayGoOver as_it_is config 5 used_up (text "429"))
fallback_iff_example = fallback_iff as_it_is config 5 used_up (text "429") 7 false

abbrev gone_over : TurnState
gone_over = record (start_turn config) {
  fallback_index = 1;
  active_config =
      fallback_config config
        (record { provider = text "spare"; model = text "small"; api_key = none; base_url = none });
  answered = true;
}

used-KeyFits_example : KeyFits config gone_over.active_config
unfolding in_turn
used-KeyFits_example = used-KeyFits as_it_is config 5 four_limited gone_over refl
