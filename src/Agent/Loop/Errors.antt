-- ===== src/Agent/Loop/Errors.antt =====
-- src/agent/runtime-utils.ts: the classes of a language model's errors, by their messages. `lower` stands
-- for `toLowerCase`, which goes by the tables of Unicode; the regular expressions are written out.
use anonka.Prelude.{
  ℕ, ◌+◌, ◌-◌, ◌*◌, ◌^◌, Bool, true, false, not, ◌&&◌, ◌||◌, [], ◌∷◌, Option, none, some, Text,
  text, if◌then◌else◌, ◌==◌, leb,
}
use anonka.Prelude.Decimal.{is_digit, value}
use anonka.Agent.Hooks.{in_range, is_space}

abbrev strip : Text → Text → Option Text
strip [] s = some s
strip (c ∷ p) [] = none
strip (c ∷ p) (d ∷ s) = let rest = strip p s in if c == d then rest else none

abbrev is_some : {A : Type 0} → Option A → Bool
is_some none = false
is_some (some a) = true

unfoldable pub includes : Text → Text → Bool
includes [] p = is_some (strip p [])
includes (c ∷ s) p = is_some (strip p (c ∷ s)) || includes s p

-- The class `\w`.
abbrev is_word : ℕ → Bool
is_word c = in_range 48 57 c || in_range 65 90 c || in_range 97 122 c || c == 95

-- The word `p` stands at the front and ends there, at a `\b`.
abbrev ends_word : Option Text → Bool
ends_word none = false
ends_word (some []) = true
ends_word (some (c ∷ s)) = not (is_word c)

-- Some place with a `\b` before it, where `f` holds.
unfoldable pub word_scan : (Text → Bool) → Bool → Text → Bool
word_scan f after_word [] = false
word_scan f after_word (c ∷ s) = not after_word && f (c ∷ s) || word_scan f (is_word c) s

abbrev drop_while : (ℕ → Bool) → Text → Text
drop_while f [] = []
drop_while f (c ∷ s) = let rest = drop_while f s in if f c then rest else c ∷ s

-- `rate[\s_-]*(?:limit|limited|exceeded)\b`
abbrev rate_limit_at : Text → Bool
rate_limit_at s = elim (strip (text "rate") s) [
  | none ↦ false
  | some rest ↦
      let what = drop_while (λ c. is_space c || c == 95 || c == 45) rest in
      ends_word (strip (text "limit") what)
      || ends_word (strip (text "limited") what)
      || ends_word (strip (text "exceeded") what)
]

module _ (lower : Text → Text) where
  unfoldable pub is_context_overflow_error : Text → Bool
  unfolding includes
  is_context_overflow_error [] = false
  is_context_overflow_error (c ∷ s) =
      let l = lower (c ∷ s) in
      includes l (text "prompt is too long")
      || includes l (text "context length exceeded")
      || includes l (text "maximum context length")
      || includes l (text "too many tokens")
      || includes l (text "request_too_large")
      || includes l (text "exceeds") && includes l (text "maximum")
      || includes l (text "context") && includes l (text "limit")

  unfoldable pub is_rate_limit_error : Text → Bool
  unfolding includes word_scan
  is_rate_limit_error [] = false
  is_rate_limit_error (c ∷ s) =
      let l = lower (c ∷ s) in
      word_scan (λ t. ends_word (strip (text "429") t)) false (c ∷ s)
      || word_scan rate_limit_at false l
      || includes l (text "usage limit")
      || includes l (text "insufficient_quota")
      || includes l (text "quota exceeded")

unfoldable pub is_server_error : Text → Bool
unfolding includes
is_server_error s =
    includes s (text "500")
    || includes s (text "502")
    || includes s (text "503")
    || includes s (text "529")
    || includes s (text "overloaded")
    || includes s (text "Internal server error")
    || includes s (text "api_error")
    || includes s (text "WebSocket closed")
    || includes s (text "ECONNRESET")
    || includes s (text "socket hang up")

pub data LlmErrorKind : Type 0 where
  context_overflow rate_limit server_error unknown : LlmErrorKind

unfoldable pub classify_llm_error : (Text → Text) → Text → LlmErrorKind
unfolding is_context_overflow_error is_rate_limit_error is_server_error
classify_llm_error lower message =
    if is_context_overflow_error lower message
    then context_overflow
    else if is_rate_limit_error lower message
    then rate_limit
    else if is_server_error message
    then server_error
    else unknown

-- A letter of ASCII regardless of its case, as for the flag `i`.
abbrev fold_case : ℕ → ℕ
fold_case c = if in_range 65 90 c then c + 32 else c

abbrev drop_separator : Text → Text
drop_separator [] = []
drop_separator (c ∷ s) = if c == 45 || is_space c then s else c ∷ s

abbrev take_while : (ℕ → Bool) → Text → Text
take_while f [] = []
take_while f (c ∷ s) = let rest = take_while f s in if f c then c ∷ rest else []

abbrev is_colon_or_space : ℕ → Bool
is_colon_or_space c = c == 58 || is_space c

-- `[:\s]+(\d+)`, with the digits.
abbrev digits_after : Text → Text
digits_after [] = []
digits_after (c ∷ s) =
    if is_colon_or_space c then take_while is_digit (drop_while is_colon_or_space s) else []

-- `retry[-\s]?after[:\s]+(\d+)`; no digits where it does not match.
abbrev retry_after_at : Text → Text
retry_after_at s = elim (strip (text "retry") s) [
  | none ↦ []
  | some rest ↦ elim (strip (text "after") (drop_separator rest)) [
    | none ↦ []
    | some rest ↦ digits_after rest
  ]
]

abbrev or_later : Text → Text → Text
or_later [] later = later
or_later (d ∷ digits) later = d ∷ digits

unfoldable pub retry_after_digits : Text → Text
retry_after_digits [] = []
retry_after_digits (c ∷ s) = or_later (retry_after_at (c ∷ s)) (retry_after_digits s)

abbrev fold_all : Text → Text
fold_all [] = []
fold_all (c ∷ s) = fold_case c ∷ fold_all s

-- The least number that a double rounds to Infinity.
abbrev infinity : ℕ
infinity = 2 ^ 1024 - 2 ^ 970

abbrev at_most : ℕ → ℕ → ℕ
at_most a b = if leb a b then a else b

abbrev milliseconds : ℕ → Option ℕ
milliseconds seconds =
    if leb infinity seconds || seconds == 0 then none else some (at_most (seconds * 1000) 60_000)

unfoldable pub parse_retry_after_ms : Text → Option ℕ
unfolding retry_after_digits
parse_retry_after_ms message = elim (retry_after_digits (fold_all message)) [
  | [] ↦ none
  | d ∷ digits ↦ milliseconds (value (d ∷ digits))
]
