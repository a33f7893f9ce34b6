-- ===== src/Agent/Hooks.antt =====
-- src/agent/hooks/user-hook-evaluator.ts: the keyword blocklist and the context triggers. `fold` stands
-- for `toLowerCase().normalize("NFKC")`, which goes by the tables of Unicode; the configurations are
-- what the hook store gives.
pub mod Runs
pub mod Blocking
pub mod Tests
use anonka.Prelude.{
  ℕ, zero, suc, ◌+◌, ◌-◌, Bool, true, false, not, ◌&&◌, ◌||◌, List, [], ◌∷◌, ◌++◌, Option, none,
  some, Text, text, text_eq, if◌then◌else◌, ◌==◌, leb, ltb, length, map,
}
use anonka.Prelude.Dicts.{contains, add}

pub record UserHookResult : Type 0 where
  pub blocked : Bool
  pub block_message : Option Text
  pub additional_context : Text

abbrev pub any {ℓ} : {A : Type ℓ} → (A → Bool) → List A → Bool
any f [] = false
any f (x ∷ xs) = f x || any f xs

abbrev pub in_range : ℕ → ℕ → ℕ → Bool
in_range a b c = leb a c && leb c b

-- `ZERO_WIDTH_RE`
abbrev is_zero_width : ℕ → Bool
is_zero_width c = in_range 8_203 8_205 c || c == 65_279 || c == 173

-- The class `\s`.
abbrev pub is_space : ℕ → Bool
is_space c =
    in_range 9 13 c
    || c == 32
    || c == 160
    || c == 5_760
    || in_range 8_192 8_202 c
    || in_range 8_232 8_233 c
    || c == 8_239
    || c == 8_287
    || c == 12_288
    || c == 65_279

-- `TOKEN_SPLIT_RE`
abbrev is_separator : ℕ → Bool
is_separator c = is_space c || any (λ d. d == c) (text ",.!?;:'\"()[]{}<>/\\|@#$%^&*+=~`")

abbrev strip_zero_width : Text → Text
strip_zero_width [] = []
strip_zero_width (c ∷ s) =
    let rest = strip_zero_width s in if is_zero_width c then rest else c ∷ rest

-- `filter(Boolean)` drops the empty pieces of the split.
abbrev push_token : Text → List Text → List Text
push_token [] tokens = tokens
push_token (c ∷ w) tokens = (c ∷ w) ∷ tokens

unfoldable pub split_tokens : Text → Text → List Text
split_tokens word [] = push_token word []
split_tokens word (c ∷ s) =
    let ended = split_tokens [] s in
    let longer = split_tokens (word ++ c ∷ []) s in
    if is_separator c then push_token word ended else longer

-- The inner loop of `matchesMultiWord`.
unfoldable pub matches_at : List Text → List Text → Bool
matches_at tokens [] = true
matches_at [] (k ∷ keyword) = false
matches_at (t ∷ tokens) (k ∷ keyword) = text_eq t k && matches_at tokens keyword

abbrev pub tail : List Text → List Text
tail [] = []
tail (t ∷ tokens) = tokens

-- The outer loop, for this many starting places.
unfoldable pub scan : ℕ → List Text → List Text → Bool
unfolding matches_at
scan zero tokens keyword = false
scan (suc n) tokens keyword = matches_at tokens keyword || scan n (tail tokens) keyword

unfoldable pub matches_multi_word : List Text → List Text → Bool
unfolding scan
matches_multi_word message_tokens keyword_tokens =
    if ltb (length message_tokens) (length keyword_tokens)
    then false
    else scan (suc (length message_tokens - length keyword_tokens)) message_tokens keyword_tokens

pub record BlocklistConfig : Type 0 where
  pub enabled : Bool
  pub keywords : List Text
  pub message : Text

pub record TriggerEntry : Type 0 where
  pub keyword : Text
  pub context : Text
  pub enabled : Bool

pub record Trigger : Type 0 where
  pub keyword_tokens : List Text
  pub context : Text
  pub enabled : Bool

pub record UserHookEvaluator : Type 0 where
  pub blocklist_enabled : Bool
  pub single_keywords : List Text
  pub multi_keywords : List (List Text)
  pub block_message : Text
  pub triggers : List Trigger

abbrev message_or_undefined : Text → Option Text
message_or_undefined [] = none
message_or_undefined (c ∷ s) = some (c ∷ s)

abbrev join_contexts : List Text → Text
join_contexts [] = []
join_contexts (c ∷ []) = c
join_contexts (c ∷ d ∷ cs) = c ++ 10 ∷ 10 ∷ join_contexts (d ∷ cs)

-- One round of the loop over the keywords, by the keyword's tokens.
abbrev pub add_keyword : List Text → List Text × List (List Text) → List Text × List (List Text)
add_keyword [] (single, multi) = (single, multi)
add_keyword (t ∷ []) (single, multi) = (add t single, multi)
add_keyword (t ∷ u ∷ ts) (single, multi) = (single, multi ++ (t ∷ u ∷ ts) ∷ [])

abbrev pub trigger_matches : List Text → List Text → Bool
trigger_matches tokens [] = false
trigger_matches tokens (t ∷ []) = contains tokens t
trigger_matches tokens (t ∷ u ∷ ts) = matches_multi_word tokens (t ∷ u ∷ ts)

-- The loop over the triggers, with the contexts collected, which are also those seen.
unfoldable pub collect : List Text → List Text → List Trigger → List Text
unfolding matches_multi_word
collect tokens contexts [] = contexts
collect tokens contexts (t ∷ ts) =
    let found = collect tokens (contexts ++ t.context ∷ []) ts in
    let rest = collect tokens contexts ts in
    if t.enabled && trigger_matches tokens t.keyword_tokens && not (contains contexts t.context)
    then found
    else rest

-- The tests of the blocklist on a message's tokens.
abbrev pub is_hit : List Text × List (List Text) → List Text → Bool
is_hit (single, multi) tokens =
    any (contains single) tokens || any (matches_multi_word tokens) multi

module _ (fold : Text → Text) where
  unfoldable pub tokenize : Text → List Text
  unfolding split_tokens
  tokenize s = split_tokens [] (strip_zero_width (fold s))

  unfoldable pub add_keywords :
      List Text × List (List Text) → List Text → List Text × List (List Text)
  unfolding tokenize
  add_keywords s [] = s
  add_keywords s (kw ∷ kws) = add_keywords (add_keyword (tokenize kw) s) kws

  abbrev load_trigger : TriggerEntry → Trigger
  load_trigger t = record {
    keyword_tokens = tokenize t.keyword;
    context = t.context;
    enabled = t.enabled;
  }

  unfoldable pub reload : BlocklistConfig → List TriggerEntry → UserHookEvaluator
  unfolding add_keywords tokenize
  reload blocklist triggers =
      let keywords = add_keywords ([], []) blocklist.keywords in
      record {
        blocklist_enabled = blocklist.enabled;
        single_keywords = keywords.0;
        multi_keywords = keywords.1;
        block_message = blocklist.message;
        triggers = map load_trigger triggers;
      }

  unfoldable pub evaluate : UserHookEvaluator → Text → UserHookResult
  unfolding tokenize collect
  evaluate h s =
      let tokens = tokenize s in
      if h.blocklist_enabled && is_hit (h.single_keywords, h.multi_keywords) tokens
      then record {
        blocked = true;
        block_message = message_or_undefined h.block_message;
        additional_context = [];
      }
      else record {
        blocked = false;
        block_message = none;
        additional_context = join_contexts (collect tokens [] h.triggers);
      }
