-- ===== src/Telegram/Flood.antt =====
-- src/telegram/flood-retry.ts: the cooldowns per chat, and the retry loop. Each entry of the gate has
-- one live decay timer, since the timer of an entry that is replaced or evicted is cleared; a timer
-- that fires is the call `decay` on its chat. The loop gives the list of its actions, with its result.
pub mod Gate
pub mod Retry
pub mod Tests
use anonka.Prelude.{
  ℕ, zero, suc, ◌+◌, ◌-◌, ◌*◌, ◌/◌, Bool, true, false, not, ◌&&◌, ◌||◌, List, [], ◌∷◌, ◌++◌, Option,
  none, some, Text, text, text_eq, if◌then◌else◌, ◌==◌, leb, ltb, length,
}
use anonka.Prelude.Decimal.{is_digit}
use anonka.Prelude.Dicts.{Dict, lookup, insert, delete}

abbrev pub min_cooldown_ms : ℕ
min_cooldown_ms = 1_000

abbrev pub max_tracked_chats : ℕ
max_tracked_chats = 1_000

pub record CooldownEntry : Type 0 where
  pub next_send_at : ℕ
  pub cooldown_ms : ℕ

abbrev pub FloodGate : Type 0
FloodGate = Dict CooldownEntry

abbrev pub remaining_of : ℕ → Option CooldownEntry → ℕ
remaining_of now none = 0
remaining_of now (some entry) = entry.next_send_at - now

-- How long `waitFor` waits, in milliseconds.
unfoldable pub wait_for : FloodGate → Text → ℕ → ℕ
wait_for g chat_id now = remaining_of now (lookup chat_id g)

-- The eviction of the oldest entry, if there are too many.
abbrev pub evict : Text → FloodGate → FloodGate
evict chat_id [] = []
evict chat_id ((oldest, entry) ∷ g) =
    if ltb max_tracked_chats (length ((oldest, entry) ∷ g)) && not (text_eq oldest chat_id)
    then delete oldest ((oldest, entry) ∷ g)
    else (oldest, entry) ∷ g

unfoldable pub record_flood : FloodGate → Text → ℕ → ℕ → FloodGate
record_flood g chat_id wait_seconds now =
    let cooldown_ms = wait_seconds * 1_000 in
    evict chat_id
      (insert chat_id (record { next_send_at = now + cooldown_ms; cooldown_ms = cooldown_ms }) g)

unfoldable pub record_success : FloodGate → Text → ℕ → FloodGate
record_success g chat_id now = elim (lookup chat_id g) [
  | none ↦ g
  | some entry ↦
      if ltb now entry.next_send_at
      then g
      else insert chat_id (record entry { next_send_at = now + entry.cooldown_ms }) g
]

-- The decay timer of the chat's entry fires.
unfoldable pub decay : FloodGate → Text → FloodGate
decay g chat_id = elim (lookup chat_id g) [
  | none ↦ g
  | some entry ↦
      let halved = entry.cooldown_ms / 2 in
      if ltb halved min_cooldown_ms
      then delete chat_id g
      else insert chat_id (record entry { cooldown_ms = halved }) g
]

-- What the loop reads of an error.
pub record ApiError : Type 0 where
  pub seconds : Option ℕ
  pub error_code : Option ℕ
  pub description : Option Text

abbrev lower : ℕ → ℕ
lower c = if leb b'A' c && leb c b'Z' then c + 32 else c

-- The rest of a text after a prefix, whatever its case.
unfoldable pub after_prefix : Text → Text → Option Text
after_prefix [] s = some s
after_prefix (d ∷ p) [] = none
after_prefix (d ∷ p) (c ∷ s) = let rest = after_prefix p s in if lower c == d then rest else none

-- The number that the digits at the beginning of the text continue.
unfoldable pub digits_value : ℕ → Text → ℕ
digits_value n [] = n
digits_value n (c ∷ s) =
    let rest = digits_value (n * 10 + (c - b'0')) s in if is_digit c then rest else n

abbrev pub leading_number : Option Text → Option ℕ
leading_number none = none
leading_number (some []) = none
leading_number (some (c ∷ s)) = if is_digit c then some (digits_value 0 (c ∷ s)) else none

-- `description.match(/retry after (\d+)/i)` and `parseInt` of its group.
unfoldable pub retry_after : Text → Option ℕ
unfolding after_prefix digits_value
retry_after [] = none
retry_after (c ∷ s) =
    let later = retry_after s in
    elim (leading_number (after_prefix (text "retry after ") (c ∷ s))) [
      | some n ↦ some n
      | none ↦ later
    ]

abbrev is_too_many : Option ℕ → Bool
is_too_many none = false
is_too_many (some code) = code == 429

abbrev described : Option Text → Option ℕ
described none = none
described (some description) = retry_after description

unfoldable pub wait_seconds_of : ApiError → Option ℕ
unfolding retry_after
wait_seconds_of error = elim error.seconds [
  | some seconds ↦ some seconds
  | none ↦ if is_too_many error.error_code then described error.description else none
]

-- What the loop does: a call of the function, what it tells the gate, and its sleep.
pub data FloodAction : Type 0 where
  calls : (attempt : ℕ) → FloodAction
  records_success : FloodAction
  records_flood : (seconds : ℕ) → FloodAction
  sleeps : (ms : ℕ) → FloodAction

pub data Outcome {ℓ} (A : Type ℓ) : Type ℓ where
  succeeds : A → Outcome A
  fails : ApiError → Outcome A

pub data RetryResult {ℓ} (A : Type ℓ) : Type ℓ where
  returned : A → RetryResult A
  thrown : ApiError → RetryResult A
  exceeds_max : (seconds : ℕ) → RetryResult A

module _ {ℓ} {A : Type ℓ} (fn : ℕ → Outcome A) (max_wait_seconds : ℕ) where
  -- The `catch` block; `rest` is what follows the sleep, if an attempt is left.
  abbrev pub failed :
      ApiError
      → Option (List FloodAction × RetryResult A)
      → Option ℕ
      → List FloodAction × RetryResult A
  failed error rest none = ([], thrown error)
  failed error rest (some seconds) =
      if ltb max_wait_seconds seconds then ([], exceeds_max seconds) else elim rest [
        | none ↦ (records_flood seconds ∷ [], thrown error)
        | some (actions, result) ↦
            (records_flood seconds ∷ sleeps (seconds * 1_000) ∷ actions, result)
      ]

  abbrev pub attempted :
      ℕ → Option (List FloodAction × RetryResult A) → Outcome A → List FloodAction × RetryResult A
  attempted attempt rest (succeeds result) = (calls attempt ∷ records_success ∷ [], returned result)
  attempted attempt rest (fails error) =
      let (actions, result) = failed error rest (wait_seconds_of error) in
      (calls attempt ∷ actions, result)

  -- The loop from an attempt on, with this many retries left.
  unfoldable pub retry_from : ℕ → ℕ → List FloodAction × RetryResult A
  unfolding wait_seconds_of
  retry_from attempt zero = attempted attempt none (fn attempt)
  retry_from attempt (suc left) =
      let rest = retry_from (suc attempt) left in attempted attempt (some rest) (fn attempt)

  unfoldable pub with_flood_retry : ℕ → List FloodAction × RetryResult A
  unfolding retry_from
  with_flood_retry max_retries = retry_from 0 max_retries
