-- ===== src/Memory/PendingHistory.antt =====
-- src/memory/pending-history.ts: the messages of a chat since the agent's last reply. `sanitize` stands
-- for sanitizeForPrompt. Times are in milliseconds; an absent name and an empty one are both falsy.
pub mod Bounds
pub mod Tags
pub mod Tests
use anonka.Prelude.{
  ℕ, zero, suc, ◌+◌, ◌-◌, Bool, true, false, ◌&&◌, List, [], ◌∷◌, ◌++◌, Option, none, some, Text,
  text, text_eq, if◌then◌else◌, ◌==◌, leb, ltb, length, drop, map,
}
use anonka.Prelude.Dicts.{Dict, lookup, insert, delete}
use anonka.Prelude.Int.{ℤ}
use anonka.Commerce.Amount.{int_text}

abbrev pub pending_history_max_per_chat : ℕ
pending_history_max_per_chat = 50

abbrev pub pending_history_max_age_ms : ℕ
pending_history_max_age_ms = 86_400_000

pub record PendingMessage : Type 0 where
  pub id : ℕ
  pub sender_id : ℤ
  pub sender_name : Option Text
  pub sender_username : Option Text
  pub sender_rank : Option Text
  pub body : Text
  pub timestamp : ℕ

pub record PendingHistory : Type 0 where
  pub pending_messages : Dict (List PendingMessage)

unfoldable pub new_history : PendingHistory
new_history = record { pending_messages = [] }

abbrev pub messages_of : Option (List PendingMessage) → List PendingMessage
messages_of none = []
messages_of (some ms) = ms

-- `m.timestamp.getTime() > cutoff`, where the cutoff may be negative in the source.
abbrev pub is_fresh : ℕ → PendingMessage → Bool
is_fresh now m = ltb now (m.timestamp + pending_history_max_age_ms)

unfoldable pub filter_fresh : ℕ → List PendingMessage → List PendingMessage
filter_fresh now [] = []
filter_fresh now (m ∷ ms) =
    let rest = filter_fresh now ms in if is_fresh now m then m ∷ rest else rest

-- `splice(0, length - max + 1)`, if there are that many.
abbrev pub make_room : List PendingMessage → List PendingMessage
make_room ms =
    if leb pending_history_max_per_chat (length ms)
    then drop (length ms - pending_history_max_per_chat + 1) ms
    else ms

unfoldable pub add_message : PendingHistory → Text → PendingMessage → ℕ → PendingHistory
unfolding filter_fresh
add_message h chat_id message now =
    let fresh = filter_fresh now (messages_of (lookup chat_id h.pending_messages)) in
    record h {
      pending_messages = insert chat_id (make_room fresh ++ message ∷ []) h.pending_messages;
    }

unfoldable pub clear_pending : PendingHistory → Text → PendingHistory
clear_pending h chat_id = record h { pending_messages = delete chat_id h.pending_messages }

unfoldable pub get_pending_count : PendingHistory → Text → ℕ
get_pending_count h chat_id = length (messages_of (lookup chat_id h.pending_messages))

unfoldable pub has_pending : PendingHistory → Text → Bool
unfolding get_pending_count
has_pending h chat_id = ltb 0 (get_pending_count h chat_id)

-- How many code units the tag at the beginning of a text takes, whatever its case; 0 if there is none.
abbrev pub lower : ℕ → ℕ
lower c = if leb b'A' c && leb c b'Z' then c + 32 else c

unfoldable pub has_prefix : Text → Text → Bool
has_prefix [] s = true
has_prefix (d ∷ p) [] = false
has_prefix (d ∷ p) (c ∷ s) = lower c == d && has_prefix p s

abbrev pub tag_length : Text → ℕ
tag_length s =
    if has_prefix (text "<user_message>") s
    then 14
    else if has_prefix (text "</user_message>") s
    then 15
    else 0

-- `text.replace(/<\/?user_message>/gi, "")`; the number is what is left of a tag to be skipped.
unfoldable pub strip_tags : ℕ → Text → Text
unfolding has_prefix
strip_tags n [] = []
strip_tags (suc n) (c ∷ s) = strip_tags n s
strip_tags zero (c ∷ s) =
    let n = tag_length (c ∷ s) in
    let kept = strip_tags zero s in
    let skipped = strip_tags (n - 1) s in if n == 0 then c ∷ kept else skipped

module _ (sanitize : Text → Text) where
  abbrev truthy : Option Text → Option Text
  truthy none = none
  truthy (some []) = none
  truthy (some (c ∷ s)) = some (c ∷ s)

  abbrev label_of : Option Text → Option Text → ℤ → Text
  label_of (some name) (some username) sender_id =
      sanitize name ++ (text " (@" ++ (sanitize username ++ text ")"))
  label_of (some name) none sender_id = sanitize name
  label_of none (some username) sender_id = b'@' ∷ sanitize username
  label_of none none sender_id = text "User:" ++ int_text sender_id

  abbrev with_rank : Option Text → Text → Text
  with_rank none label = label
  with_rank (some rank) label = b'[' ∷ (sanitize rank ++ (text "] " ++ label))

  unfoldable pub render_line : PendingMessage → Text
  unfolding strip_tags
  render_line m =
      with_rank (truthy m.sender_rank)
        (label_of (truthy m.sender_name) (truthy m.sender_username) m.sender_id)
      ++ (text ": <user_message>" ++ (strip_tags 0 m.body ++ text "</user_message>"))

  abbrev pub join_lines : List Text → Text
  join_lines [] = []
  join_lines (l ∷ []) = l
  join_lines (l ∷ k ∷ ls) = l ++ 10 ∷ join_lines (k ∷ ls)

  abbrev pub rendered : List PendingMessage → Option Text
  rendered [] = none
  rendered (m ∷ ms) =
      some
        (text "[Chat messages since your last reply]" ++ 10 ∷ join_lines (map render_line (m ∷ ms)))

  abbrev pub forget : PendingHistory → Text → List PendingMessage → PendingHistory
  forget h chat_id [] = h
  forget h chat_id (m ∷ ms) = record h { pending_messages = delete chat_id h.pending_messages }

  unfoldable pub get_and_clear_pending : PendingHistory → Text → PendingHistory × Option Text
  unfolding render_line
  get_and_clear_pending h chat_id =
      let pending = messages_of (lookup chat_id h.pending_messages) in
      (forget h chat_id pending, rendered pending)
