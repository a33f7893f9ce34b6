-- ===== src/Telegram/SendResult/Answers.antt =====
-- Which message an answer assigns to a send.
use anonka.Prelude.{
  ℕ, ◌≡◌, refl, ap, sym, ◌∙◌, ◌⊎◌, true, false, List, [], ◌∷◌, Option, none, some, inl, inr,
}
use mathlib.Core.List.{Memᴰ}
use anonka.Prelude.Int.{ℤ}
use anonka.Prelude.Dicts.{Dict, lookup, lookup-insert_cases}
use anonka.Commerce.Amount.{int_text}
use anonka.Commerce.Amount.Digits.{big_int-int_text}
use anonka.Commerce.Amount.{big_int}
use anonka.Telegram.SendResult.{
  TypeUpdate, update_message_id, update_new_message, update_new_channel_message, other_update,
  TypeUpdates, updates, updates_combined, update_short, update_short_sent_message,
  update_short_message, update_short_chat_message, updates_too_long, SentMessageResult, direct,
  set_mapping, set_mappings, mapped_result, extract_message_id_mappings,
  extract_sent_message_result,
}

int_text_injective : (a b : ℤ) → int_text a ≡ int_text b → a ≡ b
int_text_injective a b e =
    let same : some a ≡ some b = sym (big_int-int_text a) ∙ ap big_int e ∙ big_int-int_text b in cc

set_mapping_origin :
    (m : Dict ℕ) (u : TypeUpdate) (random_id : ℤ) (id : ℕ)
    → lookup (int_text random_id) (set_mapping m u) ≡ some id
    → (u ≡ update_message_id (some random_id) id) ⊎ (lookup (int_text random_id) m ≡ some id)
set_mapping_origin m (update_message_id none id') random_id id h = inr h
set_mapping_origin m (update_new_message _) random_id id h = inr h
set_mapping_origin m (update_new_channel_message _) random_id id h = inr h
set_mapping_origin m other_update random_id id h = inr h
set_mapping_origin m (update_message_id (some r) id') random_id id h =
    elim (lookup-insert_cases (int_text r) (int_text random_id) id' m h) [
      | inl (key, value) ↦
          let same = int_text_injective r random_id key in inl (rw (same, value) refl)
      | inr old ↦ inr old
    ]

set_mappings_origin :
    (us : List TypeUpdate) (m : Dict ℕ) (random_id : ℤ) (id : ℕ)
    → lookup (int_text random_id) (set_mappings m us) ≡ some id
    → Memᴰ (update_message_id (some random_id) id) us ⊎ (lookup (int_text random_id) m ≡ some id)
unfolding set_mappings
set_mappings_origin [] m random_id id h = inr h
set_mappings_origin (u ∷ us) m random_id id h =
    elim (set_mappings_origin us (set_mapping m u) random_id id h) [
      | inl later ↦ inl (Memᴰ.tail later)
      | inr before ↦ elim (set_mapping_origin m u random_id id before) [
        | inl this ↦ inl (Memᴰ.head (sym this))
        | inr old ↦ inr old
      ]
    ]

-- The updates in an answer that carries a list or a single one of them.
abbrev pub updates_of : TypeUpdates → List TypeUpdate
updates_of (updates us) = us
updates_of (updates_combined us) = us
updates_of (update_short u) = u ∷ []
updates_of _ = []

-- How an answer assigns a message to a send: it is the answer for one sent message, it is an
-- outgoing message, or it carries the update that maps this very random id to the message id.
pub data Assigned (random_id : ℤ) : TypeUpdates → ℕ → Type 0 where
  sent : (id date : ℕ) → Assigned random_id (update_short_sent_message id date) id
  out_message : (id date : ℕ) → Assigned random_id (update_short_message true id date) id
  out_chat_message : (id date : ℕ) → Assigned random_id (update_short_chat_message true id date) id
  mapped :
      (result : TypeUpdates) (id : ℕ)
      → Memᴰ (update_message_id (some random_id) id) (updates_of result)
      → Assigned random_id result id

mapped_id :
    (result : TypeUpdates) (now : ℕ) (o : Option ℕ) (r : SentMessageResult)
    → mapped_result result now o ≡ some r
    → o ≡ some r.message_id
mapped_id result now none r h = cc
mapped_id result now (some id) r h =
    ap (λ (x : Option SentMessageResult). elim x [ none ↦ some id | some y ↦ some y.message_id ]) h

same_id : (id date : ℕ) (r : SentMessageResult) → direct true id date ≡ some r → id ≡ r.message_id
same_id id date r h = cc

mappings_origin :
    (us : List TypeUpdate) (random_id : ℤ) (id : ℕ)
    → lookup (int_text random_id) (set_mappings [] us) ≡ some id
    → Memᴰ (update_message_id (some random_id) id) us
unfolding lookup
mappings_origin us random_id id h = elim (set_mappings_origin us [] random_id id h) [
  | inl m ↦ m
  | inr old ↦ let bad : none ≡ some id = old in cc
]

-- An answer never assigns a message to a send by guess: whenever a message id is found for a random
-- id, the answer carries the update that maps exactly this random id to exactly that message id,
-- or it is one of the three answers about a single outgoing message.
pub extract_sent_message_result-Assigned :
    (result : TypeUpdates) (random_id : ℤ) (now : ℕ) (r : SentMessageResult)
    → extract_sent_message_result result random_id now ≡ some r
    → Assigned random_id result r.message_id
unfolding extract_sent_message_result extract_message_id_mappings lookup
extract_sent_message_result-Assigned (updates us) random_id now r h =
    mapped (updates us) r.message_id
      (mappings_origin us random_id r.message_id (mapped_id (updates us) now _ r h))
extract_sent_message_result-Assigned (updates_combined us) random_id now r h =
    mapped (updates_combined us) r.message_id
      (mappings_origin us random_id r.message_id (mapped_id (updates_combined us) now _ r h))
extract_sent_message_result-Assigned (update_short u) random_id now r h =
    mapped (update_short u) r.message_id
      (mappings_origin (u ∷ []) random_id r.message_id (mapped_id (update_short u) now _ r h))
extract_sent_message_result-Assigned (update_short_sent_message id date) random_id now r h =
    rw (← same_id id date r h) (sent id date)
extract_sent_message_result-Assigned (update_short_message true id date) random_id now r h =
    rw (← same_id id date r h) (out_message id date)
extract_sent_message_result-Assigned (update_short_message false id date) random_id now r h = cc
extract_sent_message_result-Assigned (update_short_chat_message true id date) random_id now r h =
    rw (← same_id id date r h) (out_chat_message id date)
extract_sent_message_result-Assigned (update_short_chat_message false id date) random_id now r h =
    cc
extract_sent_message_result-Assigned updates_too_long random_id now r h = cc
