-- ===== src/Memory/PendingHistory/Bounds.antt =====
-- How many messages wait.
use anonka.Prelude.{
  ℕ, suc, ◌+◌, ◌-◌, ◌≤◌, ◌≡◌, refl, ◌∙◌, List, [], ◌∷◌, ◌++◌, none, some, Text, text_eq, leb,
  length, length-append, length-drop, arith, Bool-cases, inl, inr,
}
use anonka.Prelude.Dicts.{Dict, lookup, delete, lookup-insert, lookup-delete}
use anonka.Memory.PendingHistory.{
  PendingMessage, PendingHistory, new_history, messages_of, filter_fresh, make_room, add_message,
  clear_pending, get_pending_count, get_and_clear_pending, forget, pending_history_max_per_chat,
}

length-make_room :
    (ms : List PendingMessage) → suc (length (make_room ms)) ≤ pending_history_max_per_chat
length-make_room ms = elim (Bool-cases (leb pending_history_max_per_chat (length ms))) [
  | inl full ↦
      rw full (omega (arith, length-drop (length ms - pending_history_max_per_chat + 1) ms))
  | inr free ↦ rw free (ground arith)
]

-- The calls on a history.
pub data HistoryCall : Type 0 where
  adds : (chat_id : Text) (message : PendingMessage) (now : ℕ) → HistoryCall
  gets clears : (chat_id : Text) → HistoryCall

module _ (sanitize : Text → Text) where
  abbrev pub step : PendingHistory → HistoryCall → PendingHistory
  step h (adds chat_id message now) = add_message h chat_id message now
  step h (gets chat_id) = (get_and_clear_pending sanitize h chat_id).0
  step h (clears chat_id) = clear_pending h chat_id

  unfoldable pub run : PendingHistory → List HistoryCall → PendingHistory
  unfolding add_message get_and_clear_pending clear_pending
  run h [] = h
  run h (c ∷ cs) = run (step h c) cs

  abbrev count : PendingHistory → Text → ℕ
  count h k = length (messages_of (lookup k h.pending_messages))

  add_count :
      (h : PendingHistory) (chat_id k : Text) (message : PendingMessage) (now : ℕ)
      → count h k ≤ pending_history_max_per_chat
      → count (add_message h chat_id message now) k ≤ pending_history_max_per_chat
  unfolding add_message
  add_count h chat_id k message now le =
      let fresh = filter_fresh now (messages_of (lookup chat_id h.pending_messages)) in
      let found = lookup-insert chat_id k (make_room fresh ++ message ∷ []) h.pending_messages in
      elim (Bool-cases (text_eq chat_id k)) [
        | inl same ↦
            let here : lookup k (add_message h chat_id message now).pending_messages
                ≡ some (make_room fresh ++ message ∷ []) =
              found ∙ rw same refl in
            rw here (
              omega (arith, length-append (make_room fresh) (message ∷ []), length-make_room fresh))
        | inr other ↦
            let there : lookup k (add_message h chat_id message now).pending_messages
                ≡ lookup k h.pending_messages =
              found ∙ rw other refl in
            rw there le
      ]

  delete_count :
      (m : Dict (List PendingMessage)) (chat_id k : Text)
      → length (messages_of (lookup k (delete chat_id m))) ≤ length (messages_of (lookup k m))
  delete_count m chat_id k = elim (Bool-cases (text_eq chat_id k)) [
    | inl same ↦
        let gone : lookup k (delete chat_id m) ≡ none = lookup-delete chat_id k m ∙ rw same refl in
        rw gone (omega arith)
    | inr other ↦
        let kept : lookup k (delete chat_id m) ≡ lookup k m =
          lookup-delete chat_id k m ∙ rw other refl in
        rw kept (omega arith)
  ]

  count-forget :
      (h : PendingHistory) (chat_id k : Text) (ms : List PendingMessage)
      → count (forget sanitize h chat_id ms) k ≤ count h k
  count-forget h chat_id k [] = omega arith
  count-forget h chat_id k (m ∷ ms) = delete_count h.pending_messages chat_id k

  count-step :
      (h : PendingHistory) (c : HistoryCall) (k : Text)
      → count h k ≤ pending_history_max_per_chat
      → count (step h c) k ≤ pending_history_max_per_chat
  unfolding get_and_clear_pending clear_pending
  count-step h (adds chat_id message now) k le = add_count h chat_id k message now le
  count-step h (gets chat_id) k le =
      omega (arith, le, count-forget h chat_id k (messages_of (lookup chat_id h.pending_messages)))
  count-step h (clears chat_id) k le = omega (arith, le, delete_count h.pending_messages chat_id k)

  count-run :
      (cs : List HistoryCall) (h : PendingHistory) (k : Text)
      → count h k ≤ pending_history_max_per_chat
      → count (run h cs) k ≤ pending_history_max_per_chat
  unfolding run
  count-run [] h k le = le
  count-run (c ∷ cs) h k le = count-run cs (step h c) k (count-step h c k le)

  -- Whatever is called on a new history, no chat ever has more pending messages than the limit.
  pub get_pending_count-run :
      (cs : List HistoryCall) (chat_id : Text)
      → get_pending_count (run new_history cs) chat_id ≤ pending_history_max_per_chat
  unfolding get_pending_count new_history lookup
  get_pending_count-run cs chat_id = count-run cs new_history chat_id (omega arith)
