-- ===== src/Telegram/Debounce/Overwriting.antt =====
-- How a resumed `enqueue` overwrites the buffer that its chat has got during the flush.
use anonka.Prelude.{
  ℕ, ◌+◌, ◌<◌, ◌≤◌, ◌≡◌, refl, ap, sym, ◌∙◌, Bool, true, ◌&&◌, List, [], ◌∷◌, Option, none, some,
  Text, text_eq_refl, arith, leb, ltb, length,
}
use anonka.Prelude.Dicts.{Dict, lookup, delete, Unique, lookup-insert, lookup-delete, value_or_zero}
use anonka.Telegram.Debounce.{
  Message, Buffer, Continuation, start_buffer, Debouncer, process_messages, flush_messages,
  flush_found, flush_key, new_buffer, enqueue_buffered, enqueue, pick, arrives, resumes, step, run,
}
use anonka.Telegram.Debounce.Sorting.{tally}
use anonka.Telegram.Debounce.Accounting.{
  total, in_buffer, overwritten_by, lost, total-run, flush_messages-buffers,
}

flush_messages-waiting :
    (d : Debouncer) (ms : List Message) → (flush_messages d ms).waiting ≡ d.waiting
unfolding process_messages
flush_messages-waiting d [] = refl
flush_messages-waiting d (m ∷ ms) = refl

flush_messages-config :
    (d : Debouncer) (ms : List Message) → (flush_messages d ms).config ≡ d.config
unfolding process_messages
flush_messages-config d [] = refl
flush_messages-config d (m ∷ ms) = refl

flush_key-lookup :
    (d : Debouncer) (key : Text) (o : Option Buffer)
    → lookup key d.buffers ≡ o
    → lookup key (flush_found d key o).buffers ≡ none
flush_key-lookup d key none h = h
flush_key-lookup d key (some b) h =
    ap (λ (m : Dict Buffer). lookup key m)
      (flush_messages-buffers (record d { buffers = delete key d.buffers }) b.messages)
    ∙ ground (arith, lookup-delete key key d.buffers, text_eq_refl key)

flush_found-config :
    (d : Debouncer) (key : Text) (o : Option Buffer) → (flush_found d key o).config ≡ d.config
flush_found-config d key none = refl
flush_found-config d key (some b) =
    flush_messages-config (record d { buffers = delete key d.buffers }) b.messages

-- A message that finds its chat's buffer full suspends, and leaves its chat without a buffer.
enqueue_full :
    (d : Debouncer) (m : Message) (now : ℕ) (b : Buffer)
    → 0 < d.config.debounce_ms
    → lookup m.chat_id d.buffers ≡ some b
    → d.config.max_buffer_size ≤ length b.messages
    → let e = enqueue d true m now in
      ((rest : List Continuation) × (e.waiting ≡ start_buffer m.chat_id m ∷ rest))
      × (lookup m.chat_id e.buffers ≡ none)
      × (e.config ≡ d.config)
unfolding enqueue enqueue_buffered flush_key
enqueue_full d m now b positive held full =
    let on : (ltb 0 d.config.debounce_ms && true) ≡ true = ground arith in
    let at : leb d.config.max_buffer_size (length b.messages) ≡ true = ground arith in
    rw on (
      rw (held, enqueue_buffered)
        (rw at (
          (_, refl),
          flush_key-lookup d m.chat_id (lookup m.chat_id d.buffers) refl,
          flush_found-config d m.chat_id (lookup m.chat_id d.buffers),
        )))

-- A message that finds no buffer starts one, and suspends nothing.
enqueue_free :
    (d : Debouncer) (m : Message) (now : ℕ)
    → 0 < d.config.debounce_ms
    → lookup m.chat_id d.buffers ≡ none
    → let e = enqueue d true m now in
      (e.waiting ≡ d.waiting) × (lookup m.chat_id e.buffers ≡ some (new_buffer d.config now m))
unfolding enqueue enqueue_buffered
enqueue_free d m now positive free =
    let on : (ltb 0 d.config.debounce_ms && true) ≡ true = ground arith in
    rw on (
      rw (free, enqueue_buffered)
        (
          refl,
          ground (
            arith,
            lookup-insert m.chat_id m.chat_id (new_buffer d.config now m) d.buffers,
            text_eq_refl m.chat_id,
          ),
        ))

lost_at_head :
    (p : Message → Bool) (d : Debouncer) (key : Text) (m : Message) (b : Buffer)
    (rest : List Continuation)
    → d.waiting ≡ start_buffer key m ∷ rest
    → lookup key d.buffers ≡ some b
    → lost p d (resumes 0) ≡ tally p b.messages
unfolding pick
lost_at_head p d key m b rest waits held =
    ap (λ w. overwritten_by p d (pick 0 w)) waits ∙ ap (value_or_zero (in_buffer p)) held

-- The loss. A chat's buffer is full; a message arrives, so the buffer is flushed and the message
-- waits for that; a second message of the chat arrives meanwhile and starts a new buffer; then the
-- first call is resumed and overwrites it. Of all that was there and arrived, exactly the second
-- message is gone: it is not buffered, does not wait, and is not handed over.
pub overwritten_message_lost :
    (p : Message → Bool) (d : Debouncer) (m1 m2 : Message) (b : Buffer) (t1 t2 t3 : ℕ)
    → Unique d.buffers
    → 0 < d.config.debounce_ms
    → lookup m1.chat_id d.buffers ≡ some b
    → d.config.max_buffer_size ≤ length b.messages
    → m2.chat_id ≡ m1.chat_id
    → total p (run d ((t1, arrives true m1) ∷ (t2, arrives true m2) ∷ (t3, resumes 0) ∷ []))
        + tally p (m2 ∷ [])
      ≡ total p d + (tally p (m1 ∷ []) + tally p (m2 ∷ []))
unfolding step
overwritten_message_lost p d m1 m2 b t1 t2 t3 u positive held full same =
    let ((rest, waits), gone, config) = enqueue_full d m1 t1 b positive held full in
    let d1 = enqueue d true m1 t1 in
    let (kept, started) =
      enqueue_free d1 m2 t2 (rw config positive) (ap (λ k. lookup k d1.buffers) same ∙ gone) in
    let d2 = enqueue d1 true m2 t2 in
    let loss =
      lost_at_head p d2 m1.chat_id m1 (new_buffer d1.config t2 m2) rest (kept ∙ waits)
        (ap (λ k. lookup k d2.buffers) (sym same) ∙ started) in
    omega (
      arith,
      loss,
      total-run p d ((t1, arrives true m1) ∷ (t2, arrives true m2) ∷ (t3, resumes 0) ∷ []) u,
    )
