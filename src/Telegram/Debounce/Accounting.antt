-- ===== src/Telegram/Debounce/Accounting.antt =====
-- Where every message is: none is doubled, and the exact case in which messages are lost.
use anonka.Prelude.{
  ℕ, zero, suc, ◌+◌, ◌≡◌, refl, ap, sym, ◌∙◌, Bool, ◌&&◌, List, [], ◌∷◌, ◌++◌, Option, none, some,
  Text, arith, leb, ltb, length, Bool-cases, Option-cases, inl, inr,
}
use anonka.Prelude.Dicts.{
  Dict, lookup, delete, Unique, insert-Unique, delete-Unique, sum_values, value_or_zero,
  sum_values-insert, sum_values-delete,
}
use anonka.Telegram.Debounce.{
  Message, Buffer, Config, Continuation, process_alone, start_buffer, Debouncer, process_messages,
  reset_timer, reset_all, update_debounce_ms, flush_messages, flush_found, flush_key, new_buffer,
  enqueue_buffered, is_some, enqueue, rescaled, continue, pick, resume, Event, arrives, fires,
  resumes, updates, step, run,
}
use anonka.Telegram.Debounce.Sorting.{tally, tally-append, tally-sort}

module _ (p : Message → Bool) where
  abbrev pub in_buffer : Buffer → ℕ
  in_buffer b = tally p b.messages

  abbrev pub in_continuation : Continuation → ℕ
  in_continuation (process_alone m) = tally p (m ∷ [])
  in_continuation (start_buffer key m) = tally p (m ∷ [])

  abbrev pub in_waiting : List Continuation → ℕ
  in_waiting [] = 0
  in_waiting (c ∷ cs) = in_continuation c + in_waiting cs

  abbrev pub in_flushed : List (List Message) → ℕ
  in_flushed [] = 0
  in_flushed (b ∷ bs) = tally p b + in_flushed bs

  -- The messages that satisfy the test: buffered, waiting in a suspended call, and handed over.
  abbrev pub total : Debouncer → ℕ
  total d = sum_values in_buffer d.buffers + in_waiting d.waiting + in_flushed d.flushed

  total-process_messages :
      (d : Debouncer) (ms : List Message) → total (process_messages d ms) ≡ total d + tally p ms
  unfolding process_messages
  total-process_messages d ms = omega (arith, tally-sort p ms)

  total-flush_messages :
      (d : Debouncer) (ms : List Message) → total (flush_messages d ms) ≡ total d + tally p ms
  total-flush_messages d [] = omega arith
  total-flush_messages d (m ∷ ms) = total-process_messages d (m ∷ ms)

  total-flush_found :
      (d : Debouncer) (key : Text) (o : Option Buffer)
      → Unique d.buffers
      → lookup key d.buffers ≡ o
      → total (flush_found d key o) ≡ total d
  total-flush_found d key none u h = refl
  total-flush_found d key (some b) u h =
      let taken : sum_values in_buffer (delete key d.buffers) + tally p b.messages
          ≡ sum_values in_buffer d.buffers =
        ap (λ o. sum_values in_buffer (delete key d.buffers) + value_or_zero in_buffer o) (sym h)
        ∙ sum_values-delete in_buffer key d.buffers u in
      total-flush_messages (record d { buffers = delete key d.buffers }) b.messages ∙ omega arith

  total-flush_key :
      (d : Debouncer) (key : Text) → Unique d.buffers → total (flush_key d key) ≡ total d
  unfolding flush_key
  total-flush_key d key u = total-flush_found d key _ u refl

  total-enqueue_buffered :
      (d : Debouncer) (m : Message) (now : ℕ) (o : Option Buffer)
      → Unique d.buffers
      → lookup m.chat_id d.buffers ≡ o
      → total (enqueue_buffered d m now o) ≡ total d + tally p (m ∷ [])
  unfolding enqueue_buffered reset_timer
  total-enqueue_buffered d m now none u h =
      let put = sum_values-insert in_buffer m.chat_id (new_buffer d.config now m) d.buffers in
      omega (arith, put, ap (value_or_zero in_buffer) h)
  total-enqueue_buffered d m now (some b) u h =
      elim (Bool-cases (leb d.config.max_buffer_size (length b.messages))) [
        | inl full ↦ rw full (omega (arith, total-flush_key d m.chat_id u))
        | inr fits ↦
            let grown = reset_timer d.config now (record b { messages = b.messages ++ m ∷ [] }) in
            let put = sum_values-insert in_buffer m.chat_id grown d.buffers in
            rw fits (
              omega
                (arith, put, ap (value_or_zero in_buffer) h, tally-append p b.messages (m ∷ [])))
      ]

  total-enqueue :
      (d : Debouncer) (should_debounce : Bool) (m : Message) (now : ℕ)
      → Unique d.buffers
      → total (enqueue d should_debounce m now) ≡ total d + tally p (m ∷ [])
  unfolding enqueue
  total-enqueue d should_debounce m now u =
      elim (Bool-cases (ltb 0 d.config.debounce_ms && should_debounce)) [
        | inl buffered ↦ rw buffered (total-enqueue_buffered d m now _ u refl)
        | inr direct ↦ elim (Bool-cases (is_some (lookup m.chat_id d.buffers))) [
          | inl pending ↦ rw direct (rw pending (omega (arith, total-flush_key d m.chat_id u)))
          | inr free ↦ rw direct (rw free (total-process_messages d (m ∷ [])))
        ]
      ]

  -- What a resumption overwrites: the buffer that its chat has got in the meantime.
  abbrev pub overwritten : Debouncer → Continuation → ℕ
  overwritten d (process_alone m) = 0
  overwritten d (start_buffer key m) = value_or_zero in_buffer (lookup key d.buffers)

  total-continue :
      (d : Debouncer) (c : Continuation) (now : ℕ)
      → total (continue d c now) + overwritten d c ≡ total d + in_continuation c
  unfolding continue reset_timer
  total-continue d (process_alone m) now = omega (arith, total-process_messages d (m ∷ []))
  total-continue d (start_buffer key m) now =
      omega (arith, sum_values-insert in_buffer key (new_buffer d.config now m) d.buffers)

  in_waiting-pick :
      (n : ℕ) (cs : List Continuation) (c : Continuation) (rest : List Continuation)
      → pick n cs ≡ some (c, rest)
      → in_waiting cs ≡ in_continuation c + in_waiting rest
  unfolding pick
  in_waiting-pick n [] c rest h = cc
  in_waiting-pick zero (x ∷ xs) c rest h = ground arith
  in_waiting-pick (suc n) (x ∷ xs) c rest h = elim (Option-cases (pick n xs)) [
    | inl gone ↦ let e : none ≡ some (c, rest) = rw (gone, pick) at h in cc
    | inr ((d, ds), is) ↦
        let e : some (d, x ∷ ds) ≡ some (c, rest) = rw (is, pick) at h in
        ground (arith, in_waiting-pick n xs d ds is)
  ]

  total-reset_all :
      (c : Config) (now : ℕ) (m : Dict Buffer)
      → sum_values in_buffer (reset_all c now m) ≡ sum_values in_buffer m
  unfolding reset_all sum_values
  total-reset_all c now [] = refl
  total-reset_all c now ((k, b) ∷ m) = omega (arith, total-reset_all c now m)

  abbrev pub overwritten_by : Debouncer → Option (Continuation × List Continuation) → ℕ
  overwritten_by d none = 0
  overwritten_by d (some (c, rest)) = overwritten d c

  -- What an event brings in, and what it loses.
  abbrev pub arrived : Event → ℕ
  arrived (arrives should_debounce m) = tally p (m ∷ [])
  arrived _ = 0

  abbrev pub lost : Debouncer → Event → ℕ
  lost d (resumes place) = overwritten_by d (pick place d.waiting)
  lost d _ = 0

  overwritten_waiting :
      (d : Debouncer) (rest : List Continuation) (c : Continuation)
      → overwritten (record d { waiting = rest }) c ≡ overwritten d c
  overwritten_waiting d rest (process_alone m) = refl
  overwritten_waiting d rest (start_buffer key m) = refl

  pub total-resume :
      (d : Debouncer) (place now : ℕ)
      → total (resume d place now) + lost d (resumes place) ≡ total d
  unfolding resume
  total-resume d place now = elim (Option-cases (pick place d.waiting)) [
    | inl gone ↦ rw (gone, resume) (omega arith)
    | inr ((c, rest), picked) ↦
        rw (picked, resume)
          (omega (
            arith,
            total-continue (record d { waiting = rest }) c now,
            in_waiting-pick place d.waiting c rest picked,
            overwritten_waiting d rest c,
          ))
  ]

  total-step :
      (d : Debouncer) (now : ℕ) (e : Event)
      → Unique d.buffers
      → total (step d (now, e)) + lost d e ≡ total d + arrived e
  unfolding step update_debounce_ms
  total-step d now (arrives should_debounce m) u =
      omega (arith, total-enqueue d should_debounce m now u)
  total-step d now (fires key) u = omega (arith, total-flush_key d key u)
  total-step d now (resumes place) u = omega (arith, total-resume d place now)
  total-step d now (updates ms) u =
      omega (arith, total-reset_all (rescaled d.config ms) now d.buffers)

reset_all-lookup :
    (c : Config) (now : ℕ) (m : Dict Buffer) (k : Text)
    → lookup k m ≡ none
    → lookup k (reset_all c now m) ≡ none
unfolding reset_all lookup
reset_all-lookup c now [] k h = refl
reset_all-lookup c now ((j, b) ∷ m) k h = ground (arith, reset_all-lookup c now m k)

reset_all-Unique : (c : Config) (now : ℕ) (m : Dict Buffer) → Unique m → Unique (reset_all c now m)
unfolding reset_all
reset_all-Unique c now [] u = tt
reset_all-Unique c now ((k, b) ∷ m) (free, u) =
    (reset_all-lookup c now m k free, reset_all-Unique c now m u)

pub flush_messages-buffers :
    (d : Debouncer) (ms : List Message) → (flush_messages d ms).buffers ≡ d.buffers
unfolding process_messages
flush_messages-buffers d [] = refl
flush_messages-buffers d (m ∷ ms) = refl

flush_key-Unique :
    (d : Debouncer) (key : Text) → Unique d.buffers → Unique (flush_key d key).buffers
unfolding flush_key
flush_key-Unique d key u = elim (Option-cases (lookup key d.buffers)) [
  | inl gone ↦ rw (gone, flush_found) u
  | inr (b, found) ↦
      rw (found, flush_found)
        (rw (flush_messages-buffers (record d { buffers = delete key d.buffers }) b.messages)
          (delete-Unique key d.buffers u))
]

enqueue_buffered-Unique :
    (d : Debouncer) (m : Message) (now : ℕ) (o : Option Buffer)
    → Unique d.buffers
    → Unique (enqueue_buffered d m now o).buffers
unfolding enqueue_buffered
enqueue_buffered-Unique d m now none u = insert-Unique m.chat_id _ d.buffers u
enqueue_buffered-Unique d m now (some b) u =
    elim (Bool-cases (leb d.config.max_buffer_size (length b.messages))) [
      | inl full ↦ rw full (flush_key-Unique d m.chat_id u)
      | inr fits ↦ rw fits (insert-Unique m.chat_id _ d.buffers u)
    ]

enqueue-Unique :
    (d : Debouncer) (should_debounce : Bool) (m : Message) (now : ℕ)
    → Unique d.buffers
    → Unique (enqueue d should_debounce m now).buffers
unfolding enqueue process_messages
enqueue-Unique d should_debounce m now u =
    elim (Bool-cases (ltb 0 d.config.debounce_ms && should_debounce)) [
      | inl buffered ↦ rw buffered (enqueue_buffered-Unique d m now _ u)
      | inr direct ↦ elim (Bool-cases (is_some (lookup m.chat_id d.buffers))) [
        | inl pending ↦ rw direct (rw pending (flush_key-Unique d m.chat_id u))
        | inr free ↦ rw direct (rw free u)
      ]
    ]

continue-Unique :
    (d : Debouncer) (c : Continuation) (now : ℕ)
    → Unique d.buffers
    → Unique (continue d c now).buffers
unfolding continue
continue-Unique d (process_alone m) now u = u
continue-Unique d (start_buffer key m) now u = insert-Unique key _ d.buffers u

pub step-Unique : (d : Debouncer) (e : ℕ × Event) → Unique d.buffers → Unique (step d e).buffers
unfolding step resume update_debounce_ms
step-Unique d (now, arrives should_debounce m) u = enqueue-Unique d should_debounce m now u
step-Unique d (now, fires key) u = flush_key-Unique d key u
step-Unique d (now, updates ms) u = reset_all-Unique (rescaled d.config ms) now d.buffers u
step-Unique d (now, resumes place) u = elim (Option-cases (pick place d.waiting)) [
  | inl gone ↦ rw (gone, resume) u
  | inr ((c, rest), picked) ↦
      rw (picked, resume) (continue-Unique (record d { waiting = rest }) c now u)
]

-- What a run brings in, and what it loses.
abbrev pub arrived_in : (Message → Bool) → List (ℕ × Event) → ℕ
arrived_in p [] = 0
arrived_in p ((now, e) ∷ es) = arrived p e + arrived_in p es

abbrev pub lost_in : (Message → Bool) → Debouncer → List (ℕ × Event) → ℕ
lost_in p d [] = 0
lost_in p d ((now, e) ∷ es) = lost p d e + lost_in p (step d (now, e)) es

-- Over any run, and for any test on messages, the messages that arrived are exactly those that are
-- buffered, wait in a suspended call, or were handed over, and those of the buffers that a resumed
-- `enqueue` overwrote: nothing is doubled, and nothing is lost in any other way.
pub total-run :
    (p : Message → Bool) (d : Debouncer) (es : List (ℕ × Event))
    → Unique d.buffers
    → total p (run d es) + lost_in p d es ≡ total p d + arrived_in p es
unfolding run
total-run p d [] u = omega arith
total-run p d ((now, e) ∷ es) u =
    omega
      (arith, total-step p d now e u, total-run p (step d (now, e)) es (step-Unique d (now, e) u))
