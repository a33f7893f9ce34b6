-- ===== src/Telegram/Flood/Gate.antt =====
-- The gate: its size, its waits, and the end of every cooldown.
use anonka.Prelude.{
  ℕ, zero, suc, ◌+◌, ◌-◌, ◌*◌, ◌/◌, ◌^◌, ◌≤◌, ◌<◌, ◌≡◌, refl, ap, ◌∙◌, true, false, List, [], ◌∷◌,
  none, some, Text, text_eq, text_eq_refl, ltb, length, arith, Bool-cases, Option-cases, inl, inr,
}
use native.Mathlib.Nat.{pow-suc}
use anonka.Prelude.Dicts.{lookup, insert, delete, lookup-insert, lookup-delete}
use anonka.Telegram.Flood.{
  CooldownEntry, FloodGate, max_tracked_chats, min_cooldown_ms, evict, record_flood, record_success,
  decay, wait_for, remaining_of,
}

length-insert-some :
    (k : Text) (v w : CooldownEntry) (m : FloodGate)
    → lookup k m ≡ some w
    → length (insert k v m) ≡ length m
unfolding lookup insert
length-insert-some k v w [] h = cc
length-insert-some k v w ((j, u) ∷ m) h = ground (arith, length-insert-some k v w m)

length-insert-none :
    (k : Text) (v : CooldownEntry) (m : FloodGate)
    → lookup k m ≡ none
    → length (insert k v m) ≡ suc (length m)
unfolding lookup insert
length-insert-none k v [] h = refl
length-insert-none k v ((j, u) ∷ m) h = ground (arith, length-insert-none k v m)

length-delete : (k : Text) (m : FloodGate) → length (delete k m) ≤ length m
unfolding delete
length-delete k [] = omega arith
length-delete k ((j, u) ∷ m) = ground (arith, length-delete k m)

length-delete_head :
    (k : Text) (v : CooldownEntry) (m : FloodGate) → length (delete k ((k, v) ∷ m)) ≤ length m
unfolding delete
length-delete_head k v m = ground (arith, text_eq_refl k, length-delete k m)

evict_small : (c : Text) (m : FloodGate) → length m ≤ max_tracked_chats → evict c m ≡ m
evict_small c [] h = refl
evict_small c ((j, v) ∷ m) h =
    let small : ltb max_tracked_chats (length ((j, v) ∷ m)) ≡ false = ground arith in rw small refl

evict_full :
    (c j : Text) (v : CooldownEntry) (m : FloodGate)
    → length m ≡ max_tracked_chats
    → text_eq j c ≡ false
    → length (evict c ((j, v) ∷ m)) ≤ max_tracked_chats
evict_full c j v m full other =
    let large : ltb max_tracked_chats (length ((j, v) ∷ m)) ≡ true = ground arith in
    rw (large, other) (omega (arith, length-delete_head j v m, full))

evict-insert-none :
    (c : Text) (v : CooldownEntry) (g : FloodGate)
    → length g ≤ max_tracked_chats
    → lookup c g ≡ none
    → length (evict c (insert c v g)) ≤ max_tracked_chats
unfolding lookup insert
evict-insert-none c v [] h new = omega arith
evict-insert-none c v ((j, u) ∷ g) h new = elim (Bool-cases (text_eq j c)) [
  | inl same ↦ let bad : some u ≡ none = rw (same, lookup) at new in cc
  | inr other ↦
      let long = length-insert-none c v g (rw (other, lookup) at new) in
      elim (Bool-cases (ltb max_tracked_chats (length ((j, u) ∷ insert c v g)))) [
        | inl large ↦
            rw (other, insert)
              (evict_full c j u (insert c v g) (ground (arith, long, large, h)) other)
        | inr small ↦ rw (other, insert) (rw small (ground (arith, small)))
      ]
]

abbrev penalty : ℕ → ℕ → CooldownEntry
penalty s now = record { next_send_at = now + s * 1_000; cooldown_ms = s * 1_000 }

record_flood-length :
    (g : FloodGate) (c : Text) (s now : ℕ)
    → length g ≤ max_tracked_chats
    → length (record_flood g c s now) ≤ max_tracked_chats
unfolding record_flood
record_flood-length g c s now h = elim (Option-cases (lookup c g)) [
  | inl new ↦ evict-insert-none c _ g h new
  | inr (w, old) ↦
      let same = length-insert-some c (penalty s now) w g old in
      rw (evict_small c (insert c (penalty s now) g) (omega (arith, same, h)))
        (omega (arith, same, h))
]

record_success-length :
    (g : FloodGate) (c : Text) (now : ℕ) → length (record_success g c now) ≤ length g
unfolding record_success
record_success-length g c now = elim (Option-cases (lookup c g)) [
  | inl gone ↦ rw (gone, record_success) (omega arith)
  | inr (w, old) ↦ elim (Bool-cases (ltb now w.next_send_at)) [
    | inl early ↦ rw (old, record_success) (rw early (omega arith))
    | inr late ↦
        rw (old, record_success)
          (rw late (
            omega (
              arith,
              length-insert-some c (record w { next_send_at = now + w.cooldown_ms }) w g old,
            )))
  ]
]

decay-length : (g : FloodGate) (c : Text) → length (decay g c) ≤ length g
unfolding decay
decay-length g c = elim (Option-cases (lookup c g)) [
  | inl gone ↦ rw (gone, decay) (omega arith)
  | inr (w, old) ↦ elim (Bool-cases (ltb (w.cooldown_ms / 2) min_cooldown_ms)) [
    | inl small ↦ rw (old, decay) (rw small (length-delete c g))
    | inr large ↦
        rw (old, decay)
          (rw large (
            omega
              (arith, length-insert-some c (record w { cooldown_ms = w.cooldown_ms / 2 }) w g old)))
  ]
]

-- The calls on the gate, each with its time.
pub data GateCall : Type 0 where
  floods : (chat_id : Text) (wait_seconds now : ℕ) → GateCall
  sends : (chat_id : Text) (now : ℕ) → GateCall
  decays : (chat_id : Text) → GateCall

abbrev pub step : FloodGate → GateCall → FloodGate
step g (floods c s now) = record_flood g c s now
step g (sends c now) = record_success g c now
step g (decays c) = decay g c

unfoldable pub run : FloodGate → List GateCall → FloodGate
unfolding record_flood record_success decay
run g [] = g
run g (c ∷ cs) = run (step g c) cs

step-length :
    (g : FloodGate) (c : GateCall)
    → length g ≤ max_tracked_chats
    → length (step g c) ≤ max_tracked_chats
step-length g (floods c s now) h = record_flood-length g c s now h
step-length g (sends c now) h = omega (arith, h, record_success-length g c now)
step-length g (decays c) h = omega (arith, h, decay-length g c)

-- The gate never tracks more chats than its limit, whatever is called on it in any order: the one
-- entry that is evicted when a new chat joins is enough.
pub run-length :
    (cs : List GateCall) (g : FloodGate)
    → length g ≤ max_tracked_chats
    → length (run g cs) ≤ max_tracked_chats
unfolding run
run-length [] g h = h
run-length (c ∷ cs) g h = run-length cs (step g c) (step-length g c h)

lookup-evict : (c : Text) (m : FloodGate) → lookup c (evict c m) ≡ lookup c m
unfolding lookup
lookup-evict c [] = refl
lookup-evict c ((j, v) ∷ m) = elim (Bool-cases (ltb max_tracked_chats (length ((j, v) ∷ m)))) [
  | inl large ↦ elim (Bool-cases (text_eq j c)) [
    | inl same ↦
        let stays : evict c ((j, v) ∷ m) ≡ (j, v) ∷ m = rw (large, same) refl in ap (lookup c) stays
    | inr other ↦ rw (large, other) (lookup-delete j c ((j, v) ∷ m) ∙ rw other refl)
  ]
  | inr small ↦ rw small refl
]

-- After a flood error that asked for some seconds, a send to that chat waits until exactly these
-- seconds have passed, whatever was recorded before and whether or not another chat was evicted.
pub wait_for-record_flood :
    (g : FloodGate) (c : Text) (s now later : ℕ)
    → wait_for (record_flood g c s now) c later ≡ now + s * 1_000 - later
unfolding wait_for record_flood
wait_for-record_flood g c s now later =
    ap (remaining_of later) (lookup-evict c _ ∙ lookup-insert c c (penalty s now) g)
    ∙ rw (text_eq_refl c) refl

unfoldable pub decay_times : ℕ → FloodGate → Text → FloodGate
unfolding decay
decay_times zero g c = g
decay_times (suc n) g c = decay_times n (decay g c) c

decay_times-none :
    (n : ℕ) (g : FloodGate) (c : Text) → lookup c g ≡ none → lookup c (decay_times n g c) ≡ none
unfolding decay_times
decay_times-none zero g c h = h
decay_times-none (suc n) g c h = decay_times-none n (decay g c) c (rw (h, decay) h)

module _ (g : FloodGate) (c : Text) (entry : CooldownEntry) (held : lookup c g ≡ some entry) where
  decay_clears : ltb (entry.cooldown_ms / 2) min_cooldown_ms ≡ true → lookup c (decay g c) ≡ none
  unfolding decay
  decay_clears below = rw (held, decay) (rw below (lookup-delete c c g ∙ rw (text_eq_refl c) refl))

  decay_halves :
      ltb (entry.cooldown_ms / 2) min_cooldown_ms ≡ false
      → lookup c (decay g c) ≡ some (record entry { cooldown_ms = entry.cooldown_ms / 2 })
  unfolding decay
  decay_halves above =
      rw (held, decay)
        (rw above (
          lookup-insert c c (record entry { cooldown_ms = entry.cooldown_ms / 2 }) g
          ∙ rw (text_eq_refl c) refl))

-- Every cooldown ends: a cooldown below 1000 * 2^(n+1) milliseconds is cleared after n+1 ticks of its
-- decay timer, if nothing is recorded for the chat meanwhile.
pub decay_times_clears :
    (n : ℕ) (g : FloodGate) (c : Text) (entry : CooldownEntry)
    → lookup c g ≡ some entry
    → entry.cooldown_ms < 1_000 * 2 ^ suc n
    → lookup c (decay_times (suc n) g c) ≡ none
unfolding decay_times
decay_times_clears zero g c entry h small = decay_clears g c entry h (ground arith)
decay_times_clears (suc n) g c entry h small =
    elim (Bool-cases (ltb (entry.cooldown_ms / 2) min_cooldown_ms)) [
      | inl below ↦ decay_times-none (suc n) (decay g c) c (decay_clears g c entry h below)
      | inr above ↦
          decay_times_clears n (decay g c) c (record entry { cooldown_ms = entry.cooldown_ms / 2 })
            (decay_halves g c entry h above) (omega (arith, small, pow-suc 2 (suc n)))
    ]
