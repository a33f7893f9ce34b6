-- ===== src/Telegram/Tracker/Invariant.antt =====
-- The two maps of the tracker agree on the heap, whatever is called.
use anonka.Prelude.{
  ℕ, suc, ◌≤◌, ◌≡◌, ◌≢◌, refl, ap, ◌∙◌, sym, true, false, List, [], ◌∷◌, Option, none, some, Text,
  text_eq, text_eq_iff, text_eq_refl, ◌==◌, arith, Bool-cases, ==_iff, Option-cases, inl, inr,
}
use anonka.Prelude.Int.{ℤ}
use anonka.Prelude.Dicts.{
  Dict, keys, lookup, insert, delete, lookup-insert, lookup-delete, lookup-insert_cases,
  lookup-delete-some,
}
use anonka.Commerce.Amount.{int_text}
use anonka.Telegram.Tracker.{
  PendingSend, PendingSendState, acknowledged, OutgoingTracker, message_key, new_tracker, deref,
  find, peek, put, reserve, new_record, change, start_sending, set_in_flight, chat_mismatch, bind,
  acknowledge_bound, acknowledge_found, acknowledge, observe_state, observe, unbind, remove,
  mark_definite_failure, fail_ambiguously, is_expired, sweep_entry, sweep, clear, TrackerCall,
  reserves, marks_sending, begins, ends, fails_definitely, acknowledges, observes,
  fails_ambiguously, cleans, clears, step, run,
}

-- A key of `byRandomId` leads to the record of that random id.
pub record Entry (t : OutgoingTracker) (key : Text) (ref : ℕ) : Type 0 where
  pub r : PendingSend
  pub stored : t.heap ref ≡ some r
  pub own : int_text r.random_id ≡ key

-- A key of `byMessageKey` leads to a record that is bound to the message which the key names, and
-- that `byRandomId` still holds.
pub record Binding (t : OutgoingTracker) (key : Text) (ref : ℕ) : Type 0 where
  pub r : PendingSend
  pub msg : ℕ
  pub stored : t.heap ref ≡ some r
  pub bound : r.telegram_message_id ≡ some msg
  pub named : key ≡ message_key r.chat_id msg
  pub live : lookup (int_text r.random_id) t.by_random_id ≡ some ref

pub record IsValid (t : OutgoingTracker) : Type 0 where
  pub entries : (key : Text) (ref : ℕ) → lookup key t.by_random_id ≡ some ref → Entry t key ref
  pub bindings : (key : Text) (ref : ℕ) → lookup key t.by_message_key ≡ some ref → Binding t key ref
  pub fresh : (j : ℕ) → t.next ≤ j → t.heap j ≡ none

some_eq {ℓ} : {A : Type ℓ} (a b : A) → some a ≡ some b → a ≡ b
some_eq a b h = cc

pub new_tracker-IsValid : IsValid new_tracker
unfolding new_tracker lookup
new_tracker-IsValid = record {
  entries = λ key ref h. cc;
  bindings = λ key ref h. cc;
  fresh = λ j h. refl;
}

-- A mutation that leaves the identity and the binding of the record alone.
abbrev pub SameIdentity : PendingSend → PendingSend → Type 0
SameIdentity r s =
    (s.random_id ≡ r.random_id)
    × (s.chat_id ≡ r.chat_id)
    × (s.telegram_message_id ≡ r.telegram_message_id)

put-Entry :
    (t : OutgoingTracker) (ref j : ℕ) (r s : PendingSend) (key : Text)
    → t.heap ref ≡ some r
    → s.random_id ≡ r.random_id
    → Entry t key j
    → Entry (put t ref s) key j
put-Entry t ref j r s key stored same e = elim (Bool-cases (j == ref)) [
  | inl here ↦ record {
    r = s;
    stored = ground arith;
    own =
        ap int_text (
          same
          ∙ ap (λ (v : PendingSend). v.random_id)
              (some_eq r e.r (sym stored ∙ ap t.heap (sym ((==_iff j ref).0 here)) ∙ e.stored)))
        ∙ e.own;
  }
  | inr other ↦ record { r = e.r; stored = ground arith; own = e.own }
]

stored_eq :
    (t : OutgoingTracker) {i j : ℕ} {r s : PendingSend}
    → t.heap i ≡ some r
    → t.heap j ≡ some s
    → i ≡ j
    → r ≡ s
stored_eq t p q e = some_eq _ _ (sym p ∙ ap t.heap e ∙ q)

put-Binding :
    (t : OutgoingTracker) (ref j : ℕ) (r s : PendingSend) (key : Text)
    → t.heap ref ≡ some r
    → SameIdentity r s
    → Binding t key j
    → Binding (put t ref s) key j
put-Binding t ref j r s key stored (same, chat, msg) b = elim (Bool-cases (j == ref)) [
  | inl here ↦
      let is : r ≡ b.r = stored_eq t stored b.stored (sym ((==_iff j ref).0 here)) in
      record {
        r = s;
        msg = b.msg;
        stored = ground arith;
        bound = msg ∙ ap (λ (v : PendingSend). v.telegram_message_id) is ∙ b.bound;
        named =
            b.named
            ∙ ap (λ c. message_key c b.msg) (sym (chat ∙ ap (λ (v : PendingSend). v.chat_id) is));
        live =
            ap (λ n. lookup (int_text n) t.by_random_id)
              (same ∙ ap (λ (v : PendingSend). v.random_id) is)
            ∙ b.live;
      }
  | inr other ↦ record {
    r = b.r;
    msg = b.msg;
    stored = ground arith;
    bound = b.bound;
    named = b.named;
    live = b.live;
  }
]

put_fresh :
    (t : OutgoingTracker) (ref j : ℕ) (r s : PendingSend)
    → IsValid t
    → t.heap ref ≡ some r
    → t.next ≤ j
    → (put t ref s).heap j ≡ none
put_fresh t ref j r s v stored h = elim (Bool-cases (j == ref)) [
  | inl here ↦
      let e : none ≡ some r = sym (v.fresh j h) ∙ ap t.heap ((==_iff j ref).0 here) ∙ stored in cc
  | inr other ↦ rw other (v.fresh j h)
]

pub put-IsValid :
    (t : OutgoingTracker) (ref : ℕ) (r s : PendingSend)
    → IsValid t
    → t.heap ref ≡ some r
    → SameIdentity r s
    → IsValid (put t ref s)
put-IsValid t ref r s v stored same = record {
  entries = λ key j h. put-Entry t ref j r s key stored same.0 (v.entries key j h);
  bindings = λ key j h. put-Binding t ref j r s key stored same (v.bindings key j h);
  fresh = λ j h. put_fresh t ref j r s v stored h;
}

pub deref-some :
    (heap : ℕ → Option PendingSend) (o : Option ℕ) {ref : ℕ} {r : PendingSend}
    → deref heap o ≡ some (ref, r)
    → (o ≡ some ref) × (heap ref ≡ some r)
deref-some heap none h = cc
deref-some heap (some i) {ref} {r} h = elim (Option-cases (heap i)) [
  | inl gone ↦ let e : none ≡ some (ref, r) = rw (gone, deref) at h in cc
  | inr (s, stored) ↦
      let e : some (i, s) ≡ some (ref, r) = rw (stored, deref) at h in
      let at : i ≡ ref = cc in (ap some at, ap heap (sym at) ∙ stored ∙ cc)
]

pub find-some :
    (t : OutgoingTracker) (random_id : ℤ) {ref : ℕ} {r : PendingSend}
    → find t random_id ≡ some (ref, r)
    → (lookup (int_text random_id) t.by_random_id ≡ some ref) × (t.heap ref ≡ some r)
find-some t random_id h = deref-some t.heap (lookup (int_text random_id) t.by_random_id) h

change-IsValid :
    (t : OutgoingTracker) (random_id : ℤ) (f : PendingSend → PendingSend)
    → ((r : PendingSend) → SameIdentity r (f r))
    → IsValid t
    → IsValid (change t random_id f)
change-IsValid t random_id f same v = elim (Option-cases (find t random_id)) [
  | inl missing ↦ rw (missing, change) v
  | inr ((ref, r), found) ↦
      rw (found, change) (put-IsValid t ref r (f r) v (find-some t random_id found).1 (same r))
]

stored_lt :
    (t : OutgoingTracker) {j : ℕ} {r : PendingSend}
    → IsValid t
    → t.heap j ≡ some r
    → (j == t.next) ≡ false
stored_lt t {j} {r} v stored = elim (Bool-cases (j == t.next)) [
  | inl here ↦
      let e : none ≡ some r =
        sym (v.fresh t.next (omega arith)) ∙ ap t.heap (sym ((==_iff j t.next).0 here)) ∙ stored in
      cc
  | inr other ↦ other
]

-- A new record at the next address, under a key that was free.
alloc-IsValid :
    (t : OutgoingTracker) (r : PendingSend)
    → IsValid t
    → lookup (int_text r.random_id) t.by_random_id ≡ none
    → IsValid (record (put t t.next r) {
      next = suc t.next;
      by_random_id = insert (int_text r.random_id) t.next t.by_random_id;
    })
alloc-IsValid t r v free = record {
  entries = λ key j h.
      elim (lookup-insert_cases (int_text r.random_id) key t.next t.by_random_id h) [
        | inl (same, at) ↦ record { r = r; stored = ground arith; own = same }
        | inr old ↦
            let e = v.entries key j old in
            let apart = stored_lt t v e.stored in
            record { r = e.r; stored = ground arith; own = e.own }
      ];
  bindings = λ key j h.
      let b = v.bindings key j h in
      let apart = stored_lt t v b.stored in
      record {
        r = b.r;
        msg = b.msg;
        stored = ground arith;
        bound = b.bound;
        named = b.named;
        live = ground (
          arith,
          b.live,
          free,
          text_eq_iff (int_text r.random_id) (int_text b.r.random_id),
          lookup-insert (int_text r.random_id) (int_text b.r.random_id) t.next t.by_random_id,
        );
      };
  fresh = λ j h. ground (arith, v.fresh j);
}

reserve-IsValid :
    (t : OutgoingTracker) (chat_id : Text) (random_id : ℤ) (now : ℕ)
    → IsValid t
    → IsValid (reserve t chat_id random_id now)
unfolding reserve
reserve-IsValid t chat_id random_id now v =
    elim (Option-cases (lookup (int_text random_id) t.by_random_id)) [
      | inl free ↦ rw (free, reserve) (alloc-IsValid t (new_record chat_id random_id now) v free)
      | inr (ref, taken) ↦ rw (taken, reserve) v
    ]

bound_elsewhere :
    (t : OutgoingTracker) (ref j : ℕ) (r : PendingSend) {key : Text}
    → t.heap ref ≡ some r
    → r.telegram_message_id ≡ none
    → Binding t key j
    → (j == ref) ≡ false
bound_elsewhere t ref j r stored unbound b = elim (Bool-cases (j == ref)) [
  | inl here ↦
      let is : r ≡ b.r = stored_eq t stored b.stored (sym ((==_iff j ref).0 here)) in
      let e : none ≡ some b.msg =
        sym unbound ∙ ap (λ (w : PendingSend). w.telegram_message_id) is ∙ b.bound in
      cc
  | inr other ↦ other
]

-- Binding a record that the maps hold, and that was not bound.
bind-IsValid :
    (t : OutgoingTracker) (ref msg now : ℕ) (r : PendingSend)
    → IsValid t
    → t.heap ref ≡ some r
    → r.telegram_message_id ≡ none
    → lookup (int_text r.random_id) t.by_random_id ≡ some ref
    → IsValid (record (put t ref (bind msg now r)) {
      by_message_key = insert (message_key r.chat_id msg) ref t.by_message_key;
    })
bind-IsValid t ref msg now r v stored unbound live = record {
  entries = λ key j h.
      let e = put-Entry t ref j r (bind msg now r) key stored refl (v.entries key j h) in
      record { r = e.r; stored = e.stored; own = e.own };
  bindings = λ key j h.
      elim (lookup-insert_cases (message_key r.chat_id msg) key ref t.by_message_key h) [
        | inl (same, at) ↦ record {
          r = bind msg now r;
          msg = msg;
          stored = ground arith;
          bound = refl;
          named = sym same;
          live = live ∙ ap some at;
        }
        | inr old ↦
            let b = v.bindings key j old in
            let apart = bound_elsewhere t ref j r stored unbound b in
            record {
              r = b.r;
              msg = b.msg;
              stored = ground arith;
              bound = b.bound;
              named = b.named;
              live = b.live;
            }
      ];
  fresh = λ j h. put_fresh t ref j r (bind msg now r) v stored h;
}

pub own_key :
    (t : OutgoingTracker) {key : Text} {ref : ℕ} {r : PendingSend}
    → IsValid t
    → lookup key t.by_random_id ≡ some ref
    → t.heap ref ≡ some r
    → int_text r.random_id ≡ key
own_key t {key} {ref} v listed stored =
    let e = v.entries key ref listed in
    ap (λ (w : PendingSend). int_text w.random_id) (stored_eq t stored e.stored refl) ∙ e.own

acknowledge-IsValid :
    (t : OutgoingTracker) (random_id : ℤ) (msg : ℕ) (chat_id : Option Text) (now : ℕ)
    → IsValid t
    → IsValid (acknowledge t random_id msg chat_id now).0
unfolding acknowledge
acknowledge-IsValid t random_id msg chat_id now v = found (find t random_id) refl
  where
    bound_case :
        (ref : ℕ) (r : PendingSend) (o : Option ℕ)
        → r.telegram_message_id ≡ o
        → find t random_id ≡ some (ref, r)
        → IsValid (acknowledge_bound t ref r msg now o).0
    bound_case ref r (some m) is e = v
    bound_case ref r none is e =
        let (listed, stored) = find-some t random_id e in
        bind-IsValid t ref msg now r v stored is
          (ap (λ k. lookup k t.by_random_id) (own_key t v listed stored) ∙ listed)

    found :
        (o : Option (ℕ × PendingSend))
        → find t random_id ≡ o
        → IsValid (acknowledge_found t msg chat_id now o).0
    found none e = v
    found (some (ref, r)) e = elim (Bool-cases (chat_mismatch chat_id r)) [
      | inl wrong ↦ rw wrong v
      | inr right ↦ rw right (bound_case ref r r.telegram_message_id refl e)
    ]

observe_state-SameIdentity :
    (now : ℕ) (state : PendingSendState) (r : PendingSend)
    → SameIdentity r (observe_state now state r)
observe_state-SameIdentity now acknowledged r = (refl, refl, refl)
observe_state-SameIdentity now _ r = (refl, refl, refl)

observe-IsValid :
    (t : OutgoingTracker) (chat_id : Text) (msg now : ℕ)
    → IsValid t
    → IsValid (observe t chat_id msg now).0
unfolding observe peek
observe-IsValid t chat_id msg now v = elim (Option-cases (peek t chat_id msg)) [
  | inl none_there ↦ rw (none_there, observe) v
  | inr ((ref, r), there) ↦
      rw (there, observe)
        (put-IsValid t ref r _ v
          (deref-some t.heap (lookup (message_key chat_id msg) t.by_message_key) there).1
          (observe_state-SameIdentity now r.state r))
]

unbind_bound :
    (r : PendingSend) (m : Dict ℕ) (msg j : ℕ)
    → r.telegram_message_id ≡ some msg
    → lookup (message_key r.chat_id msg) (unbind r m) ≢ some j
unbind_bound r m msg j bound h =
    let gone : unbind r m ≡ delete (message_key r.chat_id msg) m = rw (bound, unbind) in
    ground (
      arith,
      ap (lookup (message_key r.chat_id msg)) gone,
      lookup-delete (message_key r.chat_id msg) (message_key r.chat_id msg) m,
      text_eq_refl (message_key r.chat_id msg),
    )

unbind-some :
    (r : PendingSend) (m : Dict ℕ) (key : Text) (j : ℕ)
    → lookup key (unbind r m) ≡ some j
    → lookup key m ≡ some j
unbind-some r m key j h = elim (Option-cases r.telegram_message_id) [
  | inl unbound ↦ rw (unbound, unbind) at h
  | inr (msg, bound) ↦
      lookup-delete-some (message_key r.chat_id msg) key m (rw (bound, unbind) at h)
]

-- A binding that survives the removal of a record is of another record.
still_live :
    (t : OutgoingTracker) (key k : Text) (ref j : ℕ) (r : PendingSend)
    → IsValid t
    → lookup key t.by_random_id ≡ some ref
    → t.heap ref ≡ some r
    → (b : Binding t k j) → lookup k (unbind r t.by_message_key) ≡ some j
    → lookup (int_text b.r.random_id) (delete key t.by_random_id) ≡ some j
still_live t key k ref j r v listed stored b h =
    elim (Bool-cases (text_eq key (int_text b.r.random_id))) [
      | inl same ↦
          let at : ref ≡ j = some_eq ref j (
            sym listed ∙ ap (λ w. lookup w t.by_random_id) ((text_eq_iff key _).0 same) ∙ b.live) in
          let is : b.r ≡ r = stored_eq t b.stored stored (sym at) in
          absurd (
            unbind_bound r t.by_message_key b.msg j
              (ap (λ (w : PendingSend). w.telegram_message_id) (sym is) ∙ b.bound)
              (ap (λ w. lookup w (unbind r t.by_message_key))
                  (ap (λ (w : PendingSend). message_key w.chat_id b.msg) (sym is) ∙ sym b.named)
                ∙ h))
      | inr other ↦ lookup-delete key (int_text b.r.random_id) t.by_random_id ∙ rw other b.live
    ]

pub remove-IsValid :
    (t : OutgoingTracker) (key : Text) (ref : ℕ) (r : PendingSend)
    → IsValid t
    → lookup key t.by_random_id ≡ some ref
    → t.heap ref ≡ some r
    → IsValid (remove t key r)
remove-IsValid t key ref r v listed stored = record {
  entries = λ k j h.
      let e = v.entries k j (lookup-delete-some key k t.by_random_id h) in
      record { r = e.r; stored = e.stored; own = e.own };
  bindings = λ k j h.
      let b = v.bindings k j (unbind-some r t.by_message_key k j h) in
      record {
        r = b.r;
        msg = b.msg;
        stored = b.stored;
        bound = b.bound;
        named = b.named;
        live = still_live t key k ref j r v listed stored b h;
      };
  fresh = v.fresh;
}

mark_definite_failure-IsValid :
    (t : OutgoingTracker) (random_id : ℤ) → IsValid t → IsValid (mark_definite_failure t random_id)
unfolding mark_definite_failure
mark_definite_failure-IsValid t random_id v = elim (Option-cases (find t random_id)) [
  | inl missing ↦ rw (missing, mark_definite_failure) v
  | inr ((ref, r), found) ↦
      rw (found, mark_definite_failure)
        (remove-IsValid t (int_text random_id) ref r v (find-some t random_id found).0
          (find-some t random_id found).1)
]

clear-IsValid : (t : OutgoingTracker) → IsValid t → IsValid (clear t)
unfolding clear lookup
clear-IsValid t v = record {
  entries = λ key ref h. cc;
  bindings = λ key ref h. cc;
  fresh = v.fresh;
}

sweep_entry-IsValid :
    (now removed : ℕ) (t : OutgoingTracker) (key : Text)
    → IsValid t
    → IsValid (sweep_entry now (t, removed) key).0
unfolding sweep_entry
sweep_entry-IsValid now removed t key v =
    elim (Option-cases (deref t.heap (lookup key t.by_random_id))) [
      | inl missing ↦ rw (missing, sweep_entry) v
      | inr ((ref, r), found) ↦
          let (listed, stored) = deref-some t.heap (lookup key t.by_random_id) found in
          elim (Bool-cases (is_expired now r)) [
            | inl old ↦
                rw (found, sweep_entry) (rw old (remove-IsValid t key ref r v listed stored))
            | inr kept ↦ rw (found, sweep_entry) (rw kept v)
          ]
    ]

sweep-IsValid :
    (now : ℕ) (s : OutgoingTracker × ℕ) (ks : List Text) → IsValid s.0 → IsValid (sweep now s ks).0
unfolding sweep
sweep-IsValid now s [] v = v
sweep-IsValid now (t, removed) (key ∷ ks) v =
    sweep-IsValid now (sweep_entry now (t, removed) key) ks
      (sweep_entry-IsValid now removed t key v)

pub step-IsValid : (t : OutgoingTracker) (c : ℕ × TrackerCall) → IsValid t → IsValid (step t c)
unfolding step
step-IsValid t (now, reserves chat_id random_id) v = reserve-IsValid t chat_id random_id now v
step-IsValid t (now, marks_sending random_id) v =
    change-IsValid t random_id (start_sending now) (λ r. (refl, refl, refl)) v
step-IsValid t (now, begins random_id) v =
    change-IsValid t random_id (set_in_flight true now) (λ r. (refl, refl, refl)) v
step-IsValid t (now, ends random_id) v =
    change-IsValid t random_id (set_in_flight false now) (λ r. (refl, refl, refl)) v
step-IsValid t (now, fails_definitely random_id) v = mark_definite_failure-IsValid t random_id v
step-IsValid t (now, acknowledges random_id msg chat_id) v =
    acknowledge-IsValid t random_id msg chat_id now v
step-IsValid t (now, observes chat_id msg) v = observe-IsValid t chat_id msg now v
step-IsValid t (now, fails_ambiguously random_id error) v =
    change-IsValid t random_id (fail_ambiguously error now) (λ r. (refl, refl, refl)) v
step-IsValid t (now, cleans) v = sweep-IsValid now (t, 0) (keys t.by_random_id) v
step-IsValid t (now, clears) v = clear-IsValid t v

pub run_from-IsValid :
    (t : OutgoingTracker) (cs : List (ℕ × TrackerCall)) → IsValid t → IsValid (run t cs)
unfolding run
run_from-IsValid t [] v = v
run_from-IsValid t (c ∷ cs) v = run_from-IsValid (step t c) cs (step-IsValid t c v)

-- Whatever is called on a new tracker, in any order and at any times: each key of the random-id map
-- leads to the record of that id, and each message key leads to a record that is bound to exactly
-- that chat and message and is still in the random-id map.
pub reachable-IsValid : (cs : List (ℕ × TrackerCall)) → IsValid (run new_tracker cs)
reachable-IsValid cs = run_from-IsValid new_tracker cs new_tracker-IsValid
