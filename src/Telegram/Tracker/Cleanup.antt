-- ===== src/Telegram/Tracker/Cleanup.antt =====
-- What the sweep removes, and what it never removes.
use anonka.Prelude.{
  ℕ, ◌≡◌, ap, ◌∙◌, sym, ◌⊎◌, true, false, ◌||◌, List, [], ◌∷◌, Option, none, some, Text, text_eq,
  text_eq_iff, text_eq_refl, if◌then◌else◌, arith, Bool-cases, Option-cases, inl, inr,
}
use anonka.Prelude.Dicts.{Dict, keys, lookup, contains, lookup-delete}
use anonka.Telegram.Tracker.{
  PendingSend, OutgoingTracker, deref, remove, is_expired, sweep_entry, sweep, cleanup_stale,
}

module _ (now n : ℕ) (t : OutgoingTracker) (key : Text) where
  -- A round either leaves the tracker, or removes the entry of its key.
  entry-cases :
      ((sweep_entry now (t, n) key).0 ≡ t)
      ⊎ ((r : PendingSend) × ((sweep_entry now (t, n) key).0 ≡ remove t key r))
  unfolding sweep_entry
  entry-cases = elim (Option-cases (deref t.heap (lookup key t.by_random_id))) [
    | inl missing ↦ inl (rw (missing, sweep_entry))
    | inr ((ref, r), found) ↦ elim (Bool-cases (is_expired now r)) [
      | inl old ↦ inr (r, rw (found, sweep_entry) (rw old))
      | inr kept ↦ inl (rw (found, sweep_entry) (rw kept))
    ]
  ]

  entry-heap : (sweep_entry now (t, n) key).0.heap ≡ t.heap
  entry-heap = elim entry-cases [ inl e ↦ rw e | inr (r, e) ↦ rw e ]

  entry-none :
      (k : Text)
      → lookup k t.by_random_id ≡ none
      → lookup k (sweep_entry now (t, n) key).0.by_random_id ≡ none
  entry-none k h = elim entry-cases [
    | inl e ↦ rw e h
    | inr (r, e) ↦ rw e (ground (arith, lookup-delete key k t.by_random_id))
  ]

  module _ (ref : ℕ) (r : PendingSend) (stored : t.heap ref ≡ some r) where
    entry-expired :
        lookup key t.by_random_id ≡ some ref
        → is_expired now r ≡ true
        → lookup key (sweep_entry now (t, n) key).0.by_random_id ≡ none
    unfolding sweep_entry
    entry-expired listed old =
        rw (listed, sweep_entry)
          (rw (stored, deref)
            (rw old (ground (arith, lookup-delete key key t.by_random_id, text_eq_refl key))))

    entry_self :
        lookup key t.by_random_id ≡ some ref
        → is_expired now r ≡ false
        → (sweep_entry now (t, n) key).0 ≡ t
    unfolding sweep_entry
    entry_self listed kept = rw (listed, sweep_entry) (rw (stored, deref) (rw kept))

    entry-kept :
        (k : Text)
        → lookup k t.by_random_id ≡ some ref
        → is_expired now r ≡ false
        → lookup k (sweep_entry now (t, n) key).0.by_random_id ≡ some ref
    entry-kept k listed kept = elim (Bool-cases (text_eq key k)) [
      | inl same ↦
          let is = (text_eq_iff key k).0 same in
          ap (λ (s : OutgoingTracker). lookup k s.by_random_id)
            (entry_self (ap (λ j. lookup j t.by_random_id) is ∙ listed) kept)
          ∙ listed
      | inr other ↦ elim entry-cases [
        | inl e ↦ rw e listed
        | inr (s, e) ↦ rw e (ground (arith, lookup-delete key k t.by_random_id))
      ]
    ]

    entry-other :
        (k : Text)
        → text_eq key k ≡ false
        → lookup k t.by_random_id ≡ some ref
        → lookup k (sweep_entry now (t, n) key).0.by_random_id ≡ some ref
    entry-other k other listed = elim entry-cases [
      | inl e ↦ rw e listed
      | inr (s, e) ↦ rw e (ground (arith, lookup-delete key k t.by_random_id))
    ]

sweep-none :
    (now n : ℕ) (t : OutgoingTracker) (ks : List Text) (k : Text)
    → lookup k t.by_random_id ≡ none
    → lookup k (sweep now (t, n) ks).0.by_random_id ≡ none
unfolding sweep
sweep-none now n t [] k h = h
sweep-none now n t (key ∷ ks) k h =
    sweep-none now (sweep_entry now (t, n) key).1 (sweep_entry now (t, n) key).0 ks k
      (entry-none now n t key k h)

sweep-kept :
    (now n : ℕ) (t : OutgoingTracker) (ks : List Text) (k : Text) (ref : ℕ) (r : PendingSend)
    → t.heap ref ≡ some r
    → lookup k t.by_random_id ≡ some ref
    → is_expired now r ≡ false
    → lookup k (sweep now (t, n) ks).0.by_random_id ≡ some ref
unfolding sweep
sweep-kept now n t [] k ref r stored listed kept = listed
sweep-kept now n t (key ∷ ks) k ref r stored listed kept =
    sweep-kept now (sweep_entry now (t, n) key).1 (sweep_entry now (t, n) key).0 ks k ref r
      (ap (λ (h : ℕ → Option PendingSend). h ref) (entry-heap now n t key) ∙ stored)
      (entry-kept now n t key ref r stored k listed kept) kept

sweep-expired :
    (now n : ℕ) (t : OutgoingTracker) (ks : List Text) (k : Text) (ref : ℕ) (r : PendingSend)
    → t.heap ref ≡ some r
    → lookup k t.by_random_id ≡ some ref
    → is_expired now r ≡ true
    → contains ks k ≡ true
    → lookup k (sweep now (t, n) ks).0.by_random_id ≡ none
unfolding sweep contains
sweep-expired now n t [] k ref r stored listed old seen = cc
sweep-expired now n t (key ∷ ks) k ref r stored listed old seen =
    let s = (sweep_entry now (t, n) key).0 in
    elim (Bool-cases (text_eq key k)) [
      | inl same ↦
          let is = (text_eq_iff key k).0 same in
          sweep-none now (sweep_entry now (t, n) key).1 s ks k (
            ap (λ j. lookup j s.by_random_id) (sym is)
            ∙ entry-expired now n t key ref r stored (ap (λ j. lookup j t.by_random_id) is ∙ listed)
                old)
      | inr other ↦
          sweep-expired now (sweep_entry now (t, n) key).1 s ks k ref r
            (ap (λ (h : ℕ → Option PendingSend). h ref) (entry-heap now n t key) ∙ stored)
            (entry-other now n t key ref r stored k other listed) old (rw (other, ◌||◌) at seen)
    ]

contains-keys :
    (m : Dict ℕ) (k : Text) (ref : ℕ) → lookup k m ≡ some ref → contains (keys m) k ≡ true
unfolding lookup contains
contains-keys [] k ref h = cc
contains-keys ((j, i) ∷ m) k ref h = ground (arith, contains-keys m k ref)

-- The sweep removes a held send exactly if it is expired: a send that no operation owns and whose
-- state is older than that state's limit goes, and every other one stays, under its key. So a send
-- in flight, and one that is being sent, outlives every sweep.
pub cleanup_stale-lookup :
    (t : OutgoingTracker) (now : ℕ) (key : Text) (ref : ℕ) (r : PendingSend)
    → lookup key t.by_random_id ≡ some ref
    → t.heap ref ≡ some r
    → lookup key (cleanup_stale t now).0.by_random_id
      ≡ (if is_expired now r then none else some ref)
unfolding cleanup_stale
cleanup_stale-lookup t now key ref r listed stored = elim (Bool-cases (is_expired now r)) [
  | inl old ↦ rw old (
      sweep-expired now 0 t (keys t.by_random_id) key ref r stored listed old
        (contains-keys t.by_random_id key ref listed))
  | inr kept ↦ rw kept (sweep-kept now 0 t (keys t.by_random_id) key ref r stored listed kept)
]

-- No key comes up in a sweep that was not there before.
pub cleanup_stale-none :
    (t : OutgoingTracker) (now : ℕ) (key : Text)
    → lookup key t.by_random_id ≡ none
    → lookup key (cleanup_stale t now).0.by_random_id ≡ none
unfolding cleanup_stale
cleanup_stale-none t now key h = sweep-none now 0 t (keys t.by_random_id) key h
