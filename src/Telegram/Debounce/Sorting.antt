-- ===== src/Telegram/Debounce/Sorting.antt =====
-- Batches: sorting keeps every message, and puts the messages in the order of their time stamps.
use anonka.Prelude.{
  ℕ, ◌+◌, ◌≤◌, ◌≡◌, refl, Bool, List, [], ◌∷◌, ◌++◌, if◌then◌else◌, arith, leb, leb→le, Bool-cases,
  inl, inr,
}
use anonka.Telegram.Debounce.{Message, insert_sorted, sort}

-- How many of the messages satisfy a test.
abbrev pub tally : (Message → Bool) → List Message → ℕ
tally p [] = 0
tally p (m ∷ ms) = (if p m then 1 else 0) + tally p ms

pub tally-append :
    (p : Message → Bool) (xs ys : List Message) → tally p (xs ++ ys) ≡ tally p xs + tally p ys
tally-append p [] ys = omega arith
tally-append p (x ∷ xs) ys = omega (arith, tally-append p xs ys)

tally-insert_sorted :
    (p : Message → Bool) (m : Message) (ms : List Message)
    → tally p (insert_sorted m ms) ≡ tally p (m ∷ ms)
unfolding insert_sorted
tally-insert_sorted p m [] = refl
tally-insert_sorted p m (x ∷ xs) = elim (Bool-cases (leb m.timestamp x.timestamp)) [
  | inl before ↦ rw before
  | inr after ↦ rw after (omega (arith, tally-insert_sorted p m xs))
]

-- Sorting a batch loses and doubles nothing.
pub tally-sort : (p : Message → Bool) (ms : List Message) → tally p (sort ms) ≡ tally p ms
unfolding sort
tally-sort p [] = refl
tally-sort p (m ∷ ms) = omega (arith, tally-insert_sorted p m (sort ms), tally-sort p ms)

abbrev LeHead : ℕ → List Message → Type 0
LeHead t [] = Unit
LeHead t (x ∷ xs) = t ≤ x.timestamp

abbrev pub IsOrdered : List Message → Type 0
IsOrdered [] = Unit
IsOrdered (m ∷ ms) = LeHead m.timestamp ms × IsOrdered ms

LeHead-insert_sorted :
    (t : ℕ) (m : Message) (ms : List Message)
    → t ≤ m.timestamp
    → LeHead t ms
    → LeHead t (insert_sorted m ms)
unfolding insert_sorted
LeHead-insert_sorted t m [] h k = h
LeHead-insert_sorted t m (x ∷ xs) h k = ground arith

IsOrdered-insert_sorted :
    (m : Message) (ms : List Message) → IsOrdered ms → IsOrdered (insert_sorted m ms)
unfolding insert_sorted
IsOrdered-insert_sorted m [] h = (tt, tt)
IsOrdered-insert_sorted m (x ∷ xs) (first, h) = elim (Bool-cases (leb m.timestamp x.timestamp)) [
  | inl before ↦ rw before (leb→le _ _ before, (first, h))
  | inr after ↦
      rw after
        (LeHead-insert_sorted x.timestamp m xs (ground arith) first, IsOrdered-insert_sorted m xs h)
]

pub sort-IsOrdered : (ms : List Message) → IsOrdered (sort ms)
unfolding sort
sort-IsOrdered [] = tt
sort-IsOrdered (m ∷ ms) = IsOrdered-insert_sorted m (sort ms) (sort-IsOrdered ms)
