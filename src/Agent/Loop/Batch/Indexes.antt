-- ===== src/Agent/Loop/Batch/Indexes.antt =====
-- The lists of indexes of a batch: consecutive reads, and the plans that are being executed.
use anonka.Prelude.{
  get_elem?, ℕ, zero, suc, ◌+◌, ◌-◌, ◌≤◌, ◌<◌, ◌≡◌, refl, ap, true, false, ◌&&◌, List, [], ◌∷◌,
  some, ◌==◌, leb, ltb, length, take, drop, arith, Bool-cases, inl, inr, if◌then◌else◌,
}
use anonka.Agent.Tools.Registry.{ToolRegistry}
use anonka.Agent.Loop.Batch.{ToolPlan, has_index, drop_index, is_read, read_indexes}

abbrev pub range_from : ℕ → ℕ → List ℕ
range_from a zero = []
range_from a (suc n) = a ∷ range_from (suc a) n

pub length-range_from : (a n : ℕ) → length (range_from a n) ≡ n
length-range_from a zero = refl
length-range_from a (suc n) = omega (arith, length-range_from (suc a) n)

pub has_index-range_from : (a n j : ℕ) → has_index (range_from a n) j ≡ (leb a j && ltb j (a + n))
has_index-range_from a zero j = ground arith
has_index-range_from a (suc n) j = ground (arith, has_index-range_from (suc a) n j)

pub take-range_from : (k a n : ℕ) → take k (range_from a n) ≡ range_from a (n - (n - k))
take-range_from zero a n = ground arith
take-range_from (suc k) a zero = let e : 0 - (0 - suc k) ≡ 0 = omega arith in rw e refl
take-range_from (suc k) a (suc n) =
    let e : suc n - (suc n - suc k) ≡ suc (n - (n - k)) = omega arith in
    rw e (ap (λ is. a ∷ is) (take-range_from k (suc a) n))

pub drop-range_from : (k a n : ℕ) → drop k (range_from a n) ≡ range_from (a + (n - (n - k))) (n - k)
drop-range_from zero a n =
    let e : a + (n - (n - 0)) ≡ a = omega arith in
    let f : n - 0 ≡ n = omega arith in rw e (rw f refl)
drop-range_from (suc k) a zero = let e : 0 - suc k ≡ 0 = omega arith in rw e refl
drop-range_from (suc k) a (suc n) =
    let e : a + (suc n - (suc n - suc k)) ≡ suc a + (n - (n - k)) = omega arith in
    let f : suc n - suc k ≡ n - k = omega arith in rw e (rw f (drop-range_from k (suc a) n))

-- No index stands twice.
abbrev pub Distinct : List ℕ → Type 0
Distinct [] = Unit {0}
Distinct (i ∷ is) = (has_index is i ≡ false) × Distinct is

pub range_from-Distinct : (a n : ℕ) → Distinct (range_from a n)
range_from-Distinct a zero = tt
range_from-Distinct a (suc n) =
    (ground (arith, has_index-range_from (suc a) n a), range_from-Distinct (suc a) n)

pub has_index-drop_index :
    (is : List ℕ) (i j : ℕ)
    → has_index (drop_index is i) j ≡ (if i == j then false else has_index is j)
has_index-drop_index [] i j = ground arith
has_index-drop_index (k ∷ is) i j = ground (arith, has_index-drop_index is i j)

pub drop_index-Distinct : (is : List ℕ) (i : ℕ) → Distinct is → Distinct (drop_index is i)
drop_index-Distinct [] i h = h
drop_index-Distinct (k ∷ is) i (new, h) =
    ground (arith, has_index-drop_index is i k, drop_index-Distinct is i h)

drop_index_other : (is : List ℕ) (i : ℕ) → has_index is i ≡ false → drop_index is i ≡ is
drop_index_other [] i h = refl
drop_index_other (k ∷ is) i h = ground (arith, drop_index_other is i)

pub length-drop_index :
    (is : List ℕ) (i : ℕ)
    → Distinct is
    → has_index is i ≡ true
    → length (drop_index is i) + 1 ≡ length is
length-drop_index [] i d h = cc
length-drop_index (k ∷ is) i (new, d) h =
    ground (arith, drop_index_other is i, length-drop_index is i d)

pub get_elem?-drop :
    {A : Type 0} (n i : ℕ) (xs : List A) → get_elem? (drop n xs) i ≡ get_elem? xs (n + i)
get_elem?-drop zero i xs = ground arith
get_elem?-drop (suc n) i [] = ground arith
get_elem?-drop (suc n) i (x ∷ xs) = ground (arith, get_elem?-drop n i xs)

-- What is left of the running plans when plan `i` has ended.
pub record Left (i : ℕ) (before after : List ℕ) : Type 0 where
  pub others : (j : ℕ) → has_index after j ≡ (if i == j then false else has_index before j)
  pub fewer : length after + 1 ≡ length before
  pub distinct : Distinct after
  pub ended : has_index before i ≡ true

pub drop_index-Left :
    (i : ℕ) (is : List ℕ) → Distinct is → has_index is i ≡ true → Left i is (drop_index is i)
drop_index-Left i is d h = record {
  others = has_index-drop_index is i;
  fewer = length-drop_index is i d h;
  distinct = drop_index-Distinct is i d;
  ended = h;
}

module _ {A : Type 0} where
  pub drop-cons :
      (n : ℕ) (xs : List A) {p : A} {ps : List A}
      → p ∷ ps ≡ drop n xs
      → (get_elem? xs n ≡ some p) × (ps ≡ drop (suc n) xs) × (suc n ≤ length xs)
  drop-cons zero [] h = cc
  drop-cons zero (x ∷ xs) h = (cc, cc, omega arith)
  drop-cons (suc n) [] h = cc
  drop-cons (suc n) (x ∷ xs) h = let (a, b, c) = drop-cons n xs h in (a, b, omega (arith, c))

  drop-nil : (b : ℕ) → drop {A = A} b [] ≡ []
  drop-nil zero = refl
  drop-nil (suc b) = refl

  pub drop-drop : (a b : ℕ) (xs : List A) → drop b (drop a xs) ≡ drop (a + b) xs
  drop-drop zero b xs = let e : 0 + b ≡ b = omega arith in rw e refl
  drop-drop (suc a) b [] = let e : suc a + b ≡ suc (a + b) = omega arith in rw e (drop-nil b)
  drop-drop (suc a) b (x ∷ xs) =
      let e : suc a + b ≡ suc (a + b) = omega arith in rw e (drop-drop a b xs)

module _ {P : Type 0} (registry : ToolRegistry) where
  pub read_indexes-range_from :
      (i : ℕ) (ps : List (ToolPlan P))
      → read_indexes registry i ps ≡ range_from i (length (read_indexes registry i ps))
  unfolding read_indexes
  read_indexes-range_from i [] = refl
  read_indexes-range_from i (p ∷ ps) = ground (arith, read_indexes-range_from (suc i) ps)

  pub length-read_indexes :
      (i : ℕ) (ps : List (ToolPlan P)) → length (read_indexes registry i ps) ≤ length ps
  unfolding read_indexes
  length-read_indexes i [] = omega arith
  length-read_indexes i (p ∷ ps) = ground (arith, length-read_indexes (suc i) ps)

  pub read_indexes-is_read :
      (i k : ℕ) (ps : List (ToolPlan P))
      → k < length (read_indexes registry i ps)
      → (p : ToolPlan P) × (get_elem? ps k ≡ some p) × (is_read registry p ≡ true)
  unfolding read_indexes
  read_indexes-is_read i k [] h = absurd (omega (arith, h))
  read_indexes-is_read i zero (p ∷ ps) h = elim (Bool-cases (is_read registry p)) [
    | inl reads ↦ (p, refl, reads)
    | inr action ↦ absurd (omega (arith, rw (action, read_indexes) at h))
  ]
  read_indexes-is_read i (suc k) (p ∷ ps) h = elim (Bool-cases (is_read registry p)) [
    | inl reads ↦ read_indexes-is_read (suc i) k ps (omega (arith, rw (reads, read_indexes) at h))
    | inr action ↦ absurd (omega (arith, rw (action, read_indexes) at h))
  ]
