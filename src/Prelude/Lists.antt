-- ===== src/Prelude/Lists.antt =====
-- Lists measured by native numbers, and predicates over their entries.
use Prim.Native.Nat.{ℕ, zero, suc, ◌+◌, ◌-◌}
use mathlib.Core.Path.{◌≡◌}
use mathlib.Core.List.{List, [], ◌∷◌, ◌++◌, Memᴰ}
use mathlib.Core.List.Memᴰ
use mathlib.Core.Bool.{Bool, true}
use mathlib.Core.Option.{Option, none, some}
use mathlib.Core.Logic.{◌↔◌, inl, inr}
use anonka.Prelude.Tests.{if◌then◌else◌, Bool-cases}
use native.Mathlib.Omega.{arith}

module _ {ℓ} {A : Type ℓ} where
  abbrev pub length : List A → ℕ
  length [] = 0
  length (x ∷ xs) = suc (length xs)

  abbrev pub take : ℕ → List A → List A
  take zero xs = []
  take (suc n) [] = []
  take (suc n) (x ∷ xs) = x ∷ take n xs

  abbrev pub drop : ℕ → List A → List A
  drop zero xs = xs
  drop (suc n) [] = []
  drop (suc n) (x ∷ xs) = drop n xs

  abbrev pub get_elem? : List A → ℕ → Option A
  get_elem? [] i = none
  get_elem? (x ∷ xs) zero = some x
  get_elem? (x ∷ xs) (suc i) = get_elem? xs i

  pub length-append : (xs ys : List A) → length (xs ++ ys) ≡ length xs + length ys
  length-append [] ys = omega arith
  length-append (x ∷ xs) ys = omega (arith, length-append xs ys)

  pub length-drop : (n : ℕ) (xs : List A) → length (drop n xs) ≡ length xs - n
  length-drop zero xs = omega arith
  length-drop (suc n) [] = omega arith
  length-drop (suc n) (x ∷ xs) = omega (arith, length-drop n xs)

module _ {ℓ κ} {A : Type ℓ} (P : A → Type κ) where
  abbrev pub All : List A → Type κ
  All [] = Unit
  All (x ∷ xs) = P x × All xs

  pub All-append : (xs ys : List A) → All xs → All ys → All (xs ++ ys)
  All-append [] ys _ k = k
  All-append (x ∷ xs) ys (p, h) k = (p, All-append xs ys h k)

  pub All-drop : (n : ℕ) (xs : List A) → All xs → All (drop n xs)
  All-drop zero xs h = h
  All-drop (suc n) [] h = h
  All-drop (suc n) (x ∷ xs) (_, h) = All-drop n xs h

module _ {ℓ} {A : Type ℓ} (p : A → Bool) where
  unfoldable pub filter_by : List A → List A
  filter_by [] = []
  filter_by (x ∷ xs) = let rest = filter_by xs in if p x then x ∷ rest else rest

  pub filter_by_iff : (xs : List A) (y : A) → Memᴰ y (filter_by xs) ↔ (Memᴰ y xs × (p y ≡ true))
  unfolding filter_by
  filter_by_iff [] y = (λ m. elim m [ ], λ h. elim h.0 [ ])
  filter_by_iff (x ∷ xs) y =
      let (from, to) = filter_by_iff xs y in
      elim (Bool-cases (p x)) [
        | inl passes ↦ (
          λ m. elim (Memᴰ.cases_cons (rw (passes, filter_by) at m)) [
            | inl e ↦ (Memᴰ.head e, rw e passes)
            | inr later ↦ (Memᴰ.tail (from later).0, (from later).1)
          ],
          λ h.
              rw (passes, filter_by)
                (elim (Memᴰ.cases_cons h.0) [
                  | inl e ↦ Memᴰ.head e
                  | inr later ↦ Memᴰ.tail (to (later, h.1))
                ]),
        )
        | inr fails ↦ (
          λ m. let old = from (rw (fails, filter_by) at m) in (Memᴰ.tail old.0, old.1),
          λ h.
              rw (fails, filter_by)
                (elim (Memᴰ.cases_cons h.0) [
                  | inl e ↦ let bad : p x ≡ true = rw (← e) h.1 in cc
                  | inr later ↦ to (later, h.1)
                ]),
        )
      ]
