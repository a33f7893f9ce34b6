-- ===== src/Prelude/Dicts.antt =====
-- The JavaScript `Map` with text keys, in insertion order, and the `Set` of texts.
use mathlib.Core.Path.{◌≡◌, refl, ap, sym, ◌∙◌}
use mathlib.Core.Bool.{Bool, false, ◌||◌}
use mathlib.Core.List.{List, [], ◌∷◌}
use mathlib.Core.Option.{Option, none, some}
use Prim.Native.Nat.{ℕ, ◌+◌}
use native.Mathlib.Omega.{arith}
use mathlib.Core.Logic.{◌⊎◌, inl, inr}
use anonka.Prelude.Tests.{if◌then◌else◌, Bool-cases}
use anonka.Prelude.Texts.{Text, text_eq, text_eq_iff}

abbrev pub Dict {ℓ} : Type ℓ → Type ℓ
Dict V = List (Text × V)

module _ {ℓ} {V : Type ℓ} where
  unfoldable pub lookup : Text → Dict V → Option V
  lookup k [] = none
  lookup k ((j, v) ∷ m) = if text_eq j k then some v else lookup k m

  -- `Map.set`: an old key keeps its place.
  unfoldable pub insert : Text → V → Dict V → Dict V
  insert k v [] = (k, v) ∷ []
  insert k v ((j, w) ∷ m) = if text_eq j k then (k, v) ∷ m else (j, w) ∷ insert k v m

  unfoldable pub delete : Text → Dict V → Dict V
  delete k [] = []
  delete k ((j, v) ∷ m) = let rest = delete k m in if text_eq j k then rest else (j, v) ∷ rest

  abbrev pub keys : Dict V → List Text
  keys [] = []
  keys ((k, v) ∷ m) = k ∷ keys m

  pub lookup-insert :
      (k j : Text) (v : V) (m : Dict V)
      → lookup j (insert k v m) ≡ (if text_eq k j then some v else lookup j m)
  unfolding lookup insert
  lookup-insert k j v [] = refl
  lookup-insert k j v ((i, w) ∷ m) =
      ground (arith, text_eq_iff k j, text_eq_iff i k, text_eq_iff i j, lookup-insert k j v m)

  pub lookup-delete :
      (k j : Text) (m : Dict V) → lookup j (delete k m) ≡ (if text_eq k j then none else lookup j m)
  unfolding lookup delete
  lookup-delete k j [] = ground arith
  lookup-delete k j ((i, w) ∷ m) =
      ground (arith, text_eq_iff k j, text_eq_iff i k, text_eq_iff i j, lookup-delete k j m)

  -- An entry found after a write is the one written, or was there before.
  pub lookup-insert_cases :
      (k j : Text) (v : V) (m : Dict V) {w : V}
      → lookup j (insert k v m) ≡ some w
      → ((k ≡ j) × (v ≡ w)) ⊎ (lookup j m ≡ some w)
  lookup-insert_cases k j v m h = elim (Bool-cases (text_eq k j)) [
    | inl same ↦ inl ((text_eq_iff k j).0 same, ground (arith, lookup-insert k j v m))
    | inr other ↦ inr (ground (arith, lookup-insert k j v m))
  ]

  -- An entry found after a deletion was there before.
  pub lookup-delete-some :
      (k j : Text) (m : Dict V) {w : V} → lookup j (delete k m) ≡ some w → lookup j m ≡ some w
  lookup-delete-some k j m h = ground (arith, lookup-delete k j m)

  -- No key stands twice, as in a `Map`.
  abbrev pub Unique : Dict V → Type ℓ
  Unique [] = Unit
  Unique ((k, v) ∷ m) = (lookup k m ≡ none) × Unique m

  pub insert-Unique : (k : Text) (v : V) (m : Dict V) → Unique m → Unique (insert k v m)
  unfolding lookup insert
  insert-Unique k v [] h = (refl, tt)
  insert-Unique k v ((j, w) ∷ m) (free, h) = elim (Bool-cases (text_eq j k)) [
    | inl same ↦ rw (same, insert) (rw (← (text_eq_iff j k).0 same) free, h)
    | inr other ↦
        rw (other, insert)
          (
            ground (arith, lookup-insert k j v m, text_eq_iff j k, text_eq_iff k j),
            insert-Unique k v m h,
          )
  ]

  pub delete-Unique : (k : Text) (m : Dict V) → Unique m → Unique (delete k m)
  unfolding delete
  delete-Unique k [] h = tt
  delete-Unique k ((j, w) ∷ m) (free, h) = elim (Bool-cases (text_eq j k)) [
    | inl same ↦ rw (same, delete) (delete-Unique k m h)
    | inr other ↦ rw (other, delete) (ground (arith, lookup-delete k j m), delete-Unique k m h)
  ]

  -- A number of each entry, added up.
  unfoldable pub sum_values : (V → ℕ) → Dict V → ℕ
  sum_values f [] = 0
  sum_values f ((k, v) ∷ m) = f v + sum_values f m

  -- The number of the entry found, 0 if there is none.
  abbrev pub value_or_zero : (V → ℕ) → Option V → ℕ
  value_or_zero f none = 0
  value_or_zero f (some v) = f v

  pub sum_values-insert :
      (f : V → ℕ) (k : Text) (v : V) (m : Dict V)
      → sum_values f (insert k v m) + value_or_zero f (lookup k m) ≡ sum_values f m + f v
  unfolding lookup insert sum_values
  sum_values-insert f k v [] = omega arith
  sum_values-insert f k v ((j, w) ∷ m) = elim (Bool-cases (text_eq j k)) [
    | inl same ↦ rw (same, insert, lookup) (omega arith)
    | inr other ↦ rw (other, insert, lookup) (omega (arith, sum_values-insert f k v m))
  ]

  delete_of_none : (k : Text) (m : Dict V) → lookup k m ≡ none → delete k m ≡ m
  unfolding lookup delete
  delete_of_none k [] h = refl
  delete_of_none k ((j, w) ∷ m) h = ground (arith, delete_of_none k m)

  pub sum_values-delete :
      (f : V → ℕ) (k : Text) (m : Dict V)
      → Unique m
      → sum_values f (delete k m) + value_or_zero f (lookup k m) ≡ sum_values f m
  unfolding lookup delete sum_values
  sum_values-delete f k [] h = omega arith
  sum_values-delete f k ((j, w) ∷ m) (free, h) = elim (Bool-cases (text_eq j k)) [
    | inl same ↦
        let gone : delete k m ≡ m =
          delete_of_none k m (ap (λ i. lookup i m) (sym ((text_eq_iff j k).0 same)) ∙ free) in
        rw (same, delete, lookup) (rw gone (omega arith))
    | inr other ↦ rw (other, delete, lookup) (omega (arith, sum_values-delete f k m h))
  ]

unfoldable pub contains : List Text → Text → Bool
contains [] k = false
contains (j ∷ s) k = text_eq j k || contains s k

-- `Set.add`.
unfoldable pub add : Text → List Text → List Text
add k [] = k ∷ []
add k (j ∷ s) = if text_eq j k then j ∷ s else j ∷ add k s

pub contains-add :
    (k j : Text) (s : List Text) → contains (add k s) j ≡ (text_eq k j || contains s j)
unfolding contains add
contains-add k j [] = refl
contains-add k j (i ∷ s) =
    ground (arith, text_eq_iff k j, text_eq_iff i k, text_eq_iff i j, contains-add k j s)
