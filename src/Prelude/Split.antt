-- ===== src/Prelude/Split.antt =====
-- Taking a text apart at the first separator. It serves the statements about printed keys and
-- amounts: what is printed with a separator is read back from both sides of it.
use Prim.Native.Nat.{ℕ}
use mathlib.Core.Path.{◌≡◌, refl}
use mathlib.Core.Logic.{◌≢◌}
use mathlib.Core.List.{[], ◌∷◌, ◌++◌}
use native.Mathlib.Omega.{arith}
use anonka.Prelude.Tests.{◌==◌, if◌then◌else◌}
use anonka.Prelude.Lists.{All}
use anonka.Prelude.Texts.{Text}

unfoldable pub before : ℕ → Text → Text
before d [] = []
before d (c ∷ s) = if c == d then [] else c ∷ before d s

unfoldable pub after : ℕ → Text → Text
after d [] = []
after d (c ∷ s) = if c == d then s else after d s

-- The text holds no `d`.
abbrev pub Without : ℕ → Text → Type 0
Without d s = All (λ c. c ≢ d) s

pub before-append : (d : ℕ) (s t : Text) → Without d s → before d (s ++ d ∷ t) ≡ s
unfolding before
before-append d [] t h = ground arith
before-append d (c ∷ s) t (p, h) = ground (arith, before-append d s t h)

pub after-append : (d : ℕ) (s t : Text) → Without d s → after d (s ++ d ∷ t) ≡ t
unfolding after
after-append d [] t h = ground arith
after-append d (c ∷ s) t (p, h) = ground (arith, after-append d s t h)

pub before_of_Without : (d : ℕ) (s : Text) → Without d s → before d s ≡ s
unfolding before
before_of_Without d [] h = refl
before_of_Without d (c ∷ s) (p, h) = ground (arith, before_of_Without d s h)

pub after_of_Without : (d : ℕ) (s : Text) → Without d s → after d s ≡ []
unfolding after
after_of_Without d [] h = refl
after_of_Without d (c ∷ s) (p, h) = ground (arith, after_of_Without d s h)
