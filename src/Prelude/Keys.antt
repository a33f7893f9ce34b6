-- ===== src/Prelude/Keys.antt =====
-- Keys of the form `${prefix}:${number}`: the text before the last colon and the number are
-- determined by the key, since a printed number holds no colon.
use mathlib.Core.List.{reverse, reverse-append, reverse-cons, reverse-reverse, append_assoc}
use Prim.Native.Nat.{ℕ}
use mathlib.Core.Path.{◌≡◌, ap, sym, ◌∙◌}
use mathlib.Core.Logic.{inr, ◌≢◌}
use mathlib.Core.List.{[], ◌∷◌, ◌++◌}
use native.Mathlib.Omega.{arith}
use anonka.Prelude.Lists.{All-append}
use anonka.Prelude.Texts.{Text}
use anonka.Prelude.Split.{before, after, Without, before-append, after-append}
use anonka.Prelude.Decimal.{decimal, decimal-IsDigit, decimal_injective, Without-of_digits}

decimal-Without-colon : (n : ℕ) → Without b':' (decimal n)
decimal-Without-colon n = Without-of_digits b':' (decimal n) (inr (omega arith)) (decimal-IsDigit n)

Without-reverse : (d : ℕ) (s : Text) → Without d s → Without d (reverse s)
Without-reverse d [] h = tt
Without-reverse d (c ∷ s) (p, h) =
    rw (reverse-cons c s)
      (All-append (λ c. c ≢ d) (reverse s) (c ∷ []) (Without-reverse d s h) (p, tt))

abbrev pub number_key : Text → ℕ → Text
number_key s n = s ++ (b':' ∷ decimal n)

reverse-number_key :
    (s : Text) (n : ℕ) → reverse (number_key s n) ≡ reverse (decimal n) ++ (b':' ∷ reverse s)
reverse-number_key s n = reverse-append s (b':' ∷ decimal n) ∙ simp (reverse-cons, append_assoc)

reverse_injective : (s t : Text) → reverse s ≡ reverse t → s ≡ t
reverse_injective s t e = sym (reverse-reverse s) ∙ ap reverse e ∙ reverse-reverse t

pub number_key_injective :
    (s t : Text) (m n : ℕ) → number_key s m ≡ number_key t n → (s ≡ t) × (m ≡ n)
number_key_injective s t m n e =
    let sides = sym (reverse-number_key s m) ∙ ap reverse e ∙ reverse-number_key t n in
    (
      reverse_injective s t (
          sym (after-append b':' _ _ (Without-reverse b':' _ (decimal-Without-colon m)))
          ∙ ap (after b':') sides
          ∙ after-append b':' _ _ (Without-reverse b':' _ (decimal-Without-colon n))),
      decimal_injective m n (
          reverse_injective _ _ (
            sym
              (before-append b':' _ (reverse s) (Without-reverse b':' _ (decimal-Without-colon m)))
            ∙ ap (before b':') sides
            ∙ before-append b':' _ (reverse t) (Without-reverse b':' _ (decimal-Without-colon n)))),
    )
