-- ===== src/Prelude/Decimal.antt =====
-- Decimal printing of numbers, as `toString` and template literals do, and its inverse.
use Prim.Native.Nat.{ℕ, suc, ◌+◌, ◌-◌, ◌*◌, ◌/◌, ◌%◌, ◌≤◌, ◌<◌, ◌^◌, zero}
use mathlib.Core.Path.{◌≡◌, refl, sym, ap, ◌∙◌}
use mathlib.Core.Logic.{◌≢◌, ◌⊎◌, dite, dif_pos, dif_neg}
use mathlib.Core.WellFounded.{Acc, WellFounded}
use mathlib.Core.Bool.{Bool, ◌&&◌}
use mathlib.Core.List.{[], ◌∷◌, ◌++◌}
use native.Mathlib.Omega.{arith}
use native.Mathlib.Decide.{dec_lt}
use native.Mathlib.Nat.{pow-suc}
use native.Mathlib.Bridge.{le_prop}
use anonka.Prelude.Tests.{leb}
use anonka.Prelude.Lists.{length, length-append, All, All-append}
use anonka.Prelude.Split.{Without}
use anonka.Prelude.Texts.{Text, text}

Acc-below : (k n : ℕ) → n < k → Acc ◌<◌ n
Acc-below ℕ.zero n h = elim h [ ]
Acc-below (suc k) n h = Acc.intro n (λ m hm. Acc-below k m (omega arith))

unfoldable pub lt_wf : WellFounded ◌<◌
unfolding Acc-below
lt_wf = record { apply = λ n. Acc-below (suc n) n (omega arith) }

-- The digits of `n`, the most significant first.
decimal_acc : (n : ℕ) → Acc ◌<◌ n → Text
decimal_acc n (Acc.intro _ smaller) =
    dite (dec_lt 9 n)
      (λ h. decimal_acc (n / 10) (smaller (n / 10) (omega arith)) ++ (n % 10 + 48) ∷ [])
      (λ _. (n + 48) ∷ [])

unfoldable pub decimal : ℕ → Text
unfolding decimal_acc lt_wf dec_lt
decimal n = decimal_acc n (lt_wf.apply n)

abbrev pub is_digit : ℕ → Bool
is_digit c = leb 48 c && leb c 57

abbrev pub IsDigit : ℕ → Type 0
IsDigit c = (48 ≤ c) × (c ≤ 57)

-- The value of a text of digits, read from the left.
unfoldable pub value_from : ℕ → Text → ℕ
value_from acc [] = acc
value_from acc (c ∷ s) = value_from (acc * 10 + (c - 48)) s

abbrev pub value : Text → ℕ
value s = value_from 0 s

pub value_from-append :
    (acc : ℕ) (s t : Text) → value_from acc (s ++ t) ≡ value_from (value_from acc s) t
unfolding value_from
value_from-append acc [] t = refl
value_from-append acc (c ∷ s) t = value_from-append (acc * 10 + (c - 48)) s t

append_ne_nil : (s : Text) (c : ℕ) → s ++ c ∷ [] ≢ []
append_ne_nil [] c e = cc
append_ne_nil (d ∷ s) c e = cc

decimal_acc-IsDigit : (n : ℕ) (w : Acc ◌<◌ n) → All IsDigit (decimal_acc n w)
unfolding decimal_acc
decimal_acc-IsDigit n (Acc.intro _ smaller) = elim (dec_lt 9 n) [
  | yes h ↦ rw (dif_pos _ le_prop h) (
      All-append IsDigit (decimal_acc (n / 10) (smaller (n / 10) _)) _
        (decimal_acc-IsDigit (n / 10) (smaller (n / 10) _)) (omega arith))
  | no h ↦ rw (dif_neg _ h) (omega arith)
]

value-decimal_acc : (n : ℕ) (w : Acc ◌<◌ n) → value (decimal_acc n w) ≡ n
unfolding decimal_acc value_from
value-decimal_acc n (Acc.intro _ smaller) = elim (dec_lt 9 n) [
  | yes h ↦ rw (dif_pos _ le_prop h) (
      rw (value_from-append 0 (decimal_acc (n / 10) (smaller (n / 10) _)))
        (rw (value-decimal_acc (n / 10) (smaller (n / 10) _)) (omega arith)))
  | no h ↦ rw (dif_neg _ h) (omega arith)
]

length-decimal_acc : (k n : ℕ) (w : Acc ◌<◌ n) → n < 10 ^ suc k → length (decimal_acc n w) ≤ suc k
unfolding decimal_acc
length-decimal_acc zero n (Acc.intro _ smaller) b = elim (dec_lt 9 n) [
  | yes h ↦ absurd (omega (arith, pow-suc 10 0))
  | no h ↦ rw (dif_neg _ h) (omega arith)
]
length-decimal_acc (suc k) n (Acc.intro _ smaller) b = elim (dec_lt 9 n) [
  | yes h ↦ rw (dif_pos _ le_prop h) (
      omega (
        arith,
        length-append (decimal_acc (n / 10) (smaller (n / 10) _)) ((n % 10 + 48) ∷ []),
        length-decimal_acc k (n / 10) (smaller (n / 10) _) (omega (arith, pow-suc 10 (suc k))),
      ))
  | no h ↦ rw (dif_neg _ h) (omega arith)
]

decimal_acc-cons : (n : ℕ) (w : Acc ◌<◌ n) → decimal_acc n w ≢ []
unfolding decimal_acc
decimal_acc-cons n (Acc.intro _ smaller) = elim (dec_lt 9 n) [
  | yes h ↦ rw (dif_pos _ le_prop h) (append_ne_nil (decimal_acc (n / 10) (smaller (n / 10) _)) _)
  | no h ↦ rw (dif_neg _ h) (λ e. cc)
]

-- A number below 10 ^ k has at most k digits, for a positive k.
pub length-decimal : (k n : ℕ) → n < 10 ^ suc k → length (decimal n) ≤ suc k
unfolding decimal
length-decimal k n b = length-decimal_acc k n (lt_wf.apply n) b

pub decimal-ne-nil : (n : ℕ) → decimal n ≢ []
unfolding decimal
decimal-ne-nil n = decimal_acc-cons n (lt_wf.apply n)

pub decimal-IsDigit : (n : ℕ) → All IsDigit (decimal n)
unfolding decimal
decimal-IsDigit n = decimal_acc-IsDigit n (lt_wf.apply n)

-- Printing loses nothing.
pub value-decimal : (n : ℕ) → value (decimal n) ≡ n
unfolding decimal
value-decimal n = value-decimal_acc n (lt_wf.apply n)

pub decimal_injective : (m n : ℕ) → decimal m ≡ decimal n → m ≡ n
decimal_injective m n e = sym (value-decimal m) ∙ ap value e ∙ value-decimal n

decimal_runs : decimal 1_000_200 ≡ text "1000200"
unfolding decimal
decimal_runs = refl

-- A separator that is no digit does not occur in a printed number.
pub Without-of_digits : (d : ℕ) (s : Text) → d < 48 ⊎ 57 < d → All IsDigit s → Without d s
Without-of_digits d [] h p = tt
Without-of_digits d (c ∷ s) h (p, q) = (omega arith, Without-of_digits d s h q)
