-- ===== src/Commerce/Amount/Digits.antt =====
-- Lemmas on texts of digits: reading them, padding them, and dropping the zeros at their end.
use anonka.Prelude.{
  ℕ, zero, suc, ◌-◌, ◌≤◌, ◌≡◌, refl, ap, ◌≢◌, true, [], ◌∷◌, ◌++◌, some, Text, length,
  length-append, All, arith,
}
use anonka.Prelude.Int.{ℤ, pos, negsuc, neg_ℕ}
use anonka.Prelude.Decimal.{
  decimal, IsDigit, value, value_from, decimal-IsDigit, decimal-ne-nil, value-decimal,
}
use anonka.Commerce.Amount.{
  zeros, pad_start, is_empty, strip_zeros, all_digits, is_digits, big_int, int_text,
}

pub length-zeros : (n : ℕ) → length (zeros n) ≡ n
length-zeros zero = refl
length-zeros (suc n) = ap suc (length-zeros n)

pub value-zeros-append : (n : ℕ) (s : Text) → value (zeros n ++ s) ≡ value s
unfolding value_from
value-zeros-append zero s = refl
value-zeros-append (suc n) s = value-zeros-append n s

pub length-pad_start : (n : ℕ) (s : Text) → length s ≤ n → length (pad_start n s) ≡ n
length-pad_start n s h =
    omega (arith, length-append (zeros (n - length s)) s, length-zeros (n - length s))

pub length-strip_zeros-le : (s : Text) → length (strip_zeros s) ≤ length s
unfolding strip_zeros
length-strip_zeros-le [] = omega arith
length-strip_zeros-le (c ∷ s) = ground (arith, length-strip_zeros-le s)

is_empty_eq : (s : Text) → is_empty s ≡ true → s ≡ []
is_empty_eq [] h = refl
is_empty_eq (_ ∷ _) h = cc

-- What `strip_zeros` drops is zeros, as many as the text is shorter by.
pub strip_zeros-append-zeros :
    (s : Text) → strip_zeros s ++ zeros (length s - length (strip_zeros s)) ≡ s
unfolding strip_zeros
strip_zeros-append-zeros [] = refl
strip_zeros-append-zeros (c ∷ s) =
    ground (arith, strip_zeros-append-zeros s, is_empty_eq (strip_zeros s), length-strip_zeros-le s)

all_digits_of_IsDigit : (s : Text) → All IsDigit s → all_digits s ≡ true
all_digits_of_IsDigit [] h = refl
all_digits_of_IsDigit (c ∷ s) (p, h) = ground (arith, all_digits_of_IsDigit s h)

is_digits_of_IsDigit : (s : Text) → s ≢ [] → All IsDigit s → is_digits s ≡ true
unfolding is_digits
is_digits_of_IsDigit [] n h = absurd (n refl)
is_digits_of_IsDigit (c ∷ s) n (p, h) = ground (arith, all_digits_of_IsDigit s h)

pub is_digits-decimal : (n : ℕ) → is_digits (decimal n) ≡ true
is_digits-decimal n = is_digits_of_IsDigit (decimal n) (decimal-ne-nil n) (decimal-IsDigit n)

big_int_of_digits : (s : Text) → s ≢ [] → All IsDigit s → big_int s ≡ some (pos (value s))
unfolding big_int
big_int_of_digits [] n h = absurd (n refl)
big_int_of_digits (c ∷ s) n h = ground (arith, is_digits_of_IsDigit (c ∷ s) n h)

pub big_int-decimal : (n : ℕ) → big_int (decimal n) ≡ some (pos n)
big_int-decimal n =
    rw (big_int_of_digits (decimal n) (decimal-ne-nil n) (decimal-IsDigit n)) (rw (value-decimal n))

pub big_int-minus-decimal : (n : ℕ) → big_int (b'-' ∷ decimal n) ≡ some (neg_ℕ n)
unfolding big_int
big_int-minus-decimal n = rw (is_digits-decimal n) (rw (value-decimal n))

-- `BigInt` reads back every printed integer.
pub big_int-int_text : (a : ℤ) → big_int (int_text a) ≡ some a
big_int-int_text (pos n) = big_int-decimal n
big_int-int_text (negsuc n) = big_int-minus-decimal (suc n)
