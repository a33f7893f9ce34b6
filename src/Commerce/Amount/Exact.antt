-- ===== src/Commerce/Amount/Exact.antt =====
-- The decimal texts of amounts are exact: an independent reader of such texts, into minimal units,
-- gives the amount back.
use native.Mathlib.Nat.{zero-add}
use mathlib.Core.List.{append-nil}
use anonka.Prelude.{
  ℕ, zero, suc, ◌+◌, ◌-◌, ◌*◌, ◌/◌, ◌%◌, ◌<◌, ◌≡◌, ◌≢◌, refl, ap, ◌∙◌, false, [], ◌∷◌, ◌++◌, some,
  Text, length, All, if◌then◌else◌, ◌==◌, arith, inl,
}
use anonka.Prelude.Int.{ℤ, pos, negsuc, neg_ℕ, ◌+ℤ◌, ◌*ℤ◌}
use anonka.Prelude.Split.{
  before, after, Without, before-append, after-append, before_of_Without, after_of_Without,
}
use anonka.Prelude.Decimal.{
  decimal, IsDigit, value, decimal-IsDigit, decimal-ne-nil, value-decimal, length-decimal,
  Without-of_digits,
}
use anonka.Commerce.Amount.{
  stars, NormalizedStarsAmount, minimal_units_per_whole, zeros, pad_start, strip_zeros, int_text,
  abs, join_fraction, unsigned_decimal, format_minimal_units_decimal, big_int, format_stars_decimal,
  split_minimal_units, TypeStarsAmount, stars_amount, stars_ton_amount, other_amount,
  normalize_stars_amount,
}
use anonka.Commerce.Amount.Digits.{
  value-zeros-append, length-pad_start, strip_zeros-append-zeros, big_int-decimal,
  big_int-minus-decimal, big_int-int_text,
}

-- An unsigned text, read as whole units and up to nine digits of fraction, in minimal units.
abbrev pub read_unsigned : Text → ℕ
read_unsigned s =
    value (before b'.' s) * minimal_units_per_whole
    + value (after b'.' s ++ zeros (9 - length (after b'.' s)))

abbrev pub read_amount : Text → ℤ
read_amount [] = pos 0
read_amount (c ∷ s) = if c == b'-' then neg_ℕ (read_unsigned s) else pos (read_unsigned (c ∷ s))

decimal-Without-dot : (n : ℕ) → Without b'.' (decimal n)
decimal-Without-dot n = Without-of_digits b'.' (decimal n) (inl (omega arith)) (decimal-IsDigit n)

read-join_fraction :
    (w : ℕ) (q : Text)
    → read_unsigned (join_fraction w q)
      ≡ w * minimal_units_per_whole + value (q ++ zeros (9 - length q))
read-join_fraction w [] =
    rw (before_of_Without b'.' (decimal w) (decimal-Without-dot w))
      (rw (after_of_Without b'.' (decimal w) (decimal-Without-dot w)) (rw (value-decimal w)))
read-join_fraction w (c ∷ s) =
    rw (before-append b'.' (decimal w) (c ∷ s) (decimal-Without-dot w))
      (rw (after-append b'.' (decimal w) (c ∷ s) (decimal-Without-dot w)) (rw (value-decimal w)))

length-padded : (f : ℕ) → f < minimal_units_per_whole → length (pad_start 9 (decimal f)) ≡ 9
length-padded f h = length-pad_start 9 (decimal f) (length-decimal 8 f h)

strip_zeros-append-zeros_of_length :
    (n : ℕ) (p : Text) → length p ≡ n → strip_zeros p ++ zeros (n - length (strip_zeros p)) ≡ p
strip_zeros-append-zeros_of_length n p e = rw (← e) (strip_zeros-append-zeros p)

value-stripped :
    (f : ℕ)
    → f < minimal_units_per_whole
    → let q = strip_zeros (pad_start 9 (decimal f)) in value (q ++ zeros (9 - length q)) ≡ f
value-stripped f h =
    ap (λ s. value s) (strip_zeros-append-zeros_of_length 9 _ (length-padded f h))
    ∙ value-zeros-append (9 - length (decimal f)) (decimal f)
    ∙ value-decimal f

read-unsigned_decimal : (n : ℕ) → read_unsigned (unsigned_decimal n) ≡ n
unfolding unsigned_decimal
read-unsigned_decimal n =
    read-join_fraction (n / minimal_units_per_whole) _
    ∙ omega (arith, value-stripped (n % minimal_units_per_whole) (omega arith))

-- A text that begins with a digit is read without a sign.
read_amount_of_digit :
    (s t : Text) → s ≢ [] → All IsDigit s → read_amount (s ++ t) ≡ pos (read_unsigned (s ++ t))
read_amount_of_digit [] t n h = absurd (n refl)
read_amount_of_digit (c ∷ s) t n (p, h) = let e : (c == b'-') ≡ false = ground arith in rw e

read_amount-join_fraction :
    (w : ℕ) (q : Text) → read_amount (join_fraction w q) ≡ pos (read_unsigned (join_fraction w q))
read_amount-join_fraction w [] =
    rw (← append-nil (decimal w))
      (read_amount_of_digit (decimal w) [] (decimal-ne-nil w) (decimal-IsDigit w))
read_amount-join_fraction w (c ∷ s) =
    read_amount_of_digit (decimal w) _ (decimal-ne-nil w) (decimal-IsDigit w)

-- Formatting a signed number of minimal units loses nothing: reading the text, as an optional minus
-- sign, whole units and up to nine digits of fraction, gives the number back.
pub read_amount-format_minimal_units_decimal :
    (raw : ℤ) → read_amount (format_minimal_units_decimal raw) ≡ raw
unfolding format_minimal_units_decimal unsigned_decimal
read_amount-format_minimal_units_decimal (pos n) =
    read_amount-join_fraction ((n + 0) / minimal_units_per_whole) _
    ∙ ap pos (read-unsigned_decimal (n + 0) ∙ omega arith)
read_amount-format_minimal_units_decimal (negsuc n) =
    ap neg_ℕ (read-unsigned_decimal (0 + suc n)) ∙ rw (zero-add (suc n))

negated_parts :
    (w f n : ℕ)
    → w * minimal_units_per_whole + f ≡ suc n
    → neg_ℕ w *ℤ pos minimal_units_per_whole +ℤ neg_ℕ f ≡ negsuc n
unfolding ◌*ℤ◌ ◌+ℤ◌
negated_parts zero zero n h = ground arith
negated_parts zero (suc f) n h = ground arith
negated_parts (suc w) zero n h = ground arith
negated_parts (suc w) (suc f) n h = ground arith

abs-neg_ℕ-lt : (f m : ℕ) → f < m → abs (neg_ℕ f) < m
abs-neg_ℕ-lt zero m h = omega arith
abs-neg_ℕ-lt (suc f) m h = omega arith

-- Splitting a signed number of minimal units is exact: `BigInt` reads the units, the units and the
-- nanos add up to the number, the nanos stay below one whole unit on either side of zero, and the
-- decimal text denotes the same number.
pub split_minimal_units_exact :
    (raw : ℤ)
    → let s = split_minimal_units raw in
      (u : ℤ) × (big_int s.units ≡ some u)
      × (u *ℤ pos minimal_units_per_whole +ℤ s.nanos ≡ raw)
      × (abs s.nanos < minimal_units_per_whole)
      × (read_amount s.decimal ≡ raw)
unfolding split_minimal_units ◌*ℤ◌ ◌+ℤ◌
split_minimal_units_exact (pos n) = (
  pos ((n + 0) / minimal_units_per_whole),
  big_int-decimal _,
  ground arith,
  omega arith,
  read_amount-format_minimal_units_decimal (pos n),
)
split_minimal_units_exact (negsuc n) = (
  neg_ℕ ((0 + suc n) / minimal_units_per_whole),
  big_int-minus-decimal _,
  negated_parts _ _ n (omega arith),
  abs-neg_ℕ-lt _ _ (omega arith),
  read_amount-format_minimal_units_decimal (negsuc n),
)

-- The amount of minimal units that a Telegram amount stands for: a Stars amount is whole Stars and
-- a fraction, a TON amount is minimal units already.
abbrev pub minimal_units : TypeStarsAmount → ℤ
minimal_units (stars_amount amount nanos) = amount *ℤ pos minimal_units_per_whole +ℤ nanos
minimal_units (stars_ton_amount amount) = amount
minimal_units other_amount = pos 0

-- A Telegram amount of either known constructor is normalised, without loss: the decimal text
-- denotes exactly the amount's minimal units, and so do the units and the nanos together.
pub normalize_stars_amount_exact :
    (a : TypeStarsAmount)
    → a ≢ other_amount
    → (n : NormalizedStarsAmount) × (u : ℤ) × (normalize_stars_amount a ≡ some n)
      × (read_amount n.decimal ≡ minimal_units a)
      × (big_int n.units ≡ some u)
      × (u *ℤ pos minimal_units_per_whole +ℤ n.nanos ≡ minimal_units a)
unfolding normalize_stars_amount
normalize_stars_amount_exact (stars_amount amount nanos) h = (
  record {
    asset = stars;
    units = int_text amount;
    nanos = nanos;
    decimal = format_minimal_units_decimal (amount *ℤ pos minimal_units_per_whole +ℤ nanos);
  },
  amount,
  rw (big_int-int_text amount, format_stars_decimal),
  read_amount-format_minimal_units_decimal _,
  big_int-int_text amount,
  refl,
)
normalize_stars_amount_exact (stars_ton_amount amount) h =
    let (u, reads, adds, _, text) = split_minimal_units_exact amount in
    (_, u, refl, text, reads, adds)
normalize_stars_amount_exact other_amount h = absurd (h refl)
