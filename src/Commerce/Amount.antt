-- ===== src/Commerce/Amount.antt =====
-- src/domain/commerce/stars-amount.ts and src/telegram/stars-amount.ts: exact amounts of Telegram
-- Stars and TON. A `bigint` is an integer; a Telegram amount is one of the two constructors of the
-- GramJS schema, or another one, on which the normalisation throws (`none`).
pub mod Digits
pub mod Exact
pub mod Tests
use anonka.Prelude.{
  ℕ, zero, suc, ◌+◌, ◌-◌, ◌*◌, ◌/◌, ◌%◌, Bool, true, false, ◌&&◌, List, [], ◌∷◌, ◌++◌, Option, none,
  some, Text, text, length, if◌then◌else◌, ◌==◌,
}
use anonka.Prelude.Int.{ℤ, pos, negsuc, neg_ℕ, pos_part, neg_part, ◌+ℤ◌, ◌*ℤ◌}
use anonka.Prelude.Decimal.{decimal, is_digit, value}

pub data StarsAsset : Type 0 where
  stars ton : StarsAsset

pub record NormalizedStarsAmount : Type 0 where
  pub asset : StarsAsset
  pub units : Text
  pub nanos : ℤ
  pub decimal : Text

abbrev pub minimal_units_per_whole : ℕ
minimal_units_per_whole = 1_000_000_000

-- `"0".repeat(n)`
abbrev pub zeros : ℕ → Text
zeros zero = []
zeros (suc n) = b'0' ∷ zeros n

-- `s.padStart(n, "0")`
abbrev pub pad_start : ℕ → Text → Text
pad_start n s = zeros (n - length s) ++ s

abbrev pub is_empty : Text → Bool
is_empty [] = true
is_empty (_ ∷ _) = false

-- `s.replace(/0+$/, "")`
unfoldable pub strip_zeros : Text → Text
strip_zeros [] = []
strip_zeros (c ∷ s) =
    let rest = strip_zeros s in if c == b'0' && is_empty rest then [] else c ∷ rest

-- `${n}` of a bigint.
abbrev pub int_text : ℤ → Text
int_text (pos n) = decimal n
int_text (negsuc n) = b'-' ∷ decimal (suc n)

-- `raw < 0n`
abbrev pub is_negative : ℤ → Bool
is_negative (pos _) = false
is_negative (negsuc _) = true

-- `negative ? -raw : raw`
abbrev pub abs : ℤ → ℕ
abs a = pos_part a + neg_part a

abbrev join_fraction : ℕ → Text → Text
join_fraction whole [] = decimal whole
join_fraction whole (c ∷ s) = decimal whole ++ b'.' ∷ c ∷ s

-- The text of an amount without its sign.
unfoldable pub unsigned_decimal : ℕ → Text
unfolding strip_zeros
unsigned_decimal n =
    join_fraction (n / minimal_units_per_whole)
      (strip_zeros (pad_start 9 (decimal (n % minimal_units_per_whole))))

unfoldable pub format_minimal_units_decimal : ℤ → Text
unfolding unsigned_decimal
format_minimal_units_decimal raw =
    if is_negative raw then b'-' ∷ unsigned_decimal (abs raw) else unsigned_decimal (abs raw)

abbrev all_digits : Text → Bool
all_digits [] = true
all_digits (c ∷ s) = is_digit c && all_digits s

-- `/^\d+$/.test(s)`
unfoldable pub is_digits : Text → Bool
is_digits [] = false
is_digits (c ∷ s) = is_digit c && all_digits s

-- `BigInt(s)` on an optional minus sign and decimal digits; `none` on any other text.
unfoldable pub big_int : Text → Option ℤ
unfolding is_digits
big_int [] = none
big_int (c ∷ s) =
    if c == b'-'
    then if is_digits s then some (neg_ℕ (value s)) else none
    else if is_digits (c ∷ s)
    then some (pos (value (c ∷ s)))
    else none

unfoldable pub format_stars_decimal : Text → ℤ → Option Text
unfolding big_int format_minimal_units_decimal ◌+ℤ◌ ◌*ℤ◌
format_stars_decimal units nanos = elim (big_int units) [
  | none ↦ none
  | some u ↦ some (format_minimal_units_decimal (u *ℤ pos minimal_units_per_whole +ℤ nanos))
]

pub record SplitUnits : Type 0 where
  pub units : Text
  pub nanos : ℤ
  pub decimal : Text

unfoldable pub split_minimal_units : ℤ → SplitUnits
unfolding format_minimal_units_decimal
split_minimal_units raw = record {
  units = if is_negative raw then b'-' ∷ decimal whole else decimal whole;
  nanos = if is_negative raw then neg_ℕ fraction else pos fraction;
  decimal = format_minimal_units_decimal raw;
}
  where
    whole : ℕ
    whole = abs raw / minimal_units_per_whole

    fraction : ℕ
    fraction = abs raw % minimal_units_per_whole

-- `Api.TypeStarsAmount`
pub data TypeStarsAmount : Type 0 where
  stars_amount : (amount nanos : ℤ) → TypeStarsAmount
  stars_ton_amount : (amount : ℤ) → TypeStarsAmount
  other_amount : TypeStarsAmount

abbrev with_decimal : Text → ℤ → Option Text → Option NormalizedStarsAmount
with_decimal units nanos none = none
with_decimal units nanos (some d) =
    some (record { asset = stars; units = units; nanos = nanos; decimal = d })

unfoldable pub normalize_stars_amount : TypeStarsAmount → Option NormalizedStarsAmount
unfolding format_stars_decimal split_minimal_units
normalize_stars_amount (stars_amount amount nanos) =
    with_decimal (int_text amount) nanos (format_stars_decimal (int_text amount) nanos)
normalize_stars_amount (stars_ton_amount amount) =
    let s = split_minimal_units amount in
    some (record { asset = ton; units = s.units; nanos = s.nanos; decimal = s.decimal })
normalize_stars_amount other_amount = none
