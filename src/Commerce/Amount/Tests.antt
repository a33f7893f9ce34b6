-- ===== src/Commerce/Amount/Tests.antt =====
-- Amounts at concrete inputs.
use anonka.Prelude.{◌≡◌, refl, none, some, text}
use anonka.Prelude.Int.{ℤ, pos, negsuc, ◌+ℤ◌, ◌*ℤ◌}
use anonka.Commerce.Amount.{
  NormalizedStarsAmount, big_int, format_minimal_units_decimal, format_stars_decimal,
  minimal_units_per_whole, normalize_stars_amount, stars_ton_amount, other_amount,
}
use anonka.Commerce.Amount.Exact.{minimal_units, normalize_stars_amount_exact, read_amount}
use anonka.Prelude.Decimal.{decimal, value_from}

-- The sources' own examples.
formats :
    (format_minimal_units_decimal (pos 5_250_000_000) ≡ text "5.25")
    × (format_minimal_units_decimal (negsuc 2_499_999_999) ≡ text "-2.5")
    × (format_minimal_units_decimal (pos 5_000_000_000) ≡ text "5")
    × (format_stars_decimal (text "5") (pos 250_000_000) ≡ some (text "5.25"))
    × (format_stars_decimal (text "-2") (negsuc 499_999_999) ≡ some (text "-2.5"))
    × (normalize_stars_amount other_amount ≡ none)
unfolding format_minimal_units_decimal format_stars_decimal decimal normalize_stars_amount
    value_from
formats = (refl, refl, refl, refl, refl, refl)

abbrev debt : ℤ
debt = negsuc 2_499_999_999

normalize_stars_amount_example :
    (n : NormalizedStarsAmount) × (u : ℤ) × (normalize_stars_amount (stars_ton_amount debt)
      ≡ some n)
    × (read_amount n.decimal ≡ minimal_units (stars_ton_amount debt))
    × (big_int n.units ≡ some u)
    × (u *ℤ pos minimal_units_per_whole +ℤ n.nanos ≡ minimal_units (stars_ton_amount debt))
normalize_stars_amount_example = normalize_stars_amount_exact (stars_ton_amount debt) (λ e. cc)
