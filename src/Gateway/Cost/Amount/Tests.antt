-- ===== src/Gateway/Cost/Amount/Tests.antt =====
-- Amounts as the price list writes them.
use osanwe.Prelude.{ℕ, ◌+◌, ◌-◌, ◌≤◌, ◌<◌, ◌≡◌, refl, some, ◌++◌, length}
use osanwe.Prelude.Go.{ok, err, max_u64}
use osanwe.Prelude.Text.{codes, digits_of}
use osanwe.Gateway.Cost.{amount_malformed, amount_not_positive}
use osanwe.Gateway.Cost.Amount.{parse_currency_micros}
use osanwe.Gateway.Cost.Amount.Digits.{whole_of, fraction_of, padded, parse_currency_micros-exact}

three_and_a_half : parse_currency_micros (codes "3.5") ≡ ok 3500000
unfolding parse_currency_micros osanwe.Prelude.Text.bytes_eq osanwe.Prelude.Text.trim_space
    osanwe.Prelude.Text.trim_left osanwe.Prelude.Text.is_space osanwe.Prelude.Text.count_byte
    osanwe.Gateway.Cost.Amount.parse_parts osanwe.Prelude.Text.cut
    osanwe.Gateway.Cost.Amount.parse_uint digits_of osanwe.Prelude.Text.digits_from
    osanwe.Gateway.Cost.Amount.parse_fraction
three_and_a_half = refl

parse_currency_micros-exact_example :
    (length (fraction_of (codes "3.5")) ≤ 6)
    × (digits_of (whole_of (codes "3.5") ++ padded (fraction_of (codes "3.5"))) ≡ some 3500000)
    × (0 < 3500000)
    × (3500000 ≤ max_u64)
parse_currency_micros-exact_example =
    parse_currency_micros-exact (codes "3.5") 3500000 three_and_a_half

nothing : parse_currency_micros (codes "0.000000") ≡ err amount_not_positive
unfolding parse_currency_micros osanwe.Prelude.Text.bytes_eq osanwe.Prelude.Text.trim_space
    osanwe.Prelude.Text.trim_left osanwe.Prelude.Text.is_space osanwe.Prelude.Text.count_byte
    osanwe.Gateway.Cost.Amount.parse_parts osanwe.Prelude.Text.cut
    osanwe.Gateway.Cost.Amount.parse_uint digits_of osanwe.Prelude.Text.digits_from
    osanwe.Gateway.Cost.Amount.parse_fraction
nothing = refl

seven_places : parse_currency_micros (codes "0.0000001") ≡ err amount_malformed
unfolding parse_currency_micros osanwe.Prelude.Text.bytes_eq osanwe.Prelude.Text.trim_space
    osanwe.Prelude.Text.trim_left osanwe.Prelude.Text.is_space osanwe.Prelude.Text.count_byte
    osanwe.Gateway.Cost.Amount.parse_parts osanwe.Prelude.Text.cut
seven_places = refl
