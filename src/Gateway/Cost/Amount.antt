-- ===== src/Gateway/Cost/Amount.antt =====
-- internal/gateway/cost.go: ParseCurrencyMicros.
pub mod Digits
mod Tests
use osanwe.Prelude.{
  ℕ, zero, suc, ◌+◌, ◌-◌, ◌*◌, ◌/◌, Bool, true, false, not, ◌&&◌, ◌||◌, Option, none, some, List,
  [], ◌∷◌, ◌++◌, length, ltb, leb, ◌==◌, if◌then◌else◌,
}
use osanwe.Prelude.Go.{Result, ok, err, ◌>>=◌, max_u64, add64, mul64}
use osanwe.Prelude.Text.{bytes_eq, trim_space, count_byte, cut, digits_of}
use osanwe.Gateway.Cost.{
  CostError, amount_malformed, amount_too_large, amount_not_positive, micros_per_unit,
}

abbrev pub zeros : ℕ → List ℕ
zeros zero = []
zeros (suc n) = 48 ∷ zeros n

in_range : Option ℕ → Result CostError ℕ
in_range none = err amount_malformed
in_range (some n) = if leb n max_u64 then ok n else err amount_malformed

-- strconv.ParseUint in base 10.
pub parse_uint : List ℕ → Result CostError ℕ
unfolding in_range
parse_uint s = in_range (digits_of s)

-- The part before the dot, "0" where it is empty, and the part behind it.
pub or_zero : List ℕ → List ℕ
or_zero [] = 48 ∷ []
or_zero (c ∷ s) = c ∷ s

pub parts_of : List ℕ → Option (List ℕ × List ℕ) → List ℕ × List ℕ
unfolding or_zero
parts_of value none = (or_zero value, [])
parts_of value (some (whole, fraction)) = (or_zero whole, fraction)

pub parse_fraction : List ℕ → Result CostError ℕ
parse_fraction [] = ok 0
parse_fraction (c ∷ s) = parse_uint (c ∷ s ++ zeros (6 - length (c ∷ s)))

pub to_micros : ℕ → ℕ → Result CostError ℕ
to_micros whole fraction =
    if ltb ((max_u64 - fraction) / micros_per_unit) whole
    then err amount_too_large
    else if add64 (mul64 whole micros_per_unit) fraction == 0
    then err amount_not_positive
    else ok (add64 (mul64 whole micros_per_unit) fraction)

pub parse_parts : List ℕ × List ℕ → Result CostError ℕ
unfolding to_micros
parse_parts (whole_text, fraction_text) =
    if ltb 6 (length fraction_text) then err amount_malformed else do
      whole ← parse_uint whole_text
      fraction ← parse_fraction fraction_text
      to_micros whole fraction

-- ParseCurrencyMicros
unfoldable pub parse_currency_micros : List ℕ → Result CostError ℕ
unfolding parts_of
parse_currency_micros value =
    if length value == 0 || (not (bytes_eq (trim_space value) value) || ltb 1 (count_byte 46 value))
    then err amount_malformed
    else parse_parts (parts_of value (cut 46 value))
