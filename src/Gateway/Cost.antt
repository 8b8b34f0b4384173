-- ===== src/Gateway/Cost.antt =====
-- internal/gateway/cost.go: conservative price estimates in uint64 arithmetic. The children prove
-- what the arithmetic computes (Arithmetic) and what an amount parses to (Amount).
pub mod Arithmetic
pub mod Estimate
pub mod Amount
mod Tests
use osanwe.Prelude.{ℕ, ◌+◌, ◌-◌, ◌*◌, ◌/◌, ◌%◌, Bool, ◌&&◌, ◌||◌, ltb, ◌==◌, if◌then◌else◌, not}
use osanwe.Prelude.Go.{ℤ, pos, negsuc, Result, ok, err, ◌>>=◌, max_u64, add64, mul64}

abbrev pub micros_per_unit : ℕ
micros_per_unit = 1000000

abbrev pub input_token_padding : ℕ
input_token_padding = 1024

abbrev pub maximum_price_per_million : ℕ
maximum_price_per_million = 1000000000000

pub record CostRates : Type 0 where
  pub input_micros_per_million : ℕ
  pub output_micros_per_million : ℕ

pub data CostError : Type 0 where
  both_prices_required price_out_of_range estimate_needs_positive estimate_overflow : CostError
  amount_malformed amount_too_large amount_not_positive : CostError

unfoldable pub valid_optional : CostRates → Result CostError (Unit {0})
valid_optional r =
    if r.input_micros_per_million == 0 && r.output_micros_per_million == 0
    then ok tt
    else if r.input_micros_per_million == 0 || r.output_micros_per_million == 0
    then err both_prices_required
    else if ltb maximum_price_per_million r.input_micros_per_million
        || ltb maximum_price_per_million r.output_micros_per_million
    then err price_out_of_range
    else ok tt

unfoldable pub priced : CostRates → Bool
priced r = ltb 0 r.input_micros_per_million && ltb 0 r.output_micros_per_million

-- bits.Mul64 gives the two words of the product, and bits.Div64 divides them.
mul_hi : ℕ → ℕ → ℕ
mul_hi left right = left * right / 18446744073709551616

mul_lo : ℕ → ℕ → ℕ
mul_lo left right = mul64 left right

div_words : ℕ → ℕ → ℕ → ℕ
div_words hi lo divisor = (hi * 18446744073709551616 + lo) / divisor

rem_words : ℕ → ℕ → ℕ → ℕ
rem_words hi lo divisor = (hi * 18446744073709551616 + lo) % divisor

unfoldable pub ceil_mul_div : ℕ → ℕ → ℕ → Result CostError ℕ
unfolding mul_hi mul_lo div_words rem_words
ceil_mul_div left right divisor =
    let hi = mul_hi left right in
    let lo = mul_lo left right in
    let quotient = div_words hi lo divisor in
    let remainder = rem_words hi lo divisor in
    if divisor == 0 || not (ltb hi divisor)
    then err estimate_overflow
    else if not (remainder == 0)
    then (if quotient == max_u64 then err estimate_overflow else ok (add64 quotient 1))
    else ok quotient

-- A sum of two prices, refused where it would wrap.
add_costs : ℕ → Result CostError ℕ → Result CostError ℕ
add_costs input_cost (err e) = err estimate_overflow
add_costs input_cost (ok output_cost) =
    if ltb (max_u64 - output_cost) input_cost
    then err estimate_overflow
    else ok (add64 input_cost output_cost)

-- The estimate once both counts are known to be positive and the rates to be valid.
estimate_priced : ℕ → ℕ → CostRates → Result CostError ℕ
unfolding add_costs
estimate_priced input_units max_output_tokens rates =
    if ltb (max_u64 - input_token_padding) input_units then err estimate_overflow else do
      input_cost ←
          ceil_mul_div (add64 input_units input_token_padding) rates.input_micros_per_million
            micros_per_unit
      add_costs input_cost
          (ceil_mul_div max_output_tokens rates.output_micros_per_million micros_per_unit)

unfoldable pub estimate_cost_micros : ℤ → ℤ → CostRates → Result CostError ℕ
unfolding estimate_priced
estimate_cost_micros (pos input_bytes) (pos max_output_tokens) rates =
    if ltb input_bytes 1 || ltb max_output_tokens 1 then err estimate_needs_positive else do
      _ ← valid_optional rates
      if not (priced rates) then ok 0 else estimate_priced input_bytes max_output_tokens rates
estimate_cost_micros (negsuc _) _ _ = err estimate_needs_positive
estimate_cost_micros (pos _) (negsuc _) _ = err estimate_needs_positive
