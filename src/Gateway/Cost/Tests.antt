-- ===== src/Gateway/Cost/Tests.antt =====
-- internal/gateway/cost.go on concrete prices.
use osanwe.Prelude.{◌+◌, ◌*◌, ◌≤◌, ◌<◌, ◌≡◌, refl}
use osanwe.Prelude.Go.{pos, negsuc, ok, err, max_u64}
use osanwe.Gateway.Cost.{
  CostRates, both_prices_required, estimate_needs_positive, estimate_overflow, ceil_mul_div,
  estimate_cost_micros, valid_optional, priced, micros_per_unit,
}
use osanwe.Gateway.Cost.Arithmetic.{CeilOutcome, ceil_mul_div-CeilOutcome}
use osanwe.Gateway.Cost.Estimate.{exact_price, estimate-covers}

-- 3.00 and 15.00 per million tokens.
abbrev sonnet : CostRates
sonnet = record { input_micros_per_million = 3000000; output_micros_per_million = 15000000 }

ceil_mul_div_exact : ceil_mul_div 1500 2000000 1000000 ≡ ok 3000
unfolding ceil_mul_div
ceil_mul_div_exact = refl

ceil_mul_div_up : ceil_mul_div 1 1 1000000 ≡ ok 1
unfolding ceil_mul_div
ceil_mul_div_up = refl

ceil_mul_div_high : ceil_mul_div max_u64 max_u64 1000000 ≡ err estimate_overflow
unfolding ceil_mul_div
ceil_mul_div_high = refl

estimate_small : estimate_cost_micros (pos 1000) (pos 500) sonnet ≡ ok 13572
unfolding estimate_cost_micros valid_optional priced ceil_mul_div
estimate_small = refl

estimate_negative : estimate_cost_micros (negsuc 0) (pos 500) sonnet ≡ err estimate_needs_positive
unfolding estimate_cost_micros
estimate_negative = refl

one_price :
    valid_optional (record { input_micros_per_million = 5; output_micros_per_million = 0 })
    ≡ err both_prices_required
unfolding valid_optional
one_price = refl

ceil_mul_div_outcome_example : CeilOutcome (7 * 3) 2 (ceil_mul_div 7 3 2)
ceil_mul_div_outcome_example = ceil_mul_div-CeilOutcome 7 3 2

estimate-covers_example :
    (exact_price 1000 500 sonnet ≤ 13572 * micros_per_unit)
    × (13572 * micros_per_unit < exact_price 1000 500 sonnet + 2 * micros_per_unit)
    × (13572 ≤ max_u64)
unfolding priced
estimate-covers_example = estimate-covers 1000 500 sonnet 13572 refl estimate_small
