-- ===== src/Gateway/Cost/Estimate.antt =====
-- internal/gateway/cost.go, EstimateCostMicros: the estimate covers the price of every input byte
-- and output token, is less than two millionths above it, and exists for all sizes in practice.
use osanwe.Prelude.{ℕ, ◌+◌, ◌*◌, ◌≤◌, ◌<◌, ◌≡◌, true, inl, inr, arith}
use osanwe.Prelude.Go.{pos, Result-cases, ok, max_u64}
use osanwe.Gateway.Cost.{
  CostRates, estimate_cost_micros, input_token_padding, maximum_price_per_million, micros_per_unit,
  valid_optional, priced,
}
use osanwe.Gateway.Cost.Arithmetic.{ceil_mul_div-CeilOutcome}

-- The exact price of a request in millionths of a micro-unit, padding included.
abbrev pub exact_price : ℕ → ℕ → CostRates → ℕ
exact_price input_bytes max_output_tokens r =
    (input_bytes + input_token_padding) * r.input_micros_per_million
    + max_output_tokens * r.output_micros_per_million

-- An estimate of a priced route is at least the exact price, less than two units above it, and a
-- uint64.
pub estimate-covers :
    (input_bytes max_output_tokens : ℕ) (r : CostRates) (cost : ℕ)
    → priced r ≡ true
    → estimate_cost_micros (pos input_bytes) (pos max_output_tokens) r ≡ ok cost
    → (exact_price input_bytes max_output_tokens r ≤ cost * micros_per_unit)
      × (cost * micros_per_unit < exact_price input_bytes max_output_tokens r + 2 * micros_per_unit)
      × (cost ≤ max_u64)
unfolding estimate_cost_micros
estimate-covers i o r cost h e = ground (
  arith,
  ceil_mul_div-CeilOutcome (i + input_token_padding) r.input_micros_per_million micros_per_unit,
  ceil_mul_div-CeilOutcome o r.output_micros_per_million micros_per_unit,
)

-- A request of at most 8,000,000,000,000 bytes and as many tokens, at valid prices, always has an
-- estimate: the arithmetic reports no overflow.
pub estimate-total :
    (input_bytes max_output_tokens : ℕ) (r : CostRates)
    → 0 < input_bytes
    → input_bytes ≤ 8000000000000
    → 0 < max_output_tokens
    → max_output_tokens ≤ 8000000000000
    → valid_optional r ≡ ok tt
    → (cost : ℕ) × (estimate_cost_micros (pos input_bytes) (pos max_output_tokens) r ≡ ok cost)
unfolding estimate_cost_micros valid_optional priced
estimate-total i o r hi hi' ho ho' v =
    elim (Result-cases (estimate_cost_micros (pos i) (pos o) r)) [
      | inl (c, e) ↦ (c, e)
      | inr (x, e) ↦ absurd (
          ground (
            arith,
            price_le (i + input_token_padding) r.input_micros_per_million,
            price_le o r.output_micros_per_million,
            ceil_mul_div-CeilOutcome (i + input_token_padding) r.input_micros_per_million
                micros_per_unit,
            ceil_mul_div-CeilOutcome o r.output_micros_per_million micros_per_unit,
          ))
    ]
  where
    price_le :
        (n p : ℕ)
        → n ≤ 8000000001024
        → p ≤ maximum_price_per_million
        → n * p ≤ 8000000001024 * maximum_price_per_million
    price_le n p h k = grind arith
