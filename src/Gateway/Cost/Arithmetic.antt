-- ===== src/Gateway/Cost/Arithmetic.antt =====
-- internal/gateway/cost.go, ceilMulDiv and EstimateCostMicros: the two-word division computes the
-- exact ceiling or reports an overflow, and the estimate covers the price that it stands for.
use native.Mathlib.Nat.{mul_comm, div-add-mod', lt_of_mul-lt-mul_left}
use osanwe.Prelude.{
  ℕ, zero, suc, ◌+◌, ◌*◌, ◌/◌, ◌%◌, ◌≤◌, ◌<◌, ◌≡◌, refl, ◌⊎◌, inl, inr, ◌||◌, not, ltb,
  if◌then◌else◌, ◌==◌, arith,
}
use osanwe.Prelude.Go.{Result, ok, err, max_u64, add64, Result-cases}
use osanwe.Gateway.Cost.{CostError, estimate_overflow, ceil_mul_div}

-- `q` is the least number of whole units that cover `n` parts of which `d` make a unit.
abbrev pub IsCeil : ℕ → ℕ → ℕ → Type 0
IsCeil q n d = (n ≤ q * d) × (q * d < n + d)

-- What an answer of the division means, errors included.
abbrev pub CeilOutcome : ℕ → ℕ → Result CostError ℕ → Type 0
CeilOutcome n d r =
    ((q : ℕ) × (r ≡ ok q) × ((0 < d) × IsCeil q n d × (q ≤ max_u64)))
    ⊎ ((r ≡ err estimate_overflow) × ((d ≡ 0) ⊎ (max_u64 * d < n)))

-- The two words together are the product.
words : (p : ℕ) → p / 18446744073709551616 * 18446744073709551616 + p % 18446744073709551616 ≡ p
words p = omega arith

-- A quotient below 2 ^ 64 fits in a word, and one that does not needs more than a word.
fits : (p d q r : ℕ) → q * d + r ≡ p → r < d → p / 18446744073709551616 < d → q ≤ max_u64
fits p d q r e small h = omega (
  arith,
  lt_of_mul-lt-mul_left d {m = q} {n = 18446744073709551616} (omega (arith, mul_comm d q)),
)

too_big : (p d : ℕ) → 0 < d → d ≤ p / 18446744073709551616 → max_u64 * d < p
too_big p d h k = omega arith

-- The tests of ceilMulDiv, on a quotient and a remainder that are known.
rounding : (p d q r : ℕ) → Result CostError ℕ
rounding p d q r =
    if d == 0 || not (ltb (p / 18446744073709551616) d)
    then err estimate_overflow
    else if not (r == 0)
    then (if q == max_u64 then err estimate_overflow else ok (add64 q 1))
    else ok q

next : (q d : ℕ) → q < max_u64 → add64 q 1 * d ≡ q * d + d
next q d h = let e : add64 q 1 ≡ q + 1 = omega arith in rw e (omega arith)

at_max : (q d : ℕ) → q ≡ max_u64 → q * d ≡ max_u64 * d
at_max q d h = rw h

rounding-CeilOutcome :
    (p d q r : ℕ) → 0 < d → q * d + r ≡ p → r < d → CeilOutcome p d (rounding p d q r)
unfolding rounding
rounding-CeilOutcome p d q r h e small = elim (Result-cases (rounding p d q r)) [
  | inl (c, g) ↦ inl (c, g, ground (arith, fits p d q r, next q d))
  | inr (x, g) ↦ inr (ground (arith, too_big p d, at_max q d))
]

-- ceilMulDiv: an answer is the exact ceiling of left * right / divisor and fits in a uint64; an
-- error says that the divisor is zero or that no uint64 is large enough.
pub ceil_mul_div-CeilOutcome :
    (left right divisor : ℕ) → CeilOutcome (left * right) divisor (ceil_mul_div left right divisor)
unfolding ceil_mul_div
ceil_mul_div-CeilOutcome left right zero = inr (refl, inl refl)
ceil_mul_div-CeilOutcome left right (suc d) = rw (words (left * right)) (
    unfold rounding in
    rounding-CeilOutcome (left * right) (suc d) (left * right / suc d) (left * right % suc d)
      (omega arith) (div-add-mod' (left * right) (suc d)) (omega arith))
