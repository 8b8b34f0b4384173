-- ===== src/Gateway/Budget/Decisions.antt =====
-- internal/gateway/budget.go: what Reserve and Release do to the stored counters, on every path.
use osanwe.Prelude.{
  ℕ, ◌+◌, ◌-◌, ◌^◌, ◌≤◌, ◌<◌, ◌≡◌, ◌≢◌, ◌==◌, ◌∙◌, ◌⊎◌, inl, inr, false, List, arith, Bool-cases,
  ==_iff,
}
use osanwe.Prelude.Go.{ok, err, max_u64}
use osanwe.Gateway.Budget.{
  counters_too_small, FileBudget, Counters, Reservation, decide_reserve, decide_release,
  encode_budget, over, charge,
}
use osanwe.Gateway.Budget.Record.{IsWord}

-- The ceilings are uint64 values.
pub record IsConfig (b : FileBudget) : Type 0 where
  pub requests_fit : b.max_requests < 256 ^ 8
  pub input_fits : b.max_input_bytes < 256 ^ 8
  pub output_fits : b.max_output_tokens < 256 ^ 8
  pub cost_fits : b.max_cost_micros < 256 ^ 8

-- The counters are within every ceiling; a cost ceiling of zero is none.
pub record IsWithin (b : FileBudget) (c : Counters) : Type 0 where
  pub requests_within : c.requests ≤ b.max_requests
  pub input_within : c.used_input_bytes ≤ b.max_input_bytes
  pub output_within : c.used_output_tokens ≤ b.max_output_tokens
  pub cost_within : 0 < b.max_cost_micros → c.used_cost_micros ≤ b.max_cost_micros

-- One request more, and the amounts asked for, with no wrap-around.
abbrev pub plus : Counters → ℕ → ℕ → ℕ → Counters
plus c input tokens cost = record c {
  requests = c.requests + 1;
  used_input_bytes = c.used_input_bytes + input;
  used_output_tokens = c.used_output_tokens + tokens;
  used_cost_micros = c.used_cost_micros + cost;
}

-- The test of one ceiling is exact.
over-false : (ceiling used asked : ℕ) → over ceiling used asked ≡ false → used + asked ≤ ceiling
unfolding over
over-false ceiling used asked h = ground arith

-- The tests that a charge has passed.
record Passed (b : FileBudget) (c : Counters) (input tokens cost : ℕ) : Type 0 where
  requests_pass : c.requests < b.max_requests
  input_pass : c.used_input_bytes + input ≤ b.max_input_bytes
  output_pass : c.used_output_tokens + tokens ≤ b.max_output_tokens
  cost_pass : 0 < b.max_cost_micros → c.used_cost_micros + cost ≤ b.max_cost_micros
  cost_word : c.used_cost_micros + cost ≤ max_u64

module _ (b : FileBudget) (end : ℕ) (c : Counters) (input tokens cost : ℕ) where
  Passed-of_ok :
      {c' : Counters}
      → IsWord c
      → decide_reserve b end c input tokens cost ≡ ok c'
      → Passed b c input tokens cost
  unfolding decide_reserve
  Passed-of_ok w h = record {
    requests_pass = ground arith;
    input_pass = over-false _ _ _ (ground arith);
    output_pass = over-false _ _ _ (ground arith);
    cost_pass = λ k. over-false _ _ _ (ground arith);
    cost_word = ground arith;
  }

  charge-plus :
      IsConfig b
      → IsWord c
      → Passed b c input tokens cost
      → charge c input tokens cost ≡ plus c input tokens cost
  unfolding charge
  charge-plus fit w p = ground arith

  ok-charge :
      {c' : Counters}
      → decide_reserve b end c input tokens cost ≡ ok c'
      → c' ≡ charge c input tokens cost
  unfolding decide_reserve
  ok-charge h = ground arith

  plus_valid :
      IsConfig b
      → IsWord c
      → Passed b c input tokens cost
      → IsWord (plus c input tokens cost) × IsWithin b (plus c input tokens cost)
  plus_valid fit w p = (omega arith, omega arith)

  -- A charge is exact and leaves the counters words within the ceilings.
  pub decide_reserve-grants :
      {c' : Counters}
      → IsConfig b
      → IsWord c
      → decide_reserve b end c input tokens cost ≡ ok c'
      → (c' ≡ plus c input tokens cost) × IsWord c' × IsWithin b c'
  decide_reserve-grants {c'} fit w h =
      let p = Passed-of_ok w h in
      let e : c' ≡ plus c input tokens cost = ok-charge h ∙ charge-plus fit w p in
      (e, rw e (plus_valid fit w p).0, rw e (plus_valid fit w p).1)

-- The counters without one reservation.
abbrev pub minus : Counters → Reservation → Counters
minus c r = record c {
  requests = c.requests - 1;
  used_input_bytes = c.used_input_bytes - r.held_input_bytes;
  used_output_tokens = c.used_output_tokens - r.held_output_tokens;
  used_cost_micros = c.used_cost_micros - r.held_cost_micros;
}

-- A credit: nothing in another window, one reservation less in its own.
pub decide_release-cases :
    (r : Reservation) (db : List ℕ) (c : Counters) {next : List ℕ}
    → decide_release r db c ≡ ok next
    → ((c.window_start ≢ r.held_start) × (next ≡ db))
      ⊎ ((c.window_start ≡ r.held_start) × (next ≡ encode_budget (minus c r)))
unfolding decide_release
decide_release-cases r db c h = elim (Bool-cases (c.window_start == r.held_start)) [
  | inl same ↦ inr (ground arith, ground arith)
  | inr other ↦ inl (ground arith, ground arith)
]

-- A reservation that the counters hold is never refused as too large.
pub decide_release-ok :
    (r : Reservation) (db : List ℕ) (c : Counters)
    → (c.window_start ≡ r.held_start
        → (0 < c.requests)
          × (r.held_input_bytes ≤ c.used_input_bytes)
          × (r.held_output_tokens ≤ c.used_output_tokens)
          × (r.held_cost_micros ≤ c.used_cost_micros))
    → decide_release r db c ≢ err counters_too_small
unfolding decide_release
decide_release-ok r db c h = elim (Bool-cases (c.window_start == r.held_start)) [
  | inl same ↦ let k = h ((==_iff _ _).0 same) in ground arith
  | inr other ↦ ground arith
]
