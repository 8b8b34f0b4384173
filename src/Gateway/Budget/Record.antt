-- ===== src/Gateway/Budget/Record.antt =====
-- internal/gateway/budget.go, encodeBudget and decodeBudget.
use osanwe.Prelude.{◌^◌, ◌<◌, ◌≡◌}
use osanwe.Prelude.Bytes.{put_be, get_be-put_be}
use osanwe.Prelude.Go.{ok}
use osanwe.Gateway.Budget.{Counters, encode_budget, decode_budget}

-- Every counter is a uint64.
pub record IsWord (c : Counters) : Type 0 where
  pub start_word : c.window_start < 256 ^ 8
  pub requests_word : c.requests < 256 ^ 8
  pub input_word : c.used_input_bytes < 256 ^ 8
  pub output_word : c.used_output_tokens < 256 ^ 8
  pub cost_word : c.used_cost_micros < 256 ^ 8

-- A record of counters that are uint64 values is read back as it was written.
pub decode-encode : (c : Counters) → IsWord c → decode_budget (encode_budget c) ≡ ok c
unfolding decode_budget encode_budget put_be
decode-encode c h = λ i. ok (record {
  window_start = get_be-put_be 8 c.window_start h.start_word i;
  requests = get_be-put_be 8 c.requests h.requests_word i;
  used_input_bytes = get_be-put_be 8 c.used_input_bytes h.input_word i;
  used_output_tokens = get_be-put_be 8 c.used_output_tokens h.output_word i;
  used_cost_micros = get_be-put_be 8 c.used_cost_micros h.cost_word i;
})
