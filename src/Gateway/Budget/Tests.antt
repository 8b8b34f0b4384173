-- ===== src/Gateway/Budget/Tests.antt =====
-- internal/gateway/budget.go on a small budget.
use osanwe.Prelude.{ℕ, ◌≡◌, refl, List, [], ◌∷◌, ◌++◌, false, true, arith}
use osanwe.Prelude.Go.{pos, ok, err}
use osanwe.Prelude.Bytes.{put_be, get_be}
use osanwe.Gateway.Budget.{
  BudgetRequest, FileBudget, Call, Counters, Reservation, reserve, release, decode_budget,
  encode_budget, no_counters, reservation_of, reserve_tx, decide_reserve, over, window_start_of,
  window_end_of, current, budget_limit, multi_not_configured, hand_out,
}
use osanwe.Gateway.Budget.Record.{IsWord, decode-encode}
use osanwe.Gateway.Budget.Decisions.{IsConfig}
use osanwe.Gateway.Budget.Undo.{IsLive, met, release-reserve}
use osanwe.Gateway.Budget.Open.{FileBudgetConfig, check_config, open_settings}
use osanwe.Gateway.Budget.Multi.{AllOrNothing, reserve_all}
use osanwe.Gateway.Budget.Shared.{
  Ceiling, file_budget, file_budget-IsBudget, IsReady, reserve_all_or_nothing,
}
use osanwe.Gateway.Budget.History.{
  Reach, reserves, here, next, keep_reservation, IsSound, empty-IsSound, Reach-IsSound,
}

-- One request an hour.
abbrev hourly : FileBudget
hourly = record {
  window = 3600000000000;
  max_requests = 1;
  max_input_bytes = 1000;
  max_output_tokens = 100;
  max_cost_micros = 0;
}

-- At 7205 seconds, in the window that begins at 7200.
abbrev at_two : Call
at_two = record { now = 7205000000000; done_before = false; done_inside = false; commits = true }

abbrev small : BudgetRequest
small = record { input_bytes = pos 10; max_output_tokens = pos 20; cost_micros = 0 }

abbrev after_one : Counters
after_one = record {
  window_start = 7200;
  requests = 1;
  used_input_bytes = 10;
  used_output_tokens = 20;
  used_cost_micros = 0;
}

abbrev first : Reservation
first = reservation_of 7200 10 20 0

granted : reserve hourly at_two small [] ≡ (encode_budget after_one, ok first)
unfolding reserve reserve_tx decide_reserve over decode_budget window_start_of window_end_of current
    hand_out encode_budget put_be get_be
granted = refl

refused :
    (reserve hourly at_two small (encode_budget after_one)).1 ≡ err (budget_limit 10800000000000)
unfolding reserve reserve_tx decide_reserve over decode_budget window_start_of window_end_of current
    hand_out encode_budget put_be get_be
refused = refl

hourly-IsConfig : IsConfig hourly
hourly-IsConfig = omega arith

at_two-IsLive : IsLive at_two
at_two-IsLive = record { not_done_before = refl; not_done_inside = refl; committing = refl }

empty_decodes : decode_budget [] ≡ ok no_counters
unfolding decode_budget
empty_decodes = refl

one_step :
    Reach hourly
      (record { db = []; held = [] })
      (keep_reservation [] (reserve hourly at_two small []))
unfolding decode_budget window_start_of
one_step = next here (reserves _ at_two small (λ stored d. ground arith) (omega arith))

Reach-IsSound_example : IsSound hourly (keep_reservation [] (reserve hourly at_two small []))
Reach-IsSound_example =
    Reach-IsSound hourly hourly-IsConfig (empty-IsSound hourly hourly-IsConfig) one_step

one_held : (keep_reservation [] (reserve hourly at_two small [])).held ≡ [] ++ first ∷ []
one_held = rw granted

at_seven_thousand_two_hundred : window_start_of hourly 7205000000000 ≡ 7200
unfolding window_start_of
at_seven_thousand_two_hundred = refl

release-reserve_example :
    decode_budget (release at_two first (encode_budget after_one)).0
    ≡ ok (met hourly at_two no_counters)
release-reserve_example =
    release-reserve hourly at_two at_two small [] (encode_budget after_one) first no_counters
      hourly-IsConfig at_two-IsLive empty_decodes (omega arith)
      (rw at_seven_thousand_two_hundred (omega arith)) granted

-- A second ceiling that is already used up refuses, and the first one is released. The second one's
-- clock reads later.
abbrev at_later : Call
at_later = record at_two { now = 7206000000000 }

abbrev ceiling : Call → List ℕ → Ceiling
ceiling call db = record { budget = hourly; database = db; call = call; cleanup = at_later }

abbrev exhausted : List Ceiling
exhausted = ceiling at_two [] ∷ ceiling at_later (encode_budget after_one) ∷ []

at_later-IsLive : IsLive at_later
at_later-IsLive = record { not_done_before = refl; not_done_inside = refl; committing = refl }

ready :
    (stored : Counters) (call : Call) (db : List ℕ)
    → decode_budget db ≡ ok stored
    → IsWord stored
    → window_start_of hourly call.now ≡ 7200
    → IsReady small (ceiling call db)
ready stored call db d w at = record {
  stored = stored;
  decoded = d;
  words = w;
  config = hourly-IsConfig;
  in_range = rw at (omega arith);
  live = at_later-IsLive;
}

at_seven_thousand_two_hundred_and_six : window_start_of hourly 7206000000000 ≡ 7200
unfolding window_start_of
at_seven_thousand_two_hundred_and_six = refl

after_one_decodes : decode_budget (encode_budget after_one) ≡ ok after_one
after_one_decodes = decode-encode after_one (omega arith)

reserve_all_or_nothing_example :
    AllOrNothing
      (file_budget small)
      (file_budget-IsBudget small)
      exhausted
      (reserve_all (file_budget small) multi_not_configured exhausted)
reserve_all_or_nothing_example = reserve_all_or_nothing small exhausted (
  ready no_counters at_two [] empty_decodes (omega arith) at_seven_thousand_two_hundred,
  (
    ready after_one at_later (encode_budget after_one) after_one_decodes (omega arith)
        at_seven_thousand_two_hundred_and_six,
    tt,
  ),
)

-- A minute's window with one ceiling given and the others by default.
abbrev minutely_config : FileBudgetConfig
minutely_config = record {
  has_path = true;
  asked_window = pos 60000000000;
  asked_requests = 7;
  asked_input_bytes = 0;
  asked_output_tokens = 0;
  asked_cost_micros = 0;
}

abbrev minutely : FileBudget
minutely = record {
  window = 60000000000;
  max_requests = 7;
  max_input_bytes = 10485760;
  max_output_tokens = 100000;
  max_cost_micros = 0;
}

minutely_opened : open_settings minutely_config ≡ ok minutely
unfolding open_settings check_config
minutely_opened = refl
