-- ===== src/Gateway/Budget/Undo.antt =====
-- internal/gateway/budget.go: when Reserve grants, and what a Release of the same window restores.
use osanwe.Prelude.{
  ℕ, ◌+◌, ◌≤◌, ◌<◌, ◌^◌, ◌≡◌, ap, subst, inl, inr, ◌==◌, true, false, List, arith, Bool-cases, ltb,
  ltb→lt, ◌&&◌,
}
use osanwe.Prelude.Go.{ok}
use osanwe.Gateway.Budget.{
  BudgetRequest, FileBudget, Call, Counters, Reservation, window_start_of, window_end_of, current,
  over, charge, decide_reserve, decide_release, reserve_tx, reserve, release, decode_budget,
  encode_budget, reservation_of, is_positive,
}
use osanwe.Gateway.Budget.Record.{IsWord, decode-encode}
use osanwe.Gateway.Budget.Decisions.{IsConfig, IsWithin, plus, minus, decide_reserve-grants}
use osanwe.Gateway.Budget.Calls.{Granted, reserve-cases, asked_input, asked_tokens}

-- A call whose context is alive and whose transaction commits.
pub record IsLive (call : Call) : Type 0 where
  pub not_done_before : call.done_before ≡ false
  pub not_done_inside : call.done_inside ≡ false
  pub committing : call.commits ≡ true

current-IsWord : (start : ℕ) (c : Counters) → start < 256 ^ 8 → IsWord c → IsWord (current start c)
unfolding current
current-IsWord start c h w = elim (Bool-cases (c.window_start == start)) [
  | inl same ↦ rw same w
  | inr other ↦ rw other (omega arith)
]

over_within : (ceiling used asked : ℕ) → used + asked ≤ ceiling → over ceiling used asked ≡ false
unfolding over
over_within ceiling used asked h = ground arith

-- The counters that a reservation meets, and that it is charged to.
abbrev pub met : FileBudget → Call → Counters → Counters
met b call stored = current (window_start_of b call.now) stored

module _ (b : FileBudget) (call : Call) (req : BudgetRequest) (db : List ℕ)
    (stored : Counters) where
  decide_within :
      (0 < b.max_cost_micros → 0 < req.cost_micros)
      → IsWithin b (plus (met b call stored) (asked_input req) (asked_tokens req) req.cost_micros)
      → (met b call stored).used_cost_micros + req.cost_micros < 256 ^ 8
      → decide_reserve b
          (window_end_of b call.now)
          (met b call stored)
          (asked_input req)
          (asked_tokens req)
          req.cost_micros
        ≡ ok (charge (met b call stored) (asked_input req) (asked_tokens req) req.cost_micros)
  unfolding decide_reserve
  decide_within k w h =
      let c = met b call stored in
      let i = over_within b.max_input_bytes c.used_input_bytes (asked_input req) w.input_within in
      let t =
        over_within b.max_output_tokens c.used_output_tokens (asked_tokens req) w.output_within in
      let m = within_cost w in ground arith
    where
      within_cost :
          IsWithin b (plus (met b call stored) (asked_input req) (asked_tokens req) req.cost_micros)
          → (ltb 0 b.max_cost_micros
              && over b.max_cost_micros (met b call stored).used_cost_micros req.cost_micros)
            ≡ false
      within_cost w = elim (Bool-cases (ltb 0 b.max_cost_micros)) [
        | inl limited ↦ rw limited (
            over_within b.max_cost_micros _ req.cost_micros
              (w.cost_within (ltb→lt 0 b.max_cost_micros limited)))
        | inr free ↦ rw free
      ]

  -- A live call with positive sizes, and a positive cost where cost is limited, is granted
  -- whenever the charged counters stay within the ceilings.
  pub reserve_grants :
      IsLive call
      → is_positive req.input_bytes ≡ true
      → is_positive req.max_output_tokens ≡ true
      → (0 < b.max_cost_micros → 0 < req.cost_micros)
      → decode_budget db ≡ ok stored
      → IsWithin b (plus (met b call stored) (asked_input req) (asked_tokens req) req.cost_micros)
      → (met b call stored).used_cost_micros + req.cost_micros < 256 ^ 8
      → (reserve b call req db).1
        ≡ ok (
            reservation_of
              (window_start_of b call.now)
              (asked_input req)
              (asked_tokens req)
              req.cost_micros)
  unfolding reserve reserve_tx
  reserve_grants l i o k d w h = let e = decide_within k w h in ground (arith, e)

-- Taking a charge off the counters that it was put on.
minus-plus :
    (c : Counters) (start input tokens cost : ℕ)
    → minus (plus c input tokens cost) (reservation_of start input tokens cost) ≡ c
minus-plus c start input tokens cost = ground arith

pub current_again : (c : Counters) (start : ℕ) → current start (current start c) ≡ current start c
unfolding current
current_again c start = ground arith

decide_undo :
    (db : List ℕ) (c : Counters) (start input tokens cost : ℕ)
    → c.window_start ≡ start
    → decide_release (reservation_of start input tokens cost) db (plus c input tokens cost)
      ≡ ok (encode_budget c)
unfolding decide_release
decide_undo db c start input tokens cost e =
    ground (arith, ap encode_budget (minus-plus c start input tokens cost))

live_release :
    (cleanup : Call) (r : Reservation) (db : List ℕ) (c : Counters) {next : List ℕ}
    → IsLive cleanup
    → r.released ≡ false
    → decode_budget db ≡ ok c
    → decide_release r db c ≡ ok next
    → (release cleanup r db).0 ≡ next
unfolding release
live_release cleanup r db c l o d e = ground arith

window_start-met :
    (b : FileBudget) (call : Call) (c : Counters)
    → (met b call c).window_start ≡ window_start_of b call.now
unfolding current
window_start-met b call c = ground arith

-- What a live release of a reservation, made by a granted call on well-formed counters, leaves:
-- the database again holds the counters that the reservation met.
pub release-reserve :
    (b : FileBudget) (call cleanup : Call) (req : BudgetRequest) (db db' : List ℕ) (r : Reservation)
    (stored : Counters)
    → IsConfig b
    → IsLive cleanup
    → decode_budget db ≡ ok stored
    → IsWord stored
    → window_start_of b call.now < 256 ^ 8
    → reserve b call req db ≡ (db', ok r)
    → decode_budget (release cleanup r db').0 ≡ ok (met b call stored)
release-reserve b call cleanup req db db' r stored fit l d w v e =
    elim (reserve-cases b call req db) [ inl (x, f) ↦ cc | inr g ↦ undone g ]
  where
    undone :
        Granted b call req db → decode_budget (release cleanup r db').0 ≡ ok (met b call stored)
    undone g =
        let c : Counters = met b call stored in
        let start : ℕ = window_start_of b call.now in
        let words : IsWord c = current-IsWord start stored v w in
        let same : g.stored ≡ stored = cc in
        let decided : decide_reserve b (window_end_of b call.now) c (asked_input req)
              (asked_tokens req) req.cost_micros
            ≡ ok g.charged =
          subst
            (λ k.
              decide_reserve b (window_end_of b call.now) (met b call k) (asked_input req)
                (asked_tokens req) req.cost_micros
              ≡ ok g.charged)
            same g.decided in
        let grant =
          decide_reserve-grants b (window_end_of b call.now) c (asked_input req) (asked_tokens req)
            req.cost_micros fit words decided in
        let reservation : r
            ≡ reservation_of start (asked_input req) (asked_tokens req) req.cost_micros =
          cc in
        let bytes : db' ≡ encode_budget g.charged = cc in
        let decoded : decode_budget db' ≡ ok g.charged =
          rw bytes (decode-encode g.charged grant.1) in
        let undo : decide_release r db' g.charged ≡ ok (encode_budget c) =
          rw (reservation, grant.0)
            (decide_undo db' c start (asked_input req) (asked_tokens req) req.cost_micros
              (window_start-met b call stored)) in
        rw (live_release cleanup r db' g.charged l (rw reservation) decoded undo)
          (decode-encode c words)
