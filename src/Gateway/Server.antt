-- ===== src/Gateway/Server.antt =====
-- internal/gateway/gateway.go: ServeHTTP up to the call of the proxy, and handleError. The stores
-- are interfaces: `S` and `B` are their states, and `R` is a budget reservation.
pub mod Order
pub mod Refunds
pub mod Stores
pub mod Once
mod Tests
use osanwe.Prelude.{
  ℕ, suc, ◌+◌, ◌-◌, ◌/◌, Bool, true, false, not, ◌&&◌, ◌||◌, Option, none, some, List, [], ◌∷◌,
  length, ltb, ◌==◌, if◌then◌else◌,
}
use osanwe.Prelude.Go.{ℤ, pos, Result, ok, err}
use osanwe.Prelude.Text.{codes, bytes_eq}
use osanwe.Prelude.Table.{find}
use osanwe.Mint.Token.{Token, PublicKey, Crypto, TokenError, parse_token, verify}
use osanwe.Mint.SpentFile.{SpentError, already_spent}
use osanwe.Gateway.Cost.{CostError, estimate_cost_micros}
use osanwe.Gateway.Budget.{BudgetError, budget_limit, BudgetRequest, second}
use osanwe.Gateway.Http.{Request, header_get, has_query}
use osanwe.Gateway.Prepare.{
  Wire, Config, Chosen, Kind, PolicyError, no_token, bad_token, unknown_mint, query_not_allowed,
  gateway_budget_unavailable, gateway_budget_exhausted, token_spent, redemption_unavailable,
  upstream_error, upstream_unreachable,
}
use osanwe.Gateway.Prepare.Checked.{prepare_request}

-- mint.RedemptionStore
pub record RedemptionStore (S : Type 0) : Type 0 where
  pub spend : Token → S → S × Result SpentError (Unit {0})
  pub refund : Token → S → S × Result SpentError (Unit {0})

-- Budget and BudgetReservation. Release answers whether it succeeded.
pub record BudgetStore (B : Type 0) (R : Type 0) : Type 0 where
  pub reserve : BudgetRequest → B → B × Result BudgetError R
  pub release : R → B → B × Bool

pub data TokenOutcome : Type 0 where
  spent refunded rejected invalid : TokenOutcome

pub record Metrics : Type 0 where
  pub accepted : ℕ
  pub no_tokens : ℕ
  pub bad_tokens : ℕ
  pub replayed : ℕ
  pub upstream_errors : ℕ
  pub no_routes : ℕ
  pub rejections : ℕ
  pub refunds : ℕ
  pub budget_full : ℕ
  pub budget_errors : ℕ

pub record State (S : Type 0) (B : Type 0) : Type 0 where
  pub metrics : Metrics
  pub tokens : S
  pub budget : B

-- What refuseToken writes, with the seconds of Retry-After where it is set.
pub record Answer : Type 0 where
  pub status : ℕ
  pub kind : Kind
  pub outcome : TokenOutcome
  pub retry_after : Option ℕ

-- What the proxy and its hooks are given.
pub record Forward (R : Type 0) : Type 0 where
  pub chosen : Chosen
  pub body : List ℕ
  pub token : Token
  pub reservation : R

pub data Served (R : Type 0) : Type 0 where
  catalog : Served R
  refused : Answer → Served R
  forwarded : Forward R → Served R

abbrev pub refuse : ℕ → Kind → TokenOutcome → Answer
refuse status kind outcome = record {
  status = status;
  kind = kind;
  outcome = outcome;
  retry_after = none;
}

-- The seconds until the reset, at least one, rounded to the nearest.
unfoldable pub retry_seconds : ℕ → ℕ → ℕ
retry_seconds reset now =
    if ltb (reset - now) second then 1 else (reset - now + second / 2) / second

abbrev pub with_metrics : {S B : Type 0} → Metrics → State S B → State S B
with_metrics m s = record s { metrics = m }

-- errors.Is(err, mint.ErrAlreadySpent)
unfoldable pub is_already_spent : SpentError → Bool
is_already_spent already_spent = true
is_already_spent _ = false

-- errors.As with a *BudgetLimitError, and its reset.
unfoldable pub limit_reset : BudgetError → Option ℕ
limit_reset (budget_limit reset) = some reset
limit_reset _ = none

module _ {S B R : Type 0} where
  -- releaseBudget
  unfoldable pub release_budget : BudgetStore B R → R → State S B → State S B
  release_budget budgets r s =
      let (budget, succeeded) = budgets.release r s.budget in
      if succeeded then record s { budget = budget } else record s {
        budget = budget;
        metrics = record (s.metrics) { budget_errors = s.metrics.budget_errors + 1 };
      }

  -- Spend, after the reservation.
  unfoldable pub on_spent :
      BudgetStore B R → Forward R → State S B → Result SpentError (Unit {0}) → State S B × Served R
  on_spent budgets f s (ok _) = (s, forwarded f)
  on_spent budgets f s (err e) =
      let t = release_budget budgets f.reservation s in
      if is_already_spent e
      then (
        with_metrics (record (t.metrics) { replayed = t.metrics.replayed + 1 }) t,
        refused (refuse 409 token_spent invalid),
      )
      else (t, refused (refuse 503 redemption_unavailable invalid))

  unfoldable pub spend_token :
      RedemptionStore S → BudgetStore B R → Forward R → State S B → State S B × Served R
  unfolding on_spent
  spend_token stores budgets f s =
      let (tokens, result) = stores.spend f.token s.tokens in
      on_spent budgets f (record s { tokens = tokens }) result

  -- Reserve refuses: over a ceiling, or for another reason.
  unfoldable pub on_limit : ℕ → State S B → Option ℕ → State S B × Served R
  on_limit now s (some reset) = (
    with_metrics (record (s.metrics) { budget_full = s.metrics.budget_full + 1 }) s,
    refused (record {
      status = 429;
      kind = gateway_budget_exhausted;
      outcome = rejected;
      retry_after = some (retry_seconds reset now);
    }),
  )
  on_limit now s none = (
    with_metrics (record (s.metrics) { budget_errors = s.metrics.budget_errors + 1 }) s,
    refused (refuse 503 gateway_budget_unavailable rejected),
  )

  -- The reservation, of a request whose cost is estimated.
  unfoldable pub on_reserved :
      RedemptionStore S
      → BudgetStore B R
      → ℕ
      → Token
      → Chosen
      → List ℕ
      → State S B
      → Result BudgetError R
      → State S B × Served R
  unfolding on_limit
  on_reserved stores budgets now t c body s (ok r) =
      spend_token stores budgets (record { chosen = c; body = body; token = t; reservation = r }) s
  on_reserved stores budgets now t c body s (err e) = on_limit now s (limit_reset e)

  unfoldable pub on_estimated :
      RedemptionStore S
      → BudgetStore B R
      → ℕ
      → Token
      → Chosen
      → List ℕ
      → State S B
      → Result CostError ℕ
      → State S B × Served R
  unfolding on_reserved
  on_estimated stores budgets now t c body s (err _) = (
    with_metrics (record (s.metrics) { budget_errors = s.metrics.budget_errors + 1 }) s,
    refused (refuse 503 gateway_budget_unavailable rejected),
  )
  on_estimated stores budgets now t c body s (ok micros) =
      let request : BudgetRequest = record {
        input_bytes = pos (length body);
        max_output_tokens = pos c.output_tokens;
        cost_micros = micros;
      } in
      let (budget, result) = budgets.reserve request s.budget in
      on_reserved stores budgets now t c body (record s { budget = budget }) result

  -- The request's policy, of a token that is valid.
  unfoldable pub on_prepared :
      RedemptionStore S
      → BudgetStore B R
      → ℕ
      → Token
      → State S B
      → Result PolicyError (Chosen × List ℕ)
      → State S B × Served R
  unfolding on_estimated
  on_prepared stores budgets now t s (err e) =
      let m = record (s.metrics) { rejections = s.metrics.rejections + 1 } in
      (
        with_metrics (if e.is_no_route then record m { no_routes = m.no_routes + 1 } else m) s,
        refused (refuse e.status e.kind rejected),
      )
  on_prepared stores budgets now t s (ok (c, body)) =
      on_estimated stores budgets now t c body s
        (estimate_cost_micros (pos (length body)) (pos c.output_tokens) c.rates)

  abbrev pub bad : Kind → State S B → State S B × Served R
  bad kind s = (
    with_metrics (record (s.metrics) { bad_tokens = s.metrics.bad_tokens + 1 }) s,
    refused (refuse 401 kind invalid),
  )

  module _ (crypto : Crypto) (wire : Wire) (stores : RedemptionStore S) (budgets : BudgetStore B R)
      (cfg : Config) (now : ℕ) where
    unfoldable pub on_key : Request → Token → State S B → Option PublicKey → State S B × Served R
    unfolding on_prepared
    on_key r t s none = bad unknown_mint s
    on_key r t s (some key) =
        if verify crypto key t
        then on_prepared stores budgets now t s (prepare_request wire cfg now r)
        else bad bad_token s

    unfoldable pub on_parsed : Request → State S B → Result TokenError Token → State S B × Served R
    unfolding on_key
    on_parsed r s (err _) = bad bad_token s
    on_parsed r s (ok t) = on_key r t s (find t.key_id cfg.mint_keys)

    -- The request that is not for the catalog.
    unfoldable pub serve_paid : Request → State S B → State S B × Served R
    unfolding on_parsed
    serve_paid r s =
        let raw = header_get (codes "X-Osanwe-Token") r.header in
        if length raw == 0
        then (
          with_metrics (record (s.metrics) { no_tokens = s.metrics.no_tokens + 1 }) s,
          refused (refuse 401 no_token invalid),
        )
        else on_parsed r s (parse_token crypto raw)

    -- ServeHTTP
    unfoldable pub serve_http : Request → State S B → State S B × Served R
    serve_http r s =
        if bytes_eq r.method (codes "GET") && bytes_eq r.path (codes "/v1/models")
        then (if has_query r
            then (
              with_metrics (record (s.metrics) { rejections = s.metrics.rejections + 1 }) s,
              refused (refuse 400 query_not_allowed rejected),
            )
            else (s, catalog))
        else serve_paid r
            (with_metrics (record (s.metrics) { accepted = s.metrics.accepted + 1 }) s)

-- An error and those that it wraps, outermost first.
pub data Failure : Type 0 where
  dns_failure : Failure
  net_op : List ℕ → Failure
  other_failure : Failure

unfoldable pub any_dns : List Failure → Bool
any_dns [] = false
any_dns (dns_failure ∷ failures) = true
any_dns (_ ∷ failures) = any_dns failures

-- errors.As finds the first *net.OpError.
unfoldable pub first_op : List Failure → Bool
first_op [] = false
first_op (net_op op ∷ failures) = bytes_eq op (codes "dial")
first_op (_ ∷ failures) = first_op failures

unfoldable pub never_dispatched : List Failure → Bool
unfolding any_dns first_op
never_dispatched failures = any_dns failures || first_op failures

module _ {S B R : Type 0} (stores : RedemptionStore S) (budgets : BudgetStore B R) where
  unfoldable pub on_refunded : State S B → Result SpentError (Unit {0}) → State S B × Answer
  on_refunded s (err _) = (s, refuse 502 upstream_error spent)
  on_refunded s (ok _) = (
    with_metrics (record (s.metrics) { refunds = s.metrics.refunds + 1 }) s,
    refuse 502 upstream_unreachable refunded,
  )

  -- The refund, of a request that was never dispatched.
  unfoldable pub undo : Forward R → State S B → State S B × Answer
  unfolding on_refunded
  undo f s =
      let t = release_budget budgets f.reservation s in
      let (tokens, result) = stores.refund f.token t.tokens in
      on_refunded (record t { tokens = tokens }) result

  -- handleError, of a request that ServeHTTP forwarded.
  unfoldable pub handle_error : Forward R → List Failure → State S B → State S B × Answer
  unfolding undo
  handle_error f failures s =
      let t =
        with_metrics (record (s.metrics) { upstream_errors = s.metrics.upstream_errors + 1 }) s in
      if never_dispatched failures then undo f t else (t, refuse 502 upstream_error spent)
