-- ===== src/Gateway/Server/Once.antt =====
-- One token buys one dispatch, over every sequence of requests and transport errors.
use osanwe.Prelude.{ℕ, ◌≡◌, ◌≢◌, ◌⊎◌, arith, inl, inr, ap, sym, subst, false, List, [], ◌∷◌, All}
use osanwe.Prelude.Go.{ok}
use osanwe.Mint.Token.{Token, Crypto}
use osanwe.Gateway.Http.{Request}
use osanwe.Gateway.Prepare.{Wire, Config}
use osanwe.Gateway.Server.{
  RedemptionStore, BudgetStore, State, Forward, forwarded, Failure, never_dispatched, serve_http,
  handle_error,
}
use osanwe.Gateway.Server.Order.{serve_http-Ends, serve_http-forwarded}
use osanwe.Gateway.Server.Refunds.{handle_error-Refund}
use osanwe.Gateway.Server.Stores.{RedemptionLaws}

-- A request that arrives at a time, or the proxy's error for a forwarded one.
pub data Event (R : Type 0) : Type 0 where
  arrives : ℕ → Request → Event R
  fails : Forward R → List Failure → Event R

module _ {S B R : Type 0} (crypto : Crypto) (wire : Wire) (stores : RedemptionStore S)
    (budgets : BudgetStore B R) (cfg : Config) where
  unfoldable pub step : Event R → State S B → State S B
  step (arrives now r) s = (serve_http crypto wire stores budgets cfg now r s).0
  step (fails f failures) s = (handle_error stores budgets f failures s).0

  unfoldable pub run : List (Event R) → State S B → State S B
  unfolding step
  run [] s = s
  run (e ∷ events) s = run events (step e s)

  module _ (laws : RedemptionLaws stores) where
    -- The error does not prove that the provider was never reached, or its request has another
    -- token.
    abbrev pub IsKept : Token → Event R → Type 0
    IsKept t (arrives now r) = Unit
    IsKept t (fails f failures) =
        (never_dispatched failures ≡ false) ⊎ (laws.is_same f.token t ≡ false)

    serve_http-keeps :
        (t : Token) (now : ℕ) (r : Request) (s : State S B)
        → laws.IsSpent t s.tokens
        → laws.IsSpent t (serve_http crypto wire stores budgets cfg now r s).0.tokens
    serve_http-keeps t now r s h = elim (serve_http-Ends stores budgets wire cfg now r crypto s) [
      | inl (_, kept) ↦ subst (laws.IsSpent t) (sym kept) h
      | inr (inl (a, _, inl (_, kept))) ↦ subst (laws.IsSpent t) (sym kept) h
      | inr (inl (a, _, inr (_, (u, e, took)))) ↦
          subst (laws.IsSpent t) (ap (λ out. out.0) took) (laws.spend_keeps t u s.tokens h)
      | inr (inr (f, _, took, _)) ↦
          subst (laws.IsSpent t) (ap (λ out. out.0) took) (laws.spend_keeps t f.token s.tokens h)
    ]

    handle_error-keeps :
        (t : Token) (f : Forward R) (failures : List Failure) (s : State S B)
        → IsKept t (fails f failures)
        → laws.IsSpent t s.tokens
        → laws.IsSpent t (handle_error stores budgets f failures s).0.tokens
    handle_error-keeps t f failures s harmless h =
        elim (handle_error-Refund stores budgets f failures s) [
          | inl (proves, (gave, _), _) ↦ elim harmless [
            | inl reached ↦ absurd (ground (arith, proves, reached))
            | inr other ↦
                subst (laws.IsSpent t) (sym gave) (laws.refund_keeps t f.token s.tokens other h)
          ]
          | inr (_, _, kept, _) ↦ subst (laws.IsSpent t) (sym kept) h
        ]

    run-keeps :
        (t : Token) (events : List (Event R)) (s : State S B)
        → All (IsKept t) events
        → laws.IsSpent t s.tokens
        → laws.IsSpent t (run events s).tokens
    unfolding run
    run-keeps t [] s kept h = h
    run-keeps t (arrives now r ∷ events) s kept h =
        run-keeps t events _ kept.1 (serve_http-keeps t now r s h)
    run-keeps t (fails f failures ∷ events) s kept h =
        run-keeps t events _ kept.1 (handle_error-keeps t f failures s kept.0 h)

    -- Once a request is forwarded, no request that presents the same token is forwarded after any
    -- sequence of requests and transport errors, if every error that proves that the provider was
    -- never reached belongs to a request with another token.
    pub forward_once :
        (now later_now : ℕ) (r again : Request) (s middle last : State S B) (f g : Forward R)
        (events : List (Event R))
        → serve_http crypto wire stores budgets cfg now r s ≡ (middle, forwarded f)
        → All (IsKept f.token) events
        → g.token ≡ f.token
        → serve_http crypto wire stores budgets cfg later_now again (run events middle)
          ≢ (last, forwarded g)
    forward_once now later_now r again s middle last f g events h kept same k =
        let (_, took) = serve_http-forwarded stores budgets wire cfg now r crypto s middle f h in
        let (_, twice) =
          serve_http-forwarded stores budgets wire cfg later_now again crypto (run events middle)
            last g k in
        let spent = laws.spend_marks f.token s.tokens middle.tokens took in
        laws.spend_refuses f.token (run events middle).tokens last.tokens
          (run-keeps f.token events middle kept spent)
          (subst (λ t. stores.spend t (run events middle).tokens ≡ (last.tokens, ok tt)) same twice)
