-- ===== src/Gateway/Server/Refunds.antt =====
-- What the error hook gives back.
use osanwe.Prelude.{◌≡◌, ◌⊎◌, inl, inr, refl, true, false, Bool-cases, List, ◌+◌}
use osanwe.Prelude.Go.{ok, err, Result-cases}
use osanwe.Mint.SpentFile.{SpentError}
use osanwe.Gateway.Server.{
  RedemptionStore, BudgetStore, spent, refunded, State, Answer, Forward, Failure, release_budget,
  never_dispatched, on_refunded, undo, handle_error, with_metrics,
}

module _ {S B R : Type 0} (stores : RedemptionStore S) (budgets : BudgetStore B R)
    (f : Forward R) where
  release_budget-state :
      (s : State S B)
      → ((release_budget budgets f.reservation s).tokens ≡ s.tokens)
        × ((release_budget budgets f.reservation s).budget
            ≡ (budgets.release f.reservation s.budget).0)
  unfolding release_budget
  release_budget-state s = elim (Bool-cases (budgets.release f.reservation s.budget).1) [
    | inl e ↦ rw e (refl, refl)
    | inr e ↦ rw e (refl, refl)
  ]

  -- What happened to the token, as it is reported.
  abbrev pub Refund : State S B → State S B × Answer → Type 0
  Refund s (later, a) =
      (later.tokens ≡ (stores.refund f.token s.tokens).0)
      × (((a.outcome ≡ refunded) × ((stores.refund f.token s.tokens).1 ≡ ok tt))
          ⊎ ((a.outcome ≡ spent)
              × ((e : SpentError) × ((stores.refund f.token s.tokens).1 ≡ err e))))

  undo-Refund :
      (s : State S B)
      → Refund s (undo stores budgets f s)
        × ((undo stores budgets f s).0.budget ≡ (budgets.release f.reservation s.budget).0)
  unfolding undo on_refunded
  undo-Refund s =
      let (tokens, budget) = release_budget-state s in
      elim (Result-cases (stores.refund f.token s.tokens).1) [
        | inl (u, e) ↦ rw (tokens, e) ((refl, inl (refl, refl)), budget)
        | inr (x, e) ↦ rw (tokens, e) ((refl, inr (refl, (x, refl))), budget)
      ]

  -- A transport error is reported as refunded only where it proves that the provider was never
  -- reached and the store gave the token back. Then, and only where the provider was never reached,
  -- the budget reservation is released. Otherwise the token is reported as spent; where the
  -- provider may have been reached the tokens and the budget stay as they are.
  pub handle_error-Refund :
      (failures : List Failure) (s : State S B)
      → ((never_dispatched failures ≡ true)
          × Refund s (handle_error stores budgets f failures s)
          × ((handle_error stores budgets f failures s).0.budget
              ≡ (budgets.release f.reservation s.budget).0))
        ⊎ ((never_dispatched failures ≡ false)
            × ((handle_error stores budgets f failures s).1.outcome ≡ spent)
            × ((handle_error stores budgets f failures s).0.tokens ≡ s.tokens)
            × ((handle_error stores budgets f failures s).0.budget ≡ s.budget))
  unfolding handle_error
  handle_error-Refund failures s = elim (Bool-cases (never_dispatched failures)) [
    | inl e ↦
        let t =
          with_metrics (record (s.metrics) { upstream_errors = s.metrics.upstream_errors + 1 }) s in
        let (refund, budget) = undo-Refund t in rw e (inl (refl, refund, budget))
    | inr e ↦ rw e (inr (refl, refl, refl, refl))
  ]
