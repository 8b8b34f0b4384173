-- ===== src/Gateway/Budget/Shared.antt =====
-- internal/gateway/budget.go: MultiBudget over FileBudgets, each with its own database.
use osanwe.Prelude.{ℕ, ◌<◌, ◌^◌, ◌≡◌, ◌∙◌, sym, ap, List, inl, inr, All}
use osanwe.Prelude.Go.{Result, ok, err}
use osanwe.Gateway.Budget.{
  BudgetError, BudgetRequest, FileBudget, Call, Counters, Reservation, window_start_of, reserve,
  release, decode_budget, usage, multi_not_configured,
}
use osanwe.Gateway.Budget.Record.{IsWord}
use osanwe.Gateway.Budget.Decisions.{IsConfig}
use osanwe.Gateway.Budget.Calls.{reserve-cases}
use osanwe.Gateway.Budget.Undo.{IsLive, release-reserve, met, current_again}
use osanwe.Gateway.Budget.Multi.{
  Budget, IsBudget, AllOrNothing, reserve_all, reserve_all-AllOrNothing,
}

-- One ceiling: its settings and database, and what the clock, the context and the commit come to in
-- its own Reserve and in the Release that cleans up behind it.
pub record Ceiling : Type 0 where
  pub budget : FileBudget
  pub database : List ℕ
  pub call : Call
  pub cleanup : Call

module _ (req : BudgetRequest) where
  abbrev pub ceiling_reserve : Ceiling → Ceiling × Result BudgetError Reservation
  ceiling_reserve s =
      let (database, r) = reserve s.budget s.call req s.database in
      (record s { database = database }, r)

  abbrev pub ceiling_release :
      Reservation → Ceiling → Ceiling × Reservation × Result BudgetError (Unit {0})
  ceiling_release r s =
      let (database, later, e) = release s.cleanup r s.database in
      (record s { database = database }, later, e)

  abbrev pub file_budget : Budget Ceiling Reservation BudgetError
  file_budget = record { reserve = ceiling_reserve; release = ceiling_release }

  -- The database decodes to words, the clock is in range, and the clean-up commits.
  pub record IsReady (s : Ceiling) : Type 0 where
    pub stored : Counters
    pub decoded : decode_budget s.database ≡ ok stored
    pub words : IsWord stored
    pub config : IsConfig s.budget
    pub in_range : window_start_of s.budget s.call.now < 256 ^ 8
    pub live : IsLive s.cleanup

  -- The usage that a ceiling reports at the time of its own Reserve.
  abbrev pub usages : Ceiling → Result BudgetError Counters
  usages s = usage s.budget s.call.now s.database

  usage_of_met :
      (b : FileBudget) (call : Call) (db : List ℕ) (stored : Counters)
      → decode_budget db ≡ ok (met b call stored)
      → usage b call.now db ≡ ok (met b call stored)
  unfolding usage
  usage_of_met b call db stored d = rw d (ap ok (current_again stored (window_start_of b call.now)))

  usage_of_stored :
      (b : FileBudget) (call : Call) (db : List ℕ) (stored : Counters)
      → decode_budget db ≡ ok stored
      → usage b call.now db ≡ ok (met b call stored)
  unfolding usage
  usage_of_stored b call db stored d = rw d

  refused-usages :
      (b : FileBudget) (call : Call) (db : List ℕ) (e : BudgetError)
      → (reserve b call req db).1 ≡ err e
      → (reserve b call req db).0 ≡ db
  refused-usages b call db e h = elim (reserve-cases b call req db) [
    | inl (x, g) ↦ ap (λ p. p.0) g
    | inr g ↦ absurd (let r = g.result in cc)
  ]

  refusal-usages :
      (s s' : Ceiling) (e : BudgetError)
      → file_budget.reserve s ≡ (s', err e)
      → usages s' ≡ usages s
  refusal-usages s s' e h =
      let after : record s { database = (reserve s.budget s.call req s.database).0 } ≡ s' =
        ap (λ p. p.0) h in
      let same = refused-usages s.budget s.call s.database e (ap (λ p. p.1) h) in
      ap usages (sym after) ∙ ap (usage s.budget s.call.now) same

  restored :
      (s : Ceiling) (r : Reservation)
      → IsReady s
      → (reserve s.budget s.call req s.database).1 ≡ ok r
      → usage s.budget s.call.now (release s.cleanup r (reserve s.budget s.call req s.database).0).0
        ≡ usages s
  restored s r v h =
      let later = (reserve s.budget s.call req s.database).0 in
      let granted : reserve s.budget s.call req s.database ≡ (later, ok r) =
        ap (λ x. (later, x)) h in
      let undone =
        release-reserve s.budget s.call s.cleanup req s.database later r v.stored v.config v.live
          v.decoded v.words v.in_range granted in
      usage_of_met s.budget s.call (release s.cleanup r later).0 v.stored undone
      ∙ sym (usage_of_stored s.budget s.call s.database v.stored v.decoded)

  restore-usages :
      (s s' : Ceiling) (r : Reservation)
      → IsReady s
      → file_budget.reserve s ≡ (s', ok r)
      → usages (file_budget.release r s').0 ≡ usages s
  restore-usages s s' r v h =
      let after : record s { database = (reserve s.budget s.call req s.database).0 } ≡ s' =
        ap (λ p. p.0) h in
      ap (λ x. usages (file_budget.release r x).0) (sym after) ∙ restored s r v (ap (λ p. p.1) h)

  pub file_budget-IsBudget : IsBudget file_budget IsReady usages
  file_budget-IsBudget = record {
    refusal_keeps = λ s s' e v h. refusal-usages s s' e h;
    release_restores = λ s s' r v h. restore-usages s s' r v h;
  }

  -- Where every ceiling's database decodes to words, its clock is in range and the transaction of
  -- the Release that cleans up behind it commits, MultiBudget.Reserve either holds a reservation of
  -- every ceiling or returns an error and leaves the usage that each ceiling reports at the time of
  -- its own Reserve as it was. Each ceiling has its own clock and its own commits.
  pub reserve_all_or_nothing :
      (ceilings : List Ceiling)
      → All IsReady ceilings
      → AllOrNothing file_budget file_budget-IsBudget ceilings
          (reserve_all file_budget multi_not_configured ceilings)
  reserve_all_or_nothing ceilings v =
      reserve_all-AllOrNothing file_budget file_budget-IsBudget multi_not_configured ceilings v
