-- ===== src/Gateway/Budget/Multi.antt =====
-- internal/gateway/budget.go, MultiBudget: several ceilings reserved together. Each ceiling is a
-- state of its own behind the interface Budget; the reservations that were made are released in
-- reverse order where a later ceiling refuses.
use osanwe.Prelude.{
  ◌≡◌, refl, sym, ap, ap₂, subst, ◌⊎◌, inl, inr, List, [], ◌∷◌, ◌++◌, map, Option, none, some, All,
}
use osanwe.Prelude.Go.{Result, ok, err, ok_injective}

-- The interface Budget, for one request and its context: reserve, and the release that the
-- clean-up makes with a context of its own.
pub record Budget (S R E : Type 0) : Type 0 where
  pub reserve : S → S × Result E R
  pub release : R → S → S × R × Result E (Unit {0})

module _ {S : Type 0} where
  present : List (Option S) → List S
  present [] = []
  present (none ∷ bs) = present bs
  present (some s ∷ bs) = s ∷ present bs

  -- NewMultiBudget keeps the budgets that are not nil, and wants one at least.
  pub new_multi_budget {ℓ} : {E : Type ℓ} → E → List (Option S) → Result E (List S)
  unfolding present
  new_multi_budget needs_ceiling budgets = elim (present budgets) [
    | [] ↦ err needs_ceiling
    | s ∷ ss ↦ ok (s ∷ ss)
  ]

module _ {S R E : Type 0} (o : Budget S R E) where
  -- What a ceiling's reservation comes to once the later ceilings have answered: it is kept, or
  -- released after theirs.
  settle : S → R → List S × Result E (List R) → List S × Result E (List R)
  settle s r (ss, ok rs) = (s ∷ ss, ok (r ∷ rs))
  settle s r (ss, err e) = ((o.release r s).0 ∷ ss, err e)

  -- One ceiling's own answer, and then the rest if it granted.
  reserve_rest :
      List S → (Unit {0} → List S × Result E (List R)) → S × Result E R → List S × Result E (List R)
  reserve_rest ss rest (s, err e) = (s ∷ ss, err e)
  reserve_rest ss rest (s, ok r) = settle s r (rest tt)

  -- The loop of (*MultiBudget).Reserve.
  reserve_each : List S → List S × Result E (List R)
  reserve_each [] = ([], ok [])
  reserve_each (s ∷ ss) = let rest = reserve_each ss in reserve_rest ss (λ _. rest) (o.reserve s)

  -- (*MultiBudget).Reserve.
  pub reserve_all : E → List S → List S × Result E (List R)
  reserve_all not_configured [] = ([], err not_configured)
  reserve_all not_configured (s ∷ ss) = reserve_each (s ∷ ss)

  join : Result E (Unit {0}) → List E → List E
  join (ok _) errs = errs
  join (err e) errs = e ∷ errs

  -- multiBudgetReservation.Release: last first, and every error is kept, in that order.
  pub release_all : List R → List S → List S × List R × List E
  release_all [] ss = (ss, [], [])
  release_all (r ∷ rs) [] = ([], r ∷ rs, [])
  release_all (r ∷ rs) (s ∷ ss) =
      let (ss', rs', errs) = release_all rs ss in
      let (s', r', e) = o.release r s in (s' ∷ ss', r' ∷ rs', errs ++ join e [])

  -- Every ceiling granted, one after the other.
  abbrev pub AllGranted : List S → List S → List R → Type 0
  AllGranted [] [] [] = Unit {0}
  AllGranted (s ∷ ss) (s' ∷ ss') (r ∷ rs) = (o.reserve s ≡ (s', ok r)) × AllGranted ss ss' rs
  AllGranted _ _ _ = ⊥

  -- What MultiBudget relies on: a refusal changes nothing that counts, and releasing what was just
  -- reserved restores what counts. `view` is what counts.
  pub record IsBudget {V : Type 0} (Valid : S → Type 0) (view : S → V) : Type 0 where
    pub refusal_keeps : (s s' : S) (e : E) → Valid s → o.reserve s ≡ (s', err e) → view s' ≡ view s
    pub release_restores :
        (s s' : S) (r : R) → Valid s → o.reserve s ≡ (s', ok r) → view (o.release r s').0 ≡ view s

  module _ {V : Type 0} {Valid : S → Type 0} {view : S → V} (laws : IsBudget Valid view) where
    -- All of the ceilings granted, or what counts is as it was.
    abbrev pub AllOrNothing : List S → List S × Result E (List R) → Type 0
    AllOrNothing ss r =
        ((rs : List R) × (r.1 ≡ ok rs) × AllGranted ss r.0 rs)
        ⊎ ((e : E) × (r.1 ≡ err e) × (map view r.0 ≡ map view ss))

    rest-AllOrNothing :
        (s : S) (ss : List S) (rest : List S × Result E (List R)) (own : S × Result E R)
        → Valid s
        → o.reserve s ≡ own
        → AllOrNothing ss rest
        → AllOrNothing (s ∷ ss) (reserve_rest ss (λ _. rest) own)
    unfolding reserve_rest settle
    rest-AllOrNothing s ss rest (s', err e) v h all =
        inr (e, refl, ap (λ x. x ∷ map view ss) (laws.refusal_keeps s s' e v h))
    rest-AllOrNothing s ss (ss', ok rs) (s', ok r) v h (inl (qs, e, g)) =
        inl
          (r ∷ rs, refl, (h, subst (AllGranted ss ss') (sym (ok_injective {x = rs} {y = qs} e)) g))
    rest-AllOrNothing s ss (ss', err e) (s', ok r) v h (inl (qs, x, g)) = cc
    rest-AllOrNothing s ss (ss', ok rs) (s', ok r) v h (inr (e, x, g)) = cc
    rest-AllOrNothing s ss (ss', err x) (s', ok r) v h (inr (e, y, g)) =
        inr (x, refl, ap₂ (λ a xs. a ∷ xs) (laws.release_restores s s' r v h) g)

    reserve_each-AllOrNothing : (ss : List S) → All Valid ss → AllOrNothing ss (reserve_each ss)
    unfolding reserve_each
    reserve_each-AllOrNothing [] v = inl ([], refl, tt)
    reserve_each-AllOrNothing (s ∷ ss) v =
        rest-AllOrNothing s ss (reserve_each ss) (o.reserve s) v.0 refl
          (reserve_each-AllOrNothing ss v.1)

    -- Reserve over all ceilings either holds a reservation of each, made one after the other, or
    -- returns an error and leaves what counts at every ceiling as it was.
    pub reserve_all-AllOrNothing :
        (not_configured : E) (ss : List S)
        → All Valid ss
        → AllOrNothing ss (reserve_all not_configured ss)
    unfolding reserve_all
    reserve_all-AllOrNothing not_configured [] v = inr (not_configured, refl, refl)
    reserve_all-AllOrNothing not_configured (s ∷ ss) v = reserve_each-AllOrNothing (s ∷ ss) v
