-- ===== src/Gateway/Budget/Calls.antt =====
-- internal/gateway/budget.go: the outcomes of Reserve and Release as whole calls.
use osanwe.Prelude.{ℕ, ◌≡◌, ◌⊎◌, inl, inr, true, false, List, arith, Bool-cases}
use osanwe.Prelude.Go.{Result, ok, err, Result-cases}
use osanwe.Gateway.Budget.{
  BudgetError, counters_too_small, BudgetRequest, FileBudget, Call, Counters, Reservation,
  window_start_of, window_end_of, current, decide_reserve, decide_release, reserve_tx, reserve,
  release, to_u64, decode_budget, encode_budget, reservation_of,
}

-- What Reserve asks for, as words.
abbrev pub asked_input : BudgetRequest → ℕ
asked_input req = to_u64 req.input_bytes

abbrev pub asked_tokens : BudgetRequest → ℕ
asked_tokens req = to_u64 req.max_output_tokens

-- A refused call leaves the database as it was.
abbrev pub Refused {ℓ} : {A : Type ℓ} → List ℕ → List ℕ × Result BudgetError A → Type ℓ
Refused db r = (e : BudgetError) × (r ≡ (db, err e))

-- A granted call has stored what the decision charged.
pub record Granted (b : FileBudget) (call : Call) (req : BudgetRequest) (db : List ℕ) : Type 0 where
  pub stored : Counters
  pub charged : Counters
  pub decoded : decode_budget db ≡ ok stored
  pub decided :
      decide_reserve b
        (window_end_of b call.now)
        (current (window_start_of b call.now) stored)
        (asked_input req)
        (asked_tokens req)
        req.cost_micros
      ≡ ok charged
  pub result : reserve b call req db ≡ (
    encode_budget charged,
    ok (
        reservation_of
          (window_start_of b call.now)
          (asked_input req)
          (asked_tokens req)
          req.cost_micros),
  )

module _ (b : FileBudget) (call : Call) (req : BudgetRequest) (db : List ℕ) where
  -- The transaction's body under the amounts asked for.
  abbrev body : Result BudgetError (List ℕ)
  body = reserve_tx b call db (asked_input req) (asked_tokens req) req.cost_micros

  reserve-tx :
      {r : Reservation}
      → (reserve b call req db).1 ≡ ok r
      → (next : List ℕ) × (body ≡ ok next)
        × (reserve b call req db ≡ (
          next,
          ok (
              reservation_of
                (window_start_of b call.now)
                (asked_input req)
                (asked_tokens req)
                req.cost_micros),
        ))
  unfolding reserve
  reserve-tx h = elim (Result-cases body) [
    | inl (next, e) ↦ (next, e, ground arith)
    | inr (x, e) ↦ absurd (ground arith)
  ]

  reserve-refused :
      {e : BudgetError} → (reserve b call req db).1 ≡ err e → reserve b call req db ≡ (db, err e)
  unfolding reserve
  reserve-refused h = ground arith

  body-Granted :
      {next : List ℕ}
      → body ≡ ok next
      → reserve b call req db ≡ (
        next,
        ok (
            reservation_of
              (window_start_of b call.now)
              (asked_input req)
              (asked_tokens req)
              req.cost_micros),
      )
      → Granted b call req db
  unfolding reserve_tx
  body-Granted e r = elim (Result-cases (decode_budget db)) [
    | inr (x, d) ↦ absurd (ground arith)
    | inl (stored, d) ↦
        elim (Result-cases (
          decide_reserve b (window_end_of b call.now) (current (window_start_of b call.now) stored)
            (asked_input req) (asked_tokens req) req.cost_micros)) [
              | inr (x, g) ↦ absurd (ground arith)
              | inl (charged, g) ↦ record {
                stored = stored;
                charged = charged;
                decoded = d;
                decided = g;
                result = ground arith;
              }
            ]
  ]

  -- Reserve either refuses and changes nothing, or stores the decided charge.
  pub reserve-cases : Refused db (reserve b call req db) ⊎ Granted b call req db
  reserve-cases = elim (Result-cases (reserve b call req db).1) [
    | inr (e, h) ↦ inl (e, reserve-refused h)
    | inl (r, h) ↦ let (next, e, g) = reserve-tx h in inr (body-Granted e g)
  ]

-- A release that returned no error has stored what the decision left, and marked the reservation.
pub record Credited (call : Call) (r : Reservation) (db : List ℕ) : Type 0 where
  pub stored : Counters
  pub next : List ℕ
  pub decoded : decode_budget db ≡ ok stored
  pub decided : decide_release r db stored ≡ ok next
  pub result : release call r db ≡ (next, record r { released = true }, ok tt)

module _ (call : Call) (r : Reservation) (db : List ℕ) where
  release-Credited : (release call r db).2 ≡ ok tt → r.released ≡ false → Credited call r db
  unfolding release
  release-Credited h o = elim (Result-cases (decode_budget db)) [
    | inr (x, d) ↦ absurd (ground arith)
    | inl (stored, d) ↦ elim (Result-cases (decide_release r db stored)) [
      | inr (x, g) ↦ absurd (ground arith)
      | inl (next, g) ↦ record {
        stored = stored;
        next = next;
        decoded = d;
        decided = g;
        result = ground arith;
      }
    ]
  ]

  release_done : r.released ≡ true → release call r db ≡ (db, r, ok tt)
  unfolding release
  release_done h = ground arith

  release_failed :
      {e : BudgetError} → (release call r db).2 ≡ err e → release call r db ≡ (db, r, err e)
  unfolding release
  release_failed h = ground arith

  pub release_short :
      {c : Counters}
      → decode_budget db ≡ ok c
      → (release call r db).2 ≡ err counters_too_small
      → (r.released ≡ false) × (decide_release r db c ≡ err counters_too_small)
  unfolding release
  release_short d h = ground arith

  release_ok : {u : Unit {0}} → (release call r db).2 ≡ ok u → (release call r db).2 ≡ ok tt
  release_ok h = h

  -- Release repeats nothing, changes nothing where it fails, and otherwise credits once.
  pub release-cases :
      ((r.released ≡ true) × (release call r db ≡ (db, r, ok tt)))
      ⊎ (((e : BudgetError) × (release call r db ≡ (db, r, err e)))
          ⊎ ((r.released ≡ false) × Credited call r db))
  release-cases = elim (Bool-cases r.released) [
    | inl done ↦ inl (done, release_done done)
    | inr fresh ↦ inr (elim (Result-cases (release call r db).2) [
      | inr (e, h) ↦ inl (e, release_failed h)
      | inl (u, h) ↦ inr (fresh, release-Credited (release_ok h) fresh)
    ])
  ]
