-- ===== src/Gateway/Budget/History.antt =====
-- internal/gateway/budget.go: the budget under any interleaving of Reserve and Release calls, as
-- bbolt's transactions order them, with every reservation that the callers were handed.
use osanwe.Prelude.{
  ℕ, ◌≤◌, ◌<◌, ◌^◌, ◌≡◌, ◌≢◌, refl, sym, subst, ◌⊎◌, inl, inr, false, List, [], ◌∷◌, ◌++◌, arith,
}
use osanwe.Prelude.Go.{Result, ok, err}
use osanwe.Gateway.Budget.{
  BudgetError, BudgetRequest, FileBudget, Call, Counters, Reservation, window_start_of,
  window_end_of, current, decide_reserve, reservation_of, reserve, release, decode_budget,
  encode_budget, no_counters, counters_too_small,
}
use osanwe.Gateway.Budget.Record.{IsWord, decode-encode}
use osanwe.Gateway.Budget.Decisions.{
  IsConfig, minus, decide_reserve-grants, decide_release-cases, decide_release-ok,
}
use osanwe.Gateway.Budget.Calls.{
  Granted, Credited, reserve-cases, release-cases, release_short, asked_input, asked_tokens,
}
use osanwe.Gateway.Budget.Accounts.{
  IsAccount, empty-IsAccount, current-IsAccount, window_start-current, plus-IsExact, marked,
  other-IsExact, minus-IsExact, holds,
}

-- The stored bytes, and every reservation handed out so far.
pub record System : Type 0 where
  pub db : List ℕ
  pub held : List Reservation

-- What a caller of Reserve keeps.
abbrev pub keep_reservation : List Reservation → List ℕ × Result BudgetError Reservation → System
keep_reservation held (db, ok r) = record { db = db; held = r ∷ held }
keep_reservation held (db, err e) = record { db = db; held = held }

-- The clock has not gone back to a window before the stored one.
abbrev pub IsLater : FileBudget → Call → List ℕ → Type 0
IsLater b call db =
    (stored : Counters)
    → decode_budget db ≡ ok stored
    → stored.window_start ≤ window_start_of b call.now

abbrev pub release_one : Call → List ℕ → List Reservation → Reservation → List Reservation → System
release_one call db before r after =
    let (next, r', _) = release call r db in record { db = next; held = before ++ r' ∷ after }

pub data Step (b : FileBudget) : System → System → Type 0 where
  reserves :
      (s : System) (call : Call) (req : BudgetRequest)
      → IsLater b call s.db
      → window_start_of b call.now < 256 ^ 8
      → Step b s (keep_reservation s.held (reserve b call req s.db))
  releases :
      (s : System) (call : Call) (before : List Reservation) (r : Reservation)
      (after : List Reservation)
      → s.held ≡ before ++ r ∷ after
      → Step b s (release_one call s.db before r after)

pub data Reach (b : FileBudget) (s : System) : System → Type 0 where
  here : Reach b s s
  next : {t u : System} → Reach b s t → Step b t u → Reach b s u

-- The bytes decode to counters that are exact for the reservations, and within the ceilings.
pub record IsSound (b : FileBudget) (s : System) : Type 0 where
  pub counters : Counters
  pub decoded : decode_budget s.db ≡ ok counters
  pub account : IsAccount b counters s.held

module _ (b : FileBudget) (fit : IsConfig b) where
  -- A charge on an exact account, with the reservation that it hands out.
  charged-IsAccount :
      (c : Counters) (held : List Reservation) (start end input tokens cost : ℕ) {c' : Counters}
      → c.window_start ≡ start
      → decide_reserve b end c input tokens cost ≡ ok c'
      → IsAccount b c held
      → IsAccount b c' (reservation_of start input tokens cost ∷ held)
  charged-IsAccount c held start end input tokens cost {c'} e d a =
      let (p, w, i) = decide_reserve-grants b end c input tokens cost fit a.words d in
      record {
        exact =
            rw p
              (plus-IsExact c (reservation_of start input tokens cost) held (sym e) refl a.exact);
        within = i;
        words = w;
      }

  reserves-IsSound :
      (s : System) (call : Call) (req : BudgetRequest)
      → IsLater b call s.db
      → window_start_of b call.now < 256 ^ 8
      → IsSound b s
      → Granted b call req s.db
      → IsSound b (keep_reservation s.held (reserve b call req s.db))
  reserves-IsSound s call req later word v g =
      let start : ℕ = window_start_of b call.now in
      let same : v.counters ≡ g.stored = cc in
      let a : IsAccount b (current start g.stored) s.held =
        current-IsAccount g.stored s.held start b (later g.stored g.decoded) word
          (subst (λ c. IsAccount b c s.held) same v.account) in
      let charged : IsAccount b g.charged
          (reservation_of start (asked_input req) (asked_tokens req) req.cost_micros ∷ s.held) =
        charged-IsAccount (current start g.stored) s.held start (window_end_of b call.now)
          (asked_input req) (asked_tokens req) req.cost_micros
          (window_start-current g.stored s.held start) g.decided a in
      rw (g.result) (record {
        counters = g.charged;
        decoded = decode-encode g.charged charged.words;
        account = charged;
      })

  releases-IsSound :
      (s : System) (call : Call) (before : List Reservation) (r : Reservation)
      (after : List Reservation)
      → IsSound b (record { db = s.db; held = before ++ r ∷ after })
      → IsSound b (release_one call s.db before r after)
  releases-IsSound s call before r after v = elim (release-cases call r s.db) [
    | inl (_, e) ↦ rw e v
    | inr (inl (_, e)) ↦ rw e v
    | inr (inr (o, g)) ↦
        rw (g.result) (credited o g (decide_release-cases r s.db g.stored g.decided))
  ]
    where
      credited :
          r.released ≡ false
          → (g : Credited call r s.db)
          → ((g.stored.window_start ≢ r.held_start) × (g.next ≡ s.db))
            ⊎ ((g.stored.window_start ≡ r.held_start) × (g.next ≡ encode_budget (minus g.stored r)))
          → IsSound b (record { db = g.next; held = before ++ marked before r after ∷ after })
      credited o g (inl (other, e)) =
          let same : v.counters ≡ g.stored = cc in
          record {
            counters = v.counters;
            decoded = rw e v.decoded;
            account = record {
              exact = other-IsExact before r after v.counters v.account.exact (rw same other);
              within = v.account.within;
              words = v.account.words;
            };
          }
      credited o g (inr (own, e)) =
          let same : v.counters ≡ g.stored = cc in
          let a : IsAccount b g.stored (before ++ r ∷ after) =
            subst (λ c. IsAccount b c (before ++ r ∷ after)) same v.account in
          let w : IsWord (minus g.stored r) = omega (arith, a.words) in
          record {
            counters = minus g.stored r;
            decoded = rw e (decode-encode (minus g.stored r) w);
            account = record {
              exact = minus-IsExact before r after g.stored a.exact o own;
              within = omega (arith, a.within);
              words = w;
            };
          }

  Step-IsSound : {s t : System} → Step b s t → IsSound b s → IsSound b t
  Step-IsSound (reserves s call req later word) v = elim (reserve-cases b call req s.db) [
    | inl (_, e) ↦ rw e v
    | inr g ↦ reserves-IsSound s call req later word v g
  ]
  Step-IsSound (releases s call before r after e) v =
      releases-IsSound s call before r after
        (subst (λ h. IsSound b (record { db = s.db; held = h })) e v)

  pub empty-IsSound : IsSound b (record { db = []; held = [] })
  unfolding decode_budget
  empty-IsSound = record { counters = no_counters; decoded = refl; account = empty-IsAccount b }

  -- After any sequence of Reserve and Release calls whose clock does not go back to an earlier
  -- window, the stored record decodes, each counter is exactly the sum over the reservations not
  -- yet released in its window, and every counter is within its ceiling.
  pub Reach-IsSound : {s t : System} → IsSound b s → Reach b s t → IsSound b t
  Reach-IsSound v here = v
  Reach-IsSound v (next r st) = Step-IsSound st (Reach-IsSound v r)

  -- In such a history no release is refused for counters smaller than the reservation.
  pub release_never_short :
      {s : System} (call : Call) (before : List Reservation) (r : Reservation)
      (after : List Reservation)
      → Reach b (record { db = []; held = [] }) s
      → s.held ≡ before ++ r ∷ after
      → (release call r s.db).2 ≢ err counters_too_small
  release_never_short {s} call before r after reach e h =
      let v : IsSound b (record { db = s.db; held = before ++ r ∷ after }) =
        subst (λ k. IsSound b (record { db = s.db; held = k })) e
          (Reach-IsSound empty-IsSound reach) in
      let (o, d) = release_short call r s.db v.decoded h in
      decide_release-ok r s.db v.counters
        (λ own. holds before r after v.counters v.account.exact o own) d
