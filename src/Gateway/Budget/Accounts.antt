-- ===== src/Gateway/Budget/Accounts.antt =====
-- internal/gateway/budget.go: the stored counters are exactly the reservations that are still
-- charged, after any sequence of calls whose clock does not go back to an earlier window.
use osanwe.Prelude.{
  ℕ, ◌+◌, ◌≤◌, ◌<◌, ◌^◌, ◌≡◌, refl, sym, ◌∙◌, inl, inr, true, false, ◌&&◌, not, ◌==◌, if◌then◌else◌,
  List, [], ◌∷◌, ◌++◌, arith, Bool-cases, All, ◌≢◌, All-append, All-split,
}
use osanwe.Gateway.Budget.{FileBudget, Counters, Reservation, current, no_counters}
use osanwe.Gateway.Budget.Record.{IsWord}
use osanwe.Gateway.Budget.Decisions.{IsWithin, plus, minus}

-- What a reservation still charges in the window that begins at `start`.
pub amount : (Reservation → ℕ) → ℕ → Reservation → ℕ
amount f start r = if not r.released && r.held_start == start then f r else 0

pub total : (Reservation → ℕ) → ℕ → List Reservation → ℕ
total f start [] = 0
total f start (r ∷ rs) = amount f start r + total f start rs

pub total-append :
    (f : Reservation → ℕ) (start : ℕ) (rs qs : List Reservation)
    → total f start (rs ++ qs) ≡ total f start rs + total f start qs
unfolding total
total-append f start [] qs = omega arith
total-append f start (r ∷ rs) qs = omega (arith, total-append f start rs qs)

abbrev pub IsPast : ℕ → List Reservation → Type 0
IsPast start = All (λ r. r.held_start ≤ start)

abbrev pub one : Reservation → ℕ
one r = 1

-- Every counter is the sum over the reservations that are charged in its window.
pub record IsExact (c : Counters) (held : List Reservation) : Type 0 where
  pub requests_exact : c.requests ≡ total one c.window_start held
  pub input_exact : c.used_input_bytes ≡ total (λ r. r.held_input_bytes) c.window_start held
  pub output_exact : c.used_output_tokens ≡ total (λ r. r.held_output_tokens) c.window_start held
  pub cost_exact : c.used_cost_micros ≡ total (λ r. r.held_cost_micros) c.window_start held
  pub past : IsPast c.window_start held

-- Nothing is charged in a window that no reservation has seen.
total_later :
    (f : Reservation → ℕ) (start later : ℕ) (held : List Reservation)
    → IsPast start held
    → start < later
    → total f later held ≡ 0
unfolding total amount
total_later f start later [] p h = refl
total_later f start later (r ∷ rs) p h = ground (arith, total_later f start later rs p.1)

IsPast-mono :
    (start later : ℕ) (held : List Reservation)
    → start ≤ later
    → IsPast start held
    → IsPast later held
IsPast-mono start later [] h p = tt
IsPast-mono start later (r ∷ rs) h p = (omega arith, IsPast-mono start later rs h p.1)

-- Rolling over to a later window keeps the account exact, within the ceilings, and in words.
pub record IsAccount (b : FileBudget) (c : Counters) (held : List Reservation) : Type 0 where
  pub exact : IsExact c held
  pub within : IsWithin b c
  pub words : IsWord c

-- Nothing is stored and nothing is held.
pub empty-IsAccount : (b : FileBudget) → IsAccount b no_counters []
unfolding total
empty-IsAccount b = record {
  exact = record {
    requests_exact = refl;
    input_exact = refl;
    output_exact = refl;
    cost_exact = refl;
    past = tt;
  };
  within = omega arith;
  words = omega arith;
}

module _ (c : Counters) (held : List Reservation) (start : ℕ) where
  fresh-IsExact :
      c.window_start < start
      → IsPast c.window_start held
      → IsExact (record no_counters { window_start = start }) held
  fresh-IsExact h p = record {
    requests_exact = sym (total_later one c.window_start start held p h);
    input_exact = sym (total_later (λ r. r.held_input_bytes) c.window_start start held p h);
    output_exact = sym (total_later (λ r. r.held_output_tokens) c.window_start start held p h);
    cost_exact = sym (total_later (λ r. r.held_cost_micros) c.window_start start held p h);
    past = IsPast-mono c.window_start start held (omega arith) p;
  }

  pub current-IsAccount :
      (b : FileBudget)
      → c.window_start ≤ start
      → start < 256 ^ 8
      → IsAccount b c held
      → IsAccount b (current start c) held
  unfolding current
  current-IsAccount b h w a = elim (Bool-cases (c.window_start == start)) [
    | inl same ↦ rw same a
    | inr other ↦ rw other (record {
      exact = fresh-IsExact (ground arith) a.exact.past;
      within = omega arith;
      words = omega arith;
    })
  ]

  pub window_start-current : (current start c).window_start ≡ start
  unfolding current
  window_start-current = ground arith

-- One more reservation, charged at the counters' own window.
pub plus-IsExact :
    (c : Counters) (r : Reservation) (held : List Reservation)
    → r.held_start ≡ c.window_start
    → r.released ≡ false
    → IsExact c held
    → IsExact (plus c r.held_input_bytes r.held_output_tokens r.held_cost_micros) (r ∷ held)
unfolding total amount
plus-IsExact c r held s o a = record {
  requests_exact = ground arith;
  input_exact = ground arith;
  output_exact = ground arith;
  cost_exact = ground arith;
  past = (omega arith, a.past);
}

module _ (before : List Reservation) (r : Reservation) (after : List Reservation) where
  total-middle :
      (f : Reservation → ℕ) (start : ℕ)
      → total f start (before ++ r ∷ after)
        ≡ total f start before + amount f start r + total f start after
  unfolding total
  total-middle f start = omega (arith, total-append f start before (r ∷ after))

  abbrev pub marked : Reservation
  marked = record r { released = true }

  total-marked :
      (f : Reservation → ℕ) (start : ℕ)
      → total f start (before ++ marked ∷ after) ≡ total f start before + total f start after
  unfolding total amount
  total-marked f start = omega (arith, total-append f start before (marked ∷ after))

  marked-IsPast :
      (start : ℕ) → IsPast start (before ++ r ∷ after) → IsPast start (before ++ marked ∷ after)
  marked-IsPast start p =
      let (b, a) = All-split (λ q. q.held_start ≤ start) before (r ∷ after) p in
      All-append (λ q. q.held_start ≤ start) before (marked ∷ after) b (a.0, a.1)

  total-other :
      (f : Reservation → ℕ) (start : ℕ)
      → start ≢ r.held_start
      → total f start (before ++ r ∷ after) ≡ total f start (before ++ marked ∷ after)
  unfolding amount
  total-other f start h = ground (arith, total-middle f start, total-marked f start)

  total-same :
      (f : Reservation → ℕ) (start : ℕ)
      → r.released ≡ false
      → start ≡ r.held_start
      → total f start (before ++ r ∷ after) ≡ f r + total f start (before ++ marked ∷ after)
  unfolding amount
  total-same f start o h = ground (arith, total-middle f start, total-marked f start)

  module _ (c : Counters) (a : IsExact c (before ++ r ∷ after)) where
    -- Releasing a reservation of another window leaves the counters exact.
    pub other-IsExact : c.window_start ≢ r.held_start → IsExact c (before ++ marked ∷ after)
    other-IsExact h = record {
      requests_exact = a.requests_exact ∙ total-other one c.window_start h;
      input_exact = a.input_exact ∙ total-other (λ q. q.held_input_bytes) c.window_start h;
      output_exact = a.output_exact ∙ total-other (λ q. q.held_output_tokens) c.window_start h;
      cost_exact = a.cost_exact ∙ total-other (λ q. q.held_cost_micros) c.window_start h;
      past = marked-IsPast c.window_start a.past;
    }

    -- So does releasing one of the counters' own window, once it is taken off.
    pub minus-IsExact :
        r.released ≡ false
        → c.window_start ≡ r.held_start
        → IsExact (minus c r) (before ++ marked ∷ after)
    minus-IsExact o h = record {
      requests_exact = omega (arith, a.requests_exact, total-same one c.window_start o h);
      input_exact =
          omega (arith, a.input_exact, total-same (λ q. q.held_input_bytes) c.window_start o h);
      output_exact =
          omega (arith, a.output_exact, total-same (λ q. q.held_output_tokens) c.window_start o h);
      cost_exact =
          omega (arith, a.cost_exact, total-same (λ q. q.held_cost_micros) c.window_start o h);
      past = marked-IsPast c.window_start a.past;
    }

    -- The counters hold every reservation that they charge, so it can be taken off.
    pub holds :
        r.released ≡ false
        → c.window_start ≡ r.held_start
        → (0 < c.requests)
          × (r.held_input_bytes ≤ c.used_input_bytes)
          × (r.held_output_tokens ≤ c.used_output_tokens)
          × (r.held_cost_micros ≤ c.used_cost_micros)
    holds o h = (
      omega (arith, a.requests_exact, total-same one c.window_start o h),
      omega (arith, a.input_exact, total-same (λ q. q.held_input_bytes) c.window_start o h),
      omega (arith, a.output_exact, total-same (λ q. q.held_output_tokens) c.window_start o h),
      omega (arith, a.cost_exact, total-same (λ q. q.held_cost_micros) c.window_start o h),
    )
