-- ===== src/Pool/Tests.antt =====
-- internal/pool/pool.go on two relays.
use osanwe.Prelude.{
  ℕ, zero, suc, ◌<◌, ◌≡◌, refl, ◌⊎◌, Bool, true, false, ◌||◌, [], ◌∷◌, ◌++◌, none, some, arith,
}
use osanwe.Prelude.Go.{pos, ok, err}
use osanwe.Pool.{
  Consensus, refresh, connects, refuses, Attempt, Pool, PoolError, too_stale, is_up, is_guard,
  candidates, choose, others, guard_first, or_all, dial_each, dial_context,
}
use osanwe.Pool.Candidates.{member, IsTried, candidates-IsTried}
use osanwe.Pool.Refresh.{Refreshed, refresh-Refreshed}
use osanwe.Pool.Dial.{dial_context-outcome, dial_fails_over}

abbrev two_relays : Pool
two_relays = record {
  heap = λ r. record {
    desc = record { address = r ∷ []; pin = [] };
    fails = 0;
    down_until = 0;
    last_error = none;
  };
  fresh = 2;
  relays = 0 ∷ 1 ∷ [];
  guard = some 1;
  guard_since = 5;
  signed_by = 2;
  valid_after = 50;
  valid_until = 100;
  refresh_failing = false;
  stats = record {
    refreshes = 1;
    refresh_errors = 0;
    failovers = 0;
    dial_errors = 0;
    key_mismatches = 0;
  };
}

abbrev answers : ℕ → Attempt
answers zero = record { answer = refuses false; at = 61 }
answers (suc n) = record { answer = connects; at = 62 }

abbrev all_answer : ℕ → Attempt
all_answer n = record { answer = connects; at = 60 }

chosen : candidates (pos 10) 60 two_relays ≡ ok (1 ∷ 0 ∷ [])
unfolding candidates choose too_stale others guard_first or_all is_up
chosen = refl

candidates-IsTried_example : IsTried (pos 10) 60 two_relays (1 ∷ 0 ∷ [])
candidates-IsTried_example = candidates-IsTried (pos 10) 60 two_relays (1 ∷ 0 ∷ []) chosen

is_current : (too_stale (pos 10) 100 60).0 ≡ false
unfolding too_stale
is_current = refl

guard_up : is_up two_relays 60 1 ≡ true
unfolding is_up
guard_up = refl

dial_context-outcome_example :
    ((r : ℕ) × ((dial_context (pos 10) 60 answers two_relays).1 ≡ ok r)
      × (((is_guard (some 1) r || member r two_relays.relays) ≡ true)
          × (((too_stale (pos 10) 100 60).0 ≡ false)
              × (((dial_context (pos 10) 60 answers two_relays).0.guard ≡ some r)
                  × (((dial_context (pos 10) 60 answers two_relays).0.heap r).fails ≡ 0)))))
    ⊎ ((e : PoolError) × ((dial_context (pos 10) 60 answers two_relays).1 ≡ err e)
        × ((dial_context (pos 10) 60 answers two_relays).0.guard ≡ some 1))
dial_context-outcome_example = dial_context-outcome (pos 10) 60 answers two_relays

refused_first : (n : ℕ) → n < 1 → (m : Bool) × ((answers n).answer ≡ refuses m)
refused_first zero h = (false, refl)
refused_first (suc n) h = absurd (omega (arith, h))

dial_fails_over_example : (dial_each answers ((1 ∷ []) ++ 0 ∷ []) two_relays).1 ≡ ok 0
dial_fails_over_example = dial_fails_over answers (1 ∷ []) 0 [] two_relays refused_first refl

-- A consensus that lists relay 0 again and a new one.
abbrev newer : Consensus
newer = record {
  verified_by = 3;
  starts = 90;
  ends = 190;
  usable = record { address = 0 ∷ []; pin = [] } ∷ record { address = 9 ∷ []; pin = [] } ∷ [];
}

abbrev nothing_listed : Consensus
nothing_listed = record { verified_by = 3; starts = 90; ends = 190; usable = [] }

refresh-Refreshed_example :
    Refreshed two_relays (refresh (λ d. true) (λ rs. rs) (some newer) two_relays)
refresh-Refreshed_example = refresh-Refreshed (λ d. true) (λ rs. rs) (some newer) two_relays

-- The old relays stay, and their grace runs from the new consensus.
unlisted_keeps_relays :
    (refresh (λ d. true) (λ rs. rs) (some nothing_listed) two_relays).0.relays ≡ 0 ∷ 1 ∷ []
unfolding refresh
unlisted_keeps_relays = refl

unlisted_extends_grace :
    (refresh (λ d. true) (λ rs. rs) (some nothing_listed) two_relays).0.valid_until ≡ 190
unfolding refresh
unlisted_extends_grace = refl
