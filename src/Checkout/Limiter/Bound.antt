-- ===== src/Checkout/Limiter/Bound.antt =====
-- internal/checkout/server.go, minuteLimiter: exactly the first calls of a minute are allowed.
use osanwe.Prelude.{
  ℕ, suc, ◌+◌, ◌-◌, ◌<◌, ◌≤◌, ◌≡◌, ap, ◌∙◌, true, false, leb, if◌then◌else◌, Bool-cases, List, [],
  ◌∷◌, length, some, arith, All, inl, inr,
}
use osanwe.Checkout.Limiter.{MinuteLimiter, minute, is_over, take_one, allow, allowed}

abbrev pub lesser : ℕ → ℕ → ℕ
lesser a b = if leb a b then a else b

-- A call within the minute that is counted.
within : (s now : ℕ) → s ≤ now → now < s + minute → is_over (some s) now ≡ false
unfolding is_over
within s now h k = ground arith

take_one-free :
    (l : MinuteLimiter) → l.used < l.maximum → take_one l ≡ (record l { used = l.used + 1 }, true)
unfolding take_one
take_one-free l h = ground arith

take_one-full : (l : MinuteLimiter) → l.maximum ≤ l.used → take_one l ≡ (l, false)
unfolding take_one
take_one-full l h = ground arith

-- Of calls within one minute those are allowed that the maximum leaves.
allowed-left :
    (times : List ℕ) (s used maximum : ℕ)
    → All (λ t. (s ≤ t) × (t < s + minute)) times
    → allowed times (record { start = some s; used = used; maximum = maximum })
      ≡ lesser (length times) (maximum - used)
unfolding allowed allow
allowed-left [] s used maximum h = ground arith
allowed-left (t ∷ ts) s used maximum h = elim (Bool-cases (leb maximum used)) [
  | inl full ↦
      rw
        (
          within s t h.0.0 h.0.1,
          take_one-full (record { start = some s; used = used; maximum = maximum }) (ground arith),
        )
        (allowed-left ts s used maximum h.1 ∙ ground arith)
  | inr free ↦
      rw
        (
          within s t h.0.0 h.0.1,
          take_one-free (record { start = some s; used = used; maximum = maximum }) (ground arith),
        )
        (ap suc (allowed-left ts s (used + 1) maximum h.1) ∙ ground arith)
]

-- Of calls within one minute of the first one, as many are allowed as there are, but no more than
-- the maximum, whatever the limiter counted before where that minute is over.
pub allowed-minute :
    (first : ℕ) (times : List ℕ) (l : MinuteLimiter)
    → is_over l.start first ≡ true
    → All (λ t. (first ≤ t) × (t < first + minute)) times
    → allowed (first ∷ times) l ≡ lesser (suc (length times)) l.maximum
unfolding allowed allow
allowed-minute first times l over h = elim (Bool-cases (leb l.maximum 0)) [
  | inl full ↦
      rw (over, take_one-full (record l { start = some first; used = 0 }) (ground arith))
        (allowed-left times first 0 l.maximum h ∙ ground arith)
  | inr free ↦
      rw (over, take_one-free (record l { start = some first; used = 0 }) (ground arith))
        (ap suc (allowed-left times first 1 l.maximum h) ∙ ground arith)
]
