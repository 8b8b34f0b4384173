-- ===== src/Checkout/Limiter.antt =====
-- internal/checkout/server.go, minuteLimiter: at most so many invoices a minute. Times are
-- nanoseconds.
use osanwe.Prelude.{
  ℕ, suc, ◌+◌, ◌-◌, Bool, true, false, ◌||◌, ltb, leb, if◌then◌else◌, List, [], ◌∷◌, Option, none,
  some,
}
pub mod Bound
pub mod Tests

abbrev pub minute : ℕ
minute = 60000000000

-- minuteLimiter; `start` is none where it is the zero time.
pub record MinuteLimiter : Type 0 where
  pub start : Option ℕ
  pub used : ℕ
  pub maximum : ℕ

-- Whether a new minute begins.
pub is_over : Option ℕ → ℕ → Bool
is_over none now = true
is_over (some start) now = leb (start + minute) now || ltb now start

abbrev pub renewed : ℕ → MinuteLimiter → MinuteLimiter
renewed now l = if is_over l.start now then record l { start = some now; used = 0 } else l

pub take_one : MinuteLimiter → MinuteLimiter × Bool
take_one l = if leb l.maximum l.used then (l, false) else (record l { used = l.used + 1 }, true)

-- (*minuteLimiter).Allow
pub allow : ℕ → MinuteLimiter → MinuteLimiter × Bool
allow now l = take_one (renewed now l)

-- How many of a sequence of calls are allowed.
pub allowed : List ℕ → MinuteLimiter → ℕ
allowed [] l = 0
allowed (now ∷ later) l =
    let (next, granted) = allow now l in
    let rest = allowed later next in if granted then suc rest else rest
