-- ===== src/Checkout/Limiter/Tests.antt =====
-- internal/checkout/server.go, minuteLimiter: three calls of which two are allowed.
use osanwe.Prelude.{◌≡◌, refl, true, [], ◌∷◌, none, arith}
use osanwe.Checkout.Limiter.{MinuteLimiter, allowed, is_over}
use osanwe.Checkout.Limiter.Bound.{lesser, allowed-minute}

abbrev two_a_minute : MinuteLimiter
two_a_minute = record { start = none; used = 0; maximum = 2 }

begins : is_over none 5 ≡ true
unfolding is_over
begins = refl

allowed-minute_example : allowed (5 ∷ 6 ∷ 7 ∷ []) two_a_minute ≡ lesser 3 2
allowed-minute_example =
    allowed-minute 5 (6 ∷ 7 ∷ []) two_a_minute begins
      ((omega arith, omega arith), ((omega arith, omega arith), tt))
