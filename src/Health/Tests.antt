-- ===== src/Health/Tests.antt =====
-- Two relays, one of which is forgotten.
use osanwe.Prelude.{ℕ, ◌≡◌, refl, Bool, true, false, List, [], ◌∷◌}
use osanwe.Prelude.Text.{codes}
use osanwe.Health.{new_tracker, failures}
use osanwe.Health.Streak.{Event, probe, known, run, streak, failures-run}

abbrev events : List Event
events =
    probe (codes "a") false
    ∷ probe (codes "b") false
    ∷ known ((codes "a", true) ∷ [])
    ∷ probe (codes "a") false
    ∷ probe (codes "b") false
    ∷ []

two_in_a_row : failures (codes "a") (run events new_tracker) ≡ 2
unfolding failures osanwe.Prelude.Table.find run osanwe.Health.record_probe osanwe.Prelude.Table.put
    osanwe.Health.forget osanwe.Prelude.Table.remove_if osanwe.Prelude.Text.bytes_eq
two_in_a_row = refl

forgotten_once : failures (codes "b") (run events new_tracker) ≡ 1
unfolding failures osanwe.Prelude.Table.find run osanwe.Health.record_probe osanwe.Prelude.Table.put
    osanwe.Health.forget osanwe.Prelude.Table.remove_if osanwe.Prelude.Text.bytes_eq
forgotten_once = refl

failures-run_example :
    failures (codes "a") (run events new_tracker)
    ≡ streak (codes "a") events (failures (codes "a") new_tracker)
failures-run_example = failures-run (codes "a") events new_tracker
