-- ===== src/Health/Streak.antt =====
-- The tracker counts, for each relay, the failures since its last success.
use osanwe.Prelude.{
  ℕ, ◌+◌, ◌≡◌, refl, ap, ◌∙◌, Bool, true, false, none, List, [], ◌∷◌, arith, Bool-cases, inl, inr,
  if◌then◌else◌,
}
use osanwe.Prelude.Table.{find, remove_if, find-put, find-remove}
use osanwe.Prelude.Text.{bytes_eq, eq_of_bytes_eq}
use osanwe.Health.{Tracker, or_zero, failures, record_probe, is_kept, forget}

pub data Event : Type 0 where
  probe : List ℕ → Bool → Event
  known : List (List ℕ × Bool) → Event

unfoldable pub run : List Event → Tracker → Tracker
run [] t = t
run (probe key fine ∷ events) t = run events (record_probe key fine t).0
run (known keep ∷ events) t = run events (forget keep t)

-- What one relay's count is, from its own events alone.
unfoldable pub streak : List ℕ → List Event → ℕ → ℕ
streak key [] n = n
streak key (probe other fine ∷ events) n =
    streak key events (if bytes_eq other key then (if fine then 0 else n + 1) else n)
streak key (known keep ∷ events) n = streak key events (if is_kept keep key then n else 0)

find-forget :
    (key : List ℕ) (keep : List (List ℕ × Bool)) (t : Tracker)
    → find key (forget keep t) ≡ (if is_kept keep key then find key t else none)
unfolding forget remove_if find
find-forget key keep [] = ground arith
find-forget key keep ((k, n) ∷ t) = elim (Bool-cases (bytes_eq k key)) [
  | inl e ↦
      let same : is_kept keep k ≡ is_kept keep key = ap (is_kept keep) (eq_of_bytes_eq k key e) in
      ground (arith, find-forget key keep t, e, same)
  | inr e ↦ ground (arith, find-forget key keep t, e)
]

failures-record_probe :
    (key other : List ℕ) (fine : Bool) (t : Tracker)
    → failures key (record_probe other fine t).0
      ≡ (if bytes_eq other key then (if fine then 0 else failures key t + 1) else failures key t)
unfolding failures record_probe or_zero
failures-record_probe key other true t = ground (arith, find-remove other key t)
failures-record_probe key other false t = elim (Bool-cases (bytes_eq other key)) [
  | inl e ↦
      let same : failures other t ≡ failures key t =
        ap (λ k. failures k t) (eq_of_bytes_eq other key e) in
      ground (arith, find-put other key (failures other t + 1) t, e, same)
  | inr e ↦ ground (arith, find-put other key (failures other t + 1) t, e)
]

failures-forget :
    (key : List ℕ) (keep : List (List ℕ × Bool)) (t : Tracker)
    → failures key (forget keep t) ≡ (if is_kept keep key then failures key t else 0)
unfolding failures or_zero
failures-forget key keep t = ground (arith, find-forget key keep t)

-- After any sequence of probes and of Forget, a relay's count is the number of failures since its last
-- success or since it was last unknown, whatever happened to the other relays.
pub failures-run :
    (key : List ℕ) (events : List Event) (t : Tracker)
    → failures key (run events t) ≡ streak key events (failures key t)
unfolding run streak
failures-run key [] t = refl
failures-run key (probe other fine ∷ events) t =
    failures-run key events (record_probe other fine t).0
    ∙ ap (streak key events) (failures-record_probe key other fine t)
failures-run key (known keep ∷ events) t =
    failures-run key events (forget keep t) ∙ ap (streak key events) (failures-forget key keep t)
