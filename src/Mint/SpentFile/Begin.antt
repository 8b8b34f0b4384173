-- ===== src/Mint/SpentFile/Begin.antt =====
-- internal/mint/spentfile.go: what Spend, Refund and Retire begin with either fails and leaves the
-- store as it was or poisoned, or brings it up to the whole journal.
use osanwe.Prelude.{
  ℕ, ◌≡◌, ◌≢◌, refl, ◌⊎◌, inl, inr, not, if◌then◌else◌, List, [], Option, none, some, Option-cases,
  arith, All,
}
use osanwe.Mint.Journal.Replay.{Entry, IsWritten}
use osanwe.Mint.SpentFile.{
  SpentError, os_failed, unavailable, Store, System, ready, poisoned, verify_paths, verify_current,
  refresh, or_poison, check, refreshed, begin,
}
use osanwe.Mint.SpentFile.Tracking.{
  IsTail, journal_of, Tracks, caught_up, refresh_log, refresh_torn,
}

-- A store that never answers again, or one whose map is that of a part of the log.
abbrev pub View : List Entry → Store → Type 0
View log s = (s.poison ≢ none) ⊎ Tracks log s

pub poisoned_for_good : (e : SpentError) (s : Store) → (poisoned e s).poison ≢ none
unfolding poisoned
poisoned_for_good e s h = elim (Option-cases s.poison) [
  | inl p ↦ ground arith
  | inr (x, p) ↦ ground arith
]

-- What `begin` may return.
abbrev pub Begun : List Entry → List ℕ → Store → Store × Option SpentError → Type 0
Begun log cut s r =
    ((e : SpentError) × ((r.1 ≡ some e) × View log r.0))
    ⊎ ((r ≡ (caught_up log s, none)) × (cut ≡ []))

failed-Begun :
    (log : List Entry) (cut : List ℕ) (s t : Store) (e : SpentError)
    → Begun log cut s (poisoned e t, some e)
failed-Begun log cut s t e = inl (e, (refl, inl (poisoned_for_good e t)))

-- The last check of the beginning.
check-Begun :
    (os : System) (n : ℕ) (journal : List ℕ) (log : List Entry) (s : Store)
    → Begun log [] s (check os n journal (caught_up log s, none))
unfolding check or_poison
check-Begun os n journal log s =
    elim (Option-cases (verify_current os n journal (caught_up log s))) [
      | inl v ↦ inr (rw v refl, refl)
      | inr (e, v) ↦ rw v (inl (e, (refl, inl (poisoned_for_good e (caught_up log s)))))
    ]

-- A failure passes the remaining checks.
failed-refreshed :
    (os : System) (journal : List ℕ) (s : Store) (e : SpentError)
    → check os 0 journal (refreshed journal (or_poison s (some e))) ≡ (poisoned e s, some e)
unfolding check refreshed or_poison
failed-refreshed os journal s e = refl

failed-check :
    (os : System) (journal : List ℕ) (s : Store) (e : SpentError)
    → check os 0 journal (or_poison s (some e)) ≡ (poisoned e s, some e)
unfolding check or_poison
failed-check os journal s e = refl

pub refreshed-good :
    (journal : List ℕ) (s t : Store)
    → refresh journal s ≡ (t, none)
    → refreshed journal (or_poison s none) ≡ (t, none)
unfolding refreshed or_poison
refreshed-good journal s t h = rw h refl

refreshed-bad :
    (journal : List ℕ) (s : Store) (e : SpentError)
    → (refresh journal s).1 ≡ some e
    → refreshed journal (or_poison s none) ≡ or_poison (refresh journal s).0 (some e)
unfolding refreshed or_poison
refreshed-bad journal s e h = rw h refl

module _ (log : List Entry) (cut : List ℕ) (s : Store) where
  unready :
      (os : System) (e : SpentError)
      → ready s ≡ some e
      → begin os (journal_of log cut) s ≡ (s, some e)
  unfolding begin
  unready os e h = rw (h, begin) refl

  pub is_ready :
      (os : System) {r : Option SpentError}
      → ready s ≡ none
      → (if not os.lock_ok then some os_failed else verify_paths os (journal_of log cut) s) ≡ r
      → begin os (journal_of log cut) s
        ≡ check os 0 (journal_of log cut) (refreshed (journal_of log cut) (or_poison s r))
  unfolding begin
  is_ready os h p = rw (h, p, begin) refl

  poison-unready : s.poison ≢ none → ready s ≡ some unavailable
  unfolding ready
  poison-unready h = elim (Option-cases s.poison) [ inl p ↦ absurd (h p) | inr (e, p) ↦ rw p refl ]

module _ (log : List Entry) (cut : List ℕ) (s : Store) (written : All IsWritten log)
    (tail : IsTail cut) where
  read-Begun :
      (os : System)
      → Tracks log s
      → Begun log cut s
          (check os 0 (journal_of log cut) (refreshed (journal_of log cut) (or_poison s none)))
  read-Begun os t = elim tail [
    | inl whole ↦
        rw
          (
            whole,
            refreshed-good (journal_of log []) s (caught_up log s) (refresh_log log s written t),
          )
          (check-Begun os 0 (journal_of log []) log s)
    | inr torn ↦
        let (e, r) = refresh_torn log cut s written torn t in
        rw
          (
            refreshed-bad (journal_of log cut) s e r,
            failed-check os (journal_of log cut) (refresh (journal_of log cut) s).0 e,
          )
          (failed-Begun log cut s (refresh (journal_of log cut) s).0 e)
  ]

  pub begin-Begun : (os : System) → View log s → Begun log cut s (begin os (journal_of log cut) s)
  begin-Begun os (inl p) =
      rw (unready log cut s os unavailable (poison-unready log cut s p))
        (inl (unavailable, (refl, inl p)))
  begin-Begun os (inr t) = elim (Option-cases (ready s)) [
    | inr (e, h) ↦ rw (unready log cut s os e h) (inl (e, (refl, inr t)))
    | inl h ↦
        elim (Option-cases
          (if not os.lock_ok then some os_failed else verify_paths os (journal_of log cut) s)) [
            | inl p ↦ rw (is_ready log cut s os h p) (read-Begun os t)
            | inr (e, p) ↦
                rw (is_ready log cut s os h p, failed-refreshed os (journal_of log cut) s e)
                  (inl (e, (refl, inl (poisoned_for_good e s))))
          ]
  ]
