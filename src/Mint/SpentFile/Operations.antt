-- ===== src/Mint/SpentFile/Operations.antt =====
-- internal/mint/spentfile.go: what each of Spend, Refund and Retire returns and leaves on disk.
use osanwe.Prelude.{
  ℕ, ◌≡◌, refl, ◌⊎◌, inl, inr, Bool-cases, false, ◌||◌, ltb, ◌==◌, ==_iff, List, [], length, Option,
  none, some, Option-cases, arith, All,
}
use osanwe.Prelude.Go.{Result, ok, err}
use osanwe.Mint.Seen.{lookup, insert, delete, retire, count_key}
use osanwe.Mint.Journal.{spent, refund, retired, zero_fingerprint, max_token_bytes}
use osanwe.Mint.Journal.Records.{IsEntry, perform}
use osanwe.Mint.Journal.Replay.{Entry, IsWritten, perform_log}
use osanwe.Mint.SpentFile.{
  SpentError, already_spent, Store, System, poisoned, verify_current, begin, answer, decide_spend,
  decide_refund, decide_retire, spend_identified, refund_identified, retire_key,
}
use osanwe.Mint.SpentFile.Tracking.{IsTail, journal_of, caught_up}
use osanwe.Mint.SpentFile.Begin.{View, begin-Begun, poisoned_for_good}
use osanwe.Mint.SpentFile.Outcomes.{Outcome, IsRefusal, mutate-Mutated, caught_up-Tracks}

abbrev pub spent_entry : List ℕ → List ℕ → Entry
spent_entry key fingerprint = record { operation = spent; key = key; fingerprint = fingerprint }

abbrev pub refund_entry : List ℕ → List ℕ → Entry
refund_entry key fingerprint = record { operation = refund; key = key; fingerprint = fingerprint }

abbrev pub retired_entry : List ℕ → Entry
retired_entry key = record { operation = retired; key = key; fingerprint = zero_fingerprint }

-- The journal is as it was.
kept-Outcome :
    {A : Type 0} {P Q : Type 0} (log : List Entry) (cut : List ℕ) (e : Entry) (s : Store)
    (r : Result SpentError A)
    → IsTail cut
    → View log s
    → P
    → Outcome log e P Q (s, journal_of log cut, r)
kept-Outcome log cut e s r tail v p = record {
  log_after = log;
  cut_after = cut;
  bytes = refl;
  tail = tail;
  view = v;
  grown = inl (refl, p);
}

-- An answer after one more check: the refusal of that check, or the answer.
answer-Outcome :
    {A : Type 0} {Q : Type 0} (os : System) (log : List Entry) (e : Entry) (s : Store)
    (r : Result SpentError A)
    → Outcome log e
        (IsRefusal (answer os r (journal_of log []) (caught_up log s)).2
          ⊎ ((answer os r (journal_of log []) (caught_up log s)).2 ≡ r))
        Q
        (answer os r (journal_of log []) (caught_up log s))
unfolding answer
answer-Outcome os log e s r =
    elim (Option-cases (verify_current os 1 (journal_of log []) (caught_up log s))) [
      | inr (x, v) ↦
          rw (v, answer)
            (kept-Outcome log [] e (poisoned x (caught_up log s)) (err x) (inl refl)
              (inl (poisoned_for_good x (caught_up log s))) (inl (x, refl)))
      | inl v ↦
          rw (v, answer)
            (kept-Outcome log [] e (caught_up log s) r (inl refl) (inr (caught_up-Tracks log s))
              (inr refl))
    ]

-- Less is known of what was written, or more of when.
weaken :
    {A : Type 0} {P Q P' Q' : Type 0} {log : List Entry} {e : Entry}
    {out : Store × List ℕ × Result SpentError A}
    → (P → P')
    → (Q → Q')
    → Outcome log e P Q out
    → Outcome log e P' Q' out
weaken f g o = record {
  log_after = o.log_after;
  cut_after = o.cut_after;
  bytes = o.bytes;
  tail = o.tail;
  view = o.view;
  grown = elim o.grown [ inl (h, p) ↦ inl (h, f p) | inr (h, q) ↦ inr (h, g q) ];
}

IsRefusal-of :
    {A : Type 0} {r : Result SpentError A} {x : SpentError}
    → IsRefusal r ⊎ (r ≡ err x)
    → IsRefusal r
IsRefusal-of (inl h) = h
IsRefusal-of {x = x} (inr h) = (x, h)

-- Retire takes a key of a permitted length.
pub key_ok :
    {key : List ℕ}
    → IsEntry retired key zero_fingerprint
    → (length key == 0 || ltb max_token_bytes (length key)) ≡ false
key_ok w = ground (arith, w.key_some, w.key_fits)

module _ (os : System) (log : List Entry) (cut : List ℕ) (s : Store) (written : All IsWritten log)
    (tail : IsTail cut) (view : View log s) where
  spend_failed :
      (key fp journal : List ℕ) (p : Store × Option SpentError) {e : SpentError}
      → p.1 ≡ some e
      → decide_spend os key fp journal p ≡ (p.0, journal, err e)
  unfolding decide_spend
  spend_failed key fp journal (t, none) h = cc
  spend_failed key fp journal (t, some e) h = cc

  -- Spend. Without its record on disk it is a refusal, and its record is only ever appended where
  -- the fingerprint was absent.
  pub spend-Outcome :
      (key fp : List ℕ)
      → IsEntry spent key fp
      → Outcome log
          (spent_entry key fp)
          (IsRefusal (spend_identified os key fp (journal_of log cut) s).2)
          (lookup fp (perform_log log []) ≡ none)
          (spend_identified os key fp (journal_of log cut) s)
  unfolding spend_identified decide_spend perform
  spend-Outcome key fp w = elim (begin-Begun log cut s written tail os view) [
    | inl (e, (h, v)) ↦
        rw (spend_failed key fp (journal_of log cut) (begin os (journal_of log cut) s) h)
          (kept-Outcome log cut (spent_entry key fp) _ (err e) tail v (e, refl))
    | inr (h, c) ↦
        rw (h, c)
          (elim (Option-cases (lookup fp (perform_log log []))) [
            | inr (id, l) ↦
                rw (l, decide_spend)
                  (weaken IsRefusal-of (λ q. q)
                    (answer-Outcome os log (spent_entry key fp) s (err already_spent)))
            | inl l ↦
                rw (l, decide_spend)
                  (weaken (λ p. p) (λ q. refl)
                    (mutate-Mutated os log (spent_entry key fp) w (insert fp key) tt s refl))
          ])
  ]

  refund_failed :
      (key fp journal : List ℕ) (p : Store × Option SpentError) {e : SpentError}
      → p.1 ≡ some e
      → decide_refund os key fp journal p ≡ (p.0, journal, err e)
  unfolding decide_refund
  refund_failed key fp journal (t, none) h = cc
  refund_failed key fp journal (t, some e) h = cc

  -- Refund. Without its record on disk it is a refusal, or the fingerprint was absent.
  pub refund-Outcome :
      (key fp : List ℕ)
      → IsEntry refund key fp
      → Outcome log
          (refund_entry key fp)
          (IsRefusal (refund_identified os key fp (journal_of log cut) s).2
            ⊎ (lookup fp (perform_log log []) ≡ none))
          (Unit {0})
          (refund_identified os key fp (journal_of log cut) s)
  unfolding refund_identified decide_refund perform
  refund-Outcome key fp w = elim (begin-Begun log cut s written tail os view) [
    | inl (e, (h, v)) ↦
        rw (refund_failed key fp (journal_of log cut) (begin os (journal_of log cut) s) h)
          (kept-Outcome log cut (refund_entry key fp) _ (err e) tail v (inl (e, refl)))
    | inr (h, c) ↦
        rw (h, c)
          (elim (Option-cases (lookup fp (perform_log log []))) [
            | inl l ↦
                rw (l, decide_refund)
                  (weaken (λ p. inr refl) (λ q. q)
                    (answer-Outcome os log (refund_entry key fp) s (ok tt)))
            | inr (id, l) ↦
                rw (l, decide_refund)
                  (weaken inl (λ q. q)
                    (mutate-Mutated os log (refund_entry key fp) w (delete fp) tt s refl))
          ])
  ]

  retire_failed :
      (key journal : List ℕ) (p : Store × Option SpentError) {e : SpentError}
      → p.1 ≡ some e
      → decide_retire os key journal p ≡ (p.0, journal, err e)
  unfolding decide_retire
  retire_failed key journal (t, none) h = cc
  retire_failed key journal (t, some e) h = cc

  -- Retire. Without its record on disk it is a refusal, or no redemption was under the key.
  pub retire-Outcome :
      (key : List ℕ)
      → IsEntry retired key zero_fingerprint
      → Outcome log
          (retired_entry key)
          (IsRefusal (retire_key os key (journal_of log cut) s).2
            ⊎ (count_key key (perform_log log []) ≡ 0))
          (Unit {0})
          (retire_key os key (journal_of log cut) s)
  unfolding retire_key decide_retire perform
  retire-Outcome key w = rw (key_ok w) (elim (begin-Begun log cut s written tail os view) [
    | inl (e, (h, v)) ↦
        rw (retire_failed key (journal_of log cut) (begin os (journal_of log cut) s) h)
          (kept-Outcome log cut (retired_entry key) _ (err e) tail v (inl (e, refl)))
    | inr (h, c) ↦
        rw (h, c)
          (elim (Bool-cases (count_key key (perform_log log []) == 0)) [
            | inl l ↦
                rw (l, decide_retire)
                  (weaken (λ p. inr ((==_iff (count_key key (perform_log log [])) 0).0 l)) (λ q. q)
                    (answer-Outcome os log (retired_entry key) s (ok 0)))
            | inr l ↦
                rw (l, decide_retire)
                  (weaken inl (λ q. q)
                    (mutate-Mutated os log (retired_entry key) w (retire key)
                      (count_key key (perform_log log [])) s refl))
          ])
  ])
