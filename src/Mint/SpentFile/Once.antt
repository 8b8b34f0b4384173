-- ===== src/Mint/SpentFile/Once.antt =====
-- internal/mint/spentfile.go: over all processes a token is redeemed once, and a store over a
-- whole journal in a system that works redeems every token that was not.
use osanwe.Prelude.{
  ℕ, ◌≡◌, ◌≢◌, refl, sym, ap, ◌∙◌, subst, inl, inr, false, Bool-cases, List, [], ◌∷◌, ◌++◌, none,
  some,
}
use osanwe.Prelude.Go.{Result, ok}
use osanwe.Mint.Seen.{
  Seen, bytes_eq, bytes_eq_iff, lookup, lookup-insert, lookup-delete, lookup-retire_other,
}
use osanwe.Mint.Journal.{Operation, spent, refund, retired}
use osanwe.Mint.Journal.Records.{IsEntry, perform}
use osanwe.Mint.Journal.Replay.{Entry, perform_log}
use osanwe.Mint.SpentFile.{SpentError, Store, System, spend_identified}
use osanwe.Mint.SpentFile.Tracking.{perform_log-append}
use osanwe.Mint.SpentFile.Outcomes.{Outcome, IsRefusal}
use osanwe.Mint.SpentFile.Operations.{spent_entry}
use osanwe.Mint.SpentFile.Processes.{
  World, Reach, IsShared, after_call, spend_at, call-IsShared, Reach-keeps,
}

-- A record that does not give the token back: no refund of its fingerprint, no retirement of the
-- key it was spent under.
pub record Leaves (fp key : List ℕ) (e : Entry) : Type 0 where
  pub no_refund : e.operation ≡ refund → e.fingerprint ≢ fp
  pub no_retirement : e.operation ≡ retired → e.key ≢ key

abbrev IsSpent : List ℕ → List ℕ → List Entry → Type 0
IsSpent fp key log = lookup fp (perform_log log []) ≡ some key

ne_bytes : (xs ys : List ℕ) → xs ≢ ys → bytes_eq xs ys ≡ false
ne_bytes xs ys h = elim (Bool-cases (bytes_eq xs ys)) [
  | inl e ↦ absurd (h ((bytes_eq_iff xs ys).0 e))
  | inr e ↦ e
]

perform-keeps :
    (fp key : List ℕ) (operation : Operation) (k f : List ℕ) (seen : Seen)
    → Leaves fp key (record { operation = operation; key = k; fingerprint = f })
    → (operation ≡ spent → lookup f seen ≡ none)
    → lookup fp seen ≡ some key
    → lookup fp (perform operation k f seen) ≡ some key
unfolding perform
perform-keeps fp key spent k f seen l a h =
    lookup-insert f fp k seen
    ∙ rw (ne_bytes f fp (λ e. let q = a refl in let r = ap (λ x. lookup x seen) e in cc)) h
perform-keeps fp key refund k f seen l a h =
    lookup-delete f fp seen ∙ rw (ne_bytes f fp (l.no_refund refl)) h
perform-keeps fp key retired k f seen l a h =
    lookup-retire_other k fp key seen h (ne_bytes key k (λ e. l.no_retirement refl (sym e)))

-- A record that leaves the token leaves it spent.
log-keeps :
    (fp key : List ℕ) (log : List Entry) (e : Entry)
    → Leaves fp key e
    → (e.operation ≡ spent → lookup e.fingerprint (perform_log log []) ≡ none)
    → IsSpent fp key log
    → IsSpent fp key (log ++ e ∷ [])
unfolding perform_log
log-keeps fp key log e l a h =
    rw (perform_log-append log (e ∷ []) [])
      (perform-keeps fp key e.operation e.key e.fingerprint (perform_log log []) l a h)

IsSpent-now : (fp key : List ℕ) (log : List Entry) → IsSpent fp key (log ++ spent_entry key fp ∷ [])
unfolding perform_log perform
IsSpent-now fp key log =
    rw (perform_log-append log (spent_entry key fp ∷ []) [])
      (lookup-insert fp fp key (perform_log log []) ∙ rw ((bytes_eq_iff fp fp).1 refl) refl)

-- A spend that succeeded is in the log.
spend_recorded :
    {log : List Entry} {fp key : List ℕ} {out : Store × List ℕ × Result SpentError (Unit {0})}
    {Q : Type 0} (o : Outcome log (spent_entry key fp) (IsRefusal out.2) Q out)
    → out.2 ≡ ok tt
    → IsSpent fp key o.log_after
spend_recorded {log} {fp} {key} o h = elim o.grown [
  | inl (_, (x, r)) ↦ absurd (cc)
  | inr (more, _) ↦ subst (IsSpent fp key) (sym more) (IsSpent-now fp key log)
]

-- After any process redeemed a token, and as long as no process refunds the token or retires the
-- key it was spent under, no process redeems it again, whatever calls, openings and closings come between,
-- failed ones and writes cut off at any byte included.
pub spend_once :
    {log : List Entry} {w u : World} (os os' : System) (key key' fp : List ℕ) (before : List Store)
    (s : Store) (after before' : List Store) (s' : Store) (after' : List Store)
    → IsShared log w
    → w.stores ≡ before ++ s ∷ after
    → IsEntry spent key fp
    → (spend_identified os key fp w.journal s).2 ≡ ok tt
    → Reach (Leaves fp key) (after_call before after (spend_identified os key fp w.journal s)) u
    → u.stores ≡ before' ++ s' ∷ after'
    → IsEntry spent key' fp
    → (spend_identified os' key' fp u.journal s').2 ≢ ok tt
spend_once {log} {w} {u} os os' key key' fp before s after before' s' after' v at e h reach at' e'
      again =
    let o = spend_at w os before s after at v key fp e in
    let (log', (v', r)) =
      Reach-keeps (Leaves fp key) (IsSpent fp key) (log-keeps fp key) reach
        (o.log_after, (call-IsShared o w before s after at e v, spend_recorded o h)) in
    elim (spend_at u os' before' s' after' at' v' key' fp e').grown [
      | inl (_, (x, q)) ↦ cc
      | inr (_, absent) ↦ cc
    ]
