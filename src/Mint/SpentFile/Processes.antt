-- ===== src/Mint/SpentFile/Processes.antt =====
-- internal/mint/spentfile.go: any number of processes that open one journal and spend, refund and
-- retire in any order. An operation holds the exclusive lock, so that it is one step.
use mathlib.Core.List.{append_assoc}
use osanwe.Prelude.{
  ℕ, ◌≡◌, sym, ap, ◌∙◌, subst, ◌⊎◌, inl, inr, Bool, List, [], ◌∷◌, ◌++◌, none, some, All,
  All-append, All-split,
}
use osanwe.Prelude.Go.{Result, ok}
use osanwe.Mint.Seen.{lookup, count_key}
use osanwe.Mint.Journal.{spent, refund, retired, zero_fingerprint}
use osanwe.Mint.Journal.Records.{IsEntry}
use osanwe.Mint.Journal.Replay.{Entry, IsWritten, perform_log}
use osanwe.Mint.SpentFile.{
  SpentError, Store, System, open_store, close_store, spend_identified, refund_identified,
  retire_key,
}
use osanwe.Mint.SpentFile.Tracking.{IsTail, journal_of}
use osanwe.Mint.SpentFile.Begin.{View}
use osanwe.Mint.SpentFile.Outcomes.{Outcome, IsRefusal}
use osanwe.Mint.SpentFile.Opening.{open_store-Tracks}
use osanwe.Mint.SpentFile.Operations.{
  spent_entry, refund_entry, retired_entry, spend-Outcome, refund-Outcome, retire-Outcome,
}

-- The journal's bytes and the stores of the processes.
pub record World : Type 0 where
  pub journal : List ℕ
  pub stores : List Store

abbrev pub after_call :
    {A : Type 0} → List Store → List Store → Store × List ℕ × Result SpentError A → World
after_call before after out = record { journal = out.1; stores = before ++ out.0 ∷ after }

-- One call of one process, one process that closes its store, or one more process, where `P` holds of the record that the call may
-- append.
pub data Step (P : Entry → Type 0) : World → World → Type 0 where
  spends :
      (w : World) (os : System) (key fp : List ℕ) (before : List Store) (s : Store)
      (after : List Store)
      → w.stores ≡ before ++ s ∷ after
      → IsEntry spent key fp
      → P (spent_entry key fp)
      → Step P w (after_call before after (spend_identified os key fp w.journal s))
  refunds :
      (w : World) (os : System) (key fp : List ℕ) (before : List Store) (s : Store)
      (after : List Store)
      → w.stores ≡ before ++ s ∷ after
      → IsEntry refund key fp
      → P (refund_entry key fp)
      → Step P w (after_call before after (refund_identified os key fp w.journal s))
  retires :
      (w : World) (os : System) (key : List ℕ) (before : List Store) (s : Store)
      (after : List Store)
      → w.stores ≡ before ++ s ∷ after
      → IsEntry retired key zero_fingerprint
      → P (retired_entry key)
      → Step P w (after_call before after (retire_key os key w.journal s))
  closes :
      (w : World) (before : List Store) (s : Store) (after : List Store)
      → w.stores ≡ before ++ s ∷ after
      → Step P w (record { journal = w.journal; stores = before ++ close_store s ∷ after })
  opens :
      (w : World) (os : System) (pinned : Bool) (s : Store)
      → (open_store os pinned (some w.journal)).1 ≡ ok s
      → Step P w (record { journal = w.journal; stores = s ∷ w.stores })

pub data Reach (P : Entry → Type 0) (w : World) : World → Type 0 where
  here : Reach P w w
  next : {v u : World} → Reach P w v → Step P v u → Reach P w u

-- The journal is the bytes of a log, perhaps without the end of the last record, and every store
-- is poisoned or holds what the first records of the log leave.
pub record IsShared (log : List Entry) (w : World) : Type 0 where
  pub cut : List ℕ
  pub bytes : w.journal ≡ journal_of log cut
  pub written : All IsWritten log
  pub tail : IsTail cut
  pub views : All (View log) w.stores

View-more : (log more : List Entry) (s : Store) → View log s → View (log ++ more) s
View-more log more s (inl h) = inl h
View-more log more s (inr t) = inr (record {
  known = t.known;
  later = t.later ++ more;
  split = ap (λ l. l ++ more) t.split ∙ append_assoc t.known t.later more;
  at_known = t.at_known;
  seen_known = t.seen_known;
})

views-more :
    (log more : List Entry) (ss : List Store) → All (View log) ss → All (View (log ++ more)) ss
views-more log more [] v = v
views-more log more (s ∷ ss) v = (View-more log more s v.0, views-more log more ss v.1)

module _ {A : Type 0} {P Q : Type 0} {log : List Entry} {e : Entry}
    {out : Store × List ℕ × Result SpentError A} (o : Outcome log e P Q out) where
  -- The views of the other processes stay views.
  views-after : (ss : List Store) → All (View log) ss → All (View o.log_after) ss
  views-after ss v = elim o.grown [
    | inl (same, _) ↦ subst (λ l. All (View l) ss) (sym same) v
    | inr (more, _) ↦ subst (λ l. All (View l) ss) (sym more) (views-more log (e ∷ []) ss v)
  ]

  IsWritten-after : IsWritten e → All IsWritten log → All IsWritten o.log_after
  IsWritten-after w v = elim o.grown [
    | inl (same, _) ↦ subst (All IsWritten) (sym same) v
    | inr (more, _) ↦ subst (All IsWritten) (sym more) (All-append IsWritten log (e ∷ []) v (w, tt))
  ]

  pub call-IsShared :
      (w : World) (before : List Store) (s : Store) (after : List Store)
      → w.stores ≡ before ++ s ∷ after
      → IsWritten e
      → IsShared log w
      → IsShared o.log_after (after_call before after out)
  call-IsShared w before s after at e_written v =
      let (b, c) = All-split (View log) before (s ∷ after) (subst (All (View log)) at v.views) in
      record {
        cut = o.cut_after;
        bytes = o.bytes;
        written = IsWritten-after e_written v.written;
        tail = o.tail;
        views =
            All-append (View o.log_after) before (out.0 ∷ after) (views-after before b)
              (o.view, views-after after c.1);
      }

-- The view of the process that is called.
pub View-at :
    (log : List Entry) (w : World) (before : List Store) (s : Store) (after : List Store)
    → w.stores ≡ before ++ s ∷ after
    → IsShared log w
    → View log s
View-at log w before s after at v =
    (All-split (View log) before (s ∷ after) (subst (All (View log)) at v.views)).1.0

-- The outcomes of the calls in a world.
module _ {log : List Entry} (w : World) (os : System) (before : List Store) (s : Store)
    (after : List Store) (at : w.stores ≡ before ++ s ∷ after) (v : IsShared log w) where
  pub spend_at :
      (key fp : List ℕ)
      → IsEntry spent key fp
      → Outcome log
          (spent_entry key fp)
          (IsRefusal (spend_identified os key fp w.journal s).2)
          (lookup fp (perform_log log []) ≡ none)
          (spend_identified os key fp w.journal s)
  spend_at key fp e =
      subst
        (λ j.
          Outcome log (spent_entry key fp) (IsRefusal (spend_identified os key fp j s).2)
            (lookup fp (perform_log log []) ≡ none) (spend_identified os key fp j s))
        (sym v.bytes)
        (spend-Outcome os log v.cut s v.written v.tail (View-at log w before s after at v) key fp e)

  pub refund_at :
      (key fp : List ℕ)
      → IsEntry refund key fp
      → Outcome log
          (refund_entry key fp)
          (IsRefusal (refund_identified os key fp w.journal s).2
            ⊎ (lookup fp (perform_log log []) ≡ none))
          (Unit {0})
          (refund_identified os key fp w.journal s)
  refund_at key fp e =
      subst
        (λ j.
          Outcome log (refund_entry key fp)
            (IsRefusal (refund_identified os key fp j s).2
              ⊎ (lookup fp (perform_log log []) ≡ none))
            (Unit {0}) (refund_identified os key fp j s))
        (sym v.bytes)
        (refund-Outcome os log v.cut s v.written v.tail (View-at log w before s after at v) key fp
          e)

  pub retire_at :
      (key : List ℕ)
      → IsEntry retired key zero_fingerprint
      → Outcome log
          (retired_entry key)
          (IsRefusal (retire_key os key w.journal s).2 ⊎ (count_key key (perform_log log []) ≡ 0))
          (Unit {0})
          (retire_key os key w.journal s)
  retire_at key e =
      subst
        (λ j.
          Outcome log (retired_entry key)
            (IsRefusal (retire_key os key j s).2 ⊎ (count_key key (perform_log log []) ≡ 0))
            (Unit {0}) (retire_key os key j s))
        (sym v.bytes)
        (retire-Outcome os log v.cut s v.written v.tail (View-at log w before s after at v) key e)

close-View : (log : List Entry) (s : Store) → View log s → View log (close_store s)
unfolding close_store
close-View log s (inl p) = inl p
close-View log s (inr t) = inr (record {
  known = t.known;
  later = t.later;
  split = t.split;
  at_known = t.at_known;
  seen_known = t.seen_known;
})

close-IsShared :
    (log : List Entry) (w : World) (before : List Store) (s : Store) (after : List Store)
    → w.stores ≡ before ++ s ∷ after
    → IsShared log w
    → IsShared log (record { journal = w.journal; stores = before ++ close_store s ∷ after })
close-IsShared log w before s after at v =
    let (b, c) = All-split (View log) before (s ∷ after) (subst (All (View log)) at v.views) in
    record {
      cut = v.cut;
      bytes = v.bytes;
      written = v.written;
      tail = v.tail;
      views = All-append (View log) before (close_store s ∷ after) b (close-View log s c.0, c.1);
    }

open-IsShared :
    (log : List Entry) (w : World) (os : System) (pinned : Bool) (s : Store)
    → (open_store os pinned (some w.journal)).1 ≡ ok s
    → IsShared log w
    → IsShared log (record { journal = w.journal; stores = s ∷ w.stores })
open-IsShared log w os pinned s h v = record {
  cut = v.cut;
  bytes = v.bytes;
  written = v.written;
  tail = v.tail;
  views = (
    inr (
        open_store-Tracks os pinned log v.cut v.written v.tail
          (subst (λ j. (open_store os pinned (some j)).1 ≡ ok s) v.bytes h)),
    v.views,
  );
}

-- A log that the journal of `w` is the bytes of.
abbrev pub SomeShared : (List Entry → Type 0) → World → Type 0
SomeShared R w = (log : List Entry) × (IsShared log w × R log)

-- What holds of the redemptions, and is left by every record that a step may append, holds after
-- the step.
module _ (P : Entry → Type 0) (R : List Entry → Type 0)
    (keeps : (log : List Entry) (e : Entry)
      → P e
      → (e.operation ≡ spent → lookup e.fingerprint (perform_log log []) ≡ none)
      → R log
      → R (log ++ e ∷ [])) where
  outcome-keeps :
      {A : Type 0} {D Q : Type 0} {log : List Entry} {e : Entry}
      {out : Store × List ℕ × Result SpentError A} (o : Outcome log e D Q out)
      → P e
      → (Q → e.operation ≡ spent → lookup e.fingerprint (perform_log log []) ≡ none)
      → R log
      → R o.log_after
  outcome-keeps {log = log} {e = e} o p absent r = elim o.grown [
    | inl (same, _) ↦ subst R (sym same) r
    | inr (more, q) ↦ subst R (sym more) (keeps log e p (absent q) r)
  ]

  pub Step-keeps : {w u : World} → Step P w u → SomeShared R w → SomeShared R u
  Step-keeps (spends w os key fp before s after at e p) (log, (v, r)) =
      let o = spend_at w os before s after at v key fp e in
      (o.log_after, (call-IsShared o w before s after at e v, outcome-keeps o p (λ q _. q) r))
  Step-keeps (refunds w os key fp before s after at e p) (log, (v, r)) =
      let o = refund_at w os before s after at v key fp e in
      (
        o.log_after,
        (call-IsShared o w before s after at e v, outcome-keeps o p (λ q z. absurd (cc)) r),
      )
  Step-keeps (retires w os key before s after at e p) (log, (v, r)) =
      let o = retire_at w os before s after at v key e in
      (
        o.log_after,
        (call-IsShared o w before s after at e v, outcome-keeps o p (λ q z. absurd (cc)) r),
      )
  Step-keeps (closes w before s after at) (log, (v, r)) =
      (log, (close-IsShared log w before s after at v, r))
  Step-keeps (opens w os pinned s h) (log, (v, r)) = (log, (open-IsShared log w os pinned s h v, r))

  pub Reach-keeps : {w u : World} → Reach P w u → SomeShared R w → SomeShared R u
  Reach-keeps here v = v
  Reach-keeps (next r s) v = Step-keeps s (Reach-keeps r v)
