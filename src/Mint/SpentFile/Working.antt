-- ===== src/Mint/SpentFile/Working.antt =====
-- internal/mint/spentfile.go: Spend, Refund and Retire where the operating system does what it is
-- asked: their answers and the journal are those of one map in memory.
use mathlib.Core.List.{append-nil}
use osanwe.Prelude.{
  ℕ, ◌+◌, ◌≤◌, ◌≡◌, refl, sym, ap, ◌∙◌, inl, inr, true, le→ltb, ==_iff, ◌==◌, Bool-cases, List, [],
  ◌∷◌, ◌++◌, length, length-append, none, some, not, if◌then◌else◌, Option-cases, arith, All,
}
use osanwe.Prelude.Go.{Result, ok, err}
use osanwe.Mint.Seen.{Seen, lookup, insert, delete, retire, count_key}
use osanwe.Mint.Journal.{Operation, encode_record, retired, zero_fingerprint}
use osanwe.Mint.Journal.Records.{IsEntry, perform}
use osanwe.Mint.Journal.Replay.{Entry, IsWritten, encode, encode_log, perform_log, perform_entry}
use osanwe.Mint.SpentFile.{
  SpentError, already_spent, os_failed, Store, System, synced, ready, verify_paths, verify_current,
  begin, check, or_poison, append_record, settle, mutate, answer, decide_spend, decide_refund,
  spend_identified, refund_identified, retire_key, decide_retire,
}
use osanwe.Mint.SpentFile.Tracking.{
  journal_of, Tracks, caught_up, refresh_log, perform_log-append, encode_log-append,
}
use osanwe.Mint.SpentFile.Begin.{is_ready, refreshed-good}
use osanwe.Mint.SpentFile.Outcomes.{one_more, journal-more}
use osanwe.Mint.SpentFile.Operations.{spent_entry, refund_entry, retired_entry, key_ok}

-- The lock is had, the checks of the files pass, and what is written is written and synced.
pub record IsWorking (os : System) : Type 0 where
  pub locks : os.lock_ok ≡ true
  pub paths : os.paths_ok ≡ true
  pub stays : (n : ℕ) → os.still_ok n ≡ true
  pub writes : os.append ≡ synced

-- The store is open and was never poisoned.
pub record IsServing (s : Store) : Type 0 where
  pub opened : s.is_open ≡ true
  pub clean : s.poison ≡ none

unchanged :
    (os : System) (n : ℕ) (journal : List ℕ) (s : Store)
    → IsWorking os
    → length journal ≡ s.offset
    → verify_current os n journal s ≡ none
unfolding verify_current
unchanged os n journal s w h =
    rw
      (
        w.stays n,
        le→ltb (length journal) s.offset (omega (arith, h)),
        (==_iff (length journal) s.offset).1 h,
      )
      refl

length-log : (log : List Entry) → length (journal_of log []) ≡ 15 + length (encode_log log)
length-log log = omega (arith, ap length (append-nil (encode_log log)))

serving : (s : Store) → IsServing s → ready s ≡ none
unfolding ready
serving s c = rw (c.clean, c.opened) refl

paths_good :
    (os : System) (journal : List ℕ) (s : Store)
    → IsWorking os
    → s.offset ≤ length journal
    → (if not os.lock_ok then some os_failed else verify_paths os journal s) ≡ none
unfolding verify_paths
paths_good os journal s w h = rw (w.locks, w.paths, le→ltb (length journal) s.offset h) refl

check_good :
    (os : System) (journal : List ℕ) (s : Store)
    → verify_current os 0 journal s ≡ none
    → check os 0 journal (s, none) ≡ (s, none)
unfolding check or_poison
check_good os journal s h = rw h refl

known_before : (log : List Entry) (s : Store) → Tracks log s → s.offset ≤ length (journal_of log [])
known_before log s t = omega (
  arith,
  t.at_known,
  length-log log,
  ap (λ l. length (encode_log l)) t.split,
  ap length (encode_log-append t.known t.later),
  length-append (encode_log t.known) (encode_log t.later),
)

begin_working :
    (os : System) (log : List Entry) (s : Store)
    → IsWorking os
    → IsServing s
    → All IsWritten log
    → Tracks log s
    → begin os (journal_of log []) s ≡ (caught_up log s, none)
begin_working os log s w c written t =
    is_ready log [] s os (serving s c)
      (paths_good os (journal_of log []) s w (known_before log s t))
    ∙ ap (check os 0 (journal_of log []))
        (refreshed-good (journal_of log []) s (caught_up log s) (refresh_log log s written t))
    ∙ check_good os (journal_of log []) (caught_up log s)
        (unchanged os 0 (journal_of log []) (caught_up log s) w (length-log log))

mutate_step :
    {A : Type 0} (os : System) (operation : Operation) (key fp : List ℕ) (effect : Seen → Seen)
    (value : A) (journal : List ℕ) (s : Store)
    → verify_current os 1 journal s ≡ none
    → mutate os operation key fp effect value journal s
      ≡ settle os effect value (append_record os.append (encode_record operation key fp) s journal)
unfolding mutate
mutate_step os operation key fp effect value journal s h = rw (h, mutate) refl

settle_step :
    {A : Type 0} (os : System) (effect : Seen → Seen) (value : A) (s : Store) (journal : List ℕ)
    → verify_current os 2 journal s ≡ none
    → settle os effect value (s, journal, none)
      ≡ (record s { seen = effect s.seen }, journal, ok value)
unfolding settle
settle_step os effect value s journal h = rw (h, settle) refl

module _ {A : Type 0} (os : System) (log : List Entry) (e : Entry) (effect : Seen → Seen)
    (value : A) (s : Store) (w : IsWorking os)
    (same : effect (perform_log log []) ≡ perform_entry e (perform_log log [])) where
  abbrev appended : Store
  appended = record (caught_up log s) { offset = 15 + length (encode_log log) + length (encode e) }

  size :
      15 + length (encode_log log) + length (encode e) ≡ 15 + length (encode_log (one_more log e))
  unfolding encode_log
  size = omega (
    arith,
    ap length (encode_log-append log (e ∷ [])),
    length-append (encode_log log) (encode e ++ []),
    length-append (encode e) [],
  )

  holds : effect (perform_log log []) ≡ perform_log (one_more log e) []
  unfolding perform_log
  holds = same ∙ sym (perform_log-append log (e ∷ []) [])

  synced_append :
      append_record os.append (encode e) (caught_up log s) (journal_of log [])
      ≡ (appended, journal_of log [] ++ encode e, none)
  unfolding append_record
  synced_append =
      ap (λ a. append_record a (encode e) (caught_up log s) (journal_of log [])) w.writes

  -- A mutation is appended, and the store holds what it leaves.
  mutate_working :
      mutate os e.operation e.key e.fingerprint effect value (journal_of log []) (caught_up log s)
      ≡ (caught_up (one_more log e) s, journal_of (one_more log e) [], ok value)
  mutate_working =
      mutate_step os e.operation e.key e.fingerprint effect value (journal_of log [])
        (caught_up log s) (unchanged os 1 (journal_of log []) (caught_up log s) w (length-log log))
      ∙ ap (settle os effect value) synced_append
      ∙ settle_step os effect value appended (journal_of log [] ++ encode e) (
          unchanged os 2 (journal_of log [] ++ encode e) appended w (
            length-append (journal_of log []) (encode e)
            ∙ ap (λ n. n + length (encode e)) (length-log log)))
      ∙ λ i. (record s { offset = size i; seen = holds i }, journal-more log e i, ok value)

answer_working :
    {A : Type 0} (os : System) (log : List Entry) (r : Result SpentError A) (s : Store)
    → IsWorking os
    → answer os r (journal_of log []) (caught_up log s) ≡ (caught_up log s, journal_of log [], r)
unfolding answer
answer_working os log r s w =
    rw (unchanged os 1 (journal_of log []) (caught_up log s) w (length-log log), answer) refl

-- What the redemption of a token is to leave: of a map in memory, and of the log that is its
-- journal.
unfoldable pub spend_on_log :
    List ℕ → List ℕ → List Entry → List Entry × Result SpentError (Unit {0})
spend_on_log key fp log = elim (lookup fp (perform_log log [])) [
  | some id ↦ (log, err already_spent)
  | none ↦ (one_more log (spent_entry key fp), ok tt)
]

pub refund_on_log : List ℕ → List ℕ → List Entry → List Entry × Result SpentError (Unit {0})
refund_on_log key fp log = elim (lookup fp (perform_log log [])) [
  | none ↦ (log, ok tt)
  | some id ↦ (one_more log (refund_entry key fp), ok tt)
]

pub retire_on_log : List ℕ → List Entry → List Entry × Result SpentError ℕ
retire_on_log key log =
    let n = count_key key (perform_log log []) in
    if n == 0 then (log, ok 0) else (one_more log (retired_entry key), ok n)

-- The store and the journal of a log, with an answer.
abbrev pub of_log :
    {A : Type 0} → Store → List Entry × Result SpentError A → Store × List ℕ × Result SpentError A
of_log s (log, r) = (caught_up log s, journal_of log [], r)

module _ (os : System) (log : List Entry) (s : Store) (w : IsWorking os) (c : IsServing s)
    (written : All IsWritten log) (t : Tracks log s) where
  -- In a working system, an open store that was never poisoned and has read any first part of the
  -- journal redeems a token exactly where the log leaves it unspent, appends exactly its record
  -- then and nothing otherwise, and ends with the whole log read.
  pub spend_refines :
      (key fp : List ℕ)
      → spend_identified os key fp (journal_of log []) s ≡ of_log s (spend_on_log key fp log)
  unfolding spend_identified decide_spend spend_on_log perform
  spend_refines key fp =
      rw (begin_working os log s w c written t)
        (elim (Option-cases (lookup fp (perform_log log []))) [
          | inr (id, l) ↦
              rw (l, decide_spend, spend_on_log) (answer_working os log (err already_spent) s w)
          | inl l ↦
              rw (l, decide_spend, spend_on_log)
                (mutate_working os log (spent_entry key fp) (insert fp key) tt s w refl)
        ])

  -- So a refund gives back exactly a token that the log leaves spent.
  pub refund_refines :
      (key fp : List ℕ)
      → refund_identified os key fp (journal_of log []) s ≡ of_log s (refund_on_log key fp log)
  unfolding refund_identified decide_refund refund_on_log perform
  refund_refines key fp =
      rw (begin_working os log s w c written t)
        (elim (Option-cases (lookup fp (perform_log log []))) [
          | inl l ↦ rw (l, decide_refund, refund_on_log) (answer_working os log (ok tt) s w)
          | inr (id, l) ↦
              rw (l, decide_refund, refund_on_log)
                (mutate_working os log (refund_entry key fp) (delete fp) tt s w refl)
        ])

  -- And a retirement forgets exactly the redemptions under its key, and answers their number.
  pub retire_refines :
      (key : List ℕ)
      → IsEntry retired key zero_fingerprint
      → retire_key os key (journal_of log []) s ≡ of_log s (retire_on_log key log)
  unfolding retire_key decide_retire retire_on_log perform
  retire_refines key k =
      rw (key_ok k, begin_working os log s w c written t)
        (elim (Bool-cases (count_key key (perform_log log []) == 0)) [
          | inl l ↦ rw (l, decide_retire, retire_on_log) (answer_working os log (ok 0) s w)
          | inr l ↦
              rw (l, decide_retire, retire_on_log)
                (mutate_working os log (retired_entry key) (retire key)
                  (count_key key (perform_log log [])) s w refl)
        ])
