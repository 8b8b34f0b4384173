-- ===== src/Mint/SpentFile/Opening.antt =====
-- internal/mint/spentfile.go: OpenFileSpentSet over the journal of a log, as a process that starts
-- later or again finds it.
use osanwe.Prelude.{
  ℕ, ◌≡◌, refl, ◌∙◌, inl, inr, Bool, Bool-cases, not, le→ltb, ne→eqb, List, [], ◌++◌, length,
  length-append, Option, none, some, Option-cases, arith, All,
}
use osanwe.Prelude.Go.{ok, err}
use osanwe.Mint.Seen.{Seen, bytes_eq_refl}
use osanwe.Mint.Journal.{JournalError, file_header, replay, truncated_header}
use osanwe.Mint.Journal.Records.{read_full-append}
use osanwe.Mint.Journal.Replay.{Entry, IsWritten, encode_log, perform_log}
use osanwe.Mint.Journal.Torn.{torn_log}
use osanwe.Mint.SpentFile.{
  SpentError, bad_journal, Store, System, fresh, verify_current, refresh, read_to, read_header,
  unread, open_checked, open_store,
}
use osanwe.Mint.SpentFile.Tracking.{
  IsTail, journal_of, Tracks, caught_up, read_to-all, read_to-error, replay_later,
}
use osanwe.Mint.SpentFile.Outcomes.{caught_up-Tracks}

read_header-file_header : (rest : List ℕ) → read_header (file_header ++ rest) ≡ ok rest
unfolding read_header
read_header-file_header rest =
    rw (read_full-append 15 file_header rest truncated_header refl, bytes_eq_refl file_header) refl

module _ (log : List Entry) (cut : List ℕ) where
  refresh-fresh :
      refresh (journal_of log cut) fresh
      ≡ read_to
          (journal_of log cut)
          fresh
          (replay (length (encode_log log ++ cut)) (encode_log log ++ cut) [])
  unfolding refresh unread
  refresh-fresh =
      rw
        (
          le→ltb (length (journal_of log cut)) 0 (omega arith),
          ne→eqb (length (journal_of log cut)) 0 (omega arith),
          read_header-file_header (encode_log log ++ cut),
          read_to,
        )
        refl

-- One bad read fails the opening.
open_checked-bad :
    (os : System) (journal : List ℕ) (p : Store × Option SpentError) {e : SpentError}
    → p.1 ≡ some e
    → open_checked os journal p ≡ err e
unfolding open_checked
open_checked-bad os journal (s, none) h = cc
open_checked-bad os journal (s, some e) h = cc

open_checked-store :
    (os : System) (journal : List ℕ) (s : Store) {t : Store}
    → open_checked os journal (s, none) ≡ ok t
    → t ≡ s
unfolding open_checked
open_checked-store os journal s h = elim (Bool-cases (not os.paths_ok)) [
  | inl p ↦ absurd (ground arith)
  | inr p ↦ elim (Option-cases (verify_current os 0 journal s)) [
    | inr (e, v) ↦ absurd (ground arith)
    | inl v ↦ ground arith
  ]
]

log_read :
    (log : List Entry)
    → All IsWritten log
    → refresh (journal_of log []) fresh ≡ (caught_up log fresh, none)
unfolding perform_log
log_read log w =
    refresh-fresh log []
    ∙ read_to-all (journal_of log []) log fresh (replay_later [] log fresh w refl)
        (omega (arith, length-append (encode_log log) []))

-- A process that opens the journal of a log reads all of it; one that ends inside a record is not
-- opened.
pub open_store-Tracks :
    (os : System) (pinned : Bool) (log : List Entry) (cut : List ℕ) {s : Store}
    → All IsWritten log
    → IsTail cut
    → (open_store os pinned (some (journal_of log cut))).1 ≡ ok s
    → Tracks log s
unfolding open_store
open_store-Tracks os pinned log cut {s} w tail h = elim (Bool-cases (not os.lock_ok)) [
  | inl l ↦ absurd (ground arith)
  | inr l ↦ elim tail [
    | inl whole ↦
        let q : open_checked os (journal_of log []) (caught_up log fresh, none) ≡ ok s =
          rw (whole, l, ne→eqb (length (journal_of log [])) 0 (omega arith), log_read log w) at h in
        rw (open_checked-store os (journal_of log []) (caught_up log fresh) q)
          (caught_up-Tracks log fresh)
    | inr torn ↦
        let result : Seen × Option JournalError =
          replay (length (encode_log log ++ cut)) (encode_log log ++ cut) [] in
        let (e, r) =
          torn_log (length (encode_log log ++ cut)) log torn.entry cut torn.lost [] w torn.written
            torn.whole torn.some_left torn.missing in
        let q : err (bad_journal e) ≡ ok s =
          rw
            (
              l,
              ne→eqb (length (journal_of log cut)) 0 (omega arith),
              refresh-fresh log cut,
              open_checked-bad os (journal_of log cut) (read_to (journal_of log cut) fresh result)
                  (read_to-error (journal_of log cut) fresh result r),
            )
            at h in
        cc
  ]
]
