-- ===== src/Mint/SpentFile.antt =====
-- internal/mint/spentfile.go: FileSpentSet, one process's view of the shared journal. An operation
-- takes the store and the journal's bytes, runs under the exclusive lock of the companion file, and
-- returns both. What the operating system answers (the lock, the checks of the two pathnames and
-- of the pinned identity, each write) is an input; the sizes are those of the bytes.
use osanwe.Prelude.{
  ℕ, ◌+◌, ◌%◌, Bool, true, false, ◌||◌, not, ltb, ◌==◌, if◌then◌else◌, List, [], ◌∷◌, ◌++◌, length,
  take, drop, Option, none, some,
}
use osanwe.Prelude.Bytes.{put_be}
use osanwe.Prelude.Go.{Result, ok, err, ◌>>=◌}
use osanwe.Mint.Seen.{Seen, bytes_eq, lookup, insert, delete, retire, count_key}
use osanwe.Mint.Journal.{
  JournalError, truncated_header, corrupt_header, Operation, spent, refund, retired, encode_record,
  file_header, read_full, replay, max_token_bytes, zero_fingerprint,
}
use osanwe.Mint.Token.{Token}
pub mod Tracking
pub mod Begin
pub mod Outcomes
pub mod Operations
pub mod Opening
pub mod Processes
pub mod Once
pub mod Working
pub mod Tests

pub data SpentError : Type 0 where
  nil_token invalid_token invalid_key already_spent closed unavailable : SpentError
  os_failed shrunk changed append_failed lost_journal empty_journal : SpentError
  bad_journal : JournalError → SpentError

pub record Store : Type 0 where
  pub is_open : Bool
  pub offset : ℕ
  pub seen : Seen
  pub poison : Option SpentError

-- How the write and the fsync of an append end: all was written and synced, or some bytes were
-- written before a failure.
pub data Append : Type 0 where
  synced : Append
  failed_after : ℕ → Append

-- `still_ok n` is what the system answers to the n-th verifyCurrentStateLocked of the call.
pub record System : Type 0 where
  pub lock_ok : Bool
  pub paths_ok : Bool
  pub still_ok : ℕ → Bool
  pub append : Append

-- readyLocked
pub ready : Store → Option SpentError
ready s = elim s.poison [
  | some e ↦ some unavailable
  | none ↦ if s.is_open then none else some closed
]

-- poisonLocked: the first failure stays.
pub poisoned : SpentError → Store → Store
poisoned e s = record s { poison = elim s.poison [ none ↦ some e | some first ↦ some first ] }

-- verifyPathsLocked
pub verify_paths : System → List ℕ → Store → Option SpentError
verify_paths os journal s =
    if not os.paths_ok
    then some os_failed
    else if ltb (length journal) s.offset
    then some shrunk
    else none

-- verifyCurrentStateLocked
pub verify_current : System → ℕ → List ℕ → Store → Option SpentError
verify_current os n journal s =
    if not (os.still_ok n)
    then some os_failed
    else if ltb (length journal) s.offset
    then some shrunk
    else if not (length journal == s.offset)
    then some changed
    else none

-- What refreshLocked makes of the loop's answer; the offset moves only where all was read.
pub read_to : List ℕ → Store → Seen × Option JournalError → Store × Option SpentError
read_to journal s (seen, some e) = (record s { seen = seen }, some (bad_journal e))
read_to journal s (seen, none) = (record s { seen = seen; offset = length journal }, none)

-- The header, where nothing has been read yet.
pub read_header : List ℕ → Result JournalError (List ℕ)
read_header bytes = do
  (header, rest) ← read_full 15 bytes truncated_header
  if bytes_eq header file_header then ok rest else err corrupt_header

-- The bytes behind what is known.
pub unread : List ℕ → Store → Result JournalError (List ℕ)
unread journal s = if s.offset == 0 then read_header journal else ok (drop s.offset journal)

-- refreshLocked
pub refresh : List ℕ → Store → Store × Option SpentError
unfolding read_to
refresh journal s =
    if ltb (length journal) s.offset
    then (s, some shrunk)
    else if length journal == s.offset
    then (s, none)
    else elim (unread journal s) [
      | err e ↦ (s, some (bad_journal e))
      | ok bytes ↦ read_to journal s (replay (length bytes) bytes s.seen)
    ]

-- The store before anything was read.
abbrev pub fresh : Store
fresh = record { is_open = true; offset = 0; seen = []; poison = none }

-- The end of OpenFileSpentSet: the journal was read, the identity is pinned or compared, and the
-- file has not changed.
pub open_checked : System → List ℕ → Store × Option SpentError → Result SpentError Store
open_checked os journal (s, some e) = err e
open_checked os journal (s, none) =
    if not os.paths_ok
    then err os_failed
    else elim (verify_current os 0 journal s) [ some e ↦ err e | none ↦ ok s ]

-- OpenFileSpentSet. `pinned` says that the lock file is not empty; there may be no journal yet.
pub open_store : System → Bool → Option (List ℕ) → Option (List ℕ) × Result SpentError Store
open_store os pinned none =
    if not os.lock_ok
    then (none, err os_failed)
    else if pinned
    then (none, err lost_journal)
    else elim os.append [
      | synced ↦ (some file_header, open_checked os file_header (refresh file_header fresh))
      | failed_after n ↦ (some (take n file_header), err append_failed)
    ]
open_store os pinned (some journal) =
    if not os.lock_ok
    then (some journal, err os_failed)
    else if length journal == 0
    then (some journal, err empty_journal)
    else (some journal, open_checked os journal (refresh journal fresh))

-- `if err := … ; err != nil { return s.poisonLocked(err) }`
pub or_poison : Store → Option SpentError → Store × Option SpentError
or_poison s none = (s, none)
or_poison s (some e) = (poisoned e s, some e)

pub check : System → ℕ → List ℕ → Store × Option SpentError → Store × Option SpentError
check os n journal (s, some e) = (s, some e)
check os n journal (s, none) = or_poison s (verify_current os n journal s)

pub refreshed : List ℕ → Store × Option SpentError → Store × Option SpentError
refreshed journal (s, some e) = (s, some e)
refreshed journal (s, none) = let (s', e) = refresh journal s in or_poison s' e

-- What Spend, Refund and Retire begin with: the store is ready, the lock is held, the pathnames
-- and the identity hold, everything appended by others is read, and the file has not changed.
pub begin : System → List ℕ → Store → Store × Option SpentError
begin os journal s = elim (ready s) [
  | some e ↦ (s, some e)
  | none ↦ check os 0 journal (
      refreshed journal
        (or_poison s (if not os.lock_ok then some os_failed else verify_paths os journal s)))
]

-- appendRecordLocked, by what becomes of the write.
append_record : Append → List ℕ → Store → List ℕ → Store × List ℕ × Option SpentError
append_record synced written s journal =
    (record s { offset = s.offset + length written }, journal ++ written, none)
append_record (failed_after n) written s journal =
    (poisoned append_failed s, journal ++ take n written, some append_failed)

-- The last check of a mutation, and then its effect on the map.
pub settle :
    {A : Type 0}
    → System
    → (Seen → Seen)
    → A
    → Store × List ℕ × Option SpentError
    → Store × List ℕ × Result SpentError A
settle os effect value (s, journal, some e) = (s, journal, err e)
settle os effect value (s, journal, none) = elim (verify_current os 2 journal s) [
  | some e ↦ (poisoned e s, journal, err e)
  | none ↦ (record s { seen = effect s.seen }, journal, ok value)
]

-- A mutation once it is decided: check, append, check, and the effect.
pub mutate :
    {A : Type 0}
    → System
    → Operation
    → List ℕ
    → List ℕ
    → (Seen → Seen)
    → A
    → List ℕ
    → Store
    → Store × List ℕ × Result SpentError A
mutate os operation key fingerprint effect value journal s = elim (verify_current os 1 journal s) [
  | some e ↦ (poisoned e s, journal, err e)
  | none ↦
      settle os effect value
        (append_record os.append (encode_record operation key fingerprint) s journal)
]

-- An answer that changes nothing, after one more check.
pub answer :
    {A : Type 0}
    → System
    → Result SpentError A
    → List ℕ
    → Store
    → Store × List ℕ × Result SpentError A
answer os result journal s = elim (verify_current os 1 journal s) [
  | some e ↦ (poisoned e s, journal, err e)
  | none ↦ (s, journal, result)
]

decide_spend :
    System
    → List ℕ
    → List ℕ
    → List ℕ
    → Store × Option SpentError
    → Store × List ℕ × Result SpentError (Unit {0})
decide_spend os key fingerprint journal (s, some e) = (s, journal, err e)
decide_spend os key fingerprint journal (s, none) = elim (lookup fingerprint s.seen) [
  | some id ↦ answer os (err already_spent) journal s
  | none ↦ mutate os spent key fingerprint (insert fingerprint key) tt journal s
]

decide_refund :
    System
    → List ℕ
    → List ℕ
    → List ℕ
    → Store × Option SpentError
    → Store × List ℕ × Result SpentError (Unit {0})
decide_refund os key fingerprint journal (s, some e) = (s, journal, err e)
decide_refund os key fingerprint journal (s, none) = elim (lookup fingerprint s.seen) [
  | none ↦ answer os (ok tt) journal s
  | some id ↦ mutate os refund key fingerprint (delete fingerprint) tt journal s
]

decide_retire :
    System → List ℕ → List ℕ → Store × Option SpentError → Store × List ℕ × Result SpentError ℕ
decide_retire os key journal (s, some e) = (s, journal, err e)
decide_retire os key journal (s, none) =
    let n = count_key key s.seen in
    if n == 0
    then answer os (ok 0) journal s
    else mutate os retired key zero_fingerprint (retire key) n journal s

-- (*FileSpentSet).Spend, Refund and Retire of an identified token or key.
pub spend_identified :
    System → List ℕ → List ℕ → List ℕ → Store → Store × List ℕ × Result SpentError (Unit {0})
spend_identified os key fingerprint journal s =
    decide_spend os key fingerprint journal (begin os journal s)

pub refund_identified :
    System → List ℕ → List ℕ → List ℕ → Store → Store × List ℕ × Result SpentError (Unit {0})
refund_identified os key fingerprint journal s =
    decide_refund os key fingerprint journal (begin os journal s)

pub retire_key : System → List ℕ → List ℕ → Store → Store × List ℕ × Result SpentError ℕ
retire_key os key journal s =
    if length key == 0 || ltb max_token_bytes (length key)
    then (s, journal, err invalid_key)
    else decide_retire os key journal (begin os journal s)

-- (*FileSpentSet).Close: both files are let go of, whatever errors closing them returns.
unfoldable pub close_store : Store → Store
close_store s = record s { is_open = false }

-- The fingerprint is SHA-256, which is not modelled, of the length-prefixed identity.
module _ (sha256 : List ℕ → List ℕ) where
  -- spentIdentity
  pub spent_identity : Option Token → Result SpentError (List ℕ × List ℕ)
  spent_identity none = err nil_token
  spent_identity (some t) =
      if length t.key_id == 0
        || (ltb max_token_bytes (length t.key_id)
            || (length t.nonce == 0 || ltb max_token_bytes (length t.nonce)))
      then err invalid_token
      else ok (t.key_id, sha256 (put_be 4 (length t.key_id % 4294967296) ++ (t.key_id ++ t.nonce)))

  pub spend : System → Option Token → List ℕ → Store → Store × List ℕ × Result SpentError (Unit {0})
  spend os token journal s = elim (spent_identity token) [
    | err e ↦ (s, journal, err e)
    | ok (key, fingerprint) ↦ spend_identified os key fingerprint journal s
  ]

  pub refund_token :
      System → Option Token → List ℕ → Store → Store × List ℕ × Result SpentError (Unit {0})
  refund_token os token journal s = elim (spent_identity token) [
    | err e ↦ (s, journal, err e)
    | ok (key, fingerprint) ↦ refund_identified os key fingerprint journal s
  ]
