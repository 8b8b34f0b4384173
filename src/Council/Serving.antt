-- ===== src/Council/Serving.antt =====
-- cmd/council/serving_state.go: the state file in which a mirror remembers the newest consensus
-- that it installed. Times are in whole seconds; JSON and the time format are a ServingCodec.
use osanwe.Prelude.{
  ℕ, true, false, Bool, ◌&&◌, not, ltb, ◌==◌, if◌then◌else◌, List, [], ◌∷◌, ◌++◌, length, Option,
  none, some,
}
use osanwe.Prelude.Go.{ℤ, pos, Result, ok, err}
use osanwe.Mint.Seen.{bytes_eq}
use osanwe.Council.Signing.{
  Proposal, Disk, Write, written, failed_before, failed_after, is_current, is_digest,
}
pub mod Monotone
pub mod Sequence
pub mod Tests

pub data ServingError : Type 0 where
  empty_path incomplete lock_exists os_failed unreadable too_large unparsable : ServingError
  wrong_version invalid_digest not_canonical invalid_epoch rollback conflicting_body : ServingError

-- servingState
pub record ServingState : Type 0 where
  pub version : ℤ
  pub valid_after : List ℕ
  pub body_sha256 : List ℕ

-- json.MarshalIndent, the strict decoder, and time.RFC3339 in UTC.
pub record ServingCodec : Type 0 where
  pub marshal : ServingState → List ℕ
  pub decode : List ℕ → Option ServingState
  pub format : ℕ → List ℕ
  pub parse : List ℕ → Option ℕ

pub check_serving : ServingCodec → List ℕ → ServingState → Result ServingError (Option ServingState)
check_serving c bytes s =
    if not (is_current s.version)
    then err wrong_version
    else if not (is_digest s.body_sha256)
    then err invalid_digest
    else if not (bytes_eq bytes (c.marshal s ++ 10 ∷ []))
    then err not_canonical
    else ok (some s)

-- readServingState
pub read_serving_state :
    ServingCodec → Bool → Option (List ℕ) → Result ServingError (Option ServingState)
read_serving_state c readable none = ok none
read_serving_state c readable (some bytes) =
    if not readable
    then err unreadable
    else if ltb 4096 (length bytes)
    then err too_large
    else elim (c.decode bytes) [ none ↦ err unparsable | some s ↦ check_serving c bytes s ]

abbrev pub serving_of : ServingCodec → ℕ → List ℕ → ServingState
serving_of c epoch body = record {
  version = pos 1;
  valid_after = c.format epoch;
  body_sha256 = body;
}

abbrev pub serving_bytes : ServingCodec → ℕ → List ℕ → List ℕ
serving_bytes c epoch body = c.marshal (serving_of c epoch body) ++ 10 ∷ []

-- Whether to write: the switch of recordServedConsensus.
pub is_newer : ℕ → List ℕ → ℕ → List ℕ → Result ServingError Bool
is_newer epoch body previous previous_body =
    if ltb epoch previous
    then err rollback
    else if previous == epoch && not (bytes_eq previous_body body)
    then err conflicting_body
    else ok (not (previous == epoch))

pub newer_than : ServingCodec → ℕ → List ℕ → ServingState → Result ServingError Bool
newer_than c epoch body s = elim (c.parse s.valid_after) [
  | none ↦ err invalid_epoch
  | some previous ↦
      if not (bytes_eq (c.format previous) s.valid_after)
      then err invalid_epoch
      else is_newer epoch body previous s.body_sha256
]

pub judge :
    ServingCodec → ℕ → List ℕ → Result ServingError (Option ServingState) → Result ServingError Bool
judge c epoch body (err e) = err e
judge c epoch body (ok none) = ok true
judge c epoch body (ok (some s)) = newer_than c epoch body s

-- writeAtomic of the new state, where one is written.
pub write_serving :
    ServingCodec
    → ℕ
    → List ℕ
    → Write
    → Option (List ℕ)
    → Result ServingError Bool
    → Option (List ℕ) × Result ServingError (Unit {0})
write_serving c epoch body w file (err e) = (file, err e)
write_serving c epoch body w file (ok false) = (file, ok tt)
write_serving c epoch body written file (ok true) = (some (serving_bytes c epoch body), ok tt)
write_serving c epoch body failed_before file (ok true) = (file, err os_failed)
write_serving c epoch body failed_after file (ok true) =
    (some (serving_bytes c epoch body), err os_failed)

-- recordServedConsensus, for a path that is not empty. It takes the lock at its beginning and
-- removes it at its end.
pub record_served_consensus :
    ServingCodec
    → Bool
    → Bool
    → Write
    → Proposal
    → Disk
    → Option (List ℕ) × Result ServingError (Unit {0})
record_served_consensus c makes readable w p d = elim p.valid_after_of [
  | none ↦ (d.file, err incomplete)
  | some epoch ↦
      if not p.has_raw
      then (d.file, err incomplete)
      else if d.locked
      then (d.file, err lock_exists)
      else if not makes
      then (d.file, err os_failed)
      else write_serving c epoch p.body_id_of w d.file
          (judge c epoch p.body_id_of (read_serving_state c readable d.file))
]
