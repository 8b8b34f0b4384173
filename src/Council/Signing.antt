-- ===== src/Council/Signing.antt =====
-- cmd/council/signing_state.go: the lock directory and the state file that keep an authority from
-- signing two bodies for one epoch. Times are in whole seconds, as the epochs of the workflow are.
-- The JSON encoding and the time format are a Codec.
use osanwe.Prelude.{
  ℕ, Bool, true, false, ◌&&◌, ◌||◌, not, ltb, leb, ◌==◌, if◌then◌else◌, List, [], ◌∷◌, ◌++◌, length,
  all, Option, none, some,
}
use osanwe.Prelude.Go.{ℤ, pos, negsuc, Result, ok, err}
use osanwe.Mint.Seen.{bytes_eq}
pub mod Votes
pub mod History
pub mod Compare
pub mod Tests

pub data SigningError : Type 0 where
  empty_path no_identity incomplete_proposal lock_exists os_failed : SigningError
  unreadable too_large unparsable wrong_version no_authority invalid_digest : SigningError
  not_canonical other_authority invalid_epoch rollback conflicting_body not_active : SigningError

-- signingState
pub record SigningState : Type 0 where
  pub version : ℤ
  pub authority : List ℕ
  pub valid_after : List ℕ
  pub body_sha256 : List ℕ

-- json.MarshalIndent, the strict decoder, and time.RFC3339 in UTC.
pub record Codec : Type 0 where
  pub marshal : SigningState → List ℕ
  pub decode : List ℕ → Option SigningState
  pub format : ℕ → List ℕ
  pub parse : List ℕ → Option ℕ

-- What is used of the proposal: its epoch, where it has one, whether it has bytes, and their
-- ConsensusBodyID.
pub record Proposal : Type 0 where
  pub valid_after_of : Option ℕ
  pub has_raw : Bool
  pub body_id_of : List ℕ

-- consensusSigningGuard
pub record Guard : Type 0 where
  pub voter : List ℕ
  pub epoch : ℕ
  pub body_id : List ℕ
  pub advance : Bool
  pub closed : Bool

-- The lock directory and the state file.
pub record Disk : Type 0 where
  pub locked : Bool
  pub file : Option (List ℕ)

pub is_current : ℤ → Bool
is_current (pos n) = n == 1
is_current (negsuc n) = false

is_hex_digit : ℕ → Bool
is_hex_digit c = (leb 48 c && leb c 57) || (leb 97 c && leb c 102)

-- What hex.DecodeString and hex.EncodeToString leave of 32 bytes.
pub is_digest : List ℕ → Bool
unfolding is_hex_digit
is_digest s = length s == 64 && all is_hex_digit s

-- The end of readSigningState, on a decoded document.
pub check_state : Codec → List ℕ → SigningState → Result SigningError (Option SigningState)
unfolding is_current
check_state c bytes s =
    if not (is_current s.version)
    then err wrong_version
    else if length s.authority == 0
    then err no_authority
    else if not (is_digest s.body_sha256)
    then err invalid_digest
    else if not (bytes_eq bytes (c.marshal s ++ 10 ∷ []))
    then err not_canonical
    else ok (some s)

-- readSigningState
pub read_signing_state : Codec → Bool → Option (List ℕ) → Result SigningError (Option SigningState)
read_signing_state c readable none = ok none
read_signing_state c readable (some bytes) =
    if not readable
    then err unreadable
    else if ltb 4096 (length bytes)
    then err too_large
    else elim (c.decode bytes) [ none ↦ err unparsable | some s ↦ check_state c bytes s ]

-- The switch of beginConsensusSigning.
pub compare_epochs : Guard → ℕ → List ℕ → Result SigningError Guard
compare_epochs g previous body =
    if ltb g.epoch previous
    then err rollback
    else if previous == g.epoch && not (bytes_eq body g.body_id)
    then err conflicting_body
    else if previous == g.epoch
    then ok (record g { advance = false })
    else ok g

pub against_state : Codec → Guard → SigningState → Result SigningError Guard
against_state c g s =
    if not (bytes_eq s.authority g.voter)
    then err other_authority
    else elim (c.parse s.valid_after) [
      | none ↦ err invalid_epoch
      | some previous ↦
          if not (bytes_eq (c.format previous) s.valid_after)
          then err invalid_epoch
          else compare_epochs g previous s.body_sha256
    ]

pub against : Codec → Guard → Result SigningError (Option SigningState) → Result SigningError Guard
against c g (err e) = err e
against c g (ok none) = ok g
against c g (ok (some s)) = against_state c g s

-- A guard that is not handed out is closed, which removes the lock.
pub hand_out : Disk → Result SigningError Guard → Disk × Result SigningError Guard
hand_out d (err e) = (record d { locked = false }, err e)
hand_out d (ok g) = (record d { locked = true }, ok g)

abbrev pub guard_of : List ℕ → ℕ → List ℕ → Guard
guard_of voter epoch body = record {
  voter = voter;
  epoch = epoch;
  body_id = body;
  advance = true;
  closed = false;
}

-- beginConsensusSigning, for a path that is not empty; `makes` is whether mkdir can.
pub begin_consensus_signing :
    Codec → Bool → Bool → List ℕ → Proposal → Disk → Disk × Result SigningError Guard
begin_consensus_signing c makes readable voter p d = elim p.valid_after_of [
  | none ↦ (d, err (if length voter == 0 then no_identity else incomplete_proposal))
  | some epoch ↦
      if length voter == 0
      then (d, err no_identity)
      else if not p.has_raw
      then (d, err incomplete_proposal)
      else if d.locked
      then (d, err lock_exists)
      else if not makes
      then (d, err os_failed)
      else hand_out d
          (against c (guard_of voter epoch p.body_id_of) (read_signing_state c readable d.file))
]

-- How writeAtomic ends: its last step, the sync of the directory, follows the rename.
pub data Write : Type 0 where
  written failed_before failed_after : Write

abbrev pub state_of : Codec → Guard → SigningState
state_of c g = record {
  version = pos 1;
  authority = g.voter;
  valid_after = c.format g.epoch;
  body_sha256 = g.body_id;
}

abbrev pub bytes_of : Codec → Guard → List ℕ
bytes_of c g = c.marshal (state_of c g) ++ 10 ∷ []

-- (*consensusSigningGuard).Commit
pub commit : Codec → Write → Guard → Disk → Disk × Guard × Result SigningError (Unit {0})
commit c w g d =
    if g.closed then (d, g, err not_active) else if not g.advance then (d, g, ok tt) else elim w [
      | written ↦ (record d { file = some (bytes_of c g) }, record g { advance = false }, ok tt)
      | failed_before ↦ (d, g, err os_failed)
      | failed_after ↦ (record d { file = some (bytes_of c g) }, g, err os_failed)
    ]

-- (*consensusSigningGuard).Close
pub close : Guard → Disk → Disk × Guard
close g d = if g.closed then (d, g) else (record d { locked = false }, record g { closed = true })
