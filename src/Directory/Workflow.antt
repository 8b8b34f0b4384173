-- ===== src/Directory/Workflow.antt =====
-- internal/directory/workflow.go: how authorities build, co-sign and merge a consensus. A duration is a
-- number of nanoseconds. The text of an error, with the difference of relay sets, is left out.
pub mod Agreement
pub mod Merge
mod Tests
use osanwe.Prelude.{
  ℕ, ◌+◌, ◌-◌, ◌%◌, Bool, true, false, not, ◌&&◌, ◌||◌, Option, none, some, List, [], ◌∷◌, length,
  leb, ltb, ◌==◌, if◌then◌else◌,
}
use osanwe.Prelude.Go.{Result, ok, err, ◌>>=◌}
use osanwe.Prelude.Table.{find, has, put}
use osanwe.Prelude.Text.{bytes_eq}
use osanwe.Directory.{
  DirectoryError, no_threshold, too_few_authorities, too_few_signatures, not_canonical_key,
  no_identity, bad_epoch, bad_lifetime, wrong_epoch, wrong_lifetime, key_mismatch, not_authority,
  unconfigured_signer, already_signed, other_body, no_parts, conflicting_body,
  conflicting_signatures, Libraries, check, encode_key, decode_key,
}
use osanwe.Directory.Descriptor.{Descriptor, Identity}
use osanwe.Directory.Consensus.{
  Consensus, validate_consensus, consensus_body, sign_consensus, encode_consensus,
}
use osanwe.Directory.Consensus.Parse.{Signatures, split_consensus_signatures, parse_consensus}

pub record EpochSettings : Type 0 where
  pub epoch : ℕ
  pub lifetime : ℕ

-- An authority's keys, and the base64 text of its signature over a message.
pub record Signer : Type 0 where
  pub public : List ℕ
  pub private : List ℕ
  pub sign : List ℕ → List ℕ

-- (*Identity).Fingerprint and Sign
abbrev pub identity_of : Libraries → Signer → Identity
identity_of lib s = record { fingerprint = encode_key lib s.public; sign = s.sign }

abbrev pub one_second : ℕ
one_second = 1000000000

-- validateEpochSettings
unfoldable pub validate_epoch_settings : EpochSettings → Result DirectoryError (Unit {0})
validate_epoch_settings settings = do
  _ ←
      check (not (ltb settings.epoch one_second || not (settings.epoch % one_second == 0)))
        bad_epoch
  _ ← check (ltb settings.epoch settings.lifetime) bad_lifetime
  check (settings.lifetime % one_second == 0) bad_lifetime

-- (time.Time).Truncate
unfoldable pub truncate : ℕ → ℕ → ℕ
truncate epoch t = t - t % epoch

abbrev pub unsigned_consensus : List Descriptor → ℕ → ℕ → Consensus
unsigned_consensus relays valid_after valid_until = record {
  valid_after = valid_after;
  valid_until = valid_until;
  relays = relays;
  signatures = [];
  verified_by = 0;
  raw = none;
}

unfoldable pub keys_match : Libraries → Signatures → Bool
keys_match lib [] = true
keys_match lib ((fp, public) ∷ authorities) =
    bytes_eq (encode_key lib public) fp && keys_match lib authorities

-- validateAuthoritySet
unfoldable pub validate_authority_set :
    Libraries → Signatures → ℕ → Result DirectoryError (Unit {0})
unfolding keys_match
validate_authority_set lib authorities threshold = do
  _ ← check (leb 1 threshold) no_threshold
  _ ← check (leb threshold (length authorities)) too_few_authorities
  check (keys_match lib authorities) key_mismatch

unfoldable pub is_trusted : List ℕ → Option (List ℕ) → Bool
is_trusted public none = false
is_trusted public (some trusted) = bytes_eq trusted public

-- authorityCanSign; none is a nil identity, and the keys of Ed25519 have 32 and 64 bytes.
unfoldable pub authority_can_sign :
    Libraries → Option Signer → Signatures → Result DirectoryError Signer
unfolding is_trusted
authority_can_sign lib none authorities = err no_identity
authority_can_sign lib (some s) authorities = do
  _ ← check (length s.public == 32 && length s.private == 64) no_identity
  _ ← check (is_trusted s.public (find (encode_key lib s.public) authorities)) not_authority
  ok s

-- signaturesAreAuthorized
unfoldable pub are_authorized : Signatures → Signatures → Bool
are_authorized [] authorities = true
are_authorized ((fp, _) ∷ signatures) authorities =
    has fp authorities && are_authorized signatures authorities

-- ValidateConsensusEpoch
unfoldable pub validate_consensus_epoch :
    Consensus → EpochSettings → Result DirectoryError (Unit {0})
unfolding validate_epoch_settings truncate
validate_consensus_epoch c settings = do
  _ ← validate_epoch_settings settings
  _ ← check (c.valid_after == truncate settings.epoch c.valid_after) wrong_epoch
  check (c.valid_until == c.valid_after + settings.lifetime) wrong_lifetime

module _ (lib : Libraries) where
  -- NewEpochConsensus
  unfoldable pub new_epoch_consensus :
      List Descriptor → ℕ → EpochSettings → Result DirectoryError Consensus
  unfolding validate_epoch_settings truncate
  new_epoch_consensus relays now settings = do
    _ ← validate_epoch_settings settings
    let valid_after = truncate settings.epoch now
    let c : Consensus = unsigned_consensus relays valid_after (valid_after + settings.lifetime)
    _ ← validate_consensus lib c
    ok (record c { raw = some (consensus_body lib c) })

  -- BuildConsensusPartial
  unfoldable pub build_consensus_partial :
      List Descriptor → Option Identity → ℕ → EpochSettings → Result DirectoryError (List ℕ)
  unfolding new_epoch_consensus
  build_consensus_partial relays id now settings = do
    c ← new_epoch_consensus relays now settings
    signed ← sign_consensus lib id c
    encode_consensus lib signed

  -- The loop of ParseConsensusPartial over the signers.
  unfoldable pub self_declared : Signatures → Signatures → Result DirectoryError Signatures
  self_declared [] out = ok out
  self_declared ((fp, _) ∷ sigs) out = do
    public ← decode_key lib fp
    _ ← check (bytes_eq (encode_key lib public) fp) not_canonical_key
    self_declared sigs (put fp public out)

  -- ParseConsensusPartial
  unfoldable pub parse_consensus_partial : List ℕ → ℕ → Result DirectoryError Consensus
  unfolding self_declared
  parse_consensus_partial bytes now = do
    both ← split_consensus_signatures bytes
    authorities ← self_declared both.1 []
    parse_consensus lib bytes authorities (length authorities) now

  unfoldable pub is_body : List ℕ → Option (List ℕ) → Bool
  is_body body none = false
  is_body body (some raw) = bytes_eq body raw

  -- PrepareConsensusCoSign
  unfoldable pub prepare_consensus_co_sign :
      List ℕ
      → Option Signer
      → List Descriptor
      → Signatures
      → ℕ
      → EpochSettings
      → Result DirectoryError Consensus
  unfolding validate_authority_set authority_can_sign parse_consensus_partial are_authorized
      validate_consensus_epoch truncate is_body
  prepare_consensus_co_sign bytes id local_relays authorities now settings = do
    _ ← validate_authority_set lib authorities 1
    s ← authority_can_sign lib id authorities
    c ← parse_consensus_partial bytes now
    _ ← check (are_authorized c.signatures authorities) unconfigured_signer
    _ ← check (not (has (encode_key lib s.public) c.signatures)) already_signed
    _ ← validate_consensus_epoch c settings
    _ ← check (c.valid_after == truncate settings.epoch now) wrong_epoch
    let expected : Consensus = unsigned_consensus local_relays c.valid_after c.valid_until
    _ ← validate_consensus lib expected
    _ ← check (is_body (consensus_body lib expected) c.raw) other_body
    ok c

  unfoldable pub signing : Option Signer → Option Identity
  signing none = none
  signing (some s) = some (identity_of lib s)

  -- CoSignConsensus
  unfoldable pub co_sign_consensus :
      List ℕ
      → Option Signer
      → List Descriptor
      → Signatures
      → ℕ
      → EpochSettings
      → Result DirectoryError (List ℕ)
  unfolding prepare_consensus_co_sign signing
  co_sign_consensus bytes id local_relays authorities now settings = do
    c ← prepare_consensus_co_sign bytes id local_relays authorities now settings
    signed ← sign_consensus lib (signing id) c
    encode_consensus lib signed

  unfoldable pub conflicts : List ℕ → Option (List ℕ) → Bool
  conflicts sig none = false
  conflicts sig (some previous) = not (bytes_eq previous sig)

  unfoldable pub combine : Signatures → Signatures → Result DirectoryError Signatures
  unfolding conflicts
  combine [] combined = ok combined
  combine ((fp, sig) ∷ sigs) combined = do
    _ ← check (not (conflicts sig (find fp combined))) conflicting_signatures
    combine sigs (put fp sig combined)

  unfoldable pub same_raw : Option (List ℕ) → Option (List ℕ) → Bool
  same_raw none none = true
  same_raw none (some b) = length b == 0
  same_raw (some a) none = length a == 0
  same_raw (some a) (some b) = bytes_eq a b

  unfoldable pub same_as_base : Option Consensus → Consensus → Result DirectoryError Consensus
  unfolding same_raw
  same_as_base none c = ok c
  same_as_base (some base) c = do _ ← check (same_raw base.raw c.raw) conflicting_body; ok base

  -- The loop of MergeConsensus.
  unfoldable pub merge_parts :
      Signatures
      → ℕ
      → List (List ℕ)
      → Option Consensus
      → Signatures
      → Result DirectoryError (Option Consensus × Signatures)
  unfolding parse_consensus_partial are_authorized same_as_base combine
  merge_parts authorities now [] base combined = ok (base, combined)
  merge_parts authorities now (part ∷ parts) base combined = do
    c ← parse_consensus_partial part now
    _ ← check (are_authorized c.signatures authorities) unconfigured_signer
    kept ← same_as_base base c
    more ← combine c.signatures combined
    merge_parts authorities now parts (some kept) more

  -- Base.Encode and the final verification.
  unfoldable pub encode_merged :
      Signatures → ℕ → ℕ → Option Consensus → Signatures → Result DirectoryError (List ℕ)
  encode_merged authorities threshold now none combined = err no_parts
  encode_merged authorities threshold now (some base) combined = do
    bytes ← encode_consensus lib (record base { signatures = combined })
    _ ← parse_consensus lib bytes authorities threshold now
    ok bytes

  -- MergeConsensus
  unfoldable pub merge_consensus :
      List (List ℕ) → Signatures → ℕ → ℕ → Result DirectoryError (List ℕ)
  unfolding merge_parts validate_authority_set encode_merged
  merge_consensus parts authorities threshold now = do
    _ ← check (not (length parts == 0)) no_parts
    _ ← validate_authority_set lib authorities threshold
    both ← merge_parts authorities now parts none []
    _ ← check (leb threshold (length both.1)) too_few_signatures
    encode_merged authorities threshold now both.0 both.1
