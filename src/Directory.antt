-- ===== src/Directory.antt =====
-- internal/directory/identity.go and internal/certs/certs.go: keys, signatures and pins as text.
-- base64, Ed25519 and the RFC 3339 times are parameters. An instant is the number of nanoseconds
-- since the zero time.
pub mod Descriptor
pub mod Consensus
pub mod Store
pub mod Fetch
pub mod Workflow
use osanwe.Prelude.{
  ℕ, ◌≡◌, refl, Bool, true, false, not, ◌&&◌, ◌||◌, Option, none, some, List, [], ◌∷◌, ◌++◌, length,
  ltb, ◌==◌, if◌then◌else◌,
}
use osanwe.Prelude.Go.{Result, ok, err, ◌>>=◌}
use osanwe.Prelude.Text.{codes, bytes_eq, trim_space, trim_prefix}

pub data DirectoryError : Type 0 where
  empty_key bad_key_text bad_key_size empty_pin bad_pin_text bad_pin_size : DirectoryError
  no_nickname spaced_nickname bad_address no_destinations no_window empty_window : DirectoryError
  no_body no_signature empty_signature unsigned_bytes : DirectoryError
  wrong_version malformed_line duplicate_field bad_time unknown_field line_too_long empty_document :
      DirectoryError
  bad_signature other_identity : DirectoryError
  not_signed relay_outside_window relay_twice : DirectoryError
  malformed_relay bad_relay_length wrong_relay_length bad_relay_text : DirectoryError
  no_threshold too_few_authorities unexpected_line malformed_signature signed_twice : DirectoryError
  not_canonical not_fresh too_few_signatures : DirectoryError
  no_identity changed_after_signing not_canonical_key too_large : DirectoryError
  not_accepted expired_descriptor stale_descriptor other_owner write_failed : DirectoryError
  no_urls no_authorities unreachable bad_status older_consensus : DirectoryError
  bad_epoch bad_lifetime wrong_epoch wrong_lifetime : DirectoryError
  key_mismatch not_authority unconfigured_signer already_signed : DirectoryError
  other_body no_parts conflicting_body conflicting_signatures : DirectoryError

pub record Libraries : Type 0 where
  pub base64 : List ℕ → List ℕ
  pub from_base64 : List ℕ → Option (List ℕ)
  pub ed25519_verify : List ℕ → List ℕ → List ℕ → Bool
  pub parse_time : List ℕ → Option ℕ
  pub format_time : ℕ → List ℕ

-- `_ ← check test e` goes on where the test holds.
abbrev pub check : Bool → DirectoryError → Result DirectoryError (Unit {0})
check true e = ok tt
check false e = err e

pub checked : (test : Bool) (e : DirectoryError) → check test e ≡ ok tt → test ≡ true
checked true e h = refl
checked false e h = cc

abbrev pub or_fail {ℓ} : {A : Type ℓ} → DirectoryError → Option A → Result DirectoryError A
or_fail e none = err e
or_fail e (some a) = ok a

abbrev pub key_prefix : List ℕ
key_prefix = codes "ed25519:"

abbrev pub pin_prefix : List ℕ
pin_prefix = codes "sha256/"

abbrev pub clock_skew : ℕ
clock_skew = 300000000000

module _ (lib : Libraries) where
  -- EncodeKey
  unfoldable pub encode_key : List ℕ → List ℕ
  encode_key public = key_prefix ++ lib.base64 public

  -- DecodeKey
  unfoldable pub decode_key : List ℕ → Result DirectoryError (List ℕ)
  decode_key s = if length (trim_space s) == 0 then err empty_key else do
    raw ← or_fail bad_key_text (lib.from_base64 (trim_prefix key_prefix (trim_space s)))
    if length raw == 32 then ok raw else err bad_key_size

  unfoldable pub verify_raw : List ℕ → List ℕ → Option (List ℕ) → Bool
  verify_raw public message none = false
  verify_raw public message (some raw) = length raw == 64 && lib.ed25519_verify public message raw

  -- VerifySignature
  unfoldable pub verify_signature : List ℕ → List ℕ → List ℕ → Bool
  unfolding verify_raw
  verify_signature public message sig = verify_raw public message (lib.from_base64 (trim_space sig))

  -- certs.NormalizePin
  unfoldable pub normalize_pin : List ℕ → Result DirectoryError (List ℕ)
  normalize_pin s = if length (trim_space s) == 0 then err empty_pin else do
    decoded ← or_fail bad_pin_text (lib.from_base64 (trim_prefix pin_prefix (trim_space s)))
    if length decoded == 32 then ok (pin_prefix ++ lib.base64 decoded) else err bad_pin_size
