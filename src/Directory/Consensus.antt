-- ===== src/Directory/Consensus.antt =====
-- internal/directory/consensus.go: the list of relays that several authorities sign.
pub mod Parse
pub mod Threshold
pub mod Tests
use osanwe.Prelude.{
  ℕ, zero, suc, ◌+◌, ◌/◌, ◌%◌, Bool, true, false, not, ◌&&◌, ◌||◌, Option, none, some, List, [],
  ◌∷◌, ◌++◌, length, ltb, leb, ◌==◌, if◌then◌else◌,
}
use osanwe.Prelude.Go.{Result, ok, err, ◌>>=◌}
use osanwe.Prelude.Sort.{sort_by, sort_strings}
use osanwe.Prelude.Table.{find, put}
use osanwe.Prelude.Text.{codes, bytes_eq, is_one_of}
use osanwe.Directory.{
  DirectoryError, no_window, empty_window, not_signed, relay_outside_window, relay_twice,
  no_identity, changed_after_signing, not_canonical_key, bad_signature, too_large, no_signature,
  no_authorities, Libraries, check, clock_skew, encode_key, decode_key, verify_signature,
}
use osanwe.Directory.Descriptor.{
  Descriptor, Identity, validate_descriptor, valid_throughout, expired, serves, encoded, line_of,
}

-- `raw` is none before the first signature.
pub record Consensus : Type 0 where
  pub valid_after : ℕ
  pub valid_until : ℕ
  pub relays : List Descriptor
  pub signatures : List (List ℕ × List ℕ)
  pub verified_by : ℕ
  pub raw : Option (List ℕ)

-- (*Consensus).Fresh
unfoldable pub fresh : Consensus → ℕ → Bool
fresh c now = leb c.valid_after (now + clock_skew) && ltb now c.valid_until

unfoldable pub usable_from : ℕ → List ℕ → List Descriptor → List Descriptor
usable_from now destination [] = []
usable_from now destination (d ∷ ds) =
    let rest = usable_from now destination ds in
    if expired d now || (not (length destination == 0) && not (serves d destination))
    then rest
    else d ∷ rest

-- (*Consensus).Usable
unfoldable pub usable : Consensus → ℕ → List ℕ → List Descriptor
unfolding usable_from
usable c now destination = usable_from now destination c.relays

-- The loop of (*Consensus).validate, with the identities that were seen.
unfoldable pub validate_relays :
    Libraries → ℕ → ℕ → List (List ℕ) → List Descriptor → Result DirectoryError (Unit {0})
validate_relays lib valid_after valid_until seen [] = ok tt
validate_relays lib valid_after valid_until seen (d ∷ ds) = do
  _ ← check (not (length (encoded d) == 0)) not_signed
  _ ← validate_descriptor lib d
  _ ← check (valid_throughout d valid_after valid_until) relay_outside_window
  _ ← check (not (is_one_of seen d.identity)) relay_twice
  validate_relays lib valid_after valid_until (d.identity ∷ seen) ds

-- (*Consensus).validate
unfoldable pub validate_consensus : Libraries → Consensus → Result DirectoryError (Unit {0})
validate_consensus lib c = do
  _ ← check (not (c.valid_after == 0 || c.valid_until == 0)) no_window
  _ ← check (ltb c.valid_after c.valid_until) empty_window
  validate_relays lib c.valid_after c.valid_until [] c.relays

-- strconv.Itoa of a length.
unfoldable pub digits_down : ℕ → ℕ → List ℕ → List ℕ
digits_down zero n out = out
digits_down (suc fuel) n out =
    let more = digits_down fuel (n / 10) ((48 + n % 10) ∷ out) in
    if ltb n 10 then (48 + n) ∷ out else more

unfoldable pub decimal : ℕ → List ℕ
unfolding digits_down
decimal n = digits_down (suc n) n []

abbrev pub consensus_version : List ℕ
consensus_version = codes "osanwe-consensus-1"

unfoldable pub relay_line : Libraries → List ℕ → List ℕ
relay_line lib [] = []
relay_line lib (c ∷ s) =
    let text = lib.base64 (c ∷ s) in
    codes "relay " ++ (decimal (length text) ++ (32 ∷ text ++ 10 ∷ []))

unfoldable pub relay_lines : Libraries → List Descriptor → List ℕ
unfolding relay_line
relay_lines lib [] = []
relay_lines lib (d ∷ ds) = relay_line lib (encoded d) ++ relay_lines lib ds

-- (*Consensus).body
unfoldable pub consensus_body : Libraries → Consensus → List ℕ
unfolding relay_lines
consensus_body lib c =
    consensus_version
    ++ (10 ∷ line_of (codes "valid-after") (lib.format_time c.valid_after)
        ++ (line_of (codes "valid-until") (lib.format_time c.valid_until)
            ++ relay_lines lib (sort_by encoded c.relays)))

-- `c.raw != nil && !bytes.Equal(c.raw, body)`
unfoldable pub has_changed : Option (List ℕ) → List ℕ → Bool
has_changed none body = false
has_changed (some raw) body = not (bytes_eq raw body)

-- (*Consensus).Sign, by an identity that is valid.
unfoldable pub sign_consensus :
    Libraries → Option Identity → Consensus → Result DirectoryError Consensus
unfolding has_changed
sign_consensus lib none c = err no_identity
sign_consensus lib (some id) c = do
  _ ← validate_consensus lib c
  let body = consensus_body lib c
  _ ← check (not (has_changed c.raw body)) changed_after_signing
  ok (record c { raw = some body; signatures = put id.fingerprint (id.sign body) c.signatures })

-- One signature of (*Consensus).Encode.
unfoldable pub encode_signature :
    Libraries → List ℕ → List ℕ → List ℕ → Result DirectoryError (List ℕ)
encode_signature lib body fp sig = elim (decode_key lib fp) [
  | err _ ↦ err not_canonical_key
  | ok public ↦
      if not (bytes_eq (encode_key lib public) fp)
      then err not_canonical_key
      else if verify_signature lib public body sig
      then ok (codes "signature " ++ (fp ++ (32 ∷ sig ++ 10 ∷ [])))
      else err bad_signature
]

unfoldable pub signature_text : Option (List ℕ) → List ℕ
signature_text none = []
signature_text (some sig) = sig

unfoldable pub encode_signatures :
    Libraries → List ℕ → List (List ℕ × List ℕ) → List (List ℕ) → Result DirectoryError (List ℕ)
unfolding encode_signature signature_text
encode_signatures lib body sigs [] = ok []
encode_signatures lib body sigs (fp ∷ fps) = do
  line ← encode_signature lib body fp (signature_text (find fp sigs))
  lines ← encode_signatures lib body sigs fps
  ok (line ++ lines)

unfoldable pub keys_of : List (List ℕ × List ℕ) → List (List ℕ)
keys_of [] = []
keys_of ((fp, _) ∷ sigs) = fp ∷ keys_of sigs

abbrev pub max_consensus_size : ℕ
max_consensus_size = 8388608

-- (*Consensus).Encode
unfoldable pub encode_consensus : Libraries → Consensus → Result DirectoryError (List ℕ)
unfolding keys_of
encode_consensus lib c = if length c.signatures == 0 then err no_signature else do
  _ ← validate_consensus lib c
  let body = consensus_body lib c
  _ ← check (not (has_changed c.raw body)) changed_after_signing
  lines ← encode_signatures lib body c.signatures (sort_strings (keys_of c.signatures))
  if ltb max_consensus_size (length (body ++ lines)) then err too_large else ok (body ++ lines)

-- The loop of AuthoritySet.
unfoldable pub add_authorities :
    Libraries
    → List (List ℕ)
    → List (List ℕ × List ℕ)
    → Result DirectoryError (List (List ℕ × List ℕ))
add_authorities lib [] out = ok out
add_authorities lib (s ∷ ss) out = do
  public ← decode_key lib s
  add_authorities lib ss (put (encode_key lib public) public out)

-- AuthoritySet
unfoldable pub authority_set :
    Libraries → List (List ℕ) → Result DirectoryError (List (List ℕ × List ℕ))
authority_set lib keys = do
  out ← add_authorities lib keys []
  _ ← check (not (length out == 0)) no_authorities
  ok out
