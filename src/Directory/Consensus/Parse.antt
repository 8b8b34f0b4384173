-- ===== src/Directory/Consensus/Parse.antt =====
-- internal/directory/consensus.go: ParseConsensus and splitConsensusSignatures. The body that was
-- split off is as long as the scanner's buffer at most.
use osanwe.Prelude.{
  ℕ, suc, Bool, false, not, ◌||◌, Option, none, some, List, [], ◌∷◌, ◌++◌, length, leb, ◌==◌,
  if◌then◌else◌,
}
use osanwe.Prelude.Go.{ℤ, pos, negsuc, Result, ok, err, ◌>>=◌}
use osanwe.Prelude.Table.{find, has, put}
use osanwe.Prelude.Text.{
  codes, bytes_eq, is_one_of, has_prefix, trim_prefix, trim_space, cut, split, atoi,
}
use osanwe.Directory.{
  DirectoryError, no_signature, no_threshold, too_few_authorities, unexpected_line,
  malformed_signature, signed_twice, wrong_version, malformed_line, duplicate_field, bad_time,
  unknown_field, line_too_long, empty_document, no_window, malformed_relay, bad_relay_length,
  wrong_relay_length, bad_relay_text, not_canonical, not_fresh, too_few_signatures, Libraries,
  check, or_fail, verify_signature,
}
use osanwe.Directory.Descriptor.{Descriptor}
use osanwe.Directory.Descriptor.Parse.{parse_descriptor, signature_marker, moved, trim_returns}
use osanwe.Directory.Consensus.{
  Consensus, fresh, validate_consensus, consensus_body, consensus_version,
}

abbrev pub Signatures : Type 0
Signatures = List (List ℕ × List ℕ)

-- What stands in front of the first occurrence of a marker, and what stands from it on.
unfoldable pub cut_first : List ℕ → List ℕ → Option (List ℕ × List ℕ)
unfolding moved
cut_first marker [] = none
cut_first marker (c ∷ s) =
    let later = moved c (cut_first marker s) in
    if has_prefix marker (c ∷ s) then some ([], c ∷ s) else later

unfoldable pub add_signature :
    Signatures → Option (List ℕ × List ℕ) → Result DirectoryError Signatures
add_signature sigs none = err malformed_signature
add_signature sigs (some (fp, sig)) =
    if length fp == 0 || length sig == 0
    then err malformed_signature
    else if has fp sigs
    then err signed_twice
    else ok (put fp sig sigs)

-- The loop over the signature lines.
unfoldable pub read_signatures : Signatures → List (List ℕ) → Result DirectoryError Signatures
unfolding add_signature
read_signatures sigs [] = ok sigs
read_signatures sigs (line ∷ lines) =
    let skipped = read_signatures sigs lines in
    if length (trim_space line) == 0
    then skipped
    else if not (has_prefix (codes "signature ") (trim_space line))
    then err unexpected_line
    else do
      more ←
          add_signature sigs
            (cut 32 (trim_space (trim_prefix (codes "signature ") (trim_space line))))
      read_signatures more lines

unfoldable pub signed_body : Option (List ℕ × List ℕ) → Result DirectoryError (List ℕ × Signatures)
signed_body none = err no_signature
signed_body (some (front, [])) = err no_signature
signed_body (some (front, newline ∷ rest)) = do
  sigs ← read_signatures [] (split 10 rest)
  _ ← check (not (length sigs == 0)) no_signature
  ok (front ++ newline ∷ [], sigs)

-- splitConsensusSignatures
unfoldable pub split_consensus_signatures : List ℕ → Result DirectoryError (List ℕ × Signatures)
unfolding signed_body
split_consensus_signatures bytes = signed_body (cut_first signature_marker bytes)

unfoldable pub declared : Option ℤ → ℕ → Result DirectoryError (Unit {0})
declared none carried = err bad_relay_length
declared (some (negsuc n)) carried = err wrong_relay_length
declared (some (pos n)) carried = check (n == carried) wrong_relay_length

-- A "relay" entry.
unfoldable pub read_relay : Libraries → List ℕ → Result DirectoryError Descriptor
unfolding declared
read_relay lib value = do
  pair ← or_fail malformed_relay (cut 32 (trim_space value))
  _ ← declared (atoi pair.0) (length pair.1)
  raw ← or_fail bad_relay_text (lib.from_base64 pair.1)
  parse_descriptor lib raw

-- The switch over a line's key.
unfoldable pub read_entry :
    Libraries
    → List (List ℕ)
    → Consensus
    → List ℕ
    → List ℕ
    → Result DirectoryError (List (List ℕ) × Consensus)
unfolding read_relay
read_entry lib seen c key value =
    if bytes_eq key (codes "valid-after")
    then (do
      _ ← check (not (is_one_of seen key)) duplicate_field
      at ← or_fail bad_time (lib.parse_time (trim_space value))
      ok (key ∷ seen, record c { valid_after = at }))
    else if bytes_eq key (codes "valid-until")
    then (do
      _ ← check (not (is_one_of seen key)) duplicate_field
      at ← or_fail bad_time (lib.parse_time (trim_space value))
      ok (key ∷ seen, record c { valid_until = at }))
    else if bytes_eq key (codes "relay")
    then (do d ← read_relay lib value; ok (seen, record c { relays = c.relays ++ d ∷ [] }))
    else err unknown_field

-- The loop over the lines behind the version.
unfoldable pub read_entries :
    Libraries → List (List ℕ) → Consensus → List (List ℕ) → Result DirectoryError Consensus
read_entries lib seen c [] = ok c
read_entries lib seen c (line ∷ lines) =
    let skipped = read_entries lib seen c lines in
    if leb 8388608 (length line)
    then err line_too_long
    else if length (trim_returns line) == 0
    then skipped
    else do
      pair ← or_fail malformed_line (cut 32 (trim_returns line))
      both ← read_entry lib seen c pair.0 pair.1
      read_entries lib both.0 both.1 lines

-- The loop up to the version line.
unfoldable pub read_heading :
    Libraries → Consensus → List (List ℕ) → Result DirectoryError Consensus
read_heading lib c [] = err empty_document
read_heading lib c (line ∷ lines) =
    let skipped = read_heading lib c lines in
    if leb 8388608 (length line)
    then err line_too_long
    else if length (trim_returns line) == 0
    then skipped
    else if bytes_eq (trim_returns line) consensus_version
    then read_entries lib [] c lines
    else err wrong_version

unfoldable pub is_valid : Libraries → List ℕ → List ℕ → Option (List ℕ) → Bool
is_valid lib body sig none = false
is_valid lib body sig (some public) = verify_signature lib public body sig

-- The count of the signatures of known authorities that verify.
unfoldable pub count_valid : Libraries → Signatures → List ℕ → Signatures → ℕ
unfolding is_valid
count_valid lib authorities body [] = 0
count_valid lib authorities body ((fp, sig) ∷ sigs) =
    let rest = count_valid lib authorities body sigs in
    if is_valid lib body sig (find fp authorities) then suc rest else rest

abbrev pub opened : List ℕ → Signatures → Consensus
opened body sigs = record {
  valid_after = 0;
  valid_until = 0;
  relays = [];
  signatures = sigs;
  verified_by = 0;
  raw = some body;
}

-- ParseConsensus once the document is split.
unfoldable pub parse_split :
    Libraries → Signatures → ℕ → ℕ → List ℕ × Signatures → Result DirectoryError Consensus
parse_split lib authorities threshold now (body, sigs) = do
  c ← read_heading lib (opened body sigs) (split 10 body)
  _ ← check (not (c.valid_after == 0 || c.valid_until == 0)) no_window
  _ ← validate_consensus lib c
  _ ← check (bytes_eq body (consensus_body lib c)) not_canonical
  _ ← check (fresh c now) not_fresh
  _ ← check (leb threshold (count_valid lib authorities body sigs)) too_few_signatures
  ok (record c { verified_by = count_valid lib authorities body sigs })

-- ParseConsensus
unfoldable pub parse_consensus :
    Libraries → List ℕ → Signatures → ℕ → ℕ → Result DirectoryError Consensus
unfolding parse_split
parse_consensus lib bytes authorities threshold now = do
  _ ← check (leb 1 threshold) no_threshold
  _ ← check (leb threshold (length authorities)) too_few_authorities
  both ← split_consensus_signatures bytes
  parse_split lib authorities threshold now both
