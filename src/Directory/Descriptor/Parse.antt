-- ===== src/Directory/Descriptor/Parse.antt =====
-- internal/directory/descriptor.go: ParseDescriptor and splitSignature. A scanned line is what stands
-- between two newlines.
use osanwe.Prelude.{
  ℕ, not, ◌&&◌, ◌||◌, Option, none, some, List, [], ◌∷◌, ◌++◌, length, leb, ◌==◌, if◌then◌else◌,
}
use osanwe.Prelude.Go.{Result, ok, err, ◌>>=◌}
use osanwe.Prelude.Text.{
  codes, bytes_eq, is_one_of, has_prefix, trim_prefix, trim_space, cut, split,
}
use osanwe.Directory.{
  DirectoryError, no_body, no_signature, empty_signature, unsigned_bytes, wrong_version,
  malformed_line, duplicate_field, bad_time, unknown_field, line_too_long, empty_document,
  bad_signature, Libraries, check, or_fail, decode_key, verify_signature,
}
use osanwe.Directory.Descriptor.{Descriptor, validate_descriptor, descriptor_version}

-- What stands in front of the last occurrence of a marker, and what stands from it on.
unfoldable pub moved : ℕ → Option (List ℕ × List ℕ) → Option (List ℕ × List ℕ)
moved c none = none
moved c (some (front, back)) = some (c ∷ front, back)

unfoldable pub or_here : List ℕ → List ℕ → Option (List ℕ × List ℕ) → Option (List ℕ × List ℕ)
or_here marker s (some found) = some found
or_here marker s none = if has_prefix marker s then some ([], s) else none

unfoldable pub cut_last : List ℕ → List ℕ → Option (List ℕ × List ℕ)
unfolding moved or_here
cut_last marker [] = none
cut_last marker (c ∷ s) = or_here marker (c ∷ s) (moved c (cut_last marker s))

abbrev pub signature_marker : List ℕ
signature_marker = 10 ∷ codes "signature "

-- The signature line and what follows it.
unfoldable pub line_and_rest : Option (List ℕ × List ℕ) → List ℕ → List ℕ × List ℕ
line_and_rest (some both) s = both
line_and_rest none s = (s, [])

unfoldable pub signature_of : List ℕ → List ℕ × List ℕ → Result DirectoryError (List ℕ × List ℕ)
signature_of body (line, after) = do
  let sig = trim_space (trim_prefix (codes "signature ") line)
  _ ← check (not (length sig == 0)) empty_signature
  _ ← check (length (trim_space after) == 0) unsigned_bytes
  ok (body, sig)

unfoldable pub split_found :
    List ℕ → Option (List ℕ × List ℕ) → Result DirectoryError (List ℕ × List ℕ)
unfolding signature_of line_and_rest
split_found s none = err (if has_prefix (codes "signature ") s then no_body else no_signature)
split_found s (some (front, [])) = err no_signature
split_found s (some (front, newline ∷ rest)) =
    signature_of (front ++ newline ∷ []) (line_and_rest (cut 10 rest) rest)

-- splitSignature
unfoldable pub split_signature : List ℕ → Result DirectoryError (List ℕ × List ℕ)
unfolding split_found
split_signature s = split_found s (cut_last signature_marker s)

-- strings.TrimRight of carriage returns
unfoldable pub trim_returns : List ℕ → List ℕ
trim_returns [] = []
trim_returns (c ∷ s) =
    let rest = trim_returns s in if c == 13 && length rest == 0 then [] else c ∷ rest

abbrev pub blank : List ℕ → List ℕ → Descriptor
blank body sig = record {
  nickname = [];
  address = [];
  tls_pin = [];
  identity = [];
  destinations = [];
  contact = [];
  published = 0;
  expires = 0;
  raw = some body;
  signature = sig;
}

-- The switch over a field's name.
unfoldable pub set_field :
    Libraries → List ℕ → List ℕ → Descriptor → Result DirectoryError Descriptor
set_field lib key value d =
    if bytes_eq key (codes "nickname")
    then ok (record d { nickname = value })
    else if bytes_eq key (codes "address")
    then ok (record d { address = value })
    else if bytes_eq key (codes "tls-pin")
    then ok (record d { tls_pin = value })
    else if bytes_eq key (codes "identity")
    then ok (record d { identity = value })
    else if bytes_eq key (codes "destination")
    then ok (record d { destinations = d.destinations ++ value ∷ [] })
    else if bytes_eq key (codes "contact")
    then ok (record d { contact = value })
    else if bytes_eq key (codes "published")
    then (do at ← or_fail bad_time (lib.parse_time value); ok (record d { published = at }))
    else if bytes_eq key (codes "expires")
    then (do at ← or_fail bad_time (lib.parse_time value); ok (record d { expires = at }))
    else err unknown_field

-- One field line.
unfoldable pub read_field :
    Libraries
    → List (List ℕ)
    → Descriptor
    → List ℕ
    → Result DirectoryError (List (List ℕ) × Descriptor)
unfolding set_field
read_field lib seen d line = do
  pair ← or_fail malformed_line (cut 32 line)
  let repeats = bytes_eq pair.0 (codes "destination")
  _ ← check (repeats || not (is_one_of seen pair.0)) duplicate_field
  later ← set_field lib pair.0 (trim_space pair.1) d
  ok (if repeats then seen else pair.0 ∷ seen, later)

-- The loop over the lines behind the version.
unfoldable pub read_field_lines :
    Libraries → List (List ℕ) → Descriptor → List (List ℕ) → Result DirectoryError Descriptor
read_field_lines lib seen d [] = ok d
read_field_lines lib seen d (line ∷ lines) =
    let skipped = read_field_lines lib seen d lines in
    if leb 1048576 (length line)
    then err line_too_long
    else if length (trim_returns line) == 0
    then skipped
    else do
      both ← read_field lib seen d (trim_returns line)
      read_field_lines lib both.0 both.1 lines

-- The loop up to the version line.
unfoldable pub read_version :
    Libraries → Descriptor → List (List ℕ) → Result DirectoryError Descriptor
read_version lib d [] = err empty_document
read_version lib d (line ∷ lines) =
    let skipped = read_version lib d lines in
    if leb 1048576 (length line)
    then err line_too_long
    else if length (trim_returns line) == 0
    then skipped
    else if bytes_eq (trim_returns line) descriptor_version
    then read_field_lines lib [] d lines
    else err wrong_version

-- ParseDescriptor
unfoldable pub parse_descriptor : Libraries → List ℕ → Result DirectoryError Descriptor
parse_descriptor lib data_bytes = do
  both ← split_signature data_bytes
  d ← read_version lib (blank both.0 both.1) (split 10 both.0)
  _ ← validate_descriptor lib d
  public ← decode_key lib d.identity
  _ ← check (verify_signature lib public both.0 both.1) bad_signature
  ok d
