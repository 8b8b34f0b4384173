-- ===== src/Directory/Descriptor.antt =====
-- internal/directory/descriptor.go: a relay's signed description of itself.
pub mod Parse
pub mod Signed
use osanwe.Prelude.{
  ℕ, ◌+◌, Bool, true, false, not, ◌&&◌, ◌||◌, Option, none, some, List, [], ◌∷◌, ◌++◌, length, ltb,
  leb, ◌==◌, if◌then◌else◌,
}
use osanwe.Prelude.Go.{Result, ok, err, ◌>>=◌}
use osanwe.Prelude.Net.{split_host_port}
use osanwe.Prelude.Text.{codes, bytes_eq, trim_space, to_lower, has_byte}
use osanwe.Prelude.Sort.{sort_strings}
use osanwe.Directory.{
  DirectoryError, no_nickname, spaced_nickname, bad_address, no_destinations, no_window,
  empty_window, other_identity, Libraries, check, or_fail, clock_skew, decode_key, normalize_pin,
}

-- `raw` and `signature` are none on a descriptor that was not signed here and not parsed.
pub record Descriptor : Type 0 where
  pub nickname : List ℕ
  pub address : List ℕ
  pub tls_pin : List ℕ
  pub identity : List ℕ
  pub destinations : List (List ℕ)
  pub contact : List ℕ
  pub published : ℕ
  pub expires : ℕ
  pub raw : Option (List ℕ)
  pub signature : List ℕ

unfoldable pub has_white : List ℕ → Bool
has_white s = has_byte 32 s || (has_byte 9 s || (has_byte 13 s || has_byte 10 s))

unfoldable pub is_pair : Option (List ℕ × List ℕ) → Bool
is_pair none = false
is_pair (some _) = true

-- (*Descriptor).Validate
unfoldable pub validate_descriptor : Libraries → Descriptor → Result DirectoryError (Unit {0})
unfolding has_white is_pair
validate_descriptor lib d = do
  _ ← check (not (length d.nickname == 0)) no_nickname
  _ ← check (not (has_white d.nickname)) spaced_nickname
  _ ← check (is_pair (split_host_port d.address)) bad_address
  _ ← normalize_pin lib d.tls_pin
  _ ← decode_key lib d.identity
  _ ← check (not (length d.destinations == 0)) no_destinations
  _ ← check (not (d.published == 0 || d.expires == 0)) no_window
  check (ltb d.published d.expires) empty_window

-- (*Descriptor).Expired
unfoldable pub expired : Descriptor → ℕ → Bool
expired d now = ltb d.expires now || ltb (now + clock_skew) d.published

-- (*Descriptor).ValidThroughout
unfoldable pub valid_throughout : Descriptor → ℕ → ℕ → Bool
unfolding expired
valid_throughout d valid_after valid_until =
    if valid_after == 0 || (valid_until == 0 || not (ltb valid_after valid_until))
    then false
    else not (expired d valid_after) && not (ltb d.expires valid_until)

unfoldable pub normal : List ℕ → List ℕ
normal s = to_lower (trim_space s)

unfoldable pub names_destination : List ℕ → List (List ℕ) → Bool
unfolding normal
names_destination want [] = false
names_destination want (dest ∷ dests) = bytes_eq (normal dest) want || names_destination want dests

-- (*Descriptor).Serves
unfoldable pub serves : Descriptor → List ℕ → Bool
unfolding names_destination
serves d host_port = names_destination (normal host_port) d.destinations

-- fmt.Fprintf with a name, a space, a value and a newline.
unfoldable pub line_of : List ℕ → List ℕ → List ℕ
line_of name value = name ++ (32 ∷ value ++ 10 ∷ [])

unfoldable pub destination_lines : List (List ℕ) → List ℕ
unfolding line_of
destination_lines [] = []
destination_lines (dest ∷ dests) = line_of (codes "destination") dest ++ destination_lines dests

unfoldable pub contact_line : List ℕ → List ℕ
contact_line [] = []
contact_line (c ∷ s) = line_of (codes "contact") (c ∷ s)

abbrev pub descriptor_version : List ℕ
descriptor_version = codes "osanwe-descriptor-1"

-- (*Descriptor).body
unfoldable pub descriptor_body : Libraries → Descriptor → List ℕ
unfolding destination_lines contact_line
descriptor_body lib d =
    descriptor_version
    ++ (10 ∷ line_of (codes "nickname") d.nickname
        ++ (line_of (codes "address") d.address
            ++ (line_of (codes "tls-pin") d.tls_pin
                ++ (line_of (codes "identity") d.identity
                    ++ (destination_lines (sort_strings d.destinations)
                        ++ (contact_line d.contact
                            ++ (line_of (codes "published") (lib.format_time d.published)
                                ++ line_of (codes "expires") (lib.format_time d.expires))))))))

-- Who signs: a fingerprint, and the base64 text of a signature over a message.
pub record Identity : Type 0 where
  pub fingerprint : List ℕ
  pub sign : List ℕ → List ℕ

unfoldable pub claimed : Identity → List ℕ → List ℕ
claimed id [] = id.fingerprint
claimed id (c ∷ s) = c ∷ s

-- (*Descriptor).Sign: the descriptor as it is then, and its encoding.
unfoldable pub sign_descriptor :
    Libraries → Identity → Descriptor → Result DirectoryError (Descriptor × List ℕ)
unfolding claimed
sign_descriptor lib id d =
    let named = record d { identity = claimed id d.identity } in
    if not (bytes_eq named.identity id.fingerprint) then err other_identity else do
      _ ← validate_descriptor lib named
      let body = descriptor_body lib named
      ok (
        record named { raw = some body; signature = id.sign body },
        body ++ line_of (codes "signature") (id.sign body),
      )

-- (*Descriptor).Encoded, [] where the descriptor was not signed.
unfoldable pub encoded_of : Option (List ℕ) → List ℕ → List ℕ
encoded_of none signature = []
encoded_of (some raw) [] = []
encoded_of (some raw) (c ∷ s) = raw ++ line_of (codes "signature") (c ∷ s)

unfoldable pub encoded : Descriptor → List ℕ
unfolding encoded_of
encoded d = encoded_of d.raw d.signature
