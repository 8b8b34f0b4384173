-- ===== src/Policy.antt =====
-- internal/policy/policy.go: the destinations that a ranger carries traffic to. An allowlist is the
-- list of its destinations, and net.ParseIP is a parameter.
pub mod Laws
mod Tests
use osanwe.Prelude.{
  ℕ, ◌≡◌, Bool, true, false, not, ◌&&◌, ◌||◌, Option, none, some, List, [], ◌∷◌, ◌++◌, length, take,
  leb, ltb, ◌==◌, reverse, if◌then◌else◌,
}
use osanwe.Prelude.Go.{ℤ, pos, negsuc, Result, ok, err, ◌>>=◌}
use osanwe.Prelude.Net.{split_host_port}
use osanwe.Prelude.Text.{
  codes, bytes_eq, has_prefix, trim_prefix, trim_suffix, contains, has_byte, trim_space, to_lower,
  atoi,
}

pub data PolicyError : Type 0 where
  no_entries empty_destination is_url has_path no_host bad_host bad_port port_range : PolicyError

pub record Destination : Type 0 where
  pub host : List ℕ
  pub port : ℕ

abbrev pub Allowlist : Type 0
Allowlist = List Destination

abbrev pub default_port : ℕ
default_port = 443

-- The loop that takes the trailing dots off, over the reversed host.
unfoldable pub drop_dots : List ℕ → List ℕ
drop_dots [] = []
drop_dots (c ∷ s) = let rest = drop_dots s in if c == 46 then rest else c ∷ s

-- normalizeHost
unfoldable pub normalize_host : List ℕ → List ℕ
unfolding drop_dots
normalize_host h = reverse (
    drop_dots
      (reverse (to_lower (trim_suffix (codes "]") (trim_prefix (codes "[") (trim_space h))))))

unfoldable pub is_host_byte : ℕ → Bool
is_host_byte c =
    (leb 97 c && leb c 122) || ((leb 48 c && leb c 57) || (c == 45 || (c == 95 || c == 46)))

unfoldable pub are_host_bytes : List ℕ → Bool
unfolding is_host_byte
are_host_bytes [] = true
are_host_bytes (c ∷ s) = is_host_byte c && are_host_bytes s

unfoldable pub in_port_range : List ℕ → Option ℤ → Result PolicyError Destination
in_port_range host none = err bad_port
in_port_range host (some (negsuc n)) = err port_range
in_port_range host (some (pos n)) =
    if ltb n 1 || ltb 65535 n then err port_range else ok (record { host = host; port = n })

-- The host and the text of the port, which is the default one where the entry has none.
unfoldable pub host_and_port : List ℕ → Option (List ℕ × List ℕ) → List ℕ × List ℕ
host_and_port s none = (s, codes "443")
host_and_port s (some both) = both

unfoldable pub same_destination : Destination → Destination → Bool
same_destination a b = bytes_eq a.host b.host && a.port == b.port

unfoldable pub is_allowed : Destination → Allowlist → Bool
unfolding same_destination
is_allowed d [] = false
is_allowed d (a ∷ set) = same_destination a d || is_allowed d set

-- `set[d] = struct{}{}`
unfoldable pub allow : Destination → Allowlist → Allowlist
allow d set = if is_allowed d set then set else set ++ d ∷ []

unfoldable pub is_pair : Option (List ℕ × List ℕ) → Bool
is_pair none = false
is_pair (some _) = true

module _ (is_ip : List ℕ → Bool) where
  -- validHost
  unfoldable pub valid_host : List ℕ → Bool
  unfolding are_host_bytes
  valid_host h =
      is_ip h
      || (not (ltb 253 (length h))
          && (not (has_prefix (codes ".") h)
              && (not (contains (codes "..") h) && are_host_bytes h)))

  unfoldable pub of_parts : List ℕ × List ℕ → Result PolicyError Destination
  unfolding in_port_range
  of_parts (host, port) =
      if length (normalize_host host) == 0
      then err no_host
      else if not (valid_host (normalize_host host))
      then err bad_host
      else in_port_range (normalize_host host) (atoi port)

  -- ParseDestination
  unfoldable pub parse_destination : List ℕ → Result PolicyError Destination
  unfolding of_parts host_and_port
  parse_destination raw =
      let s = trim_space raw in
      if length s == 0
      then err empty_destination
      else if contains (codes "://") s
      then err is_url
      else if has_byte 47 s || (has_byte 63 s || (has_byte 35 s || has_byte 64 s))
      then err has_path
      else of_parts (host_and_port s (split_host_port s))

  -- The loop of Parse.
  unfoldable pub parse_entries : Allowlist → List (List ℕ) → Result PolicyError Allowlist
  unfolding allow
  parse_entries set [] = ok set
  parse_entries set (raw ∷ entries) = do
    d ← parse_destination raw
    parse_entries (allow d set) entries

  -- Parse
  unfoldable pub parse_policy : List (List ℕ) → Result PolicyError Allowlist
  unfolding parse_entries
  parse_policy [] = err no_entries
  parse_policy (raw ∷ entries) = parse_entries [] (raw ∷ entries)

  unfoldable pub allows_parsed : List Destination → Bool → Result PolicyError Destination → Bool
  allows_parsed set has_port (err _) = false
  allows_parsed set has_port (ok d) = if not has_port then false else is_allowed d set

  -- (*Allowlist).Allows, where none is a nil list.
  unfoldable pub allows : Option Allowlist → List ℕ → Bool
  unfolding allows_parsed is_pair
  allows none host_port = false
  allows (some []) host_port = false
  allows (some (a ∷ set)) host_port =
      allows_parsed (a ∷ set) (is_pair (split_host_port (trim_space host_port)))
        (parse_destination host_port)
