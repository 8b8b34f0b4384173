-- ===== src/Policy/Tests.antt =====
-- An allowlist of two entries, where no host is an IP address.
use osanwe.Prelude.{ℕ, ◌≡◌, ◌↔◌, refl, Bool, true, false, Option, some, List, [], ◌∷◌}
use osanwe.Prelude.Go.{ok, err}
use osanwe.Prelude.Net.{split_host_port}
use osanwe.Prelude.Text.{codes, trim_space}
use osanwe.Policy.{Destination, Allowlist, is_url, is_pair, parse_destination, parse_policy, allows}
use osanwe.Policy.Laws.{Names, allows_iff}

abbrev no_ips : List ℕ → Bool
no_ips host = false

abbrev entries : List (List ℕ)
entries = codes "API.Example.com." ∷ codes "b:8443" ∷ []

abbrev listed : Allowlist
listed =
    record { host = codes "api.example.com"; port = 443 }
    ∷ record { host = codes "b"; port = 8443 }
    ∷ []

entries_parse : parse_policy no_ips entries ≡ ok listed
unfolding parse_policy parse_destination trim_space osanwe.Prelude.Text.trim_left
    osanwe.Prelude.Text.is_space osanwe.Prelude.Text.contains osanwe.Prelude.Text.has_prefix
    osanwe.Prelude.Text.has_byte osanwe.Policy.normalize_host osanwe.Prelude.Text.to_lower
    osanwe.Prelude.Text.trim_suffix osanwe.Prelude.Text.has_suffix osanwe.Prelude.Text.trim_prefix
    split_host_port osanwe.Prelude.Net.cut_last_colon osanwe.Prelude.Text.lower
    osanwe.Policy.valid_host osanwe.Policy.allow osanwe.Policy.are_host_bytes
    osanwe.Policy.drop_dots osanwe.Policy.host_and_port osanwe.Policy.in_port_range
    osanwe.Policy.is_allowed osanwe.Policy.is_host_byte osanwe.Policy.of_parts
    osanwe.Policy.parse_entries osanwe.Policy.same_destination osanwe.Prelude.Net.cut_here
    osanwe.Prelude.Net.of_bracket osanwe.Prelude.Net.of_plain osanwe.Prelude.Net.port_behind
    osanwe.Prelude.Text.atoi osanwe.Prelude.Text.bytes_eq osanwe.Prelude.Text.cut
    osanwe.Prelude.Text.digits_from osanwe.Prelude.Text.digits_of osanwe.Prelude.Text.signed
entries_parse = refl

allows_any_spelling : allows no_ips (some listed) (codes "api.EXAMPLE.com:443") ≡ true
unfolding allows parse_destination trim_space osanwe.Prelude.Text.trim_left
    osanwe.Prelude.Text.is_space osanwe.Prelude.Text.contains osanwe.Prelude.Text.has_prefix
    osanwe.Prelude.Text.has_byte osanwe.Policy.normalize_host osanwe.Prelude.Text.to_lower
    osanwe.Prelude.Text.trim_suffix osanwe.Prelude.Text.has_suffix osanwe.Prelude.Text.trim_prefix
    split_host_port osanwe.Prelude.Net.cut_last_colon osanwe.Prelude.Text.lower
    osanwe.Policy.valid_host osanwe.Policy.allows_parsed osanwe.Policy.are_host_bytes
    osanwe.Policy.drop_dots osanwe.Policy.host_and_port osanwe.Policy.in_port_range
    osanwe.Policy.is_allowed osanwe.Policy.is_host_byte is_pair osanwe.Policy.of_parts
    osanwe.Policy.same_destination osanwe.Prelude.Net.cut_here osanwe.Prelude.Net.of_bracket
    osanwe.Prelude.Net.of_plain osanwe.Prelude.Net.port_behind osanwe.Prelude.Text.atoi
    osanwe.Prelude.Text.bytes_eq osanwe.Prelude.Text.cut osanwe.Prelude.Text.digits_from
    osanwe.Prelude.Text.digits_of osanwe.Prelude.Text.signed
allows_any_spelling = refl

refuses_bare_host : allows no_ips (some listed) (codes "api.example.com") ≡ false
unfolding allows parse_destination trim_space osanwe.Prelude.Text.trim_left
    osanwe.Prelude.Text.is_space osanwe.Prelude.Text.contains osanwe.Prelude.Text.has_prefix
    osanwe.Prelude.Text.has_byte osanwe.Policy.normalize_host osanwe.Prelude.Text.to_lower
    osanwe.Prelude.Text.trim_suffix osanwe.Prelude.Text.has_suffix osanwe.Prelude.Text.trim_prefix
    split_host_port osanwe.Prelude.Net.cut_last_colon osanwe.Prelude.Text.lower
    osanwe.Policy.valid_host osanwe.Policy.allows_parsed osanwe.Policy.are_host_bytes
    osanwe.Policy.drop_dots osanwe.Policy.host_and_port osanwe.Policy.in_port_range
    osanwe.Policy.is_allowed osanwe.Policy.is_host_byte is_pair osanwe.Policy.of_parts
    osanwe.Policy.same_destination osanwe.Prelude.Net.cut_here osanwe.Prelude.Net.of_bracket
    osanwe.Prelude.Net.of_plain osanwe.Prelude.Net.port_behind osanwe.Prelude.Text.atoi
    osanwe.Prelude.Text.bytes_eq osanwe.Prelude.Text.cut osanwe.Prelude.Text.digits_from
    osanwe.Prelude.Text.digits_of osanwe.Prelude.Text.signed
refuses_bare_host = refl

refuses_other_port : allows no_ips (some listed) (codes "b:443") ≡ false
unfolding allows parse_destination trim_space osanwe.Prelude.Text.trim_left
    osanwe.Prelude.Text.is_space osanwe.Prelude.Text.contains osanwe.Prelude.Text.has_prefix
    osanwe.Prelude.Text.has_byte osanwe.Policy.normalize_host osanwe.Prelude.Text.to_lower
    osanwe.Prelude.Text.trim_suffix osanwe.Prelude.Text.has_suffix osanwe.Prelude.Text.trim_prefix
    split_host_port osanwe.Prelude.Net.cut_last_colon osanwe.Prelude.Text.lower
    osanwe.Policy.valid_host osanwe.Policy.allows_parsed osanwe.Policy.are_host_bytes
    osanwe.Policy.drop_dots osanwe.Policy.host_and_port osanwe.Policy.in_port_range
    osanwe.Policy.is_allowed osanwe.Policy.is_host_byte is_pair osanwe.Policy.of_parts
    osanwe.Policy.same_destination osanwe.Prelude.Net.cut_here osanwe.Prelude.Net.of_bracket
    osanwe.Prelude.Net.of_plain osanwe.Prelude.Net.port_behind osanwe.Prelude.Text.atoi
    osanwe.Prelude.Text.bytes_eq osanwe.Prelude.Text.cut osanwe.Prelude.Text.digits_from
    osanwe.Prelude.Text.digits_of osanwe.Prelude.Text.signed
refuses_other_port = refl

refuses_url : parse_destination no_ips (codes "https://b") ≡ err is_url
unfolding parse_destination trim_space osanwe.Prelude.Text.trim_left osanwe.Prelude.Text.is_space
    osanwe.Prelude.Text.contains osanwe.Prelude.Text.has_prefix
refuses_url = refl

allows_iff_example : (allows no_ips (some listed) (codes "B:8443") ≡ true) ↔ (
    (is_pair (split_host_port (trim_space (codes "B:8443"))) ≡ true)
    × ((d : Destination) × (parse_destination no_ips (codes "B:8443") ≡ ok d)
        × Names no_ips entries d))
allows_iff_example = allows_iff no_ips entries listed (codes "B:8443") entries_parse
