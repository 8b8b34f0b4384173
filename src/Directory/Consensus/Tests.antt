-- ===== src/Directory/Consensus/Tests.antt =====
-- A consensus of one relay and two authorities, under toy libraries: base64 moves each byte up by
-- 128, a time is its decimal, and a signature is 64 copies of the key's first byte.
use osanwe.Prelude.{
  ℕ, zero, suc, ◌+◌, ◌-◌, ◌≤◌, ◌≡◌, refl, Bool, true, false, ◌&&◌, Option, none, some, List, [],
  ◌∷◌, ◌++◌, length, leb, if◌then◌else◌, All, arith,
}
use osanwe.Prelude.Go.{ok, err}
use osanwe.Prelude.Text.{codes, bytes_eq, digits_of}
use osanwe.Directory.{Libraries, encode_key, too_few_signatures, pin_prefix, key_prefix}
use osanwe.Directory.Descriptor.{Descriptor, descriptor_body}
use osanwe.Directory.Consensus.{Consensus, consensus_body, decimal}
use osanwe.Directory.Consensus.Parse.{Signatures, parse_consensus}
use osanwe.Directory.Consensus.Threshold.{IsAgreed, parse_consensus-IsAgreed}

unfoldable pub raise : List ℕ → List ℕ
raise [] = []
raise (b ∷ bs) = (b + 128) ∷ raise bs

unfoldable pub lowered : ℕ → Option (List ℕ) → Option (List ℕ)
lowered c none = none
lowered c (some bs) = if leb 128 c then some ((c - 128) ∷ bs) else none

unfoldable pub drop_down : List ℕ → Option (List ℕ)
unfolding lowered
drop_down [] = some []
drop_down (c ∷ cs) = lowered c (drop_down cs)

unfoldable pub copies : ℕ → ℕ → List ℕ
copies zero b = []
copies (suc n) b = b ∷ copies n b

unfoldable pub toy_verify : List ℕ → List ℕ → List ℕ → Bool
toy_verify [] message sig = false
toy_verify (b ∷ bs) message sig = bytes_eq sig (copies 64 b)

abbrev pub toy : Libraries
toy = record {
  base64 = raise;
  from_base64 = drop_down;
  ed25519_verify = toy_verify;
  parse_time = digits_of;
  format_time = decimal;
}

abbrev pub fingerprint : ℕ → List ℕ
fingerprint b = key_prefix ++ raise (copies 32 b)

abbrev pub signature_by : ℕ → List ℕ
signature_by b = raise (copies 64 b)

abbrev pub unsigned : Descriptor
unsigned = record {
  nickname = codes "r";
  address = codes "h:9";
  tls_pin = pin_prefix ++ raise (copies 32 7);
  identity = fingerprint 3;
  destinations = codes "api:443" ∷ [];
  contact = [];
  published = 1;
  expires = 900;
  raw = none;
  signature = [];
}

abbrev pub relay : Descriptor
relay = record unsigned { raw = some (descriptor_body toy unsigned); signature = signature_by 3 }

abbrev pub agreed : Consensus
agreed = record {
  valid_after = 5;
  valid_until = 800;
  relays = relay ∷ [];
  signatures = (fingerprint 1, signature_by 1) ∷ (fingerprint 2, signature_by 2) ∷ [];
  verified_by = 2;
  raw = some (
      consensus_body toy (record {
        valid_after = 5;
        valid_until = 800;
        relays = relay ∷ [];
        signatures = [];
        verified_by = 0;
        raw = none;
      }));
}

abbrev pub signature_line : ℕ → List ℕ
signature_line b = codes "signature " ++ (fingerprint b ++ (32 ∷ signature_by b ++ 10 ∷ []))

abbrev pub document : List ℕ
document = consensus_body toy agreed ++ (signature_line 1 ++ signature_line 2)

abbrev pub authorities : Signatures
authorities =
    (fingerprint 1, copies 32 1) ∷ (fingerprint 2, copies 32 2) ∷ (fingerprint 4, copies 32 4) ∷ []

pub document_parses : parse_consensus toy document authorities 2 100 ≡ ok agreed
unfolding parse_consensus osanwe.Directory.Consensus.Parse.split_consensus_signatures
    osanwe.Directory.Consensus.Parse.cut_first consensus_body osanwe.Prelude.Text.has_prefix
    osanwe.Directory.Descriptor.line_of decimal osanwe.Prelude.Sort.sort_by
    osanwe.Prelude.Sort.insert_by osanwe.Directory.Descriptor.encoded raise copies descriptor_body
    osanwe.Prelude.Sort.sort_strings osanwe.Prelude.Sort.sort_in
    osanwe.Directory.Consensus.Parse.read_signatures osanwe.Prelude.Text.split
    osanwe.Prelude.Text.trim_space osanwe.Directory.Consensus.Parse.add_signature
    osanwe.Directory.Consensus.Parse.count_valid osanwe.Directory.Consensus.Parse.declared
    osanwe.Directory.Consensus.Parse.is_valid osanwe.Directory.Consensus.Parse.parse_split
    osanwe.Directory.Consensus.Parse.read_entries osanwe.Directory.Consensus.Parse.read_entry
    osanwe.Directory.Consensus.Parse.read_heading osanwe.Directory.Consensus.Parse.read_relay
    osanwe.Directory.Consensus.Parse.signed_body osanwe.Directory.Consensus.digits_down
    osanwe.Directory.Consensus.fresh osanwe.Directory.Consensus.relay_line
    osanwe.Directory.Consensus.relay_lines osanwe.Directory.Consensus.validate_consensus
    osanwe.Directory.Consensus.validate_relays osanwe.Directory.Descriptor.Parse.cut_last
    osanwe.Directory.Descriptor.Parse.line_and_rest osanwe.Directory.Descriptor.Parse.moved
    osanwe.Directory.Descriptor.Parse.or_here osanwe.Directory.Descriptor.Parse.parse_descriptor
    osanwe.Directory.Descriptor.Parse.read_field osanwe.Directory.Descriptor.Parse.read_field_lines
    osanwe.Directory.Descriptor.Parse.read_version osanwe.Directory.Descriptor.Parse.set_field
    osanwe.Directory.Descriptor.Parse.signature_of osanwe.Directory.Descriptor.Parse.split_found
    osanwe.Directory.Descriptor.Parse.split_signature osanwe.Directory.Descriptor.Parse.trim_returns
    osanwe.Directory.Descriptor.contact_line osanwe.Directory.Descriptor.destination_lines
    osanwe.Directory.Descriptor.encoded_of osanwe.Directory.Descriptor.expired
    osanwe.Directory.Descriptor.has_white osanwe.Directory.Descriptor.is_pair
    osanwe.Directory.Descriptor.valid_throughout osanwe.Directory.Descriptor.validate_descriptor
    osanwe.Directory.decode_key osanwe.Directory.normalize_pin osanwe.Directory.verify_raw
    osanwe.Directory.verify_signature osanwe.Prelude.Net.cut_here osanwe.Prelude.Net.cut_last_colon
    osanwe.Prelude.Net.of_bracket osanwe.Prelude.Net.of_plain osanwe.Prelude.Net.port_behind
    osanwe.Prelude.Net.split_host_port osanwe.Prelude.Sort.before osanwe.Prelude.Table.find
    osanwe.Prelude.Table.has osanwe.Prelude.Table.put osanwe.Prelude.Text.atoi bytes_eq
    osanwe.Prelude.Text.cut osanwe.Prelude.Text.digits_from digits_of osanwe.Prelude.Text.has_byte
    osanwe.Prelude.Text.in_front osanwe.Prelude.Text.is_one_of osanwe.Prelude.Text.is_space
    osanwe.Prelude.Text.signed osanwe.Prelude.Text.trim_left osanwe.Prelude.Text.trim_prefix
    drop_down toy_verify
document_parses = refl

three_needed : parse_consensus toy document authorities 3 100 ≡ err too_few_signatures
unfolding parse_consensus osanwe.Directory.Consensus.Parse.split_consensus_signatures
    osanwe.Directory.Consensus.Parse.cut_first consensus_body osanwe.Prelude.Text.has_prefix
    osanwe.Directory.Descriptor.line_of decimal osanwe.Prelude.Sort.sort_by
    osanwe.Prelude.Sort.insert_by osanwe.Directory.Descriptor.encoded raise copies descriptor_body
    osanwe.Prelude.Sort.sort_strings osanwe.Prelude.Sort.sort_in
    osanwe.Directory.Consensus.Parse.read_signatures osanwe.Prelude.Text.split
    osanwe.Prelude.Text.trim_space osanwe.Directory.Consensus.Parse.add_signature
    osanwe.Directory.Consensus.Parse.count_valid osanwe.Directory.Consensus.Parse.declared
    osanwe.Directory.Consensus.Parse.is_valid osanwe.Directory.Consensus.Parse.parse_split
    osanwe.Directory.Consensus.Parse.read_entries osanwe.Directory.Consensus.Parse.read_entry
    osanwe.Directory.Consensus.Parse.read_heading osanwe.Directory.Consensus.Parse.read_relay
    osanwe.Directory.Consensus.Parse.signed_body osanwe.Directory.Consensus.digits_down
    osanwe.Directory.Consensus.fresh osanwe.Directory.Consensus.relay_line
    osanwe.Directory.Consensus.relay_lines osanwe.Directory.Consensus.validate_consensus
    osanwe.Directory.Consensus.validate_relays osanwe.Directory.Descriptor.Parse.cut_last
    osanwe.Directory.Descriptor.Parse.line_and_rest osanwe.Directory.Descriptor.Parse.moved
    osanwe.Directory.Descriptor.Parse.or_here osanwe.Directory.Descriptor.Parse.parse_descriptor
    osanwe.Directory.Descriptor.Parse.read_field osanwe.Directory.Descriptor.Parse.read_field_lines
    osanwe.Directory.Descriptor.Parse.read_version osanwe.Directory.Descriptor.Parse.set_field
    osanwe.Directory.Descriptor.Parse.signature_of osanwe.Directory.Descriptor.Parse.split_found
    osanwe.Directory.Descriptor.Parse.split_signature osanwe.Directory.Descriptor.Parse.trim_returns
    osanwe.Directory.Descriptor.contact_line osanwe.Directory.Descriptor.destination_lines
    osanwe.Directory.Descriptor.encoded_of osanwe.Directory.Descriptor.expired
    osanwe.Directory.Descriptor.has_white osanwe.Directory.Descriptor.is_pair
    osanwe.Directory.Descriptor.valid_throughout osanwe.Directory.Descriptor.validate_descriptor
    osanwe.Directory.decode_key osanwe.Directory.normalize_pin osanwe.Directory.verify_raw
    osanwe.Directory.verify_signature osanwe.Prelude.Net.cut_here osanwe.Prelude.Net.cut_last_colon
    osanwe.Prelude.Net.of_bracket osanwe.Prelude.Net.of_plain osanwe.Prelude.Net.port_behind
    osanwe.Prelude.Net.split_host_port osanwe.Prelude.Sort.before osanwe.Prelude.Table.find
    osanwe.Prelude.Table.has osanwe.Prelude.Table.put osanwe.Prelude.Text.atoi bytes_eq
    osanwe.Prelude.Text.cut osanwe.Prelude.Text.digits_from digits_of osanwe.Prelude.Text.has_byte
    osanwe.Prelude.Text.in_front osanwe.Prelude.Text.is_one_of osanwe.Prelude.Text.is_space
    osanwe.Prelude.Text.signed osanwe.Prelude.Text.trim_left osanwe.Prelude.Text.trim_prefix
    drop_down toy_verify
three_needed = refl

parse_consensus-IsAgreed_example : IsAgreed toy authorities 2 100 agreed
parse_consensus-IsAgreed_example =
    parse_consensus-IsAgreed toy document authorities 2 100 agreed document_parses
