-- ===== src/Directory/Workflow/Tests.antt =====
-- Two authorities merge the consensus of one relay, and a third one co-signs it.
use osanwe.Prelude.{ℕ, ◌≡◌, refl, Bool, true, false, Option, none, some, List, [], ◌∷◌, ◌++◌}
use osanwe.Prelude.Go.{ok, err}
use osanwe.Directory.{other_body, no_identity, too_few_signatures}
use osanwe.Directory.Descriptor.{Descriptor, descriptor_body}
use osanwe.Directory.Consensus.{Consensus, consensus_body}
use osanwe.Directory.Consensus.Parse.{parse_consensus}
use osanwe.Directory.Consensus.Tests.{
  toy, agreed, document, authorities, fingerprint, signature_by, signature_line, copies, unsigned,
}
use osanwe.Directory.Workflow.{
  EpochSettings, Signer, unsigned_consensus, prepare_consensus_co_sign, merge_consensus,
}
use osanwe.Directory.Workflow.Agreement.{IsApproved, prepare_consensus_co_sign-IsApproved}
use osanwe.Directory.Workflow.Merge.{IsMerge, merge_consensus-IsMerge}

abbrev half : ℕ → List ℕ
half b = consensus_body toy agreed ++ signature_line b

abbrev halves : List (List ℕ)
halves = half 1 ∷ half 2 ∷ []

merges : merge_consensus toy halves authorities 2 100 ≡ ok document
unfolding merge_consensus osanwe.Prelude.Text.bytes_eq osanwe.Directory.encode_key
    osanwe.Directory.Consensus.Tests.raise copies
    osanwe.Directory.Consensus.Parse.split_consensus_signatures
    osanwe.Directory.Consensus.Parse.cut_first consensus_body osanwe.Prelude.Text.has_prefix
    osanwe.Directory.Descriptor.line_of osanwe.Directory.Consensus.decimal
    osanwe.Prelude.Sort.sort_by osanwe.Prelude.Sort.insert_by osanwe.Directory.Descriptor.encoded
    descriptor_body osanwe.Prelude.Sort.sort_strings osanwe.Prelude.Sort.sort_in
    osanwe.Directory.Consensus.Parse.read_signatures osanwe.Prelude.Text.split
    osanwe.Prelude.Text.trim_space osanwe.Prelude.Text.trim_left osanwe.Prelude.Text.is_space
    osanwe.Prelude.Text.cut osanwe.Prelude.Text.trim_prefix osanwe.Prelude.Table.has
    osanwe.Prelude.Table.put osanwe.Directory.decode_key osanwe.Directory.Consensus.Tests.drop_down
    osanwe.Directory.Consensus.Parse.parse_consensus osanwe.Directory.Consensus.Parse.read_heading
    osanwe.Directory.Descriptor.Parse.trim_returns osanwe.Directory.Consensus.Parse.read_entries
    osanwe.Directory.Consensus.Parse.read_entry osanwe.Prelude.Text.is_one_of
    osanwe.Prelude.Text.digits_of osanwe.Prelude.Text.digits_from osanwe.Prelude.Text.atoi
    osanwe.Prelude.Text.signed osanwe.Directory.Descriptor.Parse.parse_descriptor
    osanwe.Directory.Descriptor.Parse.split_signature osanwe.Directory.Descriptor.Parse.cut_last
    osanwe.Directory.Descriptor.Parse.read_version
    osanwe.Directory.Descriptor.Parse.read_field_lines osanwe.Directory.Descriptor.Parse.read_field
    osanwe.Directory.Descriptor.validate_descriptor osanwe.Prelude.Text.has_byte
    osanwe.Prelude.Net.split_host_port osanwe.Prelude.Net.cut_last_colon
    osanwe.Directory.normalize_pin osanwe.Directory.Consensus.Parse.add_signature
    osanwe.Directory.Consensus.Parse.count_valid osanwe.Directory.Consensus.Parse.declared
    osanwe.Directory.Consensus.Parse.is_valid osanwe.Directory.Consensus.Parse.parse_split
    osanwe.Directory.Consensus.Parse.read_relay osanwe.Directory.Consensus.Parse.signed_body
    osanwe.Directory.Consensus.Tests.lowered osanwe.Directory.Consensus.digits_down
    osanwe.Directory.Consensus.encode_consensus osanwe.Directory.Consensus.encode_signature
    osanwe.Directory.Consensus.encode_signatures osanwe.Directory.Consensus.fresh
    osanwe.Directory.Consensus.has_changed osanwe.Directory.Consensus.keys_of
    osanwe.Directory.Consensus.relay_line osanwe.Directory.Consensus.relay_lines
    osanwe.Directory.Consensus.signature_text osanwe.Directory.Consensus.validate_consensus
    osanwe.Directory.Consensus.validate_relays osanwe.Directory.Descriptor.Parse.line_and_rest
    osanwe.Directory.Descriptor.Parse.moved osanwe.Directory.Descriptor.Parse.or_here
    osanwe.Directory.Descriptor.Parse.set_field osanwe.Directory.Descriptor.Parse.signature_of
    osanwe.Directory.Descriptor.Parse.split_found osanwe.Directory.Descriptor.contact_line
    osanwe.Directory.Descriptor.destination_lines osanwe.Directory.Descriptor.encoded_of
    osanwe.Directory.Descriptor.expired osanwe.Directory.Descriptor.has_white
    osanwe.Directory.Descriptor.is_pair osanwe.Directory.Descriptor.valid_throughout
    osanwe.Directory.Workflow.are_authorized osanwe.Directory.Workflow.combine
    osanwe.Directory.Workflow.conflicts osanwe.Directory.Workflow.encode_merged
    osanwe.Directory.Workflow.keys_match osanwe.Directory.Workflow.merge_parts
    osanwe.Directory.Workflow.parse_consensus_partial osanwe.Directory.Workflow.same_as_base
    osanwe.Directory.Workflow.same_raw osanwe.Directory.Workflow.self_declared
    osanwe.Directory.Workflow.validate_authority_set osanwe.Directory.verify_raw
    osanwe.Directory.verify_signature osanwe.Prelude.Net.cut_here osanwe.Prelude.Net.of_bracket
    osanwe.Prelude.Net.of_plain osanwe.Prelude.Net.port_behind osanwe.Prelude.Sort.before
    osanwe.Prelude.Table.find osanwe.Prelude.Text.in_front
    osanwe.Directory.Consensus.Tests.toy_verify
merges = refl

one_is_too_few :
    merge_consensus toy (half 1 ∷ half 1 ∷ []) authorities 2 100 ≡ err too_few_signatures
unfolding merge_consensus osanwe.Prelude.Text.bytes_eq osanwe.Directory.encode_key
    osanwe.Directory.Consensus.Tests.raise copies
    osanwe.Directory.Consensus.Parse.split_consensus_signatures
    osanwe.Directory.Consensus.Parse.cut_first consensus_body osanwe.Prelude.Text.has_prefix
    osanwe.Directory.Descriptor.line_of osanwe.Directory.Consensus.decimal
    osanwe.Prelude.Sort.sort_by osanwe.Prelude.Sort.insert_by osanwe.Directory.Descriptor.encoded
    descriptor_body osanwe.Prelude.Sort.sort_strings osanwe.Prelude.Sort.sort_in
    osanwe.Directory.Consensus.Parse.read_signatures osanwe.Prelude.Text.split
    osanwe.Prelude.Text.trim_space osanwe.Prelude.Text.trim_left osanwe.Prelude.Text.is_space
    osanwe.Prelude.Text.cut osanwe.Prelude.Text.trim_prefix osanwe.Prelude.Table.has
    osanwe.Prelude.Table.put osanwe.Directory.decode_key osanwe.Directory.Consensus.Tests.drop_down
    osanwe.Directory.Consensus.Parse.parse_consensus osanwe.Directory.Consensus.Parse.read_heading
    osanwe.Directory.Descriptor.Parse.trim_returns osanwe.Directory.Consensus.Parse.read_entries
    osanwe.Directory.Consensus.Parse.read_entry osanwe.Prelude.Text.is_one_of
    osanwe.Prelude.Text.digits_of osanwe.Prelude.Text.digits_from osanwe.Prelude.Text.atoi
    osanwe.Prelude.Text.signed osanwe.Directory.Descriptor.Parse.parse_descriptor
    osanwe.Directory.Descriptor.Parse.split_signature osanwe.Directory.Descriptor.Parse.cut_last
    osanwe.Directory.Descriptor.Parse.read_version
    osanwe.Directory.Descriptor.Parse.read_field_lines osanwe.Directory.Descriptor.Parse.read_field
    osanwe.Directory.Descriptor.validate_descriptor osanwe.Prelude.Text.has_byte
    osanwe.Prelude.Net.split_host_port osanwe.Prelude.Net.cut_last_colon
    osanwe.Directory.normalize_pin osanwe.Directory.Consensus.Parse.add_signature
    osanwe.Directory.Consensus.Parse.count_valid osanwe.Directory.Consensus.Parse.declared
    osanwe.Directory.Consensus.Parse.is_valid osanwe.Directory.Consensus.Parse.parse_split
    osanwe.Directory.Consensus.Parse.read_relay osanwe.Directory.Consensus.Parse.signed_body
    osanwe.Directory.Consensus.Tests.lowered osanwe.Directory.Consensus.digits_down
    osanwe.Directory.Consensus.encode_consensus osanwe.Directory.Consensus.encode_signature
    osanwe.Directory.Consensus.encode_signatures osanwe.Directory.Consensus.fresh
    osanwe.Directory.Consensus.has_changed osanwe.Directory.Consensus.keys_of
    osanwe.Directory.Consensus.relay_line osanwe.Directory.Consensus.relay_lines
    osanwe.Directory.Consensus.signature_text osanwe.Directory.Consensus.validate_consensus
    osanwe.Directory.Consensus.validate_relays osanwe.Directory.Descriptor.Parse.line_and_rest
    osanwe.Directory.Descriptor.Parse.moved osanwe.Directory.Descriptor.Parse.or_here
    osanwe.Directory.Descriptor.Parse.set_field osanwe.Directory.Descriptor.Parse.signature_of
    osanwe.Directory.Descriptor.Parse.split_found osanwe.Directory.Descriptor.contact_line
    osanwe.Directory.Descriptor.destination_lines osanwe.Directory.Descriptor.encoded_of
    osanwe.Directory.Descriptor.expired osanwe.Directory.Descriptor.has_white
    osanwe.Directory.Descriptor.is_pair osanwe.Directory.Descriptor.valid_throughout
    osanwe.Directory.Workflow.are_authorized osanwe.Directory.Workflow.combine
    osanwe.Directory.Workflow.conflicts osanwe.Directory.Workflow.encode_merged
    osanwe.Directory.Workflow.keys_match osanwe.Directory.Workflow.merge_parts
    osanwe.Directory.Workflow.parse_consensus_partial osanwe.Directory.Workflow.same_as_base
    osanwe.Directory.Workflow.same_raw osanwe.Directory.Workflow.self_declared
    osanwe.Directory.Workflow.validate_authority_set osanwe.Directory.verify_raw
    osanwe.Directory.verify_signature osanwe.Prelude.Net.cut_here osanwe.Prelude.Net.of_bracket
    osanwe.Prelude.Net.of_plain osanwe.Prelude.Net.port_behind osanwe.Prelude.Sort.before
    osanwe.Prelude.Table.find osanwe.Prelude.Text.in_front
    osanwe.Directory.Consensus.Tests.toy_verify
one_is_too_few = refl

merge_consensus-IsMerge_example : IsMerge toy authorities 100 halves 2 document
merge_consensus-IsMerge_example =
    merge_consensus-IsMerge toy authorities 100 halves 2 document merges

abbrev settings : EpochSettings
settings = record { epoch = 1000000000; lifetime = 3000000000 }

abbrev lasting : Descriptor
lasting = record unsigned { expires = 90000000000 }

abbrev local_relay : Descriptor
local_relay = record lasting {
  raw = some (descriptor_body toy lasting);
  signature = signature_by 3;
}

abbrev local_body : List ℕ
local_body = consensus_body toy (unsigned_consensus (local_relay ∷ []) 2000000000 5000000000)

abbrev partial : List ℕ
partial = local_body ++ signature_line 1

abbrev third : Signer
third = record { public = copies 32 4; private = copies 64 4; sign = λ message. signature_by 4 }

nobody_signs :
    prepare_consensus_co_sign toy partial none (local_relay ∷ []) authorities 2500000000 settings
    ≡ err no_identity
unfolding prepare_consensus_co_sign osanwe.Prelude.Text.bytes_eq osanwe.Directory.encode_key
    osanwe.Directory.Consensus.Tests.raise copies
nobody_signs = refl

abbrev candidate : Consensus
candidate = record {
  valid_after = 2000000000;
  valid_until = 5000000000;
  relays = local_relay ∷ [];
  signatures = (fingerprint 1, signature_by 1) ∷ [];
  verified_by = 1;
  raw = some local_body;
}

approves :
    prepare_consensus_co_sign toy partial
      (some third)
      (local_relay ∷ [])
      authorities
      2500000000
      settings
    ≡ ok candidate
unfolding prepare_consensus_co_sign osanwe.Prelude.Text.bytes_eq osanwe.Directory.encode_key
    osanwe.Directory.Consensus.Tests.raise copies osanwe.Prelude.Table.find
    osanwe.Directory.Consensus.Parse.split_consensus_signatures
    osanwe.Directory.Consensus.Parse.cut_first consensus_body osanwe.Prelude.Text.has_prefix
    osanwe.Directory.Descriptor.line_of osanwe.Directory.Consensus.decimal
    osanwe.Prelude.Sort.sort_by osanwe.Prelude.Sort.insert_by osanwe.Directory.Descriptor.encoded
    descriptor_body osanwe.Prelude.Sort.sort_strings osanwe.Prelude.Sort.sort_in
    osanwe.Directory.Consensus.Parse.read_signatures osanwe.Prelude.Text.split
    osanwe.Prelude.Text.trim_space osanwe.Prelude.Text.trim_left osanwe.Prelude.Text.is_space
    osanwe.Prelude.Text.cut osanwe.Prelude.Text.trim_prefix osanwe.Prelude.Table.has
    osanwe.Prelude.Table.put osanwe.Directory.decode_key osanwe.Directory.Consensus.Tests.drop_down
    parse_consensus osanwe.Directory.Consensus.Parse.read_heading
    osanwe.Directory.Descriptor.Parse.trim_returns osanwe.Directory.Consensus.Parse.read_entries
    osanwe.Directory.Consensus.Parse.add_signature osanwe.Directory.Consensus.Parse.count_valid
    osanwe.Directory.Consensus.Parse.declared osanwe.Directory.Consensus.Parse.is_valid
    osanwe.Directory.Consensus.Parse.parse_split osanwe.Directory.Consensus.Parse.read_entry
    osanwe.Directory.Consensus.Parse.read_relay osanwe.Directory.Consensus.Parse.signed_body
    osanwe.Directory.Consensus.Tests.lowered osanwe.Directory.Consensus.digits_down
    osanwe.Directory.Consensus.fresh osanwe.Directory.Consensus.relay_line
    osanwe.Directory.Consensus.relay_lines osanwe.Directory.Consensus.validate_consensus
    osanwe.Directory.Consensus.validate_relays osanwe.Directory.Descriptor.Parse.cut_last
    osanwe.Directory.Descriptor.Parse.line_and_rest osanwe.Directory.Descriptor.Parse.moved
    osanwe.Directory.Descriptor.Parse.or_here osanwe.Directory.Descriptor.Parse.parse_descriptor
    osanwe.Directory.Descriptor.Parse.read_field osanwe.Directory.Descriptor.Parse.read_field_lines
    osanwe.Directory.Descriptor.Parse.read_version osanwe.Directory.Descriptor.Parse.set_field
    osanwe.Directory.Descriptor.Parse.signature_of osanwe.Directory.Descriptor.Parse.split_found
    osanwe.Directory.Descriptor.Parse.split_signature osanwe.Directory.Descriptor.contact_line
    osanwe.Directory.Descriptor.destination_lines osanwe.Directory.Descriptor.encoded_of
    osanwe.Directory.Descriptor.expired osanwe.Directory.Descriptor.has_white
    osanwe.Directory.Descriptor.is_pair osanwe.Directory.Descriptor.valid_throughout
    osanwe.Directory.Descriptor.validate_descriptor osanwe.Directory.Workflow.are_authorized
    osanwe.Directory.Workflow.authority_can_sign osanwe.Directory.Workflow.is_body
    osanwe.Directory.Workflow.is_trusted osanwe.Directory.Workflow.keys_match
    osanwe.Directory.Workflow.parse_consensus_partial osanwe.Directory.Workflow.self_declared
    osanwe.Directory.Workflow.truncate osanwe.Directory.Workflow.validate_authority_set
    osanwe.Directory.Workflow.validate_consensus_epoch
    osanwe.Directory.Workflow.validate_epoch_settings osanwe.Directory.normalize_pin
    osanwe.Directory.verify_raw osanwe.Directory.verify_signature osanwe.Prelude.Net.cut_here
    osanwe.Prelude.Net.cut_last_colon osanwe.Prelude.Net.of_bracket osanwe.Prelude.Net.of_plain
    osanwe.Prelude.Net.port_behind osanwe.Prelude.Net.split_host_port osanwe.Prelude.Sort.before
    osanwe.Prelude.Text.atoi osanwe.Prelude.Text.digits_from osanwe.Prelude.Text.digits_of
    osanwe.Prelude.Text.has_byte osanwe.Prelude.Text.in_front osanwe.Prelude.Text.is_one_of
    osanwe.Prelude.Text.signed osanwe.Directory.Consensus.Tests.toy_verify
approves = refl

needs_same_relays :
    prepare_consensus_co_sign toy partial (some third) [] authorities 2500000000 settings
    ≡ err other_body
unfolding prepare_consensus_co_sign osanwe.Prelude.Text.bytes_eq osanwe.Directory.encode_key
    osanwe.Directory.Consensus.Tests.raise copies osanwe.Prelude.Table.find
    osanwe.Directory.Consensus.Parse.split_consensus_signatures
    osanwe.Directory.Consensus.Parse.cut_first consensus_body osanwe.Prelude.Text.has_prefix
    osanwe.Directory.Descriptor.line_of osanwe.Directory.Consensus.decimal
    osanwe.Prelude.Sort.sort_by osanwe.Prelude.Sort.insert_by osanwe.Directory.Descriptor.encoded
    descriptor_body osanwe.Prelude.Sort.sort_strings osanwe.Prelude.Sort.sort_in
    osanwe.Directory.Consensus.Parse.read_signatures osanwe.Prelude.Text.split
    osanwe.Prelude.Text.trim_space osanwe.Prelude.Text.trim_left osanwe.Prelude.Text.is_space
    osanwe.Prelude.Text.cut osanwe.Prelude.Text.trim_prefix osanwe.Prelude.Table.has
    osanwe.Prelude.Table.put osanwe.Directory.decode_key osanwe.Directory.Consensus.Tests.drop_down
    parse_consensus osanwe.Directory.Consensus.Parse.read_heading
    osanwe.Directory.Descriptor.Parse.trim_returns osanwe.Directory.Consensus.Parse.read_entries
    osanwe.Directory.Consensus.Parse.add_signature osanwe.Directory.Consensus.Parse.count_valid
    osanwe.Directory.Consensus.Parse.declared osanwe.Directory.Consensus.Parse.is_valid
    osanwe.Directory.Consensus.Parse.parse_split osanwe.Directory.Consensus.Parse.read_entry
    osanwe.Directory.Consensus.Parse.read_relay osanwe.Directory.Consensus.Parse.signed_body
    osanwe.Directory.Consensus.Tests.lowered osanwe.Directory.Consensus.digits_down
    osanwe.Directory.Consensus.fresh osanwe.Directory.Consensus.relay_line
    osanwe.Directory.Consensus.relay_lines osanwe.Directory.Consensus.validate_consensus
    osanwe.Directory.Consensus.validate_relays osanwe.Directory.Descriptor.Parse.cut_last
    osanwe.Directory.Descriptor.Parse.line_and_rest osanwe.Directory.Descriptor.Parse.moved
    osanwe.Directory.Descriptor.Parse.or_here osanwe.Directory.Descriptor.Parse.parse_descriptor
    osanwe.Directory.Descriptor.Parse.read_field osanwe.Directory.Descriptor.Parse.read_field_lines
    osanwe.Directory.Descriptor.Parse.read_version osanwe.Directory.Descriptor.Parse.set_field
    osanwe.Directory.Descriptor.Parse.signature_of osanwe.Directory.Descriptor.Parse.split_found
    osanwe.Directory.Descriptor.Parse.split_signature osanwe.Directory.Descriptor.contact_line
    osanwe.Directory.Descriptor.destination_lines osanwe.Directory.Descriptor.encoded_of
    osanwe.Directory.Descriptor.expired osanwe.Directory.Descriptor.has_white
    osanwe.Directory.Descriptor.is_pair osanwe.Directory.Descriptor.valid_throughout
    osanwe.Directory.Descriptor.validate_descriptor osanwe.Directory.Workflow.are_authorized
    osanwe.Directory.Workflow.authority_can_sign osanwe.Directory.Workflow.is_body
    osanwe.Directory.Workflow.is_trusted osanwe.Directory.Workflow.keys_match
    osanwe.Directory.Workflow.parse_consensus_partial osanwe.Directory.Workflow.self_declared
    osanwe.Directory.Workflow.truncate osanwe.Directory.Workflow.validate_authority_set
    osanwe.Directory.Workflow.validate_consensus_epoch
    osanwe.Directory.Workflow.validate_epoch_settings osanwe.Directory.normalize_pin
    osanwe.Directory.verify_raw osanwe.Directory.verify_signature osanwe.Prelude.Net.cut_here
    osanwe.Prelude.Net.cut_last_colon osanwe.Prelude.Net.of_bracket osanwe.Prelude.Net.of_plain
    osanwe.Prelude.Net.port_behind osanwe.Prelude.Net.split_host_port osanwe.Prelude.Sort.before
    osanwe.Prelude.Text.atoi osanwe.Prelude.Text.digits_from osanwe.Prelude.Text.digits_of
    osanwe.Prelude.Text.has_byte osanwe.Prelude.Text.in_front osanwe.Prelude.Text.is_one_of
    osanwe.Prelude.Text.signed osanwe.Directory.Consensus.Tests.toy_verify
needs_same_relays = refl

prepare_consensus_co_sign-IsApproved_example :
    (s : Signer) × (some third ≡ some s)
    × IsApproved toy s (local_relay ∷ []) authorities 2500000000 settings candidate
prepare_consensus_co_sign-IsApproved_example =
    prepare_consensus_co_sign-IsApproved toy partial (some third) (local_relay ∷ []) authorities
      2500000000 settings candidate approves
