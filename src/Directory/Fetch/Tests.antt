-- ===== src/Directory/Fetch/Tests.antt =====
-- Two endpoints, of which the first one answers with an error.
use osanwe.Prelude.{◌≡◌, refl, true, false, Option, none, some, List, [], ◌∷◌}
use osanwe.Prelude.Go.{ok, err}
use osanwe.Directory.{unreachable}
use osanwe.Directory.Consensus.Tests.{toy, document, authorities, agreed}
use osanwe.Directory.Fetch.{Response, Endpoint, Fetcher, fetch_newer}
use osanwe.Directory.Fetch.Newest.{IsNewer, fetch_newer-IsNewer}

abbrev fetcher : Fetcher
fetcher = record { authorities = authorities; threshold = 2 }

abbrev failing : Endpoint
failing = record {
  response = some (record { status = 503; body = []; body_fails = false });
  asked_at = 90;
}

abbrev answering : Endpoint
answering = record {
  response = some (record { status = 200; body = document; body_fails = false });
  asked_at = 100;
}

second_answers : fetch_newer toy fetcher 5 (failing ∷ answering ∷ []) ≡ ok agreed
unfolding fetch_newer osanwe.Directory.Fetch.fetch_one osanwe.Directory.Fetch.read_response
    osanwe.Directory.Consensus.consensus_body osanwe.Directory.Descriptor.line_of
    osanwe.Directory.Consensus.decimal osanwe.Prelude.Sort.sort_by osanwe.Prelude.Sort.insert_by
    osanwe.Directory.Descriptor.encoded osanwe.Directory.Consensus.Tests.raise
    osanwe.Directory.Consensus.Tests.copies osanwe.Directory.Descriptor.descriptor_body
    osanwe.Prelude.Sort.sort_strings osanwe.Prelude.Sort.sort_in
    osanwe.Directory.Consensus.Parse.parse_consensus
    osanwe.Directory.Consensus.Parse.split_consensus_signatures
    osanwe.Directory.Consensus.Parse.cut_first osanwe.Prelude.Text.has_prefix
    osanwe.Directory.Consensus.Parse.read_signatures osanwe.Prelude.Text.split
    osanwe.Prelude.Text.trim_space osanwe.Prelude.Text.trim_left osanwe.Prelude.Text.is_space
    osanwe.Prelude.Text.cut osanwe.Prelude.Text.trim_prefix osanwe.Prelude.Table.has
    osanwe.Prelude.Table.put osanwe.Prelude.Text.bytes_eq
    osanwe.Directory.Consensus.Parse.read_heading osanwe.Directory.Descriptor.Parse.trim_returns
    osanwe.Directory.Consensus.Parse.read_entries osanwe.Directory.Consensus.Parse.read_entry
    osanwe.Prelude.Text.is_one_of osanwe.Directory.Consensus.Parse.add_signature
    osanwe.Directory.Consensus.Parse.count_valid osanwe.Directory.Consensus.Parse.declared
    osanwe.Directory.Consensus.Parse.is_valid osanwe.Directory.Consensus.Parse.parse_split
    osanwe.Directory.Consensus.Parse.read_relay osanwe.Directory.Consensus.Parse.signed_body
    osanwe.Directory.Consensus.digits_down osanwe.Directory.Consensus.fresh
    osanwe.Directory.Consensus.relay_line osanwe.Directory.Consensus.relay_lines
    osanwe.Directory.Consensus.validate_consensus osanwe.Directory.Consensus.validate_relays
    osanwe.Directory.Descriptor.Parse.cut_last osanwe.Directory.Descriptor.Parse.line_and_rest
    osanwe.Directory.Descriptor.Parse.moved osanwe.Directory.Descriptor.Parse.or_here
    osanwe.Directory.Descriptor.Parse.parse_descriptor osanwe.Directory.Descriptor.Parse.read_field
    osanwe.Directory.Descriptor.Parse.read_field_lines
    osanwe.Directory.Descriptor.Parse.read_version osanwe.Directory.Descriptor.Parse.set_field
    osanwe.Directory.Descriptor.Parse.signature_of osanwe.Directory.Descriptor.Parse.split_found
    osanwe.Directory.Descriptor.Parse.split_signature osanwe.Directory.Descriptor.contact_line
    osanwe.Directory.Descriptor.destination_lines osanwe.Directory.Descriptor.encoded_of
    osanwe.Directory.Descriptor.expired osanwe.Directory.Descriptor.has_white
    osanwe.Directory.Descriptor.is_pair osanwe.Directory.Descriptor.valid_throughout
    osanwe.Directory.Descriptor.validate_descriptor osanwe.Directory.Fetch.fetch_each
    osanwe.Directory.Fetch.of_response osanwe.Directory.decode_key osanwe.Directory.normalize_pin
    osanwe.Directory.verify_raw osanwe.Directory.verify_signature osanwe.Prelude.Net.cut_here
    osanwe.Prelude.Net.cut_last_colon osanwe.Prelude.Net.of_bracket osanwe.Prelude.Net.of_plain
    osanwe.Prelude.Net.port_behind osanwe.Prelude.Net.split_host_port osanwe.Prelude.Sort.before
    osanwe.Prelude.Table.find osanwe.Prelude.Text.atoi osanwe.Prelude.Text.digits_from
    osanwe.Prelude.Text.digits_of osanwe.Prelude.Text.has_byte osanwe.Prelude.Text.in_front
    osanwe.Prelude.Text.signed osanwe.Directory.Consensus.Tests.drop_down
    osanwe.Directory.Consensus.Tests.toy_verify
second_answers = refl

older_is_skipped : fetch_newer toy fetcher 6 (failing ∷ answering ∷ []) ≡ err unreachable
unfolding fetch_newer osanwe.Directory.Fetch.fetch_one osanwe.Directory.Fetch.read_response
    osanwe.Directory.Consensus.consensus_body osanwe.Directory.Descriptor.line_of
    osanwe.Directory.Consensus.decimal osanwe.Prelude.Sort.sort_by osanwe.Prelude.Sort.insert_by
    osanwe.Directory.Descriptor.encoded osanwe.Directory.Consensus.Tests.raise
    osanwe.Directory.Consensus.Tests.copies osanwe.Directory.Descriptor.descriptor_body
    osanwe.Prelude.Sort.sort_strings osanwe.Prelude.Sort.sort_in
    osanwe.Directory.Consensus.Parse.parse_consensus
    osanwe.Directory.Consensus.Parse.split_consensus_signatures
    osanwe.Directory.Consensus.Parse.cut_first osanwe.Prelude.Text.has_prefix
    osanwe.Directory.Consensus.Parse.read_signatures osanwe.Prelude.Text.split
    osanwe.Prelude.Text.trim_space osanwe.Prelude.Text.trim_left osanwe.Prelude.Text.is_space
    osanwe.Prelude.Text.cut osanwe.Prelude.Text.trim_prefix osanwe.Prelude.Table.has
    osanwe.Prelude.Table.put osanwe.Prelude.Text.bytes_eq
    osanwe.Directory.Consensus.Parse.read_heading osanwe.Directory.Descriptor.Parse.trim_returns
    osanwe.Directory.Consensus.Parse.read_entries osanwe.Directory.Consensus.Parse.read_entry
    osanwe.Prelude.Text.is_one_of osanwe.Directory.Consensus.Parse.add_signature
    osanwe.Directory.Consensus.Parse.count_valid osanwe.Directory.Consensus.Parse.declared
    osanwe.Directory.Consensus.Parse.is_valid osanwe.Directory.Consensus.Parse.parse_split
    osanwe.Directory.Consensus.Parse.read_relay osanwe.Directory.Consensus.Parse.signed_body
    osanwe.Directory.Consensus.digits_down osanwe.Directory.Consensus.fresh
    osanwe.Directory.Consensus.relay_line osanwe.Directory.Consensus.relay_lines
    osanwe.Directory.Consensus.validate_consensus osanwe.Directory.Consensus.validate_relays
    osanwe.Directory.Descriptor.Parse.cut_last osanwe.Directory.Descriptor.Parse.line_and_rest
    osanwe.Directory.Descriptor.Parse.moved osanwe.Directory.Descriptor.Parse.or_here
    osanwe.Directory.Descriptor.Parse.parse_descriptor osanwe.Directory.Descriptor.Parse.read_field
    osanwe.Directory.Descriptor.Parse.read_field_lines
    osanwe.Directory.Descriptor.Parse.read_version osanwe.Directory.Descriptor.Parse.set_field
    osanwe.Directory.Descriptor.Parse.signature_of osanwe.Directory.Descriptor.Parse.split_found
    osanwe.Directory.Descriptor.Parse.split_signature osanwe.Directory.Descriptor.contact_line
    osanwe.Directory.Descriptor.destination_lines osanwe.Directory.Descriptor.encoded_of
    osanwe.Directory.Descriptor.expired osanwe.Directory.Descriptor.has_white
    osanwe.Directory.Descriptor.is_pair osanwe.Directory.Descriptor.valid_throughout
    osanwe.Directory.Descriptor.validate_descriptor osanwe.Directory.Fetch.fetch_each
    osanwe.Directory.Fetch.of_response osanwe.Directory.decode_key osanwe.Directory.normalize_pin
    osanwe.Directory.verify_raw osanwe.Directory.verify_signature osanwe.Prelude.Net.cut_here
    osanwe.Prelude.Net.cut_last_colon osanwe.Prelude.Net.of_bracket osanwe.Prelude.Net.of_plain
    osanwe.Prelude.Net.port_behind osanwe.Prelude.Net.split_host_port osanwe.Prelude.Sort.before
    osanwe.Prelude.Table.find osanwe.Prelude.Text.atoi osanwe.Prelude.Text.digits_from
    osanwe.Prelude.Text.digits_of osanwe.Prelude.Text.has_byte osanwe.Prelude.Text.in_front
    osanwe.Prelude.Text.signed osanwe.Directory.Consensus.Tests.drop_down
    osanwe.Directory.Consensus.Tests.toy_verify
older_is_skipped = refl

fetch_newer-IsNewer_example : IsNewer toy fetcher 5 (failing ∷ answering ∷ []) agreed
fetch_newer-IsNewer_example =
    fetch_newer-IsNewer toy fetcher 5 (failing ∷ answering ∷ []) agreed second_answers
