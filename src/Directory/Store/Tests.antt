-- ===== src/Directory/Store/Tests.antt =====
-- One relay that publishes twice, with another relay in between. A hash is the text itself.
use osanwe.Prelude.{ℕ, ◌≡◌, ◌<◌, refl, true, false, Option, none, some, List, [], ◌∷◌, ◌++◌, take}
use osanwe.Prelude.Go.{ok, err}
use osanwe.Prelude.Text.{codes}
use osanwe.Directory.{key_prefix, stale_descriptor}
use osanwe.Directory.Descriptor.{Descriptor, descriptor_body}
use osanwe.Directory.Descriptor.Parse.{parse_descriptor}
use osanwe.Directory.Consensus.Tests.{toy, unsigned, fingerprint, signature_by}
use osanwe.Directory.Store.{to_second, put_descriptor}
use osanwe.Directory.Store.Monotone.{Submission, put_one, put_all, put_never_back}

-- The 9th byte of the text and those behind it: the key without its prefix.
abbrev key_text : List ℕ → List ℕ
key_text (a ∷ b ∷ c ∷ d ∷ e ∷ f ∷ g ∷ h ∷ rest) = rest
key_text _ = []

abbrev published_at : ℕ → ℕ → Descriptor
published_at b at = record unsigned {
  identity = fingerprint b;
  published = at;
  expires = 90000000000;
}

abbrev signed_by : ℕ → ℕ → Descriptor
signed_by b at = record (published_at b at) {
  raw = some (descriptor_body toy (published_at b at));
  signature = signature_by b;
}

abbrev document_of : ℕ → ℕ → List ℕ
document_of b at =
    descriptor_body toy (published_at b at) ++ (codes "signature " ++ (signature_by b ++ 10 ∷ []))

abbrev submission : ℕ → ℕ → Submission
submission b at = record {
  accepted = some ((fingerprint 3, []) ∷ (fingerprint 5, []) ∷ []);
  descriptor = signed_by b at;
  bytes = document_of b at;
  now = 4000000000;
  reads = true;
  writes = true;
}

abbrev first_one : Submission
first_one = submission 3 1500000000

abbrev between : Submission
between = submission 5 1000000000

abbrev second_one : Submission
second_one = submission 3 2500000000

first_is_faithful : parse_descriptor toy (document_of 3 1500000000) ≡ ok (signed_by 3 1500000000)
unfolding parse_descriptor osanwe.Directory.Descriptor.Parse.split_signature
    osanwe.Directory.Descriptor.Parse.cut_last descriptor_body
    osanwe.Directory.Consensus.Tests.raise osanwe.Directory.Consensus.Tests.copies
    osanwe.Prelude.Sort.sort_strings osanwe.Prelude.Sort.sort_in osanwe.Directory.Consensus.decimal
    osanwe.Prelude.Text.has_prefix osanwe.Prelude.Text.trim_space osanwe.Prelude.Text.trim_left
    osanwe.Prelude.Text.trim_prefix osanwe.Prelude.Text.cut osanwe.Prelude.Text.is_space
    osanwe.Directory.Descriptor.Parse.read_version osanwe.Prelude.Text.split
    osanwe.Directory.Consensus.digits_down osanwe.Directory.Descriptor.Parse.line_and_rest
    osanwe.Directory.Descriptor.Parse.moved osanwe.Directory.Descriptor.Parse.or_here
    osanwe.Directory.Descriptor.Parse.read_field osanwe.Directory.Descriptor.Parse.read_field_lines
    osanwe.Directory.Descriptor.Parse.set_field osanwe.Directory.Descriptor.Parse.signature_of
    osanwe.Directory.Descriptor.Parse.split_found osanwe.Directory.Descriptor.Parse.trim_returns
    osanwe.Directory.Descriptor.contact_line osanwe.Directory.Descriptor.destination_lines
    osanwe.Directory.Descriptor.has_white osanwe.Directory.Descriptor.is_pair
    osanwe.Directory.Descriptor.line_of osanwe.Directory.Descriptor.validate_descriptor
    osanwe.Directory.decode_key osanwe.Directory.normalize_pin osanwe.Directory.verify_raw
    osanwe.Directory.verify_signature osanwe.Prelude.Net.cut_here osanwe.Prelude.Net.cut_last_colon
    osanwe.Prelude.Net.of_bracket osanwe.Prelude.Net.of_plain osanwe.Prelude.Net.port_behind
    osanwe.Prelude.Net.split_host_port osanwe.Prelude.Sort.before osanwe.Prelude.Text.bytes_eq
    osanwe.Prelude.Text.has_byte osanwe.Prelude.Text.in_front osanwe.Prelude.Text.is_one_of
    osanwe.Prelude.Text.digits_of osanwe.Prelude.Text.digits_from
    osanwe.Directory.Consensus.Tests.drop_down osanwe.Directory.Consensus.Tests.toy_verify
first_is_faithful = refl

between_is_faithful : parse_descriptor toy (document_of 5 1000000000) ≡ ok (signed_by 5 1000000000)
unfolding parse_descriptor osanwe.Directory.Descriptor.Parse.split_signature
    osanwe.Directory.Descriptor.Parse.cut_last descriptor_body
    osanwe.Directory.Consensus.Tests.raise osanwe.Directory.Consensus.Tests.copies
    osanwe.Prelude.Sort.sort_strings osanwe.Prelude.Sort.sort_in osanwe.Directory.Consensus.decimal
    osanwe.Prelude.Text.has_prefix osanwe.Prelude.Text.trim_space osanwe.Prelude.Text.trim_left
    osanwe.Prelude.Text.trim_prefix osanwe.Prelude.Text.cut osanwe.Prelude.Text.is_space
    osanwe.Directory.Descriptor.Parse.read_version osanwe.Prelude.Text.split
    osanwe.Directory.Consensus.digits_down osanwe.Directory.Descriptor.Parse.line_and_rest
    osanwe.Directory.Descriptor.Parse.moved osanwe.Directory.Descriptor.Parse.or_here
    osanwe.Directory.Descriptor.Parse.read_field osanwe.Directory.Descriptor.Parse.read_field_lines
    osanwe.Directory.Descriptor.Parse.set_field osanwe.Directory.Descriptor.Parse.signature_of
    osanwe.Directory.Descriptor.Parse.split_found osanwe.Directory.Descriptor.Parse.trim_returns
    osanwe.Directory.Descriptor.contact_line osanwe.Directory.Descriptor.destination_lines
    osanwe.Directory.Descriptor.has_white osanwe.Directory.Descriptor.is_pair
    osanwe.Directory.Descriptor.line_of osanwe.Directory.Descriptor.validate_descriptor
    osanwe.Directory.decode_key osanwe.Directory.normalize_pin osanwe.Directory.verify_raw
    osanwe.Directory.verify_signature osanwe.Prelude.Net.cut_here osanwe.Prelude.Net.cut_last_colon
    osanwe.Prelude.Net.of_bracket osanwe.Prelude.Net.of_plain osanwe.Prelude.Net.port_behind
    osanwe.Prelude.Net.split_host_port osanwe.Prelude.Sort.before osanwe.Prelude.Text.bytes_eq
    osanwe.Prelude.Text.has_byte osanwe.Prelude.Text.in_front osanwe.Prelude.Text.is_one_of
    osanwe.Prelude.Text.digits_of osanwe.Prelude.Text.digits_from
    osanwe.Directory.Consensus.Tests.drop_down osanwe.Directory.Consensus.Tests.toy_verify
between_is_faithful = refl

same_second_is_stale :
    (put_one toy key_text (submission 3 1900000000) (put_one toy key_text first_one []).0).1
    ≡ err stale_descriptor
unfolding put_descriptor osanwe.Directory.Store.check_put osanwe.Directory.Store.accepts
    osanwe.Prelude.Table.has osanwe.Prelude.Text.bytes_eq osanwe.Prelude.Text.trim_space
    osanwe.Prelude.Text.trim_left osanwe.Prelude.Text.is_space
    osanwe.Directory.Consensus.Tests.raise osanwe.Directory.Consensus.Tests.copies
    osanwe.Directory.Descriptor.expired osanwe.Prelude.Table.find osanwe.Prelude.Table.put
    osanwe.Directory.Store.file_for osanwe.Directory.Store.hex parse_descriptor
    osanwe.Directory.Descriptor.Parse.split_signature osanwe.Directory.Descriptor.Parse.cut_last
    osanwe.Directory.Descriptor.Parse.line_and_rest osanwe.Directory.Descriptor.Parse.moved
    osanwe.Directory.Descriptor.Parse.or_here osanwe.Directory.Descriptor.Parse.read_field
    osanwe.Directory.Descriptor.Parse.read_field_lines
    osanwe.Directory.Descriptor.Parse.read_version osanwe.Directory.Descriptor.Parse.set_field
    osanwe.Directory.Descriptor.Parse.signature_of osanwe.Directory.Descriptor.Parse.split_found
    osanwe.Directory.Descriptor.Parse.trim_returns osanwe.Directory.Descriptor.has_white
    osanwe.Directory.Descriptor.is_pair osanwe.Directory.Descriptor.validate_descriptor
    osanwe.Directory.Store.against_file osanwe.Directory.Store.against_stored
    osanwe.Directory.Store.hex_digit to_second osanwe.Directory.Store.written
    osanwe.Directory.decode_key osanwe.Directory.normalize_pin osanwe.Directory.verify_raw
    osanwe.Directory.verify_signature osanwe.Prelude.Net.cut_here osanwe.Prelude.Net.cut_last_colon
    osanwe.Prelude.Net.of_bracket osanwe.Prelude.Net.of_plain osanwe.Prelude.Net.port_behind
    osanwe.Prelude.Net.split_host_port osanwe.Prelude.Text.cut osanwe.Prelude.Text.has_byte
    osanwe.Prelude.Text.has_prefix osanwe.Prelude.Text.in_front osanwe.Prelude.Text.is_one_of
    osanwe.Prelude.Text.split osanwe.Prelude.Text.trim_prefix descriptor_body
    osanwe.Prelude.Sort.sort_strings osanwe.Prelude.Sort.sort_in osanwe.Directory.Consensus.decimal
    osanwe.Prelude.Text.digits_of osanwe.Prelude.Text.digits_from
    osanwe.Directory.Consensus.Tests.drop_down osanwe.Directory.Consensus.Tests.toy_verify
same_second_is_stale = refl

first_is_stored : (put_one toy key_text first_one []).1 ≡ ok tt
unfolding put_descriptor osanwe.Directory.Store.check_put osanwe.Directory.Store.accepts
    osanwe.Prelude.Table.has osanwe.Prelude.Text.bytes_eq osanwe.Prelude.Text.trim_space
    osanwe.Prelude.Text.trim_left osanwe.Prelude.Text.is_space
    osanwe.Directory.Consensus.Tests.raise osanwe.Directory.Consensus.Tests.copies
    osanwe.Directory.Descriptor.expired osanwe.Prelude.Table.find
first_is_stored = refl

second_is_stored :
    (put_one toy key_text second_one
      (put_all toy key_text (between ∷ []) (put_one toy key_text first_one []).0)).1
    ≡ ok tt
unfolding put_descriptor osanwe.Directory.Store.check_put osanwe.Directory.Store.accepts
    osanwe.Prelude.Table.has osanwe.Prelude.Text.bytes_eq osanwe.Prelude.Text.trim_space
    osanwe.Prelude.Text.trim_left osanwe.Prelude.Text.is_space
    osanwe.Directory.Consensus.Tests.raise osanwe.Directory.Consensus.Tests.copies
    osanwe.Directory.Descriptor.expired osanwe.Prelude.Table.find put_all osanwe.Prelude.Table.put
    osanwe.Directory.Store.file_for osanwe.Directory.Store.hex parse_descriptor
    osanwe.Directory.Descriptor.Parse.cut_last osanwe.Directory.Descriptor.Parse.line_and_rest
    osanwe.Directory.Descriptor.Parse.moved osanwe.Directory.Descriptor.Parse.or_here
    osanwe.Directory.Descriptor.Parse.read_field osanwe.Directory.Descriptor.Parse.read_field_lines
    osanwe.Directory.Descriptor.Parse.read_version osanwe.Directory.Descriptor.Parse.set_field
    osanwe.Directory.Descriptor.Parse.signature_of osanwe.Directory.Descriptor.Parse.split_found
    osanwe.Directory.Descriptor.Parse.split_signature osanwe.Directory.Descriptor.Parse.trim_returns
    osanwe.Directory.Descriptor.has_white osanwe.Directory.Descriptor.is_pair
    osanwe.Directory.Descriptor.validate_descriptor osanwe.Directory.Store.against_file
    osanwe.Directory.Store.against_stored osanwe.Directory.Store.hex_digit to_second
    osanwe.Directory.Store.written osanwe.Directory.decode_key osanwe.Directory.normalize_pin
    osanwe.Directory.verify_raw osanwe.Directory.verify_signature osanwe.Prelude.Net.cut_here
    osanwe.Prelude.Net.cut_last_colon osanwe.Prelude.Net.of_bracket osanwe.Prelude.Net.of_plain
    osanwe.Prelude.Net.port_behind osanwe.Prelude.Net.split_host_port osanwe.Prelude.Text.cut
    osanwe.Prelude.Text.has_byte osanwe.Prelude.Text.has_prefix osanwe.Prelude.Text.in_front
    osanwe.Prelude.Text.is_one_of osanwe.Prelude.Text.split osanwe.Prelude.Text.trim_prefix
    descriptor_body osanwe.Prelude.Sort.sort_strings osanwe.Prelude.Sort.sort_in
    osanwe.Directory.Consensus.decimal osanwe.Prelude.Text.digits_of osanwe.Prelude.Text.digits_from
    osanwe.Directory.Consensus.Tests.drop_down osanwe.Directory.Consensus.Tests.toy_verify
second_is_stored = refl

-- An error of os.ReadFile lets an older descriptor replace a newer one.
unread_is_rolled_back :
    (put_one toy key_text
      (record (submission 3 1200000000) { reads = false })
      (put_one toy key_text first_one []).0).1
    ≡ ok tt
unfolding put_descriptor osanwe.Directory.Store.check_put osanwe.Directory.Store.accepts
    osanwe.Prelude.Table.has osanwe.Prelude.Text.bytes_eq osanwe.Prelude.Text.trim_space
    osanwe.Prelude.Text.trim_left osanwe.Prelude.Text.is_space
    osanwe.Directory.Consensus.Tests.raise osanwe.Directory.Consensus.Tests.copies
    osanwe.Directory.Descriptor.expired
unread_is_rolled_back = refl

put_never_back_example : to_second 1500000000 < to_second 2500000000
put_never_back_example =
    put_never_back toy key_text first_one second_one (between ∷ []) []
      (first_is_faithful, (between_is_faithful, tt)) (refl, (refl, tt)) first_is_stored refl
      second_is_stored
