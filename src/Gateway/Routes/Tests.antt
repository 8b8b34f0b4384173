-- ===== src/Gateway/Routes/Tests.antt =====
-- A table of two routes, one of which expires.
use osanwe.Prelude.{ℕ, ◌≡◌, refl, Bool, true, false, Option, none, some, List, [], ◌∷◌, ◌++◌}
use osanwe.Prelude.Go.{ok, err}
use osanwe.Prelude.Text.{codes, is_one_of}
use osanwe.Gateway.Routes.{
  Url, ParseUrl, RouteError, missing_credentials, routed_twice, policy_without_source,
  ProviderPolicy, ModelLifecycle, Style, anthropic, openai, Route, Routes, active, credential_valid,
  credential_of, is_empty,
}
use osanwe.Gateway.Routes.Annotations.{Clocks, no_lifecycle, no_policy, parse_route_annotations}
use osanwe.Gateway.Routes.File.{parse_routes}
use osanwe.Gateway.Routes.Table.{
  new_routes, lookup_active, active_models, is_listed, with_policy, names_of,
}
use osanwe.Gateway.Routes.Laws.{lookup_active_sound}

-- Every text is the host of an https URL.
abbrev toy_url : List ℕ → Url
toy_url s = record {
  scheme = codes "https";
  host = s;
  path = [];
  has_user = false;
  force_query = false;
  raw_query = [];
  fragment = [];
}

abbrev parse_url : ParseUrl
parse_url s = some (toy_url s)

abbrev sonnet : Route
sonnet = record {
  model = codes "sonnet";
  style = anthropic;
  upstream = codes "a.example";
  cost = record { input_micros_per_million = 3; output_micros_per_million = 15 };
  policy = no_policy;
  lifecycle = no_lifecycle;
  secret = codes "k1";
}

abbrev preview : Route
preview = record {
  model = codes "preview";
  style = openai;
  upstream = codes "b.example";
  cost = record { input_micros_per_million = 0; output_micros_per_million = 0 };
  policy = no_policy;
  lifecycle = record { experimental = true; expires_at = some 100 };
  secret = codes "k2";
}

abbrev entries : List Route
entries = sonnet ∷ preview ∷ []

-- The policy that every entry is stored with.
abbrev policied : Route → Route
policied r = record r {
  policy = record {
    retention = codes "unknown";
    training = codes "unknown";
    identity = codes "unknown";
    source_url = [];
    checked_at = none;
  };
}

abbrev table : Routes
table = record {
  by_model = (codes "sonnet", policied sonnet) ∷ (codes "preview", policied preview) ∷ [];
  order = codes "preview" ∷ codes "sonnet" ∷ [];
}

entries_accepted : new_routes parse_url entries ≡ ok table
unfolding new_routes osanwe.Gateway.Routes.Table.add_routes osanwe.Gateway.Routes.Table.check_route
    is_empty osanwe.Prelude.Text.trim_space osanwe.Prelude.Text.trim_left with_policy
    osanwe.Prelude.Text.is_space osanwe.Gateway.Routes.validate_policy
    osanwe.Gateway.Routes.validate_normalized is_one_of osanwe.Prelude.Text.bytes_eq
    osanwe.Gateway.Routes.or_unknown osanwe.Gateway.Routes.is_set
    osanwe.Gateway.Routes.validate_lifecycle osanwe.Gateway.Cost.valid_optional credential_valid
    osanwe.Prelude.Text.equal_fold osanwe.Prelude.Sort.before
    osanwe.Gateway.Routes.Table.check_upstream osanwe.Gateway.Routes.Table.is_known names_of
    osanwe.Gateway.Routes.Table.of_table osanwe.Gateway.Routes.Table.or_bad_cost
    osanwe.Prelude.Sort.sort_in osanwe.Prelude.Sort.sort_strings osanwe.Gateway.Routes.check_source
    credential_of osanwe.Gateway.Routes.normalized osanwe.Gateway.Routes.safe_header_fragment
    osanwe.Prelude.Table.has osanwe.Prelude.Table.put osanwe.Prelude.Text.lower
    osanwe.Prelude.Text.to_lower
entries_accepted = refl

lookup_now : lookup_active table (codes "preview") 99 ≡ some (policied preview)
unfolding lookup_active osanwe.Prelude.Table.find osanwe.Prelude.Text.bytes_eq active
lookup_now = refl

at_expiry : lookup_active table (codes "preview") 100 ≡ none
unfolding lookup_active osanwe.Prelude.Table.find osanwe.Prelude.Text.bytes_eq active
at_expiry = refl

lookup_active_sound_example :
    (codes "preview" ≡ codes "preview")
    × (active preview.lifecycle 99 ≡ true)
    × (credential_valid (credential_of openai (codes "k2")) ≡ ok tt)
    × ((url : Url) × (parse_url (codes "b.example") ≡ some url)
        × (url.scheme ≡ codes "https")
        × (is_empty url.host ≡ false)
        × (url.has_user ≡ false)
        × (url.raw_query ≡ []))
lookup_active_sound_example =
    lookup_active_sound parse_url entries table (codes "preview") 99 (policied preview)
      entries_accepted lookup_now

twice : new_routes parse_url (sonnet ∷ sonnet ∷ []) ≡ err routed_twice
unfolding new_routes osanwe.Gateway.Routes.Table.add_routes osanwe.Gateway.Routes.Table.check_route
    is_empty osanwe.Prelude.Text.trim_space osanwe.Prelude.Text.trim_left with_policy
    osanwe.Prelude.Text.is_space osanwe.Gateway.Routes.validate_policy
    osanwe.Gateway.Routes.validate_normalized is_one_of osanwe.Prelude.Text.bytes_eq
    osanwe.Gateway.Routes.or_unknown osanwe.Gateway.Routes.is_set
    osanwe.Gateway.Routes.validate_lifecycle osanwe.Gateway.Cost.valid_optional credential_valid
    osanwe.Prelude.Text.equal_fold osanwe.Prelude.Sort.before
    osanwe.Gateway.Routes.Table.check_upstream osanwe.Gateway.Routes.Table.is_known names_of
    osanwe.Gateway.Routes.Table.of_table osanwe.Gateway.Routes.Table.or_bad_cost
    osanwe.Prelude.Sort.sort_in osanwe.Prelude.Sort.sort_strings osanwe.Gateway.Routes.check_source
    credential_of osanwe.Gateway.Routes.normalized osanwe.Gateway.Routes.safe_header_fragment
    osanwe.Prelude.Table.has osanwe.Prelude.Table.put osanwe.Prelude.Text.lower
    osanwe.Prelude.Text.to_lower
twice = refl

abbrev clocks : Clocks
clocks = record { date = λ _. some 7; rfc3339 = λ _. some 9 }

no_key :
    parse_routes parse_url clocks (λ _. []) (codes "# comment" ∷ codes "m openai h KEY" ∷ [])
    ≡ err missing_credentials
unfolding parse_routes osanwe.Gateway.Routes.File.read_lines osanwe.Prelude.Text.trim_space
    osanwe.Prelude.Text.trim_left osanwe.Prelude.Text.is_space
    osanwe.Gateway.Routes.File.read_fields osanwe.Gateway.Routes.File.fields_of is_empty
    parse_route_annotations osanwe.Gateway.Routes.Annotations.annotations
    osanwe.Gateway.Routes.validate_policy osanwe.Gateway.Routes.validate_normalized is_one_of
    osanwe.Prelude.Text.bytes_eq osanwe.Gateway.Routes.or_unknown osanwe.Gateway.Routes.is_set
    osanwe.Gateway.Routes.validate_lifecycle
no_key = refl

claim_alone :
    parse_route_annotations parse_url clocks (codes "retention=none" ∷ [])
    ≡ err policy_without_source
unfolding parse_route_annotations osanwe.Gateway.Routes.Annotations.annotations
    osanwe.Prelude.Text.cut is_empty is_one_of osanwe.Gateway.Routes.Annotations.annotate
    osanwe.Prelude.Text.bytes_eq osanwe.Gateway.Routes.validate_policy
    osanwe.Gateway.Routes.validate_normalized osanwe.Gateway.Routes.or_unknown
    osanwe.Gateway.Routes.is_set
claim_alone = refl
