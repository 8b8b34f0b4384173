-- ===== src/Gateway/Proxy/Tests.antt =====
-- Two callers with headers of their own, and a provider that sets headers of its own.
use osanwe.Prelude.{ℕ, ◌≡◌, refl, Bool, true, false, Option, none, some, List, [], ◌∷◌}
use osanwe.Prelude.Go.{pos}
use osanwe.Prelude.Text.{codes}
use osanwe.Gateway.Routes.{Url, ParseUrl, Route, openai}
use osanwe.Gateway.Routes.Annotations.{no_lifecycle, no_policy}
use osanwe.Gateway.Prepare.{Config}
use osanwe.Gateway.Proxy.{
  Pick, Outgoing, rewrite, Response, Shapes, outcome_name, replaced, modify_response, with_outcome,
}
use osanwe.Gateway.Http.{Header}
use osanwe.Gateway.Proxy.Private.{IsPrivate, modify_response-IsPrivate}

abbrev toy_url : List ℕ → Url
toy_url s = record {
  scheme = codes "https";
  host = s;
  path = codes "/api/";
  has_user = false;
  force_query = false;
  raw_query = [];
  fragment = [];
}

abbrev parse_url : ParseUrl
parse_url s = some (toy_url s)

abbrev cfg : Config
cfg = record {
  upstream = toy_url (codes "h");
  mint_keys = [];
  credential = record { header = codes "x-api-key"; prefix = []; value = codes "k" };
  routes = none;
  cost = record { input_micros_per_million = 0; output_micros_per_million = 0 };
  models = codes "m" ∷ [];
  max_request_body = 100;
  max_output_tokens = 10;
}

abbrev pick : Pick
pick = record {
  route = record {
    model = codes "m";
    style = openai;
    upstream = codes "b.example";
    cost = record { input_micros_per_million = 0; output_micros_per_million = 0 };
    policy = no_policy;
    lifecycle = no_lifecycle;
    secret = codes "k2";
  };
  to_path = codes "/v1/chat/completions";
  translated = true;
}

abbrev outgoing : Header → Outgoing
outgoing header = record {
  target = record {
    scheme = codes "http";
    opaque = codes "x";
    has_user = true;
    url_host = codes "me";
    path = codes "/v1/messages";
    raw_path = [];
    omit_host = false;
    force_query = false;
    raw_query = codes "q";
    fragment = [];
    raw_fragment = [];
    host = codes "me";
  };
  header = header;
  trailers = header;
  transfer_encoding = codes "chunked" ∷ [];
}

abbrev named : Header
named =
    (codes "Cookie", codes "id=1" ∷ [])
    ∷ (codes "Content-Type", codes "application/json; me=1" ∷ [])
    ∷ (codes "Anthropic-Version", codes "mine" ∷ [])
    ∷ []

abbrev agent : Header
agent = (codes "User-Agent", codes "me/1" ∷ []) ∷ (codes "X-Osanwe-Token", codes "t" ∷ []) ∷ []

sent_header :
    (rewrite parse_url cfg (some pick) (outgoing named)).header
    ≡ (codes "Content-Type", codes "application/json" ∷ [])
      ∷ (codes "Accept", codes "application/json" ∷ [])
      ∷ (codes "User-Agent", [] ∷ [])
      ∷ (codes "Authorization", codes "Bearer k2" ∷ [])
      ∷ []
unfolding rewrite osanwe.Gateway.Http.header_set osanwe.Prelude.Table.put
    osanwe.Gateway.Http.header_del osanwe.Prelude.Table.remove osanwe.Prelude.Table.find
    osanwe.Prelude.Text.bytes_eq osanwe.Gateway.Routes.credential_of
sent_header = refl

sent_path :
    (rewrite parse_url cfg (some pick) (outgoing named)).target.path
    ≡ codes "/api/v1/chat/completions"
unfolding rewrite osanwe.Prelude.Text.trim_suffix osanwe.Prelude.Text.has_suffix
    osanwe.Prelude.Text.has_prefix
sent_path = refl

abbrev shapes : Shapes
shapes = record {
  stream_from_openai = λ body. body;
  from_openai = λ body. none;
  error_json = λ kind message. kind;
  decimal = λ n. n ∷ [];
}

abbrev provided : ℕ → Response
provided status = record {
  status = status;
  header =
      (outcome_name, codes "refunded" ∷ [])
      ∷ (codes "Set-Cookie", codes "id=1" ∷ [])
      ∷ (codes "X-Echo", codes "k" ∷ [])
      ∷ (codes "Access-Control-Allow-Origin", codes "*" ∷ [])
      ∷ [];
  body = [];
  body_fails = false;
  content_length = pos 0;
  trailers = agent;
  transfer_encoding = [];
}

abbrev passed_on : Response
passed_on = record {
  status = 200;
  header =
      (codes "Cache-Control", codes "no-store" ∷ [])
      ∷ (codes "Pragma", codes "no-cache" ∷ [])
      ∷ (codes "Referrer-Policy", codes "no-referrer" ∷ [])
      ∷ (codes "X-Content-Type-Options", codes "nosniff" ∷ [])
      ∷ (outcome_name, codes "spent" ∷ [])
      ∷ [];
  body = [];
  body_fails = false;
  content_length = pos 0;
  trailers = [];
  transfer_encoding = [];
}

passes_on : modify_response shapes cfg none (provided 200) ≡ some passed_on
unfolding modify_response osanwe.Gateway.Http.header_set osanwe.Prelude.Table.put
    osanwe.Gateway.Http.header_del osanwe.Prelude.Table.remove osanwe.Prelude.Table.remove_if
    osanwe.Prelude.Text.bytes_eq osanwe.Prelude.Text.trim_space osanwe.Prelude.Text.trim_left
    osanwe.Prelude.Text.is_space osanwe.Prelude.Text.has_prefix osanwe.Prelude.Text.to_lower
    osanwe.Prelude.Text.lower
passes_on = refl

blocks_redirect :
    modify_response shapes cfg none (provided 302)
    ≡ some (with_outcome (replaced shapes 502 [] (codes "osanwe_redirect_blocked")))
unfolding modify_response
blocks_redirect = refl

modify_response-IsPrivate_example : IsPrivate passed_on
modify_response-IsPrivate_example =
    modify_response-IsPrivate shapes cfg none (provided 200) passed_on passes_on
