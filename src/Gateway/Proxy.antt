-- ===== src/Gateway/Proxy.antt =====
-- internal/gateway/gateway.go: rewrite and modifyResponse, the proxy's hooks on a request that was
-- paid for and on the provider's response. Header names are canonical, as net/http delivers them.
-- encoding/json and the translations from OpenAI's shape are parameters.
pub mod Anonymous
pub mod Private
mod Tests
use osanwe.Prelude.{
  ℕ, ◌+◌, ◌-◌, ◌≡◌, Bool, true, false, not, ◌&&◌, ◌||◌, Option, none, some, List, [], ◌∷◌, ◌++◌,
  length, take, leb, ltb, ◌==◌, if◌then◌else◌,
}
use osanwe.Prelude.Go.{ℤ, pos, negsuc}
use osanwe.Prelude.Table.{find, put, remove_if}
use osanwe.Prelude.Text.{
  codes, bytes_eq, is_one_of, is_space, has_prefix, trim_suffix, to_lower, lower, trim_space,
  has_byte,
}
use osanwe.Gateway.Routes.{
  Url, ParseUrl, Route, Style, anthropic, Credential, credential_of, safe_header_fragment,
}
use osanwe.Gateway.Http.{Header, header_get, header_set, header_del}
use osanwe.Gateway.Prepare.{Config}

-- (Header).Set's name: textproto.CanonicalMIMEHeaderKey, for the three names that a credential has.
unfoldable pub upper : ℕ → ℕ
upper c = if leb 97 c && leb c 122 then c - 32 else c

unfoldable pub capitals : Bool → List ℕ → List ℕ
unfolding upper lower
capitals start [] = []
capitals start (c ∷ s) = (if start then upper c else lower c) ∷ capitals (c == 45) s

-- What the request's context carries where the gateway has routes.
pub record Pick : Type 0 where
  pub route : Route
  pub to_path : List ℕ
  pub translated : Bool

pub record Target : Type 0 where
  pub scheme : List ℕ
  pub opaque : List ℕ
  pub has_user : Bool
  pub url_host : List ℕ
  pub path : List ℕ
  pub raw_path : List ℕ
  pub omit_host : Bool
  pub force_query : Bool
  pub raw_query : List ℕ
  pub fragment : List ℕ
  pub raw_fragment : List ℕ
  pub host : List ℕ

-- The request that goes out.
pub record Outgoing : Type 0 where
  pub target : Target
  pub header : Header
  pub trailers : Header
  pub transfer_encoding : List (List ℕ)

unfoldable pub sent_to : ParseUrl → Config → Option Pick → List ℕ → Url × Credential × List ℕ
sent_to parse_url cfg none path = (cfg.upstream, cfg.credential, path)
sent_to parse_url cfg (some pick) path = elim (parse_url pick.route.upstream) [
  | none ↦ (cfg.upstream, cfg.credential, pick.to_path)
  | some u ↦ (u, credential_of pick.route.style pick.route.secret, pick.to_path)
]

unfoldable pub based : List ℕ → List ℕ → List ℕ
based base path = if length base == 0 then path else base ++ path

unfoldable pub target_of : Url → List ℕ → Target
unfolding based
target_of upstream path = record {
  scheme = upstream.scheme;
  opaque = [];
  has_user = false;
  url_host = upstream.host;
  path = based (trim_suffix (codes "/") upstream.path) path;
  raw_path = [];
  omit_host = false;
  force_query = false;
  raw_query = [];
  fragment = [];
  raw_fragment = [];
  host = upstream.host;
}

unfoldable pub keep_values : List ℕ → Option (List (List ℕ)) → Header → Header
keep_values name none kept = kept
keep_values name (some values) kept = put name values kept

-- allowedHeaders
unfoldable pub allowed_headers : List (List ℕ) → Header → Header → Header
unfolding keep_values
allowed_headers [] source kept = kept
allowed_headers (name ∷ names) source kept =
    allowed_headers names source (keep_values name (find name source) kept)

unfoldable pub speaks_anthropic : Option Pick → Bool
speaks_anthropic none = true
speaks_anthropic (some pick) = elim pick.route.style [ anthropic ↦ true | _ ↦ false ]

unfoldable pub set_version : Bool → Header → Header
set_version true h = header_set (codes "Anthropic-Version") (codes "2023-06-01") h
set_version false h = header_del (codes "Anthropic-Version" ∷ []) h

unfoldable pub header_of : Bool → Credential → Header → Header
unfolding allowed_headers set_version capitals
header_of versioned c source = header_set (capitals true c.header) (c.prefix ++ c.value) (
    put (codes "User-Agent") ([] ∷ []) (
      set_version versioned (
        header_set (codes "Content-Type") (codes "application/json") (
          header_set (codes "Accept") (codes "application/json") (
            allowed_headers (codes "Accept" ∷ codes "Content-Type" ∷ codes "Anthropic-Version" ∷ [])
              source [])))))

-- (*Server).rewrite
unfoldable pub rewrite : ParseUrl → Config → Option Pick → Outgoing → Outgoing
unfolding sent_to target_of speaks_anthropic header_of
rewrite parse_url cfg pick out =
    let (upstream, credential, path) = sent_to parse_url cfg pick out.target.path in
    record {
      target = target_of upstream path;
      header = header_of (speaks_anthropic pick) credential out.header;
      trailers = [];
      transfer_encoding = [];
    }

-- A provider's response: what its body delivers, and whether reading it ends in an error.
pub record Response : Type 0 where
  pub status : ℕ
  pub header : Header
  pub body : List ℕ
  pub body_fails : Bool
  pub content_length : ℤ
  pub trailers : Header
  pub transfer_encoding : List (List ℕ)

-- streamFromOpenAI, fromOpenAI and errorJSON, and strconv.Itoa of a length.
pub record Shapes : Type 0 where
  pub stream_from_openai : List ℕ → List ℕ
  pub from_openai : List ℕ → Option (List ℕ)
  pub error_json : List ℕ → List ℕ → List ℕ
  pub decimal : ℕ → List ℕ

-- stripProviderCredentialHeaders
unfoldable pub echoes : Credential → List (List ℕ) → Bool
echoes c [] = false
echoes c (v ∷ vs) =
    bytes_eq (trim_space v) c.value
    || (bytes_eq (trim_space v) (c.prefix ++ c.value) || echoes c vs)

unfoldable pub strip_credential : Credential → Header → Header
unfolding echoes
strip_credential c h =
    remove_if (λ name values. echoes c values)
      (header_del (codes "Authorization" ∷ codes "X-Api-Key" ∷ codes "Api-Key" ∷ []) h)

abbrev pub trigger_names : List (List ℕ)
trigger_names =
    codes "Location"
    ∷ codes "Refresh"
    ∷ codes "Link"
    ∷ codes "Alt-Svc"
    ∷ codes "Set-Cookie"
    ∷ codes "Report-To"
    ∷ codes "Reporting-Endpoints"
    ∷ codes "Nel"
    ∷ codes "Expect-Ct"
    ∷ codes "Public-Key-Pins"
    ∷ codes "Public-Key-Pins-Report-Only"
    ∷ codes "Content-Security-Policy"
    ∷ codes "Content-Security-Policy-Report-Only"
    ∷ []

unfoldable pub is_access_control : List ℕ → Bool
is_access_control name = has_prefix (codes "access-control-") (to_lower name)

-- stripNetworkTriggerHeaders
unfoldable pub strip_triggers : Header → Header
unfolding is_access_control
strip_triggers h = remove_if (λ name values. is_access_control name) (header_del trigger_names h)

-- setPrivateResponseHeaders
unfoldable pub set_private : Header → Header
set_private h = header_set (codes "X-Content-Type-Options") (codes "nosniff") (
    header_set (codes "Referrer-Policy") (codes "no-referrer") (
      header_set (codes "Pragma") (codes "no-cache")
        (header_set (codes "Cache-Control") (codes "no-store") h)))

-- redirectsAutomatically
unfoldable pub redirects : ℕ → Bool
redirects status =
    status == 301 || (status == 302 || (status == 303 || (status == 307 || status == 308)))

abbrev pub outcome_name : List ℕ
outcome_name = codes "X-Osanwe-Token-Outcome"

unfoldable pub set_retry : List ℕ → Header → Header
set_retry [] h = h
set_retry (c ∷ s) h = header_set (codes "Retry-After") (c ∷ s) h

-- A response of the gateway's own in place of the provider's.
unfoldable pub replaced : Shapes → ℕ → List ℕ → List ℕ → Response
unfolding set_private set_retry
replaced shapes status retry_after body = record {
  status = status;
  header = header_set (codes "Content-Length") (shapes.decimal (length body)) (
      set_private
        (set_retry retry_after (header_set (codes "Content-Type") (codes "application/json") [])));
  body = body;
  body_fails = false;
  content_length = pos (length body);
  trailers = [];
  transfer_encoding = [];
}

abbrev pub capacity_body : List ℕ
capacity_body =
    codes
      "{\"type\":\"error\",\"error\":{\"type\":\"osanwe_provider_capacity_exhausted\",\"message\":\"Free test capacity is temporarily exhausted. This request reached the provider, so its one-shot token remains spent.\"}}\n"

abbrev pub redirect_message : List ℕ
redirect_message =
    codes
      "The provider attempted to redirect this request. Redirects are blocked because following one from the local client would bypass the anonymity relay."

unfoldable pub safe_retry : List ℕ → List ℕ
safe_retry s = if safe_header_fragment s then s else []

abbrev pub with_body : Shapes → List ℕ → Response → Response
with_body shapes body r = record r {
  body = body;
  body_fails = false;
  content_length = pos (length body);
  header = header_set (codes "Content-Length") (shapes.decimal (length body)) r.header;
}

unfoldable pub converted : Shapes → List ℕ → Option (List ℕ) → Response → Response
converted shapes raw none r = with_body shapes raw r
converted shapes raw (some body) r = with_body shapes body r

abbrev pub max_routed_body : ℕ
max_routed_body = 16777216

-- translateBack: none where it returns an error.
unfoldable pub translate_back : Shapes → Response → Option Response
unfolding converted
translate_back shapes r =
    if leb 400 r.status
    then some r
    else if has_prefix (codes "text/event-stream") (header_get (codes "Content-Type") r.header)
    then some (record r {
      body = shapes.stream_from_openai r.body;
      content_length = negsuc 0;
      header = header_del (codes "Content-Length" ∷ []) r.header;
    })
    else if leb (max_routed_body + 1) (length r.body)
    then none
    else if r.body_fails
    then none
    else some (converted shapes r.body (shapes.from_openai r.body) r)

unfoldable pub with_outcome : Response → Response
with_outcome r = record r { header = header_set outcome_name (codes "spent") r.header }

-- The header of a response that goes on.
unfoldable pub cleaned : Credential → Header → Header
unfolding strip_credential strip_triggers set_private
cleaned c h =
    header_del (codes "Trailer" ∷ outcome_name ∷ [])
      (set_private (strip_triggers (strip_credential c h)))

unfoldable pub credential_for : Config → Option Pick → Credential
credential_for cfg none = cfg.credential
credential_for cfg (some pick) = credential_of pick.route.style pick.route.secret

unfoldable pub is_translated : Option Pick → Bool
is_translated none = false
is_translated (some pick) = pick.translated

unfoldable pub finished : Option Response → Option Response
unfolding with_outcome
finished none = none
finished (some r) = some (with_outcome r)

-- (*Server).modifyResponse: none where the hook returns an error.
unfoldable pub modify_response : Shapes → Config → Option Pick → Response → Option Response
unfolding cleaned credential_for is_translated finished replaced safe_retry redirects translate_back
modify_response shapes cfg pick provided =
    let kept : Response = record provided {
      header = cleaned (credential_for cfg pick) provided.header;
      trailers = [];
      transfer_encoding = [];
    } in
    if redirects provided.status
    then some (
        with_outcome (
          replaced shapes 502 []
            (shapes.error_json (codes "osanwe_redirect_blocked") redirect_message)))
    else if provided.status == 429
    then some (
        with_outcome (
          replaced shapes 429 (safe_retry (header_get (codes "Retry-After") kept.header))
            capacity_body))
    else if is_translated pick
    then finished (translate_back shapes kept)
    else finished (some kept)
