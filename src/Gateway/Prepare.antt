-- ===== src/Gateway/Prepare.antt =====
-- internal/gateway/gateway.go: prepareRequest, which decides what a token may pay for. What
-- encoding/json and mime find in bytes is the parameter `wire`.
pub mod Body
pub mod Translate
pub mod Checked
pub mod Sound
use osanwe.Prelude.{
  ℕ, suc, ◌+◌, ◌≤◌, ◌<◌, Bool, true, false, not, ◌&&◌, ◌||◌, Option, none, some, List, [], ◌∷◌,
  length, ltb, leb, ◌==◌, if◌then◌else◌,
}
use osanwe.Prelude.Go.{ℤ, pos, negsuc, Result, ok, err, ◌>>=◌}
use osanwe.Prelude.Text.{codes, bytes_eq, is_one_of}
use osanwe.Prelude.Table.{find}
use osanwe.Mint.Token.{PublicKey}
use osanwe.Gateway.Cost.{CostRates}
use osanwe.Gateway.Json.{JsonError, JsonToken, duplicate_field, reject_duplicate_names}
use osanwe.Gateway.Json.Tree.{Json}
use osanwe.Gateway.Http.{Request, header_get, has_query, read_limited}
use osanwe.Gateway.Routes.{Credential, Route, Routes, Style, openai, anthropic, Url}
use osanwe.Gateway.Routes.Table.{lookup_active}

pub record Wire : Type 0 where
  pub tokens : List ℕ → List JsonToken
  pub parse : List ℕ → Option Json
  pub marshal : List (List ℕ × Json) → List ℕ
  pub media_type : List ℕ → Option (List ℕ)
  -- A literal that reads as a float64, and as one from 0 through 1.
  pub in_unit : List ℕ → Bool
  -- The text of the float64 that a literal reads as.
  pub float_text : List ℕ → List ℕ

-- The kinds of a refusal.
pub data Kind : Type 0 where
  no_token bad_token unknown_mint : Kind
  method_not_allowed unsupported_endpoint query_not_allowed content_encoding_not_allowed : Kind
  trailers_not_allowed content_type request_too_large request_read duplicate_json_field bad_json :
      Kind
  unsupported_field invalid_field no_model max_tokens_required output_limit no_route translation :
      Kind
  gateway_budget_unavailable gateway_budget_exhausted token_spent redemption_unavailable : Kind
  upstream_error upstream_unreachable : Kind

pub record PolicyError : Type 0 where
  pub status : ℕ
  pub kind : Kind
  pub is_no_route : Bool

abbrev pub reject : ℕ → Kind → PolicyError
reject status kind = record { status = status; kind = kind; is_no_route = false }

-- `_ ← demand test e` goes on where the test holds.
abbrev pub demand : Bool → PolicyError → Result PolicyError (Unit {0})
demand true e = ok tt
demand false e = err e

-- The settings of a Server that New has checked.
pub record Config : Type 0 where
  pub upstream : Url
  pub mint_keys : List (List ℕ × PublicKey)
  pub credential : Credential
  pub routes : Option Routes
  pub cost : CostRates
  pub models : List (List ℕ)
  pub max_request_body : ℕ
  pub max_output_tokens : ℕ

pub record Chosen : Type 0 where
  pub route : Option Route
  pub model : List ℕ
  pub rates : CostRates
  pub output_tokens : ℕ
  pub to_path : List ℕ
  pub translated : Bool

unfoldable pub is_media_type : Option (List ℕ) → Bool
is_media_type none = false
is_media_type (some name) = bytes_eq name (codes "application/json")

unfoldable pub exceeds_limit : ℕ → ℤ → Bool
exceeds_limit limit (pos n) = ltb limit n
exceeds_limit limit (negsuc n) = false

-- The checks in front of the body.
unfoldable pub check_surface : Wire → Config → Request → Result PolicyError (Unit {0})
unfolding is_media_type exceeds_limit
check_surface wire cfg r = do
  _ ← demand (bytes_eq r.method (codes "POST")) (reject 405 method_not_allowed)
  _ ← demand (bytes_eq r.path (codes "/v1/messages")) (reject 404 unsupported_endpoint)
  _ ← demand (not (has_query r)) (reject 400 query_not_allowed)
  _ ←
      demand (length (header_get (codes "Content-Encoding") r.header) == 0)
        (reject 415 content_encoding_not_allowed)
  _ ←
      demand (not (r.has_trailers || not (length (header_get (codes "Trailer") r.header) == 0)))
        (reject 400 trailers_not_allowed)
  _ ←
      demand (is_media_type (wire.media_type (header_get (codes "Content-Type") r.header)))
        (reject 415 content_type)
  demand (not (exceeds_limit cfg.max_request_body r.content_length)) (reject 413 request_too_large)

unfoldable pub within_limit : ℕ → Option (List ℕ) → Result PolicyError (List ℕ)
within_limit limit none = err (reject 400 request_read)
within_limit limit (some bytes) =
    if ltb limit (length bytes) then err (reject 413 request_too_large) else ok bytes

-- The body, read up to one byte past the limit.
unfoldable pub read_body : Config → Request → Result PolicyError (List ℕ)
unfolding within_limit
read_body cfg r = within_limit cfg.max_request_body (read_limited (cfg.max_request_body + 1) r)

unfoldable pub check_names : Result JsonError (Unit {0}) → Result PolicyError (Unit {0})
check_names (ok _) = ok tt
check_names (err duplicate_field) = err (reject 400 duplicate_json_field)
check_names (err _) = err (reject 400 bad_json)

-- The rates and the route that an active model is served by.
unfoldable pub pick_route : Config → List ℕ → ℕ → Result PolicyError (Option Route × CostRates)
pick_route cfg model now = elim cfg.routes [
  | none ↦
      if is_one_of cfg.models model
      then ok (none, cfg.cost)
      else err (record { status = 404; kind = no_route; is_no_route = true })
  | some rt ↦ elim (lookup_active rt model now) [
    | none ↦ err (record { status = 404; kind = no_route; is_no_route = true })
    | some route ↦ ok (some route, route.cost)
  ]
]

unfoldable pub is_openai : Option Route → Bool
is_openai none = false
is_openai (some route) = elim route.style [ openai ↦ true | _ ↦ false ]
