-- ===== src/Gateway/Routes.antt =====
-- internal/gateway/modelmeta.go and routes.go: provider policies, model lifecycles and the table of
-- routes. An instant is a number, and `none` is the zero time. url.Parse is a parameter.
pub mod Annotations
pub mod Table
pub mod File
pub mod Laws
mod Tests
use osanwe.Prelude.{
  ℕ, ◌<◌, Bool, true, false, not, ◌&&◌, ◌||◌, Option, none, some, List, [], ◌∷◌, ◌++◌, length, ltb,
  ◌==◌, if◌then◌else◌,
}
use osanwe.Prelude.Go.{Result, ok, err, ◌>>=◌}
use osanwe.Prelude.Text.{codes, bytes_eq, equal_fold, trim_space, is_one_of}
use osanwe.Gateway.Cost.{CostRates, CostError}

pub data RouteError : Type 0 where
  bad_retention bad_training bad_identity source_without_date policy_without_source bad_source :
      RouteError
  experimental_without_expiry expiry_without_experimental : RouteError
  annotation_not_pair annotation_twice bad_checked bad_experimental bad_expires unknown_annotation :
      RouteError
  no_model_name unknown_style no_credential bad_cost bad_credential_header blank_credential
        padded_credential unsafe_credential :
      RouteError
  unusable_upstream not_https upstream_has_extras routed_twice empty_table : RouteError
  too_few_fields prices_incomplete bad_price missing_credentials : RouteError

-- The parts of a *url.URL that are read.
pub record Url : Type 0 where
  pub scheme : List ℕ
  pub host : List ℕ
  pub path : List ℕ
  pub has_user : Bool
  pub force_query : Bool
  pub raw_query : List ℕ
  pub fragment : List ℕ

abbrev pub ParseUrl : Type 0
ParseUrl = List ℕ → Option Url

-- `_ ← require test e` goes on where the test holds.
abbrev pub require : Bool → RouteError → Result RouteError (Unit {0})
require true e = ok tt
require false e = err e

pub record ProviderPolicy : Type 0 where
  pub retention : List ℕ
  pub training : List ℕ
  pub identity : List ℕ
  pub source_url : List ℕ
  pub checked_at : Option ℕ

pub record ModelLifecycle : Type 0 where
  pub experimental : Bool
  pub expires_at : Option ℕ

abbrev pub unknown : List ℕ
unknown = codes "unknown"

unfoldable pub is_empty : List ℕ → Bool
is_empty [] = true
is_empty (_ ∷ _) = false

unfoldable pub or_unknown : List ℕ → List ℕ
or_unknown [] = unknown
or_unknown (c ∷ s) = c ∷ s

unfoldable pub normalized : ProviderPolicy → ProviderPolicy
normalized p = record p {
  retention = or_unknown p.retention;
  training = or_unknown p.training;
  identity = or_unknown p.identity;
}

unfoldable pub is_set : Option ℕ → Bool
is_set none = false
is_set (some _) = true

-- An absolute https URL with nothing but a path behind the host.
unfoldable pub check_source : Option Url → Result RouteError (Unit {0})
check_source none = err bad_source
check_source (some u) = do
  _ ← require (bytes_eq u.scheme (codes "https") && not (is_empty u.host)) bad_source
  require
      (not (
        u.has_user || (u.force_query || (not (is_empty u.raw_query) || not (is_empty u.fragment)))))
      bad_source

-- ProviderPolicy.validate of a policy that is normalized.
unfoldable pub validate_normalized : ParseUrl → ProviderPolicy → Result RouteError (Unit {0})
unfolding check_source
validate_normalized parse_url p = do
  _ ← require (is_one_of (unknown ∷ codes "none" ∷ codes "retained" ∷ []) p.retention) bad_retention
  _ ←
      require (is_one_of (unknown ∷ codes "not_used" ∷ codes "may_be_used" ∷ []) p.training)
        bad_training
  _ ←
      require (is_one_of (unknown ∷ codes "disclosed" ∷ codes "undisclosed" ∷ []) p.identity)
        bad_identity
  let has_source = not (is_empty p.source_url)
  _ ←
      require ((has_source && is_set p.checked_at) || (not has_source && not (is_set p.checked_at)))
        source_without_date
  let claimed =
      not (bytes_eq p.retention unknown)
      || (not (bytes_eq p.training unknown) || not (bytes_eq p.identity unknown))
  _ ← require (not claimed || has_source) policy_without_source
  if has_source then check_source (parse_url p.source_url) else ok tt

-- ProviderPolicy.validate
unfoldable pub validate_policy : ParseUrl → ProviderPolicy → Result RouteError (Unit {0})
unfolding normalized
validate_policy parse_url p = validate_normalized parse_url (normalized p)

-- ModelLifecycle.validate
unfoldable pub validate_lifecycle : ModelLifecycle → Result RouteError (Unit {0})
validate_lifecycle l = do
  _ ← require (not l.experimental || is_set l.expires_at) experimental_without_expiry
  require (l.experimental || not (is_set l.expires_at)) expiry_without_experimental

unfoldable pub before_expiry : Option ℕ → ℕ → Bool
before_expiry none now = true
before_expiry (some at) now = ltb now at

-- ModelLifecycle.active
unfoldable pub active : ModelLifecycle → ℕ → Bool
unfolding before_expiry
active l now = before_expiry l.expires_at now

-- How a provider expects its credential; `other_style` is any other text.
pub data Style : Type 0 where
  anthropic openai other_style : Style

pub record Credential : Type 0 where
  pub header : List ℕ
  pub prefix : List ℕ
  pub value : List ℕ

unfoldable pub safe_header_fragment : List ℕ → Bool
safe_header_fragment [] = true
safe_header_fragment (c ∷ s) = not (ltb c 32 || c == 127) && safe_header_fragment s

-- Credential.valid
unfoldable pub credential_valid : Credential → Result RouteError (Unit {0})
credential_valid c = do
  let name = trim_space c.header
  _ ←
      require
        (equal_fold name (codes "authorization")
          || (equal_fold name (codes "x-api-key") || equal_fold name (codes "api-key")))
        bad_credential_header
  _ ← require (not (is_empty c.value)) blank_credential
  _ ← require (bytes_eq (trim_space c.value) c.value) padded_credential
  require (safe_header_fragment c.prefix && safe_header_fragment c.value) unsafe_credential

pub record Route : Type 0 where
  pub model : List ℕ
  pub style : Style
  pub upstream : List ℕ
  pub cost : CostRates
  pub policy : ProviderPolicy
  pub lifecycle : ModelLifecycle
  pub secret : List ℕ

-- Route.credential
unfoldable pub credential_of : Style → List ℕ → Credential
credential_of openai secret = record {
  header = codes "authorization";
  prefix = codes "Bearer ";
  value = secret;
}
credential_of _ secret = record { header = codes "x-api-key"; prefix = []; value = secret }

-- The routes by model, and the models in order.
pub record Routes : Type 0 where
  pub by_model : List (List ℕ × Route)
  pub order : List (List ℕ)
