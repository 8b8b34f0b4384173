-- ===== src/Gateway/Routes/Annotations.antt =====
-- internal/gateway/modelmeta.go: parseRouteAnnotations. time.Parse in its two layouts is a parameter.
use osanwe.Prelude.{ℕ, true, false, not, ◌||◌, Option, none, some, List, [], ◌∷◌, if◌then◌else◌}
use osanwe.Prelude.Go.{Result, ok, err, ◌>>=◌}
use osanwe.Prelude.Text.{codes, bytes_eq, cut, is_one_of}
use osanwe.Gateway.Routes.{
  RouteError, annotation_not_pair, annotation_twice, bad_checked, bad_experimental, bad_expires,
  unknown_annotation, ParseUrl, require, is_empty, normalized, validate_policy, validate_lifecycle,
  ProviderPolicy, ModelLifecycle,
}

pub record Clocks : Type 0 where
  pub date : List ℕ → Option ℕ
  pub rfc3339 : List ℕ → Option ℕ

unfoldable pub pair_of : Option (List ℕ × List ℕ) → Result RouteError (List ℕ × List ℕ)
pair_of none = err annotation_not_pair
pair_of (some (name, value)) =
    if is_empty name || is_empty value then err annotation_not_pair else ok (name, value)

unfoldable pub checked_on :
    ProviderPolicy → ModelLifecycle → Option ℕ → Result RouteError (ProviderPolicy × ModelLifecycle)
checked_on p l none = err bad_checked
checked_on p l (some at) = ok (record p { checked_at = some at }, l)

unfoldable pub expires_on :
    ProviderPolicy → ModelLifecycle → Option ℕ → Result RouteError (ProviderPolicy × ModelLifecycle)
expires_on p l none = err bad_expires
expires_on p l (some at) = ok (p, record l { expires_at = some at })

-- The switch over an annotation's name.
unfoldable pub annotate :
    Clocks
    → List ℕ
    → List ℕ
    → ProviderPolicy
    → ModelLifecycle
    → Result RouteError (ProviderPolicy × ModelLifecycle)
unfolding checked_on expires_on
annotate clocks name value p l =
    if bytes_eq name (codes "retention")
    then ok (record p { retention = value }, l)
    else if bytes_eq name (codes "training")
    then ok (record p { training = value }, l)
    else if bytes_eq name (codes "provider_identity")
    then ok (record p { identity = value }, l)
    else if bytes_eq name (codes "policy_source")
    then ok (record p { source_url = value }, l)
    else if bytes_eq name (codes "policy_checked")
    then checked_on p l (clocks.date value)
    else if bytes_eq name (codes "experimental")
    then (if bytes_eq value (codes "true")
        then ok (p, record l { experimental = true })
        else if bytes_eq value (codes "false")
        then ok (p, record l { experimental = false })
        else err bad_experimental)
    else if bytes_eq name (codes "expires")
    then expires_on p l (clocks.rfc3339 value)
    else err unknown_annotation

-- The loop, with the names that were seen.
unfoldable pub annotations :
    Clocks
    → List (List ℕ)
    → List (List ℕ)
    → ProviderPolicy
    → ModelLifecycle
    → Result RouteError (ProviderPolicy × ModelLifecycle)
unfolding pair_of
annotations clocks seen [] p l = ok (p, l)
annotations clocks seen (field ∷ fields) p l = do
  pair ← pair_of (cut 61 field)
  _ ← require (not (is_one_of seen pair.0)) annotation_twice
  both ← annotate clocks pair.0 pair.1 p l
  annotations clocks (pair.0 ∷ seen) fields both.0 both.1

abbrev pub no_policy : ProviderPolicy
no_policy = record {
  retention = [];
  training = [];
  identity = [];
  source_url = [];
  checked_at = none;
}

abbrev pub no_lifecycle : ModelLifecycle
no_lifecycle = record { experimental = false; expires_at = none }

-- parseRouteAnnotations
unfoldable pub parse_route_annotations :
    ParseUrl → Clocks → List (List ℕ) → Result RouteError (ProviderPolicy × ModelLifecycle)
parse_route_annotations parse_url clocks fields = do
  both ← annotations clocks [] fields (normalized no_policy) no_lifecycle
  _ ← validate_policy parse_url both.0
  _ ← validate_lifecycle both.1
  ok (normalized both.0, both.1)
