-- ===== src/Gateway/Routes/Table.antt =====
-- internal/gateway/routes.go: NewRoutes and the lookups.
use osanwe.Prelude.{
  ℕ, Bool, true, false, not, ◌&&◌, ◌||◌, Option, none, some, List, [], ◌∷◌, length, ◌==◌,
  if◌then◌else◌, ltb,
}
use osanwe.Prelude.Go.{Result, ok, err, ◌>>=◌}
use osanwe.Prelude.Text.{codes, bytes_eq, trim_space}
use osanwe.Prelude.Sort.{sort_strings}
use osanwe.Prelude.Table.{find, has, put}
use osanwe.Gateway.Cost.{valid_optional, priced}
use osanwe.Gateway.Routes.{
  RouteError, no_model_name, unknown_style, no_credential, bad_cost, unusable_upstream, not_https,
  upstream_has_extras, routed_twice, empty_table, Url, ParseUrl, require, is_empty, normalized,
  validate_policy, validate_lifecycle, active, Style, other_style, credential_valid, credential_of,
  Route, Routes,
}

unfoldable pub is_known : Style → Bool
is_known other_style = false
is_known _ = true

-- An error of the prices, reported for the route.
unfoldable pub or_bad_cost {ε ℓ} : {E : Type ε} {A : Type ℓ} → Result E A → Result RouteError A
or_bad_cost (ok a) = ok a
or_bad_cost (err e) = err bad_cost

unfoldable pub check_upstream : Option Url → Result RouteError (Unit {0})
check_upstream none = err unusable_upstream
check_upstream (some u) = do
  _ ← require (not (is_empty u.host)) unusable_upstream
  _ ← require (bytes_eq u.scheme (codes "https")) not_https
  require
      (not (
        u.has_user || (u.force_query || (not (is_empty u.raw_query) || not (is_empty u.fragment)))))
      upstream_has_extras

-- The checks of one entry, whose policy is normalized.
unfoldable pub check_route : ParseUrl → Route → Result RouteError (Unit {0})
unfolding or_bad_cost check_upstream is_known
check_route parse_url r = do
  _ ← require (not (is_empty (trim_space r.model))) no_model_name
  _ ← require (is_known r.style) unknown_style
  _ ← require (not (is_empty r.secret)) no_credential
  _ ← validate_policy parse_url r.policy
  _ ← validate_lifecycle r.lifecycle
  _ ← or_bad_cost (valid_optional r.cost)
  _ ← credential_valid (credential_of r.style r.secret)
  check_upstream (parse_url r.upstream)

unfoldable pub with_policy : Route → Route
with_policy r = record r { policy = normalized r.policy }

-- The loop over the entries.
unfoldable pub add_routes :
    ParseUrl → List Route → List (List ℕ × Route) → Result RouteError (List (List ℕ × Route))
add_routes parse_url [] by_model = ok by_model
add_routes parse_url (r ∷ list) by_model = do
  _ ← check_route parse_url (with_policy r)
  _ ← require (not (has r.model by_model)) routed_twice
  add_routes parse_url list (put r.model (with_policy r) by_model)

unfoldable pub names_of : List Route → List (List ℕ)
names_of [] = []
names_of (r ∷ list) = r.model ∷ names_of list

unfoldable pub of_table :
    List Route → Result RouteError (List (List ℕ × Route)) → Result RouteError Routes
of_table list (err e) = err e
of_table list (ok by_model) =
    if length by_model == 0
    then err empty_table
    else ok (record { by_model = by_model; order = sort_strings (names_of list) })

-- NewRoutes
unfoldable pub new_routes : ParseUrl → List Route → Result RouteError Routes
unfolding of_table
new_routes parse_url list = of_table list (add_routes parse_url list [])

unfoldable pub if_active : ℕ → Option Route → Option Route
if_active now none = none
if_active now (some r) = if active r.lifecycle now then some r else none

-- (*Routes).LookupActive
unfoldable pub lookup_active : Routes → List ℕ → ℕ → Option Route
unfolding if_active
lookup_active rt model now = if_active now (find model rt.by_model)

unfoldable pub is_listed : Option Route → Bool
is_listed none = false
is_listed (some _) = true

-- The loop of (*Routes).ActiveModels.
unfoldable pub active_of : List (List ℕ × Route) → ℕ → List (List ℕ) → List (List ℕ)
active_of by_model now [] = []
active_of by_model now (model ∷ order) =
    let rest = active_of by_model now order in
    if is_listed (if_active now (find model by_model)) then model ∷ rest else rest

unfoldable pub active_models : Routes → ℕ → List (List ℕ)
unfolding active_of
active_models rt now = active_of rt.by_model now rt.order

unfoldable pub every_priced : List (List ℕ × Route) → Bool
every_priced [] = true
every_priced ((_, r) ∷ by_model) = priced r.cost && every_priced by_model

-- (*Routes).AllPriced
unfoldable pub all_priced : Routes → Bool
unfolding every_priced
all_priced rt = every_priced rt.by_model && ltb 0 (length rt.by_model)
