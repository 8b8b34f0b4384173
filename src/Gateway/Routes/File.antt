-- ===== src/Gateway/Routes/File.antt =====
-- internal/gateway/routes.go: ParseRoutes over the lines that the scanner delivers.
use osanwe.Prelude.{ℕ, suc, Bool, true, List, [], ◌∷◌, ◌++◌, ltb, ◌==◌, if◌then◌else◌}
use osanwe.Prelude.Go.{Result, ok, err, ◌>>=◌}
use osanwe.Prelude.Text.{codes, bytes_eq, has_byte, is_space, trim_space}
use osanwe.Gateway.Cost.{CostRates, CostError}
use osanwe.Gateway.Cost.Amount.{parse_currency_micros}
use osanwe.Gateway.Routes.{
  RouteError, too_few_fields, prices_incomplete, bad_price, missing_credentials, ParseUrl, is_empty,
  Style, anthropic, openai, other_style, Route, Routes,
}
use osanwe.Gateway.Routes.Annotations.{Clocks, parse_route_annotations}
use osanwe.Gateway.Routes.Table.{new_routes}

-- strings.Fields, with the field that is being read.
unfoldable pub fields_from : List ℕ → List ℕ → List (List ℕ)
fields_from field [] = if is_empty field then [] else field ∷ []
fields_from field (c ∷ s) =
    let ended = fields_from [] s in
    let longer = fields_from (field ++ c ∷ []) s in
    if is_space c then (if is_empty field then ended else field ∷ ended) else longer

unfoldable pub fields_of : List ℕ → List (List ℕ)
unfolding fields_from
fields_of s = fields_from [] s

unfoldable pub style_of : List ℕ → Style
style_of s =
    if bytes_eq s (codes "anthropic")
    then anthropic
    else if bytes_eq s (codes "openai")
    then openai
    else other_style

abbrev pub no_rates : CostRates
no_rates = record { input_micros_per_million = 0; output_micros_per_million = 0 }

unfoldable pub price_of : Result CostError ℕ → Result RouteError ℕ
price_of (ok n) = ok n
price_of (err _) = err bad_price

-- The prices and the annotations behind the fourth field.
unfoldable pub prices_of : List (List ℕ) → Result RouteError (CostRates × List (List ℕ))
unfolding price_of
prices_of [] = ok (no_rates, [])
prices_of (first ∷ []) =
    if has_byte 61 first then ok (no_rates, first ∷ []) else err prices_incomplete
prices_of (first ∷ second ∷ more) =
    if has_byte 61 first
    then ok (no_rates, first ∷ second ∷ more)
    else if has_byte 61 second
    then err prices_incomplete
    else do
      input ← price_of (parse_currency_micros first)
      output ← price_of (parse_currency_micros second)
      ok (record { input_micros_per_million = input; output_micros_per_million = output }, more)

-- One line's route and the variable that it takes its credential from, or `none` for a line
-- without one.
unfoldable pub read_fields :
    ParseUrl → Clocks → (List ℕ → List ℕ) → List (List ℕ) → Result RouteError Route
unfolding prices_of style_of
read_fields parse_url clocks lookup_env (model ∷ style ∷ upstream ∷ env ∷ more) = do
  costs ← prices_of more
  both ← parse_route_annotations parse_url clocks costs.1
  ok (record {
    model = model;
    style = style_of style;
    upstream = upstream;
    cost = costs.0;
    policy = both.0;
    lifecycle = both.1;
    secret = lookup_env env;
  })
read_fields parse_url clocks lookup_env _ = err too_few_fields

unfoldable pub is_skipped : List ℕ → Bool
is_skipped [] = true
is_skipped (c ∷ s) = c == 35

-- The loop over the lines: the routes with a credential, and how many have none.
unfoldable pub read_lines :
    ParseUrl
    → Clocks
    → (List ℕ → List ℕ)
    → List (List ℕ)
    → List Route
    → ℕ
    → Result RouteError (List Route × ℕ)
unfolding is_skipped
read_lines parse_url clocks lookup_env [] list missing = ok (list, missing)
read_lines parse_url clocks lookup_env (line ∷ lines) list missing =
    let skipped = read_lines parse_url clocks lookup_env lines list missing in
    if is_skipped (trim_space line) then skipped else do
      r ← read_fields parse_url clocks lookup_env (fields_of (trim_space line))
      if is_empty r.secret
          then read_lines parse_url clocks lookup_env lines list (suc missing)
          else read_lines parse_url clocks lookup_env lines (list ++ r ∷ []) missing

-- ParseRoutes. `lines` is none where the scanner reports an error.
unfoldable pub parse_routes :
    ParseUrl → Clocks → (List ℕ → List ℕ) → List (List ℕ) → Result RouteError Routes
parse_routes parse_url clocks lookup_env lines = do
  both ← read_lines parse_url clocks lookup_env lines [] 0
  if ltb 0 both.1 then err missing_credentials else new_routes parse_url both.0
