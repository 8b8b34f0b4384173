-- ===== src/Gateway/Prepare/Checked.antt =====
-- internal/gateway/gateway.go: prepareRequest, its checks in their order.
use osanwe.Prelude.{ℕ, Bool, true, false, Option, List, if◌then◌else◌}
use osanwe.Prelude.Go.{Result, ok, ◌>>=◌}
use osanwe.Prelude.Text.{codes}
use osanwe.Gateway.Cost.{CostRates}
use osanwe.Gateway.Json.{reject_duplicate_names}
use osanwe.Gateway.Http.{Request}
use osanwe.Gateway.Routes.{Route}
use osanwe.Gateway.Prepare.{
  Wire, Config, Chosen, PolicyError, check_surface, read_body, check_names, pick_route, is_openai,
}
use osanwe.Gateway.Prepare.Body.{Fields, object_fields, check_fields, read_paid}
use osanwe.Gateway.Prepare.Translate.{to_openai}

unfoldable pub chosen_of : Option Route × CostRates → List ℕ × ℕ → List ℕ → Bool → Chosen
chosen_of (route, rates) (model, tokens) path translated = record {
  route = route;
  model = model;
  rates = rates;
  output_tokens = tokens;
  to_path = path;
  translated = translated;
}

-- What is sent: the validated fields, or their translation.
unfoldable pub prepared : Wire → Option Route × CostRates → List ℕ × ℕ → Fields → Chosen × List ℕ
unfolding chosen_of
prepared wire picked paid fields =
    let (path, translated) = to_openai wire.float_text fields in
    if is_openai picked.0
    then (chosen_of picked paid path true, wire.marshal translated)
    else (chosen_of picked paid (codes "/v1/messages") false, wire.marshal fields)

unfoldable pub prepare_request : Wire → Config → ℕ → Request → Result PolicyError (Chosen × List ℕ)
unfolding prepared
prepare_request wire cfg now r = do
  _ ← check_surface wire cfg r
  buf ← read_body cfg r
  _ ← check_names (reject_duplicate_names (wire.tokens buf))
  fields ← object_fields (wire.parse buf)
  _ ← check_fields wire fields
  paid ← read_paid cfg fields
  picked ← pick_route cfg paid.0 now
  ok (prepared wire picked paid fields)
