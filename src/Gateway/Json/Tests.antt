-- ===== src/Gateway/Json/Tests.antt =====
-- Bodies with and without duplicate names.
use osanwe.Prelude.{ℕ, ◌≡◌, ◌≢◌, ◌≤◌, ◌↔◌, refl, Bool, true, List, [], ◌∷◌}
use osanwe.Prelude.Go.{ok, err}
use osanwe.Prelude.Text.{codes}
use osanwe.Gateway.Json.{
  JsonError, duplicate_field, trailing_values, unexpected_end, out_of_fuel, JsonToken, open_object,
  close_object, text, other, max_json_depth, reject_duplicate_names,
}
use osanwe.Gateway.Json.Tree.{
  Json, null, object, no_members, member, tokens_onto, nesting, has_distinct_names,
}
use osanwe.Gateway.Json.Walk.{reject_duplicate_names_iff}

abbrev doubled_name : Json
doubled_name = object (
    member (codes "a") (object (member (codes "b") null (member (codes "b") null no_members)))
      no_members)

reject_duplicate_names_iff_example :
    (reject_duplicate_names (tokens_onto doubled_name []) ≡ ok tt)
    ↔ ((nesting doubled_name ≤ max_json_depth) × (has_distinct_names doubled_name ≡ true))
reject_duplicate_names_iff_example = reject_duplicate_names_iff doubled_name

is_refused : reject_duplicate_names (tokens_onto doubled_name []) ≡ err duplicate_field
unfolding reject_duplicate_names osanwe.Gateway.Json.walk_value tokens_onto
    osanwe.Gateway.Json.has_more osanwe.Gateway.Json.read_name osanwe.Prelude.Text.is_one_of
    osanwe.Prelude.Text.bytes_eq
is_refused = refl

cut_short : reject_duplicate_names (open_object ∷ text (codes "a") ∷ []) ≡ err unexpected_end
unfolding reject_duplicate_names osanwe.Gateway.Json.walk_value osanwe.Gateway.Json.has_more
    osanwe.Gateway.Json.read_name osanwe.Prelude.Text.is_one_of
cut_short = refl

two_values : reject_duplicate_names (other ∷ other ∷ []) ≡ err trailing_values
unfolding reject_duplicate_names osanwe.Gateway.Json.walk_value
two_values = refl
