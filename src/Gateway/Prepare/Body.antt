-- ===== src/Gateway/Prepare/Body.antt =====
-- internal/gateway/gateway.go: the fields of a Messages request and their validation.
use osanwe.Prelude.{
  ℕ, Bool, true, false, ◌&&◌, ◌||◌, Option, none, some, List, [], ◌∷◌, ltb, if◌then◌else◌,
}
use osanwe.Prelude.Go.{ℤ, pos, Result, ok, err, ◌>>=◌}
use osanwe.Prelude.Text.{codes, bytes_eq, is_one_of, atoi}
use osanwe.Prelude.Table.{find, put}
use osanwe.Gateway.Json.Tree.{
  Json, null, boolean, number, string, array, object, Items, no_items, item, Members, no_members,
  member,
}
use osanwe.Gateway.Prepare.{
  Wire, Config, PolicyError, reject, demand, bad_json, unsupported_field, invalid_field, no_model,
  max_tokens_required, output_limit,
}

abbrev pub Fields : Type 0
Fields = List (List ℕ × Json)

-- An object's members as a map, in which a later member of the same name replaces an earlier one.
unfoldable pub fields_of : Members → Fields → Fields
fields_of no_members fields = fields
fields_of (member key v ms) fields = fields_of ms (put key v fields)

unfoldable pub object_fields : Option Json → Result PolicyError Fields
object_fields (some (object ms)) = ok (fields_of ms [])
object_fields _ = err (reject 400 bad_json)

unfoldable pub only_names : List (List ℕ) → Fields → Bool
only_names allowed [] = true
only_names allowed ((name, _) ∷ fields) = is_one_of allowed name && only_names allowed fields

abbrev pub allowed_fields : List (List ℕ)
allowed_fields =
    codes "model"
    ∷ codes "max_tokens"
    ∷ codes "messages"
    ∷ codes "system"
    ∷ codes "stream"
    ∷ codes "temperature"
    ∷ codes "top_p"
    ∷ codes "stop_sequences"
    ∷ []

-- json.Unmarshal into a string that is "" before: null leaves it.
unfoldable pub as_string : Option Json → Option (List ℕ)
as_string (some (string s)) = some s
as_string (some null) = some []
as_string _ = none

unfoldable pub is_text : Option Json → Bool
is_text (some (string _)) = true
is_text _ = false

unfoldable pub is_role : Option (List ℕ) → Bool
is_role none = false
is_role (some s) = bytes_eq s (codes "user") || bytes_eq s (codes "assistant")

-- One element of "messages".
unfoldable pub is_message : Json → Bool
unfolding is_role
is_message (object ms) =
    let message = fields_of ms [] in
    only_names (codes "role" ∷ codes "content" ∷ []) message
    && (is_role (as_string (find (codes "role") message))
        && is_text (find (codes "content") message))
is_message _ = false

unfoldable pub all_items : (Json → Bool) → Items → Bool
all_items p no_items = true
all_items p (item v items) = p v && all_items p items

unfoldable pub is_messages : Option Json → Bool
is_messages (some (array (item v items))) = is_message v && all_items is_message items
is_messages _ = false

-- An optional field that passes a test where it is there.
unfoldable pub if_there : (Json → Bool) → Option Json → Bool
if_there p none = true
if_there p (some v) = p v

unfoldable pub is_boolean : Json → Bool
is_boolean (boolean _) = true
is_boolean _ = false

unfoldable pub is_string : Json → Bool
is_string (string _) = true
is_string _ = false

unfoldable pub is_unit_number : Wire → Json → Bool
is_unit_number wire (number literal) = wire.in_unit literal
is_unit_number wire _ = false

unfoldable pub is_strings : Json → Bool
is_strings (array items) = all_items is_string items
is_strings _ = false

-- The checks between the names of the fields and the model.
unfoldable pub check_fields : Wire → Fields → Result PolicyError (Unit {0})
unfolding is_messages if_there is_boolean is_string is_strings is_unit_number
check_fields wire fields = do
  _ ← demand (only_names allowed_fields fields) (reject 422 unsupported_field)
  _ ← demand (is_messages (find (codes "messages") fields)) (reject 422 invalid_field)
  _ ← demand (if_there is_string (find (codes "system") fields)) (reject 422 invalid_field)
  _ ← demand (if_there is_boolean (find (codes "stream") fields)) (reject 422 invalid_field)
  _ ←
      demand (if_there (is_unit_number wire) (find (codes "temperature") fields))
        (reject 422 invalid_field)
  _ ←
      demand (if_there (is_unit_number wire) (find (codes "top_p") fields))
        (reject 422 invalid_field)
  demand (if_there is_strings (find (codes "stop_sequences") fields)) (reject 422 invalid_field)

unfoldable pub model_of : Option (List ℕ) → Result PolicyError (List ℕ)
model_of none = err (reject 400 no_model)
model_of (some []) = err (reject 400 no_model)
model_of (some (c ∷ s)) = ok (c ∷ s)

-- A literal without fraction and exponent, as json.Unmarshal reads it into an int.
unfoldable pub as_int : Option Json → Option ℤ
as_int (some (number literal)) = atoi literal
as_int (some null) = some (pos 0)
as_int _ = none

unfoldable pub output_of : ℕ → Option ℤ → Result PolicyError ℕ
output_of limit (some (pos n)) =
    if ltb n 1
    then err (reject 400 max_tokens_required)
    else if ltb limit n
    then err (reject 422 output_limit)
    else ok n
output_of limit _ = err (reject 400 max_tokens_required)

-- The model and the output tokens that are paid for.
unfoldable pub read_paid : Config → Fields → Result PolicyError (List ℕ × ℕ)
unfolding model_of output_of as_int
read_paid cfg fields = do
  model ← model_of (as_string (find (codes "model") fields))
  tokens ← output_of cfg.max_output_tokens (as_int (find (codes "max_tokens") fields))
  ok (model, tokens)
