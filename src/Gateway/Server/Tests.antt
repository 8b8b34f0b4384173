-- ===== src/Gateway/Server/Tests.antt =====
-- One request for a single provider, with a toy signature, paid with one token.
use osanwe.Prelude.{
  ℕ, zero, suc, ◌+◌, ◌≤◌, ◌<◌, ◌≡◌, ◌≢◌, ◌⊎◌, inl, inr, refl, Bool, true, false, Option, none, some,
  List, [], ◌∷◌, ◌++◌, length, All, arith,
}
use osanwe.Prelude.Go.{pos, Result, ok, err}
use osanwe.Prelude.Text.{codes, bytes_eq}
use osanwe.Prelude.Table.{find}
use osanwe.Mint.Token.{
  Token, PublicKey, Crypto, parse_token, encode_token, verify, key_id_of, token_message,
}
use osanwe.Mint.Token.Tests.{toy, zeros}
use osanwe.Mint.SpentFile.{SpentError}
use osanwe.Mint.SpentSet.{SpentSet, spent_key}
use osanwe.Gateway.Budget.{BudgetError, BudgetRequest, budget_limit}
use osanwe.Gateway.Cost.{CostRates}
use osanwe.Gateway.Json.Tree.{
  Json, string, number, array, object, no_items, item, no_members, member, tokens_onto,
}
use osanwe.Gateway.Http.{Request}
use osanwe.Gateway.Prepare.{Wire, Config, Chosen, PolicyError, no_token, token_spent}
use osanwe.Gateway.Prepare.Checked.{prepare_request}
use osanwe.Gateway.Server.{
  RedemptionStore, BudgetStore, State, Metrics, Answer, Forward, Served, catalog, refused,
  forwarded, refuse, spent, invalid, rejected, Failure, net_op, dns_failure, serve_http,
  handle_error, never_dispatched, retry_seconds,
}
use osanwe.Gateway.Server.Order.{IsAdmitted, serve_http-forwarded, serve_http-refused}
use osanwe.Gateway.Server.Refunds.{Refund, handle_error-Refund}
use osanwe.Gateway.Server.Stores.{of_spent_set, spent_set_laws}
use osanwe.Gateway.Server.Once.{arrives, fails, run, forward_once}
use osanwe.Gateway.Prepare.Sound.{IsInference, IsCarried, IsRead, prepare_request_sound}
use osanwe.Gateway.Prepare.Body.{Fields, object_fields, check_fields}
use osanwe.Gateway.Json.{reject_duplicate_names}

repeat : ℕ → ℕ → List ℕ
repeat zero b = []
repeat (suc n) b = b ∷ repeat n b

abbrev key : PublicKey
key = record { modulus = repeat 256 255; exponent = 65537 }

abbrev coin : Token
coin = record {
  key_id = key_id_of toy key;
  nonce = zeros ++ token_message (key_id_of toy key) zeros;
  sig = repeat 256 255;
}

abbrev message : Json
message = object (
    member (codes "role") (string (codes "user"))
      (member (codes "content") (string (codes "hi")) no_members))

abbrev question : Json
question = object (
    member (codes "model") (string (codes "m")) (
      member (codes "max_tokens") (number (codes "5"))
        (member (codes "messages") (array (item message no_items)) no_members)))

abbrev wire : Wire
wire = record {
  tokens = λ _. tokens_onto question [];
  parse = λ _. some question;
  marshal = λ _. codes "{}";
  media_type = λ name. some name;
  in_unit = λ _. true;
  float_text = λ literal. literal;
}

abbrev cfg : Config
cfg = record {
  upstream = record {
    scheme = codes "https";
    host = codes "h";
    path = [];
    has_user = false;
    force_query = false;
    raw_query = [];
    fragment = [];
  };
  mint_keys = (key_id_of toy key, key) ∷ [];
  credential = record { header = codes "x-api-key"; prefix = []; value = codes "k" };
  routes = none;
  cost = record { input_micros_per_million = 0; output_micros_per_million = 0 };
  models = codes "m" ∷ [];
  max_request_body = 100;
  max_output_tokens = 10;
}

abbrev request : Request
request = record {
  method = codes "POST";
  path = codes "/v1/messages";
  force_query = false;
  raw_query = [];
  header =
      (codes "X-Osanwe-Token", encode_token toy coin ∷ [])
      ∷ (codes "Content-Type", codes "application/json" ∷ [])
      ∷ [];
  has_trailers = false;
  content_length = pos 2;
  body = codes "{}";
  body_fails = false;
}

-- A budget of so many requests.
reserve_one : BudgetRequest → ℕ → ℕ × Result BudgetError ℕ
reserve_one _ zero = (0, err (budget_limit 5))
reserve_one _ (suc n) = (n, ok 1)

abbrev budgets : BudgetStore ℕ ℕ
budgets = record { reserve = reserve_one; release = λ r n. (n + r, true) }

abbrev no_metrics : Metrics
no_metrics = record {
  accepted = 0;
  no_tokens = 0;
  bad_tokens = 0;
  replayed = 0;
  upstream_errors = 0;
  no_routes = 0;
  rejections = 0;
  refunds = 0;
  budget_full = 0;
  budget_errors = 0;
}

abbrev start : State SpentSet ℕ
start = record { metrics = no_metrics; tokens = []; budget = 3 }

signed : verify toy key coin ≡ true
unfolding verify osanwe.Mint.Token.validate_public_key repeat bytes_eq osanwe.Mint.Token.Tests.spell
    osanwe.Mint.Token.validate_prepared_message token_message osanwe.Prelude.Text.has_prefix
signed = refl

prepares :
    prepare_request wire cfg 0 request
    ≡ ok (
      record {
        route = none;
        model = codes "m";
        rates = cfg.cost;
        output_tokens = 5;
        to_path = codes "/v1/messages";
        translated = false;
      },
      codes "{}",
    )
unfolding prepare_request osanwe.Gateway.Prepare.check_surface bytes_eq
    osanwe.Gateway.Http.has_query osanwe.Gateway.Http.header_get find
    osanwe.Gateway.Prepare.read_body osanwe.Gateway.Http.read_limited
    osanwe.Gateway.Prepare.check_names osanwe.Gateway.Json.reject_duplicate_names
    osanwe.Gateway.Json.walk_value tokens_onto osanwe.Gateway.Json.has_more
    osanwe.Gateway.Json.read_name osanwe.Prelude.Text.is_one_of osanwe.Gateway.Json.end_object
    osanwe.Gateway.Json.end_array osanwe.Gateway.Prepare.Body.object_fields
    osanwe.Gateway.Http.first_value osanwe.Gateway.Json.at_end osanwe.Gateway.Prepare.Body.all_items
    osanwe.Gateway.Prepare.Body.as_int osanwe.Gateway.Prepare.Body.as_string
    osanwe.Gateway.Prepare.Body.check_fields osanwe.Gateway.Prepare.Body.fields_of
    osanwe.Gateway.Prepare.Body.if_there osanwe.Gateway.Prepare.Body.is_boolean
    osanwe.Gateway.Prepare.Body.is_message osanwe.Gateway.Prepare.Body.is_messages
    osanwe.Gateway.Prepare.Body.is_role osanwe.Gateway.Prepare.Body.is_string
    osanwe.Gateway.Prepare.Body.is_strings osanwe.Gateway.Prepare.Body.is_text
    osanwe.Gateway.Prepare.Body.is_unit_number osanwe.Gateway.Prepare.Body.model_of
    osanwe.Gateway.Prepare.Body.only_names osanwe.Gateway.Prepare.Body.output_of
    osanwe.Gateway.Prepare.Body.read_paid osanwe.Gateway.Prepare.Checked.chosen_of
    osanwe.Gateway.Prepare.Checked.prepared osanwe.Gateway.Prepare.Translate.chat_items
    osanwe.Gateway.Prepare.Translate.chat_message osanwe.Gateway.Prepare.Translate.field
    osanwe.Gateway.Prepare.Translate.float_field osanwe.Gateway.Prepare.Translate.items_of
    osanwe.Gateway.Prepare.Translate.map_items osanwe.Gateway.Prepare.Translate.or_null
    osanwe.Gateway.Prepare.Translate.stop_field osanwe.Gateway.Prepare.Translate.stream_field
    osanwe.Gateway.Prepare.Translate.to_chat osanwe.Gateway.Prepare.Translate.to_openai
    osanwe.Gateway.Prepare.Translate.with_system osanwe.Gateway.Prepare.exceeds_limit
    osanwe.Gateway.Prepare.is_media_type osanwe.Gateway.Prepare.is_openai
    osanwe.Gateway.Prepare.pick_route osanwe.Gateway.Prepare.within_limit
    osanwe.Gateway.Routes.Table.if_active osanwe.Gateway.Routes.Table.lookup_active
    osanwe.Gateway.Routes.active osanwe.Gateway.Routes.before_expiry osanwe.Prelude.Table.put
    osanwe.Prelude.Text.atoi osanwe.Prelude.Text.digits_from osanwe.Prelude.Text.digits_of
    osanwe.Prelude.Text.signed
prepares = refl

dial_only : never_dispatched (net_op (codes "dial") ∷ []) ≡ true
unfolding never_dispatched bytes_eq
dial_only = refl

waits : retry_seconds 7600000000 5000000000 ≡ 3
unfolding retry_seconds
waits = refl

abbrev sent : Forward ℕ
sent = record {
  chosen = record {
    route = none;
    model = codes "m";
    rates = record { input_micros_per_million = 0; output_micros_per_million = 0 };
    output_tokens = 5;
    to_path = codes "/v1/messages";
    translated = false;
  };
  body = codes "{}";
  token = coin;
  reservation = 1;
}

abbrev after : State SpentSet ℕ
after = record {
  metrics = record no_metrics { accepted = 1 };
  tokens = (spent_key coin, 9) ∷ [];
  budget = 2;
}

passes : serve_http toy wire (of_spent_set 9) budgets cfg 0 request start ≡ (after, forwarded sent)
unfolding serve_http bytes_eq osanwe.Gateway.Server.serve_paid osanwe.Gateway.Http.header_get find
    encode_token key_id_of osanwe.Mint.Token.Tests.spell token_message repeat parse_token
    osanwe.Prelude.Text.count_byte osanwe.Prelude.Text.split osanwe.Prelude.Text.has_prefix
    osanwe.Mint.Token.Tests.read_text osanwe.Mint.Token.validate_prepared_message verify
    osanwe.Mint.Token.validate_public_key prepare_request osanwe.Gateway.Prepare.check_surface
    osanwe.Gateway.Http.has_query osanwe.Gateway.Prepare.read_body osanwe.Gateway.Http.read_limited
    osanwe.Gateway.Prepare.check_names osanwe.Gateway.Json.reject_duplicate_names
    osanwe.Gateway.Json.walk_value tokens_onto osanwe.Gateway.Json.has_more
    osanwe.Gateway.Json.read_name osanwe.Prelude.Text.is_one_of osanwe.Gateway.Json.end_object
    osanwe.Gateway.Json.end_array osanwe.Gateway.Prepare.Body.object_fields
    osanwe.Gateway.Prepare.Body.check_fields osanwe.Gateway.Prepare.Body.only_names
    osanwe.Gateway.Prepare.Body.fields_of osanwe.Prelude.Table.put
    osanwe.Gateway.Prepare.Body.is_message osanwe.Gateway.Prepare.Body.as_string
    osanwe.Gateway.Prepare.Body.is_text osanwe.Gateway.Prepare.Body.all_items
    osanwe.Gateway.Prepare.Body.read_paid osanwe.Prelude.Text.atoi osanwe.Prelude.Text.signed
    osanwe.Prelude.Text.digits_of osanwe.Prelude.Text.digits_from osanwe.Gateway.Prepare.pick_route
    osanwe.Gateway.Cost.estimate_cost_micros osanwe.Gateway.Prepare.is_openai
    osanwe.Gateway.Cost.valid_optional osanwe.Gateway.Cost.ceil_mul_div osanwe.Gateway.Cost.priced
    osanwe.Gateway.Http.first_value osanwe.Gateway.Json.at_end osanwe.Gateway.Prepare.Body.as_int
    osanwe.Gateway.Prepare.Body.if_there osanwe.Gateway.Prepare.Body.is_boolean
    osanwe.Gateway.Prepare.Body.is_messages osanwe.Gateway.Prepare.Body.is_role
    osanwe.Gateway.Prepare.Body.is_string osanwe.Gateway.Prepare.Body.is_strings
    osanwe.Gateway.Prepare.Body.is_unit_number osanwe.Gateway.Prepare.Body.model_of
    osanwe.Gateway.Prepare.Body.output_of osanwe.Gateway.Prepare.Checked.chosen_of
    osanwe.Gateway.Prepare.Checked.prepared osanwe.Gateway.Prepare.Translate.chat_items
    osanwe.Gateway.Prepare.Translate.chat_message osanwe.Gateway.Prepare.Translate.field
    osanwe.Gateway.Prepare.Translate.float_field osanwe.Gateway.Prepare.Translate.items_of
    osanwe.Gateway.Prepare.Translate.map_items osanwe.Gateway.Prepare.Translate.or_null
    osanwe.Gateway.Prepare.Translate.stop_field osanwe.Gateway.Prepare.Translate.stream_field
    osanwe.Gateway.Prepare.Translate.to_chat osanwe.Gateway.Prepare.Translate.to_openai
    osanwe.Gateway.Prepare.Translate.with_system osanwe.Gateway.Prepare.exceeds_limit
    osanwe.Gateway.Prepare.is_media_type osanwe.Gateway.Prepare.within_limit
    osanwe.Gateway.Routes.Table.if_active osanwe.Gateway.Routes.Table.lookup_active
    osanwe.Gateway.Routes.active osanwe.Gateway.Routes.before_expiry
    osanwe.Gateway.Server.is_already_spent osanwe.Gateway.Server.limit_reset
    osanwe.Gateway.Server.on_estimated osanwe.Gateway.Server.on_key osanwe.Gateway.Server.on_limit
    osanwe.Gateway.Server.on_parsed osanwe.Gateway.Server.on_prepared
    osanwe.Gateway.Server.on_reserved osanwe.Gateway.Server.on_spent
    osanwe.Gateway.Server.release_budget retry_seconds osanwe.Gateway.Server.spend_token
    osanwe.Mint.Token.Tests.read_one osanwe.Mint.Token.bit_len osanwe.Mint.Token.bits_of
    osanwe.Mint.Token.domain osanwe.Mint.Token.low_bit osanwe.Mint.Token.or_error
    osanwe.Mint.Token.parse_fields osanwe.Prelude.Bytes.put_be osanwe.Prelude.Text.in_front
    reserve_one osanwe.Mint.SpentSet.spend_in osanwe.Prelude.Table.has
passes = refl

abbrev stores : RedemptionStore SpentSet
stores = of_spent_set 9

serve_http-forwarded_example :
    IsAdmitted stores budgets wire cfg 0 request toy start after sent
    × (stores.spend coin [] ≡ (after.tokens, ok tt))
serve_http-forwarded_example =
    serve_http-forwarded stores budgets wire cfg 0 request toy start after sent passes

abbrev replayed_state : State SpentSet ℕ
replayed_state = record {
  metrics = record no_metrics { accepted = 2; replayed = 1 };
  tokens = (spent_key coin, 9) ∷ [];
  budget = 2;
}

replays :
    serve_http toy wire stores budgets cfg 0 request after
    ≡ (replayed_state, refused (refuse 409 token_spent invalid))
unfolding serve_http bytes_eq osanwe.Gateway.Server.serve_paid osanwe.Gateway.Http.header_get find
    encode_token key_id_of osanwe.Mint.Token.Tests.spell token_message repeat parse_token
    osanwe.Prelude.Text.count_byte osanwe.Prelude.Text.split osanwe.Prelude.Text.has_prefix
    osanwe.Mint.Token.Tests.read_text osanwe.Mint.Token.validate_prepared_message verify
    osanwe.Mint.Token.validate_public_key prepare_request osanwe.Gateway.Prepare.check_surface
    osanwe.Gateway.Http.has_query osanwe.Gateway.Prepare.read_body osanwe.Gateway.Http.read_limited
    osanwe.Gateway.Prepare.check_names reject_duplicate_names osanwe.Gateway.Json.walk_value
    tokens_onto osanwe.Gateway.Json.has_more osanwe.Gateway.Json.read_name
    osanwe.Prelude.Text.is_one_of osanwe.Gateway.Json.end_object osanwe.Gateway.Json.end_array
    object_fields check_fields osanwe.Gateway.Prepare.Body.only_names
    osanwe.Gateway.Prepare.Body.fields_of osanwe.Prelude.Table.put
    osanwe.Gateway.Prepare.Body.is_message osanwe.Gateway.Prepare.Body.as_string
    osanwe.Gateway.Prepare.Body.is_text osanwe.Gateway.Prepare.Body.all_items
    osanwe.Gateway.Prepare.Body.read_paid osanwe.Prelude.Text.atoi osanwe.Prelude.Text.signed
    osanwe.Prelude.Text.digits_of osanwe.Prelude.Text.digits_from osanwe.Gateway.Prepare.pick_route
    osanwe.Gateway.Cost.estimate_cost_micros osanwe.Gateway.Prepare.is_openai
    osanwe.Gateway.Cost.valid_optional osanwe.Gateway.Cost.ceil_mul_div osanwe.Gateway.Cost.priced
    osanwe.Gateway.Http.first_value osanwe.Gateway.Json.at_end osanwe.Gateway.Prepare.Body.as_int
    osanwe.Gateway.Prepare.Body.if_there osanwe.Gateway.Prepare.Body.is_boolean
    osanwe.Gateway.Prepare.Body.is_messages osanwe.Gateway.Prepare.Body.is_role
    osanwe.Gateway.Prepare.Body.is_string osanwe.Gateway.Prepare.Body.is_strings
    osanwe.Gateway.Prepare.Body.is_unit_number osanwe.Gateway.Prepare.Body.model_of
    osanwe.Gateway.Prepare.Body.output_of osanwe.Gateway.Prepare.Checked.chosen_of
    osanwe.Gateway.Prepare.Checked.prepared osanwe.Gateway.Prepare.Translate.chat_items
    osanwe.Gateway.Prepare.Translate.chat_message osanwe.Gateway.Prepare.Translate.field
    osanwe.Gateway.Prepare.Translate.float_field osanwe.Gateway.Prepare.Translate.items_of
    osanwe.Gateway.Prepare.Translate.map_items osanwe.Gateway.Prepare.Translate.or_null
    osanwe.Gateway.Prepare.Translate.stop_field osanwe.Gateway.Prepare.Translate.stream_field
    osanwe.Gateway.Prepare.Translate.to_chat osanwe.Gateway.Prepare.Translate.to_openai
    osanwe.Gateway.Prepare.Translate.with_system osanwe.Gateway.Prepare.exceeds_limit
    osanwe.Gateway.Prepare.is_media_type osanwe.Gateway.Prepare.within_limit
    osanwe.Gateway.Routes.Table.if_active osanwe.Gateway.Routes.Table.lookup_active
    osanwe.Gateway.Routes.active osanwe.Gateway.Routes.before_expiry
    osanwe.Gateway.Server.is_already_spent osanwe.Gateway.Server.limit_reset
    osanwe.Gateway.Server.on_estimated osanwe.Gateway.Server.on_key osanwe.Gateway.Server.on_limit
    osanwe.Gateway.Server.on_parsed osanwe.Gateway.Server.on_prepared
    osanwe.Gateway.Server.on_reserved osanwe.Gateway.Server.on_spent
    osanwe.Gateway.Server.release_budget retry_seconds osanwe.Gateway.Server.spend_token
    osanwe.Mint.Token.Tests.read_one osanwe.Mint.Token.bit_len osanwe.Mint.Token.bits_of
    osanwe.Mint.Token.domain osanwe.Mint.Token.low_bit osanwe.Mint.Token.or_error
    osanwe.Mint.Token.parse_fields osanwe.Prelude.Bytes.put_be osanwe.Prelude.Text.in_front
    reserve_one osanwe.Mint.SpentSet.spend_in osanwe.Prelude.Table.has spent_key
replays = refl

serve_http-refused_example :
    (((invalid ≡ rejected) ⊎ (invalid ≡ invalid)) × (replayed_state.tokens ≡ after.tokens))
    ⊎ ((invalid ≡ invalid)
        × ((t : Token) × (e : SpentError) × (stores.spend t after.tokens
              ≡ (replayed_state.tokens, err e))))
serve_http-refused_example =
    serve_http-refused stores budgets wire cfg 0 request toy after replayed_state
      (refuse 409 token_spent invalid) replays

handle_error-Refund_example :
    ((never_dispatched (dns_failure ∷ []) ≡ true)
      × Refund stores budgets sent after (handle_error stores budgets sent (dns_failure ∷ []) after)
      × ((handle_error stores budgets sent (dns_failure ∷ []) after).0.budget
          ≡ (budgets.release 1 2).0))
    ⊎ ((never_dispatched (dns_failure ∷ []) ≡ false)
        × ((handle_error stores budgets sent (dns_failure ∷ []) after).1.outcome ≡ spent)
        × ((handle_error stores budgets sent (dns_failure ∷ []) after).0.tokens ≡ after.tokens)
        × ((handle_error stores budgets sent (dns_failure ∷ []) after).0.budget ≡ after.budget))
handle_error-Refund_example = handle_error-Refund stores budgets sent (dns_failure ∷ []) after

-- The connection broke while the answer was read.
abbrev broken : List Failure
broken = net_op (codes "read") ∷ []

broken_is_no_proof : never_dispatched broken ≡ false
unfolding never_dispatched bytes_eq
broken_is_no_proof = refl

forward_once_example :
    serve_http toy wire stores budgets cfg 7 request
      (run toy wire stores budgets cfg (arrives 1 request ∷ fails sent broken ∷ []) after)
    ≢ (after, forwarded sent)
forward_once_example =
    forward_once toy wire stores budgets cfg (spent_set_laws 9) 0 7 request request start after
      after sent sent (arrives 1 request ∷ fails sent broken ∷ []) passes
      (tt, (inl broken_is_no_proof, tt)) refl

prepare_request_sound_example :
    IsInference request
    × IsRead wire cfg request sent.chosen (codes "{}")
    × IsCarried cfg 0 sent.chosen
prepare_request_sound_example =
    prepare_request_sound wire cfg 0 request sent.chosen (codes "{}") prepares
