-- ===== src/Gateway/Prepare/Sound.antt =====
-- What a request that is let through satisfies.
use osanwe.Prelude.{
  ℕ, ◌+◌, ◌≤◌, ◌<◌, ◌≡◌, ◌⊎◌, inl, inr, refl, sym, ap, subst, ◌∙◌, Bool-cases, true, false, Option,
  none, some, List, [], ◌∷◌, All, length, take, leb, leb→le, length-take, arith, Option-cases,
}
use osanwe.Prelude.Go.{bind-ok, ℤ, pos, negsuc, Result, ok, err}
use osanwe.Prelude.Text.{codes, bytes_eq_iff, is_one_of}
use osanwe.Prelude.Table.{find}
use osanwe.Gateway.Cost.{CostRates}
use osanwe.Gateway.Json.{JsonError, reject_duplicate_names}
use osanwe.Gateway.Http.{Request, has_query, header_get, read_limited}
use osanwe.Gateway.Routes.{Route, Routes}
use osanwe.Gateway.Routes.Table.{lookup_active}
use osanwe.Gateway.Prepare.{
  Wire, Config, Chosen, PolicyError, check_surface, read_body, check_names, pick_route, is_openai,
  within_limit,
}
use osanwe.Gateway.Prepare.Body.{
  Fields, object_fields, check_fields, only_names, is_messages, read_paid, model_of, output_of,
  as_string, as_int,
}
use osanwe.Gateway.Prepare.Translate.{to_openai}
use osanwe.Gateway.Prepare.Checked.{prepare_request, prepared, chosen_of}

-- The surface of an inference request.
abbrev pub IsInference : Request → Type 0
IsInference r =
    (r.method ≡ codes "POST")
    × (r.path ≡ codes "/v1/messages")
    × (has_query r ≡ false)
    × (length (header_get (codes "Content-Encoding") r.header) ≡ 0)
    × (r.has_trailers ≡ false)

check_surface-IsInference :
    (wire : Wire) (cfg : Config) (r : Request) → check_surface wire cfg r ≡ ok tt → IsInference r
unfolding check_surface
check_surface-IsInference wire cfg r h = (
  ground (arith, bytes_eq_iff r.method (codes "POST")),
  ground (arith, bytes_eq_iff r.path (codes "/v1/messages")),
  ground arith,
  ground arith,
  ground arith,
)

-- Nothing of the body is left out, and it was read without an error.
read_limited-whole :
    (cfg : Config) (r : Request) (buf : List ℕ)
    → read_body cfg r ≡ ok buf
    → (r.body ≡ buf) × (r.body_fails ≡ false) × (length r.body ≤ cfg.max_request_body)
unfolding read_body within_limit read_limited
read_limited-whole cfg r buf h =
    elim (Bool-cases (leb (cfg.max_request_body + 1) (length r.body))) [
      | inl e ↦
          let cut : length (take (cfg.max_request_body + 1) r.body) ≡ cfg.max_request_body + 1 =
            length-take (cfg.max_request_body + 1) r.body (leb→le _ _ e) in
          absurd (ground (arith, e, h, cut))
      | inr e ↦ elim (Bool-cases r.body_fails) [
        | inl f ↦ absurd (ground (arith, e, f, h))
        | inr f ↦ (ground (arith, e, f, h), f, ground (arith, e))
      ]
    ]

-- The model is on the list, or its route is in force.
abbrev pub IsCarried : Config → ℕ → Chosen → Type 0
IsCarried cfg now c =
    ((cfg.routes ≡ none)
      × (c.route ≡ none)
      × (is_one_of cfg.models c.model ≡ true)
      × (c.rates ≡ cfg.cost))
    ⊎ ((rt : Routes) × (route : Route) × (cfg.routes ≡ some rt)
        × (lookup_active rt c.model now ≡ some route)
        × (c.route ≡ some route)
        × (c.rates ≡ route.cost))

pick_route-cases :
    (cfg : Config) (model : List ℕ) (now : ℕ) (route : Option Route) (rates : CostRates)
    → pick_route cfg model now ≡ ok (route, rates)
    → ((cfg.routes ≡ none)
        × (route ≡ none)
        × (is_one_of cfg.models model ≡ true)
        × (rates ≡ cfg.cost))
      ⊎ ((rt : Routes) × (r : Route) × (cfg.routes ≡ some rt)
          × (lookup_active rt model now ≡ some r)
          × (route ≡ some r)
          × (rates ≡ r.cost))
unfolding pick_route
pick_route-cases cfg model now route rates h = elim (Option-cases cfg.routes) [
  | inl e ↦ inl (e, ground (arith, e), ground (arith, e), ground (arith, e))
  | inr (rt, e) ↦ elim (Option-cases (lookup_active rt model now)) [
    | inl f ↦ absurd (ground (arith, e, f))
    | inr (r, f) ↦ inr (rt, r, e, f, ground (arith, e, f), ground (arith, e, f))
  ]
]

output_of_bound : (limit n : ℕ) (z : Option ℤ) → output_of limit z ≡ ok n → (0 < n) × (n ≤ limit)
unfolding output_of
output_of_bound limit n none h = absurd (cc)
output_of_bound limit n (some (pos m)) h = ground arith
output_of_bound limit n (some (negsuc m)) h = absurd (cc)

ok-tuple : {A B : Type 0} {x y : A × B} → ◌≡◌ {A = Result PolicyError (A × B)} (ok x) (ok y) → x ≡ y
ok-tuple h = cc

output_of_given : (limit n : ℕ) (z : Option ℤ) → output_of limit z ≡ ok n → z ≡ some (pos n)
unfolding output_of
output_of_given limit n none h = absurd (cc)
output_of_given limit n (some (pos m)) h =
    let same : m ≡ n = ground (arith, h) in ap (λ k. some (pos k)) same
output_of_given limit n (some (negsuc m)) h = absurd (cc)

model_of_given :
    (text : Option (List ℕ)) (model : List ℕ) → model_of text ≡ ok model → text ≡ some model
unfolding model_of
model_of_given none model h = absurd (cc)
model_of_given (some []) model h = absurd (cc)
model_of_given (some (c ∷ s)) model h = let same : c ∷ s ≡ model = cc in ap (λ m. some m) same

-- The model and the output that are paid for are the ones that the fields name.
abbrev pub IsPaid : Config → Fields → List ℕ → ℕ → Type 0
IsPaid cfg fields model n =
    (as_string (find (codes "model") fields) ≡ some model)
    × (as_int (find (codes "max_tokens") fields) ≡ some (pos n))
    × (0 < n)
    × (n ≤ cfg.max_output_tokens)

read_paid-IsPaid :
    (cfg : Config) (fields : Fields) (model : List ℕ) (n : ℕ)
    → read_paid cfg fields ≡ ok (model, n)
    → IsPaid cfg fields model n
unfolding read_paid
read_paid-IsPaid cfg fields model n h =
    let asked = as_int (find (codes "max_tokens") fields) in
    let named = as_string (find (codes "model") fields) in
    let (m, text, h1) = bind-ok (model_of named) _ h in
    let (k, out, h2) = bind-ok (output_of cfg.max_output_tokens asked) _ h1 in
    let same = ok-tuple h2 in
    let same_model : m ≡ model = ap (λ p. p.0) same in
    let same_output : k ≡ n = ap (λ p. p.1) same in
    let granted : output_of cfg.max_output_tokens asked ≡ ok n = out ∙ ap (λ x. ok x) same_output in
    let (positive, bounded) = output_of_bound cfg.max_output_tokens n asked granted in
    (
      model_of_given named model (text ∙ ap (λ x. ok x) same_model),
      output_of_given cfg.max_output_tokens n asked granted,
      positive,
      bounded,
    )

-- Only these two requests reach a provider: the fields that were checked, as they are or translated.
abbrev pub IsDestined : Wire → Fields → Chosen → List ℕ → Type 0
IsDestined wire fields c sent =
    ((is_openai c.route ≡ false)
      × (c.translated ≡ false)
      × (c.to_path ≡ codes "/v1/messages")
      × (sent ≡ wire.marshal fields))
    ⊎ ((is_openai c.route ≡ true)
        × (c.translated ≡ true)
        × (c.to_path ≡ codes "/v1/chat/completions")
        × (sent ≡ wire.marshal (to_openai wire.float_text fields).1))

prepared_facts :
    (wire : Wire) (route : Option Route) (rates : CostRates) (model : List ℕ) (n : ℕ)
    (fields : Fields) (c : Chosen) (sent : List ℕ)
    → prepared wire (route, rates) (model, n) fields ≡ (c, sent)
    → (c.route ≡ route)
      × (c.rates ≡ rates)
      × (c.model ≡ model)
      × (c.output_tokens ≡ n)
      × IsDestined wire fields c sent
unfolding prepared chosen_of to_openai
prepared_facts wire route rates model n fields c sent h = elim (Bool-cases (is_openai route)) [
  | inl e ↦
      let same : c.route ≡ route = ground (arith, e) in
      (
        same,
        ground (arith, e),
        ground (arith, e),
        ground (arith, e),
        inr (ap is_openai same ∙ e, ground (arith, e), ground (arith, e), ground (arith, e)),
      )
  | inr e ↦
      let same : c.route ≡ route = ground (arith, e) in
      (
        same,
        ground (arith, e),
        ground (arith, e),
        ground (arith, e),
        inl (ap is_openai same ∙ e, ground (arith, e), ground (arith, e), ground (arith, e)),
      )
]

-- The names that a request may have at its top.
abbrev pub permitted : List (List ℕ)
permitted =
    codes "model"
    ∷ codes "max_tokens"
    ∷ codes "messages"
    ∷ codes "system"
    ∷ codes "stream"
    ∷ codes "temperature"
    ∷ codes "top_p"
    ∷ codes "stop_sequences"
    ∷ []

only_names-All :
    (allowed : List (List ℕ)) (fields : Fields)
    → only_names allowed fields ≡ true
    → All (λ field. is_one_of allowed field.0 ≡ true) fields
unfolding only_names
only_names-All allowed [] h = tt
only_names-All allowed (field ∷ fields) h =
    (ground (arith, h), only_names-All allowed fields (ground (arith, h)))

check_fields-permitted :
    (wire : Wire) (fields : Fields)
    → check_fields wire fields ≡ ok tt
    → All (λ field. is_one_of permitted field.0 ≡ true) fields
      × (is_messages (find (codes "messages") fields) ≡ true)
unfolding check_fields
check_fields-permitted wire fields h =
    (only_names-All permitted fields (ground (arith, h)), ground (arith, h))

check_names-ok : (r : Result JsonError (Unit {0})) → check_names r ≡ ok tt → r ≡ ok tt
unfolding check_names
check_names-ok (ok u) h = refl
check_names-ok (err e) h = ground arith

IsCarried-moved :
    (cfg : Config) (now : ℕ) (c : Chosen) (model : List ℕ) (route : Option Route)
    (rates : CostRates)
    → c.route ≡ route
    → c.rates ≡ rates
    → c.model ≡ model
    → ((cfg.routes ≡ none)
        × (route ≡ none)
        × (is_one_of cfg.models model ≡ true)
        × (rates ≡ cfg.cost))
      ⊎ ((rt : Routes) × (r : Route) × (cfg.routes ≡ some rt)
          × (lookup_active rt model now ≡ some r)
          × (route ≡ some r)
          × (rates ≡ r.cost))
    → IsCarried cfg now c
IsCarried-moved cfg now c model route rates e f g (inl (a, b, l, d)) =
    inl (a, e ∙ b, ap (is_one_of cfg.models) g ∙ l, f ∙ d)
IsCarried-moved cfg now c model route rates e f g (inr (rt, r, a, l, b, d)) =
    inr (rt, r, a, ap (λ m. lookup_active rt m now) g ∙ l, e ∙ b, f ∙ d)

-- What the request's own body is found to be, all of it, and what is made of it.
abbrev pub IsRead : Wire → Config → Request → Chosen → List ℕ → Type 0
IsRead wire cfg r c sent =
    (r.body_fails ≡ false)
    × (length r.body ≤ cfg.max_request_body)
    × (reject_duplicate_names (wire.tokens r.body) ≡ ok tt)
    × ((fields : Fields) × (object_fields (wire.parse r.body) ≡ ok fields)
        × All (λ field. is_one_of permitted field.0 ≡ true) fields
        × (is_messages (find (codes "messages") fields) ≡ true)
        × (check_fields wire fields ≡ ok tt)
        × IsPaid cfg fields c.model c.output_tokens
        × IsDestined wire fields c sent)

-- A request that prepareRequest lets through is a plain POST to /v1/messages whose whole body was
-- read and is within the limit. The body has no duplicate names, only the permitted fields and
-- text-only messages. The model and the output that are paid for are the ones it names, the output
-- is positive and within the limit, and the model is carried at the time. What is sent are these
-- fields to /v1/messages, or their translation to /v1/chat/completions where the route's provider
-- speaks OpenAI's API.
pub prepare_request_sound :
    (wire : Wire) (cfg : Config) (now : ℕ) (r : Request) (c : Chosen) (sent : List ℕ)
    → prepare_request wire cfg now r ≡ ok (c, sent)
    → IsInference r × IsRead wire cfg r c sent × IsCarried cfg now c
unfolding prepare_request
prepare_request_sound wire cfg now r c sent h =
    let (_, surface, h1) = bind-ok (check_surface wire cfg r) _ h in
    let (buf, read, h2) = bind-ok (read_body cfg r) _ h1 in
    let (_, names, h3) = bind-ok (check_names (reject_duplicate_names (wire.tokens buf))) _ h2 in
    let (fields, parsed, h4) = bind-ok (object_fields (wire.parse buf)) _ h3 in
    let (_, checked, h5) = bind-ok (check_fields wire fields) _ h4 in
    let ((model, n), tokens, h6) = bind-ok (read_paid cfg fields) _ h5 in
    let ((route, rates), picked, h7) = bind-ok (pick_route cfg model now) _ h6 in
    let (same_route, same_rates, same_model, same_tokens, destined) =
      prepared_facts wire route rates model n fields c sent (ok-tuple h7) in
    let (whole, no_error, bounded) = read_limited-whole cfg r buf read in
    let (only_permitted, messages) = check_fields-permitted wire fields checked in
    let paid = read_paid-IsPaid cfg fields model n tokens in
    (
      check_surface-IsInference wire cfg r surface,
      (
        no_error,
        bounded,
        subst (λ b. reject_duplicate_names (wire.tokens b) ≡ ok tt) (sym whole)
            (check_names-ok (reject_duplicate_names (wire.tokens buf)) names),
        (
          fields,
          subst (λ b. object_fields (wire.parse b) ≡ ok fields) (sym whole) parsed,
          only_permitted,
          messages,
          checked,
          subst (λ m. IsPaid cfg fields m c.output_tokens) (sym same_model)
              (subst (IsPaid cfg fields model) (sym same_tokens) paid),
          destined,
        ),
      ),
      IsCarried-moved cfg now c model route rates same_route same_rates same_model
          (pick_route-cases cfg model now route rates picked),
    )
