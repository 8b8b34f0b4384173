-- ===== src/Gateway/Server/Order.antt =====
-- What has happened before a request is forwarded, and what a refusal leaves.
use osanwe.Prelude.{
  ℕ, ◌≡◌, ◌⊎◌, inl, inr, refl, sym, ap, subst, ◌∙◌, ◌+◌, true, ◌&&◌, Option, none, some, List,
  length, ◌==◌, Option-cases, Bool-cases,
}
use osanwe.Prelude.Go.{pos, ok, err, Result-cases}
use osanwe.Prelude.Text.{codes, bytes_eq}
use osanwe.Prelude.Table.{find}
use osanwe.Mint.Token.{Token, PublicKey, Crypto, parse_token, verify}
use osanwe.Mint.SpentFile.{SpentError}
use osanwe.Gateway.Cost.{estimate_cost_micros}
use osanwe.Gateway.Budget.{BudgetRequest}
use osanwe.Gateway.Http.{Request, header_get, has_query}
use osanwe.Gateway.Prepare.{Wire, Config, Chosen, token_spent, redemption_unavailable}
use osanwe.Gateway.Prepare.Checked.{prepare_request}
use osanwe.Gateway.Server.{
  RedemptionStore, BudgetStore, rejected, invalid, State, Answer, Forward, Served, catalog, refused,
  forwarded, refuse, release_budget, on_spent, spend_token, on_reserved, on_estimated, on_prepared,
  on_key, on_parsed, serve_paid, serve_http, with_metrics, is_already_spent, limit_reset, on_limit,
}

paired : {A C : Type 0} {p : A × C} {c : C} → p.1 ≡ c → p ≡ (p.0, c)
paired {p = p} h = ap (λ d. (p.0, d)) h

module _ {S B R : Type 0} (stores : RedemptionStore S) (budgets : BudgetStore B R) where
  -- A refusal leaves the tokens, or the store itself refused to take one.
  abbrev pub Refusal : State S B → State S B × Served R → Type 0
  Refusal s (later, served) =
      (a : Answer) × (served ≡ refused a)
      × ((((a.outcome ≡ rejected) ⊎ (a.outcome ≡ invalid)) × (later.tokens ≡ s.tokens))
          ⊎ ((a.outcome ≡ invalid)
              × ((t : Token) × (e : SpentError) × (stores.spend t s.tokens
                    ≡ (later.tokens, err e)))))

  -- The token of a forwarded request was taken by the store, and its capacity is reserved.
  abbrev pub Passage : (Forward R → Type 0) → State S B → State S B × Served R → Type 0
  Passage Fact s (later, served) =
      (f : Forward R) × (served ≡ forwarded f)
      × (stores.spend f.token s.tokens ≡ (later.tokens, ok tt))
      × Fact f

  release_budget-tokens : (r : R) (s : State S B) → (release_budget budgets r s).tokens ≡ s.tokens
  unfolding release_budget
  release_budget-tokens r s = elim (Bool-cases (budgets.release r s.budget).1) [
    | inl e ↦ rw e refl
    | inr e ↦ rw e refl
  ]

  on_spent-Refusal :
      (f : Forward R) (s : State S B) (tokens : S) (e : SpentError)
      → stores.spend f.token s.tokens ≡ (tokens, err e)
      → Refusal s (on_spent budgets f (record s { tokens = tokens }) (err e))
  unfolding on_spent
  on_spent-Refusal f s tokens e h =
      let kept : (release_budget budgets f.reservation (record s { tokens = tokens })).tokens
          ≡ tokens =
        release_budget-tokens f.reservation (record s { tokens = tokens }) in
      elim (Bool-cases (is_already_spent e)) [
        | inl k ↦ rw k (refuse 409 token_spent invalid, refl, inr (refl, (f.token, e, rw kept h)))
        | inr k ↦
            rw k
              (refuse 503 redemption_unavailable invalid, refl, inr (refl, (f.token, e, rw kept h)))
      ]

  -- Refused, or forwarded as it was asked for.
  abbrev pub Ends : (Forward R → Type 0) → State S B → State S B × Served R → Type 0
  Ends Fact s out = Refusal s out ⊎ Passage Fact s out

  spend_token-Ends :
      (f : Forward R) (s : State S B)
      → Ends
          (λ g. (g ≡ f) × ((spend_token stores budgets f s).0.budget ≡ s.budget))
          s
          (spend_token stores budgets f s)
  unfolding spend_token
  spend_token-Ends f s = elim (Result-cases (stores.spend f.token s.tokens).1) [
    | inl (u, k) ↦ rw (k, on_spent) (inr (f, refl, paired k, (refl, refl)))
    | inr (e, k) ↦ rw k (inl (on_spent-Refusal f s (stores.spend f.token s.tokens).0 e (paired k)))
  ]

  with_fact :
      (Fact Next : Forward R → Type 0) (s : State S B) (out : State S B × Served R)
      → ((f : Forward R) → Fact f → Next f)
      → Ends Fact s out
      → Ends Next s out
  with_fact Fact Next s out k (inl h) = inl h
  with_fact Fact Next s out k (inr (f, a, b, c)) = inr (f, a, b, k f c)

  on_limit-Refusal : (now : ℕ) (s : State S B) (reset : Option ℕ) → Refusal s (on_limit now s reset)
  unfolding on_limit
  on_limit-Refusal now s (some reset) = (_, refl, inl (inl refl, refl))
  on_limit-Refusal now s none = (_, refl, inl (inl refl, refl))

  -- What is reserved for a forwarded request.
  abbrev pub IsReserved : Token → Chosen → List ℕ → ℕ → State S B → B → Forward R → Type 0
  IsReserved t c body micros s budget f =
      (f.token ≡ t)
      × (f.chosen ≡ c)
      × (f.body ≡ body)
      × (budgets.reserve
            (record {
              input_bytes = pos (length body);
              max_output_tokens = pos c.output_tokens;
              cost_micros = micros;
            })
            s.budget
          ≡ (budget, ok f.reservation))

  on_estimated-Ends :
      (now : ℕ) (t : Token) (c : Chosen) (body : List ℕ) (s : State S B) (micros : ℕ)
      → Ends
          (IsReserved t c body micros s
            (on_estimated stores budgets now t c body s (ok micros)).0.budget)
          s
          (on_estimated stores budgets now t c body s (ok micros))
  unfolding on_estimated on_reserved
  on_estimated-Ends now t c body s micros =
      let request : BudgetRequest = record {
        input_bytes = pos (length body);
        max_output_tokens = pos c.output_tokens;
        cost_micros = micros;
      } in
      let budget = (budgets.reserve request s.budget).0 in
      elim (Result-cases (budgets.reserve request s.budget).1) [
        | inl (r, k) ↦
            let asked : Forward R = record {
              chosen = c;
              body = body;
              token = t;
              reservation = r;
            } in
            rw (k, on_reserved)
              (with_fact _ _ s (spend_token stores budgets asked (record s { budget = budget }))
                (λ g h. (
                  ap (λ f. f.token) h.0,
                  ap (λ f. f.chosen) h.0,
                  ap (λ f. f.body) h.0,
                  rw (h.1, ap (λ f. f.reservation) h.0) refl,
                ))
                (spend_token-Ends asked (record s { budget = budget })))
        | inr (e, k) ↦
            rw k (inl (on_limit-Refusal now (record s { budget = budget }) (limit_reset e)))
      ]

  -- What the paid steps have established for a forwarded request.
  abbrev pub IsPaid : Config → Wire → ℕ → Request → State S B → B → Forward R → Type 0
  IsPaid cfg wire now r s budget f =
      (prepare_request wire cfg now r ≡ ok (f.chosen, f.body))
      × ((micros : ℕ) × (estimate_cost_micros (pos (length f.body)) (pos f.chosen.output_tokens)
              f.chosen.rates
            ≡ ok micros)
          × IsReserved f.token f.chosen f.body micros s budget f)

  module _ (wire : Wire) (cfg : Config) (now : ℕ) (r : Request) where
    on_prepared-Ends :
        (t : Token) (s : State S B)
        → Ends
            (λ f.
              (f.token ≡ t)
              × IsPaid cfg wire now r s
                  (on_prepared stores budgets now t s (prepare_request wire cfg now r)).0.budget
                  f)
            s
            (on_prepared stores budgets now t s (prepare_request wire cfg now r))
    unfolding on_prepared
    on_prepared-Ends t s = elim (Result-cases (prepare_request wire cfg now r)) [
      | inr (e, k) ↦ rw k (inl (_, refl, inl (inl refl, refl)))
      | inl ((c, body), k) ↦
          elim (Result-cases
            (estimate_cost_micros (pos (length body)) (pos c.output_tokens) c.rates)) [
              | inr (e, l) ↦ rw (k, l) (inl (_, refl, inl (inl refl, refl)))
              | inl (micros, l) ↦
                  rw (k, l)
                    (with_fact _ _ s (on_estimated stores budgets now t c body s (ok micros))
                      (λ f h. (
                        h.0,
                        (
                          rw (h.1, h.2) refl,
                          (micros, rw (h.1, h.2) l, (refl, refl, refl, rw (h.1, h.2) h.3)),
                        ),
                      ))
                      (on_estimated-Ends now t c body s micros))
            ]
    ]

    module _ (crypto : Crypto) where
      -- The token is one that a key of this gateway signed, as the request presented it.
      abbrev pub IsSigned : List ℕ → Forward R → Type 0
      IsSigned raw f =
          (parse_token crypto raw ≡ ok f.token)
          × ((key : PublicKey) × (find f.token.key_id cfg.mint_keys ≡ some key)
              × (verify crypto key f.token ≡ true))

      -- Everything that comes before the proxy.
      abbrev pub IsAdmitted : State S B → State S B → Forward R → Type 0
      IsAdmitted s later f =
          IsSigned (header_get (codes "X-Osanwe-Token") r.header) f
          × IsPaid cfg wire now r s later.budget f

      on_parsed-Ends :
          (raw : List ℕ) (s : State S B)
          → Ends
              (λ f.
                IsSigned raw f
                × IsPaid cfg wire now r s
                    (on_parsed crypto wire stores budgets cfg now r s
                      (parse_token crypto raw)).0.budget
                    f)
              s
              (on_parsed crypto wire stores budgets cfg now r s (parse_token crypto raw))
      unfolding on_parsed on_key
      on_parsed-Ends raw s = elim (Result-cases (parse_token crypto raw)) [
        | inr (e, k) ↦ rw k (inl (_, refl, inl (inr refl, refl)))
        | inl (t, k) ↦ elim (Option-cases (find t.key_id cfg.mint_keys)) [
          | inl l ↦ rw (k, l) (inl (_, refl, inl (inr refl, refl)))
          | inr (key, l) ↦ elim (Bool-cases (verify crypto key t)) [
            | inr m ↦ rw (k, l, m) (inl (_, refl, inl (inr refl, refl)))
            | inl m ↦
                rw (k, l, m)
                  (with_fact _ _ s
                    (on_prepared stores budgets now t s (prepare_request wire cfg now r))
                    (λ f h. (
                      (
                        ap ok (sym h.0),
                        (
                          key,
                          ap (λ u. find u.key_id cfg.mint_keys) h.0 ∙ l,
                          ap (verify crypto key) h.0 ∙ m,
                        ),
                      ),
                      h.1,
                    ))
                    (on_prepared-Ends t s))
          ]
        ]
      ]

      pub serve_http-Ends :
          (s : State S B)
          → (((serve_http crypto wire stores budgets cfg now r s).1 ≡ catalog)
              × ((serve_http crypto wire stores budgets cfg now r s).0.tokens ≡ s.tokens))
            ⊎ Ends
                (IsAdmitted s (serve_http crypto wire stores budgets cfg now r s).0)
                s
                (serve_http crypto wire stores budgets cfg now r s)
      unfolding serve_http serve_paid
      serve_http-Ends s =
          elim (Bool-cases
            (bytes_eq r.method (codes "GET") && bytes_eq r.path (codes "/v1/models"))) [
              | inl k ↦ elim (Bool-cases (has_query r)) [
                | inl l ↦ rw (k, l) (inr (inl (_, refl, inl (inl refl, refl))))
                | inr l ↦ rw (k, l) (inl (refl, refl))
              ]
              | inr k ↦
                  elim (Bool-cases (length (header_get (codes "X-Osanwe-Token") r.header) == 0)) [
                    | inl l ↦ rw (k, l) (inr (inl (_, refl, inl (inr refl, refl))))
                    | inr l ↦
                        rw (k, l)
                          (inr (
                            on_parsed-Ends (header_get (codes "X-Osanwe-Token") r.header) (
                              with_metrics
                                (record (s.metrics) { accepted = s.metrics.accepted + 1 }) s)))
                  ]
            ]

      forwarded_case :
          (s later : State S B) (f : Forward R)
          → (((◌≡◌ {A = Served R} (forwarded f) catalog) × (later.tokens ≡ s.tokens))
              ⊎ Ends (IsAdmitted s later) s (later, forwarded f))
          → IsAdmitted s later f × (stores.spend f.token s.tokens ≡ (later.tokens, ok tt))
      forwarded_case s later f (inl (h, _)) = absurd (cc)
      forwarded_case s later f (inr (inl (a, h, _))) = absurd (cc)
      forwarded_case s later f (inr (inr (g, h, taken, fact))) =
          let same : g ≡ f = cc in
          (
            subst (IsAdmitted s later) same fact,
            subst (λ u. stores.spend u.token s.tokens ≡ (later.tokens, ok tt)) same taken,
          )

      refused_case :
          (s later : State S B) (a : Answer)
          → (((◌≡◌ {A = Served R} (refused a) catalog) × (later.tokens ≡ s.tokens))
              ⊎ Ends (IsAdmitted s later) s (later, refused a))
          → (((a.outcome ≡ rejected) ⊎ (a.outcome ≡ invalid)) × (later.tokens ≡ s.tokens))
            ⊎ ((a.outcome ≡ invalid)
                × ((t : Token) × (e : SpentError) × (stores.spend t s.tokens
                      ≡ (later.tokens, err e))))
      refused_case s later a (inl (h, _)) = absurd (cc)
      refused_case s later a (inr (inr (g, h, _, _))) = absurd (cc)
      refused_case s later a (inr (inl (b, h, outcome))) =
          let same : b ≡ a = cc in
          subst
            (λ c.
              (((c.outcome ≡ rejected) ⊎ (c.outcome ≡ invalid)) × (later.tokens ≡ s.tokens))
              ⊎ ((c.outcome ≡ invalid)
                  × ((t : Token) × (e : SpentError) × (stores.spend t s.tokens
                        ≡ (later.tokens, err e)))))
            same outcome

      -- A request is forwarded to a provider only with a token that one of the gateway's keys
      -- signed, within the request policy, after its estimated cost is reserved and after the
      -- store took the token.
      pub serve_http-forwarded :
          (s later : State S B) (f : Forward R)
          → serve_http crypto wire stores budgets cfg now r s ≡ (later, forwarded f)
          → IsAdmitted s later f × (stores.spend f.token s.tokens ≡ (later.tokens, ok tt))
      serve_http-forwarded s later f h = forwarded_case s later f (
          subst
            (λ out.
              ((out.1 ≡ catalog) × (out.0.tokens ≡ s.tokens)) ⊎ Ends (IsAdmitted s out.0) s out)
            h (serve_http-Ends s))

      -- A refused request is reported as rejected or invalid and leaves every token as it was, or it
      -- is reported as invalid since the store itself refused to take the token.
      pub serve_http-refused :
          (s later : State S B) (a : Answer)
          → serve_http crypto wire stores budgets cfg now r s ≡ (later, refused a)
          → (((a.outcome ≡ rejected) ⊎ (a.outcome ≡ invalid)) × (later.tokens ≡ s.tokens))
            ⊎ ((a.outcome ≡ invalid)
                × ((t : Token) × (e : SpentError) × (stores.spend t s.tokens
                      ≡ (later.tokens, err e))))
      serve_http-refused s later a h = refused_case s later a (
          subst
            (λ out.
              ((out.1 ≡ catalog) × (out.0.tokens ≡ s.tokens)) ⊎ Ends (IsAdmitted s out.0) s out)
            h (serve_http-Ends s))
