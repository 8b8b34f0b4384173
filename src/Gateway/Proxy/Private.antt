-- ===== src/Gateway/Proxy/Private.antt =====
-- What a client gets of a provider's response.
use osanwe.Prelude.{
  ℕ, ◌+◌, ◌==◌, length, leb, ◌≡◌, ◌⊎◌, refl, sym, ap, subst, ◌∙◌, Bool, true, false, ◌||◌, Option,
  none, some, List, [], ◌∷◌, arith, Bool-cases, Option-cases, some_injective, inl, inr,
  if◌then◌else◌,
}
use osanwe.Prelude.Go.{negsuc}
use osanwe.Prelude.Table.{find, put, remove, remove_if, find-put, find-remove}
use osanwe.Prelude.Text.{
  codes, bytes_eq, eq_of_bytes_eq, bytes_eq_refl, bytes_eq_iff, is_one_of, has_prefix, to_lower,
}
use osanwe.Gateway.Routes.{Credential}
use osanwe.Gateway.Http.{Header, header_get, header_set, header_del}
use osanwe.Gateway.Prepare.{Config}
use osanwe.Gateway.Proxy.{
  Pick, Response, Shapes, strip_credential, trigger_names, is_access_control, strip_triggers,
  set_private, redirects, outcome_name, set_retry, replaced, with_outcome, cleaned, translate_back,
  converted, finished, modify_response, credential_for, is_translated, safe_retry, max_routed_body,
  redirect_message, capacity_body,
}

-- The names that no response carries, of which each makes a browser go, report or connect elsewhere,
-- store something, or pin a key or a policy.
abbrev pub barred_names : List (List ℕ)
barred_names =
    codes "Location"
    ∷ codes "Refresh"
    ∷ codes "Link"
    ∷ codes "Alt-Svc"
    ∷ codes "Set-Cookie"
    ∷ codes "Report-To"
    ∷ codes "Reporting-Endpoints"
    ∷ codes "Nel"
    ∷ codes "Expect-Ct"
    ∷ codes "Public-Key-Pins"
    ∷ codes "Public-Key-Pins-Report-Only"
    ∷ codes "Content-Security-Policy"
    ∷ codes "Content-Security-Policy-Report-Only"
    ∷ []

-- One of these names, or one that lets another page read the response.
unfoldable pub is_trigger : List ℕ → Bool
is_trigger name =
    is_one_of barred_names name || has_prefix (codes "access-control-") (to_lower name)

abbrev pub IsQuiet : Header → Type 0
IsQuiet h = (name : List ℕ) → is_trigger name ≡ true → find name h ≡ none

put-IsQuiet :
    (key : List ℕ) (v : List (List ℕ)) (h : Header)
    → is_trigger key ≡ false
    → IsQuiet h
    → IsQuiet (put key v h)
put-IsQuiet key v h fine quiet name trigger =
    find-put key name v h ∙ elim (Bool-cases (bytes_eq key name)) [
      | inl e ↦
          let same = eq_of_bytes_eq key name e in
          absurd (ground (arith, sym (ap is_trigger same) ∙ fine, trigger))
      | inr e ↦ rw e (quiet name trigger)
    ]

remove-IsQuiet : (key : List ℕ) (h : Header) → IsQuiet h → IsQuiet (remove key h)
remove-IsQuiet key h quiet name trigger =
    find-remove key name h ∙ elim (Bool-cases (bytes_eq key name)) [
      | inl e ↦ rw e refl
      | inr e ↦ rw e (quiet name trigger)
    ]

find-header_del :
    (name : List ℕ) (names : List (List ℕ)) (h : Header)
    → ((find name h ≡ none) ⊎ (is_one_of names name ≡ true))
    → find name (header_del names h) ≡ none
unfolding header_del is_one_of
find-header_del name [] h known = elim known [ inl k ↦ k | inr k ↦ absurd (cc) ]
find-header_del name (n ∷ names) h known =
    find-header_del name names (remove n h) (elim (Bool-cases (bytes_eq n name)) [
      | inl e ↦ inl (ground (arith, find-remove n name h, e))
      | inr e ↦ elim known [
        | inl k ↦ inl (ground (arith, find-remove n name h, e, k))
        | inr k ↦ inr (ground (arith, e, k))
      ]
    ])

find-remove_if :
    (name : List ℕ) (p : List ℕ → List (List ℕ) → Bool) (h : Header)
    → ((find name h ≡ none) ⊎ ((v : List (List ℕ)) → p name v ≡ true))
    → find name (remove_if p h) ≡ none
unfolding remove_if find
find-remove_if name p [] known = refl
find-remove_if name p ((k, v) ∷ h) known = elim (Bool-cases (bytes_eq k name)) [
  | inl e ↦ elim known [
    | inl l ↦ absurd (ground (arith, e, l))
    | inr l ↦
        let gone : p k v ≡ true = subst (λ n. p n v ≡ true) (sym (eq_of_bytes_eq k name e)) (l v) in
        rw gone (find-remove_if name p h (inr l))
  ]
  | inr e ↦
      let rest : find name (remove_if p h) ≡ none =
        find-remove_if name p h
          (elim known [ inl l ↦ inl (ground (arith, e, l)) | inr l ↦ inr l ]) in
      elim (Bool-cases (p k v)) [ inl l ↦ rw l rest | inr l ↦ rw (l, e) rest ]
]

strip_triggers-IsQuiet : (h : Header) → IsQuiet (strip_triggers h)
unfolding strip_triggers is_trigger is_access_control
strip_triggers-IsQuiet h name trigger = elim (Bool-cases (is_one_of barred_names name)) [
  | inl k ↦
      find-remove_if name _ (header_del trigger_names h)
        (inl (find-header_del name trigger_names h (inr k)))
  | inr k ↦
      let control : is_access_control name ≡ true =
        sym (ap (λ b. b || is_access_control name) k) ∙ trigger in
      find-remove_if name _ (header_del trigger_names h) (inr (λ v. control))
]

set_private-IsQuiet : (h : Header) → IsQuiet h → IsQuiet (set_private h)
unfolding set_private header_set is_trigger is_one_of bytes_eq is_access_control
    osanwe.Prelude.Text.has_prefix osanwe.Prelude.Text.to_lower osanwe.Prelude.Text.lower
set_private-IsQuiet h quiet = put-IsQuiet (codes "X-Content-Type-Options") _ _ refl (
    put-IsQuiet (codes "Referrer-Policy") _ _ refl
      (put-IsQuiet (codes "Pragma") _ _ refl (put-IsQuiet (codes "Cache-Control") _ h refl quiet)))

cleaned-IsQuiet : (c : Credential) (h : Header) → IsQuiet (cleaned c h)
unfolding cleaned header_del
cleaned-IsQuiet c h = remove-IsQuiet outcome_name _ (
    remove-IsQuiet (codes "Trailer") _ (
      set_private-IsQuiet (strip_triggers (strip_credential c h))
        (strip_triggers-IsQuiet (strip_credential c h))))

-- What the client can rely on.
pub record IsPrivate (r : Response) : Type 0 where
  pub outcome : find outcome_name r.header ≡ some (codes "spent" ∷ [])
  pub quiet : IsQuiet r.header
  pub stays : redirects r.status ≡ false
  pub no_trailers : r.trailers ≡ []

with_outcome-IsPrivate :
    (r : Response)
    → IsQuiet r.header
    → redirects r.status ≡ false
    → r.trailers ≡ []
    → IsPrivate (with_outcome r)
unfolding with_outcome header_set is_trigger is_one_of bytes_eq is_access_control
    osanwe.Prelude.Text.has_prefix osanwe.Prelude.Text.to_lower osanwe.Prelude.Text.lower
with_outcome-IsPrivate r quiet stays no_trailers = record {
  outcome =
      find-put outcome_name outcome_name (codes "spent" ∷ []) r.header
      ∙ ap (λ b. if b then some (codes "spent" ∷ []) else find outcome_name r.header)
          (bytes_eq_refl outcome_name);
  quiet = put-IsQuiet outcome_name (codes "spent" ∷ []) r.header refl quiet;
  stays = stays;
  no_trailers = no_trailers;
}

set_retry-IsQuiet : (s : List ℕ) (h : Header) → IsQuiet h → IsQuiet (set_retry s h)
unfolding set_retry header_set is_trigger is_one_of bytes_eq is_access_control
    osanwe.Prelude.Text.has_prefix osanwe.Prelude.Text.to_lower osanwe.Prelude.Text.lower
set_retry-IsQuiet [] h quiet = quiet
set_retry-IsQuiet (c ∷ s) h quiet = put-IsQuiet (codes "Retry-After") _ h refl quiet

replaced-IsPrivate :
    (shapes : Shapes) (status : ℕ) (retry body : List ℕ)
    → redirects status ≡ false
    → IsPrivate (with_outcome (replaced shapes status retry body))
unfolding replaced header_set is_trigger is_one_of bytes_eq is_access_control
    osanwe.Prelude.Text.has_prefix osanwe.Prelude.Text.to_lower osanwe.Prelude.Text.lower find
replaced-IsPrivate shapes status retry body stays =
    with_outcome-IsPrivate (replaced shapes status retry body)
      (put-IsQuiet (codes "Content-Length") _ _ refl (
        set_private-IsQuiet _ (
          set_retry-IsQuiet retry _
            (put-IsQuiet (codes "Content-Type") _ [] refl (λ name trigger. refl)))))
      stays refl

converted_kept :
    (shapes : Shapes) (raw : List ℕ) (body : Option (List ℕ)) (r : Response)
    → IsQuiet r.header
    → IsQuiet (converted shapes raw body r).header
      × ((converted shapes raw body r).status ≡ r.status)
      × ((converted shapes raw body r).trailers ≡ r.trailers)
unfolding converted header_set is_trigger is_one_of bytes_eq is_access_control
    osanwe.Prelude.Text.has_prefix osanwe.Prelude.Text.to_lower osanwe.Prelude.Text.lower
converted_kept shapes raw none r quiet =
    (put-IsQuiet (codes "Content-Length") _ r.header refl quiet, refl, refl)
converted_kept shapes raw (some body) r quiet =
    (put-IsQuiet (codes "Content-Length") _ r.header refl quiet, refl, refl)

abbrev IsKept : Response → Response → Type 0
IsKept r t = IsQuiet t.header × (t.status ≡ r.status) × (t.trailers ≡ r.trailers)

translate_back-IsKept :
    (shapes : Shapes) (r t : Response)
    → IsQuiet r.header
    → translate_back shapes r ≡ some t
    → IsKept r t
unfolding translate_back header_del
translate_back-IsKept shapes r t quiet h =
    let streams =
      has_prefix (codes "text/event-stream") (header_get (codes "Content-Type") r.header) in
    elim (Bool-cases (leb 400 r.status)) [
      | inl a ↦ let same : r ≡ t = ground (arith, h, a) in subst (IsKept r) same (quiet, refl, refl)
      | inr a ↦ elim (Bool-cases streams) [
        | inl b ↦
            let streamed : Response = record r {
              body = shapes.stream_from_openai r.body;
              content_length = negsuc 0;
              header = remove (codes "Content-Length") r.header;
            } in
            let same : streamed ≡ t = ground (arith, h, a, b) in
            subst (IsKept r) same
              (remove-IsQuiet (codes "Content-Length") r.header quiet, refl, refl)
        | inr b ↦ elim (Bool-cases (leb (max_routed_body + 1) (length r.body))) [
          | inl d ↦ absurd (ground (arith, h, a, b, d))
          | inr d ↦ elim (Bool-cases r.body_fails) [
            | inl e ↦ absurd (ground (arith, h, a, b, d, e))
            | inr e ↦
                let same : converted shapes r.body (shapes.from_openai r.body) r ≡ t =
                  ground (arith, h, a, b, d, e) in
                subst (IsKept r) same
                  (converted_kept shapes r.body (shapes.from_openai r.body) r quiet)
          ]
        ]
      ]
    ]

finished-IsPrivate :
    (o : Option Response) (r : Response)
    → ((t : Response) → o ≡ some t → IsPrivate (with_outcome t))
    → finished o ≡ some r
    → IsPrivate r
unfolding finished
finished-IsPrivate none r h k = absurd (cc)
finished-IsPrivate (some t) r h k =
    let same : with_outcome t ≡ r = cc in subst IsPrivate same (h t refl)

-- Whatever a provider answers, a response that the hook passes on states that the token is spent in
-- the gateway's words alone. It has no Location, Refresh, Link, Alt-Svc, Set-Cookie, Report-To,
-- Reporting-Endpoints, NEL, Expect-CT, Public-Key-Pins or Content-Security-Policy header, nor the
-- report-only form of the last two, and none whose name starts with access-control-. It has no
-- trailers, and is no redirect that a client follows.
pub modify_response-IsPrivate :
    (shapes : Shapes) (cfg : Config) (pick : Option Pick) (provided r : Response)
    → modify_response shapes cfg pick provided ≡ some r
    → IsPrivate r
unfolding modify_response
modify_response-IsPrivate shapes cfg pick provided r h =
    let kept : Response = record provided {
      header = cleaned (credential_for cfg pick) provided.header;
      trailers = [];
      transfer_encoding = [];
    } in
    let quiet = cleaned-IsQuiet (credential_for cfg pick) provided.header in
    elim (Bool-cases (redirects provided.status)) [
      | inl a ↦
          finished-IsPrivate
            (some (
              replaced shapes 502 []
                (shapes.error_json (codes "osanwe_redirect_blocked") redirect_message)))
            r
            (λ t k.
              subst (λ x. IsPrivate (with_outcome x)) (some_injective k)
                (replaced-IsPrivate shapes 502 [] _ refl))
            (ground (arith, h, a))
      | inr a ↦ elim (Bool-cases (provided.status == 429)) [
        | inl b ↦
            finished-IsPrivate
              (some (
                replaced shapes 429 (safe_retry (header_get (codes "Retry-After") kept.header))
                  capacity_body))
              r
              (λ t k.
                subst (λ x. IsPrivate (with_outcome x)) (some_injective k)
                  (replaced-IsPrivate shapes 429 _ _ refl))
              (ground (arith, h, a, b))
        | inr b ↦ elim (Bool-cases (is_translated pick)) [
          | inl d ↦
              finished-IsPrivate (translate_back shapes kept) r
                (λ t k.
                  let (still_quiet, same, none_left) =
                    translate_back-IsKept shapes kept t quiet k in
                  with_outcome-IsPrivate t still_quiet (ap redirects same ∙ a) none_left)
                (ground (arith, h, a, b, d))
          | inr d ↦
              finished-IsPrivate (some kept) r
                (λ t k.
                  subst (λ x. IsPrivate (with_outcome x)) (some_injective k)
                    (with_outcome-IsPrivate kept quiet a refl))
                (ground (arith, h, a, b, d))
        ]
      ]
    ]
