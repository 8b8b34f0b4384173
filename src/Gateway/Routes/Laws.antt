-- ===== src/Gateway/Routes/Laws.antt =====
-- What a table of routes lets a model be sent to.
use osanwe.Prelude.{
  ℕ, ◌≡◌, refl, true, false, ◌&&◌, ◌||◌, Option, none, some, List, [], ◌∷◌, arith, Bool-cases,
  Option-cases, inl, inr,
}
use osanwe.Prelude.Go.{ok, Result-cases}
use osanwe.Prelude.Text.{codes, bytes_eq, bytes_eq_iff, is_one_of}
use osanwe.Prelude.Sort.{sort_in, sort_strings}
use osanwe.Prelude.Table.{find, has, put, find-put, has-put, find-has}
use osanwe.Gateway.Routes.{
  Url, ParseUrl, is_empty, active, credential_valid, credential_of, Route, Routes,
}
use osanwe.Gateway.Routes.Table.{
  check_route, check_upstream, with_policy, add_routes, names_of, of_table, new_routes, if_active,
  lookup_active, is_listed, active_of, active_models,
}

is_empty-nil : (s : List ℕ) → is_empty s ≡ true → s ≡ []
unfolding is_empty
is_empty-nil [] h = refl
is_empty-nil (c ∷ s) h = cc

is_one_of-sort_in :
    (s model : List ℕ) (ts : List (List ℕ))
    → is_one_of (sort_in s ts) model ≡ (bytes_eq s model || is_one_of ts model)
unfolding is_one_of sort_in
is_one_of-sort_in s model [] = refl
is_one_of-sort_in s model (t ∷ ts) = ground (arith, is_one_of-sort_in s model ts)

is_one_of-sort_strings :
    (model : List ℕ) (ts : List (List ℕ)) → is_one_of (sort_strings ts) model ≡ is_one_of ts model
unfolding sort_strings is_one_of
is_one_of-sort_strings model [] = refl
is_one_of-sort_strings model (t ∷ ts) =
    ground (arith, is_one_of-sort_in t model (sort_strings ts), is_one_of-sort_strings model ts)

has_nothing : (model : List ℕ) → has {V = Route} model [] ≡ false
unfolding has
has_nothing model = refl

missing_inactive : (now : ℕ) (r : Option Route) → r ≡ none → is_listed (if_active now r) ≡ false
unfolding is_listed if_active
missing_inactive now r h = ground arith

module _ (parse_url : ParseUrl) where
  -- What the loop keeps of the table.
  abbrev IsChecked : List (List ℕ × Route) → Type 0
  IsChecked by_model =
      (model : List ℕ) (r : Route)
      → find model by_model ≡ some r
      → (r.model ≡ model) × (check_route parse_url r ≡ ok tt)

  put-IsChecked :
      (r : Route) (by_model : List (List ℕ × Route))
      → check_route parse_url (with_policy r) ≡ ok tt
      → IsChecked by_model
      → IsChecked (put r.model (with_policy r) by_model)
  unfolding with_policy
  put-IsChecked r by_model fine checked model found h = elim (Bool-cases (bytes_eq r.model model)) [
    | inl e ↦ ground (
      arith,
      e,
      fine,
      h,
      bytes_eq_iff r.model model,
      find-put r.model model (with_policy r) by_model,
    )
    | inr e ↦
        checked model found (ground (arith, e, find-put r.model model (with_policy r) by_model))
  ]

  add_routes-step :
      (r : Route) (list : List Route) (by_model later : List (List ℕ × Route))
      → add_routes parse_url (r ∷ list) by_model ≡ ok later
      → (check_route parse_url (with_policy r) ≡ ok tt)
        × (add_routes parse_url list (put r.model (with_policy r) by_model) ≡ ok later)
  unfolding add_routes
  add_routes-step r list by_model later h =
      elim (Result-cases (check_route parse_url (with_policy r))) [
        | inr (e, k) ↦ absurd (ground (arith, k))
        | inl (u, k) ↦ (k, ground (arith, k))
      ]

  add_routes-IsChecked :
      (list : List Route) (by_model later : List (List ℕ × Route))
      → IsChecked by_model
      → add_routes parse_url list by_model ≡ ok later
      → IsChecked later
  unfolding add_routes
  add_routes-IsChecked [] by_model later checked h =
      λ model r k. checked model r (ground (arith, h, k))
  add_routes-IsChecked (r ∷ list) by_model later checked h =
      let (fine, rest) = add_routes-step r list by_model later h in
      add_routes-IsChecked list _ later (put-IsChecked r by_model fine checked) rest

  has-add_routes :
      (model : List ℕ) (list : List Route) (by_model later : List (List ℕ × Route))
      → add_routes parse_url list by_model ≡ ok later
      → has model later ≡ (is_one_of (names_of list) model || has model by_model)
  unfolding add_routes names_of is_one_of
  has-add_routes model [] by_model later h = ground arith
  has-add_routes model (r ∷ list) by_model later h =
      let (_, rest) = add_routes-step r list by_model later h in
      ground (
        arith,
        has-add_routes model list _ later rest,
        has-put r.model model (with_policy r) by_model,
      )

  check_upstream_sound :
      (u : Option Url)
      → check_upstream u ≡ ok tt
      → (url : Url) × (u ≡ some url)
        × (url.scheme ≡ codes "https")
        × (is_empty url.host ≡ false)
        × (url.has_user ≡ false)
        × (url.raw_query ≡ [])
  unfolding check_upstream is_empty
  check_upstream_sound none h = absurd (cc)
  check_upstream_sound (some u) h = (
    u,
    refl,
    ground (arith, bytes_eq_iff u.scheme (codes "https")),
    ground arith,
    ground arith,
    is_empty-nil u.raw_query (ground arith),
  )

  check_route_upstream :
      (r : Route) → check_route parse_url r ≡ ok tt → check_upstream (parse_url r.upstream) ≡ ok tt
  unfolding check_route
  check_route_upstream r h = ground arith

  check_route_credential :
      (r : Route)
      → check_route parse_url r ≡ ok tt
      → credential_valid (credential_of r.style r.secret) ≡ ok tt
  unfolding check_route
  check_route_credential r h = ground arith

  new_routes-found :
      (list : List Route) (rt : Routes)
      → new_routes parse_url list ≡ ok rt
      → (add_routes parse_url list [] ≡ ok rt.by_model) × (rt.order ≡ sort_strings (names_of list))
  unfolding new_routes of_table
  new_routes-found list rt h = elim (Result-cases (add_routes parse_url list [])) [
    | inr (e, k) ↦ absurd (ground (arith, k))
    | inl (m, k) ↦ (ground (arith, k), ground (arith, k))
  ]

  lookup_active-found :
      (rt : Routes) (model : List ℕ) (now : ℕ) (r : Route)
      → lookup_active rt model now ≡ some r
      → (find model rt.by_model ≡ some r) × (active r.lifecycle now ≡ true)
  unfolding lookup_active if_active
  lookup_active-found rt model now r h = elim (Option-cases (find model rt.by_model)) [
    | inl e ↦ absurd (ground (arith, e))
    | inr (s, e) ↦ (ground (arith, e), ground (arith, e))
  ]

  -- A model that a table built by NewRoutes routes at some time has a route of its own name which
  -- is not expired then. It leads to an https URL with a host, without user information and without
  -- a query, and its credential is one the gateway accepts.
  pub lookup_active_sound :
      (list : List Route) (rt : Routes) (model : List ℕ) (now : ℕ) (r : Route)
      → new_routes parse_url list ≡ ok rt
      → lookup_active rt model now ≡ some r
      → (r.model ≡ model)
        × (active r.lifecycle now ≡ true)
        × (credential_valid (credential_of r.style r.secret) ≡ ok tt)
        × ((url : Url) × (parse_url r.upstream ≡ some url)
            × (url.scheme ≡ codes "https")
            × (is_empty url.host ≡ false)
            × (url.has_user ≡ false)
            × (url.raw_query ≡ []))
  lookup_active_sound list rt model now r h k =
      let (built, _) = new_routes-found list rt h in
      let (found, fresh) = lookup_active-found rt model now r k in
      let (named, checked) =
        add_routes-IsChecked list [] rt.by_model (λ m s e. unfold find in absurd (cc)) built model r
          found in
      (
        named,
        fresh,
        check_route_credential r checked,
        check_upstream_sound (parse_url r.upstream) (check_route_upstream r checked),
      )

  is_one_of-active_of :
      (by_model : List (List ℕ × Route)) (now : ℕ) (model : List ℕ) (order : List (List ℕ))
      → is_one_of (active_of by_model now order) model
        ≡ (is_one_of order model && is_listed (if_active now (find model by_model)))
  unfolding is_one_of active_of
  is_one_of-active_of by_model now model [] = refl
  is_one_of-active_of by_model now model (m ∷ order) =
      ground (arith, bytes_eq_iff m model, is_one_of-active_of by_model now model order)

  -- The catalog of a table built by NewRoutes lists exactly the models that a request is routed for
  -- at the same time.
  pub active_models_iff :
      (list : List Route) (rt : Routes) (model : List ℕ) (now : ℕ)
      → new_routes parse_url list ≡ ok rt
      → is_one_of (active_models rt now) model ≡ is_listed (lookup_active rt model now)
  unfolding active_models lookup_active
  active_models_iff list rt model now h =
      let (built, sorted) = new_routes-found list rt h in
      ground (
        arith,
        is_one_of-active_of rt.by_model now model rt.order,
        is_one_of-sort_strings model (names_of list),
        sorted,
        has-add_routes model list [] rt.by_model built,
        has_nothing model,
        missing_inactive now (find model rt.by_model),
        find-has model rt.by_model,
      )
