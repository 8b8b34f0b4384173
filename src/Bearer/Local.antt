-- ===== src/Bearer/Local.antt =====
-- What reaches the local client.
use osanwe.Prelude.{
  ℕ, ◌≡◌, ◌⊎◌, true, false, not, ◌&&◌, ◌||◌, List, length, ◌==◌, arith, Bool-cases, inl, inr,
}
use osanwe.Prelude.Go.{ok, Result-cases}
use osanwe.Prelude.Text.{codes, bytes_eq}
use osanwe.Gateway.Http.{header_get}
use osanwe.Bearer.{
  Settings, Names, Visit, is_loopback_host, origin_allowed, is_other_site, check_origin,
  ui_entry_navigation, routed,
}

module _ (names : Names) (cfg : Settings) (r : Visit) where
  abbrev origin : List ℕ
  origin = header_get (codes "Origin") r.header

  -- A person's navigation to the entry page of the interface.
  abbrev pub IsEntry : Type 0
  IsEntry =
      (cfg.ui ≡ true)
      × (bytes_eq r.method (codes "GET") ≡ true)
      × ((bytes_eq r.path (codes "/_osanwe/") || bytes_eq r.path (codes "/_osanwe")) ≡ true)
      × (bytes_eq (header_get (codes "Sec-Fetch-Mode") r.header) (codes "navigate") ≡ true)

  abbrev pub IsLocal : Type 0
  IsLocal =
      ((cfg.allow_non_loopback || is_loopback_host names r.host) ≡ true)
      × (((length origin == 0) ≡ true) ⊎ (origin_allowed names cfg origin ≡ true))
      × ((is_other_site (header_get (codes "Sec-Fetch-Site") r.header) ≡ false) ⊎ IsEntry)

  check_origin-IsLocal : check_origin names cfg r ≡ ok tt → IsLocal
  unfolding check_origin
  check_origin-IsLocal h =
      elim (Bool-cases (is_other_site (header_get (codes "Sec-Fetch-Site") r.header))) [
        | inl a ↦ absurd (ground (arith, h, a))
        | inr a ↦
            elim (Bool-cases (not cfg.allow_non_loopback && not (is_loopback_host names r.host))) [
              | inl b ↦ absurd (ground (arith, h, a, b))
              | inr b ↦ (
                ground (arith, b),
                elim (Bool-cases (length origin == 0)) [
                  | inl d ↦ inl d
                  | inr d ↦ inr (ground (arith, h, a, b, d))
                ],
                inl a,
              )
            ]
      ]

  entry-IsLocal : ui_entry_navigation names cfg r ≡ true → IsLocal
  unfolding ui_entry_navigation
  entry-IsLocal h = (
    ground (arith, h),
    inl (ground (arith, h)),
    inr (ground (arith, h), ground (arith, h), ground (arith, h), ground (arith, h)),
  )

  -- A request that the handler lets through names a loopback host, unless the settings open the client
  -- to others. It has no origin, or one that is listed or loopback. It does not come from another site,
  -- unless it is a navigation by GET to the entry page of the interface.
  pub routed-IsLocal : routed names cfg r ≡ ok tt → IsLocal
  unfolding routed
  routed-IsLocal h = elim (Result-cases (check_origin names cfg r)) [
    | inl (u, k) ↦ check_origin-IsLocal k
    | inr (e, k) ↦ elim (Bool-cases (ui_entry_navigation names cfg r)) [
      | inl l ↦ entry-IsLocal l
      | inr l ↦ absurd (ground (arith, h, k, l))
    ]
  ]
