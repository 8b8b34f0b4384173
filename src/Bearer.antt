-- ===== src/Bearer.antt =====
-- internal/bearer/guard.go and the handler of internal/bearer/status.go: which requests a page in the user's browser can make of the local client.
-- url.Parse gives the host of an origin, and a parameter tells the IP addresses that are loopback.
pub mod Local
mod Tests
use osanwe.Prelude.{
  ℕ, Bool, true, false, not, ◌&&◌, ◌||◌, Option, none, some, List, [], ◌∷◌, length, ◌==◌,
  if◌then◌else◌,
}
use osanwe.Prelude.Go.{Result, ok, err}
use osanwe.Prelude.Net.{split_host_port}
use osanwe.Prelude.Text.{
  codes, bytes_eq, has_suffix, trim_prefix, trim_suffix, to_lower, equal_fold,
}
use osanwe.Gateway.Http.{Header, header_get}

pub data OriginError : Type 0 where
  from_other_site origin_not_allowed host_not_loopback : OriginError

pub record Settings : Type 0 where
  pub allow_origins : List (List ℕ)
  pub allow_non_loopback : Bool
  pub ui : Bool

-- The host of a URL that parses, and which addresses are loopback.
pub record Names : Type 0 where
  pub url_host : List ℕ → Option (List ℕ)
  pub is_loopback_ip : List ℕ → Bool

pub record Visit : Type 0 where
  pub method : List ℕ
  pub path : List ℕ
  pub raw_query : List ℕ
  pub host : List ℕ
  pub header : Header

unfoldable pub host_part : List ℕ → Option (List ℕ × List ℕ) → List ℕ
host_part s none = s
host_part s (some (host, port)) = host

unfoldable pub bare_host : List ℕ → List ℕ
unfolding host_part
bare_host s = trim_suffix (codes "]") (trim_prefix (codes "[") (host_part s (split_host_port s)))

-- isLoopbackHost
unfoldable pub is_loopback_host : Names → List ℕ → Bool
unfolding bare_host
is_loopback_host names s =
    equal_fold (bare_host s) (codes "localhost")
    || (has_suffix (codes ".localhost") (to_lower (bare_host s))
        || names.is_loopback_ip (bare_host s))

unfoldable pub is_listed : List ℕ → List (List ℕ) → Bool
is_listed origin [] = false
is_listed origin (allowed ∷ rest) =
    equal_fold (trim_suffix (codes "/") allowed) (trim_suffix (codes "/") origin)
    || is_listed origin rest

unfoldable pub is_loopback_url : Names → Option (List ℕ) → Bool
is_loopback_url names none = false
is_loopback_url names (some []) = false
is_loopback_url names (some (c ∷ host)) = is_loopback_host names (c ∷ host)

-- originAllowed
unfoldable pub origin_allowed : Names → Settings → List ℕ → Bool
unfolding is_listed is_loopback_url
origin_allowed names cfg origin =
    is_listed origin cfg.allow_origins || is_loopback_url names (names.url_host origin)

unfoldable pub is_other_site : List ℕ → Bool
is_other_site s = bytes_eq s (codes "cross-site") || bytes_eq s (codes "same-site")

-- checkOrigin
unfoldable pub check_origin : Names → Settings → Visit → Result OriginError (Unit {0})
unfolding is_other_site
check_origin names cfg r =
    let origin = header_get (codes "Origin") r.header in
    if is_other_site (header_get (codes "Sec-Fetch-Site") r.header)
    then err from_other_site
    else if not (length origin == 0) && not (origin_allowed names cfg origin)
    then err origin_not_allowed
    else if not cfg.allow_non_loopback && not (is_loopback_host names r.host)
    then err host_not_loopback
    else ok tt

-- uiEntryNavigation
unfoldable pub ui_entry_navigation : Names → Settings → Visit → Bool
ui_entry_navigation names cfg r =
    if not cfg.ui
      || (not (bytes_eq r.method (codes "GET"))
          || (not (length r.raw_query == 0)
              || not (length (header_get (codes "Origin") r.header) == 0)))
    then false
    else if not (bytes_eq r.path (codes "/_osanwe/")) && not (bytes_eq r.path (codes "/_osanwe"))
    then false
    else bytes_eq (header_get (codes "Sec-Fetch-Mode") r.header) (codes "navigate")
      && (bytes_eq (header_get (codes "Sec-Fetch-Dest") r.header) (codes "document")
          && (cfg.allow_non_loopback || is_loopback_host names r.host))

-- The handler of (*Server).routes: a request is refused, or goes on to the mux.
unfoldable pub routed : Names → Settings → Visit → Result OriginError (Unit {0})
unfolding check_origin ui_entry_navigation
routed names cfg r = elim (check_origin names cfg r) [
  | ok _ ↦ ok tt
  | err e ↦ if ui_entry_navigation names cfg r then ok tt else err e
]
