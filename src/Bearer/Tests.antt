-- ===== src/Bearer/Tests.antt =====
-- A client on loopback, where 127.0.0.1 is the only loopback address.
use osanwe.Prelude.{ℕ, ◌≡◌, refl, Bool, true, false, Option, none, some, List, [], ◌∷◌}
use osanwe.Prelude.Go.{ok, err}
use osanwe.Prelude.Text.{codes, bytes_eq, trim_prefix}
use osanwe.Gateway.Http.{Header}
use osanwe.Bearer.{
  Settings, Names, Visit, from_other_site, origin_not_allowed, host_not_loopback, routed,
}
use osanwe.Bearer.Local.{IsLocal, routed-IsLocal}

abbrev names : Names
names = record {
  url_host = λ origin. some (trim_prefix (codes "http://") origin);
  is_loopback_ip = λ host. bytes_eq host (codes "127.0.0.1");
}

abbrev cfg : Settings
cfg = record { allow_origins = []; allow_non_loopback = false; ui = true }

abbrev visit : List ℕ → List ℕ → Header → Visit
visit host path header = record {
  method = codes "GET";
  path = path;
  raw_query = [];
  host = host;
  header = header;
}

own_page :
    routed names cfg (
      visit
        (codes "127.0.0.1:80")
        (codes "/v1")
        ((codes "Origin", codes "http://localhost:80" ∷ []) ∷ []))
    ≡ ok tt
unfolding routed bytes_eq osanwe.Gateway.Http.header_get osanwe.Prelude.Table.find
    osanwe.Bearer.origin_allowed trim_prefix osanwe.Prelude.Text.has_prefix
    osanwe.Bearer.is_loopback_host osanwe.Prelude.Text.equal_fold osanwe.Prelude.Text.to_lower
    osanwe.Prelude.Text.trim_suffix osanwe.Prelude.Text.has_suffix
    osanwe.Prelude.Net.split_host_port osanwe.Prelude.Net.cut_last_colon
    osanwe.Prelude.Text.has_byte osanwe.Prelude.Text.lower
own_page = refl

rebound_name : routed names cfg (visit (codes "evil.com") (codes "/v1") []) ≡ err host_not_loopback
unfolding routed bytes_eq osanwe.Gateway.Http.header_get osanwe.Prelude.Table.find
    osanwe.Bearer.is_loopback_host osanwe.Prelude.Text.equal_fold osanwe.Prelude.Text.to_lower
    osanwe.Prelude.Text.trim_suffix osanwe.Prelude.Text.has_suffix osanwe.Prelude.Text.has_prefix
    trim_prefix osanwe.Prelude.Net.split_host_port osanwe.Prelude.Net.cut_last_colon
    osanwe.Prelude.Text.lower
rebound_name = refl

other_origin :
    routed names cfg (
      visit (codes "localhost") (codes "/v1") ((codes "Origin", codes "http://evil.com" ∷ []) ∷ []))
    ≡ err origin_not_allowed
unfolding routed bytes_eq osanwe.Gateway.Http.header_get osanwe.Prelude.Table.find
    osanwe.Bearer.origin_allowed trim_prefix osanwe.Prelude.Text.has_prefix
    osanwe.Bearer.is_loopback_host osanwe.Prelude.Text.equal_fold osanwe.Prelude.Text.to_lower
    osanwe.Prelude.Text.trim_suffix osanwe.Prelude.Text.has_suffix
    osanwe.Prelude.Net.split_host_port osanwe.Prelude.Net.cut_last_colon osanwe.Prelude.Text.lower
other_origin = refl

abbrev link : Header
link =
    (codes "Sec-Fetch-Site", codes "cross-site" ∷ [])
    ∷ (codes "Sec-Fetch-Mode", codes "navigate" ∷ [])
    ∷ (codes "Sec-Fetch-Dest", codes "document" ∷ [])
    ∷ []

link_elsewhere :
    routed names cfg (visit (codes "localhost") (codes "/v1") link) ≡ err from_other_site
unfolding routed bytes_eq osanwe.Gateway.Http.header_get osanwe.Prelude.Table.find
link_elsewhere = refl

entry_link : routed names cfg (visit (codes "localhost") (codes "/_osanwe/") link) ≡ ok tt
unfolding routed bytes_eq osanwe.Gateway.Http.header_get osanwe.Prelude.Table.find
    osanwe.Bearer.is_loopback_host osanwe.Prelude.Text.equal_fold osanwe.Prelude.Text.to_lower
    osanwe.Prelude.Text.trim_suffix osanwe.Prelude.Text.has_suffix osanwe.Prelude.Text.has_prefix
    trim_prefix osanwe.Prelude.Net.split_host_port osanwe.Prelude.Net.cut_last_colon
    osanwe.Prelude.Text.lower
entry_link = refl

routed-IsLocal_example : IsLocal names cfg (visit (codes "localhost") (codes "/_osanwe/") link)
routed-IsLocal_example =
    routed-IsLocal names cfg (visit (codes "localhost") (codes "/_osanwe/") link) entry_link
