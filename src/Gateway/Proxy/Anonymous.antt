-- ===== src/Gateway/Proxy/Anonymous.antt =====
-- What a provider learns from the header of a request.
use osanwe.Prelude.{ℕ, ◌≡◌, ◌++◌, Bool, true, Option, none, some, List, [], ◌∷◌, if◌then◌else◌}
use osanwe.Prelude.Table.{find}
use osanwe.Prelude.Text.{codes, bytes_eq}
use osanwe.Gateway.Routes.{Credential}
use osanwe.Gateway.Proxy.{Outgoing, capitals}

abbrev version_name : List ℕ
version_name = codes "Anthropic-Version"

abbrev json : List ℕ
json = codes "application/json"

-- The values that go out under a name.
unfoldable pub sent_values : Bool → Credential → List ℕ → Option (List (List ℕ))
sent_values versioned c name =
    if bytes_eq (capitals true c.header) name
    then some ((c.prefix ++ c.value) ∷ [])
    else if bytes_eq (codes "User-Agent") name
    then some ([] ∷ [])
    else if bytes_eq version_name name
    then (if versioned then some (codes "2023-06-01" ∷ []) else none)
    else if bytes_eq (codes "Content-Type") name
    then some (json ∷ [])
    else if bytes_eq (codes "Accept") name
    then some (json ∷ [])
    else none

-- What goes out depends on the gateway's configuration and the route alone.
abbrev pub IsSameRequest : Outgoing → Outgoing → Type 0
IsSameRequest a b =
    (a.target ≡ b.target)
    × (a.trailers ≡ b.trailers)
    × (a.transfer_encoding ≡ b.transfer_encoding)
    × ((name : List ℕ) → find name a.header ≡ find name b.header)
