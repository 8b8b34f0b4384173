-- ===== src/Gateway/Http.antt =====
-- net/http as the gateway uses it: requests, and headers as a map from canonical names to values.
use osanwe.Prelude.{
  ℕ, Bool, not, ◌||◌, Option, none, some, List, [], ◌∷◌, length, take, leb, ◌==◌, if◌then◌else◌,
}
use osanwe.Prelude.Go.{ℤ}
use osanwe.Prelude.Table.{find, put, remove}

abbrev pub Header : Type 0
Header = List (List ℕ × List (List ℕ))

unfoldable pub first_value : Option (List (List ℕ)) → List ℕ
first_value (some (v ∷ vs)) = v
first_value _ = []

-- (Header).Get, Set and Del of a canonical name.
unfoldable pub header_get : List ℕ → Header → List ℕ
unfolding first_value
header_get name h = first_value (find name h)

unfoldable pub header_set : List ℕ → List ℕ → Header → Header
header_set name v h = put name (v ∷ []) h

unfoldable pub header_del : List (List ℕ) → Header → Header
header_del [] h = h
header_del (name ∷ names) h = header_del names (remove name h)

pub record Request : Type 0 where
  pub method : List ℕ
  pub path : List ℕ
  pub force_query : Bool
  pub raw_query : List ℕ
  pub header : Header
  pub has_trailers : Bool
  pub content_length : ℤ
  -- What the body delivers, and whether reading it ends in an error.
  pub body : List ℕ
  pub body_fails : Bool

unfoldable pub has_query : Request → Bool
has_query r = r.force_query || not (length r.raw_query == 0)

-- io.ReadAll of an io.LimitReader: an error behind the limit is not met.
unfoldable pub read_limited : ℕ → Request → Option (List ℕ)
read_limited limit r =
    if leb limit (length r.body)
    then some (take limit r.body)
    else if r.body_fails
    then none
    else some r.body
