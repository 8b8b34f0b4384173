-- ===== src/Directory/Fetch.antt =====
-- internal/directory/client.go: the endpoints are tried in an order that is an input, each with what
-- it answers and the time that it is asked at.
pub mod Newest
mod Tests
use osanwe.Prelude.{
  ℕ, ◌+◌, Bool, true, false, not, ◌&&◌, ◌||◌, Option, none, some, List, [], ◌∷◌, length, take, ltb,
  leb, ◌==◌, if◌then◌else◌,
}
use osanwe.Prelude.Go.{Result, ok, err, ◌>>=◌}
use osanwe.Directory.{
  DirectoryError, no_urls, no_authorities, no_threshold, unreachable, bad_status, too_large,
  older_consensus, Libraries, check,
}
use osanwe.Directory.Consensus.{Consensus, max_consensus_size}
use osanwe.Directory.Consensus.Parse.{Signatures, parse_consensus}

-- An endpoint's answer: none where there is no response, and whether reading the body fails.
pub record Response : Type 0 where
  pub status : ℕ
  pub body : List ℕ
  pub body_fails : Bool

pub record Endpoint : Type 0 where
  pub response : Option Response
  pub asked_at : ℕ

pub record Fetcher : Type 0 where
  pub authorities : Signatures
  pub threshold : ℕ

-- io.ReadAll of a reader limited to one byte over the maximum.
unfoldable pub read_response : Response → Result DirectoryError (List ℕ)
read_response r =
    if leb (max_consensus_size + 1) (length r.body)
    then ok (take (max_consensus_size + 1) r.body)
    else if r.body_fails
    then err unreachable
    else ok r.body

unfoldable pub of_response :
    Libraries → Fetcher → ℕ → Option Response → Result DirectoryError Consensus
of_response lib f now none = err unreachable
of_response lib f now (some r) = do
  _ ← check (r.status == 200) bad_status
  body ← read_response r
  _ ← check (not (ltb max_consensus_size (length body))) too_large
  parse_consensus lib body f.authorities f.threshold now

-- (*Fetcher).fetchOne
unfoldable pub fetch_one : Libraries → Fetcher → Endpoint → Result DirectoryError Consensus
unfolding of_response
fetch_one lib f e = of_response lib f e.asked_at e.response

-- The loop of FetchNewer.
unfoldable pub fetch_each :
    Libraries → Fetcher → ℕ → List Endpoint → Result DirectoryError Consensus
fetch_each lib f held_from [] = err unreachable
fetch_each lib f held_from (e ∷ es) =
    let rest = fetch_each lib f held_from es in
    elim (fetch_one lib f e) [
      | err _ ↦ rest
      | ok c ↦ if ltb c.valid_after held_from then rest else ok c
    ]

-- (*Fetcher).FetchNewer
unfoldable pub fetch_newer :
    Libraries → Fetcher → ℕ → List Endpoint → Result DirectoryError Consensus
unfolding fetch_each
fetch_newer lib f held_from endpoints = do
  _ ← check (not (length endpoints == 0)) no_urls
  _ ← check (not (length f.authorities == 0)) no_authorities
  _ ← check (leb 1 f.threshold) no_threshold
  fetch_each lib f held_from endpoints

-- (*Fetcher).Fetch
unfoldable pub fetch : Libraries → Fetcher → List Endpoint → Result DirectoryError Consensus
fetch lib f endpoints = fetch_newer lib f 0 endpoints
