-- ===== src/Directory/Fetch/Newest.antt =====
-- What a client that already holds a consensus is given.
use osanwe.Prelude.{
  ℕ, ◌≤◌, ◌≡◌, ◌⊎◌, sym, ap, subst, ◌∙◌, false, not, Option, none, some, List, [], ◌∷◌, length, leb,
  ltb, ◌==◌, arith, Bool-cases, inl, inr, ltb→le,
}
use osanwe.Prelude.Go.{ok, bind-ok, Result-cases, ok_injective}
use osanwe.Directory.{
  Libraries, check, bad_status, too_large, no_urls, no_authorities, no_threshold,
}
use osanwe.Directory.Consensus.{Consensus, max_consensus_size}
use osanwe.Directory.Consensus.Threshold.{IsAgreed, parse_consensus-IsAgreed}
use osanwe.Directory.Fetch.{
  Response, Endpoint, Fetcher, read_response, of_response, fetch_one, fetch_each, fetch_newer,
}

module _ (lib : Libraries) (f : Fetcher) where
  of_response-IsAgreed :
      (now : ℕ) (r : Option Response) (c : Consensus)
      → of_response lib f now r ≡ ok c
      → IsAgreed lib f.authorities f.threshold now c
  unfolding of_response
  of_response-IsAgreed now none c h = absurd (cc)
  of_response-IsAgreed now (some r) c h =
      let (_, _, h1) = bind-ok (check (r.status == 200) bad_status) _ h in
      let (body, _, h2) = bind-ok (read_response r) _ h1 in
      let (_, _, h3) =
        bind-ok (check (not (ltb max_consensus_size (length body))) too_large) _ h2 in
      parse_consensus-IsAgreed lib body f.authorities f.threshold now c h3

  -- One of the endpoints answered with this consensus, which is agreed at the time it was asked.
  unfoldable pub IsAnswered : List Endpoint → Consensus → Type 0
  IsAnswered [] c = ⊥
  IsAnswered (e ∷ es) c =
      ((fetch_one lib f e ≡ ok c) × IsAgreed lib f.authorities f.threshold e.asked_at c)
      ⊎ IsAnswered es c

  abbrev pub IsNewer : ℕ → List Endpoint → Consensus → Type 0
  IsNewer held_from endpoints c = (held_from ≤ c.valid_after) × IsAnswered endpoints c

  fetch_one-IsAgreed :
      (e : Endpoint) (c : Consensus)
      → fetch_one lib f e ≡ ok c
      → IsAgreed lib f.authorities f.threshold e.asked_at c
  unfolding fetch_one
  fetch_one-IsAgreed e c h = of_response-IsAgreed e.asked_at e.response c h

  taken :
      (held_from : ℕ) (e : Endpoint) (es : List Endpoint) (d : Consensus)
      → fetch_one lib f e ≡ ok d
      → ltb d.valid_after held_from ≡ false
      → fetch_each lib f held_from (e ∷ es) ≡ ok d
  unfolding fetch_each
  taken held_from e es d k l = ground (arith, k, l)

  fetch_each-IsNewer :
      (held_from : ℕ) (endpoints : List Endpoint) (c : Consensus)
      → fetch_each lib f held_from endpoints ≡ ok c
      → IsNewer held_from endpoints c
  unfolding fetch_each IsAnswered
  fetch_each-IsNewer held_from [] c h = absurd (cc)
  fetch_each-IsNewer held_from (e ∷ es) c h = elim (Result-cases (fetch_one lib f e)) [
    | inr (x, k) ↦
        let (newer, among) = fetch_each-IsNewer held_from es c (ground (arith, h, k)) in
        (newer, inr among)
    | inl (d, k) ↦ elim (Bool-cases (ltb d.valid_after held_from)) [
      | inl l ↦
          let (newer, among) = fetch_each-IsNewer held_from es c (ground (arith, h, k, l)) in
          (newer, inr among)
      | inr l ↦
          let same : d ≡ c = ok_injective (sym (taken held_from e es d k l) ∙ h) in
          let answered : fetch_one lib f e ≡ ok c = k ∙ ap (λ x. ok x) same in
          (
            subst (λ x. held_from ≤ x.valid_after) same (ltb→le d.valid_after held_from l),
            inl (answered, fetch_one-IsAgreed e c answered),
          )
    ]
  ]

  -- A consensus that FetchNewer returns is not older than the one the client holds. One of the
  -- endpoints answered with it, it is signed by the threshold of known authorities, and it is fresh
  -- at the time that endpoint was asked.
  pub fetch_newer-IsNewer :
      (held_from : ℕ) (endpoints : List Endpoint) (c : Consensus)
      → fetch_newer lib f held_from endpoints ≡ ok c
      → IsNewer held_from endpoints c
  unfolding fetch_newer
  fetch_newer-IsNewer held_from endpoints c h =
      let (_, _, h1) = bind-ok (check (not (length endpoints == 0)) no_urls) _ h in
      let (_, _, h2) = bind-ok (check (not (length f.authorities == 0)) no_authorities) _ h1 in
      let (_, _, h3) = bind-ok (check (leb 1 f.threshold) no_threshold) _ h2 in
      fetch_each-IsNewer held_from endpoints c h3
