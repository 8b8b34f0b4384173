-- ===== src/Policy/Laws.antt =====
-- Default deny: what an allowlist lets through.
use osanwe.Prelude.{
  ℕ, ◌≡◌, ◌↔◌, ◌⊎◌, refl, sym, ap, subst, ◌∙◌, Bool, true, false, ◌&&◌, ◌||◌, some, List, [], ◌∷◌,
  ◌++◌, arith, Bool-cases, inl, inr,
}
use osanwe.Prelude.Go.{ok, err, bind-ok, Result-cases, ok_injective}
use osanwe.Prelude.Net.{split_host_port}
use osanwe.Prelude.Text.{trim_space, bytes_eq_refl, eq_of_bytes_eq}
use osanwe.Policy.{
  PolicyError, Destination, Allowlist, same_destination, is_allowed, allow, parse_destination,
  parse_entries, parse_policy, is_pair, allows_parsed, allows,
}

module _ (is_ip : List ℕ → Bool) where
  -- Some entry is read set the destination.
  unfoldable pub Names : List (List ℕ) → Destination → Type 0
  Names [] d = ⊥
  Names (raw ∷ entries) d = (parse_destination is_ip raw ≡ ok d) ⊎ Names entries d

-- Destinations with the same host and port are equal.
same_of_equal : (a d : Destination) → same_destination a d ≡ true → a ≡ d
unfolding same_destination
same_of_equal a d h =
    let hosts : a.host ≡ d.host = eq_of_bytes_eq a.host d.host (ground (arith, h)) in
    let ports : a.port ≡ d.port = ground (arith, h) in cc

equal_is_same : (d : Destination) → same_destination d d ≡ true
unfolding same_destination
equal_is_same d = ground (arith, bytes_eq_refl d.host)

same_iff : (a d : Destination) → (same_destination a d ≡ true) ↔ (a ≡ d)
same_iff a d = (same_of_equal a d, λ e. rw e (equal_is_same d))

is_allowed_append :
    (d e : Destination) (set : Allowlist)
    → is_allowed d (set ++ e ∷ []) ≡ (is_allowed d set || same_destination e d)
unfolding is_allowed
is_allowed_append d e [] = ground arith
is_allowed_append d e (a ∷ set) = ground (arith, is_allowed_append d e set)

is_allowed-allow :
    (d e : Destination) (set : Allowlist)
    → is_allowed d (allow e set) ≡ (is_allowed d set || same_destination e d)
unfolding allow
is_allowed-allow d e set = elim (Bool-cases (is_allowed e set)) [
  | inl h ↦ elim (Bool-cases (same_destination e d)) [
    | inl k ↦
        let there : is_allowed d set ≡ true =
          sym (ap (λ x. is_allowed x set) (same_of_equal e d k)) ∙ h in
        ground (arith, h, k, there)
    | inr k ↦ ground (arith, h, k)
  ]
  | inr h ↦ rw h (is_allowed_append d e set)
]

nothing_allowed : (d : Destination) → is_allowed d [] ≡ true → ⊥
unfolding is_allowed
nothing_allowed d h = cc

both_hold : (a b : Bool) → (a && b) ≡ true → (a ≡ true) × (b ≡ true)
both_hold true b h = (refl, h)
both_hold false b h = absurd (cc)

module _ (is_ip : List ℕ → Bool) where
  parse_entries-Names :
      (entries : List (List ℕ)) (set all : Allowlist) (d : Destination)
      → parse_entries is_ip set entries ≡ ok all
      → (is_allowed d all ≡ true) ↔ ((is_allowed d set ≡ true) ⊎ Names is_ip entries d)
  unfolding parse_entries Names
  parse_entries-Names [] set all d h =
      let same : set ≡ all = cc in
      (λ k. inl (rw same k), λ k. elim k [ inl l ↦ rw (sym same) l | inr l ↦ absurd l ])
  parse_entries-Names (raw ∷ entries) set all d h =
      let (e, parsed, rest) = bind-ok (parse_destination is_ip raw) _ h in
      let (forth, back) = parse_entries-Names entries (allow e set) all d rest in
      (
        λ k. elim (forth k) [
          | inl l ↦ elim (Bool-cases (is_allowed d set)) [
            | inl m ↦ inl m
            | inr m ↦ inr (
                inl (
                  parsed
                  ∙ ap (λ x. ok x)
                      (same_of_equal e d (ground (arith, is_allowed-allow d e set, l, m)))))
          ]
          | inr l ↦ inr (inr l)
        ],
        λ k. elim k [
          | inl l ↦ back (inl (ground (arith, is_allowed-allow d e set, l)))
          | inr l ↦ elim l [
            | inl m ↦
                let same : e ≡ d = ok_injective (sym parsed ∙ m) in
                back (inl (ground (arith, is_allowed-allow d e set, (same_iff e d).1 same)))
            | inr m ↦ back (inr m)
          ]
        ],
      )

  allows_unreadable :
      (set : Allowlist) (host_port : List ℕ) (e : PolicyError)
      → parse_destination is_ip host_port ≡ err e
      → allows is_ip (some set) host_port ≡ false
  unfolding allows allows_parsed
  allows_unreadable [] host_port e h = refl
  allows_unreadable (a ∷ set) host_port e h = rw h refl

  allows_read :
      (set : Allowlist) (host_port : List ℕ) (d : Destination)
      → parse_destination is_ip host_port ≡ ok d
      → allows is_ip (some set) host_port
        ≡ (is_pair (split_host_port (trim_space host_port)) && is_allowed d set)
  unfolding allows allows_parsed is_allowed
  allows_read [] host_port d h = ground arith
  allows_read (a ∷ set) host_port d h = rw h (ground arith)

  -- An allowlist that Parse builds allows a target exactly if the target is an explicit host and port
  -- that reads set a destination which one of the entries reads set.
  pub allows_iff :
      (entries : List (List ℕ)) (set : Allowlist) (host_port : List ℕ)
      → parse_policy is_ip entries ≡ ok set
      → (allows is_ip (some set) host_port ≡ true) ↔ (
          (is_pair (split_host_port (trim_space host_port)) ≡ true)
          × ((d : Destination) × (parse_destination is_ip host_port ≡ ok d)
              × Names is_ip entries d))
  unfolding parse_policy
  allows_iff [] set host_port h = absurd (cc)
  allows_iff (raw ∷ entries) set host_port h =
      elim (Result-cases (parse_destination is_ip host_port)) [
        | inr (e, k) ↦ (
          λ l. absurd (ground (arith, allows_unreadable set host_port e k, l)),
          λ (_, (d, l, _)). absurd (cc),
        )
        | inl (d, k) ↦
            let asked = allows_read set host_port d k in
            let named = parse_entries-Names (raw ∷ entries) [] set d h in
            (
              λ l.
                  let both =
                    both_hold (is_pair (split_host_port (trim_space host_port))) (is_allowed d set)
                      (sym asked ∙ l) in
                  (
                    both.0,
                    (
                      d,
                      k,
                      elim (named.0 both.1) [ inl m ↦ absurd (nothing_allowed d m) | inr m ↦ m ],
                    ),
                  ),
              λ (l, (e, m, names)).
                  let same : e ≡ d = ok_injective (sym m ∙ k) in
                  let there : is_allowed d set ≡ true =
                    named.1 (inr (subst (Names is_ip (raw ∷ entries)) same names)) in
                  asked ∙ ground (arith, l, there),
            )
      ]
