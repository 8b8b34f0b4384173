-- ===== src/Pool/Dial.antt =====
-- internal/pool/pool.go, DialContext: which relay a connection comes from, and what a dial leaves
-- of what is known of the relays.
use osanwe.Prelude.{
  ℕ, suc, ◌<◌, ◌≡◌, ◌≢◌, refl, ap, ◌∙◌, ◌⊎◌, inl, inr, Bool, true, false, ◌||◌, ◌==◌, ==_iff,
  Bool-cases, List, [], ◌∷◌, ◌++◌, length, none, some, Option-cases, arith,
}
use osanwe.Prelude.Go.{ℤ, Result, ok, err, Result-cases}
use osanwe.Pool.{
  Answer, connects, gives_up, refuses, Attempt, Relay, Pool, is_up, PoolError, all_failed, given_up,
  too_stale, is_guard, candidates, set_relay, succeed, fail, dial_each, dial_context,
}
use osanwe.Pool.Candidates.{member, IsTried, candidates-IsTried, candidates-total}

succeed-guard : (now r : ℕ) (p : Pool) → (succeed now r p).guard ≡ some r
unfolding succeed
succeed-guard now r p = elim (Option-cases p.guard) [
  | inl e ↦ rw (e, succeed) refl
  | inr (g, e) ↦ elim (Bool-cases (g == r)) [
    | inl s ↦ rw (e, s, succeed) (e ∙ ap some ((==_iff g r).0 s))
    | inr s ↦ rw (e, s, succeed) refl
  ]
]

succeed-heap :
    (now r : ℕ) (p : Pool)
    → (succeed now r p).heap
      ≡ set_relay p.heap r (record (p.heap r) { fails = 0; down_until = 0; last_error = none })
unfolding succeed
succeed-heap now r p = elim (Option-cases p.guard) [
  | inl e ↦ rw (e, succeed) refl
  | inr (g, e) ↦ elim (Bool-cases (g == r)) [
    | inl s ↦ rw (e, s, succeed) refl
    | inr s ↦ rw (e, s, succeed) refl
  ]
]

-- A relay that is the guard already counts no failover.
succeed-stats : (now r : ℕ) (p : Pool) → p.guard ≡ some r → (succeed now r p).stats ≡ p.stats
unfolding succeed
succeed-stats now r p e = rw (e, (==_iff r r).1 refl, succeed) refl

set_relay-same : (heap : ℕ → Relay) (r : ℕ) (x : Relay) → set_relay heap r x r ≡ x
unfolding set_relay
set_relay-same heap r x = rw ((==_iff r r).1 refl) refl

set_relay-other :
    (heap : ℕ → Relay) (r : ℕ) (x : Relay) (o : ℕ)
    → (r == o) ≡ false
    → set_relay heap r x o ≡ heap o
unfolding set_relay
set_relay-other heap r x o h = rw h refl

-- What a dial over the candidates `rs` may come to.
abbrev pub Dialled : List ℕ → Pool → Pool × Result PoolError ℕ → Type 0
Dialled rs p out =
    ((r : ℕ) × (out.1 ≡ ok r)
      × ((member r rs ≡ true) × ((out.0.guard ≡ some r) × ((out.0.heap r).fails ≡ 0))))
    ⊎ ((e : PoolError) × (out.1 ≡ err e) × (out.0.guard ≡ p.guard))

connected-Dialled :
    (now r : ℕ) (rs : List ℕ) (p : Pool) → Dialled (r ∷ rs) p (succeed now r p, ok r)
connected-Dialled now r rs p = inl (
  r,
  refl,
  (
    rw ((==_iff r r).1 refl) refl,
    (
      succeed-guard now r p,
      ap (λ (h : ℕ → Relay). (h r).fails) (succeed-heap now r p)
          ∙ ap (λ (x : Relay). x.fails)
              (set_relay-same p.heap r
                (record (p.heap r) { fails = 0; down_until = 0; last_error = none })),
    ),
  ),
)

fail-guard : (now : ℕ) (m : Bool) (r : ℕ) (p : Pool) → (fail now m r p).guard ≡ p.guard
unfolding fail
fail-guard now m r p = refl

later-Dialled :
    (now : ℕ) (m : Bool) (r : ℕ) (rs : List ℕ) (p : Pool) (out : Pool × Result PoolError ℕ)
    → Dialled rs (fail now m r p) out
    → Dialled (r ∷ rs) p out
later-Dialled now m r rs p out (inl (x, e, (k, g))) = inl (x, e, (rw k (ground arith), g))
later-Dialled now m r rs p out (inr (e, h, g)) = inr (e, h, g ∙ fail-guard now m r p)

module _ (attempts : ℕ → Attempt) (r : ℕ) (rs : List ℕ) (p : Pool) where
  dial_connects :
      (attempts 0).answer ≡ connects
      → dial_each attempts (r ∷ rs) p ≡ (succeed (attempts 0).at r p, ok r)
  unfolding dial_each
  dial_connects h = rw (h, dial_each) refl

  dial_gives_up : (attempts 0).answer ≡ gives_up → dial_each attempts (r ∷ rs) p ≡ (p, err given_up)
  unfolding dial_each
  dial_gives_up h = rw (h, dial_each) refl

  dial_refuses :
      (m : Bool)
      → (attempts 0).answer ≡ refuses m
      → dial_each attempts (r ∷ rs) p
        ≡ dial_each (λ n. attempts (suc n)) rs (fail (attempts 0).at m r p)
  unfolding dial_each
  dial_refuses m h = rw (h, dial_each) refl

answer_cases : (a : Answer) → (a ≡ connects) ⊎ ((a ≡ gives_up) ⊎ ((m : Bool) × (a ≡ refuses m)))
answer_cases connects = inl refl
answer_cases gives_up = inr (inl refl)
answer_cases (refuses m) = inr (inr (m, refl))

dial_each-Dialled :
    (attempts : ℕ → Attempt) (rs : List ℕ) (p : Pool) → Dialled rs p (dial_each attempts rs p)
unfolding dial_each
dial_each-Dialled attempts [] p = inr (all_failed, refl, refl)
dial_each-Dialled attempts (r ∷ rs) p = elim (answer_cases (attempts 0).answer) [
  | inl h ↦ rw (dial_connects attempts r rs p h) (connected-Dialled (attempts 0).at r rs p)
  | inr (inl h) ↦ rw (dial_gives_up attempts r rs p h) (inr (given_up, refl, refl))
  | inr (inr (m, h)) ↦ rw (dial_refuses attempts r rs p m h) (
      later-Dialled (attempts 0).at m r rs p
        (dial_each (λ n. attempts (suc n)) rs (fail (attempts 0).at m r p))
        (dial_each-Dialled (λ n. attempts (suc n)) rs (fail (attempts 0).at m r p)))
]

module _ (max_stale : ℤ) (now : ℕ) (attempts : ℕ → Attempt) (p : Pool) where
  dial_chosen :
      (rs : List ℕ)
      → candidates max_stale now p ≡ ok rs
      → dial_context max_stale now attempts p ≡ dial_each attempts rs p
  unfolding dial_context
  dial_chosen rs h = rw (h, dial_context) refl

  dial_refused :
      (e : PoolError)
      → candidates max_stale now p ≡ err e
      → dial_context max_stale now attempts p ≡ (p, err e)
  unfolding dial_context
  dial_refused e h = rw (h, dial_context) refl

  -- A connection comes from the guard or a listed relay, while the consensus is not too stale; its
  -- relay becomes the guard and has no failures. A dial that fails leaves the guard.
  pub dial_context-outcome :
      ((r : ℕ) × ((dial_context max_stale now attempts p).1 ≡ ok r)
        × (((is_guard p.guard r || member r p.relays) ≡ true)
            × (((too_stale max_stale p.valid_until now).0 ≡ false)
                × (((dial_context max_stale now attempts p).0.guard ≡ some r)
                    × (((dial_context max_stale now attempts p).0.heap r).fails ≡ 0)))))
      ⊎ ((e : PoolError) × ((dial_context max_stale now attempts p).1 ≡ err e)
          × ((dial_context max_stale now attempts p).0.guard ≡ p.guard))
  dial_context-outcome = elim (Result-cases (candidates max_stale now p)) [
    | inr (e, h) ↦ rw (dial_refused e h) (inr (e, refl, refl))
    | inl (rs, h) ↦ rw (dial_chosen rs h) (
        from rs (dial_each attempts rs p) (candidates-IsTried max_stale now p rs h)
          (dial_each-Dialled attempts rs p))
  ]
    where
      from :
          (rs : List ℕ) (out : Pool × Result PoolError ℕ)
          → IsTried max_stale now p rs
          → Dialled rs p out
          → ((r : ℕ) × (out.1 ≡ ok r)
              × (((is_guard p.guard r || member r p.relays) ≡ true)
                  × (((too_stale max_stale p.valid_until now).0 ≡ false)
                      × ((out.0.guard ≡ some r) × ((out.0.heap r).fails ≡ 0)))))
            ⊎ ((e : PoolError) × (out.1 ≡ err e) × (out.0.guard ≡ p.guard))
      from rs out t (inl (r, e, (m, g))) = inl (r, e, (t.known r m, (t.current, g)))
      from rs out t (inr (e, h, g)) = inr (e, h, g)

  -- The guard keeps being used: where it is not in backoff and the consensus is not too stale, a
  -- dial that it answers comes from it, and counts no failover.
  pub dial_sticks :
      (g : ℕ)
      → p.guard ≡ some g
      → is_up p now g ≡ true
      → p.relays ≢ []
      → (too_stale max_stale p.valid_until now).0 ≡ false
      → (attempts 0).answer ≡ connects
      → ((dial_context max_stale now attempts p).1 ≡ ok g)
        × (((dial_context max_stale now attempts p).0.guard ≡ some g)
            × ((dial_context max_stale now attempts p).0.stats ≡ p.stats))
  dial_sticks g e u n s a =
      let (out, h) = candidates-total max_stale now p n s in
      let (rest, (first, _)) = (candidates-IsTried max_stale now p out h).sticky g e u in
      rw (dial_chosen out h, first, dial_connects attempts g rest p a)
        (refl, (succeed-guard (attempts 0).at g p, succeed-stats (attempts 0).at g p e))

-- The dial moves on over relays that refuse to the first that connects.
pub dial_fails_over :
    (attempts : ℕ → Attempt) (before : List ℕ) (r : ℕ) (after : List ℕ) (p : Pool)
    → ((n : ℕ) → n < length before → (m : Bool) × ((attempts n).answer ≡ refuses m))
    → (attempts (length before)).answer ≡ connects
    → (dial_each attempts (before ++ r ∷ after) p).1 ≡ ok r
dial_fails_over attempts [] r after p h c = rw (dial_connects attempts r after p c) refl
dial_fails_over attempts (x ∷ xs) r after p h c =
    let (m, e) = h 0 (omega arith) in
    rw (dial_refuses attempts x (xs ++ r ∷ after) p m e) (
      dial_fails_over (λ n. attempts (suc n)) xs r after (fail (attempts 0).at m x p)
        (λ n k. h (suc n) (omega (arith, k))) c)
