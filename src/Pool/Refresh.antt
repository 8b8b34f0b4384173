-- ===== src/Pool/Refresh.antt =====
-- internal/pool/pool.go, Refresh and install: what a refresh of the consensus leaves of the relays
-- and the guard.
use osanwe.Prelude.{
  ℕ, ◌+◌, ◌<◌, ◌≤◌, ◌≡◌, refl, sym, ap, ◌∙◌, subst, ◌⊎◌, inl, inr, Bool, true, false, ◌==◌, ==_iff,
  ne→eqb, Bool-cases, List, [], ◌∷◌, Option, none, some, Option-cases, arith,
}
use osanwe.Prelude.Go.{Result, ok, err}
use osanwe.Pool.{
  Descriptor, Relay, Pool, PoolError, set_relay, known_as, key, Gathered, untried, gather_one,
  gather, contains, keep_listed, installed, install, Consensus, failing, refresh,
  none_for_destination,
}

-- What was learned of a relay, its descriptor aside.
abbrev pub SameRecord : Relay → Relay → Type 0
SameRecord a b =
    (a.fails ≡ b.fails) × ((a.down_until ≡ b.down_until) × (a.last_error ≡ b.last_error))

desc-SameRecord :
    (heap : ℕ → Relay) (old : ℕ) (d : Descriptor) (r : ℕ)
    → SameRecord (set_relay heap old (record (heap old) { desc = d }) r) (heap r)
unfolding set_relay
desc-SameRecord heap old d r = elim (Bool-cases (old == r)) [
  | inl e ↦
      let q : old ≡ r = (==_iff old r).0 e in
      rw e (
        ap (λ x. (heap x).fails) q,
        (ap (λ x. (heap x).down_until) q, ap (λ x. (heap x).last_error) q),
      )
  | inr e ↦ rw e (refl, (refl, refl))
]

new-SameRecord :
    (heap : ℕ → Relay) (fresh : ℕ) (x : Relay) (r : ℕ)
    → r < fresh
    → SameRecord (set_relay heap fresh x r) (heap r)
unfolding set_relay
new-SameRecord heap fresh x r h =
    rw (ne→eqb fresh r (λ e. omega (arith, e, h))) (refl, (refl, refl))

trans-SameRecord : (a b c : Relay) → SameRecord a b → SameRecord b c → SameRecord a c
trans-SameRecord a b c (x, (y, z)) (x', (y', z')) = (x ∙ x', (y ∙ y', z ∙ z'))

-- The allocated relays keep their records, and stay allocated.
abbrev Kept : ℕ → Gathered → Gathered → Type 0
Kept r before after =
    SameRecord (after.new_heap r) (before.new_heap r) × (before.new_fresh ≤ after.new_fresh)

gather_one-Kept :
    (dialer : Bool) (o : Option ℕ) (d : Descriptor) (g : Gathered) (r : ℕ)
    → r < g.new_fresh
    → Kept r g (gather_one dialer o d g)
unfolding gather_one
gather_one-Kept dialer (some old) d g r h = (desc-SameRecord g.new_heap old d r, omega arith)
gather_one-Kept false none d g r h = ((refl, (refl, refl)), omega arith)
gather_one-Kept true none d g r h =
    (new-SameRecord g.new_heap g.new_fresh (untried d) r h, omega arith)

gather-Kept :
    (p : Pool) (dialer : Descriptor → Bool) (ds : List Descriptor) (g : Gathered) (r : ℕ)
    → r < g.new_fresh
    → Kept r g (gather p dialer ds g)
unfolding gather
gather-Kept p dialer [] g r h = ((refl, (refl, refl)), omega arith)
gather-Kept p dialer (d ∷ ds) g r h =
    let one : Gathered = gather_one (dialer d) (known_as p.heap (key d) p.relays) d g in
    let (same, more) = gather_one-Kept (dialer d) (known_as p.heap (key d) p.relays) d g r h in
    let (same', more') = gather-Kept p dialer ds one r (omega (arith, h, more)) in
    (
      trans-SameRecord ((gather p dialer ds one).new_heap r) (one.new_heap r) (g.new_heap r) same'
          same,
      omega (arith, more, more'),
    )

keep_listed-heap : (next : List ℕ) (p : Pool) → (keep_listed next p).heap ≡ p.heap
unfolding keep_listed
keep_listed-heap next p = elim (Option-cases p.guard) [
  | inl e ↦ rw (e, keep_listed) refl
  | inr (g, e) ↦ elim (Bool-cases (contains g next)) [
    | inl c ↦ rw (e, c, keep_listed) refl
    | inr c ↦ rw (e, c, keep_listed) refl
  ]
]

keep_listed-relays : (next : List ℕ) (p : Pool) → (keep_listed next p).relays ≡ p.relays
unfolding keep_listed
keep_listed-relays next p = elim (Option-cases p.guard) [
  | inl e ↦ rw (e, keep_listed) refl
  | inr (g, e) ↦ elim (Bool-cases (contains g next)) [
    | inl c ↦ rw (e, c, keep_listed) refl
    | inr c ↦ rw (e, c, keep_listed) refl
  ]
]

-- A guard that survives is listed.
keep_listed-guard :
    (next : List ℕ) (p : Pool)
    → ((keep_listed next p).guard ≡ none)
      ⊎ ((g : ℕ) × ((keep_listed next p).guard ≡ some g)
          × ((p.guard ≡ some g) × (contains g next ≡ true)))
unfolding keep_listed
keep_listed-guard next p = elim (Option-cases p.guard) [
  | inl e ↦ rw (e, keep_listed) (inl e)
  | inr (g, e) ↦ elim (Bool-cases (contains g next)) [
    | inl c ↦ inr (g, rw (e, c, keep_listed) e, (e, c))
    | inr c ↦ inl (rw (e, c, keep_listed) refl)
  ]
]

-- What install and Refresh come to.
abbrev pub Refreshed : Pool → Pool × Result PoolError (Unit {0}) → Type 0
Refreshed p out =
    ((out.0.relays ≡ p.relays) × (out.0.guard ≡ p.guard))
    ⊎ ((out.1 ≡ ok tt)
        × ((out.0.guard ≡ none)
            ⊎ ((g : ℕ) × (out.0.guard ≡ some g)
                × ((p.guard ≡ some g) × (contains g out.0.relays ≡ true)))))

installed-Refreshed :
    (shuffle : List ℕ → List ℕ) (g : Gathered) (next : List ℕ) (p : Pool)
    → g.next ≡ next
    → Refreshed p (installed shuffle g p)
unfolding installed
installed-Refreshed shuffle g [] p e = rw (e, installed) (inl (refl, refl))
installed-Refreshed shuffle g (r ∷ rs) p e = rw (e, installed) (inr (refl, listed))
  where
    after : Pool
    after = record p {
      heap = g.new_heap;
      fresh = g.new_fresh;
      relays = shuffle (r ∷ rs);
      stats = record p.stats { refreshes = p.stats.refreshes + 1 };
      refresh_failing = false;
    }

    listed :
        ((keep_listed (shuffle (r ∷ rs)) after).guard ≡ none)
        ⊎ ((x : ℕ) × ((keep_listed (shuffle (r ∷ rs)) after).guard ≡ some x)
            × ((p.guard ≡ some x)
                × (contains x (keep_listed (shuffle (r ∷ rs)) after).relays ≡ true)))
    listed = elim (keep_listed-guard (shuffle (r ∷ rs)) after) [
      | inl n ↦ inl n
      | inr (x, k, (q, c)) ↦
          inr (x, k, (q, ap (contains x) (keep_listed-relays (shuffle (r ∷ rs)) after) ∙ c))
    ]

install-Refreshed :
    (dialer : Descriptor → Bool) (shuffle : List ℕ → List ℕ) (ds : List Descriptor) (p q : Pool)
    → q.relays ≡ p.relays
    → q.guard ≡ p.guard
    → Refreshed p (install dialer shuffle ds q)
unfolding install
install-Refreshed dialer shuffle ds p q r g =
    elim (installed-Refreshed shuffle made made.next q refl) [
      | inl (a, b) ↦ inl (a ∙ r, b ∙ g)
      | inr (o, inl n) ↦ inr (o, inl n)
      | inr (o, inr (x, k, (e, c))) ↦ inr (o, inr (x, k, (sym g ∙ e, c)))
    ]
  where
    made : Gathered
    made = gather q dialer ds (record { new_heap = q.heap; new_fresh = q.fresh; next = [] })

-- A refresh keeps the relays and the guard, whatever failed or was missing; or it succeeds, and
-- then the guard is none, or the same one and listed.
pub refresh-Refreshed :
    (dialer : Descriptor → Bool) (shuffle : List ℕ → List ℕ) (fetched : Option Consensus) (p : Pool)
    → Refreshed p (refresh dialer shuffle fetched p)
unfolding refresh
refresh-Refreshed dialer shuffle none p = inl (refl, refl)
refresh-Refreshed dialer shuffle (some c) p = of_usable c.usable
  where
    dated : Pool
    dated = record p { signed_by = c.verified_by; valid_after = c.starts; valid_until = c.ends }

    of_usable :
        (ds : List Descriptor)
        → Refreshed p (elim ds [
          | [] ↦ (failing dated, elim p.relays [ [] ↦ err none_for_destination | _ ∷ _ ↦ ok tt ])
          | d ∷ ds ↦ install dialer shuffle (d ∷ ds) dated
        ])
    of_usable [] = inl (refl, refl)
    of_usable (d ∷ ds) = install-Refreshed dialer shuffle (d ∷ ds) p dated refl refl

installed-Kept :
    (shuffle : List ℕ → List ℕ) (g : Gathered) (next : List ℕ) (p : Pool) (r : ℕ)
    → g.next ≡ next
    → SameRecord (g.new_heap r) (p.heap r)
    → SameRecord ((installed shuffle g p).0.heap r) (p.heap r)
unfolding installed
installed-Kept shuffle g [] p r e h = rw (e, installed) (refl, (refl, refl))
installed-Kept shuffle g (x ∷ xs) p r e h =
    rw (e, installed) (through (keep_listed-heap (shuffle (x ∷ xs)) after))
  where
    after : Pool
    after = record p {
      heap = g.new_heap;
      fresh = g.new_fresh;
      relays = shuffle (x ∷ xs);
      stats = record p.stats { refreshes = p.stats.refreshes + 1 };
      refresh_failing = false;
    }

    through :
        (keep_listed (shuffle (x ∷ xs)) after).heap ≡ g.new_heap
        → SameRecord ((keep_listed (shuffle (x ∷ xs)) after).heap r) (p.heap r)
    through q = subst (λ (k : ℕ → Relay). SameRecord (k r) (p.heap r)) (sym q) h

install-Kept :
    (dialer : Descriptor → Bool) (shuffle : List ℕ → List ℕ) (ds : List Descriptor) (p : Pool)
    (r : ℕ)
    → r < p.fresh
    → SameRecord ((install dialer shuffle ds p).0.heap r) (p.heap r)
unfolding install
install-Kept dialer shuffle ds p r h =
    let start : Gathered = record { new_heap = p.heap; new_fresh = p.fresh; next = [] } in
    installed-Kept shuffle (gather p dialer ds start) (gather p dialer ds start).next p r refl
      (gather-Kept p dialer ds start r h).0

-- A refresh, successful or not, leaves the failures, the backoff and the last error of every relay
-- that the pool has made.
pub refresh-keeps :
    (dialer : Descriptor → Bool) (shuffle : List ℕ → List ℕ) (fetched : Option Consensus) (p : Pool)
    (r : ℕ)
    → r < p.fresh
    → SameRecord ((refresh dialer shuffle fetched p).0.heap r) (p.heap r)
unfolding refresh
refresh-keeps dialer shuffle none p r h = (refl, (refl, refl))
refresh-keeps dialer shuffle (some c) p r h = of_usable c.usable
  where
    dated : Pool
    dated = record p { signed_by = c.verified_by; valid_after = c.starts; valid_until = c.ends }

    result : List Descriptor → Pool × Result PoolError (Unit {0})
    result ds = elim ds [
      | [] ↦ (failing dated, elim p.relays [ [] ↦ err none_for_destination | _ ∷ _ ↦ ok tt ])
      | d ∷ ds ↦ install dialer shuffle (d ∷ ds) dated
    ]

    of_usable : (ds : List Descriptor) → SameRecord ((result ds).0.heap r) (p.heap r)
    of_usable [] = (refl, (refl, refl))
    of_usable (d ∷ ds) = install-Kept dialer shuffle (d ∷ ds) dated r h
