-- ===== src/Pool/Candidates.antt =====
-- internal/pool/pool.go, candidates: what is tried, and in which order.
use osanwe.Prelude.{
  ℕ, ◌≡◌, ◌≢◌, refl, sym, ap, ◌∙◌, ◌⊎◌, inl, inr, Bool, true, false, ◌&&◌, ◌||◌, not, ◌==◌, ==_iff,
  Bool-cases, List, [], ◌∷◌, ◌++◌, any, Option, none, some, arith,
}
use osanwe.Prelude.Go.{ℤ, ok, ok_injective}
use osanwe.Pool.{Pool, too_stale, is_up, is_guard, others, guard_first, or_all, choose, candidates}

abbrev pub member : ℕ → List ℕ → Bool
member x xs = any (λ y. y == x) xs

-- The others are the listed relays that are up and not the guard.
member-others :
    (p : Pool) (now x : ℕ) (rs : List ℕ)
    → member x (others p now rs) ≡ (member x rs && (not (is_guard p.guard x) && is_up p now x))
unfolding others
member-others p now x [] = refl
member-others p now x (r ∷ rs) = elim (Bool-cases (r == x)) [
  | inl e ↦
      rw (e, (==_iff r x).0 e)
        (elim (Bool-cases (is_guard p.guard x)) [
          | inl g ↦ rw g (member-others p now x rs ∙ rw g (ground arith))
          | inr g ↦ rw g (elim (Bool-cases (is_up p now x)) [
            | inl u ↦ rw u (ground arith)
            | inr u ↦ rw u (member-others p now x rs ∙ rw u (ground arith))
          ])
        ])
  | inr e ↦ elim (Bool-cases (is_guard p.guard r || not (is_up p now r))) [
    | inl g ↦ rw (e, g) (member-others p now x rs)
    | inr g ↦ rw (e, g, e) (member-others p now x rs)
  ]
]

member-append : (x : ℕ) (xs ys : List ℕ) → member x (xs ++ ys) ≡ (member x xs || member x ys)
member-append x [] ys = refl
member-append x (y ∷ xs) ys = rw (member-append x xs ys) (ground arith)

abbrev tried : Pool → ℕ → List ℕ → List ℕ
tried p now rs = guard_first p now p.guard ++ others p now rs

choose_ok :
    (max_stale : ℤ) (now : ℕ) (p : Pool) (rs : List ℕ) {out : List ℕ}
    → choose max_stale now p rs ≡ ok out
    → ((too_stale max_stale p.valid_until now).0 ≡ false)
      × ((out ≡ or_all rs (tried p now rs)) × (rs ≢ []))
unfolding choose
choose_ok max_stale now p [] h = absurd (cc)
choose_ok max_stale now p (r ∷ rs) {out} h =
    elim (Bool-cases (too_stale max_stale p.valid_until now).0) [
      | inl s ↦ absurd (let q = rw s at h in cc)
      | inr s ↦ (s, (sym (ok_injective (rw s at h)), λ n. cc))
    ]

-- What is tried first where anything is up, and everything where nothing is.
or_all_cases :
    (rs xs : List ℕ) → ((xs ≡ []) × (or_all rs xs ≡ rs)) ⊎ ((xs ≢ []) × (or_all rs xs ≡ xs))
unfolding or_all
or_all_cases rs [] = inl (refl, refl)
or_all_cases rs (x ∷ xs) = inr ((λ h. cc), refl)

member-guard_first :
    (p : Pool) (now x : ℕ) (g : Option ℕ)
    → member x (guard_first p now g) ≡ (is_guard g x && is_up p now x)
unfolding guard_first
member-guard_first p now x none = refl
member-guard_first p now x (some g) = elim (Bool-cases (g == x)) [
  | inl e ↦ rw ((==_iff g x).0 e, (==_iff x x).1 refl) (ground arith)
  | inr e ↦ elim (Bool-cases (is_up p now g)) [ inl u ↦ rw (e, u, e) refl | inr u ↦ rw (e, u) refl ]
]

member-tried :
    (p : Pool) (now x : ℕ) (rs : List ℕ)
    → member x (tried p now rs) ≡ ((is_guard p.guard x || member x rs) && is_up p now x)
member-tried p now x rs =
    member-append x (guard_first p now p.guard) (others p now rs)
    ∙ rw (member-guard_first p now x p.guard, member-others p now x rs) (ground arith)

-- What is tried, whatever the state.
pub record IsTried (max_stale : ℤ) (now : ℕ) (p : Pool) (out : List ℕ) : Type 0 where
  pub current : (too_stale max_stale p.valid_until now).0 ≡ false
  pub some_tried : out ≢ []
  pub up_tried : (x : ℕ) → member x p.relays ≡ true → is_up p now x ≡ true → member x out ≡ true
  pub known : (x : ℕ) → member x out ≡ true → (is_guard p.guard x || member x p.relays) ≡ true
  pub sticky :
      (g : ℕ)
      → p.guard ≡ some g
      → is_up p now g ≡ true
      → (rest : List ℕ) × ((out ≡ g ∷ rest) × (member g rest ≡ false))

guard_first_up : (p : Pool) (now g : ℕ) → is_up p now g ≡ true → guard_first p now (some g) ≡ g ∷ []
unfolding guard_first
guard_first_up p now g u = rw u refl

choose_good :
    (max_stale : ℤ) (now : ℕ) (p : Pool) (r : ℕ) (rs : List ℕ)
    → (too_stale max_stale p.valid_until now).0 ≡ false
    → choose max_stale now p (r ∷ rs) ≡ ok (or_all (r ∷ rs) (tried p now (r ∷ rs)))
unfolding choose
choose_good max_stale now p r rs s = rw s refl

module _ (max_stale : ℤ) (now : ℕ) (p : Pool) (out : List ℕ)
    (chosen : candidates max_stale now p ≡ ok out) where
  facts :
      ((too_stale max_stale p.valid_until now).0 ≡ false)
      × ((out ≡ or_all p.relays (tried p now p.relays)) × (p.relays ≢ []))
  unfolding candidates
  facts = choose_ok max_stale now p p.relays chosen

  nonempty_tried : (x : ℕ) → member x (tried p now p.relays) ≡ true → tried p now p.relays ≢ []
  nonempty_tried x h e = let q = ap (member x) e in cc

  tried_out : tried p now p.relays ≢ [] → out ≡ tried p now p.relays
  tried_out h = elim (or_all_cases p.relays (tried p now p.relays)) [
    | inl (e, _) ↦ absurd (h e)
    | inr (_, e) ↦ facts.1.0 ∙ e
  ]

  up_tried_of : (x : ℕ) → member x p.relays ≡ true → is_up p now x ≡ true → member x out ≡ true
  up_tried_of x m u =
      let t : member x (tried p now p.relays) ≡ true =
        member-tried p now x p.relays ∙ rw (m, u) (ground arith) in
      ap (member x) (tried_out (nonempty_tried x t)) ∙ t

  known_of : (x : ℕ) → member x out ≡ true → (is_guard p.guard x || member x p.relays) ≡ true
  known_of x m = elim (or_all_cases p.relays (tried p now p.relays)) [
    | inl (_, e) ↦
        let q : member x p.relays ≡ true = ap (member x) (sym (facts.1.0 ∙ e)) ∙ m in
        rw q (ground arith)
    | inr (_, e) ↦
        let q : member x (tried p now p.relays) ≡ true = ap (member x) (sym (facts.1.0 ∙ e)) ∙ m in
        let k = sym (member-tried p now x p.relays) ∙ q in ground arith
  ]

  some_of : out ≢ []
  some_of h = elim (or_all_cases p.relays (tried p now p.relays)) [
    | inl (_, e) ↦ facts.1.1 (sym (facts.1.0 ∙ e) ∙ h)
    | inr (n, e) ↦ n (sym (facts.1.0 ∙ e) ∙ h)
  ]

  sticky_of :
      (g : ℕ)
      → p.guard ≡ some g
      → is_up p now g ≡ true
      → (rest : List ℕ) × ((out ≡ g ∷ rest) × (member g rest ≡ false))
  sticky_of g e u =
      let first : tried p now p.relays ≡ g ∷ others p now p.relays = first_of p.guard e in
      (
        others p now p.relays,
        (
          tried_out (λ n. cc) ∙ first,
          member-others p now g p.relays ∙ rw (e, (==_iff g g).1 refl) (ground arith),
        ),
      )
    where
      first_of :
          (o : Option ℕ)
          → o ≡ some g
          → guard_first p now o ++ others p now p.relays ≡ g ∷ others p now p.relays
      first_of o q = rw (q, guard_first_up p now g u) refl

  -- What `candidates` returns comes from a consensus that is not too stale, is not empty, names
  -- only listed relays and the guard, names every listed relay that is not in backoff, and begins
  -- with the guard, once, where the guard is not in backoff.
  pub candidates-IsTried : IsTried max_stale now p out
  candidates-IsTried = record {
    current = facts.0;
    some_tried = some_of;
    up_tried = up_tried_of;
    known = known_of;
    sticky = sticky_of;
  }

-- `candidates` fails only where no relay is listed or the consensus is too stale.
pub candidates-total :
    (max_stale : ℤ) (now : ℕ) (p : Pool)
    → p.relays ≢ []
    → (too_stale max_stale p.valid_until now).0 ≡ false
    → (out : List ℕ) × (candidates max_stale now p ≡ ok out)
unfolding candidates
candidates-total max_stale now p n s = go p.relays n
  where
    go : (rs : List ℕ) → rs ≢ [] → (out : List ℕ) × (choose max_stale now p rs ≡ ok out)
    go [] n = absurd (n refl)
    go (r ∷ rs) n = (_, choose_good max_stale now p r rs s)
