-- ===== src/Pool/Backoff.antt =====
-- internal/pool/pool.go, backoff.
use osanwe.Prelude.{
  ℕ, zero, suc, ◌-◌, ◌*◌, ◌^◌, ◌≤◌, ◌≡◌, sym, ap, ◌∙◌, inl, inr, ltb, ltb→le, if◌then◌else◌,
  Bool-cases, arith,
}
use osanwe.Pool.{min_backoff, max_backoff, doubled, backoff}

-- At most the longest backoff.
abbrev pub capped : ℕ → ℕ
capped d = if ltb max_backoff d then max_backoff else d

one_le : (k : ℕ) → 1 ≤ 2 ^ k
one_le zero = omega arith
one_le (suc k) = omega (arith, one_le k)

capped-long : (d : ℕ) → max_backoff ≤ d → capped d ≡ max_backoff
capped-long d h = ground arith

capped-doubled : (rounds d : ℕ) → capped (doubled rounds d) ≡ capped (d * 2 ^ rounds)
unfolding doubled
capped-doubled zero d = let e : d ≡ d * 2 ^ 0 = omega arith in ap capped e
capped-doubled (suc k) d = elim (Bool-cases (ltb d max_backoff)) [
  | inl short ↦
      rw short (capped-doubled k (d * 2) ∙ ap capped (assoc d (2 ^ k) (2 ^ suc k) (omega arith)))
  | inr long ↦ rw long (
      capped-long d (ltb→le d max_backoff long)
      ∙ sym (
          capped-long (d * 2 ^ suc k)
            (grows d (2 ^ suc k) (one_le (suc k)) (ltb→le d max_backoff long))))
]
  where
    assoc : (d a b : ℕ) → b ≡ 2 * a → d * 2 * a ≡ d * b
    assoc d a b h = rw h (grind arith)

    grows : (d a : ℕ) → 1 ≤ a → max_backoff ≤ d → max_backoff ≤ d * a
    grows d zero h k = absurd (omega (arith, h))
    grows d (suc a) h k = grind arith

-- After the n-th further failure the backoff is 15 seconds doubled n times, but never more than
-- ten minutes.
pub backoff-capped : (n : ℕ) → backoff (suc n) ≡ capped (min_backoff * 2 ^ n)
unfolding backoff
backoff-capped n = let e : suc n - 1 ≡ n = omega arith in rw e (capped-doubled n min_backoff)
