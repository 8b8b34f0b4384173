-- ===== src/Gateway/Cost/Amount/Digits.antt =====
-- An amount is the number that its digits spell, in millionths.
use native.Mathlib.Nat.{mul_assoc, pow-succ'}
use osanwe.Prelude.{
  ℕ, zero, suc, ◌+◌, ◌-◌, ◌*◌, ◌^◌, ◌≤◌, ◌<◌, ◌≡◌, refl, some, List, [], ◌∷◌, ◌++◌, length, arith,
  Option-cases, inl, inr, length-append, ap,
}
use osanwe.Prelude.Go.{ok, Result-cases, max_u64, ok_injective}
use osanwe.Prelude.Text.{cut, digits_of, digits_from}
use osanwe.Gateway.Cost.Amount.{
  zeros, parse_uint, in_range, parts_of, parse_fraction, to_micros, parse_parts,
  parse_currency_micros,
}

spread : (a b d : ℕ) → (a + b) * 10 + d ≡ a * 10 + (b * 10 + d)
spread a b d = omega arith

tenfold : (a n : ℕ) → a * 10 * 10 ^ n ≡ a * 10 ^ suc n
tenfold a n = rw (mul_assoc a 10 (10 ^ n), pow-succ' 10 n) refl

-- Digits behind a number move it up by as many places.
digits_from-shift :
    (s : List ℕ) (a b v : ℕ)
    → digits_from b s ≡ some v
    → digits_from (a + b) s ≡ some (a * 10 ^ length s + v)
unfolding digits_from
digits_from-shift [] a b v h = ground arith
digits_from-shift (c ∷ s) a b v h =
    let d = c - 48 in
    ground (arith, digits_from-shift s (a * 10) (b * 10 + d) v, spread a b d, tenfold a (length s))

digits_from-append :
    (s t : List ℕ) (a n : ℕ) → digits_from a s ≡ some n → digits_from a (s ++ t) ≡ digits_from n t
unfolding digits_from
digits_from-append [] t a n h = ground (arith, h)
digits_from-append (c ∷ s) t a n h = ground (arith, digits_from-append s t (a * 10 + (c - 48)) n)

pub padded : List ℕ → List ℕ
padded fraction = fraction ++ zeros (6 - length fraction)

length-zeros : (n : ℕ) → length (zeros n) ≡ n
length-zeros zero = refl
length-zeros (suc n) = omega (arith, length-zeros n)

length-padded : (fraction : List ℕ) → length fraction ≤ 6 → length (padded fraction) ≡ 6
unfolding padded
length-padded fraction h = omega (
  arith,
  length-append fraction (zeros (6 - length fraction)),
  length-zeros (6 - length fraction),
)

parse_uint_sound :
    (s : List ℕ) (n : ℕ) → parse_uint s ≡ ok n → (digits_of s ≡ some n) × (n ≤ max_u64)
unfolding parse_uint in_range
parse_uint_sound s n h = elim (Option-cases (digits_of s)) [
  | inl e ↦ ground (arith, e)
  | inr (m, e) ↦ ground (arith, e)
]

parse_fraction_sound :
    (s : List ℕ) (n : ℕ)
    → parse_fraction s ≡ ok n
    → (digits_from 0 (padded s) ≡ some n) × (n ≤ max_u64)
unfolding parse_fraction padded
parse_fraction_sound [] n h = (unfold digits_from in ap some (ok_injective h), ground arith)
parse_fraction_sound (c ∷ s) n h =
    unfold digits_of in parse_uint_sound (c ∷ s ++ zeros (6 - length (c ∷ s))) n h

to_micros_sound :
    (whole fraction m : ℕ)
    → fraction ≤ max_u64
    → to_micros whole fraction ≡ ok m
    → (m ≡ whole * 1000000 + fraction) × (0 < m) × (m ≤ max_u64)
unfolding to_micros
to_micros_sound whole fraction m h k = ground arith

digits_of-padded :
    (whole fraction : List ℕ) (w f : ℕ)
    → length fraction ≤ 6
    → digits_of whole ≡ some w
    → digits_from 0 (padded fraction) ≡ some f
    → digits_of (whole ++ padded fraction) ≡ some (w * 1000000 + f)
unfolding digits_of
digits_of-padded [] fraction w f short h k = absurd (cc)
digits_of-padded (c ∷ s) fraction w f short h k = ground (
  arith,
  digits_from-append (c ∷ s) (padded fraction) 0 w h,
  digits_from-shift (padded fraction) w 0 f k,
  length-padded fraction short,
)

-- The amount's parts on both sides of the dot.
pub whole_of : List ℕ → List ℕ
whole_of value = (parts_of value (cut 46 value)).0

pub fraction_of : List ℕ → List ℕ
fraction_of value = (parts_of value (cut 46 value)).1

parse_parts_sound :
    (whole fraction : List ℕ) (m : ℕ)
    → parse_parts (whole, fraction) ≡ ok m
    → (length fraction ≤ 6)
      × (digits_of (whole ++ padded fraction) ≡ some m)
      × (0 < m)
      × (m ≤ max_u64)
unfolding parse_parts
parse_parts_sound whole fraction m h = elim (Result-cases (parse_uint whole)) [
  | inr (e, k) ↦ absurd (ground (arith, k))
  | inl (w, k) ↦ elim (Result-cases (parse_fraction fraction)) [
    | inr (e, l) ↦ absurd (ground (arith, k, l))
    | inl (f, l) ↦
        let (digits, _) = parse_uint_sound whole w k in
        let (behind, bounded) = parse_fraction_sound fraction f l in
        let short : length fraction ≤ 6 = ground (arith, k, l) in
        let made : to_micros w f ≡ ok m = ground (arith, k, l) in
        let (exact, positive, fits) = to_micros_sound w f m bounded made in
        (short, rw exact (digits_of-padded whole fraction w f short digits behind), positive, fits)
  ]
]

-- An accepted amount is the number that its digits spell once the fraction is padded to six places
-- and the dot is taken out. It is positive and a uint64, and nothing was rounded or wrapped.
pub parse_currency_micros-exact :
    (value : List ℕ) (m : ℕ)
    → parse_currency_micros value ≡ ok m
    → (length (fraction_of value) ≤ 6)
      × (digits_of (whole_of value ++ padded (fraction_of value)) ≡ some m)
      × (0 < m)
      × (m ≤ max_u64)
unfolding parse_currency_micros whole_of fraction_of
parse_currency_micros-exact value m h =
    parse_parts_sound (whole_of value) (fraction_of value) m (ground arith)
