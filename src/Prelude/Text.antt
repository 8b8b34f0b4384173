-- ===== src/Prelude/Text.antt =====
-- The functions of `strings`, `bytes` and `strconv` that the code calls, over lists of bytes. White
-- space and letters are those of ASCII.
use Prim.Native.Nat.{ℕ, suc, ◌+◌, ◌-◌, ◌*◌}
use Prim.Native.Char.{code}
use Prim.Native.String.{String}
use mathlib.Core.Path.{◌≡◌, refl}
use mathlib.Core.Logic.{◌≢◌, ◌↔◌}
use mathlib.Core.Bool.{Bool, true, false, ◌&&◌, ◌||◌}
use mathlib.Core.Option.{Option, none, some}
use mathlib.Core.List.{List, [], ◌∷◌, ◌++◌, reverse}
use native.Mathlib.Omega.{arith}
use osanwe.Prelude.Tests.{ltb, leb, ◌==◌, if◌then◌else◌}
use osanwe.Prelude.Lists.{All, length, take, drop}
use osanwe.Prelude.Go.{ℤ, pos, negsuc}

-- The bytes of a literal.
abbrev pub codes : String → List ℕ
codes String.[] = []
codes (String.◌∷◌ c s) = code c ∷ codes s

-- Strings and byte arrays are equal if their bytes are.
unfoldable pub bytes_eq : List ℕ → List ℕ → Bool
bytes_eq [] [] = true
bytes_eq (x ∷ xs) (y ∷ ys) = x == y && bytes_eq xs ys
bytes_eq _ _ = false

pub bytes_eq_refl : (xs : List ℕ) → bytes_eq xs xs ≡ true
unfolding bytes_eq
bytes_eq_refl [] = refl
bytes_eq_refl (x ∷ xs) = ground (arith, bytes_eq_refl xs)

pub eq_of_bytes_eq : (xs ys : List ℕ) → bytes_eq xs ys ≡ true → xs ≡ ys
unfolding bytes_eq
eq_of_bytes_eq [] [] h = refl
eq_of_bytes_eq [] (y ∷ ys) h = cc
eq_of_bytes_eq (x ∷ xs) [] h = cc
eq_of_bytes_eq (x ∷ xs) (y ∷ ys) h = ground (arith, eq_of_bytes_eq xs ys)

pub bytes_eq_iff : (xs ys : List ℕ) → (bytes_eq xs ys ≡ true) ↔ (xs ≡ ys)
bytes_eq_iff xs ys = (eq_of_bytes_eq xs ys, λ e. rw e (bytes_eq_refl ys))

-- Whether a name is one of a few.
unfoldable pub is_one_of : List (List ℕ) → List ℕ → Bool
is_one_of [] x = false
is_one_of (y ∷ ys) x = bytes_eq y x || is_one_of ys x

abbrev pub Lacks : ℕ → List ℕ → Type 0
Lacks b = All (λ c. c ≢ b)

-- strings.HasPrefix, HasSuffix, TrimPrefix and TrimSuffix; the affix comes first.
unfoldable pub has_prefix : List ℕ → List ℕ → Bool
has_prefix [] s = true
has_prefix (p ∷ ps) [] = false
has_prefix (p ∷ ps) (c ∷ s) = p == c && has_prefix ps s

unfoldable pub trim_prefix : List ℕ → List ℕ → List ℕ
trim_prefix p s = if has_prefix p s then drop (length p) s else s

unfoldable pub has_suffix : List ℕ → List ℕ → Bool
has_suffix p s = has_prefix (reverse p) (reverse s)

unfoldable pub trim_suffix : List ℕ → List ℕ → List ℕ
trim_suffix p s = if has_suffix p s then take (length s - length p) s else s

-- strings.Contains
unfoldable pub contains : List ℕ → List ℕ → Bool
contains p [] = has_prefix p []
contains p (c ∷ s) = has_prefix p (c ∷ s) || contains p s

unfoldable pub has_byte : ℕ → List ℕ → Bool
has_byte b [] = false
has_byte b (c ∷ s) = c == b || has_byte b s

-- strings.Count of one byte
unfoldable pub count_byte : ℕ → List ℕ → ℕ
count_byte b [] = 0
count_byte b (c ∷ s) = let rest = count_byte b s in if c == b then suc rest else rest

-- strings.TrimSpace
unfoldable pub is_space : ℕ → Bool
is_space c = c == 32 || (leb 9 c && leb c 13)

unfoldable pub trim_left : List ℕ → List ℕ
trim_left [] = []
trim_left (c ∷ s) = let rest = trim_left s in if is_space c then rest else c ∷ s

unfoldable pub trim_space : List ℕ → List ℕ
trim_space s = reverse (trim_left (reverse (trim_left s)))

-- strings.ToLower
unfoldable pub lower : ℕ → ℕ
lower c = if leb 65 c && leb c 90 then c + 32 else c

unfoldable pub to_lower : List ℕ → List ℕ
to_lower [] = []
to_lower (c ∷ s) = lower c ∷ to_lower s

-- strings.EqualFold
unfoldable pub equal_fold : List ℕ → List ℕ → Bool
equal_fold s t = bytes_eq (to_lower s) (to_lower t)

unfoldable pub in_front : ℕ → List (List ℕ) → List (List ℕ)
in_front c [] = (c ∷ []) ∷ []
in_front c (p ∷ ps) = (c ∷ p) ∷ ps

-- strings.Split at one byte
unfoldable pub split : ℕ → List ℕ → List (List ℕ)
unfolding in_front
split b [] = [] ∷ []
split b (c ∷ s) = let rest = split b s in if c == b then [] ∷ rest else in_front c rest

before : ℕ → Option (List ℕ × List ℕ) → Option (List ℕ × List ℕ)
before c none = none
before c (some (head, tail)) = some (c ∷ head, tail)

-- strings.Cut at one byte
unfoldable pub cut : ℕ → List ℕ → Option (List ℕ × List ℕ)
unfolding before
cut b [] = none
cut b (c ∷ s) = let rest = cut b s in if c == b then some ([], s) else before c rest

unfoldable pub digits_from : ℕ → List ℕ → Option ℕ
digits_from acc [] = some acc
digits_from acc (c ∷ s) =
    let rest = digits_from (acc * 10 + (c - 48)) s in if leb 48 c && leb c 57 then rest else none

unfoldable pub digits_of : List ℕ → Option ℕ
digits_of [] = none
digits_of (c ∷ s) = digits_from 0 (c ∷ s)

-- The range of `int`.
unfoldable pub signed : Bool → Option ℕ → Option ℤ
signed minus none = none
signed true (some n) =
    if leb n 9223372036854775808 then some (if n == 0 then pos 0 else negsuc (n - 1)) else none
signed false (some n) = if ltb n 9223372036854775808 then some (pos n) else none

-- strconv.Atoi
unfoldable pub atoi : List ℕ → Option ℤ
atoi [] = none
atoi (c ∷ s) =
    if c == 45
    then signed true (digits_of s)
    else if c == 43
    then signed false (digits_of s)
    else signed false (digits_of (c ∷ s))

pub split-Lacks : (b : ℕ) (s : List ℕ) → Lacks b s → split b s ≡ s ∷ []
unfolding split in_front
split-Lacks b [] h = refl
split-Lacks b (c ∷ s) h = ground (arith, split-Lacks b s h.1, h.0)

pub split-append : (b : ℕ) (s t : List ℕ) → Lacks b s → split b (s ++ b ∷ t) ≡ s ∷ split b t
unfolding split in_front
split-append b [] t h = ground arith
split-append b (c ∷ s) t h = ground (arith, split-append b s t h.1, h.0)

pub cut-append : (b : ℕ) (s t : List ℕ) → Lacks b s → cut b (s ++ b ∷ t) ≡ some (s, t)
unfolding cut before
cut-append b [] t h = ground arith
cut-append b (c ∷ s) t h = ground (arith, cut-append b s t h.1, h.0)

pub count-Lacks : (b : ℕ) (s : List ℕ) → Lacks b s → count_byte b s ≡ 0
unfolding count_byte
count-Lacks b [] h = refl
count-Lacks b (c ∷ s) h = ground (arith, count-Lacks b s h.1, h.0)

pub count_here : (b : ℕ) (s : List ℕ) → count_byte b (b ∷ s) ≡ suc (count_byte b s)
unfolding count_byte
count_here b s = ground arith

pub count-append : (b : ℕ) (s t : List ℕ) → count_byte b (s ++ t) ≡ count_byte b s + count_byte b t
unfolding count_byte
count-append b [] t = omega arith
count-append b (c ∷ s) t = ground (arith, count-append b s t)

pub has_prefix-append : (p s : List ℕ) → has_prefix p (p ++ s) ≡ true
unfolding has_prefix
has_prefix-append [] s = refl
has_prefix-append (c ∷ p) s = ground (arith, has_prefix-append p s)

pub has_prefix-split : (p s : List ℕ) → has_prefix p s ≡ true → (t : List ℕ) × (s ≡ p ++ t)
unfolding has_prefix
has_prefix-split [] s h = (s, refl)
has_prefix-split (c ∷ p) [] h = absurd (cc)
has_prefix-split (c ∷ p) (d ∷ s) h =
    let (t, e) = has_prefix-split p s (ground arith) in (t, ground (arith, e))
