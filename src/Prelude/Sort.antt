-- ===== src/Prelude/Sort.antt =====
-- sort.Strings and sort.Slice over strings, by insertion. Strings that compare equal are equal, so
-- the order is determined.
use Prim.Native.Nat.{ℕ}
use mathlib.Core.Bool.{Bool, true, false, ◌&&◌, ◌||◌}
use mathlib.Core.List.{List, [], ◌∷◌}
use osanwe.Prelude.Tests.{ltb, ◌==◌, if◌then◌else◌}

-- The order of bytes.
unfoldable pub before : List ℕ → List ℕ → Bool
before [] t = true
before (c ∷ s) [] = false
before (c ∷ s) (d ∷ t) = ltb c d || (c == d && before s t)

unfoldable pub sort_in : List ℕ → List (List ℕ) → List (List ℕ)
sort_in s [] = s ∷ []
sort_in s (t ∷ ts) = let rest = sort_in s ts in if before s t then s ∷ t ∷ ts else t ∷ rest

unfoldable pub sort_strings : List (List ℕ) → List (List ℕ)
sort_strings [] = []
sort_strings (s ∷ ts) = sort_in s (sort_strings ts)

-- By the string that each element has.
module _ {ℓ} {A : Type ℓ} (key : A → List ℕ) where
  unfoldable pub insert_by : A → List A → List A
  insert_by x [] = x ∷ []
  insert_by x (y ∷ ys) =
      let rest = insert_by x ys in if before (key x) (key y) then x ∷ y ∷ ys else y ∷ rest

  unfoldable pub sort_by : List A → List A
  sort_by [] = []
  sort_by (x ∷ xs) = insert_by x (sort_by xs)
