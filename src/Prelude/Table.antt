-- ===== src/Prelude/Table.antt =====
-- A map from strings, as an association list. The order of iteration is that of the list.
use Prim.Native.Nat.{ℕ}
use mathlib.Core.Path.{◌≡◌, refl}
use mathlib.Core.Bool.{Bool, false, not, ◌&&◌, ◌||◌}
use mathlib.Core.Option.{Option, none, some}
use mathlib.Core.List.{List, [], ◌∷◌}
use native.Mathlib.Omega.{arith}
use osanwe.Prelude.Tests.{if◌then◌else◌}
use osanwe.Prelude.Text.{bytes_eq, bytes_eq_iff}

module _ {ℓ} {V : Type ℓ} where
  -- `v, ok := m[key]`
  unfoldable pub find : List ℕ → List (List ℕ × V) → Option V
  find key [] = none
  find key ((k, v) ∷ m) = if bytes_eq k key then some v else find key m

  -- `m[key] = v`
  unfoldable pub put : List ℕ → V → List (List ℕ × V) → List (List ℕ × V)
  put key v [] = (key, v) ∷ []
  put key v ((k, old) ∷ m) = if bytes_eq k key then (key, v) ∷ m else (k, old) ∷ put key v m

  -- `delete(m, k)` for every entry that the test picks
  unfoldable pub remove_if : (List ℕ → V → Bool) → List (List ℕ × V) → List (List ℕ × V)
  remove_if p [] = []
  remove_if p ((k, v) ∷ m) = let rest = remove_if p m in if p k v then rest else (k, v) ∷ rest

  -- `delete(m, key)`
  unfoldable pub remove : List ℕ → List (List ℕ × V) → List (List ℕ × V)
  remove key [] = []
  remove key ((k, v) ∷ m) =
      let rest = remove key m in if bytes_eq k key then rest else (k, v) ∷ rest

  -- `_, ok := m[key]`
  unfoldable pub has : List ℕ → List (List ℕ × V) → Bool
  has key [] = false
  has key ((k, v) ∷ m) = bytes_eq k key || has key m

  pub find-put :
      (key other : List ℕ) (v : V) (m : List (List ℕ × V))
      → find other (put key v m) ≡ (if bytes_eq key other then some v else find other m)
  unfolding find put
  find-put key other v [] = refl
  find-put key other v ((k, old) ∷ m) = ground (
    arith,
    bytes_eq_iff k key,
    bytes_eq_iff k other,
    bytes_eq_iff key other,
    find-put key other v m,
  )

  pub find-remove :
      (key other : List ℕ) (m : List (List ℕ × V))
      → find other (remove key m) ≡ (if bytes_eq key other then none else find other m)
  unfolding find remove
  find-remove key other [] = ground arith
  find-remove key other ((k, v) ∷ m) = ground (
    arith,
    bytes_eq_iff k key,
    bytes_eq_iff k other,
    bytes_eq_iff key other,
    find-remove key other m,
  )

  pub has-put :
      (key other : List ℕ) (v : V) (m : List (List ℕ × V))
      → has other (put key v m) ≡ bytes_eq key other || has other m
  unfolding has put
  has-put key other v [] = refl
  has-put key other v ((k, old) ∷ m) =
      ground (arith, bytes_eq_iff k key, bytes_eq_iff k other, has-put key other v m)

  pub has-remove :
      (key other : List ℕ) (m : List (List ℕ × V))
      → has other (remove key m) ≡ not (bytes_eq key other) && has other m
  unfolding has remove
  has-remove key other [] = ground arith
  has-remove key other ((k, v) ∷ m) = ground (
    arith,
    bytes_eq_iff k key,
    bytes_eq_iff k other,
    bytes_eq_iff key other,
    has-remove key other m,
  )

  pub has-remove_if :
      (p : List ℕ → Bool) (other : List ℕ) (m : List (List ℕ × V))
      → has other (remove_if (λ k _. p k) m) ≡ not (p other) && has other m
  unfolding has remove_if
  has-remove_if p other [] = ground arith
  has-remove_if p other ((k, v) ∷ m) = ground (arith, bytes_eq_iff k other, has-remove_if p other m)

  pub find-has : (key : List ℕ) (m : List (List ℕ × V)) → has key m ≡ false → find key m ≡ none
  unfolding find has
  find-has key [] h = refl
  find-has key ((k, v) ∷ m) h = ground (arith, find-has key m)
