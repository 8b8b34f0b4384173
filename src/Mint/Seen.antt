-- ===== src/Mint/Seen.antt =====
-- internal/mint/spentfile.go: the map `seen` from a token's fingerprint to the key it was spent
-- under. Go's map has one entry for a key; its order of iteration is not observed.
use osanwe.Prelude.{
  ℕ, suc, ◌≡◌, refl, false, if◌then◌else◌, List, [], ◌∷◌, Option, none, some, arith,
}
pub use osanwe.Prelude.Text.{bytes_eq, bytes_eq_refl, eq_of_bytes_eq, bytes_eq_iff}

abbrev pub Seen : Type 0
Seen = List (List ℕ × List ℕ)

-- `id, exists := seen[fp]`
unfoldable pub lookup : List ℕ → Seen → Option (List ℕ)
lookup fp [] = none
lookup fp ((f, id) ∷ m) = if bytes_eq f fp then some id else lookup fp m

-- `seen[fp] = id`
pub insert : List ℕ → List ℕ → Seen → Seen
insert fp id [] = (fp, id) ∷ []
insert fp id ((f, old) ∷ m) = if bytes_eq f fp then (fp, id) ∷ m else (f, old) ∷ insert fp id m

-- `delete(seen, fp)`
pub delete : List ℕ → Seen → Seen
delete fp [] = []
delete fp ((f, id) ∷ m) = let rest = delete fp m in if bytes_eq f fp then rest else (f, id) ∷ rest

-- The loops over `seen` that count and delete the entries of one key.
pub retire : List ℕ → Seen → Seen
retire key [] = []
retire key ((f, id) ∷ m) =
    let rest = retire key m in if bytes_eq id key then rest else (f, id) ∷ rest

pub count_key : List ℕ → Seen → ℕ
count_key key [] = 0
count_key key ((f, id) ∷ m) =
    let rest = count_key key m in if bytes_eq id key then suc rest else rest

unfoldable pub lookup-insert :
    (fp other id : List ℕ) (m : Seen)
    → lookup other (insert fp id m) ≡ (if bytes_eq fp other then some id else lookup other m)
unfolding lookup insert
lookup-insert fp other id [] = refl
lookup-insert fp other id ((f, old) ∷ m) = ground (
  arith,
  bytes_eq_iff f fp,
  bytes_eq_iff f other,
  bytes_eq_iff fp other,
  lookup-insert fp other id m,
)

unfoldable pub lookup-delete :
    (fp other : List ℕ) (m : Seen)
    → lookup other (delete fp m) ≡ (if bytes_eq fp other then none else lookup other m)
unfolding lookup delete
lookup-delete fp other [] = ground arith
lookup-delete fp other ((f, id) ∷ m) = ground (
  arith,
  bytes_eq_iff f fp,
  bytes_eq_iff f other,
  bytes_eq_iff fp other,
  lookup-delete fp other m,
)

-- Retiring another key leaves an entry as it is.
unfoldable pub lookup-retire_other :
    (key fp id : List ℕ) (m : Seen)
    → lookup fp m ≡ some id
    → bytes_eq id key ≡ false
    → lookup fp (retire key m) ≡ some id
unfolding lookup retire
lookup-retire_other key fp id [] h k = cc
lookup-retire_other key fp id ((f, old) ∷ m) h k =
    ground (arith, bytes_eq_iff f fp, lookup-retire_other key fp id m)

-- A key that counts no entry has none to retire.
pub retire_none : (key : List ℕ) (m : Seen) → count_key key m ≡ 0 → retire key m ≡ m
unfolding count_key retire
retire_none key [] h = refl
retire_none key ((f, id) ∷ m) h = ground (arith, retire_none key m)

-- A fingerprint that is not there has nothing to delete.
pub delete-none : (fp : List ℕ) (m : Seen) → lookup fp m ≡ none → delete fp m ≡ m
unfolding lookup delete
delete-none fp [] h = refl
delete-none fp ((f, id) ∷ m) h = ground (arith, delete-none fp m)
