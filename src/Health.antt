-- ===== src/Health.antt =====
-- internal/health/health.go: the Tracker of consecutive failures. Its map is a table, in which a key
-- that is missing counts as 0, and the keys that are kept are a table of Booleans.
pub mod Streak
mod Tests
use osanwe.Prelude.{
  ℕ, ◌+◌, Bool, true, false, not, Option, none, some, List, [], ◌∷◌, if◌then◌else◌,
}
use osanwe.Prelude.Table.{find, put, remove, remove_if}

abbrev pub Tracker : Type 0
Tracker = List (List ℕ × ℕ)

abbrev pub new_tracker : Tracker
new_tracker = []

unfoldable pub or_zero : Option ℕ → ℕ
or_zero none = 0
or_zero (some n) = n

-- (*Tracker).Failures
unfoldable pub failures : List ℕ → Tracker → ℕ
unfolding or_zero
failures key t = or_zero (find key t)

-- (*Tracker).Record: the tracker, and the count that is returned.
unfoldable pub record_probe : List ℕ → Bool → Tracker → Tracker × ℕ
unfolding failures
record_probe key true t = (remove key t, 0)
record_probe key false t = (put key (failures key t + 1) t, failures key t + 1)

unfoldable pub is_kept : List (List ℕ × Bool) → List ℕ → Bool
is_kept keep key = elim (find key keep) [ none ↦ false | some b ↦ b ]

-- (*Tracker).Forget
unfoldable pub forget : List (List ℕ × Bool) → Tracker → Tracker
unfolding is_kept
forget keep t = remove_if (λ key count. not (is_kept keep key)) t
