-- ===== src/Mint/SpentSet.antt =====
-- internal/mint/mint.go: SpentSet, the redeemed tokens of one process.
pub mod Refinement
mod Tests
use osanwe.Prelude.{
  ℕ, suc, Bool, true, false, ◌&&◌, ◌||◌, Option, none, some, List, [], ◌∷◌, ◌++◌, length,
  if◌then◌else◌,
}
use osanwe.Prelude.Go.{Result, ok, err}
use osanwe.Prelude.Text.{has_prefix}
use osanwe.Prelude.Table.{has, put, remove, remove_if}
use osanwe.Mint.Token.{Token}
use osanwe.Mint.SpentFile.{SpentError, nil_token, already_spent}

-- The map from a token's key to the time of its redemption.
abbrev pub SpentSet : Type 0
SpentSet = List (List ℕ × ℕ)

abbrev pub bar : ℕ
bar = 124

unfoldable pub spent_key : Token → List ℕ
spent_key t = t.key_id ++ bar ∷ t.nonce

-- (*SpentSet).Spend
unfoldable pub spend_in : ℕ → Option Token → SpentSet → SpentSet × Result SpentError (Unit {0})
spend_in clock none seen = (seen, err nil_token)
spend_in clock (some t) seen =
    if has (spent_key t) seen
    then (seen, err already_spent)
    else (put (spent_key t) clock seen, ok tt)

-- (*SpentSet).Refund
unfoldable pub refund_in : Option Token → SpentSet → SpentSet × Result SpentError (Unit {0})
refund_in none seen = (seen, err nil_token)
refund_in (some t) seen = (remove (spent_key t) seen, ok tt)

-- (*SpentSet).Len
unfoldable pub set_len : SpentSet → ℕ
set_len seen = length seen

-- Whether a key begins with the key id and a bar.
unfoldable pub is_under : List ℕ → List ℕ → Bool
is_under key_id key = has_prefix (key_id ++ bar ∷ []) key

unfoldable pub count_under : List ℕ → SpentSet → ℕ
unfolding is_under
count_under key_id [] = 0
count_under key_id ((key, _) ∷ seen) =
    let rest = count_under key_id seen in if is_under key_id key then suc rest else rest

-- (*SpentSet).Retire
unfoldable pub retire_in : List ℕ → SpentSet → SpentSet × ℕ
unfolding count_under is_under
retire_in key_id seen = (remove_if (λ key _. is_under key_id key) seen, count_under key_id seen)
