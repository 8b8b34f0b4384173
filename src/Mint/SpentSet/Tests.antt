-- ===== src/Mint/SpentSet/Tests.antt =====
-- Spends, refunds and retirements on small sets.
use osanwe.Prelude.{◌≡◌, refl, List, [], ◌∷◌, none, All, false}
use osanwe.Prelude.Go.{ok, err}
use osanwe.Prelude.Text.{has_prefix, bytes_eq}
use osanwe.Prelude.Table.{has, put, remove, remove_if}
use osanwe.Mint.Token.{Token}
use osanwe.Mint.SpentFile.{nil_token, already_spent}
use osanwe.Mint.SpentSet.{spend_in, refund_in, retire_in, spent_key}
use osanwe.Mint.SpentSet.Refinement.{
  Call, spends, refunds, retires, answers, set_answers, IsPlain, new_set_answers,
}

abbrev first : Token
first = record { key_id = 1 ∷ []; nonce = 7 ∷ []; sig = [] }

abbrev second : Token
second = record { key_id = 2 ∷ []; nonce = 7 ∷ []; sig = [] }

abbrev calls : List Call
calls =
    spends 1 first
    ∷ spends 2 second
    ∷ spends 3 first
    ∷ refunds second
    ∷ retires (1 ∷ [])
    ∷ spends 4 first
    ∷ []

calls-All : All IsPlain calls
calls-All = (
  (λ e. cc, tt),
  ((λ e. cc, tt), ((λ e. cc, tt), ((λ e. cc, tt), ((λ e. cc, tt), ((λ e. cc, tt), tt))))),
)

new_set_answers_example : answers calls [] ≡ set_answers calls (λ _. false)
new_set_answers_example = new_set_answers calls calls-All

answered : answers calls [] ≡ ok tt ∷ ok tt ∷ err already_spent ∷ ok tt ∷ ok tt ∷ []
unfolding answers spend_in refund_in has put retire_in bytes_eq remove_if spent_key remove
    has_prefix
answered = refl

nothing : (spend_in 1 none []).1 ≡ err nil_token
unfolding spend_in
nothing = refl
