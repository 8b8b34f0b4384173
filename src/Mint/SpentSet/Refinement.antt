-- ===== src/Mint/SpentSet/Refinement.antt =====
-- SpentSet against the set of tokens that are redeemed.
use osanwe.Prelude.{
  ℕ, ◌≡◌, refl, ap₂, Bool, false, not, ◌&&◌, ◌||◌, some, List, [], ◌∷◌, ◌++◌, if◌then◌else◌, arith,
  All,
}
use osanwe.Prelude.Go.{Result, ok, err}
use osanwe.Prelude.Text.{has_prefix, bytes_eq, bytes_eq_iff, Lacks, cut, cut-append}
use osanwe.Prelude.Table.{has, has-put, has-remove, has-remove_if}
use osanwe.Mint.Token.{Token}
use osanwe.Mint.SpentFile.{SpentError, already_spent}
use osanwe.Mint.SpentSet.{SpentSet, bar, spent_key, spend_in, refund_in, retire_in, is_under}

-- A call of the set, and the time it happens at.
pub data Call : Type 0 where
  spends : ℕ → Token → Call
  refunds : Token → Call
  retires : List ℕ → Call

-- What Spend and Refund answer over a sequence of calls.
unfoldable pub answers : List Call → SpentSet → List (Result SpentError (Unit {0}))
answers [] seen = []
answers (spends clock t ∷ calls) seen =
    let (later, answer) = spend_in clock (some t) seen in answer ∷ answers calls later
answers (refunds t ∷ calls) seen =
    let (later, answer) = refund_in (some t) seen in answer ∷ answers calls later
answers (retires key_id ∷ calls) seen = answers calls (retire_in key_id seen).0

unfoldable pub is_same : Token → Token → Bool
is_same t u = bytes_eq t.key_id u.key_id && bytes_eq t.nonce u.nonce

-- The specification: a set of tokens, as its membership test.
unfoldable pub set_answers : List Call → (Token → Bool) → List (Result SpentError (Unit {0}))
unfolding is_same
set_answers [] is_spent = []
set_answers (spends _ t ∷ calls) is_spent =
    (if is_spent t then err already_spent else ok tt)
    ∷ set_answers calls (λ u. is_same t u || is_spent u)
set_answers (refunds t ∷ calls) is_spent =
    ok tt ∷ set_answers calls (λ u. not (is_same t u) && is_spent u)
set_answers (retires key_id ∷ calls) is_spent =
    set_answers calls (λ u. not (bytes_eq key_id u.key_id) && is_spent u)

abbrev pub IsPlain : Call → Type 0
IsPlain (spends _ t) = Lacks bar t.key_id
IsPlain (refunds t) = Lacks bar t.key_id
IsPlain (retires key_id) = Lacks bar key_id

Agrees : SpentSet → (Token → Bool) → Type 0
Agrees seen is_spent = (t : Token) → Lacks bar t.key_id → has (spent_key t) seen ≡ is_spent t

cut-spent_key : (t : Token) → Lacks bar t.key_id → cut bar (spent_key t) ≡ some (t.key_id, t.nonce)
unfolding spent_key
cut-spent_key t h = cut-append bar t.key_id t.nonce h

spent_key-is_same :
    (t u : Token)
    → Lacks bar t.key_id
    → Lacks bar u.key_id
    → bytes_eq (spent_key t) (spent_key u) ≡ is_same t u
unfolding is_same spent_key
spent_key-is_same t u h k = ground (
  arith,
  bytes_eq_iff (spent_key t) (spent_key u),
  bytes_eq_iff t.key_id u.key_id,
  bytes_eq_iff t.nonce u.nonce,
  cut-spent_key t h,
  cut-spent_key u k,
)

has_prefix-bar :
    (key_id s rest : List ℕ)
    → Lacks bar key_id
    → Lacks bar s
    → has_prefix (key_id ++ bar ∷ []) (s ++ bar ∷ rest) ≡ bytes_eq key_id s
unfolding has_prefix bytes_eq
has_prefix-bar [] [] rest h k = ground arith
has_prefix-bar [] (c ∷ s) rest h k = ground (arith, k.0)
has_prefix-bar (b ∷ key_id) [] rest h k = ground (arith, h.0)
has_prefix-bar (b ∷ key_id) (c ∷ s) rest h k = ground (arith, has_prefix-bar key_id s rest h.1 k.1)

is_under-spent_key :
    (key_id : List ℕ) (t : Token)
    → Lacks bar key_id
    → Lacks bar t.key_id
    → is_under key_id (spent_key t) ≡ bytes_eq key_id t.key_id
unfolding is_under spent_key
is_under-spent_key key_id t h k = has_prefix-bar key_id t.key_id t.nonce h k

module _ (seen : SpentSet) (is_spent : Token → Bool) (agrees : Agrees seen is_spent) where
  spend_in-Agrees :
      (clock : ℕ) (t : Token)
      → Lacks bar t.key_id
      → Agrees (spend_in clock (some t) seen).0 (λ u. is_same t u || is_spent u)
        × ((spend_in clock (some t) seen).1 ≡ (if is_spent t then err already_spent else ok tt))
  unfolding Agrees spend_in
  spend_in-Agrees clock t h = (
    λ u k. ground (
      arith,
      bytes_eq_iff (spent_key t) (spent_key u),
      spent_key-is_same t u h k,
      has-put (spent_key t) (spent_key u) clock seen,
      agrees t h,
      agrees u k,
    ),
    ground (arith, agrees t h),
  )

  refund_in-Agrees :
      (t : Token)
      → Lacks bar t.key_id
      → Agrees (refund_in (some t) seen).0 (λ u. not (is_same t u) && is_spent u)
  unfolding Agrees refund_in
  refund_in-Agrees t h u k =
      ground
        (arith, has-remove (spent_key t) (spent_key u) seen, spent_key-is_same t u h k, agrees u k)

  retire_in-Agrees :
      (key_id : List ℕ)
      → Lacks bar key_id
      → Agrees (retire_in key_id seen).0 (λ u. not (bytes_eq key_id u.key_id) && is_spent u)
  unfolding Agrees retire_in
  retire_in-Agrees key_id h u k = ground (
    arith,
    has-remove_if (is_under key_id) (spent_key u) seen,
    is_under-spent_key key_id u h k,
    agrees u k,
  )

answers-set_answers :
    (calls : List Call) (seen : SpentSet) (is_spent : Token → Bool)
    → All IsPlain calls
    → Agrees seen is_spent
    → answers calls seen ≡ set_answers calls is_spent
unfolding answers set_answers
answers-set_answers [] seen is_spent plain agrees = refl
answers-set_answers (spends clock t ∷ calls) seen is_spent plain agrees =
    let (kept, answered) = spend_in-Agrees seen is_spent agrees clock t plain.0 in
    ap₂ ◌∷◌ answered (answers-set_answers calls _ _ plain.1 kept)
answers-set_answers (refunds t ∷ calls) seen is_spent plain agrees =
    ap₂ ◌∷◌ (unfold refund_in in refl)
      (answers-set_answers calls _ _ plain.1 (refund_in-Agrees seen is_spent agrees t plain.0))
answers-set_answers (retires key_id ∷ calls) seen is_spent plain agrees =
    answers-set_answers calls _ _ plain.1 (retire_in-Agrees seen is_spent agrees key_id plain.0)

-- A set that is empty at first answers every sequence of spends, refunds and retirements as the set
-- of the redeemed tokens does, if no key id holds a bar.
pub new_set_answers :
    (calls : List Call) → All IsPlain calls → answers calls [] ≡ set_answers calls (λ _. false)
unfolding Agrees has
new_set_answers calls plain = answers-set_answers calls [] (λ _. false) plain (λ t _. refl)
