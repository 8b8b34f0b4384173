-- ===== src/Gateway/Server/Stores.antt =====
-- What the gateway relies on in a store of redeemed tokens, and the store of one process.
use osanwe.Prelude.{ℕ, ◌≡◌, ◌≢◌, Bool, true, false, some, arith}
use osanwe.Prelude.Go.{ok}
use osanwe.Prelude.Text.{bytes_eq, bytes_eq_refl}
use osanwe.Prelude.Table.{has, has-put, has-remove}
use osanwe.Mint.Token.{Token}
use osanwe.Mint.SpentSet.{SpentSet, spent_key, spend_in, refund_in}
use osanwe.Gateway.Server.{RedemptionStore}

-- Which tokens are the same to the store, which are taken, and that taking one is final until the
-- same one is given back.
pub record RedemptionLaws {S : Type 0} (stores : RedemptionStore S) : Type 1 where
  pub is_same : Token → Token → Bool
  pub IsSpent : Token → S → Type 0
  pub spend_marks : (t : Token) (s later : S) → stores.spend t s ≡ (later, ok tt) → IsSpent t later
  pub spend_refuses : (t : Token) (s later : S) → IsSpent t s → stores.spend t s ≢ (later, ok tt)
  pub spend_keeps : (t u : Token) (s : S) → IsSpent t s → IsSpent t (stores.spend u s).0
  pub refund_keeps :
      (t u : Token) (s : S) → is_same u t ≡ false → IsSpent t s → IsSpent t (stores.refund u s).0

-- SpentSet as a store, at one reading of its clock.
abbrev pub of_spent_set : ℕ → RedemptionStore SpentSet
of_spent_set clock = record {
  spend = λ t s. spend_in clock (some t) s;
  refund = λ t s. refund_in (some t) s;
}

module _ (clock : ℕ) where
  spend_in-marks :
      (t : Token) (s later : SpentSet)
      → spend_in clock (some t) s ≡ (later, ok tt)
      → has (spent_key t) later ≡ true
  unfolding spend_in
  spend_in-marks t s later h =
      ground (arith, has-put (spent_key t) (spent_key t) clock s, bytes_eq_refl (spent_key t))

  spend_in-refuses :
      (t : Token) (s later : SpentSet)
      → has (spent_key t) s ≡ true
      → spend_in clock (some t) s ≢ (later, ok tt)
  unfolding spend_in
  spend_in-refuses t s later h k = ground (arith, h, k)

  spend_in-keeps :
      (t u : Token) (s : SpentSet)
      → has (spent_key t) s ≡ true
      → has (spent_key t) (spend_in clock (some u) s).0 ≡ true
  unfolding spend_in
  spend_in-keeps t u s h = ground (arith, h, has-put (spent_key u) (spent_key t) clock s)

refund_in-keeps :
    (t u : Token) (s : SpentSet)
    → bytes_eq (spent_key u) (spent_key t) ≡ false
    → has (spent_key t) s ≡ true
    → has (spent_key t) (refund_in (some u) s).0 ≡ true
unfolding refund_in
refund_in-keeps t u s h k = ground (arith, h, k, has-remove (spent_key u) (spent_key t) s)

pub spent_set_laws : (clock : ℕ) → RedemptionLaws (of_spent_set clock)
spent_set_laws clock = record {
  is_same = λ t u. bytes_eq (spent_key t) (spent_key u);
  IsSpent = λ t s. has (spent_key t) s ≡ true;
  spend_marks = spend_in-marks clock;
  spend_refuses = spend_in-refuses clock;
  spend_keeps = spend_in-keeps clock;
  refund_keeps = refund_in-keeps;
}
