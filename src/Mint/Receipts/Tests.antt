-- ===== src/Mint/Receipts/Tests.antt =====
-- internal/mint/receipts.go on one receipt.
use osanwe.Prelude.{◌≡◌, ◌≢◌, refl, false, true, [], ◌∷◌}
use osanwe.Prelude.Go.{ok}
use osanwe.Mint.Receipts.{
  Call, Receipt, is_used, claim_tx, commit_claim, receipt_key, claim_key, claim, claim_all,
}
use osanwe.Mint.Receipts.Once.{claim_once}

abbrev live : Call
live = record { done_before = false; done_inside = false; commits = true }

abbrev invoice : Receipt
invoice = record { rail = 98 ∷ []; receipt = 1 ∷ 2 ∷ [] }

abbrev other_invoice : Receipt
other_invoice = record { rail = 98 ∷ []; receipt = 3 ∷ [] }

first_claim : (claim (λ bytes. bytes) live invoice []).1 ≡ ok tt
unfolding claim claim_key receipt_key claim_tx commit_claim is_used
first_claim = refl

claim_once_example :
    (claim
      (λ bytes. bytes)
      live
      invoice
      (claim_all
        (λ bytes. bytes)
        ((live, other_invoice) ∷ [])
        (claim (λ bytes. bytes) live invoice []).0)).1
    ≢ ok tt
claim_once_example =
    claim_once (λ bytes. bytes) live live invoice ((live, other_invoice) ∷ []) [] first_claim
