-- ===== src/Mint/Receipts.antt =====
-- internal/mint/receipts.go: payment receipts that are consumed once. The store is the list of the
-- keys in bbolt's bucket. SHA-256 is a parameter, and what the context and the commit do are
-- inputs of a call.
use osanwe.Prelude.{
  ℕ, ◌+◌, ◌%◌, Bool, true, false, ◌||◌, ltb, ◌==◌, if◌then◌else◌, List, [], ◌∷◌, ◌++◌, length, any,
}
use osanwe.Prelude.Bytes.{put_be}
use osanwe.Prelude.Go.{Result, ok, err}
use osanwe.Mint.Seen.{bytes_eq}
pub mod Once
pub mod Tests

pub data ReceiptError : Type 0 where
  bad_rail bad_receipt context_done receipt_used transaction_failed : ReceiptError

-- MaxIssueBody
abbrev pub max_issue_body : ℕ
max_issue_body = 16384

-- What a call sees: whether its context has ended before and inside the transaction, and whether
-- the transaction commits.
pub record Call : Type 0 where
  pub done_before : Bool
  pub done_inside : Bool
  pub commits : Bool

pub record Receipt : Type 0 where
  pub rail : List ℕ
  pub receipt : List ℕ

-- The bytes that receiptKey hashes.
pub receipt_data : Receipt → List ℕ
receipt_data r = put_be 4 (length r.rail % 4294967296) ++ (r.rail ++ r.receipt)

pub is_used : List ℕ → List (List ℕ) → Bool
is_used key used = any (bytes_eq key) used

-- The body of Claim's transaction.
pub claim_tx : Call → List ℕ → List (List ℕ) → Result ReceiptError (List (List ℕ))
claim_tx call key used =
    if call.done_inside
    then err context_done
    else if is_used key used
    then err receipt_used
    else ok (key ∷ used)

-- db.Update
pub commit_claim :
    Bool
    → List (List ℕ)
    → Result ReceiptError (List (List ℕ))
    → List (List ℕ) × Result ReceiptError (Unit {0})
commit_claim commits used (err e) = (used, err e)
commit_claim commits used (ok next) =
    if commits then (next, ok tt) else (used, err transaction_failed)

module _ (sha256 : List ℕ → List ℕ) where
  -- receiptKey
  pub receipt_key : Receipt → Result ReceiptError (List ℕ)
  receipt_key r =
      if length r.rail == 0 || ltb 255 (length r.rail)
      then err bad_rail
      else if length r.receipt == 0 || ltb max_issue_body (length r.receipt)
      then err bad_receipt
      else ok (sha256 (receipt_data r))

  pub claim_key :
      Call
      → List (List ℕ)
      → Result ReceiptError (List ℕ)
      → List (List ℕ) × Result ReceiptError (Unit {0})
  claim_key call used (err e) = (used, err e)
  claim_key call used (ok key) =
      if call.done_before
      then (used, err context_done)
      else commit_claim call.commits used (claim_tx call key used)

  -- (*FileReceiptStore).Claim
  pub claim : Call → Receipt → List (List ℕ) → List (List ℕ) × Result ReceiptError (Unit {0})
  claim call r used = claim_key call used (receipt_key r)

  -- Any sequence of calls, as bbolt's transactions order them.
  pub claim_all : List (Call × Receipt) → List (List ℕ) → List (List ℕ)
  claim_all [] used = used
  claim_all ((call, r) ∷ later) used = claim_all later (claim call r used).0
