-- ===== src/Mint/Receipts/Once.antt =====
-- internal/mint/receipts.go: a receipt is consumed once, and no two receipts are hashed alike.
use native.Mathlib.Nat.{mod-eq_of_lt}
use osanwe.Prelude.{
  ℕ, ◌<◌, ◌%◌, ◌≡◌, ◌≢◌, refl, sym, ap, ◌∙◌, inl, inr, true, List, [], ◌∷◌, ◌++◌, length, take,
  drop, take-append, drop-append, Bool-cases, arith,
}
use osanwe.Prelude.Bytes.{put_be, get_be, get_be-put_be, take-put_be, drop-put_be}
use osanwe.Prelude.Go.{Result, ok, err}
use osanwe.Mint.Seen.{bytes_eq_iff}
use osanwe.Mint.Receipts.{
  ReceiptError, Call, Receipt, receipt_data, is_used, claim_tx, commit_claim, receipt_key,
  claim_key, claim, claim_all,
}

-- What a transaction's end leaves of the keys in use.
module _ (call : Call) (key k : List ℕ) (used : List (List ℕ)) where
  claim_keeps :
      is_used k used ≡ true
      → is_used k (commit_claim call.commits used (claim_tx call key used)).0 ≡ true
  unfolding is_used claim_tx commit_claim
  claim_keeps h = ground arith

  claim_records :
      (commit_claim call.commits used (claim_tx call key used)).1 ≡ ok tt
      → is_used key (commit_claim call.commits used (claim_tx call key used)).0 ≡ true
  unfolding is_used claim_tx commit_claim
  claim_records h = let s = (bytes_eq_iff key key).1 refl in ground arith

  claim_refuses :
      is_used key used ≡ true → (commit_claim call.commits used (claim_tx call key used)).1 ≢ ok tt
  unfolding claim_tx commit_claim
  claim_refuses h q = ground arith

module _ (sha256 : List ℕ → List ℕ) where
  claim_key-keeps :
      (call : Call) (k : List ℕ) (used : List (List ℕ)) (r : Result ReceiptError (List ℕ))
      → is_used k used ≡ true
      → is_used k (claim_key sha256 call used r).0 ≡ true
  unfolding claim_key claim_tx
  claim_key-keeps call k used (err e) h = h
  claim_key-keeps call k used (ok key) h = elim (Bool-cases call.done_before) [
    | inl d ↦ rw d h
    | inr d ↦ rw d (claim_keeps call key k used h)
  ]

  claim_all-keeps :
      (calls : List (Call × Receipt)) (k : List ℕ) (used : List (List ℕ))
      → is_used k used ≡ true
      → is_used k (claim_all sha256 calls used) ≡ true
  unfolding claim_all claim
  claim_all-keeps [] k used h = h
  claim_all-keeps ((call, r) ∷ later) k used h =
      claim_all-keeps later k (claim_key sha256 call used (receipt_key sha256 r)).0
        (claim_key-keeps call k used (receipt_key sha256 r) h)

  claimed_once :
      (call again : Call) (key : Result ReceiptError (List ℕ)) (later : List (Call × Receipt))
      (used : List (List ℕ))
      → (claim_key sha256 call used key).1 ≡ ok tt
      → (claim_key sha256 again (claim_all sha256 later (claim_key sha256 call used key).0) key).1
        ≢ ok tt
  unfolding claim_key claim_tx
  claimed_once call again (err e) later used h q = cc
  claimed_once call again (ok key) later used h q = elim (Bool-cases call.done_before) [
    | inl d ↦ absurd (let z = rw d at h in cc)
    | inr d ↦ elim (Bool-cases again.done_before) [
      | inl a ↦ absurd (let z = rw (d, a) at q in cc)
      | inr a ↦
          claim_refuses again key key
            (claim_all sha256 later (commit_claim call.commits used (claim_tx call key used)).0)
            (claim_all-keeps later key (commit_claim call.commits used (claim_tx call key used)).0
              (claim_records call key key used (rw d at h)))
            (rw (d, a) at q)
    ]
  ]

  -- Once a claim of a receipt succeeded, no later claim of the same receipt does, whatever calls
  -- come between.
  pub claim_once :
      (call again : Call) (r : Receipt) (later : List (Call × Receipt)) (used : List (List ℕ))
      → (claim sha256 call r used).1 ≡ ok tt
      → (claim sha256 again r (claim_all sha256 later (claim sha256 call r used).0)).1 ≢ ok tt
  unfolding claim
  claim_once call again r later used h = claimed_once call again (receipt_key sha256 r) later used h

-- The rail and the receipt can be told from the bytes that are hashed, where the rail's length is
-- a uint32.
pub receipt_data-injective :
    (r s : Receipt)
    → length r.rail < 4294967296
    → length s.rail < 4294967296
    → receipt_data r ≡ receipt_data s
    → r ≡ s
unfolding receipt_data
receipt_data-injective r s hr hs e =
    let n : length r.rail ≡ length s.rail =
      sym (front r hr) ∙ ap (λ x. get_be (take 4 x)) e ∙ front s hs in
    let rest : r.rail ++ r.receipt ≡ s.rail ++ s.receipt =
      sym (drop-put_be 4 (length r.rail % 4294967296) (r.rail ++ r.receipt))
      ∙ ap (drop 4) e
      ∙ drop-put_be 4 (length s.rail % 4294967296) (s.rail ++ s.receipt) in
    let a : r.rail ≡ s.rail =
      sym (take-append (length r.rail) r.rail r.receipt refl)
      ∙ ap (take (length r.rail)) rest
      ∙ take-append (length r.rail) s.rail s.receipt (sym n) in
    let b : r.receipt ≡ s.receipt =
      sym (drop-append (length r.rail) r.rail r.receipt refl)
      ∙ ap (drop (length r.rail)) rest
      ∙ drop-append (length r.rail) s.rail s.receipt (sym n) in
    λ i. record { rail = a i; receipt = b i }
  where
    front :
        (x : Receipt)
        → length x.rail < 4294967296
        → get_be (take 4 (put_be 4 (length x.rail % 4294967296) ++ (x.rail ++ x.receipt)))
          ≡ length x.rail
    front x h =
        rw
          (
            take-put_be 4 (length x.rail % 4294967296) (x.rail ++ x.receipt),
            get_be-put_be 4 (length x.rail % 4294967296) (omega arith),
            mod-eq_of_lt {n = length x.rail} {m = 4294967296} h,
          )
          refl
