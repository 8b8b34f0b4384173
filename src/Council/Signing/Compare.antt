-- ===== src/Council/Signing/Compare.antt =====
-- cmd/council/signing_state.go: a signer that finds its own last vote.
use osanwe.Prelude.{
  ℕ, ◌<◌, ◌≤◌, ◌≡◌, refl, ap, ◌∙◌, true, false, le→ltb, ne→eqb, ◌==◌, List, [], ◌∷◌, ◌++◌, length,
  some, arith,
}
use osanwe.Prelude.Go.{Result, ok, err}
use osanwe.Mint.Seen.{bytes_eq_iff}
use osanwe.Council.Signing.{
  SigningError, SigningState, Codec, Proposal, Guard, Disk, check_state, is_digest,
  read_signing_state, compare_epochs, against_state, against, hand_out, guard_of,
  begin_consensus_signing, state_of, bytes_of,
}
use osanwe.Council.Signing.Votes.{IsCodec, Vote, Records}

hand_out-result : (d : Disk) (r : Result SigningError Guard) → (hand_out d r).1 ≡ r
unfolding hand_out
hand_out-result d (err e) = refl
hand_out-result d (ok g) = refl

begin_reads :
    (c : Codec) (voter : List ℕ) (p : Proposal) (epoch : ℕ) (d : Disk)
    → p.valid_after_of ≡ some epoch
    → p.has_raw ≡ true
    → (length voter == 0) ≡ false
    → d.locked ≡ false
    → begin_consensus_signing c true true voter p d
      ≡ hand_out d
          (against c (guard_of voter epoch p.body_id_of) (read_signing_state c true d.file))
unfolding begin_consensus_signing
begin_reads c voter p epoch d e raw h free = ground arith

-- A signer that finds no lock and its own vote recorded, in a state file of at most 4096 bytes,
-- is let through, or refused, as the epochs and the bodies compare.
pub begin_compares :
    (c : Codec) (laws : IsCodec c) (v : Vote) (p : Proposal) (epoch : ℕ) (d : Disk)
    → p.valid_after_of ≡ some epoch
    → p.has_raw ≡ true
    → 0 < length v.voter_of
    → is_digest v.body_of ≡ true
    → length (bytes_of c (guard_of v.voter_of v.epoch_of v.body_of)) ≤ 4096
    → Records c (some v) d.file
    → d.locked ≡ false
    → (begin_consensus_signing c true true v.voter_of p d).1
      ≡ compare_epochs (guard_of v.voter_of epoch p.body_id_of) v.epoch_of v.body_of
unfolding read_signing_state check_state against against_state
begin_compares c laws v p epoch d e raw some_voter digest small r free =
    let s : SigningState = state_of c (guard_of v.voter_of v.epoch_of v.body_of) in
    let g : Guard = guard_of v.voter_of epoch p.body_id_of in
    let read : read_signing_state c true d.file ≡ ok (some s) =
      rw
        (
          r,
          le→ltb 4096 (length (bytes_of c (guard_of v.voter_of v.epoch_of v.body_of))) small,
          laws.decode-marshal s,
          ne→eqb (length v.voter_of) 0 (omega (arith, some_voter)),
          digest,
          (bytes_eq_iff (c.marshal s ++ 10 ∷ []) (c.marshal s ++ 10 ∷ [])).1 refl,
        )
        refl in
    let judged : against c g (ok (some s)) ≡ compare_epochs g v.epoch_of v.body_of =
      rw
        (
          (bytes_eq_iff v.voter_of v.voter_of).1 refl,
          laws.parse-format v.epoch_of,
          (bytes_eq_iff (c.format v.epoch_of) (c.format v.epoch_of)).1 refl,
        )
        refl in
    ap (λ (x : Disk × Result SigningError Guard). x.1)
      (begin_reads c v.voter_of p epoch d e raw
        (ne→eqb (length v.voter_of) 0 (omega (arith, some_voter))) free)
    ∙ ap (λ x. (hand_out d (against c g x)).1) read
    ∙ hand_out-result d (against c g (ok (some s)))
    ∙ judged
