-- ===== src/Mint/Identity/Pinned.antt =====
-- internal/mint/spentfile.go: an identity that was pinned is read back, and no other one is
-- accepted.
use osanwe.Prelude.{
  ℕ, ◌<◌, ◌^◌, ◌≡◌, refl, ◌∙◌, ◌⊎◌, inl, inr, Bool, true, [], if◌then◌else◌, ==_iff, Bool-cases,
  length, length-append, arith,
}
use osanwe.Prelude.Bytes.{put_be, get_be-put_be, length-put_be}
use osanwe.Prelude.Go.{ok, err}
use osanwe.Mint.Seen.{bytes_eq_iff}
use osanwe.Mint.Journal.{crc32}
use osanwe.Mint.Journal.Records.{crc32-word}
use osanwe.Mint.Identity.{
  SpentFileIdentity, replaced, sync_failed, lock_identity_size, lock_header, unchecked,
  encode_identity, decode_identity, same_identity, read_pinned_identity, synced_lock,
  compare_pinned, pin_or_verify,
}

-- Both numbers are uint64 values.
pub record IsIdentity (i : SpentFileIdentity) : Type 0 where
  pub device_fits : i.device < 256 ^ 8
  pub inode_fits : i.inode < 256 ^ 8

length-unchecked : (i : SpentFileIdentity) → length (unchecked i) ≡ 36
length-unchecked i = omega (
  arith,
  length-append (put_be 8 i.device) (put_be 8 i.inode),
  length-put_be 8 i.device,
  length-put_be 8 i.inode,
)

length-encode_identity : (i : SpentFileIdentity) → length (encode_identity i) ≡ 40
unfolding encode_identity
length-encode_identity i = omega (
  arith,
  length-append (unchecked i) (put_be 4 (crc32 (unchecked i))),
  length-unchecked i,
  length-put_be 4 (crc32 (unchecked i)),
)

-- The identity that a lock file was given is read back.
pub decode_identity-encode :
    (i : SpentFileIdentity) → IsIdentity i → decode_identity (encode_identity i) ≡ ok i
unfolding decode_identity encode_identity put_be
decode_identity-encode i h =
    rw
      (
        (bytes_eq_iff lock_header lock_header).1 refl,
        get_be-put_be 4 (crc32 (unchecked i)) (crc32-word (unchecked i)),
        (==_iff (crc32 (unchecked i)) (crc32 (unchecked i))).1 refl,
      )
      (λ k. ok (record {
        device = get_be-put_be 8 i.device h.device_fits k;
        inode = get_be-put_be 8 i.inode h.inode_fits k;
      }))

read-encode :
    (i : SpentFileIdentity) → IsIdentity i → read_pinned_identity (encode_identity i) ≡ ok i
unfolding read_pinned_identity
read-encode i h = rw (length-encode_identity i) (decode_identity-encode i h)

same_identity-eq : (a b : SpentFileIdentity) → same_identity a b ≡ true → a ≡ b
unfolding same_identity
same_identity-eq a b h =
    let d : a.device ≡ b.device = ground arith in
    let n : a.inode ≡ b.inode = ground arith in λ k. record { device = d k; inode = n k }

same_identity_self : (a : SpentFileIdentity) → same_identity a a ≡ true
unfolding same_identity
same_identity_self a = rw ((==_iff a.device a.device).1 refl, (==_iff a.inode a.inode).1 refl) refl

verify_pinned :
    (written : ℕ) (syncs : Bool) (i j : SpentFileIdentity)
    → IsIdentity i
    → pin_or_verify written syncs j (encode_identity i)
      ≡ compare_pinned syncs j (encode_identity i) (ok i)
unfolding pin_or_verify
verify_pinned written syncs i j h = rw (length-encode_identity i, read-encode i h) refl

-- An empty lock file that the whole record is written to pins the journal. Then, whatever happens to
-- later writes, the check passes for that journal if the lock file syncs and reports the failed sync
-- if not, and it refuses every other journal as a replacement. The lock file stays as it is.
pub pin_or_verify-pinned :
    (written : ℕ) (first syncs : Bool) (i j : SpentFileIdentity)
    → IsIdentity i
    → ((pin_or_verify lock_identity_size first i []).0 ≡ encode_identity i)
      × (pin_or_verify written syncs i (encode_identity i)
          ≡ (encode_identity i, if syncs then ok tt else err sync_failed))
      × ((i ≡ j)
          ⊎ (pin_or_verify written syncs j (encode_identity i) ≡ (encode_identity i, err replaced)))
unfolding compare_pinned synced_lock pin_or_verify
pin_or_verify-pinned written first syncs i j h = (
  refl,
  verify_pinned written syncs i i h ∙ rw (same_identity_self i) refl,
  elim (Bool-cases (same_identity i j)) [
    | inl e ↦ inl (same_identity-eq i j e)
    | inr e ↦ inr (verify_pinned written syncs i j h ∙ rw e refl)
  ],
)
