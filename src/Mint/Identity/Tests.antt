-- ===== src/Mint/Identity/Tests.antt =====
-- internal/mint/spentfile.go: the pinned identity of one journal.
use osanwe.Prelude.{◌≡◌, ◌⊎◌, true, false, [], arith}
use osanwe.Prelude.Go.{err}
use osanwe.Mint.Identity.{
  SpentFileIdentity, replaced, sync_failed, lock_identity_size, encode_identity, pin_or_verify,
}
use osanwe.Mint.Identity.Pinned.{IsIdentity, pin_or_verify-pinned}

abbrev journal : SpentFileIdentity
journal = record { device = 64769; inode = 1234 }

abbrev other : SpentFileIdentity
other = record { device = 64769; inode = 99 }

journal-IsIdentity : IsIdentity journal
journal-IsIdentity = record { device_fits = omega arith; inode_fits = omega arith }

pin_or_verify-pinned_example :
    ((pin_or_verify lock_identity_size true journal []).0 ≡ encode_identity journal)
    × (pin_or_verify 40 false journal (encode_identity journal)
        ≡ (encode_identity journal, err sync_failed))
    × ((journal ≡ other)
        ⊎ (pin_or_verify 40 false other (encode_identity journal)
            ≡ (encode_identity journal, err replaced)))
pin_or_verify-pinned_example = pin_or_verify-pinned 40 true false journal other journal-IsIdentity
