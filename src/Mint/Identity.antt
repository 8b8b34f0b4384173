-- ===== src/Mint/Identity.antt =====
-- internal/mint/spentfile.go: the identity of the journal that the lock file pins, so that another
-- journal in its place is refused. The lock file is its bytes.
use osanwe.Prelude.{
  ℕ, ◌-◌, Bool, ◌&&◌, ◌||◌, not, ◌==◌, if◌then◌else◌, List, [], ◌∷◌, ◌++◌, length, take, drop,
}
use osanwe.Prelude.Bytes.{put_be, get_be}
use osanwe.Prelude.Go.{Result, ok, err}
use osanwe.Mint.Seen.{bytes_eq}
use osanwe.Mint.Journal.{crc32}
pub mod Pinned
pub mod Tests

-- spentFileIdentity, of uint64 values.
pub record SpentFileIdentity : Type 0 where
  pub device : ℕ
  pub inode : ℕ

pub data IdentityError : Type 0 where
  wrong_size corrupt_header checksum_mismatch replaced write_failed sync_failed : IdentityError

-- spentLockHeader
abbrev pub lock_header : List ℕ
lock_header =
    79 ∷ 83 ∷ 65 ∷ 78 ∷ 87 ∷ 69 ∷ 45 ∷ 83 ∷ 80 ∷ 69 ∷ 78 ∷ 84 ∷ 45 ∷ 76 ∷ 79 ∷ 67 ∷ 75 ∷ 0 ∷ 1 ∷ 10
    ∷ []

-- spentLockIdentitySize
abbrev pub lock_identity_size : ℕ
lock_identity_size = 40

abbrev pub unchecked : SpentFileIdentity → List ℕ
unchecked i = lock_header ++ (put_be 8 i.device ++ put_be 8 i.inode)

-- encodeSpentLockIdentity
pub encode_identity : SpentFileIdentity → List ℕ
encode_identity i = unchecked i ++ put_be 4 (crc32 (unchecked i))

-- decodeSpentLockIdentity
pub decode_identity : List ℕ → Result IdentityError SpentFileIdentity
decode_identity bytes =
    if not (length bytes == lock_identity_size)
    then err wrong_size
    else if not (bytes_eq (take 20 bytes) lock_header)
    then err corrupt_header
    else if not (get_be (drop 36 bytes) == crc32 (take 36 bytes))
    then err checksum_mismatch
    else ok (record {
      device = get_be (take 8 (drop 20 bytes));
      inode = get_be (take 8 (drop 28 bytes));
    })

pub same_identity : SpentFileIdentity → SpentFileIdentity → Bool
same_identity a b = a.device == b.device && a.inode == b.inode

-- readPinnedIdentityLocked, of a lock file that can be read.
pub read_pinned_identity : List ℕ → Result IdentityError SpentFileIdentity
read_pinned_identity lock =
    if not (length lock == lock_identity_size) then err wrong_size else decode_identity lock

pub synced_lock : Bool → List ℕ → List ℕ × Result IdentityError (Unit {0})
synced_lock syncs lock = (lock, if syncs then ok tt else err sync_failed)

pub compare_pinned :
    Bool
    → SpentFileIdentity
    → List ℕ
    → Result IdentityError SpentFileIdentity
    → List ℕ × Result IdentityError (Unit {0})
compare_pinned syncs i lock (err e) = (lock, err e)
compare_pinned syncs i lock (ok pinned) =
    if not (same_identity pinned i) then (lock, err replaced) else synced_lock syncs lock

-- pinOrVerifyIdentityLocked; `written` bytes of the record reach the lock file, all of them where
-- the write succeeds.
pub pin_or_verify : ℕ → Bool → SpentFileIdentity → List ℕ → List ℕ × Result IdentityError (Unit {0})
pin_or_verify written syncs i lock =
    if length lock == 0
    then (if written == lock_identity_size
        then synced_lock syncs (encode_identity i)
        else (take written (encode_identity i), err write_failed))
    else compare_pinned syncs i lock (read_pinned_identity lock)
