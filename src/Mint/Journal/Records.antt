-- ===== src/Mint/Journal/Records.antt =====
-- internal/mint/spentfile.go: a record that was written is read back as it was meant.
use native.Mathlib.Nat.{mod-eq_of_lt}
use mathlib.Core.List.{append_assoc}
use osanwe.Prelude.{
  ℕ, ◌+◌, ◌≤◌, ◌<◌, ◌^◌, ◌%◌, ◌≡◌, refl, List, ◌++◌, length, take, length-append, take-append,
  drop-append, le→ltb, ==_iff, arith,
}
use osanwe.Prelude.Bytes.{put_be, get_be, get_be-put_be, take-put_be, drop-put_be, length-put_be}
use osanwe.Prelude.Go.{ok}
use osanwe.Mint.Seen.{Seen, insert, delete, retire, bytes_eq_refl}
use osanwe.Mint.Journal.{
  JournalError, truncated_length, truncated_record, truncated_checksum, Operation, spent, refund,
  retired, crc32, encode_payload, frame, read_full, read_record, apply_record, apply_operation,
  operation_byte, zero_fingerprint, fingerprint_bytes, max_token_bytes,
}

pub crc32-word : (bs : List ℕ) → crc32 bs < 256 ^ 4
unfolding crc32
crc32-word bs = omega arith

-- Reading what stands at the front.
pub read_full-append :
    (n : ℕ) (xs ys : List ℕ) (e : JournalError)
    → length xs ≡ n
    → read_full n (xs ++ ys) e ≡ ok (xs, ys)
unfolding read_full
read_full-append n xs ys e h = rw (
  le→ltb (length (xs ++ ys)) n (omega (arith, length-append xs ys)),
  take-append n xs ys h,
  drop-append n xs ys h,
)

-- A framed payload of a permitted size is read back, whatever follows it.
pub read_record-frame :
    (payload rest : List ℕ)
    → 35 ≤ length payload
    → length payload ≤ 4131
    → read_record (frame payload ++ rest) ≡ ok (payload, rest)
unfolding read_record frame
read_record-frame payload rest lo hi = rw (
  append_assoc (put_be 4 (length payload % 4294967296)) (payload ++ put_be 4 (crc32 payload)) rest,
  append_assoc payload (put_be 4 (crc32 payload)) rest,
  read_full-append 4 (put_be 4 (length payload % 4294967296))
      (payload ++ (put_be 4 (crc32 payload) ++ rest)) truncated_length (length-put_be 4 _),
  get_be-put_be 4 (length payload % 4294967296) (omega arith),
  mod-eq_of_lt {n = length payload} {m = 4294967296} (omega arith),
  le→ltb (length payload) 35 lo,
  le→ltb 4131 (length payload) hi,
  read_full-append (length payload) payload (put_be 4 (crc32 payload) ++ rest) truncated_record
      refl,
  read_full-append 4 (put_be 4 (crc32 payload)) rest truncated_checksum (length-put_be 4 _),
  get_be-put_be 4 (crc32 payload) (crc32-word payload),
  (==_iff (crc32 payload) (crc32 payload)).1 refl,
)

-- What a record means for the redemptions.
unfoldable pub perform : Operation → List ℕ → List ℕ → Seen → Seen
perform spent key fingerprint seen = insert fingerprint key seen
perform refund key fingerprint seen = delete fingerprint seen
perform retired key fingerprint seen = retire key seen

-- A record that the store may write: a key of a permitted length, a whole fingerprint, and the
-- zero fingerprint where a key is retired.
pub record IsEntry (operation : Operation) (key fingerprint : List ℕ) : Type 0 where
  pub key_some : 0 < length key
  pub key_fits : length key ≤ max_token_bytes
  pub whole : length fingerprint ≡ fingerprint_bytes
  pub zero_if_retired : operation ≡ retired → fingerprint ≡ zero_fingerprint

module _ (operation : Operation) (key fingerprint : List ℕ)
    (v : IsEntry operation key fingerprint) where
  pub length-encode_payload : length (encode_payload operation key fingerprint) ≡ 35 + length key
  unfolding encode_payload
  length-encode_payload = omega (
    arith,
    length-append (put_be 2 (length key % 65536)) (key ++ fingerprint),
    length-append key fingerprint,
    length-put_be 2 (length key % 65536),
    v.whole,
    v.key_fits,
  )

  key_read : get_be (take 2 (put_be 2 (length key % 65536) ++ (key ++ fingerprint))) ≡ length key
  key_read = rw (
    take-put_be 2 (length key % 65536) (key ++ fingerprint),
    get_be-put_be 2 (length key % 65536) (omega arith),
    mod-eq_of_lt {n = length key} {m = 65536} (omega (arith, v.key_fits)),
  )

apply_encoded :
    (operation : Operation) (key fingerprint : List ℕ) (seen : Seen)
    → IsEntry operation key fingerprint
    → apply_operation (operation_byte operation) key fingerprint seen
      ≡ ok (perform operation key fingerprint seen)
unfolding apply_operation perform
apply_encoded spent key fingerprint seen v = refl
apply_encoded refund key fingerprint seen v = refl
apply_encoded retired key fingerprint seen v =
    rw (v.zero_if_retired refl, bytes_eq_refl zero_fingerprint)

-- Applying a written payload performs its operation.
pub apply_record-encode :
    (operation : Operation) (key fingerprint : List ℕ) (seen : Seen)
    → IsEntry operation key fingerprint
    → apply_record (encode_payload operation key fingerprint) seen
      ≡ ok (perform operation key fingerprint seen)
unfolding apply_record encode_payload
apply_record-encode operation key fingerprint seen v =
    rw
      (
        key_read operation key fingerprint v,
        drop-put_be 2 (length key % 65536) (key ++ fingerprint),
        take-append (length key) key fingerprint refl,
        drop-append (length key) key fingerprint refl,
      )
      (ground (
        arith,
        length-encode_payload operation key fingerprint v,
        apply_encoded operation key fingerprint seen v,
      ))
