-- ===== src/Mint/Journal.antt =====
-- internal/mint/spentfile.go: the records of the spent-token journal, how one is written
-- (appendRecordLocked) and how the journal is read back (refreshLocked, applyRecord). A journal is
-- its bytes.
use Prim.Native.Nat.{bit_and, bit_xor}
use osanwe.Prelude.{
  ℕ, zero, suc, ◌+◌, ◌-◌, ◌*◌, ◌/◌, ◌%◌, Bool, true, false, ◌&&◌, ◌||◌, not, ltb, ◌==◌,
  if◌then◌else◌, List, [], ◌∷◌, ◌++◌, length, take, drop, Option, none, some,
}
use osanwe.Prelude.Bytes.{put_be, get_be}
use osanwe.Prelude.Go.{Result, ok, err, ◌>>=◌}
use osanwe.Mint.Seen.{Seen, bytes_eq, insert, delete, retire}
pub mod Records
pub mod Replay
pub mod Torn

-- hash/crc32 with the IEEE polynomial, bit by bit, in a uint32.
crc_bit : ℕ → ℕ
crc_bit c = if bit_and c 1 == 1 then bit_xor (c / 2) 3988292384 else c / 2

crc_byte : ℕ → ℕ → ℕ
unfolding crc_bit
crc_byte c b =
    crc_bit (crc_bit (crc_bit (crc_bit (crc_bit (crc_bit (crc_bit (crc_bit (bit_xor c b))))))))

crc_bytes : ℕ → List ℕ → ℕ
crc_bytes c [] = c
crc_bytes c (b ∷ bs) = crc_bytes (crc_byte c b) bs

pub crc32 : List ℕ → ℕ
unfolding crc_bytes crc_byte
crc32 bs = bit_xor (crc_bytes 4294967295 bs) 4294967295 % 4294967296

-- The three record types, by their bytes 'S', 'F' and 'K'.
pub data Operation : Type 0 where
  spent refund retired : Operation

abbrev pub operation_byte : Operation → ℕ
operation_byte spent = 83
operation_byte refund = 70
operation_byte retired = 75

pub data JournalError : Type 0 where
  truncated_header corrupt_header truncated_length invalid_size : JournalError
  truncated_record truncated_checksum checksum_mismatch invalid_key_length : JournalError
  invalid_retirement unknown_operation out_of_fuel : JournalError

abbrev pub fingerprint_bytes : ℕ
fingerprint_bytes = 32

abbrev pub record_fixed_bytes : ℕ
record_fixed_bytes = 35

abbrev pub max_token_bytes : ℕ
max_token_bytes = 4096

abbrev pub max_record_bytes : ℕ
max_record_bytes = 4131

-- spentFileHeader
abbrev pub file_header : List ℕ
file_header = 79 ∷ 83 ∷ 65 ∷ 78 ∷ 87 ∷ 69 ∷ 45 ∷ 83 ∷ 80 ∷ 69 ∷ 78 ∷ 84 ∷ 0 ∷ 1 ∷ 10 ∷ []

abbrev pub zero_fingerprint : List ℕ
zero_fingerprint =
    0 ∷ 0 ∷ 0 ∷ 0 ∷ 0 ∷ 0 ∷ 0 ∷ 0 ∷ 0 ∷ 0 ∷ 0 ∷ 0 ∷ 0 ∷ 0 ∷ 0 ∷ 0 ∷ 0 ∷ 0 ∷ 0 ∷ 0 ∷ 0 ∷ 0 ∷ 0 ∷ 0
    ∷ 0 ∷ 0 ∷ 0 ∷ 0 ∷ 0 ∷ 0 ∷ 0 ∷ 0 ∷ []

-- The payload and the record of appendRecordLocked; the lengths are cast to uint16 and uint32.
unfoldable pub encode_payload : Operation → List ℕ → List ℕ → List ℕ
encode_payload operation key fingerprint =
    operation_byte operation ∷ (put_be 2 (length key % 65536) ++ (key ++ fingerprint))

unfoldable pub frame : List ℕ → List ℕ
frame payload = put_be 4 (length payload % 4294967296) ++ (payload ++ put_be 4 (crc32 payload))

unfoldable pub encode_record : Operation → List ℕ → List ℕ → List ℕ
encode_record operation key fingerprint = frame (encode_payload operation key fingerprint)

-- io.ReadFull of `n` bytes: what was read and what is left.
pub read_full : ℕ → List ℕ → JournalError → Result JournalError (List ℕ × List ℕ)
read_full n bytes e = if ltb (length bytes) n then err e else ok (take n bytes, drop n bytes)

-- One framed record: its payload, checked, and what is left.
pub read_record : List ℕ → Result JournalError (List ℕ × List ℕ)
read_record bytes = do
  (size_bytes, after_size) ← read_full 4 bytes truncated_length
  let size = get_be size_bytes
  if ltb size record_fixed_bytes || ltb max_record_bytes size then err invalid_size else do
    (payload, after_payload) ← read_full size after_size truncated_record
    (checksum, rest) ← read_full 4 after_payload truncated_checksum
    if get_be checksum == crc32 payload then ok (payload, rest) else err checksum_mismatch

-- The switch of applyRecord.
pub apply_operation : ℕ → List ℕ → List ℕ → Seen → Result JournalError Seen
apply_operation operation key fingerprint seen =
    if operation == 83
    then ok (insert fingerprint key seen)
    else if operation == 70
    then ok (delete fingerprint seen)
    else if operation == 75
    then (if bytes_eq fingerprint zero_fingerprint
        then ok (retire key seen)
        else err invalid_retirement)
    else err unknown_operation

pub apply_record : List ℕ → Seen → Result JournalError Seen
apply_record [] seen = err invalid_key_length
apply_record (operation ∷ fields) seen =
    let key_length = get_be (take 2 fields) in
    if key_length == 0
      || (ltb max_token_bytes key_length
          || not (length (operation ∷ fields) == record_fixed_bytes + key_length))
    then err invalid_key_length
    else apply_operation operation (take key_length (drop 2 fields))
        (drop key_length (drop 2 fields)) seen

-- The loop of refreshLocked over the bytes that are left. Every round consumes more than four
-- bytes, so as much fuel as there are bytes is enough. An error leaves what was applied before it.
pub replay : ℕ → List ℕ → Seen → Seen × Option JournalError
replay fuel [] seen = (seen, none)
replay zero (b ∷ bytes) seen = (seen, some out_of_fuel)
replay (suc fuel) (b ∷ bytes) seen = elim (read_record (b ∷ bytes)) [
  | err e ↦ (seen, some e)
  | ok (payload, rest) ↦ elim (apply_record payload seen) [
    | err e ↦ (seen, some e)
    | ok seen' ↦ replay fuel rest seen'
  ]
]
