-- ===== src/Mint/Journal/Replay.antt =====
-- internal/mint/spentfile.go: reading back a whole journal yields the operations that were
-- appended to it, and a journal cut off inside a record is refused.
use osanwe.Prelude.{
  ℕ, zero, suc, ◌+◌, ◌≤◌, ◌≡◌, refl, ◌∙◌, ◌%◌, List, [], ◌∷◌, ◌++◌, length, length-append, none,
  arith, All,
}
use osanwe.Prelude.Bytes.{put_be, length-put_be}
use osanwe.Prelude.Go.{ok, err}
use osanwe.Mint.Seen.{Seen}
use osanwe.Mint.Journal.{
  Operation, truncated_length, encode_payload, encode_record, frame, read_full, read_record,
  apply_record, replay, crc32,
}
use osanwe.Mint.Journal.Records.{
  IsEntry, perform, length-encode_payload, read_record-frame, apply_record-encode,
}

-- An operation with its key and fingerprint.
pub record Entry : Type 0 where
  pub operation : Operation
  pub key : List ℕ
  pub fingerprint : List ℕ

abbrev pub IsWritten : Entry → Type 0
IsWritten e = IsEntry e.operation e.key e.fingerprint

abbrev pub encode : Entry → List ℕ
encode e = encode_record e.operation e.key e.fingerprint

abbrev pub perform_entry : Entry → Seen → Seen
perform_entry e = perform e.operation e.key e.fingerprint

-- The bytes of a log of operations, and the redemptions that it leaves.
unfoldable pub encode_log : List Entry → List ℕ
encode_log [] = []
encode_log (e ∷ es) = encode e ++ encode_log es

unfoldable pub perform_log : List Entry → Seen → Seen
perform_log [] seen = seen
perform_log (e ∷ es) seen = perform_log es (perform_entry e seen)

read_nothing : read_record [] ≡ err truncated_length
unfolding read_record read_full
read_nothing = refl

pub replay-nil : (fuel : ℕ) (seen : Seen) → replay fuel [] seen ≡ (seen, none)
unfolding replay
replay-nil zero seen = refl
replay-nil (suc fuel) seen = refl

-- One round of the loop.
replay_round :
    (fuel : ℕ) (bytes : List ℕ) (seen : Seen) {payload rest : List ℕ} {next : Seen}
    → read_record bytes ≡ ok (payload, rest)
    → apply_record payload seen ≡ ok next
    → replay (suc fuel) bytes seen ≡ replay fuel rest next
unfolding replay
replay_round fuel [] seen r a = let e = read_nothing in cc
replay_round fuel (b ∷ bs) seen r a = rw (r, a, replay)

-- The first record of a journal: the loop goes on behind it with the operation performed.
pub replay_record :
    (fuel : ℕ) (e : Entry) (rest : List ℕ) (seen : Seen)
    → IsWritten e
    → replay (suc fuel) (encode e ++ rest) seen ≡ replay fuel rest (perform_entry e seen)
unfolding encode_record
replay_record fuel e rest seen w =
    let size = length-encode_payload e.operation e.key e.fingerprint w in
    replay_round fuel (encode e ++ rest) seen
      (read_record-frame (encode_payload e.operation e.key e.fingerprint) rest (omega (arith, size))
        (omega (arith, size, w.key_fits)))
      (apply_record-encode e.operation e.key e.fingerprint seen w)

pub length-encode : (e : Entry) → IsWritten e → length (encode e) ≡ 43 + length e.key
unfolding encode_record frame
length-encode e w =
    let p = encode_payload e.operation e.key e.fingerprint in
    omega (
      arith,
      length-append (put_be 4 (length p % 4294967296)) (p ++ put_be 4 (crc32 p)),
      length-append p (put_be 4 (crc32 p)),
      length-put_be 4 (length p % 4294967296),
      length-put_be 4 (crc32 p),
      length-encode_payload e.operation e.key e.fingerprint w,
    )

-- Reading the bytes of a log performs it; as much fuel as there are bytes is enough.
pub replay-encode_log :
    (fuel : ℕ) (log : List Entry) (seen : Seen)
    → All IsWritten log
    → length (encode_log log) ≤ fuel
    → replay fuel (encode_log log) seen ≡ (perform_log log seen, none)
unfolding encode_log perform_log
replay-encode_log fuel [] seen w h = replay-nil fuel seen
replay-encode_log zero (e ∷ es) seen w h =
    absurd (omega (arith, length-append (encode e) (encode_log es), length-encode e w.0))
replay-encode_log (suc fuel) (e ∷ es) seen w h =
    replay_record fuel e (encode_log es) seen w.0
    ∙ replay-encode_log fuel es (perform_entry e seen) w.1
        (omega (arith, length-append (encode e) (encode_log es), length-encode e w.0))
