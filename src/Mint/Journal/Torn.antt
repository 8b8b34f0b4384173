-- ===== src/Mint/Journal/Torn.antt =====
-- internal/mint/spentfile.go: a journal that ends inside a record, as an append that failed part
-- of the way leaves it, is refused by every later reader; and the reading loop always ends.
use native.Mathlib.Nat.{mod-eq_of_lt}
use mathlib.Core.List.{append_assoc}
use osanwe.Prelude.{
  ℕ, zero, suc, ◌+◌, ◌≤◌, ◌<◌, ◌%◌, ◌≡◌, ◌≢◌, refl, ap, List, [], ◌∷◌, ◌++◌, length, length-append,
  take, drop, take-append_le, length-drop, ne_nil, Option, some, ltb, ltb→lt, ltb→le, lt→ltb,
  le→ltb, arith, Bool-cases, All, inl, inr,
}
use osanwe.Prelude.Bytes.{put_be, get_be, get_be-put_be, length-put_be, take-put_be}
use osanwe.Prelude.Go.{ok, err, Result-cases}
use osanwe.Mint.Seen.{Seen}
use osanwe.Mint.Journal.{
  JournalError, truncated_length, truncated_record, truncated_checksum, out_of_fuel, frame,
  read_full, read_record, apply_record, apply_operation, replay, crc32, encode_payload,
  encode_record,
}
use osanwe.Mint.Journal.Records.{length-encode_payload}
use osanwe.Mint.Journal.Replay.{
  Entry, IsWritten, encode, encode_log, perform_entry, replay_record, length-encode, replay-nil,
}

read_short :
    (n : ℕ) (bytes : List ℕ) (e : JournalError) → length bytes < n → read_full n bytes e ≡ err e
unfolding read_full
read_short n bytes e h = rw (lt→ltb (length bytes) n h)

read_long :
    (n : ℕ) (bytes : List ℕ) (e : JournalError)
    → n ≤ length bytes
    → read_full n bytes e ≡ ok (take n bytes, drop n bytes)
unfolding read_full
read_long n bytes e h = rw (le→ltb (length bytes) n h)

-- A payload of a permitted size whose record lost its end.
module _ (payload cut lost : List ℕ) (lo : 35 ≤ length payload) (hi : length payload ≤ 4131)
    (whole : cut ++ lost ≡ frame payload) (missing : lost ≢ []) where
  lengths : length cut + length lost ≡ 8 + length payload
  unfolding frame
  lengths = omega (
    arith,
    length-append cut lost,
    ap length whole,
    length-append (put_be 4 (length payload % 4294967296)) (payload ++ put_be 4 (crc32 payload)),
    length-append payload (put_be 4 (crc32 payload)),
    length-put_be 4 (length payload % 4294967296),
    length-put_be 4 (crc32 payload),
  )

  size_read : 4 ≤ length cut → get_be (take 4 cut) ≡ length payload
  unfolding frame
  size_read h = rw (
    ← take-append_le 4 cut lost h,
    whole,
    take-put_be 4 (length payload % 4294967296) (payload ++ put_be 4 (crc32 payload)),
    get_be-put_be 4 (length payload % 4294967296) (omega arith),
    mod-eq_of_lt {n = length payload} {m = 4294967296} (omega arith),
  )

  -- Reading it reports a truncation.
  pub read_record_torn : (e : JournalError) × (read_record cut ≡ err e)
  unfolding read_record
  read_record_torn = elim (Bool-cases (ltb (length cut) 4)) [
    | inl short ↦ (truncated_length, rw (read_short 4 cut truncated_length (ltb→lt _ _ short)))
    | inr enough ↦ elim (Bool-cases (ltb (length (drop 4 cut)) (length payload))) [
      | inl short ↦ (
        truncated_record,
        rw (
          read_long 4 cut truncated_length (ltb→le _ _ enough),
          size_read (ltb→le _ _ enough),
          le→ltb (length payload) 35 lo,
          le→ltb 4131 (length payload) hi,
          read_short (length payload) (drop 4 cut) truncated_record (ltb→lt _ _ short),
        ),
      )
      | inr more ↦ (
        truncated_checksum,
        rw (
          read_long 4 cut truncated_length (ltb→le _ _ enough),
          size_read (ltb→le _ _ enough),
          le→ltb (length payload) 35 lo,
          le→ltb 4131 (length payload) hi,
          read_long (length payload) (drop 4 cut) truncated_record (ltb→le _ _ more),
          read_short 4 (drop (length payload) (drop 4 cut)) truncated_checksum (
              omega (
                arith,
                lengths,
                ne_nil lost missing,
                length-drop 4 cut,
                length-drop (length payload) (drop 4 cut),
                ltb→le _ _ enough,
                ltb→le _ _ more,
              )),
        ),
      )
    ]
  ]

-- What every refused reading has in common.
abbrev pub IsRefused : Seen × Option JournalError → Type 0
IsRefused r = (e : JournalError) × (r.1 ≡ some e)

IsRefused-round :
    (fuel : ℕ) (bytes : List ℕ) (seen : Seen) {e : JournalError}
    → bytes ≢ []
    → read_record bytes ≡ err e
    → IsRefused (replay fuel bytes seen)
unfolding replay
IsRefused-round fuel [] seen h r = absurd (h refl)
IsRefused-round zero (b ∷ bs) seen h r = (out_of_fuel, refl)
IsRefused-round (suc fuel) (b ∷ bs) seen {e} h r = (e, rw (r, replay))

IsRefused-zero : (bytes : List ℕ) (seen : Seen) → bytes ≢ [] → IsRefused (replay zero bytes seen)
unfolding replay
IsRefused-zero [] seen h = absurd (h refl)
IsRefused-zero (b ∷ bs) seen h = (out_of_fuel, refl)

-- A log followed by a record without its end is refused, at whatever place the end was lost.
pub torn_log :
    (fuel : ℕ) (log : List Entry) (e : Entry) (cut lost : List ℕ) (seen : Seen)
    → All IsWritten log
    → IsWritten e
    → cut ++ lost ≡ encode e
    → cut ≢ []
    → lost ≢ []
    → IsRefused (replay fuel (encode_log log ++ cut) seen)
unfolding encode_log encode_record
torn_log fuel [] e cut lost seen w v whole some_left missing =
    let size = length-encode_payload e.operation e.key e.fingerprint v in
    let (x, r) =
      read_record_torn (encode_payload e.operation e.key e.fingerprint) cut lost
        (omega (arith, size)) (omega (arith, size, v.key_fits)) whole missing in
    IsRefused-round fuel cut seen some_left r
torn_log zero (f ∷ fs) e cut lost seen w v whole some_left missing =
    IsRefused-zero ((encode f ++ encode_log fs) ++ cut) seen (λ z. absurd (
      omega (
        arith,
        ap length z,
        length-append (encode f ++ encode_log fs) cut,
        length-append (encode f) (encode_log fs),
        length-encode f w.0,
      )))
torn_log (suc fuel) (f ∷ fs) e cut lost seen w v whole some_left missing =
    rw
      (
        append_assoc (encode f) (encode_log fs) cut,
        replay_record fuel f (encode_log fs ++ cut) seen w.0,
      )
      (torn_log fuel fs e cut lost (perform_entry f seen) w.1 v whole some_left missing)

-- Each round leaves fewer bytes.
read_full-shrinks :
    (n : ℕ) (bytes : List ℕ) (e : JournalError) {a rest : List ℕ}
    → read_full n bytes e ≡ ok (a, rest)
    → n + length rest ≡ length bytes
unfolding read_full
read_full-shrinks n bytes e h = elim (Bool-cases (ltb (length bytes) n)) [
  | inl short ↦ absurd (ground arith)
  | inr enough ↦ ground (arith, length-drop n bytes, ltb→le (length bytes) n)
]

read_record-shrinks :
    (bytes : List ℕ) {payload rest : List ℕ}
    → read_record bytes ≡ ok (payload, rest)
    → length rest < length bytes
unfolding read_record
read_record-shrinks bytes h = elim (Result-cases (read_full 4 bytes truncated_length)) [
  | inr (e, r) ↦ absurd (ground arith)
  | inl ((size, after), r) ↦ elim (Result-cases (read_full (get_be size) after truncated_record)) [
    | inr (e, q) ↦ absurd (ground arith)
    | inl ((p, more), q) ↦ elim (Result-cases (read_full 4 more truncated_checksum)) [
      | inr (e, c) ↦ absurd (ground arith)
      | inl ((k, last), c) ↦ ground (
        arith,
        read_full-shrinks 4 bytes truncated_length r,
        read_full-shrinks (get_be size) after truncated_record q,
        read_full-shrinks 4 more truncated_checksum c,
      )
    ]
  ]
]

read_record-ends : (bytes : List ℕ) → read_record bytes ≢ err out_of_fuel
unfolding read_record read_full
read_record-ends bytes h = ground arith

apply_record-ends : (payload : List ℕ) (seen : Seen) → apply_record payload seen ≢ err out_of_fuel
unfolding apply_record apply_operation
apply_record-ends [] seen h = cc
apply_record-ends (o ∷ fields) seen h = ground arith

-- As much fuel as there are bytes is enough: the loop ends by its own tests on every journal.
pub replay_ends :
    (fuel : ℕ) (bytes : List ℕ) (seen : Seen)
    → length bytes ≤ fuel
    → (replay fuel bytes seen).1 ≢ some out_of_fuel
unfolding replay
replay_ends fuel [] seen h e = let q = replay-nil fuel seen in cc
replay_ends zero (b ∷ bs) seen h e = absurd (omega arith)
replay_ends (suc fuel) (b ∷ bs) seen h e = elim (Result-cases (read_record (b ∷ bs))) [
  | inr (x, r) ↦ read_record-ends (b ∷ bs) (let q = rw (r, replay) at e in cc)
  | inl ((payload, rest), r) ↦ elim (Result-cases (apply_record payload seen)) [
    | inr (x, a) ↦ apply_record-ends payload seen (let q = rw (r, a, replay) at e in cc)
    | inl (next, a) ↦
        replay_ends fuel rest next (omega (arith, read_record-shrinks (b ∷ bs) r))
          (rw (r, a, replay) at e)
  ]
]
