-- ===== src/Mint/Token.antt =====
-- internal/mint/blind.go: tokens as text, and their verification. RSA-PSS, SHA-256 and base64 are
-- parameters. A modulus is its big-endian bytes with no leading zero, [] where it is not positive.
pub mod Spelling
pub mod Tests
use osanwe.Prelude.{
  ℕ, ◌+◌, ◌*◌, ◌-◌, ◌%◌, Bool, true, false, not, ◌&&◌, ◌||◌, Option, none, some, List, [], ◌∷◌,
  ◌++◌, length, take, drop, ltb, ◌==◌, if◌then◌else◌,
}
use osanwe.Prelude.Bytes.{put_be}
use osanwe.Prelude.Go.{Result, ok, err, ◌>>=◌}
use osanwe.Prelude.Text.{codes, bytes_eq, has_prefix, split, count_byte}

pub data TokenError : Type 0 where
  empty_token token_too_long not_three_fields empty_field invalid_key_id bad_nonce bad_sig :
      TokenError
  wrong_length wrong_domain bad_signature : TokenError
  bad_modulus even_modulus key_too_short bad_exponent : TokenError

pub record Token : Type 0 where
  pub key_id : List ℕ
  pub nonce : List ℕ
  pub sig : List ℕ

pub record PublicKey : Type 0 where
  pub modulus : List ℕ
  pub exponent : ℕ

pub record Crypto : Type 0 where
  pub sha256 : List ℕ → List ℕ
  pub base64 : List ℕ → List ℕ
  pub from_base64 : List ℕ → Option (List ℕ)
  pub verifies : PublicKey → List ℕ → List ℕ → Bool

abbrev pub protocol_suite : List ℕ
protocol_suite = codes "osanwe-rsabssa-sha384-pss-randomized-v1"

abbrev pub mint_prefix : List ℕ
mint_prefix = codes "mint-"

abbrev pub max_token_text : ℕ
max_token_text = 4096

abbrev pub dot : ℕ
dot = 46

-- (*big.Int).BitLen of one byte.
unfoldable pub bits_of : ℕ → ℕ
bits_of b =
    if ltb b 16
    then (if ltb b 4 then (if ltb b 2 then b else 2) else if ltb b 8 then 3 else 4)
    else if ltb b 64
    then (if ltb b 32 then 5 else 6)
    else if ltb b 128
    then 7
    else 8

unfoldable pub bit_len : List ℕ → ℕ
unfolding bits_of
bit_len [] = 0
bit_len (b ∷ bs) = bits_of b + length bs * 8

-- (*big.Int).Bit(0)
unfoldable pub low_bit : List ℕ → ℕ
low_bit [] = 0
low_bit (b ∷ []) = b % 2
low_bit (b ∷ c ∷ bs) = low_bit (c ∷ bs)

unfoldable pub validate_public_key : PublicKey → Result TokenError (Unit {0})
unfolding bit_len low_bit
validate_public_key pub_key =
    if length pub_key.modulus == 0
    then err bad_modulus
    else if low_bit pub_key.modulus == 0
    then err even_modulus
    else if ltb (bit_len pub_key.modulus) 2048
    then err key_too_short
    else if ltb pub_key.exponent 3 || (pub_key.exponent % 2 == 0 || ltb 2147483647 pub_key.exponent)
    then err bad_exponent
    else ok tt

-- The domain in front of the nonce: suite, 0, key id, 0.
unfoldable pub domain : List ℕ → List ℕ
domain key_id = protocol_suite ++ (0 ∷ key_id ++ 0 ∷ [])

unfoldable pub token_message : List ℕ → List ℕ → List ℕ
unfolding domain
token_message key_id nonce = domain key_id ++ nonce

unfoldable pub validate_prepared_message : List ℕ → List ℕ → Result TokenError (Unit {0})
unfolding domain
validate_prepared_message key_id prepared =
    if not (length prepared == 32 + length protocol_suite + 1 + length key_id + 1 + 32)
    then err wrong_length
    else if has_prefix (domain key_id) (drop 32 prepared)
    then ok tt
    else err wrong_domain

unfoldable pub or_error : TokenError → Option (List ℕ) → Result TokenError (List ℕ)
or_error e none = err e
or_error e (some bytes) = ok bytes

module _ (crypto : Crypto) where
  -- KeyID
  unfoldable pub key_id_of : PublicKey → List ℕ
  key_id_of pub_key =
      mint_prefix
      ++ crypto.base64 (
          take 16
            (crypto.sha256 (protocol_suite ++ (0 ∷ pub_key.modulus ++ put_be 8 pub_key.exponent))))

  -- (*Token).Encode of a token that is not nil.
  unfoldable pub encode_token : Token → List ℕ
  encode_token t = t.key_id ++ (dot ∷ crypto.base64 t.nonce ++ (dot ∷ crypto.base64 t.sig))

  -- ParseToken once the text is split.
  unfoldable pub parse_fields : List (List ℕ) → Result TokenError Token
  unfolding or_error
  parse_fields (key_text ∷ nonce_text ∷ sig_text ∷ []) =
      if length key_text == 0 || (length nonce_text == 0 || length sig_text == 0)
      then err empty_field
      else if not (has_prefix mint_prefix key_text)
      then err invalid_key_id
      else do
        nonce ← or_error bad_nonce (crypto.from_base64 nonce_text)
        sig ← or_error bad_sig (crypto.from_base64 sig_text)
        _ ← validate_prepared_message key_text nonce
        ok (record { key_id = key_text; nonce = nonce; sig = sig })
  parse_fields _ = err not_three_fields

  -- ParseToken
  unfoldable pub parse_token : List ℕ → Result TokenError Token
  unfolding parse_fields
  parse_token s =
      if length s == 0
      then err empty_token
      else if ltb max_token_text (length s)
      then err token_too_long
      else if not (count_byte dot s == 2)
      then err not_three_fields
      else parse_fields (split dot s)

  -- Verify of a token and a key that are not nil; every error is ErrBadSignature.
  unfoldable pub verify : PublicKey → Token → Bool
  unfolding key_id_of
  verify pub_key t = elim (validate_public_key pub_key) [
    | err _ ↦ false
    | ok _ ↦
        bytes_eq t.key_id (key_id_of pub_key)
        && (elim (validate_prepared_message t.key_id t.nonce) [ err _ ↦ false | ok _ ↦ true ]
            && (length t.sig == length pub_key.modulus && crypto.verifies pub_key t.nonce t.sig))
  ]
