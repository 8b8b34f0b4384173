-- ===== src/Mint/Token/Tests.antt =====
-- Tokens under a toy alphabet for base64, which moves each byte past the dot. Line
-- breaks are skipped.
use osanwe.Prelude.{
  ℕ, ◌+◌, ◌-◌, ◌≡◌, refl, Option, none, some, List, [], ◌∷◌, ◌++◌, leb, if◌then◌else◌, arith,
  Option-cases, Bool-cases, inl, inr, ◌==◌, ◌||◌,
}
use osanwe.Prelude.Go.{ok, err}
use osanwe.Prelude.Text.{codes, Lacks, has_prefix, count_byte, bytes_eq}
use osanwe.Mint.Token.{
  Token, Crypto, not_three_fields, empty_token, token_message, encode_token, parse_token,
  validate_prepared_message, domain, dot,
}
use osanwe.Mint.Token.Spelling.{
  without_breaks, IsStrict, IsIssued, encode_token-parse, parse_token-encode,
}

unfoldable pub spell : List ℕ → List ℕ
spell [] = []
spell (b ∷ bs) = (b + 47) ∷ spell bs

unfoldable pub read_one : ℕ → Option (List ℕ) → Option (List ℕ)
read_one c none = none
read_one c (some bs) = if leb 47 c then some ((c - 47) ∷ bs) else none

unfoldable pub read_text : List ℕ → Option (List ℕ)
unfolding read_one
read_text [] = some []
read_text (c ∷ cs) = let rest = read_text cs in if c == 10 || c == 13 then rest else read_one c rest

abbrev pub toy : Crypto
toy = record {
  sha256 = λ bytes. bytes;
  base64 = spell;
  from_base64 = read_text;
  verifies = λ k m s. bytes_eq s k.modulus;
}

read_text-spell : (bytes : List ℕ) → read_text (spell bytes) ≡ some bytes
unfolding spell read_text read_one
read_text-spell [] = refl
read_text-spell (b ∷ bs) = ground (arith, read_text-spell bs)

spell-read_text :
    (text bytes : List ℕ) → read_text text ≡ some bytes → spell bytes ≡ without_breaks text
unfolding spell read_text read_one without_breaks
spell-read_text [] bytes h = ground arith
spell-read_text (c ∷ cs) bytes h = elim (Bool-cases (c == 10 || c == 13)) [
  | inl b ↦
      let rest : read_text cs ≡ some bytes = ground (arith, h, b) in
      ground (arith, b, spell-read_text cs bytes rest)
  | inr b ↦ elim (Option-cases (read_text cs)) [
    | inl e ↦ absurd (ground (arith, b, e, h))
    | inr (bs, e) ↦ ground (arith, b, e, h, spell-read_text cs bs e)
  ]
]

spell-Lacks : (bytes : List ℕ) → Lacks dot (spell bytes)
unfolding spell
spell-Lacks [] = tt
spell-Lacks (b ∷ bs) = (λ e. omega arith, spell-Lacks bs)

toy-IsStrict : IsStrict toy
unfolding read_text
toy-IsStrict = (read_text-spell, spell-read_text, spell-Lacks, refl)

abbrev pub zeros : List ℕ
zeros =
    0 ∷ 0 ∷ 0 ∷ 0 ∷ 0 ∷ 0 ∷ 0 ∷ 0 ∷ 0 ∷ 0 ∷ 0 ∷ 0 ∷ 0 ∷ 0 ∷ 0 ∷ 0 ∷ 0 ∷ 0 ∷ 0 ∷ 0 ∷ 0 ∷ 0 ∷ 0 ∷ 0
    ∷ 0 ∷ 0 ∷ 0 ∷ 0 ∷ 0 ∷ 0 ∷ 0 ∷ 0 ∷ []

abbrev coin : Token
unfolding token_message
coin = record {
  key_id = codes "mint-a";
  nonce = zeros ++ token_message (codes "mint-a") zeros;
  sig = 1 ∷ 2 ∷ [];
}

coin-IsIssued : IsIssued toy toy-IsStrict coin
unfolding has_prefix validate_prepared_message encode_token spell domain coin token_message
coin-IsIssued = (refl, ground arith, refl, omega arith, omega arith)

coin_parses : parse_token toy (encode_token toy coin) ≡ ok coin
coin_parses = parse_token-encode toy toy-IsStrict coin coin-IsIssued

abbrev folded : List ℕ
unfolding coin
folded = codes "mint-a" ++ (dot ∷ 10 ∷ spell coin.nonce ++ (13 ∷ dot ∷ spell coin.sig))

folded_parses : parse_token toy folded ≡ ok coin
unfolding parse_token folded spell count_byte osanwe.Prelude.Text.split has_prefix read_text
    validate_prepared_message
folded_parses = refl

encode_token-parse_example : without_breaks (encode_token toy coin) ≡ without_breaks folded
encode_token-parse_example = encode_token-parse toy toy-IsStrict folded coin folded_parses

two_fields : parse_token toy (codes "mint-a.b") ≡ err not_three_fields
unfolding parse_token count_byte
two_fields = refl

no_text : parse_token toy [] ≡ err empty_token
unfolding parse_token
no_text = refl
