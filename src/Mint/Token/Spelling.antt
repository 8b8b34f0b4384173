-- ===== src/Mint/Token/Spelling.antt =====
-- Tokens and their spelling determine each other.
use osanwe.Prelude.{
  ℕ, ◌+◌, ◌≤◌, ◌<◌, ◌≡◌, ◌∙◌, refl, ap, ap₂, true, some, ◌==◌, ◌||◌, if◌then◌else◌, List, [], ◌∷◌,
  ◌++◌, length, arith, Option-cases, nil_cases, ne_nil, length-append, inl, inr,
}
use osanwe.Prelude.Go.{ok}
use osanwe.Prelude.Text.{
  has_prefix, split, count_byte, Lacks, count-Lacks, count-append, split-append, split-Lacks,
  count_here, in_front,
}
use osanwe.Mint.Token.{
  Token, Crypto, parse_token, parse_fields, encode_token, validate_prepared_message, mint_prefix,
  dot, max_token_text, or_error,
}

-- The fields of a text with their separators.
joined : ℕ → List (List ℕ) → List ℕ
joined b [] = []
joined b (p ∷ []) = p
joined b (p ∷ q ∷ ps) = p ++ b ∷ joined b (q ∷ ps)

joined-in_front : (b c : ℕ) (ps : List (List ℕ)) → joined b (in_front c ps) ≡ c ∷ joined b ps
unfolding joined in_front
joined-in_front b c [] = refl
joined-in_front b c (p ∷ []) = refl
joined-in_front b c (p ∷ q ∷ ps) = refl

joined_empty : (b : ℕ) (ps : List (List ℕ)) → 0 < length ps → joined b ([] ∷ ps) ≡ b ∷ joined b ps
unfolding joined
joined_empty b [] h = absurd (omega arith)
joined_empty b (p ∷ ps) h = refl

length-in_front : (c : ℕ) (ps : List (List ℕ)) → 0 < length ps → length (in_front c ps) ≡ length ps
unfolding in_front
length-in_front c [] h = absurd (omega arith)
length-in_front c (p ∷ ps) h = refl

length-split : (b : ℕ) (s : List ℕ) → length (split b s) ≡ count_byte b s + 1
unfolding split count_byte
length-split b [] = refl
length-split b (c ∷ s) = ground (arith, length-split b s, length-in_front c (split b s))

joined-split : (b : ℕ) (s : List ℕ) → joined b (split b s) ≡ s
unfolding split
joined-split b [] = unfold joined in refl
joined-split b (c ∷ s) = ground (
  arith,
  joined-split b s,
  length-split b s,
  joined_empty b (split b s),
  joined-in_front b c (split b s),
)

-- A text without its carriage returns and line feeds, which the decoder of Go skips.
unfoldable pub without_breaks : List ℕ → List ℕ
without_breaks [] = []
without_breaks (c ∷ s) =
    let rest = without_breaks s in if c == 10 || c == 13 then rest else c ∷ rest

without_breaks-append :
    (s t : List ℕ) → without_breaks (s ++ t) ≡ without_breaks s ++ without_breaks t
unfolding without_breaks
without_breaks-append [] t = refl
without_breaks-append (c ∷ s) t = ground (arith, without_breaks-append s t)

without_breaks_twice : (s : List ℕ) → without_breaks (without_breaks s) ≡ without_breaks s
unfolding without_breaks
without_breaks_twice [] = refl
without_breaks_twice (c ∷ s) = ground (arith, without_breaks_twice s)

spelling : List ℕ → List ℕ → List ℕ → List ℕ
spelling a b c = a ++ (dot ∷ b ++ (dot ∷ c))

without_breaks-spelling :
    (a b c : List ℕ)
    → without_breaks (spelling a (without_breaks b) (without_breaks c))
      ≡ without_breaks (spelling a b c)
unfolding spelling without_breaks
without_breaks-spelling a b c = simp (without_breaks-append, without_breaks_twice) refl

-- base64.RawURLEncoding.Strict(): decoding undoes encoding; carriage returns and line feeds are
-- skipped, and without them one text spells a byte string. A text has no dot, and the empty text
-- spells no bytes.
abbrev pub IsStrict : Crypto → Type 0
IsStrict crypto =
    ((bytes : List ℕ) → crypto.from_base64 (crypto.base64 bytes) ≡ some bytes)
    × ((text bytes : List ℕ)
        → crypto.from_base64 text ≡ some bytes
        → crypto.base64 bytes ≡ without_breaks text)
    × ((bytes : List ℕ) → Lacks dot (crypto.base64 bytes))
    × (crypto.from_base64 [] ≡ some [])

module _ (crypto : Crypto) (strict : IsStrict crypto) where
  encode_token-fields :
      (ps : List (List ℕ)) (t : Token)
      → parse_fields crypto ps ≡ ok t
      → without_breaks (encode_token crypto t) ≡ without_breaks (joined dot ps)
  unfolding parse_fields encode_token or_error joined spelling
  encode_token-fields [] t h = absurd (cc)
  encode_token-fields (a ∷ []) t h = absurd (cc)
  encode_token-fields (a ∷ b ∷ []) t h = absurd (cc)
  encode_token-fields (a ∷ b ∷ c ∷ []) t h = elim (Option-cases (crypto.from_base64 b)) [
    | inl e ↦ absurd (ground (arith, e, h))
    | inr (x, e) ↦ elim (Option-cases (crypto.from_base64 c)) [
      | inl f ↦ absurd (ground (arith, e, f, h))
      | inr (y, f) ↦
          let key : t.key_id ≡ a = ground (arith, e, f, h) in
          let nonce : t.nonce ≡ x = ground (arith, e, f, h) in
          let sig : t.sig ≡ y = ground (arith, e, f, h) in
          let encoded : encode_token crypto t ≡ spelling a (without_breaks b) (without_breaks c) =
            ap₂ (λ k rest. k ++ rest) key
              (ap₂ (λ n g. dot ∷ n ++ (dot ∷ g)) (ap crypto.base64 nonce ∙ strict.1 b x e)
                (ap crypto.base64 sig ∙ strict.1 c y f)) in
          ap without_breaks encoded ∙ without_breaks-spelling a b c
    ]
  ]
  encode_token-fields (a ∷ b ∷ c ∷ d ∷ ps) t h = absurd (cc)

  -- A text that is read as a token is the spelling of that token, up to carriage returns and line
  -- feeds, which base64 decoding skips and without which it is strict.
  pub encode_token-parse :
      (s : List ℕ) (t : Token)
      → parse_token crypto s ≡ ok t
      → without_breaks (encode_token crypto t) ≡ without_breaks s
  unfolding parse_token
  encode_token-parse s t h =
      encode_token-fields (split dot s) t (ground arith) ∙ ap without_breaks (joined-split dot s)

  -- What a token that the mint issued satisfies: a key id and a message of the suite, in a text
  -- of the permitted length.
  abbrev pub IsIssued : Token → Type 0
  IsIssued t =
      (has_prefix mint_prefix t.key_id ≡ true)
      × Lacks dot t.key_id
      × (validate_prepared_message t.key_id t.nonce ≡ ok tt)
      × (0 < length t.sig)
      × (length (encode_token crypto t) ≤ max_token_text)

  encode_token-IsSplit :
      (t : Token)
      → Lacks dot t.key_id
      → (split dot (encode_token crypto t)
          ≡ t.key_id ∷ crypto.base64 t.nonce ∷ crypto.base64 t.sig ∷ [])
        × (count_byte dot (encode_token crypto t) ≡ 2)
  unfolding encode_token
  encode_token-IsSplit t h =
      let (_, _, dotless, _) = strict in
      let rest = crypto.base64 t.nonce ++ (dot ∷ crypto.base64 t.sig) in
      (
        split-append dot t.key_id rest h
            ∙ ap (t.key_id ∷◌) (
                split-append dot (crypto.base64 t.nonce) (crypto.base64 t.sig) (dotless t.nonce)
                ∙ ap (crypto.base64 t.nonce ∷◌)
                    (split-Lacks dot (crypto.base64 t.sig) (dotless t.sig))),
        ground (
          arith,
          count-append dot t.key_id (dot ∷ rest),
          count-Lacks dot t.key_id h,
          count-append dot (crypto.base64 t.nonce) (dot ∷ crypto.base64 t.sig),
          count-Lacks dot (crypto.base64 t.nonce) (dotless t.nonce),
          count-Lacks dot (crypto.base64 t.sig) (dotless t.sig),
          count_here dot rest,
          count_here dot (crypto.base64 t.sig),
        ),
      )

  base64-ne_nil : (bytes : List ℕ) → 0 < length bytes → 0 < length (crypto.base64 bytes)
  base64-ne_nil bytes h =
      let (undone, _, _, empty) = strict in
      elim (nil_cases (crypto.base64 bytes)) [
        | inl e ↦ ground (arith, e, undone bytes, empty)
        | inr n ↦ ne_nil (crypto.base64 bytes) n
      ]

  length-encode : (t : Token) → 0 < length (encode_token crypto t)
  unfolding encode_token
  length-encode t =
      omega
        (arith, length-append t.key_id (dot ∷ crypto.base64 t.nonce ++ (dot ∷ crypto.base64 t.sig)))

  length-nonce :
      (t : Token) → validate_prepared_message t.key_id t.nonce ≡ ok tt → 0 < length t.nonce
  unfolding validate_prepared_message
  length-nonce t h = ground arith

  length-prefix : (s : List ℕ) → has_prefix mint_prefix s ≡ true → 0 < length s
  unfolding has_prefix
  length-prefix [] h = absurd (cc)
  length-prefix (c ∷ s) h = omega arith

  parse_fields-encoded :
      (t : Token)
      → has_prefix mint_prefix t.key_id ≡ true
      → validate_prepared_message t.key_id t.nonce ≡ ok tt
      → 0 < length t.sig
      → parse_fields crypto (t.key_id ∷ crypto.base64 t.nonce ∷ crypto.base64 t.sig ∷ []) ≡ ok t
  unfolding parse_fields or_error
  parse_fields-encoded t prefixed message signed =
      let (undone, _, _, _) = strict in
      ground (
        arith,
        undone t.nonce,
        undone t.sig,
        length-prefix t.key_id prefixed,
        base64-ne_nil t.nonce (length-nonce t message),
        base64-ne_nil t.sig signed,
      )

  pub parse_token-encode :
      (t : Token) → IsIssued t → parse_token crypto (encode_token crypto t) ≡ ok t
  unfolding parse_token
  parse_token-encode t (prefixed, lacks, message, signed, short) =
      let (parts, dots) = encode_token-IsSplit t lacks in
      let (undone, _, _, _) = strict in
      ground (arith, parts, dots, length-encode t, parse_fields-encoded t prefixed message signed)
