-- ===== src/Council/Serving/Tests.antt =====
-- cmd/council/serving_state.go with a small encoding in the place of JSON and RFC 3339.
use mathlib.Core.List.{append_assoc}
use osanwe.Prelude.{
  ℕ, zero, suc, ◌≡◌, refl, true, false, List, [], ◌∷◌, ◌++◌, length, Option, none, some,
}
use osanwe.Prelude.Go.{ℤ, pos, negsuc}
use osanwe.Council.Signing.{written}
use osanwe.Council.Signing.Tests.{field, field-length, parse_test, proposal}
use osanwe.Council.Serving.{ServingState, ServingCodec}
use osanwe.Council.Serving.Monotone.{IsServingCodec}
use osanwe.Council.Serving.Sequence.{Installation, install_all, NeverBack, served-NeverBack}

abbrev serving_fields : List ℕ → List ℕ → List ℕ
serving_fields v b = length v ∷ (v ++ (length b ∷ b))

abbrev marshal_serving : ServingState → List ℕ
marshal_serving s = elim s.version [
  | pos n ↦ 0 ∷ n ∷ serving_fields s.valid_after s.body_sha256
  | negsuc n ↦ 1 ∷ n ∷ serving_fields s.valid_after s.body_sha256
]

decode_two : ℤ → List ℕ → Option ServingState
decode_two n bytes = elim (field bytes) [
  | none ↦ none
  | some (v, more) ↦ elim (field more) [
    | none ↦ none
    | some (b, _) ↦ some (record { version = n; valid_after = v; body_sha256 = b })
  ]
]

decode_serving : List ℕ → Option ServingState
unfolding decode_two
decode_serving (zero ∷ n ∷ bytes) = decode_two (pos n) bytes
decode_serving (suc _ ∷ n ∷ bytes) = decode_two (negsuc n) bytes
decode_serving _ = none

abbrev serving_codec : ServingCodec
serving_codec = record {
  marshal = marshal_serving;
  decode = decode_serving;
  format = λ t. t ∷ [];
  parse = parse_test;
}

decode-two :
    (n : ℤ) (v b : List ℕ)
    → decode_two n (serving_fields v b ++ 10 ∷ [])
      ≡ some (record { version = n; valid_after = v; body_sha256 = b })
unfolding decode_two
decode-two n v b =
    rw
      (
        append_assoc v (length b ∷ b) (10 ∷ []),
        field-length v ((length b ∷ b) ++ 10 ∷ []),
        decode_two,
        field-length b (10 ∷ []),
      )
      refl

serving_codec-IsServingCodec : IsServingCodec serving_codec
unfolding decode_serving parse_test
serving_codec-IsServingCodec = record { decode-marshal = undone; parse-format = λ t. refl }
  where
    undone_at :
        (n : ℤ) (v b : List ℕ)
        → decode_serving
            (marshal_serving (record { version = n; valid_after = v; body_sha256 = b }) ++ 10 ∷ [])
          ≡ some (record { version = n; valid_after = v; body_sha256 = b })
    undone_at (pos n) v b = decode-two (pos n) v b
    undone_at (negsuc n) v b = decode-two (negsuc n) v b

    undone : (s : ServingState) → decode_serving (marshal_serving s ++ 10 ∷ []) ≡ some s
    undone s = undone_at s.version s.valid_after s.body_sha256

abbrev at : ℕ → ℕ → Installation
at epoch n = record {
  lock_held = false;
  makes = true;
  readable = true;
  how = written;
  proposal = proposal epoch n;
}

abbrev three : List Installation
three = at 3600 49 ∷ at 7200 50 ∷ at 3600 49 ∷ []

served-NeverBack_example : NeverBack (install_all serving_codec three (none, [])).1
served-NeverBack_example = served-NeverBack serving_codec serving_codec-IsServingCodec three
