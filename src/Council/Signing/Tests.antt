-- ===== src/Council/Signing/Tests.antt =====
-- cmd/council/signing_state.go with a small encoding in the place of JSON and RFC 3339.
use mathlib.Core.List.{append_assoc}
use osanwe.Prelude.{
  ℕ, zero, suc, ◌≡◌, refl, true, false, List, [], ◌∷◌, ◌++◌, length, take, drop, take-append,
  drop-append, Option, none, some,
}
use osanwe.Prelude.Go.{ℤ, pos, negsuc}
use osanwe.Council.Signing.{
  SigningState, Codec, Proposal, guard_of, begin_consensus_signing, written, commit, is_digest,
  hand_out, against, read_signing_state,
}
use osanwe.Council.Signing.Votes.{IsCodec, Vote}
use osanwe.Council.Signing.History.{
  World, here, next, begins, commits, keep_guard, after_commit, AllAgree, never_two_bodies,
}

-- A field with its length before it.
pub field : List ℕ → Option (List ℕ × List ℕ)
field [] = none
field (n ∷ xs) = some (take n xs, drop n xs)

pub field-length : (xs rest : List ℕ) → field (length xs ∷ (xs ++ rest)) ≡ some (xs, rest)
unfolding field
field-length xs rest =
    rw (take-append (length xs) xs rest refl, drop-append (length xs) xs rest refl) refl

abbrev marshal_fields : List ℕ → List ℕ → List ℕ → List ℕ
marshal_fields a v b = length a ∷ (a ++ (length v ∷ (v ++ (length b ∷ b))))

abbrev marshal_test : SigningState → List ℕ
marshal_test s = elim s.version [
  | pos n ↦ 0 ∷ n ∷ marshal_fields s.authority s.valid_after s.body_sha256
  | negsuc n ↦ 1 ∷ n ∷ marshal_fields s.authority s.valid_after s.body_sha256
]

decode_fields : ℤ → List ℕ → Option SigningState
decode_fields n bytes = elim (field bytes) [
  | none ↦ none
  | some (a, more) ↦ elim (field more) [
    | none ↦ none
    | some (v, last) ↦ elim (field last) [
      | none ↦ none
      | some (b, _) ↦ some (record { version = n; authority = a; valid_after = v; body_sha256 = b })
    ]
  ]
]

decode_test : List ℕ → Option SigningState
unfolding decode_fields
decode_test (zero ∷ n ∷ bytes) = decode_fields (pos n) bytes
decode_test (suc _ ∷ n ∷ bytes) = decode_fields (negsuc n) bytes
decode_test _ = none

unfoldable pub parse_test : List ℕ → Option ℕ
parse_test [] = none
parse_test (t ∷ ts) = some t

abbrev test_codec : Codec
test_codec = record {
  marshal = marshal_test;
  decode = decode_test;
  format = λ t. t ∷ [];
  parse = parse_test;
}

decode-fields :
    (n : ℤ) (a v b : List ℕ)
    → decode_fields n (marshal_fields a v b ++ 10 ∷ [])
      ≡ some (record { version = n; authority = a; valid_after = v; body_sha256 = b })
unfolding decode_fields
decode-fields n a v b =
    rw
      (
        append_assoc a (length v ∷ (v ++ (length b ∷ b))) (10 ∷ []),
        field-length a ((length v ∷ (v ++ (length b ∷ b))) ++ 10 ∷ []),
        decode_fields,
        append_assoc v (length b ∷ b) (10 ∷ []),
        field-length v ((length b ∷ b) ++ 10 ∷ []),
        field-length b (10 ∷ []),
      )
      refl

test_codec-IsCodec : IsCodec test_codec
unfolding decode_test parse_test
test_codec-IsCodec = record { decode-marshal = undone; parse-format = λ t. refl }
  where
    undone_at :
        (n : ℤ) (a v b : List ℕ)
        → decode_test (
            marshal_test (record { version = n; authority = a; valid_after = v; body_sha256 = b })
            ++ 10 ∷ [])
          ≡ some (record { version = n; authority = a; valid_after = v; body_sha256 = b })
    undone_at (pos n) a v b = decode-fields (pos n) a v b
    undone_at (negsuc n) a v b = decode-fields (negsuc n) a v b

    undone : (s : SigningState) → decode_test (marshal_test s ++ 10 ∷ []) ≡ some s
    undone s = undone_at s.version s.authority s.valid_after s.body_sha256

abbrev pub digest : ℕ → List ℕ
digest n =
    n ∷ 48 ∷ 48 ∷ 48 ∷ 48 ∷ 48 ∷ 48 ∷ 48 ∷ 48 ∷ 48 ∷ 48 ∷ 48 ∷ 48 ∷ 48 ∷ 48 ∷ 48 ∷ 48 ∷ 48 ∷ 48 ∷ 48
    ∷ 48 ∷ 48 ∷ 48 ∷ 48 ∷ 48 ∷ 48 ∷ 48 ∷ 48 ∷ 48 ∷ 48 ∷ 48 ∷ 48 ∷ 48 ∷ 48 ∷ 48 ∷ 48 ∷ 48 ∷ 48 ∷ 48
    ∷ 48 ∷ 48 ∷ 48 ∷ 48 ∷ 48 ∷ 48 ∷ 48 ∷ 48 ∷ 48 ∷ 48 ∷ 48 ∷ 48 ∷ 48 ∷ 48 ∷ 48 ∷ 48 ∷ 48 ∷ 48 ∷ 48
    ∷ 48 ∷ 48 ∷ 48 ∷ 48 ∷ 48 ∷ 48 ∷ []

abbrev voter : List ℕ
voter = 97 ∷ []

abbrev pub proposal : ℕ → ℕ → Proposal
proposal epoch n = record { valid_after_of = some epoch; has_raw = true; body_id_of = digest n }

abbrev empty_world : World
empty_world = record { disk = record { locked = false; file = none }; guards = []; published = [] }

abbrev begun : World
begun =
    keep_guard empty_world
      (begin_consensus_signing test_codec true true voter (proposal 3600 49) empty_world.disk)

one_guard : begun.guards ≡ [] ++ guard_of voter 3600 (digest 49) ∷ []
unfolding begin_consensus_signing hand_out against read_signing_state
one_guard = refl

-- One vote, committed.
abbrev voted : World
voted =
    after_commit begun [] (guard_of voter 3600 (digest 49)) []
      (commit test_codec written (guard_of voter 3600 (digest 49)) begun.disk)

never_two_bodies_example : AllAgree voted.published
never_two_bodies_example = never_two_bodies test_codec test_codec-IsCodec (
    next (next here (begins empty_world true true voter (proposal 3600 49)))
      (commits begun written [] (guard_of voter 3600 (digest 49)) [] one_guard))

abbrev recorded : Vote
recorded = record { voter_of = voter; epoch_of = 3600; body_of = digest 49 }

digest-valid : is_digest (digest 49) ≡ true
unfolding is_digest
digest-valid = refl

-- Another body for the recorded epoch.
