-- ===== src/Directory/Descriptor/Signed.antt =====
-- A descriptor that parses was signed by its own identity.
use osanwe.Prelude.{
  ℕ, ◌≡◌, refl, ap, subst, ◌∙◌, true, not, ◌||◌, some, List, [], ◌∷◌, length, leb, ◌==◌, arith,
  Bool-cases, Option-cases, inl, inr,
}
use osanwe.Prelude.Go.{ok, bind-ok}
use osanwe.Prelude.Text.{codes, bytes_eq, is_one_of, trim_space, cut, split}
use osanwe.Directory.{
  Libraries, check, checked, malformed_line, duplicate_field, bad_signature, or_fail, decode_key,
  verify_signature,
}
use osanwe.Directory.Descriptor.{Descriptor, validate_descriptor, descriptor_version}
use osanwe.Directory.Descriptor.Parse.{
  split_signature, trim_returns, blank, set_field, read_field, read_field_lines, read_version,
  parse_descriptor,
}

-- The identity's key verifies the signature over the bytes that the descriptor keeps.
abbrev pub IsSigned : Libraries → Descriptor → Type 0
IsSigned lib d =
    (body : List ℕ) × (public : List ℕ) × (d.raw ≡ some body)
    × (decode_key lib d.identity ≡ ok public)
    × (verify_signature lib public body d.signature ≡ true)
    × (validate_descriptor lib d ≡ ok tt)

-- The bytes and the signature are those of the document.
abbrev Kept : Descriptor → Descriptor → Type 0
Kept d later = (later.raw ≡ d.raw) × (later.signature ≡ d.signature)

module _ (lib : Libraries) where
  set_field-Kept :
      (key value : List ℕ) (d later : Descriptor)
      → set_field lib key value d ≡ ok later
      → Kept d later
  unfolding set_field
  set_field-Kept key value d later h = elim (Option-cases (lib.parse_time value)) [
    | inl f ↦ (ground (arith, f, h), ground (arith, f, h))
    | inr (at, f) ↦ (ground (arith, f, h), ground (arith, f, h))
  ]

  read_field-Kept :
      (seen : List (List ℕ)) (d : Descriptor) (line : List ℕ) (both : List (List ℕ) × Descriptor)
      → read_field lib seen d line ≡ ok both
      → Kept d both.1
  unfolding read_field
  read_field-Kept seen d line both h =
      let (pair, _, h1) = bind-ok (or_fail malformed_line (cut 32 line)) _ h in
      let (_, _, h2) =
        bind-ok
          (check (bytes_eq pair.0 (codes "destination") || not (is_one_of seen pair.0))
            duplicate_field)
          _ h1 in
      let (later, set, h3) = bind-ok (set_field lib pair.0 (trim_space pair.1) d) _ h2 in
      let same : later ≡ both.1 = cc in
      subst (Kept d) same (set_field-Kept pair.0 (trim_space pair.1) d later set)

  Kept-trans : (a b c : Descriptor) → Kept a b → Kept b c → Kept a c
  Kept-trans a b c h k = (k.0 ∙ h.0, k.1 ∙ h.1)

  read_field_lines-Kept :
      (lines seen : List (List ℕ)) (d later : Descriptor)
      → read_field_lines lib seen d lines ≡ ok later
      → Kept d later
  unfolding read_field_lines
  read_field_lines-Kept [] seen d later h =
      let same : d ≡ later = cc in subst (Kept d) same (refl, refl)
  read_field_lines-Kept (line ∷ lines) seen d later h =
      elim (Bool-cases (leb 1048576 (length line))) [
        | inl e ↦ absurd (ground (arith, e, h))
        | inr e ↦ elim (Bool-cases (length (trim_returns line) == 0)) [
          | inl f ↦ read_field_lines-Kept lines seen d later (ground (arith, e, f, h))
          | inr f ↦
              let (both, read, rest) =
                bind-ok (read_field lib seen d (trim_returns line))
                  (λ b. read_field_lines lib b.0 b.1 lines) (ground (arith, e, f, h)) in
              Kept-trans d both.1 later (read_field-Kept seen d (trim_returns line) both read)
                (read_field_lines-Kept lines both.0 both.1 later rest)
        ]
      ]

  read_version-Kept :
      (lines : List (List ℕ)) (d later : Descriptor)
      → read_version lib d lines ≡ ok later
      → Kept d later
  unfolding read_version
  read_version-Kept [] d later h = absurd (cc)
  read_version-Kept (line ∷ lines) d later h = elim (Bool-cases (leb 1048576 (length line))) [
    | inl e ↦ absurd (ground (arith, e, h))
    | inr e ↦ elim (Bool-cases (length (trim_returns line) == 0)) [
      | inl f ↦ read_version-Kept lines d later (ground (arith, e, f, h))
      | inr f ↦ elim (Bool-cases (bytes_eq (trim_returns line) descriptor_version)) [
        | inr g ↦ absurd (ground (arith, e, f, g, h))
        | inl g ↦ read_field_lines-Kept lines [] d later (ground (arith, e, f, g, h))
      ]
    ]
  ]

  -- A descriptor that parses keeps the bytes that were signed, and its own identity's key verifies
  -- their signature.
  pub parse_descriptor-IsSigned :
      (document : List ℕ) (d : Descriptor) → parse_descriptor lib document ≡ ok d → IsSigned lib d
  unfolding parse_descriptor
  parse_descriptor-IsSigned document d h =
      let (both, _, h1) = bind-ok (split_signature document) _ h in
      let (read, reads, h2) =
        bind-ok (read_version lib (blank both.0 both.1) (split 10 both.0)) _ h1 in
      let (_, valid, h3) = bind-ok (validate_descriptor lib read) _ h2 in
      let (public, key, h4) = bind-ok (decode_key lib read.identity) _ h3 in
      let (_, verified, h5) =
        bind-ok (check (verify_signature lib public both.0 both.1) bad_signature) _ h4 in
      let same : read ≡ d = cc in
      let kept = read_version-Kept (split 10 both.0) (blank both.0 both.1) read reads in
      subst (IsSigned lib) same (
        both.0,
        public,
        kept.0,
        key,
        ap (verify_signature lib public both.0) kept.1
            ∙ checked (verify_signature lib public both.0 both.1) bad_signature verified,
        valid,
      )
