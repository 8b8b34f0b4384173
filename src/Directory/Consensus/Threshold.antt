-- ===== src/Directory/Consensus/Threshold.antt =====
-- What a consensus that parses has been signed by.
use osanwe.Prelude.{
  ℕ, ◌≤◌, ◌≡◌, ◌⊎◌, refl, sym, subst, ◌∙◌, Bool, true, false, not, ◌&&◌, ◌||◌, Option, none, some,
  List, [], ◌∷◌, ◌++◌, length, leb, ◌==◌, if◌then◌else◌, All, All-append, arith, Bool-cases,
  Option-cases, inl, inr, leb→le,
}
use osanwe.Prelude.Go.{ok, ◌>>=◌, bind-ok, Result-cases}
use osanwe.Prelude.Table.{find, has, put, has-put}
use osanwe.Prelude.Text.{
  codes, bytes_eq, has_prefix, trim_prefix, trim_space, cut, split, bytes_eq_iff, eq_of_bytes_eq,
  atoi,
}
use osanwe.Directory.{
  Libraries, check, checked, or_fail, verify_signature, malformed_relay, bad_relay_text,
  malformed_line, no_window, not_canonical, not_fresh, too_few_signatures, no_threshold,
  too_few_authorities,
}
use osanwe.Directory.Descriptor.{Descriptor}
use osanwe.Directory.Descriptor.Parse.{trim_returns, signature_marker}
use osanwe.Directory.Descriptor.Signed.{IsSigned, parse_descriptor-IsSigned}
use osanwe.Directory.Consensus.{
  Consensus, fresh, validate_consensus, consensus_body, consensus_version,
}
use osanwe.Directory.Consensus.Parse.{
  Signatures, add_signature, read_signatures, signed_body, split_consensus_signatures, read_relay,
  read_entry, read_entries, read_heading, is_valid, count_valid, opened, parse_split,
  parse_consensus, declared, cut_first,
}

pub distinct_keys : Signatures → Bool
distinct_keys [] = true
distinct_keys ((fp, _) ∷ sigs) = not (has fp sigs) && distinct_keys sigs

distinct_keys-put :
    (fp sig : List ℕ) (sigs : Signatures)
    → has fp sigs ≡ false
    → distinct_keys sigs ≡ true
    → distinct_keys (put fp sig sigs) ≡ true
unfolding distinct_keys put has
distinct_keys-put fp sig [] h k = refl
distinct_keys-put fp sig ((f, s) ∷ sigs) h k = ground (
  arith,
  distinct_keys-put fp sig sigs,
  has-put fp f sig sigs,
  bytes_eq_iff f fp,
  bytes_eq_iff fp f,
)

add_signature-distinct :
    (sigs later : Signatures) (pair : Option (List ℕ × List ℕ))
    → distinct_keys sigs ≡ true
    → add_signature sigs pair ≡ ok later
    → distinct_keys later ≡ true
unfolding add_signature
add_signature-distinct sigs later none h k = absurd (cc)
add_signature-distinct sigs later (some (fp, sig)) h k =
    ground (arith, h, k, distinct_keys-put fp sig sigs)

read_signatures-distinct :
    (lines : List (List ℕ)) (sigs later : Signatures)
    → distinct_keys sigs ≡ true
    → read_signatures sigs lines ≡ ok later
    → distinct_keys later ≡ true
unfolding read_signatures
read_signatures-distinct [] sigs later h k = ground (arith, h, k)
read_signatures-distinct (line ∷ lines) sigs later h k =
    elim (Bool-cases (length (trim_space line) == 0)) [
      | inl e ↦ read_signatures-distinct lines sigs later h (ground (arith, e, k))
      | inr e ↦ elim (Bool-cases (has_prefix (codes "signature ") (trim_space line))) [
        | inr f ↦ absurd (ground (arith, e, f, k))
        | inl f ↦
            let pair = cut 32 (trim_space (trim_prefix (codes "signature ") (trim_space line))) in
            let (more, added, rest) =
              bind-ok (add_signature sigs pair) (λ m. read_signatures m lines)
                (ground (arith, e, f, k)) in
            read_signatures-distinct lines more later
              (add_signature-distinct sigs more pair h added) rest
      ]
    ]

signed_body-distinct :
    (found : Option (List ℕ × List ℕ)) (body : List ℕ) (sigs : Signatures)
    → signed_body found ≡ ok (body, sigs)
    → distinct_keys sigs ≡ true
unfolding signed_body
signed_body-distinct none body sigs h = absurd (cc)
signed_body-distinct (some (front, [])) body sigs h = absurd (cc)
signed_body-distinct (some (front, newline ∷ rest)) body sigs h =
    let (read, reads, h1) = bind-ok (read_signatures [] (split 10 rest)) _ h in
    let (_, _, h2) = bind-ok (check (not (length read == 0)) _) _ h1 in
    let same : read ≡ sigs = cc in
    subst (λ m. distinct_keys m ≡ true) same
      (read_signatures-distinct (split 10 rest) [] read (unfold distinct_keys in refl) reads)

-- The signatures that count: of a known authority, and valid for the body.
module _ (lib : Libraries) (authorities : Signatures) (body : List ℕ) where
  pub endorsements : Signatures → Signatures
  endorsements [] = []
  endorsements ((fp, sig) ∷ sigs) =
      let rest = endorsements sigs in
      if is_valid lib body sig (find fp authorities) then (fp, sig) ∷ rest else rest

  -- An authority that the client knows, whose signature of the body verifies under its key.
  abbrev pub IsEndorsed : List ℕ × List ℕ → Type 0
  IsEndorsed (fp, sig) =
      (public : List ℕ) × (find fp authorities ≡ some public)
      × (verify_signature lib public body sig ≡ true)

  is_valid-IsEndorsed :
      (fp sig : List ℕ) → is_valid lib body sig (find fp authorities) ≡ true → IsEndorsed (fp, sig)
  unfolding is_valid
  is_valid-IsEndorsed fp sig h = elim (Option-cases (find fp authorities)) [
    | inl e ↦ absurd (ground (arith, e, h))
    | inr (public, e) ↦ (public, e, ground (arith, e, h))
  ]

  All-endorsements : (sigs : Signatures) → All IsEndorsed (endorsements sigs)
  unfolding endorsements
  All-endorsements [] = tt
  All-endorsements ((fp, sig) ∷ sigs) =
      elim (Bool-cases (is_valid lib body sig (find fp authorities))) [
        | inl e ↦ rw e (is_valid-IsEndorsed fp sig e, All-endorsements sigs)
        | inr e ↦ rw e (All-endorsements sigs)
      ]

  length-endorsements :
      (sigs : Signatures) → length (endorsements sigs) ≡ count_valid lib authorities body sigs
  unfolding endorsements count_valid
  length-endorsements [] = refl
  length-endorsements ((fp, sig) ∷ sigs) = ground (arith, length-endorsements sigs)

  has-endorsements :
      (fp : List ℕ) (sigs : Signatures) → has fp sigs ≡ false → has fp (endorsements sigs) ≡ false
  unfolding endorsements has
  has-endorsements fp [] h = refl
  has-endorsements fp ((f, sig) ∷ sigs) h = ground (arith, has-endorsements fp sigs, h)

  distinct_keys-endorsements :
      (sigs : Signatures) → distinct_keys sigs ≡ true → distinct_keys (endorsements sigs) ≡ true
  unfolding endorsements distinct_keys
  distinct_keys-endorsements [] h = refl
  distinct_keys-endorsements ((fp, sig) ∷ sigs) h =
      ground (arith, distinct_keys-endorsements sigs, has-endorsements fp sigs, h)

-- Neither the body nor the signatures change.
abbrev HeldBoth : Consensus → Consensus → Type 0
HeldBoth c later = (later.raw ≡ c.raw) × (later.signatures ≡ c.signatures)

module _ (lib : Libraries) where
  -- What one line does to the body and the relays.
  abbrev Grown : Consensus → Consensus → Type 0
  Grown c later =
      HeldBoth c later
      × ((later.relays ≡ c.relays)
          ⊎ ((d : Descriptor) × (value : List ℕ) × (read_relay lib value ≡ ok d)
              × (later.relays ≡ c.relays ++ d ∷ [])))

  timed :
      (seen : List (List ℕ)) (c : Consensus) (key value : List ℕ) (both : List (List ℕ) × Consensus)
      → (bytes_eq key (codes "valid-after") ≡ true) ⊎ (bytes_eq key (codes "valid-until") ≡ true)
      → read_entry lib seen c key value ≡ ok both
      → HeldBoth c both.1 × (both.1.relays ≡ c.relays)
  unfolding read_entry
  timed seen c key value both k h = elim (Option-cases (lib.parse_time (trim_space value))) [
    | inl f ↦ absurd (ground (arith, k, f, h))
    | inr (at, f) ↦ ((ground (arith, k, f, h), ground (arith, k, f, h)), ground (arith, k, f, h))
  ]

  read_entry-Grown :
      (seen : List (List ℕ)) (c : Consensus) (key value : List ℕ) (both : List (List ℕ) × Consensus)
      → read_entry lib seen c key value ≡ ok both
      → Grown c both.1
  unfolding read_entry
  read_entry-Grown seen c key value both h =
      elim (Bool-cases (bytes_eq key (codes "valid-after"))) [
        | inl e ↦ let (a, b) = timed seen c key value both (inl e) h in (a, inl b)
        | inr e ↦ elim (Bool-cases (bytes_eq key (codes "valid-until"))) [
          | inl f ↦ let (a, b) = timed seen c key value both (inr f) h in (a, inl b)
          | inr f ↦ elim (Result-cases (read_relay lib value)) [
            | inr (x, g) ↦ absurd (ground (arith, e, f, g, h))
            | inl (d, g) ↦ (
              (ground (arith, e, f, g, h), ground (arith, e, f, g, h)),
              inr (d, value, g, ground (arith, e, f, g, h)),
            )
          ]
        ]
      ]

  read_relay-IsSigned :
      (value : List ℕ) (d : Descriptor) → read_relay lib value ≡ ok d → IsSigned lib d
  unfolding read_relay
  read_relay-IsSigned value d h =
      let (pair, _, h1) = bind-ok (or_fail malformed_relay (cut 32 (trim_space value))) _ h in
      let (_, _, h2) = bind-ok (declared (atoi pair.0) (length pair.1)) _ h1 in
      let (raw, _, h3) = bind-ok (or_fail bad_relay_text (lib.from_base64 pair.1)) _ h2 in
      parse_descriptor-IsSigned lib raw d h3

  -- The body and the signatures stay, and every relay signed itself.
  abbrev Sound : Consensus → Consensus → Type 0
  Sound c later = HeldBoth c later × (All (IsSigned lib) c.relays → All (IsSigned lib) later.relays)

  Grown-Sound : (c later : Consensus) → Grown c later → Sound c later
  Grown-Sound c later (a, inl e) = (a, λ h. subst (All (IsSigned lib)) (sym e) h)
  Grown-Sound c later (a, inr (d, value, read, e)) = (
    a,
    λ h.
        subst (All (IsSigned lib)) (sym e)
          (All-append (IsSigned lib) c.relays (d ∷ []) h (read_relay-IsSigned value d read, tt)),
  )

  read_entries-Sound :
      (lines seen : List (List ℕ)) (c later : Consensus)
      → read_entries lib seen c lines ≡ ok later
      → Sound c later
  unfolding read_entries
  read_entries-Sound [] seen c later h =
      let same : c ≡ later = cc in subst (Sound c) same ((refl, refl), λ k. k)
  read_entries-Sound (line ∷ lines) seen c later h = elim (Bool-cases (leb 8388608 (length line))) [
    | inl e ↦ absurd (ground (arith, e, h))
    | inr e ↦ elim (Bool-cases (length (trim_returns line) == 0)) [
      | inl f ↦ read_entries-Sound lines seen c later (ground (arith, e, f, h))
      | inr f ↦
          let (pair, _, h1) =
            bind-ok (or_fail malformed_line (cut 32 (trim_returns line)))
              (λ p. read_entry lib seen c p.0 p.1 >>= λ b. read_entries lib b.0 b.1 lines)
              (ground (arith, e, f, h)) in
          let (both, read, rest) =
            bind-ok (read_entry lib seen c pair.0 pair.1) (λ b. read_entries lib b.0 b.1 lines)
              h1 in
          let (kept, grown) =
            Grown-Sound c both.1 (read_entry-Grown seen c pair.0 pair.1 both read) in
          let (later_kept, later_grown) = read_entries-Sound lines both.0 both.1 later rest in
          ((later_kept.0 ∙ kept.0, later_kept.1 ∙ kept.1), λ k. later_grown (grown k))
    ]
  ]

  read_heading-Sound :
      (lines : List (List ℕ)) (c later : Consensus)
      → read_heading lib c lines ≡ ok later
      → Sound c later
  unfolding read_heading
  read_heading-Sound [] c later h = absurd (cc)
  read_heading-Sound (line ∷ lines) c later h = elim (Bool-cases (leb 8388608 (length line))) [
    | inl e ↦ absurd (ground (arith, e, h))
    | inr e ↦ elim (Bool-cases (length (trim_returns line) == 0)) [
      | inl f ↦ read_heading-Sound lines c later (ground (arith, e, f, h))
      | inr f ↦ elim (Bool-cases (bytes_eq (trim_returns line) consensus_version)) [
        | inr g ↦ absurd (ground (arith, e, f, g, h))
        | inl g ↦ read_entries-Sound lines [] c later (ground (arith, e, f, g, h))
      ]
    ]
  ]

  -- What ParseConsensus has made sure of.
  abbrev pub IsAgreed : Signatures → ℕ → ℕ → Consensus → Type 0
  IsAgreed authorities threshold now c =
      (body : List ℕ) × (sigs : Signatures) × (c.raw ≡ some body)
      × (c.signatures ≡ sigs)
      × (body ≡ consensus_body lib c)
      × (threshold ≤ c.verified_by)
      × (length (endorsements lib authorities body sigs) ≡ c.verified_by)
      × (distinct_keys (endorsements lib authorities body sigs) ≡ true)
      × All (IsEndorsed lib authorities body) (endorsements lib authorities body sigs)
      × (fresh c now ≡ true)
      × (validate_consensus lib c ≡ ok tt)
      × All (IsSigned lib) c.relays

  -- The count that is stored last plays no part in the document.
  counted_same :
      (c : Consensus) (n now : ℕ)
      → (consensus_body lib (record c { verified_by = n }) ≡ consensus_body lib c)
        × (fresh (record c { verified_by = n }) now ≡ fresh c now)
        × (validate_consensus lib (record c { verified_by = n }) ≡ validate_consensus lib c)
  unfolding consensus_body fresh validate_consensus
  counted_same c n now = (refl, refl, refl)

  parse_split-IsAgreed :
      (authorities : Signatures) (threshold now : ℕ) (body : List ℕ) (sigs : Signatures)
      (c : Consensus)
      → distinct_keys sigs ≡ true
      → parse_split lib authorities threshold now (body, sigs) ≡ ok c
      → IsAgreed authorities threshold now c
  unfolding parse_split
  parse_split-IsAgreed authorities threshold now body sigs c distinct h =
      let (read, reads, h1) = bind-ok (read_heading lib (opened body sigs) (split 10 body)) _ h in
      let (_, _, h2) =
        bind-ok (check (not (read.valid_after == 0 || read.valid_until == 0)) no_window) _ h1 in
      let (_, valid, h3) = bind-ok (validate_consensus lib read) _ h2 in
      let (_, canonical, h4) =
        bind-ok (check (bytes_eq body (consensus_body lib read)) not_canonical) _ h3 in
      let (_, in_time, h5) = bind-ok (check (fresh read now) not_fresh) _ h4 in
      let (_, enough, h6) =
        bind-ok (check (leb threshold (count_valid lib authorities body sigs)) too_few_signatures) _
          h5 in
      let (kept, grown) = read_heading-Sound (split 10 body) (opened body sigs) read reads in
      let (same_body, same_fresh, same_valid) =
        counted_same read (count_valid lib authorities body sigs) now in
      let same : record read { verified_by = count_valid lib authorities body sigs } ≡ c = cc in
      subst (IsAgreed authorities threshold now) same (
        body,
        sigs,
        kept.0,
        kept.1,
        eq_of_bytes_eq body (consensus_body lib read)
              (checked (bytes_eq body (consensus_body lib read)) not_canonical canonical)
            ∙ sym same_body,
        leb→le threshold (count_valid lib authorities body sigs) (
            checked (leb threshold (count_valid lib authorities body sigs)) too_few_signatures
              enough),
        length-endorsements lib authorities body sigs,
        distinct_keys-endorsements lib authorities body sigs distinct,
        All-endorsements lib authorities body sigs,
        same_fresh ∙ checked (fresh read now) not_fresh in_time,
        same_valid ∙ valid,
        grown tt,
      )

  -- A consensus that parses carries, over its exact canonical body, valid signatures of at least the
  -- threshold of distinct authorities that the client knows, and VerifiedBy is their number. It is
  -- fresh and valid, and every relay in it signed its own descriptor.
  pub parse_consensus-IsAgreed :
      (bytes : List ℕ) (authorities : Signatures) (threshold now : ℕ) (c : Consensus)
      → parse_consensus lib bytes authorities threshold now ≡ ok c
      → IsAgreed authorities threshold now c
  unfolding parse_consensus
  parse_consensus-IsAgreed bytes authorities threshold now c h =
      let (_, _, h1) = bind-ok (check (leb 1 threshold) no_threshold) _ h in
      let (_, _, h2) =
        bind-ok (check (leb threshold (length authorities)) too_few_authorities) _ h1 in
      let ((body, sigs), cuts, h3) = bind-ok (split_consensus_signatures bytes) _ h2 in
      parse_split-IsAgreed authorities threshold now body sigs c
        (signed_body-distinct (cut_first signature_marker bytes) body sigs
          (unfold split_consensus_signatures in cuts))
        h3
