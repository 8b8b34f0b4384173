-- ===== src/Directory/Workflow/Merge.antt =====
-- A merge adds signatures to one body and loses none.
use osanwe.Prelude.{
  ℕ, ◌≡◌, inl, inr, refl, sym, ap, subst, ◌∙◌, true, not, Option, none, some, List, [], ◌∷◌, length,
  leb, ◌==◌, All, if◌then◌else◌, arith, Bool-cases, some_injective, All-map, leb→le, ◌≤◌,
}
use osanwe.Prelude.Go.{ok, bind-ok, ok_injective}
use osanwe.Prelude.Table.{find, put, find-put}
use osanwe.Prelude.Text.{bytes_eq, bytes_eq_refl, eq_of_bytes_eq}
use osanwe.Directory.{
  no_parts, unconfigured_signer, conflicting_body, conflicting_signatures, too_few_signatures,
  Libraries, check, checked,
}
use osanwe.Directory.Consensus.{Consensus, encode_consensus}
use osanwe.Directory.Consensus.Parse.{Signatures, parse_consensus}
use osanwe.Directory.Consensus.Threshold.{IsAgreed, parse_consensus-IsAgreed}
use osanwe.Directory.Workflow.{
  validate_authority_set, are_authorized, parse_consensus_partial, conflicts, combine, same_raw,
  same_as_base, merge_parts, encode_merged, merge_consensus,
}

module _ (lib : Libraries) where
  -- A signature is among those that were combined.
  abbrev pub Holds : Signatures → List ℕ × List ℕ → Type 0
  Holds combined entry = find entry.0 combined ≡ some entry.1

  found_agrees :
      (sig previous : List ℕ) (found : Option (List ℕ))
      → not (conflicts lib sig found) ≡ true
      → found ≡ some previous
      → sig ≡ previous
  unfolding conflicts
  found_agrees sig previous none h k = absurd (cc)
  found_agrees sig previous (some old) h k =
      let same : old ≡ sig = eq_of_bytes_eq old sig (ground (arith, h)) in
      let found : old ≡ previous = cc in sym same ∙ found

  put-Holds :
      (fp sig : List ℕ) (combined : Signatures) (entry : List ℕ × List ℕ)
      → not (conflicts lib sig (find fp combined)) ≡ true
      → Holds combined entry
      → Holds (put fp sig combined) entry
  put-Holds fp sig combined (key, old) fine holds =
      find-put fp key sig combined ∙ elim (Bool-cases (bytes_eq fp key)) [
        | inl e ↦
            let found : find fp combined ≡ some old =
              ap (λ k. find k combined) (eq_of_bytes_eq fp key e) ∙ holds in
            ap (λ b. if b then some sig else find key combined) e
            ∙ ap (λ x. some x) (found_agrees sig old (find fp combined) fine found)
        | inr e ↦ ap (λ b. if b then some sig else find key combined) e ∙ holds
      ]

  put-Holds_own : (fp sig : List ℕ) (combined : Signatures) → Holds (put fp sig combined) (fp, sig)
  put-Holds_own fp sig combined =
      find-put fp fp sig combined
      ∙ ap (λ b. if b then some sig else find fp combined) (bytes_eq_refl fp)

  combine-Holds :
      (sigs combined out : Signatures) (entry : List ℕ × List ℕ)
      → combine lib sigs combined ≡ ok out
      → Holds combined entry
      → Holds out entry
  unfolding combine
  combine-Holds [] combined out entry h holds = subst (λ m. Holds m entry) (ok_injective h) holds
  combine-Holds ((fp, sig) ∷ sigs) combined out entry h holds =
      let fine = not (conflicts lib sig (find fp combined)) in
      let (_, agreed, rest) = bind-ok (check fine conflicting_signatures) _ h in
      combine-Holds sigs (put fp sig combined) out entry rest
        (put-Holds fp sig combined entry (checked fine conflicting_signatures agreed) holds)

  combine-All :
      (sigs combined out : Signatures) → combine lib sigs combined ≡ ok out → All (Holds out) sigs
  unfolding combine
  combine-All [] combined out h = tt
  combine-All ((fp, sig) ∷ sigs) combined out h =
      let fine = not (conflicts lib sig (find fp combined)) in
      let (_, _, rest) = bind-ok (check fine conflicting_signatures) _ h in
      (
        combine-Holds sigs (put fp sig combined) out (fp, sig) rest (put-Holds_own fp sig combined),
        combine-All sigs (put fp sig combined) out rest,
      )

  same_raw_self : (raw : Option (List ℕ)) → same_raw lib raw raw ≡ true
  unfolding same_raw
  same_raw_self none = refl
  same_raw_self (some body) = bytes_eq_refl body

  module _ (authorities : Signatures) (now : ℕ) where
    -- A part is a partial consensus over the body of the base whose signers are configured
    -- authorities and whose signatures are all among the combined ones.
    abbrev pub IsMerged : Consensus → Signatures → List ℕ → Type 0
    IsMerged base combined part =
        (c : Consensus) × (parse_consensus_partial lib part now ≡ ok c)
        × (are_authorized c.signatures authorities ≡ true)
        × (same_raw lib base.raw c.raw ≡ true)
        × All (Holds combined) c.signatures

    merge_parts-Holds :
        (parts : List (List ℕ)) (base out : Option Consensus) (combined sigs : Signatures)
        (entry : List ℕ × List ℕ)
        → merge_parts lib authorities now parts base combined ≡ ok (out, sigs)
        → Holds combined entry
        → Holds sigs entry
    unfolding merge_parts
    merge_parts-Holds [] base out combined sigs entry h holds =
        subst (λ m. Holds m entry) (ap (λ p. p.1) (ok_injective h)) holds
    merge_parts-Holds (part ∷ parts) base out combined sigs entry h holds =
        let (c, _, h1) = bind-ok (parse_consensus_partial lib part now) _ h in
        let (_, _, h2) =
          bind-ok (check (are_authorized c.signatures authorities) unconfigured_signer) _ h1 in
        let (kept, _, h3) = bind-ok (same_as_base lib base c) _ h2 in
        let (more, together, h4) = bind-ok (combine lib c.signatures combined) _ h3 in
        merge_parts-Holds parts (some kept) out more sigs entry h4
          (combine-Holds c.signatures combined more entry together holds)

    same_as_base-keeps :
        (base c kept : Consensus)
        → same_as_base lib (some base) c ≡ ok kept
        → (kept ≡ base) × (same_raw lib base.raw c.raw ≡ true)
    unfolding same_as_base
    same_as_base-keeps base c kept h =
        let (_, same, h1) = bind-ok (check (same_raw lib base.raw c.raw) conflicting_body) _ h in
        (sym (ok_injective h1), checked (same_raw lib base.raw c.raw) conflicting_body same)

    -- Once a part gave the base, it stays.
    merge_parts-base :
        (parts : List (List ℕ)) (base : Consensus) (out : Option Consensus)
        (combined sigs : Signatures)
        → merge_parts lib authorities now parts (some base) combined ≡ ok (out, sigs)
        → out ≡ some base
    unfolding merge_parts
    merge_parts-base [] base out combined sigs h = sym (ap (λ p. p.0) (ok_injective h))
    merge_parts-base (part ∷ parts) base out combined sigs h =
        let (c, _, h1) = bind-ok (parse_consensus_partial lib part now) _ h in
        let (_, _, h2) =
          bind-ok (check (are_authorized c.signatures authorities) unconfigured_signer) _ h1 in
        let (kept, compared, h3) = bind-ok (same_as_base lib (some base) c) _ h2 in
        let (more, _, h4) = bind-ok (combine lib c.signatures combined) _ h3 in
        let (same, _) = same_as_base-keeps base c kept compared in
        merge_parts-base parts kept out more sigs h4 ∙ ap (λ x. some x) same

    same_as_base-body :
        (base : Option Consensus) (c kept : Consensus)
        → same_as_base lib base c ≡ ok kept
        → same_raw lib kept.raw c.raw ≡ true
    unfolding same_as_base
    same_as_base-body none c kept h =
        subst (λ k. same_raw lib k.raw c.raw ≡ true) (ok_injective h) (same_raw_self c.raw)
    same_as_base-body (some base) c kept h =
        let (same, fits) = same_as_base-keeps base c kept h in
        subst (λ k. same_raw lib k.raw c.raw ≡ true) (sym same) fits

    merge_parts-IsMerged :
        (parts : List (List ℕ)) (base : Option Consensus) (out : Consensus)
        (combined sigs : Signatures)
        → merge_parts lib authorities now parts base combined ≡ ok (some out, sigs)
        → All (IsMerged out sigs) parts
    unfolding merge_parts
    merge_parts-IsMerged [] base out combined sigs h = tt
    merge_parts-IsMerged (part ∷ parts) base out combined sigs h =
        let (c, parsed, h1) = bind-ok (parse_consensus_partial lib part now) _ h in
        let known = are_authorized c.signatures authorities in
        let (_, authorized, h2) = bind-ok (check known unconfigured_signer) _ h1 in
        let (kept, compared, h3) = bind-ok (same_as_base lib base c) _ h2 in
        let (more, together, h4) = bind-ok (combine lib c.signatures combined) _ h3 in
        let same : out ≡ kept =
          some_injective (merge_parts-base parts kept (some out) more sigs h4) in
        (
          (
            c,
            parsed,
            checked known unconfigured_signer authorized,
            subst (λ k. same_raw lib k.raw c.raw ≡ true) (sym same)
                (same_as_base-body base c kept compared),
            All-map c.signatures
                (λ entry. merge_parts-Holds parts (some kept) (some out) more sigs entry h4)
                (combine-All c.signatures combined more together),
          ),
          merge_parts-IsMerged parts (some kept) out more sigs h4,
        )

    -- Every part signs the one body of the base, no signature is lost, and the document is the base
    -- with all of the signatures, which clients accept.
    abbrev pub IsMerge : List (List ℕ) → ℕ → List ℕ → Type 0
    IsMerge parts threshold bytes =
        (base c : Consensus) × (combined : Signatures) × All (IsMerged base combined) parts
        × (threshold ≤ length combined)
        × (encode_consensus lib (record base { signatures = combined }) ≡ ok bytes)
        × (parse_consensus lib bytes authorities threshold now ≡ ok c)
        × IsAgreed lib authorities threshold now c

    encode_merged-IsMerge :
        (parts : List (List ℕ)) (threshold : ℕ) (out : Option Consensus) (combined : Signatures)
        (bytes : List ℕ)
        → merge_parts lib authorities now parts none [] ≡ ok (out, combined)
        → threshold ≤ length combined
        → encode_merged lib authorities threshold now out combined ≡ ok bytes
        → IsMerge parts threshold bytes
    unfolding encode_merged
    encode_merged-IsMerge parts threshold none combined bytes merged enough h = absurd (cc)
    encode_merged-IsMerge parts threshold (some base) combined bytes merged enough h =
        let whole : Consensus = record base { signatures = combined } in
        let (encoded, spelled, h1) = bind-ok (encode_consensus lib whole) _ h in
        let (c, parses, h2) =
          bind-ok (parse_consensus lib encoded authorities threshold now) _ h1 in
        let same : encoded ≡ bytes = ok_injective h2 in
        let accepted : parse_consensus lib bytes authorities threshold now ≡ ok c =
          subst (λ b. parse_consensus lib b authorities threshold now ≡ ok c) same parses in
        (
          base,
          c,
          combined,
          merge_parts-IsMerged parts none base [] combined merged,
          enough,
          spelled ∙ ap (λ b. ok b) same,
          accepted,
          parse_consensus-IsAgreed lib bytes authorities threshold now c accepted,
        )

    -- A merge succeeds only if every part is a partial consensus over one body, signed by configured
    -- authorities, and no two parts have different signatures of one authority. The merged document
    -- is that consensus with the signatures of all parts, at least as many as the threshold, and every
    -- client with the same authorities, threshold and time parses it.
    pub merge_consensus-IsMerge :
        (parts : List (List ℕ)) (threshold : ℕ) (bytes : List ℕ)
        → merge_consensus lib parts authorities threshold now ≡ ok bytes
        → IsMerge parts threshold bytes
    unfolding merge_consensus
    merge_consensus-IsMerge parts threshold bytes h =
        let (_, _, h1) = bind-ok (check (not (length parts == 0)) no_parts) _ h in
        let (_, _, h2) = bind-ok (validate_authority_set lib authorities threshold) _ h1 in
        let ((out, combined), merged, h3) =
          bind-ok (merge_parts lib authorities now parts none []) _ h2 in
        let (_, counted, h4) =
          bind-ok (check (leb threshold (length combined)) too_few_signatures) _ h3 in
        encode_merged-IsMerge parts threshold out combined bytes merged
          (leb→le threshold (length combined)
            (checked (leb threshold (length combined)) too_few_signatures counted))
          h4
