-- ===== src/Directory/Workflow/Agreement.antt =====
-- What an authority agrees to.
use osanwe.Prelude.{
  ℕ, ◌+◌, ◌≡◌, sym, ap, subst, true, false, not, Option, none, some, List, length, ◌&&◌, ◌==◌,
  arith,
}
use osanwe.Prelude.Go.{ok, bind-ok, ok_injective}
use osanwe.Prelude.Table.{find, has}
use osanwe.Prelude.Text.{eq_of_bytes_eq}
use osanwe.Directory.{
  no_identity, encode_key, not_authority, unconfigured_signer, already_signed, wrong_epoch,
  wrong_lifetime, other_body, Libraries, check, checked,
}
use osanwe.Directory.Descriptor.{Descriptor}
use osanwe.Directory.Consensus.{Consensus, validate_consensus, consensus_body}
use osanwe.Directory.Consensus.Parse.{Signatures}
use osanwe.Directory.Workflow.{
  EpochSettings, Signer, truncate, unsigned_consensus, validate_epoch_settings,
  validate_authority_set, is_trusted, authority_can_sign, are_authorized, validate_consensus_epoch,
  parse_consensus_partial, is_body, prepare_consensus_co_sign,
}

is_body-equal :
    (lib : Libraries) (body : List ℕ) (raw : Option (List ℕ))
    → is_body lib body raw ≡ true
    → raw ≡ some body
unfolding is_body
is_body-equal lib body none h = absurd (cc)
is_body-equal lib body (some raw) h = ap (λ x. some x) (sym (eq_of_bytes_eq body raw h))

validate_consensus_epoch-until :
    (c : Consensus) (settings : EpochSettings)
    → validate_consensus_epoch c settings ≡ ok tt
    → c.valid_until ≡ c.valid_after + settings.lifetime
unfolding validate_consensus_epoch
validate_consensus_epoch-until c settings h =
    let (_, _, h1) = bind-ok (validate_epoch_settings settings) _ h in
    let (_, _, h2) =
      bind-ok (check (c.valid_after == truncate settings.epoch c.valid_after) wrong_epoch) _ h1 in
    let lasts = checked (c.valid_until == c.valid_after + settings.lifetime) wrong_lifetime h2 in
    ground (arith, lasts)

module _ (lib : Libraries) where
  -- The body is the one of the local relays for the epoch of the time and its lifetime, and it was
  -- signed by configured authorities without this one.
  abbrev pub IsApproved :
      Signer → List Descriptor → Signatures → ℕ → EpochSettings → Consensus → Type 0
  IsApproved s local_relays authorities now settings c =
      (c.raw
        ≡ some (consensus_body lib (unsigned_consensus local_relays c.valid_after c.valid_until)))
      × (c.valid_after ≡ truncate settings.epoch now)
      × (c.valid_until ≡ c.valid_after + settings.lifetime)
      × (are_authorized c.signatures authorities ≡ true)
      × (has (encode_key lib s.public) c.signatures ≡ false)

  authority_can_sign-given :
      (id : Option Signer) (authorities : Signatures) (s : Signer)
      → authority_can_sign lib id authorities ≡ ok s
      → id ≡ some s
  unfolding authority_can_sign
  authority_can_sign-given none authorities s h = absurd (cc)
  authority_can_sign-given (some r) authorities s h =
      let (_, _, h1) =
        bind-ok (check (length r.public == 32 && length r.private == 64) no_identity) _ h in
      let (_, _, h2) =
        bind-ok
          (check (is_trusted r.public (find (encode_key lib r.public) authorities)) not_authority) _
          h1 in
      ap (λ x. some x) (ok_injective h2)

  -- A consensus that an authority is about to co-sign has exactly the body that the authority builds
  -- from its own relays for the epoch of the time and the configured lifetime. Its signers are
  -- configured authorities, and this authority is not one of them yet.
  pub prepare_consensus_co_sign-IsApproved :
      (bytes : List ℕ) (id : Option Signer) (local_relays : List Descriptor)
      (authorities : Signatures) (now : ℕ) (settings : EpochSettings) (c : Consensus)
      → prepare_consensus_co_sign lib bytes id local_relays authorities now settings ≡ ok c
      → (s : Signer) × (id ≡ some s) × IsApproved s local_relays authorities now settings c
  unfolding prepare_consensus_co_sign
  prepare_consensus_co_sign-IsApproved bytes id local_relays authorities now settings c h =
      let (_, _, h1) = bind-ok (validate_authority_set lib authorities 1) _ h in
      let (s, can, h2) = bind-ok (authority_can_sign lib id authorities) _ h1 in
      let (d, _, h3) = bind-ok (parse_consensus_partial lib bytes now) _ h2 in
      let (_, known, h4) =
        bind-ok (check (are_authorized d.signatures authorities) unconfigured_signer) _ h3 in
      let (_, first, h5) =
        bind-ok (check (not (has (encode_key lib s.public) d.signatures)) already_signed) _ h4 in
      let (_, lasts, h6) = bind-ok (validate_consensus_epoch d settings) _ h5 in
      let (_, current, h7) =
        bind-ok (check (d.valid_after == truncate settings.epoch now) wrong_epoch) _ h6 in
      let expected : Consensus = unsigned_consensus local_relays d.valid_after d.valid_until in
      let (_, _, h8) = bind-ok (validate_consensus lib expected) _ h7 in
      let (_, same, h9) =
        bind-ok (check (is_body lib (consensus_body lib expected) d.raw) other_body) _ h8 in
      let at_epoch = checked (d.valid_after == truncate settings.epoch now) wrong_epoch current in
      let unsigned =
        checked (not (has (encode_key lib s.public) d.signatures)) already_signed first in
      (
        s,
        authority_can_sign-given id authorities s can,
        subst (IsApproved s local_relays authorities now settings) (ok_injective h9) (
          is_body-equal lib (consensus_body lib expected) d.raw
              (checked (is_body lib (consensus_body lib expected) d.raw) other_body same),
          ground (arith, at_epoch),
          validate_consensus_epoch-until d settings lasts,
          checked (are_authorized d.signatures authorities) unconfigured_signer known,
          ground (arith, unsigned),
        ),
      )
