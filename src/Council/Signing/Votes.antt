-- ===== src/Council/Signing/Votes.antt =====
-- cmd/council/signing_state.go: the vote that the state file records, and what a guard that was
-- handed out knows of it.
use osanwe.Prelude.{
  ℕ, ◌<◌, ◌≡◌, refl, sym, ap, ◌∙◌, ◌⊎◌, inl, inr, Bool, true, false, not, ltb, ◌==◌, ==_iff,
  Bool-cases, List, [], ◌∷◌, ◌++◌, length, Option, none, some, Option-cases, arith,
}
use osanwe.Prelude.Go.{Result, ok, err, ok_injective, Result-cases}
use osanwe.Mint.Seen.{bytes_eq, bytes_eq_iff}
use osanwe.Council.Signing.{
  SigningError, os_failed, not_active, SigningState, Codec, Proposal, Guard, Disk, check_state,
  read_signing_state, compare_epochs, against_state, against, hand_out, guard_of,
  begin_consensus_signing, Write, written, failed_before, failed_after, state_of, bytes_of, commit,
}

-- The library's encoders are undone by its decoders.
pub record IsCodec (c : Codec) : Type 0 where
  pub decode-marshal : (s : SigningState) → c.decode (c.marshal s ++ 10 ∷ []) ≡ some s
  pub parse-format : (t : ℕ) → c.parse (c.format t) ≡ some t

pub record Vote : Type 0 where
  pub voter_of : List ℕ
  pub epoch_of : ℕ
  pub body_of : List ℕ

abbrev pub vote : Guard → Vote
vote g = record { voter_of = g.voter; epoch_of = g.epoch; body_of = g.body_id }

-- The state file records the vote, if there was one.
abbrev pub Records : Codec → Option Vote → Option (List ℕ) → Type 0
Records c none file = file ≡ none
Records c (some v) file = file ≡ some (bytes_of c (guard_of v.voter_of v.epoch_of v.body_of))

-- Equal epochs of one voter have equal bodies, and later ones follow.
pub record Follows (last v : Vote) : Type 0 where
  pub same_voter : last.voter_of ≡ v.voter_of
  pub later_or_same :
      (last.epoch_of < v.epoch_of) ⊎ ((last.epoch_of ≡ v.epoch_of) × (last.body_of ≡ v.body_of))

-- What a guard knows of the last vote: its own follows, and without a vote it will record its own.
abbrev pub Fits : Option Vote → Guard → Type 0
Fits none g = g.advance ≡ true
Fits (some v) g =
    (v.voter_of ≡ g.voter)
    × (((v.epoch_of < g.epoch) × (g.advance ≡ true))
        ⊎ ((v.epoch_of ≡ g.epoch) × (v.body_of ≡ g.body_id)))

compare_epochs-Fits :
    (g : Guard) (previous : ℕ) (body : List ℕ) {g' : Guard}
    → g.advance ≡ true
    → compare_epochs g previous body ≡ ok g'
    → (g'.voter ≡ g.voter)
      × (((previous < g'.epoch) × (g'.advance ≡ true))
          ⊎ ((previous ≡ g'.epoch) × (body ≡ g'.body_id)))
unfolding compare_epochs
compare_epochs-Fits g previous body {g'} a h = elim (Bool-cases (ltb g.epoch previous)) [
  | inl l ↦ absurd (ground arith)
  | inr l ↦ elim (Bool-cases (previous == g.epoch)) [
    | inl e ↦ elim (Bool-cases (bytes_eq body g.body_id)) [
      | inl b ↦
          let q : record g { advance = false } ≡ g' = ground arith in
          (
            ap (λ (x : Guard). x.voter) (sym q),
            inr (
              (==_iff previous g.epoch).0 e ∙ ap (λ (x : Guard). x.epoch) q,
              (bytes_eq_iff body g.body_id).0 b ∙ ap (λ (x : Guard). x.body_id) q,
            ),
          )
      | inr b ↦ absurd (ground arith)
    ]
    | inr e ↦
        let q : g ≡ g' = ground arith in
        (
          ap (λ (x : Guard). x.voter) (sym q),
          inl (ground arith, sym (ap (λ (x : Guard). x.advance) q) ∙ a),
        )
  ]
]

check_state-same :
    (c : Codec) (bytes : List ℕ) (s : SigningState) {r : Option SigningState}
    → check_state c bytes s ≡ ok r
    → r ≡ some s
unfolding check_state
check_state-same c bytes s h = ground arith

module _ (c : Codec) (laws : IsCodec c) where
  -- A recorded vote is read back, or the reading fails.
  read_recorded :
      (readable : Bool) (v : Vote) {r : Option SigningState}
      → read_signing_state c readable (some (bytes_of c (guard_of v.voter_of v.epoch_of v.body_of)))
        ≡ ok r
      → r ≡ some (state_of c (guard_of v.voter_of v.epoch_of v.body_of))
  unfolding read_signing_state
  read_recorded readable v {r} h =
      let s : SigningState = state_of c (guard_of v.voter_of v.epoch_of v.body_of) in
      let q = rw (laws.decode-marshal s) at h in
      elim (Bool-cases (not readable)) [
        | inl n ↦ absurd (ground arith)
        | inr n ↦ elim (Bool-cases (ltb 4096 (length (c.marshal s ++ 10 ∷ [])))) [
          | inl l ↦ absurd (ground arith)
          | inr l ↦ check_state-same c (c.marshal s ++ 10 ∷ []) s (rw (n, l) at q)
        ]
      ]

  against_state-Fits :
      (v : Vote) (g : Guard) {g' : Guard}
      → g.advance ≡ true
      → against_state c g (state_of c (guard_of v.voter_of v.epoch_of v.body_of)) ≡ ok g'
      → Fits (some v) g'
  unfolding against_state
  against_state-Fits v g {g'} a h = elim (Bool-cases (bytes_eq v.voter_of g.voter)) [
    | inr b ↦ absurd (let q = rw b at h in cc)
    | inl b ↦
        let q : compare_epochs g v.epoch_of v.body_of ≡ ok g' =
          rw
            (
              b,
              laws.parse-format v.epoch_of,
              (bytes_eq_iff (c.format v.epoch_of) (c.format v.epoch_of)).1 refl,
            )
            at h in
        let (o, r) = compare_epochs-Fits g v.epoch_of v.body_of a q in
        ((bytes_eq_iff v.voter_of g.voter).0 b ∙ sym o, r)
  ]

  pub against-Fits :
      (readable : Bool) (last : Option Vote) (d : Disk) (g : Guard) {g' : Guard}
      → Records c last d.file
      → g.advance ≡ true
      → against c g (read_signing_state c readable d.file) ≡ ok g'
      → Fits last g'
  unfolding against read_signing_state
  against-Fits readable none d g {g'} r a h =
      let q = rw r at h in ap (λ (x : Guard). x.advance) (sym (ok_injective {x = g} {y = g'} q)) ∙ a
  against-Fits readable (some v) d g {g'} r a h =
      elim (Result-cases (read_signing_state c readable d.file)) [
        | inr (e, f) ↦ absurd (let q = rw f at h in cc)
        | inl (o, f) ↦
            let m = read_recorded readable v (rw r at f) in
            against_state-Fits v g a (rw (f, m) at h)
      ]

-- A guard that is handed out found no lock and took it; a refusal leaves the disk as it was.
abbrev pub Begun : Option Vote → Disk → Disk × Result SigningError Guard → Type 0
Begun last d out =
    ((out.0 ≡ d) × ((e : SigningError) × (out.1 ≡ err e)))
    ⊎ ((g : Guard) × (out.1 ≡ ok g)
        × ((d.locked ≡ false) × ((out.0 ≡ record d { locked = true }) × Fits last g)))

unlocked : (d : Disk) → d.locked ≡ false → record d { locked = false } ≡ d
unlocked d h = λ i. record d { locked = sym h i }

hand_out-Begun :
    (last : Option Vote) (d : Disk) (r : Result SigningError Guard)
    → d.locked ≡ false
    → ((g : Guard) → r ≡ ok g → Fits last g)
    → Begun last d (hand_out d r)
unfolding hand_out
hand_out-Begun last d (err e) h f = inl (unlocked d h, (e, refl))
hand_out-Begun last d (ok g) h f = inr (g, refl, (h, (refl, f g refl)))

pub begin-Begun :
    (c : Codec) (laws : IsCodec c) (makes readable : Bool) (voter : List ℕ) (p : Proposal)
    (last : Option Vote) (d : Disk)
    → Records c last d.file
    → Begun last d (begin_consensus_signing c makes readable voter p d)
unfolding begin_consensus_signing
begin-Begun c laws makes readable voter p last d r = elim (Option-cases p.valid_after_of) [
  | inl n ↦ rw (n, begin_consensus_signing) (inl (refl, (_, refl)))
  | inr (epoch, n) ↦
      rw (n, begin_consensus_signing)
        (elim (Bool-cases (length voter == 0)) [
          | inl v ↦ rw v (inl (refl, (_, refl)))
          | inr v ↦ rw v (elim (Bool-cases (not p.has_raw)) [
            | inl h ↦ rw h (inl (refl, (_, refl)))
            | inr h ↦ rw h (elim (Bool-cases d.locked) [
              | inl l ↦ rw l (inl (refl, (_, refl)))
              | inr l ↦ elim (Bool-cases (not makes)) [
                | inl m ↦ rw (l, m) (inl (refl, (_, refl)))
                | inr m ↦
                    rw (l, m)
                      (hand_out-Begun last (record d { locked = false })
                        (against c (guard_of voter epoch p.body_id_of)
                          (read_signing_state c readable d.file))
                        refl
                        (λ g e.
                          against-Fits c laws readable last d (guard_of voter epoch p.body_id_of) r
                            refl e))
              ]
            ])
          ])
        ])
]

-- The vote that a commit leaves recorded, whether or not the commit reports it.
pub record Committed (c : Codec) (last : Option Vote) (g : Guard)
    (out : Disk × Guard × Result SigningError (Unit {0})) (locked : Bool) : Type 0 where
  pub now : Option Vote
  pub recorded : Records c now out.0.file
  pub lock_kept : out.0.locked ≡ locked
  pub fits_now : Fits now out.1
  pub same_vote : vote out.1 ≡ vote g
  pub moved : (now ≡ last) ⊎ (now ≡ some (vote g))
  pub reported : out.2 ≡ ok tt → now ≡ some (vote g)

module _ (c : Codec) (w : Write) (g : Guard) (d : Disk) where
  commit_closed : g.closed ≡ true → commit c w g d ≡ (d, g, err not_active)
  unfolding commit
  commit_closed k = ground arith

  commit_idle : g.closed ≡ false → g.advance ≡ false → commit c w g d ≡ (d, g, ok tt)
  unfolding commit
  commit_idle k a = ground arith

abbrev write_state : Codec → Guard → Disk → Write → Disk × Guard × Result SigningError (Unit {0})
write_state c g d written =
    (record d { file = some (bytes_of c g) }, record g { advance = false }, ok tt)
write_state c g d failed_before = (d, g, err os_failed)
write_state c g d failed_after = (record d { file = some (bytes_of c g) }, g, err os_failed)

commit_writes :
    (c : Codec) (w : Write) (g : Guard) (d : Disk)
    → g.closed ≡ false
    → g.advance ≡ true
    → commit c w g d ≡ write_state c g d w
unfolding commit
commit_writes c written g d k a = ground arith
commit_writes c failed_before g d k a = ground arith
commit_writes c failed_after g d k a = ground arith

kept-Committed :
    (c : Codec) (last : Option Vote) (g : Guard) (d : Disk) (x : Result SigningError (Unit {0}))
    → Records c last d.file
    → Fits last g
    → (x ≡ ok tt → last ≡ some (vote g))
    → Committed c last g (d, g, x) d.locked
kept-Committed c last g d x r f h = record {
  now = last;
  recorded = r;
  lock_kept = refl;
  fits_now = f;
  same_vote = refl;
  moved = inl refl;
  reported = h;
}

-- A guard that does not advance found its own vote recorded.
own_vote : (last : Option Vote) (g : Guard) → Fits last g → g.advance ≡ false → last ≡ some (vote g)
own_vote none g f a = absurd (cc)
own_vote (some v) g (e, inl (l, b)) a = absurd (cc)
own_vote (some v) g (e, inr (l, b)) a =
    λ i. some (record { voter_of = e i; epoch_of = l i; body_of = b i })

write_state-Committed :
    (c : Codec) (w : Write) (last : Option Vote) (g : Guard) (d : Disk)
    → Records c last d.file
    → Fits last g
    → Committed c last g (write_state c g d w) d.locked
write_state-Committed c failed_before last g d r f =
    kept-Committed c last g d (err os_failed) r f (λ h. absurd (cc))
write_state-Committed c written last g d r f = record {
  now = some (vote g);
  recorded = refl;
  lock_kept = refl;
  fits_now = (refl, inr (refl, refl));
  same_vote = refl;
  moved = inr refl;
  reported = λ h. refl;
}
write_state-Committed c failed_after last g d r f = record {
  now = some (vote g);
  recorded = refl;
  lock_kept = refl;
  fits_now = (refl, inr (refl, refl));
  same_vote = refl;
  moved = inr refl;
  reported = λ h. absurd (cc);
}

-- A guard that fits the last vote.
pub commit-Committed :
    (c : Codec) (w : Write) (last : Option Vote) (g : Guard) (d : Disk)
    → Records c last d.file
    → Fits last g
    → Committed c last g (commit c w g d) d.locked
commit-Committed c w last g d r f = elim (Bool-cases g.closed) [
  | inl k ↦
      rw (commit_closed c w g d k)
        (kept-Committed c last g d (err not_active) r f (λ h. absurd (cc)))
  | inr k ↦ elim (Bool-cases g.advance) [
    | inr a ↦
        rw (commit_idle c w g d k a)
          (kept-Committed c last g d (ok tt) r f (λ h. own_vote last g f a))
    | inl a ↦ rw (commit_writes c w g d k a) (write_state-Committed c w last g d r f)
  ]
]
