-- ===== src/Council/Serving/Monotone.antt =====
-- cmd/council/serving_state.go: what a mirror serves never goes back and never changes within an
-- epoch, over any sequence of installations.
use osanwe.Prelude.{
  ℕ, ◌<◌, ◌≡◌, refl, sym, subst, ◌⊎◌, inl, inr, Bool, true, false, ◌||◌, not, ltb, ◌==◌, ==_iff,
  Bool-cases, List, [], ◌∷◌, ◌++◌, length, Option, none, some, Option-cases, arith,
}
use osanwe.Prelude.Go.{Result, ok, err, Result-cases}
use osanwe.Mint.Seen.{bytes_eq, bytes_eq_iff}
use osanwe.Council.Signing.{Proposal, Disk, Write, written, failed_before, failed_after}
use osanwe.Council.Serving.{
  ServingError, incomplete, lock_exists, os_failed, ServingState, ServingCodec, check_serving,
  read_serving_state, serving_of, serving_bytes, is_newer, newer_than, judge, write_serving,
  record_served_consensus,
}

-- The library's encoders are undone by its decoders.
pub record IsServingCodec (c : ServingCodec) : Type 0 where
  pub decode-marshal : (s : ServingState) → c.decode (c.marshal s ++ 10 ∷ []) ≡ some s
  pub parse-format : (t : ℕ) → c.parse (c.format t) ≡ some t

pub record Served : Type 0 where
  pub epoch_of : ℕ
  pub body_of : List ℕ

abbrev pub Remembers : ServingCodec → Option Served → Option (List ℕ) → Type 0
Remembers c none file = file ≡ none
Remembers c (some v) file = file ≡ some (serving_bytes c v.epoch_of v.body_of)

-- The next document is of a later epoch, or the same document.
abbrev pub Next : Option Served → Served → Type 0
Next none v = Unit {0}
Next (some u) v = (u.epoch_of < v.epoch_of) ⊎ ((u.epoch_of ≡ v.epoch_of) × (u.body_of ≡ v.body_of))

is_newer-Next :
    (epoch : ℕ) (body : List ℕ) (u : Served) (b : Bool)
    → is_newer epoch body u.epoch_of u.body_of ≡ ok b
    → Next (some u) (record { epoch_of = epoch; body_of = body })
      × (b ≡ false → (u.epoch_of ≡ epoch) × (u.body_of ≡ body))
unfolding is_newer
is_newer-Next epoch body u b h = elim (Bool-cases (ltb epoch u.epoch_of)) [
  | inl l ↦ absurd (ground arith)
  | inr l ↦ elim (Bool-cases (u.epoch_of == epoch)) [
    | inl e ↦ elim (Bool-cases (bytes_eq u.body_of body)) [
      | inl k ↦
          let same : (u.epoch_of ≡ epoch) × (u.body_of ≡ body) =
            ((==_iff u.epoch_of epoch).0 e, (bytes_eq_iff u.body_of body).0 k) in
          (inr same, λ _. same)
      | inr k ↦ absurd (ground arith)
    ]
    | inr e ↦ (inl (ground arith), λ n. absurd (ground arith))
  ]
]

check_serving-same :
    (c : ServingCodec) (bytes : List ℕ) (s : ServingState) {r : Option ServingState}
    → check_serving c bytes s ≡ ok r
    → r ≡ some s
unfolding check_serving
check_serving-same c bytes s h = ground arith

module _ (c : ServingCodec) (laws : IsServingCodec c) where
  read_remembered :
      (readable : Bool) (v : Served) {r : Option ServingState}
      → read_serving_state c readable (some (serving_bytes c v.epoch_of v.body_of)) ≡ ok r
      → r ≡ some (serving_of c v.epoch_of v.body_of)
  unfolding read_serving_state
  read_remembered readable v {r} h =
      let s : ServingState = serving_of c v.epoch_of v.body_of in
      let q = rw (laws.decode-marshal s) at h in
      elim (Bool-cases (not readable)) [
        | inl n ↦ absurd (ground arith)
        | inr n ↦ elim (Bool-cases (ltb 4096 (length (c.marshal s ++ 10 ∷ [])))) [
          | inl l ↦ absurd (ground arith)
          | inr l ↦ check_serving-same c (c.marshal s ++ 10 ∷ []) s (rw (n, l) at q)
        ]
      ]

  judge-Next :
      (readable : Bool) (last : Option Served) (file : Option (List ℕ)) (epoch : ℕ) (body : List ℕ)
      (b : Bool)
      → Remembers c last file
      → judge c epoch body (read_serving_state c readable file) ≡ ok b
      → Next last (record { epoch_of = epoch; body_of = body })
        × (b ≡ false → last ≡ some (record { epoch_of = epoch; body_of = body }))
  unfolding judge read_serving_state newer_than
  judge-Next readable none file epoch body b r h = let q = rw r at h in (tt, λ n. absurd (cc))
  judge-Next readable (some v) file epoch body b r h =
      elim (Result-cases (read_serving_state c readable file)) [
        | inr (e, f) ↦ absurd (let q = rw f at h in cc)
        | inl (o, f) ↦
            let m = read_remembered readable v (rw r at f) in
            let q : is_newer epoch body v.epoch_of v.body_of ≡ ok b =
              rw
                (
                  f,
                  m,
                  laws.parse-format v.epoch_of,
                  (bytes_eq_iff (c.format v.epoch_of) (c.format v.epoch_of)).1 refl,
                  newer_than,
                )
                at h in
            let (n, k) = is_newer-Next epoch body v b q in
            (n, λ z. λ i. some (record { epoch_of = (k z).0 i; body_of = (k z).1 i }))
      ]

abbrev pub served : ℕ → List ℕ → Served
served epoch body = record { epoch_of = epoch; body_of = body }

-- What an installation leaves remembered, and what it means that it succeeds.
abbrev pub Installed :
    ServingCodec
    → Option Served
    → Proposal
    → Option (List ℕ) × Result ServingError (Unit {0})
    → Type 0
Installed c last p out =
    (now : Option Served) × (Remembers c now out.0
      × (((now ≡ last) ⊎ ((v : Served) × (now ≡ some v) × Next last v))
          × (out.1 ≡ ok tt
              → (epoch : ℕ) × ((p.valid_after_of ≡ some epoch)
                  × (now ≡ some (served epoch p.body_id_of))))))

refused-Installed :
    (c : ServingCodec) (last : Option Served) (p : Proposal) (file : Option (List ℕ))
    (e : ServingError)
    → Remembers c last file
    → Installed c last p (file, err e)
refused-Installed c last p file e r = (last, (r, (inl refl, λ h. absurd (cc))))

write_serving-Installed :
    (c : ServingCodec) (w : Write) (last : Option Served) (p : Proposal) (epoch : ℕ)
    (file : Option (List ℕ)) (r : Result ServingError Bool)
    → p.valid_after_of ≡ some epoch
    → Remembers c last file
    → ((b : Bool)
        → r ≡ ok b
        → Next last (served epoch p.body_id_of)
          × (b ≡ false → last ≡ some (served epoch p.body_id_of)))
    → Installed c last p (write_serving c epoch p.body_id_of w file r)
unfolding write_serving
write_serving-Installed c w last p epoch file (err e) a r f = refused-Installed c last p file e r
write_serving-Installed c w last p epoch file (ok false) a r f =
    (last, (r, (inl refl, λ h. (epoch, (a, (f false refl).1 refl)))))
write_serving-Installed c written last p epoch file (ok true) a r f = (
  some (served epoch p.body_id_of),
  (refl, (inr (served epoch p.body_id_of, refl, (f true refl).0), λ h. (epoch, (a, refl)))),
)
write_serving-Installed c failed_before last p epoch file (ok true) a r f =
    refused-Installed c last p file _ r
write_serving-Installed c failed_after last p epoch file (ok true) a r f = (
  some (served epoch p.body_id_of),
  (refl, (inr (served epoch p.body_id_of, refl, (f true refl).0), λ h. absurd (cc))),
)

pub record_served-Installed :
    (c : ServingCodec) (laws : IsServingCodec c) (makes readable : Bool) (w : Write) (p : Proposal)
    (last : Option Served) (d : Disk)
    → Remembers c last d.file
    → Installed c last p (record_served_consensus c makes readable w p d)
unfolding record_served_consensus
record_served-Installed c laws makes readable w p last d r = elim (Option-cases p.valid_after_of) [
  | inl n ↦ subst (Installed c last p) (sym (no_epoch n)) (refused-Installed c last p d.file _ r)
  | inr (epoch, n) ↦ elim (Bool-cases (not p.has_raw || (d.locked || not makes))) [
    | inl b ↦
        let (e, q) = refuses epoch n b in
        subst (Installed c last p) (sym q) (refused-Installed c last p d.file e r)
    | inr b ↦ subst (Installed c last p) (sym (goes_on epoch n b)) (
        write_serving-Installed c w last p epoch d.file
          (judge c epoch p.body_id_of (read_serving_state c readable d.file)) n r
          (λ b' h. judge-Next c laws readable last d.file epoch p.body_id_of b' r h))
  ]
]
  where
    no_epoch :
        p.valid_after_of ≡ none
        → record_served_consensus c makes readable w p d ≡ (d.file, err incomplete)
    no_epoch n = rw (n, record_served_consensus) refl

    refuses :
        (epoch : ℕ)
        → p.valid_after_of ≡ some epoch
        → (not p.has_raw || (d.locked || not makes)) ≡ true
        → (e : ServingError) × (record_served_consensus c makes readable w p d ≡ (d.file, err e))
    refuses epoch n b = elim (Bool-cases p.has_raw) [
      | inr h ↦ (incomplete, rw (n, h, record_served_consensus) refl)
      | inl h ↦ elim (Bool-cases d.locked) [
        | inl l ↦ (lock_exists, ground arith)
        | inr l ↦ (os_failed, ground arith)
      ]
    ]

    goes_on :
        (epoch : ℕ)
        → p.valid_after_of ≡ some epoch
        → (not p.has_raw || (d.locked || not makes)) ≡ false
        → record_served_consensus c makes readable w p d
          ≡ write_serving c epoch p.body_id_of w d.file
              (judge c epoch p.body_id_of (read_serving_state c readable d.file))
    goes_on epoch n b = ground arith
