-- ===== src/Council/Signing/History.antt =====
-- cmd/council/signing_state.go: any number of signers that share one state file, started, stopped
-- and crashed in any order.
use osanwe.Prelude.{
  ℕ, ◌<◌, ◌≡◌, refl, sym, ap, ap₂, ◌∙◌, subst, ◌⊎◌, inl, inr, Bool, true, false, List, [], ◌∷◌,
  ◌++◌, length, length-append, Option, none, some, arith, All,
}
use osanwe.Prelude.Go.{Result, ok, err, ok_injective}
use osanwe.Council.Signing.{
  SigningError, Codec, Proposal, Guard, Disk, begin_consensus_signing, Write, commit, close,
}
use osanwe.Council.Signing.Votes.{
  IsCodec, Vote, vote, Records, Fits, Begun, begin-Begun, Committed, commit-Committed,
}

-- The files, the guards of the running signers, and the votes whose documents were handed out.
pub record World : Type 0 where
  pub disk : Disk
  pub guards : List Guard
  pub published : List Vote

abbrev pub keep_guard : World → Disk × Result SigningError Guard → World
keep_guard w (d, ok g) = record w { disk = d; guards = g ∷ w.guards }
keep_guard w (d, err e) = record w { disk = d }

-- signConsensusWithState returns the document where the commit succeeds.
abbrev pub publish : List Vote → Guard → Result SigningError (Unit {0}) → List Vote
publish votes g (ok _) = vote g ∷ votes
publish votes g (err e) = votes

abbrev pub after_commit :
    World → List Guard → Guard → List Guard → Disk × Guard × Result SigningError (Unit {0}) → World
after_commit w before g after out = record {
  disk = out.0;
  guards = before ++ out.1 ∷ after;
  published = publish w.published g out.2;
}

-- A signer begins, commits, closes its guard or crashes; where none runs, the operator may remove
-- the lock that a crash left.
pub data Step (c : Codec) : World → World → Type 0 where
  begins :
      (w : World) (makes readable : Bool) (voter : List ℕ) (p : Proposal)
      → Step c w (keep_guard w (begin_consensus_signing c makes readable voter p w.disk))
  commits :
      (w : World) (how : Write) (before : List Guard) (g : Guard) (after : List Guard)
      → w.guards ≡ before ++ g ∷ after
      → Step c w (after_commit w before g after (commit c how g w.disk))
  closes :
      (w : World) (before : List Guard) (g : Guard) (after : List Guard)
      → w.guards ≡ before ++ g ∷ after
      → Step c w (record w { disk = (close g w.disk).0; guards = before ++ after })
  crashes :
      (w : World) (before : List Guard) (g : Guard) (after : List Guard)
      → w.guards ≡ before ++ g ∷ after
      → Step c w (record w { guards = before ++ after })
  clears :
      (w : World) → w.guards ≡ [] → Step c w (record w { disk = record w.disk { locked = false } })

pub data Reach (c : Codec) (w : World) : World → Type 0 where
  here : Reach c w w
  next : {v u : World} → Reach c w v → Step c v u → Reach c w u

-- One voter never has two bodies for one epoch.
abbrev pub Agrees : Vote → Vote → Type 0
Agrees v a = v.voter_of ≡ a.voter_of → v.epoch_of ≡ a.epoch_of → v.body_of ≡ a.body_of

abbrev pub AllAgree : List Vote → Type 0
AllAgree [] = Unit {0}
AllAgree (v ∷ vs) = All (Agrees v) vs × AllAgree vs

-- A published vote is the last recorded one, or of an earlier epoch.
abbrev pub Since : Vote → Vote → Type 0
Since last v =
    (v.voter_of ≡ last.voter_of)
    × ((v.epoch_of < last.epoch_of) ⊎ ((v.epoch_of ≡ last.epoch_of) × (v.body_of ≡ last.body_of)))

abbrev pub Before : Option Vote → Vote → Type 0
Before none v = ⊥
Before (some last) v = Since last v

-- At most one signer runs, and only under the lock.
abbrev pub Alone : Option Vote → Bool → List Guard → Type 0
Alone last locked guards =
    (guards ≡ []) ⊎ ((g : Guard) × (guards ≡ g ∷ []) × ((locked ≡ true) × Fits last g))

pub record IsAgreed (c : Codec) (w : World) : Type 0 where
  pub last : Option Vote
  pub recorded : Records c last w.disk.file
  pub alone : Alone last w.disk.locked w.guards
  pub bounded : All (Before last) w.published
  pub agree : AllAgree w.published

only :
    {g g' : Guard} (before after : List Guard)
    → g' ∷ [] ≡ before ++ g ∷ after
    → (before ≡ []) × ((g ≡ g') × (after ≡ []))
only {g} {g'} [] after h = (refl, (cc, cc))
only {g} {g'} (x ∷ xs) after h = absurd (omega (arith, ap length h, length-append xs (g ∷ after)))

-- The guard of a step is the one guard, under the lock.
the_guard :
    (last : Option Vote) (locked : Bool) (guards before : List Guard) (g : Guard)
    (after : List Guard)
    → guards ≡ before ++ g ∷ after
    → Alone last locked guards
    → (before ≡ []) × ((after ≡ []) × ((locked ≡ true) × Fits last g))
the_guard last locked guards before g after h (inl e) =
    absurd (omega (arith, ap length (sym e ∙ h), length-append before (g ∷ after)))
the_guard last locked guards before g after h (inr (g', e, (l, f))) =
    let (b, (s, a)) = only before after (sym e ∙ h) in (b, (a, (l, subst (Fits last) (sym s) f)))

none_left : (before after : List Guard) → before ≡ [] → after ≡ [] → before ++ after ≡ []
none_left before after b a = rw (b, a) refl

-- Votes before the last one are before every vote that follows it.
rebound :
    (last : Option Vote) (g : Guard) (vs : List Vote)
    → Fits last g
    → All (Before last) vs
    → All (Before (some (vote g))) vs
rebound last g [] f b = tt
rebound none g (v ∷ vs) f b = absurd b.0
rebound (some l) g (v ∷ vs) f b = (since l v g f b.0, rebound (some l) g vs f b.1)
  where
    since : (l v : Vote) (g : Guard) → Fits (some l) g → Since l v → Since (vote g) v
    since l v g (e, inl (h, a)) (e', inl k) = (e' ∙ e, inl (omega (arith, h, k)))
    since l v g (e, inl (h, a)) (e', inr (k, b)) = (e' ∙ e, inl (omega (arith, h, k)))
    since l v g (e, inr (h, a)) (e', inl k) = (e' ∙ e, inl (omega (arith, h, k)))
    since l v g (e, inr (h, a)) (e', inr (k, b)) = (e' ∙ e, inr (k ∙ h, b ∙ a))

All-Agrees : (v : Vote) (vs : List Vote) → All (Before (some v)) vs → All (Agrees v) vs
All-Agrees v [] b = tt
All-Agrees v (a ∷ vs) b = (one v a b.0, All-Agrees v vs b.1)
  where
    one : (v a : Vote) → Since v a → Agrees v a
    one v a (s, inl k) e h = absurd (omega (arith, h, k))
    one v a (s, inr (k, b)) e h = sym b

bounded_after :
    (last now : Option Vote) (g : Guard) (vs : List Vote)
    → (now ≡ last) ⊎ (now ≡ some (vote g))
    → Fits last g
    → All (Before last) vs
    → All (Before now) vs
bounded_after last now g vs (inl e) f b = subst (λ o. All (Before o) vs) (sym e) b
bounded_after last now g vs (inr e) f b =
    subst (λ o. All (Before o) vs) (sym e) (rebound last g vs f b)

-- What publishing leaves, where the vote that is reported is the one recorded.
published-agree :
    (now : Option Vote) (g : Guard) (vs : List Vote) (r : Result SigningError (Unit {0}))
    → (r ≡ ok tt → now ≡ some (vote g))
    → All (Before now) vs
    → AllAgree vs
    → All (Before now) (publish vs g r) × AllAgree (publish vs g r)
published-agree now g vs (err e) h b a = (b, a)
published-agree now g vs (ok _) h b a =
    let q : now ≡ some (vote g) = h refl in
    let b' : All (Before (some (vote g))) vs = subst (λ o. All (Before o) vs) q b in
    (
      subst (λ o. All (Before o) (vote g ∷ vs)) (sym q) ((refl, inr (refl, refl)), b'),
      (All-Agrees (vote g) vs b', a),
    )

module _ (c : Codec) (laws : IsCodec c) where
  Begun-IsAgreed :
      (w : World) (out : Disk × Result SigningError Guard) (v : IsAgreed c w)
      → Begun v.last w.disk out
      → IsAgreed c (keep_guard w out)
  Begun-IsAgreed w (d, ok g) v (inl (e, (x, h))) = absurd (cc)
  Begun-IsAgreed w (d, err y) v (inl (e, (x, h))) = record {
    last = v.last;
    recorded = subst (λ (k : Disk). Records c v.last k.file) (sym e) v.recorded;
    alone = subst (λ (k : Disk). Alone v.last k.locked w.guards) (sym e) v.alone;
    bounded = v.bounded;
    agree = v.agree;
  }
  Begun-IsAgreed w (d, err y) v (inr (g, h, (l, (e, f)))) = absurd (cc)
  Begun-IsAgreed w (d, ok g') v (inr (g, h, (l, (e, f)))) = record {
    last = v.last;
    recorded = subst (λ (k : Disk). Records c v.last k.file) (sym e) v.recorded;
    alone = inr (
      g,
      ap₂ (λ x xs. x ∷ xs) (ok_injective {x = g'} {y = g} h) (no_guards v.alone),
      (ap (λ (k : Disk). k.locked) e, f),
    );
    bounded = v.bounded;
    agree = v.agree;
  }
    where
      no_guards : Alone v.last w.disk.locked w.guards → w.guards ≡ []
      no_guards (inl n) = n
      no_guards (inr (x, n, (t, _))) = absurd (cc)

  close-file : (g : Guard) (d : Disk) → (close g d).0.file ≡ d.file
  unfolding close
  close-file g d = ground arith

  left-IsAgreed :
      (w : World) (before after : List Guard) (d : Disk) (v : IsAgreed c w)
      → before ++ after ≡ []
      → d.file ≡ w.disk.file
      → IsAgreed c (record w { disk = d; guards = before ++ after })
  left-IsAgreed w before after d v n e = record {
    last = v.last;
    recorded = subst (Records c v.last) (sym e) v.recorded;
    alone = inl n;
    bounded = v.bounded;
    agree = v.agree;
  }

  Committed-IsAgreed :
      (w : World) (before : List Guard) (g : Guard) (after : List Guard)
      (out : Disk × Guard × Result SigningError (Unit {0})) (v : IsAgreed c w)
      → before ≡ []
      → after ≡ []
      → w.disk.locked ≡ true
      → Fits v.last g
      → Committed c v.last g out w.disk.locked
      → IsAgreed c (after_commit w before g after out)
  Committed-IsAgreed w before g after out v b a l f k =
      let (p, q) =
        published-agree k.now g w.published out.2 k.reported
          (bounded_after v.last k.now g w.published k.moved f v.bounded) v.agree in
      record {
        last = k.now;
        recorded = k.recorded;
        alone = inr (out.1, rw (b, a) refl, (k.lock_kept ∙ l, k.fits_now));
        bounded = p;
        agree = q;
      }

  Step-IsAgreed : {w u : World} → Step c w u → IsAgreed c w → IsAgreed c u
  Step-IsAgreed (begins w makes readable voter p) v =
      Begun-IsAgreed w (begin_consensus_signing c makes readable voter p w.disk) v
        (begin-Begun c laws makes readable voter p v.last w.disk v.recorded)
  Step-IsAgreed (commits w how before g after h) v =
      let (b, (a, (l, f))) = the_guard v.last w.disk.locked w.guards before g after h v.alone in
      Committed-IsAgreed w before g after (commit c how g w.disk) v b a l f
        (commit-Committed c how v.last g w.disk v.recorded f)
  Step-IsAgreed (closes w before g after h) v =
      let (b, (a, _)) = the_guard v.last w.disk.locked w.guards before g after h v.alone in
      left-IsAgreed w before after (close g w.disk).0 v (none_left before after b a)
        (close-file g w.disk)
  Step-IsAgreed (crashes w before g after h) v =
      let (b, (a, _)) = the_guard v.last w.disk.locked w.guards before g after h v.alone in
      left-IsAgreed w before after w.disk v (none_left before after b a) refl
  Step-IsAgreed (clears w n) v = record {
    last = v.last;
    recorded = v.recorded;
    alone = inl n;
    bounded = v.bounded;
    agree = v.agree;
  }

  Reach-IsAgreed : {w u : World} → Reach c w u → IsAgreed c w → IsAgreed c u
  Reach-IsAgreed here v = v
  Reach-IsAgreed (next r s) v = Step-IsAgreed s (Reach-IsAgreed r v)

  -- Whatever signers begin, commit, close or crash on one state file that was empty at first, with
  -- writes that fail before or after the rename and stale locks that are removed while none runs,
  -- the documents that one authority hands out for one epoch all have the same body.
  pub never_two_bodies :
      {u : World}
      → Reach c
          (record { disk = record { locked = false; file = none }; guards = []; published = [] })
          u
      → AllAgree u.published
  never_two_bodies r = (Reach-IsAgreed r start).agree
    where
      start :
          IsAgreed c
            (record { disk = record { locked = false; file = none }; guards = []; published = [] })
      start = record { last = none; recorded = refl; alone = inl refl; bounded = tt; agree = tt }
