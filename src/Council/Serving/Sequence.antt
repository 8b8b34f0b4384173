-- ===== src/Council/Serving/Sequence.antt =====
-- cmd/council/serving_state.go: a sequence of installations on one state file, as the lock orders
-- them, restarts of the mirror included.
use osanwe.Prelude.{
  ℕ, ◌≡◌, refl, sym, ◌∙◌, subst, ◌⊎◌, inl, inr, Bool, List, [], ◌∷◌, Option, none, some, arith, All,
}
use osanwe.Prelude.Go.{Result, ok, err}
use osanwe.Council.Signing.{Proposal, Disk, Write}
use osanwe.Council.Serving.{ServingError, ServingCodec, record_served_consensus}
use osanwe.Council.Serving.Monotone.{
  IsServingCodec, Served, served, Remembers, Next, Installed, record_served-Installed,
}

-- One call and what the system answers it: the lock may be held by another.
pub record Installation : Type 0 where
  pub lock_held : Bool
  pub makes : Bool
  pub readable : Bool
  pub how : Write
  pub proposal : Proposal

-- A document is served where its installation succeeds.
pub add_served : Proposal → Result ServingError (Unit {0}) → List Served → List Served
add_served p (err e) log = log
add_served p (ok _) log = elim p.valid_after_of [
  | none ↦ log
  | some epoch ↦ served epoch p.body_id_of ∷ log
]

pub installation :
    ServingCodec → Installation → Option (List ℕ) → Option (List ℕ) × Result ServingError (Unit {0})
installation c i file =
    record_served_consensus c i.makes i.readable i.how i.proposal
      (record { locked = i.lock_held; file = file })

-- The file and what was served, the newest first.
pub install_all :
    ServingCodec → List Installation → Option (List ℕ) × List Served → Option (List ℕ) × List Served
install_all c [] w = w
install_all c (i ∷ is) (file, log) =
    let (next, r) = installation c i file in install_all c is (next, add_served i.proposal r log)

abbrev pub NeverBack : List Served → Type 0
NeverBack [] = Unit {0}
NeverBack (v ∷ vs) = All (λ u. Next (some u) v) vs × NeverBack vs

abbrev Bound : Option Served → Served → Type 0
Bound none u = ⊥
Bound (some v) u = Next (some u) v

-- What holds between two installations.
record IsKept (c : ServingCodec) (w : Option (List ℕ) × List Served) : Type 0 where
  last : Option Served
  remembered : Remembers c last w.0
  bounded : All (Bound last) w.1
  ordered : NeverBack w.1

Next-trans : (u v w : Served) → Next (some u) v → Next (some v) w → Next (some u) w
Next-trans u v w (inl h) (inl k) = inl (omega (arith, h, k))
Next-trans u v w (inl h) (inr (k, b)) = inl (omega (arith, h, k))
Next-trans u v w (inr (h, b)) (inl k) = inl (omega (arith, h, k))
Next-trans u v w (inr (h, b)) (inr (k, c)) = inr (h ∙ k, b ∙ c)

rebound :
    (last : Option Served) (v : Served) (log : List Served)
    → Next last v
    → All (Bound last) log
    → All (Bound (some v)) log
rebound last v [] n b = tt
rebound none v (u ∷ log) n b = absurd b.0
rebound (some l) v (u ∷ log) n b = (Next-trans u l v b.0 n, rebound (some l) v log n b.1)

moved :
    (last now : Option Served) (log : List Served)
    → (now ≡ last) ⊎ ((v : Served) × (now ≡ some v) × Next last v)
    → All (Bound last) log
    → All (Bound now) log
moved last now log (inl e) b = subst (λ o. All (Bound o) log) (sym e) b
moved last now log (inr (v, e, n)) b =
    subst (λ o. All (Bound o) log) (sym e) (rebound last v log n b)

add-IsKept :
    (c : ServingCodec) (p : Proposal) (last : Option Served) (file : Option (List ℕ))
    (r : Result ServingError (Unit {0})) (log : List Served)
    → Installed c last p (file, r)
    → All (Bound last) log
    → NeverBack log
    → IsKept c (file, add_served p r log)
unfolding add_served
add-IsKept c p last file (err e) log (now, (m, (s, k))) b o = record {
  last = now;
  remembered = m;
  bounded = moved last now log s b;
  ordered = o;
}
add-IsKept c p last file (ok _) log (now, (m, (s, k))) b o =
    let (epoch, (a, e)) = k refl in
    let v : Served = served epoch p.body_id_of in
    let b' : All (Bound (some v)) log = subst (λ x. All (Bound x) log) e (moved last now log s b) in
    rw (a, add_served)
      (record {
        last = some v;
        remembered = subst (λ x. Remembers c x file) e m;
        bounded = (inr (refl, refl), b');
        ordered = (b', o);
      })

module _ (c : ServingCodec) (laws : IsServingCodec c) where
  install_all-IsKept :
      (is : List Installation) (w : Option (List ℕ) × List Served)
      → IsKept c w
      → IsKept c (install_all c is w)
  unfolding install_all installation
  install_all-IsKept [] w v = v
  install_all-IsKept (i ∷ is) (file, log) v =
      let d : Disk = record { locked = i.lock_held; file = file } in
      let out : Option (List ℕ) × Result ServingError (Unit {0}) =
        record_served_consensus c i.makes i.readable i.how i.proposal d in
      install_all-IsKept is (out.0, add_served i.proposal out.1 log)
        (add-IsKept c i.proposal v.last out.0 out.1 log
          (record_served-Installed c laws i.makes i.readable i.how i.proposal v.last d v.remembered)
          v.bounded v.ordered)

  -- Over any sequence of installations that begins without a state file, with writes that fail
  -- before or after the rename, each document served is of a later epoch than every one served
  -- before it, or the same document again.
  pub served-NeverBack : (is : List Installation) → NeverBack (install_all c is (none, [])).1
  served-NeverBack is = (install_all-IsKept is (none, []) start).ordered
    where
      start : IsKept c (none, [])
      start = record { last = none; remembered = refl; bounded = tt; ordered = tt }
