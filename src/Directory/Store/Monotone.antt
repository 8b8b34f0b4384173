-- ===== src/Directory/Store/Monotone.antt =====
-- An authority never rolls a relay back.
use osanwe.Prelude.{
  ℕ, ◌≤◌, ◌<◌, ◌≡◌, refl, sym, ap, subst, ◌∙◌, Bool, true, Option, some, List, [], ◌∷◌, All, ltb,
  if◌then◌else◌, arith, Bool-cases, inl, inr, ltb→lt, ◌⊎◌, not,
}
use osanwe.Prelude.Go.{Result, ok, bind-ok, Result-cases}
use osanwe.Prelude.Table.{find, put, find-put}
use osanwe.Prelude.Text.{bytes_eq, eq_of_bytes_eq, bytes_eq_refl}
use osanwe.Directory.{
  DirectoryError, Libraries, check, checked, not_accepted, expired_descriptor, stale_descriptor,
}
use osanwe.Directory.Descriptor.{Descriptor, expired}
use osanwe.Directory.Descriptor.Parse.{parse_descriptor}
use osanwe.Directory.Store.{
  AcceptList, Disk, accepts, to_second, file_for, against_stored, against_file, check_put, written,
  put_descriptor,
}

-- One call of Put.
pub record Submission : Type 0 where
  pub accepted : Option AcceptList
  pub descriptor : Descriptor
  pub bytes : List ℕ
  pub now : ℕ
  pub reads : Bool
  pub writes : Bool

module _ (lib : Libraries) (sha256 : List ℕ → List ℕ) where
  -- The bytes encode the descriptor.
  abbrev pub IsFaithful : Submission → Type 0
  IsFaithful s = parse_descriptor lib s.bytes ≡ ok s.descriptor

  -- A file that is there can be read.
  abbrev pub IsRead : Submission → Type 0
  IsRead s = s.reads ≡ true

  abbrev pub put_one : Submission → Disk → Disk × Result DirectoryError (Unit {0})
  put_one s disk =
      put_descriptor lib sha256 s.accepted s.descriptor s.bytes s.now s.reads s.writes disk

  unfoldable pub put_all : List Submission → Disk → Disk
  put_all [] disk = disk
  put_all (s ∷ submissions) disk = put_all submissions (put_one s disk).0

  -- The file holds a descriptor of this second or a later one.
  abbrev IsSince : ℕ → List ℕ → Disk → Type 0
  IsSince at name disk =
      (bytes : List ℕ) × (d : Descriptor) × (find name disk ≡ some bytes)
      × (parse_descriptor lib bytes ≡ ok d)
      × (at ≤ to_second d.published)

  -- A submission is put only behind what is stored.
  check_put-later :
      (s : Submission) (disk : Disk) (at : ℕ)
      → IsRead s
      → check_put lib sha256 s.accepted s.descriptor s.now s.reads disk ≡ ok tt
      → IsSince at (file_for lib sha256 s.descriptor.identity) disk
      → at < to_second s.descriptor.published
  unfolding check_put against_file against_stored
  check_put-later s disk at reads h (bytes, d, found, parsed, since) =
      let (_, _, h1) =
        bind-ok (check (accepts s.accepted s.descriptor.identity) not_accepted) _ h in
      let (_, _, h2) = bind-ok (check (not (expired s.descriptor s.now)) expired_descriptor) _ h1 in
      let looked : against_file lib sha256 true s.descriptor
            (find (file_for lib sha256 s.descriptor.identity) disk)
          ≡ ok tt =
        subst
          (λ b.
            against_file lib sha256 b s.descriptor
              (find (file_for lib sha256 s.descriptor.identity) disk)
            ≡ ok tt)
          reads h2 in
      let stored : against_stored lib sha256 s.descriptor (parse_descriptor lib bytes) ≡ ok tt =
        subst (λ o. against_file lib sha256 true s.descriptor o ≡ ok tt) found looked in
      let compared = subst (λ p. against_stored lib sha256 s.descriptor p ≡ ok tt) parsed stored in
      let newer = ltb (to_second d.published) (to_second s.descriptor.published) in
      let (_, fine, _) = bind-ok (check newer stale_descriptor) _ compared in
      omega (
        arith,
        since,
        ltb→lt (to_second d.published) (to_second s.descriptor.published)
            (checked newer stale_descriptor fine),
      )

  put_one-cases :
      (s : Submission) (disk : Disk)
      → ((put_one s disk).0 ≡ disk)
        ⊎ ((check_put lib sha256 s.accepted s.descriptor s.now s.reads disk ≡ ok tt)
            × ((put_one s disk).0 ≡ put (file_for lib sha256 s.descriptor.identity) s.bytes disk))
  unfolding put_descriptor written
  put_one-cases s disk =
      elim (Result-cases (check_put lib sha256 s.accepted s.descriptor s.now s.reads disk)) [
        | inr (e, h) ↦ inl (rw h refl)
        | inl (u, h) ↦ elim (Bool-cases s.writes) [
          | inl k ↦ inr (h, rw (h, k) refl)
          | inr k ↦ inl (rw (h, k) refl)
        ]
      ]

  put-IsSince :
      (s : Submission) (disk : Disk) (at : ℕ) (name : List ℕ)
      → IsFaithful s
      → bytes_eq (file_for lib sha256 s.descriptor.identity) name ≡ true
      → at ≤ to_second s.descriptor.published
      → IsSince at name (put (file_for lib sha256 s.descriptor.identity) s.bytes disk)
  put-IsSince s disk at name faithful same since = (
    s.bytes,
    s.descriptor,
    find-put (file_for lib sha256 s.descriptor.identity) name s.bytes disk
        ∙ ap (λ b. if b then some s.bytes else find name disk) same,
    faithful,
    since,
  )

  put_one-IsSince :
      (s : Submission) (disk : Disk) (at : ℕ) (name : List ℕ)
      → IsFaithful s
      → IsRead s
      → IsSince at name disk
      → IsSince at name (put_one s disk).0
  put_one-IsSince s disk at name faithful reads since = elim (put_one-cases s disk) [
    | inl same ↦ subst (IsSince at name) (sym same) since
    | inr (fine, puts) ↦
        subst (IsSince at name) (sym puts)
          (elim (Bool-cases (bytes_eq (file_for lib sha256 s.descriptor.identity) name)) [
            | inl e ↦
                let same : name ≡ file_for lib sha256 s.descriptor.identity =
                  sym (eq_of_bytes_eq (file_for lib sha256 s.descriptor.identity) name e) in
                put-IsSince s disk at name faithful e (
                  omega (
                    arith,
                    check_put-later s disk at reads fine
                        (subst (λ n. IsSince at n disk) same since),
                  ))
            | inr e ↦
                let (bytes, d, found, parsed, later) = since in
                (
                  bytes,
                  d,
                  find-put (file_for lib sha256 s.descriptor.identity) name s.bytes disk
                      ∙ (ap (λ b. if b then some s.bytes else find name disk) e ∙ found),
                  parsed,
                  later,
                )
          ])
  ]

  put_all-IsSince :
      (submissions : List Submission) (disk : Disk) (at : ℕ) (name : List ℕ)
      → All IsFaithful submissions
      → All IsRead submissions
      → IsSince at name disk
      → IsSince at name (put_all submissions disk)
  unfolding put_all
  put_all-IsSince [] disk at name faithful reads since = since
  put_all-IsSince (s ∷ submissions) disk at name faithful reads since =
      put_all-IsSince submissions _ at name faithful.1 reads.1
        (put_one-IsSince s disk at name faithful.0 reads.0 since)

  put_one-stored :
      (s : Submission) (disk : Disk)
      → (put_one s disk).1 ≡ ok tt
      → (check_put lib sha256 s.accepted s.descriptor s.now s.reads disk ≡ ok tt)
        × ((put_one s disk).0 ≡ put (file_for lib sha256 s.descriptor.identity) s.bytes disk)
  unfolding put_descriptor written
  put_one-stored s disk h =
      elim (Result-cases (check_put lib sha256 s.accepted s.descriptor s.now s.reads disk)) [
        | inr (e, k) ↦ absurd (ground (arith, h, k))
        | inl (u, k) ↦ elim (Bool-cases s.writes) [
          | inl l ↦ (k, rw (k, l) refl)
          | inr l ↦ absurd (ground (arith, h, k, l))
        ]
      ]

  -- Once a descriptor is stored, a descriptor under the same file name is stored later only if it
  -- was published in a later second, whatever submissions come between. The bytes that are
  -- submitted are taken to encode their descriptors, and a file that is there can be read by every
  -- later submission.
  pub put_never_back :
      (s t : Submission) (submissions : List Submission) (disk : Disk)
      → All IsFaithful (s ∷ submissions)
      → All IsRead (t ∷ submissions)
      → (put_one s disk).1 ≡ ok tt
      → file_for lib sha256 t.descriptor.identity ≡ file_for lib sha256 s.descriptor.identity
      → (put_one t (put_all submissions (put_one s disk).0)).1 ≡ ok tt
      → to_second s.descriptor.published < to_second t.descriptor.published
  put_never_back s t submissions disk faithful reads h same k =
      let name = file_for lib sha256 s.descriptor.identity in
      let (_, puts) = put_one-stored s disk h in
      let (fine, _) = put_one-stored t (put_all submissions (put_one s disk).0) k in
      let first : IsSince (to_second s.descriptor.published) name (put_one s disk).0 =
        subst (IsSince (to_second s.descriptor.published) name) (sym puts) (
          put-IsSince s disk (to_second s.descriptor.published) name faithful.0 (bytes_eq_refl name)
            (omega arith)) in
      check_put-later t (put_all submissions (put_one s disk).0) (to_second s.descriptor.published)
        reads.0 fine
        (subst
          (λ n.
            IsSince (to_second s.descriptor.published) n (put_all submissions (put_one s disk).0))
          (sym same)
          (put_all-IsSince submissions _ (to_second s.descriptor.published) name faithful.1 reads.1
            first))
