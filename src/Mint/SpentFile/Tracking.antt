-- ===== src/Mint/SpentFile/Tracking.antt =====
-- internal/mint/spentfile.go: how a store's view relates to the journal that several processes
-- append to, and what refreshLocked makes of it.
use mathlib.Core.List.{append_assoc, append-nil}
use native.Mathlib.Nat.{le_refl}
use osanwe.Prelude.{
  ℕ, ◌+◌, ◌≡◌, ◌≢◌, refl, sym, ap, subst, ◌∙◌, ◌⊎◌, ==_iff, le→ltb, ne→eqb, List, [], ◌∷◌, ◌++◌,
  length, length-append, drop, drop-append, Option, none, some, arith, All, All-split, ne_nil,
  ℕ_discrete,
}
use osanwe.Prelude.Go.{ok}
use osanwe.Mint.Seen.{Seen}
use osanwe.Mint.Journal.{JournalError, file_header, replay}
use osanwe.Mint.Journal.Replay.{
  Entry, IsWritten, encode, encode_log, perform_log, perform_entry, length-encode,
  replay-encode_log,
}
use osanwe.Mint.Journal.Torn.{torn_log}
use osanwe.Mint.SpentFile.{SpentError, bad_journal, Store, refresh, read_to, unread}

pub encode_log-append :
    (xs ys : List Entry) → encode_log (xs ++ ys) ≡ encode_log xs ++ encode_log ys
unfolding encode_log
encode_log-append [] ys = refl
encode_log-append (e ∷ es) ys =
    ap (◌++◌ (encode e)) (encode_log-append es ys)
    ∙ sym (append_assoc (encode e) (encode_log es) (encode_log ys))

pub perform_log-append :
    (xs ys : List Entry) (seen : Seen)
    → perform_log (xs ++ ys) seen ≡ perform_log ys (perform_log xs seen)
unfolding perform_log
perform_log-append [] ys seen = refl
perform_log-append (e ∷ es) ys seen = perform_log-append es ys (perform_entry e seen)

-- A record without its end.
pub record IsTorn (cut : List ℕ) : Type 0 where
  pub entry : Entry
  pub lost : List ℕ
  pub whole : cut ++ lost ≡ encode entry
  pub written : IsWritten entry
  pub some_left : cut ≢ []
  pub missing : lost ≢ []

abbrev pub IsTail : List ℕ → Type 0
IsTail cut = (cut ≡ []) ⊎ IsTorn cut

-- The journal of a log that may have lost the end of its last record.
abbrev pub journal_of : List Entry → List ℕ → List ℕ
journal_of log cut = file_header ++ (encode_log log ++ cut)

-- The store has read the log's first entries, and holds what they leave.
pub record Tracks (log : List Entry) (s : Store) : Type 0 where
  pub known : List Entry
  pub later : List Entry
  pub split : log ≡ known ++ later
  pub at_known : s.offset ≡ 15 + length (encode_log known)
  pub seen_known : s.seen ≡ perform_log known []

-- The store that has read it all.
abbrev pub caught_up : List Entry → Store → Store
caught_up log s = record s { offset = 15 + length (encode_log log); seen = perform_log log [] }

empty_log : (log : List Entry) → All IsWritten log → length (encode_log log) ≡ 0 → log ≡ []
unfolding encode_log
empty_log [] w h = refl
empty_log (e ∷ es) w h =
    absurd (omega (arith, length-append (encode e) (encode_log es), length-encode e w.0))

empty_bytes : (xs : List ℕ) → length xs ≡ 0 → xs ≡ []
empty_bytes [] h = refl
empty_bytes (x ∷ xs) h = absurd (omega arith)

module _ (known later : List Entry) (cut : List ℕ) where
  behind : encode_log (known ++ later) ++ cut ≡ encode_log known ++ (encode_log later ++ cut)
  behind =
      rw (encode_log-append known later) (append_assoc (encode_log known) (encode_log later) cut)

  drop_known :
      drop (15 + length (encode_log known)) (journal_of (known ++ later) cut)
      ≡ encode_log later ++ cut
  drop_known =
      rw (behind, ← append_assoc file_header (encode_log known) (encode_log later ++ cut))
        (drop-append (15 + length (encode_log known)) (file_header ++ encode_log known)
          (encode_log later ++ cut) (omega arith))

  length_behind :
      length (journal_of (known ++ later) cut)
      ≡ 15 + length (encode_log known) + length (encode_log later) + length cut
  length_behind = omega (
    arith,
    ap length behind,
    length-append (encode_log known) (encode_log later ++ cut),
    length-append (encode_log later) cut,
  )

module _ (known later : List Entry) (cut : List ℕ) (s : Store)
    (at_known : s.offset ≡ 15 + length (encode_log known)) where
  abbrev whole : List ℕ
  whole = journal_of (known ++ later) cut

  unread_known : unread whole s ≡ ok (encode_log later ++ cut)
  unfolding unread
  unread_known =
      rw (ne→eqb s.offset 0 (omega (arith, at_known)), at_known, drop_known known later cut)

  -- Something is unread: the loop runs over it.
  refresh_behind :
      length (encode_log later ++ cut) ≢ 0
      → refresh whole s
        ≡ read_to whole s
            (replay (length (encode_log later ++ cut)) (encode_log later ++ cut) s.seen)
  unfolding refresh
  refresh_behind h =
      let n = length_behind known later cut in
      let m = length-append (encode_log later) cut in
      rw (
        le→ltb (length whole) s.offset (omega (arith, n, at_known)),
        ne→eqb (length whole) s.offset (λ e. h (omega (arith, n, m, at_known, e))),
        unread_known,
        read_to,
      )

  refresh_even : length (encode_log later ++ cut) ≡ 0 → refresh whole s ≡ (s, none)
  unfolding refresh
  refresh_even h =
      let n = length_behind known later cut in
      let m = length-append (encode_log later) cut in
      rw (
        le→ltb (length whole) s.offset (omega (arith, n, at_known)),
        (==_iff (length whole) s.offset).1 (omega (arith, n, m, at_known, h)),
      )

length-known :
    (known later : List Entry)
    → length (encode_log (known ++ later)) ≡ length (encode_log known) + length (encode_log later)
length-known known later =
    rw (encode_log-append known later) (length-append (encode_log known) (encode_log later))

-- A store that has read everything is caught up.
even_caught_up :
    (log : List Entry) (s : Store)
    → s.offset ≡ 15 + length (encode_log log)
    → s.seen ≡ perform_log log []
    → s ≡ caught_up log s
even_caught_up log s o m = λ i. record s { offset = o i; seen = m i }

pub read_to-all :
    (journal : List ℕ) (log : List Entry) (s : Store) {r : Seen × Option JournalError}
    → r ≡ (perform_log log [], none)
    → length journal ≡ 15 + length (encode_log log)
    → read_to journal s r ≡ (caught_up log s, none)
unfolding read_to
read_to-all journal log s e o =
    ap (read_to journal s) e ∙ λ i. (record s { offset = o i; seen = perform_log log [] }, none)

pub read_to-error :
    (journal : List ℕ) (s : Store) (r : Seen × Option JournalError) {e : JournalError}
    → r.1 ≡ some e
    → (read_to journal s r).1 ≡ some (bad_journal e)
unfolding read_to
read_to-error journal s (seen, none) h = cc
read_to-error journal s (seen, some e) h = cc

pub replay_later :
    (known later : List Entry) (s : Store)
    → All IsWritten later
    → s.seen ≡ perform_log known []
    → replay (length (encode_log later ++ [])) (encode_log later ++ []) s.seen
      ≡ (perform_log (known ++ later) [], none)
replay_later known later s w m =
    rw (append-nil (encode_log later), m, perform_log-append known later [])
      (replay-encode_log (length (encode_log later)) later (perform_log known []) w (le_refl _))

caught_up_at :
    (known later : List Entry) (s : Store)
    → All IsWritten later
    → s.offset ≡ 15 + length (encode_log known)
    → s.seen ≡ perform_log known []
    → refresh (journal_of (known ++ later) []) s ≡ (caught_up (known ++ later) s, none)
caught_up_at known later s w o m = elim (ℕ_discrete (length (encode_log later ++ [])) 0) [
  | yes nothing ↦
      let none_later : later ≡ [] =
        empty_log later w (omega (arith, ap length (append-nil (encode_log later)))) in
      refresh_even known later [] s o nothing
      ∙ ap (λ (t : Store). (t, none))
          (even_caught_up (known ++ later) s
            (omega (arith, o, length-known known later, ap length (append-nil (encode_log later))))
            (rw (none_later, append-nil known) m))
  | no more ↦
      refresh_behind known later [] s o more
      ∙ read_to-all (journal_of (known ++ later) []) (known ++ later) s
          (replay_later known later s w m)
          (omega (arith, ap length (append-nil (encode_log (known ++ later)))))
]

-- Reading what the others appended brings the store up to the whole log.
pub refresh_log :
    (log : List Entry) (s : Store)
    → All IsWritten log
    → Tracks log s
    → refresh (journal_of log []) s ≡ (caught_up log s, none)
refresh_log log s w t =
    subst (λ l. refresh (journal_of l []) s ≡ (caught_up l s, none)) (sym t.split)
      (caught_up_at t.known t.later s
        (All-split IsWritten t.known t.later (subst (All IsWritten) t.split w)).1 t.at_known
        t.seen_known)

torn_at :
    (known later : List Entry) (cut : List ℕ) (s : Store)
    → All IsWritten later
    → IsTorn cut
    → s.offset ≡ 15 + length (encode_log known)
    → (e : SpentError) × ((refresh (journal_of (known ++ later) cut) s).1 ≡ some e)
torn_at known later cut s w c o =
    let (e, r) =
      torn_log (length (encode_log later ++ cut)) later c.entry cut c.lost s.seen w c.written
        c.whole c.some_left c.missing in
    let some_more : length (encode_log later ++ cut) ≢ 0 =
      λ z. omega (arith, z, length-append (encode_log later) cut, ne_nil cut c.some_left) in
    (
      bad_journal e,
      rw (refresh_behind known later cut s o some_more)
          (read_to-error (journal_of (known ++ later) cut) s _ r),
    )

-- Where the last record lost its end, the refresh fails.
pub refresh_torn :
    (log : List Entry) (cut : List ℕ) (s : Store)
    → All IsWritten log
    → IsTorn cut
    → Tracks log s
    → (e : SpentError) × ((refresh (journal_of log cut) s).1 ≡ some e)
refresh_torn log cut s w c t =
    subst (λ l. (e : SpentError) × ((refresh (journal_of l cut) s).1 ≡ some e)) (sym t.split)
      (torn_at t.known t.later cut s
        (All-split IsWritten t.known t.later (subst (All IsWritten) t.split w)).1 c t.at_known)
