-- ===== src/Mint/SpentFile/Outcomes.antt =====
-- internal/mint/spentfile.go: what Spend, Refund and Retire return and leave on disk, on every
-- branch, over a journal that is the bytes of a log and may end inside a record.
use mathlib.Core.List.{append-nil}
use osanwe.Prelude.{
  ℕ, ◌+◌, ◌<◌, ◌≡◌, ◌≢◌, refl, sym, ap, ◌∙◌, ◌⊎◌, inl, inr, Bool-cases, ltb, ltb→lt, ltb→le, List,
  [], ◌∷◌, ◌++◌, length, take, drop, length-append, length-drop, take-drop, take_all, nil_cases,
  none, Option-cases, arith,
}
use osanwe.Prelude.Go.{Result, err}
use osanwe.Mint.Seen.{Seen}
use osanwe.Mint.Journal.Replay.{Entry, IsWritten, encode, encode_log, perform_log, perform_entry}
use osanwe.Mint.SpentFile.{
  SpentError, append_failed, Store, Append, synced, failed_after, System, poisoned, verify_current,
  append_record, settle, mutate,
}
use osanwe.Mint.SpentFile.Tracking.{
  IsTail, journal_of, Tracks, caught_up, perform_log-append, encode_log-append,
}
use osanwe.Mint.SpentFile.Begin.{View, poisoned_for_good}

-- What an operation that may append `e` leaves: the journal of the same log, where `P` holds, or
-- of the log with `e`, where `Q` holds.
pub record Outcome {A : Type 0} (log : List Entry) (e : Entry) (P Q : Type 0)
    (out : Store × List ℕ × Result SpentError A) : Type 0 where
  pub log_after : List Entry
  pub cut_after : List ℕ
  pub bytes : out.1 ≡ journal_of log_after cut_after
  pub tail : IsTail cut_after
  pub view : View log_after out.0
  pub grown : ((log_after ≡ log) × P) ⊎ ((log_after ≡ log ++ e ∷ []) × Q)

abbrev pub IsRefusal : {A : Type 0} → Result SpentError A → Type 0
IsRefusal r = (x : SpentError) × (r ≡ err x)

abbrev pub one_more : List Entry → Entry → List Entry
one_more log e = log ++ e ∷ []

pub journal-more :
    (log : List Entry) (e : Entry) → journal_of log [] ++ encode e ≡ journal_of (one_more log e) []
unfolding encode_log
journal-more log e =
    rw
      (
        append-nil (encode_log log),
        encode_log-append log (e ∷ []),
        append-nil (encode e),
        append-nil (encode_log log ++ encode e),
      )
      refl

-- The store after a record that was written and synced.
Tracks-more :
    (log : List Entry) (e : Entry) (s : Store)
    → s.offset ≡ 15 + length (encode_log log) + length (encode e)
    → s.seen ≡ perform_entry e (perform_log log [])
    → Tracks (one_more log e) s
unfolding encode_log perform_log
Tracks-more log e s o m = record {
  known = one_more log e;
  later = [];
  split = sym (append-nil (one_more log e));
  at_known = omega (
    arith,
    o,
    ap length (encode_log-append log (e ∷ [])),
    length-append (encode_log log) (encode e ++ []),
    length-append (encode e) [],
  );
  seen_known = m ∙ sym (perform_log-append log (e ∷ []) []);
}

pub caught_up-Tracks : (log : List Entry) (s : Store) → Tracks log (caught_up log s)
caught_up-Tracks log s = record {
  known = log;
  later = [];
  split = sym (append-nil log);
  at_known = refl;
  seen_known = refl;
}

-- What is on disk after a write that failed behind `n` bytes of the record.
pub record Partly (log : List Entry) (e : Entry) (journal : List ℕ) : Type 0 where
  pub log_now : List Entry
  pub cut_now : List ℕ
  pub bytes_now : journal ≡ journal_of log_now cut_now
  pub tail_now : IsTail cut_now
  pub as_grown : (log_now ≡ log) ⊎ (log_now ≡ one_more log e)

length_nil : (xs : List ℕ) → xs ≡ [] → length xs ≡ 0
length_nil xs h = ap length h

part-Partly :
    (log : List Entry) (e : Entry) (n : ℕ)
    → IsWritten e
    → Partly log e (journal_of log [] ++ take n (encode e))
part-Partly log e n w = elim (Bool-cases (ltb n (length (encode e)))) [
  | inr all ↦ record {
    log_now = one_more log e;
    cut_now = [];
    bytes_now = rw (take_all n (encode e) (ltb→le _ _ all)) (journal-more log e);
    tail_now = inl refl;
    as_grown = inr refl;
  }
  | inl part ↦ record {
    log_now = log;
    cut_now = take n (encode e);
    bytes_now = rw (append-nil (encode_log log)) refl;
    tail_now = torn (ltb→lt _ _ part);
    as_grown = inl refl;
  }
]
  where
    torn : n < length (encode e) → IsTail (take n (encode e))
    torn h = elim (nil_cases (take n (encode e))) [
      | inl nothing ↦ inl nothing
      | inr some_left ↦ inr (record {
        entry = e;
        lost = drop n (encode e);
        whole = take-drop n (encode e);
        written = w;
        some_left = some_left;
        missing = λ z. omega (arith, length_nil (drop n (encode e)) z, length-drop n (encode e));
      })
    ]

-- What a mutation leaves: an answer without the record is a refusal.
abbrev pub Mutated :
    {A : Type 0} → List Entry → Entry → Store × List ℕ × Result SpentError A → Type 0
Mutated log e out = Outcome log e (IsRefusal out.2) (Unit {0}) out

-- A refusal after the record may be on disk: the store is poisoned.
refused-Outcome :
    {A : Type 0} (log : List Entry) (e : Entry) (s : Store) (journal : List ℕ) (x : SpentError)
    → Partly log e journal
    → s.poison ≢ none
    → Mutated {A = A} log e (s, journal, err x)
refused-Outcome log e s journal x p h = record {
  log_after = p.log_now;
  cut_after = p.cut_now;
  bytes = p.bytes_now;
  tail = p.tail_now;
  view = inl h;
  grown = elim p.as_grown [ inl same ↦ inl (same, (x, refl)) | inr more ↦ inr (more, tt) ];
}

module _ (os : System) (log : List Entry) (e : Entry) (w : IsWritten e) where
  nothing-Partly : Partly log e (journal_of log [])
  nothing-Partly = record {
    log_now = log;
    cut_now = [];
    bytes_now = refl;
    tail_now = inl refl;
    as_grown = inl refl;
  }

  whole-Partly : Partly log e (journal_of log [] ++ encode e)
  whole-Partly = record {
    log_now = one_more log e;
    cut_now = [];
    bytes_now = journal-more log e;
    tail_now = inl refl;
    as_grown = inr refl;
  }

  -- A record that is written and synced, the last check, and the effect.
  settle-Mutated :
      {A : Type 0} (effect : Seen → Seen) (value : A) (s : Store)
      → (effect (perform_log log []) ≡ perform_entry e (perform_log log []))
      → s.offset ≡ 15 + length (encode_log log) + length (encode e)
      → s.seen ≡ perform_log log []
      → Mutated log e (settle os effect value (s, journal_of log [] ++ encode e, none))
  unfolding settle
  settle-Mutated effect value s same o m =
      elim (Option-cases (verify_current os 2 (journal_of log [] ++ encode e) s)) [
        | inr (x, v) ↦
            rw (v, settle)
              (refused-Outcome log e (poisoned x s) (journal_of log [] ++ encode e) x whole-Partly
                (poisoned_for_good x s))
        | inl v ↦
            rw (v, settle)
              (record {
                log_after = one_more log e;
                cut_after = [];
                bytes = journal-more log e;
                tail = inl refl;
                view =
                    inr (
                      Tracks-more log e (record s { seen = effect s.seen }) o (ap effect m ∙ same));
                grown = inr (refl, tt);
              })
      ]

  append-Mutated :
      {A : Type 0} (effect : Seen → Seen) (value : A) (s : Store) (a : Append)
      → (effect (perform_log log []) ≡ perform_entry e (perform_log log []))
      → Mutated log e (
          settle os effect value (append_record a (encode e) (caught_up log s) (journal_of log [])))
  unfolding append_record settle
  append-Mutated effect value s synced same =
      settle-Mutated effect value
        (record (caught_up log s) { offset = 15 + length (encode_log log) + length (encode e) })
        same refl refl
  append-Mutated effect value s (failed_after n) same =
      refused-Outcome log e (poisoned append_failed (caught_up log s))
        (journal_of log [] ++ take n (encode e)) append_failed (part-Partly log e n w)
        (poisoned_for_good append_failed (caught_up log s))

  pub mutate-Mutated :
      {A : Type 0} (effect : Seen → Seen) (value : A) (s : Store)
      → (effect (perform_log log []) ≡ perform_entry e (perform_log log []))
      → Mutated log e (
          mutate os e.operation e.key e.fingerprint effect value
            (journal_of log [])
            (caught_up log s))
  unfolding mutate
  mutate-Mutated effect value s same =
      elim (Option-cases (verify_current os 1 (journal_of log []) (caught_up log s))) [
        | inr (x, v) ↦
            rw (v, mutate)
              (refused-Outcome log e (poisoned x (caught_up log s)) (journal_of log []) x
                nothing-Partly (poisoned_for_good x (caught_up log s)))
        | inl v ↦ rw (v, mutate) (append-Mutated effect value s os.append same)
      ]
