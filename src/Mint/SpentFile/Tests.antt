-- ===== src/Mint/SpentFile/Tests.antt =====
-- internal/mint/spentfile.go on a small journal of two processes.
use osanwe.Prelude.{
  ℕ, ◌≡◌, ◌≢◌, refl, inl, inr, true, List, [], ◌∷◌, ◌++◌, length, take, drop, take-drop, ap, ◌∙◌,
  none, some, arith, ◌≤◌,
}
use osanwe.Prelude.Bytes.{put_be}
use osanwe.Prelude.Go.{Result, ok}
use osanwe.Mint.Seen.{lookup}
use osanwe.Mint.Journal.{spent, retired, out_of_fuel, replay, encode_record, encode_payload, frame}
use osanwe.Mint.Journal.Records.{IsEntry}
use osanwe.Mint.Journal.Replay.{Entry, encode, encode_log, perform_log, replay-encode_log}
use osanwe.Mint.Journal.Torn.{torn_log, replay_ends, IsRefused}
use osanwe.Mint.SpentFile.{SpentError, Store, System, synced, spend_identified}
use osanwe.Mint.SpentFile.Tracking.{journal_of, Tracks}
use osanwe.Mint.SpentFile.Operations.{spent_entry}
use osanwe.Mint.SpentFile.Processes.{World, Reach, IsShared, after_call, here, next, spends}
use osanwe.Mint.SpentFile.Once.{Leaves, spend_once}
use osanwe.Mint.SpentFile.Working.{IsWorking, IsServing, of_log, spend_on_log, spend_refines}

abbrev key : List ℕ
key = 107 ∷ []

abbrev print : ℕ → List ℕ
print n =
    n ∷ 0 ∷ 0 ∷ 0 ∷ 0 ∷ 0 ∷ 0 ∷ 0 ∷ 0 ∷ 0 ∷ 0 ∷ 0 ∷ 0 ∷ 0 ∷ 0 ∷ 0 ∷ 0 ∷ 0 ∷ 0 ∷ 0 ∷ 0 ∷ 0 ∷ 0 ∷ 0
    ∷ 0 ∷ 0 ∷ 0 ∷ 0 ∷ 0 ∷ 0 ∷ 0 ∷ 0 ∷ []

abbrev working : System
working = record { lock_ok = true; paths_ok = true; still_ok = λ n. true; append = synced }

working-IsWorking : IsWorking working
working-IsWorking = record { locks = refl; paths = refl; stays = λ n. refl; writes = refl }

abbrev started : Store
started = record { is_open = true; offset = 15; seen = []; poison = none }

started-Tracks : (log : List Entry) → Tracks log started
unfolding perform_log encode_log
started-Tracks log = record {
  known = [];
  later = log;
  split = refl;
  at_known = refl;
  seen_known = refl;
}

started-IsServing : IsServing started
started-IsServing = record { opened = refl; clean = refl }

spent-IsEntry : (n : ℕ) → IsEntry spent key (print n)
spent-IsEntry n = record {
  key_some = omega arith;
  key_fits = omega arith;
  whole = refl;
  zero_if_retired = λ h. absurd (cc);
}

retired-IsEntry : IsEntry retired key (print 0)
retired-IsEntry = record {
  key_some = omega arith;
  key_fits = omega arith;
  whole = refl;
  zero_if_retired = λ h. refl;
}

abbrev one_log : List Entry
one_log = spent_entry key (print 7) ∷ []

one_log-size : length (encode_log one_log) ≤ 44
unfolding encode_log encode_record encode_payload frame put_be
one_log-size = omega arith

replay-encode_log_example : replay 44 (encode_log one_log) [] ≡ (perform_log one_log [], none)
replay-encode_log_example = replay-encode_log 44 one_log [] (spent-IsEntry 7, tt) one_log-size

replay_ends_example : (replay 2 (1 ∷ 2 ∷ []) []).1 ≢ some out_of_fuel
replay_ends_example = replay_ends 2 (1 ∷ 2 ∷ []) [] (omega arith)

abbrev second : Entry
second = spent_entry key (print 8)

-- The first ten bytes of a record, and the rest.
second-cut : take 10 (encode second) ≢ []
unfolding encode_record encode_payload frame put_be
second-cut h = cc

second-lost : drop 10 (encode second) ≢ []
unfolding encode_record encode_payload frame put_be
second-lost h = cc

torn_log_example : IsRefused (replay 100 (encode_log one_log ++ take 10 (encode second)) [])
torn_log_example =
    torn_log 100 one_log second (take 10 (encode second)) (drop 10 (encode second)) []
      (spent-IsEntry 7, tt) (spent-IsEntry 8) (take-drop 10 (encode second)) second-cut second-lost

spend_refines_example :
    spend_identified working key (print 8) (journal_of one_log []) started
    ≡ of_log started (spend_on_log key (print 8) one_log)
spend_refines_example =
    spend_refines working one_log started working-IsWorking started-IsServing (spent-IsEntry 7, tt)
      (started-Tracks one_log) key (print 8)

-- Two processes, of which the first redeems a token.
abbrev two : World
two = record { journal = journal_of [] []; stores = started ∷ started ∷ [] }

two-IsShared : IsShared [] two
two-IsShared = record {
  cut = [];
  bytes = refl;
  written = tt;
  tail = inl refl;
  views = (inr (started-Tracks []), (inr (started-Tracks []), tt));
}

on_empty : (spend_on_log key (print 7) []).1 ≡ ok tt
unfolding spend_on_log perform_log lookup
on_empty = refl

first_spend : (spend_identified working key (print 7) two.journal started).2 ≡ ok tt
first_spend =
    ap (λ (r : Store × List ℕ × Result SpentError (Unit {0})). r.2)
      (spend_refines working [] started working-IsWorking started-IsServing tt (started-Tracks [])
        key (print 7))
    ∙ on_empty

-- What a call of the first process leaves, and then one of the second.
abbrev redeemed : Store × List ℕ × Result SpentError (Unit {0})
redeemed = spend_identified working key (print 7) two.journal started

abbrev other : Store × List ℕ × Result SpentError (Unit {0})
other = spend_identified working key (print 8) redeemed.1 started

abbrev busy : World
busy = after_call (redeemed.0 ∷ []) [] other

between : Reach (Leaves (print 7) key) (after_call [] (started ∷ []) redeemed) busy
between = next here (
    spends (after_call [] (started ∷ []) redeemed) working key (print 8) (redeemed.0 ∷ []) started
      [] refl (spent-IsEntry 8)
      (record { no_refund = λ h. absurd (cc); no_retirement = λ h. absurd (cc) }))

spend_once_example : (spend_identified working key (print 7) busy.journal other.0).2 ≢ ok tt
spend_once_example =
    spend_once working working key key (print 7) [] started (started ∷ []) (redeemed.0 ∷ []) other.0
      [] two-IsShared refl (spent-IsEntry 7) first_spend between refl (spent-IsEntry 7)
