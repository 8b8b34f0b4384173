-- ===== src/Pool.antt =====
-- internal/pool/pool.go: how the client chooses a relay and moves to another. A relay is a pointer
-- in the source: here a number, and the relays' fields are a heap, a function of it. Times and
-- durations are nanoseconds; the zero time is 0.
use osanwe.Prelude.{
  ℕ, zero, suc, ◌+◌, ◌-◌, ◌*◌, Bool, true, false, ◌&&◌, ◌||◌, not, ltb, leb, ◌==◌, if◌then◌else◌,
  List, [], ◌∷◌, ◌++◌, Option, none, some, any,
}
use osanwe.Mint.Seen.{bytes_eq}
use osanwe.Prelude.Go.{ℤ, pos, negsuc, Result, ok, err}
pub mod Backoff
pub mod Candidates
pub mod Dial
pub mod Refresh
pub mod Tests

abbrev pub min_backoff : ℕ
min_backoff = 15000000000

abbrev pub max_backoff : ℕ
max_backoff = 600000000000

-- What a dial of one relay came to: a connection, an error of the relay (a key mismatch or not),
-- or an error once the caller had given up. `at` is the clock when it ended.
pub data Answer : Type 0 where
  connects gives_up : Answer
  refuses : Bool → Answer

pub record Attempt : Type 0 where
  pub answer : Answer
  pub at : ℕ

-- The parts of a directory.Descriptor that are used.
pub record Descriptor : Type 0 where
  pub address : List ℕ
  pub pin : List ℕ

-- relay: one candidate and what was learned of it.
pub record Relay : Type 0 where
  pub desc : Descriptor
  pub fails : ℕ
  pub down_until : ℕ
  pub last_error : Option Answer

pub record Stats : Type 0 where
  pub refreshes : ℕ
  pub refresh_errors : ℕ
  pub failovers : ℕ
  pub dial_errors : ℕ
  pub key_mismatches : ℕ

-- Pool, with `valid_until` 0 where no consensus was installed. The relays below `fresh` are
-- allocated.
pub record Pool : Type 0 where
  pub heap : ℕ → Relay
  pub fresh : ℕ
  pub relays : List ℕ
  pub guard : Option ℕ
  pub guard_since : ℕ
  pub signed_by : ℕ
  pub valid_after : ℕ
  pub valid_until : ℕ
  pub stats : Stats
  pub refresh_failing : Bool

pub data PoolError : Type 0 where
  no_relays stale given_up all_failed none_usable none_for_destination fetch_failed : PoolError

-- The loop of backoff, from d and with i below fails for `rounds` more rounds.
doubled : ℕ → ℕ → ℕ
doubled zero d = d
doubled (suc rounds) d = let more = doubled rounds (d * 2) in if ltb d max_backoff then more else d

pub backoff : ℕ → ℕ
unfolding doubled
backoff fails =
    let d = doubled (fails - 1) min_backoff in if ltb max_backoff d then max_backoff else d

-- now.Sub(until)
abbrev pub elapsed : ℕ → ℕ → ℤ
elapsed now until = if ltb now until then negsuc (until - now - 1) else pos (now - until)

abbrev is_negative : ℤ → Bool
is_negative (pos n) = false
is_negative (negsuc n) = true

abbrev pub exceeds : ℤ → ℤ → Bool
exceeds (pos n) (pos m) = ltb m n
exceeds (pos n) (negsuc m) = true
exceeds (negsuc n) (pos m) = false
exceeds (negsuc n) (negsuc m) = ltb n m

-- (*Pool).tooStale; `max_stale` is the configured grace, negative for none.
pub too_stale : ℤ → ℕ → ℕ → Bool × ℤ
too_stale max_stale valid_until now =
    if valid_until == 0 || is_negative max_stale
    then (false, pos 0)
    else (exceeds (elapsed now valid_until) max_stale, elapsed now valid_until)

-- (*Pool).Staleness
pub staleness : ℤ → ℕ → Pool → ℤ × Bool
staleness max_stale now p =
    let (refusing, past) = too_stale max_stale p.valid_until now in
    (if is_negative past then pos 0 else past, refusing)

-- `!now.Before(r.downUntil)`
pub is_up : Pool → ℕ → ℕ → Bool
is_up p now r = not (ltb now (p.heap r).down_until)

abbrev pub is_guard : Option ℕ → ℕ → Bool
is_guard none r = false
is_guard (some g) r = g == r

-- The loop over the relays that are not the guard and not in backoff.
pub others : Pool → ℕ → List ℕ → List ℕ
others p now [] = []
others p now (r ∷ rs) =
    let rest = others p now rs in
    if is_guard p.guard r || not (is_up p now r) then rest else r ∷ rest

pub guard_first : Pool → ℕ → Option ℕ → List ℕ
guard_first p now none = []
guard_first p now (some g) = if is_up p now g then g ∷ [] else []

pub or_all : List ℕ → List ℕ → List ℕ
or_all relays [] = relays
or_all relays (r ∷ rs) = r ∷ rs

-- The body of candidates, over the listed relays.
pub choose : ℤ → ℕ → Pool → List ℕ → Result PoolError (List ℕ)
choose max_stale now p [] = err no_relays
choose max_stale now p (r ∷ rs) =
    if (too_stale max_stale p.valid_until now).0
    then err stale
    else ok (or_all (r ∷ rs) (guard_first p now p.guard ++ others p now (r ∷ rs)))

-- (*Pool).candidates
pub candidates : ℤ → ℕ → Pool → Result PoolError (List ℕ)
candidates max_stale now p = choose max_stale now p p.relays

-- `*r = x`
pub set_relay : (ℕ → Relay) → ℕ → Relay → ℕ → Relay
set_relay heap r x other = if r == other then x else heap other

-- (*Pool).succeed
pub succeed : ℕ → ℕ → Pool → Pool
succeed now r p =
    let cleared = record p {
      heap =
          set_relay p.heap r (record (p.heap r) { fails = 0; down_until = 0; last_error = none });
    } in
    elim p.guard [
      | none ↦ record cleared { guard = some r; guard_since = now }
      | some g ↦ if g == r then cleared else record cleared {
        guard = some r;
        guard_since = now;
        stats = record p.stats { failovers = p.stats.failovers + 1 };
      }
    ]

-- (*Pool).fail
pub fail : ℕ → Bool → ℕ → Pool → Pool
fail now mismatch r p =
    let fails = (p.heap r).fails + 1 in
    record p {
      heap = set_relay p.heap r (record (p.heap r) {
        fails = fails;
        down_until = now + backoff fails;
        last_error = some (refuses mismatch);
      });
      stats = record p.stats {
        dial_errors = p.stats.dial_errors + 1;
        key_mismatches = if mismatch then p.stats.key_mismatches + 1 else p.stats.key_mismatches;
      };
    }

-- The loop of DialContext over the candidates; `attempts n` is the n-th dial from here on.
pub dial_each : (ℕ → Attempt) → List ℕ → Pool → Pool × Result PoolError ℕ
dial_each attempts [] p = (p, err all_failed)
dial_each attempts (r ∷ rs) p = elim (attempts 0).answer [
  | connects ↦ (succeed (attempts 0).at r p, ok r)
  | gives_up ↦ (p, err given_up)
  | refuses mismatch ↦ dial_each (λ n. attempts (suc n)) rs (fail (attempts 0).at mismatch r p)
]

-- (*Pool).DialContext, with no other call in between.
pub dial_context : ℤ → ℕ → (ℕ → Attempt) → Pool → Pool × Result PoolError ℕ
dial_context max_stale now attempts p = elim (candidates max_stale now p) [
  | err e ↦ (p, err e)
  | ok rs ↦ dial_each attempts rs p
]

-- (*relay).key
pub key : Descriptor → List ℕ
key d = d.address ++ 124 ∷ d.pin

-- The map from keys to the relays held: where two share a key, the later one.
pub known_as : (ℕ → Relay) → List ℕ → List ℕ → Option ℕ
known_as heap k [] = none
known_as heap k (r ∷ rs) = elim (known_as heap k rs) [
  | some later ↦ some later
  | none ↦ if bytes_eq (key (heap r).desc) k then some r else none
]

-- What the loop of install has made: the heap, the next free relay, and the relays in use.
pub record Gathered : Type 0 where
  pub new_heap : ℕ → Relay
  pub new_fresh : ℕ
  pub next : List ℕ

abbrev pub untried : Descriptor → Relay
untried d = record { desc = d; fails = 0; down_until = 0; last_error = none }

-- One descriptor: the relay that is known under its key, a new one, or none where no dialer can be
-- built.
pub gather_one : Bool → Option ℕ → Descriptor → Gathered → Gathered
gather_one dialer (some old) d g = record g {
  new_heap = set_relay g.new_heap old (record (g.new_heap old) { desc = d });
  next = g.next ++ old ∷ [];
}
gather_one false none d g = g
gather_one true none d g = record {
  new_heap = set_relay g.new_heap g.new_fresh (untried d);
  new_fresh = g.new_fresh + 1;
  next = g.next ++ g.new_fresh ∷ [];
}

-- The loop of install. `p` is the pool before it, from which the map was made.
pub gather : Pool → (Descriptor → Bool) → List Descriptor → Gathered → Gathered
gather p dialer [] g = g
gather p dialer (d ∷ ds) g =
    gather p dialer ds (gather_one (dialer d) (known_as p.heap (key d) p.relays) d g)

pub contains : ℕ → List ℕ → Bool
contains g rs = any (λ r. r == g) rs

-- The end of install: the guard stays if it is still listed.
pub keep_listed : List ℕ → Pool → Pool
keep_listed next p = elim p.guard [
  | none ↦ p
  | some g ↦ if contains g next then p else record p { guard = none; guard_since = 0 }
]

pub installed : (List ℕ → List ℕ) → Gathered → Pool → Pool × Result PoolError (Unit {0})
installed shuffle g p = elim g.next [
  | [] ↦ (
    record p {
      stats = record p.stats { refresh_errors = p.stats.refresh_errors + 1 };
      refresh_failing = true;
    },
    err none_usable,
  )
  | r ∷ rs ↦ (
    keep_listed (shuffle (r ∷ rs)) (record p {
      heap = g.new_heap;
      fresh = g.new_fresh;
      relays = shuffle (r ∷ rs);
      stats = record p.stats { refreshes = p.stats.refreshes + 1 };
      refresh_failing = false;
    }),
    ok tt,
  )
]

-- (*Pool).install; `shuffle` is rand.Shuffle.
pub install :
    (Descriptor → Bool)
    → (List ℕ → List ℕ)
    → List Descriptor
    → Pool
    → Pool × Result PoolError (Unit {0})
install dialer shuffle descs p =
    installed shuffle
      (gather p dialer descs (record { new_heap = p.heap; new_fresh = p.fresh; next = [] })) p

-- What is used of a verified consensus; `usable` are its relays for the destination.
pub record Consensus : Type 0 where
  pub verified_by : ℕ
  pub starts : ℕ
  pub ends : ℕ
  pub usable : List Descriptor

abbrev pub failing : Pool → Pool
failing p = record p {
  stats = record p.stats { refresh_errors = p.stats.refresh_errors + 1 };
  refresh_failing = true;
}

-- (*Pool).Refresh, by what Fetcher.FetchNewer returned, with no other call in between.
pub refresh :
    (Descriptor → Bool)
    → (List ℕ → List ℕ)
    → Option Consensus
    → Pool
    → Pool × Result PoolError (Unit {0})
refresh dialer shuffle none p = (failing p, err fetch_failed)
refresh dialer shuffle (some c) p =
    let dated = record p {
      signed_by = c.verified_by;
      valid_after = c.starts;
      valid_until = c.ends;
    } in
    elim c.usable [
      | [] ↦ (failing dated, elim p.relays [ [] ↦ err none_for_destination | _ ∷ _ ↦ ok tt ])
      | d ∷ ds ↦ install dialer shuffle (d ∷ ds) dated
    ]
