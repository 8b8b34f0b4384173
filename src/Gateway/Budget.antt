-- ===== src/Gateway/Budget.antt =====
-- internal/gateway/budget.go: the durable aggregate budget. The database is the bytes stored
-- under the one key, [] where the key is absent; bbolt's serialized transactions are the calls'
-- order, and whether one can commit is an input. Times are nanoseconds since 1970.
use osanwe.Prelude.{
  ℕ, ◌+◌, ◌-◌, ◌*◌, ◌/◌, ◌%◌, Bool, true, false, ◌&&◌, ◌||◌, ltb, leb, ◌==◌, if◌then◌else◌, not,
  List, [], ◌∷◌, ◌++◌, length, take, drop,
}
use osanwe.Prelude.Bytes.{put_be, get_be}
use osanwe.Prelude.Go.{ℤ, pos, negsuc, Result, ok, err, ◌>>=◌, max_u64, add64, sub64}
pub mod Record
pub mod Decisions
pub mod Calls
pub mod Accounts
pub mod History
pub mod Undo
pub mod Multi
pub mod Shared
pub mod Open
mod Tests

pub data BudgetError : Type 0 where
  path_required window_out_of_range needs_positive_sizes needs_positive_cost : BudgetError
  context_done transaction_failed corrupt_record cost_counter_overflow counters_too_small :
      BudgetError
  multi_not_configured multi_needs_ceiling : BudgetError
  budget_limit : ℕ → BudgetError

pub record BudgetRequest : Type 0 where
  pub input_bytes : ℤ
  pub max_output_tokens : ℤ
  pub cost_micros : ℕ

-- The settings of a FileBudget; `window` in nanoseconds.
pub record FileBudget : Type 0 where
  pub window : ℕ
  pub max_requests : ℕ
  pub max_input_bytes : ℕ
  pub max_output_tokens : ℕ
  pub max_cost_micros : ℕ

-- What one call sees of its surroundings: the clock, whether the context has ended before the
-- transaction or inside it, and whether bbolt commits.
pub record Call : Type 0 where
  pub now : ℕ
  pub done_before : Bool
  pub done_inside : Bool
  pub commits : Bool

abbrev pub second : ℕ
second = 1000000000

-- The stored counters. `window_start` is the int64 as its 64-bit pattern.
pub record Counters : Type 0 where
  pub window_start : ℕ
  pub requests : ℕ
  pub used_input_bytes : ℕ
  pub used_output_tokens : ℕ
  pub used_cost_micros : ℕ

pub encode_budget : Counters → List ℕ
encode_budget c =
    put_be 8 c.window_start
    ++ (put_be 8 c.requests
        ++ (put_be 8 c.used_input_bytes
            ++ (put_be 8 c.used_output_tokens ++ put_be 8 c.used_cost_micros)))

abbrev pub no_counters : Counters
no_counters = record {
  window_start = 0;
  requests = 0;
  used_input_bytes = 0;
  used_output_tokens = 0;
  used_cost_micros = 0;
}

-- data[at:at+8] as a word.
word_at : ℕ → List ℕ → ℕ
word_at at bytes = get_be (take 8 (drop at bytes))

pub decode_budget : List ℕ → Result BudgetError Counters
unfolding word_at
decode_budget bytes =
    if length bytes == 0
    then ok no_counters
    else if not (length bytes == 32) && not (length bytes == 40)
    then err corrupt_record
    else ok (record {
      window_start = word_at 0 bytes;
      requests = word_at 8 bytes;
      used_input_bytes = word_at 16 bytes;
      used_output_tokens = word_at 24 bytes;
      used_cost_micros = if length bytes == 40 then word_at 32 bytes else 0;
    })

-- (*FileBudget).bounds: the start of the window in Unix seconds, and its end in nanoseconds.
pub window_start_of : FileBudget → ℕ → ℕ
window_start_of b now = let seconds = b.window / second in now / second / seconds * seconds

pub window_end_of : FileBudget → ℕ → ℕ
window_end_of b now = window_start_of b now * second + b.window

-- uint64(n) of an int.
abbrev pub to_u64 : ℤ → ℕ
to_u64 (pos n) = n % 18446744073709551616
to_u64 (negsuc n) = 18446744073709551615 - n % 18446744073709551616

abbrev pub is_positive : ℤ → Bool
is_positive (pos n) = ltb 0 n
is_positive (negsuc n) = false

pub record Reservation : Type 0 where
  pub held_start : ℕ
  pub held_input_bytes : ℕ
  pub held_output_tokens : ℕ
  pub held_cost_micros : ℕ
  pub released : Bool

-- db.Update: an error of the body or of the commit rolls the transaction back.
abbrev pub update :
    Bool → List ℕ → Result BudgetError (List ℕ) → List ℕ × Result BudgetError (Unit {0})
update commits db (err e) = (db, err e)
update commits db (ok stored) = if commits then (stored, ok tt) else (db, err transaction_failed)

-- The counters that count in the window that begins at `start`.
pub current : ℕ → Counters → Counters
current start c = if c.window_start == start then c else record no_counters { window_start = start }

-- One ceiling on what is used and asked for together. The subtraction is read only where the
-- amount asked for is within the ceiling.
pub over : ℕ → ℕ → ℕ → Bool
over ceiling used asked = ltb ceiling asked || ltb (ceiling - asked) used

pub over_limits : FileBudget → Counters → ℕ → ℕ → ℕ → Bool
over_limits b c input tokens cost =
    leb b.max_requests c.requests
    || (over b.max_input_bytes c.used_input_bytes input
        || (over b.max_output_tokens c.used_output_tokens tokens
            || (ltb 0 b.max_cost_micros && over b.max_cost_micros c.used_cost_micros cost)))

pub charge : Counters → ℕ → ℕ → ℕ → Counters
charge c input tokens cost = record c {
  requests = add64 c.requests 1;
  used_input_bytes = add64 c.used_input_bytes input;
  used_output_tokens = add64 c.used_output_tokens tokens;
  used_cost_micros = add64 c.used_cost_micros cost;
}

-- The decision of Reserve's transaction on the counters in force.
pub decide_reserve : FileBudget → ℕ → Counters → ℕ → ℕ → ℕ → Result BudgetError Counters
unfolding over_limits charge
decide_reserve b end c input tokens cost =
    if ltb (max_u64 - c.used_cost_micros) cost
    then err cost_counter_overflow
    else if over_limits b c input tokens cost
    then err (budget_limit end)
    else ok (charge c input tokens cost)

-- The body of Reserve's transaction.
pub reserve_tx : FileBudget → Call → List ℕ → ℕ → ℕ → ℕ → Result BudgetError (List ℕ)
reserve_tx b call db input tokens cost = if call.done_inside then err context_done else do
  stored ← decode_budget db
  charged ←
      decide_reserve b (window_end_of b call.now) (current (window_start_of b call.now) stored)
        input tokens cost
  ok (encode_budget charged)

abbrev pub reservation_of : ℕ → ℕ → ℕ → ℕ → Reservation
reservation_of start input tokens cost = record {
  held_start = start;
  held_input_bytes = input;
  held_output_tokens = tokens;
  held_cost_micros = cost;
  released = false;
}

-- `(reservation, err)` once the transaction is over.
pub hand_out :
    ℕ → ℕ → ℕ → ℕ → List ℕ × Result BudgetError (Unit {0}) → List ℕ × Result BudgetError Reservation
hand_out start input tokens cost (db, err e) = (db, err e)
hand_out start input tokens cost (db, ok _) = (db, ok (reservation_of start input tokens cost))

pub reserve : FileBudget → Call → BudgetRequest → List ℕ → List ℕ × Result BudgetError Reservation
unfolding hand_out
reserve b call req db =
    if not (is_positive req.input_bytes) || not (is_positive req.max_output_tokens)
    then (db, err needs_positive_sizes)
    else if ltb 0 b.max_cost_micros && req.cost_micros == 0
    then (db, err needs_positive_cost)
    else if call.done_before
    then (db, err context_done)
    else hand_out (window_start_of b call.now) (to_u64 req.input_bytes)
        (to_u64 req.max_output_tokens) req.cost_micros
        (update call.commits db (
          reserve_tx b call db (to_u64 req.input_bytes) (to_u64 req.max_output_tokens)
            req.cost_micros))

-- The decision of Release's transaction on the counters that it reads.
pub decide_release : Reservation → List ℕ → Counters → Result BudgetError (List ℕ)
decide_release r db c =
    if not (c.window_start == r.held_start)
    then ok db
    else if c.requests == 0
        || (ltb c.used_input_bytes r.held_input_bytes
            || (ltb c.used_output_tokens r.held_output_tokens
                || ltb c.used_cost_micros r.held_cost_micros))
    then err counters_too_small
    else ok (
        encode_budget (record c {
          requests = c.requests - 1;
          used_input_bytes = c.used_input_bytes - r.held_input_bytes;
          used_output_tokens = c.used_output_tokens - r.held_output_tokens;
          used_cost_micros = c.used_cost_micros - r.held_cost_micros;
        }))

-- `if err == nil { r.released = true }`
pub mark :
    Reservation
    → List ℕ × Result BudgetError (Unit {0})
    → List ℕ × Reservation × Result BudgetError (Unit {0})
mark r (db, err e) = (db, r, err e)
mark r (db, ok _) = (db, record r { released = true }, ok tt)

pub release : Call → Reservation → List ℕ → List ℕ × Reservation × Result BudgetError (Unit {0})
unfolding mark
release call r db =
    if r.released
    then (db, r, ok tt)
    else if call.done_before
    then (db, r, err context_done)
    else mark r (update call.commits db (decode_budget db >>= decide_release r db))

-- (*FileBudget).Usage: the counters of the current window.
pub usage : FileBudget → ℕ → List ℕ → Result BudgetError Counters
usage b now db = do stored ← decode_budget db; ok (current (window_start_of b now) stored)
