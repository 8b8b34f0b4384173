-- ===== src/Gateway/Budget/Open.antt =====
-- internal/gateway/budget.go: the settings that OpenFileBudget accepts, their defaults, and the
-- window that a time falls in.
use native.Mathlib.Nat.{div-add-mod', mod-lt}
use osanwe.Prelude.{
  ℕ, zero, suc, ◌+◌, ◌*◌, ◌/◌, ◌%◌, ◌^◌, ◌≤◌, ◌<◌, ◌≡◌, subst, Bool, ◌||◌, not, ltb, ◌==◌,
  if◌then◌else◌, arith, inl, inr,
}
use osanwe.Prelude.Go.{ℤ, pos, negsuc, Result, ok, err, ok_injective, Result-cases}
use osanwe.Gateway.Budget.{
  BudgetError, path_required, window_out_of_range, FileBudget, second, window_start_of,
  window_end_of,
}
use osanwe.Gateway.Budget.Decisions.{IsConfig}

-- FileBudgetConfig; `has_path` says that the path is more than white space.
pub record FileBudgetConfig : Type 0 where
  pub has_path : Bool
  pub asked_window : ℤ
  pub asked_requests : ℕ
  pub asked_input_bytes : ℕ
  pub asked_output_tokens : ℕ
  pub asked_cost_micros : ℕ

or_default : ℕ → ℕ → ℕ
or_default given default = if given == 0 then default else given

-- FileBudgetConfig.Check, and the window that it accepts.
unfoldable pub check_config : FileBudgetConfig → Result BudgetError ℕ
unfolding or_default
check_config c = if not c.has_path then err path_required else elim c.asked_window [
  | negsuc n ↦ err window_out_of_range
  | pos n ↦
      let window = or_default n 3600000000000 in
      if ltb window 60000000000 || (ltb 86400000000000 window || not (window % second == 0))
      then err window_out_of_range
      else ok window
]

settings : FileBudgetConfig → Result BudgetError ℕ → Result BudgetError FileBudget
unfolding or_default
settings c (err e) = err e
settings c (ok window) = ok (record {
  window = window;
  max_requests = or_default c.asked_requests 100;
  max_input_bytes = or_default c.asked_input_bytes 10485760;
  max_output_tokens = or_default c.asked_output_tokens 100000;
  max_cost_micros = c.asked_cost_micros;
})

-- The settings of OpenFileBudget.
unfoldable pub open_settings : FileBudgetConfig → Result BudgetError FileBudget
unfolding settings
open_settings c = settings c (check_config c)

-- The ceilings asked for are uint64 values.
pub record IsAsked (c : FileBudgetConfig) : Type 0 where
  pub requests_fit : c.asked_requests < 256 ^ 8
  pub input_fits : c.asked_input_bytes < 256 ^ 8
  pub output_fits : c.asked_output_tokens < 256 ^ 8
  pub cost_fits : c.asked_cost_micros < 256 ^ 8

check_config-window :
    (c : FileBudgetConfig) {window : ℕ}
    → check_config c ≡ ok window
    → (60000000000 ≤ window) × ((window ≤ 86400000000000) × (window % second ≡ 0))
unfolding check_config
check_config-window c h = ground arith

or_default-positive : (given default : ℕ) → 0 < default → 0 < or_default given default
unfolding or_default
or_default-positive given default h = ground arith

or_default-fits :
    (given default bound : ℕ) → given < bound → default < bound → or_default given default < bound
unfolding or_default
or_default-fits given default bound h k = ground arith

-- What the settings are to satisfy.
abbrev pub IsOpened : FileBudget → Type 0
IsOpened b =
    ((60000000000 ≤ b.window) × ((b.window ≤ 86400000000000) × (b.window % second ≡ 0)))
    × ((0 < b.max_requests) × ((0 < b.max_input_bytes) × ((0 < b.max_output_tokens) × IsConfig b)))

-- What is accepted is a whole number of seconds between a minute and a day; each of the three
-- provider-independent ceilings is positive, and all four are uint64 values if those asked for are.
pub open_settings-IsOpened :
    (c : FileBudgetConfig) (b : FileBudget) → IsAsked c → open_settings c ≡ ok b → IsOpened b
unfolding open_settings settings
open_settings-IsOpened c b f h = elim (Result-cases (check_config c)) [
  | inr (e, k) ↦ absurd (let q = rw k at h in cc)
  | inl (window, k) ↦ subst IsOpened (ok_injective (rw k at h)) (
    check_config-window c k,
    (
      or_default-positive c.asked_requests 100 (omega arith),
      (
        or_default-positive c.asked_input_bytes 10485760 (omega arith),
        (
          or_default-positive c.asked_output_tokens 100000 (omega arith),
          record {
            requests_fit =
                or_default-fits c.asked_requests 100 (256 ^ 8) f.requests_fit (omega arith);
            input_fits =
                or_default-fits c.asked_input_bytes 10485760 (256 ^ 8) f.input_fits (omega arith);
            output_fits =
                or_default-fits c.asked_output_tokens 100000 (256 ^ 8) f.output_fits (omega arith);
            cost_fits = f.cost_fits;
          },
        ),
      ),
    ),
  )
]

-- In whole seconds, a time lies in its window.
seconds-within : (s w : ℕ) → 0 < w → (s / w * w ≤ s) × (s < s / w * w + w)
seconds-within s zero h = absurd (omega (arith, h))
seconds-within s (suc w) h =
    let e = div-add-mod' s (suc w) in
    let l = mod-lt s {m = suc w} (omega arith) in (omega (arith, e), omega (arith, e, l))

-- A time lies in the window that is reported for it, where the window is a positive whole number of
-- seconds.
pub window-contains :
    (b : FileBudget) (now : ℕ)
    → 0 < b.window
    → b.window % second ≡ 0
    → (window_start_of b now * second ≤ now) × (now < window_end_of b now)
unfolding window_start_of window_end_of
window-contains b now h k =
    let (lo, hi) = seconds-within (now / second) (b.window / second) (omega (arith, h, k)) in
    (omega (arith, lo), omega (arith, hi, k))
