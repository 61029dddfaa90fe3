-- ===== src/Schedule/Catch.antt =====
-- host/task_scheduler.py: the next run of an interval is the first on its grid that lies ahead.
use evoclaw.Base.{
  ℕ, zero, suc, ◌+◌, ◌-◌, ◌*◌, ◌≤◌, ◌<◌, String, ◌≡◌, refl, ◌⊎◌, inl, inr, Option, some, leb, arith,
  Bool-cases, string_discrete, leb→le, leb→gt,
}
use evoclaw.Skills.{pos}
use evoclaw.Schedule.{Python, catch_up, base_of, next_from, next_interval, compute_next_run}

-- The loop ends at the first `next + k * ms` that lies ahead of `now`.
abbrev pub FirstAhead : ℕ → ℕ → ℕ → Option ℕ → Type 0
FirstAhead ms now next result =
    (r k : ℕ) × (result ≡ some r) × (r ≡ next + k * ms) × (now < r) × ((r ≡ next) ⊎ (r ≤ now + ms))

pub catch_up-FirstAhead :
    (fuel ms now next : ℕ)
    → 0 < ms
    → now + 1 - next < fuel
    → FirstAhead ms now next (catch_up fuel ms now next)
unfolding catch_up
catch_up-FirstAhead zero ms now next pos_ms enough = absurd (omega arith)
catch_up-FirstAhead (suc fuel) ms now next pos_ms enough = elim (Bool-cases (leb next now)) [
  | inl behind ↦
      let (r, k, e, on_grid, ahead, near) =
        catch_up-FirstAhead fuel ms now (next + ms) pos_ms
          (omega (arith, leb→le next now behind)) in
      (
        r,
        suc k,
        rw behind e,
        grind (arith, on_grid),
        ahead,
        inr (ground (arith, near, leb→le next now behind)),
      )
  | inr ahead ↦ (next, 0, rw ahead refl, omega arith, leb→gt next now ahead, inl refl)
]

-- For a schedule of every `n + 1` milliseconds, if the last run, or the clock if there was none, and one
-- interval sum up, as floats do, to a time: the next run is that time, or a whole number of intervals
-- after it; it lies ahead of now; and it is that time or no more than one interval ahead.
pub compute_next_run-interval :
    (py : Python) (cron : String → ℕ → Option ℕ) (value : String) (last_run : Option ℕ)
    (now n next : ℕ)
    → py.int value ≡ some (pos (suc n))
    → py.sum_ms (base_of last_run) (suc n) now ≡ some next
    → FirstAhead (suc n) now next (compute_next_run py cron "interval" value last_run now)
unfolding compute_next_run next_interval next_from string_discrete
compute_next_run-interval py cron value last_run now n next e sum =
    rw (e, next_interval, sum)
      (catch_up-FirstAhead (now + 2) (suc n) now next (omega arith) (omega arith))
