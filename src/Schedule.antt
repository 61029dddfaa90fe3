-- ===== src/Schedule.antt =====
-- When a task runs next: `compute_next_run` of host/task_scheduler.py, after a run, and
-- `_compute_next_run` of host/ipc_watcher.py, when a task is created or changed. Times are in
-- milliseconds; a time before the epoch is 0. Python's `int` on a text, the sum of floats,
-- `datetime.fromisoformat` and croniter are arguments.
pub mod Catch
use evoclaw.Base.{
  ℕ, zero, suc, ◌+◌, ◌-◌, String, Option, none, some, leb, ltb, if◌then◌else◌, ite, string_discrete,
}
use evoclaw.Skills.{ℤ, pos, negsuc}

-- `while next_ts <= now_ms: next_ts += ms`
unfoldable pub catch_up : ℕ → ℕ → ℕ → ℕ → Option ℕ
catch_up zero ms now next = none
catch_up (suc fuel) ms now next =
    let rest = catch_up fuel ms now (next + ms) in if leb next now then rest else some next

-- `int` on a text; and `int((base + ms / 1000) * 1000)` with the base `last_run / 1000` for a last run
-- in milliseconds, or the clock for `none`, which reads the given time. It has no value if it raises.
pub record Python : Type 0 where
  pub int : String → Option ℤ
  pub sum_ms : Option ℕ → ℕ → ℕ → Option ℕ

-- `if last_run`: the time 0 counts as none.
unfoldable pub base_of : Option ℕ → Option ℕ
base_of none = none
base_of (some last_run) = if ltb 0 last_run then some last_run else none

-- From the sum on; the loop has `now + 2` turns.
unfoldable pub next_from : ℕ → ℕ → Option ℕ → Option ℕ
next_from ms now none = none
next_from ms now (some next) = catch_up (now + 2) ms now next

module _ (py : Python) where
  -- The branch `interval` of `compute_next_run`.
  unfoldable pub next_interval : Option ℤ → Option ℕ → ℕ → Option ℕ
  next_interval none last_run now = none
  next_interval (some (negsuc _)) last_run now = none
  next_interval (some (pos zero)) last_run now = none
  next_interval (some (pos (suc n))) last_run now =
      next_from (suc n) now (py.sum_ms (base_of last_run) (suc n) now)

module _ (py : Python) (cron : String → ℕ → Option ℕ) where
  unfoldable pub compute_next_run : String → String → Option ℕ → ℕ → Option ℕ
  compute_next_run schedule_type schedule_value last_run now =
      ite (string_discrete schedule_type "once") none (
        ite (string_discrete schedule_type "interval")
          (next_interval py (py.int schedule_value) last_run now)
          (ite (string_discrete schedule_type "cron") (cron schedule_value now) none))

-- `now_ms + int(schedule_value)`
unfoldable pub add_interval : ℕ → Option ℤ → Option ℕ
add_interval now none = none
add_interval now (some (pos n)) = some (now + n)
add_interval now (some (negsuc n)) = some (now - suc n)

module _ (int : String → Option ℤ) (cron : String → ℕ → Option ℕ)
    (fromisoformat : String → Option ℕ) where
  -- `_compute_next_run` of the IPC watcher.
  unfoldable pub first_run : String → String → ℕ → Option ℕ
  first_run schedule_type schedule_value now =
      ite (string_discrete schedule_type "once") (fromisoformat schedule_value) (
        ite (string_discrete schedule_type "interval") (add_interval now (int schedule_value))
          (ite (string_discrete schedule_type "cron") (cron schedule_value now) none))
