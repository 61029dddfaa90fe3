-- ===== src/Tasks.antt =====
-- host/task_scheduler.py: the runs of scheduled tasks. `run_task` is cut at its await: `begin_task`
-- before the agent runs, `end_task` after it. The statements of host/db.py on tasks and runs do not
-- fail here. `auto_paused` is the text of the notice with its number of failures.
pub mod After
pub mod Failing
pub mod Recovery
mod Tests
use Prim.Native.String.{String}
use evoclaw.Base.{
  ℕ, zero, suc, ◌+◌, ◌-◌, ◌*◌, Bool, true, false, not, ◌&&◌, ◌||◌, Option, none, some, List, [],
  ◌∷◌, ◌++◌, leb, ltb, if◌then◌else◌, ite, string_discrete,
}
use evoclaw.Base.Dict.{get}
use evoclaw.GroupQueue.{GroupQueue, enqueue_task}
use evoclaw.Schedule.{Python, compute_next_run}
use evoclaw.Db.{
  Database, Task, TaskRun, TaskStatus, active, paused, running, failed, Change, set_next_run,
  set_last_run, set_last_result, set_status, rows, is_running, get_due_tasks, update_task,
  log_task_run,
}

-- `_MAX_TASK_FAILURES`
abbrev pub max_task_failures : ℕ
max_task_failures = 5

-- What the agent returns: the keys `status`, `result` and `error`, which may be missing; a result
-- may also be `None`.
pub record AgentResult : Type 0 where
  pub status : Option String
  pub result : Option (Option String)
  pub error : Option String

pub data Outcome : Type 0 where
  returned : AgentResult → Outcome
  timed_out : Outcome
  raised : String → Outcome

-- `s[:n]`
unfoldable pub prefix : ℕ → String → String
prefix zero s = String.[]
prefix (suc n) String.[] = String.[]
prefix (suc n) (String.◌∷◌ c s) = String.◌∷◌ c (prefix n s)

-- `WHERE task_id = ?`
unfoldable pub runs_of : String → List TaskRun → List TaskRun
runs_of task_id [] = []
runs_of task_id (r ∷ runs) =
    let rest = runs_of task_id runs in ite (string_discrete r.task_id task_id) (r ∷ rest) rest

-- `ORDER BY run_at DESC`; of two rows with the same time SQLite gives the earlier one first.
unfoldable pub insert_run : TaskRun → List TaskRun → List TaskRun
insert_run r [] = r ∷ []
insert_run r (x ∷ runs) =
    let rest = insert_run r runs in if leb x.run_at r.run_at then r ∷ x ∷ runs else x ∷ rest

unfoldable pub order_runs : List TaskRun → List TaskRun
order_runs [] = []
order_runs (r ∷ runs) = insert_run r (order_runs runs)

-- `SELECT status`
unfoldable pub statuses : List TaskRun → List String
statuses [] = []
statuses (r ∷ runs) = r.status ∷ statuses runs

unfoldable pub statuses_of : String → List TaskRun → List String
statuses_of task_id runs = statuses (order_runs (runs_of task_id runs))

unfoldable pub is_failure : String → Bool
is_failure s = ite (string_discrete s "error") true (ite (string_discrete s "timeout") true false)

-- The failures at the head, among the first `left`.
unfoldable pub count_failures : ℕ → List String → ℕ
count_failures zero statuses = 0
count_failures (suc left) [] = 0
count_failures (suc left) (s ∷ statuses) =
    let rest = count_failures left statuses in if is_failure s then rest + 1 else 0

-- `_count_recent_failures`
unfoldable pub count_recent_failures : Database → String → ℕ
count_recent_failures db task_id =
    count_failures max_task_failures (statuses_of task_id db.task_run_logs)

-- The base of the next run: the scheduled time for an interval, else the start.
unfoldable pub last_run_base : Task → ℕ → ℕ
last_run_base t start =
    ite (string_discrete t.schedule_type "interval")
      (elim t.next_run [ none ↦ start | some n ↦ if ltb 0 n then n else start ]) start

unfoldable pub or_text : Option String → String → String
or_text none s = s
or_text (some t) s = t

-- `begin_task`: whether the agent is run.
unfoldable pub begin_task : Database → Task → Bool → ℕ → Database × Bool
begin_task db t group_found now =
    if group_found
    then (update_task db t.id (set_status running ∷ []), true)
    else (update_task db t.id (set_next_run (some (now + 3600000)) ∷ []), false)

unfoldable pub flat : Option (Option String) → Option String
flat none = none
flat (some r) = r

-- The first branch: the schedule is no valid one.
unfoldable pub pause_invalid : Database → Task → Database
pause_invalid db t = update_task db t.id (
    set_status paused
    ∷ set_next_run none
    ∷ set_last_result "Invalid schedule expression — task paused. Repair the schedule to resume."
    ∷ [])

module _ (auto_paused : ℕ → String) where
  -- The last two branches of the `finally` of `run_task`.
  unfoldable pub settle : Database → Task → Bool → Option ℕ → Database
  settle db t failed_run next =
      let failures = count_recent_failures db t.id in
      if failed_run && leb max_task_failures failures
      then update_task db t.id
          (set_status paused ∷ set_next_run next ∷ set_last_result (auto_paused failures) ∷ [])
      else update_task db t.id (set_status active ∷ set_next_run next ∷ [])

  unfoldable pub finish : Database → Task → Bool → Option ℕ → Database
  finish db t failed_run none =
      ite (string_discrete t.schedule_type "once") (settle db t failed_run none)
        (pause_invalid db t)
  finish db t failed_run (some n) = settle db t failed_run (some n)

module _ (py : Python) (cron : String → ℕ → Option ℕ) where
  unfoldable pub next_of : Task → ℕ → ℕ → Option ℕ
  next_of t start now =
      compute_next_run py cron t.schedule_type t.schedule_value (some (last_run_base t start)) now

  -- One row of `recover_stale_running_tasks`.
  unfoldable pub recover_task : ℕ → Database → Task → Database
  recover_task now db t =
      ite (string_discrete t.schedule_type "once")
        (update_task db t.id (
          set_status failed
          ∷ set_last_result
              "Interrupted by host restart — not retried to prevent duplicate execution"
          ∷ []))
        (update_task db t.id (
          set_status active
          ∷ set_next_run (compute_next_run py cron t.schedule_type t.schedule_value t.next_run now)
          ∷ []))

  -- The tasks among the rows that are `running`, in their order.
  unfoldable pub recover_rows : ℕ → Database → List Task → Database
  recover_rows now db [] = db
  recover_rows now db (t ∷ ts) =
      recover_rows now (if is_running t.status then recover_task now db t else db) ts

  unfoldable pub recover_stale_running_tasks : Database → ℕ → Database
  recover_stale_running_tasks db now = recover_rows now db (rows db.scheduled_tasks)

module _ (auto_paused : ℕ → String) (py : Python) (cron : String → ℕ → Option ℕ) where
  -- The `except` branches: a failure is logged.
  unfoldable pub end_failed : Database → Task → ℕ → ℕ → ℕ → String → String → Database
  end_failed db t start now duration status error =
      finish auto_paused (log_task_run db t.id start duration status none (some error)) t true
        (next_of py cron t start now)

  -- The run is in the log: its first 500 characters are stored.
  unfoldable pub end_done : Database → Task → ℕ → ℕ → String → Database
  end_done logged t start now text =
      finish auto_paused
        (update_task logged t.id (
          set_last_run start
          ∷ set_last_result (prefix 500 text)
          ∷ set_next_run (next_of py cron t start now)
          ∷ []))
        t false (next_of py cron t start now)

  -- A result of `None` has no first 500 characters: the update raises after the run was logged.
  unfoldable pub end_logged : Database → Task → ℕ → ℕ → Option (Option String) → Database
  end_logged logged t start now none = end_done logged t start now ""
  end_logged logged t start now (some (some text)) = end_done logged t start now text
  end_logged logged t start now (some none) =
      end_failed logged t start now 0 "error" "'NoneType' object is not subscriptable"

  unfoldable pub end_returned : Database → Task → ℕ → ℕ → AgentResult → Database
  end_returned db t start now r =
      end_logged
        (log_task_run db t.id start (now - start) (or_text r.status "error") (flat r.result)
          r.error)
        t start now r.result

  unfoldable pub end_task : Database → Task → ℕ → ℕ → Outcome → Database
  end_task db t start now (returned r) = end_returned db t start now r
  end_task db t start now timed_out =
      end_failed db t start now (now - start) "timeout" "Task timed out after 3600s"
  end_task db t start now (raised e) = end_failed db t start now 0 "error" e

-- One poll of the scheduler's loop: the due tasks go to the queue of their groups.
unfoldable pub enqueue_due : ℕ → GroupQueue → List Task → GroupQueue
enqueue_due max q [] = q
enqueue_due max q (t ∷ ts) =
    enqueue_due max (ite (string_discrete t.chat_jid "") q (enqueue_task max q t.chat_jid t.id)) ts

unfoldable pub poll : ℕ → Database → GroupQueue → ℕ → GroupQueue
poll max db q now = enqueue_due max q (get_due_tasks db now)
