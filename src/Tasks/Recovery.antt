-- ===== src/Tasks/Recovery.antt =====
-- host/task_scheduler.py: the recovery at start-up leaves no task running.
use evoclaw.Base.{
  ℕ, String, Bool, true, false, ◌||◌, if◌then◌else◌, ◌≡◌, Option, some, List, [], ◌∷◌, All, ite,
  arith, string_discrete, Option-cases, Bool-cases, inl, inr,
}
use evoclaw.Base.Dict.{Dict, get}
use evoclaw.Schedule.{Python, compute_next_run}
use evoclaw.Db.{
  Database, Task, active, failed, set_status, set_next_run, set_last_result, apply_change,
  apply_changes, rows, is_running,
}
use evoclaw.Db.Rows.{find_task, change_found, find_task-update}
use evoclaw.Tasks.{recover_task, recover_rows, recover_stale_running_tasks}

-- Each task stands under its id.
abbrev pub Keyed : String × Task → Type 0
Keyed (k, t) = t.id ≡ k

-- A running task with this id is among the rows.
unfoldable pub waits : String → List Task → Bool
waits k [] = false
waits k (t ∷ ts) =
    let rest = waits k ts in ite (string_discrete t.id k) (is_running t.status || rest) rest

-- The running tasks are among the rows that are still to come.
abbrev AllWait : Database → List Task → Type 0
AllWait db ts =
    (k : String) (row : Task)
    → find_task db k ≡ some row
    → is_running row.status ≡ true
    → waits k ts ≡ true

rows-wait :
    (d : Dict Task) (k : String) (row : Task)
    → All Keyed d
    → get k d ≡ some row
    → is_running row.status ≡ true
    → waits k (rows d) ≡ true
unfolding get rows waits
rows-wait [] k row v e r = absurd (cc e)
rows-wait ((j, t) ∷ d) k row v e r =
    ground (arith, v, e, r, rows-wait d k row v.1, string_discrete j k, string_discrete t.id k)

module _ (py : Python) (cron : String → ℕ → Option ℕ) (now : ℕ) where
  -- What a recovered task becomes, and that the others stay.
  recovered_row : Task → Option Task → Option Task
  recovered_row t o =
      ite (string_discrete t.schedule_type "once")
        (change_found
          (set_status failed
            ∷ set_last_result
                "Interrupted by host restart — not retried to prevent duplicate execution"
            ∷ [])
          o)
        (change_found
          (set_status active
            ∷ set_next_run
                (compute_next_run py cron t.schedule_type t.schedule_value t.next_run now)
            ∷ [])
          o)

  find_task-recover :
      (db : Database) (t : Task) (k : String)
      → find_task (recover_task py cron now db t) k
        ≡ ite (string_discrete t.id k) (recovered_row t (find_task db k)) (find_task db k)
  unfolding recover_task recovered_row
  find_task-recover db t k = ground (
    arith,
    find_task-update db t.id k (
        set_status failed
        ∷ set_last_result "Interrupted by host restart — not retried to prevent duplicate execution"
        ∷ []),
    find_task-update db t.id k (
        set_status active
        ∷ set_next_run (compute_next_run py cron t.schedule_type t.schedule_value t.next_run now)
        ∷ []),
    string_discrete t.id k,
    string_discrete t.schedule_type "once",
  )

  recover-AllWait :
      (db : Database) (t : Task) (ts : List Task)
      → AllWait db (t ∷ ts)
      → AllWait (if is_running t.status then recover_task py cron now db t else db) ts
  unfolding waits recovered_row apply_changes apply_change is_running
  recover-AllWait db t ts v k row e r = elim (Bool-cases (is_running t.status)) [
    | inl up ↦ ground (
      arith,
      up,
      e,
      r,
      v k row,
      find_task-recover db t k,
      string_discrete t.id k,
      string_discrete t.schedule_type "once",
      Option-cases (find_task db k),
    )
    | inr down ↦ ground (arith, down, e, r, v k row, string_discrete t.id k)
  ]

  recover_rows-rest :
      (db : Database) (ts : List Task)
      → AllWait db ts
      → (k : String) (row : Task) → find_task (recover_rows py cron now db ts) k ≡ some row
      → is_running row.status ≡ false
  unfolding recover_rows waits
  recover_rows-rest db [] v k row e = elim (Bool-cases (is_running row.status)) [
    | inl up ↦ absurd (cc (v k row e up))
    | inr down ↦ down
  ]
  recover_rows-rest db (t ∷ ts) v k row e =
      let next = if is_running t.status then recover_task py cron now db t else db in
      recover_rows-rest next ts (recover-AllWait db t ts v) k row e

  -- In a table whose tasks stand under their ids: after the recovery at start-up no task is running.
  pub recover-rest :
      (db : Database) (k : String) (row : Task)
      → All Keyed db.scheduled_tasks
      → find_task (recover_stale_running_tasks py cron db now) k ≡ some row
      → is_running row.status ≡ false
  unfolding recover_stale_running_tasks
  recover-rest db k row keyed e =
      recover_rows-rest db (rows db.scheduled_tasks)
        (λ j r h up. rows-wait db.scheduled_tasks j r keyed h up) k row e
