-- ===== src/Tasks/After.antt =====
-- host/task_scheduler.py: a task that has run is not due again at once, however its run ended.
use evoclaw.Base.{
  ℕ, zero, suc, ◌+◌, ◌<◌, String, Bool, true, false, ◌&&◌, leb, ◌≡◌, refl, Option, none, some, List,
  arith, string_discrete, if_pos, if_neg, Bool-cases, inl, inr,
}
use evoclaw.Skills.{ℤ, pos, negsuc}
use evoclaw.Schedule.{Python, compute_next_run, next_interval, next_from, base_of}
use evoclaw.Schedule.Catch.{catch_up-FirstAhead}
use evoclaw.Db.{
  Database, Task, Change, apply_change, apply_changes, update_task, log_task_run, is_due, is_active,
  is_running,
}
use evoclaw.Db.Rows.{find_task, find_task-update}
use evoclaw.Tasks.{
  Outcome, returned, timed_out, raised, settle, pause_invalid, finish, next_of, end_failed,
  end_done, end_logged, end_returned, end_task, last_run_base, count_recent_failures,
  max_task_failures,
}

-- There is no next run, or it lies ahead.
abbrev pub Ahead : ℕ → Option ℕ → Type 0
Ahead now none = Unit
Ahead now (some r) = now < r

-- croniter gives a time after the one it starts from.
abbrev pub CronAhead : (String → ℕ → Option ℕ) → Type 0
CronAhead cron = (value : String) (now : ℕ) → Ahead now (cron value now)

next_from-Ahead : (n now : ℕ) (next : Option ℕ) → Ahead now (next_from (suc n) now next)
unfolding next_from
next_from-Ahead n now none = tt
next_from-Ahead n now (some next) =
    let (r, k, e, _, ahead, _) =
      catch_up-FirstAhead (now + 2) (suc n) now next (omega arith) (omega arith) in
    rw e ahead

next_interval-Ahead :
    (py : Python) (i : Option ℤ) (last_run : Option ℕ) (now : ℕ)
    → Ahead now (next_interval py i last_run now)
unfolding next_interval
next_interval-Ahead py none last_run now = tt
next_interval-Ahead py (some (negsuc _)) last_run now = tt
next_interval-Ahead py (some (pos zero)) last_run now = tt
next_interval-Ahead py (some (pos (suc n))) last_run now =
    next_from-Ahead n now (py.sum_ms (base_of last_run) (suc n) now)

pub compute_next_run-Ahead :
    (py : Python) (cron : String → ℕ → Option ℕ) (type value : String) (last_run : Option ℕ)
    (now : ℕ)
    → CronAhead cron
    → Ahead now (compute_next_run py cron type value last_run now)
unfolding compute_next_run
compute_next_run-Ahead py cron type value last_run now later = elim (string_discrete type "once") [
  | yes e ↦ rw (if_pos _ e) tt
  | no n ↦ rw (if_neg _ n) (elim (string_discrete type "interval") [
    | yes e ↦ rw (if_pos _ e) (next_interval-Ahead py (py.int value) last_run now)
    | no n' ↦ rw (if_neg _ n') (elim (string_discrete type "cron") [
      | yes e ↦ rw (if_pos _ e) (later value now)
      | no n'' ↦ rw (if_neg _ n'') tt
    ])
  ])
]

-- The task is there, is not running, and is not due.
abbrev pub Rests : ℕ → Option Task → Type 0
Rests now none = ⊥
Rests now (some t) = (is_due now t ≡ false) × (is_running t.status ≡ false)

-- The row is there.
abbrev pub IsThere : Database → String → Type 0
IsThere db k = (row : Task) × (find_task db k ≡ some row)

Ahead-not_due :
    (now : ℕ) (next : Option ℕ)
    → Ahead now next
    → elim next [ none ↦ false | some n ↦ leb n now ] ≡ false
Ahead-not_due now none h = refl
Ahead-not_due now (some n) h = ground (arith, h)

update-Rests :
    (db : Database) (k : String) (changes : List Change) (now : ℕ)
    → IsThere db k
    → ((row : Task) → Rests now (some (apply_changes row changes)))
    → Rests now (find_task (update_task db k changes) k)
update-Rests db k changes now (row, e) rests =
    let written : find_task (update_task db k changes) k ≡ some (apply_changes row changes) =
      ground (arith, find_task-update db k k changes, e, string_discrete k k) in
    rw written (rests row)

pub update-IsThere :
    (db : Database) (k : String) (changes : List Change)
    → IsThere db k
    → IsThere (update_task db k changes) k
update-IsThere db k changes (row, e) = (
  apply_changes row changes,
  ground (arith, find_task-update db k k changes, e, string_discrete k k),
)

module _ (auto_paused : ℕ → String) where
  settle-Rests :
      (db : Database) (t : Task) (f : Bool) (next : Option ℕ) (now : ℕ)
      → IsThere db t.id
      → Ahead now next
      → Rests now (find_task (settle auto_paused db t f next) t.id)
  unfolding settle
  settle-Rests db t f next now there ahead =
      elim (Bool-cases (f && leb max_task_failures (count_recent_failures db t.id))) [
        | inl many ↦ rw many (
            update-Rests db t.id _ now there
              λ row. unfold apply_changes apply_change is_due is_active is_running in (refl, refl))
        | inr few ↦ rw few (
            update-Rests db t.id _ now there λ row.
              unfold apply_changes apply_change is_due is_active is_running in
              (ground (arith, Ahead-not_due now next ahead), refl))
      ]

  finish-Rests :
      (db : Database) (t : Task) (f : Bool) (next : Option ℕ) (now : ℕ)
      → IsThere db t.id
      → Ahead now next
      → Rests now (find_task (finish auto_paused db t f next) t.id)
  unfolding finish pause_invalid
  finish-Rests db t f none now there ahead = elim (string_discrete t.schedule_type "once") [
    | yes e ↦
        rw (if_pos _ e (settle auto_paused db t f none) (pause_invalid db t))
          (settle-Rests db t f none now there tt)
    | no n ↦ rw (if_neg _ n (settle auto_paused db t f none) (pause_invalid db t)) (
        update-Rests db t.id _ now there
          λ row. unfold apply_changes apply_change is_due is_active is_running in (refl, refl))
  ]
  finish-Rests db t f (some n) now there ahead = settle-Rests db t f (some n) now there ahead

  module _ (py : Python) (cron : String → ℕ → Option ℕ) (later : CronAhead cron) where
    next_of-Ahead : (t : Task) (start now : ℕ) → Ahead now (next_of py cron t start now)
    unfolding next_of
    next_of-Ahead t start now =
        compute_next_run-Ahead py cron t.schedule_type t.schedule_value
          (some (last_run_base t start)) now later

    end_failed-Rests :
        (db : Database) (t : Task) (start now duration : ℕ) (status error : String)
        → IsThere db t.id
        → Rests now
            (find_task (end_failed auto_paused py cron db t start now duration status error) t.id)
    unfolding end_failed log_task_run
    end_failed-Rests db t start now duration status error there =
        finish-Rests _ t true _ now there (next_of-Ahead t start now)

    end_done-Rests :
        (db : Database) (t : Task) (start now : ℕ) (text : String)
        → IsThere db t.id
        → Rests now (find_task (end_done auto_paused py cron db t start now text) t.id)
    unfolding end_done
    end_done-Rests db t start now text there =
        finish-Rests _ t false _ now (update-IsThere db t.id _ there) (next_of-Ahead t start now)

    end_logged-Rests :
        (db : Database) (t : Task) (start now : ℕ) (result : Option (Option String))
        → IsThere db t.id
        → Rests now (find_task (end_logged auto_paused py cron db t start now result) t.id)
    unfolding end_logged
    end_logged-Rests db t start now none there = end_done-Rests db t start now _ there
    end_logged-Rests db t start now (some (some text)) there =
        end_done-Rests db t start now text there
    end_logged-Rests db t start now (some none) there = end_failed-Rests db t start now _ _ _ there

    -- A task that has run is neither running nor due when its run ends, whether the agent returned
    -- anything, timed out or raised, if croniter only gives later times.
    pub end_task-Rests :
        (db : Database) (t : Task) (start now : ℕ) (o : Outcome)
        → IsThere db t.id
        → Rests now (find_task (end_task auto_paused py cron db t start now o) t.id)
    unfolding end_task end_returned log_task_run
    end_task-Rests db t start now (returned r) there = end_logged-Rests _ t start now r.result there
    end_task-Rests db t start now timed_out there = end_failed-Rests db t start now _ _ _ there
    end_task-Rests db t start now (raised e) there = end_failed-Rests db t start now _ _ _ there
