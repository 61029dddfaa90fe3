-- ===== src/Tasks/Failing.antt =====
-- host/task_scheduler.py: when a task is paused for its failures.
use evoclaw.Base.{
  ℕ, zero, suc, ◌+◌, ◌-◌, min, String, Bool, true, false, ◌&&◌, leb, if◌then◌else◌, ◌≡◌, refl,
  Option, none, some, List, [], ◌∷◌, ◌++◌, All, ◌<◌, sym, ap, ◌∙◌, arith, string_discrete,
  Option-cases, Bool-cases, inl, inr,
}
use evoclaw.Schedule.{Python}
use evoclaw.Db.{
  Database, Task, TaskRun, TaskStatus, active, paused, set_status, set_next_run, set_last_result,
  apply_change, apply_changes, log_task_run,
}
use evoclaw.Db.Rows.{find_task, find_task-update}
use evoclaw.Tasks.{
  Outcome, returned, timed_out, raised, AgentResult, settle, finish, next_of, end_failed, end_done,
  end_logged, end_returned, end_task, count_recent_failures, count_failures, runs_of, insert_run,
  order_runs, statuses, statuses_of, is_failure, or_text, flat, max_task_failures,
}
use evoclaw.Tasks.After.{IsThere, update-IsThere}

-- The run started before the time.
abbrev pub Before : ℕ → TaskRun → Type 0
Before at r = r.run_at < at

runs_of-snoc :
    (k : String) (runs : List TaskRun) (r : TaskRun)
    → r.task_id ≡ k
    → runs_of k (runs ++ r ∷ []) ≡ runs_of k runs ++ r ∷ []
unfolding runs_of
runs_of-snoc k [] r e = ground (arith, e, string_discrete r.task_id k)
runs_of-snoc k (x ∷ runs) r e = ground (arith, runs_of-snoc k runs r e, string_discrete x.task_id k)

-- Rows that come last in the log, and started latest, come first in the order.
insert_run-late :
    (x : TaskRun) (late runs : List TaskRun)
    → All (λ r. x.run_at < r.run_at) late
    → insert_run x (late ++ runs) ≡ late ++ insert_run x runs
unfolding insert_run
insert_run-late x [] runs h = refl
insert_run-late x (r ∷ late) runs (here, later) =
    ground (arith, here, insert_run-late x late runs later)

All-map :
    (P Q : TaskRun → Type 0) (runs : List TaskRun)
    → ((r : TaskRun) → P r → Q r)
    → All P runs
    → All Q runs
All-map P Q [] h a = tt
All-map P Q (r ∷ runs) h (here, later) = (h r here, All-map P Q runs h later)

order_runs-late :
    (at : ℕ) (runs late : List TaskRun)
    → All (Before at) runs
    → All (λ r. r.run_at ≡ at) late
    → order_runs late ≡ late
    → order_runs (runs ++ late) ≡ late ++ order_runs runs
unfolding order_runs
order_runs-late at [] late a l e = e ∙ sym (append_nil late)
  where
    append_nil : (xs : List TaskRun) → xs ++ [] ≡ xs
    append_nil [] = refl
    append_nil (x ∷ xs) = ap (λ r. x ∷ r) (append_nil xs)
order_runs-late at (x ∷ runs) late (here, later) l e =
    ap (insert_run x) (order_runs-late at runs late later l e)
    ∙ insert_run-late x late (order_runs runs) (
        All-map (λ r. r.run_at ≡ at) (λ r. x.run_at < r.run_at) late
          (λ r same. omega (arith, here, same)) l)

-- The failures since the last run that did not fail.
unfoldable pub streak : List String → ℕ
streak [] = 0
streak (s ∷ statuses) = let rest = streak statuses in if is_failure s then rest + 1 else 0

count_failures-streak :
    (n : ℕ) (statuses : List String) → count_failures n statuses ≡ min n (streak statuses)
unfolding count_failures streak
count_failures-streak zero statuses = omega arith
count_failures-streak (suc n) [] = omega arith
count_failures-streak (suc n) (s ∷ statuses) = ground (arith, count_failures-streak n statuses)

-- The failures of a task since its last run that did not fail.
abbrev pub streak_of : Database → String → ℕ
streak_of db k = streak (statuses_of k db.task_run_logs)

-- How a run with a valid schedule ends.
unfoldable pub verdict : Outcome → ℕ → TaskStatus
verdict timed_out failures = if leb 5 (failures + 1) then paused else active
verdict (raised _) failures = if leb 5 (failures + 1) then paused else active
verdict (returned r) failures = elim r.result [
  | none ↦ active
  | some text ↦ elim text [
    | some _ ↦ active
    | none ↦
        if leb 5 (if is_failure (or_text r.status "error") then failures + 2 else 0)
        then paused
        else active
  ]
]

abbrev pub status_of : Option Task → Option TaskStatus
status_of none = none
status_of (some t) = some t.status

-- The runs of the task that are in the log started before the time.
abbrev pub AllBefore : ℕ → Database → String → Type 0
AllBefore at db k = All (Before at) (runs_of k db.task_run_logs)

statuses_of-snoc :
    (k : String) (runs : List TaskRun) (r : TaskRun)
    → r.task_id ≡ k
    → All (Before r.run_at) (runs_of k runs)
    → statuses_of k (runs ++ r ∷ []) ≡ r.status ∷ statuses_of k runs
unfolding statuses_of statuses
statuses_of-snoc k runs r e a =
    ap (λ rs. statuses (order_runs rs)) (runs_of-snoc k runs r e)
    ∙ ap statuses (
        order_runs-late r.run_at (runs_of k runs) (r ∷ []) a (refl, tt)
          (unfold order_runs insert_run in refl))

append_assoc : (xs : List TaskRun) (a b : TaskRun) → (xs ++ a ∷ []) ++ b ∷ [] ≡ xs ++ a ∷ b ∷ []
append_assoc [] a b = refl
append_assoc (x ∷ xs) a b = ap (λ r. x ∷ r) (append_assoc xs a b)

-- Two rows with the same time, after all others.
statuses_of-two :
    (k : String) (runs : List TaskRun) (a b : TaskRun)
    → a.task_id ≡ k
    → b.task_id ≡ k
    → b.run_at ≡ a.run_at
    → All (Before a.run_at) (runs_of k runs)
    → statuses_of k ((runs ++ a ∷ []) ++ b ∷ []) ≡ a.status ∷ b.status ∷ statuses_of k runs
unfolding statuses_of statuses
statuses_of-two k runs a b ea eb same late =
    ap (λ rs. statuses (order_runs rs))
      (runs_of-snoc k (runs ++ a ∷ []) b eb
        ∙ ap (λ rs. rs ++ b ∷ []) (runs_of-snoc k runs a ea)
        ∙ append_assoc (runs_of k runs) a b)
    ∙ ap statuses (
        order_runs-late a.run_at (runs_of k runs) (a ∷ b ∷ []) late (refl, (same, tt))
          (unfold order_runs insert_run in ground (arith, same)))

streak_of-log :
    (db : Database) (k : String) (start duration : ℕ) (status : String)
    (result error : Option String)
    → AllBefore start db k
    → streak_of (log_task_run db k start duration status result error) k
      ≡ (if is_failure status then streak_of db k + 1 else 0)
unfolding log_task_run streak
streak_of-log db k start duration status result error late =
    let row : TaskRun = record {
      task_id = k;
      run_at = start;
      duration_ms = duration;
      status = status;
      result = result;
      error = error;
    } in
    ap streak (statuses_of-snoc k db.task_run_logs row refl late)

-- The row of a run that has returned, and the one of the exception after it.
streak_of-two :
    (db : Database) (k : String) (start duration duration' : ℕ) (status status' : String)
    (result result' error error' : Option String)
    → AllBefore start db k
    → streak_of
        (log_task_run
          (log_task_run db k start duration status result error)
          k
          start
          duration'
          status'
          result'
          error')
        k
      ≡ (if is_failure status
          then (if is_failure status' then streak_of db k + 1 else 0) + 1
          else 0)
unfolding log_task_run streak
streak_of-two db k start duration duration' status status' result result' error error' late =
    let row : TaskRun = record {
      task_id = k;
      run_at = start;
      duration_ms = duration;
      status = status;
      result = result;
      error = error;
    } in
    let row' : TaskRun = record {
      task_id = k;
      run_at = start;
      duration_ms = duration';
      status = status';
      result = result';
      error = error';
    } in
    ap streak (statuses_of-two k db.task_run_logs row row' refl refl refl late)

error_fails : is_failure "error" ≡ true
unfolding is_failure string_discrete
error_fails = refl

timeout_fails : is_failure "timeout" ≡ true
unfolding is_failure string_discrete
timeout_fails = refl

module _ (auto_paused : ℕ → String) where
  settle-status :
      (db : Database) (t : Task) (f : Bool) (next : Option ℕ)
      → IsThere db t.id
      → status_of (find_task (settle auto_paused db t f next) t.id)
        ≡ some (if f && leb 5 (streak_of db t.id) then paused else active)
  unfolding settle count_recent_failures apply_changes apply_change
  settle-status db t f next (row, e) =
      let counted = count_failures-streak 5 (statuses_of t.id db.task_run_logs) in
      elim (Bool-cases (f && leb max_task_failures (count_recent_failures db t.id))) [
        | inl many ↦ rw many (
            ground (
              arith,
              many,
              e,
              counted,
              find_task-update db t.id t.id (
                  set_status paused
                  ∷ set_next_run next
                  ∷ set_last_result (auto_paused (count_recent_failures db t.id))
                  ∷ []),
              string_discrete t.id t.id,
            ))
        | inr few ↦ rw few (
            ground (
              arith,
              few,
              e,
              counted,
              find_task-update db t.id t.id (set_status active ∷ set_next_run next ∷ []),
              string_discrete t.id t.id,
            ))
      ]

  module _ (py : Python) (cron : String → ℕ → Option ℕ) where
    end_failed-status :
        (db : Database) (t : Task) (start now duration n failures : ℕ) (status error : String)
        → IsThere db t.id
        → next_of py cron t start now ≡ some n
        → streak_of (log_task_run db t.id start duration status none (some error)) t.id ≡ failures
        → status_of
            (find_task (end_failed auto_paused py cron db t start now duration status error) t.id)
          ≡ some (if leb 5 failures then paused else active)
    unfolding end_failed finish
    end_failed-status db t start now duration n failures status error there valid counted =
        let logged = log_task_run db t.id start duration status none (some error) in
        let there' : IsThere logged t.id = unfold log_task_run in there in
        rw (valid, finish) (ground (arith, settle-status logged t true (some n) there', counted))

    end_done-status :
        (db : Database) (t : Task) (start now n : ℕ) (text : String)
        → IsThere db t.id
        → next_of py cron t start now ≡ some n
        → status_of (find_task (end_done auto_paused py cron db t start now text) t.id)
          ≡ some active
    unfolding end_done finish
    end_done-status db t start now n text there valid =
        rw (valid, finish) (settle-status _ t false (some n) (update-IsThere db t.id _ there))

    end_logged-status :
        (db : Database) (t : Task) (start now n : ℕ) (r : AgentResult)
        → IsThere db t.id
        → next_of py cron t start now ≡ some n
        → AllBefore start db t.id
        → status_of (find_task (end_returned auto_paused py cron db t start now r) t.id)
          ≡ some (verdict (returned r) (streak_of db t.id))
    unfolding end_returned end_logged verdict
    end_logged-status db t start now n r there valid late =
        let status = or_text r.status "error" in
        let logged = log_task_run db t.id start (now - start) status (flat r.result) r.error in
        let there' : IsThere logged t.id = unfold log_task_run in there in
        elim (Option-cases r.result) [
          | inl e ↦ rw (e, end_logged) (end_done-status logged t start now n "" there' valid)
          | inr (text, e) ↦ elim (Option-cases text) [
            | inr (s, e') ↦
                rw (e, e', end_logged) (end_done-status logged t start now n s there' valid)
            | inl e' ↦
                rw (e, e', end_logged)
                  (end_failed-status logged t start now 0 n
                    (if is_failure status then streak_of db t.id + 2 else 0) "error"
                    "'NoneType' object is not subscriptable" there' valid
                    (ground (
                      arith,
                      streak_of-two db t.id start (now - start) 0 status "error" (flat r.result)
                          none r.error (some "'NoneType' object is not subscriptable") late,
                      error_fails,
                    )))
          ]
        ]

    -- For a task with a valid schedule, whose runs in the log all started before this one: it is paused
    -- by a run that times out or raises, if that is the fifth failure in a row at least. A run that
    -- returns a text, or no result at all, leaves it active, whatever status it has and whatever
    -- failures came before. A run that returns `None` counts as two failures if its status is "error"
    -- or "timeout", and as none otherwise.
    pub end_task-verdict :
        (db : Database) (t : Task) (start now n : ℕ) (o : Outcome)
        → IsThere db t.id
        → next_of py cron t start now ≡ some n
        → AllBefore start db t.id
        → status_of (find_task (end_task auto_paused py cron db t start now o) t.id)
          ≡ some (verdict o (streak_of db t.id))
    unfolding end_task verdict
    end_task-verdict db t start now n (returned r) there valid late =
        unfold verdict in end_logged-status db t start now n r there valid late
    end_task-verdict db t start now n timed_out there valid late =
        end_failed-status db t start now _ n _ _ _ there valid
          (streak_of-log db t.id start _ _ _ _ late ∙ rw timeout_fails refl)
    end_task-verdict db t start now n (raised e) there valid late =
        end_failed-status db t start now _ n _ _ _ there valid
          (streak_of-log db t.id start _ _ _ _ late ∙ rw error_fails refl)
