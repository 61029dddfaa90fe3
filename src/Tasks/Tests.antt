-- ===== src/Tasks/Tests.antt =====
-- A task that runs every ten milliseconds.
use evoclaw.Base.{
  ◌+◌, ℕ, ◌≡◌, refl, String, false, Option, none, some, List, [], ◌∷◌, string_discrete,
}
use evoclaw.Base.Dict.{get, set}
use evoclaw.Skills.{pos}
use evoclaw.Schedule.{Python, catch_up, base_of, next_from, next_interval, compute_next_run}
use evoclaw.Schedule.Catch.{FirstAhead, compute_next_run-interval}
use evoclaw.Db.{
  Database, Task, TaskStatus, active, paused, running, empty, rows, is_running, is_active, is_due,
  apply_change, apply_changes, update_task, log_task_run,
}
use evoclaw.Db.Rows.{find_task}
use evoclaw.Tasks.{
  Outcome, returned, timed_out, prefix, runs_of, insert_run, order_runs, statuses, statuses_of,
  is_failure, count_failures, count_recent_failures, last_run_base, or_text, flat, begin_task,
  next_of, recover_task, recover_rows, recover_stale_running_tasks, settle, pause_invalid, finish,
  end_failed, end_done, end_logged, end_returned, end_task,
}
use evoclaw.Tasks.After.{Rests, end_task-Rests}
use evoclaw.Tasks.Failing.{streak, verdict, status_of, end_task-verdict}
use evoclaw.Tasks.Recovery.{waits, recover-rest}

program : Unit {0}
unfolding string_discrete get set catch_up base_of next_from next_interval compute_next_run rows
    is_running is_active is_due apply_change apply_changes update_task log_task_run prefix runs_of
    insert_run order_runs statuses statuses_of is_failure count_failures count_recent_failures
    last_run_base or_text flat begin_task next_of recover_task recover_rows
    recover_stale_running_tasks settle pause_invalid finish end_failed end_done end_logged
    end_returned end_task streak verdict waits
program = tt

-- Every text is read as ten.
abbrev ten : Python
ten = record {
  int = λ _. some (pos 10);
  sum_ms = λ base ms now. elim base [ none ↦ some (now + ms) | some last ↦ some (last + ms) ];
}

abbrev no_cron : String → ℕ → Option ℕ
no_cron _ _ = none

abbrev notice : ℕ → String
notice _ = "paused"

abbrev task : TaskStatus → Task
task status = record {
  id = "t";
  group_folder = "alpha";
  chat_jid = "a";
  prompt = "report";
  schedule_type = "interval";
  schedule_value = "10";
  next_run = some 100;
  last_run = none;
  last_result = none;
  status = status;
  created_at = 1;
  context_mode = "group";
}

abbrev with_task : TaskStatus → Database
with_task status = record empty { scheduled_tasks = ("t", task status) ∷ [] }

abbrev no_text : Outcome
no_text = returned (record { status = some "error"; result = some none; error = none })

-- The status after some runs that start at 100 and end at 125.
unfoldable ends : List Outcome → Database → Database
ends [] db = db
ends (o ∷ os) db = ends os (end_task notice ten no_cron db (task running) 100 125 o)

after : List Outcome → Option TaskStatus
after os = status_of (find_task (ends os (with_task running)) "t")

four_timeouts : after (timed_out ∷ timed_out ∷ timed_out ∷ timed_out ∷ []) ≡ some active
unfolding program ends after
four_timeouts = refl

five_timeouts : after (timed_out ∷ timed_out ∷ timed_out ∷ timed_out ∷ timed_out ∷ []) ≡ some paused
unfolding program ends after
five_timeouts = refl

-- Three runs that return no text pause the task.
three_without_text : after (no_text ∷ no_text ∷ no_text ∷ []) ≡ some paused
unfolding program ends after
three_without_text = refl

compute_next_run-interval_example :
    FirstAhead 10 125 110 (compute_next_run ten no_cron "interval" "10" (some 100) 125)
unfolding program
compute_next_run-interval_example =
    compute_next_run-interval ten no_cron "10" (some 100) 125 9 110 refl refl

end_task-Rests_example : Rests 125 (
    find_task
      (end_task notice ten no_cron (with_task running) (task running) 100 125 timed_out)
      "t")
unfolding get string_discrete
end_task-Rests_example =
    end_task-Rests notice ten no_cron (λ _ _. tt) (with_task running) (task running) 100 125
      timed_out (task running, refl)

end_task-verdict_example :
    status_of (
      find_task
        (end_task notice ten no_cron (with_task running) (task running) 100 125 timed_out)
        "t")
    ≡ some active
unfolding program
end_task-verdict_example =
    end_task-verdict notice ten no_cron (with_task running) (task running) 100 125 130 timed_out
      (task running, refl) refl tt

abbrev recovered : Task
recovered = record (task active) { next_run = some 130 }

recover-rest_example : is_running recovered.status ≡ false
unfolding program
recover-rest_example =
    recover-rest ten no_cron 125 (with_task running) "t" recovered (refl, tt) refl
