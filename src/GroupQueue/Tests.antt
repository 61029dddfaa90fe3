-- ===== src/GroupQueue/Tests.antt =====
-- Runs of the queue on concrete events.
use evoclaw.Base.{
  ◌≡◌, refl, List, [], ◌∷◌, length, arith, member, discard, string_discrete, take_at, ◌≤◌, ◌++◌,
}
use evoclaw.Base.Dict.{get, set}
use evoclaw.GroupQueue.{
  init, or_fresh, get_group, put_group, launch, or_now, mark_pending, wait_for_slot, backing_off,
  start_messages, start_task, push_task, pop_task, is_running, enqueue_at_limit, serve_waiting,
  enqueue_message_check, enqueue_task, drain_loop, drain_waiting, drain_group,
}
use evoclaw.GroupQueue.Retry.{retry_delay, schedule_retry, retry_fires}
use evoclaw.GroupQueue.Run.{
  succeeded, failed, raised, begin_job, settle, release, end_job, shutdown, shutdown_sync,
}
use evoclaw.GroupQueue.Trace.{
  Event, message, schedule, begins, ends, begin_at, end_at, fire_at, step, run,
}
use evoclaw.GroupQueue.Jobs.{job_jid, is_of, containers}
use evoclaw.GroupQueue.Bounds.{CountsOk, run-init-CountsOk}
use evoclaw.GroupQueue.Pending.{GroupOk, run-init-GroupsOk}
use evoclaw.GroupQueue.Wakeup.{IsServed, run-init-IsServed}
use evoclaw.GroupQueue.Calm.{run-init-Exclusive}
use evoclaw.GroupQueue.Exclusive.{Exclusive}
use evoclaw.GroupQueue.Streak.{settle_all, settle_all-streak}
use evoclaw.GroupQueue.Overtaken.{drain_waiting_doubles}

program : Unit {0}
unfolding get set member discard string_discrete take_at or_fresh get_group put_group launch or_now
    mark_pending wait_for_slot backing_off start_messages start_task push_task pop_task is_running
    enqueue_at_limit serve_waiting enqueue_message_check enqueue_task drain_loop drain_waiting
    drain_group retry_delay schedule_retry retry_fires begin_job settle release end_job shutdown
    shutdown_sync begin_at end_at fire_at step run job_jid is_of settle_all
program = tt

-- Two slots; `a` waits while `x` and `y` run; `x` fails with a message pending and backs off, so
-- its slot stays free; `a` is started past the queue.
abbrev overtaken : List Event
overtaken =
    message "x" 1
    ∷ message "y" 2
    ∷ begins 0
    ∷ begins 0
    ∷ message "a" 3
    ∷ message "x" 4
    ∷ ends 0 failed 5
    ∷ message "a" 6
    ∷ begins 0
    ∷ schedule "a" "t1"
    ∷ []

two_containers : containers (run 2 init (overtaken ++ ends 0 succeeded 7 ∷ [])) "a" ≡ 2
unfolding program
two_containers = refl

drain_waiting_doubles_example : 2 ≤ containers (drain_waiting 3 (run 2 init overtaken) 8) "a"
unfolding program
drain_waiting_doubles_example =
    drain_waiting_doubles 3 8 (run 2 init overtaken) "a" [] (record { id = "t1"; group_jid = "a" })
      [] refl (omega arith) refl (omega arith)

run-init-CountsOk_example : CountsOk 2 0 (run 2 init overtaken)
run-init-CountsOk_example = run-init-CountsOk 2 overtaken

run-init-GroupsOk_example : GroupOk (get_group (run 2 init overtaken) "a")
run-init-GroupsOk_example = run-init-GroupsOk 2 overtaken "a"

run-init-IsServed_example :
    IsServed
      (get_group (run 2 init overtaken) "a")
      (member "a" (run 2 init overtaken).waiting_groups)
unfolding program
run-init-IsServed_example = run-init-IsServed 2 overtaken refl "a"

abbrev calm : List Event
calm =
    message "x" 1
    ∷ message "a" 2
    ∷ begins 0
    ∷ schedule "b" "t1"
    ∷ ends 0 succeeded 3
    ∷ begins 0
    ∷ []

run-init-Exclusive_example : Exclusive 1 (run 1 init calm)
run-init-Exclusive_example = run-init-Exclusive 1 calm (omega arith)

settle_all-streak_example :
    ((get_group (settle_all init "a" (failed ∷ succeeded ∷ raised ∷ [])) "a").retry_count ≡ 1)
    × (length (settle_all init "a" (failed ∷ succeeded ∷ raised ∷ [])).notices ≡ 0)
unfolding program
settle_all-streak_example = settle_all-streak init "a" (failed ∷ succeeded ∷ raised ∷ []) refl
