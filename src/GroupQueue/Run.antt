-- ===== src/GroupQueue/Run.antt =====
-- host/group_queue.py: `_run_for_group` and `_run_task`, cut at their await, and the shutdown.
use evoclaw.Base.{ℕ, ◌-◌, String, true, false, none, []}
use evoclaw.GroupQueue.{
  GroupQueue, GroupState, Job, messages, task, get_group, put_group, drain_group,
}
use evoclaw.GroupQueue.Retry.{schedule_retry}

-- How the awaited call of a run ends. `skipped`: no handler of messages is registered, or the
-- coroutine is cancelled, so that only the `finally` block runs.
pub data Outcome : Type 0 where
  succeeded failed raised skipped : Outcome

-- Up to the await.
unfoldable pub begin_job : GroupQueue → Job → GroupQueue
begin_job q (messages jid queued) = put_group q jid (record (get_group q jid) {
  idle_waiting = false;
  is_task_container = false;
  pending_messages = false;
})
begin_job q (task jid t) = put_group q jid (record (get_group q jid) { idle_waiting = false })

-- The rest of the `try` statement of `_run_for_group`.
unfoldable pub settle : GroupQueue → String → Outcome → GroupQueue
settle q jid succeeded = put_group q jid (record (get_group q jid) { retry_count = 0 })
settle q jid failed = schedule_retry q jid
settle q jid raised = schedule_retry q jid
settle q jid skipped = q

-- The state writes of the two `finally` blocks.
unfoldable pub release : GroupQueue → String → GroupState → GroupQueue
release q jid s = record (put_group q jid s) { active_count = q.active_count - 1 }

-- From the await on.
unfoldable pub end_job : ℕ → GroupQueue → Job → Outcome → ℕ → GroupQueue
end_job max q (messages jid queued) outcome now =
    let q' = settle q jid outcome in
    drain_group max (release q' jid (record (get_group q' jid) { active = false })) jid now
end_job max q (task jid t) outcome now =
    drain_group max
      (release q jid (record (get_group q jid) {
        active = false;
        is_task_container = false;
        running_task_id = none;
      }))
      jid now

-- `shutdown_sync` sets the flag; `shutdown` also cancels the timers of the retries.
unfoldable pub shutdown_sync : GroupQueue → GroupQueue
shutdown_sync q = record q { shutting_down = true }

unfoldable pub shutdown : GroupQueue → GroupQueue
shutdown q = record q { shutting_down = true; retry_tasks = [] }
