-- ===== src/GroupQueue/Trace.antt =====
-- The event loop: which of the queue's operations run, and in which order, is the environment's
-- choice. A trace is a list of such events.
use evoclaw.Base.{ℕ, String, false, Option, none, some, List, [], ◌∷◌, ◌++◌, take_at}
use evoclaw.GroupQueue.{GroupQueue, Job, enqueue_message_check, enqueue_task}
use evoclaw.GroupQueue.Retry.{retry_fires}
use evoclaw.GroupQueue.Run.{Outcome, begin_job, end_job, shutdown, shutdown_sync}

-- `begins i`, `ends i` and `fires i` name a position in `created`, `running` and `retry_tasks`.
pub data Event : Type 0 where
  message : String → ℕ → Event
  schedule : String → String → Event
  begins : ℕ → Event
  ends : ℕ → Outcome → ℕ → Event
  fires : ℕ → ℕ → Event
  stops stops_sync : Event

unfoldable pub begin_at : GroupQueue → Option (Job × List Job) → GroupQueue
begin_at q none = q
begin_at q (some (job, rest)) =
    begin_job (record q { created = rest; running = q.running ++ job ∷ [] }) job

unfoldable pub end_at : ℕ → GroupQueue → Option (Job × List Job) → Outcome → ℕ → GroupQueue
end_at max q none outcome now = q
end_at max q (some (job, rest)) outcome now =
    end_job max (record q { running = rest }) job outcome now

unfoldable pub fire_at : ℕ → GroupQueue → Option ((String × ℕ) × List (String × ℕ)) → ℕ → GroupQueue
fire_at max q none now = q
fire_at max q (some ((jid, delay), rest)) now =
    retry_fires max (record q { retry_tasks = rest }) jid now

unfoldable pub step : ℕ → GroupQueue → Event → GroupQueue
step max q (message jid now) = enqueue_message_check max q jid now false
step max q (schedule jid task_id) = enqueue_task max q jid task_id
step max q (begins i) = begin_at q (take_at q.created i)
step max q (ends i outcome now) = end_at max q (take_at q.running i) outcome now
step max q (fires i now) = fire_at max q (take_at q.retry_tasks i) now
step max q stops = shutdown q
step max q stops_sync = shutdown_sync q

unfoldable pub run : ℕ → GroupQueue → List Event → GroupQueue
run max q [] = q
run max q (e ∷ es) = run max (step max q e) es
