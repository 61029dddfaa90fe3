-- ===== src/GroupQueue/Pending.antt =====
-- Each group's own state: pending tasks stay within their cap, the set of their ids mirrors them,
-- no id is pending twice, and no group counts more than the allowed failures.
use evoclaw.Base.{
  ℕ, ◌≤◌, ◌<◌, String, ◌≡◌, refl, List, [], ◌∷◌, ◌++◌, arith, length, length-append, member,
  discard-head, Distinct, Distinct-snoc, true, false, Bool, Option-cases, take_at, if_elim, inl,
  inr,
}
use evoclaw.GroupQueue.{
  GroupQueue, GroupState, QueuedTask, Job, messages, task, init, get_group, put_group,
  enqueue_message_check, enqueue_task, enqueue_at_limit, serve_waiting, drain_waiting, drain_group,
  start_messages, start_task, mark_pending, push_task, pop_task,
}
use evoclaw.GroupQueue.Store.{get_group-init, get_group-wait_for_slot, put_group-each, launch-each}
use evoclaw.GroupQueue.Cases.{
  message_cases, limit_cases, task_cases, serve_cases, drain_group_cases, retry_cases,
}
use evoclaw.GroupQueue.Drain.{pop_waiting, drain_waiting_keeps}
use evoclaw.GroupQueue.Retry.{schedule_retry, retry_fires}
use evoclaw.GroupQueue.Run.{
  Outcome, succeeded, failed, raised, skipped, begin_job, settle, release, end_job, shutdown,
  shutdown_sync,
}
use evoclaw.GroupQueue.Trace.{
  Event, message, schedule, begins, ends, fires, stops, stops_sync, begin_at, end_at, fire_at, step,
  run,
}

abbrev pub ids : List QueuedTask → List String
ids [] = []
ids (t ∷ ts) = t.id ∷ ids ts

pub record GroupOk (s : GroupState) : Type 0 where
  pub few : length s.pending_tasks ≤ 50
  pub mirrored : s.pending_task_ids ≡ ids s.pending_tasks
  pub distinct : Distinct s.pending_task_ids
  pub retries : s.retry_count ≤ 5

abbrev pub GroupsOk : GroupQueue → Type 0
GroupsOk q = (k : String) → GroupOk (get_group q k)

ids-append : (ts us : List QueuedTask) → ids (ts ++ us) ≡ ids ts ++ ids us
ids-append [] us = refl
ids-append (t ∷ ts) us = cc (ids-append ts us)

module _ (s : GroupState) (v : GroupOk s) where
  mark_pending-GroupOk : (now : ℕ) → GroupOk (mark_pending s now)
  unfolding mark_pending
  mark_pending-GroupOk now = ground arith

  start_messages-GroupOk : GroupOk (start_messages s)
  unfolding start_messages
  start_messages-GroupOk = ground arith

  ready-GroupOk : (b : Bool) → GroupOk (record s { retry_ready = b })
  ready-GroupOk b = ground arith

  start_task-GroupOk : (t : QueuedTask) → GroupOk (start_task s t)
  unfolding start_task
  start_task-GroupOk t = ground arith

  push_task-GroupOk :
      (t : QueuedTask)
      → member t.id s.pending_task_ids ≡ false
      → length s.pending_tasks < 50
      → GroupOk (push_task s t)
  unfolding push_task
  push_task-GroupOk t new room = ground (
    arith,
    length-append s.pending_tasks (t ∷ []),
    ids-append s.pending_tasks (t ∷ []),
    Distinct-snoc s.pending_task_ids t.id v.distinct new,
  )

  pop_task-GroupOk :
      (t : QueuedTask) (rest : List QueuedTask)
      → s.pending_tasks ≡ t ∷ rest
      → GroupOk (pop_task s t rest)
  unfolding pop_task
  pop_task-GroupOk t rest e = ground (arith, discard-head t.id (ids rest))

module _ (q : GroupQueue) (j : String) (v : GroupsOk q) where
  message-GroupsOk : (max now : ℕ) (r : Bool) → GroupsOk (enqueue_message_check max q j now r)
  message-GroupsOk max now r =
      let marked = put_group-each GroupOk q j _ v (mark_pending-GroupOk _ (v j) now) in
      message_cases GroupsOk q j max now r (λ _. v) (λ _. marked)
        (λ _ _ k. rw get_group-wait_for_slot (marked k))
        λ _ _ _. launch-each GroupOk q j _ _ v (start_messages-GroupOk _ (v j))

  limit-GroupsOk :
      (t : QueuedTask)
      → member t.id (get_group q j).pending_task_ids ≡ false
      → GroupsOk (enqueue_at_limit q j (get_group q j) t)
  unfolding get_group put_group
  limit-GroupsOk t new =
      limit_cases GroupsOk q j (get_group q j) t v
        (λ room _. put_group-each GroupOk q j _ v (push_task-GroupOk _ (v j) t new room))
        λ room _ _. put_group-each GroupOk q j _ v (push_task-GroupOk _ (v j) t new room)

  task-GroupsOk : (max : ℕ) (id : String) → GroupsOk (enqueue_task max q j id)
  unfolding get_group
  task-GroupsOk max id =
      task_cases GroupsOk q j max id v v
        (λ new _ room. put_group-each GroupOk q j _ v (push_task-GroupOk _ (v j) _ new room))
        (λ new _ _. limit-GroupsOk _ new)
        λ _ _ _.
          launch-each GroupOk q j _ _ v (start_task-GroupOk _ (ready-GroupOk _ (v j) false) _)

  serve-GroupsOk : (now : ℕ) → GroupsOk (serve_waiting q j now)
  serve-GroupsOk now =
      serve_cases GroupsOk q j now
        (λ t rest e.
          launch-each GroupOk q j _ _ v
            (start_task-GroupOk _ (pop_task-GroupOk _ (v j) t rest e) t))
        (λ _. v)
        λ _. launch-each GroupOk q j _ _ v (ground (arith, v j, start_messages-GroupOk _ (v j)))

  pop-GroupsOk : (rest : List String) → GroupsOk (pop_waiting q j rest)
  unfolding get_group
  pop-GroupsOk rest = v

drain_waiting-GroupsOk :
    (max : ℕ) (q : GroupQueue) (now : ℕ) → GroupsOk q → GroupsOk (drain_waiting max q now)
drain_waiting-GroupsOk max q now v =
    drain_waiting_keeps max now GroupsOk
      (λ q j rest _ _ v. serve-GroupsOk (pop_waiting q j rest) j (pop-GroupsOk q j v rest) now) q v

module _ (q : GroupQueue) (j : String) (v : GroupsOk q) where
  drain_group-GroupsOk : (max now : ℕ) → GroupsOk (drain_group max q j now)
  drain_group-GroupsOk max now =
      drain_group_cases GroupsOk q j max now (λ _. v)
        (λ t rest _ e.
          launch-each GroupOk q j _ _ v
            (start_task-GroupOk _ (pop_task-GroupOk _ (v j) t rest e) t))
        (λ _ _. v) (λ _ _. launch-each GroupOk q j _ _ v (start_messages-GroupOk _ (v j)))
        λ _. drain_waiting-GroupsOk max q now v

  schedule_retry-GroupsOk : GroupsOk (schedule_retry q j)
  unfolding get_group put_group
  schedule_retry-GroupsOk =
      retry_cases GroupsOk q j (λ _. put_group-each GroupOk q j _ v (ground (arith, v j)))
        λ again. put_group-each GroupOk q j _ v (ground (arith, v j))

  settle-GroupsOk : (o : Outcome) → GroupsOk (settle q j o)
  unfolding settle
  settle-GroupsOk succeeded = put_group-each GroupOk q j _ v (ground (arith, v j))
  settle-GroupsOk failed = schedule_retry-GroupsOk
  settle-GroupsOk raised = schedule_retry-GroupsOk
  settle-GroupsOk skipped = v

  release-GroupsOk : (s : GroupState) → GroupOk s → GroupsOk (release q j s)
  unfolding release get_group put_group
  release-GroupsOk s ok = put_group-each GroupOk q j s v ok

end_job-GroupsOk :
    (max : ℕ) (q : GroupQueue) (job : Job) (o : Outcome) (now : ℕ)
    → GroupsOk q
    → GroupsOk (end_job max q job o now)
unfolding end_job
end_job-GroupsOk max q (messages j queued) o now v =
    let v' = settle-GroupsOk q j v o in
    drain_group-GroupsOk _ j (release-GroupsOk _ j v' _ (ground (arith, v' j))) max now
end_job-GroupsOk max q (task j t) o now v =
    drain_group-GroupsOk _ j (release-GroupsOk q j v _ (ground (arith, v j))) max now

begin_job-GroupsOk : (q : GroupQueue) (job : Job) → GroupsOk q → GroupsOk (begin_job q job)
unfolding begin_job
begin_job-GroupsOk q (messages j queued) v = put_group-each GroupOk q j _ v (ground (arith, v j))
begin_job-GroupsOk q (task j t) v = put_group-each GroupOk q j _ v (ground (arith, v j))

retry_fires-GroupsOk :
    (max : ℕ) (q : GroupQueue) (j : String) (now : ℕ)
    → GroupsOk q
    → GroupsOk (retry_fires max q j now)
unfolding retry_fires
retry_fires-GroupsOk max q j now v =
    if_elim GroupsOk q.shutting_down _ _ (λ _. v)
      λ _.
        message-GroupsOk _ j (put_group-each GroupOk q j _ v (ready-GroupOk _ (v j) true)) max now
          true

-- Every event keeps the state of every group within its limits.
pub step-GroupsOk : (max : ℕ) (q : GroupQueue) (e : Event) → GroupsOk q → GroupsOk (step max q e)
unfolding step begin_at end_at fire_at get_group shutdown shutdown_sync
step-GroupsOk max q (message j now) v = message-GroupsOk q j v max now false
step-GroupsOk max q (schedule j id) v = task-GroupsOk q j v max id
step-GroupsOk max q (begins i) v = elim (Option-cases (take_at q.created i)) [
  | inl missing ↦ rw missing v
  | inr ((job, rest), found) ↦ rw found (begin_job-GroupsOk _ job v)
]
step-GroupsOk max q (ends i o now) v = elim (Option-cases (take_at q.running i)) [
  | inl missing ↦ rw missing v
  | inr ((job, rest), found) ↦ rw found (end_job-GroupsOk max _ job o now v)
]
step-GroupsOk max q (fires i now) v = elim (Option-cases (take_at q.retry_tasks i)) [
  | inl missing ↦ rw missing v
  | inr (((j, delay), rest), found) ↦ rw found (retry_fires-GroupsOk max _ j now v)
]
step-GroupsOk max q stops v = v
step-GroupsOk max q stops_sync v = v

run-GroupsOk : (max : ℕ) (q : GroupQueue) (es : List Event) → GroupsOk q → GroupsOk (run max q es)
unfolding run
run-GroupsOk max q [] v = v
run-GroupsOk max q (e ∷ es) v = run-GroupsOk max (step max q e) es (step-GroupsOk max q e v)

-- After any sequence of events from the start, every group has at most 50 pending tasks, the set
-- of pending ids holds exactly the ids of the pending tasks, no id is pending twice, and at most
-- 5 consecutive failures are counted.
pub run-init-GroupsOk : (max : ℕ) (es : List Event) → GroupsOk (run max init es)
run-init-GroupsOk max es = run-GroupsOk max init es λ k.
    rw get_group-init
      (record { few = omega arith; mirrored = refl; distinct = tt; retries = omega arith })
