-- ===== src/GroupQueue/Bounds.antt =====
-- The limits of the queue: containers, waiting groups, pending tasks and retries stay bounded, and
-- the two sets that mirror a queue hold exactly the queue's entries.
use evoclaw.Base.{
  ℕ, ◌+◌, ◌≤◌, ◌<◌, String, ◌≡◌, refl, List, [], ◌∷◌, arith, length, length-append, discard-head,
  Distinct, Distinct-snoc, inl, inr, true, false, Bool, Option-cases, take_at, length-take_at,
  if_elim,
}
use evoclaw.GroupQueue.{
  GroupQueue, GroupState, QueuedTask, Job, messages, task, init, put_group, launch, wait_for_slot,
  enqueue_message_check, enqueue_task, enqueue_at_limit, serve_waiting, drain_waiting, drain_group,
}
use evoclaw.GroupQueue.Retry.{retry_fires}
use evoclaw.GroupQueue.Run.{
  succeeded, failed, raised, skipped, Outcome, begin_job, settle, release, end_job, shutdown,
  shutdown_sync,
}
use evoclaw.GroupQueue.Cases.{
  message_cases, limit_cases, task_cases, serve_cases, drain_group_cases, retry_cases,
}
use evoclaw.GroupQueue.Drain.{pop_waiting, drain_waiting_keeps}
use evoclaw.GroupQueue.Trace.{
  message, schedule, begins, ends, fires, stops, stops_sync, Event, begin_at, end_at, fire_at, step,
  run,
}

-- `owed` runs have ended and are still counted.
pub record CountsOk (max owed : ℕ) (q : GroupQueue) : Type 0 where
  pub counted : q.active_count ≡ length q.created + length q.running + owed
  pub limited : q.active_count ≤ max
  pub queue_limited : length q.waiting_groups ≤ 100
  pub queue_mirrored : q.waiting_set ≡ q.waiting_groups
  pub queue_distinct : Distinct q.waiting_groups

put_group-CountsOk :
    {max owed : ℕ} {q : GroupQueue} (j : String) (s : GroupState)
    → CountsOk max owed q
    → CountsOk max owed (put_group q j s)
unfolding put_group
put_group-CountsOk j s c = ground arith

launch-CountsOk :
    {max : ℕ} {q : GroupQueue} (j : String) (s : GroupState) (job : Job)
    → CountsOk max 0 q
    → q.active_count < max
    → CountsOk max 0 (launch q j s job)
unfolding launch
launch-CountsOk {max} {q} j s job c h = ground (arith, length-append q.created (job ∷ []))

wait_for_slot-CountsOk :
    {max owed : ℕ} {q : GroupQueue} (j : String)
    → CountsOk max owed q
    → CountsOk max owed (wait_for_slot q j)
unfolding wait_for_slot
wait_for_slot-CountsOk {max} {owed} {q} j c =
    ground (arith, length-append q.waiting_groups (j ∷ []), Distinct-snoc q.waiting_groups j)

module _ {max : ℕ} (q : GroupQueue) (j : String) (c : CountsOk max 0 q) where
  message-CountsOk : (now : ℕ) (r : Bool) → CountsOk max 0 (enqueue_message_check max q j now r)
  message-CountsOk now r =
      message_cases (CountsOk max 0) q j max now r (λ _. c) (λ _. put_group-CountsOk j _ c)
        (λ _ _. wait_for_slot-CountsOk j (put_group-CountsOk j _ c))
        λ _ _ room. launch-CountsOk j _ _ c room

  limit-CountsOk : (s : GroupState) (t : QueuedTask) → CountsOk max 0 (enqueue_at_limit q j s t)
  unfolding put_group
  limit-CountsOk s t =
      limit_cases (CountsOk max 0) q j s t c (λ _ _. ground arith)
        λ _ out room.
          ground (arith, length-append q.waiting_groups (j ∷ []), Distinct-snoc q.waiting_groups j)

  task-CountsOk : (id : String) → CountsOk max 0 (enqueue_task max q j id)
  task-CountsOk id =
      task_cases (CountsOk max 0) q j max id c (ground arith) (λ _ _ _. put_group-CountsOk j _ c)
        (λ _ _ _. limit-CountsOk _ _) λ _ _ room. launch-CountsOk j _ _ c room

  pub serve-CountsOk : (now : ℕ) → q.active_count < max → CountsOk max 0 (serve_waiting q j now)
  serve-CountsOk now room =
      serve_cases (CountsOk max 0) q j now (λ t rest e. launch-CountsOk j _ _ c room) (λ _. c)
        λ _. launch-CountsOk j _ _ c room

  pub pop-CountsOk :
      (rest : List String) → q.waiting_groups ≡ j ∷ rest → CountsOk max 0 (pop_waiting q j rest)
  pop-CountsOk rest e = ground (arith, discard-head j rest)

pub drain_waiting-CountsOk :
    {max : ℕ} (q : GroupQueue) (now : ℕ)
    → CountsOk max 0 q
    → CountsOk max 0 (drain_waiting max q now)
drain_waiting-CountsOk {max} q now c =
    drain_waiting_keeps max now (CountsOk max 0)
      (λ q j rest e room c.
        serve-CountsOk (pop_waiting q j rest) j (pop-CountsOk q j c rest e) now room)
      q c

drain_group-CountsOk :
    {max : ℕ} (q : GroupQueue) (j : String) (now : ℕ)
    → CountsOk max 0 q
    → q.active_count < max
    → CountsOk max 0 (drain_group max q j now)
drain_group-CountsOk {max} q j now c room =
    drain_group_cases (CountsOk max 0) q j max now (λ _. c)
      (λ t rest _ e. launch-CountsOk j _ _ c room) (λ _ _. c) (λ _ _. launch-CountsOk j _ _ c room)
      λ _. drain_waiting-CountsOk q now c

pub settle-CountsOk :
    {max owed : ℕ} (q : GroupQueue) (j : String) (o : Outcome)
    → CountsOk max owed q
    → CountsOk max owed (settle q j o)
unfolding settle put_group
settle-CountsOk {max} {owed} q j succeeded c = ground arith
settle-CountsOk {max} {owed} q j failed c =
    retry_cases (CountsOk max owed) q j (λ _. ground arith) λ _. ground arith
settle-CountsOk {max} {owed} q j raised c =
    retry_cases (CountsOk max owed) q j (λ _. ground arith) λ _. ground arith
settle-CountsOk q j skipped c = c

pub release-CountsOk :
    {max : ℕ} (q : GroupQueue) (j : String) (s : GroupState)
    → CountsOk max 1 q
    → CountsOk max 0 (release q j s) × ((release q j s).active_count < max)
unfolding release put_group
release-CountsOk q j s c = ground arith

end_job-CountsOk :
    {max : ℕ} (q : GroupQueue) (job : Job) (o : Outcome) (now : ℕ)
    → CountsOk max 1 q
    → CountsOk max 0 (end_job max q job o now)
unfolding end_job
end_job-CountsOk q (messages j queued) o now c =
    let (ok, room) = release-CountsOk (settle q j o) j _ (settle-CountsOk q j o c) in
    drain_group-CountsOk _ j now ok room
end_job-CountsOk q (task j t) o now c =
    let (ok, room) = release-CountsOk q j _ c in drain_group-CountsOk _ j now ok room

begin_job-CountsOk :
    {max : ℕ} (q : GroupQueue) (job : Job) → CountsOk max 0 q → CountsOk max 0 (begin_job q job)
unfolding begin_job
begin_job-CountsOk q (messages j queued) c = put_group-CountsOk j _ c
begin_job-CountsOk q (task j t) c = put_group-CountsOk j _ c

-- Every event keeps the counts.
pub step-CountsOk :
    (max : ℕ) (q : GroupQueue) (e : Event) → CountsOk max 0 q → CountsOk max 0 (step max q e)
unfolding step begin_at end_at fire_at retry_fires shutdown shutdown_sync
step-CountsOk max q (message j now) c = message-CountsOk q j c now false
step-CountsOk max q (schedule j id) c = task-CountsOk q j c id
step-CountsOk max q (begins i) c = elim (Option-cases (take_at q.created i)) [
  | inl missing ↦ rw missing c
  | inr ((job, rest), found) ↦ rw found (
      begin_job-CountsOk _ job
        (ground (arith, length-take_at q.created i, length-append q.running (job ∷ []))))
]
step-CountsOk max q (ends i o now) c = elim (Option-cases (take_at q.running i)) [
  | inl missing ↦ rw missing c
  | inr ((job, rest), found) ↦
      rw found (end_job-CountsOk _ job o now (ground (arith, length-take_at q.running i)))
]
step-CountsOk max q (fires i now) c = elim (Option-cases (take_at q.retry_tasks i)) [
  | inl missing ↦ rw missing c
  | inr (((j, delay), rest), found) ↦ rw found (
      if_elim (CountsOk max 0) q.shutting_down _ _ (λ _. ground arith)
        λ _. message-CountsOk _ j (put_group-CountsOk j _ (ground arith)) now true)
]
step-CountsOk max q stops c = ground arith
step-CountsOk max q stops_sync c = ground arith

run-CountsOk :
    (max : ℕ) (q : GroupQueue) (es : List Event) → CountsOk max 0 q → CountsOk max 0 (run max q es)
unfolding run
run-CountsOk max q [] c = c
run-CountsOk max q (e ∷ es) c = run-CountsOk max (step max q e) es (step-CountsOk max q e c)

-- After any sequence of events from the start, with any outcomes of the runs: the active count is
-- the number of containers that are created or running, it is at most the configured limit, at
-- most 100 groups wait, no group waits twice, and the membership set holds the waiting groups.
pub run-init-CountsOk : (max : ℕ) (es : List Event) → CountsOk max 0 (run max init es)
run-init-CountsOk max es = run-CountsOk max init es (record {
  counted = omega arith;
  limited = omega arith;
  queue_limited = omega arith;
  queue_mirrored = refl;
  queue_distinct = tt;
})
