-- ===== src/GroupQueue/Wakeup.antt =====
-- No pending task is stranded: a group with pending tasks runs a container, whose end drains them,
-- or stands in the queue of waiting groups.
use evoclaw.Base.{
  ℕ, String, ◌≡◌, refl, ◌⊎◌, inl, inr, List, [], ◌∷◌, ◌++◌, arith, subst, member, member-append,
  member-discard, member_self, string_discrete, true, false, Bool, Option-cases, take_at, if_elim,
}
use evoclaw.GroupQueue.{
  GroupQueue, GroupState, QueuedTask, Job, messages, task, init, get_group, put_group, launch,
  join_waiting, wait_for_slot, enqueue_message_check, enqueue_task, enqueue_at_limit, serve_waiting,
  drain_waiting, drain_group, start_messages, start_task, mark_pending, push_task,
}
use evoclaw.GroupQueue.Store.{
  get_group-init, get_group-put_group, get_group-launch, get_group-wait_for_slot,
}
use evoclaw.GroupQueue.Cases.{
  message_cases, limit_cases, task_cases, serve_cases, drain_group_cases, retry_cases,
}
use evoclaw.GroupQueue.Drain.{pop_waiting, drain_waiting_keeps}
use evoclaw.GroupQueue.Retry.{retry_fires}
use evoclaw.GroupQueue.Run.{
  Outcome, succeeded, failed, raised, skipped, begin_job, settle, release, end_job, shutdown,
  shutdown_sync,
}
use evoclaw.GroupQueue.Bounds.{run-init-CountsOk}
use evoclaw.GroupQueue.Trace.{
  Event, message, schedule, begins, ends, fires, stops, stops_sync, begin_at, end_at, fire_at, step,
  run,
}

-- The group in state `s` is not stranded, where `waiting` says that it stands in the queue.
abbrev pub IsServed : GroupState → Bool → Type 0
IsServed s waiting = (s.pending_tasks ≡ []) ⊎ (s.active ≡ true) ⊎ (waiting ≡ true)

-- Once the queue shuts down nothing is started any more, and nothing is claimed.
abbrev pub AllServed : GroupQueue → Type 0
AllServed q =
    q.shutting_down ≡ false → (k : String) → IsServed (get_group q k) (member k q.waiting_set)

abbrev OthersServed : String → GroupQueue → Type 0
OthersServed j q =
    q.shutting_down ≡ false
    → (k : String) → (j ≡ k) ⊎ IsServed (get_group q k) (member k q.waiting_set)

module _ (q : GroupQueue) (j : String) where
  put_group-AllServed :
      (s : GroupState)
      → OthersServed j q
      → IsServed s (member j q.waiting_set)
      → AllServed (put_group q j s)
  unfolding put_group
  put_group-AllServed s v h up k =
      ground (arith, get_group-put_group q j k s, v up k, string_discrete j k)

  launch-AllServed :
      (s : GroupState) (job : Job)
      → OthersServed j q
      → s.active ≡ true
      → AllServed (launch q j s job)
  unfolding launch
  launch-AllServed s job v h up k =
      ground (arith, get_group-launch q j k s job, v up k, string_discrete j k)

  wait_for_slot-AllServed : AllServed q → AllServed (wait_for_slot q j)
  unfolding wait_for_slot
  wait_for_slot-AllServed v up k = ground (
    arith,
    get_group-wait_for_slot q j k,
    v (ground arith) k,
    member-append k q.waiting_set (j ∷ []),
  )

to_others : (j : String) (q : GroupQueue) → AllServed q → OthersServed j q
to_others j q v up k = inr (v up k)

module _ (q : GroupQueue) (j : String) (v : AllServed q) where
  -- A write that keeps the pending tasks and the active flag.
  same_work :
      (s : GroupState)
      → s.pending_tasks ≡ (get_group q j).pending_tasks
      → s.active ≡ (get_group q j).active
      → AllServed (put_group q j s)
  unfolding put_group
  same_work s et ea up k =
      ground (arith, get_group-put_group q j k s, v up k, v up j, string_discrete j k)

  message-AllServed : (max now : ℕ) (r : Bool) → AllServed (enqueue_message_check max q j now r)
  unfolding mark_pending start_messages
  message-AllServed max now r =
      let marked = same_work (mark_pending (get_group q j) now) refl refl in
      message_cases AllServed q j max now r (λ _. v) (λ _. marked)
        (λ _ _. wait_for_slot-AllServed _ j marked)
        λ _ _ _. launch-AllServed q j _ _ (to_others j q v) refl

  limit-AllServed : (s : GroupState) (t : QueuedTask) → AllServed (enqueue_at_limit q j s t)
  unfolding put_group get_group
  limit-AllServed s t =
      limit_cases AllServed q j s t v
        (λ _ inside. put_group-AllServed q j _ (to_others j q v) (inr (inr inside)))
        λ _ _ _.
          put_group-AllServed (join_waiting q j) j _ (joined v) (inr (inr (here q.waiting_set)))
    where
      here : (ws : List String) → member j (ws ++ j ∷ []) ≡ true
      here ws = ground (arith, member-append j ws (j ∷ []), member_self j [])

      joined : AllServed q → OthersServed j (join_waiting q j)
      joined v up k = ground (arith, v up k, member-append k q.waiting_set (j ∷ []))

  task-AllServed : (max : ℕ) (id : String) → AllServed (enqueue_task max q j id)
  unfolding start_task get_group
  task-AllServed max id =
      task_cases AllServed q j max id v v
        (λ _ busy _. put_group-AllServed q j _ (to_others j q v) (inr (inl (still busy))))
        (λ _ _ _. limit-AllServed _ _) λ _ _ _. launch-AllServed q j _ _ (to_others j q v) refl
    where
      still :
          (get_group q j).active ≡ true
          → (push_task (get_group q j) (record { id = id; group_jid = j })).active ≡ true
      still busy = unfold push_task in busy

-- The head of the queue is served when it is taken off.
serve-AllServed :
    (q : GroupQueue) (j : String) (now : ℕ) → OthersServed j q → AllServed (serve_waiting q j now)
unfolding start_task start_messages
serve-AllServed q j now v =
    serve_cases AllServed q j now (λ t rest e. launch-AllServed q j _ _ v refl) nothing_left
      λ e. launch-AllServed q j _ _ v refl
  where
    nothing_left : (get_group q j).pending_tasks ≡ [] → AllServed q
    nothing_left e up k = ground (arith, v up k)

pop-OthersServed :
    (q : GroupQueue) (j : String) (rest : List String)
    → AllServed q
    → OthersServed j (pop_waiting q j rest)
unfolding get_group
pop-OthersServed q j rest v up k =
    ground (arith, v up k, member-discard j k q.waiting_set, string_discrete j k)

drain_waiting-AllServed :
    (max : ℕ) (q : GroupQueue) (now : ℕ) → AllServed q → AllServed (drain_waiting max q now)
drain_waiting-AllServed max q now v =
    drain_waiting_keeps max now AllServed
      (λ q j rest _ _ v. serve-AllServed (pop_waiting q j rest) j now (pop-OthersServed q j rest v))
      q v

drain_group-AllServed :
    (max : ℕ) (q : GroupQueue) (j : String) (now : ℕ)
    → OthersServed j q
    → AllServed (drain_group max q j now)
unfolding start_task start_messages
drain_group-AllServed max q j now v =
    drain_group_cases AllServed q j max now (λ down up. cc)
      (λ t rest _ e. launch-AllServed q j _ _ v refl) (λ e _. nothing_left e)
      (λ _ _. launch-AllServed q j _ _ v refl)
      λ e. drain_waiting-AllServed max q now (nothing_left e)
  where
    nothing_left : (get_group q j).pending_tasks ≡ [] → AllServed q
    nothing_left e up k = ground (arith, v up k)

settle-AllServed :
    (q : GroupQueue) (j : String) (o : Outcome) → AllServed q → AllServed (settle q j o)
unfolding settle get_group put_group
settle-AllServed q j succeeded v = same_work q j v _ refl refl
settle-AllServed q j failed v =
    retry_cases AllServed q j (λ _. same_work q j v _ refl refl) λ _. same_work q j v _ refl refl
settle-AllServed q j raised v =
    retry_cases AllServed q j (λ _. same_work q j v _ refl refl) λ _. same_work q j v _ refl refl
settle-AllServed q j skipped v = v

release-OthersServed :
    (q : GroupQueue) (j : String) (s : GroupState) → AllServed q → OthersServed j (release q j s)
unfolding release put_group get_group
release-OthersServed q j s v up k =
    ground (arith, get_group-put_group q j k s, v up k, string_discrete j k)

end_job-AllServed :
    (max : ℕ) (q : GroupQueue) (job : Job) (o : Outcome) (now : ℕ)
    → AllServed q
    → AllServed (end_job max q job o now)
unfolding end_job
end_job-AllServed max q (messages j queued) o now v =
    drain_group-AllServed max _ j now (release-OthersServed _ j _ (settle-AllServed q j o v))
end_job-AllServed max q (task j t) o now v =
    drain_group-AllServed max _ j now (release-OthersServed q j _ v)

begin_job-AllServed : (q : GroupQueue) (job : Job) → AllServed q → AllServed (begin_job q job)
unfolding begin_job
begin_job-AllServed q (messages j queued) v = same_work q j v _ refl refl
begin_job-AllServed q (task j t) v = same_work q j v _ refl refl

step-AllServed : (max : ℕ) (q : GroupQueue) (e : Event) → AllServed q → AllServed (step max q e)
unfolding step begin_at end_at fire_at retry_fires get_group shutdown shutdown_sync
step-AllServed max q (message j now) v = message-AllServed q j v max now false
step-AllServed max q (schedule j id) v = task-AllServed q j v max id
step-AllServed max q (begins i) v = elim (Option-cases (take_at q.created i)) [
  | inl missing ↦ rw missing v
  | inr ((job, rest), found) ↦ rw found (begin_job-AllServed _ job v)
]
step-AllServed max q (ends i o now) v = elim (Option-cases (take_at q.running i)) [
  | inl missing ↦ rw missing v
  | inr ((job, rest), found) ↦ rw found (end_job-AllServed max _ job o now v)
]
step-AllServed max q (fires i now) v = elim (Option-cases (take_at q.retry_tasks i)) [
  | inl missing ↦ rw missing v
  | inr (((j, delay), rest), found) ↦ rw found (
      if_elim AllServed q.shutting_down _ _ (λ _. v)
        λ _. message-AllServed _ j (same_work _ j v _ refl refl) max now true)
]
step-AllServed max q stops v = λ up k. cc
step-AllServed max q stops_sync v = λ up k. cc

run-AllServed :
    (max : ℕ) (q : GroupQueue) (es : List Event) → AllServed q → AllServed (run max q es)
unfolding run
run-AllServed max q [] v = v
run-AllServed max q (e ∷ es) v = run-AllServed max (step max q e) es (step-AllServed max q e v)

-- After any sequence of events from the start, as long as the queue is not shutting down, a group
-- has no pending task, or has the active flag, or stands in the FIFO of waiting groups.
pub run-init-IsServed :
    (max : ℕ) (es : List Event)
    → let q = run max init es in
      q.shutting_down ≡ false → (k : String) → IsServed (get_group q k) (member k q.waiting_groups)
run-init-IsServed max es up k =
    subst (λ ws. IsServed (get_group (run max init es) k) (member k ws))
      (run-init-CountsOk max es).queue_mirrored
      (run-AllServed max init es (λ _ k. inl (rw get_group-init)) up k)
