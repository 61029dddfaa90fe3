-- ===== src/GroupQueue/Cases.antt =====
-- The branches of each operation, with what its guards say: a property of an operation's result is
-- proved by proving it of each branch.
use evoclaw.Base.{
  ℕ, ◌≤◌, ◌<◌, String, Bool, ◌≡◌, ◌⊎◌, inl, inr, true, false, List, [], ◌∷◌, ◌++◌, arith, ltb, leb,
  not, ◌&&◌, length, member, if_elim, list_elim, ◌+◌, leb→le, leb→gt,
}
use evoclaw.GroupQueue.{
  GroupQueue, GroupState, QueuedTask, Job, task_queue_full, retry_exceeded, get_group, put_group,
  launch, or_now, join_waiting, wait_for_slot, enqueue_message_check, enqueue_task,
  enqueue_at_limit, serve_waiting, drain_waiting, drain_group, start_messages, start_task,
  mark_pending, push_task, pop_task, backing_off, is_running,
}
use evoclaw.GroupQueue.Retry.{schedule_retry, retry_delay}

module _ (P : GroupQueue → Type 0) (q : GroupQueue) (j : String) where
  pub message_cases :
      (max now : ℕ) (retry : Bool)
      → let s = get_group q j in
        let pending = put_group q j (mark_pending s now) in
        (q.shutting_down ≡ true → P q)
        → ((s.active ≡ true) ⊎ (0 < s.retry_count) → P pending)
        → (s.active ≡ false → max ≤ q.active_count → P (wait_for_slot pending j))
        → (q.shutting_down ≡ false
            → s.active ≡ false
            → q.active_count < max
            → P (
                launch q j
                  (start_messages s)
                  (Job.messages j (or_now s.pending_message_queued_at_ms now))))
        → P (enqueue_message_check max q j now retry)
  unfolding enqueue_message_check
  message_cases max now retry stop pending wait go = if_elim P q.shutting_down _ _ stop λ up.
      if_elim P (get_group q j).active _ _ (λ a. pending (inl a))
        λ idle.
          if_elim P (ltb 0 (get_group q j).retry_count && not retry) _ _
            (λ r. pending (inr (ground arith)))
            λ _.
              if_elim P (leb max q.active_count) _ _ (λ full. wait idle (leb→le _ _ full))
                λ room. go up idle (leb→gt _ _ room)

  pub limit_cases :
      (s : GroupState) (t : QueuedTask)
      → P q
      → (length s.pending_tasks < 50
          → member j q.waiting_set ≡ true
          → P (put_group q j (push_task s t)))
      → (length s.pending_tasks < 50
          → member j q.waiting_set ≡ false
          → length q.waiting_groups < 100
          → P (join_waiting (put_group q j (push_task s t)) j))
      → P (enqueue_at_limit q j s t)
  unfolding enqueue_at_limit
  limit_cases s t same push join =
      if_elim P (not (member j q.waiting_set) && leb 100 (length q.waiting_groups)) _ _ (λ _. same)
        λ room.
          if_elim P (leb 50 (length s.pending_tasks)) _ _ (λ _. same)
            λ few.
              if_elim P (member j q.waiting_set) _ _ (push (leb→gt _ _ few))
                λ out. join (leb→gt _ _ few) out (ground arith)

  pub task_cases :
      (max : ℕ) (id : String)
      → let s = get_group q j in
        let t : QueuedTask = record { id = id; group_jid = j } in
        P q
        → P (record q { notices = q.notices ++ (j, task_queue_full) ∷ [] })
        → (member id s.pending_task_ids ≡ false
            → s.active ≡ true
            → length s.pending_tasks < 50
            → P (put_group q j (push_task s t)))
        → (member id s.pending_task_ids ≡ false
            → s.active ≡ false
            → max ≤ q.active_count
            → P (enqueue_at_limit q j s t))
        → (q.shutting_down ≡ false
            → s.active ≡ false
            → q.active_count < max
            → P (launch q j (start_task (record s { retry_ready = false }) t) (Job.task j t)))
        → P (enqueue_task max q j id)
  unfolding enqueue_task
  task_cases max id same full push limit go =
      if_elim P q.shutting_down _ _ (λ _. same)
        λ up.
          if_elim P (is_running (get_group q j) id) _ _ (λ _. same)
            λ _.
              if_elim P (member id (get_group q j).pending_task_ids) _ _ (λ _. same)
                λ new.
                  if_elim P (get_group q j).active _ _
                    (λ busy.
                      if_elim P (leb 50 (length (get_group q j).pending_tasks)) _ _ (λ _. full)
                        λ few. push new busy (leb→gt _ _ few))
                    λ idle.
                      if_elim P (leb max q.active_count) _ _ (λ at. limit new idle (leb→le _ _ at))
                        λ room. go up idle (leb→gt _ _ room)

  pub serve_cases :
      (now : ℕ)
      → let s = get_group q j in
        ((t : QueuedTask) (rest : List QueuedTask)
          → s.pending_tasks ≡ t ∷ rest
          → P (launch q j (start_task (pop_task s t rest) t) (Job.task j t)))
        → (s.pending_tasks ≡ [] → P q)
        → (s.pending_tasks ≡ []
            → P (
                launch q j
                  (record (start_messages s) { pending_messages = false })
                  (Job.messages j (or_now s.pending_message_queued_at_ms now))))
        → P (serve_waiting q j now)
  unfolding serve_waiting
  serve_cases now task same go = list_elim P (get_group q j).pending_tasks _ _ task λ none_left.
      if_elim P (get_group q j).pending_messages _ _
        (λ _. if_elim P (backing_off (get_group q j)) _ _ (λ _. same none_left) λ _. go none_left)
        λ _. same none_left

  pub drain_group_cases :
      (max now : ℕ)
      → let s = get_group q j in
        (q.shutting_down ≡ true → P q)
        → ((t : QueuedTask) (rest : List QueuedTask)
            → q.shutting_down ≡ false
            → s.pending_tasks ≡ t ∷ rest
            → P (launch q j (start_task (pop_task s t rest) t) (Job.task j t)))
        → (s.pending_tasks ≡ [] → backing_off s ≡ true → P q)
        → (q.shutting_down ≡ false
            → s.pending_tasks ≡ []
            → P (
                launch q j
                  (start_messages s)
                  (Job.messages j (or_now s.pending_message_queued_at_ms now))))
        → (s.pending_tasks ≡ [] → P (drain_waiting max q now))
        → P (drain_group max q j now)
  unfolding drain_group
  drain_group_cases max now stop task back go drain = if_elim P q.shutting_down _ _ stop λ up.
      list_elim P (get_group q j).pending_tasks _ _ (λ t rest e. task t rest up e)
        λ none_left.
          if_elim P (get_group q j).pending_messages _ _
            (λ _. if_elim P (backing_off (get_group q j)) _ _ (back none_left) λ _. go up none_left)
            λ _. drain none_left

  pub retry_cases :
      let s = get_group q j in
      (5 ≤ s.retry_count
        → P (record (put_group q j (record s { retry_count = 0; retry_ready = false })) {
          notices = q.notices ++ (j, retry_exceeded) ∷ [];
        }))
      → (s.retry_count < 5
          → P (record (put_group q j (record s { retry_count = s.retry_count + 1 })) {
            retry_tasks = q.retry_tasks ++ (j, retry_delay (s.retry_count + 1)) ∷ [];
          }))
      → P (schedule_retry q j)
  unfolding schedule_retry
  retry_cases over again =
      if_elim P (ltb 5 ((get_group q j).retry_count + 1)) _ _ (λ h. over (ground arith))
        λ h. again (ground arith)
