-- ===== src/GroupQueue/Exclusive.antt =====
-- At most one container for a group, and no free slot while a group waits: as long as no run fails.
-- After a failed run both can break: when the group that ended backs off, `_drain_group` keeps the
-- freed slot back from the waiting groups, and a group that waits may then be started past the
-- queue, and once more from it.
use evoclaw.Base.{
  ℕ, ◌+◌, ◌≤◌, ◌<◌, String, ◌≡◌, refl, ◌⊎◌, inl, inr, [], ◌∷◌, arith, member, member-append,
  member-one, string_discrete, true, false, Bool, if◌then◌else◌,
}
use evoclaw.GroupQueue.{
  GroupQueue, GroupState, QueuedTask, Job, get_group, put_group, launch, join_waiting,
  wait_for_slot, enqueue_message_check, enqueue_task, enqueue_at_limit, start_messages, start_task,
  mark_pending, push_task,
}
use evoclaw.GroupQueue.Jobs.{job_jid, containers, jobs_of-append, is_of_lem}
use evoclaw.GroupQueue.Store.{
  get_group-put_self, get_group-put_group, get_group-launch, get_group-wait_for_slot,
}
use evoclaw.GroupQueue.Cases.{message_cases, limit_cases, task_cases}
use evoclaw.GroupQueue.Bounds.{CountsOk}

abbrev pub one_if : Bool → ℕ
one_if b = if b then 1 else 0

-- Of one group: it has a container exactly when its flag is set, does not wait then, and has no
-- failure on its count.
pub record Alone (s : GroupState) (containers : ℕ) (waiting : Bool) : Type 0 where
  pub one : containers ≡ one_if s.active
  pub idle : waiting ≡ true → s.active ≡ false
  pub calm : s.retry_count ≡ 0

abbrev pub AllAlone : GroupQueue → Type 0
AllAlone q = (k : String) → Alone (get_group q k) (containers q k) (member k q.waiting_set)

module _ (q : GroupQueue) (j : String) (v : AllAlone q) where
  pub put_group-AllAlone :
      (s : GroupState)
      → s.active ≡ (get_group q j).active
      → s.retry_count ≡ 0
      → AllAlone (put_group q j s)
  unfolding put_group
  put_group-AllAlone s e calm k =
      ground (arith, get_group-put_group q j k s, v k, v j, string_discrete j k)

  pub launch-AllAlone :
      (s : GroupState) (job : Job)
      → job_jid job ≡ j
      → (get_group q j).active ≡ false
      → member j q.waiting_set ≡ false
      → s.active ≡ true
      → s.retry_count ≡ 0
      → AllAlone (launch q j s job)
  unfolding launch
  launch-AllAlone s job of_j idle out on calm k = ground (
    arith,
    get_group-launch q j k s job,
    v k,
    v j,
    string_discrete j k,
    is_of_lem k j job of_j,
    jobs_of-append k q.created (job ∷ []),
  )

  wait_for_slot-AllAlone : (get_group q j).active ≡ false → AllAlone (wait_for_slot q j)
  unfolding wait_for_slot
  wait_for_slot-AllAlone idle k = ground (
    arith,
    get_group-wait_for_slot q j k,
    v k,
    v j,
    string_discrete j k,
    member-append k q.waiting_set (j ∷ []),
    member-one k j,
  )

  join_waiting-AllAlone : (get_group q j).active ≡ false → AllAlone (join_waiting q j)
  unfolding get_group
  join_waiting-AllAlone idle k =
      ground (
        arith,
        v k,
        v j,
        string_discrete j k,
        member-append k q.waiting_set (j ∷ []),
        member-one k j,
      )

-- A free slot stands for no waiting group, up to `slack` slots about to be used again.
abbrev pub Busy : ℕ → ℕ → GroupQueue → Type 0
Busy max slack q =
    (q.shutting_down ≡ true) ⊎ (q.waiting_groups ≡ []) ⊎ (max ≤ q.active_count + slack)

pub record Exclusive (max : ℕ) (q : GroupQueue) : Type 0 where
  pub alone : AllAlone q
  pub busy : Busy max 0 q
  pub no_timers : q.retry_tasks ≡ []

module _ {max : ℕ} (q : GroupQueue) (j : String) (v : Exclusive max q) where
  pub put_group-Exclusive :
      (s : GroupState)
      → s.active ≡ (get_group q j).active
      → s.retry_count ≡ 0
      → Exclusive max (put_group q j s)
  unfolding put_group
  put_group-Exclusive s e calm = record {
    alone = put_group-AllAlone q j v.alone s e calm;
    busy = v.busy;
    no_timers = v.no_timers;
  }

  wait_for_slot-Exclusive :
      (get_group q j).active ≡ false → max ≤ q.active_count → Exclusive max (wait_for_slot q j)
  unfolding wait_for_slot
  wait_for_slot-Exclusive idle full = record {
    alone = wait_for_slot-AllAlone q j v.alone idle;
    busy = ground arith;
    no_timers = ground (arith, v.no_timers);
  }

  -- A slot is free: nobody waits, so a group that starts is not in the queue.
  launch-Exclusive :
      (s : GroupState) (job : Job)
      → CountsOk max 0 q
      → job_jid job ≡ j
      → (get_group q j).active ≡ false
      → q.shutting_down ≡ false
      → q.active_count < max
      → s.active ≡ true
      → s.retry_count ≡ 0
      → Exclusive max (launch q j s job)
  unfolding launch member
  launch-Exclusive s job c of_j idle up room on calm =
      let nobody : q.waiting_groups ≡ [] = ground (arith, v.busy) in
      record {
        alone =
            launch-AllAlone q j v.alone s job of_j idle (ground (arith, nobody, c.queue_mirrored))
              on calm;
        busy = inr (inl nobody);
        no_timers = v.no_timers;
      }

  limit-Exclusive :
      (t : QueuedTask)
      → (get_group q j).active ≡ false
      → max ≤ q.active_count
      → Exclusive max (enqueue_at_limit q j (get_group q j) t)
  unfolding put_group push_task get_group
  limit-Exclusive t idle full =
      limit_cases (Exclusive max) q j (get_group q j) t v
        (λ _ _. put_group-Exclusive _ refl (v.alone j).calm)
        λ _ _ _. record {
          alone =
              put_group-AllAlone (join_waiting q j) j (join_waiting-AllAlone q j v.alone idle) _
                refl (v.alone j).calm;
          busy = inr (inr (omega arith));
          no_timers = v.no_timers;
        }

  pub task-Exclusive : (id : String) → CountsOk max 0 q → Exclusive max (enqueue_task max q j id)
  unfolding start_task push_task job_jid get_group
  task-Exclusive id c =
      let calm = (v.alone j).calm in
      task_cases (Exclusive max) q j max id v
        (record { alone = v.alone; busy = v.busy; no_timers = v.no_timers })
        (λ _ _ _. put_group-Exclusive _ refl calm) (λ _ idle full. limit-Exclusive _ idle full)
        λ up idle room. launch-Exclusive _ _ c refl idle up room refl calm

module _ {max : ℕ} (q : GroupQueue) (j : String) (v : Exclusive max q) where
  pub message-Exclusive :
      (now : ℕ) (r : Bool) → CountsOk max 0 q → Exclusive max (enqueue_message_check max q j now r)
  unfolding mark_pending start_messages job_jid
  message-Exclusive now r c =
      let calm = (v.alone j).calm in
      let marked = put_group-Exclusive q j v (mark_pending (get_group q j) now) refl calm in
      message_cases (Exclusive max) q j max now r (λ _. v) (λ _. marked)
        (λ idle full.
          wait_for_slot-Exclusive _ j marked (rw get_group-put_self idle)
            (unfold put_group in full))
        λ up idle room. launch-Exclusive q j v _ _ c refl idle up room refl calm
