-- ===== src/GroupQueue/Dedup.antt =====
-- A task that is running or pending is not taken a second time.
use evoclaw.Base.{
  ℕ, String, ◌≡◌, refl, sym, ◌⊎◌, inl, inr, List, [], ◌∷◌, ◌++◌, arith, length, length-append,
  member, member-append, member_self, string_discrete, true, false, if_pos, ap,
}
use evoclaw.GroupQueue.{
  GroupQueue, GroupState, QueuedTask, Job, get_group, put_group, launch, join_waiting, enqueue_task,
  enqueue_at_limit, is_running, start_task, push_task,
}
use evoclaw.GroupQueue.Store.{get_group-put_self, get_group-launch_self}
use evoclaw.GroupQueue.Cases.{limit_cases, task_cases}

module _ (max : ℕ) (q : GroupQueue) (j id : String) where
  enqueue_task_known :
      (is_running (get_group q j) id ≡ true) ⊎ (member id (get_group q j).pending_task_ids ≡ true)
      → enqueue_task max q j id ≡ q
  unfolding enqueue_task
  enqueue_task_known h = ground arith

member_snoc : (xs : List String) (id : String) → member id (xs ++ id ∷ []) ≡ true
member_snoc xs id = ground (arith, member-append id xs (id ∷ []), member_self id [])

longer {ℓ} : {A : Type ℓ} (xs : List A) (x : A) → xs ++ x ∷ [] ≡ xs → ⊥
longer xs x e = omega (arith, ap (λ l. length l) e, length-append xs (x ∷ []))

module _ (max : ℕ) (q : GroupQueue) (j id : String) where
  abbrev t : QueuedTask
  t = record { id = id; group_jid = j }

  -- What the second call does after a first one that ended in `r`.
  abbrev Settled : GroupQueue → Type 0
  Settled r = r ≡ enqueue_task max q j id → r.notices ≡ q.notices → enqueue_task max r j id ≡ r

  pushed : (r : GroupQueue) (s : GroupState) → Settled (put_group r j (push_task s t))
  pushed r s _ _ =
      enqueue_task_known max _ j id
        (inr (rw get_group-put_self (unfold push_task in member_snoc s.pending_task_ids id)))

  -- Calling `enqueue_task` again with the same task changes nothing, whether the first call
  -- started the task, queued it or ignored it, unless that call reported a full task queue.
  enqueue_task_idem :
      (enqueue_task max q j id).notices ≡ q.notices
      → enqueue_task max (enqueue_task max q j id) j id ≡ enqueue_task max q j id
  enqueue_task_idem =
      task_cases Settled q j max id (λ e _. sym e) (λ _ e. absurd (longer q.notices _ e))
        (λ _ _ _. pushed q _) (λ _ _ _. limit) (λ _ _ _. started) refl
    where
      limit : Settled (enqueue_at_limit q j (get_group q j) t)
      limit =
          limit_cases Settled q j (get_group q j) t (λ e _. sym e) (λ _ _. pushed q _)
            λ _ _ _. unfold put_group in pushed (join_waiting q j) (get_group q j)

      running : is_running (start_task (record (get_group q j) { retry_ready = false }) t) id ≡ true
      running = unfold start_task is_running in if_pos (string_discrete id id) refl true false

      started : Settled (
          launch q j (start_task (record (get_group q j) { retry_ready = false }) t) (Job.task j t))
      started _ _ = enqueue_task_known max _ j id (inl (rw get_group-launch_self running))
