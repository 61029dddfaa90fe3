-- ===== src/GroupQueue/Overtaken.antt =====
-- What goes wrong after a failure: `_drain_waiting` does not look at the active flag of the group
-- that it takes off the queue.
use evoclaw.Base.{ℕ, ◌+◌, ◌≤◌, ◌<◌, String, ◌≡◌, refl, List, [], ◌∷◌, arith, if_pos}
use evoclaw.GroupQueue.{
  GroupQueue, GroupState, QueuedTask, Job, task, get_group, launch, serve_waiting, drain_waiting,
}
use evoclaw.GroupQueue.Jobs.{job_jid, is_of, containers, jobs_of-append, is_of_lem}
use evoclaw.GroupQueue.Cases.{serve_cases}
use evoclaw.GroupQueue.Drain.{pop_waiting, drain_waiting_keeps, drain_waiting-cons}

containers-launch :
    (q : GroupQueue) (j k : String) (s : GroupState) (job : Job)
    → containers (launch q j s job) k ≡ containers q k + is_of k job
unfolding launch
containers-launch q j k s job = omega (arith, jobs_of-append k q.created (job ∷ []))

containers-serve_waiting-le :
    (q : GroupQueue) (j k : String) (now n : ℕ)
    → n ≤ containers q k
    → n ≤ containers (serve_waiting q j now) k
containers-serve_waiting-le q j k now n h =
    serve_cases (λ r. n ≤ containers r k) q j now (λ t rest e. rw containers-launch (omega arith))
      (λ _. h) λ _. rw containers-launch (omega arith)

serve_waiting_task :
    (q : GroupQueue) (j : String) (now : ℕ) (t : QueuedTask) (ts : List QueuedTask)
    → (get_group q j).pending_tasks ≡ t ∷ ts
    → containers (serve_waiting q j now) j ≡ containers q j + 1
unfolding job_jid
serve_waiting_task q j now t ts e =
    serve_cases (λ r. containers r j ≡ containers q j + 1) q j now
      (λ u us _. rw (containers-launch, is_of_lem j j (task j u) refl, if_pos _ refl))
      (λ none_left. cc) λ none_left. cc

-- A group at the head of the waiting groups that has a container already and a pending task gets a
-- second container beside it, as soon as a slot is free and the waiting groups are drained.
pub drain_waiting_doubles :
    (max now : ℕ) (q : GroupQueue) (j : String) (rest : List String) (t : QueuedTask)
    (ts : List QueuedTask)
    → q.waiting_groups ≡ j ∷ rest
    → q.active_count < max
    → (get_group q j).pending_tasks ≡ t ∷ ts
    → 1 ≤ containers q j
    → 2 ≤ containers (drain_waiting max q now) j
unfolding get_group
drain_waiting_doubles max now q j rest t ts e room pending has =
    rw (drain_waiting-cons max now q j rest e room) (
      drain_waiting_keeps max now (λ r. 2 ≤ containers r j)
        (λ r i is _ _ h. containers-serve_waiting-le (pop_waiting r i is) i j now 2 h)
        (serve_waiting (pop_waiting q j rest) j now)
        (omega (arith, serve_waiting_task (pop_waiting q j rest) j now t ts pending)))
