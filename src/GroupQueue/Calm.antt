-- ===== src/GroupQueue/Calm.antt =====
-- The runs of a trace without failures keep the queue exclusive and busy.
use evoclaw.Base.{
  ℕ, ◌+◌, ◌<◌, String, ◌≡◌, refl, inl, inr, List, [], ◌∷◌, none, arith, member, member-discard,
  member_self, string_discrete, true, false, ite, if_pos, ap, ◌∙◌, take_at, length-take_at,
  Option-cases,
}
use evoclaw.GroupQueue.{
  GroupQueue, GroupState, Job, messages, task, init, get_group, put_group, launch, serve_waiting,
  drain_waiting, drain_group, start_messages, start_task, pop_task, backing_off,
}
use evoclaw.GroupQueue.Jobs.{job_jid, is_of, containers, jobs_of-append, jobs_of-take_at, is_of_lem}
use evoclaw.GroupQueue.Store.{get_group-init, get_group-put_self, get_group-put_group}
use evoclaw.GroupQueue.Cases.{serve_cases, drain_group_cases}
use evoclaw.GroupQueue.Drain.{pop_waiting, drain_waiting_keeps, drain_waiting_ends}
use evoclaw.GroupQueue.Run.{
  Outcome, succeeded, failed, raised, skipped, begin_job, settle, release, end_job, shutdown,
  shutdown_sync,
}
use evoclaw.GroupQueue.Bounds.{
  CountsOk, serve-CountsOk, pop-CountsOk, release-CountsOk, settle-CountsOk, step-CountsOk,
  run-init-CountsOk,
}
use evoclaw.GroupQueue.Exclusive.{
  Alone, AllAlone, Busy, Exclusive, put_group-Exclusive, launch-AllAlone, message-Exclusive,
  task-Exclusive,
}
use evoclaw.GroupQueue.Trace.{
  Event, message, schedule, begins, ends, fires, stops, stops_sync, begin_at, end_at, fire_at, step,
  run,
}

module _ (q : GroupQueue) (j : String) (v : AllAlone q) where
  serve-AllAlone :
      (now : ℕ)
      → (get_group q j).active ≡ false
      → member j q.waiting_set ≡ false
      → AllAlone (serve_waiting q j now)
  unfolding start_task start_messages pop_task job_jid
  serve-AllAlone now idle out =
      serve_cases AllAlone q j now
        (λ t rest e. launch-AllAlone q j v _ _ refl idle out refl (v j).calm) (λ _. v)
        λ _. launch-AllAlone q j v _ _ refl idle out refl (v j).calm

  pop-AllAlone : (rest : List String) → AllAlone (pop_waiting q j rest)
  unfolding get_group
  pop-AllAlone rest k = ground (arith, v k, member-discard j k q.waiting_set, string_discrete j k)

record LoopOk (max : ℕ) (q : GroupQueue) : Type 0 where
  alone : AllAlone q
  counts : CountsOk max 0 q
  no_timers : q.retry_tasks ≡ []

turn-LoopOk :
    (max : ℕ) (q : GroupQueue) (j : String) (rest : List String) (now : ℕ)
    → q.waiting_groups ≡ j ∷ rest
    → q.active_count < max
    → LoopOk max q
    → LoopOk max (serve_waiting (pop_waiting q j rest) j now)
unfolding get_group launch
turn-LoopOk max q j rest now e room v = record {
  alone = serve-AllAlone (pop_waiting q j rest) j (pop-AllAlone q j v.alone rest) now idle out;
  counts = serve-CountsOk (pop_waiting q j rest) j (pop-CountsOk q j v.counts rest e) now room;
  no_timers =
      serve_cases (λ r. r.retry_tasks ≡ []) (pop_waiting q j rest) j now (λ _ _ _. v.no_timers)
        (λ _. v.no_timers) λ _. v.no_timers;
}
  where
    waits : member j q.waiting_set ≡ true
    waits = ground (arith, v.counts.queue_mirrored, member_self j rest)

    idle : (get_group q j).active ≡ false
    idle = (v.alone j).idle waits

    out : member j (pop_waiting q j rest).waiting_set ≡ false
    out = ground (arith, member-discard j j q.waiting_set, string_discrete j j)

module _ (max : ℕ) (q : GroupQueue) (j : String) (now : ℕ) (v : LoopOk max q) where
  drain_waiting-Exclusive : Exclusive max (drain_waiting max q now)
  drain_waiting-Exclusive =
      let done =
        drain_waiting_keeps max now (LoopOk max)
          (λ q j rest e room v. turn-LoopOk max q j rest now e room v) q v in
      record {
        alone = done.alone;
        busy = ground (arith, drain_waiting_ends max now q);
        no_timers = done.no_timers;
      }

  drain_group-Exclusive :
      (get_group q j).active ≡ false
      → member j q.waiting_set ≡ false
      → Busy max 1 q
      → Exclusive max (drain_group max q j now)
  unfolding start_task start_messages pop_task job_jid
  drain_group-Exclusive idle out busy =
      drain_group_cases (Exclusive max) q j max now
        (λ down. record { alone = v.alone; busy = inl down; no_timers = v.no_timers })
        (λ t rest _ e. started _ _ refl refl (v.alone j).calm) (λ _ back. absurd (no_backoff back))
        (λ _ _. started _ _ refl refl (v.alone j).calm) λ _. drain_waiting-Exclusive
    where
      no_backoff : backing_off (get_group q j) ≡ true → ⊥
      no_backoff back = unfold backing_off in ground (arith, (v.alone j).calm, back)

      started :
          (s : GroupState) (job : Job)
          → job_jid job ≡ j
          → s.active ≡ true
          → s.retry_count ≡ 0
          → Exclusive max (launch q j s job)
      started s job of_j on calm = record {
        alone = launch-AllAlone q j v.alone s job of_j idle out on calm;
        busy = unfold launch in ground (arith, busy);
        no_timers = unfold launch in v.no_timers;
      }

get_group-release :
    (q : GroupQueue) (j k : String) (s : GroupState)
    → get_group (release q j s) k ≡ ite (string_discrete j k) s (get_group q k)
unfolding get_group put_group release
get_group-release q j k s = get_group-put_group q j k s

-- A run has been taken off the running ones, and its group's flag is still set.
abbrev WithJob : GroupQueue → Job → Type 0
WithJob q job =
    (k : String) → Alone (get_group q k) (containers q k + is_of k job) (member k q.waiting_set)

module _ (q : GroupQueue) (j : String) (job : Job) (of_j : job_jid job ≡ j) where
  put_group-WithJob :
      (s : GroupState)
      → s.active ≡ (get_group q j).active
      → s.retry_count ≡ 0
      → WithJob q job
      → WithJob (put_group q j s) job
  unfolding put_group
  put_group-WithJob s e calm v k =
      ground (arith, get_group-put_group q j k s, v k, v j, string_discrete j k)

  release-AllAlone :
      (s : GroupState)
      → s.active ≡ false
      → s.retry_count ≡ 0
      → WithJob q job
      → AllAlone (release q j s)
  unfolding release put_group
  release-AllAlone s off calm v k =
      ground
        (arith, get_group-release q j k s, v k, v j, string_discrete j k, is_of_lem k j job of_j)

  release_idle : (s : GroupState) → s.active ≡ false → (get_group (release q j s) j).active ≡ false
  release_idle s off =
      ap (λ g. g.active) (get_group-release q j j s ∙ if_pos (string_discrete j j) refl s _) ∙ off

  not_waiting : WithJob q job → member j q.waiting_set ≡ false
  not_waiting v = ground (arith, v j, is_of_lem j j job of_j, string_discrete j j, (v j).idle)

-- The end of a run, from the moment at which its outcome has been settled.
module _ {max : ℕ} (q : GroupQueue) (j : String) (job : Job) (of_j : job_jid job ≡ j) where
  finish-Exclusive :
      (s : GroupState) (now : ℕ)
      → s.active ≡ false
      → s.retry_count ≡ 0
      → WithJob q job
      → CountsOk max 1 q
      → Busy max 0 q
      → q.retry_tasks ≡ []
      → Exclusive max (drain_group max (release q j s) j now)
  unfolding release put_group
  finish-Exclusive s now off calm v c busy none_set =
      drain_group-Exclusive max (release q j s) j now
        (record {
          alone = release-AllAlone q j job of_j s off calm v;
          counts = (release-CountsOk q j s c).0;
          no_timers = none_set;
        })
        (release_idle q j job of_j s off) (not_waiting q j job of_j v)
        (ground (arith, busy, c.counted))

-- The handler of messages, or the task, does not fail.
abbrev pub IsCalm : Event → Type 0
IsCalm (ends i failed now) = ⊥
IsCalm (ends i raised now) = ⊥
IsCalm _ = Unit {0}

abbrev pub AllCalm : List Event → Type 0
AllCalm [] = Unit {0}
AllCalm (e ∷ es) = IsCalm e × AllCalm es

module _ {max : ℕ} (q : GroupQueue) (i : ℕ) (now : ℕ) where
  end_job-Exclusive :
      (job : Job) (o : Outcome)
      → IsCalm (ends i o now)
      → WithJob q job
      → CountsOk max 1 q
      → Busy max 0 q
      → q.retry_tasks ≡ []
      → Exclusive max (end_job max q job o now)
  unfolding end_job settle put_group job_jid
  end_job-Exclusive (task j t) o _ v c busy none_set =
      finish-Exclusive q j (task j t) refl _ now refl (v j).calm v c busy none_set
  end_job-Exclusive (messages j queued) succeeded _ v c busy none_set =
      finish-Exclusive _ j (messages j queued) refl _ now refl (rw get_group-put_self)
        (put_group-WithJob q j (messages j queued) refl _ refl refl v)
        (settle-CountsOk q j succeeded c) busy none_set
  end_job-Exclusive (messages j queued) skipped _ v c busy none_set =
      finish-Exclusive q j (messages j queued) refl _ now refl (v j).calm v c busy none_set
  end_job-Exclusive (messages j queued) failed h v c busy none_set = absurd h
  end_job-Exclusive (messages j queued) raised h v c busy none_set = absurd h

begin_job-Exclusive :
    {max : ℕ} (q : GroupQueue) (job : Job) → Exclusive max q → Exclusive max (begin_job q job)
unfolding begin_job
begin_job-Exclusive q (messages j queued) v = put_group-Exclusive q j v _ refl (v.alone j).calm
begin_job-Exclusive q (task j t) v = put_group-Exclusive q j v _ refl (v.alone j).calm

none_fires {ℓ} : {A : Type ℓ} (xs : List A) (i : ℕ) → xs ≡ [] → take_at xs i ≡ none
unfolding take_at
none_fires [] i e = refl
none_fires (x ∷ xs) i e = cc

step-Exclusive :
    (max : ℕ) (q : GroupQueue) (e : Event)
    → IsCalm e
    → CountsOk max 0 q
    → Exclusive max q
    → Exclusive max (step max q e)
unfolding step begin_at end_at fire_at get_group shutdown shutdown_sync
step-Exclusive max q (message j now) _ c v = message-Exclusive q j v now false c
step-Exclusive max q (schedule j id) _ c v = task-Exclusive q j v id c
step-Exclusive max q (begins i) _ c v = elim (Option-cases (take_at q.created i)) [
  | inl missing ↦ rw missing v
  | inr ((job, rest), found) ↦ rw found (
      begin_job-Exclusive _ job (record {
        alone = λ k. ground (
          arith,
          v.alone k,
          jobs_of-take_at k q.created i,
          jobs_of-append k q.running (job ∷ []),
        );
        busy = v.busy;
        no_timers = v.no_timers;
      }))
]
step-Exclusive max q (ends i o now) calm c v = elim (Option-cases (take_at q.running i)) [
  | inl missing ↦ rw missing v
  | inr ((job, rest), found) ↦ rw found (
      end_job-Exclusive _ i now job o calm
        (λ k. ground (arith, v.alone k, jobs_of-take_at k q.running i))
        (ground (arith, length-take_at q.running i)) v.busy v.no_timers)
]
step-Exclusive max q (fires i now) _ c v = rw (none_fires q.retry_tasks i v.no_timers) v
step-Exclusive max q stops _ c v = record { alone = v.alone; busy = inl refl; no_timers = refl }
step-Exclusive max q stops_sync _ c v = record {
  alone = v.alone;
  busy = inl refl;
  no_timers = v.no_timers;
}

run-Exclusive :
    (max : ℕ) (q : GroupQueue) (es : List Event)
    → AllCalm es
    → CountsOk max 0 q
    → Exclusive max q
    → Exclusive max (run max q es)
unfolding run
run-Exclusive max q [] _ c v = v
run-Exclusive max q (e ∷ es) calm c v =
    run-Exclusive max (step max q e) es calm.1 (step-CountsOk max q e c)
      (step-Exclusive max q e calm.0 c v)

-- After any sequence of events from the start in which no run fails: every group has at most one
-- container, exactly when its active flag is set; a waiting group has none; and, unless the queue
-- shuts down, either no group waits or every slot is in use.
pub run-init-Exclusive : (max : ℕ) (es : List Event) → AllCalm es → Exclusive max (run max init es)
unfolding run
run-init-Exclusive max es calm =
    run-Exclusive max init es calm (run-init-CountsOk max [])
      (record { alone = alone; busy = inr (inl refl); no_timers = refl })
  where
    alone : AllAlone init
    alone k = rw get_group-init (record { one = refl; idle = λ h. refl; calm = refl })
