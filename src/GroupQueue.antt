-- ===== src/GroupQueue.antt =====
-- host/group_queue.py: the per-group queue with global concurrency control. Every method between
-- two awaits is one function on the queue's state; the coroutines that it hands to the event loop
-- stand in `created` until they begin and in `running` until they end. The clock is an argument.
-- A task's function is run by the environment: how it ends is an argument of the operation that
-- ends the run. Log lines are left out; the messages sent to a group's users are kept in `notices`.
pub mod Retry
pub mod Run
pub mod Trace
pub mod Store
pub mod Cases
pub mod Drain
pub mod Bounds
pub mod Pending
pub mod Wakeup
pub mod Jobs
pub mod Exclusive
pub mod Calm
pub mod Dedup
pub mod Streak
pub mod Overtaken
mod Tests
use evoclaw.Base.{
  ℕ, suc, ◌+◌, ◌-◌, String, Bool, true, false, not, ◌&&◌, Option, none, some, List, [], ◌∷◌, ◌++◌,
  ite, ltb, leb, if◌then◌else◌, length, member, discard, string_discrete,
}
use evoclaw.Base.Dict.{Dict, get, set}

abbrev pub max_retries : ℕ
max_retries = 5

-- `BASE_RETRY_SECS`
abbrev pub base_retry_secs : ℕ
base_retry_secs = 5

abbrev pub max_pending_tasks_per_group : ℕ
max_pending_tasks_per_group = 50

abbrev pub max_waiting_groups : ℕ
max_waiting_groups = 100

pub record QueuedTask : Type 0 where
  pub id : String
  pub group_jid : String

pub record GroupState : Type 0 where
  pub active : Bool
  pub idle_waiting : Bool
  pub is_task_container : Bool
  pub running_task_id : Option String
  pub pending_messages : Bool
  pub pending_message_queued_at_ms : Option ℕ
  pub pending_tasks : List QueuedTask
  pub pending_task_ids : List String
  pub retry_count : ℕ
  pub retry_ready : Bool

abbrev pub fresh_group : GroupState
fresh_group = record {
  active = false;
  idle_waiting = false;
  is_task_container = false;
  running_task_id = none;
  pending_messages = false;
  pending_message_queued_at_ms = none;
  pending_tasks = [];
  pending_task_ids = [];
  retry_count = 0;
  retry_ready = false;
}

-- A coroutine given to the event loop: `_run_for_group` or `_run_task`.
pub data Job : Type 0 where
  messages : String → ℕ → Job
  task : String → QueuedTask → Job

pub data Notice : Type 0 where
  task_queue_full : Notice
  retry_exceeded : Notice

pub record GroupQueue : Type 0 where
  pub groups : Dict GroupState
  pub active_count : ℕ
  pub waiting_groups : List String
  pub waiting_set : List String
  pub shutting_down : Bool
  pub retry_tasks : List (String × ℕ)
  pub created : List Job
  pub running : List Job
  pub notices : List (String × Notice)

abbrev pub init : GroupQueue
init = record {
  groups = [];
  active_count = 0;
  waiting_groups = [];
  waiting_set = [];
  shutting_down = false;
  retry_tasks = [];
  created = [];
  running = [];
  notices = [];
}

or_fresh : Option GroupState → GroupState
or_fresh none = fresh_group
or_fresh (some s) = s

-- `_get_group`: a group that is not in the dict yet is a fresh one.
pub get_group : GroupQueue → String → GroupState
unfolding or_fresh
get_group q jid = or_fresh (get jid q.groups)

-- The state object of a group is shared: a write to it is a write to the dict's entry.
pub put_group : GroupQueue → String → GroupState → GroupQueue
put_group q jid s = record q { groups = set jid s q.groups }

-- `asyncio.create_task` of a run whose group state has been written, and the count's increment.
pub launch : GroupQueue → String → GroupState → Job → GroupQueue
launch q jid s job = record q {
  groups = set jid s q.groups;
  active_count = q.active_count + 1;
  created = q.created ++ job ∷ [];
}

-- `a or b` on an optional time: 0 counts as no time.
pub or_now : Option ℕ → ℕ → ℕ
or_now none now = now
or_now (some t) now = if ltb 0 t then t else now

-- The pending flag, and the time at which the first pending message came.
pub mark_pending : GroupState → ℕ → GroupState
mark_pending s now = record s {
  pending_messages = true;
  pending_message_queued_at_ms = elim s.pending_message_queued_at_ms [
    | none ↦ some now
    | some t ↦ some t
  ];
}

-- `_waiting_groups.append` and `_waiting_set.add`
abbrev pub join_waiting : GroupQueue → String → GroupQueue
join_waiting q jid = record q {
  waiting_groups = q.waiting_groups ++ jid ∷ [];
  waiting_set = q.waiting_set ++ jid ∷ [];
}

-- The group joins the FIFO of waiting groups, if it is not in it and there is room.
pub wait_for_slot : GroupQueue → String → GroupQueue
wait_for_slot q jid =
    if member jid q.waiting_set
    then q
    else if ltb (length q.waiting_groups) max_waiting_groups
    then join_waiting q jid
    else q

-- A retry is scheduled and its timer has not fired.
pub backing_off : GroupState → Bool
backing_off s = ltb 0 s.retry_count && not s.retry_ready

pub start_messages : GroupState → GroupState
start_messages s = record s {
  active = true;
  retry_ready = false;
  pending_message_queued_at_ms = none;
}

pub start_task : GroupState → QueuedTask → GroupState
start_task s t = record s { active = true; is_task_container = true; running_task_id = some t.id }

pub push_task : GroupState → QueuedTask → GroupState
push_task s t = record s {
  pending_tasks = s.pending_tasks ++ t ∷ [];
  pending_task_ids = s.pending_task_ids ++ t.id ∷ [];
}

-- `popleft` of a task, and `discard` of its id.
pub pop_task : GroupState → QueuedTask → List QueuedTask → GroupState
pop_task s t rest = record s {
  pending_tasks = rest;
  pending_task_ids = discard t.id s.pending_task_ids;
}

-- The task with this id is the one that the group runs.
pub is_running : GroupState → String → Bool
is_running s task_id = elim s.running_task_id [
  | none ↦ false
  | some r ↦ ite (string_discrete r task_id) true false
]

-- `enqueue_task` behind its guards, for a group that runs nothing, at the concurrency limit.
pub enqueue_at_limit : GroupQueue → String → GroupState → QueuedTask → GroupQueue
enqueue_at_limit q jid s t =
    if not (member jid q.waiting_set) && leb max_waiting_groups (length q.waiting_groups)
    then q
    else if leb max_pending_tasks_per_group (length s.pending_tasks)
    then q
    else if member jid q.waiting_set
    then put_group q jid (push_task s t)
    else join_waiting (put_group q jid (push_task s t)) jid

-- One turn of the loop of `_drain_waiting`, after the group has been taken off the queue.
pub serve_waiting : GroupQueue → String → ℕ → GroupQueue
serve_waiting q jid now =
    let s = get_group q jid in
    elim s.pending_tasks [
      | t ∷ rest ↦ launch q jid (start_task (pop_task s t rest) t) (Job.task jid t)
      | [] ↦
          if s.pending_messages
          then (if backing_off s
              then q
              else launch q jid (record (start_messages s) { pending_messages = false })
                  (Job.messages jid (or_now s.pending_message_queued_at_ms now)))
          else q
    ]

-- `max` is `config.MAX_CONCURRENT_CONTAINERS`.
module _ (max : ℕ) where
  pub enqueue_message_check : GroupQueue → String → ℕ → Bool → GroupQueue
  enqueue_message_check q jid now from_retry =
      let s = get_group q jid in
      if q.shutting_down
      then q
      else if s.active
      then put_group q jid (mark_pending s now)
      else if ltb 0 s.retry_count && not from_retry
      then put_group q jid (mark_pending s now)
      else if leb max q.active_count
      then wait_for_slot (put_group q jid (mark_pending s now)) jid
      else launch q jid (start_messages s)
          (Job.messages jid (or_now s.pending_message_queued_at_ms now))

  pub enqueue_task : GroupQueue → String → String → GroupQueue
  enqueue_task q jid task_id =
      let s = get_group q jid in
      let t : QueuedTask = record { id = task_id; group_jid = jid } in
      if q.shutting_down
      then q
      else if is_running s task_id
      then q
      else if member task_id s.pending_task_ids
      then q
      else if s.active
      then (if leb max_pending_tasks_per_group (length s.pending_tasks)
          then record q { notices = q.notices ++ (jid, task_queue_full) ∷ [] }
          else put_group q jid (push_task s t))
      else if leb max q.active_count
      then enqueue_at_limit q jid s t
      else launch q jid (start_task (record s { retry_ready = false }) t) (Job.task jid t)

  pub drain_loop : List String → GroupQueue → ℕ → GroupQueue
  drain_loop [] q now = q
  drain_loop (jid ∷ rest) q now =
      let next =
        drain_loop rest
          (serve_waiting
            (record q { waiting_groups = rest; waiting_set = discard jid q.waiting_set }) jid now)
          now in
      if ltb q.active_count max then next else q

  pub drain_waiting : GroupQueue → ℕ → GroupQueue
  drain_waiting q now = drain_loop q.waiting_groups q now

  pub drain_group : GroupQueue → String → ℕ → GroupQueue
  drain_group q jid now =
      let s = get_group q jid in
      if q.shutting_down then q else elim s.pending_tasks [
        | t ∷ rest ↦ launch q jid (start_task (pop_task s t rest) t) (Job.task jid t)
        | [] ↦
            if s.pending_messages
            then (if backing_off s
                then q
                else launch q jid (start_messages s)
                    (Job.messages jid (or_now s.pending_message_queued_at_ms now)))
            else drain_waiting q now
      ]
