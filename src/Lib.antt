-- ===== src/Lib.antt =====
-- The verification of EvoClaw, a host that runs one agent container per chat group.
--
-- The parts of the host that decide what may run, and when, are modelled here:
--
-- - host/group_queue.py, the queue of containers: GroupQueue.antt has the state (`_GroupState`,
--   `GroupQueue`) and the methods `enqueue_message_check`, `enqueue_task`, `_drain_group`,
--   `_drain_waiting`; GroupQueue/Retry.antt has `_schedule_retry` with its timer, GroupQueue/Run.antt
--   the two coroutines `_run_for_group` and `_run_task`, cut at their awaits, and the shutdown.
--   GroupQueue/Trace.antt runs a list of events (a message, a task, the begin or end of a run, a
--   timer, the shutdown) as the event loop would: every method between two awaits is atomic.
-- - host/rbac/roles.py, roles and permissions: Rbac.antt has the table of grants, the cache of
--   roles with its expiry and eviction, the cache of "no grants", and every method.
-- - host/enterprise/workflow_engine.py, workflows: Workflow.antt has the steps, the scheduler's
--   loop and the attempts of a step; Workflow/Graph.antt the check of the graph before a run.
-- - host/leader_election.py: Leader.antt has the lease, a row of a shared table, and the turns of
--   `acquire`, `_heartbeat_loop` and `release`; Leader/Cluster.antt runs several instances on it.
-- - host/container_runner.py, its Docker circuit breaker only: Breaker.antt; Breaker/Trips.antt runs
--   a history of successes, failures and questions.
-- - host/router.py: Router.antt splits a message into chunks and delivers them.
-- - skills_engine/state.py, manifest.py, structured.py: Skills.antt compares versions, records
--   applied skills, checks dependencies, and merges service and package tables.
-- - skills_engine/backup.py, path_remap.py, file_ops.py and the first steps of apply.py: Backup.antt has
--   the backup, its restore and the renamed paths, Backup/FileOps.antt the operations on files and the
--   backup around them.
-- - host/log_buffer.py: LogBuffer.antt has the ring buffer of log records and the polls of it.
-- - host/identity/bot_registry.py: BotRegistry.antt has the tables of bots and of handshakes, the
--   limit on handshakes per target, and the purges.
-- - host/main.py, its guards on incoming messages only: Admission.antt has the rate limits and the
--   fence against duplicates.
-- - host/allowlist.py: Allowlist.antt loads the allowlist of senders and decides on a sender.
-- - host/db.py, the tables of scheduled tasks, runs and registered groups: Db.antt.
-- - host/task_scheduler.py: Schedule.antt has the times of the next runs, Tasks.antt the run of a task
--   before and after its agent, the recovery at start-up, and the poll that hands due tasks to the queue.
-- - host/group_folder.py, and `_validate_folder` of host/db.py: GroupFolder.antt checks names of folders.
-- - host/ipc_watcher.py: Ipc/Request.antt has the payloads and what a request makes the host
--   start, Ipc/Rights.antt the checks of rights, Ipc/Paths.antt the paths of files to send,
--   Ipc/TaskRequests.antt and Ipc/Handlers.antt what each type of request does (`_handle_ipc`), and
--   Ipc/Cycle.antt a turn on the folders of a group (`process_ipc_dir`).
-- - host/identity/cross_bot_protocol.py: CrossBot.antt has the messages, their JSON and signatures,
--   CrossBot/Protocol.antt the handling of a received text, which marks bots in the registry.
--
-- The IPC watcher writes the tables of Db.antt, which the scheduler reads and writes; the
-- scheduler's poll calls the queue. The queue calls back into the host for the work of a run; the
-- outcome of that work (done, failed, raised) is part of the event that ends the run. The other
-- parts keep their own state.
--
-- Base.antt passes on the library's names and has the shared helpers: Base/Tests.antt the Boolean
-- tests on numbers, Base/Lists.antt lists, Base/Keys.antt membership of string keys, Base/Texts.antt
-- prefixes and suffixes of texts, Base/Pigeonhole.antt counting of distinct texts, and Base/Dict.antt
-- Python's dict as an association list in the order of insertion.
--
-- Numbers are natural numbers: counters, sizes, times in whole units. The clock is an argument.
-- Five loops run on fuel. `schedule`, the `while remaining` loop of a workflow, is given one round
-- more than there are steps, and every round but the last takes at least one step off the set.
-- `split_loop`, the `while text` loop of the router, is given one turn more than the text is long,
-- and every turn takes a code point off it. `catch_up`, the loop that moves a time past now, is
-- given two turns more than now has milliseconds, and every turn adds at least one. `follow`, the
-- loop through the renamed paths, is given two turns more than the table has entries, and every
-- turn but the last marks another of its keys. `visit`, the search for an order of a workflow's
-- steps, may go one level deeper than there are steps, and every level marks another step. So the
-- fuel does not run out. Sets that Python iterates are lists, in an arbitrary given order; a text
-- whose characters matter is a list of code points.
--
-- Not modelled: log lines, SQL failures, exceptions that are not an `Exception`, the cancelling of a
-- run, the values that steps return and their text (given by the
-- environment), the bodies of the coroutines that an IPC request starts, folders on disk, and the parts
-- of the repository that are adapters to chat services, Docker, HTTP servers and language models.
-- The memory, the evolution of prompts, hooks, the health monitor and the agent runner, most of whose
-- code calls SQL, models or services, are left out.
pub mod Base
pub mod GroupQueue
pub mod Rbac
pub mod Workflow
pub mod Leader
pub mod Breaker
pub mod Router
pub mod Skills
pub mod LogBuffer
pub mod BotRegistry
pub mod Admission
pub mod Allowlist
pub mod Db
pub mod Schedule
pub mod Tasks
pub mod GroupFolder
pub mod Ipc
pub mod CrossBot
pub mod Backup
