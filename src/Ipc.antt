-- ===== src/Ipc.antt =====
-- host/ipc_watcher.py: what a request from a group's container does. The fields of a payload are
-- texts. What the host only starts (a coroutine, a flag file, a message to a channel) is an `Effect`.
-- Configuration, the file system, croniter and the other services are in `Env`; a task id is drawn
-- and the clock is read by the caller. A request that raises changes nothing.
pub mod Request
pub mod Paths
pub mod Rights
pub mod TaskRequests
pub mod Handlers
pub mod Cycle
pub mod Isolation
pub mod Within
pub mod Messages
pub mod Inside
pub mod Scheduling
mod Tests
