-- ===== src/Leader.antt =====
-- host/leader_election.py: one row of a shared table is the lease; each instance of the program
-- tries to take it, renews it by heartbeats, and gives it back at its shutdown. A statement to the
-- database either takes effect or fails with none, which its argument `reached` says; the clock is
-- an argument. Log lines and the random pause between two attempts are left out.
pub mod Cluster
pub mod Single
pub mod Deposed
mod Tests
use evoclaw.Base.{
  ℕ, ◌+◌, ◌-◌, ◌*◌, String, Bool, true, false, not, ◌&&◌, ◌||◌, Option, none, some, ite, ltb, leb,
  if◌then◌else◌, string_discrete,
}

-- The row of `leader_election`, less its key, which is always 1.
pub record Lease : Type 0 where
  pub instance_id : String
  pub acquired_at : ℕ
  pub heartbeat_at : ℕ

-- One instance of the program: its `LeaderElection`, whether its heartbeat task runs, and whether
-- it has sent SIGTERM to itself.
pub record LeaderElection : Type 0 where
  pub is_leader : Bool
  pub heartbeating : Bool
  pub consecutive_hb_failures : ℕ
  pub terminated : Bool

abbrev pub max_consecutive_heartbeat_failures : ℕ
max_consecutive_heartbeat_failures = 3

-- `_LEASE_TIMEOUT`, after the check at start-up.
abbrev pub lease_timeout : Bool → ℕ → ℕ → ℕ
lease_timeout enabled heartbeat_interval configured =
    if enabled && leb configured heartbeat_interval then heartbeat_interval * 3 else configured

-- `__init__`
abbrev pub init : Bool → LeaderElection
init enabled = record {
  is_leader = not enabled;
  heartbeating = false;
  consecutive_hb_failures = 0;
  terminated = false;
}

-- The `WHERE` of `_ACQUIRE`. The clock is past the timeout, so that the difference is exact.
pub expired : ℕ → ℕ → Lease → Bool
expired timeout now l = ltb l.heartbeat_at (now - timeout)

-- `_ACQUIRE`: the row after it, and whether it counts a row.
pub acquire_row : ℕ → Option Lease → String → ℕ → Option Lease × Bool
acquire_row timeout row me now =
    let mine : Lease = record { instance_id = me; acquired_at = now; heartbeat_at = now } in
    elim row [
      | none ↦ (some mine, true)
      | some l ↦ if expired timeout now l then (some mine, true) else (some l, false)
    ]

-- `_HEARTBEAT`
pub heartbeat_row : Option Lease → String → ℕ → Option Lease × Bool
heartbeat_row none me now = (none, false)
heartbeat_row (some l) me now =
    ite (string_discrete l.instance_id me) (some (record l { heartbeat_at = now }), true)
      (some l, false)

-- The `DELETE` of `release`
pub delete_row : Option Lease → String → Option Lease
delete_row none me = none
delete_row (some l) me = ite (string_discrete l.instance_id me) none (some l)

-- One turn of the loop of `acquire`; the loop ends when the instance is the leader.
pub try_acquire :
    ℕ → Option Lease → String → LeaderElection → ℕ → Bool → Option Lease × LeaderElection
try_acquire timeout row me e now reached =
    let (row', counted) = acquire_row timeout row me now in
    if reached
    then (row', if counted then record e { is_leader = true; heartbeating = true } else e)
    else (row, e)

-- One turn of `_heartbeat_loop`.
pub heartbeat : Option Lease → String → LeaderElection → ℕ → Bool → Option Lease × LeaderElection
heartbeat row me e now reached =
    let (row', counted) = heartbeat_row row me now in
    let failures = e.consecutive_hb_failures + 1 in
    if reached
    then (
      row',
      if counted then record e { consecutive_hb_failures = 0 } else record e {
        is_leader = false;
        heartbeating = false;
        consecutive_hb_failures = 0;
        terminated = true;
      },
    )
    else (
      row,
      if leb max_consecutive_heartbeat_failures failures
          then record e {
            is_leader = false;
            heartbeating = false;
            consecutive_hb_failures = failures;
            terminated = true;
          }
          else record e { consecutive_hb_failures = failures },
    )

-- `release`
pub release_lease :
    Bool → Option Lease → String → LeaderElection → Bool → Option Lease × LeaderElection
release_lease enabled row me e reached = if not enabled || not e.is_leader then (row, e) else (
  if reached then delete_row row me else row,
  record e { is_leader = false; heartbeating = false },
)
