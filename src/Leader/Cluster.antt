-- ===== src/Leader/Cluster.antt =====
-- host/leader_election.py: several instances on one table, with the election enabled. Each event is
-- one turn of a loop of one instance. An instance that is not the leader is in `acquire`, unless it
-- has sent itself SIGTERM; an instance that has released its lease may be started again.
use evoclaw.Base.{
  ℕ, String, Bool, true, not, ◌&&◌, ◌||◌, Option, none, some, List, [], ◌∷◌, ite, if◌then◌else◌,
  string_discrete,
}
use evoclaw.Leader.{Lease, LeaderElection, init, expired, try_acquire, heartbeat, release_lease}

pub record Cluster : Type 0 where
  pub row : Option Lease
  pub instances : String → LeaderElection

pub data Event : Type 0 where
  acquires : String → ℕ → Bool → Event
  beats : String → ℕ → Bool → Event
  releases : String → Bool → Event

abbrev pub start : Cluster
start = record { row = none; instances = λ _. init true }

-- The row, and the state of one instance, are written.
unfoldable pub write : Cluster → String → Option Lease × LeaderElection → Cluster
write c me (row, e) = record {
  row = row;
  instances = λ k. ite (string_discrete me k) e (c.instances k);
}

module _ (timeout : ℕ) where
  unfoldable pub step : Cluster → Event → Cluster
  step c (acquires me now reached) =
      let e = c.instances me in
      if e.is_leader || e.terminated
      then c
      else write c me (try_acquire timeout c.row me e now reached)
  step c (beats me now reached) =
      let e = c.instances me in
      if e.heartbeating then write c me (heartbeat c.row me e now reached) else c
  step c (releases me reached) = write c me (release_lease true c.row me (c.instances me) reached)

  unfoldable pub run : Cluster → List Event → Cluster
  run c [] = c
  run c (ev ∷ evs) = run (step c ev) evs

  -- No attempt to acquire finds a lease that has expired.
  unfoldable pub in_time : Cluster → Event → Bool
  in_time c (acquires me now reached) = elim c.row [
    | none ↦ true
    | some l ↦ not (expired timeout now l)
  ]
  in_time c (beats _ _ _) = true
  in_time c (releases _ _) = true

  unfoldable pub all_in_time : Cluster → List Event → Bool
  all_in_time c [] = true
  all_in_time c (ev ∷ evs) = in_time c ev && all_in_time (step c ev) evs

-- The instance that the row names.
unfoldable pub holder : Option Lease → Option String
holder none = none
holder (some l) = some l.instance_id
