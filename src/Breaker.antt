-- ===== src/Breaker.antt =====
-- host/container_runner.py, the Docker circuit breaker: consecutive failures per group, and the time
-- of the last one. The clock is an argument that does not go back; the lock makes each function
-- atomic.
pub mod Trips
mod Tests
use evoclaw.Base.{ℕ, ◌+◌, ◌-◌, String, Option, none, some, ltb, leb, if◌then◌else◌, List, []}
use evoclaw.Base.Dict.{Dict, get, set, remove}

-- `_DOCKER_CIRCUIT_THRESHOLD`
abbrev pub docker_circuit_threshold : ℕ
docker_circuit_threshold = 3

-- `_DOCKER_HALF_OPEN_SECS`
abbrev pub docker_half_open_secs : ℕ
docker_half_open_secs = 60

pub record Breaker : Type 0 where
  pub docker_failures : Dict ℕ
  pub docker_failure_time : Dict ℕ

abbrev pub init : Breaker
init = record { docker_failures = []; docker_failure_time = [] }

-- `d.get(k, 0)`
unfoldable pub get_or_zero : String → Dict ℕ → ℕ
get_or_zero k d = elim (get k d) [ none ↦ 0 | some n ↦ n ]

unfoldable pub record_docker_success : Breaker → String → Breaker
record_docker_success b group_folder = record b {
  docker_failures = remove group_folder b.docker_failures;
  docker_failure_time = remove group_folder b.docker_failure_time;
}

unfoldable pub record_docker_failure : Breaker → String → ℕ → Breaker
record_docker_failure b group_folder now = record b {
  docker_failures =
      set group_folder (get_or_zero group_folder b.docker_failures + 1) b.docker_failures;
  docker_failure_time = set group_folder now b.docker_failure_time;
}

-- The seconds left until the circuit is half open; 0 when it is closed.
unfoldable pub docker_circuit_open : Breaker → String → ℕ → Breaker × ℕ
docker_circuit_open b group_folder now =
    let elapsed = now - get_or_zero group_folder b.docker_failure_time in
    if ltb (get_or_zero group_folder b.docker_failures) docker_circuit_threshold
    then (b, 0)
    else if leb docker_half_open_secs elapsed
    then (record b { docker_failures = set group_folder 0 b.docker_failures }, 0)
    else (b, docker_half_open_secs - elapsed)
