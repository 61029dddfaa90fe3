-- ===== src/Breaker/Tests.antt =====
-- Runs of the circuit breaker.
use evoclaw.Base.{◌≡◌, List, [], ◌∷◌, arith, string_discrete}
use evoclaw.Base.Dict.{get, set, remove}
use evoclaw.Breaker.{
  init, get_or_zero, record_docker_success, record_docker_failure, docker_circuit_open,
}
use evoclaw.Breaker.Trips.{
  Event, succeeds, fails, asks, step, run, of_group, fails_of, fails_at, run-of_group,
  half_open_admits_all,
}

program : Unit {0}
unfolding get set remove string_discrete get_or_zero record_docker_success record_docker_failure
    docker_circuit_open step run of_group fails_of fails_at
program = tt

abbrev history : List Event
history =
    fails "a" 5
    ∷ succeeds "a"
    ∷ fails "a" 10
    ∷ fails "b" 11
    ∷ fails "a" 20
    ∷ succeeds "b"
    ∷ fails "a" 30
    ∷ []

run-of_group_example :
    (docker_circuit_open (run init history) "a" 50).1
    ≡ (docker_circuit_open (run init (of_group "a" history)) "a" 50).1
run-of_group_example = run-of_group "a" 50 history

half_open_admits_all_example :
    (docker_circuit_open
      (run
        (docker_circuit_open (run init history) "a" 95).0
        (fails "a" 96 ∷ asks "a" 97 ∷ fails "a" 98 ∷ []))
      "a"
      99).1
    ≡ 0
unfolding program
half_open_admits_all_example =
    half_open_admits_all (run init history) "a" 95 99
      (fails "a" 96 ∷ asks "a" 97 ∷ fails "a" 98 ∷ []) (omega arith) (omega arith) (omega arith)
