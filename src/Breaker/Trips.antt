-- ===== src/Breaker/Trips.antt =====
-- host/container_runner.py: what the circuit breaker answers after a history of container runs.
use evoclaw.Base.{
  ℕ, ◌+◌, ◌-◌, ◌<◌, ◌≤◌, String, ◌≡◌, refl, List, [], ◌∷◌, ◌++◌, ite, ltb, if◌then◌else◌, arith, ap,
  ◌∙◌, length, string_discrete,
}
use evoclaw.Base.Dict.{get, get-set, get-remove}
use evoclaw.Breaker.{
  Breaker, init, get_or_zero, record_docker_success, record_docker_failure, docker_circuit_open,
  docker_circuit_threshold, docker_half_open_secs,
}

-- A call of one of the three functions, for a group, at a time.
pub data Event : Type 0 where
  succeeds : String → Event
  fails : String → ℕ → Event
  asks : String → ℕ → Event

unfoldable pub step : Breaker → Event → Breaker
step b (succeeds g) = record_docker_success b g
step b (fails g now) = record_docker_failure b g now
step b (asks g now) = (docker_circuit_open b g now).0

unfoldable pub run : Breaker → List Event → Breaker
run b [] = b
run b (ev ∷ evs) = run (step b ev) evs

-- The events of one group alone.
unfoldable pub of_group : String → List Event → List Event
of_group g [] = []
of_group g (succeeds k ∷ evs) =
    let rest = of_group g evs in ite (string_discrete k g) (succeeds k ∷ rest) rest
of_group g (fails k t ∷ evs) =
    let rest = of_group g evs in ite (string_discrete k g) (fails k t ∷ rest) rest
of_group g (asks k t ∷ evs) =
    let rest = of_group g evs in ite (string_discrete k g) (asks k t ∷ rest) rest

-- What a group sees of the two dicts.
abbrev Same : String → Breaker → Breaker → Type 0
Same g b c =
    (get g b.docker_failures ≡ get g c.docker_failures)
    × (get g b.docker_failure_time ≡ get g c.docker_failure_time)

abbrev answer : Breaker → String → ℕ → ℕ
answer b g now = (docker_circuit_open b g now).1

step-own :
    (g : String) (b c : Breaker) (ev : Event)
    → Same g b c
    → Same g (run b (ev ∷ [])) (run c (of_group g (ev ∷ [])))
unfolding run step of_group get_or_zero record_docker_success record_docker_failure
    docker_circuit_open
step-own g b c (succeeds k) e = ground (
  arith,
  e,
  string_discrete k g,
  get-remove k g b.docker_failures,
  get-remove k g c.docker_failures,
  get-remove k g b.docker_failure_time,
  get-remove k g c.docker_failure_time,
)
step-own g b c (fails k t) e = ground (
  arith,
  e,
  string_discrete k g,
  get-set k g (get_or_zero k b.docker_failures + 1) b.docker_failures,
  get-set k g (get_or_zero k c.docker_failures + 1) c.docker_failures,
  get-set k g t b.docker_failure_time,
  get-set k g t c.docker_failure_time,
)
step-own g b c (asks k t) e = ground (
  arith,
  e,
  string_discrete k g,
  get-set k g 0 b.docker_failures,
  get-set k g 0 c.docker_failures,
)

unfoldable pub fails_of : String → List Event → ℕ
fails_of g [] = 0
fails_of g (fails k _ ∷ evs) = ite (string_discrete k g) 1 0 + fails_of g evs
fails_of g (succeeds _ ∷ evs) = fails_of g evs
fails_of g (asks _ _ ∷ evs) = fails_of g evs

few_failures :
    (b : Breaker) (g : String) (evs : List Event)
    → get_or_zero g (run b evs).docker_failures ≤ get_or_zero g b.docker_failures + fails_of g evs
unfolding run step fails_of get_or_zero record_docker_success record_docker_failure
    docker_circuit_open
few_failures b g [] = omega arith
few_failures b g (succeeds k ∷ evs) = ground (
  arith,
  few_failures (step b (succeeds k)) g evs,
  string_discrete k g,
  get-remove k g b.docker_failures,
)
few_failures b g (fails k t ∷ evs) = ground (
  arith,
  few_failures (step b (fails k t)) g evs,
  string_discrete k g,
  get-set k g (get_or_zero k b.docker_failures + 1) b.docker_failures,
)
few_failures b g (asks k t ∷ evs) = ground (
  arith,
  few_failures (step b (asks k t)) g evs,
  string_discrete k g,
  get-set k g 0 b.docker_failures,
)

-- After the circuit has turned half open, which it does at a question: whatever questions, failures
-- and successes follow, the group is admitted, as long as it fails fewer than three times.
pub half_open_admits_all :
    (b : Breaker) (g : String) (now later : ℕ) (evs : List Event)
    → docker_circuit_threshold ≤ get_or_zero g b.docker_failures
    → docker_half_open_secs ≤ now - get_or_zero g b.docker_failure_time
    → fails_of g evs < docker_circuit_threshold
    → answer (run (docker_circuit_open b g now).0 evs) g later ≡ 0
unfolding docker_circuit_open get_or_zero
half_open_admits_all b g now later evs many long few = ground (
  arith,
  few_failures (docker_circuit_open b g now).0 g evs,
  get-set g g 0 b.docker_failures,
  string_discrete g g,
)

of_group-cons :
    (g : String) (ev : Event) (evs : List Event)
    → of_group g (ev ∷ evs) ≡ of_group g (ev ∷ []) ++ of_group g evs
unfolding of_group
of_group-cons g (succeeds k) evs = ground (arith, string_discrete k g)
of_group-cons g (fails k t) evs = ground (arith, string_discrete k g)
of_group-cons g (asks k t) evs = ground (arith, string_discrete k g)

run-append : (b : Breaker) (xs ys : List Event) → run b (xs ++ ys) ≡ run (run b xs) ys
unfolding run
run-append b [] ys = refl
run-append b (x ∷ xs) ys = run-append (step b x) xs ys

run-own :
    (g : String) (b c : Breaker) (evs : List Event)
    → Same g b c
    → Same g (run b evs) (run c (of_group g evs))
unfolding run of_group
run-own g b c [] e = e
run-own g b c (ev ∷ evs) e =
    rw (of_group-cons g ev evs, run-append c (of_group g (ev ∷ [])) (of_group g evs))
      (run-own g (step b ev) (run c (of_group g (ev ∷ []))) evs (unfold run in step-own g b c ev e))

-- What a group is answered depends on its own events alone.
pub run-of_group :
    (g : String) (now : ℕ) (evs : List Event)
    → answer (run init evs) g now ≡ answer (run init (of_group g evs)) g now
unfolding docker_circuit_open get_or_zero
run-of_group g now evs = ground (arith, run-own g init init evs (refl, refl))

unfoldable pub fails_at : String → List ℕ → List Event
fails_at g [] = []
fails_at g (t ∷ ts) = fails g t ∷ fails_at g ts

run-fails_at :
    (b : Breaker) (g : String) (ts : List ℕ)
    → get_or_zero g (run b (fails_at g ts)).docker_failures
      ≡ get_or_zero g b.docker_failures + length ts
unfolding run step fails_at get_or_zero record_docker_failure
run-fails_at b g [] = ground arith
run-fails_at b g (t ∷ ts) = ground (
  arith,
  run-fails_at (step b (fails g t)) g ts,
  string_discrete g g,
  get-set g g (get_or_zero g b.docker_failures + 1) b.docker_failures,
)

streak_answer :
    (b : Breaker) (g : String) (ts : List ℕ) (t now : ℕ)
    → answer (run b (succeeds g ∷ fails_at g ts ++ fails g t ∷ [])) g now ≡ (
        if ltb (length ts + 1) docker_circuit_threshold
        then 0
        else docker_half_open_secs - (now - t))
unfolding run step get_or_zero record_docker_failure record_docker_success docker_circuit_open
streak_answer b g ts t now =
    let b' = record_docker_success b g in
    let last = run b' (fails_at g ts) in
    ground (
      arith,
      run-append b' (fails_at g ts) (fails g t ∷ []),
      run-fails_at b' g ts,
      get-set g g (get_or_zero g last.docker_failures + 1) last.docker_failures,
      get-set g g t last.docker_failure_time,
      get-remove g g b.docker_failures,
      string_discrete g g,
    )

-- Whatever the other groups do: when a group has failed since its last success and asked nothing,
-- it is admitted after fewer than three failures, and otherwise told to wait until 60 seconds after
-- the last of them.
run-streak :
    (g : String) (evs earlier : List Event) (ts : List ℕ) (t now : ℕ)
    → of_group g evs ≡ earlier ++ (succeeds g ∷ fails_at g ts ++ fails g t ∷ [])
    → answer (run init evs) g now ≡ (
        if ltb (length ts + 1) docker_circuit_threshold
        then 0
        else docker_half_open_secs - (now - t))
run-streak g evs earlier ts t now e =
    run-of_group g now evs
    ∙ ap (λ own. answer (run init own) g now) e
    ∙ ap (λ b. answer b g now) (run-append init earlier _)
    ∙ streak_answer (run init earlier) g ts t now
