-- ===== src/Workflow/Attempts.antt =====
-- A step's attempts: it succeeds with its first result, and fails if every attempt does.
use evoclaw.Base.{
  ℕ, zero, suc, ◌+◌, String, ◌≡◌, refl, inl, inr, Option, none, some, arith, Option-cases,
}
use evoclaw.Base.Dict.{Dict}
use evoclaw.Workflow.{
  WorkflowStep, success, failed, running, StepError, timeout, exception, Attempt, returned,
  timed_out, raised, cap_result, try_step, run_step,
}

module _ {V : Type 0} (attempt : String → ℕ → Dict V → Attempt V) (size : V → ℕ)
    (truncated : V → V) where
  -- The result of the first attempt from `n` on that returns, of `left` more after it.
  unfoldable pub first_return : String → Dict V → ℕ → ℕ → Option V
  first_return name context n zero = elim (attempt name n context) [
    | returned v ↦ some v
    | _ ↦ none
  ]
  first_return name context n (suc left) = elim (attempt name n context) [
    | returned v ↦ some v
    | _ ↦ first_return name context (n + 1) left
  ]

  -- What a step is after its attempts.
  abbrev pub Ended : WorkflowStep V → WorkflowStep V → Option V → Type 0
  Ended before after none =
      (after.status ≡ failed)
      × (after.result ≡ before.result)
      × (after.depends_on ≡ before.depends_on)
  Ended before after (some v) =
      (after.status ≡ success)
      × (after.result ≡ some (cap_result attempt size truncated v))
      × (after.depends_on ≡ before.depends_on)

  try_step-Ended :
      (name : String) (context : Dict V) (step : WorkflowStep V) (n left : ℕ)
      → Ended step
          (try_step attempt size truncated name context step n left)
          (first_return name context n left)
  unfolding try_step first_return
  try_step-Ended name context step n zero = ground arith
  try_step-Ended name context step n (suc left) =
      by_attempt (λ s. try_step-Ended name context s (n + 1) left) (attempt name n context) refl
    where
      after : Option StepError → WorkflowStep V
      after x =
          try_step attempt size truncated name context (record step { error = x }) (n + 1) left

      again :
          (o : Option V) (x : Option StepError)
          → Ended (record step { error = x }) (after x) o
          → Ended step (after x) o
      again none x h = h
      again (some v) x h = h

      by_attempt :
          ((s : WorkflowStep V)
            → Ended s
                (try_step attempt size truncated name context s (n + 1) left)
                (first_return name context (n + 1) left))
          → (a : Attempt V) → attempt name n context ≡ a
          → Ended step
              (try_step attempt size truncated name context step n (suc left))
              (first_return name context n (suc left))
      by_attempt rest (returned v) e = rw (e, try_step, first_return) (refl, refl, refl)
      by_attempt rest timed_out e =
          rw (e, try_step, first_return)
            (again (first_return name context (n + 1) left) (some timeout)
              (rest (record step { error = some timeout })))
      by_attempt rest (raised m) e =
          rw (e, try_step, first_return)
            (again (first_return name context (n + 1) left) (some (exception m))
              (rest (record step { error = some (exception m) })))

  -- A step with `retries` retries ends successful with the capped value of the first of its
  -- `retries + 1` attempts that returns one, and failed, with no new result, if none does.
  pub run_step-Ended :
      (name : String) (context : Dict V) (step : WorkflowStep V)
      → Ended step
          (run_step attempt size truncated name context step)
          (first_return name context 0 step.retries)
  unfolding run_step
  run_step-Ended name context step =
      elim (Option-cases (first_return name context 0 step.retries)) [
        | inl e ↦ rw e (
            rw e at (try_step-Ended name context (record step { status = running }) 0 step.retries))
        | inr (v, e) ↦ rw e (
            rw e at (try_step-Ended name context (record step { status = running }) 0 step.retries))
      ]
