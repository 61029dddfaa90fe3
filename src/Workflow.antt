-- ===== src/Workflow.antt =====
-- host/enterprise/workflow_engine.py: the steps of a workflow with their dependencies, the check of
-- the graph, and the scheduler's loop. A step's function is run by the environment: `attempt name n
-- context` is how its attempt `n` ends on a snapshot of the context. Values are opaque; the size of
-- a value's text and the truncated text are given by the environment. Times are left out, and so are
-- a run that is cancelled and exceptions that are not an `Exception`.
pub mod Graph
pub mod Topological
pub mod Valid
mod GraphTests
pub mod Sets
pub mod Attempts
pub mod Rounds
pub mod Schedule
pub mod Outcome
mod Tests
use evoclaw.Base.{
  ℕ, zero, suc, ◌+◌, String, Bool, true, false, not, ◌&&◌, ◌||◌, Option, none, some, List, [], ◌∷◌,
  ◌++◌, ite, ltb, leb, if◌then◌else◌, length, member, discard, string_discrete,
}
use evoclaw.Base.Dict.{Dict, get, set, keys}

pub data StepStatus : Type 0 where
  pending running success failed skipped : StepStatus

-- How one attempt of a step's function ends.
pub data Attempt (V : Type 0) : Type 0 where
  returned : V → Attempt V
  timed_out : Attempt V
  raised : String → Attempt V

-- `step.error`
pub data StepError : Type 0 where
  timeout : StepError
  exception : String → StepError
  deadlock : StepError

pub record WorkflowStep (V : Type 0) : Type 0 where
  pub depends_on : List String
  pub retries : ℕ
  pub status : StepStatus
  pub result : Option V
  pub error : Option StepError

pub data RunStatus : Type 0 where
  run_pending run_running run_success run_failed : RunStatus

pub record WorkflowRun (V : Type 0) : Type 0 where
  pub steps : Dict (WorkflowStep V)
  pub run_status : RunStatus
  pub context : Dict V

-- `run` returns the run, or it raises and no run is returned.
pub data Ending (A : Type 0) : Type 0 where
  finished : A → Ending A
  aborted : Ending A

-- `_MAX_STEP_RESULT_BYTES`
abbrev pub max_step_result_bytes : ℕ
max_step_result_bytes = 262144

is_success : StepStatus → Bool
is_success success = true
is_success _ = false

blocks : StepStatus → Bool
blocks failed = true
blocks skipped = true
blocks _ = false

-- `xs - ys` on sets
pub minus : List String → List String → List String
minus xs [] = xs
minus xs (y ∷ ys) = minus (discard y xs) ys

module _ {V : Type 0} where
  -- The step is there and has succeeded.
  pub dep_ok : Dict (WorkflowStep V) → String → Bool
  dep_ok steps d = elim (get d steps) [ none ↦ false | some s ↦ is_success s.status ]

  pub deps_ok : Dict (WorkflowStep V) → List String → Bool
  deps_ok steps [] = true
  deps_ok steps (d ∷ ds) = dep_ok steps d && deps_ok steps ds

  -- The step is there and has failed or been skipped.
  pub dep_blocks : Dict (WorkflowStep V) → String → Bool
  dep_blocks steps d = elim (get d steps) [ none ↦ false | some s ↦ blocks s.status ]

  pub deps_block : Dict (WorkflowStep V) → List String → Bool
  deps_block steps [] = false
  deps_block steps (d ∷ ds) = dep_blocks steps d || deps_block steps ds

  pub is_ready : Dict (WorkflowStep V) → String → Bool
  is_ready steps name = elim (get name steps) [ none ↦ false | some s ↦ deps_ok steps s.depends_on ]

  pub is_blocked : Dict (WorkflowStep V) → String → Bool
  is_blocked steps name = elim (get name steps) [
    | none ↦ false
    | some s ↦ deps_block steps s.depends_on
  ]

  -- The set `ready`, in the order in which the set `remaining` is iterated.
  pub select_ready : Dict (WorkflowStep V) → List String → List String
  select_ready steps [] = []
  select_ready steps (n ∷ ns) =
      let rest = select_ready steps ns in if is_ready steps n then n ∷ rest else rest

  pub set_status :
      String → StepStatus → Option StepError → Dict (WorkflowStep V) → Dict (WorkflowStep V)
  set_status name status error steps = elim (get name steps) [
    | none ↦ steps
    | some s ↦ set name (record s { status = status; error = error }) steps
  ]

  -- `step.status = StepStatus.SKIPPED`
  pub skip : String → Dict (WorkflowStep V) → Dict (WorkflowStep V)
  skip name steps = elim (get name steps) [
    | none ↦ steps
    | some s ↦ set name (record s { status = skipped }) steps
  ]

  -- The loop over `remaining - ready`: a step that is skipped here blocks those that come later.
  pub mark_blocked : Dict (WorkflowStep V) → List String → Dict (WorkflowStep V) × List String
  mark_blocked steps [] = (steps, [])
  mark_blocked steps (n ∷ ns) =
      let blocked = is_blocked steps n in
      let (steps', names) = mark_blocked (if blocked then skip n steps else steps) ns in
      (steps', if blocked then n ∷ names else names)

  -- `for name in remaining: ... FAILED ... "Deadlock: unsatisfied dependencies"`
  pub fail_all : Dict (WorkflowStep V) → List String → Dict (WorkflowStep V)
  fail_all steps [] = steps
  fail_all steps (n ∷ ns) = fail_all (set_status n failed (some deadlock) steps) ns

  pub any_failed : Dict (WorkflowStep V) → Bool
  any_failed [] = false
  any_failed ((_, s) ∷ steps) = elim s.status [ failed ↦ true | _ ↦ any_failed steps ]

  -- `context.update(results)`
  pub update_all : Dict V → Dict V → Dict V
  update_all context [] = context
  update_all context ((k, v) ∷ results) = update_all (set k v context) results

  module _ (attempt : String → ℕ → Dict V → Attempt V) (size : V → ℕ) (truncated : V → V) where
    -- The cap on the size of a result.
    pub cap_result : V → V
    cap_result v = if ltb max_step_result_bytes (size v) then truncated v else v

    -- The attempts of `run_step` from attempt `n` on, with `left` more after it.
    pub try_step : String → Dict V → WorkflowStep V → ℕ → ℕ → WorkflowStep V
    try_step name context step n zero = elim (attempt name n context) [
      | returned v ↦ record step { status = success; result = some (cap_result v) }
      | timed_out ↦ record step { status = failed; error = some timeout }
      | raised e ↦ record step { status = failed; error = some (exception e) }
    ]
    try_step name context step n (suc left) = elim (attempt name n context) [
      | returned v ↦ record step { status = success; result = some (cap_result v) }
      | timed_out ↦ try_step name context (record step { error = some timeout }) (n + 1) left
      | raised e ↦ try_step name context (record step { error = some (exception e) }) (n + 1) left
    ]

    pub run_step : String → Dict V → WorkflowStep V → WorkflowStep V
    run_step name context step =
        try_step name context (record step { status = running }) 0 step.retries

    -- All ready steps on the same snapshot, and the results of those that succeed.
    pub run_ready : Dict (WorkflowStep V) → Dict V → List String → Dict (WorkflowStep V) × Dict V
    run_ready steps context [] = (steps, [])
    run_ready steps context (n ∷ ns) = elim (get n steps) [
      | none ↦ run_ready steps context ns
      | some s ↦
          let s' = run_step n context s in
          let (steps', results) = run_ready (set n s' steps) context ns in
          (
            steps',
            elim s'.status [
              | success ↦ elim s'.result [ none ↦ results | some v ↦ (n, v) ∷ results ]
              | _ ↦ results
            ],
          )
    ]

    -- `copyable context` is whether `copy.deepcopy` of the context succeeds. It raises in `run_step`
    -- before the `try`, so that `run` raises.
    module _ (copyable : Dict V → Bool) where
      -- The end of a round: no step is ready, and what is left is failed; or the ready steps run, and
      -- `next` is the next round.
      pub end_round :
          (Dict (WorkflowStep V)
            → Dict V
            → List String
            → Option (Ending (Dict (WorkflowStep V) × Dict V)))
          → Dict (WorkflowStep V)
          → Dict V
          → List String
          → List String
          → Option (Ending (Dict (WorkflowStep V) × Dict V))
      end_round next steps context left [] = some (finished (fail_all steps left, context))
      end_round next steps context left (r ∷ rs) = elim (copyable context) [
        | false ↦ some aborted
        | true ↦
            let (steps', results) = run_ready steps context (r ∷ rs) in
            next steps' (update_all context results) (minus left (r ∷ rs))
      ]

      -- The scheduler's loop; each round but the last takes a step off `remaining`.
      pub schedule :
          ℕ
          → Dict (WorkflowStep V)
          → Dict V
          → List String
          → Option (Ending (Dict (WorkflowStep V) × Dict V))
      schedule zero steps context remaining = none
      schedule (suc fuel) steps context [] = some (finished (steps, context))
      schedule (suc fuel) steps context (m ∷ ms) =
          let ready = select_ready steps (m ∷ ms) in
          let (steps', blocked) = mark_blocked steps (minus (m ∷ ms) ready) in
          end_round (schedule fuel) steps' context (minus (m ∷ ms) blocked) ready

      -- `run`, after `_validate`: `order` is the set of the steps' names, as it is iterated.
      pub run_dag : Dict (WorkflowStep V) → List String → Dict V → Option (Ending (WorkflowRun V))
      run_dag steps order context = elim (schedule (length order + 1) steps context order) [
        | none ↦ none
        | some aborted ↦ some aborted
        | some (finished (steps', context')) ↦ some (
            finished (record {
              steps = steps';
              run_status = if any_failed steps' then run_failed else run_success;
              context = context';
            }))
      ]
