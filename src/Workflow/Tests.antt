-- ===== src/Workflow/Tests.antt =====
-- Runs of small workflows.
use evoclaw.Base.{
  Bool, true, false, ℕ, zero, suc, ◌+◌, String, ◌≡◌, refl, Option, none, some, List, [], ◌∷◌, map,
  arith, member, discard, string_discrete, Distinct,
}
use evoclaw.Base.Dict.{Dict, get, set}
use evoclaw.Workflow.{
  WorkflowStep, WorkflowRun, StepStatus, pending, success, failed, skipped, Attempt, returned,
  timed_out, is_success, blocks, dep_ok, deps_ok, dep_blocks, deps_block, is_ready, is_blocked,
  select_ready, minus, set_status, skip, mark_blocked, fail_all, any_failed, update_all, cap_result,
  try_step, run_step, run_ready, end_round, schedule, run_dag, Ending, finished, aborted,
}
use evoclaw.Workflow.Attempts.{Ended, first_return, run_step-Ended}
use evoclaw.Workflow.Outcome.{IsStart, Outcome, run_dag-StepOk}

program : Unit {0}
unfolding get set member discard string_discrete is_success blocks dep_ok deps_ok dep_blocks
    deps_block is_ready is_blocked select_ready minus set_status skip mark_blocked fail_all
    any_failed update_all cap_result try_step run_step run_ready end_round schedule run_dag
    first_return
program = tt

abbrev step_after : List String → WorkflowStep ℕ
step_after deps = record {
  depends_on = deps;
  retries = 1;
  status = pending;
  result = none;
  error = none;
}

-- `c` depends on `b`, and `b` on `a`.
abbrev chain : Dict (WorkflowStep ℕ)
chain = ("a", step_after []) ∷ ("b", step_after ("a" ∷ [])) ∷ ("c", step_after ("b" ∷ [])) ∷ []

-- Every step returns its attempt's number; the first attempt times out.
abbrev second_try : String → ℕ → Dict ℕ → Attempt ℕ
second_try name zero context = timed_out
second_try name (suc n) context = returned (n + 1)

abbrev never : String → ℕ → Dict ℕ → Attempt ℕ
never name n context = timed_out

abbrev statuses : Option (Ending (WorkflowRun ℕ)) → List StepStatus
statuses none = []
statuses (some aborted) = []
statuses (some (finished run)) = map (λ e. e.1.status) run.steps

abbrev in_order : List String
in_order = "a" ∷ "b" ∷ "c" ∷ []

abbrev plain : Dict ℕ → Bool
plain _ = true

-- Only the empty context can be copied.
abbrev only_empty : Dict ℕ → Bool
only_empty [] = true
only_empty (_ ∷ _) = false

-- What `a` returns cannot be copied for `b`.
second_round_aborts :
    run_dag second_try (λ v. v) (λ v. v) only_empty chain in_order [] ≡ some aborted
unfolding program
second_round_aborts = refl

all_succeed :
    statuses (run_dag second_try (λ v. v) (λ v. v) plain chain in_order [])
    ≡ success ∷ success ∷ success ∷ []
unfolding program
all_succeed = refl

-- With `a` failed, `c` is skipped or failed as a deadlock, by the order of the set's iteration.
skipped_in_order :
    statuses (run_dag never (λ v. v) (λ v. v) plain chain in_order [])
    ≡ failed ∷ skipped ∷ skipped ∷ []
unfolding program
skipped_in_order = refl

deadlock_out_of_order :
    statuses (run_dag never (λ v. v) (λ v. v) plain chain ("c" ∷ "b" ∷ "a" ∷ []) [])
    ≡ failed ∷ skipped ∷ failed ∷ []
unfolding program
deadlock_out_of_order = refl

run_step-Ended_example :
    Ended second_try
      (λ v. v)
      (λ v. v)
      (step_after [])
      (run_step second_try (λ v. v) (λ v. v) "a" [] (step_after []))
      (first_return second_try (λ v. v) (λ v. v) "a" [] 0 1)
run_step-Ended_example = run_step-Ended second_try (λ v. v) (λ v. v) "a" [] (step_after [])

Distinct-names : Distinct in_order
unfolding program
Distinct-names = (refl, (refl, (refl, tt)))

chain-IsStart : IsStart chain in_order
unfolding get member
chain-IsStart = record {
  unique = Distinct-names;
  listed = λ n s e. ground (arith, e);
  known = λ n e. elim (string_discrete "a" n) [
    | yes a ↦ (step_after [], ground (arith, a), refl)
    | no not_a ↦ elim (string_discrete "b" n) [
      | yes b ↦ (step_after ("a" ∷ []), ground (arith, not_a, b), refl)
      | no not_b ↦ (step_after ("b" ∷ []), ground (arith, not_a, not_b, e), refl)
    ]
  ];
}

run_dag-StepOk_example :
    (ending : Ending (WorkflowRun ℕ)) × (run_dag second_try
        (λ v. v)
        (λ v. v)
        plain
        chain
        in_order
        []
      ≡ some ending)
    × Outcome plain ending
run_dag-StepOk_example =
    run_dag-StepOk second_try (λ v. v) (λ v. v) plain chain in_order [] chain-IsStart
