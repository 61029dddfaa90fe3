-- ===== src/Workflow/Outcome.antt =====
-- A whole run of a workflow.
use evoclaw.Base.{
  ℕ, ◌+◌, String, true, ◌≡◌, refl, ◌⊎◌, inl, inr, some, List, arith, length, member, Distinct, Bool,
  false, if◌then◌else◌, ◌≢◌,
}
use evoclaw.Base.Dict.{Dict, get}
use evoclaw.Workflow.{
  WorkflowStep, WorkflowRun, StepStatus, pending, running, success, failed, skipped, Attempt,
  deps_ok, deps_block, any_failed, run_failed, run_success, run_dag, Ending, finished, aborted,
  RunStatus,
}
use evoclaw.Workflow.Sets.{among}
use evoclaw.Workflow.Rounds.{Inv}
use evoclaw.Workflow.Schedule.{schedule-Ends}

final_status :
    (t : StepStatus) → t ≢ pending → t ≢ running → (t ≡ success) ⊎ (t ≡ failed) ⊎ (t ≡ skipped)
final_status pending p r = absurd (p refl)
final_status running p r = absurd (r refl)
final_status success p r = inl refl
final_status failed p r = inr (inl refl)
final_status skipped p r = inr (inr refl)

module _ {V : Type 0} where
  -- Before a run: every step is pending, and `order` lists the names of the steps, each once.
  pub record IsStart (steps : Dict (WorkflowStep V)) (order : List String) : Type 0 where
    pub unique : Distinct order
    pub listed : (n : String) (s : WorkflowStep V) → get n steps ≡ some s → member n order ≡ true
    pub known :
        (n : String)
        → member n order ≡ true
        → (s : WorkflowStep V) × (get n steps ≡ some s) × (s.status ≡ pending)

  IsStart-Inv :
      (steps : Dict (WorkflowStep V)) (order : List String)
      → IsStart steps order
      → Inv steps (among order)
  IsStart-Inv steps order b = record {
    still_open = λ n s e _. b.listed n s e;
    fresh = b.known;
    sound = λ n s e p. cc (is_open n s e);
    blamed = λ n s e p. cc (is_open n s e);
    ended = λ n s e p. cc (is_open n s e);
  }
    where
      is_open : (n : String) (s : WorkflowStep V) → get n steps ≡ some s → s.status ≡ pending
      is_open n s e = let (r, there, p) = b.known n (b.listed n s e) in cc

  -- After a run: each step is successful, failed or skipped; all that a successful step depends on
  -- is successful, and something that a skipped step depends on is failed or skipped.
  pub record StepOk (steps : Dict (WorkflowStep V)) (s : WorkflowStep V) : Type 0 where
    pub final : (s.status ≡ success) ⊎ (s.status ≡ failed) ⊎ (s.status ≡ skipped)
    pub sound : s.status ≡ success → deps_ok steps s.depends_on ≡ true
    pub blamed : s.status ≡ skipped → deps_block steps s.depends_on ≡ true

  -- A run that returns has made this of the steps; one that raises has a context that is not copied.
  pub data Outcome (copyable : Dict V → Bool) : Ending (WorkflowRun V) → Type 0 where
    settled :
        {run : WorkflowRun V}
        → ((n : String) (s : WorkflowStep V) → get n run.steps ≡ some s → StepOk run.steps s)
        → Outcome copyable (finished run)
    uncopied : (context : Dict V) → copyable context ≡ false → Outcome copyable aborted

  settle :
      (steps : Dict (WorkflowStep V)) (status : RunStatus) (context : Dict V)
      (copyable : Dict V → Bool)
      → Inv steps (λ _. false)
      → Outcome copyable
          (finished (record { steps = steps; run_status = status; context = context }))
  settle steps status context copyable v = settled (λ n s found. record {
    final = final_status s.status (λ p. cc (v.still_open n s found p)) (v.ended n s found);
    sound = v.sound n s found;
    blamed = v.blamed n s found;
  })

  module _ (attempt : String → ℕ → Dict V → Attempt V) (size : V → ℕ) (truncated : V → V) where
    -- From pending steps, if each attempt of a step returns, times out or raises an `Exception`, and in
    -- whatever order the set of their names is iterated, the run ends: it returns with every step in a
    -- final state that fits those of the steps that it depends on, or it raises, since some context
    -- cannot be copied.
    pub run_dag-StepOk :
        (copyable : Dict V → Bool) (steps : Dict (WorkflowStep V)) (order : List String)
        (context : Dict V)
        → IsStart steps order
        → (ending : Ending (WorkflowRun V)) × (run_dag attempt size truncated copyable steps order
              context
            ≡ some ending)
          × Outcome copyable ending
    unfolding run_dag
    run_dag-StepOk copyable steps order context b =
        elim (schedule-Ends attempt size truncated copyable (length order + 1) steps context order
          (omega arith) b.unique (IsStart-Inv steps order b)) [
            | inl ((steps', context'), e, v) ↦ (
              finished (record {
                steps = steps';
                run_status = if any_failed steps' then run_failed else run_success;
                context = context';
              }),
              rw (e, run_dag) refl,
              settle steps' _ context' copyable v,
            )
            | inr (stuck, e, h) ↦ (aborted, rw (e, run_dag) refl, uncopied stuck h)
          ]
