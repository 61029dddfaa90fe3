-- ===== src/Workflow/GraphTests.antt =====
-- Graphs of steps.
use evoclaw.Base.{◌≡◌, refl, some, [], ◌∷◌, member, string_discrete}
use evoclaw.Base.Dict.{get, keys}
use evoclaw.Workflow.Graph.{
  Graph, deps_of, sorted, and_then, visit_each, finish_visit, visit, topo_sort, find_unknown,
  find_unknown_step, Validity, unknown_step, cycle, of_sorting, validate,
}
use evoclaw.Workflow.Valid.{Verdict, validate-Verdict}

program : Unit {0}
unfolding string_discrete member get keys deps_of and_then visit_each finish_visit visit topo_sort
    find_unknown find_unknown_step of_sorting validate
program = tt

abbrev pipeline : Graph
pipeline = ("deploy", "test" ∷ "build" ∷ []) ∷ ("test", "build" ∷ []) ∷ ("build", []) ∷ []

abbrev circular : Graph
circular = ("a", "b" ∷ []) ∷ ("b", "c" ∷ []) ∷ ("c", "b" ∷ []) ∷ []

order_of_pipeline : topo_sort pipeline ≡ some (sorted ("build" ∷ "test" ∷ "deploy" ∷ []))
unfolding program
order_of_pipeline = refl

circular_is_refused : validate circular ≡ some (cycle "b")
unfolding program
circular_is_refused = refl

unknown_is_refused : validate (("a", "z" ∷ []) ∷ []) ≡ some (unknown_step "a" "z")
unfolding program
unknown_is_refused = refl

validate-Verdict_example : (v : Validity) × (validate pipeline ≡ some v) × Verdict pipeline v
validate-Verdict_example = validate-Verdict pipeline
