-- ===== src/Workflow/Graph.antt =====
-- host/enterprise/workflow_engine.py: `_validate` and `_topo_sort`, the check of a workflow's graph. The
-- set `visited` has the names that are in `order`; the recursion of `visit` runs on fuel.
use evoclaw.Base.{
  ℕ, zero, suc, ◌+◌, String, Option, none, some, List, [], ◌∷◌, ◌++◌, if◌then◌else◌, member, length,
}
use evoclaw.Base.Dict.{Dict, get, keys}

-- The steps with what they depend on.
abbrev pub Graph : Type 0
Graph = Dict (List String)

unfoldable pub deps_of : Graph → String → List String
deps_of g name = elim (get name g) [ none ↦ [] | some deps ↦ deps ]

-- The order, or the step with which a cycle is detected.
pub data Sorting : Type 0 where
  sorted : List String → Sorting
  cyclic : String → Sorting

-- An exception ends the loop.
unfoldable pub and_then : (List String → Option Sorting) → Option Sorting → Option Sorting
and_then f none = none
and_then f (some (cyclic name)) = some (cyclic name)
and_then f (some (sorted order)) = f order

unfoldable pub visit_each :
    (List String → String → Option Sorting) → List String → List String → Option Sorting
visit_each visit order [] = some (sorted order)
visit_each visit order (d ∷ ds) = and_then (λ o. visit_each visit o ds) (visit order d)

unfoldable pub finish_visit : String → List String → Option Sorting
finish_visit name order = some (sorted (order ++ name ∷ []))

unfoldable pub visit : ℕ → Graph → List String → List String → String → Option Sorting
visit zero g visiting order name = none
visit (suc fuel) g visiting order name =
    let rest = visit_each (visit fuel g (name ∷ visiting)) order (deps_of g name) in
    if member name order
    then some (sorted order)
    else if member name visiting
    then some (cyclic name)
    else and_then (finish_visit name) rest

-- A step is entered at most once on a path of visits.
unfoldable pub topo_sort : Graph → Option Sorting
topo_sort g = visit_each (visit (length g + 1) g []) [] (keys g)

-- The first dependency that is no step.
unfoldable pub find_unknown : Graph → List String → Option String
find_unknown g [] = none
find_unknown g (d ∷ ds) = let rest = find_unknown g ds in if member d (keys g) then rest else some d

unfoldable pub find_unknown_step : Graph → Graph → Option (String × String)
find_unknown_step g [] = none
find_unknown_step g ((name, deps) ∷ steps) = elim (find_unknown g deps) [
  | some d ↦ some (name, d)
  | none ↦ find_unknown_step g steps
]

pub data Validity : Type 0 where
  valid : Validity
  unknown_step : String → String → Validity
  cycle : String → Validity

unfoldable pub of_sorting : Option Sorting → Option Validity
of_sorting none = none
of_sorting (some (sorted _)) = some valid
of_sorting (some (cyclic name)) = some (cycle name)

unfoldable pub validate : Graph → Option Validity
validate g = elim (find_unknown_step g g) [
  | some (name, d) ↦ some (unknown_step name d)
  | none ↦ of_sorting (topo_sort g)
]
