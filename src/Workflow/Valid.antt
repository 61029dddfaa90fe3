-- ===== src/Workflow/Valid.antt =====
-- host/enterprise/workflow_engine.py: which graphs pass the check.
use evoclaw.Base.{
  String, true, false, ◌≡◌, refl, ap, sym, subst, ◌∙◌, inl, inr, Option, none, some, List, [], ◌∷◌,
  string_discrete, member, arith, Option-cases, Bool-cases,
}
use evoclaw.Base.Dict.{get, keys}
use evoclaw.Workflow.Graph.{
  Graph, Sorting, sorted, cyclic, topo_sort, find_unknown, find_unknown_step, Validity, valid,
  unknown_step, cycle, of_sorting, validate,
}
use evoclaw.Workflow.Topological.{Needs, Topological, Good, topo_sort-Good}

find_unknown-none :
    (g : Graph) (ds : List String) (d : String)
    → find_unknown g ds ≡ none
    → member d ds ≡ true
    → member d (keys g) ≡ true
unfolding find_unknown member
find_unknown-none g [] d h m = absurd (ground (arith, m))
find_unknown-none g (x ∷ ds) d h m = ground (
  arith,
  h,
  m,
  string_discrete x d,
  find_unknown-none g ds d,
  (λ (e : x ≡ d). ap (λ j. member j (keys g)) e),
)

find_unknown-some :
    (g : Graph) (ds : List String) (d : String)
    → find_unknown g ds ≡ some d
    → (member d ds ≡ true) × (member d (keys g) ≡ false)
unfolding find_unknown member
find_unknown-some g [] d h = absurd (ground (arith, h))
find_unknown-some g (x ∷ ds) d h = elim (Bool-cases (member x (keys g))) [
  | inl here ↦
      let (m, out) = find_unknown-some g ds d (ground (arith, h, here)) in
      (ground (arith, m, string_discrete x d), out)
  | inr out ↦
      let same : x ≡ d = ground (arith, h, out) in
      (ground (arith, same, string_discrete x d), subst (λ j. member j (keys g) ≡ false) same out)
]

-- A step of the list has an unknown dependency, or none has.
unknown_in :
    (g steps : Graph) (name d : String)
    → find_unknown_step g steps ≡ some (name, d)
    → (deps : List String) × (member name (keys steps) ≡ true)
      × (member d deps ≡ true)
      × (member d (keys g) ≡ false)
unfolding find_unknown_step keys member
unknown_in g [] name d h = absurd (ground (arith, h))
unknown_in g ((n, deps) ∷ steps) name d h = elim (Option-cases (find_unknown g deps)) [
  | inr (x, e) ↦
      let same : (n ≡ name) × (x ≡ d) = ground (arith, h, e) in
      let (m, out) = find_unknown-some g deps d (e ∙ ap some same.1) in
      (deps, ground (arith, same, string_discrete n name), m, out)
  | inl e ↦
      let (ds, k, m, out) = unknown_in g steps name d (ground (arith, h, e)) in
      (ds, ground (arith, k, string_discrete n name), m, out)
]

all_known :
    (g steps : Graph) (name d : String) (deps : List String)
    → find_unknown_step g steps ≡ none
    → get name steps ≡ some deps
    → member d deps ≡ true
    → member d (keys g) ≡ true
unfolding find_unknown_step get
all_known g [] name d deps h e m = absurd (ground (arith, e))
all_known g ((n, ds) ∷ steps) name d deps h e m = elim (Option-cases (find_unknown g ds)) [
  | inr (x, u) ↦ absurd (ground (arith, h, u))
  | inl u ↦ elim (string_discrete n name) [
    | yes same ↦
        find_unknown-none g ds d u (
          subst (λ xs. member d xs ≡ true) (sym (ground (arith, e, same, string_discrete n name)))
            m)
    | no k ↦
        all_known g steps name d deps (ground (arith, h, u))
          (ground (arith, e, k, string_discrete n name)) m
  ]
]

-- What each answer says of the graph.
abbrev pub Verdict : Graph → Validity → Type 0
Verdict g valid =
    ((name d : String) (deps : List String)
      → get name g ≡ some deps
      → member d deps ≡ true
      → member d (keys g) ≡ true)
    × (order : List String) × Topological g order
    × ((k : String) → member k (keys g) ≡ true → member k order ≡ true)
Verdict g (unknown_step name d) = (member name (keys g) ≡ true) × (member d (keys g) ≡ false)
Verdict g (cycle name) = Needs g name name

sorting_verdict :
    (g : Graph) (r : Option Sorting)
    → ((name d : String) (deps : List String)
        → get name g ≡ some deps
        → member d deps ≡ true
        → member d (keys g) ≡ true)
    → Good g [] [] (keys g) r
    → (v : Validity) × (of_sorting r ≡ some v) × Verdict g v
unfolding of_sorting
sorting_verdict g none known bad = absurd bad
sorting_verdict g (some (cyclic name)) known loop = (cycle name, refl, loop)
sorting_verdict g (some (sorted o)) known e = (valid, refl, (known, o, e.topological, e.has))

-- The check of any graph ends. If it passes, all dependencies are steps, and the steps have an order in
-- which each stands once, after all that it depends on; if it names an unknown dependency, its step is
-- one of the graph and it is none; if it names a cycle, the step depends on itself through the graph.
pub validate-Verdict : (g : Graph) → (v : Validity) × (validate g ≡ some v) × Verdict g v
unfolding validate
validate-Verdict g = elim (Option-cases (find_unknown_step g g)) [
  | inr ((name, d), e) ↦
      let (_, k, _, out) = unknown_in g g name d e in
      (unknown_step name d, ground (arith, e), (k, out))
  | inl e ↦
      let (v, r, verdict) =
        sorting_verdict g (topo_sort g) (λ name d deps. all_known g g name d deps e)
          (topo_sort-Good g) in
      (v, ground (arith, e, r), verdict)
]
