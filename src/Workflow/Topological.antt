-- ===== src/Workflow/Topological.antt =====
-- host/enterprise/workflow_engine.py: what the check of the graph finds out.
use evoclaw.Base.{
  ℕ, zero, suc, ◌+◌, ◌<◌, String, true, false, ◌≡◌, ap, subst, inl, inr, Option, none, some, List,
  [], ◌∷◌, ◌++◌, string_discrete, member, member-append, Distinct, length, arith, Option-cases,
  Bool-cases,
}
use evoclaw.Base.Dict.{get, keys, member-keys_of_get}
use evoclaw.Base.Pigeonhole.{Distinct-within, length-keys}
use evoclaw.Workflow.Graph.{
  Graph, deps_of, Sorting, sorted, cyclic, and_then, visit_each, finish_visit, visit, topo_sort,
}

-- `a` depends on `b`, in one step or more.
pub data Needs (g : Graph) : String → String → Type 0 where
  direct : {a b : String} → member b (deps_of g a) ≡ true → Needs g a b
  through : {a b c : String} → member b (deps_of g a) ≡ true → Needs g b c → Needs g a c

Needs-more :
    (g : Graph) (a b c : String) → Needs g a b → member c (deps_of g b) ≡ true → Needs g a c
Needs-more g a b c (direct e) h = through e (direct h)
Needs-more g a b c (through {b = d} e l) h = through e (Needs-more g d b c l h)

-- Each name comes after everything that it depends on, and stands once.
pub data Topological (g : Graph) : List String → Type 0 where
  nothing : Topological g []
  after :
      (order : List String) (name : String)
      → Topological g order
      → ((d : String) → member d (deps_of g name) ≡ true → member d order ≡ true)
      → member name order ≡ false
      → Topological g (order ++ name ∷ [])

-- The names of a list are in the order, with all that were there; the names that are being visited were
-- not put there.
pub record IsExtended (g : Graph) (visiting order names o : List String) : Type 0 where
  pub topological : Topological g o
  pub has : (k : String) → member k names ≡ true → member k o ≡ true
  pub keeps : (k : String) → member k order ≡ true → member k o ≡ true
  pub leaves : (k : String) → member k visiting ≡ true → member k order ≡ false → member k o ≡ false

abbrev pub Good : Graph → List String → List String → List String → Option Sorting → Type 0
Good g visiting order names none = ⊥
Good g visiting order names (some (cyclic name)) = Needs g name name
Good g visiting order names (some (sorted o)) = IsExtended g visiting order names o

-- What a visit of a name needs: it is reached from every name that is being visited, and the fuel lasts.
record CanVisit (g : Graph) (fuel : ℕ) (visiting : List String) (name : String) : Type 0 where
  enough : length g < fuel + length visiting
  distinct : Distinct visiting
  known : (k : String) → member k visiting ≡ true → member k (keys g) ≡ true
  reached : (k : String) → member k visiting ≡ true → Needs g k name

next_each :
    (g : Graph) (visiting order ds : List String) (d : String) (f : List String → Option Sorting)
    (r : Option Sorting)
    → Good g visiting order (d ∷ []) r
    → ((o : List String) → Topological g o → Good g visiting o ds (f o))
    → Good g visiting order (d ∷ ds) (and_then f r)
unfolding and_then
next_each g visiting order ds d f none bad next = bad
next_each g visiting order ds d f (some (cyclic name)) loop next = loop
next_each g visiting order ds d f (some (sorted o)) e next = join (f o) (next o e.topological)
  where
    join : (r : Option Sorting) → Good g visiting o ds r → Good g visiting order (d ∷ ds) r
    join none bad = bad
    join (some (cyclic name)) loop = loop
    join (some (sorted o')) e' = record {
      topological = e'.topological;
      has = λ k m.
          unfold member in
          elim (string_discrete d k) [
            | yes same ↦ e'.keeps k (e.has k (ground (arith, same, string_discrete d k)))
            | no n ↦ e'.has k (ground (arith, m, n, string_discrete d k))
          ];
      keeps = λ k m. e'.keeps k (e.keeps k m);
      leaves = λ k m out. e'.leaves k m (e.leaves k m out);
    }

visit_each-Good :
    (g : Graph) (visiting : List String) (f : List String → String → Option Sorting)
    (order ds : List String)
    → ((o : List String) (d : String)
        → member d ds ≡ true
        → Topological g o
        → Good g visiting o (d ∷ []) (f o d))
    → Topological g order
    → Good g visiting order ds (visit_each f order ds)
unfolding visit_each member
visit_each-Good g visiting f order [] h t = record {
  topological = t;
  has = λ k m. absurd (ground (arith, m));
  keeps = λ k m. m;
  leaves = λ k m out. out;
}
visit_each-Good g visiting f order (d ∷ ds) h t =
    next_each g visiting order ds d (λ o. visit_each f o ds) (f order d)
      (h order d (ground (arith, string_discrete d d)) t)
      (λ o t'.
        visit_each-Good g visiting f o ds
          (λ o' d' m. h o' d' (ground (arith, m, string_discrete d d'))) t')

finish-Good :
    (g : Graph) (visiting order : List String) (name : String) (r : Option Sorting)
    → member name order ≡ false
    → member name visiting ≡ false
    → Good g (name ∷ visiting) order (deps_of g name) r
    → Good g visiting order (name ∷ []) (and_then (finish_visit name) r)
unfolding and_then finish_visit
finish-Good g visiting order name none out new bad = bad
finish-Good g visiting order name (some (cyclic c)) out new loop = loop
finish-Good g visiting order name (some (sorted o)) out new e =
    let fresh : member name o ≡ false =
      unfold member in e.leaves name (ground (arith, string_discrete name name)) out in
    record {
      topological = after o name e.topological e.has fresh;
      has = λ k m. ground (arith, m, member-append k o (name ∷ []));
      keeps = λ k m. ground (arith, e.keeps k m, member-append k o (name ∷ []));
      leaves = λ k m out'.
          unfold member in
          ground (
            arith,
            m,
            out',
            new,
            e.leaves k,
            member-append k o (name ∷ []),
            string_discrete name k,
            (λ (same : name ≡ k). ap (λ j. member j visiting) same),
          );
    }

-- The dependency of a known step is visited with the step marked.
CanVisit-dep :
    (g : Graph) (fuel : ℕ) (visiting : List String) (name d : String)
    → CanVisit g (suc fuel) visiting name
    → member name visiting ≡ false
    → member d (deps_of g name) ≡ true
    → CanVisit g fuel (name ∷ visiting) d
unfolding deps_of member
CanVisit-dep g fuel visiting name d c new m = record {
  enough = let e = c.enough in omega arith;
  distinct = (new, c.distinct);
  known = λ k mk. elim (string_discrete name k) [
    | no n ↦ c.known k (ground (arith, mk, n, string_discrete name k))
    | yes same ↦ elim (Option-cases (get name g)) [
      | inl e ↦ absurd (ground (arith, m, e))
      | inr (deps, e) ↦
          subst (λ j. member j (keys g) ≡ true) same (member-keys_of_get name g deps e)
    ]
  ];
  reached = λ k mk. elim (string_discrete name k) [
    | no n ↦ Needs-more g k name d (c.reached k (ground (arith, mk, n, string_discrete name k))) m
    | yes same ↦ subst (λ j. Needs g j d) same (direct m)
  ];
}

visit-Good :
    (fuel : ℕ) (g : Graph) (visiting order : List String) (name : String)
    → CanVisit g fuel visiting name
    → Topological g order
    → Good g visiting order (name ∷ []) (visit fuel g visiting order name)
unfolding visit
visit-Good zero g visiting order name c t =
    let e = c.enough in
    absurd (omega (arith, e, Distinct-within visiting (keys g) c.distinct c.known, length-keys g))
visit-Good (suc fuel) g visiting order name c t = elim (Bool-cases (member name order)) [
  | inl there ↦
      rw (there, visit)
        (record {
          topological = t;
          has = λ k m.
              unfold member in
              ground (
                arith,
                m,
                there,
                string_discrete name k,
                (λ (e : name ≡ k). ap (λ j. member j order) e),
              );
          keeps = λ k m. m;
          leaves = λ k m out. out;
        })
  | inr out ↦ elim (Bool-cases (member name visiting)) [
    | inl loop ↦ rw (out, loop, visit) (c.reached name loop)
    | inr new ↦
        rw (out, new, visit)
          (finish-Good g visiting order name
            (visit_each (visit fuel g (name ∷ visiting)) order (deps_of g name)) out new
            (visit_each-Good g (name ∷ visiting) (visit fuel g (name ∷ visiting)) order
              (deps_of g name)
              (λ o d m t'.
                visit-Good fuel g (name ∷ visiting) o d
                  (CanVisit-dep g fuel visiting name d c new m) t')
              t))
  ]
]

pub topo_sort-Good : (g : Graph) → Good g [] [] (keys g) (topo_sort g)
unfolding topo_sort member
topo_sort-Good g =
    visit_each-Good g [] (visit (length g + 1) g []) [] (keys g)
      (λ o d m t.
        visit-Good (length g + 1) g [] o d
          (record {
            enough = omega arith;
            distinct = tt;
            known = λ k h. absurd (cc (h));
            reached = λ k h. absurd (cc (h));
          })
          t)
      nothing
