-- ===== src/Skills.antt =====
-- skills_engine/state.py, manifest.py and structured.py: versions, the record of the applied skills
-- with the checks on it, and the merge of package and service tables. A version is the list of its
-- parts after `split` and `int`; npm's versions are lists of code points. The state file is read
-- and written whole: a function takes the state that is read and returns the one that is written.
pub mod Semver
pub mod Applied
pub mod Merged
mod Tests
use evoclaw.Base.{
  ℕ, zero, suc, ◌+◌, ◌-◌, max, String, Bool, true, false, not, ◌&&◌, ◌||◌, Option, none, some, List,
  [], ◌∷◌, ◌++◌, leb, ◌==◌, if◌then◌else◌, length, ite, member, string_discrete,
}
use evoclaw.Base.Dict.{Dict, get, set}

-- Python's integers.
pub data ℤ : Type 0 where
  pos negsuc : ℕ → ℤ

-- `va - vb`
unfoldable pub minus : ℕ → ℕ → ℤ
minus va vb = if leb vb va then pos (va - vb) else negsuc (vb - va - 1)

-- The part at an index, and 0 behind the end.
unfoldable pub part : List ℕ → ℕ → ℕ
part [] i = 0
part (v ∷ vs) zero = v
part (v ∷ vs) (suc i) = part vs i

-- The loop of `compare_semver` from index `i` on, with `left` turns.
unfoldable pub compare_from : List ℕ → List ℕ → ℕ → ℕ → ℤ
compare_from a b i zero = pos 0
compare_from a b i (suc left) =
    let rest = compare_from a b (suc i) left in
    if part a i == part b i then rest else minus (part a i) (part b i)

unfoldable pub compare_semver : List ℕ → List ℕ → ℤ
compare_semver a b = compare_from a b 0 (max (length a) (length b))

-- The values of `structured_outcomes` are opaque.
pub record AppliedSkill (V : Type 0) : Type 0 where
  pub name : String
  pub version : String
  pub applied_at : ℕ
  pub file_hashes : Dict String
  pub structured_outcomes : Option (Dict V)
  pub custom_patch : Option String
  pub custom_patch_description : Option String

module _ {V : Type 0} where
  -- `[s for s in state.applied_skills if s.name != skill_name]`
  unfoldable pub without : String → List (AppliedSkill V) → List (AppliedSkill V)
  without skill_name [] = []
  without skill_name (s ∷ skills) =
      let rest = without skill_name skills in
      ite (string_discrete s.name skill_name) rest (s ∷ rest)

  unfoldable pub record_skill_application :
      List (AppliedSkill V)
      → String
      → String
      → ℕ
      → Dict String
      → Option (Dict V)
      → List (AppliedSkill V)
  record_skill_application applied skill_name version now file_hashes structured_outcomes =
      without skill_name applied
      ++ record {
        name = skill_name;
        version = version;
        applied_at = now;
        file_hashes = file_hashes;
        structured_outcomes = structured_outcomes;
        custom_patch = none;
        custom_patch_description = none;
      }
        ∷ []

  -- `applied_names`
  unfoldable pub applied_names : List (AppliedSkill V) → List String
  applied_names [] = []
  applied_names (s ∷ skills) = s.name ∷ applied_names skills

  -- The missing dependencies; the check is passed when there is none.
  unfoldable pub check_dependencies : List (AppliedSkill V) → List String → List String
  check_dependencies applied [] = []
  check_dependencies applied (dep ∷ depends) =
      let rest = check_dependencies applied depends in
      if member dep (applied_names applied) then rest else dep ∷ rest

  -- The conflicting skills; the check is passed when there is none.
  unfoldable pub check_conflicts : List (AppliedSkill V) → List String → List String
  check_conflicts applied [] = []
  check_conflicts applied (c ∷ conflicts) =
      let rest = check_conflicts applied conflicts in
      if member c (applied_names applied) then c ∷ rest else rest

-- `merge_docker_compose_services`: the merged services and the names in conflict.
unfoldable pub merge_docker_compose_services {ℓ} :
    {V : Type ℓ} → Dict V → Dict V → Dict V × List String
merge_docker_compose_services merged [] = (merged, [])
merge_docker_compose_services merged ((service, def) ∷ incoming) = elim (get service merged) [
  | some _ ↦
      let (merged', conflicts) = merge_docker_compose_services merged incoming in
      (merged', service ∷ conflicts)
  | none ↦ merge_docker_compose_services (set service def merged) incoming
]

abbrev pub Text : Type 0
Text = List ℕ

-- `s.lstrip("^~>=<")`
unfoldable pub lstrip_range : Text → Text
lstrip_range [] = []
lstrip_range (c ∷ s) =
    let rest = lstrip_range s in
    if c == 94 || c == 126 || c == 62 || c == 61 || c == 60 then rest else c ∷ s

-- `s.split(".")[0]`
unfoldable pub before_dot : Text → Text
before_dot [] = []
before_dot (c ∷ s) = let rest = before_dot s in if c == 46 then [] else c ∷ rest

-- `_major`
unfoldable pub major : Text → Text
major s = elim (lstrip_range s) [ [] ↦ 48 ∷ [] | c ∷ rest ↦ before_dot (c ∷ rest) ]

-- `==` of texts
unfoldable pub text_eq : Text → Text → Bool
text_eq [] [] = true
text_eq [] (_ ∷ _) = false
text_eq (_ ∷ _) [] = false
text_eq (x ∷ xs) (y ∷ ys) = x == y && text_eq xs ys

unfoldable pub compare_semver_range : Text → Text → Bool
compare_semver_range a b = text_eq (major a) (major b)

-- `merge_npm_dependencies`: the merged table and the packages in conflict.
unfoldable pub merge_npm_dependencies : Dict Text → Dict Text → Dict Text × List String
merge_npm_dependencies merged [] = (merged, [])
merge_npm_dependencies merged ((pkg, version) ∷ incoming) = elim (get pkg merged) [
  | some kept ↦
      let (merged', conflicts) = merge_npm_dependencies merged incoming in
      (
        merged',
        if not (text_eq kept version) && not (compare_semver_range kept version)
            then pkg ∷ conflicts
            else conflicts,
      )
  | none ↦ merge_npm_dependencies (set pkg version merged) incoming
]
