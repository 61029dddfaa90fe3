-- ===== src/Skills/Merged.antt =====
-- skills_engine/structured.py: what the merged tables hold, and which names are in conflict.
use evoclaw.Base.{
  String, Bool, true, false, not, ◌&&◌, ◌≡◌, refl, ap, sym, Bool-cases, Option, none, some, [], ◌∷◌,
  arith, member, string_discrete, Distinct, Option-cases, inl, inr,
}
use evoclaw.Base.Dict.{Dict, get, set, keys, get-set, get_of_not-member}
use evoclaw.Skills.{
  Text, text_eq, compare_semver_range, major, merge_docker_compose_services, merge_npm_dependencies,
}

-- The first of two optional values that is there.
unfoldable pub or_else {ℓ} : {V : Type ℓ} → Option V → Option V → Option V
or_else none y = y
or_else (some x) _ = some x

unfoldable pub is_some {ℓ} : {V : Type ℓ} → Option V → Bool
is_some none = false
is_some (some _) = true

-- A name of the base is kept with its definition, and one that only the other table has is added.
pub get-merge_services {ℓ} :
    {V : Type ℓ} (base incoming : Dict V) (k : String)
    → get k (merge_docker_compose_services base incoming).0 ≡ or_else (get k base) (get k incoming)
unfolding merge_docker_compose_services or_else get
get-merge_services base [] k = ground (arith, Option-cases (get k base))
get-merge_services base ((s, def) ∷ incoming) k = elim (Option-cases (get s base)) [
  | inl e ↦
      rw (e, merge_docker_compose_services)
        (ground (
          arith,
          e,
          get-merge_services (set s def base) incoming k,
          get-set s k def base,
          string_discrete s k,
          Option-cases (get k base),
        ))
  | inr (d, e) ↦
      rw (e, merge_docker_compose_services)
        (ground (
          arith,
          e,
          get-merge_services base incoming k,
          string_discrete s k,
          Option-cases (get k base),
        ))
]

services_conflict {ℓ} :
    {V : Type ℓ} (base incoming : Dict V) (k : String)
    → Distinct (keys incoming)
    → member k (merge_docker_compose_services base incoming).1
      ≡ (is_some (get k base) && member k (keys incoming))
unfolding merge_docker_compose_services is_some member keys
services_conflict base [] k d = ground (arith, Option-cases (get k base))
services_conflict base ((s, def) ∷ incoming) k d = elim (Option-cases (get s base)) [
  | inl e ↦
      rw (e, merge_docker_compose_services)
        (ground (
          arith,
          e,
          d,
          services_conflict (set s def base) incoming k d.1,
          get-set s k def base,
          string_discrete s k,
          Option-cases (get k base),
        ))
  | inr (x, e) ↦
      rw (e, merge_docker_compose_services)
        (ground (
          arith,
          e,
          services_conflict base incoming k d.1,
          string_discrete s k,
          Option-cases (get k base),
        ))
]

-- The merge keeps the definitions of the base and adds those of the names that it has not; if no
-- name stands twice in the added table, the conflicts are the names that both tables have.
merge_services-keeps {ℓ} :
    {V : Type ℓ} (base incoming : Dict V) (k : String)
    → Distinct (keys incoming)
    → let (merged, conflicts) = merge_docker_compose_services base incoming in
      (get k merged ≡ or_else (get k base) (get k incoming))
      × (member k conflicts ≡ (is_some (get k base) && member k (keys incoming)))
merge_services-keeps base incoming k d =
    (get-merge_services base incoming k, services_conflict base incoming k d)

text_eq→≡ : (a b : Text) → text_eq a b ≡ true → a ≡ b
unfolding text_eq
text_eq→≡ [] [] h = refl
text_eq→≡ [] (_ ∷ _) h = absurd (cc h)
text_eq→≡ (_ ∷ _) [] h = absurd (cc h)
text_eq→≡ (x ∷ xs) (y ∷ ys) h = ground (arith, h, text_eq→≡ xs ys)

text_eq_refl : (a : Text) → text_eq a a ≡ true
unfolding text_eq
text_eq_refl [] = refl
text_eq_refl (x ∷ xs) = ground (arith, text_eq_refl xs)

-- Equal ranges are compatible: the first test of the merge adds nothing to the second.
equal_compatible :
    (a b : Text)
    → (not (text_eq a b) && not (compare_semver_range a b)) ≡ not (compare_semver_range a b)
unfolding compare_semver_range
equal_compatible a b = elim (Bool-cases (text_eq a b)) [
  | inl e ↦ ground (arith, e, ap major (text_eq→≡ a b e), text_eq_refl (major a))
  | inr e ↦ ground (arith, e)
]

-- Two tables disagree on a package: both have it, with ranges of different major versions.
unfoldable pub incompatible : Option Text → Option Text → Bool
incompatible (some v) (some w) = not (compare_semver_range v w)
incompatible _ _ = false

get-merge_npm :
    (base incoming : Dict Text) (k : String)
    → get k (merge_npm_dependencies base incoming).0 ≡ or_else (get k base) (get k incoming)
unfolding merge_npm_dependencies or_else get
get-merge_npm base [] k = ground (arith, Option-cases (get k base))
get-merge_npm base ((s, v) ∷ incoming) k = elim (Option-cases (get s base)) [
  | inl e ↦
      rw (e, merge_npm_dependencies)
        (ground (
          arith,
          e,
          get-merge_npm (set s v base) incoming k,
          get-set s k v base,
          string_discrete s k,
          Option-cases (get k base),
        ))
  | inr (x, e) ↦
      rw (e, merge_npm_dependencies)
        (ground
          (arith, e, get-merge_npm base incoming k, string_discrete s k, Option-cases (get k base)))
]

npm_conflict :
    (base incoming : Dict Text) (k : String)
    → Distinct (keys incoming)
    → member k (merge_npm_dependencies base incoming).1 ≡ incompatible (get k base) (get k incoming)
unfolding merge_npm_dependencies incompatible member keys get
npm_conflict base [] k d = ground (arith, Option-cases (get k base))
npm_conflict base ((s, v) ∷ incoming) k d =
    let none_later : s ≡ k → get k incoming ≡ none =
      λ e. rw (sym e) (get_of_not-member s incoming d.0) in
    elim (Option-cases (get s base)) [
      | inl e ↦
          rw (e, merge_npm_dependencies)
            (ground (
              arith,
              e,
              none_later,
              npm_conflict (set s v base) incoming k d.1,
              get-set s k v base,
              string_discrete s k,
              Option-cases (get k base),
              Option-cases (get k incoming),
            ))
      | inr (x, e) ↦
          rw (e, merge_npm_dependencies, equal_compatible x v)
            (ground (
              arith,
              e,
              none_later,
              npm_conflict base incoming k d.1,
              string_discrete s k,
              Option-cases (get k base),
              Option-cases (get k incoming),
            ))
    ]

-- The merge keeps the ranges of the base and adds those of the packages that it has not; if no
-- package stands twice in the added table, the conflicts are the packages that both tables have
-- with different major versions.
merge_npm-keeps :
    (base incoming : Dict Text) (k : String)
    → Distinct (keys incoming)
    → let (merged, conflicts) = merge_npm_dependencies base incoming in
      (get k merged ≡ or_else (get k base) (get k incoming))
      × (member k conflicts ≡ incompatible (get k base) (get k incoming))
merge_npm-keeps base incoming k d = (get-merge_npm base incoming k, npm_conflict base incoming k d)
