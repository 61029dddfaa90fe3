-- ===== src/Skills/Applied.antt =====
-- skills_engine/state.py and manifest.py: a recorded application is seen by the checks.
use evoclaw.Base.{
  ℕ, String, true, ◌≡◌, refl, Option, none, List, [], ◌∷◌, ◌++◌, ite, arith, member, discard,
  Distinct, string_discrete, member-append, member-discard, member-one, Distinct-snoc,
}
use evoclaw.Base.Dict.{Dict}
use evoclaw.Skills.{
  AppliedSkill, without, record_skill_application, applied_names, check_dependencies,
}

Distinct-discard : (k : String) (xs : List String) → Distinct xs → Distinct (discard k xs)
unfolding discard
Distinct-discard k [] d = tt
Distinct-discard k (x ∷ xs) d = ground (arith, d, Distinct-discard k xs d.1, member-discard k x xs)

module _ {V : Type 0} where
  applied_names-without :
      (name : String) (applied : List (AppliedSkill V))
      → applied_names (without name applied) ≡ discard name (applied_names applied)
  unfolding applied_names without discard
  applied_names-without name [] = refl
  applied_names-without name (s ∷ applied) = ground (arith, applied_names-without name applied)

  applied_names-append :
      (xs ys : List (AppliedSkill V))
      → applied_names (xs ++ ys) ≡ applied_names xs ++ applied_names ys
  unfolding applied_names
  applied_names-append [] ys = refl
  applied_names-append (x ∷ xs) ys = ground (arith, applied_names-append xs ys)

  module _ (applied : List (AppliedSkill V)) (name version : String) (now : ℕ)
      (hashes : Dict String) (outcomes : Option (Dict V)) where
    abbrev recorded : List (AppliedSkill V)
    recorded = record_skill_application applied name version now hashes outcomes

    applied_names-record :
        applied_names recorded ≡ discard name (applied_names applied) ++ name ∷ []
    unfolding record_skill_application applied_names
    applied_names-record = ground (
      arith,
      applied_names-without name applied,
      applied_names-append (without name applied) (
          record {
            name = name;
            version = version;
            applied_at = now;
            file_hashes = hashes;
            structured_outcomes = outcomes;
            custom_patch = none;
            custom_patch_description = none;
          }
          ∷ []),
    )

    member-recorded :
        (k : String)
        → member k (applied_names recorded)
          ≡ ite (string_discrete name k) true (member k (applied_names applied))
    member-recorded k = ground (
      arith,
      applied_names-record,
      member-append k (discard name (applied_names applied)) (name ∷ []),
      member-discard name k (applied_names applied),
      member-one k name,
      string_discrete name k,
    )

    -- After a skill is recorded as applied, the missing dependencies of any list are those that
    -- were missing before, less the skill.
    check_dependencies-record :
        (depends : List String)
        → check_dependencies recorded depends ≡ discard name (check_dependencies applied depends)
    unfolding check_dependencies discard
    check_dependencies-record [] = refl
    check_dependencies-record (d ∷ ds) = ground (
      arith,
      check_dependencies-record ds,
      member-recorded d,
      string_discrete name d,
      string_discrete d name,
    )

    -- If no skill was listed twice, none is after a skill is recorded as applied, and that one is
    -- listed.
    applied_names-record-Distinct :
        Distinct (applied_names applied)
        → Distinct (applied_names recorded) × (member name (applied_names recorded) ≡ true)
    applied_names-record-Distinct d =
        let kept = discard name (applied_names applied) in
        (
          rw applied_names-record (
              Distinct-snoc kept name (Distinct-discard name (applied_names applied) d) (
                ground (
                  arith,
                  member-discard name name (applied_names applied),
                  string_discrete name name,
                ))),
          ground (arith, member-recorded name, string_discrete name name),
        )
