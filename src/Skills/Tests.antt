-- ===== src/Skills/Tests.antt =====
-- Versions and tables of concrete skills.
use evoclaw.Base.{◌≡◌, refl, String, none, List, [], ◌∷◌, member, discard, string_discrete}
use evoclaw.Base.Dict.{Dict, get, set, keys}
use evoclaw.Skills.{
  pos, negsuc, Text, AppliedSkill, minus, part, compare_from, compare_semver, without,
  record_skill_application, applied_names, check_dependencies, merge_docker_compose_services,
  lstrip_range, before_dot, major, text_eq, compare_semver_range, merge_npm_dependencies,
}
use evoclaw.Skills.Semver.{FirstDifference, compare_semver-FirstDifference}
use evoclaw.Skills.Merged.{or_else, is_some, incompatible}

program : Unit {0}
unfolding string_discrete member discard get set keys minus part compare_from compare_semver without
    record_skill_application applied_names check_dependencies merge_docker_compose_services
    lstrip_range before_dot major text_eq compare_semver_range merge_npm_dependencies or_else
    is_some incompatible
program = tt

newer : compare_semver (1 ∷ 10 ∷ []) (1 ∷ 9 ∷ 5 ∷ []) ≡ pos 1
unfolding program
newer = refl

older : compare_semver (1 ∷ 2 ∷ []) (1 ∷ 2 ∷ 0 ∷ 3 ∷ []) ≡ negsuc 2
unfolding program
older = refl

compare_semver-FirstDifference_example : FirstDifference (1 ∷ 10 ∷ []) (1 ∷ 9 ∷ 5 ∷ []) (pos 1)
unfolding program
compare_semver-FirstDifference_example =
    compare_semver-FirstDifference (1 ∷ 10 ∷ []) (1 ∷ 9 ∷ 5 ∷ [])

abbrev skill : String → AppliedSkill String
skill name = record {
  name = name;
  version = "1.0";
  applied_at = 5;
  file_hashes = [];
  structured_outcomes = none;
  custom_patch = none;
  custom_patch_description = none;
}

abbrev two_skills : List (AppliedSkill String)
two_skills = skill "a" ∷ skill "b" ∷ []

abbrev services : Dict String
services = ("db", "postgres") ∷ ("web", "nginx") ∷ []

abbrev more_services : Dict String
more_services = ("cache", "redis") ∷ ("web", "caddy") ∷ []

-- "^1.2" and "2.0"
abbrev packages : Dict Text
packages = ("left", 94 ∷ 49 ∷ 46 ∷ 50 ∷ []) ∷ []

abbrev more_packages : Dict Text
more_packages = ("left", 50 ∷ 46 ∷ 48 ∷ []) ∷ ("right", 49 ∷ []) ∷ []
