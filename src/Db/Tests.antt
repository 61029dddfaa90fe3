-- ===== src/Db/Tests.antt =====
-- Two groups, of which the second becomes the main one.
use evoclaw.Base.{◌≡◌, refl, String, Bool, true, false, none, List, [], ◌∷◌, string_discrete}
use evoclaw.Base.Dict.{get, set}
use evoclaw.Db.{Group, empty, demote_others, folder_taken, keep_added, set_registered_group}
use evoclaw.Db.Groups.{IsRegistry, register_all, register_all-empty}

program : Unit {0}
unfolding string_discrete get set demote_others folder_taken keep_added set_registered_group
    register_all
program = tt

abbrev group : String → String → Bool → Group
group jid folder main = record {
  jid = jid;
  name = jid;
  folder = folder;
  trigger_pattern = none;
  added_at = 7;
  container_config = none;
  requires_trigger = true;
  is_main = main;
}

abbrev groups : List Group
groups = group "a" "alpha" true ∷ group "b" "alpha" false ∷ group "b" "beta" true ∷ []

-- The second call raises: the folder is taken.
two_groups :
    (register_all (λ _. true) empty groups).registered_groups
    ≡ ("a", group "a" "alpha" false) ∷ ("b", group "b" "beta" true) ∷ []
unfolding program
two_groups = refl

register_all-empty_example :
    IsRegistry (("a", group "a" "alpha" false) ∷ ("b", group "b" "beta" true) ∷ [])
unfolding program
register_all-empty_example = register_all-empty (λ _. true) groups
