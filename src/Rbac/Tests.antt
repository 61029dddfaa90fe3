-- ===== src/Rbac/Tests.antt =====
-- Runs of the store on concrete calls.
use evoclaw.Base.{◌≡◌, refl, List, [], ◌∷◌, none, true, false, arith, string_discrete}
use evoclaw.Base.Dict.{get, set, remove}
use evoclaw.Rbac.{
  agent, viewer, task_submit, agent_kill, RbacStore, init, role_value, parse_role, role_has,
  has_key, delete_row, select_roles, any_has, no_rows, invalidate_cache, grant, revoke,
  get_cached_roles, oldest_key, evict, set_cached_roles, get_roles, is_empty, has_permission,
}
use evoclaw.Rbac.Rows.{holds}
use evoclaw.Rbac.Coherence.{grants, revokes, asks, Op, run, run_table, run-init, init-Coherent}
use evoclaw.Rbac.Access.{has_permission-grant}
use evoclaw.Rbac.Race.{revoke_raced}

program : Unit {0}
unfolding get set remove string_discrete role_value parse_role role_has has_key delete_row
    select_roles any_has no_rows invalidate_cache grant revoke get_cached_roles oldest_key evict
    set_cached_roles get_roles is_empty has_permission run holds
program = tt

abbrev calls : List Op
calls =
    asks "bob" agent_kill 0 0
    ∷ grants "bob" agent none 1
    ∷ asks "bob" task_submit 2 2
    ∷ asks "bob" agent_kill 3 3
    ∷ revokes "bob" agent
    ∷ grants "eve" viewer none 4
    ∷ asks "bob" task_submit 5 5
    ∷ []

-- An unconfigured store allows everything; then the roles decide.
calls_answers : run init calls ≡ true ∷ true ∷ false ∷ false ∷ []
unfolding program
calls_answers = refl

run-init_example : run init calls ≡ run_table [] calls
run-init_example = run-init calls

abbrev with_bob : RbacStore
with_bob = grant init "bob" agent none 1

has_permission-grant_example : (has_permission with_bob "bob" task_submit 2 2).1 ≡ true
unfolding program
has_permission-grant_example =
    has_permission-grant init "bob" agent none 1 task_submit 2 2 init-Coherent refl

revoke_raced_example :
    let raced =
      set_cached_roles
        (revoke with_bob "bob" agent)
        "bob"
        (select_roles "bob" with_bob.grants)
        10 in
    (holds agent (get_roles raced "bob" 20).1 ≡ true)
    × (holds agent (select_roles "bob" raced.grants) ≡ false)
unfolding program
revoke_raced_example = revoke_raced with_bob "bob" agent 10 20 refl (omega arith)
