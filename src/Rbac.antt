-- ===== src/Rbac.antt =====
-- host/rbac/roles.py: roles and permissions, the SQLite-backed store of grants, and its two caches.
-- The table `rbac_grants` is a list of rows with the primary key (subject_id, role); a failing
-- statement is not modelled. A method returns the store beside its result; the clock, in the unit of
-- the cache's time to live, is an argument.
pub mod Rows
pub mod Coherence
pub mod Access
pub mod Race
mod Tests
use evoclaw.Base.{
  ℕ, suc, ◌+◌, String, Bool, true, false, Option, none, some, List, [], ◌∷◌, ◌++◌, ite, ltb, leb,
  ◌||◌, if◌then◌else◌, length, string_discrete,
}
use evoclaw.Base.Dict.{Dict, get, set, remove}

pub data Permission : Type 0 where
  memory_read memory_write memory_delete : Permission
  agent_spawn agent_kill agent_list : Permission
  task_submit task_cancel : Permission
  registry_read registry_write : Permission
  rbac_grant rbac_revoke : Permission

pub data Role : Type 0 where
  admin operator agent viewer : Role

-- The `value` of a role, as it is stored.
unfoldable pub role_value : Role → String
role_value admin = "admin"
role_value operator = "operator"
role_value agent = "agent"
role_value viewer = "viewer"

-- `Role(text)`; `none` is the ValueError.
unfoldable pub parse_role : String → Option Role
parse_role text = ite (string_discrete text "admin") (some admin) (
    ite (string_discrete text "operator") (some operator) (
      ite (string_discrete text "agent") (some agent)
        (ite (string_discrete text "viewer") (some viewer) none)))

-- `permission in ROLE_PERMISSIONS[role]`
unfoldable pub role_has : Role → Permission → Bool
role_has admin p = true
role_has operator memory_read = true
role_has operator memory_write = true
role_has operator agent_spawn = true
role_has operator agent_kill = true
role_has operator agent_list = true
role_has operator task_submit = true
role_has operator task_cancel = true
role_has operator registry_read = true
role_has operator _ = false
role_has agent memory_read = true
role_has agent memory_write = true
role_has agent agent_list = true
role_has agent task_submit = true
role_has agent registry_read = true
role_has agent _ = false
role_has viewer memory_read = true
role_has viewer agent_list = true
role_has viewer registry_read = true
role_has viewer _ = false

pub record Grant : Type 0 where
  pub subject_id : String
  pub role : String
  pub granted_by : Option String
  pub granted_at : ℕ

abbrev pub cache_ttl : ℕ
cache_ttl = 60

abbrev pub cache_maxsize : ℕ
cache_maxsize = 512

pub record RbacStore : Type 0 where
  pub grants : List Grant
  pub role_cache : Dict (List Role × ℕ)
  pub empty_cache : Option (Bool × ℕ)

abbrev pub init : RbacStore
init = record { grants = []; role_cache = []; empty_cache = none }

-- The row has this primary key.
unfoldable pub has_key : String → String → Grant → Bool
has_key subject_id role g =
    ite (string_discrete g.subject_id subject_id) (ite (string_discrete g.role role) true false)
      false

-- `DELETE FROM rbac_grants WHERE subject_id=? AND role=?`
unfoldable pub delete_row : String → String → List Grant → List Grant
delete_row subject_id role [] = []
delete_row subject_id role (g ∷ gs) =
    let rest = delete_row subject_id role gs in if has_key subject_id role g then rest else g ∷ rest

-- The roles of the rows of a subject, without the unknown ones.
unfoldable pub select_roles : String → List Grant → List Role
select_roles subject_id [] = []
select_roles subject_id (g ∷ gs) =
    let rest = select_roles subject_id gs in
    ite (string_discrete g.subject_id subject_id)
      (elim (parse_role g.role) [ none ↦ rest | some r ↦ r ∷ rest ]) rest

unfoldable pub any_has : List Role → Permission → Bool
any_has [] p = false
any_has (r ∷ rs) p = role_has r p || any_has rs p

unfoldable pub invalidate_cache : RbacStore → String → RbacStore
invalidate_cache s subject_id = record s {
  role_cache = remove subject_id s.role_cache;
  empty_cache = none;
}

unfoldable pub grant : RbacStore → String → Role → Option String → ℕ → RbacStore
grant s subject_id role by now =
    invalidate_cache
      (record s {
        grants =
            delete_row subject_id (role_value role) s.grants
            ++ record {
              subject_id = subject_id;
              role = role_value role;
              granted_by = by;
              granted_at = now;
            }
              ∷ [];
      })
      subject_id

unfoldable pub revoke : RbacStore → String → Role → RbacStore
revoke s subject_id role =
    invalidate_cache (record s { grants = delete_row subject_id (role_value role) s.grants })
      subject_id

-- `_get_cached_roles`: an expired entry is dropped.
unfoldable pub get_cached_roles : RbacStore → String → ℕ → RbacStore × Option (List Role)
get_cached_roles s subject_id now = elim (get subject_id s.role_cache) [
  | none ↦ (s, none)
  | some (roles, fetched_at) ↦
      if ltb now (fetched_at + cache_ttl)
      then (s, some roles)
      else (record s { role_cache = remove subject_id s.role_cache }, none)
]

-- `min(cache, key=fetched_at)`: the first of the oldest entries.
unfoldable pub oldest_key : Dict (List Role × ℕ) → Option (String × ℕ)
oldest_key [] = none
oldest_key ((k, (_, at)) ∷ d) = elim (oldest_key d) [
  | none ↦ some (k, at)
  | some (j, t) ↦ if leb at t then some (k, at) else some (j, t)
]

unfoldable pub evict : Dict (List Role × ℕ) → Dict (List Role × ℕ)
evict d =
    if leb cache_maxsize (length d)
    then elim (oldest_key d) [ none ↦ d | some (k, _) ↦ remove k d ]
    else d

unfoldable pub set_cached_roles : RbacStore → String → List Role → ℕ → RbacStore
set_cached_roles s subject_id roles now = record s {
  role_cache = set subject_id (roles, now) (evict s.role_cache);
}

unfoldable pub get_roles : RbacStore → String → ℕ → RbacStore × List Role
get_roles s subject_id now =
    let (s', cached) = get_cached_roles s subject_id now in
    elim cached [
      | some roles ↦ (s', roles)
      | none ↦
          let roles = select_roles subject_id s'.grants in
          (set_cached_roles s' subject_id roles now, roles)
    ]

unfoldable pub no_rows : List Grant → Bool
no_rows [] = true
no_rows (g ∷ gs) = false

-- `_is_empty`
unfoldable pub is_empty : RbacStore → ℕ → RbacStore × Bool
is_empty s now =
    let fresh : RbacStore × Bool =
      (record s { empty_cache = some (no_rows s.grants, now) }, no_rows s.grants) in
    elim s.empty_cache [
      | none ↦ fresh
      | some (result, at) ↦ if ltb now (at + cache_ttl) then (s, result) else fresh
    ]

-- `has_permission`; `now` is the clock at the first of its steps, `later` at the second.
unfoldable pub has_permission : RbacStore → String → Permission → ℕ → ℕ → RbacStore × Bool
has_permission s subject_id p now later =
    let (s', empty) = is_empty s now in
    if empty
    then (s', true)
    else (let (s'', roles) = get_roles s' subject_id later in (s'', any_has roles p))

pub record RbacEntry : Type 0 where
  pub subject_id : String
  pub role : Role
  pub granted_by : Option String
  pub granted_at : ℕ

-- `list_grants`: the rows with a known role.
unfoldable pub list_grants : List Grant → List RbacEntry
list_grants [] = []
list_grants (g ∷ gs) = elim (parse_role g.role) [
  | none ↦ list_grants gs
  | some r ↦
      record {
        subject_id = g.subject_id;
        role = r;
        granted_by = g.granted_by;
        granted_at = g.granted_at;
      }
      ∷ list_grants gs
]

pub data Verdict : Type 0 where
  granted permission_error : Verdict

-- `require_permission`
unfoldable pub require_permission : RbacStore → String → Permission → ℕ → ℕ → RbacStore × Verdict
require_permission s subject_id p now later =
    let (s', ok) = has_permission s subject_id p now later in
    (s', if ok then granted else permission_error)
