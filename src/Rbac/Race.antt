-- ===== src/Rbac/Race.antt =====
-- `get_roles` and `_is_empty` read the table under one lock and write the cache under another. What
-- another thread does in between is not seen: its invalidation comes before the stale write.
use evoclaw.Base.{
  ℕ, ◌+◌, ◌<◌, String, true, false, ◌≡◌, refl, Option, some, List, [], ◌∷◌, ◌++◌, arith,
  string_discrete, lt→ltb,
}
use evoclaw.Base.Dict.{get-set}
use evoclaw.Rbac.{
  Role, Permission, Grant, RbacStore, role_value, select_roles, revoke, grant, set_cached_roles,
  get_cached_roles, get_roles, is_empty, has_permission, no_rows, evict, cache_ttl,
  invalidate_cache, delete_row,
}
use evoclaw.Rbac.Rows.{holds, holds-delete_row}

-- The thread of `get_roles` has read the rows, the role is revoked, and the read is cached: for the
-- time to live of the cache the subject keeps a role that the table does not have.
pub revoke_raced :
    (s : RbacStore) (j : String) (r : Role) (now later : ℕ)
    → holds r (select_roles j s.grants) ≡ true
    → later < now + cache_ttl
    → let raced = set_cached_roles (revoke s j r) j (select_roles j s.grants) now in
      (holds r (get_roles raced j later).1 ≡ true) × (holds r (select_roles j raced.grants) ≡ false)
unfolding get_roles get_cached_roles set_cached_roles revoke invalidate_cache
revoke_raced s j r now later had soon =
    let raced = set_cached_roles (revoke s j r) j (select_roles j s.grants) now in
    (
      ground (
        arith,
        had,
        lt→ltb later (now + cache_ttl) soon,
        get-set j j (select_roles j s.grants, now) (evict (revoke s j r).role_cache),
        string_discrete j j,
      ),
      holds-delete_row j r s.grants,
    )

no_rows-snoc : (gs : List Grant) (g : Grant) → no_rows (gs ++ g ∷ []) ≡ false
unfolding no_rows
no_rows-snoc [] g = refl
no_rows-snoc (x ∷ gs) g = refl

-- `_is_empty` has counted no row, the first role is granted, and the count is cached: for the time
-- to live of the cache every subject passes every check, though the table has a row.
grant_raced :
    (s : RbacStore) (j k : String) (r : Role) (by : Option String) (p : Permission)
    (at now later last : ℕ)
    → later < now + cache_ttl
    → let raced = record (grant s j r by at) { empty_cache = some (true, now) } in
      ((has_permission raced k p later last).1 ≡ true) × (no_rows raced.grants ≡ false)
unfolding has_permission is_empty grant invalidate_cache no_rows
grant_raced s j k r by p at now later last soon =
    let others = delete_row j (role_value r) s.grants in
    (ground (arith, lt→ltb later (now + cache_ttl) soon), no_rows-snoc others _)
