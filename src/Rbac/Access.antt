-- ===== src/Rbac/Access.antt =====
-- Who may do what after a change of the grants.
use evoclaw.Base.{ℕ, String, true, false, ◌≡◌, Option, [], ◌∷◌, arith, string_discrete, ◌∙◌}
use evoclaw.Rbac.{
  Role, admin, operator, agent, viewer, Permission, Grant, RbacStore, role_value, role_has,
  delete_row, select_roles, any_has, grant, revoke, get_roles, has_permission, invalidate_cache,
}
use evoclaw.Rbac.Rows.{
  parse_role-role_value, select_roles-snoc, any_has-append, holds, holds-delete_row,
}
use evoclaw.Rbac.Coherence.{
  Coherent, allowed, grant-Coherent, revoke-Coherent, get_roles-Answers, has_permission-Answers,
}

-- Each role has every permission of the one below it.
role_has_mono :
    (p : Permission)
    → (role_has viewer p ≡ true → role_has agent p ≡ true)
      × (role_has agent p ≡ true → role_has operator p ≡ true)
      × (role_has operator p ≡ true → role_has admin p ≡ true)
unfolding role_has
role_has_mono p = ground arith

-- In a store whose caches agree with its table: after a role is granted, its holder passes every
-- check for a permission of that role.
pub has_permission-grant :
    (s : RbacStore) (j : String) (r : Role) (by : Option String) (at : ℕ) (p : Permission)
    (now later : ℕ)
    → Coherent s
    → role_has r p ≡ true
    → (has_permission (grant s j r by at) j p now later).1 ≡ true
unfolding allowed any_has grant invalidate_cache
has_permission-grant s j r by at p now later c has =
    (has_permission-Answers _ j p now later (grant-Coherent s j r by at c)).0 ∙ granted
  where
    granted : allowed (grant s j r by at).grants j p ≡ true
    granted =
        let others = delete_row j (role_value r) s.grants in
        let row : Grant = record {
          subject_id = j;
          role = role_value r;
          granted_by = by;
          granted_at = at;
        } in
        ground (
          arith,
          has,
          select_roles-snoc j row r others (parse_role-role_value r),
          any_has-append (select_roles j others) (r ∷ []) p,
          string_discrete j j,
        )

-- In a store whose caches agree with its table: after a role is revoked, it is not among the roles
-- that a lookup of the subject returns.
get_roles-revoke :
    (s : RbacStore) (j : String) (r : Role) (now : ℕ)
    → Coherent s
    → holds r (get_roles (revoke s j r) j now).1 ≡ false
unfolding revoke invalidate_cache
get_roles-revoke s j r now c =
    rw ((get_roles-Answers (revoke s j r) j now (revoke-Coherent s j r c)).0)
      (holds-delete_row j r s.grants)
