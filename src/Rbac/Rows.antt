-- ===== src/Rbac/Rows.antt =====
-- Which rows the two statements of the store leave, as its queries see them.
use evoclaw.Base.{
  String, Bool, true, false, ◌≡◌, refl, ◌≢◌, ◌||◌, some, List, [], ◌∷◌, ◌++◌, ite, arith,
  string_discrete,
}
use evoclaw.Rbac.{
  Role, admin, operator, agent, viewer, Permission, Grant, role_value, parse_role, role_has,
  has_key, delete_row, select_roles, any_has,
}

pub parse_role-role_value : (r : Role) → parse_role (role_value r) ≡ some r
unfolding parse_role role_value string_discrete
parse_role-role_value admin = refl
parse_role-role_value operator = refl
parse_role-role_value agent = refl
parse_role-role_value viewer = refl

pub role_value_inj : (r s : Role) → role_value r ≡ role_value s → r ≡ s
role_value_inj r s e = cc (parse_role-role_value r, parse_role-role_value s)

-- A statement about one subject is not seen by the queries of another.
pub select_roles-delete_row_ne :
    (k j role : String) (gs : List Grant)
    → j ≢ k
    → select_roles k (delete_row j role gs) ≡ select_roles k gs
unfolding select_roles delete_row has_key
select_roles-delete_row_ne k j role [] h = refl
select_roles-delete_row_ne k j role (g ∷ gs) h =
    ground (arith, select_roles-delete_row_ne k j role gs h)

-- The row that a grant adds, for its own subject and for others.
pub select_roles-snoc :
    (k : String) (g : Grant) (r : Role) (gs : List Grant)
    → parse_role g.role ≡ some r
    → select_roles k (gs ++ g ∷ [])
      ≡ ite (string_discrete g.subject_id k) (select_roles k gs ++ r ∷ []) (select_roles k gs)
unfolding select_roles
select_roles-snoc k g r [] h = ground arith
select_roles-snoc k g r (x ∷ gs) h = ground (arith, select_roles-snoc k g r gs h)

pub any_has-append :
    (rs ss : List Role) (p : Permission) → any_has (rs ++ ss) p ≡ (any_has rs p || any_has ss p)
unfolding any_has
any_has-append [] ss p = refl
any_has-append (r ∷ rs) ss p = ground (arith, any_has-append rs ss p)

-- Only a role's own value is read as the role.
pub parse_role_inv : (t : String) (r : Role) → parse_role t ≡ some r → t ≡ role_value r
unfolding parse_role role_value
parse_role_inv t admin h = ground arith
parse_role_inv t operator h = ground arith
parse_role_inv t agent h = ground arith
parse_role_inv t viewer h = ground arith

Role-discrete : Discrete Role
Role-discrete = hlevel

-- The role is among those of a subject.
unfoldable pub holds : Role → List Role → Bool
unfolding Role-discrete
holds r [] = false
holds r (x ∷ xs) = ite (Role-discrete x r) true (holds r xs)

-- No row of the primary key is left.
pub holds-delete_row :
    (k : String) (r : Role) (gs : List Grant)
    → holds r (select_roles k (delete_row k (role_value r) gs)) ≡ false
unfolding holds select_roles delete_row has_key
holds-delete_row k r [] = refl
holds-delete_row k r (g ∷ gs) = ground (arith, holds-delete_row k r gs, parse_role_inv g.role r)

pub any_has_of_holds :
    (r : Role) (rs : List Role) (p : Permission)
    → holds r rs ≡ true
    → role_has r p ≡ true
    → any_has rs p ≡ true
unfolding holds any_has
any_has_of_holds r [] p h has = cc
any_has_of_holds r (x ∷ xs) p h has = ground (arith, any_has_of_holds r xs p)
