-- ===== src/Access/UserPolicy/Laws.antt =====
-- Who the policy lets manage whom.
use lume_tenant_api.Base.{true, false, ◌≡◌, ◌⊎◌, ◌↔◌, arith, eq_iff, any, includes, string_eq, ok}
use lume_tenant_api.Access.UserPolicy.{
  UserManagementIdentity, UserManagementRole, has_user_permission, is_people_department,
  resolve_user_management_role, assert_can_manage_user_target,
}

-- The hierarchy, written without the order of the code's tests.
pub record IsManager (actor target : UserManagementIdentity) : Type 0 where
  pub entitled :
      (actor.is_administrator ≡ true)
      ⊎ (includes actor.departments "information-technology" ≡ true)
      ⊎ ((any is_people_department actor.departments ≡ false)
          × (has_user_permission actor.permission_codes ≡ true))
  pub administrators_apart : target.is_administrator ≡ true → actor.is_administrator ≡ true
  pub self_apart : target.id ≡ actor.id → actor.is_administrator ≡ true

-- An actor may manage a target exactly when it is an administrator, of information technology, or,
-- outside people operations, a delegate; and only an administrator manages an administrator's
-- account or its own.
pub can_manage_iff :
    (actor target : UserManagementIdentity)
    → ((role : UserManagementRole) × (assert_can_manage_user_target actor target ≡ ok role))
      ↔ IsManager actor target
unfolding assert_can_manage_user_target resolve_user_management_role
can_manage_iff actor target = (
  λ (role, h). ground (arith, eq_iff target.id actor.id),
  λ v. (resolve_user_management_role actor, ground (arith, eq_iff target.id actor.id)),
)
