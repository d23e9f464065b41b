-- ===== src/Access/UserPolicy.antt =====
-- domain/access/user-management-policy.ts: who may manage which user.
pub mod Laws
use lume_tenant_api.Base.{
  String, Bool, true, false, ◌&&◌, ◌||◌, Option, none, some, List, [], ◌∷◌, any, includes,
  string_eq, ◌==◌, if◌then◌else◌, Result, ok, err, ◌>>=◌, ◌>>◌, throw_if, forbidden,
}

pub record UserManagementIdentity : Type 0 where
  pub id : String
  pub is_administrator : Bool
  pub departments : List String
  pub permission_codes : Option (List String)

pub data UserManagementRole : Type 0 where
  administrator information_technology people_operations delegated nobody : UserManagementRole

abbrev pub is_people_department : String → Bool
is_people_department department =
    includes ("human-resources" ∷ "personnel-department" ∷ []) department

abbrev pub is_user_permission : String → Bool
is_user_permission permission =
    includes ("users:view" ∷ "users:create" ∷ "users:update" ∷ "users:manage" ∷ []) permission

-- `actor.permissionCodes?.some(…)`.
abbrev pub has_user_permission : Option (List String) → Bool
has_user_permission none = false
has_user_permission (some codes) = any is_user_permission codes

unfoldable pub resolve_user_management_role : UserManagementIdentity → UserManagementRole
resolve_user_management_role actor =
    if actor.is_administrator
    then administrator
    else if includes actor.departments "information-technology"
    then information_technology
    else if any is_people_department actor.departments
    then people_operations
    else if has_user_permission actor.permission_codes
    then delegated
    else nobody

abbrev pub is_nobody : UserManagementRole → Bool
is_nobody nobody = true
is_nobody _ = false

abbrev pub is_restricted : UserManagementRole → Bool
is_restricted information_technology = true
is_restricted delegated = true
is_restricted _ = false

abbrev pub is_people_operations : UserManagementRole → Bool
is_people_operations people_operations = true
is_people_operations _ = false

unfoldable pub assert_can_access_user_catalog : UserManagementIdentity → Result UserManagementRole
assert_can_access_user_catalog actor = do
  throw_if (is_nobody (resolve_user_management_role actor))
      (forbidden "Você não possui permissão para acessar a administração de usuários.")
  ok (resolve_user_management_role actor)

abbrev target_refusal : Bool → String
target_refusal is_self =
    if is_self
    then "A equipe de TI não pode alterar a própria conta pela administração de usuários. Use Meu perfil para seus dados pessoais."
    else "Somente administradores podem gerenciar uma conta administradora."

unfoldable pub assert_can_access_user_target :
    UserManagementIdentity → UserManagementIdentity → Result UserManagementRole
unfolding assert_can_access_user_catalog
assert_can_access_user_target actor target = do
  role ← assert_can_access_user_catalog actor
  throw_if (is_restricted role && (target.id == actor.id || target.is_administrator))
      (forbidden (target_refusal (target.id == actor.id)))
  ok role

unfoldable pub assert_can_manage_user_target :
    UserManagementIdentity → UserManagementIdentity → Result UserManagementRole
unfolding assert_can_access_user_target
assert_can_manage_user_target actor target = do
  role ← assert_can_access_user_target actor target
  throw_if (is_people_operations role) (
      forbidden
        "RH e Departamento Pessoal podem criar o acesso documental inicial, mas não gerenciar acessos existentes.")
  ok role
