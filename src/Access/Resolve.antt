-- ===== src/Access/Resolve.antt =====
-- domain/access/resolve-permissions.ts and the functions of access.constants.ts that it uses: which
-- permissions a user has in effect.
use lume_tenant_api.Base.{
  String, Bool, true, false, List, [], ◌∷◌, filter, includes, string_eq, if◌then◌else◌,
}
use lume_tenant_api.Base.Sets.{add_all, distinct, sort_texts}
use lume_tenant_api.Access.Departments.{
  Department, SupportedUserDepartment, supported_eq, all_departments, as_supported,
}
use lume_tenant_api.Access.Permissions.{
  employee_self_service_permissions, default_department_permissions, all_permission_codes,
}

-- The loop over the departments of `allowedPermissionsForDepartments`.
unfoldable pub add_departments : List String → List SupportedUserDepartment → List String
add_departments allowed [] = allowed
add_departments allowed (department ∷ rest) =
    add_departments (add_all allowed (default_department_permissions department)) rest

unfoldable pub allowed_permissions_for_departments : List SupportedUserDepartment → List String
unfolding add_departments
allowed_permissions_for_departments departments =
    sort_texts (add_departments (distinct employee_self_service_permissions) departments)

unfoldable pub is_implicit_permission_code : String → Bool
is_implicit_permission_code permission = includes employee_self_service_permissions permission

unfoldable pub departments_allowing_permission : String → List Department
unfolding is_implicit_permission_code
departments_allowing_permission permission =
    if is_implicit_permission_code permission
    then all_departments
    else filter
        (λ department.
          includes (default_department_permissions (as_supported department)) permission)
        all_departments

unfoldable pub filter_permission_codes_for_departments :
    List SupportedUserDepartment → List String → List String
filter_permission_codes_for_departments departments permission_codes = sort_texts (
    distinct (
      filter (λ permission. includes (allowed_permissions_for_departments departments) permission)
        permission_codes))

pub data DocumentAccessMode : Type 0 where
  standard document_portal client : DocumentAccessMode

unfoldable pub document_portal_permissions : List String
document_portal_permissions =
    "documents:view" ∷ "documents:create" ∷ "documents:update" ∷ "profile:view" ∷ "profile:update"
    ∷ "support:view" ∷ "support:create" ∷ []

unfoldable pub information_technology_permissions : List String
information_technology_permissions =
    "users:view" ∷ "users:create" ∷ "users:update" ∷ "users:manage" ∷ []

-- The set that `resolveEffectivePermissions` collects for an employee or a client.
unfoldable pub collected_permissions : List SupportedUserDepartment → List String → List String
collected_permissions departments individual_permissions =
    let own = distinct employee_self_service_permissions in
    let technical = add_all own information_technology_permissions in
    add_all
      (if includes departments SupportedUserDepartment.information_technology
        then technical
        else own)
      (filter_permission_codes_for_departments departments individual_permissions)

unfoldable pub resolve_effective_permissions :
    List SupportedUserDepartment → List String → Bool → DocumentAccessMode → List String
unfolding collected_permissions
resolve_effective_permissions departments individual true mode = all_permission_codes
resolve_effective_permissions departments individual false document_portal =
    document_portal_permissions
resolve_effective_permissions departments individual false standard =
    sort_texts (collected_permissions departments individual)
resolve_effective_permissions departments individual false client =
    sort_texts (collected_permissions departments individual)
