-- ===== src/Access/Tests.antt =====
-- Permissions and the user policy at concrete users.
use lume_tenant_api.Base.{
  String, true, false, ◌&&◌, ◌||◌, ◌≡◌, ◌↔◌, refl, none, List, [], ◌∷◌, includes, string_eq, ok,
}
use lume_tenant_api.Base.Sets.{sort_texts, distinct, add_all}
use lume_tenant_api.Access.Departments.{department_eq, SupportedUserDepartment, supported_eq}
use lume_tenant_api.Access.Permissions.{
  all_permission_codes, default_department_permissions, employee_self_service_permissions,
}
use lume_tenant_api.Access.Resolve.{
  client, allowed_permissions_for_departments, filter_permission_codes_for_departments,
  collected_permissions, information_technology_permissions, resolve_effective_permissions,
  standard,
}
use lume_tenant_api.Access.Ceiling.{effective_within_ceiling, includes-resolve_effective}
use lume_tenant_api.Access.UserPolicy.{
  UserManagementIdentity, UserManagementRole, assert_can_manage_user_target,
}
use lume_tenant_api.Access.UserPolicy.Laws.{IsManager, can_manage_iff}

open_access : Unit {0}
unfolding resolve_effective_permissions collected_permissions
    filter_permission_codes_for_departments allowed_permissions_for_departments sort_texts distinct
    add_all default_department_permissions employee_self_service_permissions
    information_technology_permissions all_permission_codes
open_access = tt

abbrev cleaners : List SupportedUserDepartment
cleaners = SupportedUserDepartment.cleaning ∷ []

effective_within_ceiling_example :
    includes (allowed_permissions_for_departments cleaners) "cleaning:update" ≡ true
unfolding open_access
effective_within_ceiling_example =
    effective_within_ceiling cleaners ("cleaning:update" ∷ "users:view" ∷ []) standard
      "cleaning:update" refl

includes-resolve_effective_example :
    (includes
        (resolve_effective_permissions cleaners ("users:view" ∷ []) false standard)
        "users:view"
      ≡ ((includes employee_self_service_permissions "users:view"
            || (includes cleaners SupportedUserDepartment.information_technology
                && includes information_technology_permissions "users:view"))
          || (includes {A = String} ("users:view" ∷ []) "users:view"
              && includes (allowed_permissions_for_departments cleaners) "users:view")))
    × (resolve_effective_permissions cleaners ("users:view" ∷ []) false client
        ≡ resolve_effective_permissions cleaners ("users:view" ∷ []) false standard)
includes-resolve_effective_example =
    includes-resolve_effective cleaners ("users:view" ∷ []) "users:view"

abbrev technician : UserManagementIdentity
technician = record {
  id = "u1";
  is_administrator = false;
  departments = "information-technology" ∷ [];
  permission_codes = none;
}

can_manage_iff_example :
    ((role : UserManagementRole) × (assert_can_manage_user_target technician
          (record technician { id = "u2" })
        ≡ ok role))
    ↔ IsManager technician (record technician { id = "u2" })
can_manage_iff_example = can_manage_iff technician (record technician { id = "u2" })
