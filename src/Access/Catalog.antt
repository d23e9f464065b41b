-- ===== src/Access/Catalog.antt =====
-- The catalogue of permissions, the departments that may hold one, and the spelling of a department.
use lume_tenant_api.Base.{
  String, Bool, true, false, List, [], ◌∷◌, map, ◌≡◌, refl, inl, inr, arith, includes, any, every,
  string_eq, Bool-cases,
}
use lume_tenant_api.Base.Sets.{includes-filter, every-includes, any_elim, any-distinct}
use lume_tenant_api.Access.Departments.{
  Department, department_eq, SupportedUserDepartment, supported_eq, all_departments, as_supported,
  normalize_user_department, normalize_user_departments,
}
use lume_tenant_api.Access.Permissions.{
  employee_self_service_permissions, management_department_permissions,
  default_department_permissions, all_permission_codes,
}
use lume_tenant_api.Access.Resolve.{
  allowed_permissions_for_departments, departments_allowing_permission, DocumentAccessMode,
  resolve_effective_permissions, is_implicit_permission_code,
}
use lume_tenant_api.Access.Ceiling.{held_by, includes-allowed, effective_within_ceiling}

defaults_table :
    (d : SupportedUserDepartment)
    → every (includes all_permission_codes) (default_department_permissions d) ≡ true
unfolding all_permission_codes default_department_permissions management_department_permissions
defaults_table SupportedUserDepartment.cleaning = refl
defaults_table _ = refl

employee_table : every (includes all_permission_codes) employee_self_service_permissions ≡ true
unfolding all_permission_codes employee_self_service_permissions
employee_table = refl

allowed_in_catalog :
    (ds : List SupportedUserDepartment) (p : String)
    → includes (allowed_permissions_for_departments ds) p ≡ true
    → includes all_permission_codes p ≡ true
allowed_in_catalog ds p h = elim (Bool-cases (includes employee_self_service_permissions p)) [
  | inl own ↦
      every-includes (includes all_permission_codes) employee_self_service_permissions p
        employee_table own
  | inr other ↦
      let (d, _, holds) =
        any_elim (λ d. includes (default_department_permissions d) p) ds
          (ground (arith, includes-allowed ds p)) in
      every-includes (includes all_permission_codes) (default_department_permissions d) p
        (defaults_table d) holds
]

-- Every effective permission is a code of the catalogue, for an administrator and for anyone else,
-- even if the individual permissions hold texts that are no codes.
pub effective_in_catalog :
    (ds : List SupportedUserDepartment) (individual : List String) (administrator : Bool)
    (mode : DocumentAccessMode) (p : String)
    → includes (resolve_effective_permissions ds individual administrator mode) p ≡ true
    → includes all_permission_codes p ≡ true
effective_in_catalog ds individual true mode p h = unfold resolve_effective_permissions in h
effective_in_catalog ds individual false mode p h =
    allowed_in_catalog ds p (effective_within_ceiling ds individual mode p h)

all_departments-includes : (d : Department) → includes all_departments d ≡ true
all_departments-includes Department.cleaning = refl
all_departments-includes _ = refl

-- The departments listed for a permission are exactly those whose own ceiling has it: the search
-- by permission and the ceiling by department agree.
departments_allowing-allowed :
    (p : String) (d : Department)
    → includes (departments_allowing_permission p) d
      ≡ includes (allowed_permissions_for_departments (as_supported d ∷ [])) p
unfolding departments_allowing_permission is_implicit_permission_code
departments_allowing-allowed p d =
    let holds : Department → Bool =
      λ c. includes (default_department_permissions (as_supported c)) p in
    ground (
      arith,
      includes-allowed (as_supported d ∷ []) p,
      all_departments-includes d,
      includes-filter holds all_departments d,
    )

normalized_permissions :
    (d : SupportedUserDepartment)
    → default_department_permissions (as_supported (normalize_user_department d))
      ≡ default_department_permissions d
unfolding default_department_permissions as_supported normalize_user_department
normalized_permissions SupportedUserDepartment.controllership = refl
normalized_permissions _ = refl

-- `held_by` over departments under their stored names.
stored_held : String → Department → Bool
stored_held p d = includes (default_department_permissions (as_supported d)) p

held_by-map :
    (p : String) (ds : List Department) → held_by p (map as_supported ds) ≡ any (stored_held p) ds
unfolding stored_held
held_by-map p [] = refl
held_by-map p (d ∷ ds) = ground (arith, held_by-map p ds)

any-normalized :
    (p : String) (ds : List SupportedUserDepartment)
    → any (stored_held p) (map normalize_user_department ds) ≡ held_by p ds
unfolding stored_held
any-normalized p [] = refl
any-normalized p (d ∷ ds) = rw (normalized_permissions d, any-normalized p ds)

-- The ceiling does not depend on the spelling in which departments were given, nor on repetition:
-- the departments that are stored allow exactly what those of the form allow.
pub normalize-allowed :
    (ds : List SupportedUserDepartment) (p : String)
    → includes
        (allowed_permissions_for_departments (map as_supported (normalize_user_departments ds)))
        p
      ≡ includes (allowed_permissions_for_departments ds) p
unfolding normalize_user_departments
normalize-allowed ds p =
    let stored = normalize_user_departments ds in
    ground (
      arith,
      includes-allowed (map as_supported stored) p,
      includes-allowed ds p,
      held_by-map p stored,
      any-distinct (stored_held p) (map normalize_user_department ds),
      any-normalized p ds,
    )
