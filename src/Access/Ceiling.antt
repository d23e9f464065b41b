-- ===== src/Access/Ceiling.antt =====
-- The ceiling of a user's permissions: the union of what its departments may hold.
use lume_tenant_api.Base.{
  String, Bool, true, false, ◌&&◌, ◌||◌, List, [], ◌∷◌, ◌≡◌, refl, sym, ap, ◌∙◌, inl, inr, arith,
  filter, includes, any, every, string_eq, Bool-cases,
}
use lume_tenant_api.Base.Sets.{
  add_all, distinct, includes-add_all, includes-distinct, includes-sort_texts, includes-filter,
  every-includes, any-includes,
}
use lume_tenant_api.Access.Departments.{department_eq, SupportedUserDepartment, supported_eq}
use lume_tenant_api.Access.Permissions.{
  employee_self_service_permissions, default_department_permissions,
}
use lume_tenant_api.Access.Resolve.{
  add_departments, allowed_permissions_for_departments, filter_permission_codes_for_departments,
  DocumentAccessMode, standard, document_portal, client, document_portal_permissions,
  information_technology_permissions, collected_permissions, resolve_effective_permissions,
}

-- Some department of the list may hold the permission.
abbrev pub held_by : String → List SupportedUserDepartment → Bool
held_by p departments = any (λ d. includes (default_department_permissions d) p) departments

includes-add_departments :
    (allowed : List String) (ds : List SupportedUserDepartment) (p : String)
    → includes (add_departments allowed ds) p ≡ (includes allowed p || held_by p ds)
unfolding add_departments
includes-add_departments allowed [] p = ground arith
includes-add_departments allowed (d ∷ ds) p = ground (
  arith,
  includes-add_departments (add_all allowed (default_department_permissions d)) ds p,
  includes-add_all allowed (default_department_permissions d) p,
)

-- A permission is allowed for departments exactly when every employee has it or one of the
-- departments may hold it.
pub includes-allowed :
    (ds : List SupportedUserDepartment) (p : String)
    → includes (allowed_permissions_for_departments ds) p
      ≡ (includes employee_self_service_permissions p || held_by p ds)
unfolding allowed_permissions_for_departments
includes-allowed ds p =
    includes-sort_texts (add_departments (distinct employee_self_service_permissions) ds) p
    ∙ includes-add_departments (distinct employee_self_service_permissions) ds p
    ∙ ap (λ b. b || held_by p ds) (includes-distinct employee_self_service_permissions p)

includes-filter_permission_codes :
    (ds : List SupportedUserDepartment) (codes : List String) (p : String)
    → includes (filter_permission_codes_for_departments ds codes) p
      ≡ (includes codes p && includes (allowed_permissions_for_departments ds) p)
unfolding filter_permission_codes_for_departments
includes-filter_permission_codes ds codes p =
    let kept = filter (λ (c : String). includes (allowed_permissions_for_departments ds) c) codes in
    includes-sort_texts (distinct kept) p
    ∙ includes-distinct kept p
    ∙ includes-filter (λ c. includes (allowed_permissions_for_departments ds) c) codes p

includes-collected :
    (ds : List SupportedUserDepartment) (individual : List String) (p : String)
    → includes (collected_permissions ds individual) p ≡ (
        (includes employee_self_service_permissions p
          || (includes ds SupportedUserDepartment.information_technology
              && includes information_technology_permissions p))
        || (includes individual p && includes (allowed_permissions_for_departments ds) p))
unfolding collected_permissions
includes-collected ds individual p =
    let own = distinct employee_self_service_permissions in
    let extra = filter_permission_codes_for_departments ds individual in
    let technical = add_all own information_technology_permissions in
    elim (Bool-cases (includes ds SupportedUserDepartment.information_technology)) [
      | inl it ↦ rw it (
          ground (
            arith,
            includes-add_all technical extra p,
            includes-add_all own information_technology_permissions p,
            includes-distinct employee_self_service_permissions p,
            includes-filter_permission_codes ds individual p,
          ))
      | inr no_it ↦ rw no_it (
          ground (
            arith,
            includes-add_all own extra p,
            includes-distinct employee_self_service_permissions p,
            includes-filter_permission_codes ds individual p,
          ))
    ]

-- Which permissions an employee or a client has in effect: those of every employee, those to read
-- and edit users that information technology brings, and the individual ones that the ceiling of
-- the departments lets through.
pub includes-resolve_effective :
    (ds : List SupportedUserDepartment) (individual : List String) (p : String)
    → (includes (resolve_effective_permissions ds individual false standard) p ≡ (
        (includes employee_self_service_permissions p
          || (includes ds SupportedUserDepartment.information_technology
              && includes information_technology_permissions p))
        || (includes individual p && includes (allowed_permissions_for_departments ds) p)))
      × (resolve_effective_permissions ds individual false client
          ≡ resolve_effective_permissions ds individual false standard)
unfolding resolve_effective_permissions
includes-resolve_effective ds individual p = (
  includes-sort_texts (collected_permissions ds individual) p ∙ includes-collected ds individual p,
  refl,
)

-- Information technology may hold the permissions that it brings.
technical_allowed :
    (ds : List SupportedUserDepartment) (p : String)
    → includes ds SupportedUserDepartment.information_technology ≡ true
    → includes information_technology_permissions p ≡ true
    → held_by p ds ≡ true
technical_allowed ds p it h =
    any-includes (λ d. includes (default_department_permissions d) p) ds
      SupportedUserDepartment.information_technology it
      (every-includes
        (includes (default_department_permissions SupportedUserDepartment.information_technology))
        information_technology_permissions p technical_table h)
  where
    technical_table :
        every
          (includes (default_department_permissions SupportedUserDepartment.information_technology))
          information_technology_permissions
        ≡ true
    technical_table =
        unfold default_department_permissions information_technology_permissions in refl

portal_allowed :
    (p : String)
    → includes document_portal_permissions p ≡ true
    → includes employee_self_service_permissions p ≡ true
unfolding document_portal_permissions employee_self_service_permissions
portal_allowed p h =
    every-includes (includes employee_self_service_permissions) document_portal_permissions p refl h

standard_within :
    (ds : List SupportedUserDepartment) (individual : List String) (p : String)
    → ((includes employee_self_service_permissions p
          || (includes ds SupportedUserDepartment.information_technology
              && includes information_technology_permissions p))
        || (includes individual p && includes (allowed_permissions_for_departments ds) p))
      ≡ true
    → includes (allowed_permissions_for_departments ds) p ≡ true
standard_within ds individual p h = ground (arith, includes-allowed ds p, technical_allowed ds p)

-- The effective permissions of a user who is no administrator never pass the ceiling of the union
-- of its departments, whatever individual permissions it was given and in whatever access mode.
pub effective_within_ceiling :
    (ds : List SupportedUserDepartment) (individual : List String) (mode : DocumentAccessMode)
    (p : String)
    → includes (resolve_effective_permissions ds individual false mode) p ≡ true
    → includes (allowed_permissions_for_departments ds) p ≡ true
unfolding resolve_effective_permissions
effective_within_ceiling ds individual document_portal p h =
    rw (includes-allowed ds p, portal_allowed p h)
effective_within_ceiling ds individual standard p h =
    standard_within ds individual p (sym (includes-resolve_effective ds individual p).0 ∙ h)
effective_within_ceiling ds individual client p h =
    standard_within ds individual p (sym (includes-resolve_effective ds individual p).0 ∙ h)
