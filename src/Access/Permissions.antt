-- ===== src/Access/Permissions.antt =====
-- domain/access/access.constants.ts: the catalogue of permissions, and what each department may hold.
-- A permission code is a text, `resource:action`.
use Prim.Native.String
use lume_tenant_api.Base.{String, Bool, List, [], ◌∷◌, ◌++◌, map, includes, string_eq}
use lume_tenant_api.Access.Departments.{SupportedUserDepartment}

-- PERMISSION_RESOURCES in order, each with its entry of PERMISSION_ACTIONS_BY_RESOURCE.
abbrev pub permission_actions_by_resource : List (String × List String)
permission_actions_by_resource =
    ("dashboard", "view" ∷ [])
    ∷ ("users", "view" ∷ "create" ∷ "update" ∷ "manage" ∷ [])
    ∷ ("human-resources", "view" ∷ "create" ∷ "update" ∷ "delete" ∷ "manage" ∷ [])
    ∷ ("personnel-department", "view" ∷ "create" ∷ "update" ∷ "delete" ∷ "manage" ∷ [])
    ∷ ("commercial", "view" ∷ "create" ∷ "update" ∷ "delete" ∷ "manage" ∷ [])
    ∷ ("purchasing", "view" ∷ "create" ∷ "update" ∷ "delete" ∷ "manage" ∷ [])
    ∷ ("maintenance", "view" ∷ "create" ∷ "update" ∷ "delete" ∷ "manage" ∷ [])
    ∷ ("monitoring", "view" ∷ "create" ∷ "update" ∷ "delete" ∷ "manage" ∷ [])
    ∷ ("operations", "view" ∷ "create" ∷ "update" ∷ "delete" ∷ "manage" ∷ [])
    ∷ ("cleaning", "view" ∷ "create" ∷ "update" ∷ "delete" ∷ "manage" ∷ [])
    ∷ ("drivers", "view" ∷ "create" ∷ "update" ∷ "delete" ∷ "manage" ∷ [])
    ∷ ("financial", "view" ∷ "create" ∷ "update" ∷ "delete" ∷ "manage" ∷ "approve" ∷ "export" ∷ [])
    ∷ ("clients", "view" ∷ "create" ∷ "update" ∷ "delete" ∷ "manage" ∷ [])
    ∷ ("ai-agents", "view" ∷ "create" ∷ "update" ∷ "delete" ∷ "manage" ∷ "use" ∷ [])
    ∷ ("whatsapp-conversations", "view" ∷ "manage" ∷ [])
    ∷ ("manuals", "view" ∷ "create" ∷ "update" ∷ "delete" ∷ "manage" ∷ [])
    ∷ ("reports", "view" ∷ "create" ∷ "update" ∷ "delete" ∷ "manage" ∷ "export" ∷ [])
    ∷ ("settings", "view" ∷ "update" ∷ "manage" ∷ [])
    ∷ ("license", "view" ∷ [])
    ∷ ("profile", "view" ∷ "update" ∷ [])
    ∷ ("contracts", "view" ∷ "create" ∷ "update" ∷ "delete" ∷ "manage" ∷ [])
    ∷ ("quotes", "view" ∷ "create" ∷ "update" ∷ "delete" ∷ "manage" ∷ "approve" ∷ [])
    ∷ ("trips", "view" ∷ "create" ∷ "update" ∷ "delete" ∷ "manage" ∷ [])
    ∷ ("documents", "view" ∷ "create" ∷ "update" ∷ "delete" ∷ "manage" ∷ "approve" ∷ "export" ∷ [])
    ∷ ("invoices", "view" ∷ "create" ∷ "update" ∷ "delete" ∷ "manage" ∷ [])
    ∷ ("service-requests", "view" ∷ "create" ∷ "update" ∷ "manage" ∷ [])
    ∷ ("routing-companies", "view" ∷ "create" ∷ "update" ∷ "manage" ∷ [])
    ∷ ("routing-contracts", "view" ∷ "create" ∷ "update" ∷ "manage" ∷ "approve" ∷ "export" ∷ [])
    ∷ ("passengers", "view" ∷ "create" ∷ "update" ∷ "manage" ∷ "import" ∷ "export" ∷ [])
    ∷ (
      "routes",
      "view" ∷ "create" ∷ "update" ∷ "manage" ∷ "use" ∷ "approve" ∷ "export" ∷ "publish" ∷ [],
    )
    ∷ ("support", "view" ∷ "create" ∷ "update" ∷ "manage" ∷ [])
    ∷ []

-- What every employee may do.
unfoldable pub employee_self_service_permissions : List String
employee_self_service_permissions =
    "dashboard:view" ∷ "ai-agents:use" ∷ "profile:view" ∷ "profile:update" ∷ "support:view"
    ∷ "support:create" ∷ "documents:view" ∷ "documents:create" ∷ "documents:update" ∷ []

-- What the management may do.
unfoldable pub management_department_permissions : List String
management_department_permissions =
    "dashboard:view" ∷ "ai-agents:use" ∷ "manuals:view" ∷ "manuals:create" ∷ "manuals:update"
    ∷ "manuals:delete" ∷ "manuals:manage" ∷ "reports:view" ∷ "reports:export" ∷ "settings:view"
    ∷ "settings:update" ∷ "settings:manage" ∷ "license:view" ∷ "profile:view" ∷ "profile:update"
    ∷ "support:view" ∷ "support:create" ∷ "documents:view" ∷ "documents:create" ∷ "documents:update"
    ∷ "documents:manage" ∷ "documents:approve" ∷ "documents:export" ∷ "routing-companies:view"
    ∷ "routing-companies:create" ∷ "routing-companies:update" ∷ "routing-companies:manage"
    ∷ "routing-contracts:view" ∷ "routing-contracts:create" ∷ "routing-contracts:update"
    ∷ "routing-contracts:manage" ∷ "routing-contracts:approve" ∷ "routing-contracts:export"
    ∷ "passengers:view" ∷ "passengers:import" ∷ "passengers:export" ∷ "routes:view"
    ∷ "routes:update" ∷ "routes:approve" ∷ "routes:export" ∷ "routes:publish" ∷ []

-- The codes of one resource, then those of every resource: ALL_PERMISSION_CODES.
codes_of : String × List String → List String
codes_of (resource, actions) = map (λ action. String.◌++◌ resource (String.◌++◌ ":" action)) actions

concat_codes : List (String × List String) → List String
unfolding codes_of
concat_codes [] = []
concat_codes (entry ∷ rest) = codes_of entry ++ concat_codes rest

unfoldable pub all_permission_codes : List String
unfolding concat_codes
all_permission_codes = concat_codes permission_actions_by_resource

unfoldable pub is_permission_code : String → Bool
is_permission_code value = includes all_permission_codes value

unfoldable pub default_department_permissions : SupportedUserDepartment → List String
default_department_permissions SupportedUserDepartment.client_company =
    "dashboard:view" ∷ "routing-companies:view" ∷ "routing-contracts:view" ∷ "passengers:view"
    ∷ "passengers:create" ∷ "passengers:update" ∷ "passengers:import" ∷ "passengers:export"
    ∷ "routes:view" ∷ "support:view" ∷ "support:create" ∷ "profile:view" ∷ "profile:update" ∷ []
default_department_permissions SupportedUserDepartment.human_resources =
    "dashboard:view" ∷ "users:view" ∷ "users:create" ∷ "human-resources:view"
    ∷ "human-resources:create" ∷ "human-resources:update" ∷ "human-resources:manage"
    ∷ "manuals:view" ∷ "ai-agents:use" ∷ "reports:view" ∷ "users:view" ∷ "users:create"
    ∷ "documents:view" ∷ "documents:create" ∷ "documents:update" ∷ "documents:manage"
    ∷ "documents:approve" ∷ "documents:export" ∷ "routing-companies:view" ∷ "routing-contracts:view"
    ∷ "passengers:view" ∷ "passengers:create" ∷ "passengers:update" ∷ "passengers:import" ∷ []
default_department_permissions SupportedUserDepartment.personnel_department =
    "dashboard:view" ∷ "personnel-department:view" ∷ "personnel-department:create"
    ∷ "personnel-department:update" ∷ "personnel-department:manage" ∷ "manuals:view"
    ∷ "reports:view" ∷ "reports:export" ∷ "users:view" ∷ "users:create" ∷ "documents:view"
    ∷ "documents:create" ∷ "documents:update" ∷ "documents:manage" ∷ "documents:approve"
    ∷ "documents:export" ∷ "routing-companies:view" ∷ "routing-contracts:view" ∷ "passengers:view"
    ∷ "passengers:create" ∷ "passengers:update" ∷ "passengers:import" ∷ []
default_department_permissions SupportedUserDepartment.commercial =
    "dashboard:view" ∷ "commercial:view" ∷ "commercial:create" ∷ "commercial:update"
    ∷ "commercial:manage" ∷ "clients:view" ∷ "clients:create" ∷ "clients:update"
    ∷ "whatsapp-conversations:manage" ∷ "ai-agents:use" ∷ "manuals:view" ∷ "reports:view"
    ∷ "reports:export" ∷ "routing-companies:view" ∷ "routing-contracts:view"
    ∷ "routing-contracts:create" ∷ "routing-contracts:update" ∷ "routing-contracts:manage"
    ∷ "routing-contracts:export" ∷ []
default_department_permissions SupportedUserDepartment.purchasing =
    "dashboard:view" ∷ "purchasing:view" ∷ "purchasing:create" ∷ "purchasing:update"
    ∷ "purchasing:manage" ∷ "manuals:view" ∷ "reports:view" ∷ "reports:export" ∷ []
default_department_permissions SupportedUserDepartment.controlling =
    "dashboard:view" ∷ "financial:view" ∷ "financial:create" ∷ "financial:update"
    ∷ "financial:manage" ∷ "financial:approve" ∷ "financial:export" ∷ "commercial:view"
    ∷ "clients:view" ∷ "manuals:view" ∷ "reports:view" ∷ "reports:export" ∷ "routing-companies:view"
    ∷ "routing-contracts:view" ∷ "routing-contracts:export" ∷ "passengers:view"
    ∷ "passengers:export" ∷ "routes:view" ∷ "routes:export" ∷ []
default_department_permissions SupportedUserDepartment.controllership =
    "dashboard:view" ∷ "financial:view" ∷ "financial:create" ∷ "financial:update"
    ∷ "financial:manage" ∷ "financial:approve" ∷ "financial:export" ∷ "commercial:view"
    ∷ "clients:view" ∷ "manuals:view" ∷ "reports:view" ∷ "reports:export" ∷ "routing-companies:view"
    ∷ "routing-contracts:view" ∷ "routing-contracts:export" ∷ "passengers:view"
    ∷ "passengers:export" ∷ "routes:view" ∷ "routes:export" ∷ []
default_department_permissions SupportedUserDepartment.maintenance =
    "dashboard:view" ∷ "maintenance:view" ∷ "maintenance:create" ∷ "maintenance:update"
    ∷ "maintenance:manage" ∷ "operations:view" ∷ "drivers:view" ∷ "manuals:view" ∷ "reports:view"
    ∷ []
default_department_permissions SupportedUserDepartment.monitoring =
    "dashboard:view" ∷ "monitoring:view" ∷ "monitoring:create" ∷ "monitoring:update"
    ∷ "monitoring:manage" ∷ "operations:view" ∷ "drivers:view" ∷ "manuals:view" ∷ "reports:view"
    ∷ "reports:export" ∷ []
default_department_permissions SupportedUserDepartment.management =
    management_department_permissions
default_department_permissions SupportedUserDepartment.operations =
    "dashboard:view" ∷ "operations:view" ∷ "operations:create" ∷ "operations:update"
    ∷ "operations:manage" ∷ "monitoring:view" ∷ "maintenance:view" ∷ "cleaning:view"
    ∷ "drivers:view" ∷ "drivers:manage" ∷ "ai-agents:use" ∷ "manuals:view" ∷ "reports:view"
    ∷ "reports:export" ∷ "routing-companies:view" ∷ "routing-companies:create"
    ∷ "routing-companies:update" ∷ "routing-contracts:view" ∷ "routing-contracts:export"
    ∷ "passengers:view" ∷ "passengers:create" ∷ "passengers:update" ∷ "passengers:manage"
    ∷ "passengers:import" ∷ "passengers:export" ∷ "routes:view" ∷ "routes:create" ∷ "routes:update"
    ∷ "routes:manage" ∷ "routes:use" ∷ "routes:approve" ∷ "routes:export" ∷ "routes:publish" ∷ []
default_department_permissions SupportedUserDepartment.cleaning =
    "dashboard:view" ∷ "cleaning:view" ∷ "cleaning:update" ∷ "operations:view" ∷ "manuals:view" ∷ []
default_department_permissions SupportedUserDepartment.financial =
    "dashboard:view" ∷ "financial:view" ∷ "financial:create" ∷ "financial:update"
    ∷ "financial:manage" ∷ "financial:approve" ∷ "financial:export" ∷ "commercial:view"
    ∷ "clients:view" ∷ "manuals:view" ∷ "reports:view" ∷ "reports:export" ∷ "routing-companies:view"
    ∷ "routing-companies:update" ∷ "routing-contracts:view" ∷ "routing-contracts:export"
    ∷ "passengers:view" ∷ "passengers:export" ∷ "routes:view" ∷ "routes:export" ∷ []
default_department_permissions SupportedUserDepartment.information_technology =
    "dashboard:view" ∷ "ai-agents:view" ∷ "ai-agents:create" ∷ "ai-agents:update"
    ∷ "ai-agents:delete" ∷ "ai-agents:manage" ∷ "ai-agents:use" ∷ "manuals:view" ∷ "manuals:create"
    ∷ "manuals:update" ∷ "manuals:delete" ∷ "manuals:manage" ∷ "reports:view" ∷ "reports:export"
    ∷ "users:view" ∷ "users:create" ∷ "users:update" ∷ "users:manage" ∷ "routing-companies:view"
    ∷ "routing-companies:create" ∷ "routing-companies:update" ∷ "routing-companies:manage"
    ∷ "routing-contracts:view" ∷ "routing-contracts:create" ∷ "routing-contracts:update"
    ∷ "routing-contracts:manage" ∷ "routing-contracts:approve" ∷ "routing-contracts:export"
    ∷ "passengers:view" ∷ "passengers:create" ∷ "passengers:update" ∷ "passengers:manage"
    ∷ "passengers:import" ∷ "passengers:export" ∷ "routes:view" ∷ "routes:create" ∷ "routes:update"
    ∷ "routes:manage" ∷ "routes:use" ∷ "routes:approve" ∷ "routes:export" ∷ "routes:publish" ∷ []
