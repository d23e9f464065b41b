-- ===== src/Access/Departments.antt =====
-- domain/access/access.constants.ts: the departments, and the two spellings of one of them.
use lume_tenant_api.Base.{List, [], ◌∷◌, map, ℕ, nat_beq, Eq, true, ◌≡◌, ◌↔◌, arith}
use lume_tenant_api.Base.Sets.{distinct}

pub data Department : Type 0 where
  client_company human_resources personnel_department commercial purchasing : Department
  controlling maintenance monitoring management operations cleaning financial : Department
  information_technology : Department

-- Departments as a user's form may name them: `controllership` is the other spelling of
-- `controlling`.
pub data SupportedUserDepartment : Type 0 where
  client_company commercial purchasing controllership personnel_department : SupportedUserDepartment
  financial management maintenance monitoring operations : SupportedUserDepartment
  information_technology human_resources controlling cleaning : SupportedUserDepartment

abbrev pub department_index : Department → ℕ
department_index Department.client_company = 0
department_index Department.human_resources = 1
department_index Department.personnel_department = 2
department_index Department.commercial = 3
department_index Department.purchasing = 4
department_index Department.controlling = 5
department_index Department.maintenance = 6
department_index Department.monitoring = 7
department_index Department.management = 8
department_index Department.operations = 9
department_index Department.cleaning = 10
department_index Department.financial = 11
department_index Department.information_technology = 12

pub department_beq_iff :
    (a b : Department) → (nat_beq (department_index a) (department_index b) ≡ true) ↔ (a ≡ b)
department_beq_iff a b = ground arith

instance abbrev pub department_eq : Eq Department
department_eq = record {
  beq = λ a b. nat_beq (department_index a) (department_index b);
  beq_iff = department_beq_iff;
}

abbrev pub supported_index : SupportedUserDepartment → ℕ
supported_index SupportedUserDepartment.client_company = 0
supported_index SupportedUserDepartment.commercial = 1
supported_index SupportedUserDepartment.purchasing = 2
supported_index SupportedUserDepartment.controllership = 3
supported_index SupportedUserDepartment.personnel_department = 4
supported_index SupportedUserDepartment.financial = 5
supported_index SupportedUserDepartment.management = 6
supported_index SupportedUserDepartment.maintenance = 7
supported_index SupportedUserDepartment.monitoring = 8
supported_index SupportedUserDepartment.operations = 9
supported_index SupportedUserDepartment.information_technology = 10
supported_index SupportedUserDepartment.human_resources = 11
supported_index SupportedUserDepartment.controlling = 12
supported_index SupportedUserDepartment.cleaning = 13

pub supported_beq_iff :
    (a b : SupportedUserDepartment)
    → (nat_beq (supported_index a) (supported_index b) ≡ true) ↔ (a ≡ b)
supported_beq_iff a b = ground arith

instance abbrev pub supported_eq : Eq SupportedUserDepartment
supported_eq = record {
  beq = λ a b. nat_beq (supported_index a) (supported_index b);
  beq_iff = supported_beq_iff;
}

unfoldable pub normalize_user_department : SupportedUserDepartment → Department
normalize_user_department SupportedUserDepartment.client_company = Department.client_company
normalize_user_department SupportedUserDepartment.commercial = Department.commercial
normalize_user_department SupportedUserDepartment.purchasing = Department.purchasing
normalize_user_department SupportedUserDepartment.personnel_department =
    Department.personnel_department
normalize_user_department SupportedUserDepartment.financial = Department.financial
normalize_user_department SupportedUserDepartment.management = Department.management
normalize_user_department SupportedUserDepartment.maintenance = Department.maintenance
normalize_user_department SupportedUserDepartment.monitoring = Department.monitoring
normalize_user_department SupportedUserDepartment.operations = Department.operations
normalize_user_department SupportedUserDepartment.information_technology =
    Department.information_technology
normalize_user_department SupportedUserDepartment.human_resources = Department.human_resources
normalize_user_department SupportedUserDepartment.controlling = Department.controlling
normalize_user_department SupportedUserDepartment.cleaning = Department.cleaning
normalize_user_department SupportedUserDepartment.controllership = Department.controlling

unfoldable pub normalize_user_departments : List SupportedUserDepartment → List Department
unfolding normalize_user_department distinct
normalize_user_departments departments = distinct (map normalize_user_department departments)

-- `presentUserDepartment` answers with the other spelling.
unfoldable pub present_user_department : Department → SupportedUserDepartment
present_user_department Department.client_company = SupportedUserDepartment.client_company
present_user_department Department.human_resources = SupportedUserDepartment.human_resources
present_user_department Department.personnel_department =
    SupportedUserDepartment.personnel_department
present_user_department Department.commercial = SupportedUserDepartment.commercial
present_user_department Department.purchasing = SupportedUserDepartment.purchasing
present_user_department Department.controlling = SupportedUserDepartment.controllership
present_user_department Department.maintenance = SupportedUserDepartment.maintenance
present_user_department Department.monitoring = SupportedUserDepartment.monitoring
present_user_department Department.management = SupportedUserDepartment.management
present_user_department Department.operations = SupportedUserDepartment.operations
present_user_department Department.cleaning = SupportedUserDepartment.cleaning
present_user_department Department.financial = SupportedUserDepartment.financial
present_user_department Department.information_technology =
    SupportedUserDepartment.information_technology

-- A department is a supported one under its own name.
unfoldable pub as_supported : Department → SupportedUserDepartment
as_supported Department.client_company = SupportedUserDepartment.client_company
as_supported Department.human_resources = SupportedUserDepartment.human_resources
as_supported Department.personnel_department = SupportedUserDepartment.personnel_department
as_supported Department.commercial = SupportedUserDepartment.commercial
as_supported Department.purchasing = SupportedUserDepartment.purchasing
as_supported Department.controlling = SupportedUserDepartment.controlling
as_supported Department.maintenance = SupportedUserDepartment.maintenance
as_supported Department.monitoring = SupportedUserDepartment.monitoring
as_supported Department.management = SupportedUserDepartment.management
as_supported Department.operations = SupportedUserDepartment.operations
as_supported Department.cleaning = SupportedUserDepartment.cleaning
as_supported Department.financial = SupportedUserDepartment.financial
as_supported Department.information_technology = SupportedUserDepartment.information_technology

abbrev pub all_departments : List Department
all_departments =
    Department.client_company ∷ Department.human_resources ∷ Department.personnel_department
    ∷ Department.commercial ∷ Department.purchasing ∷ Department.controlling
    ∷ Department.maintenance ∷ Department.monitoring ∷ Department.management ∷ Department.operations
    ∷ Department.cleaning ∷ Department.financial ∷ Department.information_technology ∷ []
