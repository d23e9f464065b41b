-- ===== src/WhatsApp/Automation/Contacts.antt =====
-- whatsapp-automation-flow.ts: the departments that a customer can reach, and the reasons to hand a
-- conversation to a human, each an object literal that is read by the customer's option.
use lume_tenant_api.Base.{String, List, [], ◌∷◌, Option, none, some}
use lume_tenant_api.Base.Objects.{Property, missing, inherited, own, read_key}
use lume_tenant_api.Access.Departments.{Department}
use lume_tenant_api.WhatsApp.Automation.Types.{Reason}

pub record DepartmentContact : Type 0 where
  pub label : String
  pub department_phone_env : Option String
  pub target_department : Option Department

abbrev contact : String → String → Department → DepartmentContact
contact label phone target = record {
  label = label;
  department_phone_env = some phone;
  target_department = some target;
}

abbrev pub director_contact : DepartmentContact
director_contact = contact "Diretoria" "MILENIUM_DIRECTOR_PHONE" Department.management

abbrev pub department_contacts : List (String × DepartmentContact)
department_contacts =
    ("commercial-continuous-director", director_contact)
    ∷ (
      "2",
      contact "Compras (Fornecedores)" "MILENIUM_DEPARTMENT_PURCHASES_PHONE" Department.purchasing,
    )
    ∷ ("3", contact "Controladoria" "MILENIUM_DEPARTMENT_CONTROLLING_PHONE" Department.controlling)
    ∷ (
      "4",
      contact "Departamento Pessoal" "MILENIUM_DEPARTMENT_DP_PHONE" Department.personnel_department,
    )
    ∷ ("5", contact "Financeiro" "MILENIUM_DEPARTMENT_FINANCE_PHONE" Department.financial)
    ∷ ("6", contact "Gerência" "MILENIUM_DEPARTMENT_MANAGEMENT_PHONE" Department.management)
    ∷ ("7", contact "Manutenção" "MILENIUM_DEPARTMENT_MAINTENANCE_PHONE" Department.maintenance)
    ∷ ("8", contact "Monitoramento" "MILENIUM_DEPARTMENT_MONITORING_PHONE" Department.monitoring)
    ∷ ("9", contact "Operacional" "MILENIUM_DEPARTMENT_OPERATIONAL_PHONE" Department.operations)
    ∷ []

-- An inherited value has none of a contact's fields, and its label reads "undefined" in a text.
abbrev pub inherited_contact : DepartmentContact
inherited_contact = record {
  label = "undefined";
  department_phone_env = none;
  target_department = none;
}

abbrev pub as_contact : Property DepartmentContact → Option DepartmentContact
as_contact missing = none
as_contact inherited = some inherited_contact
as_contact (own found) = some found

unfoldable pub find_contact : String → Option DepartmentContact
unfolding read_key
find_contact option = as_contact (read_key department_contacts option)

abbrev pub human_reason_by_option : List (String × String)
human_reason_by_option =
    ("3", "commercial-question-or-change")
    ∷ ("4", "commercial-follow-up")
    ∷ ("5", "commercial-documents")
    ∷ ("6", "other-commercial-subject")
    ∷ []

abbrev pub follow_up_human_reason_by_option : List (String × String)
follow_up_human_reason_by_option =
    ("1", "quote-status-requested")
    ∷ ("2", "quote-change-requested")
    ∷ ("3", "quote-documentation")
    ∷ ("4", "trip-follow-up")
    ∷ []

abbrev as_reason : String → Property String → Option Reason
as_reason option missing = none
as_reason option inherited = some (Reason.inherited option)
as_reason option (own reason) = some (Reason.said reason)

unfoldable pub human_reason : String → Option Reason
unfolding read_key
human_reason option = as_reason option (read_key human_reason_by_option option)

unfoldable pub follow_up_human_reason : String → Option Reason
unfolding read_key
follow_up_human_reason option = as_reason option (read_key follow_up_human_reason_by_option option)
