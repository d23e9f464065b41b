-- ===== src/Routing/Route.antt =====
-- domain/routing/route.ts: the statuses of a route and the documents that a passenger lacks.
use Prim.Native.String.{◌++◌}
use lume_tenant_api.Base.{
  String, Bool, true, not, List, [], ◌∷◌, ℕ, nat_beq, Eq, ◌≡◌, ◌↔◌, arith, filter, map, is_empty,
  includes, string_eq, Result, throw_if, validation_error,
}
use lume_tenant_api.Base.Sets.{distinct}

pub data RouteStatus : Type 0 where
  draft routed in_review pending_approval approved published : RouteStatus

abbrev pub route_status_text : RouteStatus → String
route_status_text draft = "draft"
route_status_text routed = "routed"
route_status_text in_review = "in-review"
route_status_text pending_approval = "pending-approval"
route_status_text approved = "approved"
route_status_text published = "published"

abbrev pub route_status_index : RouteStatus → ℕ
route_status_index draft = 0
route_status_index routed = 1
route_status_index in_review = 2
route_status_index pending_approval = 3
route_status_index approved = 4
route_status_index published = 5

pub route_status_beq_iff :
    (a b : RouteStatus) → (nat_beq (route_status_index a) (route_status_index b) ≡ true) ↔ (a ≡ b)
route_status_beq_iff a b = ground arith

instance abbrev pub route_status_eq : Eq RouteStatus
route_status_eq = record {
  beq = λ a b. nat_beq (route_status_index a) (route_status_index b);
  beq_iff = route_status_beq_iff;
}

unfoldable pub allowed_transitions : RouteStatus → List RouteStatus
allowed_transitions draft = routed ∷ []
allowed_transitions routed = in_review ∷ draft ∷ []
allowed_transitions in_review = pending_approval ∷ routed ∷ []
allowed_transitions pending_approval = approved ∷ in_review ∷ []
allowed_transitions approved = published ∷ in_review ∷ []
allowed_transitions published = in_review ∷ []

unfoldable pub assert_route_transition : RouteStatus → RouteStatus → Result (Unit {0})
unfolding allowed_transitions
assert_route_transition from to = throw_if (not (includes (allowed_transitions from) to)) (
    validation_error (
      "A rota nao pode passar de "
      ++ route_status_text from
      ++ " para "
      ++ route_status_text to
      ++ "."))

-- A document by its type and the names of its data.
pub record RouteDocument : Type 0 where
  pub document_type_code : String
  pub data_keys : List String

-- `Object.keys(document.data).length > 0`.
abbrev pub has_data : RouteDocument → Bool
has_data document = not (is_empty document.data_keys)

abbrev pub code_of : RouteDocument → String
code_of document = document.document_type_code

unfoldable pub missing_required_documents : List String → List RouteDocument → List String
missing_required_documents required_codes documents =
    let available = distinct (map code_of (filter has_data documents)) in
    filter (λ code. not (includes available code)) required_codes
