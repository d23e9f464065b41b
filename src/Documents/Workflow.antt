-- ===== src/Documents/Workflow.antt =====
-- domain/documents/document-workflow.ts: the statuses of items and of a request.
use Prim.Native.String.{◌++◌}
use lume_tenant_api.Base.{
  String, Bool, true, false, not, List, [], ◌∷◌, ℕ, nat_beq, Eq, ◌≡◌, ◌↔◌, arith, filter, every,
  any, is_empty, includes, ◌==◌, if◌then◌else◌, Result, throw_if, validation_error,
}

pub data DocumentItemStatus : Type 0 where
  pending_upload submitted automatic_validation pending_human_review : DocumentItemStatus
  resubmission_required approved rejected expired waived cancelled : DocumentItemStatus

pub data DocumentRequestStatus : Type 0 where
  draft pending_upload partially_submitted submitted automatic_validation : DocumentRequestStatus
  pending_human_review resubmission_required approved rejected expired : DocumentRequestStatus
  cancelled : DocumentRequestStatus

pub data DocumentRequirement : Type 0 where
  required optional conditional : DocumentRequirement

pub record DocumentItem : Type 0 where
  pub status : DocumentItemStatus
  pub requirement : DocumentRequirement

abbrev pub item_status_text : DocumentItemStatus → String
item_status_text DocumentItemStatus.pending_upload = "pending-upload"
item_status_text DocumentItemStatus.submitted = "submitted"
item_status_text DocumentItemStatus.automatic_validation = "automatic-validation"
item_status_text DocumentItemStatus.pending_human_review = "pending-human-review"
item_status_text DocumentItemStatus.resubmission_required = "resubmission-required"
item_status_text DocumentItemStatus.approved = "approved"
item_status_text DocumentItemStatus.rejected = "rejected"
item_status_text DocumentItemStatus.expired = "expired"
item_status_text DocumentItemStatus.waived = "waived"
item_status_text DocumentItemStatus.cancelled = "cancelled"

-- The position of a status in its array, by which `===` is decided.
abbrev pub item_status_index : DocumentItemStatus → ℕ
item_status_index DocumentItemStatus.pending_upload = 0
item_status_index DocumentItemStatus.submitted = 1
item_status_index DocumentItemStatus.automatic_validation = 2
item_status_index DocumentItemStatus.pending_human_review = 3
item_status_index DocumentItemStatus.resubmission_required = 4
item_status_index DocumentItemStatus.approved = 5
item_status_index DocumentItemStatus.rejected = 6
item_status_index DocumentItemStatus.expired = 7
item_status_index DocumentItemStatus.waived = 8
item_status_index DocumentItemStatus.cancelled = 9

pub item_status_beq_iff :
    (a b : DocumentItemStatus)
    → (nat_beq (item_status_index a) (item_status_index b) ≡ true) ↔ (a ≡ b)
item_status_beq_iff a b = ground arith

instance abbrev pub item_status_eq : Eq DocumentItemStatus
item_status_eq = record {
  beq = λ a b. nat_beq (item_status_index a) (item_status_index b);
  beq_iff = item_status_beq_iff;
}

unfoldable pub item_transitions : DocumentItemStatus → List DocumentItemStatus
item_transitions DocumentItemStatus.pending_upload =
    DocumentItemStatus.submitted ∷ DocumentItemStatus.waived ∷ DocumentItemStatus.cancelled ∷ []
item_transitions DocumentItemStatus.submitted =
    DocumentItemStatus.automatic_validation ∷ DocumentItemStatus.pending_human_review
    ∷ DocumentItemStatus.cancelled ∷ []
item_transitions DocumentItemStatus.automatic_validation =
    DocumentItemStatus.pending_human_review ∷ DocumentItemStatus.resubmission_required ∷ []
item_transitions DocumentItemStatus.pending_human_review =
    DocumentItemStatus.submitted ∷ DocumentItemStatus.approved ∷ DocumentItemStatus.rejected
    ∷ DocumentItemStatus.resubmission_required ∷ []
item_transitions DocumentItemStatus.resubmission_required =
    DocumentItemStatus.submitted ∷ DocumentItemStatus.waived ∷ DocumentItemStatus.cancelled ∷ []
item_transitions DocumentItemStatus.approved =
    DocumentItemStatus.expired ∷ DocumentItemStatus.waived ∷ []
item_transitions DocumentItemStatus.rejected =
    DocumentItemStatus.submitted ∷ DocumentItemStatus.waived ∷ DocumentItemStatus.cancelled ∷ []
item_transitions DocumentItemStatus.expired =
    DocumentItemStatus.submitted ∷ DocumentItemStatus.waived ∷ DocumentItemStatus.cancelled ∷ []
item_transitions DocumentItemStatus.waived = DocumentItemStatus.pending_upload ∷ []
item_transitions DocumentItemStatus.cancelled = []

unfoldable pub assert_document_item_transition :
    DocumentItemStatus → DocumentItemStatus → Result (Unit {0})
unfolding item_transitions
assert_document_item_transition from to = throw_if (not (includes (item_transitions from) to)) (
    validation_error (
      "Transição documental inválida: "
      ++ item_status_text from
      ++ " -> "
      ++ item_status_text to
      ++ "."))

abbrev pub is_status : DocumentItemStatus → DocumentItem → Bool
is_status status item = item.status == status

abbrev pub is_relevant : DocumentItem → Bool
is_relevant item = elim item.requirement [ DocumentRequirement.optional ↦ false | _ ↦ true ]

-- `['cancelled', 'waived'].includes(item.status)`.
abbrev pub is_dropped : DocumentItem → Bool
is_dropped item =
    includes (DocumentItemStatus.cancelled ∷ DocumentItemStatus.waived ∷ []) item.status

-- `['approved', 'waived'].includes(item.status)`.
abbrev pub is_settled : DocumentItem → Bool
is_settled item =
    includes (DocumentItemStatus.approved ∷ DocumentItemStatus.waived ∷ []) item.status

-- The items that decide: the optional ones only where there are no others.
unfoldable pub deciding_items : List DocumentItem → List DocumentItem
deciding_items items =
    let relevant = filter is_relevant items in if not (is_empty relevant) then relevant else items

-- `deriveDocumentRequestStatus` from `source` on.
unfoldable pub status_of_source : List DocumentItem → DocumentRequestStatus
status_of_source source =
    if is_empty source
    then DocumentRequestStatus.draft
    else if every is_dropped source
    then if every (is_status DocumentItemStatus.cancelled) source
      then DocumentRequestStatus.cancelled
      else DocumentRequestStatus.approved
    else if any (is_status DocumentItemStatus.resubmission_required) source
    then DocumentRequestStatus.resubmission_required
    else if any (is_status DocumentItemStatus.rejected) source
    then DocumentRequestStatus.rejected
    else if any (is_status DocumentItemStatus.expired) source
    then DocumentRequestStatus.expired
    else if every is_settled source
    then DocumentRequestStatus.approved
    else if any (is_status DocumentItemStatus.pending_human_review) source
    then DocumentRequestStatus.pending_human_review
    else if any (is_status DocumentItemStatus.automatic_validation) source
    then DocumentRequestStatus.automatic_validation
    else if every (is_status DocumentItemStatus.submitted) source
    then DocumentRequestStatus.submitted
    else if any (λ item. not (is_status DocumentItemStatus.pending_upload item)) source
    then DocumentRequestStatus.partially_submitted
    else DocumentRequestStatus.pending_upload

unfoldable pub derive_document_request_status : List DocumentItem → DocumentRequestStatus
unfolding deciding_items status_of_source
derive_document_request_status items = status_of_source (deciding_items items)
