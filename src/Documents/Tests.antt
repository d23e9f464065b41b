-- ===== src/Documents/Tests.antt =====
-- The workflow at concrete items.
use lume_tenant_api.Base.{◌≡◌, ◌↔◌, ◌⊎◌, refl, [], ◌∷◌, In, arith, true, false, every, is_empty}
use lume_tenant_api.Documents.Workflow.{
  DocumentItemStatus, DocumentRequestStatus, DocumentItem, required, optional,
  assert_document_item_transition, is_dropped, is_settled, is_status, deciding_items,
  derive_document_request_status,
}
use lume_tenant_api.Documents.Review.{Run, stay, step, approved_after_review}
use lume_tenant_api.Documents.Derived.{derive_document_request_status-same, derive_approved_iff}

abbrev usual_run : Run DocumentItemStatus.pending_upload DocumentItemStatus.approved (
    DocumentItemStatus.pending_upload ∷ DocumentItemStatus.submitted
    ∷ DocumentItemStatus.pending_human_review ∷ [])
unfolding assert_document_item_transition
usual_run = step DocumentItemStatus.pending_upload DocumentItemStatus.submitted refl (
    step DocumentItemStatus.submitted DocumentItemStatus.pending_human_review refl (
      step DocumentItemStatus.pending_human_review DocumentItemStatus.approved refl
        (stay DocumentItemStatus.approved)))

approved_after_review_example : In DocumentItemStatus.pending_human_review (
    DocumentItemStatus.pending_upload ∷ DocumentItemStatus.submitted
    ∷ DocumentItemStatus.pending_human_review ∷ [])
approved_after_review_example = approved_after_review usual_run (λ e. ground arith)

abbrev identity_item : DocumentItem
identity_item = record { status = DocumentItemStatus.approved; requirement = required }

abbrev photo_item : DocumentItem
photo_item = record { status = DocumentItemStatus.pending_upload; requirement = optional }

swapped :
    (item : DocumentItem)
    → In item (identity_item ∷ photo_item ∷ photo_item ∷ [])
      ↔ In item (photo_item ∷ identity_item ∷ [])
swapped item = (λ h. ground arith, λ h. ground arith)

derive_document_request_status-same_example :
    derive_document_request_status (identity_item ∷ photo_item ∷ photo_item ∷ [])
    ≡ derive_document_request_status (photo_item ∷ identity_item ∷ [])
derive_document_request_status-same_example =
    derive_document_request_status-same (identity_item ∷ photo_item ∷ photo_item ∷ [])
      (photo_item ∷ identity_item ∷ []) swapped

derive_approved_iff_example :
    (derive_document_request_status (identity_item ∷ photo_item ∷ [])
      ≡ DocumentRequestStatus.approved)
    ↔ ((is_empty (deciding_items (identity_item ∷ photo_item ∷ [])) ≡ false)
        × ((every is_settled (deciding_items (identity_item ∷ photo_item ∷ [])) ≡ true)
            ⊎ ((every is_dropped (deciding_items (identity_item ∷ photo_item ∷ [])) ≡ true)
                × (every
                      (is_status DocumentItemStatus.cancelled)
                      (deciding_items (identity_item ∷ photo_item ∷ []))
                    ≡ false))))
derive_approved_iff_example = derive_approved_iff (identity_item ∷ photo_item ∷ [])
