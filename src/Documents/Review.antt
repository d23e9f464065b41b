-- ===== src/Documents/Review.antt =====
-- The life of an item as a sequence of steps that the workflow accepts.
use lume_tenant_api.Base.{
  ◌≡◌, ◌≢◌, refl, sym, inl, inr, ok, List, [], ◌∷◌, In, arith, Bool-cases, ◌==◌,
}
use lume_tenant_api.Documents.Workflow.{
  DocumentItemStatus, assert_document_item_transition, item_status_eq,
}

-- The accepted runs from one status to another, with the statuses they leave.
pub data Run : DocumentItemStatus → DocumentItemStatus → List DocumentItemStatus → Type 0 where
  stay : (s : DocumentItemStatus) → Run s s []
  step :
      (s t : DocumentItemStatus) {u : DocumentItemStatus} {left : List DocumentItemStatus}
      → assert_document_item_transition s t ≡ ok tt
      → Run t u left
      → Run s u (s ∷ left)

approved_from :
    (s t : DocumentItemStatus)
    → assert_document_item_transition s t ≡ ok tt
    → t ≡ DocumentItemStatus.approved
    → s ≡ DocumentItemStatus.pending_human_review
unfolding assert_document_item_transition
approved_from s t accepted h = ground arith

approved_after_review_to :
    {s u : DocumentItemStatus} {left : List DocumentItemStatus}
    → Run s u left
    → u ≡ DocumentItemStatus.approved
    → s ≢ DocumentItemStatus.approved
    → In DocumentItemStatus.pending_human_review left
approved_after_review_to (stay s) end start = absurd (start end)
approved_after_review_to (step s t accepted rest) end start =
    elim (Bool-cases (t == DocumentItemStatus.approved)) [
      | inl there ↦ inl (
          sym (
            approved_from s t accepted
              ((item_status_eq.beq_iff t DocumentItemStatus.approved).0 there)))
      | inr elsewhere ↦ inr (
          approved_after_review_to rest end (λ there.
            ground (arith, (item_status_eq.beq_iff t DocumentItemStatus.approved).1 there)))
    ]

-- No item becomes approved without a review by a person: every accepted run that ends in approval,
-- from any other status, leaves the status `pending-human-review` on the way.
pub approved_after_review :
    {s : DocumentItemStatus} {left : List DocumentItemStatus}
    → Run s DocumentItemStatus.approved left
    → s ≢ DocumentItemStatus.approved
    → In DocumentItemStatus.pending_human_review left
approved_after_review run start = approved_after_review_to run refl start
