-- ===== src/Routing/Tests.antt =====
-- Routes at concrete values.
use lume_tenant_api.Base.{refl, [], ◌∷◌, In, arith}
use lume_tenant_api.Routing.Route.{
  draft, routed, in_review, pending_approval, approved, published, assert_route_transition,
}
use lume_tenant_api.Routing.Approval.{Reached, at_start, changed, published_after_approval}

abbrev usual_way :
    Reached draft published (approved ∷ pending_approval ∷ in_review ∷ routed ∷ draft ∷ [])
unfolding assert_route_transition
usual_way =
    changed published
      (changed approved
        (changed pending_approval (changed in_review (changed routed at_start refl) refl) refl)
        refl)
      refl

published_after_approval_example :
    In approved (approved ∷ pending_approval ∷ in_review ∷ routed ∷ draft ∷ [])
    × In pending_approval (approved ∷ pending_approval ∷ in_review ∷ routed ∷ draft ∷ [])
published_after_approval_example =
    published_after_approval usual_way (λ e. ground arith) (λ e. ground arith)
