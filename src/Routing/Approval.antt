-- ===== src/Routing/Approval.antt =====
-- The way of a route to its publication.
use lume_tenant_api.Base.{◌≡◌, ◌≢◌, refl, sym, inl, inr, ok, List, [], ◌∷◌, In, arith}
use lume_tenant_api.Routing.Route.{
  RouteStatus, approved, pending_approval, published, route_status_eq, assert_route_transition,
}

-- The accepted changes that lead from one status to another, newest first, with every status passed.
pub data Reached (start : RouteStatus) : RouteStatus → List RouteStatus → Type 0 where
  at_start : Reached start start []
  changed :
      {from : RouteStatus} {passed : List RouteStatus} (to : RouteStatus)
      → Reached start from passed
      → assert_route_transition from to ≡ ok tt
      → Reached start to (from ∷ passed)

change_to :
    (from to : RouteStatus)
    → assert_route_transition from to ≡ ok tt
    → (to ≡ published → from ≡ approved) × (to ≡ approved → from ≡ pending_approval)
unfolding assert_route_transition
change_to from to h = ground arith

-- What a route passed before it became approved.
reached_approved :
    {start to : RouteStatus} {passed : List RouteStatus}
    → Reached start to passed
    → to ≡ approved
    → start ≢ approved
    → In pending_approval passed
reached_approved at_start e other = absurd (other e)
reached_approved (changed {from} to before h) e other = inl (sym ((change_to from to h).1 e))

reached_published :
    {start to : RouteStatus} {passed : List RouteStatus}
    → Reached start to passed
    → to ≡ published
    → start ≢ approved
    → start ≢ published
    → In approved passed × In pending_approval passed
reached_published at_start e other unpublished = absurd (unpublished e)
reached_published (changed {from} to before h) e other unpublished =
    let is_approved = (change_to from to h).0 e in
    (inl (sym is_approved), inr (reached_approved before is_approved other))

-- A route that starts neither approved nor published is published only after it was pending approval
-- and then approved.
pub published_after_approval :
    {start : RouteStatus} {passed : List RouteStatus}
    → Reached start published passed
    → start ≢ approved
    → start ≢ published
    → In approved passed × In pending_approval passed
published_after_approval reached other unpublished =
    reached_published reached refl other unpublished
