-- ===== src/WhatsApp/Transition/Laws.antt =====
-- What the matrix guarantees of single transitions: who may do what, and what changes.
use lume_tenant_api.Base.{
  ◌≡◌, ◌⊎◌, inl, refl, true, false, ok, err, arith, includes, validation_error_code, forbidden_code,
  AppError,
}
use lume_tenant_api.WhatsApp.Constants.{
  ConversationState, RequestStatus, TransitionName, ConversationSnapshot, status_eq,
}
use lume_tenant_api.WhatsApp.Transition.Actors.{
  TransitionActor, actor_eq, user, webhook, actors_by_transition,
}
use lume_tenant_api.WhatsApp.Transition.Guards.{ResolveTransitionInput, follow_up_request_statuses}
use lume_tenant_api.WhatsApp.Transition.Matrix.{
  branches, resolve_branch, resolve_conversation_transition, run_command,
}

closed_branch :
    (name : TransitionName) (input : ResolveTransitionInput) (s : ConversationSnapshot)
    → resolve_branch name input ≡ ok s
    → input.current.conversation_state ≡ ConversationState.closed
    → (name ≡ TransitionName.take_over) ⊎ (name ≡ TransitionName.reopen_after_customer_message)
unfolding branches
closed_branch TransitionName.take_over input s h c = inl refl
closed_branch _ input s h c = ground arith

-- A refused transition is always a validation error, never a permission error.
error_branch :
    (name : TransitionName) (input : ResolveTransitionInput) (e : AppError)
    → resolve_branch name input ≡ err e
    → e.code ≡ validation_error_code
unfolding branches
error_branch TransitionName.take_over input e h = ground arith
error_branch _ input e h = ground arith

-- The edges along which a transition moves the status of a request.
pub data RequestEdge : RequestStatus → RequestStatus → Type 0 where
  same : {r : RequestStatus} → RequestEdge r r
  begin : RequestEdge RequestStatus.not_started RequestStatus.collecting_information
  again :
      {r : RequestStatus}
      → includes follow_up_request_statuses r ≡ true
      → RequestEdge r RequestStatus.collecting_information
  summarise : RequestEdge RequestStatus.collecting_information RequestStatus.waiting_for_customer
  confirm : RequestEdge RequestStatus.waiting_for_customer RequestStatus.under_review
  deliver : RequestEdge RequestStatus.under_review RequestStatus.waiting_for_customer

request_branch :
    (name : TransitionName) (input : ResolveTransitionInput) (s : ConversationSnapshot)
    → resolve_branch name input ≡ ok s
    → RequestEdge input.current.request_status s.request_status
unfolding branches
request_branch TransitionName.take_over input s h = grind (arith, same)
request_branch _ input s h = grind (arith, same, begin, again, summarise, confirm, deliver)

-- A closed conversation stays as it is until a user takes it over or its customer writes again.
pub closed_left_by :
    (actor : TransitionActor) (input : ResolveTransitionInput) (s : ConversationSnapshot)
    → run_command actor input ≡ ok s
    → input.current.conversation_state ≡ ConversationState.closed
    → ((actor ≡ user) × (input.name ≡ TransitionName.take_over))
      ⊎ ((actor ≡ webhook) × (input.name ≡ TransitionName.reopen_after_customer_message))
unfolding run_command
closed_left_by actor input s h c = ground (arith, closed_branch input.name input s)

-- A command that is refused is refused as forbidden exactly when its actor may not run the
-- transition; every other refusal is a validation error.
pub refusal_codes :
    (actor : TransitionActor) (input : ResolveTransitionInput) (e : AppError)
    → run_command actor input ≡ err e
    → ((includes (actors_by_transition input.name) actor ≡ false) × (e.code ≡ forbidden_code))
      ⊎ ((includes (actors_by_transition input.name) actor ≡ true)
          × (e.code ≡ validation_error_code))
unfolding run_command
refusal_codes actor input e h = ground (arith, error_branch input.name input e)

-- A transition moves the status of the request only along the edges of a quote's life: a collection
-- begins or begins again, is summarised, confirmed, and its proposal delivered. So no transition
-- approves, rejects or cancels a request.
pub resolve-RequestEdge :
    (input : ResolveTransitionInput) (s : ConversationSnapshot)
    → resolve_conversation_transition input ≡ ok s
    → RequestEdge input.current.request_status s.request_status
unfolding resolve_conversation_transition
resolve-RequestEdge input s h = request_branch input.name input s h
