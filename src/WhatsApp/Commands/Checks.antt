-- ===== src/WhatsApp/Commands/Checks.antt =====
-- `transition`: what is checked before anything is written.
use lume_tenant_api.Base.{
  String, ℕ, ltb, Bool, true, false, not, ◌&&◌, ◌||◌, Option, none, some, List, [], ◌∷◌, any,
  is_some, is_empty, ◌==◌, string_eq, if◌then◌else◌, Result, ok, err, ◌>>=◌, ◌>>◌, throw_if,
  validation_error, conflict, forbidden,
}
use Prim.Native.String.{◌++◌}
use lume_tenant_api.Base.Tables.{find_where}
use lume_tenant_api.Base.Text.{trim, is_blank, code_units}
use lume_tenant_api.WhatsApp.Constants.{RequestStatus, status_eq, TransitionName}
use lume_tenant_api.WhatsApp.Transition.Actors.{user, actor_eq}
use lume_tenant_api.WhatsApp.Commands.Rows.{
  MetadataValue, missing, null, other, text, TransitionCommand, Conversation, QuoteDetails,
  QuoteRequest, UserRow, ProposalStatus, queued, ProposalRow, is_given,
}

abbrev pub is_closing : TransitionName → Bool
is_closing TransitionName.close = true
is_closing TransitionName.close_after_rejection = true
is_closing _ = false

-- `trim() || null`.
unfoldable pub trimmed : String → Option String
unfolding trim
trimmed value = if is_blank (trim value) then none else some (trim value)

abbrev pub is_rejected : Option QuoteRequest → Bool
is_rejected none = false
is_rejected (some quote) = quote.status == RequestStatus.rejected

-- The reason of the decision on the latest request, where it was rejected.
unfoldable pub decision_reason_of : Option QuoteRequest → Option String
unfolding trimmed
decision_reason_of none = none
decision_reason_of (some quote) =
    if quote.status == RequestStatus.rejected
    then (elim quote.decision_reason [ none ↦ none | some reason ↦ trimmed reason ])
    else none

-- `rawReason` as given by the caller.
unfoldable pub provided_reason : MetadataValue → Result (Option String)
unfolding trimmed
provided_reason missing = ok none
provided_reason null = ok none
provided_reason other = err (validation_error "O motivo do encerramento deve ser um texto.")
provided_reason (text value) = ok (trimmed value)

abbrev shorter_than : ℕ → Option String → Bool
shorter_than n none = false
shorter_than n (some value) = ltb (code_units value) n

abbrev longer_than : ℕ → Option String → Bool
longer_than n none = false
longer_than n (some value) = ltb n (code_units value)

abbrev or_else : Option String → Option String → Option String
or_else (some value) fallback = some value
or_else none fallback = fallback

-- The reason with which a conversation is closed.
unfoldable pub closing_reason :
    MetadataValue → RequestStatus → Option QuoteRequest → Result (Option String)
unfolding provided_reason decision_reason_of
closing_reason reason request_status latest_quote = do
  provided ← provided_reason reason
  throw_if (shorter_than 3 provided)
      (validation_error "O motivo do encerramento deve possuir pelo menos 3 caracteres.")
  throw_if (longer_than 500 provided)
      (validation_error "O motivo do encerramento deve possuir no máximo 500 caracteres.")
  let resolved = or_else provided (decision_reason_of latest_quote)
  throw_if
      ((request_status == RequestStatus.rejected || is_rejected latest_quote)
        && not (is_some resolved))
      (validation_error "Informe o motivo do encerramento da proposta recusada.")
  ok resolved

unfoldable pub resolve_closing_reason :
    TransitionCommand → Conversation → Option QuoteRequest → Result (Option String)
unfolding closing_reason
resolve_closing_reason input conversation latest_quote =
    if is_closing input.name
    then closing_reason input.reason conversation.row.snapshot.request_status latest_quote
    else ok none

abbrev waits_for_proposal : TransitionName → Bool
waits_for_proposal TransitionName.take_over = true
waits_for_proposal TransitionName.return_to_bot = true
waits_for_proposal TransitionName.forward = true
waits_for_proposal TransitionName.new_quote_request = true
waits_for_proposal _ = false

abbrev is_queued : ProposalStatus → Bool
is_queued queued = true
is_queued _ = false

-- No change of hands while a proposal is being sent.
unfoldable pub check_proposals : TransitionCommand → List ProposalRow → Result (Unit {0})
check_proposals input proposals =
    throw_if
      (waits_for_proposal input.name
        && any
            (λ row.
              row.company_id == input.company_id
              && row.conversation_id == input.conversation_id
              && is_queued row.status)
            proposals)
      (conflict
        "A proposta está sendo enviada. Aguarde a confirmação do provedor antes de alterar a condução."
        none)

unfoldable pub active_actor : Option UserRow → Result (Option (String × String))
active_actor none = err (forbidden "O ator informado não pertence ao tenant.")
active_actor (some actor) =
    if actor.is_active
    then ok (some (actor.id, actor.name))
    else err (forbidden "O ator informado não pertence ao tenant.")

unfoldable pub named_actor :
    TransitionCommand → List UserRow → Option String → Result (Option (String × String))
unfolding active_actor find_where
named_actor input users none = ok none
named_actor input users (some actor_user_id) =
    if is_blank actor_user_id
    then ok none
    else active_actor
        (find_where (λ row. row.id == actor_user_id && row.company_id == input.company_id) users)

-- The user who acts, if one is named; a human transition names one.
unfoldable pub check_actor : TransitionCommand → List UserRow → Result (Option (String × String))
unfolding named_actor
check_actor input users = do
  throw_if (input.actor_type == user && not (is_given input.actor_user_id))
      (validation_error "Uma transição humana exige um usuário autenticado.")
  named_actor input users input.actor_user_id

abbrev no_text : Option String → Bool
no_text none = true
no_text (some value) = is_blank (trim value)

abbrev no_passenger : Option ℕ → Bool
no_passenger none = true
no_passenger (some count) = ltb count 1

abbrev flagged : Bool → String → List String → List String
flagged test name rest = if test then name ∷ rest else rest

-- `missing`, in the order of the fields.
unfoldable pub missing_fields : QuoteDetails → List String
unfolding trim
missing_fields quote = flagged (no_text quote.contact_name) "contactName" (
    flagged (no_text quote.service_type) "serviceType" (
      flagged (no_text quote.origin) "origin" (
        flagged (no_text quote.destination) "destination" (
          flagged (not (is_some quote.departure_date)) "departureDate"
            (flagged (no_passenger quote.passenger_count) "passengerCount" [])))))

-- `join(', ')`.
unfoldable pub join_fields : List String → String
join_fields [] = ""
join_fields (field ∷ []) = field
join_fields (field ∷ next ∷ rest) = field ++ ", " ++ join_fields (next ∷ rest)

unfoldable pub assert_quote_complete : QuoteDetails → Result (Unit {0})
unfolding missing_fields join_fields
assert_quote_complete quote = throw_if (not (is_empty (missing_fields quote))) (
    validation_error (
      "O orçamento ainda não possui os campos obrigatórios: "
      ++ join_fields (missing_fields quote)
      ++ "."))
