-- ===== src/WhatsApp/Commands/Quotes.antt =====
-- `transition`: what a command does to the quote requests of the conversation.
use lume_tenant_api.Base.{
  String, ℕ, ◌+◌, ltb, nat_beq, Bool, true, false, not, ◌&&◌, Option, none, some, List, [], ◌∷◌,
  ◌++◌, ◌==◌, string_eq, if◌then◌else◌, Result, ok, err, ◌>>=◌, ◌>>◌, throw_if, validation_error,
  conflict,
}
use lume_tenant_api.Base.Tables.{update_where, count_where}
use lume_tenant_api.WhatsApp.Constants.{RequestStatus, status_eq, TransitionName}
use lume_tenant_api.WhatsApp.Commands.Rows.{
  TransitionCommand, QuoteDetails, QuoteRequest, SupersededQuote, Draw,
}
use lume_tenant_api.WhatsApp.Commands.Checks.{assert_quote_complete}

abbrev pub of_conversation : String → String → QuoteRequest → Bool
of_conversation company conversation row =
    row.company_id == company && row.conversation_id == conversation

abbrev later_of : QuoteRequest → Option QuoteRequest → Option QuoteRequest
later_of row none = some row
later_of row (some other) = if ltb row.sequence other.sequence then some other else some row

-- `orderBy: { sequence: 'desc' }, take: 1`.
unfoldable pub latest_quote : String → String → List QuoteRequest → Option QuoteRequest
latest_quote company conversation [] = none
latest_quote company conversation (row ∷ rows) =
    let later = latest_quote company conversation rows in
    if of_conversation company conversation row then later_of row later else later

abbrev sequence_of : Option QuoteRequest → ℕ
sequence_of none = 0
sequence_of (some quote) = quote.sequence

-- The request as it was read, under review.
abbrev pub unchanged_review : TransitionCommand → QuoteRequest → QuoteRequest → Bool
unchanged_review input quote row =
    row.id == quote.id
    && row.company_id == input.company_id
    && row.conversation_id == input.conversation_id
    && row.status == RequestStatus.under_review
    && nat_beq row.version quote.version

abbrev pub cancelled_row : ℕ → QuoteRequest → QuoteRequest
cancelled_row decided_at row = record row {
  status = RequestStatus.cancelled;
  decision_reason = some "Substituído por uma nova solicitação de orçamento.";
  decided_at = some decided_at;
  version = row.version + 1;
}

unfoldable pub cancel_review :
    Draw
    → TransitionCommand
    → List QuoteRequest
    → QuoteRequest
    → Result (List QuoteRequest × Option SupersededQuote)
cancel_review draw input quotes quote = do
  throw_if (not (nat_beq (count_where (unchanged_review input quote) quotes) 1))
      (conflict "A solicitação anterior foi alterada durante a abertura do novo ciclo." none)
  ok (
    update_where (unchanged_review input quote) (cancelled_row draw.decided_at) quotes,
    some (record {
      id = quote.id;
      previous_version = quote.version;
      resulting_version = quote.version + 1;
    }),
  )

-- A new request takes the place of one under review.
unfoldable pub supersede :
    Draw
    → TransitionCommand
    → List QuoteRequest
    → Option QuoteRequest
    → Result (List QuoteRequest × Option SupersededQuote)
unfolding cancel_review
supersede draw input quotes none = ok (quotes, none)
supersede draw input quotes (some quote) =
    if (elim input.name [ TransitionName.new_quote_request ↦ true | _ ↦ false ])
      && quote.status == RequestStatus.under_review
    then cancel_review draw input quotes quote
    else ok (quotes, none)

abbrev no_details : QuoteDetails
no_details = record {
  contact_name = none;
  document = none;
  email = none;
  service_type = none;
  origin = none;
  destination = none;
  departure_date = none;
  departure_at = none;
  return_date = none;
  return_at = none;
  passenger_count = none;
  vehicle_type = none;
  vehicle_at_disposal = none;
  local_transfers = none;
  notes = none;
  structured_data = "{}";
}

unfoldable pub new_quote : Draw → TransitionCommand → List QuoteRequest → QuoteRequest
unfolding latest_quote
new_quote draw input quotes = record {
  id = draw.quote_id;
  company_id = input.company_id;
  conversation_id = input.conversation_id;
  sequence = sequence_of (latest_quote input.company_id input.conversation_id quotes) + 1;
  status = RequestStatus.collecting_information;
  details = no_details;
  confirmed_at = none;
  confirmed_summary = none;
  confirmed_version = none;
  decision_reason = none;
  decided_at = none;
  version = 1;
}

abbrev pub opens_quote : TransitionName → Bool
opens_quote TransitionName.new_quote_request = true
opens_quote TransitionName.start_quote = true
opens_quote _ = false

unfoldable pub open_quote :
    Draw
    → TransitionCommand
    → List QuoteRequest
    → Option QuoteRequest
    → List QuoteRequest × Option QuoteRequest
unfolding new_quote
open_quote draw input quotes quote =
    if opens_quote input.name
    then (quotes ++ new_quote draw input quotes ∷ [], some (new_quote draw input quotes))
    else (quotes, quote)

abbrev pub moves_quote : TransitionName → Bool
moves_quote TransitionName.present_quote_summary = true
moves_quote TransitionName.correct_quote = true
moves_quote TransitionName.confirm_quote = true
moves_quote _ = false

abbrev pub needs_complete_quote : TransitionName → Bool
needs_complete_quote TransitionName.present_quote_summary = true
needs_complete_quote TransitionName.confirm_quote = true
needs_complete_quote _ = false

abbrev pub confirms_quote : TransitionName → Bool
confirms_quote TransitionName.confirm_quote = true
confirms_quote _ = false

-- A confirmation keeps what was confirmed.
abbrev pub moved_row :
    Draw → TransitionCommand → RequestStatus → QuoteRequest → QuoteRequest → QuoteRequest
moved_row draw input status quote row = record row {
  status = status;
  confirmed_at = if confirms_quote input.name then some draw.confirmed_at else row.confirmed_at;
  confirmed_version =
      if confirms_quote input.name then some (quote.version + 1) else row.confirmed_version;
  confirmed_summary =
      if confirms_quote input.name then some quote.details else row.confirmed_summary;
  version = row.version + 1;
}

unfoldable pub move_quote :
    Draw
    → TransitionCommand
    → RequestStatus
    → List QuoteRequest
    → Option QuoteRequest
    → Result (List QuoteRequest × Option QuoteRequest)
unfolding assert_quote_complete
move_quote draw input status quotes none =
    err (validation_error "A conversa não possui uma solicitação de orçamento ativa.")
move_quote draw input status quotes (some quote) = do
  if needs_complete_quote input.name then assert_quote_complete quote.details else ok tt
  ok (
    update_where (λ row. row.id == quote.id && row.company_id == input.company_id)
        (moved_row draw input status quote) quotes,
    some (moved_row draw input status quote quote),
  )

unfoldable pub move_open_quote :
    Draw
    → TransitionCommand
    → RequestStatus
    → List QuoteRequest × Option QuoteRequest
    → Result (List QuoteRequest × Option QuoteRequest)
unfolding move_quote
move_open_quote draw input status (quotes, quote) =
    if moves_quote input.name then move_quote draw input status quotes quote else ok (quotes, quote)

-- The requests after the command, the current one, and the one that was superseded.
unfoldable pub advance_quotes :
    Draw
    → TransitionCommand
    → RequestStatus
    → List QuoteRequest
    → Option QuoteRequest
    → Result (List QuoteRequest × Option QuoteRequest × Option SupersededQuote)
unfolding supersede open_quote move_open_quote
advance_quotes draw input status quotes latest = do
  (remaining, superseded) ← supersede draw input quotes latest
  (moved, current) ← move_open_quote draw input status (open_quote draw input remaining latest)
  ok (moved, current, superseded)
