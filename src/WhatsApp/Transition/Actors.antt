-- ===== src/WhatsApp/Transition/Actors.antt =====
-- conversation-transition.matrix.ts: which actor may run which transition.
use lume_tenant_api.Base.{
  String, List, [], ◌∷◌, true, not, ℕ, nat_beq, Eq, ◌≡◌, ◌↔◌, arith, includes, Result, throw_if,
  forbidden,
}
use Prim.Native.String.{◌++◌}
use lume_tenant_api.WhatsApp.Constants.{
  TransitionName, present_main_menu, select_commercial, start_department_contact, start_quote,
  present_quote_summary, correct_quote, confirm_quote, proposal_delivery_confirmed,
  proposal_response_received, new_quote_request, return_to_main_menu, take_over, return_to_bot,
  forward, mark_read, close, close_after_rejection, resume_awaited_reply, resume_contextual_contact,
  reopen_after_customer_message, transition_text,
}

pub data TransitionActor : Type 0 where
  user webhook system : TransitionActor

abbrev pub actor_text : TransitionActor → String
actor_text user = "user"
actor_text webhook = "webhook"
actor_text system = "system"

abbrev pub actor_index : TransitionActor → ℕ
actor_index user = 0
actor_index webhook = 1
actor_index system = 2

pub actor_beq_iff :
    (a b : TransitionActor) → (nat_beq (actor_index a) (actor_index b) ≡ true) ↔ (a ≡ b)
actor_beq_iff a b = ground arith

instance abbrev pub actor_eq : Eq TransitionActor
actor_eq = record { beq = λ a b. nat_beq (actor_index a) (actor_index b); beq_iff = actor_beq_iff }

unfoldable pub actors_by_transition : TransitionName → List TransitionActor
actors_by_transition present_main_menu = system ∷ []
actors_by_transition select_commercial = system ∷ []
actors_by_transition start_department_contact = system ∷ []
actors_by_transition start_quote = system ∷ []
actors_by_transition new_quote_request = system ∷ []
actors_by_transition present_quote_summary = system ∷ []
actors_by_transition correct_quote = system ∷ []
actors_by_transition confirm_quote = system ∷ []
actors_by_transition proposal_delivery_confirmed = system ∷ []
actors_by_transition proposal_response_received = webhook ∷ system ∷ []
actors_by_transition return_to_main_menu = system ∷ []
actors_by_transition take_over = user ∷ []
actors_by_transition return_to_bot = user ∷ []
actors_by_transition forward = user ∷ system ∷ []
actors_by_transition mark_read = user ∷ []
actors_by_transition close = user ∷ []
actors_by_transition close_after_rejection = user ∷ []
actors_by_transition resume_awaited_reply = webhook ∷ system ∷ []
actors_by_transition resume_contextual_contact = webhook ∷ system ∷ []
actors_by_transition reopen_after_customer_message = webhook ∷ []

unfoldable pub assert_transition_actor : TransitionName → TransitionActor → Result (Unit {0})
unfolding actors_by_transition
assert_transition_actor name actor = throw_if (not (includes (actors_by_transition name) actor)) (
    forbidden (
      "O ator "
      ++ actor_text actor
      ++ " não pode executar a transição "
      ++ transition_text name
      ++ "."))
