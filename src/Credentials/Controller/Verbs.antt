-- ===== src/Credentials/Controller/Verbs.antt =====
-- components/credentials/src/CredentialController.cpp: the PIN and signing-key verbs, and how one ends.
use libre_kde.Base.{
  ℕ, suc, Bool, true, false, ◌&&◌, ◌||◌, not, Text, codes, List, [], ◌∷◌, Option, none, some,
  if◌then◌else◌, get_elem?,
}
use libre_kde.Base.Decimal.{decimal}
use libre_kde.Shared.Agent.{ErrorCode, CallError, SyncError, OperationStatus}
use libre_kde.Shared.ErrorText.{Texts, say, for_outcome}
use libre_kde.Shared.CredentialText.{
  CredentialKind, CredentialOutcome, kind_name, outcome_message, is_neutral,
}
use libre_kde.Shared.Registry.{AgentCard}
use libre_kde.Credentials.Model.{CredentialRecord, record_by_id, row_of_puk}
use libre_kde.Credentials.Controller.{
  working, result, change, unblock, activate_pin, Request, manage_pin, activate_signing_key,
  unblock_confirm, Controller, is_live, cancelled, reset_list_state,
}
use libre_kde.Credentials.Controller.Binding.{start_list_credentials}

kind_of_record : Option CredentialRecord → CredentialKind
kind_of_record none = CredentialKind.unknown
kind_of_record (some r) = r.kind

-- `kindOf`.
unfoldable pub kind_of : Controller → Text → CredentialKind
unfolding kind_of_record
kind_of s id = kind_of_record (record_by_id s.model id)

-- `canStartMutation`: the card of a verb that may start.
abbrev pub startable : Controller → Option AgentCard
startable s = if is_live s.mutation_op then none else s.card

-- `beginMutation`, with the request that mints the operation.
unfoldable pub begin_mutation : Request → CredentialKind → Controller → Controller
begin_mutation request presented s = record s {
  pending_presented_kind = presented;
  removal_notice = [];
  log = cancelled s.list_op (request ∷ s.log);
  list_op = none;
  list_settled = if is_live s.list_op then false else s.list_settled;
  list_cancel_requested = if is_live s.list_op then false else s.list_cancel_requested;
  showing_result = if is_live s.list_op then false else s.showing_result;
  mutation_op = some s.next_op;
  next_op = suc s.next_op;
  mutation_cancel_requested = false;
  state = working;
}

-- A verb on the card where it may start.
unfoldable pub when_startable :
    Option AgentCard → (AgentCard → Controller) → Controller → Controller
when_startable none act s = s
when_startable (some card) act s = act card

unfoldable pub change_pin : Text → Controller → Controller
unfolding when_startable begin_mutation
change_pin id s =
    when_startable (startable s)
      (λ card. begin_mutation (manage_pin card.object s.next_op id change false) (kind_of s id) s) s

is_pending : Option CredentialRecord → Bool
is_pending none = false
is_pending (some r) = r.key_activation_pending

unfoldable pub activate : Text → Controller → Controller
unfolding when_startable begin_mutation is_pending
activate id s =
    when_startable (startable s)
      (λ card.
        begin_mutation
          (manage_pin card.object s.next_op id activate_pin (is_pending (record_by_id s.model id)))
          (kind_of s id) s)
      s

-- `activateSigningKey`.
unfoldable pub activate_key : Text → Controller → Controller
unfolding when_startable begin_mutation
activate_key id s =
    when_startable (startable s)
      (λ card. begin_mutation (activate_signing_key card.object s.next_op) CredentialKind.sign s) s

uses_text : Texts → Text → Option ℕ → Option ℕ → Text
uses_text texts who none max = []
uses_text texts who (some left) (some max) =
    texts.translate (codes "%1: %2 of %3 unblocks left") (who ∷ decimal left ∷ decimal max ∷ [])
uses_text texts who (some left) none =
    texts.translate (codes "%1: %2 unblocks left") (who ∷ decimal left ∷ [])

budget_of : Texts → Option CredentialRecord → Text
unfolding uses_text
budget_of texts none = []
budget_of texts (some puk) =
    uses_text texts (kind_name texts CredentialKind.puk) puk.uses_left puk.uses_max

-- The record that the row of the PUK names, by its id.
puk_record : List CredentialRecord → Option ℕ → Option CredentialRecord
puk_record model none = none
puk_record model (some row) = elim (get_elem? model row) [
  | none ↦ none
  | some r ↦ record_by_id model r.id
]

-- `requestUnblock`.
unfoldable pub request_unblock : Texts → Text → Controller → Controller
unfolding when_startable budget_of puk_record
request_unblock texts id s =
    when_startable (startable s)
      (λ card. record s {
        log =
            unblock_confirm id (budget_of texts (puk_record s.model (row_of_puk 0 s.model)))
            ∷ s.log;
      })
      s

-- `confirmUnblock`.
unfoldable pub confirm_unblock : Text → Controller → Controller
unfolding when_startable begin_mutation
confirm_unblock id s =
    when_startable (startable s)
      (λ card.
        begin_mutation (manage_pin card.object s.next_op id unblock false) CredentialKind.puk s)
      s

-- What the slot reads of an operation that has ended.
pub record Report : Type 0 where
  pub status : OperationStatus
  pub outcome : CredentialOutcome
  pub retries_left : Option ℕ
  pub error_code : ErrorCode
  pub call_error : CallError
  pub sync_error : Option SyncError
  pub message_key : Text
  pub message_fallback : Text

-- `relistAfterMutation`.
unfoldable pub relist_after_mutation : Controller → Controller
unfolding reset_list_state start_list_credentials
relist_after_mutation s =
    start_list_credentials (record (reset_list_state s) { showing_result = true })

abbrev pub notice : Text → Controller → Controller
notice message s = record s { result_is_error = false; result_message = message; state = result }

-- `handleRefusal`.
unfoldable pub handle_refusal : Texts → SyncError → Controller → Controller
unfolding relist_after_mutation
handle_refusal texts SyncError.unknown_credential s =
    relist_after_mutation
      (notice (say texts (codes "The card's credentials changed; the list was refreshed.")) s)
handle_refusal texts SyncError.rate_limited s =
    notice (say texts (codes "Please wait a moment before trying again.")) s
handle_refusal texts SyncError.invalid_request s =
    notice (say texts (codes "The card refused the request.")) s
handle_refusal texts _ s =
    relist_after_mutation (notice (say texts (codes "The action could not be started.")) s)

-- The codes of an operation that the client ended itself: the card was pulled, or the agent vanished.
abbrev pub is_sweep : ErrorCode → Bool
is_sweep ErrorCode.card_removed = true
is_sweep ErrorCode.communication_error = true
is_sweep _ = false

abbrev pub is_removal : ErrorCode → Bool
is_removal ErrorCode.card_removed = true
is_removal _ = false

abbrev pub is_cancelled : OperationStatus → Bool
is_cancelled OperationStatus.cancelled = true
is_cancelled _ = false

abbrev pub is_unspecified : CredentialOutcome → Bool
is_unspecified CredentialOutcome.unspecified = true
is_unspecified _ = false

abbrev pub is_card_removed : CredentialOutcome → Bool
is_card_removed CredentialOutcome.card_removed = true
is_card_removed _ = false

-- Whether the end of the operation is the user's own cancel.
abbrev pub was_cancelled : Report → Controller → Bool
was_cancelled r s =
    s.mutation_cancel_requested || (is_cancelled r.status && not (is_sweep r.error_code))

-- The outcome, or the card's removal where only the error code tells it.
abbrev pub effective_outcome : Report → Controller → CredentialOutcome
effective_outcome r s =
    if not (was_cancelled r s) && (is_unspecified r.outcome && is_removal r.error_code)
    then CredentialOutcome.card_removed
    else r.outcome

unfoldable pub result_text : Texts → Report → Controller → Text
result_text texts r s =
    let effective = effective_outcome r s in
    let told = outcome_message texts effective s.pending_presented_kind r.retries_left in
    if was_cancelled r s
    then (if is_unspecified effective then [] else told)
    else if is_unspecified effective
    then for_outcome texts r.error_code r.call_error r.message_key r.message_fallback
    else told

unfoldable pub outcome_shown : Texts → Report → Controller → Controller
unfolding result_text
outcome_shown texts r s = record s {
  mutation_op = none;
  mutation_cancel_requested = false;
  result_is_error = not (was_cancelled r s) && not (is_neutral (effective_outcome r s));
  result_message = result_text texts r s;
  state = result;
}

unfoldable pub finish_outcome : Texts → Report → Controller → Controller
unfolding outcome_shown relist_after_mutation
finish_outcome texts r s =
    let shown = outcome_shown texts r s in
    if is_card_removed (effective_outcome r s)
    then record shown { removal_notice = result_text texts r s }
    else relist_after_mutation shown

unfoldable pub settle : Texts → Report → Option SyncError → Controller → Controller
unfolding finish_outcome handle_refusal
settle texts r none s = finish_outcome texts r s
settle texts r (some named) s =
    handle_refusal texts named (record s { mutation_op = none; mutation_cancel_requested = false })

-- `onMutationDone`, for the operation that is in flight.
unfoldable pub on_mutation_done : Texts → Report → Controller → Controller
unfolding settle
on_mutation_done texts r s = settle texts r r.sync_error s
