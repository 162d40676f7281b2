-- ===== src/Credentials/Controller/Binding.antt =====
-- components/credentials/src/CredentialController.cpp: the card and its list, from refresh to cancel.
use libre_kde.Base.{
  suc, true, false, ◌&&◌, ◌||◌, not, Text, is_empty, text_eq, List, [], ◌∷◌, Option, none, some,
  if◌then◌else◌,
}
use libre_kde.Shared.Agent.{pin_management, OperationStatus}
use libre_kde.Shared.ErrorText.{Texts}
use libre_kde.Shared.Registry.{
  AgentCard, AgentReader, AgentClient, has_capability, first_reader_with_card, reader_label,
}
use libre_kde.Credentials.Model.{CredentialRecord}
use libre_kde.Credentials.Controller.{
  State, agent_unavailable, no_card, not_manageable, loading, ready, empty, read_failed,
  list_credentials, start_agent_later, Controller, is_live, cancelled, reset_list_state,
  detach_mutation, bind_card,
}

-- No surface for the card: its list and rows are dropped.
unfoldable pub abandon_list : State → Controller → Controller
abandon_list next s = record (reset_list_state s) { model = []; state = next }

unfoldable pub list_bound : AgentCard → Controller → Controller
list_bound card s =
    if is_live s.mutation_op || is_live s.list_op || s.list_settled then s else record s {
      list_op = some s.next_op;
      next_op = suc s.next_op;
      log = list_credentials card.object s.next_op ∷ s.log;
      state = if s.showing_result then s.state else loading;
    }

-- `startListCredentials`.
unfoldable pub start_list_credentials : Controller → Controller
unfolding list_bound abandon_list reset_list_state
start_list_credentials s = elim s.card [
  | none ↦ abandon_list no_card s
  | some card ↦ list_bound card s
]

unfoldable pub classify_card : Option AgentCard → Controller → Controller
unfolding list_bound abandon_list reset_list_state
classify_card none s = abandon_list no_card s
classify_card (some card) s =
    if has_capability card pin_management then list_bound card s else abandon_list not_manageable s

-- `classify`.
unfoldable pub classify : Controller → Controller
unfolding classify_card
classify s = classify_card s.card s

-- No reader to manage: the binding is dropped.
unfoldable pub unbind : State → Controller → Controller
unfolding bind_card
unbind next s = record (bind_card none (record s { resolved_reader_id = [] })) {
  reader_label = [];
  state = next;
}

-- A reader to manage was found.
unfoldable pub manage : Texts → AgentReader → Controller → Controller
unfolding bind_card classify
manage texts reader s = classify (
    bind_card reader.card
      (record s { resolved_reader_id = reader.id; reader_label = reader_label texts reader }))

abbrev or_first : Option AgentReader → AgentClient → Option AgentReader
or_first none client = first_reader_with_card client
or_first (some reader) client = some reader

-- The explicit binding where it resolves, and else the first reader that holds a card.
unfoldable pub target : Controller → Option AgentReader
target s = or_first (if is_empty s.reader_id then none else s.client.reader s.reader_id) s.client

unfoldable pub manage_target : Texts → Option AgentReader → Controller → Controller
unfolding unbind manage
manage_target texts none s = unbind no_card s
manage_target texts (some reader) s = manage texts reader s

-- `refresh`.
unfoldable pub refresh : Texts → Controller → Controller
unfolding manage_target target unbind
refresh texts s =
    if not s.has_client || not s.client.is_available
    then unbind agent_unavailable s
    else if is_live s.mutation_op
    then s
    else manage_target texts (target s) s

-- `bindReader`.
unfoldable pub bind_reader : Texts → Text → Controller → Controller
unfolding refresh reset_list_state detach_mutation
bind_reader texts id s =
    let retarget = is_live s.mutation_op && not (text_eq id s.resolved_reader_id) in
    refresh texts
      (record (if retarget then reset_list_state (detach_mutation s) else s) { reader_id = id })

-- `onListFinished`, for the operation that is in flight.
unfoldable pub on_list_finished : OperationStatus → List CredentialRecord → Controller → Controller
on_list_finished OperationStatus.ok records s = record s {
  list_op = none;
  list_cancel_requested = false;
  showing_result = false;
  list_settled = true;
  model = records;
  state = if is_empty records then empty else ready;
}
on_list_finished OperationStatus.cancelled records s = record s {
  list_op = none;
  list_cancel_requested = false;
  showing_result = false;
  list_settled = true;
  model = [];
  state = read_failed;
}
on_list_finished OperationStatus.error records s = record s {
  list_op = none;
  list_cancel_requested = false;
  showing_result = false;
  list_settled = s.list_cancel_requested;
  model = [];
  state = read_failed;
}

-- `cancel`.
unfoldable pub cancel_all : Controller → Controller
cancel_all s = record s {
  mutation_cancel_requested = s.mutation_cancel_requested || is_live s.mutation_op;
  list_cancel_requested = s.list_cancel_requested || is_live s.list_op;
  log = cancelled s.list_op (cancelled s.mutation_op s.log);
}

-- `startAgent`, and the answer to it.
unfoldable pub start_agent : Texts → Controller → Controller
unfolding refresh
start_agent texts s =
    if s.agent_starting
    then s
    else if not s.has_client
    then refresh texts s
    else record s { agent_starting = true; log = start_agent_later ∷ s.log }

unfoldable pub on_agent_start_finished : Texts → Controller → Controller
unfolding refresh
on_agent_start_finished texts s =
    if s.agent_starting then refresh texts (record s { agent_starting = false }) else s
