-- ===== src/Credentials/Controller.antt =====
-- components/credentials/src/CredentialController.cpp: the state of the window, and its binding to
-- a card. A handler takes the controller to its new value; what it asks of the agent, and of the QML side, is appended
-- to `log`, the latest first. Property notifications are left out.
pub mod Binding
pub mod Verbs
pub mod Machine
pub mod Invariant
pub mod Soundness
pub mod Owed
pub mod Ending
pub mod Calm
pub mod Told
pub mod Listing
pub mod Pinned
use libre_kde.Base.{
  ℕ, suc, Bool, true, false, ◌&&◌, ◌||◌, not, Text, codes, is_empty, text_eq, List, [], ◌∷◌, Option,
  none, some, if◌then◌else◌, ◌==◌,
}
use libre_kde.Shared.Agent.{Cap, pin_management, OperationStatus}
use libre_kde.Shared.ErrorText.{Texts}
use libre_kde.Shared.CredentialText.{CredentialKind}
use libre_kde.Shared.Registry.{
  AgentCard, AgentReader, AgentClient, has_capability, first_reader_with_card, reader_label,
}
use libre_kde.Credentials.Model.{CredentialRecord}

pub data State : Type 0 where
  agent_unavailable no_card not_manageable loading ready empty working result read_failed : State

pub data PinVerb : Type 0 where
  change unblock activate_pin : PinVerb

-- What the controller asks for: operations of the agent under their number, the cancel of one, the
-- start of the agent, and the confirm sheet of the window.
pub data Request : Type 0 where
  list_credentials : (card op : ℕ) → Request
  manage_pin : (card op : ℕ) → Text → PinVerb → Bool → Request
  activate_signing_key : (card op : ℕ) → Request
  cancel : (op : ℕ) → Request
  start_agent_later : Request
  unblock_confirm : Text → Text → Request

-- The members of the class, with the agent client's answers as they stand, the number of the next
-- operation, and the log. A QPointer is `none` once its object is destroyed.
pub record Controller : Type 0 where
  pub has_client : Bool
  pub client : AgentClient
  pub card : Option AgentCard
  pub list_op : Option ℕ
  pub mutation_op : Option ℕ
  pub model : List CredentialRecord
  pub reader_id : Text
  pub reader_label : Text
  pub resolved_reader_id : Text
  pub result_message : Text
  pub result_is_error : Bool
  pub agent_starting : Bool
  pub removal_notice : Text
  pub pending_presented_kind : CredentialKind
  pub showing_result : Bool
  pub mutation_cancel_requested : Bool
  pub list_cancel_requested : Bool
  pub state : State
  pub list_settled : Bool
  pub next_op : ℕ
  pub log : List Request

-- The controller as it is constructed; the first `refresh` is queued.
unfoldable pub init : Bool → AgentClient → Controller
init has_client client = record {
  has_client = has_client;
  client = client;
  card = none;
  list_op = none;
  mutation_op = none;
  model = [];
  reader_id = [];
  reader_label = [];
  resolved_reader_id = [];
  result_message = [];
  result_is_error = false;
  agent_starting = false;
  removal_notice = [];
  pending_presented_kind = CredentialKind.unknown;
  showing_result = false;
  mutation_cancel_requested = false;
  list_cancel_requested = false;
  state = no_card;
  list_settled = false;
  next_op = 0;
  log = [];
}

abbrev pub is_live : Option ℕ → Bool
is_live none = false
is_live (some op) = true

-- The log with the cancel of an operation that is live.
abbrev pub cancelled : Option ℕ → List Request → List Request
cancelled none log = log
cancelled (some op) log = cancel op ∷ log

-- `resetListState`.
unfoldable pub reset_list_state : Controller → Controller
reset_list_state s = record s {
  log = cancelled s.list_op s.log;
  list_op = none;
  list_settled = false;
  list_cancel_requested = false;
  showing_result = false;
}

-- `detachMutation`.
unfoldable pub detach_mutation : Controller → Controller
detach_mutation s = record s {
  log = cancelled s.mutation_op s.log;
  mutation_op = none;
  mutation_cancel_requested = false;
  pending_presented_kind = CredentialKind.unknown;
}

abbrev same_card : AgentCard → Option AgentCard → Bool
same_card card none = false
same_card card (some bound) = card.object == bound.object

rebind : Option AgentCard → Controller → Controller
rebind none s = record (detach_mutation (reset_list_state s)) { card = none }
rebind (some card) s = record (detach_mutation (reset_list_state s)) {
  card = some card;
  removal_notice = [];
}

-- `bindCard`. Where it returns early the bound card is the same object, as it stands now.
unfoldable pub bind_card : Option AgentCard → Controller → Controller
unfolding rebind reset_list_state detach_mutation
bind_card none s = rebind none s
bind_card (some card) s =
    if same_card card s.card then record s { card = some card } else rebind (some card) s
