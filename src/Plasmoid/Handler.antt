-- ===== src/Plasmoid/Handler.antt =====
-- components/plasmoid/src/SmartCardHandler.cpp: the card that a widget is bound to,
-- and the reads of its identity and photo. The signing of a reader is not here. A handler takes the
-- record to its new value; what it asks of the agent is appended to `log`, the latest first.
pub mod Slots
pub mod Machine
pub mod Privacy
pub mod Unasked
use libre_kde.Base.{
  ℕ, suc, Bool, true, false, not, ◌&&◌, ◌||◌, Text, is_empty, List, [], ◌∷◌, Option, none, some,
  if◌then◌else◌, ◌==◌,
}
use libre_kde.Shared.Agent.{Cap, pin_management, AgentState, ErrorCode, CallError, OperationStatus}
use libre_kde.Shared.ErrorText.{Texts, for_outcome}
use libre_kde.Shared.Registry.{AgentCard, AgentReader, AgentClient, has_capability}
use libre_kde.Plasmoid.Unit.{Chars}
use libre_kde.Plasmoid.CardState.{CardState, UiState, from_ui_state}
use libre_kde.Plasmoid.Reader.{
  Widget, pick_active_reader, compute_card_detected, set_bound_reader_name, select_reader,
}

-- The libraries' part: whether a card's token asks for an unlock before a read, the state that a set of
-- capabilities stands for, whether bytes decode to an image, and the classes of characters.
pub record Library : Type 0 where
  pub unlock_required : Text → Bool
  pub resolve_card_state : (Cap → Bool) → Bool → UiState
  pub decodes : List ℕ → Bool
  pub chars : Chars

pub data Request : Type 0 where
  read_identity get_photo : (card op : ℕ) → Request
  cancel : (op : ℕ) → Request
  start_agent_later : Request

-- The members of the class that the binding and the reads use. The identity is kept as the operation
-- gave it, before it is laid out; a photo is its bytes, and none where they are empty.
pub record Handler : Type 0 where
  pub widget : Widget
  pub card : Option AgentCard
  pub view_active : Bool
  pub state : CardState
  pub identity_op : Option ℕ
  pub photo_op : Option ℕ
  pub identity_read : Bool
  pub busy : Bool
  pub error_message : Text
  pub identity : List (Text × Text)
  pub photo : List ℕ
  pub pin_management_available : Bool
  pub card_detected : Bool
  pub reader_name : Text
  pub agent_installed : Bool
  pub agent_starting : Bool
  pub agent_start_failed : Bool
  pub next_op : ℕ
  pub log : List Request

abbrev pub is_live : Option ℕ → Bool
is_live none = false
is_live (some op) = true

abbrev pub cancelled : Option ℕ → List Request → List Request
cancelled none log = log
cancelled (some op) log = cancel op ∷ log

abbrev pub same_card : AgentCard → Option AgentCard → Bool
same_card card none = false
same_card card (some bound) = card.object == bound.object

-- Another card, or none: the reads of the last one are ended and what they gave is cleared.
unfoldable pub rebind : Option AgentCard → Handler → Handler
rebind card h = record h {
  log = cancelled h.photo_op (cancelled h.identity_op h.log);
  identity_op = none;
  photo_op = none;
  busy = if is_live h.identity_op then false else h.busy;
  card = card;
  identity_read = false;
  photo = [];
  identity = [];
}

-- `bindCard`. Where it returns early the bound card is the same object, as it stands now.
unfoldable pub bind_card : Option AgentCard → Handler → Handler
unfolding rebind
bind_card none h = rebind none h
bind_card (some card) h =
    if same_card card h.card then record h { card = some card } else rebind (some card) h

-- `readIdentity`, on a card.
read_on : Option AgentCard → Handler → Handler
read_on none h = h
read_on (some card) h = if is_live h.identity_op then h else record h {
  error_message = [];
  identity_op = some h.next_op;
  busy = true;
  next_op = suc h.next_op;
  log = read_identity card.object h.next_op ∷ h.log;
}

unfoldable pub read_now : Handler → Handler
unfolding read_on
read_now h = read_on h.card h

abbrev pub shows_identity : CardState → Bool
shows_identity CardState.identity_only = true
shows_identity CardState.hybrid = true
shows_identity _ = false

-- `ensureFreeRead`, on a card.
free_read_on : Library → Option AgentCard → Handler → Handler
unfolding read_now
free_read_on library none h = h
free_read_on library (some card) h =
    if library.unlock_required card.pre_read_auth || h.identity_read || is_live h.identity_op
    then h
    else if not (shows_identity h.state)
    then h
    else read_now h

unfoldable pub ensure_free_read : Library → Handler → Handler
unfolding free_read_on
ensure_free_read library h = free_read_on library h.card h

-- The state that `classifyActiveCard` gives, of the card.
unfoldable pub card_state : Library → Option AgentCard → Bool → CardState
unfolding from_ui_state
card_state library none identity_read = CardState.no_card
card_state library (some card) identity_read = from_ui_state (
    if library.unlock_required card.pre_read_auth && not identity_read
    then UiState.pre_auth_required
    else library.resolve_card_state card.capabilities identity_read)

abbrev manages_pins : Option AgentCard → Bool
manages_pins none = false
manages_pins (some card) = has_capability card pin_management

-- `updatePinManagementAvailable`.
unfoldable pub update_pin_management : Handler → Handler
update_pin_management h = record h { pin_management_available = manages_pins h.card }

-- `classifyActiveCard`. Without a card there is nothing for the free read to read.
unfoldable pub classify_active_card : Library → Handler → Handler
unfolding card_state ensure_free_read update_pin_management
classify_active_card library h =
    let classified = record (update_pin_management h) {
      state = card_state library h.card h.identity_read;
    } in
    if h.view_active then ensure_free_read library classified else classified

-- The branches of `refresh` without an agent and without a reader to show.
unfoldable pub without_agent : Handler → Handler
unfolding update_pin_management bind_card
without_agent h = record (update_pin_management (bind_card none h)) {
  reader_name = [];
  error_message = [];
  card_detected = false;
  identity_read = false;
  agent_installed = elim h.widget.client.agent_state [ AgentState.missing ↦ false | _ ↦ true ];
  state = CardState.agent_unavailable;
}

unfoldable pub without_reader : Library → Handler → Handler
unfolding update_pin_management bind_card
without_reader library h = record (update_pin_management (bind_card none h)) {
  reader_name = h.widget.bound_reader_name;
  error_message = [];
  card_detected = compute_card_detected library.chars h.widget;
  identity_read = false;
  state = CardState.no_card;
}

unfoldable pub show_reader : Library → Option AgentReader → Handler → Handler
unfolding without_reader classify_active_card bind_card
show_reader library none h = without_reader library h
show_reader library (some reader) h =
    classify_active_card library
      (bind_card reader.card (record h { card_detected = false; reader_name = reader.name }))

-- `refresh`.
unfoldable pub refresh : Library → Handler → Handler
unfolding without_agent show_reader
refresh library h =
    if not h.widget.client.is_available
    then without_agent h
    else show_reader library (pick_active_reader library.chars h.widget) h
