-- ===== src/Plasmoid/Handler/Slots.antt =====
-- components/plasmoid/src/SmartCardHandler.cpp: the slots, and the construction.
use libre_kde.Base.{
  ℕ, suc, Bool, true, false, not, ◌&&◌, Text, is_empty, List, [], ◌∷◌, Option, none, some,
  if◌then◌else◌,
}
use libre_kde.Shared.Agent.{ErrorCode, CallError, OperationStatus}
use libre_kde.Shared.ErrorText.{Texts, for_outcome}
use libre_kde.Shared.Registry.{AgentCard, AgentClient}
use libre_kde.Plasmoid.CardState.{CardState}
use libre_kde.Plasmoid.Handler.{
  Library, get_photo, start_agent_later, Handler, is_live, ensure_free_read, classify_active_card,
  refresh,
}

-- What a slot reads of a read that has ended. `payload` is the first photo, as far as it could be read.
pub record Report : Type 0 where
  pub status : OperationStatus
  pub error_code : ErrorCode
  pub call_error : CallError
  pub message_key : Text
  pub message_fallback : Text
  pub identity : List (Text × Text)
  pub payload : Option (List ℕ)

unfoldable pub is_cancel : OperationStatus → ErrorCode → CallError → Bool
is_cancel OperationStatus.cancelled ErrorCode.none CallError.none = true
is_cancel _ _ _ = false

unfoldable pub is_ok : OperationStatus → Bool
is_ok OperationStatus.ok = true
is_ok _ = false

-- `startPhotoRead`, on a card.
unfoldable pub photo_on : Option AgentCard → Handler → Handler
photo_on none h = h
photo_on (some card) h = if is_live h.photo_op then h else record h {
  photo_op = some h.next_op;
  next_op = suc h.next_op;
  log = get_photo card.object h.next_op ∷ h.log;
}

unfoldable pub start_photo_read : Handler → Handler
unfolding photo_on
start_photo_read h = photo_on h.card h

-- `onOperationFinished`, for the read of the identity that is in flight.
unfoldable pub on_operation_finished : Texts → Library → Report → Handler → Handler
unfolding is_cancel is_ok classify_active_card start_photo_read
on_operation_finished texts library r h =
    let over = record h { identity_op = none; busy = false } in
    if is_cancel r.status r.error_code r.call_error
    then classify_active_card library (record over { error_message = [] })
    else if not (is_ok r.status)
    then record over {
      error_message = for_outcome texts r.error_code r.call_error r.message_key r.message_fallback;
      state = CardState.error;
    }
    else start_photo_read
        (classify_active_card library (record over { identity_read = true; identity = r.identity }))

unfoldable pub keep_photo : Library → Option (List ℕ) → Handler → Handler
keep_photo library none h = h
keep_photo library (some bytes) h =
    if not (is_empty bytes) && library.decodes bytes then record h { photo = bytes } else h

-- `onPhotoFinished`, for the read of the photo that is in flight.
unfoldable pub on_photo_finished : Library → Report → Handler → Handler
unfolding is_ok keep_photo
on_photo_finished library r h =
    let over = record h { photo_op = none } in
    if is_ok r.status then keep_photo library r.payload over else over

-- `setViewActive`.
unfoldable pub set_view_active : Library → Bool → Handler → Handler
unfolding ensure_free_read
set_view_active library active h =
    let moved = record h { view_active = active } in
    if active && not h.view_active then ensure_free_read library moved else moved

-- `startAgent`, and the answer to it: whether the start failed.
unfoldable pub start_agent : Handler → Handler
start_agent h =
    if h.agent_starting
    then h
    else record h { agent_starting = true; log = start_agent_later ∷ h.log }

unfoldable pub on_agent_start_finished : Library → Bool → Handler → Handler
unfolding refresh
on_agent_start_finished library failed h =
    if h.agent_starting
    then refresh library (record h { agent_starting = false; agent_start_failed = failed })
    else h

-- The members as they are declared.
abbrev pub blank_handler : AgentClient → Handler
blank_handler client = record {
  widget = record { client = client; bound_reader_name = []; selected_reader_name = [] };
  card = none;
  view_active = false;
  state = CardState.no_card;
  identity_op = none;
  photo_op = none;
  identity_read = false;
  busy = false;
  error_message = [];
  identity = [];
  photo = [];
  pin_management_available = false;
  card_detected = false;
  reader_name = [];
  agent_installed = false;
  agent_starting = false;
  agent_start_failed = false;
  next_op = 0;
  log = [];
}

-- The constructor, with its refresh.
unfoldable pub new_handler : Library → AgentClient → Handler
unfolding refresh
new_handler library client = refresh library (blank_handler client)
