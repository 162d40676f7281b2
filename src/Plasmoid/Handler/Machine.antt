-- ===== src/Plasmoid/Handler/Machine.antt =====
-- components/plasmoid/src/SmartCardHandler.cpp: the handlers as one step on what the event loop delivers.
use libre_kde.Base.{
  ℕ, Bool, false, not, ◌||◌, is_empty, List, [], ◌∷◌, Text, text_eq, Option, none, some,
  if◌then◌else◌, ◌==◌, ◌≡◌,
}
use libre_kde.Shared.ErrorText.{Texts}
use libre_kde.Shared.Registry.{AgentCard, AgentClient}
use libre_kde.Plasmoid.Reader.{set_bound_reader_name, select_reader}
use libre_kde.Plasmoid.Handler.{
  Library, Handler, same_card, refresh, classify_active_card, read_now,
}
use libre_kde.Plasmoid.Handler.Slots.{
  Report, on_operation_finished, on_photo_finished, set_view_active, start_agent,
  on_agent_start_finished,
}

-- `registry`: a signal of the client, with its answers from then on. `card_changed`: one of the bound
-- card, as it is from then on. `card_destroyed`: the client deletes the bound card, and with it the
-- operations on it; the signal of its registry is an event of its own, behind it. `read_pressed`: the user asks for a read.
pub data Event : Type 0 where
  registry : AgentClient → Event
  card_changed : AgentCard → Event
  card_destroyed : Event
  identity_finished photo_finished : ℕ → Report → Event
  view_moved : Bool → Event
  reader_bound reader_selected : Text → Event
  read_pressed start_pressed : Event
  start_answered : Bool → Event

abbrev pub holds : Option ℕ → ℕ → Bool
holds none op = false
holds (some held) op = held == op

unfoldable pub step : Texts → Library → Handler → Event → Handler
step texts library h (registry client) =
    refresh library (record h { widget = record h.widget { client = client } })
step texts library h (card_changed card) =
    let seen = classify_active_card library (record h { card = some card }) in
    if same_card card h.card then seen else h
step texts library h card_destroyed = record h { card = none; identity_op = none; photo_op = none }
step texts library h (identity_finished op r) =
    let done = on_operation_finished texts library r h in if holds h.identity_op op then done else h
step texts library h (photo_finished op r) =
    let done = on_photo_finished library r h in if holds h.photo_op op then done else h
step texts library h (view_moved active) = set_view_active library active h
step texts library h (reader_bound name) =
    let moved = refresh library (record h { widget = set_bound_reader_name name h.widget }) in
    if text_eq h.widget.bound_reader_name name then h else moved
step texts library h (reader_selected name) =
    let moved = refresh library (record h { widget = select_reader name h.widget }) in
    if not (is_empty h.widget.bound_reader_name) || text_eq h.widget.selected_reader_name name
    then h
    else moved
step texts library h read_pressed = read_now h
step texts library h start_pressed = start_agent h
step texts library h (start_answered failed) = on_agent_start_finished library failed h

unfoldable pub run : Texts → Library → Handler → List Event → Handler
run texts library h [] = h
run texts library h (e ∷ events) = run texts library (step texts library h e) events

-- Before the client deletes a card it ends the operations on it, and so a read of its identity. The read
-- of a photo that the end of one starts may still be in flight.
abbrev pub Possible : Handler → Event → Type 0
Possible h card_destroyed = h.identity_op ≡ none
Possible h _ = Unit {0}

abbrev pub AllPossible : Texts → Library → Handler → List Event → Type 0
AllPossible texts library h [] = Unit {0}
AllPossible texts library h (e ∷ events) =
    Possible h e × AllPossible texts library (step texts library h e) events
