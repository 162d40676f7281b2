-- ===== src/Credentials/Controller/Machine.antt =====
-- components/credentials/src/CredentialController.cpp: the handlers as one step on the events that the
-- event loop delivers. A terminal of an operation is delivered while the controller holds that
-- operation: letting go of one disconnects it.
use libre_kde.Base.{
  ℕ, Bool, true, false, Text, List, Option, none, some, if◌then◌else◌, ◌==◌, ◌≡◌, ◌⊎◌,
}
use libre_kde.Shared.Agent.{OperationStatus}
use libre_kde.Shared.ErrorText.{Texts}
use libre_kde.Shared.Registry.{AgentCard, AgentClient}
use libre_kde.Credentials.Model.{CredentialRecord}
use libre_kde.Credentials.Controller.{Controller}
use libre_kde.Credentials.Controller.Binding.{
  classify, refresh, bind_reader, on_list_finished, cancel_all, start_agent,
  on_agent_start_finished,
}
use libre_kde.Credentials.Controller.Verbs.{
  Report, change_pin, activate, activate_key, request_unblock, confirm_unblock, on_mutation_done,
}

-- `registry`: a signal of the client, with its answers from then on. `card_changed`: a signal of the
-- bound card, as it is from then on. `card_destroyed`: the client deletes the bound card, and with it
-- the operations on it.
pub data Event : Type 0 where
  registry : AgentClient → Event
  card_changed : AgentCard → Event
  card_destroyed : Event
  list_finished : ℕ → OperationStatus → List CredentialRecord → Event
  mutation_finished : ℕ → Report → Event
  bind : Text → Event
  cancel_pressed : Event
  change_pressed activate_pressed activate_key_pressed unblock_pressed unblock_confirmed :
      Text → Event
  start_pressed start_answered : Event

-- The operation is the one that is held.
abbrev pub holds : Option ℕ → ℕ → Bool
holds none op = false
holds (some held) op = held == op

unfoldable pub changed_card : Option AgentCard → AgentCard → Option AgentCard
changed_card none card = none
changed_card (some bound) card = if bound.object == card.object then some card else some bound

abbrev pub is_bound : Option AgentCard → Bool
is_bound none = false
is_bound (some card) = true

unfoldable pub step : Texts → Controller → Event → Controller
unfolding changed_card
step texts s (registry client) = refresh texts (record s { client = client })
step texts s (card_changed card) =
    let seen = record s { card = changed_card s.card card } in
    if is_bound s.card then classify seen else s
step texts s card_destroyed = record s { card = none; list_op = none; mutation_op = none }
step texts s (list_finished op status records) =
    let done = on_list_finished status records s in if holds s.list_op op then done else s
step texts s (mutation_finished op report) =
    let done = on_mutation_done texts report s in if holds s.mutation_op op then done else s
step texts s (bind id) = bind_reader texts id s
step texts s cancel_pressed = cancel_all s
step texts s (change_pressed id) = change_pin id s
step texts s (activate_pressed id) = activate id s
step texts s (activate_key_pressed id) = activate_key id s
step texts s (unblock_pressed id) = request_unblock texts id s
step texts s (unblock_confirmed id) = confirm_unblock id s
step texts s start_pressed = start_agent texts s
step texts s start_answered = on_agent_start_finished texts s

-- Before the client deletes a card it ends the operations on it: what may still be in flight is the
-- re-list that such an end has started.
abbrev pub Possible : Controller → Event → Type 0
Possible s card_destroyed =
    (s.mutation_op ≡ none) × ((s.list_op ≡ none) ⊎ (s.showing_result ≡ true))
Possible s _ = Unit {0}

-- The controllers that sequences of events lead to.
pub data Reached (texts : Texts) (first : Controller) : Controller → Type 0 where
  start : Reached texts first first
  after :
      {s : Controller}
      → Reached texts first s
      → (event : Event) → Possible s event
      → Reached texts first (step texts s event)
