-- ===== src/Credentials/Controller/Pinned.antt =====
-- components/credentials/src/CredentialController.cpp: a verb in flight keeps the binding it was begun on.
use libre_kde.Base.{ℕ, true, false, In, text_eq_refl, none, ◌≡◌, refl, arith, pick}
use libre_kde.Shared.ErrorText.{Texts}
use libre_kde.Credentials.Controller.{cancel, Controller, is_live}
use libre_kde.Credentials.Controller.Binding.{
  refresh, bind_reader, start_agent, on_agent_start_finished,
}
use libre_kde.Credentials.Controller.Verbs.{
  change_pin, activate, activate_key, request_unblock, confirm_unblock, when_startable,
}
use libre_kde.Credentials.Controller.Machine.{
  Event, registry, card_changed, card_destroyed, list_finished, mutation_finished, bind,
  cancel_pressed, change_pressed, activate_pressed, activate_key_pressed, unblock_pressed,
  unblock_confirmed, start_pressed, start_answered, holds, step,
}

-- The event neither ends the verb nor is the user's or the client's word to leave it.
abbrev pub Undisturbing : Controller → Event → Type 0
Undisturbing s (registry client) = client.is_available ≡ true
Undisturbing s (bind id) = id ≡ s.resolved_reader_id
Undisturbing s (card_changed card) = ⊥
Undisturbing s card_destroyed = ⊥
Undisturbing s (mutation_finished op report) = holds s.mutation_op op ≡ false
Undisturbing s cancel_pressed = ⊥
Undisturbing s _ = Unit {0}

abbrev pub IsKept : Controller → Controller → Type 0
IsKept s t =
    (t.card ≡ s.card)
    × (t.mutation_op ≡ s.mutation_op)
    × (t.list_op ≡ s.list_op)
    × (t.state ≡ s.state)
    × (t.model ≡ s.model)
    × (t.resolved_reader_id ≡ s.resolved_reader_id)
    × (t.pending_presented_kind ≡ s.pending_presented_kind)
    × (t.next_op ≡ s.next_op)
    × ((op : ℕ) → In (cancel op) t.log → In (cancel op) s.log)

refresh-same :
    (texts : Texts) (s : Controller)
    → s.has_client ≡ true
    → s.client.is_available ≡ true
    → is_live s.mutation_op ≡ true
    → refresh texts s ≡ s
unfolding refresh
refresh-same texts s has on live = rw (has, on, live) refl

bind-same :
    (texts : Texts) (s : Controller)
    → s.has_client ≡ true
    → s.client.is_available ≡ true
    → is_live s.mutation_op ≡ true
    → bind_reader texts s.resolved_reader_id s ≡ record s { reader_id = s.resolved_reader_id }
unfolding bind_reader
bind-same texts s has on live =
    rw (live, text_eq_refl s.resolved_reader_id)
      (refresh-same texts (record s { reader_id = s.resolved_reader_id }) has on live)

-- While a verb is in flight on a reachable agent and no list is: a change of the registry that leaves
-- the agent reachable, a bind to the reader that is managed, a press of any verb's button, a start of the agent and the end of another
-- operation leave the card, the operations, the state, the rows and the next number as they are, and
-- cancel nothing.
pub step-pinned :
    (texts : Texts) (s : Controller) (event : Event)
    → s.has_client ≡ true
    → s.client.is_available ≡ true
    → is_live s.mutation_op ≡ true
    → s.list_op ≡ none
    → Undisturbing s event
    → IsKept s (step texts s event)
unfolding step when_startable change_pin activate activate_key request_unblock confirm_unblock
    start_agent on_agent_start_finished
step-pinned texts s (registry client) has on live single p =
    rw (refresh-same texts (record s { client = client }) has p live) (ground arith)
step-pinned texts s (bind id) has on live single p =
    rw (p, bind-same texts s has on live) (ground arith)
step-pinned texts s (card_changed card) has on live single p = elim p [ ]
step-pinned texts s card_destroyed has on live single p = elim p [ ]
step-pinned texts s cancel_pressed has on live single p = elim p [ ]
step-pinned texts s (list_finished op status records) has on live single p = ground arith
step-pinned texts s (mutation_finished op report) has on live single p = rw p (ground arith)
step-pinned texts s (change_pressed id) has on live single p = ground (arith, live)
step-pinned texts s (activate_pressed id) has on live single p = ground (arith, live)
step-pinned texts s (activate_key_pressed id) has on live single p = ground (arith, live)
step-pinned texts s (unblock_pressed id) has on live single p = ground (arith, live)
step-pinned texts s (unblock_confirmed id) has on live single p = ground (arith, live)
step-pinned texts s start_pressed has on live single p = ground arith
step-pinned texts s start_answered has on live single p =
    pick (IsKept s) s.agent_starting
      (λ asked.
        rw (refresh-same texts (record s { agent_starting = false }) has on live) (ground arith))
      (λ off. (ground arith))
