-- ===== src/Credentials/Controller/Soundness.antt =====
-- components/credentials/src/CredentialController.cpp: every handler keeps what holds of the controller.
use libre_kde.Base.{
  ℕ, Bool, true, false, not, ◌&&◌, Text, Option, none, some, ◌≡◌, refl, inl, inr, arith, codes,
  Option-cases, pick, text_eq,
}
use libre_kde.Shared.Agent.{SyncError}
use libre_kde.Shared.ErrorText.{Texts, say}
use libre_kde.Shared.CredentialText.{CredentialKind}
use libre_kde.Shared.Registry.{AgentCard, AgentClient}
use libre_kde.Credentials.Controller.{
  result, Request, Controller, is_live, init, reset_list_state, detach_mutation,
}
use libre_kde.Credentials.Controller.Binding.{
  abandon_list, list_bound, start_list_credentials, bind_reader, start_agent,
  on_agent_start_finished,
}
use libre_kde.Credentials.Controller.Verbs.{
  Report, startable, begin_mutation, change_pin, activate, activate_key, request_unblock,
  confirm_unblock, when_startable, relist_after_mutation, handle_refusal, result_text, notice,
  is_card_removed, effective_outcome, outcome_shown, finish_outcome, on_mutation_done, settle,
}
use libre_kde.Credentials.Controller.Machine.{
  Event, registry, card_changed, card_destroyed, list_finished, mutation_finished, bind,
  cancel_pressed, change_pressed, activate_pressed, activate_key_pressed, unblock_pressed,
  unblock_confirmed, start_pressed, start_answered, holds, changed_card, is_bound, step, Possible,
  Reached, start, after,
}
use libre_kde.Credentials.Controller.Invariant.{
  IsSound, IsReady, classify-IsSound, refresh-IsSound, bound_id-IsReady, on_list_finished-IsSound,
  cancel_all-IsSound, reset-IsFresh,
}

bind_reader-IsSound :
    (texts : Texts) (id : Text) (s : Controller) → IsSound s → IsSound (bind_reader texts id s)
unfolding bind_reader detach_mutation
bind_reader-IsSound texts id s sound = refresh-IsSound texts _ (
    bound_id-IsReady id _ (
      pick IsReady (is_live s.mutation_op && not (text_eq id s.resolved_reader_id))
        (λ other. inr (reset-IsFresh (detach_mutation s) refl)) (λ same. inl sound)))

start_agent-IsSound : (texts : Texts) (s : Controller) → IsSound s → IsSound (start_agent texts s)
unfolding start_agent
start_agent-IsSound texts s sound =
    pick IsSound s.agent_starting (λ on. sound)
      (λ off.
        pick IsSound (not s.has_client) (λ lone. refresh-IsSound texts s (inl sound))
          (λ has. ground arith))

start_answered-IsSound :
    (texts : Texts) (s : Controller) → IsSound s → IsSound (on_agent_start_finished texts s)
unfolding on_agent_start_finished
start_answered-IsSound texts s sound =
    pick IsSound s.agent_starting
      (λ on. refresh-IsSound texts (record s { agent_starting = false }) (inl (ground arith)))
      (λ off. sound)

begin_mutation-IsSound :
    (request : Request) (kind : CredentialKind) (s : Controller) {card : AgentCard}
    → s.card ≡ some card
    → IsSound s
    → IsSound (begin_mutation request kind s)
unfolding begin_mutation
begin_mutation-IsSound request kind s c sound = ground arith

when_startable-IsSound :
    (act : AgentCard → Controller) (s : Controller)
    → ((card : AgentCard) → s.card ≡ some card → IsSound (act card))
    → IsSound s
    → IsSound (when_startable (startable s) act s)
unfolding when_startable
when_startable-IsSound act s acts sound = elim (Option-cases (startable s)) [
  | inl e ↦ rw (e, when_startable) sound
  | inr (card, e) ↦ rw (e, when_startable) (acts card (ground arith))
]

relist-IsSound :
    (s : Controller) → s.mutation_op ≡ none → s.state ≡ result → IsSound (relist_after_mutation s)
unfolding relist_after_mutation start_list_credentials list_bound abandon_list reset_list_state
relist-IsSound s m r = elim (Option-cases s.card) [
  | inl e ↦ ground arith
  | inr (card, e) ↦ ground arith
]

finish_outcome-IsSound :
    (texts : Texts) (report : Report) (s : Controller)
    → is_live s.mutation_op ≡ true
    → IsSound s
    → IsSound (finish_outcome texts report s)
unfolding finish_outcome outcome_shown
finish_outcome-IsSound texts report s live sound =
    pick IsSound (is_card_removed (effective_outcome report s))
      {x = record (outcome_shown texts report s) { removal_notice = result_text texts report s }}
      (λ removed. ground arith) (λ held. relist-IsSound (outcome_shown texts report s) refl refl)

ended-IsSound :
    (message : Text) (s : Controller)
    → IsSound s
    → IsSound (record s {
      mutation_op = none;
      mutation_cancel_requested = false;
      result_is_error = false;
      result_message = message;
      state = result;
    })
ended-IsSound message s sound = ground arith

abbrev over : Controller → Controller
over s = record s { mutation_op = none; mutation_cancel_requested = false }

handle_refusal-IsSound :
    (texts : Texts) (named : SyncError) (s : Controller)
    → IsSound s
    → IsSound (handle_refusal texts named (over s))
unfolding handle_refusal
handle_refusal-IsSound texts SyncError.unknown_credential s sound =
    relist-IsSound
      (notice (say texts (codes "The card's credentials changed; the list was refreshed."))
        (over s))
      refl refl
handle_refusal-IsSound texts SyncError.rate_limited s sound = ended-IsSound _ s sound
handle_refusal-IsSound texts SyncError.invalid_request s sound = ended-IsSound _ s sound
handle_refusal-IsSound texts _ s sound =
    relist-IsSound (notice (say texts (codes "The action could not be started.")) (over s)) refl
      refl

settle-IsSound :
    (texts : Texts) (report : Report) (named : Option SyncError) (s : Controller)
    → is_live s.mutation_op ≡ true
    → IsSound s
    → IsSound (settle texts report named s)
unfolding settle
settle-IsSound texts report none s live sound = finish_outcome-IsSound texts report s live sound
settle-IsSound texts report (some named) s live sound = handle_refusal-IsSound texts named s sound

on_mutation_done-IsSound :
    (texts : Texts) (report : Report) (s : Controller)
    → is_live s.mutation_op ≡ true
    → IsSound s
    → IsSound (on_mutation_done texts report s)
unfolding on_mutation_done
on_mutation_done-IsSound texts report s live sound =
    settle-IsSound texts report report.sync_error s live sound

holds-is_live : (held : Option ℕ) (op : ℕ) → holds held op ≡ true → is_live held ≡ true
holds-is_live none op h = h
holds-is_live (some n) op h = refl

client-IsSound :
    (client : AgentClient) (s : Controller) → IsSound s → IsSound (record s { client = client })
client-IsSound client s sound = ground arith

seen-IsSound :
    (card : AgentCard) (s : Controller)
    → IsSound s
    → IsSound (record s { card = changed_card s.card card })
unfolding changed_card
seen-IsSound card s sound = elim (Option-cases s.card) [
  | inl e ↦ ground arith
  | inr (held, e) ↦ ground arith
]

-- A handler of one event, whichever it is, keeps a sound controller sound, where the client's deletion of the
-- bound card comes after the end of the operations on it.
pub step-IsSound :
    (texts : Texts) (s : Controller) (event : Event)
    → Possible s event
    → IsSound s
    → IsSound (step texts s event)
unfolding step when_startable change_pin activate activate_key request_unblock confirm_unblock
step-IsSound texts s (registry client) p sound =
    refresh-IsSound texts _ (inl (client-IsSound client s sound))
step-IsSound texts s (card_changed card) p sound =
    pick IsSound (is_bound s.card) (λ on. classify-IsSound _ (inl (seen-IsSound card s sound)))
      (λ off. sound)
step-IsSound texts s card_destroyed p sound = ground arith
step-IsSound texts s (list_finished op status records) p sound =
    pick IsSound (holds s.list_op op)
      (λ held. on_list_finished-IsSound status records s (holds-is_live s.list_op op held) sound)
      (λ stale. sound)
step-IsSound texts s (mutation_finished op report) p sound =
    pick IsSound (holds s.mutation_op op)
      (λ held. on_mutation_done-IsSound texts report s (holds-is_live s.mutation_op op held) sound)
      (λ stale. sound)
step-IsSound texts s (bind id) p sound = bind_reader-IsSound texts id s sound
step-IsSound texts s cancel_pressed p sound = cancel_all-IsSound s sound
step-IsSound texts s (change_pressed id) p sound =
    when_startable-IsSound _ s (λ card c. begin_mutation-IsSound _ _ s c sound) sound
step-IsSound texts s (activate_pressed id) p sound =
    when_startable-IsSound _ s (λ card c. begin_mutation-IsSound _ _ s c sound) sound
step-IsSound texts s (activate_key_pressed id) p sound =
    when_startable-IsSound _ s (λ card c. begin_mutation-IsSound _ _ s c sound) sound
step-IsSound texts s (unblock_pressed id) p sound =
    when_startable-IsSound _ s (λ card c. ground arith) sound
step-IsSound texts s (unblock_confirmed id) p sound =
    when_startable-IsSound _ s (λ card c. begin_mutation-IsSound _ _ s c sound) sound
step-IsSound texts s start_pressed p sound = start_agent-IsSound texts s sound
step-IsSound texts s start_answered p sound = start_answered-IsSound texts s sound

-- A new controller is sound.
init-IsSound : (has_client : Bool) (client : AgentClient) → IsSound (init has_client client)
unfolding init
init-IsSound has_client client = ground arith

-- However the events of the loop follow one another, where the client deletes a card only after the
-- end of the operations on it, in the controller that they lead to: a list and a verb are never both
-- in flight, nor either without a card; Working has a verb in flight, a verb in flight leaves no state
-- but Working and NotManageable, and Loading has a list in flight; a held result is on screen; Ready
-- has rows and Empty has none, both of a settled list; and the next operation's number is new.
pub reached-IsSound :
    (texts : Texts) (has_client : Bool) (client : AgentClient) (s : Controller)
    → Reached texts (init has_client client) s
    → IsSound s
reached-IsSound texts has_client client s start = init-IsSound has_client client
reached-IsSound texts has_client client s (after before event possible) =
    step-IsSound texts _ event possible (reached-IsSound texts has_client client _ before)
