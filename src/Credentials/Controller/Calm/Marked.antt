-- ===== src/Credentials/Controller/Calm/Marked.antt =====
-- components/credentials/src/CredentialController.cpp: every handler keeps the mark of a cancelled verb.
use libre_kde.Base.{
  ℕ, ◌<◌, true, false, not, ◌&&◌, ◌||◌, Text, List, Option, none, some, ◌≡◌, refl, arith,
  Option-cases, inl, inr, pick, text_eq, codes,
}
use libre_kde.Shared.Agent.{pin_management, OperationStatus, SyncError}
use libre_kde.Shared.ErrorText.{Texts, say}
use libre_kde.Shared.CredentialText.{CredentialKind}
use libre_kde.Shared.Registry.{AgentCard, AgentReader, has_capability, reader_label}
use libre_kde.Credentials.Model.{CredentialRecord}
use libre_kde.Credentials.Controller.{
  State, Request, Controller, is_live, reset_list_state, detach_mutation, bind_card, rebind,
  same_card,
}
use libre_kde.Credentials.Controller.Binding.{
  abandon_list, list_bound, classify, classify_card, unbind, manage, manage_target, target, refresh,
  bind_reader, start_list_credentials, on_list_finished, cancel_all, start_agent,
  on_agent_start_finished,
}
use libre_kde.Credentials.Controller.Verbs.{
  Report, startable, begin_mutation, when_startable, change_pin, activate, activate_key,
  request_unblock, confirm_unblock, relist_after_mutation, handle_refusal, notice, outcome_shown,
  finish_outcome, settle, on_mutation_done, is_card_removed, effective_outcome,
}
use libre_kde.Credentials.Controller.Machine.{
  Event, registry, card_changed, card_destroyed, list_finished, mutation_finished, bind,
  cancel_pressed, change_pressed, activate_pressed, activate_key_pressed, unblock_pressed,
  unblock_confirmed, start_pressed, start_answered, holds, changed_card, is_bound, step, Reached,
  start, after,
}

-- The verb of that number is marked as cancelled, if it is still in flight; no later one has its number.
pub record IsMarked (op : ℕ) (s : Controller) : Type 0 where
  pub marked : s.mutation_op ≡ some op → s.mutation_cancel_requested ≡ true
  pub numbered : op < s.next_op

module _ (op : ℕ) where
  abandon_list-IsMarked :
      (next : State) (s : Controller) → IsMarked op s → IsMarked op (abandon_list next s)
  unfolding abandon_list reset_list_state
  abandon_list-IsMarked next s m = ground arith

  list_bound-IsMarked :
      (card : AgentCard) (s : Controller) → IsMarked op s → IsMarked op (list_bound card s)
  unfolding list_bound
  list_bound-IsMarked card s m =
      pick (IsMarked op) (is_live s.mutation_op || is_live s.list_op || s.list_settled) (λ busy. m)
        (λ idle. ground arith)

  classify_card-IsMarked :
      (card : Option AgentCard) (s : Controller)
      → IsMarked op s
      → IsMarked op (classify_card card s)
  unfolding classify_card
  classify_card-IsMarked none s m = abandon_list-IsMarked State.no_card s m
  classify_card-IsMarked (some card) s m =
      pick (IsMarked op) (has_capability card pin_management) (λ can. list_bound-IsMarked card s m)
        (λ cannot. abandon_list-IsMarked State.not_manageable s m)

  classify-IsMarked : (s : Controller) → IsMarked op s → IsMarked op (classify s)
  unfolding classify
  classify-IsMarked s m = classify_card-IsMarked s.card s m

  bind_card-IsMarked :
      (card : Option AgentCard) (s : Controller) → IsMarked op s → IsMarked op (bind_card card s)
  unfolding bind_card rebind reset_list_state detach_mutation
  bind_card-IsMarked none s m = ground arith
  bind_card-IsMarked (some card) s m =
      pick (IsMarked op) (same_card card s.card) (λ same. ground arith) (λ other. ground arith)

  named-IsMarked :
      (id label : Text) (s : Controller)
      → IsMarked op s
      → IsMarked op (record s { resolved_reader_id = id; reader_label = label })
  named-IsMarked id label s m = ground arith

  unbind-IsMarked : (next : State) (s : Controller) → IsMarked op s → IsMarked op (unbind next s)
  unfolding unbind bind_card rebind reset_list_state detach_mutation
  unbind-IsMarked next s m = ground arith

  manage_target-IsMarked :
      (texts : Texts) (found : Option AgentReader) (s : Controller)
      → IsMarked op s
      → IsMarked op (manage_target texts found s)
  unfolding manage_target manage
  manage_target-IsMarked texts none s m = unbind-IsMarked State.no_card s m
  manage_target-IsMarked texts (some reader) s m =
      classify-IsMarked _ (
        bind_card-IsMarked reader.card _ (named-IsMarked reader.id (reader_label texts reader) s m))

  refresh-IsMarked :
      (texts : Texts) (s : Controller) → IsMarked op s → IsMarked op (refresh texts s)
  unfolding refresh
  refresh-IsMarked texts s m =
      pick (IsMarked op) (not s.has_client || not s.client.is_available)
        (λ away. unbind-IsMarked State.agent_unavailable s m)
        (λ here.
          pick (IsMarked op) (is_live s.mutation_op) (λ busy. m)
            (λ free. manage_target-IsMarked texts (target s) s m))

  bind_reader-IsMarked :
      (texts : Texts) (id : Text) (s : Controller)
      → IsMarked op s
      → IsMarked op (bind_reader texts id s)
  unfolding bind_reader reset_list_state detach_mutation
  bind_reader-IsMarked texts id s m =
      pick (λ (t : Controller). IsMarked op (refresh texts (record t { reader_id = id })))
        (is_live s.mutation_op && not (text_eq id s.resolved_reader_id))
        (λ other.
          refresh-IsMarked texts (record (reset_list_state (detach_mutation s)) { reader_id = id })
            (ground arith))
        (λ same. refresh-IsMarked texts (record s { reader_id = id }) (ground arith))

  start_agent-IsMarked :
      (texts : Texts) (s : Controller) → IsMarked op s → IsMarked op (start_agent texts s)
  unfolding start_agent
  start_agent-IsMarked texts s m =
      pick (IsMarked op) s.agent_starting (λ on. m)
        (λ off.
          pick (IsMarked op) (not s.has_client) (λ lone. refresh-IsMarked texts s m)
            (λ has. ground arith))

  start_answered-IsMarked :
      (texts : Texts) (s : Controller)
      → IsMarked op s
      → IsMarked op (on_agent_start_finished texts s)
  unfolding on_agent_start_finished
  start_answered-IsMarked texts s m =
      pick (IsMarked op) s.agent_starting
        (λ on. refresh-IsMarked texts (record s { agent_starting = false }) (ground arith))
        (λ off. m)

  -- A verb that begins has a number of its own.
  begin_mutation-IsMarked :
      (request : Request) (kind : CredentialKind) (s : Controller)
      → IsMarked op s
      → IsMarked op (begin_mutation request kind s)
  unfolding begin_mutation
  begin_mutation-IsMarked request kind s m = ground arith

  when_startable-IsMarked :
      (act : AgentCard → Controller) (s : Controller)
      → ((card : AgentCard) → IsMarked op (act card))
      → IsMarked op s
      → IsMarked op (when_startable (startable s) act s)
  unfolding when_startable
  when_startable-IsMarked act s acts m = elim (Option-cases (startable s)) [
    | inl e ↦ rw (e, when_startable) m
    | inr (card, e) ↦ rw (e, when_startable) (acts card)
  ]

  relist-IsMarked :
      (s : Controller)
      → s.mutation_op ≡ none
      → IsMarked op s
      → IsMarked op (relist_after_mutation s)
  unfolding relist_after_mutation start_list_credentials list_bound abandon_list reset_list_state
  relist-IsMarked s over m = elim (Option-cases s.card) [
    | inl e ↦ ground arith
    | inr (card, e) ↦ ground arith
  ]

  on_list_finished-IsMarked :
      (status : OperationStatus) (records : List CredentialRecord) (s : Controller)
      → IsMarked op s
      → IsMarked op (on_list_finished status records s)
  unfolding on_list_finished
  on_list_finished-IsMarked OperationStatus.ok records s m = ground arith
  on_list_finished-IsMarked OperationStatus.cancelled records s m = ground arith
  on_list_finished-IsMarked OperationStatus.error records s m = ground arith

  cancel_all-IsMarked : (s : Controller) → IsMarked op s → IsMarked op (cancel_all s)
  unfolding cancel_all
  cancel_all-IsMarked s m = ground arith

  finish_outcome-IsMarked :
      (texts : Texts) (r : Report) (s : Controller)
      → IsMarked op s
      → IsMarked op (finish_outcome texts r s)
  unfolding finish_outcome outcome_shown
  finish_outcome-IsMarked texts r s m =
      pick (IsMarked op) (is_card_removed (effective_outcome r s)) (λ removed. ground arith)
        (λ held. relist-IsMarked (outcome_shown texts r s) refl (ground arith))

  abbrev over : Controller → Controller
  over s = record s { mutation_op = none; mutation_cancel_requested = false }

  notice-IsMarked :
      (message : Text) (s : Controller) → IsMarked op s → IsMarked op (notice message (over s))
  notice-IsMarked message s m = ground arith

  handle_refusal-IsMarked :
      (texts : Texts) (named : SyncError) (s : Controller)
      → IsMarked op s
      → IsMarked op (handle_refusal texts named (over s))
  unfolding handle_refusal
  handle_refusal-IsMarked texts SyncError.unknown_credential s m =
      relist-IsMarked
        (notice (say texts (codes "The card's credentials changed; the list was refreshed."))
          (over s))
        refl (notice-IsMarked _ s m)
  handle_refusal-IsMarked texts SyncError.rate_limited s m = notice-IsMarked _ s m
  handle_refusal-IsMarked texts SyncError.invalid_request s m = notice-IsMarked _ s m
  handle_refusal-IsMarked texts _ s m =
      relist-IsMarked (notice (say texts (codes "The action could not be started.")) (over s)) refl
        (notice-IsMarked _ s m)

  settle-IsMarked :
      (texts : Texts) (r : Report) (named : Option SyncError) (s : Controller)
      → IsMarked op s
      → IsMarked op (settle texts r named s)
  unfolding settle
  settle-IsMarked texts r none s m = finish_outcome-IsMarked texts r s m
  settle-IsMarked texts r (some named) s m = handle_refusal-IsMarked texts named s m

  step-IsMarked :
      (texts : Texts) (s : Controller) (event : Event)
      → IsMarked op s
      → IsMarked op (step texts s event)
  unfolding step change_pin activate activate_key request_unblock confirm_unblock on_mutation_done
      when_startable
  step-IsMarked texts s (registry client) m =
      refresh-IsMarked texts (record s { client = client }) (ground arith)
  step-IsMarked texts s (card_changed card) m =
      pick (IsMarked op) (is_bound s.card)
        (λ on. classify-IsMarked (record s { card = changed_card s.card card }) (ground arith))
        (λ off. m)
  step-IsMarked texts s card_destroyed m = ground arith
  step-IsMarked texts s (list_finished ended status records) m =
      pick (IsMarked op) (holds s.list_op ended)
        (λ held. on_list_finished-IsMarked status records s m) (λ stale. m)
  step-IsMarked texts s (mutation_finished ended r) m =
      pick (IsMarked op) (holds s.mutation_op ended)
        (λ held. settle-IsMarked texts r r.sync_error s m) (λ stale. m)
  step-IsMarked texts s (bind id) m = bind_reader-IsMarked texts id s m
  step-IsMarked texts s cancel_pressed m = cancel_all-IsMarked s m
  step-IsMarked texts s (change_pressed id) m =
      when_startable-IsMarked _ s (λ card. begin_mutation-IsMarked _ _ s m) m
  step-IsMarked texts s (activate_pressed id) m =
      when_startable-IsMarked _ s (λ card. begin_mutation-IsMarked _ _ s m) m
  step-IsMarked texts s (activate_key_pressed id) m =
      when_startable-IsMarked _ s (λ card. begin_mutation-IsMarked _ _ s m) m
  step-IsMarked texts s (unblock_pressed id) m =
      when_startable-IsMarked _ s (λ card. ground arith) m
  step-IsMarked texts s (unblock_confirmed id) m =
      when_startable-IsMarked _ s (λ card. begin_mutation-IsMarked _ _ s m) m
  step-IsMarked texts s start_pressed m = start_agent-IsMarked texts s m
  step-IsMarked texts s start_answered m = start_answered-IsMarked texts s m

  pub after-IsMarked :
      (texts : Texts) (s t : Controller) → IsMarked op s → Reached texts s t → IsMarked op t
  after-IsMarked texts s t m start = m
  after-IsMarked texts s t m (after before event possible) =
      step-IsMarked texts _ event (after-IsMarked texts s _ m before)
