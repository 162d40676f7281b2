-- ===== src/Credentials/Controller/Owed/Steps.antt =====
-- components/credentials/src/CredentialController.cpp: no event makes the controller forget an operation.
use libre_kde.Base.{ℕ, true, false, codes, List, Option, none, some, ◌≡◌, ◌≢◌, arith, pick}
use libre_kde.Shared.Agent.{OperationStatus, SyncError}
use libre_kde.Shared.ErrorText.{Texts, say}
use libre_kde.Shared.CredentialText.{CredentialKind}
use libre_kde.Credentials.Model.{CredentialRecord}
use libre_kde.Credentials.Controller.{Controller}
use libre_kde.Credentials.Controller.Binding.{on_list_finished}
use libre_kde.Credentials.Controller.Verbs.{
  Report, kind_of, change_pin, activate, activate_key, request_unblock, confirm_unblock,
  when_startable, notice, handle_refusal, outcome_shown, finish_outcome, settle, on_mutation_done,
  result_text, is_card_removed, effective_outcome,
}
use libre_kde.Credentials.Controller.Machine.{
  Event, registry, card_changed, card_destroyed, list_finished, mutation_finished, bind,
  cancel_pressed, change_pressed, activate_pressed, activate_key_pressed, unblock_pressed,
  unblock_confirmed, start_pressed, start_answered, holds, changed_card, is_bound, step,
}
use libre_kde.Credentials.Controller.Owed.{
  IsOwed, refresh-IsOwed, classify-IsOwed, bind_reader-IsOwed, start_agent-IsOwed,
  start_answered-IsOwed, cancel_all-IsOwed, begin_mutation-IsOwed, when_startable-IsOwed,
  relist-IsOwed,
}

-- The event is neither the end of the operation nor the deletion of its card.
abbrev pub GoesOn : ℕ → Event → Type 0
GoesOn op (list_finished ended status records) = ended ≢ op
GoesOn op (mutation_finished ended report) = ended ≢ op
GoesOn op card_destroyed = ⊥
GoesOn op _ = Unit {0}

module _ (op : ℕ) where
  list_finished-IsOwed :
      (ended : ℕ) (status : OperationStatus) (records : List CredentialRecord) (s : Controller)
      → holds s.list_op ended ≡ true
      → ended ≢ op
      → IsOwed op s
      → IsOwed op (on_list_finished status records s)
  unfolding on_list_finished
  list_finished-IsOwed ended OperationStatus.ok records s held other owed = ground arith
  list_finished-IsOwed ended OperationStatus.cancelled records s held other owed = ground arith
  list_finished-IsOwed ended OperationStatus.error records s held other owed = ground arith

  abbrev over : Controller → Controller
  over s = record s { mutation_op = none; mutation_cancel_requested = false }

  over-IsOwed :
      (ended : ℕ) (s : Controller)
      → holds s.mutation_op ended ≡ true
      → ended ≢ op
      → IsOwed op s
      → IsOwed op (over s)
  over-IsOwed ended s held other owed = ground arith

  handle_refusal-IsOwed :
      (texts : Texts) (named : SyncError) (s : Controller)
      → IsOwed op s
      → IsOwed op (handle_refusal texts named s)
  unfolding handle_refusal
  handle_refusal-IsOwed texts SyncError.unknown_credential s owed =
      relist-IsOwed op
        (notice (say texts (codes "The card's credentials changed; the list was refreshed.")) s)
        owed
  handle_refusal-IsOwed texts SyncError.rate_limited s owed = owed
  handle_refusal-IsOwed texts SyncError.invalid_request s owed = owed
  handle_refusal-IsOwed texts _ s owed =
      relist-IsOwed op (notice (say texts (codes "The action could not be started.")) s) owed

  settle-IsOwed :
      (texts : Texts) (report : Report) (named : Option SyncError) (s : Controller)
      → IsOwed op (over s)
      → IsOwed op (settle texts report named s)
  unfolding settle finish_outcome outcome_shown
  settle-IsOwed texts report none s owed =
      pick (IsOwed op) (is_card_removed (effective_outcome report s))
        {x = record (outcome_shown texts report s) { removal_notice = result_text texts report s }}
        (λ removed. owed) (λ held. relist-IsOwed op (outcome_shown texts report s) owed)
  settle-IsOwed texts report (some named) s owed = handle_refusal-IsOwed texts named (over s) owed

  -- An operation that is in flight for the controller, or whose cancel it asked for, is so after any
  -- event but its own end and the deletion of the card: the controller drops none without a cancel.
  pub step-IsOwed :
      (texts : Texts) (s : Controller) (event : Event)
      → GoesOn op event
      → IsOwed op s
      → IsOwed op (step texts s event)
  unfolding step when_startable change_pin activate activate_key request_unblock confirm_unblock
      on_mutation_done
  step-IsOwed texts s (registry client) on owed =
      refresh-IsOwed op texts (record s { client = client }) owed
  step-IsOwed texts s (card_changed card) on owed =
      pick (IsOwed op) (is_bound s.card)
        (λ bound. classify-IsOwed op (record s { card = changed_card s.card card }) owed)
        (λ off. owed)
  step-IsOwed texts s card_destroyed on owed = elim on [ ]
  step-IsOwed texts s (list_finished ended status records) on owed =
      pick (IsOwed op) (holds s.list_op ended)
        (λ held. list_finished-IsOwed ended status records s held on owed) (λ stale. owed)
  step-IsOwed texts s (mutation_finished ended report) on owed =
      pick (IsOwed op) (holds s.mutation_op ended)
        (λ held. settle-IsOwed texts report report.sync_error s (over-IsOwed ended s held on owed))
        (λ stale. owed)
  step-IsOwed texts s (bind id) on owed = bind_reader-IsOwed op texts id s owed
  step-IsOwed texts s cancel_pressed on owed = cancel_all-IsOwed op s owed
  step-IsOwed texts s (change_pressed id) on owed =
      when_startable-IsOwed op _ s (λ card m. begin_mutation-IsOwed op _ (kind_of s id) s m owed)
        owed
  step-IsOwed texts s (activate_pressed id) on owed =
      when_startable-IsOwed op _ s (λ card m. begin_mutation-IsOwed op _ (kind_of s id) s m owed)
        owed
  step-IsOwed texts s (activate_key_pressed id) on owed =
      when_startable-IsOwed op _ s
        (λ card m. begin_mutation-IsOwed op _ CredentialKind.sign s m owed) owed
  step-IsOwed texts s (unblock_pressed id) on owed =
      when_startable-IsOwed op _ s (λ card m. ground arith) owed
  step-IsOwed texts s (unblock_confirmed id) on owed =
      when_startable-IsOwed op _ s
        (λ card m. begin_mutation-IsOwed op _ CredentialKind.puk s m owed) owed
  step-IsOwed texts s start_pressed on owed = start_agent-IsOwed op texts s owed
  step-IsOwed texts s start_answered on owed = start_answered-IsOwed op texts s owed
