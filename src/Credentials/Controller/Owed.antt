-- ===== src/Credentials/Controller/Owed.antt =====
-- components/credentials/src/CredentialController.cpp: an operation that the controller lets go of is
-- cancelled.
pub mod Steps
use libre_kde.Base.{
  ℕ, suc, ◌<◌, Bool, true, false, not, ◌&&◌, ◌||◌, In, Text, List, [], ◌∷◌, Option, none, some, ◌≡◌,
  refl, ◌⊎◌, inl, inr, if◌then◌else◌, ◌==◌, arith, Option-cases, pick, text_eq,
}
use libre_kde.Shared.Agent.{pin_management, SyncError}
use libre_kde.Shared.ErrorText.{Texts}
use libre_kde.Shared.CredentialText.{CredentialKind}
use libre_kde.Shared.Registry.{AgentCard, AgentReader, has_capability, reader_label}
use libre_kde.Credentials.Controller.{
  State, no_card, agent_unavailable, not_manageable, Request, cancel, start_agent_later, Controller,
  is_live, reset_list_state, detach_mutation, rebind, same_card, bind_card,
}
use libre_kde.Credentials.Controller.Binding.{
  abandon_list, list_bound, start_list_credentials, classify, classify_card, unbind, manage,
  manage_target, target, refresh, bind_reader, on_list_finished, cancel_all, start_agent,
  on_agent_start_finished,
}
use libre_kde.Credentials.Controller.Verbs.{
  Report, startable, begin_mutation, change_pin, activate, activate_key, request_unblock,
  confirm_unblock, when_startable, relist_after_mutation, handle_refusal, outcome_shown,
  finish_outcome, settle, on_mutation_done,
}
use libre_kde.Credentials.Controller.Machine.{
  Event, registry, card_changed, card_destroyed, list_finished, mutation_finished, bind,
  cancel_pressed, change_pressed, activate_pressed, activate_key_pressed, unblock_pressed,
  unblock_confirmed, start_pressed, start_answered, holds, changed_card, is_bound, step,
}

-- The operation is in flight for the controller, or its cancel was asked for.
abbrev pub IsOwed : ℕ → Controller → Type 0
IsOwed op s = (s.list_op ≡ some op) ⊎ (s.mutation_op ≡ some op) ⊎ In (cancel op) s.log

module _ (op : ℕ) where
  reset-IsOwed : (s : Controller) → IsOwed op s → IsOwed op (reset_list_state s)
  unfolding reset_list_state
  reset-IsOwed s owed = elim (Option-cases s.list_op) [
    | inl e ↦ ground arith
    | inr (held, e) ↦ ground arith
  ]

  detach-IsOwed : (s : Controller) → IsOwed op s → IsOwed op (detach_mutation s)
  unfolding detach_mutation
  detach-IsOwed s owed = elim (Option-cases s.mutation_op) [
    | inl e ↦ ground arith
    | inr (held, e) ↦ ground arith
  ]

  rebind-IsOwed :
      (card : Option AgentCard) (s : Controller) → IsOwed op s → IsOwed op (rebind card s)
  unfolding rebind
  rebind-IsOwed none s owed = detach-IsOwed _ (reset-IsOwed s owed)
  rebind-IsOwed (some card) s owed = detach-IsOwed _ (reset-IsOwed s owed)

  bind_card-IsOwed :
      (card : Option AgentCard) (s : Controller) → IsOwed op s → IsOwed op (bind_card card s)
  unfolding bind_card
  bind_card-IsOwed none s owed = rebind-IsOwed none s owed
  bind_card-IsOwed (some card) s owed =
      pick (IsOwed op) (same_card card s.card) (λ same. owed)
        (λ other. rebind-IsOwed (some card) s owed)

  abandon_list-IsOwed :
      (next : State) (s : Controller) → IsOwed op s → IsOwed op (abandon_list next s)
  unfolding abandon_list
  abandon_list-IsOwed next s owed = reset-IsOwed s owed

  list_bound-IsOwed :
      (card : AgentCard) (s : Controller) → IsOwed op s → IsOwed op (list_bound card s)
  unfolding list_bound
  list_bound-IsOwed card s owed =
      pick (IsOwed op) (is_live s.mutation_op || is_live s.list_op || s.list_settled) (λ busy. owed)
        (λ idle. ground arith)

  classify_card-IsOwed :
      (card : Option AgentCard) (s : Controller) → IsOwed op s → IsOwed op (classify_card card s)
  unfolding classify_card
  classify_card-IsOwed none s owed = abandon_list-IsOwed no_card s owed
  classify_card-IsOwed (some card) s owed =
      pick (IsOwed op) (has_capability card pin_management) (λ can. list_bound-IsOwed card s owed)
        (λ cannot. abandon_list-IsOwed not_manageable s owed)

  pub classify-IsOwed : (s : Controller) → IsOwed op s → IsOwed op (classify s)
  unfolding classify
  classify-IsOwed s owed = classify_card-IsOwed s.card s owed

  start_list-IsOwed : (s : Controller) → IsOwed op s → IsOwed op (start_list_credentials s)
  unfolding start_list_credentials
  start_list-IsOwed s owed =
      elim s.card
        as (λ card.
          IsOwed op (elim card [ none ↦ abandon_list no_card s | some c ↦ list_bound c s ])) [
            | none ↦ abandon_list-IsOwed no_card s owed
            | some card ↦ list_bound-IsOwed card s owed
          ]

  manage_target-IsOwed :
      (texts : Texts) (found : Option AgentReader) (s : Controller)
      → IsOwed op s
      → IsOwed op (manage_target texts found s)
  unfolding manage_target manage unbind
  manage_target-IsOwed texts none s owed =
      bind_card-IsOwed none (record s { resolved_reader_id = [] }) owed
  manage_target-IsOwed texts (some reader) s owed =
      let named = record s {
        resolved_reader_id = reader.id;
        reader_label = reader_label texts reader;
      } in
      classify-IsOwed (bind_card reader.card named) (bind_card-IsOwed reader.card named owed)

  pub refresh-IsOwed : (texts : Texts) (s : Controller) → IsOwed op s → IsOwed op (refresh texts s)
  unfolding refresh unbind
  refresh-IsOwed texts s owed =
      pick (IsOwed op) (not s.has_client || not s.client.is_available)
        (λ away. bind_card-IsOwed none (record s { resolved_reader_id = [] }) owed)
        (λ here.
          pick (IsOwed op) (is_live s.mutation_op) (λ busy. owed)
            (λ free. manage_target-IsOwed texts (target s) s owed))

  pub bind_reader-IsOwed :
      (texts : Texts) (id : Text) (s : Controller)
      → IsOwed op s
      → IsOwed op (bind_reader texts id s)
  unfolding bind_reader
  bind_reader-IsOwed texts id s owed =
      let other = is_live s.mutation_op && not (text_eq id s.resolved_reader_id) in
      refresh-IsOwed texts
        (record (if other then reset_list_state (detach_mutation s) else s) { reader_id = id })
        (pick (IsOwed op) other (λ moved. reset-IsOwed (detach_mutation s) (detach-IsOwed s owed))
          (λ same. owed))

  pub start_agent-IsOwed :
      (texts : Texts) (s : Controller) → IsOwed op s → IsOwed op (start_agent texts s)
  unfolding start_agent
  start_agent-IsOwed texts s owed =
      pick (IsOwed op) s.agent_starting (λ on. owed)
        (λ off.
          pick (IsOwed op) (not s.has_client) (λ lone. refresh-IsOwed texts s owed)
            (λ has. ground arith))

  pub start_answered-IsOwed :
      (texts : Texts) (s : Controller) → IsOwed op s → IsOwed op (on_agent_start_finished texts s)
  unfolding on_agent_start_finished
  start_answered-IsOwed texts s owed =
      pick (IsOwed op) s.agent_starting
        (λ on. refresh-IsOwed texts (record s { agent_starting = false }) owed) (λ off. owed)

  pub cancel_all-IsOwed : (s : Controller) → IsOwed op s → IsOwed op (cancel_all s)
  unfolding cancel_all
  cancel_all-IsOwed s owed = elim (Option-cases s.list_op) [
    | inl e ↦ elim (Option-cases s.mutation_op) [ inl m ↦ ground arith | inr (b, m) ↦ ground arith ]
    | inr (a, e) ↦ elim (Option-cases s.mutation_op) [
      | inl m ↦ ground arith
      | inr (b, m) ↦ ground arith
    ]
  ]

  pub begin_mutation-IsOwed :
      (request : Request) (kind : CredentialKind) (s : Controller)
      → s.mutation_op ≡ none
      → IsOwed op s
      → IsOwed op (begin_mutation request kind s)
  unfolding begin_mutation
  begin_mutation-IsOwed request kind s m owed = elim (Option-cases s.list_op) [
    | inl e ↦ ground arith
    | inr (held, e) ↦ ground arith
  ]

  pub when_startable-IsOwed :
      (act : AgentCard → Controller) (s : Controller)
      → ((card : AgentCard) → s.mutation_op ≡ none → IsOwed op (act card))
      → IsOwed op s
      → IsOwed op (when_startable (startable s) act s)
  unfolding when_startable
  when_startable-IsOwed act s acts owed = elim (Option-cases (startable s)) [
    | inl e ↦ rw (e, when_startable) owed
    | inr (card, e) ↦ rw (e, when_startable) (acts card (ground arith))
  ]

  pub relist-IsOwed : (s : Controller) → IsOwed op s → IsOwed op (relist_after_mutation s)
  unfolding relist_after_mutation
  relist-IsOwed s owed =
      start_list-IsOwed (record (reset_list_state s) { showing_result = true })
        (reset-IsOwed s owed)
