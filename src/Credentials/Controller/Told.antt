-- ===== src/Credentials/Controller/Told.antt =====
-- components/credentials/src/CredentialController.cpp: an error that is shown has words.
use libre_kde.Base.{
  ℕ, true, false, is_empty, codes, Option, none, some, ◌≡◌, inl, inr, arith, Option-cases, pick,
}
use libre_kde.Shared.Agent.{SyncError}
use libre_kde.Shared.ErrorText.{Texts, say}
use libre_kde.Shared.ErrorText.Floor.{IsSpoken, for_outcome-spoken}
use libre_kde.Shared.CredentialText.{
  CredentialKind, CredentialOutcome, outcome_message, invalid_pin_message, is_neutral,
}
use libre_kde.Credentials.Controller.{Controller, reset_list_state}
use libre_kde.Credentials.Controller.Binding.{abandon_list, list_bound, start_list_credentials}
use libre_kde.Credentials.Controller.Verbs.{
  Report, relist_after_mutation, handle_refusal, outcome_shown, finish_outcome, settle,
  on_mutation_done, result_text, is_card_removed, effective_outcome, notice,
}

-- A result that is an error is not an empty one.
abbrev pub IsTold : Controller → Type 0
IsTold s = s.result_is_error ≡ true → is_empty s.result_message ≡ false

relist-IsTold : (s : Controller) → IsTold s → IsTold (relist_after_mutation s)
unfolding relist_after_mutation start_list_credentials list_bound abandon_list reset_list_state
relist-IsTold s told = elim (Option-cases s.card) [
  | inl e ↦ ground arith
  | inr (card, e) ↦ ground arith
]

refusal-IsTold :
    (texts : Texts) (named : SyncError) (s : Controller) → IsTold (handle_refusal texts named s)
unfolding handle_refusal
refusal-IsTold texts SyncError.unknown_credential s =
    relist-IsTold
      (notice (say texts (codes "The card's credentials changed; the list was refreshed.")) s)
      (λ red. ground arith)
refusal-IsTold texts SyncError.rate_limited s = λ red. ground arith
refusal-IsTold texts SyncError.invalid_request s = λ red. ground arith
refusal-IsTold texts _ s =
    relist-IsTold (notice (say texts (codes "The action could not be started.")) s)
      (λ red. ground arith)

module _ (texts : Texts) (spoken : IsSpoken texts) where
  outcome-spoken :
      (outcome : CredentialOutcome) (kind : CredentialKind) (left : Option ℕ)
      → is_neutral outcome ≡ false
      → is_empty (outcome_message texts outcome kind left) ≡ false
  unfolding outcome_message invalid_pin_message
  outcome-spoken CredentialOutcome.ok kind left e = cc
  outcome-spoken CredentialOutcome.user_cancelled kind left e = cc
  outcome-spoken CredentialOutcome.invalid_pin kind none e = spoken.translated _ _
  outcome-spoken CredentialOutcome.invalid_pin kind (some n) e = spoken.translated _ _
  outcome-spoken _ kind left e = spoken.translated _ _

  shown-IsTold : (report : Report) (s : Controller) → IsTold (outcome_shown texts report s)
  unfolding outcome_shown result_text
  shown-IsTold report s red = ground (
    arith,
    outcome-spoken (effective_outcome report s) s.pending_presented_kind report.retries_left,
    for_outcome-spoken texts spoken report.error_code report.call_error report.message_key
        report.message_fallback,
  )

  settle-IsTold :
      (report : Report) (named : Option SyncError) (s : Controller)
      → IsTold (settle texts report named s)
  unfolding settle finish_outcome handle_refusal
  settle-IsTold report none s =
      pick IsTold (is_card_removed (effective_outcome report s))
        {x = record (outcome_shown texts report s) { removal_notice = result_text texts report s }}
        (λ removed. shown-IsTold report s)
        (λ held. relist-IsTold (outcome_shown texts report s) (shown-IsTold report s))
  settle-IsTold report (some named) s =
      refusal-IsTold texts named
        (record s { mutation_op = none; mutation_cancel_requested = false })

  -- Where no text of the catalogue is empty and an agent's message is named only where there is one,
  -- a verb that ends in an error says so with a sentence that is not empty.
  pub on_mutation_done-IsTold :
      (report : Report) (s : Controller) → IsTold (on_mutation_done texts report s)
  unfolding on_mutation_done
  on_mutation_done-IsTold report s = settle-IsTold report report.sync_error s
