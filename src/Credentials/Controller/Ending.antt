-- ===== src/Credentials/Controller/Ending.antt =====
-- components/credentials/src/CredentialController.cpp: how a verb ends, what is told of it and whether
-- the card's list is read again.
use libre_kde.Base.{
  Bool, true, false, not, ◌&&◌, codes, Text, ◌∷◌, Option, none, some, ◌≡◌, refl, inl, inr,
  if◌then◌else◌, arith, Bool-cases,
}
use libre_kde.Shared.Agent.{SyncError}
use libre_kde.Shared.ErrorText.{Texts, say}
use libre_kde.Shared.CredentialText.{CredentialOutcome, is_neutral}
use libre_kde.Shared.Registry.{AgentCard}
use libre_kde.Credentials.Controller.{result, list_credentials, Controller, reset_list_state}
use libre_kde.Credentials.Controller.Binding.{abandon_list, list_bound, start_list_credentials}
use libre_kde.Credentials.Controller.Verbs.{
  Report, relist_after_mutation, handle_refusal, outcome_shown, finish_outcome, settle,
  on_mutation_done, is_card_removed, effective_outcome, was_cancelled,
}

-- Whether the end of a verb leaves a list that is out of date.
abbrev pub is_stale : Option SyncError → CredentialOutcome → Bool
is_stale none outcome = not (is_card_removed outcome)
is_stale (some SyncError.rate_limited) outcome = false
is_stale (some SyncError.invalid_request) outcome = false
is_stale (some _) outcome = true

-- Whether the end of a verb is an error of the card or of the agent.
abbrev pub is_failure : Report → Controller → Option SyncError → Bool
is_failure r s none = not (was_cancelled r s) && not (is_neutral (effective_outcome r s))
is_failure r s (some named) = false

-- The verb is over, its result is on screen, and the list is read again just where it is out of date.
abbrev pub IsOver : Controller → Controller → AgentCard → Bool → Bool → Type 0
IsOver s t card stale failed =
    (t.mutation_op ≡ none)
    × (t.mutation_cancel_requested ≡ false)
    × (t.state ≡ result)
    × (t.result_is_error ≡ failed)
    × (t.list_op ≡ (if stale then some s.next_op else none))
    × (t.log ≡ (if stale then list_credentials card.object s.next_op ∷ s.log else s.log))
    × (t.model ≡ s.model)

relist-IsOver :
    (s t : Controller) (card : AgentCard) (failed : Bool)
    → t.card ≡ some card
    → t.list_op ≡ none
    → t.mutation_op ≡ none
    → t.mutation_cancel_requested ≡ false
    → t.state ≡ result
    → t.result_is_error ≡ failed
    → t.next_op ≡ s.next_op
    → t.log ≡ s.log
    → t.model ≡ s.model
    → IsOver s (relist_after_mutation t) card true failed
unfolding relist_after_mutation start_list_credentials list_bound abandon_list reset_list_state
relist-IsOver s t card failed c l m r st er n lg md = ground arith

module _ (texts : Texts) (report : Report) (s : Controller) (card : AgentCard)
    (bound : s.card ≡ some card) (single : s.list_op ≡ none) where
  finish-IsOver :
      IsOver s
        (finish_outcome texts report s)
        card
        (is_stale none (effective_outcome report s))
        (is_failure report s none)
  unfolding finish_outcome outcome_shown
  finish-IsOver = elim (Bool-cases (is_card_removed (effective_outcome report s))) [
    | inl e ↦ rw (e, ◌≡◌) (refl, refl, refl, refl, single, refl, refl)
    | inr e ↦ rw e (
        relist-IsOver s (outcome_shown texts report s) card _ bound single refl refl refl refl refl
          refl refl)
  ]

  abbrev over : Text → Controller
  over message = record s {
    mutation_op = none;
    mutation_cancel_requested = false;
    result_is_error = false;
    result_message = message;
    state = result;
  }

  refused-IsOver :
      (named : SyncError)
      → IsOver s
          (settle texts report (some named) s)
          card
          (is_stale (some named) (effective_outcome report s))
          false
  unfolding settle handle_refusal
  refused-IsOver SyncError.unknown_credential =
      relist-IsOver s
        (over (say texts (codes "The card's credentials changed; the list was refreshed."))) card
        false bound single refl refl refl refl refl refl refl
  refused-IsOver SyncError.rate_limited = (refl, refl, refl, refl, single, refl, refl)
  refused-IsOver SyncError.invalid_request = (refl, refl, refl, refl, single, refl, refl)
  refused-IsOver _ =
      relist-IsOver s (over (say texts (codes "The action could not be started."))) card false bound
        single refl refl refl refl refl refl refl

  settle-IsOver :
      (named : Option SyncError)
      → IsOver s
          (settle texts report named s)
          card
          (is_stale named (effective_outcome report s))
          (is_failure report s named)
  unfolding settle
  settle-IsOver none = finish-IsOver
  settle-IsOver (some named) = refused-IsOver named

-- The end of a verb, on a bound card with no list in flight: no verb is in flight or marked as
-- cancelled, the result is on screen, and it is an error just where the agent named no refusal, the
-- user did not cancel and the outcome is not a neutral one; the list is asked for again, under the
-- next number, just where a refusal says that its ids are stale or the attempt ended otherwise than
-- by the card's removal, and the rows stay until it comes.
pub on_mutation_done-IsOver :
    (texts : Texts) (report : Report) (s : Controller) (card : AgentCard)
    → s.card ≡ some card
    → s.list_op ≡ none
    → IsOver s
        (on_mutation_done texts report s)
        card
        (is_stale report.sync_error (effective_outcome report s))
        (is_failure report s report.sync_error)
unfolding on_mutation_done
on_mutation_done-IsOver texts report s card bound single =
    settle-IsOver texts report s card bound single report.sync_error
