-- ===== src/Credentials/Tests.antt =====
-- Runs of the credential window: a list is read, a PIN change begins and ends.
use libre_kde.Base.{true, false, codes, [], ◌∷◌, none, some, ◌≡◌, refl, inl}
use libre_kde.Shared.Agent.{ErrorCode, CallError, OperationStatus}
use libre_kde.Shared.CredentialText.{CredentialKind, CredentialState, CredentialOutcome}
use libre_kde.Shared.Registry.{AgentClient, first_with_card}
use libre_kde.Shared.Samples.{plain, plain-IsSpoken, card, client}
use libre_kde.Credentials.Model.{CredentialRecord}
use libre_kde.Credentials.Controller.{ready, Controller, init}
use libre_kde.Credentials.Controller.Binding.{refresh, on_list_finished, cancel_all}
use libre_kde.Credentials.Controller.Verbs.{Report, on_mutation_done, change_pin}
use libre_kde.Credentials.Controller.Machine.{
  registry, list_finished, mutation_finished, cancel_pressed, change_pressed, step, Reached, start,
  after,
}
use libre_kde.Credentials.Controller.Invariant.{IsSound}
use libre_kde.Credentials.Controller.Soundness.{reached-IsSound}
use libre_kde.Credentials.Controller.Owed.{IsOwed}
use libre_kde.Credentials.Controller.Owed.Steps.{step-IsOwed}
use libre_kde.Credentials.Controller.Ending.{IsOver, on_mutation_done-IsOver}
use libre_kde.Credentials.Controller.Calm.{cancelled-calm}
use libre_kde.Credentials.Controller.Told.{IsTold, on_mutation_done-IsTold}
use libre_kde.Credentials.Controller.Pinned.{IsKept, step-pinned}

abbrev pin : CredentialRecord
pin = record {
  id = codes "pin";
  kind = CredentialKind.user;
  state = CredentialState.operational;
  can_change = true;
  unblockable = false;
  activatable = false;
  key_activatable = false;
  key_activation_pending = false;
  retries_left = some 3;
  retries_max = some 3;
  uses_left = none;
  uses_max = none;
  blocked_guidance_key = none;
  blocked_guidance_fallback = none;
  key_activation_guidance_key = none;
  key_activation_guidance_fallback = none;
}

abbrev away : AgentClient
away = record client { is_available = false }

abbrev wrong_pin : Report
wrong_pin = record {
  status = OperationStatus.error;
  outcome = CredentialOutcome.invalid_pin;
  retries_left = some 2;
  error_code = ErrorCode.credential_wrong;
  call_error = CallError.none;
  sync_error = none;
  message_key = [];
  message_fallback = [];
}

abbrev listing : Controller
listing = step plain (init true client) (registry client)

abbrev listed : Controller
listed = step plain listing (list_finished 0 OperationStatus.ok (pin ∷ []))

abbrev changing : Controller
changing = step plain listed (change_pressed (codes "pin"))

listed-ready : listed.state ≡ ready
unfolding step init refresh first_with_card on_list_finished change_pin
listed-ready = refl

reached-IsSound_example : IsSound changing
reached-IsSound_example = reached-IsSound plain true client changing (
    after
      (after (after start (registry client) tt) (list_finished 0 OperationStatus.ok (pin ∷ [])) tt)
      (change_pressed (codes "pin")) tt)

listing-IsOwed : IsOwed 0 listing
unfolding step init refresh first_with_card on_list_finished change_pin
listing-IsOwed = inl refl

step-IsOwed_example : IsOwed 0 (step plain listing (registry away))
step-IsOwed_example = step-IsOwed 0 plain listing (registry away) tt listing-IsOwed

changing-bound : changing.card ≡ some card
unfolding step init refresh first_with_card on_list_finished change_pin
changing-bound = refl

changing-single : changing.list_op ≡ none
unfolding step init refresh first_with_card on_list_finished change_pin
changing-single = refl

changing-live : changing.mutation_op ≡ some 1
unfolding step init refresh first_with_card on_list_finished change_pin
changing-live = refl

on_mutation_done-IsOver_example :
    IsOver changing (on_mutation_done plain wrong_pin changing) card true true
unfolding step init refresh first_with_card on_list_finished change_pin
on_mutation_done-IsOver_example =
    on_mutation_done-IsOver plain wrong_pin changing card changing-bound changing-single

abbrev reads_list : Reached plain (init true client) changing
reads_list =
    after
      (after (after start (registry client) tt) (list_finished 0 OperationStatus.ok (pin ∷ [])) tt)
      (change_pressed (codes "pin")) tt

abbrev asked : Controller
asked = step plain changing cancel_pressed

abbrev cancelling : Controller
cancelling = step plain asked (registry client)

cancelling-live : cancelling.mutation_op ≡ some 1
unfolding step init refresh first_with_card on_list_finished change_pin cancel_all
cancelling-live = refl

cancelled-calm_example :
    (step plain cancelling (mutation_finished 1 wrong_pin)).result_is_error ≡ false
cancelled-calm_example =
    cancelled-calm plain true client changing cancelling 1 wrong_pin reads_list changing-live
      (after start (registry client) tt) cancelling-live

on_mutation_done-IsTold_example : IsTold (on_mutation_done plain wrong_pin changing)
on_mutation_done-IsTold_example = on_mutation_done-IsTold plain plain-IsSpoken wrong_pin changing

step-pinned_example : IsKept changing (step plain changing (registry client))
unfolding step init refresh first_with_card on_list_finished change_pin
step-pinned_example = step-pinned plain changing (registry client) refl refl refl refl refl

abbrev failed_list : Controller
failed_list = step plain listing (list_finished 0 OperationStatus.error [])
