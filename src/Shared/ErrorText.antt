-- ===== src/Shared/ErrorText.antt =====
-- shared/agentclient/ErrorText.cpp: the sentence that a user reads of a failure. The translation
-- catalogue and the client library's `describeFailure` are the fields of `Texts`.
pub mod Floor
use libre_kde.Base.{
  ℕ, Bool, ◌||◌, Text, codes, is_empty, text_eq, List, [], ◌∷◌, ◌++◌, Option, none, some,
  if◌then◌else◌,
}
use libre_kde.Shared.Agent.{ErrorCode, CallError, FailureSource, FailureCopy}

-- `translate msgid args` is the catalogue's text of a message with its arguments put in.
pub record Texts : Type 0 where
  pub translate : Text → List Text → Text
  pub describe_failure : ErrorCode → CallError → Text → Text → FailureCopy

-- A message without arguments.
abbrev pub say : Texts → Text → Text
say texts msgid = texts.translate msgid []

unfoldable pub generic_failure : Texts → Text
generic_failure texts =
    say texts (codes "The operation did not finish, and no reason was reported.")

for_call_error : Texts → CallError → Text
for_call_error texts CallError.agent_unavailable =
    say texts
      (codes "Could not reach the smart-card service. Check that it is installed and running.")
for_call_error texts CallError.timeout =
    say texts (codes "The smart-card service did not answer in time. Try again.")
for_call_error texts CallError.access_denied =
    say texts (codes "Permission to use the smart-card service was denied.")
for_call_error texts CallError.invalid_arguments =
    say texts (codes "This request was refused before any work on it started.")
for_call_error texts CallError.transport_failure =
    say texts (codes "The connection to the smart-card service was lost. Try again.")
for_call_error texts CallError.protocol_error = say texts (
    codes
      "The smart-card service replied in a way this application does not understand. The two may be different versions.")
for_call_error texts CallError.none = generic_failure texts

localized_copy_for : Texts → ErrorCode → Option Text
localized_copy_for texts ErrorCode.card_removed =
    some (say texts (codes "The card was removed before the operation finished."))
localized_copy_for texts ErrorCode.credential_wrong =
    some (say texts (codes "The PIN or access code entered was incorrect."))
localized_copy_for texts ErrorCode.credential_blocked =
    some (say texts (codes "The card credential is blocked. Unblock it before retrying."))
localized_copy_for texts ErrorCode.communication_error =
    some (say texts (codes "Communication with the card reader failed."))
localized_copy_for texts ErrorCode.parse_error =
    some (say texts (codes "The data read from the card could not be interpreted."))
localized_copy_for texts ErrorCode.unsupported_card =
    some (say texts (codes "This card is not supported."))
localized_copy_for texts ErrorCode.auth_failed =
    some (say texts (codes "Authentication with the card failed."))
localized_copy_for texts ErrorCode.prompter_error =
    some (say texts (codes "The secure entry prompt could not be shown."))
localized_copy_for texts ErrorCode.capability_missing =
    some (say texts (codes "This card does not support the requested operation."))
localized_copy_for texts ErrorCode.watchdog_timeout =
    some (say texts (codes "The operation timed out."))
localized_copy_for texts ErrorCode.key_not_found =
    some (say texts (codes "The selected certificate could not be found on the card."))
localized_copy_for texts ErrorCode.key_ambiguous =
    some (say texts (codes "More than one key matched the selection."))
localized_copy_for texts ErrorCode.cert_expired_blocked =
    some (say texts (codes "The signing certificate has expired."))
localized_copy_for texts ErrorCode.chain_incomplete =
    some (say texts (codes "The certificate chain could not be completed."))
localized_copy_for texts ErrorCode.tsa_unreachable =
    some (say texts (codes "The timestamp authority is unreachable."))
localized_copy_for texts ErrorCode.signing_engine_error =
    some (say texts (codes "The signing engine reported an error."))
localized_copy_for texts ErrorCode.invalid_document = some (
    say texts
      (codes "The document you tried to sign is invalid or could not be read. Check the file."))
localized_copy_for texts ErrorCode.entry_expired =
    some (say texts (codes "The entry window closed before a code was entered. Try again."))
localized_copy_for texts ErrorCode.engine_unavailable = some (
    say texts (
      codes
        "The signing service is not set up correctly — its security module could not be loaded. Check the installation."))
localized_copy_for texts ErrorCode.rate_limited =
    some (say texts (codes "Too many signing requests. Try again shortly."))
localized_copy_for texts ErrorCode.none = none
localized_copy_for texts (ErrorCode.unrecognised n) = none

abbrev or_text : Option Text → Text → Text
or_text none t = t
or_text (some a) t = a

for_message_key : Texts → Text → Text
for_message_key texts key =
    if text_eq key (codes "op.cancelled")
    then say texts (codes "The operation was cancelled.")
    else if text_eq key (codes "op.helper_too_old")
    then say texts (codes "The secure entry prompt is out of date. Update the smart-card service.")
    else if text_eq key (codes "op.card_removed")
    then or_text (localized_copy_for texts ErrorCode.card_removed) []
    else if text_eq key (codes "op.entry_expired")
    then or_text (localized_copy_for texts ErrorCode.entry_expired) []
    else if text_eq key (codes "op.watchdog_timeout")
    then or_text (localized_copy_for texts ErrorCode.watchdog_timeout) []
    else generic_failure texts

unfoldable pub for_code : Texts → ErrorCode → Text → Text
unfolding localized_copy_for
for_code texts code fallback = or_text (localized_copy_for texts code) fallback

-- The headline, and below it the agent's own line where that says more.
with_detail : Text → Text → Text
with_detail headline detail =
    if is_empty detail || text_eq detail headline then headline else headline ++ b'\n' ∷ detail

copy_text : Texts → FailureCopy → FailureSource → Text
unfolding for_message_key localized_copy_for with_detail for_call_error
copy_text texts copy FailureSource.message_key = for_message_key texts copy.key
copy_text texts copy FailureSource.error_code =
    with_detail (or_text (localized_copy_for texts copy.code) (generic_failure texts)) copy.detail
copy_text texts copy FailureSource.agent_message = copy.detail
copy_text texts copy FailureSource.transport = for_call_error texts copy.call
copy_text texts copy FailureSource.generic = generic_failure texts

unfoldable pub for_outcome : Texts → ErrorCode → CallError → Text → Text → Text
unfolding copy_text
for_outcome texts code call key fallback =
    let copy = texts.describe_failure code call key fallback in copy_text texts copy copy.source
