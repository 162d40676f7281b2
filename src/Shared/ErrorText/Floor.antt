-- ===== src/Shared/ErrorText/Floor.antt =====
-- shared/agentclient/ErrorText.cpp: no failure is told by an empty sentence.
use libre_kde.Base.{false, Text, codes, is_empty, List, [], ◌∷◌, ◌≡◌, refl, arith}
use libre_kde.Shared.Agent.{ErrorCode, CallError, FailureSource, FailureCopy}
use libre_kde.Shared.ErrorText.{
  Texts, generic_failure, for_call_error, localized_copy_for, for_message_key, or_text, with_detail,
  copy_text, for_outcome,
}

-- A catalogue gives the translation or the English message, never an empty text; and the client
-- library names the agent's own message as the source only where there is one.
pub record IsSpoken (texts : Texts) : Type 0 where
  pub translated : (msgid : Text) (args : List Text) → is_empty (texts.translate msgid args) ≡ false
  pub detailed :
      (code : ErrorCode) (call : CallError) (key fallback : Text)
      → (texts.describe_failure code call key fallback).source ≡ FailureSource.agent_message
      → is_empty (texts.describe_failure code call key fallback).detail ≡ false

module _ (texts : Texts) (spoken : IsSpoken texts) where
  call_error-spoken : (call : CallError) → is_empty (for_call_error texts call) ≡ false
  unfolding for_call_error generic_failure
  call_error-spoken CallError.none = spoken.translated _ _
  call_error-spoken _ = spoken.translated _ _

  generic-spoken : is_empty (generic_failure texts) ≡ false
  unfolding generic_failure
  generic-spoken = spoken.translated _ _

  code-spoken :
      (code : ErrorCode) (d : Text)
      → is_empty d ≡ false
      → is_empty (or_text (localized_copy_for texts code) d) ≡ false
  unfolding localized_copy_for
  code-spoken ErrorCode.none d h = h
  code-spoken (ErrorCode.unrecognised n) d h = h
  code-spoken _ d h = spoken.translated _ _

  named-spoken :
      (code : ErrorCode)
      → is_empty (or_text (localized_copy_for texts code) (generic_failure texts)) ≡ false
  named-spoken code = code-spoken code (generic_failure texts) generic-spoken

  with_detail-spoken :
      (headline detail : Text)
      → is_empty headline ≡ false
      → is_empty (with_detail headline detail) ≡ false
  unfolding with_detail
  with_detail-spoken [] detail h = cc
  with_detail-spoken (c ∷ s) detail h = ground arith

  message_key-spoken : (key : Text) → is_empty (for_message_key texts key) ≡ false
  unfolding for_message_key localized_copy_for
  message_key-spoken key = ground (
    arith,
    generic-spoken,
    spoken.translated (codes "The operation was cancelled.") [],
    spoken.translated
        (codes "The secure entry prompt is out of date. Update the smart-card service.") [],
    spoken.translated (codes "The card was removed before the operation finished.") [],
    spoken.translated (codes "The entry window closed before a code was entered. Try again.") [],
    spoken.translated (codes "The operation timed out.") [],
  )

  copy_text-spoken :
      (copy : FailureCopy) (source : FailureSource)
      → (source ≡ FailureSource.agent_message → is_empty copy.detail ≡ false)
      → is_empty (copy_text texts copy source) ≡ false
  unfolding copy_text
  copy_text-spoken copy FailureSource.message_key h = message_key-spoken copy.key
  copy_text-spoken copy FailureSource.error_code h =
      with_detail-spoken _ copy.detail (named-spoken copy.code)
  copy_text-spoken copy FailureSource.agent_message h = h refl
  copy_text-spoken copy FailureSource.transport h = call_error-spoken copy.call
  copy_text-spoken copy FailureSource.generic h = generic-spoken

  -- Whatever the two failure axes and the message say of a failure, the sentence for it is not empty,
  -- given a catalogue with no empty text and a client library that names an agent's message as the
  -- source only where there is one.
  pub for_outcome-spoken :
      (code : ErrorCode) (call : CallError) (key fallback : Text)
      → is_empty (for_outcome texts code call key fallback) ≡ false
  unfolding for_outcome
  for_outcome-spoken code call key fallback =
      copy_text-spoken (texts.describe_failure code call key fallback) _
        (spoken.detailed code call key fallback)
