-- ===== src/Shared/Agent.antt =====
-- The vocabulary of the agent's client library that this program's code switches on, with the
-- enumerators that the code names; a type with values beyond those has a constructor for the rest.
use libre_kde.Base.{ℕ, Text}

-- The capabilities of a card that this program asks for.
pub data Cap : Type 0 where
  identity_data pki emrtd_crypto pin_management : Cap

-- The client library's knowledge of whether there is an agent.
pub data AgentState : Type 0 where
  ready stopped missing : AgentState

pub data ErrorCode : Type 0 where
  none card_removed credential_wrong credential_blocked communication_error parse_error : ErrorCode
  unsupported_card auth_failed prompter_error capability_missing watchdog_timeout : ErrorCode
  key_not_found key_ambiguous cert_expired_blocked chain_incomplete tsa_unreachable : ErrorCode
  signing_engine_error invalid_document entry_expired engine_unavailable rate_limited : ErrorCode
  unrecognised : ℕ → ErrorCode

pub data CallError : Type 0 where
  none agent_unavailable timeout access_denied invalid_arguments transport_failure : CallError
  protocol_error : CallError

-- The name of a refusal at method entry.
pub data SyncError : Type 0 where
  unknown_credential rate_limited invalid_request key_not_found unknown_card : SyncError
  other : ℕ → SyncError

pub data OperationStatus : Type 0 where
  ok cancelled error : OperationStatus

pub data FailureSource : Type 0 where
  message_key error_code agent_message transport generic : FailureSource

-- What the client library decides that a user reads of a failure.
pub record FailureCopy : Type 0 where
  pub source : FailureSource
  pub key : Text
  pub code : ErrorCode
  pub call : CallError
  pub detail : Text
