-- ===== src/Kio/AgentSource.antt =====
-- components/kio/AgentCardDataSource.cpp: the reads of the worker over the agent's client library. A read
-- waits in a nested event loop for the end of its operation; how the wait ended is an argument.
pub mod Failures
pub mod Photos
pub mod Presences
pub mod Identity
mod Tests
use libre_kde.Base.{
  ℕ, Bool, true, false, not, ◌&&◌, Text, is_empty, List, [], ◌∷◌, Option, none, some, if◌then◌else◌,
}
use libre_kde.Shared.Agent.{ErrorCode, CallError, SyncError, OperationStatus}
use libre_kde.Shared.ErrorText.{Texts, for_outcome, for_code}
use libre_kde.Shared.Registry.{AgentCard, AgentReader, AgentClient, reader_label}
use libre_kde.Kio.Source.{
  CardPresence, ReadStatus, CertificateInfo, CertListResult, PhotoResult, CertDerResult,
}

-- What is read of an operation that has ended. A photo is what could be read of its payload.
pub record Report : Type 0 where
  pub status : OperationStatus
  pub error_code : ErrorCode
  pub call_error : CallError
  pub sync_error : Option SyncError
  pub message_key : Text
  pub message_fallback : Text
  pub certificates : List CertificateInfo
  pub photos : List (Option (List ℕ))
  pub der : List ℕ

-- How a read comes back from its wait: there was no card, the operation is gone with it, or it ended.
pub data Wait : Type 0 where
  no_card card_gone : Wait
  ended : Report → Wait

-- The arms on the two failure axes of an operation that neither succeeded nor was cancelled.
status_of_call : CallError → ReadStatus
status_of_call CallError.agent_unavailable = ReadStatus.unavailable
status_of_call CallError.timeout = ReadStatus.unavailable
status_of_call CallError.access_denied = ReadStatus.auth_failed
status_of_call CallError.invalid_arguments = ReadStatus.capability_missing
status_of_call CallError.transport_failure = ReadStatus.error
status_of_call CallError.protocol_error = ReadStatus.error
status_of_call CallError.none = ReadStatus.error

status_of_failure : ErrorCode → CallError → ReadStatus
unfolding status_of_call
status_of_failure ErrorCode.credential_wrong call = ReadStatus.auth_failed
status_of_failure ErrorCode.credential_blocked call = ReadStatus.auth_failed
status_of_failure ErrorCode.auth_failed call = ReadStatus.auth_failed
status_of_failure ErrorCode.card_removed call = ReadStatus.card_removed
status_of_failure ErrorCode.capability_missing call = ReadStatus.capability_missing
status_of_failure ErrorCode.unsupported_card call = ReadStatus.capability_missing
status_of_failure _ call = status_of_call call

-- `mapStatus`.
unfoldable pub map_status : OperationStatus → ErrorCode → CallError → ReadStatus
unfolding status_of_failure
map_status OperationStatus.ok code call = ReadStatus.ok
map_status OperationStatus.cancelled code CallError.none = ReadStatus.cancelled
map_status OperationStatus.cancelled code call = status_of_failure code call
map_status OperationStatus.error code call = status_of_failure code call

-- `reasonFor`.
unfoldable pub reason_for : Texts → ReadStatus → Report → Text
reason_for texts ReadStatus.error r =
    for_outcome texts r.error_code r.call_error r.message_key r.message_fallback
reason_for texts ReadStatus.unavailable r =
    for_outcome texts r.error_code r.call_error r.message_key r.message_fallback
reason_for texts _ r = []

abbrev pub status_of : Report → ReadStatus
status_of r = map_status r.status r.error_code r.call_error

abbrev no_certs : ReadStatus → Text → CertListResult
no_certs status message = record { status = status; certs = []; message = message }

certs_of : Texts → Report → ReadStatus → CertListResult
certs_of texts r ReadStatus.ok = record {
  status = ReadStatus.ok;
  certs = r.certificates;
  message = [];
}
certs_of texts r status = no_certs status (reason_for texts status r)

-- `readCertificates`.
unfoldable pub read_certificates : Texts → Wait → CertListResult
unfolding certs_of
read_certificates texts no_card = no_certs ReadStatus.unavailable []
read_certificates texts card_gone = no_certs ReadStatus.card_removed []
read_certificates texts (ended r) = certs_of texts r (status_of r)

abbrev no_photo : ReadStatus → Text → PhotoResult
no_photo status message = record { status = status; bytes = []; message = message }

-- The first photo: none, one that cannot be read, one that is empty, or its bytes.
first_photo : Texts → List (Option (List ℕ)) → PhotoResult
first_photo texts [] = no_photo ReadStatus.not_available []
first_photo texts (none ∷ photos) =
    no_photo ReadStatus.error (for_code texts ErrorCode.communication_error [])
first_photo texts (some [] ∷ photos) = no_photo ReadStatus.not_available []
first_photo texts (some (b ∷ bytes) ∷ photos) = record {
  status = ReadStatus.ok;
  bytes = b ∷ bytes;
  message = [];
}

photo_of : Texts → Report → ReadStatus → PhotoResult
unfolding first_photo
photo_of texts r ReadStatus.ok = first_photo texts r.photos
photo_of texts r status = no_photo status (reason_for texts status r)

-- `getPhoto`.
unfoldable pub get_photo : Texts → Wait → PhotoResult
unfolding photo_of
get_photo texts no_card = no_photo ReadStatus.unavailable []
get_photo texts card_gone = no_photo ReadStatus.card_removed []
get_photo texts (ended r) = photo_of texts r (status_of r)

-- How the fetch of a certificate comes back: its operation is the client's, so the card's removal is
-- watched beside it.
pub data Fetch : Type 0 where
  no_card client_gone card_removed unfinished : Fetch
  fetched : Report → Fetch

abbrev no_der : ReadStatus → Text → CertDerResult
no_der status message = record { status = status; der = []; message = message }

is_missing : Option SyncError → Bool
is_missing (some SyncError.key_not_found) = true
is_missing (some SyncError.unknown_card) = true
is_missing _ = false

failed_fetch : CallError → ReadStatus
failed_fetch CallError.agent_unavailable = ReadStatus.unavailable
failed_fetch _ = ReadStatus.error

der_of : Texts → Report → OperationStatus → CertDerResult
unfolding is_missing failed_fetch
der_of texts r OperationStatus.ok = record { status = ReadStatus.ok; der = r.der; message = [] }
der_of texts r _ =
    if is_missing r.sync_error
    then no_der ReadStatus.not_available []
    else no_der (failed_fetch r.call_error) (reason_for texts (failed_fetch r.call_error) r)

-- `getCertificateDer`.
unfoldable pub get_certificate_der : Texts → Fetch → CertDerResult
unfolding der_of
get_certificate_der texts Fetch.no_card = no_der ReadStatus.unavailable []
get_certificate_der texts client_gone = no_der ReadStatus.unavailable []
get_certificate_der texts Fetch.card_removed = no_der ReadStatus.card_removed []
get_certificate_der texts unfinished = no_der ReadStatus.unavailable []
get_certificate_der texts (fetched r) = der_of texts r r.status

pub presence_of : Texts → AgentReader → AgentCard → CardPresence
presence_of texts reader card = record {
  reader_name = reader.name;
  reader_label = reader_label texts reader;
  card_id = card.id;
  capabilities = card.capabilities;
  pre_read_auth = card.pre_read_auth;
}

pub with_presence : Texts → AgentReader → Option AgentCard → List CardPresence → List CardPresence
unfolding presence_of
with_presence texts reader none rest = rest
with_presence texts reader (some card) rest = presence_of texts reader card ∷ rest

presences : Texts → AgentClient → List AgentReader → List CardPresence
unfolding with_presence
presences texts client [] = []
presences texts client (r ∷ readers) =
    let rest = presences texts client readers in
    if r.has_card then with_presence texts r (client.card r.card_id) rest else rest

-- `listReadersWithCards`.
unfoldable pub list_readers_with_cards : Texts → AgentClient → List CardPresence
unfolding presences
list_readers_with_cards texts client = presences texts client client.readers
