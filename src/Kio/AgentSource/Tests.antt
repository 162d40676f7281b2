-- ===== src/Kio/AgentSource/Tests.antt =====
-- Runs of the reads over the agent's client library.
use libre_kde.Base.{true, codes, [], ◌∷◌, none, some, ◌≢◌, arith}
use libre_kde.Shared.Agent.{ErrorCode, CallError, OperationStatus}
use libre_kde.Shared.Samples.{plain, plain-IsSpoken}
use libre_kde.Kio.Folders.{Catalog}
use libre_kde.Kio.Render.{default_render_labels}
use libre_kde.Kio.AgentSource.{
  Report, ended, fetched, read_certificates, get_photo, get_certificate_der,
}
use libre_kde.Kio.AgentSource.Identity.{read_identity}
use libre_kde.Kio.AgentSource.Failures.{IsToldOf, IsToldOfFetch, reads-IsFaithful}
use libre_kde.Shared.IdentityRows.Samples.{library, marked}

abbrev timed_out : Report
timed_out = record {
  status = OperationStatus.error;
  error_code = ErrorCode.none;
  call_error = CallError.timeout;
  sync_error = none;
  message_key = [];
  message_fallback = [];
  certificates = [];
  photos = some [] ∷ [];
  der = [];
}

abbrev i18n : Catalog
i18n = record {
  labels = default_render_labels;
  certificate_fallback = λ id. id;
  purpose_and_id = λ purpose id. id;
  disambiguated = λ name n. name;
  service_not_running = codes "not running";
  service_not_installed = codes "not installed";
  card_was_removed = codes "removed";
  service_unavailable = codes "unavailable";
  could_not_read = codes "could not read";
}

failed : timed_out.status ≢ OperationStatus.ok
failed e = ground arith

reads-IsFaithful_example :
    IsToldOf plain i18n true timed_out
      (read_identity library marked plain [] (ended timed_out)).status
      (read_identity library marked plain [] (ended timed_out)).message
    × IsToldOf plain i18n true timed_out
        (read_certificates plain (ended timed_out)).status
        (read_certificates plain (ended timed_out)).message
    × IsToldOf plain i18n true timed_out
        (get_photo plain (ended timed_out)).status
        (get_photo plain (ended timed_out)).message
    × IsToldOfFetch plain i18n true timed_out
        (get_certificate_der plain (fetched timed_out)).status
        (get_certificate_der plain (fetched timed_out)).message
reads-IsFaithful_example =
    reads-IsFaithful plain plain-IsSpoken i18n library marked true [] timed_out failed
