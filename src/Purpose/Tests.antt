-- ===== src/Purpose/Tests.antt =====
-- Runs of the share action: one file, and two.
use libre_kde.Base.{true, codes, Text, text_eq, [], ◌∷◌, none, some, length, drop, false, ◌≡◌, refl}
use libre_kde.Shared.Agent.{ErrorCode, CallError, OperationStatus}
use libre_kde.Shared.Registry.{cards_with_capability}
use libre_kde.Shared.Samples.{plain, plain-IsSpoken, client}
use libre_kde.Kio.Source.{CertificateInfo}
use libre_kde.Signing.Format.{
  auto_level, pades_format, enveloped_packaging, to_sign_options, choice_of,
}
use libre_kde.Signing.Selection.{choose_signing_card}
use libre_kde.Signing.Seams.{rejected, accepted, widget_cert_chooser}
use libre_kde.Signing.Job.{written, OperationReport, new_job, mime_of, signing_capable}
use libre_kde.Signing.Job.Progress.{flow}
use libre_kde.Purpose.{Share, Setting, output, error, user_defined, start, run, results}
use libre_kde.Purpose.Meant.{IsShared, run-IsShared}
use libre_kde.Purpose.Ended.{run-results}

-- Every url names its own text as a local path, and the user takes the second row of any dialog.
abbrev setting : Setting
setting = record {
  texts = plain;
  short_date = λ date. [];
  cert_dialog = λ title prompt rows. accepted (some 1);
  card_dialog = λ title prompt rows. rejected;
  after_dialog = client;
  files = record { local_file = some; url_of_file = λ path. codes "file:" };
  desk = record {
    default_options = record {
      format = pades_format;
      packaging = enveloped_packaging;
      level = auto_level;
    };
    mime_type_for_file = λ path. codes "application/pdf";
    opens = λ path. true;
    write_signed_file = λ artifact path format packaging. written (codes "/tmp/a-signed.pdf");
  };
}

abbrev share : Share
share = record { urls = codes "/tmp/a.pdf" ∷ []; mime_type = codes "application/pdf" }

-- Two certificates of one subject: the labels of their rows are the same.
abbrev key : Text → CertificateInfo
key id = record {
  id = id;
  subject = codes "CN=A";
  issuer = codes "CN=B";
  not_after = record { is_valid = false; is_local_time = false; iso = []; utc_iso = [] };
  key_usage_bits = 2;
  extended_key_usage_oids = [];
  signing_capable = true;
  chain_subject_cns = [];
}

abbrev reads : OperationReport
reads = record {
  status = OperationStatus.ok;
  error_code = ErrorCode.none;
  call_error = CallError.none;
  message_key = [];
  message_fallback = [];
  certificates = key (codes "k1") ∷ key (codes "k2") ∷ [];
  sign_meta = [];
  artifact = none;
}

abbrev signs : OperationReport
signs = record reads { certificates = []; artifact = some 5 }

second_row :
    widget_cert_chooser plain (λ date. []) setting.cert_dialog reads.certificates
    ≡ some (codes "k2")
unfolding widget_cert_chooser
second_row = refl

two_files :
    results setting (start setting (record share { urls = codes "/a" ∷ codes "/b" ∷ [] }) client)
    ≡ error user_defined (codes ">Select a single file to sign — %1 files were shared.") ∷ []
unfolding results start
two_files = refl

signed_file :
    results setting (run setting (start setting share client) (drop 1 (flow false reads signs)))
    ≡ output (codes "file:") ∷ []
unfolding results run start choose_signing_card cards_with_capability text_eq widget_cert_chooser
    new_job to_sign_options choice_of mime_of signing_capable
signed_file = refl

run-results_example :
    length
      (results setting (run setting (start setting share client) (drop 1 (flow false reads signs))))
    ≡ 1
run-results_example = run-results setting share client false reads signs plain-IsSpoken

run-IsShared_example :
    IsShared setting share client
      (drop 1 (flow true reads signs))
      (run setting (start setting share client) (drop 1 (flow true reads signs)))
run-IsShared_example =
    run-IsShared setting share client (drop 1 (flow true reads signs)) plain-IsSpoken
