-- ===== src/Signing/Tests.antt =====
-- Runs of shared/signing: a file is signed with a card that holds one certificate that can sign.
use libre_kde.Base.{true, false, codes, text_eq, [], ◌∷◌, none, some, All, ◌≡◌, ◌↔◌, refl}
use libre_kde.Shared.Agent.{ErrorCode, CallError, OperationStatus}
use libre_kde.Shared.Registry.{AgentReader, AgentClient, cards_with_capability}
use libre_kde.Shared.Samples.{plain, plain-IsSpoken, card, reader, client}
use libre_kde.Kio.Source.{CertificateInfo}
use libre_kde.Signing.Format.{
  SignOptions, auto_level, other_level, pades_format, enveloped_packaging, choice_of,
  to_sign_options, choice_of-IsConsistent,
}
use libre_kde.Signing.Selection.{CardChooser, choose_signing_card, choices}
use libre_kde.Signing.Selection.Honest.{IsHonest, choose_signing_card-IsHonest}
use libre_kde.Signing.Job.{Desk, written, SignJob, OperationReport, new_job, run}
use libre_kde.Signing.Job.Signals.{endings}
use libre_kde.Signing.Job.Progress.{flow, flow-endings}
use libre_kde.Signing.Job.Lawful.{IsMeant}
use libre_kde.Signing.Job.Lawful.Runs.{run-IsMeant}

abbrev pdf_options : SignOptions
pdf_options = record { format = pades_format; packaging = enveloped_packaging; level = auto_level }

abbrev desk : Desk
desk = record {
  default_options = record pdf_options { level = other_level 2 };
  mime_type_for_file = λ path. codes "application/pdf";
  opens = λ path. true;
  write_signed_file = λ artifact path format packaging. written (codes "/tmp/a-signed.pdf");
}

abbrev key : CertificateInfo
key = record {
  id = codes "k1";
  subject = codes "CN=A";
  issuer = codes "CN=B";
  not_after = record { is_valid = false; is_local_time = false; iso = []; utc_iso = [] };
  key_usage_bits = 2;
  extended_key_usage_oids = [];
  signing_capable = true;
  chain_subject_cns = [];
}

abbrev reads : OperationReport
reads = record {
  status = OperationStatus.ok;
  error_code = ErrorCode.none;
  call_error = CallError.none;
  message_key = [];
  message_fallback = [];
  certificates = key ∷ [];
  sign_meta = [];
  artifact = none;
}

abbrev signs : OperationReport
signs = record reads { certificates = []; artifact = some 5 }

abbrev job : SignJob
job = new_job desk (some card) (codes "/tmp/a.pdf") [] [] none

pdf-pades : to_sign_options (choice_of (codes "application/pdf") []) ≡ some pdf_options
unfolding to_sign_options choice_of text_eq
pdf-pades = refl

choice_of-IsConsistent_example :
    (auto_level ≡ auto_level)
    × ((enveloped_packaging ≡ enveloped_packaging) ↔ (pades_format ≡ pades_format))
choice_of-IsConsistent_example =
    choice_of-IsConsistent (codes "application/pdf") [] pdf_options pdf-pades

abbrev second : AgentReader
second = record reader {
  id = codes "r2";
  card = some (record card { object = 8; id = codes "c2" });
}

abbrev desk_of_two : AgentClient
desk_of_two = record client { readers = reader ∷ second ∷ [] }

abbrev asks : CardChooser
asks = some (λ shown. (some (codes "c1"), desk_of_two))

choose_signing_card-IsHonest_example :
    IsHonest asks
      (card ∷ record card { object = 8; id = codes "c2" } ∷ [])
      (choices desk_of_two)
      (choose_signing_card desk_of_two asks)
unfolding cards_with_capability
choose_signing_card-IsHonest_example = choose_signing_card-IsHonest desk_of_two asks

flow-endings_example : endings (run plain desk job (flow false reads signs)).log ≡ 1
flow-endings_example =
    flow-endings plain desk (some card) (codes "/tmp/a.pdf") [] [] none false reads signs

run-IsMeant_example :
    All
      (IsMeant plain plain-IsSpoken desk
        (some card)
        (codes "/tmp/a.pdf")
        []
        []
        none
        (flow false reads signs))
      (run plain desk job (flow false reads signs)).log
run-IsMeant_example =
    run-IsMeant plain plain-IsSpoken desk (some card) (codes "/tmp/a.pdf") [] [] none
      (flow false reads signs)
