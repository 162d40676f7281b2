-- ===== src/Signing/Job.antt =====
-- shared/signing/SignJob.cpp: the job that signs one file. A handler takes the job to its new value, and
-- appends what it asks of the agent and what it emits to `log`, the latest first. The relay of the
-- operations' phases is left out.
pub mod Signals
pub mod Progress
pub mod Lawful
use libre_kde.Base.{
  after_slash, ℕ, Bool, true, false, not, Text, codes, is_empty, List, [], ◌∷◌, ◌++◌, Option, none,
  some, if◌then◌else◌,
}
use libre_kde.Shared.Agent.{pki, ErrorCode, CallError, OperationStatus}
use libre_kde.Shared.ErrorText.{Texts, say, for_outcome, for_code}
use libre_kde.Shared.Registry.{AgentCard, has_capability}
use libre_kde.Kio.Source.{CertificateInfo}
use libre_kde.Signing.Format.{
  SignChoice, SignOptions, SignatureFormat, Packaging, choice_of, to_sign_options,
}

pub data SignedFileError : Type 0 where
  unreadable_artifact no_free_name empty_artifact write_failed : SignedFileError

-- What the client library made of writing the artifact: the path, or the error and the last name that
-- it was given.
pub data Written : Type 0 where
  written : Text → Written
  unwritten : SignedFileError → Text → Written

-- The system's and the client library's part: the options as they are constructed, the type of a file,
-- whether it opens for reading, and the writing of an artifact under the first name for the path and the format that is free.
pub record Desk : Type 0 where
  pub default_options : SignOptions
  pub mime_type_for_file : Text → Text
  pub opens : Text → Bool
  pub write_signed_file : ℕ → Text → SignatureFormat → Packaging → Written

pub data Signal : Type 0 where
  read_certificates : (card : ℕ) → Signal
  sign : (card : ℕ) → Text → Text → SignOptions → Signal
  succeeded : Text → Signal
  failed : Text → Signal

-- The members of the job, with `queued` for the signing that waits for its turn.
pub record SignJob : Type 0 where
  pub card : Option AgentCard
  pub input_path : Text
  pub mime_type : Text
  pub format_override : Text
  pub chooser : Option (List CertificateInfo → Option Text)
  pub sign_options : SignOptions
  pub output_path : Text
  pub sign_meta : List (Text × Text)
  pub cert_op : Bool
  pub sign_op : Bool
  pub queued : Option Text
  pub emitted : Bool
  pub log : List Signal

-- What a slot reads of an operation that has ended.
pub record OperationReport : Type 0 where
  pub status : OperationStatus
  pub error_code : ErrorCode
  pub call_error : CallError
  pub message_key : Text
  pub message_fallback : Text
  pub certificates : List CertificateInfo
  pub sign_meta : List (Text × Text)
  pub artifact : Option ℕ

-- `SignJob`'s constructor.
unfoldable pub new_job :
    Desk
    → Option AgentCard
    → Text
    → Text
    → Text
    → Option (List CertificateInfo → Option Text)
    → SignJob
new_job desk card path mime override chooser = record {
  card = card;
  input_path = path;
  mime_type = mime;
  format_override = override;
  chooser = chooser;
  sign_options = desk.default_options;
  output_path = [];
  sign_meta = [];
  cert_op = false;
  sign_op = false;
  queued = none;
  emitted = false;
  log = [];
}

-- `fail`.
unfoldable pub fail : Text → SignJob → SignJob
fail message j = if j.emitted then j else record j { emitted = true; log = failed message ∷ j.log }

-- The type that was supplied, or the one of the file.
unfoldable pub mime_of : Desk → SignJob → Text
mime_of desk j = if is_empty j.mime_type then desk.mime_type_for_file j.input_path else j.mime_type

read_with : Texts → AgentCard → Option SignOptions → SignJob → SignJob
unfolding fail
read_with texts card none j = fail (for_code texts ErrorCode.capability_missing []) j
read_with texts card (some options) j = record j {
  sign_options = options;
  cert_op = true;
  log = read_certificates card.object ∷ j.log;
}

pub start_on : Texts → Desk → Option AgentCard → SignJob → SignJob
unfolding read_with
start_on texts desk none j = fail (say texts (codes "No smart card is available for signing.")) j
start_on texts desk (some card) j =
    if not (has_capability card pki)
    then fail (say texts (codes "This card does not support signing.")) j
    else read_with texts card (to_sign_options (choice_of (mime_of desk j) j.format_override)) j

-- `start`.
unfoldable pub start : Texts → Desk → SignJob → SignJob
unfolding start_on
start texts desk j = start_on texts desk j.card j

unfoldable pub signing_capable : List CertificateInfo → List CertificateInfo
signing_capable [] = []
signing_capable (c ∷ certs) =
    if c.signing_capable then c ∷ signing_capable certs else signing_capable certs

chosen : Option (List CertificateInfo → Option Text) → List CertificateInfo → Option Text
chosen none signing = none
chosen (some ask) signing = ask signing

queue : Texts → Option Text → SignJob → SignJob
unfolding fail
queue texts none j = fail (say texts (codes "Signing was cancelled.")) j
queue texts (some id) j = record j { queued = some id }

pick_certificate : Texts → List CertificateInfo → SignJob → SignJob
unfolding queue chosen
pick_certificate texts [] j = fail (say texts (codes "This card does not support signing.")) j
pick_certificate texts (c ∷ []) j = queue texts (some c.id) j
pick_certificate texts (c1 ∷ c2 ∷ certs) j = queue texts (chosen j.chooser (c1 ∷ c2 ∷ certs)) j

abbrev pub is_done : OperationStatus → Bool
is_done OperationStatus.ok = true
is_done _ = false

abbrev pub outcome_text : Texts → OperationReport → Text
outcome_text texts r = for_outcome texts r.error_code r.call_error r.message_key r.message_fallback

-- `onCertificatesFinished`.
unfoldable pub on_certificates_finished : Texts → OperationReport → SignJob → SignJob
unfolding pick_certificate
on_certificates_finished texts r j =
    let over = record j { cert_op = false } in
    if not j.cert_op
    then j
    else if is_done r.status
    then pick_certificate texts (signing_capable r.certificates) over
    else fail (outcome_text texts r) over

sign_on : Texts → Desk → Option AgentCard → Text → SignJob → SignJob
unfolding fail
sign_on texts desk none id j =
    fail (say texts (codes "The smart card was removed before signing could start.")) j
sign_on texts desk (some card) id j =
    if desk.opens j.input_path
    then record j { sign_op = true; log = sign card.object id j.input_path j.sign_options ∷ j.log }
    else fail (say texts (codes "Could not open the file to sign.")) j

-- `beginSign`.
unfoldable pub begin_sign : Texts → Desk → Text → SignJob → SignJob
unfolding sign_on
begin_sign texts desk id j = sign_on texts desk j.card id j

unfoldable pub write_failure : Texts → SignedFileError → Text → Text → Text
write_failure texts unreadable_artifact input name = for_code texts ErrorCode.communication_error []
write_failure texts no_free_name input name =
    texts.translate (codes "There is no free name left for the signed copy of %1.")
      (after_slash input ∷ [])
write_failure texts empty_artifact input name =
    texts.translate (codes "The signature for %1 came back empty, so no signed file was saved.")
      (after_slash input ∷ [])
write_failure texts write_failed input name =
    texts.translate (codes "Could not write the signed file %1.") (after_slash name ∷ [])

conclude : Texts → Written → SignJob → SignJob
unfolding fail write_failure
conclude texts (unwritten error name) j = fail (write_failure texts error j.input_path name) j
conclude texts (written path) j =
    if j.emitted
    then record j { output_path = path }
    else record j { output_path = path; emitted = true; log = succeeded path ∷ j.log }

store : Texts → Desk → Option ℕ → SignJob → SignJob
unfolding conclude
store texts desk none j = fail (for_code texts ErrorCode.communication_error []) j
store texts desk (some artifact) j =
    conclude texts
      (desk.write_signed_file artifact j.input_path j.sign_options.format j.sign_options.packaging)
      j

-- `onSignFinished`.
unfoldable pub on_sign_finished : Texts → Desk → OperationReport → SignJob → SignJob
unfolding store
on_sign_finished texts desk r j =
    let over = record j { sign_op = false } in
    if not j.sign_op
    then j
    else if is_done r.status
    then store texts desk r.artifact (record over { sign_meta = r.sign_meta })
    else fail (outcome_text texts r) over

-- What the event loop delivers. `turn` is the signing that was queued; `card_deleted` is the client's
-- deletion of the card, which ends the operations on it first.
pub data Event : Type 0 where
  started turn card_deleted : Event
  certificates_finished sign_finished : OperationReport → Event

take_turn : Texts → Desk → Option Text → SignJob → SignJob
unfolding begin_sign
take_turn texts desk none j = j
take_turn texts desk (some id) j = begin_sign texts desk id (record j { queued = none })

unfoldable pub step : Texts → Desk → SignJob → Event → SignJob
unfolding start take_turn on_certificates_finished on_sign_finished
step texts desk j started = start texts desk j
step texts desk j turn = take_turn texts desk j.queued j
step texts desk j card_deleted = record j { card = none }
step texts desk j (certificates_finished r) = on_certificates_finished texts r j
step texts desk j (sign_finished r) = on_sign_finished texts desk r j

unfoldable pub run : Texts → Desk → SignJob → List Event → SignJob
run texts desk j [] = j
run texts desk j (e ∷ events) = run texts desk (step texts desk j e) events
