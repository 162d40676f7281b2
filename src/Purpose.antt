-- ===== src/Purpose.antt =====
-- components/purpose/librescrs_sign_purpose.cpp: the share action that signs one file. The job ends by
-- `emitResult`, with an output or an error.
pub mod Begun
pub mod Meant
pub mod Ended
mod Tests
use libre_kde.Base.{
  ℕ, suc, not, Text, codes, List, [], ◌∷◌, Option, none, some, if◌then◌else◌, length,
}
use libre_kde.Base.Decimal.{decimal}
use libre_kde.Shared.ErrorText.{Texts, say}
use libre_kde.Shared.Registry.{AgentCard, AgentClient}
use libre_kde.Kio.Source.{DateTime}
use libre_kde.Signing.Selection.{SigningCardSelection, choose_signing_card}
use libre_kde.Signing.Seams.{Dialog, widget_cert_chooser, widget_card_chooser}
use libre_kde.Signing.Job
use libre_kde.Signing.Job.{Desk, SignJob, Signal, succeeded, failed, Event, new_job}

-- The data of the share: the entries of `urls` as texts, and the type.
pub record Share : Type 0 where
  pub urls : List Text
  pub mime_type : Text

-- Qt's part: the path of a url, none where it is not that of a local file, and the url of a path.
pub record Files : Type 0 where
  pub local_file : Text → Option Text
  pub url_of_file : Text → Text

-- What the desktop gives the job: the catalogue and the dates in the user's form, the two dialogs, the
-- registry as it stands when the card's dialog closes, and the file system.
pub record Setting : Type 0 where
  pub texts : Texts
  pub short_date : DateTime → Text
  pub cert_dialog : Dialog
  pub card_dialog : Dialog
  pub after_dialog : AgentClient
  pub files : Files
  pub desk : Desk

pub data ErrorKind : Type 0 where
  user_defined killed : ErrorKind

pub data Result : Type 0 where
  output : Text → Result
  error : ErrorKind → Text → Result

-- A job that `start` ended by itself, or one with its signing job.
pub data SignPurposeJob : Type 0 where
  ended : Result → SignPurposeJob
  signing : SignJob → SignPurposeJob

-- `finishWithError`.
abbrev finish_with_error : Setting → ErrorKind → Text → SignPurposeJob
finish_with_error s kind message = ended (error kind (say s.texts message))

-- The signing job that `start` makes.
abbrev pub sign_job : Setting → Share → AgentCard → Text → SignJob
sign_job s share card path =
    new_job s.desk (some card) path share.mime_type []
      (some (widget_cert_chooser s.texts s.short_date s.cert_dialog))

sign_with : Setting → Share → Text → Option AgentCard → SignPurposeJob
unfolding Job.start
sign_with s share path none =
    finish_with_error s user_defined (codes "Insert a smart card that supports signing.")
sign_with s share path (some card) = signing (Job.start s.texts s.desk (sign_job s share card path))

-- The card that signs, of the registry as it stands at the start.
abbrev pub selection : Setting → AgentClient → SigningCardSelection
selection s client =
    choose_signing_card client (widget_card_chooser s.texts s.card_dialog s.after_dialog)

select_card : Setting → Share → Text → SigningCardSelection → SignPurposeJob
unfolding sign_with
select_card s share path chosen =
    if chosen.cancelled
    then finish_with_error s killed (codes "Signing was cancelled.")
    else sign_with s share path chosen.card

start_local : Setting → Share → AgentClient → Option Text → SignPurposeJob
unfolding select_card
start_local s share client none =
    finish_with_error s user_defined (codes "Only local files can be signed.")
start_local s share client (some path) =
    if not client.is_available
    then finish_with_error s user_defined (codes "The LibreSCRS smart-card service is not running.")
    else select_card s share path (selection s client)

start_urls : Setting → Share → AgentClient → List Text → SignPurposeJob
unfolding start_local
start_urls s share client [] =
    finish_with_error s user_defined (codes "No file was selected to sign.")
start_urls s share client (url ∷ []) = start_local s share client (s.files.local_file url)
start_urls s share client (u1 ∷ u2 ∷ urls) = ended (
    error user_defined (
      s.texts.translate (codes "Select a single file to sign — %1 files were shared.")
        (decimal (length (u1 ∷ u2 ∷ urls)) ∷ [])))

-- `start`.
unfoldable pub start : Setting → Share → AgentClient → SignPurposeJob
unfolding start_urls
start s share client = start_urls s share client share.urls

-- What the loop delivers to the signing job.
unfoldable pub step : Setting → SignPurposeJob → Event → SignPurposeJob
unfolding Job.step
step s (ended r) e = ended r
step s (signing j) e = signing (Job.step s.texts s.desk j e)

unfoldable pub run : Setting → SignPurposeJob → List Event → SignPurposeJob
unfolding step
run s p [] = p
run s p (e ∷ events) = run s (step s p e) events

-- The two slots on the signing job's end, on all that it emits: they are connected before it starts.
unfoldable pub relayed : Setting → List Signal → List Result
relayed s [] = []
relayed s (succeeded path ∷ log) = output (s.files.url_of_file path) ∷ relayed s log
relayed s (failed message ∷ log) = error user_defined message ∷ relayed s log
relayed s (_ ∷ log) = relayed s log

-- The results that were emitted, the latest first.
unfoldable pub results : Setting → SignPurposeJob → List Result
unfolding relayed
results s (ended r) = r ∷ []
results s (signing j) = relayed s j.log
