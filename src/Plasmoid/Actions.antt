-- ===== src/Plasmoid/Actions.antt =====
-- components/plasmoid/src/SmartCardHandler.cpp: what a widget does on a press that reads no card: it
-- launches other programs, warms the certificates, copies a field and saves the photo.
pub mod Reached
mod Tests
use libre_kde.Base.{
  ℕ, Bool, true, false, not, ◌||◌, ◌&&◌, Text, codes, is_empty, text_eq, after_slash, List, [], ◌∷◌,
  ◌++◌, Option, none, some, if◌then◌else◌, length, ◌==◌,
}
use libre_kde.Shared.ErrorText.{Texts, say}
use libre_kde.Shared.Registry.{AgentCard, AgentReader, reader_label}
use libre_kde.Kio.Tree.{Url}
use libre_kde.Plasmoid.Handler.{Library, Handler}
use libre_kde.Plasmoid.Photo.{Photo}

-- What is asked of the agent and of the desktop.
pub data Effect : Type 0 where
  warm_certificates : (card : ℕ) → Effect
  open_url : Url → Effect
  launch_command : Text → List Text → Text → Effect
  start_detached : Text → Effect
  set_clipboard : Text → Effect
  write_file : Text → List ℕ → Effect

-- `cardUrlForReader`; Qt displays a url.
unfoldable pub card_url_for_reader : (Text → Text) → Text → Url
card_url_for_reader display name = record {
  path = b'/' ∷ name;
  display_string = display (b'/' ∷ name);
}

-- `warmCertificateCache`, on a card.
warm_on : Library → Option AgentCard → List Effect
warm_on library none = []
warm_on library (some card) =
    if library.unlock_required card.pre_read_auth then [] else warm_certificates card.object ∷ []

unfoldable pub warm_certificate_cache : Library → Handler → List Effect
unfolding warm_on
warm_certificate_cache library h = warm_on library h.card

-- `openInFiles`.
unfoldable pub open_in_files : Library → (Text → Text) → Handler → List Effect
unfolding warm_certificate_cache card_url_for_reader
open_in_files library display h =
    if is_empty h.reader_name
    then []
    else warm_certificate_cache library h
      ++ open_url (card_url_for_reader display h.reader_name) ∷ []

abbrev pub credentials_exe : Text
credentials_exe = codes "librescrs-credentials-kde"

-- `credentialsLaunchArgs`.
unfoldable pub credentials_launch_args : Text → List Text
credentials_launch_args reader_id = codes "--reader" ∷ reader_id ∷ []

manage_on : Option AgentCard → List Effect
unfolding credentials_launch_args
manage_on none = []
manage_on (some card) =
    launch_command credentials_exe (credentials_launch_args card.reader_id)
      (codes "org.librescrs.credentials")
    ∷ []

-- `manageCredentials`.
unfoldable pub manage_credentials : Handler → List Effect
unfolding manage_on
manage_credentials h = manage_on h.card

-- The labels of the readers by their names, the latest entry of a name first, as `updateReaderRosters` collects them.
display_names_from : Texts → List AgentReader → List (Text × Text) → List (Text × Text)
display_names_from texts [] labels = labels
display_names_from texts (r ∷ readers) labels =
    display_names_from texts readers ((r.name, reader_label texts r) ∷ labels)

unfoldable pub reader_display_names : Texts → List AgentReader → List (Text × Text)
unfolding display_names_from
reader_display_names texts readers = display_names_from texts readers []

-- `readerDisplayName`.
unfoldable pub reader_display_name : List (Text × Text) → Text → Text
reader_display_name [] raw = raw
reader_display_name ((name, label) ∷ labels) raw =
    if text_eq name raw then label else reader_display_name labels raw

-- The desktop's part of finding LibreCelik: a program on the path, none as an empty text, the words of
-- the Exec line of its entry, where there is one, and the lower case of a text.
pub record Programs : Type 0 where
  pub find_executable : Text → Text
  pub exec_words : Option (List Text)
  pub lower_case : Text → Text

first_word : Option (List Text) → Text
first_word none = []
first_word (some []) = []
first_word (some (word ∷ words)) = word

by_entry : Programs → Text → Text
by_entry programs word =
    if text_eq (programs.lower_case (after_slash word)) (codes "librecelik")
    then programs.find_executable word
    else []

-- `locateLibreCelik`.
unfoldable pub locate_libre_celik : Programs → Text
unfolding first_word by_entry
locate_libre_celik programs =
    if not (is_empty (programs.find_executable (codes "LibreCelik")))
    then programs.find_executable (codes "LibreCelik")
    else if not (is_empty (programs.find_executable (codes "librecelik")))
    then programs.find_executable (codes "librecelik")
    else by_entry programs (first_word programs.exec_words)

-- `openInLibreCelik`.
unfoldable pub open_in_libre_celik : Text → List Effect
open_in_libre_celik path = if is_empty path then [] else start_detached path ∷ []

-- `copyField`.
unfoldable pub copy_field : Text → List Effect
copy_field value = if is_empty value then [] else set_clipboard value ∷ []

-- A url of the save dialog: whether it is valid, and its paths.
pub record Destination : Type 0 where
  pub is_valid : Bool
  pub local_file : Option Text
  pub path : Text

-- The file system's part of QSaveFile: whether the file opens, how many bytes are written, and whether
-- they are committed.
pub record Disk : Type 0 where
  pub opens : Text → Bool
  pub written : Text → List ℕ → ℕ
  pub commits : Text → Bool

target : Destination → Text
target d = elim d.local_file [ none ↦ d.path | some path ↦ path ]

write_photo : Disk → Text → List ℕ → List Effect
write_photo disk path bytes =
    if is_empty path || not (disk.opens path)
    then []
    else if not (disk.written path bytes == length bytes)
    then []
    else if disk.commits path
    then write_file path bytes ∷ []
    else []

-- `savePhoto`: it answers true just where the file is committed.
unfoldable pub save_photo : Disk → Destination → Photo → List Effect
unfolding target write_photo
save_photo disk d p =
    if is_empty p.bytes || not d.is_valid then [] else write_photo disk (target d) p.bytes

pub data OperationPhase : Type 0 where
  created connecting awaiting_consent authenticating reading signing timestamping done :
      OperationPhase

-- `operationPhaseLabel`.
unfoldable pub operation_phase_label : Texts → OperationPhase → Text
operation_phase_label texts reading = say texts (codes "Reading card…")
operation_phase_label texts awaiting_consent = say texts (codes "Waiting for input…")
operation_phase_label texts authenticating = say texts (codes "Verifying…")
operation_phase_label texts signing = say texts (codes "Signing…")
operation_phase_label texts timestamping = say texts (codes "Adding timestamp…")
operation_phase_label texts _ = say texts (codes "Working…")
