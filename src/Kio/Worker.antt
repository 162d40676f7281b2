-- ===== src/Kio/Worker.antt =====
-- components/kio/CardWorkerLogic.h and CardWorkerLogic.cpp: what a request of the worker gives: what
-- it emitted, the card reads that it asked the data source for, and its result.
pub mod Requests
pub mod Reads
use libre_kde.Base.{
  after_slash, ℕ, zero, suc, Bool, true, false, ◌&&◌, ◌||◌, not, Text, codes, text_eq, is_empty,
  List, [], ◌∷◌, ◌++◌, Option, none, some, ◌==◌, if◌then◌else◌, map, ends_with,
}
use libre_kde.Kio.Source.{CertificateInfo, CardDataSource, ReadStatus, AgentState}
use libre_kde.Kio.Tree.{
  Url, CardNode, NodeKind, resolve, list, info_txt, identity_dir_name, pki_dir_name, identity_txt,
  cert_info_txt, cert_der_name, cert_pem_name,
}
use libre_kde.Kio.Render.{RenderLabels}
use libre_kde.Kio.Render.Leaves.{
  render_info_txt, render_identity_txt, render_cert_info_txt, der_to_pem, sniff_image_mime,
}
use libre_kde.Kio.Folders.{Catalog, CertFolder, build_cert_folders, folder_cert_id}

-- KIO's error codes, those that the worker uses.
pub data KioError : Type 0 where
  user_canceled access_denied worker_died cannot_enter_directory cannot_open_for_reading : KioError
  does_not_exist is_directory worker_defined : KioError

pub data WorkerResult : Type 0 where
  pass : WorkerResult
  fail : KioError → Text → WorkerResult

pub data FileType : Type 0 where
  dir reg : FileType

-- A UDSEntry; a field that the worker does not insert is `none`.
pub record UdsEntry : Type 0 where
  pub name : Text
  pub file_type : FileType
  pub access : ℕ
  pub mime_type : Option Text
  pub display_name : Option Text

pub data Emission : Type 0 where
  list_entry stat_entry : UdsEntry → Emission
  mime_type : Text → Emission
  bytes : List ℕ → Emission

-- A read of the card.
pub data Call : Type 0 where
  read_identity read_certificates get_photo : Text → Call
  get_certificate_der : Text → Text → Call

pub record Reply : Type 0 where
  pub calls : List Call
  pub emitted : List Emission
  pub result : WorkerResult

-- What the worker has from its libraries: the catalogue, UTF-8 and base64.
pub record Platform : Type 0 where
  pub catalog : Catalog
  pub to_utf8 : Text → List ℕ
  pub to_base64 : List ℕ → List ℕ

abbrev pub cert_der_mime : Text
cert_der_mime = codes "application/pkix-cert"

abbrev pub cert_pem_mime : Text
cert_pem_mime = codes "application/x-pem-file"

abbrev pub text_plain : Text
text_plain = codes "text/plain"

unfoldable pub photo_mime_for_name : Text → Text
unfolding ends_with
photo_mime_for_name name =
    if ends_with name (codes ".jp2") then codes "image/jp2" else codes "image/jpeg"

abbrev pub dir_entry : Text → UdsEntry
dir_entry name = record {
  name = name;
  file_type = dir;
  access = 0o500;
  mime_type = none;
  display_name = none;
}

abbrev pub file_entry : Text → Text → UdsEntry
file_entry name mime = record {
  name = name;
  file_type = reg;
  access = 0o400;
  mime_type = if is_empty mime then none else some mime;
  display_name = none;
}

abbrev or_else : Text → Text → Text
or_else message sentence = if is_empty message then sentence else message

unfoldable pub fail_for_read : Catalog → ReadStatus → Bool → Text → WorkerResult
fail_for_read i18n ReadStatus.cancelled is_dir_op message = fail user_canceled []
fail_for_read i18n ReadStatus.auth_failed is_dir_op message = fail access_denied []
fail_for_read i18n ReadStatus.card_removed is_dir_op message =
    fail worker_died i18n.card_was_removed
fail_for_read i18n ReadStatus.unavailable is_dir_op message =
    fail (if is_dir_op then cannot_enter_directory else cannot_open_for_reading)
      (or_else message i18n.service_unavailable)
fail_for_read i18n ReadStatus.capability_missing is_dir_op message = fail does_not_exist []
fail_for_read i18n ReadStatus.not_available is_dir_op message = fail does_not_exist []
fail_for_read i18n ReadStatus.error is_dir_op message =
    fail worker_died (or_else message i18n.could_not_read)
fail_for_read i18n ReadStatus.ok is_dir_op message =
    fail worker_died (or_else message i18n.could_not_read)

abbrev pub is_ok : ReadStatus → Bool
is_ok ReadStatus.ok = true
is_ok _ = false

-- `QUrl::fileName`.
unfoldable pub file_name : Url → Text
unfolding after_slash
file_name url = after_slash url.path

abbrev pub replies : List Emission → WorkerResult → Reply
replies emitted result = record { calls = []; emitted = emitted; result = result }

abbrev pub fails : KioError → Text → Reply
fails e message = replies [] (fail e message)
