-- ===== src/Kio/Tests.antt =====
-- The `card:/` worker at a reader whose card has two signing certificates of one name.
use libre_kde.Base.{
  true, false, Text, codes, List, [], ◌∷◌, ◌++◌, ◌≡◌, ◌≢◌, refl, inl, inr, arith, map, All, In,
  text_eq,
}
use libre_kde.Base.Decimal.{decimal}
use libre_kde.Base.Groups.{rows_of, add_row, collect_rows}
use libre_kde.Kio.Source.{
  CardPresence, CardDataSource, CertificateInfo, IdentityFieldView, ReadStatus, AgentState,
}
use libre_kde.Kio.Tree.{Url, NodeKind, resolve, list, segments, presence_for, cert_der_name}
use libre_kde.Kio.Tree.Resolution.{list-resolve, IsGrounded, resolve-IsGrounded}
use libre_kde.Kio.Render.{default_render_labels, primary_purpose, key_usage_bit_set}
use libre_kde.Kio.Render.Leaves.{
  render_identity_txt, join, emit_groups, der_to_pem, pem_begin, pem_end,
}
use libre_kde.Kio.Render.Identity.{render_identity_txt_sections, section_of, groups_in}
use libre_kde.Kio.Render.Export.{body_lines, joined, with_breaks, IsLine, der_to_pem_lines}
use libre_kde.Kio.Folders.{
  Catalog, CertFolder, build_cert_folders, folder_cert_id, stable_cert_folder_name,
  display_cert_folder_name, arg, folder_name,
}
use libre_kde.Kio.Folders.Distinct.{
  names, Distinct, build_cert_folders-Distinct, folder_cert_id-build_cert_folders,
}
use libre_kde.Kio.Worker.{Platform, read_certificates, get_certificate_der, cert_der_mime}
use libre_kde.Kio.Worker.Requests.{do_list_dir, do_stat, do_mimetype}
use libre_kde.Kio.Worker.Reads.{requests-calls, listing_calls}
use libre_kde.Kio.Get.{do_get, sends}
use libre_kde.Kio.Get.Protocol.{IsWhole, do_get-IsWhole}
use libre_kde.Kio.Get.Export.{do_get-folder}

abbrev url_of : Text → Url
url_of path = record { path = path; display_string = path }

abbrev sign_cert : Text → CertificateInfo
sign_cert id = record {
  id = id;
  subject = codes "S";
  issuer = codes "I";
  not_after = record { is_valid = false; is_local_time = false; iso = []; utc_iso = [] };
  key_usage_bits = 2;
  extended_key_usage_oids = [];
  signing_capable = true;
  chain_subject_cns = [];
}

abbrev certs : List CertificateInfo
certs = sign_cert (codes "aabbccdd11") ∷ sign_cert (codes "aabbccdd22") ∷ []

certs_plain : All (λ c. All (λ u. u ≢ b'%') (codes "aabbccdd")) certs
certs_plain = (omega arith, (omega arith, tt))

abbrev catalog : Catalog
catalog = record {
  labels = default_render_labels;
  certificate_fallback = λ id. id;
  purpose_and_id = λ purpose id. purpose;
  disambiguated = λ base n. base;
  service_not_running = codes "not running";
  service_not_installed = codes "not installed";
  card_was_removed = codes "removed";
  service_unavailable = codes "unavailable";
  could_not_read = codes "unreadable";
}

abbrev platform : Platform
platform = record { catalog = catalog; to_utf8 = λ t. t; to_base64 = λ b. b }

abbrev card : CardPresence
card = record {
  reader_name = codes "R";
  card_id = codes "c0";
  capabilities = λ c. true;
  pre_read_auth = codes "Can";
  reader_label = [];
}

abbrev source : CardDataSource
source = record {
  list_readers_with_cards = card ∷ [];
  read_identity = λ id. record { status = ReadStatus.cancelled; fields = []; message = [] };
  read_certificates = λ id. record { status = ReadStatus.ok; certs = certs; message = [] };
  get_photo = λ id. record { status = ReadStatus.unavailable; bytes = []; message = [] };
  get_certificate_der = λ id c. record { status = ReadStatus.ok; der = 1 ∷ 2 ∷ []; message = [] };
  agent_state = AgentState.ready;
}

abbrev second_name : Text
second_name = codes "Digital Signature (aabbccdd) ~2"

abbrev second_folder : CertFolder
second_folder = record {
  name = second_name;
  display_name = codes "Digital Signature";
  cert_id = codes "aabbccdd22";
}

second_built : In second_folder (build_cert_folders catalog certs)
unfolding build_cert_folders stable_cert_folder_name display_cert_folder_name arg folder_name
    primary_purpose default_render_labels key_usage_bit_set text_eq decimal
second_built = inr (inl refl)

list-resolve_example : (resolve source (url_of (codes "//R/Identity"))).kind ≢ NodeKind.invalid
unfolding list presence_for segments text_eq
list-resolve_example =
    list-resolve source (url_of (codes "//R")) (url_of (codes "//R/Identity")) (codes "Identity")
      (inr (inl refl)) (refl, omega arith) refl

resolve-IsGrounded_example :
    IsGrounded source (segments (codes "/R/PKI")) (resolve source (url_of (codes "/R/PKI")))
resolve-IsGrounded_example = resolve-IsGrounded source (url_of (codes "/R/PKI"))

build_cert_folders-Distinct_example : Distinct (names (build_cert_folders catalog certs))
build_cert_folders-Distinct_example = build_cert_folders-Distinct catalog certs certs_plain

folder_cert_id-build_cert_folders_example :
    folder_cert_id second_name (build_cert_folders catalog certs) ≡ codes "aabbccdd22"
folder_cert_id-build_cert_folders_example =
    folder_cert_id-build_cert_folders catalog certs second_folder certs_plain second_built

requests-calls_example :
    ((do_list_dir platform source (url_of (codes "/R/PKI"))).calls
      ≡ listing_calls
          (resolve source (url_of (codes "/R/PKI")))
          (resolve source (url_of (codes "/R/PKI"))).kind)
    × ((do_stat source (url_of (codes "/R/PKI"))).calls ≡ [])
    × ((do_mimetype source (url_of (codes "/R/PKI"))).calls ≡ [])
requests-calls_example = requests-calls platform source (url_of (codes "/R/PKI"))

do_get-IsWhole_example : IsWhole (do_get platform source (url_of (codes "/R/info.txt")))
do_get-IsWhole_example = do_get-IsWhole platform source (url_of (codes "/R/info.txt"))

pki_resolved : (resolve source (url_of (codes "/R/PKI"))).kind ≡ NodeKind.pki_dir
unfolding resolve text_eq
pki_resolved = refl

do_get-folder_example :
    do_get platform source (url_of ((codes "/R/PKI" ++ b'/' ∷ second_name) ++ b'/' ∷ cert_der_name))
    ≡ sends
        (read_certificates (resolve source (url_of (codes "/R/PKI"))).presence.card_id
          ∷ get_certificate_der
              (resolve source (url_of (codes "/R/PKI"))).presence.card_id
              (codes "aabbccdd22")
          ∷ [])
        cert_der_mime
        (1 ∷ 2 ∷ [])
do_get-folder_example =
    do_get-folder platform source (url_of (codes "/R/PKI"))
      (url_of ((codes "/R/PKI" ++ b'/' ∷ second_name) ++ b'/' ∷ cert_der_name)) second_folder
      pki_resolved refl certs_plain second_built (refl, omega arith) refl refl refl

abbrev row : Text → Text → IdentityFieldView
row group value = record {
  group = group;
  field_key = codes "k";
  label_fallback = [];
  value = value;
}

abbrev rows : List IdentityFieldView
rows = row (codes "a") (codes "1") ∷ row (codes "b") (codes "2") ∷ row (codes "a") (codes "3") ∷ []

render_identity_txt_sections_example :
    render_identity_txt rows ≡ join (codes "\n") (map (section_of rows) (groups_in rows))
render_identity_txt_sections_example = render_identity_txt_sections rows

-- A group that comes back is not split.
revisited : render_identity_txt rows ≡ codes "[a]\nk: 1\nk: 3\n\n[b]\nk: 2\n"
unfolding render_identity_txt collect_rows emit_groups rows_of add_row text_eq
revisited = refl

der_to_pem_lines_example :
    (der_to_pem (λ b. b) (1 ∷ 2 ∷ [])
      ≡ pem_begin ++ (with_breaks (body_lines 2 0 (1 ∷ 2 ∷ [])) ++ pem_end))
    × (joined (body_lines 2 0 (1 ∷ 2 ∷ [])) ≡ 1 ∷ 2 ∷ [])
    × All IsLine (body_lines 2 0 (1 ∷ 2 ∷ []))
der_to_pem_lines_example = der_to_pem_lines (λ b. b) (1 ∷ 2 ∷ [])

-- With a place marker in an id, the tenth folders of two base names are one.
percent_id : folder_name (codes "P (%2aaaaaa)") 9 ≡ folder_name (codes "P (10aaaaaa)") 9
unfolding folder_name arg decimal
percent_id = refl
