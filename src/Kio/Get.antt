-- ===== src/Kio/Get.antt =====
-- components/kio/CardWorkerLogic.cpp: `doGet`, the request for the content of a leaf, and
-- `resolveCertId`.
pub mod Protocol
pub mod Export
use libre_kde.Base.{
  ℕ, zero, suc, Bool, true, false, ◌&&◌, ◌||◌, not, Text, codes, text_eq, is_empty, List, [], ◌∷◌,
  ◌++◌, Option, none, some, ◌==◌, if◌then◌else◌, map, starts_with,
}
use libre_kde.Kio.Source.{CertificateInfo, CardDataSource, ReadStatus, AgentState}
use libre_kde.Kio.Tree.{Url, CardNode, NodeKind, resolve}
use libre_kde.Kio.Render.Leaves.{
  render_info_txt, render_identity_txt, render_cert_info_txt, der_to_pem, sniff_image_mime,
}
use libre_kde.Kio.Folders.{build_cert_folders, folder_cert_id}
use libre_kde.Kio.Worker.{
  KioError, WorkerResult, pass, fail, user_canceled, is_directory, does_not_exist, Emission,
  mime_type, bytes, Call, read_identity, read_certificates, get_photo, get_certificate_der, Reply,
  Platform, is_ok, fail_for_read, fails, text_plain, cert_der_mime, cert_pem_mime,
}

-- One payload with its MIME type, and the empty chunk that ends the data.
abbrev pub sends : List Call → Text → List ℕ → Reply
sends calls mime payload = record {
  calls = calls;
  emitted = mime_type mime ∷ bytes payload ∷ bytes [] ∷ [];
  result = pass;
}

abbrev pub refuses : List Call → WorkerResult → Reply
refuses calls result = record { calls = calls; emitted = []; result = result }

get_info : Platform → CardNode → Reply
get_info platform node =
    sends [] text_plain (platform.to_utf8 (render_info_txt node.presence platform.catalog.labels))

get_identity : Platform → CardDataSource → CardNode → Reply
get_identity platform source node =
    let id = source.read_identity node.presence.card_id in
    let calls : List Call = read_identity node.presence.card_id ∷ [] in
    if is_ok id.status
    then sends calls text_plain (platform.to_utf8 (render_identity_txt id.fields))
    else refuses calls (fail_for_read platform.catalog id.status false id.message)

get_photo_leaf : Platform → CardDataSource → CardNode → Reply
get_photo_leaf platform source node =
    let photo = source.get_photo node.presence.card_id in
    let calls : List Call = get_photo node.presence.card_id ∷ [] in
    if is_ok photo.status
    then sends calls (sniff_image_mime photo.bytes) photo.bytes
    else refuses calls (fail_for_read platform.catalog photo.status false photo.message)

-- `resolveCertId` on a certificate list that was read.
unfoldable pub resolve_cert_id : Platform → Text → List CertificateInfo → Text
resolve_cert_id platform folder certs =
    folder_cert_id folder (build_cert_folders platform.catalog certs)

unfoldable pub find_cert : Text → List CertificateInfo → Option CertificateInfo
find_cert id [] = none
find_cert id (c ∷ certs) = if text_eq c.id id then some c else find_cert id certs

-- The reply once the loop over the certificates has found the wanted one, or none.
info_reply : Platform → List Call → Text → Option CertificateInfo → Reply
info_reply platform calls display none = refuses calls (fail does_not_exist display)
info_reply platform calls display (some c) =
    sends calls text_plain (platform.to_utf8 (render_cert_info_txt c platform.catalog.labels))

get_cert_info : Platform → CardDataSource → Url → CardNode → Reply
unfolding resolve_cert_id info_reply
get_cert_info platform source url node =
    let certs = source.read_certificates node.presence.card_id in
    let calls : List Call = read_certificates node.presence.card_id ∷ [] in
    let want = resolve_cert_id platform node.cert_folder certs.certs in
    if not (is_ok certs.status)
    then refuses calls (fail_for_read platform.catalog certs.status false certs.message)
    else if is_empty want
    then refuses calls (fail does_not_exist url.display_string)
    else info_reply platform calls url.display_string (find_cert want certs.certs)

get_cert_export : Platform → CardDataSource → Url → CardNode → Bool → Reply
unfolding resolve_cert_id
get_cert_export platform source url node pem =
    let card = node.presence.card_id in
    let certs = source.read_certificates card in
    let want = resolve_cert_id platform node.cert_folder certs.certs in
    let der = source.get_certificate_der card want in
    let listed : List Call = read_certificates card ∷ [] in
    let fetched : List Call = read_certificates card ∷ get_certificate_der card want ∷ [] in
    if not (is_ok certs.status)
    then refuses listed (fail_for_read platform.catalog certs.status false certs.message)
    else if is_empty want
    then refuses listed (fail does_not_exist url.display_string)
    else if not (is_ok der.status)
    then refuses fetched (fail_for_read platform.catalog der.status false der.message)
    else sends fetched (if pem then cert_pem_mime else cert_der_mime)
        (if pem then der_to_pem platform.to_base64 der.der else der.der)

get_node : Platform → CardDataSource → Url → CardNode → NodeKind → Reply
unfolding get_info get_identity get_photo_leaf get_cert_info get_cert_export
get_node platform source url node NodeKind.info_leaf = get_info platform node
get_node platform source url node NodeKind.identity_leaf = get_identity platform source node
get_node platform source url node NodeKind.photo_leaf = get_photo_leaf platform source node
get_node platform source url node NodeKind.cert_info_leaf = get_cert_info platform source url node
get_node platform source url node NodeKind.cert_der_leaf =
    get_cert_export platform source url node false
get_node platform source url node NodeKind.cert_pem_leaf =
    get_cert_export platform source url node true
get_node platform source url node NodeKind.root = fails is_directory url.display_string
get_node platform source url node NodeKind.reader = fails is_directory url.display_string
get_node platform source url node NodeKind.identity_dir = fails is_directory url.display_string
get_node platform source url node NodeKind.pki_dir = fails is_directory url.display_string
get_node platform source url node NodeKind.cert_dir = fails is_directory url.display_string
get_node platform source url node NodeKind.invalid = fails does_not_exist url.display_string

unfoldable pub do_get : Platform → CardDataSource → Url → Reply
unfolding get_node
do_get platform source url =
    let node = resolve source url in get_node platform source url node node.kind
