-- ===== src/Kio/Get/Export.antt =====
-- components/kio/CardWorkerLogic.cpp: the certificate that a listed folder exports.
use libre_kde.Base.{false, Text, is_empty, [], ◌∷◌, ◌++◌, ◌≡◌, arith, All, In}
use libre_kde.Kio.Source.{CardDataSource, CertListResult, ReadStatus}
use libre_kde.Kio.Tree.{Url, NodeKind, resolve, cert_der_name}
use libre_kde.Kio.Tree.Paths.{IsSegment}
use libre_kde.Kio.Tree.Certificates.{resolve-der}
use libre_kde.Kio.Folders.{CertFolder, build_cert_folders}
use libre_kde.Kio.Folders.Names.{HasPlainId}
use libre_kde.Kio.Folders.Distinct.{folder_cert_id-build_cert_folders}
use libre_kde.Kio.Worker.{read_certificates, get_certificate_der, Platform, cert_der_mime}
use libre_kde.Kio.Get.{do_get, resolve_cert_id, sends}

module _ (platform : Platform) (source : CardDataSource) (url leaf : Url) (f : CertFolder) where
  abbrev card : Text
  card = (resolve source url).presence.card_id

  abbrev listed : CertListResult
  listed = source.read_certificates card

  -- A folder that the listing of a `PKI` folder gives is read back: for the path of that `PKI` folder,
  -- the folder's name and `certificate.der`, the worker reads the certificate list, fetches the
  -- certificate that the folder was built from, and sends its bytes. The ids hold no place marker of
  -- `arg` in their first eight characters, the folder's name is one path segment, its certificate has
  -- an id, and both reads succeed.
  pub do_get-folder :
      (resolve source url).kind ≡ NodeKind.pki_dir
      → listed.status ≡ ReadStatus.ok
      → All HasPlainId listed.certs
      → In f (build_cert_folders platform.catalog listed.certs)
      → IsSegment f.name
      → leaf.path ≡ (url.path ++ b'/' ∷ f.name) ++ b'/' ∷ cert_der_name
      → is_empty f.cert_id ≡ false
      → (source.get_certificate_der card f.cert_id).status ≡ ReadStatus.ok
      → do_get platform source leaf
        ≡ sends
            (read_certificates card ∷ get_certificate_der card f.cert_id ∷ [])
            cert_der_mime
            (source.get_certificate_der card f.cert_id).der
  unfolding do_get resolve_cert_id
  do_get-folder kind read plain built segment path id fetched =
      let node = resolve-der source url leaf f.name kind segment path in
      let want = folder_cert_id-build_cert_folders platform.catalog listed.certs f plain built in
      rw (node, do_get) (ground (arith, read, want, id, fetched))
