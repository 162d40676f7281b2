-- ===== src/Kio/Get/Protocol.antt =====
-- components/kio/CardWorkerLogic.cpp: what `doGet` emits.
use libre_kde.Base.{
  ℕ, Bool, true, false, Text, List, [], ◌∷◌, Option, none, some, ◌≡◌, refl, ◌⊎◌, inl, inr,
  if◌then◌else◌,
}
use libre_kde.Kio.Source.{CertificateInfo, CardDataSource, ReadStatus}
use libre_kde.Kio.Tree.{Url, CardNode, NodeKind, resolve}
use libre_kde.Kio.Get.{do_get, get_node, sends, refuses, info_reply}
use libre_kde.Kio.Folders.{Catalog}
use libre_kde.Kio.Worker.{
  KioError, pass, fail, mime_type, bytes, Call, Reply, Platform, fail_for_read,
}

-- A failed request emitted nothing; a served one sent one MIME type, one payload and the end mark.
pub IsWhole : Reply → Type 0
IsWhole r =
    ((r.result ≡ pass)
      × (mime : Text) × (payload : List ℕ) × (r.emitted
          ≡ mime_type mime ∷ bytes payload ∷ bytes [] ∷ []))
    ⊎ ((e : KioError) × (message : Text) × (r.result ≡ fail e message) × (r.emitted ≡ []))

fail_for_read-fails :
    (i18n : Catalog) (status : ReadStatus) (d : Bool) (message : Text)
    → (e : KioError) × (m : Text) × (fail_for_read i18n status d message ≡ fail e m)
unfolding fail_for_read
fail_for_read-fails i18n ReadStatus.ok d message = (_, _, refl)
fail_for_read-fails i18n _ d message = (_, _, refl)

pick : (b : Bool) (x y : Reply) → IsWhole x → IsWhole y → IsWhole (if b then x else y)
pick true x y hx hy = hx
pick false x y hx hy = hy

sends-IsWhole :
    (calls : List Call) (mime : Text) (payload : List ℕ) → IsWhole (sends calls mime payload)
unfolding IsWhole
sends-IsWhole calls mime payload = inl (refl, mime, payload, refl)

refuses-IsWhole : (calls : List Call) (e : KioError) (m : Text) → IsWhole (refuses calls (fail e m))
unfolding IsWhole
refuses-IsWhole calls e m = inr (e, m, refl, refl)

failed-IsWhole :
    (calls : List Call) (i18n : Catalog) (status : ReadStatus) (d : Bool) (message : Text)
    → IsWhole (refuses calls (fail_for_read i18n status d message))
failed-IsWhole calls i18n status d message =
    let (e, m, h) = fail_for_read-fails i18n status d message in rw h (refuses-IsWhole calls e m)

info_reply-IsWhole :
    (platform : Platform) (calls : List Call) (display : Text) (c : Option CertificateInfo)
    → IsWhole (info_reply platform calls display c)
unfolding info_reply
info_reply-IsWhole platform calls display none = refuses-IsWhole _ _ _
info_reply-IsWhole platform calls display (some c) = sends-IsWhole _ _ _

ruleset whole = (pick, sends-IsWhole, refuses-IsWhole, failed-IsWhole, info_reply-IsWhole)

get_node-IsWhole :
    (platform : Platform) (source : CardDataSource) (url : Url) (node : CardNode) (kind : NodeKind)
    → IsWhole (get_node platform source url node kind)
unfolding get_node
get_node-IsWhole platform source url node NodeKind.info_leaf = search whole
get_node-IsWhole platform source url node _ = search whole

-- Every request for content either passes, having emitted one MIME type, one payload and the empty
-- chunk that ends the data, or fails, having emitted nothing.
pub do_get-IsWhole :
    (platform : Platform) (source : CardDataSource) (url : Url)
    → IsWhole (do_get platform source url)
unfolding do_get
do_get-IsWhole platform source url =
    get_node-IsWhole platform source url (resolve source url) (resolve source url).kind
