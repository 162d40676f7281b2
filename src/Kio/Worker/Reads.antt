-- ===== src/Kio/Worker/Reads.antt =====
-- components/kio/CardWorkerLogic.cpp: which card reads the browsing requests make.
use libre_kde.Base.{List, [], ◌∷◌, ◌≡◌, refl, arith}
use libre_kde.Kio.Source.{CardDataSource}
use libre_kde.Kio.Tree.{Url, CardNode, NodeKind, resolve}
use libre_kde.Kio.Worker.{Call, read_certificates, Platform}
use libre_kde.Kio.Worker.Requests.{do_list_dir, list_node, do_stat, do_mimetype}

-- The reads that a listing makes of a card: entering the folder of the certificates alone reads.
abbrev pub listing_calls : CardNode → NodeKind → List Call
listing_calls node NodeKind.pki_dir = read_certificates node.presence.card_id ∷ []
listing_calls node _ = []

list_node-calls :
    (platform : Platform) (source : CardDataSource) (url : Url) (node : CardNode) (kind : NodeKind)
    → (list_node platform source url node kind).calls ≡ listing_calls node kind
unfolding list_node
list_node-calls platform source url node NodeKind.root = ground arith
list_node-calls platform source url node _ = refl

-- Browsing reads no card, except that listing a `PKI` folder reads its certificate list, once; a stat
-- and a query of the MIME type never read.
pub requests-calls :
    (platform : Platform) (source : CardDataSource) (url : Url)
    → let node = resolve source url in
      ((do_list_dir platform source url).calls ≡ listing_calls node node.kind)
      × ((do_stat source url).calls ≡ [])
      × ((do_mimetype source url).calls ≡ [])
unfolding do_list_dir do_stat do_mimetype
requests-calls platform source url = (
  list_node-calls platform source url (resolve source url) (resolve source url).kind,
  ground arith,
  ground arith,
)
