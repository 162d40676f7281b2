-- ===== src/Kio/Worker/Requests.antt =====
-- components/kio/CardWorkerLogic.cpp: doListDir, doStat and doMimetype.
use libre_kde.Base.{
  true, ◌&&◌, not, Text, codes, text_eq, is_empty, [], ◌∷◌, some, if◌then◌else◌, map,
}
use libre_kde.Kio.Source.{CardDataSource, AgentState}
use libre_kde.Kio.Tree.{
  Url, CardNode, NodeKind, resolve, list, info_txt, identity_dir_name, pki_dir_name, identity_txt,
  cert_info_txt, cert_der_name, cert_pem_name,
}
use libre_kde.Kio.Folders.{CertFolder, build_cert_folders}
use libre_kde.Kio.Worker.{
  cannot_enter_directory, does_not_exist, is_directory, worker_defined, pass, UdsEntry, Emission,
  list_entry, stat_entry, mime_type, read_certificates, Reply, Platform, cert_der_mime,
  cert_pem_mime, text_plain, photo_mime_for_name, dir_entry, file_entry, fail_for_read, is_ok,
  file_name, replies, fails,
}

-- The self-entry that every listing of a directory begins with.
abbrev self_entry : Emission
self_entry = list_entry (dir_entry (codes "."))

reader_entry : Text → UdsEntry
reader_entry child = if text_eq child info_txt then file_entry child text_plain else dir_entry child

identity_entry : Text → UdsEntry
identity_entry child =
    if text_eq child identity_txt
    then file_entry child text_plain
    else file_entry child (photo_mime_for_name child)

-- The localized form rides along where it is not the name itself.
folder_entry : CertFolder → UdsEntry
folder_entry folder =
    if not (is_empty folder.display_name) && not (text_eq folder.display_name folder.name)
    then record (dir_entry folder.name) { display_name = some folder.display_name }
    else dir_entry folder.name

list_pki : Platform → CardDataSource → CardNode → Reply
unfolding folder_entry
list_pki platform source node =
    let certs = source.read_certificates node.presence.card_id in
    let folders = build_cert_folders platform.catalog certs.certs in
    record {
      calls = read_certificates node.presence.card_id ∷ [];
      emitted =
          self_entry
          ∷ (if is_ok certs.status then map (λ f. list_entry (folder_entry f)) folders else []);
      result =
          if is_ok certs.status
          then pass
          else fail_for_read platform.catalog certs.status true certs.message;
    }

list_root : Platform → CardDataSource → Url → AgentState → Reply
list_root platform source url AgentState.ready =
    replies (self_entry ∷ map (λ r. list_entry (dir_entry r)) (list source url)) pass
list_root platform source url AgentState.stopped =
    fails worker_defined platform.catalog.service_not_running
list_root platform source url AgentState.missing =
    fails worker_defined platform.catalog.service_not_installed

unfoldable pub list_node : Platform → CardDataSource → Url → CardNode → NodeKind → Reply
unfolding list_root list_pki reader_entry identity_entry
list_node platform source url node NodeKind.root = list_root platform source url source.agent_state
list_node platform source url node NodeKind.reader =
    replies (self_entry ∷ map (λ c. list_entry (reader_entry c)) (list source url)) pass
list_node platform source url node NodeKind.identity_dir =
    replies (self_entry ∷ map (λ c. list_entry (identity_entry c)) (list source url)) pass
list_node platform source url node NodeKind.pki_dir = list_pki platform source node
list_node platform source url node NodeKind.cert_dir =
    replies
      (self_entry
        ∷ list_entry (file_entry cert_info_txt text_plain)
        ∷ list_entry (file_entry cert_der_name cert_der_mime)
        ∷ list_entry (file_entry cert_pem_name cert_pem_mime)
        ∷ [])
      pass
list_node platform source url node NodeKind.invalid =
    fails cannot_enter_directory url.display_string
list_node platform source url node _ = fails is_directory url.display_string

unfoldable pub do_list_dir : Platform → CardDataSource → Url → Reply
unfolding list_node
do_list_dir platform source url =
    let node = resolve source url in list_node platform source url node node.kind

stats : UdsEntry → Reply
stats entry = replies (stat_entry entry ∷ []) pass

stat_node : Url → CardNode → NodeKind → Reply
unfolding stats
stat_node url node NodeKind.root = stats (dir_entry (codes "card"))
stat_node url node NodeKind.reader = stats (dir_entry node.reader_name)
stat_node url node NodeKind.identity_dir = stats (dir_entry identity_dir_name)
stat_node url node NodeKind.pki_dir = stats (dir_entry pki_dir_name)
stat_node url node NodeKind.cert_dir = stats (dir_entry node.cert_folder)
stat_node url node NodeKind.info_leaf = stats (file_entry (file_name url) text_plain)
stat_node url node NodeKind.identity_leaf = stats (file_entry (file_name url) text_plain)
stat_node url node NodeKind.cert_info_leaf = stats (file_entry (file_name url) text_plain)
stat_node url node NodeKind.photo_leaf =
    stats (file_entry (file_name url) (photo_mime_for_name (file_name url)))
stat_node url node NodeKind.cert_der_leaf = stats (file_entry cert_der_name cert_der_mime)
stat_node url node NodeKind.cert_pem_leaf = stats (file_entry cert_pem_name cert_pem_mime)
stat_node url node NodeKind.invalid = fails does_not_exist url.display_string

unfoldable pub do_stat : CardDataSource → Url → Reply
unfolding stat_node
do_stat source url = let node = resolve source url in stat_node url node node.kind

mime_of : Text → Reply
mime_of mime = replies (mime_type mime ∷ []) pass

mime_node : Url → NodeKind → Reply
unfolding mime_of
mime_node url NodeKind.info_leaf = mime_of text_plain
mime_node url NodeKind.identity_leaf = mime_of text_plain
mime_node url NodeKind.cert_info_leaf = mime_of text_plain
mime_node url NodeKind.cert_der_leaf = mime_of cert_der_mime
mime_node url NodeKind.cert_pem_leaf = mime_of cert_pem_mime
mime_node url NodeKind.photo_leaf = mime_of (photo_mime_for_name (file_name url))
mime_node url NodeKind.root = mime_of (codes "inode/directory")
mime_node url NodeKind.reader = mime_of (codes "inode/directory")
mime_node url NodeKind.identity_dir = mime_of (codes "inode/directory")
mime_node url NodeKind.pki_dir = mime_of (codes "inode/directory")
mime_node url NodeKind.cert_dir = mime_of (codes "inode/directory")
mime_node url NodeKind.invalid = fails does_not_exist url.display_string

unfoldable pub do_mimetype : CardDataSource → Url → Reply
unfolding mime_node
do_mimetype source url = mime_node url (resolve source url).kind
