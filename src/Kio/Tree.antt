-- ===== src/Kio/Tree.antt =====
-- components/kio/CardTree.h and CardTree.cpp: the mapping of a `card:/` path to a node, and the
-- child names that the capabilities of a card give. A url is its decoded path and display string.
pub mod Paths
pub mod Resolution
pub mod Certificates
use libre_kde.Base.{
  ℕ, Bool, true, false, ◌&&◌, Text, codes, text_eq, is_empty, List, [], ◌∷◌, ◌++◌, map, Option,
  none, some, ◌==◌, if◌then◌else◌,
}
use libre_kde.Kio.Source.{CardPresence, CardDataSource, Cap, identity_data, pki, emrtd_crypto}

pub record Url : Type 0 where
  pub path : Text
  pub display_string : Text

pub data NodeKind : Type 0 where
  invalid root reader identity_dir pki_dir cert_dir : NodeKind
  info_leaf identity_leaf photo_leaf cert_info_leaf cert_der_leaf cert_pem_leaf : NodeKind

pub record CardNode : Type 0 where
  pub kind : NodeKind
  pub reader_name : Text
  pub cert_folder : Text
  pub presence : CardPresence

-- The default members of `CardPresence`.
abbrev pub no_presence : CardPresence
no_presence = record {
  reader_name = [];
  card_id = [];
  capabilities = λ c. false;
  pre_read_auth = [];
  reader_label = [];
}

-- `CardNode{}`.
abbrev pub no_node : CardNode
no_node = record { kind = invalid; reader_name = []; cert_folder = []; presence = no_presence }

abbrev pub info_txt : Text
info_txt = codes "info.txt"

abbrev pub identity_dir_name : Text
identity_dir_name = codes "Identity"

abbrev pub pki_dir_name : Text
pki_dir_name = codes "PKI"

abbrev pub identity_txt : Text
identity_txt = codes "identity.txt"

abbrev pub photo_node_name : Text
photo_node_name = codes "photo"

abbrev pub photo_leaf_name : (Cap → Bool) → Text
photo_leaf_name caps = photo_node_name ++ (if caps emrtd_crypto then codes ".jp2" else codes ".jpg")

abbrev pub cert_info_txt : Text
cert_info_txt = codes "info.txt"

abbrev pub cert_der_name : Text
cert_der_name = codes "certificate.der"

abbrev pub cert_pem_name : Text
cert_pem_name = codes "certificate.pem"

abbrev pub identity_children : (Cap → Bool) → List Text
identity_children caps = identity_txt ∷ photo_leaf_name caps ∷ []

push_unit : ℕ → List Text → List Text
push_unit c [] = (c ∷ []) ∷ []
push_unit c (part ∷ parts) = (c ∷ part) ∷ parts

-- `QString::split`, empty parts kept.
unfoldable pub split : ℕ → Text → List Text
unfolding push_unit
split sep [] = [] ∷ []
split sep (c ∷ s) = let rest = split sep s in if c == sep then [] ∷ rest else push_unit c rest

unfoldable pub skip_empty_parts : List Text → List Text
skip_empty_parts [] = []
skip_empty_parts (part ∷ parts) =
    let rest = skip_empty_parts parts in if is_empty part then rest else part ∷ rest

unfoldable pub segments : Text → List Text
unfolding split skip_empty_parts
segments path = skip_empty_parts (split b'/' path)

find_presence : Text → List CardPresence → Option CardPresence
find_presence name [] = none
find_presence name (p ∷ ps) = if text_eq p.reader_name name then some p else find_presence name ps

unfoldable pub presence_for : CardDataSource → Text → Option CardPresence
unfolding find_presence
presence_for source name = find_presence name source.list_readers_with_cards

-- A node of the given kind at a resolved presence.
abbrev pub node_at : NodeKind → CardPresence → Text → CardNode
node_at kind p folder = record {
  kind = kind;
  reader_name = p.reader_name;
  cert_folder = folder;
  presence = p;
}

-- Below `card:/<reader>/Identity`.
resolve_identity : CardPresence → List Text → CardNode
resolve_identity p [] = node_at identity_dir p []
resolve_identity p (leaf ∷ []) =
    if text_eq leaf identity_txt
    then node_at identity_leaf p []
    else if text_eq leaf (photo_leaf_name p.capabilities)
    then node_at photo_leaf p []
    else no_node
resolve_identity p (leaf ∷ _ ∷ _) = no_node

-- Below `card:/<reader>/PKI`.
resolve_pki : CardPresence → List Text → CardNode
resolve_pki p [] = node_at pki_dir p []
resolve_pki p (folder ∷ []) = node_at cert_dir p folder
resolve_pki p (folder ∷ leaf ∷ []) =
    if text_eq leaf cert_info_txt
    then node_at cert_info_leaf p folder
    else if text_eq leaf cert_der_name
    then node_at cert_der_leaf p folder
    else if text_eq leaf cert_pem_name
    then node_at cert_pem_leaf p folder
    else no_node
resolve_pki p (folder ∷ leaf ∷ _ ∷ _) = no_node

-- Below `card:/<reader>`.
resolve_reader : CardPresence → List Text → CardNode
unfolding resolve_identity resolve_pki
resolve_reader p [] = node_at reader p []
resolve_reader p (s1 ∷ rest) =
    if is_empty rest && text_eq s1 info_txt
    then node_at info_leaf p []
    else if text_eq s1 identity_dir_name && p.capabilities identity_data
    then resolve_identity p rest
    else if text_eq s1 pki_dir_name && p.capabilities pki
    then resolve_pki p rest
    else no_node

resolve_segments : CardDataSource → List Text → CardNode
unfolding resolve_reader presence_for
resolve_segments source [] = record {
  kind = root;
  reader_name = [];
  cert_folder = [];
  presence = no_presence;
}
resolve_segments source (s0 ∷ rest) = elim (presence_for source s0) [
  | none ↦ no_node
  | some p ↦ resolve_reader p rest
]

unfoldable pub resolve : CardDataSource → Url → CardNode
unfolding resolve_segments segments
resolve source url = resolve_segments source (segments url.path)

-- The children of a reader's folder, or of its `Identity` folder.
list_reader : CardPresence → List Text → List Text
list_reader p [] =
    (info_txt ∷ (if p.capabilities identity_data then identity_dir_name ∷ [] else []))
    ++ (if p.capabilities pki then pki_dir_name ∷ [] else [])
list_reader p (s1 ∷ []) =
    if text_eq s1 identity_dir_name && p.capabilities identity_data
    then identity_children p.capabilities
    else []
list_reader p (s1 ∷ _ ∷ _) = []

abbrev pub reader_names : List CardPresence → List Text
reader_names = map λ p. p.reader_name

list_segments : CardDataSource → List Text → List Text
unfolding list_reader presence_for
list_segments source [] = reader_names source.list_readers_with_cards
list_segments source (s0 ∷ rest) = elim (presence_for source s0) [
  | none ↦ []
  | some p ↦ list_reader p rest
]

-- `CardTree::list`.
unfoldable pub list : CardDataSource → Url → List Text
unfolding list_segments segments
list source url = list_segments source (segments url.path)
