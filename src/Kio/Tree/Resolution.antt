-- ===== src/Kio/Tree/Resolution.antt =====
-- components/kio/CardTree.cpp: what `list` names and what `resolve` accepts.
use libre_kde.Base.{
  Bool, true, ◌≡◌, refl, ap, sym, subst, ◌∙◌, ◌≢◌, ◌⊎◌, inl, inr, Text, List, [], ◌∷◌, ◌++◌,
  Bool-cases, some, Option-cases, arith, text_eq, text_eq_iff, In,
}
use libre_kde.Kio.Source.{CardPresence, CardDataSource, Cap, identity_data, pki}
use libre_kde.Kio.Tree.{
  Url, NodeKind, CardNode, info_txt, identity_dir_name, pki_dir_name, identity_txt, photo_leaf_name,
  segments, find_presence, presence_for, resolve_reader, resolve_segments, resolve, list_reader,
  reader_names, list_segments, list,
}
use libre_kde.Kio.Tree.Paths.{IsSegment, segments-append}

find_presence-listed :
    (name : Text) (ps : List CardPresence)
    → In name (reader_names ps)
    → (p : CardPresence) × (find_presence name ps ≡ some p)
unfolding find_presence
find_presence-listed name [] h = elim h [ ]
find_presence-listed name (p ∷ ps) h = elim (Bool-cases (text_eq p.reader_name name)) [
  | inl same ↦ (p, ground arith)
  | inr other ↦ elim h [
    | inl e ↦ absurd (ground (arith, text_eq_iff p.reader_name name))
    | inr later ↦ let (q, e) = find_presence-listed name ps later in (q, ground arith)
  ]
]

reader_child :
    (p : CardPresence) (name : Text)
    → In name (list_reader p [])
    → (resolve_reader p (name ∷ [])).kind ≢ NodeKind.invalid
unfolding list_reader resolve_reader
reader_child p name h = ground (
  arith,
  text_eq_iff name info_txt,
  text_eq_iff name identity_dir_name,
  text_eq_iff name pki_dir_name,
)

identity_child :
    (p : CardPresence) (s1 name : Text)
    → In name (list_reader p (s1 ∷ []))
    → (resolve_reader p (s1 ∷ name ∷ [])).kind ≢ NodeKind.invalid
unfolding list_reader resolve_reader
identity_child p s1 name h =
    ground (arith, text_eq_iff name identity_txt, text_eq_iff name (photo_leaf_name p.capabilities))

segments_child :
    (source : CardDataSource) (segs : List Text) (name : Text)
    → In name (list_segments source segs)
    → (resolve_segments source (segs ++ name ∷ [])).kind ≢ NodeKind.invalid
unfolding list_segments resolve_segments resolve_reader
segments_child source [] name h =
    let (p, e) = find_presence-listed name source.list_readers_with_cards h in ground (arith, e)
segments_child source (s0 ∷ []) name h = elim (Option-cases (presence_for source s0)) [
  | inl e ↦ ground arith
  | inr (p, e) ↦ ground (arith, reader_child p name)
]
segments_child source (s0 ∷ s1 ∷ []) name h = elim (Option-cases (presence_for source s0)) [
  | inl e ↦ ground arith
  | inr (p, e) ↦ ground (arith, identity_child p s1 name)
]
segments_child source (s0 ∷ s1 ∷ s2 ∷ rest) name h = elim (Option-cases (presence_for source s0)) [
  | inl e ↦ ground arith
  | inr (p, e) ↦ ground arith
]

-- Every name that `list` gives for a url, appended to the path of that url as one more segment,
-- resolves to a node that is not `invalid`, where the name is a possible path segment.
pub list-resolve :
    (source : CardDataSource) (url child : Url) (name : Text)
    → In name (list source url)
    → IsSegment name
    → child.path ≡ url.path ++ b'/' ∷ name
    → (resolve source child).kind ≢ NodeKind.invalid
unfolding list resolve
list-resolve source url child name h s e =
    rw (e, segments-append url.path name s) (segments_child source (segments url.path) name h)

find_presence-In :
    (name : Text) (ps : List CardPresence) {p : CardPresence}
    → find_presence name ps ≡ some p
    → In p ps × (p.reader_name ≡ name)
unfolding find_presence
find_presence-In name [] e = cc
find_presence-In name (q ∷ ps) e = elim (Bool-cases (text_eq q.reader_name name)) [
  | inl same ↦ ground (arith, text_eq_iff q.reader_name name)
  | inr other ↦ let (i, n) = find_presence-In name ps (ground arith) in (inr i, n)
]

segment_named :
    (source : CardDataSource) (name : Text) (p : CardPresence)
    → find_presence name source.list_readers_with_cards ≡ some p
    → p.reader_name ≡ name
    → ((resolve_segments source (name ∷ [])).kind ≡ NodeKind.reader)
      × ((resolve_segments source (name ∷ [])).reader_name ≡ name)
unfolding resolve_segments resolve_reader presence_for
segment_named source name p found named = ground (arith, found, named)

-- The url of a listed reader's name resolves to a folder of a reader of that name.
pub resolve_named :
    (source : CardDataSource) (url : Url) (name : Text)
    → In name (reader_names source.list_readers_with_cards)
    → IsSegment name
    → url.path ≡ b'/' ∷ name
    → ((resolve source url).kind ≡ NodeKind.reader) × ((resolve source url).reader_name ≡ name)
unfolding resolve segments
resolve_named source url name i s e =
    let (p, found) = find_presence-listed name source.list_readers_with_cards i in
    let (listed, named) = find_presence-In name source.list_readers_with_cards found in
    let path : segments url.path ≡ name ∷ [] = ap segments e ∙ segments-append [] name s in
    subst
      (λ segs.
        ((resolve_segments source segs).kind ≡ NodeKind.reader)
        × ((resolve_segments source segs).reader_name ≡ name))
      (sym path) (segment_named source name p found named)

-- What a node of each kind requires of the card.
abbrev pub Grants : NodeKind → (Cap → Bool) → Type 0
Grants NodeKind.identity_dir caps = caps identity_data ≡ true
Grants NodeKind.identity_leaf caps = caps identity_data ≡ true
Grants NodeKind.photo_leaf caps = caps identity_data ≡ true
Grants NodeKind.pki_dir caps = caps pki ≡ true
Grants NodeKind.cert_dir caps = caps pki ≡ true
Grants NodeKind.cert_info_leaf caps = caps pki ≡ true
Grants NodeKind.cert_der_leaf caps = caps pki ≡ true
Grants NodeKind.cert_pem_leaf caps = caps pki ≡ true
Grants _ caps = Unit {0}

-- A node below the root carries a presence that the data source lists, under its own name.
pub record IsGrounded (source : CardDataSource) (segs : List Text) (node : CardNode) : Type 0 where
  pub granted : Grants node.kind node.presence.capabilities
  pub placed :
      (node.kind ≡ NodeKind.invalid)
      ⊎ ((node.kind ≡ NodeKind.root) × (segs ≡ []))
      ⊎ (In node.presence source.list_readers_with_cards
          × (node.reader_name ≡ node.presence.reader_name)
          × (rest : List Text) × (segs ≡ node.reader_name ∷ rest))

abbrev IsBelow : CardPresence → CardNode → Type 0
IsBelow p node =
    Grants node.kind node.presence.capabilities
    × ((node.kind ≡ NodeKind.invalid) ⊎ ((node.presence ≡ p) × (node.reader_name ≡ p.reader_name)))

resolve_reader-IsBelow : (p : CardPresence) (rest : List Text) → IsBelow p (resolve_reader p rest)
unfolding resolve_reader
resolve_reader-IsBelow p [] = ground arith
resolve_reader-IsBelow p (s1 ∷ []) = ground arith
resolve_reader-IsBelow p (s1 ∷ s2 ∷ []) = ground arith
resolve_reader-IsBelow p (s1 ∷ s2 ∷ s3 ∷ []) = ground arith
resolve_reader-IsBelow p (s1 ∷ s2 ∷ s3 ∷ s4 ∷ rest) = ground arith

segments-IsGrounded :
    (source : CardDataSource) (segs : List Text)
    → IsGrounded source segs (resolve_segments source segs)
unfolding resolve_segments presence_for
segments-IsGrounded source [] = record { granted = tt; placed = inr (inl (refl, refl)) }
segments-IsGrounded source (s0 ∷ rest) =
    elim (Option-cases (find_presence s0 source.list_readers_with_cards)) [
      | inl e ↦ rw (e, resolve_segments) (record { granted = tt; placed = inl refl })
      | inr (p, e) ↦
          let (listed, name) = find_presence-In s0 source.list_readers_with_cards e in
          let (granted, placed) = resolve_reader-IsBelow p rest in
          rw (e, resolve_segments)
            (record {
              granted = granted;
              placed = elim placed [
                | inl bad ↦ inl bad
                | inr (at, named) ↦ inr (inr (rw at listed, rw at named, rest, rw (named, name)))
              ];
            })
    ]

-- Whatever a url resolves to: the card grants the capability that the node's kind stands for, and
-- the node is the invalid one, or the root for a path with no segment, or one whose presence the
-- data source lists, under the reader name that is the first segment of the path.
pub resolve-IsGrounded :
    (source : CardDataSource) (url : Url)
    → IsGrounded source (segments url.path) (resolve source url)
unfolding resolve
resolve-IsGrounded source url = segments-IsGrounded source (segments url.path)
