-- ===== src/Kio/Tree/Certificates.antt =====
-- components/kio/CardTree.cpp: the leaves of a certificate folder lie below the `PKI` folder.
use libre_kde.Base.{
  true, false, ◌≡◌, refl, inl, inr, Text, List, [], ◌∷◌, ◌++◌, Option-cases, arith, text_eq,
  text_eq_refl,
}
use libre_kde.Kio.Source.{CardDataSource}
use libre_kde.Kio.Tree.{
  Url, NodeKind, CardNode, cert_info_txt, cert_der_name, segments, presence_for, resolve_segments,
  resolve,
}
use libre_kde.Kio.Tree.Paths.{IsSegment, segments-append}
use mathlib.Core.List.{append_assoc}

der_is_not_info : text_eq cert_der_name cert_info_txt ≡ false
unfolding text_eq
der_is_not_info = refl

der_is_der : text_eq cert_der_name cert_der_name ≡ true
der_is_der = text_eq_refl cert_der_name

abbrev pub der_leaf : CardNode → Text → CardNode
der_leaf node folder = record node { kind = NodeKind.cert_der_leaf; cert_folder = folder }

segments_der :
    (source : CardDataSource) (segs : List Text) (folder : Text)
    → (resolve_segments source segs).kind ≡ NodeKind.pki_dir
    → resolve_segments source (segs ++ folder ∷ cert_der_name ∷ [])
      ≡ der_leaf (resolve_segments source segs) folder
unfolding resolve_segments
segments_der source [] folder h = cc
segments_der source (s0 ∷ []) folder h = elim (Option-cases (presence_for source s0)) [
  | inl e ↦ ground arith
  | inr (p, e) ↦ ground arith
]
segments_der source (s0 ∷ s1 ∷ []) folder h = elim (Option-cases (presence_for source s0)) [
  | inl e ↦ ground arith
  | inr (p, e) ↦ ground (arith, der_is_not_info, der_is_der)
]
segments_der source (s0 ∷ s1 ∷ s2 ∷ []) folder h = elim (Option-cases (presence_for source s0)) [
  | inl e ↦ ground arith
  | inr (p, e) ↦ ground arith
]
segments_der source (s0 ∷ s1 ∷ s2 ∷ s3 ∷ []) folder h =
    elim (Option-cases (presence_for source s0)) [
      | inl e ↦ ground arith
      | inr (p, e) ↦ ground arith
    ]
segments_der source (s0 ∷ s1 ∷ s2 ∷ s3 ∷ s4 ∷ rest) folder h =
    elim (Option-cases (presence_for source s0)) [
      | inl e ↦ ground arith
      | inr (p, e) ↦ ground arith
    ]

-- Below a `PKI` folder, `<folder>/certificate.der` is the leaf of that folder on the same card.
pub resolve-der :
    (source : CardDataSource) (url leaf : Url) (folder : Text)
    → (resolve source url).kind ≡ NodeKind.pki_dir
    → IsSegment folder
    → leaf.path ≡ (url.path ++ b'/' ∷ folder) ++ b'/' ∷ cert_der_name
    → resolve source leaf ≡ der_leaf (resolve source url) folder
unfolding resolve
resolve-der source url leaf folder h s e =
    let first = segments-append (url.path ++ b'/' ∷ folder) cert_der_name (refl, omega arith) in
    let second = segments-append url.path folder s in
    rw (e, first, second, append_assoc (segments url.path) (folder ∷ []) (cert_der_name ∷ []))
      (segments_der source (segments url.path) folder h)
