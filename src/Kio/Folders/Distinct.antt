-- ===== src/Kio/Folders/Distinct.antt =====
-- components/kio/CardWorkerLogic.cpp, `buildCertFolders`: the names are distinct, so each resolves to
-- the certificate that it was built from.
use mathlib.Core.List.{append_assoc, append_cancel_right}
use libre_kde.Base.{
  ℕ, zero, suc, Bool, true, false, ◌≡◌, refl, ap, sym, subst, ◌∙◌, inl, inr, Text, codes, List, [],
  ◌∷◌, ◌++◌, ◌==◌, if◌then◌else◌, All, Bool-cases, arith, ◌+◌, ◌≤◌, ◌||◌, In, text_eq, text_eq_iff,
  map, drop,
}
use libre_kde.Base.Decimal.{decimal, decimal-injective, decimal-IsDigit, IsDigit}
use libre_kde.Kio.Source.{CertificateInfo}
use libre_kde.Kio.Folders.{
  stable_cert_folder_name, folder_name, count, bump, Catalog, CertFolder, cert_folder, folders_from,
  build_cert_folders, folder_cert_id,
}
use libre_kde.Kio.Folders.Names.{
  suffixed, folder_name-suc, IsBase, HasPlainId, stable_cert_folder_name-IsBase,
}

has_paren : Text → Bool
has_paren [] = false
has_paren (c ∷ s) = c == b')' || has_paren s

after_paren : Text → Text
after_paren [] = []
after_paren (c ∷ s) =
    let rest = after_paren s in if has_paren s then rest else if c == b')' then s else c ∷ s

has_paren-stem : (stem t : Text) → has_paren (stem ++ b')' ∷ t) ≡ true
unfolding has_paren
has_paren-stem [] t = refl
has_paren-stem (c ∷ stem) t = ground (arith, has_paren-stem stem t)

after_paren-stem : (stem t : Text) → has_paren t ≡ false → after_paren (stem ++ b')' ∷ t) ≡ t
unfolding after_paren
after_paren-stem [] t h = ground arith
after_paren-stem (c ∷ stem) t h = ground (arith, has_paren-stem stem t, after_paren-stem stem t h)

digits_have_none : (s : Text) → All IsDigit s → has_paren s ≡ false
unfolding has_paren
digits_have_none [] h = refl
digits_have_none (c ∷ s) h = ground (arith, digits_have_none s h.1, h.0)

after_base : {base : Text} → IsBase base → after_paren base ≡ []
unfolding has_paren
after_base b = rw b.closed (after_paren-stem b.stem [] refl)

after_suffixed :
    {base : Text} (n : ℕ) → IsBase base → after_paren (suffixed base n) ≡ codes " ~" ++ decimal n
unfolding has_paren
after_suffixed {base} n b =
    rw (b.closed, append_assoc b.stem (b')' ∷ []) (codes " ~" ++ decimal n))
      (after_paren-stem b.stem (codes " ~" ++ decimal n)
        (digits_have_none (decimal n) (decimal-IsDigit n)))

-- A folder name says its base name and its index.
folder_name-injective :
    {b d : Text} (n m : ℕ)
    → IsBase b
    → IsBase d
    → folder_name b n ≡ folder_name d m
    → (b ≡ d) × (n ≡ m)
unfolding folder_name
folder_name-injective zero zero hb hd e = (e, refl)
folder_name-injective {b} {d} zero (suc m) hb hd e = cc (
  ap after_paren (e ∙ folder_name-suc d m hd.plain),
  after_base hb,
  after_suffixed (suc m + 1) hd,
)
folder_name-injective {b} {d} (suc n) zero hb hd e = cc (
  ap after_paren (sym e ∙ folder_name-suc b n hb.plain),
  after_base hd,
  after_suffixed (suc n + 1) hb,
)
folder_name-injective {b} {d} (suc n) (suc m) hb hd e =
    let same : suffixed b (suc n + 1) ≡ suffixed d (suc m + 1) =
      sym (folder_name-suc b n hb.plain) ∙ e ∙ folder_name-suc d m hd.plain in
    let tails : codes " ~" ++ decimal (suc n + 1) ≡ codes " ~" ++ decimal (suc m + 1) =
      sym (after_suffixed (suc n + 1) hb) ∙ ap after_paren same ∙ after_suffixed (suc m + 1) hd in
    let numbers : suc n + 1 ≡ suc m + 1 = decimal-injective (ap (drop 2) tails) in
    let ends : d ++ (codes " ~" ++ decimal (suc m + 1)) ≡ d ++ (codes " ~" ++ decimal (suc n + 1)) =
      ap (λ (t : Text). d ++ t) (sym tails) in
    (append_cancel_right b d _ (same ∙ ends), omega arith)

count-bump :
    (b d : Text) (seen : List (Text × ℕ))
    → count d (bump b seen) ≡ (if text_eq b d then count d seen + 1 else count d seen)
unfolding count bump
count-bump b d [] = ground arith
count-bump b d ((a, n) ∷ seen) =
    ground (arith, text_eq_iff a b, text_eq_iff a d, text_eq_iff b d, count-bump b d seen)

-- A name that the loop may still give out.
record IsFresh (seen : List (Text × ℕ)) (name : Text) : Type 0 where
  base : Text
  is_base : IsBase base
  index : ℕ
  unused : count base seen ≤ index
  named : name ≡ folder_name base index

abbrev pub names : List CertFolder → List Text
names = map λ f. f.name

IsFresh-bump :
    {seen : List (Text × ℕ)} (b : Text) {name : Text}
    → IsFresh (bump b seen) name
    → IsFresh seen name
IsFresh-bump {seen} b f = record {
  base = f.base;
  is_base = f.is_base;
  index = f.index;
  unused = let h = f.unused in ground (arith, count-bump b f.base seen);
  named = f.named;
}

All-map {ℓ} :
    {P Q : Text → Type ℓ} → ((t : Text) → P t → Q t) → (ts : List Text) → All P ts → All Q ts
All-map f [] h = tt
All-map f (t ∷ ts) h = (f t h.0, All-map f ts h.1)

module _ (i18n : Catalog) (seen : List (Text × ℕ)) (c : CertificateInfo)
    (certs : List CertificateInfo) where
  -- One round of the loop on a signing certificate, and on any other.
  names_taken :
      c.signing_capable ≡ true
      → names (folders_from i18n seen (c ∷ certs))
        ≡ folder_name (stable_cert_folder_name c) (count (stable_cert_folder_name c) seen)
          ∷ names (folders_from i18n (bump (stable_cert_folder_name c) seen) certs)
  unfolding folders_from cert_folder
  names_taken e = ground arith

  names_skipped :
      c.signing_capable ≡ false
      → names (folders_from i18n seen (c ∷ certs)) ≡ names (folders_from i18n seen certs)
  unfolding folders_from
  names_skipped e = ground arith

folders-IsFresh :
    (i18n : Catalog) (seen : List (Text × ℕ)) (certs : List CertificateInfo)
    → All HasPlainId certs
    → All (IsFresh seen) (names (folders_from i18n seen certs))
folders-IsFresh i18n seen [] h = unfold folders_from in tt
folders-IsFresh i18n seen (c ∷ certs) h =
    let base = stable_cert_folder_name c in
    elim (Bool-cases c.signing_capable) [
      | inl e ↦ subst (All (IsFresh seen)) (sym (names_taken i18n seen c certs e)) (
        record {
          base = base;
          is_base = stable_cert_folder_name-IsBase c h.0;
          index = count base seen;
          unused = omega arith;
          named = refl;
        },
        All-map (λ t. IsFresh-bump base) _ (folders-IsFresh i18n (bump base seen) certs h.1),
      )
      | inr e ↦
          subst (All (IsFresh seen)) (sym (names_skipped i18n seen c certs e))
            (folders-IsFresh i18n seen certs h.1)
    ]

-- No name stands twice.
abbrev pub Distinct : List Text → Type 0
Distinct [] = Unit {0}
Distinct (t ∷ ts) = ¬ In t ts × Distinct ts

taken_not_fresh :
    (b : Text) (seen : List (Text × ℕ)) (ts : List Text)
    → IsBase b
    → All (IsFresh (bump b seen)) ts
    → ¬ In (folder_name b (count b seen)) ts
taken_not_fresh b seen [] hb h i = i
taken_not_fresh b seen (t ∷ ts) hb h (inr later) = taken_not_fresh b seen ts hb h.1 later
taken_not_fresh b seen (t ∷ ts) hb h (inl e) =
    let f = h.0 in
    let (same, index) = folder_name-injective (count b seen) f.index hb f.is_base (e ∙ f.named) in
    let unused = f.unused in ground (arith, count-bump b f.base seen, text_eq_iff b f.base)

folders-Distinct :
    (i18n : Catalog) (seen : List (Text × ℕ)) (certs : List CertificateInfo)
    → All HasPlainId certs
    → Distinct (names (folders_from i18n seen certs))
folders-Distinct i18n seen [] h = unfold folders_from in tt
folders-Distinct i18n seen (c ∷ certs) h =
    let base = stable_cert_folder_name c in
    elim (Bool-cases c.signing_capable) [
      | inl e ↦ subst Distinct (sym (names_taken i18n seen c certs e)) (
        taken_not_fresh base seen _ (stable_cert_folder_name-IsBase c h.0)
            (folders-IsFresh i18n (bump base seen) certs h.1),
        folders-Distinct i18n (bump base seen) certs h.1,
      )
      | inr e ↦
          subst Distinct (sym (names_skipped i18n seen c certs e))
            (folders-Distinct i18n seen certs h.1)
    ]

-- The names of the certificate folders are distinct, whatever certificates share a purpose and the
-- first eight characters of their id, where those characters hold no place marker of `arg`.
pub build_cert_folders-Distinct :
    (i18n : Catalog) (certs : List CertificateInfo)
    → All HasPlainId certs
    → Distinct (names (build_cert_folders i18n certs))
unfolding build_cert_folders
build_cert_folders-Distinct i18n certs h = folders-Distinct i18n [] certs h

In-names : (f : CertFolder) (fs : List CertFolder) → In f fs → In f.name (names fs)
In-names f [] i = i
In-names f (g ∷ fs) (inl e) = inl (ap (λ (x : CertFolder). x.name) e)
In-names f (g ∷ fs) (inr i) = inr (In-names f fs i)

found_by_name :
    (f : CertFolder) (fs : List CertFolder)
    → Distinct (names fs)
    → In f fs
    → folder_cert_id f.name fs ≡ f.cert_id
unfolding folder_cert_id
found_by_name f [] d i = elim i [ ]
found_by_name f (g ∷ fs) d (inl e) =
    let same : g.name ≡ f.name = ap (λ (x : CertFolder). x.name) (sym e) in
    let id : g.cert_id ≡ f.cert_id = ap (λ (x : CertFolder). x.cert_id) (sym e) in
    ground (arith, text_eq_iff g.name f.name)
found_by_name f (g ∷ fs) d (inr i) = elim (Bool-cases (text_eq g.name f.name)) [
  | inl e ↦
      absurd (
        d.0
          (subst (λ t. In t (names fs)) (sym ((text_eq_iff g.name f.name).0 e)) (In-names f fs i)))
  | inr e ↦ rw e (found_by_name f fs d.1 i)
]

-- The search by name finds, for every folder of the set, the certificate that the folder was built
-- from, where the ids hold no place marker of `arg` in their first eight characters.
pub folder_cert_id-build_cert_folders :
    (i18n : Catalog) (certs : List CertificateInfo) (f : CertFolder)
    → All HasPlainId certs
    → In f (build_cert_folders i18n certs)
    → folder_cert_id f.name (build_cert_folders i18n certs) ≡ f.cert_id
folder_cert_id-build_cert_folders i18n certs f h i =
    found_by_name f _ (build_cert_folders-Distinct i18n certs h) i
