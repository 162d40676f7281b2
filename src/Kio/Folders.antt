-- ===== src/Kio/Folders.antt =====
-- components/kio/CardWorkerLogic.cpp: the names of the certificate folders, and the set of folders
-- that the listing and every read of a certificate leaf share.
pub mod Names
pub mod Distinct
use libre_kde.Base.{
  ℕ, zero, suc, Bool, true, false, ◌&&◌, ◌||◌, Text, codes, text_eq, is_empty, List, [], ◌∷◌, ◌++◌,
  Option, none, some, ◌==◌, if◌then◌else◌, leb, take, ◌+◌, ◌-◌, ◌*◌, Option-cases,
}
use libre_kde.Base.Decimal.{decimal}
use libre_kde.Kio.Source.{CertificateInfo}
use libre_kde.Kio.Render.{RenderLabels, primary_purpose, default_render_labels}

-- A place marker of `QString::arg` after its `%`: its number, and how many characters it has.
abbrev is_digit : ℕ → Bool
is_digit c = leb b'0' c && leb c b'9'

second_digit : ℕ → Text → ℕ × ℕ
second_digit n [] = (n, 1)
second_digit n (c ∷ s) = if is_digit c then (n * 10 + (c - b'0'), 2) else (n, 1)

marker : Text → Option (ℕ × ℕ)
unfolding second_digit
marker [] = none
marker (c ∷ s) = if is_digit c then some (second_digit (c - b'0') s) else none

-- `%L1` marks a place too, for a localised number.
marker_at : Text → Option (ℕ × ℕ)
unfolding marker
marker_at [] = none
marker_at (c ∷ s) =
    if c == b'L'
    then elim (marker s) [ none ↦ none | some (n, size) ↦ some (n, suc size) ]
    else marker (c ∷ s)

lower : Option (ℕ × ℕ) → Option ℕ → Option ℕ
lower none least = least
lower (some (n, size)) none = some n
lower (some (n, size)) (some m) = if leb n m then some n else some m

-- The lowest number of a place marker in the text.
lowest : Text → Option ℕ
unfolding marker_at lower
lowest [] = none
lowest (c ∷ s) = let rest = lowest s in if c == b'%' then lower (marker_at s) rest else rest

-- How many characters to pass over when marker `k` is replaced here.
marker_size : ℕ → Option (ℕ × ℕ) → Option ℕ
marker_size k none = none
marker_size k (some (n, size)) = if n == k then some size else none

-- The text with marker `k` replaced; `skip` characters of a marker are still to pass over.
replace : ℕ → Text → ℕ → Text → Text
unfolding marker_at marker_size
replace k a skip [] = []
replace k a (suc skip) (c ∷ s) = replace k a skip s
replace k a zero (c ∷ s) = elim (if c == b'%' then marker_size k (marker_at s) else none) [
  | none ↦ c ∷ replace k a 0 s
  | some size ↦ a ++ replace k a size s
]

-- `QString::arg` of one argument: it replaces the lowest-numbered marker that stands in the text.
unfoldable pub arg : Text → Text → Text
unfolding lowest replace
arg template a = elim (lowest template) [ none ↦ template | some k ↦ replace k a 0 template ]

-- `stableCertFolderName`. The call of `arg` with two arguments replaces both markers at once.
unfoldable pub stable_cert_folder_name : CertificateInfo → Text
stable_cert_folder_name cert =
    let purpose = primary_purpose cert.key_usage_bits default_render_labels in
    let short_id = take 8 cert.id in
    if is_empty purpose
    then codes "Certificate (" ++ (short_id ++ b')' ∷ [])
    else purpose ++ (codes " (" ++ (short_id ++ b')' ∷ []))

-- What the translation catalogue gives the worker for the display names.
pub record Catalog : Type 0 where
  pub labels : RenderLabels
  pub certificate_fallback : Text → Text
  pub purpose_and_id : Text → Text → Text
  pub disambiguated : Text → ℕ → Text
  pub service_not_running : Text
  pub service_not_installed : Text
  pub card_was_removed : Text
  pub service_unavailable : Text
  pub could_not_read : Text

unfoldable pub display_cert_folder_name : Catalog → CertificateInfo → Text
display_cert_folder_name i18n cert =
    let purpose = primary_purpose cert.key_usage_bits i18n.labels in
    let short_id = take 8 cert.id in
    if is_empty purpose
    then i18n.certificate_fallback short_id
    else i18n.purpose_and_id purpose short_id

pub record CertFolder : Type 0 where
  pub name : Text
  pub display_name : Text
  pub cert_id : Text

-- The hash `seen`: how often a base name came up.
count : Text → List (Text × ℕ) → ℕ
count base [] = 0
count base ((b, n) ∷ seen) = if text_eq b base then n else count base seen

-- `seen[base]++`.
bump : Text → List (Text × ℕ) → List (Text × ℕ)
bump base [] = (base, 1) ∷ []
bump base ((b, n) ∷ seen) = if text_eq b base then (b, n + 1) ∷ seen else (b, n) ∷ bump base seen

unfoldable pub folder_name : Text → ℕ → Text
folder_name base n = if n == 0 then base else arg (arg (codes "%1 ~%2") base) (decimal (n + 1))

cert_folder : Catalog → CertificateInfo → ℕ → CertFolder
unfolding folder_name
cert_folder i18n c n =
    let display_base = display_cert_folder_name i18n c in
    record {
      name = folder_name (stable_cert_folder_name c) n;
      display_name = if n == 0 then display_base else i18n.disambiguated display_base (n + 1);
      cert_id = c.id;
    }

-- The loop over the certificates.
folders_from : Catalog → List (Text × ℕ) → List CertificateInfo → List CertFolder
unfolding cert_folder count bump
folders_from i18n seen [] = []
folders_from i18n seen (c ∷ certs) =
    let base = stable_cert_folder_name c in
    let skipped = folders_from i18n seen certs in
    let after = folders_from i18n (bump base seen) certs in
    if c.signing_capable then cert_folder i18n c (count base seen) ∷ after else skipped

unfoldable pub build_cert_folders : Catalog → List CertificateInfo → List CertFolder
unfolding folders_from
build_cert_folders i18n certs = folders_from i18n [] certs

-- The search of `resolveCertId`: the id of the folder of that name, and the empty text else.
unfoldable pub folder_cert_id : Text → List CertFolder → Text
folder_cert_id name [] = []
folder_cert_id name (f ∷ folders) =
    if text_eq f.name name then f.cert_id else folder_cert_id name folders
