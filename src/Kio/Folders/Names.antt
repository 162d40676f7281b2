-- ===== src/Kio/Folders/Names.antt =====
-- components/kio/CardWorkerLogic.cpp, `stableCertFolderName` and the index suffix: the shape of the
-- folder names.
use mathlib.Core.List.{append-nil, append_assoc}
use libre_kde.Base.{
  ℕ, suc, ◌≡◌, refl, ap, sym, ◌∙◌, ◌≢◌, inl, inr, Text, codes, is_empty, [], ◌∷◌, ◌++◌, All,
  All-append, Bool-cases, Option-cases, arith, ==_iff, take, ◌+◌,
}
use libre_kde.Base.Decimal.{decimal}
use libre_kde.Kio.Source.{CertificateInfo}
use libre_kde.Kio.Render.{primary_purpose, default_render_labels, usage_name}
use libre_kde.Kio.Folders.{lowest, replace, arg, stable_cert_folder_name, folder_name}

-- No place marker of `QString::arg` begins in the text.
abbrev pub HasNoPercent : Text → Type 0
HasNoPercent = All λ c. c ≢ b'%'

lowest-append : (s t : Text) → HasNoPercent s → lowest (s ++ t) ≡ lowest t
unfolding lowest
lowest-append [] t h = refl
lowest-append (c ∷ s) t h = ground (arith, ==_iff c b'%', h.0, lowest-append s t h.1)

replace-append :
    (k : ℕ) (a s t : Text) → HasNoPercent s → replace k a 0 (s ++ t) ≡ s ++ replace k a 0 t
unfolding replace
replace-append k a [] t h = refl
replace-append k a (c ∷ s) t h = ground (arith, ==_iff c b'%', h.0, replace-append k a s t h.1)

-- The text of a later folder of the same base name.
abbrev pub suffixed : Text → ℕ → Text
suffixed base n = base ++ (codes " ~" ++ decimal n)

first_arg : (base : Text) → arg (codes "%1 ~%2") base ≡ base ++ codes " ~%2"
unfolding arg
first_arg base = refl

-- What holds no place marker stands as it is.
pub arg-append : (s t a : Text) → HasNoPercent s → arg (s ++ t) a ≡ s ++ arg t a
unfolding arg
arg-append s t a h = elim (Option-cases (lowest t)) [
  | inl e ↦ rw (lowest-append s t h, e, arg) refl
  | inr (k, e) ↦ rw (lowest-append s t h, e, arg) (replace-append k a s t h)
]

second_arg :
    (base a : Text) → HasNoPercent base → arg (base ++ codes " ~%2") a ≡ base ++ (codes " ~" ++ a)
unfolding arg
second_arg base a h =
    arg-append base (codes " ~%2") a h ∙ ap (λ (t : Text). base ++ (codes " ~" ++ t)) (append-nil a)

pub folder_name-suc :
    (base : Text) (n : ℕ) → HasNoPercent base → folder_name base (suc n) ≡ suffixed base (suc n + 1)
unfolding folder_name
folder_name-suc base n h = ground (arith, first_arg base, second_arg base (decimal (suc n + 1)) h)

primary_purpose-HasNoPercent :
    (bits : ℕ) → HasNoPercent (primary_purpose bits default_render_labels)
unfolding primary_purpose default_render_labels usage_name
primary_purpose-HasNoPercent bits = ground arith

-- A base name of a folder.
pub record IsBase (base : Text) : Type 0 where
  pub plain : HasNoPercent base
  pub stem : Text
  pub closed : base ≡ stem ++ b')' ∷ []

-- The first eight characters of the certificate's id are free of place markers.
abbrev pub HasPlainId : CertificateInfo → Type 0
HasPlainId c = HasNoPercent (take 8 c.id)

pub stable_cert_folder_name-IsBase :
    (c : CertificateInfo) → HasPlainId c → IsBase (stable_cert_folder_name c)
unfolding stable_cert_folder_name
stable_cert_folder_name-IsBase c h =
    let purpose = primary_purpose c.key_usage_bits default_render_labels in
    elim (Bool-cases (is_empty purpose)) [
      | inl e ↦ rw e (record {
        plain =
            All-append (λ c. c ≢ b'%') (codes "Certificate (") _ (omega arith)
              (All-append (λ c. c ≢ b'%') (take 8 c.id) _ h (omega arith));
        stem = codes "Certificate (" ++ take 8 c.id;
        closed = sym (append_assoc (codes "Certificate (") (take 8 c.id) _);
      })
      | inr e ↦ rw e (record {
        plain =
            All-append (λ c. c ≢ b'%') purpose _ (primary_purpose-HasNoPercent c.key_usage_bits)
              (All-append (λ c. c ≢ b'%') (codes " (") _ (omega arith)
                (All-append (λ c. c ≢ b'%') (take 8 c.id) _ h (omega arith)));
        stem = purpose ++ (codes " (" ++ take 8 c.id);
        closed = simp append_assoc;
      })
    ]
