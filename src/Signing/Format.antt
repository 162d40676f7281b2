-- ===== src/Signing/Format.antt =====
-- shared/signing/MimeFormatMap.cpp and .h, and the typed options that SignJob.cpp makes of a choice.
use libre_kde.Base.{
  ℕ, Bool, false, ◌||◌, Text, codes, is_empty, text_eq, text_eq_iff, Option, none, some,
  if◌then◌else◌, ◌≡◌, ◌≢◌, ◌↔◌, ◌⊎◌, arith, pick, ◌∷◌, [],
}

pub record SignChoice : Type 0 where
  pub format : Text
  pub packaging : Text

abbrev pub pades : Text
pades = codes "pades"

abbrev pub cades : Text
cades = codes "cades"

abbrev pub xades : Text
xades = codes "xades"

abbrev pub jades : Text
jades = codes "jades"

abbrev pub asice : Text
asice = codes "asice"

unfoldable pub enveloped : SignChoice → Bool
enveloped choice = text_eq choice.packaging (codes "enveloped")

abbrev detached : Text → SignChoice
detached format = record { format = format; packaging = codes "detached" }

abbrev pades_choice : SignChoice
pades_choice = record { format = pades; packaging = codes "enveloped" }

unfoldable pub resolve : Text → SignChoice
resolve mime =
    if text_eq mime (codes "application/pdf")
    then pades_choice
    else if text_eq mime (codes "application/xml") || text_eq mime (codes "text/xml")
    then detached xades
    else if text_eq mime (codes "application/json")
    then detached jades
    else if text_eq mime (codes "application/vnd.etsi.asic-e+zip")
    then detached asice
    else detached cades

unfoldable pub resolve_format : Text → SignChoice
resolve_format format = if text_eq format pades then pades_choice else detached format

-- The choice that `SignJob::start` settles on, of a type and an override that may be empty.
unfoldable pub choice_of : Text → Text → SignChoice
unfolding resolve resolve_format
choice_of mime override = if is_empty override then resolve mime else resolve_format override

pub data SignatureFormat : Type 0 where
  pades_format cades_format xades_format jades_format asice_format : SignatureFormat

pub data Packaging : Type 0 where
  enveloped_packaging detached_packaging : Packaging

-- `Auto`, and the client library's other levels, each under a number of its own.
pub data SignatureLevel : Type 0 where
  auto_level : SignatureLevel
  other_level : ℕ → SignatureLevel

-- The client library's options, with the members that this program sets.
pub record SignOptions : Type 0 where
  pub format : SignatureFormat
  pub packaging : Packaging
  pub level : SignatureLevel

signature_format : Text → Option SignatureFormat
signature_format format =
    if text_eq format pades
    then some pades_format
    else if text_eq format cades
    then some cades_format
    else if text_eq format xades
    then some xades_format
    else if text_eq format jades
    then some jades_format
    else if text_eq format asice
    then some asice_format
    else none

options_for : SignChoice → Option SignatureFormat → Option SignOptions
unfolding enveloped
options_for choice none = none
options_for choice (some format) = some (record {
  format = format;
  packaging = if enveloped choice then enveloped_packaging else detached_packaging;
  level = auto_level;
})

-- `toSignOptions`.
unfoldable pub to_sign_options : SignChoice → Option SignOptions
unfolding signature_format options_for
to_sign_options choice = options_for choice (signature_format choice.format)

-- The formats that an override may name.
abbrev pub IsVocabulary : Text → Type 0
IsVocabulary format =
    (format ≡ pades) ⊎ (format ≡ cades) ⊎ (format ≡ xades) ⊎ (format ≡ jades) ⊎ (format ≡ asice)

abbrev IsPaired : Option SignOptions → Type 0
IsPaired o =
    (options : SignOptions)
    → o ≡ some options
    → (options.level ≡ auto_level)
      × ((options.packaging ≡ enveloped_packaging) ↔ (options.format ≡ pades_format))

-- A choice whose options exist, and belong together.
abbrev IsKnown : SignChoice → Type 0
IsKnown choice = (to_sign_options choice ≢ none) × IsPaired (to_sign_options choice)

resolve-IsKnown : (mime : Text) → IsKnown (resolve mime)
unfolding resolve to_sign_options text_eq
resolve-IsKnown mime =
    pick IsKnown (text_eq mime (codes "application/pdf")) (λ e. ground arith)
      (λ e.
        pick IsKnown (text_eq mime (codes "application/xml") || text_eq mime (codes "text/xml"))
          (λ e. ground arith)
          (λ e.
            pick IsKnown (text_eq mime (codes "application/json")) (λ e. ground arith)
              (λ e.
                pick IsKnown (text_eq mime (codes "application/vnd.etsi.asic-e+zip"))
                  (λ e. ground arith) (λ e. ground arith))))

resolve_format-IsPaired : (format : Text) → IsPaired (to_sign_options (resolve_format format))
unfolding resolve_format to_sign_options text_eq
resolve_format-IsPaired format =
    pick (λ (c : SignChoice). IsPaired (to_sign_options c)) (text_eq format pades)
      (λ e. ground arith) (λ e. ground arith)

resolve_format-refused :
    (format : Text) → (to_sign_options (resolve_format format) ≡ none) ↔ (¬ (IsVocabulary format))
unfolding resolve_format to_sign_options
resolve_format-refused format =
    pick (λ (c : SignChoice). (to_sign_options c ≡ none) ↔ (¬ (IsVocabulary format)))
      (text_eq format pades) (λ e. ground (arith, text_eq_iff format pades))
      (λ e. ground (
        arith,
        text_eq_iff format pades,
        text_eq_iff format cades,
        text_eq_iff format xades,
        text_eq_iff format jades,
        text_eq_iff format asice,
      ))

-- Whatever the type and the override are, options that are asked of the agent name no level of their own,
-- so that the level is left to the agent, and their packaging is the enveloped one just for PAdES.
pub choice_of-IsConsistent :
    (mime override : Text) (options : SignOptions)
    → to_sign_options (choice_of mime override) ≡ some options
    → (options.level ≡ auto_level)
      × ((options.packaging ≡ enveloped_packaging) ↔ (options.format ≡ pades_format))
unfolding choice_of
choice_of-IsConsistent mime override =
    pick (λ (c : SignChoice). IsPaired (to_sign_options c)) (is_empty override)
      (λ e. (resolve-IsKnown mime).1) (λ e. resolve_format-IsPaired override)

-- A choice has no options just where there is an override and it names none of the five formats: the
-- type of a file alone is never refused.
pub choice_of-refused :
    (mime override : Text)
    → (to_sign_options (choice_of mime override) ≡ none)
      ↔ ((is_empty override ≡ false) × ¬ (IsVocabulary override))
unfolding choice_of
choice_of-refused mime [] = ground (arith, (resolve-IsKnown mime).0)
choice_of-refused mime (c ∷ s) = ground (arith, resolve_format-refused (c ∷ s))
