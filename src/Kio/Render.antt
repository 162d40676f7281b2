-- ===== src/Kio/Render.antt =====
-- components/kio/CardRenderers.h and CardRenderers.cpp: the words of the leaf files, and the
-- purposes of a key.
pub mod Leaves
pub mod Identity
pub mod Export
use libre_kde.Base.{
  ℕ, zero, suc, Bool, true, false, ◌||◌, Text, codes, text_eq, is_empty, starts_with, List, [], ◌∷◌,
  ◌++◌, Option, none, some, ◌==◌, if◌then◌else◌, ltb, get_elem?, take, drop, length, ◌/◌, ◌%◌, ◌+◌,
  ◌^◌,
}
use libre_kde.Kio.Source.{
  CardPresence, Cap, identity_data, pki, emrtd_crypto, pin_management, IdentityFieldView,
  CertificateInfo, DateTime,
}

pub record RenderLabels : Type 0 where
  pub key_usage_names : List Text
  pub purpose_signing : Text
  pub purpose_authentication : Text
  pub trust_not_evaluated : Text
  pub qualified_unknown : Text
  pub label_subject : Text
  pub label_issuer : Text
  pub label_valid_until : Text
  pub label_purpose : Text
  pub label_extended_key_usage : Text
  pub label_signing_capable : Text
  pub label_trust : Text
  pub label_qualified : Text
  pub label_chain : Text
  pub label_reader : Text
  pub label_capabilities : Text
  pub label_pre_read_auth : Text
  pub value_yes : Text
  pub value_no : Text
  pub value_none : Text
  pub value_auth_none : Text
  pub cap_identity : Text
  pub cap_pin_management : Text

abbrev pub key_usage_count : ℕ
key_usage_count = 9

abbrev pub key_usage_english : List Text
key_usage_english =
    codes "Digital Signature"
    ∷ codes "Non-Repudiation"
    ∷ codes "Key Encipherment"
    ∷ codes "Data Encipherment"
    ∷ codes "Key Agreement"
    ∷ codes "Certificate Signing"
    ∷ codes "CRL Signing"
    ∷ codes "Encipher Only"
    ∷ codes "Decipher Only"
    ∷ []

abbrev pub usage_digital_signature : ℕ
usage_digital_signature = 0

abbrev pub usage_non_repudiation : ℕ
usage_non_repudiation = 1

abbrev pub purpose_signing_english : Text
purpose_signing_english = codes "Digital Signature"

abbrev pub purpose_authentication_english : Text
purpose_authentication_english = codes "Authentication"

-- `(mask & (1u << ordinal)) != 0u`, for an ordinal below 32.
unfoldable pub key_usage_bit_set : ℕ → ℕ → Bool
key_usage_bit_set mask ordinal = mask / 2 ^ ordinal % 2 == 1

abbrev english_name : Option Text → Text
english_name none = []
english_name (some name) = name

-- The label where there is one that is not empty, and else the built-in English name.
pick_usage : Option Text → ℕ → Text
pick_usage none ordinal = english_name (get_elem? key_usage_english ordinal)
pick_usage (some name) ordinal =
    if is_empty name then english_name (get_elem? key_usage_english ordinal) else name

unfoldable pub usage_name : ℕ → RenderLabels → Text
unfolding pick_usage
usage_name ordinal labels = pick_usage (get_elem? labels.key_usage_names ordinal) ordinal

unfoldable pub default_render_labels : RenderLabels
default_render_labels = record {
  key_usage_names = key_usage_english;
  purpose_signing = purpose_signing_english;
  purpose_authentication = purpose_authentication_english;
  trust_not_evaluated = codes "not yet evaluated";
  qualified_unknown = codes "unknown";
  label_subject = codes "Subject";
  label_issuer = codes "Issuer";
  label_valid_until = codes "Valid until";
  label_purpose = codes "Purpose";
  label_extended_key_usage = codes "Extended Key Usage";
  label_signing_capable = codes "Signing capable";
  label_trust = codes "Trust";
  label_qualified = codes "Qualified";
  label_chain = codes "Chain";
  label_reader = codes "Reader";
  label_capabilities = codes "Capabilities";
  label_pre_read_auth = codes "Pre-read authentication";
  value_yes = codes "yes";
  value_no = codes "no";
  value_none = codes "none";
  value_auth_none = codes "None";
  cap_identity = codes "Identity";
  cap_pin_management = codes "PIN management";
}

-- The loop over the ordinals from `i`, with `left` of them to go.
purposes_from : ℕ → ℕ → ℕ → RenderLabels → List Text
purposes_from zero i bits labels = []
purposes_from (suc left) i bits labels =
    let rest = purposes_from left (i + 1) bits labels in
    if key_usage_bit_set bits i then usage_name i labels ∷ rest else rest

unfoldable pub key_usage_purposes : ℕ → RenderLabels → List Text
unfolding purposes_from
key_usage_purposes bits labels = purposes_from key_usage_count 0 bits labels

first_usage_from : ℕ → ℕ → ℕ → RenderLabels → Text
first_usage_from zero i bits labels = []
first_usage_from (suc left) i bits labels =
    let rest = first_usage_from left (i + 1) bits labels in
    if key_usage_bit_set bits i then usage_name i labels else rest

abbrev or_english : Text → Text → Text
or_english label english = if is_empty label then english else label

unfoldable pub primary_purpose : ℕ → RenderLabels → Text
unfolding first_usage_from
primary_purpose bits labels =
    if key_usage_bit_set bits usage_non_repudiation
    then or_english labels.purpose_signing purpose_signing_english
    else if key_usage_bit_set bits usage_digital_signature
    then or_english labels.purpose_authentication purpose_authentication_english
    else first_usage_from 7 2 bits labels
