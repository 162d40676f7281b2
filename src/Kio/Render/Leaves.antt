-- ===== src/Kio/Render/Leaves.antt =====
-- components/kio/CardRenderers.cpp: the leaf files, written out.
use libre_kde.Base.{
  ℕ, zero, suc, Bool, ◌||◌, Text, codes, is_empty, starts_with, List, [], ◌∷◌, ◌++◌, if◌then◌else◌,
  ltb, take, drop, length, ◌+◌,
}
use libre_kde.Base.Groups.{rows_of, value_or, collect_rows}
use libre_kde.Kio.Source.{
  CardPresence, Cap, identity_data, pki, emrtd_crypto, pin_management, IdentityFieldView,
  CertificateInfo, DateTime,
}
use libre_kde.Kio.Render.{RenderLabels, key_usage_purposes}

-- `QStringLiteral("%1: %2\n").arg(key, value)`.
abbrev pub line : Text → Text → Text
line key value = key ++ (codes ": " ++ (value ++ b'\n' ∷ []))

-- `QStringList::join`.
unfoldable pub join : Text → List Text → Text
join sep [] = []
join sep (part ∷ []) = part
join sep (part ∷ next ∷ parts) = part ++ (sep ++ join sep (next ∷ parts))

abbrev pub identity_row : IdentityFieldView → Text
identity_row f = line (if is_empty f.label_fallback then f.field_key else f.label_fallback) f.value

-- The field's group, as `collect_rows` takes it.
abbrev pub group_of : IdentityFieldView → Text
group_of f = f.group

abbrev pub group_header : Text → Text
group_header group = b'[' ∷ (group ++ codes "]\n")

-- The second loop of `renderIdentityTxt`; the first is `collect_rows`.
unfoldable pub emit_groups : List Text → List (Text × Text) → Text → Text
emit_groups [] table out = out
emit_groups (group ∷ groups) table out = emit_groups groups table (
    (if is_empty out then out else out ++ b'\n' ∷ [])
    ++ (group_header group ++ value_or (rows_of group table) []))

unfoldable pub render_identity_txt : List IdentityFieldView → Text
render_identity_txt fields =
    let (group_order, table) = collect_rows group_of identity_row fields [] [] in
    emit_groups group_order table []

-- A date with no zone keeps its wall clock; any other is converted to UTC.
abbrev pub valid_until_stamp : DateTime → Text
valid_until_stamp d = if d.is_local_time then d.iso else d.utc_iso

unfoldable pub render_cert_info_txt : CertificateInfo → RenderLabels → Text
render_cert_info_txt cert labels =
    line labels.label_subject cert.subject
    ++ (line labels.label_issuer cert.issuer
        ++ ((if cert.not_after.is_valid
              then line labels.label_valid_until (valid_until_stamp cert.not_after)
              else [])
            ++ (line labels.label_purpose
                  (join (codes ", ") (key_usage_purposes cert.key_usage_bits labels))
                ++ ((if is_empty cert.extended_key_usage_oids
                      then []
                      else line labels.label_extended_key_usage
                          (join (codes ", ") cert.extended_key_usage_oids))
                    ++ (line labels.label_signing_capable
                          (if cert.signing_capable then labels.value_yes else labels.value_no)
                        ++ (line labels.label_trust labels.trust_not_evaluated
                            ++ (line labels.label_qualified labels.qualified_unknown
                                ++ (if is_empty cert.chain_subject_cns
                                    then []
                                    else line labels.label_chain
                                        (join (codes " -> ") cert.chain_subject_cns)))))))))

capability_names : (Cap → Bool) → RenderLabels → List Text
capability_names caps labels =
    (if caps pki then codes "PKI" ∷ [] else [])
    ++ ((if caps identity_data then labels.cap_identity ∷ [] else [])
        ++ ((if caps emrtd_crypto then codes "eMRTD" ∷ [] else [])
            ++ (if caps pin_management then labels.cap_pin_management ∷ [] else [])))

unfoldable pub render_info_txt : CardPresence → RenderLabels → Text
unfolding capability_names
render_info_txt presence labels =
    let caps = capability_names presence.capabilities labels in
    line labels.label_reader
      (if is_empty presence.reader_label then presence.reader_name else presence.reader_label)
    ++ (line labels.label_capabilities
          (if is_empty caps then labels.value_none else join (codes ", ") caps)
        ++ line labels.label_pre_read_auth (
            if is_empty presence.pre_read_auth
            then labels.value_auth_none
            else presence.pre_read_auth))

abbrev pub pem_begin : Text
pem_begin = codes "-----BEGIN CERTIFICATE-----\n"

abbrev pub pem_end : Text
pem_end = codes "-----END CERTIFICATE-----\n"

-- The loop from position `i` of the base64 text, with fuel.
unfoldable pub wrap_from : ℕ → ℕ → List ℕ → List ℕ
wrap_from zero i b64 = []
wrap_from (suc fuel) i b64 =
    let rest = wrap_from fuel (i + 64) b64 in
    if ltb i (length b64) then take 64 (drop i b64) ++ b'\n' ∷ rest else []

-- `derToPem`. The base64 text is the library's; as many rounds as it has characters are enough.
unfoldable pub der_to_pem : (List ℕ → List ℕ) → List ℕ → List ℕ
der_to_pem to_base64 der =
    let b64 = to_base64 der in pem_begin ++ (wrap_from (length b64) 0 b64 ++ pem_end)

unfoldable pub sniff_image_mime : List ℕ → Text
sniff_image_mime bytes =
    if starts_with bytes (0 ∷ 0 ∷ 0 ∷ 0x0C ∷ 0x6A ∷ 0x50 ∷ 0x20 ∷ 0x20 ∷ 0x0D ∷ 0x0A ∷ [])
      || starts_with bytes (0xFF ∷ 0x4F ∷ 0xFF ∷ 0x51 ∷ [])
    then codes "image/jp2"
    else if starts_with bytes (0xFF ∷ 0xD8 ∷ 0xFF ∷ [])
    then codes "image/jpeg"
    else if starts_with bytes (0x89 ∷ 0x50 ∷ 0x4E ∷ 0x47 ∷ [])
    then codes "image/png"
    else codes "application/octet-stream"
