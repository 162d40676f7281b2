-- ===== src/Shared/IdentityRows/Tables.antt =====
-- shared/agentclient/IdentityRows.cpp: the frozen keys, with the context and the message of each in the
-- catalogue.
use libre_kde.Base.{Text, codes, List, [], ◌∷◌}

-- A message under its context.
pub record Phrase : Type 0 where
  pub context : Text
  pub message : Text

abbrev phrase : Text → Text → Phrase
phrase context message = record { context = context; message = message }

abbrev field : Text → Phrase
field = phrase (codes "@item:intable identity field")

abbrev group_title : Text → Phrase
group_title = phrase (codes "@title:group identity fields")

abbrev reason : Text → Phrase
reason = phrase (codes "@item:intable why a security check came out as it did")

abbrev outcome : Text → Phrase
outcome = phrase (codes "@item:intable security check outcome")

abbrev method : Text → Phrase
method = phrase (codes "@item:intable eMRTD access-control method")

-- The labels of the frozen label keys.
unfoldable pub label_table : List (Text × Phrase)
label_table =
    (codes "field.full_name", field (codes "Full Name"))
    ∷ (codes "field.surname", field (codes "Surname"))
    ∷ (codes "field.family_name", field (codes "Family Name"))
    ∷ (codes "field.family_name_latin", field (codes "Family Name (Latin)"))
    ∷ (codes "field.given_name", field (codes "Given Name"))
    ∷ (codes "field.given_names", field (codes "Given Names"))
    ∷ (codes "field.given_name_latin", field (codes "Given Name (Latin)"))
    ∷ (codes "field.other_names", field (codes "Other Names"))
    ∷ (codes "field.parent_given_name", field (codes "Parent Given Name"))
    ∷ (codes "field.parent_name", field (codes "Parent Name"))
    ∷ (codes "field.parent_name_latin", field (codes "Parent Name (Latin)"))
    ∷ (codes "field.sex", field (codes "Sex"))
    ∷ (codes "field.gender", field (codes "Gender"))
    ∷ (codes "field.title", field (codes "Title"))
    ∷ (codes "field.profession", field (codes "Profession"))
    ∷ (codes "field.nationality", field (codes "Nationality"))
    ∷ (codes "field.status_of_foreigner", field (codes "Status of Foreigner"))
    ∷ (codes "field.date_of_birth", field (codes "Date of Birth"))
    ∷ (codes "field.place_of_birth", field (codes "Place of Birth"))
    ∷ (codes "field.community_of_birth", field (codes "Community of Birth"))
    ∷ (codes "field.state_of_birth", field (codes "State of Birth"))
    ∷ (codes "field.personal_number", field (codes "Personal Number"))
    ∷ (
      codes "field.insurant_number",
      phrase (codes "@item:intable identity field (health insurant number)")
          (codes "Insurant Number"),
    )
    ∷ (codes "field.address", field (codes "Address"))
    ∷ (codes "field.state", phrase (codes "@item:intable identity field (address)") (codes "State"))
    ∷ (codes "field.country", field (codes "Country"))
    ∷ (
      codes "field.community",
      phrase (codes "@item:intable identity field (address)") (codes "Community"),
    )
    ∷ (codes "field.municipality", field (codes "Municipality"))
    ∷ (codes "field.place", phrase (codes "@item:intable identity field (address)") (codes "Place"))
    ∷ (codes "field.street", field (codes "Street"))
    ∷ (codes "field.house_number", field (codes "House Number"))
    ∷ (codes "field.house_letter", field (codes "House Letter"))
    ∷ (
      codes "field.address_number",
      phrase (codes "@item:intable identity field (house number)") (codes "Number"),
    )
    ∷ (codes "field.entrance", field (codes "Entrance"))
    ∷ (codes "field.floor", field (codes "Floor"))
    ∷ (codes "field.apartment", field (codes "Apartment"))
    ∷ (codes "field.apartment_number", field (codes "Apartment Number"))
    ∷ (codes "field.telephone", field (codes "Telephone"))
    ∷ (
      codes "field.address_date",
      phrase (codes "@item:intable identity field (when the address last changed)")
          (codes "Address Date"),
    )
    ∷ (
      codes "field.address_label",
      phrase (codes "@item:intable identity field (the address as one line)") (codes "Address"),
    )
    ∷ (codes "field.document_number", field (codes "Document Number"))
    ∷ (codes "field.document_code", field (codes "Document Code"))
    ∷ (codes "field.document_type", field (codes "Document Type"))
    ∷ (codes "field.document_serial_number", field (codes "Serial Number"))
    ∷ (
      codes "field.document_serial",
      phrase (codes "@item:intable identity field (annex document number)")
          (codes "Document Number"),
    )
    ∷ (codes "field.doc_reg_no", field (codes "Registration Number"))
    ∷ (codes "field.issuing_state", field (codes "Issuing State"))
    ∷ (codes "field.issuing_authority", field (codes "Issuing Authority"))
    ∷ (codes "field.issuing_date", field (codes "Issuing Date"))
    ∷ (codes "field.date_of_issue", field (codes "Date of Issue"))
    ∷ (codes "field.date_of_expiry", field (codes "Date of Expiry"))
    ∷ (codes "field.expiry_date", field (codes "Expiry Date"))
    ∷ (codes "field.valid_until", field (codes "Valid Until"))
    ∷ (codes "field.endorsements", field (codes "Endorsements"))
    ∷ (codes "field.custody_info", field (codes "Custody Information"))
    ∷ (codes "field.insurer_name", field (codes "Insurer"))
    ∷ (codes "field.insurer_id", field (codes "Insurer ID"))
    ∷ (codes "field.card_id", field (codes "Card ID"))
    ∷ (
      codes "field.insurance_basis_rzzo",
      phrase (codes "@item:intable identity field (insurance basis)") (codes "Basis"),
    )
    ∷ (codes "field.insurance_description", field (codes "Description"))
    ∷ (codes "field.insurance_start_date", field (codes "Start Date"))
    ∷ (codes "field.data_groups", field (codes "Data Groups"))
    ∷ (codes "field.auth_method", field (codes "Authentication Method"))
    ∷ (codes "field.overall_integrity", field (codes "Data Integrity"))
    ∷ (codes "field.overall_authenticity", field (codes "Data Authenticity"))
    ∷ (codes "field.overall_genuineness", field (codes "Chip Genuineness"))
    ∷ (
      codes "field.annex_integrity",
      phrase (codes "@item:intable identity field (annex)") (codes "Data Integrity"),
    )
    ∷ (
      codes "field.annex_authenticity",
      phrase (codes "@item:intable identity field (annex)") (codes "Data Authenticity"),
    )
    ∷ (
      codes "field.card_type",
      phrase (codes "@item:intable identity field (card generation)") (codes "Card Type"),
    )
    ∷ (
      codes "field.label",
      phrase (codes "@item:intable identity field (token label)") (codes "Label"),
    )
    ∷ (codes "field.serial_number", field (codes "Serial Number"))
    ∷ (codes "field.manufacturer", field (codes "Manufacturer"))
    ∷ []

-- The headings of the frozen group keys.
unfoldable pub group_label_table : List (Text × Phrase)
group_label_table =
    (codes "personal", group_title (codes "Personal Data"))
    ∷ (codes "document", group_title (codes "Document"))
    ∷ (codes "document_extra", group_title (codes "Issuing Information"))
    ∷ (codes "additional", group_title (codes "Additional Data"))
    ∷ (codes "national", group_title (codes "National Data"))
    ∷ (codes "contacts", group_title (codes "Contacts"))
    ∷ (codes "security_status", group_title (codes "Travel Document Verification"))
    ∷ (codes "presence", group_title (codes "Authentication"))
    ∷ []

-- What a reader is told of the frozen reasons of a check.
unfoldable pub check_reason_table : List (Text × Phrase)
check_reason_table =
    (
      codes "csca.not-configured",
      reason (
          codes
            "No CSCA certificates have been imported. Import an ICAO master list in LibreCelik, under Settings → Trust, so this document's signer can be checked."),
    )
    ∷ (
      codes "csca.anchors-unreadable",
      reason (
          codes
            "The CSCA trust store could not be read. Check that its directory exists and that its permissions allow reading."),
    )
    ∷ (
      codes "csca.anchors-undecodable",
      reason (
          codes
            "The CSCA trust store holds no usable certificate. Import an ICAO master list again in LibreCelik, under Settings → Trust."),
    )
    ∷ (
      codes "csca.no-anchor-for-issuer",
      reason (
          codes
            "No imported CSCA certificate belongs to this document's issuer. In LibreCelik, under Settings → Trust, import a master list that covers the issuing country."),
    )
    ∷ (
      codes "csca.chain-failed",
      reason (
          codes
            "This document's signer does not chain to any imported CSCA certificate. Do not rely on this document; check it with the issuing authority."),
    )
    ∷ []

-- The outcomes of a check that this build names.
unfoldable pub status_tokens : List (Text × Phrase)
status_tokens =
    (codes "PASSED", outcome (codes "Passed"))
    ∷ (codes "FAILED", outcome (codes "Failed"))
    ∷ (codes "NOT_PERFORMED", outcome (codes "Not performed"))
    ∷ (codes "NOT_SUPPORTED", outcome (codes "Not supported"))
    ∷ (codes "SKIPPED", outcome (codes "Skipped"))
    ∷ []

-- The access-control methods that this build names.
unfoldable pub auth_methods : List (Text × Phrase)
auth_methods =
    (codes "BAC", method (codes "BAC"))
    ∷ (codes "PACE (CAN)", method (codes "PACE (CAN)"))
    ∷ (codes "PACE (MRZ)", method (codes "PACE (MRZ)"))
    ∷ (codes "Chip Authentication", method (codes "Chip Authentication"))
    ∷ (codes "None (plain read)", method (codes "None (plain read)"))
    ∷ []

abbrev pub additional_personal : Phrase
additional_personal = group_title (codes "Additional Personal Data")

abbrev pub additional_verification : Phrase
additional_verification = group_title (codes "Additional Data Verification")

abbrev pub unknown_date : Phrase
unknown_date =
    phrase (codes "@item:intable identity field value (card carries no date)") (codes "Unknown")
