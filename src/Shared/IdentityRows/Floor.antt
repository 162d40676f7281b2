-- ===== src/Shared/IdentityRows/Floor.antt =====
-- shared/agentclient/IdentityRows.cpp: no label and no value is blanked by its wording.
use libre_kde.Base.{
  ◌⊎◌, Bool, true, false, not, ◌&&◌, Text, codes, is_empty, text_eq, [], ◌∷◌, Option, none, some,
  ◌≡◌, refl, sym, ◌∙◌, arith, Bool-cases, inl, inr, pick,
}
use libre_kde.Shared.IdentityRows.Tables.{
  Phrase, label_table, check_reason_table, status_tokens, unknown_date,
}
use libre_kde.Shared.IdentityRows.{
  IdentityRow, IdentityLibrary, Words, spoken, find, or_else, spoken_or, localized_field_label,
  localized_status_token, localized_auth_method, localized_check_reason, plain_value,
  localized_field_value,
}

-- The catalogue has a text for every message.
abbrev pub IsHeard : Words → Type 0
IsHeard words = (context message : Text) → is_empty (words context message) ≡ false

-- A date is not the empty text.
abbrev pub HasDates : {Field : Type 0} → IdentityLibrary Field → Type 0
HasDates library =
    (value date : Text) → library.normalized_card_date value ≡ some date → is_empty date ≡ false

spoken_or-heard :
    (words : Words) (phrase : Option Phrase) (other : Text)
    → IsHeard words
    → is_empty other ≡ false
    → is_empty (spoken_or words phrase other) ≡ false
spoken_or-heard words none other heard h = h
spoken_or-heard words (some p) other heard h = heard p.context p.message

-- The explanation of a check that ships a reason is never blank.
pub localized_check_reason-heard :
    (words : Words) (reason detail : Text)
    → IsHeard words
    → is_empty reason ≡ false
    → is_empty (localized_check_reason words reason detail) ≡ false
unfolding localized_check_reason
localized_check_reason-heard words reason detail heard h =
    spoken_or-heard words (find reason check_reason_table) (or_else detail reason) heard
      (ground arith)

label-heard :
    (words : Words) (row : IdentityRow)
    → IsHeard words
    → is_empty row.field_key ≡ false
    → is_empty (localized_field_label words row) ≡ false
unfolding localized_field_label
label-heard words row heard h =
    spoken_or-heard words (find row.label_key label_table)
      (or_else row.label_fallback row.field_key) heard (ground arith)

or_else-filled :
    (first second : Text) → is_empty second ≡ false → is_empty (or_else first second) ≡ false
or_else-filled [] second h = h
or_else-filled (c ∷ first) second h = refl

filled : (a b : Bool) → (a && not b) ≡ true → b ≡ false
filled a b h = ground arith

module _ {Field : Type 0} (library : IdentityLibrary Field) (words : Words) (heard : IsHeard words)
    (dates : HasDates library) where
  date-heard :
      (value : Text) (date : Option Text)
      → library.normalized_card_date value ≡ date
      → is_empty (elim date [ some d ↦ d | none ↦ spoken words unknown_date ]) ≡ false
  date-heard value none e = heard unknown_date.context unknown_date.message
  date-heard value (some d) e = dates value d e

  plain_value-heard :
      (row : IdentityRow) → is_empty (plain_value library words row) ≡ is_empty row.value
  unfolding plain_value localized_auth_method
  plain_value-heard row =
      let method = text_eq row.label_key (codes "field.auth_method") in
      let dated = text_eq row.label_key (codes "field.address_date") in
      pick (λ (t : Text). is_empty t ≡ is_empty row.value) (method && not (is_empty row.value))
        (λ yes.
          let full = filled method (is_empty row.value) yes in
          or_else-filled (localized_auth_method words row.value) row.value full ∙ sym full)
        (λ no.
          pick (λ (t : Text). is_empty t ≡ is_empty row.value) (dated && not (is_empty row.value))
            (λ yes.
              date-heard row.value (library.normalized_card_date row.value) refl
              ∙ sym (filled dated (is_empty row.value) yes))
            (λ no. refl))

  token_of : (value : Text) → is_empty value ≡ true → localized_status_token words value ≡ []
  unfolding localized_status_token find status_tokens text_eq
  token_of [] e = refl
  token_of (c ∷ value) e = absurd (ground arith)

  pub value-heard :
      (row : IdentityRow) → is_empty (localized_field_value library words row) ≡ is_empty row.value
  unfolding localized_field_value
  value-heard row =
      let named = localized_status_token words row.value in
      pick (λ (t : Text). is_empty t ≡ is_empty row.value)
        (library.is_security_verdict_group row.group_key && not (is_empty named))
        (λ yes.
          let said =
            filled (library.is_security_verdict_group row.group_key) (is_empty named) yes in
          elim (Bool-cases (is_empty row.value)) [
            | inl blank ↦ let none = token_of row.value blank in absurd (cc)
            | inr full ↦ said ∙ sym full
          ])
        (λ no. plain_value-heard row)

  -- With a catalogue that has a text for every message and dates that are not empty, the worded value of
  -- a row is empty exactly where its value is, and a row without a label is one without a key.
  pub localized_field-heard :
      (row : IdentityRow)
      → (is_empty (localized_field_value library words row) ≡ is_empty row.value)
        × ((is_empty row.field_key ≡ true) ⊎ (is_empty (localized_field_label words row) ≡ false))
  localized_field-heard row = (
    value-heard row,
    elim (Bool-cases (is_empty row.field_key)) [
      | inl keyless ↦ inl keyless
      | inr keyed ↦ inr (label-heard words row heard keyed)
    ],
  )
