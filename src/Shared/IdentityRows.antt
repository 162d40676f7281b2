-- ===== src/Shared/IdentityRows.antt =====
-- shared/agentclient/IdentityRows.cpp: the rows of an identity read, and their words. The library gives the
-- checks of a group, its rows as they come, and the date rule; the catalogue is a function of a context
-- and a message.
pub mod Tables
pub mod Floor
pub mod Checks
pub mod Samples
mod Tests
use libre_kde.Base.{
  ℕ, Bool, true, false, not, ◌&&◌, ◌||◌, Text, codes, is_empty, text_eq, starts_with, ends_with,
  List, [], ◌∷◌, ◌++◌, Option, none, some, if◌then◌else◌, ◌==◌, map,
}
use libre_kde.Shared.IdentityRows.Tables.{
  Phrase, label_table, group_label_table, check_reason_table, status_tokens, auth_methods,
  additional_personal, additional_verification, unknown_date,
}

pub record IdentityRow : Type 0 where
  pub group_key : Text
  pub field_key : Text
  pub label_key : Text
  pub label_fallback : Text
  pub value : Text

-- One security check, as the library separates it; `category` and `error` are not read.
pub record SecurityCheckEntry : Type 0 where
  pub ordinal : Text
  pub id : Text
  pub label : Text
  pub status : Text
  pub reason : Text
  pub detail : Text

-- The fields of a group are the library's.
pub record FieldGroup (Field : Type 0) : Type 0 where
  pub key : Text
  pub fields : List Field

pub record SecurityVerdict (Field : Type 0) : Type 0 where
  pub checks : List SecurityCheckEntry
  pub aggregates : List Field

-- The client library's part.
pub record IdentityLibrary (Field : Type 0) : Type 0 where
  pub separate_security_checks : FieldGroup Field → SecurityVerdict Field
  pub flatten_identity_fields : List (FieldGroup Field) → List IdentityRow
  pub is_security_verdict_group : Text → Bool
  pub normalized_card_date : Text → Option Text
  pub field_order_for_group : Text → List Text

-- The catalogue's text of a message under a context.
abbrev pub Words : Type 0
Words = Text → Text → Text

abbrev pub spoken : Words → Phrase → Text
spoken words p = words p.context p.message

unfoldable pub find : Text → List (Text × Phrase) → Option Phrase
find key [] = none
find key ((k, p) ∷ table) = if text_eq k key then some p else find key table

abbrev pub or_else : Text → Text → Text
or_else first second = if is_empty first then second else first

-- The phrase in words, or the other text where there is no phrase.
abbrev pub spoken_or : Words → Option Phrase → Text → Text
spoken_or words none other = other
spoken_or words (some p) other = spoken words p

unfoldable pub annex_group_heading : Words → Text → Text
annex_group_heading words group_key =
    if not (starts_with group_key (codes "annex."))
    then []
    else if ends_with group_key (codes ".personal")
    then spoken words additional_personal
    else if ends_with group_key (codes ".security")
    then spoken words additional_verification
    else []

unfoldable pub localized_field_label : Words → IdentityRow → Text
localized_field_label words row =
    spoken_or words (find row.label_key label_table) (or_else row.label_fallback row.field_key)

unfoldable pub is_hidden_identity_row : IdentityRow → Bool
is_hidden_identity_row row =
    text_eq row.label_key (codes "field.card_verification")
    || text_eq row.label_key (codes "field.fixed_verification")
    || text_eq row.label_key (codes "field.variable_verification")

-- The text before the first blank, and the text from it on.
unfoldable pub head_of : Text → Text
head_of [] = []
head_of (c ∷ s) = let rest = c ∷ head_of s in if c == b' ' then [] else rest

unfoldable pub tail_of : Text → Text
tail_of [] = []
tail_of (c ∷ s) = let rest = tail_of s in if c == b' ' then c ∷ s else rest

abbrev pub followed_by : Words → Option Phrase → Text → Text
followed_by words none rest = []
followed_by words (some p) rest = spoken words p ++ rest

unfoldable pub localized_status_token : Words → Text → Text
unfolding head_of tail_of
localized_status_token words value =
    followed_by words (find (head_of value) status_tokens) (tail_of value)

unfoldable pub localized_auth_method : Words → Text → Text
localized_auth_method words value = spoken_or words (find value auth_methods) []

unfoldable pub localized_check_reason : Words → Text → Text → Text
localized_check_reason words reason_key detail =
    spoken_or words (find reason_key check_reason_table) (or_else detail reason_key)

-- What is said of a check beside its status.
unfoldable pub explanation_of : Words → SecurityCheckEntry → Text
unfolding localized_check_reason
explanation_of words check =
    if is_empty check.reason
    then check.detail
    else localized_check_reason words check.reason check.detail

abbrev pub in_brackets : Text → Text
in_brackets explanation =
    if is_empty explanation then [] else codes " (" ++ (explanation ++ b')' ∷ [])

unfoldable pub check_key : SecurityCheckEntry → Text
check_key check = if is_empty check.id then codes "check_" ++ check.ordinal else check.id

unfoldable pub check_row : Words → Text → SecurityCheckEntry → IdentityRow
unfolding explanation_of check_key
check_row words group_key check = record {
  group_key = group_key;
  field_key = check_key check;
  label_key = [];
  label_fallback = or_else check.label (check_key check);
  value = check.status ++ in_brackets (explanation_of words check);
}

unfoldable pub localized_group_label : Words → Text → Text
unfolding annex_group_heading
localized_group_label words group_key =
    or_else (annex_group_heading words group_key)
      (spoken_or words (find group_key group_label_table) [])

module _ {Field : Type 0} (library : IdentityLibrary Field) (words : Words) where
  -- The rows of one group: its checks, and then the fields that are no check.
  unfoldable pub group_rows : FieldGroup Field → List IdentityRow
  unfolding check_row
  group_rows group =
      let verdict = library.separate_security_checks group in
      map (check_row words group.key) verdict.checks
      ++ library.flatten_identity_fields (record group { fields = verdict.aggregates } ∷ [])

  unfoldable pub identity_rows : List (FieldGroup Field) → List IdentityRow
  unfolding group_rows
  identity_rows [] = []
  identity_rows (group ∷ groups) = group_rows group ++ identity_rows groups

  -- The value of a row that no outcome of a check heads.
  unfoldable pub plain_value : IdentityRow → Text
  unfolding localized_auth_method
  plain_value row =
      if text_eq row.label_key (codes "field.auth_method") && not (is_empty row.value)
      then or_else (localized_auth_method words row.value) row.value
      else if text_eq row.label_key (codes "field.address_date") && not (is_empty row.value)
      then elim (library.normalized_card_date row.value) [
        | some date ↦ date
        | none ↦ spoken words unknown_date
      ]
      else row.value

  unfoldable pub localized_field_value : IdentityRow → Text
  unfolding localized_status_token plain_value
  localized_field_value row =
      let named = localized_status_token words row.value in
      if library.is_security_verdict_group row.group_key && not (is_empty named)
      then named
      else plain_value row

abbrev pub keys_of : List (Text × Phrase) → List Text
keys_of = map (λ entry. entry.0)

unfoldable pub mapped_check_reason_keys : List Text
mapped_check_reason_keys = keys_of check_reason_table

unfoldable pub mapped_group_keys : List Text
mapped_group_keys =
    keys_of group_label_table ++ codes "annex.<id>.personal" ∷ codes "annex.<id>.security" ∷ []

unfoldable pub mapped_label_keys : List Text
mapped_label_keys = keys_of label_table
