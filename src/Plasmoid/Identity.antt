-- ===== src/Plasmoid/Identity.antt =====
-- components/plasmoid/src/SmartCardHandler.cpp: how the rows of an identity are laid out. A QVariantMap
-- of a row is a record of its keys; the heading is the one key that a row may lack.
pub mod Layout
pub mod Counting
pub mod Split
pub mod Headline
pub mod Sorting
pub mod Ranks
pub mod Slots
pub mod Order
pub mod Headings
pub mod Model
pub mod Once
pub mod Agreement
mod Tests
use libre_kde.Base.{
  ℕ, zero, suc, Bool, true, false, not, ◌&&◌, ◌||◌, Text, codes, is_empty, text_eq, List, [], ◌∷◌,
  ◌++◌, Option, none, some, if◌then◌else◌, leb, get_elem?,
}
use mathlib.Core.List.{reverse}
use libre_kde.Base.Groups.{contains, rows_of, value_or, collect_rows}
use libre_kde.Plasmoid.Unit.{Chars}

pub record Row : Type 0 where
  pub group_key : Text
  pub field_key : Text
  pub label : Text
  pub value : Text
  pub group_heading : Option Text

-- `identityOf`, compared.
unfoldable pub same_identity : Row → Row → Bool
same_identity a b = text_eq a.group_key b.group_key && text_eq a.field_key b.field_key

-- A set of identities, as rows that have them.
unfoldable pub holds : List Row → Row → Bool
unfolding same_identity
holds [] r = false
holds (s ∷ set) r = same_identity s r || holds set r

unfoldable pub insert : Row → List Row → List Row
unfolding holds
insert r set = if holds set r then set else r ∷ set

unfoldable pub remove : Row → List Row → List Row
unfolding same_identity
remove r [] = []
remove r (s ∷ set) = if same_identity s r then set else s ∷ remove r set

unfoldable pub summarised : List Row → List Row → List Row
unfolding insert
summarised [] set = set
summarised (r ∷ summary) set = summarised summary (insert r set)

unfoldable pub details_from : List Row → List Row → List Row
unfolding holds remove
details_from set [] = []
details_from set (r ∷ fields) =
    let taken = details_from (remove r set) fields in
    let kept = r ∷ details_from set fields in if holds set r then taken else kept

unfoldable pub curate_identity_details : List Row → List Row → List Row
unfolding details_from summarised
curate_identity_details fields summary = details_from (summarised summary []) fields

abbrev pub summary_keys : List Text
summary_keys =
    codes "surname"
    ∷ codes "family_name"
    ∷ codes "given_name"
    ∷ codes "given_names"
    ∷ codes "personal_number"
    ∷ codes "document_number"
    ∷ codes "document_serial_number"
    ∷ codes "doc_reg_no"
    ∷ codes "card_id"
    ∷ codes "document_type"
    ∷ codes "card_type"
    ∷ codes "date_of_expiry"
    ∷ codes "expiry_date"
    ∷ codes "valid_until"
    ∷ []

abbrev pub name_component_keys : List Text
name_component_keys =
    codes "surname" ∷ codes "family_name" ∷ codes "given_name" ∷ codes "given_names" ∷ []

abbrev pub full_name : Text
full_name = codes "full_name"

trim_front : Chars → Text → Text
trim_front chars [] = []
trim_front chars (c ∷ s) = let rest = trim_front chars s in if chars.is_space c then rest else c ∷ s

-- `QString::trimmed`.
unfoldable pub trimmed : Chars → Text → Text
unfolding trim_front
trimmed chars s = reverse (trim_front chars (reverse (trim_front chars s)))

unfoldable pub has_text : Chars → Row → Bool
has_text chars row = not (is_empty (trimmed chars row.value))

unfoldable pub has_name_component : Chars → List Row → Bool
unfolding contains has_text
has_name_component chars [] = false
has_name_component chars (row ∷ fields) =
    (contains row.field_key name_component_keys && has_text chars row)
    || has_name_component chars fields

unfoldable pub effective_keys : Chars → List Row → List Text
unfolding has_name_component
effective_keys chars fields =
    if has_name_component chars fields then summary_keys else full_name ∷ summary_keys

abbrev pub to_summary_row : Row → Row
to_summary_row row = record row { group_heading = none }

-- The inner loop: the first row of a key that has text.
unfoldable pub first_row : Chars → Text → List Row → List Row
unfolding has_text
first_row chars key [] = []
first_row chars key (row ∷ fields) =
    let rest = first_row chars key fields in
    if text_eq row.field_key key && has_text chars row then to_summary_row row ∷ [] else rest

unfoldable pub curated : Chars → List Text → List Row → List Row
unfolding first_row
curated chars [] fields = []
curated chars (key ∷ keys) fields = first_row chars key fields ++ curated chars keys fields

-- The loop of the fallback, with the rows that may still be taken.
unfoldable pub fallback : ℕ → List Row → List Row → List Row
unfolding holds insert
fallback zero seen fields = []
fallback (suc left) seen [] = []
fallback (suc left) seen (row ∷ fields) =
    let old = fallback (suc left) seen fields in
    let new = to_summary_row row ∷ fallback left (insert row seen) fields in
    if holds seen row then old else new

abbrev pub fallback_rows : ℕ
fallback_rows = 4

or_fallback : List Row → List Row → List Row
unfolding fallback
or_fallback fields [] = fallback fallback_rows [] fields
or_fallback fields (row ∷ summary) = row ∷ summary

unfoldable pub curate_identity_summary : Chars → List Row → List Row
unfolding or_fallback curated effective_keys
curate_identity_summary chars fields =
    or_fallback fields (curated chars (effective_keys chars fields) fields)
