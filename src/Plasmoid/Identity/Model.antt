-- ===== src/Plasmoid/Identity/Model.antt =====
-- components/plasmoid/src/SmartCardHandler.cpp, `rebuildIdentityModel`: the three lists that the popup draws
-- of an identity read.
use libre_kde.Base.{◌||◌, Text, is_empty, List, [], ◌∷◌, none, if◌then◌else◌}
use libre_kde.Shared.IdentityRows.{
  IdentityRow, IdentityLibrary, FieldGroup, Words, identity_rows, is_hidden_identity_row,
  localized_field_label, localized_field_value, localized_group_label,
}
use libre_kde.Plasmoid.Unit.{Chars}
use libre_kde.Plasmoid.Identity.{Row, curate_identity_summary, curate_identity_details}
use libre_kde.Plasmoid.Identity.Layout.{apply_field_order, apply_group_headings}

pub record IdentityModel : Type 0 where
  pub fields : List Row
  pub summary : List Row
  pub details : List Row

module _ {Field : Type 0} (library : IdentityLibrary Field) (words : Words) where
  abbrev pub worded : IdentityRow → Row
  worded row = record {
    group_key = row.group_key;
    field_key = row.field_key;
    label = localized_field_label words row;
    value = localized_field_value library words row;
    group_heading = none;
  }

  unfoldable pub flat_rows : List IdentityRow → List Row
  flat_rows [] = []
  flat_rows (row ∷ rows) =
      let rest = flat_rows rows in
      if is_empty row.value || is_hidden_identity_row row then rest else worded row ∷ rest

-- `walk` is the order in which the hash of slots gives the groups of some rows.
module _ {Field : Type 0} (library : IdentityLibrary Field) (words : Words) (chars : Chars)
    (walk : List Row → List Text) where
  abbrev pub laid_out : List Row → List Row
  laid_out details =
      apply_group_headings (localized_group_label words)
        (apply_field_order library.field_order_for_group (walk details) details)

  unfoldable pub rebuild_identity_model : List (FieldGroup Field) → IdentityModel
  unfolding flat_rows
  rebuild_identity_model groups =
      let flat = flat_rows library words (identity_rows library words groups) in
      let summary = curate_identity_summary chars flat in
      record {
        fields = flat;
        summary = summary;
        details = laid_out (curate_identity_details flat summary);
      }
