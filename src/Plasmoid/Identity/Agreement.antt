-- ===== src/Plasmoid/Identity/Agreement.antt =====
-- components/plasmoid/src/SmartCardHandler.cpp and components/kio/AgentCardDataSource.cpp: the popup and the
-- identity file draw one read alike.
use libre_kde.Base.{Text, is_empty, List, [], ◌∷◌, none, ◌≡◌, refl, if◌then◌else◌, arith, map}
use libre_kde.Shared.Agent.{OperationStatus}
use libre_kde.Shared.ErrorText.{Texts}
use libre_kde.Shared.IdentityRows.{IdentityRow, IdentityLibrary, FieldGroup, Words, identity_rows}
use libre_kde.Shared.IdentityRows.Floor.{IsHeard, HasDates, value-heard}
use libre_kde.Kio.Source.{IdentityFieldView}
use libre_kde.Kio.AgentSource.{Report, ended, map_status}
use libre_kde.Kio.AgentSource.Identity.{views, read_identity, identity_of}
use libre_kde.Plasmoid.Unit.{Chars}
use libre_kde.Plasmoid.Identity.{Row}
use libre_kde.Plasmoid.Identity.Model.{flat_rows, rebuild_identity_model}

-- The row that the popup has of a field of the worker's.
abbrev pub drawn : IdentityFieldView → Row
drawn view = record {
  group_key = view.group;
  field_key = view.field_key;
  label = view.label_fallback;
  value = view.value;
  group_heading = none;
}

-- The fields that have a value.
unfoldable pub filled : List IdentityFieldView → List IdentityFieldView
filled [] = []
filled (view ∷ rest) = if is_empty view.value then filled rest else view ∷ filled rest

module _ {Field : Type 0} (library : IdentityLibrary Field) (words : Words) (heard : IsHeard words)
    (dates : HasDates library) where
  flat_rows-views :
      (rows : List IdentityRow)
      → flat_rows library words rows ≡ map drawn (filled (views library words rows))
  unfolding flat_rows views filled
  flat_rows-views [] = refl
  flat_rows-views (row ∷ rows) =
      ground (arith, value-heard library words heard dates row, flat_rows-views rows)

  -- With a catalogue that has a text for every message and dates that are not empty, the fields that the
  -- popup has of a read that ended well are those that the worker's identity file has of it, less the
  -- ones without a value.
  pub rebuild_identity_model-read_identity :
      (chars : Chars) (walk : List Row → List Text) (texts : Texts)
      (groups : List (FieldGroup Field)) (r : Report)
      → r.status ≡ OperationStatus.ok
      → (rebuild_identity_model library words chars walk groups).fields
        ≡ map drawn (filled (read_identity library words texts groups (ended r)).fields)
  unfolding rebuild_identity_model read_identity identity_of map_status
  rebuild_identity_model-read_identity chars walk texts groups r e =
      rw e (flat_rows-views (identity_rows library words groups))
