-- ===== src/Kio/AgentSource/Identity.antt =====
-- components/kio/AgentCardDataSource.cpp, `readIdentity`: the identity of a card as the worker's fields.
use libre_kde.Base.{List, [], ◌∷◌, if◌then◌else◌}
use libre_kde.Shared.ErrorText.{Texts}
use libre_kde.Shared.IdentityRows.{
  IdentityRow, IdentityLibrary, FieldGroup, Words, identity_rows, is_hidden_identity_row,
  localized_field_label, localized_field_value,
}
use libre_kde.Kio.Source.{ReadStatus, IdentityFieldView, IdentityResult}
use libre_kde.Kio.AgentSource.{Report, Wait, no_card, card_gone, ended, reason_for, status_of}

module _ {Field : Type 0} (library : IdentityLibrary Field) (words : Words) where
  abbrev pub view_of : IdentityRow → IdentityFieldView
  view_of row = record {
    group = row.group_key;
    field_key = row.field_key;
    label_fallback = localized_field_label words row;
    value = localized_field_value library words row;
  }

  unfoldable pub views : List IdentityRow → List IdentityFieldView
  views [] = []
  views (row ∷ rows) =
      let rest = views rows in if is_hidden_identity_row row then rest else view_of row ∷ rest

  unfoldable pub identity_of :
      Texts → List (FieldGroup Field) → Report → ReadStatus → IdentityResult
  unfolding views
  identity_of texts groups r ReadStatus.ok = record {
    status = ReadStatus.ok;
    fields = views (identity_rows library words groups);
    message = [];
  }
  identity_of texts groups r status = record {
    status = status;
    fields = [];
    message = reason_for texts status r;
  }

  -- `groups` is what the operation gives as its identity.
  unfoldable pub read_identity : Texts → List (FieldGroup Field) → Wait → IdentityResult
  unfolding identity_of
  read_identity texts groups no_card = record {
    status = ReadStatus.unavailable;
    fields = [];
    message = [];
  }
  read_identity texts groups card_gone = record {
    status = ReadStatus.card_removed;
    fields = [];
    message = [];
  }
  read_identity texts groups (ended r) = identity_of texts groups r (status_of r)
