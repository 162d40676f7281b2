-- ===== src/Plasmoid/CardState.antt =====
-- components/plasmoid/src/CardStateModel.cpp: the states of the widget's view of a card.
pub data CardState : Type 0 where
  no_card pre_auth_required identity_only pki_only hybrid error unknown_card agent_unavailable :
      CardState

-- The client library's states of a card.
pub data UiState : Type 0 where
  no_card none pre_auth_required identity_only pki_only hybrid unknown_card error : UiState

-- `CardStateModel::fromUiState`.
unfoldable pub from_ui_state : UiState → CardState
from_ui_state UiState.no_card = CardState.no_card
from_ui_state UiState.pre_auth_required = CardState.pre_auth_required
from_ui_state UiState.identity_only = CardState.identity_only
from_ui_state UiState.pki_only = CardState.pki_only
from_ui_state UiState.hybrid = CardState.hybrid
from_ui_state UiState.unknown_card = CardState.unknown_card
from_ui_state UiState.none = CardState.error
from_ui_state UiState.error = CardState.error
