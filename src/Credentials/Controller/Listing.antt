-- ===== src/Credentials/Controller/Listing.antt =====
-- components/credentials/src/CredentialController.cpp: when a list that could not be read is asked for
-- again.
use libre_kde.Base.{ℕ, Bool, true, List, ◌∷◌, none, some, ◌≡◌, if◌then◌else◌, arith}
use libre_kde.Shared.Agent.{pin_management, OperationStatus}
use libre_kde.Shared.ErrorText.{Texts}
use libre_kde.Shared.Registry.{AgentCard, has_capability}
use libre_kde.Credentials.Model.{CredentialRecord}
use libre_kde.Credentials.Controller.{loading, Controller, list_credentials}
use libre_kde.Credentials.Controller.Binding.{list_bound, classify, classify_card, on_list_finished}
use libre_kde.Credentials.Controller.Machine.{card_changed, list_finished, step, changed_card}

-- Whether the end of a list is to be taken for the last word of the user or of the card.
abbrev pub is_latched : Controller → OperationStatus → Bool
is_latched s OperationStatus.ok = true
is_latched s OperationStatus.cancelled = true
is_latched s OperationStatus.error = s.list_cancel_requested

-- The list in flight ends, and then the bound card, which lets PINs be managed, changes: a list is
-- asked for again, and the window waits for it, just where the first one failed and neither the user
-- nor the agent had cancelled it.
pub listing-changed :
    (texts : Texts) (s : Controller) (op : ℕ) (status : OperationStatus)
    (records : List CredentialRecord) (bound card : AgentCard)
    → s.card ≡ some bound
    → card.object ≡ bound.object
    → has_capability card pin_management ≡ true
    → s.list_op ≡ some op
    → s.mutation_op ≡ none
    → let done = step texts s (list_finished op status records) in
      let next = step texts done (card_changed card) in
      (next.log
        ≡ (if is_latched s status then s.log else list_credentials card.object s.next_op ∷ s.log))
      × (next.state ≡ (if is_latched s status then done.state else loading))
unfolding step on_list_finished changed_card classify classify_card list_bound
listing-changed texts s op OperationStatus.ok records bound card c same can l m = ground arith
listing-changed texts s op OperationStatus.cancelled records bound card c same can l m =
    ground arith
listing-changed texts s op OperationStatus.error records bound card c same can l m = ground arith
