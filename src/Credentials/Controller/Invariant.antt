-- ===== src/Credentials/Controller/Invariant.antt =====
-- components/credentials/src/CredentialController.cpp: what holds of the controller between two events.
use libre_kde.Base.{
  ℕ, ◌<◌, true, false, not, ◌||◌, is_empty, Text, List, [], ◌∷◌, Option, none, some, ◌≡◌, refl, ◌⊎◌,
  inl, inr, arith, Option-cases, pick,
}
use libre_kde.Shared.Agent.{pin_management, OperationStatus}
use libre_kde.Shared.ErrorText.{Texts}
use libre_kde.Shared.Registry.{AgentCard, AgentReader, has_capability, reader_label}
use libre_kde.Credentials.Model.{CredentialRecord}
use libre_kde.Credentials.Controller.{
  State, working, not_manageable, result, loading, ready, empty, no_card, agent_unavailable,
  Controller, is_live, reset_list_state, detach_mutation, bind_card, rebind, same_card,
}
use libre_kde.Credentials.Controller.Binding.{
  abandon_list, list_bound, classify, classify_card, unbind, manage, manage_target, target, refresh,
  on_list_finished, cancel_all,
}

pub record IsSound (s : Controller) : Type 0 where
  pub single : (s.list_op ≡ none) ⊎ (s.mutation_op ≡ none)
  pub carried : s.card ≡ none → (s.list_op ≡ none) × (s.mutation_op ≡ none)
  pub at_work : s.state ≡ working → is_live s.mutation_op ≡ true
  pub mutating : is_live s.mutation_op ≡ true → (s.state ≡ working) ⊎ (s.state ≡ not_manageable)
  pub fetching : s.state ≡ loading → is_live s.list_op ≡ true
  pub holding :
      s.showing_result ≡ true → (s.state ≡ result) × ((is_live s.list_op ≡ true) ⊎ (s.card ≡ none))
  pub listed : s.state ≡ ready → (is_empty s.model ≡ false) × (s.list_settled ≡ true)
  pub blank : s.state ≡ empty → (is_empty s.model ≡ true) × (s.list_settled ≡ true)
  pub unsettled : is_live s.list_op ≡ true → s.list_settled ≡ false
  pub list_numbered : (op : ℕ) → s.list_op ≡ some op → op < s.next_op
  pub mutation_numbered : (op : ℕ) → s.mutation_op ≡ some op → op < s.next_op

-- A state in which nothing is in flight, nothing is shown and nothing is held.
abbrev pub IsIdleState : State → Type 0
IsIdleState working = ⊥
IsIdleState loading = ⊥
IsIdleState ready = ⊥
IsIdleState empty = ⊥
IsIdleState _ = Unit {0}

-- Nothing is known of the card's credentials, and nothing is in flight.
pub record IsFresh (s : Controller) : Type 0 where
  pub no_list : s.list_op ≡ none
  pub no_mutation : s.mutation_op ≡ none
  pub unread : s.list_settled ≡ false
  pub unheld : s.showing_result ≡ false

idle-IsSound : (s : Controller) → IsFresh s → IsIdleState s.state → IsSound s
idle-IsSound s fresh idle = ground arith

pub reset-IsFresh : (s : Controller) → s.mutation_op ≡ none → IsFresh (reset_list_state s)
unfolding reset_list_state
reset-IsFresh s m = record { no_list = refl; no_mutation = m; unread = refl; unheld = refl }

rebind-IsFresh : (card : Option AgentCard) (s : Controller) → IsFresh (rebind card s)
unfolding rebind reset_list_state detach_mutation
rebind-IsFresh none s = record { no_list = refl; no_mutation = refl; unread = refl; unheld = refl }
rebind-IsFresh (some card) s = record {
  no_list = refl;
  no_mutation = refl;
  unread = refl;
  unheld = refl;
}

-- Neither a list nor a verb of another card is let in.
abbrev pub IsReady : Controller → Type 0
IsReady s = IsSound s ⊎ IsFresh s

quiet-IsSound :
    (next : State) (s : Controller)
    → IsIdleState next
    → s.mutation_op ≡ none
    → IsSound (abandon_list next s)
unfolding abandon_list reset_list_state
quiet-IsSound next s idle m = ground arith

unmanageable-IsSound :
    (s : Controller) (card : AgentCard)
    → s.card ≡ some card
    → IsSound s
    → IsSound (abandon_list not_manageable s)
unfolding abandon_list reset_list_state
unmanageable-IsSound s card c sound = ground arith

cardless-IsSound : (s : Controller) → s.card ≡ none → IsReady s → IsSound (abandon_list no_card s)
unfolding abandon_list reset_list_state
cardless-IsSound s c before = ground arith

list_bound-IsSound :
    (card : AgentCard) (s : Controller) {held : AgentCard}
    → s.card ≡ some held
    → IsReady s
    → IsSound (list_bound card s)
unfolding list_bound
list_bound-IsSound card s c before =
    pick IsSound (is_live s.mutation_op || is_live s.list_op || s.list_settled)
      (λ busy. ground arith) (λ idle. ground arith)

classify_card-IsSound :
    (card : Option AgentCard) (s : Controller)
    → s.card ≡ card
    → IsReady s
    → IsSound (classify_card card s)
unfolding classify_card
classify_card-IsSound none s c before = cardless-IsSound s c before
classify_card-IsSound (some card) s c before =
    pick IsSound (has_capability card pin_management) (λ can. list_bound-IsSound card s c before)
      (λ cannot. elim before [
        | inl sound ↦ unmanageable-IsSound s card c sound
        | inr fresh ↦ quiet-IsSound not_manageable s tt fresh.no_mutation
      ])

pub classify-IsSound : (s : Controller) → IsReady s → IsSound (classify s)
unfolding classify
classify-IsSound s before = classify_card-IsSound s.card s refl before

seen-IsReady :
    (card : AgentCard) (s : Controller) {held : AgentCard}
    → s.card ≡ some held
    → IsReady s
    → IsReady (record s { card = some card })
seen-IsReady card s c (inl sound) = inl (ground arith)
seen-IsReady card s c (inr fresh) = inr (ground arith)

bind_card-IsReady :
    (card : Option AgentCard) (s : Controller) → IsReady s → IsReady (bind_card card s)
unfolding bind_card
bind_card-IsReady none s before = inr (rebind-IsFresh none s)
bind_card-IsReady (some card) s before = elim (Option-cases s.card) [
  | inl none_bound ↦ rw none_bound (inr (rebind-IsFresh (some card) s))
  | inr (held, bound) ↦
      pick IsReady (same_card card s.card) (λ same. seen-IsReady card s bound before)
        (λ other. inr (rebind-IsFresh (some card) s))
]

unbind-IsSound : (next : State) (s : Controller) → IsIdleState next → IsSound (unbind next s)
unfolding unbind bind_card rebind reset_list_state detach_mutation
unbind-IsSound next s idle = ground arith

named-IsReady :
    (id label : Text) (s : Controller)
    → IsReady s
    → IsReady (record s { resolved_reader_id = id; reader_label = label })
named-IsReady id label s (inl sound) = inl (ground arith)
named-IsReady id label s (inr fresh) = inr (ground arith)

manage-IsSound :
    (texts : Texts) (reader : AgentReader) (s : Controller)
    → IsReady s
    → IsSound (manage texts reader s)
unfolding manage
manage-IsSound texts reader s before =
    classify-IsSound _ (
      bind_card-IsReady reader.card _
        (named-IsReady reader.id (reader_label texts reader) s before))

manage_target-IsSound :
    (texts : Texts) (found : Option AgentReader) (s : Controller)
    → IsReady s
    → IsSound (manage_target texts found s)
unfolding manage_target
manage_target-IsSound texts none s before = unbind-IsSound no_card s tt
manage_target-IsSound texts (some reader) s before = manage-IsSound texts reader s before

pub refresh-IsSound : (texts : Texts) (s : Controller) → IsReady s → IsSound (refresh texts s)
unfolding refresh
refresh-IsSound texts s before =
    pick IsSound (not s.has_client || not s.client.is_available)
      (λ away. unbind-IsSound agent_unavailable s tt)
      (λ here.
        pick IsSound (is_live s.mutation_op)
          (λ busy. elim before [ inl sound ↦ sound | inr fresh ↦ ground arith ])
          (λ free. manage_target-IsSound texts (target s) s before))

pub bound_id-IsReady :
    (id : Text) (s : Controller) → IsReady s → IsReady (record s { reader_id = id })
bound_id-IsReady id s (inl sound) = inl (ground arith)
bound_id-IsReady id s (inr fresh) = inr (ground arith)

pub on_list_finished-IsSound :
    (status : OperationStatus) (records : List CredentialRecord) (s : Controller)
    → is_live s.list_op ≡ true
    → IsSound s
    → IsSound (on_list_finished status records s)
unfolding on_list_finished
on_list_finished-IsSound OperationStatus.ok [] s live sound = ground arith
on_list_finished-IsSound OperationStatus.ok (r ∷ records) s live sound = ground arith
on_list_finished-IsSound OperationStatus.cancelled records s live sound = ground arith
on_list_finished-IsSound OperationStatus.error records s live sound = ground arith

pub cancel_all-IsSound : (s : Controller) → IsSound s → IsSound (cancel_all s)
unfolding cancel_all
cancel_all-IsSound s sound = ground arith
