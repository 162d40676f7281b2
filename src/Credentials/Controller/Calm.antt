-- ===== src/Credentials/Controller/Calm.antt =====
-- components/credentials/src/CredentialController.cpp: the cancel of a verb that is in flight.
mod Marked
use libre_kde.Base.{
  ℕ, Bool, true, false, not, Option, none, some, ◌≡◌, refl, arith, Option-cases, inl, inr, pick,
  codes,
}
use libre_kde.Shared.Agent.{SyncError}
use libre_kde.Shared.ErrorText.{Texts, say}
use libre_kde.Shared.Registry.{AgentClient}
use libre_kde.Credentials.Controller.{Controller, init, reset_list_state}
use libre_kde.Credentials.Controller.Binding.{
  abandon_list, list_bound, start_list_credentials, cancel_all,
}
use libre_kde.Credentials.Controller.Verbs.{
  Report, relist_after_mutation, handle_refusal, notice, outcome_shown, finish_outcome, settle,
  on_mutation_done, is_card_removed, effective_outcome,
}
use libre_kde.Credentials.Controller.Machine.{
  mutation_finished, cancel_pressed, holds, step, Reached, after,
}
use libre_kde.Credentials.Controller.Invariant.{IsSound}
use libre_kde.Credentials.Controller.Soundness.{reached-IsSound}
use libre_kde.Credentials.Controller.Calm.Marked.{IsMarked, after-IsMarked}

relist-calm :
    (s : Controller) → s.result_is_error ≡ false → (relist_after_mutation s).result_is_error ≡ false
unfolding relist_after_mutation start_list_credentials list_bound abandon_list reset_list_state
relist-calm s calm = elim (Option-cases s.card) [
  | inl e ↦ ground arith
  | inr (card, e) ↦ ground arith
]

finish_outcome-calm :
    (texts : Texts) (r : Report) (s : Controller)
    → s.mutation_cancel_requested ≡ true
    → (finish_outcome texts r s).result_is_error ≡ false
unfolding finish_outcome outcome_shown
finish_outcome-calm texts r s asked =
    pick (λ (t : Controller). t.result_is_error ≡ false) (is_card_removed (effective_outcome r s))
      (λ removed. ground arith) (λ held. relist-calm (outcome_shown texts r s) (ground arith))

handle_refusal-calm :
    (texts : Texts) (named : SyncError) (s : Controller)
    → (handle_refusal texts named s).result_is_error ≡ false
unfolding handle_refusal
handle_refusal-calm texts SyncError.unknown_credential s =
    relist-calm
      (notice (say texts (codes "The card's credentials changed; the list was refreshed.")) s) refl
handle_refusal-calm texts SyncError.rate_limited s = refl
handle_refusal-calm texts SyncError.invalid_request s = refl
handle_refusal-calm texts _ s =
    relist-calm (notice (say texts (codes "The action could not be started.")) s) refl

settle-calm :
    (texts : Texts) (r : Report) (named : Option SyncError) (s : Controller)
    → s.mutation_cancel_requested ≡ true
    → (settle texts r named s).result_is_error ≡ false
unfolding settle
settle-calm texts r none s asked = finish_outcome-calm texts r s asked
settle-calm texts r (some named) s asked = handle_refusal-calm texts named _

ended-calm :
    (texts : Texts) (op : ℕ) (r : Report) (s : Controller)
    → s.mutation_op ≡ some op
    → s.mutation_cancel_requested ≡ true
    → (step texts s (mutation_finished op r)).result_is_error ≡ false
unfolding step on_mutation_done
ended-calm texts op r s live asked =
    pick (λ (t : Controller). t.result_is_error ≡ false) (holds s.mutation_op op)
      (λ held. settle-calm texts r r.sync_error s asked) (λ stale. ground arith)

cancel-IsMarked :
    (texts : Texts) (op : ℕ) (s : Controller)
    → IsSound s
    → s.mutation_op ≡ some op
    → IsMarked op (step texts s cancel_pressed)
unfolding step cancel_all
cancel-IsMarked texts op s sound live = record {
  marked = λ e. ground arith;
  numbered = sound.mutation_numbered op live;
}

-- A verb that the user cancelled does not end in an error: in a controller that events have led to, with the
-- verb in flight, let the user cancel; whatever events follow, as long as the verb is still in flight
-- after them, its end leaves no error on screen, whatever the operation reports. The client deletes a
-- card only after the end of the operations on it.
pub cancelled-calm :
    (texts : Texts) (has_client : Bool) (client : AgentClient) (s t : Controller) (op : ℕ)
    (report : Report)
    → Reached texts (init has_client client) s
    → s.mutation_op ≡ some op
    → Reached texts (step texts s cancel_pressed) t
    → t.mutation_op ≡ some op
    → (step texts t (mutation_finished op report)).result_is_error ≡ false
cancelled-calm texts has_client client s t op report before live between still =
    let sound = reached-IsSound texts has_client client s before in
    let m = after-IsMarked op texts _ t (cancel-IsMarked texts op s sound live) between in
    ended-calm texts op report t still (m.marked still)
