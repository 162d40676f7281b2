-- ===== src/Plasmoid/Handler/Privacy.antt =====
-- components/plasmoid/src/SmartCardHandler.cpp: what is kept of a holder, and which reads are begun
-- without being asked for.
use libre_kde.Base.{
  ℕ, Bool, true, false, not, ◌&&◌, List, [], ◌∷◌, Option, none, some, ◌≡◌, refl, inl, inr, arith,
  pick, Option-cases,
}
use libre_kde.Shared.ErrorText.{Texts}
use libre_kde.Shared.Registry.{AgentCard, AgentReader, AgentClient}
use libre_kde.Plasmoid.Reader.{Widget, pick_active_reader, set_bound_reader_name, select_reader}
use libre_kde.Plasmoid.Handler.{
  Library, Handler, is_live, same_card, rebind, bind_card, read_on, read_now, free_read_on,
  ensure_free_read, card_state, update_pin_management, classify_active_card, without_agent,
  without_reader, show_reader, refresh,
}
use libre_kde.Plasmoid.Handler.Slots.{
  Report, photo_on, start_photo_read, on_operation_finished, keep_photo, on_photo_finished,
  set_view_active, start_agent, on_agent_start_finished, blank_handler, new_handler, is_cancel,
  is_ok,
}
use libre_kde.Plasmoid.Handler.Machine.{
  Event, registry, card_changed, card_destroyed, identity_finished, photo_finished, view_moved,
  reader_bound, reader_selected, read_pressed, start_pressed, start_answered, holds, step, run,
  Possible, AllPossible,
}

-- `settled`: the signal of the registry has followed the deletion of a card.
pub record IsTidy (settled : Bool) (h : Handler) : Type 0 where
  pub latched : h.busy ≡ is_live h.identity_op
  pub cardless : h.card ≡ none → (h.identity_op ≡ none) × (settled ≡ true → h.identity_read ≡ false)
  pub scrubbed : h.identity_read ≡ false → (h.identity ≡ []) × (h.photo ≡ []) × (h.photo_op ≡ none)

loosened : {b : Bool} {h : Handler} → IsTidy true h → IsTidy b h
loosened tidy = record {
  latched = tidy.latched;
  cardless = λ e. ((tidy.cardless e).0, λ i. (tidy.cardless e).1 refl);
  scrubbed = tidy.scrubbed;
}

classify-read :
    (library : Library) (h : Handler)
    → (classify_active_card library h).identity_read ≡ h.identity_read
unfolding classify_active_card update_pin_management ensure_free_read free_read_on read_now read_on
classify-read library h = elim (Option-cases h.card) [
  | inl e ↦ ground arith
  | inr (card, e) ↦ ground arith
]

holds-is_live : (held : Option ℕ) (op : ℕ) → holds held op ≡ true → is_live held ≡ true
holds-is_live none op h = h
holds-is_live (some n) op h = refl

same_card-bound :
    (card : AgentCard) (bound : Option AgentCard)
    → same_card card bound ≡ true
    → (held : AgentCard) × (bound ≡ some held)
same_card-bound card none e = absurd (ground arith)
same_card-bound card (some held) e = (held, refl)

module _ {b : Bool} where
  read_now-IsTidy : (h : Handler) → IsTidy b h → IsTidy b (read_now h)
  unfolding read_now read_on
  read_now-IsTidy h tidy = elim (Option-cases h.card) [
    | inl e ↦ ground arith
    | inr (card, e) ↦ ground arith
  ]

  ensure_free_read-IsTidy :
      (library : Library) (h : Handler) → IsTidy b h → IsTidy b (ensure_free_read library h)
  unfolding ensure_free_read free_read_on
  ensure_free_read-IsTidy library h tidy = elim (Option-cases h.card) [
    | inl e ↦ ground arith
    | inr (card, e) ↦ ground (arith, read_now-IsTidy h tidy)
  ]

  classify_active_card-IsTidy :
      (library : Library) (h : Handler) → IsTidy b h → IsTidy b (classify_active_card library h)
  unfolding classify_active_card update_pin_management
  classify_active_card-IsTidy library h tidy =
      let classified = record (update_pin_management h) {
        state = card_state library h.card h.identity_read;
      } in
      pick (IsTidy b) h.view_active
        (λ seen. ensure_free_read-IsTidy library classified (ground arith)) (λ unseen. ground arith)

  start_photo_read-IsTidy :
      (h : Handler) → h.identity_read ≡ true → IsTidy b h → IsTidy b (start_photo_read h)
  unfolding start_photo_read photo_on
  start_photo_read-IsTidy h seen tidy = elim (Option-cases h.card) [
    | inl e ↦ ground arith
    | inr (card, e) ↦ ground arith
  ]

  operation_finished-IsTidy :
      (texts : Texts) (library : Library) (r : Report) (h : Handler) {card : AgentCard}
      → h.card ≡ some card
      → IsTidy b h
      → IsTidy b (on_operation_finished texts library r h)
  unfolding on_operation_finished
  operation_finished-IsTidy texts library r h c tidy =
      let over = record h { identity_op = none; busy = false } in
      let read = record over { identity_read = true; identity = r.identity } in
      pick (IsTidy b) (is_cancel r.status r.error_code r.call_error)
        (λ dismissed.
          classify_active_card-IsTidy library (record over { error_message = [] }) (ground arith))
        (λ went.
          pick (IsTidy b) (not (is_ok r.status)) (λ bad. ground arith)
            (λ ok.
              start_photo_read-IsTidy (classify_active_card library read)
                (classify-read library read)
                (classify_active_card-IsTidy library read (ground arith))))

  photo_finished-IsTidy :
      (library : Library) (r : Report) (h : Handler)
      → is_live h.photo_op ≡ true
      → IsTidy b h
      → IsTidy b (on_photo_finished library r h)
  unfolding on_photo_finished keep_photo
  photo_finished-IsTidy library r h live tidy = elim (Option-cases r.payload) [
    | inl e ↦ ground arith
    | inr (bytes, e) ↦ ground arith
  ]

  set_view_active-IsTidy :
      (library : Library) (active : Bool) (h : Handler)
      → IsTidy b h
      → IsTidy b (set_view_active library active h)
  unfolding set_view_active
  set_view_active-IsTidy library active h tidy =
      pick (IsTidy b) (active && not h.view_active)
        (λ opens.
          ensure_free_read-IsTidy library (record h { view_active = active }) (ground arith))
        (λ stays. ground arith)

  with_widget-IsTidy :
      (widget : Widget) (h : Handler) → IsTidy b h → IsTidy b (record h { widget = widget })
  with_widget-IsTidy widget h tidy = ground arith

module _ {b : Bool} where
  rebind-IsTidy : (card : Option AgentCard) (h : Handler) → IsTidy b h → IsTidy true (rebind card h)
  unfolding rebind
  rebind-IsTidy card h tidy = ground arith

  bind_card-IsTidy :
      (card : Option AgentCard) (h : Handler) → IsTidy b h → IsTidy true (bind_card card h)
  unfolding bind_card
  bind_card-IsTidy none h tidy = rebind-IsTidy none h tidy
  bind_card-IsTidy (some card) h tidy =
      pick (IsTidy true) (same_card card h.card) (λ same. ground arith)
        (λ other. rebind-IsTidy (some card) h tidy)

  without_agent-IsTidy : (h : Handler) → IsTidy b h → IsTidy true (without_agent h)
  unfolding without_agent update_pin_management bind_card rebind
  without_agent-IsTidy h tidy = ground arith

  without_reader-IsTidy :
      (library : Library) (h : Handler) → IsTidy b h → IsTidy true (without_reader library h)
  unfolding without_reader update_pin_management bind_card rebind
  without_reader-IsTidy library h tidy = ground arith

  show_reader-IsTidy :
      (library : Library) (reader : Option AgentReader) (h : Handler)
      → IsTidy b h
      → IsTidy true (show_reader library reader h)
  unfolding show_reader
  show_reader-IsTidy library none h tidy = without_reader-IsTidy library h tidy
  show_reader-IsTidy library (some reader) h tidy =
      let shown = record h { card_detected = false; reader_name = reader.name } in
      classify_active_card-IsTidy library (bind_card reader.card shown)
        (bind_card-IsTidy reader.card shown (ground arith))

  refresh-IsTidy : (library : Library) (h : Handler) → IsTidy b h → IsTidy true (refresh library h)
  unfolding refresh
  refresh-IsTidy library h tidy =
      pick (IsTidy true) (not h.widget.client.is_available) (λ away. without_agent-IsTidy h tidy)
        (λ here. show_reader-IsTidy library (pick_active_reader library.chars h.widget) h tidy)

-- Whether the signal of the registry has followed the last deletion of a card.
abbrev settled_by : Bool → Event → Bool
settled_by b card_destroyed = false
settled_by b (registry client) = true
settled_by b _ = b

abbrev settled : Bool → List Event → Bool
settled b [] = b
settled b (e ∷ events) = settled (settled_by b e) events

step-IsTidy :
    (texts : Texts) (library : Library) (b : Bool) (h : Handler) (event : Event)
    → Possible h event
    → IsTidy b h
    → IsTidy (settled_by b event) (step texts library h event)
unfolding step start_agent on_agent_start_finished
step-IsTidy texts library b h (registry client) possible tidy =
    refresh-IsTidy library _ (with_widget-IsTidy (record h.widget { client = client }) h tidy)
step-IsTidy texts library b h (card_changed card) possible tidy =
    pick (IsTidy b) (same_card card h.card)
      (λ same.
        let (held, bound) = same_card-bound card h.card same in
        classify_active_card-IsTidy library (record h { card = some card }) (ground arith))
      (λ other. tidy)
step-IsTidy texts library b h card_destroyed possible tidy = ground arith
step-IsTidy texts library b h (identity_finished op r) possible tidy =
    pick (IsTidy b) (holds h.identity_op op)
      (λ mine. elim (Option-cases h.card) [
        | inl e ↦ absurd (ground arith)
        | inr (card, e) ↦ operation_finished-IsTidy texts library r h e tidy
      ])
      (λ stale. tidy)
step-IsTidy texts library b h (photo_finished op r) possible tidy =
    pick (IsTidy b) (holds h.photo_op op)
      (λ mine. photo_finished-IsTidy library r h (holds-is_live h.photo_op op mine) tidy)
      (λ stale. tidy)
step-IsTidy texts library b h (view_moved active) possible tidy =
    set_view_active-IsTidy library active h tidy
step-IsTidy texts library b h (reader_bound name) possible tidy =
    pick (IsTidy b) _ (λ same. tidy)
      (λ other. loosened (
        refresh-IsTidy {b = b} library _
          (with_widget-IsTidy (set_bound_reader_name name h.widget) h tidy)))
step-IsTidy texts library b h (reader_selected name) possible tidy =
    pick (IsTidy b) _ (λ same. tidy)
      (λ other. loosened (
        refresh-IsTidy {b = b} library _ (with_widget-IsTidy (select_reader name h.widget) h tidy)))
step-IsTidy texts library b h read_pressed possible tidy = read_now-IsTidy h tidy
step-IsTidy texts library b h start_pressed possible tidy = ground arith
step-IsTidy texts library b h (start_answered failed) possible tidy =
    pick (IsTidy b) h.agent_starting
      (λ asked. loosened (
        refresh-IsTidy {b = b} library
          (record h { agent_starting = false; agent_start_failed = failed }) (ground arith)))
      (λ unasked. tidy)

events-IsTidy :
    (texts : Texts) (library : Library) (b : Bool) (h : Handler) (events : List Event)
    → AllPossible texts library h events
    → IsTidy b h
    → IsTidy (settled b events) (run texts library h events)
unfolding run
events-IsTidy texts library b h [] may tidy = tidy
events-IsTidy texts library b h (e ∷ events) (p, may) tidy =
    events-IsTidy texts library (settled_by b e) (step texts library h e) events may
      (step-IsTidy texts library b h e p tidy)

-- However the events follow one another, where the client deletes a card only after the end of a read
-- of its identity: a widget is marked as busy just while it reads an identity; without a card it reads
-- none, and it counts none as read once the signal of the registry has followed the deletion; and while
-- none counts as read it keeps no field of an identity, no photo and no read of one.
pub run-IsTidy :
    (texts : Texts) (library : Library) (client : AgentClient) (events : List Event)
    → AllPossible texts library (new_handler library client) events
    → IsTidy (settled true events) (run texts library (new_handler library client) events)
unfolding new_handler
run-IsTidy texts library client events may =
    events-IsTidy texts library true (new_handler library client) events may (
      refresh-IsTidy {b = true} library (blank_handler client) (record {
        latched = refl;
        cardless = λ e. (refl, λ i. refl);
        scrubbed = λ e. (refl, refl, refl);
      }))
