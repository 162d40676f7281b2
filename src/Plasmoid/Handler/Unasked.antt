-- ===== src/Plasmoid/Handler/Unasked.antt =====
-- components/plasmoid/src/SmartCardHandler.cpp: a read that nobody asked for is one that needs no unlock.
use libre_kde.Base.{
  ℕ, true, false, not, ◌||◌, is_empty, List, [], Option, none, some, In, ◌≡◌, refl, subst, ◌⊎◌, inl,
  inr, arith, pick, Option-cases, text_eq,
}
use libre_kde.Shared.ErrorText.{Texts}
use libre_kde.Shared.Registry.{AgentCard, AgentReader}
use libre_kde.Plasmoid.Reader.{pick_active_reader, set_bound_reader_name, select_reader}
use libre_kde.Plasmoid.Handler.{
  Library, Request, read_identity, Handler, is_live, cancelled, same_card, rebind, bind_card,
  read_on, read_now, free_read_on, ensure_free_read, card_state, update_pin_management,
  classify_active_card, without_agent, without_reader, show_reader, refresh, shows_identity,
}
use libre_kde.Plasmoid.Handler.Slots.{
  Report, photo_on, start_photo_read, on_operation_finished, keep_photo, on_photo_finished,
  set_view_active, start_agent, on_agent_start_finished, is_cancel, is_ok,
}
use libre_kde.Plasmoid.Handler.Machine.{
  Event, registry, card_changed, card_destroyed, identity_finished, photo_finished, view_moved,
  reader_bound, reader_selected, read_pressed, start_pressed, start_answered, holds, step,
}

-- The card is bound, is read without an unlock, and is in view.
abbrev pub IsFree : Library → Handler → ℕ → Type 0
IsFree library h c =
    (card : AgentCard) × (h.card ≡ some card)
    × (card.object ≡ c)
    × (library.unlock_required card.pre_read_auth ≡ false)
    × (h.view_active ≡ true)

abbrev pub IsUnasked : Event → Type 0
IsUnasked read_pressed = ⊥
IsUnasked _ = Unit {0}

cancelled-In :
    (held : Option ℕ) (c op : ℕ) (log : List Request)
    → In (read_identity c op) (cancelled held log)
    → In (read_identity c op) log
cancelled-In none c op log i = i
cancelled-In (some n) c op log i = ground arith

module _ (library : Library) (c op : ℕ) (before : List Request) where
  -- The request was there before, or reads a free card.
  abbrev IsFine : Handler → Type 0
  IsFine h = In (read_identity c op) h.log → In (read_identity c op) before ⊎ IsFree library h c

  -- The request was there before.
  abbrev IsOld : Handler → Type 0
  IsOld h = In (read_identity c op) h.log → In (read_identity c op) before

  rebind-IsOld : (card : Option AgentCard) (h : Handler) → IsOld h → IsOld (rebind card h)
  unfolding rebind
  rebind-IsOld card h old i =
      old (cancelled-In h.identity_op c op h.log (cancelled-In h.photo_op c op _ i))

  bind_card-IsOld : (card : Option AgentCard) (h : Handler) → IsOld h → IsOld (bind_card card h)
  unfolding bind_card
  bind_card-IsOld none h old = rebind-IsOld none h old
  bind_card-IsOld (some card) h old =
      pick IsOld (same_card card h.card) (λ same. old) (λ other. rebind-IsOld (some card) h old)

  read_on-IsFine :
      (found : Option AgentCard) (h : Handler)
      → h.card ≡ found
      → ((card : AgentCard)
          → h.card ≡ some card
          → library.unlock_required card.pre_read_auth ≡ false)
      → h.view_active ≡ true
      → IsOld h
      → IsFine (read_on found h)
  unfolding read_on
  read_on-IsFine none h e free seen old = λ i. inl (old i)
  read_on-IsFine (some card) h e free seen old =
      pick IsFine (is_live h.identity_op) (λ busy i. inl (old i))
        (λ idle i. elim i [
          | inl this ↦ inr (card, e, ground arith, free card e, seen)
          | inr earlier ↦ inl (old earlier)
        ])

  free_on-IsFine :
      (found : Option AgentCard) (h : Handler)
      → h.card ≡ found
      → h.view_active ≡ true
      → IsOld h
      → IsFine (free_read_on library found h)
  unfolding free_read_on read_now
  free_on-IsFine none h e seen old = λ i. inl (old i)
  free_on-IsFine (some card) h e seen old =
      pick IsFine
        (library.unlock_required card.pre_read_auth || h.identity_read || is_live h.identity_op)
        (λ held i. inl (old i))
        (λ free.
          pick IsFine (not (shows_identity h.state)) (λ other i. inl (old i))
            (λ shows.
              read_on-IsFine h.card h refl
                (λ k f.
                  let same : card ≡ k = ground arith in
                  subst (λ x. library.unlock_required x.pre_read_auth ≡ false) same (ground arith))
                seen old))

  free_read-IsFine :
      (h : Handler) → h.view_active ≡ true → IsOld h → IsFine (ensure_free_read library h)
  unfolding ensure_free_read
  free_read-IsFine h seen old = free_on-IsFine h.card h refl seen old

  classify-IsFine : (h : Handler) → IsOld h → IsFine (classify_active_card library h)
  unfolding classify_active_card update_pin_management
  classify-IsFine h old =
      let classified = record (update_pin_management h) {
        state = card_state library h.card h.identity_read;
      } in
      pick IsFine h.view_active (λ seen. free_read-IsFine classified seen old)
        (λ unseen i. inl (old i))

  show_reader-IsFine :
      (reader : Option AgentReader) (h : Handler) → IsOld h → IsFine (show_reader library reader h)
  unfolding show_reader without_reader update_pin_management
  show_reader-IsFine none h old = λ i. inl (bind_card-IsOld none h old i)
  show_reader-IsFine (some reader) h old =
      let shown = record h { card_detected = false; reader_name = reader.name } in
      classify-IsFine (bind_card reader.card shown) (bind_card-IsOld reader.card shown old)

  refresh-IsFine : (h : Handler) → IsOld h → IsFine (refresh library h)
  unfolding refresh without_agent update_pin_management
  refresh-IsFine h old =
      pick IsFine (not h.widget.client.is_available) (λ away i. inl (bind_card-IsOld none h old i))
        (λ here. show_reader-IsFine (pick_active_reader library.chars h.widget) h old)

  photo_on-IsFine : (found : Option AgentCard) (h : Handler) → IsFine h → IsFine (photo_on found h)
  unfolding photo_on
  photo_on-IsFine none h fine = fine
  photo_on-IsFine (some card) h fine =
      pick IsFine (is_live h.photo_op) (λ busy. fine)
        (λ idle i. elim i [ inl this ↦ absurd (ground arith) | inr earlier ↦ fine earlier ])

  finished-IsFine :
      (texts : Texts) (r : Report) (h : Handler)
      → IsOld h
      → IsFine (on_operation_finished texts library r h)
  unfolding on_operation_finished start_photo_read
  finished-IsFine texts r h old =
      let over = record h { identity_op = none; busy = false } in
      let read = record over { identity_read = true; identity = r.identity } in
      pick IsFine (is_cancel r.status r.error_code r.call_error)
        (λ dismissed. classify-IsFine (record over { error_message = [] }) old)
        (λ went.
          pick IsFine (not (is_ok r.status)) (λ bad i. inl (old i))
            (λ ok.
              photo_on-IsFine (classify_active_card library read).card
                (classify_active_card library read) (classify-IsFine read old)))

  photo_finished-IsOld :
      (r : Report) (h : Handler) → IsOld h → IsOld (on_photo_finished library r h)
  unfolding on_photo_finished keep_photo
  photo_finished-IsOld r h old = elim (Option-cases r.payload) [
    | inl e ↦ ground arith
    | inr (bytes, e) ↦ ground arith
  ]

-- An identity read that an event begins, where the user did not ask for one by it, is of the card that is
-- then bound; the card's token asks for no unlock, and the view of the card is open.
pub step-IsFree :
    (texts : Texts) (library : Library) (h : Handler) (event : Event) (c op : ℕ)
    → IsUnasked event
    → In (read_identity c op) (step texts library h event).log
    → In (read_identity c op) h.log ⊎ IsFree library (step texts library h event) c
unfolding step start_agent on_agent_start_finished set_view_active
step-IsFree texts library h (registry client) c op u =
    refresh-IsFine library c op h.log (record h { widget = record h.widget { client = client } })
      (λ i. i)
step-IsFree texts library h (card_changed card) c op u =
    pick (IsFine library c op h.log) (same_card card h.card)
      (λ same. classify-IsFine library c op h.log (record h { card = some card }) (λ i. i))
      (λ other i. inl i)
step-IsFree texts library h card_destroyed c op u = λ i. inl i
step-IsFree texts library h (identity_finished ended r) c op u =
    pick (IsFine library c op h.log) (holds h.identity_op ended)
      (λ mine. finished-IsFine library c op h.log texts r h (λ i. i)) (λ stale i. inl i)
step-IsFree texts library h (photo_finished ended r) c op u =
    pick (IsFine library c op h.log) (holds h.photo_op ended)
      (λ mine i. inl (photo_finished-IsOld library c op h.log r h (λ i. i) i)) (λ stale i. inl i)
step-IsFree texts library h (view_moved true) c op u =
    pick (IsFine library c op h.log) (not h.view_active)
      (λ opens. free_read-IsFine library c op h.log (record h { view_active = true }) refl (λ i. i))
      (λ stays i. inl i)
step-IsFree texts library h (view_moved false) c op u = λ i. inl i
step-IsFree texts library h (reader_bound name) c op u =
    pick (IsFine library c op h.log) (text_eq h.widget.bound_reader_name name) (λ same i. inl i)
      (λ other.
        refresh-IsFine library c op h.log
          (record h { widget = set_bound_reader_name name h.widget }) (λ i. i))
step-IsFree texts library h (reader_selected name) c op u =
    pick (IsFine library c op h.log)
      (not (is_empty h.widget.bound_reader_name) || text_eq h.widget.selected_reader_name name)
      (λ same i. inl i)
      (λ other.
        refresh-IsFine library c op h.log (record h { widget = select_reader name h.widget })
          (λ i. i))
step-IsFree texts library h read_pressed c op u = elim u [ ]
step-IsFree texts library h start_pressed c op u =
    pick (IsFine library c op h.log) h.agent_starting (λ on i. inl i)
      (λ off i. elim i [ inl this ↦ absurd (ground arith) | inr earlier ↦ inl earlier ])
step-IsFree texts library h (start_answered failed) c op u =
    pick (IsFine library c op h.log) h.agent_starting
      (λ asked.
        refresh-IsFine library c op h.log
          (record h { agent_starting = false; agent_start_failed = failed }) (λ i. i))
      (λ unasked i. inl i)
