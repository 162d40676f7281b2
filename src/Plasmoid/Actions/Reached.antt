-- ===== src/Plasmoid/Actions/Reached.antt =====
-- components/plasmoid/src/SmartCardHandler.cpp, `openInFiles` and `manageCredentials`: the other program shows
-- the reader that the widget shows.
use libre_kde.Base.{
  true, false, Text, is_empty, codes, text_eq, List, [], ◌∷◌, ◌++◌, Option, none, some, In, ◌≡◌,
  refl, sym, ap, subst, ◌∙◌, inl, inr, arith, Option-cases, pick,
}
use libre_kde.Shared.ErrorText.{Texts}
use libre_kde.Shared.Registry.{AgentCard, AgentReader, AgentClient}
use libre_kde.Kio.Source.{CardPresence, CardDataSource}
use libre_kde.Kio.Tree.{NodeKind, resolve, reader_names}
use libre_kde.Kio.Tree.Paths.{IsSegment}
use libre_kde.Kio.Tree.Resolution.{resolve_named}
use libre_kde.Kio.AgentSource.{presence_of, list_readers_with_cards}
use libre_kde.Kio.AgentSource.Presences.{list_readers_with_cards-IsPresent}
use libre_kde.Plasmoid.Handler.{
  Library, Handler, refresh, show_reader, bind_card, classify_active_card, ensure_free_read, rebind,
  read_now,
}
use libre_kde.Plasmoid.Reader.{pick_active_reader, is_some}
use libre_kde.Plasmoid.Reader.Active.{IsShown, pick_active_reader-IsShown}
use libre_kde.Plasmoid.Actions.{
  Effect, open_url, launch_command, card_url_for_reader, open_in_files, credentials_exe,
  credentials_launch_args, manage_credentials, warm_certificate_cache,
}
use libre_kde.Credentials.Controller.{Controller}
use libre_kde.Credentials.Controller.Binding.{bind_reader}
use libre_kde.Credentials.Main.{activate_requested}

-- Documented of the client: the card of a reader is the one that the registry has under the reader's card id, and
-- the reader reports it.
pub record IsConsistent (client : AgentClient) : Type 0 where
  pub held :
      (reader : AgentReader) (card : AgentCard)
      → In reader client.readers
      → reader.card ≡ some card
      → (reader.has_card ≡ true) × (client.card reader.card_id ≡ some card)

bind_card-reader_name :
    (card : Option AgentCard) (h : Handler) → (bind_card card h).reader_name ≡ h.reader_name
unfolding bind_card rebind
bind_card-reader_name none h = refl
bind_card-reader_name (some card) h = ground arith

classify_active_card-reader_name :
    (library : Library) (h : Handler) → (classify_active_card library h).reader_name ≡ h.reader_name
unfolding classify_active_card ensure_free_read read_now
classify_active_card-reader_name library h = elim (Option-cases h.card) [
  | inl e ↦ ground arith
  | inr (card, e) ↦ ground arith
]

show_reader-reader_name :
    (library : Library) (reader : AgentReader) (h : Handler)
    → (show_reader library (some reader) h).reader_name ≡ reader.name
unfolding show_reader
show_reader-reader_name library reader h =
    let named = record h { card_detected = false; reader_name = reader.name } in
    classify_active_card-reader_name library (bind_card reader.card named)
    ∙ bind_card-reader_name reader.card named

refresh-reader_name :
    (library : Library) (h : Handler) (reader : AgentReader)
    → h.widget.client.is_available ≡ true
    → pick_active_reader library.chars h.widget ≡ some reader
    → (refresh library h).reader_name ≡ reader.name
unfolding refresh
refresh-reader_name library h reader up shown =
    ground (arith, up, shown, show_reader-reader_name library reader h)

last-In : (e : Effect) (es : List Effect) → In e (es ++ e ∷ [])
last-In e [] = inl refl
last-In e (x ∷ es) = inr (last-In e es)

open_in_files-In :
    (library : Library) (display : Text → Text) (h : Handler) (name : Text)
    → h.reader_name ≡ name
    → is_empty name ≡ false
    → In (open_url (card_url_for_reader display name)) (open_in_files library display h)
unfolding open_in_files
open_in_files-In library display h name e full =
    pick (In (open_url (card_url_for_reader display name))) (is_empty h.reader_name)
      (λ bad. absurd (ground (arith, e, bad, full)))
      (λ _.
        subst
          (λ n.
            In (open_url (card_url_for_reader display name))
              (warm_certificate_cache library h ++ open_url (card_url_for_reader display n) ∷ []))
          (sym e) (last-In _ _))

In-reader_names :
    (p : CardPresence) (ps : List CardPresence) → In p ps → In p.reader_name (reader_names ps)
In-reader_names p [] i = i
In-reader_names p (q ∷ ps) (inl e) = inl (ap (λ (x : CardPresence). x.reader_name) e)
In-reader_names p (q ∷ ps) (inr i) = inr (In-reader_names p ps i)

held_card : (o : Option AgentCard) → is_some o ≡ true → (card : AgentCard) × (o ≡ some card)
held_card none e = absurd (ground arith)
held_card (some card) e = (card, refl)

-- A reader that a widget may show stands in the worker's list.
reader-In :
    (texts : Texts) (library : Library) (h : Handler) (reader : AgentReader)
    → IsConsistent h.widget.client
    → pick_active_reader library.chars h.widget ≡ some reader
    → In reader.name (reader_names (list_readers_with_cards texts h.widget.client))
unfolding list_readers_with_cards
reader-In texts library h reader consistent shown =
    let client = h.widget.client in
    let (among, holds, bound, unbound) =
      subst (IsShown library.chars h.widget) shown
        (pick_active_reader-IsShown library.chars h.widget) in
    let (card, e) = held_card reader.card holds in
    let (has, registered) = consistent.held reader card among e in
    In-reader_names (presence_of texts reader card) (list_readers_with_cards texts client) (
      (list_readers_with_cards-IsPresent texts client (presence_of texts reader card)).1
        (reader, card, among, has, registered, refl))

-- Where the client is consistent and the worker lists the readers of the same client: a widget that shows a
-- reader after a refresh opens the file manager on an address that the worker resolves to a folder of a
-- reader of that name, where the name is a possible path segment.
pub open_in_files-resolve :
    (texts : Texts) (library : Library) (display : Text → Text) (h : Handler) (reader : AgentReader)
    (source : CardDataSource)
    → IsConsistent h.widget.client
    → source.list_readers_with_cards ≡ list_readers_with_cards texts h.widget.client
    → h.widget.client.is_available ≡ true
    → pick_active_reader library.chars h.widget ≡ some reader
    → IsSegment reader.name
    → In
        (open_url (card_url_for_reader display reader.name))
        (open_in_files library display (refresh library h))
      × ((resolve source (card_url_for_reader display reader.name)).kind ≡ NodeKind.reader)
      × ((resolve source (card_url_for_reader display reader.name)).reader_name ≡ reader.name)
unfolding card_url_for_reader
open_in_files-resolve texts library display h reader source consistent listed up shown s =
    let url = card_url_for_reader display reader.name in
    let name = refresh-reader_name library h reader up shown in
    let among =
      subst (λ ps. In reader.name (reader_names ps)) (sym listed)
        (reader-In texts library h reader consistent shown) in
    let (folder, named) = resolve_named source url reader.name among s refl in
    (open_in_files-In library display (refresh library h) reader.name name s.0, folder, named)

-- The credentials window that a widget launches for a card, where it runs already and is handed the
-- arguments, binds the reader of that card, and no other.
pub manage_credentials-activate_requested :
    (texts : Texts) (h : Handler) (card : AgentCard) (s : Controller)
    → h.card ≡ some card
    → (args : List Text) × (desktop : Text) × (manage_credentials h
        ≡ launch_command credentials_exe args desktop ∷ [])
      × (activate_requested texts (credentials_exe ∷ args) s ≡ bind_reader texts card.reader_id s)
unfolding manage_credentials activate_requested credentials_launch_args text_eq
manage_credentials-activate_requested texts h card s e =
    (credentials_launch_args card.reader_id, codes "org.librescrs.credentials", rw e refl, refl)
