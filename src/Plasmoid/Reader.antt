-- ===== src/Plasmoid/Reader.antt =====
-- components/plasmoid/src/SmartCardHandler.cpp: which reader a widget shows, and what it says where none
-- holds a card that can be read.
pub mod Active
use libre_kde.Base.{
  Bool, true, false, not, ◌&&◌, ◌||◌, Text, is_empty, text_eq, List, [], ◌∷◌, Option, none, some,
  if◌then◌else◌, map,
}
use libre_kde.Plasmoid.Unit.{Chars, same_reader_unit}
use libre_kde.Shared.Registry.{AgentCard, AgentReader, AgentClient, first_reader_with_card}

-- The members of the handler that the choice reads, with the client's answers as they stand.
pub record Widget : Type 0 where
  pub client : AgentClient
  pub bound_reader_name : Text
  pub selected_reader_name : Text

-- The first reader that passes the test, as the loops look for one.
unfoldable pub first_where : (AgentReader → Bool) → List AgentReader → Option AgentReader
first_where test [] = none
first_where test (r ∷ readers) = if test r then some r else first_where test readers

abbrev pub is_some : Option AgentCard → Bool
is_some none = false
is_some (some card) = true

abbrev pub holds_card : AgentReader → Bool
holds_card r = is_some r.card

abbrev pub is_named : Text → AgentReader → Bool
is_named name r = text_eq r.name name

abbrev pub holds_card_as : Text → AgentReader → Bool
holds_card_as name r = text_eq r.name name && is_some r.card

-- `readerWithCardByName`.
unfoldable pub reader_with_card_by_name : AgentClient → Text → Option AgentReader
unfolding first_where
reader_with_card_by_name client name = first_where (holds_card_as name) client.readers

-- `availableReaderNames` and `readersWithCards` of the rosters.
unfoldable pub available_reader_names : AgentClient → List Text
available_reader_names client = map (λ (r : AgentReader). r.name) client.readers

names_with_cards : List AgentReader → List Text
names_with_cards [] = []
names_with_cards (r ∷ readers) =
    if holds_card r then r.name ∷ names_with_cards readers else names_with_cards readers

unfoldable pub readers_with_cards : AgentClient → List Text
unfolding names_with_cards
readers_with_cards client = names_with_cards client.readers

contains : List Text → Text → Bool
contains [] name = false
contains (n ∷ names) name = text_eq n name || contains names name

any_same_unit : Chars → Text → List Text → Bool
any_same_unit chars bound [] = false
any_same_unit chars bound (n ∷ names) =
    same_reader_unit chars bound n || any_same_unit chars bound names

-- `updateBoundReaderPresent`: the value that it publishes.
unfoldable pub bound_reader_present : Chars → Widget → Bool
unfolding contains any_same_unit
bound_reader_present chars w =
    not (is_empty w.bound_reader_name)
    && (contains (available_reader_names w.client) w.bound_reader_name
        || any_same_unit chars w.bound_reader_name (available_reader_names w.client))

-- The bound reader is off the roster: the device may be back under another name.
unfoldable pub renamed_reader : Chars → Widget → Option AgentReader
renamed_reader chars w =
    first_where (λ r. same_reader_unit chars w.bound_reader_name r.name && is_some r.card)
      w.client.readers

unfoldable pub bound_reader :
    Chars → Widget → Option AgentReader → Option AgentReader → Option AgentReader
unfolding renamed_reader
bound_reader chars w (some exact) listed = some exact
bound_reader chars w none (some listed) = none
bound_reader chars w none none = renamed_reader chars w

unfoldable pub or_first : AgentClient → Option AgentReader → Option AgentReader
or_first client (some selected) = some selected
or_first client none = first_reader_with_card client

-- `pickActiveReader`.
unfoldable pub pick_active_reader : Chars → Widget → Option AgentReader
unfolding bound_reader or_first
pick_active_reader chars w =
    if not (is_empty w.bound_reader_name)
    then bound_reader chars w (reader_with_card_by_name w.client w.bound_reader_name)
        (first_where (is_named w.bound_reader_name) w.client.readers)
    else or_first w.client (
        if is_empty w.selected_reader_name
        then none
        else reader_with_card_by_name w.client w.selected_reader_name)

unfoldable pub reports_card : Option AgentReader → Bool
reports_card none = false
reports_card (some r) = true

unfoldable pub bound_detected : Chars → Widget → Option AgentReader → Bool
unfolding reports_card
bound_detected chars w (some listed) = listed.has_card
bound_detected chars w none = reports_card (
    first_where (λ r. same_reader_unit chars w.bound_reader_name r.name && r.has_card)
      w.client.readers)

-- `computeCardDetected`.
unfoldable pub compute_card_detected : Chars → Widget → Bool
unfolding bound_detected reports_card
compute_card_detected chars w =
    if not (is_empty w.bound_reader_name)
    then bound_detected chars w (first_where (is_named w.bound_reader_name) w.client.readers)
    else reports_card (first_where (λ r. r.has_card) w.client.readers)

-- `setBoundReaderName` and `selectReader`, up to the refresh that follows a change.
unfoldable pub set_bound_reader_name : Text → Widget → Widget
set_bound_reader_name name w =
    if text_eq w.bound_reader_name name
    then w
    else record w { bound_reader_name = name; selected_reader_name = [] }

unfoldable pub select_reader : Text → Widget → Widget
select_reader name w =
    if not (is_empty w.bound_reader_name) then w else record w { selected_reader_name = name }
