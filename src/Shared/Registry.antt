-- ===== src/Shared/Registry.antt =====
-- shared/agentclient/Cards.cpp and Readers.cpp: queries of the client's registry of readers and cards.
use libre_kde.Base.{
  ℕ, Bool, Text, codes, List, [], ◌∷◌, Option, none, some, if◌then◌else◌, All, pick, true, ◌≡◌,
}
use libre_kde.Shared.Agent.{Cap, AgentState}
use libre_kde.Shared.ErrorText.{Texts}

pub data ReaderInterface : Type 0 where
  contact contactless unknown : ReaderInterface

-- `object` tells the card objects of the client library apart, as their addresses do.
pub record AgentCard : Type 0 where
  pub object : ℕ
  pub id : Text
  pub reader_id : Text
  pub card_type : Text
  pub capabilities : Cap → Bool
  pub pre_read_auth : Text

pub record AgentReader : Type 0 where
  pub id : Text
  pub name : Text
  pub model : Text
  pub interface : ReaderInterface
  pub has_card : Bool
  pub card_id : Text
  pub card : Option AgentCard

-- The client library's answers at one moment.
pub record AgentClient : Type 0 where
  pub readers : List AgentReader
  pub reader : Text → Option AgentReader
  pub card : Text → Option AgentCard
  pub is_available : Bool
  pub agent_state : AgentState

abbrev pub has_capability : AgentCard → Cap → Bool
has_capability card cap = card.capabilities cap

with_card : Option AgentCard → Cap → List AgentCard → List AgentCard
with_card none cap rest = rest
with_card (some card) cap rest = if has_capability card cap then card ∷ rest else rest

cards_from : List AgentReader → Cap → List AgentCard
unfolding with_card
cards_from [] cap = []
cards_from (r ∷ readers) cap = with_card r.card cap (cards_from readers cap)

unfoldable pub cards_with_capability : AgentClient → Cap → List AgentCard
unfolding cards_from
cards_with_capability client cap = cards_from client.readers cap

-- Every card of the list has the capability.
abbrev pub AllHave : Cap → List AgentCard → Type 0
AllHave cap = All λ c. has_capability c cap ≡ true

with_card-AllHave :
    (card : Option AgentCard) (cap : Cap) (rest : List AgentCard)
    → AllHave cap rest
    → AllHave cap (with_card card cap rest)
unfolding with_card
with_card-AllHave none cap rest h = h
with_card-AllHave (some card) cap rest h =
    pick (AllHave cap) (has_capability card cap) (λ has. (has, h)) (λ lacks. h)

cards_from-AllHave : (readers : List AgentReader) (cap : Cap) → AllHave cap (cards_from readers cap)
unfolding cards_from
cards_from-AllHave [] cap = tt
cards_from-AllHave (r ∷ readers) cap =
    with_card-AllHave r.card cap (cards_from readers cap) (cards_from-AllHave readers cap)

pub cards_with_capability-AllHave :
    (client : AgentClient) (cap : Cap) → AllHave cap (cards_with_capability client cap)
unfolding cards_with_capability
cards_with_capability-AllHave client cap = cards_from-AllHave client.readers cap

unfoldable pub or_later : AgentReader → Option AgentCard → Option AgentReader → Option AgentReader
or_later r none later = later
or_later r (some card) later = some r

unfoldable pub first_with_card : List AgentReader → Option AgentReader
unfolding or_later
first_with_card [] = none
first_with_card (r ∷ readers) = or_later r r.card (first_with_card readers)

abbrev pub first_reader_with_card : AgentClient → Option AgentReader
first_reader_with_card client = first_with_card client.readers

-- `readerLabel`, of a model and an interface.
label_of : Texts → Text → ReaderInterface → Text
label_of texts model ReaderInterface.contact = texts.translate (codes "%1 — contact") (model ∷ [])
label_of texts model ReaderInterface.contactless =
    texts.translate (codes "%1 — contactless") (model ∷ [])
label_of texts model ReaderInterface.unknown = model

unfoldable pub reader_label : Texts → AgentReader → Text
unfolding label_of
reader_label texts reader = label_of texts reader.model reader.interface
