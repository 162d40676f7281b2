-- ===== src/Signing/Selection.antt =====
-- shared/signing/CardSelection.cpp: which card signs. The chooser is a modal dialog: it answers with an
-- id, or none, and with the registry as it stands when it closes.
pub mod Honest
use libre_kde.Base.{
  ℕ, Bool, true, false, ◌||◌, not, Text, text_eq, text_eq_iff, List, [], ◌∷◌, Option, none, some,
  if◌then◌else◌, In, length, map, ◌≤◌, ◌≡◌, refl, ◌⊎◌, inl, inr, arith, pick, Option-cases,
  Bool-cases,
}
use libre_kde.Shared.Agent.{Cap, pki}
use libre_kde.Shared.Registry.{
  AgentCard, AgentReader, AgentClient, has_capability, cards_with_capability,
}

pub record CardChoice : Type 0 where
  pub card_id : Text
  pub reader_name : Text
  pub card_type : Text

-- The function that asks, or none.
abbrev pub CardChooser : Type 0
CardChooser = Option (List CardChoice → Option Text × AgentClient)

pub record SigningCardSelection : Type 0 where
  pub card : Option AgentCard
  pub cancelled : Bool

name_of : Option AgentReader → Text
name_of none = []
name_of (some reader) = reader.name

-- The name of the reader that holds the card, by the registry.
unfoldable pub reader_name : AgentClient → AgentCard → Text
unfolding name_of
reader_name client card = name_of (client.reader card.reader_id)

unfoldable pub choice_for : AgentClient → AgentCard → CardChoice
unfolding reader_name
choice_for client card = record {
  card_id = card.id;
  reader_name = reader_name client card;
  card_type = card.card_type;
}

unfoldable pub find_choice : Text → List CardChoice → Option CardChoice
find_choice id [] = none
find_choice id (c ∷ choices) = if text_eq c.card_id id then some c else find_choice id choices

abbrev pub selects : Option AgentCard → Bool → SigningCardSelection
selects card cancelled = record { card = card; cancelled = cancelled }

-- The card in the reader of the choice, and no other.
confirm : AgentClient → AgentCard → Option CardChoice → SigningCardSelection
unfolding reader_name
confirm client card none = selects none false
confirm client card (some choice) =
    if text_eq (reader_name client card) choice.reader_name
    then selects (some card) false
    else selects none false

resolve_card : AgentClient → List CardChoice → Text → Option AgentCard → SigningCardSelection
unfolding confirm
resolve_card client choices id none = selects none false
resolve_card client choices id (some card) =
    if has_capability card pki
    then confirm client card (find_choice id choices)
    else selects none false

answered : List CardChoice → Option Text → AgentClient → SigningCardSelection
unfolding resolve_card
answered choices none client = selects none true
answered choices (some id) client = resolve_card client choices id (client.card id)

asked : CardChooser → List CardChoice → SigningCardSelection
unfolding answered
asked none choices = selects none true
asked (some ask) choices = let (answer, client) = ask choices in answered choices answer client

select_among : AgentClient → CardChooser → List AgentCard → SigningCardSelection
unfolding asked
select_among client chooser [] = selects none false
select_among client chooser (card ∷ []) = selects (some card) false
select_among client chooser (c1 ∷ c2 ∷ cards) =
    asked chooser (map (choice_for client) (c1 ∷ c2 ∷ cards))

-- `chooseSigningCard`.
unfoldable pub choose_signing_card : AgentClient → CardChooser → SigningCardSelection
unfolding select_among
choose_signing_card client chooser = select_among client chooser (cards_with_capability client pki)

abbrev pub candidates : AgentClient → List AgentCard
candidates client = cards_with_capability client pki

abbrev pub choices : AgentClient → List CardChoice
choices client = map (choice_for client) (candidates client)
