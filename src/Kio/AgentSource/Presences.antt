-- ===== src/Kio/AgentSource/Presences.antt =====
-- components/kio/AgentCardDataSource.cpp: the readers that the worker lists are the ones with a card.
use libre_kde.Base.{
  true, List, [], ◌∷◌, Option, none, some, In, ◌≡◌, refl, subst, sym, pick, ◌↔◌, ◌⊎◌, inl, inr,
  arith, Bool-cases,
}
use libre_kde.Shared.ErrorText.{Texts}
use libre_kde.Shared.Registry.{AgentCard, AgentReader, AgentClient}
use libre_kde.Kio.Source.{CardPresence}
use libre_kde.Kio.AgentSource.{presence_of, with_presence, presences, list_readers_with_cards}

-- The presence is that of a reader which reports a card that the client can give.
abbrev pub IsPresent : Texts → AgentClient → List AgentReader → CardPresence → Type 0
IsPresent texts client readers p =
    (reader : AgentReader) × (card : AgentCard) × In reader readers
    × (reader.has_card ≡ true)
    × (client.card reader.card_id ≡ some card)
    × (p ≡ presence_of texts reader card)

-- The presence is that of this very reader.
abbrev IsOf : Texts → AgentClient → AgentReader → CardPresence → Type 0
IsOf texts client r p =
    (card : AgentCard) × (r.has_card ≡ true)
    × (client.card r.card_id ≡ some card)
    × (p ≡ presence_of texts r card)

with_presence-cases :
    (texts : Texts) (r : AgentReader) (found : Option AgentCard) (rest : List CardPresence)
    (p : CardPresence)
    → In p (with_presence texts r found rest)
    → ((card : AgentCard) × (found ≡ some card) × (p ≡ presence_of texts r card)) ⊎ In p rest
unfolding with_presence
with_presence-cases texts r none rest p i = inr i
with_presence-cases texts r (some card) rest p (inl this) = inl (card, refl, this)
with_presence-cases texts r (some card) rest p (inr later) = inr later

with_presence-In :
    (texts : Texts) (r : AgentReader) (found : Option AgentCard) (rest : List CardPresence)
    (p : CardPresence)
    → In p rest
    → In p (with_presence texts r found rest)
unfolding with_presence
with_presence-In texts r none rest p i = i
with_presence-In texts r (some card) rest p i = inr i

presences-first :
    (texts : Texts) (client : AgentClient) (r : AgentReader) (readers : List AgentReader)
    (p : CardPresence)
    → In p (presences texts client (r ∷ readers))
    → IsOf texts client r p ⊎ In p (presences texts client readers)
unfolding presences
presences-first texts client r readers p i = elim (Bool-cases r.has_card) [
  | inl has ↦
      elim (with_presence-cases texts r (client.card r.card_id) (presences texts client readers) p
        (ground arith)) [ inl (card, e, this) ↦ inl (card, has, e, this) | inr later ↦ inr later ]
  | inr lacks ↦ inr (ground arith)
]

first-In :
    (texts : Texts) (client : AgentClient) (r : AgentReader) (readers : List AgentReader)
    (card : AgentCard)
    → r.has_card ≡ true
    → client.card r.card_id ≡ some card
    → In (presence_of texts r card) (presences texts client (r ∷ readers))
unfolding presences with_presence
first-In texts client r readers card has e = ground arith

presences-IsPresent :
    (texts : Texts) (client : AgentClient) (readers : List AgentReader) (p : CardPresence)
    → In p (presences texts client readers)
    → IsPresent texts client readers p
unfolding presences
presences-IsPresent texts client [] p i = elim i [ ]
presences-IsPresent texts client (r ∷ readers) p i =
    elim (presences-first texts client r readers p i) [
      | inl (card, has, e, made) ↦ (r, card, inl refl, has, e, made)
      | inr later ↦
          let (reader, card, among, has, e, made) =
            presences-IsPresent texts client readers p later in
          (reader, card, inr among, has, e, made)
    ]

presences-In :
    (texts : Texts) (client : AgentClient) (readers : List AgentReader) (reader : AgentReader)
    (card : AgentCard)
    → In reader readers
    → reader.has_card ≡ true
    → client.card reader.card_id ≡ some card
    → In (presence_of texts reader card) (presences texts client readers)
unfolding presences
presences-In texts client [] reader card i has e = elim i [ ]
presences-In texts client (r ∷ readers) reader card (inl this) has e =
    subst (λ x. In (presence_of texts x card) (presences texts client (r ∷ readers))) (sym this)
      (first-In texts client r readers card (ground arith) (ground arith))
presences-In texts client (r ∷ readers) reader card (inr later) has e =
    pick (λ (ps : List CardPresence). In (presence_of texts reader card) ps) r.has_card
      (λ here.
        with_presence-In texts r (client.card r.card_id) (presences texts client readers) _
          (presences-In texts client readers reader card later has e))
      (λ lacks. presences-In texts client readers reader card later has e)

-- A presence is listed just where a reader of the client reports a card, the client has the card that
-- it names, and the presence is made of those two.
pub list_readers_with_cards-IsPresent :
    (texts : Texts) (client : AgentClient) (p : CardPresence)
    → In p (list_readers_with_cards texts client) ↔ IsPresent texts client client.readers p
unfolding list_readers_with_cards
list_readers_with_cards-IsPresent texts client p = (
  presences-IsPresent texts client client.readers p,
  (λ (reader, card, i, has, e, made).
      rw made (presences-In texts client client.readers reader card i has e)),
)
