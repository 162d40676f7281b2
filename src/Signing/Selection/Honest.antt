-- ===== src/Signing/Selection/Honest.antt =====
-- shared/signing/CardSelection.cpp: the card that is given is the one that was meant.
use libre_kde.Base.{
  Bool, true, false, Text, text_eq, text_eq_iff, List, [], ◌∷◌, Option, none, some, if◌then◌else◌,
  map, ◌≡◌, subst, refl, ◌⊎◌, inl, inr, arith, Option-cases,
}
use libre_kde.Shared.Agent.{pki}
use libre_kde.Shared.Registry.{
  AgentCard, AgentClient, has_capability, AllHave, cards_with_capability-AllHave,
}
use libre_kde.Signing.Selection.{
  CardChoice, CardChooser, SigningCardSelection, reader_name, choice_for, find_choice, confirm,
  resolve_card, answered, asked, select_among, choose_signing_card, candidates, choices, selects,
}

-- The choice was put to someone, who declined it, or there is no one to put it to.
abbrev IsDeclined : CardChooser → List CardChoice → Type 0
IsDeclined chooser shown =
    (chooser ≡ none)
    ⊎ ((ask : List CardChoice → Option Text × AgentClient) × (after : AgentClient) × (chooser
          ≡ some ask)
        × (ask shown ≡ (none, after)))

abbrev IsConfirmed : AgentClient → List CardChoice → Text → AgentCard → Type 0
IsConfirmed after shown id card =
    (choice : CardChoice) × (after.card id ≡ some card)
    × (has_capability card pki ≡ true)
    × (find_choice id shown ≡ some choice)
    × (reader_name after card ≡ choice.reader_name)

-- A card that comes through a guard.
guarded :
    (b : Bool) (s : SigningCardSelection) (card : AgentCard)
    → (if b then s else selects none false).card ≡ some card
    → (b ≡ true) × (s.card ≡ some card)
guarded true s card e = (refl, e)
guarded false s card e = absurd (ground arith)

confirm-IsConfirmed :
    (after : AgentClient) (shown : List CardChoice) (id : Text) (held card : AgentCard)
    → after.card id ≡ some held
    → has_capability held pki ≡ true
    → (found : Option CardChoice) → find_choice id shown ≡ found
    → (confirm after held found).card ≡ some card
    → IsConfirmed after shown id card
unfolding confirm
confirm-IsConfirmed after shown id held card h p none f e = absurd (ground arith)
confirm-IsConfirmed after shown id held card h p (some choice) f e =
    let (same, here) =
      guarded (text_eq (reader_name after held) choice.reader_name) (selects (some held) false) card
        e in
    let named = (text_eq_iff (reader_name after held) choice.reader_name).0 same in
    subst (λ c. IsConfirmed after shown id c) (ground arith) (choice, h, p, f, named)

resolve_card-IsConfirmed :
    (after : AgentClient) (shown : List CardChoice) (id : Text) (card : AgentCard)
    (found : Option AgentCard)
    → after.card id ≡ found
    → (resolve_card after shown id found).card ≡ some card
    → IsConfirmed after shown id card
unfolding resolve_card
resolve_card-IsConfirmed after shown id card none f e = absurd (ground arith)
resolve_card-IsConfirmed after shown id card (some held) f e =
    let (can, through) =
      guarded (has_capability held pki) (confirm after held (find_choice id shown)) card e in
    confirm-IsConfirmed after shown id held card f can (find_choice id shown) refl through

-- What the answer of a chooser may be.
abbrev IsAnswer : CardChooser → List CardChoice → SigningCardSelection → Type 0
IsAnswer chooser shown s =
    (s.cancelled ≡ true → (s.card ≡ none) × IsDeclined chooser shown)
    × ((card : AgentCard)
        → s.card ≡ some card
        → (ask : List CardChoice → Option Text × AgentClient) × (id : Text) × (after : AgentClient)
          × (chooser ≡ some ask)
          × (ask shown ≡ (some id, after))
          × IsConfirmed after shown id card)

uncancelled :
    (after : AgentClient) (shown : List CardChoice) (id : Text) (found : Option AgentCard)
    → (resolve_card after shown id found).cancelled ≡ false
unfolding resolve_card confirm
uncancelled after shown id none = refl
uncancelled after shown id (some held) = elim (Option-cases (find_choice id shown)) [
  | inl e ↦ ground arith
  | inr (choice, e) ↦ ground arith
]

answered-IsAnswer :
    (ask : List CardChoice → Option Text × AgentClient) (shown : List CardChoice)
    (answer : Option Text) (after : AgentClient)
    → ask shown ≡ (answer, after)
    → IsAnswer (some ask) shown (answered shown answer after)
unfolding answered
answered-IsAnswer ask shown none after e =
    (λ c. (refl, inr (ask, after, refl, e)), λ card f. absurd (ground arith))
answered-IsAnswer ask shown (some id) after e = (
  λ c. absurd (ground (arith, uncancelled after shown id (after.card id))),
  λ card f. (
    ask,
    id,
    after,
    refl,
    e,
    resolve_card-IsConfirmed after shown id card (after.card id) refl f,
  ),
)

asked-IsAnswer :
    (chooser : CardChooser) (shown : List CardChoice) → IsAnswer chooser shown (asked chooser shown)
unfolding asked
asked-IsAnswer none shown = (λ c. (refl, inl refl), λ card f. absurd (ground arith))
asked-IsAnswer (some ask) shown = answered-IsAnswer ask shown (ask shown).0 (ask shown).1 refl

-- What the selection means, for the candidates that stood when it was asked for.
abbrev pub IsHonest : CardChooser → List AgentCard → List CardChoice → SigningCardSelection → Type 0
IsHonest chooser [] shown s = (s.card ≡ none) × (s.cancelled ≡ false)
IsHonest chooser (card ∷ []) shown s = (s.card ≡ some card) × (s.cancelled ≡ false)
IsHonest chooser (c1 ∷ c2 ∷ cards) shown s = IsAnswer chooser shown s

select-IsHonest :
    (client : AgentClient) (chooser : CardChooser) (cards : List AgentCard)
    → IsHonest chooser cards (map (choice_for client) cards) (select_among client chooser cards)
unfolding select_among
select-IsHonest client chooser [] = (refl, refl)
select-IsHonest client chooser (card ∷ []) = (refl, refl)
select-IsHonest client chooser (c1 ∷ c2 ∷ cards) =
    asked-IsAnswer chooser (map (choice_for client) (c1 ∷ c2 ∷ cards))

-- With no card that can sign there is none and with one it is that one, neither a cancellation. With
-- more, a cancellation has no card, and comes from a chooser that declined or from the lack of one; and
-- a card that is given is the one that the chooser's id names in the registry after the dialog, can
-- still sign, and is in a reader of the name that the choice of that id showed.
pub choose_signing_card-IsHonest :
    (client : AgentClient) (chooser : CardChooser)
    → IsHonest chooser (candidates client) (choices client) (choose_signing_card client chooser)
unfolding choose_signing_card
choose_signing_card-IsHonest client chooser = select-IsHonest client chooser (candidates client)

honest-pki :
    (chooser : CardChooser) (cards : List AgentCard) (shown : List CardChoice)
    (s : SigningCardSelection) (card : AgentCard)
    → AllHave pki cards
    → IsHonest chooser cards shown s
    → s.card ≡ some card
    → has_capability card pki ≡ true
honest-pki chooser [] shown s card all h e = absurd (ground (arith, h.0, e))
honest-pki chooser (c ∷ []) shown s card all h e =
    let same : c ≡ card = ground (arith, h.0, e) in
    subst (λ x. has_capability x pki ≡ true) same all.0
honest-pki chooser (c1 ∷ c2 ∷ cards) shown s card all h e =
    let (ask, id, after, asks, answers, confirmed) = h.1 card e in confirmed.2

-- A card that is given can sign.
pub choose_signing_card-pki :
    (client : AgentClient) (chooser : CardChooser) (card : AgentCard)
    → (choose_signing_card client chooser).card ≡ some card
    → has_capability card pki ≡ true
choose_signing_card-pki client chooser card =
    honest-pki chooser (candidates client) (choices client) (choose_signing_card client chooser)
      card (cards_with_capability-AllHave client pki) (choose_signing_card-IsHonest client chooser)
