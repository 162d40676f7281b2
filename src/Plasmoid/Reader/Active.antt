-- ===== src/Plasmoid/Reader/Active.antt =====
-- components/plasmoid/src/SmartCardHandler.cpp: the reader that is shown is the right one, and one is
-- shown where there is one.
use libre_kde.Base.{
  Bool, true, false, not, ◌&&◌, is_empty, text_eq_iff, List, [], ◌∷◌, Option, none, some, In, All,
  if◌then◌else◌, ◌≡◌, ◌≢◌, refl, subst, sym, ◌⊎◌, inl, inr, arith, pick, Bool-cases, Option-cases,
}
use libre_kde.Shared.Registry.{AgentReader, first_reader_with_card, first_with_card, or_later}
use libre_kde.Plasmoid.Unit.{Chars, same_reader_unit}
use libre_kde.Plasmoid.Reader.{
  is_some, Widget, first_where, holds_card, is_named, holds_card_as, reader_with_card_by_name,
  bound_reader, renamed_reader, or_first, pick_active_reader,
}

first_where-found :
    (test : AgentReader → Bool) (readers : List AgentReader) (r : AgentReader)
    → first_where test readers ≡ some r
    → In r readers × (test r ≡ true)
unfolding first_where
first_where-found test [] r e = absurd (ground arith)
first_where-found test (x ∷ readers) r e = elim (Bool-cases (test x)) [
  | inl this ↦ (inl (ground arith), subst (λ y. test y ≡ true) (ground arith) this)
  | inr other ↦ let (i, t) = first_where-found test readers r (ground arith) in (inr i, t)
]

first_where-none :
    (test : AgentReader → Bool) (readers : List AgentReader)
    → first_where test readers ≡ none
    → All (λ r. test r ≡ false) readers
unfolding first_where
first_where-none test [] e = tt
first_where-none test (x ∷ readers) e = (ground arith, first_where-none test readers (ground arith))

first_with_card-where :
    (readers : List AgentReader) → first_with_card readers ≡ first_where holds_card readers
unfolding first_with_card first_where or_later
first_with_card-where [] = refl
first_with_card-where (r ∷ readers) = elim (Option-cases r.card) [
  | inl e ↦ ground (arith, first_with_card-where readers)
  | inr (card, e) ↦ ground arith
]

-- A reader that a bound widget may show: the bound one, or one of the same device while the bound name is
-- off the roster.
abbrev pub IsBound : Chars → Widget → AgentReader → Type 0
IsBound chars w r =
    (r.name ≡ w.bound_reader_name)
    ⊎ (All (λ x. is_named w.bound_reader_name x ≡ false) w.client.readers
        × (same_reader_unit chars w.bound_reader_name r.name ≡ true))

-- A reader that an unbound widget may show: the selected one, unless that holds no card.
abbrev pub IsSelected : Widget → AgentReader → Type 0
IsSelected w r =
    (w.selected_reader_name ≡ [])
    ⊎ (r.name ≡ w.selected_reader_name)
    ⊎ All (λ x. holds_card_as w.selected_reader_name x ≡ false) w.client.readers

-- No reader is one that the widget may show.
abbrev pub IsNone : Chars → Widget → Type 0
IsNone chars w =
    (w.bound_reader_name ≡ [] → All (λ x. holds_card x ≡ false) w.client.readers)
    × (w.bound_reader_name ≢ []
        → All (λ x. holds_card_as w.bound_reader_name x ≡ false) w.client.readers
          × (((x : AgentReader) × In x w.client.readers × (x.name ≡ w.bound_reader_name))
              ⊎ All
                  (λ x.
                    (same_reader_unit chars w.bound_reader_name x.name && is_some x.card) ≡ false)
                  w.client.readers))

abbrev pub IsShown : Chars → Widget → Option AgentReader → Type 0
IsShown chars w none = IsNone chars w
IsShown chars w (some r) =
    In r w.client.readers
    × (holds_card r ≡ true)
    × (w.bound_reader_name ≢ [] → IsBound chars w r)
    × (w.bound_reader_name ≡ [] → IsSelected w r)

renamed-IsShown :
    (chars : Chars) (w : Widget) (found : Option AgentReader)
    → w.bound_reader_name ≢ []
    → first_where (holds_card_as w.bound_reader_name) w.client.readers ≡ none
    → first_where (is_named w.bound_reader_name) w.client.readers ≡ none
    → renamed_reader chars w ≡ found
    → IsShown chars w found
unfolding renamed_reader
renamed-IsShown chars w none bound e l f = (
  (λ u. absurd (bound u)),
  (λ b. (
    first_where-none (holds_card_as w.bound_reader_name) w.client.readers e,
    inr (first_where-none _ w.client.readers f),
  )),
)
renamed-IsShown chars w (some r) bound e l f =
    let (i, t) =
      first_where-found (λ x. same_reader_unit chars w.bound_reader_name x.name && is_some x.card)
        w.client.readers r f in
    (
      i,
      ground arith,
      (λ b. inr (first_where-none (is_named w.bound_reader_name) w.client.readers l, ground arith)),
      λ u. absurd (bound u),
    )

bound_reader-IsShown :
    (chars : Chars) (w : Widget) (exact listed : Option AgentReader)
    → w.bound_reader_name ≢ []
    → reader_with_card_by_name w.client w.bound_reader_name ≡ exact
    → first_where (is_named w.bound_reader_name) w.client.readers ≡ listed
    → IsShown chars w (bound_reader chars w exact listed)
unfolding bound_reader reader_with_card_by_name
bound_reader-IsShown chars w (some r) listed bound e l =
    let (i, t) = first_where-found (holds_card_as w.bound_reader_name) w.client.readers r e in
    (
      i,
      ground arith,
      (λ b. inl (ground (arith, text_eq_iff r.name w.bound_reader_name))),
      λ u. absurd (bound u),
    )
bound_reader-IsShown chars w none (some r) bound e l =
    let (i, t) = first_where-found (is_named w.bound_reader_name) w.client.readers r l in
    (
      (λ u. absurd (bound u)),
      (λ b. (
        first_where-none (holds_card_as w.bound_reader_name) w.client.readers e,
        inl (r, i, (text_eq_iff r.name w.bound_reader_name).0 t),
      )),
    )
bound_reader-IsShown chars w none none bound e l =
    renamed-IsShown chars w (renamed_reader chars w) bound e l refl

first-IsShown :
    (chars : Chars) (w : Widget) (found : Option AgentReader)
    → w.bound_reader_name ≡ []
    → (w.selected_reader_name ≡ [])
      ⊎ All (λ x. holds_card_as w.selected_reader_name x ≡ false) w.client.readers
    → first_where holds_card w.client.readers ≡ found
    → IsShown chars w found
first-IsShown chars w none unbound unselected f =
    ((λ u. first_where-none holds_card w.client.readers f), (λ b. absurd (b unbound)))
first-IsShown chars w (some r) unbound unselected f =
    let (i, t) = first_where-found holds_card w.client.readers r f in
    (
      i,
      t,
      (λ b. absurd (b unbound)),
      λ u. elim unselected [ inl none_picked ↦ inl none_picked | inr no_card ↦ inr (inr no_card) ],
    )

selected-IsShown :
    (chars : Chars) (w : Widget) (picked : Bool) (selected : Option AgentReader)
    → w.bound_reader_name ≡ []
    → is_empty w.selected_reader_name ≡ picked
    → (if picked then none else reader_with_card_by_name w.client w.selected_reader_name) ≡ selected
    → IsShown chars w (or_first w.client selected)
unfolding or_first reader_with_card_by_name
selected-IsShown chars w true none unbound p s =
    first-IsShown chars w (first_reader_with_card w.client) unbound (inl (ground arith))
      (sym (first_with_card-where w.client.readers))
selected-IsShown chars w true (some r) unbound p s = absurd (ground arith)
selected-IsShown chars w false none unbound p s =
    first-IsShown chars w (first_reader_with_card w.client) unbound
      (inr (first_where-none (holds_card_as w.selected_reader_name) w.client.readers s))
      (sym (first_with_card-where w.client.readers))
selected-IsShown chars w false (some r) unbound p s =
    let (i, t) = first_where-found (holds_card_as w.selected_reader_name) w.client.readers r s in
    (
      i,
      ground arith,
      (λ b. absurd (b unbound)),
      λ u. inr (inl (ground (arith, text_eq_iff r.name w.selected_reader_name))),
    )

-- The reader that a widget shows is one of the client's and holds a card that can be read. A bound widget
-- shows the bound reader, or, while no reader has the bound name, one that is the same device; an
-- unbound one shows the selected reader, unless no reader of that name holds a card. Where none is shown
-- there is none to show: no reader holds a card, or none of the bound name does and, with the name off
-- the roster, none of the same device.
pub pick_active_reader-IsShown :
    (chars : Chars) (w : Widget) → IsShown chars w (pick_active_reader chars w)
unfolding pick_active_reader
pick_active_reader-IsShown chars w =
    pick (IsShown chars w) (not (is_empty w.bound_reader_name))
      (λ bound. bound_reader-IsShown chars w _ _ (ground arith) refl refl)
      (λ unbound.
        selected-IsShown chars w (is_empty w.selected_reader_name) _ (ground arith) refl refl)
